-- ===== src/Store/Stored.antt =====
-- rust/bloomfs-store/src/lib.rs: what `write` promises, and a block that is there already.
use bloomfs.Base.{
  ℕ, ◌+◌, ◌^◌, ◌<◌, ◌≡◌, refl, ap, sym, ◌∙◌, Option, none, some, List, if◌then◌else◌, Result, ok,
  err, arith,
}
use bloomfs.Base.Assoc.{bytes_eq}
use bloomfs.Block.{Device, MayFail}
use bloomfs.Alloc.{get}
use bloomfs.Dedup.{Key, Entry, lookup, incr}
use bloomfs.Dedup.RefCounts.{refs_of, refs_in, incr_lem}
use bloomfs.Store.{Crates, BlockStore, Ref, Error, Pool, ref_from, read}
use bloomfs.Store.Sectors.{IsSound, read_hash}
use bloomfs.Store.Invariant.{ref_at, ref_in, ref_at-incr, IsConsistent}

module _ (c : Crates) (bs : BlockStore) (d : Device) (IsGood : d.State → Type 0) where
  -- Every reference of the table is still there and reads what it read.
  abbrev pub Keeps : Pool d → Pool d → Type 0
  Keeps p p' =
      (k : Key) (r : Ref)
      → ref_at p.ddt k ≡ some r
      → (ref_at p'.ddt k ≡ some r) × (read c bs d p'.dev r ≡ read c bs d p.dev r)

  -- What `write` promises on each branch.
  abbrev pub Stored : Pool d → List ℕ → Pool d × Result Error Ref → Type 0
  Stored p x (p', ok r) =
      IsConsistent c bs d IsGood p'
      × Keeps p p'
      × (ref_at p'.ddt (c.blake3 x) ≡ some r)
      × ((k : Key)
          → refs_of p'.ddt k
            ≡ (if bytes_eq (c.blake3 x) k then refs_of p.ddt k + 1 else refs_of p.ddt k))
      × (y : List ℕ) × (read c bs d p'.dev r ≡ ok y)
      × (c.blake3 y ≡ c.blake3 x)
      × (ref_at p.ddt (c.blake3 x) ≡ none → y ≡ x)
  Stored p x (p', err e) =
      IsConsistent c bs d IsGood p'
      × Keeps p p'
      × (p'.ddt ≡ p.ddt)
      × ((j : ℕ) → get p'.bm j ≡ get p.bm j)

  module _ (sound : IsSound c) (IsTorn : List ℕ → Type 0) (lp : MayFail d IsGood IsTorn)
      (p : Pool d) (v : IsConsistent c bs d IsGood p) (x : List ℕ) where
    abbrev key : Key
    key = c.blake3 x

    -- A block that is there already.
    pub hit :
        (e : Entry)
        → lookup p.ddt key ≡ some e
        → refs_of p.ddt key + 1 < 2 ^ 32
        → Stored p x
            (record { dev = p.dev; bm = p.bm; ddt = (incr p.ddt key).0 }, ok (ref_from key e))
    unfolding ref_from
    hit e h room =
        let (counted, known, refs) = incr_lem p.ddt key v.counted room in
        let (lo, hi) = v.counted.positive key e h in
        let here : ref_at p.ddt key ≡ some (ref_from key e) = ap (ref_in key) h in
        let there : (k : Key) (r : Ref)
            → ref_at (incr p.ddt key).0 k ≡ some r
            → ref_at p.ddt k ≡ some r =
          λ k r q. sym (ref_at-incr p.ddt key k) ∙ q in
        let placed = v.placed key (ref_from key e) here in
        (
          record {
            good = v.good;
            safe = v.safe;
            room = v.room;
            pending_fit = v.pending_fit;
            counted = counted;
            placed = λ k r q.
                (let old = v.placed k r (there k r q) in
                  record {
                    inside = old.inside;
                    marked = old.marked;
                    unpinned = old.unpinned;
                    content = old.content;
                    intact = old.intact;
                  });
            apart = λ k k' r r' n q q'. v.apart k k' r r' n (there k r q) (there k' r' q');
          },
          λ k r q. (ref_at-incr p.ddt key k ∙ q, refl),
          ref_at-incr p.ddt key key ∙ here,
          λ k. ground (arith, refs k, ap (λ (o : Option Entry). refs_in o) h),
          placed.content,
          placed.intact,
          (read_hash c bs d p.dev (ref_from key e) placed.content placed.intact).0,
          λ n. (let clash : ◌≡◌ {A = Option Ref} none (some (ref_from key e)) = sym n ∙ here in cc),
        )
