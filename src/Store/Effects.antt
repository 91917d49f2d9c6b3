-- ===== src/Store/Effects.antt =====
-- rust/bloomfs-store/src/lib.rs: what `write` does to the table and to the pending clusters.
use bloomfs.Base.{
  ℕ, ◌*◌, ◌≡◌, refl, ap, sym, subst, ◌∙◌, Bool, some, List, if◌then◌else◌, Bool-cases, Option-cases,
  Result-cases, inl, inr, length, replicate, Result, ok, err, arith,
}
use bloomfs.Base.Fields.{copy_at}
use bloomfs.Base.Assoc.{bytes_eq, bytes_eq_iff}
use bloomfs.Block.{Device}
use bloomfs.Alloc
use bloomfs.Alloc.{Bitmap}
use bloomfs.Alloc.Invariant
use bloomfs.Alloc.Runs.{free_frame}
use bloomfs.Alloc.FirstFit.{Allocated, alloc-Allocated}
use bloomfs.Dedup.{Key, Entry, Table, lookup, incr}
use bloomfs.Store.{
  Crates, BlockStore, Ref, Error, Pool, ref_from, clusters, choose_payload, new_entry,
  write_clusters, fill, write_new, write,
}
use bloomfs.Store.Refs.{IsEncodable}
use bloomfs.Store.Sectors.{IsSound}
use bloomfs.Store.Invariant.{ref_at, ref_in, ref_at-incr, ref_at-add}

-- The references of the table fit their words.
abbrev pub AllEncodable : Table → Type 0
AllEncodable t = (k : Key) (r : Ref) → ref_at t k ≡ some r → IsEncodable r

module _ (c : Crates) (bs : BlockStore) (d : Device) where
  -- The pending clusters stay; the block's key has the reference that is returned, and no other key
  -- changes.
  abbrev pub Effects : Pool d → List ℕ → Pool d × Result Error Ref → Type 0
  Effects p x (p', ok r) =
      (p'.bm.deferred ≡ p.bm.deferred)
      × (r.hash ≡ c.blake3 x)
      × ((k : Key) → ref_at p'.ddt k ≡ (if bytes_eq (c.blake3 x) k then some r else ref_at p.ddt k))
      × (AllEncodable p.ddt → IsEncodable r)
  Effects p x (p', err e) = p'.bm.deferred ≡ p.bm.deferred

  module _ (sound : IsSound c) (p : Pool d) (v : Invariant.IsValid p.bm) (x : List ℕ) where
    hit-Effects :
        (e : Entry)
        → lookup p.ddt (c.blake3 x) ≡ some e
        → Effects p x (
          record { dev = p.dev; bm = p.bm; ddt = (incr p.ddt (c.blake3 x)).0 },
          ok (ref_from (c.blake3 x) e),
        )
    hit-Effects e h =
        let here : ref_at p.ddt (c.blake3 x) ≡ some (ref_from (c.blake3 x) e) =
          ap (ref_in (c.blake3 x)) h in
        (
          refl,
          unfold ref_from in refl,
          λ k. elim (Bool-cases (bytes_eq (c.blake3 x) k)) [
            | inl s ↦
                ref_at-incr p.ddt (c.blake3 x) k
                ∙ sym (ap (ref_at p.ddt) ((bytes_eq_iff (c.blake3 x) k).0 s))
                ∙ here
                ∙ rw s refl
            | inr s ↦ ref_at-incr p.ddt (c.blake3 x) k ∙ rw s refl
          ],
          λ all. all (c.blake3 x) (ref_from (c.blake3 x) e) here,
        )

    fill-Effects :
        (payload : List ℕ × Bool) (start : ℕ) (bm : Bitmap)
        → Alloc.alloc p.bm (clusters (length payload.0)) ≡ ok (start, bm)
        → Effects p x (fill c bs d p (c.blake3 x) x payload start bm)
    unfolding fill ref_from new_entry
    fill-Effects payload start bm h =
        let count = clusters (length payload.0) in
        let buf = copy_at (replicate (count * 4096) 0) 0 payload.0 in
        let got : Allocated p.bm count (ok (start, bm)) =
          subst (Allocated p.bm count) h (alloc-Allocated p.bm count v) in
        let entry = new_entry start count payload.0 x payload.1 in
        elim (Result-cases (write_clusters c bs d count start 0 buf p.dev).1) [
          | inr (e, k) ↦ rw (k, fill) ((free_frame bm start count).1 ∙ got.5)
          | inl (u, k) ↦
              rw (k, fill)
                (
                  got.5,
                  refl,
                  λ j. ref_at-add p.ddt (c.blake3 x) j entry,
                  λ all. record {
                    hash = sound.digest x;
                    start = omega (arith, got.0.below, v.small);
                    count = omega arith;
                    payload = omega arith;
                    logical = omega arith;
                  },
                )
        ]

    pub write-Effects : Effects p x (write c bs d p x)
    unfolding write write_new
    write-Effects = elim (Option-cases (lookup p.ddt (c.blake3 x))) [
      | inr (e, there) ↦ rw (there, write) (hit-Effects e there)
      | inl new ↦ elim (Option-cases (c.encode_all x)) [
        | inl failed ↦ rw (new, failed, write, write_new) refl
        | inr (z, packed) ↦
            elim (Result-cases (Alloc.alloc p.bm (clusters (length (choose_payload x z).0)))) [
              | inr (e, h) ↦ rw (new, packed, h, write, write_new) refl
              | inl ((start, bm), h) ↦
                  rw (new, packed, h, write, write_new)
                    (fill-Effects (choose_payload x z) start bm h)
            ]
      ]
    ]
