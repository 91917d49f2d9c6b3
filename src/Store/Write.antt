-- ===== src/Store/Write.antt =====
-- rust/bloomfs-store/src/lib.rs: `write` on all its branches.
use bloomfs.Base.{
  ℕ, ◌+◌, ◌^◌, ◌<◌, ◌≡◌, refl, ap, Option, none, some, List, Option-cases, inl, inr, length, Result,
  ok, err,
}
use bloomfs.Block.{Device, MayFail}
use bloomfs.Alloc
use bloomfs.Alloc.{Bitmap, get}
use bloomfs.Dedup.{lookup}
use bloomfs.Dedup.RefCounts.{refs_of}
use bloomfs.Store.{
  Crates, BlockStore, Error, Pool, clusters, choose_payload, fill, write_new, write, compress,
  alloc,
}
use bloomfs.Store.Sectors.{IsSound}
use bloomfs.Store.Invariant.{ref_at, ref_in, IsConsistent}
use bloomfs.Store.Stored.{Stored, hit}
use bloomfs.Store.Fill.{fill-Stored}

module _ (c : Crates) (bs : BlockStore) (d : Device) (IsGood : d.State → Type 0) (sound : IsSound c)
    (IsTorn : List ℕ → Type 0) (lp : MayFail d IsGood IsTorn) (p : Pool d)
    (v : IsConsistent c bs d IsGood p) (x : List ℕ) (small : length x < 2 ^ 32) where
  -- Nothing happened.
  unchanged : (e : Error) → Stored c bs d IsGood p x (p, err e)
  unchanged e = (v, λ k r q. (q, refl), refl, λ j. refl)

  module _ (new : ref_at p.ddt (c.blake3 x) ≡ none) where
    by_alloc :
        (z : List ℕ) (a : Result Alloc.Error (ℕ × Bitmap))
        → c.encode_all x ≡ some z
        → Alloc.alloc p.bm (clusters (length (choose_payload x z).0)) ≡ a
        → Stored c bs d IsGood p x (elim a [
          | ok (start, bm) ↦ fill c bs d p (c.blake3 x) x (choose_payload x z) start bm
          | err e ↦ (p, err (alloc e))
        ])
    by_alloc z (ok (start, bm)) h e =
        fill-Stored c bs d IsGood sound IsTorn lp p v x z h small start bm e new
    by_alloc z (err e') h e = unchanged (alloc e')

    by_encode :
        (o : Option (List ℕ))
        → c.encode_all x ≡ o
        → Stored c bs d IsGood p x (elim o [
          | none ↦ (p, err compress)
          | some z ↦ elim (Alloc.alloc p.bm (clusters (length (choose_payload x z).0))) [
            | ok (start, bm) ↦ fill c bs d p (c.blake3 x) x (choose_payload x z) start bm
            | err e ↦ (p, err (alloc e))
          ]
        ])
    by_encode none h = unchanged compress
    by_encode (some z) h =
        by_alloc z (Alloc.alloc p.bm (clusters (length (choose_payload x z).0))) h refl

  -- Over a consistent pool, with sound crates, a device whose calls may fail, a block shorter than
  -- 2 ^ 32 bytes and room in the count of references: if write returns a reference, the pool is
  -- consistent again, every reference of the table is still there and reads what it read, the key
  -- of the block has one reference more and no other key changes, and the reference reads a block
  -- with the same hash, which is the block itself if the key was new. If it fails, the pool is
  -- consistent, the table and all bits are as before, and every reference reads what it read.
  pub write-Stored :
      refs_of p.ddt (c.blake3 x) + 1 < 2 ^ 32 → Stored c bs d IsGood p x (write c bs d p x)
  write-Stored room = elim (Option-cases (lookup p.ddt (c.blake3 x))) [
    | inl none_there ↦
        unfold write write_new in
        rw (none_there, write)
          (by_encode (ap (ref_in (c.blake3 x)) none_there) (c.encode_all x) refl)
    | inr (e, there) ↦
        unfold write in rw (there, write) (hit c bs d IsGood sound IsTorn lp p v x e there room)
  ]
