-- ===== src/Store/Progress.antt =====
-- rust/bloomfs-store/src/lib.rs: `write` where there is room and nothing fails.
use bloomfs.Base.{
  ℕ, zero, suc, ◌+◌, ◌*◌, ◌≤◌, ◌≡◌, refl, ◌∙◌, some, List, length, replicate, drop, slice,
  Option-cases, inl, inr, Result, ok, err, arith, length-take, length-drop, length-replicate,
}
use bloomfs.Base.Fields.{copy_at, length-copy_at}
use bloomfs.Block.{Device, IsArray}
use bloomfs.Alloc
use bloomfs.Alloc.{Bitmap, no_space, zero_count, short}
use bloomfs.Alloc.Invariant
use bloomfs.Alloc.FirstFit.{IsFreeRun, Allocated, alloc-Allocated}
use bloomfs.Dedup.{lookup}
use bloomfs.Store.{
  Crates, BlockStore, Ref, Error, Pool, clusters, choose_payload, encrypt, write_clusters, fill,
  write_new, write, alloc,
}
use bloomfs.Store.Sectors.{IsSound, clusters_lem, length-encrypt}

-- The call returned a reference.
abbrev pub Succeeds : {d : Device} → Pool d × Result Error Ref → Type 0
Succeeds (p', r) = (a : Ref) × (r ≡ ok a)

module _ (c : Crates) (sound : IsSound c) (bs : BlockStore) (d : Device) (IsGood : d.State → Type 0)
    (fine : IsArray d IsGood) where
  write_clusters-ok :
      (rounds at off : ℕ) (buf : List ℕ) (s : d.State)
      → IsGood s
      → at + rounds ≤ d.blocks s
      → off + rounds * 4096 ≤ length buf
      → (write_clusters c bs d rounds at off buf s).1 ≡ ok tt
  unfolding write_clusters
  write_clusters-ok zero at off buf s g h l = refl
  write_clusters-ok (suc n) at off buf s g h l =
      let x : List ℕ = encrypt c bs at (slice buf off 4096) in
      let size : length x ≡ 4096 = omega (
        arith,
        length-encrypt c sound bs at (slice buf off 4096),
        length-take 4096 (drop off buf),
        length-drop off buf,
      ) in
      rw (fine.writes s at x g (omega arith) size, write_clusters)
        (write_clusters-ok n (at + 1) (off + 4096) buf _ (fine.stays_good s at x g)
          (omega (arith, fine.keeps_blocks s at x)) (omega arith))

  module _ (p : Pool d) (x z : List ℕ) (g : IsGood p.dev) (valid : Invariant.IsValid p.bm)
      (room : p.bm.total ≤ d.blocks p.dev) (packed : c.encode_all x ≡ some z) where
    abbrev count : ℕ
    count = clusters (length (choose_payload x z).0)

    fill-ok :
        (start : ℕ) (bm : Bitmap)
        → start + count ≤ d.blocks p.dev
        → Succeeds (fill c bs d p (c.blake3 x) x (choose_payload x z) start bm)
    unfolding fill
    fill-ok start bm h =
        let payload : List ℕ = (choose_payload x z).0 in
        let buf : List ℕ = copy_at (replicate (count * 4096) 0) 0 payload in
        let fits : length payload ≤ count * 4096 = (clusters_lem (length payload)).0 in
        let long : length buf ≡ count * 4096 =
          length-copy_at (replicate (count * 4096) 0) 0 payload
            (omega (arith, length-replicate {A = ℕ} (count * 4096) 0))
          ∙ length-replicate (count * 4096) 0 in
        let fine_writes : (write_clusters c bs d count start 0 buf p.dev).1 ≡ ok tt =
          write_clusters-ok count start 0 buf p.dev g h (omega (arith, long)) in
        rw (fine_writes, fill) (_, refl)

    by_alloc :
        (a : Result Alloc.Error (ℕ × Bitmap)) (s : ℕ)
        → IsFreeRun p.bm count s
        → Allocated p.bm count a
        → Succeeds {d = d} (elim a [
          | ok (start, bm) ↦ fill c bs d p (c.blake3 x) x (choose_payload x z) start bm
          | err e ↦ (p, err (alloc e))
        ])
    by_alloc (ok (start, bm)) s free got = fill-ok start bm (omega (arith, got.0.below, room))
    by_alloc (err no_space) s free got = absurd (got.1 s free)
    by_alloc (err zero_count) s free got =
        absurd (omega (arith, clusters_lem (length (choose_payload x z).0)))
    by_alloc (err short) s free got = absurd got

    -- On a device that does not fail and that is in a good state, with sound crates, a valid
    -- bitmap whose clusters are all blocks of the device, a block that zstd encodes and a free run
    -- for its payload, write returns a reference.
    pub write-Succeeds : (s : ℕ) → IsFreeRun p.bm count s → Succeeds (write c bs d p x)
    write-Succeeds s free = elim (Option-cases (lookup p.ddt (c.blake3 x))) [
      | inl new ↦
          unfold write write_new in
          rw (new, write)
            (rw (packed, write_new)
              (by_alloc (Alloc.alloc p.bm count) s free (alloc-Allocated p.bm count valid)))
      | inr (e, there) ↦ unfold write in rw (there, write) (_, refl)
    ]
