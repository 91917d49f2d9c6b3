-- ===== src/Volume/Records.antt =====
-- rust/bloomfs-fs/src/lib.rs: the write and the release of records over a store that backs the
-- references of the inodes, where no cluster is pending, so that no commit comes between.
use bloomfs.Base.{
  ℕ, ◌+◌, ◌^◌, ◌≤◌, ◌<◌, ◌≡◌, refl, ap, subst, ◌∙◌, false, ◌&&◌, List, [], ◌∷◌, ◌++◌, ltb, ◌⊎◌, inl,
  inr, length, Result, ok, err, Result-cases, arith, All,
}
use bloomfs.Block.{Device, MayFail}
use bloomfs.Alloc
use bloomfs.Alloc.{FreeRange}
use bloomfs.Dedup.{Key}
use bloomfs.Dedup.RefCounts.{refs_of}
use bloomfs.Store.{Crates, Ref, Pool, read, write, release}
use bloomfs.Store.Sectors.{IsSound}
use bloomfs.Fs.{Error, store}
use bloomfs.Volume.{
  Volume, and_then, with_pool, pool_of, store_write, bs_write, bs_release, is_no_space,
}
use bloomfs.Volume.Update.{write_all, release_all}
use bloomfs.Volume.Owned.{
  Backs, SameReads, IsUnique, Wrote, write-Wrote, release-Backs, Backs-swap, Backs-right,
  SameReads-trans, SameReads-dev,
}

module _ (c : Crates) (d : Device) (IsGood : d.State → Type 0) (v : Volume d) where
  -- `v` with another store.
  abbrev pub at : Pool d → Volume d
  at p = with_pool v p

  abbrev pub Backed : Pool d → List Ref → Type 0
  Backed = Backs c v.bs d IsGood

  abbrev pub Same : Pool d → Pool d → List Ref → Type 0
  Same = SameReads c v.bs d IsGood

  abbrev pub IsQuiet : Pool d → Type 0
  IsQuiet p = p.bm.deferred ≡ []

  -- The write of a block over a quiet store.
  abbrev pub BlockWritten : Pool d → List Ref → List ℕ → Volume d × Result Error Ref → Type 0
  BlockWritten p rs x out =
      ((p' : Pool d) × (r : Ref) × (out ≡ (at p', ok r))
        × Backed p' (r ∷ rs)
        × Same p p' rs
        × (read c v.bs d p'.dev r ≡ ok x)
        × IsQuiet p'
        × ((k : Key) → refs_of p'.ddt k ≤ refs_of p.ddt k + 1))
      ⊎ ((p' : Pool d) × (e : Error) × (out ≡ (at p', err e)) × Backed p' rs × Same p p' rs)

  -- The references read the blocks.
  abbrev pub ReadBack : Pool d → List Ref → List (List ℕ) → Type 0
  ReadBack p [] [] = Unit {0}
  ReadBack p [] (x ∷ xs) = ⊥
  ReadBack p (r ∷ rs) [] = ⊥
  ReadBack p (r ∷ rs) (x ∷ xs) = (read c v.bs d p.dev r ≡ ok x) × ReadBack p rs xs

  -- The write of the blocks, in order.
  abbrev pub AllWritten :
      Pool d → List Ref → List (List ℕ) → Volume d × Result Error (List Ref) → Type 0
  AllWritten p rs xs out =
      ((p' : Pool d) × (new : List Ref) × (out ≡ (at p', ok new))
        × Backed p' (new ++ rs)
        × Same p p' rs
        × ReadBack p' new xs
        × IsQuiet p'
        × ((k : Key) → refs_of p'.ddt k ≤ refs_of p.ddt k + length xs))
      ⊎ ((p' : Pool d) × (e : Error) × (out ≡ (at p', err e)) × Backed p' rs × Same p p' rs)

  -- A block that can be written: short, and with a hash of its own.
  abbrev pub IsFit : List ℕ → Type 0
  IsFit x = IsUnique c v.bs d IsGood x × (length x < 2 ^ 32)

  module _ (sound : IsSound c) (IsTorn : List ℕ → Type 0) (lp : MayFail d IsGood IsTorn) where
    pub bs_write-BlockWritten :
        (p : Pool d) (rs : List Ref) (x : List ℕ)
        → Backed p rs
        → IsUnique c v.bs d IsGood x
        → length x < 2 ^ 32
        → refs_of p.ddt (c.blake3 x) + 1 < 2 ^ 32
        → IsQuiet p
        → BlockWritten p rs x (bs_write c x (at p))
    unfolding bs_write store_write with_pool pool_of Alloc.pending
    bs_write-BlockWritten p rs x h u small room quiet =
        let w = write c v.bs d p x in
        let did : Wrote c v.bs d IsGood p rs x w =
          write-Wrote c v.bs d IsGood sound IsTorn lp p rs x h u small room in
        elim (Result-cases w.1) [
          | inl (r, e) ↦
              (let (backs, same, reads, q, refs) =
                  subst (λ o. Wrote c v.bs d IsGood p rs x (w.0, o)) e did in
                inl (w.0, r, rw (e, bs_write) refl, backs, same, reads, q ∙ quiet, refs))
          | inr (e', e) ↦
              (let (backs, same, q) = subst (λ o. Wrote c v.bs d IsGood p rs x (w.0, o)) e did in
                let none_pending : length w.0.bm.deferred ≡ 0 =
                  ap (λ (l : List FreeRange). length l) (q ∙ quiet) in
                let no_retry : is_no_space e' && ltb 0 (length w.0.bm.deferred) ≡ false =
                  ground (arith, none_pending) in
                inr (w.0, store e', rw (e, no_retry, bs_write) refl, backs, same))
        ]

    -- The rest of the blocks, once the first one is written.
    next_written :
        (p p1 : Pool d) (rs : List Ref) (x : List ℕ) (xs : List (List ℕ)) (r : Ref)
        → Same p p1 rs
        → (read c v.bs d p1.dev r ≡ ok x)
        → ((k : Key) → refs_of p1.ddt k ≤ refs_of p.ddt k + 1)
        → AllWritten p1 (r ∷ rs) xs (write_all c xs (at p1))
        → AllWritten p rs (x ∷ xs) (and_then (write_all c xs (at p1)) (λ new w. (w, ok (r ∷ new))))
    next_written p p1 rs x xs r same reads refs
          (inl (p2, new, e, backs, same2, back, quiet, refs2)) =
        inl (
          p2,
          r ∷ new,
          ap (λ o. and_then o (λ new w. (w, ok (r ∷ new)))) e,
          Backs-swap c v.bs d IsGood p2 new (r ∷ []) rs backs,
          SameReads-trans c v.bs d IsGood p p1 p2 rs same same2.1,
          (same2.0 ∙ reads, back),
          quiet,
          λ k. omega (arith, refs k, refs2 k),
        )
    next_written p p1 rs x xs r same reads refs (inr (p2, e', e, backs, same2)) = inr (
      p2,
      e',
      ap (λ o. and_then o (λ new w. (w, ok (r ∷ new)))) e,
      Backs-right c v.bs d IsGood p2 (r ∷ []) rs backs,
      SameReads-trans c v.bs d IsGood p p1 p2 rs same same2.1,
    )

    pub write_all-AllWritten :
        (p : Pool d) (rs : List Ref) (xs : List (List ℕ))
        → Backed p rs
        → All IsFit xs
        → ((k : Key) → refs_of p.ddt k + length xs < 2 ^ 32)
        → IsQuiet p
        → AllWritten p rs xs (write_all c xs (at p))
    unfolding write_all
    write_all-AllWritten p rs [] h fit room quiet =
        inl (p, [], refl, h, SameReads-dev c v.bs d IsGood p p rs refl, tt, quiet, λ k. omega arith)
    write_all-AllWritten p rs (x ∷ xs) h fit room quiet =
        elim (bs_write-BlockWritten p rs x h fit.0.0 fit.0.1 (omega (arith, room (c.blake3 x)))
          quiet) [
            | inl (p1, r, e, backs, same, reads, quiet1, refs) ↦ rw e (
                next_written p p1 rs x xs r same reads refs (
                  write_all-AllWritten p1 (r ∷ rs) xs backs fit.1
                    (λ k. omega (arith, room k, refs k)) quiet1))
            | inr (p1, e', e, backs, same) ↦ inr (p1, e', rw e refl, backs, same)
          ]

  -- The release of references from the front: the others stay backed, and the device stays.
  pub release_all-Backs :
      (rs rest : List Ref) (p : Pool d)
      → Backed p (rs ++ rest)
      → (p' : Pool d) × (release_all rs (at p) ≡ at p') × Backed p' rest × (p'.dev ≡ p.dev)
  unfolding release_all bs_release with_pool pool_of
  release_all-Backs [] rest p h = (p, refl, h, refl)
  release_all-Backs (r ∷ rs) rest p h =
      let (h1, dev1) = release-Backs c v.bs d IsGood p r (rs ++ rest) h in
      let (p', e, h2, dev2) = release_all-Backs rs rest (release p r) h1 in (p', e, h2, dev2 ∙ dev1)
