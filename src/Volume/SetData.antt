-- ===== src/Volume/SetData.antt =====
-- rust/bloomfs-fs/src/lib.rs: `set_data`, the replacement of a file's contents.
use bloomfs.Base.{
  ℕ, suc, ◌+◌, ◌^◌, ◌≤◌, ◌<◌, ◌≡◌, refl, ap, ap₂, subst, ◌∙◌, Bool, false, List, [], ◌∷◌, ◌++◌,
  ◌==◌, ◌⊎◌, inl, inr, if◌then◌else◌, length, Result, ok, err, arith, All, concat, Bool-cases,
  Result-cases, ==_iff,
}
use bloomfs.Base.Outcome.{map_err}
use bloomfs.Block.{Device, MayFail}
use bloomfs.Dedup.{Key}
use bloomfs.Dedup.RefCounts.{refs_of}
use bloomfs.Inode.{Inode}
use bloomfs.Store.{Crates, Ref, Pool, read}
use bloomfs.Store.Sectors.{IsSound}
use bloomfs.Fs.{Error, store, encode_refs, record_size_for, split_records}
use bloomfs.Fs.Records.{split_records-concat}
use bloomfs.Volume.{
  Volume, and_then, with_pool, pool_of, bs_read, get_inode, put_inode, touch_mod, now,
}
use bloomfs.Volume.Contents.{first_ref, load_refs, read_all, get_data}
use bloomfs.Volume.Update.{cut, write_all, store_refs, release_data, set_data}
use bloomfs.Volume.Lifetime.{stored_at, put_inode-inside, get_inode-stored_at}
use bloomfs.Volume.Owned.{
  SameReads-trans, SameReads-dev, SameReads-left, SameReads-right, Backs-swap,
}
use bloomfs.Volume.Records.{at, Backed, Same, IsQuiet, ReadBack, IsFit, write_all-AllWritten}
use bloomfs.Volume.Replace.{Owns, release_data-Owns, HasData, RefsStored, store_refs-RefsStored}

-- Reads depend on the device and the cipher only.
module _ (c : Crates) {d : Device} (w w' : Volume d) (dev : w'.dev ≡ w.dev)
    (bs : w'.bs ≡ w.bs) where
  bs_read-same : (r : Ref) → bs_read c w' r ≡ bs_read c w r
  unfolding bs_read
  bs_read-same r = ap₂ (λ b s. map_err {F = Error} store (read c b d s r)) bs dev

  read_all-same : (rs : List Ref) → read_all c w' rs ≡ read_all c w rs
  unfolding read_all
  read_all-same [] = refl
  read_all-same (r ∷ rs) = rw (bs_read-same r, read_all-same rs) refl

  load_refs-same : (i : Inode) → load_refs c w' i ≡ load_refs c w i
  unfolding load_refs
  load_refs-same i = rw (bs_read-same (first_ref i)) refl

  pub get_data-same : (i : Inode) → get_data c w' i ≡ get_data c w i
  unfolding get_data
  get_data-same i = elim (Bool-cases (i.file_size == 0)) [
    | inl z ↦ rw z refl
    | inr n ↦ elim (Result-cases (load_refs c w i)) [
      | inl (refs, h) ↦ rw (n, load_refs-same i, h) (read_all-same refs)
      | inr (e, h) ↦ rw (n, load_refs-same i, h) refl
    ]
  ]

record_size_pos : (n : ℕ) → 0 < (record_size_for n).0
unfolding record_size_for
record_size_pos n = ground arith

weaken :
    (n : ℕ) (xs : List (List ℕ))
    → All (λ x. (1 ≤ length x) × (length x ≤ n)) xs
    → All (λ x. 1 ≤ length x) xs
weaken n [] h = tt
weaken n (x ∷ xs) h = (h.0.0, weaken n xs h.1)

-- The records of any contents make them up, and each has a byte.
cut-concat : (blob : List ℕ) → (concat (cut blob).1 ≡ blob) × All (λ x. 1 ≤ length x) (cut blob).1
unfolding cut
cut-concat [] = (refl, tt)
cut-concat (b ∷ bs) =
    let rs = (record_size_for (length (b ∷ bs))).0 in
    let (joined, sized) = split_records-concat (b ∷ bs) rs (record_size_pos (length (b ∷ bs))) in
    (joined, weaken rs (split_records (b ∷ bs) rs) sized)

module _ (c : Crates) (d : Device) (IsGood : d.State → Type 0) (v : Volume d) where
  Owns-Same :
      (p p' : Pool d) (i : Inode) (own : List Ref)
      → Owns c d IsGood v p i own
      → Same c d IsGood v p p' own
      → Owns c d IsGood v p' i own
  Owns-Same p p' i own (Owns.no_data z) h = Owns.no_data z
  Owns-Same p p' i own (Owns.one n k) h = Owns.one n k
  Owns-Same p p' i own (Owns.mapped blob recs n k here parts) h =
      Owns.mapped blob recs n k
        ((SameReads-right c v.bs d IsGood p p' recs (first_ref i ∷ []) h).0 ∙ here) parts

  -- The times of an inode do not matter.
  Owns-touched :
      (p : Pool d) (i : Inode) (own : List Ref) (t : ℕ)
      → Owns c d IsGood v p i own
      → Owns c d IsGood v p (record i { mtime = t; ctime = t }) own
  unfolding first_ref
  Owns-touched p i own t (Owns.no_data z) = Owns.no_data z
  Owns-touched p i own t (Owns.one n k) = Owns.one n k
  Owns-touched p i own t (Owns.mapped blob recs n k here parts) =
      Owns.mapped blob recs n k here parts

  -- What `set_data` does: the inode has the new contents, and holds references that are backed beside
  -- those of the others, which read what they read; or nothing is lost.
  abbrev pub Replaced :
      ℕ → List Ref → List Ref → List ℕ → Volume d × Result Error (Unit {0}) → Type 0
  Replaced id old_own others bytes out =
      ((w : Volume d) × (j : Inode) × (own : List Ref) × (out ≡ (w, ok tt))
        × (get_inode w id ≡ ok j)
        × (get_data c w j ≡ ok bytes)
        × Owns c d IsGood v (pool_of w) j own
        × Backed c d IsGood v (pool_of w) (own ++ others)
        × Same c d IsGood v (pool_of v) (pool_of w) others
        × ((k : ℕ) → (id == k) ≡ false → get_inode w k ≡ get_inode v k))
      ⊎ ((w : Volume d) × (e : Error) × (out ≡ (w, err e))
          × (w.inodes ≡ v.inodes)
          × Backed c d IsGood v (pool_of w) (old_own ++ others)
          × Same c d IsGood v (pool_of v) (pool_of w) (old_own ++ others))

  module _ (id : ℕ) (old : Inode) (inside : id < length v.inodes.inodes) (old_own others : List Ref)
      (bytes : List ℕ) where
    -- What follows the record of the references.
    abbrev finish : Volume d × Result Error Inode → Volume d × Result Error (Unit {0})
    finish o = and_then o (λ i w.
        and_then (release_data c old w)
          (λ _ w'. and_then (touch_mod i w') (λ i' w''. put_inode id i' w'')))

    -- The volume at the end.
    abbrev last : Pool d → Inode → Volume d
    last p j =
        let t = v.clock v.reads in
        let w = record v { dev = p.dev; bm = p.bm; ddt = p.ddt; reads = v.reads + 1 } in
        record w { inodes = stored_at w id (record j { mtime = t; ctime = t }) }

    finished :
        (p2 : Pool d) (j : Inode)
        → HasData c d IsGood v p2 j (old_own ++ others) bytes
        → Same c d IsGood v (pool_of v) p2 (old_own ++ others)
        → Owns c d IsGood v (pool_of v) old old_own
        → Replaced id old_own others bytes (finish (at c d IsGood v p2, ok j))
    unfolding touch_mod now with_pool pool_of get_data load_refs first_ref stored_at
    finished p2 j h same owns =
        let (p3, e3, backs, dev) =
          release_data-Owns c d IsGood v p2 old old_own (h.own ++ others)
            (Owns-Same (pool_of v) p2 old old_own owns
              (SameReads-left c v.bs d IsGood (pool_of v) p2 old_own others same))
            (Backs-swap c v.bs d IsGood p2 h.own old_own others h.backed) in
        let t = v.clock v.reads in
        let w = record v { dev = p3.dev; bm = p3.bm; ddt = p3.ddt; reads = v.reads + 1 } in
        let j' = record j { mtime = t; ctime = t } in
        inl (
          last p3 j,
          j',
          h.own,
          rw e3 (put_inode-inside id j' w inside),
          get_inode-stored_at w (last p3 j) id id j' refl inside
              ∙ ap (λ (b : Bool). if b then ok j' else get_inode w id) ((==_iff id id).1 refl),
          get_data-same c (at c d IsGood v p2) (last p3 j) dev refl j' ∙ h.data_read,
          Owns-touched (pool_of (last p3 j)) j h.own t (
              Owns-Same p2 (pool_of (last p3 j)) j h.own h.owns
                (SameReads-dev c v.bs d IsGood p2 (pool_of (last p3 j)) h.own dev)),
          backs,
          SameReads-trans c v.bs d IsGood (pool_of v) p2 (pool_of (last p3 j)) others
              (SameReads-right c v.bs d IsGood (pool_of v) p2 old_own others same)
              (SameReads-dev c v.bs d IsGood p2 (pool_of (last p3 j)) others dev),
          λ k n.
              get_inode-stored_at w (last p3 j) id k j' refl inside
              ∙ ap (λ (b : Bool). if b then ok j' else get_inode w k) n
              ∙ unfold get_inode in refl,
        )

    -- The references of the new contents, once the records are written.
    recorded :
        (p1 : Pool d)
        → Same c d IsGood v (pool_of v) p1 (old_own ++ others)
        → Owns c d IsGood v (pool_of v) old old_own
        → (o : Volume d × Result Error Inode)
        → RefsStored c d IsGood v p1 (old_own ++ others) bytes o
        → Replaced id old_own others bytes (finish o)
    recorded p1 same owns o (inl (p2, j, e, h, same2)) = rw e (
        finished p2 j h
          (SameReads-trans c v.bs d IsGood (pool_of v) p1 p2 (old_own ++ others) same same2) owns)
    recorded p1 same owns o (inr (p2, e', e, backs, same2)) = inr (
      at c d IsGood v p2,
      e',
      ap finish e,
      unfold with_pool in refl,
      unfold with_pool pool_of in backs,
      unfold with_pool pool_of in
          SameReads-trans c v.bs d IsGood (pool_of v) p1 p2 (old_own ++ others) same same2,
    )

  module _ (sound : IsSound c) (IsTorn : List ℕ → Type 0) (lp : MayFail d IsGood IsTorn) where
    -- The references that the records of the contents get, if they are written.
    abbrev pub IsMapFit : List ℕ → Type 0
    IsMapFit bytes =
        (w : Volume d) (new : List Ref)
        → write_all c (cut bytes).1 v ≡ (w, ok new)
        → 2 ≤ length new
        → IsFit c d IsGood v (encode_refs new)

    length-ReadBack :
        (p : Pool d) (new : List Ref) (xs : List (List ℕ))
        → ReadBack c d IsGood v p new xs
        → length new ≡ length xs
    length-ReadBack p [] [] h = refl
    length-ReadBack p [] (x ∷ xs) h = absurd h
    length-ReadBack p (r ∷ new) [] h = absurd h
    length-ReadBack p (r ∷ new) (x ∷ xs) h = ap suc (length-ReadBack p new xs h.1)

    -- The store is consistent and backs the references of the inode and those of all others,
    -- nothing is pending, the crates are sound, the calls of the device may fail, the inode's slot lies in
    -- the table and its flags fit a byte, no other block shares its hash with a record of the new
    -- contents or with their block map, which are shorter than 2 ^ 32 bytes, and there is room for
    -- the references in the counts. Then, if set_data succeeds, the slot holds an inode whose
    -- contents read as the new ones, its references and those of all others are backed, the others
    -- read what they read, and no other slot changes; if it fails, the table of inodes is as
    -- before, and the old references are still backed and read what they read.
    pub set_data-Replaced :
        (id : ℕ) (old : Inode) (old_own others : List Ref) (bytes : List ℕ)
        → id < length v.inodes.inodes
        → old.flags < 2 ^ 8
        → Owns c d IsGood v (pool_of v) old old_own
        → Backed c d IsGood v (pool_of v) (old_own ++ others)
        → IsQuiet c d IsGood v (pool_of v)
        → All (IsFit c d IsGood v) (cut bytes).1
        → IsMapFit bytes
        → length (cut bytes).1 < 2 ^ 32
        → ((k : Key) → refs_of v.ddt k + (length (cut bytes).1 + 1) < 2 ^ 32)
        → Replaced id old_own others bytes (set_data c id old bytes v)
    unfolding set_data pool_of with_pool
    set_data-Replaced id old old_own others bytes inside byte owns backs quiet fit map_fit few
          room =
        let xs = (cut bytes).1 in
        let (joined, some_bytes) = cut-concat bytes in
        elim (write_all-AllWritten c d IsGood v sound IsTorn lp (pool_of v) (old_own ++ others) xs
          backs fit (λ k. omega (arith, room k)) quiet) [
            | inr (p1, e', e, backs1, same) ↦
                inr (at c d IsGood v p1, e', rw e refl, refl, backs1, same)
            | inl (p1, new, e, backs1, same, reads, quiet1, refs) ↦ rw e (
                recorded id old inside old_own others bytes p1 same owns
                  (store_refs c old new (length bytes) (cut bytes).0 (at c d IsGood v p1))
                  (subst
                    (λ b.
                      RefsStored c d IsGood v p1 (old_own ++ others) b
                        (store_refs c old new (length b) (cut bytes).0 (at c d IsGood v p1)))
                    joined
                    (store_refs-RefsStored c d IsGood v old byte p1 (old_own ++ others) sound IsTorn
                      lp new xs (cut bytes).0 backs1 reads some_bytes
                      (map_fit (at c d IsGood v p1) new e) (λ k. omega (arith, room k, refs k))
                      quiet1 (omega (arith, few, length-ReadBack p1 new xs reads)))))
          ]
