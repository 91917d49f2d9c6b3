-- ===== src/Volume/Replace.antt =====
-- rust/bloomfs-fs/src/lib.rs: the references of an inode, recorded, read and released.
use bloomfs.Base.{
  ℕ, ◌+◌, ◌^◌, ◌≤◌, ◌<◌, ◌≡◌, refl, ap, sym, subst, ◌∙◌, true, false, not, List, [], ◌∷◌, ◌++◌,
  ◌==◌, ◌⊎◌, inl, inr, length, take, replicate, Result, ok, err, arith, All, concat, append-nil,
  append_assoc, length-append, length-replicate,
}
use bloomfs.Base.Outcome.{map_err}
use bloomfs.Base.Bits.{test-bit, bit-or, bit-clear}
use bloomfs.Base.Fields.{copy_at, slice-copy_at_self}
use Prim.Native.Nat.{bit_and, bit_or}
use bloomfs.Block.{Device, MayFail}
use bloomfs.Dedup.{Key}
use bloomfs.Dedup.RefCounts.{refs_of}
use bloomfs.Inode.{Inode}
use bloomfs.Store.{Crates, Ref, Pool, read, release, marshal_ref, unmarshal_ref}
use bloomfs.Store.Sectors.{IsSound}
use bloomfs.Store.Refs.{IsEncodable, unmarshal-marshal_ref, length-marshal_ref}
use bloomfs.Fs.{Error, store, encode_refs, decode_refs}
use bloomfs.Fs.Records.{decode-encode_refs}
use bloomfs.Volume.{Volume, with_pool, pool_of, bs_read, bs_release}
use bloomfs.Volume.Contents.{is_inline, first_ref, load_refs, read_all, get_data}
use bloomfs.Volume.Update.{with_ref, cleared, store_refs, release_map, release_data}
use bloomfs.Volume.Owned.{
  release-Backs, Backs-swap, Backs-right, SameReads-dev, SameReads-left, SameReads-right,
  Backs-IsEncodable,
}
use bloomfs.Volume.Records.{
  at, Backed, Same, IsQuiet, bs_write-BlockWritten, ReadBack, IsFit, release_all-Backs,
}

pub first_ref-with_ref : (i : Inode) (r : Ref) → IsEncodable r → first_ref (with_ref i r) ≡ r
unfolding first_ref with_ref
first_ref-with_ref i r w =
    let len : length (marshal_ref r) ≡ 53 = length-marshal_ref r w in
    ap unmarshal_ref (
      ap (λ (n : ℕ). take n (copy_at (replicate 64 0) 0 (marshal_ref r))) (sym len)
      ∙ slice-copy_at_self (replicate 64 0) 0 (marshal_ref r)
          (omega (arith, len, length-replicate {A = ℕ} 64 0))
      ∙ sym (append-nil (marshal_ref r)))
    ∙ unmarshal-marshal_ref r w []

inline-set : (flags : ℕ) → not (bit_and (bit_or flags 1) 1 == 0) ≡ true
inline-set flags = test-bit (bit_or flags 1) 0 ∙ bit-or flags 0 0 ∙ refl

inline-clear : (flags : ℕ) → flags < 2 ^ 8 → not (bit_and (bit_and flags 254) 1 == 0) ≡ false
inline-clear flags h = test-bit (bit_and flags 254) 0 ∙ bit-clear 8 flags 0 0 h (omega arith) ∙ refl

module _ (c : Crates) {d : Device} (w : Volume d) (j : Inode) (n : (j.file_size == 0) ≡ false) where
  pub get_data-inline :
      (x : List ℕ)
      → is_inline j ≡ true
      → bs_read c w (first_ref j) ≡ ok x
      → get_data c w j ≡ ok (x ++ [])
  unfolding get_data load_refs read_all
  get_data-inline x k h = rw (n, k, h) refl

  get_data-mapped :
      (blob y : List ℕ) (refs : List Ref)
      → is_inline j ≡ false
      → bs_read c w (first_ref j) ≡ ok blob
      → decode_refs blob ≡ ok refs
      → read_all c w refs ≡ ok y
      → get_data c w j ≡ ok y
  unfolding get_data load_refs
  get_data-mapped blob y refs k h parts reads = rw (n, k, h, parts) reads

module _ (c : Crates) (d : Device) (IsGood : d.State → Type 0) (v : Volume d) where
  -- The references that an inode holds: its records, and behind them its block map.
  pub data Owns (p : Pool d) (i : Inode) : List Ref → Type 0 where
    no_data : (i.file_size == 0) ≡ true → Owns p i []
    one : (i.file_size == 0) ≡ false → is_inline i ≡ true → Owns p i (first_ref i ∷ [])
    mapped :
        (blob : List ℕ) (recs : List Ref)
        → (i.file_size == 0) ≡ false
        → is_inline i ≡ false
        → read c v.bs d p.dev (first_ref i) ≡ ok blob
        → decode_refs blob ≡ ok recs
        → Owns p i (recs ++ (first_ref i ∷ []))

  -- The release of what an inode holds succeeds; the other references stay backed, and the device stays.
  abbrev pub DataReleased : Pool d → Inode → List Ref → Type 0
  DataReleased p i rest =
      (p' : Pool d) × (release_data c i (at c d IsGood v p) ≡ (at c d IsGood v p', ok tt))
      × Backed c d IsGood v p' rest
      × (p'.dev ≡ p.dev)

  pub release_data-Owns :
      (p : Pool d) (i : Inode) (own rest : List Ref)
      → Owns p i own
      → Backed c d IsGood v p (own ++ rest)
      → DataReleased p i rest
  unfolding release_data release_map bs_release bs_read with_pool pool_of
  release_data-Owns p i own rest (Owns.no_data z) h = (p, simp (z, release_data) refl, h, refl)
  release_data-Owns p i own rest (Owns.one n k) h =
      let (h', dev) = release-Backs c v.bs d IsGood p (first_ref i) rest h in
      (release p (first_ref i), simp (n, k, release_data) refl, h', dev)
  release_data-Owns p i own rest (Owns.mapped blob recs n k here parts) h =
      let first = first_ref i in
      let (p1, e1, h1, dev1) =
        release_all-Backs c d IsGood v recs (first ∷ rest) p
          (subst (Backed c d IsGood v p) (append_assoc recs (first ∷ []) rest) h) in
      let (h2, dev2) = release-Backs c v.bs d IsGood p1 first rest h1 in
      (
        release p1 first,
        simp (n, k, here, parts, e1, release_data, release_map) refl,
        h2,
        dev2 ∙ dev1,
      )

  -- What the records hold is their concatenation.
  read_all-ReadBack :
      (p : Pool d) (new : List Ref) (xs : List (List ℕ))
      → ReadBack c d IsGood v p new xs
      → read_all c (at c d IsGood v p) new ≡ ok (concat xs)
  unfolding read_all bs_read with_pool
  read_all-ReadBack p [] [] h = refl
  read_all-ReadBack p [] (x ∷ xs) h = absurd h
  read_all-ReadBack p (r ∷ new) [] h = absurd h
  read_all-ReadBack p (r ∷ new) (x ∷ xs) (here, rest) =
      rw (here, read_all-ReadBack p new xs rest) refl

  ReadBack-Same :
      (p p' : Pool d) (new : List Ref) (xs : List (List ℕ))
      → ReadBack c d IsGood v p new xs
      → Same c d IsGood v p p' new
      → ReadBack c d IsGood v p' new xs
  ReadBack-Same p p' [] [] h k = tt
  ReadBack-Same p p' [] (x ∷ xs) h k = absurd h
  ReadBack-Same p p' (r ∷ new) [] h k = absurd h
  ReadBack-Same p p' (r ∷ new) (x ∷ xs) (here, rest) (same, more) =
      (same ∙ here, ReadBack-Same p p' new xs rest more)

  -- The inode holds references that are backed beside the others, and its contents are the blocks'.
  pub record HasData (p : Pool d) (i : Inode) (rest : List Ref) (bytes : List ℕ) : Type 0 where
    pub own : List Ref
    pub owns : Owns p i own
    pub backed : Backed c d IsGood v p (own ++ rest)
    pub data_read : get_data c (at c d IsGood v p) i ≡ ok bytes

  -- The references recorded in an inode.
  abbrev pub RefsStored : Pool d → List Ref → List ℕ → Volume d × Result Error Inode → Type 0
  RefsStored p rest bytes out =
      ((p' : Pool d) × (j : Inode) × (out ≡ (at c d IsGood v p', ok j))
        × HasData p' j rest bytes
        × Same c d IsGood v p p' rest)
      ⊎ ((p' : Pool d) × (e : Error) × (out ≡ (at c d IsGood v p', err e))
          × Backed c d IsGood v p' rest
          × Same c d IsGood v p p' rest)

  module _ (i : Inode) (byte : i.flags < 2 ^ 8) (p : Pool d) (rest : List Ref) where
    none_recorded :
        (size log2 : ℕ)
        → Backed c d IsGood v p rest
        → RefsStored p rest [] (store_refs c i [] size log2 (at c d IsGood v p))
    unfolding store_refs cleared get_data
    none_recorded size log2 h = inl (
      p,
      cleared i 0 0,
      refl,
      record { own = []; owns = Owns.no_data refl; backed = h; data_read = refl },
      SameReads-dev c v.bs d IsGood p p rest refl,
    )

    one_inode : Ref → ℕ → ℕ → Inode
    one_inode r size log2 =
        with_ref (record (cleared i size log2) { flags = bit_or (cleared i size log2).flags 1 }) r

    one_recorded :
        (r : Ref) (x : List ℕ) (size log2 : ℕ)
        → (size == 0) ≡ false
        → Backed c d IsGood v p (r ∷ rest)
        → read c v.bs d p.dev r ≡ ok x
        → RefsStored p rest (x ++ []) (store_refs c i (r ∷ []) size log2 (at c d IsGood v p))
    unfolding store_refs cleared bs_read with_pool with_ref one_inode
    one_recorded r x size log2 n h reads =
        let j = one_inode r size log2 in
        let front : first_ref j ≡ r =
          first_ref-with_ref
            (record (cleared i size log2) { flags = bit_or (cleared i size log2).flags 1 }) r
            (Backs-IsEncodable c v.bs d IsGood p (r ∷ []) rest h).0 in
        let inline : is_inline j ≡ true = inline-set (cleared i size log2).flags in
        inl (
          p,
          j,
          refl,
          record {
            own = first_ref j ∷ [];
            owns = Owns.one n inline;
            backed = subst (λ q. Backed c d IsGood v p (q ∷ rest)) (sym front) h;
            data_read =
                get_data-inline c (at c d IsGood v p) j n x inline (
                  ap (λ q. map_err store (read c v.bs d p.dev q)) front ∙ ap (map_err store) reads);
          },
          SameReads-dev c v.bs d IsGood p p rest refl,
        )

    mapped_data :
        (p1 : Pool d) (m : Ref) (new : List Ref) (xs : List (List ℕ)) (size log2 : ℕ)
        → (size == 0) ≡ false
        → Backed c d IsGood v p1 (m ∷ (new ++ rest))
        → ReadBack c d IsGood v p1 new xs
        → read c v.bs d p1.dev m ≡ ok (encode_refs new)
        → length new < 2 ^ 32
        → HasData p1 (with_ref (cleared i size log2) m) rest (concat xs)
    unfolding with_ref cleared bs_read with_pool
    mapped_data p1 m new xs size log2 n h reads map_reads few =
        let j = with_ref (cleared i size log2) m in
        let front : first_ref j ≡ m =
          first_ref-with_ref (cleared i size log2) m
            (Backs-IsEncodable c v.bs d IsGood p1 (m ∷ []) (new ++ rest) h).0 in
        let plain : is_inline j ≡ false = inline-clear i.flags byte in
        let moved : Backed c d IsGood v p1 (new ++ (m ∷ rest)) =
          Backs-swap c v.bs d IsGood p1 (m ∷ []) new rest h in
        let parts : decode_refs (encode_refs new) ≡ ok new =
          decode-encode_refs new (Backs-IsEncodable c v.bs d IsGood p1 new (m ∷ rest) moved) few in
        let here : read c v.bs d p1.dev (first_ref j) ≡ ok (encode_refs new) =
          ap (read c v.bs d p1.dev) front ∙ map_reads in
        record {
          own = new ++ (first_ref j ∷ []);
          owns = Owns.mapped (encode_refs new) new n plain here parts;
          backed =
              subst (Backed c d IsGood v p1) (sym (append_assoc new (first_ref j ∷ []) rest))
                (subst (λ q. Backed c d IsGood v p1 (new ++ (q ∷ rest))) (sym front) moved);
          data_read =
              get_data-mapped c (at c d IsGood v p1) j n (encode_refs new) (concat xs) new plain
                (ap (map_err store) here) parts (read_all-ReadBack p1 new xs reads);
        }

    module _ (sound : IsSound c) (IsTorn : List ℕ → Type 0) (lp : MayFail d IsGood IsTorn) where
      many_recorded :
          (r r2 : Ref) (rs : List Ref) (xs : List (List ℕ)) (size log2 : ℕ)
          → (size == 0) ≡ false
          → Backed c d IsGood v p ((r ∷ r2 ∷ rs) ++ rest)
          → ReadBack c d IsGood v p (r ∷ r2 ∷ rs) xs
          → IsFit c d IsGood v (encode_refs (r ∷ r2 ∷ rs))
          → ((k : Key) → refs_of p.ddt k + 1 < 2 ^ 32)
          → IsQuiet c d IsGood v p
          → length (r ∷ r2 ∷ rs) < 2 ^ 32
          → RefsStored p rest
              (concat xs)
              (store_refs c i (r ∷ r2 ∷ rs) size log2 (at c d IsGood v p))
      unfolding store_refs
      many_recorded r r2 rs xs size log2 n h reads fit room quiet few =
          let new = r ∷ r2 ∷ rs in
          elim (bs_write-BlockWritten c d IsGood v sound IsTorn lp p (new ++ rest) (encode_refs new)
            h fit.0 fit.1 (room (c.blake3 (encode_refs new))) quiet) [
              | inr (p1, e', e, backs, same) ↦ inr (
                p1,
                e',
                rw e refl,
                Backs-right c v.bs d IsGood p1 new rest backs,
                SameReads-right c v.bs d IsGood p p1 new rest same,
              )
              | inl (p1, m, e, backs, same, map_reads, quiet1, refs) ↦ inl (
                p1,
                with_ref (cleared i size log2) m,
                rw e refl,
                mapped_data p1 m new xs size log2 n backs
                    (ReadBack-Same p p1 new xs reads
                      (SameReads-left c v.bs d IsGood p p1 new rest same))
                    map_reads few,
                SameReads-right c v.bs d IsGood p p1 new rest same,
              )
            ]

      not_empty :
          (x : List ℕ) (xs : List (List ℕ)) → 1 ≤ length x → (length (x ++ concat xs) == 0) ≡ false
      not_empty x xs l = ground (arith, length-append x (concat xs))

      -- The references of the blocks, once they are written, recorded in the inode.
      pub store_refs-RefsStored :
          (new : List Ref) (xs : List (List ℕ)) (log2 : ℕ)
          → Backed c d IsGood v p (new ++ rest)
          → ReadBack c d IsGood v p new xs
          → All (λ x. 1 ≤ length x) xs
          → (2 ≤ length new → IsFit c d IsGood v (encode_refs new))
          → ((k : Key) → refs_of p.ddt k + 1 < 2 ^ 32)
          → IsQuiet c d IsGood v p
          → length new < 2 ^ 32
          → RefsStored p rest
              (concat xs)
              (store_refs c i new (length (concat xs)) log2 (at c d IsGood v p))
      store_refs-RefsStored [] [] log2 h reads some fit room quiet few = none_recorded 0 log2 h
      store_refs-RefsStored [] (x ∷ xs) log2 h reads some fit room quiet few = absurd reads
      store_refs-RefsStored (r ∷ new) [] log2 h reads some fit room quiet few = absurd reads
      store_refs-RefsStored (r ∷ []) (x ∷ []) log2 h reads some fit room quiet few =
          one_recorded r x (length (x ++ [])) log2 (not_empty x [] some.0) h reads.0
      store_refs-RefsStored (r ∷ []) (x ∷ y ∷ xs) log2 h reads some fit room quiet few =
          absurd reads.1
      store_refs-RefsStored (r ∷ r2 ∷ new) (x ∷ xs) log2 h reads some fit room quiet few =
          many_recorded r r2 new (x ∷ xs) (length (x ++ concat xs)) log2 (not_empty x xs some.0) h
            reads (fit (omega arith)) room quiet few
