-- ===== src/Volume/Reading.antt =====
-- rust/bloomfs-fs/src/lib.rs: `read_at` against the whole contents.
use bloomfs.Base.{
  ℕ, zero, suc, ◌+◌, ◌-◌, ◌*◌, ◌/◌, ◌%◌, ◌^◌, ◌≤◌, ◌<◌, ◌≡◌, refl, ap, sym, ◌∙◌, true, false, ◌||◌,
  List, [], ◌∷◌, ◌++◌, ltb, leb, ◌==◌, length, take, drop, slice, min, get_or, ok, Bool-cases, inl,
  inr, ==_iff, arith, length-take, length-drop, append-nil, append-take-drop,
}
use native.Mathlib.Nat.{div-mul-le_self, le-div_iff_mul-le, mod-lt, add-mul}
use native.Mathlib.Omega.{div_any}
use bloomfs.Base.Bits.{pow2_pos}
use bloomfs.Base.Fields.{drop-drop}
use bloomfs.Block.{Device}
use bloomfs.Inode.{Inode, type_regular}
use bloomfs.Store.{Crates, Ref}
use bloomfs.Volume.{Volume, get_inode, bs_read}
use bloomfs.Volume.Contents.{
  default_ref, max, load_refs, read_all, get_data, overlap, read_records, read_file, read_at,
}

module _ {A : Type 0} where
  take_nothing : (k : ℕ) → take {A = A} k [] ≡ []
  take_nothing zero = refl
  take_nothing (suc k) = refl

  take_join : (n m k : ℕ) (xs : List A) → k ≡ n + m → take n xs ++ take m (drop n xs) ≡ take k xs
  take_join zero m k xs h = ap (λ (k : ℕ). take k xs) (omega arith)
  take_join (suc n) m k [] h = take_nothing m ∙ sym (take_nothing k)
  take_join (suc n) m zero (x ∷ xs) h = absurd (omega arith)
  take_join (suc n) m (suc k) (x ∷ xs) h = ap (λ t. x ∷ t) (take_join n m k xs (omega arith))

  slice_join :
      (b : List A) (a n m k : ℕ) → k ≡ n + m → slice b a n ++ slice b (a + n) m ≡ slice b a k
  slice_join b a n m k h =
      ap (λ t. slice b a n ++ take m t) (sym (drop-drop n a (a + n) b refl))
      ∙ take_join n m k (drop a b) h

  take-drop-take :
      (o m n : ℕ) (xs : List A) → o + m ≤ n → take m (drop o (take n xs)) ≡ take m (drop o xs)
  take-drop-take zero zero n xs h = refl
  take-drop-take zero (suc m) (suc n) (x ∷ xs) h =
      ap (λ t. x ∷ t) (take-drop-take zero m n xs (omega arith))
  take-drop-take zero (suc m) (suc n) [] h = refl
  take-drop-take zero (suc m) zero xs h = absurd (omega arith)
  take-drop-take (suc o) m zero xs h = absurd (omega arith)
  take-drop-take (suc o) m (suc n) [] h = refl
  take-drop-take (suc o) m (suc n) (x ∷ xs) h = take-drop-take o m n xs (omega arith)

  slice-slice :
      (b : List A) (a n o m k : ℕ) → o + m ≤ n → a + o ≡ k → slice (slice b a n) o m ≡ slice b k m
  slice-slice b a n o m k h e =
      take-drop-take o m n (drop a b) h ∙ ap (take m) (drop-drop o a k b (sym e))

-- The bytes of a record, cut to the range, and those behind it make up the range.
overlap_join :
    (b : List ℕ) (s rs off end : ℕ)
    → off < end
    → end ≤ length b
    → s < end
    → 0 < rs
    → overlap (slice b s rs) s off end ++ slice b (max off (s + rs)) (end - max off (s + rs))
      ≡ slice b (max off s) (end - max off s)
unfolding overlap
overlap_join b s rs off end h1 h2 h3 h4 =
    let len : length (slice b s rs) ≡ min rs (length b - s) =
      length-take rs (drop s b) ∙ ap (min rs) (length-drop s b) in
    let lo = max off s in
    let hi = min end (s + length (slice b s rs)) in
    elim (Bool-cases (ltb lo hi)) [
      | inr n ↦ rw n (
          let e : max off (s + rs) ≡ max off s = ground (arith, len) in
          ap (λ (k : ℕ). slice b k (end - k)) e)
      | inl y ↦ rw y (
          ap (λ t. t ++ slice b (max off (s + rs)) (end - max off (s + rs)))
            (slice-slice b s rs (lo - s) (hi - lo) lo (ground (arith, len)) (ground arith))
          ∙ (elim (Bool-cases (leb end (s + rs))) [
            | inl last ↦
                let rest : end - max off (s + rs) ≡ 0 = ground (arith) in
                let whole : hi - lo ≡ end - lo = ground (arith, len) in
                ap (λ (k : ℕ). slice b lo (hi - lo) ++ slice b (max off (s + rs)) k) rest
                ∙ append-nil (slice b lo (hi - lo))
                ∙ ap (slice b lo) whole
            | inr more ↦
                let next : max off (s + rs) ≡ lo + (hi - lo) = ground (arith, len) in
                ap (λ (k : ℕ). slice b lo (hi - lo) ++ slice b k (end - k)) next
                ∙ slice_join b lo (hi - lo) (end - (lo + (hi - lo))) (end - lo)
                    (ground (arith, len))
          ]))
    ]

module _ (c : Crates) {d : Device} (v : Volume d) (rs : ℕ) where
  -- The records hold the bytes, `rs` of them each, and the last one the rest.
  abbrev pub Holds : List Ref → List ℕ → Type 0
  Holds [] b = b ≡ []
  Holds (r ∷ refs) b = (0 < length b) × (bs_read c v r ≡ ok (take rs b)) × Holds refs (drop rs b)

  pub read_all-Holds : (refs : List Ref) (b : List ℕ) → Holds refs b → read_all c v refs ≡ ok b
  unfolding read_all
  read_all-Holds [] b h = ap ok (sym h)
  read_all-Holds (r ∷ refs) b (some_left, here, rest) =
      rw (here, read_all-Holds refs (drop rs b) rest) (ap ok (append-take-drop rs b))

  nth-Holds :
      (refs : List Ref) (b : List ℕ) (i s : ℕ)
      → Holds refs b
      → s ≡ i * rs
      → s < length b
      → bs_read c v (get_or refs i default_ref) ≡ ok (slice b s rs)
  nth-Holds [] b i s h e l =
      let none_left : length b ≡ 0 = ap (λ (t : List ℕ). length t) h in absurd (omega arith)
  nth-Holds (r ∷ refs) b zero s (some_left, here, rest) e l =
      here ∙ ap (λ (k : ℕ). ok (slice b k rs)) {x = 0} (omega arith)
  nth-Holds (r ∷ refs) b (suc i) s (some_left, here, rest) e l =
      let back : s - rs ≡ i * rs = omega arith in
      let at : s ≡ rs + (s - rs) = omega arith in
      let inside : s - rs < length (drop rs b) = ground (arith, length-drop rs b) in
      nth-Holds refs (drop rs b) i (s - rs) rest back inside
      ∙ ap (λ t. ok (take rs t)) (drop-drop (s - rs) rs s b at)

  read_records-Holds :
      (refs : List Ref) (b : List ℕ) (off end rounds i s : ℕ)
      → Holds refs b
      → 0 < rs
      → off < end
      → end ≤ length b
      → s ≡ i * rs
      → end ≤ s + rounds * rs
      → s + rounds * rs < end + rs
      → read_records c v rounds i refs rs off end ≡ ok (slice b (max off s) (end - max off s))
  unfolding read_records
  read_records-Holds refs b off end zero i s h p l k e lo hi =
      let empty : end - max off s ≡ 0 = ground arith in
      sym (ap (λ (n : ℕ). ok (slice b (max off s) n)) empty)
  read_records-Holds refs b off end (suc n) i s h p l k e lo hi =
      let inside : s < end = omega arith in
      rw
        (
          nth-Holds refs b i s h e (omega (arith, inside, k)),
          read_records-Holds refs b off end n (i + 1) (s + rs) h p l k (omega arith) (omega arith)
              (omega arith),
          sym e,
        )
        (ap ok (overlap_join b s rs off end l k inside p))

-- The records from the first to the last one of a range reach over its end, and not further than they must.
rounds_lem :
    (rs off end : ℕ)
    → 0 < rs
    → off < end
    → (end ≤ off / rs * rs + ((end - 1) / rs + 1 - off / rs) * rs)
      × (off / rs * rs + ((end - 1) / rs + 1 - off / rs) * rs < end + rs)
      × (off / rs * rs ≤ off)
rounds_lem rs off end p l =
    let a = off / rs in
    let z = (end - 1) / rs in
    let below : a * rs ≤ off = div-mul-le_self off rs in
    let last : z * rs ≤ end - 1 = div-mul-le_self (end - 1) rs in
    let over : end ≤ (z + 1) * rs = omega (arith, div_any (end - 1) rs, mod-lt (end - 1) p) in
    let ordered : a ≤ z = (le-div_iff_mul-le p).1 (omega (arith, below)) in
    let split : a * rs + (z + 1 - a) * rs ≡ (z + 1) * rs =
      sym (add-mul a (z + 1 - a) rs) ∙ ap (λ (k : ℕ). k * rs) (omega arith) in
    (omega (arith, split, over), omega (arith, split, last), below)

take_cut : (xs : List ℕ) (n m : ℕ) → (min m (length xs) ≡ n) → take n xs ≡ take m xs
take_cut [] n m h = take_nothing n ∙ sym (take_nothing m)
take_cut (x ∷ xs) zero zero h = refl
take_cut (x ∷ xs) zero (suc m) h = absurd (omega arith)
take_cut (x ∷ xs) (suc n) zero h = absurd (omega arith)
take_cut (x ∷ xs) (suc n) (suc m) h = ap (λ t. x ∷ t) (take_cut xs n m (omega arith))

-- Behind the end of a list a slice is cut.
slice_cut : (b : List ℕ) (off n : ℕ) → slice b off (min (off + n) (length b) - off) ≡ slice b off n
slice_cut b off n =
    take_cut (drop off b) (min (off + n) (length b) - off) n (ground (arith, length-drop off b))

-- The file under `id` is regular, and its records hold the bytes.
pub record IsFile (c : Crates) {d : Device} (v : Volume d) (id : ℕ) (bytes : List ℕ) : Type 0 where
  pub inode : Inode
  pub found : get_inode v id ≡ ok inode
  pub regular : inode.kind ≡ type_regular
  pub size : inode.file_size ≡ length bytes
  pub refs : List Ref
  pub loads : load_refs c v inode ≡ ok refs
  pub holds : Holds c v (2 ^ (inode.record_size_log2 % 64)) refs bytes

module _ (c : Crates) {d : Device} (v : Volume d) (id : ℕ) (bytes : List ℕ)
    (f : IsFile c v id bytes) where
  kind_fits : (f.inode.kind == type_regular) ≡ true
  kind_fits = (==_iff f.inode.kind type_regular).1 f.regular

  empty_list : (b : List ℕ) → length b ≡ 0 → [] ≡ b
  empty_list [] h = refl
  empty_list (x ∷ xs) h = absurd (omega arith)

  read_file-IsFile : read_file c v id ≡ ok bytes
  unfolding read_file get_data
  read_file-IsFile = elim (Bool-cases (f.inode.file_size == 0)) [
    | inl z ↦ rw (f.found, kind_fits, z) (ap ok (empty_list bytes (ground (arith, f.size))))
    | inr n ↦
        rw (f.found, kind_fits, n, f.loads)
          (read_all-Holds c v (2 ^ (f.inode.record_size_log2 % 64)) f.refs bytes f.holds)
  ]

  range_of :
      (off len : ℕ)
      → len == 0 || leb f.inode.file_size off ≡ false
      → read_records c v
          ((min (off + len) f.inode.file_size - 1) / 2 ^ (f.inode.record_size_log2 % 64)
            + 1
            - off / 2 ^ (f.inode.record_size_log2 % 64))
          (off / 2 ^ (f.inode.record_size_log2 % 64))
          f.refs
          (2 ^ (f.inode.record_size_log2 % 64))
          off
          (min (off + len) f.inode.file_size)
        ≡ ok (slice bytes off len)
  range_of off len some_left =
      let rs = 2 ^ (f.inode.record_size_log2 % 64) in
      let end = min (off + len) f.inode.file_size in
      let l : off < end = ground arith in
      let p : 0 < rs = pow2_pos (f.inode.record_size_log2 % 64) in
      let (reaches, near, before) = rounds_lem rs off end p l in
      let from : max off (off / rs * rs) ≡ off = ground arith in
      read_records-Holds c v rs f.refs bytes off end ((end - 1) / rs + 1 - off / rs) (off / rs)
        (off / rs * rs) f.holds p l (omega (arith, f.size)) refl reaches near
      ∙ ap (λ (k : ℕ). ok (slice bytes k (end - k))) from
      ∙ ap (λ (n : ℕ). ok (slice bytes off (min (off + len) n - off))) f.size
      ∙ ap ok (slice_cut bytes off len)

  read_at-IsFile :
      (off len : ℕ) → off + len < 2 ^ 64 → read_at c v id off len ≡ ok (slice bytes off len)
  unfolding read_at
  read_at-IsFile off len h =
      let small : (off + len) % 2 ^ 64 ≡ off + len = omega (arith, h) in
      elim (Bool-cases (len == 0 || leb f.inode.file_size off)) [
        | inl nothing ↦
            rw (f.found, kind_fits, nothing)
              (ap ok (
                empty_list (slice bytes off len) (
                  length-take len (drop off bytes)
                  ∙ ground (arith, length-drop off bytes, f.size))))
        | inr some_left ↦
            rw (f.found, kind_fits, some_left, f.loads, small) (range_of off len some_left)
      ]

  -- For a regular file whose records hold its bytes, in records of the size that its inode names,
  -- read_file returns the bytes, and read_at returns those of the range, as far as the file has
  -- them, where the end of the range fits in a u64.
  pub read_at-read_file :
      (off len : ℕ)
      → off + len < 2 ^ 64
      → (read_file c v id ≡ ok bytes) × (read_at c v id off len ≡ ok (slice bytes off len))
  read_at-read_file off len h = (read_file-IsFile, read_at-IsFile off len h)
