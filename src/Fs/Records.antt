-- ===== src/Fs/Records.antt =====
-- rust/bloomfs-fs/src/lib.rs: the records of a file and the list of their references.
use bloomfs.Base.{
  ◌/◌, ◌==◌, ◌||◌, leb, err, if◌then◌else◌, ℕ, zero, suc, ◌+◌, ◌-◌, ◌*◌, ◌^◌, ◌≤◌, ◌<◌, ◌≡◌, refl,
  ap, ap₂, sym, ◌∙◌, false, List, [], ◌∷◌, ◌++◌, ltb, min, length, slice, drop, concat, All, ok,
  Bool-cases, inl, inr, arith, length-append, length-take, length-drop, append-take-drop, drop_all,
  drop-append, take-append, append_assoc, to_le, from_le, length-to_le, from_le-to_le,
}
use bloomfs.Base.Fields.{Contiguous, contents, copy_fields_new, drop-drop}
use bloomfs.Store.{Ref, marshal_ref, unmarshal_ref}
use bloomfs.Store.Refs.{IsEncodable, length-marshal_ref, unmarshal-marshal_ref}
use bloomfs.Alloc.{Bitmap, available, deferred_count}
use bloomfs.Fs.{
  record_size_for, split_loop, split_records, ref_list_fields, encode_refs, read_refs, decode_refs,
  needed_clusters, fallocate, div_ceil, no_space,
}

module _ (blob : List ℕ) (rs : ℕ) (positive : 1 ≤ rs) where
  record_length :
      (off end : ℕ)
      → off < end
      → end ≤ length blob
      → end ≤ off + rs
      → (1 ≤ length (slice blob off (end - off))) × (length (slice blob off (end - off)) ≤ rs)
  record_length off end l m n =
      let size : length (slice blob off (end - off)) ≡ end - off =
        omega (arith, length-take (end - off) (drop off blob), length-drop off blob) in
      (omega (arith, size), omega (arith, size))

  -- What is left of the blob is the concatenation of the records, none of which is empty or too long.
  split_loop-concat :
      (fuel off : ℕ)
      → length blob ≤ off + fuel
      → (concat (split_loop fuel off blob rs) ≡ drop off blob)
        × All (λ r. (1 ≤ length r) × (length r ≤ rs)) (split_loop fuel off blob rs)
  unfolding split_loop
  split_loop-concat zero off h = (sym (drop_all off blob (omega arith)), tt)
  split_loop-concat (suc fuel) off h = elim (Bool-cases (ltb off (length blob))) [
    | inl b ↦
        let end = min (off + rs) (length blob) in
        let step : off < end = ground arith in
        let (joined, sized) = split_loop-concat fuel end (omega arith) in
        rw b (
          ap (λ t. slice blob off (end - off) ++ t)
                (joined ∙ sym (drop-drop (end - off) off end blob (omega arith)))
              ∙ append-take-drop (end - off) (drop off blob),
          (record_length off end step (omega arith) (omega arith), sized),
        )
    | inr b ↦ rw b (sym (drop_all off blob (ground arith)), tt)
  ]

  -- For any record size but zero, the records of a blob, one behind the other, are the blob; each has
  -- at least one byte and at most the record size.
  pub split_records-concat :
      (concat (split_records blob rs) ≡ blob)
      × All (λ r. (1 ≤ length r) × (length r ≤ rs)) (split_records blob rs)
  unfolding split_records
  split_records-concat = split_loop-concat (length blob) 0 (omega arith)

-- The clusters that a length takes in the worst case: `records` records of the size for it, none to spare,
-- and a block map with a reference of 53 bytes for each, in as few clusters as hold it.
pub record WorstCase (len records blocks : ℕ) : Type 0 where
  pub covered : len ≤ records * (record_size_for len).0
  pub fewest : records * (record_size_for len).0 < len + (record_size_for len).0
  pub map_fits : records * 53 ≤ blocks * 4096
  pub map_fewest : blocks * 4096 < records * 53 + 4096

Covers : (len : ℕ) → ℕ → ℕ → Type 0
Covers len rs n = (len ≤ n * rs) × (n * rs < len + rs)

records_cover :
    (len : ℕ) → Covers len (record_size_for len).0 (div_ceil len (record_size_for len).0)
unfolding record_size_for Covers
records_cover len = elim (Bool-cases (ltb len (32 * 1024))) [
  | inl a ↦ rw a (omega arith, omega arith)
  | inr a ↦ elim (Bool-cases (ltb len (256 * 1024))) [
    | inl b ↦ rw (a, b) (omega arith, omega arith)
    | inr b ↦ elim (Bool-cases (ltb len (2 * 1024 * 1024))) [
      | inl c ↦ rw (a, b, c) (omega arith, omega arith)
      | inr c ↦ rw (a, b, c) (omega arith, omega arith)
    ]
  ]
]

-- fallocate grants a length exactly if it is 0 or the clusters that are free or wait for the
-- commit are as many as it takes in the worst case: as many records of the size for the length as
-- cover it, with none to spare, and a block map of 53 bytes for each of them, in the fewest
-- clusters that hold it. Otherwise it says that there is no space.
pub fallocate_lem :
    (b : Bitmap) (len : ℕ)
    → (records : ℕ) × (blocks : ℕ) × WorstCase len records blocks
      × (fallocate b len ≡ (
          if (len == 0)
            || leb
                (records * ((record_size_for len).0 / 4096) + blocks)
                (available b + deferred_count b)
          then ok tt
          else err no_space))
unfolding fallocate needed_clusters Covers
fallocate_lem b len =
    let n = div_ceil len (record_size_for len).0 in
    let cover = records_cover len in
    (
      n,
      div_ceil (n * 53) 4096,
      record {
        covered = cover.0;
        fewest = cover.1;
        map_fits = omega arith;
        map_fewest = omega arith;
      },
      ground arith,
    )

length-ref_list :
    (off : ℕ) (refs : List Ref)
    → All IsEncodable refs
    → length (contents (ref_list_fields off refs)) ≡ length refs * 53
unfolding ref_list_fields contents
length-ref_list off [] w = omega arith
length-ref_list off (r ∷ rs) w = omega (
  arith,
  length-append (marshal_ref r) (contents (ref_list_fields (off + 53) rs)),
  length-marshal_ref r w.0,
  length-ref_list (off + 53) rs w.1,
)

ref_list-Contiguous :
    (off : ℕ) (refs : List Ref) → All IsEncodable refs → Contiguous off (ref_list_fields off refs)
unfolding ref_list_fields
ref_list-Contiguous off [] w = tt
ref_list-Contiguous off (r ∷ rs) w =
    (refl, rw (length-marshal_ref r w.0) (ref_list-Contiguous (off + 53) rs w.1))

-- Reading the references that stand behind `front`.
read_refs-contents :
    (off at : ℕ) (refs : List Ref) (front : List ℕ)
    → All IsEncodable refs
    → at ≡ length front
    → read_refs (length refs) at (front ++ contents (ref_list_fields off refs)) ≡ refs
unfolding read_refs ref_list_fields contents
read_refs-contents off at [] front w e = refl
read_refs-contents off at (r ∷ rs) front w e =
    let back = contents (ref_list_fields (off + 53) rs) in
    let here = drop-append front (marshal_ref r ++ back) at e in
    let next_at : at + 53 ≡ length (front ++ marshal_ref r) =
      omega (arith, length-append front (marshal_ref r), length-marshal_ref r w.0) in
    ap₂ ◌∷◌ (ap unmarshal_ref here ∙ unmarshal-marshal_ref r w.0 back) (
      ap (λ t. read_refs (length rs) (at + 53) t) (sym (append_assoc front (marshal_ref r) back))
      ∙ read_refs-contents (off + 53) (at + 53) rs (front ++ marshal_ref r) w.1 next_at)

module _ (refs : List Ref) (w : All IsEncodable refs) where
  list_image : List ℕ
  list_image = to_le 4 (length refs) ++ contents (ref_list_fields 4 refs)

  length_image :
      4 + length refs * 53 ≡ length (contents ((0, to_le 4 (length refs)) ∷ ref_list_fields 4 refs))
  unfolding contents
  length_image = omega (
    arith,
    length-append (to_le 4 (length refs)) (contents (ref_list_fields 4 refs)),
    length-to_le 4 (length refs),
    length-ref_list 4 refs w,
  )

  encode-image : encode_refs refs ≡ list_image
  unfolding encode_refs list_image contents
  encode-image =
      copy_fields_new (4 + length refs * 53) ((0, to_le 4 (length refs)) ∷ ref_list_fields 4 refs)
        (refl, rw (length-to_le 4 (length refs)) (ref_list-Contiguous 4 refs w)) length_image

  -- A list of fewer than 2 ^ 32 references, each with a hash of 32 bytes and fields that fit their
  -- words, is read back from its block map.
  pub decode-encode_refs : length refs < 2 ^ 32 → decode_refs (encode_refs refs) ≡ ok refs
  unfolding decode_refs list_image contents
  decode-encode_refs small =
      let body : List ℕ = contents (ref_list_fields 4 refs) in
      let size : length (to_le 4 (length refs) ++ body) ≡ 4 + length refs * 53 = sym length_image in
      let head : from_le (slice (to_le 4 (length refs) ++ body) 0 4) ≡ length refs =
        ap from_le (take-append (to_le 4 (length refs)) body 4 (sym (length-to_le 4 (length refs))))
        ∙ from_le-to_le 4 (length refs) small in
      let some_bytes : ltb (length (to_le 4 (length refs) ++ body)) 4 ≡ false =
        ground (arith, size) in
      let enough : ltb (length (to_le 4 (length refs) ++ body)) (4 + length refs * 53) ≡ false =
        ground (arith, size) in
      ap decode_refs encode-image
      ∙ rw (some_bytes, head, enough)
          (ap ok (
            read_refs-contents 4 4 refs (to_le 4 (length refs)) w
              (sym (length-to_le 4 (length refs)))))
