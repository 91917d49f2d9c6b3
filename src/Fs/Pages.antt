-- ===== src/Fs/Pages.antt =====
-- rust/bloomfs-fs/src/lib.rs: the encoding of a directory page.
use bloomfs.Base.{
  ℕ, suc, ◌+◌, ◌^◌, ◌≤◌, ◌<◌, ◌≡◌, refl, ap, sym, ◌∙◌, false, List, [], ◌∷◌, ◌++◌, ltb, length,
  slice, drop, replicate, All, ok, arith, length-append, length-replicate, slice_behind,
  take-append, append_assoc, to_le, from_le, length-to_le, from_le-to_le,
}
use bloomfs.Base.Fields.{Contiguous, contents, copy_fields-contents}
use bloomfs.Segment.{DirEntry}
use bloomfs.Fs.{page_fields, encode_dir_page, read_page, decode_dir_page}

-- The bytes that the entries take.
abbrev pub entries_size : List DirEntry → ℕ
entries_size [] = 0
entries_size (e ∷ es) = 10 + length e.0 + entries_size es

entries_few : (es : List DirEntry) → length es ≤ entries_size es
entries_few [] = omega arith
entries_few (e ∷ es) = omega (arith, entries_few es)

length-page :
    (off : ℕ) (es : List DirEntry) → length (contents (page_fields off es)) ≡ entries_size es
unfolding page_fields contents
length-page off [] = refl
length-page off ((name, id) ∷ es) =
    let rest = contents (page_fields (off + 10 + length name) es) in
    omega (
      arith,
      length-append (to_le 2 (length name)) (to_le 8 id ++ (name ++ rest)),
      length-append (to_le 8 id) (name ++ rest),
      length-append name rest,
      length-to_le 2 (length name),
      length-to_le 8 id,
      length-page (off + 10 + length name) es,
    )

page-Contiguous : (off : ℕ) (es : List DirEntry) → Contiguous off (page_fields off es)
unfolding page_fields
page-Contiguous off [] = tt
page-Contiguous off ((name, id) ∷ es) = (
  refl,
  (
    omega (arith, length-to_le 2 (length name)),
    (omega (arith, length-to_le 8 id), page-Contiguous (off + 10 + length name) es),
  ),
)

-- One entry behind `front` and before `back`.
module _ (front back name : List ℕ) (id at : ℕ) (e : at ≡ length front) where
  head : List ℕ
  head = to_le 2 (length name) ++ (to_le 8 id ++ name)

  length-head : length head ≡ 10 + length name
  unfolding head
  length-head = omega (
    arith,
    length-append (to_le 2 (length name)) (to_le 8 id ++ name),
    length-append (to_le 8 id) name,
    length-to_le 2 (length name),
    length-to_le 8 id,
  )

  page : List ℕ
  page = front ++ (to_le 2 (length name) ++ (to_le 8 id ++ (name ++ back)))

  page_split : page ≡ (front ++ head) ++ back
  unfolding page head
  page_split =
      ap (λ t. front ++ t)
        (ap (λ t. to_le 2 (length name) ++ t) (sym (append_assoc (to_le 8 id) name back))
          ∙ sym (append_assoc (to_le 2 (length name)) (to_le 8 id ++ name) back))
      ∙ sym (append_assoc front (to_le 2 (length name) ++ (to_le 8 id ++ name)) back)

  name_length : length name < 2 ^ 16 → from_le (slice page at 2) ≡ length name
  unfolding page
  name_length small =
      ap from_le (
        slice_behind front _ at 2 0 2 (omega arith) refl
        ∙ take-append (to_le 2 (length name)) _ 2 (sym (length-to_le 2 (length name))))
      ∙ from_le-to_le 2 (length name) small

  entry_id : id < 2 ^ 64 → from_le (slice page (at + 2) 8) ≡ id
  unfolding page
  entry_id small =
      ap from_le (
        slice_behind front _ (at + 2) 8 2 8 (omega arith) refl
        ∙ slice_behind (to_le 2 (length name)) _ 2 8 0 8
            (omega (arith, length-to_le 2 (length name))) refl
        ∙ take-append (to_le 8 id) _ 8 (sym (length-to_le 8 id)))
      ∙ from_le-to_le 8 id small

  entry_name : slice page (at + 10) (length name) ≡ name
  unfolding page
  entry_name =
      slice_behind front _ (at + 10) (length name) 10 (length name) (omega arith) refl
      ∙ slice_behind (to_le 2 (length name)) _ 10 (length name) 8 (length name)
          (omega (arith, length-to_le 2 (length name))) refl
      ∙ slice_behind (to_le 8 id) _ 8 (length name) 0 (length name)
          (omega (arith, length-to_le 8 id)) refl
      ∙ take-append name back (length name) refl

page_entry :
    (front rest back name : List ℕ) (id at : ℕ) (e : at ≡ length front)
    → front ++ ((to_le 2 (length name) ++ (to_le 8 id ++ (name ++ rest))) ++ back)
      ≡ page front (rest ++ back) name id at e
unfolding page
page_entry front rest back name id at e =
    ap (λ t. front ++ t)
      (append_assoc (to_le 2 (length name)) (to_le 8 id ++ (name ++ rest)) back
        ∙ ap (λ t. to_le 2 (length name) ++ t)
            (append_assoc (to_le 8 id) (name ++ rest) back
              ∙ ap (λ t. to_le 8 id ++ t) (append_assoc name rest back)))

module _ (lossy : List ℕ → List ℕ) where
  -- A name of UTF-8, which the conversion leaves alone, and a number of 64 bits.
  abbrev pub IsStorable : DirEntry → Type 0
  IsStorable e = (lossy e.0 ≡ e.0) × (e.1 < 2 ^ 64) × (length e.0 < 2 ^ 16)

  read_step :
      (rounds at : ℕ) (b name : List ℕ) (id : ℕ) (r : List DirEntry × ℕ)
      → at + 10 + length name ≤ length b
      → from_le (slice b at 2) ≡ length name
      → from_le (slice b (at + 2) 8) ≡ id
      → slice b (at + 10) (length name) ≡ name
      → lossy name ≡ name
      → read_page lossy rounds (at + 10 + length name) b ≡ ok r
      → read_page lossy (suc rounds) at b ≡ ok ((name, id) ∷ r.0, r.1)
  unfolding read_page
  read_step rounds at b name id r l nl num str same rest =
      let header : ltb (length b) (at + 10) ≡ false = ground arith in
      let whole : ltb (length b) (at + 10 + length name) ≡ false = ground arith in
      rw (read_page, nl, header, whole, rest, num, str, same) refl

  read_page-contents :
      (off at : ℕ) (es : List DirEntry) (front back : List ℕ)
      → All IsStorable es
      → at ≡ length front
      → read_page lossy (length es) at (front ++ (contents (page_fields off es) ++ back))
        ≡ ok (es, at + entries_size es)
  unfolding read_page page_fields contents
  read_page-contents off at [] front back w e = ap (λ (n : ℕ). ok ([], n)) (omega arith)
  read_page-contents off at ((name, id) ∷ es) front back w e =
      let rest = contents (page_fields (off + 10 + length name) es) in
      let page_is : front ++ (contents (page_fields off ((name, id) ∷ es)) ++ back)
          ≡ page front (rest ++ back) name id at e =
        page_entry front rest back name id at e in
      let split = page_split front (rest ++ back) name id at e in
      let long : length (page front (rest ++ back) name id at e)
          ≡ at + 10 + length name + length (rest ++ back) =
        ap length split
        ∙ omega (
          arith,
          length-append (front ++ head front (rest ++ back) name id at e) (rest ++ back),
          length-append front (head front (rest ++ back) name id at e),
          length-head front (rest ++ back) name id at e,
        ) in
      ap (λ t. read_page lossy (suc (length es)) at t) page_is
      ∙ read_step (length es) at (page front (rest ++ back) name id at e) name id
          (es, at + 10 + length name + entries_size es) (omega (arith, long))
          (name_length front (rest ++ back) name id at e w.0.2)
          (entry_id front (rest ++ back) name id at e w.0.1)
          (entry_name front (rest ++ back) name id at e) w.0.0
          (ap (λ t. read_page lossy (length es) (at + 10 + length name) t) split
            ∙ read_page-contents (off + 10 + length name) (at + 10 + length name) es
                (front ++ head front (rest ++ back) name id at e) back w.1
                (omega (
                  arith,
                  length-append front (head front (rest ++ back) name id at e),
                  length-head front (rest ++ back) name id at e,
                )))
      ∙ ap (λ (n : ℕ). ok ((name, id) ∷ es, n)) (omega arith)

  -- Entries that fit a page, with names of UTF-8 of fewer than 2 ^ 16 bytes and numbers of 64 bits,
  -- are read back from the page, together with the bytes that they take.
  pub decode-encode_dir_page :
      (es : List DirEntry)
      → All IsStorable es
      → 4 + entries_size es ≤ 4096
      → decode_dir_page lossy (encode_dir_page es) ≡ ok (es, 4 + entries_size es)
  unfolding decode_dir_page encode_dir_page contents
  decode-encode_dir_page es w l =
      let count : List ℕ = to_le 4 (length es) in
      let body : List ℕ = contents (page_fields 4 es) in
      let old : List ℕ = replicate 4096 0 in
      let size : length (count ++ body) ≡ 4 + entries_size es =
        omega (arith, length-append count body, length-to_le 4 (length es), length-page 4 es) in
      let pad : List ℕ = drop (length (count ++ body)) old in
      let image : encode_dir_page es ≡ count ++ (body ++ pad) =
        copy_fields-contents old ((0, count) ∷ page_fields 4 es)
          (refl, rw (length-to_le 4 (length es)) (page-Contiguous 4 es))
          (omega (arith, size, length-replicate {A = ℕ} 4096 0))
        ∙ append_assoc count body pad in
      let few : length es < 2 ^ 32 = omega (arith, entries_few es) in
      let head : from_le (slice (count ++ (body ++ pad)) 0 4) ≡ length es =
        ap from_le (take-append count (body ++ pad) 4 (sym (length-to_le 4 (length es))))
        ∙ from_le-to_le 4 (length es) few in
      let long : ltb (length (count ++ (body ++ pad))) 4 ≡ false =
        ground (arith, length-append count (body ++ pad), length-to_le 4 (length es)) in
      ap (decode_dir_page lossy) image
      ∙ rw (decode_dir_page, long, head)
          (read_page-contents 4 4 es count pad w (sym (length-to_le 4 (length es))))
