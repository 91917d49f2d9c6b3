-- ===== src/Dedup/Snapshot.antt =====
-- rust/bloomfs-dedup/src/lib.rs: the snapshot of a table.
use bloomfs.Base.{
  ℕ, suc, ◌+◌, ◌*◌, ◌^◌, ◌≤◌, ◌<◌, ◌≡◌, refl, ap, sym, subst, ◌∙◌, false, List, [], ◌∷◌, ◌++◌, ltb,
  ◌==◌, if◌then◌else◌, length, drop, slice, get_or, ok, arith, none, length-append, slice_behind,
  get_or_behind, take-append, append-nil, append_assoc, to_le, from_le, length-to_le, from_le-to_le,
}
use bloomfs.Base.Fields.{
  Contiguous, contents, copy_fields-contents, copy_fields_new, contents-append, Contiguous-append,
}
use bloomfs.Base.Assoc
use bloomfs.Base.Assoc.{Keyed, bytes_keyed, NoRepeat, insert_new, lookup_unique}
use bloomfs.Dedup.{
  Key, Entry, Table, new, entry_fields, table_fields, marshal_len, marshal_into, marshal,
  read_entry, read_entries, unmarshal,
}

-- A key of 32 bytes, and an entry whose fields fit their words.
pub record IsEncodable (k : Key) (e : Entry) : Type 0 where
  pub key : length k ≡ 32
  pub start : e.start < 2 ^ 64
  pub count : e.count < 2 ^ 32
  pub payload : e.payload < 2 ^ 32
  pub logical : e.logical < 2 ^ 32
  pub refs : e.refs < 2 ^ 32

abbrev pub AllEncodable : Table → Type 0
AllEncodable [] = Unit
AllEncodable ((k, e) ∷ t) = IsEncodable k e × AllEncodable t

module _ (k : Key) (e : Entry) (w : IsEncodable k e) where
  length-entry : (off : ℕ) → length (contents (entry_fields off k e)) ≡ 57
  unfolding contents entry_fields to_le
  length-entry off = omega (arith, length-append {0}, w.key)

  entry-Contiguous : (off : ℕ) → Contiguous off (entry_fields off k e)
  unfolding entry_fields to_le
  entry-Contiguous off = omega (arith, w.key)

  -- The bytes behind the key.
  after_key : List ℕ
  after_key =
      to_le 8 e.start
      ++ (to_le 4 e.count
          ++ (to_le 4 e.payload
              ++ (to_le 4 e.logical
                  ++ (((if e.raw then 1 else 0) ∷ []) ++ (to_le 4 e.refs ++ [])))))

  -- Reading `i` bytes behind the key, in a buffer that holds the entry at `at`.
  module _ (front back : List ℕ) (off at : ℕ) (h : at ≡ length front) where
    buffer : List ℕ
    buffer = front ++ (contents (entry_fields off k e) ++ back)

    buffer-key : buffer ≡ front ++ (k ++ (after_key ++ back))
    unfolding buffer after_key contents entry_fields
    buffer-key = ap (λ t. front ++ t) (append_assoc k after_key back)

    slice-field : (a i n : ℕ) → a ≡ at + (32 + i) → slice buffer a n ≡ slice (after_key ++ back) i n
    slice-field a i n p =
        ap (λ t. slice t a n) buffer-key
        ∙ slice_behind front _ a n (32 + i) n (omega arith) refl
        ∙ slice_behind k _ (32 + i) n i n (omega (arith, w.key)) refl

    raw-field : get_or buffer (at + 52) 0 ≡ (if e.raw then 1 else 0)
    raw-field =
        ap (λ t. get_or t (at + 52) 0) buffer-key
        ∙ get_or_behind front _ (at + 52) 52 0 (omega arith)
        ∙ get_or_behind k _ 52 20 0 (omega (arith, w.key))
        ∙ (unfold after_key to_le in refl)

    key-field : slice buffer at 32 ≡ k
    key-field =
        ap (λ t. slice t at 32) buffer-key
        ∙ slice_behind front _ at 32 0 32 (omega arith) refl
        ∙ take-append k (after_key ++ back) 32 (sym w.key)

    read_entry-contents : read_entry buffer at ≡ (k, e)
    unfolding read_entry after_key to_le
    read_entry-contents =
        let start =
          ap from_le (slice-field (at + 32) 0 8 (omega arith)) ∙ from_le-to_le 8 e.start w.start in
        let count =
          ap from_le (slice-field (at + 40) 8 4 (omega arith)) ∙ from_le-to_le 4 e.count w.count in
        let payload =
          ap from_le (slice-field (at + 44) 12 4 (omega arith))
          ∙ from_le-to_le 4 e.payload w.payload in
        let logical =
          ap from_le (slice-field (at + 48) 16 4 (omega arith))
          ∙ from_le-to_le 4 e.logical w.logical in
        let refs =
          ap from_le (slice-field (at + 53) 21 4 (omega arith)) ∙ from_le-to_le 4 e.refs w.refs in
        let raw : (get_or buffer (at + 52) 0 == 1) ≡ e.raw = ground (arith, raw-field) in
        λ i. (
          key-field i,
          record {
            start = start i;
            count = count i;
            payload = payload i;
            logical = logical i;
            raw = raw i;
            refs = refs i;
          },
        )

length-table :
    (t : Table) (off : ℕ) → AllEncodable t → length (contents (table_fields off t)) ≡ length t * 57
unfolding table_fields
length-table [] off w = unfold contents in omega arith
length-table ((k, e) ∷ t) off w =
    ap length (contents-append (entry_fields off k e) (table_fields (off + 57) t))
    ∙ length-append (contents (entry_fields off k e)) _
    ∙ omega (arith, length-entry k e w.0 off, length-table t (off + 57) w.1)

table-Contiguous : (t : Table) (off : ℕ) → AllEncodable t → Contiguous off (table_fields off t)
unfolding table_fields
table-Contiguous [] off w = tt
table-Contiguous ((k, e) ∷ t) off w =
    Contiguous-append (entry_fields off k e) _ off (off + 57) (entry-Contiguous k e w.0 off)
      (omega (arith, length-entry k e w.0 off)) (table-Contiguous t (off + 57) w.1)

read_entries_step :
    (rounds at : ℕ) (source : List ℕ) (done : Table) (k : Key) (e : Entry)
    → at + 57 ≤ length source
    → read_entry source at ≡ (k, e)
    → Assoc.lookup k done ≡ none
    → read_entries (suc rounds) at source done
      ≡ read_entries rounds (at + 57) source (done ++ (k, e) ∷ [])
read_entries_step rounds at source done k e l r n =
    let enough : ltb (length source) (at + 57) ≡ false = ground arith in
    unfold read_entries in rw (enough, read_entries, r) (rw (insert_new k e done n))

-- Reading back the entries that stand behind `front`, with `done` already read.
read_entries-contents :
    (t done : Table) (front back : List ℕ) (off at : ℕ)
    → AllEncodable t
    → NoRepeat (done ++ t)
    → at ≡ length front
    → read_entries (length t) at (front ++ (contents (table_fields off t) ++ back)) done
      ≡ ok (done ++ t)
unfolding table_fields buffer
read_entries-contents [] done front back off at w u h =
    unfold read_entries in ap ok (sym (append-nil done))
read_entries-contents ((k, e) ∷ t) done front back off at w u h =
    let entry : List ℕ = contents (entry_fields off k e) in
    let rest : List ℕ = contents (table_fields (off + 57) t) in
    let long : length entry ≡ 57 = length-entry k e w.0 off in
    let split : front ++ (contents (entry_fields off k e ++ table_fields (off + 57) t) ++ back)
        ≡ front ++ (entry ++ (rest ++ back)) =
      ap (λ x. front ++ x)
        (ap (λ x. x ++ back) (contents-append (entry_fields off k e) _)
          ∙ append_assoc entry rest back) in
    let regroup : done ++ (k, e) ∷ t ≡ (done ++ (k, e) ∷ []) ++ t =
      sym (append_assoc done ((k, e) ∷ []) t) in
    ap (λ x. read_entries (suc (length t)) at x done) split
    ∙ read_entries_step (length t) at _ done k e
        (omega (
          arith,
          length-append front (entry ++ (rest ++ back)),
          length-append entry (rest ++ back),
        ))
        (read_entry-contents k e w.0 front (rest ++ back) off at h) (lookup_unique k e done t u)
    ∙ ap (λ x. read_entries (length t) (at + 57) x (done ++ (k, e) ∷ []))
        (sym (append_assoc front entry (rest ++ back)))
    ∙ read_entries-contents t (done ++ (k, e) ∷ []) (front ++ entry) back (off + 57) (at + 57) w.1
        (subst NoRepeat regroup u) (omega (arith, length-append front entry))
    ∙ ap ok (sym regroup)

module _ (t : Table) (w : AllEncodable t) where
  image_fields : List (ℕ × List ℕ)
  image_fields = (0, to_le 8 (length t)) ∷ table_fields 8 t

  image_fields-Contiguous : Contiguous 0 image_fields
  unfolding image_fields
  image_fields-Contiguous = (refl, rw (length-to_le 8 (length t)) (table-Contiguous t 8 w))

  length-image : length (contents image_fields) ≡ marshal_len t
  unfolding image_fields contents marshal_len
  length-image = omega (
    arith,
    length-append (to_le 8 (length t)) (contents (table_fields 8 t)),
    length-to_le 8 (length t),
    length-table t 8 w,
  )

  marshal-image : marshal t ≡ contents image_fields
  unfolding marshal marshal_into image_fields
  marshal-image =
      copy_fields_new (marshal_len t) image_fields image_fields-Contiguous (sym length-image)

  -- In any buffer that is long enough `marshal_into` leaves the snapshot and then the old bytes.
  pub marshal_into_lem :
      (dst : List ℕ)
      → marshal_len t ≤ length dst
      → ((marshal_into t dst).0 ≡ marshal t ++ drop (marshal_len t) dst)
        × ((marshal_into t dst).1 ≡ marshal_len t)
        × (length (marshal t) ≡ marshal_len t)
  unfolding marshal_into image_fields marshal_len
  marshal_into_lem dst h = (
    copy_fields-contents dst image_fields image_fields-Contiguous (omega (arith, length-image))
        ∙ ap (λ (n : ℕ). contents image_fields ++ drop n dst) length-image
        ∙ ap (λ x. x ++ drop (marshal_len t) dst) (sym marshal-image),
    refl,
    ap length marshal-image ∙ length-image,
  )

  -- A table without repeated keys, whose keys have 32 bytes and whose fields fit their words, is read
  -- back from its snapshot.
  pub unmarshal-marshal_table : NoRepeat t → length t < 2 ^ 64 → unmarshal (marshal t) ≡ ok t
  unfolding unmarshal contents image_fields new
  unmarshal-marshal_table u small =
      let body : List ℕ = contents (table_fields 8 t) in
      let head : from_le (slice (to_le 8 (length t) ++ body) 0 8) ≡ length t =
        ap from_le (take-append (to_le 8 (length t)) body 8 (sym (length-to_le 8 (length t))))
        ∙ from_le-to_le 8 (length t) small in
      let long : ltb (length (to_le 8 (length t) ++ body)) 8 ≡ false =
        ground (arith, length-append (to_le 8 (length t)) body, length-to_le 8 (length t)) in
      ap unmarshal marshal-image
      ∙ rw (long, head)
          (ap (λ x. read_entries (length t) 8 (to_le 8 (length t) ++ x) []) (sym (append-nil body))
            ∙ read_entries-contents t [] (to_le 8 (length t)) [] 8 8 w u
                (sym (length-to_le 8 (length t))))
