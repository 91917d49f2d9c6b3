-- ===== src/Alloc/Snapshot.antt =====
-- rust/bloomfs-alloc/src/lib.rs: the snapshot of a bitmap.
use bloomfs.Base.{
  ℕ, zero, suc, ◌+◌, ◌*◌, ◌≤◌, ◌≡◌, refl, ap, ap₂, sym, ◌∙◌, List, [], ◌∷◌, ◌++◌, if◌then◌else◌,
  Bool-cases, inl, inr, length, drop, slice, ok, arith, length-append, length-replicate,
  slice-append, append_assoc, append-nil, drop-append, take-append, to_le, from_le, length-to_le,
  from_le-to_le,
}
use bloomfs.Base.Fields.{Contiguous, contents, copy_fields-contents, copy_fields_new}
use bloomfs.Base.BitArray.{IsWords}
use bloomfs.Base.Count.{count_below}
use bloomfs.Alloc.{
  Bitmap, get, new, words_for, word_fields, marshal_into, marshal, marshal_len, read_words,
  count_used, unmarshal,
}
use bloomfs.Alloc.Invariant.{IsValid}

word_fields-Contiguous : (off : ℕ) (ws : List ℕ) → Contiguous off (word_fields off ws)
unfolding word_fields
word_fields-Contiguous off [] = tt
word_fields-Contiguous off (w ∷ ws) =
    (refl, rw (length-to_le 8 w) (word_fields-Contiguous (off + 8) ws))

length-contents : (off : ℕ) (ws : List ℕ) → length (contents (word_fields off ws)) ≡ length ws * 8
unfolding word_fields contents
length-contents off [] = omega arith
length-contents off (w ∷ ws) =
    let rest = contents (word_fields (off + 8) ws) in
    omega (arith, length-append (to_le 8 w) rest, length-to_le 8 w, length-contents (off + 8) ws)

-- The words are read back from the bytes that stand behind `front`.
read_words-contents :
    (ws : List ℕ) (front back : List ℕ) (off at : ℕ)
    → IsWords ws
    → at ≡ length front
    → read_words (length ws) at (front ++ (contents (word_fields off ws) ++ back)) ≡ ws
unfolding read_words word_fields contents
read_words-contents [] front back off at h e = refl
read_words-contents (w ∷ ws) front back off at h e =
    let word = to_le 8 w in
    let rest : List ℕ = contents (word_fields (off + 8) ws) in
    let whole : front ++ ((word ++ rest) ++ back) ≡ (front ++ word) ++ (rest ++ back) =
      ap (λ t. front ++ t) (append_assoc word rest back)
      ∙ sym (append_assoc front word (rest ++ back)) in
    ap₂ ◌∷◌
      (ap (λ t. from_le (slice (front ++ t) at 8)) (append_assoc word rest back)
        ∙ ap from_le (slice-append front word (rest ++ back) at 8 e (sym (length-to_le 8 w)))
        ∙ from_le-to_le 8 w h.0)
      (ap (read_words (length ws) (at + 8)) whole
        ∙ read_words-contents ws (front ++ word) back (off + 8) (at + 8) h.1
            (omega (arith, length-append front word, length-to_le 8 w)))

-- The bytes of a snapshot.
abbrev image : Bitmap → List ℕ
image b = to_le 8 b.total ++ contents (word_fields 8 b.bits)

module _ (b : Bitmap) where
  image_fields : List (ℕ × List ℕ)
  image_fields = (0, to_le 8 b.total) ∷ word_fields 8 b.bits

  contents-image_fields : contents image_fields ≡ image b
  unfolding contents image_fields
  contents-image_fields = refl

  image_fields-Contiguous : Contiguous 0 image_fields
  unfolding image_fields
  image_fields-Contiguous = (refl, rw (length-to_le 8 b.total) (word_fields-Contiguous 8 b.bits))

  length-image : length (image b) ≡ marshal_len b
  unfolding marshal_len
  length-image = omega (
    arith,
    length-append (to_le 8 b.total) (contents (word_fields 8 b.bits)),
    length-to_le 8 b.total,
    length-contents 8 b.bits,
  )

  marshal-image : marshal b ≡ image b
  unfolding marshal marshal_into image_fields contents
  marshal-image =
      copy_fields_new (marshal_len b) image_fields image_fields-Contiguous (sym length-image)

  -- In any buffer that is long enough `marshal_into` leaves the snapshot and then the old bytes.
  pub marshal_into_lem :
      (dst : List ℕ)
      → marshal_len b ≤ length dst
      → ((marshal_into b dst).0 ≡ marshal b ++ drop (marshal_len b) dst)
        × ((marshal_into b dst).1 ≡ marshal_len b)
        × (length (marshal b) ≡ marshal_len b)
  unfolding marshal_into image_fields marshal_len contents
  marshal_into_lem dst h = (
    copy_fields-contents dst image_fields image_fields-Contiguous (omega (arith, length-image))
        ∙ ap (λ (n : ℕ). image b ++ drop n dst) length-image
        ∙ ap (λ t. t ++ drop (marshal_len b) dst) (sym marshal-image),
    refl,
    ap length marshal-image ∙ length-image,
  )

count_one :
    (i : ℕ) (b : Bitmap)
    → (if get b i
        then record b { used = count_below i (get b) + 1 }
        else record b { used = count_below i (get b) })
      ≡ record b { used = count_below (i + 1) (get b) }
unfolding count_below
count_one i b =
    let next : i + 1 ≡ suc i = omega arith in
    elim (Bool-cases (get b i)) [
      | inl e ↦ rw (e, next, count_below, e)
      | inr e ↦ rw (e, next, count_below, e) (ap (λ (u : ℕ). record b { used = u }) (omega arith))
    ]

-- Counting from `i` on completes the count below `i`.
count_used_lem :
    (n i k : ℕ) (b : Bitmap)
    → k ≡ i + n
    → count_used n i (record b { used = count_below i (get b) })
      ≡ record b { used = count_below k (get b) }
unfolding count_used count_below get
count_used_lem zero i k b e =
    ap (λ (m : ℕ). record b { used = count_below m (get b) }) (omega arith)
count_used_lem (suc n) i k b e =
    ap (count_used n (i + 1)) (count_one i b) ∙ count_used_lem n (i + 1) k b (omega arith)

unmarshal_parts :
    (source : List ℕ) (total : ℕ) (ws : List ℕ)
    → 8 ≤ length source
    → from_le (slice source 0 8) ≡ total
    → words_for total * 8 ≤ length (drop 8 source)
    → read_words (words_for total) 0 (drop 8 source) ≡ ws
    → unmarshal source
      ≡ ok (count_used total 0 (record { bits = ws; total = total; used = 0; deferred = [] }))
unfolding unmarshal new
unmarshal_parts source total ws h e l r = rw (e, length-replicate) (ground (arith, r))

-- A valid bitmap is read back from its snapshot, less what was pending.
pub unmarshal-marshal :
    (b : Bitmap) → IsValid b → unmarshal (marshal b) ≡ ok (record b { deferred = [] })
unfolding marshal_len count_below get
unmarshal-marshal b v =
    let body : List ℕ = contents (word_fields 8 b.bits) in
    let behind : drop 8 (image b) ≡ body =
      drop-append (to_le 8 b.total) body 8 (sym (length-to_le 8 b.total)) in
    ap unmarshal (marshal-image b)
    ∙ unmarshal_parts (image b) b.total b.bits (omega (arith, length-image b))
        (ap from_le (take-append (to_le 8 b.total) body 8 (sym (length-to_le 8 b.total)))
          ∙ from_le-to_le 8 b.total v.small)
        (rw behind (omega (arith, length-contents 8 b.bits, v.fits)))
        (rw (behind, ← v.fits)
          (ap (read_words (length b.bits) 0) (sym (append-nil body))
            ∙ read_words-contents b.bits [] [] 8 0 v.words refl))
    ∙ ap ok (
        count_used_lem b.total 0 b.total (record b { deferred = [] }) (omega arith)
        ∙ ap (λ (u : ℕ). record b { used = u; deferred = [] }) (sym v.counted))
