-- ===== src/Store/Refs.antt =====
-- rust/bloomfs-store/src/lib.rs: the encoding of a reference.
use bloomfs.Base.{
  ℕ, ◌+◌, ◌≡◌, refl, ap, sym, ◌∙◌, List, [], ◌∷◌, ◌++◌, ◌==◌, if◌then◌else◌, length, slice, get_or,
  arith, to_le, from_le, from_le-to_le, length-append, take-append, append_assoc, get_or_behind,
}
use bloomfs.Base.Bytes.{IsU32, IsU64}
use bloomfs.Base.Lists.{slice_behind}
use bloomfs.Base.Fields.{Contiguous, contents, copy_fields_new}
use bloomfs.Store.{Ref, ref_fields, marshal_ref, unmarshal_ref}

pub record IsEncodable (r : Ref) : Type 0 where
  pub hash : length r.hash ≡ 32
  pub start : IsU64 r.start
  pub count : IsU32 r.count
  pub payload : IsU32 r.payload
  pub logical : IsU32 r.logical

-- The bytes behind the hash.
tail : Ref → List ℕ
tail r = contents (
    (32, to_le 8 r.start)
    ∷ (40, to_le 4 r.count)
    ∷ (44, to_le 4 r.payload)
    ∷ (48, to_le 4 r.logical)
    ∷ (52, (if r.raw then 1 else 0) ∷ [])
    ∷ [])

module _ (r : Ref) (w : IsEncodable r) where
  ref-Contiguous : Contiguous 0 (ref_fields r)
  unfolding ref_fields to_le
  ref-Contiguous = omega (arith, w.hash)

  length-tail : length (tail r) ≡ 21
  unfolding tail contents to_le
  length-tail = refl

  marshal-image : marshal_ref r ≡ r.hash ++ tail r
  unfolding marshal_ref ref_fields tail contents
  marshal-image = copy_fields_new 53 (ref_fields r) ref-Contiguous (
      unfold tail ref_fields contents in
      omega (arith, length-append r.hash (tail r), w.hash, length-tail))

  pub length-marshal_ref : length (marshal_ref r) ≡ 53
  length-marshal_ref =
      ap length marshal-image ∙ omega (arith, length-append r.hash (tail r), w.hash, length-tail)

  module _ (back : List ℕ) where
    image : List ℕ
    image = r.hash ++ (tail r ++ back)

    slice-field : (at i n : ℕ) → at ≡ 32 + i → slice image at n ≡ slice (tail r ++ back) i n
    unfolding image
    slice-field at i n h =
        slice_behind r.hash (tail r ++ back) at n i n (omega (arith, w.hash)) refl

    unmarshal-image : unmarshal_ref image ≡ r
    unfolding unmarshal_ref image tail contents to_le
    unmarshal-image =
        let start = ap from_le (slice-field 32 0 8 refl) ∙ from_le-to_le 8 r.start w.start in
        let count = ap from_le (slice-field 40 8 4 refl) ∙ from_le-to_le 4 r.count w.count in
        let payload = ap from_le (slice-field 44 12 4 refl) ∙ from_le-to_le 4 r.payload w.payload in
        let logical = ap from_le (slice-field 48 16 4 refl) ∙ from_le-to_le 4 r.logical w.logical in
        let hash = take-append r.hash (tail r ++ back) 32 (sym w.hash) in
        let flag : get_or image 52 0 ≡ (if r.raw then 1 else 0) =
          get_or_behind r.hash (tail r ++ back) 52 20 0 (omega (arith, w.hash)) in
        let raw : (get_or image 52 0 == 1) ≡ r.raw = ground (arith, flag) in
        λ i. record {
          hash = hash i;
          start = start i;
          count = count i;
          payload = payload i;
          logical = logical i;
          raw = raw i;
        }

    -- A reference whose hash has 32 bytes and whose fields fit their words is read back from its 53
    -- bytes, whatever stands behind them.
    pub unmarshal-marshal_ref : unmarshal_ref (marshal_ref r ++ back) ≡ r
    unfolding image
    unmarshal-marshal_ref =
        ap unmarshal_ref (ap (λ t. t ++ back) marshal-image ∙ append_assoc r.hash (tail r) back)
        ∙ unmarshal-image
