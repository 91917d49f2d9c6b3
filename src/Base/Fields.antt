-- ===== src/Base/Fields.antt =====
-- Fixed layouts: `copy_from_slice` of fields at offsets into a buffer.
use bloomfs.Base.Lists.{
  length, take, drop, slice, length-append, length-take, length-drop, drop_all, slice-append,
  slice_behind, append-take-drop, replicate, length-replicate,
}
use Prim.Native.Nat.{ℕ, zero, suc, ◌+◌, ◌-◌, ◌≤◌}
use mathlib.Core.Path.{◌≡◌, refl, sym, ap, subst, ◌∙◌}
use mathlib.Core.List.{List, [], ◌∷◌, ◌++◌, append_assoc, append-nil}
use native.Mathlib.Omega.{arith}

-- `dst[off..off + src.len()].copy_from_slice(src)`.
unfoldable pub copy_at : List ℕ → ℕ → List ℕ → List ℕ
copy_at dst off src = take off dst ++ (src ++ drop (off + length src) dst)

-- The same for a row of fields, each with its offset, in order.
unfoldable pub copy_fields : List ℕ → List (ℕ × List ℕ) → List ℕ
copy_fields dst [] = dst
copy_fields dst ((off, src) ∷ rest) = copy_fields (copy_at dst off src) rest

-- The fields stand in ascending order from `off` on and end by `end`.
abbrev pub Ascending : ℕ → ℕ → List (ℕ × List ℕ) → Type 0
Ascending off end [] = off ≤ end
Ascending off end ((a, src) ∷ rest) = (off ≤ a) × Ascending (a + length src) end rest

-- What the buffer holds from `off` on, when `old` stood there before.
abbrev pub laid_out : ℕ → List (ℕ × List ℕ) → List ℕ → List ℕ
laid_out off [] old = old
laid_out off ((a, src) ∷ rest) old =
    take (a - off) old ++ (src ++ laid_out (a + length src) rest (drop (a - off + length src) old))

Ascending-le : (off end : ℕ) (fs : List (ℕ × List ℕ)) → Ascending off end fs → off ≤ end
Ascending-le off end [] h = h
Ascending-le off end ((a, src) ∷ rest) h = omega (arith, Ascending-le (a + length src) end rest h.1)

drop_nothing {ℓ} : {A : Type ℓ} (k : ℕ) → ◌≡◌ {A = List A} [] (drop k [])
drop_nothing zero = refl
drop_nothing (suc k) = refl

pub drop-drop {ℓ} :
    {A : Type ℓ} (n m k : ℕ) (xs : List A) → k ≡ m + n → drop n (drop m xs) ≡ drop k xs
drop-drop n zero k xs h = ap (λ (t : ℕ). drop t xs) (omega arith)
drop-drop zero (suc m) k [] h = drop_nothing k
drop-drop (suc n) (suc m) k [] h = drop_nothing k
drop-drop n (suc m) zero (x ∷ xs) h = absurd (omega arith)
drop-drop n (suc m) (suc k) (x ∷ xs) h = drop-drop n m k xs (omega arith)

pub take_behind :
    (pre old : List ℕ) (a : ℕ)
    → length pre ≤ a
    → take a (pre ++ old) ≡ pre ++ take (a - length pre) old
take_behind [] old a h = ap (λ (n : ℕ). take n old) (omega arith)
take_behind (x ∷ pre) old zero h = absurd (omega arith)
take_behind (x ∷ pre) old (suc a) h =
    ap (λ t. x ∷ t)
      (take_behind pre old a (omega arith) ∙ ap (λ (n : ℕ). pre ++ take n old) (omega arith))

drop_behind :
    (pre old : List ℕ) (a : ℕ) → length pre ≤ a → drop a (pre ++ old) ≡ drop (a - length pre) old
drop_behind [] old a h = ap (λ (n : ℕ). drop n old) (omega arith)
drop_behind (x ∷ pre) old zero h = absurd (omega arith)
drop_behind (x ∷ pre) old (suc a) h =
    drop_behind pre old a (omega arith) ∙ ap (λ (n : ℕ). drop n old) (omega arith)

copy_at_behind :
    (pre old : List ℕ) (a : ℕ) (src : List ℕ)
    → length pre ≤ a
    → copy_at (pre ++ old) a src
      ≡ (pre ++ (take (a - length pre) old ++ src)) ++ drop (a - length pre + length src) old
unfolding copy_at
copy_at_behind pre old a src h =
    let back = drop (a - length pre + length src) old in
    ap (λ t. t ++ (src ++ drop (a + length src) (pre ++ old))) (take_behind pre old a h)
    ∙ ap (λ t. (pre ++ take (a - length pre) old) ++ (src ++ t))
        (drop_behind pre old (a + length src) (omega arith)
          ∙ ap (λ (n : ℕ). drop n old) (omega arith))
    ∙ sym (append_assoc (pre ++ take (a - length pre) old) src back)
    ∙ ap (λ t. t ++ back) (append_assoc pre (take (a - length pre) old) src)

copy_fields_behind :
    (fs : List (ℕ × List ℕ)) (pre old : List ℕ)
    → Ascending (length pre) (length pre + length old) fs
    → copy_fields (pre ++ old) fs ≡ pre ++ laid_out (length pre) fs old
unfolding copy_fields copy_at
copy_fields_behind [] pre old h = refl
copy_fields_behind ((a, src) ∷ rest) pre old h =
    let gap : List ℕ = take (a - length pre) old in
    let front : List ℕ = pre ++ (gap ++ src) in
    let back : List ℕ = drop (a - length pre + length src) old in
    let fits : a + length src ≤ length pre + length old = Ascending-le _ _ rest h.1 in
    let e : length front ≡ a + length src = omega (
      arith,
      length-append pre (gap ++ src),
      length-append gap src,
      length-take (a - length pre) old,
    ) in
    let end : length pre + length old ≡ length front + length back =
      omega (arith, length-drop (a - length pre + length src) old) in
    ap (λ t. copy_fields t rest) (copy_at_behind pre old a src h.0)
    ∙ copy_fields_behind rest front back (
        subst (λ (n : ℕ). Ascending n (length front + length back) rest) (sym e)
          (subst (λ (n : ℕ). Ascending (a + length src) n rest) end h.1))
    ∙ append_assoc pre (gap ++ src) (laid_out (length front) rest back)
    ∙ ap (λ t. pre ++ t) (append_assoc gap src (laid_out (length front) rest back))
    ∙ ap (λ (n : ℕ). pre ++ (gap ++ (src ++ laid_out n rest back))) e

-- The whole buffer after the fields were copied.
pub copy_fields-laid_out :
    (dst : List ℕ) (fs : List (ℕ × List ℕ))
    → Ascending 0 (length dst) fs
    → copy_fields dst fs ≡ laid_out 0 fs dst
copy_fields-laid_out dst fs h =
    copy_fields_behind fs [] dst (subst (λ (n : ℕ). Ascending 0 n fs) (omega arith) h)

-- The fields follow one another without a gap.
abbrev pub Contiguous : ℕ → List (ℕ × List ℕ) → Type 0
Contiguous off [] = Unit {0}
Contiguous off ((a, src) ∷ rest) = (a ≡ off) × Contiguous (a + length src) rest

unfoldable pub contents : List (ℕ × List ℕ) → List ℕ
contents [] = []
contents ((a, src) ∷ rest) = src ++ contents rest

Contiguous-Ascending :
    (fs : List (ℕ × List ℕ)) (off end : ℕ)
    → Contiguous off fs
    → off + length (contents fs) ≤ end
    → Ascending off end fs
unfolding contents
Contiguous-Ascending [] off end h l = omega arith
Contiguous-Ascending ((a, src) ∷ rest) off end h l =
    let e : length (src ++ contents rest) ≡ length src + length (contents rest) =
      length-append src _ in
    (omega arith, Contiguous-Ascending rest (a + length src) end h.1 (omega arith))

laid_out-contents :
    (fs : List (ℕ × List ℕ)) (off : ℕ) (old : List ℕ)
    → Contiguous off fs
    → laid_out off fs old ≡ contents fs ++ drop (length (contents fs)) old
unfolding contents
laid_out-contents [] off old h = refl
laid_out-contents ((a, src) ∷ rest) off old h =
    let e : a - off ≡ 0 = omega arith in
    rw e (
      ap (λ t. src ++ t)
        (laid_out-contents rest (a + length src) _ h.1
          ∙ ap (λ t. contents rest ++ t)
              (drop-drop (length (contents rest)) (0 + length src) (length (src ++ contents rest))
                old (omega (arith, length-append src (contents rest)))))
      ∙ sym (append_assoc src (contents rest) _))

-- Fields without gaps from the start of a buffer replace its front and leave its rest.
pub copy_fields-contents :
    (dst : List ℕ) (fs : List (ℕ × List ℕ))
    → Contiguous 0 fs
    → length (contents fs) ≤ length dst
    → copy_fields dst fs ≡ contents fs ++ drop (length (contents fs)) dst
copy_fields-contents dst fs h l =
    copy_fields-laid_out dst fs (Contiguous-Ascending fs 0 (length dst) h (omega arith))
    ∙ laid_out-contents fs 0 dst h

-- A new buffer of the fields' own length holds the fields.
pub copy_fields_new :
    (n : ℕ) (fs : List (ℕ × List ℕ))
    → Contiguous 0 fs
    → n ≡ length (contents fs)
    → copy_fields (replicate n 0) fs ≡ contents fs
copy_fields_new n fs h e =
    let l : length {A = ℕ} (replicate n 0) ≡ n = length-replicate n 0 in
    copy_fields-contents (replicate n 0) fs h (omega arith)
    ∙ ap (λ t. contents fs ++ t) (drop_all _ (replicate n 0) (omega arith))
    ∙ append-nil (contents fs)

pub contents-append : (xs ys : List (ℕ × List ℕ)) → contents (xs ++ ys) ≡ contents xs ++ contents ys
unfolding contents
contents-append [] ys = refl
contents-append ((a, src) ∷ xs) ys =
    ap (λ t. src ++ t) (contents-append xs ys) ∙ sym (append_assoc src (contents xs) (contents ys))

pub Contiguous-append :
    (xs ys : List (ℕ × List ℕ)) (off end : ℕ)
    → Contiguous off xs
    → end ≡ off + length (contents xs)
    → Contiguous end ys
    → Contiguous off (xs ++ ys)
unfolding contents
Contiguous-append [] ys off end h e k = subst (λ (n : ℕ). Contiguous n ys) (omega arith) k
Contiguous-append ((a, src) ∷ xs) ys off end h e k = (
  h.0,
  Contiguous-append xs ys (a + length src) end h.1 (omega (arith, length-append src (contents xs)))
      k,
)

slice_front :
    (pre x y : List ℕ) (o n : ℕ) → o + n ≤ length pre → slice (pre ++ x) o n ≡ slice (pre ++ y) o n
slice_front pre x y o zero h = refl
slice_front [] x y o (suc n) h = absurd (omega arith)
slice_front (a ∷ pre) x y zero (suc n) h = ap (λ t. a ∷ t) (slice_front pre x y 0 n (omega arith))
slice_front (a ∷ pre) x y (suc o) (suc n) h = slice_front pre x y o (suc n) (omega arith)

-- Reading the place of a copy, before it, and behind it.
module _ (dst : List ℕ) (off : ℕ) (src : List ℕ) (fits : off + length src ≤ length dst) where
  front_length : length (take off dst) ≡ off
  front_length = omega (arith, length-take off dst, fits)

  pub slice-copy_at_self : slice (copy_at dst off src) off (length src) ≡ src
  unfolding copy_at
  slice-copy_at_self =
      slice-append (take off dst) src (drop (off + length src) dst) off (length src)
        (sym front_length) refl

  pub slice-copy_at_before :
      (o n : ℕ) → o + n ≤ off → slice (copy_at dst off src) o n ≡ slice dst o n
  unfolding copy_at
  slice-copy_at_before o n h =
      slice_front (take off dst) _ (drop off dst) o n (omega (arith, front_length))
      ∙ ap (λ t. slice t o n) (append-take-drop off dst)

  pub slice-copy_at_behind :
      (o n : ℕ) → off + length src ≤ o → slice (copy_at dst off src) o n ≡ slice dst o n
  unfolding copy_at
  slice-copy_at_behind o n h =
      let end : ℕ = off + length src in
      let rest : List ℕ = drop end dst in
      ap (λ t. slice t o n) (sym (append_assoc (take off dst) src rest))
      ∙ slice_behind (take off dst ++ src) rest o n (o - end) n
          (omega (arith, length-append (take off dst) src, front_length)) refl
      ∙ sym (
          slice_behind (take end dst) rest o n (o - end) n
            (omega (arith, length-take end dst, fits)) refl)
      ∙ ap (λ t. slice t o n) (append-take-drop end dst)

  pub length-copy_at : length (copy_at dst off src) ≡ length dst
  unfolding copy_at
  length-copy_at = omega (
    arith,
    length-append (take off dst) (src ++ drop (off + length src) dst),
    length-append src (drop (off + length src) dst),
    front_length,
    length-drop (off + length src) dst,
    fits,
  )
