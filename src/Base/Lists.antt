-- ===== src/Base/Lists.antt =====
-- Lists measured and indexed by native numbers, under the library's names.
use Prim.Native.Nat.{ℕ, zero, suc, ◌+◌, ◌-◌, ◌≤◌, ◌<◌, min}
use mathlib.Core.Path.{◌≡◌, refl, sym, ap, ap₂, ◌∙◌}
use mathlib.Core.List.{List, [], ◌∷◌, ◌++◌}
use native.Mathlib.Omega.{arith}
use bloomfs.Base.Tests.{◌==◌, if◌then◌else◌}

module _ {ℓ} {A : Type ℓ} where
  abbrev pub length : List A → ℕ
  length [] = 0
  length (x ∷ xs) = suc (length xs)

  abbrev pub get_or : List A → ℕ → A → A
  get_or [] i d = d
  get_or (x ∷ xs) zero d = x
  get_or (x ∷ xs) (suc i) d = get_or xs i d

  -- A write out of bounds changes nothing.
  abbrev pub set : List A → ℕ → A → List A
  set [] i v = []
  set (x ∷ xs) zero v = v ∷ xs
  set (x ∷ xs) (suc i) v = x ∷ set xs i v

  abbrev pub take : ℕ → List A → List A
  take zero xs = []
  take (suc n) [] = []
  take (suc n) (x ∷ xs) = x ∷ take n xs

  abbrev pub drop : ℕ → List A → List A
  drop zero xs = xs
  drop (suc n) [] = []
  drop (suc n) (x ∷ xs) = drop n xs

  abbrev pub replicate : ℕ → A → List A
  replicate zero a = []
  replicate (suc n) a = a ∷ replicate n a

  abbrev pub concat : List (List A) → List A
  concat [] = []
  concat (x ∷ xs) = x ++ concat xs

  abbrev pub All {κ} : (A → Type κ) → List A → Type κ
  All P [] = Unit {κ}
  All P (x ∷ xs) = P x × All P xs

suc_rest : (n : ℕ) → suc (n - 0) ≡ suc n - 0
suc_rest n = omega arith

-- Rust's `&b[off..off + n]`.
abbrev pub slice {ℓ} : {A : Type ℓ} → List A → ℕ → ℕ → List A
slice b off n = take n (drop off b)

module _ {ℓ} {A : Type ℓ} where
  pub length-append : (xs ys : List A) → length (xs ++ ys) ≡ length xs + length ys
  length-append [] ys = omega arith
  length-append (x ∷ xs) ys = omega (arith, length-append xs ys)

  pub length-take : (n : ℕ) (xs : List A) → length (take n xs) ≡ min n (length xs)
  length-take zero xs = omega arith
  length-take (suc n) [] = omega arith
  length-take (suc n) (x ∷ xs) = omega (arith, length-take n xs)

  pub length-drop : (n : ℕ) (xs : List A) → length (drop n xs) ≡ length xs - n
  length-drop zero xs = omega arith
  length-drop (suc n) [] = omega arith
  length-drop (suc n) (x ∷ xs) = omega (arith, length-drop n xs)

  pub length-replicate : (n : ℕ) (a : A) → length (replicate n a) ≡ n
  length-replicate zero a = refl
  length-replicate (suc n) a = ap suc (length-replicate n a)

  pub replicate-append :
      (n m k : ℕ) (a : A) → k ≡ n + m → replicate k a ≡ replicate n a ++ replicate m a
  replicate-append zero m k a h = ap (λ (t : ℕ). replicate t a) (omega arith)
  replicate-append (suc n) m zero a h = absurd (omega arith)
  replicate-append (suc n) m (suc k) a h = ap (λ t. a ∷ t) (replicate-append n m k a (omega arith))

  pub length-set : (xs : List A) (i : ℕ) (v : A) → length (set xs i v) ≡ length xs
  length-set [] i v = refl
  length-set (x ∷ xs) zero v = refl
  length-set (x ∷ xs) (suc i) v = ap suc (length-set xs i v)

  pub get_or-set :
      (xs : List A) (i j : ℕ) (v d : A)
      → i < length xs
      → get_or (set xs i v) j d ≡ (if i == j then v else get_or xs j d)
  get_or-set [] i j v d h = absurd (omega arith)
  get_or-set (x ∷ xs) zero zero v d h = refl
  get_or-set (x ∷ xs) zero (suc j) v d h = ground arith
  get_or-set (x ∷ xs) (suc i) zero v d h = ground arith
  get_or-set (x ∷ xs) (suc i) (suc j) v d h = ground (arith, get_or-set xs i j v d)

  pub take-append : (xs ys : List A) (n : ℕ) → n ≡ length xs → take n (xs ++ ys) ≡ xs
  take-append [] ys zero h = refl
  take-append [] ys (suc n) h = absurd (omega arith)
  take-append (x ∷ xs) ys zero h = absurd (omega arith)
  take-append (x ∷ xs) ys (suc n) h = ap (λ t. x ∷ t) (take-append xs ys n (omega arith))

  pub drop-append : (xs ys : List A) (n : ℕ) → n ≡ length xs → drop n (xs ++ ys) ≡ ys
  drop-append [] ys zero h = refl
  drop-append [] ys (suc n) h = absurd (omega arith)
  drop-append (x ∷ xs) ys zero h = absurd (omega arith)
  drop-append (x ∷ xs) ys (suc n) h = drop-append xs ys n (omega arith)

  pub drop_all : (n : ℕ) (xs : List A) → length xs ≤ n → drop n xs ≡ []
  drop_all zero [] h = refl
  drop_all zero (x ∷ xs) h = absurd (omega arith)
  drop_all (suc n) [] h = refl
  drop_all (suc n) (x ∷ xs) h = drop_all n xs (omega arith)

  pub append-take-drop : (n : ℕ) (xs : List A) → take n xs ++ drop n xs ≡ xs
  append-take-drop zero xs = refl
  append-take-drop (suc n) [] = refl
  append-take-drop (suc n) (x ∷ xs) = ap (λ t. x ∷ t) (append-take-drop n xs)

  pub drop_behind :
      (xs ys : List A) (off i : ℕ) → off ≡ length xs + i → drop off (xs ++ ys) ≡ drop i ys
  drop_behind [] ys off i h = ap (λ (k : ℕ). drop k ys) (omega arith)
  drop_behind (x ∷ xs) ys zero i h = absurd (omega arith)
  drop_behind (x ∷ xs) ys (suc off) i h = drop_behind xs ys off i (omega arith)

  -- What stands between `xs` and `zs` is read back by its offset and length.
  pub slice-append :
      (xs ys zs : List A) (off n : ℕ)
      → off ≡ length xs
      → n ≡ length ys
      → slice (xs ++ (ys ++ zs)) off n ≡ ys
  slice-append xs ys zs off n h k =
      ap (take n) (drop-append xs (ys ++ zs) off h) ∙ take-append ys zs n k

  -- Reading behind `xs`.
  pub slice_behind :
      (xs ys : List A) (off n i m : ℕ)
      → off ≡ length xs + i
      → m ≡ n
      → slice (xs ++ ys) off n ≡ slice ys i m
  slice_behind xs ys off n i m h e =
      ap (λ (k : ℕ). slice (xs ++ ys) off k) (sym e) ∙ ap (take m) (drop_behind xs ys off i h)

  pub get_or_behind :
      (xs ys : List A) (off i : ℕ) (d : A)
      → off ≡ length xs + i
      → get_or (xs ++ ys) off d ≡ get_or ys i d
  get_or_behind [] ys off i d h = ap (λ (k : ℕ). get_or ys k d) (omega arith)
  get_or_behind (x ∷ xs) ys zero i d h = absurd (omega arith)
  get_or_behind (x ∷ xs) ys (suc off) i d h = get_or_behind xs ys off i d (omega arith)

  pub All-append {κ} : (P : A → Type κ) (xs ys : List A) → All P xs → All P ys → All P (xs ++ ys)
  All-append P [] ys p q = q
  All-append P (x ∷ xs) ys p q = (p.0, All-append P xs ys p.1 q)

  -- What holds of every element holds of a front part.
  pub All-take {κ} :
      (P : A → Type κ) (xs : List A) (n : ℕ) (d : A)
      → ((j : ℕ) → P (get_or xs j d))
      → All P (take n xs)
  All-take P xs zero d h = tt
  All-take P [] (suc n) d h = tt
  All-take P (x ∷ xs) (suc n) d h = (h 0, All-take P xs n d (λ j. h (suc j)))

  -- What is the default from `n` on is a row of defaults.
  pub drop-replicate :
      (xs : List A) (n : ℕ) (d : A)
      → ((j : ℕ) → n ≤ j → get_or xs j d ≡ d)
      → drop n xs ≡ replicate (length xs - n) d
  drop-replicate [] zero d h = refl
  drop-replicate [] (suc n) d h =
      let none_left : 0 ≡ length {A = A} [] - suc n = omega arith in
      ap (λ (k : ℕ). replicate k d) none_left
  drop-replicate (x ∷ xs) zero d h =
      ap₂ ◌∷◌ (h 0 (omega arith)) (drop-replicate xs zero d (λ j l. h (suc j) (omega arith)))
      ∙ ap (λ (k : ℕ). replicate k d) (suc_rest (length xs))
  drop-replicate (x ∷ xs) (suc n) d h =
      drop-replicate xs n d (λ j l. h (suc j) (omega arith))
      ∙ ap (λ (k : ℕ). replicate k d) (omega arith)
