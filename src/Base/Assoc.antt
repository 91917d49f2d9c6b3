-- ===== src/Base/Assoc.antt =====
-- Rust's `HashMap` as an association list: the list's order stands for the order of iteration, which
-- the standard library leaves open.
use Prim.Native.Nat.{ℕ}
use mathlib.Core.Path.{◌≡◌, refl, subst}
use mathlib.Core.Logic.{◌↔◌, ◌≢◌, inl, inr}
use mathlib.Core.Bool.{Bool, true, false, ◌&&◌}
use mathlib.Core.Option.{Option, none, some}
use mathlib.Core.List.{List, [], ◌∷◌, ◌++◌}
use native.Mathlib.Omega.{arith}
use bloomfs.Base.Tests.{◌==◌, if◌then◌else◌, ==_iff, Bool-cases}

-- A test that decides equality.
pub record Keyed {ℓ} (K : Type ℓ) : Type ℓ where
  pub same : K → K → Bool
  pub same_iff : (a b : K) → (same a b ≡ true) ↔ (a ≡ b)

instance abbrev pub ℕ_keyed : Keyed ℕ
ℕ_keyed = record { same = ◌==◌; same_iff = ==_iff }

-- Byte strings are equal when their bytes are.
abbrev pub bytes_eq : List ℕ → List ℕ → Bool
bytes_eq [] [] = true
bytes_eq [] (y ∷ ys) = false
bytes_eq (x ∷ xs) [] = false
bytes_eq (x ∷ xs) (y ∷ ys) = x == y && bytes_eq xs ys

bytes_eq→eq : (xs ys : List ℕ) → bytes_eq xs ys ≡ true → xs ≡ ys
bytes_eq→eq [] [] h = refl
bytes_eq→eq [] (y ∷ ys) h = cc
bytes_eq→eq (x ∷ xs) [] h = cc
bytes_eq→eq (x ∷ xs) (y ∷ ys) h = ground (arith, bytes_eq→eq xs ys)

bytes_eq_refl : (xs : List ℕ) → bytes_eq xs xs ≡ true
bytes_eq_refl [] = refl
bytes_eq_refl (x ∷ xs) = ground (arith, bytes_eq_refl xs)

pub bytes_eq_iff : (xs ys : List ℕ) → (bytes_eq xs ys ≡ true) ↔ (xs ≡ ys)
bytes_eq_iff xs ys = (bytes_eq→eq xs ys, λ e. rw (← e) (bytes_eq_refl xs))

instance abbrev pub bytes_keyed : Keyed (List ℕ)
bytes_keyed = record { same = bytes_eq; same_iff = bytes_eq_iff }

module _ {ℓ κ} {K : Type ℓ} {V : Type κ} ⦃k : Keyed K⦄ where
  -- `get`
  unfoldable pub lookup : K → List (K × V) → Option V
  lookup a [] = none
  lookup a ((b, v) ∷ m) = if k.same b a then some v else lookup a m

  -- `insert`: a present key keeps its place.
  unfoldable pub insert : K → V → List (K × V) → List (K × V)
  insert a v [] = (a, v) ∷ []
  insert a v ((b, w) ∷ m) = if k.same b a then (a, v) ∷ m else (b, w) ∷ insert a v m

  -- `remove`
  unfoldable pub remove : K → List (K × V) → List (K × V)
  remove a [] = []
  remove a ((b, w) ∷ m) = let rest = remove a m in if k.same b a then rest else (b, w) ∷ rest

  -- No key stands twice.
  abbrev pub NoRepeat : List (K × V) → Type κ
  NoRepeat [] = Unit
  NoRepeat ((b, v) ∷ m) = (lookup b m ≡ none) × NoRepeat m

  pub lookup-insert :
      (a b : K) (v : V) (m : List (K × V))
      → lookup b (insert a v m) ≡ (if k.same a b then some v else lookup b m)
  unfolding lookup insert
  lookup-insert a b v [] = refl
  lookup-insert a b v ((c, w) ∷ m) =
      ground (arith, k.same_iff c a, k.same_iff c b, k.same_iff a b, lookup-insert a b v m)

  pub lookup-remove :
      (a b : K) (m : List (K × V))
      → lookup b (remove a m) ≡ (if k.same a b then none else lookup b m)
  unfolding lookup remove
  lookup-remove a b [] = ground arith
  lookup-remove a b ((c, w) ∷ m) =
      ground (arith, k.same_iff c a, k.same_iff c b, k.same_iff a b, lookup-remove a b m)

  pub insert-NoRepeat : (a : K) (v : V) (m : List (K × V)) → NoRepeat m → NoRepeat (insert a v m)
  unfolding insert lookup
  insert-NoRepeat a v [] h = (refl, tt)
  insert-NoRepeat a v ((b, w) ∷ m) h = elim (Bool-cases (k.same b a)) [
    | inl e ↦ rw e (ground (arith, k.same_iff b a, h.0), h.1)
    | inr e ↦ rw e (
      ground (arith, lookup-insert a b v m, k.same_iff a b, k.same_iff b a, h.0),
      insert-NoRepeat a v m h.1,
    )
  ]

  pub remove-NoRepeat : (a : K) (m : List (K × V)) → NoRepeat m → NoRepeat (remove a m)
  unfolding remove
  remove-NoRepeat a [] h = tt
  remove-NoRepeat a ((b, w) ∷ m) h = elim (Bool-cases (k.same b a)) [
    | inl e ↦ rw e (remove-NoRepeat a m h.1)
    | inr e ↦ rw e (
      ground (arith, lookup-remove a b m, k.same_iff a b, k.same_iff b a, h.0),
      remove-NoRepeat a m h.1,
    )
  ]

  -- A new key goes to the end.
  pub insert_new :
      (a : K) (v : V) (m : List (K × V)) → lookup a m ≡ none → insert a v m ≡ m ++ (a, v) ∷ []
  unfolding insert lookup
  insert_new a v [] h = refl
  insert_new a v ((b, w) ∷ m) h = ground (arith, insert_new a v m)

  lookup-middle : (a : K) (v : V) (m n : List (K × V)) → lookup a (m ++ (a, v) ∷ n) ≢ none
  unfolding lookup
  lookup-middle a v [] n h = ground (arith, k.same_iff a a)
  lookup-middle a v ((b, w) ∷ m) n h = ground (arith, lookup-middle a v m n)

  pub lookup_unique :
      (a : K) (v : V) (m n : List (K × V)) → NoRepeat (m ++ (a, v) ∷ n) → lookup a m ≡ none
  unfolding lookup
  lookup_unique a v [] n h = refl
  lookup_unique a v ((b, w) ∷ m) n h = elim (Bool-cases (k.same b a)) [
    | inl e ↦
        let here = subst (λ c. lookup c (m ++ (a, v) ∷ n) ≡ none) ((k.same_iff b a).0 e) h.0 in
        absurd (lookup-middle a v m n here)
    | inr e ↦ rw e (lookup_unique a v m n h.1)
  ]
