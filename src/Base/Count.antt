-- ===== src/Base/Count.antt =====
-- How many numbers below a bound pass a test.
use Prim.Native.Nat.{ℕ, zero, suc, ◌+◌, ◌≤◌, ◌<◌}
use mathlib.Core.Path.{◌≡◌, refl}
use mathlib.Core.Bool.{Bool, true, false}
use native.Mathlib.Omega.{arith}
use bloomfs.Base.Tests.{◌==◌, if◌then◌else◌}

unfoldable pub count_below : ℕ → (ℕ → Bool) → ℕ
count_below zero p = 0
count_below (suc n) p = count_below n p + (if p n then 1 else 0)

pub count-agree :
    (n : ℕ) (p q : ℕ → Bool) → ((i : ℕ) → i < n → p i ≡ q i) → count_below n p ≡ count_below n q
unfolding count_below
count-agree zero p q h = refl
count-agree (suc n) p q h =
    ground (arith, count-agree n p q (λ i l. h i (omega arith)), h n (omega arith))

-- `q` is `p` with the answer at `i` turned from no to yes.
pub count-turn_on :
    (n i : ℕ) (p q : ℕ → Bool)
    → i < n
    → p i ≡ false
    → ((j : ℕ) → q j ≡ (if i == j then true else p j))
    → count_below n q ≡ count_below n p + 1
unfolding count_below
count-turn_on zero i p q h e f = absurd (omega arith)
count-turn_on (suc n) i p q h e f = ground (
  arith,
  f n,
  (λ (l : i < n). count-turn_on n i p q l e f),
  (λ (l : i ≡ n). count-agree n p q (λ j k. ground (arith, f j))),
)

pub count-turn_off :
    (n i : ℕ) (p q : ℕ → Bool)
    → i < n
    → p i ≡ true
    → ((j : ℕ) → q j ≡ (if i == j then false else p j))
    → count_below n q + 1 ≡ count_below n p
unfolding count_below
count-turn_off zero i p q h e f = absurd (omega arith)
count-turn_off (suc n) i p q h e f = ground (
  arith,
  f n,
  (λ (l : i < n). count-turn_off n i p q l e f),
  (λ (l : i ≡ n). count-agree n p q (λ j k. ground (arith, f j))),
)

pub count-le : (n : ℕ) (p : ℕ → Bool) → count_below n p ≤ n
unfolding count_below
count-le zero p = omega arith
count-le (suc n) p = ground (arith, count-le n p)
