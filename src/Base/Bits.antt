-- ===== src/Base/Bits.antt =====
-- Single bits of a machine word: what `|= 1 << k`, `&= !(1 << k)` and `& (1 << k) != 0` do.
use Prim.Native.Nat.{
  ℕ, zero, suc, ◌+◌, ◌-◌, ◌*◌, ◌/◌, ◌%◌, ◌^◌, ◌≤◌, ◌<◌, min, max, bit_and, bit_or, digits,
  bit_and-bitwise, bit_or-bitwise,
}
use mathlib.Core.Path.{◌≡◌, refl, sym, ap, ◌∙◌}
use mathlib.Core.Bool.{Bool, true, false, not}
use native.Mathlib.Omega.{arith}
use native.Mathlib.Nat.{pow-succ'}
use bloomfs.Base.Tests.{◌==◌, if◌then◌else◌}

-- `and` and `or` walk over the binary digits of the first word, on a count of digits to go.
module _ (rest_of : ℕ → ℕ) (join : ℕ → ℕ → ℕ) where
  walk : ℕ → ℕ → ℕ → ℕ
  walk count v w = digits rest_of join count v w

  -- A count that reaches the word may be one larger, and so any larger.
  walk_one_more : (count v w : ℕ) → v ≤ count → walk (suc count) v w ≡ walk count v w
  unfolding walk
  walk_one_more zero zero w l = refl
  walk_one_more zero (suc v) w l = elim l [ ]
  walk_one_more (suc count) zero w l = refl
  walk_one_more (suc count) (suc v) w l =
      let inner = walk_one_more count (suc v / 2) (w / 2) (omega arith) in
      ap (λ (t : ℕ). t * 2 + join (suc v % 2) (w % 2)) inner

  walk_longer :
      (extra count total v w : ℕ)
      → total ≡ extra + count
      → v ≤ count
      → walk total v w ≡ walk count v w
  walk_longer zero count total v w e l = ap (λ (n : ℕ). walk n v w) (omega arith)
  walk_longer (suc extra) count zero v w e l = absurd (omega arith)
  walk_longer (suc extra) count (suc total) v w e l =
      walk_one_more total v w (omega arith) ∙ walk_longer extra count total v w (omega arith) l

  walk_halves :
      ((w : ℕ) → rest_of w ≡ rest_of (w / 2) * 2 + join 0 (w % 2))
      → (v w : ℕ) → walk v v w ≡ walk (v / 2) (v / 2) (w / 2) * 2 + join (v % 2) (w % 2)
  walk_halves at_zero zero w = unfold walk in at_zero w
  walk_halves at_zero (suc v) w =
      let shorter =
        walk_longer (v - suc v / 2) (suc v / 2) v (suc v / 2) (w / 2) (omega arith) (omega arith) in
      unfold walk in ap (λ (t : ℕ). t * 2 + join (suc v % 2) (w % 2)) shorter

pub and_step : (a b : ℕ) → bit_and a b ≡ bit_and (a / 2) (b / 2) * 2 + min (a % 2) (b % 2)
unfolding walk
and_step a b =
    bit_and-bitwise a b
    ∙ walk_halves (λ b. zero) min (λ b. omega arith) a b
    ∙ ap (λ (t : ℕ). t * 2 + min (a % 2) (b % 2)) (sym (bit_and-bitwise (a / 2) (b / 2)))

or_step : (a b : ℕ) → bit_or a b ≡ bit_or (a / 2) (b / 2) * 2 + max (a % 2) (b % 2)
unfolding walk
or_step a b =
    bit_or-bitwise a b
    ∙ walk_halves (λ b. b) max (λ b. omega arith) a b
    ∙ ap (λ (t : ℕ). t * 2 + max (a % 2) (b % 2)) (sym (bit_or-bitwise (a / 2) (b / 2)))

-- A second word given by its half and its lowest digit.
or_double : (w m : ℕ) → bit_or w (2 * m) ≡ bit_or (w / 2) m * 2 + w % 2
or_double w m = let half : 2 * m / 2 ≡ m = omega arith in or_step w (2 * m) ∙ rw half (omega arith)

pub and_double : (w m : ℕ) → bit_and w (2 * m) ≡ bit_and (w / 2) m * 2
and_double w m =
    let half : 2 * m / 2 ≡ m = omega arith in and_step w (2 * m) ∙ rw half (omega arith)

pub and_double_one : (w m : ℕ) → bit_and w (2 * m + 1) ≡ bit_and (w / 2) m * 2 + w % 2
and_double_one w m =
    let half : (2 * m + 1) / 2 ≡ m = omega arith in and_step w (2 * m + 1) ∙ rw half (omega arith)

pub and-zero : (n a : ℕ) → a ≤ n → bit_and a 0 ≡ 0
and-zero zero zero h = refl
and-zero zero (suc a) h = absurd (omega arith)
and-zero (suc n) a h = omega (arith, and_step a 0, and-zero n (a / 2) (omega arith))

or-zero : (n a : ℕ) → a ≤ n → bit_or a 0 ≡ a
or-zero zero zero h = refl
or-zero zero (suc a) h = absurd (omega arith)
or-zero (suc n) a h = omega (arith, or_step a 0, or-zero n (a / 2) (omega arith))

-- The bit of weight `2 ^ k`.
unfoldable pub bit : ℕ → ℕ → Bool
bit w zero = w % 2 == 1
bit w (suc k) = bit (w / 2) k

pub pow2_pos : (k : ℕ) → 0 < 2 ^ k
pow2_pos zero = omega arith
pow2_pos (suc k) = omega (arith, pow-succ' 2 k, pow2_pos k)

pow2_lt : (k n : ℕ) → k < n → 2 ^ k + 1 ≤ 2 ^ n
pow2_lt k zero h = absurd (omega arith)
pow2_lt zero (suc n) h = omega (arith, pow-succ' 2 n, pow2_pos n)
pow2_lt (suc k) (suc n) h = omega (arith, pow-succ' 2 n, pow-succ' 2 k, pow2_lt k n (omega arith))

ones_double : (n : ℕ) → 2 ^ suc n - 1 ≡ 2 * (2 ^ n - 1) + 1
ones_double n = omega (arith, pow-succ' 2 n, pow2_pos n)

-- `w & (2 ^ n - 1)`.
and_ones : (n w : ℕ) → w < 2 ^ n → bit_and w (2 ^ n - 1) ≡ w
and_ones zero w h = omega (arith, and-zero w w (omega arith), h)
and_ones (suc n) w h =
    ap (bit_and w) (ones_double n)
    ∙ omega (arith, and_double_one w (2 ^ n - 1), and_ones n (w / 2) (omega (arith, pow-succ' 2 n)))

nothing_and : (b : ℕ) → bit_and 0 b ≡ 0
nothing_and b = bit_and-bitwise 0 b

pub and-le : (n a b : ℕ) → a ≤ n → bit_and a b ≤ a
and-le zero zero b h = omega (arith, nothing_and b)
and-le zero (suc a) b h = absurd (omega arith)
and-le (suc n) a b h = omega (arith, and_step a b, and-le n (a / 2) (b / 2) (omega arith))

and-pow2 : (w k : ℕ) → bit_and w (2 ^ k) ≡ (if bit w k then 2 ^ k else 0)
unfolding bit
and-pow2 w zero = ground (arith, and_step w 1, and-zero (w / 2) (w / 2) (omega arith))
and-pow2 w (suc k) =
    ap (bit_and w) (pow-succ' 2 k)
    ∙ ground (arith, and_double w (2 ^ k), and-pow2 (w / 2) k, pow-succ' 2 k)

-- The source's test.
pub test-bit : (w k : ℕ) → not (bit_and w (2 ^ k) == 0) ≡ bit w k
test-bit w k = ground (arith, and-pow2 w k, pow2_pos k)

-- The bits of a word given by its half and its lowest digit.
bit_of_halves : (v h d j : ℕ) → v ≡ h * 2 + d → d < 2 → bit v (suc j) ≡ bit h j
unfolding bit
bit_of_halves v h d j e p = ap (λ (t : ℕ). bit t j) (omega arith)

pub bit-or : (w k j : ℕ) → bit (bit_or w (2 ^ k)) j ≡ (if k == j then true else bit w j)
bit-or w zero zero =
    unfold bit in ground (arith, or_step w 1, or-zero (w / 2) (w / 2) (omega arith))
bit-or w zero (suc j) =
    bit_of_halves (bit_or w 1) (w / 2) 1 j
      (omega (arith, or_step w 1, or-zero (w / 2) (w / 2) (omega arith))) (omega arith)
    ∙ unfold bit in ground arith
bit-or w (suc k) zero =
    ap (λ (m : ℕ). bit (bit_or w m) 0) (pow-succ' 2 k)
    ∙ unfold bit in ground (arith, or_double w (2 ^ k))
bit-or w (suc k) (suc j) =
    ap (λ (m : ℕ). bit (bit_or w m) (suc j)) (pow-succ' 2 k)
    ∙ bit_of_halves (bit_or w (2 * 2 ^ k)) (bit_or (w / 2) (2 ^ k)) (w % 2) j (or_double w (2 ^ k))
        (omega arith)
    ∙ bit-or (w / 2) k j
    ∙ unfold bit in ground arith

pub or-lt : (n w k : ℕ) → w < 2 ^ n → k < n → bit_or w (2 ^ k) < 2 ^ n
or-lt zero w k h q = absurd (omega arith)
or-lt (suc n) w zero h q =
    omega (arith, or_step w 1, or-zero (w / 2) (w / 2) (omega arith), pow-succ' 2 n)
or-lt (suc n) w (suc k) h q = rw (pow-succ' 2 k) (
    omega (
      arith,
      or_double w (2 ^ k),
      pow-succ' 2 n,
      or-lt n (w / 2) k (omega (arith, pow-succ' 2 n)) (omega arith),
    ))

-- The word with bit `k` taken out, `!(1 << k)` in a word of `n` bits.
abbrev pub all_but : ℕ → ℕ → ℕ
all_but n k = 2 ^ n - 1 - 2 ^ k

all_but-zero : (n : ℕ) → all_but (suc n) 0 ≡ 2 * (2 ^ n - 1)
all_but-zero n = omega (arith, pow-succ' 2 n, pow2_pos n)

all_but-suc : (n k : ℕ) → k < n → all_but (suc n) (suc k) ≡ 2 * all_but n k + 1
all_but-suc n k h = omega (arith, pow-succ' 2 n, pow-succ' 2 k, pow2_lt k n h)

pub bit-clear :
    (n w k j : ℕ)
    → w < 2 ^ n
    → k < n
    → bit (bit_and w (all_but n k)) j ≡ (if k == j then false else bit w j)
bit-clear zero w k j h q = absurd (omega arith)
bit-clear (suc n) w zero zero h q =
    ap (λ (m : ℕ). bit (bit_and w m) 0) (all_but-zero n)
    ∙ unfold bit in ground (arith, and_double w (2 ^ n - 1))
bit-clear (suc n) w zero (suc j) h q =
    ap (λ (m : ℕ). bit (bit_and w m) (suc j)) (all_but-zero n)
    ∙ bit_of_halves (bit_and w (2 * (2 ^ n - 1))) (w / 2) 0 j
        (omega (arith, and_double w (2 ^ n - 1), and_ones n (w / 2) (omega (arith, pow-succ' 2 n))))
        (omega arith)
    ∙ unfold bit in ground arith
bit-clear (suc n) w (suc k) zero h q =
    ap (λ (m : ℕ). bit (bit_and w m) 0) (all_but-suc n k (omega arith))
    ∙ unfold bit in ground (arith, and_double_one w (all_but n k))
bit-clear (suc n) w (suc k) (suc j) h q =
    ap (λ (m : ℕ). bit (bit_and w m) (suc j)) (all_but-suc n k (omega arith))
    ∙ bit_of_halves (bit_and w (2 * all_but n k + 1)) (bit_and (w / 2) (all_but n k)) (w % 2) j
        (and_double_one w (all_but n k)) (omega arith)
    ∙ bit-clear n (w / 2) k j (omega (arith, pow-succ' 2 n)) (omega arith)
    ∙ unfold bit in ground arith

pub and-lt : (n w m : ℕ) → w < 2 ^ n → bit_and w m < 2 ^ n
and-lt n w m h = omega (arith, and-le w w m (omega arith))
