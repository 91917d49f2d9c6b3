-- ===== src/Base/BitArray.antt =====
-- A row of bits kept in 64-bit words (`Vec<u64>`): bit `i` is bit `i & 63` of word `i >> 6`.
use Prim.Native.Nat.{bit_and, bit_or, bit_and-bitwise, ℕ, zero, suc, ◌*◌, ◌/◌, ◌%◌, ◌^◌, ◌<◌}
use mathlib.Core.Path.{◌≡◌, refl}
use mathlib.Core.Bool.{Bool, true, false, not}
use mathlib.Core.List.{List, [], ◌∷◌}
use native.Mathlib.Omega.{arith}
use bloomfs.Base.Tests.{◌==◌, if◌then◌else◌}
use bloomfs.Base.Lists.{length, get_or, set, replicate, All, get_or-set, length-set}
use bloomfs.Base.Bytes.{IsU64}
use bloomfs.Base.Bits.{bit, all_but, test-bit, bit-or, bit-clear, or-lt, and-lt}

-- `bits[i >> 6] & (1 << (i & 63)) != 0`.
unfoldable pub test_at : List ℕ → ℕ → Bool
test_at ws i = not (bit_and (get_or ws (i / 64) 0) (2 ^ (i % 64)) == 0)

-- `bits[i >> 6] |= 1 << (i & 63)`.
unfoldable pub set_at : List ℕ → ℕ → List ℕ
set_at ws i = set ws (i / 64) (bit_or (get_or ws (i / 64) 0) (2 ^ (i % 64)))

-- `bits[i >> 6] &= !(1 << (i & 63))`.
unfoldable pub clear_at : List ℕ → ℕ → List ℕ
clear_at ws i = set ws (i / 64) (bit_and (get_or ws (i / 64) 0) (all_but 64 (i % 64)))

abbrev pub IsWords : List ℕ → Type 0
IsWords = All IsU64

get_or-IsU64 : (ws : List ℕ) (i : ℕ) → IsWords ws → get_or ws i 0 < 2 ^ 64
get_or-IsU64 [] i h = omega arith
get_or-IsU64 (w ∷ ws) zero h = h.0
get_or-IsU64 (w ∷ ws) (suc i) h = get_or-IsU64 ws i h.1

set-IsWords : (ws : List ℕ) (i v : ℕ) → IsWords ws → v < 2 ^ 64 → IsWords (set ws i v)
set-IsWords [] i v h q = tt
set-IsWords (w ∷ ws) zero v h q = (q, h.1)
set-IsWords (w ∷ ws) (suc i) v h q = (h.0, set-IsWords ws i v h.1 q)

pub replicate-IsWords : (n : ℕ) → IsWords (replicate n 0)
replicate-IsWords zero = tt
replicate-IsWords (suc n) = (omega arith, replicate-IsWords n)

pub length-set_at : (ws : List ℕ) (i : ℕ) → length (set_at ws i) ≡ length ws
unfolding set_at
length-set_at ws i = length-set ws _ _

pub length-clear_at : (ws : List ℕ) (i : ℕ) → length (clear_at ws i) ≡ length ws
unfolding clear_at
length-clear_at ws i = length-set ws _ _

pub set_at-IsWords : (ws : List ℕ) (i : ℕ) → IsWords ws → IsWords (set_at ws i)
unfolding set_at
set_at-IsWords ws i h =
    set-IsWords ws _ _ h (or-lt 64 _ (i % 64) (get_or-IsU64 ws (i / 64) h) (omega arith))

pub clear_at-IsWords : (ws : List ℕ) (i : ℕ) → IsWords ws → IsWords (clear_at ws i)
unfolding clear_at
clear_at-IsWords ws i h = set-IsWords ws _ _ h (and-lt 64 _ _ (get_or-IsU64 ws (i / 64) h))

-- A row with word `a` replaced differs from the old one in the bits of that word only.
test-set_word :
    (ws : List ℕ) (i j v : ℕ) (b : Bool)
    → i < 64 * length ws
    → bit v (j % 64) ≡ (if i % 64 == j % 64 then b else bit (get_or ws (i / 64) 0) (j % 64))
    → test_at (set ws (i / 64) v) j ≡ (if i == j then b else test_at ws j)
unfolding test_at
test-set_word ws i j v b h e = ground (
  arith,
  test-bit (get_or (set ws (i / 64) v) (j / 64) 0) (j % 64),
  test-bit (get_or ws (j / 64) 0) (j % 64),
  get_or-set ws (i / 64) (j / 64) v 0 (omega arith),
)

-- Setting a bit changes that bit and no other.
pub test-set_at :
    (ws : List ℕ) (i j : ℕ)
    → i < 64 * length ws
    → test_at (set_at ws i) j ≡ (if i == j then true else test_at ws j)
unfolding set_at
test-set_at ws i j h =
    test-set_word ws i j _ true h (bit-or (get_or ws (i / 64) 0) (i % 64) (j % 64))

-- Clearing a bit changes that bit and no other.
pub test-clear_at :
    (ws : List ℕ) (i j : ℕ)
    → IsWords ws
    → i < 64 * length ws
    → test_at (clear_at ws i) j ≡ (if i == j then false else test_at ws j)
unfolding clear_at
test-clear_at ws i j w h = test-set_word ws i j _ false h (
    bit-clear 64 (get_or ws (i / 64) 0) (i % 64) (j % 64) (get_or-IsU64 ws (i / 64) w)
      (omega arith))

get_or-replicate : (n i : ℕ) → get_or {A = ℕ} (replicate n 0) i 0 ≡ 0
get_or-replicate zero i = refl
get_or-replicate (suc n) zero = refl
get_or-replicate (suc n) (suc i) = get_or-replicate n i

pub test-replicate : (n i : ℕ) → test_at (replicate n 0) i ≡ false
unfolding test_at
test-replicate n i = ground (arith, get_or-replicate n (i / 64), bit_and-bitwise 0 (2 ^ (i % 64)))
