-- ===== src/Bloom.antt =====
-- rust/bloomfs-bloom/src/lib.rs: the blocked Bloom filter. The hash `xxh3` (128 bits, of a key and a seed)
-- is a parameter.
pub mod Membership
pub mod Tuning
mod Examples
use bloomfs.Base.{
  ℕ, zero, suc, ◌+◌, ◌-◌, ◌*◌, ◌/◌, ◌%◌, ◌^◌, Bool, true, false, not, List, ltb, leb, if◌then◌else◌,
  replicate,
}
use Prim.Native.Nat.{bit_or}
use bloomfs.Base.BitArray.{test_at, set_at}

abbrev pub block_bits : ℕ
block_bits = 512

abbrev pub block_words : ℕ
block_words = 8

pub record BlockedFilter : Type 0 where
  pub blocks : List ℕ
  pub num_blocks : ℕ
  pub k : ℕ
  pub seed : ℕ

-- `max(1)`
unfoldable pub at_least_one : ℕ → ℕ
at_least_one n = if leb 1 n then n else 1

unfoldable pub alloc : ℕ → ℕ → ℕ → BlockedFilter
alloc num_blocks k seed = record {
  blocks = replicate (at_least_one num_blocks * block_words) 0;
  num_blocks = at_least_one num_blocks;
  k = at_least_one k;
  seed = seed;
}

-- The bit of the probe with sub-hash `a` in the line at word `off`: word `off + (bit >> 6)`, bit `bit & 63`.
unfoldable pub probe : ℕ → ℕ → ℕ
probe off a = (off + a % 512 / 64) * 64 + a % 512 % 64

-- `rounds` probes, the first with number `i`.
unfoldable pub add_loop : ℕ → ℕ → ℕ → ℕ → ℕ → List ℕ → List ℕ
add_loop zero i off a b ws = ws
add_loop (suc rounds) i off a b ws =
    add_loop rounds (i + 1) off ((a + b) % 2 ^ 32) ((b + i) % 2 ^ 32) (set_at ws (probe off a))

unfoldable pub test_loop : ℕ → ℕ → ℕ → ℕ → ℕ → List ℕ → Bool
test_loop zero i off a b ws = true
test_loop (suc rounds) i off a b ws =
    let rest = test_loop rounds (i + 1) off ((a + b) % 2 ^ 32) ((b + i) % 2 ^ 32) ws in
    if not (test_at ws (probe off a)) then false else rest

module _ (xxh3 : List ℕ → ℕ → ℕ) where
  -- The word where the key's line starts, and the two sub-hashes.
  unfoldable pub block_offset : BlockedFilter → List ℕ → ℕ × ℕ × ℕ
  block_offset f key =
      let h = xxh3 key f.seed in
      let hi = h / 2 ^ 64 in
      let lo = h % 2 ^ 64 in
      (hi * f.num_blocks / 2 ^ 64 * block_words, lo % 2 ^ 32, bit_or (lo / 2 ^ 32) 1)

  unfoldable pub add : BlockedFilter → List ℕ → BlockedFilter
  add f key =
      let o = block_offset f key in record f { blocks = add_loop f.k 0 o.0 o.1 o.2 f.blocks }

  unfoldable pub test : BlockedFilter → List ℕ → Bool
  test f key = let o = block_offset f key in test_loop f.k 0 o.0 o.1 o.2 f.blocks

-- The binary search of `min_blocks_for_k`, on whether the estimate for a number of blocks lies above the
-- target. The estimate is floating point, so the test is a parameter. The fuel is the number of rounds.
module _ (over : ℕ → Bool) where
  -- `while fp_at(hi) > fp { hi *= 2; if hi > (1 << 42) { break; } }`
  unfoldable pub double_loop : ℕ → ℕ → ℕ
  double_loop zero hi = hi
  double_loop (suc fuel) hi =
      let more = double_loop fuel (hi * 2) in
      if over hi then (if ltb (2 ^ 42) (hi * 2) then hi * 2 else more) else hi

  unfoldable pub halve_loop : ℕ → ℕ → ℕ → ℕ
  halve_loop zero lo hi = lo
  halve_loop (suc fuel) lo hi =
      let mid = lo + (hi - lo) / 2 in
      let lower = halve_loop fuel lo mid in
      let upper = halve_loop fuel (mid + 1) hi in
      if ltb lo hi then (if over mid then upper else lower) else lo

  unfoldable pub min_blocks_for_k : ℕ
  min_blocks_for_k = let hi = double_loop 43 1 in halve_loop 44 (at_least_one (hi / 2)) hi

-- The choice of `new_blocked_tuned`: for each `k` from `k` on the fewest blocks, of which the least memory
-- wins. `over n nb k` says that the estimate lies above the target.
module _ (over : ℕ → ℕ → ℕ → Bool) where
  unfoldable pub best_loop : ℕ → ℕ → ℕ → ℕ → ℕ → ℕ → ℕ × ℕ
  best_loop zero n k best_blocks best_k best_bits = (best_blocks, best_k)
  best_loop (suc rounds) n k best_blocks best_k best_bits =
      let nb = min_blocks_for_k (λ m. over n m k) in
      let bits = nb * block_bits in
      let better = best_loop rounds n (k + 1) nb k bits in
      let same = best_loop rounds n (k + 1) best_blocks best_k best_bits in
      if ltb bits best_bits then better else same

  unfoldable pub new_blocked_tuned : ℕ → BlockedFilter
  new_blocked_tuned n =
      let best = best_loop 20 (at_least_one n) 1 0 1 (2 ^ 64 - 1) in alloc best.0 best.1 0

unfoldable pub cap : BlockedFilter → ℕ
cap f = f.num_blocks * block_bits
