-- ===== src/Bloom/Examples.antt =====
-- Examples for the filter, with a toy hash.
use bloomfs.Base.{
  ℕ, ◌≤◌, Bool, ltb, ◌+◌, ◌*◌, ◌%◌, ◌^◌, ◌<◌, ◌≡◌, refl, List, [], ◌∷◌, ◌++◌, true, false, length,
  arith,
}
use bloomfs.Bloom.{alloc, test, min_blocks_for_k, double_loop, halve_loop, at_least_one}
use bloomfs.Bloom.Membership.{add_all, alloc-IsShaped, test-add_all}
use bloomfs.Bloom.Tuning.{IsLeast, min_blocks_for_k-IsLeast}

abbrev toy_hash : List ℕ → ℕ → ℕ
toy_hash x seed = (length x * 36893488147419103239 + seed) % 2 ^ 128

toy_wide : (x : List ℕ) (seed : ℕ) → toy_hash x seed < 2 ^ 128
toy_wide x seed = omega arith

test-add_all_example :
    test toy_hash
      (add_all toy_hash (((1 ∷ []) ∷ []) ++ ((2 ∷ 3 ∷ []) ∷ [] ∷ [])) (alloc 3 4 0))
      (2 ∷ 3 ∷ [])
    ≡ true
test-add_all_example =
    test-add_all toy_hash toy_wide ((1 ∷ []) ∷ []) ([] ∷ []) (alloc 3 4 0) (2 ∷ 3 ∷ [])
      (alloc-IsShaped 3 4 0)

-- 37 blocks are enough.
abbrev toy_over : ℕ → Bool
toy_over nb = ltb nb 37

toy_falls : (a b : ℕ) → a ≤ b → toy_over a ≡ false → toy_over b ≡ false
toy_falls a b h e = ground arith

min_blocks_for_k-IsLeast_example : IsLeast toy_over toy_falls (min_blocks_for_k toy_over)
min_blocks_for_k-IsLeast_example = min_blocks_for_k-IsLeast toy_over toy_falls refl

found : min_blocks_for_k toy_over ≡ 37
unfolding min_blocks_for_k double_loop halve_loop at_least_one
found = refl
