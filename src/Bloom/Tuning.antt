-- ===== src/Bloom/Tuning.antt =====
-- rust/bloomfs-bloom/src/lib.rs: the binary search for the number of blocks.
use bloomfs.Base.{
  ℕ, zero, suc, ◌⊎◌, ◌+◌, ◌-◌, ◌*◌, ◌/◌, ◌^◌, ◌≤◌, ◌<◌, ◌≡◌, refl, subst, Bool, List, true, false,
  ltb, Bool-cases, inl, inr, arith,
}
use bloomfs.Bloom.{test, at_least_one, double_loop, halve_loop, min_blocks_for_k, new_blocked_tuned}
use native.Mathlib.Nat.{one-le-pow, pow-le-pow_right}
use native.Mathlib.Numerals.{unary_clauses}
use bloomfs.Bloom.Membership.{IsShaped, test-alloc}

pow_twice : (n : ℕ) → 2 ^ suc n ≡ 2 ^ n * 2
pow_twice n = simp unary_clauses (omega arith)

at_least_one_half : (r : ℕ) → 1 ≤ r → (1 ≤ at_least_one (r / 2)) × (at_least_one (r / 2) ≤ r)
unfolding at_least_one
at_least_one_half r h = (ground arith, ground arith)

-- The estimate falls as the blocks grow.
module _ (over : ℕ → Bool) (falls : (a b : ℕ) → a ≤ b → over a ≡ false → over b ≡ false) where
  -- `r` blocks are enough, and fewer are not.
  pub record IsLeast (r : ℕ) : Type 0 where
    pub positive : 1 ≤ r
    pub enough : over r ≡ false
    pub least : (m : ℕ) → 1 ≤ m → m < r → over m ≡ true

  still_over : (a b : ℕ) → a ≤ b → over b ≡ true → over a ≡ true
  still_over a b h t = elim (Bool-cases (over a)) [ inl o ↦ o | inr o ↦ cc (falls a b h o) ]

  halve_loop-IsLeast :
      (fuel lo hi : ℕ)
      → hi - lo < 2 ^ fuel
      → lo ≤ hi
      → 1 ≤ lo
      → over hi ≡ false
      → ((m : ℕ) → 1 ≤ m → m < lo → over m ≡ true)
      → IsLeast (halve_loop over fuel lo hi)
  unfolding halve_loop
  halve_loop-IsLeast zero lo hi f l p h before =
      let e : lo ≡ hi = omega arith in record { positive = p; enough = rw e h; least = before }
  halve_loop-IsLeast (suc fuel) lo hi f l p h before =
      let mid = lo + (hi - lo) / 2 in
      let twice : hi - lo < 2 ^ fuel * 2 = omega (arith, pow_twice fuel) in
      elim (Bool-cases (ltb lo hi)) [
        | inl t ↦
            let strict : lo < hi = ground arith in
            elim (Bool-cases (over mid)) [
              | inl o ↦
                  let rest : IsLeast (halve_loop over fuel (mid + 1) hi) =
                    halve_loop-IsLeast fuel (mid + 1) hi (omega arith) (omega arith) (omega arith) h
                      (λ m q r. still_over m mid (omega arith) o) in
                  rw (t, o) rest
              | inr o ↦
                  let rest : IsLeast (halve_loop over fuel lo mid) =
                    halve_loop-IsLeast fuel lo mid (omega arith) (omega arith) p o before in
                  rw (t, o) rest
            ]
        | inr t ↦
            let e : lo ≡ hi = ground arith in
            rw t (record { positive = p; enough = rw e h; least = before })
      ]

  -- What the doubling ends with: enough, and half of it is not.
  record IsBracket (r : ℕ) : Type 0 where
    positive : 1 ≤ r
    small : r ≤ 2 ^ 42
    enough : over r ≡ false
    half : (r ≡ 1) ⊎ (over (r / 2) ≡ true)

  double_stop : (fuel hi : ℕ) → over hi ≡ false → double_loop over (suc fuel) hi ≡ hi
  unfolding double_loop
  double_stop fuel hi h = rw h refl

  double_next :
      (fuel hi : ℕ)
      → over hi ≡ true
      → hi * 2 ≤ 2 ^ 42
      → double_loop over (suc fuel) hi ≡ double_loop over fuel (hi * 2)
  unfolding double_loop
  double_next fuel hi h l = let t : ltb (2 ^ 42) (hi * 2) ≡ false = ground arith in rw (h, t) refl

  stop-IsBracket :
      (fuel i : ℕ)
      → i ≤ 42
      → over (2 ^ i) ≡ false
      → (2 ^ i ≡ 1) ⊎ (over (2 ^ i / 2) ≡ true)
      → IsBracket (double_loop over (suc fuel) (2 ^ i))
  stop-IsBracket fuel i l h b =
      let most : 2 ^ i ≤ 2 ^ 42 = pow-le-pow_right {n = 2} (omega arith) l in
      rw (double_stop fuel (2 ^ i) h)
        (record { positive = one-le-pow i 2 (omega arith); small = most; enough = h; half = b })

  double_loop-IsBracket :
      (fuel i : ℕ)
      → i + fuel ≡ 42
      → over (2 ^ 42) ≡ false
      → (2 ^ i ≡ 1) ⊎ (over (2 ^ i / 2) ≡ true)
      → IsBracket (double_loop over (suc fuel) (2 ^ i))
  double_loop-IsBracket zero i e h b =
      let last : 42 ≡ i = omega arith in
      stop-IsBracket zero i (omega arith) (subst (λ (n : ℕ). over (2 ^ n) ≡ false) last h) b
  double_loop-IsBracket (suc fuel) i e h b = elim (Bool-cases (over (2 ^ i))) [
    | inr o ↦ stop-IsBracket (suc fuel) i (omega arith) o b
    | inl o ↦
        let most : 2 ^ suc i ≤ 2 ^ 42 =
          pow-le-pow_right {n = 2} (omega arith) {i = suc i} {j = 42} (omega arith) in
        let half : 2 ^ suc i / 2 ≡ 2 ^ i = omega (arith, pow_twice i) in
        rw (double_next (suc fuel) (2 ^ i) o (omega (arith, pow_twice i)), ← pow_twice i)
          (double_loop-IsBracket fuel (suc i) (omega arith) h (inr (rw half o)))
  ]

  half_over :
      (r m : ℕ) → (r ≡ 1) ⊎ (over (r / 2) ≡ true) → 1 ≤ m → m < at_least_one (r / 2) → over m ≡ true
  unfolding at_least_one
  half_over r m (inl e) p l = absurd (ground arith)
  half_over r m (inr o) p l = still_over m (r / 2) (ground arith) o

  -- If the estimate falls as the blocks grow and 2 ^ 42 blocks are enough, then the search gives the
  -- fewest blocks that are enough: at least one, the estimate for it is not above the target, and the
  -- estimate for every smaller number is.
  pub min_blocks_for_k-IsLeast : over (2 ^ 42) ≡ false → IsLeast (min_blocks_for_k over)
  unfolding min_blocks_for_k
  min_blocks_for_k-IsLeast h =
      let b : IsBracket (double_loop over 43 1) = double_loop-IsBracket 42 0 refl h (inl refl) in
      let (p, l) = at_least_one_half (double_loop over 43 1) b.positive in
      halve_loop-IsLeast 44 _ (double_loop over 43 1) (omega (arith, b.small)) l p b.enough
        (λ m q r. half_over (double_loop over 43 1) m b.half q r)

-- The filter that the tuning makes is well formed and denies every key, whatever the estimate says.
pub new_blocked_tuned_lem :
    (over : ℕ → ℕ → ℕ → Bool) (xxh3 : List ℕ → ℕ → ℕ) (n : ℕ) (x : List ℕ)
    → IsShaped (new_blocked_tuned over n) × (test xxh3 (new_blocked_tuned over n) x ≡ false)
unfolding new_blocked_tuned
new_blocked_tuned_lem over xxh3 n x = test-alloc xxh3 _ _ 0 x
