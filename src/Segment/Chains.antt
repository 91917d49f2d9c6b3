-- ===== src/Segment/Chains.antt =====
-- rust/bloomfs-dir/src/lib.rs: a chain as a map from names to inodes.
use bloomfs.Base.{
  ℕ, zero, suc, ◌+◌, ◌≡◌, ◌≢◌, refl, ap, false, none, some, List, [], ◌∷◌, if◌then◌else◌, length,
  Bool-cases, Option-cases, inl, inr, arith,
}
use bloomfs.Base.Assoc.{bytes_keyed, bytes_eq, bytes_eq_iff, lookup, NoRepeat}
use bloomfs.Segment.{Chain, position, last_first, swap_remove}

-- `m` is `c` in another order.
pub record Reorders (m c : Chain) : Type 0 where
  pub same_lookup : (n : List ℕ) → lookup n m ≡ lookup n c
  pub unique : NoRepeat m
  pub same_length : length m ≡ length c

-- One step of `last_first`, when what the rest gave is `m`.
step-Reorders :
    (k : List ℕ) (i : ℕ) (m c : Chain)
    → NoRepeat ((k, i) ∷ c)
    → Reorders m c
    → Reorders (elim m [ [] ↦ (k, i) ∷ [] | y ∷ ys ↦ y ∷ (k, i) ∷ ys ]) ((k, i) ∷ c)
unfolding lookup
step-Reorders k i [] c u r = record {
  same_lookup = λ n. rw (← r.same_lookup n) refl;
  unique = (refl, tt);
  same_length = ap suc r.same_length;
}
step-Reorders k i ((a, j) ∷ m) c u r = record {
  same_lookup = λ n. ground (
    arith,
    r.same_lookup n,
    r.same_lookup k,
    u.0,
    bytes_eq_iff k n,
    bytes_eq_iff a n,
    bytes_eq_iff a k,
  );
  unique = (
    ground (arith, r.same_lookup k, r.unique.0, u.0, bytes_eq_iff k a, bytes_eq_iff a k),
    (ground (arith, r.same_lookup k, u.0, bytes_eq_iff a k), r.unique.1),
  );
  same_length = ap suc r.same_length;
}

last_first-Reorders : (c : Chain) → NoRepeat c → Reorders (last_first c) c
unfolding last_first
last_first-Reorders [] u = record { same_lookup = λ n. refl; unique = tt; same_length = refl }
last_first-Reorders ((k, i) ∷ c) u =
    step-Reorders k i (last_first c) c u (last_first-Reorders c u.1)

pub position-none : (name : List ℕ) (c : Chain) → position name c ≡ none → lookup name c ≡ none
unfolding position lookup
position-none name [] h = refl
position-none name ((k, i) ∷ c) h = elim (Bool-cases (bytes_eq k name)) [
  | inl b ↦ ground arith
  | inr b ↦ elim (Option-cases (position name c)) [
    | inl e ↦ rw b (position-none name c e)
    | inr (p, e) ↦ ground arith
  ]
]

-- What taking out the entry of `name` leaves.
pub record IsWithout (name : List ℕ) (m c : Chain) : Type 0 where
  pub was_there : lookup name c ≢ none
  pub rest_lookup : (n : List ℕ) → lookup n m ≡ (if bytes_eq name n then none else lookup n c)
  pub unique : NoRepeat m
  pub one_less : length m + 1 ≡ length c

position_rest :
    (name k : List ℕ) (i : ℕ) (c : Chain) (p : ℕ)
    → bytes_eq k name ≡ false
    → position name ((k, i) ∷ c) ≡ some (suc p)
    → position name c ≡ some p
unfolding position
position_rest name k i c p b h = elim (Option-cases (position name c)) [
  | inl e ↦ ground arith
  | inr (q, e) ↦ ground arith
]

keep-IsWithout :
    (name k : List ℕ) (i : ℕ) (m c : Chain)
    → NoRepeat ((k, i) ∷ c)
    → bytes_eq k name ≡ false
    → IsWithout name m c
    → IsWithout name ((k, i) ∷ m) ((k, i) ∷ c)
unfolding lookup
keep-IsWithout name k i m c u b w = record {
  was_there = rw b w.was_there;
  rest_lookup = λ n.
      ground (arith, w.rest_lookup n, bytes_eq_iff k n, bytes_eq_iff name n, bytes_eq_iff k name);
  unique = (ground (arith, w.rest_lookup k, u.0), w.unique);
  one_less = omega (arith, w.one_less);
}

pub swap_remove-IsWithout :
    (name : List ℕ) (c : Chain) (p : ℕ)
    → NoRepeat c
    → position name c ≡ some p
    → IsWithout name (swap_remove c p) c
unfolding position lookup swap_remove
swap_remove-IsWithout name [] p u h = cc
swap_remove-IsWithout name ((k, i) ∷ c) zero u h = elim (Bool-cases (bytes_eq k name)) [
  | inl b ↦
      let r = last_first-Reorders c u.1 in
      record {
        was_there = rw b (λ e. cc);
        rest_lookup = λ n. ground (
          arith,
          r.same_lookup n,
          u.0,
          bytes_eq_iff k n,
          bytes_eq_iff name n,
          bytes_eq_iff k name,
        );
        unique = r.unique;
        one_less = omega (arith, r.same_length);
      }
  | inr b ↦ elim (Option-cases (position name c)) [
    | inl e ↦ ground arith
    | inr (q, e) ↦ ground arith
  ]
]
swap_remove-IsWithout name ((k, i) ∷ c) (suc p) u h = elim (Bool-cases (bytes_eq k name)) [
  | inl b ↦ ground arith
  | inr b ↦
      keep-IsWithout name k i (swap_remove c p) c u b
        (swap_remove-IsWithout name c p u.1 (position_rest name k i c p b h))
]
