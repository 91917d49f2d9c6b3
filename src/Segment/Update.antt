-- ===== src/Segment/Update.antt =====
-- rust/bloomfs-dir/src/lib.rs: the index after one chain was changed.
use bloomfs.Base.{
  ℕ, ◌+◌, ◌≡◌, ◌≢◌, refl, ap, sym, subst, ◌∙◌, Bool, true, false, Option, none, some, List, [], ◌∷◌,
  ◌++◌, ◌==◌, ==_iff, length, if◌then◌else◌, Bool-cases, ◌⊎◌, inl, inr, arith,
}
use bloomfs.Base.Assoc.{
  ℕ_keyed, bytes_keyed, bytes_eq, bytes_eq_iff, lookup, insert, insert_new, insert-NoRepeat,
  lookup-insert,
}
use bloomfs.Segment.{InodeId, Chain, chain_at, position, swap_remove, without, new, seg_entries}
use bloomfs.Segment.Chains.{IsWithout, swap_remove-IsWithout}
use bloomfs.Segment.Index.{
  IsChain, IsIndex, view, chain_at-insert, chain_at-remove, length-insert, length-remove,
  insert-IsIndex, remove-IsIndex, chain_at-IsChain,
}

List-cases {ℓ} : {A : Type ℓ} (xs : List A) → (xs ≡ []) ⊎ ((y : A) × (ys : List A) × (xs ≡ y ∷ ys))
List-cases [] = inl refl
List-cases (y ∷ ys) = inr (y, ys, refl)

module _ (hash : List ℕ → ℕ) where
  names_apart : (n k : List ℕ) → (hash n == hash k) ≡ false → bytes_eq n k ≡ false
  names_apart n k b = elim (Bool-cases (bytes_eq n k)) [
    | inl t ↦
        let same : (hash n == hash k) ≡ true =
          (==_iff (hash n) (hash k)).1 (ap hash ((bytes_eq_iff n k).0 t)) in
        absurd cc
    | inr t ↦ t
  ]

  -- Only the chain of the name `n` changes, from `chain_at (hash n) m` to `c`, and there only the name.
  pub view_update :
      (m m' : List (ℕ × Chain)) (n : List ℕ) (c : Chain) (v : Option InodeId)
      → ((g : ℕ) → chain_at g m' ≡ (if hash n == g then c else chain_at g m))
      → ((k : List ℕ) → lookup k c ≡ (if bytes_eq n k then v else lookup k (chain_at (hash n) m)))
      → (k : List ℕ) → view hash m' k ≡ (if bytes_eq n k then v else view hash m k)
  view_update m m' n c v one new k = elim (Bool-cases (hash n == hash k)) [
    | inl b ↦
        let e : hash n ≡ hash k = (==_iff (hash n) (hash k)).0 b in
        rw (one (hash k), b, new k, e) refl
    | inr b ↦
        let other : bytes_eq n k ≡ false = names_apart n k b in rw (one (hash k), b, other) refl
  ]

  put_hashed :
      (n : List ℕ) (i : InodeId) (c : Chain)
      → IsChain hash (hash n) c
      → (k : List ℕ) → lookup k (insert n i c) ≢ none
      → hash k ≡ hash n
  put_hashed n i c x k f = elim (Bool-cases (bytes_eq n k)) [
    | inl t ↦ ap hash (sym ((bytes_eq_iff n k).0 t))
    | inr t ↦ x.hashed k (rw (lookup-insert n k i c, t) at f)
  ]

  -- The chain of a new name.
  pub push-IsChain :
      (n : List ℕ) (i : InodeId) (c : Chain)
      → IsChain hash (hash n) c
      → lookup n c ≡ none
      → IsChain hash (hash n) (c ++ ((n, i) ∷ []))
        × ((k : List ℕ)
            → lookup k (c ++ ((n, i) ∷ [])) ≡ (if bytes_eq n k then some i else lookup k c))
  push-IsChain n i c x e =
      let put : insert n i c ≡ c ++ ((n, i) ∷ []) = insert_new n i c e in
      rw (← put) (
        record { unique = insert-NoRepeat n i c x.unique; hashed = λ k f. put_hashed n i c x k f },
        λ k. lookup-insert n k i c,
      )

  pub none_if :
      (b : Bool) (o : Option InodeId)
      → o ≡ none
      → Path (Option InodeId) (if b then none else o) none
  none_if true o e = refl
  none_if false o e = e

  -- What the index is without an entry of a chain.
  pub record IsLess (n : List ℕ) (m m' : List (ℕ × Chain)) : Type 0 where
    pub indexed : IsIndex hash m'
    pub rest : (k : List ℕ) → view hash m' k ≡ (if bytes_eq n k then none else view hash m k)
    pub one_less : length (seg_entries m') + 1 ≡ length (seg_entries m)

  without_chain :
      (h : ℕ) (c : Chain) (p : ℕ) (m : List (ℕ × Chain)) (g : ℕ)
      → chain_at g (without h c p m) ≡ (if h == g then swap_remove c p else chain_at g m)
  unfolding without
  without_chain h c p m g = elim (List-cases (swap_remove c p)) [
    | inl e ↦ rw (without, e) (chain_at-remove h g m)
    | inr (x, xs, e) ↦ rw (without, e) (chain_at-insert h g (x ∷ xs) m)
  ]

  without-IsIndex :
      (h : ℕ) (c : Chain) (p : ℕ) (m : List (ℕ × Chain))
      → IsIndex hash m
      → IsChain hash h (swap_remove c p)
      → IsIndex hash (without h c p m)
        × (length (seg_entries (without h c p m)) + length (chain_at h m)
            ≡ length (seg_entries m) + length (swap_remove c p))
  unfolding without
  without-IsIndex h c p m x y = elim (List-cases (swap_remove c p)) [
    | inl e ↦ rw (without, e) (remove-IsIndex hash h m x, omega (arith, length-remove h m x.keys))
    | inr (z, zs, e) ↦
        rw (without, e) (insert-IsIndex hash h (z ∷ zs) m (rw e at y) x, length-insert h (z ∷ zs) m)
  ]

  pub without-IsLess :
      (n : List ℕ) (p : ℕ) (m : List (ℕ × Chain))
      → IsIndex hash m
      → position n (chain_at (hash n) m) ≡ some p
      → IsLess n m (without (hash n) (chain_at (hash n) m) p m)
  without-IsLess n p m x e =
      let h = hash n in
      let c = chain_at h m in
      let old : IsChain hash h c = chain_at-IsChain hash h m x in
      let w : IsWithout n (swap_remove c p) c = swap_remove-IsWithout n c p old.unique e in
      let chain : IsChain hash h (swap_remove c p) = record {
        unique = w.unique;
        hashed =
            λ k f. old.hashed k (λ q. f (w.rest_lookup k ∙ none_if (bytes_eq n k) (lookup k c) q));
      } in
      let (i, l) = without-IsIndex h c p m x chain in
      record {
        indexed = i;
        rest =
            view_update m (without h c p m) n (swap_remove c p) none (without_chain h c p m)
              w.rest_lookup;
        one_less = omega (arith, l, w.one_less);
      }

  pub absent_update :
      (m : List (ℕ × Chain)) (n : List ℕ)
      → view hash m n ≡ none
      → (k : List ℕ) → view hash m k ≡ (if bytes_eq n k then none else view hash m k)
  absent_update m n e k = elim (Bool-cases (bytes_eq n k)) [
    | inl t ↦ rw t (subst (λ j. view hash m j ≡ none) ((bytes_eq_iff n k).0 t) e)
    | inr t ↦ rw t refl
  ]
