-- ===== src/Segment/Filter.antt =====
-- rust/bloomfs-dir/src/lib.rs: the filter that `rebuild_filter` makes, against the names of the index.
use bloomfs.Base.{
  ℕ, ◌^◌, ◌<◌, ◌≡◌, ◌≢◌, refl, sym, subst, ◌∙◌, Bool, true, none, List, [], ◌∷◌, ◌++◌, Bool-cases,
  inl, inr,
}
use bloomfs.Base.Assoc.{bytes_keyed, bytes_eq, bytes_eq_iff, lookup}
use bloomfs.Bloom.{BlockedFilter, test, add}
use bloomfs.Bloom.Membership.{IsShaped, add-IsShaped, test-add_self, test-add_other}
use bloomfs.Segment.{Chain, seg_entries, add_chain, add_index}

module _ (over : ℕ → ℕ → ℕ → ℕ → Bool) (xxh3 : List ℕ → ℕ → ℕ)
    (wide : (x : List ℕ) (seed : ℕ) → xxh3 x seed < 2 ^ 128) where
  chain_append :
      (c d : Chain) (f : BlockedFilter)
      → add_chain over xxh3 (c ++ d) f ≡ add_chain over xxh3 d (add_chain over xxh3 c f)
  unfolding add_chain
  chain_append [] d f = refl
  chain_append ((k, i) ∷ c) d f = chain_append c d (add xxh3 f k)

  index_chain :
      (m : List (ℕ × Chain)) (f : BlockedFilter)
      → add_index over xxh3 m f ≡ add_chain over xxh3 (seg_entries m) f
  unfolding add_chain add_index seg_entries
  index_chain [] f = refl
  index_chain ((h, c) ∷ m) f =
      index_chain m (add_chain over xxh3 c f) ∙ sym (chain_append c (seg_entries m) f)

  add_chain-IsShaped :
      (c : Chain) (f : BlockedFilter) → IsShaped f → IsShaped (add_chain over xxh3 c f)
  unfolding add_chain
  add_chain-IsShaped [] f s = s
  add_chain-IsShaped ((k, i) ∷ c) f s = add_chain-IsShaped c _ (add-IsShaped xxh3 wide f k s)

  chain_kept :
      (c : Chain) (f : BlockedFilter) (n : List ℕ)
      → IsShaped f
      → test xxh3 f n ≡ true
      → test xxh3 (add_chain over xxh3 c f) n ≡ true
  unfolding add_chain
  chain_kept [] f n s t = t
  chain_kept ((k, i) ∷ c) f n s t =
      chain_kept c _ n (add-IsShaped xxh3 wide f k s) (test-add_other xxh3 wide f k n s t)

  chain_known :
      (c : Chain) (f : BlockedFilter) (n : List ℕ)
      → IsShaped f
      → lookup n c ≢ none
      → test xxh3 (add_chain over xxh3 c f) n ≡ true
  unfolding add_chain lookup
  chain_known [] f n s h = absurd (h refl)
  chain_known ((k, i) ∷ c) f n s h =
      let s' = add-IsShaped xxh3 wide f k s in
      elim (Bool-cases (bytes_eq k n)) [
        | inl b ↦
            let e : k ≡ n = (bytes_eq_iff k n).0 b in
            chain_kept c (add xxh3 f k) n s'
              (subst (λ j. test xxh3 (add xxh3 f k) j ≡ true) e (test-add_self xxh3 wide f k s))
        | inr b ↦ chain_known c (add xxh3 f k) n s' (rw b at h)
      ]

  pub add_index-IsShaped :
      (m : List (ℕ × Chain)) (f : BlockedFilter) → IsShaped f → IsShaped (add_index over xxh3 m f)
  add_index-IsShaped m f s = rw (index_chain m f) (add_chain-IsShaped (seg_entries m) f s)

  pub index_known :
      (m : List (ℕ × Chain)) (f : BlockedFilter) (n : List ℕ)
      → IsShaped f
      → lookup n (seg_entries m) ≢ none
      → test xxh3 (add_index over xxh3 m f) n ≡ true
  index_known m f n s h = rw (index_chain m f) (chain_known (seg_entries m) f n s h)
