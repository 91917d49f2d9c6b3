-- ===== src/Segment/Laws.antt =====
-- rust/bloomfs-dir/src/lib.rs: a segment as a map from names to inodes.
use bloomfs.Base.{
  ℕ, ◌+◌, ◌-◌, ◌/◌, ◌^◌, ◌≤◌, ◌<◌, ◌≡◌, ◌≢◌, refl, sym, subst, ◌∙◌, Bool, true, Option, none, some,
  List, [], ◌∷◌, ◌++◌, leb, length, length-append, if◌then◌else◌, Bool-cases, Option-cases, is_some,
  inl, inr, arith,
}
use bloomfs.Base.Assoc.{ℕ_keyed, bytes_keyed, bytes_eq, bytes_eq_iff, lookup, insert}
use bloomfs.Bloom.{BlockedFilter, at_least_one, new_blocked_tuned, test}
use bloomfs.Bloom
use bloomfs.Bloom.Membership.{IsShaped, add-IsShaped, test-add_self, test-add_other}
use bloomfs.Bloom.Tuning.{new_blocked_tuned_lem}
use bloomfs.Segment.{
  InodeId, Chain, Segment, chain_at, position, without, rebuild_threshold, new, add, find,
  add_index, rebuild_filter, remove_at, remove, seg_entries,
}
use bloomfs.Segment.Chains.{position-none, swap_remove-IsWithout}
use bloomfs.Segment.Index.{
  IsIndex, view, chain_absent, chain_present, nil_lookup, chain_at-insert, length-insert,
  insert-IsIndex, chain_at-IsChain, seg_entries_lem,
}
use bloomfs.Segment.Update.{
  IsLess, view_update, push-IsChain, none_if, without-IsLess, absent_update,
}
use bloomfs.Segment.Filter.{add_index-IsShaped, index_known}

some_there : (o : Option InodeId) → o ≢ none → true ≡ is_some o
some_there none h = absurd (h refl)
some_there (some i) h = refl

module _ (over : ℕ → ℕ → ℕ → ℕ → Bool) (xxh3 : List ℕ → ℕ → ℕ) (hash : List ℕ → ℕ)
    (wide : (x : List ℕ) (seed : ℕ) → xxh3 x seed < 2 ^ 128) where
  -- The index is a map, its names pass the filter, the count is that of the pairs and at most the
  -- capacity (or one), and stale names are fewer than a rebuild needs.
  pub record IsSegment (s : Segment) : Type 0 where
    pub shaped : IsShaped s.filter
    pub indexed : IsIndex hash s.index
    pub known : (n : List ℕ) → view hash s.index n ≢ none → test xxh3 s.filter n ≡ true
    pub counted : s.count ≡ length (seg_entries s.index)
    pub bounded : s.count ≤ at_least_one s.cap
    pub few_stale : s.tomb < rebuild_threshold s

  pub new-IsSegment : (capacity fp : ℕ) → IsSegment (new over xxh3 capacity fp)
  unfolding new seg_entries rebuild_threshold at_least_one chain_at lookup
  new-IsSegment capacity fp = record {
    shaped = (new_blocked_tuned_lem (over fp) xxh3 capacity []).0;
    indexed = record { keys = tt; chains = tt };
    known = λ n f. absurd (f refl);
    counted = refl;
    bounded = omega arith;
    few_stale = ground arith;
  }

  -- What the filter denies is not there.
  pub find_lem :
      (s : Segment) (n : List ℕ) → IsSegment s → find over xxh3 s (hash n) n ≡ view hash s.index n
  unfolding find
  find_lem s n v = elim (Bool-cases (test xxh3 s.filter n)) [
    | inl t ↦ elim (Option-cases (lookup (hash n) s.index)) [
      | inl e ↦ rw (find, t, e, chain_absent (hash n) s.index e) (sym (nil_lookup n))
      | inr (c, e) ↦ rw (find, t, e, chain_present (hash n) s.index c e) refl
    ]
    | inr t ↦ elim (Option-cases (view hash s.index n)) [
      | inl e ↦ rw (find, t) (sym e)
      | inr (i, e) ↦ let yes = v.known n (rw e (λ q. cc)) in absurd cc
    ]
  ]

  add_known :
      (o r : Option InodeId) (s : Segment) (n k : List ℕ)
      → IsSegment s
      → r ≡ (if bytes_eq n k then o else view hash s.index k)
      → r ≢ none
      → test xxh3 (Bloom.add xxh3 s.filter n) k ≡ true
  add_known o r s n k v e f = elim (Bool-cases (bytes_eq n k)) [
    | inl t ↦
        subst (λ j. test xxh3 (Bloom.add xxh3 s.filter n) j ≡ true) ((bytes_eq_iff n k).0 t)
          (test-add_self xxh3 wide s.filter n v.shaped)
    | inr t ↦ test-add_other xxh3 wide s.filter n k v.shaped (v.known k (λ q. f (e ∙ rw t q)))
  ]

  -- A new name in a segment with room: the segment keeps its invariant, and its map has the name.
  pub add_lem :
      (s : Segment) (n : List ℕ) (i : InodeId)
      → IsSegment s
      → view hash s.index n ≡ none
      → s.count < at_least_one s.cap
      → IsSegment (add over xxh3 s (hash n) n i)
        × ((k : List ℕ)
            → view hash (add over xxh3 s (hash n) n i).index k
              ≡ (if bytes_eq n k then some i else view hash s.index k))
  unfolding add rebuild_threshold
  add_lem s n i v gone room =
      let h = hash n in
      let c = chain_at h s.index in
      let c' = c ++ ((n, i) ∷ []) in
      let (x, new_lookup) =
        push-IsChain hash n i c (chain_at-IsChain hash h s.index v.indexed) gone in
      let update =
        view_update hash s.index (insert h c' s.index) n c' (some i)
          (λ g. chain_at-insert h g c' s.index) new_lookup in
      (
        record {
          shaped = add-IsShaped xxh3 wide s.filter n v.shaped;
          indexed = insert-IsIndex hash h c' s.index x v.indexed;
          known = λ k f. add_known (some i) _ s n k v (update k) f;
          counted =
              omega (arith, length-insert h c' s.index, length-append c ((n, i) ∷ []), v.counted);
          bounded = omega (arith, room);
          few_stale = v.few_stale;
        },
        update,
      )

  -- A segment just after an entry was taken out, before the stale names are counted.
  taken-IsSegment :
      (s : Segment) (n : List ℕ) (m' : List (ℕ × Chain)) (f : BlockedFilter) (tomb : ℕ)
      → IsSegment s
      → IsLess hash n s.index m'
      → IsShaped f
      → ((k : List ℕ) → view hash m' k ≢ none → test xxh3 f k ≡ true)
      → tomb < rebuild_threshold s
      → IsSegment (record s { filter = f; index = m'; count = s.count - 1; tomb = tomb })
  unfolding rebuild_threshold
  taken-IsSegment s n m' f tomb v l shaped known t = record {
    shaped = shaped;
    indexed = l.indexed;
    known = known;
    counted = omega (arith, v.counted, l.one_less);
    bounded = omega (arith, v.bounded);
    few_stale = t;
  }

  remove_at-IsSegment :
      (s : Segment) (n : List ℕ) (p : ℕ)
      → IsSegment s
      → position n (chain_at (hash n) s.index) ≡ some p
      → IsSegment (remove_at over xxh3 s (hash n) (chain_at (hash n) s.index) p)
        × ((k : List ℕ)
            → view hash (remove_at over xxh3 s (hash n) (chain_at (hash n) s.index) p).index k
              ≡ (if bytes_eq n k then none else view hash s.index k))
  unfolding remove_at rebuild_filter rebuild_threshold at_least_one
  remove_at-IsSegment s n p v e =
      let m' = without (hash n) (chain_at (hash n) s.index) p s.index in
      let l : IsLess hash n s.index m' = without-IsLess hash n p s.index v.indexed e in
      let kept : (k : List ℕ) → view hash m' k ≢ none → test xxh3 s.filter k ≡ true = λ k f.
        v.known k (λ q. f (l.rest k ∙ none_if hash (bytes_eq n k) (view hash s.index k) q)) in
      let empty : IsShaped (new_blocked_tuned (over s.fp) s.cap) =
        (new_blocked_tuned_lem (over s.fp) xxh3 s.cap []).0 in
      let rebuilt : (k : List ℕ)
          → view hash m' k ≢ none
          → test xxh3 (add_index over xxh3 m' (new_blocked_tuned (over s.fp) s.cap)) k ≡ true =
        λ k f.
          index_known over xxh3 wide m' _ k empty
            (λ q. f (sym ((seg_entries_lem hash m' l.indexed).0 k) ∙ q)) in
      elim (Bool-cases (leb (at_least_one (s.cap / 4)) (s.tomb + 1))) [
        | inl b ↦
            rw (remove_at, b)
              (
                taken-IsSegment s n m'
                    (add_index over xxh3 m' (new_blocked_tuned (over s.fp) s.cap)) 0 v l
                    (add_index-IsShaped over xxh3 wide m' _ empty) rebuilt (ground arith),
                l.rest,
              )
        | inr b ↦
            rw (remove_at, b)
              (
                taken-IsSegment s n m' s.filter (s.tomb + 1) v l v.shaped kept (ground arith),
                l.rest,
              )
      ]

  -- The name leaves the map, and the answer says whether it was there.
  pub remove_lem :
      (s : Segment) (n : List ℕ)
      → IsSegment s
      → IsSegment (remove over xxh3 s (hash n) n).0
        × ((remove over xxh3 s (hash n) n).1 ≡ is_some (view hash s.index n))
        × ((k : List ℕ)
            → view hash (remove over xxh3 s (hash n) n).0.index k
              ≡ (if bytes_eq n k then none else view hash s.index k))
  unfolding remove
  remove_lem s n v = elim (Option-cases (lookup (hash n) s.index)) [
    | inl e ↦
        let gone : view hash s.index n ≡ none =
          rw (chain_absent (hash n) s.index e) (nil_lookup n) in
        rw (remove, e) (v, rw gone refl, absent_update hash s.index n gone)
    | inr (c, e) ↦
        let here : chain_at (hash n) s.index ≡ c = chain_present (hash n) s.index c e in
        elim (Option-cases (position n c)) [
          | inl q ↦
              let gone : view hash s.index n ≡ none = rw here (position-none n c q) in
              rw (remove, e, q) (v, rw gone refl, absent_update hash s.index n gone)
          | inr (p, q) ↦
              let (a, b) = remove_at-IsSegment s n p v (rw here q) in
              rw (remove, e, q, ← here)
                (
                  a,
                  some_there (view hash s.index n) (
                      rw (here)
                        (swap_remove-IsWithout n c p
                          (rw here at (chain_at-IsChain hash (hash n) s.index v.indexed).unique)
                          q).was_there),
                  b,
                )
        ]
  ]
