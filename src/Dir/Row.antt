-- ===== src/Dir/Row.antt =====
-- rust/bloomfs-dir/src/lib.rs: a row of segments as one map.
use bloomfs.Base.{
  ℕ, ◌^◌, ◌<◌, ◌≡◌, ◌≢◌, refl, sym, subst, ◌∙◌, Bool, true, false, Option, is_some, none, some,
  List, [], ◌∷◌, length, length-append, if◌then◌else◌, Bool-cases, Option-cases, inl, inr, arith,
}
use bloomfs.Base.Assoc.{bytes_keyed, bytes_eq, bytes_eq_iff, lookup, NoRepeat}
use bloomfs.Bloom.{at_least_one}
use bloomfs.Segment.{InodeId, DirEntry, Segment, full, seg_entries}
use bloomfs.Segment
use bloomfs.Segment.Index.{
  view, seg_entries_lem, nil_lookup, append_found, append_absent, append-NoRepeat,
}
use bloomfs.Segment.Laws.{IsSegment, new-IsSegment, find_lem, add_lem, remove_lem}
use bloomfs.Dir.{find_in, push_in, delete_in, len_of, entries_of}

-- `Option::or`
abbrev pub or_else : Option InodeId → Option InodeId → Option InodeId
or_else (some i) b = some i
or_else none b = b

or_else-none : (a b : Option InodeId) → or_else a b ≡ none → (a ≡ none) × (b ≡ none)
or_else-none none b e = (refl, e)
or_else-none (some i) b e = absurd cc

or_else_nothing : (v : Option InodeId) → or_else v none ≡ v
or_else_nothing none = refl
or_else_nothing (some i) = refl

same_if :
    (t : Bool) (a : Option InodeId)
    → (t ≡ true → a ≡ none)
    → Path (Option InodeId) (if t then none else a) a
same_if true a h = sym (h refl)
same_if false a h = refl

-- The first of two maps changes at the one key for which `t` holds, the second one has nothing there.
change_first :
    (t : Bool) (v a b r : Option InodeId)
    → r ≡ (if t then v else a)
    → (t ≡ true → b ≡ none)
    → or_else r b ≡ (if t then v else or_else a b)
change_first true v a b r e h = rw (e, h refl) (or_else_nothing v)
change_first false v a b r e h = rw e refl

-- The second one changes, the first one has nothing there.
change_second :
    (t : Bool) (v a b r : Option InodeId)
    → r ≡ (if t then v else b)
    → (t ≡ true → a ≡ none)
    → or_else a r ≡ (if t then v else or_else a b)
change_second true v a b r e h = rw (e, h refl) refl
change_second false v a b r e h = rw e refl

-- The maps stay apart when the second one changes, or the first one.
second_apart :
    (t : Bool) (v b r : Option InodeId)
    → r ≡ (if t then v else b)
    → (t ≡ true → v ≡ none)
    → b ≡ none
    → r ≡ none
second_apart true v b r e h q = e ∙ h refl
second_apart false v b r e h q = e ∙ q

first_apart :
    (t : Bool) (v a b r : Option InodeId)
    → r ≡ (if t then v else a)
    → r ≢ none
    → (t ≡ true → b ≡ none)
    → (a ≢ none → b ≡ none)
    → b ≡ none
first_apart true v a b r e f h q = h refl
first_apart false v a b r e f h q = q (λ z. f (e ∙ z))

at_key :
    (f : List ℕ → Option InodeId) (n k : List ℕ) → f n ≡ none → bytes_eq n k ≡ true → f k ≡ none
at_key f n k e t = subst (λ j. f j ≡ none) ((bytes_eq_iff n k).0 t) e

module _ (hash : List ℕ → ℕ) where
  -- The map that a row stands for: the first segment that has the name.
  abbrev pub row_view : List Segment → List ℕ → Option InodeId
  row_view [] n = none
  row_view (s ∷ ss) n = or_else (view hash s.index n) (row_view ss n)

module _ (over : ℕ → ℕ → ℕ → ℕ → Bool) (xxh3 : List ℕ → ℕ → ℕ) (hash : List ℕ → ℕ)
    (wide : (x : List ℕ) (seed : ℕ) → xxh3 x seed < 2 ^ 128) where
  -- Every segment is well formed, and no name stands in two of them.
  abbrev pub IsRow : List Segment → Type 0
  IsRow [] = Unit
  IsRow (s ∷ ss) =
      IsSegment over xxh3 hash wide s
      × ((n : List ℕ) → view hash s.index n ≢ none → row_view hash ss n ≡ none)
      × IsRow ss

  pub find_in_lem :
      (ss : List Segment) (n : List ℕ)
      → IsRow ss
      → find_in over xxh3 hash ss (hash n) n ≡ row_view hash ss n
  unfolding find_in
  find_in_lem [] n r = refl
  find_in_lem (s ∷ ss) n r =
      let here = find_lem over xxh3 hash wide s n r.0 in
      elim (Option-cases (view hash s.index n)) [
        | inl e ↦ rw (find_in, here, e) (find_in_lem ss n r.2)
        | inr (i, e) ↦ rw (find_in, here, e) refl
      ]

  pub new-view :
      (capacity fp : ℕ) (n : List ℕ) → view hash (Segment.new over xxh3 capacity fp).index n ≡ none
  unfolding Segment.new Segment.chain_at lookup
  new-view capacity fp n = refl

  room : (s : Segment) → full s ≡ false → s.count < at_least_one s.cap
  unfolding full at_least_one
  room s b = ground arith

  new_room :
      (capacity fp : ℕ)
      → (Segment.new over xxh3 capacity fp).count
        < at_least_one (Segment.new over xxh3 capacity fp).cap
  unfolding Segment.new at_least_one
  new_room capacity fp = ground arith

  pub push_in_lem :
      (capacity fp : ℕ) (n : List ℕ) (i : InodeId) (ss : List Segment)
      → IsRow ss
      → row_view hash ss n ≡ none
      → IsRow (push_in over xxh3 hash capacity fp (hash n) n i ss)
        × ((k : List ℕ)
            → row_view hash (push_in over xxh3 hash capacity fp (hash n) n i ss) k
              ≡ (if bytes_eq n k then some i else row_view hash ss k))
  unfolding push_in full
  push_in_lem capacity fp n i [] r e =
      let (seg, update) =
        add_lem over xxh3 hash wide (Segment.new over xxh3 capacity fp) n i
          (new-IsSegment over xxh3 hash wide capacity fp) (new-view capacity fp n)
          (new_room capacity fp) in
      (
        (seg, λ k f. refl, tt),
        λ k.
            rw (update k, new-view capacity fp k)
              (or_else_nothing (if bytes_eq n k then some i else none)),
      )
  push_in_lem capacity fp n i (s ∷ ss) r e =
      let (gone, gone_behind) = or_else-none (view hash s.index n) (row_view hash ss n) e in
      elim (Bool-cases (full s)) [
        | inl b ↦
            let (row, update) = push_in_lem capacity fp n i ss r.2 gone_behind in
            rw (push_in, b)
              (
                (
                  r.0,
                  λ k f.
                      second_apart (bytes_eq n k) (some i) _ _ (update k)
                        (λ t. absurd (f (at_key (view hash s.index) n k gone t))) (r.1 k f),
                  row,
                ),
                λ k.
                    change_second (bytes_eq n k) (some i) _ _ _ (update k)
                      (at_key (view hash s.index) n k gone),
              )
        | inr b ↦
            let (seg, update) = add_lem over xxh3 hash wide s n i r.0 gone (room s b) in
            rw (push_in, b)
              (
                (
                  seg,
                  λ k f.
                      first_apart (bytes_eq n k) (some i) _ _ _ (update k) f
                        (at_key (row_view hash ss) n k gone_behind) (r.1 k),
                  r.2,
                ),
                λ k.
                    change_first (bytes_eq n k) (some i) _ _ _ (update k)
                      (at_key (row_view hash ss) n k gone_behind),
              )
      ]

  pub delete_in_lem :
      (n : List ℕ) (ss : List Segment)
      → IsRow ss
      → IsRow (delete_in over xxh3 hash ss (hash n) n).0
        × ((delete_in over xxh3 hash ss (hash n) n).1 ≡ is_some (row_view hash ss n))
        × ((k : List ℕ)
            → row_view hash (delete_in over xxh3 hash ss (hash n) n).0 k
              ≡ (if bytes_eq n k then none else row_view hash ss k))
  unfolding delete_in
  delete_in_lem n [] r = (tt, refl, λ k. sym (same_if (bytes_eq n k) none (λ t. refl)))
  delete_in_lem n (s ∷ ss) r =
      let (seg, said, update) = remove_lem over xxh3 hash wide s n r.0 in
      let (row, said_behind, update_behind) = delete_in_lem n ss r.2 in
      elim (Option-cases (view hash s.index n)) [
        | inl gone ↦
            let same : (k : List ℕ)
                → view hash (Segment.remove over xxh3 s (hash n) n).0.index k
                  ≡ view hash s.index k =
              λ k.
                update k
                ∙ same_if (bytes_eq n k) (view hash s.index k)
                    (at_key (view hash s.index) n k gone) in
            let no : (Segment.remove over xxh3 s (hash n) n).1 ≡ false = said ∙ rw gone refl in
            rw (delete_in, no)
              (
                (
                  seg,
                  λ k f.
                      second_apart (bytes_eq n k) none _ _ (update_behind k) (λ t. refl)
                        (r.1 k (λ z. f (same k ∙ z))),
                  row,
                ),
                rw gone said_behind,
                λ k. rw (same k) (
                    change_second (bytes_eq n k) none _ _ _ (update_behind k)
                      (at_key (view hash s.index) n k gone)),
              )
        | inr (i, here) ↦
            let yes : (Segment.remove over xxh3 s (hash n) n).1 ≡ true = said ∙ rw here refl in
            let behind : row_view hash ss n ≡ none = r.1 n (rw here (λ q. cc)) in
            rw (delete_in, yes)
              (
                (
                  seg,
                  λ k f.
                      first_apart (bytes_eq n k) none _ _ _ (update k) f
                        (at_key (row_view hash ss) n k behind) (r.1 k),
                  r.2,
                ),
                rw here refl,
                λ k.
                    change_first (bytes_eq n k) none _ _ _ (update k)
                      (at_key (row_view hash ss) n k behind),
              )
      ]

  -- The pairs of a row are its map, each name once, and as many as the counts say.
  pub entries_of_lem :
      (ss : List Segment)
      → IsRow ss
      → ((n : List ℕ) → lookup n (entries_of ss) ≡ row_view hash ss n)
        × NoRepeat (entries_of ss)
        × (length (entries_of ss) ≡ len_of ss)
  unfolding entries_of len_of
  entries_of_lem [] r = (λ n. nil_lookup n, tt, refl)
  entries_of_lem (s ∷ ss) r =
      let (here, once) = seg_entries_lem hash s.index r.0.indexed in
      let (behind, once_behind, counted) = entries_of_lem ss r.2 in
      (
        λ n. elim (Option-cases (view hash s.index n)) [
          | inl e ↦ rw e (append_absent n _ _ (here n ∙ e) ∙ behind n)
          | inr (i, e) ↦ rw e (append_found n _ _ i (here n ∙ e))
        ],
        append-NoRepeat (seg_entries s.index) (entries_of ss) once once_behind
            (λ n f. behind n ∙ r.1 n (λ z. f (here n ∙ z))),
        omega (arith, r.0.counted, counted, length-append (seg_entries s.index) (entries_of ss)),
      )
