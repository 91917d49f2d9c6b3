-- ===== src/Dir/Bounds.antt =====
-- rust/bloomfs-dir/src/lib.rs: the number of names in a segment.
use bloomfs.Base.{
  ℕ, ◌+◌, ◌*◌, ◌/◌, ◌≤◌, ◌≡◌, refl, Bool, is_some, List, [], ◌∷◌, leb, length, All, Bool-cases,
  Option-cases, inl, inr, arith,
}
use bloomfs.Base.Assoc.{ℕ_keyed, lookup}
use bloomfs.Bloom.{at_least_one}
use bloomfs.Segment.{
  InodeId, Chain, Segment, full, position, rebuild_filter, rebuild_threshold, remove_at,
}
use bloomfs.Segment
use bloomfs.Dir.{
  Directory, with_cap, push_unique, push_in, add, delete, delete_in, len, len_of, segment_count,
  find_in,
}

-- The segment has the capacity `c` and no more names than that, or than one if `c` is zero.
abbrev pub Fits : ℕ → Segment → Type 0
Fits c s = (s.cap ≡ c) × (s.count ≤ at_least_one c)

-- All segments have the directory's capacity and keep to it.
abbrev pub IsBounded : Directory → Type 0
IsBounded d = All (Fits d.cap) d.segments

len_of_le : (c : ℕ) (ss : List Segment) → All (Fits c) ss → len_of ss ≤ length ss * at_least_one c
unfolding len_of
len_of_le c [] a = omega arith
len_of_le c (s ∷ ss) a = omega (arith, a.0.1, len_of_le c ss a.1)

module _ (over : ℕ → ℕ → ℕ → ℕ → Bool) (xxh3 : List ℕ → ℕ → ℕ) (xxh3_64 : List ℕ → ℕ) where
  push_in-Fits :
      (c fp h : ℕ) (n : List ℕ) (i : InodeId) (ss : List Segment)
      → All (Fits c) ss
      → All (Fits c) (push_in over xxh3 xxh3_64 c fp h n i ss)
  unfolding push_in full Segment.add Segment.new at_least_one
  push_in-Fits c fp h n i [] a = ((refl, ground arith), tt)
  push_in-Fits c fp h n i (s ∷ ss) a = elim (Bool-cases (full s)) [
    | inl b ↦ rw (push_in, b) (a.0, push_in-Fits c fp h n i ss a.1)
    | inr b ↦ rw (push_in, b) ((a.0.0, ground arith), a.1)
  ]

  remove_at-Fits :
      (c h p : ℕ) (ch : Chain) (s : Segment) → Fits c s → Fits c (remove_at over xxh3 s h ch p)
  unfolding remove_at rebuild_filter rebuild_threshold
  remove_at-Fits c h p ch s a = elim (Bool-cases (leb (at_least_one (s.cap / 4)) (s.tomb + 1))) [
    | inl b ↦ rw (remove_at, b) (a.0, omega (arith, a.1))
    | inr b ↦ rw (remove_at, b) (a.0, omega (arith, a.1))
  ]

  remove-Fits :
      (c h : ℕ) (n : List ℕ) (s : Segment) → Fits c s → Fits c (Segment.remove over xxh3 s h n).0
  unfolding Segment.remove
  remove-Fits c h n s a = elim (Option-cases (lookup h s.index)) [
    | inl e ↦ rw (Segment.remove, e) a
    | inr (ch, e) ↦ elim (Option-cases (position n ch)) [
      | inl q ↦ rw (Segment.remove, e, q) a
      | inr (p, q) ↦ rw (Segment.remove, e, q) (remove_at-Fits c h p ch s a)
    ]
  ]

  delete_in-Fits :
      (c h : ℕ) (n : List ℕ) (ss : List Segment)
      → All (Fits c) ss
      → All (Fits c) (delete_in over xxh3 xxh3_64 ss h n).0
  unfolding delete_in
  delete_in-Fits c h n [] a = tt
  delete_in-Fits c h n (s ∷ ss) a =
      let here = remove-Fits c h n s a.0 in
      elim (Bool-cases (Segment.remove over xxh3 s h n).1) [
        | inl b ↦ rw (delete_in, b) (here, a.1)
        | inr b ↦ rw (delete_in, b) (here, delete_in-Fits c h n ss a.1)
      ]

  -- A new directory keeps to its capacity, and add, push_unique and delete preserve that: every segment
  -- has the directory's capacity and at most as many names, or one if the capacity is zero. So the
  -- directory has at most that many names for each of its segments.
  pub len-IsBounded :
      (d : Directory) (n : List ℕ) (i : InodeId)
      → IsBounded d
      → IsBounded (with_cap over xxh3 xxh3_64 d.cap d.fp)
        × IsBounded (add over xxh3 xxh3_64 d n i).0
        × IsBounded (push_unique over xxh3 xxh3_64 d n i)
        × IsBounded (delete over xxh3 xxh3_64 d n).0
        × (len d ≤ segment_count d * at_least_one d.cap)
  unfolding with_cap add push_unique delete len segment_count Segment.new
  len-IsBounded d n i a =
      let pushed = push_in-Fits d.cap d.fp (xxh3_64 n) n i d.segments a in
      (
        ((refl, omega arith), tt),
        elim (Bool-cases (is_some (find_in over xxh3 xxh3_64 d.segments (xxh3_64 n) n))) [
          | inl b ↦ rw (add, b) a
          | inr b ↦ rw (add, b) pushed
        ],
        pushed,
        delete_in-Fits d.cap (xxh3_64 n) n d.segments a,
        len_of_le d.cap d.segments a,
      )
