-- ===== src/Inode/Extents.antt =====
-- rust/bloomfs-inode/src/lib.rs: the extents in the inline block map.
use bloomfs.Base.{
  ℕ, zero, suc, ◌+◌, ◌-◌, ◌*◌, ◌^◌, ◌≤◌, ◌<◌, ◌≡◌, refl, ap, sym, subst, ◌∙◌, false, List, [], ◌∷◌,
  ◌++◌, length, drop, slice, replicate, All, Result, ok, err, arith, ltb, ltb→lt, ◌==◌,
  if◌then◌else◌, Bool-cases, inl, inr, length-append, length-replicate, replicate-append,
  slice_behind, drop-append, append_assoc, to_le, from_le, from_le-to_le,
}
use Prim.Native.Nat.{bit_or}
use bloomfs.Base.Fields.{Contiguous, contents, copy_fields, copy_fields-contents}
use bloomfs.Inode.{
  Inode, Error, Extent, too_many_extents, extent_fields, set_extents, read_extents, extents,
}

-- A run of at least one block whose fields fit their words.
pub record IsStorable (e : Extent) : Type 0 where
  pub start : e.start < 2 ^ 64
  pub some_blocks : 0 < e.blocks
  pub blocks : e.blocks < 2 ^ 32
  pub logical : e.logical < 2 ^ 32

extent-Contiguous : (off : ℕ) (es : List Extent) → Contiguous off (extent_fields off es)
unfolding extent_fields to_le
extent-Contiguous off [] = tt
extent-Contiguous off (e ∷ es) =
    let next : off + 12 + 4 ≡ off + 16 = omega arith in
    (
      refl,
      (
        refl,
        (
          omega arith,
          subst (λ (n : ℕ). Contiguous n (extent_fields (off + 16) es)) (sym next)
              (extent-Contiguous (off + 16) es),
        ),
      ),
    )

length-extents :
    (off : ℕ) (es : List Extent) → length (contents (extent_fields off es)) ≡ length es * 16
unfolding extent_fields contents to_le
length-extents off [] = omega arith
length-extents off (e ∷ es) = omega (arith, length-extents (off + 16) es)

abbrev one_extent : Extent → List ℕ
one_extent e = to_le 8 e.start ++ (to_le 4 e.blocks ++ to_le 4 e.logical)

module _ (e : Extent) where
  split_extent :
      (es : List Extent) (off : ℕ) (back : List ℕ)
      → contents (extent_fields off (e ∷ es)) ++ back
        ≡ one_extent e ++ (contents (extent_fields (off + 16) es) ++ back)
  unfolding extent_fields contents to_le
  split_extent es off back = refl

  length_here : length (one_extent e) ≡ 16
  unfolding to_le
  length_here = refl

  module _ (rest : List ℕ) (w : IsStorable e) where
    here_start : from_le (slice (one_extent e ++ rest) 0 8) ≡ e.start
    unfolding to_le
    here_start = from_le-to_le 8 e.start w.start

    here_blocks : from_le (slice (one_extent e ++ rest) 8 4) ≡ e.blocks
    unfolding to_le
    here_blocks = from_le-to_le 4 e.blocks w.blocks

    here_logical : from_le (slice (one_extent e ++ rest) 12 4) ≡ e.logical
    unfolding to_le
    here_logical = from_le-to_le 4 e.logical w.logical

-- One round of the loop, by what it reads.
read_step :
    (rounds at : ℕ) (buf : List ℕ) (e : Extent)
    → from_le (slice buf at 8) ≡ e.start
    → from_le (slice buf (at + 8) 4) ≡ e.blocks
    → from_le (slice buf (at + 12) 4) ≡ e.logical
    → read_extents (suc rounds) at buf
      ≡ (if e.blocks == 0 then [] else e ∷ read_extents rounds (at + 16) buf)
unfolding read_extents
read_step rounds at buf e p q r = ground (arith, p, q, r)

-- Zeros end the list.
read_zeros :
    (rounds at : ℕ) (front : List ℕ) (n : ℕ)
    → at ≡ length front
    → rounds ≤ n
    → read_extents rounds at (front ++ replicate (n * 16) 0) ≡ []
read_zeros zero at front n h l = unfold read_extents in refl
read_zeros (suc rounds) at front zero h l = absurd (omega arith)
read_zeros (suc rounds) at front (suc n) h l =
    let zeros : List ℕ = replicate 16 0 ++ replicate (n * 16) 0 in
    let read = λ (a i k : ℕ) (q : a ≡ at + i).
      ap from_le (slice_behind front zeros a k i k (omega arith) refl) in
    ap (λ t. read_extents (suc rounds) at (front ++ t))
      (replicate-append 16 (n * 16) (suc n * 16) 0 (omega arith))
    ∙ read_step rounds at (front ++ zeros) (record { start = 0; blocks = 0; logical = 0 })
        (unfold from_le in read at 0 8 (omega arith)) (unfold from_le in read (at + 8) 8 4 refl)
        (unfold from_le in read (at + 12) 12 4 refl)

-- Extents that stand behind `front`, before zeros.
read-extents :
    (es : List Extent) (rounds at off n : ℕ) (front : List ℕ)
    → All IsStorable es
    → at ≡ length front
    → length es + n ≡ rounds
    → read_extents rounds at (front ++ (contents (extent_fields off es) ++ replicate (n * 16) 0))
      ≡ es
read-extents [] rounds at off n front w h r =
    unfold extent_fields contents in read_zeros rounds at front n h (omega arith)
read-extents (e ∷ es) zero at off n front w h r = absurd (omega arith)
read-extents (e ∷ es) (suc rounds) at off n front w h r =
    let here : List ℕ = to_le 8 e.start ++ (to_le 4 e.blocks ++ to_le 4 e.logical) in
    let rest : List ℕ = contents (extent_fields (off + 16) es) ++ replicate (n * 16) 0 in
    let split : contents (extent_fields off (e ∷ es)) ++ replicate (n * 16) 0 ≡ here ++ rest =
      split_extent e es off (replicate (n * 16) 0) in
    let read = λ (a i k : ℕ) (q : a ≡ at + i).
      ap from_le (slice_behind front (here ++ rest) a k i k (omega arith) refl) in
    let tested : (e.blocks == 0) ≡ false = ground (arith, w.0.some_blocks) in
    let tail =
      read-extents es rounds (at + 16) (off + 16) n (front ++ here) w.1
        (omega (arith, length-append front here, length_here e)) (omega arith) in
    ap (λ t. read_extents (suc rounds) at (front ++ t)) split
    ∙ read_step rounds at (front ++ (here ++ rest)) e
        (read at 0 8 (omega arith) ∙ here_start e rest w.0)
        (read (at + 8) 8 4 refl ∙ here_blocks e rest w.0)
        (read (at + 12) 12 4 refl ∙ here_logical e rest w.0)
    ∙ rw tested (
        ap (λ t. e ∷ read_extents rounds (at + 16) t) (sym (append_assoc front here rest))
        ∙ ap (λ t. e ∷ t) tail)

map_of :
    (es : List Extent)
    → length es ≤ 4
    → copy_fields (replicate 64 0) (extent_fields 0 es)
      ≡ contents (extent_fields 0 es) ++ replicate ((4 - length es) * 16) 0
map_of es l =
    let fs = extent_fields 0 es in
    let n : ℕ = (4 - length es) * 16 in
    let zeros : replicate {A = ℕ} 64 0 ≡ replicate (length (contents fs)) 0 ++ replicate n 0 =
      replicate-append (length (contents fs)) n 64 0 (omega (arith, length-extents 0 es)) in
    copy_fields-contents (replicate 64 0) fs (extent-Contiguous 0 es)
      (omega (arith, length-extents 0 es, length-replicate {0} 64 zero))
    ∙ ap (λ t. contents fs ++ drop (length (contents fs)) t) zeros
    ∙ ap (λ t. contents fs ++ t)
        (drop-append (replicate (length (contents fs)) 0) (replicate n 0) _
          (sym (length-replicate _ 0)))

-- What `set_extents` promises on each branch: up to four extents are read back, the map keeps its
-- length, the flag is set and every other field stays; more than four are refused.
abbrev pub Stored : Inode → List Extent → Result Error Inode → Type 0
Stored i es (ok i') =
    (length es ≤ 4)
    × (extents i' ≡ es)
    × (length i'.block_map ≡ 64)
    × (i' ≡ record i { block_map = i'.block_map; flags = bit_or i.flags 1 })
Stored i es (err e) = (e ≡ too_many_extents) × (4 < length es)

-- Any row of extents with at least one block each and fields that fit is stored in the inode and read
-- back, if there are at most four, and refused otherwise.
pub set_extents-Stored :
    (i : Inode) (es : List Extent) → All IsStorable es → Stored i es (set_extents i es)
unfolding set_extents extents
set_extents-Stored i es w = elim (Bool-cases (ltb 4 (length es))) [
  | inl many ↦ rw (many, set_extents) (refl, ltb→lt _ _ many)
  | inr few ↦
      let l : length es ≤ 4 = ground arith in
      let whole : length
            (contents (extent_fields 0 es) ++ replicate {A = ℕ} ((4 - length es) * 16) 0)
          ≡ 64 =
        omega (
          arith,
          length-append (contents (extent_fields 0 es)) (replicate ((4 - length es) * 16) 0),
          length-extents 0 es,
          length-replicate {0} ((4 - length es) * 16) zero,
        ) in
      rw (few, set_extents)
        (
          l,
          ap (read_extents 4 0) (map_of es l)
              ∙ read-extents es 4 0 0 (4 - length es) [] w refl (omega arith),
          ap length (map_of es l) ∙ whole,
          refl,
        )
]
