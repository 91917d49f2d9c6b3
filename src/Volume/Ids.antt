-- ===== src/Volume/Ids.antt =====
-- rust/bloomfs-fs/src/lib.rs: which numbers of inodes are handed out.
use bloomfs.Base.{
  ℕ, zero, suc, ◌+◌, ◌≤◌, ◌<◌, ◌≡◌, refl, ap, sym, subst, ◌∙◌, true, false, ◌&&◌, List, [], ◌∷◌,
  ltb, leb, ◌==◌, if◌then◌else◌, length, get_or, Result, ok, err, Bool-cases, inl, inr, ◌⊎◌, arith,
  leb→le, ==_iff,
}
use bloomfs.Block.{Device}
use bloomfs.Inode.{Inode}
use bloomfs.Inode
use bloomfs.Inode.Table.{Table, get, cap}
use bloomfs.Fs.{Error, no_inodes}
use bloomfs.Volume.{Volume, scan_free, rebuild_free_inodes, alloc_inode}

-- How often a number stands in a list.
unfoldable pub times : ℕ → List ℕ → ℕ
times id [] = 0
times id (j ∷ js) = (if j == id then 1 else 0) + times id js

unfoldable pub link_count : Table → ℕ → ℕ
link_count t id = (get_or t.inodes id Inode.default).nlink

-- The stack after the slot `from`.
with_slot : Table → ℕ → List ℕ → List ℕ
with_slot t from free = if link_count t from == 0 then from ∷ free else free

scan_free_step :
    (t : Table) (n from : ℕ) (free : List ℕ)
    → from < length t.inodes
    → scan_free t (suc n) from free ≡ scan_free t n (from + 1) (with_slot t from free)
unfolding scan_free link_count get with_slot
scan_free_step t n from free h =
    let inside : leb (length t.inodes) from ≡ false = ground arith in
    rw (inside, scan_free, get) refl

times-with_slot :
    (t : Table) (from id : ℕ) (free : List ℕ)
    → times id (with_slot t from free)
      ≡ times id free + (if from == id && (link_count t id == 0) then 1 else 0)
unfolding times with_slot
times-with_slot t from id free = elim (Bool-cases (from == id)) [
  | inl e ↦
      (let same : from ≡ id = (==_iff from id).0 e in
        rw (← same) (elim (Bool-cases (link_count t from == 0)) [
          | inl z ↦ rw z (ground arith)
          | inr z ↦ rw z (ground arith)
        ]))
  | inr e ↦ elim (Bool-cases (link_count t from == 0)) [
    | inl z ↦ rw (z, e) (omega (arith))
    | inr z ↦ rw (z, e) (omega (arith))
  ]
]

times-scan_free :
    (t : Table) (rounds from id : ℕ) (free : List ℕ)
    → from + rounds ≤ length t.inodes
    → times id (scan_free t rounds from free)
      ≡ times id free
        + (if leb from id && ltb id (from + rounds) && (link_count t id == 0) then 1 else 0)
unfolding scan_free
times-scan_free t zero from id free h = ground arith
times-scan_free t (suc n) from id free h =
    ap (times id) (scan_free_step t n from free (omega (arith, h)))
    ∙ ground (
      arith,
      times-scan_free t n (from + 1) id (with_slot t from free) (omega (arith, h)),
      times-with_slot t from id free,
    )

-- The stack that a mount rebuilds holds each slot below the high-water mark that has no link once, and
-- nothing else.
pub times-rebuild_free_inodes :
    (t : Table) (id : ℕ)
    → t.count ≤ length t.inodes
    → times id (rebuild_free_inodes t) ≡ (if ltb id t.count && (link_count t id == 0) then 1 else 0)
unfolding rebuild_free_inodes times cap
times-rebuild_free_inodes t id h =
    ground (arith, times-scan_free t t.count 0 id [] (omega (arith, h)))

List-cases : (xs : List ℕ) → (xs ≡ []) ⊎ ((x : ℕ) × (ys : List ℕ) × (xs ≡ x ∷ ys))
List-cases [] = inl refl
List-cases (x ∷ xs) = inr (x, xs, refl)

module _ {d : Device} where
  -- The stack holds slots below the high-water mark that have no link, each once, and no slot from the
  -- mark on has a link.
  pub record IsReusable (v : Volume d) : Type 0 where
    pub once : (id : ℕ) → times id v.free_inodes ≤ 1
    pub vacant_slot :
        (id : ℕ)
        → 1 ≤ times id v.free_inodes
        → (id < v.ub.next_inode) × (link_count v.inodes id ≡ 0)
    pub fresh : (id : ℕ) → v.ub.next_inode ≤ id → link_count v.inodes id ≡ 0
    pub within : v.ub.next_inode ≤ length v.inodes.inodes

  -- What `alloc_inode` does to a volume: the number it returns is that of a slot of the table without a
  -- link, and it is not handed out again; an error means that no slot is left.
  abbrev pub Reserved : Volume d → Volume d × Result Error ℕ → Type 0
  Reserved v (v', ok id) =
      IsReusable v'
      × (v'.inodes ≡ v.inodes)
      × (id < length v.inodes.inodes)
      × (link_count v.inodes id ≡ 0)
      × (times id v'.free_inodes ≡ 0)
      × (id < v'.ub.next_inode)
  Reserved v (v', err e) =
      (v' ≡ v) × (e ≡ no_inodes) × (v.free_inodes ≡ []) × (v.ub.next_inode ≡ length v.inodes.inodes)

  from_stack :
      (v : Volume d) (id : ℕ) (rest : List ℕ)
      → v.free_inodes ≡ id ∷ rest
      → IsReusable v
      → Reserved v (record v { free_inodes = rest }, ok id)
  unfolding times
  from_stack v id rest e h =
      let count : (j : ℕ) → times j v.free_inodes ≡ (if id == j then 1 else 0) + times j rest =
        λ j. ap (times j) e in
      let self : (id == id) ≡ true = (==_iff id id).1 refl in
      let there : times id v.free_inodes ≡ 1 + times id rest = ground (arith, count id) in
      let (below, free) = h.vacant_slot id (omega (arith, there)) in
      (
        record {
          once = λ j. ground (arith, h.once j, count j);
          vacant_slot = λ j l. h.vacant_slot j (ground (arith, l, count j));
          fresh = h.fresh;
          within = h.within;
        },
        refl,
        omega (arith, below, h.within),
        free,
        omega (arith, there, h.once id),
        below,
      )

  from_mark :
      (v : Volume d)
      → v.free_inodes ≡ []
      → v.ub.next_inode < length v.inodes.inodes
      → IsReusable v
      → Reserved v
          (record v { ub = record v.ub { next_inode = v.ub.next_inode + 1 } }, ok v.ub.next_inode)
  unfolding times
  from_mark v e l h =
      let empty : (j : ℕ) → times j v.free_inodes ≡ 0 = λ j. ap (times j) e in
      (
        record {
          once = h.once;
          vacant_slot = λ j k. absurd (omega (arith, k, empty j));
          fresh = λ j k. h.fresh j (omega (arith, k));
          within = omega (arith, l);
        },
        refl,
        l,
        h.fresh v.ub.next_inode (omega arith),
        empty v.ub.next_inode,
        omega arith,
      )

  -- Where the stack holds slots below the high-water mark without a link, each once, and no slot
  -- from the mark on has a link, a number that alloc_inode hands out is that of a slot without a
  -- link and is not handed out again; it fails only where the stack is empty and every slot was
  -- used, and then nothing changes.
  pub alloc_inode-Reserved : (v : Volume d) → IsReusable v → Reserved v (alloc_inode v)
  unfolding alloc_inode cap
  alloc_inode-Reserved v h = elim (List-cases v.free_inodes) [
    | inr (id, rest, e) ↦
        (let same : alloc_inode v ≡ (record v { free_inodes = rest }, ok id) =
            simp (e, alloc_inode) refl in
          subst (Reserved v) (sym same) (from_stack v id rest e h))
    | inl e ↦ elim (Bool-cases (leb (length v.inodes.inodes) v.ub.next_inode)) [
      | inl full ↦
          (let same : alloc_inode v ≡ (v, err no_inodes) = simp (e, full, alloc_inode) refl in
            subst (Reserved v) (sym same) (refl, refl, e, omega (arith, leb→le _ _ full, h.within)))
      | inr room ↦
          (let l : v.ub.next_inode < length v.inodes.inodes = ground arith in
            let same : alloc_inode v ≡ (
              record v { ub = record v.ub { next_inode = v.ub.next_inode + 1 } },
              ok v.ub.next_inode,
            ) =
              simp (e, room, alloc_inode) refl in
            subst (Reserved v) (sym same) (from_mark v e l h))
    ]
  ]
