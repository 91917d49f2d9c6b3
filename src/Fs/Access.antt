-- ===== src/Fs/Access.antt =====
-- rust/bloomfs-fs/src/lib.rs: the check of access.
use bloomfs.Base.{
  ℕ, ◌+◌, ◌*◌, ◌/◌, ◌%◌, ◌^◌, Bool, not, ltb, ap, ◌&&◌, ◌||◌, ◌==◌, if◌then◌else◌, Bool-cases, ◌≤◌,
  ◌<◌, ◌≡◌, refl, ◌∙◌, true, false, List, leb, length, ok, err, inl, inr, arith, get_or,
}
use Prim.Native.Nat.{bit_and}
use bloomfs.Inode.{Inode, out_of_range, default, type_dir}
use bloomfs.Inode.Table.{Table, cap, get}
use bloomfs.Base.Bits.{bit, test-bit, and_step, and_double, and_double_one, and-zero, and-le}
use bloomfs.Fs.{contains, class_shift, inode, permission, check_access, access}

access_absent :
    (t : Table) (id mask uid gid : ℕ) (gids : List ℕ)
    → length t.inodes ≤ id
    → access t id mask uid gid gids ≡ err (inode out_of_range)
unfolding access get
access_absent t id mask uid gid gids l =
    let b : leb (length t.inodes) id ≡ true = ground arith in rw (access, get, b) refl

access_present :
    (t : Table) (id mask uid gid : ℕ) (gids : List ℕ)
    → id < length t.inodes
    → access t id mask uid gid gids ≡ check_access (get_or t.inodes id default) mask uid gid gids
unfolding access get
access_present t id mask uid gid gids l =
    let b : leb (length t.inodes) id ≡ false = ground arith in rw (access, get, b) refl

-- Masks of ones cut a word.
and_seven : (w : ℕ) → bit_and w 7 ≡ w % 8
and_seven w = omega (
  arith,
  and_double_one w 3,
  and_double_one (w / 2) 1,
  and_double_one (w / 2 / 2) 0,
  and-zero (w / 2 / 2 / 2) (w / 2 / 2 / 2) (omega arith),
)

and_511 : (w : ℕ) → bit_and w 511 ≡ w % 512
and_511 w = omega (
  arith,
  and_double_one w 255,
  and_double_one (w / 2) 127,
  and_double_one (w / 2 / 2) 63,
  and_double_one (w / 2 / 2 / 2) 31,
  and_double_one (w / 2 / 2 / 2 / 2) 15,
  and_double_one (w / 2 / 2 / 2 / 2 / 2) 7,
  and_seven (w / 2 / 2 / 2 / 2 / 2 / 2),
)

-- The three bits of execution.
any_executes : (w : ℕ) → (bit_and w 73 == 0) ≡ not (bit w 0 || bit w 3 || bit w 6)
unfolding bit
any_executes w = ground (
  arith,
  and_double_one w 36,
  and_double (w / 2) 18,
  and_double (w / 2 / 2) 9,
  and_double_one (w / 2 / 2 / 2) 4,
  and_double (w / 2 / 2 / 2 / 2) 2,
  and_double (w / 2 / 2 / 2 / 2 / 2) 1,
  and_double_one (w / 2 / 2 / 2 / 2 / 2 / 2) 0,
  and-zero (w / 2 / 2 / 2 / 2 / 2 / 2 / 2) (w / 2 / 2 / 2 / 2 / 2 / 2 / 2) (omega arith),
)

-- Each of the three bits of the mask is one of the word's, from a position on.
abbrev pub lets : ℕ → ℕ → ℕ → Bool
lets mode at mask =
    (not (bit mask 0) || bit mode at)
    && (not (bit mask 1) || bit mode (at + 1))
    && (not (bit mask 2) || bit mode (at + 2))

among : (mask w : ℕ) → mask < 8 → (bit_and mask w == mask) ≡ lets w 0 mask
unfolding bit
among mask w h = ground (
  arith,
  and_step mask w,
  and_step (mask / 2) (w / 2),
  and_step (mask / 2 / 2) (w / 2 / 2),
  and-le (mask / 2 / 2 / 2) (mask / 2 / 2 / 2) (w / 2 / 2 / 2) (omega arith),
)

-- Which of the three triples of bits holds for a caller: that of the owner, of the group, of the others.
abbrev pub class_of : Inode → ℕ → ℕ → List ℕ → ℕ
class_of i uid gid gids =
    if uid == i.uid then 2 else (if gid == i.gid || contains gids i.gid then 1 else 0)

-- Root needs a bit of execution only, for what is not a directory; all others need each requested bit in
-- the triple of their class.
abbrev pub permitted : Inode → ℕ → ℕ → ℕ → List ℕ → Bool
permitted i mask uid gid gids =
    if uid == 0
    then not (bit mask 0) || (i.kind == type_dir) || bit i.mode 0 || bit i.mode 3 || bit i.mode 6
    else lets i.mode (3 * class_of i uid gid gids) mask

-- The triple at a position, after the two masks.
abbrev digits : ℕ → ℕ → ℕ
digits mode k = bit_and (bit_and mode 511 / 2 ^ k) 7

others_triple : (mode mask : ℕ) → lets (digits mode 0) 0 mask ≡ lets mode 0 mask
unfolding bit
others_triple mode mask =
    let e = and_seven (bit_and mode 511 / 1) ∙ ap (λ (p : ℕ). p / 1 % 8) (and_511 mode) in
    ground (arith, e)

group_triple : (mode mask : ℕ) → lets (digits mode 3) 0 mask ≡ lets mode 3 mask
unfolding bit
group_triple mode mask =
    let e = and_seven (bit_and mode 511 / 8) ∙ ap (λ (p : ℕ). p / 8 % 8) (and_511 mode) in
    ground (arith, e)

owner_triple : (mode mask : ℕ) → lets (digits mode 6) 0 mask ≡ lets mode 6 mask
unfolding bit
owner_triple mode mask =
    let e = and_seven (bit_and mode 511 / 64) ∙ ap (λ (p : ℕ). p / 64 % 8) (and_511 mode) in
    ground (arith, e)

class_triple :
    (i : Inode) (mask uid gid : ℕ) (gids : List ℕ)
    → lets (digits i.mode (class_shift i uid gid gids)) 0 mask
      ≡ lets i.mode (3 * class_of i uid gid gids) mask
unfolding class_shift
class_triple i mask uid gid gids = elim (Bool-cases (uid == i.uid)) [
  | inl o ↦ rw o (owner_triple i.mode mask)
  | inr o ↦ elim (Bool-cases (gid == i.gid || contains gids i.gid)) [
    | inl g ↦ rw (o, g) (group_triple i.mode mask)
    | inr g ↦ rw (o, g) (others_triple i.mode mask)
  ]
]

-- The bits of execution that the first mask leaves.
executes :
    (mode : ℕ) → (bit_and (bit_and mode 511) 73 == 0) ≡ not (bit mode 0 || bit mode 3 || bit mode 6)
unfolding bit
executes mode = ground (arith, any_executes (bit_and mode 511), and_511 mode)

wants : (mask : ℕ) → (bit_and mask 1 == 0) ≡ not (bit mask 0)
wants mask = ground (arith, test-bit mask 0)

asks_nothing :
    (mask : ℕ)
    → (mask == 0) ≡ true
    → (bit mask 0 ≡ false) × (bit mask 1 ≡ false) × (bit mask 2 ≡ false)
unfolding bit
asks_nothing mask e = (ground (arith, e), ground (arith, e), ground (arith, e))

check_access_lem :
    (i : Inode) (mask uid gid : ℕ) (gids : List ℕ)
    → mask < 8
    → check_access i mask uid gid gids
      ≡ (if permitted i mask uid gid gids then ok tt else err permission)
unfolding check_access
check_access_lem i mask uid gid gids h = elim (Bool-cases (mask == 0)) [
  | inl none_asked ↦ ground (arith, none_asked, asks_nothing mask none_asked)
  | inr some_asked ↦ elim (Bool-cases (uid == 0)) [
    | inl root ↦ rw (some_asked, root, wants mask, executes i.mode) (ground arith)
    | inr user ↦
        rw
          (
            some_asked,
            user,
            among mask (digits i.mode (class_shift i uid gid gids)) h,
            class_triple i mask uid gid gids,
          )
          (ground arith)
  ]
]

-- For a mask of the three bits, access says of a number past the table that it is out of range.
-- Below it, it grants exactly what the mode permits, and refuses all else for want of permission:
-- root everything but the execution of what is neither a directory nor has a bit of execution, any
-- other caller where each requested bit is in the triple of its class: the owner's, else the
-- group's (also by a further group), else that of the others.
pub access_lem :
    (t : Table) (id mask uid gid : ℕ) (gids : List ℕ)
    → mask < 8
    → access t id mask uid gid gids ≡ (
        if ltb id (cap t)
        then (if permitted (get_or t.inodes id default) mask uid gid gids
            then ok tt
            else err permission)
        else err (inode out_of_range))
unfolding cap
access_lem t id mask uid gid gids h = elim (Bool-cases (ltb id (length t.inodes))) [
  | inl l ↦ rw l (
      access_present t id mask uid gid gids (ground arith)
      ∙ check_access_lem (get_or t.inodes id default) mask uid gid gids h)
  | inr l ↦ rw l (access_absent t id mask uid gid gids (ground arith))
]
