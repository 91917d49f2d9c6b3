-- ===== src/Segment.antt =====
-- rust/bloomfs-dir/src/lib.rs: `Segment`, one part of a directory: a hash index from the hash of a name to
-- the chain of the entries with that hash, behind a Bloom filter of the names.
pub mod Chains
pub mod Index
pub mod Update
pub mod Filter
pub mod Laws
use bloomfs.Base.{
  ℕ, zero, suc, ◌+◌, ◌-◌, ◌/◌, Bool, true, false, Option, none, some, List, [], ◌∷◌, ◌++◌, ltb, leb,
  if◌then◌else◌,
}
use bloomfs.Base.Assoc.{Keyed, ℕ_keyed, bytes_keyed, bytes_eq}
use bloomfs.Base.Assoc
use bloomfs.Bloom.{BlockedFilter, at_least_one, new_blocked_tuned, test}
use bloomfs.Bloom

abbrev pub InodeId : Type 0
InodeId = ℕ

-- A name, as its bytes, with its inode. A chain is a small map, searched from the front.
abbrev pub DirEntry : Type 0
DirEntry = List ℕ × InodeId

abbrev pub Chain : Type 0
Chain = List DirEntry

-- `fp` is an f64, held as its bits.
pub record Segment : Type 0 where
  pub filter : BlockedFilter
  pub index : List (ℕ × Chain)
  pub count : ℕ
  pub cap : ℕ
  pub fp : ℕ
  pub tomb : ℕ

unfoldable pub full : Segment → Bool
full s = leb s.cap s.count

-- `entry(h).or_default()`
unfoldable pub chain_at : ℕ → List (ℕ × Chain) → Chain
chain_at h index = elim (Assoc.lookup h index) [ some c ↦ c | none ↦ [] ]

-- `iter().position(|e| e.name == name)`
unfoldable pub position : List ℕ → Chain → Option ℕ
position name [] = none
position name ((n, i) ∷ c) =
    let rest = position name c in
    if bytes_eq n name then some 0 else (elim rest [ some p ↦ some (suc p) | none ↦ none ])

-- The last element goes to the front.
unfoldable pub last_first {ℓ} : {A : Type ℓ} → List A → List A
last_first [] = []
last_first (x ∷ xs) = elim (last_first xs) [ [] ↦ x ∷ [] | y ∷ ys ↦ y ∷ x ∷ ys ]

-- `Vec::swap_remove`: the last element takes the place of the removed one.
unfoldable pub swap_remove {ℓ} : {A : Type ℓ} → List A → ℕ → List A
swap_remove [] p = []
swap_remove (x ∷ xs) zero = last_first xs
swap_remove (x ∷ xs) (suc p) = x ∷ swap_remove xs p

abbrev pub is_nil {ℓ} : {A : Type ℓ} → List A → Bool
is_nil [] = true
is_nil (x ∷ xs) = false

-- The index without the entry at `pos` of the chain `c` under `h`.
unfoldable pub without : ℕ → Chain → ℕ → List (ℕ × Chain) → List (ℕ × Chain)
without h c pos index =
    let left = swap_remove c pos in
    if is_nil left then Assoc.remove h index else Assoc.insert h left index

unfoldable pub rebuild_threshold : Segment → ℕ
rebuild_threshold s = at_least_one (s.cap / 4)

-- The filter for `n` items at the rate `fp`, by the estimate `over`, and the hash `xxh3` of the filter.
module _ (over : ℕ → ℕ → ℕ → ℕ → Bool) (xxh3 : List ℕ → ℕ → ℕ) where
  unfoldable pub new : ℕ → ℕ → Segment
  new capacity fp = record {
    filter = new_blocked_tuned (over fp) capacity;
    index = [];
    count = 0;
    cap = capacity;
    fp = fp;
    tomb = 0;
  }

  unfoldable pub add : Segment → ℕ → List ℕ → InodeId → Segment
  add s h name inode = record s {
    filter = Bloom.add xxh3 s.filter name;
    index = Assoc.insert h (chain_at h s.index ++ ((name, inode) ∷ [])) s.index;
    count = s.count + 1;
  }

  unfoldable pub find : Segment → ℕ → List ℕ → Option InodeId
  find s h name = elim (test xxh3 s.filter name) [
    | false ↦ none
    | true ↦ elim (Assoc.lookup h s.index) [ some c ↦ Assoc.lookup name c | none ↦ none ]
  ]

  unfoldable pub add_chain : Chain → BlockedFilter → BlockedFilter
  add_chain [] f = f
  add_chain ((n, i) ∷ c) f = add_chain c (Bloom.add xxh3 f n)

  unfoldable pub add_index : List (ℕ × Chain) → BlockedFilter → BlockedFilter
  add_index [] f = f
  add_index ((h, c) ∷ m) f = add_index m (add_chain c f)

  unfoldable pub rebuild_filter : Segment → Segment
  rebuild_filter s = record s {
    tomb = 0;
    filter = add_index s.index (new_blocked_tuned (over s.fp) s.cap);
  }

  -- `remove` once the entry is found. The count is positive there; a count of 0 would wrap or panic.
  unfoldable pub remove_at : Segment → ℕ → Chain → ℕ → Segment
  remove_at s h c pos =
      let s' : Segment = record s {
        index = without h c pos s.index;
        count = s.count - 1;
        tomb = s.tomb + 1;
      } in
      if leb (rebuild_threshold s') (s.tomb + 1) then rebuild_filter s' else s'

  unfoldable pub remove : Segment → ℕ → List ℕ → Segment × Bool
  remove s h name = elim (Assoc.lookup h s.index) [
    | none ↦ (s, false)
    | some c ↦ elim (position name c) [ none ↦ (s, false) | some pos ↦ (remove_at s h c pos, true) ]
  ]

-- The pairs of the index, in the order of iteration.
unfoldable pub seg_entries : List (ℕ × Chain) → List DirEntry
seg_entries [] = []
seg_entries ((h, c) ∷ m) = c ++ seg_entries m
