-- ===== src/CachedDir.antt =====
-- rust/bloomfs-fs/src/lib.rs: `CachedDir`, an open directory with the pages that it persists to, and
-- `DirCache`, which keeps at most 256 of them.
pub mod Pages
pub mod Cache
mod Examples
use bloomfs.Base.{
  ℕ, zero, suc, ◌+◌, ◌-◌, ◌≤◌, Bool, true, false, not, ◌&&◌, Option, is_some, none, some, List, [],
  ◌∷◌, ◌++◌, ltb, leb, ◌==◌, if◌then◌else◌, length, get_or, set,
}
use bloomfs.Base.Assoc.{Keyed, ℕ_keyed, bytes_keyed, bytes_eq}
use bloomfs.Base.Assoc
use bloomfs.Inode.{Inode}
use bloomfs.Segment.{InodeId, DirEntry, position}
use bloomfs.Dir.{Directory}
use bloomfs.Dir
use bloomfs.Fs.{dir_page_size}

abbrev pub dir_cache_cap : ℕ
dir_cache_cap = 256

-- `page_of` is a hash map, `dirty` a hash set.
pub record CachedDir : Type 0 where
  pub dir : Directory
  pub dir_inode : Inode
  pub pages : List (List DirEntry)
  pub used : List ℕ
  pub page_of : List (List ℕ × ℕ)
  pub dirty : List ℕ
  pub lru_tick : ℕ

unfoldable pub entry_bytes : List ℕ → ℕ
entry_bytes name = 10 + length name

-- The first page with room for `need` bytes.
unfoldable pub page_with_room : ℕ → List ℕ → Option ℕ
page_with_room need [] = none
page_with_room need (u ∷ us) =
    let rest = page_with_room need us in
    if leb (u + need) dir_page_size
    then some 0
    else (elim rest [ some p ↦ some (suc p) | none ↦ none ])

unfoldable pub mark_dirty : ℕ → List ℕ → List ℕ
mark_dirty p [] = p ∷ []
mark_dirty p (d ∷ ds) = if d == p then d ∷ ds else d ∷ mark_dirty p ds

-- The entry goes to the page `p`.
unfoldable pub put_entry : CachedDir → List ℕ → InodeId → ℕ → CachedDir
put_entry h name id p = record h {
  pages = set h.pages p (get_or h.pages p [] ++ ((name, id) ∷ []));
  used = set h.used p (get_or h.used p 0 + entry_bytes name);
  page_of = Assoc.insert name p h.page_of;
  dirty = mark_dirty p h.dirty;
}

-- The pages with one more, which holds its header only.
unfoldable pub new_page : CachedDir → CachedDir
new_page h = record h { pages = h.pages ++ ([] ∷ []); used = h.used ++ (4 ∷ []) }

unfoldable pub place_entry : CachedDir → List ℕ → InodeId → CachedDir
place_entry h name id = elim (page_with_room (entry_bytes name) h.used) [
  | some p ↦ put_entry h name id p
  | none ↦ put_entry (new_page h) name id (length h.pages)
]

-- `Vec::remove`
unfoldable pub remove_nth {ℓ} : {A : Type ℓ} → List A → ℕ → List A
remove_nth [] p = []
remove_nth (x ∷ xs) zero = xs
remove_nth (x ∷ xs) (suc p) = x ∷ remove_nth xs p

-- The page without the entry of the name, if it has one.
unfoldable pub page_without : List ℕ → List DirEntry → List DirEntry
page_without name page = elim (position name page) [ some pos ↦ remove_nth page pos | none ↦ page ]

module _ (over : ℕ → ℕ → ℕ → ℕ → Bool) (xxh3 : List ℕ → ℕ → ℕ) (xxh3_64 : List ℕ → ℕ) where
  unfoldable pub add : CachedDir → List ℕ → InodeId → CachedDir × Bool
  add h name id =
      let r = Dir.add over xxh3 xxh3_64 h.dir name id in
      if not r.1
      then (record h { dir = r.0 }, false)
      else (place_entry (record h { dir = r.0 }) name id, true)

  -- The bytes of the entry are among those of its page, so that the subtraction stays above zero.
  unfoldable pub take_entry : CachedDir → List ℕ → ℕ → CachedDir
  take_entry h name p = record h {
    dir = (Dir.delete over xxh3 xxh3_64 h.dir name).0;
    pages = set h.pages p (page_without name (get_or h.pages p []));
    used = set h.used p (get_or h.used p 0 - entry_bytes name);
    page_of = Assoc.remove name h.page_of;
    dirty = mark_dirty p h.dirty;
  }

  unfoldable pub del : CachedDir → List ℕ → CachedDir × Bool
  del h name = elim (Assoc.lookup name h.page_of) [
    | some p ↦ (take_entry h name p, true)
    | none ↦ (h, false)
  ]

pub record DirCache : Type 0 where
  pub entries : List (ℕ × CachedDir)
  pub tick : ℕ

unfoldable pub new : DirCache
new = record { entries = []; tick = 0 }

-- `get_mut`, with the tick written.
unfoldable pub set_tick : ℕ → ℕ → List (ℕ × CachedDir) → List (ℕ × CachedDir)
set_tick id tick [] = []
set_tick id tick ((k, v) ∷ m) =
    if k == id then (k, record v { lru_tick = tick }) ∷ m else (k, v) ∷ set_tick id tick m

unfoldable pub touch : DirCache → ℕ → DirCache
touch c id = record { entries = set_tick id (c.tick + 1) c.entries; tick = c.tick + 1 }

-- `min_by_key`: the first of the entries with the least tick, `k` with `t` being the best so far.
unfoldable pub oldest : ℕ → ℕ → List (ℕ × CachedDir) → ℕ
oldest k t [] = k
oldest k t ((j, v) ∷ m) = if ltb v.lru_tick t then oldest j v.lru_tick m else oldest k t m

unfoldable pub evicted : List (ℕ × CachedDir) → List (ℕ × CachedDir)
evicted [] = []
evicted ((k, v) ∷ m) = Assoc.remove (oldest k v.lru_tick m) ((k, v) ∷ m)

unfoldable pub insert : DirCache → ℕ → CachedDir → DirCache
insert c id entry =
    let kept =
      if leb dir_cache_cap (length c.entries) && not (is_some (Assoc.lookup id c.entries))
      then evicted c.entries
      else c.entries in
    record {
      entries = Assoc.insert id (record entry { lru_tick = c.tick + 1 }) kept;
      tick = c.tick + 1;
    }
