-- ===== src/Dir.antt =====
-- rust/bloomfs-dir/src/lib.rs: `Directory`, a row of segments. `name_hash` is the parameter `xxh3_64`, and
-- the estimate `over` and the hash `xxh3` are those of the filters.
pub mod Row
pub mod Names
pub mod Bounds
mod Examples
use bloomfs.Base.{
  ℕ, ◌+◌, Bool, true, false, not, Option, is_some, none, some, List, [], ◌∷◌, ◌++◌, ◌==◌, map,
  length, if◌then◌else◌,
}
use bloomfs.Segment.{InodeId, DirEntry, Segment, full, seg_entries}
use bloomfs.Segment

pub record Directory : Type 0 where
  pub segments : List Segment
  pub cap : ℕ
  pub fp : ℕ

abbrev pub max_files_per_segment : ℕ
max_files_per_segment = 4000

-- 0.01 as an f64
abbrev pub bloom_fp : ℕ
bloom_fp = 4576918229304087675

unfoldable pub len_of : List Segment → ℕ
len_of [] = 0
len_of (s ∷ ss) = s.count + len_of ss

unfoldable pub len : Directory → ℕ
len d = len_of d.segments

unfoldable pub is_empty : Directory → Bool
is_empty d = len d == 0

unfoldable pub segment_count : Directory → ℕ
segment_count d = length d.segments

unfoldable pub entries_of : List Segment → List DirEntry
entries_of [] = []
entries_of (s ∷ ss) = seg_entries s.index ++ entries_of ss

unfoldable pub entries : Directory → List DirEntry
entries d = entries_of d.segments

unfoldable pub list : Directory → List (List ℕ)
list d = map (λ e. e.0) (entries d)

module _ (over : ℕ → ℕ → ℕ → ℕ → Bool) (xxh3 : List ℕ → ℕ → ℕ) (xxh3_64 : List ℕ → ℕ) where
  unfoldable pub with_cap : ℕ → ℕ → Directory
  with_cap capacity fp = record {
    segments = Segment.new over xxh3 capacity fp ∷ [];
    cap = capacity;
    fp = fp;
  }

  unfoldable pub new : Directory
  new = with_cap max_files_per_segment bloom_fp

  unfoldable pub find_in : List Segment → ℕ → List ℕ → Option InodeId
  find_in [] h name = none
  find_in (s ∷ ss) h name = elim (Segment.find over xxh3 s h name) [
    | some i ↦ some i
    | none ↦ find_in ss h name
  ]

  unfoldable pub find : Directory → List ℕ → Option InodeId
  find d name = find_in d.segments (xxh3_64 name) name

  -- The entry goes to the first segment that is not full, or to a new one behind all.
  unfoldable pub push_in : ℕ → ℕ → ℕ → List ℕ → InodeId → List Segment → List Segment
  push_in capacity fp h name inode [] =
      Segment.add over xxh3 (Segment.new over xxh3 capacity fp) h name inode ∷ []
  push_in capacity fp h name inode (s ∷ ss) =
      let rest = push_in capacity fp h name inode ss in
      if not (full s) then Segment.add over xxh3 s h name inode ∷ ss else s ∷ rest

  unfoldable pub push_unique : Directory → List ℕ → InodeId → Directory
  push_unique d name inode = record d {
    segments = push_in d.cap d.fp (xxh3_64 name) name inode d.segments;
  }

  -- The first loop of `add` is that of `find`.
  unfoldable pub add : Directory → List ℕ → InodeId → Directory × Bool
  add d name inode =
      if is_some (find_in d.segments (xxh3_64 name) name)
      then (d, false)
      else (push_unique d name inode, true)

  unfoldable pub delete_in : List Segment → ℕ → List ℕ → List Segment × Bool
  delete_in [] h name = ([], false)
  delete_in (s ∷ ss) h name =
      let here = Segment.remove over xxh3 s h name in
      let rest = delete_in ss h name in
      if here.1 then (here.0 ∷ ss, true) else (here.0 ∷ rest.0, rest.1)

  unfoldable pub delete : Directory → List ℕ → Directory × Bool
  delete d name =
      let r = delete_in d.segments (xxh3_64 name) name in (record d { segments = r.0 }, r.1)
