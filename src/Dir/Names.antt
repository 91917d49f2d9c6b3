-- ===== src/Dir/Names.antt =====
-- rust/bloomfs-dir/src/lib.rs: a directory as a map from names to inodes.
use bloomfs.Base.{
  ℕ, ◌^◌, ◌<◌, ◌≡◌, refl, ap, sym, ◌∙◌, Bool, not, Option, is_some, none, some, List, length,
  if◌then◌else◌, Option-cases, inl, inr,
}
use bloomfs.Base.Assoc.{bytes_keyed, bytes_eq, lookup, NoRepeat}
use bloomfs.Segment.{InodeId, Segment, chain_at}
use bloomfs.Segment
use bloomfs.Segment.Laws.{new-IsSegment}
use bloomfs.Dir.{Directory, with_cap, find, push_unique, add, delete, len, len_of, entries}
use bloomfs.Dir.Row.{
  or_else, new-view, row_view, IsRow, find_in_lem, push_in_lem, delete_in_lem, entries_of_lem,
}

module _ (over : ℕ → ℕ → ℕ → ℕ → Bool) (xxh3 : List ℕ → ℕ → ℕ) (xxh3_64 : List ℕ → ℕ)
    (wide : (x : List ℕ) (seed : ℕ) → xxh3 x seed < 2 ^ 128) where
  -- Every segment is well formed, and no name stands in two of them.
  abbrev pub IsDirectory : Directory → Type 0
  IsDirectory d = IsRow over xxh3 xxh3_64 wide d.segments

  -- What the directory maps a name to, the filters set aside: the answer of the first index that has it.
  abbrev pub dir_view : Directory → List ℕ → Option InodeId
  dir_view d = row_view xxh3_64 d.segments

  -- In a well formed directory, for any filter hash of 128 bits and any estimate, find answers as
  -- the indexes alone do: the filters hide no name.
  pub find-dir_view :
      (d : Directory) (n : List ℕ) → IsDirectory d → find over xxh3 xxh3_64 d n ≡ dir_view d n
  unfolding find
  find-dir_view d n r = find_in_lem over xxh3 xxh3_64 wide d.segments n r

  -- A new directory of any capacity is well formed, has no name, one segment and the length 0.
  pub with_cap-dir_view :
      (capacity fp : ℕ)
      → IsDirectory (with_cap over xxh3 xxh3_64 capacity fp)
        × ((n : List ℕ) → find over xxh3 xxh3_64 (with_cap over xxh3 xxh3_64 capacity fp) n ≡ none)
        × (len (with_cap over xxh3 xxh3_64 capacity fp) ≡ 0)
  unfolding with_cap len len_of Segment.new
  with_cap-dir_view capacity fp =
      let row : IsDirectory (with_cap over xxh3 xxh3_64 capacity fp) =
        (new-IsSegment over xxh3 xxh3_64 wide capacity fp, λ k f. refl, tt) in
      (
        row,
        λ n.
            find-dir_view (with_cap over xxh3 xxh3_64 capacity fp) n row
            ∙ ap (λ o. or_else o none) (new-view over xxh3 xxh3_64 wide capacity fp n),
        refl,
      )

  -- push_unique of a name that is not there keeps the directory well formed and adds the name with its
  -- inode; every other name keeps its answer.
  pub push_unique-dir_view :
      (d : Directory) (n : List ℕ) (i : InodeId)
      → IsDirectory d
      → find over xxh3 xxh3_64 d n ≡ none
      → IsDirectory (push_unique over xxh3 xxh3_64 d n i)
        × ((k : List ℕ)
            → find over xxh3 xxh3_64 (push_unique over xxh3 xxh3_64 d n i) k
              ≡ (if bytes_eq n k then some i else find over xxh3 xxh3_64 d k))
  unfolding push_unique
  push_unique-dir_view d n i r e =
      let (row, update) =
        push_in_lem over xxh3 xxh3_64 wide d.cap d.fp n i d.segments r
          (sym (find-dir_view d n r) ∙ e) in
      (
        row,
        λ k.
            find-dir_view (push_unique over xxh3 xxh3_64 d n i) k row
            ∙ update k
            ∙ rw (find-dir_view d k r) refl,
      )

  -- On a well formed directory, for any filter hash of 128 bits, add says whether the name was new
  -- and keeps the directory well formed. A new name gets the inode, a name that is there keeps its
  -- own, and every other name keeps its answer.
  pub add-dir_view :
      (d : Directory) (n : List ℕ) (i : InodeId)
      → IsDirectory d
      → IsDirectory (add over xxh3 xxh3_64 d n i).0
        × ((add over xxh3 xxh3_64 d n i).1 ≡ not (is_some (find over xxh3 xxh3_64 d n)))
        × ((k : List ℕ)
            → find over xxh3 xxh3_64 (add over xxh3 xxh3_64 d n i).0 k ≡ (
                if is_some (find over xxh3 xxh3_64 d n)
                then find over xxh3 xxh3_64 d k
                else (if bytes_eq n k then some i else find over xxh3 xxh3_64 d k)))
  unfolding add find
  add-dir_view d n i r = elim (Option-cases (find over xxh3 xxh3_64 d n)) [
    | inl e ↦
        let (good, update) = push_unique-dir_view d n i r e in
        rw (add, find, e) (good, refl, update)
    | inr (j, e) ↦ rw (add, find, e) (r, refl, λ k. refl)
  ]

  -- On a well formed directory, for any filter hash of 128 bits, delete says whether the name was
  -- there, keeps the directory well formed and takes the name out; every other name keeps its
  -- answer.
  pub delete-dir_view :
      (d : Directory) (n : List ℕ)
      → IsDirectory d
      → IsDirectory (delete over xxh3 xxh3_64 d n).0
        × ((delete over xxh3 xxh3_64 d n).1 ≡ is_some (find over xxh3 xxh3_64 d n))
        × ((k : List ℕ)
            → find over xxh3 xxh3_64 (delete over xxh3 xxh3_64 d n).0 k
              ≡ (if bytes_eq n k then none else find over xxh3 xxh3_64 d k))
  unfolding delete
  delete-dir_view d n r =
      let (row, said, update) = delete_in_lem over xxh3 xxh3_64 wide n d.segments r in
      (
        row,
        said ∙ ap is_some (sym (find-dir_view d n r)),
        λ k.
            find-dir_view (delete over xxh3 xxh3_64 d n).0 k row
            ∙ update k
            ∙ rw (find-dir_view d k r) refl,
      )

  -- For any filter hash of 128 bits, the listing of a well formed directory has each name once, with
  -- the inode that find gives, has no other name, and is as long as len says.
  pub entries-dir_view :
      (d : Directory)
      → IsDirectory d
      → ((n : List ℕ) → lookup n (entries d) ≡ find over xxh3 xxh3_64 d n)
        × NoRepeat (entries d)
        × (length (entries d) ≡ len d)
  unfolding entries len
  entries-dir_view d r =
      let (same, once, counted) = entries_of_lem over xxh3 xxh3_64 wide d.segments r in
      (λ n. same n ∙ sym (find-dir_view d n r), once, counted)
