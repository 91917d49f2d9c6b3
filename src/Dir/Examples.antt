-- ===== src/Dir/Examples.antt =====
-- Examples for the directory, with hashes that collide and segments of two names.
use bloomfs.Base.{
  ℕ, ◌+◌, ◌*◌, ◌%◌, ◌^◌, ◌≤◌, ◌<◌, ◌≡◌, refl, Bool, not, Option, is_some, none, some, List, [], ◌∷◌,
  ltb, length, if◌then◌else◌, arith,
}
use bloomfs.Base.Assoc.{bytes_keyed, bytes_eq, lookup, NoRepeat}
use bloomfs.Bloom.{at_least_one}
use bloomfs.Segment.{InodeId}
use bloomfs.Segment
use bloomfs.Dir.{Directory, with_cap, find, add, push_unique, delete, len, entries, segment_count}
use bloomfs.Dir.Names.{
  IsDirectory, dir_view, find-dir_view, with_cap-dir_view, add-dir_view, delete-dir_view,
  entries-dir_view,
}
use bloomfs.Dir.Bounds.{IsBounded, len-IsBounded}

abbrev toy_over : ℕ → ℕ → ℕ → ℕ → Bool
toy_over fp n k nb = ltb nb 1

abbrev toy_hash : List ℕ → ℕ → ℕ
toy_hash x seed = (length x * 36893488147419103239 + seed) % 2 ^ 128

toy_wide : (x : List ℕ) (seed : ℕ) → toy_hash x seed < 2 ^ 128
toy_wide x seed = omega arith

-- The names of one length collide.
abbrev toy_name_hash : List ℕ → ℕ
toy_name_hash x = length x

abbrev name_a : List ℕ
name_a = 97 ∷ []

abbrev name_b : List ℕ
name_b = 98 ∷ []

abbrev empty_dir : Directory
empty_dir = with_cap toy_over toy_hash toy_name_hash 2 0

empty_dir-IsDirectory : IsDirectory toy_over toy_hash toy_name_hash toy_wide empty_dir
empty_dir-IsDirectory = (with_cap-dir_view toy_over toy_hash toy_name_hash toy_wide 2 0).0

-- One name in it.
abbrev one_dir : Directory
one_dir = (add toy_over toy_hash toy_name_hash empty_dir name_a 5).0

one_dir-IsDirectory : IsDirectory toy_over toy_hash toy_name_hash toy_wide one_dir
one_dir-IsDirectory =
    (add-dir_view toy_over toy_hash toy_name_hash toy_wide empty_dir name_a 5
      empty_dir-IsDirectory).0

find-dir_view_example :
    find toy_over toy_hash toy_name_hash one_dir name_a
    ≡ dir_view toy_over toy_hash toy_name_hash toy_wide one_dir name_a
find-dir_view_example =
    find-dir_view toy_over toy_hash toy_name_hash toy_wide one_dir name_a one_dir-IsDirectory

abbrev toy_find : Directory → List ℕ → Option InodeId
toy_find d n = find toy_over toy_hash toy_name_hash d n

abbrev toy_add : Directory → List ℕ → InodeId → Directory × Bool
toy_add d n i = add toy_over toy_hash toy_name_hash d n i

abbrev toy_delete : Directory → List ℕ → Directory × Bool
toy_delete d n = delete toy_over toy_hash toy_name_hash d n

abbrev Good : Directory → Type 0
Good d = IsDirectory toy_over toy_hash toy_name_hash toy_wide d

add-dir_view_example :
    Good (toy_add one_dir name_b 6).0
    × ((toy_add one_dir name_b 6).1 ≡ not (is_some (toy_find one_dir name_b)))
    × ((k : List ℕ)
        → toy_find (toy_add one_dir name_b 6).0 k ≡ (
            if is_some (toy_find one_dir name_b)
            then toy_find one_dir k
            else (if bytes_eq name_b k then some 6 else toy_find one_dir k)))
add-dir_view_example =
    add-dir_view toy_over toy_hash toy_name_hash toy_wide one_dir name_b 6 one_dir-IsDirectory

delete-dir_view_example :
    Good (toy_delete one_dir name_a).0
    × ((toy_delete one_dir name_a).1 ≡ is_some (toy_find one_dir name_a))
    × ((k : List ℕ)
        → toy_find (toy_delete one_dir name_a).0 k
          ≡ (if bytes_eq name_a k then none else toy_find one_dir k))
delete-dir_view_example =
    delete-dir_view toy_over toy_hash toy_name_hash toy_wide one_dir name_a one_dir-IsDirectory

entries-dir_view_example :
    ((n : List ℕ) → lookup n (entries one_dir) ≡ toy_find one_dir n)
    × NoRepeat (entries one_dir)
    × (length (entries one_dir) ≡ len one_dir)
entries-dir_view_example =
    entries-dir_view toy_over toy_hash toy_name_hash toy_wide one_dir one_dir-IsDirectory

empty_dir-IsBounded : IsBounded empty_dir
unfolding with_cap Segment.new at_least_one
empty_dir-IsBounded = ((refl, omega arith), tt)

len-IsBounded_example :
    IsBounded (with_cap toy_over toy_hash toy_name_hash empty_dir.cap empty_dir.fp)
    × IsBounded (toy_add empty_dir name_a 5).0
    × IsBounded (push_unique toy_over toy_hash toy_name_hash empty_dir name_a 5)
    × IsBounded (toy_delete empty_dir name_a).0
    × (len empty_dir ≤ segment_count empty_dir * at_least_one empty_dir.cap)
len-IsBounded_example =
    len-IsBounded toy_over toy_hash toy_name_hash empty_dir name_a 5 empty_dir-IsBounded
