-- ===== src/Fs.antt =====
-- rust/bloomfs-fs/src/lib.rs: the policies and encodings of the filesystem layer that need no device: the
-- cut of a file into records, the reference lists, the directory pages, the directory streams, the check
-- of access and the estimate of fallocate.
pub mod Records
pub mod Pages
pub mod Access
pub mod Streams
mod Examples
use bloomfs.Base.{
  ℕ, zero, suc, ◌+◌, ◌-◌, ◌*◌, ◌/◌, ◌%◌, ◌^◌, Bool, true, false, not, ◌&&◌, ◌||◌, List, [], ◌∷◌,
  ◌++◌, ltb, leb, ◌==◌, if◌then◌else◌, length, slice, drop, min, replicate, Result, ok, err, ◌>>=◌,
  to_le, from_le,
}
use Prim.Native.Nat.{bit_and}
use bloomfs.Base.Fields.{copy_fields}
use bloomfs.Alloc.{Bitmap, available, deferred_count}
use bloomfs.Inode.{Inode, type_dir}
use bloomfs.Inode
use bloomfs.Inode.Table.{Table}
use bloomfs.Inode.Table
use bloomfs.Store.{Ref, ref_size, marshal_ref, unmarshal_ref}
use bloomfs.Store
use bloomfs.Cow
use bloomfs.Segment.{DirEntry}

abbrev pub blk : ℕ
blk = 4096

abbrev pub dir_page_size : ℕ
dir_page_size = 4096

abbrev pub access_x : ℕ
access_x = 1

abbrev pub access_w : ℕ
access_w = 2

abbrev pub access_r : ℕ
access_r = 4

pub data Error : Type 0 where
  not_dir not_file exists not_found corrupt no_inodes is_dir not_empty invalid permission no_space :
      Error
  cow : Cow.Error → Error
  store : Store.Error → Error
  inode : Inode.Error → Error

-- The record size and its logarithm.
unfoldable pub record_size_for : ℕ → ℕ × ℕ
record_size_for size =
    if ltb size (32 * 1024)
    then (4 * 1024, 12)
    else (if ltb size (256 * 1024)
        then (8 * 1024, 13)
        else (if ltb size (2 * 1024 * 1024) then (16 * 1024, 14) else (32 * 1024, 15)))

-- The loop of `split_records`. A record size of 0 would not end; it takes at most as many rounds as
-- there are bytes otherwise.
unfoldable pub split_loop : ℕ → ℕ → List ℕ → ℕ → List (List ℕ)
split_loop zero off blob rs = []
split_loop (suc fuel) off blob rs =
    let end = min (off + rs) (length blob) in
    let rest = split_loop fuel end blob rs in
    if ltb off (length blob) then slice blob off (end - off) ∷ rest else []

unfoldable pub split_records : List ℕ → ℕ → List (List ℕ)
split_records blob rs = split_loop (length blob) 0 blob rs

unfoldable pub ref_list_fields : ℕ → List Ref → List (ℕ × List ℕ)
ref_list_fields off [] = []
ref_list_fields off (r ∷ rs) = (off, marshal_ref r) ∷ ref_list_fields (off + ref_size) rs

unfoldable pub encode_refs : List Ref → List ℕ
encode_refs refs =
    copy_fields (replicate (4 + length refs * ref_size) 0)
      ((0, to_le 4 (length refs)) ∷ ref_list_fields 4 refs)

-- `rounds` references from `off` on.
unfoldable pub read_refs : ℕ → ℕ → List ℕ → List Ref
read_refs zero off b = []
read_refs (suc rounds) off b = unmarshal_ref (drop off b) ∷ read_refs rounds (off + ref_size) b

unfoldable pub decode_refs : List ℕ → Result Error (List Ref)
decode_refs b =
    let n = from_le (slice b 0 4) in
    if ltb (length b) 4
    then err corrupt
    else (if ltb (length b) (4 + n * ref_size) then err corrupt else ok (read_refs n 4 b))

unfoldable pub page_fields : ℕ → List DirEntry → List (ℕ × List ℕ)
page_fields off [] = []
page_fields off ((name, id) ∷ es) =
    (off, to_le 2 (length name))
    ∷ (off + 2, to_le 8 id)
    ∷ (off + 10, name)
    ∷ page_fields (off + 10 + length name) es

unfoldable pub encode_dir_page : List DirEntry → List ℕ
encode_dir_page es =
    copy_fields (replicate dir_page_size 0) ((0, to_le 4 (length es)) ∷ page_fields 4 es)

-- `lossy` is `String::from_utf8_lossy`.
module _ (lossy : List ℕ → List ℕ) where
  -- `rounds` entries from `off` on, and where they end.
  unfoldable pub read_page : ℕ → ℕ → List ℕ → Result Error (List DirEntry × ℕ)
  read_page zero off b = ok ([], off)
  read_page (suc rounds) off b =
      let nl = from_le (slice b off 2) in
      let id = from_le (slice b (off + 2) 8) in
      let rest = read_page rounds (off + 10 + nl) b in
      if ltb (length b) (off + 10)
      then err corrupt
      else (if ltb (length b) (off + 10 + nl)
          then err corrupt
          else (rest >>= λ r. ok ((lossy (slice b (off + 10) nl), id) ∷ r.0, r.1)))

  unfoldable pub decode_dir_page : List ℕ → Result Error (List DirEntry × ℕ)
  decode_dir_page b =
      if ltb (length b) 4 then err corrupt else read_page (from_le (slice b 0 4)) 4 b

pub record DirHandle : Type 0 where
  pub entries : List (List ℕ)
  pub pos : ℕ

-- Where the next batch of `n` names ends.
unfoldable pub batch_end : DirHandle → ℕ → ℕ
batch_end h n =
    if ltb 0 n && ltb (h.pos + n) (length h.entries) then h.pos + n else length h.entries

unfoldable pub next : DirHandle → ℕ → DirHandle × List (List ℕ)
next h n =
    let end = batch_end h n in
    if leb (length h.entries) h.pos
    then (h, [])
    else (record h { pos = end }, slice h.entries h.pos (end - h.pos))

abbrev pub contains : List ℕ → ℕ → Bool
contains [] g = false
contains (x ∷ xs) g = x == g || contains xs g

-- How far the bits of the class of the caller stand from the right: owner, group, other.
unfoldable pub class_shift : Inode → ℕ → ℕ → List ℕ → ℕ
class_shift i uid gid gids =
    if uid == i.uid then 6 else (if gid == i.gid || contains gids i.gid then 3 else 0)

unfoldable pub check_access : Inode → ℕ → ℕ → ℕ → List ℕ → Result Error (Unit {0})
check_access i mask uid gid gids =
    let perm = bit_and i.mode 511 in
    let allowed = bit_and (perm / 2 ^ class_shift i uid gid gids) 7 in
    if mask == 0
    then ok tt
    else (if uid == 0
        then (if not (bit_and mask access_x == 0)
              && (not (i.kind == type_dir) && (bit_and perm 73 == 0))
            then err permission
            else ok tt)
        else (if not (bit_and mask allowed == mask) then err permission else ok tt))

unfoldable pub access : Table → ℕ → ℕ → ℕ → ℕ → List ℕ → Result Error (Unit {0})
access t id mask uid gid gids = elim (Inode.Table.get t id) [
  | err e ↦ err (inode e)
  | ok i ↦ check_access i mask uid gid gids
]

-- `div_ceil`
abbrev pub div_ceil : ℕ → ℕ → ℕ
div_ceil a b = (a + (b - 1)) / b

-- The clusters that `length` bytes can need, at most.
unfoldable pub needed_clusters : ℕ → ℕ
needed_clusters len =
    let rs = (record_size_for len).0 in
    let n = div_ceil len rs in n * (rs / blk) + div_ceil (n * ref_size) blk

-- Both counts are of clusters of the one bitmap, so that their sum stays in its word.
unfoldable pub fallocate : Bitmap → ℕ → Result Error (Unit {0})
fallocate b len =
    if len == 0
    then ok tt
    else (if ltb (available b + deferred_count b) (needed_clusters len)
        then err no_space
        else ok tt)
