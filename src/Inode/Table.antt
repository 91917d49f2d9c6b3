-- ===== src/Inode/Table.antt =====
-- rust/bloomfs-inode/src/lib.rs: the inode table in memory and its snapshot.
pub mod Laws
use bloomfs.Base.{
  ℕ, zero, suc, ◌+◌, ◌*◌, ◌/◌, ◌%◌, Bool, true, false, List, [], ◌∷◌, ◌++◌, ltb, leb, ◌==◌,
  if◌then◌else◌, length, get_or, set, take, drop, not, replicate, slice, Result, ok, err, ◌>>=◌,
}
use bloomfs.Base.Fields.{copy_fields}
use bloomfs.Inode.{
  Inode, Error, bad_inode_size, out_of_range, default, size, inode_fields, unmarshal_binary,
}

-- `count` is the high-water mark: only the slots below it were ever written.
pub record Table : Type 0 where
  pub inodes : List Inode
  pub count : ℕ

unfoldable pub new : ℕ → Table
new capacity = record { inodes = replicate capacity default; count = 0 }

unfoldable pub cap : Table → ℕ
cap t = length t.inodes

unfoldable pub get : Table → ℕ → Result Error Inode
get t id = if leb (length t.inodes) id then err out_of_range else ok (get_or t.inodes id default)

-- The table is unchanged on an error.
unfoldable pub put : Table → ℕ → Inode → Result Error Table
put t id i =
    if leb (length t.inodes) id
    then err out_of_range
    else ok
        (record { inodes = set t.inodes id i; count = if leb t.count id then id + 1 else t.count })

unfoldable pub marshal_len : Table → ℕ
marshal_len t = t.count * size

-- The copies that the loop makes: each inode into its own 128 bytes, the first at `off`.
unfoldable pub slot_fields : ℕ → List Inode → List (ℕ × List ℕ)
slot_fields off [] = []
slot_fields off (i ∷ is) = inode_fields off i ++ slot_fields (off + size) is

unfoldable pub marshal_into : Table → List ℕ → List ℕ × ℕ
marshal_into t dst = (copy_fields dst (slot_fields 0 (take t.count t.inodes)), t.count * size)

unfoldable pub marshal : Table → List ℕ
marshal t = (marshal_into t (replicate (marshal_len t) 0)).0

-- `rounds` inodes from `off` on.
unfoldable pub read_slots : ℕ → ℕ → List ℕ → Result Error (List Inode)
read_slots zero off b = ok []
read_slots (suc rounds) off b = do
  i ← unmarshal_binary (slice b off size)
  is ← read_slots rounds (off + size) b
  ok (i ∷ is)

-- The slots behind those that were read keep the default inode of `new`.
unfoldable pub unmarshal_table : List ℕ → ℕ → Result Error Table
unmarshal_table b capacity =
    if not (length b % size == 0)
    then err bad_inode_size
    else (let n = length b / size in
        if ltb capacity n then err out_of_range else (do
          is ← read_slots n 0 b
          ok (record { inodes = is ++ drop n (new capacity).inodes; count = n })))
