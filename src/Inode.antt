-- ===== src/Inode.antt =====
-- rust/bloomfs-inode/src/lib.rs: the 128-byte inode, its extents, and the table in memory.
pub mod Encoding
pub mod Extents
pub mod Table
mod Examples
use bloomfs.Base.{
  ℕ, zero, suc, ◌+◌, ◌-◌, ◌*◌, ◌/◌, ◌%◌, Bool, true, false, Option, none, some, List, [], ◌∷◌, ◌++◌,
  ltb, leb, ◌==◌, if◌then◌else◌, length, replicate, slice, get_or, Result, ok, err, to_le, from_le,
}
use bloomfs.Base.Fields.{copy_fields}
use Prim.Native.Nat.{bit_or}

abbrev pub size : ℕ
size = 128

abbrev pub block_map_bytes : ℕ
block_map_bytes = 64

abbrev pub extent_size : ℕ
extent_size = 16

abbrev pub inline_cap : ℕ
inline_cap = block_map_bytes / extent_size

abbrev pub type_regular : ℕ
type_regular = 0

abbrev pub type_dir : ℕ
type_dir = 1

abbrev pub type_link : ℕ
type_link = 2

abbrev pub flag_inline_extents : ℕ
flag_inline_extents = 1

pub data Error : Type 0 where
  bad_inode_size too_many_extents out_of_range : Error

pub record Extent : Type 0 where
  pub start : ℕ
  pub blocks : ℕ
  pub logical : ℕ

pub record Inode : Type 0 where
  pub file_size : ℕ
  pub nlink : ℕ
  pub generation : ℕ
  pub uid : ℕ
  pub gid : ℕ
  pub atime : ℕ
  pub mtime : ℕ
  pub ctime : ℕ
  pub mode : ℕ
  pub kind : ℕ
  pub record_size_log2 : ℕ
  pub flags : ℕ
  pub checksum : List ℕ
  pub block_map : List ℕ

abbrev pub default : Inode
default = record {
  file_size = 0;
  nlink = 0;
  generation = 0;
  uid = 0;
  gid = 0;
  atime = 0;
  mtime = 0;
  ctime = 0;
  mode = 0;
  kind = 0;
  record_size_log2 = 0;
  flags = 0;
  checksum = replicate 8 0;
  block_map = replicate 64 0;
}

-- The copies that `marshal_into` makes, for a destination that begins at `base` of the buffer.
unfoldable pub inode_fields : ℕ → Inode → List (ℕ × List ℕ)
inode_fields base i =
    (base, to_le 8 i.file_size)
    ∷ (base + 8, to_le 4 i.nlink)
    ∷ (base + 12, to_le 4 i.generation)
    ∷ (base + 16, to_le 4 i.uid)
    ∷ (base + 20, to_le 4 i.gid)
    ∷ (base + 24, to_le 8 i.atime)
    ∷ (base + 32, to_le 8 i.mtime)
    ∷ (base + 40, to_le 8 i.ctime)
    ∷ (base + 48, to_le 2 i.mode)
    ∷ (base + 50, i.kind ∷ [])
    ∷ (base + 51, i.record_size_log2 ∷ [])
    ∷ (base + 52, i.flags ∷ [])
    ∷ (base + 53, 0 ∷ [])
    ∷ (base + 54, 0 ∷ [])
    ∷ (base + 55, 0 ∷ [])
    ∷ (base + 56, i.checksum)
    ∷ (base + 64, i.block_map)
    ∷ []

unfoldable pub marshal_inode : Inode → List ℕ → List ℕ
marshal_inode i dst = copy_fields dst (inode_fields 0 i)

unfoldable pub marshal_binary : Inode → List ℕ
marshal_binary i = marshal_inode i (replicate size 0)

unfoldable pub unmarshal_binary : List ℕ → Result Error Inode
unmarshal_binary b =
    if length b == size
    then ok (record {
      file_size = from_le (slice b 0 8);
      nlink = from_le (slice b 8 4);
      generation = from_le (slice b 12 4);
      uid = from_le (slice b 16 4);
      gid = from_le (slice b 20 4);
      atime = from_le (slice b 24 8);
      mtime = from_le (slice b 32 8);
      ctime = from_le (slice b 40 8);
      mode = from_le (slice b 48 2);
      kind = get_or b 50 0;
      record_size_log2 = get_or b 51 0;
      flags = get_or b 52 0;
      checksum = slice b 56 8;
      block_map = slice b 64 64;
    })
    else err bad_inode_size

-- The copies that `set_extents` makes into the block map, the first at `off`.
unfoldable pub extent_fields : ℕ → List Extent → List (ℕ × List ℕ)
extent_fields off [] = []
extent_fields off (e ∷ es) =
    (off, to_le 8 e.start)
    ∷ (off + 8, to_le 4 e.blocks)
    ∷ (off + 12, to_le 4 e.logical)
    ∷ extent_fields (off + extent_size) es

unfoldable pub set_extents : Inode → List Extent → Result Error Inode
set_extents i exts =
    if ltb inline_cap (length exts)
    then err too_many_extents
    else ok (record i {
      block_map = copy_fields (replicate block_map_bytes 0) (extent_fields 0 exts);
      flags = bit_or i.flags flag_inline_extents;
    })

-- `rounds` extents from `off` on, up to the first with no blocks.
unfoldable pub read_extents : ℕ → ℕ → List ℕ → List Extent
read_extents zero off map = []
read_extents (suc rounds) off map =
    let blocks = from_le (slice map (off + 8) 4) in
    let rest = read_extents rounds (off + extent_size) map in
    if blocks == 0
    then []
    else record {
      start = from_le (slice map off 8);
      blocks = blocks;
      logical = from_le (slice map (off + 12) 4);
    }
      ∷ rest

unfoldable pub extents : Inode → List Extent
extents i = read_extents inline_cap 0 i.block_map
