-- ===== src/Cow.antt =====
-- rust/bloomfs-cow/src/lib.rs: the copy-on-write commits. The device `d` and the checksum `hash` (BLAKE3)
-- are parameters.
pub mod Uber
pub mod Blocks
pub mod Mount
pub mod Image
pub mod Staged
pub mod Flip
pub mod Atomic
pub mod PowerLoss
pub mod Recovery
pub mod Progress
pub mod Format
mod Examples
mod PoolExamples
use bloomfs.Base.{
  ℕ, zero, suc, ◌+◌, ◌-◌, ◌*◌, ◌/◌, ◌%◌, ◌^◌, Bool, true, false, Option, none, some, List, [], ◌∷◌,
  ◌++◌, not, ◌||◌, ltb, leb, ◌==◌, if◌then◌else◌, length, replicate, take, slice, get_or, Result,
  ok, err, ◌>>=◌, to_le, from_le,
}
use bloomfs.Base.Outcome.{map_err}
use bloomfs.Base.Fields.{copy_at, copy_fields}
use bloomfs.Base.Assoc.{bytes_eq}
use bloomfs.Block
use bloomfs.Block.{Device, block_size}
use bloomfs.Alloc
use bloomfs.Alloc.{Bitmap}
use bloomfs.Dedup
use bloomfs.Inode
use bloomfs.Inode.Table
use bloomfs.Inode.Table.{Table}

abbrev pub uber_magic : ℕ
uber_magic = 0x00b1_00f5_c0ff_ee01

abbrev pub uber_checksum_off : ℕ
uber_checksum_off = 104

pub data Error : Type 0 where
  not_formatted bad_uber meta_too_big : Error
  device_too_small : ℕ → ℕ → Error
  block : Block.Error → Error
  alloc : Alloc.Error → Error
  dedup : Dedup.Error → Error
  inode : Inode.Error → Error

pub record Uberblock : Type 0 where
  pub magic : ℕ
  pub seq : ℕ
  pub bytes_per_block : ℕ
  pub active_meta : ℕ
  pub total_blocks : ℕ
  pub meta_a : ℕ
  pub meta_b : ℕ
  pub meta_blocks : ℕ
  pub inode_count : ℕ
  pub data_start : ℕ
  pub root_inode : ℕ
  pub next_inode : ℕ
  pub bitmap_len : ℕ
  pub ddt_len : ℕ
  pub inode_len : ℕ

-- The copies that `marshal_binary` makes before the checksum.
unfoldable pub uber_fields : Uberblock → List (ℕ × List ℕ)
uber_fields u =
    (0, to_le 8 u.magic)
    ∷ (8, to_le 8 u.seq)
    ∷ (16, to_le 4 u.bytes_per_block)
    ∷ (20, u.active_meta ∷ [])
    ∷ (24, to_le 8 u.total_blocks)
    ∷ (32, to_le 8 u.meta_a)
    ∷ (40, to_le 8 u.meta_b)
    ∷ (48, to_le 8 u.meta_blocks)
    ∷ (56, to_le 8 u.inode_count)
    ∷ (64, to_le 8 u.data_start)
    ∷ (72, to_le 8 u.root_inode)
    ∷ (80, to_le 8 u.next_inode)
    ∷ (88, to_le 4 u.bitmap_len)
    ∷ (92, to_le 4 u.ddt_len)
    ∷ (96, to_le 4 u.inode_len)
    ∷ []

unfoldable pub meta_start : Uberblock → ℕ
meta_start u = if u.active_meta == 1 then u.meta_b else u.meta_a

-- A computation on the device `S` that may fail and leaves the device it came to.
abbrev pub Exec : Type 0 → Type 0 → Type 0
Exec S A = S → S × Result Error A

-- `?` on a call of the block layer, and on a call of this one.
abbrev pub then_block :
    {S A B : Type 0} → S × Result Block.Error A → (A → Exec S B) → S × Result Error B
then_block (s, ok a) f = f a s
then_block (s, err e) f = (s, err (block e))

abbrev pub and_then : {S A B : Type 0} → S × Result Error A → (A → Exec S B) → S × Result Error B
and_then (s, ok a) f = f a s
and_then (s, err e) f = (s, err e)

-- `f` applied to `buf[off..off + n]`.
unfoldable pub into : List ℕ → ℕ → ℕ → (List ℕ → List ℕ × ℕ) → List ℕ
into buf off n f = copy_at buf off (f (slice buf off n)).0

-- The scratch buffer if it is long enough, else a new one.
unfoldable pub choose_buffer : Option (List ℕ) → ℕ → List ℕ
choose_buffer none need = replicate need 0
choose_buffer (some b) need = if leb need (length b) then b else replicate need 0

-- The buffer after the three tables were serialized into it.
unfoldable pub snapshot : Bitmap → Dedup.Table → Table → List ℕ → List ℕ
snapshot bm ddt tbl buf =
    let bm_len = Alloc.marshal_len bm in
    let dd_len = Dedup.marshal_len ddt in
    let buf1 = into buf 0 bm_len (Alloc.marshal_into bm) in
    let buf2 = into buf1 bm_len dd_len (Dedup.marshal_into ddt) in
    into buf2 (bm_len + dd_len) (Table.marshal_len tbl) (Table.marshal_into tbl)

-- The lengths are cast to u32.
unfoldable pub with_lengths : Uberblock → Bitmap → Dedup.Table → Table → Uberblock
with_lengths u bm ddt tbl = record u {
  bitmap_len = Alloc.marshal_len bm % 2 ^ 32;
  ddt_len = Dedup.marshal_len ddt % 2 ^ 32;
  inode_len = Table.marshal_len tbl % 2 ^ 32;
}

-- The loop of `mount`: a valid uberblock with a higher sequence number wins.
unfoldable pub better : Option Uberblock → Result Error Uberblock → Option Uberblock
better best (err e) = best
better none (ok u) = some u
better (some b) (ok u) = if ltb b.seq u.seq then some u else some b

-- The number of inodes of a new image: one block of them by default.
unfoldable pub inode_slots : ℕ → ℕ
inode_slots inode_count = if inode_count == 0 then 32 else inode_count

unfoldable pub div_ceil : ℕ → ℕ → ℕ
div_ceil n k = if n % k == 0 then n / k else n / k + 1

-- The uberblock of a new image: the bitmap, the reserve for the deduplication table and the whole inode
-- table fit each metadata slot. The sums are u64.
unfoldable pub meta_need : ℕ → ℕ → ℕ → ℕ
meta_need total inode_count ddt_reserve =
    div_ceil ((64 + (8 + div_ceil total 8) + ddt_reserve + inode_count * Inode.size) % 2 ^ 64)
      block_size

unfoldable pub fresh : ℕ → ℕ → ℕ → Uberblock
fresh total inode_count ddt_reserve =
    let meta_blocks = meta_need total inode_count ddt_reserve in
    record {
      magic = uber_magic;
      seq = 1;
      bytes_per_block = block_size;
      active_meta = 0;
      total_blocks = total;
      meta_a = 2;
      meta_b = 2 + meta_blocks;
      meta_blocks = meta_blocks;
      inode_count = inode_count;
      data_start = 2 + meta_blocks + meta_blocks;
      root_inode = 0;
      next_inode = 1;
      bitmap_len = 0;
      ddt_len = 0;
      inode_len = 0;
    }

-- The uberblock of the next commit: the sequence number is a u64, the active slot a u8.
unfoldable pub successor : Uberblock → ℕ → ℕ → Uberblock
successor prev root_inode next_inode = record prev {
  seq = (prev.seq + 1) % 2 ^ 64;
  active_meta = (1 + 256 - prev.active_meta) % 256;
  root_inode = root_inode;
  next_inode = next_inode;
}

module _ (hash : List ℕ → List ℕ) where
  unfoldable pub marshal_binary : Uberblock → List ℕ
  marshal_binary u =
      let b = copy_fields (replicate block_size 0) (uber_fields u) in
      copy_at b uber_checksum_off (hash (take uber_checksum_off b))

  unfoldable pub parse_uber : List ℕ → Result Error Uberblock
  parse_uber b =
      if ltb (length b) block_size
      then err bad_uber
      else if not (from_le (slice b 0 8) == uber_magic)
      then err bad_uber
      else if not (bytes_eq (hash (take uber_checksum_off b)) (slice b uber_checksum_off 32))
      then err bad_uber
      else ok (record {
        magic = uber_magic;
        seq = from_le (slice b 8 8);
        bytes_per_block = from_le (slice b 16 4);
        active_meta = get_or b 20 0;
        total_blocks = from_le (slice b 24 8);
        meta_a = from_le (slice b 32 8);
        meta_b = from_le (slice b 40 8);
        meta_blocks = from_le (slice b 48 8);
        inode_count = from_le (slice b 56 8);
        data_start = from_le (slice b 64 8);
        root_inode = from_le (slice b 72 8);
        next_inode = from_le (slice b 80 8);
        bitmap_len = from_le (slice b 88 4);
        ddt_len = from_le (slice b 92 4);
        inode_len = from_le (slice b 96 4);
      })

module _ (d : Device) where
  -- `rounds` blocks from block `at` on, the first from `off` of the buffer.
  unfoldable pub write_blocks : ℕ → ℕ → ℕ → List ℕ → Exec d.State (Unit {0})
  write_blocks zero at off buf s = (s, ok tt)
  write_blocks (suc rounds) at off buf s =
      then_block (d.write_block s at (slice buf off block_size))
        (λ _ s'. write_blocks rounds (at + 1) (off + block_size) buf s')

  unfoldable pub read_blocks : d.State → ℕ → ℕ → Result Error (List ℕ)
  read_blocks s zero at = ok []
  read_blocks s (suc rounds) at = do
    b ← map_err block (d.read_block s at)
    rest ← read_blocks s rounds (at + 1)
    ok (b ++ rest)

  unfoldable pub write_snapshot :
      Uberblock → Bitmap → Dedup.Table → Table → Option (List ℕ) → Exec d.State Uberblock
  write_snapshot u bm ddt tbl scratch s =
      let need = u.meta_blocks * block_size in
      let u' = with_lengths u bm ddt tbl in
      let buf = snapshot bm ddt tbl (choose_buffer scratch need) in
      let written =
        and_then (write_blocks u.meta_blocks (meta_start u') 0 buf s)
          (λ _ s1. then_block (d.sync s1) (λ _ s2. (s2, ok u'))) in
      if ltb need (Alloc.marshal_len bm + Dedup.marshal_len ddt + Table.marshal_len tbl)
      then (s, err meta_too_big)
      else written

  -- What a mount loads behind its uberblock.
  unfoldable pub load :
      d.State → Uberblock → Result Error (Uberblock × Bitmap × Dedup.Table × Table)
  load s u = do
    buf ← read_blocks s u.meta_blocks (meta_start u)
    let dd_end = u.bitmap_len + u.ddt_len
    bm ← map_err alloc (Alloc.unmarshal (take u.bitmap_len buf))
    ddt ← map_err dedup (Dedup.unmarshal (slice buf u.bitmap_len u.ddt_len))
    tbl ← map_err inode (Table.unmarshal_table (slice buf dd_end u.inode_len) u.inode_count)
    ok (u, bm, ddt, tbl)

  module _ (hash : List ℕ → List ℕ) where
    unfoldable pub write_uber : Uberblock → Exec d.State (Unit {0})
    write_uber u s =
        then_block (d.write_block s (u.seq % 2) (marshal_binary hash u))
          (λ _ s1. then_block (d.sync s1) (λ _ s2. (s2, ok tt)))

    unfoldable pub mount : d.State → Result Error (Uberblock × Bitmap × Dedup.Table × Table)
    mount s = do
      raw0 ← map_err block (d.read_block s 0)
      raw1 ← map_err block (d.read_block s 1)
      let best = better (better none (parse_uber hash raw0)) (parse_uber hash raw1)
      u ← elim best [ none ↦ err not_formatted | some u ↦ ok u ]
      load s u

    -- On an error the bitmap is unchanged.
    unfoldable pub commit :
        Uberblock
        → Bitmap
        → Dedup.Table
        → Table
        → ℕ
        → ℕ
        → Option (List ℕ)
        → Exec d.State (Uberblock × Bitmap)
    commit prev bm ddt tbl root_inode next_inode scratch s =
        and_then (write_snapshot (successor prev root_inode next_inode) bm ddt tbl scratch s)
          (λ next s1.
            and_then (write_uber next s1) (λ _ s2. (s2, ok (next, Alloc.apply_deferred bm))))

    -- On an error the device may hold a part of the image.
    unfoldable pub format : ℕ → ℕ → Exec d.State Uberblock
    format inode_count ddt_reserve s =
        let total = d.blocks s in
        let n = inode_slots inode_count in
        let ub = fresh total n ddt_reserve in
        let bm = Alloc.reserve (Alloc.new total) 0 ub.data_start in
        let written =
          and_then (write_snapshot ub bm Dedup.new (Table.new n) none s)
            (λ ub' s1. and_then (write_uber ub' s1) (λ _ s2. (s2, ok ub'))) in
        if leb total ub.data_start then (s, err (device_too_small ub.data_start total)) else written
