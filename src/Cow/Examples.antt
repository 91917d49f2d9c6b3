-- ===== src/Cow/Examples.antt =====
-- Examples of commits on a device of six blocks that loses power at its second write.
use bloomfs.Base.{
  ℕ, ◌≡◌, refl, ap, ◌∙◌, List, [], length, replicate, length-replicate, none, some, ok, err, Result,
  arith, from_le, ◌==◌, if◌then◌else◌,
}
use bloomfs.Block.Memory.{
  MemDevice, write_block, mem_device, IsWhole, mem_device-IsArray, new-IsWhole,
}
use bloomfs.Block.Memory as Memory
use bloomfs.Block.Flaky.{
  FlakyDevice, flaky_device, flaky_device-LosesPower, mem_device-MayFail, torn, IsFit, Reboot,
  survives, drops,
}
use bloomfs.Alloc
use bloomfs.Alloc.{Bitmap}
use bloomfs.Alloc.Invariant
use bloomfs.Dedup
use bloomfs.Inode.Table
use bloomfs.Inode.Table.Laws
use bloomfs.Cow.{
  format, fresh, meta_need, div_ceil, inode_slots, Uberblock, Error, bad_uber, uber_magic,
  marshal_binary, parse_uber, commit,
}
use bloomfs.Cow.Uber.{IsEncodable, parse_uber-marshal_binary, length-marshal_binary}
use bloomfs.Cow.Mount.{Rooted}
use bloomfs.Cow.Image.{Savable}
use bloomfs.Cow.Format.{Blank, IsFormatted, format-IsFormatted}
use bloomfs.Cow.Progress.{Well, commit-Well}
use bloomfs.Cow.Atomic.{Ready, IsAtomic, new_uber}
use bloomfs.Cow.PowerLoss.{Durable}
use bloomfs.Cow.Recovery.{Mounted, commit-IsAtomic}

abbrev pub checksum : List ℕ → List ℕ
checksum x = replicate 32 (length x)

pub digest : (x : List ℕ) → length (checksum x) ≡ 32
digest x = length-replicate 32 (length x)

abbrev pub first : Uberblock
first = record {
  magic = uber_magic;
  seq = 1;
  bytes_per_block = 4096;
  active_meta = 0;
  total_blocks = 6;
  meta_a = 2;
  meta_b = 3;
  meta_blocks = 1;
  inode_count = 4;
  data_start = 4;
  root_inode = 0;
  next_inode = 1;
  bitmap_len = 0;
  ddt_len = 0;
  inode_len = 0;
}

pub first-IsEncodable : IsEncodable first
first-IsEncodable = record {
  magic = refl;
  seq = omega arith;
  bytes_per_block = omega arith;
  active_meta = omega arith;
  total_blocks = omega arith;
  meta_a = omega arith;
  meta_b = omega arith;
  meta_blocks = omega arith;
  inode_count = omega arith;
  data_start = omega arith;
  root_inode = omega arith;
  next_inode = omega arith;
  bitmap_len = omega arith;
  ddt_len = omega arith;
  inode_len = omega arith;
}

parse_uber-marshal_binary_example : parse_uber checksum (marshal_binary checksum first) ≡ ok first
parse_uber-marshal_binary_example =
    parse_uber-marshal_binary checksum first digest first-IsEncodable

-- An image with the uberblock in its slot, on a device that takes one more write.
abbrev pub disk : FlakyDevice
disk = record {
  inner = (write_block (Memory.new 6) 1 (marshal_binary checksum first)).0;
  stable = (write_block (Memory.new 6) 1 (marshal_binary checksum first)).0;
  left = 2;
}

pub zeros_fail : parse_uber checksum torn ≡ err bad_uber
unfolding parse_uber torn from_le
zeros_fail = refl

pub torn_fails : (t : List ℕ) → t ≡ torn → (e : Error) × (parse_uber checksum t ≡ err e)
torn_fails t h = (bad_uber, ap (parse_uber checksum) h ∙ zeros_fail)

pub fresh_reads : Memory.read_block (Memory.new 6) 0 ≡ ok torn
unfolding Memory.read_block Memory.new torn
fresh_reads = refl

pub disk_reads :
    (j : ℕ)
    → Memory.read_block disk.inner j
      ≡ (if 1 == j then ok (marshal_binary checksum first) else Memory.read_block (Memory.new 6) j)
disk_reads j =
    mem_device-IsArray.reads_back (Memory.new 6) 1 j (marshal_binary checksum first) (new-IsWhole 6)
      (unfold Memory.new in omega arith) (length-marshal_binary checksum first digest)

pub disk-IsWhole : IsWhole disk.inner
disk-IsWhole =
    mem_device-IsArray.stays_good (Memory.new 6) 1 (marshal_binary checksum first) (new-IsWhole 6)

pub disk_size : disk.inner.count ≡ 6
unfolding Memory.new
disk_size = mem_device-IsArray.keeps_blocks (Memory.new 6) 1 (marshal_binary checksum first)

disk-Rooted : Rooted checksum flaky_device disk first
disk-Rooted = record {
  own = marshal_binary checksum first;
  other = torn;
  own_read = disk_reads 1;
  other_read = disk_reads 0 ∙ fresh_reads;
  own_parses = parse_uber-marshal_binary checksum first digest first-IsEncodable;
  other_older = rw zeros_fail tt;
}

empty-Savable : Savable (Alloc.new 6) [] (Table.new 4)
empty-Savable = record {
  bitmap = Invariant.new-IsValid 6 (omega arith);
  entries = tt;
  no_repeat = tt;
  number = omega arith;
  inodes = Laws.new-IsValid 4;
  small =
      unfold Alloc.marshal_len Dedup.marshal_len Table.marshal_len Table.new Alloc.new in
      omega arith;
}

disk-Ready : Ready checksum flaky_device disk first (Alloc.new 6) [] (Table.new 4) 0 2
disk-Ready = record {
  rooted = disk-Rooted;
  laid = record {
    active = omega arith;
    first = omega arith;
    second = omega arith;
    last = omega (arith, disk_size);
  };
  encodable = first-IsEncodable;
  savable = empty-Savable;
  capacity = unfold Table.new Table.cap in refl;
  root_fits = omega arith;
  next_fits = omega arith;
  seq_fits = omega arith;
}

disk-IsFit : IsFit disk
disk-IsFit = (disk-IsWhole, disk-IsWhole, refl)

disk-Durable :
    Durable flaky_device IsFit
      (λ t. t ≡ torn)
      Reboot
      flaky_device-LosesPower
      (Mounted first)
      disk
      disk
disk-Durable s' survives j k = refl
disk-Durable s' drops j k = refl

abbrev answer : FlakyDevice × Result Error (Uberblock × Bitmap)
answer = commit flaky_device checksum first (Alloc.new 6) [] (Table.new 4) 0 2 none disk

abbrev Answered : FlakyDevice × Result Error (Uberblock × Bitmap) → Type 0
Answered =
    IsAtomic checksum flaky_device first (new_uber first (Alloc.new 6) [] (Table.new 4) 0 2)
      (Alloc.new 6) [] (Table.new 4) disk

commit-IsAtomic_example :
    Answered answer × ((s' : FlakyDevice) → Reboot answer.0 s' → Answered (s', answer.1))
commit-IsAtomic_example =
    commit-IsAtomic checksum digest flaky_device IsFit (λ t. t ≡ torn) Reboot
      flaky_device-LosesPower torn_fails disk first (Alloc.new 6) [] (Table.new 4) 0 2 disk-IsFit
      disk-Ready disk-Durable none

commit-Well_example :
    Well mem_device IsWhole mem_device-IsArray
      (new_uber first (Alloc.new 6) [] (Table.new 4) 0 2, Alloc.apply_deferred (Alloc.new 6))
      (mem_device.blocks disk.inner)
      (commit mem_device checksum first
        (Alloc.new 6)
        []
        (Table.new 4)
        0
        2
        (some (replicate 5000 9))
        disk.inner)
commit-Well_example =
    commit-Well mem_device IsWhole mem_device-IsArray checksum digest first (Alloc.new 6) []
      (Table.new 4) 0 2 empty-Savable disk.inner disk-IsWhole disk-Ready.laid
      (unfold Alloc.marshal_len Dedup.marshal_len Table.marshal_len Table.new Alloc.new in
        omega arith)
      (some (replicate 5000 9))

blank : Blank checksum mem_device (Memory.new 6) (inode_slots 4) 100
unfolding Memory.new fresh meta_need div_ceil inode_slots
blank = record {
  raw = torn;
  raw_read = fresh_reads;
  raw_older = rw zeros_fail tt;
  room = omega arith;
  total_fits = omega arith;
  inodes_fit = omega arith;
  reserve_fits = omega arith;
}

format-IsFormatted_example :
    IsFormatted checksum mem_device
      (Memory.new 6)
      (inode_slots 4)
      100
      (format mem_device checksum 4 100 (Memory.new 6))
format-IsFormatted_example =
    format-IsFormatted checksum digest mem_device IsWhole mem_device-IsArray (λ t. t ≡ torn)
      mem_device-MayFail torn_fails 4 100 (Memory.new 6) (new-IsWhole 6) blank
