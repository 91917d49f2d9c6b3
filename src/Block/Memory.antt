-- ===== src/Block/Memory.antt =====
-- rust/bloomfs-block/src/lib.rs: `MemDevice`, one flat buffer, as an array of blocks.
use bloomfs.Base.{
  ℕ, ◌+◌, ◌*◌, ◌≤◌, ◌<◌, ◌≡◌, refl, ◌∙◌, true, false, List, ltb, leb, ◌==◌, if◌then◌else◌,
  Bool-cases, inl, inr, length, drop, slice, replicate, Result, ok, err, arith, length-take,
  length-drop, length-replicate,
}
use bloomfs.Base.Fields.{
  copy_at, length-copy_at, slice-copy_at_self, slice-copy_at_before, slice-copy_at_behind,
}
use bloomfs.Block.{Error, Device, IsArray, block_size, out_of_range, short_data}

pub record MemDevice : Type 0 where
  pub bytes : List ℕ
  pub count : ℕ

unfoldable pub new : ℕ → MemDevice
new blocks = record { bytes = replicate (blocks * block_size) 0; count = blocks }

unfoldable pub read_block : MemDevice → ℕ → Result Error (List ℕ)
read_block s num =
    if leb s.count num then err out_of_range else ok (slice s.bytes (num * block_size) block_size)

unfoldable pub write_block : MemDevice → ℕ → List ℕ → MemDevice × Result Error (Unit {0})
write_block s num b =
    if leb s.count num
    then (s, err out_of_range)
    else if length b == block_size
    then (record s { bytes = copy_at s.bytes (num * block_size) b }, ok tt)
    else (s, err short_data)

abbrev pub mem_device : Device
mem_device = record {
  State = MemDevice;
  read_block = read_block;
  write_block = write_block;
  blocks = λ s. s.count;
  sync = λ s. (s, ok tt);
}

-- The buffer is as long as its blocks.
pub record IsWhole (s : MemDevice) : Type 0 where
  pub whole : length s.bytes ≡ s.count * block_size

pub new-IsWhole : (n : ℕ) → IsWhole (new n)
unfolding new
new-IsWhole n = record { whole = length-replicate (n * block_size) 0 }

keeps : (s : MemDevice) (num : ℕ) (b : List ℕ) → (write_block s num b).0.count ≡ s.count
unfolding write_block
keeps s num b = ground arith

module _ (s : MemDevice) (num : ℕ) (w : IsWhole s) where
  readable : num < s.count → (b : List ℕ) × (read_block s num ≡ ok b) × (length b ≡ block_size)
  unfolding read_block
  readable h = (
    slice s.bytes (num * 4096) 4096,
    ground arith,
    omega (
      arith,
      length-take 4096 (drop (num * 4096) s.bytes),
      length-drop (num * 4096) s.bytes,
      w.whole,
    ),
  )

  module _ (b : List ℕ) where
    writes : num < s.count → length b ≡ block_size → (write_block s num b).1 ≡ ok tt
    unfolding write_block
    writes h l = ground arith

    written-IsWhole :
        num < s.count
        → length b ≡ 4096
        → IsWhole (record s { bytes = copy_at s.bytes (num * 4096) b })
    written-IsWhole h l = record {
      whole = length-copy_at s.bytes (num * 4096) b (omega (arith, w.whole)) ∙ w.whole;
    }

    write-IsWhole : IsWhole (write_block s num b).0
    write-IsWhole = elim (Bool-cases (leb s.count num)) [
      | inl out ↦ unfold write_block in rw out w
      | inr inside ↦ elim (Bool-cases (length b == 4096)) [
        | inl l ↦
            unfold write_block in rw (inside, l) (written-IsWhole (ground arith) (ground arith))
        | inr l ↦ unfold write_block in rw (inside, l) w
      ]
    ]

    slice-written :
        (j : ℕ)
        → num < s.count
        → length b ≡ 4096
        → slice (copy_at s.bytes (num * 4096) b) (j * 4096) 4096
          ≡ (if num == j then b else slice s.bytes (j * 4096) 4096)
    slice-written j h l =
        let fits : num * 4096 + length b ≤ length s.bytes = omega (arith, w.whole) in
        elim (Bool-cases (num == j)) [
          | inl e ↦
              let here : j ≡ num = ground arith in
              rw e (rw here (rw l at (slice-copy_at_self s.bytes (num * 4096) b fits)))
          | inr e ↦ rw e (elim (Bool-cases (ltb j num)) [
            | inl before ↦
                slice-copy_at_before s.bytes (num * 4096) b fits (j * 4096) 4096 (ground arith)
            | inr behind ↦
                slice-copy_at_behind s.bytes (num * 4096) b fits (j * 4096) 4096 (ground arith)
          ])
        ]

    reads_back :
        (j : ℕ)
        → num < s.count
        → length b ≡ block_size
        → read_block (write_block s num b).0 j ≡ (if num == j then ok b else read_block s j)
    unfolding read_block write_block
    reads_back j h l =
        let inside : leb s.count num ≡ false = ground arith in
        let whole : (length b == 4096) ≡ true = ground arith in
        rw (inside, whole) (rw (slice-written j h l) (ground arith))

-- A device in memory whose buffer is as long as its blocks is an array of blocks: every block below
-- the count reads and takes a block of the right size, which reads back, and no other block changes.
pub mem_device-IsArray : IsArray mem_device IsWhole
mem_device-IsArray = record {
  readable = λ s num w h. readable s num w h;
  writes = λ s num b w h l. writes s num w b h l;
  stays_good = λ s num b w. write-IsWhole s num w b;
  keeps_blocks = λ s num b. keeps s num b;
  reads_back = λ s num j b w h l. reads_back s num w b j h l;
  syncs = λ s. refl;
}
