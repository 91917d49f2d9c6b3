-- ===== src/Cow/Format.antt =====
-- rust/bloomfs-cow/src/lib.rs: `format` and the mount of a new image.
use bloomfs.Base.{
  ℕ, ◌+◌, ◌*◌, ◌/◌, ◌%◌, ◌^◌, ◌≤◌, ◌<◌, ◌≡◌, refl, sym, ◌∙◌, inl, inr, List, [], false, leb, length,
  length-replicate, none, Result, ok, err, arith,
}
use bloomfs.Block.{Device, IsArray, MayFail}
use bloomfs.Alloc
use bloomfs.Alloc.{Bitmap}
use bloomfs.Alloc.Invariant
use bloomfs.Alloc.Runs.{reserve_lem, reserve_frame}
use bloomfs.Dedup
use bloomfs.Inode.Table
use bloomfs.Inode.Table.Laws
use bloomfs.Cow.{
  Uberblock, Error, and_then, with_lengths, meta_start, meta_need, fresh, div_ceil, inode_slots,
  write_snapshot, load, marshal_binary, parse_uber, write_uber, mount, format,
}
use bloomfs.Cow.Uber.{IsEncodable, parse_uber-marshal_binary}
use bloomfs.Block.Runs.{Confined}
use bloomfs.Cow.Mount.{Older, Rooted, mount-Rooted}
use bloomfs.Cow.Image.{Savable}
use bloomfs.Cow.Staged.{Staged, write_snapshot-Staged}
use bloomfs.Cow.Flip.{Flipped, load-same, write_uber-Flipped}
use bloomfs.Cow.Progress.{Well, write_snapshot-Well, write_uber-Well}

-- A device of `total` blocks that does not fail, whose first block holds no uberblock with a number
-- from 1 on, with room for both metadata slots.
pub record Blank (hash : List ℕ → List ℕ) (d : Device) (s : d.State) (inode_count ddt_reserve : ℕ)
    : Type 0 where
  pub raw : List ℕ
  pub raw_read : d.read_block s 0 ≡ ok raw
  pub raw_older : Older (fresh (d.blocks s) inode_count ddt_reserve) (parse_uber hash raw)
  pub room : (fresh (d.blocks s) inode_count ddt_reserve).data_start < d.blocks s
  pub total_fits : d.blocks s < 2 ^ 32
  pub inodes_fit : inode_count < 2 ^ 32
  pub reserve_fits : ddt_reserve < 2 ^ 32

-- The bitmap of a new image.
abbrev pub used_front : ℕ → ℕ → ℕ → Bitmap
used_front total inode_count ddt_reserve =
    Alloc.reserve (Alloc.new total) 0 (fresh total inode_count ddt_reserve).data_start

front-IsValid :
    (total n k : ℕ)
    → total < 2 ^ 32
    → (fresh total n k).data_start < total
    → Invariant.IsValid (used_front total n k)
front-IsValid total n k h l =
    (reserve_lem (Alloc.new total) 0 _ (Invariant.new-IsValid total (omega arith)) (omega arith)).0

div_ceil_eight : (m : ℕ) → (m ≤ div_ceil m 8 * 8) × (div_ceil m 8 ≤ m / 8 + 1)
unfolding div_ceil
div_ceil_eight m = ground arith

div_ceil_block : (m : ℕ) → m < 2 ^ 64 → m ≤ div_ceil (m % 2 ^ 64) 4096 * 4096
unfolding div_ceil
div_ceil_block m h = ground arith

module _ (total n k : ℕ) (small : total < 2 ^ 32) (n_small : n < 2 ^ 32) (k_small : k < 2 ^ 32)
    (room : (fresh total n k).data_start < total) where
  abbrev bm : Bitmap
  bm = used_front total n k

  front_len : Alloc.marshal_len bm ≡ 8 + ((total + 63) / 64) * 8
  unfolding Alloc.marshal_len
  front_len =
      let kept : bm.total ≡ total =
        unfold Alloc.new in (reserve_frame (Alloc.new total) 0 (fresh total n k).data_start).0 in
      omega (arith, (front-IsValid total n k small room).fits, kept)

  front-Savable : Savable bm [] (Table.new n)
  front-Savable = record {
    bitmap = front-IsValid total n k small room;
    entries = tt;
    no_repeat = tt;
    number = omega arith;
    inodes = Laws.new-IsValid n;
    small = unfold Dedup.marshal_len Table.marshal_len Table.new in omega (arith, front_len);
  }

  front_fits :
      Alloc.marshal_len bm + Dedup.marshal_len [] + Table.marshal_len (Table.new n)
      ≤ (fresh total n k).meta_blocks * 4096
  unfolding fresh meta_need Dedup.marshal_len Table.marshal_len Table.new
  front_fits = omega (
    arith,
    front_len,
    div_ceil_eight total,
    div_ceil_block (64 + (8 + div_ceil total 8) + k + n * 128),
  )

  fresh-IsEncodable : IsEncodable (with_lengths (fresh total n k) bm [] (Table.new n))
  unfolding fresh with_lengths
  fresh-IsEncodable =
      let wide : 2 + meta_need total n k + meta_need total n k < total = room in
      record {
        magic = refl;
        seq = omega arith;
        bytes_per_block = omega arith;
        active_meta = omega arith;
        total_blocks = omega arith;
        meta_a = omega arith;
        meta_b = omega arith;
        meta_blocks = omega arith;
        inode_count = omega arith;
        data_start = omega arith;
        root_inode = omega arith;
        next_inode = omega arith;
        bitmap_len = omega arith;
        ddt_len = omega arith;
        inode_len = omega arith;
      }

-- The image is written, and a mount yields its uberblock, the bitmap with the front reserved, and empty
-- tables.
abbrev pub IsFormatted :
    (hash : List ℕ → List ℕ) (d : Device) (s : d.State) (inode_count ddt_reserve : ℕ)
    → d.State × Result Error Uberblock
    → Type 0
IsFormatted hash d s n k (s', ok u) =
    (u ≡ with_lengths (fresh (d.blocks s) n k) (used_front (d.blocks s) n k) [] (Table.new n))
    × Rooted hash d s' u
    × (mount d hash s'
        ≡ ok (u, record (used_front (d.blocks s) n k) { deferred = [] }, [], Table.new n))
IsFormatted hash d s n k (s', err e) = ⊥

module _ (hash : List ℕ → List ℕ) (digest : (x : List ℕ) → length (hash x) ≡ 32) (d : Device)
    (IsGood : d.State → Type 0) (fine : IsArray d IsGood) (IsTorn : List ℕ → Type 0)
    (safe : MayFail d IsGood IsTorn)
    (torn_fails : (t : List ℕ) → IsTorn t → (e : Error) × (parse_uber hash t ≡ err e)) (n k : ℕ)
    (s : d.State) (g : IsGood s) (b : Blank hash d s n k) where
  abbrev total : ℕ
  total = d.blocks s

  abbrev front : Bitmap
  front = used_front total n k

  abbrev ub : Uberblock
  ub = with_lengths (fresh total n k) front [] (Table.new n)

  saved : Savable front [] (Table.new n)
  saved = front-Savable total n k b.total_fits b.inodes_fit b.reserve_fits b.room

  fresh_cap : (fresh total n k).inode_count ≡ Table.cap (Table.new n)
  unfolding fresh Table.cap Table.new
  fresh_cap = sym (length-replicate n _)

  mounted :
      (s1 s' : d.State)
      → Confined d IsGood IsTorn safe
          (meta_start (fresh total n k))
          (fresh total n k).meta_blocks
          s
          s1
      → Confined d IsGood IsTorn safe (ub.seq % 2) 1 s1 s'
      → d.read_block s' (ub.seq % 2) ≡ ok (marshal_binary hash ub)
      → load d s1 ub ≡ ok (ub, record front { deferred = [] }, [], Table.new n)
      → IsFormatted hash d s n k (s', ok ub)
  unfolding fresh with_lengths meta_start
  mounted s1 s' c f e h =
      let q : Rooted hash d s' ub = record {
        own = marshal_binary hash ub;
        other = b.raw;
        own_read = e;
        other_read = f.outside 0 (inl (omega arith)) ∙ c.outside 0 (inl (omega arith)) ∙ b.raw_read;
        own_parses =
            parse_uber-marshal_binary hash ub digest
              (fresh-IsEncodable total n k b.total_fits b.inodes_fit b.reserve_fits b.room);
        other_older = b.raw_older;
      } in
      (
        refl,
        q,
        mount-Rooted hash d s' ub q
            ∙ load-same d ub s1 s' (λ j l m. f.outside j (inr (omega arith)))
            ∙ h,
      )

  after_flip :
      (s1 : d.State) (p : d.State × Result Error (Unit {0}))
      → Confined d IsGood IsTorn safe
          (meta_start (fresh total n k))
          (fresh total n k).meta_blocks
          s
          s1
      → load d s1 ub ≡ ok (ub, record front { deferred = [] }, [], Table.new n)
      → Flipped hash digest d IsGood IsTorn safe torn_fails s1 ub p
      → Well d IsGood fine tt total p
      → IsFormatted hash d s n k (and_then p (λ _ s2. (s2, ok ub)))
  after_flip s1 (s', ok _) c h (f, e) w = mounted s1 s' c f e h
  after_flip s1 (s', err _) c h f w = absurd w

  room_two : 2 ≤ total
  room_two =
      (let r : 2 + meta_need total n k + meta_need total n k < total = unfold fresh in b.room in
        omega arith)

  after_stage :
      (p : d.State × Result Error Uberblock)
      → Staged d IsGood IsTorn safe (fresh total n k) front [] (Table.new n) saved fresh_cap s p
      → Well d IsGood fine ub total p
      → IsFormatted hash d s n k
          (and_then p (λ u s1. and_then (write_uber d hash u s1) (λ _ s2. (s2, ok u))))
  after_stage (s1, ok u) (c, e, h) (e', g1, size) = rw e (
      after_flip s1 (write_uber d hash ub s1) c h
        (write_uber-Flipped hash digest d IsGood IsTorn safe torn_fails s1 ub g1 (rw size room_two))
        (write_uber-Well d IsGood fine hash digest ub total s1 g1 room_two size))
  after_stage (s1, err _) c w = absurd w

  room_slot : meta_start (fresh total n k) + (fresh total n k).meta_blocks ≤ total
  unfolding fresh meta_start
  room_slot =
      (let r : 2 + meta_need total n k + meta_need total n k < total = b.room in omega arith)

  written : IsFormatted hash d s n k (
      and_then
        (write_snapshot d (fresh total n k) front [] (Table.new n) none s)
        (λ u s1. and_then (write_uber d hash u s1) (λ _ s2. (s2, ok u))))
  written =
      after_stage (write_snapshot d (fresh total n k) front [] (Table.new n) none s)
        (write_snapshot-Staged d IsGood IsTorn safe (fresh total n k) front [] (Table.new n) saved
          fresh_cap s none g room_slot)
        (write_snapshot-Well d IsGood fine (fresh total n k) front [] (Table.new n) saved s g
          room_slot (front_fits total n k b.total_fits b.inodes_fit b.reserve_fits b.room) none)

-- On a device that does not fail, whose first block holds no uberblock with a number from 1 on, with
-- room for both metadata slots and sizes below 2^32, format succeeds, and a mount then yields the
-- uberblock it returned, the bitmap with the blocks before the data reserved, and empty tables.
pub format-IsFormatted :
    (hash : List ℕ → List ℕ) (digest : (x : List ℕ) → length (hash x) ≡ 32) (d : Device)
    (IsGood : d.State → Type 0) (fine : IsArray d IsGood) (IsTorn : List ℕ → Type 0)
    (safe : MayFail d IsGood IsTorn)
    (torn_fails : (t : List ℕ) → IsTorn t → (e : Error) × (parse_uber hash t ≡ err e))
    (inode_count k : ℕ) (s : d.State)
    → IsGood s
    → Blank hash d s (inode_slots inode_count) k
    → IsFormatted hash d s (inode_slots inode_count) k (format d hash inode_count k s)
unfolding format Dedup.new
format-IsFormatted hash digest d IsGood fine IsTorn safe torn_fails inode_count k s g b =
    let room : leb (d.blocks s) (fresh (d.blocks s) (inode_slots inode_count) k).data_start
        ≡ false =
      (let r = b.room in ground arith) in
    rw room
      (written hash digest d IsGood fine IsTorn safe torn_fails (inode_slots inode_count) k s g b)
