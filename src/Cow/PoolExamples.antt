-- ===== src/Cow/PoolExamples.antt =====
-- A pool with one stored block on a disk with an image, for a commit of rust/bloomfs-cow/src/lib.rs.
use bloomfs.Base.{
  ℕ, ◌+◌, ◌^◌, ◌<◌, ◌≡◌, refl, sym, ap, subst, ◌∙◌, List, [], ◌∷◌, length, replicate, true, false,
  Option, none, some, ok, arith, inl, inr, ◌==◌, if◌then◌else◌, Bool-cases,
}
use bloomfs.Base.Assoc.{bytes_eq, bytes_eq_iff, bytes_keyed}
use bloomfs.Base.Assoc
use bloomfs.Block.Memory.{write_block, read_block, mem_device, IsWhole, mem_device-IsArray}
use bloomfs.Block.Flaky.{mem_device-MayFail, torn}
use bloomfs.Alloc
use bloomfs.Alloc.{Bitmap, reserve, get}
use bloomfs.Alloc.Invariant
use bloomfs.Alloc.Invariant.{IsValid}
use bloomfs.Base.{All}
use bloomfs.Base.BitArray.{test_at, set_at}
use bloomfs.Alloc.Deferred.{pinned_by, FitsWord}
use bloomfs.Alloc.Runs.{in_run, reserve_lem, reserve_frame}
use bloomfs.Dedup
use bloomfs.Dedup.{Key, Entry}
use bloomfs.Inode.Table
use bloomfs.Inode.Table.Laws
use bloomfs.Cow.{commit, marshal_binary, meta_start, successor}
use bloomfs.Cow.Uber.{parse_uber-marshal_binary}
use bloomfs.Cow.Atomic.{Ready}
use bloomfs.Cow.Examples.{
  checksum, digest, first, first-IsEncodable, disk, disk_reads, disk-IsWhole, disk_size,
  fresh_reads, torn_fails, zeros_fail,
}
use bloomfs.Store.{
  Crates, BlockStore, Ref, Pool, read, read_clusters, unpack, verify, decrypt, ref_from,
}
use bloomfs.Store.Invariant.{ref_at, run_of, IsConsistent, Placed}
use bloomfs.Store.Committed.{IsClear, Through, commit-IsConsistent}

abbrev toy : Crates
toy = record {
  blake3 = λ x. replicate 32 (length x);
  encode_all = λ x. some x;
  decode_all = λ x. some x;
  encrypt_sector = λ k tweak x. x;
  decrypt_sector = λ k tweak x. x;
}

abbrev plain : BlockStore
plain = record { cipher = none }

abbrev sector : List ℕ
sector = 5 ∷ 6 ∷ replicate 4094 0

abbrev key : Key
key = replicate 32 2

abbrev entry : Entry
entry = record { start = 4; count = 1; payload = 2; logical = 2; raw = true; refs = 1 }

abbrev pool : Pool mem_device
pool = record {
  dev = (write_block disk.inner 4 sector).0;
  bm = reserve (Alloc.new 6) 0 5;
  ddt = (key, entry) ∷ [];
}

pool_reads :
    (j : ℕ) → read_block pool.dev j ≡ (if 4 == j then ok sector else read_block disk.inner j)
pool_reads j =
    mem_device-IsArray.reads_back disk.inner 4 j sector disk-IsWhole (omega (arith, disk_size)) refl

pool_size : pool.dev.count ≡ 6
pool_size = mem_device-IsArray.keeps_blocks disk.inner 4 sector ∙ disk_size

pool-IsWhole : IsWhole pool.dev
pool-IsWhole = mem_device-IsArray.stays_good disk.inner 4 sector disk-IsWhole

pool_bits : IsValid pool.bm × ((j : ℕ) → in_run 0 5 j ≡ true → get pool.bm j ≡ true)
pool_bits =
    let (valid, bits) =
      reserve_lem (Alloc.new 6) 0 5 (Invariant.new-IsValid 6 (omega arith))
        (unfold Alloc.new in omega arith) in
    (valid, λ j h. bits j ∙ (unfold Alloc.new in ground (arith, h)))

pool_frame : (pool.bm.total ≡ 6) × (pool.bm.deferred ≡ [])
pool_frame = (let (t, e) = reserve_frame (Alloc.new 6) 0 5 in unfold Alloc.new in (t, e))

block_reads : read toy plain mem_device pool.dev (ref_from key entry) ≡ ok (5 ∷ 6 ∷ [])
unfolding read read_clusters unpack verify decrypt ref_from
block_reads = rw (pool_reads 4) refl

only_entry : (k : Key) (a : Ref) → ref_at pool.ddt k ≡ some a → (key ≡ k) × (ref_from key entry ≡ a)
unfolding Dedup.lookup Assoc.lookup
only_entry k a h = elim (Bool-cases (bytes_eq key k)) [
  | inl b ↦
      (let at : key ≡ k = (bytes_eq_iff key k).0 b in
        let e : ref_at pool.ddt k ≡ some (ref_from k entry) = rw b refl in
        let same : ◌≡◌ {A = Option Ref} (some (ref_from k entry)) (some a) = sym e ∙ h in
        let r : ref_from k entry ≡ a = cc in (at, ap (λ (q : Key). ref_from q entry) at ∙ r))
  | inr b ↦
      (let e : ref_at pool.ddt k ≡ none = rw b refl in
        let clash : ◌≡◌ {A = Option Ref} none (some a) = sym e ∙ h in absurd cc)
]

only_count :
    (k : Key) (e : Entry) → Dedup.lookup pool.ddt k ≡ some e → (0 < e.refs) × (e.refs < 2 ^ 32)
unfolding Dedup.lookup Assoc.lookup
only_count k e h = elim (Bool-cases (bytes_eq key k)) [
  | inl b ↦
      (let f : Dedup.lookup pool.ddt k ≡ some entry = rw b refl in
        let same : ◌≡◌ {A = Option Entry} (some entry) (some e) = sym f ∙ h in
        let r : entry ≡ e = cc in
        subst (λ (q : Entry). (0 < q.refs) × (q.refs < 2 ^ 32)) r (omega arith, omega arith))
  | inr b ↦
      (let f : Dedup.lookup pool.ddt k ≡ none = rw b refl in
        let clash : ◌≡◌ {A = Option Entry} none (some e) = sym f ∙ h in absurd cc)
]

nothing_pending : (j : ℕ) → pinned_by pool.bm.deferred j ≡ false
nothing_pending j = ap (λ rs. pinned_by rs j) pool_frame.1

block_marked : (j : ℕ) → run_of (ref_from key entry) j ≡ true → get pool.bm j ≡ true
unfolding ref_from
block_marked j i = pool_bits.1 j (ground (arith, i))

block_placed : Placed toy plain mem_device pool (ref_from key entry)
block_placed = record {
  inside = unfold ref_from in omega (arith, pool_frame.0);
  marked = λ j i. unfold ref_from in block_marked j i;
  unpinned = λ j i. nothing_pending j;
  content = 5 ∷ 6 ∷ [];
  intact = block_reads;
}

pool-IsConsistent : IsConsistent toy plain mem_device IsWhole pool
pool-IsConsistent = record {
  good = pool-IsWhole;
  safe = record { valid = pool_bits.0; pinned = record { held = λ j l h. cc (nothing_pending j) } };
  room = omega (arith, pool_frame.0, pool_size);
  pending_fit = subst (All FitsWord) (sym pool_frame.1) tt;
  counted = record { unique = (unfold Assoc.lookup in refl, tt); positive = only_count };
  placed = λ k a q. subst (Placed toy plain mem_device pool) (only_entry k a q).1 block_placed;
  apart = λ k k' a a' n q q'.
      (let same : k ≡ k' = sym (only_entry k a q).0 ∙ (only_entry k' a' q').0 in
        let eq : bytes_eq k k' ≡ true = (bytes_eq_iff k k').1 same in
        let clash : true ≡ false = sym eq ∙ n in absurd cc);
}

pool_small :
    Alloc.marshal_len pool.bm + Dedup.marshal_len pool.ddt + Table.marshal_len (Table.new 4)
    < 2 ^ 32
unfolding Alloc.marshal_len Dedup.marshal_len Table.marshal_len Table.new Alloc.new reserve
    Alloc.reserve_loop Alloc.reserve_one Alloc.set_bit get test_at set_at
pool_small = omega arith

pool-Ready : Ready checksum mem_device pool.dev first pool.bm pool.ddt (Table.new 4) 0 2
pool-Ready = record {
  rooted = record {
    own = marshal_binary checksum first;
    other = torn;
    own_read = pool_reads 1 ∙ disk_reads 1;
    other_read = pool_reads 0 ∙ disk_reads 0 ∙ fresh_reads;
    own_parses = parse_uber-marshal_binary checksum first digest first-IsEncodable;
    other_older = rw zeros_fail tt;
  };
  laid = record {
    active = omega arith;
    first = omega arith;
    second = omega arith;
    last = omega (arith, pool_size);
  };
  encodable = first-IsEncodable;
  savable = record {
    bitmap = pool_bits.0;
    entries = (
      record {
        key = refl;
        start = omega arith;
        count = omega arith;
        payload = omega arith;
        logical = omega arith;
        refs = omega arith;
      },
      tt,
    );
    no_repeat = (unfold Assoc.lookup in refl, tt);
    number = omega arith;
    inodes = Laws.new-IsValid 4;
    small = pool_small;
  };
  capacity = unfold Table.new Table.cap in refl;
  root_fits = omega arith;
  next_fits = omega arith;
  seq_fits = omega arith;
}

-- The block stands in cluster 4, and the commit writes the uberblocks and block 3.
pool_clear :
    IsClear checksum digest mem_device IsWhole
      (λ t. t ≡ torn)
      mem_device-MayFail
      torn_fails
      toy
      plain
      pool
      pool-IsConsistent
      first
      (Table.new 4)
      0
      2
      pool-Ready
unfolding meta_start successor ref_from
pool_clear k a q j i =
    let here : run_of (ref_from key entry) j ≡ true =
      subst (λ b. run_of b j ≡ true) (sym (only_entry k a q).1) i in
    (ground (arith, here), inr (ground (arith, here)))

commit-IsConsistent_example :
    Through checksum digest mem_device IsWhole
      (λ t. t ≡ torn)
      mem_device-MayFail
      torn_fails
      toy
      plain
      pool
      pool-IsConsistent
      first
      (Table.new 4)
      0
      2
      pool-Ready
      (commit mem_device checksum first pool.bm pool.ddt (Table.new 4) 0 2 none pool.dev)
commit-IsConsistent_example =
    commit-IsConsistent checksum digest mem_device IsWhole (λ t. t ≡ torn) mem_device-MayFail
      torn_fails toy plain pool pool-IsConsistent first (Table.new 4) 0 2 pool-Ready pool_clear none
