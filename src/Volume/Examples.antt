-- ===== src/Volume/Examples.antt =====
-- Examples for the mounted volume, with toy crates, a device of 24 blocks and room for four inodes.
use bloomfs.Base.{
  ℕ, ◌+◌, ◌≡◌, refl, none, some, List, [], ◌∷◌, ◌++◌, length, replicate, take, Result, ok, ltb,
  zero, suc, ◌-◌, subst, if◌then◌else◌, ◌==◌, arith,
}
use bloomfs.Block.Memory as Memory
use bloomfs.Block.Memory.{mem_device}
use bloomfs.Alloc
use bloomfs.Dedup
use bloomfs.Inode
use bloomfs.Inode.{type_dir}
use bloomfs.Store.{Crates}
use bloomfs.Cow.{Uberblock}
use bloomfs.CachedDir
use bloomfs.Fs.{Error}
use bloomfs.Volume.{Volume, Action, ◌>>=◌, ◌>>◌, pure, asks}
use bloomfs.Volume.Pages.{Externals}
use bloomfs.Volume.Contents.{read_file, read_at}
use bloomfs.Volume.Update.{write_file, write_at}
use bloomfs.Volume.Directories.{lookup, readdir}
use bloomfs.Volume.Namespace.{create, mkdir, new_child}
use bloomfs.Volume.Rename.{rename}
use bloomfs.Volume.{alloc_inode}
use bloomfs.Volume.Namespace.{reclaim}
use bloomfs.Volume.Ids.{times, link_count, IsReusable, Reserved, alloc_inode-Reserved}
use bloomfs.Volume.Lifetime.{Reclaimed, reclaim-Reclaimed}

-- The first bytes stand for the digest.
abbrev pub toy : Crates
toy = record {
  blake3 = λ x. take 32 (x ++ replicate 32 0);
  encode_all = λ x. some x;
  decode_all = λ x. some x;
  encrypt_sector = λ k tweak x. x;
  decrypt_sector = λ k tweak x. x;
}

abbrev pub externals : Externals
externals = record {
  crates = toy;
  over = λ fp n k nb. ltb nb 1;
  xxh3 = λ x seed. length x + seed;
  xxh3_64 = λ x. length x;
  lossy = λ x. x;
}

abbrev pub uber : Uberblock
uber = record {
  magic = 0;
  seq = 1;
  bytes_per_block = 4096;
  active_meta = 0;
  total_blocks = 24;
  meta_a = 2;
  meta_b = 3;
  meta_blocks = 1;
  inode_count = 4;
  data_start = 4;
  root_inode = 0;
  next_inode = 1;
  bitmap_len = 0;
  ddt_len = 0;
  inode_len = 0;
}

abbrev start : Volume mem_device
start = record {
  dev = Memory.new 24;
  ub = uber;
  bm = Alloc.reserve (Alloc.new 24) 0 4;
  ddt = Dedup.new;
  inodes = record { inodes = new_child type_dir 493 0 0 ∷ replicate 3 Inode.default; count = 1 };
  bs = record { cipher = none };
  open_count = [];
  free_inodes = [];
  clock = λ n. 100 + n;
  reads = 0;
  meta_buf = replicate 4096 0;
  dir_cache = some CachedDir.new;
}

abbrev script : Action mem_device (List ℕ × List (List ℕ))
script = do
  d1 ← mkdir externals 0 (1 ∷ [])
  f ← create externals d1 (7 ∷ 8 ∷ [])
  write_file toy f (1 ∷ 2 ∷ 3 ∷ [])
  write_at toy f 2 (9 ∷ 9 ∷ [])
  rename externals 9 d1 (7 ∷ 8 ∷ []) 0 (5 ∷ [])
  r ← lookup externals 0 (5 ∷ [])
  bytes ← asks (λ v. read_file toy v f)
  more ← asks (λ v. read_at toy v f 1 2)
  names ← readdir externals 0
  pure (bytes ++ more, names)

abbrev answer : Result Error (List ℕ × List (List ℕ))
answer = (script start).1

abbrev expected : Result Error (List ℕ × List (List ℕ))
expected = ok (1 ∷ 2 ∷ 9 ∷ 9 ∷ 2 ∷ 9 ∷ [], (1 ∷ []) ∷ (5 ∷ []) ∷ [])

-- A directory, a file, and two slots without a link, one of them on the stack.
abbrev used : Volume mem_device
used = record start {
  inodes = record {
    inodes = new_child type_dir 493 0 0 ∷ new_child 0 420 0 0 ∷ replicate 2 Inode.default;
    count = 2;
  };
  ub = record uber { next_inode = 3 };
  free_inodes = 2 ∷ [];
}

blank : (j : ℕ) → link_count used.inodes (suc (suc j)) ≡ 0
unfolding link_count
blank zero = refl
blank (suc zero) = refl
blank (suc (suc j)) = refl

unfolded_times : (id : ℕ) → times id used.free_inodes ≡ (if 2 == id then 1 else 0)
unfolding times
unfolded_times id = omega arith

used-IsReusable : IsReusable used
used-IsReusable = record {
  once = λ id. ground (arith, unfolded_times id);
  vacant_slot = λ id l.
      (let e : 2 ≡ id = ground (arith, l, unfolded_times id) in
        (omega (arith, e), subst (λ (k : ℕ). link_count used.inodes k ≡ 0) e (blank 0)));
  fresh = λ id l.
      (let e : suc (suc (id - 2)) ≡ id = omega (arith, l) in
        subst (λ (k : ℕ). link_count used.inodes k ≡ 0) e (blank (id - 2)));
  within = omega arith;
}

alloc_inode-Reserved_example : Reserved used (alloc_inode used)
alloc_inode-Reserved_example = alloc_inode-Reserved used used-IsReusable

reclaim-Reclaimed_example :
    Reclaimed used 1 (new_child 0 420 0 0) (reclaim externals 1 (new_child 0 420 0 0) used)
reclaim-Reclaimed_example =
    reclaim-Reclaimed externals used 1 (new_child 0 420 0 0) used-IsReusable (unfold times in refl)
      (omega arith)
