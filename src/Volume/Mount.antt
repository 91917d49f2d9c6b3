-- ===== src/Volume/Mount.antt =====
-- rust/bloomfs-fs/src/lib.rs: `FS::mount` and `FS::format`. The clock is a parameter.
use bloomfs.Base.{ℕ, ◌*◌, Option, some, List, [], replicate, Result, ok, err}
use bloomfs.Block.{Device}
use bloomfs.Inode.{Inode, type_dir}
use bloomfs.Inode
use bloomfs.Store.{Crates, BlockStore}
use bloomfs.Store
use bloomfs.Cow.{Uberblock}
use bloomfs.Cow
use bloomfs.CachedDir
use bloomfs.Fs.{Error, cow, store, blk}
use bloomfs.Volume.{
  Volume, Action, ◌>>=◌, ◌>>◌, gets, root, now, put_inode, commit, rebuild_free_inodes,
}

abbrev pub default_inode_count : ℕ
default_inode_count = 4096

abbrev pub default_ddt_reserve : ℕ
default_ddt_reserve = 256 * 1024

module _ (c : Crates) (d : Device) (clock : ℕ → ℕ) where
  unfoldable pub mount : d.State → Option (List ℕ) → Result Error (Volume d)
  mount s key = elim (Cow.mount d c.blake3 s) [
    | err e ↦ err (cow e)
    | ok (ub, bm, ddt, inodes) ↦ elim (Store.new key) [
      | err e ↦ err (store e)
      | ok bs ↦ ok (record {
        dev = s;
        ub = ub;
        bm = bm;
        ddt = ddt;
        inodes = inodes;
        bs = bs;
        open_count = [];
        free_inodes = rebuild_free_inodes inodes;
        clock = clock;
        reads = 0;
        meta_buf = replicate (ub.meta_blocks * blk) 0;
        dir_cache = some CachedDir.new;
      })
    ]
  ]

  unfoldable pub root_inode : ℕ → Inode
  root_inode now = record Inode.default {
    kind = type_dir;
    nlink = 2;
    mode = 493;
    atime = now;
    mtime = now;
    ctime = now;
  }

  -- The root directory of a volume that was just formatted, made durable.
  unfoldable pub make_root : Action d (Unit {0})
  make_root = do t ← now; id ← gets root; put_inode id (root_inode t); commit c

  unfoldable pub finish : Volume d × Result Error (Unit {0}) → Result Error (Volume d)
  finish (v, ok _) = ok v
  finish (v, err e) = err e

  unfoldable pub format : d.State → Option (List ℕ) → Result Error (Volume d)
  format s key =
      let r = Cow.format d c.blake3 default_inode_count default_ddt_reserve s in
      elim r.1 [
        | err e ↦ err (cow e)
        | ok _ ↦ elim (mount r.0 key) [ err e ↦ err e | ok v ↦ finish (make_root v) ]
      ]
