-- ===== src/Volume/Attributes.antt =====
-- rust/bloomfs-fs/src/lib.rs: the attributes of an inode, the figures of the volume, and the calls that
-- ask it for access and room.
use bloomfs.Base.{ℕ, ◌+◌, ◌-◌, length, Result, ok, err}
use bloomfs.Block.{Device}
use bloomfs.Alloc.{available, deferred_count}
use bloomfs.Inode.{Inode}
use bloomfs.Inode.Table
use bloomfs.Fs.{Error, blk}
use bloomfs.Volume.{Volume, Action, ◌>>=◌, asks, get_inode, put_inode, now}

pub record Stat : Type 0 where
  pub ino : ℕ
  pub size : ℕ
  pub nlink : ℕ
  pub generation : ℕ
  pub mode : ℕ
  pub kind : ℕ
  pub uid : ℕ
  pub gid : ℕ
  pub atime : ℕ
  pub mtime : ℕ
  pub ctime : ℕ

unfoldable pub stat_of : ℕ → Inode → Stat
stat_of id i = record {
  ino = id;
  size = i.file_size;
  nlink = i.nlink;
  generation = i.generation;
  mode = i.mode;
  kind = i.kind;
  uid = i.uid;
  gid = i.gid;
  atime = i.atime;
  mtime = i.mtime;
  ctime = i.ctime;
}

pub record FsStat : Type 0 where
  pub bytes_per_block : ℕ
  pub blocks : ℕ
  pub blocks_free : ℕ
  pub files : ℕ
  pub files_free : ℕ

module _ {d : Device} where
  unfoldable pub stat : Volume d → ℕ → Result Error Stat
  stat v id = elim (get_inode v id) [ err e ↦ err e | ok i ↦ ok (stat_of id i) ]

  -- The free inodes are below the high-water mark, and that is at most the capacity.
  unfoldable pub statfs : Volume d → FsStat
  statfs v =
      let used = v.ub.next_inode - length v.free_inodes in
      record {
        bytes_per_block = blk;
        blocks = v.bm.total;
        blocks_free = available v.bm + deferred_count v.bm;
        files = Table.cap v.inodes;
        files_free = Table.cap v.inodes - used;
      }

  unfoldable pub mutate_inode : ℕ → (Inode → Inode) → Action d (Unit {0})
  mutate_inode id f = do i ← asks (λ v. get_inode v id); put_inode id (f i)

  unfoldable pub chmod : ℕ → ℕ → Action d (Unit {0})
  chmod id mode = do t ← now; mutate_inode id (λ i. record i { mode = mode; ctime = t })

  unfoldable pub chown : ℕ → ℕ → ℕ → Action d (Unit {0})
  chown id uid gid = do t ← now; mutate_inode id (λ i. record i { uid = uid; gid = gid; ctime = t })

  unfoldable pub utimes : ℕ → ℕ → ℕ → Action d (Unit {0})
  utimes id atime mtime = do
    t ← now
    mutate_inode id (λ i. record i { atime = atime; mtime = mtime; ctime = t })
