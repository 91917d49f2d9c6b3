-- ===== src/Volume.antt =====
-- rust/bloomfs-fs/src/lib.rs: the mounted filesystem, `FS`: its state, the commit, the calls of the
-- block store and the numbers of the inodes.
pub mod Contents
pub mod Update
pub mod Mount
pub mod Pages
pub mod Directories
pub mod Namespace
pub mod Subtree
pub mod Rename
pub mod Ids
pub mod SameIds
pub mod Lifetime
pub mod Remount
pub mod Reading
pub mod Owned
pub mod Records
pub mod Replace
pub mod SetData
pub mod Mirrors
pub mod Peeked
pub mod Coherence
pub mod Queries
mod Examples
mod TreeExamples
mod DataExamples
pub mod Attributes
use bloomfs.Base.{
  ℕ, zero, suc, ◌+◌, ◌-◌, ◌*◌, ◌%◌, ◌^◌, Bool, true, false, ◌&&◌, Option, none, some, List, [], ◌∷◌,
  ltb, leb, ◌==◌, if◌then◌else◌, length, replicate, Result, ok, err,
}
use bloomfs.Base.Outcome.{map_err}
use bloomfs.Base.Assoc
use bloomfs.Base.Assoc.{ℕ_keyed}
use bloomfs.Block.{Device}
use bloomfs.Alloc
use bloomfs.Alloc.{Bitmap}
use bloomfs.Dedup
use bloomfs.Inode.{Inode, type_dir}
use bloomfs.Inode
use bloomfs.Inode.Table.{Table}
use bloomfs.Inode.Table
use bloomfs.Store.{Crates, BlockStore, Ref, Pool}
use bloomfs.Store
use bloomfs.Cow.{Uberblock, snapshot}
use bloomfs.Cow
use bloomfs.CachedDir.{DirCache}
use bloomfs.CachedDir
use bloomfs.Fs.{Error, no_inodes, cow, store, inode, blk}

-- `clock` is what the clock returns when it is read for the n-th time, `reads` how often it was read.
-- The last of the vector `free_inodes` comes first here.
pub record Volume (d : Device) : Type 0 where
  pub dev : d.State
  pub ub : Uberblock
  pub bm : Bitmap
  pub ddt : Dedup.Table
  pub inodes : Table
  pub bs : BlockStore
  pub open_count : List (ℕ × ℕ)
  pub free_inodes : List ℕ
  pub clock : ℕ → ℕ
  pub reads : ℕ
  pub meta_buf : List ℕ
  pub dir_cache : Option DirCache

-- A method: it leaves a volume behind, also where it fails.
abbrev pub Action : Device → Type 0 → Type 0
Action d A = Volume d → Volume d × Result Error A

abbrev pub and_then :
    {d : Device} {A B : Type 0}
    → Volume d × Result Error A
    → (A → Action d B)
    → Volume d × Result Error B
and_then (v, ok a) f = f a v
and_then (v, err e) f = (v, err e)

infixl 5 ◌>>=◌ ◌>>◌
abbrev pub ◌>>=◌ : {d : Device} {A B : Type 0} → Action d A → (A → Action d B) → Action d B
◌>>=◌ m f v = and_then (m v) f

abbrev pub ◌>>◌ : {d : Device} {A B : Type 0} → Action d A → Action d B → Action d B
m >> k = m >>= λ _. k

module _ {d : Device} {A : Type 0} where
  abbrev pub pure : A → Action d A
  pure a v = (v, ok a)

  abbrev pub raise : Error → Action d A
  raise e v = (v, err e)

  -- A method that only reads the volume.
  abbrev pub asks : (Volume d → Result Error A) → Action d A
  asks f v = (v, f v)

  abbrev pub gets : (Volume d → A) → Action d A
  gets f v = (v, ok (f v))

  abbrev pub or_raise : Option A → Error → Action d A
  or_raise none e = raise e
  or_raise (some a) e = pure a

abbrev pub modify : {d : Device} → (Volume d → Volume d) → Action d (Unit {0})
modify f v = (f v, ok tt)

abbrev pub check : {d : Device} → Bool → Error → Action d (Unit {0})
check b e v = (v, if b then err e else ok tt)

-- Scan for the slots without a link, from `id` on.
unfoldable pub scan_free : Table → ℕ → ℕ → List ℕ → List ℕ
scan_free t zero id free = free
scan_free t (suc rounds) id free = elim (Table.get t id) [
  | ok i ↦ scan_free t rounds (id + 1) (if i.nlink == 0 then id ∷ free else free)
  | err e ↦ free
]

unfoldable pub rebuild_free_inodes : Table → List ℕ
rebuild_free_inodes t = scan_free t t.count 0 []

unfoldable pub set_dir_cache : {d : Device} → Bool → Volume d → Volume d
set_dir_cache on v = record v { dir_cache = if on then some CachedDir.new else none }

unfoldable pub set_clock : {d : Device} → (ℕ → ℕ) → Volume d → Volume d
set_clock clock v = record v { clock = clock; reads = 0 }

unfoldable pub root : {d : Device} → Volume d → ℕ
root v = v.ub.root_inode

unfoldable pub now : {d : Device} → Action d ℕ
now v = (record v { reads = v.reads + 1 }, ok (v.clock v.reads))

unfoldable pub touch_mod : {d : Device} → Inode → Action d Inode
touch_mod i = do t ← now; pure (record i { mtime = t; ctime = t })

unfoldable pub touch_meta : {d : Device} → Inode → Action d Inode
touch_meta i = do t ← now; pure (record i { ctime = t })

unfoldable pub get_inode : {d : Device} → Volume d → ℕ → Result Error Inode
get_inode v id = map_err inode (Table.get v.inodes id)

unfoldable pub put_inode : {d : Device} → ℕ → Inode → Action d (Unit {0})
put_inode id i v = elim (Table.put v.inodes id i) [
  | ok t ↦ (record v { inodes = t }, ok tt)
  | err e ↦ (v, err (inode e))
]

unfoldable pub pool_of : {d : Device} → Volume d → Pool d
pool_of v = record { dev = v.dev; bm = v.bm; ddt = v.ddt }

unfoldable pub with_pool : {d : Device} → Volume d → Pool d → Volume d
with_pool v p = record v { dev = p.dev; bm = p.bm; ddt = p.ddt }

-- The scratch buffer after a commit: the snapshot is put there if it fits, whatever the device does.
unfoldable pub used_buffer : {d : Device} → Volume d → List ℕ
used_buffer v =
    let need = v.ub.meta_blocks * blk in
    let used = Alloc.marshal_len v.bm + Dedup.marshal_len v.ddt + Table.marshal_len v.inodes in
    if ltb need used
    then v.meta_buf
    else (if leb need (length v.meta_buf)
        then snapshot v.bm v.ddt v.inodes v.meta_buf
        else v.meta_buf)

unfoldable pub alloc_inode : {d : Device} → Action d ℕ
alloc_inode v = elim v.free_inodes [
  | id ∷ rest ↦ (record v { free_inodes = rest }, ok id)
  | [] ↦
      let id = v.ub.next_inode in
      if leb (Table.cap v.inodes) id
      then (v, err no_inodes)
      else (record v { ub = record v.ub { next_inode = id + 1 } }, ok id)
]

unfoldable pub open_count_of : {d : Device} → Volume d → ℕ → ℕ
open_count_of v id = elim (Assoc.lookup id v.open_count) [ some n ↦ n | none ↦ 0 ]

unfoldable pub bs_release : {d : Device} → Volume d → Ref → Volume d
bs_release v r = with_pool v (Store.release (pool_of v) r)

unfoldable pub is_no_space : Store.Error → Bool
is_no_space (Store.Error.alloc Alloc.Error.no_space) = true
is_no_space _ = false

abbrev pub from_store :
    {d : Device} {A : Type 0} → Volume d × Result Store.Error A → Volume d × Result Error A
from_store (v, ok a) = (v, ok a)
from_store (v, err e) = (v, err (store e))

module _ (c : Crates) where
  unfoldable pub commit : {d : Device} → Action d (Unit {0})
  commit {d} v =
      let r =
        Cow.commit d c.blake3 v.ub v.bm v.ddt v.inodes v.ub.root_inode v.ub.next_inode
          (some v.meta_buf) v.dev in
      let v' = record v { dev = r.0; meta_buf = used_buffer v } in
      elim r.1 [ ok (ub, bm) ↦ (record v' { ub = ub; bm = bm }, ok tt) | err e ↦ (v', err (cow e)) ]

  unfoldable pub fsync : {d : Device} → Action d (Unit {0})
  fsync = commit

  -- One `write` of the block store.
  unfoldable pub store_write : {d : Device} → List ℕ → Volume d → Volume d × Result Store.Error Ref
  store_write {d} x v = let w = Store.write c v.bs d (pool_of v) x in (with_pool v w.0, w.1)

  unfoldable pub bs_write : {d : Device} → List ℕ → Action d Ref
  bs_write x v =
      let w = store_write x v in
      elim w.1 [
        | ok r ↦ (w.0, ok r)
        | err e ↦
            if is_no_space e && ltb 0 (Alloc.pending w.0.bm)
            then and_then (commit w.0) (λ _ v'. from_store (store_write x v'))
            else (w.0, err (store e))
      ]

  unfoldable pub bs_read : {d : Device} → Volume d → Ref → Result Error (List ℕ)
  bs_read {d} v r = map_err store (Store.read c v.bs d v.dev r)
