-- ===== src/Volume/Namespace.antt =====
-- rust/bloomfs-fs/src/lib.rs: the calls that make, link and remove names, and open handles.
use bloomfs.Base.{
  ℕ, ◌+◌, ◌-◌, ◌%◌, ◌^◌, Bool, true, false, not, ◌&&◌, is_some, Option, List, [], ◌∷◌, ltb, ◌==◌,
  if◌then◌else◌, Result, ok,
}
use bloomfs.Base.Assoc
use bloomfs.Base.Assoc.{ℕ_keyed}
use bloomfs.Block.{Device}
use bloomfs.Inode.{Inode, type_regular, type_dir, type_link}
use bloomfs.Inode
use bloomfs.Dir
use bloomfs.CachedDir.{CachedDir}
use bloomfs.CachedDir
use bloomfs.Fs.{Error, exists, not_found, is_dir, not_dir, not_empty, not_file, invalid}
use bloomfs.Volume.{
  Volume, Action, ◌>>=◌, ◌>>◌, pure, raise, asks, gets, modify, check, or_raise, get_inode,
  put_inode, now, touch_meta, alloc_inode, open_count_of,
}
use bloomfs.Volume.Contents.{get_data}
use bloomfs.Volume.Update.{release_data, set_data, regular}
use bloomfs.Volume.Pages.{Externals, load_dir}
use bloomfs.Volume.Directories.{checkout_dir, commit_dir, evict_dir}

unfoldable pub new_child : ℕ → ℕ → ℕ → ℕ → Inode
new_child kind mode generation now = record Inode.default {
  kind = kind;
  nlink = if kind == type_dir then 2 else 1;
  mode = mode;
  generation = generation;
  atime = now;
  mtime = now;
  ctime = now;
}

-- One link more, in a u32, and one less where there is one.
unfoldable pub more_links : Inode → Inode
more_links i = record i { nlink = (i.nlink + 1) % 2 ^ 32 }

unfoldable pub fewer_links : Inode → Inode
fewer_links i = record i { nlink = i.nlink - 1 }

-- The slot of an inode that was reclaimed.
unfoldable pub vacant : Inode → Inode
vacant i = record Inode.default { generation = (i.generation + 1) % 2 ^ 32 }

pub record Handle : Type 0 where
  pub id : ℕ
  pub closed : Bool

unfoldable pub push_free : {d : Device} → ℕ → Volume d → Volume d
push_free id v = record v { free_inodes = id ∷ v.free_inodes }

-- One open handle more, in a u32.
unfoldable pub count_open : {d : Device} → ℕ → Volume d → Volume d
count_open id v = record v {
  open_count = Assoc.insert id ((open_count_of v id + 1) % 2 ^ 32) v.open_count;
}

-- One open handle less; the inode without a handle has no entry.
unfoldable pub count_close : {d : Device} → ℕ → Volume d → Volume d
count_close id v = record v {
  open_count =
      if ltb 1 (open_count_of v id)
      then Assoc.insert id (open_count_of v id - 1) v.open_count
      else Assoc.remove id v.open_count;
}

unfoldable pub parent_links : ℕ → CachedDir → CachedDir
parent_links kind h =
    if kind == type_dir then record h { dir_inode = more_links h.dir_inode } else h

module _ (x : Externals) where
  unfoldable pub find_name : CachedDir → List ℕ → Option ℕ
  find_name h name = Dir.find x.over x.xxh3 x.xxh3_64 h.dir name

  unfoldable pub add_name : CachedDir → List ℕ → ℕ → CachedDir
  add_name h name id = (CachedDir.add x.over x.xxh3 x.xxh3_64 h name id).0

  unfoldable pub del_name : CachedDir → List ℕ → CachedDir
  del_name h name = (CachedDir.del x.over x.xxh3 x.xxh3_64 h name).0

module _ (x : Externals) {d : Device} where
  unfoldable pub reclaim : ℕ → Inode → Action d (Unit {0})
  reclaim id i = do
    modify (evict_dir id)
    release_data x.crates i
    put_inode id (vacant i)
    modify (push_free id)

  unfoldable pub create_node : ℕ → List ℕ → ℕ → ℕ → Action d ℕ
  create_node parent name kind mode = do
    h ← checkout_dir x parent
    check (is_some (find_name x h name)) exists
    id ← alloc_inode
    prev ← asks (λ v. get_inode v id)
    t ← now
    put_inode id (new_child kind mode prev.generation t)
    commit_dir x parent (parent_links kind (add_name x h name id))
    pure id

  unfoldable pub mkdir : ℕ → List ℕ → Action d ℕ
  mkdir parent name = create_node parent name type_dir 493

  unfoldable pub create : ℕ → List ℕ → Action d ℕ
  create parent name = create_node parent name type_regular 420

  unfoldable pub symlink : ℕ → List ℕ → List ℕ → Action d ℕ
  symlink parent name [] = raise invalid
  symlink parent name (b ∷ bs) = do
    id ← create_node parent name type_link 511
    i ← asks (λ v. get_inode v id)
    set_data x.crates id i (b ∷ bs)
    pure id

  -- The inode with one link less: reclaimed if no name and no handle is left.
  unfoldable pub drop_link : ℕ → Inode → Action d (Unit {0})
  drop_link id i = do
    let j = fewer_links i
    handles ← gets (λ v. open_count_of v id)
    if j.nlink == 0 && (handles == 0) then reclaim id j else (touch_meta j >>= put_inode id)

  unfoldable pub unlink : ℕ → List ℕ → Action d (Unit {0})
  unlink parent name = do
    h ← checkout_dir x parent
    id ← or_raise (find_name x h name) not_found
    child ← asks (λ v. get_inode v id)
    check (child.kind == type_dir) is_dir
    commit_dir x parent (del_name x h name)
    drop_link id child

  unfoldable pub rmdir : ℕ → List ℕ → Action d (Unit {0})
  rmdir parent name = do
    h ← checkout_dir x parent
    id ← or_raise (find_name x h name) not_found
    child ← asks (λ v. get_inode v id)
    check (not (child.kind == type_dir)) not_dir
    ch ← asks (λ v. load_dir x v id)
    check (not (Dir.is_empty ch.dir)) not_empty
    let h' = del_name x h name
    commit_dir x parent (record h' { dir_inode = fewer_links h'.dir_inode })
    reclaim id child

  unfoldable pub link : ℕ → List ℕ → ℕ → Action d (Unit {0})
  link parent name target = do
    i ← asks (λ v. get_inode v target)
    check (i.kind == type_dir) not_file
    h ← checkout_dir x parent
    check (is_some (find_name x h name)) exists
    i ← touch_meta (more_links i)
    put_inode target i
    commit_dir x parent (add_name x h name target)

  unfoldable pub open_handle : ℕ → Action d Handle
  open_handle id = do
    asks (regular id)
    modify (count_open id)
    pure (record { id = id; closed = false })

  unfoldable pub handle_read : Handle → Action d (List ℕ)
  handle_read h = do i ← asks (λ v. get_inode v h.id); asks (λ v. get_data x.crates v i)

  -- What `close` does where no handle is left.
  unfoldable pub last_close : ℕ → Action d (Unit {0})
  last_close id = do i ← asks (λ v. get_inode v id); if i.nlink == 0 then reclaim id i else pure tt

  -- The handle is closed also where the call fails.
  unfoldable pub close : Handle → Volume d → Handle × (Volume d × Result Error (Unit {0}))
  close h v =
      let v' = count_close h.id v in
      if h.closed then (h, (v, ok tt)) else (
        record h { closed = true },
        (if open_count_of v' h.id == 0 then last_close h.id v' else (v', ok tt)),
      )
