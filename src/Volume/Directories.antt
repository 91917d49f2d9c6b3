-- ===== src/Volume/Directories.antt =====
-- rust/bloomfs-fs/src/lib.rs: the directories of a mounted volume, with the cache in front of them: the
-- checkout and the commit of one for a change, and the calls that read one.
use bloomfs.Base.{
  ℕ, ◌*◌, Option, none, some, List, [], ◌∷◌, map, concat, if◌then◌else◌, get_or, Result, ok, err,
}
use bloomfs.Base.Assoc
use bloomfs.Base.Assoc.{ℕ_keyed, bytes_eq}
use bloomfs.Block.{Device}
use bloomfs.Segment.{InodeId, DirEntry}
use bloomfs.Dir
use bloomfs.CachedDir.{CachedDir, DirCache}
use bloomfs.CachedDir
use bloomfs.Fs.{Error, DirHandle, dir_page_size, encode_dir_page}
use bloomfs.Volume.{Volume, Action, ◌>>=◌, pure, asks, get_inode}
use bloomfs.Volume.Update.{write_at_locked}
use bloomfs.Volume.Pages.{Externals, load_dir, read_dir_pages}

pub record Dirent : Type 0 where
  pub name : List ℕ
  pub ino : ℕ
  pub kind : ℕ

unfoldable pub find_entry : List ℕ → List DirEntry → Option InodeId
find_entry name [] = none
find_entry name ((n, id) ∷ es) = if bytes_eq n name then some id else find_entry name es

abbrev pub names_of : List DirEntry → List (List ℕ)
names_of = map (λ e. e.0)

-- `flatten`
unfoldable pub all_entries : CachedDir → List DirEntry
all_entries h = concat h.pages

unfoldable pub with_cache : {d : Device} → DirCache → Volume d → Volume d
with_cache cache v = record v { dir_cache = some cache }

unfoldable pub cache_insert : {d : Device} → ℕ → CachedDir → Volume d → Volume d
cache_insert id h v = elim v.dir_cache [
  | none ↦ v
  | some cache ↦ with_cache (CachedDir.insert cache id h) v
]

unfoldable pub without : ℕ → DirCache → DirCache
without id cache = record cache { entries = Assoc.remove id cache.entries }

unfoldable pub evict_dir : {d : Device} → ℕ → Volume d → Volume d
evict_dir id v = elim v.dir_cache [ none ↦ v | some cache ↦ with_cache (without id cache) v ]

-- The resident copy of a directory, if the cache is on and holds one.
unfoldable pub resident : {d : Device} → ℕ → Volume d → Option CachedDir
resident id v = elim v.dir_cache [ none ↦ none | some cache ↦ Assoc.lookup id cache.entries ]

-- `f` of the resident copy, after the change of the cache.
unfoldable pub peek :
    {d : Device} {T : Type 0} → ℕ → (CachedDir → T) → Volume d → Volume d × Result Error (Option T)
peek id f v = (v, ok (elim (resident id v) [ none ↦ none | some h ↦ some (f h) ]))

module _ (x : Externals) {d : Device} where
  -- The resident copy leaves the cache, and gets the inode as the table has it.
  unfoldable pub checkout_dir : ℕ → Action d CachedDir
  checkout_dir id v = elim (resident id v) [
    | none ↦ (v, load_dir x v id)
    | some h ↦ elim (get_inode v id) [
      | err e ↦ (evict_dir id v, err e)
      | ok i ↦ (evict_dir id v, ok (record h { dir_inode = i }))
    ]
  ]

  unfoldable pub flush_pages : ℕ → List ℕ → CachedDir → Action d CachedDir
  flush_pages id [] h = pure h
  flush_pages id (p ∷ ps) h = do
    i ←
        write_at_locked x.crates id h.dir_inode (p * dir_page_size)
          (encode_dir_page (get_or h.pages p []))
    flush_pages id ps (record h { dir_inode = i })

  unfoldable pub flush_dir : ℕ → CachedDir → Action d CachedDir
  flush_dir id h = do h ← flush_pages id h.dirty h; pure (record h { dirty = [] })

  unfoldable pub commit_dir : ℕ → CachedDir → Action d (Unit {0})
  commit_dir id h = do h ← flush_dir id h; (λ v. (cache_insert id h v, ok tt))

  unfoldable pub cache_peek : {T : Type 0} → ℕ → (CachedDir → T) → Action d (Option T)
  cache_peek id f v = elim v.dir_cache [
    | none ↦ (v, ok none)
    | some cache ↦ elim (Assoc.lookup id cache.entries) [
      | some _ ↦ peek id f (with_cache (CachedDir.touch cache id) v)
      | none ↦ elim (load_dir x v id) [
        | err e ↦ (v, err e)
        | ok h ↦ peek id f (with_cache (CachedDir.insert cache id h) v)
      ]
    ]
  ]

  unfoldable pub lookup : ℕ → List ℕ → Action d (Option InodeId)
  lookup parent name = do
    found ← cache_peek parent (λ h. Dir.find x.over x.xxh3 x.xxh3_64 h.dir name)
    elim found [
      | some r ↦ pure r
      | none ↦ (asks (λ v. read_dir_pages x v parent) >>= λ es. pure (find_entry name es))
    ]

  -- The entries of a directory, from the cache or, where it is off, from the pages.
  unfoldable pub snapshot : ℕ → Action d (List DirEntry)
  snapshot id = do
    found ← cache_peek id all_entries
    elim found [ some es ↦ pure es | none ↦ asks (λ v. read_dir_pages x v id) ]

  unfoldable pub readdir : ℕ → Action d (List (List ℕ))
  readdir id = snapshot id >>= λ es. pure (names_of es)

  unfoldable pub kinds : List DirEntry → Action d (List Dirent)
  kinds [] = pure []
  kinds ((name, ino) ∷ es) = do
    i ← asks (λ v. get_inode v ino)
    rest ← kinds es
    pure (record { name = name; ino = ino; kind = i.kind } ∷ rest)

  unfoldable pub readdirents : ℕ → Action d (List Dirent)
  readdirents id = snapshot id >>= kinds

  unfoldable pub open_dir_stream : ℕ → Action d DirHandle
  open_dir_stream id = readdir id >>= λ names. pure (record { entries = names; pos = 0 })
