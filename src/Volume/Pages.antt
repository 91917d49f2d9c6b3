-- ===== src/Volume/Pages.antt =====
-- rust/bloomfs-fs/src/lib.rs: the load of a directory from its pages.
use bloomfs.Base.{
  ℕ, zero, suc, ◌+◌, ◌-◌, ◌/◌, Bool, not, List, [], ◌∷◌, ◌++◌, ltb, ◌==◌, if◌then◌else◌, length,
  slice, min, Result, ok, err, ◌>>=◌,
}
use bloomfs.Base.Assoc
use bloomfs.Base.Assoc.{bytes_keyed}
use bloomfs.Block.{Device}
use bloomfs.Inode.{type_dir}
use bloomfs.Store.{Crates}
use bloomfs.Segment.{DirEntry}
use bloomfs.Dir
use bloomfs.CachedDir.{CachedDir}
use bloomfs.Fs.{Error, not_dir, dir_page_size, decode_dir_page}
use bloomfs.Volume.{Volume, get_inode}
use bloomfs.Volume.Contents.{get_data}

-- What the crates outside the repository provide: the block store's, the estimate and the two hashes of
-- the directory filters, and `String::from_utf8_lossy`.
pub record Externals : Type 0 where
  pub crates : Crates
  pub over : ℕ → ℕ → ℕ → ℕ → Bool
  pub xxh3 : List ℕ → ℕ → ℕ
  pub xxh3_64 : List ℕ → ℕ
  pub lossy : List ℕ → List ℕ

module _ (x : Externals) where
  -- The page at `off` of the directory's bytes.
  unfoldable pub page_at : List ℕ → ℕ → Result Error (List DirEntry × ℕ)
  page_at blob off =
      let end = min (off + dir_page_size) (length blob) in
      decode_dir_page x.lossy (slice blob off (end - off))

  unfoldable pub index_entry : ℕ → CachedDir → DirEntry → CachedDir
  index_entry p h (name, id) = record h {
    dir = (Dir.add x.over x.xxh3 x.xxh3_64 h.dir name id).0;
    page_of = Assoc.insert name p h.page_of;
  }

  unfoldable pub index_entries : ℕ → List DirEntry → CachedDir → CachedDir
  index_entries p [] h = h
  index_entries p (e ∷ es) h = index_entries p es (index_entry p h e)

  -- The directory with one more page.
  unfoldable pub load_page : CachedDir → List DirEntry × ℕ → CachedDir
  load_page h (entries, used) =
      let h' = index_entries (length h.pages) entries h in
      record h' { pages = h.pages ++ (entries ∷ []); used = h.used ++ (used ∷ []) }

  -- The loop over the pages, one round for each: `round_count` of them are enough.
  unfoldable pub load_pages : ℕ → ℕ → List ℕ → CachedDir → Result Error CachedDir
  load_pages zero off blob h = ok h
  load_pages (suc fuel) off blob h =
      if not (ltb off (length blob))
      then ok h
      else (page_at blob off >>= λ p. load_pages fuel (off + dir_page_size) blob (load_page h p))

  unfoldable pub flat_pages : ℕ → ℕ → List ℕ → Result Error (List DirEntry)
  flat_pages zero off blob = ok []
  flat_pages (suc fuel) off blob =
      if not (ltb off (length blob))
      then ok []
      else (page_at blob off >>= λ p.
          flat_pages fuel (off + dir_page_size) blob >>= λ rest. ok (p.0 ++ rest))

  abbrev pub round_count : List ℕ → ℕ
  round_count blob = length blob / dir_page_size + 1

  module _ {d : Device} (v : Volume d) where
    unfoldable pub load_dir : ℕ → Result Error CachedDir
    load_dir id = do
      i ← get_inode v id
      blob ← (if not (i.kind == type_dir) then err not_dir else get_data x.crates v i)
      load_pages (round_count blob) 0 blob (record {
        dir = Dir.new x.over x.xxh3 x.xxh3_64;
        dir_inode = i;
        pages = [];
        used = [];
        page_of = [];
        dirty = [];
        lru_tick = 0;
      })

    unfoldable pub read_dir_pages : ℕ → Result Error (List DirEntry)
    read_dir_pages id = do
      i ← get_inode v id
      blob ← (if not (i.kind == type_dir) then err not_dir else get_data x.crates v i)
      flat_pages (round_count blob) 0 blob
