-- ===== src/Volume/Peeked.antt =====
-- rust/bloomfs-fs/src/lib.rs: what `cache_peek` shows of a directory, against the pages of the volume.
use bloomfs.Base.{
  ℕ, ◌+◌, ◌/◌, ◌^◌, ◌<◌, ◌≡◌, refl, ap, sym, subst, ◌∙◌, Bool, false, Option, none, some, List, [],
  ◌∷◌, ◌==◌, if◌then◌else◌, concat, length, Bool-cases, Option-cases, Result-cases, inl, inr,
  Result, ok, err,
}
use bloomfs.Base.Assoc
use bloomfs.Base.Assoc.{ℕ_keyed, bytes_keyed, bytes_eq, bytes_eq_iff, lookup-insert}
use bloomfs.Block.{Device}
use bloomfs.Inode.{type_dir}
use bloomfs.Segment.{DirEntry}
use bloomfs.Dir
use bloomfs.Dir.Names as Names
use bloomfs.CachedDir.{CachedDir, DirCache, set_tick}
use bloomfs.CachedDir
use bloomfs.Fs.{Error}
use bloomfs.Volume.{Volume, get_inode, set_dir_cache}
use bloomfs.Volume.Contents.{get_data}
use bloomfs.Volume.Pages.{Externals, load_dir, read_dir_pages}
use bloomfs.Volume.Directories.{find_entry, all_entries, resident, peek, cache_peek, with_cache}
use bloomfs.Volume.SetData.{get_data-same}
use bloomfs.Volume.Mirrors.{Mirrors, Mirrors-ticked, Agrees, load_pages-Agrees}

lookup-insert_self :
    (id : ℕ) (h : CachedDir) (m : List (ℕ × CachedDir))
    → Assoc.lookup id (Assoc.insert id h m) ≡ some h
lookup-insert_self id h m =
    lookup-insert id id h m
    ∙ ap (λ (b : Bool). if b then some h else Assoc.lookup id m) ((ℕ_keyed.same_iff id id).1 refl)

ticked : ℕ → CachedDir → Option CachedDir
ticked tick h = some (record h { lru_tick = tick })

set_tick-lookup :
    (id tick : ℕ) (m : List (ℕ × CachedDir)) (h : CachedDir)
    → Assoc.lookup id m ≡ some h
    → Assoc.lookup id (set_tick id tick m) ≡ some (record h { lru_tick = tick })
unfolding set_tick Assoc.lookup ticked
set_tick-lookup id tick [] h e = (let clash : ◌≡◌ {A = Option CachedDir} none (some h) = e in cc)
set_tick-lookup id tick ((k, w) ∷ m) h e = elim (Bool-cases (k == id)) [
  | inl s ↦
      (let same : ◌≡◌ {A = Option CachedDir} (some w) (some h) = sym (rw s refl) ∙ e in
        let at : w ≡ h = cc in rw s (rw s (ap (ticked tick) at)))
  | inr s ↦ rw s (rw s (set_tick-lookup id tick m h (sym (rw s refl) ∙ e)))
]

module _ (x : Externals) (wide : (b : List ℕ) (seed : ℕ) → x.xxh3 b seed < 2 ^ 128) where
  empty-Mirrors :
      (h : CachedDir) → h.dir ≡ Dir.new x.over x.xxh3 x.xxh3_64 → h.pages ≡ [] → Mirrors x wide h []
  unfolding Dir.new all_entries find_entry
  empty-Mirrors h e k =
      let (formed, finds, size) =
        Names.with_cap-dir_view x.over x.xxh3 x.xxh3_64 wide 4000 4576918229304087675 in
      record {
        indexes = record {
          formed = subst (Names.IsDirectory x.over x.xxh3 x.xxh3_64 wide) (sym e) formed;
          finds = λ n. ap (λ q. Dir.find x.over x.xxh3 x.xxh3_64 q n) e ∙ finds n;
        };
        entries = ap concat k;
      }

  -- What a reader of the cache gets: `f` of a directory that mirrors the entries, or their error.
  unfoldable pub Seen :
      {T : Type 0}
      → (CachedDir → T)
      → Result Error (List DirEntry)
      → Result Error (Option T)
      → Type 0
  Seen f (ok es) (ok (some r)) = (h : CachedDir) × Mirrors x wide h es × (r ≡ f h)
  Seen f (err e) (err e') = e ≡ e'
  Seen f _ _ = ⊥

  module _ {d : Device} where
    pub load_dir-Agrees :
        (v : Volume d) (id : ℕ) → Agrees x wide [] (load_dir x v id) (read_dir_pages x v id)
    unfolding load_dir read_dir_pages
    load_dir-Agrees v id = elim (Result-cases (get_inode v id)) [
      | inr (e, k) ↦ rw k refl
      | inl (i, k) ↦ elim (Bool-cases (i.kind == type_dir)) [
        | inr n ↦ rw (k, n) refl
        | inl is_dir ↦ elim (Result-cases (get_data x.crates v i)) [
          | inr (e, g) ↦ rw (k, is_dir, g) refl
          | inl (blob, g) ↦
              rw (k, is_dir, g)
                (load_pages-Agrees x wide (length blob / 4096 + 1) 0 blob
                  (record {
                    dir = Dir.new x.over x.xxh3 x.xxh3_64;
                    dir_inode = i;
                    pages = [];
                    used = [];
                    page_of = [];
                    dirty = [];
                    lru_tick = 0;
                  })
                  [] (empty-Mirrors _ refl refl))
        ]
      ]
    ]

    -- Each resident directory mirrors the entries of its pages.
    pub record IsCoherent (v : Volume d) : Type 0 where
      pub mirrors :
          (id : ℕ) (h : CachedDir)
          → resident id v ≡ some h
          → (es : List DirEntry) × (read_dir_pages x v id ≡ ok es) × Mirrors x wide h es

    pub read_dir_pages-off :
        (v : Volume d) (id : ℕ)
        → read_dir_pages x (set_dir_cache false v) id ≡ read_dir_pages x v id
    unfolding read_dir_pages get_inode set_dir_cache
    read_dir_pages-off v id = elim (Result-cases (get_inode v id)) [
      | inr (e, k) ↦ rw k refl
      | inl (i, k) ↦ rw (k, get_data-same x.crates v (set_dir_cache false v) refl refl i) refl
    ]

    -- The copy that is looked at is a loaded or a resident one, with another tick.
    peeked :
        {T : Type 0} (f : CachedDir → T) (v w : Volume d) (id : ℕ) (h : CachedDir)
        (es : List DirEntry)
        → resident id w ≡ some h
        → Mirrors x wide h es
        → read_dir_pages x v id ≡ ok es
        → Seen f (read_dir_pages x v id) (peek id f w).1
    unfolding peek Seen
    peeked f v w id h es e m reads = rw (e, reads) (h, m, refl)

    module _ {T : Type 0} (f : CachedDir → T) (v : Volume d) (id : ℕ) (cache : DirCache)
        (on : v.dir_cache ≡ some cache) where
      unfoldable pub SeenBy : Volume d × Result Error (Option T) → Type 0
      SeenBy o = Seen f (read_dir_pages x v id) o.1

      hit_seen :
          (h : CachedDir)
          → IsCoherent v
          → Assoc.lookup id cache.entries ≡ some h
          → SeenBy (cache_peek x id f v)
      unfolding cache_peek resident with_cache CachedDir.touch SeenBy
      hit_seen h ok_cache e =
          let there : resident id v ≡ some h = simp (on, e, resident) refl in
          let (es, reads, m) = ok_cache.mirrors id h there in
          let w = with_cache (CachedDir.touch cache id) v in
          let step : cache_peek x id f v ≡ peek id f w = simp (on, e, cache_peek) refl in
          subst SeenBy (sym step) (
            peeked f v w id (record h { lru_tick = cache.tick + 1 }) es
              (set_tick-lookup id (cache.tick + 1) cache.entries h e)
              (Mirrors-ticked x wide h es (cache.tick + 1) m) reads)

      loaded_seen :
          (h : CachedDir) (es : List DirEntry)
          → Assoc.lookup id cache.entries ≡ none
          → load_dir x v id ≡ ok h
          → read_dir_pages x v id ≡ ok es
          → Mirrors x wide h es
          → SeenBy (cache_peek x id f v)
      unfolding cache_peek resident with_cache CachedDir.insert SeenBy
      loaded_seen h es e k reads m =
          let w = with_cache (CachedDir.insert cache id h) v in
          let step : cache_peek x id f v ≡ peek id f w = simp (on, e, k, cache_peek) refl in
          subst SeenBy (sym step) (
            peeked f v w id (record h { lru_tick = cache.tick + 1 }) es
              (lookup-insert_self id (record h { lru_tick = cache.tick + 1 }) _)
              (Mirrors-ticked x wide h es (cache.tick + 1) m) reads)

      agree :
          (a : Result Error CachedDir) (b : Result Error (List DirEntry))
          → load_dir x v id ≡ a
          → read_dir_pages x v id ≡ b
          → Agrees x wide [] a b
      agree a b k r =
          subst (Agrees x wide [] a) r
            (subst (λ q. Agrees x wide [] q (read_dir_pages x v id)) k (load_dir-Agrees v id))

      by_load :
          (a : Result Error CachedDir) (b : Result Error (List DirEntry))
          → Assoc.lookup id cache.entries ≡ none
          → load_dir x v id ≡ a
          → read_dir_pages x v id ≡ b
          → SeenBy (cache_peek x id f v)
      unfolding SeenBy Seen cache_peek
      by_load (ok h) (ok es) e k r = loaded_seen h es e k r (agree (ok h) (ok es) k r)
      by_load (ok h) (err e') e k r = absurd (agree (ok h) (err e') k r)
      by_load (err e') (ok es) e k r = absurd (agree (err e') (ok es) k r)
      by_load (err e') (err e'') e k r =
          let step : cache_peek x id f v ≡ (v, err e') = simp (on, e, k, cache_peek) refl in
          subst SeenBy (sym step)
            (subst (λ q. Seen f q (err e')) (sym r) (sym (agree (err e') (err e'') k r)))

      pub cache_peek-Seen : IsCoherent v → SeenBy (cache_peek x id f v)
      cache_peek-Seen ok_cache = elim (Option-cases (Assoc.lookup id cache.entries)) [
        | inr (h, e) ↦ hit_seen h ok_cache e
        | inl e ↦ by_load (load_dir x v id) (read_dir_pages x v id) e refl refl
      ]
