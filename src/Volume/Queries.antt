-- ===== src/Volume/Queries.antt =====
-- rust/bloomfs-fs/src/lib.rs: lookups and listings one after another, which fill the cache of directories.
use bloomfs.Base.{
  ℕ, ◌+◌, ◌^◌, ◌<◌, ◌≡◌, refl, ap, sym, subst, ◌∙◌, false, Option, none, some, List, [], ◌∷◌, ◌==◌,
  if◌then◌else◌, length, Bool-cases, Option-cases, Result-cases, inl, inr, Result, ok, err,
}
use bloomfs.Base.Assoc
use bloomfs.Base.Assoc.{ℕ_keyed, bytes_keyed, bytes_eq, bytes_eq_iff, lookup-insert}
use bloomfs.Block.{Device}
use bloomfs.Segment.{InodeId, DirEntry}
use bloomfs.Dir
use bloomfs.CachedDir.{CachedDir, DirCache, set_tick}
use bloomfs.CachedDir
use bloomfs.Fs.{Error}
use bloomfs.Volume.{Volume, get_inode, set_dir_cache}
use bloomfs.Volume.Pages.{Externals, load_dir, read_dir_pages}
use bloomfs.Volume.Directories.{find_entry, all_entries, resident, peek, cache_peek, with_cache}
use bloomfs.Volume.SetData.{get_data-same}
use bloomfs.Volume.Mirrors.{Mirrors, Mirrors-ticked, Agrees}
use bloomfs.Base.{not, is_some, ◌&&◌, leb, ◌⊎◌, ==_iff}
use bloomfs.Base.Assoc.{lookup-remove}
use bloomfs.CachedDir.{dir_cache_cap, evicted, oldest}
use bloomfs.Volume.{and_then, pure, asks}
use bloomfs.Volume.Directories.{lookup, snapshot, readdir, names_of}
use bloomfs.Volume.Coherence.{answers_lem}
use bloomfs.Volume.Peeked.{IsCoherent, load_dir-Agrees}

-- What is found after `touch` was there before, maybe with another tick.
set_tick_found :
    (id tick i : ℕ) (m : List (ℕ × CachedDir)) (h : CachedDir)
    → Assoc.lookup i (set_tick id tick m) ≡ some h
    → (g : CachedDir) × (t : ℕ) × (Assoc.lookup i m ≡ some g) × (record g { lru_tick = t } ≡ h)
unfolding set_tick Assoc.lookup
set_tick_found id tick i [] h e =
    (let clash : ◌≡◌ {A = Option CachedDir} none (some h) = e in absurd cc)
set_tick_found id tick i ((k, w) ∷ m) h e = elim (Bool-cases (k == id)) [
  | inl s ↦ elim (Bool-cases (k == i)) [
    | inl n ↦
        (let same : ◌≡◌ {A = Option CachedDir} (some (record w { lru_tick = tick })) (some h) =
            sym (rw s (rw n refl)) ∙ e in
          (w, tick, rw n refl, cc))
    | inr n ↦ (h, h.lru_tick, rw n (sym (rw s (rw n refl)) ∙ e), refl)
  ]
  | inr s ↦ elim (Bool-cases (k == i)) [
    | inl n ↦ (h, h.lru_tick, rw n (sym (rw s (rw n refl)) ∙ e), refl)
    | inr n ↦
        (let (g, t, there, same) = set_tick_found id tick i m h (sym (rw s (rw n refl)) ∙ e) in
          (g, t, rw n there, same))
  ]
]

evicted_found :
    (i : ℕ) (m : List (ℕ × CachedDir)) (h : CachedDir)
    → Assoc.lookup i (evicted m) ≡ some h
    → Assoc.lookup i m ≡ some h
unfolding evicted
evicted_found i [] h e = e
evicted_found i ((k, w) ∷ m) h e =
    let victim = oldest k w.lru_tick m in
    elim (Bool-cases (victim == i)) [
      | inl s ↦
          (let clash : ◌≡◌ {A = Option CachedDir} none (some h) =
              sym (lookup-remove victim i ((k, w) ∷ m) ∙ rw s refl) ∙ e in
            absurd cc)
      | inr s ↦ sym (lookup-remove victim i ((k, w) ∷ m) ∙ rw s refl) ∙ e
    ]

-- What is found after `insert` is the new directory or was there before.
inserted_found :
    (c : DirCache) (id i : ℕ) (g h : CachedDir)
    → Assoc.lookup i (CachedDir.insert c id g).entries ≡ some h
    → ((id ≡ i) × (record g { lru_tick = c.tick + 1 } ≡ h)) ⊎ (Assoc.lookup i c.entries ≡ some h)
unfolding CachedDir.insert
inserted_found c id i g h e =
    let full = leb dir_cache_cap (length c.entries) && not (is_some (Assoc.lookup id c.entries)) in
    let kept = if full then evicted c.entries else c.entries in
    let there = sym (lookup-insert id i (record g { lru_tick = c.tick + 1 }) kept) ∙ e in
    elim (Bool-cases (id == i)) [
      | inl s ↦
          (let same : ◌≡◌ {A = Option CachedDir} (some (record g { lru_tick = c.tick + 1 }))
                (some h) =
              sym (rw s refl) ∙ there in
            inl ((==_iff id i).0 s, cc))
      | inr s ↦
          (let old : Assoc.lookup i kept ≡ some h = sym (rw s refl) ∙ there in
            elim (Bool-cases full) [
              | inl f ↦ inr (evicted_found i c.entries h (sym (rw f refl) ∙ old))
              | inr f ↦ inr (sym (rw f refl) ∙ old)
            ])
    ]

-- Lookups and listings, one after another.
pub data Queries (x : Externals) {d : Device} (v : Volume d) : Volume d → Type 0 where
  here : Queries x v v
  looks_up :
      {w : Volume d} (id : ℕ) (name : List ℕ) → Queries x v w → Queries x v (lookup x id name w).0
  lists : {w : Volume d} (id : ℕ) → Queries x v w → Queries x v (readdir x id w).0

module _ (x : Externals) (wide : (b : List ℕ) (seed : ℕ) → x.xxh3 b seed < 2 ^ 128)
    {d : Device} where
  -- The pages do not depend on the cache.
  pages_cached :
      (v : Volume d) (c : DirCache) (id : ℕ)
      → read_dir_pages x (with_cache c v) id ≡ read_dir_pages x v id
  unfolding read_dir_pages get_inode with_cache
  pages_cached v c id = elim (Result-cases (get_inode v id)) [
    | inr (e, k) ↦ rw k refl
    | inl (i, k) ↦ rw (k, get_data-same x.crates v (with_cache c v) refl refl i) refl
  ]

  -- The cache after a change that adds at most one directory that mirrors its pages.
  recached :
      (v : Volume d) (cache c : DirCache)
      → v.dir_cache ≡ some cache
      → IsCoherent x wide v
      → ((i : ℕ) (h : CachedDir)
          → Assoc.lookup i c.entries ≡ some h
          → ((es : List DirEntry) × (read_dir_pages x v i ≡ ok es) × Mirrors x wide h es)
            ⊎ ((g : CachedDir) × (t : ℕ) × (Assoc.lookup i cache.entries ≡ some g)
                × (record g { lru_tick = t } ≡ h)))
      → IsCoherent x wide (with_cache c v)
  unfolding resident
  recached v cache c on ok_cache back = record {
    mirrors = λ i h e. elim (back i h (unfold with_cache in e)) [
      | inl (es, reads, m) ↦ (es, pages_cached v c i ∙ reads, m)
      | inr (g, t, there, same) ↦
          let (es, reads, m) = ok_cache.mirrors i g (simp (on, there, resident) refl) in
          (
            es,
            pages_cached v c i ∙ reads,
            subst (λ k. Mirrors x wide k es) same (Mirrors-ticked x wide g es t m),
          )
    ];
  }

  -- The state that a call leaves: the cache may have changed, and mirrors the pages still.
  record Kept (v w : Volume d) : Type 0 where
    coherent : IsCoherent x wide w
    rest : set_dir_cache false w ≡ set_dir_cache false v

  unchanged : (v : Volume d) → IsCoherent x wide v → Kept v v
  unchanged v h = record { coherent = h; rest = refl }

  changed :
      (v : Volume d) (c : DirCache) → IsCoherent x wide (with_cache c v) → Kept v (with_cache c v)
  changed v c h = record { coherent = h; rest = unfold set_dir_cache with_cache in refl }

  touched :
      (v : Volume d) (cache : DirCache) (id : ℕ)
      → v.dir_cache ≡ some cache
      → IsCoherent x wide v
      → IsCoherent x wide (with_cache (CachedDir.touch cache id) v)
  unfolding CachedDir.touch
  touched v cache id on h =
      recached v cache (CachedDir.touch cache id) on h
        (λ i g e. inr (set_tick_found id (cache.tick + 1) i cache.entries g e))

  loaded :
      (v : Volume d) (cache : DirCache) (id : ℕ) (g : CachedDir) (b : Result Error (List DirEntry))
      → v.dir_cache ≡ some cache
      → IsCoherent x wide v
      → read_dir_pages x v id ≡ b
      → Agrees x wide [] (ok g) b
      → IsCoherent x wide (with_cache (CachedDir.insert cache id g) v)
  loaded v cache id g (err e) on h r a = absurd a
  loaded v cache id g (ok es) on h r a =
      recached v cache (CachedDir.insert cache id g) on h (λ i k e.
        elim (inserted_found cache id i g k e) [
          | inr old ↦ inr (k, k.lru_tick, old, refl)
          | inl (at, same) ↦ inl (
            es,
            ap (read_dir_pages x v) (sym at) ∙ r,
            subst (λ k. Mirrors x wide k es) same (Mirrors-ticked x wide g es (cache.tick + 1) a),
          )
        ])

  cache_peek-Kept :
      {T : Type 0} (f : CachedDir → T) (v : Volume d) (id : ℕ)
      → IsCoherent x wide v
      → Kept v (cache_peek x id f v).0
  unfolding cache_peek peek
  cache_peek-Kept f v id h = elim (Option-cases v.dir_cache) [
    | inl off ↦ simp (off, cache_peek) (unchanged v h)
    | inr (cache, on) ↦ elim (Option-cases (Assoc.lookup id cache.entries)) [
      | inr (g, e) ↦
          simp (on, e, cache_peek) (changed v (CachedDir.touch cache id) (touched v cache id on h))
      | inl e ↦ elim (Result-cases (load_dir x v id)) [
        | inr (err_, k) ↦ simp (on, e, k, cache_peek) (unchanged v h)
        | inl (g, k) ↦
            simp (on, e, k, cache_peek)
              (changed v (CachedDir.insert cache id g) (
                loaded v cache id g (read_dir_pages x v id) on h refl (
                  subst (λ r. Agrees x wide [] r (read_dir_pages x v id)) k
                    (load_dir-Agrees x wide v id))))
      ]
    ]
  ]

  found_state :
      (name : List ℕ) (id : ℕ) (o : Volume d × Result Error (Option (Option InodeId)))
      → (and_then o (λ found. elim found [
        | some r ↦ pure r
        | none ↦ (λ v. and_then (v, read_dir_pages x v id) (λ es. pure (find_entry name es)))
      ])).0
        ≡ o.0
  found_state name id (w, ok (some r)) = refl
  found_state name id (w, err e) = refl
  found_state name id (w, ok none) = read_state w (read_dir_pages x w id)
    where
      read_state :
          (w : Volume d) (r : Result Error (List DirEntry))
          → (and_then (w, r) (λ es. pure (find_entry name es))).0 ≡ w
      read_state w (ok es) = refl
      read_state w (err e) = refl

  listed_state :
      (id : ℕ) (o : Volume d × Result Error (Option (List DirEntry)))
      → (and_then
          (and_then o
            (λ found. elim found [ some es ↦ pure es | none ↦ asks (λ v. read_dir_pages x v id) ]))
          (λ es. pure (names_of es))).0
        ≡ o.0
  listed_state id (w, ok (some r)) = refl
  listed_state id (w, err e) = refl
  listed_state id (w, ok none) = names_state w (read_dir_pages x w id)
    where
      names_state :
          (w : Volume d) (r : Result Error (List DirEntry))
          → (and_then (w, r) (λ es. pure (names_of es))).0 ≡ w
      names_state w (ok es) = refl
      names_state w (err e) = refl

  Queries-Kept : (v w : Volume d) → IsCoherent x wide v → Queries x v w → Kept v w
  unfolding lookup readdir snapshot
  Queries-Kept v w h here = unchanged v h
  Queries-Kept v w h (looks_up {w = u} id name q) =
      let k = Queries-Kept v u h q in
      let k' = cache_peek-Kept (λ h. Dir.find x.over x.xxh3 x.xxh3_64 h.dir name) u id k.coherent in
      subst (Kept v)
        (sym (
          found_state name id
            (cache_peek x id (λ h. Dir.find x.over x.xxh3 x.xxh3_64 h.dir name) u)))
        (record { coherent = k'.coherent; rest = k'.rest ∙ k.rest })
  Queries-Kept v w h (lists {w = u} id q) =
      let k = Queries-Kept v u h q in
      let k' = cache_peek-Kept all_entries u id k.coherent in
      subst (Kept v) (sym (listed_state id (cache_peek x id all_entries u)))
        (record { coherent = k'.coherent; rest = k'.rest ∙ k.rest })

  -- After any lookups and listings, whether they failed or not, on a volume with an empty cache, as
  -- a mount leaves it, or with none, where the filter hash has 128 bits, lookup and readdir answer
  -- for each directory and name as the volume that they began with does with its cache turned off:
  -- the first entry of the name, all names, or the same error.
  pub lookup-set_dir_cache :
      (v w : Volume d)
      → ((id : ℕ) → resident id v ≡ none)
      → Queries x v w
      → (id : ℕ) (name : List ℕ)
      → ((lookup x id name w).1 ≡ (lookup x id name (set_dir_cache false v)).1)
        × ((readdir x id w).1 ≡ (readdir x id (set_dir_cache false v)).1)
  lookup-set_dir_cache v w empty q id name =
      let nothing : IsCoherent x wide v = record {
        mirrors = λ i h e.
            (let clash : ◌≡◌ {A = Option CachedDir} none (some h) = sym (empty i) ∙ e in absurd cc);
      } in
      let k = Queries-Kept v w nothing q in
      let (found, listed) = answers_lem x wide w id name k.coherent in
      (
        found ∙ ap (λ u. (lookup x id name u).1) k.rest,
        listed ∙ ap (λ u. (readdir x id u).1) k.rest,
      )
