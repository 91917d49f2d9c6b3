-- ===== src/Volume/Coherence.antt =====
-- rust/bloomfs-fs/src/lib.rs: the directories in the cache against their pages.
use bloomfs.Base.{
  ℕ, ◌^◌, ◌<◌, ◌≡◌, refl, ap, sym, ◌∙◌, false, Option, none, some, List, Option-cases, inl, inr,
  Result, ok, err,
}
use bloomfs.Base.Assoc.{ℕ_keyed, bytes_keyed}
use bloomfs.Block.{Device}
use bloomfs.Segment.{InodeId, DirEntry}
use bloomfs.Dir
use bloomfs.CachedDir.{CachedDir}
use bloomfs.Fs.{Error}
use bloomfs.Volume.{Volume, and_then, pure, asks, set_dir_cache}
use bloomfs.Volume.Pages.{Externals, read_dir_pages}
use bloomfs.Volume.Directories.{
  find_entry, all_entries, resident, cache_peek, lookup, snapshot, readdir, names_of,
}
use bloomfs.Volume.Peeked.{Seen, SeenBy, IsCoherent, read_dir_pages-off, cache_peek-Seen}

abbrev map_ok : {E A B : Type 0} → (A → B) → Result E A → Result E B
map_ok f (ok a) = ok (f a)
map_ok f (err e) = err e

module _ (x : Externals) (wide : (b : List ℕ) (seed : ℕ) → x.xxh3 b seed < 2 ^ 128)
    {d : Device} where
  by_found :
      (name : List ℕ) (id : ℕ) (b : Result Error (List DirEntry))
      (o : Volume d × Result Error (Option (Option InodeId)))
      → Seen x wide (λ h. Dir.find x.over x.xxh3 x.xxh3_64 h.dir name) b o.1
      → (and_then o (λ found. elim found [
        | some r ↦ pure r
        | none ↦ (λ v. and_then (v, read_dir_pages x v id) (λ es. pure (find_entry name es)))
      ])).1
        ≡ map_ok (find_entry name) b
  unfolding Seen
  by_found name id (ok es) (w, ok (some r)) (h, m, e) = ap ok (e ∙ m.indexes.finds name)
  by_found name id (ok es) (w, ok none) s = absurd s
  by_found name id (ok es) (w, err e) s = absurd s
  by_found name id (err e) (w, ok (some r)) s = absurd s
  by_found name id (err e) (w, ok none) s = absurd s
  by_found name id (err e) (w, err e') s = ap err (sym s)

  by_snapshot :
      (id : ℕ) (b : Result Error (List DirEntry))
      (o : Volume d × Result Error (Option (List DirEntry)))
      → Seen x wide all_entries b o.1
      → (and_then o
          (λ found. elim found [ some es ↦ pure es | none ↦ asks (λ v. read_dir_pages x v id) ])).1
        ≡ b
  unfolding Seen
  by_snapshot id (ok es) (w, ok (some r)) (h, m, e) = ap ok (e ∙ m.entries)
  by_snapshot id (ok es) (w, ok none) s = absurd s
  by_snapshot id (ok es) (w, err e) s = absurd s
  by_snapshot id (err e) (w, ok (some r)) s = absurd s
  by_snapshot id (err e) (w, ok none) s = absurd s
  by_snapshot id (err e) (w, err e') s = ap err (sym s)

  mapped_lem :
      {B : Type 0} (v : Volume d) (f : List DirEntry → B) (b : Result Error (List DirEntry))
      → (and_then (v, b) (λ es. pure (f es))).1 ≡ map_ok f b
  mapped_lem v f (ok es) = refl
  mapped_lem v f (err e) = refl

  names_lem :
      (o : Volume d × Result Error (List DirEntry))
      → (and_then o (λ es. pure (names_of es))).1 ≡ map_ok names_of o.1
  names_lem (v, ok es) = refl
  names_lem (v, err e) = refl

  lookup_lem :
      (v : Volume d) (id : ℕ) (name : List ℕ)
      → IsCoherent x wide v
      → (lookup x id name v).1 ≡ map_ok (find_entry name) (read_dir_pages x v id)
  unfolding lookup SeenBy cache_peek
  lookup_lem v id name ok_cache = elim (Option-cases v.dir_cache) [
    | inl off ↦
        (let step : cache_peek x id (λ h. Dir.find x.over x.xxh3 x.xxh3_64 h.dir name) v
              ≡ (v, ok none) =
            simp (off, cache_peek) refl in
          ap
            (λ o.
              (and_then o (λ found. elim found [
                | some r ↦ pure r
                | none ↦
                    (λ v. and_then (v, read_dir_pages x v id) (λ es. pure (find_entry name es)))
              ])).1)
            step
          ∙ mapped_lem v (find_entry name) (read_dir_pages x v id))
    | inr (cache, on) ↦
        by_found name id (read_dir_pages x v id)
          (cache_peek x id (λ h. Dir.find x.over x.xxh3 x.xxh3_64 h.dir name) v)
          (cache_peek-Seen x wide (λ h. Dir.find x.over x.xxh3 x.xxh3_64 h.dir name) v id cache on
            ok_cache)
  ]

  snapshot_lem :
      (v : Volume d) (id : ℕ) → IsCoherent x wide v → (snapshot x id v).1 ≡ read_dir_pages x v id
  unfolding snapshot SeenBy cache_peek
  snapshot_lem v id ok_cache = elim (Option-cases v.dir_cache) [
    | inl off ↦
        (let step : cache_peek x id all_entries v ≡ (v, ok none) = simp (off, cache_peek) refl in
          ap
            (λ o.
              (and_then o (λ found. elim found [
                | some es ↦ pure es
                | none ↦ asks (λ v. read_dir_pages x v id)
              ])).1)
            step)
    | inr (cache, on) ↦
        by_snapshot id (read_dir_pages x v id) (cache_peek x id all_entries v)
          (cache_peek-Seen x wide all_entries v id cache on ok_cache)
  ]

  set_dir_cache-IsCoherent : (v : Volume d) → IsCoherent x wide (set_dir_cache false v)
  unfolding resident set_dir_cache
  set_dir_cache-IsCoherent v = record {
    mirrors = λ id h e. (let clash : ◌≡◌ {A = Option CachedDir} none (some h) = e in absurd cc);
  }

  -- In a volume whose resident directories mirror their pages.
  pub answers_lem :
      (v : Volume d) (id : ℕ) (name : List ℕ)
      → IsCoherent x wide v
      → ((lookup x id name v).1 ≡ (lookup x id name (set_dir_cache false v)).1)
        × ((readdir x id v).1 ≡ (readdir x id (set_dir_cache false v)).1)
  unfolding readdir
  answers_lem v id name h =
      let w = set_dir_cache false v in
      let off = set_dir_cache-IsCoherent v in
      let same = read_dir_pages-off x wide v id in
      (
        lookup_lem v id name h
            ∙ ap (map_ok (find_entry name)) (sym same)
            ∙ sym (lookup_lem w id name off),
        names_lem (snapshot x id v)
            ∙ ap (map_ok names_of) (snapshot_lem v id h ∙ sym same ∙ sym (snapshot_lem w id off))
            ∙ sym (names_lem (snapshot x id w)),
      )
