-- ===== src/Volume/Mirrors.antt =====
-- rust/bloomfs-fs/src/lib.rs: a directory that was loaded with its index against the entries of its pages.
use bloomfs.Base.{
  ℕ, zero, suc, ◌+◌, ◌^◌, ◌<◌, ◌≡◌, refl, ap, sym, subst, ◌∙◌, Bool, true, false, Option, none,
  some, is_some, List, [], ◌∷◌, ◌++◌, ltb, if◌then◌else◌, concat, length, Bool-cases, Result-cases,
  inl, inr, Result, ok, err, ◌>>=◌, append-nil, append_assoc,
}
use bloomfs.Base.Assoc.{ℕ_keyed, bytes_keyed, bytes_eq, bytes_eq_iff}
use bloomfs.Segment.{InodeId, DirEntry}
use bloomfs.Dir
use bloomfs.Dir.Names as Names
use bloomfs.CachedDir.{CachedDir}
use bloomfs.Fs.{Error}
use bloomfs.Volume.Pages.{
  Externals, index_entry, index_entries, load_page, load_pages, flat_pages, page_at,
}
use bloomfs.Volume.Directories.{find_entry, all_entries}

-- The first match in two lists.
find_entry-append :
    (n : List ℕ) (xs ys : List DirEntry)
    → find_entry n (xs ++ ys)
      ≡ (if is_some (find_entry n xs) then find_entry n xs else find_entry n ys)
unfolding find_entry
find_entry-append n [] ys = refl
find_entry-append n ((m, id) ∷ xs) ys = elim (Bool-cases (bytes_eq m n)) [
  | inl h ↦ rw h refl
  | inr h ↦ rw h (find_entry-append n xs ys)
]

same_or_none :
    (b : Bool) (o : Option InodeId) → (if b then o else o) ≡ (if is_some o then o else none)
same_or_none true none = refl
same_or_none true (some i) = refl
same_or_none false none = refl
same_or_none false (some i) = refl

-- An entry counts behind the others only if its name is new.
one_more :
    (es : List DirEntry) (name : List ℕ) (id : InodeId) (n : List ℕ)
    → (if is_some (find_entry name es)
        then find_entry n es
        else (if bytes_eq name n then some id else find_entry n es))
      ≡ find_entry n (es ++ ((name, id) ∷ []))
unfolding find_entry
one_more es name id n = elim (Bool-cases (bytes_eq name n)) [
  | inl h ↦
      (let e : name ≡ n = (bytes_eq_iff name n).0 h in
        rw (find_entry-append n es ((name, id) ∷ []), h)
          (ap (λ m. if is_some (find_entry m es) then find_entry n es else some id) e))
  | inr h ↦
      rw (find_entry-append n es ((name, id) ∷ []), h)
        (same_or_none (is_some (find_entry name es)) (find_entry n es))
]

concat-append :
    (ps : List (List DirEntry)) (p : List DirEntry) → concat (ps ++ (p ∷ [])) ≡ concat ps ++ p
concat-append [] p = append-nil p
concat-append (q ∷ ps) p =
    ap (λ t. q ++ t) (concat-append ps p) ∙ sym (append_assoc q (concat ps) p)

module _ (x : Externals) (wide : (b : List ℕ) (seed : ℕ) → x.xxh3 b seed < 2 ^ 128) where
  -- The index answers as the first match among the entries does.
  pub record Indexes (h : CachedDir) (es : List DirEntry) : Type 0 where
    pub formed : Names.IsDirectory x.over x.xxh3 x.xxh3_64 wide h.dir
    pub finds : (n : List ℕ) → Dir.find x.over x.xxh3 x.xxh3_64 h.dir n ≡ find_entry n es

  index_entry-Indexes :
      (p : ℕ) (h : CachedDir) (es : List DirEntry) (name : List ℕ) (id : InodeId)
      → Indexes h es
      → Indexes (index_entry x p h (name, id)) (es ++ ((name, id) ∷ []))
  unfolding index_entry find_entry
  index_entry-Indexes p h es name id i =
      let (formed, fresh, finds) =
        Names.add-dir_view x.over x.xxh3 x.xxh3_64 wide h.dir name id i.formed in
      record {
        formed = formed;
        finds = λ n. finds n ∙ rw (i.finds name, i.finds n) (one_more es name id n);
      }

  pub index_entries-Indexes :
      (p : ℕ) (xs : List DirEntry) (h : CachedDir) (es : List DirEntry)
      → Indexes h es
      → Indexes (index_entries x p xs h) (es ++ xs)
  unfolding index_entries
  index_entries-Indexes p [] h es i = subst (Indexes h) (sym (append-nil es)) i
  index_entries-Indexes p ((name, id) ∷ xs) h es i =
      subst (Indexes (index_entries x p xs (index_entry x p h (name, id))))
        (append_assoc es ((name, id) ∷ []) xs)
        (index_entries-Indexes p xs (index_entry x p h (name, id)) (es ++ ((name, id) ∷ []))
          (index_entry-Indexes p h es name id i))

  pages-index_entries :
      (p : ℕ) (xs : List DirEntry) (h : CachedDir) → (index_entries x p xs h).pages ≡ h.pages
  unfolding index_entries index_entry
  pages-index_entries p [] h = refl
  pages-index_entries p ((name, id) ∷ xs) h =
      pages-index_entries p xs (index_entry x p h (name, id))

  -- The index answers as the entries do, and the pages hold them.
  pub record Mirrors (h : CachedDir) (es : List DirEntry) : Type 0 where
    pub indexes : Indexes h es
    pub entries : all_entries h ≡ es

  pub Mirrors-ticked :
      (h : CachedDir) (es : List DirEntry) (tick : ℕ)
      → Mirrors h es
      → Mirrors (record h { lru_tick = tick }) es
  unfolding all_entries
  Mirrors-ticked h es tick m = record {
    indexes = record { formed = m.indexes.formed; finds = m.indexes.finds };
    entries = m.entries;
  }

  load_page-Mirrors :
      (h : CachedDir) (es xs : List DirEntry) (used : ℕ)
      → Mirrors h es
      → Mirrors (load_page x h (xs, used)) (es ++ xs)
  unfolding load_page all_entries
  load_page-Mirrors h es xs used m =
      let i = index_entries-Indexes (length h.pages) xs h es m.indexes in
      record {
        indexes = record { formed = i.formed; finds = i.finds };
        entries = concat-append h.pages xs ∙ ap (λ t. t ++ xs) m.entries;
      }

  -- The directory that was loaded mirrors the entries that were read, or both ended in the same error.
  abbrev pub Agrees : List DirEntry → Result Error CachedDir → Result Error (List DirEntry) → Type 0
  Agrees es (ok h) (ok rest) = Mirrors h (es ++ rest)
  Agrees es (ok h) (err e) = ⊥
  Agrees es (err e) (ok rest) = ⊥
  Agrees es (err e) (err e') = e ≡ e'

  Agrees-more :
      (es xs : List DirEntry) (a : Result Error CachedDir) (b : Result Error (List DirEntry))
      → Agrees (es ++ xs) a b
      → Agrees es a (b >>= λ rest. ok (xs ++ rest))
  Agrees-more es xs (ok h) (ok rest) g = subst (Mirrors h) (append_assoc es xs rest) g
  Agrees-more es xs (ok h) (err e) g = absurd g
  Agrees-more es xs (err e) (ok rest) g = absurd g
  Agrees-more es xs (err e) (err e') g = g

  pub load_pages-Agrees :
      (fuel off : ℕ) (blob : List ℕ) (h : CachedDir) (es : List DirEntry)
      → Mirrors h es
      → Agrees es (load_pages x fuel off blob h) (flat_pages x fuel off blob)
  unfolding load_pages flat_pages
  load_pages-Agrees zero off blob h es m = subst (Mirrors h) (sym (append-nil es)) m
  load_pages-Agrees (suc fuel) off blob h es m = elim (Bool-cases (ltb off (length blob))) [
    | inr n ↦ rw n (subst (Mirrors h) (sym (append-nil es)) m)
    | inl l ↦ elim (Result-cases (page_at x blob off)) [
      | inr (e, k) ↦ rw (l, k) refl
      | inl ((xs, used), k) ↦
          rw (l, k)
            (Agrees-more es xs (load_pages x fuel (off + 4096) blob (load_page x h (xs, used)))
              (flat_pages x fuel (off + 4096) blob)
              (load_pages-Agrees fuel (off + 4096) blob (load_page x h (xs, used)) (es ++ xs)
                (load_page-Mirrors h es xs used m)))
    ]
  ]
