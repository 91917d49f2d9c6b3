-- ===== src/CachedDir/Pages.antt =====
-- rust/bloomfs-fs/src/lib.rs: the pages of an open directory and the counts of their bytes.
use bloomfs.Base.{
  ℕ, zero, suc, ◌+◌, ◌≤◌, ◌<◌, ◌≡◌, refl, sym, subst, ◌∙◌, Bool, true, false, some, List, [], ◌∷◌,
  ◌++◌, leb, ◌==◌, if◌then◌else◌, length, get_or, get_or-set, length-set, length-append, Bool-cases,
  Option-cases, inl, inr, arith,
}
use bloomfs.Segment.{InodeId, DirEntry}
use bloomfs.Dir
use bloomfs.Fs.Pages.{entries_size}
use bloomfs.CachedDir.{
  CachedDir, entry_bytes, page_with_room, put_entry, new_page, place_entry, add,
}

-- Each page has a count of its bytes, which is right, and at most 4096.
pub record IsPaged (h : CachedDir) : Type 0 where
  pub parallel : length h.used ≡ length h.pages
  pub right :
      (p : ℕ) → p < length h.pages → get_or h.used p 0 ≡ 4 + entries_size (get_or h.pages p [])
  pub small : (p : ℕ) → p < length h.pages → get_or h.used p 0 ≤ 4096

entries_size-append :
    (es : List DirEntry) (name : List ℕ) (id : InodeId)
    → entries_size (es ++ ((name, id) ∷ [])) ≡ entries_size es + (10 + length name)
entries_size-append [] name id = omega arith
entries_size-append (e ∷ es) name id = omega (arith, entries_size-append es name id)

put_entry-IsPaged :
    (h : CachedDir) (name : List ℕ) (id : InodeId) (p : ℕ)
    → IsPaged h
    → p < length h.pages
    → get_or h.used p 0 + entry_bytes name ≤ 4096
    → IsPaged (put_entry h name id p)
unfolding put_entry entry_bytes
put_entry-IsPaged h name id p v l room =
    let page = get_or h.pages p [] ++ ((name, id) ∷ []) in
    let bytes = get_or h.used p 0 + (10 + length name) in
    record {
      parallel = length-set h.used p bytes ∙ v.parallel ∙ sym (length-set h.pages p page);
      right = λ q m.
          let inside : q < length h.pages = omega (arith, length-set h.pages p page) in
          rw
            (
              get_or-set h.pages p q page [] l,
              get_or-set h.used p q bytes 0 (omega (arith, v.parallel)),
            )
            (elim (Bool-cases (p == q)) [
              | inl b ↦
                  rw b
                    (omega (arith, v.right p l, entries_size-append (get_or h.pages p []) name id))
              | inr b ↦ rw b (v.right q inside)
            ]);
      small = λ q m.
          let inside : q < length h.pages = omega (arith, length-set h.pages p page) in
          rw (get_or-set h.used p q bytes 0 (omega (arith, v.parallel)))
            (elim (Bool-cases (p == q)) [ inl b ↦ rw b room | inr b ↦ rw b (v.small q inside) ]);
    }

get_or-append {ℓ} :
    {A : Type ℓ} (xs : List A) (x d : A) (p : ℕ)
    → p < length xs + 1
    → get_or (xs ++ (x ∷ [])) p d ≡ (if p == length xs then x else get_or xs p d)
get_or-append [] x d zero l = refl
get_or-append [] x d (suc p) l = absurd (omega arith)
get_or-append (y ∷ xs) x d zero l = ground arith
get_or-append (y ∷ xs) x d (suc p) l = ground (arith, get_or-append xs x d p (omega arith))

page_count : (h : CachedDir) (p : ℕ) → p < length (new_page h).pages → p < length h.pages + 1
unfolding new_page
page_count h p l = omega (arith, l, length-append h.pages ([] ∷ []))

other_page :
    (h : CachedDir) (p : ℕ)
    → p < length h.pages + 1
    → (p == length h.pages) ≡ false
    → p < length h.pages
other_page h p l b = ground arith

new_page_there : (h : CachedDir) → length h.pages < length (new_page h).pages
unfolding new_page
new_page_there h = omega (arith, length-append h.pages ([] ∷ []))

new_page_room :
    (h : CachedDir) (name : List ℕ)
    → IsPaged h
    → length name ≤ 4082
    → get_or (new_page h).used (length h.pages) 0 + entry_bytes name ≤ 4096
unfolding new_page entry_bytes
new_page_room h name v short =
    let here : (length h.pages == length h.used) ≡ true = ground (arith, v.parallel) in
    rw (get_or-append h.used 4 0 (length h.pages) (omega (arith, v.parallel)), here) (omega arith)

first_page :
    (need u : ℕ) (us : List ℕ) (p : ℕ)
    → leb (u + need) 4096 ≡ true
    → some 0 ≡ some p
    → (p < length (u ∷ us)) × (get_or (u ∷ us) p 0 + need ≤ 4096)
first_page need u us zero b h = (omega arith, ground arith)
first_page need u us (suc p) b h = absurd (ground arith)

later_page :
    (need u : ℕ) (us : List ℕ) (q p : ℕ)
    → q < length us
    → get_or us q 0 + need ≤ 4096
    → some (suc q) ≡ some p
    → (p < length (u ∷ us)) × (get_or (u ∷ us) p 0 + need ≤ 4096)
later_page need u us q zero l m h = absurd (ground arith)
later_page need u us q (suc p) l m h =
    let e : q ≡ p = ground arith in
    (omega arith, subst (λ (n : ℕ). get_or us n 0 + need ≤ 4096) e m)

new_page-IsPaged : (h : CachedDir) → IsPaged h → IsPaged (new_page h)
unfolding new_page
new_page-IsPaged h v = record {
  parallel =
      omega (arith, v.parallel, length-append h.used (4 ∷ []), length-append h.pages ([] ∷ []));
  right = λ p l.
      let inside = page_count h p l in
      rw
        (
          get_or-append h.used 4 0 p (omega (arith, inside, v.parallel)),
          get_or-append h.pages [] [] p inside,
          v.parallel,
        )
        (elim (Bool-cases (p == length h.pages)) [
          | inl b ↦ rw b refl
          | inr b ↦ rw b (v.right p (other_page h p inside b))
        ]);
  small = λ p l.
      let inside = page_count h p l in
      rw (get_or-append h.used 4 0 p (omega (arith, inside, v.parallel)), v.parallel)
        (elim (Bool-cases (p == length h.pages)) [
          | inl b ↦ rw b (omega arith)
          | inr b ↦ rw b (v.small p (other_page h p inside b))
        ]);
}

-- The page found has the room.
page_with_room_lem :
    (need : ℕ) (us : List ℕ) (p : ℕ)
    → page_with_room need us ≡ some p
    → (p < length us) × (get_or us p 0 + need ≤ 4096)
unfolding page_with_room
page_with_room_lem need [] p h = absurd cc
page_with_room_lem need (u ∷ us) p h = elim (Bool-cases (leb (u + need) 4096)) [
  | inl b ↦ first_page need u us p b (rw (page_with_room, b) at h)
  | inr b ↦ elim (Option-cases (page_with_room need us)) [
    | inl e ↦ absurd (let f = rw (page_with_room, b, e) at h in cc)
    | inr (q, e) ↦
        let (inside, room) = page_with_room_lem need us q e in
        later_page need u us q p inside room (rw (page_with_room, b, e) at h)
  ]
]

place_entry-IsPaged :
    (h : CachedDir) (name : List ℕ) (id : InodeId)
    → IsPaged h
    → length name ≤ 4082
    → IsPaged (place_entry h name id)
unfolding place_entry
place_entry-IsPaged h name id v short =
    elim (Option-cases (page_with_room (entry_bytes name) h.used)) [
      | inl e ↦
          let n : IsPaged (new_page h) = new_page-IsPaged h v in
          rw (place_entry, e)
            (put_entry-IsPaged (new_page h) name id (length h.pages) n (new_page_there h)
              (new_page_room h name v short))
      | inr (p, e) ↦
          let (inside, room) = page_with_room_lem (entry_bytes name) h.used p e in
          rw (place_entry, e)
            (put_entry-IsPaged h name id p v (omega (arith, inside, v.parallel)) room)
    ]

-- If the pages of an open directory have right counts of at most 4096 bytes, then they have them after
-- add, for any name of at most 4082 bytes.
pub add-IsPaged :
    (over : ℕ → ℕ → ℕ → ℕ → Bool) (xxh3 : List ℕ → ℕ → ℕ) (xxh3_64 : List ℕ → ℕ) (h : CachedDir)
    (name : List ℕ) (id : InodeId)
    → IsPaged h
    → length name ≤ 4082
    → IsPaged (add over xxh3 xxh3_64 h name id).0
unfolding add
add-IsPaged over xxh3 xxh3_64 h name id v short =
    let r = Dir.add over xxh3 xxh3_64 h.dir name id in
    let same : IsPaged (record h { dir = r.0 }) = record {
      parallel = v.parallel;
      right = v.right;
      small = v.small;
    } in
    elim (Bool-cases r.1) [
      | inl b ↦ rw (add, b) (place_entry-IsPaged (record h { dir = r.0 }) name id same short)
      | inr b ↦ rw (add, b) same
    ]
