-- ===== src/Alloc/Deferred.antt =====
-- rust/bloomfs-alloc/src/lib.rs: the clusters that wait for the commit.
use bloomfs.Base.{
  ℕ, ◌+◌, ◌^◌, ◌<◌, ◌≡◌, refl, ap, sym, subst, ◌∙◌, Bool, true, false, ◌&&◌, ◌||◌, List, [], ◌∷◌,
  ◌++◌, ltb, if◌then◌else◌, Bool-cases, inl, inr, All, ok, arith,
}
use bloomfs.Alloc.{Bitmap, FreeRange, get, alloc, reserve, free, defer, free_all, apply_deferred}
use bloomfs.Alloc.Invariant.{IsValid}
use bloomfs.Alloc.Runs.{in_run, reserve_lem, reserve_frame, free_lem, free_frame, total-free_loop}
use bloomfs.Alloc.FirstFit.{Allocated, alloc-Allocated}

-- Some pending range holds the cluster.
abbrev pub pinned_by : List FreeRange → ℕ → Bool
pinned_by [] j = false
pinned_by (r ∷ rs) j = in_run r.start r.count j || pinned_by rs j

abbrev pub FitsWord : FreeRange → Type 0
FitsWord r = r.start + r.count < 2 ^ 64

-- Every pending cluster still counts as used.
pub record IsPinned (b : Bitmap) : Type 0 where
  pub held : (j : ℕ) → j < b.total → pinned_by b.deferred j ≡ true → get b j ≡ true

total-free : (b : Bitmap) (start count : ℕ) → (free b start count).total ≡ b.total
unfolding free
total-free b start count = total-free_loop _ start b

free_all_lem :
    (rs : List FreeRange) (b : Bitmap)
    → IsValid b
    → All FitsWord rs
    → IsValid (free_all rs b)
      × ((j : ℕ)
          → get (free_all rs b) j ≡ (if pinned_by rs j && ltb j b.total then false else get b j))
unfolding free_all
free_all_lem [] b v h = (v, λ j. refl)
free_all_lem (r ∷ rs) b v h =
    let (v1, bits1) = free_lem b r.start r.count v h.0 in
    let (v2, bits2) = free_all_lem rs (free b r.start r.count) v1 h.1 in
    (v2, λ j. ground (arith, bits1 j, bits2 j, total-free b r.start r.count))

-- After the commit exactly the pending clusters are free that were not, and the bitmap is valid.
pub apply_deferred_lem :
    (b : Bitmap)
    → IsValid b
    → All FitsWord b.deferred
    → IsValid (apply_deferred b)
      × ((j : ℕ)
          → get (apply_deferred b) j
            ≡ (if pinned_by b.deferred j && ltb j b.total then false else get b j))
unfolding apply_deferred get
apply_deferred_lem b v h =
    free_all_lem b.deferred (record b { deferred = [] })
      (record { fits = v.fits; words = v.words; counted = v.counted; small = v.small }) h

free_all_frame :
    (rs : List FreeRange) (b : Bitmap)
    → ((free_all rs b).total ≡ b.total) × ((free_all rs b).deferred ≡ b.deferred)
unfolding free_all
free_all_frame [] b = (refl, refl)
free_all_frame (r ∷ rs) b =
    let (total, same) = free_frame b r.start r.count in
    let (total', same') = free_all_frame rs (free b r.start r.count) in
    (total' ∙ total, same' ∙ same)

-- The commit keeps the total and leaves nothing pending.
pub apply_deferred_frame :
    (b : Bitmap) → ((apply_deferred b).total ≡ b.total) × ((apply_deferred b).deferred ≡ [])
unfolding apply_deferred
apply_deferred_frame b = free_all_frame b.deferred (record b { deferred = [] })

pub pinned-append :
    (rs : List FreeRange) (r : FreeRange) (j : ℕ)
    → pinned_by (rs ++ r ∷ []) j ≡ (pinned_by rs j || in_run r.start r.count j)
pinned-append [] r j = ground arith
pinned-append (x ∷ rs) r j = ground (arith, pinned-append rs r j)

-- What the code does between two commits, with `alloc` as often as it succeeds; an allocation whose
-- write fails is rolled back at once.
pub data Step : Bitmap → Bitmap → Type 0 where
  allocates : {b b' : Bitmap} (count start : ℕ) → alloc b count ≡ ok (start, b') → Step b b'
  reserves :
      {b : Bitmap} (start count : ℕ) → start + count < 2 ^ 64 → Step b (reserve b start count)
  -- The clusters of a block that lost its last reference were in use.
  defers :
      {b : Bitmap} (start count : ℕ)
      → ((j : ℕ) → in_run start count j ≡ true → get b j ≡ true)
      → Step b (defer b start count)
  rolls_back :
      {b b' : Bitmap} (count start : ℕ)
      → alloc b count ≡ ok (start, b')
      → Step b (free b' start count)

pub data Steps (a : Bitmap) : Bitmap → Type 0 where
  here : Steps a a
  next : {b c : Bitmap} → Steps a b → Step b c → Steps a c

-- The invariant of a transaction: a valid bitmap whose pending clusters all count as used.
pub record IsSafe (b : Bitmap) : Type 0 where
  pub valid : IsValid b
  pub pinned : IsPinned b

allocated_free :
    (b : Bitmap) (count start : ℕ) {b' : Bitmap}
    → IsSafe b
    → alloc b count ≡ ok (start, b')
    → (j : ℕ) → in_run start count j ≡ true
    → pinned_by b.deferred j ≡ false
allocated_free b count start s e j h =
    let got : Allocated b count (ok (start, _)) =
      subst (Allocated b count) e (alloc-Allocated b count s.valid) in
    elim (Bool-cases (pinned_by b.deferred j)) [
      | inl p ↦ ground (arith, got.0.below, got.0.clear j, s.pinned.held j, p)
      | inr p ↦ p
    ]

allocates-IsSafe :
    (b b' : Bitmap) (count start : ℕ) → Allocated b count (ok (start, b')) → IsSafe b → IsSafe b'
allocates-IsSafe b b' count start (free, before, valid, used, total, same, bits) s = record {
  valid = valid;
  pinned = record {
    held = λ j l p. ground (arith, bits j, s.pinned.held j, ap (λ rs. pinned_by rs j) same);
  };
}

reserves-IsSafe :
    (b : Bitmap) (start count : ℕ)
    → start + count < 2 ^ 64
    → IsSafe b
    → IsSafe (reserve b start count)
reserves-IsSafe b start count h s =
    let (total, same) = reserve_frame b start count in
    let (valid, bits) = reserve_lem b start count s.valid h in
    record {
      valid = valid;
      pinned = record {
        held = λ j l p. ground (arith, bits j, s.pinned.held j, ap (λ rs. pinned_by rs j) same);
      };
    }

pub defers-IsSafe :
    (b : Bitmap) (start count : ℕ)
    → ((j : ℕ) → in_run start count j ≡ true → get b j ≡ true)
    → IsSafe b
    → IsSafe (defer b start count)
unfolding defer get
defers-IsSafe b start count h s = record {
  valid = record {
    fits = s.valid.fits;
    words = s.valid.words;
    counted = s.valid.counted;
    small = s.valid.small;
  };
  pinned = record {
    held = λ j l p. ground (
      arith,
      h j,
      s.pinned.held j,
      pinned-append b.deferred (record { start = start; count = count }) j,
    );
  };
}

-- The run that was handed out is free again, and no pending cluster is in it.
rolls_back-IsSafe :
    (b b' : Bitmap) (count start : ℕ)
    → alloc b count ≡ ok (start, b')
    → IsSafe b
    → IsSafe (free b' start count) × ((free b' start count).deferred ≡ b.deferred)
rolls_back-IsSafe b b' count start e s =
    let got : Allocated b count (ok (start, b')) =
      subst (Allocated b count) e (alloc-Allocated b count s.valid) in
    let (run, before, valid, used, total, same, bits) = got in
    let fits : start + count < 2 ^ 64 = omega (arith, run.below, s.valid.small) in
    let (valid', bits') = free_lem b' start count valid fits in
    let (total', same') = free_frame b' start count in
    (
      record {
        valid = valid';
        pinned = record {
          held = λ j l p.
              (let q : pinned_by b.deferred j ≡ true =
                  ap (λ rs. pinned_by rs j) (sym (same' ∙ same)) ∙ p in
                ground (
                  arith,
                  bits j,
                  bits' j,
                  s.pinned.held j,
                  total,
                  total',
                  q,
                  allocated_free b count start s e j,
                ));
        };
      },
      same' ∙ same,
    )

pub Step-IsSafe : {b b' : Bitmap} → Step b b' → IsSafe b → IsSafe b'
Step-IsSafe (allocates {b} {b'} count start e) s =
    allocates-IsSafe b b' count start
      (subst (Allocated b count) e (alloc-Allocated b count s.valid)) s
Step-IsSafe (reserves {b} start count h) s = reserves-IsSafe b start count h s
Step-IsSafe (defers {b} start count h) s = defers-IsSafe b start count h s
Step-IsSafe (rolls_back {b} {b'} count start e) s = (rolls_back-IsSafe b b' count start e s).0

-- A step drops no pending cluster.
Step-pinned :
    {b b' : Bitmap} (j : ℕ)
    → Step b b'
    → IsSafe b
    → pinned_by b.deferred j ≡ true
    → pinned_by b'.deferred j ≡ true
Step-pinned j (allocates {b} {b'} count start e) s p =
    let got : Allocated b count (ok (start, b')) =
      subst (Allocated b count) e (alloc-Allocated b count s.valid) in
    ap (λ rs. pinned_by rs j) got.5 ∙ p
Step-pinned j (reserves {b} start count h) s p =
    ap (λ rs. pinned_by rs j) (reserve_frame b start count).1 ∙ p
Step-pinned j (defers {b} start count h) s p =
    unfold defer in
    ground (arith, pinned-append b.deferred (record { start = start; count = count }) j)
Step-pinned j (rolls_back {b} {b'} count start e) s p =
    ap (λ rs. pinned_by rs j) (rolls_back-IsSafe b b' count start e s).1 ∙ p

Steps-keeps :
    {a b : Bitmap} (j : ℕ)
    → Steps a b
    → IsSafe a
    → IsSafe b × (pinned_by a.deferred j ≡ true → pinned_by b.deferred j ≡ true)
Steps-keeps j here s = (s, λ p. p)
Steps-keeps j (next steps step) s =
    let (safe, keeps) = Steps-keeps j steps s in
    (Step-IsSafe step safe, λ p. Step-pinned j step safe (keeps p))

-- From a safe bitmap on (valid, and every pending cluster in use), whatever is allocated, reserved
-- within the range of a u64, deferred where it is in use, or rolled back after an allocation
-- before the commit, alloc hands out no cluster that was pending at the start, and the bitmap
-- stays safe.
pub pending_not_reused :
    {a b c : Bitmap} (count start j : ℕ)
    → IsSafe a
    → Steps a b
    → alloc b count ≡ ok (start, c)
    → in_run start count j ≡ true
    → (pinned_by a.deferred j ≡ false) × IsSafe c
pending_not_reused {a} {b} {c} count start j s steps e h =
    let (safe, keeps) = Steps-keeps j steps s in
    let not_now = allocated_free b count start safe e j h in
    (
      elim (Bool-cases (pinned_by a.deferred j)) [ inl p ↦ cc (keeps p, not_now) | inr p ↦ p ],
      Step-IsSafe (allocates count start e) safe,
    )
