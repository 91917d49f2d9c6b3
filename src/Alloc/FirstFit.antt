-- ===== src/Alloc/FirstFit.antt =====
-- rust/bloomfs-alloc/src/lib.rs: the scan for a free run, and `alloc`.
use bloomfs.Base.{
  ℕ, zero, suc, ◌+◌, ◌≤◌, ◌<◌, ◌≡◌, ◌≢◌, refl, ap, sym, subst, ◌∙◌, true, false, Option, none, some,
  ltb, ◌==◌, if◌then◌else◌, Bool-cases, inl, inr, Result, ok, err, arith,
}
use bloomfs.Alloc.{Bitmap, get, scan, set_run, take_run, alloc, Error, no_space, zero_count, short}
use bloomfs.Alloc.Invariant.{IsValid}
use bloomfs.Alloc.Runs.{in_run, set_run_lem, set_run_frame, get-used}

-- `count` clusters from `start` on lie below the total and are free.
pub record IsFreeRun (b : Bitmap) (count start : ℕ) : Type 0 where
  pub below : start + count ≤ b.total
  pub clear : (j : ℕ) → start ≤ j → j < start + count → get b j ≡ false

-- No free run of the length starts below `base`.
abbrev pub NoneBefore : Bitmap → ℕ → ℕ → Type 0
NoneBefore b count base = (s : ℕ) → s < base → ¬ IsFreeRun b count s

-- What the scan finds.
abbrev Found : Bitmap → ℕ → Option ℕ → Type 0
Found b count none = (s : ℕ) → ¬ IsFreeRun b count s
Found b count (some start) = IsFreeRun b count start × NoneBefore b count start

-- A used cluster ends every run that reaches it.
used_blocks :
    (b : Bitmap) (count base i : ℕ)
    → get b i ≡ true
    → i < base + count
    → NoneBefore b count base
    → NoneBefore b count (i + 1)
used_blocks b count base i e h before s l free = elim (Bool-cases (ltb s base)) [
  | inl q ↦ before s (ground arith) free
  | inr q ↦ ground (arith, free.clear i (ground arith) (ground arith))
]

-- `base` is where the current run of `run` free clusters starts, and `i` is its end.
module _ (b : Bitmap) (count : ℕ) where
  scan-Found :
      (rounds i run start base : ℕ)
      → i + rounds ≡ b.total
      → run < count
      → base + run ≡ i
      → (run ≢ 0 → start ≡ base)
      → ((j : ℕ) → base ≤ j → j < i → get b j ≡ false)
      → NoneBefore b count base
      → Found b count (scan b count rounds i run start)
  unfolding scan
  scan-Found zero i run start base e l r st clear before = λ s free.
      elim (Bool-cases (ltb s base)) [
        | inl q ↦ before s (ground arith) free
        | inr q ↦ ground (arith, free.below)
      ]
  scan-Found (suc rounds) i run start base e l r st clear before = elim (Bool-cases (get b i)) [
    | inl taken ↦ rw taken (
        scan-Found rounds (i + 1) 0 start (i + 1) (omega arith) (omega arith) (omega arith)
          (λ n. absurd (n refl)) (λ j p q. absurd (omega arith))
          (used_blocks b count base i taken (omega arith) before))
    | inr open_here ↦
        let from_here : (if run == 0 then i else start) ≡ base = ground (arith, st) in
        rw open_here (elim (Bool-cases (run + 1 == count)) [
          | inl full ↦
              rw (full, from_here)
                (record { below = ground arith; clear = λ j p q. ground (arith, clear j) }, before)
          | inr more ↦ rw more (
              scan-Found rounds (i + 1) (run + 1) (if run == 0 then i else start) base (omega arith)
                (ground arith) (omega arith) (λ n. ground (arith, st))
                (λ j p q. ground (arith, clear j)) before)
        ])
  ]

scan_lem : (b : Bitmap) (count : ℕ) → 0 < count → Found b count (scan b count b.total 0 0 0)
scan_lem b count h =
    scan-Found b count b.total 0 0 0 0 (omega arith) h (omega arith) (λ n. refl)
      (λ j p q. absurd (omega arith)) (λ s q. absurd (omega arith))

-- What `alloc` promises on each of its branches.
abbrev pub Allocated : Bitmap → ℕ → Result Error (ℕ × Bitmap) → Type 0
Allocated b count (ok (start, b')) =
    IsFreeRun b count start
    × NoneBefore b count start
    × IsValid b'
    × (b'.used ≡ b.used + count)
    × (b'.total ≡ b.total)
    × (b'.deferred ≡ b.deferred)
    × ((j : ℕ) → get b' j ≡ (if in_run start count j then true else get b j))
Allocated b count (err no_space) = (0 < count) × ((s : ℕ) → ¬ IsFreeRun b count s)
Allocated b count (err zero_count) = count ≡ 0
Allocated b count (err short) = ⊥

take_run-Allocated :
    (b : Bitmap) (count start : ℕ)
    → IsValid b
    → IsFreeRun b count start
    → NoneBefore b count start
    → Allocated b count (ok (start, take_run b start count))
unfolding take_run
take_run-Allocated b count start v free before =
    let (valid, bits) =
      set_run_lem count start b v free.below (λ j q. ground (arith, free.clear j)) in
    let frame = set_run_frame count start b in
    let same : (set_run count start b).used ≡ b.used = ap (λ (x : Bitmap). x.used) frame in
    (
      free,
      before,
      subst (λ (u : ℕ). IsValid (record (set_run count start b) { used = u + count })) (sym same)
          valid,
      ap (λ (n : ℕ). n + count) same,
      ap (λ (x : Bitmap). x.total) frame,
      ap (λ (x : Bitmap). x.deferred) frame,
      λ j. get-used (set_run count start b) _ j ∙ bits j,
    )

scanned-Allocated :
    (b : Bitmap) (count : ℕ) (found : Option ℕ)
    → IsValid b
    → 0 < count
    → Found b count found
    → Allocated b count
        (elim found [ none ↦ err no_space | some start ↦ ok (start, take_run b start count) ])
scanned-Allocated b count none v h f = (h, f)
scanned-Allocated b count (some start) v h f = take_run-Allocated b count start v f.0 f.1

-- Whatever the count, `alloc` takes the first free run that is long enough, marks it and no other
-- cluster used and counts it, or it says that the count is zero or that no free run is long enough.
pub alloc-Allocated : (b : Bitmap) (count : ℕ) → IsValid b → Allocated b count (alloc b count)
unfolding alloc
alloc-Allocated b count v = elim (Bool-cases (count == 0)) [
  | inl z ↦ rw z (ground arith)
  | inr z ↦ rw z (scanned-Allocated b count _ v (ground arith) (scan_lem b count (ground arith)))
]
