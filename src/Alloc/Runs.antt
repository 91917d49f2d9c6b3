-- ===== src/Alloc/Runs.antt =====
-- rust/bloomfs-alloc/src/lib.rs: which bits the loops of `reserve`, `free` and `alloc` change.
use bloomfs.Base.{
  ℕ, zero, suc, ◌+◌, ◌-◌, ◌%◌, ◌^◌, ◌≤◌, ◌<◌, ◌≡◌, refl, ap, subst, ◌∙◌, Bool, true, false, ◌&&◌,
  ltb, leb, ltb→lt, ◌==◌, if◌then◌else◌, Bool-cases, inl, inr, arith,
}
use bloomfs.Alloc.{
  Bitmap, get, set_bit, reserve_one, reserve_loop, reserve, set_run, free_one, free_loop, free,
}
use bloomfs.Alloc.Invariant.{
  IsValid, get-set_bit, get-clr, turn_on-IsValid, reserve_one-IsValid, free_one-IsValid,
  reserve_loop-IsValid, free_loop-IsValid,
}

-- `start ≤ j < start + count`.
abbrev pub in_run : ℕ → ℕ → ℕ → Bool
in_run start count j = leb start j && ltb j (start + count)

module _ (b : Bitmap) (i j : ℕ) (v : IsValid b) (h : i < b.total) where
  get-reserve_one : get (reserve_one b i) j ≡ (if i == j then true else get b j)
  unfolding get reserve_one
  get-reserve_one = ground (arith, get-set_bit b i j v h)

  get-free_one : get (free_one b i) j ≡ (if i == j then false else get b j)
  unfolding get free_one
  get-free_one = ground (arith, get-clr b i j v h)

total-reserve_one : (b : Bitmap) (i : ℕ) → (reserve_one b i).total ≡ b.total
unfolding reserve_one
total-reserve_one b i = ground arith

total-free_one : (b : Bitmap) (i : ℕ) → (free_one b i).total ≡ b.total
unfolding free_one
total-free_one b i = ground arith

pub total-reserve_loop : (n i : ℕ) (b : Bitmap) → (reserve_loop n i b).total ≡ b.total
unfolding reserve_loop
total-reserve_loop zero i b = refl
total-reserve_loop (suc n) i b =
    ground (arith, total-reserve_one b i, total-reserve_loop n (i + 1) (reserve_one b i))

pub total-free_loop : (n i : ℕ) (b : Bitmap) → (free_loop n i b).total ≡ b.total
unfolding free_loop
total-free_loop zero i b = refl
total-free_loop (suc n) i b =
    ground (arith, total-free_one b i, total-free_loop n (i + 1) (free_one b i))

deferred-reserve_one : (b : Bitmap) (i : ℕ) → (reserve_one b i).deferred ≡ b.deferred
unfolding reserve_one
deferred-reserve_one b i = ground arith

deferred-reserve_loop : (n i : ℕ) (b : Bitmap) → (reserve_loop n i b).deferred ≡ b.deferred
unfolding reserve_loop
deferred-reserve_loop zero i b = refl
deferred-reserve_loop (suc n) i b =
    ground (arith, deferred-reserve_one b i, deferred-reserve_loop n (i + 1) (reserve_one b i))

deferred-free_one : (b : Bitmap) (i : ℕ) → (free_one b i).deferred ≡ b.deferred
unfolding free_one
deferred-free_one b i = ground arith

deferred-free_loop : (n i : ℕ) (b : Bitmap) → (free_loop n i b).deferred ≡ b.deferred
unfolding free_loop
deferred-free_loop zero i b = refl
deferred-free_loop (suc n) i b =
    ground (arith, deferred-free_one b i, deferred-free_loop n (i + 1) (free_one b i))

-- `free` keeps the total and what is pending.
pub free_frame :
    (b : Bitmap) (start count : ℕ)
    → ((free b start count).total ≡ b.total) × ((free b start count).deferred ≡ b.deferred)
unfolding free
free_frame b start count = (total-free_loop _ start b, deferred-free_loop _ start b)

-- `reserve` keeps the total and what is pending.
pub reserve_frame :
    (b : Bitmap) (start count : ℕ)
    → ((reserve b start count).total ≡ b.total) × ((reserve b start count).deferred ≡ b.deferred)
unfolding reserve
reserve_frame b start count = (total-reserve_loop _ start b, deferred-reserve_loop _ start b)

get-reserve_loop :
    (n i : ℕ) (b : Bitmap) (j : ℕ)
    → IsValid b
    → get (reserve_loop n i b) j ≡ (if in_run i n j && ltb j b.total then true else get b j)
unfolding reserve_loop
get-reserve_loop zero i b j v = ground arith
get-reserve_loop (suc n) i b j v = elim (Bool-cases (ltb i b.total)) [
  | inl e ↦
      rw (e, reserve_loop)
        (let step =
            get-reserve_loop n (i + 1) (reserve_one b i) j
              (reserve_one-IsValid b i v (ltb→lt _ _ e)) in
          ground (arith, step, get-reserve_one b i j v (ltb→lt _ _ e), total-reserve_one b i))
  | inr e ↦ rw (e, reserve_loop) (ground arith)
]

get-free_loop :
    (n i : ℕ) (b : Bitmap) (j : ℕ)
    → IsValid b
    → get (free_loop n i b) j ≡ (if in_run i n j && ltb j b.total then false else get b j)
unfolding free_loop
get-free_loop zero i b j v = ground arith
get-free_loop (suc n) i b j v = elim (Bool-cases (ltb i b.total)) [
  | inl e ↦
      rw (e, free_loop)
        (let step =
            get-free_loop n (i + 1) (free_one b i) j (free_one-IsValid b i v (ltb→lt _ _ e)) in
          ground (arith, step, get-free_one b i j v (ltb→lt _ _ e), total-free_one b i))
  | inr e ↦ rw (e, free_loop) (ground arith)
]

-- `reserve` sets the bits of its run below the total, keeps all others, and the bitmap stays valid.
pub reserve_lem :
    (b : Bitmap) (start count : ℕ)
    → IsValid b
    → start + count < 2 ^ 64
    → IsValid (reserve b start count)
      × ((j : ℕ)
          → get (reserve b start count) j
            ≡ (if in_run start count j && ltb j b.total then true else get b j))
unfolding reserve
reserve_lem b start count v h =
    let e : (start + count) % 2 ^ 64 - start ≡ count = omega arith in
    (reserve_loop-IsValid _ start b v, λ j. rw e (get-reserve_loop count start b j v))

-- `free` clears the bits of its run below the total, keeps all others, and the bitmap stays valid.
pub free_lem :
    (b : Bitmap) (start count : ℕ)
    → IsValid b
    → start + count < 2 ^ 64
    → IsValid (free b start count)
      × ((j : ℕ)
          → get (free b start count) j
            ≡ (if in_run start count j && ltb j b.total then false else get b j))
unfolding free
free_lem b start count v h =
    let e : (start + count) % 2 ^ 64 - start ≡ count = omega arith in
    (free_loop-IsValid _ start b v, λ j. rw e (get-free_loop count start b j v))

set_run-used :
    (n i u : ℕ) (b : Bitmap)
    → set_run n i (record b { used = u }) ≡ record (set_run n i b) { used = u }
unfolding set_run set_bit
set_run-used zero i u b = refl
set_run-used (suc n) i u b = set_run-used n (i + 1) u (set_bit b i)

pub set_run_frame :
    (n i : ℕ) (b : Bitmap) → set_run n i b ≡ record b { bits = (set_run n i b).bits }
unfolding set_run set_bit
set_run_frame zero i b = refl
set_run_frame (suc n) i b = set_run_frame n (i + 1) (set_bit b i)

-- One bit set and counted.
mark : Bitmap → ℕ → Bitmap
mark b i = record b { bits = (set_bit b i).bits; used = b.used + 1 }

get-mark :
    (b : Bitmap) (i j : ℕ)
    → IsValid b
    → i < b.total
    → get (mark b i) j ≡ (if i == j then true else get b j)
unfolding mark get
get-mark b i j v h = get-set_bit b i j v h

set_run-mark :
    (n k i u : ℕ) (b : Bitmap)
    → record (set_run n k (mark b i)) { used = u } ≡ record (set_run n k (set_bit b i)) { used = u }
unfolding mark set_bit
set_run-mark n k i u b =
    ap (λ (x : Bitmap). record x { used = u }) (set_run-used n k (b.used + 1) (set_bit b i))

pub get-used : (b : Bitmap) (u j : ℕ) → get (record b { used = u }) j ≡ get b j
unfolding get
get-used b u j = refl

-- The bits and the count after `n` free bits from `i` on were set one by one.
pub set_run_lem :
    (n i : ℕ) (b : Bitmap)
    → IsValid b
    → i + n ≤ b.total
    → ((j : ℕ) → in_run i n j ≡ true → get b j ≡ false)
    → IsValid (record (set_run n i b) { used = b.used + n })
      × ((j : ℕ) → get (set_run n i b) j ≡ (if in_run i n j then true else get b j))
unfolding set_run mark
set_run_lem zero i b v h clear =
    (subst (λ (u : ℕ). IsValid (record b { used = u })) (omega arith) v, λ j. ground arith)
set_run_lem (suc n) i b v h clear =
    let marked : IsValid (mark b i) =
      turn_on-IsValid b i v (omega arith) (clear i (ground arith)) in
    let total_mark : (mark b i).total ≡ b.total = refl in
    let used_mark : (mark b i).used + n ≡ b.used + suc n = omega arith in
    let (valid, bits) =
      set_run_lem n (i + 1) (mark b i) marked (omega arith)
        (λ j q. ground (arith, get-mark b i j v, clear j)) in
    (
      subst IsValid
          (set_run-mark n (i + 1) i _ b
            ∙ ap (λ (u : ℕ). record (set_run n (i + 1) (set_bit b i)) { used = u }) used_mark)
          valid,
      λ j. ground (
        arith,
        bits j,
        get-mark b i j v,
        ap (λ (x : Bitmap). get x j) (set_run-mark n (i + 1) i 0 b),
        get-used (set_run n (i + 1) (mark b i)) 0 j,
        get-used (set_run n (i + 1) (set_bit b i)) 0 j,
      ),
    )
