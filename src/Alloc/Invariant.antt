-- ===== src/Alloc/Invariant.antt =====
-- rust/bloomfs-alloc/src/lib.rs: what holds of every bitmap between two calls.
use bloomfs.Base.{
  ℕ, zero, suc, ◌+◌, ◌-◌, ◌%◌, ◌^◌, ◌<◌, ◌≡◌, refl, ap, sym, ◌∙◌, true, false, ltb, ◌==◌,
  if◌then◌else◌, Bool-cases, inl, inr, length, length-replicate, arith,
}
use bloomfs.Base.BitArray.{
  IsWords, replicate-IsWords, set_at-IsWords, clear_at-IsWords, length-set_at, length-clear_at,
  test-set_at, test-clear_at, test-replicate,
}
use bloomfs.Base.Count.{count_below, count-turn_on, count-turn_off, count-le}
use bloomfs.Alloc.{
  Bitmap, words_for, new, get, set_bit, clr, reserve_one, reserve_loop, free_one, free_loop,
}

-- The words are as many as the total asks for and are words; `used` counts the set bits.
pub record IsValid (b : Bitmap) : Type 0 where
  pub fits : length b.bits ≡ words_for b.total
  pub words : IsWords b.bits
  pub counted : b.used ≡ count_below b.total (get b)
  pub small : b.total < 2 ^ 64

pub get-set_bit :
    (b : Bitmap) (i j : ℕ)
    → IsValid b
    → i < b.total
    → get (set_bit b i) j ≡ (if i == j then true else get b j)
unfolding get set_bit
get-set_bit b i j v h = test-set_at b.bits i j (omega arith)

pub get-clr :
    (b : Bitmap) (i j : ℕ)
    → IsValid b
    → i < b.total
    → get (clr b i) j ≡ (if i == j then false else get b j)
unfolding get clr
get-clr b i j v h = test-clear_at b.bits i j v.words (omega arith)

count-new : (n k : ℕ) → count_below k (get (new n)) ≡ 0
unfolding count_below get new
count-new n zero = refl
count-new n (suc k) = ground (arith, count-new n k, test-replicate (words_for n) k)

pub new-IsValid : (n : ℕ) → n < 2 ^ 64 → IsValid (new n)
unfolding new
new-IsValid n h = record {
  fits = length-replicate (words_for n) 0;
  words = replicate-IsWords (words_for n);
  counted = sym (count-new n n);
  small = h;
}

-- Turning a free bit below the total on, or a used one off, and counting it.
pub turn_on-IsValid :
    (b : Bitmap) (i : ℕ)
    → IsValid b
    → i < b.total
    → get b i ≡ false
    → IsValid (record b { bits = (set_bit b i).bits; used = b.used + 1 })
unfolding get set_bit
turn_on-IsValid b i v h e = record {
  fits = length-set_at b.bits i ∙ v.fits;
  words = set_at-IsWords b.bits i v.words;
  counted =
      ap (λ (n : ℕ). n + 1) v.counted
      ∙ sym (count-turn_on b.total i _ _ h e (λ j. get-set_bit b i j v h));
  small = v.small;
}

pub turn_off-IsValid :
    (b : Bitmap) (i : ℕ)
    → IsValid b
    → i < b.total
    → get b i ≡ true
    → IsValid (record b { bits = (clr b i).bits; used = (b.used + (2 ^ 64 - 1)) % 2 ^ 64 })
unfolding get clr
turn_off-IsValid b i v h e =
    let off = count-turn_off b.total i (get b) (get (clr b i)) h e (λ j. get-clr b i j v h) in
    record {
      fits = length-clear_at b.bits i ∙ v.fits;
      words = clear_at-IsWords b.bits i v.words;
      counted = omega (arith, off, v.counted, v.small, count-le b.total (get b));
      small = v.small;
    }

pub reserve_one-IsValid : (b : Bitmap) (i : ℕ) → IsValid b → i < b.total → IsValid (reserve_one b i)
unfolding reserve_one
reserve_one-IsValid b i v h = elim (Bool-cases (get b i)) [
  | inl e ↦ rw e v
  | inr e ↦ rw e (turn_on-IsValid b i v h e)
]

pub free_one-IsValid : (b : Bitmap) (i : ℕ) → IsValid b → i < b.total → IsValid (free_one b i)
unfolding free_one
free_one-IsValid b i v h = elim (Bool-cases (get b i)) [
  | inl e ↦ rw e (turn_off-IsValid b i v h e)
  | inr e ↦ rw e v
]

pub reserve_loop-IsValid : (n i : ℕ) (b : Bitmap) → IsValid b → IsValid (reserve_loop n i b)
unfolding reserve_loop
reserve_loop-IsValid zero i b v = v
reserve_loop-IsValid (suc n) i b v = elim (Bool-cases (ltb i b.total)) [
  | inl e ↦
      rw (e, reserve_loop)
        (reserve_loop-IsValid n (i + 1) _ (reserve_one-IsValid b i v (ground arith)))
  | inr e ↦ rw (e, reserve_loop) v
]

pub free_loop-IsValid : (n i : ℕ) (b : Bitmap) → IsValid b → IsValid (free_loop n i b)
unfolding free_loop
free_loop-IsValid zero i b v = v
free_loop-IsValid (suc n) i b v = elim (Bool-cases (ltb i b.total)) [
  | inl e ↦
      rw (e, free_loop) (free_loop-IsValid n (i + 1) _ (free_one-IsValid b i v (ground arith)))
  | inr e ↦ rw (e, free_loop) v
]
