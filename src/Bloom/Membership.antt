-- ===== src/Bloom/Membership.antt =====
-- rust/bloomfs-bloom/src/lib.rs: a filter and the keys that were added to it.
use bloomfs.Base.{
  ℕ, zero, suc, ◌+◌, ◌*◌, ◌/◌, ◌%◌, ◌^◌, ◌≤◌, ◌<◌, ◌≡◌, refl, ◌∙◌, true, false, List, [], ◌∷◌, ◌++◌,
  length, replicate, length-replicate, arith,
}
use bloomfs.Base.BitArray.{test_at, set_at, length-set_at, test-set_at, test-replicate}
use native.Mathlib.Nat.{mul-le-mul_right}
use bloomfs.Bloom.{
  BlockedFilter, at_least_one, alloc, probe, add_loop, test_loop, block_offset, add, test,
}

-- The words hold one line per block.
pub record IsShaped (f : BlockedFilter) : Type 0 where
  pub words : length f.blocks ≡ f.num_blocks * 8
  pub some_block : 1 ≤ f.num_blocks
  pub some_probe : 1 ≤ f.k

-- All bits of `ws` stand in `ws'` too.
abbrev pub Keeps : List ℕ → List ℕ → Type 0
Keeps ws ws' = (length ws' ≡ length ws) × ((j : ℕ) → test_at ws j ≡ true → test_at ws' j ≡ true)

probe_within : (off a n : ℕ) → off + 8 ≤ n → probe off a < 64 * n
unfolding probe
probe_within off a n h = omega arith

set_at-Keeps : (ws : List ℕ) (i : ℕ) → i < 64 * length ws → Keeps ws (set_at ws i)
set_at-Keeps ws i h = (length-set_at ws i, λ j e. rw (test-set_at ws i j h) (ground arith))

add_loop-Keeps :
    (rounds i off a b : ℕ) (ws : List ℕ)
    → off + 8 ≤ length ws
    → Keeps ws (add_loop rounds i off a b ws)
unfolding add_loop
add_loop-Keeps zero i off a b ws h = (refl, λ j e. e)
add_loop-Keeps (suc n) i off a b ws h =
    let one : Keeps ws (set_at ws (probe off a)) =
      set_at-Keeps ws (probe off a) (probe_within off a (length ws) h) in
    let rest : Keeps (set_at ws (probe off a))
        (add_loop n (i + 1) off ((a + b) % 2 ^ 32) ((b + i) % 2 ^ 32) (set_at ws (probe off a))) =
      add_loop-Keeps n (i + 1) off ((a + b) % 2 ^ 32) ((b + i) % 2 ^ 32) (set_at ws (probe off a))
        (omega (arith, one.0)) in
    (rest.0 ∙ one.0, λ j e. rest.1 j (one.1 j e))

test_loop-Keeps :
    (rounds i off a b : ℕ) (ws ws' : List ℕ)
    → Keeps ws ws'
    → test_loop rounds i off a b ws ≡ true
    → test_loop rounds i off a b ws' ≡ true
unfolding test_loop
test_loop-Keeps zero i off a b ws ws' k h = refl
test_loop-Keeps (suc n) i off a b ws ws' k h =
    let here : test_at ws (probe off a) ≡ true = ground arith in
    let rest : test_loop n (i + 1) off ((a + b) % 2 ^ 32) ((b + i) % 2 ^ 32) ws ≡ true =
      rw here at h in
    rw
      (
        k.1 (probe off a) here,
        test_loop-Keeps n (i + 1) off ((a + b) % 2 ^ 32) ((b + i) % 2 ^ 32) ws ws' k rest,
      )
      refl

test_loop-add_loop :
    (rounds i off a b : ℕ) (ws : List ℕ)
    → off + 8 ≤ length ws
    → test_loop rounds i off a b (add_loop rounds i off a b ws) ≡ true
unfolding test_loop add_loop
test_loop-add_loop zero i off a b ws h = refl
test_loop-add_loop (suc n) i off a b ws h =
    let inside : probe off a < 64 * length ws = probe_within off a (length ws) h in
    let ws1 : List ℕ = set_at ws (probe off a) in
    let long : off + 8 ≤ length ws1 = omega (arith, length-set_at ws (probe off a)) in
    let set : test_at ws1 (probe off a) ≡ true =
      rw (test-set_at ws (probe off a) (probe off a) inside) (ground arith) in
    let kept = add_loop-Keeps n (i + 1) off ((a + b) % 2 ^ 32) ((b + i) % 2 ^ 32) ws1 long in
    rw
      (
        kept.1 (probe off a) set,
        test_loop-add_loop n (i + 1) off ((a + b) % 2 ^ 32) ((b + i) % 2 ^ 32) ws1 long,
      )
      refl

-- The high half of the hash picks a block below the count.
fastrange : (hi n : ℕ) → hi < 2 ^ 64 → 1 ≤ n → hi * n / 2 ^ 64 < n
fastrange hi n h l =
    let most : hi * n ≤ 18446744073709551615 * n = mul-le-mul_right n (omega arith) in omega arith

-- Adding a row of keys, the first one first.
abbrev pub add_all : (List ℕ → ℕ → ℕ) → List (List ℕ) → BlockedFilter → BlockedFilter
add_all xxh3 [] f = f
add_all xxh3 (x ∷ xs) f = add_all xxh3 xs (add xxh3 f x)

module _ (xxh3 : List ℕ → ℕ → ℕ) (wide : (x : List ℕ) (seed : ℕ) → xxh3 x seed < 2 ^ 128) where
  line_within :
      (f : BlockedFilter) (x : List ℕ)
      → IsShaped f
      → (block_offset xxh3 f x).0 + 8 ≤ length f.blocks
  unfolding block_offset
  line_within f x s =
      let below : xxh3 x f.seed / 2 ^ 64 * f.num_blocks / 2 ^ 64 < f.num_blocks =
        fastrange (xxh3 x f.seed / 2 ^ 64) f.num_blocks (omega (arith, wide x f.seed))
          s.some_block in
      omega (arith, s.words)

  pub add-IsShaped : (f : BlockedFilter) (x : List ℕ) → IsShaped f → IsShaped (add xxh3 f x)
  unfolding add
  add-IsShaped f x s = record {
    words = (add_loop-Keeps f.k 0 _ _ _ f.blocks (line_within f x s)).0 ∙ s.words;
    some_block = s.some_block;
    some_probe = s.some_probe;
  }

  pub test-add_self :
      (f : BlockedFilter) (x : List ℕ) → IsShaped f → test xxh3 (add xxh3 f x) x ≡ true
  unfolding test add block_offset
  test-add_self f x s = test_loop-add_loop f.k 0 _ _ _ f.blocks (line_within f x s)

  pub test-add_other :
      (f : BlockedFilter) (x y : List ℕ)
      → IsShaped f
      → test xxh3 f y ≡ true
      → test xxh3 (add xxh3 f x) y ≡ true
  unfolding test add block_offset
  test-add_other f x y s h =
      test_loop-Keeps f.k 0 _ _ _ f.blocks _
        (add_loop-Keeps f.k 0 _ _ _ f.blocks (line_within f x s)) h

  kept :
      (xs : List (List ℕ)) (f : BlockedFilter) (y : List ℕ)
      → IsShaped f
      → test xxh3 f y ≡ true
      → test xxh3 (add_all xxh3 xs f) y ≡ true
  kept [] f y s h = h
  kept (x ∷ xs) f y s h = kept xs (add xxh3 f x) y (add-IsShaped f x s) (test-add_other f x y s h)

  -- No false negatives, for any hash of 128 bits: after a row of keys was added to a filter that has the words of its blocks, at
  -- least one block and at least one probe, each key of the row tests true.
  pub test-add_all :
      (xs ys : List (List ℕ)) (f : BlockedFilter) (y : List ℕ)
      → IsShaped f
      → test xxh3 (add_all xxh3 (xs ++ (y ∷ ys)) f) y ≡ true
  test-add_all [] ys f y s = kept ys (add xxh3 f y) y (add-IsShaped f y s) (test-add_self f y s)
  test-add_all (x ∷ xs) ys f y s = test-add_all xs ys (add xxh3 f x) y (add-IsShaped f x s)

-- A filter as `alloc` makes it.
pub alloc-IsShaped : (n k seed : ℕ) → IsShaped (alloc n k seed)
unfolding alloc at_least_one
alloc-IsShaped n k seed = record {
  words = length-replicate _ 0;
  some_block = ground arith;
  some_probe = ground arith;
}

-- An empty filter with `words` words denies every key.
test_loop-empty :
    (rounds i off a b words : ℕ)
    → 1 ≤ rounds
    → test_loop rounds i off a b (replicate words 0) ≡ false
unfolding test_loop
test_loop-empty zero i off a b words h = absurd (omega arith)
test_loop-empty (suc n) i off a b words h = rw (test-replicate words (probe off a)) refl

-- A new filter, of whatever size and number of probes, has the words of its blocks, at least one block
-- and at least one probe, and denies every key.
pub test-alloc :
    (xxh3 : List ℕ → ℕ → ℕ) (n k seed : ℕ) (x : List ℕ)
    → IsShaped (alloc n k seed) × (test xxh3 (alloc n k seed) x ≡ false)
unfolding test alloc at_least_one
test-alloc xxh3 n k seed x =
    (alloc-IsShaped n k seed, test_loop-empty (at_least_one k) 0 _ _ _ _ (ground arith))
