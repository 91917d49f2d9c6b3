-- ===== src/Alloc.antt =====
-- rust/bloomfs-alloc/src/lib.rs: the free-space bitmap, one bit for each cluster, set when used.
pub mod Invariant
pub mod Runs
pub mod FirstFit
pub mod Deferred
pub mod Snapshot
pub mod Undo
mod Examples
use bloomfs.Base.{
  ℕ, zero, suc, ◌+◌, ◌-◌, ◌*◌, ◌/◌, ◌%◌, ◌^◌, Bool, true, false, Option, none, some, List, [], ◌∷◌,
  ◌++◌, ltb, ◌==◌, if◌then◌else◌, length, replicate, slice, drop, Result, ok, err, to_le, from_le,
}
use bloomfs.Base.Fields.{copy_fields}
use bloomfs.Base.BitArray.{test_at, set_at, clear_at}

pub data Error : Type 0 where
  no_space zero_count short : Error

-- A contiguous run pending deferred free.
pub record FreeRange : Type 0 where
  pub start : ℕ
  pub count : ℕ

pub record Bitmap : Type 0 where
  pub bits : List ℕ
  pub total : ℕ
  pub used : ℕ
  pub deferred : List FreeRange

-- `total.div_ceil(64)`.
abbrev pub words_for : ℕ → ℕ
words_for total = (total + 63) / 64

unfoldable pub new : ℕ → Bitmap
new total = record { bits = replicate (words_for total) 0; total = total; used = 0; deferred = [] }

unfoldable pub get : Bitmap → ℕ → Bool
get b i = test_at b.bits i

unfoldable pub set_bit : Bitmap → ℕ → Bitmap
set_bit b i = record b { bits = set_at b.bits i }

unfoldable pub clr : Bitmap → ℕ → Bitmap
clr b i = record b { bits = clear_at b.bits i }

-- One round of the loop of `reserve`.
unfoldable pub reserve_one : Bitmap → ℕ → Bitmap
unfolding set_bit
reserve_one b i = if get b i then b else record b { bits = (set_bit b i).bits; used = b.used + 1 }

-- `rounds` is what `i` has still to go to `start + count`.
unfoldable pub reserve_loop : ℕ → ℕ → Bitmap → Bitmap
reserve_loop zero i b = b
reserve_loop (suc rounds) i b = elim (ltb i b.total) [
  | true ↦ reserve_loop rounds (i + 1) (reserve_one b i)
  | false ↦ b
]

-- `start + count` is a u64 sum.
abbrev pub stop_at : ℕ → ℕ → ℕ
stop_at start count = (start + count) % 2 ^ 64

unfoldable pub reserve : Bitmap → ℕ → ℕ → Bitmap
reserve b start count = reserve_loop (stop_at start count - start) start b

-- The scan of `alloc`: `rounds` is what `i` has still to go to the total.
unfoldable pub scan : Bitmap → ℕ → ℕ → ℕ → ℕ → ℕ → Option ℕ
scan b count zero i run start = none
scan b count (suc rounds) i run start =
    let used_here = scan b count rounds (i + 1) 0 start in
    let start' = if run == 0 then i else start in
    let free_here = scan b count rounds (i + 1) (run + 1) start' in
    if get b i then used_here else (if run + 1 == count then some start' else free_here)

-- `for j in start..start + count { self.set(j) }`.
unfoldable pub set_run : ℕ → ℕ → Bitmap → Bitmap
set_run zero j b = b
set_run (suc rounds) j b = set_run rounds (j + 1) (set_bit b j)

unfoldable pub take_run : Bitmap → ℕ → ℕ → Bitmap
take_run b start count = let b' = set_run count start b in record b' { used = b'.used + count }

-- The bitmap is unchanged on an error.
unfoldable pub alloc : Bitmap → ℕ → Result Error (ℕ × Bitmap)
alloc b count = if count == 0 then err zero_count else elim (scan b count b.total 0 0 0) [
  | none ↦ err no_space
  | some start ↦ ok (start, take_run b start count)
]

-- One round of the loop of `free`; `used` is a u64, whose wrap the invariant rules out.
unfoldable pub free_one : Bitmap → ℕ → Bitmap
unfolding clr
free_one b i =
    if get b i
    then record b { bits = (clr b i).bits; used = (b.used + (2 ^ 64 - 1)) % 2 ^ 64 }
    else b

unfoldable pub free_loop : ℕ → ℕ → Bitmap → Bitmap
free_loop zero i b = b
free_loop (suc rounds) i b = elim (ltb i b.total) [
  | true ↦ free_loop rounds (i + 1) (free_one b i)
  | false ↦ b
]

unfoldable pub free : Bitmap → ℕ → ℕ → Bitmap
free b start count = free_loop (stop_at start count - start) start b

unfoldable pub defer : Bitmap → ℕ → ℕ → Bitmap
defer b start count = record b {
  deferred = b.deferred ++ (record { start = start; count = count } ∷ []);
}

unfoldable pub free_all : List FreeRange → Bitmap → Bitmap
free_all [] b = b
free_all (r ∷ rs) b = free_all rs (free b r.start r.count)

unfoldable pub apply_deferred : Bitmap → Bitmap
apply_deferred b = free_all b.deferred (record b { deferred = [] })

unfoldable pub pending : Bitmap → ℕ
pending b = length b.deferred

sum_counts : List FreeRange → ℕ
sum_counts [] = 0
sum_counts (r ∷ rs) = (r.count + sum_counts rs) % 2 ^ 64

unfoldable pub deferred_count : Bitmap → ℕ
unfolding sum_counts
deferred_count b = sum_counts b.deferred

unfoldable pub available : Bitmap → ℕ
available b = (b.total + 2 ^ 64 - b.used) % 2 ^ 64

unfoldable pub marshal_len : Bitmap → ℕ
marshal_len b = 8 + length b.bits * 8

-- The copies that the loop over the words makes, the first at `off`.
unfoldable pub word_fields : ℕ → List ℕ → List (ℕ × List ℕ)
word_fields off [] = []
word_fields off (w ∷ ws) = (off, to_le 8 w) ∷ word_fields (off + 8) ws

-- The buffer afterwards, and the number of bytes written.
unfoldable pub marshal_into : Bitmap → List ℕ → List ℕ × ℕ
marshal_into b dst =
    (copy_fields dst ((0, to_le 8 b.total) ∷ word_fields 8 b.bits), 8 + length b.bits * 8)

unfoldable pub marshal : Bitmap → List ℕ
marshal b = (marshal_into b (replicate (marshal_len b) 0)).0

-- `rounds` words of the body from `off` on.
unfoldable pub read_words : ℕ → ℕ → List ℕ → List ℕ
read_words zero off body = []
read_words (suc rounds) off body = from_le (slice body off 8) ∷ read_words rounds (off + 8) body

unfoldable pub count_used : ℕ → ℕ → Bitmap → Bitmap
count_used zero i b = b
count_used (suc rounds) i b =
    count_used rounds (i + 1) (if get b i then record b { used = b.used + 1 } else b)

unfoldable pub unmarshal : List ℕ → Result Error Bitmap
unmarshal data_in =
    if ltb (length data_in) 8
    then err short
    else (let total = from_le (slice data_in 0 8) in
        let b = new total in
        let body = drop 8 data_in in
        if ltb (length body) (length b.bits * 8)
        then err short
        else ok (count_used total 0 (record b { bits = read_words (length b.bits) 0 body })))
