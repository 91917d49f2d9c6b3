-- ===== src/Alloc/Examples.antt =====
-- The allocator on a bitmap of six clusters whose first two are reserved.
use bloomfs.Base.{ℕ, ◌≡◌, refl, true, false, ◌&&◌, [], ◌∷◌, ltb, if◌then◌else◌, ok, err, All, arith}
use bloomfs.Base.BitArray.{test_at, set_at}
use bloomfs.Alloc.{
  Bitmap, no_space, new, get, set_bit, reserve_one, reserve_loop, reserve, scan, set_run, take_run,
  alloc, defer, apply_deferred, marshal, unmarshal,
}
use bloomfs.Alloc.Invariant.{IsValid, new-IsValid}
use bloomfs.Alloc.Runs.{in_run, reserve_lem}
use bloomfs.Alloc.FirstFit.{Allocated, alloc-Allocated}
use bloomfs.Alloc.Deferred.{
  IsSafe, IsPinned, FitsWord, pinned_by, here, next, allocates, defers-IsSafe, apply_deferred_lem,
  pending_not_reused,
}
use bloomfs.Alloc.Snapshot.{unmarshal-marshal}

abbrev six : Bitmap
six = reserve (new 6) 0 2

six_bits : six.bits ≡ 3 ∷ []
unfolding reserve reserve_loop reserve_one set_bit new get test_at set_at
six_bits = refl

six-IsValid : IsValid six
six-IsValid = (reserve_lem (new 6) 0 2 (new-IsValid 6 (omega arith)) (unfold new in omega arith)).0

alloc_three : alloc six 3 ≡ ok (2, take_run six 2 3)
unfolding alloc scan reserve reserve_loop reserve_one set_bit new get test_at set_at
alloc_three = refl

alloc_five : alloc six 5 ≡ err no_space
unfolding alloc scan reserve reserve_loop reserve_one set_bit new get test_at set_at
alloc_five = refl

alloc-Allocated_example : Allocated six 3 (alloc six 3)
alloc-Allocated_example = alloc-Allocated six 3 six-IsValid

-- The two reserved clusters are given back.
abbrev leaving : Bitmap
leaving = defer six 0 2

six-used : (j : ℕ) → in_run 0 2 j ≡ true → get six j ≡ true
unfolding new
six-used j h =
    ground (arith, (reserve_lem (new 6) 0 2 (new-IsValid 6 (omega arith)) (omega arith)).1 j)

six-IsPinned : IsPinned six
unfolding reserve reserve_loop reserve_one set_bit new get test_at set_at
six-IsPinned = record { held = λ j l p. cc }

leaving-IsSafe : IsSafe leaving
leaving-IsSafe =
    defers-IsSafe six 0 2 six-used (record { valid = six-IsValid; pinned = six-IsPinned })

abbrev used_five : Bitmap
used_five = take_run leaving 2 3

take_three : alloc leaving 3 ≡ ok (2, used_five)
unfolding alloc scan reserve reserve_loop reserve_one set_bit new get test_at set_at defer
take_three = refl

take_last : alloc used_five 1 ≡ ok (5, take_run used_five 5 1)
unfolding alloc scan reserve reserve_loop reserve_one set_bit new get test_at set_at defer take_run
    set_run
take_last = refl

pending_not_reused_example :
    (pinned_by leaving.deferred 5 ≡ false) × IsSafe (take_run used_five 5 1)
pending_not_reused_example =
    pending_not_reused 1 5 5 leaving-IsSafe (next here (allocates 3 2 take_three)) take_last refl

leaving_fits : All FitsWord leaving.deferred
unfolding defer reserve reserve_loop reserve_one set_bit new get test_at set_at
leaving_fits = omega arith

apply_deferred_lem_example :
    IsValid (apply_deferred leaving)
    × ((j : ℕ)
        → get (apply_deferred leaving) j
          ≡ (if pinned_by leaving.deferred j && ltb j leaving.total then false else get leaving j))
apply_deferred_lem_example = apply_deferred_lem leaving leaving-IsSafe.valid leaving_fits

unmarshal-marshal_example : unmarshal (marshal leaving) ≡ ok (record leaving { deferred = [] })
unmarshal-marshal_example = unmarshal-marshal leaving leaving-IsSafe.valid
