-- ===== src/Alloc/Undo.antt =====
-- rust/bloomfs-alloc/src/lib.rs: `free` behind `alloc`.
use bloomfs.Base.{ℕ, ◌≡◌, ap, sym, subst, ◌∙◌, Bool-cases, inl, inr, ok, arith}
use bloomfs.Alloc.{Bitmap, get, alloc, free}
use bloomfs.Alloc.Runs.{in_run, free_lem, free_frame}
use bloomfs.Alloc.FirstFit.{Allocated, alloc-Allocated}
use bloomfs.Alloc.Deferred.{IsSafe, pinned_by}

-- After a run that `alloc` took was freed again, every bit, the total and what is pending are as before,
-- and the bitmap is valid, with its pending clusters in use if they were.
pub free-alloc :
    (b b' : Bitmap) (count start : ℕ)
    → IsSafe b
    → alloc b count ≡ ok (start, b')
    → IsSafe (free b' start count)
      × ((j : ℕ) → get (free b' start count) j ≡ get b j)
      × ((free b' start count).total ≡ b.total)
      × ((free b' start count).deferred ≡ b.deferred)
free-alloc b b' count start s e =
    let got : Allocated b count (ok (start, b')) =
      subst (Allocated b count) e (alloc-Allocated b count s.valid) in
    let (run, before, valid, used, total, same, bits) = got in
    let (freed, back) = free_lem b' start count valid (omega (arith, run.below, s.valid.small)) in
    let (total', same') = free_frame b' start count in
    let undone : (j : ℕ) → get (free b' start count) j ≡ get b j = λ (j : ℕ).
      elim (Bool-cases (in_run start count j)) [
        | inl i ↦ ground (arith, back j, run.below, run.clear j, total)
        | inr o ↦ ground (arith, back j, bits j)
      ] in
    (
      record {
        valid = freed;
        pinned = record {
          held = λ j l p.
              undone j
              ∙ s.pinned.held j (omega (arith, total, total'))
                  (ap (λ rs. pinned_by rs j) (sym (same' ∙ same)) ∙ p);
        };
      },
      undone,
      total' ∙ total,
      same' ∙ same,
    )
