-- ===== src/Block/Runs.antt =====
-- Writes into a run of blocks, on a device whose calls may fail.
use bloomfs.Base.{
  ℕ, zero, suc, ◌+◌, ◌≤◌, ◌<◌, ◌≡◌, refl, ap, sym, ◌∙◌, List, [], ◌∷◌, ◌++◌, take, drop, slice,
  Result, ok, err, ◌⊎◌, inl, inr, arith,
}
use bloomfs.Base.Fields.{drop-drop}
use bloomfs.Block
use bloomfs.Block.{Device, MayFail, AfterWrite}

pub write-cases : {E : Type 0} (r : Result E (Unit {0})) → (r ≡ ok tt) ⊎ ((e : E) × (r ≡ err e))
write-cases (ok tt) = inl refl
write-cases (err e) = inr (e, refl)

longer : (a m : ℕ) → suc a + m ≡ suc (a + m)
longer a m = omega arith

take_nothing : (k : ℕ) → ◌≡◌ {A = List ℕ} (take k []) []
take_nothing zero = refl
take_nothing (suc k) = refl

take-next : (a m : ℕ) (xs : List ℕ) → take a xs ++ take m (drop a xs) ≡ take (a + m) xs
take-next zero m xs = ap (λ (n : ℕ). take n xs) (omega arith)
take-next (suc a) m [] = take_nothing m ∙ sym (take_nothing (suc a + m))
take-next (suc a) m (x ∷ xs) =
    ap (λ t. x ∷ t) (take-next a m xs) ∙ sym (ap (λ (n : ℕ). take n (x ∷ xs)) (longer a m))

pub slice-next :
    (buf : List ℕ) (off m : ℕ)
    → slice buf off 4096 ++ slice buf (off + 4096) m ≡ slice buf off (4096 + m)
slice-next buf off m =
    ap (λ t. slice buf off 4096 ++ take m t) (sym (drop-drop 4096 off (off + 4096) buf refl))
    ∙ take-next 4096 m (drop off buf)

module _ (d : Device) (IsGood : d.State → Type 0) (IsTorn : List ℕ → Type 0)
    (safe : MayFail d IsGood IsTorn) where
  -- The device after writes into `rounds` blocks from `at` on.
  pub record Confined (at rounds : ℕ) (s s' : d.State) : Type 0 where
    pub good : IsGood s'
    pub same_size : d.blocks s' ≡ d.blocks s
    pub outside : (j : ℕ) → (j < at) ⊎ (at + rounds ≤ j) → d.read_block s' j ≡ d.read_block s j

  pub one-Confined :
      (at rounds : ℕ) (b : List ℕ) (s : d.State)
      → IsGood s
      → Confined at (suc rounds) s (d.write_block s at b).0
  one-Confined at n b s g = record {
    good = safe.stays_good s at b g;
    same_size = safe.keeps_blocks s at b;
    outside =
        λ j h. safe.others s at b j g (λ e. elim h [ inl l ↦ omega arith | inr l ↦ omega arith ]);
  }

  pub then-Confined :
      (at n : ℕ) (s s1 s2 : d.State)
      → Confined at (suc n) s s1
      → Confined (at + 1) n s1 s2
      → Confined at (suc n) s s2
  then-Confined at n s s1 s2 p q = record {
    good = q.good;
    same_size = q.same_size ∙ p.same_size;
    outside = λ j h.
        q.outside j (elim h [ inl l ↦ inl (omega arith) | inr l ↦ inr (omega arith) ])
        ∙ p.outside j h;
  }

  pub written-back :
      (s : d.State) (num : ℕ) (b : List ℕ) (s' : d.State) (r : Result Block.Error (Unit {0}))
      → r ≡ ok tt
      → AfterWrite d IsTorn s num b s' r
      → d.read_block s' num ≡ ok b
  written-back s num b s' (ok u) h k = k
  written-back s num b s' (err e) h k = cc

  -- A sync behind the writes.
  pub synced-Confined :
      (at n : ℕ) (s s1 s2 : d.State)
      → IsGood s2 × (d.blocks s2 ≡ d.blocks s1) × ((j : ℕ) → d.read_block s2 j ≡ d.read_block s1 j)
      → Confined at n s s1
      → Confined at n s s2
  synced-Confined at n s s1 s2 (good, size, same) c = record {
    good = good;
    same_size = size ∙ c.same_size;
    outside = λ j k. same j ∙ c.outside j k;
  }
