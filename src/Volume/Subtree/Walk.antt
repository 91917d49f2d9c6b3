-- ===== src/Volume/Subtree/Walk.antt =====
-- rust/bloomfs-fs/src/lib.rs: the answer of the walk through a subtree, and the rounds it needs.
use bloomfs.Base.{
  ℕ, zero, suc, ◌+◌, ◌<◌, ◌≡◌, ◌≢◌, refl, ap, sym, subst, ◌∙◌, Bool, true, false, Option, none,
  some, List, [], ◌∷◌, ◌⊎◌, inl, inr, ◌==◌, ◌++◌, Result, ok, ◌>>=◌, bind-ok, Bool-cases, ==_iff,
  arith,
}
use bloomfs.Block.{Device}
use bloomfs.Fs.{Error}
use bloomfs.Volume.{Volume}
use bloomfs.Volume.Pages.{Externals, read_dir_pages}
use bloomfs.Volume.Subtree.Named.{
  Member, Below, IsParent, IsChild, Member-append, Member-left, Member-right, push_dirs-append,
  Member-IsChild, IsChild-Member,
}
use bloomfs.Volume.Subtree.{push_dirs, walk, dir_subtree_contains}

-- The sum of the weights.
unfoldable pub total : (ℕ → ℕ) → List ℕ → ℕ
total w [] = 0
total w (x ∷ xs) = w x + total w xs

total-append : (w : ℕ → ℕ) (xs ys : List ℕ) → total w (xs ++ ys) ≡ total w xs + total w ys
unfolding total
total-append w [] ys = omega arith
total-append w (x ∷ xs) ys = omega (arith, total-append w xs ys)

module _ {d : Device} (v : Volume d) (x : Externals) where
  -- A round that did not end the walk.
  abbrev Visited : ℕ → ℕ → List ℕ → ℕ → Option Bool → Type 0
  Visited fuel dir stack target a =
      (cs : List ℕ) × IsParent v x dir cs × (walk v x fuel (cs ++ stack) target ≡ ok a)

  visit :
      (fuel dir : ℕ) (stack : List ℕ) (target : ℕ) (a : Option Bool)
      → (dir == target) ≡ false
      → walk v x (suc fuel) (dir ∷ stack) target ≡ ok a
      → Visited fuel dir stack target a
  unfolding walk
  visit fuel dir stack target a n h =
      let (es, pages, h1) =
        bind-ok (read_dir_pages x v dir)
          (λ es. push_dirs v es stack >>= λ stack'. walk v x fuel stack' target) a
          (sym (rw n refl) ∙ h) in
      let (s, pushed, rest) =
        bind-ok (push_dirs v es stack) (λ stack'. walk v x fuel stack' target) a h1 in
      let (cs, dirs, same) =
        bind-ok (push_dirs v es []) (λ cs. ok (cs ++ stack)) s
          (sym (push_dirs-append v es [] stack) ∙ pushed) in
      let e : cs ++ stack ≡ s = cc in
      (
        cs,
        record { entries = es; pages = pages; dirs = dirs },
        ap (λ s. walk v x fuel s target) e ∙ rest,
      )

  -- What an answer of the walk means for the directories on its stack.
  abbrev pub Answers : List ℕ → ℕ → Option Bool → Type 0
  Answers stack target none = Unit {0}
  Answers stack target (some true) = (dir : ℕ) × Member dir stack × Below v x target dir
  Answers stack target (some false) = (dir : ℕ) → Member dir stack → Below v x target dir → ⊥

  no_name : (dir target : ℕ) → (dir == target) ≡ false → dir ≡ target → ⊥
  no_name dir target n e = (let m : (dir == target) ≡ true = (==_iff dir target).1 e in cc)

  step-Answers :
      (dir : ℕ) (stack cs : List ℕ) (target : ℕ) (a : Option Bool)
      → (dir == target) ≡ false
      → IsParent v x dir cs
      → Answers (cs ++ stack) target a
      → Answers (dir ∷ stack) target a
  step-Answers dir stack cs target none n p h = tt
  step-Answers dir stack cs target (some true) n p (id, m, b) = elim (Member-append id cs stack m) [
    | inl k ↦ (dir, inl refl, Below.down dir id (Member-IsChild v x dir id cs p k) b)
    | inr k ↦ (id, inr k, b)
  ]
  step-Answers dir stack cs target (some false) n p h =
      λ id m b. elim m [ inr k ↦ h id (Member-right id cs stack k) b | inl e ↦ below b e ]
    where
      below : {id : ℕ} → Below v x target id → id ≡ dir → ⊥
      below Below.here e = no_name dir target n (sym e)
      below (Below.down id child k b) e =
          let at = subst (λ i. IsChild v x i child) e k in
          h child (Member-left child cs stack (IsChild-Member v x dir child cs p at)) b

  -- The walk answers whether the target is one of the directories on the stack or lies below one: an
  -- answer `some true` names such a directory, and `some false` means that there is none.
  pub walk-Answers :
      (fuel : ℕ) (stack : List ℕ) (target : ℕ) (a : Option Bool)
      → walk v x fuel stack target ≡ ok a
      → Answers stack target a
  unfolding walk
  walk-Answers zero stack target a h =
      let e : ◌≡◌ {A = Result Error (Option Bool)} (ok none) (ok a) = h in
      let same : none ≡ a = cc in subst (Answers stack target) same tt
  walk-Answers (suc fuel) [] target a h =
      let e : ◌≡◌ {A = Result Error (Option Bool)} (ok (some false)) (ok a) = h in
      let same : some false ≡ a = cc in subst (Answers [] target) same (λ id m b. m)
  walk-Answers (suc fuel) (dir ∷ stack) target a h = elim (Bool-cases (dir == target)) [
    | inl found ↦
        let e : ◌≡◌ {A = Result Error (Option Bool)} (ok (some true)) (ok a) =
          sym (rw found refl) ∙ h in
        let same : some true ≡ a = cc in
        let at : target ≡ dir = sym ((==_iff dir target).0 found) in
        subst (Answers (dir ∷ stack) target) same
          (dir, inl refl, subst (Below v x target) at Below.here)
    | inr n ↦
        let (cs, p, rest) = visit fuel dir stack target a n h in
        step-Answers dir stack cs target a n p (walk-Answers fuel (cs ++ stack) target a rest)
  ]

  -- Each directory weighs more than its subdirectories together, as it does in a tree where it weighs
  -- the number of the directories in it.
  abbrev pub IsTree : (ℕ → ℕ) → Type 0
  IsTree w = (dir : ℕ) (cs : List ℕ) → IsParent v x dir cs → total w cs < w dir

  -- In a tree the fuel lasts where it exceeds the weight of the stack.
  pub walk_lasts :
      (w : ℕ → ℕ) (fuel : ℕ) (stack : List ℕ) (target : ℕ)
      → IsTree w
      → total w stack < fuel
      → walk v x fuel stack target ≢ ok none
  unfolding walk total
  walk_lasts w zero stack target t l h = omega arith
  walk_lasts w (suc fuel) [] target t l h =
      let e : ◌≡◌ {A = Result Error (Option Bool)} (ok (some false)) (ok none) = h in cc
  walk_lasts w (suc fuel) (dir ∷ stack) target t l h = elim (Bool-cases (dir == target)) [
    | inl found ↦
        (let e : ◌≡◌ {A = Result Error (Option Bool)} (ok (some true)) (ok none) =
            sym (rw found refl) ∙ h in
          cc)
    | inr n ↦
        let (cs, p, rest) = visit fuel dir stack target none n h in
        walk_lasts w fuel (cs ++ stack) target t
          (omega (arith, t dir cs p, l, total-append w cs stack)) rest
  ]

  -- Under a weight by which each directory weighs more than its subdirectories together, with
  -- fuel above the weight of the top, an answer of dir_subtree_contains is the truth: the target
  -- is the top or lies below it, or it does not.
  pub dir_subtree_contains-IsDecision :
      (w : ℕ → ℕ) (fuel top target : ℕ) (a : Option Bool)
      → IsTree w
      → w top < fuel
      → dir_subtree_contains v x fuel top target ≡ ok a
      → (a ≡ some true × Below v x target top) ⊎ (a ≡ some false × (Below v x target top → ⊥))
  unfolding dir_subtree_contains total
  dir_subtree_contains-IsDecision w fuel top target none t l h =
      absurd (walk_lasts w fuel (top ∷ []) target t (omega (arith, l)) h)
  dir_subtree_contains-IsDecision w fuel top target (some true) t l h =
      let (dir, m, b) = walk-Answers fuel (top ∷ []) target (some true) h in
      elim m [ inl e ↦ inl (refl, subst (Below v x target) e b) | inr none_left ↦ absurd none_left ]
  dir_subtree_contains-IsDecision w fuel top target (some false) t l h =
      inr (refl, λ b. walk-Answers fuel (top ∷ []) target (some false) h top (inl refl) b)
