-- ===== src/Cow/Mount.antt =====
-- rust/bloomfs-cow/src/lib.rs: which uberblock `mount` takes.
use bloomfs.Base.{
  ℕ, ◌+◌, ◌%◌, ◌<◌, ◌≡◌, ◌≢◌, Bool-cases, ◌==◌, refl, ap, sym, ◌∙◌, inl, inr, List, none, some,
  Result, ok, err, arith,
}
use bloomfs.Block.{Device}
use bloomfs.Cow.{Uberblock, Error, better, parse_uber, mount, load}

-- A block that loses against `u`.
abbrev pub Older : Uberblock → Result Error Uberblock → Type 0
Older u (err e) = Unit {0}
Older u (ok v) = v.seq < u.seq

module _ (hash : List ℕ → List ℕ) (d : Device) where
  -- `u` is the uberblock in its own slot, and the other slot holds nothing newer.
  pub record Rooted (s : d.State) (u : Uberblock) : Type 0 where
    pub own : List ℕ
    pub other : List ℕ
    pub own_read : d.read_block s (u.seq % 2) ≡ ok own
    pub other_read : d.read_block s ((u.seq + 1) % 2) ≡ ok other
    pub own_parses : parse_uber hash own ≡ ok u
    pub other_older : Older u (parse_uber hash other)

  best-first :
      (u : Uberblock) (r : Result Error Uberblock)
      → Older u r
      → better (better none (ok u)) r ≡ some u
  unfolding better
  best-first u (err e) h = refl
  best-first u (ok v) h = ground arith

  best-second :
      (u : Uberblock) (r : Result Error Uberblock)
      → Older u r
      → better (better none r) (ok u) ≡ some u
  unfolding better
  best-second u (err e) h = refl
  best-second u (ok v) h = ground arith

  mount_parts :
      (s : d.State) (raw0 raw1 : List ℕ) (u : Uberblock)
      → d.read_block s 0 ≡ ok raw0
      → d.read_block s 1 ≡ ok raw1
      → better (better none (parse_uber hash raw0)) (parse_uber hash raw1) ≡ some u
      → mount d hash s ≡ load d s u
  unfolding mount
  mount_parts s raw0 raw1 u h k b = rw (h, k, b) refl

  pub mount-Rooted : (s : d.State) (u : Uberblock) → Rooted s u → mount d hash s ≡ load d s u
  mount-Rooted s u r =
      let other_slot : (k : ℕ) → (u.seq + 1) % 2 ≡ k → d.read_block s k ≡ ok r.other =
        λ k e. ap (d.read_block s) (sym e) ∙ r.other_read in
      elim (Bool-cases (u.seq % 2 == 0)) [
        | inl even ↦
            let e : u.seq % 2 ≡ 0 = ground arith in
            mount_parts s r.own r.other u (rw e at r.own_read) (other_slot 1 (omega arith))
              (rw r.own_parses (best-first u _ r.other_older))
        | inr odd ↦
            let no : u.seq % 2 ≢ 0 = ground arith in
            let e : u.seq % 2 ≡ 1 = omega arith in
            mount_parts s r.other r.own u (other_slot 0 (omega arith)) (rw e at r.own_read)
              (rw r.own_parses (best-second u _ r.other_older))
      ]

  -- The two slots decide.
  pub Rooted-same :
      (s s' : d.State) (u : Uberblock)
      → Rooted s u
      → ((j : ℕ) → j < 2 → d.read_block s' j ≡ d.read_block s j)
      → Rooted s' u
  Rooted-same s s' u r h = record {
    own = r.own;
    other = r.other;
    own_read = h (u.seq % 2) (omega arith) ∙ r.own_read;
    other_read = h ((u.seq + 1) % 2) (omega arith) ∙ r.other_read;
    own_parses = r.own_parses;
    other_older = r.other_older;
  }
