-- ===== src/Cow/Flip.antt =====
-- rust/bloomfs-cow/src/lib.rs: where the metadata slots stand, and what `write_uber` does to its slot.
use bloomfs.Base.{
  ℕ, ◌+◌, ◌%◌, ◌≤◌, ◌<◌, ◌≡◌, refl, ◌∙◌, ◌⊎◌, inl, inr, List, Bool-cases, true, false, ◌==◌, length,
  Result, ok, err, arith,
}
use bloomfs.Block
use bloomfs.Block.{Device, MayFail, AfterWrite}
use bloomfs.Cow.{
  Uberblock, Error, then_block, meta_start, load, marshal_binary, parse_uber, write_uber, successor,
}
use bloomfs.Cow.Uber.{length-marshal_binary}
use bloomfs.Block.Runs.{Confined, one-Confined, synced-Confined}
use bloomfs.Cow.Blocks.{read_blocks-same}

-- The two metadata slots stand behind the uberblocks, apart from each other and on the device.
pub record Laid (u : Uberblock) (blocks : ℕ) : Type 0 where
  pub active : u.active_meta ≤ 1
  pub first : 2 ≤ u.meta_a
  pub second : u.meta_a + u.meta_blocks ≤ u.meta_b
  pub last : u.meta_b + u.meta_blocks ≤ blocks

pub load-same :
    (d : Device) (u : Uberblock) (s s' : d.State)
    → ((j : ℕ)
        → meta_start u ≤ j
        → j < meta_start u + u.meta_blocks
        → d.read_block s' j ≡ d.read_block s j)
    → load d s' u ≡ load d s u
unfolding load
load-same d u s s' h = rw (read_blocks-same d s s' u.meta_blocks (meta_start u) h) refl

-- The other slot than the active one, in arithmetic.
module _ (u : Uberblock) (root_inode next_inode blocks : ℕ) (l : Laid u blocks) where
  abbrev pub n : Uberblock
  n = successor u root_inode next_inode

  pub slots_apart :
      (2 ≤ meta_start u)
      × (2 ≤ meta_start n)
      × (meta_start n + u.meta_blocks ≤ blocks)
      × ((meta_start n + u.meta_blocks ≤ meta_start u)
          ⊎ (meta_start u + u.meta_blocks ≤ meta_start n))
  unfolding meta_start successor
  slots_apart = elim (Bool-cases (u.active_meta == 1)) [
    | inl e ↦
        let other : (n.active_meta == 1) ≡ false = ground arith in
        rw (e, other)
          (omega (arith, l.first, l.second), l.first, omega (arith, l.second, l.last), inl l.second)
    | inr e ↦
        let other : (n.active_meta == 1) ≡ true = ground arith in
        rw (e, other) (l.first, omega (arith, l.first, l.second), l.last, inr l.second)
  ]

  pub n-Laid : Laid n blocks
  unfolding successor
  n-Laid = record {
    active = omega (arith, l.active);
    first = l.first;
    second = l.second;
    last = l.last;
  }

module _ (hash : List ℕ → List ℕ) (digest : (x : List ℕ) → length (hash x) ≡ 32) (d : Device)
    (IsGood : d.State → Type 0) (IsTorn : List ℕ → Type 0) (safe : MayFail d IsGood IsTorn)
    (torn_fails : (t : List ℕ) → IsTorn t → (e : Error) × (parse_uber hash t ≡ err e)) where
  -- What a new uberblock's block holds after `write_uber`: what it held, a torn block, or the uberblock.
  abbrev pub Flip : d.State → d.State → Uberblock → Type 0
  Flip s s' u =
      Confined d IsGood IsTorn safe (u.seq % 2) 1 s s'
      × ((d.read_block s' (u.seq % 2) ≡ d.read_block s (u.seq % 2))
          ⊎ ((t : List ℕ) × (d.read_block s' (u.seq % 2) ≡ ok t) × IsTorn t)
          ⊎ (d.read_block s' (u.seq % 2) ≡ ok (marshal_binary hash u)))

  abbrev pub Flipped : d.State → Uberblock → d.State × Result Error (Unit {0}) → Type 0
  Flipped s u (s', ok _) =
      Confined d IsGood IsTorn safe (u.seq % 2) 1 s s'
      × (d.read_block s' (u.seq % 2) ≡ ok (marshal_binary hash u))
  Flipped s u (s', err e) = Flip s s' u

  module _ (s : d.State) (u : Uberblock) (g : IsGood s) (room : 2 ≤ d.blocks s) where
    sync-Flipped :
        (p : d.State × Result Block.Error (Unit {0})) (s1 : d.State)
        → IsGood p.0
          × (d.blocks p.0 ≡ d.blocks s1)
          × ((j : ℕ) → d.read_block p.0 j ≡ d.read_block s1 j)
        → Flipped s u (s1, ok tt)
        → Flipped s u (then_block p (λ _ s2. (s2, ok tt)))
    sync-Flipped (s2, ok _) s1 q (c, h) =
        (synced-Confined d IsGood IsTorn safe (u.seq % 2) 1 s s1 s2 q c, q.2 (u.seq % 2) ∙ h)
    sync-Flipped (s2, err _) s1 q (c, h) = (
      synced-Confined d IsGood IsTorn safe (u.seq % 2) 1 s s1 s2 q c,
      inr (inr (q.2 (u.seq % 2) ∙ h)),
    )

    write-Flipped :
        (p : d.State × Result Block.Error (Unit {0}))
        → Confined d IsGood IsTorn safe (u.seq % 2) 1 s p.0
        → AfterWrite d IsTorn s (u.seq % 2) (marshal_binary hash u) p.0 p.1
        → Flipped s u (then_block p (λ _ s1. then_block (d.sync s1) (λ _ s2. (s2, ok tt))))
    write-Flipped (s1, ok _) c h = sync-Flipped (d.sync s1) s1 (safe.syncs s1 c.good) (c, h)
    write-Flipped (s1, err e) c (inl same) = (c, inl same)
    write-Flipped (s1, err e) c (inr torn) = (c, inr (inl torn))

    pub write_uber-Flipped : Flipped s u (write_uber d hash u s)
    unfolding write_uber
    write_uber-Flipped =
        write-Flipped (d.write_block s (u.seq % 2) (marshal_binary hash u))
          (one-Confined d IsGood IsTorn safe (u.seq % 2) 0 (marshal_binary hash u) s g)
          (safe.outcome s (u.seq % 2) (marshal_binary hash u) g (omega arith)
            (length-marshal_binary hash u digest))
