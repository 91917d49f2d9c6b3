-- ===== src/Cow/PowerLoss.antt =====
-- rust/bloomfs-cow/src/lib.rs: `write_snapshot` on a device that loses what was not flushed.
use bloomfs.Base.{
  ℕ, zero, suc, ◌+◌, ◌≤◌, ◌<◌, ◌≡◌, ◌≢◌, ◌*◌, sym, subst, ◌∙◌, ◌⊎◌, inl, inr, List, slice, Option,
  Result, Bool-cases, ltb, ok, err, arith,
}
use bloomfs.Block.{Device, LosesPower}
use bloomfs.Block.Runs.{write-cases}
use bloomfs.Alloc
use bloomfs.Alloc.{Bitmap}
use bloomfs.Dedup
use bloomfs.Inode.Table
use bloomfs.Cow.{
  Uberblock, Error, then_block, and_then, with_lengths, meta_start, write_blocks, write_snapshot,
  choose_buffer, snapshot,
}

module _ (d : Device) (IsGood : d.State → Type 0) (IsTorn : List ℕ → Type 0)
    (Reboot : d.State → d.State → Type 0) (lp : LosesPower d IsGood IsTorn Reboot) where
  -- The blocks of a set read after a loss of power in `s` as they do in `s0`.
  abbrev pub Durable : (ℕ → Type 0) → d.State → d.State → Type 0
  Durable K s0 s =
      (s' : d.State) → Reboot s s' → (j : ℕ) → K j → d.read_block s' j ≡ d.read_block s0 j

  write-Durable :
      (K : ℕ → Type 0) (s0 s : d.State) (num : ℕ) (b : List ℕ)
      → IsGood s
      → ((j : ℕ) → K j → num ≢ j)
      → Durable K s0 s
      → Durable K s0 (d.write_block s num b).0
  write-Durable K s0 s num b g away h s' r j k =
      let (mid, before, same, rest) = lp.writes s num b s' g r in
      same j (away j k) ∙ h mid before j k

  write_blocks-Durable :
      (K : ℕ → Type 0) (s0 : d.State) (rounds at off : ℕ) (buf : List ℕ) (s : d.State)
      → IsGood s
      → ((j : ℕ) → K j → (j < at) ⊎ (at + rounds ≤ j))
      → Durable K s0 s
      → IsGood (write_blocks d rounds at off buf s).0
        × Durable K s0 (write_blocks d rounds at off buf s).0
  unfolding write_blocks
  write_blocks-Durable K s0 zero at off buf s g away h = (g, h)
  write_blocks-Durable K s0 (suc n) at off buf s g away h =
      let b : List ℕ = slice buf off 4096 in
      let g1 = lp.device.stays_good s at b g in
      let h1 =
        write-Durable K s0 s at b g
          (λ j k e. elim (away j k) [ inl l ↦ omega arith | inr l ↦ omega arith ]) h in
      elim (write-cases (d.write_block s at b).1) [
        | inl done ↦ rw done (
            write_blocks-Durable K s0 n (at + 1) (off + 4096) buf (d.write_block s at b).0 g1
              (λ j k. elim (away j k) [ inl l ↦ inl (omega arith) | inr l ↦ inr (omega arith) ]) h1)
        | inr (e, failed) ↦ rw failed (g1, h1)
      ]

  sync-Durable :
      (K : ℕ → Type 0) (s0 s : d.State) → IsGood s → Durable K s0 s → Durable K s0 (d.sync s).0
  sync-Durable K s0 s g h s' r j k =
      let (mid, before, same) = lp.keeps s s' g r in same j ∙ h mid before j k

  -- Every block reads after a loss of power in `s` as it does in `s`.
  abbrev pub Settled : d.State → Type 0
  Settled s = (s' : d.State) → Reboot s s' → (j : ℕ) → d.read_block s' j ≡ d.read_block s j

  pub flushed :
      (s s' : d.State)
      → IsGood s
      → (d.sync s).1 ≡ ok tt
      → Reboot (d.sync s).0 s'
      → (j : ℕ) → d.read_block s' j ≡ d.read_block (d.sync s).0 j
  flushed s s' g h r j = lp.flushes s s' g h r j ∙ sym ((lp.device.syncs s g).2 j)

  -- What a loss of power behind `write_snapshot` leaves: everything, or at least the blocks of the set.
  abbrev pub Kept : (ℕ → Type 0) → d.State → d.State × Result Error Uberblock → Type 0
  Kept K s (s1, ok _) = Settled s1
  Kept K s (s1, err e) = Durable K s s1

  synced-Kept :
      (K : ℕ → Type 0) (s s1 : d.State) (u : Uberblock)
      → IsGood s1
      → Durable K s s1
      → Kept K s (then_block (d.sync s1) (λ _ s2. (s2, ok u)))
  synced-Kept K s s1 u g h = elim (write-cases (d.sync s1).1) [
    | inl done ↦
        subst (λ r. Kept K s (then_block ((d.sync s1).0, r) (λ _ s2. (s2, ok u)))) (sym done)
          (λ s' r j. flushed s1 s' g done r j)
    | inr (e, failed) ↦
        subst (λ r. Kept K s (then_block ((d.sync s1).0, r) (λ _ s2. (s2, ok u)))) (sym failed)
          (sync-Durable K s s1 g h)
  ]

  blocks-Kept :
      (K : ℕ → Type 0) (s : d.State) (u : Uberblock) (p : d.State × Result Error (Unit {0}))
      → IsGood p.0
      → Durable K s p.0
      → Kept K s (and_then p (λ _ s1. then_block (d.sync s1) (λ _ s2. (s2, ok u))))
  blocks-Kept K s u (s1, ok _) g h = synced-Kept K s s1 u g h
  blocks-Kept K s u (s1, err e) g h = h

  pub write_snapshot-Kept :
      (K : ℕ → Type 0) (u : Uberblock) (bm : Bitmap) (ddt : Dedup.Table) (tbl : Table.Table)
      (scratch : Option (List ℕ)) (s : d.State)
      → IsGood s
      → ((j : ℕ) → K j → (j < meta_start u) ⊎ (meta_start u + u.meta_blocks ≤ j))
      → Durable K s s
      → Kept K s (write_snapshot d u bm ddt tbl scratch s)
  unfolding write_snapshot with_lengths meta_start
  write_snapshot-Kept K u bm ddt tbl scratch s g away h =
      let buf : List ℕ = snapshot bm ddt tbl (choose_buffer scratch (u.meta_blocks * 4096)) in
      let (g1, h1) = write_blocks-Durable K s u.meta_blocks (meta_start u) 0 buf s g away h in
      elim (Bool-cases (
        ltb (u.meta_blocks * 4096)
          (Alloc.marshal_len bm + Dedup.marshal_len ddt + Table.marshal_len tbl))) [
            | inl big ↦ rw big h
            | inr small ↦ rw small (
                blocks-Kept K s (with_lengths u bm ddt tbl)
                  (write_blocks d u.meta_blocks (meta_start u) 0 buf s) g1 h1)
          ]
