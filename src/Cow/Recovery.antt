-- ===== src/Cow/Recovery.antt =====
-- rust/bloomfs-cow/src/lib.rs: a commit on a device that loses what was not flushed.
use bloomfs.Base.{
  ℕ, ◌+◌, ◌%◌, ◌≤◌, ◌<◌, ◌≡◌, sym, subst, ◌∙◌, ◌⊎◌, inl, inr, List, [], length, Option, Result, ok,
  err, arith,
}
use bloomfs.Block
use bloomfs.Block.{Device, MayFail, LosesPower, Unflushed}
use bloomfs.Block.Runs.{Confined, write-cases}
use bloomfs.Alloc
use bloomfs.Alloc.{Bitmap}
use bloomfs.Dedup
use bloomfs.Inode.Table
use bloomfs.Cow.{
  Uberblock, Error, then_block, and_then, meta_start, write_snapshot, load, marshal_binary,
  parse_uber, write_uber, successor, commit,
}
use bloomfs.Cow.Mount.{Rooted, Rooted-same, mount-Rooted}
use bloomfs.Cow.Staged.{Staged, write_snapshot-Staged}
use bloomfs.Cow.Flip.{Flip, Flipped, load-same, slots_apart}
use bloomfs.Cow.Atomic.{Ready, IsAtomic, RolledBack, new_uber, commit_survives, after_flip}
use bloomfs.Block.Runs.{one-Confined, written-back}
use bloomfs.Cow.Uber.{length-marshal_binary}
use bloomfs.Cow.PowerLoss.{Durable, Settled, Kept, write_snapshot-Kept}

-- The blocks that a mount of the committed state reads: the uberblocks and the active slot.
abbrev pub Mounted : Uberblock → ℕ → Type 0
Mounted prev j = (j < 2) ⊎ ((meta_start prev ≤ j) × (j < meta_start prev + prev.meta_blocks))

module _ (hash : List ℕ → List ℕ) (digest : (x : List ℕ) → length (hash x) ≡ 32) (d : Device)
    (IsGood : d.State → Type 0) (IsTorn : List ℕ → Type 0) (Reboot : d.State → d.State → Type 0)
    (lp : LosesPower d IsGood IsTorn Reboot)
    (torn_fails : (t : List ℕ) → IsTorn t → (e : Error) × (parse_uber hash t ≡ err e)) where
  module _ (s : d.State) (u : Uberblock) (g : IsGood s) (room : 2 ≤ d.blocks s)
      (settled : Settled d IsGood IsTorn Reboot lp s) where
    abbrev w : d.State × Result Block.Error (Unit {0})
    w = d.write_block s (u.seq % 2) (marshal_binary hash u)

    w_good : IsGood w.0
    w_good = lp.device.stays_good s (u.seq % 2) (marshal_binary hash u) g

    w_size : d.blocks w.0 ≡ d.blocks s
    w_size = lp.device.keeps_blocks s (u.seq % 2) (marshal_binary hash u)

    -- After a loss of power before the sync.
    unsynced :
        (s' : d.State)
        → Reboot w.0 s'
        → Flip hash digest d IsGood IsTorn lp.device torn_fails s s' u
    unsynced s' r =
        let (mid, before, same, rest) = lp.writes s (u.seq % 2) (marshal_binary hash u) s' g r in
        let (good, size) = lp.reboots w.0 s' w_good r in
        (
          record {
            good = good;
            same_size = size ∙ w_size;
            outside = λ j h.
                same j (λ e. elim h [ inl l ↦ omega arith | inr l ↦ omega arith ])
                ∙ settled mid before j;
          },
          elim rest [
            | inl e ↦ inl (e ∙ settled mid before (u.seq % 2))
            | inr (inl t) ↦ inr (inl t)
            | inr (inr e) ↦ inr (inr e)
          ],
        )

    moved :
        (m s' : d.State)
        → IsGood s' × (d.blocks s' ≡ d.blocks m)
        → ((j : ℕ) → d.read_block s' j ≡ d.read_block m j)
        → Flip hash digest d IsGood IsTorn lp.device torn_fails s m u
        → Flip hash digest d IsGood IsTorn lp.device torn_fails s s' u
    moved m s' (good, size) same (c, rest) = (
      record {
        good = good;
        same_size = size ∙ c.same_size;
        outside = λ j h. same j ∙ c.outside j h;
      },
      elim rest [
        | inl e ↦ inl (same (u.seq % 2) ∙ e)
        | inr (inl (t, e, h)) ↦ inr (inl (t, same (u.seq % 2) ∙ e, h))
        | inr (inr e) ↦ inr (inr (same (u.seq % 2) ∙ e))
      ],
    )

    -- A write that reported success, before a sync that does.
    after_sync :
        (s' : d.State)
        → w.1 ≡ ok tt
        → (d.sync w.0).1 ≡ ok tt
        → Reboot (d.sync w.0).0 s'
        → Flipped hash digest d IsGood IsTorn lp.device torn_fails s u (s', ok tt)
    after_sync s' wrote flush r =
        let same = lp.flushes w.0 s' w_good flush r in
        let (good, sync_size, _) = lp.device.syncs w.0 w_good in
        let (good', size) = lp.reboots (d.sync w.0).0 s' good r in
        let c = one-Confined d IsGood IsTorn lp.device (u.seq % 2) 0 (marshal_binary hash u) s g in
        (
          record {
            good = good';
            same_size = size ∙ sync_size ∙ c.same_size;
            outside = λ j h. same j ∙ c.outside j h;
          },
          same (u.seq % 2)
              ∙ written-back d IsGood IsTorn lp.device s (u.seq % 2) (marshal_binary hash u) w.0 w.1
                  wrote
                  (lp.device.outcome s (u.seq % 2) (marshal_binary hash u) g (omega arith)
                    (length-marshal_binary hash u digest)),
        )

    after_failed_sync :
        (s' : d.State)
        → Reboot (d.sync w.0).0 s'
        → Flip hash digest d IsGood IsTorn lp.device torn_fails s s' u
    after_failed_sync s' r =
        let (mid, before, same) = lp.keeps w.0 s' w_good r in
        let (good, sync_size, _) = lp.device.syncs w.0 w_good in
        let (good', size) = lp.reboots (d.sync w.0).0 s' good r in
        let (mid_good, mid_size) = lp.reboots w.0 mid w_good before in
        moved mid s' (good', size ∙ sync_size ∙ sym mid_size) same (unsynced mid before)

    abbrev After : d.State × Result Error (Unit {0}) → Type 0
    After p =
        (s' : d.State)
        → Reboot p.0 s'
        → Flipped hash digest d IsGood IsTorn lp.device torn_fails s u (s', p.1)

    -- After a loss of power behind `write_uber`.
    write_uber-After : After (write_uber d hash u s)
    unfolding write_uber
    write_uber-After = elim (write-cases w.1) [
      | inr (e, failed) ↦
          subst
            (λ r.
              After (then_block (w.0, r) (λ _ s1. then_block (d.sync s1) (λ _ s2. (s2, ok tt)))))
            (sym failed) (λ s' r. unsynced s' r)
      | inl wrote ↦
          subst
            (λ r.
              After (then_block (w.0, r) (λ _ s1. then_block (d.sync s1) (λ _ s2. (s2, ok tt)))))
            (sym wrote)
            (elim (write-cases (d.sync w.0).1) [
              | inl flush ↦
                  subst (λ r. After (then_block ((d.sync w.0).0, r) (λ _ s2. (s2, ok tt))))
                    (sym flush) (λ s' r. after_sync s' wrote flush r)
              | inr (e, failed) ↦
                  subst (λ r. After (then_block ((d.sync w.0).0, r) (λ _ s2. (s2, ok tt))))
                    (sym failed) (λ s' r. after_failed_sync s' r)
            ])
    ]

  module _ (s : d.State) (prev : Uberblock) (bm : Bitmap) (ddt : Dedup.Table) (tbl : Table.Table)
      (root_inode next_inode : ℕ) (g : IsGood s)
      (r : Ready hash d s prev bm ddt tbl root_inode next_inode)
      (durable : Durable d IsGood IsTorn Reboot lp (Mounted prev) s s) where
    abbrev n : Uberblock
    n = successor prev root_inode next_inode

    abbrev u' : Uberblock
    u' = new_uber prev bm ddt tbl root_inode next_inode

    kept_mount :
        (s' : d.State)
        → ((j : ℕ) → Mounted prev j → d.read_block s' j ≡ d.read_block s j)
        → RolledBack hash d prev s s'
    kept_mount s' h =
        let q : Rooted hash d s' prev =
          Rooted-same hash d s s' prev r.rooted (λ j l. h j (inl l)) in
        (
          q,
          mount-Rooted hash d s' prev q
              ∙ load-same d prev s s' (λ j l m. h j (inr (l, m)))
              ∙ sym (mount-Rooted hash d s prev r.rooted),
        )

    away : (j : ℕ) → Mounted prev j → (j < meta_start n) ⊎ (meta_start n + n.meta_blocks ≤ j)
    unfolding successor
    away j k =
        let apart = slots_apart prev root_inode next_inode (d.blocks s) r.laid in
        elim k [
          | inl low ↦ inl (omega (arith, apart.1))
          | inr (l, m) ↦ elim apart.3 [
            | inl below ↦ inr (omega arith)
            | inr above ↦ inl (omega arith)
          ]
        ]

    Ends : d.State × Result Error (Uberblock × Bitmap) → Type 0
    Ends p = (s' : d.State) → Reboot p.0 s' → IsAtomic hash d prev u' bm ddt tbl s (s', p.1)

    after_uber :
        (s1 : d.State) (p : d.State × Result Error (Unit {0}))
        → Confined d IsGood IsTorn lp.device (meta_start n) prev.meta_blocks s s1
        → load d s1 u' ≡ ok (u', record bm { deferred = [] }, ddt, tbl)
        → ((s' : d.State)
            → Reboot p.0 s'
            → Flipped hash digest d IsGood IsTorn lp.device torn_fails s1 u' (s', p.1))
        → Ends (and_then p (λ _ s2. (s2, ok (u', Alloc.apply_deferred bm))))
    unfolding Ends
    after_uber s1 (s2, ok _) c h f s' b =
        after_flip hash digest d IsGood IsTorn lp.device torn_fails s prev bm ddt tbl root_inode
          next_inode g r s1 (s', ok tt) c h (f s' b)
    after_uber s1 (s2, err e) c h f s' b =
        after_flip hash digest d IsGood IsTorn lp.device torn_fails s prev bm ddt tbl root_inode
          next_inode g r s1 (s', err e) c h (f s' b)

    capacity : n.inode_count ≡ Table.cap tbl
    unfolding successor
    capacity = r.capacity

    after_snapshot :
        (p : d.State × Result Error Uberblock)
        → Staged d IsGood IsTorn lp.device n bm ddt tbl r.savable capacity s p
        → Kept d IsGood IsTorn Reboot lp (Mounted prev) s p
        → Ends (
            and_then p (λ next s1.
              and_then
                (write_uber d hash next s1)
                (λ _ s2. (s2, ok (next, Alloc.apply_deferred bm)))))
    unfolding successor Ends
    after_snapshot (s1, ok next) (c, e, h) k =
        let room : 2 ≤ d.blocks s1 = omega (
          arith,
          c.same_size,
          (slots_apart prev root_inode next_inode (d.blocks s) r.laid).2,
          (slots_apart prev root_inode next_inode (d.blocks s) r.laid).1,
        ) in
        rw e (after_uber s1 (write_uber d hash u' s1) c h (write_uber-After s1 u' c.good room k))
    after_snapshot (s1, err e) c k = λ s' b. inl (kept_mount s' (k s' b))

    -- On any device that may fail at any write or sync and that, when power is lost, may lose or
    -- tear each write since the last successful sync, where the checksum rejects torn blocks: a
    -- commit of valid tables over a committed state whose uberblocks and active metadata are
    -- durable, with its two metadata slots in place and the next sequence number a u64, is atomic,
    -- both on the device as the commit leaves it and in every state found after a loss of power
    -- then. On success it has returned the new uberblock and the bitmap with the pending clusters
    -- freed, and a mount yields just what was saved; on an error a mount yields either just what it
    -- yielded before, or the new state. In each case the uberblock that mount takes stands in its
    -- own slot and the other slot holds nothing newer.
    pub commit-IsAtomic :
        (scratch : Option (List ℕ))
        → IsAtomic hash d prev u' bm ddt tbl s
            (commit d hash prev bm ddt tbl root_inode next_inode scratch s)
          × ((s' : d.State)
              → Reboot (commit d hash prev bm ddt tbl root_inode next_inode scratch s).0 s'
              → IsAtomic hash d prev u' bm ddt tbl s
                  (s', (commit d hash prev bm ddt tbl root_inode next_inode scratch s).1))
    unfolding commit Ends
    commit-IsAtomic scratch = (
      commit_survives hash digest d IsGood IsTorn lp.device torn_fails s prev bm ddt tbl root_inode
          next_inode g r scratch,
      after_snapshot (write_snapshot d n bm ddt tbl scratch s)
          (write_snapshot-Staged d IsGood IsTorn lp.device n bm ddt tbl r.savable capacity s scratch
            g (unfold successor in (slots_apart prev root_inode next_inode (d.blocks s) r.laid).2))
          (write_snapshot-Kept d IsGood IsTorn Reboot lp (Mounted prev) n bm ddt tbl scratch s g
            away durable),
    )
