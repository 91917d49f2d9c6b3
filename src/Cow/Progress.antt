-- ===== src/Cow/Progress.antt =====
-- rust/bloomfs-cow/src/lib.rs: a commit on a device that does not fail.
use bloomfs.Base.{
  ℕ, zero, suc, ◌+◌, ◌*◌, ◌%◌, ◌≤◌, ◌<◌, ◌≡◌, refl, subst, List, ltb, false, length, drop, slice,
  Option, Result, ok, err, arith, length-take, length-drop,
}
use bloomfs.Block.{Device, IsArray}
use bloomfs.Alloc
use bloomfs.Alloc.{Bitmap}
use bloomfs.Dedup
use bloomfs.Inode.Table
use bloomfs.Cow.{
  Uberblock, Error, Exec, then_block, and_then, choose_buffer, snapshot, with_lengths, meta_start,
  write_blocks, write_snapshot, marshal_binary, write_uber, successor, commit,
}
use bloomfs.Cow.Uber.{length-marshal_binary}
use bloomfs.Cow.Image.{Savable, snapshot-long}
use bloomfs.Cow.Staged.{choose-length}
use bloomfs.Cow.Flip.{Laid, slots_apart}
use bloomfs.Cow.Atomic.{new_uber}

module _ (d : Device) (IsGood : d.State → Type 0) (fine : IsArray d IsGood) where
  -- The call went well and left a good device of the same size.
  abbrev pub Well : {A : Type 0} → A → ℕ → d.State × Result Error A → Type 0
  Well a blocks (s, ok a') = (a' ≡ a) × IsGood s × (d.blocks s ≡ blocks)
  Well a blocks (s, err e) = ⊥

  then-Well :
      {A : Type 0} (a : A) (s : d.State) (num : ℕ) (b : List ℕ) (f : Unit {0} → Exec d.State A)
      → IsGood s
      → num < d.blocks s
      → length b ≡ 4096
      → ((s' : d.State) → IsGood s' → d.blocks s' ≡ d.blocks s → Well a (d.blocks s) (f tt s'))
      → Well a (d.blocks s) (then_block (d.write_block s num b) f)
  then-Well a s num b f g h l k =
      rw (fine.writes s num b g h l) (k _ (fine.stays_good s num b g) (fine.keeps_blocks s num b))

  write_blocks-Well :
      (rounds at off : ℕ) (buf : List ℕ) (s : d.State)
      → IsGood s
      → at + rounds ≤ d.blocks s
      → off + rounds * 4096 ≤ length buf
      → Well tt (d.blocks s) (write_blocks d rounds at off buf s)
  unfolding write_blocks
  write_blocks-Well zero at off buf s g h l = (refl, g, refl)
  write_blocks-Well (suc n) at off buf s g h l =
      then-Well tt s at (slice buf off 4096) _ g (omega arith)
        (omega (arith, length-take 4096 (drop off buf), length-drop off buf))
        (λ s' g' e.
          subst (λ k. Well tt k (write_blocks d n (at + 1) (off + 4096) buf s')) e
            (write_blocks-Well n (at + 1) (off + 4096) buf s' g' (omega arith) (omega arith)))

  and_then-Well :
      {A B : Type 0} (a : A) (b : B) (n : ℕ) (p : d.State × Result Error A) (f : A → Exec d.State B)
      → Well a n p
      → ((s' : d.State) → IsGood s' → d.blocks s' ≡ n → Well b n (f a s'))
      → Well b n (and_then p f)
  and_then-Well a b n (s, ok a') f (e, g, h) k = rw e (k s g h)
  and_then-Well a b n (s, err e) f h k = absurd h

  synced :
      {A : Type 0} (a : A) (n : ℕ) (s : d.State)
      → IsGood s
      → d.blocks s ≡ n
      → Well a n (then_block (d.sync s) (λ _ s2. (s2, ok a)))
  synced a n s g e = rw (fine.syncs s) (refl, g, e)

  module _ (u : Uberblock) (bm : Bitmap) (ddt : Dedup.Table) (tbl : Table.Table)
      (v : Savable bm ddt tbl) (s : d.State) (g : IsGood s)
      (room : meta_start u + u.meta_blocks ≤ d.blocks s)
      (fits : Alloc.marshal_len bm + Dedup.marshal_len ddt + Table.marshal_len tbl
        ≤ u.meta_blocks * 4096)
      (scratch : Option (List ℕ)) where
    abbrev buf : List ℕ
    buf = snapshot bm ddt tbl (choose_buffer scratch (u.meta_blocks * 4096))

    wide : 0 + u.meta_blocks * 4096 ≤ length buf
    wide = omega (
      arith,
      snapshot-long bm ddt tbl v (u.meta_blocks * 4096)
          (choose_buffer scratch (u.meta_blocks * 4096)) fits
          (choose-length scratch (u.meta_blocks * 4096)),
    )

    pub write_snapshot-Well :
        Well (with_lengths u bm ddt tbl) (d.blocks s) (write_snapshot d u bm ddt tbl scratch s)
    unfolding write_snapshot with_lengths meta_start
    write_snapshot-Well =
        let enough : ltb (u.meta_blocks * 4096)
              (Alloc.marshal_len bm + Dedup.marshal_len ddt + Table.marshal_len tbl)
            ≡ false =
          ground arith in
        rw enough (
          and_then-Well tt (with_lengths u bm ddt tbl) (d.blocks s) _ _
            (write_blocks-Well u.meta_blocks (meta_start u) 0 buf s g room wide)
            (λ s1 g1 e1. synced (with_lengths u bm ddt tbl) (d.blocks s) s1 g1 e1))

  module _ (hash : List ℕ → List ℕ) (digest : (x : List ℕ) → length (hash x) ≡ 32) where
    pub write_uber-Well :
        (u : Uberblock) (n : ℕ) (s : d.State)
        → IsGood s
        → 2 ≤ n
        → d.blocks s ≡ n
        → Well tt n (write_uber d hash u s)
    unfolding write_uber
    write_uber-Well u n s g h e =
        subst (λ k. Well tt k (write_uber d hash u s)) e
          (then-Well tt s (u.seq % 2) (marshal_binary hash u) _ g (omega arith)
            (length-marshal_binary hash u digest) (λ s' g' e'. synced tt (d.blocks s) s' g' e'))

    module _ (prev : Uberblock) (bm : Bitmap) (ddt : Dedup.Table) (tbl : Table.Table)
        (root_inode next_inode : ℕ) (v : Savable bm ddt tbl) (s : d.State) (g : IsGood s)
        (l : Laid prev (d.blocks s))
        (fits : Alloc.marshal_len bm + Dedup.marshal_len ddt + Table.marshal_len tbl
          ≤ prev.meta_blocks * 4096)
        (scratch : Option (List ℕ)) where
      abbrev n : Uberblock
      n = successor prev root_inode next_inode

      next_room : meta_start n + n.meta_blocks ≤ d.blocks s
      unfolding successor
      next_room = (slots_apart prev root_inode next_inode (d.blocks s) l).2

      next_fits :
          Alloc.marshal_len bm + Dedup.marshal_len ddt + Table.marshal_len tbl
          ≤ n.meta_blocks * 4096
      unfolding successor
      next_fits = fits

      -- On a device that does not fail, with valid tables that fit the metadata slot, and two slots behind
      -- the uberblocks and on the device, a commit succeeds: it returns the new uberblock and the bitmap
      -- with the pending clusters freed, and leaves a good device.
      pub commit-Well :
          Well
            (new_uber prev bm ddt tbl root_inode next_inode, Alloc.apply_deferred bm)
            (d.blocks s)
            (commit d hash prev bm ddt tbl root_inode next_inode scratch s)
      unfolding commit
      commit-Well =
          and_then-Well (with_lengths n bm ddt tbl)
            (with_lengths n bm ddt tbl, Alloc.apply_deferred bm) (d.blocks s) _ _
            (write_snapshot-Well n bm ddt tbl v s g next_room next_fits scratch)
            (λ s1 g1 e1.
              and_then-Well tt (with_lengths n bm ddt tbl, Alloc.apply_deferred bm) (d.blocks s) _ _
                (write_uber-Well (with_lengths n bm ddt tbl) (d.blocks s) s1 g1
                  (omega (arith, slots_apart prev root_inode next_inode (d.blocks s) l)) e1)
                (λ s2 g2 e2. (refl, g2, e2)))
