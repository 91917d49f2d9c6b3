-- ===== src/Cow/Staged.antt =====
-- rust/bloomfs-cow/src/lib.rs: `write_snapshot` and the metadata slot.
use bloomfs.Base.{
  ℕ, ◌+◌, ◌-◌, ◌*◌, ◌≤◌, ◌≡◌, refl, ap, ◌∙◌, inl, inr, List, [], Bool-cases, ltb, length, take,
  drop, slice, Option, none, some, Result, ok, err, arith, length-replicate,
}
use bloomfs.Base.Fields.{take_behind}
use bloomfs.Block
use bloomfs.Block.{Device, MayFail}
use bloomfs.Alloc
use bloomfs.Alloc.{Bitmap}
use bloomfs.Dedup
use bloomfs.Inode.Table
use bloomfs.Cow.{
  Uberblock, Error, then_block, and_then, choose_buffer, snapshot, with_lengths, meta_start,
  write_blocks, read_blocks, write_snapshot, load,
}
use bloomfs.Block.Runs.{Confined, synced-Confined}
use bloomfs.Cow.Flip.{load-same}
use bloomfs.Cow.Blocks.{write_blocks-Confined, read_blocks-write_blocks}
use bloomfs.Cow.Image.{Savable, image, long, snapshot-image, snapshot-long, tables_back}

pub choose-length :
    (scratch : Option (List ℕ)) (need : ℕ) → need ≤ length (choose_buffer scratch need)
unfolding choose_buffer
choose-length none need = omega (arith, length-replicate {A = ℕ} need 0)
choose-length (some b) need = ground (arith, length-replicate {A = ℕ} need 0)

module _ (d : Device) (IsGood : d.State → Type 0) (IsTorn : List ℕ → Type 0)
    (safe : MayFail d IsGood IsTorn) (u : Uberblock) (bm : Bitmap) (ddt : Dedup.Table)
    (tbl : Table.Table) (v : Savable bm ddt tbl) (cap : u.inode_count ≡ Table.cap tbl)
    (s : d.State) where
  -- The state after `write_snapshot`: only the slot changed, and after a success it holds the tables.
  abbrev pub Staged : d.State × Result Error Uberblock → Type 0
  Staged (s', ok u') =
      Confined d IsGood IsTorn safe (meta_start u) u.meta_blocks s s'
      × (u' ≡ with_lengths u bm ddt tbl)
      × (load d s' (with_lengths u bm ddt tbl)
          ≡ ok (with_lengths u bm ddt tbl, record bm { deferred = [] }, ddt, tbl))
  Staged (s', err e) = Confined d IsGood IsTorn safe (meta_start u) u.meta_blocks s s'

  after_sync :
      (p : d.State × Result Block.Error (Unit {0})) (s1 : d.State)
      → IsGood p.0
        × (d.blocks p.0 ≡ d.blocks s1)
        × ((j : ℕ) → d.read_block p.0 j ≡ d.read_block s1 j)
      → Staged (s1, ok (with_lengths u bm ddt tbl))
      → Staged (then_block p (λ _ s2. (s2, ok (with_lengths u bm ddt tbl))))
  after_sync (s2, ok _) s1 q (c, e, h) = (
    synced-Confined d IsGood IsTorn safe (meta_start u) u.meta_blocks s s1 s2 q c,
    refl,
    load-same d (with_lengths u bm ddt tbl) s1 s2 (λ j k l. q.2 j) ∙ h,
  )
  after_sync (s2, err _) s1 q (c, e, h) =
      synced-Confined d IsGood IsTorn safe (meta_start u) u.meta_blocks s s1 s2 q c

  after_blocks :
      (p : d.State × Result Error (Unit {0}))
      → Confined d IsGood IsTorn safe (meta_start u) u.meta_blocks s p.0
      → (p.1 ≡ ok tt
          → load d p.0 (with_lengths u bm ddt tbl)
            ≡ ok (with_lengths u bm ddt tbl, record bm { deferred = [] }, ddt, tbl))
      → Staged (
          and_then p
            (λ _ s1. then_block (d.sync s1) (λ _ s2. (s2, ok (with_lengths u bm ddt tbl)))))
  after_blocks (s1, ok tt) c h = after_sync (d.sync s1) s1 (safe.syncs s1 c.good) (c, refl, h refl)
  after_blocks (s1, err e) c h = c

  loaded :
      (buf : List ℕ) (s' : d.State)
      → Alloc.marshal_len bm + Dedup.marshal_len ddt + Table.marshal_len tbl ≤ u.meta_blocks * 4096
      → u.meta_blocks * 4096 ≤ length buf
      → read_blocks d s' u.meta_blocks (meta_start u)
        ≡ ok (slice (snapshot bm ddt tbl buf) 0 (u.meta_blocks * 4096))
      → load d s' (with_lengths u bm ddt tbl)
        ≡ ok (with_lengths u bm ddt tbl, record bm { deferred = [] }, ddt, tbl)
  unfolding with_lengths meta_start
  loaded buf s' fits l r =
      let need : ℕ = u.meta_blocks * 4096 in
      let old : List ℕ = drop (length (image bm ddt tbl v)) buf in
      tables_back bm ddt tbl v d s' _ (take (need - length (image bm ddt tbl v)) old) cap
        (r
          ∙ ap (λ t. ok (take need t)) (snapshot-image bm ddt tbl v buf (omega arith))
          ∙ ap ok (take_behind (image bm ddt tbl v) old need (omega (arith, long bm ddt tbl v))))
        (omega (arith, v.small)) (omega (arith, v.small)) (omega (arith, v.small))

  pub write_snapshot-Staged :
      (scratch : Option (List ℕ))
      → IsGood s
      → meta_start u + u.meta_blocks ≤ d.blocks s
      → Staged (write_snapshot d u bm ddt tbl scratch s)
  unfolding write_snapshot meta_start with_lengths
  write_snapshot-Staged scratch g room =
      let need : ℕ = u.meta_blocks * 4096 in
      let total : ℕ = Alloc.marshal_len bm + Dedup.marshal_len ddt + Table.marshal_len tbl in
      let buf : List ℕ = choose_buffer scratch need in
      let wide : need ≤ length buf = choose-length scratch need in
      elim (Bool-cases (ltb need total)) [
        | inl big ↦ rw big (record { good = g; same_size = refl; outside = λ j h. refl })
        | inr small ↦
            let fits : total ≤ need = ground arith in
            rw small (
              after_blocks
                (write_blocks d u.meta_blocks (meta_start u) 0 (snapshot bm ddt tbl buf) s)
                (write_blocks-Confined d IsGood IsTorn safe u.meta_blocks (meta_start u) 0
                  (snapshot bm ddt tbl buf) s g)
                (λ done. loaded buf _ fits wide (
                  read_blocks-write_blocks d IsGood IsTorn safe u.meta_blocks (meta_start u) 0
                    (snapshot bm ddt tbl buf) s g room
                    (omega (arith, snapshot-long bm ddt tbl v need buf fits wide)) done)))
      ]
