-- ===== src/Cow/Atomic.antt =====
-- rust/bloomfs-cow/src/lib.rs: a commit on a device whose calls may fail.
use bloomfs.Base.{
  ℕ, ◌+◌, ◌%◌, ◌^◌, ◌≤◌, ◌<◌, ◌≡◌, refl, ap, sym, ◌∙◌, ◌⊎◌, inl, inr, List, [], Bool-cases, ltb,
  length, Option, Result, ok, err, arith,
}
use bloomfs.Base.Bytes.{IsU64}
use bloomfs.Block.{Device, MayFail}
use bloomfs.Alloc
use bloomfs.Alloc.{Bitmap}
use bloomfs.Dedup
use bloomfs.Inode.Table
use bloomfs.Cow.{
  Uberblock, Error, and_then, with_lengths, meta_start, write_snapshot, load, marshal_binary,
  parse_uber, write_uber, mount, successor, commit,
}
use bloomfs.Cow.Uber.{IsEncodable, parse_uber-marshal_binary}
use bloomfs.Block.Runs.{Confined}
use bloomfs.Cow.Mount.{Rooted, mount-Rooted}
use bloomfs.Cow.Image.{Savable}
use bloomfs.Cow.Staged.{Staged, write_snapshot-Staged}
use bloomfs.Cow.Flip.{Laid, Flipped, load-same, slots_apart, write_uber-Flipped}

-- The uberblock of the new state.
abbrev pub new_uber : Uberblock → Bitmap → Dedup.Table → Table.Table → ℕ → ℕ → Uberblock
new_uber prev bm ddt tbl root_inode next_inode =
    with_lengths (successor prev root_inode next_inode) bm ddt tbl

module _ (hash : List ℕ → List ℕ) (d : Device) where
  -- A mount finds the new state: the tables as they were saved, with nothing pending.
  abbrev pub Committed : Uberblock → Bitmap → Dedup.Table → Table.Table → d.State → Type 0
  Committed u bm ddt tbl s' =
      Rooted hash d s' u × (mount d hash s' ≡ ok (u, record bm { deferred = [] }, ddt, tbl))

  -- A mount finds just what it found before.
  abbrev pub RolledBack : Uberblock → d.State → d.State → Type 0
  RolledBack prev s s' = Rooted hash d s' prev × (mount d hash s' ≡ mount d hash s)

  abbrev pub IsAtomic :
      Uberblock
      → Uberblock
      → Bitmap
      → Dedup.Table
      → Table.Table
      → d.State
      → d.State × Result Error (Uberblock × Bitmap)
      → Type 0
  IsAtomic prev u bm ddt tbl s (s', ok (u', bm')) =
      (u' ≡ u) × (bm' ≡ Alloc.apply_deferred bm) × Committed u bm ddt tbl s'
  IsAtomic prev u bm ddt tbl s (s', err e) = RolledBack prev s s' ⊎ Committed u bm ddt tbl s'

-- A committed state and a new one to commit.
pub record Ready (hash : List ℕ → List ℕ) (d : Device) (s : d.State) (prev : Uberblock)
    (bm : Bitmap) (ddt : Dedup.Table) (tbl : Table.Table) (root_inode next_inode : ℕ) : Type 0 where
  pub rooted : Rooted hash d s prev
  pub laid : Laid prev (d.blocks s)
  pub encodable : IsEncodable prev
  pub savable : Savable bm ddt tbl
  pub capacity : prev.inode_count ≡ Table.cap tbl
  pub root_fits : IsU64 root_inode
  pub next_fits : IsU64 next_inode
  pub seq_fits : prev.seq + 1 < 2 ^ 64

flip_below_or_above : (k m : ℕ) → m ≡ k + 1 → (k % 2 < m % 2) ⊎ (m % 2 + 1 ≤ k % 2)
flip_below_or_above k m e = elim (Bool-cases (ltb (k % 2) (m % 2))) [
  | inl l ↦ inl (ground arith)
  | inr l ↦ (let no : m % 2 ≤ k % 2 = ground arith in inr (omega arith))
]

module _ (hash : List ℕ → List ℕ) (digest : (x : List ℕ) → length (hash x) ≡ 32) (d : Device)
    (IsGood : d.State → Type 0) (IsTorn : List ℕ → Type 0) (safe : MayFail d IsGood IsTorn)
    (torn_fails : (t : List ℕ) → IsTorn t → (e : Error) × (parse_uber hash t ≡ err e)) (s : d.State)
    (prev : Uberblock) (bm : Bitmap) (ddt : Dedup.Table) (tbl : Table.Table)
    (root_inode next_inode : ℕ) (g : IsGood s)
    (r : Ready hash d s prev bm ddt tbl root_inode next_inode) where
  abbrev n : Uberblock
  n = successor prev root_inode next_inode

  abbrev u : Uberblock
  u = new_uber prev bm ddt tbl root_inode next_inode

  next-IsEncodable : IsEncodable u
  unfolding with_lengths successor
  next-IsEncodable = record {
    magic = r.encodable.magic;
    seq = omega arith;
    bytes_per_block = r.encodable.bytes_per_block;
    active_meta = omega arith;
    total_blocks = r.encodable.total_blocks;
    meta_a = r.encodable.meta_a;
    meta_b = r.encodable.meta_b;
    meta_blocks = r.encodable.meta_blocks;
    inode_count = r.encodable.inode_count;
    data_start = r.encodable.data_start;
    root_inode = r.root_fits;
    next_inode = r.next_fits;
    bitmap_len = omega arith;
    ddt_len = omega arith;
    inode_len = omega arith;
  }

  seq-next : u.seq ≡ prev.seq + 1
  unfolding with_lengths successor
  seq-next = omega (arith, r.seq_fits)

  module _ (s1 s' : d.State)
      (c : Confined d IsGood IsTorn safe (meta_start n) prev.meta_blocks s s1)
      (f : Confined d IsGood IsTorn safe (u.seq % 2) 1 s1 s') where
    apart :
        (2 ≤ meta_start prev)
        × (2 ≤ meta_start n)
        × (meta_start n + prev.meta_blocks ≤ d.blocks s)
        × ((meta_start n + prev.meta_blocks ≤ meta_start prev)
            ⊎ (meta_start prev + prev.meta_blocks ≤ meta_start n))
    apart = slots_apart prev root_inode next_inode (d.blocks s) r.laid

    own_kept : d.read_block s' (prev.seq % 2) ≡ d.read_block s (prev.seq % 2)
    own_kept =
        f.outside (prev.seq % 2) (flip_below_or_above prev.seq u.seq seq-next)
        ∙ c.outside (prev.seq % 2) (inl (omega (arith, apart.1)))

    region_kept :
        (j : ℕ)
        → meta_start prev ≤ j
        → j < meta_start prev + prev.meta_blocks
        → d.read_block s' j ≡ d.read_block s j
    region_kept j h k =
        f.outside j (inr (omega (arith, apart.0)))
        ∙ c.outside j
            (elim apart.3 [ inl below ↦ inr (omega arith) | inr above ↦ inl (omega arith) ])

    new_region :
        (j : ℕ)
        → meta_start n ≤ j
        → j < meta_start n + prev.meta_blocks
        → d.read_block s' j ≡ d.read_block s1 j
    new_region j h k = f.outside j (inr (omega (arith, apart.1)))

    same_mount : Rooted hash d s' prev → RolledBack hash d prev s s'
    same_mount q = (
      q,
      mount-Rooted hash d s' prev q
          ∙ load-same d prev s s' region_kept
          ∙ sym (mount-Rooted hash d s prev r.rooted),
    )

    flip_same :
        d.read_block s' (u.seq % 2) ≡ d.read_block s1 (u.seq % 2) → RolledBack hash d prev s s'
    flip_same e = same_mount (record {
      own = r.rooted.own;
      other = r.rooted.other;
      own_read = own_kept ∙ r.rooted.own_read;
      other_read =
          ap (λ (k : ℕ). d.read_block s' (k % 2)) (sym seq-next)
          ∙ e
          ∙ c.outside (u.seq % 2) (inl (omega (arith, apart.1)))
          ∙ ap (λ (k : ℕ). d.read_block s (k % 2)) seq-next
          ∙ r.rooted.other_read;
      own_parses = r.rooted.own_parses;
      other_older = r.rooted.other_older;
    })

    flip_torn :
        (t : List ℕ) → d.read_block s' (u.seq % 2) ≡ ok t → IsTorn t → RolledBack hash d prev s s'
    flip_torn t e h = same_mount (record {
      own = r.rooted.own;
      other = t;
      own_read = own_kept ∙ r.rooted.own_read;
      other_read = ap (λ (k : ℕ). d.read_block s' (k % 2)) (sym seq-next) ∙ e;
      own_parses = r.rooted.own_parses;
      other_older = rw ((torn_fails t h).1) tt;
    })

    flip_done :
        d.read_block s' (u.seq % 2) ≡ ok (marshal_binary hash u)
        → load d s1 u ≡ ok (u, record bm { deferred = [] }, ddt, tbl)
        → Committed hash d u bm ddt tbl s'
    flip_done e h =
        let q : Rooted hash d s' u = record {
          own = marshal_binary hash u;
          other = r.rooted.own;
          own_read = e;
          other_read =
              ap (d.read_block s') (omega (arith, seq-next)) ∙ own_kept ∙ r.rooted.own_read;
          own_parses = parse_uber-marshal_binary hash u digest next-IsEncodable;
          other_older = rw r.rooted.own_parses (omega (arith, seq-next));
        } in
        (
          q,
          mount-Rooted hash d s' u q
              ∙ load-same d u s1 s' (unfold with_lengths meta_start successor in new_region)
              ∙ h,
        )

  untouched : (s1 : d.State) → IsGood s1 → Confined d IsGood IsTorn safe (u.seq % 2) 1 s1 s1
  untouched s1 h = record { good = h; same_size = refl; outside = λ j k. refl }

  pub after_flip :
      (s1 : d.State) (p : d.State × Result Error (Unit {0}))
      → Confined d IsGood IsTorn safe (meta_start n) prev.meta_blocks s s1
      → load d s1 u ≡ ok (u, record bm { deferred = [] }, ddt, tbl)
      → Flipped hash digest d IsGood IsTorn safe torn_fails s1 u p
      → IsAtomic hash d prev u bm ddt tbl s
          (and_then p (λ _ s2. (s2, ok (u, Alloc.apply_deferred bm))))
  after_flip s1 (s', ok _) c h (f, e) = (refl, refl, flip_done s1 s' c f e h)
  after_flip s1 (s', err _) c h (f, inl e) = inl (flip_same s1 s' c f e)
  after_flip s1 (s', err _) c h (f, inr (inl (t, e, w))) = inl (flip_torn s1 s' c f t e w)
  after_flip s1 (s', err _) c h (f, inr (inr e)) = inr (flip_done s1 s' c f e h)

  pub next_capacity : n.inode_count ≡ Table.cap tbl
  unfolding successor
  next_capacity = r.capacity

  pub room_next : 2 ≤ d.blocks s
  room_next = omega (arith, slots_apart prev root_inode next_inode (d.blocks s) r.laid)

  pub room_slot : meta_start n + n.meta_blocks ≤ d.blocks s
  unfolding successor
  room_slot = (slots_apart prev root_inode next_inode (d.blocks s) r.laid).2

  after_stage :
      (p : d.State × Result Error Uberblock)
      → Staged d IsGood IsTorn safe n bm ddt tbl r.savable next_capacity s p
      → IsAtomic hash d prev u bm ddt tbl s (
          and_then p (λ next s1.
            and_then
              (write_uber d hash next s1)
              (λ _ s2. (s2, ok (next, Alloc.apply_deferred bm)))))
  unfolding successor
  after_stage (s1, ok next) (c, e, h) = rw e (
      after_flip s1 (write_uber d hash u s1) c h (
        write_uber-Flipped hash digest d IsGood IsTorn safe torn_fails s1 u c.good
          (rw c.same_size room_next)))
  after_stage (s1, err _) c = inl (flip_same s1 s1 c (untouched s1 c.good) refl)

  pub commit_survives :
      (scratch : Option (List ℕ))
      → IsAtomic hash d prev u bm ddt tbl s
          (commit d hash prev bm ddt tbl root_inode next_inode scratch s)
  unfolding commit
  commit_survives scratch = after_stage (write_snapshot d n bm ddt tbl scratch s) (
      write_snapshot-Staged d IsGood IsTorn safe n bm ddt tbl r.savable next_capacity s scratch g
        room_slot)
