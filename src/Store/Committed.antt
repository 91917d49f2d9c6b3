-- ===== src/Store/Committed.antt =====
-- rust/bloomfs-store/src/lib.rs and rust/bloomfs-cow/src/lib.rs: a pool of blocks through a commit.
use bloomfs.Base.{
  ℕ, ◌+◌, ◌%◌, ◌≤◌, ◌<◌, ◌≡◌, refl, ◌∙◌, ◌⊎◌, inr, List, [], true, false, ◌&&◌, ltb, length,
  if◌then◌else◌, Option, some, Result, ok, err, arith,
}
use bloomfs.Block.{Device, MayFail}
use bloomfs.Block.Runs.{Confined}
use bloomfs.Alloc.{Bitmap, get, apply_deferred}
use bloomfs.Alloc.Deferred.{pinned_by}
use bloomfs.Dedup.{Key}
use bloomfs.Inode.Table.{Table, cap}
use bloomfs.Cow.{
  Uberblock, Error, and_then, meta_start, parse_uber, write_snapshot, write_uber, successor, commit,
}
use bloomfs.Cow.Staged.{Staged, write_snapshot-Staged}
use bloomfs.Cow.Flip.{Flipped, slots_apart, write_uber-Flipped}
use bloomfs.Cow.Atomic.{Ready, new_uber}
use bloomfs.Store.{Crates, BlockStore, Ref, Pool, read}
use bloomfs.Store.Invariant.{ref_at, run_of, IsConsistent, Placed-frame}
use bloomfs.Store.Release.{settled-IsConsistent}

module _ (hash : List ℕ → List ℕ) (digest : (x : List ℕ) → length (hash x) ≡ 32) (d : Device)
    (IsGood : d.State → Type 0) (IsTorn : List ℕ → Type 0) (safe : MayFail d IsGood IsTorn)
    (torn_fails : (t : List ℕ) → IsTorn t → (e : Error) × (parse_uber hash t ≡ err e)) (c : Crates)
    (bs : BlockStore) (p : Pool d) (v : IsConsistent c bs d IsGood p) (prev : Uberblock)
    (tbl : Table) (root_inode next_inode : ℕ)
    (r : Ready hash d p.dev prev p.bm p.ddt tbl root_inode next_inode) where
  abbrev n : Uberblock
  n = successor prev root_inode next_inode

  abbrev u : Uberblock
  u = new_uber prev p.bm p.ddt tbl root_inode next_inode

  -- A block that the commit does not write.
  abbrev pub Outside : ℕ → Type 0
  Outside j = (2 ≤ j) × ((j < meta_start n) ⊎ (meta_start n + prev.meta_blocks ≤ j))

  -- No stored block lies where the commit writes.
  abbrev pub IsClear : Type 0
  IsClear = (k : Key) (a : Ref) → ref_at p.ddt k ≡ some a → (j : ℕ) → run_of a j ≡ true → Outside j

  abbrev Untouched : d.State → Type 0
  Untouched s' =
      IsGood s'
      × (d.blocks s' ≡ d.blocks p.dev)
      × ((j : ℕ) → Outside j → d.read_block s' j ≡ d.read_block p.dev j)

  abbrev on : d.State → Bitmap → Pool d
  on s' bm = record { dev = s'; bm = bm; ddt = p.ddt }

  -- Every reference of the table reads what it read.
  abbrev pub ReadsSame : d.State → Type 0
  ReadsSame s' =
      (k : Key) (a : Ref) → ref_at p.ddt k ≡ some a → read c bs d s' a ≡ read c bs d p.dev a

  abbrev pub Through : d.State × Result Error (Uberblock × Bitmap) → Type 0
  Through (s', ok (u', bm')) =
      IsConsistent c bs d IsGood (on s' bm')
      × ReadsSame s'
      × (bm'.deferred ≡ [])
      × ((j : ℕ)
          → get bm' j
            ≡ (if pinned_by p.bm.deferred j && ltb j p.bm.total then false else get p.bm j))
  Through (s', err e) = IsConsistent c bs d IsGood (on s' p.bm) × ReadsSame s'

  module _ (clear : IsClear) where
    moved : (s' : d.State) → Untouched s' → IsConsistent c bs d IsGood (on s' p.bm) × ReadsSame s'
    moved s' (good, size, same) =
        let frame = λ (k : Key) (a : Ref) (q : ref_at p.ddt k ≡ some a).
          Placed-frame c bs d p (on s' p.bm) a (v.placed k a q) refl (λ j i m. m) (λ j i m h. h)
            (λ j i m. same j (clear k a q j i)) in
        (
          record {
            good = good;
            safe = v.safe;
            room = omega (arith, v.room, size);
            pending_fit = v.pending_fit;
            counted = v.counted;
            placed = λ k a q. (frame k a q).0;
            apart = v.apart;
          },
          λ k a q. (frame k a q).1,
        )

    done : (s' : d.State) → Untouched s' → Through (s', ok (u, apply_deferred p.bm))
    done s' h =
        let (kept, reads) = moved s' h in
        let (free, bits, none_left) = settled-IsConsistent c bs d IsGood (on s' p.bm) kept in
        (free, reads, none_left, bits)

    apart :
        (2 ≤ meta_start n)
        × (2 ≤ d.blocks p.dev)
        × (meta_start n + prev.meta_blocks ≤ d.blocks p.dev)
    apart =
        let (_, low, room, _) = slots_apart prev root_inode next_inode (d.blocks p.dev) r.laid in
        (low, omega arith, room)

    both :
        (s1 s' : d.State)
        → Confined d IsGood IsTorn safe (meta_start n) prev.meta_blocks p.dev s1
        → Confined d IsGood IsTorn safe (u.seq % 2) 1 s1 s'
        → Untouched s'
    both s1 s' a b = (
      b.good,
      b.same_size ∙ a.same_size,
      λ j (low, away). b.outside j (inr (omega arith)) ∙ a.outside j away,
    )

    after_uber :
        (s1 : d.State) (q : d.State × Result Error (Unit {0}))
        → Confined d IsGood IsTorn safe (meta_start n) prev.meta_blocks p.dev s1
        → Flipped hash digest d IsGood IsTorn safe torn_fails s1 u q
        → Through (and_then q (λ _ s2. (s2, ok (u, apply_deferred p.bm))))
    after_uber s1 (s', ok _) a (b, _) = done s' (both s1 s' a b)
    after_uber s1 (s', err e) a (b, _) = moved s' (both s1 s' a b)

    capacity : n.inode_count ≡ cap tbl
    unfolding successor
    capacity = r.capacity

    after_snapshot :
        (q : d.State × Result Error Uberblock)
        → Staged d IsGood IsTorn safe n p.bm p.ddt tbl r.savable capacity p.dev q
        → Through (
            and_then q (λ next s1.
              and_then (write_uber d hash next s1) (λ _ s2. (s2, ok (next, apply_deferred p.bm)))))
    unfolding successor
    after_snapshot (s1, ok next) (a, e, _) = rw e (
        after_uber s1 (write_uber d hash u s1) a (
          write_uber-Flipped hash digest d IsGood IsTorn safe torn_fails s1 u a.good
            (omega (arith, a.same_size, apart.1))))
    after_snapshot (s1, err e) a = moved s1 (a.good, a.same_size, λ j (low, away). a.outside j away)

    -- commit, over a consistent pool, on a device whose calls may fail, with a committed state to
    -- commit on, and with no stored block where it writes, the uberblocks and the inactive
    -- metadata slot, leaves a consistent pool in which each reference reads what it read, whether
    -- it succeeds or fails. On success exactly the pending clusters were freed and none is pending
    -- any more; on an error the bitmap is the old one.
    pub commit-IsConsistent :
        (scratch : Option (List ℕ))
        → Through (commit d hash prev p.bm p.ddt tbl root_inode next_inode scratch p.dev)
    unfolding commit
    commit-IsConsistent scratch = after_snapshot (write_snapshot d n p.bm p.ddt tbl scratch p.dev) (
        write_snapshot-Staged d IsGood IsTorn safe n p.bm p.ddt tbl r.savable capacity p.dev scratch
          v.good (unfold successor in apart.2))
