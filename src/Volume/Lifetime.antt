-- ===== src/Volume/Lifetime.antt =====
-- rust/bloomfs-fs/src/lib.rs: the end of an inode, which `reclaim` makes once no name and no handle is
-- left.
use bloomfs.Base.{
  ℕ, ◌+◌, ◌≤◌, ◌<◌, ◌≡◌, refl, ap, sym, subst, ◌∙◌, false, ◌∷◌, leb, ◌==◌, if◌then◌else◌, length,
  set, get_or, Result, ok, err, Result-cases, Bool-cases, inl, inr, arith, ==_iff, get_or-set,
  length-set,
}
use bloomfs.Block.{Device}
use bloomfs.Inode.{Inode}
use bloomfs.Inode
use bloomfs.Inode.Table.{Table}
use bloomfs.Inode.Table
use bloomfs.Fs.{Error}
use bloomfs.Volume.{Volume, and_then, get_inode, put_inode}
use bloomfs.Volume.Update.{release_data}
use bloomfs.Volume.Pages.{Externals}
use bloomfs.Volume.Directories.{evict_dir}
use bloomfs.Volume.Namespace.{reclaim, vacant, push_free}
use bloomfs.Volume.Ids.{times, link_count, IsReusable}
use bloomfs.Volume.SameIds.{
  SameIds, chain, evict_dir-SameIds, release_data-SameIds, IsReusable-same, get_inode-same,
}

module _ {d : Device} where
  -- The table after a `put` inside it.
  unfoldable pub stored_at : Volume d → ℕ → Inode → Table
  stored_at v id i = record {
    inodes = set v.inodes.inodes id i;
    count = if leb v.inodes.count id then id + 1 else v.inodes.count;
  }

  pub put_inode-inside :
      (id : ℕ) (i : Inode) (v : Volume d)
      → id < length v.inodes.inodes
      → put_inode id i v ≡ (record v { inodes = stored_at v id i }, ok tt)
  unfolding put_inode Table.put stored_at
  put_inode-inside id i v h =
      let inside : leb (length v.inodes.inodes) id ≡ false = ground arith in
      simp (inside, put_inode, Table.put) refl

  -- What `reclaim` does to a volume: the slot is emptied, with the next generation, and its number comes
  -- to the top of the stack, or no slot and no number has changed.
  abbrev pub Reclaimed : Volume d → ℕ → Inode → Volume d × Result Error (Unit {0}) → Type 0
  Reclaimed v id i (v', ok _) =
      IsReusable v'
      × (v'.free_inodes ≡ id ∷ v.free_inodes)
      × ((j : ℕ) → get_inode v' j ≡ (if id == j then ok (vacant i) else get_inode v j))
  Reclaimed v id i (v', err e) = IsReusable v' × SameIds v v'

  pub get_inode-stored_at :
      (v v' : Volume d) (id j : ℕ) (i : Inode)
      → v'.inodes ≡ stored_at v id i
      → id < length v.inodes.inodes
      → get_inode v' j ≡ (if id == j then ok i else get_inode v j)
  unfolding get_inode Table.get stored_at
  get_inode-stored_at v v' id j i e h =
      let len : length v'.inodes.inodes ≡ length v.inodes.inodes =
        ap (λ (t : Table). length t.inodes) e ∙ length-set v.inodes.inodes id i in
      let slot : get_or v'.inodes.inodes j Inode.default
          ≡ (if id == j then i else get_or v.inodes.inodes j Inode.default) =
        ap (λ (t : Table). get_or t.inodes j Inode.default) e
        ∙ get_or-set v.inodes.inodes id j i Inode.default h in
      ground (arith, len, slot)

  link_count-stored_at :
      (v : Volume d) (id j : ℕ) (i : Inode)
      → id < length v.inodes.inodes
      → link_count (stored_at v id i) j ≡ (if id == j then i.nlink else link_count v.inodes j)
  unfolding link_count stored_at
  link_count-stored_at v id j i h =
      ground (arith, get_or-set v.inodes.inodes id j i Inode.default h)

  push-IsReusable :
      (v : Volume d) (id : ℕ) (i : Inode)
      → IsReusable v
      → times id v.free_inodes ≡ 0
      → id < v.ub.next_inode
      → i.nlink ≡ 0
      → IsReusable (push_free id (record v { inodes = stored_at v id i }))
  unfolding push_free times stored_at
  push-IsReusable v id i h absent below none_left =
      let inside : id < length v.inodes.inodes = omega (arith, below, h.within) in
      let links = λ (j : ℕ). link_count-stored_at v id j i inside in
      record {
        once = λ j. ground (arith, absent, h.once j);
        vacant_slot = λ j l. elim (Bool-cases (id == j)) [
          | inl e ↦
              (let at : id ≡ j = (==_iff id j).0 e in
                (omega (arith, at, below), ground (arith, links j)))
          | inr n ↦
              (let old = h.vacant_slot j (ground (arith, l)) in
                (old.0, ground (arith, links j, old.1)))
        ];
        fresh = λ j l. ground (arith, links j, h.fresh j l);
        within = subst (λ n. v.ub.next_inode ≤ n) (sym (length-set v.inodes.inodes id i)) h.within;
      }

  -- What `reclaim` does behind the release.
  abbrev recycle :
      ℕ → Inode → Volume d × Result Error (Unit {0}) → Volume d × Result Error (Unit {0})
  recycle id i r =
      and_then r (λ _ u. and_then (put_inode id (vacant i) u) (λ _ u'. (push_free id u', ok tt)))

  module _ (x : Externals) where
    -- After the release, the slot is written and the number pushed.
    freed :
        (v w : Volume d) (id : ℕ) (i : Inode)
        → IsReusable v
        → times id v.free_inodes ≡ 0
        → id < v.ub.next_inode
        → SameIds v w
        → Reclaimed v id i (push_free id (record w { inodes = stored_at w id (vacant i) }), ok tt)
    unfolding push_free vacant
    freed v w id i h absent below s =
        let h' = IsReusable-same v w s h in
        let below' : id < w.ub.next_inode = subst (λ u. id < u.next_inode) (sym s.mark) below in
        let inside : id < length w.inodes.inodes = omega (arith, below', h'.within) in
        (
          push-IsReusable w id (vacant i) h' (ap (times id) s.free ∙ absent) below' refl,
          ap (λ l. id ∷ l) s.free,
          λ j.
              get_inode-stored_at w (push_free id (record w { inodes = stored_at w id (vacant i) }))
                id j (vacant i) refl inside
              ∙ ap (λ (r : Result Error Inode). if id == j then ok (vacant i) else r)
                  (get_inode-same v w j s),
        )

    -- Where the stack holds slots without a link and the number of the inode, below the mark, is
    -- not on it, reclaim empties the slot, with the next generation, and puts the number on top of
    -- the stack, all other slots staying as they were; where it fails, no slot and no number has
    -- changed. In both cases the stack stays one of slots without links.
    pub reclaim-Reclaimed :
        (v : Volume d) (id : ℕ) (i : Inode)
        → IsReusable v
        → times id v.free_inodes ≡ 0
        → id < v.ub.next_inode
        → Reclaimed v id i (reclaim x id i v)
    unfolding reclaim
    reclaim-Reclaimed v id i h absent below =
        let v1 = evict_dir id v in
        let w = (release_data x.crates i v1).0 in
        let s : SameIds v w =
          chain v v1 w (evict_dir-SameIds id v) (release_data-SameIds x.crates i v1) in
        let inside : id < length w.inodes.inodes =
          (let h' = IsReusable-same v w s h in
            let below' : id < w.ub.next_inode = subst (λ u. id < u.next_inode) (sym s.mark) below in
            omega (arith, below', h'.within)) in
        elim (Result-cases (release_data x.crates i v1).1) [
          | inr (e, k) ↦
              (let ends : reclaim x id i v ≡ (w, err e) = ap (λ r. recycle id i (w, r)) k in
                subst (Reclaimed v id i) (sym ends) (IsReusable-same v w s h, s))
          | inl (u, k) ↦
              (let ends : reclaim x id i v
                    ≡ (push_free id (record w { inodes = stored_at w id (vacant i) }), ok tt) =
                  ap (λ r. recycle id i (w, r)) k
                  ∙ ap (λ r. and_then r (λ _ u. (push_free id u, ok tt)))
                      (put_inode-inside id (vacant i) w inside) in
                subst (Reclaimed v id i) (sym ends) (freed v w id i h absent below s))
        ]
