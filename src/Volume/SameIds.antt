-- ===== src/Volume/SameIds.antt =====
-- rust/bloomfs-fs/src/lib.rs: the releases of records and the cache, which leave the inodes and their
-- numbers alone.
use bloomfs.Base.{
  ℕ, ◌≤◌, ◌<◌, ◌≡◌, refl, ap, sym, subst, ◌∙◌, Option-cases, List, [], ◌∷◌, ◌==◌, length,
  Result-cases, Bool-cases, inl, inr,
}
use bloomfs.Base.Outcome.{map_err}
use bloomfs.Block.{Device}
use bloomfs.Inode.{Inode}
use bloomfs.Inode.Table.{Table}
use bloomfs.Inode.Table
use bloomfs.Store.{Crates, Ref}
use bloomfs.Fs.{Error, inode, decode_refs}
use bloomfs.Volume.{Volume, get_inode, bs_read, bs_release, with_pool}
use bloomfs.Volume.Contents.{is_inline, first_ref}
use bloomfs.Volume.Update.{release_all, release_map, release_data}
use bloomfs.Volume.Directories.{evict_dir, with_cache}
use bloomfs.Volume.Ids.{times, link_count, IsReusable}

module _ {d : Device} where
  -- The tables of the inodes and of the numbers are as before.
  pub record SameIds (v v' : Volume d) : Type 0 where
    pub inodes : v'.inodes ≡ v.inodes
    pub free : v'.free_inodes ≡ v.free_inodes
    pub mark : v'.ub ≡ v.ub

  same : (v : Volume d) → SameIds v v
  same v = record { inodes = refl; free = refl; mark = refl }

  pub chain : (a b e : Volume d) → SameIds a b → SameIds b e → SameIds a e
  chain a b e p q = record {
    inodes = q.inodes ∙ p.inodes;
    free = q.free ∙ p.free;
    mark = q.mark ∙ p.mark;
  }

  bs_release-SameIds : (v : Volume d) (r : Ref) → SameIds v (bs_release v r)
  unfolding bs_release with_pool
  bs_release-SameIds v r = record { inodes = refl; free = refl; mark = refl }

  release_all-SameIds : (rs : List Ref) (v : Volume d) → SameIds v (release_all rs v)
  unfolding release_all
  release_all-SameIds [] v = same v
  release_all-SameIds (r ∷ rs) v =
      chain v (bs_release v r) (release_all rs (bs_release v r)) (bs_release-SameIds v r)
        (release_all-SameIds rs (bs_release v r))

  pub evict_dir-SameIds : (id : ℕ) (v : Volume d) → SameIds v (evict_dir id v)
  unfolding evict_dir with_cache
  evict_dir-SameIds id v = elim (Option-cases v.dir_cache) [
    | inl e ↦ simp (e, evict_dir) (same v)
    | inr (cache, e) ↦ simp (e, evict_dir) (record { inodes = refl; free = refl; mark = refl })
  ]

  module _ (c : Crates) where
    release_map-SameIds : (i : Inode) (v : Volume d) → SameIds v (release_map c i v).0
    unfolding release_map
    release_map-SameIds i v = elim (Result-cases (bs_read c v (first_ref i))) [
      | inr (e, h) ↦ simp (h, release_map) (same v)
      | inl (blob, h) ↦ elim (Result-cases (decode_refs blob)) [
        | inr (e, k) ↦ simp (h, k, release_map) (same v)
        | inl (rs, k) ↦
            simp (h, k, release_map)
              (chain v (release_all rs v) (bs_release (release_all rs v) (first_ref i))
                (release_all-SameIds rs v) (bs_release-SameIds (release_all rs v) (first_ref i)))
      ]
    ]

    pub release_data-SameIds : (i : Inode) (v : Volume d) → SameIds v (release_data c i v).0
    unfolding release_data
    release_data-SameIds i v = elim (Bool-cases (i.file_size == 0)) [
      | inl z ↦ simp (z, release_data) (same v)
      | inr n ↦ elim (Bool-cases (is_inline i)) [
        | inl k ↦ simp (n, k, release_data) (bs_release-SameIds v (first_ref i))
        | inr k ↦ simp (n, k, release_data) (release_map-SameIds i v)
      ]
    ]

  pub IsReusable-same : (v v' : Volume d) → SameIds v v' → IsReusable v → IsReusable v'
  IsReusable-same v v' s h = record {
    once = λ j. subst (λ l. times j l ≤ 1) (sym s.free) (h.once j);
    vacant_slot = λ j l.
        (let (below, free) = h.vacant_slot j (subst (λ q. 1 ≤ times j q) s.free l) in
          (
            subst (λ u. j < u.next_inode) (sym s.mark) below,
            subst (λ t. link_count t j ≡ 0) (sym s.inodes) free,
          ));
    fresh = λ j l.
        subst (λ t. link_count t j ≡ 0) (sym s.inodes)
          (h.fresh j (subst (λ u. u.next_inode ≤ j) s.mark l));
    within =
        subst (λ u. u.next_inode ≤ length v'.inodes.inodes) (sym s.mark)
          (subst (λ t. v.ub.next_inode ≤ length t.inodes) (sym s.inodes) h.within);
  }

  pub get_inode-same : (v w : Volume d) (j : ℕ) → SameIds v w → get_inode w j ≡ get_inode v j
  unfolding get_inode
  get_inode-same v w j s = ap (λ (t : Table). map_err {F = Error} inode (Table.get t j)) s.inodes
