-- ===== src/Volume/Remount.antt =====
-- rust/bloomfs-fs/src/lib.rs: the stack of free numbers after a mount.
use bloomfs.Base.{
  ℕ, ◌*◌, replicate, ◌≤◌, ◌≡◌, refl, ap, sym, subst, ◌∙◌, ◌&&◌, Option, some, List, [], ltb, ◌==◌,
  if◌then◌else◌, length, Result, ok, err, Result-cases, inl, inr, arith,
}
use bloomfs.Block.{Device}
use bloomfs.Inode.{Inode}
use bloomfs.Inode.Table.{Table}
use bloomfs.Inode.Table.Laws
use bloomfs.Store.{Crates, Ref}
use bloomfs.Store
use bloomfs.Alloc.{Bitmap}
use bloomfs.Dedup
use bloomfs.Cow.{Uberblock}
use bloomfs.Cow
use bloomfs.CachedDir
use bloomfs.Fs.{Error, store, blk}
use bloomfs.Volume.{Volume, rebuild_free_inodes}
use bloomfs.Volume.Mount.{mount}
use bloomfs.Volume.Ids.{times, link_count, times-rebuild_free_inodes, IsReusable}

module _ (c : Crates) (d : Device) (clock : ℕ → ℕ) where
  -- A mount of a valid table, whose slots all lie below the mark and the mark within the capacity,
  -- leaves a stack that holds each slot without a link below the count of the table once, and every
  -- number it can hand out is that of a slot without a link.
  pub mount-IsReusable :
      (s : d.State) (key : Option (List ℕ)) (u : Uberblock) (bm : Bitmap) (t : Dedup.Table)
      (inodes : Table) (v : Volume d)
      → Cow.mount d c.blake3 s ≡ ok (u, bm, t, inodes)
      → Laws.IsValid inodes
      → inodes.count ≤ u.next_inode
      → u.next_inode ≤ length inodes.inodes
      → mount c d clock s key ≡ ok v
      → IsReusable v
        × ((id : ℕ)
            → times id v.free_inodes
              ≡ (if ltb id inodes.count && (link_count inodes id == 0) then 1 else 0))
  unfolding mount
  mount-IsReusable s key u bm t inodes v m valid low high h = elim (Result-cases (Store.new key)) [
    | inr (e, k) ↦
        (let clash : ◌≡◌ {A = Result Error (Volume d)} (err (store e)) (ok v) =
            sym (simp (m, k, mount) refl) ∙ h in
          cc)
    | inl (bs, k) ↦
        (let opened : Volume d = record {
          dev = s;
          ub = u;
          bm = bm;
          ddt = t;
          inodes = inodes;
          bs = bs;
          open_count = [];
          free_inodes = rebuild_free_inodes inodes;
          clock = clock;
          reads = 0;
          meta_buf = replicate (u.meta_blocks * blk) 0;
          dir_cache = some CachedDir.new;
        } in
          let e : ◌≡◌ {A = Result Error (Volume d)} (ok opened) (ok v) =
            sym (simp (m, k, mount) refl) ∙ h in
          let at : opened ≡ v = cc in
          let count = λ (id : ℕ). times-rebuild_free_inodes inodes id valid.within in
          subst
            (λ (v : Volume d).
              IsReusable v
              × ((id : ℕ)
                  → times id v.free_inodes
                    ≡ (if ltb id inodes.count && (link_count inodes id == 0) then 1 else 0)))
            at
            (
              record {
                once = λ j. ground (arith, count j);
                vacant_slot = λ j l. ground (arith, l, count j);
                fresh = λ j l.
                    unfold link_count in
                    ap (λ (i : Inode). i.nlink) (valid.untouched j (omega (arith, l)));
                within = high;
              },
              count,
            ))
  ]
