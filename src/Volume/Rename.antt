-- ===== src/Volume/Rename.antt =====
-- rust/bloomfs-fs/src/lib.rs: `rename`.
use bloomfs.Base.{ℕ, Bool, true, false, Option, none, some, List, ◌==◌, if◌then◌else◌, ok, err}
use bloomfs.Block.{Device}
use bloomfs.CachedDir.{CachedDir}
use bloomfs.Fs.{not_found, invalid}
use bloomfs.Volume.{
  Action, ◌>>=◌, ◌>>◌, pure, raise, asks, check, or_raise, get_inode, put_inode, touch_meta,
}
use bloomfs.Volume.Pages.{Externals}
use bloomfs.Volume.Directories.{checkout_dir, commit_dir}
use bloomfs.Volume.Namespace.{find_name, add_name, del_name, drop_link}
use bloomfs.Volume.Subtree.{moves_into}

module _ {d : Device} where
  -- An inode that is not in the table is passed over.
  unfoldable pub touch_moved : ℕ → Action d (Unit {0})
  touch_moved id v = elim (get_inode v id) [
    | err _ ↦ (v, ok tt)
    | ok i ↦ (touch_meta i >>= put_inode id) v
  ]

  module _ (x : Externals) where
    -- The destination without its old name, and whether the name stands for the moved inode already.
    unfoldable pub rename_overwrite : CachedDir → List ℕ → ℕ → Action d (CachedDir × Bool)
    rename_overwrite dh name id = elim (find_name x dh name) [
      | none ↦ pure (dh, false)
      | some old_id ↦ if old_id == id then pure (dh, true) else (do
        old ← asks (λ v. get_inode v old_id)
        drop_link x old_id old
        pure (del_name x dh name, false))
    ]

    unfoldable pub rename_within : CachedDir → ℕ → ℕ → List ℕ → List ℕ → Action d (Unit {0})
    rename_within sh id parent src_name dst_name = do
      (sh, same) ← rename_overwrite sh dst_name id
      if same
          then pure tt
          else (touch_moved id
              >> commit_dir x parent (del_name x (add_name x sh dst_name id) src_name))

    unfoldable pub rename_across : CachedDir → ℕ → ℕ → List ℕ → ℕ → List ℕ → Action d (Unit {0})
    rename_across sh id src_parent src_name dst_parent dst_name = do
      dh ← checkout_dir x dst_parent
      (dh, same) ← rename_overwrite dh dst_name id
      if same then pure tt else (do
        touch_moved id
        commit_dir x dst_parent (add_name x dh dst_name id)
        commit_dir x src_parent (del_name x sh src_name))

    -- `none` where the fuel does not last for the walk through the subtree that moves.
    unfoldable pub rename : ℕ → ℕ → List ℕ → ℕ → List ℕ → Action d (Option (Unit {0}))
    rename fuel src_parent src_name dst_parent dst_name = do
      sh ← checkout_dir x src_parent
      id ← or_raise (find_name x sh src_name) not_found
      check (dst_parent == id) invalid
      loops ← asks (λ v. moves_into v x fuel src_parent id dst_parent)
      elim loops [
        | none ↦ pure none
        | some true ↦ raise invalid
        | some false ↦ (do
          if src_parent == dst_parent
              then rename_within sh id src_parent src_name dst_name
              else rename_across sh id src_parent src_name dst_parent dst_name
          pure (some tt))
      ]
