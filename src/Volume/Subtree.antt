-- ===== src/Volume/Subtree.antt =====
-- rust/bloomfs-fs/src/lib.rs: the walk through a subtree of directories that `rename` makes.
pub mod Named
pub mod Walk
use bloomfs.Base.{
  ℕ, zero, suc, Bool, true, false, Option, none, some, List, [], ◌∷◌, ◌==◌, if◌then◌else◌, Result,
  ok, err, ◌>>=◌,
}
use bloomfs.Block.{Device}
use bloomfs.Inode.{type_dir}
use bloomfs.Segment.{DirEntry}
use bloomfs.Fs.{Error}
use bloomfs.Volume.{Volume, get_inode}
use bloomfs.Volume.Pages.{Externals, read_dir_pages}

module _ {d : Device} (v : Volume d) where
  -- The directories among the entries go on the stack, the last one to its top.
  unfoldable pub push_dirs : List DirEntry → List ℕ → Result Error (List ℕ)
  push_dirs [] stack = ok stack
  push_dirs ((name, id) ∷ es) stack =
      get_inode v id >>= λ i. push_dirs es (if i.kind == type_dir then id ∷ stack else stack)

  module _ (x : Externals) where
    -- One round for each directory that is taken from the stack; `none` where the fuel does not last.
    unfoldable pub walk : ℕ → List ℕ → ℕ → Result Error (Option Bool)
    walk zero stack target = ok none
    walk (suc fuel) [] target = ok (some false)
    walk (suc fuel) (dir ∷ stack) target =
        if dir == target
        then ok (some true)
        else (read_dir_pages x v dir >>= λ es.
            push_dirs es stack >>= λ stack'. walk fuel stack' target)

    unfoldable pub dir_subtree_contains : ℕ → ℕ → ℕ → Result Error (Option Bool)
    dir_subtree_contains fuel top target = walk fuel (top ∷ []) target

    -- Whether a rename between two parents would move a directory below itself.
    unfoldable pub moves_into : ℕ → ℕ → ℕ → ℕ → Result Error (Option Bool)
    moves_into fuel src_parent id dst_parent =
        if src_parent == dst_parent
        then ok (some false)
        else (get_inode v id >>= λ i.
            if i.kind == type_dir then dir_subtree_contains fuel id dst_parent else ok (some false))
