-- ===== src/CachedDir/Examples.antt =====
-- Examples for the open directory and the cache.
use bloomfs.Base.{
  ℕ, zero, suc, ◌+◌, ◌≤◌, ◌<◌, ◌≡◌, refl, Bool, some, List, [], ◌∷◌, length, get_or, ltb, arith,
}
use bloomfs.Base.Assoc.{ℕ_keyed, lookup}
use bloomfs.Inode
use bloomfs.Dir
use bloomfs.Fs.Pages.{entries_size}
use bloomfs.CachedDir.{CachedDir, DirCache, new, touch, insert, add}
use bloomfs.CachedDir.Pages.{IsPaged, add-IsPaged}
use bloomfs.CachedDir.Cache.{IsBounded, insert-IsBounded}

abbrev toy_over : ℕ → ℕ → ℕ → ℕ → Bool
toy_over fp n k nb = ltb nb 1

abbrev toy_hash : List ℕ → ℕ → ℕ
toy_hash x seed = length x

abbrev toy_name_hash : List ℕ → ℕ
toy_name_hash x = length x

-- One page with the entry of the name `a`.
abbrev toy_dir : CachedDir
toy_dir = record {
  dir = Dir.with_cap toy_over toy_hash toy_name_hash 2 0;
  dir_inode = Inode.default;
  pages = ((97 ∷ [], 3) ∷ []) ∷ [];
  used = 15 ∷ [];
  page_of = (97 ∷ [], 0) ∷ [];
  dirty = [];
  lru_tick = 0;
}

right_count :
    (p : ℕ) → p < 1 → get_or toy_dir.used p 0 ≡ 4 + entries_size (get_or toy_dir.pages p [])
right_count zero l = refl
right_count (suc p) l = absurd (omega arith)

small_count : (p : ℕ) → p < 1 → get_or toy_dir.used p 0 ≤ 4096
small_count zero l = omega arith
small_count (suc p) l = absurd (omega arith)

toy_dir-IsPaged : IsPaged toy_dir
toy_dir-IsPaged = record {
  parallel = refl;
  right = λ p l. right_count p l;
  small = λ p l. small_count p l;
}

add-IsPaged_example : IsPaged (add toy_over toy_hash toy_name_hash toy_dir (98 ∷ 99 ∷ []) 4).0
add-IsPaged_example =
    add-IsPaged toy_over toy_hash toy_name_hash toy_dir (98 ∷ 99 ∷ []) 4 toy_dir-IsPaged
      (omega arith)

abbrev toy_cache : DirCache
toy_cache = record { entries = (7, toy_dir) ∷ []; tick = 5 }

insert-IsBounded_example :
    IsBounded new
    × IsBounded (touch toy_cache 9)
    × IsBounded (insert toy_cache 9 toy_dir)
    × (lookup 9 (insert toy_cache 9 toy_dir).entries
        ≡ some (record toy_dir { lru_tick = toy_cache.tick + 1 }))
insert-IsBounded_example = insert-IsBounded toy_cache 9 toy_dir (omega arith)
