-- ===== src/CachedDir/Cache.antt =====
-- rust/bloomfs-fs/src/lib.rs: the number of directories in the cache.
use bloomfs.Base.{
  ℕ, suc, ◌+◌, ◌≤◌, ◌≡◌, ◌⊎◌, refl, ap, Bool, true, not, ◌&&◌, is_some, some, List, [], ◌∷◌, ltb,
  leb, ◌==◌, if◌then◌else◌, length, Bool-cases, inl, inr, arith,
}
use bloomfs.Base.Assoc.{Keyed, ℕ_keyed, lookup, lookup-insert, remove}
use bloomfs.Base.Assoc
use bloomfs.CachedDir.{CachedDir, DirCache, new, set_tick, touch, oldest, evicted, insert}

abbrev pub IsBounded : DirCache → Type 0
IsBounded c = length c.entries ≤ 256

length-set_tick : (id tick : ℕ) (m : List (ℕ × CachedDir)) → length (set_tick id tick m) ≡ length m
unfolding set_tick
length-set_tick id tick [] = refl
length-set_tick id tick ((k, v) ∷ m) = ground (arith, length-set_tick id tick m)

length-insert_le :
    (id : ℕ) (v : CachedDir) (m : List (ℕ × CachedDir))
    → length (Assoc.insert id v m) ≤ length m + 1
unfolding Assoc.insert
length-insert_le id v [] = omega arith
length-insert_le id v ((k, w) ∷ m) = ground (arith, length-insert_le id v m)

length-insert_present :
    (id : ℕ) (v : CachedDir) (m : List (ℕ × CachedDir))
    → is_some (lookup id m) ≡ true
    → length (Assoc.insert id v m) ≡ length m
unfolding Assoc.insert lookup
length-insert_present id v [] h = absurd cc
length-insert_present id v ((k, w) ∷ m) h = elim (Bool-cases (k == id)) [
  | inl e ↦ rw e refl
  | inr e ↦ rw e (ap suc (length-insert_present id v m (rw e at h)))
]

length-remove_le : (id : ℕ) (m : List (ℕ × CachedDir)) → length (remove id m) ≤ length m
unfolding remove
length-remove_le id [] = omega arith
length-remove_le id ((k, w) ∷ m) = ground (arith, length-remove_le id m)

length-remove_present :
    (id : ℕ) (m : List (ℕ × CachedDir))
    → is_some (lookup id m) ≡ true
    → length (remove id m) + 1 ≤ length m
unfolding remove lookup
length-remove_present id [] h = absurd cc
length-remove_present id ((k, w) ∷ m) h = elim (Bool-cases (k == id)) [
  | inl e ↦ rw e (omega (arith, length-remove_le id m))
  | inr e ↦ rw e (omega (arith, length-remove_present id m (rw e at h)))
]

has : ℕ → List (ℕ × CachedDir) → Bool
has id m = is_some (lookup id m)

has_first :
    (id k : ℕ) (v : CachedDir) (m : List (ℕ × CachedDir)) → id ≡ k → has id ((k, v) ∷ m) ≡ true
unfolding has lookup
has_first id k v m e = ground (arith, e)

has_behind :
    (id k : ℕ) (v : CachedDir) (m : List (ℕ × CachedDir))
    → has id m ≡ true
    → has id ((k, v) ∷ m) ≡ true
unfolding has lookup
has_behind id k v m h = elim (Bool-cases (k == id)) [ inl e ↦ rw e refl | inr e ↦ rw e h ]

-- The victim is an entry of the cache.
has-oldest :
    (k t : ℕ) (m : List (ℕ × CachedDir)) → (oldest k t m ≡ k) ⊎ (has (oldest k t m) m ≡ true)
unfolding oldest
has-oldest k t [] = inl refl
has-oldest k t ((j, v) ∷ m) = elim (Bool-cases (ltb v.lru_tick t)) [
  | inl b ↦
      rw (oldest, b)
        (elim (has-oldest j v.lru_tick m) [
          | inl e ↦ inr (has_first (oldest j v.lru_tick m) j v m e)
          | inr e ↦ inr (has_behind (oldest j v.lru_tick m) j v m e)
        ])
  | inr b ↦
      rw (oldest, b)
        (elim (has-oldest k t m) [
          | inl e ↦ inl e
          | inr e ↦ inr (has_behind (oldest k t m) j v m e)
        ])
]

evicted_less : (m : List (ℕ × CachedDir)) → 1 ≤ length m → length (evicted m) + 1 ≤ length m
unfolding evicted has
evicted_less [] l = absurd (omega arith)
evicted_less ((k, v) ∷ m) l =
    length-remove_present (oldest k v.lru_tick m) ((k, v) ∷ m) (elim (has-oldest k v.lru_tick m) [
      | inl e ↦ has_first (oldest k v.lru_tick m) k v m e
      | inr e ↦ has_behind (oldest k v.lru_tick m) k v m e
    ])

insert_bound : (c : DirCache) (id : ℕ) (h : CachedDir) → IsBounded c → IsBounded (insert c id h)
unfolding insert
insert_bound c id h b = elim (Bool-cases (leb 256 (length c.entries))) [
  | inr few ↦
      rw (insert, few)
        (ground (arith, length-insert_le id (record h { lru_tick = c.tick + 1 }) c.entries))
  | inl full ↦ elim (Bool-cases (is_some (lookup id c.entries))) [
    | inl there ↦
        rw (insert, full, there)
          (omega (
            arith,
            b,
            length-insert_present id (record h { lru_tick = c.tick + 1 }) c.entries there,
          ))
    | inr new_id ↦
        rw (insert, full, new_id)
          (omega (
            arith,
            b,
            evicted_less c.entries (ground arith),
            length-insert_le id (record h { lru_tick = c.tick + 1 }) (evicted c.entries),
          ))
  ]
]

-- A new cache is within the bound of 256 directories, and touch and insert keep it there. insert leaves
-- the directory in the cache, with the latest tick.
pub insert-IsBounded :
    (c : DirCache) (id : ℕ) (h : CachedDir)
    → IsBounded c
    → IsBounded new
      × IsBounded (touch c id)
      × IsBounded (insert c id h)
      × (lookup id (insert c id h).entries ≡ some (record h { lru_tick = c.tick + 1 }))
unfolding new touch insert
insert-IsBounded c id h b = (
  omega arith,
  omega (arith, b, length-set_tick id (c.tick + 1) c.entries),
  insert_bound c id h b,
  rw
      (lookup-insert id id (record h { lru_tick = c.tick + 1 })
        (if leb 256 (length c.entries) && not (is_some (lookup id c.entries))
          then evicted c.entries
          else c.entries))
      (ground arith),
)
