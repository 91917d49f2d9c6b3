-- ===== src/Dedup/RefCounts.antt =====
-- rust/bloomfs-dedup/src/lib.rs: the table against the plain view, a number of references for each key.
use bloomfs.Base.{
  ℕ, ◌+◌, ◌-◌, ◌%◌, ◌^◌, ◌<◌, ◌≡◌, refl, ap, true, false, not, ◌&&◌, sym, Option, none, some, ◌==◌,
  if◌then◌else◌, Bool-cases, Option-cases, inl, inr, arith,
}
use bloomfs.Base.Assoc
use bloomfs.Base.Assoc.{
  Keyed, bytes_keyed, NoRepeat, lookup-insert, lookup-remove, insert-NoRepeat, remove-NoRepeat,
  bytes_eq, bytes_eq_iff,
}
use bloomfs.Dedup.{Key, Entry, Table, lookup, add, incr, decr, drop_ref}

abbrev pub refs_in : Option Entry → ℕ
refs_in none = 0
refs_in (some e) = e.refs

-- The references that a key has.
abbrev pub refs_of : Table → Key → ℕ
refs_of t k = refs_in (lookup t k)

-- Every entry has a reference and room for one more, and no key stands twice.
pub record IsCounted (t : Table) : Type 0 where
  pub unique : NoRepeat t
  pub positive : (k : Key) (e : Entry) → lookup t k ≡ some e → (0 < e.refs) × (e.refs < 2 ^ 32)

module _ (t : Table) (k : Key) (c : IsCounted t) where
  insert_lem :
      (e : Entry)
      → 0 < e.refs
      → e.refs < 2 ^ 32
      → IsCounted (Assoc.insert k e t)
        × ((j : Key)
            → refs_of (Assoc.insert k e t) j ≡ (if bytes_eq k j then e.refs else refs_of t j))
  unfolding lookup
  insert_lem e pos small = (
    record {
      unique = insert-NoRepeat k e t c.unique;
      positive = λ i x h. ground (arith, lookup-insert k i e t, c.positive i x);
    },
    λ j. ground (arith, lookup-insert k j e t),
  )

  remove_lem :
      IsCounted (Assoc.remove k t)
      × ((j : Key) → refs_of (Assoc.remove k t) j ≡ (if bytes_eq k j then 0 else refs_of t j))
  unfolding lookup
  remove_lem = (
    record {
      unique = remove-NoRepeat k t c.unique;
      positive = λ i x h. ground (arith, lookup-remove k i t, c.positive i x);
    },
    λ j. ground (arith, lookup-remove k j t),
  )

refs_same : (t : Table) (k j : Key) → bytes_eq k j ≡ true → refs_of t j ≡ refs_of t k
refs_same t k j h = ap (refs_of t) (sym ((bytes_eq_iff k j).0 h))

-- `add` leaves a new block with one reference and every other key as it was.
pub add_lem :
    (t : Table) (k : Key) (e : Entry)
    → IsCounted t
    → IsCounted (add t k e)
      × ((j : Key) → refs_of (add t k e) j ≡ (if bytes_eq k j then 1 else refs_of t j))
unfolding add
add_lem t k e c = insert_lem t k c (record e { refs = 1 }) (omega arith) (omega arith)

-- On a key that is there and has room `incr` adds one reference; otherwise it changes nothing and says
-- so. The table stays well formed.
pub incr_lem :
    (t : Table) (k : Key)
    → IsCounted t
    → refs_of t k + 1 < 2 ^ 32
    → IsCounted (incr t k).0
      × ((incr t k).1 ≡ not (refs_of t k == 0))
      × ((j : Key)
          → refs_of (incr t k).0 j
            ≡ (if bytes_eq k j && not (refs_of t k == 0) then refs_of t j + 1 else refs_of t j))
unfolding incr
incr_lem t k c room = elim (Option-cases (lookup t k)) [
  | inl e ↦ rw (e, incr) (c, refl, λ j. ground arith)
  | inr (x, e) ↦
      let (lo, hi) = c.positive k x e in
      let fits : x.refs + 1 < 2 ^ 32 = rw e at room in
      let (counted, rest) =
        insert_lem t k c (record x { refs = (x.refs + 1) % 2 ^ 32 }) (omega arith) (omega arith) in
      rw (e, incr)
        (counted, ground arith, λ j. ground (arith, rest j, refs_same t k j, ap refs_in e))
]

-- What is handed back with the last reference.
abbrev pub last_of : Option Entry → Option Entry
last_of none = none
last_of (some e) = if e.refs == 1 then some (record e { refs = 0 }) else none

-- `decr` takes one reference from the key, if it has one, and from no other. Exactly with the last one
-- the entry goes and is handed back. The table stays well formed.
pub decr_lem :
    (t : Table) (k : Key)
    → IsCounted t
    → IsCounted (decr t k).0
      × ((decr t k).1 ≡ last_of (lookup t k))
      × ((j : Key)
          → refs_of (decr t k).0 j ≡ (if bytes_eq k j then refs_of t j - 1 else refs_of t j))
unfolding decr drop_ref
decr_lem t k c = elim (Option-cases (lookup t k)) [
  | inl e ↦ rw (e, decr) (c, refl, λ j. ground (arith, refs_same t k j, ap refs_in e))
  | inr (x, e) ↦
      let (lo, hi) = c.positive k x e in
      let left : (x.refs + (2 ^ 32 - 1)) % 2 ^ 32 ≡ x.refs - 1 = omega arith in
      elim (Bool-cases (x.refs == 1)) [
        | inl one ↦
            let last : x.refs - 1 ≡ 0 = ground arith in
            let (counted, rest) = remove_lem t k c in
            rw (e, decr, drop_ref, left, last, one)
              (counted, refl, λ j. ground (arith, rest j, refs_same t k j, ap refs_in e))
        | inr more ↦
            let some_left : (x.refs - 1 == 0) ≡ false = ground arith in
            let (counted, rest) =
              insert_lem t k c (record x { refs = x.refs - 1 }) (ground arith) (omega arith) in
            rw (e, decr, drop_ref, left, some_left, more)
              (counted, refl, λ j. ground (arith, rest j, refs_same t k j, ap refs_in e))
      ]
]
