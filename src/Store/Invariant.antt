-- ===== src/Store/Invariant.antt =====
-- rust/bloomfs-store/src/lib.rs: what holds of the device, the bitmap and the deduplication table
-- between two calls.
use bloomfs.Base.{
  ℕ, ◌+◌, ◌-◌, ◌%◌, ◌^◌, ◌≤◌, ◌≡◌, refl, ap, sym, subst, ◌∙◌, Bool, true, false, ◌&&◌, Option, none,
  some, List, [], ◌==◌, if◌then◌else◌, Bool-cases, Option-cases, inl, inr, ok, arith, All,
}
use bloomfs.Base.Assoc
use bloomfs.Base.Assoc.{Keyed, bytes_keyed, bytes_eq, bytes_eq_iff, lookup-insert, lookup-remove}
use bloomfs.Block.{Device}
use bloomfs.Alloc.{Bitmap, get}
use bloomfs.Alloc.Invariant
use bloomfs.Alloc.Runs.{in_run}
use bloomfs.Alloc.Deferred.{pinned_by, FitsWord, IsSafe}
use bloomfs.Dedup
use bloomfs.Dedup.{Key, Entry, Table, lookup, add, incr, decr, drop_ref}
use bloomfs.Dedup.RefCounts.{IsCounted, refs_of}
use bloomfs.Store.{Crates, BlockStore, Ref, Pool, ref_from, read}
use bloomfs.Store.Sectors.{read-same}

abbrev pub ref_in : Key → Option Entry → Option Ref
ref_in k none = none
ref_in k (some e) = some (ref_from k e)

-- The reference that the table holds for a key.
abbrev pub ref_at : Table → Key → Option Ref
ref_at t k = ref_in k (lookup t k)

pub ref_at-add :
    (t : Table) (k j : Key) (e : Entry)
    → ref_at (add t k e) j ≡ (if bytes_eq k j then some (ref_from k e) else ref_at t j)
unfolding add lookup ref_from
ref_at-add t k j e = elim (Bool-cases (bytes_eq k j)) [
  | inl h ↦
      let same : k ≡ j = (bytes_eq_iff k j).0 h in
      rw (lookup-insert k j (record e { refs = 1 }) t, h)
        (ap (λ (i : Key). some (ref_from i e)) (sym same))
  | inr h ↦ rw (lookup-insert k j (record e { refs = 1 }) t, h) refl
]

ref_at-insert :
    (t : Table) (k j : Key) (e e' : Entry)
    → lookup t k ≡ some e
    → ref_from k e' ≡ ref_from k e
    → ref_at (Assoc.insert k e' t) j ≡ ref_at t j
unfolding lookup
ref_at-insert t k j e e' h same = elim (Bool-cases (bytes_eq k j)) [
  | inl b ↦
      let here : k ≡ j = (bytes_eq_iff k j).0 b in
      rw (lookup-insert k j e' t, b) (rw (← here) (rw h (ap (λ r. some r) same)))
  | inr b ↦ rw (lookup-insert k j e' t, b) refl
]

pub ref_at-incr : (t : Table) (k j : Key) → ref_at (incr t k).0 j ≡ ref_at t j
unfolding incr ref_from
ref_at-incr t k j = elim (Option-cases (lookup t k)) [
  | inl h ↦ rw (h, incr) refl
  | inr (e, h) ↦
      rw (h, incr) (ref_at-insert t k j e (record e { refs = (e.refs + 1) % 2 ^ 32 }) h refl)
]

-- With the last reference the entry goes.
pub ref_at-decr :
    (t : Table) (k j : Key)
    → IsCounted t
    → ref_at (decr t k).0 j ≡ (if bytes_eq k j && refs_of t k == 1 then none else ref_at t j)
unfolding decr drop_ref ref_from
ref_at-decr t k j c = elim (Option-cases (lookup t k)) [
  | inl h ↦ rw (h, decr) (ground arith)
  | inr (e, h) ↦
      let (lo, hi) = c.positive k e h in
      let left : (e.refs + (2 ^ 32 - 1)) % 2 ^ 32 ≡ e.refs - 1 = omega arith in
      elim (Bool-cases (e.refs == 1)) [
        | inl one ↦
            let last : e.refs - 1 ≡ 0 = ground arith in
            rw (h, decr, drop_ref, left, last, one)
              (unfold lookup in ground (arith, lookup-remove k j t))
        | inr more ↦
            let some_left : (e.refs - 1 == 0) ≡ false = ground arith in
            rw (h, decr, drop_ref, left, some_left, more)
              (ref_at-insert t k j e (record e { refs = e.refs - 1 }) h refl ∙ ground arith)
      ]
]

abbrev pub run_of : Ref → ℕ → Bool
run_of r j = in_run r.start r.count j

module _ (c : Crates) (bs : BlockStore) (d : Device) where
  -- The clusters of the reference lie on the device and are in use, none of them is pending, and they
  -- read back as a block.
  pub record Placed (p : Pool d) (r : Ref) : Type 0 where
    pub inside : r.start + r.count ≤ p.bm.total
    pub marked : (j : ℕ) → run_of r j ≡ true → get p.bm j ≡ true
    pub unpinned : (j : ℕ) → run_of r j ≡ true → pinned_by p.bm.deferred j ≡ false
    pub content : List ℕ
    pub intact : read c bs d p.dev r ≡ ok content

  abbrev pub Apart : Ref → Ref → Type 0
  Apart r r' = (j : ℕ) → run_of r j ≡ true → run_of r' j ≡ false

  pub record IsConsistent (IsGood : d.State → Type 0) (p : Pool d) : Type 0 where
    pub good : IsGood p.dev
    pub safe : IsSafe p.bm
    pub room : p.bm.total ≤ d.blocks p.dev
    pub pending_fit : All FitsWord p.bm.deferred
    pub counted : IsCounted p.ddt
    pub placed : (k : Key) (r : Ref) → ref_at p.ddt k ≡ some r → Placed p r
    pub apart :
        (k k' : Key) (r r' : Ref)
        → bytes_eq k k' ≡ false
        → ref_at p.ddt k ≡ some r
        → ref_at p.ddt k' ≡ some r'
        → Apart r r'

  -- A block stays where it is if its clusters do.
  pub Placed-frame :
      (p p' : Pool d) (r : Ref)
      → Placed p r
      → p'.bm.total ≡ p.bm.total
      → ((j : ℕ) → run_of r j ≡ true → get p.bm j ≡ true → get p'.bm j ≡ true)
      → ((j : ℕ)
          → run_of r j ≡ true
          → get p.bm j ≡ true
          → pinned_by p.bm.deferred j ≡ false
          → pinned_by p'.bm.deferred j ≡ false)
      → ((j : ℕ)
          → run_of r j ≡ true
          → get p.bm j ≡ true
          → d.read_block p'.dev j ≡ d.read_block p.dev j)
      → Placed p' r × (read c bs d p'.dev r ≡ read c bs d p.dev r)
  Placed-frame p p' r h t m u s =
      let same : read c bs d p'.dev r ≡ read c bs d p.dev r =
        read-same c bs d p.dev p'.dev r
          (λ j l k. (let i : run_of r j ≡ true = ground arith in s j i (h.marked j i))) in
      (
        record {
          inside = omega (arith, h.inside);
          marked = λ j i. m j i (h.marked j i);
          unpinned = λ j i. u j i (h.marked j i) (h.unpinned j i);
          content = h.content;
          intact = same ∙ h.intact;
        },
        same,
      )

  nothing_at : (k : Key) (r : Ref) → ref_at Dedup.new k ≡ some r → ⊥
  unfolding lookup Dedup.new Assoc.lookup
  nothing_at k r h = (let clash : ◌≡◌ {A = Option Ref} none (some r) = h in cc)

  -- A pool with an empty table and nothing pending.
  pub empty-IsConsistent :
      (IsGood : d.State → Type 0) (s : d.State) (bm : Bitmap)
      → IsGood s
      → Invariant.IsValid bm
      → bm.deferred ≡ []
      → bm.total ≤ d.blocks s
      → IsConsistent IsGood (record { dev = s; bm = bm; ddt = Dedup.new })
  empty-IsConsistent IsGood s bm g v e room = record {
    good = g;
    safe = record {
      valid = v;
      pinned = record {
        held =
            λ j l h. (let no : pinned_by bm.deferred j ≡ false = ap (λ q. pinned_by q j) e in cc);
      };
    };
    room = room;
    pending_fit = subst (All FitsWord) (sym e) tt;
    counted = record {
      unique = unfold Dedup.new in tt;
      positive = λ k x h. absurd (nothing_at k (ref_from k x) (ap (ref_in k) h));
    };
    placed = λ k r h. absurd (nothing_at k r h);
    apart = λ k k' r r' n h h' j i. absurd (nothing_at k r h);
  }
