-- ===== src/Store/Release.antt =====
-- rust/bloomfs-store/src/lib.rs: `release`, and the end of the commit, which frees what was
-- released.
use bloomfs.Base.{
  ℕ, ◌+◌, ◌-◌, ◌^◌, ◌<◌, ◌≡◌, refl, ap, sym, subst, ◌∙◌, true, false, ◌&&◌, List, ◌++◌, append-nil,
  Option, none, some, [], ◌∷◌, ◌==◌, ltb, if◌then◌else◌, Bool-cases, inl, inr, All, All-append,
  arith,
}
use bloomfs.Base.Assoc.{bytes_eq}
use bloomfs.Block.{Device}
use bloomfs.Alloc.{FreeRange, get, defer, apply_deferred}
use bloomfs.Alloc.Runs.{in_run}
use bloomfs.Alloc.Deferred.{
  pinned_by, FitsWord, pinned-append, defers-IsSafe, apply_deferred_lem, apply_deferred_frame,
}
use bloomfs.Dedup.{Key, Entry, Table, lookup, decr}
use bloomfs.Dedup.RefCounts.{refs_of, refs_in, last_of, decr_lem}
use bloomfs.Store.{Crates, BlockStore, Ref, Pool, ref_from, give_back, release}
use bloomfs.Store.Invariant.{
  ref_at, ref_in, ref_at-decr, run_of, Placed, IsConsistent, Placed-frame,
}

-- The clusters that the release of a key hands over to the commit: those of its entry, with the last
-- reference.
abbrev pub queued_of : Option Entry → List FreeRange
queued_of none = []
queued_of (some e) = if e.refs == 1 then record { start = e.start; count = e.count } ∷ [] else []

module _ (c : Crates) (bs : BlockStore) (d : Device) (IsGood : d.State → Type 0) (p : Pool d)
    (v : IsConsistent c bs d IsGood p) where
  -- What `release` promises: the table has lost one reference of the key, and its entry with the last one,
  -- when the entry's clusters join the pending ones; the device and all bits are as before.
  abbrev pub Released : Key → Pool d → Type 0
  Released k p' =
      IsConsistent c bs d IsGood p'
      × ((j : Key)
          → ref_at p'.ddt j
            ≡ (if bytes_eq k j && refs_of p.ddt k == 1 then none else ref_at p.ddt j))
      × ((j : Key)
          → refs_of p'.ddt j ≡ (if bytes_eq k j then refs_of p.ddt j - 1 else refs_of p.ddt j))
      × (p'.dev ≡ p.dev)
      × ((j : ℕ) → get p'.bm j ≡ get p.bm j)
      × (p'.bm.deferred ≡ p.bm.deferred ++ queued_of (lookup p.ddt k))

  module _ (k : Key) where
    abbrev t : Table
    t = (decr p.ddt k).0

    there : (j : Key) (r : Ref) → ref_at t j ≡ some r → ref_at p.ddt j ≡ some r
    there j r q = elim (Bool-cases (bytes_eq k j && refs_of p.ddt k == 1)) [
      | inl gone ↦
          (let clash : ◌≡◌ {A = Option Ref} none (some r) =
              sym (ref_at-decr p.ddt k j v.counted ∙ rw gone refl) ∙ q in
            cc)
      | inr still ↦ sym (ref_at-decr p.ddt k j v.counted ∙ rw still refl) ∙ q
    ]

    -- Others still refer to the block.
    shared :
        queued_of (lookup p.ddt k) ≡ [] → Released k (record { dev = p.dev; bm = p.bm; ddt = t })
    shared quiet =
        let (counted, last, refs) = decr_lem p.ddt k v.counted in
        (
          record {
            good = v.good;
            safe = v.safe;
            room = v.room;
            pending_fit = v.pending_fit;
            counted = counted;
            placed = λ j r q.
                (let old = v.placed j r (there j r q) in
                  record {
                    inside = old.inside;
                    marked = old.marked;
                    unpinned = old.unpinned;
                    content = old.content;
                    intact = old.intact;
                  });
            apart = λ i j r r' n q q'. v.apart i j r r' n (there i r q) (there j r' q');
          },
          λ j. ref_at-decr p.ddt k j v.counted,
          refs,
          refl,
          λ j. refl,
          rw quiet (sym (append-nil p.bm.deferred)),
        )

    module _ (e : Entry) (h : lookup p.ddt k ≡ some e) (one : e.refs ≡ 1) where
      old : Placed c bs d p (ref_from k e)
      old = v.placed k (ref_from k e) (ap (ref_in k) h)

      abbrev p' : Pool d
      p' = record { dev = p.dev; bm = defer p.bm e.start e.count; ddt = t }

      marked : (j : ℕ) → in_run e.start e.count j ≡ true → get p.bm j ≡ true
      unfolding ref_from
      marked = old.marked

      other_key : (j : Key) (r : Ref) → ref_at t j ≡ some r → bytes_eq k j ≡ false
      other_key j r q = elim (Bool-cases (bytes_eq k j)) [
        | inl s ↦
            let last : (refs_of p.ddt k == 1) ≡ true = ground (arith, ap refs_in h) in
            (let clash : ◌≡◌ {A = Option Ref} none (some r) =
                sym (ref_at-decr p.ddt k j v.counted ∙ rw (s, last) refl) ∙ q in
              cc)
        | inr s ↦ s
      ]

      elsewhere :
          (j : Key) (r : Ref)
          → ref_at t j ≡ some r
          → (i : ℕ) → run_of r i ≡ true
          → in_run e.start e.count i ≡ false
      unfolding ref_from
      elsewhere j r q i m = elim (Bool-cases (in_run e.start e.count i)) [
        | inl inside ↦ cc (
            v.apart k j (ref_from k e) r (other_key j r q) (ap (ref_in k) h) (there j r q) i inside)
        | inr out ↦ out
      ]

      kept : (j : Key) (r : Ref) → ref_at t j ≡ some r → Placed c bs d p' r
      unfolding defer get
      kept j r q =
          (Placed-frame c bs d p p' r (v.placed j r (there j r q)) refl (λ i m u. u)
            (λ i m g u. ground (
              arith,
              pinned-append p.bm.deferred (record { start = e.start; count = e.count }) i,
              elsewhere j r q i m,
            ))
            (λ i m g. refl)).0

      fits : e.start + e.count < 2 ^ 64
      unfolding ref_from
      fits = omega (arith, old.inside, v.safe.valid.small)

      freed : Released k p'
      unfolding defer
      freed =
          let (counted, last, refs) = decr_lem p.ddt k v.counted in
          (
            record {
              good = v.good;
              safe = defers-IsSafe p.bm e.start e.count marked v.safe;
              room = v.room;
              pending_fit =
                  All-append FitsWord p.bm.deferred
                    (record { start = e.start; count = e.count } ∷ []) v.pending_fit (fits, tt);
              counted = counted;
              placed = kept;
              apart = λ i j r r' n q q'. v.apart i j r r' n (there i r q) (there j r' q');
            },
            λ j. ref_at-decr p.ddt k j v.counted,
            refs,
            refl,
            λ j. unfold get in refl,
            (let last : (e.refs == 1) ≡ true = ground (arith, one) in rw (h, last) refl),
          )

  by_last :
      (k : Key) (o : Option Entry)
      → lookup p.ddt k ≡ o
      → Released k (give_back p (decr p.ddt k).0 (last_of o))
  unfolding give_back
  by_last k none h = shared k (ap queued_of h)
  by_last k (some e) h = elim (Bool-cases (e.refs == 1)) [
    | inl one ↦ rw (one, give_back) (freed k e h (ground arith))
    | inr more ↦ rw (more, give_back) (shared k (ap queued_of h ∙ rw more refl))
  ]

  -- release keeps a pool consistent: the key of the reference has one reference less, no other key
  -- changes, and its entry goes exactly with the last one; then, and only then, the clusters of
  -- the entry join those that wait for the commit. The device and all bits stay as they are.
  pub release-Released : (r : Ref) → Released r.hash (release p r)
  unfolding release
  release-Released r =
      subst (λ o. Released r.hash (give_back p (decr p.ddt r.hash).0 o))
        (sym (decr_lem p.ddt r.hash v.counted).1) (by_last r.hash (lookup p.ddt r.hash) refl)

  -- The pool behind the step that ends a commit, `apply_deferred`.
  abbrev pub settled : Pool d
  settled = record { dev = p.dev; bm = apply_deferred p.bm; ddt = p.ddt }

  -- `apply_deferred`, which ends a commit in memory, keeps a pool consistent: exactly the pending clusters
  -- are freed, and none is pending any more.
  pub settled-IsConsistent :
      IsConsistent c bs d IsGood settled
      × ((j : ℕ)
          → get settled.bm j
            ≡ (if pinned_by p.bm.deferred j && ltb j p.bm.total then false else get p.bm j))
      × (settled.bm.deferred ≡ [])
  settled-IsConsistent =
      let (valid, bits) = apply_deferred_lem p.bm v.safe.valid v.pending_fit in
      let (total, none_left) = apply_deferred_frame p.bm in
      let quiet : (j : ℕ) → pinned_by settled.bm.deferred j ≡ false =
        λ j. ap (λ q. pinned_by q j) none_left in
      let placed = λ (k : Key) (r : Ref) (q : ref_at p.ddt k ≡ some r).
        Placed-frame c bs d p settled r (v.placed k r q) total
          (λ j i m. ground (arith, bits j, (v.placed k r q).unpinned j i)) (λ j i m u. quiet j)
          (λ j i m. refl) in
      (
        record {
          good = v.good;
          safe = record { valid = valid; pinned = record { held = λ j l h. cc (quiet j) } };
          room = omega (arith, v.room, total);
          pending_fit = subst (All FitsWord) (sym none_left) tt;
          counted = v.counted;
          placed = λ k r q. (placed k r q).0;
          apart = v.apart;
        },
        bits,
        none_left,
      )
