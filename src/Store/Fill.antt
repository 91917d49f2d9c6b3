-- ===== src/Store/Fill.antt =====
-- rust/bloomfs-store/src/lib.rs: a new block, once its run is allocated: written, or taken back.
use bloomfs.Base.{
  ℕ, ◌+◌, ◌*◌, ◌%◌, ◌^◌, ◌≤◌, ◌<◌, ◌≡◌, refl, ap, sym, subst, ◌∙◌, true, false, Option, none, some,
  List, ltb, if◌then◌else◌, Bool-cases, Option-cases, inl, inr, ◌⊎◌, length, replicate, take, slice,
  Result, ok, err, arith, All, length-replicate,
}
use bloomfs.Base.Assoc.{bytes_eq, bytes_eq_iff}
use bloomfs.Base.Fields.{copy_at, length-copy_at}
use bloomfs.Block
use bloomfs.Block.{Device, MayFail}
use bloomfs.Block.Runs.{Confined}
use bloomfs.Alloc
use bloomfs.Alloc.{Bitmap, get}
use bloomfs.Alloc.Runs.{in_run}
use bloomfs.Alloc.FirstFit.{Allocated, alloc-Allocated}
use bloomfs.Alloc.Deferred.{pinned_by, FitsWord, IsSafe, Step-IsSafe, Step}
use bloomfs.Alloc.Undo.{free-alloc}
use bloomfs.Dedup.{Key, Entry, lookup, add}
use bloomfs.Dedup.RefCounts.{refs_of, refs_in, add_lem}
use bloomfs.Store.{
  Crates, BlockStore, Ref, Pool, ref_from, clusters, choose_payload, new_entry, write_clusters,
  read_clusters, read, fill, block,
}
use bloomfs.Store.Sectors.{
  IsSound, write_clusters-Confined, read_clusters-write_clusters, clusters_lem, take-padded,
  unpack-choose, choose_shorter, verify_same, read_parts,
}
use bloomfs.Store.Invariant.{ref_at, ref_in, ref_at-add, run_of, Placed, IsConsistent, Placed-frame}
use bloomfs.Store.Stored.{Stored}

outside_run : (start count j : ℕ) → in_run start count j ≡ false → (j < start) ⊎ (start + count ≤ j)
outside_run start count j h = elim (Bool-cases (ltb j start)) [
  | inl e ↦ inl (ground arith)
  | inr e ↦ inr (ground arith)
]

-- A new block, once its run is allocated.
module _ (c : Crates) (bs : BlockStore) (d : Device) (IsGood : d.State → Type 0) (sound : IsSound c)
    (IsTorn : List ℕ → Type 0) (lp : MayFail d IsGood IsTorn) (p : Pool d)
    (v : IsConsistent c bs d IsGood p) (x z : List ℕ) (packed : c.encode_all x ≡ some z)
    (small : length x < 2 ^ 32) (start : ℕ) (bm : Bitmap)
    (e : Alloc.alloc p.bm (clusters (length (choose_payload x z).0)) ≡ ok (start, bm)) where
  abbrev payload : List ℕ
  payload = (choose_payload x z).0

  abbrev count : ℕ
  count = clusters (length payload)

  abbrev buf : List ℕ
  buf = copy_at (replicate (count * 4096) 0) 0 payload

  abbrev w : d.State × Result Block.Error (Unit {0})
  w = write_clusters c bs d count start 0 buf p.dev

  got : Allocated p.bm count (ok (start, bm))
  got = subst (Allocated p.bm count) e (alloc-Allocated p.bm count v.safe.valid)

  confined : Confined d IsGood IsTorn lp start count p.dev w.0
  confined = write_clusters-Confined c sound bs d IsGood IsTorn lp count start 0 buf p.dev v.good

  -- A block that was there lies elsewhere.
  apart_new : (j : ℕ) → get p.bm j ≡ true → in_run start count j ≡ false
  apart_new j used = elim (Bool-cases (in_run start count j)) [
    | inl i ↦ (let clear : get p.bm j ≡ false = got.0.clear j (ground arith) (ground arith) in cc)
    | inr o ↦ o
  ]

  kept :
      (p' : Pool d) (r : Ref)
      → Placed c bs d p r
      → p'.dev ≡ w.0
      → p'.bm.total ≡ p.bm.total
      → p'.bm.deferred ≡ p.bm.deferred
      → ((j : ℕ) → get p.bm j ≡ true → get p'.bm j ≡ true)
      → Placed c bs d p' r × (read c bs d p'.dev r ≡ read c bs d p.dev r)
  kept p' r h dev total pins more =
      Placed-frame c bs d p p' r h total (λ j i m. more j m)
        (λ j i m u. ap (λ q. pinned_by q j) pins ∙ u)
        (λ j i m.
          ap (λ s. d.read_block s j) dev
          ∙ confined.outside j (outside_run start count j (apart_new j m)))

  -- The write failed: the run is free again.
  failed :
      (err' : Block.Error)
      → Stored c bs d IsGood p x
          (record { dev = w.0; bm = Alloc.free bm start count; ddt = p.ddt }, err (block err'))
  failed err' =
      let p' : Pool d = record { dev = w.0; bm = Alloc.free bm start count; ddt = p.ddt } in
      let (safe, bits, total, pins) = free-alloc p.bm bm count start v.safe e in
      let stays = λ (k : Key) (r : Ref) (q : ref_at p.ddt k ≡ some r).
        kept p' r (v.placed k r q) refl total pins (λ j m. bits j ∙ m) in
      (
        record {
          good = confined.good;
          safe = safe;
          room = omega (arith, v.room, confined.same_size, total);
          pending_fit = subst (All FitsWord) (sym pins) v.pending_fit;
          counted = v.counted;
          placed = λ k r q. (stays k r q).0;
          apart = v.apart;
        },
        λ k r q. (q, (stays k r q).1),
        refl,
        bits,
      )

  abbrev entry : Entry
  entry = new_entry start count payload x (choose_payload x z).1

  abbrev r_new : Ref
  r_new = ref_from (c.blake3 x) entry

  fits : (length payload ≤ count * 4096) × (count < 2 ^ 32) × (length payload < 2 ^ 32)
  fits = (let shorter = choose_shorter c sound x z in omega (arith, clusters_lem (length payload)))

  reads_new : w.1 ≡ ok tt → read c bs d w.0 r_new ≡ ok x
  unfolding read ref_from new_entry
  reads_new done =
      let long : length buf ≡ count * 4096 =
        length-copy_at (replicate (count * 4096) 0) 0 payload
          (omega (arith, fits.0, length-replicate {A = ℕ} (count * 4096) 0))
        ∙ length-replicate (count * 4096) 0 in
      let c32 : count % 2 ^ 32 ≡ count = omega (arith, fits.1) in
      let p32 : length payload % 2 ^ 32 ≡ length payload = omega (arith, fits.2) in
      let back : read_clusters c bs d w.0 count start ≡ ok (slice buf 0 (count * 4096)) =
        read_clusters-write_clusters c sound bs d IsGood IsTorn lp count start 0 buf p.dev v.good
          (omega (arith, got.0.below, v.room)) (omega (arith, long)) done in
      read_parts c bs d w.0 r_new (slice buf 0 (count * 4096)) payload x
        (ap (λ (k : ℕ). read_clusters c bs d w.0 k start) c32 ∙ back)
        (ap (λ (k : ℕ). take k (slice buf 0 (count * 4096))) p32
          ∙ take-padded payload (count * 4096) fits.0)
        (unpack-choose c sound x z r_new packed refl) (verify_same c sound x r_new refl refl)

  added : Pool d
  added = record { dev = w.0; bm = bm; ddt = add p.ddt (c.blake3 x) entry }

  safe : IsSafe bm
  safe = Step-IsSafe (Step.allocates count start e) v.safe

  more : (j : ℕ) → get p.bm j ≡ true → get bm j ≡ true
  more j m = ground (arith, got.6 j)

  new_unpinned : (j : ℕ) → in_run start count j ≡ true → pinned_by p.bm.deferred j ≡ false
  new_unpinned j i = elim (Bool-cases (pinned_by p.bm.deferred j)) [
    | inl h ↦
        let below : j < p.bm.total = ground (arith, got.0.below) in
        cc (apart_new j (v.safe.pinned.held j below h))
    | inr h ↦ h
  ]

  new-Placed : w.1 ≡ ok tt → Placed c bs d added r_new
  unfolding added ref_from new_entry
  new-Placed done =
      let c32 : count % 2 ^ 32 ≡ count = omega (arith, fits.1) in
      let mine : (j : ℕ) → run_of r_new j ≡ in_run start count j =
        λ j. ap (λ (k : ℕ). in_run start k j) c32 in
      record {
        inside = omega (arith, got.0.below, got.4);
        marked = λ j i.
            (let h : in_run start count j ≡ true = sym (mine j) ∙ i in ground (arith, got.6 j));
        unpinned = λ j i. ap (λ q. pinned_by q j) got.5 ∙ new_unpinned j (sym (mine j) ∙ i);
        content = x;
        intact = reads_new done;
      }

  old-Placed :
      (k : Key) (r : Ref)
      → ref_at p.ddt k ≡ some r
      → Placed c bs d added r × (read c bs d added.dev r ≡ read c bs d p.dev r)
  unfolding added
  old-Placed k r q = kept added r (v.placed k r q) refl got.4 got.5 more

  new-Apart :
      (k : Key) (r : Ref)
      → ref_at p.ddt k ≡ some r
      → (j : ℕ) → run_of r j ≡ true
      → run_of r_new j ≡ false
  unfolding ref_from new_entry
  new-Apart k r q j i =
      let c32 : count % 2 ^ 32 ≡ count = omega (arith, fits.1) in
      ap (λ (n : ℕ). in_run start n j) c32 ∙ apart_new j ((v.placed k r q).marked j i)

  -- The table after the block was added.
  ref_at-added :
      (j : Key)
      → ref_at added.ddt j ≡ (if bytes_eq (c.blake3 x) j then some r_new else ref_at p.ddt j)
  unfolding added
  ref_at-added j = ref_at-add p.ddt (c.blake3 x) j entry

  added-Placed :
      w.1 ≡ ok tt → (k : Key) (r : Ref) → ref_at added.ddt k ≡ some r → Placed c bs d added r
  added-Placed done k r q = elim (Bool-cases (bytes_eq (c.blake3 x) k)) [
    | inl s ↦
        let e' : ◌≡◌ {A = Option Ref} (some r_new) (some r) =
          sym (ref_at-added k ∙ rw s refl) ∙ q in
        let same : r_new ≡ r = cc in subst (Placed c bs d added) same (new-Placed done)
    | inr s ↦ (old-Placed k r (sym (ref_at-added k ∙ rw s refl) ∙ q)).0
  ]

  -- Where an entry of the new table comes from.
  origin :
      (k : Key) (r : Ref)
      → ref_at added.ddt k ≡ some r
      → ((bytes_eq (c.blake3 x) k ≡ true) × (r_new ≡ r))
        ⊎ ((bytes_eq (c.blake3 x) k ≡ false) × (ref_at p.ddt k ≡ some r))
  origin k r q = elim (Bool-cases (bytes_eq (c.blake3 x) k)) [
    | inl s ↦
        let e' : ◌≡◌ {A = Option Ref} (some r_new) (some r) =
          sym (ref_at-added k ∙ rw s refl) ∙ q in
        inl (s, cc)
    | inr s ↦ inr (s, sym (ref_at-added k ∙ rw s refl) ∙ q)
  ]

  Apart-new :
      (k : Key) (r : Ref)
      → ref_at p.ddt k ≡ some r
      → (j : ℕ) → run_of r_new j ≡ true
      → run_of r j ≡ false
  Apart-new k r q j i = elim (Bool-cases (run_of r j)) [
    | inl h ↦ cc (new-Apart k r q j h)
    | inr h ↦ h
  ]

  one_key :
      (k k' : Key)
      → bytes_eq k k' ≡ false
      → bytes_eq (c.blake3 x) k ≡ true
      → bytes_eq (c.blake3 x) k' ≡ true
      → ⊥
  one_key k k' n a b =
      let e1 = (bytes_eq_iff (c.blake3 x) k).0 a in
      let e2 = (bytes_eq_iff (c.blake3 x) k').0 b in
      let same : bytes_eq k k' ≡ true = (bytes_eq_iff k k').1 (sym e1 ∙ e2) in cc

  added-Apart :
      (k k' : Key) (r r' : Ref)
      → bytes_eq k k' ≡ false
      → ref_at added.ddt k ≡ some r
      → ref_at added.ddt k' ≡ some r'
      → (j : ℕ) → run_of r j ≡ true
      → run_of r' j ≡ false
  added-Apart k k' r r' n q q' = elim (origin k r q) [
    | inl (a, e1) ↦ elim (origin k' r' q') [
      | inl (b, e2) ↦ absurd (one_key k k' n a b)
      | inr (b, old) ↦
          subst (λ y. (j : ℕ) → run_of y j ≡ true → run_of r' j ≡ false) e1 (Apart-new k' r' old)
    ]
    | inr (a, old1) ↦ elim (origin k' r' q') [
      | inl (b, e2) ↦
          subst (λ y. (j : ℕ) → run_of r j ≡ true → run_of y j ≡ false) e2 (new-Apart k r old1)
      | inr (b, old2) ↦ v.apart k k' r r' n old1 old2
    ]
  ]

  module _ (new : ref_at p.ddt (c.blake3 x) ≡ none) where
    new_none : (k : Key) → bytes_eq (c.blake3 x) k ≡ true → ref_at p.ddt k ≡ none
    new_none k s = ap (ref_at p.ddt) (sym ((bytes_eq_iff (c.blake3 x) k).0 s)) ∙ new

    no_refs : refs_of p.ddt (c.blake3 x) ≡ 0
    no_refs = elim (Option-cases (lookup p.ddt (c.blake3 x))) [
      | inl h ↦ ap refs_in h
      | inr (e', h) ↦
          (let clash : ◌≡◌ {A = Option Ref} (some (ref_from (c.blake3 x) e')) none =
              sym (ap (ref_in (c.blake3 x)) h) ∙ new in
            cc)
    ]

    still : (k : Key) (r : Ref) → ref_at p.ddt k ≡ some r → ref_at added.ddt k ≡ some r
    still k r q = elim (Bool-cases (bytes_eq (c.blake3 x) k)) [
      | inl s ↦ (let clash : ◌≡◌ {A = Option Ref} none (some r) = sym (new_none k s) ∙ q in cc)
      | inr s ↦ ref_at-added k ∙ rw s q
    ]

    stored : w.1 ≡ ok tt → Stored c bs d IsGood p x (added, ok r_new)
    unfolding added
    stored done =
        let (counted, refs) = add_lem p.ddt (c.blake3 x) entry v.counted in
        (
          record {
            good = confined.good;
            safe = safe;
            room = omega (arith, v.room, confined.same_size, got.4);
            pending_fit = subst (All FitsWord) (sym got.5) v.pending_fit;
            counted = counted;
            placed = added-Placed done;
            apart = added-Apart;
          },
          λ k r q. (still k r q, (old-Placed k r q).1),
          ref_at-added (c.blake3 x) ∙ rw ((bytes_eq_iff (c.blake3 x) (c.blake3 x)).1 refl) refl,
          λ k. elim (Bool-cases (bytes_eq (c.blake3 x) k)) [
            | inl s ↦
                let none_before : refs_of p.ddt k ≡ 0 =
                  ap (refs_of p.ddt) (sym ((bytes_eq_iff (c.blake3 x) k).0 s)) ∙ no_refs in
                refs k ∙ rw s (omega arith)
            | inr s ↦ refs k ∙ rw s refl
          ],
          x,
          reads_new done,
          refl,
          λ _. refl,
        )

    by_outcome :
        (o : Result Block.Error (Unit {0}))
        → w.1 ≡ o
        → Stored c bs d IsGood p x (elim o [
          | ok _ ↦ (added, ok r_new)
          | err e' ↦
              (record { dev = w.0; bm = Alloc.free bm start count; ddt = p.ddt }, err (block e'))
        ])
    by_outcome (ok tt) h = stored h
    by_outcome (err e') h = failed e'

    pub fill-Stored :
        Stored c bs d IsGood p x (fill c bs d p (c.blake3 x) x (choose_payload x z) start bm)
    unfolding fill added
    fill-Stored = by_outcome w.1 refl
