-- ===== src/Volume/Owned.antt =====
-- rust/bloomfs-fs/src/lib.rs: the references that inodes hold, and the store behind them.
use bloomfs.Base.{
  ℕ, ◌+◌, ◌^◌, ◌≤◌, ◌<◌, ◌≡◌, refl, ap, sym, subst, ◌∙◌, true, ◌&&◌, Option, none, some, List, [],
  ◌∷◌, ◌++◌, ◌==◌, if◌then◌else◌, Bool-cases, inl, inr, length, Result, ok, err, arith, All,
  All-append,
}
use bloomfs.Base.Assoc.{bytes_eq, bytes_eq_iff}
use bloomfs.Block.{Device, MayFail}
use bloomfs.Dedup.{Key, Table}
use bloomfs.Dedup.RefCounts.{refs_of}
use bloomfs.Store.{Crates, BlockStore, Ref, Error, Pool, read, write, release}
use bloomfs.Store.Sectors.{IsSound}
use bloomfs.Store.Invariant.{ref_at, IsConsistent}
use bloomfs.Store.Stored.{Stored, Keeps}
use bloomfs.Store.Write.{write-Stored}
use bloomfs.Store.Release.{release-Released}
use bloomfs.Store.Refs.{IsEncodable}
use bloomfs.Store.Effects.{AllEncodable, Effects, write-Effects}

-- How many of the references have the key.
unfoldable pub owed : Key → List Ref → ℕ
owed k [] = 0
owed k (r ∷ rs) = (if bytes_eq r.hash k then 1 else 0) + owed k rs

pub owed-append : (k : Key) (xs ys : List Ref) → owed k (xs ++ ys) ≡ owed k xs + owed k ys
unfolding owed
owed-append k [] ys = omega arith
owed-append k (x ∷ xs) ys = omega (arith, owed-append k xs ys)

All-left : (P : Ref → Type 0) (xs ys : List Ref) → All P (xs ++ ys) → All P xs
All-left P [] ys h = tt
All-left P (x ∷ xs) ys h = (h.0, All-left P xs ys h.1)

All-right : (P : Ref → Type 0) (xs ys : List Ref) → All P (xs ++ ys) → All P ys
All-right P [] ys h = h
All-right P (x ∷ xs) ys h = All-right P xs ys h.1

All-map : (P Q : Ref → Type 0) (xs : List Ref) → ((r : Ref) → P r → Q r) → All P xs → All Q xs
All-map P Q [] f h = tt
All-map P Q (x ∷ xs) f h = (f x h.0, All-map P Q xs f h.1)

All-zip :
    (P Q R : Ref → Type 0) (xs : List Ref)
    → ((r : Ref) → P r → Q r → R r)
    → All P xs
    → All Q xs
    → All R xs
All-zip P Q R [] f h k = tt
All-zip P Q R (x ∷ xs) f h k = (f x h.0 k.0, All-zip P Q R xs f h.1 k.1)

owed_self : (rs : List Ref) → All (λ r. 1 ≤ owed r.hash rs) rs
unfolding owed
owed_self [] = tt
owed_self (r ∷ rs) =
    let here : bytes_eq r.hash r.hash ≡ true = (bytes_eq_iff r.hash r.hash).1 refl in
    (
      ground (arith, here),
      All-map (λ q. 1 ≤ owed q.hash rs) (λ q. 1 ≤ owed q.hash (r ∷ rs)) rs (λ q l. omega (arith, l))
          (owed_self rs),
    )

-- The references are those of the table, and the table counts at least as many of each.
pub record Counts (t : Table) (rs : List Ref) : Type 0 where
  pub live : All (λ r. ref_at t r.hash ≡ some r) rs
  pub enough : (k : Key) → owed k rs ≤ refs_of t k

pub Counts-swap :
    (t : Table) (a b rest : List Ref) → Counts t (a ++ (b ++ rest)) → Counts t (b ++ (a ++ rest))
Counts-swap t a b rest h =
    let P = λ (r : Ref). ref_at t r.hash ≡ some r in
    let tail = All-right P a (b ++ rest) h.live in
    record {
      live =
          All-append P b (a ++ rest) (All-left P b rest tail)
            (All-append P a rest (All-left P a (b ++ rest) h.live) (All-right P b rest tail));
      enough = λ k. omega (
        arith,
        h.enough k,
        owed-append k a (b ++ rest),
        owed-append k b rest,
        owed-append k b (a ++ rest),
        owed-append k a rest,
      );
    }

module _ (c : Crates) (bs : BlockStore) (d : Device) (IsGood : d.State → Type 0) where
  -- A consistent store that backs the references.
  pub record Backs (p : Pool d) (rs : List Ref) : Type 0 where
    pub consistent : IsConsistent c bs d IsGood p
    pub encodable : AllEncodable p.ddt
    pub counts : Counts p.ddt rs

  -- The references read what they read.
  abbrev pub SameReads : Pool d → Pool d → List Ref → Type 0
  SameReads p p' rs = All (λ r. read c bs d p'.dev r ≡ read c bs d p.dev r) rs

  Keeps-SameReads :
      (p p' : Pool d) (rs : List Ref)
      → Counts p.ddt rs
      → Keeps c bs d IsGood p p'
      → SameReads p p' rs
  Keeps-SameReads p p' rs h k =
      All-map (λ r. ref_at p.ddt r.hash ≡ some r) (λ r. read c bs d p'.dev r ≡ read c bs d p.dev r)
        rs (λ r q. (k r.hash r q).1) h.live

  pub SameReads-trans :
      (p p' p'' : Pool d) (rs : List Ref)
      → SameReads p p' rs
      → SameReads p' p'' rs
      → SameReads p p'' rs
  SameReads-trans p p' p'' rs h k =
      All-zip (λ r. read c bs d p'.dev r ≡ read c bs d p.dev r)
        (λ r. read c bs d p''.dev r ≡ read c bs d p'.dev r)
        (λ r. read c bs d p''.dev r ≡ read c bs d p.dev r) rs (λ r a b. b ∙ a) h k

  pub SameReads-dev : (p p' : Pool d) (rs : List Ref) → p'.dev ≡ p.dev → SameReads p p' rs
  SameReads-dev p p' [] e = tt
  SameReads-dev p p' (r ∷ rs) e = (ap (λ s. read c bs d s r) e, SameReads-dev p p' rs e)

  pub SameReads-right :
      (p p' : Pool d) (xs ys : List Ref) → SameReads p p' (xs ++ ys) → SameReads p p' ys
  SameReads-right p p' xs ys h = All-right (λ r. read c bs d p'.dev r ≡ read c bs d p.dev r) xs ys h

  pub SameReads-left :
      (p p' : Pool d) (xs ys : List Ref) → SameReads p p' (xs ++ ys) → SameReads p p' xs
  SameReads-left p p' xs ys h = All-left (λ r. read c bs d p'.dev r ≡ read c bs d p.dev r) xs ys h

  pub Backs-swap :
      (p : Pool d) (a b rest : List Ref) → Backs p (a ++ (b ++ rest)) → Backs p (b ++ (a ++ rest))
  Backs-swap p a b rest h = record {
    consistent = h.consistent;
    encodable = h.encodable;
    counts = Counts-swap p.ddt a b rest h.counts;
  }

  -- Fewer references are backed as well.
  pub Backs-right : (p : Pool d) (a rest : List Ref) → Backs p (a ++ rest) → Backs p rest
  Backs-right p a rest h = record {
    consistent = h.consistent;
    encodable = h.encodable;
    counts = record {
      live = All-right (λ r. ref_at p.ddt r.hash ≡ some r) a rest h.counts.live;
      enough = λ k. omega (arith, h.counts.enough k, owed-append k a rest);
    };
  }

  pub Backs-IsEncodable : (p : Pool d) (a rest : List Ref) → Backs p (a ++ rest) → All IsEncodable a
  Backs-IsEncodable p a rest h =
      All-map (λ r. ref_at p.ddt r.hash ≡ some r) IsEncodable a (λ r e. h.encodable r.hash r e)
        (All-left (λ r. ref_at p.ddt r.hash ≡ some r) a rest h.counts.live)

  -- No other block has the hash of this one.
  abbrev pub IsUnique : List ℕ → Type 0
  IsUnique x = (y : List ℕ) → c.blake3 y ≡ c.blake3 x → y ≡ x

  -- What a `write` does for the references that the store backs.
  abbrev pub Wrote : Pool d → List Ref → List ℕ → Pool d × Result Error Ref → Type 0
  Wrote p rs x (p', ok r) =
      Backs p' (r ∷ rs)
      × SameReads p p' rs
      × (read c bs d p'.dev r ≡ ok x)
      × (p'.bm.deferred ≡ p.bm.deferred)
      × ((k : Key) → refs_of p'.ddt k ≤ refs_of p.ddt k + 1)
  Wrote p rs x (p', err e) = Backs p' rs × SameReads p p' rs × (p'.bm.deferred ≡ p.bm.deferred)

  module _ (sound : IsSound c) (IsTorn : List ℕ → Type 0) (lp : MayFail d IsGood IsTorn) where
    stored-Wrote :
        (p : Pool d) (rs : List Ref) (x : List ℕ) (o : Pool d × Result Error Ref)
        → Backs p rs
        → IsUnique x
        → Stored c bs d IsGood p x o
        → Effects c bs d p x o
        → Wrote p rs x o
    unfolding owed
    stored-Wrote p rs x (p', err e) h u s f = (
      record {
        consistent = s.0;
        encodable = subst AllEncodable (sym s.2) h.encodable;
        counts = subst (λ t. Counts t rs) (sym s.2) h.counts;
      },
      Keeps-SameReads p p' rs h.counts s.1,
      f,
    )
    stored-Wrote p rs x (p', ok r) h u (ok_pool, keeps, at, refs, y, reads, same, only)
          (quiet, named, table, fits) =
        (
          record {
            consistent = ok_pool;
            encodable = λ k q e. elim (Bool-cases (bytes_eq (c.blake3 x) k)) [
              | inl b ↦
                  (let e' : ◌≡◌ {A = Option Ref} (some r) (some q) =
                      sym (table k ∙ rw b refl) ∙ e in
                    let is : r ≡ q = cc in subst IsEncodable is (fits h.encodable))
              | inr b ↦ h.encodable k q (sym (table k ∙ rw b refl) ∙ e)
            ];
            counts = record {
              live = (
                ap (ref_at p'.ddt) named ∙ at,
                All-map (λ q. ref_at p.ddt q.hash ≡ some q) (λ q. ref_at p'.ddt q.hash ≡ some q) rs
                    (λ q e. (keeps q.hash q e).0) h.counts.live,
              );
              enough = λ k. ground (arith, h.counts.enough k, refs k, ap (λ n. bytes_eq n k) named);
            };
          },
          Keeps-SameReads p p' rs h.counts keeps,
          reads ∙ ap ok (u y same),
          quiet,
          λ k. ground (arith, refs k),
        )

    -- Over a store that backs references, with room in the count of a block that no other block shares
    -- its hash with: `write` backs one reference more, which reads the block; the others read what they
    -- read, also where it fails, and then the store backs what it backed.
    pub write-Wrote :
        (p : Pool d) (rs : List Ref) (x : List ℕ)
        → Backs p rs
        → IsUnique x
        → length x < 2 ^ 32
        → refs_of p.ddt (c.blake3 x) + 1 < 2 ^ 32
        → Wrote p rs x (write c bs d p x)
    write-Wrote p rs x h u small room =
        stored-Wrote p rs x (write c bs d p x) h u
          (write-Stored c bs d IsGood sound IsTorn lp p h.consistent x small room)
          (write-Effects c bs d sound p h.consistent.safe.valid x)

  -- `release` of a backed reference: the others stay backed, and read what they read.
  pub release-Backs :
      (p : Pool d) (r : Ref) (rs : List Ref)
      → Backs p (r ∷ rs)
      → Backs (release p r) rs × ((release p r).dev ≡ p.dev)
  unfolding owed
  release-Backs p r rs h =
      let (ok_pool, table, refs, dev, bits, _) = release-Released c bs d IsGood p h.consistent r in
      let gone = λ (k : Key). bytes_eq r.hash k && refs_of p.ddt r.hash == 1 in
      (
        record {
          consistent = ok_pool;
          encodable = λ k q e. elim (Bool-cases (gone k)) [
            | inl b ↦
                (let clash : ◌≡◌ {A = Option Ref} none (some q) = sym (table k ∙ rw b refl) ∙ e in
                  cc)
            | inr b ↦ h.encodable k q (sym (table k ∙ rw b refl) ∙ e)
          ];
          counts = record {
            live =
                All-zip (λ q. ref_at p.ddt q.hash ≡ some q) (λ q. 1 ≤ owed q.hash rs)
                  (λ q. ref_at (release p r).ddt q.hash ≡ some q) rs
                  (λ q e l. table q.hash ∙ elim (Bool-cases (gone q.hash)) [
                    | inr b ↦ rw b e
                    | inl b ↦
                        (let key : bytes_eq r.hash q.hash ≡ true = ground arith in
                          let one : refs_of p.ddt r.hash ≡ 1 = ground arith in
                          let as_many : refs_of p.ddt q.hash ≡ 1 =
                            ap (refs_of p.ddt) (sym ((bytes_eq_iff r.hash q.hash).0 key)) ∙ one in
                          absurd (ground (arith, h.counts.enough q.hash)))
                  ])
                  h.counts.live.1 (owed_self rs);
            enough = λ k. ground (arith, h.counts.enough k, refs k);
          };
        },
        dev,
      )
