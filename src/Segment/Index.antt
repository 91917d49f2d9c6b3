-- ===== src/Segment/Index.antt =====
-- rust/bloomfs-dir/src/lib.rs: the index of a segment, chains under the hashes of their names.
use bloomfs.Base.{
  ℕ, ◌+◌, ◌≡◌, ◌≢◌, refl, sym, ◌∙◌, true, Option, none, some, List, [], ◌∷◌, ◌++◌, ◌==◌, ==_iff,
  subst, if◌then◌else◌, length, length-append, All, Bool-cases, Option-cases, inl, inr, arith,
}
use bloomfs.Base.Assoc.{
  ℕ_keyed, bytes_keyed, bytes_eq_iff, lookup, insert, remove, NoRepeat, lookup-insert,
  lookup-remove, insert-NoRepeat, remove-NoRepeat,
}
use bloomfs.Segment.{InodeId, Chain, chain_at, seg_entries}

pub chain_at-insert :
    (h g : ℕ) (c : Chain) (m : List (ℕ × Chain))
    → chain_at g (insert h c m) ≡ (if h == g then c else chain_at g m)
unfolding chain_at
chain_at-insert h g c m = rw (chain_at, lookup-insert h g c m) (ground arith)

pub chain_at-remove :
    (h g : ℕ) (m : List (ℕ × Chain))
    → chain_at g (remove h m) ≡ (if h == g then [] else chain_at g m)
unfolding chain_at
chain_at-remove h g m = rw (chain_at, lookup-remove h g m) (ground arith)

-- The four operations on an index with a first chain, when its hash is the one sought and when not.
record FirstChain (h g : ℕ) (c d : Chain) (m : List (ℕ × Chain)) : Type 0 where
  inserted : insert h c ((g, d) ∷ m) ≡ (if g == h then (h, c) ∷ m else (g, d) ∷ insert h c m)
  gone : remove h ((g, d) ∷ m) ≡ (if g == h then remove h m else (g, d) ∷ remove h m)
  found : chain_at h ((g, d) ∷ m) ≡ (if g == h then d else chain_at h m)

first_chain : (h g : ℕ) (c d : Chain) (m : List (ℕ × Chain)) → FirstChain h g c d m
unfolding insert remove lookup chain_at
first_chain h g c d m = record { inserted = refl; gone = refl; found = ground arith }

length-insert_nil :
    (h : ℕ) (c : Chain) → length (seg_entries (insert h c [])) + length (chain_at h []) ≡ length c
unfolding insert lookup chain_at seg_entries
length-insert_nil h c = omega (arith, length-append c [])

length-remove_nil : (h : ℕ) → length (seg_entries (remove h [])) + length (chain_at h []) ≡ 0
unfolding remove lookup chain_at seg_entries
length-remove_nil h = refl

pub length-insert :
    (h : ℕ) (c : Chain) (m : List (ℕ × Chain))
    → length (seg_entries (insert h c m)) + length (chain_at h m)
      ≡ length (seg_entries m) + length c
unfolding seg_entries
length-insert h c [] = omega (arith, length-insert_nil h c)
length-insert h c ((g, d) ∷ m) =
    let f = first_chain h g c d m in
    elim (Bool-cases (g == h)) [
      | inl e ↦
          rw (f.inserted, f.found, e)
            (omega (arith, length-append c (seg_entries m), length-append d (seg_entries m)))
      | inr e ↦
          rw (f.inserted, f.found, e)
            (omega (
              arith,
              length-append d (seg_entries (insert h c m)),
              length-append d (seg_entries m),
              length-insert h c m,
            ))
    ]

remove_absent : (h : ℕ) (m : List (ℕ × Chain)) → lookup h m ≡ none → remove h m ≡ m
unfolding lookup remove
remove_absent h [] e = refl
remove_absent h ((g, d) ∷ m) e = ground (arith, remove_absent h m)

pub length-remove :
    (h : ℕ) (m : List (ℕ × Chain))
    → NoRepeat m
    → length (seg_entries (remove h m)) + length (chain_at h m) ≡ length (seg_entries m)
unfolding seg_entries
length-remove h [] u = length-remove_nil h
length-remove h ((g, d) ∷ m) u =
    let f = first_chain h g d d m in
    elim (Bool-cases (g == h)) [
      | inl e ↦
          let k : g ≡ h = (==_iff g h).0 e in
          rw (f.gone, f.found, e, remove_absent h m (subst (λ (t : ℕ). lookup t m ≡ none) k u.0))
            (omega (arith, length-append d (seg_entries m)))
      | inr e ↦
          rw (f.gone, f.found, e)
            (omega (
              arith,
              length-append d (seg_entries (remove h m)),
              length-append d (seg_entries m),
              length-remove h m u.1,
            ))
    ]

pub chain_absent : (h : ℕ) (m : List (ℕ × Chain)) → lookup h m ≡ none → chain_at h m ≡ []
unfolding chain_at
chain_absent h m e = rw (chain_at, e) refl

pub chain_present :
    (h : ℕ) (m : List (ℕ × Chain)) (c : Chain) → lookup h m ≡ some c → chain_at h m ≡ c
unfolding chain_at
chain_present h m c e = rw (chain_at, e) refl

pub nil_lookup : (n : List ℕ) → lookup {V = InodeId} n [] ≡ none
unfolding lookup
nil_lookup n = refl

pub append_found :
    (n : List ℕ) (c d : Chain) (i : InodeId) → lookup n c ≡ some i → lookup n (c ++ d) ≡ some i
unfolding lookup
append_found n [] d i e = cc
append_found n ((k, j) ∷ c) d i e = ground (arith, append_found n c d i)

pub append_absent : (n : List ℕ) (c d : Chain) → lookup n c ≡ none → lookup n (c ++ d) ≡ lookup n d
unfolding lookup
append_absent n [] d e = refl
append_absent n ((k, j) ∷ c) d e = ground (arith, append_absent n c d)

pub append-NoRepeat :
    (c d : Chain)
    → NoRepeat c
    → NoRepeat d
    → ((n : List ℕ) → lookup n c ≢ none → lookup n d ≡ none)
    → NoRepeat (c ++ d)
unfolding lookup
append-NoRepeat [] d u v a = v
append-NoRepeat ((k, i) ∷ c) d u v a =
    let fresh : lookup k d ≡ none = a k (ground (arith, bytes_eq_iff k k)) in
    (
      append_absent k c d u.0 ∙ fresh,
      append-NoRepeat c d u.1 v (λ n f. a n (ground (arith, bytes_eq_iff k n))),
    )

module _ (hash : List ℕ → ℕ) where
  pub record IsChain (h : ℕ) (c : Chain) : Type 0 where
    pub unique : NoRepeat c
    pub hashed : (n : List ℕ) → lookup n c ≢ none → hash n ≡ h

  pub record IsIndex (m : List (ℕ × Chain)) : Type 0 where
    pub keys : NoRepeat m
    pub chains : All (λ (e : ℕ × Chain). IsChain e.0 e.1) m

  -- The map that an index stands for.
  abbrev pub view : List (ℕ × Chain) → List ℕ → Option ℕ
  view m n = lookup n (chain_at (hash n) m)

  All-insert :
      (h : ℕ) (c : Chain) (m : List (ℕ × Chain))
      → IsChain h c
      → All (λ (e : ℕ × Chain). IsChain e.0 e.1) m
      → All (λ (e : ℕ × Chain). IsChain e.0 e.1) (insert h c m)
  unfolding insert
  All-insert h c [] p q = (p, tt)
  All-insert h c ((g, d) ∷ m) p q = elim (Bool-cases (g == h)) [
    | inl e ↦ rw e (p, q.1)
    | inr e ↦ rw e (q.0, All-insert h c m p q.1)
  ]

  All-remove :
      (h : ℕ) (m : List (ℕ × Chain))
      → All (λ (e : ℕ × Chain). IsChain e.0 e.1) m
      → All (λ (e : ℕ × Chain). IsChain e.0 e.1) (remove h m)
  unfolding remove
  All-remove h [] q = tt
  All-remove h ((g, d) ∷ m) q = elim (Bool-cases (g == h)) [
    | inl e ↦ rw e (All-remove h m q.1)
    | inr e ↦ rw e (q.0, All-remove h m q.1)
  ]

  pub insert-IsIndex :
      (h : ℕ) (c : Chain) (m : List (ℕ × Chain)) → IsChain h c → IsIndex m → IsIndex (insert h c m)
  insert-IsIndex h c m p x = record {
    keys = insert-NoRepeat h c m x.keys;
    chains = All-insert h c m p x.chains;
  }

  pub remove-IsIndex : (h : ℕ) (m : List (ℕ × Chain)) → IsIndex m → IsIndex (remove h m)
  remove-IsIndex h m x = record {
    keys = remove-NoRepeat h m x.keys;
    chains = All-remove h m x.chains;
  }

  pub nil-IsChain : (h : ℕ) → IsChain h []
  unfolding lookup
  nil-IsChain h = record { unique = tt; hashed = λ n f. absurd (f refl) }

  chain_at_nil-IsChain : (h : ℕ) → IsChain h (chain_at h [])
  unfolding chain_at lookup
  chain_at_nil-IsChain h = nil-IsChain h

  pub chain_at-IsChain : (h : ℕ) (m : List (ℕ × Chain)) → IsIndex m → IsChain h (chain_at h m)
  chain_at-IsChain h [] x = chain_at_nil-IsChain h
  chain_at-IsChain h ((g, d) ∷ m) x =
      let f = first_chain h g d d m in
      elim (Bool-cases (g == h)) [
        | inl e ↦
            let k : g ≡ h = (==_iff g h).0 e in
            rw (f.found, e) (subst (λ (t : ℕ). IsChain t d) k x.chains.0)
        | inr e ↦
            rw (f.found, e) (chain_at-IsChain h m (record { keys = x.keys.1; chains = x.chains.1 }))
      ]

  nil_view : (n : List ℕ) → lookup {V = InodeId} n [] ≡ view [] n
  unfolding lookup chain_at
  nil_view n = refl

  -- A name of the first chain stands nowhere behind it.
  apart :
      (h : ℕ) (c : Chain) (m : List (ℕ × Chain)) (n : List ℕ)
      → IsChain h c
      → lookup h m ≡ none
      → lookup n c ≢ none
      → view m n ≡ none
  unfolding lookup
  apart h c m n x fresh f = rw (x.hashed n f, chain_absent h m fresh) refl

  first_lookup :
      (h : ℕ) (c : Chain) (m : List (ℕ × Chain)) (n : List ℕ)
      → IsChain h c
      → lookup h m ≡ none
      → lookup n (seg_entries m) ≡ view m n
      → lookup n (c ++ seg_entries m) ≡ view ((h, c) ∷ m) n
  first_lookup h c m n x fresh e =
      let f = first_chain (hash n) h c c m in
      elim (Option-cases (lookup n c)) [
        | inl none_here ↦
            let rest = append_absent n c (seg_entries m) none_here ∙ e in
            elim (Bool-cases (h == hash n)) [
              | inl b ↦
                  let k : h ≡ hash n = (==_iff h (hash n)).0 b in
                  let gone = chain_absent h m fresh in
                  rw (f.found, b, none_here) (rest ∙ rw (← k, gone) (nil_lookup n))
              | inr b ↦ rw (f.found, b) rest
            ]
        | inr (i, here) ↦
            let k : hash n ≡ h = x.hashed n (rw here (λ q. cc)) in
            let b : (h == hash n) ≡ true = (==_iff h (hash n)).1 (sym k) in
            rw (f.found, b, here) (append_found n c (seg_entries m) i here)
      ]

  -- The pairs of an index are its map, each name once.
  pub seg_entries_lem :
      (m : List (ℕ × Chain))
      → IsIndex m
      → ((n : List ℕ) → lookup n (seg_entries m) ≡ view m n) × NoRepeat (seg_entries m)
  unfolding seg_entries
  seg_entries_lem [] x = (λ n. nil_view n, tt)
  seg_entries_lem ((h, c) ∷ m) x =
      let (same, once) = seg_entries_lem m (record { keys = x.keys.1; chains = x.chains.1 }) in
      (
        λ n. first_lookup h c m n x.chains.0 x.keys.0 (same n),
        append-NoRepeat c (seg_entries m) x.chains.0.unique once
            (λ n f. same n ∙ apart h c m n x.chains.0 x.keys.0 f),
      )
