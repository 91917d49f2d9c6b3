-- ===== src/Volume/Subtree/Named.antt =====
-- rust/bloomfs-fs/src/lib.rs: the directories that the entries of a directory name, and the stack of
-- the walk through a subtree.
use bloomfs.Base.{
  ℕ, ◌≡◌, refl, ap, sym, subst, ◌∙◌, Bool, true, List, [], ◌∷◌, ◌⊎◌, inl, inr, ◌==◌, if◌then◌else◌,
  ◌++◌, Result, ok, ◌>>=◌, Result-cases, bind-ok, Bool-cases, ==_iff,
}
use bloomfs.Block.{Device}
use bloomfs.Inode.{Inode, type_dir}
use bloomfs.Segment.{DirEntry}
use bloomfs.Fs.{Error}
use bloomfs.Volume.{Volume, get_inode}
use bloomfs.Volume.Pages.{Externals, read_dir_pages}
use bloomfs.Volume.Subtree.{push_dirs}

abbrev pub Member : ℕ → List ℕ → Type 0
Member id [] = ⊥
Member id (j ∷ js) = (id ≡ j) ⊎ Member id js

abbrev pub Listed : ℕ → List DirEntry → Type 0
Listed id [] = ⊥
Listed id ((name, j) ∷ es) = (id ≡ j) ⊎ Listed id es

module _ {d : Device} (v : Volume d) (x : Externals) where
  -- The subdirectories of a directory, as the walk pushes them on an empty stack.
  pub record IsParent (dir : ℕ) (children : List ℕ) : Type 0 where
    pub entries : List DirEntry
    pub pages : read_dir_pages x v dir ≡ ok entries
    pub dirs : push_dirs v entries [] ≡ ok children

  -- An entry of the directory names a directory.
  pub record IsChild (dir child : ℕ) : Type 0 where
    pub entries : List DirEntry
    pub pages : read_dir_pages x v dir ≡ ok entries
    pub listed : Listed child entries
    pub child_inode : Inode
    pub found : get_inode v child ≡ ok child_inode
    pub is_dir : child_inode.kind ≡ type_dir

  -- The directory `target` can be reached from `dir` through entries of directories.
  pub data Below (target : ℕ) : ℕ → Type 0 where
    here : Below target target
    down : (dir child : ℕ) → IsChild dir child → Below target child → Below target dir

pub Member-append : (id : ℕ) (xs ys : List ℕ) → Member id (xs ++ ys) → Member id xs ⊎ Member id ys
Member-append id [] ys m = inr m
Member-append id (x ∷ xs) ys (inl e) = inl (inl e)
Member-append id (x ∷ xs) ys (inr m) = elim (Member-append id xs ys m) [
  | inl h ↦ inl (inr h)
  | inr h ↦ inr h
]

pub Member-left : (id : ℕ) (xs ys : List ℕ) → Member id xs → Member id (xs ++ ys)
Member-left id [] ys m = absurd m
Member-left id (x ∷ xs) ys (inl e) = inl e
Member-left id (x ∷ xs) ys (inr m) = inr (Member-left id xs ys m)

pub Member-right : (id : ℕ) (xs ys : List ℕ) → Member id ys → Member id (xs ++ ys)
Member-right id [] ys m = m
Member-right id (x ∷ xs) ys m = inr (Member-right id xs ys m)

module _ {d : Device} (v : Volume d) where
  pub push_dirs-append :
      (es : List DirEntry) (a b : List ℕ)
      → push_dirs v es (a ++ b) ≡ (push_dirs v es a >>= λ cs. ok (cs ++ b))
  unfolding push_dirs
  push_dirs-append [] a b = refl
  push_dirs-append ((name, id) ∷ es) a b = elim (Result-cases (get_inode v id)) [
    | inl (i, h) ↦ elim (Bool-cases (i.kind == type_dir)) [
      | inl k ↦ rw (h, k) (push_dirs-append es (id ∷ a) b)
      | inr k ↦ rw (h, k) (push_dirs-append es a b)
    ]
    | inr (e, h) ↦ rw h refl
  ]

  -- A directory that is named by one of the entries.
  abbrev Named : ℕ → List DirEntry → Type 0
  Named id es = Listed id es × (i : Inode) × (get_inode v id ≡ ok i) × (i.kind ≡ type_dir)

  -- The stack behind one entry.
  pushed : Inode → ℕ → List ℕ → List ℕ
  pushed i j stack = if i.kind == type_dir then j ∷ stack else stack

  pushed-Member :
      (i : Inode) (id j : ℕ) (stack : List ℕ) → Member id stack → Member id (pushed i j stack)
  unfolding pushed
  pushed-Member i id j stack m = elim (Bool-cases (i.kind == type_dir)) [
    | inl k ↦ rw k (inr m)
    | inr k ↦ rw k m
  ]

  Member-pushed :
      (i : Inode) (id j : ℕ) (stack : List ℕ)
      → Member id (pushed i j stack)
      → Member id stack ⊎ ((id ≡ j) × (i.kind ≡ type_dir))
  unfolding pushed
  Member-pushed i id j stack m = elim (Bool-cases (i.kind == type_dir)) [
    | inl k ↦ elim (subst (λ (b : Bool). Member id (if b then j ∷ stack else stack)) k m) [
      | inl e ↦ inr (e, (==_iff i.kind type_dir).0 k)
      | inr m' ↦ inl m'
    ]
    | inr k ↦ inl (subst (λ (b : Bool). Member id (if b then j ∷ stack else stack)) k m)
  ]

  push_dirs-Named :
      (es : List DirEntry) (stack s : List ℕ) (id : ℕ)
      → push_dirs v es stack ≡ ok s
      → Member id s
      → Member id stack ⊎ Named id es
  unfolding push_dirs
  push_dirs-Named [] stack s id h m =
      let e : ◌≡◌ {A = Result Error (List ℕ)} (ok stack) (ok s) = h in
      let same : s ≡ stack = cc in inl (subst (Member id) same m)
  push_dirs-Named ((name, j) ∷ es) stack s id h m =
      let (i, found, rest) =
        bind-ok (get_inode v j)
          (λ i. push_dirs v es (if i.kind == type_dir then j ∷ stack else stack)) s h in
      elim (push_dirs-Named es (pushed i j stack) s id (unfold pushed in rest) m) [
        | inr (l, i', found', dir) ↦ inr (inr l, i', found', dir)
        | inl k ↦ elim (Member-pushed i id j stack k) [
          | inl old ↦ inl old
          | inr (e, dir) ↦
              inr (inl e, i, subst (λ (n : ℕ). get_inode v n ≡ ok i) (sym e) found, dir)
        ]
      ]

  -- What was on the stack or is named stays so, behind the first entry.
  entered :
      (i : Inode) (j : ℕ) (stack : List ℕ) (id : ℕ) (es : List DirEntry) (name : List ℕ)
      → get_inode v j ≡ ok i
      → Member id stack ⊎ Named id ((name, j) ∷ es)
      → Member id (pushed i j stack) ⊎ Named id es
  unfolding pushed
  entered i j stack id es name found (inl m) = inl (pushed-Member i id j stack m)
  entered i j stack id es name found (inr (inr l, i', found', dir)) = inr (l, i', found', dir)
  entered i j stack id es name found (inr (inl e, i', found', dir)) =
      let same : ◌≡◌ {A = Result Error Inode} (ok i) (ok i') =
        sym found ∙ ap (get_inode v) (sym e) ∙ found' in
      let at : i ≡ i' = cc in
      let k : (i.kind == type_dir) ≡ true =
        (==_iff i.kind type_dir).1 (ap (λ (q : Inode). q.kind) at ∙ dir) in
      inl (subst (λ (b : Bool). Member id (if b then j ∷ stack else stack)) (sym k) (inl e))

  Named-push_dirs :
      (es : List DirEntry) (stack s : List ℕ) (id : ℕ)
      → push_dirs v es stack ≡ ok s
      → Member id stack ⊎ Named id es
      → Member id s
  unfolding push_dirs
  Named-push_dirs [] stack s id h (inl m) =
      let e : ◌≡◌ {A = Result Error (List ℕ)} (ok stack) (ok s) = h in
      let same : stack ≡ s = cc in subst (Member id) same m
  Named-push_dirs [] stack s id h (inr n) = absurd n.0
  Named-push_dirs ((name, j) ∷ es) stack s id h m =
      let (i, found, rest) =
        bind-ok (get_inode v j)
          (λ i. push_dirs v es (if i.kind == type_dir then j ∷ stack else stack)) s h in
      Named-push_dirs es (pushed i j stack) s id (unfold pushed in rest)
        (entered i j stack id es name found m)

  module _ (x : Externals) where
    pub Member-IsChild :
        (dir child : ℕ) (cs : List ℕ)
        → IsParent v x dir cs
        → Member child cs
        → IsChild v x dir child
    Member-IsChild dir child cs p m = elim (push_dirs-Named p.entries [] cs child p.dirs m) [
      | inl none_there ↦ absurd none_there
      | inr (l, i, found, is_dir) ↦ record {
        entries = p.entries;
        pages = p.pages;
        listed = l;
        child_inode = i;
        found = found;
        is_dir = is_dir;
      }
    ]

    pub IsChild-Member :
        (dir child : ℕ) (cs : List ℕ)
        → IsParent v x dir cs
        → IsChild v x dir child
        → Member child cs
    IsChild-Member dir child cs p c =
        let e : ◌≡◌ {A = Result Error (List DirEntry)} (ok c.entries) (ok p.entries) =
          sym c.pages ∙ p.pages in
        let same : c.entries ≡ p.entries = cc in
        Named-push_dirs p.entries [] cs child p.dirs
          (inr (subst (Listed child) same c.listed, c.child_inode, c.found, c.is_dir))
