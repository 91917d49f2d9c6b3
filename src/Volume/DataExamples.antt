-- ===== src/Volume/DataExamples.antt =====
-- An example for the replacement of a file's contents, on a device of six blocks.
use bloomfs.Base.{
  ℕ, suc, ◌≡◌, refl, ap, sym, ◌∙◌, Option, none, some, List, [], ◌∷◌, if◌then◌else◌, length,
  replicate, Bool-cases, Result-cases, inl, inr, Result, ok, err, arith,
}
use bloomfs.Base.Assoc
use bloomfs.Base.Assoc.{bytes_eq, bytes_eq_iff}
use bloomfs.Block.Memory as Memory
use bloomfs.Block.Memory.{mem_device, IsWhole, new-IsWhole}
use bloomfs.Block.Flaky.{mem_device-MayFail, torn}
use bloomfs.Alloc
use bloomfs.Alloc.Invariant
use bloomfs.Dedup
use bloomfs.Dedup.RefCounts.{refs_of}
use bloomfs.Inode.{Inode}
use bloomfs.Store.{Crates, Ref}
use bloomfs.Store.Sectors.{IsSound}
use bloomfs.Store.Invariant.{ref_at, IsConsistent, empty-IsConsistent}
use bloomfs.Fs.{Error, record_size_for, split_records, split_loop}
use bloomfs.Volume.{Volume, and_then, pool_of, bs_write}
use bloomfs.Volume.Update.{cut, write_all, set_data}
use bloomfs.Volume.Namespace.{new_child}
use bloomfs.Volume.Owned.{owed}
use bloomfs.Volume.Records.{Backed}
use bloomfs.Volume.Replace.{Owns}
use bloomfs.Volume.SetData.{Replaced, IsMapFit, set_data-Replaced}
use bloomfs.Volume.Examples.{uber}

abbrev two_bytes : List ℕ
two_bytes = 5 ∷ 6 ∷ []

-- The block of the example has a digest of its own.
abbrev digest : List ℕ → List ℕ
digest x = if bytes_eq x two_bytes then replicate 32 1 else replicate 32 0

abbrev toy : Crates
toy = record {
  blake3 = digest;
  encode_all = λ x. some x;
  decode_all = λ x. some x;
  encrypt_sector = λ k tweak x. x;
  decrypt_sector = λ k tweak x. x;
}

length-digest : (x : List ℕ) → length (digest x) ≡ 32
length-digest x = elim (Bool-cases (bytes_eq x two_bytes)) [ inl h ↦ rw h refl | inr h ↦ rw h refl ]

toy-IsSound : IsSound toy
toy-IsSound = record {
  digest = length-digest;
  inflates = λ x z h. sym h;
  deciphers = λ k tweak x. refl;
  keeps_length = λ k tweak x. refl;
}

two_bytes_unique : (y : List ℕ) → digest y ≡ digest two_bytes → y ≡ two_bytes
two_bytes_unique y h = elim (Bool-cases (bytes_eq y two_bytes)) [
  | inl e ↦ (bytes_eq_iff y two_bytes).0 e
  | inr n ↦ (let e : ◌≡◌ {A = List ℕ} (replicate 32 0) (replicate 32 1) = sym (rw n refl) ∙ h in cc)
]

abbrev file : Inode
file = new_child 0 420 0 0

abbrev volume : Volume mem_device
volume = record {
  dev = Memory.new 6;
  ub = uber;
  bm = Alloc.new 6;
  ddt = Dedup.new;
  inodes = record { inodes = file ∷ []; count = 1 };
  bs = record { cipher = none };
  open_count = [];
  free_inodes = [];
  clock = λ n. n;
  reads = 0;
  meta_buf = [];
  dir_cache = none;
}

no_entry : (k : List ℕ) (r : Ref) → ref_at Dedup.new k ≡ some r → ⊥
unfolding Dedup.lookup Dedup.new Assoc.lookup
no_entry k r h = (let clash : ◌≡◌ {A = Option Ref} none (some r) = h in cc)

volume-IsConsistent : IsConsistent toy volume.bs mem_device IsWhole (pool_of volume)
unfolding Alloc.new Memory.new pool_of
volume-IsConsistent =
    empty-IsConsistent toy volume.bs mem_device IsWhole (Memory.new 6) (Alloc.new 6) (new-IsWhole 6)
      (Invariant.new-IsValid 6 (omega arith)) refl (omega arith)

volume-Backed : Backed toy mem_device IsWhole volume (pool_of volume) []
volume-Backed = record {
  consistent = volume-IsConsistent;
  encodable = λ k r h. absurd (no_entry k r (unfold pool_of in h));
  counts = record { live = tt; enough = λ k. unfold owed in omega arith };
}

-- A chain that ends well has a first part that does.
and_then-ok :
    {A B : Type 0} (o : Volume mem_device × Result Error A)
    (f : A → Volume mem_device → Volume mem_device × Result Error B) (w : Volume mem_device) (b : B)
    → and_then o f ≡ (w, ok b)
    → (a : A) × (f a o.0 ≡ (w, ok b))
and_then-ok (u, ok a) f w b h = (a, h)
and_then-ok {A} {B} (u, err e) f w b h =
    let clash : ◌≡◌ {A = Result Error B} (err e) (ok b) = ap (λ o. o.1) h in cc

length-write_all :
    (xs : List (List ℕ)) (v w : Volume mem_device) (new : List Ref)
    → write_all toy xs v ≡ (w, ok new)
    → length new ≡ length xs
unfolding write_all
length-write_all [] v w new h =
    let e : ◌≡◌ {A = Result Error (List Ref)} (ok []) (ok new) = ap (λ o. o.1) h in
    let same : [] ≡ new = cc in ap (λ (l : List Ref). length l) (sym same)
length-write_all (x ∷ xs) v w new h =
    let (r, h1) =
      and_then-ok (bs_write toy x v)
        (λ r u. and_then (write_all toy xs u) (λ rs u'. (u', ok (r ∷ rs)))) w new h in
    let u = (bs_write toy x v).0 in
    elim (Result-cases (write_all toy xs u).1) [
      | inl (rs, k) ↦
          let whole : write_all toy xs u ≡ ((write_all toy xs u).0, ok rs) =
            ap (λ o. ((write_all toy xs u).0, o)) k in
          let e : ◌≡◌ {A = Result Error (List Ref)} (ok (r ∷ rs)) (ok new) =
            ap (λ o. o.1) (sym (ap (λ o. and_then o (λ rs u'. (u', ok (r ∷ rs)))) whole) ∙ h1) in
          let same : r ∷ rs ≡ new = cc in
          ap (λ (l : List Ref). length l) (sym same)
          ∙ ap suc (length-write_all xs u (write_all toy xs u).0 rs whole)
      | inr (e', k) ↦
          let whole : write_all toy xs u ≡ ((write_all toy xs u).0, err e') =
            ap (λ o. ((write_all toy xs u).0, o)) k in
          let clash : ◌≡◌ {A = Result Error (List Ref)} (err e') (ok new) =
            ap (λ o. o.1) (sym (ap (λ o. and_then o (λ rs u'. (u', ok (r ∷ rs)))) whole) ∙ h1) in
          cc
    ]

one_record : length (cut two_bytes).1 ≡ 1
unfolding cut record_size_for split_records split_loop
one_record = refl

no_map :
    IsMapFit toy mem_device IsWhole volume toy-IsSound (λ t. t ≡ torn) mem_device-MayFail two_bytes
no_map w new h two =
    absurd (omega (arith, two, length-write_all (cut two_bytes).1 volume w new h, one_record))

no_refs : (k : List ℕ) → refs_of volume.ddt k ≡ 0
unfolding Dedup.lookup Dedup.new Assoc.lookup
no_refs k = refl

set_data-Replaced_example :
    Replaced toy mem_device IsWhole volume 0 [] [] two_bytes (set_data toy 0 file two_bytes volume)
set_data-Replaced_example =
    set_data-Replaced toy mem_device IsWhole volume toy-IsSound (λ t. t ≡ torn) mem_device-MayFail 0
      file [] [] two_bytes (omega arith) (unfold new_child in omega arith)
      (Owns.no_data (unfold new_child in refl)) volume-Backed (unfold pool_of Alloc.new in refl)
      (unfold cut record_size_for split_records split_loop in ((two_bytes_unique, omega arith), tt))
      no_map (omega (arith, one_record)) (λ k. omega (arith, no_refs k, one_record))
