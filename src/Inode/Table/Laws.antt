-- ===== src/Inode/Table/Laws.antt =====
-- rust/bloomfs-inode/src/lib.rs: `get` and `put` as an array, and the round trip of the snapshot.
use bloomfs.Base.{
  ℕ, zero, suc, ◌+◌, ◌-◌, ◌*◌, ◌/◌, ◌%◌, ◌≤◌, ◌<◌, ◌≡◌, refl, ap, sym, ◌∙◌, Bool, true, false, List,
  [], ◌∷◌, ◌++◌, ltb, leb, leb→le, ◌==◌, if◌then◌else◌, Bool-cases, inl, inr, length, get_or, take,
  drop, replicate, slice, All, Result, ok, err, arith, length-append, length-take, length-set,
  length-replicate, get_or-set, slice-append, append-nil, append_assoc, append-take-drop, All-take,
  drop-replicate,
}
use bloomfs.Base.Fields.{
  Contiguous, contents, copy_fields-contents, copy_fields_new, contents-append, Contiguous-append,
}
use bloomfs.Inode.{Inode, Error, out_of_range, default, inode_fields, unmarshal_binary}
use bloomfs.Inode.Encoding.{
  IsEncodable, inode_bytes, length-inode_bytes, inode-Contiguous, unmarshal-inode_bytes,
}
use bloomfs.Inode.Table.{
  Table, new, cap, get, put, marshal_len, slot_fields, marshal_into, marshal, read_slots,
  unmarshal_table,
}

-- The mark lies within the table, every slot can be encoded, and the slots from the mark on were
-- never written.
pub record IsValid (t : Table) : Type 0 where
  pub within : t.count ≤ length t.inodes
  pub encodable : (j : ℕ) → IsEncodable (get_or t.inodes j default)
  pub untouched : (j : ℕ) → t.count ≤ j → get_or t.inodes j default ≡ default

default-IsEncodable : IsEncodable default
default-IsEncodable = omega arith

get_or-new : (n j : ℕ) → get_or (replicate n default) j default ≡ default
get_or-new zero j = refl
get_or-new (suc n) zero = refl
get_or-new (suc n) (suc j) = get_or-new n j

pub new-IsValid : (capacity : ℕ) → IsValid (new capacity)
unfolding new
new-IsValid n = record {
  within = omega arith;
  encodable = λ j. rw get_or-new default-IsEncodable;
  untouched = λ j l. get_or-new n j;
}

if-IsEncodable :
    (b : Bool) (i j : Inode) → IsEncodable i → IsEncodable j → IsEncodable (if b then i else j)
if-IsEncodable true i j p q = p
if-IsEncodable false i j p q = q

-- What `put` promises on each branch.
abbrev pub PutResult : Table → ℕ → Inode → Result Error Table → Type 0
PutResult t id i (ok t') =
    (id < cap t)
    × IsValid t'
    × (cap t' ≡ cap t)
    × ((j : ℕ) → get t' j ≡ (if id == j then ok i else get t j))
PutResult t id i (err e) = (e ≡ out_of_range) × (cap t ≤ id)

-- Into a valid table an encodable inode goes exactly if the id lies within the capacity: then the slot
-- reads back, every other slot and the capacity stay, and the table is valid.
pub put-PutResult :
    (t : Table) (id : ℕ) (i : Inode) → IsValid t → IsEncodable i → PutResult t id i (put t id i)
unfolding put cap get
put-PutResult t id i v w = elim (Bool-cases (leb (length t.inodes) id)) [
  | inl out ↦ rw (out, put) (refl, leb→le _ _ out)
  | inr inside ↦
      let l : id < length t.inodes = ground arith in
      let slot = λ (j : ℕ). get_or-set t.inodes id j i default l in
      rw (inside, put)
        (
          l,
          record {
            within = ground (arith, length-set t.inodes id i, v.within);
            encodable = λ j. rw (slot j) (if-IsEncodable (id == j) i _ w (v.encodable j));
            untouched = λ j q. ground (arith, slot j, v.untouched j);
          },
          length-set t.inodes id i,
          λ j. ground (arith, slot j, length-set t.inodes id i),
        )
]

length-slots :
    (is : List Inode) (off : ℕ)
    → All IsEncodable is
    → length (contents (slot_fields off is)) ≡ length is * 128
unfolding slot_fields
length-slots [] off w = unfold contents in omega arith
length-slots (i ∷ is) off w =
    ap length (contents-append (inode_fields off i) (slot_fields (off + 128) is))
    ∙ length-append (contents (inode_fields off i)) _
    ∙ omega (arith, length-inode_bytes i w.0 off, length-slots is (off + 128) w.1)

slots-Contiguous :
    (is : List Inode) (off : ℕ) → All IsEncodable is → Contiguous off (slot_fields off is)
unfolding slot_fields
slots-Contiguous [] off w = tt
slots-Contiguous (i ∷ is) off w =
    Contiguous-append (inode_fields off i) _ off (off + 128) (inode-Contiguous i w.0 off)
      (omega (arith, length-inode_bytes i w.0 off)) (slots-Contiguous is (off + 128) w.1)

-- The bytes of an inode do not depend on where it is copied to.
bytes_anywhere : (i : Inode) (off : ℕ) → contents (inode_fields off i) ≡ inode_bytes i
unfolding contents inode_fields
bytes_anywhere i off = refl

read_slots_step :
    (rounds at : ℕ) (b : List ℕ) (i : Inode) (is : List Inode)
    → unmarshal_binary (slice b at 128) ≡ ok i
    → read_slots rounds (at + 128) b ≡ ok is
    → read_slots (suc rounds) at b ≡ ok (i ∷ is)
unfolding read_slots
read_slots_step rounds at b i is p q = rw (p, q)

read_slots-contents :
    (is : List Inode) (off at : ℕ) (front back : List ℕ)
    → All IsEncodable is
    → at ≡ length front
    → read_slots (length is) at (front ++ (contents (slot_fields off is) ++ back)) ≡ ok is
read_slots-contents [] off at front back w h = unfold read_slots in refl
read_slots-contents (i ∷ is) off at front back w h =
    let here : List ℕ = contents (inode_fields off i) in
    let rest : List ℕ = contents (slot_fields (off + 128) is) in
    let split : front ++ (contents (slot_fields off (i ∷ is)) ++ back)
        ≡ front ++ (here ++ (rest ++ back)) =
      unfold slot_fields in
      ap (λ x. front ++ x)
        (ap (λ x. x ++ back) (contents-append (inode_fields off i) _)
          ∙ append_assoc here rest back) in
    let first : unmarshal_binary (slice (front ++ (here ++ (rest ++ back))) at 128) ≡ ok i =
      ap unmarshal_binary (
        slice-append front here (rest ++ back) at 128 h (sym (length-inode_bytes i w.0 off))
        ∙ bytes_anywhere i off)
      ∙ unmarshal-inode_bytes i w.0 in
    let others : read_slots (length is) (at + 128) (front ++ (here ++ (rest ++ back))) ≡ ok is =
      ap (read_slots (length is) (at + 128)) (sym (append_assoc front here (rest ++ back)))
      ∙ read_slots-contents is (off + 128) (at + 128) (front ++ here) back w.1
          (omega (arith, length-append front here, length-inode_bytes i w.0 off)) in
    ap (read_slots (suc (length is)) at) split ∙ read_slots_step (length is) at _ i is first others

module _ (t : Table) (v : IsValid t) where
  live : List Inode
  live = take t.count t.inodes

  live-IsEncodable : All IsEncodable live
  unfolding live
  live-IsEncodable = All-take IsEncodable t.inodes t.count default v.encodable

  length-live : length live ≡ t.count
  unfolding live
  length-live = omega (arith, length-take t.count t.inodes, v.within)

  length-image : length (contents (slot_fields 0 live)) ≡ marshal_len t
  unfolding marshal_len
  length-image = omega (arith, length-slots live 0 live-IsEncodable, length-live)

  marshal-image : marshal t ≡ contents (slot_fields 0 live)
  unfolding marshal marshal_into live
  marshal-image =
      copy_fields_new (marshal_len t) (slot_fields 0 live)
        (slots-Contiguous live 0 live-IsEncodable) (sym length-image)

  -- In any buffer that is long enough `marshal_into` leaves the snapshot and then the old bytes.
  pub marshal_into_lem :
      (dst : List ℕ)
      → marshal_len t ≤ length dst
      → ((marshal_into t dst).0 ≡ marshal t ++ drop (marshal_len t) dst)
        × ((marshal_into t dst).1 ≡ marshal_len t)
        × (length (marshal t) ≡ marshal_len t)
  unfolding marshal_into live marshal_len
  marshal_into_lem dst h = (
    copy_fields-contents dst (slot_fields 0 live) (slots-Contiguous live 0 live-IsEncodable)
          (omega (arith, length-image))
        ∙ ap (λ (n : ℕ). contents (slot_fields 0 live) ++ drop n dst) length-image
        ∙ ap (λ x. x ++ drop (marshal_len t) dst) (sym marshal-image),
    refl,
    ap length marshal-image ∙ length-image,
  )

  slots_back : live ++ drop t.count (new (cap t)).inodes ≡ t.inodes
  unfolding live new cap
  slots_back =
      let fresh : drop t.count (replicate (length t.inodes) default)
          ≡ replicate (length t.inodes - t.count) default =
        drop-replicate (replicate (length t.inodes) default) t.count default
          (λ j l. get_or-new (length t.inodes) j)
        ∙ ap (λ (n : ℕ). replicate (n - t.count) default)
            (length-replicate (length t.inodes) default) in
      ap (λ x. take t.count t.inodes ++ x)
        (fresh ∙ sym (drop-replicate t.inodes t.count default v.untouched))
      ∙ append-take-drop t.count t.inodes

  -- A valid table is read back from its snapshot, at its own capacity.
  pub unmarshal_table-marshal : unmarshal_table (marshal t) (cap t) ≡ ok t
  unmarshal_table-marshal =
      let image : List ℕ = contents (slot_fields 0 live) in
      let long : length image ≡ t.count * 128 = unfold marshal_len in length-image in
      let whole : (length image % 128 == 0) ≡ true = ground (arith, long) in
      let number : length image / 128 ≡ t.count = omega (arith, long) in
      let fits : ltb (cap t) t.count ≡ false = unfold cap in ground (arith, v.within) in
      let read : read_slots t.count 0 image ≡ ok live = rw (← length-live) (
        ap (read_slots (length live) 0) (sym (append-nil image))
        ∙ read_slots-contents live 0 0 [] [] live-IsEncodable refl) in
      ap (λ x. unmarshal_table x (cap t)) marshal-image
      ∙ (unfold unmarshal_table in
          rw (whole, number, fits, read)
            (ap (λ is. ok (record { inodes = is; count = t.count })) slots_back))
