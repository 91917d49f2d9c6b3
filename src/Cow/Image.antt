-- ===== src/Cow/Image.antt =====
-- rust/bloomfs-cow/src/lib.rs: the three tables in a metadata slot.
use bloomfs.Base.{
  ℕ, ◌+◌, ◌^◌, ◌≤◌, ◌<◌, ◌≡◌, refl, ap, sym, ◌∙◌, List, [], ◌∷◌, ◌++◌, length, take, drop, slice,
  replicate, length-replicate, ok, arith, length-take, length-drop, length-append, slice-append,
  append_assoc, append-nil, drop_all, take-append,
}
use bloomfs.Base.Fields.{copy_at, copy_fields, copy_fields-contents, contents, length-copy_at}
use bloomfs.Block.{Device}
use bloomfs.Alloc
use bloomfs.Alloc.{Bitmap}
use bloomfs.Alloc.Invariant
use bloomfs.Alloc.Snapshot as BitmapSnapshot
use bloomfs.Dedup
use bloomfs.Dedup.Snapshot as DedupSnapshot
use bloomfs.Base.Assoc.{NoRepeat, bytes_keyed}
use bloomfs.Inode.Table
use bloomfs.Inode.Table.Laws
use bloomfs.Cow.{Uberblock, into, snapshot, load, meta_start, read_blocks}

-- What the serializers promise: `f` writes the `n` bytes `m` and keeps those behind them.
abbrev Writes : (List ℕ → List ℕ × ℕ) → ℕ → List ℕ → Type 0
Writes f n m =
    (dst : List ℕ)
    → n ≤ length dst
    → ((f dst).0 ≡ m ++ drop n dst) × ((f dst).1 ≡ n) × (length m ≡ n)

length-image : (f : List ℕ → List ℕ × ℕ) (n : ℕ) (m : List ℕ) → Writes f n m → length m ≡ n
length-image f n m k = (k (replicate n 0) (omega (arith, length-replicate {A = ℕ} n 0))).2

into-copy_at :
    (buf : List ℕ) (off n : ℕ) (f : List ℕ → List ℕ × ℕ) (m : List ℕ)
    → off + n ≤ length buf
    → Writes f n m
    → into buf off n f ≡ copy_at buf off m
unfolding into
into-copy_at buf off n f m h k =
    let long : length (slice buf off n) ≡ n =
      omega (arith, length-take n (drop off buf), length-drop off buf) in
    ap (copy_at buf off) (
      (k (slice buf off n) (omega arith)).0
      ∙ ap (λ t. m ++ t) (drop_all n (slice buf off n) (omega arith))
      ∙ append-nil m)

-- The tables can be saved: each is valid, and the lengths fit their u32 fields.
pub record Savable (bm : Bitmap) (ddt : Dedup.Table) (tbl : Table.Table) : Type 0 where
  pub bitmap : Invariant.IsValid bm
  pub entries : DedupSnapshot.AllEncodable ddt
  pub no_repeat : NoRepeat ddt
  pub number : length ddt < 2 ^ 64
  pub inodes : Laws.IsValid tbl
  pub small : Alloc.marshal_len bm + Dedup.marshal_len ddt + Table.marshal_len tbl < 2 ^ 32

module _ (bm : Bitmap) (ddt : Dedup.Table) (tbl : Table.Table) (v : Savable bm ddt tbl) where
  abbrev bm_len : ℕ
  bm_len = Alloc.marshal_len bm

  abbrev dd_len : ℕ
  dd_len = Dedup.marshal_len ddt

  abbrev in_len : ℕ
  in_len = Table.marshal_len tbl

  bm-Writes : Writes (Alloc.marshal_into bm) bm_len (Alloc.marshal bm)
  bm-Writes dst h = BitmapSnapshot.marshal_into_lem bm dst h

  dd-Writes : Writes (Dedup.marshal_into ddt) dd_len (Dedup.marshal ddt)
  dd-Writes dst h = DedupSnapshot.marshal_into_lem ddt v.entries dst h

  in-Writes : Writes (Table.marshal_into tbl) in_len (Table.marshal tbl)
  in-Writes dst h = Laws.marshal_into_lem tbl v.inodes dst h

  bm_long : length (Alloc.marshal bm) ≡ bm_len
  bm_long = length-image _ bm_len (Alloc.marshal bm) bm-Writes

  dd_long : length (Dedup.marshal ddt) ≡ dd_len
  dd_long = length-image _ dd_len (Dedup.marshal ddt) dd-Writes

  in_long : length (Table.marshal tbl) ≡ in_len
  in_long = length-image _ in_len (Table.marshal tbl) in-Writes

  pub image : List ℕ
  image = Alloc.marshal bm ++ (Dedup.marshal ddt ++ (Table.marshal tbl ++ []))

  pub long : length image ≡ bm_len + dd_len + in_len
  unfolding image
  long = omega (
    arith,
    length-append (Alloc.marshal bm) (Dedup.marshal ddt ++ (Table.marshal tbl ++ [])),
    length-append (Dedup.marshal ddt) (Table.marshal tbl ++ []),
    length-append (Table.marshal tbl) [],
    bm_long,
    dd_long,
    in_long,
  )

  -- The buffer holds the three images one after the other and keeps its tail.
  pub snapshot-image :
      (buf : List ℕ)
      → bm_len + dd_len + in_len ≤ length buf
      → snapshot bm ddt tbl buf ≡ image ++ drop (length image) buf
  unfolding snapshot image copy_fields contents
  snapshot-image buf h =
      let buf1 : List ℕ = copy_at buf 0 (Alloc.marshal bm) in
      let buf2 : List ℕ = copy_at buf1 bm_len (Dedup.marshal ddt) in
      let l1 : length buf1 ≡ length buf =
        length-copy_at buf 0 (Alloc.marshal bm) (omega (arith, bm_long)) in
      let l2 : length buf2 ≡ length buf1 =
        length-copy_at buf1 bm_len (Dedup.marshal ddt) (omega (arith, dd_long)) in
      let e1 : into buf 0 bm_len (Alloc.marshal_into bm) ≡ buf1 =
        into-copy_at buf 0 bm_len _ _ (omega arith) bm-Writes in
      let e2 : into buf1 bm_len dd_len (Dedup.marshal_into ddt) ≡ buf2 =
        into-copy_at buf1 bm_len dd_len _ _ (omega arith) dd-Writes in
      let e3 =
        into-copy_at buf2 (bm_len + dd_len) in_len (Table.marshal_into tbl) _ (omega arith)
          in-Writes in
      ap
        (λ t.
          into (into t bm_len dd_len (Dedup.marshal_into ddt)) (bm_len + dd_len) in_len
            (Table.marshal_into tbl))
        e1
      ∙ ap (λ t. into t (bm_len + dd_len) in_len (Table.marshal_into tbl)) e2
      ∙ e3
      ∙ copy_fields-contents buf
          ((0, Alloc.marshal bm)
            ∷ (bm_len, Dedup.marshal ddt)
            ∷ (bm_len + dd_len, Table.marshal tbl)
            ∷ [])
          (omega (arith, bm_long, dd_long)) (omega (arith, long))

  pub snapshot-long :
      (need : ℕ) (buf : List ℕ)
      → bm_len + dd_len + in_len ≤ need
      → need ≤ length buf
      → need ≤ length (snapshot bm ddt tbl buf)
  snapshot-long need buf fits l = rw (snapshot-image buf (omega arith)) (
      omega (
        arith,
        long,
        length-drop (length image) buf,
        length-append image (drop (length image) buf),
      ))

  -- What a mount reads of the slot: the images and some of the tail.
  saved :
      (junk : List ℕ)
      → image ++ junk ≡ Alloc.marshal bm ++ (Dedup.marshal ddt ++ (Table.marshal tbl ++ junk))
  unfolding image
  saved junk = simp (append_assoc, append-nil) refl

  pub tables_back :
      (d : Device) (s : d.State) (u : Uberblock) (junk : List ℕ)
      → u.inode_count ≡ Table.cap tbl
      → read_blocks d s u.meta_blocks (meta_start u) ≡ ok (image ++ junk)
      → u.bitmap_len ≡ bm_len
      → u.ddt_len ≡ dd_len
      → u.inode_len ≡ in_len
      → load d s u ≡ ok (u, record bm { deferred = [] }, ddt, tbl)
  unfolding load
  tables_back d s u junk cap r a b c =
      let buf : List ℕ = image ++ junk in
      let first : take bm_len buf ≡ Alloc.marshal bm =
        ap (take bm_len) (saved junk) ∙ take-append (Alloc.marshal bm) _ bm_len (sym bm_long) in
      let second : slice buf bm_len dd_len ≡ Dedup.marshal ddt =
        ap (λ t. slice t bm_len dd_len) (saved junk)
        ∙ slice-append (Alloc.marshal bm) (Dedup.marshal ddt) _ bm_len dd_len (sym bm_long)
            (sym dd_long) in
      let third : slice buf (bm_len + dd_len) in_len ≡ Table.marshal tbl =
        ap (λ t. slice t (bm_len + dd_len) in_len)
          (saved junk
            ∙ sym (append_assoc (Alloc.marshal bm) (Dedup.marshal ddt) (Table.marshal tbl ++ junk)))
        ∙ slice-append (Alloc.marshal bm ++ Dedup.marshal ddt) (Table.marshal tbl) junk
            (bm_len + dd_len) in_len
            (omega (arith, length-append (Alloc.marshal bm) (Dedup.marshal ddt), bm_long, dd_long))
            (sym in_long) in
      rw (r, a, b, c, cap)
        (rw (first, second, third)
          (rw
            (
              BitmapSnapshot.unmarshal-marshal bm v.bitmap,
              DedupSnapshot.unmarshal-marshal_table ddt v.entries v.no_repeat v.number,
              Laws.unmarshal_table-marshal tbl v.inodes,
            )
            refl))
