-- ===== src/Volume/Contents.antt =====
-- rust/bloomfs-fs/src/lib.rs: the reads of an inode's contents through its records.
use bloomfs.Base.{
  ℕ, zero, suc, ◌+◌, ◌-◌, ◌*◌, ◌/◌, ◌%◌, ◌^◌, Bool, false, not, ◌||◌, List, [], ◌∷◌, ◌++◌, ltb, leb,
  ◌==◌, if◌then◌else◌, get_or, length, slice, take, replicate, min, Result, ok, err, ◌>>=◌,
}
use Prim.Native.Nat.{bit_and}
use bloomfs.Block.{Device}
use bloomfs.Inode.{Inode, flag_inline_extents, type_regular, type_link}
use bloomfs.Store.{Crates, Ref, ref_size, unmarshal_ref}
use bloomfs.Fs.{Error, decode_refs, not_file, invalid}
use bloomfs.Volume.{Volume, get_inode, bs_read}

abbrev pub is_inline : Inode → Bool
is_inline i = not (bit_and i.flags flag_inline_extents == 0)

-- The reference at the front of the block map.
unfoldable pub first_ref : Inode → Ref
first_ref i = unmarshal_ref (take ref_size i.block_map)

-- `Ref::default()`
abbrev pub default_ref : Ref
default_ref = record {
  hash = replicate 32 0;
  start = 0;
  count = 0;
  payload = 0;
  logical = 0;
  raw = false;
}

abbrev pub max : ℕ → ℕ → ℕ
max a b = if leb a b then b else a

-- What the bytes `off` up to `end` have in common with a record that begins at `start`.
unfoldable pub overlap : List ℕ → ℕ → ℕ → ℕ → List ℕ
overlap rec start off end =
    let lo = max off start in
    let hi = min end (start + length rec) in
    if ltb lo hi then slice rec (lo - start) (hi - lo) else []

module _ (c : Crates) {d : Device} (v : Volume d) where
  unfoldable pub load_refs : Inode → Result Error (List Ref)
  load_refs i =
      if i.file_size == 0
      then ok []
      else if is_inline i
      then ok (first_ref i ∷ [])
      else (bs_read c v (first_ref i) >>= decode_refs)

  unfoldable pub read_all : List Ref → Result Error (List ℕ)
  read_all [] = ok []
  read_all (r ∷ rs) = do x ← bs_read c v r; rest ← read_all rs; ok (x ++ rest)

  unfoldable pub get_data : Inode → Result Error (List ℕ)
  get_data i = if i.file_size == 0 then ok [] else (load_refs i >>= read_all)

  unfoldable pub read_file : ℕ → Result Error (List ℕ)
  read_file id = do
    i ← get_inode v id
    if not (i.kind == type_regular) then err not_file else get_data i

  -- `rounds` records from the `i`th on. An index past the references, a panic in Rust, reads the
  -- default reference here.
  unfoldable pub read_records : ℕ → ℕ → List Ref → ℕ → ℕ → ℕ → Result Error (List ℕ)
  read_records zero i refs rs off end = ok []
  read_records (suc rounds) i refs rs off end = do
    x ← bs_read c v (get_or refs i default_ref)
    rest ← read_records rounds (i + 1) refs rs off end
    ok (overlap x (i * rs) off end ++ rest)

  unfoldable pub read_at : ℕ → ℕ → ℕ → Result Error (List ℕ)
  read_at id off len = do
    i ← get_inode v id
    let end = min ((off + len) % 2 ^ 64) i.file_size
    let rs = 2 ^ (i.record_size_log2 % 64)
    if not (i.kind == type_regular)
        then err not_file
        else if len == 0 || leb i.file_size off
        then ok []
        else (load_refs i >>= λ refs.
            read_records ((end - 1) / rs + 1 - off / rs) (off / rs) refs rs off end)

  -- `lossy` is `String::from_utf8_lossy`.
  unfoldable pub readlink : (List ℕ → List ℕ) → ℕ → Result Error (List ℕ)
  readlink lossy id = do
    i ← get_inode v id
    if not (i.kind == type_link) then err invalid else (get_data i >>= λ x. ok (lossy x))
