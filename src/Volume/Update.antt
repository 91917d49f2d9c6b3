-- ===== src/Volume/Update.antt =====
-- rust/bloomfs-fs/src/lib.rs: the writes of an inode's contents.
use bloomfs.Base.{
  ℕ, zero, suc, ◌+◌, ◌-◌, ◌*◌, ◌%◌, ◌^◌, not, ◌&&◌, List, [], ◌∷◌, ltb, leb, ◌==◌, if◌then◌else◌,
  get_or, length, slice, take, min, replicate, Result, ok, err,
}
use Prim.Native.Nat.{bit_and, bit_or}
use bloomfs.Base.Bits.{all_but}
use bloomfs.Base.Fields.{copy_at}
use bloomfs.Block.{Device}
use bloomfs.Inode.{Inode, flag_inline_extents, type_regular}
use bloomfs.Store.{Crates, Ref, marshal_ref}
use bloomfs.Fs.{Error, record_size_for, split_records, encode_refs, decode_refs, div_ceil, not_file}
use bloomfs.Volume.{
  Volume, Action, ◌>>=◌, ◌>>◌, pure, asks, modify, get_inode, put_inode, touch_mod, bs_write,
  bs_read, bs_release,
}
use bloomfs.Volume.Contents.{is_inline, first_ref, default_ref, max, load_refs, get_data}

-- The block map with one reference at its front.
unfoldable pub with_ref : Inode → Ref → Inode
with_ref i r = record i { block_map = copy_at (replicate 64 0) 0 (marshal_ref r) }

-- The inode without a block map, before its references are recorded.
unfoldable pub cleared : Inode → ℕ → ℕ → Inode
cleared i size log2 = record i {
  block_map = replicate 64 0;
  flags = bit_and i.flags (all_but 8 0);
  file_size = size;
  record_size_log2 = log2;
}

unfoldable pub release_all : {d : Device} → List Ref → Volume d → Volume d
release_all [] v = v
release_all (r ∷ rs) v = release_all rs (bs_release v r)

unfoldable pub regular : {d : Device} → ℕ → Volume d → Result Error Inode
regular id v = elim (get_inode v id) [
  | err e ↦ err e
  | ok i ↦ if not (i.kind == type_regular) then err not_file else ok i
]

-- The size of the records, its logarithm and the records of new contents.
unfoldable pub cut : List ℕ → ℕ × List (List ℕ)
cut [] = (0, [])
cut (b ∷ bs) = let rs = record_size_for (length (b ∷ bs)) in (rs.1, split_records (b ∷ bs) rs.0)

-- Cut to the size, or filled with zeros up to it.
unfoldable pub resized : List ℕ → ℕ → List ℕ
resized blob size =
    if leb size (length blob) then take size blob else copy_at (replicate size 0) 0 blob

-- The bytes that the write at `off` puts into the record from `start` to `end`.
unfoldable pub patch : List ℕ → ℕ → ℕ → ℕ → ℕ → List ℕ → List ℕ
patch rec start end off write_end bytes =
    let lo = max off start in
    let hi = min write_end end in
    if ltb lo hi then copy_at rec (lo - start) (slice bytes (lo - off) (hi - lo)) else rec

-- The block map that the inode had, if it had one.
unfoldable pub old_container : Inode → List Ref
old_container i = if ltb 0 i.file_size && not (is_inline i) then first_ref i ∷ [] else []

unfoldable pub chosen_size : Inode → ℕ → ℕ × ℕ
chosen_size i new_size =
    if ltb 0 i.file_size
    then (2 ^ (i.record_size_log2 % 64), i.record_size_log2)
    else record_size_for new_size

module _ (c : Crates) {d : Device} where
  unfoldable pub store_refs : Inode → List Ref → ℕ → ℕ → Action d Inode
  store_refs i [] size log2 = pure (cleared i 0 0)
  store_refs i (r ∷ []) size log2 =
      let j = cleared i size log2 in
      pure (with_ref (record j { flags = bit_or j.flags flag_inline_extents }) r)
  store_refs i (r ∷ r2 ∷ rs) size log2 = do
    map_ref ← bs_write c (encode_refs (r ∷ r2 ∷ rs))
    pure (with_ref (cleared i size log2) map_ref)

  -- The records, then the block map itself.
  unfoldable pub release_map : Inode → Action d (Unit {0})
  release_map i = do
    blob ← asks (λ v. bs_read c v (first_ref i))
    refs ← asks (λ v. decode_refs blob)
    modify (release_all refs)
    modify (λ v. bs_release v (first_ref i))

  unfoldable pub release_data : Inode → Action d (Unit {0})
  release_data i =
      if i.file_size == 0
      then pure tt
      else if is_inline i
      then modify (λ v. bs_release v (first_ref i))
      else release_map i

  unfoldable pub write_all : List (List ℕ) → Action d (List Ref)
  write_all [] = pure []
  write_all (x ∷ xs) = do r ← bs_write c x; rs ← write_all xs; pure (r ∷ rs)

  unfoldable pub set_data : ℕ → Inode → List ℕ → Action d (Unit {0})
  set_data id old blob = do
    refs ← write_all (cut blob).1
    i ← store_refs old refs (length blob) (cut blob).0
    release_data old
    i ← touch_mod i
    put_inode id i

  unfoldable pub write_file : ℕ → List ℕ → Action d (Unit {0})
  write_file id blob = do i ← asks (regular id); set_data id i blob

  unfoldable pub truncate : ℕ → ℕ → Action d (Unit {0})
  truncate id size = do
    i ← asks (regular id)
    if size == i.file_size
        then pure tt
        else (asks (λ v. get_data c v i) >>= λ blob. set_data id i (resized blob size))

  -- A record of zeros that begins with what the old one holds, if there is an old one.
  unfoldable pub old_record : List Ref → ℕ → ℕ → Action d (List ℕ)
  old_record refs i size =
      if ltb i (length refs)
      then (do
        old ← asks (λ v. bs_read c v (get_or refs i default_ref))
        pure (copy_at (replicate size 0) 0 (take (min (length old) size) old)))
      else pure (replicate size 0)

  -- `rounds` records from the `i`th on: the references of the new ones, and those to be released.
  unfoldable pub rewrite :
      ℕ → ℕ → List Ref → ℕ → ℕ → ℕ → ℕ → ℕ → List ℕ → Action d (List Ref × List Ref)
  rewrite zero i refs rs old_size new_size off write_end bytes = pure ([], [])
  rewrite (suc rounds) i refs rs old_size new_size off write_end bytes =
      let start = i * rs in
      let end = min (start + rs) new_size in
      let touched = ltb start write_end && ltb off end in
      let old = get_or refs i default_ref in
      if not touched && (ltb i (length refs) && leb end old_size)
      then (do
        (new, gone) ← rewrite rounds (i + 1) refs rs old_size new_size off write_end bytes
        pure (old ∷ new, gone))
      else (do
        rec ← old_record refs i (end - start)
        r ← bs_write c (patch rec start end off write_end bytes)
        (new, gone) ← rewrite rounds (i + 1) refs rs old_size new_size off write_end bytes
        pure (r ∷ new, if ltb i (length refs) then old ∷ gone else gone))

  unfoldable pub overwrite : ℕ → Inode → ℕ → List ℕ → Action d Inode
  overwrite id i off bytes = do
    refs ← asks (λ v. load_refs c v i)
    let write_end = (off + length bytes) % 2 ^ 64
    let new_size = max i.file_size write_end
    let rs = chosen_size i new_size
    (new, gone) ←
        rewrite (div_ceil new_size rs.0) 0 refs rs.0 i.file_size new_size off write_end bytes
    j ← store_refs i new new_size rs.1
    modify (release_all gone)
    modify (release_all (old_container i))
    j ← touch_mod j
    put_inode id j
    pure j

  -- The inode as the call leaves it.
  unfoldable pub write_at_locked : ℕ → Inode → ℕ → List ℕ → Action d Inode
  write_at_locked id i off [] = pure i
  write_at_locked id i off (b ∷ bs) = overwrite id i off (b ∷ bs)

  unfoldable pub write_at : ℕ → ℕ → List ℕ → Action d (Unit {0})
  write_at id off bytes = do i ← asks (regular id); write_at_locked id i off bytes; pure tt

  unfoldable pub append : ℕ → List ℕ → Action d ℕ
  append id bytes = do
    i ← asks (regular id)
    write_at_locked id i i.file_size bytes
    pure i.file_size
