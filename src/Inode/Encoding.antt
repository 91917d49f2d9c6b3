-- ===== src/Inode/Encoding.antt =====
-- rust/bloomfs-inode/src/lib.rs: the encoding of an inode.
use bloomfs.Base.{
  ℕ, ◌^◌, ◌≤◌, ◌<◌, ◌≡◌, ap, sym, ◌∙◌, List, [], ◌++◌, length, take, drop, ok, arith, length-append,
  drop-append, take-append, to_le, from_le-to_le, ◌==◌, true,
}
use bloomfs.Base.Fields.{Contiguous, contents, copy_fields-contents, copy_fields_new}
use bloomfs.Inode.{Inode, inode_fields, marshal_inode, marshal_binary, unmarshal_binary, size}

-- The fields fit their words and the two arrays have their lengths.
pub record IsEncodable (i : Inode) : Type 0 where
  pub file_size : i.file_size < 2 ^ 64
  pub nlink : i.nlink < 2 ^ 32
  pub generation : i.generation < 2 ^ 32
  pub uid : i.uid < 2 ^ 32
  pub gid : i.gid < 2 ^ 32
  pub atime : i.atime < 2 ^ 64
  pub mtime : i.mtime < 2 ^ 64
  pub ctime : i.ctime < 2 ^ 64
  pub mode : i.mode < 2 ^ 16
  pub kind : i.kind < 2 ^ 8
  pub record_size_log2 : i.record_size_log2 < 2 ^ 8
  pub flags : i.flags < 2 ^ 8
  pub checksum : length i.checksum ≡ 8
  pub block_map : length i.block_map ≡ 64

-- The encoding of an inode.
abbrev pub inode_bytes : Inode → List ℕ
inode_bytes i = contents (inode_fields 0 i)

module _ (i : Inode) (w : IsEncodable i) where
  pub length-inode_bytes : (base : ℕ) → length (contents (inode_fields base i)) ≡ 128
  unfolding contents inode_fields to_le
  length-inode_bytes base = omega (arith, length-append {0}, w.checksum, w.block_map)

  pub inode-Contiguous : (base : ℕ) → Contiguous base (inode_fields base i)
  unfolding inode_fields to_le
  inode-Contiguous base = omega (arith, w.checksum)

  -- Whatever stands in a buffer of 128 bytes or more, `marshal_into` overwrites its first 128 bytes.
  pub marshal_inode-bytes :
      (dst : List ℕ) → 128 ≤ length dst → marshal_inode i dst ≡ inode_bytes i ++ drop 128 dst
  unfolding marshal_inode
  marshal_inode-bytes dst h =
      copy_fields-contents dst (inode_fields 0 i) (inode-Contiguous 0)
        (omega (arith, length-inode_bytes 0))
      ∙ ap (λ (n : ℕ). inode_bytes i ++ drop n dst) (length-inode_bytes 0)

  pub marshal_binary-bytes : marshal_binary i ≡ inode_bytes i
  unfolding marshal_binary marshal_inode
  marshal_binary-bytes =
      copy_fields_new 128 (inode_fields 0 i) (inode-Contiguous 0) (sym (length-inode_bytes 0))

  pub unmarshal-inode_bytes : unmarshal_binary (inode_bytes i) ≡ ok i
  unmarshal-inode_bytes =
      let whole : (length (inode_bytes i) == 128) ≡ true = ground (arith, length-inode_bytes 0) in
      unfold unmarshal_binary in
      rw whole (
        unfold contents inode_fields to_le in
        λ j. ok (record {
          file_size = from_le-to_le 8 i.file_size w.file_size j;
          nlink = from_le-to_le 4 i.nlink w.nlink j;
          generation = from_le-to_le 4 i.generation w.generation j;
          uid = from_le-to_le 4 i.uid w.uid j;
          gid = from_le-to_le 4 i.gid w.gid j;
          atime = from_le-to_le 8 i.atime w.atime j;
          mtime = from_le-to_le 8 i.mtime w.mtime j;
          ctime = from_le-to_le 8 i.ctime w.ctime j;
          mode = from_le-to_le 2 i.mode w.mode j;
          kind = i.kind;
          record_size_log2 = i.record_size_log2;
          flags = i.flags;
          checksum = take-append i.checksum (i.block_map ++ []) 8 (sym w.checksum) j;
          block_map =
              (ap (take 64) (drop-append i.checksum (i.block_map ++ []) 8 (sym w.checksum))
                  ∙ take-append i.block_map [] 64 (sym w.block_map))
                j;
        }))

  -- Every inode whose fields fit is read back from its encoding of 128 bytes.
  pub unmarshal-marshal_binary :
      (length (marshal_binary i) ≡ size) × (unmarshal_binary (marshal_binary i) ≡ ok i)
  unmarshal-marshal_binary = (
    ap length marshal_binary-bytes ∙ length-inode_bytes 0,
    ap unmarshal_binary marshal_binary-bytes ∙ unmarshal-inode_bytes,
  )
