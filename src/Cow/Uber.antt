-- ===== src/Cow/Uber.antt =====
-- rust/bloomfs-cow/src/lib.rs: the encoding of an uberblock.
use bloomfs.Base.{
  ℕ, ◌+◌, ◌≡◌, refl, ap, sym, ◌∙◌, true, false, List, ◌++◌, ltb, length, take, drop, slice,
  replicate, ok, arith, to_le, from_le, from_le-to_le, length-append, length-replicate,
  replicate-append, take-append, slice-append, length-drop,
}
use bloomfs.Base.Lists.{drop_behind}
use bloomfs.Base.Bytes.{IsByte, IsU32, IsU64}
use bloomfs.Base.Fields.{copy_at, copy_fields, laid_out, Ascending, copy_fields-laid_out}
use bloomfs.Base.Assoc.{bytes_eq, bytes_eq_iff}
use bloomfs.Cow.{Uberblock, uber_fields, uber_magic, marshal_binary, parse_uber}

-- The fields fit their words.
pub record IsEncodable (u : Uberblock) : Type 0 where
  pub magic : u.magic ≡ uber_magic
  pub seq : IsU64 u.seq
  pub bytes_per_block : IsU32 u.bytes_per_block
  pub active_meta : IsByte u.active_meta
  pub total_blocks : IsU64 u.total_blocks
  pub meta_a : IsU64 u.meta_a
  pub meta_b : IsU64 u.meta_b
  pub meta_blocks : IsU64 u.meta_blocks
  pub inode_count : IsU64 u.inode_count
  pub data_start : IsU64 u.data_start
  pub root_inode : IsU64 u.root_inode
  pub next_inode : IsU64 u.next_inode
  pub bitmap_len : IsU32 u.bitmap_len
  pub ddt_len : IsU32 u.ddt_len
  pub inode_len : IsU32 u.inode_len

uber-Ascending : (u : Uberblock) → Ascending 0 4096 (uber_fields u)
unfolding uber_fields to_le
uber-Ascending u = omega arith

-- The bytes before the checksum.
unfoldable head : Uberblock → List ℕ
head u = laid_out 0 (uber_fields u) (replicate 104 0)

abbrev rest : List ℕ
rest = replicate 3992 0

block-head : (u : Uberblock) → copy_fields (replicate 4096 0) (uber_fields u) ≡ head u ++ rest
block-head u =
    let wide : ◌≡◌ {A = List ℕ} (replicate 4096 0) (replicate 104 0 ++ rest) =
      replicate-append 104 3992 4096 0 (omega arith) in
    let low : Ascending 0 (length {A = ℕ} (replicate 4096 0)) (uber_fields u) =
      rw (length-replicate {A = ℕ} 4096 0) (uber-Ascending u) in
    copy_fields-laid_out (replicate 4096 0) (uber_fields u) low
    ∙ ap (λ x. laid_out 0 (uber_fields u) x) wide
    ∙ (unfold uber_fields to_le head in refl)

module _ (hash : List ℕ → List ℕ) (u : Uberblock)
    (digest : (x : List ℕ) → length (hash x) ≡ 32) where
  sum : List ℕ
  sum = hash (head u)

  length-head : length (head u) ≡ 104
  unfolding head uber_fields to_le
  length-head = refl

  tail : List ℕ
  tail = drop 32 rest

  length-tail : length tail ≡ 3960
  unfolding tail
  length-tail = omega (arith, length-drop 32 rest, length-replicate {A = ℕ} 3992 0)

  length-sum : length sum ≡ 32
  unfolding sum
  length-sum = digest (head u)

  block-sum : marshal_binary hash u ≡ head u ++ (sum ++ tail)
  unfolding marshal_binary copy_at sum tail
  block-sum =
      let front : take 104 (head u ++ rest) ≡ head u =
        take-append (head u) rest 104 (sym length-head) in
      let back : drop (104 + length (hash (head u))) (head u ++ rest) ≡ drop 32 rest =
        drop_behind (head u) rest (104 + length (hash (head u))) 32
          (omega (arith, length-head, digest (head u))) in
      rw (block-head u, front) (rw back refl)

  module _ (w : IsEncodable u) where
    parse-image : parse_uber hash (head u ++ (sum ++ tail)) ≡ ok u
    unfolding parse_uber sum
    parse-image =
        let image : List ℕ = head u ++ (sum ++ tail) in
        let long : ltb (length image) 4096 ≡ false = ground (
          arith,
          length-append (head u) (sum ++ tail),
          length-append sum tail,
          length-head,
          length-tail,
          length-sum,
        ) in
        let ours : from_le (slice image 0 8) ≡ uber_magic =
          unfold head uber_fields to_le in
          from_le-to_le 8 u.magic (rw w.magic (omega arith)) ∙ w.magic in
        let front : take 104 image ≡ head u =
          take-append (head u) (sum ++ tail) 104 (sym length-head) in
        let stored : slice image 104 32 ≡ sum =
          slice-append (head u) sum tail 104 32 (sym length-head) (sym length-sum) in
        let intact : bytes_eq (hash (take 104 image)) (slice image 104 32) ≡ true =
          rw (front, stored) ((bytes_eq_iff sum sum).1 refl) in
        rw (long, ours, intact)
          (unfold head uber_fields to_le in
            ap ok (λ i. record {
              magic = sym w.magic i;
              seq = from_le-to_le 8 u.seq w.seq i;
              bytes_per_block = from_le-to_le 4 u.bytes_per_block w.bytes_per_block i;
              active_meta = u.active_meta;
              total_blocks = from_le-to_le 8 u.total_blocks w.total_blocks i;
              meta_a = from_le-to_le 8 u.meta_a w.meta_a i;
              meta_b = from_le-to_le 8 u.meta_b w.meta_b i;
              meta_blocks = from_le-to_le 8 u.meta_blocks w.meta_blocks i;
              inode_count = from_le-to_le 8 u.inode_count w.inode_count i;
              data_start = from_le-to_le 8 u.data_start w.data_start i;
              root_inode = from_le-to_le 8 u.root_inode w.root_inode i;
              next_inode = from_le-to_le 8 u.next_inode w.next_inode i;
              bitmap_len = from_le-to_le 4 u.bitmap_len w.bitmap_len i;
              ddt_len = from_le-to_le 4 u.ddt_len w.ddt_len i;
              inode_len = from_le-to_le 4 u.inode_len w.inode_len i;
            }))

    -- A block that `marshal_binary` makes of an uberblock with this magic whose fields fit their words
    -- parses to it.
    pub parse_uber-marshal_binary : parse_uber hash (marshal_binary hash u) ≡ ok u
    parse_uber-marshal_binary = ap (parse_uber hash) block-sum ∙ parse-image

  pub length-marshal_binary : length (marshal_binary hash u) ≡ 4096
  length-marshal_binary =
      ap length block-sum
      ∙ omega (
        arith,
        length-append (head u) (sum ++ tail),
        length-append sum tail,
        length-head,
        length-tail,
        length-sum,
      )
