-- ===== src/Store.antt =====
-- rust/bloomfs-store/src/lib.rs: the data path. A block is hashed and looked up in the deduplication
-- table; a new one is compressed, encrypted cluster by cluster and written. BLAKE3, zstd and AES-XTS
-- are parameters.
pub mod Refs
pub mod Sectors
pub mod Invariant
pub mod Stored
pub mod Fill
pub mod Write
pub mod Release
pub mod Committed
pub mod Progress
pub mod Effects
mod Examples
use bloomfs.Base.{
  ℕ, zero, suc, ◌+◌, ◌-◌, ◌*◌, ◌/◌, ◌%◌, ◌^◌, Bool, true, false, not, Option, none, some, List, [],
  ◌∷◌, ◌++◌, ltb, leb, ◌==◌, if◌then◌else◌, length, replicate, take, drop, slice, get_or, Result,
  ok, err, ◌>>=◌, to_le, from_le,
}
use bloomfs.Base.Outcome.{map_err}
use bloomfs.Base.Fields.{copy_at, copy_fields}
use bloomfs.Base.Assoc.{bytes_eq}
use bloomfs.Block
use bloomfs.Block.{Device, block_size}
use bloomfs.Alloc
use bloomfs.Alloc.{Bitmap}
use bloomfs.Dedup
use bloomfs.Dedup.{Key}

pub data Error : Type 0 where
  bad_key compress decompress logical_mismatch content_hash_mismatch : Error
  block : Block.Error → Error
  alloc : Alloc.Error → Error

pub record Ref : Type 0 where
  pub hash : Key
  pub start : ℕ
  pub count : ℕ
  pub payload : ℕ
  pub logical : ℕ
  pub raw : Bool

abbrev pub ref_size : ℕ
ref_size = 32 + 8 + 4 + 4 + 4 + 1

unfoldable pub ref_fields : Ref → List (ℕ × List ℕ)
ref_fields r =
    (0, r.hash)
    ∷ (32, to_le 8 r.start)
    ∷ (40, to_le 4 r.count)
    ∷ (44, to_le 4 r.payload)
    ∷ (48, to_le 4 r.logical)
    ∷ (52, (if r.raw then 1 else 0) ∷ [])
    ∷ []

unfoldable pub marshal_ref : Ref → List ℕ
marshal_ref r = copy_fields (replicate ref_size 0) (ref_fields r)

unfoldable pub unmarshal_ref : List ℕ → Ref
unmarshal_ref b = record {
  hash = slice b 0 32;
  start = from_le (slice b 32 8);
  count = from_le (slice b 40 4);
  payload = from_le (slice b 44 4);
  logical = from_le (slice b 48 4);
  raw = get_or b 52 0 == 1;
}

unfoldable pub ref_from : Key → Dedup.Entry → Ref
ref_from k e = record {
  hash = k;
  start = e.start;
  count = e.count;
  payload = e.payload;
  logical = e.logical;
  raw = e.raw;
}

-- The two half keys of the cipher, which the AES-XTS crate expands.
pub data Cipher : Type 0 where
  aes_128 aes_256 : List ℕ → List ℕ → Cipher

unfoldable pub build : List ℕ → Result Error Cipher
build key =
    if length key == 32
    then ok (Cipher.aes_128 (take 16 key) (drop 16 key))
    else if length key == 64
    then ok (Cipher.aes_256 (take 32 key) (drop 32 key))
    else err bad_key

pub record BlockStore : Type 0 where
  pub cipher : Option Cipher

unfoldable pub new : Option (List ℕ) → Result Error BlockStore
new none = ok (record { cipher = none })
new (some k) = do c ← build k; ok (record { cipher = some c })

-- What the crates outside the repository provide.
pub record Crates : Type 0 where
  pub blake3 : List ℕ → List ℕ
  pub encode_all : List ℕ → Option (List ℕ)
  pub decode_all : List ℕ → Option (List ℕ)
  -- A sector under a tweak.
  pub encrypt_sector : Cipher → ℕ → List ℕ → List ℕ
  pub decrypt_sector : Cipher → ℕ → List ℕ → List ℕ

-- `n.div_ceil(BLK).max(1)`
unfoldable pub clusters : ℕ → ℕ
clusters n = let c = (n + 4095) / 4096 in if leb 1 c then c else 1

-- The three pieces of state that the caller owns.
pub record Pool (d : Device) : Type 0 where
  pub dev : d.State
  pub bm : Bitmap
  pub ddt : Dedup.Table

-- The payload, and whether it is the plaintext itself.
unfoldable pub choose_payload : List ℕ → List ℕ → List ℕ × Bool
choose_payload plaintext compressed =
    if leb (length plaintext) (length compressed) then (plaintext, true) else (compressed, false)

-- The lengths are cast to u32.
unfoldable pub new_entry : ℕ → ℕ → List ℕ → List ℕ → Bool → Dedup.Entry
new_entry start count payload plaintext raw = record {
  start = start;
  count = count % 2 ^ 32;
  payload = length payload % 2 ^ 32;
  logical = length plaintext % 2 ^ 32;
  raw = raw;
  refs = 0;
}

module _ (c : Crates) where
  unfoldable pub unpack : Ref → List ℕ → Result Error (List ℕ)
  unpack r payload =
      if r.raw
      then ok payload
      else elim (c.decode_all payload) [ none ↦ err decompress | some x ↦ ok x ]

  unfoldable pub verify : Ref → List ℕ → Result Error (List ℕ)
  verify r plaintext =
      if not (length plaintext % 2 ^ 32 == r.logical)
      then err logical_mismatch
      else if not (bytes_eq (c.blake3 plaintext) r.hash)
      then err content_hash_mismatch
      else ok plaintext

module _ (c : Crates) (bs : BlockStore) where
  -- `encrypt` and `decrypt` with the address as the tweak, where the store has a cipher.
  unfoldable pub encrypt : ℕ → List ℕ → List ℕ
  encrypt addr sec = elim bs.cipher [ none ↦ sec | some k ↦ c.encrypt_sector k addr sec ]

  unfoldable pub decrypt : ℕ → List ℕ → List ℕ
  decrypt addr sec = elim bs.cipher [ none ↦ sec | some k ↦ c.decrypt_sector k addr sec ]

  module _ (d : Device) where
    -- `rounds` clusters from `at` on, the first from `off` of the buffer.
    unfoldable pub write_clusters :
        ℕ → ℕ → ℕ → List ℕ → d.State → d.State × Result Block.Error (Unit {0})
    write_clusters zero at off buf s = (s, ok tt)
    write_clusters (suc rounds) at off buf s =
        let w = d.write_block s at (encrypt at (slice buf off block_size)) in
        elim w.1 [
          | ok _ ↦ write_clusters rounds (at + 1) (off + block_size) buf w.0
          | err e ↦ (w.0, err e)
        ]

    unfoldable pub read_clusters : d.State → ℕ → ℕ → Result Error (List ℕ)
    read_clusters s zero at = ok []
    read_clusters s (suc rounds) at = do
      sec ← map_err block (d.read_block s at)
      rest ← read_clusters s rounds (at + 1)
      ok (decrypt at sec ++ rest)

    -- After the allocation: the clusters go back if a write fails.
    unfoldable pub fill :
        Pool d → Key → List ℕ → List ℕ × Bool → ℕ → Bitmap → Pool d × Result Error Ref
    fill p key plaintext payload start bm =
        let count = clusters (length payload.0) in
        let buf = copy_at (replicate (count * block_size) 0) 0 payload.0 in
        let w = write_clusters count start 0 buf p.dev in
        let entry = new_entry start count payload.0 plaintext payload.1 in
        elim w.1 [
          | ok _ ↦ (
            record { dev = w.0; bm = bm; ddt = Dedup.add p.ddt key entry },
            ok (ref_from key entry),
          )
          | err e ↦
              (record { dev = w.0; bm = Alloc.free bm start count; ddt = p.ddt }, err (block e))
        ]

    unfoldable pub write_new : Pool d → Key → List ℕ → Pool d × Result Error Ref
    write_new p key plaintext = elim (c.encode_all plaintext) [
      | none ↦ (p, err compress)
      | some z ↦
          let payload = choose_payload plaintext z in
          elim (Alloc.alloc p.bm (clusters (length payload.0))) [
            | ok (start, bm) ↦ fill p key plaintext payload start bm
            | err e ↦ (p, err (alloc e))
          ]
    ]

    unfoldable pub write : Pool d → List ℕ → Pool d × Result Error Ref
    write p plaintext =
        let key = c.blake3 plaintext in
        elim (Dedup.lookup p.ddt key) [
          | some e ↦ (
            record { dev = p.dev; bm = p.bm; ddt = (Dedup.incr p.ddt key).0 },
            ok (ref_from key e),
          )
          | none ↦ write_new p key plaintext
        ]

    -- A payload longer than its clusters, a panic in Rust, is cut here.
    unfoldable pub read : d.State → Ref → Result Error (List ℕ)
    read s r = do
      buf ← read_clusters s r.count r.start
      x ← unpack c r (take r.payload buf)
      verify c r x

-- The clusters of a block that lost its last reference go to the allocator, pending the next commit.
unfoldable pub give_back : {d : Device} → Pool d → Dedup.Table → Option Dedup.Entry → Pool d
give_back p t none = record { dev = p.dev; bm = p.bm; ddt = t }
give_back p t (some e) = record { dev = p.dev; bm = Alloc.defer p.bm e.start e.count; ddt = t }

unfoldable pub release : {d : Device} → Pool d → Ref → Pool d
release p r = let dropped = Dedup.decr p.ddt r.hash in give_back p dropped.0 dropped.1
