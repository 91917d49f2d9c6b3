-- ===== src/Dedup.antt =====
-- rust/bloomfs-dedup/src/lib.rs: the deduplication table, which maps the hash of a block's content to
-- where its one stored copy lies and how many references it has.
pub mod RefCounts
pub mod Snapshot
mod Examples
use bloomfs.Base.{
  ℕ, zero, suc, ◌+◌, ◌-◌, ◌*◌, ◌%◌, ◌^◌, Bool, true, false, Option, none, some, List, [], ◌∷◌, ◌++◌,
  ltb, ◌==◌, if◌then◌else◌, length, replicate, slice, get_or, Result, ok, err, to_le, from_le,
}
use bloomfs.Base.Fields.{copy_fields}
use bloomfs.Base.Assoc.{Keyed, bytes_keyed, NoRepeat}
use bloomfs.Base.Assoc

-- A content hash: 32 bytes.
abbrev pub Key : Type 0
Key = List ℕ

pub data Error : Type 0 where
  short : Error

pub record Entry : Type 0 where
  pub start : ℕ
  pub count : ℕ
  pub payload : ℕ
  pub logical : ℕ
  pub raw : Bool
  pub refs : ℕ

abbrev pub Table : Type 0
Table = List (Key × Entry)

abbrev pub rec_size : ℕ
rec_size = 32 + 8 + 4 + 4 + 4 + 1 + 4

unfoldable pub new : Table
new = []

unfoldable pub lookup : Table → Key → Option Entry
lookup t k = Assoc.lookup k t

unfoldable pub add : Table → Key → Entry → Table
add t k e = Assoc.insert k (record e { refs = 1 }) t

-- The u32 count wraps.
unfoldable pub incr : Table → Key → Table × Bool
incr t k = elim (lookup t k) [
  | some e ↦ (Assoc.insert k (record e { refs = (e.refs + 1) % 2 ^ 32 }) t, true)
  | none ↦ (t, false)
]

-- What `decr` does to an entry that is there.
unfoldable pub drop_ref : Table → Key → Entry → Table × Option Entry
drop_ref t k e =
    let left = (e.refs + (2 ^ 32 - 1)) % 2 ^ 32 in
    let e' : Entry = record e { refs = left } in
    if left == 0 then (Assoc.remove k t, some e') else (Assoc.insert k e' t, none)

unfoldable pub decr : Table → Key → Table × Option Entry
decr t k = elim (lookup t k) [ some e ↦ drop_ref t k e | none ↦ (t, none) ]

unfoldable pub len : Table → ℕ
len t = length t

unfoldable pub is_empty : Table → Bool
is_empty t = len t == 0

unfoldable pub marshal_len : Table → ℕ
marshal_len t = 8 + length t * rec_size

-- The copies that one round of the loop makes at `off`.
unfoldable pub entry_fields : ℕ → Key → Entry → List (ℕ × List ℕ)
entry_fields off k e =
    (off, k)
    ∷ (off + 32, to_le 8 e.start)
    ∷ (off + 40, to_le 4 e.count)
    ∷ (off + 44, to_le 4 e.payload)
    ∷ (off + 48, to_le 4 e.logical)
    ∷ (off + 52, (if e.raw then 1 else 0) ∷ [])
    ∷ (off + 53, to_le 4 e.refs)
    ∷ []

unfoldable pub table_fields : ℕ → Table → List (ℕ × List ℕ)
table_fields off [] = []
table_fields off ((k, e) ∷ t) = entry_fields off k e ++ table_fields (off + rec_size) t

unfoldable pub marshal_into : Table → List ℕ → List ℕ × ℕ
marshal_into t dst =
    (copy_fields dst ((0, to_le 8 (length t)) ∷ table_fields 8 t), 8 + length t * rec_size)

unfoldable pub marshal : Table → List ℕ
marshal t = (marshal_into t (replicate (marshal_len t) 0)).0

-- The key and the entry that stand at `off`.
unfoldable pub read_entry : List ℕ → ℕ → Key × Entry
read_entry source off = (
  slice source off 32,
  record {
    start = from_le (slice source (off + 32) 8);
    count = from_le (slice source (off + 40) 4);
    payload = from_le (slice source (off + 44) 4);
    logical = from_le (slice source (off + 48) 4);
    raw = get_or source (off + 52) 0 == 1;
    refs = from_le (slice source (off + 53) 4);
  },
)

unfoldable pub read_entries : ℕ → ℕ → List ℕ → Table → Result Error Table
read_entries zero off source t = ok t
read_entries (suc rounds) off source t = elim (ltb (length source) (off + rec_size)) [
  | true ↦ err short
  | false ↦
      let (k, e) = read_entry source off in
      read_entries rounds (off + rec_size) source (Assoc.insert k e t)
]

unfoldable pub unmarshal : List ℕ → Result Error Table
unmarshal source =
    if ltb (length source) 8
    then err short
    else read_entries (from_le (slice source 0 8)) 8 source new
