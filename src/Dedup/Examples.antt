-- ===== src/Dedup/Examples.antt =====
-- A table of one block with two references.
use bloomfs.Base.{◌≡◌, refl, false, some, if◌then◌else◌, replicate, ok, arith, ◌-◌}
use bloomfs.Base.Assoc
use bloomfs.Base.Assoc.{bytes_eq}
use bloomfs.Dedup.{Key, Entry, Table, new, add, decr, drop_ref, lookup, marshal, unmarshal}
use bloomfs.Dedup.RefCounts.{IsCounted, refs_of, last_of, add_lem, decr_lem}
use bloomfs.Dedup.Snapshot.{AllEncodable, unmarshal-marshal_table}

abbrev hash_a : Key
hash_a = replicate 32 7

abbrev block_a : Entry
block_a = record { start = 70; count = 2; payload = 8000; logical = 9000; raw = false; refs = 0 }

abbrev one_block : Table
one_block = add new hash_a block_a

new-IsCounted : IsCounted new
unfolding new lookup Assoc.lookup
new-IsCounted = record { unique = tt; positive = λ k e h. cc }

one_block-IsCounted : IsCounted one_block
one_block-IsCounted = (add_lem new hash_a block_a new-IsCounted).0

decr_lem_example :
    IsCounted (decr one_block hash_a).0
    × ((decr one_block hash_a).1 ≡ last_of (lookup one_block hash_a))
    × ((j : Key)
        → refs_of (decr one_block hash_a).0 j
          ≡ (if bytes_eq hash_a j then refs_of one_block j - 1 else refs_of one_block j))
decr_lem_example = decr_lem one_block hash_a one_block-IsCounted

-- The last reference hands the block back.
decr_last : decr one_block hash_a ≡ (new, some block_a)
unfolding decr drop_ref add new lookup Assoc.lookup Assoc.insert Assoc.remove
decr_last = refl

one_block-AllEncodable : AllEncodable one_block
unfolding add new Assoc.insert
one_block-AllEncodable = omega arith

unmarshal-marshal_table_example : unmarshal (marshal one_block) ≡ ok one_block
unfolding add new Assoc.insert
unmarshal-marshal_table_example =
    unmarshal-marshal_table one_block one_block-AllEncodable one_block-IsCounted.unique
      (omega arith)
