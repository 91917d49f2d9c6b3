-- ===== src/Inode/Examples.antt =====
-- An inode of a file with two extents, and a table of four slots.
use bloomfs.Base.{◌≡◌, refl, List, [], ◌∷◌, length, All, ok, arith, subst}
use bloomfs.Inode.{Inode, Extent, default, size, set_extents, marshal_binary, unmarshal_binary}
use bloomfs.Inode.Encoding.{IsEncodable, unmarshal-marshal_binary}
use bloomfs.Inode.Extents.{IsStorable, Stored, set_extents-Stored}
use bloomfs.Inode.Table
use bloomfs.Inode.Table.{Table}
use bloomfs.Inode.Table.Laws.{
  IsValid, PutResult, new-IsValid, put-PutResult, unmarshal_table-marshal,
}

abbrev plain_file : Inode
plain_file = record default {
  file_size = 123456;
  nlink = 2;
  generation = 7;
  uid = 1000;
  mode = 0o644;
  record_size_log2 = 15;
  checksum = 1 ∷ 2 ∷ 3 ∷ 4 ∷ 5 ∷ 6 ∷ 7 ∷ 8 ∷ [];
}

plain_file-IsEncodable : IsEncodable plain_file
plain_file-IsEncodable = omega arith

abbrev two_runs : List Extent
two_runs =
    record { start = 100; blocks = 8; logical = 32768 }
    ∷ record { start = 200; blocks = 3; logical = 12000 }
    ∷ []

two_runs-IsStorable : All IsStorable two_runs
two_runs-IsStorable = omega arith

unmarshal-marshal_binary_example :
    (length (marshal_binary plain_file) ≡ size)
    × (unmarshal_binary (marshal_binary plain_file) ≡ ok plain_file)
unmarshal-marshal_binary_example = unmarshal-marshal_binary plain_file plain_file-IsEncodable

set_extents-Stored_example : Stored plain_file two_runs (set_extents plain_file two_runs)
set_extents-Stored_example = set_extents-Stored plain_file two_runs two_runs-IsStorable

put-PutResult_example : PutResult (Table.new 4) 2 plain_file (Table.put (Table.new 4) 2 plain_file)
put-PutResult_example =
    put-PutResult (Table.new 4) 2 plain_file (new-IsValid 4) plain_file-IsEncodable

abbrev three_used : Table
three_used = record { inodes = default ∷ default ∷ plain_file ∷ default ∷ []; count = 3 }

put_third : Table.put (Table.new 4) 2 plain_file ≡ ok three_used
unfolding Table.put Table.new
put_third = refl

three_used-IsValid : IsValid three_used
three_used-IsValid =
    (subst (PutResult (Table.new 4) 2 plain_file) put_third put-PutResult_example).1

unmarshal_table-marshal_example :
    Table.unmarshal_table (Table.marshal three_used) (Table.cap three_used) ≡ ok three_used
unmarshal_table-marshal_example = unmarshal_table-marshal three_used three_used-IsValid
