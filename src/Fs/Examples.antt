-- ===== src/Fs/Examples.antt =====
-- Examples for the policies and encodings of the filesystem layer.
use bloomfs.Base.{
  ◌/◌, ◌==◌, ◌||◌, ltb, leb, if◌then◌else◌, ℕ, ◌+◌, ◌*◌, ◌≤◌, ◌≡◌, refl, true, List, [], ◌∷◌,
  length, concat, replicate, All, get_or, ok, err, arith,
}
use bloomfs.Alloc
use bloomfs.Alloc.{Bitmap, available, deferred_count}
use bloomfs.Store.{Ref}
use bloomfs.Store.Refs.{IsEncodable}
use bloomfs.Inode.{Inode, default, out_of_range}
use bloomfs.Inode.Table.{Table, new, cap}
use bloomfs.Segment.{DirEntry}
use bloomfs.Fs.{
  inode, permission, no_space, split_records, encode_refs, decode_refs, encode_dir_page,
  decode_dir_page, access, fallocate, record_size_for,
}
use bloomfs.Fs.Records.{split_records-concat, fallocate_lem, WorstCase, decode-encode_refs}
use bloomfs.Fs.Pages.{entries_size, decode-encode_dir_page}
use bloomfs.Fs.Access.{access_lem, permitted}

abbrev toy_blob : List ℕ
toy_blob = 1 ∷ 2 ∷ 3 ∷ 4 ∷ 5 ∷ []

split_records-concat_example :
    (concat (split_records toy_blob 2) ≡ toy_blob)
    × All (λ r. (1 ≤ length r) × (length r ≤ 2)) (split_records toy_blob 2)
split_records-concat_example = split_records-concat toy_blob 2 (omega arith)

abbrev toy_ref : Ref
toy_ref = record {
  hash = replicate 32 7;
  start = 20;
  count = 1;
  payload = 100;
  logical = 4096;
  raw = true;
}

toy_ref-IsEncodable : IsEncodable toy_ref
toy_ref-IsEncodable = record {
  hash = refl;
  start = omega arith;
  count = omega arith;
  payload = omega arith;
  logical = omega arith;
}

decode-encode_refs_example :
    decode_refs (encode_refs (toy_ref ∷ toy_ref ∷ [])) ≡ ok (toy_ref ∷ toy_ref ∷ [])
decode-encode_refs_example =
    decode-encode_refs (toy_ref ∷ toy_ref ∷ []) (toy_ref-IsEncodable, (toy_ref-IsEncodable, tt))
      (omega arith)

-- The names are ASCII, which the conversion leaves alone.
abbrev toy_lossy : List ℕ → List ℕ
toy_lossy name = name

abbrev toy_entries : List DirEntry
toy_entries = (97 ∷ [], 3) ∷ (98 ∷ 99 ∷ [], 4) ∷ []

decode-encode_dir_page_example :
    decode_dir_page toy_lossy (encode_dir_page toy_entries)
    ≡ ok (toy_entries, 4 + entries_size toy_entries)
decode-encode_dir_page_example =
    decode-encode_dir_page toy_lossy toy_entries
      ((refl, omega arith, omega arith), ((refl, omega arith, omega arith), tt)) (omega arith)

abbrev toy_table : Table
toy_table = new 4

-- The group may write a file that others may only read.
abbrev toy_inode : Inode
toy_inode = record default { mode = 436; uid = 7; gid = 100 }

access_lem_example : access (record toy_table { inodes = toy_inode ∷ [] }) 0 6 1000 100 [] ≡ (
    if ltb 0 (cap (record toy_table { inodes = toy_inode ∷ [] }))
    then (if permitted (get_or (toy_inode ∷ []) 0 default) 6 1000 100 []
        then ok tt
        else err permission)
    else err (inode out_of_range))
access_lem_example =
    access_lem (record toy_table { inodes = toy_inode ∷ [] }) 0 6 1000 100 [] (omega arith)

abbrev toy_bitmap : Bitmap
toy_bitmap = Alloc.new 64

fallocate_lem_example :
    (records : ℕ) × (blocks : ℕ) × WorstCase 10000 records blocks
    × (fallocate toy_bitmap 10000 ≡ (
        if (10000 == 0)
          || leb
              (records * ((record_size_for 10000).0 / 4096) + blocks)
              (available toy_bitmap + deferred_count toy_bitmap)
        then ok tt
        else err no_space))
fallocate_lem_example = fallocate_lem toy_bitmap 10000
