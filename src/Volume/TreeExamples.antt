-- ===== src/Volume/TreeExamples.antt =====
-- Examples for the reads of a mounted volume: every block of the device is the same directory page, which
-- is the data of the root directory and of a file.
use bloomfs.Base.{
  ℕ, zero, suc, ◌+◌, ◌/◌, ◌<◌, ◌>>=◌, leb, ◌≡◌, refl, ap, sym, subst, ◌∙◌, ◌⊎◌, true, false, none,
  some, List, [], ◌∷◌, ◌++◌, replicate, length, slice, Result, ok, err, arith, length-take, to_le,
  from_le,
}
use bloomfs.Base.Fields.{copy_fields, copy_at}
use bloomfs.Block.{Device, io}
use bloomfs.Alloc
use bloomfs.Dedup
use bloomfs.Inode.{Inode, type_dir}
use bloomfs.Inode
use bloomfs.Inode.Table.{get}
use bloomfs.Segment.{DirEntry}
use bloomfs.Store.{Ref, read, read_clusters, unpack, verify, decrypt}
use bloomfs.Store.Refs.{IsEncodable}
use bloomfs.Fs.{Error, encode_dir_page, page_fields, decode_dir_page, read_page, not_dir, inode}
use bloomfs.Volume.{Volume, get_inode, bs_read}
use bloomfs.Volume.Contents.{get_data, load_refs, read_file, read_at, first_ref}
use bloomfs.Volume.Update.{with_ref}
use bloomfs.Volume.Pages.{read_dir_pages, flat_pages, page_at}
use bloomfs.Volume.Subtree.{push_dirs, dir_subtree_contains, walk}
use bloomfs.Volume.Subtree.Named.{IsParent, Below}
use bloomfs.Volume.Subtree.Walk.{total, dir_subtree_contains-IsDecision}
use bloomfs.Volume.Reading.{IsFile, read_at-read_file}
use bloomfs.Volume.Replace.{first_ref-with_ref, get_data-inline}
use bloomfs.Volume.Examples.{toy, externals, uber}
use bloomfs.Volume.Namespace.{new_child}
use bloomfs.Volume.{set_dir_cache}
use bloomfs.Volume.Pages.{Externals}
use bloomfs.Volume.Directories.{lookup, readdir, resident}
use bloomfs.Volume.Queries.{here, looks_up, lists, lookup-set_dir_cache}
use bloomfs.CachedDir
use bloomfs.CachedDir.{CachedDir}
use bloomfs.Base.Assoc

-- The directory page with one entry, for inode 1.
abbrev page : List ℕ
page = encode_dir_page ((97 ∷ [], 1) ∷ [])

abbrev stone : Device
stone = record {
  State = Unit {0};
  read_block = λ s num. ok page;
  write_block = λ s num b. (s, err io);
  blocks = λ s. 8;
  sync = λ s. (s, ok tt);
}

abbrev page_ref : Ref
page_ref = record {
  hash = toy.blake3 page;
  start = 4;
  count = 1;
  payload = 4096;
  logical = 4096;
  raw = true;
}

abbrev holding : ℕ → Inode
holding kind =
    with_ref
      (record (new_child kind 493 0 0) { file_size = 4096; record_size_log2 = 12; flags = 1 })
      page_ref

abbrev volume : Volume stone
volume = record {
  dev = tt;
  ub = uber;
  bm = Alloc.new 8;
  ddt = Dedup.new;
  inodes = record {
    inodes = holding type_dir ∷ new_child type_dir 493 0 0 ∷ holding 0 ∷ [];
    count = 3;
  };
  bs = record { cipher = none };
  open_count = [];
  free_inodes = [];
  clock = λ n. n;
  reads = 0;
  meta_buf = [];
  dir_cache = none;
}

length-page : length page ≡ 4096
unfolding encode_dir_page page_fields copy_fields copy_at to_le
length-page = refl

page_read : bs_read toy volume page_ref ≡ ok page
unfolding bs_read read read_clusters unpack verify decrypt encode_dir_page page_fields copy_fields
    copy_at to_le
page_read = refl

page_ref-IsEncodable : IsEncodable page_ref
page_ref-IsEncodable = record {
  hash =
      length-take 32 (page ++ replicate 32 0)
      ∙ (unfold encode_dir_page page_fields copy_fields copy_at to_le in refl);
  start = omega arith;
  count = omega arith;
  payload = omega arith;
  logical = omega arith;
}

front : (kind : ℕ) → bs_read toy volume (first_ref (holding kind)) ≡ ok page
front kind =
    ap (bs_read toy volume) (
      first_ref-with_ref
        (record (new_child kind 493 0 0) { file_size = 4096; record_size_log2 = 12; flags = 1 })
        page_ref page_ref-IsEncodable)
    ∙ page_read

file : IsFile toy volume 2 page
file = record {
  inode = holding 0;
  found = unfold get_inode get in refl;
  regular = unfold with_ref new_child in refl;
  size = unfold with_ref in sym length-page;
  refs = first_ref (holding 0) ∷ [];
  loads = unfold load_refs with_ref first_ref in refl;
  holds = (
    omega (arith, length-page),
    front 0 ∙ (unfold with_ref encode_dir_page page_fields copy_fields copy_at to_le in refl),
    unfold with_ref encode_dir_page page_fields copy_fields copy_at to_le in refl,
  );
}

read_at-read_file_example :
    (read_file toy volume 2 ≡ ok page) × (read_at toy volume 2 4 20 ≡ ok (slice page 4 20))
read_at-read_file_example = read_at-read_file toy volume 2 page file 4 20 (omega arith)

root_data : get_data toy volume (holding type_dir) ≡ ok (page ++ [])
root_data =
    get_data-inline toy volume (holding type_dir) (unfold with_ref in refl) page
      (unfold with_ref in refl) (front type_dir)

root_page : flat_pages externals 2 0 (page ++ []) ≡ ok ((97 ∷ [], 1) ∷ [])
unfolding flat_pages page_at decode_dir_page read_page from_le encode_dir_page page_fields
    copy_fields copy_at to_le
root_page = refl

root_pages : read_dir_pages externals volume 0 ≡ ok ((97 ∷ [], 1) ∷ [])
unfolding read_dir_pages get_inode get with_ref new_child
root_pages =
    ap (λ r. r >>= λ blob. flat_pages externals (length blob / 4096 + 1) 0 blob) root_data
    ∙ (unfold encode_dir_page page_fields copy_fields copy_at to_le in root_page)

-- The directory `a` is empty, and below the root.
weight : ℕ → ℕ
weight zero = 2
weight (suc dir) = 1

volume_tree :
    (dir : ℕ) (cs : List ℕ) → IsParent volume externals dir cs → total weight cs < weight dir
unfolding total weight read_dir_pages get_inode get get_data flat_pages push_dirs new_child with_ref
volume_tree zero cs p =
    let e1 : ◌≡◌ {A = Result Error (List DirEntry)} (ok ((97 ∷ [], 1) ∷ [])) (ok p.entries) =
      sym root_pages ∙ p.pages in
    let e2 : (97 ∷ [], 1) ∷ [] ≡ p.entries = cc in
    let e3 : ◌≡◌ {A = Result Error (List ℕ)} (ok (1 ∷ [])) (ok cs) =
      ap (λ es. push_dirs volume es []) e2 ∙ p.dirs in
    let e4 : 1 ∷ [] ≡ cs = cc in subst (λ cs. total weight cs < 2) e4 (omega arith)
volume_tree (suc zero) cs p =
    let e1 : ◌≡◌ {A = Result Error (List DirEntry)} (ok []) (ok p.entries) = p.pages in
    let e2 : [] ≡ p.entries = cc in
    let e3 : ◌≡◌ {A = Result Error (List ℕ)} (ok []) (ok cs) =
      ap (λ es. push_dirs volume es []) e2 ∙ p.dirs in
    let e4 : [] ≡ cs = cc in subst (λ cs. total weight cs < 1) e4 (omega arith)
volume_tree (suc (suc zero)) cs p =
    let clash : ◌≡◌ {A = Result Error (List DirEntry)} (err not_dir) (ok p.entries) = p.pages in cc
volume_tree (suc (suc (suc dir))) cs p =
    let far : leb 3 (suc (suc (suc dir))) ≡ true = ground arith in
    let clash : ◌≡◌ {A = Result Error (List DirEntry)} (err (inode Inode.out_of_range))
        (ok p.entries) =
      sym (simp (far, read_dir_pages, get_inode, get) refl) ∙ p.pages in
    cc

dir_subtree_contains-IsDecision_example :
    (some true ≡ some true × Below volume externals 1 0)
    ⊎ (some true ≡ some false × (Below volume externals 1 0 → ⊥))
unfolding dir_subtree_contains walk push_dirs get_inode get with_ref new_child
dir_subtree_contains-IsDecision_example =
    dir_subtree_contains-IsDecision volume externals weight 3 0 1 (some true) volume_tree
      (unfold weight in omega arith)
      (ap (λ r. r >>= λ es. push_dirs volume es [] >>= λ stack. walk volume externals 2 stack 1)
        root_pages)

-- With an empty cache in front, and a name hash of 128 bits.
abbrev hashed : Externals
hashed = record externals { xxh3 = λ b seed. 0 }

abbrev cached : Volume stone
cached = record volume { dir_cache = some CachedDir.new }

nothing_resident : (id : ℕ) → resident id cached ≡ none
unfolding resident CachedDir.new Assoc.lookup
nothing_resident id = refl

-- The root is loaded by the first call, and what has no pages by none.
abbrev asked : Volume stone
asked = (readdir hashed 2 (lookup hashed 0 (97 ∷ []) cached).0).0

lookup-set_dir_cache_example :
    ((lookup hashed 0 (97 ∷ []) asked).1
      ≡ (lookup hashed 0 (97 ∷ []) (set_dir_cache false cached)).1)
    × ((readdir hashed 0 asked).1 ≡ (readdir hashed 0 (set_dir_cache false cached)).1)
lookup-set_dir_cache_example =
    lookup-set_dir_cache hashed (λ b seed. omega arith) cached asked nothing_resident
      (lists 2 (looks_up 0 (97 ∷ []) here)) 0 (97 ∷ [])
