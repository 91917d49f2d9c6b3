-- ===== src/Lib.antt =====
-- BloomFS (rust/): the crates of a copy-on-write, deduplicating filesystem core.
--
-- The disk is an array of 4 KiB blocks (rust/bloomfs-block). Its first two blocks hold the uberblocks,
-- then stand two metadata slots, then the data. In memory the filesystem keeps the bitmap of free
-- clusters (rust/bloomfs-alloc), the deduplication table (rust/bloomfs-dedup) and the inode table
-- (rust/bloomfs-inode). A commit (rust/bloomfs-cow) serializes the three into the metadata slot that is
-- not in use and then writes the uberblock that names it; a mount takes the valid uberblock with the
-- higher sequence number and reads the three tables back.
--
-- Base (Base/): Rust's `Result`, byte order, `copy_from_slice` at offsets, bit arrays in 64-bit words,
--   and hash maps as association lists, with the lemmas that the crates share.
-- Alloc (rust/bloomfs-alloc/src/lib.rs): `Bitmap` with every method. Alloc/Invariant has its
--   well-formedness, Alloc/Runs `reserve` and `free`, Alloc/FirstFit `alloc`, Alloc/Deferred the frees
--   that wait for a commit, Alloc/Undo the free that takes back an `alloc`, Alloc/Snapshot the bytes.
-- Dedup (rust/bloomfs-dedup/src/lib.rs): `Table` with every method; Dedup/RefCounts the counts,
--   Dedup/Snapshot the bytes.
-- Inode (rust/bloomfs-inode/src/lib.rs): `Inode` and its encoding (Inode/Encoding), the extents in its
--   block map (Inode/Extents), the table (Inode/Table) and its laws (Inode/Table/Laws).
-- Block (rust/bloomfs-block/src/lib.rs): the trait `Device` as a record of operations on a state, what it
--   promises (`IsArray`), what is left of that when calls may fail (`MayFail`) and when power may be lost with writes that no sync
--   has flushed (`LosesPower`), and `MemDevice` (Block/Memory). Block/Runs says what a row of writes
--   leaves, Block/Flaky is a device for the examples.
-- Cow (rust/bloomfs-cow/src/lib.rs): `Uberblock`, `parse_uber`, `format`, `mount`, `commit`, on any device. Cow/Uber
--   has the encoding of the uberblock, Cow/Blocks the loops over blocks, Cow/Mount the choice of the
--   uberblock, Cow/Image the three tables in one buffer, Cow/Staged `write_snapshot`, Cow/Flip
--   `write_uber`, Cow/Atomic and Cow/Progress the commit, Cow/PowerLoss and Cow/Recovery
--   the commit when power is lost, Cow/Format the new image.
-- Bloom (rust/bloomfs-bloom/src/lib.rs): `BlockedFilter` with `add`, `test` and `new_blocked_tuned`, over
--   any hash and any estimate of the false-positive rate; Bloom/Membership says what a filter answers
--   after keys were added, Bloom/Tuning what the search for its size finds.
-- Segment and Dir (rust/bloomfs-dir/src/lib.rs): `Segment` is Segment, with its chains
--   (Segment/Chains), its index (Segment/Index, Segment/Update), its filter (Segment/Filter) and its laws
--   (Segment/Laws); `Directory` is Dir, with the row of segments as one map (Dir/Row), the operations
--   against that map (Dir/Names) and the capacity (Dir/Bounds).
-- Store (rust/bloomfs-store/src/lib.rs): `BlockStore` with `write`, `read` and `release`, and the 53 bytes of
--   a `Ref`. The caller's device, bitmap and table are one state (`Pool`). Store/Refs has the encoding,
--   Store/Sectors the loops over clusters, Store/Invariant the consistency of a pool, Store/Stored and
--   Store/Fill the parts of `write`, Store/Write and Store/Progress the whole of it, Store/Release the
--   release and the end of a commit, Store/Committed a pool through a whole commit.
-- Fs (rust/bloomfs-fs/src/lib.rs): what the filesystem layer does without a device: the cut of a file into
--   records and the lists of references (Fs/Records), the directory pages (Fs/Pages), `DirHandle`
--   (Fs/Streams), `access` (Fs/Access), `fallocate`.
-- CachedDir (rust/bloomfs-fs/src/lib.rs): `CachedDir` with its pages (CachedDir/Pages) and
--   `DirCache` (CachedDir/Cache).
--
-- Volume (rust/bloomfs-fs/src/lib.rs): `FS`, the mounted filesystem, as a record, and each method as an `Action`,
--   which takes a volume and leaves one behind, with its result. Volume has the commit, the calls of the
--   store and the numbers of inodes, Volume/Mount `mount` and `format`, Volume/Contents the reads and
--   Volume/Update the writes of a file's records, Volume/Pages the load of a directory,
--   Volume/Directories the directories with their cache, Volume/Namespace the calls that make and remove
--   names, and the handles, Volume/Subtree the walk of `rename` and Volume/Rename the rest of it,
--   Volume/Attributes `stat`, `statfs`, `chmod`, `chown` and `utimes`. The proofs: Volume/Ids,
--   Volume/SameIds, Volume/Lifetime and Volume/Remount about the numbers of inodes, Volume/Reading about
--   `read_at`, Volume/Owned, Volume/Records, Volume/Replace and Volume/SetData about references and
--   `set_data`, Volume/Mirrors, Volume/Peeked, Volume/Coherence and Volume/Queries about
--   the cache, Volume/Subtree/Named
--   and Volume/Subtree/Walk about the walk.
--
-- A byte and a machine integer is a natural number; sums and casts that can pass the word wrap with
-- `% 2 ^ w`. A method on `&mut self` takes the state and returns the new one, together with its result;
-- an error is a value of the crate's own error type. A call of a device returns the device it leaves
-- behind, on the error paths too. Loops over a range take the number of rounds, which is the length of
-- the range, so that no fuel can run out. The order of a hash map's entries is that of the association
-- list, which stands for the order that Rust leaves open.
--
-- BLAKE3 is a parameter of the uberblock's checksum and of the store, with a digest of 32 bytes; zstd and
-- AES-XTS are parameters of the store, XXH3 is one of the filter and of the directory, and the lossy
-- conversion of bytes to a string is one of the directory pages. The estimate of a filter's
-- false-positive rate is floating point and a parameter of the search for its size. A torn block is one that the checksum rejects. Where a payload is longer than its clusters the model
-- cuts it, where Rust would panic; so does `mount` with lengths in the uberblock that pass the metadata slot. The loop of `split_records` and the two loops of the filter's search take fuel: as many
-- rounds as there are bytes, and 43 and 44 rounds, since the doubling stops past 2 ^ 42. The loops over the pages
-- of a directory have a round for each page. The walk of `rename` takes its fuel from the caller, and
-- answers `none` where it does not last; above the weight of the subtree it lasts. The clock of a volume is
-- the row of its readings. An index past the references of a file, where Rust would panic, reads the default
-- reference. The sums of sizes and the length of a write are those of the source, and the end of a write
-- wraps in a u64.
--
-- Not modelled: the file and raw devices of rust/bloomfs-block (system calls), the locks around the cache
-- and the table, `into_device`, and the crates rust/bloomfs-fuse (bindings to the kernel) and
-- rust/bloomfs-cli (input and output).
pub mod Base
pub mod Alloc
pub mod Dedup
pub mod Inode
pub mod Block
pub mod Cow
pub mod Bloom
pub mod Dir
pub mod Store
pub mod Fs
pub mod CachedDir
pub mod Segment
pub mod Volume
