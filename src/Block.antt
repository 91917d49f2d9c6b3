-- ===== src/Block.antt =====
-- rust/bloomfs-block/src/lib.rs: the disk as an array of 4 KiB blocks. `Device` is the trait; the
-- device in memory implements it. A call returns the device it leaves behind, also where it fails.
pub mod Memory
pub mod Runs
pub mod Flaky
use bloomfs.Base.{
  ℕ, ◌+◌, ◌*◌, ◌≤◌, ◌<◌, ◌≡◌, ◌≢◌, ◌⊎◌, List, length, ◌==◌, if◌then◌else◌, Result, ok, err,
}

abbrev pub block_size : ℕ
block_size = 4096

pub data Error : Type 0 where
  out_of_range short_data io : Error

-- The trait.
pub record Device : Type 1 where
  pub State : Type 0
  pub read_block : State → ℕ → Result Error (List ℕ)
  pub write_block : State → ℕ → List ℕ → State × Result Error (Unit {0})
  pub blocks : State → ℕ
  pub sync : State → State × Result Error (Unit {0})

-- What the trait's documentation promises of a device in a good state, one that does not fail.
pub record IsArray (d : Device) (IsGood : d.State → Type 0) : Type 0 where
  pub readable :
      (s : d.State) (num : ℕ)
      → IsGood s
      → num < d.blocks s
      → (b : List ℕ) × (d.read_block s num ≡ ok b) × (length b ≡ block_size)
  pub writes :
      (s : d.State) (num : ℕ) (b : List ℕ)
      → IsGood s
      → num < d.blocks s
      → length b ≡ block_size
      → (d.write_block s num b).1 ≡ ok tt
  pub stays_good :
      (s : d.State) (num : ℕ) (b : List ℕ) → IsGood s → IsGood (d.write_block s num b).0
  pub keeps_blocks :
      (s : d.State) (num : ℕ) (b : List ℕ) → d.blocks (d.write_block s num b).0 ≡ d.blocks s
  pub reads_back :
      (s : d.State) (num j : ℕ) (b : List ℕ)
      → IsGood s
      → num < d.blocks s
      → length b ≡ block_size
      → d.read_block (d.write_block s num b).0 j ≡ (if num == j then ok b else d.read_block s j)
  pub syncs : (s : d.State) → d.sync s ≡ (s, ok tt)

-- The block that was written, after the call.
abbrev pub AfterWrite :
    (d : Device)
    → (List ℕ → Type 0)
    → d.State
    → ℕ
    → List ℕ
    → d.State
    → Result Error (Unit {0})
    → Type 0
AfterWrite d IsTorn s num b s' (ok _) = d.read_block s' num ≡ ok b
AfterWrite d IsTorn s num b s' (err e) =
    (d.read_block s' num ≡ d.read_block s num)
    ⊎ ((t : List ℕ) × (d.read_block s' num ≡ ok t) × IsTorn t)

-- A device whose calls may fail: a write that fails leaves its block as it was or torn, and no call
-- touches another block. A sync may fail, and changes nothing that is read.
pub record MayFail (d : Device) (IsGood : d.State → Type 0) (IsTorn : List ℕ → Type 0)
    : Type 0 where
  pub readable :
      (s : d.State) (num : ℕ)
      → IsGood s
      → num < d.blocks s
      → (b : List ℕ) × (d.read_block s num ≡ ok b)
  pub stays_good :
      (s : d.State) (num : ℕ) (b : List ℕ) → IsGood s → IsGood (d.write_block s num b).0
  pub keeps_blocks :
      (s : d.State) (num : ℕ) (b : List ℕ) → d.blocks (d.write_block s num b).0 ≡ d.blocks s
  pub others :
      (s : d.State) (num : ℕ) (b : List ℕ) (j : ℕ)
      → IsGood s
      → num ≢ j
      → d.read_block (d.write_block s num b).0 j ≡ d.read_block s j
  pub outcome :
      (s : d.State) (num : ℕ) (b : List ℕ)
      → IsGood s
      → num < d.blocks s
      → length b ≡ block_size
      → AfterWrite d IsTorn s num b (d.write_block s num b).0 (d.write_block s num b).1
  pub syncs :
      (s : d.State)
      → IsGood s
      → IsGood (d.sync s).0
        × (d.blocks (d.sync s).0 ≡ d.blocks s)
        × ((j : ℕ) → d.read_block (d.sync s).0 j ≡ d.read_block s j)

-- What the block of a write that was not flushed may hold after the power came back, where `before` is
-- what it would hold without the write: that, the written block, or a torn one.
abbrev pub Unflushed :
    (IsTorn : List ℕ → Type 0) → Result Error (List ℕ) → List ℕ → Result Error (List ℕ) → Type 0
Unflushed IsTorn before b r = (r ≡ before) ⊎ ((t : List ℕ) × (r ≡ ok t) × IsTorn t) ⊎ (r ≡ ok b)

-- A device that may also lose power, with a cache that only a sync flushes: `Reboot s s'` says that `s'`
-- may be found after the power was lost in `s`. Each write since the last sync may be lost, whether it
-- reported success or not, in any combination; a sync that succeeds makes all of them durable.
pub record LosesPower (d : Device) (IsGood : d.State → Type 0) (IsTorn : List ℕ → Type 0)
    (Reboot : d.State → d.State → Type 0) : Type 0 where
  pub device : MayFail d IsGood IsTorn
  pub reboots : (s s' : d.State) → IsGood s → Reboot s s' → IsGood s' × (d.blocks s' ≡ d.blocks s)
  pub writes :
      (s : d.State) (num : ℕ) (b : List ℕ) (s' : d.State)
      → IsGood s
      → Reboot (d.write_block s num b).0 s'
      → (s0 : d.State) × Reboot s s0
        × ((j : ℕ) → num ≢ j → d.read_block s' j ≡ d.read_block s0 j)
        × Unflushed IsTorn (d.read_block s0 num) b (d.read_block s' num)
  -- A sync loses nothing, also where it fails.
  pub keeps :
      (s s' : d.State)
      → IsGood s
      → Reboot (d.sync s).0 s'
      → (s0 : d.State) × Reboot s s0 × ((j : ℕ) → d.read_block s' j ≡ d.read_block s0 j)
  pub flushes :
      (s s' : d.State)
      → IsGood s
      → (d.sync s).1 ≡ ok tt
      → Reboot (d.sync s).0 s'
      → (j : ℕ) → d.read_block s' j ≡ d.read_block s j
