-- ===== src/Store/Examples.antt =====
-- Examples for the data path, with toy crates and a device of six blocks.
use bloomfs.Base.{
  ℕ, ◌+◌, ◌<◌, ◌≡◌, refl, sym, subst, ◌^◌, none, some, List, [], ◌∷◌, false, length, replicate,
  length-replicate, Result, ok, arith,
}
use bloomfs.Base.Assoc
use bloomfs.Base.BitArray.{test-replicate}
use bloomfs.Block.Memory as Memory
use bloomfs.Block.Memory.{mem_device, IsWhole, new-IsWhole, mem_device-IsArray}
use bloomfs.Block.Flaky.{mem_device-MayFail, torn}
use bloomfs.Alloc
use bloomfs.Alloc.Invariant
use bloomfs.Alloc.FirstFit.{IsFreeRun}
use bloomfs.Dedup
use bloomfs.Dedup.RefCounts.{refs_of}
use bloomfs.Store.{Crates, BlockStore, Ref, Error, Pool, clusters, choose_payload, write, release}
use bloomfs.Store.Sectors.{IsSound}
use bloomfs.Store.Invariant.{IsConsistent, empty-IsConsistent}
use bloomfs.Store.Stored.{Stored}
use bloomfs.Store.Write.{write-Stored}
use bloomfs.Store.Release.{Released, release-Released}
use bloomfs.Store.Progress.{Succeeds, write-Succeeds}

abbrev toy : Crates
toy = record {
  blake3 = λ x. replicate 32 (length x);
  encode_all = λ x. some x;
  decode_all = λ x. some x;
  encrypt_sector = λ k tweak x. x;
  decrypt_sector = λ k tweak x. x;
}

toy-IsSound : IsSound toy
toy-IsSound = record {
  digest = λ x. length-replicate 32 (length x);
  inflates = λ x z h. sym h;
  deciphers = λ k tweak x. refl;
  keeps_length = λ k tweak x. refl;
}

abbrev plain : BlockStore
plain = record { cipher = none }

abbrev pool : Pool mem_device
pool = record { dev = Memory.new 6; bm = Alloc.new 6; ddt = Dedup.new }

six_free : (j : ℕ) → Alloc.get (Alloc.new 6) j ≡ false
unfolding Alloc.get Alloc.new
six_free j = test-replicate 1 j

six-IsFreeRun : IsFreeRun pool.bm 1 0
six-IsFreeRun = record { below = unfold Alloc.new in omega arith; clear = λ j h k. six_free j }

pool-IsConsistent : IsConsistent toy plain mem_device IsWhole pool
unfolding Alloc.new Memory.new
pool-IsConsistent =
    empty-IsConsistent toy plain mem_device IsWhole (Memory.new 6) (Alloc.new 6) (new-IsWhole 6)
      (Invariant.new-IsValid 6 (omega arith)) refl (omega arith)

abbrev two_bytes : List ℕ
two_bytes = 5 ∷ 6 ∷ []

abbrev written : Pool mem_device × Result Error Ref
written = write toy plain mem_device pool two_bytes

room_for_one : refs_of pool.ddt (toy.blake3 two_bytes) + 1 < 2 ^ 32
unfolding Dedup.new Dedup.lookup Assoc.lookup
room_for_one = omega arith

write-Stored_example : Stored toy plain mem_device IsWhole pool two_bytes written
write-Stored_example =
    write-Stored toy plain mem_device IsWhole toy-IsSound (λ t. t ≡ torn) mem_device-MayFail pool
      pool-IsConsistent two_bytes (omega arith) room_for_one

write-Succeeds_example : Succeeds written
write-Succeeds_example =
    write-Succeeds toy toy-IsSound plain mem_device IsWhole mem_device-IsArray pool two_bytes
      two_bytes (new-IsWhole 6) (Invariant.new-IsValid 6 (omega arith))
      (unfold Alloc.new Memory.new in omega arith) refl 0
      (unfold clusters choose_payload in six-IsFreeRun)

-- The reference to the block that was written, and the pool that holds it.
returned : Succeeds written
returned =
    write-Succeeds toy toy-IsSound plain mem_device IsWhole mem_device-IsArray pool two_bytes
      two_bytes (new-IsWhole 6) (Invariant.new-IsValid 6 (omega arith))
      (unfold Alloc.new Memory.new in omega arith) refl 0
      (unfold clusters choose_payload in six-IsFreeRun)

stored : Stored toy plain mem_device IsWhole pool two_bytes (written.0, ok returned.0)
stored =
    subst (λ o. Stored toy plain mem_device IsWhole pool two_bytes (written.0, o)) returned.1
      (write-Stored toy plain mem_device IsWhole toy-IsSound (λ t. t ≡ torn) mem_device-MayFail pool
        pool-IsConsistent two_bytes (omega arith) room_for_one)

release-Released_example :
    Released toy plain mem_device IsWhole written.0 stored.0 returned.0.hash
      (release written.0 returned.0)
release-Released_example =
    release-Released toy plain mem_device IsWhole written.0 stored.0 returned.0
