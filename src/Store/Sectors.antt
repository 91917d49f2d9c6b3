-- ===== src/Store/Sectors.antt =====
-- rust/bloomfs-store/src/lib.rs: the loops over the clusters of a block, and the codec around them.
use bloomfs.Base.{
  ℕ, zero, suc, ◌+◌, ◌*◌, ◌/◌, ◌%◌, ◌^◌, ◌≤◌, ◌<◌, ◌≡◌, refl, ap, sym, ◌∙◌, true, false, Option,
  none, some, List, ◌++◌, leb, ◌==◌, Bool-cases, length, replicate, take, drop, slice, Result, ok,
  err, ◌>>=◌, inl, inr, arith, length-take, length-drop, take-append,
}
use bloomfs.Base.Assoc.{bytes_eq, bytes_eq_iff}
use bloomfs.Base.Fields.{copy_at, take_behind}
use bloomfs.Block
use bloomfs.Block.{Device, MayFail, AfterWrite}
use bloomfs.Block.Runs.{
  write-cases, slice-next, Confined, one-Confined, then-Confined, written-back,
}
use bloomfs.Store.{
  Crates, Cipher, BlockStore, Ref, Error, content_hash_mismatch, logical_mismatch, clusters,
  encrypt, decrypt, choose_payload, write_clusters, read_clusters, unpack, verify, read,
}

-- What the documentation of BLAKE3, zstd and AES-XTS promises.
pub record IsSound (c : Crates) : Type 0 where
  pub digest : (x : List ℕ) → length (c.blake3 x) ≡ 32
  pub inflates : (x z : List ℕ) → c.encode_all x ≡ some z → c.decode_all z ≡ some x
  pub deciphers :
      (k : Cipher) (tweak : ℕ) (x : List ℕ)
      → c.decrypt_sector k tweak (c.encrypt_sector k tweak x) ≡ x
  pub keeps_length :
      (k : Cipher) (tweak : ℕ) (x : List ℕ) → length (c.encrypt_sector k tweak x) ≡ length x

module _ (c : Crates) (bs : BlockStore) (d : Device) where
  pub read_clusters-same :
      (s s' : d.State) (rounds at : ℕ)
      → ((j : ℕ) → at ≤ j → j < at + rounds → d.read_block s' j ≡ d.read_block s j)
      → read_clusters c bs d s' rounds at ≡ read_clusters c bs d s rounds at
  unfolding read_clusters
  read_clusters-same s s' zero at h = refl
  read_clusters-same s s' (suc n) at h =
      let here : d.read_block s' at ≡ d.read_block s at = h at (omega arith) (omega arith) in
      rw (here, read_clusters-same s s' n (at + 1) (λ j l m. h j (omega arith) (omega arith))) refl

  -- What a reference reads depends on its clusters only.
  pub read-same :
      (s s' : d.State) (r : Ref)
      → ((j : ℕ) → r.start ≤ j → j < r.start + r.count → d.read_block s' j ≡ d.read_block s j)
      → read c bs d s' r ≡ read c bs d s r
  unfolding read
  read-same s s' r h = rw (read_clusters-same s s' r.count r.start h) refl

module _ (c : Crates) (sound : IsSound c) (bs : BlockStore) where
  decrypt-encrypt_by :
      (o : Option Cipher) (addr : ℕ) (x : List ℕ)
      → decrypt c (record { cipher = o }) addr (encrypt c (record { cipher = o }) addr x) ≡ x
  unfolding decrypt encrypt
  decrypt-encrypt_by none addr x = refl
  decrypt-encrypt_by (some k) addr x = sound.deciphers k addr x

  pub decrypt-encrypt : (addr : ℕ) (x : List ℕ) → decrypt c bs addr (encrypt c bs addr x) ≡ x
  decrypt-encrypt addr x = decrypt-encrypt_by bs.cipher addr x

  length-encrypt_by :
      (o : Option Cipher) (addr : ℕ) (x : List ℕ)
      → length (encrypt c (record { cipher = o }) addr x) ≡ length x
  unfolding encrypt
  length-encrypt_by none addr x = refl
  length-encrypt_by (some k) addr x = sound.keeps_length k addr x

  pub length-encrypt : (addr : ℕ) (x : List ℕ) → length (encrypt c bs addr x) ≡ length x
  length-encrypt addr x = length-encrypt_by bs.cipher addr x

  module _ (d : Device) where
    read_more :
        (s : d.State) (n at : ℕ) (x r : List ℕ)
        → d.read_block s at ≡ ok (encrypt c bs at x)
        → read_clusters c bs d s n (at + 1) ≡ ok r
        → read_clusters c bs d s (suc n) at ≡ ok (x ++ r)
    unfolding read_clusters
    read_more s n at x r h k = rw (h, k) (ap (λ t. ok (t ++ r)) (decrypt-encrypt at x))

    module _ (IsGood : d.State → Type 0) (IsTorn : List ℕ → Type 0)
        (safe : MayFail d IsGood IsTorn) where
      next :
          (n at off : ℕ) (buf : List ℕ) (s : d.State)
          → (d.write_block s at (encrypt c bs at (slice buf off 4096))).1 ≡ ok tt
          → write_clusters c bs d (suc n) at off buf s
            ≡ write_clusters c bs d n
                (at + 1)
                (off + 4096)
                buf
                (d.write_block s at (encrypt c bs at (slice buf off 4096))).0
      unfolding write_clusters
      next n at off buf s h = rw (h, write_clusters) refl

      stopped :
          (n at off : ℕ) (buf : List ℕ) (s : d.State) (e : Block.Error)
          → (d.write_block s at (encrypt c bs at (slice buf off 4096))).1 ≡ err e
          → write_clusters c bs d (suc n) at off buf s
            ≡ ((d.write_block s at (encrypt c bs at (slice buf off 4096))).0, err e)
      unfolding write_clusters
      stopped n at off buf s e h = rw (h, write_clusters) refl

      pub write_clusters-Confined :
          (rounds at off : ℕ) (buf : List ℕ) (s : d.State)
          → IsGood s
          → Confined d IsGood IsTorn safe at rounds s (write_clusters c bs d rounds at off buf s).0
      write_clusters-Confined zero at off buf s g =
          unfold write_clusters in record { good = g; same_size = refl; outside = λ j h. refl }
      write_clusters-Confined (suc n) at off buf s g =
          let x : List ℕ = encrypt c bs at (slice buf off 4096) in
          let first : Confined d IsGood IsTorn safe at (suc n) s (d.write_block s at x).0 =
            one-Confined d IsGood IsTorn safe at n x s g in
          let rest : Confined d IsGood IsTorn safe (at + 1) n (d.write_block s at x).0
              (write_clusters c bs d n (at + 1) (off + 4096) buf (d.write_block s at x).0).0 =
            write_clusters-Confined n (at + 1) (off + 4096) buf (d.write_block s at x).0
              first.good in
          elim (write-cases (d.write_block s at x).1) [
            | inl done ↦
                rw (next n at off buf s done)
                  (then-Confined d IsGood IsTorn safe at n s _ _ first rest)
            | inr (e, failed) ↦ rw (stopped n at off buf s e failed) first
          ]

      -- Clusters that were written without an error read back as the buffer.
      pub read_clusters-write_clusters :
          (rounds at off : ℕ) (buf : List ℕ) (s : d.State)
          → IsGood s
          → at + rounds ≤ d.blocks s
          → off + rounds * 4096 ≤ length buf
          → (write_clusters c bs d rounds at off buf s).1 ≡ ok tt
          → read_clusters c bs d (write_clusters c bs d rounds at off buf s).0 rounds at
            ≡ ok (slice buf off (rounds * 4096))
      read_clusters-write_clusters zero at off buf s g fits long h = unfold read_clusters in refl
      read_clusters-write_clusters (suc n) at off buf s g fits long h =
          let b : List ℕ = slice buf off 4096 in
          let x : List ℕ = encrypt c bs at b in
          let size : length x ≡ 4096 =
            omega
              (arith, length-encrypt at b, length-take 4096 (drop off buf), length-drop off buf) in
          let s1 : d.State = (d.write_block s at x).0 in
          elim (write-cases (d.write_block s at x).1) [
            | inl done ↦
                let good : IsGood s1 = safe.stays_good s at x g in
                let here : d.read_block s1 at ≡ ok x =
                  written-back d IsGood IsTorn safe s at x s1 _ done
                    (safe.outcome s at x g (omega arith) size) in
                let rest : Confined d IsGood IsTorn safe (at + 1) n s1
                    (write_clusters c bs d n (at + 1) (off + 4096) buf s1).0 =
                  write_clusters-Confined n (at + 1) (off + 4096) buf s1 good in
                ap (λ p. read_clusters c bs d p.0 (suc n) at) (next n at off buf s done)
                ∙ read_more _ n at b _ (rest.outside at (inl (omega arith)) ∙ here) (
                    read_clusters-write_clusters n (at + 1) (off + 4096) buf s1 good
                      (omega (arith, safe.keeps_blocks s at x)) (omega arith)
                      (ap (λ p. p.1) (sym (next n at off buf s done)) ∙ h))
                ∙ ap ok (slice-next buf off (n * 4096))
                ∙ ap (λ (k : ℕ). ok (slice buf off k)) (omega arith)
            | inr (e, failed) ↦
                (let clash : ◌≡◌ {A = Result Block.Error (Unit {0})} (err e) (ok tt) =
                    ap (λ p. p.1) (sym (stopped n at off buf s e failed)) ∙ h in
                  cc)
          ]

pub clusters_lem :
    (n : ℕ) → (n ≤ clusters n * 4096) × (1 ≤ clusters n) × (clusters n ≤ n / 4096 + 1)
unfolding clusters
clusters_lem n = elim (Bool-cases (leb 1 ((n + 4095) / 4096))) [
  | inl e ↦ rw e (ground arith)
  | inr e ↦ rw e (ground arith)
]

-- The padded buffer gives the payload back.
pub take-padded :
    (payload : List ℕ) (m : ℕ)
    → length payload ≤ m
    → take (length payload) (slice (copy_at (replicate m 0) 0 payload) 0 m) ≡ payload
unfolding copy_at
take-padded payload m h =
    ap (take (length payload)) (
      ap (λ (k : ℕ). take m (payload ++ drop k (replicate m 0))) (omega arith)
      ∙ take_behind payload (drop (length payload) (replicate m 0)) m h)
    ∙ take-append payload _ (length payload) refl

module _ (c : Crates) (sound : IsSound c) where
  -- Unpacking what `choose_payload` chose gives the plaintext.
  pub unpack-choose :
      (x z : List ℕ) (r : Ref)
      → c.encode_all x ≡ some z
      → r.raw ≡ (choose_payload x z).1
      → unpack c r (choose_payload x z).0 ≡ ok x
  unfolding unpack choose_payload
  unpack-choose x z r h k = elim (Bool-cases (leb (length x) (length z))) [
    | inl e ↦ (let raw : r.raw ≡ true = k ∙ rw e refl in rw (e, raw) refl)
    | inr e ↦
        let raw : r.raw ≡ false = k ∙ rw e refl in rw (e, raw) (rw (sound.inflates x z h) refl)
  ]

  pub choose_shorter : (x z : List ℕ) → length (choose_payload x z).0 ≤ length x
  unfolding choose_payload
  choose_shorter x z = ground arith

  pub verify_same :
      (x : List ℕ) (r : Ref)
      → r.logical ≡ length x % 2 ^ 32
      → r.hash ≡ c.blake3 x
      → verify c r x ≡ ok x
  unfolding verify
  verify_same x r h k =
      let long : (length x % 2 ^ 32 == r.logical) ≡ true = ground (arith, sym h) in
      let hash : bytes_eq (c.blake3 x) r.hash ≡ true =
        (bytes_eq_iff (c.blake3 x) r.hash).1 (sym k) in
      rw (long, hash) refl

verified :
    (c : Crates) (r : Ref) (x y : List ℕ)
    → verify c r x ≡ ok y
    → (c.blake3 y ≡ r.hash) × (length y % 2 ^ 32 ≡ r.logical)
unfolding verify
verified c r x y h = elim (Bool-cases (length x % 2 ^ 32 == r.logical)) [
  | inl long ↦ elim (Bool-cases (bytes_eq (c.blake3 x) r.hash)) [
    | inl same ↦
        let e : ◌≡◌ {A = Result Error (List ℕ)} (ok x) (ok y) = rw (long, same) at h in
        let back : x ≡ y = cc in
        (rw (← back) ((bytes_eq_iff (c.blake3 x) r.hash).0 same), rw (← back) (ground arith))
    | inr other ↦
        (let e : ◌≡◌ {A = Result Error (List ℕ)} (err content_hash_mismatch) (ok y) =
            rw (long, other) at h in
          cc)
  ]
  | inr short ↦
      (let e : ◌≡◌ {A = Result Error (List ℕ)} (err logical_mismatch) (ok y) = rw short at h in cc)
]

unpack-verify :
    (c : Crates) (r : Ref) (u : Result Error (List ℕ)) (y : List ℕ)
    → (u >>= (λ x. verify c r x)) ≡ ok y
    → (c.blake3 y ≡ r.hash) × (length y % 2 ^ 32 ≡ r.logical)
unpack-verify c r (ok x) y h = verified c r x y h
unpack-verify c r (err e) y h = cc

clusters-verify :
    (c : Crates) (r : Ref) (u : Result Error (List ℕ)) (y : List ℕ)
    → (u >>= (λ buf. unpack c r (take r.payload buf) >>= (λ x. verify c r x))) ≡ ok y
    → (c.blake3 y ≡ r.hash) × (length y % 2 ^ 32 ≡ r.logical)
clusters-verify c r (ok buf) y h = unpack-verify c r (unpack c r (take r.payload buf)) y h
clusters-verify c r (err e) y h = cc

-- Whatever the device holds, a block that `read` returns has the hash of its reference and, modulo 2 ^ 32,
-- its length.
pub read_hash :
    (c : Crates) (bs : BlockStore) (d : Device) (s : d.State) (r : Ref) (y : List ℕ)
    → read c bs d s r ≡ ok y
    → (c.blake3 y ≡ r.hash) × (length y % 2 ^ 32 ≡ r.logical)
unfolding read
read_hash c bs d s r y h = clusters-verify c r (read_clusters c bs d s r.count r.start) y h

pub read_parts :
    (c : Crates) (bs : BlockStore) (d : Device) (s : d.State) (r : Ref) (buf payload x : List ℕ)
    → read_clusters c bs d s r.count r.start ≡ ok buf
    → take r.payload buf ≡ payload
    → unpack c r payload ≡ ok x
    → verify c r x ≡ ok x
    → read c bs d s r ≡ ok x
unfolding read
read_parts c bs d s r buf payload x h k u w = rw (h, k, u) w
