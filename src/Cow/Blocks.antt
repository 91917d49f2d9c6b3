-- ===== src/Cow/Blocks.antt =====
-- rust/bloomfs-cow/src/lib.rs: the loops over the blocks of a metadata slot.
use bloomfs.Base.{
  ℕ, zero, suc, ◌+◌, ◌*◌, ◌≤◌, ◌<◌, ◌≡◌, refl, ap, sym, ◌∙◌, List, ◌++◌, length, drop, slice,
  Result, ok, err, inl, inr, arith, length-take, length-drop,
}
use bloomfs.Block
use bloomfs.Block.{Device, MayFail, AfterWrite}
use bloomfs.Block.Runs.{
  write-cases, slice-next, Confined, one-Confined, then-Confined, written-back,
}
use bloomfs.Cow.{read_blocks, write_blocks, block, Error}

pub read_blocks-same :
    (d : Device) (s s' : d.State) (rounds at : ℕ)
    → ((j : ℕ) → at ≤ j → j < at + rounds → d.read_block s' j ≡ d.read_block s j)
    → read_blocks d s' rounds at ≡ read_blocks d s rounds at
unfolding read_blocks
read_blocks-same d s s' zero at h = refl
read_blocks-same d s s' (suc n) at h =
    let here : d.read_block s' at ≡ d.read_block s at = h at (omega arith) (omega arith) in
    rw (here, read_blocks-same d s s' n (at + 1) (λ j l m. h j (omega arith) (omega arith))) refl

read_more :
    (d : Device) (s : d.State) (n at : ℕ) (b r : List ℕ)
    → d.read_block s at ≡ ok b
    → read_blocks d s n (at + 1) ≡ ok r
    → read_blocks d s (suc n) at ≡ ok (b ++ r)
unfolding read_blocks
read_more d s n at b r h k = rw (h, k) refl

module _ (d : Device) (IsGood : d.State → Type 0) (IsTorn : List ℕ → Type 0)
    (safe : MayFail d IsGood IsTorn) where
  pub write_blocks-Confined :
      (rounds at off : ℕ) (buf : List ℕ) (s : d.State)
      → IsGood s
      → Confined d IsGood IsTorn safe at rounds s (write_blocks d rounds at off buf s).0
  unfolding write_blocks
  write_blocks-Confined zero at off buf s g = record {
    good = g;
    same_size = refl;
    outside = λ j h. refl;
  }
  write_blocks-Confined (suc n) at off buf s g =
      let b : List ℕ = slice buf off 4096 in
      let first : Confined d IsGood IsTorn safe at (suc n) s (d.write_block s at b).0 =
        one-Confined d IsGood IsTorn safe at n b s g in
      let rest : Confined d IsGood IsTorn safe (at + 1) n (d.write_block s at b).0
          (write_blocks d n (at + 1) (off + 4096) buf (d.write_block s at b).0).0 =
        write_blocks-Confined n (at + 1) (off + 4096) buf (d.write_block s at b).0 first.good in
      elim (write-cases (d.write_block s at b).1) [
        | inl done ↦ rw done (then-Confined d IsGood IsTorn safe at n s _ _ first rest)
        | inr (e, failed) ↦ rw failed first
      ]

  next :
      (n at off : ℕ) (buf : List ℕ) (s : d.State)
      → (d.write_block s at (slice buf off 4096)).1 ≡ ok tt
      → write_blocks d (suc n) at off buf s
        ≡ write_blocks d n (at + 1) (off + 4096) buf (d.write_block s at (slice buf off 4096)).0
  unfolding write_blocks
  next n at off buf s h = rw h refl

  stopped :
      (n at off : ℕ) (buf : List ℕ) (s : d.State) (e : Block.Error)
      → (d.write_block s at (slice buf off 4096)).1 ≡ err e
      → write_blocks d (suc n) at off buf s
        ≡ ((d.write_block s at (slice buf off 4096)).0, err (block e))
  unfolding write_blocks
  stopped n at off buf s e h = rw h refl

  -- A run that reports success reads back as the buffer that was written.
  pub read_blocks-write_blocks :
      (rounds at off : ℕ) (buf : List ℕ) (s : d.State)
      → IsGood s
      → at + rounds ≤ d.blocks s
      → off + rounds * 4096 ≤ length buf
      → (write_blocks d rounds at off buf s).1 ≡ ok tt
      → read_blocks d (write_blocks d rounds at off buf s).0 rounds at
        ≡ ok (slice buf off (rounds * 4096))
  read_blocks-write_blocks zero at off buf s g fits long h = unfold read_blocks in refl
  read_blocks-write_blocks (suc n) at off buf s g fits long h =
      let b : List ℕ = slice buf off 4096 in
      let size : length b ≡ 4096 =
        omega (arith, length-take 4096 (drop off buf), length-drop off buf) in
      let s1 : d.State = (d.write_block s at b).0 in
      elim (write-cases (d.write_block s at b).1) [
        | inl done ↦
            let good : IsGood s1 = safe.stays_good s at b g in
            let here : d.read_block s1 at ≡ ok b =
              written-back d IsGood IsTorn safe s at b s1 _ done
                (safe.outcome s at b g (omega arith) size) in
            let rest : Confined d IsGood IsTorn safe (at + 1) n s1
                (write_blocks d n (at + 1) (off + 4096) buf s1).0 =
              write_blocks-Confined n (at + 1) (off + 4096) buf s1 good in
            ap (λ p. read_blocks d p.0 (suc n) at) (next n at off buf s done)
            ∙ read_more d _ n at b _ (rest.outside at (inl (omega arith)) ∙ here) (
                read_blocks-write_blocks n (at + 1) (off + 4096) buf s1 good
                  (omega (arith, safe.keeps_blocks s at b)) (omega arith)
                  (ap (λ p. p.1) (sym (next n at off buf s done)) ∙ h))
            ∙ ap ok (slice-next buf off (n * 4096))
            ∙ ap (λ (k : ℕ). ok (slice buf off k)) (omega arith)
        | inr (e, failed) ↦
            (let clash : ◌≡◌ {A = Result Error (Unit {0})} (err (block e)) (ok tt) =
                ap (λ p. p.1) (sym (stopped n at off buf s e failed)) ∙ h in
              cc)
      ]
