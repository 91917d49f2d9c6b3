-- ===== src/Fs/Streams.antt =====
-- rust/bloomfs-fs/src/lib.rs: the directory stream.
use bloomfs.Base.{
  ℕ, ◌+◌, ◌-◌, ◌≤◌, ◌<◌, ◌≡◌, refl, ap, sym, ◌∙◌, List, [], ◌++◌, ltb, leb, length, slice, drop,
  take, Bool-cases, inl, inr, arith, length-take, length-drop, append-take-drop, drop_all,
  append-nil,
}
use bloomfs.Base.Fields.{drop-drop}
use bloomfs.Fs.{DirHandle, batch_end, next}

-- What a stream has yet to give.
abbrev pub remaining : DirHandle → List (List ℕ)
remaining h = drop h.pos h.entries

-- A batch ends behind its start and in the snapshot.
batch_end_lem :
    (h : DirHandle) (n : ℕ)
    → h.pos < length h.entries
    → (h.pos < batch_end h n)
      × (batch_end h n ≤ length h.entries)
      × (1 ≤ n → batch_end h n ≤ h.pos + n)
      × (n ≡ 0 → batch_end h n ≡ length h.entries)
unfolding batch_end
batch_end_lem h n l = elim (Bool-cases (ltb 0 n)) [
  | inl a ↦ elim (Bool-cases (ltb (h.pos + n) (length h.entries))) [
    | inl b ↦
        rw (batch_end, a, b) (ground arith, ground arith, λ p. ground arith, λ p. ground arith)
    | inr b ↦
        rw (batch_end, a, b) (ground arith, ground arith, λ p. ground arith, λ p. ground arith)
  ]
  | inr a ↦ rw (batch_end, a) (ground arith, ground arith, λ p. ground arith, λ p. ground arith)
]

take_all : (xs : List (List ℕ)) (k : ℕ) → length xs ≤ k → take k xs ≡ xs
take_all xs k l =
    sym (append-nil (take k xs))
    ∙ ap (λ t. take k xs ++ t) (sym (drop_all k xs l))
    ∙ append-take-drop k xs

-- A batch and what is left after it are what was left before, so that no name is lost or given twice. A
-- batch of `n` has at most `n` names, one of 0 has all that are left, and as long as names are left, a
-- batch has one.
pub next_lem :
    (h : DirHandle) (n : ℕ)
    → ((next h n).1 ++ remaining (next h n).0 ≡ remaining h)
      × ((next h n).0.entries ≡ h.entries)
      × (1 ≤ n → length (next h n).1 ≤ n)
      × (n ≡ 0 → (next h n).1 ≡ remaining h)
      × (h.pos < length h.entries → 1 ≤ length (next h n).1)
unfolding next batch_end
next_lem h n = elim (Bool-cases (leb (length h.entries) h.pos)) [
  | inl b ↦
      let none_left : drop h.pos h.entries ≡ [] = drop_all h.pos h.entries (ground arith) in
      rw (next, b) (refl, refl, λ p. omega arith, λ p. sym none_left, λ p. absurd (ground arith))
  | inr b ↦
      let end = batch_end h n in
      let (l, m, few, all) = batch_end_lem h n (ground arith) in
      let size : length (slice h.entries h.pos (end - h.pos)) ≡ end - h.pos = omega (
        arith,
        length-take (end - h.pos) (drop h.pos h.entries),
        length-drop h.pos h.entries,
        l,
        m,
      ) in
      rw (next, b)
        (
          ap (λ t. slice h.entries h.pos (end - h.pos) ++ t)
                (sym (drop-drop (end - h.pos) h.pos end h.entries (omega (arith, l))))
              ∙ append-take-drop (end - h.pos) (drop h.pos h.entries),
          refl,
          λ p. omega (arith, size, few p),
          λ p.
              take_all (drop h.pos h.entries) (end - h.pos)
                (omega (arith, length-drop h.pos h.entries, all p)),
          λ p. omega (arith, size, l),
        )
]
