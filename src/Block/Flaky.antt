-- ===== src/Block/Flaky.antt =====
-- A device in memory with a cache that loses power at one write, for the examples of
-- rust/bloomfs-cow/src/lib.rs: the block of that write is torn (to zeros), every later write fails, and
-- what was not flushed can be lost.
use bloomfs.Base.{
  ℕ, ◌-◌, true, false, ◌<◌, ◌≡◌, ◌≢◌, ◌⊎◌, refl, ◌∙◌, List, Bool-cases, leb, ◌==◌, if◌then◌else◌,
  inl, inr, subst, sym, ap, length, replicate, length-replicate, Result, ok, err, arith,
}
use bloomfs.Block.{Error, Device, MayFail, LosesPower, Unflushed, AfterWrite, block_size, io}
use bloomfs.Block.Memory.{
  MemDevice, mem_device, read_block, write_block, IsWhole, mem_device-IsArray,
}

-- What is read, what was flushed, and the writes up to the failing one, counted down.
pub record FlakyDevice : Type 0 where
  pub inner : MemDevice
  pub stable : MemDevice
  pub left : ℕ

unfoldable pub torn : List ℕ
torn = replicate block_size 0

unfoldable pub flaky_write : FlakyDevice → ℕ → List ℕ → FlakyDevice × Result Error (Unit {0})
flaky_write s num b =
    let torn_inner = (write_block s.inner num torn).0 in
    let whole = write_block s.inner num b in
    if s.left == 0
    then (s, err io)
    else if s.left == 1
    then (record s { inner = torn_inner; left = 0 }, err io)
    else (record s { inner = whole.0; left = s.left - 1 }, whole.1)

unfoldable pub flaky_sync : FlakyDevice → FlakyDevice × Result Error (Unit {0})
flaky_sync s = if s.left == 0 then (s, err io) else (record s { stable = s.inner }, ok tt)

abbrev pub flaky_device : Device
flaky_device = record {
  State = FlakyDevice;
  read_block = λ s num. read_block s.inner num;
  write_block = flaky_write;
  blocks = λ s. s.inner.count;
  sync = flaky_sync;
}

mem_others :
    (s : MemDevice) (num : ℕ) (b : List ℕ) (j : ℕ)
    → IsWhole s
    → num ≢ j
    → read_block (write_block s num b).0 j ≡ read_block s j
mem_others s num b j w h = elim (Bool-cases (leb s.count num)) [
  | inl out ↦ unfold write_block in rw out refl
  | inr inside ↦ elim (Bool-cases (length b == 4096)) [
    | inl l ↦
        mem_device-IsArray.reads_back s num j b w (ground arith) (ground arith)
        ∙ (let apart : (num == j) ≡ false = ground arith in rw apart refl)
    | inr l ↦ unfold write_block in rw (inside, l) refl
  ]
]

-- The device in memory never fails.
pub mem_device-MayFail : MayFail mem_device IsWhole (λ t. t ≡ torn)
mem_device-MayFail = record {
  readable = λ s num w h. (let r = mem_device-IsArray.readable s num w h in (r.0, r.1));
  stays_good = λ s num b w. mem_device-IsArray.stays_good s num b w;
  keeps_blocks = λ s num b. mem_device-IsArray.keeps_blocks s num b;
  others = λ s num b j w h. mem_others s num b j w h;
  outcome = λ s num b w h l. rw (mem_device-IsArray.writes s num b w h l) (
      mem_device-IsArray.reads_back s num num b w h l
      ∙ (let same : (num == num) ≡ true = ground arith in rw same refl));
  syncs = λ s w. (w, refl, λ j. refl);
}

-- What holds of the device before the write, after the torn one and after the whole one.
inner_any :
    (P : MemDevice → Type 0) (s : FlakyDevice) (num : ℕ) (b : List ℕ)
    → P s.inner
    → P (write_block s.inner num torn).0
    → P (write_block s.inner num b).0
    → P (flaky_write s num b).0.inner
inner_any P s num b before cut whole = elim (Bool-cases (s.left == 0)) [
  | inl off ↦ unfold flaky_write in rw off before
  | inr on ↦ elim (Bool-cases (s.left == 1)) [
    | inl last ↦ unfold flaky_write in rw (on, last) cut
    | inr more ↦ unfold flaky_write in rw (on, more) whole
  ]
]

keeps_count :
    (s : FlakyDevice) (num : ℕ) (b : List ℕ) → (flaky_write s num b).0.inner.count ≡ s.inner.count
keeps_count s num b =
    inner_any (λ m. m.count ≡ s.inner.count) s num b refl
      (mem_device-IsArray.keeps_blocks s.inner num torn)
      (mem_device-IsArray.keeps_blocks s.inner num b)

stable_kept : (s : FlakyDevice) (num : ℕ) (b : List ℕ) → (flaky_write s num b).0.stable ≡ s.stable
unfolding flaky_write
stable_kept s num b = ground arith

-- Both copies have whole blocks, as many of them.
abbrev pub IsFit : FlakyDevice → Type 0
IsFit s = IsWhole s.inner × IsWhole s.stable × (s.stable.count ≡ s.inner.count)

sync_fit :
    (s : FlakyDevice)
    → IsFit s
    → IsFit (flaky_sync s).0
      × ((flaky_sync s).0.inner.count ≡ s.inner.count)
      × ((j : ℕ) → read_block (flaky_sync s).0.inner j ≡ read_block s.inner j)
unfolding flaky_sync
sync_fit s w = elim (Bool-cases (s.left == 0)) [
  | inl off ↦ rw off (w, refl, λ j. refl)
  | inr on ↦ rw on ((w.0, w.0, refl), refl, λ j. refl)
]

module _ (s : FlakyDevice) (num : ℕ) (b : List ℕ) (w : IsWhole s.inner)
    (h : num < s.inner.count) where
  back : (t : List ℕ) → length t ≡ block_size → read_block (write_block s.inner num t).0 num ≡ ok t
  back t l =
      mem_device-IsArray.reads_back s.inner num num t w h l
      ∙ (let same : (num == num) ≡ true = ground arith in rw same refl)

  length-torn : length torn ≡ block_size
  unfolding torn
  length-torn = length-replicate {A = ℕ} 4096 0

  outcome :
      length b ≡ block_size
      → AfterWrite flaky_device
          (λ t. t ≡ torn)
          s
          num
          b
          (flaky_write s num b).0
          (flaky_write s num b).1
  outcome l = elim (Bool-cases (s.left == 0)) [
    | inl off ↦ unfold flaky_write in rw off (inl refl)
    | inr on ↦ elim (Bool-cases (s.left == 1)) [
      | inl last ↦ unfold flaky_write in rw (on, last) (inr (torn, back torn length-torn, refl))
      | inr more ↦
          unfold flaky_write in
          rw (on, more) (rw (mem_device-IsArray.writes s.inner num b w h l) (back b l))
    ]
  ]

-- A failed write leaves its block as it was or torn, and no call touches another block.
pub flaky_device-MayFail : MayFail flaky_device IsFit (λ t. t ≡ torn)
flaky_device-MayFail = record {
  readable = λ s num w h. (let r = mem_device-IsArray.readable s.inner num w.0 h in (r.0, r.1));
  stays_good = λ s num b w. (
    inner_any IsWhole s num b w.0 (mem_device-IsArray.stays_good s.inner num torn w.0)
        (mem_device-IsArray.stays_good s.inner num b w.0),
    subst IsWhole (sym (stable_kept s num b)) w.1,
    ap (λ (m : MemDevice). m.count) (stable_kept s num b) ∙ w.2 ∙ sym (keeps_count s num b),
  );
  keeps_blocks = λ s num b. keeps_count s num b;
  others = λ s num b j w h.
      inner_any (λ m. read_block m j ≡ read_block s.inner j) s num b refl
        (mem_others s.inner num torn j w.0 h) (mem_others s.inner num b j w.0 h);
  outcome = λ s num b w h l. outcome s num b w.0 h l;
  syncs = λ s w. sync_fit s w;
}

-- After a loss of power the cache survives, or what was flushed is left.
pub data Reboot (s : FlakyDevice) : FlakyDevice → Type 0 where
  survives : Reboot s s
  drops : Reboot s (record s { inner = s.stable })

mem_at :
    (s : MemDevice) (num : ℕ) (b : List ℕ)
    → IsWhole s
    → (read_block (write_block s num b).0 num ≡ read_block s num)
      ⊎ (read_block (write_block s num b).0 num ≡ ok b)
mem_at s num b w = elim (Bool-cases (leb s.count num)) [
  | inl out ↦ inl (unfold write_block in rw out refl)
  | inr inside ↦ elim (Bool-cases (length b == 4096)) [
    | inl l ↦ inr (
        mem_device-IsArray.reads_back s num num b w (ground arith) (ground arith)
        ∙ (let same : (num == num) ≡ true = ground arith in rw same refl))
    | inr l ↦ inl (unfold write_block in rw (inside, l) refl)
  ]
]

wrote_survives :
    (s : FlakyDevice) (num : ℕ) (b : List ℕ)
    → IsFit s
    → Unflushed
        (λ t. t ≡ torn)
        (read_block s.inner num)
        b
        (read_block (flaky_write s num b).0.inner num)
wrote_survives s num b w =
    inner_any (λ m. Unflushed (λ t. t ≡ torn) (read_block s.inner num) b (read_block m num)) s num b
      (inl refl)
      (elim (mem_at s.inner num torn w.0) [ inl e ↦ inl e | inr e ↦ inr (inl (torn, e, refl)) ])
      (elim (mem_at s.inner num b w.0) [ inl e ↦ inl e | inr e ↦ inr (inr e) ])

rebooted_fit :
    (s s' : FlakyDevice) → IsFit s → Reboot s s' → IsFit s' × (s'.inner.count ≡ s.inner.count)
rebooted_fit s s' w survives = (w, refl)
rebooted_fit s s' w drops = ((w.1, w.1, refl), w.2)

rebooted_write :
    (s : FlakyDevice) (num : ℕ) (b : List ℕ) (s' : FlakyDevice)
    → IsFit s
    → Reboot (flaky_write s num b).0 s'
    → (s0 : FlakyDevice) × Reboot s s0
      × ((j : ℕ) → num ≢ j → read_block s'.inner j ≡ read_block s0.inner j)
      × Unflushed (λ t. t ≡ torn) (read_block s0.inner num) b (read_block s'.inner num)
rebooted_write s num b s' w survives =
    (s, survives, λ j h. flaky_device-MayFail.others s num b j w h, wrote_survives s num b w)
rebooted_write s num b s' w drops = (
  record s { inner = s.stable },
  drops,
  λ j h. ap (λ (m : MemDevice). read_block m j) (stable_kept s num b),
  inl (ap (λ (m : MemDevice). read_block m num) (stable_kept s num b)),
)

rebooted_sync :
    (s s' : FlakyDevice)
    → Reboot (flaky_sync s).0 s'
    → (s0 : FlakyDevice) × Reboot s s0 × ((j : ℕ) → read_block s'.inner j ≡ read_block s0.inner j)
rebooted_sync s s' survives =
    (s, survives, λ j. ap (λ (m : MemDevice). read_block m j) (unfold flaky_sync in ground arith))
rebooted_sync s s' drops = elim (Bool-cases (s.left == 0)) [
  | inl off ↦ (
    record s { inner = s.stable },
    drops,
    λ j. ap (λ (m : MemDevice). read_block m j) (unfold flaky_sync in rw off refl),
  )
  | inr on ↦
      (s, survives, λ j. ap (λ (m : MemDevice). read_block m j) (unfold flaky_sync in rw on refl))
]

sync_off : (s : FlakyDevice) → (s.left == 0) ≡ true → (flaky_sync s).1 ≡ err io
unfolding flaky_sync
sync_off s off = rw off refl

rebooted_flushed :
    (s s' : FlakyDevice)
    → (flaky_sync s).1 ≡ ok tt
    → Reboot (flaky_sync s).0 s'
    → (j : ℕ) → read_block s'.inner j ≡ read_block s.inner j
rebooted_flushed s s' h survives j =
    ap (λ (m : MemDevice). read_block m j) (unfold flaky_sync in ground arith)
rebooted_flushed s s' h drops j = elim (Bool-cases (s.left == 0)) [
  | inl off ↦
      (let clash : ◌≡◌ {A = Result Error (Unit {0})} (err io) (ok tt) = sym (sync_off s off) ∙ h in
        cc)
  | inr on ↦ ap (λ (m : MemDevice). read_block m j) (unfold flaky_sync in rw on refl)
]

-- A write since the last sync survives, maybe torn, or is lost with all others.
pub flaky_device-LosesPower : LosesPower flaky_device IsFit (λ t. t ≡ torn) Reboot
flaky_device-LosesPower = record {
  device = flaky_device-MayFail;
  reboots = λ s s' w r. rebooted_fit s s' w r;
  writes = λ s num b s' w r. rebooted_write s num b s' w r;
  keeps = λ s s' w r. rebooted_sync s s' r;
  flushes = λ s s' w h r. rebooted_flushed s s' h r;
}
