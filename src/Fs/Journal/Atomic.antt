-- ===== src/Fs/Journal/Atomic.antt =====
-- Crash atomicity: a transaction that is interrupted at any request, and whose replay is interrupted
-- any number of times, is in the end there as a whole or not at all.
use unix_os.Fs.Journal.Device.{
  Run, Disk, Block, Ends, done, Fate, cut, ends, M, panicked, cuts, panics, blk_read, ◌>>=◌, pure,
  blk_write, works,
}
use unix_os.Fs.Journal.{
  Journal, redo, replay_header, journal_replay, empty_txn, write_block, discard_slot,
  journal_slot_data0, journal_magic, sectors_per_block, update, journal_max_per_txn,
  journal_slot_hdr, zero_block, journal_commit,
}
use unix_os.Prelude.{
  List, ◌≡◌, true, ℕ, ◌∷◌, suc, Result, [], if◌then◌else◌, add32, not, ◌==◌, ◌*◌, ◌||◌, ok, none,
  err, eio, ltb, some, ◌+◌, ap, zero, refl, false, fun_ext, replicate, length, ◌≤◌, ◌⊎◌, subst,
  arith, ◌∙◌, ◌-◌, Bool-cases, inl, inr,
}
use unix_os.Fs.Journal.Crc.{journal_crc}
use unix_os.Fs.Journal.Layout.{Fits, Outside}
use unix_os.Fs.Journal.Phases.{Recoverable, NotCommitted, applied}
use unix_os.Fs.Journal.Replay.{Replayed, replay-Replayed}
use unix_os.Fs.Journal.Commit.{commit-Returned}

-- The disk at which a run ends or stops.
unfoldable pub disk_of : {A : Type 0} → Run A → Disk
disk_of (done a d fs) = d
disk_of (cut d) = d
disk_of (panicked d) = d

-- The journal as journal_init sets it up when the machine starts again.
abbrev pub rebooted : Journal → Journal
rebooted j = record j { txn = empty_txn; initialized = true }

-- Replays after one another, each on the disk that the one before it left.
pub replays : Journal → List (List Fate) → Disk → Disk
unfolding disk_of
replays j [] d = d
replays j (fs ∷ rest) d = replays j rest (disk_of (journal_replay (rebooted j) d fs))

redo-rebooted : (j : Journal) (hdr : Block) (i n : ℕ) → redo (rebooted j) hdr i n ≡ redo j hdr i n
unfolding redo
redo-rebooted j hdr i zero = refl
redo-rebooted j hdr i (suc n) = ap around (redo-rebooted j hdr (i + 1) n)
  where
    around : M (Result (Unit {0})) → M (Result (Unit {0}))
    around m =
        blk_read (add32 (add32 j.start journal_slot_data0) i * sectors_per_block) sectors_per_block
        >>= λ r. elim r [
          | none ↦ pure (err eio)
          | some buf ↦ do
            written ← blk_write (hdr (4 + i) * j.target_sectors) j.target_sectors buf
            elim written [ true ↦ m | false ↦ pure (err eio) ]
        ]

replay_header-rebooted :
    (j : Journal) (hdr : Block) → replay_header (rebooted j) hdr ≡ replay_header j hdr
unfolding replay_header write_block discard_slot
replay_header-rebooted j hdr = ap around (redo-rebooted j hdr 0 (hdr 2))
  where
    around : M (Result (Unit {0})) → M (Result (Unit {0}))
    around m =
        if not (hdr 0 == journal_magic) || not (hdr 3 == 1)
        then pure (ok tt)
        else (if not (journal_crc (update hdr 12 0) == hdr 12)
            then discard_slot j
            else (if hdr 2 == 0 || ltb journal_max_per_txn (hdr 2)
                then discard_slot j
                else (m >>= λ redone. elim redone [
                  | err e ↦ pure (err e)
                  | ok u ↦ write_block j journal_slot_hdr zero_block >>= λ c. pure (ok tt)
                ])))

-- The replay of the next start is that of a journal which still knows its transaction.
replay-rebooted :
    (j : Journal) → j.initialized ≡ true → journal_replay (rebooted j) ≡ journal_replay j
unfolding journal_replay
replay-rebooted j on = rw on (ap around (fun_ext (replay_header-rebooted j)))
  where
    around : (Block → M (Result (Unit {0}))) → M (Result (Unit {0}))
    around f =
        blk_read (add32 j.start journal_slot_hdr * sectors_per_block) sectors_per_block >>= λ r.
        elim r [ none ↦ pure (err eio) | some hdr ↦ f hdr ]

Ends-Recoverable :
    {A : Type 0} {C : Disk → Type 0} {P : A → Disk → Type 0} (r : Run A)
    → Ends C P r
    → ((a : A) (d : Disk) → P a d → C d)
    → C (disk_of r)
unfolding disk_of
Ends-Recoverable (done a d fs) (ends p) keep = keep a d p
Ends-Recoverable (cut d) (cuts c) keep = c
Ends-Recoverable (panicked d) (panics c) keep = c

module _ (j : Journal) (fits : Fits j j.txn.blocks)
    (few : length j.txn.blocks ≤ journal_max_per_txn) (on : j.initialized ≡ true) (d₀ : Disk) where
  rebooted-Replayed :
      (d : Disk) (fs : List Fate)
      → Recoverable j d₀ d
      → Ends (Recoverable j d₀) (Replayed j fits few d₀) (journal_replay (rebooted j) d fs)
  rebooted-Replayed d fs r = rw (replay-rebooted j on) (replay-Replayed j fits few d₀ d fs r)

  pub replays-Recoverable :
      (crashes : List (List Fate)) (d : Disk)
      → Recoverable j d₀ d
      → Recoverable j d₀ (replays j crashes d)
  unfolding replays
  replays-Recoverable [] d r = r
  replays-Recoverable (fs ∷ rest) d r = replays-Recoverable rest _ (
      Ends-Recoverable (journal_replay (rebooted j) d fs) (rebooted-Replayed d fs r)
        (λ a d' h. h.recoverable))

  -- Let a commit go on a disk whose log is idle, with any request failing and the power cut anywhere,
  -- and then any number of replays, cut anywhere too. If a replay after that returns success, the
  -- disk outside the journal is either what it was before the commit or has the whole transaction
  -- applied.
  pub crash_atomic :
      (fs : List Fate) (crashes : List (List Fate)) (last : List Fate) (d : Disk) (left : List Fate)
      → NotCommitted j d₀
      → journal_replay (rebooted j) (replays j crashes (disk_of (journal_commit j d₀ fs))) last
        ≡ done (ok tt) d left
      → ((a : ℕ) → Outside j a → d a ≡ d₀ a) ⊎ ((a : ℕ) → Outside j a → d a ≡ applied j d₀ a)
  crash_atomic fs crashes last d left idle e = result (subst (Ends _ _) e ended)
    where
      committed : Recoverable j d₀ (disk_of (journal_commit j d₀ fs))
      committed =
          Ends-Recoverable (journal_commit j d₀ fs) (commit-Returned j fits few d₀ fs idle)
            (λ a x h. h.recoverable)

      ended :
          Ends (Recoverable j d₀) (Replayed j fits few d₀) (
            journal_replay (rebooted j) (replays j crashes (disk_of (journal_commit j d₀ fs))) last)
      ended = rebooted-Replayed _ last (replays-Recoverable crashes _ committed)

      result :
          Ends (Recoverable j d₀) (Replayed j fits few d₀) (done (ok tt) d left)
          → ((a : ℕ) → Outside j a → d a ≡ d₀ a) ⊎ ((a : ℕ) → Outside j a → d a ≡ applied j d₀ a)
      result (ends h) = h.on_ok refl

-- n rounds of a read and a write that work
abbrev rounds : ℕ → List Fate → List Fate
rounds zero rest = rest
rounds (suc n) rest = works ∷ works ∷ rounds n rest

rounds-replicate : (n k : ℕ) → rounds n (replicate k works) ≡ replicate (n + n + k) works
rounds-replicate zero k = ap (λ m. replicate m works) (zero_add k)
  where
    zero_add : (k : ℕ) → k ≡ 0 + 0 + k
    zero_add k = omega arith
rounds-replicate (suc n) k =
    ap (λ xs. works ∷ works ∷ xs) (rounds-replicate n k) ∙ ap (λ m. replicate m works) (suc_suc n)
  where
    suc_suc : (n : ℕ) → suc (suc (n + n + k)) ≡ suc n + suc n + k
    suc_suc n = omega arith

redo_returns :
    (j : Journal) (hdr : Block) (i n : ℕ) (d : Disk) (rest : List Fate)
    → (d' : Disk) × (redo j hdr i n d (rounds n rest) ≡ done (ok tt) d' rest)
unfolding redo blk_read blk_write
redo_returns j hdr i zero d rest = (d, refl)
redo_returns j hdr i (suc n) d rest = redo_returns j hdr (i + 1) n _ rest

discard_returns :
    (j : Journal) (d : Disk) (fs : List Fate)
    → (d' : Disk) × (discard_slot j d (works ∷ fs) ≡ done (ok tt) d' fs)
unfolding discard_slot write_block blk_write
discard_returns j d fs = (_, refl)

abbrev Returns : Run (Result (Unit {0})) → Type 0
Returns r = (d : Disk) × (fs : List Fate) × (r ≡ done (ok tt) d fs)

clear-Returns :
    (j : Journal) (hdr : Block) (n m : ℕ) (d : Disk)
    → n ≤ journal_max_per_txn
    → Returns (
        (redo j hdr 0 n >>= λ redone. elim redone [
          | err e ↦ pure (err e)
          | ok u ↦ write_block j journal_slot_hdr zero_block >>= λ c. pure (ok tt)
        ])
          d
          (replicate (17 + m) works))
unfolding write_block blk_write
clear-Returns j hdr n m d h =
    subst (λ fs. Returns (cleared fs))
      (rounds-replicate n (suc (16 - (n + n) + m)) ∙ ap (λ k. replicate k works) enough)
      (rw (redo_returns j hdr 0 n d (works ∷ replicate (16 - (n + n) + m) works)).1 (_, _, refl))
  where
    cleared : List Fate → Run (Result (Unit {0}))
    cleared =
        (redo j hdr 0 n >>= λ redone. elim redone [
          | err e ↦ pure (err e)
          | ok u ↦ write_block j journal_slot_hdr zero_block >>= λ c. pure (ok tt)
        ])
          d

    enough : n + n + suc (16 - (n + n) + m) ≡ 17 + m
    enough = omega arith

replay_header-Returns :
    (j : Journal) (hdr : Block) (m : ℕ) (d : Disk)
    → Returns (replay_header j hdr d (replicate (17 + m) works))
unfolding replay_header
replay_header-Returns j hdr m d =
    elim (Bool-cases (not (hdr 0 == journal_magic) || not (hdr 3 == 1))) [
      | inl idle ↦ rw idle (_, _, refl)
      | inr valid ↦ elim (Bool-cases (not (journal_crc (update hdr 12 0) == hdr 12))) [
        | inl torn ↦ rw (valid, torn) discarded
        | inr whole ↦ elim (Bool-cases (hdr 2 == 0 || ltb journal_max_per_txn (hdr 2))) [
          | inl bad ↦ rw (valid, whole, bad) discarded
          | inr good ↦ rw (valid, whole, good) (clear-Returns j hdr (hdr 2) m d (ground arith))
        ]
      ]
    ]
  where
    first : works ∷ replicate (16 + m) works ≡ replicate (17 + m) works
    first = ap (λ k. replicate k works) (suc_16 m)
      where
        suc_16 : (m : ℕ) → suc (16 + m) ≡ 17 + m
        suc_16 m = omega arith

    discarded : Returns (discard_slot j d (replicate (17 + m) works))
    discarded =
        subst (λ fs. Returns (discard_slot j d fs)) first
          (
            (discard_returns j d (replicate (16 + m) works)).0,
            _,
            (discard_returns j d (replicate (16 + m) works)).1,
          )

-- The replay at a start whose first 18 requests work returns success, whatever the disk holds.
pub replay_returns :
    (j : Journal) (m : ℕ) (d : Disk)
    → (d' : Disk) × (fs : List Fate) × (journal_replay (rebooted j) d (replicate (18 + m) works)
        ≡ done (ok tt) d' fs)
unfolding journal_replay blk_read
replay_returns j m d =
    subst (λ fs. Returns (journal_replay (rebooted j) d fs))
      (ap (λ k. replicate k works) (suc_17 m)) (replay_header-Returns (rebooted j) _ m d)
  where
    suc_17 : (m : ℕ) → suc (17 + m) ≡ 18 + m
    suc_17 m = omega arith
