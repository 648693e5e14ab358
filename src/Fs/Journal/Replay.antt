-- ===== src/Fs/Journal/Replay.antt =====
-- journal_replay on a recoverable disk, request by request.
use unix_os.Fs.Journal.{
  Journal, journal_max_per_txn, redo, journal_slot_data0, sectors_per_block, journal_slot_hdr,
  replay_header, committed_header, discard_slot, write_block, zero_block, journal_magic, update,
  journal_replay,
}
use unix_os.Fs.Journal.Layout.{
  Fits, apply_all, Outside, TargetsOutside, block_words, addr, written-buffer, apply_all_none,
}
use unix_os.Prelude.{
  length, ◌≤◌, Result, ◌≡◌, List, ok, ℕ, ◌⊎◌, ◌++◌, ◌+◌, suc, arith, ◌∷◌, add32, ◌*◌, ◌<◌, ap, ◌∙◌,
  subst, sym, [], zero, if◌then◌else◌, ◌==◌, err, inl, inr, ltb, Bool-cases, false, ==_iff, refl,
  not,
}
use unix_os.Fs.Journal.Device.{
  Disk, Block, Fate, Ends, ends, sector_words, written, read_then, write_then, M, ◌>>=◌, done, pure,
  bind,
}
use unix_os.Fs.Journal.Phases.{
  Recoverable, Logged, applied, DataAt, DataAt-target, Logged-target, NotCommitted,
}
use unix_os.Fs.Journal.Header.{TargetsAt, Accepted, Accepted-cong, committed_header-Accepted}
use mathlib.Core.List.{append_assoc}
use unix_os.Fs.Journal.Commit.{cleared-After}
use unix_os.Fs.Journal.Crc.{journal_crc}

-- What journal_replay does with a log that it accepts.
abbrev redo_and_clear : Journal → Block → M (Result (Unit {0}))
redo_and_clear j hdr = redo j hdr 0 (hdr 2) >>= λ redone. elim redone [
  | err e ↦ pure (err e)
  | ok u ↦ write_block j journal_slot_hdr zero_block >>= λ c. pure (ok tt)
]

module _ (j : Journal) (fits : Fits j j.txn.blocks)
    (few : length j.txn.blocks ≤ journal_max_per_txn) (d₀ : Disk) where
  -- What a replay that returns leaves.
  pub record Replayed (r : Result (Unit {0})) (d : Disk) : Type 0 where
    pub recoverable : Recoverable j d₀ d
    pub on_ok :
        r ≡ ok tt
        → ((a : ℕ) → Outside j a → d a ≡ d₀ a) ⊎ ((a : ℕ) → Outside j a → d a ≡ applied j d₀ a)

  Redone : Result (Unit {0}) → Disk → Type 0
  Redone r d = Logged j d₀ d × (r ≡ ok tt → (a : ℕ) → Outside j a → d a ≡ applied j d₀ a)

  redo-Redone :
      (pre rest : List (ℕ × Block)) (hdr : Block) (i n : ℕ) (d : Disk) (fs : List Fate)
      → j.txn.blocks ≡ pre ++ rest
      → n ≡ length rest
      → i + length rest ≤ journal_max_per_txn
      → TargetsAt hdr i rest
      → TargetsOutside j rest
      → DataAt j i rest d
      → Logged j d₀ d
      → ((a : ℕ) → Outside j a → apply_all j.target_sectors rest d a ≡ applied j d₀ a)
      → Ends (Recoverable j d₀) Redone (redo j hdr i n d fs)
  unfolding redo apply_all Redone
  redo-Redone pre [] hdr i zero d fs split e l ts out stored lg todo = ends (lg, (λ q. todo))
  redo-Redone pre [] hdr i (suc n) d fs split e l ts out stored lg todo = absurd (omega arith)
  redo-Redone pre ((t, b) ∷ rest) hdr i zero d fs split e l ts out stored lg todo =
      absurd (omega arith)
  redo-Redone pre ((t, b) ∷ rest) hdr i (suc n) d fs split e l ts out stored lg todo =
      read_then (add32 (add32 j.start journal_slot_data0) i * sectors_per_block) sectors_per_block _
        d fs (Recoverable.logged lg)
        (λ fs1.
          write_then (hdr (4 + i) * j.target_sectors) j.target_sectors buf _ d fs1
            (Recoverable.logged lg)
            (λ fs2.
              subst (λ x. Ends (Recoverable j d₀) Redone (redo j hdr (i + 1) n x fs2)) (sym same)
                (redo-Redone (pre ++ (t, b) ∷ []) rest hdr (i + 1) n next fs2
                  (split ∙ sym (append_assoc pre ((t, b) ∷ []) rest)) (omega arith) (omega arith)
                  ts.1 out.1
                  (DataAt-target j fits.no_wrap t b (i + 1) rest d out.0 (omega arith) stored.1)
                  (Logged-target j d₀ pre t b rest d fits few split out.0 lg) todo))
            (λ fs2. ends (lg, (λ q. cc))))
        (λ fs1. ends (lg, (λ q. cc)))
    where
      buf : Block
      buf w = d (add32 (add32 j.start journal_slot_data0) i * sectors_per_block * sector_words + w)

      next : Disk
      next = written (t * j.target_sectors) j.target_sectors b d

      buf-eq : (w : ℕ) → w < block_words → buf w ≡ b w
      buf-eq w p = ap d at ∙ stored.0 w p
        where
          at :
              add32 (add32 j.start journal_slot_data0) i * sectors_per_block * sector_words + w
              ≡ addr j (journal_slot_data0 + i) w
          at = omega (arith, fits.no_wrap)

      same : written (hdr (4 + i) * j.target_sectors) j.target_sectors buf d ≡ next
      same =
          ap (λ x. written (x * j.target_sectors) j.target_sectors buf d) ts.0
          ∙ written-buffer (t * j.target_sectors) j.target_sectors buf b d fits.target_len buf-eq

  header_of : Disk → Block
  header_of d w = d (add32 j.start journal_slot_hdr * sectors_per_block * sector_words + w)

  header_of-addr : (d : Disk) (w : ℕ) → header_of d w ≡ d (addr j journal_slot_hdr w)
  unfolding header_of
  header_of-addr d w = ap d at
    where
      at :
          add32 j.start journal_slot_hdr * sectors_per_block * sector_words + w
          ≡ addr j journal_slot_hdr w
      at = omega (arith, fits.no_wrap)

  -- A header that does not count is left alone.
  replay_idle :
      (d : Disk) (fs : List Fate)
      → NotCommitted j d
      → replay_header j (header_of d) d fs ≡ done (ok tt) d fs
  unfolding replay_header
  replay_idle d fs (inl h) = ground (arith, h, header_of-addr d 0)
  replay_idle d fs (inr h) = ground (arith, h, header_of-addr d 3)

  header_of-Accepted : (d : Disk) → Logged j d₀ d → Accepted (header_of d) j.txn.blocks
  header_of-Accepted d l =
      Accepted-cong (committed_header j.txn) (header_of d) j.txn.blocks few
        (λ w p. sym (header_of-addr d w ∙ l.header w p)) (committed_header-Accepted j.txn few)

  -- A log that counts is redone, or discarded if it holds no block.
  replay-Accepted :
      (hdr : Block) (bs : List (ℕ × Block))
      → length bs ≤ journal_max_per_txn
      → Accepted hdr bs
      → replay_header j hdr ≡ (if hdr 2 == 0 then discard_slot j else redo_and_clear j hdr)
  unfolding replay_header
  replay-Accepted hdr bs l a =
      rw
        (
          (==_iff (hdr 0) journal_magic).1 a.magic,
          (==_iff (hdr 3) 1).1 a.committed,
          (==_iff (journal_crc (update hdr 12 0)) (hdr 12)).1 a.crc,
          small,
        )
        (elim (Bool-cases (hdr 2 == 0)) [ inl e ↦ rw e refl | inr e ↦ rw e refl ])
    where
      small : ltb journal_max_per_txn (hdr 2) ≡ false
      small = ground arith

  discard-Replayed :
      (d : Disk) (fs : List Fate)
      → Logged j d₀ d
      → ((a : ℕ) → Outside j a → d a ≡ applied j d₀ a)
      → Ends (Recoverable j d₀) Replayed (discard_slot j d fs)
  unfolding discard_slot write_block
  discard-Replayed d fs l all =
      write_then (add32 j.start journal_slot_hdr * sectors_per_block) sectors_per_block zero_block _
        d fs (Recoverable.logged l)
        (λ fs1.
          let c = cleared-After j fits few d₀ d all in
          ends (record { recoverable = Recoverable.after c; on_ok = λ e. inr c.kept }))
        (λ fs1. ends (record { recoverable = Recoverable.logged l; on_ok = λ e. cc }))

  clear-Replayed :
      (d : Disk) (fs : List Fate)
      → Logged j d₀ d
      → ((a : ℕ) → Outside j a → d a ≡ applied j d₀ a)
      → Ends
          (Recoverable j d₀)
          Replayed
          ((write_block j journal_slot_hdr zero_block >>= λ c. pure (ok tt)) d fs)
  unfolding write_block
  clear-Replayed d fs l all =
      write_then (add32 j.start journal_slot_hdr * sectors_per_block) sectors_per_block zero_block _
        d fs (Recoverable.logged l)
        (λ fs1.
          let c = cleared-After j fits few d₀ d all in
          ends (record { recoverable = Recoverable.after c; on_ok = λ e. inr c.kept }))
        (λ fs1. ends (record { recoverable = Recoverable.logged l; on_ok = λ e. inr all }))

  after_redo-Replayed :
      (r : Result (Unit {0})) (d : Disk) (fs : List Fate)
      → Redone r d
      → Ends (Recoverable j d₀) Replayed (
          (elim r as (λ x. M (Result (Unit {0}))) [
            | err e ↦ pure (err e)
            | ok u ↦ write_block j journal_slot_hdr zero_block >>= λ c. pure (ok tt)
          ])
            d fs)
  unfolding Redone
  after_redo-Replayed (ok u) d fs h = clear-Replayed d fs h.0 (h.1 (ap ok refl))
  after_redo-Replayed (err e) d fs h =
      ends (record { recoverable = Recoverable.logged h.0; on_ok = λ q. cc })

  replay-Logged-Replayed :
      (d : Disk) (fs : List Fate)
      → Logged j d₀ d
      → Ends (Recoverable j d₀) Replayed (replay_header j (header_of d) d fs)
  unfolding Redone apply_all
  replay-Logged-Replayed d fs l =
      let a = header_of-Accepted d l in
      elim (Bool-cases (header_of d 2 == 0)) [
        | inl empty ↦
            rw (replay-Accepted (header_of d) j.txn.blocks few a, empty)
              (discard-Replayed d fs l (λ x o.
                ap (λ (f : Disk). f x)
                  (sym
                    (apply_all_none j.target_sectors j.txn.blocks d (ground (arith, a.num_blocks))))
                ∙ l.pending x o))
        | inr some_blocks ↦
            rw (replay-Accepted (header_of d) j.txn.blocks few a, some_blocks)
              (bind
                (redo-Redone [] j.txn.blocks (header_of d) 0 (header_of d 2) d fs refl a.num_blocks
                  (omega arith) a.targets fits.outside l.logged l l.pending)
                after_redo-Replayed)
      ]

  pub replay-Replayed :
      (d : Disk) (fs : List Fate)
      → Recoverable j d₀ d
      → Ends (Recoverable j d₀) Replayed (journal_replay j d fs)
  unfolding journal_replay header_of
  replay-Replayed d fs r = elim (Bool-cases (not j.initialized)) [
    | inl off ↦ rw off (ends (record { recoverable = r; on_ok = λ e. cc }))
    | inr on ↦ rw on (
        read_then (add32 j.start journal_slot_hdr * sectors_per_block) sectors_per_block _ d fs r
          (from r) (λ fs1. ends (record { recoverable = r; on_ok = λ e. cc })))
  ]
    where
      from :
          Recoverable j d₀ d
          → (fs1 : List Fate)
          → Ends (Recoverable j d₀) Replayed (replay_header j (header_of d) d fs1)
      from (Recoverable.before b) fs1 =
          rw (replay_idle d fs1 b.idle) (ends (record { recoverable = r; on_ok = λ e. inl b.kept }))
      from (Recoverable.logged l) fs1 = replay-Logged-Replayed d fs1 l
      from (Recoverable.after c) fs1 =
          rw (replay_idle d fs1 c.idle) (ends (record { recoverable = r; on_ok = λ e. inr c.kept }))
