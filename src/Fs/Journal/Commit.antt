-- ===== src/Fs/Journal/Commit.antt =====
-- journal_commit, request by request: whenever the machine stops, the disk is recoverable.
use unix_os.Fs.Journal.{
  Journal, journal_max_per_txn, write_data, write_block, journal_slot_hdr, journal_slot_data0,
  sectors_per_block, apply_blocks, pending_header, commit_apply, journal_commit, committed_header,
  zero_block, journal_magic, journal_abort, commit_headers, commit_failed,
}
use unix_os.Fs.Journal.Layout.{
  Fits, slot_blocks, block_words, addr, written-Outside, apply_all, written_same, written_other,
  Outside, TargetsOutside, apply_all_local,
}
use unix_os.Prelude.{
  length, ◌≤◌, ℕ, List, Bool, ◌<◌, ◌+◌, ◌≡◌, ◌≢◌, true, add32, ◌*◌, ◌∷◌, arith, ◌∙◌, false, [],
  refl, ap, sym, ◌++◌, Result, inr, ok, err, eio, inl, Bool-cases, not, ◌||◌, ltb,
}
use unix_os.Fs.Journal.Device.{
  Disk, Block, Fate, Ends, written, ends, bind, write_then, mono, done, flush_then, ◌>>=◌, pure,
  panics, M,
}
use unix_os.Fs.Journal.Phases.{
  Before, Recoverable, DataAt, NotCommitted-written, Logged, After, applied, NotCommitted,
  DataAt-written, Logged-target,
}
use mathlib.Core.List.{append_assoc}
use unix_os.Fs.Journal.Header.{pending_header-idle}

module _ (j : Journal) (fits : Fits j j.txn.blocks)
    (few : length j.txn.blocks ≤ journal_max_per_txn) (d₀ : Disk) where
  -- The data area is written while the header is not committed.
  record Wrote (i : ℕ) (rest : List (ℕ × Block)) (d : Disk) (written : Bool) (d' : Disk)
      : Type 0 where
    still : Before j d₀ d'
    stored : written ≡ true → DataAt j i rest d'
    earlier :
        (idx w : ℕ)
        → idx < journal_slot_data0 + i
        → w < block_words
        → d' (addr j idx w) ≡ d (addr j idx w)

  Before-written :
      (idx : ℕ) (buf : Block) (d : Disk)
      → idx < slot_blocks
      → idx ≢ journal_slot_hdr
      → Before j d₀ d
      → Before j d₀ (written (add32 j.start idx * sectors_per_block) sectors_per_block buf d)
  Before-written idx buf d a ne b = record {
    kept = λ x o. written-Outside j fits.no_wrap idx a buf d x o ∙ b.kept x o;
    idle = NotCommitted-written j fits.no_wrap idx buf d a ne b.idle;
  }

  write_data-Wrote :
      (i k : ℕ) (rest : List (ℕ × Block)) (d : Disk) (fs : List Fate)
      → k ≡ journal_slot_data0 + i
      → i + length rest ≤ journal_max_per_txn
      → Before j d₀ d
      → Ends (Recoverable j d₀) (Wrote i rest d) (write_data j k rest d fs)
  unfolding write_data write_block
  write_data-Wrote i k [] d fs e l b =
      ends (record { still = b; stored = λ q. tt; earlier = λ idx w p q. refl })
  write_data-Wrote i k ((t, b) ∷ rest) d fs e l b4 =
      write_then (add32 j.start k * sectors_per_block) sectors_per_block b _ d fs
        (Recoverable.before b4)
        (λ fs'.
          mono
            (write_data-Wrote (i + 1) (k + 1) rest next fs' (omega arith) (omega arith) next-Before)
            then_stored)
        (λ fs'. ends (record { still = b4; stored = λ q. cc; earlier = λ idx w p q. refl }))
    where
      next : Disk
      next = written (add32 j.start k * sectors_per_block) sectors_per_block b d

      next-Before : Before j d₀ next
      next-Before = Before-written k b d (omega arith) (omega arith) b4

      then_stored :
          (a : Bool) (d' : Disk) → Wrote (i + 1) rest next a d' → Wrote i ((t, b) ∷ rest) d a d'
      then_stored a d' w = record {
        still = w.still;
        stored = λ q. (
          λ x p.
              w.earlier (journal_slot_data0 + i) x (omega arith) p
              ∙ ap (λ n. next (addr j n x)) (sym e)
              ∙ written_same j fits.no_wrap k (omega arith) b d x p,
          w.stored q,
        );
        earlier = λ idx x p q.
            w.earlier idx x (omega arith) q
            ∙ written_other j fits.no_wrap k (omega arith) b d idx x q (omega arith);
      }

  -- The blocks go to their targets while the log is valid.
  apply_blocks-Logged :
      (pre rest : List (ℕ × Block)) (d : Disk) (fs : List Fate)
      → j.txn.blocks ≡ pre ++ rest
      → TargetsOutside j rest
      → Logged j d₀ d
      → ((a : ℕ) → Outside j a → apply_all j.target_sectors rest d a ≡ applied j d₀ a)
      → Ends
          (Recoverable j d₀)
          (λ u d'. Logged j d₀ d' × ((a : ℕ) → Outside j a → d' a ≡ applied j d₀ a))
          (apply_blocks j rest d fs)
  unfolding apply_blocks apply_all
  apply_blocks-Logged pre [] d fs split out l todo = ends (l, todo)
  apply_blocks-Logged pre ((t, b) ∷ rest) d fs split out l todo =
      write_then (t * j.target_sectors) j.target_sectors b _ d fs (Recoverable.logged l)
        (λ fs'.
          apply_blocks-Logged (pre ++ (t, b) ∷ []) rest _ fs'
            (split ∙ sym (append_assoc pre ((t, b) ∷ []) rest)) out.1
            (Logged-target j d₀ pre t b rest d fits few split out.0 l) todo)
        (λ fs'. panics (Recoverable.logged l))

  -- A valid header makes the log count; its blocks stand in the data area.
  header-Logged :
      (d : Disk)
      → Before j d₀ d
      → DataAt j 0 j.txn.blocks d
      → Logged j d₀ (
          written
            (add32 j.start journal_slot_hdr * sectors_per_block)
            sectors_per_block
            (committed_header j.txn)
            d)
  header-Logged d b stored = record {
    pending = λ a o. apply_all_local j.target_sectors j.txn.blocks _ d₀ a (
        written-Outside j fits.no_wrap journal_slot_hdr (omega arith) (committed_header j.txn) d a o
        ∙ b.kept a o);
    header = λ w p.
        written_same j fits.no_wrap journal_slot_hdr (omega arith) (committed_header j.txn) d w p;
    logged =
        DataAt-written j fits.no_wrap journal_slot_hdr (committed_header j.txn) 0 j.txn.blocks d
          (omega arith) (omega arith) stored;
  }

  -- The pending header is none that counts.
  pending-Before :
      (d : Disk)
      → Before j d₀ d
      → Before j d₀ (
          written
            (add32 j.start journal_slot_hdr * sectors_per_block)
            sectors_per_block
            (pending_header j.txn)
            d)
  pending-Before d b = record {
    kept = λ a o.
        written-Outside j fits.no_wrap journal_slot_hdr (omega arith) (pending_header j.txn) d a o
        ∙ b.kept a o;
    idle = inr (λ q. zero_ne_one (
        sym (
          written_same j fits.no_wrap journal_slot_hdr (omega arith) (pending_header j.txn) d 3
            (omega arith)
          ∙ pending_header-idle j.txn)
        ∙ q));
  }
    where
      zero_ne_one : ◌≡◌ {A = ℕ} 0 1 → ⊥
      zero_ne_one q = omega arith

  -- A cleared header ends the log.
  pub cleared-After :
      (d : Disk)
      → ((a : ℕ) → Outside j a → d a ≡ applied j d₀ a)
      → After j d₀ (
          written
            (add32 j.start journal_slot_hdr * sectors_per_block)
            sectors_per_block
            zero_block
            d)
  cleared-After d all = record {
    kept = λ a o.
        written-Outside j fits.no_wrap journal_slot_hdr (omega arith) zero_block d a o ∙ all a o;
    idle = inl (λ q. zero_ne_magic (
        sym
          (written_same j fits.no_wrap journal_slot_hdr (omega arith) zero_block d 0 (omega arith))
        ∙ q));
  }
    where
      zero_ne_magic : ◌≡◌ {A = ℕ} 0 journal_magic → ⊥
      zero_ne_magic q = omega arith

  -- What a commit that returns leaves: with success the whole transaction, otherwise nothing of it.
  pub record Returned (r : Result (Unit {0}) × Journal) (d : Disk) : Type 0 where
    pub recoverable : Recoverable j d₀ d
    pub on_ok : r.0 ≡ ok tt → (a : ℕ) → Outside j a → d a ≡ applied j d₀ a
    pub on_err : r.0 ≢ ok tt → (a : ℕ) → Outside j a → d a ≡ d₀ a

  sb_written-Returned :
      (buf : Block) (j' : Journal) (d : Disk) (fs : List Fate)
      → Recoverable j d₀ d
      → Recoverable j d₀ (written (add32 j.start 0 * sectors_per_block) sectors_per_block buf d)
      → ((a : ℕ) → Outside j a → d a ≡ applied j d₀ a)
      → Ends (Recoverable j d₀) Returned ((write_block j 0 buf >>= λ c. pure (ok tt, j')) d fs)
  unfolding write_block
  sb_written-Returned buf j' d fs r r' all =
      write_then (add32 j.start 0 * sectors_per_block) sectors_per_block buf _ d fs r
        (λ fs'. ends (record {
          recoverable = r';
          on_ok = λ e a o. written-Outside j fits.no_wrap 0 (omega arith) buf d a o ∙ all a o;
          on_err = λ e. absurd (e refl);
        }))
        (λ fs'. ends (record { recoverable = r; on_ok = λ e. all; on_err = λ e. absurd (e refl) }))

  -- A write of the superblock keeps every phase.
  sb-Logged :
      (buf : Block) (d : Disk)
      → Logged j d₀ d
      → Logged j d₀ (written (add32 j.start 0 * sectors_per_block) sectors_per_block buf d)
  sb-Logged buf d l = record {
    pending = λ a o.
        apply_all_local j.target_sectors j.txn.blocks _ d a
          (written-Outside j fits.no_wrap 0 (omega arith) buf d a o)
        ∙ l.pending a o;
    header = λ w p.
        written_other j fits.no_wrap 0 (omega arith) buf d journal_slot_hdr w p (omega arith)
        ∙ l.header w p;
    logged =
        DataAt-written j fits.no_wrap 0 buf 0 j.txn.blocks d (omega arith) (omega arith) l.logged;
  }

  sb-After :
      (buf : Block) (d : Disk)
      → After j d₀ d
      → After j d₀ (written (add32 j.start 0 * sectors_per_block) sectors_per_block buf d)
  sb-After buf d l = record {
    kept = λ a o. written-Outside j fits.no_wrap 0 (omega arith) buf d a o ∙ l.kept a o;
    idle = NotCommitted-written j fits.no_wrap 0 buf d (omega arith) (omega arith) l.idle;
  }

  commit_apply-Returned :
      (d : Disk) (fs : List Fate)
      → Logged j d₀ d
      → Ends (Recoverable j d₀) Returned (commit_apply j d fs)
  unfolding commit_apply write_block
  commit_apply-Returned d fs l =
      bind (apply_blocks-Logged [] j.txn.blocks d fs refl fits.outside l l.pending) λ u d' fs' h.
        flush_then _ d' fs' (Recoverable.logged h.0) λ fs2.
          write_then (add32 j.start journal_slot_hdr * sectors_per_block) sectors_per_block
            zero_block _ d' fs2 (Recoverable.logged h.0)
            (λ fs3.
              let c = cleared-After d' h.1 in
              sb_written-Returned _ _ _ fs3 (Recoverable.after c)
                (Recoverable.after (sb-After _ _ c)) c.kept)
            (λ fs3.
              sb_written-Returned _ _ d' fs3 (Recoverable.logged h.0)
                (Recoverable.logged (sb-Logged _ d' h.0)) h.1)

  failed-Returned :
      (d : Disk) (fs : List Fate)
      → Before j d₀ d
      → Ends (Recoverable j d₀) Returned (done (err eio, journal_abort j) d fs)
  failed-Returned d fs b =
      ends (record { recoverable = Recoverable.before b; on_ok = λ e. cc; on_err = λ e. b.kept })

  commit_headers-Returned :
      (d : Disk) (fs : List Fate)
      → Before j d₀ d
      → DataAt j 0 j.txn.blocks d
      → Ends (Recoverable j d₀) Returned (commit_headers j d fs)
  unfolding commit_headers write_block
  commit_headers-Returned d fs b stored =
      let p = pending-Before d b in
      let p_stored =
        DataAt-written j fits.no_wrap journal_slot_hdr (pending_header j.txn) 0 j.txn.blocks d
          (omega arith) (omega arith) stored in
      let l = header-Logged _ p p_stored in
      write_then (add32 j.start journal_slot_hdr * sectors_per_block) sectors_per_block
        (pending_header j.txn) _ d fs (Recoverable.before b)
        (λ fs1. flush_then _ _ fs1 (Recoverable.before p) λ fs2.
          write_then (add32 j.start journal_slot_hdr * sectors_per_block) sectors_per_block
            (committed_header j.txn) _ _ fs2 (Recoverable.before p)
            (λ fs3.
              flush_then _ _ fs3 (Recoverable.logged l) (λ fs4. commit_apply-Returned _ fs4 l))
            (λ fs3. failed-Returned _ fs3 p))
        (λ fs1. failed-Returned d fs1 b)

  after_data-Returned :
      (stored : Bool) (d : Disk) (fs : List Fate)
      → Wrote 0 j.txn.blocks d₀ stored d
      → Ends (Recoverable j d₀) Returned (
          (elim stored as (λ x. M (Result (Unit {0}) × Journal)) [
            | false ↦ commit_failed j
            | true ↦ commit_headers j
          ])
            d fs)
  after_data-Returned false d fs w = failed-Returned d fs w.still
  after_data-Returned true d fs w = commit_headers-Returned d fs w.still (w.stored refl)

  -- However the requests of journal_commit fare, the machine stops only at a recoverable disk; a
  -- commit that returns success has the whole transaction on its targets, one that returns an error
  -- has left everything outside the journal as it was.
  pub commit-Returned :
      (fs : List Fate)
      → NotCommitted j d₀
      → Ends (Recoverable j d₀) Returned (journal_commit j d₀ fs)
  unfolding journal_commit
  commit-Returned fs idle =
      elim (Bool-cases (not j.txn.in_use || ltb journal_max_per_txn (length j.txn.blocks))) [
        | inl refused ↦ rw refused (
            ends (record {
              recoverable = Recoverable.before start;
              on_ok = λ e. cc;
              on_err = λ e a o. refl;
            }))
        | inr accepted ↦ rw accepted (
            bind
              (write_data-Wrote 0 journal_slot_data0 j.txn.blocks d₀ fs (omega arith) (omega arith)
                start)
              after_data-Returned)
      ]
    where
      start : Before j d₀ d₀
      start = record { kept = λ a o. refl; idle = idle }
