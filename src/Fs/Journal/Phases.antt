-- ===== src/Fs/Journal/Phases.antt =====
-- What the disk can look like while a transaction is committed: the log is not valid yet, it is, or
-- it is no longer. `d₀` is the disk before the commit.
use unix_os.Fs.Journal.{
  Journal, journal_slot_hdr, committed_header, journal_magic, journal_slot_data0,
  journal_max_per_txn, sectors_per_block,
}
use unix_os.Fs.Journal.Device.{Disk, Block, written}
use unix_os.Prelude.{
  ℕ, ◌+◌, List, ◌<◌, ◌≡◌, ◌≤◌, ◌≢◌, u32_mod, length, ◌⊎◌, add32, ◌*◌, ◌++◌, ◌∷◌, subst, [], inl,
  arith, sym, ◌∙◌, inr,
}
use unix_os.Fs.Journal.Layout.{
  addr, apply_all, Outside, slot_blocks, block_words, Fits, TargetOutside, written_other,
  written_target, apply_all_again,
}

-- The header on the disk is none that journal_replay acts on.
abbrev pub NotCommitted : Journal → Disk → Type 0
NotCommitted j d =
    (d (addr j journal_slot_hdr 0) ≢ journal_magic) ⊎ (d (addr j journal_slot_hdr 3) ≢ 1)

-- The blocks stand in the journal from data block i on.
abbrev pub DataAt : Journal → ℕ → List (ℕ × Block) → Disk → Type 0
DataAt j i [] d = Unit {0}
DataAt j i ((t, b) ∷ bs) d =
    ((w : ℕ) → w < block_words → d (addr j (journal_slot_data0 + i) w) ≡ b w)
    × DataAt j (i + 1) bs d

abbrev pub HeaderIs : Journal → Block → Disk → Type 0
HeaderIs j h d = (w : ℕ) → w < block_words → d (addr j journal_slot_hdr w) ≡ h w

module _ (j : Journal) (d₀ : Disk) where
  -- The disk with the whole transaction applied.
  abbrev pub applied : Disk
  applied = apply_all j.target_sectors j.txn.blocks d₀

  pub record Before (d : Disk) : Type 0 where
    pub kept : (a : ℕ) → Outside j a → d a ≡ d₀ a
    pub idle : NotCommitted j d

  pub record Logged (d : Disk) : Type 0 where
    pub pending : (a : ℕ) → Outside j a → apply_all j.target_sectors j.txn.blocks d a ≡ applied a
    pub header : HeaderIs j (committed_header j.txn) d
    pub logged : DataAt j 0 j.txn.blocks d

  pub record After (d : Disk) : Type 0 where
    pub kept : (a : ℕ) → Outside j a → d a ≡ applied a
    pub idle : NotCommitted j d

  -- From any of these disks journal_replay recovers (`Atomic`).
  pub data Recoverable (d : Disk) : Type 0 where
    before : Before d → Recoverable d
    logged : Logged d → Recoverable d
    after : After d → Recoverable d

-- A write of another journal block keeps the header and the data blocks.
module _ (j : Journal) (no_wrap : j.start + slot_blocks ≤ u32_mod) where
  pub DataAt-written :
      (idx : ℕ) (buf : Block) (i : ℕ) (bs : List (ℕ × Block)) (d : Disk)
      → idx < slot_blocks
      → idx < journal_slot_data0 + i
      → DataAt j i bs d
      → DataAt j i bs (written (add32 j.start idx * sectors_per_block) sectors_per_block buf d)
  DataAt-written idx buf i [] d a b h = tt
  DataAt-written idx buf i ((t, b) ∷ bs) d a lt h = (
    λ w p. written_other j no_wrap idx a buf d (journal_slot_data0 + i) w p (omega arith) ∙ h.0 w p,
    DataAt-written idx buf (i + 1) bs d a (omega arith) h.1,
  )

  pub NotCommitted-written :
      (idx : ℕ) (buf : Block) (d : Disk)
      → idx < slot_blocks
      → idx ≢ journal_slot_hdr
      → NotCommitted j d
      → NotCommitted j (written (add32 j.start idx * sectors_per_block) sectors_per_block buf d)
  NotCommitted-written idx buf d a ne (inl h) = inl (λ e. h (
      sym (written_other j no_wrap idx a buf d journal_slot_hdr 0 (omega arith) (λ q. ne (sym q)))
      ∙ e))
  NotCommitted-written idx buf d a ne (inr h) = inr (λ e. h (
      sym (written_other j no_wrap idx a buf d journal_slot_hdr 3 (omega arith) (λ q. ne (sym q)))
      ∙ e))

  pub DataAt-target :
      (t : ℕ) (buf : Block) (i : ℕ) (bs : List (ℕ × Block)) (d : Disk)
      → TargetOutside j t
      → i + length bs ≤ journal_max_per_txn
      → DataAt j i bs d
      → DataAt j i bs (written (t * j.target_sectors) j.target_sectors buf d)
  DataAt-target t buf i [] d o l h = tt
  DataAt-target t buf i ((t', b) ∷ bs) d o l h = (
    λ w p. written_target j no_wrap (journal_slot_data0 + i) (omega arith) t buf d w o p ∙ h.0 w p,
    DataAt-target t buf (i + 1) bs d o (omega arith) h.1,
  )

-- One more of the blocks on its target leaves a logged disk logged.
pub Logged-target :
    (j : Journal) (d₀ : Disk) (pre : List (ℕ × Block)) (t : ℕ) (b : Block) (rest : List (ℕ × Block))
    (d : Disk)
    → Fits j j.txn.blocks
    → length j.txn.blocks ≤ journal_max_per_txn
    → j.txn.blocks ≡ pre ++ (t, b) ∷ rest
    → TargetOutside j t
    → Logged j d₀ d
    → Logged j d₀ (written (t * j.target_sectors) j.target_sectors b d)
Logged-target j d₀ pre t b rest d fits few split out l = record {
  pending = λ a o.
      subst
        (λ xs.
          apply_all j.target_sectors xs (written (t * j.target_sectors) j.target_sectors b d) a
          ≡ apply_all j.target_sectors xs d a)
        (sym split) (apply_all_again j.target_sectors pre t b rest d a)
      ∙ l.pending a o;
  header = λ w p.
      written_target j fits.no_wrap journal_slot_hdr (omega arith) t b d w out p ∙ l.header w p;
  logged = DataAt-target j fits.no_wrap t b 0 j.txn.blocks d out (omega arith) l.logged;
}
