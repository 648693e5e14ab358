-- ===== src/Fs/Journal/Layout.antt =====
-- Where the journal's blocks lie on the disk, and what a write to one of them, or to a target block
-- outside the journal, leaves of the others.
use unix_os.Prelude.{
  ℕ, ◌+◌, ◌<◌, ◌*◌, List, ◌⊎◌, ◌≤◌, u32_mod, add32, ◌≡◌, ◌++◌, arith, ◌∷◌, [], refl, ◌-◌, ◌≢◌,
  Bool-cases, ap, true, false, inl, inr, fun_ext, length,
}
use unix_os.Fs.Journal.{Journal, sectors_per_block}
use unix_os.Fs.Journal.Device.{written, sector_words, Block, Disk, covers}

-- The journal's superblock, header and data blocks: ten blocks from block `start` on.
abbrev pub slot_blocks : ℕ
slot_blocks = 10

abbrev pub block_words : ℕ
block_words = 1024

-- Word i of journal block idx.
abbrev pub addr : Journal → ℕ → ℕ → ℕ
addr j idx i = (j.start + idx) * block_words + i

-- The addresses that are not the journal's.
abbrev pub Outside : Journal → ℕ → Type 0
Outside j a = (a < j.start * block_words) ⊎ ((j.start + slot_blocks) * block_words ≤ a)

-- A target block lies outside the journal.
abbrev pub TargetOutside : Journal → ℕ → Type 0
TargetOutside j t =
    (t * j.target_sectors * sector_words + j.target_sectors * sector_words ≤ j.start * block_words)
    ⊎ ((j.start + slot_blocks) * block_words ≤ t * j.target_sectors * sector_words)

abbrev pub TargetsOutside : Journal → List (ℕ × Block) → Type 0
TargetsOutside j [] = Unit {0}
TargetsOutside j ((t, b) ∷ bs) = TargetOutside j t × TargetsOutside j bs

-- The journal lies where its block numbers do not wrap, a target block is no longer than a buffer,
-- and no target is in the journal (ext2_reserve_blocks takes those blocks out of use).
pub record Fits (j : Journal) (bs : List (ℕ × Block)) : Type 0 where
  pub no_wrap : j.start + slot_blocks ≤ u32_mod
  pub target_len : j.target_sectors ≤ sectors_per_block
  pub outside : TargetsOutside j bs

module _ (j : Journal) (no_wrap : j.start + slot_blocks ≤ u32_mod) (idx : ℕ)
    (idx_in : idx < slot_blocks) where
  -- The lba of journal block idx, as the code computes it.
  pub lba_words :
      add32 j.start idx * sectors_per_block * sector_words ≡ (j.start + idx) * block_words
  lba_words = omega arith

  pub written_same :
      (buf : Block) (d : Disk) (i : ℕ)
      → i < block_words
      → written (add32 j.start idx * sectors_per_block) sectors_per_block buf d (addr j idx i)
        ≡ buf i
  unfolding written
  written_same buf d i h = ground (arith, ap buf at)
    where
      at : addr j idx i - add32 j.start idx * sectors_per_block * sector_words ≡ i
      at = omega arith

  pub written_other :
      (buf : Block) (d : Disk) (k i : ℕ)
      → i < block_words
      → k ≢ idx
      → written (add32 j.start idx * sectors_per_block) sectors_per_block buf d (addr j k i)
        ≡ d (addr j k i)
  unfolding written
  written_other buf d k i h ne = ground arith

  pub written-Outside :
      (buf : Block) (d : Disk) (a : ℕ)
      → Outside j a
      → written (add32 j.start idx * sectors_per_block) sectors_per_block buf d a ≡ d a
  unfolding written
  written-Outside buf d a out = ground arith

  pub written_target :
      (t : ℕ) (buf : Block) (d : Disk) (i : ℕ)
      → TargetOutside j t
      → i < block_words
      → written (t * j.target_sectors) j.target_sectors buf d (addr j idx i) ≡ d (addr j idx i)
  unfolding written
  written_target t buf d i out h = ground arith

-- Only the first n sectors of a buffer are written.
pub written-buffer :
    (lba n : ℕ) (b b' : Block) (d : Disk)
    → n ≤ sectors_per_block
    → ((i : ℕ) → i < block_words → b i ≡ b' i)
    → written lba n b d ≡ written lba n b' d
unfolding written
written-buffer lba n b b' d h same = fun_ext λ a. elim (Bool-cases (covers lba n a)) [
  | inl hit ↦ rw (hit, same (a - lba * sector_words) (ground arith))
  | inr miss ↦ rw miss
]

written_local :
    (lba n : ℕ) (b : Block) (d d' : Disk) (a : ℕ)
    → d a ≡ d' a
    → written lba n b d a ≡ written lba n b d' a
unfolding written
written_local lba n b d d' a e = ground arith

written_hit :
    (lba n : ℕ) (b : Block) (d d' : Disk) (a : ℕ)
    → covers lba n a ≡ true
    → written lba n b d a ≡ written lba n b d' a
unfolding written
written_hit lba n b d d' a e = rw e

written_miss :
    (lba n : ℕ) (b : Block) (d : Disk) (a : ℕ) → covers lba n a ≡ false → written lba n b d a ≡ d a
unfolding written
written_miss lba n b d a e = rw e

-- The disk after all the blocks have reached their targets, in order.
unfoldable pub apply_all : ℕ → List (ℕ × Block) → Disk → Disk
apply_all n [] d = d
apply_all n ((t, b) ∷ bs) d = apply_all n bs (written (t * n) n b d)

pub apply_all_none :
    (n : ℕ) (bs : List (ℕ × Block)) (d : Disk) → length bs ≡ 0 → apply_all n bs d ≡ d
unfolding apply_all
apply_all_none n [] d e = refl
apply_all_none n (b ∷ bs) d e = absurd (omega arith)

-- What it leaves at an address depends only on what was there.
pub apply_all_local :
    (n : ℕ) (bs : List (ℕ × Block)) (d d' : Disk) (a : ℕ)
    → d a ≡ d' a
    → apply_all n bs d a ≡ apply_all n bs d' a
unfolding apply_all
apply_all_local n [] d d' a e = e
apply_all_local n ((t, b) ∷ bs) d d' a e =
    apply_all_local n bs (written (t * n) n b d) (written (t * n) n b d') a
      (written_local (t * n) n b d d' a e)

pub apply_all-append :
    (n : ℕ) (pre bs : List (ℕ × Block)) (d : Disk)
    → apply_all n (pre ++ bs) d ≡ apply_all n bs (apply_all n pre d)
unfolding apply_all
apply_all-append n [] bs d = refl
apply_all-append n ((t, b) ∷ pre) bs d = apply_all-append n pre bs (written (t * n) n b d)

-- Writing one of the blocks to its target beforehand makes no difference.
pub apply_all_again :
    (n : ℕ) (pre : List (ℕ × Block)) (t : ℕ) (b : Block) (rest : List (ℕ × Block)) (d : Disk)
    (a : ℕ)
    → apply_all n (pre ++ (t, b) ∷ rest) (written (t * n) n b d) a
      ≡ apply_all n (pre ++ (t, b) ∷ rest) d a
unfolding apply_all
apply_all_again n pre t b rest d a = elim (Bool-cases (covers (t * n) n a)) [
  | inl hit ↦
      rw
        (
          apply_all-append n pre ((t, b) ∷ rest) (written (t * n) n b d),
          apply_all-append n pre ((t, b) ∷ rest) d,
        )
        (apply_all_local n rest _ _ a (written_hit (t * n) n b _ _ a hit))
  | inr miss ↦ apply_all_local n (pre ++ (t, b) ∷ rest) _ d a (written_miss (t * n) n b d a miss)
]
