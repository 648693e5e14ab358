-- ===== src/Fs/Journal/Header.antt =====
-- The words of the headers that journal_commit writes.
use unix_os.Fs.Journal.Crc.{crc_from, journal_crc, crc_words, crc_word}
use unix_os.Fs.Journal.Device.{Block}
use unix_os.Fs.Journal.{
  fill_targets, pending_header, committed_header, Txn, journal_magic, journal_max_per_txn, update,
  with_crc, header_fields,
}
use unix_os.Prelude.{
  ℕ, List, ◌<◌, ◌+◌, ◌≡◌, length, ◌≤◌, arith, ◌∙◌, refl, sym, ap, suc, ◌∷◌, sub32, subst, [], zero,
}
use unix_os.Fs.Journal.Layout.{block_words}

-- The checksum reads the words before the crc field only.
crc_from-cong :
    (n i : ℕ) (h h' : ℕ → ℕ) (crc : ℕ)
    → ((k : ℕ) → k < i + n → h k ≡ h' k)
    → crc_from n i h crc ≡ crc_from n i h' crc
unfolding crc_from
crc_from-cong zero i h h' crc e = refl
crc_from-cong (suc n) i h h' crc e =
    ap (λ w. crc_from n (i + 1) h (crc_word crc w)) (e i (omega arith))
    ∙ crc_from-cong n (i + 1) h h' (crc_word crc (h' i)) (λ k p. e k (omega arith))

pub journal_crc-cong :
    (h h' : Block) → ((k : ℕ) → k < crc_words → h k ≡ h' k) → journal_crc h ≡ journal_crc h'
unfolding journal_crc
journal_crc-cong h h' e =
    ap (sub32 0xFFFFFFFF) (crc_from-cong crc_words 0 h h' 0xFFFFFFFF (λ k p. e k (omega arith)))

-- The header's target words name the blocks' targets, from word 4 + i on.
abbrev pub TargetsAt : Block → ℕ → List (ℕ × Block) → Type 0
TargetsAt h i [] = Unit {0}
TargetsAt h i ((t, b) ∷ bs) = (h (4 + i) ≡ t) × TargetsAt h (i + 1) bs

fill_targets_below :
    (i : ℕ) (bs : List (ℕ × Block)) (h : Block) (k : ℕ) → k < i → fill_targets i bs h k ≡ h k
unfolding fill_targets
fill_targets_below i [] h k p = refl
fill_targets_below i ((t, b) ∷ bs) h k p =
    fill_targets_below (i + 1) bs (update h i t) k (omega arith) ∙ ground arith

fill_targets-TargetsAt :
    (i : ℕ) (bs : List (ℕ × Block)) (h : Block) → TargetsAt (fill_targets (4 + i) bs h) i bs
unfolding fill_targets
fill_targets-TargetsAt i [] h = tt
fill_targets-TargetsAt i ((t, b) ∷ bs) h = (
  fill_targets_below (4 + i + 1) bs (update h (4 + i) t) (4 + i) (omega arith) ∙ ground arith,
  subst (λ k. TargetsAt (fill_targets k bs (update h (4 + i) t)) (i + 1) bs) (step i)
      (fill_targets-TargetsAt (i + 1) bs (update h (4 + i) t)),
)
  where
    step : (i : ℕ) → 4 + (i + 1) ≡ 4 + i + 1
    step i = omega arith

pub TargetsAt-cong :
    (h h' : Block) (i : ℕ) (bs : List (ℕ × Block))
    → i + length bs ≤ journal_max_per_txn
    → ((k : ℕ) → 4 ≤ k → k < crc_words → h k ≡ h' k)
    → TargetsAt h i bs
    → TargetsAt h' i bs
TargetsAt-cong h h' i [] l e a = tt
TargetsAt-cong h h' i ((t, b) ∷ bs) l e a = (
  sym (e (4 + i) (omega arith) (omega arith)) ∙ a.0,
  TargetsAt-cong h h' (i + 1) bs (omega arith) e a.1,
)

pub pending_header-idle : (t : Txn) → pending_header t 3 ≡ 0
unfolding pending_header
pending_header-idle t = fill_targets_below 4 t.blocks _ 3 (omega arith) ∙ refl

with_crc_lem : (g : Block) → journal_crc (update (with_crc g) 12 0) ≡ with_crc g 12
with_crc_lem g =
    journal_crc-cong (update (with_crc g) 12 0) (update g 12 0) (λ k p. ground arith) ∙ refl

-- The committed header is one that journal_replay accepts.
pub record Accepted (h : Block) (bs : List (ℕ × Block)) : Type 0 where
  pub magic : h 0 ≡ journal_magic
  pub committed : h 3 ≡ 1
  pub crc : journal_crc (update h 12 0) ≡ h 12
  pub num_blocks : h 2 ≡ length bs
  pub targets : TargetsAt h 0 bs

pub committed_header-Accepted :
    (t : Txn) → length t.blocks ≤ journal_max_per_txn → Accepted (committed_header t) t.blocks
unfolding committed_header
committed_header-Accepted t few = record {
  magic = fill_targets_below 4 t.blocks _ 0 (omega arith) ∙ refl;
  committed = refl;
  crc = with_crc_lem (update (pending_header t) 3 1);
  num_blocks = fill_targets_below 4 t.blocks _ 2 (omega arith) ∙ refl;
  targets =
      TargetsAt-cong (fill_targets 4 t.blocks (header_fields t)) (committed_header t) 0 t.blocks
        (omega arith) (λ k q p. ground arith) (fill_targets-TargetsAt 0 t.blocks (header_fields t));
}

pub Accepted-cong :
    (h h' : Block) (bs : List (ℕ × Block))
    → length bs ≤ journal_max_per_txn
    → ((k : ℕ) → k < block_words → h k ≡ h' k)
    → Accepted h bs
    → Accepted h' bs
Accepted-cong h h' bs few e a = record {
  magic = sym (e 0 (omega arith)) ∙ a.magic;
  committed = sym (e 3 (omega arith)) ∙ a.committed;
  crc =
      journal_crc-cong (update h' 12 0) (update h 12 0) (λ k p. ground (arith, e k (omega arith)))
      ∙ a.crc
      ∙ e 12 (omega arith);
  num_blocks = sym (e 2 (omega arith)) ∙ a.num_blocks;
  targets = TargetsAt-cong h h' 0 bs (omega arith) (λ k q p. e k (omega arith)) a.targets;
}
