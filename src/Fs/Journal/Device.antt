-- ===== src/Fs/Journal/Device.antt =====
-- The block device under the journal: a disk of 32-bit words, 128 to a sector, and for every request
-- to come whether it works. Where that list ends, the power is cut. A request is done as a whole or
-- not at all, and requests reach the disk in their order.
use unix_os.Prelude.{
  ℕ, ◌+◌, ◌-◌, ◌*◌, Bool, true, false, ◌&&◌, List, [], ◌∷◌, ltb, leb, if◌then◌else◌, Option, some,
  none,
}

abbrev pub sector_words : ℕ
sector_words = 128

-- The word at each address of the disk.
abbrev pub Disk : Type 0
Disk = ℕ → ℕ

-- A buffer of one journal block: its words from 0 to 1023 are meant.
abbrev pub Block : Type 0
Block = ℕ → ℕ

pub data Fate : Type 0 where
  works fails : Fate

-- A run of driver code: it ends with a result, or the machine stops, by a power cut or a panic.
pub data Run (A : Type 0) : Type 0 where
  done : A → Disk → List Fate → Run A
  cut : Disk → Run A
  panicked : Disk → Run A

abbrev pub M : Type 0 → Type 0
M A = Disk → List Fate → Run A

abbrev pub and_then : {A B : Type 0} → Run A → (A → M B) → Run B
and_then (done a d fs) k = k a d fs
and_then (cut d) k = cut d
and_then (panicked d) k = panicked d

abbrev pub pure : {A : Type 0} → A → M A
pure a d fs = done a d fs

infixl 5 ◌>>=◌
abbrev pub ◌>>=◌ : {A B : Type 0} → M A → (A → M B) → M B
◌>>=◌ m k d fs = and_then (m d fs) k

abbrev pub panic : {A : Type 0} → M A
panic d fs = panicked d

-- Does the transfer of n sectors from lba on cover the word at address a?
abbrev pub covers : ℕ → ℕ → ℕ → Bool
covers lba n a = leb (lba * sector_words) a && ltb a (lba * sector_words + n * sector_words)

unfoldable pub written : ℕ → ℕ → Block → Disk → Disk
written lba n buf d a = if covers lba n a then buf (a - lba * sector_words) else d a

-- blk_write and blk_read: `false` and `none` are a negative return code.
unfoldable pub blk_write : ℕ → ℕ → Block → M Bool
blk_write lba n buf d [] = cut d
blk_write lba n buf d (works ∷ fs) = done true (written lba n buf d) fs
blk_write lba n buf d (fails ∷ fs) = done false d fs

unfoldable pub blk_read : ℕ → ℕ → M (Option Block)
blk_read lba n d [] = cut d
blk_read lba n d (works ∷ fs) = done (some (λ i. d (lba * sector_words + i))) d fs
blk_read lba n d (fails ∷ fs) = done none d fs

-- blk_flush; its return code is never read. Writes reach the disk in order here, so it has no effect.
unfoldable pub blk_flush : M (Unit {0})
blk_flush d [] = cut d
blk_flush d (works ∷ fs) = done tt d fs
blk_flush d (fails ∷ fs) = done tt d fs

-- The machine stops only at a disk of which C holds, and a result comes with a disk of which P holds.
pub data Ends {A : Type 0} (C : Disk → Type 0) (P : A → Disk → Type 0) : Run A → Type 0 where
  ends : {a : A} {d : Disk} {fs : List Fate} → P a d → Ends C P (done a d fs)
  cuts : {d : Disk} → C d → Ends C P (cut d)
  panics : {d : Disk} → C d → Ends C P (panicked d)

module _ {A : Type 0} {C : Disk → Type 0} {P : A → Disk → Type 0} where
  pub bind :
      {B : Type 0} {Q : B → Disk → Type 0} {r : Run A} {k : A → M B}
      → Ends C P r
      → ((a : A) (d : Disk) (fs : List Fate) → P a d → Ends C Q (k a d fs))
      → Ends C Q (and_then r k)
  bind (ends p) next = next _ _ _ p
  bind (cuts c) next = cuts c
  bind (panics c) next = panics c

-- The rules for a request and what follows it.
module _ {A : Type 0} {C : Disk → Type 0} {P : A → Disk → Type 0} where
  pub write_then :
      (lba n : ℕ) (buf : Block) (k : Bool → M A) (d : Disk) (fs : List Fate)
      → C d
      → ((rest : List Fate) → Ends C P (k true (written lba n buf d) rest))
      → ((rest : List Fate) → Ends C P (k false d rest))
      → Ends C P (and_then (blk_write lba n buf d fs) k)
  unfolding blk_write
  write_then lba n buf k d [] c t f = cuts c
  write_then lba n buf k d (works ∷ fs) c t f = t fs
  write_then lba n buf k d (fails ∷ fs) c t f = f fs

  pub read_then :
      (lba n : ℕ) (k : Option Block → M A) (d : Disk) (fs : List Fate)
      → C d
      → ((rest : List Fate) → Ends C P (k (some (λ i. d (lba * sector_words + i))) d rest))
      → ((rest : List Fate) → Ends C P (k none d rest))
      → Ends C P (and_then (blk_read lba n d fs) k)
  unfolding blk_read
  read_then lba n k d [] c t f = cuts c
  read_then lba n k d (works ∷ fs) c t f = t fs
  read_then lba n k d (fails ∷ fs) c t f = f fs

  pub flush_then :
      (k : Unit {0} → M A) (d : Disk) (fs : List Fate)
      → C d
      → ((rest : List Fate) → Ends C P (k tt d rest))
      → Ends C P (and_then (blk_flush d fs) k)
  unfolding blk_flush
  flush_then k d [] c p = cuts c
  flush_then k d (works ∷ fs) c p = p fs
  flush_then k d (fails ∷ fs) c p = p fs

  pub mono :
      {Q : A → Disk → Type 0} {r : Run A}
      → Ends C P r
      → ((a : A) (d : Disk) → P a d → Q a d)
      → Ends C Q r
  mono (ends p) weaken = ends (weaken _ _ p)
  mono (cuts c) weaken = cuts c
  mono (panics c) weaken = panics c
