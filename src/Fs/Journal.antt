-- ===== src/Fs/Journal.antt =====
-- src/kernel/fs/journal.c: the write-ahead journal of ext2. A block buffer is the function from the
-- index of each of its 1024 words to the word; a struct is such a buffer, its fields at their offsets.
pub mod Device
pub mod Crc
pub mod Layout
pub mod Phases
pub mod Header
pub mod Commit
pub mod Replay
pub mod Atomic
mod Tests
use Device.{◌>>=◌, Block, Disk, M, Run, pure, panic, blk_read, blk_write, blk_flush}
use Crc.{journal_crc}
use unix_os.Prelude.{
  ℕ, Bool, false, if◌then◌else◌, length, List, Result, ◌==◌, add32, true, [], not, leb, err, ok,
  ◌*◌, enomem, eio, einval, suc, ◌++◌, ◌||◌, ◌∷◌, ltb, ◌+◌, ◌-◌, zero, none, some, ◌&&◌,
}

abbrev pub journal_magic : ℕ
journal_magic = 0x4A4F5552

abbrev pub journal_version : ℕ
journal_version = 1

abbrev pub journal_default_blocks : ℕ
journal_default_blocks = 32

abbrev pub journal_max_per_txn : ℕ
journal_max_per_txn = 8

abbrev pub journal_slot_hdr : ℕ
journal_slot_hdr = 1

abbrev pub journal_slot_data0 : ℕ
journal_slot_data0 = 2

-- g_sectors_per_block, which is JOURNAL_BLOCK_SIZE / 512 from journal_init on.
abbrev pub sectors_per_block : ℕ
sectors_per_block = 8

abbrev pub zero_block : Block
zero_block i = 0

abbrev pub update : Block → ℕ → ℕ → Block
update b i v j = if j == i then v else b j

-- struct journal_txn: its first num_blocks targets, each with its buffer.
pub record Txn : Type 0 where
  pub in_use : Bool
  pub txn_id : ℕ
  pub blocks : List (ℕ × Block)

-- The statics of journal.c; `sb` is g_sb.
pub record Journal : Type 0 where
  pub start : ℕ
  pub target_sectors : ℕ
  pub sb : Block
  pub initialized : Bool
  pub txn : Txn

abbrev pub txn_id_next : Block → ℕ
txn_id_next sb = sb 3

-- journal_write_block
pub write_block : Journal → ℕ → Block → M Bool
write_block j idx buf = blk_write (add32 j.start idx * sectors_per_block) sectors_per_block buf

-- The loop of journal_format_fresh: n blocks from index i on are zeroed.
pub format_blocks : Journal → ℕ → ℕ → M Bool
format_blocks j i zero = pure true
format_blocks j i (suc n) = do
  written ← write_block j i zero_block
  elim written [ true ↦ format_blocks j (i + 1) n | false ↦ pure false ]

abbrev pub fresh_sb : ℕ → Block
fresh_sb num_blocks =
    update (update (update (update zero_block 0 journal_magic) 1 journal_version) 2 num_blocks) 3 1

-- journal_format_fresh
pub format_fresh : Journal → ℕ → M (Bool × Journal)
format_fresh j num_blocks = do
  zeroed ← format_blocks j 1 (num_blocks - 1)
  elim zeroed [
    | false ↦ pure (false, j)
    | true ↦
        let j' = record j { sb = fresh_sb num_blocks } in
        write_block j' 0 (fresh_sb num_blocks) >>= λ r. pure (r, j')
  ]

abbrev pub empty_txn : Txn
empty_txn = record { in_use = false; txn_id = 0; blocks = [] }

-- journal_init, for a device that is there.
pub journal_init : Journal → ℕ → M (Result (Unit {0}) × Journal)
journal_init j journal_start_block =
    let j1 = record j {
      start = journal_start_block;
      target_sectors = if j.target_sectors == 0 then sectors_per_block else j.target_sectors;
    } in
    blk_read (journal_start_block * sectors_per_block) sectors_per_block >>= λ r. elim r [
      | none ↦ pure (err eio, j1)
      | some sb ↦
          let j2 = record j1 { sb = sb } in
          (if sb 0 == journal_magic && sb 1 == journal_version
            then pure (true, j2)
            else format_fresh j2 journal_default_blocks)
          >>= λ f. elim f.0 [
            | false ↦ pure (err eio, f.1)
            | true ↦ pure (ok tt, record f.1 { txn = empty_txn; initialized = true })
          ]
    ]

-- journal_set_target_sectors
pub journal_set_target_sectors : Journal → ℕ → Journal
journal_set_target_sectors j n = if n == 0 then j else record j { target_sectors = n }

-- journal_begin: NULL, an endless wait for the transaction in flight, or a transaction.
pub data Begin : Type 0 where
  null : Begin
  spins : Begin
  began : Journal → Begin

pub journal_begin : Journal → Begin
journal_begin j =
    if not j.initialized
    then null
    else (if j.txn.in_use
        then spins
        else began (record j {
          txn = record { in_use = true; txn_id = txn_id_next j.sb; blocks = [] };
          sb = update j.sb 3 (add32 (txn_id_next j.sb) 1);
        }))

-- journal_log_block, for data that is there; kmalloc succeeds or not.
pub journal_log_block : Bool → Journal → ℕ → Block → Result Journal
journal_log_block kmalloc_ok j target buf =
    if leb journal_max_per_txn (length j.txn.blocks)
    then err enomem
    else (if not kmalloc_ok
        then err enomem
        else ok (record j { txn = record j.txn { blocks = j.txn.blocks ++ (target, buf) ∷ [] } }))

-- journal_abort
pub journal_abort : Journal → Journal
journal_abort j = record j { txn = record j.txn { in_use = false; blocks = [] } }

-- hdr.target_blocks[i], ... = the targets
pub fill_targets : ℕ → List (ℕ × Block) → Block → Block
fill_targets i [] h = h
fill_targets i ((t, b) ∷ bs) h = fill_targets (i + 1) bs (update h i t)

abbrev pub with_crc : Block → Block
with_crc h = update h 12 (journal_crc (update h 12 0))

abbrev pub header_fields : Txn → Block
header_fields t =
    update (update (update (update zero_block 0 journal_magic) 1 t.txn_id) 2 (length t.blocks)) 3 0

-- The header before and after it is marked committed.
pub pending_header : Txn → Block
unfolding fill_targets
pending_header t = with_crc (fill_targets 4 t.blocks (header_fields t))

pub committed_header : Txn → Block
unfolding pending_header
committed_header t = with_crc (update (pending_header t) 3 1)

-- The data blocks go to the journal, from block index k on.
pub write_data : Journal → ℕ → List (ℕ × Block) → M Bool
write_data j k [] = pure true
write_data j k ((t, b) ∷ bs) = do
  written ← write_block j k b
  elim written [ true ↦ write_data j (k + 1) bs | false ↦ pure false ]

-- The data blocks go to their targets.
pub apply_blocks : Journal → List (ℕ × Block) → M (Unit {0})
apply_blocks j [] = pure tt
apply_blocks j ((t, b) ∷ bs) = do
  written ← blk_write (t * j.target_sectors) j.target_sectors b
  elim written [ true ↦ apply_blocks j bs | false ↦ panic ]

-- journal_commit from the committed header on: apply, clear the header, write the superblock.
pub commit_apply : Journal → M (Result (Unit {0}) × Journal)
commit_apply j = do
  a ← apply_blocks j j.txn.blocks
  b ← blk_flush
  c ← write_block j journal_slot_hdr zero_block
  let sb =
      (if ltb (txn_id_next j.sb) (add32 j.txn.txn_id 1)
        then update j.sb 3 (add32 j.txn.txn_id 1)
        else j.sb)
  d ← write_block j 0 sb
  pure (ok tt, journal_abort (record j { sb = sb }))

abbrev pub commit_failed : Journal → M (Result (Unit {0}) × Journal)
commit_failed j = pure (err eio, journal_abort j)

-- journal_commit from the pending header on.
pub commit_headers : Journal → M (Result (Unit {0}) × Journal)
commit_headers j = do
  pending ← write_block j journal_slot_hdr (pending_header j.txn)
  elim pending [
    | false ↦ commit_failed j
    | true ↦ do
      a ← blk_flush
      committed ← write_block j journal_slot_hdr (committed_header j.txn)
      elim committed [ false ↦ commit_failed j | true ↦ blk_flush >>= λ b. commit_apply j ]
  ]

-- journal_commit
pub journal_commit : Journal → M (Result (Unit {0}) × Journal)
journal_commit j =
    if not j.txn.in_use || ltb journal_max_per_txn (length j.txn.blocks)
    then pure (err einval, j)
    else write_data j journal_slot_data0 j.txn.blocks >>= λ data_written. elim data_written [
      | false ↦ commit_failed j
      | true ↦ commit_headers j
    ]

-- The redo loop of journal_replay over n blocks, from the i-th on.
pub redo : Journal → Block → ℕ → ℕ → M (Result (Unit {0}))
redo j hdr i zero = pure (ok tt)
redo j hdr i (suc n) =
    blk_read (add32 (add32 j.start journal_slot_data0) i * sectors_per_block) sectors_per_block
    >>= λ r. elim r [
      | none ↦ pure (err eio)
      | some buf ↦ do
        written ← blk_write (hdr (4 + i) * j.target_sectors) j.target_sectors buf
        elim written [ true ↦ redo j hdr (i + 1) n | false ↦ pure (err eio) ]
    ]

-- discard_slot
pub discard_slot : Journal → M (Result (Unit {0}))
discard_slot j = write_block j journal_slot_hdr zero_block >>= λ r. elim r [
  | true ↦ pure (ok tt)
  | false ↦ pure (err eio)
]

-- journal_replay with the header read.
pub replay_header : Journal → Block → M (Result (Unit {0}))
replay_header j hdr =
    if not (hdr 0 == journal_magic) || not (hdr 3 == 1)
    then pure (ok tt)
    else (if not (journal_crc (update hdr 12 0) == hdr 12)
        then discard_slot j
        else (if hdr 2 == 0 || ltb journal_max_per_txn (hdr 2)
            then discard_slot j
            else (redo j hdr 0 (hdr 2) >>= λ redone. elim redone [
              | err e ↦ pure (err e)
              | ok u ↦ write_block j journal_slot_hdr zero_block >>= λ c. pure (ok tt)
            ])))

-- journal_replay
pub journal_replay : Journal → M (Result (Unit {0}))
journal_replay j =
    if not j.initialized
    then pure (err einval)
    else blk_read (add32 j.start journal_slot_hdr * sectors_per_block) sectors_per_block >>= λ r.
        elim r [ none ↦ pure (err eio) | some hdr ↦ replay_header j hdr ]
