-- ===== src/Fs/Journal/Tests.antt =====
-- A journal from block 100 on, with 1024-byte target blocks and one block in flight, on a disk of zeros.
use unix_os.Fs.Journal.Device.{
  Disk, Block, Ends, Fate, works, fails, done, written, blk_write, blk_flush,
}
use unix_os.Fs.Journal.{
  Journal, fresh_sb, zero_block, journal_commit, journal_magic, commit_headers, journal_replay,
  commit_apply, write_data, write_block, apply_blocks,
}
use unix_os.Fs.Journal.Layout.{Fits, Outside}
use unix_os.Fs.Journal.Phases.{NotCommitted, Recoverable, applied}
use unix_os.Fs.Journal.Crc.{journal_crc}
use unix_os.Fs.Journal.Atomic.{disk_of, replays, rebooted, crash_atomic, replay_returns}
use unix_os.Prelude.{List, arith, ◌≡◌, ℕ, true, inl, refl, ◌∷◌, ◌⊎◌, [], replicate, ok}
use unix_os.Fs.Journal.Commit.{Returned, commit-Returned}

abbrev blank : Disk
blank a = 0

abbrev sevens : Block
sevens i = 7

abbrev in_flight : Journal
in_flight = record {
  start = 100;
  target_sectors = 2;
  sb = fresh_sb 32;
  initialized = true;
  txn = record { in_use = true; txn_id = 1; blocks = (10, sevens) ∷ [] };
}

in_flight-Fits : Fits in_flight in_flight.txn.blocks
in_flight-Fits = record {
  no_wrap = omega arith;
  target_len = omega arith;
  outside = (inl (omega arith), tt);
}

blank-NotCommitted : NotCommitted in_flight blank
blank-NotCommitted = inl (λ e. zero_ne e)
  where
    zero_ne : ◌≡◌ {A = ℕ} 0 journal_magic → ⊥
    zero_ne e = omega arith

-- The checksum of twelve words that are zero, as the usual CRC-32 of 48 zero bytes.
crc_of_zeros : journal_crc zero_block ≡ 0xf288_b395
unfolding journal_crc
crc_of_zeros = refl

-- The power is cut after the committed header: the first target word is still 0, and 7 after replay.
interrupted :
    ◌≡◌ {A = ℕ}
      (disk_of (journal_commit in_flight blank (works ∷ works ∷ works ∷ works ∷ works ∷ [])) 2560)
      0
unfolding disk_of journal_commit commit_headers commit_apply write_data write_block apply_blocks
    written blk_write blk_flush
interrupted = refl

commit-Returned_example :
    Ends
      (Recoverable in_flight blank)
      (Returned in_flight in_flight-Fits (omega arith) blank)
      (journal_commit in_flight blank (works ∷ works ∷ fails ∷ []))
commit-Returned_example =
    commit-Returned in_flight in_flight-Fits (omega arith) blank (works ∷ works ∷ fails ∷ [])
      blank-NotCommitted

abbrev cut_early : List Fate
cut_early = works ∷ works ∷ works ∷ works ∷ works ∷ []

after_crash : Disk
after_crash =
    replays in_flight ((works ∷ []) ∷ []) (disk_of (journal_commit in_flight blank cut_early))

replay_returns_example :
    (d : Disk) × (fs : List Fate) × (journal_replay
        (rebooted in_flight)
        after_crash
        (replicate 18 works)
      ≡ done (ok tt) d fs)
replay_returns_example = replay_returns in_flight 0 after_crash

crash_atomic_example :
    (d : Disk) × (((a : ℕ) → Outside in_flight a → d a ≡ 0)
      ⊎ ((a : ℕ) → Outside in_flight a → d a ≡ applied in_flight blank a))
unfolding after_crash
crash_atomic_example = (
  replay_returns_example.0,
  crash_atomic in_flight in_flight-Fits (omega arith) refl blank cut_early ((works ∷ []) ∷ [])
      (replicate 18 works) replay_returns_example.0 replay_returns_example.1 blank-NotCommitted
      replay_returns_example.2,
)
