-- ===== src/Fs/Files/Calls.antt =====
-- All processes with their descriptors, and sequences of their calls.
use unix_os.Prelude.{
  List, Option, none, ℕ, [], get_or, some, set, ◌∷◌, Bool, if◌then◌else◌, ltb, length,
}
use unix_os.Fs.Files.{Files, OpenFile}
use unix_os.Fs.Files.Open.{vfs_open}
use unix_os.Fs.Files.Close.{vfs_close, vfs_dup, vfs_dup2}
use unix_os.Fs.Files.Dups.{Made}
use unix_os.Fs.Mount.{Mount, Str}
use unix_os.Core.Process.{Process}
use unix_os.Core.Fork.{Fd}
use unix_os.Fs.Files.Io.{vfs_read, vfs_write, vfs_lseek, vfs_readdir_fd, vfs_ftruncate, vfs_pread}

pub data FileCall (S : Type 0) : Type 0 where
  opens : List (Option (Mount S)) → Option Str → ℕ → ℕ → FileCall S
  closes dups : ℕ → FileCall S
  dup2s : ℕ → ℕ → FileCall S
  reads lists : ℕ → Bool → ℕ → FileCall S
  writes : ℕ → Option (List ℕ) → FileCall S
  seeks : ℕ → ℕ → ℕ → FileCall S
  truncates : ℕ → ℕ → FileCall S
  preads : ℕ → Bool → ℕ → ℕ → FileCall S

-- A process, or the kernel before the first one, with its descriptors.
pub record Owner : Type 0 where
  pub current : Option Process
  pub fd_table : List Fd

pub record System (S : Type 0) : Type 0 where
  pub store : S
  pub open_files : List (OpenFile S)
  pub owners : List Owner

abbrev pub no_owner : Owner
no_owner = record { current = none; fd_table = [] }

abbrev pub owner_at : List Owner → ℕ → Owner
owner_at ws k = get_or ws k no_owner

module _ {S : Type 0} where
  abbrev pub left : {A : Type 0} → A × Files S → Option (Files S)
  left (r, f) = some f

  abbrev pub left_of_made : Made S → Option (Files S)
  left_of_made none = none
  left_of_made (some (r, f)) = some f

  -- What the call leaves, none where it writes outside open_files.
  unfoldable pub call : Files S → FileCall S → Option (Files S)
  unfolding vfs_open vfs_close vfs_dup vfs_dup2 vfs_read vfs_write vfs_lseek vfs_readdir_fd
      vfs_ftruncate vfs_pread
  call f (opens mounts path flags mode) = left (vfs_open mounts f path flags mode)
  call f (closes fd) = some (vfs_close f fd)
  call f (dups fd) = left_of_made (vfs_dup f fd)
  call f (dup2s oldfd newfd) = left_of_made (vfs_dup2 f oldfd newfd)
  call f (reads fd buf count) = left (vfs_read f fd buf count)
  call f (lists fd buf size) = left (vfs_readdir_fd f fd buf size)
  call f (writes fd src) = left (vfs_write f fd src)
  call f (seeks fd offset whence) = left (vfs_lseek f fd offset whence)
  call f (truncates fd length) = left (vfs_ftruncate f fd length)
  call f (preads fd buf count offset) = left (vfs_pread f fd buf count offset)

  -- What owner k sees.
  abbrev pub seen_by : System S → ℕ → Files S
  seen_by sys k = record {
    store = sys.store;
    open_files = sys.open_files;
    current = (owner_at sys.owners k).current;
    fd_table = (owner_at sys.owners k).fd_table;
  }

  abbrev pub put_back : System S → ℕ → Option (Files S) → Option (System S)
  put_back sys k none = none
  put_back sys k (some f) = some (record {
    store = f.store;
    open_files = f.open_files;
    owners = set sys.owners k (record { current = f.current; fd_table = f.fd_table });
  })

  -- Calls by the owners named, one after another.
  unfoldable pub run_calls : System S → List (ℕ × FileCall S) → Option (System S)
  unfolding call
  run_calls sys [] = some sys
  run_calls sys ((k, c) ∷ cs) =
      elim (if ltb k (length sys.owners) then put_back sys k (call (seen_by sys k) c) else none) [
        | none ↦ none
        | some sys' ↦ run_calls sys' cs
      ]
