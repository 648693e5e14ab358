-- ===== src/Fs/Files/Kinds.antt =====
-- What a descriptor stands for (vfs_fd_kind of src/kernel/fs/vfs_fd.c), and sys_dup of
-- src/kernel/syscalls/sys_fs.c, which copies those of the console itself.
use unix_os.Prelude.{
  ℕ, List, Bool, if◌then◌else◌, Option, false, none, ◌==◌, ◌∷◌, Result, true, ◌≡◌, some, leb, ◌&&◌,
  err, ◌-◌, option_map, emfile, suc, ok, set, [], ◌<◌, arith, ◌≢◌, ◌↔◌,
}
use unix_os.Fs.Files.{Files, find_free_fd, max_files, fd_at}
use unix_os.Fs.Files.Close.{vfs_dup}
use unix_os.Core.Fork.{Fd}
use unix_os.Core.Process.{Process}
use unix_os.Fs.Files.Sharing.{vfs_dup_outside}

pub data FdKind : Type 0 where
  invalid console file : FdKind
  pipe_end : ℕ → FdKind

abbrev pub console_magic : ℕ
console_magic = 0xC0C0

-- PIPE_FD_BASE
abbrev pub pipe_base : ℕ
pipe_base = 1000

abbrev pub kind_of : ℕ → FdKind
kind_of of_idx =
    if of_idx == console_magic
    then console
    else (if leb pipe_base of_idx
        then pipe_end (of_idx - pipe_base)
        else (if of_idx == 0 then invalid else file))

abbrev pub is_console : FdKind → Bool
is_console invalid = false
is_console console = true
is_console file = false
is_console (pipe_end i) = false

-- The loop of sys_dup over the whole table.
unfoldable pub first_clear : List Fd → Option ℕ
first_clear [] = none
first_clear (d ∷ ds) =
    let later = first_clear ds in
    if d.of_idx == 0 && d.flags == 0 then some 0 else option_map suc later

module _ {S : Type 0} where
  -- vfs_fd_kind, with the pipe's number
  unfoldable pub vfs_fd_kind : Files S → ℕ → FdKind
  vfs_fd_kind f fd = elim f.current [
    | none ↦ invalid
    | some p ↦ if leb max_files fd then invalid else kind_of (fd_at f.fd_table fd).of_idx
  ]

  abbrev pub copy_console : Files S → ℕ → Option ℕ → Result ℕ × Files S
  copy_console f fd none = (err emfile, f)
  copy_console f fd (some i) =
      (ok i, record f { fd_table = set f.fd_table i (fd_at f.fd_table fd) })

  -- sys_dup
  unfoldable pub sys_dup : Files S → ℕ → Option (Result ℕ × Files S)
  unfolding vfs_fd_kind first_clear vfs_dup
  sys_dup f fd =
      if is_console (vfs_fd_kind f fd)
      then some (copy_console f fd (first_clear f.fd_table))
      else vfs_dup f fd

  kind_console :
      (f : Files S) (p : Process) (fd : ℕ)
      → f.current ≡ some p
      → fd < max_files
      → is_console (vfs_fd_kind f fd) ≡ ((fd_at f.fd_table fd).of_idx == console_magic)
  unfolding vfs_fd_kind
  kind_console f p fd c l = ground (arith, c, l)

  -- In a process with a free descriptor, sys_dup of a descriptor in use writes past the end of
  -- open_files exactly where the descriptor stands neither for an open file nor for the console.
  pub sys_dup_outside :
      (f : Files S) (p : Process) (fd newfd : ℕ)
      → f.current ≡ some p
      → find_free_fd (some p) f.fd_table ≡ some newfd
      → fd < max_files
      → (fd_at f.fd_table fd).of_idx ≢ 0
      → (sys_dup f fd ≡ none) ↔ (
          (max_files < (fd_at f.fd_table fd).of_idx)
          × ((fd_at f.fd_table fd).of_idx ≢ console_magic))
  unfolding sys_dup
  sys_dup_outside f p fd newfd c e l n =
      let v = vfs_dup_outside f p fd newfd c e l n in
      let k = kind_console f p fd c l in
      (
        λ r. (ground (arith, r, k, v.0), ground (arith, r, k)),
        λ (m, q). ground (arith, k, q, v.1 m),
      )
