-- ===== src/Fs/Files/Close.antt =====
-- src/kernel/fs/vfs_fd.c: vfs_close, vfs_dup and vfs_dup2.
use unix_os.Fs.Mount.{Ops}
use unix_os.Fs.Files.{OpenFile, Files, free_from, file_at, fd_at, empty_fd, max_files, find_free_fd}
use unix_os.Prelude.{
  ℕ, ◌-◌, none, set, Option, some, if◌then◌else◌, Result, ◌==◌, ltb, leb, err, ◌&&◌, emfile, esrch,
  not, ◌||◌, ok, ebadf, ◌+◌,
}
use unix_os.Core.Process.{Process}

module _ {S : Type 0} where
  -- What __vfs_close_locked does to the file system when the last descriptor of o is closed.
  unfoldable pub last_close : Ops S → ℕ → ℕ → S → S
  last_close ops priv ino s =
      let s' : S = elim ops.dec_open [ none ↦ s | some dec ↦ dec priv s ino ] in
      elim ops.get_open [
        | none ↦ s'
        | some get_open ↦ elim ops.release [
          | none ↦ s'
          | some release ↦ elim ops.stat [
            | none ↦ s'
            | some stat ↦ elim (stat priv s' ino) [
              | none ↦ s'
              | some st ↦
                  if get_open priv s' ino == 0 && st.st_nlink == 0 then release priv s' ino else s'
            ]
          ]
        ]
      ]

  abbrev pub drop_store : OpenFile S → S → S
  drop_store o s = elim o.ops [
    | none ↦ s
    | some ops ↦ if o.refcount == 1 then last_close ops o.fs_priv o.inode s else s
  ]

  abbrev pub drop_count : OpenFile S → OpenFile S
  drop_count o = record o { refcount = o.refcount - 1 }

  -- The file loses a descriptor. vfs_free_open_file then sets a count of 0 to 0.
  unfoldable pub drop_file : Files S → ℕ → Files S
  unfolding last_close
  drop_file f i =
      let o = file_at f.open_files i in
      if ltb i max_files && not (o.refcount == 0)
      then record f { store = drop_store o f.store; open_files = set f.open_files i (drop_count o) }
      else f

  abbrev pub clear_fd : Files S → ℕ → Files S
  clear_fd f fd = record f { fd_table = set f.fd_table fd empty_fd }

  -- vfs_close
  unfoldable pub vfs_close : Files S → ℕ → Files S
  unfolding drop_file
  vfs_close f fd =
      let d = fd_at f.fd_table fd in
      if leb max_files fd || d.of_idx == 0 then f else clear_fd (drop_file f (d.of_idx - 1)) fd

  -- fd_table[newfd] = fd_table[oldfd]; open_files[of_idx - 1].refcount++. It is none where of_idx stands
  -- for no open file, and the increment writes past the end of open_files.
  unfoldable pub share_fd : Files S → ℕ → ℕ → Option (Result ℕ × Files S)
  share_fd f oldfd newfd =
      let d = fd_at f.fd_table oldfd in
      let i = d.of_idx - 1 in
      let o = file_at f.open_files i in
      if ltb i max_files
      then some (
        ok newfd,
        record f {
          fd_table = set f.fd_table newfd d;
          open_files = set f.open_files i (record o { refcount = o.refcount + 1 });
        },
      )
      else none

  abbrev pub dup_to : Files S → ℕ → Option ℕ → Option (Result ℕ × Files S)
  dup_to f oldfd none = some (err emfile, f)
  dup_to f oldfd (some newfd) = share_fd f oldfd newfd

  abbrev pub dup_in : Files S → ℕ → Option Process → Option (Result ℕ × Files S)
  dup_in f oldfd none = some (err esrch, f)
  dup_in f oldfd (some p) =
      if (fd_at f.fd_table oldfd).of_idx == 0
      then some (err ebadf, f)
      else dup_to f oldfd (find_free_fd (some p) f.fd_table)

  -- vfs_dup
  unfoldable pub vfs_dup : Files S → ℕ → Option (Result ℕ × Files S)
  unfolding share_fd free_from
  vfs_dup f oldfd = if leb max_files oldfd then some (err ebadf, f) else dup_in f oldfd f.current

  abbrev pub dup2_in : Files S → ℕ → ℕ → Option Process → Option (Result ℕ × Files S)
  dup2_in f oldfd newfd none = some (err esrch, f)
  dup2_in f oldfd newfd (some p) =
      if (fd_at f.fd_table oldfd).of_idx == 0
      then some (err ebadf, f)
      else share_fd (vfs_close f newfd) oldfd newfd

  -- vfs_dup2
  unfoldable pub vfs_dup2 : Files S → ℕ → ℕ → Option (Result ℕ × Files S)
  unfolding share_fd vfs_close
  vfs_dup2 f oldfd newfd =
      if leb max_files oldfd || leb max_files newfd
      then some (err ebadf, f)
      else (if oldfd == newfd then some (ok newfd, f) else dup2_in f oldfd newfd f.current)
