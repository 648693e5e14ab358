-- ===== src/Fs/Files/Open.antt =====
-- src/kernel/fs/vfs_fd.c: vfs_open.
use unix_os.Fs.Mount.{Str, Mount, resolve_path, resolve_parent_and_leaf}
use unix_os.Prelude.{
  ℕ, List, Result, Option, none, ◌+◌, if◌then◌else◌, err, some, emfile, einval, ok, set, enosys,
  ◌||◌, ◌&&◌, ◌==◌,
}
use unix_os.Fs.Files.{
  Files, alloc_open_file, OpenFile, free_from, has_flag, o_trunc, o_append, find_free_fd,
  unsupported_flags, size_or, is_enoent, accmode, o_creat,
}
use unix_os.Core.Fork.{Fd}
use unix_os.Fs.Path.{make_abs_path, cwd_of, abs_size}

-- vfs_make_abs_path has the lines of vfs_path.c.
abbrev pub vfs_make_abs_path : Str → Str → ℕ → Result Str
vfs_make_abs_path = make_abs_path

abbrev pub new_fd : ℕ → ℕ → Fd
new_fd i flags = record { of_idx = i + 1; offset = 0; flags = flags; refcount = 1 }

module _ {S : Type 0} where
  abbrev pub created : Mount S → Result ℕ × S → Result (Mount S × ℕ) × S
  created m (err e, s) = (err e, s)
  created m (ok ino, s) = (ok (m, ino), s)

  -- vfs_open up to the mount and the inode, which O_CREAT may create.
  unfoldable pub find_or_create :
      List (Option (Mount S)) → S → Str → ℕ → ℕ → Result (Mount S × ℕ) × S
  find_or_create mounts s abs flags mode = elim (resolve_path mounts s abs) [
    | ok (i, m, ino) ↦ (ok (m, ino), s)
    | err e ↦
        let created : Result (Mount S × ℕ) × S = elim (resolve_parent_and_leaf mounts s abs) [
          | err e' ↦ (err e', s)
          | ok (i, m, parent, leaf) ↦ elim m.ops.create [
            | none ↦ (err enosys, s)
            | some create ↦ created m (create m.fs_priv s parent leaf mode)
          ]
        ] in
        if is_enoent e && has_flag flags o_creat then created else (err e, s)
  ]

  abbrev pub truncated : Mount S → ℕ → ℕ → S → S
  truncated m ino flags s = elim m.ops.truncate [
    | none ↦ s
    | some truncate ↦ if has_flag flags o_trunc then (truncate m.fs_priv s ino 0).1 else s
  ]

  abbrev pub inc_opened : Mount S → ℕ → S → S
  inc_opened m ino s = elim m.ops.inc_open [ none ↦ s | some inc ↦ inc m.fs_priv s ino ]

  abbrev pub opened_file : Mount S → ℕ → ℕ → S → OpenFile S
  opened_file m ino flags s = record {
    inode = ino;
    pos = if has_flag flags o_append then size_or m.ops.stat m.fs_priv s ino 0 else 0;
    flags = flags;
    refcount = 1;
    ops = some m.ops;
    fs_priv = m.fs_priv;
  }

  -- The open file is in slot i of files; the descriptor is looked for.
  abbrev pub install :
      Files S → Mount S → ℕ → ℕ → S → ℕ → List (OpenFile S) → Option ℕ → Result ℕ × Files S
  install f m ino flags s i files none = (
    err emfile,
    record f {
      store = s;
      open_files = set files i (record (opened_file m ino flags s) { refcount = 0 });
    },
  )
  install f m ino flags s i files (some fd) = (
    ok fd,
    record f {
      store = inc_opened m ino s;
      open_files = set files i (opened_file m ino flags s);
      fd_table = set f.fd_table fd (new_fd i flags);
    },
  )

  abbrev pub open_slot :
      Files S → Mount S → ℕ → ℕ → S → Option (ℕ × List (OpenFile S)) → Result ℕ × Files S
  open_slot f m ino flags s none = (err emfile, record f { store = s })
  open_slot f m ino flags s (some (i, files)) =
      install f m ino flags s i files (find_free_fd f.current f.fd_table)

  -- The rest of vfs_open.
  unfoldable pub open_inode : Files S → Mount S → ℕ → ℕ → Result ℕ × Files S
  unfolding alloc_open_file free_from
  open_inode f m ino flags =
      open_slot f m ino flags (truncated m ino flags f.store) (alloc_open_file f.open_files)

  unfoldable pub open_found : Files S → ℕ → Result (Mount S × ℕ) × S → Result ℕ × Files S
  unfolding open_inode
  open_found f flags (err e, s) = (err e, record f { store = s })
  open_found f flags (ok (m, ino), s) = open_inode (record f { store = s }) m ino flags

  unfoldable pub open_path :
      List (Option (Mount S)) → Files S → ℕ → ℕ → Result Str → Result ℕ × Files S
  unfolding find_or_create open_found
  open_path mounts f flags mode (err e) = (err e, f)
  open_path mounts f flags mode (ok abs) =
      open_found f flags (find_or_create mounts f.store abs flags mode)

  -- vfs_open
  unfoldable pub vfs_open :
      List (Option (Mount S)) → Files S → Option Str → ℕ → ℕ → Result ℕ × Files S
  unfolding open_path
  vfs_open mounts f none flags mode = (err einval, f)
  vfs_open mounts f (some path) flags mode =
      if has_flag flags unsupported_flags || accmode flags == 3
      then (err einval, f)
      else open_path mounts f flags mode (vfs_make_abs_path (cwd_of f.current) path abs_size)
