-- ===== src/Fs/Files.antt =====
-- src/kernel/fs/vfs_core.c and vfs_fd.c: open files, and the descriptors of the current process. A
-- descriptor and a file offset are 32-bit words, a negative one of at least 2 ^ 31. vfs_lock is held
-- throughout, so a call is one step.
pub mod Open
pub mod Close
pub mod Io
use unix_os.Prelude.{
  ℕ, List, none, Errno, Option, bit_and, Bool, get_or, ◌∷◌, Result, ◌-◌, set, if◌then◌else◌, some,
  not, true, ◌==◌, leb, err, ltb, false, option_map, ◌||◌, emfile, einval, ◌&&◌, ok, ebadf, suc,
  ◌+◌, esrch, enoent, enosys, [], zero,
}
use unix_os.Core.Fork.{Fd}
use unix_os.Fs.Mount.{Str, Mount, Ops, Stat, resolve_path, resolve_parent_and_leaf}
use unix_os.Core.Process.{Process}
use unix_os.Fs.Path.{make_abs_path, cwd_of, abs_size}
pub mod Counts
pub mod Moved
pub mod Balance
pub mod Dups
pub mod Calls
pub mod System
pub mod Sharing
pub mod RoundTrip
pub mod Kinds
pub mod Forked
mod Tests

-- vfs_open_file_t
pub record OpenFile (S : Type 0) : Type 0 where
  pub inode : ℕ
  pub pos : ℕ
  pub flags : ℕ
  pub refcount : ℕ
  pub ops : Option (Ops S)
  pub fs_priv : ℕ

-- What a call reads and writes: the file systems, open_files, the current process, none where there is
-- none yet, and its descriptors, which are kernel_fd_table where there is none.
pub record Files (S : Type 0) : Type 0 where
  pub store : S
  pub open_files : List (OpenFile S)
  pub current : Option Process
  pub fd_table : List Fd

-- VFS_MAX_OPEN_FILES and MAX_OPEN_FILES_CONST
abbrev pub max_files : ℕ
max_files = 64

abbrev pub o_creat : ℕ
o_creat = 0x40

abbrev pub o_trunc : ℕ
o_trunc = 0x200

abbrev pub o_append : ℕ
o_append = 0x400

-- The bits that VFS_OPEN_SUPPORTED_FLAGS lacks.
abbrev pub unsupported_flags : ℕ
unsupported_flags = 0xFFF4E03C

abbrev pub accmode : ℕ → ℕ
accmode flags = bit_and flags 3

abbrev pub has_flag : ℕ → ℕ → Bool
has_flag flags flag = not (bit_and flags flag == 0)

-- A cleared slot, after kmemset.
abbrev pub empty_fd : Fd
empty_fd = record { of_idx = 0; offset = 0; flags = 0; refcount = 0 }

abbrev pub zero_file : {S : Type 0} → OpenFile S
zero_file = record { inode = 0; pos = 0; flags = 0; refcount = 0; ops = none; fs_priv = 0 }

abbrev pub fd_at : List Fd → ℕ → Fd
fd_at t fd = get_or t fd empty_fd

abbrev pub file_at : {S : Type 0} → List (OpenFile S) → ℕ → OpenFile S
file_at files i = get_or files i zero_file

abbrev pub is_enoent : Errno → Bool
is_enoent enoent = true
is_enoent e = false

-- The loop of find_free_fd from i = start on.
unfoldable pub free_from : ℕ → List Fd → Option ℕ
free_from start [] = none
free_from zero (d ∷ ds) =
    let later = free_from zero ds in if d.of_idx == 0 then some 0 else option_map suc later
free_from (suc start) (d ∷ ds) = option_map suc (free_from start ds)

abbrev pub first_fd : Option Process → ℕ
first_fd none = 0
first_fd (some p) = 3

-- find_free_fd
abbrev pub find_free_fd : Option Process → List Fd → Option ℕ
find_free_fd cur t = free_from (first_fd cur) t

module _ {S : Type 0} where
  -- vfs_alloc_open_file
  unfoldable pub alloc_open_file : List (OpenFile S) → Option (ℕ × List (OpenFile S))
  alloc_open_file [] = none
  alloc_open_file (o ∷ os) =
      let later : Option (ℕ × List (OpenFile S)) = elim (alloc_open_file os) [
        | none ↦ none
        | some (i, os') ↦ some (suc i, o ∷ os')
      ] in
      if o.refcount == 0 then some (0, record zero_file { refcount = 1 } ∷ os) else later

  -- fd_to_of_idx_locked, none for -1
  unfoldable pub fd_to_of_idx : Files S → ℕ → Option ℕ
  fd_to_of_idx f fd =
      let raw = (fd_at f.fd_table fd).of_idx - 1 in
      if leb max_files fd || (fd_at f.fd_table fd).of_idx == 0
      then none
      else (if leb max_files raw || (file_at f.open_files raw).refcount == 0
          then none
          else some raw)

  -- st_size, or else d where stat is missing or fails
  abbrev pub size_or : Option (ℕ → S → ℕ → Option Stat) → ℕ → S → ℕ → ℕ → ℕ
  size_or none priv s ino d = d
  size_or (some stat) priv s ino d = elim (stat priv s ino) [ none ↦ d | some st ↦ st.st_size ]
