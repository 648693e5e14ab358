-- ===== src/Fs/Files/Io.antt =====
-- src/kernel/fs/vfs_fd.c: the calls that read and change open files through a descriptor, and vfs_fstat.
-- A buffer that is a NULL pointer is none or false.
use unix_os.Prelude.{
  Option, ℕ, List, Result, some, err, set, if◌then◌else◌, Bool, none, ebadf, einval, ◌==◌, enosys,
  ok, add32, length, leb, ◌^◌,
}
use unix_os.Fs.Files.{Files, fd_to_of_idx, OpenFile, size_or, accmode, has_flag, file_at, o_append}
use unix_os.Fs.Mount.{Ops, Stat}

-- k at the value, or x where there is none.
abbrev pub when_some : {A B : Type 0} → Option B → A → (B → A) → A
when_some none x k = x
when_some (some b) x k = k b

-- The operation that an open file's fs_ops_t holds, none where of->fs or the operation is NULL.
abbrev pub op_of : {S B : Type 0} → Option (Ops S) → (Ops S → Option B) → Option B
op_of none op = none
op_of (some ops) op = op ops

module _ {S : Type 0} where
  -- Looks the descriptor up, or fails.
  abbrev pub on_file :
      {A : Type 0} → Files S → ℕ → (ℕ → OpenFile S → Result A × Files S) → Result A × Files S
  on_file f fd k = when_some (fd_to_of_idx f fd) (err ebadf, f) (λ i. k i (file_at f.open_files i))

  abbrev pub put_file : Files S → ℕ → OpenFile S → Files S
  put_file f i o = record f { open_files = set f.open_files i o }

  abbrev pub after_read : Files S → ℕ → OpenFile S → Result (List ℕ) × S → Result (List ℕ) × Files S
  after_read f i o (err e, s) = (err e, record f { store = s })
  after_read f i o (ok bytes, s) = (
    ok bytes,
    put_file (record f { store = s }) i (record o { pos = add32 o.pos (length bytes) }),
  )

  abbrev pub read_file : Files S → ℕ → ℕ → OpenFile S → Result (List ℕ) × Files S
  read_file f count i o =
      if accmode o.flags == 1
      then (err ebadf, f)
      else when_some (op_of o.ops (λ ops. ops.read)) (err enosys, f)
          (λ read. after_read f i o (read o.fs_priv f.store o.inode count o.pos))

  -- vfs_read
  unfoldable pub vfs_read : Files S → ℕ → Bool → ℕ → Result (List ℕ) × Files S
  unfolding fd_to_of_idx
  vfs_read f fd buf count = if buf then on_file f fd (read_file f count) else (err einval, f)

  -- st_size, or else d where stat is missing or fails
  abbrev pub file_size : OpenFile S → S → ℕ → ℕ
  file_size o s d = size_or (op_of o.ops (λ ops. ops.stat)) o.fs_priv s o.inode d

  -- Where write writes.
  abbrev pub write_pos : OpenFile S → S → ℕ
  write_pos o s = if has_flag o.flags o_append then file_size o s o.pos else o.pos

  abbrev pub after_write : Files S → ℕ → OpenFile S → Result ℕ × S → Result ℕ × Files S
  after_write f i o (err e, s) = (err e, put_file (record f { store = s }) i o)
  after_write f i o (ok n, s) =
      (ok n, put_file (record f { store = s }) i (record o { pos = add32 o.pos n }))

  abbrev pub write_file : Files S → List ℕ → ℕ → OpenFile S → Result ℕ × Files S
  write_file f src i o =
      let pos = write_pos o f.store in
      if accmode o.flags == 0
      then (err ebadf, f)
      else when_some (op_of o.ops (λ ops. ops.write)) (err enosys, f)
          (λ write.
            after_write f i (record o { pos = pos }) (write o.fs_priv f.store o.inode src pos))

  -- vfs_write
  unfoldable pub vfs_write : Files S → ℕ → Option (List ℕ) → Result ℕ × Files S
  unfolding fd_to_of_idx
  vfs_write f fd none = (err einval, f)
  vfs_write f fd (some src) = if length src == 0 then (ok 0, f) else on_file f fd (write_file f src)

  -- Where lseek counts from, none for another whence.
  abbrev pub origin : OpenFile S → S → ℕ → Option ℕ
  origin o s whence =
      if whence == 0
      then some 0
      else (if whence == 1
          then some o.pos
          else (if whence == 2 then some (file_size o s 0) else none))

  abbrev pub seek_file : Files S → ℕ → ℕ → ℕ → OpenFile S → Result ℕ × Files S
  seek_file f offset whence i o =
      when_some (origin o f.store whence) (err einval, f)
        (λ base.
          if leb (2 ^ 31) (add32 base offset)
          then (err einval, f)
          else (ok (add32 base offset), put_file f i (record o { pos = add32 base offset })))

  -- vfs_lseek; the signed sum is taken to wrap around.
  unfoldable pub vfs_lseek : Files S → ℕ → ℕ → ℕ → Result ℕ × Files S
  unfolding fd_to_of_idx
  vfs_lseek f fd offset whence = on_file f fd (seek_file f offset whence)

  abbrev pub after_list : Files S → ℕ → OpenFile S → Result (List ℕ × ℕ) → Result (List ℕ) × Files S
  after_list f i o (err e) = (err e, f)
  after_list f i o (ok (bytes, pos)) = (ok bytes, put_file f i (record o { pos = pos }))

  abbrev pub list_file : Files S → ℕ → ℕ → OpenFile S → Result (List ℕ) × Files S
  list_file f size i o =
      when_some (op_of o.ops (λ ops. ops.readdir)) (err enosys, f)
        (λ readdir. after_list f i o (readdir o.fs_priv f.store o.inode size o.pos))

  -- vfs_readdir_fd
  unfoldable pub vfs_readdir_fd : Files S → ℕ → Bool → ℕ → Result (List ℕ) × Files S
  unfolding fd_to_of_idx
  vfs_readdir_fd f fd buffer size =
      if buffer then on_file f fd (list_file f size) else (err einval, f)

  abbrev pub storing : {A : Type 0} → Files S → Result A × S → Result A × Files S
  storing f (r, s) = (r, record f { store = s })

  abbrev pub truncate_file : Files S → ℕ → ℕ → OpenFile S → Result ℕ × Files S
  truncate_file f length i o =
      when_some (op_of o.ops (λ ops. ops.truncate)) (err enosys, f)
        (λ truncate. storing f (truncate o.fs_priv f.store o.inode length))

  -- vfs_ftruncate
  unfoldable pub vfs_ftruncate : Files S → ℕ → ℕ → Result ℕ × Files S
  unfolding fd_to_of_idx
  vfs_ftruncate f fd length = on_file f fd (truncate_file f length)

  abbrev pub pread_file : Files S → ℕ → ℕ → ℕ → OpenFile S → Result (List ℕ) × Files S
  pread_file f count offset i o =
      when_some (op_of o.ops (λ ops. ops.read)) (err enosys, f)
        (λ read. storing f (read o.fs_priv f.store o.inode count offset))

  -- vfs_pread
  unfoldable pub vfs_pread : Files S → ℕ → Bool → ℕ → ℕ → Result (List ℕ) × Files S
  unfolding fd_to_of_idx
  vfs_pread f fd buf count offset =
      if buf then on_file f fd (pread_file f count offset) else (err einval, f)

  -- vfs_fstat; st tells whether there is a place for the answer.
  pub vfs_fstat : Files S → ℕ → Bool → Result Stat
  unfolding fd_to_of_idx
  vfs_fstat f fd st =
      let found : Result Stat = when_some (fd_to_of_idx f fd) (err ebadf) (λ i.
        let o = file_at f.open_files i in
        when_some (op_of o.ops (λ ops. ops.stat)) (err enosys)
          (λ stat. when_some (stat o.fs_priv f.store o.inode) (err ebadf) (λ answer. ok answer))) in
      if st then found else err einval
