-- ===== src/Fs/Files/Moved.antt =====
-- The calls of Io change the file systems and the position of one open file, and nothing else.
use unix_os.Fs.Files.{Files, OpenFile, accmode, file_at, fd_to_of_idx}
use unix_os.Prelude.{
  ℕ, Bool, Result, Option, if◌then◌else◌, List, ◌==◌, none, err, true, some, ebadf, false, ok,
  einval, enosys, length, leb, ◌^◌, add32,
}
use unix_os.Fs.Files.Io.{
  vfs_read, put_file, on_file, after_write, after_read, read_file, when_some, after_list, op_of,
  storing, vfs_write, vfs_lseek, vfs_readdir_fd, vfs_ftruncate, vfs_pread, seek_file, list_file,
  truncate_file, pread_file, write_file, origin,
}
use unix_os.Fs.Mount.{Ops}

module _ {S : Type 0} where
  pub data Moved (f : Files S) {A : Type 0} : Result A × Files S → Type 0 where
    stays : (r : Result A) (s : S) → Moved f (r, record f { store = s })
    moves :
        (r : Result A) (s : S) (i p : ℕ)
        → Moved f
            (r, put_file (record f { store = s }) i (record (file_at f.open_files i) { pos = p }))

module _ {S : Type 0} (f : Files S) where
  if-Moved :
      {A : Type 0} (b : Bool) (x y : Result A × Files S)
      → Moved f x
      → Moved f y
      → Moved f (if b then x else y)
  if-Moved true x y p q = p
  if-Moved false x y p q = q

  when_some-Moved :
      {A B : Type 0} (m : Option B) (x : Result A × Files S) (k : B → Result A × Files S)
      → Moved f x
      → ((b : B) → Moved f (k b))
      → Moved f (when_some m x k)
  when_some-Moved none x k p q = p
  when_some-Moved (some b) x k p q = q b

  on_file-Moved :
      {A : Type 0} (fd : ℕ) (k : ℕ → OpenFile S → Result A × Files S)
      → ((i : ℕ) → Moved f (k i (file_at f.open_files i)))
      → Moved f (on_file f fd k)
  on_file-Moved fd k h =
      when_some-Moved (fd_to_of_idx f fd) (err ebadf, f) (λ i. k i (file_at f.open_files i))
        (stays _ f.store) h

  after_read-Moved :
      (i : ℕ) (r : Result (List ℕ) × S) → Moved f (after_read f i (file_at f.open_files i) r)
  after_read-Moved i (err e, s) = stays (err e) s
  after_read-Moved i (ok bytes, s) = moves (ok bytes) s i _

  after_write-Moved :
      (i p : ℕ) (r : Result ℕ × S)
      → Moved f (after_write f i (record (file_at f.open_files i) { pos = p }) r)
  after_write-Moved i p (err e, s) = moves (err e) s i p
  after_write-Moved i p (ok n, s) = moves (ok n) s i _

  after_list-Moved :
      (i : ℕ) (r : Result (List ℕ × ℕ)) → Moved f (after_list f i (file_at f.open_files i) r)
  after_list-Moved i (err e) = stays (err e) f.store
  after_list-Moved i (ok (bytes, pos)) = moves (ok bytes) f.store i pos

  pub vfs_read-Moved : (fd : ℕ) (buf : Bool) (count : ℕ) → Moved f (vfs_read f fd buf count)
  unfolding vfs_read
  vfs_read-Moved fd buf count =
      if-Moved buf (on_file f fd (read_file f count)) (err einval, f)
        (on_file-Moved fd (read_file f count) (λ i.
          let o = file_at f.open_files i in
          if-Moved (accmode o.flags == 1) (err ebadf, f) _ (stays _ f.store)
            (when_some-Moved (op_of o.ops (λ ops. ops.read)) (err enosys, f) _ (stays _ f.store)
              (λ read. after_read-Moved i _))))
        (stays _ f.store)

  -- An operation that is looked up in an open file, and called if it is there.
  op-Moved :
      {A B : Type 0} (i : ℕ) (op : Ops S → Option B) (k : B → Result A × Files S)
      → ((b : B) → Moved f (k b))
      → Moved f (when_some (op_of (file_at f.open_files i).ops op) (err enosys, f) k)
  op-Moved i op k h =
      when_some-Moved (op_of (file_at f.open_files i).ops op) (err enosys, f) k (stays _ f.store) h

  storing-Moved : {A : Type 0} (r : Result A × S) → Moved f (storing f r)
  storing-Moved (r, s) = stays r s

  pub vfs_write-Moved : (fd : ℕ) (src : Option (List ℕ)) → Moved f (vfs_write f fd src)
  unfolding vfs_write
  vfs_write-Moved fd none = stays _ f.store
  vfs_write-Moved fd (some src) =
      if-Moved (length src == 0) (ok 0, f) (on_file f fd (write_file f src)) (stays _ f.store)
        (on_file-Moved fd (write_file f src) (λ i.
          if-Moved (accmode (file_at f.open_files i).flags == 0) (err ebadf, f) _ (stays _ f.store)
            (op-Moved i (λ ops. ops.write) _ (λ write. after_write-Moved i _ _))))

  pub vfs_lseek-Moved : (fd offset whence : ℕ) → Moved f (vfs_lseek f fd offset whence)
  unfolding vfs_lseek
  vfs_lseek-Moved fd offset whence = on_file-Moved fd (seek_file f offset whence) (λ i.
      when_some-Moved (origin (file_at f.open_files i) f.store whence) (err einval, f) _
        (stays _ f.store)
        (λ base.
          if-Moved (leb (2 ^ 31) (add32 base offset)) (err einval, f) _ (stays _ f.store)
            (moves _ f.store i _)))

  pub vfs_readdir_fd-Moved :
      (fd : ℕ) (buffer : Bool) (size : ℕ) → Moved f (vfs_readdir_fd f fd buffer size)
  unfolding vfs_readdir_fd
  vfs_readdir_fd-Moved fd buffer size =
      if-Moved buffer (on_file f fd (list_file f size)) (err einval, f)
        (on_file-Moved fd (list_file f size)
          (λ i. op-Moved i (λ ops. ops.readdir) _ (λ readdir. after_list-Moved i _)))
        (stays _ f.store)

  pub vfs_ftruncate-Moved : (fd length : ℕ) → Moved f (vfs_ftruncate f fd length)
  unfolding vfs_ftruncate
  vfs_ftruncate-Moved fd length =
      on_file-Moved fd (truncate_file f length)
        (λ i. op-Moved i (λ ops. ops.truncate) _ (λ truncate. storing-Moved _))

  pub vfs_pread-Moved :
      (fd : ℕ) (buf : Bool) (count offset : ℕ) → Moved f (vfs_pread f fd buf count offset)
  unfolding vfs_pread
  vfs_pread-Moved fd buf count offset =
      if-Moved buf (on_file f fd (pread_file f count offset)) (err einval, f)
        (on_file-Moved fd (pread_file f count offset)
          (λ i. op-Moved i (λ ops. ops.read) _ (λ read. storing-Moved _)))
        (stays _ f.store)
