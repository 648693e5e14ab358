-- ===== src/Fs/Files/Dups.antt =====
-- The counts of the open files under close, dup and dup2.
use unix_os.Prelude.{
  Option, ℕ, Result, Bool, some, ◌≡◌, ◌<◌, true, none, false, ◌≢◌, leb, if◌then◌else◌, ◌||◌, ◌==◌,
  refl, ◌-◌, arith, ltb, ◌+◌, ap, ◌&&◌, err, get_or-set, ebadf, ok,
}
use unix_os.Fs.Files.{Files, max_files, fd_at, file_at, empty_fd}
use unix_os.Fs.Files.Close.{
  vfs_close, clear_fd, drop_file, share_fd, vfs_dup, vfs_dup2, dup_to, dup_in, dup2_in,
}
use unix_os.Fs.Files.Balance.{Counted, drop_file-clear, change-Counted}
use unix_os.Fs.Files.Counts.{Lowest, free_from-Lowest}
use unix_os.Core.Process.{Process}

-- What a call returns and leaves, none where it writes outside open_files.
abbrev pub Made : Type 0 → Type 0
Made S = Option (Result ℕ × Files S)

module _ {S : Type 0} (others : ℕ → ℕ) where
  -- A call that does not write outside open_files leaves the counts right.
  abbrev pub StaysCounted : Made S → Type 0
  StaysCounted none = Unit {0}
  StaysCounted (some (r, f)) = Counted others f

  if-StaysCounted :
      (b : Bool) (x y : Made S)
      → (b ≡ true → StaysCounted x)
      → (b ≡ false → StaysCounted y)
      → StaysCounted (if b then x else y)
  if-StaysCounted true x y p q = p refl
  if-StaysCounted false x y p q = q refl

  pub vfs_close-Counted :
      (f : Files S) (fd : ℕ) → Counted others f → Counted others (vfs_close f fd)
  unfolding vfs_close
  vfs_close-Counted f fd c =
      let d = fd_at f.fd_table fd in
      elim (leb max_files fd || d.of_idx == 0)
          as (λ b.
            (leb max_files fd || d.of_idx == 0) ≡ b
            → Counted others (if b then f else clear_fd (drop_file f (d.of_idx - 1)) fd)) [
              | true ↦ λ e. c
              | false ↦ λ e.
                  drop_file-clear others f fd (d.of_idx - 1) (ground (arith, e)) (ground (arith, e))
                    c
            ]
        refl

  share_fd-Counted :
      (f : Files S) (oldfd newfd : ℕ)
      → newfd < max_files
      → (fd_at f.fd_table oldfd).of_idx ≢ 0
      → (fd_at f.fd_table newfd).of_idx ≡ 0
      → Counted others f
      → StaysCounted (share_fd f oldfd newfd)
  unfolding share_fd
  share_fd-Counted f oldfd newfd l n e c =
      let d = fd_at f.fd_table oldfd in
      let i = d.of_idx - 1 in
      let o = file_at f.open_files i in
      if-StaysCounted (ltb i max_files) _ none
        (λ t.
          change-Counted others f f.store i (record o { refcount = o.refcount + 1 }) newfd d
            (ground (arith, t)) l
            (λ j p.
              ground (arith, e, n, ap (λ k. (file_at f.open_files k).refcount) {x = i} {y = j}))
            c)
        (λ _. tt)

  -- Closing frees its descriptor and leaves the others as they are.
  pub vfs_close-fd_table :
      (f : Files S) (fd j : ℕ)
      → Counted others f
      → fd < max_files
      → (fd_at (vfs_close f fd).fd_table j).of_idx
        ≡ (if leb fd j && leb j fd then 0 else (fd_at f.fd_table j).of_idx)
  unfolding vfs_close drop_file
  vfs_close-fd_table f fd j c l =
      let d = fd_at f.fd_table fd in
      ground (
        arith,
        ap (λ k. (fd_at f.fd_table k).of_idx) {x = fd} {y = j},
        ap (λ e. e.of_idx) (get_or-set f.fd_table fd j empty_fd empty_fd (omega (arith, c.1, l))),
      )

  dup_to-StaysCounted :
      (f : Files S) (oldfd start : ℕ) (r : Option ℕ)
      → (fd_at f.fd_table oldfd).of_idx ≢ 0
      → Lowest start f.fd_table r
      → Counted others f
      → StaysCounted (dup_to f oldfd r)
  dup_to-StaysCounted f oldfd start none n l c = c
  dup_to-StaysCounted f oldfd start (some newfd) n (l, e, _, _) c =
      share_fd-Counted f oldfd newfd (omega (arith, l, c.1)) n e c

  dup_in-StaysCounted :
      (f : Files S) (oldfd : ℕ) (p : Option Process)
      → Counted others f
      → StaysCounted (dup_in f oldfd p)
  dup_in-StaysCounted f oldfd none c = c
  dup_in-StaysCounted f oldfd (some p) c =
      if-StaysCounted ((fd_at f.fd_table oldfd).of_idx == 0) (some (err ebadf, f)) _ (λ _. c)
        (λ n. dup_to-StaysCounted f oldfd 3 _ (ground (arith, n)) (free_from-Lowest 3 f.fd_table) c)

  pub vfs_dup-StaysCounted : (f : Files S) (fd : ℕ) → Counted others f → StaysCounted (vfs_dup f fd)
  unfolding vfs_dup
  vfs_dup-StaysCounted f fd c =
      if-StaysCounted (leb max_files fd) (some (err ebadf, f)) (dup_in f fd f.current) (λ _. c)
        (λ _. dup_in-StaysCounted f fd f.current c)

  dup2_in-StaysCounted :
      (f : Files S) (oldfd newfd : ℕ) (p : Option Process)
      → newfd < max_files
      → oldfd ≢ newfd
      → Counted others f
      → StaysCounted (dup2_in f oldfd newfd p)
  dup2_in-StaysCounted f oldfd newfd none l n c = c
  dup2_in-StaysCounted f oldfd newfd (some p) l n c =
      if-StaysCounted ((fd_at f.fd_table oldfd).of_idx == 0) (some (err ebadf, f)) _ (λ _. c)
        (λ u.
          share_fd-Counted (vfs_close f newfd) oldfd newfd l
            (ground (arith, u, n, vfs_close-fd_table f newfd oldfd c l))
            (ground (arith, vfs_close-fd_table f newfd newfd c l)) (vfs_close-Counted f newfd c))

  pub vfs_dup2-StaysCounted :
      (f : Files S) (oldfd newfd : ℕ) → Counted others f → StaysCounted (vfs_dup2 f oldfd newfd)
  unfolding vfs_dup2
  vfs_dup2-StaysCounted f oldfd newfd c =
      if-StaysCounted (leb max_files oldfd || leb max_files newfd) (some (err ebadf, f)) _ (λ _. c)
        (λ l.
          if-StaysCounted (oldfd == newfd) (some (ok newfd, f)) (dup2_in f oldfd newfd f.current)
            (λ _. c)
            (λ n.
              dup2_in-StaysCounted f oldfd newfd f.current (ground (arith, l)) (ground (arith, n))
                c))
