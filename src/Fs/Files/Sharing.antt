-- ===== src/Fs/Files/Sharing.antt =====
-- What dup gives.
use unix_os.Fs.Files.{Files, fd_at, max_files, find_free_fd, fd_to_of_idx, file_at, OpenFile}
use unix_os.Fs.Files.Close.{dup_to, share_fd, vfs_dup, dup_in}
use unix_os.Prelude.{
  ℕ, Option, ◌≢◌, ◌≡◌, none, ◌↔◌, ◌<◌, some, refl, arith, sym, ok, ◌∙◌, ◌≤◌, suc, ◌-◌, length, ap,
  err, Bool, List, set, leb, subst, true, ◌+◌, ◌==◌, ebadf, false, ◌∷◌, if◌then◌else◌, ltb, [],
  zero,
}
use unix_os.Core.Process.{Process}
use unix_os.Fs.Files.Counts.{NoneFree, Lowest, refcount-set, free_from-Lowest, of_idx-set}
use unix_os.Fs.Files.Dups.{Made}

module _ {S : Type 0} where
  share_fd_outside :
      (f : Files S) (oldfd newfd : ℕ)
      → (fd_at f.fd_table oldfd).of_idx ≢ 0
      → (share_fd f oldfd newfd ≡ none) ↔ (max_files < (fd_at f.fd_table oldfd).of_idx)
  unfolding share_fd
  share_fd_outside f oldfd newfd n = (λ e. ground (arith, e, n), λ l. ground (arith, l))

  -- A dup that is not refused copies the descriptor.
  dup_is_share_fd :
      (f : Files S) (p : Process) (fd newfd : ℕ)
      → f.current ≡ some p
      → find_free_fd (some p) f.fd_table ≡ some newfd
      → fd < max_files
      → (fd_at f.fd_table fd).of_idx ≢ 0
      → vfs_dup f fd ≡ share_fd f fd newfd
  unfolding vfs_dup
  dup_is_share_fd f p fd newfd c e l n = ground (arith, c, e, l, n)

  -- In a process with a free descriptor, dup of a descriptor in use writes past the end of open_files
  -- exactly where the descriptor does not stand for an open file.
  pub vfs_dup_outside :
      (f : Files S) (p : Process) (fd newfd : ℕ)
      → f.current ≡ some p
      → find_free_fd (some p) f.fd_table ≡ some newfd
      → fd < max_files
      → (fd_at f.fd_table fd).of_idx ≢ 0
      → (vfs_dup f fd ≡ none) ↔ (max_files < (fd_at f.fd_table fd).of_idx)
  unfolding vfs_dup
  vfs_dup_outside f p fd newfd c e l n =
      let h = share_fd_outside f fd newfd n in
      (
        λ r. h.0 (sym (dup_is_share_fd f p fd newfd c e l n) ∙ r),
        λ m. dup_is_share_fd f p fd newfd c e l n ∙ h.1 m,
      )

  -- fd_to_of_idx finds open file i: descriptor fd is in range and stands for it, and it is in use.
  abbrev StandsFor : Files S → ℕ → ℕ → Type 0
  StandsFor f fd i =
      (fd < max_files)
      × ((fd_at f.fd_table fd).of_idx ≡ suc i)
      × (i < max_files)
      × ((file_at f.open_files i).refcount ≢ 0)

  fd_to_of_idx-StandsFor :
      (f : Files S) (fd i : ℕ) → (fd_to_of_idx f fd ≡ some i) ↔ StandsFor f fd i
  unfolding fd_to_of_idx
  fd_to_of_idx-StandsFor f fd i =
      let at : ((fd_at f.fd_table fd).of_idx - 1 ≡ i)
          → (file_at f.open_files ((fd_at f.fd_table fd).of_idx - 1)).refcount
            ≡ (file_at f.open_files i).refcount =
        (λ p. ap (λ k. (file_at f.open_files k).refcount) p) in
      (
        λ e. (ground (arith, e), ground (arith, e), ground (arith, e), ground (arith, e, at)),
        λ (l, o, l', n). ground (arith, at, l, o, l', n),
      )

  -- What a successful dup of a descriptor of open file i gives.
  abbrev Shared : Files S → ℕ → ℕ → Made S → Type 0
  Shared f fd i none = Unit {0}
  Shared f fd i (some (err e, f')) = Unit {0}
  Shared f fd i (some (ok newfd, f')) =
      (fd_to_of_idx f' newfd ≡ some i)
      × (fd_to_of_idx f' fd ≡ some i)
      × ((file_at f'.open_files i).pos ≡ (file_at f.open_files i).pos)
      × (3 ≤ newfd)
      × (newfd < max_files)
      × ((fd_at f.fd_table newfd).of_idx ≡ 0)
      × NoneFree f.fd_table 3 newfd

  if-Shared :
      (f : Files S) (fd i : ℕ) (b : Bool) (x y : Made S)
      → (b ≡ true → Shared f fd i x)
      → (b ≡ false → Shared f fd i y)
      → Shared f fd i (if b then x else y)
  if-Shared f fd i true x y p q = p refl
  if-Shared f fd i false x y p q = q refl

  -- A file whose position stays, under a larger count.
  position-set :
      (files : List (OpenFile S)) (i n : ℕ)
      → (file_at (set files i (record (file_at files i) { refcount = n })) i).pos
        ≡ (file_at files i).pos
  position-set [] i n = refl
  position-set (o ∷ files) zero n = refl
  position-set (o ∷ files) (suc i) n = position-set files i n

  share_fd-Shared :
      (f : Files S) (fd newfd i : ℕ)
      → length f.open_files ≡ max_files
      → length f.fd_table ≡ max_files
      → StandsFor f fd i
      → (fd_at f.fd_table fd).of_idx - 1 ≡ i
      → Lowest 3 f.fd_table (some newfd)
      → Shared f fd i (share_fd f fd newfd)
  unfolding share_fd
  share_fd-Shared f fd newfd i n m (l, o, l', u) p (lf, e, ge, nf) =
      let d = fd_at f.fd_table fd in
      let q = file_at f.open_files (d.of_idx - 1) in
      let f' : Files S = record f {
        fd_table = set f.fd_table newfd d;
        open_files = set f.open_files (d.of_idx - 1) (record q { refcount = q.refcount + 1 });
      } in
      let r : (file_at f'.open_files i).refcount ≢ 0 = ground (
        arith,
        p,
        refcount-set f.open_files (d.of_idx - 1) i (record q { refcount = q.refcount + 1 })
            (omega (arith, p, l', n)),
      ) in
      if-Shared f fd i (ltb (d.of_idx - 1) max_files) (some (ok newfd, f')) none
        (λ _. (
          (fd_to_of_idx-StandsFor f' newfd i).1 (
            omega (arith, lf, m),
            ground (arith, o, of_idx-set f.fd_table newfd newfd d lf),
            l',
            r,
          ),
          (fd_to_of_idx-StandsFor f' fd i).1
              (l, ground (arith, o, of_idx-set f.fd_table newfd fd d lf), l', r),
          subst (λ k. (file_at f'.open_files k).pos ≡ (file_at f.open_files k).pos) p
              (position-set f.open_files (d.of_idx - 1) _),
          ge,
          omega (arith, lf, m),
          e,
          nf,
        ))
        (λ b. absurd (ground (arith, b, p, l')))

  dup_to-Shared :
      (f : Files S) (fd i : ℕ) (r : Option ℕ)
      → length f.open_files ≡ max_files
      → length f.fd_table ≡ max_files
      → StandsFor f fd i
      → Lowest 3 f.fd_table r
      → Shared f fd i (dup_to f fd r)
  dup_to-Shared f fd i none n m s l = tt
  dup_to-Shared f fd i (some newfd) n m s l =
      share_fd-Shared f fd newfd i n m s (omega (arith, s.1)) l

  dup_in-Shared :
      (f : Files S) (fd i : ℕ) (p : Option Process)
      → length f.open_files ≡ max_files
      → length f.fd_table ≡ max_files
      → StandsFor f fd i
      → Shared f fd i (dup_in f fd p)
  dup_in-Shared f fd i none n m s = tt
  dup_in-Shared f fd i (some p) n m s =
      if-Shared f fd i ((fd_at f.fd_table fd).of_idx == 0) (some (err ebadf, f)) _ (λ _. tt)
        (λ _. dup_to-Shared f fd i _ n m s (free_from-Lowest 3 f.fd_table))

  vfs_dup-Shared :
      (f : Files S) (fd i : ℕ)
      → length f.open_files ≡ max_files
      → length f.fd_table ≡ max_files
      → StandsFor f fd i
      → Shared f fd i (vfs_dup f fd)
  unfolding vfs_dup
  vfs_dup-Shared f fd i n m s =
      if-Shared f fd i (leb max_files fd) (some (err ebadf, f)) (dup_in f fd f.current) (λ _. tt)
        (λ _. dup_in-Shared f fd i f.current n m s)

  -- A dup that succeeds at a descriptor of open file i gives the lowest descriptor from 3 on that was
  -- free, below 64; afterwards both descriptors stand for file i, whose position is as before.
  pub vfs_dup-shares :
      (f : Files S) (fd newfd i : ℕ) (f' : Files S)
      → length f.open_files ≡ max_files
      → length f.fd_table ≡ max_files
      → fd_to_of_idx f fd ≡ some i
      → vfs_dup f fd ≡ some (ok newfd, f')
      → (fd_to_of_idx f' newfd ≡ some i)
        × (fd_to_of_idx f' fd ≡ some i)
        × ((file_at f'.open_files i).pos ≡ (file_at f.open_files i).pos)
        × (3 ≤ newfd)
        × (newfd < max_files)
        × ((fd_at f.fd_table newfd).of_idx ≡ 0)
        × NoneFree f.fd_table 3 newfd
  vfs_dup-shares f fd newfd i f' n m e d =
      subst (Shared f fd i) d (vfs_dup-Shared f fd i n m ((fd_to_of_idx-StandsFor f fd i).0 e))
