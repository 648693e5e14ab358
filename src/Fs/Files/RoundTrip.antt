-- ===== src/Fs/Files/RoundTrip.antt =====
-- Close takes back what open did to the two tables.
use unix_os.Fs.Files.{
  Files, OpenFile, max_files, has_flag, file_at, fd_at, first_fd, alloc_open_file,
  unsupported_flags, accmode, empty_fd,
}
use unix_os.Fs.Files.Open.{
  open_found, open_path, vfs_open, open_inode, open_slot, find_or_create, new_fd, install,
  opened_file,
}
use unix_os.Fs.Files.Close.{drop_file, vfs_close, clear_fd, drop_count}
use unix_os.Prelude.{
  List, ℕ, Option, Result, Bool, ◌<◌, ◌≡◌, if◌then◌else◌, arith, length, err, some, einval, ok, set,
  leb, suc, subst, true, ◌||◌, ◌&&◌, none, false, ap, ◌==◌, ◌-◌, refl, length-set,
}
use unix_os.Fs.Mount.{Mount, Str}
use unix_os.Fs.Files.Counts.{
  Allocated, Lowest, free_from-Lowest, alloc_open_file-Allocated, refcount-set, of_idx-set,
}

module _ {S : Type 0} where
  -- What a successful open leaves: a free descriptor stands for a free open file.
  abbrev pub Opened : Files S → ℕ → Result ℕ × Files S → Type 0
  Opened f flags (err e, f') = Unit {0}
  Opened f flags (ok fd, f') =
      (i : ℕ) × (o : OpenFile S) × (i < length f.open_files)
      × ((file_at f.open_files i).refcount ≡ 0)
      × (fd < length f.fd_table)
      × ((fd_at f.fd_table fd).of_idx ≡ 0)
      × (o.refcount ≡ 1)
      × (f'.open_files ≡ set f.open_files i o)
      × (f'.fd_table ≡ set f.fd_table fd (new_fd i flags))

  install-Opened :
      (f : Files S) (m : Mount S) (ino flags : ℕ) (s : S) (i : ℕ) (files : List (OpenFile S))
      (r : Option ℕ)
      → Allocated f.open_files (some (i, files))
      → Lowest (first_fd f.current) f.fd_table r
      → Opened f flags (install f m ino flags s i files r)
  install-Opened f m ino flags s i files none a l = tt
  install-Opened f m ino flags s i files (some fd) (li, e, at) (lf, e', _, _) =
      (i, opened_file m ino flags s, li, e, lf, e', refl, at (opened_file m ino flags s), refl)

  open_slot-Opened :
      (f : Files S) (m : Mount S) (ino flags : ℕ) (s : S) (r : Option (ℕ × List (OpenFile S)))
      → Allocated f.open_files r
      → Opened f flags (open_slot f m ino flags s r)
  open_slot-Opened f m ino flags s none a = tt
  open_slot-Opened f m ino flags s (some (i, files)) a =
      install-Opened f m ino flags s i files _ a (free_from-Lowest (first_fd f.current) f.fd_table)

  open_found-Opened :
      (f : Files S) (flags : ℕ) (r : Result (Mount S × ℕ) × S)
      → Opened f flags (open_found f flags r)
  unfolding open_found open_inode
  open_found-Opened f flags (err e, s) = tt
  open_found-Opened f flags (ok (m, ino), s) =
      open_slot-Opened (record f { store = s }) m ino flags _ (alloc_open_file f.open_files)
        (alloc_open_file-Allocated f.open_files)

  open_path-Opened :
      (mounts : List (Option (Mount S))) (f : Files S) (flags mode : ℕ) (r : Result Str)
      → Opened f flags (open_path mounts f flags mode r)
  unfolding open_path
  open_path-Opened mounts f flags mode (err e) = tt
  open_path-Opened mounts f flags mode (ok abs) =
      open_found-Opened f flags (find_or_create mounts f.store abs flags mode)

  if-Opened :
      (f : Files S) (flags : ℕ) (b : Bool) (x : Result ℕ × Files S)
      → Opened f flags x
      → Opened f flags (if b then (err einval, f) else x)
  if-Opened f flags true x h = tt
  if-Opened f flags false x h = h

  pub vfs_open-Opened :
      (mounts : List (Option (Mount S))) (f : Files S) (path : Option Str) (flags mode : ℕ)
      → Opened f flags (vfs_open mounts f path flags mode)
  unfolding vfs_open
  vfs_open-Opened mounts f none flags mode = tt
  vfs_open-Opened mounts f (some path) flags mode =
      if-Opened f flags (has_flag flags unsupported_flags || accmode flags == 3) _
        (open_path-Opened mounts f flags mode _)

  drop_file-refcount :
      (f : Files S) (i j : ℕ)
      → i < max_files
      → i < length f.open_files
      → (file_at f.open_files i).refcount ≡ 1
      → (file_at (drop_file f i).open_files j).refcount
        ≡ (if leb i j && leb j i then 0 else (file_at f.open_files j).refcount)
  unfolding drop_file
  drop_file-refcount f i j l n r =
      ground (arith, l, r, refcount-set f.open_files i j (drop_count (file_at f.open_files i)) n)

  drop_file-fd_table : (f : Files S) (i : ℕ) → (drop_file f i).fd_table ≡ f.fd_table
  unfolding drop_file
  drop_file-fd_table f i = ground arith

  -- Closing the only descriptor of an open file.
  close_last :
      (f : Files S) (fd i : ℕ)
      → fd < max_files
      → (fd_at f.fd_table fd).of_idx ≡ suc i
      → vfs_close f fd ≡ clear_fd (drop_file f i) fd
  unfolding vfs_close
  close_last f fd i l e = ground (
    arith,
    l,
    e,
    ap (λ k. clear_fd (drop_file f k) fd) {x = (fd_at f.fd_table fd).of_idx - 1} {y = i},
  )

  close_new_fd :
      (f : Files S) (flags fd : ℕ) (f' : Files S)
      → length f.open_files ≡ max_files
      → length f.fd_table ≡ max_files
      → Opened f flags (ok fd, f')
      → ((j : ℕ)
          → (file_at (vfs_close f' fd).open_files j).refcount ≡ (file_at f.open_files j).refcount)
        × ((j : ℕ) → (fd_at (vfs_close f' fd).fd_table j).of_idx ≡ (fd_at f.fd_table j).of_idx)
  close_new_fd f flags fd f' n m (i, o, li, r, lf, z, r', os, t) =
      let count : (k : ℕ)
          → (file_at f'.open_files k).refcount
            ≡ (if leb i k && leb k i then 1 else (file_at f.open_files k).refcount) =
        (λ k.
          ground
            (arith, ap (λ l. (file_at l k).refcount) os, refcount-set f.open_files i k o li, r')) in
      let stands : (k : ℕ)
          → (fd_at f'.fd_table k).of_idx
            ≡ (if leb fd k && leb k fd then suc i else (fd_at f.fd_table k).of_idx) =
        (λ k. ground (
          arith,
          ap (λ l. (fd_at l k).of_idx) t,
          of_idx-set f.fd_table fd k (new_fd i flags) lf,
        )) in
      let li' : i < length f'.open_files =
        omega (arith, ap length os, length-set f.open_files i o, li) in
      let lf' : fd < length (drop_file f' i).fd_table = omega (
        arith,
        ap length (drop_file-fd_table f' i),
        ap length t,
        length-set f.fd_table fd (new_fd i flags),
        lf,
      ) in
      let p = close_last f' fd i (omega (arith, lf, m)) (ground (arith, stands fd)) in
      (
        λ j. ground (
          arith,
          ap (λ g. (file_at g.open_files j).refcount) p,
          drop_file-refcount f' i j (omega (arith, li, n)) li' (ground (arith, count i)),
          count j,
          r,
          ap (λ k. (file_at f.open_files k).refcount) {x = i} {y = j},
        ),
        λ j. ground (
          arith,
          ap (λ g. (fd_at g.fd_table j).of_idx) p,
          of_idx-set (drop_file f' i).fd_table fd j empty_fd lf',
          ap (λ l. (fd_at l j).of_idx) (drop_file-fd_table f' i),
          stands j,
          z,
          ap (λ k. (fd_at f.fd_table k).of_idx) {x = fd} {y = j},
        ),
      )

  -- An open that succeeds and then a close of the descriptor that it returned leave every count of an
  -- open file, and what every descriptor stands for, as they were.
  pub vfs_open-vfs_close :
      (mounts : List (Option (Mount S))) (f : Files S) (path : Option Str) (flags mode fd : ℕ)
      (f' : Files S)
      → length f.open_files ≡ max_files
      → length f.fd_table ≡ max_files
      → vfs_open mounts f path flags mode ≡ (ok fd, f')
      → ((j : ℕ)
          → (file_at (vfs_close f' fd).open_files j).refcount ≡ (file_at f.open_files j).refcount)
        × ((j : ℕ) → (fd_at (vfs_close f' fd).fd_table j).of_idx ≡ (fd_at f.fd_table j).of_idx)
  vfs_open-vfs_close mounts f path flags mode fd f' n m e =
      close_new_fd f flags fd f' n m
        (subst (Opened f flags) e (vfs_open-Opened mounts f path flags mode))
