-- ===== src/Fs/Files/Balance.antt =====
-- The counts of the open files under each call that opens, shares or closes one.
use unix_os.Prelude.{
  ℕ, length, ◌≡◌, ◌<◌, if◌then◌else◌, ◌+◌, leb, ◌&&◌, length-set, suc, ◌∙◌, arith, ◌==◌, set, List,
  Option, Result, some, err, none, ok, subst, sym, ap, Bool, ltb, not, true, ◌||◌, false, refl,
  einval,
}
use unix_os.Fs.Files.{
  Files, OpenFile, max_files, file_at, fd_at, first_fd, alloc_open_file, has_flag,
  unsupported_flags, empty_fd, accmode,
}
use unix_os.Fs.Files.Open.{
  open_inode, open_found, vfs_open, open_slot, install, inc_opened, open_path, find_or_create,
  new_fd, opened_file,
}
use unix_os.Fs.Files.Close.{drop_file, clear_fd, drop_store, drop_count}
use unix_os.Fs.Mount.{Mount, Str}
use unix_os.Core.Fork.{Fd}
use unix_os.Fs.Files.Io.{put_file}
use unix_os.Fs.Files.Counts.{
  count_fds, one_if, refcount-set, count_fds-set, Allocated, Lowest, free_from-Lowest,
  alloc_open_file-Allocated, count_fds-pos,
}

-- Both tables have 64 entries, and the count of an open file is the number of descriptors that stand
-- for it, the current process's and those of the other processes, `others i` for file i.
abbrev pub Counted : {S : Type 0} → (ℕ → ℕ) → Files S → Type 0
Counted others f =
    (length f.open_files ≡ max_files)
    × (length f.fd_table ≡ max_files)
    × ((i : ℕ)
        → i < max_files
        → (file_at f.open_files i).refcount ≡ others i + count_fds f.fd_table (suc i))

module _ {S : Type 0} (others : ℕ → ℕ) where
  -- File i gets the count n, and descriptor fd becomes d, such that both change alike.
  pub change-Counted :
      (f : Files S) (s : S) (i : ℕ) (o : OpenFile S) (fd : ℕ) (d : Fd)
      → i < max_files
      → fd < max_files
      → ((j : ℕ)
          → j < max_files
          → (if leb i j && leb j i then o.refcount else (file_at f.open_files j).refcount)
              + one_if ((fd_at f.fd_table fd).of_idx == suc j)
            ≡ (file_at f.open_files j).refcount + one_if (d.of_idx == suc j))
      → Counted others f
      → Counted others (record f {
        store = s;
        open_files = set f.open_files i o;
        fd_table = set f.fd_table fd d;
      })
  change-Counted f s i o fd d li lf e (n, m, h) = (
    length-set f.open_files i o ∙ n,
    length-set f.fd_table fd d ∙ m,
    λ j p. omega (
      arith,
      refcount-set f.open_files i j o (omega (arith, n, li)),
      count_fds-set f.fd_table fd d (suc j) (omega (arith, m, lf)),
      h j p,
      e j p,
    ),
  )

  -- A file keeps its count.
  pub put-Counted :
      (f : Files S) (s : S) (i : ℕ) (o : OpenFile S)
      → i < max_files
      → o.refcount ≡ (file_at f.open_files i).refcount
      → Counted others f
      → Counted others (put_file (record f { store = s }) i o)
  put-Counted f s i o lt e (n, m, h) = (
    length-set f.open_files i o ∙ n,
    m,
    λ j p. ground (arith, refcount-set f.open_files i j o (omega (arith, n)), h j p, e),
  )

  install-Counted :
      (f : Files S) (m : Mount S) (ino flags : ℕ) (s : S) (i : ℕ) (files : List (OpenFile S))
      (r : Option ℕ)
      → Allocated f.open_files (some (i, files))
      → Lowest (first_fd f.current) f.fd_table r
      → Counted others f
      → Counted others (install f m ino flags s i files r).1
  install-Counted f m ino flags s i files none (li, e, at) l c =
      subst (λ os. Counted others (record f { store = s; open_files = os })) (sym (at _))
        (put-Counted f s i _ (omega (arith, c.0, li)) (sym e) c)
  install-Counted f m ino flags s i files (some fd) (li, e, at) (lf, e', _, _) c =
      subst
        (λ os. Counted others (record f {
          store = inc_opened m ino s;
          open_files = os;
          fd_table = set f.fd_table fd (new_fd i flags);
        }))
        (sym (at (opened_file m ino flags s)))
        (change-Counted f (inc_opened m ino s) i (opened_file m ino flags s) fd (new_fd i flags)
          (omega (arith, c.0, li)) (omega (arith, c.1, lf))
          (λ j p.
            ground (arith, e, e', ap (λ k. (file_at f.open_files k).refcount) {x = i} {y = j}))
          c)

  open_slot-Counted :
      (f : Files S) (m : Mount S) (ino flags : ℕ) (s : S) (r : Option (ℕ × List (OpenFile S)))
      → Allocated f.open_files r
      → Counted others f
      → Counted others (open_slot f m ino flags s r).1
  open_slot-Counted f m ino flags s none a c = c
  open_slot-Counted f m ino flags s (some (i, files)) a c =
      install-Counted f m ino flags s i files _ a (free_from-Lowest (first_fd f.current) f.fd_table)
        c

  open_found-Counted :
      (f : Files S) (flags : ℕ) (r : Result (Mount S × ℕ) × S)
      → Counted others f
      → Counted others (open_found f flags r).1
  unfolding open_found open_inode
  open_found-Counted f flags (err e, s) c = c
  open_found-Counted f flags (ok (m, ino), s) c =
      open_slot-Counted (record f { store = s }) m ino flags _ (alloc_open_file f.open_files)
        (alloc_open_file-Allocated f.open_files) c

  if-Counted :
      {A : Type 0} (b : Bool) (x y : A × Files S)
      → Counted others x.1
      → Counted others y.1
      → Counted others (if b then x else y).1
  if-Counted true x y p q = p
  if-Counted false x y p q = q

  open_path-Counted :
      (mounts : List (Option (Mount S))) (f : Files S) (flags mode : ℕ) (r : Result Str)
      → Counted others f
      → Counted others (open_path mounts f flags mode r).1
  unfolding open_path
  open_path-Counted mounts f flags mode (err e) c = c
  open_path-Counted mounts f flags mode (ok abs) c =
      open_found-Counted f flags (find_or_create mounts f.store abs flags mode) c

  pub vfs_open-Counted :
      (mounts : List (Option (Mount S))) (f : Files S) (path : Option Str) (flags mode : ℕ)
      → Counted others f
      → Counted others (vfs_open mounts f path flags mode).1
  unfolding vfs_open
  vfs_open-Counted mounts f none flags mode c = c
  vfs_open-Counted mounts f (some path) flags mode c =
      if-Counted (has_flag flags unsupported_flags || accmode flags == 3) (err einval, f) _ c
        (open_path-Counted mounts f flags mode _ c)

  -- The file of a descriptor has a positive count.
  pub refcount_pos :
      (f : Files S) (fd i : ℕ)
      → fd < max_files
      → i < max_files
      → (fd_at f.fd_table fd).of_idx ≡ suc i
      → Counted others f
      → 0 < (file_at f.open_files i).refcount
  refcount_pos f fd i lf li e (n, m, h) =
      omega (arith, h i li, count_fds-pos f.fd_table fd (suc i) (omega (arith, lf, m)) e)

  -- A descriptor that stands for no open file may be overwritten by another such.
  other-Counted :
      (f : Files S) (fd : ℕ) (d : Fd)
      → fd < max_files
      → ((j : ℕ)
          → j < max_files
          → one_if ((fd_at f.fd_table fd).of_idx == suc j) ≡ one_if (d.of_idx == suc j))
      → Counted others f
      → Counted others (record f { fd_table = set f.fd_table fd d })
  other-Counted f fd d lf e (n, m, h) = (
    n,
    length-set f.fd_table fd d ∙ m,
    λ j p.
        omega (arith, count_fds-set f.fd_table fd d (suc j) (omega (arith, m, lf)), h j p, e j p),
  )

  pub drop_file-clear :
      (f : Files S) (fd i : ℕ)
      → fd < max_files
      → (fd_at f.fd_table fd).of_idx ≡ suc i
      → Counted others f
      → Counted others (clear_fd (drop_file f i) fd)
  unfolding drop_file
  drop_file-clear f fd i l n c =
      let o = file_at f.open_files i in
      let f' : Files S = record f {
        store = drop_store o f.store;
        open_files = set f.open_files i (drop_count o);
      } in
      elim (ltb i max_files && not (o.refcount == 0))
          as (λ b.
            (ltb i max_files && not (o.refcount == 0)) ≡ b
            → Counted others (clear_fd (if b then f' else f) fd)) [
              | true ↦ λ e.
                  change-Counted f (drop_store o f.store) i (drop_count o) fd empty_fd
                    (ground (arith, e)) l
                    (λ j p.
                      ground
                        (arith, e, n, ap (λ k. (file_at f.open_files k).refcount) {x = i} {y = j}))
                    c
              | false ↦ λ e.
                  other-Counted f fd empty_fd l (λ j p. ground (arith, e, n, refcount_pos f fd i l))
                    c
            ]
        refl
