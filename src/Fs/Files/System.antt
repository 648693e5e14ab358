-- ===== src/Fs/Files/System.antt =====
-- The counts of the open files under the calls of all processes.
use unix_os.Prelude.{
  List, ℕ, length, Option, ◌∷◌, ◌<◌, ◌≡◌, Result, some, set, ◌+◌, none, arith, [], suc, zero, ◌-◌,
  ◌≤◌, refl, length-set, ap, Bool, ◌∙◌, get_or-set, true, if◌then◌else◌, subst, ltb, false, ltb→lt,
}
use unix_os.Fs.Files.Calls.{
  System, call, Owner, left_of_made, owner_at, left, opens, closes, dups, dup2s, reads, lists,
  writes, seeks, truncates, preads, FileCall, seen_by, put_back, no_owner, run_calls,
}
use unix_os.Fs.Files.{Files, max_files, file_at, OpenFile}
use unix_os.Fs.Files.Close.{vfs_dup, vfs_dup2}
use unix_os.Fs.Files.Dups.{
  Made, StaysCounted, vfs_close-Counted, vfs_dup-StaysCounted, vfs_dup2-StaysCounted,
}
use unix_os.Fs.Files.Counts.{count_fds}
use unix_os.Fs.Files.Balance.{Counted, vfs_open-Counted}
use unix_os.Fs.Files.Moved.{
  stays, moves, Moved, vfs_read-Moved, vfs_readdir_fd-Moved, vfs_write-Moved, vfs_lseek-Moved,
  vfs_ftruncate-Moved, vfs_pread-Moved,
}

abbrev pub total : List Owner → ℕ → ℕ
total [] k = 0
total (w ∷ ws) k = count_fds w.fd_table k + total ws k

pub total-set :
    (ws : List Owner) (i : ℕ) (w : Owner) (k : ℕ)
    → i < length ws
    → total (set ws i w) k + count_fds (owner_at ws i).fd_table k
      ≡ total ws k + count_fds w.fd_table k
total-set [] i w k h = absurd (omega arith)
total-set (v ∷ ws) zero w k h = omega arith
total-set (v ∷ ws) (suc i) w k h = omega (arith, total-set ws i w k (omega arith))

pub count_le_total : (ws : List Owner) (k i : ℕ) → count_fds (owner_at ws k).fd_table i ≤ total ws i
count_le_total [] k i = omega arith
count_le_total (w ∷ ws) zero i = omega arith
count_le_total (w ∷ ws) (suc k) i = omega (arith, count_le_total ws k i)

module _ {S : Type 0} where
  -- All tables have 64 entries, and the count of each open file is the number of descriptors, of all
  -- processes, that stand for it.
  abbrev pub Balanced : System S → Type 0
  Balanced sys =
      (length sys.open_files ≡ max_files)
      × ((k : ℕ) → k < length sys.owners → length (owner_at sys.owners k).fd_table ≡ max_files)
      × ((i : ℕ) → i < max_files → (file_at sys.open_files i).refcount ≡ total sys.owners (suc i))

  abbrev LeftCounted : (ℕ → ℕ) → Option (Files S) → Type 0
  LeftCounted others none = Unit {0}
  LeftCounted others (some f) = Counted others f

  refcount-moved :
      (files : List (OpenFile S)) (i j p : ℕ)
      → (file_at (set files i (record (file_at files i) { pos = p })) j).refcount
        ≡ (file_at files j).refcount
  refcount-moved [] i j p = refl
  refcount-moved (o ∷ files) zero zero p = refl
  refcount-moved (o ∷ files) zero (suc j) p = refl
  refcount-moved (o ∷ files) (suc i) zero p = refl
  refcount-moved (o ∷ files) (suc i) (suc j) p = refcount-moved files i j p

  Moved-LeftCounted :
      {A : Type 0} (others : ℕ → ℕ) (f : Files S) (r : Result A × Files S)
      → Moved f r
      → Counted others f
      → LeftCounted others (left r)
  Moved-LeftCounted others f _ (stays r s) c = c
  Moved-LeftCounted others f _ (moves r s i p) (n, m, h) =
      (length-set f.open_files i _ ∙ n, m, λ j l. refcount-moved f.open_files i j p ∙ h j l)

  made-LeftCounted :
      (others : ℕ → ℕ) (m : Made S) → StaysCounted others m → LeftCounted others (left_of_made m)
  made-LeftCounted others none c = tt
  made-LeftCounted others (some (r, f)) c = c

  call-LeftCounted :
      (others : ℕ → ℕ) (f : Files S) (c : FileCall S)
      → Counted others f
      → LeftCounted others (call f c)
  unfolding call
  call-LeftCounted others f (opens mounts path flags mode) h =
      vfs_open-Counted others mounts f path flags mode h
  call-LeftCounted others f (closes fd) h = vfs_close-Counted others f fd h
  call-LeftCounted others f (dups fd) h =
      made-LeftCounted others (vfs_dup f fd) (vfs_dup-StaysCounted others f fd h)
  call-LeftCounted others f (dup2s oldfd newfd) h =
      made-LeftCounted others (vfs_dup2 f oldfd newfd)
        (vfs_dup2-StaysCounted others f oldfd newfd h)
  call-LeftCounted others f (reads fd buf count) h =
      Moved-LeftCounted others f _ (vfs_read-Moved f fd buf count) h
  call-LeftCounted others f (lists fd buf size) h =
      Moved-LeftCounted others f _ (vfs_readdir_fd-Moved f fd buf size) h
  call-LeftCounted others f (writes fd src) h =
      Moved-LeftCounted others f _ (vfs_write-Moved f fd src) h
  call-LeftCounted others f (seeks fd offset whence) h =
      Moved-LeftCounted others f _ (vfs_lseek-Moved f fd offset whence) h
  call-LeftCounted others f (truncates fd len) h =
      Moved-LeftCounted others f _ (vfs_ftruncate-Moved f fd len) h
  call-LeftCounted others f (preads fd buf count offset) h =
      Moved-LeftCounted others f _ (vfs_pread-Moved f fd buf count offset) h

  -- The other owners' descriptors, when owner k's are taken from all.
  abbrev others_of : System S → ℕ → ℕ → ℕ
  others_of sys k i = total sys.owners (suc i) - count_fds (owner_at sys.owners k).fd_table (suc i)

  seen_by-Counted :
      (sys : System S) (k : ℕ)
      → k < length sys.owners
      → Balanced sys
      → Counted (others_of sys k) (seen_by sys k)
  seen_by-Counted sys k l (n, m, h) =
      (n, m k l, λ i p. omega (arith, h i p, count_le_total sys.owners k (suc i)))

  abbrev AfterBalanced : Option (System S) → Type 0
  AfterBalanced none = Unit {0}
  AfterBalanced (some sys) = Balanced sys

  put_back-AfterBalanced :
      (sys : System S) (k : ℕ) (r : Option (Files S))
      → k < length sys.owners
      → Balanced sys
      → LeftCounted (others_of sys k) r
      → AfterBalanced (put_back sys k r)
  put_back-AfterBalanced sys k none l b c = tt
  put_back-AfterBalanced sys k (some f) l (n, m, h) (n', m', h') =
      let w : Owner = record { current = f.current; fd_table = f.fd_table } in
      (
        n',
        λ j p. ground (
          arith,
          ap (λ v. length v.fd_table) (get_or-set sys.owners k j w no_owner l),
          m j (omega (arith, p, length-set sys.owners k w)),
          m',
        ),
        λ i p. omega (
          arith,
          h' i p,
          count_le_total sys.owners k (suc i),
          total-set sys.owners k w (suc i) l,
        ),
      )

  if-AfterBalanced :
      (b : Bool) (x : Option (System S))
      → (b ≡ true → AfterBalanced x)
      → AfterBalanced (if b then x else none)
  if-AfterBalanced true x h = h refl
  if-AfterBalanced false x h = tt

  run_calls-AfterBalanced :
      (sys : System S) (cs : List (ℕ × FileCall S))
      → Balanced sys
      → AfterBalanced (run_calls sys cs)
  unfolding run_calls
  run_calls-AfterBalanced sys [] b = b
  run_calls-AfterBalanced sys ((k, c) ∷ cs) b =
      elim (if ltb k (length sys.owners) then put_back sys k (call (seen_by sys k) c) else none)
          as (λ r.
            AfterBalanced r
            → AfterBalanced (elim r as (λ _. Option (System S)) [
              | none ↦ none
              | some sys' ↦ run_calls sys' cs
            ])) [ none ↦ λ h. tt | some sys' ↦ λ h. run_calls-AfterBalanced sys' cs h ]
        (if-AfterBalanced (ltb k (length sys.owners)) (put_back sys k (call (seen_by sys k) c))
          (λ l.
            let l' : k < length sys.owners = ltb→lt _ _ l in
            put_back-AfterBalanced sys k _ l' b
              (call-LeftCounted (others_of sys k) (seen_by sys k) c (seen_by-Counted sys k l' b))))

  -- After any calls of any processes, in any order, that write nothing outside open_files, all tables
  -- still have 64 entries, and the count of each open file is still the number of descriptors, of all
  -- processes, that stand for it.
  pub run_calls-Balanced :
      (sys : System S) (cs : List (ℕ × FileCall S)) (sys' : System S)
      → run_calls sys cs ≡ some sys'
      → Balanced sys
      → Balanced sys'
  run_calls-Balanced sys cs sys' e b = subst AfterBalanced e (run_calls-AfterBalanced sys cs b)
