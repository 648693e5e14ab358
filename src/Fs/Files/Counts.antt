-- ===== src/Fs/Files/Counts.antt =====
-- How many descriptors stand for each open file, and what the loops over the two tables find.
use unix_os.Prelude.{
  List, Bool, ℕ, ◌∷◌, if◌then◌else◌, ◌<◌, Option, arith, ◌==◌, length, ◌≤◌, ◌≢◌, suc, some, set,
  option_map, ◌≡◌, ap, [], none, ◌+◌, leb, zero, true, ==_iff, ◌&&◌, refl, false, get_or-set,
}
use unix_os.Core.Fork.{Fd}
use unix_os.Fs.Files.{free_from, OpenFile, alloc_open_file, fd_at, file_at, zero_file, empty_fd}

-- How many descriptors have that of_idx.
abbrev pub count_fds : List Fd → ℕ → ℕ
count_fds [] k = 0
count_fds (d ∷ ds) k = let rest = count_fds ds k in if d.of_idx == k then suc rest else rest

abbrev pub one_if : Bool → ℕ
one_if b = if b then 1 else 0

pub count_fds-set :
    (t : List Fd) (i : ℕ) (d : Fd) (k : ℕ)
    → i < length t
    → count_fds (set t i d) k + one_if ((fd_at t i).of_idx == k)
      ≡ count_fds t k + one_if (d.of_idx == k)
count_fds-set [] i d k h = absurd (omega arith)
count_fds-set (e ∷ t) zero d k h = ground arith
count_fds-set (e ∷ t) (suc i) d k h = ground (arith, count_fds-set t i d k (omega arith))

-- A descriptor that stands for k is counted.
pub count_fds-pos :
    (t : List Fd) (i k : ℕ) → i < length t → (fd_at t i).of_idx ≡ k → 0 < count_fds t k
count_fds-pos [] i k h e = absurd (omega arith)
count_fds-pos (d ∷ t) zero k h e = ground (arith, e)
count_fds-pos (d ∷ t) (suc i) k h e = ground (arith, count_fds-pos t i k (omega arith) e)

-- No descriptor from `start` to n - 1 is free.
abbrev pub NoneFree : List Fd → ℕ → ℕ → Type 0
NoneFree t start n = (j : ℕ) → start ≤ j → j < n → (fd_at t j).of_idx ≢ 0

later-NoneFree :
    (d : Fd) (t : List Fd) (n : ℕ) → d.of_idx ≢ 0 → NoneFree t 0 n → NoneFree (d ∷ t) 0 (suc n)
later-NoneFree d t n h later zero l lt = h
later-NoneFree d t n h later (suc j) l lt = later j (omega arith) (omega arith)

next-NoneFree :
    (start : ℕ) (d : Fd) (t : List Fd) (n : ℕ)
    → NoneFree t start n
    → NoneFree (d ∷ t) (suc start) (suc n)
next-NoneFree start d t n h zero l lt = absurd (omega arith)
next-NoneFree start d t n h (suc j) l lt = h j (omega arith) (omega arith)

-- The descriptor that is found is the lowest free one from `start` on.
abbrev pub Lowest : ℕ → List Fd → Option ℕ → Type 0
Lowest start t none = NoneFree t start (length t)
Lowest start t (some fd) =
    (fd < length t) × ((fd_at t fd).of_idx ≡ 0) × (start ≤ fd) × NoneFree t start fd

later-Lowest :
    (d : Fd) (t : List Fd) (r : Option ℕ)
    → d.of_idx ≢ 0
    → Lowest 0 t r
    → Lowest 0 (d ∷ t) (option_map suc r)
later-Lowest d t none n h = later-NoneFree d t (length t) n h
later-Lowest d t (some fd) n (lt, e, l, h) =
    (omega arith, e, omega arith, later-NoneFree d t fd n h)

next-Lowest :
    (start : ℕ) (d : Fd) (t : List Fd) (r : Option ℕ)
    → Lowest start t r
    → Lowest (suc start) (d ∷ t) (option_map suc r)
next-Lowest start d t none h = next-NoneFree start d t (length t) h
next-Lowest start d t (some fd) (lt, e, l, h) =
    (omega arith, e, omega arith, next-NoneFree start d t fd h)

pub free_from-Lowest : (start : ℕ) (t : List Fd) → Lowest start t (free_from start t)
unfolding free_from
free_from-Lowest start [] = λ j l lt. absurd (omega arith)
free_from-Lowest zero (d ∷ t) =
    elim (d.of_idx == 0)
        as (λ b.
          (d.of_idx == 0) ≡ b
          → Lowest 0 (d ∷ t) (if b then some 0 else option_map suc (free_from 0 t))) [
            | true ↦
                λ e. (omega arith, (==_iff _ _).0 e, omega arith, λ j p q. absurd (omega arith))
            | false ↦
                λ e. later-Lowest d t (free_from 0 t) (ground (arith, e)) (free_from-Lowest zero t)
          ]
      refl
free_from-Lowest (suc start) (d ∷ t) =
    next-Lowest start d t (free_from start t) (free_from-Lowest start t)

pub of_idx-set :
    (t : List Fd) (i j : ℕ) (d : Fd)
    → i < length t
    → (fd_at (set t i d) j).of_idx ≡ (if leb i j && leb j i then d.of_idx else (fd_at t j).of_idx)
of_idx-set t i j d l = ground (arith, ap (λ e. e.of_idx) (get_or-set t i j d empty_fd l))

module _ {S : Type 0} where
  pub refcount-set :
      (files : List (OpenFile S)) (i j : ℕ) (o : OpenFile S)
      → i < length files
      → (file_at (set files i o) j).refcount
        ≡ (if leb i j && leb j i then o.refcount else (file_at files j).refcount)
  refcount-set [] i j o h = absurd (omega arith)
  refcount-set (p ∷ files) zero zero o h = ground arith
  refcount-set (p ∷ files) zero (suc j) o h = ground arith
  refcount-set (p ∷ files) (suc i) zero o h = ground arith
  refcount-set (p ∷ files) (suc i) (suc j) o h =
      ground (arith, refcount-set files i j o (omega arith))

  -- The slot that is found is free, and only it changes.
  abbrev pub Allocated : List (OpenFile S) → Option (ℕ × List (OpenFile S)) → Type 0
  Allocated files none = (j : ℕ) → j < length files → (file_at files j).refcount ≢ 0
  Allocated files (some (i, files')) =
      (i < length files)
      × ((file_at files i).refcount ≡ 0)
      × ((o : OpenFile S) → set files' i o ≡ set files i o)

  abbrev later_found : OpenFile S → Option (ℕ × List (OpenFile S)) → Option (ℕ × List (OpenFile S))
  later_found p none = none
  later_found p (some (i, os)) = some (suc i, p ∷ os)

  none_free-cons :
      (p : OpenFile S) (files : List (OpenFile S))
      → p.refcount ≢ 0
      → Allocated files none
      → Allocated (p ∷ files) none
  none_free-cons p files n h zero lt = n
  none_free-cons p files n h (suc j) lt = h j (omega arith)

  later-Allocated :
      (p : OpenFile S) (files : List (OpenFile S)) (r : Option (ℕ × List (OpenFile S)))
      → p.refcount ≢ 0
      → Allocated files r
      → Allocated (p ∷ files) (later_found p r)
  later-Allocated p files none n h = none_free-cons p files n h
  later-Allocated p files (some (i, os)) n (lt, e, h) = (omega arith, e, λ o. ap (λ l. p ∷ l) (h o))

  pub alloc_open_file-Allocated :
      (files : List (OpenFile S)) → Allocated files (alloc_open_file files)
  unfolding alloc_open_file
  alloc_open_file-Allocated [] = λ j lt. absurd (omega arith)
  alloc_open_file-Allocated (p ∷ files) =
      elim (p.refcount == 0)
          as (λ b.
            (p.refcount == 0) ≡ b
            → Allocated (p ∷ files) (
                if b
                then some (0, record zero_file { refcount = 1 } ∷ files)
                else later_found p (alloc_open_file files))) [
                  | true ↦ λ e. (omega arith, (==_iff _ _).0 e, λ o. refl)
                  | false ↦ λ e.
                      later-Allocated p files (alloc_open_file files) (ground (arith, e))
                        (alloc_open_file-Allocated files)
                ]
        refl
