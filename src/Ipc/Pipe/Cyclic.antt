-- ===== src/Ipc/Pipe/Cyclic.antt =====
-- The two-part copies round the end of the data area, cell by cell.
use native.Mathlib.Nat.{mod-eq_of_lt, mod-eq-sub-mod, mod-add-mod}
use unix_os.Prelude.{
  ℕ, ◌+◌, ◌-◌, ◌%◌, ◌≤◌, ◌<◌, ◌≡◌, sym, ◌∙◌, ap, ap₂, List, ◌++◌, arith, dec_lt, ltb, leb, ◌&&◌,
  if◌then◌else◌, length, get_or, take, drop, tabulate, tabulate-ext, tabulate-append,
  take-drop-eq-tabulate, overwrite, get_or-overwrite, length-overwrite, length-take, length-drop,
  get_or-drop, get_or-take, sub32, add32,
}
use unix_os.Ipc.Pipe.{first_part, copied_out, copied_in}

-- An index less than one turn past the end is brought back by one subtraction.
pub mod_once :
    (size k : ℕ) → 0 < size → k < size + size → k % size ≡ (if ltb k size then k else k - size)
mod_once size k pos h = elim (dec_lt k size) [
  | yes p ↦ ground (arith, mod-eq_of_lt p)
  | no p ↦ ground (
    arith,
    mod-eq-sub-mod {n = k} {m = size} (omega arith),
    mod-eq_of_lt {n = k - size} {m = size} (omega arith),
  )
]

module _ (bytes : List ℕ) (size pos : ℕ) (pos_in : pos < size) where
  -- The n bytes from pos on, going round at size.
  abbrev pub cell : ℕ → ℕ
  cell i = get_or bytes ((pos + i) % size) 0

  copy_plain :
      (n : ℕ) → length bytes ≡ size → pos + n ≤ size → take n (drop pos bytes) ≡ tabulate n cell
  copy_plain n len h =
      take-drop-eq-tabulate n pos bytes 0 (omega arith)
      ∙ tabulate-ext n _ _ (λ i p.
        ap (λ k. get_or bytes k 0) (sym (mod-eq_of_lt {n = pos + i} {m = size} (omega arith))))

  copy_wrapped :
      (n : ℕ)
      → length bytes ≡ size
      → size ≤ pos + n
      → n ≤ size
      → take (size - pos) (drop pos bytes) ++ take (n - (size - pos)) bytes ≡ tabulate n cell
  copy_wrapped n len h k =
      ap₂ ◌++◌ (copy_plain (size - pos) len (omega arith)) (
        take-drop-eq-tabulate (n - (size - pos)) 0 bytes 0 (omega arith)
        ∙ tabulate-ext (n - (size - pos)) _ _ (λ i p. ap (λ j. get_or bytes j 0) (sym (turn i p))))
      ∙ tabulate-append (size - pos) (n - (size - pos)) cell
      ∙ ap (λ j. tabulate j cell) (omega arith)
    where
      turn : (i : ℕ) → i < n - (size - pos) → (pos + (size - pos + i)) % size ≡ 0 + i
      turn i p = ground (arith, mod_once size (pos + (size - pos + i)) (omega arith) (omega arith))

  pub copied_out-eq-tabulate :
      (n : ℕ)
      → size ≤ 65536
      → length bytes ≡ size
      → n ≤ size
      → copied_out bytes size pos n ≡ tabulate n cell
  unfolding copied_out
  copied_out-eq-tabulate n small len k = elim (dec_lt (size - pos) n) [
    | yes p ↦ ground (arith, copy_wrapped n len (omega arith) k, first_eq p, rest_eq p)
    | no p ↦ ground (arith, copy_plain n len (omega arith), whole_eq (omega arith))
  ]
    where
      first_eq : size - pos < n → first_part size pos n ≡ size - pos
      first_eq p = ground arith

      rest_eq : size - pos < n → sub32 n (size - pos) ≡ n - (size - pos)
      rest_eq p = omega arith

      whole_eq : n ≤ size - pos → first_part size pos n ≡ n
      whole_eq p = ground arith

-- One copy of k elements of src, from its index f on, to index pos.
copy_get :
    (bytes : List ℕ) (pos k f : ℕ) (src : List ℕ) (j : ℕ)
    → pos + k ≤ length bytes
    → f + k ≤ length src
    → get_or (overwrite bytes pos (take k (drop f src))) j 0
      ≡ (if leb pos j && ltb j (pos + k) then get_or src (f + (j - pos)) 0 else get_or bytes j 0)
copy_get bytes pos k f src j room enough = ground (
  arith,
  len,
  get_or-overwrite bytes pos (take k (drop f src)) j 0,
  get_or-take k (drop f src) (j - pos) 0,
  get_or-drop f src (j - pos) 0,
)
  where
    len : length (take k (drop f src)) ≡ k
    len = omega (arith, length-take k (drop f src), length-drop f src)

pub length-copied_in :
    (bytes : List ℕ) (size pos n : ℕ) (src : List ℕ)
    → length (copied_in bytes size pos n src) ≡ length bytes
unfolding copied_in
length-copied_in bytes size pos n src = ground (
  arith,
  length-overwrite bytes pos (take (first_part size pos n) src),
  length-overwrite (overwrite bytes pos (take (first_part size pos n) src)) 0
      (take (sub32 n (first_part size pos n)) (drop (first_part size pos n) src)),
)

module _ (bytes : List ℕ) (size pos n : ℕ) (src : List ℕ) (pos_in : pos < size)
    (small : size ≤ 65536) (len : length bytes ≡ size) (fits : n ≤ size)
    (enough : n ≤ length src) where
  -- What stands in cell j afterwards.
  pub copied_in-get_or :
      (j : ℕ)
      → j < size
      → get_or (copied_in bytes size pos n src) j 0 ≡ (
          if leb pos j && ltb j (pos + n)
          then get_or src (j - pos) 0
          else (if ltb (j + size) (pos + n)
              then get_or src (j + size - pos) 0
              else get_or bytes j 0))
  unfolding copied_in
  copied_in-get_or j h = elim (dec_lt (size - pos) n) [
    | yes p ↦ ground (
      arith,
      first_eq p,
      rest_eq p,
      copy_get bytes pos (size - pos) 0 src j (omega arith) (omega arith),
      copy_get head 0 (n - (size - pos)) (size - pos) src j (omega (arith, head_len)) (omega arith),
      ap (λ k. get_or src k 0) (wrapped p),
      ap (λ k. get_or src k 0) (plain j),
    )
    | no p ↦ ground (
      arith,
      whole_eq (omega arith),
      copy_get bytes pos n 0 src j (omega arith) (omega arith),
      ap (λ k. get_or src k 0) (plain j),
    )
  ]
    where
      head : List ℕ
      head = overwrite bytes pos (take (size - pos) src)

      head_len : length head ≡ size
      head_len = length-overwrite bytes pos (take (size - pos) src) ∙ len

      first_eq : size - pos < n → first_part size pos n ≡ size - pos
      first_eq p = ground arith

      rest_eq : size - pos < n → sub32 n (size - pos) ≡ n - (size - pos)
      rest_eq p = omega arith

      whole_eq : n ≤ size - pos → first_part size pos n ≡ n
      whole_eq p = ground arith

      plain : (j : ℕ) → 0 + (j - pos) ≡ j - pos
      plain j = omega arith

      wrapped : size - pos < n → size - pos + (j - 0) ≡ j + size - pos
      wrapped p = omega arith

-- Moving the start of the window by m moves each of its cells by m.
pub shift_start :
    (size pos m i : ℕ)
    → pos < size
    → size ≤ 65536
    → m ≤ size
    → (add32 pos m % size + i) % size ≡ (pos + (m + i)) % size
shift_start size pos m i a b c = rw mod-add-mod (ap (λ k. k % size) (omega arith))
