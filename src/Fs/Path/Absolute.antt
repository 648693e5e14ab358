-- ===== src/Fs/Path/Absolute.antt =====
-- What make_abs_path computes, said without its buffer.
use unix_os.Fs.Mount.{Str, is_absolute, is_empty, slash, ends_with_slash}
use unix_os.Prelude.{
  ℕ, if◌then◌else◌, ◌≡◌, length, leb, ◌≤◌, some, ◌+◌, ◌∷◌, none, ltb, ok, suc, ◌++◌, arith, err, [],
  enametoolong, zero, Bool-cases, inl, ◌-◌, inr, length-append,
}
use unix_os.Fs.Path.{make_abs_path, copied, under_cwd}

-- The absolute path that a path stands for in the working directory cwd.
pub absolute : Str → Str → Str
absolute cwd path =
    if is_absolute path
    then path
    else (if is_empty cwd
        then slash ∷ path
        else (if ends_with_slash cwd then cwd ++ path else (cwd ++ slash ∷ []) ++ path))

copied_fits : (n : ℕ) (s : Str) → copied n s ≡ (if leb (length s) n then some s else none)
copied_fits zero [] = ground arith
copied_fits (suc n) [] = ground arith
copied_fits zero (c ∷ s) = ground arith
copied_fits (suc n) (c ∷ s) = ground (arith, copied_fits n s)

-- With a buffer of n + 3 bytes and a working directory that leaves room for a slash, make_abs_path
-- returns the absolute path, or ENAMETOOLONG exactly when it does not fit the buffer with its NUL.
pub make_abs_path_fits :
    (cwd path : Str) (n : ℕ)
    → length cwd ≤ n
    → make_abs_path cwd path (n + 3) ≡ (
        if ltb (length (absolute cwd path)) (n + 3)
        then ok (absolute cwd path)
        else err enametoolong)
unfolding make_abs_path under_cwd absolute
make_abs_path_fits cwd path n h = elim (Bool-cases (is_absolute path)) [
  | inl a ↦ ground (arith, a, copied_fits (n + 3 - 1) path)
  | inr r ↦ elim (Bool-cases (is_empty cwd)) [
    | inl e ↦ ground (arith, r, e, copied_fits (n + 3 - 2) path)
    | inr e ↦ elim (Bool-cases (ends_with_slash cwd)) [
      | inl l ↦ ground (
        arith,
        h,
        r,
        e,
        l,
        copied_fits (n + 3 - 2) cwd,
        copied_fits (n + 3 - 1 - length cwd) path,
        length-append cwd path,
      )
      | inr l ↦
          let base : Str = cwd ++ slash ∷ [] in
          ground (
            arith,
            h,
            r,
            e,
            l,
            copied_fits (n + 3 - 2) cwd,
            copied_fits (n + 3 - 1 - length base) path,
            length-append cwd (slash ∷ []),
            length-append base path,
          )
    ]
  ]
]
