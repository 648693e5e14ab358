-- ===== src/Fs/Mount/Walk.antt =====
-- What a walk over a path resolves, said without the buffer of walk_components.
use unix_os.Fs.Mount.{Str, walk_components, is_empty, resolve_one, slash}
use unix_os.Prelude.{
  ℕ, List, take, [], if◌then◌else◌, ◌∷◌, ◌++◌, suc, ◌≡◌, ◌==◌, ltb, map, refl, length, arith,
  Bool-cases, zero, inr, inl,
}

-- The components of a path, `comp` being the start of the first: what stands between slashes and is
-- not empty.
pub components : Str → Str → List Str
components comp [] = if is_empty comp then [] else comp ∷ []
components comp (c ∷ rest) =
    let here = components [] rest in
    let longer = components (comp ++ c ∷ []) rest in
    if c == slash then (if is_empty comp then here else comp ∷ here) else longer

-- One name after another is resolved, until one is not found.
pub resolve_all : (ℕ → Str → ℕ) → ℕ → List Str → ℕ
resolve_all resolve cur [] = cur
resolve_all resolve cur (name ∷ names) =
    let next = resolve_one resolve cur name in
    let last = resolve_all resolve next names in if next == 0 then 0 else last

take-snoc :
    (n : ℕ) (comp : Str) (c : ℕ)
    → take n (comp ++ c ∷ [])
      ≡ (if ltb (length (take n comp)) n then take n comp ++ c ∷ [] else take n comp)
take-snoc zero [] c = refl
take-snoc zero (x ∷ comp) c = refl
take-snoc (suc n) [] c = ground (arith, nil n)
  where
    nil : (n : ℕ) → take {A = ℕ} n [] ≡ []
    nil zero = refl
    nil (suc n) = refl
take-snoc (suc n) (x ∷ comp) c = ground (arith, take-snoc n comp c)

take-empty : (n : ℕ) (comp : Str) → is_empty (take (suc n) comp) ≡ is_empty comp
take-empty n [] = refl
take-empty n (x ∷ comp) = refl

walk_components-from :
    (resolve : ℕ → Str → ℕ) (cur : ℕ) (comp rest : Str)
    → walk_components resolve cur (take 63 comp) rest
      ≡ resolve_all resolve cur (map (take 63) (components comp rest))
unfolding walk_components components resolve_all
walk_components-from resolve cur comp [] = ground (arith, take-empty 62 comp)
walk_components-from resolve cur comp (c ∷ rest) =
    let name : Str = take 63 comp in
    let next = resolve_one resolve cur name in
    elim (Bool-cases (c == slash)) [
      | inr n ↦
          ground
            (arith, n, take-snoc 63 comp c, walk_components-from resolve cur (comp ++ c ∷ []) rest)
      | inl y ↦ elim (Bool-cases (is_empty comp)) [
        | inl e ↦ ground (arith, y, e, take-empty 62 comp, walk_components-from resolve cur [] rest)
        | inr n ↦
            ground (arith, y, n, take-empty 62 comp, walk_components-from resolve next [] rest)
      ]
    ]

-- walk_components resolves the components of the path one after another, each cut to its first 63
-- characters, and is 0 as soon as one of them is.
pub walk_components-resolve_all :
    (resolve : ℕ → Str → ℕ) (cur : ℕ) (rel : Str)
    → walk_components resolve cur [] rel
      ≡ resolve_all resolve cur (map (take 63) (components [] rel))
walk_components-resolve_all resolve cur rel = walk_components-from resolve cur [] rel
