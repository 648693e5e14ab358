-- ===== src/Fs/Mount/Under.antt =====
-- mount_prefix_len against what it means that a path is under a mount's target.
use unix_os.Fs.Mount.{Str, mount_prefix_len, starts_with, is_absolute, slash}
use unix_os.Prelude.{
  ◌≡◌, get_or, has, length, ◌++◌, true, ◌==◌, false, inl, ◌∷◌, ◌&&◌, not, ◌<◌, ap, [], arith, ◌∙◌,
  ◌⊎◌, ap₂, sym, refl, inr, Bool-cases,
}

-- The path is the target and a rest: the target is the root, or the rest is empty or begins with a slash.
pub record IsUnder (target path : Str) : Type 0 where
  pub rest : Str
  pub whole : path ≡ target ++ rest
  pub boundary : (target ≡ slash ∷ []) ⊎ ((rest ≡ []) ⊎ ((s : Str) × (rest ≡ slash ∷ s)))

starts_with-split :
    (target path : Str) → starts_with target path ≡ true → (rest : Str) × (path ≡ target ++ rest)
starts_with-split [] path e = (path, refl)
starts_with-split (c ∷ s) [] e = absurd (ground (arith, e))
starts_with-split (c ∷ s) (d ∷ t) e =
    let (rest, z) = starts_with-split s t (ground (arith, e)) in
    (rest, ap₂ (λ x xs. x ∷ xs) (ground (arith, e)) z)

starts_with-append : (target rest : Str) → starts_with target (target ++ rest) ≡ true
starts_with-append [] rest = refl
starts_with-append (c ∷ s) rest = ground (arith, starts_with-append s rest)

get_or-append : (target rest : Str) → get_or (target ++ rest) (length target) 0 ≡ get_or rest 0 0
get_or-append [] rest = refl
get_or-append (c ∷ s) rest = get_or-append s rest

has-rest : (target rest : Str) → has (target ++ rest) 0 ≡ false → has rest 0 ≡ false
has-rest [] rest n = n
has-rest (c ∷ s) rest n = has-rest s rest (ground (arith, n))

root_of : (target : Str) → (length target == 1 && is_absolute target) ≡ true → target ≡ slash ∷ []
root_of [] e = absurd (ground (arith, e))
root_of (c ∷ []) e = ap (λ x. x ∷ []) (ground (arith, e))
root_of (c ∷ d ∷ s) e = absurd (ground (arith, e))

-- The first character of what follows the target.
boundary_of :
    (rest : Str)
    → has rest 0 ≡ false
    → (not (get_or rest 0 0 == 0) && not (get_or rest 0 0 == slash)) ≡ false
    → (rest ≡ []) ⊎ ((s : Str) × (rest ≡ slash ∷ s))
boundary_of [] n e = inl refl
boundary_of (c ∷ s) n e = inr (s, ap (λ x. x ∷ s) (ground (arith, n, e)))

-- A path without a NUL has a prefix length only if it is under the target, and it is the target's.
pub mount_prefix_len-IsUnder :
    (target path : Str)
    → is_absolute path ≡ true
    → has path 0 ≡ false
    → 0 < mount_prefix_len target path
    → IsUnder target path × (mount_prefix_len target path ≡ length target)
unfolding mount_prefix_len
mount_prefix_len-IsUnder target path ab nn pos =
    elim (Bool-cases (length target == 1 && is_absolute target)) [
      | inl r ↦ (from_root target path (root_of target r) ab, ground (arith, r))
      | inr r ↦ elim (Bool-cases (starts_with target path)) [
        | inr n ↦ absurd (ground (arith, pos, r, n))
        | inl y ↦
            let (rest, z) = starts_with-split target path y in
            let after : get_or path (length target) 0 ≡ get_or rest 0 0 =
              ap (λ p. get_or p (length target) 0) z ∙ get_or-append target rest in
            let b : (not (get_or rest 0 0 == 0) && not (get_or rest 0 0 == slash)) ≡ false =
              ground (arith, pos, r, y, after) in
            (
              record {
                rest = rest;
                whole = z;
                boundary =
                    inr
                      (boundary_of rest (has-rest target rest (ap (λ p. has p 0) (sym z) ∙ nn)) b);
              },
              ground (arith, r, y, after, b),
            )
      ]
    ]
  where
    from_root :
        (target path : Str) → target ≡ slash ∷ [] → is_absolute path ≡ true → IsUnder target path
    from_root target [] e ab = absurd (ground (arith, ab))
    from_root target (c ∷ s) e ab = record {
      rest = s;
      whole = ap (λ x. x ∷ s) (ground (arith, ab)) ∙ ap (λ t. t ++ s) (sym e);
      boundary = inl e;
    }

-- A path under a target has the target's length as its prefix length.
pub IsUnder-length :
    (target path : Str) → IsUnder target path → mount_prefix_len target path ≡ length target
unfolding mount_prefix_len
IsUnder-length target path u = elim u.boundary [
  | inl r ↦ ap (λ t. mount_prefix_len t path) r ∙ sym (ap length r)
  | inr b ↦
      let y : starts_with target path ≡ true =
        ap (starts_with target) u.whole ∙ starts_with-append target u.rest in
      let after : get_or path (length target) 0 ≡ get_or u.rest 0 0 =
        ap (λ p. get_or p (length target) 0) u.whole ∙ get_or-append target u.rest in
      let edge : (not (get_or u.rest 0 0 == 0) && not (get_or u.rest 0 0 == slash)) ≡ false =
        elim b [
          | inl e ↦ ap (λ r. not (get_or r 0 0 == 0) && not (get_or r 0 0 == slash)) e
          | inr (s, e) ↦ ap (λ r. not (get_or r 0 0 == 0) && not (get_or r 0 0 == slash)) e
        ] in
      ground (arith, y, after, edge)
]
