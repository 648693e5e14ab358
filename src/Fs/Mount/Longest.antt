-- ===== src/Fs/Mount/Longest.antt =====
-- Which mount a path belongs to.
use unix_os.Fs.Mount.{best_mount, resolve_mount, Mount, Str, mount_prefix_len, is_absolute}
use unix_os.Prelude.{
  ◌∷◌, List, Option, ℕ, ◌≤◌, get_or, ◌≡◌, arith, none, ◌⊎◌, ok, suc, some, ◌+◌, ◌<◌, ltb, inl, drop,
  if◌then◌else◌, inr, ◌∙◌, [], ap, true, ltb→lt, Bool-cases, zero, refl, has, false, length, err,
  enoent,
}
use mathlib.Core.Option.{some-injective}
use unix_os.Fs.Mount.Under.{IsUnder, IsUnder-length, mount_prefix_len-IsUnder}

module _ {S : Type 0} where
  best_mount_grows :
      (ms : List (Option (Mount S))) (i : ℕ) (best : Option (ℕ × Mount S)) (len : ℕ) (path : Str)
      → len ≤ (best_mount ms i best len path).1
  unfolding best_mount
  best_mount_grows [] i best len path = omega arith
  best_mount_grows (none ∷ ms) i best len path = best_mount_grows ms (suc i) best len path
  best_mount_grows (some x ∷ ms) i best len path =
      let mlen = mount_prefix_len x.target path in
      let better = ltb len mlen in
      let r =
        best_mount_grows ms (suc i) (if better then some (i, x) else best)
          (if better then mlen else len) path in
      ground (arith, r)

  best_mount_longest :
      (ms : List (Option (Mount S))) (i : ℕ) (best : Option (ℕ × Mount S)) (len : ℕ) (path : Str)
      (j : ℕ) (m : Mount S)
      → get_or ms j none ≡ some m
      → mount_prefix_len m.target path ≤ (best_mount ms i best len path).1
  unfolding best_mount
  best_mount_longest [] i best len path j m h = ground (arith, h)
  best_mount_longest (none ∷ ms) i best len path zero m h = ground (arith, h)
  best_mount_longest (none ∷ ms) i best len path (suc j) m h =
      best_mount_longest ms (suc i) best len path j m h
  best_mount_longest (some x ∷ ms) i best len path zero m h =
      let mlen = mount_prefix_len x.target path in
      let better = ltb len mlen in
      let r =
        best_mount_grows ms (suc i) (if better then some (i, x) else best)
          (if better then mlen else len) path in
      let e : x ≡ m = some-injective x m h in
      ground (arith, r, ap (λ y. mount_prefix_len y.target path) e)
  best_mount_longest (some x ∷ ms) i best len path (suc j) m h =
      let mlen = mount_prefix_len x.target path in
      let better = ltb len mlen in
      best_mount_longest ms (suc i) (if better then some (i, x) else best)
        (if better then mlen else len) path j m h

  best_mount_whose :
      (ms : List (Option (Mount S))) (i : ℕ) (best : Option (ℕ × Mount S)) (len : ℕ) (path : Str)
      → let (b, l) = best_mount ms i best len path in
        ((b ≡ best) × (l ≡ len))
        ⊎ ((j : ℕ) × (m : Mount S) × (get_or ms j none ≡ some m)
            × (b ≡ some (i + j, m))
            × (l ≡ mount_prefix_len m.target path)
            × (len < l))
  unfolding best_mount
  best_mount_whose [] i best len path = inl (refl, refl)
  best_mount_whose (none ∷ ms) i best len path = elim (best_mount_whose ms (suc i) best len path) [
    | inl p ↦ inl p
    | inr (j, m, a, b, c, d) ↦ inr (suc j, m, a, b ∙ ap (λ k. some (k, m)) (suc_add i j), c, d)
  ]
    where
      suc_add : (i j : ℕ) → suc i + j ≡ i + suc j
      suc_add i j = omega arith
  best_mount_whose (some x ∷ ms) i best len path =
      let mlen = mount_prefix_len x.target path in
      elim (Bool-cases (ltb len mlen)) [
        | inl e ↦
            rw
              (ap
                (λ t.
                  best_mount ms (suc i) (if t then some (i, x) else best) (if t then mlen else len)
                    path)
                e)
              (elim (best_mount_whose ms (suc i) (some (i, x)) mlen path) [
                | inl (p, q) ↦
                    inr
                      (0, x, refl, p ∙ ap (λ k. some (k, x)) (add_zero i), q, below len mlen _ e q)
                | inr (j, m, a, b, c, d) ↦
                    inr (
                      suc j,
                      m,
                      a,
                      b ∙ ap (λ k. some (k, m)) (suc_add i j),
                      c,
                      beyond len mlen _ e d,
                    )
              ])
        | inr e ↦
            rw
              (ap
                (λ t.
                  best_mount ms (suc i) (if t then some (i, x) else best) (if t then mlen else len)
                    path)
                e)
              (elim (best_mount_whose ms (suc i) best len path) [
                | inl p ↦ inl p
                | inr (j, m, a, b, c, d) ↦
                    inr (suc j, m, a, b ∙ ap (λ k. some (k, m)) (suc_add i j), c, d)
              ])
      ]
    where
      suc_add : (i j : ℕ) → suc i + j ≡ i + suc j
      suc_add i j = omega arith

      add_zero : (i : ℕ) → i ≡ i + 0
      add_zero i = omega arith

      below : (a b l : ℕ) → ltb a b ≡ true → l ≡ b → a < l
      below a b l e q = let p = ltb→lt a b e in omega arith

      beyond : (a b l : ℕ) → ltb a b ≡ true → b < l → a < l
      beyond a b l e q = let p = ltb→lt a b e in omega arith

  -- vfs_resolve_mount of an absolute path without a NUL gives a mount in use whose target the path is under,
  -- that no mount in use whose target the path is under has a longer target than, and what follows the target
  -- in the path. Or it is ENOENT, and the path is under no target of a mount in use but perhaps an empty one.
  pub resolve_mount_longest :
      (mounts : List (Option (Mount S))) (path : Str)
      → is_absolute path ≡ true
      → has path 0 ≡ false
      → ((i : ℕ) × (m : Mount S) × (rel : Str) × (resolve_mount mounts path ≡ ok (i, m, rel))
          × (get_or mounts i none ≡ some m)
          × IsUnder m.target path
          × (rel ≡ drop (length m.target) path)
          × ((j : ℕ) (m' : Mount S)
              → get_or mounts j none ≡ some m'
              → IsUnder m'.target path
              → length m'.target ≤ length m.target))
        ⊎ ((resolve_mount mounts path ≡ err enoent)
            × ((j : ℕ) (m' : Mount S)
                → get_or mounts j none ≡ some m'
                → IsUnder m'.target path
                → length m'.target ≡ 0))
  unfolding resolve_mount
  resolve_mount_longest mounts path ab nn = elim (best_mount_whose mounts 0 none 0 path) [
    | inl (p, q) ↦ inr (
      ground (arith, ab, p),
      λ k m' g u. omega (
        arith,
        best_mount_longest mounts 0 none 0 path k m' g,
        q,
        IsUnder-length m'.target path u,
      ),
    )
    | inr (j, x, a, b, c, d) ↦
        let (under, n) = mount_prefix_len-IsUnder x.target path ab nn (omega (arith, c, d)) in
        inl (
          j,
          x,
          drop (best_mount mounts 0 none 0 path).1 path,
          ground (arith, ab, b),
          a,
          under,
          ap (λ k. drop k path) (c ∙ n),
          λ k m' g u. omega (
            arith,
            best_mount_longest mounts 0 none 0 path k m' g,
            c,
            n,
            IsUnder-length m'.target path u,
          ),
        )
  ]
