-- ===== src/Core/Fork/Laws.antt =====
-- What a fork gives the child, and what it does to the counts of the open files.
use unix_os.Prelude.{
  List, ℕ, ◌∷◌, get_or, Bool, ◌+◌, leb, ◌<◌, ◌&&◌, u32_mod, ◌≡◌, suc, if◌then◌else◌, ltb, true, [],
  arith, length, Bool-cases, inr, inl, ap, ltb→lt, get_or-set, add32, zero, ◌≤◌, Option-cases, none,
  false, some, err, ok, eagain, ◌⊎◌,
}
use unix_os.Core.Fork.{
  open_file_incref, fork, Fd, enter_child, is_used, of_idx_decode, Given, copy_fds, World, Task,
}
use unix_os.Core.Cred.{set_uid}

-- Whether an encoded index stands for open file i.
abbrev pub refers : ℕ → ℕ → Bool
refers o i = elim (of_idx_decode o) [ none ↦ false | some raw ↦ leb raw i && leb i raw ]

-- How many used descriptors stand for open file i.
abbrev pub count_refs : List Fd → ℕ → ℕ
count_refs [] i = 0
count_refs (fd ∷ fds) i =
    let rest = count_refs fds i in if is_used fd && refers fd.of_idx i then suc rest else rest

incref-get_or :
    (refs : List ℕ) (raw i : ℕ)
    → get_or refs i 0 + 1 < u32_mod
    → get_or (open_file_incref refs raw) i 0 ≡ (
        if leb raw i && (leb i raw && ltb 0 (get_or refs i 0))
        then get_or refs i 0 + 1
        else get_or refs i 0)
unfolding open_file_incref
incref-get_or refs raw i h = elim (Bool-cases (ltb 0 (get_or refs raw 0))) [
  | inr f ↦ elim (Bool-cases (leb raw i && leb i raw)) [
    | inl e ↦ let q = same raw i e in ground (arith, f, ap (λ k. get_or refs k 0) q, e)
    | inr e ↦ ground (arith, f, e)
  ]
  | inl t ↦
      let b = bound refs raw (ltb→lt 0 _ t) in
      let s = get_or-set refs raw i (add32 (get_or refs raw 0) 1) 0 b in
      elim (Bool-cases (leb raw i && leb i raw)) [
        | inl e ↦ let q = ap (λ k. get_or refs k 0) (same raw i e) in ground (arith, t, s, e, q)
        | inr e ↦ ground (arith, t, s, e)
      ]
]
  where
    same : (a b : ℕ) → (leb a b && leb b a) ≡ true → a ≡ b
    same a b e = ground arith

    bound : (xs : List ℕ) (j : ℕ) → 0 < get_or xs j 0 → j < length xs
    bound [] j p = absurd (omega arith)
    bound (x ∷ xs) zero p = omega arith
    bound (x ∷ xs) (suc j) p = let r : j < length xs = bound xs j p in omega arith

-- The child of any process acts as root: its effective and saved user id are 0 whatever the parent's
-- are, and setuid to any id succeeds for it.
pub fork_child_is_root :
    (g : Given) (w : World) (parent child : Task) (regs uid : ℕ)
    → (fork g w parent regs).child ≡ some child
    → (child.process.cred.euid ≡ 0)
      × (child.process.cred.suid ≡ 0)
      × (child.process.cred.uid ≡ parent.process.cred.uid)
      × ((set_uid child.process.cred uid).0 ≡ ok 0)
unfolding fork enter_child set_uid
fork_child_is_root g w parent child regs uid h = ground (arith, h)

count_refs_le : (fds : List Fd) (i : ℕ) → count_refs fds i ≤ length fds
count_refs_le [] i = omega arith
count_refs_le (fd ∷ fds) i = ground (arith, count_refs_le fds i)

pub copy_fds-refs :
    (fds : List Fd) (refs : List ℕ) (i : ℕ)
    → get_or refs i 0 + length fds < u32_mod
    → get_or (copy_fds fds refs).2 i 0
      ≡ (if ltb 0 (get_or refs i 0) then get_or refs i 0 + count_refs fds i else get_or refs i 0)
unfolding copy_fds
copy_fds-refs [] refs i h = ground arith
copy_fds-refs (fd ∷ fds) refs i h = elim (Bool-cases (is_used fd)) [
  | inr n ↦ ground (arith, n, copy_fds-refs fds refs i (omega arith))
  | inl y ↦ elim (Option-cases (of_idx_decode fd.of_idx)) [
    | inl d ↦ ground (arith, y, d, copy_fds-refs fds refs i (omega arith))
    | inr (raw, d) ↦
        let s = incref-get_or refs raw i (omega arith) in
        let b : get_or (open_file_incref refs raw) i 0 + length fds < u32_mod = ground (arith, s) in
        let r = copy_fds-refs fds (open_file_incref refs raw) i b in ground (arith, y, d, s, r)
  ]
]

-- A fork that makes a child raises the count of each open file that is in use by the number of
-- descriptors that stand for it. A fork that fails with EAGAIN, and makes none, does so too.
pub fork_counts :
    (g : Given) (w : World) (parent : Task) (regs i : ℕ)
    → get_or w.refs i 0 + length parent.fd_table < u32_mod
    → ((fork g w parent regs).ret ≡ err eagain)
      ⊎ ((c : Task) × ((fork g w parent regs).child ≡ some c))
    → get_or (fork g w parent regs).world.refs i 0 ≡ (
        if ltb 0 (get_or w.refs i 0)
        then get_or w.refs i 0 + count_refs parent.fd_table i
        else get_or w.refs i 0)
unfolding fork enter_child
fork_counts g w parent regs i h (inl e) =
    let c = copy_fds-refs parent.fd_table w.refs i h in ground (arith, e, c)
fork_counts g w parent regs i h (inr (c, e)) =
    let r = copy_fds-refs parent.fd_table w.refs i h in ground (arith, e, r)
