-- ===== src/Core/Process/Table.antt =====
-- Lemmas on the slots of the process table.
use unix_os.Core.Process.{
  at_slot, find_slot, put_slot, Table, Process, find_by_pid, is_state, terminated,
}
use mathlib.Core.Option.{some-injective}
use unix_os.Prelude.{
  ℕ, ◌<◌, ◌≡◌, length, some, if◌then◌else◌, none, ◌∷◌, leb, arith, ◌&&◌, suc, get_or-set, ap, [],
  zero, option_map, ◌==◌, refl, false, Option-cases, ◌∙◌, inl, inr, true, ◌⊎◌, subst, get_or,
  Bool-cases, sym, ==_iff,
}

pub at_slot-put_slot :
    (t : Table) (i j : ℕ) (p : Process)
    → i < length t
    → at_slot (put_slot t i p) j ≡ (if leb i j && leb j i then some p else at_slot t j)
unfolding at_slot put_slot
at_slot-put_slot t i j p h = get_or-set t i j (some p) none h

pub at_slot-bound : (t : Table) (i : ℕ) (p : Process) → at_slot t i ≡ some p → i < length t
unfolding at_slot
at_slot-bound [] i p h = absurd (none_ne h)
  where
    none_ne : {A : Type 0} {a : A} → none ≡ some a → ⊥
    none_ne e = ground (arith, e)
at_slot-bound (x ∷ t) zero p h = omega arith
at_slot-bound (x ∷ t) (suc i) p h = let b : i < length t = at_slot-bound t i p h in omega arith

-- Changing a process without changing its pid changes no search.
pub find_slot-put_slot :
    (t : Table) (i : ℕ) (p q : Process) (pid : ℕ)
    → at_slot t i ≡ some p
    → q.pid ≡ p.pid
    → find_slot (put_slot t i q) pid ≡ find_slot t pid
unfolding find_slot at_slot put_slot
find_slot-put_slot [] i p q pid h e = refl
find_slot-put_slot (none ∷ t) zero p q pid h e = ground (arith, h)
find_slot-put_slot (some x ∷ t) zero p q pid h e = ground (arith, h, e)
find_slot-put_slot (none ∷ t) (suc i) p q pid h e =
    ap (option_map suc) (find_slot-put_slot t i p q pid h e)
find_slot-put_slot (some x ∷ t) (suc i) p q pid h e =
    ap (λ r. if x.pid == pid then some 0 else option_map suc r) (find_slot-put_slot t i p q pid h e)

pub find_slot-pid :
    (t : Table) (pid i : ℕ) (p : Process)
    → find_slot t pid ≡ some i
    → at_slot t i ≡ some p
    → p.pid ≡ pid
unfolding find_slot at_slot
find_slot-pid [] pid i p e s = ground (arith, e)
find_slot-pid (none ∷ t) pid i p e s = elim (Option-cases (find_slot t pid)) [
  | inl f ↦ absurd (ground (arith, e, f))
  | inr (j, f) ↦
      let at : i ≡ suc j = ground (arith, e, f) in
      find_slot-pid t pid j p f (subst (λ i. get_or (none ∷ t) i none ≡ some p) at s)
]
find_slot-pid (some q ∷ t) pid i p e s = elim (Bool-cases (q.pid == pid)) [
  | inl y ↦
      let at : i ≡ 0 = ground (arith, e, y) in
      let same : q ≡ p =
        some-injective q p (subst (λ i. get_or (some q ∷ t) i none ≡ some p) at s) in
      ap (λ x. x.pid) (sym same) ∙ (==_iff q.pid pid).0 y
  | inr n ↦ elim (Option-cases (find_slot t pid)) [
    | inl f ↦ absurd (ground (arith, e, f, n))
    | inr (j, f) ↦
        let at : i ≡ suc j = ground (arith, e, f, n) in
        find_slot-pid t pid j p f (subst (λ i. get_or (some q ∷ t) i none ≡ some p) at s)
  ]
]

pub find_by_pid-slot :
    (t : Table) (pid i : ℕ) (p : Process)
    → find_by_pid t pid ≡ some (i, p)
    → (find_slot t pid ≡ some i) × (at_slot t i ≡ some p) × (is_state p.state terminated ≡ false)
unfolding find_by_pid
find_by_pid-slot t pid i p h = elim (Option-cases (find_slot t pid)) [
  | inl e ↦ ground (arith, h, e)
  | inr (j, e) ↦ elim (Option-cases (at_slot t j)) [
    | inl f ↦ ground (arith, h, e, f)
    | inr (q, f) ↦ ground (arith, h, e, f)
  ]
]

pub find_by_pid-intro :
    (t : Table) (pid i : ℕ) (p : Process)
    → find_slot t pid ≡ some i
    → at_slot t i ≡ some p
    → is_state p.state terminated ≡ false
    → find_by_pid t pid ≡ some (i, p)
unfolding find_by_pid
find_by_pid-intro t pid i p e f s = ground (arith, e, f, s)

-- After a process that is found is replaced by one with its pid that has not terminated, the search
-- finds the new one.
pub find_by_pid-put_slot :
    (t : Table) (pid i : ℕ) (p q : Process)
    → find_by_pid t pid ≡ some (i, p)
    → q.pid ≡ p.pid
    → is_state q.state terminated ≡ false
    → find_by_pid (put_slot t i q) pid ≡ some (i, q)
find_by_pid-put_slot t pid i p q h e s =
    let (e1, e2, _) = find_by_pid-slot t pid i p h in
    find_by_pid-intro (put_slot t i q) pid i q (find_slot-put_slot t i p q pid e2 e ∙ e1)
      (at_slot-put_slot t i i q (at_slot-bound t i p e2) ∙ same i q t) s
  where
    same :
        (i : ℕ) (q : Process) (t : Table)
        → (if leb i i && leb i i then some q else at_slot t i) ≡ some q
    same i q t = ground arith

pub find_by_pid-dead :
    (t : Table) (pid i : ℕ) (p : Process)
    → find_slot t pid ≡ some i
    → at_slot t i ≡ some p
    → is_state p.state terminated ≡ true
    → find_by_pid t pid ≡ none
unfolding find_by_pid
find_by_pid-dead t pid i p e f s = ground (arith, e, f, s)

pub put_slot-same :
    (t : Table) (i : ℕ) (p q : Process) → at_slot t i ≡ some p → at_slot (put_slot t i q) i ≡ some q
put_slot-same t i p q h = at_slot-put_slot t i i q (at_slot-bound t i p h) ∙ same i q t
  where
    same :
        (i : ℕ) (q : Process) (t : Table)
        → (if leb i i && leb i i then some q else at_slot t i) ≡ some q
    same i q t = ground arith

pub put_slot-other :
    (t : Table) (i j : ℕ) (p q : Process)
    → at_slot t i ≡ some p
    → (i ≡ j) ⊎ (at_slot (put_slot t i q) j ≡ at_slot t j)
put_slot-other t i j p q h =
    let e = at_slot-put_slot t i j q (at_slot-bound t i p h) in ground (arith, e)
