-- ===== src/Core/Life/Slots.antt =====
-- Which slot a new process takes.
use unix_os.Core.Fork.{first_free, free_slot}
use unix_os.Core.Process.{at_slot, find_slot, Table, put_slot, Process, find_by_pid}
use unix_os.Core.Life.{create, terminate, created}
use unix_os.Prelude.{
  ℕ, ◌≡◌, some, none, true, ◌<◌, set, length, ◌∷◌, arith, ap, Option-cases, sym, ◌⊎◌, suc, Option,
  if◌then◌else◌, [], inl, option_map, leb, inr, refl, ◌∙◌, ◌==◌, ◌&&◌, zero, false, Bool-cases,
}
use unix_os.Core.Signal.{init_signals}
use unix_os.Core.Jobs.{init_priority}
use unix_os.Core.Process.Table.{at_slot-put_slot, find_by_pid-intro}

first_free-at_slot :
    (t : Table) (i : ℕ) → first_free t ≡ some i → (at_slot t i ≡ none) × (i < length t)
unfolding first_free at_slot
first_free-at_slot [] i h = ground (arith, h)
first_free-at_slot (none ∷ t) zero h = (refl, omega arith)
first_free-at_slot (none ∷ t) (suc i) h = ground (arith, h)
first_free-at_slot (some p ∷ t) zero h = elim (Option-cases (first_free t)) [
  | inl e ↦ ground (arith, h, e)
  | inr (j, e) ↦ ground (arith, h, e)
]
first_free-at_slot (some p ∷ t) (suc i) h = elim (Option-cases (first_free t)) [
  | inl e ↦ ground (arith, h, e)
  | inr (j, e) ↦
      let ji : j ≡ i = ground (arith, h, e) in
      let (a, b) = first_free-at_slot t i (e ∙ ap some ji) in (a, omega arith)
]

free_slot-at_slot :
    (t : Table) (i : ℕ) → free_slot t ≡ some i → (at_slot t i ≡ none) × (i < length t) × (0 < i)
unfolding at_slot
free_slot-at_slot [] i h = ground (arith, h)
free_slot-at_slot (x ∷ t) zero h = elim (Option-cases (first_free t)) [
  | inl e ↦ ground (arith, h, e)
  | inr (j, e) ↦ ground (arith, h, e)
]
free_slot-at_slot (x ∷ t) (suc i) h = elim (Option-cases (first_free t)) [
  | inl e ↦ ground (arith, h, e)
  | inr (j, e) ↦
      let ji : j ≡ i = ground (arith, h, e) in
      let (a, b) = first_free-at_slot t i (e ∙ ap some ji) in (a, omega arith, omega arith)
]

find_slot-fresh :
    (t : Table) (i : ℕ) (p : Process)
    → at_slot t i ≡ none
    → i < length t
    → find_slot t p.pid ≡ none
    → find_slot (put_slot t i p) p.pid ≡ some i
unfolding find_slot at_slot put_slot
find_slot-fresh [] i p h l n = absurd (omega arith)
find_slot-fresh (none ∷ t) zero p h l n = ground arith
find_slot-fresh (some q ∷ t) zero p h l n = ground (arith, h)
find_slot-fresh (none ∷ t) (suc i) p h l n =
    let r : find_slot t p.pid ≡ none = inner (find_slot t p.pid) n in
    ap (option_map suc) (find_slot-fresh t i p h (omega arith) r)
  where
    inner : (o : Option ℕ) → option_map suc o ≡ none → o ≡ none
    inner o e = ground (arith, e)
find_slot-fresh (some q ∷ t) (suc i) p h l n = elim (Bool-cases (q.pid == p.pid)) [
  | inl y ↦ ground (arith, n, y)
  | inr y ↦
      let r : find_slot t p.pid ≡ none = inner q p t y n in
      ground (arith, y, find_slot-fresh t i p h (omega arith) r)
]
  where
    inner :
        (q p : Process) (t : Table)
        → (q.pid == p.pid) ≡ false
        → (if q.pid == p.pid then some 0 else option_map suc (find_slot t p.pid)) ≡ none
        → find_slot t p.pid ≡ none
    inner q p t y e = ground (arith, y, e)

set-back : (t : Table) (i : ℕ) (p : Process) → at_slot t i ≡ none → set (put_slot t i p) i none ≡ t
unfolding at_slot put_slot
set-back [] i p h = refl
set-back (x ∷ t) zero p h = ap (λ y. y ∷ t) (sym h)
set-back (x ∷ t) (suc i) p h = ap (λ u. x ∷ u) (set-back t i p h)

-- process_create, when it has memory and a slot other than 0 is free, enters the new process under a
-- pid that no process has, where process_find_by_pid finds it; the other slots keep what they held,
-- and process_terminate of it leaves the table as it was.
pub terminate-create :
    (t : Table) (next_pid slot : ℕ) (parent : Process)
    → (create true true t next_pid parent).0 ≡ some slot
    → find_slot t next_pid ≡ none
    → 0 < next_pid
    → let t' = (create true true t next_pid parent).1 in
      (find_by_pid t' next_pid ≡ some (slot, created parent next_pid))
      × ((j : ℕ) → (slot ≡ j) ⊎ (at_slot t' j ≡ at_slot t j))
      × (terminate t' slot ≡ t)
unfolding create terminate init_signals init_priority
terminate-create t next_pid slot parent h n p = elim (Option-cases (free_slot t)) [
  | inl e ↦ absurd (ground (arith, h, e))
  | inr (i, e) ↦
      let q = created parent next_pid in
      let is : i ≡ slot = ground (arith, h, e) in
      let e' : free_slot t ≡ some slot = e ∙ ap some is in
      let (a, l, _) = free_slot-at_slot t slot e' in
      let t' : (create true true t next_pid parent).1 ≡ put_slot t slot q = ground (arith, e') in
      let same = at_slot-put_slot t slot slot q l in
      let here : at_slot (put_slot t slot q) slot ≡ some q = ground (arith, same) in
      let found : find_by_pid (put_slot t slot q) next_pid ≡ some (slot, q) =
        find_by_pid-intro _ next_pid slot q (find_slot-fresh t slot q a l n) here refl in
      (
        ap (λ u. find_by_pid u next_pid) t' ∙ found,
        λ j. others t slot j q (at_slot-put_slot t slot j q l) t',
        ground (arith, t', here, set-back t slot q a, p),
      )
]
  where
    others :
        (t : Table) (i j : ℕ) (q : Process) {u : Table}
        → at_slot (put_slot t i q) j ≡ (if leb i j && leb j i then some q else at_slot t j)
        → u ≡ put_slot t i q
        → (i ≡ j) ⊎ (at_slot u j ≡ at_slot t j)
    others t i j q e r = elim (Bool-cases (leb i j && leb j i)) [
      | inl y ↦ inl (ground (arith, y))
      | inr y ↦ inr (ap (λ x. at_slot x j) r ∙ ground (arith, e, y))
    ]
