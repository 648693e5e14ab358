-- ===== src/Core/Sched/First.antt =====
-- find_next_process serves the queues in order.
use unix_os.Prelude.{
  ℕ, Option, ◌≤◌, ◌<◌, ◌≡◌, arith, ◌+◌, ◌⊎◌, suc, zero, Bool-cases, some, none, ◌==◌, inl, ==_iff,
  subst, inr, refl,
}
use unix_os.Core.Sched.{find_from, or_head}

-- The pick from the queues q, ..., q + n - 1 is the head of the first that is not empty; none when all are.
abbrev pub IsFirst : ℕ → ℕ → (ℕ → Option ℕ) → Option ℕ × ℕ → Type 0
IsFirst n q head (none, r) = (i : ℕ) → q ≤ i → i < q + n → head i ≡ none
IsFirst n q head (some h, r) =
    (head r ≡ some h) × (q ≤ r) × (r < q + n) × ((i : ℕ) → q ≤ i → i < r → head i ≡ none)

pub le_cases : (q i : ℕ) → q ≤ i → (q ≡ i) ⊎ (suc q ≤ i)
le_cases q i l = elim (Bool-cases (q == i)) [
  | inl e ↦ inl ((==_iff q i).0 e)
  | inr e ↦ inr (ground (arith, e, l))
]

or_head-IsFirst :
    (n q : ℕ) (head : ℕ → Option ℕ) (r : Option ℕ) (later : Option ℕ × ℕ)
    → head q ≡ r
    → IsFirst n (suc q) head later
    → IsFirst (suc n) q head (or_head r q later)
or_head-IsFirst n q head (some h) later e w =
    (e, omega arith, omega arith, λ i l m. absurd (omega (arith, l, m)))
or_head-IsFirst n q head none (none, r) e w = λ i l m. elim (le_cases q i l) [
  | inl z ↦ subst (λ x. head x ≡ none) z e
  | inr z ↦ w i z (omega (arith, m))
]
or_head-IsFirst n q head none (some h, r) e (z, l, m, f) = (
  z,
  omega (arith, l),
  omega (arith, m),
  λ i u x. elim (le_cases q i u) [ inl y ↦ subst (λ x. head x ≡ none) y e | inr y ↦ f i y x ],
)

-- The search over n queues from q on gives the head of the first queue that is not empty, and no process only
-- if all of them are empty.
pub find_from-IsFirst : (n q : ℕ) (head : ℕ → Option ℕ) → IsFirst n q head (find_from n q head)
unfolding find_from
find_from-IsFirst zero q head = λ i l m. absurd (omega (arith, l, m))
find_from-IsFirst (suc n) q head =
    or_head-IsFirst n q head (head q) (find_from n (suc q) head) refl
      (find_from-IsFirst n (suc q) head)
