-- ===== src/Core/Sched/Lead.antt =====
-- The process that is first in the queues of a processor.
use unix_os.Core.Sched.Shape.{Lists, Shape, put_list}
use unix_os.Prelude.{
  ℕ, List, Option, has, ◌==◌, ◌≤◌, ◌≡◌, ◌<◌, ◌∷◌, [], some, ◌+◌, arith, false, true, none, subst,
  Bool-cases, ap, leb, ◌∙◌, suc, inl, refl, ==_iff, leb→le, sym, inr, zero,
}
use unix_os.Core.Sched.{find_from, Sched, find_next_process, head_of, or_head}
use unix_os.Core.Sched.Rings.{Ring, added, ring, empty}
use unix_os.Core.Sched.Unlink.{erase, erase-miss}
use unix_os.Core.Sched.First.{IsFirst, le_cases, find_from-IsFirst}
use unix_os.Core.Sched.Adding.{Ring-none}

-- h is the first of the first queue of c that is not empty.
pub record Leads (ls : Lists) (c q h : ℕ) : Type 0 where
  pub rest : List ℕ
  pub whole : ls c q ≡ h ∷ rest
  pub before : (i : ℕ) → i < q → ls c i ≡ []

Ring-nil : {n : ℕ → Option ℕ} {r : Option ℕ} → Ring n r [] → r ≡ none
Ring-nil empty = refl

pub Ring-cons :
    {n : ℕ → Option ℕ} {r : Option ℕ} {h : ℕ} {xs : List ℕ} → Ring n r (h ∷ xs) → r ≡ some h
Ring-cons (ring e o s) = refl

Ring-some_list :
    {n : ℕ → Option ℕ} {h : ℕ} {xs : List ℕ} → Ring n (some h) xs → (t : List ℕ) × (xs ≡ h ∷ t)
Ring-some_list (ring {xs = t} e o s) = (t, refl)

find_from-first :
    (n from q h : ℕ) (head : ℕ → Option ℕ)
    → from ≤ q
    → q < from + n
    → head q ≡ some h
    → ((i : ℕ) → i < q → head i ≡ none)
    → find_from n from head ≡ (some h, q)
unfolding find_from
find_from-first zero from q h head l m e b = absurd (omega (arith, l, m))
find_from-first (suc n) from q h head l m e b = elim (le_cases from q l) [
  | inl z ↦
      ap (λ r. or_head r from (find_from n (suc from) head)) (ap head z ∙ e)
      ∙ ap (λ q. (some h, q)) z
  | inr z ↦
      ap (λ r. or_head r from (find_from n (suc from) head)) (b from z)
      ∙ find_from-first n (suc from) q h head z (omega (arith, m)) e b
]

module _ (slots : ℕ) (s : Sched) (ls : Lists) (v : Shape slots s ls) (c q h : ℕ) where
  pub Leads-find : Leads ls c q h → q < 4 → find_next_process s c ≡ (some h, q)
  Leads-find w l =
      find_from-first 4 0 q h (s.cpus c).head (omega arith) (omega (arith, l))
        (Ring-cons (subst (Ring s.next (head_of s c q)) w.whole (v.circle c q)))
        (λ i m. Ring-nil (subst (Ring s.next (head_of s c i)) (w.before i m) (v.circle c i)))

  pub find-Leads : find_next_process s c ≡ (some h, q) → Leads ls c q h × (q < 4)
  find-Leads e =
      let (at, lo, hi, b) =
        subst (IsFirst 4 0 (s.cpus c).head) e (find_from-IsFirst 4 0 (s.cpus c).head) in
      let (t, z) = Ring-some_list (subst (λ r. Ring s.next r (ls c q)) at (v.circle c q)) in
      (
        record {
          rest = t;
          whole = z;
          before = λ i m.
              Ring-none (subst (λ r. Ring s.next r (ls c i)) (b i (omega arith) m) (v.circle c i));
        },
        omega (arith, hi),
      )

put_list-at : (ls : Lists) (c q : ℕ) (xs : List ℕ) → put_list ls c q xs c q ≡ xs
put_list-at ls c q xs = ground arith

put_list-other :
    (ls : Lists) (c q r : ℕ) (xs : List ℕ) → (r == q) ≡ false → put_list ls c q xs c r ≡ ls c r
put_list-other ls c q r xs e = ground (arith, e)

module _ (ls : Lists) (c q h : ℕ) (w : Leads ls c q h) where
  -- A list that keeps its first process takes the place of another, not before q.
  Leads-put :
      (r : ℕ) (xs : List ℕ)
      → q ≤ r
      → ((t : List ℕ) → ls c r ≡ h ∷ t → (t' : List ℕ) × (xs ≡ h ∷ t'))
      → Leads (put_list ls c r xs) c q h
  Leads-put r xs l f = elim (Bool-cases (q == r)) [
    | inl y ↦
        let same = (==_iff q r).0 y in
        let (t', z) = f w.rest (ap (ls c) (sym same) ∙ w.whole) in
        record {
          rest = t';
          whole = ap (put_list ls c r xs c) same ∙ put_list-at ls c r xs ∙ z;
          before = λ i m. put_list-other ls c r i xs (ground (arith, m, l)) ∙ w.before i m;
        }
    | inr n ↦ record {
      rest = w.rest;
      whole = put_list-other ls c r q xs n ∙ w.whole;
      before = λ i m. put_list-other ls c r i xs (ground (arith, m, l)) ∙ w.before i m;
    }
  ]

  -- A queued process is in no queue before the first.
  pub Leads-le : (r p : ℕ) → has (ls c r) p ≡ true → q ≤ r
  Leads-le r p i = elim (Bool-cases (leb q r)) [
    | inl y ↦ leb→le q r y
    | inr n ↦ absurd (ground (arith, i, ap (λ l. has l p) (w.before r (ground (arith, n)))))
  ]

  pub Leads-erase :
      (r p : ℕ)
      → (h == p) ≡ false
      → has (ls c r) p ≡ true
      → Leads (put_list ls c r (erase p (ls c r))) c q h
  Leads-erase r p n i =
      Leads-put r (erase p (ls c r)) (Leads-le r p i)
        (λ t z. (erase p t, ap (erase p) z ∙ erase-miss p h t n))

  pub Leads-added : (r p : ℕ) → q ≤ r → Leads (put_list ls c r (added p (ls c r))) c q h
  Leads-added r p l = Leads-put r (added p (ls c r)) l (λ t z. (p ∷ t, ap (added p) z))
