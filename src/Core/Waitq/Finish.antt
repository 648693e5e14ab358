-- ===== src/Core/Waitq/Finish.antt =====
-- wait_queue_finish takes an entry out of the list of the sleepers.
use unix_os.Core.Waitq.{Wq, slot, set_slot, unlink_at, unlink_from, settled, wait_queue_finish}
use unix_os.Prelude.{
  Option, ℕ, List, ◌≡◌, has, some, false, ◌∷◌, ◌≢◌, update, none, arith, subst, sym, ap, refl, ◌==◌,
  if◌then◌else◌, ◌∙◌, length, true, ◌<◌, ◌&&◌, suc, [], Bool-cases, inl, ==_iff, inr, zero,
}
use unix_os.Core.Waitq.Chains.{Chain, Chain-frame, link, end}
use unix_os.Core.Sched.Unlink.{erase, erase-hit, erase-miss, not_has-erase}
use unix_os.Core.Sched.Pick.{same, go_on}
use unix_os.Core.Process.{is_state, blocked, running}

-- What the loop leaves: e is out of the list, and what else points to an entry points to the same.
record Unlinked (w : Wq) (pp : Option ℕ) (e : ℕ) (xs : List ℕ) (o : Option Wq) : Type 0 where
  pub after : Wq
  pub is : o ≡ some after
  pub chain : Chain after.next (slot after pp) (erase e xs)
  pub proc : after.proc ≡ w.proc
  pub state : after.state ≡ w.state
  pub outside :
      (at : Option ℕ)
      → at ≢ pp
      → ((a : ℕ) → at ≡ some a → has xs a ≡ false)
      → slot after at ≡ slot w at

-- The entry x that pp points to is the one.
cut-Unlinked :
    (w : Wq) (pp : Option ℕ) (x : ℕ) (t : List ℕ)
    → has t x ≡ false
    → Chain w.next (w.next x) t
    → ((q : ℕ) → pp ≡ some q → has (x ∷ t) q ≡ false)
    → (let w' = set_slot w pp (w.next x) in
        Unlinked w pp x (x ∷ t) (some (record w' { next = update w'.next x none })))
cut-Unlinked w none x t o c f = record {
  after = record w { head = w.next x; next = update w.next x none };
  is = refl;
  chain =
      subst (Chain (update w.next x none) (w.next x)) (sym (erase-hit x x t (ground arith)))
        (Chain-frame c (λ a i. ground (arith, i, o, ap (has t) {x = a} {y = x})));
  proc = refl;
  state = refl;
  outside = outside;
}
  where
    outside :
        (at : Option ℕ)
        → at ≢ none
        → ((a : ℕ) → at ≡ some a → has (x ∷ t) a ≡ false)
        → slot (record w { head = w.next x; next = update w.next x none }) at ≡ slot w at
    outside none n g = absurd (n refl)
    outside (some a) n g = ground (arith, g a refl)
cut-Unlinked w (some q) x t o c f =
    let n : ℕ → Option ℕ = update (update w.next q (w.next x)) x none in
    record {
      after = record w { next = n };
      is = refl;
      chain =
          subst (λ r. Chain n r (erase x (x ∷ t))) (sym (ground (arith, f q refl)))
            (subst (Chain n (w.next x)) (sym (erase-hit x x t (ground arith))) (
              Chain-frame c (λ a i.
                ground (
                  arith,
                  i,
                  o,
                  f q refl,
                  ap (has t) {x = a} {y = x},
                  ap (has t) {x = a} {y = q},
                ))));
      proc = refl;
      state = refl;
      outside = outside;
    }
  where
    outside :
        (at : Option ℕ)
        → at ≢ some q
        → ((a : ℕ) → at ≡ some a → has (x ∷ t) a ≡ false)
        → slot (record w { next = update (update w.next q (w.next x)) x none }) at ≡ slot w at
    outside none n g = refl
    outside (some a) n g = ground (arith, g a refl, λ (z : a ≡ q). n (ap some z))

unlink_hit :
    (more : ℕ → Option Wq) (w : Wq) (pp : Option ℕ) (x : ℕ)
    → (let w' = set_slot w pp (w.next x) in
        unlink_at more w pp x (some x) ≡ some (record w' { next = update w'.next x none }))
unlink_hit more w pp x =
    let w' = set_slot w pp (w.next x) in
    ap (λ b. if b then some (record w' { next = update w'.next x none }) else more x) {x = x == x}
      {y = true} (ground arith)

unlink_miss :
    (more : ℕ → Option Wq) (w : Wq) (pp : Option ℕ) (e x : ℕ)
    → (x == e) ≡ false
    → unlink_at more w pp e (some x) ≡ more x
unlink_miss more w pp e x n =
    let w' = set_slot w pp (w.next e) in
    ap (λ b. if b then some (record w' { next = update w'.next e none }) else more x) n

-- The search went on past the entry x.
past-Unlinked :
    (w : Wq) (pp : Option ℕ) (e x : ℕ) (t : List ℕ) (o rest : Option Wq)
    → slot w pp ≡ some x
    → has t x ≡ false
    → ((q : ℕ) → pp ≡ some q → has (x ∷ t) q ≡ false)
    → (x == e) ≡ false
    → o ≡ rest
    → Unlinked w (some x) e t rest
    → Unlinked w pp e (x ∷ t) o
past-Unlinked w pp e x t o rest z out f miss same u =
    let apart : pp ≢ some x = λ y. absurd (ground (arith, f x y)) in
    let there : slot u.after pp ≡ some x = u.outside pp apart (λ a y. ground (arith, f a y)) ∙ z in
    record {
      after = u.after;
      is = same ∙ u.is;
      chain =
          subst (λ r. Chain u.after.next r (erase e (x ∷ t))) (sym there)
            (subst (Chain u.after.next (some x)) (sym (erase-miss e x t miss))
              (link (not_has-erase e t x out) u.chain));
      proc = u.proc;
      state = u.state;
      outside = λ at n g.
          u.outside at (λ y. absurd (ground (arith, g x y))) (λ a y. ground (arith, g a y));
    }

unlink_from-Unlinked :
    (fuel : ℕ) (w : Wq) (pp : Option ℕ) (e : ℕ) (r : Option ℕ) (xs : List ℕ)
    → slot w pp ≡ r
    → Chain w.next r xs
    → ((q : ℕ) → pp ≡ some q → has xs q ≡ false)
    → length xs < fuel
    → Unlinked w pp e xs (unlink_from fuel w pp e)
unfolding unlink_from
unlink_from-Unlinked zero w pp e r xs z c f l = absurd (omega (arith, l))
unlink_from-Unlinked (suc fuel) w pp e none _ z end f l = record {
  after = w;
  is = ap (unlink_at (λ x. unlink_from fuel w (some x) e) w pp e) z;
  chain = subst (λ r. Chain w.next r []) (sym z) end;
  proc = refl;
  state = refl;
  outside = λ at n g. refl;
}
unlink_from-Unlinked (suc fuel) w pp e (some x) _ z (link {xs = t} o c) f l =
    let more : ℕ → Option Wq = λ x. unlink_from fuel w (some x) e in
    subst (Unlinked w pp e (x ∷ t)) (sym (ap (unlink_at more w pp e) z))
      (elim (Bool-cases (x == e)) [
        | inl hit ↦
            subst (λ y. Unlinked w pp y (x ∷ t) (unlink_at more w pp y (some x)))
              ((==_iff x e).0 hit)
              (subst (Unlinked w pp x (x ∷ t)) (sym (unlink_hit more w pp x))
                (cut-Unlinked w pp x t o c f))
        | inr miss ↦ past-Unlinked w pp e x t _ _ z o f miss (unlink_miss more w pp e x miss) (
            unlink_from-Unlinked fuel w (some x) e (w.next x) t refl c
              (λ q y. ground (arith, y, o, ap (has t) {x = x} {y = q})) (omega (arith, l)))
      ])

settled_state :
    (w : Wq) (e : ℕ) (r : Option ℕ) (q : ℕ)
    → (settled w e r).state q
      ≡ (if same r (some q) && is_state (w.state q) blocked then running else w.state q)
settled_state w e none q = refl
settled_state w e (some p) q = elim (Bool-cases (p == q)) [
  | inl y ↦ ground (arith, y, ap w.state {x = p} {y = q})
  | inr y ↦ ground (arith, y)
]

settled_links :
    (w : Wq) (e : ℕ) (r : Option ℕ)
    → w.proc e ≡ r
    → ((settled w e r).next ≡ w.next)
      × ((settled w e r).head ≡ w.head)
      × ((settled w e r).proc e ≡ none)
settled_links w e none z = (refl, refl, z)
settled_links w e (some p) z = (refl, refl, ground arith)

-- Where the queue is the list xs, wait_queue_finish ends within one round more than it has entries. Then the
-- queue is xs without the entry, the entry is free, and its process runs if it was still blocked; no other
-- state changes, so that what a waker or a kill wrote stays.
pub wait_queue_finish-erase :
    (fuel : ℕ) (w : Wq) (e : ℕ) (xs : List ℕ)
    → Chain w.next w.head xs
    → length xs < fuel
    → (v : Wq) × (wait_queue_finish fuel w e ≡ some v)
      × Chain v.next v.head (erase e xs)
      × (v.proc e ≡ none)
      × ((q : ℕ)
          → v.state q ≡ (
              if same (w.proc e) (some q) && is_state (w.state q) blocked
              then running
              else w.state q))
unfolding wait_queue_finish
wait_queue_finish-erase fuel w e xs c l =
    let u =
      unlink_from-Unlinked fuel w none e w.head xs refl c (λ q z. absurd (ground (arith, z))) l in
    let (en, eh, ep) = settled_links u.after e (u.after.proc e) refl in
    (
      settled u.after e (u.after.proc e),
      ap (λ o. go_on o (λ v. some (settled v e (v.proc e)))) u.is,
      subst (λ n. Chain n (settled u.after e (u.after.proc e)).head (erase e xs)) (sym en)
          (subst (λ r. Chain u.after.next r (erase e xs)) (sym eh) u.chain),
      ep,
      λ q. ground (
        arith,
        settled_state u.after e (u.after.proc e) q,
        ap (λ f. same (f e) (some q)) u.proc,
        ap (λ f. f q) u.state,
      ),
    )
