-- ===== src/Core/Waitq/Walks.antt =====
-- wait_queue_finish and wake_all on the lists of the sleepers.
use unix_os.Prelude.{
  Option, ℕ, List, ◌≡◌, some, if◌then◌else◌, true, none, arith, Bool-cases, has, refl, ap, ◌==◌,
  inl, inr, false, length, ◌≤◌, suc, update, ◌∙◌, zero, ◌∷◌, ◌<◌, [], subst, sym,
}
use unix_os.Core.Waitq.{Wq, woken, wake_from, wake_all, wait_queue_prepare, enqueued}
use unix_os.Core.Sched.Pick.{same}
use unix_os.Core.Process.{ready, blocked}
use unix_os.Core.Waitq.Chains.{sleeps, Chain, link, Chain-frame, end}

same_iff : (r : Option ℕ) (p : ℕ) → same r (some p) ≡ true → r ≡ some p
same_iff none p e = absurd (ground (arith, e))
same_iff (some q) p e = ap some (ground (arith, e))

woken_state :
    (w : Wq) (r : Option ℕ) (p : ℕ)
    → (woken w r).state p ≡ (if same r (some p) then ready else w.state p)
woken_state w none p = refl
woken_state w (some q) p = elim (Bool-cases (q == p)) [
  | inl e ↦ ground (arith, e)
  | inr e ↦ ground (arith, e)
]

-- What wake_all leaves of the states and entries.
pub record Awake (w : Wq) (xs : List ℕ) (o : Option Wq) : Type 0 where
  pub after : Wq
  pub is : o ≡ some after
  pub head : after.head ≡ w.head
  pub proc : after.proc ≡ w.proc
  pub state : (p : ℕ) → after.state p ≡ (if sleeps w.proc xs p then ready else w.state p)
  pub gone : (a : ℕ) → has xs a ≡ true → after.next a ≡ none
  pub kept : (a : ℕ) → has xs a ≡ false → after.next a ≡ w.next a

woken_head :
    (w : Wq) (r : Option ℕ)
    → ((woken w r).head ≡ w.head) × ((woken w r).proc ≡ w.proc) × ((woken w r).next ≡ w.next)
woken_head w none = (refl, refl, refl)
woken_head w (some p) = (refl, refl, refl)

wake_from-Awake :
    {r : Option ℕ} {xs : List ℕ} (fuel : ℕ) (w : Wq)
    → Chain w.next r xs
    → length xs ≤ fuel
    → Awake w xs (wake_from fuel w r)
unfolding wake_from
wake_from-Awake fuel w end l = record {
  after = w;
  is = refl;
  head = refl;
  proc = refl;
  state = λ p. refl;
  gone = λ a i. absurd (ground (arith, i));
  kept = λ a i. refl;
}
wake_from-Awake zero w (link o c) l = absurd (omega (arith, l))
wake_from-Awake (suc fuel) w (link {e} {xs = t} o c) l =
    let w1 : Wq = record w { next = update w.next e none } in
    let w2 = woken w1 (w.proc e) in
    let (eh, ep, en) = woken_head w1 (w.proc e) in
    let same_next : (a : ℕ) → has t a ≡ true → w2.next a ≡ w.next a =
      λ a i. ap (λ f. f a) en ∙ ground (arith, i, o, ap (has t) {x = a} {y = e}) in
    let u = wake_from-Awake fuel w2 (Chain-frame c same_next) (omega (arith, l)) in
    record {
      after = u.after;
      is = u.is;
      head = u.head ∙ eh;
      proc = u.proc ∙ ep;
      state =
          λ p. ground (arith, u.state p, woken_state w1 (w.proc e) p, ap (λ f. sleeps f t p) ep);
      gone = λ a i. elim (Bool-cases (has t a)) [
        | inl j ↦ u.gone a j
        | inr j ↦ u.kept a j ∙ ap (λ f. f a) en ∙ ground (arith, i, j)
      ];
      kept = λ a i. u.kept a (ground (arith, i)) ∙ ap (λ f. f a) en ∙ ground (arith, i);
    }

-- wake_all ends within as many rounds as there are sleepers. The queue is empty then and each of its
-- entries is unlinked, every process that slept in one is ready, whatever its state was, and no other process
-- changes.
pub wake_all-ready :
    (fuel : ℕ) (w : Wq) (xs : List ℕ)
    → Chain w.next w.head xs
    → length xs ≤ fuel
    → (v : Wq) × (wake_all fuel w ≡ some v)
      × (v.head ≡ none)
      × ((p : ℕ) → v.state p ≡ (if sleeps w.proc xs p then ready else w.state p))
      × ((a : ℕ) → has xs a ≡ true → v.next a ≡ none)
unfolding wake_all
wake_all-ready fuel w xs c l =
    let u = wake_from-Awake fuel (record w { head = none }) c l in
    (u.after, u.is, u.head, u.state, u.gone)

sleeps-update :
    (proc : ℕ → Option ℕ) (e p : ℕ) (xs : List ℕ) (q : ℕ)
    → has xs e ≡ false
    → sleeps (update proc e (some p)) xs q ≡ sleeps proc xs q
sleeps-update proc e p [] q o = refl
sleeps-update proc e p (x ∷ xs) q o =
    ground (arith, o, sleeps-update proc e p xs q (ground (arith, o)))

-- A process that prepares to sleep in a free entry is woken by the next wake_all, with every process that
-- was asleep before, whatever the states are.
pub wait_queue_prepare-wake_all :
    (fuel : ℕ) (w : Wq) (e p : ℕ) (xs : List ℕ)
    → Chain w.next w.head xs
    → has xs e ≡ false
    → w.proc e ≡ none
    → length xs < fuel
    → (v : Wq) × (wake_all fuel (wait_queue_prepare w e (some p)) ≡ some v)
      × (v.head ≡ none)
      × (v.state p ≡ ready)
      × ((q : ℕ) → sleeps w.proc xs q ≡ true → v.state q ≡ ready)
unfolding wait_queue_prepare
wait_queue_prepare-wake_all fuel w e p xs c o free l =
    let w1 = enqueued w e p in
    let w2 : Wq = record w1 { state = update w.state p blocked } in
    let enters : wait_queue_prepare w e (some p) ≡ w2 =
      ap
        (λ b.
          let w' : Wq = if b then w else enqueued w e p in
          record w' { state = update w'.state p blocked })
        (ap (λ r. same r (some p)) free) in
    let linked : Chain w1.next (some e) (e ∷ xs) = link o (
      subst (λ r. Chain w1.next r xs) (sym (ground arith))
        (Chain-frame c (λ a i. ground (arith, i, o, ap (has xs) {x = a} {y = e})))) in
    let (v, is, empty, states, gone) = wake_all-ready fuel w2 (e ∷ xs) linked (omega (arith, l)) in
    (
      v,
      ap (wake_all fuel) enters ∙ is,
      empty,
      ground (arith, states p),
      λ q i. ground (arith, states q, i, sleeps-update w.proc e p xs q o),
    )
