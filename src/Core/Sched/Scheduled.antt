-- ===== src/Core/Sched/Scheduled.antt =====
-- schedule keeps the queues circles and their processes, and runs a queued process or the idle process.
use unix_os.Prelude.{
  ℕ, Option, ◌≡◌, some, has, update, true, ◌<◌, ◌⊎◌, inl, inr, not, subst, add32, ◌∙◌, sym, ◌==◌,
  ◌||◌, none, refl, ◌&&◌, if◌then◌else◌, arith, ap, false,
}
use unix_os.Core.Sched.Pick.{
  schedule, to_idle, give_cpu, after_pick, after_first_pick, go_on, renew, pick_next_or_idle,
  demote_quantum_exhausted, same, is_some, is_running, not_running, context_switch, switch_from,
}
use unix_os.Core.Sched.{Sched, Cpu, queue_quantum, set_head}
use unix_os.Core.Sched.Shape.{Lists, Shape, Queued}
use unix_os.Core.Sched.Kept.{Kept, Shape-heads, rotate-Kept}
use unix_os.Core.Sched.Demote.{Keeps, demote_quantum_exhausted-Keeps}
use unix_os.Core.Sched.Switching.{
  Alike, Alike-refl, Alike-written, Alike-trans, switch_from-Alike, switch_from-current,
  Alike-set_head,
}
use unix_os.Core.Sched.Steals.{Kept-put_cpu, put_cpu-at}
use unix_os.Core.Process.{running}
use unix_os.Core.Sched.Picks.{pick_next_or_idle-Picked, rotate_lem}
use unix_os.Core.Sched.Stealing.{Ring-some}
use unix_os.Core.Sched.Removing.{set_head-keeps}

-- What schedule leaves, from the lists ls, the current process b and the idle process ib of processor c on.
pub record Scheduled (slots c : ℕ) (b ib : Option ℕ) (ls : Lists) (o : Option Sched) : Type 0 where
  pub after : Sched
  pub is : o ≡ some after
  pub lists : Lists
  pub shape : Shape slots after lists
  pub stay : (a : ℕ) → Queued ls a → Queued lists a
  pub only : (a : ℕ) → Queued lists a → Queued ls a ⊎ (b ≡ some a)
  pub idle : (after.cpus c).idle ≡ ib
  pub runs :
      (a : ℕ) → (after.cpus c).current ≡ some a → (Queued ls a ⊎ (b ≡ some a)) ⊎ (ib ≡ some a)

module _ {slots c : ℕ} {b ib : Option ℕ} {ls : Lists} where
  Alike-Scheduled :
      (s : Sched) (k : Kept slots c b ib ls s) (t : Sched)
      → Alike c s t
      → ((a : ℕ) → (t.cpus c).current ≡ some a → (Queued ls a ⊎ (b ≡ some a)) ⊎ (ib ≡ some a))
      → Scheduled slots c b ib ls (some t)
  Alike-Scheduled s k t v r = record {
    after = t;
    is = refl;
    lists = k.lists;
    shape = Shape-heads slots s k.lists t k.shape v.nexts v.queues v.owners v.heads;
    stay = k.stay;
    only = k.only;
    idle = v.idles ∙ k.idle;
    runs = r;
  }

  same-Scheduled : (s : Sched) → Kept slots c b ib ls s → Scheduled slots c b ib ls (some s)
  same-Scheduled s k = Alike-Scheduled s k s (Alike-refl c s) (λ a e. inl (inr (sym k.current ∙ e)))

  renew-Scheduled :
      (s : Sched) (k : Kept slots c b ib ls s) (p : Option ℕ)
      → Scheduled slots c b ib ls (some (renew s c p))
  renew-Scheduled s k none = same-Scheduled s k
  renew-Scheduled s k (some p) = same-Scheduled _ (
      Kept-put_cpu k (record (s.cpus c) { quantum_left = queue_quantum (s.queue p) }) refl refl
        refl)

  to_idle-Scheduled :
      (s : Sched) (k : Kept slots c b ib ls s) (i old : Option ℕ)
      → ib ≡ i
      → Scheduled slots c b ib ls (some (to_idle s c i old))
  unfolding to_idle
  to_idle-Scheduled s k none old e = same-Scheduled s k
  to_idle-Scheduled s k (some i) none e = same-Scheduled s k
  to_idle-Scheduled s k (some i) (some old) e =
      let s' : Sched = record s {
        state = update s.state i running;
        cpus = update s.cpus c (record (s.cpus c) { current = some i });
      } in
      elim (not (old == i) && not (is_running (s.state old)))
        as (λ t. Scheduled slots c b ib ls (some (if t then context_switch s' c old i else s))) [
          | true ↦
              Alike-Scheduled s k (switch_from s' c (some old) i)
                (Alike-trans c s s' _ (Alike-written s c _ _ refl refl)
                  (switch_from-Alike s' c (some old) i))
                (λ a z. inr (
                  e
                  ∙ sym (
                      switch_from-current s' c (some old) i (
                        ap (λ x. x.current)
                          (put_cpu-at s c (record (s.cpus c) { current = some i }))))
                  ∙ z))
          | false ↦ same-Scheduled s k
        ]

  give_cpu-Scheduled :
      (s : Sched) (k : Kept slots c b ib ls s) (p q : ℕ)
      → has (k.lists c q) p ≡ true
      → Scheduled slots c b ib ls (give_cpu s c p q)
  unfolding give_cpu
  give_cpu-Scheduled s k p q i =
      let old = (s.cpus c).current in
      let x : Cpu = record (s.cpus c) {
        current = some p;
        current_queue = q;
        quantum_left = queue_quantum q;
      } in
      let s1 : Sched = record s { state = update s.state p running; cpus = update s.cpus c x } in
      let (h, e) = Ring-some p (k.shape.circle c q) i in
      let v1 : Alike c s s1 = Alike-written s c x _ refl refl in
      let s2 = set_head s1 c q (s.next h) in
      let e2 : (s2.cpus c).current ≡ some p =
        (set_head-keeps s1 c q (s.next h) c).0 ∙ ap (λ y. y.current) (put_cpu-at s c x) in
      subst (λ o. Scheduled slots c b ib ls (go_on o (λ s'. some (switch_from s' c old p))))
        (sym (rotate_lem s1 c q h (v1.heads c q ∙ e)))
        (Alike-Scheduled (set_head s c q (s.next h)) (rotate-Kept k q h e) (switch_from s2 c old p)
          (Alike-trans c _ s2 _ (Alike-set_head s s1 c q (s.next h) v1)
            (switch_from-Alike s2 c old p))
          (λ a z. inl (
            subst (λ y. Queued ls y ⊎ (b ≡ some y))
              (ground (arith, sym (switch_from-current s2 c old p e2) ∙ z)) (k.only p (c, q, i)))))

  after_pick-Scheduled :
      (s : Sched) (k : Kept slots c b ib ls s) (p : Option ℕ) (q : ℕ)
      → ((a : ℕ) → p ≡ some a → (has (k.lists c q) a ≡ true) ⊎ (ib ≡ some a))
      → Scheduled slots c b ib ls (after_pick c ((p, q), s))
  unfolding after_pick
  after_pick-Scheduled s k none q h = renew-Scheduled s k (s.cpus c).current
  after_pick-Scheduled s k (some p) q h =
      elim (same (some p) (s.cpus c).current || same (some p) (s.cpus c).idle)
          as (λ t.
            (same (some p) (s.cpus c).current || same (some p) (s.cpus c).idle) ≡ t
            → Scheduled slots c b ib ls
                (if t then some (renew s c (s.cpus c).current) else give_cpu s c p q)) [
                  | true ↦ λ e. renew-Scheduled s k (s.cpus c).current
                  | false ↦ λ e. elim (h p refl) [
                    | inl i ↦ give_cpu-Scheduled s k p q i
                    | inr z ↦ absurd (ground (arith, e, ap (same (some p)) (k.idle ∙ z)))
                  ]
                ]
        refl

  second_pick-Scheduled :
      (o : Option Sched)
      → Keeps slots c b ib ls o
      → Scheduled slots c b ib ls (go_on o (λ s'. go_on (pick_next_or_idle s' c) (after_pick c)))
  second_pick-Scheduled o w =
      let p = pick_next_or_idle-Picked w.after w.kept in
      subst
        (λ x.
          Scheduled slots c b ib ls (go_on x (λ s'. go_on (pick_next_or_idle s' c) (after_pick c))))
        (sym w.is)
        (subst (λ x. Scheduled slots c b ib ls (go_on x (after_pick c))) (sym p.is)
          (after_pick-Scheduled p.after p.kept p.pick p.queue p.here))

  after_first_pick-Scheduled :
      (s : Sched) (k : Kept slots c b ib ls s) (p : Option ℕ) (q : ℕ)
      → ((a : ℕ) → b ≡ some a → a < slots)
      → Scheduled slots c b ib ls (after_first_pick slots c ((p, q), s))
  unfolding after_first_pick
  after_first_pick-Scheduled s k p q l =
      let x = s.cpus c in
      let again =
        go_on (demote_quantum_exhausted slots s c x.current)
          (λ s'. go_on (pick_next_or_idle s' c) (after_pick c)) in
      let u =
        same x.current x.idle
        || (x.quantum_left == 0 || (not (is_some x.current) || not_running s x.current)) in
      elim (same p x.idle)
        as (λ t.
          Scheduled slots c b ib ls
            (if t then some (to_idle s c x.idle x.current) else (if u then again else some s))) [
              | true ↦ to_idle-Scheduled s k x.idle x.current (sym k.idle)
              | false ↦ elim u as (λ t. Scheduled slots c b ib ls (if t then again else some s)) [
                | true ↦
                    second_pick-Scheduled _
                      (demote_quantum_exhausted-Keeps s k x.current (sym k.current) l)
                | false ↦ same-Scheduled s k
              ]
            ]

  first_pick-Scheduled :
      (s : Sched)
      → Kept slots c b ib ls s
      → ((a : ℕ) → b ≡ some a → a < slots)
      → Scheduled slots c b ib ls (go_on (pick_next_or_idle s c) (after_first_pick slots c))
  first_pick-Scheduled s k l =
      let p = pick_next_or_idle-Picked s k in
      subst (λ x. Scheduled slots c b ib ls (go_on x (after_first_pick slots c))) (sym p.is)
        (after_first_pick-Scheduled p.after p.kept p.pick p.queue l)

-- Where every run queue is the circle of a list and processor c owns its current process, schedule on c
-- returns, with fuel for the number of slots. Then every queue is the circle of a list again, every process
-- that was queued is queued, none but the former current process came in, the idle process is the same, and
-- the current process was queued or current before or is the idle process.
pub schedule-Scheduled :
    (slots : ℕ) (s : Sched) (ls : Lists) (c : ℕ)
    → Shape slots s ls
    → ((a : ℕ) → (s.cpus c).current ≡ some a → (s.owner a ≡ c) × (a < slots))
    → Scheduled slots c (s.cpus c).current (s.cpus c).idle ls (schedule slots s c)
unfolding schedule
schedule-Scheduled slots s ls c v own =
    let k : Kept slots c (s.cpus c).current (s.cpus c).idle ls s = record {
      lists = ls;
      shape = v;
      stay = λ a i. i;
      only = λ a i. inl i;
      current = refl;
      idle = refl;
      mine = λ a e. (own a e).0;
    } in
    first_pick-Scheduled _
      (Kept-put_cpu k (record (s.cpus c) { schedule_calls = add32 (s.cpus c).schedule_calls 1 })
        refl refl refl)
      (λ a e. (own a e).1)
