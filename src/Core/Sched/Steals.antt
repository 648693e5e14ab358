-- ===== src/Core/Sched/Steals.antt =====
-- The loops of try_steal_work.
use unix_os.Prelude.{
  ℕ, Option, ◌≡◌, arith, List, ◌≢◌, Bool-cases, ap, leb, some, ◌==◌, ◌∙◌, ◌&&◌, suc, subst,
  if◌then◌else◌, ltb, zero, inl, refl, sym, sub32, none, true, inr, false, has,
}
use unix_os.Core.Sched.{
  Sched, Cpu, put_cpu, steal_queues, steal_cpus, head_of, try_steal_work, or_later, steal_at,
  steal_behind, steal_one,
}
use unix_os.Core.Sched.Shape.{Lists}
use unix_os.Core.Sched.Kept.{Kept, Kept-lists, Shape-heads}
use unix_os.Core.Sched.Stealing.{Stolen, nothing-Stolen, steal_one-Stolen}
use unix_os.Core.Sched.Rings.{Ring, ring, cons, nil}

module _ {slots c : ℕ} {b ib : Option ℕ} {ls : Lists} where
  behind-Stolen :
      (s : Sched) (k : Kept slots c b ib ls s) (v q h : ℕ) (xs : List ℕ)
      (later : Option (Option ℕ × Sched))
      → v ≢ c
      → Ring s.next (some h) xs
      → head_of s v q ≡ some h
      → k.lists v q ≡ xs
      → Stolen slots c b ib ls later
      → Stolen slots c b ib ls (steal_behind s c h (s.next h) later)
  behind-Stolen s k v q h _ later vc (ring e o nil) eh z w =
      subst (Stolen slots c b ib ls)
        (sym (
          ap (λ x. steal_behind s c h x later) e
          ∙ ap (λ b. if b then later else some (some h, steal_one s c h h)) {y = true}
              (ground arith)))
        w
  behind-Stolen s k v q h _ later vc (ring e o (cons {p} {q = y} {xs = t} e' o' g)) eh z w =
      subst (Stolen slots c b ib ls)
        (sym (
          ap (λ x. steal_behind s c h x later) e
          ∙ ap (λ b. if b then later else some (some p, steal_one s c h p)) {y = false}
              (ground (arith, o))))
        (steal_one-Stolen s k v q h p y t vc eh z o e' o' g)

  at-Stolen :
      (s : Sched) (k : Kept slots c b ib ls s) (v q : ℕ) (r : Option ℕ)
      (later : Option (Option ℕ × Sched))
      → v ≢ c
      → head_of s v q ≡ r
      → Stolen slots c b ib ls later
      → Stolen slots c b ib ls (steal_at s c r later)
  at-Stolen s k v q none later vc e w = w
  at-Stolen s k v q (some h) later vc e w =
      behind-Stolen s k v q h (k.lists v q) later vc
        (subst (λ x. Ring s.next x (k.lists v q)) e (k.shape.circle v q)) e refl w

  steal_queues-Stolen :
      (n q : ℕ) (s : Sched) (k : Kept slots c b ib ls s) (v : ℕ)
      → v ≢ c
      → Stolen slots c b ib ls (steal_queues n q s c v)
  unfolding steal_queues
  steal_queues-Stolen zero q s k v vc = nothing-Stolen s k
  steal_queues-Stolen (suc n) q s k v vc =
      at-Stolen s k v q (head_of s v q) _ vc refl (steal_queues-Stolen n (suc q) s k v vc)

  or_later-Stolen :
      (o later : Option (Option ℕ × Sched))
      → Stolen slots c b ib ls o
      → Stolen slots c b ib ls later
      → Stolen slots c b ib ls (or_later o later)
  or_later-Stolen o later w l =
      subst (λ x. Stolen slots c b ib ls (or_later x later)) (sym w.is)
        (of_pick w.pick w.after w.kept w.here)
    where
      of_pick :
          (p : Option ℕ) (s : Sched)
          → (k : Kept slots c b ib ls s)
          → ((a : ℕ) → p ≡ some a → has (k.lists c (s.queue a)) a ≡ true)
          → Stolen slots c b ib ls (or_later (some (p, s)) later)
      of_pick none s k h = l
      of_pick (some p) s k h = record { pick = some p; after = s; is = refl; kept = k; here = h }

  steal_cpus-Stolen :
      (n i : ℕ) (s : Sched) → Kept slots c b ib ls s → Stolen slots c b ib ls (steal_cpus n i s c)
  unfolding steal_cpus
  steal_cpus-Stolen zero i s k = nothing-Stolen s k
  steal_cpus-Stolen (suc n) i s k =
      elim (i == c)
          as (λ b'.
            (i == c) ≡ b'
            → Stolen slots c b ib ls (
                if b'
                then steal_cpus n (suc i) s c
                else or_later (steal_queues 4 0 s c i) (steal_cpus n (suc i) s c))) [
                  | true ↦ λ e. steal_cpus-Stolen n (suc i) s k
                  | false ↦ λ e.
                      or_later-Stolen _ _ (steal_queues-Stolen 4 0 s k i (ground (arith, e)))
                        (steal_cpus-Stolen n (suc i) s k)
                ]
        refl

  -- Changes to what is no link, queue, owner or current process.
  pub Kept-heads :
      {s : Sched} (k : Kept slots c b ib ls s) (t : Sched)
      → t.next ≡ s.next
      → t.queue ≡ s.queue
      → t.owner ≡ s.owner
      → ((d r : ℕ) → head_of t d r ≡ head_of s d r)
      → ((t.cpus c).current ≡ (s.cpus c).current) × ((t.cpus c).idle ≡ (s.cpus c).idle)
      → Kept slots c b ib ls t
  Kept-heads {s} k t en eq eo eh e =
      Kept-lists k t k.lists (Shape-heads slots s k.lists t k.shape en eq eo eh)
        (λ a. (λ i. i, λ i. i)) e (λ a i. ap (λ f. f a) eo)

-- Only what is no head of processor c changes.
pub head_of-put_cpu :
    (s : Sched) (c : ℕ) (k : Cpu)
    → k.head ≡ (s.cpus c).head
    → (d r : ℕ) → head_of (put_cpu s c k) d r ≡ head_of s d r
head_of-put_cpu s c k e d r = elim (Bool-cases (d == c)) [
  | inl z ↦ ground (arith, z, ap (λ f. f r) e, ap (λ x. (s.cpus x).head r) {x = d} {y = c})
  | inr z ↦ ground (arith, z)
]

pub put_cpu-at : (s : Sched) (c : ℕ) (k : Cpu) → (put_cpu s c k).cpus c ≡ k
put_cpu-at s c k = ground arith

module _ {slots c : ℕ} {b ib : Option ℕ} {ls : Lists} where
  pub Kept-put_cpu :
      {s : Sched} (k : Kept slots c b ib ls s) (p : Cpu)
      → p.head ≡ (s.cpus c).head
      → p.current ≡ (s.cpus c).current
      → p.idle ≡ (s.cpus c).idle
      → Kept slots c b ib ls (put_cpu s c p)
  Kept-put_cpu {s} k p eh ec ei =
      Kept-heads k (put_cpu s c p) refl refl refl (head_of-put_cpu s c p eh)
        (ap (λ x. x.current) (put_cpu-at s c p) ∙ ec, ap (λ x. x.idle) (put_cpu-at s c p) ∙ ei)

  pub try_steal_work-Stolen :
      (s : Sched) → Kept slots c b ib ls s → Stolen slots c b ib ls (try_steal_work s c)
  unfolding try_steal_work
  try_steal_work-Stolen s k =
      let x = s.cpus c in
      let s' = put_cpu s c (record x { last_steal_tick = x.sched_ticks }) in
      elim (leb 4 x.sched_ticks && ltb (sub32 x.sched_ticks x.last_steal_tick) 4)
        as (λ b'.
          Stolen slots c b ib ls (if b' then some (none, s) else steal_cpus s.cpu_count 0 s' c)) [
            | true ↦ nothing-Stolen s k
            | false ↦ steal_cpus-Stolen s.cpu_count 0 s' (Kept-put_cpu k _ refl refl refl)
          ]
