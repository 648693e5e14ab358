-- ===== src/Core/Sched/Picks.antt =====
-- pick_next_or_idle chooses a queued process or the idle process.
use unix_os.Core.Sched.{
  rotate, find_from, Sched, head_of, set_head, or_head, find_next_process, rotate_at,
  try_steal_work,
}
use unix_os.Prelude.{
  ℕ, Option, ◌≡◌, some, arith, has, ap, ◌∙◌, true, if◌then◌else◌, suc, ◌⊎◌, none, ◌&&◌, inr, zero,
  subst, Bool, sym, refl, inl, false,
}
use unix_os.Core.Sched.Shape.{Lists}
use unix_os.Core.Sched.Kept.{Kept, rotate-Kept}
use unix_os.Core.Sched.Pick.{
  skip_current, pick_next_or_idle, stolen_or_idle, or_steal, same, not_running, go_on,
}
use unix_os.Core.Sched.Stealing.{Stolen}
use unix_os.Core.Sched.Rings.{Ring-head, Ring}
use unix_os.Core.Sched.Steals.{try_steal_work-Stolen}

pub rotate_lem :
    (s : Sched) (c q h : ℕ)
    → head_of s c q ≡ some h
    → rotate s c q ≡ some (set_head s c q (s.next h))
unfolding rotate
rotate_lem s c q h e = ap (rotate_at s c q) e

or_head_lem :
    (head : ℕ → Option ℕ) (r : Option ℕ) (q : ℕ) (later : Option ℕ × ℕ) (a : ℕ)
    → head q ≡ r
    → (later.0 ≡ some a → head later.1 ≡ some a)
    → (or_head r q later).0 ≡ some a
    → head (or_head r q later).1 ≡ some a
or_head_lem head none q later a z w e = w e
or_head_lem head (some h) q later a z w e = z ∙ e

find_from_lem :
    (n q : ℕ) (head : ℕ → Option ℕ) (a : ℕ)
    → (find_from n q head).0 ≡ some a
    → head (find_from n q head).1 ≡ some a
unfolding find_from
find_from_lem zero q head a e = absurd (ground (arith, e))
find_from_lem (suc n) q head a e =
    or_head_lem head (head q) q (find_from n (suc q) head) a refl (find_from_lem n (suc q) head a) e

-- What pick_next_or_idle returns and leaves: a process of the queue it names, or the idle process.
pub record Picked (slots c : ℕ) (b ib : Option ℕ) (ls : Lists) (o : Option ((Option ℕ × ℕ) × Sched))
    : Type 0 where
  pub pick : Option ℕ
  pub queue : ℕ
  pub after : Sched
  pub is : o ≡ some ((pick, queue), after)
  pub kept : Kept slots c b ib ls after
  pub here : (a : ℕ) → pick ≡ some a → (has (kept.lists c queue) a ≡ true) ⊎ (ib ≡ some a)

module _ {slots c : ℕ} {b ib : Option ℕ} {ls : Lists} where
  head_here :
      (s : Sched) (k : Kept slots c b ib ls s) (q a : ℕ)
      → head_of s c q ≡ some a
      → has (k.lists c q) a ≡ true
  head_here s k q a e = Ring-head (subst (λ x. Ring s.next x (k.lists c q)) e (k.shape.circle c q))

  find_again :
      (s : Sched) (k : Kept slots c b ib ls s) (cur : Option ℕ)
      → Picked slots c b ib ls
          (let (p, r) = find_next_process s c in some ((if same p cur then none else p, r), s))
  find_again s k cur =
      let p = find_next_process s c in
      record {
        pick = if same p.0 cur then none else p.0;
        queue = p.1;
        after = s;
        is = refl;
        kept = k;
        here = λ a e. inl (
            head_here s k p.1 a
              (find_from_lem 4 0 (s.cpus c).head a (unless (same p.0 cur) p.0 a e)));
      }
    where
      unless : (t : Bool) (p : Option ℕ) (a : ℕ) → (if t then none else p) ≡ some a → p ≡ some a
      unless true p a e = absurd (ground (arith, e))
      unless false p a e = e

  skip_current-Picked :
      (s : Sched) (k : Kept slots c b ib ls s) (pick : Option ℕ) (q : ℕ)
      → ((a : ℕ) → pick ≡ some a → head_of s c q ≡ some a)
      → Picked slots c b ib ls (skip_current s c (pick, q))
  unfolding skip_current
  skip_current-Picked s k none q f = record {
    pick = none;
    queue = q;
    after = s;
    is = refl;
    kept = k;
    here = λ a e. absurd (ground (arith, e));
  }
  skip_current-Picked s k (some h) q f =
      let cur = (s.cpus c).current in
      elim (same (some h) cur && not_running s cur)
        as (λ t. Picked slots c b ib ls (
          if t
          then go_on (rotate s c q) (λ s'.
            let (p, r) = find_next_process s' c in
            some ((if same p (s'.cpus c).current then none else p, r), s'))
          else some ((some h, q), s))) [
            | true ↦
                subst
                  (λ x. Picked slots c b ib ls (
                    go_on x (λ s'.
                      let (p, r) = find_next_process s' c in
                      some ((if same p (s'.cpus c).current then none else p, r), s'))))
                  (sym (rotate_lem s c q h (f h refl)))
                  (find_again (set_head s c q (s.next h)) (rotate-Kept k q h (f h refl))
                    ((set_head s c q (s.next h)).cpus c).current)
            | false ↦ record {
              pick = some h;
              queue = q;
              after = s;
              is = refl;
              kept = k;
              here = λ a e. inl (head_here s k q a (f h refl ∙ e));
            }
          ]

  stolen_or_idle-Picked :
      (q : ℕ) (o : Option (Option ℕ × Sched))
      → Stolen slots c b ib ls o
      → Picked slots c b ib ls (go_on o (λ r. some (stolen_or_idle c q r)))
  stolen_or_idle-Picked q o w =
      subst (λ x. Picked slots c b ib ls (go_on x (λ r. some (stolen_or_idle c q r)))) (sym w.is)
        (of_pick w.pick w.after w.kept w.here)
    where
      of_pick :
          (p : Option ℕ) (s : Sched) (k : Kept slots c b ib ls s)
          → ((a : ℕ) → p ≡ some a → has (k.lists c (s.queue a)) a ≡ true)
          → Picked slots c b ib ls (some (stolen_or_idle c q (p, s)))
      of_pick none s k h = record {
        pick = (s.cpus c).idle;
        queue = q;
        after = s;
        is = refl;
        kept = k;
        here = λ a e. inr (sym k.idle ∙ e);
      }
      of_pick (some p) s k h = record {
        pick = some p;
        queue = s.queue p;
        after = s;
        is = refl;
        kept = k;
        here = λ a e.
            inl (subst (λ x. has (k.lists c (s.queue p)) x ≡ true) (ground (arith, e)) (h p refl));
      }

  or_steal-Picked :
      (o : Option ((Option ℕ × ℕ) × Sched))
      → Picked slots c b ib ls o
      → Picked slots c b ib ls (go_on o (or_steal c))
  or_steal-Picked o w =
      subst (λ x. Picked slots c b ib ls (go_on x (or_steal c))) (sym w.is)
        (of_pick w.pick w.queue w.after w.kept w.here)
    where
      of_pick :
          (p : Option ℕ) (q : ℕ) (s : Sched) (k : Kept slots c b ib ls s)
          → ((a : ℕ) → p ≡ some a → (has (k.lists c q) a ≡ true) ⊎ (ib ≡ some a))
          → Picked slots c b ib ls (or_steal c ((p, q), s))
      of_pick none q s k h =
          stolen_or_idle-Picked q (try_steal_work s c) (try_steal_work-Stolen s k)
      of_pick (some p) q s k h = record {
        pick = some p;
        queue = q;
        after = s;
        is = refl;
        kept = k;
        here = h;
      }

  pub pick_next_or_idle-Picked :
      (s : Sched) → Kept slots c b ib ls s → Picked slots c b ib ls (pick_next_or_idle s c)
  unfolding pick_next_or_idle
  pick_next_or_idle-Picked s k =
      let p = find_next_process s c in
      or_steal-Picked (skip_current s c p)
        (skip_current-Picked s k p.0 p.1 (find_from_lem 4 0 (s.cpus c).head))
