-- ===== src/Core/Sched/Giving.antt =====
-- The first process of the queues on its way through the pick to the processor.
use unix_os.Prelude.{
  refl, ℕ, Option, ◌≡◌, ◌≢◌, some, false, ◌<◌, Bool-cases, ◌==◌, ap, inl, sym, ==_iff, ◌∙◌, update,
  inr, if◌then◌else◌, none, ◌&&◌, subst, ◌||◌, arith,
}
use unix_os.Core.Sched.{Sched, head_of, Cpu, queue_quantum, rotate, find_next_process, set_head}
use unix_os.Core.Sched.Shape.{Lists, Shape}
use unix_os.Core.Sched.Pick.{
  same, pick_next_or_idle, after_pick, skip_current, give_cpu, go_on, or_steal, not_running,
  switch_from, renew,
}
use unix_os.Core.Sched.Lead.{Leads, Leads-find, Ring-cons}
use unix_os.Core.Process.{running}
use unix_os.Core.Sched.Rings.{Ring}
use unix_os.Core.Sched.Removing.{set_head-keeps}
use unix_os.Core.Sched.Steals.{put_cpu-at, head_of-put_cpu}
use unix_os.Core.Sched.Picks.{rotate_lem}
use unix_os.Core.Sched.Switching.{switch_from-current, switch_from-Alike}
use unix_os.Core.Sched.Adding.{head_of-set_head}

pub same-other : (h : ℕ) (r : Option ℕ) → r ≢ some h → same (some h) r ≡ false
same-other h none n = refl
same-other h (some p) n = elim (Bool-cases (h == p)) [
  | inl y ↦ absurd (n (ap some (sym ((==_iff h p).0 y))))
  | inr z ↦ z
]

-- h is the current process of c, and at the back of queue q: the process after it is the first.
abbrev pub IsGiven : Sched → ℕ → ℕ → ℕ → Type 0
IsGiven t c q h = ((t.cpus c).current ≡ some h) × (head_of t c q ≡ t.next h)

module _ (slots : ℕ) (s : Sched) (ls : Lists) (v : Shape slots s ls) (c q h : ℕ)
    (w : Leads ls c q h) (l : q < 4) where
  -- The pick is h.
  pub picked : (s.cpus c).current ≢ some h → pick_next_or_idle s c ≡ some ((some h, q), s)
  unfolding pick_next_or_idle skip_current
  picked n =
      let cur = (s.cpus c).current in
      ap (λ p. go_on (skip_current s c p) (or_steal c)) (Leads-find slots s ls v c q h w l)
      ∙ ap
          (λ b.
            go_on
              (if b && not_running s cur
                then go_on (rotate s c q) (λ s'.
                  let (p, r) = find_next_process s' c in
                  some ((if same p (s'.cpus c).current then none else p, r), s'))
                else some ((some h, q), s))
              (or_steal c))
          (same-other h cur n)

  -- The last part of schedule gives it the processor.
  pub dispatched :
      (s.cpus c).current ≢ some h
      → (s.cpus c).idle ≢ some h
      → (t : Sched) × (go_on (pick_next_or_idle s c) (after_pick c) ≡ some t) × IsGiven t c q h
  unfolding after_pick give_cpu
  dispatched nc ni =
      let old = (s.cpus c).current in
      let x : Cpu = record (s.cpus c) {
        current = some h;
        current_queue = q;
        quantum_left = queue_quantum q;
      } in
      let s1 : Sched = record s { state = update s.state h running; cpus = update s.cpus c x } in
      let at : head_of s c q ≡ some h =
        Ring-cons (subst (Ring s.next (head_of s c q)) w.whole (v.circle c q)) in
      let s2 = set_head s1 c q (s.next h) in
      let e2 : (s2.cpus c).current ≡ some h =
        (set_head-keeps s1 c q (s.next h) c).0 ∙ ap (λ y. y.current) (put_cpu-at s c x) in
      (
        switch_from s2 c old h,
        ap (λ o. go_on o (after_pick c)) (picked nc)
            ∙ ap (λ b. if b then some (renew s c old) else give_cpu s c h q)
                {x = same (some h) old || same (some h) (s.cpus c).idle} {y = false}
                (ground (arith, same-other h old nc, same-other h (s.cpus c).idle ni))
            ∙ ap (λ o. go_on o (λ s'. some (switch_from s' c old h)))
                (rotate_lem s1 c q h (head_of-put_cpu s c x refl c q ∙ at)),
        (
          switch_from-current s2 c old h e2,
          (switch_from-Alike s2 c old h).heads c q
              ∙ ground (arith, head_of-set_head s1 c q c q (s.next h))
              ∙ ap (λ n. n h) (sym (switch_from-Alike s2 c old h).nexts),
        ),
      )
