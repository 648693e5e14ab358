-- ===== src/Core/Sched/Switching.antt =====
-- A switch of processes changes no queue.
use unix_os.Prelude.{
  ℕ, ◌≡◌, ◌∙◌, Option, update, if◌then◌else◌, some, arith, none, refl, ap, ◌==◌, sym, true, false,
}
use unix_os.Core.Sched.{Sched, Cpu, head_of, set_head}
use unix_os.Core.Sched.Pick.{context_switch, switch_from, is_running}
use unix_os.Core.Process.{State, ready, running}
use unix_os.Core.Sched.Steals.{head_of-put_cpu, put_cpu-at}
use unix_os.Core.Sched.Adding.{head_of-set_head}
use unix_os.Core.Sched.Removing.{set_head-keeps}

-- Nothing but states and current processes differs.
pub record Alike (c : ℕ) (s t : Sched) : Type 0 where
  pub nexts : t.next ≡ s.next
  pub queues : t.queue ≡ s.queue
  pub owners : t.owner ≡ s.owner
  pub heads : (d r : ℕ) → head_of t d r ≡ head_of s d r
  pub idles : (t.cpus c).idle ≡ (s.cpus c).idle

pub Alike-refl : (c : ℕ) (s : Sched) → Alike c s s
Alike-refl c s = record {
  nexts = refl;
  queues = refl;
  owners = refl;
  heads = λ d r. refl;
  idles = refl;
}

pub Alike-trans : (c : ℕ) (s t u : Sched) → Alike c s t → Alike c t u → Alike c s u
Alike-trans c s t u v w = record {
  nexts = w.nexts ∙ v.nexts;
  queues = w.queues ∙ v.queues;
  owners = w.owners ∙ v.owners;
  heads = λ d r. w.heads d r ∙ v.heads d r;
  idles = w.idles ∙ v.idles;
}

-- The processor c is written, all but its heads and its idle process.
pub Alike-written :
    (s : Sched) (c : ℕ) (k : Cpu) (state : ℕ → State)
    → k.head ≡ (s.cpus c).head
    → k.idle ≡ (s.cpus c).idle
    → Alike c s (record s { state = state; cpus = update s.cpus c k })
Alike-written s c k state eh ei = record {
  nexts = refl;
  queues = refl;
  owners = refl;
  heads = head_of-put_cpu s c k eh;
  idles = ap (λ x. x.idle) (put_cpu-at s c k) ∙ ei;
}

pub context_switch-Alike : (s : Sched) (c old new : ℕ) → Alike c s (context_switch s c old new)
unfolding context_switch
context_switch-Alike s c old new =
    let st : ℕ → State = if is_running (s.state old) then update s.state old ready else s.state in
    let t : Sched = record s {
      state = update st new running;
      cpus = update s.cpus c (record (s.cpus c) { current = some new });
    } in
    elim (old == new) as (λ b. Alike c s (if b then s else t)) [
      | true ↦ Alike-refl c s
      | false ↦ Alike-written s c _ _ refl refl
    ]

context_switch-current :
    (s : Sched) (c old new : ℕ)
    → (s.cpus c).current ≡ some new
    → ((context_switch s c old new).cpus c).current ≡ some new
unfolding context_switch
context_switch-current s c old new e =
    let st : ℕ → State = if is_running (s.state old) then update s.state old ready else s.state in
    let t : Sched = record s {
      state = update st new running;
      cpus = update s.cpus c (record (s.cpus c) { current = some new });
    } in
    elim (old == new) as (λ b. ((if b then s else t).cpus c).current ≡ some new) [
      | true ↦ e
      | false ↦ ap (λ x. x.current) (put_cpu-at s c (record (s.cpus c) { current = some new }))
    ]

pub switch_from-Alike :
    (s : Sched) (c : ℕ) (old : Option ℕ) (p : ℕ) → Alike c s (switch_from s c old p)
switch_from-Alike s c none p = Alike-refl c s
switch_from-Alike s c (some o) p = context_switch-Alike s c o p

pub switch_from-current :
    (s : Sched) (c : ℕ) (old : Option ℕ) (p : ℕ)
    → (s.cpus c).current ≡ some p
    → ((switch_from s c old p).cpus c).current ≡ some p
switch_from-current s c none p e = e
switch_from-current s c (some o) p e = context_switch-current s c o p e

pub Alike-set_head :
    (s t : Sched) (c q : ℕ) (h : Option ℕ)
    → Alike c s t
    → Alike c (set_head s c q h) (set_head t c q h)
Alike-set_head s t c q h v = record {
  nexts = v.nexts;
  queues = v.queues;
  owners = v.owners;
  heads = λ d r.
      ground (arith, head_of-set_head s c q d r h, head_of-set_head t c q d r h, v.heads d r);
  idles = (set_head-keeps t c q h c).1 ∙ v.idles ∙ sym (set_head-keeps s c q h c).1;
}
