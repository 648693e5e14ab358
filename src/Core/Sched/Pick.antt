-- ===== src/Core/Sched/Pick.antt =====
-- src/kernel/core/sched.c: which process a processor runs next. schedule is taken up to the switch of
-- the stack, which the processor that is switched to returns from.
use unix_os.Core.Process.{State, is_state, running, ready}
use unix_os.Prelude.{
  Option, ℕ, Bool, if◌then◌else◌, some, false, ◌&&◌, update, ◌||◌, add32, none, true, not, ◌==◌,
  ◌-◌, ◌+◌,
}
use unix_os.Core.Sched.{
  Sched, find_from, try_steal_work, remove_from_queue, rotate, find_next_process, add_to_queue, Cpu,
  put_cpu, queue_quantum,
}

abbrev pub is_running : State → Bool
is_running s = is_state s running

-- Whether two pointers are the same.
abbrev pub same : Option ℕ → Option ℕ → Bool
same none none = true
same none (some p) = false
same (some p) none = false
same (some p) (some x) = p == x

-- Whether a process is there and is not running.
abbrev pub not_running : Sched → Option ℕ → Bool
not_running s none = false
not_running s (some p) = not (is_running (s.state p))

abbrev pub is_some : Option ℕ → Bool
is_some none = false
is_some (some p) = true

abbrev pub go_on : {A B : Type 0} → Option A → (A → Option B) → Option B
go_on none k = none
go_on (some a) k = k a

-- The first branch of pick_next_or_idle: a process that stopped running goes behind the others.
unfoldable pub skip_current : Sched → ℕ → Option ℕ × ℕ → Option ((Option ℕ × ℕ) × Sched)
unfolding find_from rotate
skip_current s c (pick, q) =
    let cur = (s.cpus c).current in
    if (is_some pick && same pick cur) && not_running s cur
    then go_on (rotate s c q) (λ s'.
      let (p, r) = find_next_process s' c in
      some ((if same p (s'.cpus c).current then none else p, r), s'))
    else some ((pick, q), s)

-- What a steal leaves of a pick without a process.
abbrev pub stolen_or_idle : ℕ → ℕ → Option ℕ × Sched → (Option ℕ × ℕ) × Sched
stolen_or_idle c q (none, s) = (((s.cpus c).idle, q), s)
stolen_or_idle c q (some p, s) = ((some p, s.queue p), s)

abbrev pub or_steal : ℕ → (Option ℕ × ℕ) × Sched → Option ((Option ℕ × ℕ) × Sched)
or_steal c ((some p, q), s) = some ((some p, q), s)
or_steal c ((none, q), s) = go_on (try_steal_work s c) (λ r. some (stolen_or_idle c q r))

-- pick_next_or_idle: the process, its queue, and the state
unfoldable pub pick_next_or_idle : Sched → ℕ → Option ((Option ℕ × ℕ) × Sched)
unfolding skip_current try_steal_work
pick_next_or_idle s c = go_on (skip_current s c (find_next_process s c)) (or_steal c)

abbrev pub demote_to : ℕ → ℕ → Sched → Sched
demote_to c p s = add_to_queue (record s { state = update s.state p ready }) c p (s.queue p + 1)

-- demote_quantum_exhausted
unfoldable pub demote_quantum_exhausted : ℕ → Sched → ℕ → Option ℕ → Option Sched
unfolding remove_from_queue add_to_queue
demote_quantum_exhausted fuel s c none = some s
demote_quantum_exhausted fuel s c (some p) =
    if same (some p) (s.cpus c).idle
      || (not (is_running (s.state p)) || not ((s.cpus c).quantum_left == 0))
    then some s
    else go_on (remove_from_queue fuel s c p) (λ s'. some (demote_to c p s'))

-- context_switch, without the change of the page directory and the stacks
unfoldable pub context_switch : Sched → ℕ → ℕ → ℕ → Sched
context_switch s c old new =
    let st : ℕ → State = if is_running (s.state old) then update s.state old ready else s.state in
    if old == new then s else record s {
      state = update st new running;
      cpus = update s.cpus c (record (s.cpus c) { current = some new });
    }

-- The branch of schedule where the idle process is next.
unfoldable pub to_idle : Sched → ℕ → Option ℕ → Option ℕ → Sched
unfolding context_switch
to_idle s c (some i) (some old) =
    let s' : Sched = record s {
      state = update s.state i running;
      cpus = update s.cpus c (record (s.cpus c) { current = some i });
    } in
    if not (old == i) && not (is_running (s.state old)) then context_switch s' c old i else s
to_idle s c none old = s
to_idle s c (some i) none = s

abbrev pub switch_from : Sched → ℕ → Option ℕ → ℕ → Sched
switch_from s c none p = s
switch_from s c (some old) p = context_switch s c old p

-- The process p of queue q is given the processor.
unfoldable pub give_cpu : Sched → ℕ → ℕ → ℕ → Option Sched
unfolding rotate context_switch
give_cpu s c p q =
    let old = (s.cpus c).current in
    let k : Cpu = record (s.cpus c) {
      current = some p;
      current_queue = q;
      quantum_left = queue_quantum q;
    } in
    go_on (rotate (record s { state = update s.state p running; cpus = update s.cpus c k }) c q)
      (λ s'. some (switch_from s' c old p))

abbrev pub renew : Sched → ℕ → Option ℕ → Sched
renew s c none = s
renew s c (some p) = put_cpu s c (record (s.cpus c) { quantum_left = queue_quantum (s.queue p) })

-- The last branch of schedule, after its second pick.
unfoldable pub after_pick : ℕ → (Option ℕ × ℕ) × Sched → Option Sched
unfolding give_cpu
after_pick c ((none, q), s) = some (renew s c (s.cpus c).current)
after_pick c ((some p, q), s) =
    if same (some p) (s.cpus c).current || same (some p) (s.cpus c).idle
    then some (renew s c (s.cpus c).current)
    else give_cpu s c p q

unfoldable pub after_first_pick : ℕ → ℕ → (Option ℕ × ℕ) × Sched → Option Sched
unfolding to_idle demote_quantum_exhausted pick_next_or_idle after_pick
after_first_pick fuel c ((next, q), s) =
    let k = s.cpus c in
    if same next k.idle
    then some (to_idle s c k.idle k.current)
    else (if same k.current k.idle
          || (k.quantum_left == 0 || (not (is_some k.current) || not_running s k.current))
        then go_on (demote_quantum_exhausted fuel s c k.current)
            (λ s'. go_on (pick_next_or_idle s' c) (after_pick c))
        else some s)

-- schedule
unfoldable pub schedule : ℕ → Sched → ℕ → Option Sched
unfolding pick_next_or_idle after_first_pick
schedule fuel s c =
    let s' =
      put_cpu s c (record (s.cpus c) { schedule_calls = add32 (s.cpus c).schedule_calls 1 }) in
    go_on (pick_next_or_idle s' c) (after_first_pick fuel c)

-- timer_tick on a processor whose scheduler is enabled
unfoldable pub timer_tick : Sched → ℕ → Sched
timer_tick s c =
    let k = s.cpus c in
    put_cpu s c
      (record k { sched_ticks = add32 k.sched_ticks 1; quantum_left = k.quantum_left - 1 })
