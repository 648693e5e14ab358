-- ===== src/Core/Sched.antt =====
-- src/kernel/core/sched.c: the run queues of each processor, circular lists through process_t.next. A
-- pointer to a process is a number, 0 for the kernel's own, and none for NULL. A function is one step:
-- interrupts are off and a queue is locked while it is changed. A result none stands for the use of a
-- NULL pointer, or for a search that goes on for more than `fuel` steps.
pub mod Pick
pub mod Rings
pub mod Unlink
pub mod Shape
pub mod Adding
pub mod Distinct
pub mod Removing
pub mod Removed
pub mod Kept
pub mod Stealing
pub mod Steals
pub mod Picks
pub mod Demote
pub mod Switching
pub mod Placed
pub mod First
pub mod Scheduled
pub mod Lead
pub mod Giving
pub mod Dispatch
pub mod Tests
use unix_os.Core.Process.{State, ready}
use unix_os.Prelude.{
  ℕ, Option, get_or, update, Bool, some, if◌then◌else◌, none, suc, ◌∷◌, false, leb, ◌==◌, ltb, zero,
  [], ◌&&◌, ◌%◌, sub32, add32,
}

-- cpu_t, the fields of the scheduler
pub record Cpu : Type 0 where
  pub head : ℕ → Option ℕ
  pub current : Option ℕ
  pub idle : Option ℕ
  pub quantum_left : ℕ
  pub current_queue : ℕ
  pub sched_ticks : ℕ
  pub last_steal_tick : ℕ
  pub schedule_calls : ℕ

-- The processors, and the fields of each process that the scheduler uses; `queue` is mlfq_queue.
pub record Sched : Type 0 where
  pub cpus : ℕ → Cpu
  pub cpu_count : ℕ
  pub next : ℕ → Option ℕ
  pub queue : ℕ → ℕ
  pub state : ℕ → State
  pub owner : ℕ → ℕ
  pub time_slice : ℕ → ℕ
  pub rr_counter : ℕ

abbrev pub queue_quantum : ℕ → ℕ
queue_quantum q = get_or (5 ∷ 10 ∷ 20 ∷ 40 ∷ []) q 0

abbrev pub put_cpu : Sched → ℕ → Cpu → Sched
put_cpu s c k = record s { cpus = update s.cpus c k }

abbrev pub head_of : Sched → ℕ → ℕ → Option ℕ
head_of s c q = (s.cpus c).head q

abbrev pub set_head : Sched → ℕ → ℕ → Option ℕ → Sched
set_head s c q h = put_cpu s c (record (s.cpus c) { head = update (s.cpus c).head q h })

abbrev pub set_next : Sched → ℕ → Option ℕ → Sched
set_next s p v = record s { next = update s.next p v }

abbrev pub points_to : Option ℕ → ℕ → Bool
points_to none p = false
points_to (some x) p = x == p

-- add_to_queue, once the head is read
abbrev pub link_at : Sched → ℕ → ℕ → ℕ → Option ℕ → Sched
link_at s c q p none = set_next (set_head s c q (some p)) p (some p)
link_at s c q p (some h) = set_next (set_next s p (s.next h)) h (some p)

-- add_to_queue
unfoldable pub add_to_queue : Sched → ℕ → ℕ → ℕ → Sched
add_to_queue s c p queue =
    let q : ℕ = if leb 4 queue then 3 else queue in
    link_at (record s { queue = update s.queue p q }) c q p (head_of s c q)

-- How the search for the process before p ends.
pub data Walk : Type 0 where
  astray absent : Walk
  before : ℕ → Walk

-- The loop of remove_from_queue: `prev` is reached, h is the head.
unfoldable pub find_prev : ℕ → (ℕ → Option ℕ) → ℕ → ℕ → ℕ → Walk
find_prev zero next h p prev = astray
find_prev (suc fuel) next h p prev = elim (next prev) [
  | none ↦ astray
  | some x ↦
      let rest = find_prev fuel next h p x in
      if x == p then before prev else (if x == h then absent else rest)
]

abbrev pub take_out : Sched → ℕ → ℕ → ℕ → ℕ → Walk → Option Sched
take_out s c q p h astray = none
take_out s c q p h absent = some s
take_out s c q p h (before prev) =
    let s1 = set_next s prev (s.next p) in
    let s2 : Sched = if h == p then set_head s1 c q (s1.next p) else s1 in some (set_next s2 p none)

abbrev pub remove_at : ℕ → Sched → ℕ → ℕ → ℕ → Option ℕ → Option Sched
remove_at fuel s c q p none = some s
remove_at fuel s c q p (some h) =
    if h == p && points_to (s.next p) p
    then some (set_next (set_head s c q none) p none)
    else take_out s c q p h (find_prev fuel s.next h p h)

-- remove_from_queue
unfoldable pub remove_from_queue : ℕ → Sched → ℕ → ℕ → Option Sched
unfolding find_prev
remove_from_queue fuel s c p =
    let q = s.queue p in if leb 4 q then some s else remove_at fuel s c q p (head_of s c q)

-- scheduler_add_process; the interrupt that it may send is left out.
unfoldable pub scheduler_add_process : Sched → ℕ → Sched
unfolding add_to_queue
scheduler_add_process s p =
    let target : ℕ = if ltb 0 s.cpu_count then s.rr_counter % s.cpu_count else 0 in
    let s' : Sched = record s {
      state = update s.state p ready;
      time_slice = update s.time_slice p (queue_quantum 0);
      rr_counter = add32 s.rr_counter 1;
      owner = update s.owner p target;
    } in
    if p == 0 then s else add_to_queue s' target p 0

-- scheduler_remove_process
unfoldable pub scheduler_remove_process : ℕ → Sched → ℕ → Option Sched
unfolding remove_from_queue
scheduler_remove_process fuel s p = remove_from_queue fuel s (s.owner p) p

abbrev pub or_head : Option ℕ → ℕ → Option ℕ × ℕ → Option ℕ × ℕ
or_head none q later = later
or_head (some h) q later = (some h, q)

-- find_next_process, over n queues from q on
unfoldable pub find_from : ℕ → ℕ → (ℕ → Option ℕ) → Option ℕ × ℕ
find_from zero q head = (none, 0)
find_from (suc n) q head = or_head (head q) q (find_from n (suc q) head)

-- find_next_process
abbrev pub find_next_process : Sched → ℕ → Option ℕ × ℕ
find_next_process s c = find_from 4 0 (s.cpus c).head

-- *head = (*head)->next
abbrev pub rotate_at : Sched → ℕ → ℕ → Option ℕ → Option Sched
rotate_at s c q none = none
rotate_at s c q (some h) = some (set_head s c q (s.next h))

unfoldable pub rotate : Sched → ℕ → ℕ → Option Sched
rotate s c q = rotate_at s c q (head_of s c q)

-- Takes p, which stands behind h in a queue, over to processor c.
unfoldable pub steal_one : Sched → ℕ → ℕ → ℕ → Sched
unfolding add_to_queue
steal_one s c h p =
    let s1 = set_next (set_next s h (s.next p)) p none in
    add_to_queue (record s1 { owner = update s.owner p c }) c p (s.queue p)

abbrev pub steal_behind :
    Sched → ℕ → ℕ → Option ℕ → Option (Option ℕ × Sched) → Option (Option ℕ × Sched)
steal_behind s c h none later = none
steal_behind s c h (some p) later = if p == h then later else some (some p, steal_one s c h p)

abbrev pub steal_at : Sched → ℕ → Option ℕ → Option (Option ℕ × Sched) → Option (Option ℕ × Sched)
steal_at s c none later = later
steal_at s c (some h) later = steal_behind s c h (s.next h) later

-- The loop of try_steal_work over n queues of processor v from q on.
unfoldable pub steal_queues : ℕ → ℕ → Sched → ℕ → ℕ → Option (Option ℕ × Sched)
unfolding steal_one
steal_queues zero q s c v = some (none, s)
steal_queues (suc n) q s c v =
    let later = steal_queues n (suc q) s c v in steal_at s c (head_of s v q) later

abbrev pub or_later :
    Option (Option ℕ × Sched) → Option (Option ℕ × Sched) → Option (Option ℕ × Sched)
or_later none later = none
or_later (some (none, s)) later = later
or_later (some (some p, s)) later = some (some p, s)

-- The loop over n processors from i on.
unfoldable pub steal_cpus : ℕ → ℕ → Sched → ℕ → Option (Option ℕ × Sched)
unfolding steal_queues
steal_cpus zero i s c = some (none, s)
steal_cpus (suc n) i s c =
    let later = steal_cpus n (suc i) s c in
    if i == c then later else or_later (steal_queues 4 0 s c i) later

-- try_steal_work
unfoldable pub try_steal_work : Sched → ℕ → Option (Option ℕ × Sched)
unfolding steal_cpus
try_steal_work s c =
    let k = s.cpus c in
    let s' = put_cpu s c (record k { last_steal_tick = k.sched_ticks }) in
    if leb 4 k.sched_ticks && ltb (sub32 k.sched_ticks k.last_steal_tick) 4
    then some (none, s)
    else steal_cpus s.cpu_count 0 s' c
