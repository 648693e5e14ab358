-- ===== src/Core/Sched/Tests.antt =====
-- Runs of the scheduler on two processors, whose idle processes are 10 and 11.
use unix_os.Prelude.{
  ℕ, none, [], Option, ◌≡◌, if◌then◌else◌, some, leb, arith, ◌∷◌, ◌==◌, ◌+◌, ap, refl, subst, ◌<◌,
  ◌≢◌, List,
}
use unix_os.Core.Sched.{
  Sched, add_to_queue, Cpu, scheduler_remove_process, scheduler_add_process, head_of, find_from,
  put_cpu,
}
use unix_os.Core.Sched.Shape.{Lists, Shape, put_list, Unqueued, Queued}
use unix_os.Core.Sched.Pick.{schedule, go_on}
use unix_os.Core.Sched.Rings.{empty, added}
use unix_os.Core.Sched.Adding.{add_to_queue-Shape}
use unix_os.Core.Sched.Scheduled.{Scheduled, schedule-Scheduled}
use unix_os.Core.Process.{running, blocked, ready}
use unix_os.Core.Sched.Stealing.{add_to_queue-owner}
use unix_os.Core.Sched.First.{IsFirst, find_from-IsFirst}
use unix_os.Core.Sched.Placed.{scheduler_remove_process-Unqueued, scheduler_add_process-Shape}

abbrev idle_cpu : ℕ → Cpu
idle_cpu c = record {
  head = λ q. none;
  current = some (10 + c);
  idle = some (10 + c);
  quantum_left = 0;
  current_queue = 0;
  sched_ticks = 9;
  last_steal_tick = 0;
  schedule_calls = 0;
}

abbrev empty_sched : Sched
empty_sched = record {
  cpus = idle_cpu;
  cpu_count = 2;
  next = λ p. none;
  queue = λ p. 0;
  state = λ p. if leb 10 p then running else ready;
  owner = λ p. if p == 11 then 1 else 0;
  time_slice = λ p. 0;
  rr_counter = 0;
}

abbrev no_lists : Lists
no_lists c q = []

empty_sched-Shape : Shape 20 empty_sched no_lists
empty_sched-Shape = record {
  circle = λ c q. empty;
  queue_is = λ c q p i. absurd (ground (arith, i));
  owner_is = λ c q p i. absurd (ground (arith, i));
  slot = λ c q p i. absurd (ground (arith, i));
  four = λ c q l. refl;
}

-- Processes 1 and 2 are in the first queue of processor 0.
abbrev one_list : Lists
one_list = put_list no_lists 0 0 (1 ∷ [])

abbrev two_lists : Lists
two_lists = put_list one_list 0 0 (1 ∷ 2 ∷ [])

abbrev two_sched : Sched
two_sched = add_to_queue (add_to_queue empty_sched 0 1 0) 0 2 0

two_sched-Shape : Shape 20 two_sched two_lists
two_sched-Shape =
    add_to_queue-Shape 20 (add_to_queue empty_sched 0 1 0) one_list 0 2 0
      (add_to_queue-Shape 20 empty_sched no_lists 0 1 0 empty_sched-Shape (λ c q. refl) refl
        (omega arith))
      (λ c q. ground arith) (ap (λ f. f 2) (add_to_queue-owner empty_sched 0 1 0)) (omega arith)

abbrev current_on : ℕ → Option Sched → Option ℕ
current_on c none = none
current_on c (some s) = (s.cpus c).current

-- The first process of the queue runs.
schedule_first : current_on 0 (schedule 20 two_sched 0) ≡ some 1
unfolding schedule add_to_queue
schedule_first = refl

-- Then the other processor takes the same process over, and runs it too.
schedule_stolen :
    let both = go_on (schedule 20 two_sched 0) (λ s. schedule 20 s 1) in
    (current_on 0 both ≡ some 1) × (current_on 1 both ≡ some 1)
unfolding schedule add_to_queue
schedule_stolen = (refl, refl)

-- Processor 0 then has a current process that processor 1 owns; a third process has joined the queue of
-- processor 1.
abbrev two_owners : Option Sched
two_owners =
    go_on (schedule 20 two_sched 0)
      (λ s. go_on (schedule 20 s 1) (λ s. some (add_to_queue s 1 3 0)))

abbrev expired : Sched → Sched
expired s = put_cpu s 0 (record (s.cpus 0) { quantum_left = 0 })

abbrev heads_on : Option Sched → ℕ → List (Option ℕ)
heads_on none c = []
heads_on (some s) c = head_of s c 0 ∷ head_of s c 1 ∷ head_of s c 2 ∷ head_of s c 3 ∷ []

abbrev next_in : Option Sched → ℕ → Option ℕ
next_in none p = none
next_in (some s) p = s.next p

schedule_before :
    (heads_on two_owners 1 ≡ some 1 ∷ none ∷ none ∷ none ∷ [])
    × (next_in two_owners 1 ≡ some 3)
    × (next_in two_owners 3 ≡ some 1)
unfolding schedule add_to_queue
schedule_before = (refl, refl, refl)

-- When its quantum is used up, processor 0 relinks the process that it does not own, and the third process is
-- in no queue any more.
schedule_loses :
    let after = go_on two_owners (λ s. schedule 20 (expired s) 0) in
    (heads_on after 1 ≡ some 1 ∷ none ∷ none ∷ none ∷ [])
    × (heads_on after 0 ≡ some 2 ∷ some 1 ∷ none ∷ none ∷ [])
    × (next_in after 1 ≡ some 1)
    × (next_in after 2 ≡ some 2)
unfolding schedule add_to_queue
schedule_loses = (refl, refl, refl, refl)

-- A blocked process that comes up again is run.
schedule_blocked :
    current_on 0
      (schedule 20 (record two_sched { state = λ p. if p == 1 then blocked else ready }) 0)
    ≡ some 1
unfolding schedule add_to_queue
schedule_blocked = refl

schedule-Scheduled_example : Scheduled 20 0 (some 10) (some 10) two_lists (schedule 20 two_sched 0)
unfolding add_to_queue
schedule-Scheduled_example = schedule-Scheduled 20 two_sched two_lists 0 two_sched-Shape (λ a e.
    subst (λ x. (two_sched.owner x ≡ 0) × (x < 20)) {x = 10} (ground (arith, e))
      (refl, omega arith))

scheduler_remove_process-Unqueued_example :
    (t : Sched) × (rest : Lists) × (scheduler_remove_process 20 two_sched 1 ≡ some t)
    × Shape 20 t rest
    × Unqueued rest 1
    × ((a : ℕ)
        → a ≢ 1
        → (Queued two_lists a → Queued rest a) × (Queued rest a → Queued two_lists a))
scheduler_remove_process-Unqueued_example =
    scheduler_remove_process-Unqueued 20 two_sched two_lists 1 two_sched-Shape

scheduler_add_process-Shape_example :
    (c : ℕ) × (0 < two_sched.cpu_count → c < two_sched.cpu_count)
    × Shape 20
        (scheduler_add_process two_sched 3)
        (put_list two_lists c 0 (added 3 (two_lists c 0)))
    × Queued (put_list two_lists c 0 (added 3 (two_lists c 0))) 3
scheduler_add_process-Shape_example =
    scheduler_add_process-Shape 20 two_sched two_lists 3 two_sched-Shape (λ c q. ground arith)
      (ground arith) (omega arith)

find_from-IsFirst_example :
    IsFirst 4 0 (two_sched.cpus 0).head (find_from 4 0 (two_sched.cpus 0).head)
find_from-IsFirst_example = find_from-IsFirst 4 0 (two_sched.cpus 0).head
