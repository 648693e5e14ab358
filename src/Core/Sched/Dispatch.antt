-- ===== src/Core/Sched/Dispatch.antt =====
-- The path of schedule from a current process that is due to give way to the first process of the queues.
use unix_os.Prelude.{ℕ, Option, ◌≡◌, ◌<◌, ◌⊎◌, some, ◌==◌, true, none, Bool, ◌||◌, not}
use unix_os.Core.Sched.{Sched}
use unix_os.Core.Sched.Shape.{Lists, Shape}
use unix_os.Core.Sched.Lead.{Leads}
use unix_os.Core.Sched.Pick.{not_running, same, is_some}

-- The current process is due to give way: its quantum is used up, it does not run any more, there is none, or
-- it is the idle process.
abbrev IsDue : Sched → ℕ → Type 0
IsDue s c =
    ((s.cpus c).quantum_left ≡ 0)
    ⊎ ((not_running s (s.cpus c).current ≡ true)
        ⊎ (((s.cpus c).current ≡ none) ⊎ (same (s.cpus c).current (s.cpus c).idle ≡ true)))

abbrev must_pick : Sched → ℕ → Bool
must_pick s c =
    same (s.cpus c).current (s.cpus c).idle
    || ((s.cpus c).quantum_left == 0
        || (not (is_some (s.cpus c).current) || not_running s (s.cpus c).current))

module _ (slots : ℕ) (s : Sched) (ls : Lists) (v : Shape slots s ls) (c q h : ℕ)
    (w : Leads ls c q h) (l : q < 4) where
  -- What demote_quantum_exhausted leaves: h still is first, and the processor as it was.
  record Demoted (o : Option Sched) : Type 0 where
    pub after : Sched
    pub lists : Lists
    pub is : o ≡ some after
    pub shape : Shape slots after lists
    pub leads : Leads lists c q h
    pub current : (after.cpus c).current ≡ (s.cpus c).current
    pub idle : (after.cpus c).idle ≡ (s.cpus c).idle
