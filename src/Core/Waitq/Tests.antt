-- ===== src/Core/Waitq/Tests.antt =====
-- Two sleepers, and one that joins them.
use unix_os.Core.Waitq.{Wq, wake_all, wait_queue_prepare, wait_queue_finish}
use unix_os.Core.Waitq.Chains.{Chain, link, sleeps, end}
use unix_os.Prelude.{
  Option, some, ◌∷◌, ℕ, ◌≡◌, if◌then◌else◌, [], none, ◌==◌, has, true, ◌&&◌, refl, arith,
}
use unix_os.Core.Process.{state_code, ready, terminated, blocked, is_state, running}
use unix_os.Core.Sched.Pick.{same}
use unix_os.Core.Waitq.Walks.{wake_all-ready, wait_queue_prepare-wake_all}
use unix_os.Core.Waitq.Finish.{wait_queue_finish-erase}

-- Process 5 sleeps in entry 1 and process 6 in entry 2; 6 has been killed.
abbrev two_asleep : Wq
two_asleep = record {
  head = some 2;
  next = λ e. if e == 2 then some 1 else none;
  proc = λ e. if e == 1 then some 5 else (if e == 2 then some 6 else none);
  state = λ p. if p == 6 then terminated else blocked;
}

two_asleep-Chain : Chain two_asleep.next two_asleep.head (2 ∷ 1 ∷ [])
two_asleep-Chain = link refl (link refl end)

abbrev state_after : Option Wq → ℕ → Option ℕ
state_after none p = none
state_after (some w) p = some (state_code (w.state p))

-- The killed process is ready again.
wake_all_revives : state_after (wake_all 2 two_asleep) 6 ≡ some (state_code ready)
unfolding wake_all
wake_all_revives = refl

wake_all-ready_example :
    (v : Wq) × (wake_all 2 two_asleep ≡ some v)
    × (v.head ≡ none)
    × ((p : ℕ)
        → v.state p ≡ (if sleeps two_asleep.proc (2 ∷ 1 ∷ []) p then ready else two_asleep.state p))
    × ((a : ℕ) → has (2 ∷ 1 ∷ []) a ≡ true → v.next a ≡ none)
wake_all-ready_example = wake_all-ready 2 two_asleep (2 ∷ 1 ∷ []) two_asleep-Chain (omega arith)

wait_queue_prepare-wake_all_example :
    (v : Wq) × (wake_all 3 (wait_queue_prepare two_asleep 3 (some 7)) ≡ some v)
    × (v.head ≡ none)
    × (v.state 7 ≡ ready)
    × ((q : ℕ) → sleeps two_asleep.proc (2 ∷ 1 ∷ []) q ≡ true → v.state q ≡ ready)
wait_queue_prepare-wake_all_example =
    wait_queue_prepare-wake_all 3 two_asleep 3 7 (2 ∷ 1 ∷ []) two_asleep-Chain refl refl
      (omega arith)

wait_queue_finish-erase_example :
    (v : Wq) × (wait_queue_finish 3 two_asleep 1 ≡ some v)
    × Chain v.next v.head (2 ∷ [])
    × (v.proc 1 ≡ none)
    × ((q : ℕ)
        → v.state q ≡ (
            if same (two_asleep.proc 1) (some q) && is_state (two_asleep.state q) blocked
            then running
            else two_asleep.state q))
wait_queue_finish-erase_example =
    wait_queue_finish-erase 3 two_asleep 1 (2 ∷ 1 ∷ []) two_asleep-Chain (omega arith)
