-- ===== src/Core/Waitq.antt =====
-- src/kernel/core/waitq.c: the list of sleepers of one object, through wait_queue_entry_t.next. A pointer to
-- an entry or a process is a number, and none for NULL. A function is one step; a result none stands for a
-- walk of more than `fuel` entries. The interrupt to the processor of a sleeper is left out.
pub mod Chains
pub mod Walks
pub mod Finish
mod Tests
use unix_os.Prelude.{Option, ℕ, update, none, some, if◌then◌else◌, suc, ◌==◌, zero}
use unix_os.Core.Process.{State, ready, is_state, blocked, running}
use unix_os.Core.Sched.Pick.{go_on, same}

-- wait_queue_t, the entries, and the states of the processes
pub record Wq : Type 0 where
  pub head : Option ℕ
  pub next : ℕ → Option ℕ
  pub proc : ℕ → Option ℕ
  pub state : ℕ → State

abbrev pub enqueued : Wq → ℕ → ℕ → Wq
enqueued w e p = record w {
  proc = update w.proc e (some p);
  next = update w.next e w.head;
  head = some e;
}

-- wait_queue_prepare by the process given
unfoldable pub wait_queue_prepare : Wq → ℕ → Option ℕ → Wq
wait_queue_prepare w e none = w
wait_queue_prepare w e (some p) =
    let w' : Wq = if same (w.proc e) (some p) then w else enqueued w e p in
    record w' { state = update w'.state p blocked }

-- What pp points to: the head, or the next pointer of an entry.
abbrev pub slot : Wq → Option ℕ → Option ℕ
slot w none = w.head
slot w (some q) = w.next q

abbrev pub set_slot : Wq → Option ℕ → Option ℕ → Wq
set_slot w none v = record w { head = v }
set_slot w (some q) v = record w { next = update w.next q v }

abbrev pub unlink_at : (ℕ → Option Wq) → Wq → Option ℕ → ℕ → Option ℕ → Option Wq
unlink_at more w pp e none = some w
unlink_at more w pp e (some x) =
    let w' = set_slot w pp (w.next e) in
    if x == e then some (record w' { next = update w'.next e none }) else more x

-- The loop of wait_queue_finish
unfoldable pub unlink_from : ℕ → Wq → Option ℕ → ℕ → Option Wq
unlink_from zero w pp e = none
unlink_from (suc fuel) w pp e = unlink_at (λ x. unlink_from fuel w (some x) e) w pp e (slot w pp)

abbrev pub settled : Wq → ℕ → Option ℕ → Wq
settled w e none = w
settled w e (some p) = record w {
  state = if is_state (w.state p) blocked then update w.state p running else w.state;
  proc = update w.proc e none;
}

unfoldable pub wait_queue_finish : ℕ → Wq → ℕ → Option Wq
unfolding unlink_from
wait_queue_finish fuel w e = go_on (unlink_from fuel w none e) (λ v. some (settled v e (v.proc e)))

abbrev pub woken : Wq → Option ℕ → Wq
woken w none = w
woken w (some p) = record w { state = update w.state p ready }

-- The loop of wake_all
unfoldable pub wake_from : ℕ → Wq → Option ℕ → Option Wq
wake_from fuel w none = some w
wake_from zero w (some e) = none
wake_from (suc fuel) w (some e) =
    wake_from fuel (woken (record w { next = update w.next e none }) (w.proc e)) (w.next e)

unfoldable pub wake_all : ℕ → Wq → Option Wq
unfolding wake_from
wake_all fuel w = wake_from fuel (record w { head = none }) w.head
