-- ===== src/Core/Process.antt =====
-- include/kernel/process.h, src/kernel/core/process.c: the process table. A pointer to a process is
-- its slot in the table.
pub mod Table
use unix_os.Prelude.{
  ◌∷◌, ℕ, List, Bool, Option, set, ◌==◌, get_or, some, none, if◌then◌else◌, option_map, suc, [],
}

pub data State : Type 0 where
  ready running blocked terminated zombie : State

abbrev pub state_code : State → ℕ
state_code ready = 0
state_code running = 1
state_code blocked = 2
state_code terminated = 3
state_code zombie = 4

abbrev pub is_state : State → State → Bool
is_state s t = state_code s == state_code t

-- Who a process acts as.
pub record Cred : Type 0 where
  pub uid : ℕ
  pub gid : ℕ
  pub euid : ℕ
  pub egid : ℕ
  pub suid : ℕ
  pub sgid : ℕ

-- struct process, without the fields for memory, context, files and scheduling links. `tty` is none
-- for -1, a string is the list of its characters before the NUL.
pub record Process : Type 0 where
  pub pid : ℕ
  pub ppid : ℕ
  pub pgid : ℕ
  pub sid : ℕ
  pub cred : Cred
  pub state : State
  pub priority : ℕ
  pub time_slice : ℕ
  pub exit_code : ℕ
  pub tty : Option ℕ
  pub umask : ℕ
  pub signal_mask : ℕ
  pub signal_pending : ℕ
  pub signal_handlers : List ℕ
  pub cwd : List ℕ
  pub owner_cpu : ℕ

abbrev pub Table : Type 0
Table = List (Option Process)

-- The process in a slot.
unfoldable pub at_slot : Table → ℕ → Option Process
at_slot t i = get_or t i none

unfoldable pub put_slot : Table → ℕ → Process → Table
put_slot t i p = set t i (some p)

-- hash_table_lookup(&process_table_ht, pid): the entries of that table are the occupied slots.
unfoldable pub find_slot : Table → ℕ → Option ℕ
find_slot [] pid = none
find_slot (none ∷ t) pid = option_map suc (find_slot t pid)
find_slot (some p ∷ t) pid =
    let rest = option_map suc (find_slot t pid) in if p.pid == pid then some 0 else rest

-- process_find_by_pid: a terminated process is not found.
unfoldable pub find_by_pid : Table → ℕ → Option (ℕ × Process)
find_by_pid t pid = elim (find_slot t pid) [
  | none ↦ none
  | some i ↦ elim (at_slot t i) [
    | none ↦ none
    | some p ↦ if is_state p.state terminated then none else some (i, p)
  ]
]

-- The process that get_current_process returns, which is never NULL: it is the kernel's own, slot 0,
-- when no other runs.
pub record Kernel : Type 0 where
  pub table : Table
  pub current : ℕ
  pub console_pgrp : ℕ
