-- ===== src/Core/Jobs.antt =====
-- src/kernel/core/jobctl.c and priority.c: process groups, sessions, the console's foreground group
-- and nice values. A pid is a 32-bit word.
pub mod Laws
use unix_os.Core.Process.{Kernel, Process, at_slot, find_by_pid, put_slot}
use unix_os.Prelude.{
  ℕ, Option, Result, some, if◌then◌else◌, ◌+◌, none, err, ltb, esrch, enotty, ◌-◌, ◌==◌, ok, not,
  eperm, ◌&&◌,
}

-- The current process.
abbrev pub current_process : Kernel → Option Process
current_process k = at_slot k.table k.current

-- process_setpgid
unfoldable pub setpgid : Kernel → ℕ → ℕ → Result ℕ × Kernel
setpgid k pid0 pgid0 = elim (current_process k) [
  | none ↦ (err esrch, k)
  | some cur ↦
      let pid = if pid0 == 0 then cur.pid else pid0 in
      let pgid = if pgid0 == 0 then pid else pgid0 in
      elim (find_by_pid k.table pid) [
        | none ↦ (err esrch, k)
        | some (i, target) ↦
            if not (target.pid == cur.pid) && not (target.ppid == cur.pid)
            then (err eperm, k)
            else (ok 0, record k { table = put_slot k.table i (record target { pgid = pgid }) })
      ]
]

-- process_getpgid
pub getpgid : Kernel → ℕ → Result ℕ
getpgid k pid = elim (current_process k) [
  | none ↦ err esrch
  | some cur ↦
      let found : Result ℕ = elim (find_by_pid k.table pid) [
        | none ↦ err esrch
        | some (i, target) ↦ ok target.pgid
      ] in
      if pid == 0 then ok cur.pgid else found
]

-- process_getpgrp
pub getpgrp : Kernel → Result ℕ
getpgrp k = elim (current_process k) [ none ↦ err esrch | some cur ↦ ok cur.pgid ]

-- process_setsid
pub setsid : Kernel → Result ℕ × Kernel
setsid k = elim (current_process k) [
  | none ↦ (err esrch, k)
  | some cur ↦ if cur.pid == cur.pgid then (err eperm, k) else (
    ok cur.pid,
    record k {
      table = put_slot k.table k.current (record cur { sid = cur.pid; pgid = cur.pid; tty = none });
    },
  )
]

-- process_getsid
pub getsid : Kernel → ℕ → Result ℕ
getsid k pid = elim (current_process k) [
  | none ↦ err esrch
  | some cur ↦
      let found : Result ℕ = elim (find_by_pid k.table pid) [
        | none ↦ err esrch
        | some (i, target) ↦ ok target.sid
      ] in
      if pid == 0 then ok cur.sid else found
]

-- process_tcgetpgrp, for a file descriptor that is not negative
pub tcgetpgrp : Kernel → ℕ → Result ℕ
tcgetpgrp k fd = if ltb 2 fd then err enotty else ok k.console_pgrp

-- process_tcsetpgrp, for a file descriptor that is not negative
pub tcsetpgrp : Kernel → ℕ → ℕ → Result ℕ × Kernel
tcsetpgrp k fd pgrp = if ltb 2 fd then (err enotty, k) else (ok 0, record k { console_pgrp = pgrp })

-- process_init_priority
unfoldable pub init_priority : Process → Process
init_priority p = record p { priority = 20; time_slice = 100 }

-- An increment of nice: up or down.
pub data Step : Type 0 where
  up down : ℕ → Step

-- new_prio of sys_nice before the two tests, none when it is negative.
abbrev pub moved : ℕ → Step → Option ℕ
moved p (up n) = some (p + n)
moved p (down n) = if ltb p n then none else some (p - n)

abbrev pub clamped : Option ℕ → ℕ
clamped none = 0
clamped (some p) = if ltb 39 p then 39 else p

-- sys_nice for an increment that does not overflow the addition: new_prio, of which the call returns
-- the nice value new_prio - 20, and the kernel after it.
pub nice : Kernel → Step → Result ℕ × Kernel
nice k by = elim (current_process k) [
  | none ↦ (err esrch, k)
  | some p ↦
      let new_prio = clamped (moved p.priority by) in
      (
        ok new_prio,
        record k { table = put_slot k.table k.current (record p { priority = new_prio }) },
      )
]
