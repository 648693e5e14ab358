-- ===== src/Core/Life.antt =====
-- src/kernel/core/process.c: a process is created, exits, is found by its parent and is removed from the
-- table. What kmalloc returns is an argument; the scheduler's queues are not modelled.
pub mod Laws
pub mod Slots
use unix_os.Core.Process.{
  Process, Table, at_slot, Kernel, ready, put_slot, find_slot, is_state, zombie, terminated,
  find_by_pid,
}
use unix_os.Core.Fork.{first_free, free_slot}
use unix_os.Core.Signal.{send_signal, init_signals, sigchld}
use unix_os.Prelude.{
  ℕ, Option, Bool, ◌==◌, none, some, if◌then◌else◌, ◌&&◌, [], set, not, drop, ◌∷◌, option_map, ◌||◌,
  add32,
}
use unix_os.Core.Jobs.{init_priority}
use unix_os.Fs.Mount.{is_empty}

-- The process that process_create enters in the table: zero but for these fields.
abbrev pub created : Process → ℕ → Process
created parent pid = init_priority (
    init_signals (record {
      pid = pid;
      ppid = parent.pid;
      pgid = pid;
      sid = parent.sid;
      cred = record { uid = 0; gid = 0; euid = 0; egid = 0; suid = 0; sgid = 0 };
      state = ready;
      priority = 0;
      time_slice = 0;
      exit_code = 0;
      tty = parent.tty;
      umask = parent.umask;
      signal_mask = 0;
      signal_pending = 0;
      signal_handlers = [];
      cwd = if is_empty parent.cwd then 47 ∷ [] else parent.cwd;
      owner_cpu = 0;
    }))

-- process_create for a name: whether kmalloc gives the process and its stack, the table, next_pid and
-- the current process; the slot of the new process, the table and next_pid.
unfoldable pub create : Bool → Bool → Table → ℕ → Process → Option ℕ × Table × ℕ
unfolding first_free
create process_ok stack_ok t next_pid parent =
    if process_ok
    then elim (free_slot t) [
      | none ↦ (none, t, next_pid)
      | some slot ↦
          if stack_ok
          then (some slot, put_slot t slot (created parent next_pid), add32 next_pid 1)
          else (none, t, add32 next_pid 1)
    ]
    else (none, t, next_pid)

-- process_terminate of the process in a slot
pub terminate : Table → ℕ → Table
terminate t i = elim (at_slot t i) [ none ↦ t | some p ↦ if p.pid == 0 then t else set t i none ]

-- process_exit on processor `here` of `cpu_count`: the kernel after it, and the slot of the parent whose
-- children_wq is woken.
pub exit : ℕ → ℕ → Kernel → ℕ → Kernel × Option ℕ
unfolding send_signal
exit cpu_count here k exit_code = elim (at_slot k.table k.current) [
  | none ↦ (k, none)
  | some me ↦
      let k1 : Kernel = record k {
        table = put_slot k.table k.current (record me { exit_code = exit_code });
      } in
      let k2 : Kernel =
        if me.ppid == 0 then k1 else (send_signal cpu_count here k1 me.ppid sigchld).1 in
      let k3 : Kernel = elim (at_slot k2.table k2.current) [
        | none ↦ k2
        | some p ↦ record k2 { table = put_slot k2.table k2.current (record p { state = zombie }) }
      ] in
      let woken : Option ℕ =
        if me.ppid == 0 then none else option_map (λ f. f.0) (find_by_pid k1.table me.ppid) in
      if me.pid == 0 then (k, none) else (k3, woken)
]

-- process_get_by_index
pub get_by_index : Table → ℕ → Option Process
get_by_index t i = elim (at_slot t i) [
  | none ↦ none
  | some p ↦ if is_state p.state terminated then none else some p
]

-- The tests on a child in process_find_child.
abbrev pub is_child : ℕ → Bool → Process → Bool
is_child ppid zombie_only q =
    q.ppid == ppid
    && (not (is_state q.state terminated) && (not zombie_only || is_state q.state zombie))

-- The loop of process_find_child.
pub scan_children : ℕ → Bool → Table → Option Process
scan_children ppid zombie_only [] = none
scan_children ppid zombie_only (none ∷ t) = scan_children ppid zombie_only t
scan_children ppid zombie_only (some q ∷ t) =
    let rest = scan_children ppid zombie_only t in
    if is_child ppid zombie_only q then some q else rest

-- process_find_child: for the child of a pid, or with none (a pid that is not positive) for any child.
pub find_child : Table → ℕ → Option ℕ → Bool → Option Process
unfolding scan_children
find_child t ppid (some pid) zombie_only = elim (find_slot t pid) [
  | none ↦ none
  | some i ↦ elim (at_slot t i) [
    | none ↦ none
    | some q ↦ if is_child ppid zombie_only q then some q else none
  ]
]
find_child t ppid none zombie_only = scan_children ppid zombie_only (drop 1 t)
