-- ===== src/Core/Tests.antt =====
-- A table with the kernel, a shell (pid 7, user 1000) and its child (pid 8), on two processors.
use unix_os.Core.Process.{
  Cred, Kernel, at_slot, Process, find_by_pid, zombie, running, find_slot, ready, terminated,
  is_state,
}
use unix_os.Prelude.{
  ℕ, ◌≡◌, get_or, some, ◌∷◌, true, arith, ok, ◌⊎◌, if◌then◌else◌, none, [], not, ltb, refl,
  replicate, err, ◌+◌, option_map, esrch, ◌&&◌, ◌==◌, eperm, ◌||◌, inr, Errno, false, ◌≢◌,
}
use unix_os.Core.Fork.{
  World, Task, Given, fork, new_child, enter_child, copy_fds, first_free, open_file_incref,
}
use unix_os.Core.Cred.{
  Unprivileged, From, after, setuid, set_uid, seteuid, setgid, setuid_drops, after-From,
}
use unix_os.Core.Jobs.{setpgid, getpgid, setsid, getsid, getpgrp, current_process}
use unix_os.Core.Signal.{send_signal, act_on, sigkill, sigstop, has_bit, sigcont}
use unix_os.Core.Jobs.Laws.{setpgid-getpgid, setpgid_scope, setsid_leads}
use unix_os.Core.Signal.Laws.{send_signal_scope, kill_is_final, stop-cont_ready, act_on_state}
use unix_os.Core.Fork.Laws.{fork_child_is_root, count_refs, fork_counts}
use unix_os.Core.Life.{find_child, create, exit, created, terminate}
use unix_os.Core.Life.Laws.{exit-find_child}
use unix_os.Core.Life.Slots.{terminate-create}

abbrev user : Cred
user = record { uid = 1000; gid = 1000; euid = 1000; egid = 1000; suid = 1000; sgid = 1000 }

abbrev root : Cred
root = record { uid = 0; gid = 0; euid = 0; egid = 0; suid = 0; sgid = 0 }

abbrev member : ℕ → ℕ → ℕ → Cred → Process
member pid ppid pgid cred = record {
  pid = pid;
  ppid = ppid;
  pgid = pgid;
  sid = 7;
  cred = cred;
  state = running;
  priority = 20;
  time_slice = 100;
  exit_code = 0;
  tty = some 0;
  umask = 18;
  signal_mask = 4;
  signal_pending = 0;
  signal_handlers = replicate 32 0;
  cwd = 47 ∷ [];
  owner_cpu = 1;
}

abbrev machine : Kernel
machine = record {
  table =
      some (member 0 0 0 root)
      ∷ some (member 7 1 7 user)
      ∷ none
      ∷ some (member 8 7 7 user)
      ∷ none
      ∷ [];
  current = 3;
  console_pgrp = 1;
}

abbrev worlds : World
worlds = record { table = machine.table; next_pid = 9; refs = 1 ∷ 2 ∷ 0 ∷ [] }

abbrev parent : Task
parent = record {
  process = member 8 7 7 user;
  kernel_stack = 0x100000;
  memory = 0x200000;
  fd_table =
      record { of_idx = 2; offset = 0; flags = 1; refcount = 1 }
      ∷ record { of_idx = 0; offset = 0; flags = 0; refcount = 0 }
      ∷ record { of_idx = 2; offset = 0; flags = 1; refcount = 1 }
      ∷ [];
  esp = 0;
}

abbrev given : Given
given = record { process_ok = true; stack = 0x300000; memory = 0x400000 }

user-Unprivileged : Unprivileged user
user-Unprivileged = record { uid_pos = omega arith; euid_pos = omega arith; suid_pos = omega arith }

after-From_example : From user (after user (setuid 0 ∷ seteuid 1000 ∷ setgid 0 ∷ []))
after-From_example = after-From user (setuid 0 ∷ seteuid 1000 ∷ setgid 0 ∷ []) user-Unprivileged

setuid_drops_example :
    let d = after root (setuid 1000 ∷ seteuid 0 ∷ setuid 0 ∷ []) in
    (d.uid ≡ 1000) × (d.euid ≡ 1000) × (d.suid ≡ 1000)
setuid_drops_example = setuid_drops root 1000 (seteuid 0 ∷ setuid 0 ∷ []) refl (omega arith)

setpgid_works : (setpgid machine 8 20).0 ≡ ok 0
unfolding setpgid find_by_pid find_slot at_slot
setpgid_works = refl

getpgid_after_setpgid : getpgid (setpgid machine 8 20).1 8 ≡ ok 20
getpgid_after_setpgid = setpgid-getpgid machine 8 20 (omega arith) (omega arith) setpgid_works

at_current : at_slot machine.table machine.current ≡ some (member 8 7 7 user)
unfolding at_slot
at_current = refl

setpgid_scope_applied :
    let t = (setpgid machine 0 20).1.table in
    (at_slot t 3 ≡ at_slot machine.table 3)
    ⊎ ((q : Process) × (g : ℕ) × (at_slot machine.table 3 ≡ some q)
        × ((q.pid ≡ 8) ⊎ (q.ppid ≡ 8))
        × (at_slot t 3 ≡ some (record q { pgid = g })))
setpgid_scope_applied = setpgid_scope machine (member 8 7 7 user) 0 20 3 at_current

setsid_of_member :
    let k' = (setsid machine).1 in
    ((setsid machine).0 ≡ ok 8)
    × (getsid k' 0 ≡ ok 8)
    × (getpgrp k' ≡ ok 8)
    × (option_map (λ p. p.tty) (current_process k') ≡ some none)
    × (setsid k' ≡ (err eperm, k'))
setsid_of_member = setsid_leads machine (member 8 7 7 user) at_current (λ e. eight_ne_seven e)
  where
    eight_ne_seven : ◌≡◌ {A = ℕ} 8 7 → ⊥
    eight_ne_seven e = omega arith

send_signal_scope_example :
    let (r, k', ipi) = send_signal 2 0 machine 7 15 in
    ((e : Errno) × (r ≡ err e) × (k' ≡ machine))
    ⊎ ((i : ℕ) × (p : Process) × (r ≡ ok 0)
        × (at_slot machine.table i ≡ some p)
        × (p.pid ≡ 7)
        × (is_state p.state terminated ≡ false)
        × ((user.euid ≡ 0) ⊎ ((user.euid ≡ p.cred.uid) ⊎ (user.euid ≡ p.cred.suid)))
        × (at_slot k'.table i ≡ some (act_on p 15))
        × ((j : ℕ) → i ≢ j → at_slot k'.table j ≡ at_slot machine.table j))
send_signal_scope_example = send_signal_scope 2 0 machine (member 8 7 7 user) 7 15 at_current

kill_sent : (send_signal 2 0 machine 7 sigkill).0 ≡ ok 0
unfolding send_signal find_by_pid find_slot at_slot
kill_sent = refl

kill_is_final_example :
    let k' = (send_signal 2 0 machine 7 sigkill).1 in
    (find_by_pid k'.table 7 ≡ none) × (send_signal 2 0 k' 7 15 ≡ (err esrch, k', none))
kill_is_final_example = kill_is_final 2 0 machine 7 15 (omega arith) (omega arith) kill_sent

act_on_state_applied : (act_on (member 7 1 7 user) 15).state ≡ (
    if not (has_bit 4 15)
      && (get_or {A = ℕ} (replicate 32 0) 15 0 == 0 && not (15 == 17 || (15 == 10 || 15 == 12)))
    then terminated
    else running)
act_on_state_applied = act_on_state (member 7 1 7 user) 15 (λ e. a e) (λ e. b e) (λ e. c e)
  where
    a : 15 ≡ sigkill → ⊥
    a e = omega arith

    b : 15 ≡ sigstop → ⊥
    b e = omega arith

    c : 15 ≡ sigcont → ⊥
    c e = omega arith

stop-cont_ready_applied :
    act_on (act_on (record (member 7 1 7 user) { state = zombie }) sigstop) sigcont
    ≡ record (member 7 1 7 user) { state = ready }
stop-cont_ready_applied = stop-cont_ready (record (member 7 1 7 user) { state = zombie })

abbrev child : Task
child = record {
  process = new_child (member 8 7 7 user) 9;
  kernel_stack = 0x300000;
  memory = 0x400000;
  fd_table =
      record { of_idx = 2; offset = 0; flags = 1; refcount = 1 }
      ∷ record { of_idx = 0; offset = 0; flags = 0; refcount = 0 }
      ∷ record { of_idx = 2; offset = 0; flags = 1; refcount = 1 }
      ∷ [];
  esp = 0x300010;
}

forked : (fork given worlds parent 0x100010).child ≡ some child
unfolding fork enter_child copy_fds first_free open_file_incref
forked = refl

fork_child_is_root_applied :
    (child.process.cred.euid ≡ 0)
    × (child.process.cred.suid ≡ 0)
    × (child.process.cred.uid ≡ 1000)
    × ((set_uid child.process.cred 55).0 ≡ ok 0)
fork_child_is_root_applied = fork_child_is_root given worlds parent child 0x100010 55 forked

fork_counts_example : get_or (fork given worlds parent 0x100010).world.refs 1 0 ≡ (
    if ltb 0 (get_or worlds.refs 1 0)
    then get_or worlds.refs 1 0 + count_refs parent.fd_table 1
    else get_or worlds.refs 1 0)
fork_counts_example = fork_counts given worlds parent 0x100010 1 (omega arith) (inr (child, forked))

at_pid : find_slot machine.table 8 ≡ some 3
unfolding find_slot
at_pid = refl

exit-find_child_example :
    (z : Process) × (find_child (exit 2 0 machine 3).0.table 7 (some 8) true ≡ some z)
    × (z.pid ≡ 8)
    × (z.exit_code ≡ 3)
    × (z.state ≡ zombie)
exit-find_child_example =
    exit-find_child 2 0 machine (member 8 7 7 user) 3 at_current at_pid (omega arith) (omega arith)

created_at : (create true true machine.table 9 (member 8 7 7 user)).0 ≡ some 2
unfolding create first_free
created_at = refl

no_pid : find_slot machine.table 9 ≡ none
unfolding find_slot
no_pid = refl

terminate-create_example :
    let t' = (create true true machine.table 9 (member 8 7 7 user)).1 in
    (find_by_pid t' 9 ≡ some (2, created (member 8 7 7 user) 9))
    × ((j : ℕ) → (2 ≡ j) ⊎ (at_slot t' j ≡ at_slot machine.table j))
    × (terminate t' 2 ≡ machine.table)
terminate-create_example =
    terminate-create machine.table 9 2 (member 8 7 7 user) created_at no_pid (omega arith)
