-- ===== src/Core/Life/Laws.antt =====
-- What a parent finds after its child has exited.
use unix_os.Core.Signal.{
  act_on, send_signal, deliver_signal, is_act_term, sigchld, nsig_handled, may_signal,
}
use unix_os.Prelude.{
  ℕ, ◌≡◌, arith, Bool-cases, some, inr, ltb, ◌<◌, ◌||◌, true, inl, leb, ◌∙◌, ap, refl, Option-cases,
  sym,
}
use unix_os.Core.Life.{find_child, exit}
use unix_os.Core.Process.{Kernel, Process, find_slot, at_slot, put_slot, zombie, find_by_pid}
use unix_os.Core.Signal.Laws.{send_signal_slot}
use unix_os.Core.Process.Table.{find_slot-put_slot, put_slot-same, find_by_pid-slot}
use mathlib.Core.Option.{some-injective}

act_on-pid : (p : Process) (signal : ℕ) → (act_on p signal).pid ≡ p.pid
unfolding act_on deliver_signal
act_on-pid p signal = ground arith

act_on-ppid : (p : Process) (signal : ℕ) → (act_on p signal).ppid ≡ p.ppid
unfolding act_on deliver_signal
act_on-ppid p signal = ground arith

act_on-exit_code : (p : Process) → (act_on p sigchld).exit_code ≡ p.exit_code
unfolding act_on deliver_signal is_act_term
act_on-exit_code p = ground arith

-- A signal moves no process to another slot.
send_signal-find_slot :
    (cpus here : ℕ) (k : Kernel) (pid signal other : ℕ)
    → find_slot (send_signal cpus here k pid signal).1.table other ≡ find_slot k.table other
unfolding send_signal
send_signal-find_slot cpus here k pid signal other =
    elim (Bool-cases (ltb signal 1 || leb nsig_handled signal)) [
      | inl b ↦ ground (arith, b)
      | inr b ↦ elim (Option-cases (find_by_pid k.table pid)) [
        | inl f ↦ ground (arith, b, f)
        | inr ((i, p), f) ↦
            let (_, s, _) = find_by_pid-slot k.table pid i p f in
            let kept =
              find_slot-put_slot k.table i p (act_on p signal) other s (act_on-pid p signal) in
            elim (Option-cases (at_slot k.table k.current)) [
              | inl c ↦ ground (arith, b, f, c, kept)
              | inr (sender, c) ↦ elim (Bool-cases (may_signal sender p)) [
                | inl y ↦ ground (arith, b, f, c, y, kept)
                | inr n ↦ ground (arith, b, f, c, n)
              ]
            ]
      ]
    ]

send_signal-current :
    (cpus here : ℕ) (k : Kernel) (pid signal : ℕ)
    → (send_signal cpus here k pid signal).1.current ≡ k.current
unfolding send_signal
send_signal-current cpus here k pid signal = ground arith

-- What SIGCHLD leaves of the process that sends it.
sender-kept :
    (cpus here : ℕ) (k : Kernel) (pid : ℕ) (me : Process)
    → at_slot k.table k.current ≡ some me
    → (q : Process) × (at_slot (send_signal cpus here k pid sigchld).1.table k.current ≡ some q)
      × (q.pid ≡ me.pid)
      × (q.ppid ≡ me.ppid)
      × (q.exit_code ≡ me.exit_code)
sender-kept cpus here k pid me e = elim (send_signal_slot cpus here k me pid sigchld k.current e) [
  | inl same ↦ (me, same ∙ e, refl, refl, refl)
  | inr (p, s, new) ↦
      let pm : p ≡ me = some-injective p me (sym s ∙ e) in
      (
        act_on p sigchld,
        new,
        act_on-pid p sigchld ∙ ap (λ x. x.pid) pm,
        act_on-ppid p sigchld ∙ ap (λ x. x.ppid) pm,
        act_on-exit_code p ∙ ap (λ x. x.exit_code) pm,
      )
]

zombie_found :
    (k : Kernel) (i pid ppid : ℕ) (q : Process)
    → find_slot k.table pid ≡ some i
    → at_slot k.table i ≡ some q
    → q.ppid ≡ ppid
    → find_child (put_slot k.table i (record q { state = zombie })) ppid (some pid) true
      ≡ some (record q { state = zombie })
unfolding find_child
zombie_found k i pid ppid q f s e =
    let z : Process = record q { state = zombie } in
    ground (arith, find_slot-put_slot k.table i q z pid s refl, f, put_slot-same k.table i q z s, e)

-- After a process exits, wait of its parent finds it: a zombie with its pid and its exit code.
pub exit-find_child :
    (cpus here : ℕ) (k : Kernel) (me : Process) (code : ℕ)
    → at_slot k.table k.current ≡ some me
    → find_slot k.table me.pid ≡ some k.current
    → 0 < me.pid
    → 0 < me.ppid
    → (z : Process) × (find_child (exit cpus here k code).0.table me.ppid (some me.pid) true
        ≡ some z)
      × (z.pid ≡ me.pid)
      × (z.exit_code ≡ code)
      × (z.state ≡ zombie)
unfolding exit
exit-find_child cpus here k me code e f h g =
    let me1 : Process = record me { exit_code = code } in
    let k1 : Kernel = record k { table = put_slot k.table k.current me1 } in
    let k2 : Kernel = (send_signal cpus here k1 me.ppid sigchld).1 in
    let (q, s, p1, p2, p3) =
      sender-kept cpus here k1 me.ppid me1 (put_slot-same k.table k.current me me1 e) in
    let c : k2.current ≡ k.current = send_signal-current cpus here k1 me.ppid sigchld in
    let found : find_slot k2.table me.pid ≡ some k.current =
      send_signal-find_slot cpus here k1 me.ppid sigchld me.pid
      ∙ find_slot-put_slot k.table k.current me me1 me.pid e refl
      ∙ f in
    let z = zombie_found k2 k.current me.pid me.ppid q found s p2 in
    let s2 : at_slot k2.table k2.current ≡ some q = ap (at_slot k2.table) c ∙ s in
    let left : (exit cpus here k code).0.table
        ≡ put_slot k2.table k.current (record q { state = zombie }) =
      ground (arith, e, h, g, c, s2) in
    (
      record q { state = zombie },
      ap (λ t. find_child t me.ppid (some me.pid) true) left ∙ z,
      p1,
      p3,
      refl,
    )
