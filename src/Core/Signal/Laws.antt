-- ===== src/Core/Signal/Laws.antt =====
-- Who may signal whom, and what the signals that are not for a handler do.
use unix_os.Core.Signal.{
  send_signal, act_on, deliver_signal, sigkill, sigstop, is_act_term, sigcont, may_signal, has_bit,
  nsig_handled,
}
use unix_os.Prelude.{
  ℕ, ◌≡◌, ◌<◌, ◌≢◌, some, true, ok, if◌then◌else◌, refl, ◌⊎◌, not, none, false, err, ◌&&◌, arith,
  esrch, get_or, Bool-cases, Option-cases, ◌==◌, ltb, ◌||◌, inl, leb, inr, ◌∙◌, Errno, einval,
  eperm, ap, ==_iff, sym,
}
use unix_os.Core.Process.{
  Process, Kernel, is_state, at_slot, terminated, ready, find_by_pid, put_slot,
}
use unix_os.Core.Process.Table.{
  find_by_pid-slot, put_slot-other, find_by_pid-dead, find_slot-put_slot, put_slot-same,
  find_slot-pid,
}

may_signal-cases :
    (a b : Process)
    → (may_signal a b ≡ false)
      ⊎ ((may_signal a b ≡ true)
          × ((a.cred.euid ≡ 0) ⊎ ((a.cred.euid ≡ b.cred.uid) ⊎ (a.cred.euid ≡ b.cred.suid))))
may_signal-cases a b = ground arith

-- A send_signal of a process either fails and changes nothing, or succeeds: then one slot held a process with
-- that pid that has not terminated and whose real or saved user id is the sender's effective one, or the
-- sender is root; the process in this slot is acted on, and every other slot is as it was.
pub send_signal_scope :
    (cpus here : ℕ) (k : Kernel) (sender : Process) (pid signal : ℕ)
    → at_slot k.table k.current ≡ some sender
    → let (r, k', ipi) = send_signal cpus here k pid signal in
      ((e : Errno) × (r ≡ err e) × (k' ≡ k))
      ⊎ ((i : ℕ) × (p : Process) × (r ≡ ok 0)
          × (at_slot k.table i ≡ some p)
          × (p.pid ≡ pid)
          × (is_state p.state terminated ≡ false)
          × ((sender.cred.euid ≡ 0)
              ⊎ ((sender.cred.euid ≡ p.cred.uid) ⊎ (sender.cred.euid ≡ p.cred.suid)))
          × (at_slot k'.table i ≡ some (act_on p signal))
          × ((j : ℕ) → i ≢ j → at_slot k'.table j ≡ at_slot k.table j))
unfolding send_signal
send_signal_scope cpus here k sender pid signal e =
    elim (Bool-cases (ltb signal 1 || leb nsig_handled signal)) [
      | inl b ↦ inl (einval, ground (arith, b), ground (arith, b))
      | inr b ↦ elim (Option-cases (find_by_pid k.table pid)) [
        | inl f ↦ inl (esrch, ground (arith, b, f), ground (arith, b, f))
        | inr ((i, p), f) ↦
            let (found, s, alive) = find_by_pid-slot k.table pid i p f in
            elim (may_signal-cases sender p) [
              | inl n ↦ inl (eperm, ground (arith, b, e, f, n), ground (arith, b, e, f, n))
              | inr (y, a) ↦ inr (
                i,
                p,
                ground (arith, b, e, f, y),
                s,
                find_slot-pid k.table pid i p found s,
                alive,
                a,
                ground (arith, b, e, f, y, put_slot-same k.table i p (act_on p signal) s),
                λ j ne. elim (put_slot-other k.table i j p (act_on p signal) s) [
                  | inl c ↦ absurd (ne c)
                  | inr c ↦ ground (arith, b, e, f, y, c)
                ],
              )
            ]
      ]
    ]

-- The same of each slot.
pub send_signal_slot :
    (cpus here : ℕ) (k : Kernel) (sender : Process) (pid signal j : ℕ)
    → at_slot k.table k.current ≡ some sender
    → let t = (send_signal cpus here k pid signal).1.table in
      (at_slot t j ≡ at_slot k.table j)
      ⊎ ((p : Process) × (at_slot k.table j ≡ some p) × (at_slot t j ≡ some (act_on p signal)))
send_signal_slot cpus here k sender pid signal j e =
    elim (send_signal_scope cpus here k sender pid signal e) [
      | inl (_, _, same) ↦ inl (ap (λ k. at_slot k.table j) same)
      | inr (i, p, _, s, _, _, _, acted, others) ↦ elim (Bool-cases (i == j)) [
        | inr n ↦ inl (others j (ground (arith, n)))
        | inl y ↦
            let same = (==_iff i j).0 y in
            inr (
              p,
              ap (at_slot k.table) (sym same) ∙ s,
              ap (at_slot (send_signal cpus here k pid signal).1.table) (sym same) ∙ acted,
            )
      ]
    ]

kill_pid : (p : Process) → (act_on p sigkill).pid ≡ p.pid
unfolding act_on
kill_pid p = refl

kill_dead : (p : Process) → is_state (act_on p sigkill).state terminated ≡ true
unfolding act_on
kill_dead p = refl

-- A SIGKILL that is sent ends its target whatever the target's handlers and mask are: no process
-- has that pid any more, and sending the pid any signal fails with ESRCH.
pub kill_is_final :
    (cpus here : ℕ) (k : Kernel) (pid signal : ℕ)
    → 0 < signal
    → signal < 32
    → (send_signal cpus here k pid sigkill).0 ≡ ok 0
    → let k' = (send_signal cpus here k pid sigkill).1 in
      (find_by_pid k'.table pid ≡ none)
      × (send_signal cpus here k' pid signal ≡ (err esrch, k', none))
unfolding send_signal
kill_is_final cpus here k pid signal h l r = elim (Option-cases (find_by_pid k.table pid)) [
  | inl f ↦ ground (arith, r, f)
  | inr ((i, p), f) ↦
      let q = act_on p sigkill in
      let (e, s, d) = find_by_pid-slot k.table pid i p f in
      let gone : find_by_pid (put_slot k.table i q) pid ≡ none =
        find_by_pid-dead _ pid i q (find_slot-put_slot k.table i p q pid s (kill_pid p) ∙ e)
          (put_slot-same k.table i p q s) (kill_dead p) in
      elim (Option-cases (at_slot k.table k.current)) [
        | inl c ↦ (ground (arith, r, f, c, gone), ground (arith, r, f, c, gone))
        | inr (sender, c) ↦ elim (Bool-cases (may_signal sender p)) [
          | inl y ↦ (ground (arith, r, f, c, y, gone), ground (arith, r, f, c, y, gone))
          | inr n ↦ ground (arith, r, f, c, n)
        ]
      ]
]

-- SIGSTOP and then SIGCONT leave any process ready to run, whatever its state was: also one that
-- slept on a wait queue, and a zombie.
pub stop-cont_ready : (p : Process) → act_on (act_on p sigstop) sigcont ≡ record p { state = ready }
unfolding act_on
stop-cont_ready p = refl

-- A signal other than SIGKILL, SIGSTOP and SIGCONT ends the target exactly when it is not masked,
-- its handler is SIG_DFL, and it is not SIGCHLD, SIGUSR1 or SIGUSR2; otherwise the target keeps
-- its state.
pub act_on_state :
    (p : Process) (signal : ℕ)
    → signal ≢ sigkill
    → signal ≢ sigstop
    → signal ≢ sigcont
    → (act_on p signal).state ≡ (
        if not (has_bit p.signal_mask signal)
          && (get_or p.signal_handlers signal 0 == 0
              && not (signal == 17 || (signal == 10 || signal == 12)))
        then terminated
        else p.state)
unfolding act_on deliver_signal is_act_term
act_on_state p signal a b c = ground arith
