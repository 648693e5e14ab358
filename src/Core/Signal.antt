-- ===== src/Core/Signal.antt =====
-- src/kernel/core/signal.c: sending a signal, its default action, handlers, and the probe for pending
-- signals. A handler is the address that the process gave, 0 for SIG_DFL and 1 for SIG_IGN.
pub mod Laws
use unix_os.Prelude.{
  ℕ, Bool, if◌then◌else◌, replicate, get_or, Result, ◌/◌, ◌+◌, not, ◌==◌, Option, ltb, false, ◌^◌,
  ◌||◌, none, suc, ◌%◌, leb, ◌&&◌, some, err, zero, einval, ok, esrch, set, eperm,
}
use unix_os.Core.Process.{
  Process, Kernel, at_slot, terminated, blocked, is_state, ready, find_by_pid, put_slot,
}

-- The signals that the code names, by their numbers in uapi/signals.def.
abbrev pub sigkill : ℕ
sigkill = 9

abbrev pub sigusr1 : ℕ
sigusr1 = 10

abbrev pub sigusr2 : ℕ
sigusr2 = 12

abbrev pub sigchld : ℕ
sigchld = 17

abbrev pub sigcont : ℕ
sigcont = 18

abbrev pub sigstop : ℕ
sigstop = 19

abbrev pub nsig_handled : ℕ
nsig_handled = 32

-- Bit i of a sigset_t, and the set with that bit set.
pub has_bit : ℕ → ℕ → Bool
has_bit m i = m / 2 ^ i % 2 == 1

pub or_bit : ℕ → ℕ → ℕ
unfolding has_bit
or_bit m i = if has_bit m i then m else m + 2 ^ i

-- default_action: whether it is ACT_TERM
unfoldable pub is_act_term : ℕ → Bool
is_act_term sig = not (sig == sigchld || (sig == sigusr1 || sig == sigusr2))

-- process_init_signals
unfoldable pub init_signals : Process → Process
init_signals p = record p {
  signal_mask = 0;
  signal_pending = 0;
  signal_handlers = replicate nsig_handled 0;
}

-- process_deliver_signal
unfoldable pub deliver_signal : Process → ℕ → Process
unfolding is_act_term or_bit
deliver_signal p signal =
    let handler = get_or p.signal_handlers signal 0 in
    if handler == 1
    then p
    else (if handler == 0
        then (if is_act_term signal
            then record p { state = terminated; exit_code = signal % 128 }
            else p)
        else record p { signal_pending = or_bit p.signal_pending signal })

-- The switch of process_send_signal and the delivery after it.
unfoldable pub act_on : Process → ℕ → Process
unfolding deliver_signal has_bit or_bit
act_on p signal =
    if signal == sigkill
    then record p { state = terminated; exit_code = sigkill % 128 }
    else (if signal == sigstop
        then record p { state = blocked }
        else (if signal == sigcont
            then (if is_state p.state blocked then record p { state = ready } else p)
            else (if has_bit p.signal_mask signal
                then record p { signal_pending = or_bit p.signal_pending signal }
                else deliver_signal p signal)))

-- The permission check.
abbrev pub may_signal : Process → Process → Bool
may_signal sender target =
    sender.cred.euid == 0
    || (sender.cred.euid == target.cred.uid || sender.cred.euid == target.cred.suid)

-- process_send_signal on a machine of `cpu_count` processors, called on processor `here`: the result,
-- the kernel, and the processor that a reschedule interrupt is sent to.
unfoldable pub send_signal : ℕ → ℕ → Kernel → ℕ → ℕ → Result ℕ × Kernel × Option ℕ
unfolding act_on
send_signal cpu_count here k pid signal =
    if ltb signal 1 || leb nsig_handled signal
    then (err einval, k, none)
    else elim (find_by_pid k.table pid) [
      | none ↦ (err esrch, k, none)
      | some (i, target) ↦
          let refused : Bool = elim (at_slot k.table k.current) [
            | none ↦ false
            | some sender ↦ not (may_signal sender target)
          ] in
          if refused then (err eperm, k, none) else (
            ok 0,
            record k { table = put_slot k.table i (act_on target signal) },
            if ltb target.owner_cpu cpu_count && not (target.owner_cpu == here)
                then some target.owner_cpu
                else none,
          )
    ]

-- process_set_signal_handler: the old handler, and the process
pub set_signal_handler : Process → ℕ → ℕ → Result ℕ × Process
set_signal_handler p signal handler =
    if ltb signal 1 || leb nsig_handled signal
    then (err einval, p)
    else (if signal == sigkill || signal == sigstop then (err einval, p) else (
      ok (get_or p.signal_handlers signal 0),
      record p { signal_handlers = set p.signal_handlers signal handler },
    ))

-- Whether one of the n lowest bits is set in pending and not in mask.
pub any_unmasked : ℕ → ℕ → ℕ → Bool
unfolding has_bit
any_unmasked pending mask zero = false
any_unmasked pending mask (suc n) =
    any_unmasked pending mask n || (has_bit pending n && not (has_bit mask n))

-- signal_pending_check
pub signal_pending_check : Kernel → Bool
unfolding any_unmasked
signal_pending_check k = elim (at_slot k.table k.current) [
  | none ↦ false
  | some p ↦ any_unmasked p.signal_pending p.signal_mask nsig_handled
]
