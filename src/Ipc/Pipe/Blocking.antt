-- ===== src/Ipc/Pipe/Blocking.antt =====
-- The waiting loops of pipe_read_buffer and pipe_write_buffer.
use unix_os.Prelude.{
  ℕ, ◌≡◌, ◌≢◌, inl, inr, Bool, true, false, ◌==◌, List, [], ◌∷◌, ◌++◌, some, none, arith,
  Option-cases, if◌then◌else◌,
}
use unix_os.Ipc.Pipe.{
  Pipe, Wake, Wait, ran, asleep, out_of_fuel, wait_event_locked, is_readable, is_writable,
  is_nonblock, read_loop, write_loop, read_buffer, write_buffer, broken, write_transfer,
}

-- wait_event_locked leaves only in a state that satisfies its condition.
wait_event_locked_sound :
    (cond : Pipe → Bool) (w : Wake) (ws : List Wake) (w' : Wake) (ws' : List Wake)
    → wait_event_locked cond w ws ≡ some (w', ws')
    → cond w'.pipe ≡ true
unfolding wait_event_locked
wait_event_locked_sound cond w [] w' ws' e = ground arith
wait_event_locked_sound cond w (v ∷ ws) w' ws' e =
    ground (arith, wait_event_locked_sound cond v ws w' ws')

abbrev pub All : (Wake → Type 0) → List Wake → Type 0
All P [] = Unit {0}
All P (w ∷ ws) = P w × All P ws

-- A wake-up at which the condition still fails is slept through, whatever else has happened.
wait_event_locked_skip :
    (cond : Pipe → Bool) (w : Wake) (us : List Wake) (w' : Wake) (ws : List Wake)
    → cond w.pipe ≡ false
    → All (λ u. cond u.pipe ≡ false) us
    → cond w'.pipe ≡ true
    → wait_event_locked cond w (us ++ w' ∷ ws) ≡ some (w', ws)
unfolding wait_event_locked
wait_event_locked_skip cond w [] w' [] c a e = ground arith
wait_event_locked_skip cond w [] w' (v ∷ ws) c a e = ground arith
wait_event_locked_skip cond w (u ∷ us) w' ws c a e =
    ground (arith, wait_event_locked_skip cond u us w' ws a.0 a.1 e)

wait_event_locked-none :
    (cond : Pipe → Bool) (w : Wake) (us : List Wake)
    → cond w.pipe ≡ false
    → All (λ u. cond u.pipe ≡ false) us
    → wait_event_locked cond w us ≡ none
unfolding wait_event_locked
wait_event_locked-none cond w [] c a = ground arith
wait_event_locked-none cond w (u ∷ us) c a =
    ground (arith, wait_event_locked-none cond u us a.0 a.1)

-- The condition under which pipe_read_buffer goes to sleep, and pipe_write_buffer.
abbrev pub MustWaitToRead : Wake → Type 0
MustWaitToRead w =
    (w.pipe.count ≡ 0) × (w.pipe.writers ≢ 0) × (is_nonblock w.pipe ≡ false) × (w.signal ≡ false)

abbrev pub MustWaitToWrite : Wake → Type 0
MustWaitToWrite w =
    (w.pipe.count ≡ w.pipe.size)
    × (w.pipe.readers ≢ 0)
    × (is_nonblock w.pipe ≡ false)
    × (w.signal ≡ false)

-- Two rounds of the loop are enough: the second starts in a state that ends it.
read_loop_ends : (w : Wake) (ws : List Wake) → read_loop 2 w ws ≢ Wait.out_of_fuel
unfolding read_loop
read_loop_ends w ws = elim (Option-cases (wait_event_locked is_readable w ws)) [
  | inl e ↦ ground (arith, e)
  | inr ((w', ws'), e) ↦ ground (arith, e, wait_event_locked_sound is_readable w ws w' ws' e)
]

write_loop_ends : (w : Wake) (ws : List Wake) → write_loop 2 w ws ≢ Wait.out_of_fuel
unfolding write_loop
write_loop_ends w ws = elim (Option-cases (wait_event_locked is_writable w ws)) [
  | inl e ↦ ground (arith, e)
  | inr ((w', ws'), e) ↦ ground (arith, e, wait_event_locked_sound is_writable w ws w' ws' e)
]

-- Neither call runs out of the two rounds that its waiting loop is given.
pub buffer_calls_end :
    (w : Wake) (ws : List Wake) (n : ℕ) (src : List ℕ)
    → (read_buffer ws w n ≢ out_of_fuel) × (write_buffer ws w src ≢ out_of_fuel)
unfolding read_buffer write_buffer
buffer_calls_end w ws n src =
    (ground (arith, read_loop_ends w ws), ground (arith, write_loop_ends w ws))

module _ (w : Wake) (us : List Wake) where
  -- A reader that has to sleep stays asleep at every wake-up at which the pipe is still empty with a
  -- writer left, and then does what a call that starts in the first other state would do. A signal
  -- that is pending at a wake-up changes nothing of this.
  pub read_buffer_sleeps :
      (w' : Wake) (ws : List Wake) (n : ℕ)
      → MustWaitToRead w
      → All (λ u. is_readable u.pipe ≡ false) us
      → is_readable w'.pipe ≡ true
      → (read_buffer us w n ≡ asleep) × (read_buffer (us ++ w' ∷ ws) w n ≡ read_buffer [] w' n)
  unfolding read_buffer read_loop
  read_buffer_sleeps w' ws n m a r = (
    ground (arith, wait_event_locked-none is_readable w us unreadable a),
    ground (arith, wait_event_locked_skip is_readable w us w' ws unreadable a r),
  )
    where
      unreadable : is_readable w.pipe ≡ false
      unreadable = ground arith

  -- A writer that has to sleep stays asleep at every wake-up at which the pipe is still full with a
  -- reader left, signals or not. At the first other state it fails with EPIPE if the pipe is still
  -- full, and otherwise writes, also if no reader is left by then.
  pub write_buffer_sleeps :
      (w' : Wake) (ws : List Wake) (src : List ℕ)
      → MustWaitToWrite w
      → All (λ u. is_writable u.pipe ≡ false) us
      → is_writable w'.pipe ≡ true
      → (write_buffer us w src ≡ asleep)
        × (write_buffer (us ++ w' ∷ ws) w src
            ≡ ran (
                if w'.pipe.count == w'.pipe.size
                then broken w'.pipe
                else write_transfer src w'.pipe))
  unfolding write_buffer write_loop
  write_buffer_sleeps w' ws src m a r = (
    ground (arith, wait_event_locked-none is_writable w us unwritable a),
    ground (arith, wait_event_locked_skip is_writable w us w' ws unwritable a r),
  )
    where
      unwritable : is_writable w.pipe ≡ false
      unwritable = ground arith
