-- ===== src/Ipc/Pipe.antt =====
-- src/kernel/ipc/pipe.c: one pipe_buffer_t, its reader and its writer.
-- A call that sleeps is given the states in which it finds the pipe each time it takes the lock
-- again (`List Wake`): what other processes did meanwhile is arbitrary.
pub mod Contents
mod Cyclic
pub mod Transfer
pub mod Blocking
pub mod Calls
pub mod Stream
mod Tests
use unix_os.Prelude.{
  ℕ, zero, suc, ◌-◌, ◌%◌, ◌==◌, ltb, if◌then◌else◌, Bool, true, false, not, ◌&&◌, ◌||◌, List, [],
  ◌∷◌, ◌++◌, Option, none, some, take, drop, overwrite, add32, sub32, bit_and, length, Result, ok,
  err, Errno, eagain, eintr, epipe,
}

-- struct pipe_buffer, without its lock, wait queues and table node.
pub record Pipe : Type 0 where
  pub bytes : List ℕ
  pub size : ℕ
  pub read_pos : ℕ
  pub write_pos : ℕ
  pub count : ℕ
  pub readers : ℕ
  pub writers : ℕ
  pub flags : ℕ

abbrev pub pipe_buf : ℕ
pipe_buf = 4096

abbrev pub pipe_max_size : ℕ
pipe_max_size = 65536

abbrev pub o_nonblock : ℕ
o_nonblock = 0x0800

abbrev pub clamp_size : ℕ → ℕ
clamp_size size =
    let s = if ltb pipe_max_size size then pipe_max_size else size in
    if ltb s pipe_buf then pipe_buf else s

-- pipe_create_buffer. The header's kmalloc succeeds or not; that of the data area returns the bytes
-- that the memory happens to hold.
pub create_buffer : Bool → (ℕ → Option (List ℕ)) → ℕ → Option Pipe
create_buffer header_ok kmalloc size =
    if header_ok
    then elim (kmalloc (clamp_size size)) [
      | none ↦ none
      | some mem ↦ some (record {
        bytes = mem;
        size = clamp_size size;
        read_pos = 0;
        write_pos = 0;
        count = 0;
        readers = 0;
        writers = 0;
        flags = 0;
      })
    ]
    else none

-- The length of the first of the two copies: up to the end of the data area.
abbrev pub first_part : ℕ → ℕ → ℕ → ℕ
first_part size pos n = let f = sub32 size pos in if ltb n f then n else f

-- The two copies of pipe_read_buffer: n bytes from index pos, going round at the end.
pub copied_out : List ℕ → ℕ → ℕ → ℕ → List ℕ
copied_out bytes size pos n =
    let first = first_part size pos n in
    let head = take first (drop pos bytes) in
    if ltb first n then head ++ take (sub32 n first) bytes else head

-- The two copies of pipe_write_buffer: the data area after n bytes of src are stored from index pos
-- on, going round at the end.
pub copied_in : List ℕ → ℕ → ℕ → ℕ → List ℕ → List ℕ
copied_in bytes size pos n src =
    let first = first_part size pos n in
    let head = overwrite bytes pos (take first src) in
    if ltb first n then overwrite head 0 (take (sub32 n first) (drop first src)) else head

-- The transfer of pipe_read_buffer: to_read, the bytes copied out, and the pipe after it.
pub read_bytes : Pipe → ℕ → ℕ × List ℕ × Pipe
read_bytes p n =
    let to_read = if ltb n p.count then n else p.count in
    (
      to_read,
      copied_out p.bytes p.size p.read_pos to_read,
      record p { read_pos = add32 p.read_pos to_read % p.size; count = sub32 p.count to_read },
    )

-- The transfer of pipe_write_buffer: to_write, and the pipe after it.
pub write_bytes : Pipe → List ℕ → ℕ × Pipe
write_bytes p src =
    let available = sub32 p.size p.count in
    let to_write = if ltb (length src) available then length src else available in
    (
      to_write,
      record p {
        bytes = copied_in p.bytes p.size p.write_pos to_write src;
        write_pos = add32 p.write_pos to_write % p.size;
        count = add32 p.count to_write;
      },
    )

-- What a call finds when it holds the lock: the pipe, and signal_pending_check().
pub record Wake : Type 0 where
  pub pipe : Pipe
  pub signal : Bool

-- How a waiting loop ends: by its test, by a return from inside it, not within the given wakes, or
-- not within the given rounds.
pub data Wait {ℓ} (A : Type ℓ) : Type ℓ where
  leave : Pipe → Wait A
  stop : A → Wait A
  asleep : Wait A
  out_of_fuel : Wait A

pub data Ran {ℓ} (A : Type ℓ) : Type ℓ where
  ran : A → Ran A
  asleep : Ran A
  out_of_fuel : Ran A

-- wait_event_locked(wq, lock, cond)
pub wait_event_locked : (Pipe → Bool) → Wake → List Wake → Option (Wake × List Wake)
wait_event_locked cond w [] = if cond w.pipe then some (w, []) else none
wait_event_locked cond w (w' ∷ ws) =
    let rest = wait_event_locked cond w' ws in if cond w.pipe then some (w, w' ∷ ws) else rest

-- The result of a call, the pipe when it drops the lock, and what it does besides: the bytes for
-- the caller's buffer, SIGPIPE to the caller, and wake_all on the other end's queue.
pub record Outcome : Type 0 where
  pub ret : Result ℕ
  pub pipe : Pipe
  pub out : List ℕ
  pub sigpipe : Bool
  pub wakes : Bool

abbrev pub failed : Pipe → Errno → Outcome
failed p e = record { ret = err e; pipe = p; out = []; sigpipe = false; wakes = false }

abbrev pub at_eof : Pipe → Outcome
at_eof p = record { ret = ok 0; pipe = p; out = []; sigpipe = false; wakes = false }

abbrev pub broken : Pipe → Outcome
broken p = record { ret = err epipe; pipe = p; out = []; sigpipe = true; wakes = false }

abbrev pub is_nonblock : Pipe → Bool
is_nonblock p = not (bit_and p.flags o_nonblock == 0)

abbrev pub is_readable : Pipe → Bool
is_readable p = ltb 0 p.count || p.writers == 0

abbrev pub is_writable : Pipe → Bool
is_writable p = ltb p.count p.size || p.readers == 0

-- while (pipe->count == 0) { ... }
pub read_loop : ℕ → Wake → List Wake → Wait Outcome
read_loop zero w ws = out_of_fuel
read_loop (suc fuel) w ws =
    let again : Wait Outcome = elim (wait_event_locked is_readable w ws) [
      | none ↦ Wait.asleep
      | some (w', ws') ↦ read_loop fuel w' ws'
    ] in
    if w.pipe.count == 0
    then (if w.pipe.writers == 0
        then stop (at_eof w.pipe)
        else (if is_nonblock w.pipe
            then stop (failed w.pipe eagain)
            else (if w.signal then stop (failed w.pipe eintr) else again)))
    else leave w.pipe

-- while (pipe->count == pipe->size) { ... }
pub write_loop : ℕ → Wake → List Wake → Wait Outcome
write_loop zero w ws = out_of_fuel
write_loop (suc fuel) w ws =
    let again : Wait Outcome = elim (wait_event_locked is_writable w ws) [
      | none ↦ Wait.asleep
      | some (w', ws') ↦ write_loop fuel w' ws'
    ] in
    if w.pipe.count == w.pipe.size
    then (if w.pipe.readers == 0
        then stop (broken w.pipe)
        else (if is_nonblock w.pipe
            then stop (failed w.pipe eagain)
            else (if w.signal then stop (failed w.pipe eintr) else again)))
    else leave w.pipe

abbrev pub finish : (Pipe → Outcome) → Wait Outcome → Ran Outcome
finish k (leave p) = ran (k p)
finish k (stop r) = ran r
finish k asleep = asleep
finish k out_of_fuel = out_of_fuel

pub read_transfer : ℕ → Pipe → Outcome
unfolding read_bytes
read_transfer n p =
    let (to_read, out, p') = read_bytes p n in
    record { ret = ok to_read; pipe = p'; out = out; sigpipe = false; wakes = ltb 0 to_read }

pub write_transfer : List ℕ → Pipe → Outcome
unfolding write_bytes
write_transfer src p =
    let (n, p') = write_bytes p src in
    record { ret = ok n; pipe = p'; out = []; sigpipe = false; wakes = ltb 0 n }

-- pipe_read_buffer(pipe, buf, n). Two rounds of the loop are enough (`Blocking`).
pub read_buffer : List Wake → Wake → ℕ → Ran Outcome
read_buffer ws w n =
    if w.pipe.writers == 0 && w.pipe.count == 0
    then ran (at_eof w.pipe)
    else finish (read_transfer n) (read_loop 2 w ws)

-- pipe_write_buffer(pipe, src, length src)
pub write_buffer : List Wake → Wake → List ℕ → Ran Outcome
write_buffer ws w src =
    if w.pipe.readers == 0
    then ran (broken w.pipe)
    else finish (write_transfer src) (write_loop 2 w ws)

-- The counts that pipe_close_by_id takes down, and whether it was the last close of both ends.
pub close_end : Pipe → Bool → Pipe × Bool
close_end p is_write_end =
    let p' =
      if is_write_end
      then record p { writers = sub32 p.writers 1 }
      else record p { readers = sub32 p.readers 1 } in
    (p', p'.readers == 0 && p'.writers == 0)
