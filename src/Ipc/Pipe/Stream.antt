-- ===== src/Ipc/Pipe/Stream.antt =====
-- Any sequence of calls on one pipe, by any processes: no byte is lost, made up or reordered.
-- Each call is one critical section; a call that would sleep changes nothing and may be made again.
use unix_os.Ipc.Pipe.{
  Pipe, Wake, Outcome, ran, read_buffer, write_buffer, read_loop, write_loop, close_end,
  read_transfer, write_transfer, Ran, asleep, out_of_fuel, wait_event_locked, at_eof, broken,
  failed,
}
use unix_os.Prelude.{
  Bool, List, Result, [], ℕ, ◌∷◌, ok, take, err, ◌++◌, arith, ◌≡◌, ◌∙◌, ap, sym, take-append-drop,
  take-min-length, ap₂, ◌-◌, ◌⊎◌, eagain, eintr, true, false,
}
use unix_os.Ipc.Pipe.Contents.{IsValid, contents}
use mathlib.Core.List.{append-nil, append_assoc}
use unix_os.Ipc.Pipe.Transfer.{
  read_bytes-IsValid, write_bytes-IsValid, write_bytes_lem, read_bytes_lem,
}

pub data Op : Type 0 where
  reads : Bool → ℕ → Op
  writes : Bool → List ℕ → Op
  closes : Bool → Op

-- What one call moves: the bytes it delivers, the bytes it accepts, and the pipe after it.
pub record Moved : Type 0 where
  pub out : List ℕ
  pub taken : List ℕ
  pub pipe : Pipe

abbrev accepted : Result ℕ → List ℕ → List ℕ
accepted (ok n) src = take n src
accepted (err e) src = []

abbrev delivered : Pipe → Ran Outcome → Moved
delivered p (ran o) = record { out = o.out; taken = []; pipe = o.pipe }
delivered p asleep = record { out = []; taken = []; pipe = p }
delivered p out_of_fuel = record { out = []; taken = []; pipe = p }

abbrev stored : Pipe → List ℕ → Ran Outcome → Moved
stored p src (ran o) = record { out = []; taken = accepted o.ret src; pipe = o.pipe }
stored p src asleep = record { out = []; taken = []; pipe = p }
stored p src out_of_fuel = record { out = []; taken = []; pipe = p }

pub step : Pipe → Op → Moved
step p (reads signal n) = delivered p (read_buffer [] (record { pipe = p; signal = signal }) n)
step p (writes signal src) =
    stored p src (write_buffer [] (record { pipe = p; signal = signal }) src)
step p (closes e) = record { out = []; taken = []; pipe = (close_end p e).0 }

pub run : Pipe → List Op → Moved
run p [] = record { out = []; taken = []; pipe = p }
run p (op ∷ ops) =
    let m = step p op in
    let r = run m.pipe ops in
    record { out = m.out ++ r.out; taken = m.taken ++ r.taken; pipe = r.pipe }

-- A call keeps the pipe valid, and moves bytes in at the back and out at the front.
record Keeps (p : Pipe) (m : Moved) : Type 0 where
  valid : IsValid m.pipe
  fifo : contents p ++ m.taken ≡ m.out ++ contents m.pipe

Keeps-refl : (p : Pipe) → IsValid p → Keeps p (record { out = []; taken = []; pipe = p })
Keeps-refl p v = record { valid = v; fifo = append-nil (contents p) }

read_transfer-Keeps :
    {p : Pipe} → IsValid p → (n : ℕ) → Keeps p (delivered p (ran (read_transfer n p)))
unfolding read_transfer
read_transfer-Keeps {p} v n = record {
  valid = read_bytes-IsValid v n;
  fifo =
      append-nil (contents p)
      ∙ sym (take-append-drop n (contents p))
      ∙ sym (ap₂ ◌++◌ (read_bytes_lem v n).1 (read_bytes_lem v n).2);
}

write_transfer-Keeps :
    {p : Pipe} → IsValid p → (src : List ℕ) → Keeps p (stored p src (ran (write_transfer src p)))
unfolding write_transfer
write_transfer-Keeps {p} v src = record {
  valid = write_bytes-IsValid v src;
  fifo =
      ap (λ xs. contents p ++ xs)
        (ap (λ k. take k src) (write_bytes_lem v src).0 ∙ take-min-length (p.size - p.count) src)
      ∙ sym (write_bytes_lem v src).1;
}

-- How a call ends that may not sleep through any wake-up.
read_now_cases :
    (w : Wake) (n : ℕ)
    → let r = read_buffer [] w n in
      (r ≡ asleep)
      ⊎ (r ≡ ran (at_eof w.pipe))
      ⊎ (r ≡ ran (failed w.pipe eagain))
      ⊎ (r ≡ ran (failed w.pipe eintr))
      ⊎ (r ≡ ran (read_transfer n w.pipe))
unfolding read_buffer read_loop wait_event_locked
read_now_cases w n = ground arith

write_now_cases :
    (w : Wake) (src : List ℕ)
    → let r = write_buffer [] w src in
      (r ≡ asleep)
      ⊎ (r ≡ ran (broken w.pipe))
      ⊎ (r ≡ ran (failed w.pipe eagain))
      ⊎ (r ≡ ran (failed w.pipe eintr))
      ⊎ (r ≡ ran (write_transfer src w.pipe))
unfolding write_buffer write_loop wait_event_locked
write_now_cases w src = ground arith

step-Keeps : {p : Pipe} → IsValid p → (op : Op) → Keeps p (step p op)
unfolding step close_end
step-Keeps {p} v (reads signal n) = ground (
  arith,
  read_now_cases (record { pipe = p; signal = signal }) n,
  Keeps-refl p v,
  read_transfer-Keeps v n,
)
step-Keeps {p} v (writes signal src) = ground (
  arith,
  write_now_cases (record { pipe = p; signal = signal }) src,
  Keeps-refl p v,
  write_transfer-Keeps v src,
)
step-Keeps {p} v (closes true) = record { valid = omega arith; fifo = append-nil (contents p) }
step-Keeps {p} v (closes false) = record { valid = omega arith; fifo = append-nil (contents p) }

-- Whatever calls are made, in whatever order, a valid pipe stays valid, and the bytes that it held
-- followed by all that writers were told it took are the bytes delivered to readers followed by
-- those that it still holds.
pub run_fifo :
    (ops : List Op) {p : Pipe}
    → IsValid p
    → let m = run p ops in IsValid m.pipe × (contents p ++ m.taken ≡ m.out ++ contents m.pipe)
unfolding run
run_fifo [] {p} v = (v, append-nil (contents p))
run_fifo (op ∷ ops) {p} v =
    let here = step-Keeps v op in
    let rest = run_fifo ops here.valid in
    (
      rest.0,
      sym (append_assoc (contents p) _ _)
          ∙ ap (λ xs. xs ++ (run (step p op).pipe ops).taken) here.fifo
          ∙ append_assoc (step p op).out _ _
          ∙ ap (λ xs. (step p op).out ++ xs) rest.1
          ∙ sym (append_assoc (step p op).out _ _),
    )
