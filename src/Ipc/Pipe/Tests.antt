-- ===== src/Ipc/Pipe/Tests.antt =====
-- A pipe of four bytes that holds 8 and 9 round the end of its data area, and the theorems at it.
use unix_os.Ipc.Pipe.{
  Pipe, Wake, Outcome, ran, read_bytes, write_bytes, read_buffer, write_buffer, create_buffer,
  asleep, out_of_fuel, write_transfer,
}
use unix_os.Prelude.{
  ◌∷◌, false, [], arith, ◌≡◌, ◌≤◌, ℕ, replicate, true, ◌≢◌, ok, refl, Option, List, some, length,
  length-replicate, ◌++◌,
}
use unix_os.Ipc.Pipe.Contents.{IsValid, contents, create_buffer-IsValid}
use unix_os.Ipc.Pipe.Transfer.{read_bytes_lem, write_bytes_lem}
use unix_os.Ipc.Pipe.Stream.{run, reads, writes, closes, run_fifo}
use unix_os.Ipc.Pipe.Blocking.{read_buffer_sleeps, buffer_calls_end, write_buffer_sleeps}
use unix_os.Ipc.Pipe.Calls.{read_buffer_cases, write_buffer_cases}

abbrev wrapped : Pipe
wrapped = record {
  bytes = 9 ∷ 0 ∷ 0 ∷ 8 ∷ [];
  size = 4;
  read_pos = 3;
  write_pos = 1;
  count = 2;
  readers = 1;
  writers = 1;
  flags = 0;
}

abbrev full : Pipe
full = record wrapped { bytes = 9 ∷ 1 ∷ 2 ∷ 8 ∷ []; write_pos = 3; count = 4 }

abbrev drained : Pipe
drained = record wrapped { read_pos = 1; count = 0 }

abbrev found : Pipe → Wake
found p = record { pipe = p; signal = false }

wrapped-IsValid : IsValid wrapped
wrapped-IsValid = omega arith

contents-wrapped : contents wrapped ≡ 8 ∷ 9 ∷ []
contents-wrapped = refl

-- kmalloc of memory that is all zero
abbrev zeroed : ℕ → Option (List ℕ)
zeroed n = some (replicate n 0)

abbrev created : Pipe
created = record drained {
  bytes = replicate 4096 0;
  size = 4096;
  read_pos = 0;
  write_pos = 0;
  readers = 0;
  writers = 0;
}

zeroed_exact : (n : ℕ) (mem : List ℕ) → zeroed n ≡ some mem → length mem ≡ n
zeroed_exact n mem e = ground (arith, length-replicate {A = ℕ} n 0)

create_buffer-zeroed : create_buffer true zeroed 100 ≡ some created
unfolding create_buffer
create_buffer-zeroed = refl

created-IsValid : IsValid created × (contents created ≡ []) × (4096 ≤ 4096)
created-IsValid = create_buffer-IsValid true zeroed 100 zeroed_exact create_buffer-zeroed

read_bytes_lem_example :
    let (to_read, out, p) = read_bytes wrapped 1 in
    (to_read ≡ 1) × (out ≡ 8 ∷ []) × (contents p ≡ 9 ∷ [])
read_bytes_lem_example = read_bytes_lem wrapped-IsValid 1

write_bytes_lem_example :
    let (n, p) = write_bytes wrapped (1 ∷ 2 ∷ 3 ∷ []) in (n ≡ 2) × (contents p ≡ 8 ∷ 9 ∷ 1 ∷ 2 ∷ [])
write_bytes_lem_example = write_bytes_lem wrapped-IsValid (1 ∷ 2 ∷ 3 ∷ [])

buffer_calls_end_example :
    (read_buffer (found wrapped ∷ []) (found drained) 3 ≢ out_of_fuel)
    × (write_buffer (found wrapped ∷ []) (found drained) (1 ∷ []) ≢ out_of_fuel)
buffer_calls_end_example = buffer_calls_end (found drained) (found wrapped ∷ []) 3 (1 ∷ [])

-- The reader sleeps through a wake-up with a signal pending.
read_buffer_sleeps_applied :
    (read_buffer (record { pipe = drained; signal = true } ∷ []) (found drained) 3 ≡ asleep)
    × (read_buffer (record { pipe = drained; signal = true } ∷ found wrapped ∷ []) (found drained) 3
        ≡ read_buffer [] (found wrapped) 3)
read_buffer_sleeps_applied =
    read_buffer_sleeps (found drained) (record { pipe = drained; signal = true } ∷ [])
      (found wrapped) [] 3 (refl, omega arith, refl, refl) (refl, tt) refl

-- The last reader drains the pipe and closes it: the sleeping writer still succeeds.
write_buffer_sleeps_example :
    (write_buffer [] (found full) (5 ∷ []) ≡ asleep)
    × (write_buffer (found (record drained { readers = 0 }) ∷ []) (found full) (5 ∷ [])
        ≡ ran (write_transfer (5 ∷ []) (record drained { readers = 0 })))
write_buffer_sleeps_example =
    write_buffer_sleeps (found full) [] (found (record drained { readers = 0 })) [] (5 ∷ [])
      (refl, omega arith, refl, refl) tt refl

read_buffer_cases_example :
    (o : Outcome) × (read_buffer [] (found wrapped) 9 ≡ ran o)
    × (o.ret ≡ ok 2)
    × (o.out ≡ 8 ∷ 9 ∷ [])
    × (contents o.pipe ≡ [])
    × (o.wakes ≡ true)
read_buffer_cases_example = (read_buffer_cases [] (found wrapped) 9 wrapped-IsValid).0 (omega arith)

write_buffer_cases_example :
    (o : Outcome) × (write_buffer [] (found wrapped) (1 ∷ 2 ∷ 3 ∷ []) ≡ ran o)
    × (o.ret ≡ ok 2)
    × (contents o.pipe ≡ 8 ∷ 9 ∷ 1 ∷ 2 ∷ [])
    × (o.wakes ≡ true)
write_buffer_cases_example =
    (write_buffer_cases [] (found wrapped) (1 ∷ 2 ∷ 3 ∷ []) wrapped-IsValid).0 (omega arith)
      (omega arith)

run_fifo_example :
    let m = run wrapped (reads false 1 ∷ writes false (1 ∷ 2 ∷ []) ∷ closes true ∷ []) in
    IsValid m.pipe × ((8 ∷ 9 ∷ []) ++ m.taken ≡ m.out ++ contents m.pipe)
run_fifo_example =
    run_fifo (reads false 1 ∷ writes false (1 ∷ 2 ∷ []) ∷ closes true ∷ []) wrapped-IsValid
