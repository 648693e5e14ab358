-- ===== src/Ipc/Pipe/Calls.antt =====
-- What pipe_read_buffer and pipe_write_buffer return on each of their branches.
use unix_os.Ipc.Pipe.Contents.{IsValid, contents}
use unix_os.Ipc.Pipe.Transfer.{read_bytes_lem, write_bytes_lem}
use unix_os.Ipc.Pipe.{
  Wake, Outcome, ran, read_buffer, write_buffer, read_loop, write_loop, read_transfer,
  write_transfer, at_eof, failed, broken, is_nonblock,
}
use unix_os.Prelude.{
  List, ℕ, ◌≢◌, ◌≡◌, arith, ok, min, take, length, drop, ◌-◌, ltb, ◌++◌, true, eagain, false, eintr,
  ap,
}

read_leaves :
    (ws : List Wake) (w : Wake) (n : ℕ)
    → w.pipe.count ≢ 0
    → read_buffer ws w n ≡ ran (read_transfer n w.pipe)
unfolding read_buffer read_loop
read_leaves ws w n h = ground arith

write_leaves :
    (ws : List Wake) (w : Wake) (src : List ℕ)
    → w.pipe.readers ≢ 0
    → w.pipe.count ≢ w.pipe.size
    → write_buffer ws w src ≡ ran (write_transfer src w.pipe)
unfolding write_buffer write_loop
write_leaves ws w src h k = ground arith

-- From a valid pipe that holds bytes a read never sleeps: it returns the least of n and their
-- number, delivers that many from the front, leaves the rest, and wakes the writers unless it moved
-- nothing. An empty pipe gives end of file if no writer is left, and otherwise EAGAIN if the pipe is
-- non-blocking and EINTR if a signal is pending; none of these changes the pipe.
pub read_buffer_cases :
    (ws : List Wake) (w : Wake) (n : ℕ)
    → IsValid w.pipe
    → (w.pipe.count ≢ 0
        → (o : Outcome) × (read_buffer ws w n ≡ ran o)
          × (o.ret ≡ ok (min n w.pipe.count))
          × (o.out ≡ take n (contents w.pipe))
          × (contents o.pipe ≡ drop n (contents w.pipe))
          × (o.wakes ≡ ltb 0 (min n w.pipe.count)))
      × (w.pipe.count ≡ 0 → w.pipe.writers ≡ 0 → read_buffer ws w n ≡ ran (at_eof w.pipe))
      × (w.pipe.count ≡ 0
          → w.pipe.writers ≢ 0
          → is_nonblock w.pipe ≡ true
          → read_buffer ws w n ≡ ran (failed w.pipe eagain))
      × (w.pipe.count ≡ 0
          → w.pipe.writers ≢ 0
          → is_nonblock w.pipe ≡ false
          → w.signal ≡ true
          → read_buffer ws w n ≡ ran (failed w.pipe eintr))
unfolding read_buffer read_loop read_transfer
read_buffer_cases ws w n v = (
  λ h. (
    read_transfer n w.pipe,
    read_leaves ws w n h,
    ap ok (read_bytes_lem v n).0,
    (read_bytes_lem v n).1,
    (read_bytes_lem v n).2,
    ap (ltb 0) (read_bytes_lem v n).0,
  ),
  λ h k. ground arith,
  λ h k m. ground arith,
  λ h k m s. ground arith,
)

-- With a reader and room left in a valid pipe a write never sleeps: it returns the least of the
-- room and the length of src, appends that many bytes of src to the contents, and wakes the readers
-- unless it moved nothing. Without a reader it raises SIGPIPE and returns EPIPE; a full pipe gives
-- EAGAIN if it is non-blocking and otherwise EINTR if a signal is pending; none of these changes the
-- pipe.
pub write_buffer_cases :
    (ws : List Wake) (w : Wake) (src : List ℕ)
    → IsValid w.pipe
    → (w.pipe.readers ≢ 0
        → w.pipe.count ≢ w.pipe.size
        → (o : Outcome) × (write_buffer ws w src ≡ ran o)
          × (o.ret ≡ ok (min (length src) (w.pipe.size - w.pipe.count)))
          × (contents o.pipe ≡ contents w.pipe ++ take (w.pipe.size - w.pipe.count) src)
          × (o.wakes ≡ ltb 0 (min (length src) (w.pipe.size - w.pipe.count))))
      × (w.pipe.readers ≡ 0 → write_buffer ws w src ≡ ran (broken w.pipe))
      × (w.pipe.readers ≢ 0
          → w.pipe.count ≡ w.pipe.size
          → is_nonblock w.pipe ≡ true
          → write_buffer ws w src ≡ ran (failed w.pipe eagain))
      × (w.pipe.readers ≢ 0
          → w.pipe.count ≡ w.pipe.size
          → is_nonblock w.pipe ≡ false
          → w.signal ≡ true
          → write_buffer ws w src ≡ ran (failed w.pipe eintr))
unfolding write_buffer write_loop write_transfer
write_buffer_cases ws w src v = (
  λ h k. (
    write_transfer src w.pipe,
    write_leaves ws w src h k,
    ap ok (write_bytes_lem v src).0,
    (write_bytes_lem v src).1,
    ap (ltb 0) (write_bytes_lem v src).0,
  ),
  λ h. ground arith,
  λ h k m. ground arith,
  λ h k m s. ground arith,
)
