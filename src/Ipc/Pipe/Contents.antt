-- ===== src/Ipc/Pipe/Contents.antt =====
-- The bytes that a pipe holds, oldest first, and its representation invariant.
use unix_os.Prelude.{
  ℕ, ◌+◌, ◌%◌, ◌≤◌, ◌<◌, ◌≡◌, inl, inr, Bool, true, false, List, [], Option, some, arith,
  Option-cases, length, get_or, tabulate, length-tabulate,
}
use unix_os.Ipc.Pipe.{Pipe, pipe_max_size, pipe_buf, clamp_size, create_buffer}

abbrev pub contents : Pipe → List ℕ
contents p = tabulate p.count (λ i. get_or p.bytes ((p.read_pos + i) % p.size) 0)

-- write_pos is where the next byte goes: `count` places after read_pos, round the data area.
pub record IsValid (p : Pipe) : Type 0 where
  pub storage : length p.bytes ≡ p.size
  pub nonempty : 0 < p.size
  pub small : p.size ≤ pipe_max_size
  pub read_in : p.read_pos < p.size
  pub write_at : p.write_pos ≡ (p.read_pos + p.count) % p.size
  pub count_in : p.count ≤ p.size

pub length-contents : (p : Pipe) → length (contents p) ≡ p.count
length-contents p = length-tabulate p.count _

-- A pipe that pipe_create_buffer returns is valid, empty and of a size from PIPE_BUF to
-- PIPE_MAX_SIZE, if kmalloc returns as many bytes as it is asked for.
pub create_buffer-IsValid :
    (header_ok : Bool) (kmalloc : ℕ → Option (List ℕ)) (size : ℕ) {p : Pipe}
    → ((n : ℕ) (mem : List ℕ) → kmalloc n ≡ some mem → length mem ≡ n)
    → create_buffer header_ok kmalloc size ≡ some p
    → IsValid p × (contents p ≡ []) × (pipe_buf ≤ p.size)
unfolding create_buffer
create_buffer-IsValid false kmalloc size exact e = cc
create_buffer-IsValid true kmalloc size {p} exact e =
    elim (Option-cases (kmalloc (clamp_size size))) [
      | inl refused ↦ ground arith
      | inr (mem, given) ↦ ground (arith, exact (clamp_size size) mem given)
    ]
