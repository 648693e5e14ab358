-- ===== src/Ipc/Pipe/Transfer.antt =====
-- The copies of pipe_read_buffer and pipe_write_buffer against the list of bytes that a pipe holds.
use native.Mathlib.Nat.{mod-add-mod}
use unix_os.Prelude.{
  drop, take-tabulate, drop-tabulate, sub32, ℕ, ◌+◌, ◌-◌, ◌%◌, ◌≤◌, ◌<◌, min, ◌≡◌, refl, sym, ◌∙◌,
  ap, ap₂, ◌⊎◌, false, List, ◌++◌, arith, ltb, leb, ◌&&◌, if◌then◌else◌, length, get_or, take,
  tabulate, tabulate-ext, tabulate-append, take-eq-tabulate, add32,
}
use unix_os.Ipc.Pipe.{Pipe, copied_in, write_bytes, read_bytes}
use unix_os.Ipc.Pipe.Contents.{IsValid, contents}
use unix_os.Ipc.Pipe.Cyclic.{
  mod_once, copied_in-get_or, length-copied_in, shift_start, copied_out-eq-tabulate,
}

module _ {p : Pipe} (v : IsValid p) where
  -- Reading at most n bytes returns the number and the bytes that it takes from the front of the
  -- contents, and leaves the rest.
  pub read_bytes_lem :
      (n : ℕ)
      → let (to_read, out, p') = read_bytes p n in
        (to_read ≡ min n p.count)
        × (out ≡ take n (contents p))
        × (contents p' ≡ drop n (contents p))
  unfolding read_bytes
  read_bytes_lem n = rw at_most (
    refl,
    copied_out-eq-tabulate p.bytes p.size p.read_pos v.read_in (min n p.count) v.small v.storage
          (omega arith)
        ∙ sym (take-tabulate n p.count _),
    ap (λ k. tabulate k moved) left
        ∙ tabulate-ext (p.count - n) _ _ (λ i h. ap (λ k. get_or p.bytes k 0) (next i h))
        ∙ sym (drop-tabulate n p.count _),
  )
    where
      moved : ℕ → ℕ
      moved i = get_or p.bytes ((add32 p.read_pos (min n p.count) % p.size + i) % p.size) 0

      at_most : (if ltb n p.count then n else p.count) ≡ min n p.count
      at_most = ground arith

      left : sub32 p.count (min n p.count) ≡ p.count - n
      left = omega arith

      next :
          (i : ℕ)
          → i < p.count - n
          → (add32 p.read_pos (min n p.count) % p.size + i) % p.size
            ≡ (p.read_pos + (n + i)) % p.size
      next i h =
          shift_start p.size p.read_pos (min n p.count) i v.read_in v.small (omega arith)
          ∙ ap (λ k. k % p.size) (omega arith)

  pub read_bytes-IsValid : (n : ℕ) → IsValid (read_bytes p n).2
  unfolding read_bytes
  read_bytes-IsValid n = ground (
    arith,
    mod_once p.size (p.read_pos + p.count),
    mod_once p.size (p.read_pos + min n p.count),
    mod_once p.size ((p.read_pos + min n p.count) % p.size + (p.count - min n p.count)),
  )

-- Where the cells of the window lie relative to the range that is written.
module _ (size pos count room wp i : ℕ) (pos_in : pos < size) (fits : count + room ≤ size)
    (at : wp ≡ (pos + count) % size) where
  old_cell :
      i < count
      → let j = (pos + i) % size in
        (j < size)
        × ((leb wp j && ltb j (wp + room)) ≡ false)
        × (ltb (j + size) (wp + room) ≡ false)
  old_cell h = ground (arith, mod_once size (pos + i), mod_once size (pos + count))

  new_cell :
      i < room
      → let j = (pos + (count + i)) % size in
        (j < size)
        × (((wp ≤ j) × (j < wp + room) × (j - wp ≡ i))
            ⊎ ((j < wp) × (j + size < wp + room) × (j + size - wp ≡ i)))
  new_cell h = ground (arith, mod_once size (pos + (count + i)), mod_once size (pos + count))

-- What pipe_write_buffer leaves in the cells of the window: the old bytes, then the new ones.
module _ {p : Pipe} (v : IsValid p) (src : List ℕ) where
  open p use {bytes, size, read_pos, write_pos, count}

  abbrev room : ℕ
  room = min (length src) (size - count)

  stored : List ℕ
  stored = copied_in bytes size write_pos room src

  write_in : write_pos < size
  write_in = ground (arith, mod_once size (read_pos + count), v.write_at)

  stored-get_or :
      (j : ℕ)
      → j < size
      → get_or stored j 0 ≡ (
          if leb write_pos j && ltb j (write_pos + room)
          then get_or src (j - write_pos) 0
          else (if ltb (j + size) (write_pos + room)
              then get_or src (j + size - write_pos) 0
              else get_or bytes j 0))
  unfolding stored
  stored-get_or =
      copied_in-get_or bytes size write_pos room src write_in v.small v.storage (omega arith)
        (omega arith)

  stored_old :
      (i : ℕ)
      → i < count
      → get_or stored ((read_pos + i) % size) 0 ≡ get_or bytes ((read_pos + i) % size) 0
  stored_old i h =
      let (j_in, below, above) =
        old_cell size read_pos count room write_pos i v.read_in (omega arith) v.write_at h in
      ground (arith, stored-get_or ((read_pos + i) % size), j_in, below, above)

  stored_new :
      (i : ℕ) → i < room → get_or stored ((read_pos + (count + i)) % size) 0 ≡ get_or src i 0
  stored_new i h = ground (
    arith,
    stored-get_or ((read_pos + (count + i)) % size),
    new_cell size read_pos count room write_pos i v.read_in (omega arith) v.write_at h,
  )

module _ {p : Pipe} (v : IsValid p) (src : List ℕ) where
  -- Writing takes as many bytes as there is room for, appends exactly those to the contents, in
  -- order, and returns their number.
  pub write_bytes_lem :
      let (n, p') = write_bytes p src in
      (n ≡ min (length src) (p.size - p.count))
      × (contents p' ≡ contents p ++ take (p.size - p.count) src)
  unfolding write_bytes stored
  write_bytes_lem = rw at_most (refl, cells)
    where
      at_most :
          (if ltb (length src) (sub32 p.size p.count) then length src else sub32 p.size p.count)
          ≡ room v src
      at_most = ground arith

      window : ℕ → ℕ
      window i = get_or (stored v src) ((p.read_pos + i) % p.size) 0

      total : add32 p.count (room v src) ≡ p.count + room v src
      total = omega arith

      cells :
          tabulate (add32 p.count (room v src)) window ≡ contents p ++ take (p.size - p.count) src
      cells =
          ap (λ k. tabulate k window) total
          ∙ sym (tabulate-append p.count (room v src) window)
          ∙ ap₂ ◌++◌ (tabulate-ext p.count _ _ (stored_old v src)) (
              tabulate-ext (room v src) _ _ (stored_new v src)
              ∙ sym (take-eq-tabulate (p.size - p.count) src 0))

  next_write :
      add32 p.write_pos (room v src) % p.size ≡ (p.read_pos + add32 p.count (room v src)) % p.size
  next_write =
      ap (λ k. k % p.size) flat
      ∙ ap (λ k. (k + room v src) % p.size) v.write_at
      ∙ mod-add-mod (p.read_pos + p.count) p.size (room v src)
      ∙ ap (λ k. k % p.size) regroup
    where
      flat : add32 p.write_pos (room v src) ≡ p.write_pos + room v src
      flat = omega (arith, write_in v src)

      regroup : p.read_pos + p.count + room v src ≡ p.read_pos + add32 p.count (room v src)
      regroup = omega arith

  pub write_bytes-IsValid : IsValid (write_bytes p src).1
  unfolding write_bytes
  write_bytes-IsValid = rw at_most (record {
    storage = length-copied_in p.bytes p.size p.write_pos (room v src) src ∙ v.storage;
    nonempty = v.nonempty;
    small = v.small;
    read_in = v.read_in;
    write_at = next_write;
    count_in = omega arith;
  })
    where
      at_most :
          (if ltb (length src) (sub32 p.size p.count) then length src else sub32 p.size p.count)
          ≡ room v src
      at_most = ground arith
