-- ===== src/Mm/Heap.antt =====
-- src/kernel/mm/heap.c: the kernel heap. The list of blocks is in the order of the `next` pointers; what
-- stands before and after a block in it are its `prev` and its `next`. A header is 16 bytes.
-- `canary` is KASAN_CANARY_BYTES, or 0 in a kernel without KASAN; the checks of canaries and poison, which end
-- in a panic, are left out.
pub mod Tiling
pub mod Live
pub mod Runs
mod Tests
use unix_os.Prelude.{
  ℕ, List, Bool, true, ◌+◌, Option, ◌∷◌, not, ◌-◌, [], if◌then◌else◌, none, ◌*◌, ◌&&◌, ltb, ◌/◌,
  ◌==◌, some, ◌||◌, false, leb, ◌++◌,
}

-- block_header_t, with the address it stands at.
pub record Block : Type 0 where
  pub addr : ℕ
  pub size : ℕ
  pub is_free : Bool

abbrev pub heap_base : ℕ
heap_base = 0x300000

abbrev pub heap_size : ℕ
heap_size = 0x800000

abbrev pub heap_end : ℕ
heap_end = 0xB00000

abbrev pub header_size : ℕ
header_size = 16

-- heap_init
abbrev pub heap_init : List Block
heap_init = record { addr = heap_base; size = heap_size; is_free = true } ∷ []

-- split_block: the block, and the new one behind it if it is split
pub split_block : Block → ℕ → Block × List Block
split_block b size =
    let rest = b.addr + size in
    if ltb (size + header_size + 16) b.size && not (ltb rest heap_base || leb heap_end rest)
    then (
      record b { size = size },
      record { addr = rest; size = b.size - size; is_free = true } ∷ [],
    )
    else (b, [])

-- The rest of the loop, with the block that was passed over.
abbrev pub later_fit : Block → Option (Block × List Block) → Option (Block × List Block)
later_fit b none = none
later_fit b (some (c, bs')) = some (c, b ∷ bs')

-- The loop of heap_alloc: the first fit after the split, and the blocks.
pub first_fit : ℕ → List Block → Option (Block × List Block)
unfolding split_block
first_fit total [] = none
first_fit total (b ∷ bs) =
    let later = later_fit b (first_fit total bs) in
    let (c, rest) = split_block (record b { is_free = false }) total in
    if b.is_free && leb total b.size then some (c, c ∷ rest ++ bs) else later

-- kasan_raw_size, rounded up to a multiple of 4, and a header
abbrev pub total_size : ℕ → ℕ → ℕ
total_size canary size = (size + 2 * canary + 3) / 4 * 4 + header_size

-- heap_alloc: the address for the user, and the blocks
pub heap_alloc : ℕ → List Block → ℕ → Option ℕ × List Block
unfolding first_fit
heap_alloc canary bs size =
    if size == 0
      || (ltb (heap_size - header_size * 2) size || ltb heap_size (total_size canary size))
    then (none, bs)
    else elim (first_fit (total_size canary size) bs) [
      | none ↦ (none, bs)
      | some (b, bs') ↦ (some (b.addr + header_size + canary), bs')
    ]

-- The first part of merge_free_blocks: the next block is taken in if it is free.
pub merge_next : Block → List Block → Block × List Block
merge_next b [] = (b, [])
merge_next b (n ∷ bs) = if n.is_free then (record b { size = b.size + n.size }, bs) else (b, n ∷ bs)

-- The second part: the block is taken in by the one before it if that is free.
pub merge_prev : Block → Block × List Block → List Block
merge_prev p (b, bs) = if p.is_free then record p { size = p.size + b.size } ∷ bs else p ∷ b ∷ bs

-- The checks of heap_free on the header at an address.
abbrev pub is_freeable : Block → Bool
is_freeable b =
    not b.is_free
    && not (b.size == 0 || (ltb heap_size b.size || ltb b.size header_size))
    && not (ltb heap_end (b.addr + b.size))

-- The block that becomes free, merged with its next one.
abbrev pub freed : Block → List Block → Block × List Block
freed b bs = merge_next (record b { is_free = true }) bs

abbrev pub is_target : List Block → ℕ → Bool
is_target [] a = false
is_target (b ∷ bs) a = b.addr == a && is_freeable b

-- heap_free from the address of the block on, for a block with another before it.
pub release_after : Block → List Block → ℕ → List Block
unfolding merge_next merge_prev
release_after p [] a = p ∷ []
release_after p (b ∷ bs) a =
    let later = release_after b bs a in
    if is_target (b ∷ bs) a then merge_prev p (freed b bs) else p ∷ later

-- heap_free from the address of a block of the list on.
pub release : List Block → ℕ → List Block
unfolding release_after merge_next
release [] a = []
release (b ∷ bs) a =
    let (c, cs) = freed b bs in if is_target (b ∷ bs) a then c ∷ cs else release_after b bs a

-- Whether the header of a block stands at an address.
abbrev pub has_block : List Block → ℕ → Bool
has_block [] a = false
has_block (b ∷ bs) a = b.addr == a || has_block bs a

-- heap_free of a pointer that is not NULL. The code takes what memory holds before the pointer for a header;
-- where that is no header of a block, what it does is not described, and the result is none.
pub heap_free : ℕ → List Block → ℕ → Option (List Block)
unfolding release
heap_free canary bs ptr =
    let a = ptr - canary - header_size in
    if ltb a heap_base || leb heap_end a
    then some bs
    else (if has_block bs a then some (release bs a) else none)
