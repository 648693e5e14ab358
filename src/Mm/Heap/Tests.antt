-- ===== src/Mm/Heap/Tests.antt =====
-- Two allocations with canaries of 8 bytes, the first of which is freed again.
use unix_os.Prelude.{List, ◌≡◌, ◌+◌, ◌∷◌, [], some, arith, true, false, ◌⊎◌, none, refl, ℕ, ◌<◌}
use unix_os.Mm.Heap.Runs.{run, Call, alloc, free, calls-IsValid, heap_free-used, heap_alloc-used}
use unix_os.Mm.Heap.Tiling.{IsValid, NoFit}
use unix_os.Mm.Heap.{
  heap_alloc, first_fit, heap_init, heap_free, split_block, Block, release, header_size,
  release_after, merge_next, total_size, merge_prev, heap_base, heap_end, heap_size,
}
use unix_os.Mm.Heap.Live.{used, Added, without}

abbrev calls : List Call
calls = alloc 100 ∷ alloc 5000 ∷ free 0x300018 ∷ []

abbrev blocks : List Block
blocks =
    record { addr = 0x300000; size = 132; is_free = true }
    ∷ record { addr = 0x300084; size = 5032; is_free = false }
    ∷ record { addr = 0x30142C; size = 8383444; is_free = true }
    ∷ []

-- The first block was merged with nothing: the second is still in use.
freed_first : run 8 heap_init calls ≡ some blocks
unfolding run heap_alloc first_fit split_block heap_free release release_after merge_next merge_prev
freed_first = refl

-- A pointer into a block is behind no header.
free_inside : heap_free 8 blocks 0x300200 ≡ none
unfolding heap_free
free_inside = refl

calls-IsValid_example : IsValid blocks × (used blocks ≡ [] → blocks ≡ heap_init)
calls-IsValid_example = calls-IsValid 8 calls blocks freed_first

heap_alloc-used_example :
    let (ptr, bs') = heap_alloc 8 blocks 64 in
    ((c : Block) × (ptr ≡ some (c.addr + header_size + 8))
      × Added (total_size 8 64) heap_base heap_end c (used blocks) (used bs'))
    ⊎ ((ptr ≡ none)
        × (bs' ≡ blocks)
        × ((◌≡◌ {A = ℕ} 64 0)
            ⊎ ((heap_size < total_size 8 64 + header_size) ⊎ NoFit (total_size 8 64) blocks)))
heap_alloc-used_example = heap_alloc-used 8 64 blocks (calls-IsValid 8 calls blocks freed_first).0

heap_free-used_example :
    (bs' : List Block) × (heap_free 8 blocks (0x300084 + header_size + 8) ≡ some bs')
    × (used bs' ≡ without 0x300084 (used blocks))
heap_free-used_example =
    heap_free-used 8 0x300084 blocks (calls-IsValid 8 calls blocks freed_first).0 (omega arith)
      (omega arith) refl
