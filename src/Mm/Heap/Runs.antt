-- ===== src/Mm/Heap/Runs.antt =====
-- heap_alloc, heap_free and sequences of them.
use mathlib.Core.Option.{some-injective}
use unix_os.Mm.Heap.{
  heap_alloc, heap_free, Block, heap_init, heap_base, header_size, heap_end, total_size, release,
  heap_size, first_fit, has_block,
}
use unix_os.Prelude.{
  ℕ, List, Option, ◌-◌, ◌<◌, ◌≡◌, [], some, ◌≤◌, none, ◌+◌, ltb, arith, ◌||◌, false, refl, leb,
  true, if◌then◌else◌, ◌∷◌, ◌⊎◌, inr, ap, inl, ◌==◌, ◌*◌, Bool-cases, subst, Option-cases,
}
use unix_os.Mm.Heap.Tiling.{
  IsValid, Tiles, Coalesced, release-Tiles, NoFit, release-Coalesced, Fitted, Fit-Tiles,
  Fit-Coalesced, first_fit-Fitted,
}
use unix_os.Mm.Heap.Live.{used, Added, without, used-release, Fit-Added}

heap_alloc-IsValid :
    (canary size : ℕ) (bs : List Block) → IsValid bs → IsValid (heap_alloc canary bs size).1
unfolding heap_alloc
heap_alloc-IsValid canary size bs v =
    elim (size == 0
        || (ltb (heap_size - header_size * 2) size || ltb heap_size (total_size canary size)))
      as (λ t.
        IsValid ((if t then (none, bs) else pick (first_fit (total_size canary size) bs)).1)) [
          | true ↦ v
          | false ↦
              step (first_fit (total_size canary size) bs)
                (first_fit-Fitted (total_size canary size) bs)
        ]
  where
    pick : Option (Block × List Block) → Option ℕ × List Block
    pick o = elim o [
      | none ↦ (none, bs)
      | some (b, bs') ↦ (some (b.addr + header_size + canary), bs')
    ]

    step :
        (o : Option (Block × List Block))
        → Fitted (total_size canary size) bs o
        → IsValid (pick o).1
    step none f = v
    step (some (b, bs')) f = record {
      tiles = Fit-Tiles heap_base heap_end (omega arith) f v.tiles;
      coalesced = Fit-Coalesced false f v.coalesced;
    }

heap_free-IsValid :
    (canary ptr : ℕ) (bs bs' : List Block)
    → IsValid bs
    → heap_free canary bs ptr ≡ some bs'
    → IsValid bs'
unfolding heap_free
heap_free-IsValid canary ptr bs bs' v e =
    let a = ptr - canary - header_size in
    elim (Bool-cases (ltb a heap_base || leb heap_end a)) [
      | inl o ↦ subst IsValid (some-injective bs bs' (ground (arith, e, o))) v
      | inr o ↦ elim (Bool-cases (has_block bs a)) [
        | inl h ↦
            subst IsValid (some-injective (release bs a) bs' (ground (arith, e, o, h))) (record {
              tiles = release-Tiles bs a heap_base heap_end v.tiles;
              coalesced = release-Coalesced bs a v.coalesced;
            })
        | inr h ↦ absurd (ground (arith, e, o, h))
      ]
    ]

pub data Call : Type 0 where
  alloc : ℕ → Call
  free : ℕ → Call

-- The blocks after a sequence of calls, none where a heap_free has a result that is not described.
unfoldable pub run : ℕ → List Block → List Call → Option (List Block)
run canary bs [] = some bs
run canary bs (alloc size ∷ ks) = run canary (heap_alloc canary bs size).1 ks
run canary bs (free ptr ∷ ks) = elim (heap_free canary bs ptr) [
  | none ↦ none
  | some bs' ↦ run canary bs' ks
]

run-keeps :
    (canary : ℕ) (bs bs' : List Block) (ks : List Call)
    → IsValid bs
    → run canary bs ks ≡ some bs'
    → IsValid bs'
unfolding run
run-keeps canary bs bs' [] v e = subst IsValid (some-injective bs bs' e) v
run-keeps canary bs bs' (alloc size ∷ ks) v e =
    run-keeps canary (heap_alloc canary bs size).1 bs' ks (heap_alloc-IsValid canary size bs v) e
run-keeps canary bs bs' (free ptr ∷ ks) v e = elim (Option-cases (heap_free canary bs ptr)) [
  | inl f ↦ absurd (ground (arith, e, f))
  | inr (cs, f) ↦
      run-keeps canary cs bs' ks (heap_free-IsValid canary ptr bs cs v f) (ground (arith, e, f))
]

all_free :
    (bs : List Block) (a e : ℕ)
    → a < e
    → Tiles a e bs
    → Coalesced false bs
    → used bs ≡ []
    → bs ≡ record { addr = a; size = e - a; is_free = true } ∷ []
all_free [] a e l t c u = absurd (omega arith)
all_free (b ∷ []) a e l (p, q, t) (g, c) u = ground arith
all_free (b ∷ n ∷ bs) a e l (p, q, t) (g, (h, c)) u = absurd (ground arith)

-- From the start, after any sequence of heap_alloc calls and of heap_free calls with pointers behind the
-- header of a block or outside the arena, the blocks fill the arena without a gap or an overlap and no two
-- neighbours are free; and when no block is in use, they are the one block of heap_init again.
pub calls-IsValid :
    (canary : ℕ) (ks : List Call) (bs : List Block)
    → run canary heap_init ks ≡ some bs
    → IsValid bs × (used bs ≡ [] → bs ≡ heap_init)
calls-IsValid canary ks bs e =
    let v =
      run-keeps canary heap_init bs ks
        (record { tiles = (refl, omega arith, omega arith); coalesced = (refl, tt) }) e in
    (v, all_free bs heap_base heap_end (omega arith) v.tiles v.coalesced)

-- A heap_alloc of a valid heap returns a new block: large enough for the canaries and the size
-- rounded up, inside the arena, apart from all that are in use, which stay in use. Or it returns
-- NULL and changes nothing: for a size of 0 or beyond the arena, or where no free block is large
-- enough.
pub heap_alloc-used :
    (canary size : ℕ) (bs : List Block)
    → IsValid bs
    → let (ptr, bs') = heap_alloc canary bs size in
      ((c : Block) × (ptr ≡ some (c.addr + header_size + canary))
        × Added (total_size canary size) heap_base heap_end c (used bs) (used bs'))
      ⊎ ((ptr ≡ none)
          × (bs' ≡ bs)
          × ((size ≡ 0)
              ⊎ ((heap_size < total_size canary size + header_size)
                  ⊎ NoFit (total_size canary size) bs)))
unfolding heap_alloc
heap_alloc-used canary size bs v =
    let total = total_size canary size in
    let test = size == 0 || (ltb (heap_size - header_size * 2) size || ltb heap_size total) in
    elim test as (λ t. test ≡ t → Spec (if t then (none, bs) else pick (first_fit total bs))) [
      | true ↦ λ e. inr (refl, refl, why e)
      | false ↦ λ e. step (first_fit total bs) (first_fit-Fitted total bs)
    ]
      refl
  where
    pick : Option (Block × List Block) → Option ℕ × List Block
    pick o = elim o [
      | none ↦ (none, bs)
      | some (b, bs') ↦ (some (b.addr + header_size + canary), bs')
    ]

    Spec : Option ℕ × List Block → Type 0
    Spec (ptr, bs') =
        ((c : Block) × (ptr ≡ some (c.addr + header_size + canary))
          × Added (total_size canary size) heap_base heap_end c (used bs) (used bs'))
        ⊎ ((ptr ≡ none)
            × (bs' ≡ bs)
            × ((size ≡ 0)
                ⊎ ((heap_size < total_size canary size + header_size)
                    ⊎ NoFit (total_size canary size) bs)))

    step : (o : Option (Block × List Block)) → Fitted (total_size canary size) bs o → Spec (pick o)
    step none f = inr (refl, refl, inr (inr f))
    step (some (b, bs')) f = inl (b, refl, Fit-Added heap_base heap_end f v.tiles)

    why :
        (size == 0
            || (ltb (heap_size - header_size * 2) size || ltb heap_size (total_size canary size)))
          ≡ true
        → (size ≡ 0)
          ⊎ ((heap_size < total_size canary size + header_size) ⊎ NoFit (total_size canary size) bs)
    why e = ground (arith, e)

-- A heap_free of a valid heap, of a pointer behind the header of a block and its canary, returns. It takes
-- that block from the blocks in use and no other; where it is free already, all stay in use.
pub heap_free-used :
    (canary a : ℕ) (bs : List Block)
    → IsValid bs
    → heap_base ≤ a
    → a < heap_end
    → has_block bs a ≡ true
    → (bs' : List Block) × (heap_free canary bs (a + header_size + canary) ≡ some bs')
      × (used bs' ≡ without a (used bs))
unfolding heap_free
heap_free-used canary a bs v l h b =
    let back : a + header_size + canary - canary - header_size ≡ a = omega arith in
    (
      release bs a,
      ground (arith, l, h, b, back, ap (release bs) back, ap (has_block bs) back),
      used-release bs a v.tiles,
    )
