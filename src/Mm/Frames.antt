-- ===== src/Mm/Frames.antt =====
-- src/kernel/mm/frame_alloc.c: the allocator of physical frames. An address is modelled by its frame
-- number, address / 4096: all that the allocator hands out are aligned. Bit f % 32 of frame_bitmap[f / 32]
-- is `bitmap f`. A lock or preempt_disable makes each call one step.
pub mod Scan
pub mod Exhausted
pub mod Owned
pub mod Reach
pub mod Safe
mod Tests
use unix_os.Prelude.{
  ℕ, List, Bool, if◌then◌else◌, true, false, [], ◌∷◌, Option, ◌/◌, suc, ◌==◌, ltb, not, ◌+◌, ◌*◌,
  some, leb, zero, ◌&&◌, ◌-◌, none, length, ◌||◌, ◌++◌, update,
}

pub record Frames : Type 0 where
  pub bitmap : ℕ → Bool
  pub next_free : ℕ
  pub refcount : ℕ → ℕ
  -- the frame_magazine of each processor, from its top down
  pub magazine : ℕ → List ℕ

abbrev pub frame_count : ℕ
frame_count = 16384

-- KERNEL_HEAP_END and IDENTITY_MAP_END, as frames
abbrev pub reserved_end : ℕ
reserved_end = 2816

abbrev pub map_end : ℕ
map_end = 8192

-- FRAME_ALLOC_FIRST_BITMAP_IDX
abbrev pub first_idx : ℕ
first_idx = 88

-- end_idx of alloc_frames_locked
abbrev pub end_idx : ℕ
end_idx = 256

abbrev pub magazine_size : ℕ
magazine_size = 16

-- frame_alloc_mark_used
abbrev pub mark_used : Frames → ℕ → Frames
mark_used s f = record s { bitmap = update s.bitmap f true }

-- The loop of frame_alloc_reserve_low over frames 0 to n - 1.
pub reserve_low : ℕ → Frames → Frames
reserve_low zero s = s
reserve_low (suc n) s = mark_used (reserve_low n s) n

-- frame_clear, and the lines after its calls that lower next_free
abbrev pub give_back : Frames → ℕ → Frames
give_back s f = record s {
  bitmap = update s.bitmap f false;
  next_free = if ltb (f / 32) s.next_free && leb first_idx (f / 32) then f / 32 else s.next_free;
}

-- A clear bit of word i is found.
abbrev pub taken : Frames → ℕ → ℕ → Frames
taken s i f = record (mark_used s f) {
  next_free = i;
  refcount = if ltb f frame_count then update s.refcount f 1 else s.refcount;
}

-- The inner loop of alloc_frames_locked: n bits of word i from frame f on, `want` frames at most.
pub scan_bits : ℕ → ℕ → ℕ → ℕ → Frames → List ℕ × Frames
scan_bits zero i f want s = ([], s)
scan_bits (suc n) i f want s =
    let free = not (want == 0) && (not (s.bitmap f) && ltb f map_end) in
    let s1 : Frames = if free then taken s i f else s in
    let (out, s') = scan_bits n i (suc f) (if free then want - 1 else want) s1 in
    (if free then f ∷ out else out, s')

-- frame_bitmap[i] == 0xFFFFFFFF, from bit n - 1 down
pub is_full : ℕ → (ℕ → Bool) → ℕ → Bool
is_full zero bitmap f = true
is_full (suc n) bitmap f = bitmap (f + n) && is_full n bitmap f

-- The outer loop, over n words from word i on.
pub scan_words : ℕ → ℕ → ℕ → Frames → List ℕ × Frames
unfolding scan_bits is_full
scan_words zero i want s = ([], s)
scan_words (suc n) i want s =
    let found = scan_bits 32 i (i * 32) want s in
    let (out, s1) : List ℕ × Frames = if is_full 32 s.bitmap (i * 32) then ([], s) else found in
    let (out', s2) = scan_words n (suc i) (want - length out) s1 in (out ++ out', s2)

-- alloc_frames_locked
pub alloc_frames_locked : Frames → ℕ → List ℕ × Frames
unfolding scan_words
alloc_frames_locked s want =
    let start = if ltb s.next_free first_idx then first_idx else s.next_free in
    scan_words (end_idx - start) start want s

abbrev pub push_all : List ℕ → List ℕ → List ℕ
push_all [] mag = mag
push_all (f ∷ fs) mag = push_all fs (f ∷ mag)

-- allocate_frame on processor `me`; none is (uint32_t)-1.
pub allocate_frame : Frames → ℕ → Option ℕ × Frames
unfolding alloc_frames_locked
allocate_frame s me = elim (s.magazine me) [
  | f ∷ mag ↦ (
    some f,
    record s {
      magazine = update s.magazine me mag;
      refcount = if ltb f frame_count then update s.refcount f 1 else s.refcount;
    },
  )
  | [] ↦
      let (batch, s') = alloc_frames_locked s magazine_size in
      elim batch [
        | [] ↦ (none, s')
        | f ∷ fs ↦ (some f, record s' { magazine = update s'.magazine me (push_all fs []) })
      ]
]

-- The loop of release_frame_to_pool: n frames from the top of the magazine are given back.
pub give_back_all : ℕ → ℕ → Frames → Frames
give_back_all zero me s = s
give_back_all (suc n) me s = elim (s.magazine me) [
  | [] ↦ s
  | f ∷ mag ↦ give_back_all n me (give_back (record s { magazine = update s.magazine me mag }) f)
]

-- release_frame_to_pool
pub release_frame : Frames → ℕ → ℕ → Frames
unfolding give_back_all
release_frame s me f =
    if ltb (length (s.magazine me)) magazine_size
    then record s { magazine = update s.magazine me (f ∷ s.magazine me) }
    else give_back (give_back_all (magazine_size / 2) me s) f

-- frame_incref
pub frame_incref : Frames → ℕ → Frames
frame_incref s f =
    if leb frame_count f
    then s
    else (if ltb (s.refcount f) 0xFFFF
        then record s { refcount = update s.refcount f (s.refcount f + 1) }
        else s)

-- frame_getref
pub frame_getref : Frames → ℕ → ℕ
frame_getref s f = if leb frame_count f then 0 else s.refcount f

-- frame_decref
pub frame_decref : Frames → ℕ → ℕ → Frames
unfolding release_frame
frame_decref s me f =
    if leb frame_count f || ltb f reserved_end
    then s
    else (if s.refcount f == 0
        then s
        else (if ltb 1 (s.refcount f)
            then record s { refcount = update s.refcount f (s.refcount f - 1) }
            else release_frame (record s { refcount = update s.refcount f 0 }) me f))

-- free_frame of an address, none for (uint32_t)-1
pub free_frame : Frames → ℕ → Option ℕ → Frames
unfolding frame_decref
free_frame s me none = s
free_frame s me (some f) =
    if f == 0 then s else (if ltb f reserved_end then s else frame_decref s me f)
