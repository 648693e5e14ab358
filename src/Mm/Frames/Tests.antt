-- ===== src/Mm/Frames/Tests.antt =====
-- A frame is taken on processor 0.
use unix_os.Prelude.{
  ℕ, Bool, ◌≡◌, false, ltb, some, true, [], ap, refl, ◌≤◌, ◌<◌, arith, ◌⊎◌, none, has, update,
}
use unix_os.Mm.Frames.Reach.{World, Reach, start, here, take, later}
use unix_os.Mm.Frames.{
  allocate_frame, frame_getref, reserve_low, alloc_frames_locked, scan_words, scan_bits,
  reserved_end, is_full, map_end,
}
use unix_os.Mm.Frames.Safe.{frame_getref-held, allocate_frame_exclusive}

abbrev reserved : ℕ → Bool
reserved f = ltb f 2816

abbrev w1 : World
w1 = record {
  frames = (allocate_frame (start reserved).frames 0).1;
  held = update (start reserved).held 2816 1;
}

first_frame : (allocate_frame (start reserved).frames 0).0 ≡ some 2816
unfolding allocate_frame alloc_frames_locked scan_words scan_bits is_full
first_frame = refl

w1_reached : Reach reserved w1
w1_reached = later here (take (start reserved) 0 2816 w1.frames (pair first_frame))
  where
    pair :
        (allocate_frame (start reserved).frames 0).0 ≡ some 2816
        → allocate_frame (start reserved).frames 0 ≡ (some 2816, w1.frames)
    pair e = ap (λ o. (o, w1.frames)) e

allocate_frame_exclusive_example :
    let o = (allocate_frame w1.frames 1).0 in
    ((f : ℕ) × (o ≡ some f)
      × (w1.held f ≡ 0)
      × (reserved_end ≤ f)
      × (f < map_end)
      × (reserved f ≡ false))
    ⊎ ((o ≡ none)
        × ((g : ℕ) → reserved_end ≤ g → g < map_end → w1.frames.bitmap g ≡ true)
        × (w1.frames.magazine 1 ≡ []))
allocate_frame_exclusive_example = allocate_frame_exclusive reserved w1 1 w1_reached

frame_getref-held_example :
    (frame_getref w1.frames 2816 ≡ w1.held 2816)
    × (w1.frames.bitmap 2816 ≡ true)
    × ((c : ℕ) → has (w1.frames.magazine c) 2816 ≡ false)
frame_getref-held_example = frame_getref-held reserved w1 2816 w1_reached (omega arith)

-- What the boot code reserves.
reserved_at_boot :
    (reserve_low 4 (record {
      bitmap = λ f. false;
      next_free = 0;
      refcount = λ f. 0;
      magazine = λ c. [];
    })).bitmap
      3
    ≡ true
unfolding reserve_low
reserved_at_boot = refl
