-- ===== src/Mm/Frames/Scan.antt =====
-- What the scan of the bitmap finds.
use unix_os.Prelude.{
  List, ℕ, [], ◌∷◌, ◌≡◌, arith, false, ◌||◌, ◌==◌, if◌then◌else◌, true, ◌≤◌, ◌<◌, refl, ap, ◌++◌,
  ◌∙◌, ltb, suc, not, ◌*◌, ◌&&◌, ◌-◌, length, zero, has,
}
use unix_os.Mm.Frames.{
  Frames, reserved_end, map_end, taken, scan_bits, scan_words, alloc_frames_locked, first_idx,
  end_idx, is_full,
}

-- No frame stands twice.
abbrev pub Nodup : List ℕ → Type 0
Nodup [] = Unit {0}
Nodup (f ∷ fs) = (has fs f ≡ false) × Nodup fs

-- The frames in `out` were clear and are now set, with a count of 1; nothing else has changed but
-- next_free.
pub record Scanned (s : Frames) (out : List ℕ) (s' : Frames) : Type 0 where
  pub bits : (g : ℕ) → s'.bitmap g ≡ (has out g || s.bitmap g)
  pub refs : (g : ℕ) → s'.refcount g ≡ (if has out g then 1 else s.refcount g)
  pub mags : (c : ℕ) → s'.magazine c ≡ s.magazine c
  pub clear : (g : ℕ) → has out g ≡ true → s.bitmap g ≡ false
  pub low : (g : ℕ) → has out g ≡ true → reserved_end ≤ g
  pub high : (g : ℕ) → has out g ≡ true → g < map_end
  pub nodup : Nodup out

pub Scanned-nil : (s : Frames) → Scanned s [] s
Scanned-nil s = record {
  bits = λ g. refl;
  refs = λ g. refl;
  mags = λ c. refl;
  clear = λ g h. absurd (ground (arith, h));
  low = λ g h. absurd (ground (arith, h));
  high = λ g h. absurd (ground (arith, h));
  nodup = tt;
}

Scanned-cons :
    (s : Frames) (i f : ℕ) (out : List ℕ) (s' : Frames)
    → s.bitmap f ≡ false
    → reserved_end ≤ f
    → f < map_end
    → Scanned (taken s i f) out s'
    → Scanned s (f ∷ out) s'
Scanned-cons s i f out s' b l h r = record {
  bits = λ g. let e = r.bits g in ground (arith, e);
  refs = λ g. let e = r.refs g in let k = absent in ground (arith, e);
  mags = r.mags;
  clear = λ g p. let e = r.clear g in ground (arith, e, b, ap s.bitmap {x = g} {y = f});
  low = λ g p. let e = r.low g in ground (arith, e);
  high = λ g p. let e = r.high g in ground (arith, e);
  nodup = (absent, r.nodup);
}
  where
    absent : has out f ≡ false
    absent = let e = r.clear f in ground (arith, e)

has-append : (xs ys : List ℕ) (g : ℕ) → has (xs ++ ys) g ≡ (has xs g || has ys g)
has-append [] ys g = refl
has-append (x ∷ xs) ys g = ground (arith, has-append xs ys g)

Nodup-append :
    (xs ys : List ℕ)
    → Nodup xs
    → Nodup ys
    → ((g : ℕ) → has xs g ≡ true → has ys g ≡ false)
    → Nodup (xs ++ ys)
Nodup-append [] ys n m d = m
Nodup-append (x ∷ xs) ys (a, n) m d =
    (first (d x (ground arith)), Nodup-append xs ys n m (λ g h. d g (ground (arith, h))))
  where
    first : has ys x ≡ false → has (xs ++ ys) x ≡ false
    first e = ground (arith, has-append xs ys x, e, a)

Scanned-append :
    (s : Frames) (xs : List ℕ) (s1 : Frames) (ys : List ℕ) (s2 : Frames)
    → Scanned s xs s1
    → Scanned s1 ys s2
    → Scanned s (xs ++ ys) s2
Scanned-append s xs s1 ys s2 p q = record {
  bits = λ g. ground (arith, p.bits g, q.bits g, has-append xs ys g);
  refs = λ g. ground (arith, p.refs g, q.refs g, has-append xs ys g);
  mags = λ c. q.mags c ∙ p.mags c;
  clear = λ g h. ground (arith, h, p.clear g, q.clear g, p.bits g, has-append xs ys g);
  low = λ g h. ground (arith, h, p.low g, q.low g, has-append xs ys g);
  high = λ g h. ground (arith, h, p.high g, q.high g, has-append xs ys g);
  nodup = Nodup-append xs ys p.nodup q.nodup (λ g h. ground (arith, h, q.clear g, p.bits g));
}

abbrev pub ScannedTo : Frames → List ℕ × Frames → Type 0
ScannedTo s (out, s') = Scanned s out s'

pub scan_bits-Scanned :
    (n i f want : ℕ) (s : Frames) → reserved_end ≤ f → ScannedTo s (scan_bits n i f want s)
unfolding scan_bits
scan_bits-Scanned zero i f want s l = Scanned-nil s
scan_bits-Scanned (suc n) i f want s l =
    let free = not (want == 0) && (not (s.bitmap f) && ltb f map_end) in
    elim free
        as (λ t.
          free ≡ t
          → ScannedTo s (
              let (out, s') =
                scan_bits n i (suc f) (if t then want - 1 else want)
                  (if t then taken s i f else s) in
              (if t then f ∷ out else out, s'))) [
                | true ↦ λ e.
                    let (out, s') = scan_bits n i (suc f) (want - 1) (taken s i f) in
                    Scanned-cons s i f out s' (ground (arith, e)) l (ground (arith, e))
                      (scan_bits-Scanned n i (suc f) (want - 1) (taken s i f) (omega arith))
                | false ↦ λ e. scan_bits-Scanned n i (suc f) want s (omega arith)
              ]
      refl

pub scan_words-Scanned :
    (n i want : ℕ) (s : Frames) → first_idx ≤ i → ScannedTo s (scan_words n i want s)
unfolding scan_words
scan_words-Scanned zero i want s l = Scanned-nil s
scan_words-Scanned (suc n) i want s l =
    let found = scan_bits 32 i (i * 32) want s in
    elim (is_full 32 s.bitmap (i * 32))
      as (λ t. ScannedTo s (
        let (out, s1) : List ℕ × Frames = if t then ([], s) else found in
        let (out', s2) = scan_words n (suc i) (want - length out) s1 in (out ++ out', s2))) [
          | true ↦ scan_words-Scanned n (suc i) (want - 0) s (omega arith)
          | false ↦
              Scanned-append s found.0 found.1 _ _
                (scan_bits-Scanned 32 i (i * 32) want s (omega arith))
                (scan_words-Scanned n (suc i) (want - length found.0) found.1 (omega arith))
        ]

pub alloc_frames_locked-Scanned : (s : Frames) (want : ℕ) → ScannedTo s (alloc_frames_locked s want)
unfolding alloc_frames_locked
alloc_frames_locked-Scanned s want =
    let start = if ltb s.next_free first_idx then first_idx else s.next_free in
    scan_words-Scanned (end_idx - start) start want s (ground arith)
