-- ===== src/Mm/Frames/Exhausted.antt =====
-- Where the scan comes back with less than was wanted, nothing is left to find.
use unix_os.Prelude.{
  ℕ, length, Bool, List, ◌≤◌, ◌<◌, ◌≡◌, if◌then◌else◌, ◌/◌, ◌+◌, true, ◌*◌, arith, [], Bool-cases,
  suc, not, ◌==◌, ◌-◌, inl, ◌&&◌, ap, length-append, inr, ltb, ==_iff, ◌∙◌, zero, ◌||◌, ◌⊎◌, ltb→lt,
  false, refl, subst, sym, has,
}
use unix_os.Mm.Frames.{
  Frames, scan_bits, is_full, scan_words, reserved_end, first_idx, map_end, taken, end_idx,
  alloc_frames_locked,
}
use unix_os.Mm.Frames.Scan.{ScannedTo, scan_words-Scanned, scan_bits-Scanned, Scanned-nil}

-- All frames that the allocator may hand out and that lie in words below i are in use.
abbrev pub UsedBelow : ℕ → Frames → Type 0
UsedBelow i s = (g : ℕ) → reserved_end ≤ g → g / 32 < i → s.bitmap g ≡ true

-- next_free is no further than the first word with a clear bit.
abbrev pub NextIsFirst : Frames → Type 0
NextIsFirst s = UsedBelow s.next_free s

scan_bits-full :
    (n i f want : ℕ) (s : Frames) (g : ℕ)
    → length (scan_bits n i f want s).0 < want
    → reserved_end ≤ f
    → f ≤ g
    → g < f + n
    → g < map_end
    → (scan_bits n i f want s).1.bitmap g ≡ true
unfolding scan_bits
scan_bits-full zero i f want s g w r l h m = absurd (omega arith)
scan_bits-full (suc n) i f want s g w r l h m =
    let free = not (want == 0) && (not (s.bitmap f) && ltb f map_end) in
    let s1 : Frames = if free then taken s i f else s in
    let want1 = if free then want - 1 else want in
    let rest = scan_bits n i (suc f) want1 s1 in
    let k : length rest.0 < want1 = ground (arith, w) in
    elim (Bool-cases (g == f)) [
      | inr o ↦
          let t =
            scan_bits-full n i (suc f) want1 s1 g k (omega arith) (ground (arith, o, l))
              (omega arith) m in
          ground (arith, t)
      | inl o ↦
          let b = (scan_bits-Scanned n i (suc f) want1 s1 (omega arith)).bits g in
          ground (arith, o, b, k, ap s.bitmap {x = g} {y = f}, m)
    ]

is_full-set :
    (n : ℕ) (bitmap : ℕ → Bool) (f g : ℕ)
    → is_full n bitmap f ≡ true
    → f ≤ g
    → g < f + n
    → bitmap g ≡ true
unfolding is_full
is_full-set zero bitmap f g e l h = absurd (omega arith)
is_full-set (suc n) bitmap f g e l h = elim (Bool-cases (g == f + n)) [
  | inl q ↦ ap bitmap ((==_iff g (f + n)).0 q) ∙ ground (arith, e)
  | inr q ↦ is_full-set n bitmap f g (ground (arith, e)) l (ground (arith, q, h))
]

abbrev word_scan : Frames → ℕ → ℕ → List ℕ × Frames
word_scan s i want =
    if is_full 32 s.bitmap (i * 32) then ([], s) else scan_bits 32 i (i * 32) want s

word_scan-Scanned : (s : Frames) (i want : ℕ) → first_idx ≤ i → ScannedTo s (word_scan s i want)
word_scan-Scanned s i want l =
    elim (is_full 32 s.bitmap (i * 32))
      as (λ t. ScannedTo s (if t then ([], s) else scan_bits 32 i (i * 32) want s)) [
        | true ↦ Scanned-nil s
        | false ↦ scan_bits-Scanned 32 i (i * 32) want s (omega arith)
      ]

word_scan-full :
    (s : Frames) (i want g : ℕ)
    → length (word_scan s i want).0 < want
    → first_idx ≤ i
    → g / 32 ≡ i
    → g < map_end
    → (word_scan s i want).1.bitmap g ≡ true
word_scan-full s i want g w l q m = elim (Bool-cases (is_full 32 s.bitmap (i * 32))) [
  | inl y ↦
      let t = is_full-set 32 s.bitmap (i * 32) g y (omega arith) (omega arith) in
      ground (arith, y, t)
  | inr n ↦
      let k : length (scan_bits 32 i (i * 32) want s).0 < want = ground (arith, w, n) in
      let t = scan_bits-full 32 i (i * 32) want s g k (omega arith) (omega arith) (omega arith) m in
      ground (arith, n, t)
]

or_true : (a b : Bool) → b ≡ true → (a || b) ≡ true
or_true a b e = ground arith

scan_words-full :
    (n i want : ℕ) (s : Frames) (g : ℕ)
    → length (scan_words n i want s).0 < want
    → first_idx ≤ i
    → i ≤ g / 32
    → g / 32 < i + n
    → g < map_end
    → (scan_words n i want s).1.bitmap g ≡ true
unfolding scan_words
scan_words-full zero i want s g w l a h m = absurd (omega arith)
scan_words-full (suc n) i want s g w l a h m =
    let (out, s1) = word_scan s i want in
    let rest = scan_words n (suc i) (want - length out) s1 in
    let k : length out + length rest.0 < want = omega (arith, w, length-append out rest.0) in
    elim (Bool-cases (g / 32 == i)) [
      | inr o ↦
          scan_words-full n (suc i) (want - length out) s1 g (omega arith) (omega arith)
            (ground (arith, o, a)) (omega arith) m
      | inl o ↦
          let t = word_scan-full s i want g (omega arith) l ((==_iff _ _).0 o) m in
          let b = (scan_words-Scanned n (suc i) (want - length out) s1 (omega arith)).bits g in
          b ∙ or_true (has rest.0 g) _ t
    ]

scan_bits-NextIsFirst :
    (n i f want : ℕ) (s : Frames)
    → (want ≡ 0) ⊎ UsedBelow i s
    → NextIsFirst s
    → NextIsFirst (scan_bits n i f want s).1
unfolding scan_bits
scan_bits-NextIsFirst zero i f want s u x = x
scan_bits-NextIsFirst (suc n) i f want s u x =
    let free = not (want == 0) && (not (s.bitmap f) && ltb f map_end) in
    elim free
        as (λ t.
          free ≡ t
          → NextIsFirst
              (scan_bits n i (suc f) (if t then want - 1 else want)
                (if t then taken s i f else s)).1) [
                  | true ↦ λ e.
                      let b : UsedBelow i (taken s i f) = more (pick u e) in
                      scan_bits-NextIsFirst n i (suc f) (want - 1) (taken s i f) (inr b) b
                  | false ↦ λ e. scan_bits-NextIsFirst n i (suc f) want s u x
                ]
      refl
  where
    pick :
        (want ≡ 0) ⊎ UsedBelow i s
        → (not (want == 0) && (not (s.bitmap f) && ltb f map_end)) ≡ true
        → UsedBelow i s
    pick (inl z) e = absurd (ground (arith, z, e))
    pick (inr b) e = b

    more : UsedBelow i s → UsedBelow i (taken s i f)
    more b g l h = let e = b g l h in ground (arith, e)

none_left : (a b : ℕ) → ltb a b ≡ false → b - a ≡ 0
none_left a b f = ground (arith, f)

scan_words-NextIsFirst :
    (n i want : ℕ) (s : Frames)
    → first_idx ≤ i
    → (n ≡ 0) ⊎ (i + n ≤ end_idx)
    → (want ≡ 0) ⊎ UsedBelow i s
    → NextIsFirst s
    → NextIsFirst (scan_words n i want s).1
unfolding scan_words
scan_words-NextIsFirst zero i want s l m u x = x
scan_words-NextIsFirst (suc n) i want s l m u x =
    let (out, s1) = word_scan s i want in
    scan_words-NextIsFirst n (suc i) (want - length out) s1 (omega arith) inside (next u) word
  where
    inside : (n ≡ 0) ⊎ (suc i + n ≤ end_idx)
    inside = elim m [ inl z ↦ absurd (omega (arith, z)) | inr k ↦ inr (omega arith) ]

    word : NextIsFirst (word_scan s i want).1
    word =
        elim (is_full 32 s.bitmap (i * 32))
          as (λ t. NextIsFirst (if t then ([], s) else scan_bits 32 i (i * 32) want s).1) [
            | true ↦ x
            | false ↦ scan_bits-NextIsFirst 32 i (i * 32) want s u x
          ]

    bound : (g : ℕ) → g / 32 ≡ i → g < map_end
    bound g q = elim m [ inl z ↦ absurd (omega (arith, z)) | inr k ↦ omega (arith, q, k) ]

    below : (g : ℕ) → g / 32 < suc i → (g / 32 == i) ≡ false → g / 32 < i
    below g h q = ground (arith, h, q)

    next :
        (want ≡ 0) ⊎ UsedBelow i s
        → (want - length (word_scan s i want).0 ≡ 0) ⊎ UsedBelow (suc i) (word_scan s i want).1
    next (inl z) = inl (omega arith)
    next (inr b) = elim (Bool-cases (ltb (length (word_scan s i want).0) want)) [
      | inr f ↦ inl (none_left _ want f)
      | inl t ↦ inr (λ g k h. elim (Bool-cases (g / 32 == i)) [
        | inl q ↦
            word_scan-full s i want g (ltb→lt _ _ t) l ((==_iff _ _).0 q)
              (bound g ((==_iff _ _).0 q))
        | inr q ↦
            (word_scan-Scanned s i want l).bits g
            ∙ or_true (has (word_scan s i want).0 g) _ (b g k (below g h q))
      ])
    ]

-- Where alloc_frames_locked starts.
abbrev first_word : Frames → ℕ
first_word s = if ltb s.next_free first_idx then first_idx else s.next_free

first_word_le : (s : Frames) → first_idx ≤ first_word s
first_word_le s = ground arith

before_first_word :
    (s : Frames) (g : ℕ) → reserved_end ≤ g → g / 32 < first_word s → g / 32 < s.next_free
before_first_word s g l h = ground (arith, l, h)

rounds_cases : (i : ℕ) → (end_idx - i ≡ 0) ⊎ (i + (end_idx - i) ≤ end_idx)
rounds_cases i = ground arith

or_false : (a b : Bool) → a ≡ false → (a || b) ≡ true → b ≡ true
or_false a b e h = ground (arith, e, h)

pub alloc_frames_locked-NextIsFirst :
    (s : Frames) (want : ℕ) → NextIsFirst s → NextIsFirst (alloc_frames_locked s want).1
unfolding alloc_frames_locked
alloc_frames_locked-NextIsFirst s want x =
    scan_words-NextIsFirst (end_idx - first_word s) (first_word s) want s (first_word_le s)
      (rounds_cases (first_word s)) (inr (λ g l h. x g l (before_first_word s g l h))) x

-- Nothing found: the bitmap holds no free frame.
pub alloc_frames_locked-full :
    (s : Frames) (want g : ℕ)
    → NextIsFirst s
    → (alloc_frames_locked s want).0 ≡ []
    → 0 < want
    → reserved_end ≤ g
    → g < map_end
    → s.bitmap g ≡ true
unfolding alloc_frames_locked
alloc_frames_locked-full s want g x e w l h = elim (Bool-cases (ltb (g / 32) (first_word s))) [
  | inl t ↦ x g l (before_first_word s g l (ltb→lt _ _ t))
  | inr f ↦
      let i = first_word s in
      let n = end_idx - i in
      let t =
        scan_words-full n i want s g (subst (λ k. k < want) (sym (ap length e)) w) (first_word_le s)
          (at_least (g / 32) i f) (inside (g / 32) i (at_least (g / 32) i f) (omega arith)) h in
      let b = (scan_words-Scanned n i want s (first_word_le s)).bits g in
      or_false _ (s.bitmap g) (ap (λ fs. has fs g) e) (sym b ∙ t)
]
  where
    at_least : (a b : ℕ) → ltb a b ≡ false → b ≤ a
    at_least a b f = ground (arith, f)

    inside : (a b : ℕ) → b ≤ a → a < end_idx → a < b + (end_idx - b)
    inside a b p q = omega arith
