-- ===== src/Mm/Heap/Live.antt =====
-- The blocks in use: what heap_alloc adds to them and heap_free takes away.
use unix_os.Prelude.{
  List, ℕ, ◌∷◌, ◌≡◌, ◌<◌, if◌then◌else◌, ◌≤◌, ◌++◌, arith, true, [], ◌==◌, ◌+◌, ap, false, refl,
  Bool-cases, inl, inr, ◌⊎◌, All, All-mono,
}
use unix_os.Mm.Heap.{
  Block, merge_next, merge_prev, release_after, release, heap_base, heap_end, is_target,
}
use unix_os.Mm.Heap.Tiling.{Tiles, Fit, whole, Tiles-le, split, there}

abbrev pub used : List Block → List Block
used [] = []
used (b ∷ bs) = if b.is_free then used bs else b ∷ used bs

abbrev pub without : ℕ → List Block → List Block
without a [] = []
without a (b ∷ bs) = if b.addr == a then without a bs else b ∷ without a bs

Tiles-All : (bs : List Block) (a e : ℕ) → Tiles a e bs → All (λ b. a ≤ b.addr) (used bs)
Tiles-All [] a e t = tt
Tiles-All (b ∷ bs) a e (p, q, t) =
    let r =
      All-mono (λ c. a + b.size ≤ c.addr) (λ c. a ≤ c.addr) (λ c h. omega arith) (used bs)
        (Tiles-All bs (a + b.size) e t) in
    elim b.is_free as (λ f. All (λ c. a ≤ c.addr) (if f then used bs else b ∷ used bs)) [
      | true ↦ r
      | false ↦ (omega arith, r)
    ]

-- The block c lies between a and e, holds `total` bytes, is new among the used ones, and is apart
-- from each of the others.
pub record Added (total a e : ℕ) (c : Block) (us us' : List Block) : Type 0 where
  pub before : List Block
  pub after : List Block
  pub was : us ≡ before ++ after
  pub now : us' ≡ before ++ c ∷ after
  pub room : total ≤ c.size
  pub low : a ≤ c.addr
  pub high : c.addr + c.size ≤ e
  pub below : All (λ b. b.addr + b.size ≤ c.addr) before
  pub above : All (λ b. c.addr + c.size ≤ b.addr) after

pub Fit-Added :
    {total : ℕ} {bs : List Block} {c : Block} {bs' : List Block} (a e : ℕ)
    → Fit total bs c bs'
    → Tiles a e bs
    → Added total a e c (used bs) (used bs')
Fit-Added {total} a e (whole b bs f l) (p, q, t) = record {
  before = [];
  after = used bs;
  was = ap (λ x. if x then used bs else b ∷ used bs) f;
  now = refl;
  room = l;
  low = omega arith;
  high = let r = Tiles-le bs (a + b.size) e t in omega arith;
  below = tt;
  above =
      All-mono (λ c. a + b.size ≤ c.addr) (λ c. b.addr + b.size ≤ c.addr) (λ c h. omega arith)
        (used bs) (Tiles-All bs (a + b.size) e t);
}
Fit-Added {total} a e (split b bs f l) (p, q, t) = record {
  before = [];
  after = used bs;
  was = ap (λ x. if x then used bs else b ∷ used bs) f;
  now = refl;
  room = omega arith;
  low = omega arith;
  high = let r = Tiles-le bs (a + b.size) e t in omega arith;
  below = tt;
  above =
      All-mono (λ c. a + b.size ≤ c.addr) (λ c. b.addr + total ≤ c.addr) (λ c h. omega arith)
        (used bs) (Tiles-All bs (a + b.size) e t);
}
Fit-Added {total} a e (there b {bs = bs} {c = c'} {bs' = bs'} f) (p, q, t) =
    let r = Fit-Added (a + b.size) e f t in
    elim b.is_free
      as (λ x.
        Added total a e c' (if x then used bs else b ∷ used bs)
          (if x then used bs' else b ∷ used bs')) [
            | true ↦ record {
              before = r.before;
              after = r.after;
              was = r.was;
              now = r.now;
              room = r.room;
              low = let h = r.low in omega arith;
              high = r.high;
              below = r.below;
              above = r.above;
            }
            | false ↦ record {
              before = b ∷ r.before;
              after = r.after;
              was = ap (λ us. b ∷ us) r.was;
              now = ap (λ us. b ∷ us) r.now;
              room = r.room;
              low = let h = r.low in omega arith;
              high = r.high;
              below = (let h = r.low in omega arith, r.below);
              above = r.above;
            }
          ]

without-absent :
    (bs : List Block) (a s e : ℕ) → a < s → Tiles s e bs → without a (used bs) ≡ used bs
without-absent [] a s e h t = refl
without-absent (b ∷ bs) a s e h (p, q, t) =
    ground (arith, without-absent bs a (s + b.size) e (omega arith) t)

used-merge_next :
    (b : Block) (bs : List Block)
    → b.is_free ≡ true
    → used ((merge_next b bs).0 ∷ (merge_next b bs).1) ≡ used bs
unfolding merge_next
used-merge_next b [] f = ground arith
used-merge_next b (n ∷ bs) f = ground arith

used-merge_prev :
    (p b : Block) (bs : List Block)
    → b.is_free ≡ true
    → used (merge_prev p (merge_next b bs)) ≡ (if p.is_free then used bs else p ∷ used bs)
unfolding merge_prev merge_next
used-merge_prev p b [] f = ground arith
used-merge_prev p b (n ∷ bs) f = ground arith

used-release_after :
    (p : Block) (bs : List Block) (at s e : ℕ)
    → heap_base ≤ s
    → e ≤ heap_end
    → Tiles s e bs
    → used (release_after p bs at)
      ≡ (if p.is_free then without at (used bs) else p ∷ without at (used bs))
unfolding release_after
used-release_after p [] at s e l g t = refl
used-release_after p (b ∷ bs) at s e l g (h, q, t) =
    let b' : Block = record b { is_free = true } in
    let m = Tiles-le bs (s + b.size) e t in
    elim (Bool-cases (is_target (b ∷ bs) at)) [
      | inl y ↦ ground (
        arith,
        y,
        used-merge_prev p b' bs refl,
        without-absent bs at (s + b.size) e (ground arith) t,
      )
      | inr n ↦
          let r = used-release_after b bs at (s + b.size) e (omega arith) g t in
          let k : (b.is_free ≡ true) ⊎ ((b.addr == at) ≡ false) = ground (arith, n, m) in
          ground (arith, n, r, k)
    ]

pub used-release :
    (bs : List Block) (at : ℕ)
    → Tiles heap_base heap_end bs
    → used (release bs at) ≡ without at (used bs)
unfolding release
used-release [] at t = refl
used-release (b ∷ bs) at (h, q, t) =
    let b' : Block = record b { is_free = true } in
    let m = Tiles-le bs (heap_base + b.size) heap_end t in
    elim (Bool-cases (is_target (b ∷ bs) at)) [
      | inl y ↦ ground (
        arith,
        y,
        used-merge_next b' bs refl,
        without-absent bs at (heap_base + b.size) heap_end (ground arith) t,
      )
      | inr n ↦
          let r =
            used-release_after b bs at (heap_base + b.size) heap_end (omega arith) (omega arith)
              t in
          let k : (b.is_free ≡ true) ⊎ ((b.addr == at) ≡ false) = ground (arith, n, m) in
          ground (arith, n, r, k)
    ]
