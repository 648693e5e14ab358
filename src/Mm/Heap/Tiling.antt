-- ===== src/Mm/Heap/Tiling.antt =====
-- How the blocks lie in the arena: each ends where the next begins, and no two neighbours are free.
use unix_os.Prelude.{
  ℕ, Bool, List, ◌≡◌, ◌∷◌, ◌≤◌, false, ◌+◌, ◌&&◌, arith, some, [], refl, true, leb, Option, ◌<◌,
  ◌++◌, if◌then◌else◌, none, ◌-◌, ltb, not, ◌||◌, subst, ap, Bool-cases, inl, sym, ◌∙◌, inr,
}
use unix_os.Mm.Heap.{
  first_fit, Block, split_block, heap_base, header_size, heap_end, later_fit, merge_next, release,
  merge_prev, release_after, is_target, freed,
}

-- The blocks fill the memory from a to e.
abbrev pub Tiles : ℕ → ℕ → List Block → Type 0
Tiles a e [] = a ≡ e
Tiles a e (b ∷ bs) = (b.addr ≡ a) × (header_size ≤ b.size) × Tiles (a + b.size) e bs

-- No free block follows another, or stands first where `after_free` says that a free one is before.
abbrev pub Coalesced : Bool → List Block → Type 0
Coalesced after_free [] = Unit {0}
Coalesced after_free (b ∷ bs) = ((after_free && b.is_free) ≡ false) × Coalesced b.is_free bs

pub record IsValid (bs : List Block) : Type 0 where
  pub tiles : Tiles heap_base heap_end bs
  pub coalesced : Coalesced false bs

pub Tiles-le : (bs : List Block) (a e : ℕ) → Tiles a e bs → a ≤ e
Tiles-le [] a e t = omega arith
Tiles-le (b ∷ bs) a e (p, q, t) = omega (arith, Tiles-le bs (a + b.size) e t)

Coalesced-weaken : (bs : List Block) (f : Bool) → Coalesced f bs → Coalesced false bs
Coalesced-weaken [] f c = tt
Coalesced-weaken (b ∷ bs) f (p, c) = (refl, c)

-- What first_fit does to the blocks: one free block is taken whole or split.
pub data Fit (total : ℕ) : List Block → Block → List Block → Type 0 where
  whole :
      (b : Block) (bs : List Block)
      → b.is_free ≡ true
      → total ≤ b.size
      → Fit total (b ∷ bs) (record b { is_free = false }) (record b { is_free = false } ∷ bs)
  split :
      (b : Block) (bs : List Block)
      → b.is_free ≡ true
      → total + 32 < b.size
      → Fit total
          (b ∷ bs)
          (record b { is_free = false; size = total })
          (record b { is_free = false; size = total }
            ∷ record { addr = b.addr + total; size = b.size - total; is_free = true }
            ∷ bs)
  there :
      (b : Block) {bs : List Block} {c : Block} {bs' : List Block}
      → Fit total bs c bs'
      → Fit total (b ∷ bs) c (b ∷ bs')

-- No free block is large enough.
abbrev pub NoFit : ℕ → List Block → Type 0
NoFit total [] = Unit {0}
NoFit total (b ∷ bs) = ((b.is_free && leb total b.size) ≡ false) × NoFit total bs

abbrev pub Fitted : ℕ → List Block → Option (Block × List Block) → Type 0
Fitted total bs none = NoFit total bs
Fitted total bs (some (c, bs')) = Fit total bs c bs'

later_fit-Fitted :
    (total : ℕ) (b : Block) (bs : List Block) (o : Option (Block × List Block))
    → (b.is_free && leb total b.size) ≡ false
    → Fitted total bs o
    → Fitted total (b ∷ bs) (later_fit b o)
later_fit-Fitted total b bs none n f = (n, f)
later_fit-Fitted total b bs (some (c, bs')) n f = there b f

split_block-Fit :
    (total : ℕ) (b : Block) (bs : List Block)
    → b.is_free ≡ true
    → total ≤ b.size
    → let (c, rest) = split_block (record b { is_free = false }) total in
      Fit total (b ∷ bs) c (c ∷ rest ++ bs)
unfolding split_block
split_block-Fit total b bs f l =
    let rest = b.addr + total in
    let test =
      ltb (total + header_size + 16) b.size && not (ltb rest heap_base || leb heap_end rest) in
    elim test
        as (λ t.
          test ≡ t
          → let (c, r) : Block × List Block =
              if t
              then (
                record b { is_free = false; size = total },
                record { addr = rest; size = b.size - total; is_free = true } ∷ [],
              )
              else (record b { is_free = false }, []) in
            Fit total (b ∷ bs) c (c ∷ r ++ bs)) [
              | true ↦ λ e. split b bs f (ground arith)
              | false ↦ λ e. whole b bs f l
            ]
      refl

pub first_fit-Fitted : (total : ℕ) (bs : List Block) → Fitted total bs (first_fit total bs)
unfolding first_fit
first_fit-Fitted total [] = tt
first_fit-Fitted total (b ∷ bs) =
    let test = b.is_free && leb total b.size in
    let (c, rest) = split_block (record b { is_free = false }) total in
    elim test
        as (λ t.
          test ≡ t
          → Fitted total (b ∷ bs)
              (if t then some (c, c ∷ rest ++ bs) else later_fit b (first_fit total bs))) [
                | true ↦ λ e. split_block-Fit total b bs (ground arith) (ground arith)
                | false ↦ λ e.
                    later_fit-Fitted total b bs (first_fit total bs) e (first_fit-Fitted total bs)
              ]
      refl

-- Taking a block keeps the tiling and the distance between free blocks.
pub Fit-Tiles :
    {total : ℕ} {bs : List Block} {c : Block} {bs' : List Block} (a e : ℕ)
    → header_size ≤ total
    → Fit total bs c bs'
    → Tiles a e bs
    → Tiles a e bs'
Fit-Tiles a e h (whole b bs f l) (p, q, t) = (p, q, t)
Fit-Tiles {total} a e h (split b bs f l) (p, q, t) =
    (p, h, (ap (λ x. x + total) p, omega arith, rest))
  where
    rest : Tiles (a + total + (b.size - total)) e bs
    rest = subst (λ x. Tiles x e bs) (omega arith) t
Fit-Tiles a e h (there b f) (p, q, t) = (p, q, Fit-Tiles (a + b.size) e h f t)

pub Fit-Coalesced :
    {total : ℕ} {bs : List Block} {c : Block} {bs' : List Block} (after_free : Bool)
    → Fit total bs c bs'
    → Coalesced after_free bs
    → Coalesced after_free bs'
Fit-Coalesced after_free (whole b bs f l) (p, c) = (ground arith, Coalesced-weaken bs b.is_free c)
Fit-Coalesced after_free (split b bs f l) (p, c) =
    (ground arith, (refl, subst (λ x. Coalesced x bs) f c))
Fit-Coalesced after_free (there b f) (p, c) = (p, Fit-Coalesced b.is_free f c)

abbrev TilesOf : ℕ → ℕ → Block × List Block → Type 0
TilesOf a e (b, bs) = Tiles a e (b ∷ bs)

-- Two neighbours are merged.
merge_next-Tiles :
    (b : Block) (bs : List Block) (a e : ℕ) → Tiles a e (b ∷ bs) → TilesOf a e (merge_next b bs)
unfolding merge_next
merge_next-Tiles b [] a e t = t
merge_next-Tiles b (n ∷ bs) a e (p, q, (p', q', t)) =
    elim n.is_free
      as (λ f. TilesOf a e (if f then (record b { size = b.size + n.size }, bs) else (b, n ∷ bs))) [
        | true ↦ (p, omega arith, subst (λ x. Tiles x e bs) (add_assoc a b.size n.size) t)
        | false ↦ (p, q, (p', q', t))
      ]
  where
    add_assoc : (x y z : ℕ) → x + y + z ≡ x + (y + z)
    add_assoc x y z = omega arith

merge_prev-Tiles :
    (p : Block) (m : Block × List Block) (a e : ℕ)
    → p.addr ≡ a
    → header_size ≤ p.size
    → TilesOf (a + p.size) e m
    → Tiles a e (merge_prev p m)
unfolding merge_prev
merge_prev-Tiles p (b, bs) a e h l (h', l', t) =
    elim p.is_free
      as (λ f. Tiles a e (if f then record p { size = p.size + b.size } ∷ bs else p ∷ b ∷ bs)) [
        | true ↦ (h, omega arith, subst (λ x. Tiles x e bs) (add_assoc a p.size b.size) t)
        | false ↦ (h, l, (h', l', t))
      ]
  where
    add_assoc : (x y z : ℕ) → x + y + z ≡ x + (y + z)
    add_assoc x y z = omega arith

release_after-Tiles :
    (p : Block) (bs : List Block) (at a e : ℕ)
    → Tiles a e (p ∷ bs)
    → Tiles a e (release_after p bs at)
unfolding release_after
release_after-Tiles p [] at a e t = t
release_after-Tiles p (b ∷ bs) at a e (h, l, t) =
    elim (is_target (b ∷ bs) at)
      as (λ f. Tiles a e (if f then merge_prev p (freed b bs) else p ∷ release_after b bs at)) [
        | true ↦ merge_prev-Tiles p (freed b bs) a e h l (merge_next-Tiles _ bs (a + p.size) e t)
        | false ↦ (h, l, release_after-Tiles b bs at (a + p.size) e t)
      ]

pub release-Tiles : (bs : List Block) (at a e : ℕ) → Tiles a e bs → Tiles a e (release bs at)
unfolding release
release-Tiles [] at a e t = t
release-Tiles (b ∷ bs) at a e t =
    elim (is_target (b ∷ bs) at)
      as (λ f.
        Tiles a e (let (c, cs) = freed b bs in if f then c ∷ cs else release_after b bs at)) [
          | true ↦ merge_next-Tiles _ bs a e t
          | false ↦ release_after-Tiles b bs at a e t
        ]

abbrev CoalescedOf : Bool → Block × List Block → Type 0
CoalescedOf after_free (b, bs) = Coalesced after_free (b ∷ bs)

merge_next-Coalesced :
    (b : Block) (bs : List Block)
    → b.is_free ≡ true
    → Coalesced false bs
    → CoalescedOf false (merge_next b bs) × ((merge_next b bs).0.is_free ≡ true)
unfolding merge_next
merge_next-Coalesced b [] f c = ((refl, tt), f)
merge_next-Coalesced b (n ∷ bs) f (p, c) = elim (Bool-cases n.is_free) [
  | inl t ↦
      subst (λ x. CoalescedOf false (choice x) × ((choice x).0.is_free ≡ true)) (sym t)
        ((refl, subst (λ x. Coalesced x bs) (t ∙ sym f) c), f)
  | inr t ↦
      subst (λ x. CoalescedOf false (choice x) × ((choice x).0.is_free ≡ true)) (sym t)
        ((refl, (ground arith, c)), f)
]
  where
    choice : Bool → Block × List Block
    choice x = if x then (record b { size = b.size + n.size }, bs) else (b, n ∷ bs)

merge_prev-Coalesced :
    (p : Block) (m : Block × List Block) (after_free : Bool)
    → (after_free && p.is_free) ≡ false
    → CoalescedOf false m
    → m.0.is_free ≡ true
    → Coalesced after_free (merge_prev p m)
unfolding merge_prev
merge_prev-Coalesced p (b, bs) after_free h (g, c) f = elim (Bool-cases p.is_free) [
  | inl t ↦
      subst (λ x. Coalesced after_free (choice x)) (sym t)
        (h, subst (λ x. Coalesced x bs) (f ∙ sym t) c)
  | inr t ↦ subst (λ x. Coalesced after_free (choice x)) (sym t) (h, (ground arith, c))
]
  where
    choice : Bool → List Block
    choice x = if x then record p { size = p.size + b.size } ∷ bs else p ∷ b ∷ bs

release_after-Coalesced :
    (p : Block) (bs : List Block) (at : ℕ) (after_free : Bool)
    → Coalesced after_free (p ∷ bs)
    → Coalesced after_free (release_after p bs at)
unfolding release_after
release_after-Coalesced p [] at after_free c = c
release_after-Coalesced p (b ∷ bs) at after_free (h, (g, c)) =
    elim (is_target (b ∷ bs) at)
      as (λ f.
        Coalesced after_free (if f then merge_prev p (freed b bs) else p ∷ release_after b bs at)) [
          | true ↦
              let m =
                merge_next-Coalesced (record b { is_free = true }) bs refl
                  (Coalesced-weaken bs b.is_free c) in
              merge_prev-Coalesced p (freed b bs) after_free h m.0 m.1
          | false ↦ (h, release_after-Coalesced b bs at p.is_free (g, c))
        ]

pub release-Coalesced :
    (bs : List Block) (at : ℕ) → Coalesced false bs → Coalesced false (release bs at)
unfolding release
release-Coalesced [] at c = c
release-Coalesced (b ∷ bs) at (h, c) =
    elim (is_target (b ∷ bs) at)
      as (λ f.
        Coalesced false (let (c, cs) = freed b bs in if f then c ∷ cs else release_after b bs at)) [
          | true ↦
              (merge_next-Coalesced (record b { is_free = true }) bs refl
                (Coalesced-weaken bs b.is_free c)).0
          | false ↦ release_after-Coalesced b bs at false (h, c)
        ]
