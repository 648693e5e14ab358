-- ===== src/Core/Sched/Distinct.antt =====
-- The processes of a circle are different, also after one is taken out, so there are at most as many as slots.
use unix_os.Prelude.{
  ℕ, Option, List, length, has, ◌≤◌, ◌≡◌, ◌∷◌, false, ◌+◌, true, ◌==◌, arith, ◌<◌, if◌then◌else◌,
  ap, [], suc, refl, zero,
}
use unix_os.Core.Sched.Rings.{Seg, Ring, cons, ring, nil, empty}
use unix_os.Mm.Frames.Scan.{Nodup}
use unix_os.Core.Sched.Unlink.{erase, not_has-erase, has-erase}

pub Seg-Nodup : {n : ℕ → Option ℕ} {stop p : ℕ} {xs : List ℕ} → Seg n stop p xs → Nodup xs
Seg-Nodup nil = tt
Seg-Nodup (cons e o s) = (o, Seg-Nodup s)

pub Ring-Nodup : {n : ℕ → Option ℕ} {head : Option ℕ} {xs : List ℕ} → Ring n head xs → Nodup xs
Ring-Nodup empty = tt
Ring-Nodup (ring e o s) = (o, Seg-Nodup s)

Nodup-erase : (p : ℕ) (xs : List ℕ) → Nodup xs → Nodup (erase p xs)
Nodup-erase p [] u = tt
Nodup-erase p (x ∷ xs) (o, u) = elim (x == p) as (λ b. Nodup (if b then xs else x ∷ erase p xs)) [
  | true ↦ u
  | false ↦ (not_has-erase p xs x o, Nodup-erase p xs u)
]

pub erase-gone : (p : ℕ) (xs : List ℕ) → Nodup xs → has (erase p xs) p ≡ false
erase-gone p [] u = refl
erase-gone p (x ∷ xs) (o, u) = ground (arith, o, erase-gone p xs u, ap (has xs) {x = x} {y = p})

erase-length : (p : ℕ) (xs : List ℕ) → length xs ≤ length (erase p xs) + 1
erase-length p [] = omega arith
erase-length p (x ∷ xs) = ground (arith, erase-length p xs)

-- Different processes below m are at most m.
pub length-le_bound :
    (m : ℕ) (xs : List ℕ) → Nodup xs → ((a : ℕ) → has xs a ≡ true → a < m) → length xs ≤ m
length-le_bound zero [] u h = omega arith
length-le_bound zero (x ∷ xs) u h = absurd (omega (arith, h x (ground arith)))
length-le_bound (suc m) xs u h = omega (
  arith,
  erase-length m xs,
  length-le_bound m (erase m xs) (Nodup-erase m xs u) (λ a i. ground (
    arith,
    i,
    h a (has-erase m xs a i),
    erase-gone m xs u,
    ap (has (erase m xs)) {x = a} {y = m},
  )),
)

pub erase-absent : (p : ℕ) (xs : List ℕ) → has xs p ≡ false → erase p xs ≡ xs
erase-absent p [] o = refl
erase-absent p (x ∷ xs) o = ground (arith, o, erase-absent p xs (ground (arith, o)))
