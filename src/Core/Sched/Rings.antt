-- ===== src/Core/Sched/Rings.antt =====
-- Circular lists in the next pointers, as lists of processes from the head on.
use unix_os.Prelude.{
  ℕ, List, Option, has, ◌∷◌, [], none, ◌≡◌, ◌++◌, some, update, false, true, ◌||◌, subst, arith,
  ◌∙◌, sym, ap, refl,
}

-- From p the pointers lead through the processes of a list, all different, to `stop`.
pub data Seg (n : ℕ → Option ℕ) (stop : ℕ) : ℕ → List ℕ → Type 0 where
  nil : Seg n stop stop []
  cons :
      {p q : ℕ} {xs : List ℕ}
      → n p ≡ some q
      → has xs p ≡ false
      → Seg n stop q xs
      → Seg n stop p (p ∷ xs)

-- A head, and the list of its circle.
pub data Ring (n : ℕ → Option ℕ) : Option ℕ → List ℕ → Type 0 where
  empty : Ring n none []
  ring :
      {h q : ℕ} {xs : List ℕ}
      → n h ≡ some q
      → has xs h ≡ false
      → Seg n h q xs
      → Ring n (some h) (h ∷ xs)

pub Seg-frame :
    {n m : ℕ → Option ℕ} {stop p : ℕ} {xs : List ℕ}
    → Seg n stop p xs
    → ((a : ℕ) → has xs a ≡ true → m a ≡ n a)
    → Seg m stop p xs
Seg-frame nil same = nil
Seg-frame (cons {p} e o s) same =
    cons (same p (ground arith) ∙ e) o (Seg-frame s (λ a i. same a (ground (arith, i))))

pub Ring-frame :
    {n m : ℕ → Option ℕ} {head : Option ℕ} {xs : List ℕ}
    → Ring n head xs
    → ((a : ℕ) → has xs a ≡ true → m a ≡ n a)
    → Ring m head xs
Ring-frame empty same = empty
Ring-frame (ring {h} e o s) same =
    ring (same h (ground arith) ∙ e) o (Seg-frame s (λ a i. same a (ground (arith, i))))

pub has-append : (xs ys : List ℕ) (a : ℕ) → has (xs ++ ys) a ≡ (has xs a || has ys a)
has-append [] ys a = refl
has-append (x ∷ xs) ys a = ground (arith, has-append xs ys a)

Seg-snoc :
    {n : ℕ → Option ℕ} {h p y : ℕ} {xs : List ℕ}
    → Seg n h p xs
    → n h ≡ some y
    → has xs h ≡ false
    → Seg n y p (xs ++ h ∷ [])
Seg-snoc nil e o = cons e refl nil
Seg-snoc {h = h} (cons {p} {q} {xs} e' o' s) e o =
    cons e' (ground (arith, has-append xs (h ∷ []) p, o', o)) (Seg-snoc s e (ground (arith, o)))

abbrev pub turned : List ℕ → List ℕ
turned [] = []
turned (h ∷ xs) = xs ++ h ∷ []

-- *head = (*head)->next goes on to the next process of the circle.
pub Ring-turned :
    {n : ℕ → Option ℕ} {h : ℕ} {xs : List ℕ} → Ring n (some h) xs → Ring n (n h) (turned xs)
Ring-turned {n} {h} (ring e o nil) = subst (λ x. Ring n x (h ∷ [])) (sym e) (ring e o nil)
Ring-turned {n} {h} (ring e o (cons {p = y} {xs = t} e' o' s)) =
    subst (λ x. Ring n x (y ∷ t ++ h ∷ [])) (sym e)
      (ring e' (ground (arith, has-append t (h ∷ []) y, o', o)) (Seg-snoc s e (ground (arith, o))))

-- What add_to_queue makes of a list.
abbrev pub added : ℕ → List ℕ → List ℕ
added p [] = p ∷ []
added p (h ∷ xs) = h ∷ p ∷ xs

pub Ring-single : (n : ℕ → Option ℕ) (p : ℕ) → Ring (update n p (some p)) (some p) (p ∷ [])
Ring-single n p = ring (ground arith) refl nil

pub Ring-added :
    {n : ℕ → Option ℕ} {h : ℕ} {xs : List ℕ} (p : ℕ)
    → Ring n (some h) xs
    → has xs p ≡ false
    → Ring (update (update n p (n h)) h (some p)) (some h) (added p xs)
Ring-added p (ring {h} {q} {xs} e o s) l = ring (ground arith) (ground (arith, o, l)) (
    cons (ground (arith, e, l)) (ground (arith, l)) (
      Seg-frame s
        (λ a i. ground (arith, i, o, l, ap (has xs) {x = a} {y = h}, ap (has xs) {x = a} {y = p}))))

pub Ring-head : {n : ℕ → Option ℕ} {h : ℕ} {xs : List ℕ} → Ring n (some h) xs → has xs h ≡ true
Ring-head (ring e o s) = ground arith
