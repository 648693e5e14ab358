-- ===== src/Prelude/Lists.antt =====
-- Lists measured and indexed by native numbers, under the library's names, and lists given by
-- their elements.
use Prim.Native.Nat.{ℕ, zero, suc, ◌+◌, ◌-◌, ◌≤◌, ◌<◌, min}
use mathlib.Core.Path.{◌≡◌, refl, ap, ap₂, ◌∙◌}
use mathlib.Core.Bool.{◌&&◌}
use mathlib.Core.List.{List, [], ◌∷◌, ◌++◌}
use mathlib.Core.Option.{Option, none, some}
use native.Mathlib.Omega.{arith}
use unix_os.Prelude.Tests.{ltb, leb, if◌then◌else◌}

module _ {ℓ} {A : Type ℓ} where
  abbrev pub length : List A → ℕ
  length [] = 0
  length (x ∷ xs) = suc (length xs)

  abbrev pub get_elem? : List A → ℕ → Option A
  get_elem? [] i = none
  get_elem? (x ∷ xs) zero = some x
  get_elem? (x ∷ xs) (suc i) = get_elem? xs i

  abbrev pub get_or : List A → ℕ → A → A
  get_or [] i d = d
  get_or (x ∷ xs) zero d = x
  get_or (x ∷ xs) (suc i) d = get_or xs i d

  -- A write out of bounds changes nothing.
  abbrev pub set : List A → ℕ → A → List A
  set [] i v = []
  set (x ∷ xs) zero v = v ∷ xs
  set (x ∷ xs) (suc i) v = x ∷ set xs i v

  abbrev pub take : ℕ → List A → List A
  take zero xs = []
  take (suc n) [] = []
  take (suc n) (x ∷ xs) = x ∷ take n xs

  abbrev pub drop : ℕ → List A → List A
  drop zero xs = xs
  drop (suc n) [] = []
  drop (suc n) (x ∷ xs) = drop n xs

  abbrev pub replicate : ℕ → A → List A
  replicate zero a = []
  replicate (suc n) a = a ∷ replicate n a

  -- f 0, f 1, ..., f (n - 1)
  abbrev pub tabulate : ℕ → (ℕ → A) → List A
  tabulate zero f = []
  tabulate (suc n) f = f 0 ∷ tabulate n (λ i. f (suc i))

  -- The buffer after memcpy(buf + i, src, length src); what falls past its end is dropped.
  pub overwrite : List A → ℕ → List A → List A
  overwrite [] i src = []
  overwrite (x ∷ xs) (suc i) src = x ∷ overwrite xs i src
  overwrite (x ∷ xs) zero [] = x ∷ xs
  overwrite (x ∷ xs) zero (y ∷ ys) = y ∷ overwrite xs zero ys

module _ {ℓ} {A : Type ℓ} where
  pub length-append : (xs ys : List A) → length (xs ++ ys) ≡ length xs + length ys
  length-append [] ys = omega arith
  length-append (x ∷ xs) ys = omega (arith, length-append xs ys)

  pub length-set : (xs : List A) (i : ℕ) (v : A) → length (set xs i v) ≡ length xs
  length-set [] i v = refl
  length-set (x ∷ xs) zero v = refl
  length-set (x ∷ xs) (suc i) v = ap suc (length-set xs i v)

  pub length-take : (n : ℕ) (xs : List A) → length (take n xs) ≡ min n (length xs)
  length-take zero xs = omega arith
  length-take (suc n) [] = omega arith
  length-take (suc n) (x ∷ xs) = omega (arith, length-take n xs)

  pub length-drop : (n : ℕ) (xs : List A) → length (drop n xs) ≡ length xs - n
  length-drop zero xs = omega arith
  length-drop (suc n) [] = omega arith
  length-drop (suc n) (x ∷ xs) = omega (arith, length-drop n xs)

  pub length-replicate : (n : ℕ) (a : A) → length (replicate n a) ≡ n
  length-replicate zero a = refl
  length-replicate (suc n) a = ap suc (length-replicate n a)

  pub length-tabulate : (n : ℕ) (f : ℕ → A) → length (tabulate n f) ≡ n
  length-tabulate zero f = refl
  length-tabulate (suc n) f = ap suc (length-tabulate n (λ i. f (suc i)))

  pub length-overwrite :
      (xs : List A) (i : ℕ) (src : List A) → length (overwrite xs i src) ≡ length xs
  unfolding overwrite
  length-overwrite [] i src = refl
  length-overwrite (x ∷ xs) (suc i) src = ap suc (length-overwrite xs i src)
  length-overwrite (x ∷ xs) zero [] = refl
  length-overwrite (x ∷ xs) zero (y ∷ ys) = ap suc (length-overwrite xs zero ys)

  pub get_or-set :
      (xs : List A) (i j : ℕ) (v d : A)
      → i < length xs
      → get_or (set xs i v) j d ≡ (if leb i j && leb j i then v else get_or xs j d)
  get_or-set [] i j v d h = absurd (omega arith)
  get_or-set (x ∷ xs) zero zero v d h = refl
  get_or-set (x ∷ xs) zero (suc j) v d h = ground arith
  get_or-set (x ∷ xs) (suc i) zero v d h = ground arith
  get_or-set (x ∷ xs) (suc i) (suc j) v d h = ground (arith, get_or-set xs i j v d)

  pub get_or-drop :
      (k : ℕ) (xs : List A) (i : ℕ) (d : A) → get_or (drop k xs) i d ≡ get_or xs (k + i) d
  get_or-drop zero xs i d = ap (λ j. get_or xs j d) (omega arith)
  get_or-drop (suc k) [] i d = refl
  get_or-drop (suc k) (x ∷ xs) i d = ground (arith, get_or-drop k xs i d)

  pub get_elem?-eq-get_or :
      (xs : List A) (i : ℕ) (d : A) → i < length xs → get_elem? xs i ≡ some (get_or xs i d)
  get_elem?-eq-get_or [] i d h = absurd (omega arith)
  get_elem?-eq-get_or (x ∷ xs) zero d h = refl
  get_elem?-eq-get_or (x ∷ xs) (suc i) d h = get_elem?-eq-get_or xs i d (omega arith)

  pub tabulate-ext :
      (n : ℕ) (f g : ℕ → A) → ((i : ℕ) → i < n → f i ≡ g i) → tabulate n f ≡ tabulate n g
  tabulate-ext zero f g h = refl
  tabulate-ext (suc n) f g h =
      ap₂ ◌∷◌ (h 0 (omega arith)) (tabulate-ext n _ _ (λ i p. h (suc i) (omega arith)))

  pub tabulate-append :
      (n m : ℕ) (f : ℕ → A) → tabulate n f ++ tabulate m (λ i. f (n + i)) ≡ tabulate (n + m) f
  tabulate-append zero m f =
      tabulate-ext m _ f (λ i p. ap f (omega arith)) ∙ ap (λ k. tabulate k f) (omega arith)
  tabulate-append (suc n) m f =
      ap (λ xs. f 0 ∷ xs)
        (ap (λ ys. tabulate n (λ i. f (suc i)) ++ ys)
            (tabulate-ext m _ _ (λ i p. ap f (omega arith)))
          ∙ tabulate-append n m (λ i. f (suc i)))
      ∙ ap (λ k. tabulate k f) (suc_add n m)
    where
      suc_add : (a b : ℕ) → suc (a + b) ≡ suc a + b
      suc_add a b = omega arith

  -- What memcpy(dst, xs + k, n) copies.
  pub take-drop-eq-tabulate :
      (n k : ℕ) (xs : List A) (d : A)
      → k + n ≤ length xs
      → take n (drop k xs) ≡ tabulate n (λ i. get_or xs (k + i) d)
  take-drop-eq-tabulate zero k xs d h = refl
  take-drop-eq-tabulate (suc n) zero [] d h = absurd (omega arith)
  take-drop-eq-tabulate (suc n) zero (x ∷ xs) d h = ap₂ ◌∷◌ refl (
      take-drop-eq-tabulate n zero xs d (omega arith)
      ∙ tabulate-ext n _ _ (λ i p. ap (λ j. get_or (x ∷ xs) j d) (suc_shift i)))
    where
      suc_shift : (i : ℕ) → suc (0 + i) ≡ 0 + suc i
      suc_shift i = omega arith
  take-drop-eq-tabulate (suc n) (suc k) [] d h = absurd (omega arith)
  take-drop-eq-tabulate (suc n) (suc k) (x ∷ xs) d h =
      take-drop-eq-tabulate (suc n) k xs d (omega arith)
      ∙ tabulate-ext (suc n) _ _ (λ i p. ap (λ j. get_or (x ∷ xs) j d) (suc_add i))
    where
      suc_add : (i : ℕ) → suc (k + i) ≡ suc k + i
      suc_add i = omega arith

  pub get_or-take :
      (n : ℕ) (xs : List A) (i : ℕ) (d : A) → i < n → get_or (take n xs) i d ≡ get_or xs i d
  get_or-take zero xs i d h = absurd (omega arith)
  get_or-take (suc n) [] i d h = refl
  get_or-take (suc n) (x ∷ xs) zero d h = refl
  get_or-take (suc n) (x ∷ xs) (suc i) d h = get_or-take n xs i d (omega arith)

  pub take-append-drop : (n : ℕ) (xs : List A) → take n xs ++ drop n xs ≡ xs
  take-append-drop zero xs = refl
  take-append-drop (suc n) [] = refl
  take-append-drop (suc n) (x ∷ xs) = ap (λ ys. x ∷ ys) (take-append-drop n xs)

  -- Taking more than there is takes all.
  pub take-min-length : (n : ℕ) (xs : List A) → take (min (length xs) n) xs ≡ take n xs
  take-min-length zero xs = ap (λ k. take k xs) (min_zero (length xs))
    where
      min_zero : (a : ℕ) → min a 0 ≡ 0
      min_zero a = omega arith
  take-min-length (suc n) [] = ap (λ k. take {A = A} k []) (zero_min n)
    where
      zero_min : (b : ℕ) → min 0 (suc b) ≡ 0
      zero_min b = omega arith
  take-min-length (suc n) (x ∷ xs) =
      ap (λ k. take k (x ∷ xs)) (min_suc (length xs) n) ∙ ap (λ ys. x ∷ ys) (take-min-length n xs)
    where
      min_suc : (a b : ℕ) → min (suc a) (suc b) ≡ suc (min a b)
      min_suc a b = omega arith

  pub take-tabulate : (n c : ℕ) (f : ℕ → A) → take n (tabulate c f) ≡ tabulate (min n c) f
  take-tabulate zero c f = ap (λ k. tabulate k f) (min_zero c)
    where
      min_zero : (c : ℕ) → 0 ≡ min 0 c
      min_zero c = omega arith
  take-tabulate (suc n) zero f = ap (λ k. tabulate k f) (min_zero n)
    where
      min_zero : (n : ℕ) → 0 ≡ min (suc n) 0
      min_zero n = omega arith
  take-tabulate (suc n) (suc c) f =
      ap (λ xs. f 0 ∷ xs) (take-tabulate n c (λ i. f (suc i)))
      ∙ ap (λ k. tabulate k f) (min_suc n c)
    where
      min_suc : (n c : ℕ) → suc (min n c) ≡ min (suc n) (suc c)
      min_suc n c = omega arith

  pub take-eq-tabulate :
      (k : ℕ) (xs : List A) (d : A) → take k xs ≡ tabulate (min (length xs) k) (λ i. get_or xs i d)
  take-eq-tabulate zero xs d = ap (λ k. tabulate k (λ i. get_or xs i d)) (min_zero (length xs))
    where
      min_zero : (c : ℕ) → 0 ≡ min c 0
      min_zero c = omega arith
  take-eq-tabulate (suc k) [] d = ap (λ j. tabulate j (λ i. d)) (zero_min k)
    where
      zero_min : (c : ℕ) → 0 ≡ min 0 (suc c)
      zero_min c = omega arith
  take-eq-tabulate (suc k) (x ∷ xs) d =
      ap (λ ys. x ∷ ys) (take-eq-tabulate k xs d)
      ∙ ap (λ j. tabulate j (λ i. get_or (x ∷ xs) i d)) (min_suc (length xs) k)
    where
      min_suc : (n c : ℕ) → suc (min n c) ≡ min (suc n) (suc c)
      min_suc n c = omega arith

  pub drop-tabulate :
      (n c : ℕ) (f : ℕ → A) → drop n (tabulate c f) ≡ tabulate (c - n) (λ i. f (n + i))
  drop-tabulate zero c f =
      ap (λ k. tabulate k f) (sub_zero c) ∙ tabulate-ext (c - 0) _ _ (λ i p. ap f (omega arith))
    where
      sub_zero : (c : ℕ) → c ≡ c - 0
      sub_zero c = omega arith
  drop-tabulate (suc n) zero f = ap (λ k. tabulate k (λ i. f (suc n + i))) (zero_sub n)
    where
      zero_sub : (n : ℕ) → 0 ≡ 0 - suc n
      zero_sub n = omega arith
  drop-tabulate (suc n) (suc c) f =
      drop-tabulate n c (λ i. f (suc i))
      ∙ tabulate-ext (c - n) _ _ (λ i p. ap f (omega arith))
      ∙ ap (λ k. tabulate k (λ i. f (suc n + i))) (sub_suc n c)
    where
      sub_suc : (n c : ℕ) → c - n ≡ suc c - suc n
      sub_suc n c = omega arith

module _ {A : Type 0} where
  -- Inside the copied range an element of the source, elsewhere what was there.
  pub get_or-overwrite :
      (xs : List A) (i : ℕ) (src : List A) (j : ℕ) (d : A)
      → i + length src ≤ length xs
      → get_or (overwrite xs i src) j d
        ≡ (if leb i j && ltb j (i + length src) then get_or src (j - i) d else get_or xs j d)
  unfolding overwrite
  get_or-overwrite [] i [] j d h = ground arith
  get_or-overwrite [] i (y ∷ ys) j d h = absurd (omega arith)
  get_or-overwrite (x ∷ xs) (suc i) src zero d h = ground arith
  get_or-overwrite (x ∷ xs) (suc i) src (suc j) d h =
      ground
        (arith, get_or-overwrite xs i src j d (omega arith), ap (λ k. get_or src k d) (shift i j))
    where
      shift : (a b : ℕ) → suc b - suc a ≡ b - a
      shift a b = omega arith
  get_or-overwrite (x ∷ xs) zero [] j d h = ground arith
  get_or-overwrite (x ∷ xs) zero (y ∷ ys) zero d h = ground arith
  get_or-overwrite (x ∷ xs) zero (y ∷ ys) (suc j) d h =
      ground
        (arith, get_or-overwrite xs zero ys j d (omega arith), ap (λ k. get_or ys k d) (shift j))
    where
      shift : (b : ℕ) → b - 0 ≡ b
      shift b = omega arith

abbrev pub All {ℓ} : {A : Type ℓ} → (A → Type 0) → List A → Type 0
All P [] = Unit {0}
All P (x ∷ xs) = P x × All P xs

pub All-mono {ℓ} :
    {A : Type ℓ} (P Q : A → Type 0) → ((x : A) → P x → Q x) → (xs : List A) → All P xs → All Q xs
All-mono P Q f [] a = tt
All-mono P Q f (x ∷ xs) (p, a) = (f x p, All-mono P Q f xs a)
