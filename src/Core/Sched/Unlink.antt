-- ===== src/Core/Sched/Unlink.antt =====
-- remove_from_queue takes a process out of its circle.
use unix_os.Prelude.{
  ℕ, List, Option, ◌∷◌, has, update, if◌then◌else◌, ◌≡◌, ◌==◌, true, false, some, arith, length, [],
  ◌<◌, suc, Bool-cases, ◌∙◌, ==_iff, ap, zero, inl, subst, sym, inr,
}
use unix_os.Core.Sched.{find_prev, before, absent}
use unix_os.Core.Sched.Rings.{Seg, cons, nil, Seg-frame}

abbrev pub erase : ℕ → List ℕ → List ℕ
erase p [] = []
erase p (x ∷ xs) = let rest = erase p xs in if x == p then xs else x ∷ rest

pub has-erase : (p : ℕ) (xs : List ℕ) (a : ℕ) → has (erase p xs) a ≡ true → has xs a ≡ true
has-erase p [] a h = h
has-erase p (x ∷ xs) a h = ground (arith, h, has-erase p xs a)

pub not_has-erase : (p : ℕ) (xs : List ℕ) (a : ℕ) → has xs a ≡ false → has (erase p xs) a ≡ false
not_has-erase p [] a h = h
not_has-erase p (x ∷ xs) a h = ground (arith, h, not_has-erase p xs a)

pub erase-hit : (p x : ℕ) (xs : List ℕ) → (x == p) ≡ true → erase p (x ∷ xs) ≡ xs
erase-hit p x xs e = ground (arith, e)

pub erase-miss : (p x : ℕ) (xs : List ℕ) → (x == p) ≡ false → erase p (x ∷ xs) ≡ x ∷ erase p xs
erase-miss p x xs e = ground (arith, e)

module _ (n : ℕ → Option ℕ) (h p : ℕ) where
  -- The pointers after prev->next = p->next.
  abbrev pub relinked : ℕ → ℕ → Option ℕ
  relinked prev = update n prev (n p)

  -- The search from prev finds the process before p, which is in the list behind prev; without p the
  -- list still leads from prev to the head.
  pub record Found (fuel prev : ℕ) (xs : List ℕ) : Type 0 where
    pub spot : ℕ
    pub q : ℕ
    pub found : find_prev fuel n h p prev ≡ before spot
    pub step : relinked spot prev ≡ some q
    pub rest : Seg (relinked spot) h q (erase p xs)
    pub inside : has (prev ∷ xs) spot ≡ true

  find_hit :
      (fuel prev x : ℕ)
      → n prev ≡ some x
      → (x == p) ≡ true
      → find_prev (suc fuel) n h p prev ≡ before prev
  unfolding find_prev
  find_hit fuel prev x e y = ground (arith, e, y)

  pub find_miss :
      (fuel prev x : ℕ)
      → n prev ≡ some x
      → (x == p) ≡ false
      → (x == h) ≡ false
      → find_prev (suc fuel) n h p prev ≡ find_prev fuel n h p x
  unfolding find_prev
  find_miss fuel prev x e y z = ground (arith, e, y, z)

  find_end :
      (fuel prev : ℕ)
      → n prev ≡ some h
      → (h == p) ≡ false
      → find_prev (suc fuel) n h p prev ≡ absent
  unfolding find_prev
  find_end fuel prev e y = ground (arith, e, y)

  pub find_prev-Found :
      {q : ℕ} {xs : List ℕ} (fuel prev : ℕ)
      → Seg n h q xs
      → n prev ≡ some q
      → has xs prev ≡ false
      → has xs h ≡ false
      → has xs p ≡ true
      → length xs < fuel
      → Found fuel prev xs
  find_prev-Found fuel prev nil e o oh i l = absurd (ground (arith, i))
  find_prev-Found zero prev (cons e' o' s) e o oh i l = absurd (omega (arith, l))
  find_prev-Found (suc fuel) prev (cons {p = x} {q = y} {xs = t} e' o' s) e o oh i l =
      elim (Bool-cases (x == p)) [
        | inl hit ↦ record {
          spot = prev;
          q = y;
          found = find_hit fuel prev x e hit;
          step = ground (arith, e', hit, ap n {x = x} {y = p});
          rest =
              subst (λ l. Seg (relinked prev) h y l) (sym (erase-hit p x t hit))
                (Seg-frame s (λ a m. ground (arith, m, o, ap (has t) {x = a} {y = prev})));
          inside = ground arith;
        }
        | inr miss ↦
            let r =
              find_prev-Found fuel x s e' o' (ground (arith, oh)) (ground (arith, i, miss))
                (omega (arith, l)) in
            record {
              spot = r.spot;
              q = x;
              found = find_miss fuel prev x e miss (ground (arith, oh)) ∙ r.found;
              step = ground (arith, e, r.inside, o, ap (has (x ∷ t)) {x = prev} {y = r.spot});
              rest =
                  subst (λ l. Seg (relinked r.spot) h x l) (sym (erase-miss p x t miss))
                    (cons r.step (not_has-erase p t x o') r.rest);
              inside = ground (arith, r.inside);
            }
      ]

  -- Without p in the list the search comes round to the head.
  pub find_prev-absent :
      {q : ℕ} {xs : List ℕ} (fuel prev : ℕ)
      → Seg n h q xs
      → n prev ≡ some q
      → has xs h ≡ false
      → has xs p ≡ false
      → (h == p) ≡ false
      → length xs < fuel
      → find_prev fuel n h p prev ≡ absent
  find_prev-absent zero prev s e oh i z l = absurd (omega (arith, l))
  find_prev-absent (suc fuel) prev nil e oh i z l = find_end fuel prev e z
  find_prev-absent (suc fuel) prev (cons {p = x} {xs = t} e' o' s) e oh i z l =
      find_miss fuel prev x e (ground (arith, i)) (ground (arith, oh))
      ∙ find_prev-absent fuel x s e' (ground (arith, oh)) (ground (arith, i)) z (omega (arith, l))

  -- For the head itself the search ends at the last of the list, which is linked to the second.
  pub record Last (fuel prev y : ℕ) (xs : List ℕ) : Type 0 where
    pub spot : ℕ
    pub q : ℕ
    pub found : find_prev fuel n h p prev ≡ before spot
    pub step : relinked spot prev ≡ some q
    pub rest : Seg (relinked spot) y q xs
    pub inside : has (prev ∷ xs) spot ≡ true

  pub find_prev-Last :
      {q : ℕ} {xs : List ℕ} (fuel prev y : ℕ)
      → Seg n h q xs
      → h ≡ p
      → n p ≡ some y
      → n prev ≡ some q
      → has xs prev ≡ false
      → has xs h ≡ false
      → length xs < fuel
      → Last fuel prev y xs
  find_prev-Last zero prev y s z ep e o oh l = absurd (omega (arith, l))
  find_prev-Last (suc fuel) prev y nil z ep e o oh l = record {
    spot = prev;
    q = y;
    found = find_hit fuel prev h e ((==_iff h p).1 z);
    step = ground (arith, ep);
    rest = nil;
    inside = ground arith;
  }
  find_prev-Last (suc fuel) prev y (cons {p = x} {q = w} {xs = t} e' o' s) z ep e o oh l =
      let r = find_prev-Last fuel x y s z ep e' o' (ground (arith, oh)) (omega (arith, l)) in
      record {
        spot = r.spot;
        q = x;
        found = find_miss fuel prev x e (ground (arith, oh, z)) (ground (arith, oh)) ∙ r.found;
        step = ground (arith, e, r.inside, o, ap (has (x ∷ t)) {x = prev} {y = r.spot});
        rest = cons r.step o' r.rest;
        inside = ground (arith, r.inside);
      }
