-- ===== src/Mm/Frames/Owned.antt =====
-- Where each frame is: in the bitmap as clear, in one magazine, or held by those it was given to.
use unix_os.Prelude.{
  ℕ, Bool, ◌≡◌, List, true, arith, ◌∷◌, ap, false, ◌≤◌, ◌<◌, ◌==◌, Bool-cases, subst, ◌⊎◌,
  ℕ_discrete, inl, ==_iff, if◌then◌else◌, sym, ◌∙◌, ltb, inr, suc, length, [], ◌/◌, fun_ext, zero,
  refl, has, update,
}
use unix_os.Mm.Frames.{
  Frames, give_back, reserved_end, map_end, give_back_all, release_frame, push_all, magazine_size,
}
use unix_os.Mm.Frames.Exhausted.{NextIsFirst}
use unix_os.Mm.Frames.Scan.{Nodup}

-- `boot` are the frames that were marked used at the start, `held g` the number of references that the
-- callers have to frame g.
pub record Inv (boot : ℕ → Bool) (held : ℕ → ℕ) (s : Frames) : Type 0 where
  pub next : NextIsFirst s
  pub kept : (g : ℕ) → boot g ≡ true → s.bitmap g ≡ true
  pub stored_used : (c g : ℕ) → has (s.magazine c) g ≡ true → s.bitmap g ≡ true
  pub stored_unheld : (c g : ℕ) → has (s.magazine c) g ≡ true → held g ≡ 0
  pub stored_low : (c g : ℕ) → has (s.magazine c) g ≡ true → reserved_end ≤ g
  pub stored_high : (c g : ℕ) → has (s.magazine c) g ≡ true → g < map_end
  pub stored_new : (c g : ℕ) → has (s.magazine c) g ≡ true → boot g ≡ false
  pub apart : (c d g : ℕ) → has (s.magazine c) g ≡ true → has (s.magazine d) g ≡ true → c ≡ d
  pub nodup : (c : ℕ) → Nodup (s.magazine c)
  pub held_used : (g : ℕ) → 0 < held g → s.bitmap g ≡ true
  pub held_count : (g : ℕ) → 0 < held g → s.refcount g ≡ held g
  pub held_low : (g : ℕ) → 0 < held g → reserved_end ≤ g
  pub held_high : (g : ℕ) → 0 < held g → g < map_end
  pub held_new : (g : ℕ) → 0 < held g → boot g ≡ false

-- A frame on its way from one place to another.
pub record Loose (boot : ℕ → Bool) (held : ℕ → ℕ) (s : Frames) (f : ℕ) : Type 0 where
  pub used : s.bitmap f ≡ true
  pub unstored : (c : ℕ) → has (s.magazine c) f ≡ false
  pub unheld : held f ≡ 0
  pub low : reserved_end ≤ f
  pub high : f < map_end
  pub new : boot f ≡ false

module _ (boot : ℕ → Bool) (held : ℕ → ℕ) where
  Inv-give_back :
      (s : Frames) (f : ℕ) → Inv boot held s → Loose boot held s f → Inv boot held (give_back s f)
  Inv-give_back s f v l = record {
    next = λ g a b. let e = v.next g in let h = l.low in ground (arith, e, b);
    kept = λ g a.
        let e = v.kept g in let h = l.new in ground (arith, e, h, a, ap boot {x = g} {y = f});
    stored_used = λ c g a.
        let e = v.stored_used c g in
        let h = l.unstored c in ground (arith, e, h, a, ap (has (s.magazine c)) {x = g} {y = f});
    stored_unheld = v.stored_unheld;
    stored_low = v.stored_low;
    stored_high = v.stored_high;
    stored_new = v.stored_new;
    apart = v.apart;
    nodup = v.nodup;
    held_used = λ g a.
        let e = v.held_used g in
        let h = l.unheld in ground (arith, e, h, a, ap held {x = g} {y = f});
    held_count = v.held_count;
    held_low = v.held_low;
    held_high = v.held_high;
    held_new = v.held_new;
  }

  abbrev pub popped : Frames → ℕ → List ℕ → Frames
  popped s me mag = record s { magazine = update s.magazine me mag }

  -- The top of a magazine is taken.
  module _ (s : Frames) (me f : ℕ) (mag : List ℕ) (v : Inv boot held s)
      (e : s.magazine me ≡ f ∷ mag) where
    at_me : (c : ℕ) → (c == me) ≡ true → s.magazine c ≡ f ∷ mag
    at_me c y = ap s.magazine ((==_iff c me).0 y) ∙ e

    tail : (c g : ℕ) → has (update s.magazine me mag c) g ≡ true → has (s.magazine c) g ≡ true
    tail c g h = elim (Bool-cases (c == me)) [
      | inl y ↦ ground (arith, h, y, at_me c y)
      | inr n ↦ ground (arith, h, n)
    ]

    top : has (s.magazine me) f ≡ true
    top = ground (arith, e)

    whole : Nodup (f ∷ mag)
    whole = subst Nodup e (v.nodup me)

    pub Inv-popped : Inv boot held (popped s me mag)
    Inv-popped = record {
      next = v.next;
      kept = v.kept;
      stored_used = λ c g h. v.stored_used c g (tail c g h);
      stored_unheld = λ c g h. v.stored_unheld c g (tail c g h);
      stored_low = λ c g h. v.stored_low c g (tail c g h);
      stored_high = λ c g h. v.stored_high c g (tail c g h);
      stored_new = λ c g h. v.stored_new c g (tail c g h);
      apart = λ c d g h k. v.apart c d g (tail c g h) (tail d g k);
      nodup = λ c. elim (c == me) as (λ t. Nodup (if t then mag else s.magazine c)) [
        | true ↦ whole.1
        | false ↦ v.nodup c
      ];
      held_used = v.held_used;
      held_count = v.held_count;
      held_low = v.held_low;
      held_high = v.held_high;
      held_new = v.held_new;
    }

    other :
        (c : ℕ)
        → (c == me) ≡ false
        → (has (s.magazine c) f ≡ true → has (s.magazine me) f ≡ true → c ≡ me)
        → has (update s.magazine me mag c) f ≡ false
    other c n k = elim (Bool-cases (has (s.magazine c) f)) [
      | inl y ↦ let q = k y top in ground (arith, n, q)
      | inr y ↦ ground (arith, n, y)
    ]

    pub Loose-popped : Loose boot held (popped s me mag) f
    Loose-popped = record {
      used = v.stored_used me f top;
      unstored = λ c. elim (Bool-cases (c == me)) [
        | inl y ↦ let a = whole.0 in ground (arith, y, a)
        | inr n ↦ other c n (v.apart c me f)
      ];
      unheld = v.stored_unheld me f top;
      low = v.stored_low me f top;
      high = v.stored_high me f top;
      new = v.stored_new me f top;
    }

  -- A loose frame is put on a magazine.
  module _ (s : Frames) (me f : ℕ) (v : Inv boot held s) (l : Loose boot held s f) where
    pushed_has :
        (c g : ℕ)
        → has (update s.magazine me (f ∷ s.magazine me) c) g ≡ true
        → (g ≡ f) ⊎ (has (s.magazine c) g ≡ true)
    pushed_has c g h = elim (Bool-cases (c == me)) [
      | inl y ↦ ground (arith, h, y, ap s.magazine ((==_iff c me).0 y))
      | inr n ↦ ground (arith, h, n)
    ]

    pushed :
        (P : ℕ → Type 0)
        → P f
        → ((c g : ℕ) → has (s.magazine c) g ≡ true → P g)
        → (c g : ℕ) → has (update s.magazine me (f ∷ s.magazine me) c) g ≡ true
        → P g
    pushed P p k c g h = elim (pushed_has c g h) [ inl q ↦ subst P (sym q) p | inr o ↦ k c g o ]

    only_me : (c : ℕ) → has (update s.magazine me (f ∷ s.magazine me) c) f ≡ true → c ≡ me
    only_me c h = let u = l.unstored c in ground (arith, h, u)

    old :
        (c g : ℕ)
        → (g ≡ f → ⊥)
        → has (update s.magazine me (f ∷ s.magazine me) c) g ≡ true
        → has (s.magazine c) g ≡ true
    old c g n h = elim (pushed_has c g h) [ inl q ↦ absurd (n q) | inr o ↦ o ]

    Inv-pushed : Inv boot held (popped s me (f ∷ s.magazine me))
    Inv-pushed = record {
      next = v.next;
      kept = v.kept;
      stored_used = pushed (λ g. s.bitmap g ≡ true) l.used v.stored_used;
      stored_unheld = pushed (λ g. held g ≡ 0) l.unheld v.stored_unheld;
      stored_low = pushed (λ g. reserved_end ≤ g) l.low v.stored_low;
      stored_high = pushed (λ g. g < map_end) l.high v.stored_high;
      stored_new = pushed (λ g. boot g ≡ false) l.new v.stored_new;
      apart = λ c d g h k. elim (ℕ_discrete g f) [
        | yes q ↦
            only_me c (subst (λ x. has (update s.magazine me (f ∷ s.magazine me) c) x ≡ true) q h)
            ∙ sym (
                only_me d
                  (subst (λ x. has (update s.magazine me (f ∷ s.magazine me) d) x ≡ true) q k))
        | no n ↦ v.apart c d g (old c g n h) (old d g n k)
      ];
      nodup = λ c. elim (c == me) as (λ t. Nodup (if t then f ∷ s.magazine me else s.magazine c)) [
        | true ↦ (l.unstored me, v.nodup me)
        | false ↦ v.nodup c
      ];
      held_used = v.held_used;
      held_count = v.held_count;
      held_low = v.held_low;
      held_high = v.held_high;
      held_new = v.held_new;
    }

  -- A loose frame stays loose when another loose one is given back or put on a magazine.
  Loose-give_back :
      (s : Frames) (f g : ℕ) → (g ≡ f → ⊥) → Loose boot held s g → Loose boot held (give_back s f) g
  Loose-give_back s f g n l = record {
    used = let e = l.used in ground (arith, n, e);
    unstored = l.unstored;
    unheld = l.unheld;
    low = l.low;
    high = l.high;
    new = l.new;
  }

  Loose-pushed :
      (s : Frames) (me f g : ℕ)
      → (g ≡ f → ⊥)
      → Loose boot held s g
      → Loose boot held (popped s me (f ∷ s.magazine me)) g
  Loose-pushed s me f g n l = record {
    used = l.used;
    unstored = λ c. let a = l.unstored c in let b = l.unstored me in ground (arith, n, a, b);
    unheld = l.unheld;
    low = l.low;
    high = l.high;
    new = l.new;
  }

  Loose-kept :
      (s : Frames) (me f g : ℕ) (mag : List ℕ)
      → s.magazine me ≡ f ∷ mag
      → Loose boot held s g
      → Loose boot held (popped s me mag) g
  Loose-kept s me f g mag e l = record {
    used = l.used;
    unstored = λ c. let a = l.unstored c in let b = l.unstored me in ground (arith, e, a, b);
    unheld = l.unheld;
    low = l.low;
    high = l.high;
    new = l.new;
  }

  give_back_all-Inv :
      (n me g : ℕ) (s : Frames)
      → Inv boot held s
      → Loose boot held s g
      → Inv boot held (give_back_all n me s) × Loose boot held (give_back_all n me s) g
  unfolding give_back_all
  give_back_all-Inv zero me g s v l = (v, l)
  give_back_all-Inv (suc n) me g s v l =
      step (λ s' v' l'. give_back_all-Inv n me g s' v' l') (s.magazine me) refl
    where
      after : List ℕ → Frames
      after fs = elim fs [ [] ↦ s | f ∷ mag ↦ give_back_all n me (give_back (popped s me mag) f) ]

      other : (f : ℕ) (mag : List ℕ) → s.magazine me ≡ f ∷ mag → g ≡ f → ⊥
      other f mag e q = let a = l.unstored me in ground (arith, e, a, q)

      step :
          ((s' : Frames)
            → Inv boot held s'
            → Loose boot held s' g
            → Inv boot held (give_back_all n me s') × Loose boot held (give_back_all n me s') g)
          → (fs : List ℕ) → s.magazine me ≡ fs
          → Inv boot held (after fs) × Loose boot held (after fs) g
      step rec [] e = (v, l)
      step rec (f ∷ mag) e =
          rec (give_back (popped s me mag) f)
            (Inv-give_back (popped s me mag) f (Inv-popped s me f mag v e)
              (Loose-popped s me f mag v e))
            (Loose-give_back (popped s me mag) f g (other f mag e) (Loose-kept s me f g mag e l))

  pub release_frame-Inv :
      (s : Frames) (me f : ℕ)
      → Inv boot held s
      → Loose boot held s f
      → Inv boot held (release_frame s me f)
  unfolding release_frame
  release_frame-Inv s me f v l =
      elim (ltb (length (s.magazine me)) magazine_size)
        as (λ t. Inv boot held (
          if t
          then popped s me (f ∷ s.magazine me)
          else give_back (give_back_all (magazine_size / 2) me s) f)) [
            | true ↦ Inv-pushed s me f v l
            | false ↦
                let (v', l') = give_back_all-Inv 8 me f s v l in
                Inv-give_back (give_back_all 8 me s) f v' l'
          ]

  pub push_all-Inv :
      (fs mag : List ℕ) (s : Frames) (me : ℕ)
      → Nodup fs
      → s.magazine me ≡ mag
      → Inv boot held s
      → ((g : ℕ) → has fs g ≡ true → Loose boot held s g)
      → Inv boot held (popped s me (push_all fs mag))
  push_all-Inv [] mag s me n e v l = subst (Inv boot held) (sym (same s me mag e)) v
    where
      same : (s : Frames) (me : ℕ) (mag : List ℕ) → s.magazine me ≡ mag → popped s me mag ≡ s
      same s me mag e = ap (λ m. record s { magazine = m }) (fun_ext (λ c. at s me mag c e))
        where
          at :
              (s : Frames) (me : ℕ) (mag : List ℕ) (c : ℕ)
              → s.magazine me ≡ mag
              → update s.magazine me mag c ≡ s.magazine c
          at s me mag c e = ground (arith, e, ap s.magazine {x = c} {y = me})
  push_all-Inv (f ∷ fs) mag s me n e v l =
      let s1 = popped s me (f ∷ s.magazine me) in
      let m = ap (λ x. f ∷ x) e in
      let r =
        push_all-Inv fs (f ∷ mag) s1 me n.1 (at_me s me f ∙ m)
          (Inv-pushed s me f v (l f (ground arith)))
          (λ g h. Loose-pushed s me f g (differs g h n.0) (l g (ground (arith, h)))) in
      subst (Inv boot held) (twice s me (f ∷ s.magazine me) (push_all fs (f ∷ mag))) r
    where
      at_me :
          (s : Frames) (me f : ℕ)
          → (popped s me (f ∷ s.magazine me)).magazine me ≡ f ∷ s.magazine me
      at_me s me f = ground arith

      differs : (g : ℕ) → has fs g ≡ true → has fs f ≡ false → g ≡ f → ⊥
      differs g h n q = ground (arith, h, n, ap (has fs) q)

      at :
          (s : Frames) (me c : ℕ) (x y : List ℕ)
          → update (update s.magazine me x) me y c ≡ update s.magazine me y c
      at s me c x y = ground arith

      twice : (s : Frames) (me : ℕ) (x y : List ℕ) → popped (popped s me x) me y ≡ popped s me y
      twice s me x y = ap (λ m. record s { magazine = m }) (fun_ext (λ c. at s me c x y))
