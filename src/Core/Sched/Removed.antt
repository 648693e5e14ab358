-- ===== src/Core/Sched/Removed.antt =====
-- remove_from_queue takes a process out of the list of its queue, and ends within as many steps as there
-- are slots.
use unix_os.Prelude.{
  ℕ, ◌==◌, ◌≡◌, List, Option, ◌&&◌, ◌∷◌, leb, [], some, if◌then◌else◌, false, true, has, update, ap,
  none, suc, leb→le, arith, subst, length, refl, sym, ◌<◌, ==_iff, Bool-cases, zero, inl, inr, ◌∙◌,
}
use unix_os.Core.Sched.{
  remove_from_queue, Sched, head_of, points_to, remove_at, take_out, set_next, find_prev, set_head,
}
use unix_os.Core.Sched.Shape.{Lists, Shape, different_queues}
use unix_os.Core.Sched.Removing.{
  Removed, unchanged-Removed, tail_bound, erased-Shape, head-Removed, behind-Removed,
  set_head-keeps,
}
use unix_os.Core.Sched.Rings.{Ring, Seg, ring, cons, empty, nil}
use unix_os.Core.Sched.Unlink.{erase, erase-hit, find_prev-absent}
use unix_os.Core.Sched.Adding.{head_of-set_head}

module _ (slots : ℕ) (s : Sched) (ls : Lists) (v : Shape slots s ls) (c q p : ℕ) where
  remove_at-other :
      (fuel h : ℕ)
      → (h == p && points_to (s.next p) p) ≡ false
      → remove_at fuel s c q p (some h) ≡ take_out s c q p h (find_prev fuel s.next h p h)
  remove_at-other fuel h e =
      ap
        (λ b.
          if b
          then some (set_next (set_head s c q none) p none)
          else take_out s c q p h (find_prev fuel s.next h p h))
        e

  remove_at-single :
      (fuel h : ℕ)
      → (h == p && points_to (s.next p) p) ≡ true
      → remove_at fuel s c q p (some h) ≡ some (set_next (set_head s c q none) p none)
  remove_at-single fuel h e =
      ap
        (λ b.
          if b
          then some (set_next (set_head s c q none) p none)
          else take_out s c q p h (find_prev fuel s.next h p h))
        e

  -- The only process of a queue.
  single-Removed :
      (h : ℕ)
      → ls c q ≡ h ∷ []
      → s.next h ≡ some h
      → (h == p) ≡ true
      → Removed slots s ls c q p (remove_at slots s c q p (some h))
  single-Removed h z e y = record {
    nexts = update s.next p none;
    cpus = (set_head s c q none).cpus;
    is = remove_at-single slots h (ground (arith, e, y, ap s.next {x = h} {y = p}));
    shape =
        erased-Shape slots s ls v c q p (update s.next p none) (set_head s c q none).cpus
          (subst (λ x. Ring (update s.next p none) x (erase p (ls c q)))
            (sym (ground (arith, head_of-set_head s c q c q none)))
            (subst (λ l. Ring (update s.next p none) none (erase p l)) (sym z)
              (subst (Ring (update s.next p none) none) (sym (erase-hit p h [] y)) empty)))
          (λ d r m. ground (arith, m, head_of-set_head s c q d r none))
          (λ d r a m k. ground (
            arith,
            different_queues slots s ls v c q d r p a m (ap (λ l. has l p) z ∙ ground (arith, y)) k,
          ));
    current = λ d. (set_head-keeps s c q none d).0;
    idle = λ d. (set_head-keeps s c q none d).1;
  }

  miss-Removed :
      (h y : ℕ) (xs : List ℕ)
      → head_of s c q ≡ some h
      → ls c q ≡ h ∷ xs
      → s.next h ≡ some y
      → has xs h ≡ false
      → Seg s.next h y xs
      → (h == p) ≡ false
      → Removed slots s ls c q p (remove_at slots s c q p (some h))
  miss-Removed h y xs eh z e o g miss =
      let l = tail_bound slots s ls v c q p h xs z (ring e o g) in
      subst (Removed slots s ls c q p) (sym (remove_at-other slots h (ground (arith, miss))))
        (elim (Bool-cases (has xs p)) [
          | inl i ↦ behind-Removed slots s ls v c q p h y xs eh z e o g l miss i
          | inr i ↦
              unchanged-Removed slots s ls v c q p _
                (ap (take_out s c q p h) (find_prev-absent s.next h p slots h g e o i miss l))
                (ap (λ l. has l p) z ∙ ground (arith, i, miss))
        ])

  hit-Removed :
      (h y y' : ℕ) (xs : List ℕ) (fuel : ℕ)
      → slots ≡ fuel
      → ls c q ≡ h ∷ y ∷ xs
      → s.next h ≡ some y
      → has (y ∷ xs) h ≡ false
      → s.next y ≡ some y'
      → has xs y ≡ false
      → Seg s.next h y' xs
      → suc (length xs) < fuel
      → h ≡ p
      → Removed slots s ls c q p (remove_at fuel s c q p (some h))
  hit-Removed h y y' xs zero f z e o e' o' g l hp = absurd (omega (arith, l))
  hit-Removed h y y' xs (suc fuel) f z e o e' o' g l hp =
      subst (Removed slots s ls c q p)
        (sym (remove_at-other (suc fuel) h (ground (arith, e, o, ap s.next hp, hp))))
        (head-Removed slots s ls v c q p h y y' xs fuel f z e o e' o' g (omega (arith, l)) hp)

  at-Removed :
      (r : Option ℕ) (xs : List ℕ)
      → Ring s.next r xs
      → head_of s c q ≡ r
      → ls c q ≡ xs
      → Removed slots s ls c q p (remove_at slots s c q p r)
  at-Removed none xs empty eh z =
      unchanged-Removed slots s ls v c q p (some s) refl (ap (λ l. has l p) z)
  at-Removed (some h) xs (ring {q = y} {xs = t} e o g) eh z = elim (Bool-cases (h == p)) [
    | inr miss ↦ miss-Removed h y t eh z e o g miss
    | inl hit ↦ hit_at h y t e o g z hit
  ]
    where
      hit_at :
          (h y : ℕ) (t : List ℕ)
          → s.next h ≡ some y
          → has t h ≡ false
          → Seg s.next h y t
          → ls c q ≡ h ∷ t
          → (h == p) ≡ true
          → Removed slots s ls c q p (remove_at slots s c q p (some h))
      hit_at h _ _ e o nil z hit = single-Removed h z e hit
      hit_at h y _ e o (cons {q = y'} {xs = u} e' o' g) z hit =
          hit-Removed h y y' u slots refl z e o e' o' g
            (tail_bound slots s ls v c q p h (y ∷ u) z (ring e o (cons e' o' g)))
            ((==_iff h p).0 hit)

pub remove_from_queue-Removed :
    (slots : ℕ) (s : Sched) (ls : Lists) (c p : ℕ)
    → Shape slots s ls
    → Removed slots s ls c (s.queue p) p (remove_from_queue slots s c p)
unfolding remove_from_queue
remove_from_queue-Removed slots s ls c p v =
    let q = s.queue p in
    elim (leb 4 q)
        as (λ b.
          leb 4 q ≡ b
          → Removed slots s ls c q p
              (if b then some s else remove_at slots s c q p (head_of s c q))) [
                | true ↦ λ e.
                    unchanged-Removed slots s ls v c q p (some s) refl
                      (ap (λ l. has l p) (v.four c q (leb→le 4 q e)))
                | false ↦ λ e.
                    at-Removed slots s ls v c q p (head_of s c q) (ls c q) (v.circle c q) refl refl
              ]
      refl
