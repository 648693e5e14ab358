-- ===== src/Core/Sched/Removing.antt =====
-- remove_from_queue on the lists of the queues.
use unix_os.Prelude.{
  ℕ, Option, List, length, has, ◌≡◌, ◌∷◌, false, true, some, ◌==◌, arith, ◌<◌, subst, Bool-cases,
  if◌then◌else◌, ap, sym, none, suc, inl, update, inr, refl, ◌∙◌, ==_iff,
}
use unix_os.Core.Sched.{before, Sched, Cpu, set_head, head_of, set_next, find_prev, take_out}
use unix_os.Core.Sched.Rings.{Seg, Ring, ring, Ring-frame}
use unix_os.Core.Sched.Shape.{Lists, Shape, is_at, put_list, Shape-put_list, different_queues}
use unix_os.Core.Sched.Unlink.{
  erase, has-erase, not_has-erase, find_prev-Found, find_prev-Last, erase-miss, find_miss,
  erase-hit,
}
use unix_os.Core.Sched.Adding.{head_of-set_head}
use unix_os.Core.Sched.Distinct.{erase-absent, length-le_bound, erase-gone, Ring-Nodup, Seg-Nodup}

take_out-miss :
    (s : Sched) (c q p h spot : ℕ)
    → (h == p) ≡ false
    → take_out s c q p h (before spot) ≡ some (set_next (set_next s spot (s.next p)) p none)
take_out-miss s c q p h spot e =
    let s1 = set_next s spot (s.next p) in
    ap (λ b. some (set_next (if b then set_head s1 c q (s1.next p) else s1) p none)) e

take_out-hit :
    (s : Sched) (c q p h spot : ℕ)
    → (h == p) ≡ true
    → take_out s c q p h (before spot)
      ≡ some (
          set_next
            (set_head (set_next s spot (s.next p)) c q (update s.next spot (s.next p) p))
            p
            none)
take_out-hit s c q p h spot e =
    let s1 = set_next s spot (s.next p) in
    ap (λ b. some (set_next (if b then set_head s1 c q (s1.next p) else s1) p none)) e

pub set_head-keeps :
    (t : Sched) (c q : ℕ) (h : Option ℕ) (d : ℕ)
    → (((set_head t c q h).cpus d).current ≡ (t.cpus d).current)
      × (((set_head t c q h).cpus d).idle ≡ (t.cpus d).idle)
set_head-keeps t c q h d = elim (Bool-cases (d == c)) [
  | inl e ↦ (
    ground (arith, e, ap (λ k. (t.cpus k).current) {x = d} {y = c}),
    ground (arith, e, ap (λ k. (t.cpus k).idle) {x = d} {y = c}),
  )
  | inr e ↦ (ground (arith, e), ground (arith, e))
]

-- What remove_from_queue leaves: p is out of the list of its queue, and the fields that are not links are
-- as before.
pub record Removed (slots : ℕ) (s : Sched) (ls : Lists) (c q p : ℕ) (o : Option Sched)
    : Type 0 where
  pub nexts : ℕ → Option ℕ
  pub cpus : ℕ → Cpu
  pub is : o ≡ some (record s { next = nexts; cpus = cpus })
  pub shape :
      Shape slots (record s { next = nexts; cpus = cpus }) (put_list ls c q (erase p (ls c q)))
  pub current : (d : ℕ) → (cpus d).current ≡ (s.cpus d).current
  pub idle : (d : ℕ) → (cpus d).idle ≡ (s.cpus d).idle

module _ (slots : ℕ) (s : Sched) (ls : Lists) (v : Shape slots s ls) (c q p : ℕ) where
  pub erased-Shape :
      (n : ℕ → Option ℕ) (ks : ℕ → Cpu)
      → Ring n ((ks c).head q) (erase p (ls c q))
      → ((d r : ℕ) → is_at c q d r ≡ false → (ks d).head r ≡ head_of s d r)
      → ((d r a : ℕ) → is_at c q d r ≡ false → has (ls d r) a ≡ true → n a ≡ s.next a)
      → Shape slots (record s { next = n; cpus = ks }) (put_list ls c q (erase p (ls c q)))
  erased-Shape n ks w heads nexts =
      Shape-put_list slots s ls v (record s { next = n; cpus = ks }) c q (erase p (ls c q))
        (record {
          circle = w;
          heads = heads;
          nexts = nexts;
          queues = λ d r a m i. refl;
          owners = λ d r a m i. refl;
          here = λ a i.
              let j = has-erase p (ls c q) a i in
              (v.queue_is c q a j, v.owner_is c q a j, v.slot c q a j);
          four = λ l. ap (erase p) (v.four c q l);
        })

  -- Nothing is done.
  pub unchanged-Removed :
      (o : Option Sched) → o ≡ some s → has (ls c q) p ≡ false → Removed slots s ls c q p o
  unchanged-Removed o e z = record {
    nexts = s.next;
    cpus = s.cpus;
    is = e;
    shape =
        erased-Shape s.next s.cpus
          (subst (λ xs. Ring s.next (head_of s c q) xs) (sym (erase-absent p (ls c q) z))
            (v.circle c q))
          (λ d r m. refl) (λ d r a m i. refl);
    current = λ d. refl;
    idle = λ d. refl;
  }

  -- The links of p and of `spot`, both of this queue, change, and the head.
  relinked-Removed :
      (o : Option Sched) (spot : ℕ) (h : Option ℕ)
      → o ≡ some (set_next (set_head (set_next s spot (s.next p)) c q h) p none)
      → has (ls c q) spot ≡ true
      → has (ls c q) p ≡ true
      → Ring (update (update s.next spot (s.next p)) p none) h (erase p (ls c q))
      → Removed slots s ls c q p o
  relinked-Removed o spot h e i j w = record {
    nexts = update (update s.next spot (s.next p)) p none;
    cpus = (set_head s c q h).cpus;
    is = e;
    shape =
        erased-Shape (update (update s.next spot (s.next p)) p none) (set_head s c q h).cpus
          (subst (λ x. Ring (update (update s.next spot (s.next p)) p none) x (erase p (ls c q)))
            (sym (ground (arith, head_of-set_head s c q c q h))) w)
          (λ d r m. ground (arith, m, head_of-set_head s c q d r h))
          (λ d r a m k. ground (
            arith,
            different_queues slots s ls v c q d r spot a m i k,
            different_queues slots s ls v c q d r p a m j k,
          ));
    current = λ d. (set_head-keeps s c q h d).0;
    idle = λ d. (set_head-keeps s c q h d).1;
  }

  -- The same where the head stays.
  kept_head-Removed :
      (o : Option Sched) (spot : ℕ)
      → o ≡ some (set_next (set_next s spot (s.next p)) p none)
      → has (ls c q) spot ≡ true
      → has (ls c q) p ≡ true
      → Ring (update (update s.next spot (s.next p)) p none) (head_of s c q) (erase p (ls c q))
      → Removed slots s ls c q p o
  kept_head-Removed o spot e i j w = record {
    nexts = update (update s.next spot (s.next p)) p none;
    cpus = s.cpus;
    is = e;
    shape =
        erased-Shape (update (update s.next spot (s.next p)) p none) s.cpus w (λ d r m. refl)
          (λ d r a m k. ground (
            arith,
            different_queues slots s ls v c q d r spot a m i k,
            different_queues slots s ls v c q d r p a m j k,
          ));
    current = λ d. refl;
    idle = λ d. refl;
  }

  pub tail_bound :
      (h : ℕ) (xs : List ℕ) → ls c q ≡ h ∷ xs → Ring s.next (some h) (h ∷ xs) → length xs < slots
  tail_bound h xs z w = omega (
    arith,
    length-le_bound slots (h ∷ xs) (Ring-Nodup w) (λ a i. v.slot c q a (ap (λ l. has l a) z ∙ i)),
  )

  -- p is behind the head h.
  pub behind-Removed :
      (h y : ℕ) (xs : List ℕ)
      → head_of s c q ≡ some h
      → ls c q ≡ h ∷ xs
      → s.next h ≡ some y
      → has xs h ≡ false
      → Seg s.next h y xs
      → length xs < slots
      → (h == p) ≡ false
      → has xs p ≡ true
      → Removed slots s ls c q p (take_out s c q p h (find_prev slots s.next h p h))
  behind-Removed h y xs eh z e o g l miss i =
      let r = find_prev-Found s.next h p slots h g e o o i l in
      let n : ℕ → Option ℕ = update (update s.next r.spot (s.next p)) p none in
      let w : Ring n (some h) (h ∷ erase p xs) =
        Ring-frame (ring r.step (not_has-erase p xs h o) r.rest) (λ a k.
          ground (
            arith,
            k,
            miss,
            erase-gone p xs (Seg-Nodup g),
            ap (has (erase p xs)) {x = a} {y = p},
          )) in
      kept_head-Removed _ r.spot
        (ap (take_out s c q p h) r.found ∙ take_out-miss s c q p h r.spot miss)
        (ap (λ l. has l r.spot) z ∙ r.inside) (ap (λ l. has l p) z ∙ ground (arith, i))
        (subst (λ l. Ring n (head_of s c q) (erase p l)) (sym z)
          (subst (λ x. Ring n x (erase p (h ∷ xs))) (sym eh)
            (subst (Ring n (some h)) (sym (erase-miss p h xs miss)) w)))

  -- p is the head, and y the second.
  pub head-Removed :
      (h y y' : ℕ) (xs : List ℕ) (fuel : ℕ)
      → slots ≡ suc fuel
      → ls c q ≡ h ∷ y ∷ xs
      → s.next h ≡ some y
      → has (y ∷ xs) h ≡ false
      → s.next y ≡ some y'
      → has xs y ≡ false
      → Seg s.next h y' xs
      → length xs < fuel
      → h ≡ p
      → Removed slots s ls c q p (take_out s c q p h (find_prev (suc fuel) s.next h p h))
  head-Removed h y y' xs fuel f z e o e' o' g l hp =
      let ep : s.next p ≡ some y = subst (λ a. s.next a ≡ some y) hp e in
      let r = find_prev-Last s.next h p fuel y y g hp ep e' o' (ground (arith, o)) l in
      let n : ℕ → Option ℕ = update (update s.next r.spot (s.next p)) p none in
      let hit : (h == p) ≡ true = (==_iff h p).1 hp in
      let op : has (y ∷ xs) p ≡ false = subst (λ a. has (y ∷ xs) a ≡ false) hp o in
      let w : Ring n (some y) (y ∷ xs) =
        Ring-frame (ring r.step o' r.rest)
          (λ a k. ground (arith, k, op, ap (has (y ∷ xs)) {x = a} {y = p})) in
      let second : update s.next r.spot (s.next p) p ≡ some y =
        ground (arith, ep, r.inside, op, ap (has (y ∷ xs)) {x = p} {y = r.spot}) in
      let walk : find_prev (suc fuel) s.next h p h ≡ before r.spot =
        find_miss s.next h p fuel h y e (ground (arith, op)) (ground (arith, o)) ∙ r.found in
      relinked-Removed _ r.spot (some y)
        (ap (take_out s c q p h) walk
          ∙ take_out-hit s c q p h r.spot hit
          ∙ ap (λ x. some (set_next (set_head (set_next s r.spot (s.next p)) c q x) p none)) second)
        (ap (λ l. has l r.spot) z ∙ ground (arith, r.inside))
        (ap (λ l. has l p) z ∙ ground (arith, hit))
        (subst (λ l. Ring n (some y) (erase p l)) (sym z)
          (subst (Ring n (some y)) (sym (erase-hit p h (y ∷ xs) hit)) w))
