-- ===== src/Core/Sched/Adding.antt =====
-- add_to_queue and the step to the next head, on the lists of the queues.
use unix_os.Core.Sched.{Sched, add_to_queue, head_of, set_head, link_at}
use unix_os.Prelude.{
  ℕ, List, Option, has, if◌then◌else◌, leb, none, ◌≡◌, [], ◌∷◌, ◌==◌, some, ◌<◌, ◌≢◌, Bool-cases,
  arith, ◌||◌, true, refl, subst, ap, update, inl, sym, inr, ==_iff, ◌∙◌, false,
}
use unix_os.Core.Sched.Shape.{
  Lists, Shape, Unqueued, is_at, Change, put_list, Shape-put_list, different_queues,
}
use unix_os.Core.Sched.Rings.{
  Ring, turned, added, empty, has-append, Ring-turned, Ring-single, Ring-added, Ring-head,
}

pub head_of-set_head :
    (s : Sched) (c q d r : ℕ) (h : Option ℕ)
    → head_of (set_head s c q h) d r ≡ (if is_at c q d r then h else head_of s d r)
head_of-set_head s c q d r h = elim (Bool-cases (d == c)) [
  | inl e ↦ ground (arith, e, ap (λ k. (s.cpus k).head r) {x = d} {y = c})
  | inr e ↦ ground (arith, e)
]

pub Ring-none : {n : ℕ → Option ℕ} {xs : List ℕ} → Ring n none xs → xs ≡ []
Ring-none empty = refl

pub has-turned : (xs : List ℕ) (a : ℕ) → has (turned xs) a ≡ has xs a
has-turned [] a = refl
has-turned (x ∷ xs) a = ground (arith, has-append xs (x ∷ []) a)

pub has-added : (p : ℕ) (xs : List ℕ) (a : ℕ) → has (added p xs) a ≡ (a == p || has xs a)
has-added p [] a = refl
has-added p (x ∷ xs) a = ground arith

module _ (slots : ℕ) (s : Sched) (ls : Lists) (v : Shape slots s ls) (c q : ℕ) where
  pub turned-Change :
      (h : ℕ)
      → head_of s c q ≡ some h
      → Change slots s ls (set_head s c q (s.next h)) c q (turned (ls c q))
  turned-Change h e = record {
    circle =
        subst (λ x. Ring s.next x (turned (ls c q)))
          (sym (ground (arith, head_of-set_head s c q c q (s.next h))))
          (Ring-turned (subst (λ x. Ring s.next x (ls c q)) e (v.circle c q)));
    heads = λ d r m. ground (arith, m, head_of-set_head s c q d r (s.next h));
    nexts = λ d r a m i. refl;
    queues = λ d r a m i. refl;
    owners = λ d r a m i. refl;
    here = λ a i.
        let j = sym (has-turned (ls c q) a) ∙ i in
        (v.queue_is c q a j, v.owner_is c q a j, v.slot c q a j);
    four = λ l. ap turned (v.four c q l);
  }

  here_added :
      (p a : ℕ)
      → s.queue p ≡ q
      → s.owner p ≡ c
      → p < slots
      → has (added p (ls c q)) a ≡ true
      → (s.queue a ≡ q) × (s.owner a ≡ c) × (a < slots)
  here_added p a qp op lp i =
      elim (a == p)
          as (λ b.
            (a == p) ≡ b
            → (b || has (ls c q) a) ≡ true
            → (s.queue a ≡ q) × (s.owner a ≡ c) × (a < slots)) [
              | true ↦ λ e j.
                  subst (λ x. (s.queue x ≡ q) × (s.owner x ≡ c) × (x < slots))
                    (sym ((==_iff a p).0 e)) (qp, op, lp)
              | false ↦ λ e j. (v.queue_is c q a j, v.owner_is c q a j, v.slot c q a j)
            ]
        refl (sym (has-added p (ls c q) a) ∙ i)

  link_at-Change :
      (p : ℕ) (r : Option ℕ)
      → head_of s c q ≡ r
      → Unqueued ls p
      → s.queue p ≡ q
      → s.owner p ≡ c
      → p < slots
      → q < 4
      → Change slots s ls (link_at s c q p r) c q (added p (ls c q))
  link_at-Change p none e u qp op lp l =
      let z : ls c q ≡ [] = Ring-none (subst (λ x. Ring s.next x (ls c q)) e (v.circle c q)) in
      record {
        circle =
            subst (λ x. Ring (update s.next p (some p)) x (added p (ls c q)))
              (sym (ground (arith, head_of-set_head s c q c q (some p))))
              (subst (λ xs. Ring (update s.next p (some p)) (some p) (added p xs)) (sym z)
                (Ring-single s.next p));
        heads = λ d r m. ground (arith, m, head_of-set_head s c q d r (some p));
        nexts = λ d r a m i. ground (arith, i, u d r, ap (has (ls d r)) {x = a} {y = p});
        queues = λ d r a m i. refl;
        owners = λ d r a m i. refl;
        here = λ a i. here_added p a qp op lp i;
        four = λ m. absurd (omega (arith, l, m));
      }
  link_at-Change p (some h) e u qp op lp l =
      let w = subst (λ x. Ring s.next x (ls c q)) e (v.circle c q) in
      record {
        circle =
            subst (λ x. Ring (update (update s.next p (s.next h)) h (some p)) x (added p (ls c q)))
              (sym e) (Ring-added p w (u c q));
        heads = λ d r m. refl;
        nexts = λ d r a m i. ground (
          arith,
          i,
          u d r,
          ap (has (ls d r)) {x = a} {y = p},
          different_queues slots s ls v c q d r h a m (Ring-head w) i,
        );
        queues = λ d r a m i. refl;
        owners = λ d r a m i. refl;
        here = λ a i. here_added p a qp op lp i;
        four = λ m. absurd (omega (arith, l, m));
      }

-- What is written to the fields of a process in no queue does not matter.
pub Shape-fields :
    (slots : ℕ) (s : Sched) (ls : Lists) (p : ℕ) (t : Sched)
    → Shape slots s ls
    → Unqueued ls p
    → t.cpus ≡ s.cpus
    → t.next ≡ s.next
    → ((a : ℕ) → a ≢ p → t.queue a ≡ s.queue a)
    → ((a : ℕ) → a ≢ p → t.owner a ≡ s.owner a)
    → Shape slots t ls
Shape-fields slots s ls p t v u ec en eq eo = record {
  circle = λ c q.
      subst (λ n. Ring n (head_of t c q) (ls c q)) (sym en)
        (subst (λ k. Ring s.next ((k c).head q) (ls c q)) (sym ec) (v.circle c q));
  queue_is = λ c q a i. eq a (ne c q a i) ∙ v.queue_is c q a i;
  owner_is = λ c q a i. eo a (ne c q a i) ∙ v.owner_is c q a i;
  slot = v.slot;
  four = v.four;
}
  where
    ne : (c q a : ℕ) → has (ls c q) a ≡ true → a ≢ p
    ne c q a i z = absurd (ground (arith, i, u c q, ap (has (ls c q)) z))

abbrev pub bounded_queue : ℕ → ℕ
bounded_queue queue = if leb 4 queue then 3 else queue

pub add_to_queue-Shape :
    (slots : ℕ) (s : Sched) (ls : Lists) (c p queue : ℕ)
    → Shape slots s ls
    → Unqueued ls p
    → s.owner p ≡ c
    → p < slots
    → Shape slots
        (add_to_queue s c p queue)
        (put_list ls c (bounded_queue queue) (added p (ls c (bounded_queue queue))))
unfolding add_to_queue
add_to_queue-Shape slots s ls c p queue v u o l =
    let q = bounded_queue queue in
    let t : Sched = record s { queue = update s.queue p q } in
    let w = Shape-fields slots s ls p t v u refl refl (λ a n. ground (arith, n)) (λ a n. refl) in
    Shape-put_list slots t ls w _ c q _
      (link_at-Change slots t ls w c q p (head_of s c q) refl u (ground arith) o l (ground arith))
