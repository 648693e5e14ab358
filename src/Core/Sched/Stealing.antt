-- ===== src/Core/Sched/Stealing.antt =====
-- try_steal_work moves a process from the queue of another processor, or does nothing.
use unix_os.Prelude.{
  ℕ, Option, ◌≡◌, update, List, some, has, none, ◌≢◌, true, arith, ◌∷◌, refl, ap, false, ◌∙◌,
  if◌then◌else◌, Bool-cases, subst, sym, inr, inl,
}
use unix_os.Core.Sched.{Sched, add_to_queue, link_at, steal_one, head_of, set_next}
use unix_os.Core.Sched.Shape.{Lists, Shape, Unqueued, put_list, is_at, different_queues}
use unix_os.Core.Sched.Kept.{Kept, Kept-lists, Queued-added, Queued-erased}
use unix_os.Core.Sched.Removing.{set_head-keeps, erased-Shape}
use unix_os.Core.Sched.Distinct.{erase-gone, Ring-Nodup}
use unix_os.Core.Sched.Rings.{Ring, ring, Seg, empty, Seg-frame, added}
use unix_os.Core.Sched.Unlink.{erase}
use unix_os.Core.Sched.Adding.{bounded_queue, Shape-fields, add_to_queue-Shape, has-added}

pub Unqueued-erased :
    (slots : ℕ) (s : Sched) (ls : Lists) (c q p : ℕ)
    → Shape slots s ls
    → s.queue p ≡ q
    → s.owner p ≡ c
    → Unqueued (put_list ls c q (erase p (ls c q))) p
Unqueued-erased slots s ls c q p v eq eo d r =
    elim (is_at c q d r)
        as (λ b. is_at c q d r ≡ b → has (if b then erase p (ls c q) else ls d r) p ≡ false) [
          | true ↦ λ e. erase-gone p (ls c q) (Ring-Nodup (v.circle c q))
          | false ↦ λ e. elim (Bool-cases (has (ls d r) p)) [
            | inr z ↦ z
            | inl i ↦ absurd (ground (arith, e, eq, eo, v.queue_is d r p i, v.owner_is d r p i))
          ]
        ]
      refl

link_at-cpus :
    (s : Sched) (c q p : ℕ) (r : Option ℕ) (d : ℕ)
    → (((link_at s c q p r).cpus d).current ≡ (s.cpus d).current)
      × (((link_at s c q p r).cpus d).idle ≡ (s.cpus d).idle)
link_at-cpus s c q p none d = set_head-keeps s c q (some p) d
link_at-cpus s c q p (some h) d = (refl, refl)

link_at-owner : (s : Sched) (c q p : ℕ) (r : Option ℕ) → (link_at s c q p r).owner ≡ s.owner
link_at-owner s c q p none = refl
link_at-owner s c q p (some h) = refl

pub add_to_queue-cpus :
    (s : Sched) (c p queue d : ℕ)
    → (((add_to_queue s c p queue).cpus d).current ≡ (s.cpus d).current)
      × (((add_to_queue s c p queue).cpus d).idle ≡ (s.cpus d).idle)
unfolding add_to_queue
add_to_queue-cpus s c p queue d =
    link_at-cpus (record s { queue = update s.queue p (bounded_queue queue) }) c
      (bounded_queue queue) p (head_of s c (bounded_queue queue)) d

pub add_to_queue-owner : (s : Sched) (c p queue : ℕ) → (add_to_queue s c p queue).owner ≡ s.owner
unfolding add_to_queue
add_to_queue-owner s c p queue =
    link_at-owner (record s { queue = update s.queue p (bounded_queue queue) }) c
      (bounded_queue queue) p (head_of s c (bounded_queue queue))

pub Ring-some :
    {n : ℕ → Option ℕ} {r : Option ℕ} {xs : List ℕ} (a : ℕ)
    → Ring n r xs
    → has xs a ≡ true
    → (h : ℕ) × (r ≡ some h)
Ring-some a empty i = absurd (ground (arith, i))
Ring-some a (ring {h} e o s) i = (h, refl)

-- What try_steal_work returns and leaves.
pub record Stolen (slots c : ℕ) (b ib : Option ℕ) (ls : Lists) (o : Option (Option ℕ × Sched))
    : Type 0 where
  pub pick : Option ℕ
  pub after : Sched
  pub is : o ≡ some (pick, after)
  pub kept : Kept slots c b ib ls after
  pub here : (a : ℕ) → pick ≡ some a → has (kept.lists c (after.queue a)) a ≡ true

module _ {slots c : ℕ} {b ib : Option ℕ} {ls : Lists} where
  pub nothing-Stolen :
      (s : Sched) → Kept slots c b ib ls s → Stolen slots c b ib ls (some (none, s))
  nothing-Stolen s k = record {
    pick = none;
    after = s;
    is = refl;
    kept = k;
    here = λ a e. absurd (ground (arith, e));
  }

  -- p stands behind the head h in a queue of another processor.
  pub steal_one-Stolen :
      (s : Sched) (k : Kept slots c b ib ls s) (v q h p y : ℕ) (t : List ℕ)
      → v ≢ c
      → head_of s v q ≡ some h
      → k.lists v q ≡ h ∷ p ∷ t
      → has (p ∷ t) h ≡ false
      → s.next p ≡ some y
      → has t p ≡ false
      → Seg s.next h y t
      → Stolen slots c b ib ls (some (some p, steal_one s c h p))
  unfolding steal_one
  steal_one-Stolen s k v q h p y t vc eh z o e o' g =
      let n : ℕ → Option ℕ = update (update s.next h (s.next p)) p none in
      let s1 = set_next (set_next s h (s.next p)) p none in
      let s2 : Sched = record s1 { owner = update s.owner p c } in
      let s3 = add_to_queue s2 c p (s.queue p) in
      let ip : has (k.lists v q) p ≡ true = ap (λ l. has l p) z ∙ ground arith in
      let ih : has (k.lists v q) h ≡ true = ap (λ l. has l h) z ∙ ground arith in
      let ls1 = put_list k.lists v q (erase p (k.lists v q)) in
      let w : Ring n (some h) (h ∷ t) = ring (ground (arith, e, o)) (ground (arith, o)) (
        Seg-frame g (λ a i.
          ground (arith, i, o, o', ap (has t) {x = a} {y = h}, ap (has t) {x = a} {y = p}))) in
      let e1 : erase p (k.lists v q) ≡ h ∷ t = ap (erase p) z ∙ ground (arith, o) in
      let v1 : Shape slots s1 ls1 =
        erased-Shape slots s k.lists k.shape v q p n s.cpus
          (subst (λ x. Ring n x (erase p (k.lists v q))) (sym eh)
            (subst (Ring n (some h)) (sym e1) w))
          (λ d r m. refl)
          (λ d r a m i. ground (
            arith,
            different_queues slots s k.lists k.shape v q d r h a m ih i,
            different_queues slots s k.lists k.shape v q d r p a m ip i,
          )) in
      let u =
        Unqueued-erased slots s k.lists v q p k.shape (k.shape.queue_is v q p ip)
          (k.shape.owner_is v q p ip) in
      let v2 =
        Shape-fields slots s1 ls1 p s2 v1 u refl refl (λ a m. refl) (λ a m. ground (arith, m)) in
      let r = bounded_queue (s.queue p) in
      let v3 =
        add_to_queue-Shape slots s2 ls1 c p (s.queue p) v2 u (ground arith)
          (k.shape.slot v q p ip) in
      let kept : Kept slots c b ib ls s3 =
        Kept-lists k s3 (put_list ls1 c r (added p (ls1 c r))) v3
          (λ a. (
            λ i. (Queued-added ls1 c r p a).0 ((Queued-erased k.lists v q p a).0 i),
            λ i. elim ((Queued-added ls1 c r p a).1 i) [
              | inl j ↦ (Queued-erased k.lists v q p a).1 j
              | inr m ↦ (v, q, ap (has (k.lists v q)) m ∙ ip)
            ],
          ))
          (add_to_queue-cpus s2 c p (s.queue p) c)
          (λ a i.
            ap (λ f. f a) (add_to_queue-owner s2 c p (s.queue p))
            ∙ ground
                (arith, k.mine a i, k.shape.owner_is v q p ip, vc, ap s.owner {x = a} {y = p})) in
      let pr : has (put_list ls1 c r (added p (ls1 c r)) c r) p ≡ true =
        ground (arith, has-added p (ls1 c r) p) in
      record {
        pick = some p;
        after = s3;
        is = refl;
        kept = kept;
        here = λ a m.
            subst (λ x. has (kept.lists c (s3.queue x)) x ≡ true) (ground (arith, m))
              (ap (λ x. has (kept.lists c x) p) (v3.queue_is c r p pr) ∙ pr);
      }
