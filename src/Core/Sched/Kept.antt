-- ===== src/Core/Sched/Kept.antt =====
-- What a call of schedule keeps on the way: the queues are circles, and no process comes or goes.
use unix_os.Core.Sched.Shape.{Lists, Queued, put_list, Shape, is_at, Shape-put_list}
use unix_os.Prelude.{
  ℕ, List, Option, has, ◌⊎◌, ◌==◌, ◌≡◌, arith, true, false, Bool-cases, some, subst, ◌∙◌, ◌∷◌, inl,
  ap₂, if◌then◌else◌, sym, inr, [], ap, ==_iff, refl,
}
use unix_os.Core.Sched.{Sched, head_of, set_head}
use unix_os.Core.Sched.Rings.{turned, added, Ring}
use unix_os.Core.Sched.Unlink.{erase, has-erase}
use unix_os.Core.Sched.Adding.{has-turned, has-added, turned-Change}
use unix_os.Core.Sched.Removing.{set_head-keeps}

put_here : (ls : Lists) (c q : ℕ) (xs : List ℕ) → put_list ls c q xs c q ≡ xs
put_here ls c q xs = ground arith

-- A process of a queue whose list changes.
Queued-put :
    (ls : Lists) (c q : ℕ) (xs : List ℕ) (a : ℕ)
    → (has (ls c q) a ≡ true → has xs a ≡ true)
    → Queued ls a
    → Queued (put_list ls c q xs) a
Queued-put ls c q xs a h (d, r, i) =
    elim (is_at c q d r) as (λ b. is_at c q d r ≡ b → Queued (put_list ls c q xs) a) [
      | true ↦ λ e. (
        c,
        q,
        ap (λ l. has l a) (put_here ls c q xs) ∙ h (sym (ap (λ l. has l a) (same_list d r e)) ∙ i),
      )
      | false ↦ λ e. (d, r, ap (λ b. has (if b then xs else ls d r) a) e ∙ i)
    ]
      refl
  where
    same_list : (d r : ℕ) → is_at c q d r ≡ true → ls d r ≡ ls c q
    same_list d r e = ap₂ ls (ground (arith, e)) (ground (arith, e))

-- A process queued after the change was there before, or is in the new list.
Queued-of_put :
    (ls : Lists) (c q : ℕ) (xs : List ℕ) (a : ℕ)
    → Queued (put_list ls c q xs) a
    → (has xs a ≡ true) ⊎ Queued ls a
Queued-of_put ls c q xs a (d, r, i) =
    elim (is_at c q d r)
        as (λ b. has (if b then xs else ls d r) a ≡ true → (has xs a ≡ true) ⊎ Queued ls a) [
          | true ↦ λ j. inl j
          | false ↦ λ j. inr (d, r, j)
        ]
      i

pub Queued-turned :
    (ls : Lists) (c q a : ℕ)
    → (Queued ls a → Queued (put_list ls c q (turned (ls c q))) a)
      × (Queued (put_list ls c q (turned (ls c q))) a → Queued ls a)
Queued-turned ls c q a = (
  Queued-put ls c q (turned (ls c q)) a (λ i. has-turned (ls c q) a ∙ i),
  λ k. elim (Queued-of_put ls c q (turned (ls c q)) a k) [
    | inl i ↦ (c, q, sym (has-turned (ls c q) a) ∙ i)
    | inr j ↦ j
  ],
)

pub Queued-added :
    (ls : Lists) (c q p a : ℕ)
    → (Queued ls a ⊎ (a ≡ p) → Queued (put_list ls c q (added p (ls c q))) a)
      × (Queued (put_list ls c q (added p (ls c q))) a → Queued ls a ⊎ (a ≡ p))
Queued-added ls c q p a = (to, from)
  where
    to : Queued ls a ⊎ (a ≡ p) → Queued (put_list ls c q (added p (ls c q))) a
    to (inl k) =
        Queued-put ls c q (added p (ls c q)) a (λ i. ground (arith, has-added p (ls c q) a, i)) k
    to (inr e) = (
      c,
      q,
      ap (λ l. has l a) (put_here ls c q (added p (ls c q)))
          ∙ ground (arith, has-added p (ls c q) a, e),
    )

    from : Queued (put_list ls c q (added p (ls c q))) a → Queued ls a ⊎ (a ≡ p)
    from k = elim (Queued-of_put ls c q (added p (ls c q)) a k) [
      | inr j ↦ inl j
      | inl i ↦ elim (Bool-cases (a == p)) [
        | inl e ↦ inr ((==_iff a p).0 e)
        | inr e ↦ inl (c, q, ground (arith, has-added p (ls c q) a, i, e))
      ]
    ]

has-erase-other :
    (p : ℕ) (xs : List ℕ) (a : ℕ) → (a == p) ≡ false → has xs a ≡ true → has (erase p xs) a ≡ true
has-erase-other p [] a n i = i
has-erase-other p (x ∷ xs) a n i = ground (arith, n, i, has-erase-other p xs a n)

pub Queued-erased :
    (ls : Lists) (c q p a : ℕ)
    → (Queued ls a → Queued (put_list ls c q (erase p (ls c q))) a ⊎ (a ≡ p))
      × (Queued (put_list ls c q (erase p (ls c q))) a → Queued ls a)
Queued-erased ls c q p a = (
  λ k. elim (Bool-cases (a == p)) [
    | inl e ↦ inr ((==_iff a p).0 e)
    | inr e ↦ inl (Queued-put ls c q (erase p (ls c q)) a (has-erase-other p (ls c q) a e) k)
  ],
  λ k. elim (Queued-of_put ls c q (erase p (ls c q)) a k) [
    | inl i ↦ (c, q, has-erase p (ls c q) a i)
    | inr j ↦ j
  ],
)

-- From the lists `ls`, the current process b and the idle process ib of processor c on: the queues are
-- circles, their processes are those of ls and perhaps b, and b still is current and owned by c.
pub record Kept (slots c : ℕ) (b ib : Option ℕ) (ls : Lists) (t : Sched) : Type 0 where
  pub lists : Lists
  pub shape : Shape slots t lists
  pub stay : (a : ℕ) → Queued ls a → Queued lists a
  pub only : (a : ℕ) → Queued lists a → Queued ls a ⊎ (b ≡ some a)
  pub current : (t.cpus c).current ≡ b
  pub idle : (t.cpus c).idle ≡ ib
  pub mine : (a : ℕ) → b ≡ some a → t.owner a ≡ c

-- Changes to what is no link, queue or owner.
pub Shape-heads :
    (slots : ℕ) (s : Sched) (ls : Lists) (t : Sched)
    → Shape slots s ls
    → t.next ≡ s.next
    → t.queue ≡ s.queue
    → t.owner ≡ s.owner
    → ((d r : ℕ) → head_of t d r ≡ head_of s d r)
    → Shape slots t ls
Shape-heads slots s ls t v en eq eo eh = record {
  circle = λ c q.
      subst (λ n. Ring n (head_of t c q) (ls c q)) (sym en)
        (subst (λ x. Ring s.next x (ls c q)) (sym (eh c q)) (v.circle c q));
  queue_is = λ c q a i. ap (λ f. f a) eq ∙ v.queue_is c q a i;
  owner_is = λ c q a i. ap (λ f. f a) eo ∙ v.owner_is c q a i;
  slot = v.slot;
  four = v.four;
}

module _ {slots c : ℕ} {b ib : Option ℕ} {ls : Lists} where
  -- The same processes in other lists.
  abbrev pub Kept-lists :
      {s : Sched} (k : Kept slots c b ib ls s) (t : Sched) (lists : Lists)
      → Shape slots t lists
      → ((a : ℕ) → (Queued k.lists a → Queued lists a) × (Queued lists a → Queued k.lists a))
      → ((t.cpus c).current ≡ (s.cpus c).current) × ((t.cpus c).idle ≡ (s.cpus c).idle)
      → ((a : ℕ) → b ≡ some a → t.owner a ≡ s.owner a)
      → Kept slots c b ib ls t
  Kept-lists k t lists v w e o = record {
    lists = lists;
    shape = v;
    stay = λ a i. (w a).0 (k.stay a i);
    only = λ a i. k.only a ((w a).1 i);
    current = e.0 ∙ k.current;
    idle = e.1 ∙ k.idle;
    mine = λ a i. o a i ∙ k.mine a i;
  }

  pub rotate-Kept :
      {s : Sched} (k : Kept slots c b ib ls s) (q h : ℕ)
      → head_of s c q ≡ some h
      → Kept slots c b ib ls (set_head s c q (s.next h))
  rotate-Kept {s} k q h e =
      Kept-lists k (set_head s c q (s.next h)) (put_list k.lists c q (turned (k.lists c q)))
        (Shape-put_list slots s k.lists k.shape _ c q _
          (turned-Change slots s k.lists k.shape c q h e))
        (Queued-turned k.lists c q) (set_head-keeps s c q (s.next h) c) (λ a i. refl)
