-- ===== src/Core/Sched/Shape.antt =====
-- The queues of all processors as lists of processes, and how they change one at a time.
use unix_os.Prelude.{
  ℕ, List, Bool, has, ◌==◌, if◌then◌else◌, ◌≡◌, ◌&&◌, true, false, ◌<◌, arith, ◌≢◌, ◌≤◌, subst, ap,
  [], ap₂, sym, ◌∙◌, refl,
}
use unix_os.Core.Sched.{Sched, head_of}
use unix_os.Core.Sched.Rings.{Ring, Ring-frame}

abbrev pub Lists : Type 0
Lists = ℕ → ℕ → List ℕ

abbrev pub is_at : ℕ → ℕ → ℕ → ℕ → Bool
is_at c q d r = d == c && r == q

abbrev pub put_list : Lists → ℕ → ℕ → List ℕ → Lists
put_list ls c q xs d r = if is_at c q d r then xs else ls d r

-- Each queue is the circle of its list, whose processes are slots, name that queue and are owned by that
-- processor; there are four queues.
pub record Shape (slots : ℕ) (s : Sched) (ls : Lists) : Type 0 where
  pub circle : (c q : ℕ) → Ring s.next (head_of s c q) (ls c q)
  pub queue_is : (c q p : ℕ) → has (ls c q) p ≡ true → s.queue p ≡ q
  pub owner_is : (c q p : ℕ) → has (ls c q) p ≡ true → s.owner p ≡ c
  pub slot : (c q p : ℕ) → has (ls c q) p ≡ true → p < slots
  pub four : (c q : ℕ) → 4 ≤ q → ls c q ≡ []

abbrev pub Queued : Lists → ℕ → Type 0
Queued ls p = (c : ℕ) × (q : ℕ) × (has (ls c q) p ≡ true)

abbrev pub Unqueued : Lists → ℕ → Type 0
Unqueued ls p = (c q : ℕ) → has (ls c q) p ≡ false

-- The list of one queue changes, and what the processes of the others have stays.
pub record Change (slots : ℕ) (s : Sched) (ls : Lists) (t : Sched) (c q : ℕ) (xs : List ℕ)
    : Type 0 where
  pub circle : Ring t.next (head_of t c q) xs
  pub heads : (d r : ℕ) → is_at c q d r ≡ false → head_of t d r ≡ head_of s d r
  pub nexts : (d r a : ℕ) → is_at c q d r ≡ false → has (ls d r) a ≡ true → t.next a ≡ s.next a
  pub queues : (d r a : ℕ) → is_at c q d r ≡ false → has (ls d r) a ≡ true → t.queue a ≡ s.queue a
  pub owners : (d r a : ℕ) → is_at c q d r ≡ false → has (ls d r) a ≡ true → t.owner a ≡ s.owner a
  pub here : (a : ℕ) → has xs a ≡ true → (t.queue a ≡ q) × (t.owner a ≡ c) × (a < slots)
  pub four : 4 ≤ q → xs ≡ []

module _ (slots : ℕ) (s : Sched) (ls : Lists) (v : Shape slots s ls) where
  pub Shape-put_list :
      (t : Sched) (c q : ℕ) (xs : List ℕ)
      → Change slots s ls t c q xs
      → Shape slots t (put_list ls c q xs)
  Shape-put_list t c q xs w = record {
    circle = λ d r.
        elim (is_at c q d r)
            as (λ b. is_at c q d r ≡ b → Ring t.next (head_of t d r) (if b then xs else ls d r)) [
              | true ↦ λ e.
                  subst (λ x. Ring t.next x xs)
                    (ground (arith, e, ap₂ (head_of t) {x = c} {y = d} {u = q} {v = r})) w.circle
              | false ↦ λ e.
                  subst (λ x. Ring t.next x (ls d r)) (sym (w.heads d r e))
                    (Ring-frame (v.circle d r) (λ a i. w.nexts d r a e i))
            ]
          refl;
    queue_is = λ d r a.
        elim (is_at c q d r)
            as (λ b. is_at c q d r ≡ b → has (if b then xs else ls d r) a ≡ true → t.queue a ≡ r) [
              | true ↦ λ e i. omega (arith, (w.here a i).0, at_eq d r e)
              | false ↦ λ e i. w.queues d r a e i ∙ v.queue_is d r a i
            ]
          refl;
    owner_is = λ d r a.
        elim (is_at c q d r)
            as (λ b. is_at c q d r ≡ b → has (if b then xs else ls d r) a ≡ true → t.owner a ≡ d) [
              | true ↦ λ e i. omega (arith, (w.here a i).1, at_eq d r e)
              | false ↦ λ e i. w.owners d r a e i ∙ v.owner_is d r a i
            ]
          refl;
    slot = λ d r a.
        elim (is_at c q d r) as (λ b. has (if b then xs else ls d r) a ≡ true → a < slots) [
          | true ↦ λ i. (w.here a i).2
          | false ↦ λ i. v.slot d r a i
        ];
    four = λ d r l.
        elim (is_at c q d r) as (λ b. is_at c q d r ≡ b → (if b then xs else ls d r) ≡ []) [
          | true ↦ λ e. w.four (omega (arith, at_eq d r e, l))
          | false ↦ λ e. v.four d r l
        ]
          refl;
  }
    where
      at_eq : (d r : ℕ) → is_at c q d r ≡ true → (d ≡ c) × (r ≡ q)
      at_eq d r e = ground (arith, e)

  -- Processes of different queues are different.
  pub different_queues :
      (c q d r a b : ℕ)
      → is_at c q d r ≡ false
      → has (ls c q) a ≡ true
      → has (ls d r) b ≡ true
      → b ≢ a
  different_queues c q d r a b e i j z = absurd (
      ground (
        arith,
        e,
        v.queue_is c q a i,
        v.owner_is c q a i,
        v.queue_is d r b j,
        v.owner_is d r b j,
        z,
        ap s.queue z,
        ap s.owner z,
      ))
