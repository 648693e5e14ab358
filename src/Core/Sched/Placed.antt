-- ===== src/Core/Sched/Placed.antt =====
-- scheduler_add_process and scheduler_remove_process on the lists of the queues.
use unix_os.Core.Sched.{
  add_to_queue, Sched, scheduler_add_process, scheduler_remove_process, queue_quantum,
}
use unix_os.Prelude.{
  ℕ, if◌then◌else◌, ltb, ◌%◌, ◌≡◌, ◌≢◌, some, ◌<◌, update, inl, add32, inr, refl, arith, subst, sym,
  ◌==◌, false,
}
use unix_os.Core.Sched.Shape.{Lists, Shape, Unqueued, Queued, put_list}
use unix_os.Core.Sched.Removed.{remove_from_queue-Removed}
use unix_os.Core.Sched.Rings.{added}
use unix_os.Core.Sched.Unlink.{erase}
use unix_os.Core.Sched.Stealing.{Unqueued-erased}
use native.Mathlib.Nat.{mod-lt}
use unix_os.Core.Process.{ready}
use unix_os.Core.Sched.Kept.{Queued-erased, Queued-added}
use unix_os.Core.Sched.Adding.{Shape-fields, add_to_queue-Shape}

target : Sched → ℕ
target s = if ltb 0 s.cpu_count then s.rr_counter % s.cpu_count else 0

-- Where every run queue is the circle of a list and p, which is not the kernel, is in none of them,
-- scheduler_add_process makes p the second of the first queue of one processor, or its only process, and
-- leaves the other lists as they are; the processor is one that there is if there is any.
pub scheduler_add_process-Shape :
    (slots : ℕ) (s : Sched) (ls : Lists) (p : ℕ)
    → Shape slots s ls
    → Unqueued ls p
    → p ≢ 0
    → p < slots
    → (c : ℕ) × (0 < s.cpu_count → c < s.cpu_count)
      × Shape slots (scheduler_add_process s p) (put_list ls c 0 (added p (ls c 0)))
      × (Queued (put_list ls c 0 (added p (ls c 0))) p)
unfolding scheduler_add_process target
scheduler_add_process-Shape slots s ls p v u nz l =
    let c = target s in
    let other : (p == 0) ≡ false = ground (arith, nz) in
    let t : Sched = record s {
      state = update s.state p ready;
      time_slice = update s.time_slice p (queue_quantum 0);
      rr_counter = add32 s.rr_counter 1;
      owner = update s.owner p c;
    } in
    let w = Shape-fields slots s ls p t v u refl refl (λ a n. refl) (λ a n. ground (arith, n)) in
    (
      c,
      λ pos. ground (arith, pos, mod-lt s.rr_counter pos),
      subst
          (λ b.
            Shape slots (if b then s else add_to_queue t c p 0)
              (put_list ls c 0 (added p (ls c 0))))
          (sym other) (add_to_queue-Shape slots t ls c p 0 w u (ground arith) l),
      (Queued-added ls c 0 p p).0 (inr refl),
    )

-- Where every run queue is the circle of a list, scheduler_remove_process ends, within as many steps of its
-- search as there are slots; the queues are circles again, the process is in none of them, and the other
-- processes in the queues are the same.
pub scheduler_remove_process-Unqueued :
    (slots : ℕ) (s : Sched) (ls : Lists) (p : ℕ)
    → Shape slots s ls
    → (t : Sched) × (rest : Lists) × (scheduler_remove_process slots s p ≡ some t)
      × Shape slots t rest
      × Unqueued rest p
      × ((a : ℕ) → a ≢ p → (Queued ls a → Queued rest a) × (Queued rest a → Queued ls a))
unfolding scheduler_remove_process
scheduler_remove_process-Unqueued slots s ls p v =
    let c = s.owner p in
    let q = s.queue p in
    let w = remove_from_queue-Removed slots s ls c p v in
    (
      record s { next = w.nexts; cpus = w.cpus },
      put_list ls c q (erase p (ls c q)),
      w.is,
      w.shape,
      Unqueued-erased slots s ls c q p v refl refl,
      λ a n. (
        λ i. elim ((Queued-erased ls c q p a).0 i) [ inl j ↦ j | inr e ↦ absurd (n e) ],
        (Queued-erased ls c q p a).1,
      ),
    )
