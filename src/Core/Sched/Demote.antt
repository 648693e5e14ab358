-- ===== src/Core/Sched/Demote.antt =====
-- demote_quantum_exhausted moves the current process to the queue below.
use unix_os.Prelude.{
  ℕ, Option, ◌≡◌, some, ◌<◌, refl, ◌||◌, not, update, ◌==◌, if◌then◌else◌, true, ◌+◌, none, false,
  ap, inl, inr, ◌∙◌, sym,
}
use unix_os.Core.Sched.Shape.{Lists, put_list}
use unix_os.Core.Sched.{Sched, remove_from_queue, add_to_queue}
use unix_os.Core.Sched.Pick.{demote_quantum_exhausted, go_on, same, demote_to, is_running}
use unix_os.Core.Sched.Kept.{Kept, Shape-heads, Queued-added, Queued-erased}
use unix_os.Core.Sched.Removed.{remove_from_queue-Removed}
use unix_os.Core.Process.{ready}
use unix_os.Core.Sched.Adding.{bounded_queue, add_to_queue-Shape}
use unix_os.Core.Sched.Unlink.{erase}
use unix_os.Core.Sched.Rings.{added}
use unix_os.Core.Sched.Stealing.{Unqueued-erased, add_to_queue-cpus, add_to_queue-owner}

-- A result with what a call of schedule keeps.
pub record Keeps (slots c : ℕ) (b ib : Option ℕ) (ls : Lists) (o : Option Sched) : Type 0 where
  pub after : Sched
  pub is : o ≡ some after
  pub kept : Kept slots c b ib ls after

module _ {slots c : ℕ} {b ib : Option ℕ} {ls : Lists} where
  pub same-Keeps : (s : Sched) → Kept slots c b ib ls s → Keeps slots c b ib ls (some s)
  same-Keeps s k = record { after = s; is = refl; kept = k }

  -- p is taken out of its queue, and put into another.
  moved-Keeps :
      (s : Sched) (k : Kept slots c b ib ls s) (p : ℕ)
      → b ≡ some p
      → p < slots
      → Keeps slots c b ib ls
          (go_on (remove_from_queue slots s c p) (λ s'. some (demote_to c p s')))
  moved-Keeps s k p e l =
      let w = remove_from_queue-Removed slots s k.lists c p k.shape in
      let t : Sched = record s { next = w.nexts; cpus = w.cpus } in
      let t' : Sched = record t { state = update s.state p ready } in
      let q = s.queue p in
      let r = bounded_queue (q + 1) in
      let ls1 = put_list k.lists c q (erase p (k.lists c q)) in
      let after = add_to_queue t' c p (q + 1) in
      record {
        after = after;
        is = ap (λ o. go_on o (λ s'. some (demote_to c p s'))) w.is;
        kept = record {
          lists = put_list ls1 c r (added p (ls1 c r));
          shape =
              add_to_queue-Shape slots t' ls1 c p (q + 1)
                (Shape-heads slots t ls1 t' w.shape refl refl refl (λ d u. refl))
                (Unqueued-erased slots s k.lists c q p k.shape refl (k.mine p e)) (k.mine p e) l;
          stay =
              λ a i. (Queued-added ls1 c r p a).0 ((Queued-erased k.lists c q p a).0 (k.stay a i));
          only = λ a i. elim ((Queued-added ls1 c r p a).1 i) [
            | inl j ↦ k.only a ((Queued-erased k.lists c q p a).1 j)
            | inr z ↦ inr (e ∙ ap some (sym z))
          ];
          current = (add_to_queue-cpus t' c p (q + 1) c).0 ∙ w.current c ∙ k.current;
          idle = (add_to_queue-cpus t' c p (q + 1) c).1 ∙ w.idle c ∙ k.idle;
          mine = λ a z. ap (λ f. f a) (add_to_queue-owner t' c p (q + 1)) ∙ k.mine a z;
        };
      }

  pub demote_quantum_exhausted-Keeps :
      (s : Sched) (k : Kept slots c b ib ls s) (cur : Option ℕ)
      → b ≡ cur
      → ((a : ℕ) → b ≡ some a → a < slots)
      → Keeps slots c b ib ls (demote_quantum_exhausted slots s c cur)
  unfolding demote_quantum_exhausted
  demote_quantum_exhausted-Keeps s k none e l = same-Keeps s k
  demote_quantum_exhausted-Keeps s k (some p) e l =
      elim (same (some p) (s.cpus c).idle
          || (not (is_running (s.state p)) || not ((s.cpus c).quantum_left == 0)))
        as (λ t. Keeps slots c b ib ls (
          if t
          then some s
          else go_on (remove_from_queue slots s c p) (λ s'. some (demote_to c p s')))) [
            | true ↦ same-Keeps s k
            | false ↦ moved-Keeps s k p e (l p e)
          ]
