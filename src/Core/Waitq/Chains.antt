-- ===== src/Core/Waitq/Chains.antt =====
-- Lists that end in NULL, through the next pointers of the entries.
use unix_os.Prelude.{
  ℕ, Option, List, none, has, Bool, [], ◌≡◌, false, some, true, ◌∷◌, subst, sym, ◌||◌, arith,
}
use unix_os.Core.Sched.Pick.{same}

pub data Chain (n : ℕ → Option ℕ) : Option ℕ → List ℕ → Type 0 where
  end : Chain n none []
  link : {e : ℕ} {xs : List ℕ} → has xs e ≡ false → Chain n (n e) xs → Chain n (some e) (e ∷ xs)

pub Chain-frame :
    {n m : ℕ → Option ℕ} {r : Option ℕ} {xs : List ℕ}
    → Chain n r xs
    → ((a : ℕ) → has xs a ≡ true → m a ≡ n a)
    → Chain m r xs
Chain-frame end same = end
Chain-frame {m = m} (link {e} {xs} o c) same = link o (
    subst (λ r. Chain m r xs) (sym (same e (ground arith)))
      (Chain-frame c (λ a i. same a (ground (arith, i)))))

-- The processes that sleep in the entries of a list.
abbrev pub sleeps : (ℕ → Option ℕ) → List ℕ → ℕ → Bool
sleeps proc [] p = false
sleeps proc (e ∷ xs) p = same (proc e) (some p) || sleeps proc xs p
