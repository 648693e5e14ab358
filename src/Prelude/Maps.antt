-- ===== src/Prelude/Maps.antt =====
-- Membership of numbers in lists, and functions from numbers that are changed at one argument.
use Prim.Native.Nat.{ℕ}
use mathlib.Core.Bool.{Bool, false, ◌||◌}
use mathlib.Core.List.{List, [], ◌∷◌}
use unix_os.Prelude.Tests.{◌==◌, if◌then◌else◌}

abbrev pub has : List ℕ → ℕ → Bool
has [] g = false
has (f ∷ fs) g = g == f || has fs g

abbrev pub update {ℓ} : {A : Type ℓ} → (ℕ → A) → ℕ → A → ℕ → A
update f i v j = if j == i then v else f j
