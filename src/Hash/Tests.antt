-- ===== src/Hash/Tests.antt =====
-- A table of numbers with the keys 5 and 6.
use unix_os.Prelude.{List, ℕ, ◌≡◌, none, if◌then◌else◌, ◌==◌, some, ok, ◌⊎◌, err, eexist, ◌∷◌, []}
use unix_os.Hash.Laws.{
  IsValid, Op, run, run-IsValid, lookup-remove, lookup-insert, do_insert, do_remove,
}
use unix_os.Hash.{lookup, remove, init, insert}

abbrev five_six : List (Op ℕ)
five_six = do_insert 5 (some 50) ∷ do_insert 6 (some 60) ∷ do_remove 7 ∷ []

run-IsValid_applied : IsValid (run init five_six)
run-IsValid_applied = run-IsValid five_six

lookup-insert_applied :
    ((lookup (run init five_six) 7 ≡ none)
      × ((insert (run init five_six) 7 (some 70)).0 ≡ ok 0)
      × (lookup (insert (run init five_six) 7 (some 70)).1 7
          ≡ (if 7 == 7 then some 70 else lookup (run init five_six) 7)))
    ⊎ (((old : ℕ) × (lookup (run init five_six) 7 ≡ some old))
        × (insert (run init five_six) 7 (some 70) ≡ (err eexist, run init five_six)))
lookup-insert_applied = lookup-insert (run init five_six) 7 70 7

lookup-remove_example :
    ((remove (run init five_six) 5).0 ≡ lookup (run init five_six) 5)
    × (lookup (remove (run init five_six) 5).1 6
        ≡ (if 5 == 6 then none else lookup (run init five_six) 6))
lookup-remove_example = lookup-remove (run init five_six) 5 6 (run-IsValid five_six)
