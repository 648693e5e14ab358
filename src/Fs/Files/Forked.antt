-- ===== src/Fs/Files/Forked.antt =====
-- The loop of src/kernel/core/fork.c over the descriptors, on the open files of all processes.
use unix_os.Prelude.{
  List, ℕ, length, ◌∷◌, Option, ◌<◌, get_or, ◌≡◌, if◌then◌else◌, ◌++◌, ap, [], ◌+◌, suc, arith, set,
  zero, refl, none, some, ◌∙◌, length-set, Bool-cases, u32_mod, add32, inr, inl, Option-cases,
}
use unix_os.Core.Fork.{copy_fds, Fd, open_file_incref, is_used, of_idx_decode}
use unix_os.Fs.Files.{OpenFile, max_files, file_at}
use unix_os.Fs.Files.Calls.{System, Owner, owner_at}
use unix_os.Fs.Files.Counts.{count_fds}
use unix_os.Fs.Files.System.{total, Balanced, total-set, count_le_total}
use unix_os.Core.Process.{Process}
use unix_os.Core.Fork.Laws.{count_refs, copy_fds-refs}

abbrev pub refcounts : {S : Type 0} → List (OpenFile S) → List ℕ
refcounts [] = []
refcounts (o ∷ os) = o.refcount ∷ refcounts os

abbrev pub with_refcounts : {S : Type 0} → List (OpenFile S) → List ℕ → List (OpenFile S)
with_refcounts [] refs = []
with_refcounts (o ∷ os) [] = o ∷ os
with_refcounts (o ∷ os) (r ∷ refs) = record o { refcount = r } ∷ with_refcounts os refs

-- Owner k forks, and the child is the last of the owners.
unfoldable pub fork_owner : {S : Type 0} → System S → ℕ → Option Process → System S
unfolding copy_fds
fork_owner sys k child =
    let w = owner_at sys.owners k in
    let (ps, cs, refs) = copy_fds w.fd_table (refcounts sys.open_files) in
    record {
      store = sys.store;
      open_files = with_refcounts sys.open_files refs;
      owners =
          set sys.owners k (record w { fd_table = ps })
          ++ record { current = child; fd_table = cs } ∷ [];
    }

-- The copies stand for the same open files.
copy_fds-count :
    (fds : List Fd) (refs : List ℕ) (k : ℕ)
    → let (ps, cs, last) = copy_fds fds refs in
      (count_fds ps k ≡ count_fds fds k)
      × (count_fds cs k ≡ count_fds fds k)
      × (length ps ≡ length fds)
      × (length cs ≡ length fds)
unfolding copy_fds
copy_fds-count [] refs k = (refl, refl, refl, refl)
copy_fds-count (fd ∷ fds) refs k =
    let refs' : List ℕ =
      if is_used fd
      then elim (of_idx_decode fd.of_idx) [ none ↦ refs | some raw ↦ open_file_incref refs raw ]
      else refs in
    let (p, c, lp, lc) = copy_fds-count fds refs' k in
    (ground (arith, p), ground (arith, c), ground (arith, lp), ground (arith, lc))

count_refs-count_fds :
    (fds : List Fd) (i : ℕ) → i < max_files → count_refs fds i ≡ count_fds fds (suc i)
count_refs-count_fds [] i l = refl
count_refs-count_fds (fd ∷ fds) i l = ground (arith, count_refs-count_fds fds i l, l)

total-append : (ws vs : List Owner) (k : ℕ) → total (ws ++ vs) k ≡ total ws k + total vs k
total-append [] vs k = omega arith
total-append (w ∷ ws) vs k = omega (arith, total-append ws vs k)

-- All tables of the owners have 64 entries.
abbrev Full : List Owner → Type 0
Full ws = (j : ℕ) → j < length ws → length (owner_at ws j).fd_table ≡ max_files

snoc-Full :
    (ws : List Owner) (v : Owner) → Full ws → length v.fd_table ≡ max_files → Full (ws ++ v ∷ [])
snoc-Full [] v h e zero l = e
snoc-Full [] v h e (suc j) l = absurd (omega arith)
snoc-Full (w ∷ ws) v h e zero l = h 0 (omega arith)
snoc-Full (w ∷ ws) v h e (suc j) l =
    snoc-Full ws v (λ i p. h (suc i) (omega arith)) e j (omega arith)

set-Full :
    (ws : List Owner) (k : ℕ) (w : Owner)
    → Full ws
    → length w.fd_table ≡ max_files
    → Full (set ws k w)
set-Full [] k w h e j l = absurd (omega arith)
set-Full (v ∷ ws) zero w h e zero l = e
set-Full (v ∷ ws) zero w h e (suc j) l = h (suc j) l
set-Full (v ∷ ws) (suc k) w h e zero l = h 0 (omega arith)
set-Full (v ∷ ws) (suc k) w h e (suc j) l =
    set-Full ws k w (λ i p. h (suc i) (omega arith)) e j (omega arith)

module _ {S : Type 0} where
  refcounts-at :
      (os : List (OpenFile S)) (i : ℕ) → get_or (refcounts os) i 0 ≡ (file_at os i).refcount
  refcounts-at [] i = refl
  refcounts-at (o ∷ os) zero = refl
  refcounts-at (o ∷ os) (suc i) = refcounts-at os i

  length-with_refcounts :
      (os : List (OpenFile S)) (refs : List ℕ) → length (with_refcounts os refs) ≡ length os
  length-with_refcounts [] refs = refl
  length-with_refcounts (o ∷ os) [] = refl
  length-with_refcounts (o ∷ os) (r ∷ refs) = ap suc (length-with_refcounts os refs)

  with_refcounts-at :
      (os : List (OpenFile S)) (refs : List ℕ) (i : ℕ)
      → i < length refs
      → i < length os
      → (file_at (with_refcounts os refs) i).refcount ≡ get_or refs i 0
  with_refcounts-at [] refs i r l = absurd (omega arith)
  with_refcounts-at (o ∷ os) [] i r l = absurd (omega arith)
  with_refcounts-at (o ∷ os) (n ∷ refs) zero r l = refl
  with_refcounts-at (o ∷ os) (n ∷ refs) (suc i) r l =
      with_refcounts-at os refs i (omega arith) (omega arith)

  length-refcounts : (os : List (OpenFile S)) → length (refcounts os) ≡ length os
  length-refcounts [] = refl
  length-refcounts (o ∷ os) = ap suc (length-refcounts os)

length-incref : (refs : List ℕ) (raw : ℕ) → length (open_file_incref refs raw) ≡ length refs
unfolding open_file_incref
length-incref refs raw = ground (arith, length-set refs raw (add32 (get_or refs raw 0) 1))

length-copy_fds-refs : (fds : List Fd) (refs : List ℕ) → length (copy_fds fds refs).2 ≡ length refs
unfolding copy_fds
length-copy_fds-refs [] refs = refl
length-copy_fds-refs (fd ∷ fds) refs = elim (Bool-cases (is_used fd)) [
  | inr n ↦ ground (arith, n, length-copy_fds-refs fds refs)
  | inl y ↦ elim (Option-cases (of_idx_decode fd.of_idx)) [
    | inl d ↦ ground (arith, y, d, length-copy_fds-refs fds refs)
    | inr (raw, d) ↦
        ground (
          arith,
          y,
          d,
          length-incref refs raw,
          length-copy_fds-refs fds (open_file_incref refs raw),
        )
  ]
]

-- The new count of file i.
module _ {S : Type 0} (sys : System S) (k : ℕ) (child : Option Process) where
  fork_owner-refcount :
      (i : ℕ)
      → i < max_files
      → k < length sys.owners
      → Balanced sys
      → (file_at sys.open_files i).refcount + max_files < u32_mod
      → (file_at (fork_owner sys k child).open_files i).refcount
        ≡ (file_at sys.open_files i).refcount + count_fds (owner_at sys.owners k).fd_table (suc i)
  unfolding fork_owner
  fork_owner-refcount i l lk (n, m, h) b =
      let t = (owner_at sys.owners k).fd_table in
      let refs = refcounts sys.open_files in
      let at = refcounts-at sys.open_files i in
      let b' : get_or refs i 0 + length t < u32_mod = omega (arith, at, b, m k lk) in
      ground (
        arith,
        with_refcounts-at sys.open_files (copy_fds t refs).2 i
            (omega (arith, length-copy_fds-refs t refs, length-refcounts sys.open_files, n, l))
            (omega (arith, n, l)),
        copy_fds-refs t refs i b',
        at,
        count_refs-count_fds t i l,
        count_le_total sys.owners k (suc i),
        h i l,
      )

  -- A fork by any process keeps the tables at 64 entries and the count of each open file the number of
  -- descriptors, of all processes and the child, that stand for it, where no count comes near 2 ^ 32.
  pub fork_owner-Balanced :
      k < length sys.owners
      → ((i : ℕ) → i < max_files → (file_at sys.open_files i).refcount + max_files < u32_mod)
      → Balanced sys
      → Balanced (fork_owner sys k child)
  unfolding fork_owner
  fork_owner-Balanced lk b (n, m, h) =
      let t = (owner_at sys.owners k).fd_table in
      let refs = refcounts sys.open_files in
      let ps = (copy_fds t refs).0 in
      let cs = (copy_fds t refs).1 in
      let w : Owner = record (owner_at sys.owners k) { fd_table = ps } in
      let v : Owner = record { current = child; fd_table = cs } in
      (
        length-with_refcounts sys.open_files (copy_fds t refs).2 ∙ n,
        snoc-Full (set sys.owners k w) v
            (set-Full sys.owners k w m (omega (arith, (copy_fds-count t refs 0).2, m k lk)))
            (omega (arith, (copy_fds-count t refs 0).3, m k lk)),
        λ i l. omega (
          arith,
          fork_owner-refcount i l lk (n, m, h) (b i l),
          h i l,
          total-append (set sys.owners k w) (v ∷ []) (suc i),
          total-set sys.owners k w (suc i) lk,
          (copy_fds-count t refs (suc i)).0,
          (copy_fds-count t refs (suc i)).1,
        ),
      )
