-- ===== src/Hash/Laws.antt =====
-- The table as a map from keys to values.
use unix_os.Prelude.{
  List, ℕ, ◌≡◌, ◌∷◌, none, if◌then◌else◌, ◌==◌, some, [], arith, ok, true, Bool-cases, ◌⊎◌, false,
  err, inl, ==_iff, subst, eexist, ◌∙◌, sym, Option-cases, ap, inr, Option, add32, sub32,
}
use unix_os.Hash.{
  HashTable, find_entry, unlink_entry, insert, remove, lookup, hash_function, put_bucket, init,
}

-- Calls that change a table.
pub data Op (V : Type 0) : Type 0 where
  do_insert : ℕ → Option V → Op V
  do_remove : ℕ → Op V

module _ {V : Type 0} where
  -- No key stands twice in a chain.
  pub Distinct : List (ℕ × V) → Type 0
  Distinct [] = Unit
  Distinct ((k, v) ∷ es) = (find_entry es k ≡ none) × Distinct es

  pub record IsValid (t : HashTable V) : Type 0 where
    pub distinct : (b : ℕ) → Distinct (t.buckets b)

  find_entry-unlink_entry :
      (es : List (ℕ × V)) (key k : ℕ)
      → Distinct es
      → find_entry (unlink_entry es key) k ≡ (if key == k then none else find_entry es k)
  unfolding find_entry unlink_entry Distinct
  find_entry-unlink_entry [] key k d = ground arith
  find_entry-unlink_entry ((k0, v) ∷ es) key k (n, d) =
      let r = find_entry-unlink_entry es key k d in
      elim (Bool-cases (k0 == key)) [
        | inl e ↦ elim (Bool-cases (key == k)) [
          | inl f ↦
              let q : k0 ≡ k = (==_iff k0 key).0 e ∙ (==_iff key k).0 f in
              ground (arith, e, f, ap (find_entry es) (sym q) ∙ n)
          | inr f ↦ let g : (k0 == k) ≡ false = other k0 key k e f in ground (arith, e, f, g)
        ]
        | inr e ↦ elim (Bool-cases (key == k)) [
          | inl f ↦ let g : (k0 == k) ≡ false = other' k0 key k e f in ground (arith, e, f, g, r)
          | inr f ↦ ground (arith, e, f, r)
        ]
      ]
    where
      other : (a b c : ℕ) → (a == b) ≡ true → (b == c) ≡ false → (a == c) ≡ false
      other a b c e f = ground (arith, e, f)

      other' : (a b c : ℕ) → (a == b) ≡ false → (b == c) ≡ true → (a == c) ≡ false
      other' a b c e f = ground (arith, e, f)

  Distinct-unlink_entry :
      (es : List (ℕ × V)) (key : ℕ) → Distinct es → Distinct (unlink_entry es key)
  unfolding Distinct unlink_entry
  Distinct-unlink_entry [] key d = d
  Distinct-unlink_entry ((k0, v) ∷ es) key (n, d) = elim (Bool-cases (k0 == key)) [
    | inl e ↦ subst Distinct (sym (ap (λ b. if b then es else (k0, v) ∷ unlink_entry es key) e)) d
    | inr e ↦
        subst Distinct (sym (ap (λ b. if b then es else (k0, v) ∷ unlink_entry es key) e))
          (absent es k0 key (find_entry-unlink_entry es key k0 d) n, Distinct-unlink_entry es key d)
  ]
    where
      absent :
          (es : List (ℕ × V)) (k0 key : ℕ)
          → find_entry (unlink_entry es key) k0 ≡ (if key == k0 then none else find_entry es k0)
          → find_entry es k0 ≡ none
          → find_entry (unlink_entry es key) k0 ≡ none
      absent es k0 key e n = ground (arith, e, n)

  -- An insert that returns 0 binds the key to the value and changes no other key. One whose key is
  -- bound returns EEXIST and changes nothing.
  pub lookup-insert :
      (t : HashTable V) (key : ℕ) (value : V) (k : ℕ)
      → ((lookup t key ≡ none)
          × ((insert t key (some value)).0 ≡ ok 0)
          × (lookup (insert t key (some value)).1 k
              ≡ (if key == k then some value else lookup t k)))
        ⊎ (((old : V) × (lookup t key ≡ some old)) × (insert t key (some value) ≡ (err eexist, t)))
  unfolding insert lookup find_entry
  lookup-insert t key value k =
      elim (Option-cases (find_entry (t.buckets (hash_function key)) key)) [
        | inr (old, e) ↦ inr ((old, e), ground (arith, e))
        | inl e ↦ elim (Bool-cases (key == k)) [
          | inl y ↦
              let q = ap hash_function ((==_iff key k).0 y) in
              inl (e, ground (arith, e), ground (arith, e, y, q))
          | inr n ↦ inl (
            e,
            ground (arith, e),
            ground (
              arith,
              e,
              n,
              ap (λ b. find_entry (t.buckets b) k) {x = hash_function key} {y = hash_function k},
            ),
          )
        ]
      ]

  -- remove returns what was bound to the key, unbinds it and changes no other key.
  pub lookup-remove :
      (t : HashTable V) (key k : ℕ)
      → IsValid t
      → ((remove t key).0 ≡ lookup t key)
        × (lookup (remove t key).1 k ≡ (if key == k then none else lookup t k))
  unfolding remove lookup
  lookup-remove t key k v =
      let b = hash_function key in
      let r = find_entry-unlink_entry (t.buckets b) key k (v.distinct b) in
      elim (Option-cases (find_entry (t.buckets b) key)) [
        | inl e ↦ elim (Bool-cases (key == k)) [
          | inl y ↦
              let q : key ≡ k = (==_iff key k).0 y in
              (
                ground (arith, e),
                ground (arith, e, y, ap (λ x. find_entry (t.buckets (hash_function x)) x) q),
              )
          | inr n ↦ (ground (arith, e), ground (arith, e, n))
        ]
        | inr (w, e) ↦ elim (Bool-cases (key == k)) [
          | inl y ↦
              (ground (arith, e), ground (arith, e, y, r, ap hash_function ((==_iff key k).0 y)))
          | inr n ↦ elim (Bool-cases (hash_function k == b)) [
            | inl c ↦ (
              ground (arith, e),
              ground (arith, e, n, r, c, ap t.buckets ((==_iff (hash_function k) b).0 c)),
            )
            | inr c ↦ (ground (arith, e), ground (arith, e, n, c))
          ]
        ]
      ]

  -- insert and remove keep a table valid.
  pub put_bucket-IsValid :
      (t : HashTable V) (b : ℕ) (es : List (ℕ × V)) (n : ℕ)
      → IsValid t
      → Distinct es
      → IsValid (record { buckets = put_bucket t.buckets b es; count = n })
  put_bucket-IsValid t b es n v d = record {
    distinct = λ c. elim (Bool-cases (c == b)) [
      | inl e ↦ subst Distinct (sym (ap (λ x. if x then es else t.buckets c) e)) d
      | inr e ↦ subst Distinct (sym (ap (λ x. if x then es else t.buckets c) e)) (v.distinct c)
    ];
  }

  insert-IsValid :
      (t : HashTable V) (key : ℕ) (value : Option V) → IsValid t → IsValid (insert t key value).1
  unfolding insert Distinct
  insert-IsValid t key none v = v
  insert-IsValid t key (some value) v =
      let b = hash_function key in
      elim (Option-cases (find_entry (t.buckets b) key)) [
        | inr (old, e) ↦ subst IsValid (sym (kept t key value old e)) v
        | inl e ↦
            subst IsValid (sym (put t key value e))
              (put_bucket-IsValid t b ((key, value) ∷ t.buckets b) _ v (e, v.distinct b))
      ]
    where
      kept :
          (t : HashTable V) (key : ℕ) (value old : V)
          → find_entry (t.buckets (hash_function key)) key ≡ some old
          → (insert t key (some value)).1 ≡ t
      kept t key value old e = ground (arith, e)

      put :
          (t : HashTable V) (key : ℕ) (value : V)
          → find_entry (t.buckets (hash_function key)) key ≡ none
          → (insert t key (some value)).1 ≡ record {
            buckets =
                put_bucket t.buckets
                  (hash_function key)
                  ((key, value) ∷ t.buckets (hash_function key));
            count = add32 t.count 1;
          }
      put t key value e = ground (arith, e)

  remove-IsValid : (t : HashTable V) (key : ℕ) → IsValid t → IsValid (remove t key).1
  unfolding remove
  remove-IsValid t key v =
      let b = hash_function key in
      elim (Option-cases (find_entry (t.buckets b) key)) [
        | inl e ↦ subst IsValid (sym (kept t key e)) v
        | inr (w, e) ↦
            subst IsValid (sym (put t key w e)) (
              put_bucket-IsValid t b _ _ v (Distinct-unlink_entry (t.buckets b) key (v.distinct b)))
      ]
    where
      kept :
          (t : HashTable V) (key : ℕ)
          → find_entry (t.buckets (hash_function key)) key ≡ none
          → (remove t key).1 ≡ t
      kept t key e = ground (arith, e)

      put :
          (t : HashTable V) (key : ℕ) (w : V)
          → find_entry (t.buckets (hash_function key)) key ≡ some w
          → (remove t key).1 ≡ record {
            buckets =
                put_bucket t.buckets
                  (hash_function key)
                  (unlink_entry (t.buckets (hash_function key)) key);
            count = sub32 t.count 1;
          }
      put t key w e = ground (arith, e)

  -- The table after a sequence of calls.
  pub run : HashTable V → List (Op V) → HashTable V
  run t [] = t
  run t (do_insert key value ∷ ops) = run (insert t key value).1 ops
  run t (do_remove key ∷ ops) = run (remove t key).1 ops

  init-IsValid : IsValid (init {V = V})
  unfolding Distinct
  init-IsValid = record { distinct = λ b. tt }

  run-keeps : (t : HashTable V) (ops : List (Op V)) → IsValid t → IsValid (run t ops)
  unfolding run
  run-keeps t [] v = v
  run-keeps t (do_insert key value ∷ ops) v =
      run-keeps (insert t key value).1 ops (insert-IsValid t key value v)
  run-keeps t (do_remove key ∷ ops) v = run-keeps (remove t key).1 ops (remove-IsValid t key v)

  -- Whatever is inserted into an empty table and removed from it, no key stands twice in a bucket.
  pub run-IsValid : (ops : List (Op V)) → IsValid (run init ops)
  run-IsValid ops = run-keeps init ops init-IsValid
