-- ===== src/Hash.antt =====
-- include/kernel/hashtable.h, src/kernel/lib/hashtable.c: the chained hash table of pids and pipes. A
-- bucket is the list of its entries, each the caller's node with key and value, from the head on. A
-- value is not NULL.
pub mod Laws
mod Tests
use unix_os.Prelude.{
  ℕ, List, [], Option, add32, if◌then◌else◌, ◌∷◌, none, ◌==◌, ◌*◌, Result, some, ◌^◌, err, ◌%◌,
  einval, sub32, u32_mod, eexist, bit_xor, ok, ◌/◌,
}

abbrev pub hash_table_size : ℕ
hash_table_size = 1024

module _ {V : Type 0} where
  -- The chain from an entry on.
  pub find_entry : List (ℕ × V) → ℕ → Option V
  find_entry [] key = none
  find_entry ((k, v) ∷ es) key = let rest = find_entry es key in if k == key then some v else rest

  -- The loop of hash_table_remove: the chain without the first entry of that key.
  pub unlink_entry : List (ℕ × V) → ℕ → List (ℕ × V)
  unlink_entry [] key = []
  unlink_entry ((k, v) ∷ es) key =
      let rest = unlink_entry es key in if k == key then es else (k, v) ∷ rest

-- hash_function, on 32-bit words
pub hash_function : ℕ → ℕ
hash_function key =
    let h1 = add32 key (key * 2 ^ 10 % u32_mod) in
    let h2 = bit_xor h1 (h1 / 2 ^ 6) in
    let h3 = add32 h2 (h2 * 2 ^ 3 % u32_mod) in
    let h4 = bit_xor h3 (h3 / 2 ^ 11) in
    let h5 = add32 h4 (h4 * 2 ^ 15 % u32_mod) in h5 % hash_table_size

-- hash_table_t without its name: `buckets` gives the chain of each bucket.
pub record HashTable (V : Type 0) : Type 0 where
  pub buckets : ℕ → List (ℕ × V)
  pub count : ℕ

module _ {V : Type 0} where
  -- hash_table_init
  abbrev pub init : HashTable V
  init = record { buckets = λ b. []; count = 0 }

  abbrev pub put_bucket : (ℕ → List (ℕ × V)) → ℕ → List (ℕ × V) → ℕ → List (ℕ × V)
  put_bucket buckets b es c = if c == b then es else buckets c

  -- hash_table_insert; value none is NULL
  pub insert : HashTable V → ℕ → Option V → Result ℕ × HashTable V
  unfolding find_entry hash_function
  insert t key none = (err einval, t)
  insert t key (some value) =
      let b = hash_function key in
      elim (find_entry (t.buckets b) key) [
        | some old ↦ (err eexist, t)
        | none ↦ (
          ok 0,
          record {
            buckets = put_bucket t.buckets b ((key, value) ∷ t.buckets b);
            count = add32 t.count 1;
          },
        )
      ]

  -- hash_table_lookup
  pub lookup : HashTable V → ℕ → Option V
  lookup t key = find_entry (t.buckets (hash_function key)) key

  -- hash_table_remove: the value removed, and the table
  pub remove : HashTable V → ℕ → Option V × HashTable V
  unfolding find_entry unlink_entry
  remove t key =
      let b = hash_function key in
      elim (find_entry (t.buckets b) key) [
        | none ↦ (none, t)
        | some v ↦ (
          some v,
          record {
            buckets = put_bucket t.buckets b (unlink_entry (t.buckets b) key);
            count = sub32 t.count 1;
          },
        )
      ]
