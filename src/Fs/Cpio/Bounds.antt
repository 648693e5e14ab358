-- ===== src/Fs/Cpio/Bounds.antt =====
-- The loop over the archive ends, and what it takes lies in the archive.
use unix_os.Prelude.{
  take, drop, List, ℕ, ◌∷◌, ◌≡◌, ◌+◌, length, some, ◌≤◌, ◌<◌, [], arith, u32_mod, ltb, ◌-◌, ◌||◌,
  if◌then◌else◌, true, Option, ◌==◌, Bool, length-take, suc, false, length-drop, none, option_map,
  refl, not, zero, ap, sub32, subst, sym, add32,
}
use unix_os.Fs.Cpio.{
  Entry, Parsed, until_nul, header_len, parsed, ended, with_name, malformed, pad4, trailer, field,
  next_entry, load_loop, initramfs_load, magic, stage, slice, skip, parsed_at, with_header,
  is_staged, overrun, with_name_area,
}
use unix_os.Fs.Mount.{str_eq}

-- The bytes of the header, the name with its NUL, and the content of all entries.
abbrev pub total_bytes : List Entry → ℕ
total_bytes [] = 0
total_bytes (e ∷ es) = header_len + length e.name + 1 + length e.content + total_bytes es

-- An entry and what is left after it fit into what was left before.
abbrev Taken : ℕ → Parsed → Type 0
Taken n ended = Unit {0}
Taken n malformed = Unit {0}
Taken n overrun = ⊥
Taken n (parsed e rest) = header_len + length e.name + 1 + length e.content + length rest ≤ n

abbrev Shorter : ℕ → Option (List ℕ) → Type 0
Shorter n none = Unit {0}
Shorter n (some name) = length name < n

cons-Shorter :
    (c n : ℕ) (r : Option (List ℕ)) → Shorter n r → Shorter (suc n) (option_map (λ t. c ∷ t) r)
cons-Shorter c n none h = tt
cons-Shorter c n (some name) h = omega (arith, h)

until_nul-Shorter : (s : List ℕ) → Shorter (length s) (until_nul s)
until_nul-Shorter [] = tt
until_nul-Shorter (c ∷ s) =
    elim (c == 0)
      as (λ b.
        Shorter (suc (length s)) (if b then some [] else option_map (λ t. c ∷ t) (until_nul s))) [
          | true ↦ omega arith
          | false ↦ cons-Shorter c (length s) (until_nul s) (until_nul-Shorter s)
        ]

if-Taken :
    (n : ℕ) (b : Bool) (x y : Parsed)
    → Taken n x
    → (b ≡ false → Taken n y)
    → Taken n (if b then x else y)
if-Taken n true x y p q = p
if-Taken n false x y p q = q refl

pad4_le : (n m : ℕ) → n + 3 < u32_mod → (n ≤ pad4 n) × (n + m ≤ pad4 n + m)
pad4_le n m h = (omega (arith, h), omega (arith, h))

slice-some :
    (offset n : ℕ) (bs : List ℕ)
    → offset + n ≤ length bs
    → slice offset n bs ≡ some (take n (drop offset bs))
slice-some offset n bs l = ground (arith, l)

skip-some : (n : ℕ) (bs : List ℕ) → n ≤ length bs → skip n bs ≡ some (drop n bs)
skip-some n bs l = ground (arith, l)

-- Content and rest are in the archive, so that an entry is parsed.
parsed_at-Taken :
    (mode : ℕ) (bs name : List ℕ) (name_padded filesize step : ℕ)
    → header_len + length name + 1 ≤ name_padded
    → name_padded + filesize ≤ step
    → step ≤ length bs
    → Taken (length bs) (parsed_at mode name (slice name_padded filesize bs) (skip step bs))
parsed_at-Taken mode bs name name_padded filesize step k l m =
    subst (λ c. Taken (length bs) (parsed_at mode name c (skip step bs)))
      (sym (slice-some name_padded filesize bs (omega (arith, l, m))))
      (subst
        (λ r.
          Taken (length bs) (parsed_at mode name (some (take filesize (drop name_padded bs))) r))
        (sym (skip-some step bs m))
        (omega (arith, length-take filesize (drop name_padded bs), length-drop step bs, k, l, m)))

with_name-Taken :
    (bs header : List ℕ) (name_padded filesize : ℕ) (r : Option (List ℕ)) (namesize : ℕ)
    → Shorter namesize r
    → header_len + namesize ≤ name_padded
    → name_padded ≤ length bs
    → length bs < u32_mod
    → Taken (length bs) (with_name bs header name_padded filesize r)
with_name-Taken bs header name_padded filesize none namesize s l m w = tt
with_name-Taken bs header name_padded filesize (some name) namesize s l m w =
    let left = sub32 (length bs) name_padded in
    let exact : left ≡ length bs - name_padded = omega (arith, m, w) in
    if-Taken (length bs) (ltb left filesize || ltb left (pad4 filesize)) malformed _ tt (λ e.
      if-Taken (length bs) (str_eq name trailer) ended _ tt (λ _.
        let p : filesize + 3 < u32_mod = ground (arith, e, exact, l, m, w) in
        let q : name_padded + pad4 filesize ≤ length bs = ground (arith, e, exact, m) in
        let step : add32 name_padded (pad4 filesize) ≡ name_padded + pad4 filesize =
          omega (arith, q, w) in
        parsed_at-Taken (field header 14) bs name name_padded filesize
          (add32 name_padded (pad4 filesize)) (omega (arith, s, l))
          (omega (arith, step, (pad4_le filesize 0 p).0)) (omega (arith, step, q))))

widen-Shorter : (a b : ℕ) (r : Option (List ℕ)) → a ≤ b → Shorter a r → Shorter b r
widen-Shorter a b none l h = tt
widen-Shorter a b (some name) l h = omega (arith, l, h)

area_le : (n : ℕ) (s : List ℕ) → length (take n s) ≤ n
area_le n s = omega (arith, length-take n s)

size_guard :
    (n len padded : ℕ)
    → (n == 0 || ltb 256 n || ltb len padded) ≡ false
    → (n ≤ 256) × (padded ≤ len)
size_guard n len padded e = (ground (arith, e), ground (arith, e))

header_fits : (n : ℕ) → n ≤ 256 → header_len + n ≤ pad4 (header_len + n)
header_fits n l = omega (arith, l)

with_header-Taken :
    (bs header : List ℕ) → length bs < u32_mod → Taken (length bs) (with_header bs (some header))
with_header-Taken bs header w =
    let namesize = field header 94 in
    let name_padded = pad4 (header_len + namesize) in
    let area = take namesize (drop header_len bs) in
    if-Taken (length bs) (not (str_eq (take 6 header) magic)) ended _ tt (λ _.
      if-Taken (length bs) (namesize == 0 || ltb 256 namesize || ltb (length bs) name_padded)
        malformed _ tt
        (λ e.
          let g = size_guard namesize (length bs) name_padded e in
          let h = header_fits namesize g.0 in
          subst (λ a. Taken (length bs) (with_name_area bs header name_padded (field header 54) a))
            (sym (slice-some header_len namesize bs (omega (arith, h, g.1))))
            (with_name-Taken bs header name_padded (field header 54) (until_nul area) namesize
              (widen-Shorter (length area) namesize (until_nul area)
                (area_le namesize (drop header_len bs)) (until_nul-Shorter area))
              h g.1 w)))

next_entry-Taken : (bs : List ℕ) → length bs < u32_mod → Taken (length bs) (next_entry bs)
unfolding next_entry
next_entry-Taken bs w = if-Taken (length bs) (ltb (length bs) header_len) ended _ tt (λ e.
    subst (λ h. Taken (length bs) (with_header bs h))
      (sym (slice-some 0 header_len bs (ground (arith, e))))
      (with_header-Taken bs (take header_len (drop 0 bs)) w))

-- What the loop gives when it ends, with entries that fit into n bytes.
abbrev Staged : ℕ → Option (Bool × List Entry) → Type 0
Staged n r = (valid : Bool) × (es : List Entry) × (r ≡ some (valid, es)) × (total_bytes es ≤ n)

if-total :
    (b : Bool) (e : Entry) (es : List Entry)
    → total_bytes (if b then e ∷ es else es)
      ≤ header_len + length e.name + 1 + length e.content + total_bytes es
if-total true e es = omega arith
if-total false e es = omega arith

load_parsed :
    (n fuel : ℕ) (r : Parsed)
    → Taken n r
    → n < suc fuel
    → n < u32_mod
    → ((rest : List ℕ)
        → length rest < fuel
        → length rest < u32_mod
        → Staged (length rest) (load_loop fuel rest))
    → Staged n (elim r as (λ _. Option (Bool × List Entry)) [
      | ended ↦ some (true, [])
      | malformed ↦ some (false, [])
      | overrun ↦ none
      | parsed e rest ↦ stage e (load_loop fuel rest)
    ])
load_parsed n fuel ended t l w h = (true, [], refl, omega arith)
load_parsed n fuel malformed t l w h = (false, [], refl, omega arith)
load_parsed n fuel overrun t l w h = absurd t
load_parsed n fuel (parsed e rest) t l w h =
    let (valid, es, q, b) = h rest (omega (arith, t, l)) (omega (arith, t, w)) in
    (
      valid,
      (if is_staged e then e ∷ es else es),
      ap (stage e) q,
      omega (arith, if-total (is_staged e) e es, b, t),
    )

load_loop-Staged :
    (fuel : ℕ) (bs : List ℕ)
    → length bs < fuel
    → length bs < u32_mod
    → Staged (length bs) (load_loop fuel bs)
unfolding load_loop
load_loop-Staged zero bs l w = absurd (omega (arith, l))
load_loop-Staged (suc fuel) bs l w =
    load_parsed (length bs) fuel (next_entry bs) (next_entry-Taken bs w) l w (load_loop-Staged fuel)

-- For any archive of fewer than 2 ^ 32 bytes the loop ends, within as many rounds as there are bytes
-- and one. The headers, name areas and contents that it takes lie in the archive, whose end it does not
-- pass, and the headers, names and contents of all entries that it stages have together no more
-- bytes than the archive.
pub initramfs_load-ends :
    (fuel : ℕ) (bs : List ℕ)
    → length bs < fuel
    → length bs < u32_mod
    → (valid : Bool) × (es : List Entry) × (initramfs_load fuel bs ≡ some (valid, es))
      × (total_bytes es ≤ length bs)
unfolding initramfs_load
initramfs_load-ends fuel bs l w =
    elim (ltb (length bs) header_len)
      as (λ b. Staged (length bs) (if b then some (false, []) else load_loop fuel bs)) [
        | true ↦ (false, [], refl, omega arith)
        | false ↦ load_loop-Staged fuel bs l w
      ]
