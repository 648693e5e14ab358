-- ===== src/Fs/Cpio.antt =====
-- src/kernel/fs/cpio_parse.c: initramfs_load. What is left of the archive is the list of the bytes from ptr
-- to end. A read of bytes behind the end, or a ptr that passes it, is an overrun, which has no result. The
-- calls that stage an entry in the VFS are left out: load gives the entries that are staged, in order.
pub mod Bounds
mod Tests
use unix_os.Prelude.{
  take, drop, ℕ, List, Option, if◌then◌else◌, ◌∷◌, add32, none, ◌+◌, Bool, some, leb, ◌*◌, ◌/◌, [],
  option_map, length, ltb, suc, ◌&&◌, ◌%◌, ◌==◌, ◌-◌, ◌||◌, true, false, u32_mod, not, zero, sub32,
  bit_and,
}
use unix_os.Fs.Mount.{str_eq}

pub record Entry : Type 0 where
  pub mode : ℕ
  pub name : List ℕ
  pub content : List ℕ

-- What the loop finds at ptr: the end of the archive, a return of -EINVAL, an access behind the end, or an
-- entry and the rest.
pub data Parsed : Type 0 where
  ended malformed overrun : Parsed
  parsed : Entry → List ℕ → Parsed

abbrev pub hex_digit : ℕ → ℕ
hex_digit c =
    if leb 48 c && leb c 57
    then c - 48
    else (if leb 97 c && leb c 102 then c - 87 else (if leb 65 c && leb c 70 then c - 55 else 0))

-- parse_hex8, on the characters that are left of eight
abbrev pub parse_hex : List ℕ → ℕ → ℕ
parse_hex [] val = val
parse_hex (c ∷ s) val = parse_hex s (val * 16 % u32_mod + hex_digit c)

abbrev pub header_len : ℕ
header_len = 110

-- n bytes from an offset on, and what follows n bytes; none where they are not all there.
abbrev pub slice : ℕ → ℕ → List ℕ → Option (List ℕ)
slice offset n bs = if leb (offset + n) (length bs) then some (take n (drop offset bs)) else none

abbrev pub skip : ℕ → List ℕ → Option (List ℕ)
skip n bs = if leb n (length bs) then some (drop n bs) else none

-- The eight characters of the header from `offset` on.
abbrev pub field : List ℕ → ℕ → ℕ
field bs offset = parse_hex (take 8 (drop offset bs)) 0

-- (n + 3) & ~3u
abbrev pub pad4 : ℕ → ℕ
pad4 n = add32 n 3 / 4 * 4

abbrev pub magic : List ℕ
magic = 48 ∷ 55 ∷ 48 ∷ 55 ∷ 48 ∷ 49 ∷ []

abbrev pub trailer : List ℕ
trailer = 84 ∷ 82 ∷ 65 ∷ 73 ∷ 76 ∷ 69 ∷ 82 ∷ 33 ∷ 33 ∷ 33 ∷ []

-- The characters before the first NUL, none without one.
abbrev pub until_nul : List ℕ → Option (List ℕ)
until_nul [] = none
until_nul (c ∷ s) =
    let later = option_map (λ t. c ∷ t) (until_nul s) in if c == 0 then some [] else later

abbrev pub parsed_at : ℕ → List ℕ → Option (List ℕ) → Option (List ℕ) → Parsed
parsed_at mode name none rest = overrun
parsed_at mode name (some content) none = overrun
parsed_at mode name (some content) (some rest) =
    parsed (record { mode = mode; name = name; content = content }) rest

-- The rest of the loop's body, once the name is known.
abbrev pub with_name : List ℕ → List ℕ → ℕ → ℕ → Option (List ℕ) → Parsed
with_name bs header name_padded filesize none = malformed
with_name bs header name_padded filesize (some name) =
    let left = sub32 (length bs) name_padded in
    if ltb left filesize || ltb left (pad4 filesize)
    then malformed
    else (if str_eq name trailer
        then ended
        else parsed_at (field header 14) name (slice name_padded filesize bs)
            (skip (add32 name_padded (pad4 filesize)) bs))

abbrev pub with_name_area : List ℕ → List ℕ → ℕ → ℕ → Option (List ℕ) → Parsed
with_name_area bs header name_padded filesize none = overrun
with_name_area bs header name_padded filesize (some area) =
    with_name bs header name_padded filesize (until_nul area)

abbrev pub with_header : List ℕ → Option (List ℕ) → Parsed
with_header bs none = overrun
with_header bs (some header) =
    let namesize = field header 94 in
    let name_padded = pad4 (header_len + namesize) in
    if not (str_eq (take 6 header) magic)
    then ended
    else (if namesize == 0 || ltb 256 namesize || ltb (length bs) name_padded
        then malformed
        else with_name_area bs header name_padded (field header 54) (slice header_len namesize bs))

-- One round of the loop of initramfs_load.
unfoldable pub next_entry : List ℕ → Parsed
next_entry bs = if ltb (length bs) header_len then ended else with_header bs (slice 0 header_len bs)

-- The entries "." and "./" are passed over.
abbrev pub is_root_name : List ℕ → Bool
is_root_name name = str_eq name (46 ∷ []) || str_eq name (46 ∷ 47 ∷ [])

-- Directories and regular files are staged, other entries are passed over.
abbrev pub is_staged : Entry → Bool
is_staged e =
    let kind = bit_and e.mode 61440 in not (is_root_name e.name) && (kind == 16384 || kind == 32768)

abbrev pub stage : Entry → Option (Bool × List Entry) → Option (Bool × List Entry)
stage e none = none
stage e (some (valid, es)) = some (valid, if is_staged e then e ∷ es else es)

-- initramfs_load: whether the archive was well formed to its end, and the entries that are staged; none
-- after an overrun, and when the fuel is used up. The first test is that of the function, where it returns -EINVAL.
unfoldable pub load_loop : ℕ → List ℕ → Option (Bool × List Entry)
unfolding next_entry
load_loop zero bs = none
load_loop (suc fuel) bs = elim (next_entry bs) [
  | ended ↦ some (true, [])
  | malformed ↦ some (false, [])
  | overrun ↦ none
  | parsed e rest ↦ stage e (load_loop fuel rest)
]

unfoldable pub initramfs_load : ℕ → List ℕ → Option (Bool × List Entry)
unfolding load_loop
initramfs_load fuel bs = if ltb (length bs) header_len then some (false, []) else load_loop fuel bs
