-- ===== src/Fs/Elf.antt =====
-- src/kernel/fs/elf_loader.c: the headers of an ELF image, and the loading of its segments into the pages of
-- a process. What the file system, the frame allocator and the page directory do is a record of operations
-- on a state W. An int32_t result is the 32-bit word of it; a failed call of the VFS is none.
pub mod Load
pub mod Ledger
pub mod Segments
pub mod Closed
pub mod Brk
mod Tests
use unix_os.Prelude.{
  List, ℕ, Option, get_or, ◌+◌, take, [], u32_mod, Bool, ◌==◌, ◌-◌, if◌then◌else◌, add32, suc, ◌*◌,
  ◌∷◌, leb, ◌%◌, bit_and, ltb, not, true, some, drop, ◌&&◌, length, none, sub32, ◌/◌, ◌||◌, zero,
  false,
}

-- The calls that the loader makes.
pub record Kernel (W : Type 0) : Type 0 where
  pub vfs_open : List ℕ → W → Option ℕ × W
  pub vfs_close : ℕ → W → W
  pub vfs_lseek : ℕ → ℕ → W → Option ℕ × W
  pub vfs_read : ℕ → ℕ → W → Option (List ℕ) × W
  pub allocate_frame : W → Option ℕ × W
  pub zero_frame : ℕ → W → W
  pub copy_to_frame : ℕ → ℕ → List ℕ → W → W
  pub map_page : ℕ → ℕ → ℕ → W → Bool × W
  pub free_frame : ℕ → W → W
  pub random_u32 : W → ℕ × W

-- Elf32_Ehdr and Elf32_Phdr, the fields that the loader reads
pub record Ehdr : Type 0 where
  pub e_ident : List ℕ
  pub e_type : ℕ
  pub e_machine : ℕ
  pub e_entry : ℕ
  pub e_phoff : ℕ
  pub e_phentsize : ℕ
  pub e_phnum : ℕ
  pub e_shnum : ℕ

pub record Phdr : Type 0 where
  pub p_type : ℕ
  pub p_offset : ℕ
  pub p_vaddr : ℕ
  pub p_filesz : ℕ
  pub p_memsz : ℕ
  pub p_flags : ℕ

abbrev pub le16 : List ℕ → ℕ → ℕ
le16 bs i = get_or bs i 0 + 256 * get_or bs (i + 1) 0

abbrev pub le32 : List ℕ → ℕ → ℕ
le32 bs i = le16 bs i + 65536 * le16 bs (i + 2)

abbrev pub ehdr_of : List ℕ → Ehdr
ehdr_of bs = record {
  e_ident = take 16 bs;
  e_type = le16 bs 16;
  e_machine = le16 bs 18;
  e_entry = le32 bs 24;
  e_phoff = le32 bs 28;
  e_phentsize = le16 bs 42;
  e_phnum = le16 bs 44;
  e_shnum = le16 bs 48;
}

abbrev pub phdr_of : List ℕ → Phdr
phdr_of bs = record {
  p_type = le32 bs 0;
  p_offset = le32 bs 4;
  p_vaddr = le32 bs 8;
  p_filesz = le32 bs 16;
  p_memsz = le32 bs 20;
  p_flags = le32 bs 24;
}

-- An array of n program headers
abbrev pub phdrs_of : ℕ → List ℕ → List Phdr
phdrs_of zero bs = []
phdrs_of (suc n) bs = phdr_of bs ∷ phdrs_of n (drop 32 bs)

-- -e as a word, and IS_ERROR
abbrev pub neg : ℕ → ℕ
neg e = u32_mod - e

abbrev pub is_error : ℕ → Bool
is_error r = leb 2147483648 r

abbrev pub user_code_base : ℕ
user_code_base = 134512640

abbrev pub user_space_end : ℕ
user_space_end = 2147483648

abbrev pub is_elf : List ℕ → Bool
is_elf id =
    get_or id 0 0 == 127
    && get_or id 1 0 == 69
    && get_or id 2 0 == 76
    && get_or id 3 0 == 70
    && get_or id 4 0 == 1
    && get_or id 5 0 == 1

-- validate_elf_header
unfoldable pub validate_elf_header : Ehdr → ℕ
validate_elf_header h =
    let pie = h.e_type == 3 in
    let entry_ok = leb user_code_base h.e_entry && ltb h.e_entry user_space_end in
    if not (is_elf h.e_ident && h.e_machine == 3)
    then neg 22
    else (if not (pie || (h.e_type == 2 && entry_ok))
        then neg 22
        else (if not (h.e_phentsize == 32) || (ltb 32 h.e_phnum || ltb 1024 h.e_shnum)
            then neg 22
            else (if pie then 1 else 0)))

abbrev pub page_down : ℕ → ℕ
page_down a = a - a % 4096

-- page_flags
abbrev pub flags_of : Phdr → ℕ
flags_of p = if bit_and p.p_flags 2 == 0 then 5 else 7

module _ {W : Type 0} (k : Kernel W) where
  abbrev pub read_checked : ℕ → Option (List ℕ) × W → Option (List ℕ) × W
  read_checked len (none, w) = (none, w)
  read_checked len (some bs, w) = (if length bs == len then some bs else none, w)

  abbrev pub seek_checked : ℕ → ℕ → ℕ → Option ℕ × W → Option (List ℕ) × W
  seek_checked fd off len (none, w) = (none, w)
  seek_checked fd off len (some r, w) =
      if r == off then read_checked len (k.vfs_read fd len w) else (none, w)

  -- elf_seek_read: the bytes, or none for -EIO
  unfoldable pub elf_seek_read : ℕ → ℕ → ℕ → W → Option (List ℕ) × W
  elf_seek_read fd off len w = seek_checked fd off len (k.vfs_lseek fd off w)

  abbrev pub read_on : (ℕ → W → ℕ × W) → ℕ → ℕ → ℕ → Option (List ℕ) × W → ℕ × W
  read_on more frame at total (none, w) = (total, w)
  read_on more frame at total (some [], w) = (total, w)
  read_on more frame at total (some (b ∷ bs), w) =
      more (total + length (b ∷ bs)) (k.copy_to_frame frame (at + total) (b ∷ bs) w)

  -- The loop that reads at most `want` bytes into a frame. Each round reads a byte at least, so fuel for
  -- `want` rounds is enough.
  unfoldable pub read_into : ℕ → ℕ → ℕ → ℕ → ℕ → ℕ → W → ℕ × W
  read_into zero fd frame at want total w = (total, w)
  read_into (suc fuel) fd frame at want total w =
      let left = want - total in
      let chunk : ℕ = if ltb 512 left then 512 else left in
      let round =
        read_on (read_into fuel fd frame at want) frame at total (k.vfs_read fd chunk w) in
      if ltb total want then round else (total, w)

  -- What of the file bytes goes to one page, and how many remain.
  unfoldable pub fill_page : ℕ → ℕ → ℕ → ℕ → W → ℕ × W
  unfolding read_into
  fill_page fd frame at remaining w =
      let want : ℕ = if ltb (4096 - at) remaining then 4096 - at else remaining in
      let (got, w') = read_into want fd frame at want 0 w in
      if ltb 0 remaining then (sub32 remaining got, w') else (remaining, w)

  abbrev pub page_done : (ℕ → W → ℕ × W) → ℕ → ℕ → Bool × W → ℕ × W
  page_done more frame left (true, w) = more left w
  page_done more frame left (false, w) = (neg 5, k.free_frame frame w)

  abbrev pub with_frame : (ℕ → W → ℕ × W) → ℕ → ℕ → ℕ → ℕ → ℕ → Option ℕ × W → ℕ × W
  with_frame more fd addr at flags remaining (none, w) = (neg 12, w)
  with_frame more fd addr at flags remaining (some frame, w) =
      let (left, w') = fill_page fd frame at remaining (k.zero_frame frame w) in
      page_done more frame left (k.map_page addr frame flags w')

  -- The loop over n pages from `page` on.
  unfoldable pub map_pages : ℕ → ℕ → ℕ → ℕ → ℕ → ℕ → ℕ → W → ℕ × W
  unfolding fill_page
  map_pages zero page fd start at flags remaining w = (0, w)
  map_pages (suc n) page fd start at flags remaining w =
      with_frame (map_pages n (suc page) fd start at flags) fd (start + page * 4096)
        (if page == 0 then at else 0) flags remaining (k.allocate_frame w)

  abbrev pub after_seek : ℕ → Phdr → ℕ → Option ℕ × W → ℕ × W
  after_seek fd p actual (none, w) = (neg 5, w)
  after_seek fd p actual (some r, w) =
      let start = page_down actual in
      let stop = page_down (actual + p.p_memsz + 4095) in
      if r == p.p_offset
      then map_pages ((stop - start) / 4096) 0 fd start (actual - start) (flags_of p) p.p_filesz w
      else (neg 5, w)

  -- map_segment_streaming
  unfoldable pub map_segment : ℕ → Phdr → ℕ → W → ℕ × W
  unfolding map_pages
  map_segment fd p base w =
      let actual = add32 p.p_vaddr base in
      if not (p.p_type == 1) || p.p_memsz == 0
      then (0, w)
      else (if ltb actual user_code_base || leb user_space_end actual
          then (neg 14, w)
          else (if leb u32_mod (actual + p.p_memsz + 4095)
              then (neg 75, w)
              else after_seek fd p actual (k.vfs_lseek fd p.p_offset w)))
