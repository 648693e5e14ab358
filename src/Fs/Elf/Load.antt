-- ===== src/Fs/Elf/Load.antt =====
-- src/kernel/fs/elf_loader.c: all segments of an image, its interpreter, and the start of the process.
use unix_os.Prelude.{
  ℕ, List, ◌+◌, ◌∷◌, sub32, Option, if◌then◌else◌, add32, Bool, ◌==◌, ◌%◌, none, ltb, leb, some,
  ◌&&◌, [], ◌*◌, length, u32_mod,
}
use unix_os.Fs.Elf.{
  Phdr, Kernel, Ehdr, page_down, neg, is_error, map_segment, phdrs_of, ehdr_of, read_checked,
  validate_elf_header, elf_seek_read, user_space_end,
}

-- The fields of process_t, of its context and of its memory that the loader writes
pub record Image : Type 0 where
  pub brk : ℕ
  pub mmap_next_addr : ℕ
  pub user_stack_base : ℕ
  pub elf_entry : ℕ
  pub elf_phdr : ℕ
  pub elf_phnum : ℕ
  pub interp_base : ℕ
  pub eip : ℕ
  pub esp : ℕ
  pub cs : ℕ
  pub ds : ℕ
  pub es : ℕ
  pub fs : ℕ
  pub gs : ℕ
  pub ss : ℕ

-- What open_and_read_phdrs leaves: an error, or the headers, the descriptor and whether it is a PIE.
pub data Opened : Type 0 where
  failed : ℕ → Opened
  opened : Ehdr → List Phdr → ℕ → Bool → Opened

-- brk_end after a segment
abbrev pub raised : Phdr → ℕ → ℕ → ℕ
raised p base brk =
    let end64 = p.p_vaddr + base + p.p_memsz + 4095 in
    if p.p_type == 1 && ltb end64 u32_mod && ltb brk (page_down end64) then page_down end64 else brk

-- The bytes before the first NUL
abbrev pub c_string : List ℕ → List ℕ
c_string [] = []
c_string (b ∷ bs) = let rest = c_string bs in if b == 0 then [] else b ∷ rest

-- The loop for load_base
abbrev pub load_base : List Phdr → ℕ
load_base [] = 0
load_base (p ∷ ps) =
    let rest = load_base ps in if p.p_type == 1 && p.p_offset == 0 then p.p_vaddr else rest

abbrev pub elf_setup_context : Image → ℕ → Image
elf_setup_context m entry = record m {
  eip = entry;
  cs = 27;
  ds = 35;
  es = 35;
  fs = 35;
  gs = 35;
  ss = 35;
  esp = sub32 m.user_stack_base 4;
}

module _ {W : Type 0} (k : Kernel W) where
  abbrev pub generate_pie_base : W → ℕ × W
  generate_pie_base w =
      let (rnd, w') = k.random_u32 w in (page_down (268435456 + (rnd % 196608) * 4096), w')

  abbrev pub phdrs_read : Ehdr → ℕ → ℕ → Option (List ℕ) × W → Opened × W
  phdrs_read h fd v (none, w) = (failed (neg 5), k.vfs_close fd w)
  phdrs_read h fd v (some bs, w) = (opened h (phdrs_of h.e_phnum bs) fd (v == 1), w)

  abbrev pub ehdr_read : ℕ → Option (List ℕ) × W → Opened × W
  ehdr_read fd (none, w) = (failed (neg 5), k.vfs_close fd w)
  ehdr_read fd (some bs, w) =
      let h = ehdr_of bs in
      let v = validate_elf_header h in
      if is_error v
      then (failed v, k.vfs_close fd w)
      else phdrs_read h fd v (elf_seek_read k fd h.e_phoff (h.e_phnum * 32) w)

  abbrev pub file_opened : Option ℕ × W → Opened × W
  file_opened (none, w) = (failed (neg 2), w)
  file_opened (some fd, w) = ehdr_read fd (read_checked k 52 (k.vfs_read fd 52 w))

  unfoldable pub open_and_read_phdrs : List ℕ → W → Opened × W
  open_and_read_phdrs path w = file_opened (k.vfs_open path w)

  abbrev pub segment_done : (ℕ → W → (ℕ × ℕ) × W) → Phdr → ℕ → ℕ → ℕ × W → (ℕ × ℕ) × W
  segment_done more p base brk (rc, w) =
      if is_error rc then ((rc, brk), w) else more (raised p base brk) w

  -- elf_load_segments from a brk_end on: the result, brk_end, and the state
  unfoldable pub elf_load_segments : ℕ → List Phdr → ℕ → ℕ → W → (ℕ × ℕ) × W
  elf_load_segments fd [] base brk w = ((0, brk), w)
  elf_load_segments fd (p ∷ ps) base brk w =
      segment_done (elf_load_segments fd ps base) p base brk (map_segment k fd p base w)

  abbrev pub interp_read : Option (List ℕ) × W → Option (List ℕ) × W
  interp_read (none, w) = (none, w)
  interp_read (some bs, w) = (some (c_string bs), w)

  unfoldable pub elf_find_interp : ℕ → List Phdr → W → Option (List ℕ) × W
  elf_find_interp fd [] w = (none, w)
  elf_find_interp fd (p ∷ ps) w =
      let rest = elf_find_interp fd ps w in
      if p.p_type == 3 && ltb 0 p.p_filesz && ltb p.p_filesz 256
      then interp_read (elf_seek_read k fd p.p_offset p.p_filesz w)
      else rest

  abbrev pub interpreter_mapped : ℕ → ℕ → (ℕ × ℕ) × W → ℕ × W
  interpreter_mapped fd entry ((rc, brk), w) = (if is_error rc then rc else entry, k.vfs_close fd w)

  abbrev pub interpreter_opened : ℕ → Opened × W → ℕ × W
  interpreter_opened base (failed rc, w) = (rc, w)
  interpreter_opened base (opened h ps fd pie, w) =
      interpreter_mapped fd (add32 h.e_entry base) (elf_load_segments fd ps base 0 w)

  unfoldable pub load_interpreter_at : List ℕ → ℕ → W → ℕ × W
  unfolding elf_load_segments open_and_read_phdrs
  load_interpreter_at path base w = interpreter_opened base (open_and_read_phdrs path w)

  -- The end of load_elf_process, once the interpreter is loaded at `at`
  abbrev pub with_interpreter : Ehdr → List Phdr → ℕ → Image → ℕ → ℕ × W → (ℕ × Image) × W
  with_interpreter h ps base m at (entry, w) =
      let started =
        elf_setup_context
          (record m {
            elf_entry = add32 h.e_entry base;
            elf_phdr = add32 (add32 (load_base ps) base) h.e_phoff;
            elf_phnum = h.e_phnum;
            interp_base = at;
          })
          entry in
      (if is_error entry then (entry, m) else (0, started), w)

  abbrev pub interp_found : Ehdr → List Phdr → ℕ → ℕ → Image → Option (List ℕ) × W → (ℕ × Image) × W
  interp_found h ps fd base m (none, w) =
      ((0, elf_setup_context m (add32 h.e_entry base)), k.vfs_close fd w)
  interp_found h ps fd base m (some path, w) =
      let w' = k.vfs_close fd w in
      let at = m.mmap_next_addr in
      if leb 256 (length path)
      then ((neg 22, m), w')
      else (if ltb user_space_end (at + 4194304)
          then ((neg 12, m), w')
          else with_interpreter h ps base (record m { mmap_next_addr = at + 4194304 }) at
              (load_interpreter_at path at w'))

  abbrev pub segments_loaded : Ehdr → List Phdr → ℕ → ℕ → Image → (ℕ × ℕ) × W → (ℕ × Image) × W
  segments_loaded h ps fd base m ((rc, brk_end), w) =
      let m' : Image = if ltb 0 brk_end then record m { brk = brk_end } else m in
      if is_error rc
      then ((rc, m), k.vfs_close fd w)
      else interp_found h ps fd base m' (elf_find_interp fd ps w)

  abbrev pub based : Ehdr → List Phdr → ℕ → Image → ℕ × W → (ℕ × Image) × W
  based h ps fd m (base, w) = segments_loaded h ps fd base m (elf_load_segments fd ps base 0 w)

  abbrev pub image_opened : Image → Opened × W → (ℕ × Image) × W
  image_opened m (failed rc, w) = ((rc, m), w)
  image_opened m (opened h ps fd pie, w) =
      based h ps fd m (if pie then generate_pie_base w else (0, w))

  unfoldable pub load_elf_process : List ℕ → Image → W → (ℕ × Image) × W
  unfolding open_and_read_phdrs elf_load_segments elf_find_interp load_interpreter_at
  load_elf_process path m w =
      if leb 256 (length path)
      then ((neg 22, m), w)
      else image_opened m (open_and_read_phdrs path w)
