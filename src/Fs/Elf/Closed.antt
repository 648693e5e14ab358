-- ===== src/Fs/Elf/Closed.antt =====
-- load_elf_process gives back what it takes, on every path.
use unix_os.Fs.Elf.{
  Kernel, Ehdr, Phdr, ehdr_of, validate_elf_header, neg, is_error, user_space_end, elf_seek_read,
}
use unix_os.Fs.Elf.Load.{
  load_elf_process, Opened, open_and_read_phdrs, load_interpreter_at, Image, phdrs_read, ehdr_read,
  interpreter_mapped, interpreter_opened, image_opened, failed, file_opened, interp_found,
  segments_loaded, based, opened, with_interpreter, elf_load_segments, generate_pie_base,
  elf_find_interp,
}
use unix_os.Prelude.{
  ℕ, List, Option, leb, length, some, add32, if◌then◌else◌, none, ◌+◌, ltb, false, true, ◌*◌, ◌∷◌,
}
use unix_os.Fs.Elf.Ledger.{Ledger, OnOpen}
use unix_os.Fs.Elf.Segments.{
  read_checked-keeps, elf_load_segments-keeps, elf_find_interp-keeps, elf_seek_read-keeps,
}

module _ {W : Type 0} (k : Kernel W) (I : List ℕ → List ℕ → W → Type 0) (l : Ledger k I)
    (f h : List ℕ) where
  -- A descriptor more is open where the headers were read.
  abbrev pub OnOpened : Opened × W → Type 0
  OnOpened (failed rc, w) = I f h w
  OnOpened (opened e ps fd pie, w) = I (fd ∷ f) h w

  phdrs_read-keeps :
      (e : Ehdr) (fd v : ℕ) (r : Option (List ℕ) × W)
      → I (fd ∷ f) h r.1
      → OnOpened (phdrs_read k e fd v r)
  phdrs_read-keeps e fd v (none, w) i = l.closes f h fd w i
  phdrs_read-keeps e fd v (some bs, w) i = i

  ehdr_read-keeps :
      (fd : ℕ) (r : Option (List ℕ) × W) → I (fd ∷ f) h r.1 → OnOpened (ehdr_read k fd r)
  ehdr_read-keeps fd (none, w) i = l.closes f h fd w i
  ehdr_read-keeps fd (some bs, w) i =
      let e = ehdr_of bs in
      let v = validate_elf_header e in
      elim (is_error v)
        as (λ c. OnOpened (
          if◌then◌else◌ {A = Opened × W} c (failed v, k.vfs_close fd w)
            (phdrs_read k e fd v (elf_seek_read k fd e.e_phoff (e.e_phnum * 32) w)))) [
              | true ↦ l.closes f h fd w i
              | false ↦
                  phdrs_read-keeps e fd v _
                    (elf_seek_read-keeps k I l f h fd e.e_phoff (e.e_phnum * 32) w i)
            ]

  file_opened-keeps : (r : Option ℕ × W) → OnOpen I f h r → OnOpened (file_opened k r)
  file_opened-keeps (none, w) i = i
  file_opened-keeps (some fd, w) i =
      ehdr_read-keeps fd _ (read_checked-keeps k I l f h fd 52 52 _ (l.reads f h fd 52 w i))

  pub open_and_read_phdrs-keeps :
      (path : List ℕ) (w : W) → I f h w → OnOpened (open_and_read_phdrs k path w)
  unfolding open_and_read_phdrs
  open_and_read_phdrs-keeps path w i = file_opened-keeps _ (l.opens f h path w i)

  interpreter_mapped-keeps :
      (fd entry : ℕ) (r : (ℕ × ℕ) × W)
      → I (fd ∷ f) h r.1
      → I f h (interpreter_mapped k fd entry r).1
  interpreter_mapped-keeps fd entry ((rc, brk), w) i = l.closes f h fd w i

  interpreter_opened-keeps :
      (base : ℕ) (r : Opened × W) → OnOpened r → I f h (interpreter_opened k base r).1
  interpreter_opened-keeps base (failed rc, w) i = i
  interpreter_opened-keeps base (opened e ps fd pie, w) i =
      interpreter_mapped-keeps fd (add32 e.e_entry base) (elf_load_segments k fd ps base 0 w)
        (elf_load_segments-keeps k I l f h fd ps base 0 w i)

  load_interpreter_at-keeps :
      (path : List ℕ) (base : ℕ) (w : W) → I f h w → I f h (load_interpreter_at k path base w).1
  unfolding load_interpreter_at
  load_interpreter_at-keeps path base w i =
      interpreter_opened-keeps base _ (open_and_read_phdrs-keeps path w i)

  interp_found-keeps :
      (e : Ehdr) (ps : List Phdr) (fd base : ℕ) (m : Image) (r : Option (List ℕ) × W)
      → I (fd ∷ f) h r.1
      → I f h (interp_found k e ps fd base m r).1
  interp_found-keeps e ps fd base m (none, w) i = l.closes f h fd w i
  interp_found-keeps e ps fd base m (some path, w) i =
      let w' = k.vfs_close fd w in
      let at = m.mmap_next_addr in
      let j = l.closes f h fd w i in
      let ending =
        with_interpreter k e ps base (record m { mmap_next_addr = at + 4194304 }) at
          (load_interpreter_at k path at w') in
      elim (leb 256 (length path))
        as (λ c.
          I f h
            (if◌then◌else◌ {A = (ℕ × Image) × W} c ((neg 22, m), w')
              (if ltb user_space_end (at + 4194304) then ((neg 12, m), w') else ending)).1) [
                | true ↦ j
                | false ↦
                    elim (ltb user_space_end (at + 4194304))
                      as (λ c.
                        I f h (if◌then◌else◌ {A = (ℕ × Image) × W} c ((neg 12, m), w') ending).1) [
                          | true ↦ j
                          | false ↦ load_interpreter_at-keeps path at w' j
                        ]
              ]

  segments_loaded-keeps :
      (e : Ehdr) (ps : List Phdr) (fd base : ℕ) (m : Image) (r : (ℕ × ℕ) × W)
      → I (fd ∷ f) h r.1
      → I f h (segments_loaded k e ps fd base m r).1
  segments_loaded-keeps e ps fd base m ((rc, brk_end), w) i =
      let m' : Image = if ltb 0 brk_end then record m { brk = brk_end } else m in
      elim (is_error rc)
        as (λ c.
          I f h
            (if◌then◌else◌ {A = (ℕ × Image) × W} c ((rc, m), k.vfs_close fd w)
              (interp_found k e ps fd base m' (elf_find_interp k fd ps w))).1) [
                | true ↦ l.closes f h fd w i
                | false ↦
                    interp_found-keeps e ps fd base m' (elf_find_interp k fd ps w)
                      (elf_find_interp-keeps k I l f h fd ps w i)
              ]

  based-keeps :
      (e : Ehdr) (ps : List Phdr) (fd : ℕ) (m : Image) (r : ℕ × W)
      → I (fd ∷ f) h r.1
      → I f h (based k e ps fd m r).1
  based-keeps e ps fd m (base, w) i =
      segments_loaded-keeps e ps fd base m (elf_load_segments k fd ps base 0 w)
        (elf_load_segments-keeps k I l f h fd ps base 0 w i)

  image_opened-keeps : (m : Image) (r : Opened × W) → OnOpened r → I f h (image_opened k m r).1
  image_opened-keeps m (failed rc, w) i = i
  image_opened-keeps m (opened e ps fd false, w) i = based-keeps e ps fd m (0, w) i
  image_opened-keeps m (opened e ps fd true, w) i =
      based-keeps e ps fd m (generate_pie_base k w) (l.randoms (fd ∷ f) h w i)

-- Whatever the calls of load_elf_process answer, on success and on every error: it reads only from the
-- descriptor that it opened last and closes each that it opened, and no other; it writes only to the frame
-- that it allocated last, each copy within it, and maps or frees each that it allocated, and no other; and it
-- maps only whole pages from USER_CODE_BASE on and below 2 ^ 32, as user pages.
pub load_elf_process-Ledger :
    {W : Type 0} (k : Kernel W) (I : List ℕ → List ℕ → W → Type 0) (f h : List ℕ) (path : List ℕ)
    (m : Image) (w : W)
    → Ledger k I
    → I f h w
    → I f h (load_elf_process k path m w).1
unfolding load_elf_process
load_elf_process-Ledger {W} k I f h path m w l i =
    elim (leb 256 (length path))
      as (λ c.
        I f h
          (if◌then◌else◌ {A = (ℕ × Image) × W} c ((neg 22, m), w)
            (image_opened k m (open_and_read_phdrs k path w))).1) [
              | true ↦ i
              | false ↦
                  image_opened-keeps k I l f h m _ (open_and_read_phdrs-keeps k I l f h path w i)
            ]
