-- ===== src/Fs/Elf/Segments.antt =====
-- The segments of an image and the reads of its headers keep what a Ledger follows.
use unix_os.Fs.Elf.{
  Phdr, Kernel, flags_of, user_code_base, page_down, map_segment, elf_seek_read, seek_checked,
  after_seek, is_error, map_pages, read_checked, neg, user_space_end,
}
use unix_os.Prelude.{
  ℕ, ◌≤◌, ◌≡◌, ◌<◌, arith, ◌%◌, Option, ◌⊎◌, u32_mod, ◌+◌, add32, List, Bool-cases, ◌-◌, ◌∷◌, some,
  bit_and, ◌/◌, Bool, if◌then◌else◌, ◌==◌, [], none, ◌*◌, not, ◌&&◌, true, inl, ◌||◌, ltb, false,
  inr, leb, refl,
}
use unix_os.Fs.Elf.Ledger.{Ledger, OnRead, map_pages-keeps}
use unix_os.Fs.Elf.Load.{elf_load_segments, elf_find_interp, segment_done, interp_read, raised}

flags_of_cases : (p : Phdr) → (flags_of p ≡ 5) ⊎ (flags_of p ≡ 7)
flags_of_cases p = elim (Bool-cases (bit_and p.p_flags 2 == 0)) [
  | inl e ↦ inl (ground (arith, e))
  | inr e ↦ inr (ground (arith, e))
]

last_page :
    (a e : ℕ)
    → a ≤ e
    → e < u32_mod
    → page_down a + (0 + (page_down e - page_down a) / 4096) * 4096 ≤ u32_mod
last_page a e l b = omega (arith, l, b)

first_page : (a : ℕ) → user_code_base ≤ a → user_code_base ≤ page_down a
first_page a l = omega (arith, l)

page_down-aligned : (a : ℕ) → page_down a % 4096 ≡ 0
page_down-aligned a = omega arith

module _ {W : Type 0} (k : Kernel W) (I : List ℕ → List ℕ → W → Type 0) (l : Ledger k I)
    (f h : List ℕ) where
  after_seek-keeps :
      (fd : ℕ) (p : Phdr) (actual : ℕ) (r : Option ℕ × W)
      → user_code_base ≤ actual
      → actual + p.p_memsz + 4095 < u32_mod
      → I (fd ∷ f) h r.1
      → I (fd ∷ f) h (after_seek k fd p actual r).1
  after_seek-keeps fd p actual (none, w) lo hi i = i
  after_seek-keeps fd p actual (some r, w) lo hi i =
      let start = page_down actual in
      let stop = page_down (actual + p.p_memsz + 4095) in
      let pages =
        map_pages k ((stop - start) / 4096) 0 fd start (actual - start) (flags_of p) p.p_filesz w in
      elim (r == p.p_offset)
        as (λ c. I (fd ∷ f) h (if◌then◌else◌ {A = ℕ × W} c pages (neg 5, w)).1) [
          | true ↦
              map_pages-keeps k I l f h _ 0 fd start (actual - start) (flags_of p) p.p_filesz w
                (omega arith) (page_down-aligned actual) (first_page actual lo)
                (last_page actual (actual + p.p_memsz + 4095) (omega arith) hi) (flags_of_cases p) i
          | false ↦ i
        ]

  map_segment-keeps :
      (fd : ℕ) (p : Phdr) (base : ℕ) (w : W)
      → I (fd ∷ f) h w
      → I (fd ∷ f) h (map_segment k fd p base w).1
  unfolding map_segment
  map_segment-keeps fd p base w i =
      let actual = add32 p.p_vaddr base in
      let done = after_seek k fd p actual (k.vfs_lseek fd p.p_offset w) in
      let none_yet : Bool = not (p.p_type == 1) || p.p_memsz == 0 in
      let outside : Bool = ltb actual user_code_base || leb user_space_end actual in
      let long : Bool = leb u32_mod (actual + p.p_memsz + 4095) in
      elim none_yet
        as (λ c.
          I (fd ∷ f) h
            (if◌then◌else◌ {A = ℕ × W} c (0, w)
              (if outside then (neg 14, w) else (if long then (neg 75, w) else done))).1) [
                | true ↦ i
                | false ↦
                    elim outside
                        as (λ c.
                          outside ≡ c
                          → I (fd ∷ f) h
                              (if◌then◌else◌ {A = ℕ × W} c (neg 14, w)
                                (if long then (neg 75, w) else done)).1) [
                                  | true ↦ λ e. i
                                  | false ↦ λ e.
                                      elim long
                                          as (λ c.
                                            long ≡ c
                                            → I (fd ∷ f) h
                                                (if◌then◌else◌ {A = ℕ × W} c (neg 75, w) done).1) [
                                                  | true ↦ λ z. i
                                                  | false ↦ λ z.
                                                      after_seek-keeps fd p actual _
                                                        (ground (arith, e)) (ground (arith, z))
                                                        (l.seeks f h fd p.p_offset w i)
                                                ]
                                        refl
                                ]
                      refl
              ]

  segment_done-keeps :
      (more : ℕ → W → (ℕ × ℕ) × W) (fd : ℕ) (p : Phdr) (base brk : ℕ) (r : ℕ × W)
      → ((b : ℕ) (w : W) → I (fd ∷ f) h w → I (fd ∷ f) h (more b w).1)
      → I (fd ∷ f) h r.1
      → I (fd ∷ f) h (segment_done k more p base brk r).1
  segment_done-keeps more fd p base brk (rc, w) m i =
      elim (is_error rc)
        as (λ c.
          I (fd ∷ f) h
            (if◌then◌else◌ {A = (ℕ × ℕ) × W} c ((rc, brk), w) (more (raised p base brk) w)).1) [
              | true ↦ i
              | false ↦ m (raised p base brk) w i
            ]

  pub elf_load_segments-keeps :
      (fd : ℕ) (ps : List Phdr) (base brk : ℕ) (w : W)
      → I (fd ∷ f) h w
      → I (fd ∷ f) h (elf_load_segments k fd ps base brk w).1
  unfolding elf_load_segments
  elf_load_segments-keeps fd [] base brk w i = i
  elf_load_segments-keeps fd (p ∷ ps) base brk w i =
      segment_done-keeps (elf_load_segments k fd ps base) fd p base brk _
        (λ b v j. elf_load_segments-keeps fd ps base b v j) (map_segment-keeps fd p base w i)

  -- Reads of a header and of a path.
  pub read_checked-keeps :
      (fd n len : ℕ) (r : Option (List ℕ) × W)
      → OnRead I n (fd ∷ f) h r
      → I (fd ∷ f) h (read_checked k len r).1
  read_checked-keeps fd n len (none, w) i = i
  read_checked-keeps fd n len (some bs, w) i = i.0

  seek_checked-keeps :
      (fd off len : ℕ) (r : Option ℕ × W)
      → I (fd ∷ f) h r.1
      → I (fd ∷ f) h (seek_checked k fd off len r).1
  seek_checked-keeps fd off len (none, w) i = i
  seek_checked-keeps fd off len (some r, w) i =
      elim (r == off)
        as (λ c.
          I (fd ∷ f) h
            (if◌then◌else◌ {A = Option (List ℕ) × W} c (read_checked k len (k.vfs_read fd len w))
              (none, w)).1) [
                | true ↦ read_checked-keeps fd len len _ (l.reads f h fd len w i)
                | false ↦ i
              ]

  pub elf_seek_read-keeps :
      (fd off len : ℕ) (w : W) → I (fd ∷ f) h w → I (fd ∷ f) h (elf_seek_read k fd off len w).1
  unfolding elf_seek_read
  elf_seek_read-keeps fd off len w i = seek_checked-keeps fd off len _ (l.seeks f h fd off w i)

  interp_read-keeps :
      (fd : ℕ) (r : Option (List ℕ) × W) → I (fd ∷ f) h r.1 → I (fd ∷ f) h (interp_read k r).1
  interp_read-keeps fd (none, w) i = i
  interp_read-keeps fd (some bs, w) i = i

  pub elf_find_interp-keeps :
      (fd : ℕ) (ps : List Phdr) (w : W)
      → I (fd ∷ f) h w
      → I (fd ∷ f) h (elf_find_interp k fd ps w).1
  unfolding elf_find_interp
  elf_find_interp-keeps fd [] w i = i
  elf_find_interp-keeps fd (p ∷ ps) w i =
      let here = interp_read k (elf_seek_read k fd p.p_offset p.p_filesz w) in
      elim (p.p_type == 3 && ltb 0 p.p_filesz && ltb p.p_filesz 256)
        as (λ c.
          I (fd ∷ f) h
            (if◌then◌else◌ {A = Option (List ℕ) × W} c here (elf_find_interp k fd ps w)).1) [
              | true ↦ interp_read-keeps fd _ (elf_seek_read-keeps fd p.p_offset p.p_filesz w i)
              | false ↦ elf_find_interp-keeps fd ps w i
            ]
