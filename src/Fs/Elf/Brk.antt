-- ===== src/Fs/Elf/Brk.antt =====
-- The segments that elf_load_segments accepts, and the end of the last of them.
use unix_os.Prelude.{
  ℕ, Bool, ◌≡◌, ◌≤◌, ◌%◌, List, ◌<◌, ◌+◌, false, u32_mod, arith, ◌==◌, if◌then◌else◌, add32, All,
  ltb, ◌&&◌, ◌∷◌, true, sym, refl, not, ap, ◌||◌, ◌∙◌, leb, subst, [],
}
use unix_os.Fs.Elf.{
  Phdr, Kernel, map_segment, is_error, page_down, user_code_base, user_space_end, neg, after_seek,
}
use unix_os.Fs.Elf.Load.{elf_load_segments, raised, segment_done}

-- A PT_LOAD segment that takes memory, at the addresses of user space for the program text, that ends before
-- brk.
abbrev pub IsPlaced : ℕ → ℕ → Phdr → Type 0
IsPlaced base brk p =
    p.p_type ≡ 1
    → 0 < p.p_memsz
    → p.p_vaddr + base < u32_mod
    → (user_code_base ≤ p.p_vaddr + base)
      × (p.p_vaddr + base < user_space_end)
      × (p.p_vaddr + base + p.p_memsz ≤ brk)

below_page_down : (a : ℕ) → a ≤ page_down (a + 4095)
below_page_down a = omega arith

raised-le : (p : Phdr) (base brk : ℕ) → brk ≤ raised p base brk
raised-le p base brk = ground arith

raised-end :
    (p : Phdr) (base brk : ℕ)
    → p.p_type ≡ 1
    → p.p_vaddr + base + p.p_memsz + 4095 < u32_mod
    → p.p_vaddr + base + p.p_memsz ≤ raised p base brk
raised-end p base brk e l =
    let b = below_page_down (p.p_vaddr + base + p.p_memsz) in
    elim (ltb brk (page_down (p.p_vaddr + base + p.p_memsz + 4095)))
        as (λ c.
          ltb brk (page_down (p.p_vaddr + base + p.p_memsz + 4095)) ≡ c
          → p.p_vaddr + base + p.p_memsz ≤ raised p base brk) [
            | true ↦ λ z. ground (arith, e, l, z, b)
            | false ↦ λ z. ground (arith, e, l, z, b)
          ]
      refl

raised-aligned : (p : Phdr) (base brk : ℕ) → brk % 4096 ≡ 0 → raised p base brk % 4096 ≡ 0
raised-aligned p base brk a =
    elim (p.p_type == 1
        && ltb (p.p_vaddr + base + p.p_memsz + 4095) u32_mod
        && ltb brk (page_down (p.p_vaddr + base + p.p_memsz + 4095)))
      as (λ c. (if c then page_down (p.p_vaddr + base + p.p_memsz + 4095) else brk) % 4096 ≡ 0) [
        | true ↦ omega arith
        | false ↦ a
      ]

checked :
    {W : Type 0} (idle outside long : Bool) (w : W) (done : ℕ × W)
    → idle ≡ false
    → is_error
        (if◌then◌else◌ {A = ℕ × W} idle
          (0, w)
          (if outside then (neg 14, w) else (if long then (neg 75, w) else done))).0
      ≡ false
    → (outside ≡ false) × (long ≡ false)
checked true outside long w done e z = absurd (ground (arith, e))
checked false true long w done e z = absurd (ground (arith, z))
checked false false true w done e z = absurd (ground (arith, z))
checked false false false w done e z = (refl, refl)

module _ {W : Type 0} (k : Kernel W) where
  -- A segment that is not refused lies where it may.
  map_segment-checked :
      (fd : ℕ) (p : Phdr) (base : ℕ) (w : W)
      → is_error (map_segment k fd p base w).0 ≡ false
      → p.p_type ≡ 1
      → 0 < p.p_memsz
      → (user_code_base ≤ add32 p.p_vaddr base)
        × (add32 p.p_vaddr base < user_space_end)
        × (add32 p.p_vaddr base + p.p_memsz + 4095 < u32_mod)
  unfolding map_segment
  map_segment-checked fd p base w ok t m =
      let actual = add32 p.p_vaddr base in
      let done = after_seek k fd p actual (k.vfs_lseek fd p.p_offset w) in
      let idle : Bool = not (p.p_type == 1) || p.p_memsz == 0 in
      let outside : Bool = ltb actual user_code_base || leb user_space_end actual in
      let long : Bool = leb u32_mod (actual + p.p_memsz + 4095) in
      let (x, y) = checked idle outside long w done (ground (arith, t, m)) ok in
      (ground (arith, x), ground (arith, x), ground (arith, y))

  segment_done-ok :
      (more : ℕ → W → (ℕ × ℕ) × W) (p : Phdr) (base brk : ℕ) (r : ℕ × W)
      → is_error (segment_done k more p base brk r).0.0 ≡ false
      → (is_error r.0 ≡ false) × (segment_done k more p base brk r ≡ more (raised p base brk) r.1)
  segment_done-ok more p base brk (rc, w) z =
      elim (is_error rc)
          as (λ c.
            is_error rc ≡ c
            → is_error
                (if◌then◌else◌ {A = (ℕ × ℕ) × W} c ((rc, brk), w) (more (raised p base brk) w)).0.0
              ≡ false
            → (c ≡ false)
              × (if◌then◌else◌ {A = (ℕ × ℕ) × W} c ((rc, brk), w) (more (raised p base brk) w)
                  ≡ more (raised p base brk) w)) [
                    | true ↦ λ e y. absurd (ground (arith, e, y))
                    | false ↦ λ e y. (refl, refl)
                  ]
        refl z

  placed :
      (fd : ℕ) (p : Phdr) (base brk end : ℕ) (w : W)
      → is_error (map_segment k fd p base w).0 ≡ false
      → raised p base brk ≤ end
      → IsPlaced base end p
  placed fd p base brk end w ok le t m b =
      let (lo, hi, e) = map_segment-checked fd p base w ok t m in
      let same : add32 p.p_vaddr base ≡ p.p_vaddr + base = omega (arith, b) in
      (
        omega (arith, lo, same),
        omega (arith, hi, same),
        omega (arith, le, raised-end p base brk t (omega (arith, e, same))),
      )

  load_from :
      (fd : ℕ) (ps : List Phdr) (base brk : ℕ) (w : W)
      → is_error (elf_load_segments k fd ps base brk w).0.0 ≡ false
      → brk % 4096 ≡ 0
      → (brk ≤ (elf_load_segments k fd ps base brk w).0.1)
        × ((elf_load_segments k fd ps base brk w).0.1 % 4096 ≡ 0)
        × All (IsPlaced base (elf_load_segments k fd ps base brk w).0.1) ps
  unfolding elf_load_segments
  load_from fd [] base brk w ok a = (omega arith, a, tt)
  load_from fd (p ∷ ps) base brk w ok a =
      let r = map_segment k fd p base w in
      let more = elf_load_segments k fd ps base in
      let (fine, e) = segment_done-ok more p base brk r ok in
      let (le, al, rest) =
        load_from fd ps base (raised p base brk) r.1 (sym (ap (λ x. is_error x.0.0) e) ∙ ok)
          (raised-aligned p base brk a) in
      subst
        (λ (x : (ℕ × ℕ) × W).
          (brk ≤ x.0.1) × (x.0.1 % 4096 ≡ 0) × All (IsPlaced base x.0.1) (p ∷ ps))
        (sym e)
        (omega (arith, le, raised-le p base brk), al, (placed fd p base brk _ w fine le, rest))

-- Where elf_load_segments succeeds, the end that it returns is page-aligned, and every PT_LOAD segment that
-- takes memory, and whose address does not wrap around, starts in [USER_CODE_BASE, USER_SPACE_END) and ends
-- before it.
pub elf_load_segments-IsPlaced :
    {W : Type 0} (k : Kernel W) (fd : ℕ) (ps : List Phdr) (base : ℕ) (w : W)
    → is_error (elf_load_segments k fd ps base 0 w).0.0 ≡ false
    → ((elf_load_segments k fd ps base 0 w).0.1 % 4096 ≡ 0)
      × All (IsPlaced base (elf_load_segments k fd ps base 0 w).0.1) ps
elf_load_segments-IsPlaced k fd ps base w ok =
    let (le, al, all) = load_from k fd ps base 0 w ok (omega arith) in (al, all)
