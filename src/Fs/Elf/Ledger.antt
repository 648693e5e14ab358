-- ===== src/Fs/Elf/Ledger.antt =====
-- What the loader does to the descriptors, the frames and the pages.
use unix_os.Prelude.{
  ℕ, ◌%◌, Option, Bool, List, ◌≡◌, suc, ◌+◌, ◌≤◌, some, length, ◌-◌, if◌then◌else◌, none, true,
  u32_mod, ltb, ◌*◌, false, ◌⊎◌, ◌∷◌, sub32, arith, ◌==◌, [], zero,
}
use unix_os.Fs.Elf.{
  Kernel, read_into, fill_page, map_pages, user_code_base, read_on, page_done, with_frame,
}

-- A page that the loader may ask for, with the flags PRESENT and USER, perhaps WRITABLE.
abbrev pub IsPage : ℕ → ℕ → Type 0
IsPage addr flags =
    (addr % 4096 ≡ 0)
    × (user_code_base ≤ addr)
    × (addr + 4096 ≤ u32_mod)
    × ((flags ≡ 5) ⊎ (flags ≡ 7))

module _ {W : Type 0} (I : List ℕ → List ℕ → W → Type 0) where
  abbrev pub OnOpen : List ℕ → List ℕ → Option ℕ × W → Type 0
  OnOpen f h (none, w) = I f h w
  OnOpen f h (some fd, w) = I (fd ∷ f) h w

  abbrev pub OnRead : ℕ → List ℕ → List ℕ → Option (List ℕ) × W → Type 0
  OnRead n f h (none, w) = I f h w
  OnRead n f h (some bs, w) = I f h w × (length bs ≤ n)

  abbrev pub OnFrame : List ℕ → List ℕ → Option ℕ × W → Type 0
  OnFrame f h (none, w) = I f h w
  OnFrame f h (some frame, w) = I f (frame ∷ h) w

  abbrev pub OnMap : List ℕ → List ℕ → ℕ → Bool × W → Type 0
  OnMap f h frame (true, w) = I f h w
  OnMap f h frame (false, w) = I f (frame ∷ h) w

-- I f h w says that the open descriptors are those of f, the last opened first, and the frames that are
-- neither mapped nor free those of h, along the calls of the loader. Only the last opened descriptor may be
-- used and closed, and only the last frame may be written, mapped and freed, so that an I can follow which
-- they are. A read gives at most the bytes asked for; a copy must lie within its frame, and a page must be one
-- that the loader may ask for.
pub record Ledger {W : Type 0} (k : Kernel W) (I : List ℕ → List ℕ → W → Type 0) : Type 0 where
  pub opens : (f h : List ℕ) (path : List ℕ) (w : W) → I f h w → OnOpen I f h (k.vfs_open path w)
  pub closes : (f h : List ℕ) (fd : ℕ) (w : W) → I (fd ∷ f) h w → I f h (k.vfs_close fd w)
  pub seeks :
      (f h : List ℕ) (fd off : ℕ) (w : W) → I (fd ∷ f) h w → I (fd ∷ f) h (k.vfs_lseek fd off w).1
  pub reads :
      (f h : List ℕ) (fd n : ℕ) (w : W) → I (fd ∷ f) h w → OnRead I n (fd ∷ f) h (k.vfs_read fd n w)
  pub allocates : (f h : List ℕ) (w : W) → I f h w → OnFrame I f h (k.allocate_frame w)
  pub zeroes :
      (f h : List ℕ) (frame : ℕ) (w : W)
      → I f (frame ∷ h) w
      → I f (frame ∷ h) (k.zero_frame frame w)
  pub copies :
      (f h : List ℕ) (frame at : ℕ) (bs : List ℕ) (w : W)
      → at + length bs ≤ 4096
      → I f (frame ∷ h) w
      → I f (frame ∷ h) (k.copy_to_frame frame at bs w)
  pub maps :
      (f h : List ℕ) (addr frame flags : ℕ) (w : W)
      → IsPage addr flags
      → I f (frame ∷ h) w
      → OnMap I f h frame (k.map_page addr frame flags w)
  pub frees : (f h : List ℕ) (frame : ℕ) (w : W) → I f (frame ∷ h) w → I f h (k.free_frame frame w)
  pub randoms : (f h : List ℕ) (w : W) → I f h w → I f h (k.random_u32 w).1

module _ {W : Type 0} (k : Kernel W) (I : List ℕ → List ℕ → W → Type 0) (l : Ledger k I)
    (f h : List ℕ) where
  read_on-keeps :
      (more : ℕ → W → ℕ × W) (fd frame at want total n : ℕ) (r : Option (List ℕ) × W)
      → ((t : ℕ) (w : W)
          → t ≤ want
          → I (fd ∷ f) (frame ∷ h) w
          → I (fd ∷ f) (frame ∷ h) (more t w).1)
      → at + want ≤ 4096
      → total ≤ want
      → n ≤ want - total
      → OnRead I n (fd ∷ f) (frame ∷ h) r
      → I (fd ∷ f) (frame ∷ h) (read_on k more frame at total r).1
  read_on-keeps more fd frame at want total n (none, w) m b t c i = i
  read_on-keeps more fd frame at want total n (some [], w) m b t c (i, e) = i
  read_on-keeps more fd frame at want total n (some (x ∷ bs), w) m b t c (i, e) =
      m (total + length (x ∷ bs)) _ (omega (arith, c, e, t))
        (l.copies (fd ∷ f) h frame (at + total) (x ∷ bs) w (omega (arith, c, e, t, b)) i)

  read_into-keeps :
      (fuel fd frame at want total : ℕ) (w : W)
      → at + want ≤ 4096
      → total ≤ want
      → I (fd ∷ f) (frame ∷ h) w
      → I (fd ∷ f) (frame ∷ h) (read_into k fuel fd frame at want total w).1
  unfolding read_into
  read_into-keeps zero fd frame at want total w b t i = i
  read_into-keeps (suc fuel) fd frame at want total w b t i =
      let left = want - total in
      let chunk : ℕ = if ltb 512 left then 512 else left in
      let r = k.vfs_read fd chunk w in
      let more = read_into k fuel fd frame at want in
      elim (ltb total want)
        as (λ c.
          I (fd ∷ f) (frame ∷ h)
            (if◌then◌else◌ {A = ℕ × W} c (read_on k more frame at total r) (total, w)).1) [
              | true ↦
                  read_on-keeps more fd frame at want total chunk r
                    (λ u v m j. read_into-keeps fuel fd frame at want u v b m j) b t (ground arith)
                    (l.reads f (frame ∷ h) fd chunk w i)
              | false ↦ i
            ]

  fill_page-keeps :
      (fd frame at remaining : ℕ) (w : W)
      → at ≤ 4096
      → I (fd ∷ f) (frame ∷ h) w
      → I (fd ∷ f) (frame ∷ h) (fill_page k fd frame at remaining w).1
  unfolding fill_page
  fill_page-keeps fd frame at remaining w b i =
      let want : ℕ = if ltb (4096 - at) remaining then 4096 - at else remaining in
      let read = read_into k want fd frame at want 0 w in
      elim (ltb 0 remaining)
        as (λ c.
          I (fd ∷ f) (frame ∷ h)
            (if◌then◌else◌ {A = ℕ × W} c (sub32 remaining read.0, read.1) (remaining, w)).1) [
              | true ↦ read_into-keeps want fd frame at want 0 w (ground (arith, b)) (omega arith) i
              | false ↦ i
            ]

  page_done-keeps :
      (more : ℕ → W → ℕ × W) (fd frame left : ℕ) (r : Bool × W)
      → ((u : ℕ) (v : W) → I (fd ∷ f) h v → I (fd ∷ f) h (more u v).1)
      → OnMap I (fd ∷ f) h frame r
      → I (fd ∷ f) h (page_done k more frame left r).1
  page_done-keeps more fd frame left (true, w) m i = m left w i
  page_done-keeps more fd frame left (false, w) m i = l.frees (fd ∷ f) h frame w i

  with_frame-keeps :
      (more : ℕ → W → ℕ × W) (fd addr at flags remaining : ℕ) (r : Option ℕ × W)
      → ((u : ℕ) (v : W) → I (fd ∷ f) h v → I (fd ∷ f) h (more u v).1)
      → at ≤ 4096
      → IsPage addr flags
      → OnFrame I (fd ∷ f) h r
      → I (fd ∷ f) h (with_frame k more fd addr at flags remaining r).1
  with_frame-keeps more fd addr at flags remaining (none, w) m b p i = i
  with_frame-keeps more fd addr at flags remaining (some frame, w) m b p i =
      let filled = fill_page k fd frame at remaining (k.zero_frame frame w) in
      page_done-keeps more fd frame filled.0 _ m (
        l.maps (fd ∷ f) h addr frame flags filled.1 p
          (fill_page-keeps fd frame at remaining _ b (l.zeroes (fd ∷ f) h frame w i)))

  pub map_pages-keeps :
      (n page fd start at flags remaining : ℕ) (w : W)
      → at ≤ 4096
      → start % 4096 ≡ 0
      → user_code_base ≤ start
      → start + (page + n) * 4096 ≤ u32_mod
      → (flags ≡ 5) ⊎ (flags ≡ 7)
      → I (fd ∷ f) h w
      → I (fd ∷ f) h (map_pages k n page fd start at flags remaining w).1
  unfolding map_pages
  map_pages-keeps zero page fd start at flags remaining w b a lo hi fl i = i
  map_pages-keeps (suc n) page fd start at flags remaining w b a lo hi fl i =
      with_frame-keeps (map_pages k n (suc page) fd start at flags) fd (start + page * 4096)
        (if page == 0 then at else 0) flags remaining (k.allocate_frame w)
        (λ u v j.
          map_pages-keeps n (suc page) fd start at flags u v b a lo (omega (arith, hi)) fl j)
        (ground (arith, b)) (omega (arith, a), omega (arith, lo), omega (arith, hi), fl)
        (l.allocates (fd ∷ f) h w i)
