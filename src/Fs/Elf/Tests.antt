-- ===== src/Fs/Elf/Tests.antt =====
-- An image of one segment, in a file of a machine that keeps what is open and in hand.
use unix_os.Prelude.{
  ℕ, List, [], ◌∷◌, some, ◌≡◌, ap, drop, refl, arith, ◌%◌, take, length-take, All, ◌+◌, true,
  length, ◌∙◌,
}
use unix_os.Fs.Elf.{
  Kernel, map_segment, Phdr, validate_elf_header, fill_page, phdr_of, elf_seek_read, read_into,
}
use unix_os.Fs.Elf.Ledger.{Ledger}
use unix_os.Fs.Elf.Load.{Image, load_elf_process, elf_load_segments}
use unix_os.Fs.Elf.Closed.{load_elf_process-Ledger}
use unix_os.Fs.Elf.Brk.{IsPlaced, elf_load_segments-IsPlaced}
use unix_os.Core.Sched.Unlink.{erase, erase-hit}

record Machine : Type 0 where
  pub pos : ℕ
  pub files : List ℕ
  pub hand : List ℕ
  pub pages : List ℕ

-- e_ident, e_type 2, e_machine 3, e_version, e_entry, e_phoff, e_shoff, e_flags, e_ehsize, e_phentsize 32,
-- e_phnum 1, and the rest; then a segment of 5000 bytes of memory and 4 of the file.
abbrev file : List ℕ
file =
    127 ∷ 69 ∷ 76 ∷ 70 ∷ 1 ∷ 1 ∷ 0 ∷ 0 ∷ 0 ∷ 0 ∷ 0 ∷ 0 ∷ 0 ∷ 0 ∷ 0 ∷ 0 ∷ 2 ∷ 0 ∷ 3 ∷ 0 ∷ 1 ∷ 0 ∷ 0
    ∷ 0 ∷ 0 ∷ 128 ∷ 4 ∷ 8 ∷ 52 ∷ 0 ∷ 0 ∷ 0 ∷ 0 ∷ 0 ∷ 0 ∷ 0 ∷ 0 ∷ 0 ∷ 0 ∷ 0 ∷ 52 ∷ 0 ∷ 32 ∷ 0 ∷ 1 ∷ 0
    ∷ 0 ∷ 0 ∷ 0 ∷ 0 ∷ 0 ∷ 0 ∷ 1 ∷ 0 ∷ 0 ∷ 0 ∷ 84 ∷ 0 ∷ 0 ∷ 0 ∷ 0 ∷ 128 ∷ 4 ∷ 8 ∷ 0 ∷ 0 ∷ 0 ∷ 0 ∷ 4
    ∷ 0 ∷ 0 ∷ 0 ∷ 136 ∷ 19 ∷ 0 ∷ 0 ∷ 6 ∷ 0 ∷ 0 ∷ 0 ∷ 0 ∷ 0 ∷ 0 ∷ 0 ∷ 9 ∷ 9 ∷ 9 ∷ 9 ∷ []

abbrev machine : Kernel Machine
machine = record {
  vfs_open = λ path w.
      (some (length w.files + 3), record w { files = (length w.files + 3) ∷ w.files; pos = 0 });
  vfs_close = λ fd w. record w { files = erase fd w.files };
  vfs_lseek = λ fd off w. (some off, record w { pos = off });
  vfs_read = λ fd n w. (some (take n (drop w.pos file)), record w { pos = w.pos + n });
  allocate_frame =
      λ w. (some (length w.pages + 7), record w { hand = (length w.pages + 7) ∷ w.hand });
  zero_frame = λ frame w. w;
  copy_to_frame = λ frame at bs w. w;
  map_page =
      λ addr frame flags w. (true, record w { hand = erase frame w.hand; pages = addr ∷ w.pages });
  free_frame = λ frame w. record w { hand = erase frame w.hand };
  random_u32 = λ w. (5, w);
}

abbrev idle_machine : Machine
idle_machine = record { pos = 0; files = []; hand = []; pages = [] }

-- The open descriptors and the frames in hand
abbrev Follows : List ℕ → List ℕ → Machine → Type 0
Follows f h w = (w.files ≡ f) × (w.hand ≡ h)

erase_first : (x : ℕ) (xs l : List ℕ) → l ≡ x ∷ xs → erase x l ≡ xs
erase_first x xs l e = ap (erase x) e ∙ erase-hit x x xs (ground arith)

machine-Ledger : Ledger machine Follows
machine-Ledger = record {
  opens = λ f h path w i. (ap (λ l. (length w.files + 3) ∷ l) i.0, i.1);
  closes = λ f h fd w i. (erase_first fd f w.files i.0, i.1);
  seeks = λ f h fd off w i. i;
  reads = λ f h fd n w i. (i, omega (arith, length-take n (drop w.pos file)));
  allocates = λ f h w i. (i.0, ap (λ l. (length w.pages + 7) ∷ l) i.1);
  zeroes = λ f h frame w i. i;
  copies = λ f h frame at bs w l i. i;
  maps = λ f h addr frame flags w p i. (i.0, erase_first frame h w.hand i.1);
  frees = λ f h frame w i. (i.0, erase_first frame h w.hand i.1);
  randoms = λ f h w i. i;
}

abbrev empty_image : Image
empty_image = record {
  brk = 0;
  mmap_next_addr = 1342177280;
  user_stack_base = 2147483648;
  elf_entry = 0;
  elf_phdr = 0;
  elf_phnum = 0;
  interp_base = 0;
  eip = 0;
  esp = 0;
  cs = 0;
  ds = 0;
  es = 0;
  fs = 0;
  gs = 0;
  ss = 0;
}

abbrev loaded : (ℕ × Image) × Machine
loaded = load_elf_process machine (47 ∷ []) empty_image idle_machine

load_elf_process_here :
    (loaded.0.0 ≡ 0)
    × (loaded.0.1.eip ≡ 134512640)
    × (loaded.0.1.brk ≡ 134520832)
    × (loaded.1.pages ≡ 134516736 ∷ 134512640 ∷ [])
unfolding load_elf_process validate_elf_header elf_seek_read map_segment fill_page read_into
load_elf_process_here = (refl, refl, refl, refl)

-- The end of a segment is not bounded: the second page is the first of the stack's and kernel's half.
map_segment_above :
    (map_segment machine 3
      (record {
        p_type = 1;
        p_offset = 0;
        p_vaddr = 2147479552;
        p_filesz = 0;
        p_memsz = 8192;
        p_flags = 2;
      })
      0
      idle_machine).1.pages
    ≡ 2147483648 ∷ 2147479552 ∷ []
unfolding map_segment fill_page read_into
map_segment_above = refl

load_elf_process-Ledger_example : Follows [] [] loaded.1
load_elf_process-Ledger_example =
    load_elf_process-Ledger machine Follows [] [] (47 ∷ []) empty_image idle_machine machine-Ledger
      (refl, refl)

abbrev segment : Phdr
segment = phdr_of (drop 52 file)

elf_load_segments-IsPlaced_example :
    ((elf_load_segments machine 3 (segment ∷ []) 0 0 idle_machine).0.1 % 4096 ≡ 0)
    × All
        (IsPlaced 0 (elf_load_segments machine 3 (segment ∷ []) 0 0 idle_machine).0.1)
        (segment ∷ [])
unfolding elf_load_segments map_segment fill_page read_into
elf_load_segments-IsPlaced_example =
    elf_load_segments-IsPlaced machine 3 (segment ∷ []) 0 idle_machine refl
