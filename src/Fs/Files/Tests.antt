-- ===== src/Fs/Files/Tests.antt =====
-- Two processes without descriptors, and one file system at "/", whose state is the content of its file
-- 3, "/a".
use unix_os.Prelude.{
  drop, take, ℕ, List, Option, some, ◌∷◌, if◌then◌else◌, length, [], none, replicate, ◌≡◌, ok, refl,
  ◌++◌, ◌+◌, true, get_or, ◌<◌, set, suc, arith, ◌↔◌, ap, ◌≤◌, zero, ◌≢◌, u32_mod,
}
use unix_os.Fs.Mount.{Ops, Str, Mount, str_eq, resolve_path}
use unix_os.Core.Process.{Process, running}
use unix_os.Fs.Files.{Files, OpenFile, file_at, zero_file, empty_fd, fd_to_of_idx, fd_at, max_files}
use unix_os.Fs.Files.Open.{vfs_open}
use unix_os.Fs.Files.Close.{vfs_dup, vfs_close}
use unix_os.Fs.Files.Calls.{
  System, run_calls, FileCall, opens, dups, writes, closes, reads, dup2s, seeks, owner_at,
}
use unix_os.Core.Fork.{Fd}
use unix_os.Fs.Files.Counts.{count_fds, NoneFree}
use unix_os.Fs.Files.System.{Balanced, run_calls-Balanced}
use unix_os.Fs.Files.Dups.{Made}
use unix_os.Fs.Files.RoundTrip.{vfs_open-vfs_close}
use unix_os.Fs.Files.Sharing.{vfs_dup-shares}
use unix_os.Fs.Path.{make_abs_path}
use unix_os.Fs.Files.Kinds.{sys_dup, console_magic, sys_dup_outside}
use unix_os.Fs.Files.Forked.{fork_owner, fork_owner-Balanced}

abbrev name_of : ℕ → List ℕ → ℕ → Str → ℕ
name_of priv s parent name = if str_eq name (97 ∷ []) then 3 else 0

abbrev disk : Ops (List ℕ)
disk = record {
  resolve = some name_of;
  stat = some (λ priv s ino.
      some (record { st_mode = 0x81A4; st_uid = 0; st_size = length s; st_nlink = 1 }));
  read = some (λ priv s ino count pos. (ok (take count (drop pos s)), s));
  write =
      some
        (λ priv s ino src pos. (ok (length src), take pos s ++ src ++ drop (pos + length src) s));
  readdir = none;
  create = none;
  mkdir = none;
  unlink = none;
  rmdir = none;
  truncate = some (λ priv s ino len. (ok 0, take len s));
  chmod = none;
  chown = none;
  rename = none;
  inc_open = none;
  dec_open = none;
  get_open = none;
  release = none;
}

abbrev mounts : List (Option (Mount (List ℕ)))
mounts = some (record { target = 47 ∷ []; ops = disk; fs_priv = 0; root_inode = 2 }) ∷ []

abbrev path : Option Str
path = some (47 ∷ 97 ∷ [])

abbrev user : Process
user = record {
  pid = 7;
  ppid = 1;
  pgid = 7;
  sid = 7;
  cred = record { uid = 0; gid = 0; euid = 0; egid = 0; suid = 0; sgid = 0 };
  state = running;
  priority = 1;
  time_slice = 5;
  exit_code = 0;
  tty = none;
  umask = 0;
  signal_mask = 0;
  signal_pending = 0;
  signal_handlers = [];
  cwd = 47 ∷ [];
  owner_cpu = 0;
}

abbrev no_files : List (OpenFile (List ℕ))
no_files = replicate 64 zero_file

abbrev no_fds : List Fd
no_fds = replicate 64 empty_fd

abbrev idle : Files (List ℕ)
idle = record {
  store = 1 ∷ 2 ∷ 3 ∷ 4 ∷ [];
  open_files = no_files;
  current = some user;
  fd_table = no_fds;
}

abbrev boot : System (List ℕ)
boot = record {
  store = 1 ∷ 2 ∷ 3 ∷ 4 ∷ [];
  open_files = no_files;
  owners =
      record { current = some user; fd_table = no_fds }
      ∷ record { current = none; fd_table = no_fds }
      ∷ [];
}

-- Opens, copies, writes through the copy, opens by the other, closes the original, and reads.
abbrev calls : List (ℕ × FileCall (List ℕ))
calls =
    (0, opens mounts path 2 0)
    ∷ (0, dups 3)
    ∷ (0, writes 4 (some (9 ∷ [])))
    ∷ (1, opens mounts path 0 0)
    ∷ (0, closes 3)
    ∷ (0, reads 4 true 2)
    ∷ (0, dup2s 4 10)
    ∷ (0, seeks 10 1 0)
    ∷ (0, closes 4)
    ∷ (1, closes 0)
    ∷ []

abbrev after : Option (System (List ℕ)) → System (List ℕ)
after none = boot
after (some sys) = sys

abbrev last : System (List ℕ)
last = after (run_calls boot calls)

last_count : (file_at last.open_files 0).refcount ≡ 1
unfolding run_calls make_abs_path resolve_path
last_count = refl

get_or-replicate : {A : Type 0} (n i : ℕ) (a : A) → get_or (replicate n a) i a ≡ a
get_or-replicate zero i a = refl
get_or-replicate (suc n) zero a = refl
get_or-replicate (suc n) (suc i) a = get_or-replicate n i a

count_fds-replicate : (n i : ℕ) → count_fds (replicate n empty_fd) (suc i) ≡ 0
count_fds-replicate zero i = refl
count_fds-replicate (suc n) i = ground (arith, count_fds-replicate n i)

no_fds-length : (k : ℕ) → k < 2 → length (owner_at boot.owners k).fd_table ≡ 64
no_fds-length zero l = refl
no_fds-length (suc zero) l = refl
no_fds-length (suc (suc k)) l = absurd (omega arith)

boot-Balanced : Balanced boot
boot-Balanced = (
  refl,
  no_fds-length,
  λ i l. omega (
    arith,
    ap (λ o. o.refcount) (get_or-replicate 64 i (zero_file {S = List ℕ})),
    count_fds-replicate 64 i,
  ),
)

run_calls-Balanced_example : Balanced last
unfolding run_calls make_abs_path resolve_path
run_calls-Balanced_example = run_calls-Balanced boot calls last refl boot-Balanced

last_small : (i : ℕ) → i < 64 → (file_at boot.open_files i).refcount + max_files < u32_mod
last_small i l =
    omega (arith, ap (λ o. o.refcount) (get_or-replicate 64 i (zero_file {S = List ℕ})))

fork_owner-Balanced_example : Balanced (fork_owner boot 0 (some user))
fork_owner-Balanced_example =
    fork_owner-Balanced boot 0 (some user) (omega arith) last_small boot-Balanced

vfs_open-vfs_close_example :
    ((j : ℕ)
      → (file_at (vfs_close (vfs_open mounts idle path 2 0).1 3).open_files j).refcount
        ≡ (file_at no_files j).refcount)
    × ((j : ℕ)
        → (fd_at (vfs_close (vfs_open mounts idle path 2 0).1 3).fd_table j).of_idx
          ≡ (fd_at no_fds j).of_idx)
unfolding vfs_open make_abs_path resolve_path
vfs_open-vfs_close_example =
    vfs_open-vfs_close mounts idle path 2 0 3 (vfs_open mounts idle path 2 0).1 refl refl refl

abbrev opened : Files (List ℕ)
opened = (vfs_open mounts idle path 2 0).1

abbrev dupped : Made (List ℕ) → Files (List ℕ)
dupped none = idle
dupped (some (r, f)) = f

vfs_dup-shares_applied :
    let f' = dupped (vfs_dup opened 3) in
    (fd_to_of_idx f' 4 ≡ some 0)
    × (fd_to_of_idx f' 3 ≡ some 0)
    × ((file_at f'.open_files 0).pos ≡ (file_at opened.open_files 0).pos)
    × (3 ≤ 4)
    × (4 < max_files)
    × ((fd_at opened.fd_table 4).of_idx ≡ 0)
    × NoneFree opened.fd_table 3 4
unfolding vfs_open vfs_dup make_abs_path resolve_path fd_to_of_idx
vfs_dup-shares_applied = vfs_dup-shares opened 3 4 0 (dupped (vfs_dup opened 3)) refl refl refl refl

-- Descriptor 3 is an end of pipe 0, as sys_pipe leaves it.
abbrev piped : Files (List ℕ)
piped = record idle {
  fd_table = set no_fds 3 (record { of_idx = 1000; offset = 0; flags = 0; refcount = 1 });
}

sys_dup_outside_example : (sys_dup piped 3 ≡ none) ↔ ((max_files < 1000) × (1000 ≢ console_magic))
unfolding sys_dup
sys_dup_outside_example =
    sys_dup_outside piped user 3 4 refl refl (omega arith) (λ e. absurd (omega (arith, e)))
