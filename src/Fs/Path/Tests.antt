-- ===== src/Fs/Path/Tests.antt =====
-- One file system at "/", whose state is the mode of the file 3, "/a"; user 1000 owns it. Inode 2 is
-- the root directory, 4 the empty directory "/d".
use unix_os.Prelude.{
  ℕ, List, get_or, Option, some, ◌∷◌, [], if◌then◌else◌, none, ◌≡◌, ◌+◌, ◌==◌, ok, ◌<◌, ltb, ◌⊎◌,
  true, drop, map, length, Result, refl, ◌≤◌, take, err, enametoolong, bit_and, false, arith,
  enoent,
}
use unix_os.Fs.Mount.{
  Ops, Mount, resolve_mount, walk_components, Str, best_mount, Stat, mount_prefix_len, resolve_path,
  is_absolute, str_eq, resolve_parent_and_leaf,
}
use unix_os.Fs.Path.{
  Vfs, make_abs_path, vfs_chmod, vfs_rmdir, vfs_chdir, under_cwd, cwd_of, abs_size, unprivileged,
  is_user, has_entry,
}
use unix_os.Core.Process.{Process, running}
use unix_os.Fs.Path.Absolute.{absolute, make_abs_path_fits}
use unix_os.Fs.Mount.Walk.{resolve_all, components, walk_components-resolve_all}
use unix_os.Fs.Mount.Longest.{resolve_mount_longest}
use unix_os.Fs.Path.Guards.{chdir_moves, chmod_guard, rmdir_guard}
use unix_os.Fs.Mount.Under.{IsUnder}

abbrev stat_of : ℕ → ℕ → ℕ → Option Stat
stat_of priv s ino =
    if ino == 3
    then some (record { st_mode = s; st_uid = 1000; st_size = 5; st_nlink = 1 })
    else some (record { st_mode = 0x41ED; st_uid = 0; st_size = 0; st_nlink = 2 })

abbrev name_of : ℕ → ℕ → ℕ → Str → ℕ
name_of priv s parent name =
    if str_eq name (97 ∷ []) then 3 else (if str_eq name (100 ∷ []) then 4 else 0)

abbrev small : Ops ℕ
small = record {
  resolve = some name_of;
  stat = some stat_of;
  read = none;
  write = none;
  readdir = some (λ priv s ino size pos. if ino == 2 then ok (1 ∷ [], 1) else ok ([], 0));
  create = none;
  mkdir = none;
  unlink = none;
  rmdir = some (λ priv s parent name. (ok 0, s));
  truncate = none;
  chmod = some (λ priv s ino mode. (ok 0, mode));
  chown = none;
  rename = none;
  inc_open = none;
  dec_open = none;
  get_open = none;
  release = none;
}

abbrev root_mount : Mount ℕ
root_mount = record { target = 47 ∷ []; ops = small; fs_priv = 0; root_inode = 2 }

abbrev dev_mount : Mount ℕ
dev_mount = record { target = 47 ∷ 100 ∷ []; ops = small; fs_priv = 1; root_inode = 2 }

abbrev mounts : List (Option (Mount ℕ))
mounts = some root_mount ∷ none ∷ []

abbrev vfs : Vfs ℕ
vfs = record { fs = 0x81A4; dcache = some (47 ∷ 97 ∷ []) ∷ none ∷ [] }

abbrev user : Process
user = record {
  pid = 7;
  ppid = 1;
  pgid = 7;
  sid = 7;
  cred = record { uid = 1000; gid = 1000; euid = 1000; egid = 1000; suid = 1000; sgid = 1000 };
  state = running;
  priority = 20;
  time_slice = 100;
  exit_code = 0;
  tty = none;
  umask = 18;
  signal_mask = 0;
  signal_pending = 0;
  signal_handlers = [];
  cwd = 47 ∷ [];
  owner_cpu = 0;
}

-- "/d/x" belongs to the mount at "/d", not to the one at "/".
longer_wins :
    resolve_mount (some root_mount ∷ some dev_mount ∷ []) (47 ∷ 100 ∷ 47 ∷ 120 ∷ [])
    ≡ ok (1, dev_mount, 47 ∷ 120 ∷ [])
unfolding resolve_mount best_mount mount_prefix_len
longer_wins = refl

abbrev two_mounts : List (Option (Mount ℕ))
two_mounts = some root_mount ∷ some dev_mount ∷ []

abbrev dev_path : Str
dev_path = 47 ∷ 100 ∷ 47 ∷ 120 ∷ []

resolve_mount_longest_example :
    ((i : ℕ) × (m : Mount ℕ) × (rel : Str) × (resolve_mount two_mounts dev_path ≡ ok (i, m, rel))
      × (get_or two_mounts i none ≡ some m)
      × IsUnder m.target dev_path
      × (rel ≡ drop (length m.target) dev_path)
      × ((j : ℕ) (m' : Mount ℕ)
          → get_or two_mounts j none ≡ some m'
          → IsUnder m'.target dev_path
          → length m'.target ≤ length m.target))
    ⊎ ((resolve_mount two_mounts dev_path ≡ err enoent)
        × ((j : ℕ) (m' : Mount ℕ)
            → get_or two_mounts j none ≡ some m'
            → IsUnder m'.target dev_path
            → length m'.target ≡ 0))
resolve_mount_longest_example = resolve_mount_longest two_mounts dev_path refl refl

walk_components-resolve_all_example :
    walk_components (name_of 0 0) 2 [] (47 ∷ 46 ∷ 47 ∷ 97 ∷ [])
    ≡ resolve_all (name_of 0 0) 2 (map (take 63) (components [] (47 ∷ 46 ∷ 47 ∷ 97 ∷ [])))
walk_components-resolve_all_example =
    walk_components-resolve_all (name_of 0 0) 2 (47 ∷ 46 ∷ 47 ∷ 97 ∷ [])

make_abs_path_fits_example : make_abs_path (47 ∷ []) (97 ∷ []) (509 + 3) ≡ (
    if ltb (length (absolute (47 ∷ []) (97 ∷ []))) (509 + 3)
    then ok (absolute (47 ∷ []) (97 ∷ []))
    else err enametoolong)
make_abs_path_fits_example = make_abs_path_fits (47 ∷ []) (97 ∷ []) 509 (omega arith)

chmod_guard_applied :
    ((vfs_chmod mounts vfs (some user) (some (97 ∷ [])) 420).1 ≡ vfs)
    ⊎ ((abs : Str) × (i : ℕ) × (m : Mount ℕ) × (ino : ℕ) × (stat : ℕ → ℕ → ℕ → Option Stat)
        × (chmod : ℕ → ℕ → ℕ → ℕ → Result ℕ × ℕ) × (st : Stat) × (make_abs_path
              (cwd_of (some user))
              (97 ∷ [])
              abs_size
            ≡ ok abs)
        × (resolve_path mounts vfs.fs abs ≡ ok (i, m, ino))
        × (m.ops.stat ≡ some stat)
        × (m.ops.chmod ≡ some chmod)
        × (stat m.fs_priv vfs.fs ino ≡ some st)
        × ((unprivileged (some user) ≡ false) ⊎ (is_user (some user) st.st_uid ≡ true))
        × ((vfs_chmod mounts vfs (some user) (some (97 ∷ [])) 420).1.fs
            ≡ (chmod m.fs_priv vfs.fs ino (bit_and 420 4095)).1))
chmod_guard_applied = chmod_guard mounts vfs (some user) (97 ∷ []) 420

rmdir_guard_applied :
    ((vfs_rmdir mounts vfs (some user) (some (100 ∷ []))).1 ≡ vfs)
    ⊎ ((abs : Str) × (i : ℕ) × (m : Mount ℕ) × (parent : ℕ) × (leaf : Str) × (resolve : ℕ
          → ℕ
          → ℕ
          → Str
          → ℕ)
        × (make_abs_path (cwd_of (some user)) (100 ∷ []) abs_size ≡ ok abs)
        × (resolve_parent_and_leaf mounts vfs.fs abs ≡ ok (i, m, parent, leaf))
        × (m.ops.resolve ≡ some resolve)
        × ((resolve m.fs_priv vfs.fs parent leaf == 0) ≡ false)
        × (has_entry mounts vfs m.ops.readdir m.fs_priv (resolve m.fs_priv vfs.fs parent leaf)
            ≡ false))
rmdir_guard_applied = rmdir_guard mounts vfs (some user) (100 ∷ [])

chdir_works : (vfs_chdir mounts vfs (some user) (some (100 ∷ []))).0 ≡ ok 0
unfolding vfs_chdir make_abs_path under_cwd resolve_path resolve_mount best_mount mount_prefix_len
    walk_components
chdir_works = refl

chdir_moves_applied :
    let abs = absolute (47 ∷ []) (100 ∷ []) in
    (is_absolute abs ≡ true)
    × (length abs < 512)
    × (cwd_of (vfs_chdir mounts vfs (some user) (some (100 ∷ []))).1 ≡ take 255 abs)
    × ((i : ℕ) × (m : Mount ℕ) × (ino : ℕ) × (stat : ℕ → ℕ → ℕ → Option Stat) × (st : Stat)
        × (resolve_path mounts vfs.fs abs ≡ ok (i, m, ino))
        × (m.ops.stat ≡ some stat)
        × (stat m.fs_priv vfs.fs ino ≡ some st)
        × (bit_and st.st_mode 0xF000 ≡ 0x4000))
chdir_moves_applied = chdir_moves mounts vfs (some user) (100 ∷ []) 0 (omega arith) chdir_works
