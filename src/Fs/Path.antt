-- ===== src/Fs/Path.antt =====
-- src/kernel/fs/vfs_path.c: the operations that take a path, over the mount table, and dcache.c, which
-- they invalidate. vfs_lock is held throughout, so a call is one step.
pub mod Absolute
pub mod Guards
mod Tests
use unix_os.Prelude.{
  List, ℕ, Option, some, Result, ◌∷◌, none, err, ◌-◌, if◌then◌else◌, [], Bool, ok, enametoolong,
  false, ◌==◌, suc, option_map, ◌&&◌, not, ltb, ◌++◌, leb, zero, length, einval, enosys, enoent,
  exdev, eperm, enotempty, bit_and, esrch, take, enotdir,
}
use unix_os.Fs.Mount.{
  Str, Mount, resolve_parent_and_leaf, resolve_path, is_absolute, str_eq, ends_with_slash, is_empty,
  slash,
}
use unix_os.Core.Process.{Process}

-- What a call reads and writes: the file systems, and the path in each slot of the dcache.
pub record Vfs (S : Type 0) : Type 0 where
  pub fs : S
  pub dcache : List (Option Str)

-- A copying loop for at most `room` characters and the test that the string ended there.
abbrev pub copied : ℕ → Str → Option Str
copied room [] = some []
copied zero (c ∷ s) = none
copied (suc room) (c ∷ s) = option_map (λ t. c ∷ t) (copied room s)

abbrev pub or_too_long : Option Str → Result Str
or_too_long none = err enametoolong
or_too_long (some s) = ok s

-- make_abs_path for a path under the working directory cwd, which is not empty.
unfoldable pub under_cwd : Str → Str → ℕ → Result Str
under_cwd cwd path bufsz = elim (copied (bufsz - 2) cwd) [
  | none ↦ err enametoolong
  | some buf ↦
      let base : Str = if ends_with_slash buf then buf else buf ++ slash ∷ [] in
      if not (ends_with_slash buf) && leb (bufsz - 2) (length buf)
      then err enametoolong
      else elim (copied (bufsz - 1 - length base) path) [
        | none ↦ err enametoolong
        | some rest ↦ ok (base ++ rest)
      ]
]

-- make_abs_path for a buffer of at least two bytes, cwd being empty where there is none.
unfoldable pub make_abs_path : Str → Str → ℕ → Result Str
unfolding under_cwd
make_abs_path cwd path bufsz =
    if is_absolute path
    then or_too_long (copied (bufsz - 1) path)
    else (if is_empty cwd
        then or_too_long (option_map (λ s. slash ∷ s) (copied (bufsz - 2) path))
        else under_cwd cwd path bufsz)

-- The loop of dcache_invalidate: the first slot with that path is cleared. A slot holds at most 63
-- characters.
pub dcache_invalidate : List (Option Str) → Str → List (Option Str)
dcache_invalidate [] path = []
dcache_invalidate (none ∷ slots) path = none ∷ dcache_invalidate slots path
dcache_invalidate (some p ∷ slots) path =
    let rest = dcache_invalidate slots path in
    if str_eq p path && leb (length p) 63 then none ∷ slots else some p ∷ rest

abbrev pub cwd_of : Option Process → Str
cwd_of none = []
cwd_of (some p) = p.cwd

-- Whether the caller is a process that is not root.
abbrev pub unprivileged : Option Process → Bool
unprivileged none = false
unprivileged (some p) = not (p.cred.euid == 0)

abbrev pub is_user : Option Process → ℕ → Bool
is_user none uid = false
is_user (some p) uid = p.cred.euid == uid

abbrev pub abs_size : ℕ
abs_size = 512

module _ {S : Type 0} (mounts : List (Option (Mount S))) (v : Vfs S) where
  -- What an operation that returned r leaves, when the cached path is dropped on success.
  abbrev pub dropping : Result ℕ × S → Str → Result ℕ × Vfs S
  dropping (ok n, s) path = (
    ok n,
    record { fs = s; dcache = if n == 0 then dcache_invalidate v.dcache path else v.dcache },
  )
  dropping (err e, s) path = (err e, record v { fs = s })

  abbrev pub dropping_both : Result ℕ × S → Str → Str → Result ℕ × Vfs S
  dropping_both (ok n, s) old new = (
    ok n,
    record {
      fs = s;
      dcache = if n == 0 then dcache_invalidate (dcache_invalidate v.dcache old) new else v.dcache;
    },
  )
  dropping_both (err e, s) old new = (err e, record v { fs = s })

  abbrev pub keeping : Result ℕ × S → Result ℕ × Vfs S
  keeping (r, s) = (r, record v { fs = s })

  -- vfs_mkdir
  pub vfs_mkdir : Option Str → ℕ → Result ℕ × Vfs S
  vfs_mkdir none mode = (err einval, v)
  vfs_mkdir (some path) mode =
      let made : Result ℕ × Vfs S = elim (resolve_parent_and_leaf mounts v.fs path) [
        | err e ↦ (err e, v)
        | ok (i, m, parent, leaf) ↦ elim m.ops.mkdir [
          | none ↦ (err enosys, v)
          | some mkdir ↦ keeping (mkdir m.fs_priv v.fs parent leaf mode)
        ]
      ] in
      if is_absolute path then made else (err einval, v)

  -- vfs_unlink
  pub vfs_unlink : Option Process → Option Str → Result ℕ × Vfs S
  vfs_unlink cur none = (err einval, v)
  vfs_unlink cur (some path) = elim (make_abs_path (cwd_of cur) path abs_size) [
    | err e ↦ (err e, v)
    | ok abs ↦ elim (resolve_parent_and_leaf mounts v.fs abs) [
      | err e ↦ (err e, v)
      | ok (i, m, parent, leaf) ↦ elim m.ops.unlink [
        | none ↦ (err enosys, v)
        | some unlink ↦ dropping (unlink m.fs_priv v.fs parent leaf) path
      ]
    ]
  ]

  -- Whether readdir gives more than 0 bytes for a buffer of 64.
  abbrev pub has_entry : Option (ℕ → S → ℕ → ℕ → ℕ → Result (List ℕ × ℕ)) → ℕ → ℕ → Bool
  has_entry none priv child = false
  has_entry (some readdir) priv child = elim (readdir priv v.fs child 64 0) [
    | err e ↦ false
    | ok (bytes, pos) ↦ ltb 0 (length bytes)
  ]

  -- vfs_rmdir
  pub vfs_rmdir : Option Process → Option Str → Result ℕ × Vfs S
  vfs_rmdir cur none = (err einval, v)
  vfs_rmdir cur (some path) = elim (make_abs_path (cwd_of cur) path abs_size) [
    | err e ↦ (err e, v)
    | ok abs ↦ elim (resolve_parent_and_leaf mounts v.fs abs) [
      | err e ↦ (err e, v)
      | ok (i, m, parent, leaf) ↦ elim m.ops.rmdir [
        | none ↦ (err enosys, v)
        | some rmdir ↦
            let child : ℕ = elim m.ops.resolve [
              | none ↦ 0
              | some resolve ↦ resolve m.fs_priv v.fs parent leaf
            ] in
            if child == 0
            then (err enoent, v)
            else (if has_entry m.ops.readdir m.fs_priv child
                then (err enotempty, v)
                else dropping (rmdir m.fs_priv v.fs parent leaf) path)
      ]
    ]
  ]

  -- vfs_rename
  pub vfs_rename : Option Process → Option Str → Option Str → Result ℕ × Vfs S
  vfs_rename cur none new = (err einval, v)
  vfs_rename cur (some old) none = (err einval, v)
  vfs_rename cur (some old) (some new) = elim (make_abs_path (cwd_of cur) old abs_size) [
    | err e ↦ (err e, v)
    | ok old_abs ↦ elim (make_abs_path (cwd_of cur) new abs_size) [
      | err e ↦ (err e, v)
      | ok new_abs ↦ elim (resolve_parent_and_leaf mounts v.fs old_abs) [
        | err e ↦ (err e, v)
        | ok (i, m, old_parent, old_leaf) ↦ elim (resolve_parent_and_leaf mounts v.fs new_abs) [
          | err e ↦ (err e, v)
          | ok (j, m', new_parent, new_leaf) ↦ elim m.ops.rename [
            | none ↦ if i == j then (err enosys, v) else (err exdev, v)
            | some rename ↦
                if i == j
                then dropping_both (rename m.fs_priv v.fs old_parent old_leaf new_parent new_leaf)
                    old new
                else (err exdev, v)
          ]
        ]
      ]
    ]
  ]

  -- vfs_truncate
  pub vfs_truncate : Option Process → Option Str → ℕ → Result ℕ × Vfs S
  vfs_truncate cur none length = (err einval, v)
  vfs_truncate cur (some path) length = elim (make_abs_path (cwd_of cur) path abs_size) [
    | err e ↦ (err e, v)
    | ok abs ↦ elim (resolve_path mounts v.fs abs) [
      | err e ↦ (err e, v)
      | ok (i, m, ino) ↦ elim m.ops.truncate [
        | none ↦ (err enosys, v)
        | some truncate ↦ keeping (truncate m.fs_priv v.fs ino length)
      ]
    ]
  ]

  -- vfs_chmod
  pub vfs_chmod : Option Process → Option Str → ℕ → Result ℕ × Vfs S
  vfs_chmod cur none mode = (err einval, v)
  vfs_chmod cur (some path) mode = elim (make_abs_path (cwd_of cur) path abs_size) [
    | err e ↦ (err e, v)
    | ok abs ↦ elim (resolve_path mounts v.fs abs) [
      | err e ↦ (err e, v)
      | ok (i, m, ino) ↦ elim m.ops.stat [
        | none ↦ (err enosys, v)
        | some stat ↦ elim m.ops.chmod [
          | none ↦ (err enosys, v)
          | some chmod ↦ elim (stat m.fs_priv v.fs ino) [
            | none ↦ (err enoent, v)
            | some st ↦
                if unprivileged cur && not (is_user cur st.st_uid)
                then (err eperm, v)
                else keeping (chmod m.fs_priv v.fs ino (bit_and mode 4095))
          ]
        ]
      ]
    ]
  ]

  -- vfs_chown
  pub vfs_chown : Option Process → Option Str → ℕ → ℕ → Result ℕ × Vfs S
  vfs_chown cur none uid gid = (err einval, v)
  vfs_chown cur (some path) uid gid = elim (make_abs_path (cwd_of cur) path abs_size) [
    | err e ↦ (err e, v)
    | ok abs ↦ elim (resolve_path mounts v.fs abs) [
      | err e ↦ (err e, v)
      | ok (i, m, ino) ↦ elim m.ops.chown [
        | none ↦ (err enosys, v)
        | some chown ↦
            if unprivileged cur then (err eperm, v) else keeping (chown m.fs_priv v.fs ino uid gid)
      ]
    ]
  ]

  -- vfs_chdir: the result, and the caller after it. kstrncpy keeps what fits cwd with its NUL.
  pub vfs_chdir : Option Process → Option Str → Result ℕ × Option Process
  vfs_chdir cur none = (err einval, cur)
  vfs_chdir cur (some path) = elim (make_abs_path (cwd_of cur) path abs_size) [
    | err e ↦ (err e, cur)
    | ok abs ↦ elim (resolve_path mounts v.fs abs) [
      | err e ↦ (err e, cur)
      | ok (i, m, ino) ↦ elim m.ops.stat [
        | none ↦ (err enosys, cur)
        | some stat ↦ elim (stat m.fs_priv v.fs ino) [
          | none ↦ (err enoent, cur)
          | some st ↦
              if bit_and st.st_mode 0xF000 == 0x4000
              then elim cur [
                | none ↦ (err esrch, none)
                | some p ↦ (ok 0, some (record p { cwd = take 255 abs }))
              ]
              else (err enotdir, cur)
        ]
      ]
    ]
  ]
