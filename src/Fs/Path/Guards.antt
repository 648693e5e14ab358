-- ===== src/Fs/Path/Guards.antt =====
-- What the operations on paths check before they call the file system.
use unix_os.Fs.Mount.{
  resolve_path, resolve_mount, Mount, Str, is_absolute, Stat, resolve_parent_and_leaf,
}
use unix_os.Prelude.{
  List, Option, ℕ, ◌≡◌, ok, some, length, ◌⊎◌, true, ◌≤◌, Bool-cases, Result, ◌<◌, inl, false, ◌==◌,
  take, inr, arith, bit_and, Result-cases, ltb, Bool, Option-cases, ◌&&◌, ltb→lt, not, ==_iff,
}
use unix_os.Fs.Path.{
  Vfs, vfs_chmod, vfs_rmdir, vfs_chdir, cwd_of, make_abs_path, abs_size, unprivileged, is_user,
  has_entry,
}
use unix_os.Core.Process.{Process}
use unix_os.Fs.Path.Absolute.{absolute, make_abs_path_fits}

-- A resolved path begins with a slash.
resolve_path_absolute :
    {S : Type 0} (mounts : List (Option (Mount S))) (s : S) (path : Str) (i : ℕ) (m : Mount S)
    (ino : ℕ)
    → resolve_path mounts s path ≡ ok (i, m, ino)
    → is_absolute path ≡ true
unfolding resolve_path resolve_mount
resolve_path_absolute mounts s path i m ino h = elim (Bool-cases (is_absolute path)) [
  | inl a ↦ a
  | inr n ↦ absurd (ground (arith, h, n))
]

module _ {S : Type 0} (mounts : List (Option (Mount S))) (v : Vfs S) (cur : Option Process) where
  -- chmod changes nothing, or it hands the mode's low 12 bits to the file system that the path
  -- resolves to, and the caller is root, the kernel, or the owner that stat gives for the file.
  pub chmod_guard :
      (path : Str) (mode : ℕ)
      → ((vfs_chmod mounts v cur (some path) mode).1 ≡ v)
        ⊎ ((abs : Str) × (i : ℕ) × (m : Mount S) × (ino : ℕ) × (stat : ℕ → S → ℕ → Option Stat)
            × (chmod : ℕ → S → ℕ → ℕ → Result ℕ × S) × (st : Stat) × (make_abs_path
                  (cwd_of cur)
                  path
                  abs_size
                ≡ ok abs)
            × (resolve_path mounts v.fs abs ≡ ok (i, m, ino))
            × (m.ops.stat ≡ some stat)
            × (m.ops.chmod ≡ some chmod)
            × (stat m.fs_priv v.fs ino ≡ some st)
            × ((unprivileged cur ≡ false) ⊎ (is_user cur st.st_uid ≡ true))
            × ((vfs_chmod mounts v cur (some path) mode).1.fs
                ≡ (chmod m.fs_priv v.fs ino (bit_and mode 4095)).1))
  unfolding vfs_chmod
  chmod_guard path mode = elim (Result-cases (make_abs_path (cwd_of cur) path abs_size)) [
    | inl (_, a) ↦ inl (ground (arith, a))
    | inr (abs, a) ↦ elim (Result-cases (resolve_path mounts v.fs abs)) [
      | inl (_, r) ↦ inl (ground (arith, a, r))
      | inr ((i, m, ino), r) ↦ elim (Option-cases m.ops.stat) [
        | inl s ↦ inl (ground (arith, a, r, s))
        | inr (stat, s) ↦ elim (Option-cases m.ops.chmod) [
          | inl c ↦ inl (ground (arith, a, r, s, c))
          | inr (chmod, c) ↦ elim (Option-cases (stat m.fs_priv v.fs ino)) [
            | inl t ↦ inl (ground (arith, a, r, s, c, t))
            | inr (st, t) ↦ elim (Bool-cases (unprivileged cur && not (is_user cur st.st_uid))) [
              | inl u ↦ inl (ground (arith, a, r, s, c, t, u))
              | inr u ↦ inr (
                abs,
                i,
                m,
                ino,
                stat,
                chmod,
                st,
                a,
                r,
                s,
                c,
                t,
                either (unprivileged cur) (is_user cur st.st_uid) u,
                ground (arith, a, r, s, c, t, u),
              )
            ]
          ]
        ]
      ]
    ]
  ]
    where
      either : (b c : Bool) → (b && not c) ≡ false → (b ≡ false) ⊎ (c ≡ true)
      either b c e = ground (arith, e)

  -- rmdir changes nothing, or the path's last name is found in its parent, and the readdir of the
  -- file system, where there is one, gives no entry of it.
  pub rmdir_guard :
      (path : Str)
      → ((vfs_rmdir mounts v cur (some path)).1 ≡ v)
        ⊎ ((abs : Str) × (i : ℕ) × (m : Mount S) × (parent : ℕ) × (leaf : Str) × (resolve : ℕ
              → S
              → ℕ
              → Str
              → ℕ)
            × (make_abs_path (cwd_of cur) path abs_size ≡ ok abs)
            × (resolve_parent_and_leaf mounts v.fs abs ≡ ok (i, m, parent, leaf))
            × (m.ops.resolve ≡ some resolve)
            × ((resolve m.fs_priv v.fs parent leaf == 0) ≡ false)
            × (has_entry mounts v m.ops.readdir m.fs_priv (resolve m.fs_priv v.fs parent leaf)
                ≡ false))
  unfolding vfs_rmdir
  rmdir_guard path = elim (Result-cases (make_abs_path (cwd_of cur) path abs_size)) [
    | inl (_, a) ↦ inl (ground (arith, a))
    | inr (abs, a) ↦ elim (Result-cases (resolve_parent_and_leaf mounts v.fs abs)) [
      | inl (_, r) ↦ inl (ground (arith, a, r))
      | inr ((i, m, parent, leaf), r) ↦ elim (Option-cases m.ops.rmdir) [
        | inl d ↦ inl (ground (arith, a, r, d))
        | inr (rmdir, d) ↦ elim (Option-cases m.ops.resolve) [
          | inl l ↦ inl (ground (arith, a, r, d, l))
          | inr (resolve, l) ↦
              let child = resolve m.fs_priv v.fs parent leaf in
              elim (Bool-cases (child == 0)) [
                | inl z ↦ inl (ground (arith, a, r, d, l, z))
                | inr z ↦ elim (Bool-cases (has_entry mounts v m.ops.readdir m.fs_priv child)) [
                  | inl t ↦ inl (ground (arith, a, r, d, l, z, t))
                  | inr t ↦ inr (abs, i, m, parent, leaf, resolve, a, r, l, z, t)
                ]
              ]
        ]
      ]
    ]
  ]

  -- A chdir that succeeds leaves the caller in the first 255 characters of the absolute path, which
  -- begins with a slash and resolves to a directory.
  pub chdir_moves :
      (path : Str) (n : ℕ)
      → length (cwd_of cur) ≤ 509
      → (vfs_chdir mounts v cur (some path)).0 ≡ ok n
      → let abs = absolute (cwd_of cur) path in
        (is_absolute abs ≡ true)
        × (length abs < 512)
        × (cwd_of (vfs_chdir mounts v cur (some path)).1 ≡ take 255 abs)
        × ((i : ℕ) × (m : Mount S) × (ino : ℕ) × (stat : ℕ → S → ℕ → Option Stat) × (st : Stat)
            × (resolve_path mounts v.fs abs ≡ ok (i, m, ino))
            × (m.ops.stat ≡ some stat)
            × (stat m.fs_priv v.fs ino ≡ some st)
            × (bit_and st.st_mode 0xF000 ≡ 0x4000))
  unfolding vfs_chdir
  chdir_moves path n h ret =
      let fits = make_abs_path_fits (cwd_of cur) path 509 h in
      elim (Bool-cases (ltb (length (absolute (cwd_of cur) path)) 512)) [
        | inr l ↦ absurd (ground (arith, fits, l, ret))
        | inl l ↦
            let abs = absolute (cwd_of cur) path in
            let a : make_abs_path (cwd_of cur) path abs_size ≡ ok abs = ground (arith, fits, l) in
            elim (Result-cases (resolve_path mounts v.fs abs)) [
              | inl (_, r) ↦ absurd (ground (arith, a, r, ret))
              | inr ((i, m, ino), r) ↦ elim (Option-cases m.ops.stat) [
                | inl s ↦ absurd (ground (arith, a, r, s, ret))
                | inr (stat, s) ↦ elim (Option-cases (stat m.fs_priv v.fs ino)) [
                  | inl t ↦ absurd (ground (arith, a, r, s, t, ret))
                  | inr (st, t) ↦ elim (Bool-cases (bit_and st.st_mode 0xF000 == 0x4000)) [
                    | inr d ↦ absurd (ground (arith, a, r, s, t, d, ret))
                    | inl d ↦ (
                      resolve_path_absolute mounts v.fs abs i m ino r,
                      ltb→lt _ _ l,
                      ground (arith, a, r, s, t, d, ret),
                      (i, m, ino, stat, st, r, s, t, (==_iff _ _).0 d),
                    )
                  ]
                ]
              ]
            ]
      ]
