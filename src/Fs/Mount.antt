-- ===== src/Fs/Mount.antt =====
-- src/kernel/fs/vfs_mount.c and include/kernel/fs_internal.h: the mount table and the resolution of
-- absolute paths. A string is the list of its characters before the NUL, a pointer to one may be none.
-- S is the state of all file systems, and a mount's fs_priv a number that its operations take.
pub mod Longest
pub mod Under
pub mod Walk
use unix_os.Prelude.{
  List, ℕ, Option, Bool, Result, false, true, ◌&&◌, length, none, ◌∷◌, if◌then◌else◌, some, ◌==◌,
  ltb, get_or, ◌||◌, option_map, err, suc, drop, [], not, take, ok, ◌++◌, enosys, einval, enoent,
  ebusy, leb, enospc, enametoolong, set,
}

abbrev pub Str : Type 0
Str = List ℕ

pub record Stat : Type 0 where
  pub st_mode : ℕ
  pub st_uid : ℕ
  pub st_size : ℕ
  pub st_nlink : ℕ

-- fs_ops_t without dtype, each operation with fs_priv and the state before it; none is a NULL pointer.
-- read and readdir return what they put into the buffer, readdir the next position with it; create
-- returns the inode.
pub record Ops (S : Type 0) : Type 0 where
  pub resolve : Option (ℕ → S → ℕ → Str → ℕ)
  pub stat : Option (ℕ → S → ℕ → Option Stat)
  pub read : Option (ℕ → S → ℕ → ℕ → ℕ → Result (List ℕ) × S)
  pub write : Option (ℕ → S → ℕ → List ℕ → ℕ → Result ℕ × S)
  pub readdir : Option (ℕ → S → ℕ → ℕ → ℕ → Result (List ℕ × ℕ))
  pub create : Option (ℕ → S → ℕ → Str → ℕ → Result ℕ × S)
  pub mkdir : Option (ℕ → S → ℕ → Str → ℕ → Result ℕ × S)
  pub unlink : Option (ℕ → S → ℕ → Str → Result ℕ × S)
  pub rmdir : Option (ℕ → S → ℕ → Str → Result ℕ × S)
  pub truncate : Option (ℕ → S → ℕ → ℕ → Result ℕ × S)
  pub chmod : Option (ℕ → S → ℕ → ℕ → Result ℕ × S)
  pub chown : Option (ℕ → S → ℕ → ℕ → ℕ → Result ℕ × S)
  pub rename : Option (ℕ → S → ℕ → Str → ℕ → Str → Result ℕ × S)
  pub inc_open : Option (ℕ → S → ℕ → S)
  pub dec_open : Option (ℕ → S → ℕ → S)
  pub get_open : Option (ℕ → S → ℕ → ℕ)
  pub release : Option (ℕ → S → ℕ → S)

-- mount_t
pub record Mount (S : Type 0) : Type 0 where
  pub target : Str
  pub ops : Ops S
  pub fs_priv : ℕ
  pub root_inode : ℕ

abbrev pub slash : ℕ
slash = 47

abbrev pub dot : ℕ
dot = 46

abbrev pub is_absolute : Str → Bool
is_absolute [] = false
is_absolute (c ∷ s) = c == slash

abbrev pub ends_with_slash : Str → Bool
ends_with_slash [] = false
ends_with_slash (c ∷ []) = c == slash
ends_with_slash (c ∷ d ∷ s) = ends_with_slash (d ∷ s)

-- kstrcmp(a, b) == 0
abbrev pub str_eq : Str → Str → Bool
str_eq [] [] = true
str_eq [] (d ∷ t) = false
str_eq (c ∷ s) [] = false
str_eq (c ∷ s) (d ∷ t) = c == d && str_eq s t

-- The comparing loop of mount_prefix_len.
abbrev pub starts_with : Str → Str → Bool
starts_with [] path = true
starts_with (c ∷ s) [] = false
starts_with (c ∷ s) (d ∷ t) = d == c && starts_with s t

-- mount_target_valid
pub mount_target_valid : Str → Bool
mount_target_valid target =
    is_absolute target
    && (ltb (length target) 64 && not (ltb 1 (length target) && ends_with_slash target))

-- mount_prefix_len
unfoldable pub mount_prefix_len : Str → Str → ℕ
mount_prefix_len target path =
    let tlen = length target in
    let after = get_or path tlen 0 in
    if tlen == 1 && is_absolute target
    then 1
    else (if starts_with target path
        then (if not (after == 0) && not (after == slash) then 0 else tlen)
        else 0)

module _ {S : Type 0} where
  -- mounts[]: none in a slot that is not in use
  abbrev pub has_target : List (Option (Mount S)) → Str → Bool
  has_target [] target = false
  has_target (none ∷ ms) target = has_target ms target
  has_target (some m ∷ ms) target = str_eq m.target target || has_target ms target

  abbrev pub first_unused : List (Option (Mount S)) → Option ℕ
  first_unused [] = none
  first_unused (none ∷ ms) = some 0
  first_unused (some m ∷ ms) = option_map suc (first_unused ms)

  -- vfs_mount
  pub vfs_mount :
      List (Option (Mount S))
      → Option Str
      → Option (Ops S)
      → ℕ
      → ℕ
      → Result ℕ × List (Option (Mount S))
  unfolding mount_target_valid
  vfs_mount mounts none ops fs_priv root_inode = (err einval, mounts)
  vfs_mount mounts (some target) none fs_priv root_inode = (err einval, mounts)
  vfs_mount mounts (some target) (some ops) fs_priv root_inode =
      let m : Mount S = record {
        target = target;
        ops = ops;
        fs_priv = fs_priv;
        root_inode = root_inode;
      } in
      if not (mount_target_valid target) || root_inode == 0
      then (err einval, mounts)
      else (if has_target mounts target then (err ebusy, mounts) else elim (first_unused mounts) [
        | none ↦ (err enospc, mounts)
        | some i ↦ (ok 0, set mounts i (some m))
      ])

  -- The loop of vfs_resolve_mount from slot i on: best with its index, and best_len.
  unfoldable pub best_mount :
      List (Option (Mount S)) → ℕ → Option (ℕ × Mount S) → ℕ → Str → Option (ℕ × Mount S) × ℕ
  unfolding mount_prefix_len
  best_mount [] i best best_len path = (best, best_len)
  best_mount (none ∷ ms) i best best_len path = best_mount ms (suc i) best best_len path
  best_mount (some m ∷ ms) i best best_len path =
      let mlen = mount_prefix_len m.target path in
      let better = ltb best_len mlen in
      best_mount ms (suc i) (if better then some (i, m) else best)
        (if better then mlen else best_len) path

  -- vfs_resolve_mount: the mount, by its slot and its content, and the path relative to it
  unfoldable pub resolve_mount : List (Option (Mount S)) → Str → Result (ℕ × Mount S × Str)
  unfolding best_mount
  resolve_mount mounts path =
      let (best, best_len) = best_mount mounts 0 none 0 path in
      if is_absolute path
      then elim best [ none ↦ err enoent | some (i, m) ↦ ok (i, m, drop best_len path) ]
      else err einval

abbrev pub is_dot : Str → Bool
is_dot [] = false
is_dot (c ∷ []) = c == dot
is_dot (c ∷ d ∷ s) = false

abbrev pub is_empty : Str → Bool
is_empty [] = true
is_empty (c ∷ s) = false

-- resolve_one, over the resolve of the mount
abbrev pub resolve_one : (ℕ → Str → ℕ) → ℕ → Str → ℕ
resolve_one resolve cur comp = if is_dot comp then cur else resolve cur comp

-- The loop of walk_components and the step after it; `comp` holds the ci characters read so far.
unfoldable pub walk_components : (ℕ → Str → ℕ) → ℕ → Str → Str → ℕ
walk_components resolve cur comp [] = if is_empty comp then cur else resolve_one resolve cur comp
walk_components resolve cur comp (c ∷ rest) =
    let flush = c == slash && not (is_empty comp) in
    let cur' : ℕ = if flush then resolve_one resolve cur comp else cur in
    let comp' : Str =
      if c == slash then [] else (if ltb (length comp) 63 then comp ++ c ∷ [] else comp) in
    let walked = walk_components resolve cur' comp' rest in if flush && cur' == 0 then 0 else walked

-- Where the last slash is.
abbrev pub last_slash : Str → Option ℕ
last_slash [] = none
last_slash (c ∷ s) = elim (last_slash s) [
  | none ↦ if c == slash then some 0 else none
  | some j ↦ some (suc j)
]

abbrev pub index_or_0 : Option ℕ → ℕ
index_or_0 none = 0
index_or_0 (some j) = j

module _ {S : Type 0} where
  -- vfs_resolve_path: the mount, by its slot and its content, and the inode
  unfoldable pub resolve_path : List (Option (Mount S)) → S → Str → Result (ℕ × Mount S × ℕ)
  unfolding resolve_mount walk_components
  resolve_path mounts s path = elim (resolve_mount mounts path) [
    | err e ↦ err e
    | ok (i, m, rel) ↦ elim m.ops.resolve [
      | none ↦ err enosys
      | some resolve ↦
          let ino = walk_components (resolve m.fs_priv s) m.root_inode [] rel in
          if ino == 0 then err enoent else ok (i, m, ino)
    ]
  ]

  -- vfs_resolve_parent_and_leaf
  unfoldable pub resolve_parent_and_leaf :
      List (Option (Mount S)) → S → Str → Result (ℕ × Mount S × ℕ × Str)
  unfolding resolve_path
  resolve_parent_and_leaf mounts s path =
      let at_slash = index_or_0 (last_slash path) in
      let leaf = drop (suc at_slash) path in
      let parent : Str = if at_slash == 0 then slash ∷ [] else take at_slash path in
      if not (is_absolute path) || (ltb (length path) 2 || (ends_with_slash path || is_empty leaf))
      then err einval
      else (if not (at_slash == 0) && leb 512 at_slash
          then err enametoolong
          else elim (resolve_path mounts s parent) [
            | err e ↦ err e
            | ok (i, m, ino) ↦ ok (i, m, ino, leaf)
          ])
