-- ===== src/Prelude/Words.antt =====
-- 32-bit words as native numbers, and the error codes of uapi/errno.h that the models return.
use mathlib.Core.Path.{◌≡◌, refl}
use mathlib.Core.Logic.{◌⊎◌, inl, inr}
use Prim.Native.Nat.{ℕ, ◌+◌, ◌-◌, ◌%◌, ◌^◌}

abbrev pub u32_mod : ℕ
u32_mod = 2 ^ 32

-- uint32_t (and, on this 32-bit target, size_t) addition and subtraction.
abbrev pub add32 : ℕ → ℕ → ℕ
add32 a b = (a + b) % u32_mod

abbrev pub sub32 : ℕ → ℕ → ℕ
sub32 a b = (a + u32_mod - b) % u32_mod

pub data Errno : Type 0 where
  eperm enoent esrch eintr eio ebadf eagain enomem efault eexist enotdir : Errno
  eisdir einval emfile ebusy enotty efbig enospc epipe enametoolong enosys enotempty exdev : Errno

-- An int result: a value, or a negative error code.
pub data Result {ℓ} (A : Type ℓ) : Type ℓ where
  ok : A → Result A
  err : Errno → Result A

pub Result-cases {ℓ} :
    {A : Type ℓ} (r : Result A) → ((e : Errno) × (r ≡ err e)) ⊎ ((a : A) × (r ≡ ok a))
Result-cases (ok a) = inr (a, refl)
Result-cases (err e) = inl (e, refl)
