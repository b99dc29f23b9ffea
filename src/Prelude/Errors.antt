-- ===== src/Prelude/Errors.antt =====
-- What a call of the program returns: a value, or a negative errno.

use Prim.Native.Nat.{ℕ}
use mathlib.Core.Path.{◌≡◌, refl}
use mathlib.Core.Bool.{Bool, true, false}
use mathlib.Core.Logic.{◌⊎◌, inl, inr}

-- `assertion` stands for an assert() that fails and `division_by_zero` for one, which end the program, and `fuel_spent` for a loop of the
-- model that was given too few rounds. `peer` is an errno that the other side of a connection names.
pub data Errno : Type 0 where
  einval erange ebusy eio enomem espipe eopnotsupp enodata enxio eunatch enotty efault e2big : Errno
  epipe ebadmsg eagain erofs efbig ebadfd ebadf assertion division_by_zero fuel_spent : Errno
  enoent eexist eaddrnotavail ealready ebade eprotonosupport econnaborted : Errno
  peer : ℕ → Errno

pub data Result {ℓ} (A : Type ℓ) : Type ℓ where
  ok : A → Result A
  err : Errno → Result A

-- `if (!test) return -e;`
abbrev pub guard : Bool → Errno → Result (Unit {0})
guard false e = err e
guard true e = ok tt

-- What follows a call, unless the call returned an error.
infixl 5 ◌>>=◌
abbrev pub ◌>>=◌ {ℓ κ} :
    {Value : Type ℓ} {Next : Type κ} → Result Value → (Value → Result Next) → Result Next
err e >>= then_do = err e
ok value >>= then_do = then_do value

infixl 5 ◌>>◌
abbrev pub ◌>>◌ {κ} : {Next : Type κ} → Result (Unit {0}) → Result Next → Result Next
checked >> next = checked >>= λ done. next

-- To split on a computed result and keep the equation.
pub Result-cases {ℓ} :
    {A : Type ℓ} (r : Result A) → ((a : A) × (r ≡ ok a)) ⊎ ((e : Errno) × (r ≡ err e))
Result-cases (ok a) = inl (a, refl)
Result-cases (err e) = inr (e, refl)

-- Tests for the errors that callers handle
abbrev pub is_eagain : Errno → Bool
is_eagain eagain = true
is_eagain _ = false

abbrev pub is_enoent : Errno → Bool
is_enoent enoent = true
is_enoent _ = false

abbrev pub is_eexist : Errno → Bool
is_eexist eexist = true
is_eexist _ = false

abbrev pub is_enodata : Errno → Bool
is_enodata enodata = true
is_enodata _ = false

abbrev pub is_eaddrnotavail : Errno → Bool
is_eaddrnotavail eaddrnotavail = true
is_eaddrnotavail _ = false
