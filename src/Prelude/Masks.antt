-- ===== src/Prelude/Masks.antt =====
-- Laws of `&` and `|` on masks, at variables.
use Prim.Native.Nat.{
  ℕ, zero, suc, ◌+◌, ◌/◌, ◌%◌, ◌≤◌, min, max, bit_and, bit_or, bit_or-bitwise, bit_and-bitwise,
}
use mathlib.Core.Path.{◌≡◌, refl, ap, ap₂, ◌∙◌}
use native.Mathlib.Omega.{arith}
use casync.Prelude.Bits.{bit_or_step, bit_and_step}

and_halves :
    (x y : ℕ)
    → (bit_and x y / 2 ≡ bit_and (x / 2) (y / 2)) × (bit_and x y % 2 ≡ min (x % 2) (y % 2))
and_halves x y = omega (arith, bit_and_step x y)

or_halves :
    (x y : ℕ) → (bit_or x y / 2 ≡ bit_or (x / 2) (y / 2)) × (bit_or x y % 2 ≡ max (x % 2) (y % 2))
or_halves x y = omega (arith, bit_or_step x y)

and_assoc_fuel :
    (n x y w : ℕ) → x ≤ n → y ≤ n → w ≤ n → bit_and (bit_and x y) w ≡ bit_and x (bit_and y w)
and_assoc_fuel zero x y w p q r = ground (arith, bit_and_step x y, bit_and_step y w)
and_assoc_fuel (suc n) x y w p q r = omega (
  arith,
  bit_and_step (bit_and x y) w,
  bit_and_step x (bit_and y w),
  ap (λ t. bit_and t (w / 2)) (and_halves x y).0,
  ap (λ t. bit_and (x / 2) t) (and_halves y w).0,
  (and_halves x y).1,
  (and_halves y w).1,
  and_assoc_fuel n (x / 2) (y / 2) (w / 2) (omega arith) (omega arith) (omega arith),
)

pub bit_and_assoc : (x y w : ℕ) → bit_and (bit_and x y) w ≡ bit_and x (bit_and y w)
bit_and_assoc x y w = and_assoc_fuel (x + y + w) x y w (omega arith) (omega arith) (omega arith)

and_comm_fuel : (n x y : ℕ) → x ≤ n → y ≤ n → bit_and x y ≡ bit_and y x
and_comm_fuel zero zero zero p q = refl
and_comm_fuel zero (suc x) y p q = absurd (omega arith)
and_comm_fuel zero zero (suc y) p q = absurd (omega arith)
and_comm_fuel (suc n) x y p q = omega (
  arith,
  bit_and_step x y,
  bit_and_step y x,
  and_comm_fuel n (x / 2) (y / 2) (omega arith) (omega arith),
)

pub bit_and_comm : (x y : ℕ) → bit_and x y ≡ bit_and y x
bit_and_comm x y = and_comm_fuel (x + y) x y (omega arith) (omega arith)

or_zero_fuel : (n x : ℕ) → x ≤ n → bit_or x 0 ≡ x
or_zero_fuel zero zero p = refl
or_zero_fuel zero (suc x) p = absurd (omega arith)
or_zero_fuel (suc n) x p = omega (arith, bit_or_step x 0, or_zero_fuel n (x / 2) (omega arith))

pub bit_or-zero : (x : ℕ) → bit_or x 0 ≡ x
bit_or-zero x = or_zero_fuel x x (omega arith)

and_zero_fuel : (n x : ℕ) → x ≤ n → bit_and x 0 ≡ 0
and_zero_fuel zero x p = ground (arith, ap (λ t. bit_and t 0) {x = x} {y = 0} (omega arith))
and_zero_fuel (suc n) x p = omega (arith, bit_and_step x 0, and_zero_fuel n (x / 2) (omega arith))

pub bit_and-zero : (x : ℕ) → bit_and x 0 ≡ 0
bit_and-zero x = and_zero_fuel x x (omega arith)

and_or_fuel :
    (n x y w : ℕ)
    → x ≤ n
    → y ≤ n
    → w ≤ n
    → bit_and (bit_or x y) w ≡ bit_or (bit_and x w) (bit_and y w)
and_or_fuel zero zero zero zero p q r = refl
and_or_fuel zero (suc x) y w p q r = absurd (omega arith)
and_or_fuel zero zero (suc y) w p q r = absurd (omega arith)
and_or_fuel zero zero zero (suc w) p q r = absurd (omega arith)
and_or_fuel (suc n) x y w p q r = omega (
  arith,
  bit_and_step (bit_or x y) w,
  bit_or_step (bit_and x w) (bit_and y w),
  ap (λ t. bit_and t (w / 2)) (or_halves x y).0,
  ap (λ t. bit_or t (bit_and y w / 2)) (and_halves x w).0,
  ap (λ t. bit_or (bit_and (x / 2) (w / 2)) t) (and_halves y w).0,
  (or_halves x y).1,
  (and_halves x w).1,
  (and_halves y w).1,
  and_or_fuel n (x / 2) (y / 2) (w / 2) (omega arith) (omega arith) (omega arith),
)

pub bit_and-bit_or : (x y w : ℕ) → bit_and (bit_or x y) w ≡ bit_or (bit_and x w) (bit_and y w)
bit_and-bit_or x y w = and_or_fuel (x + y + w) x y w (omega arith) (omega arith) (omega arith)

or_bounds_fuel :
    (n x y : ℕ) → x ≤ n → y ≤ n → (x ≤ bit_or x y) × (y ≤ bit_or x y) × (bit_or x y ≤ x + y)
or_bounds_fuel zero zero zero p q = (omega arith, omega arith, omega arith)
or_bounds_fuel zero (suc x) y p q = absurd (omega arith)
or_bounds_fuel zero zero (suc y) p q = absurd (omega arith)
or_bounds_fuel (suc n) x y p q =
    omega (arith, bit_or_step x y, or_bounds_fuel n (x / 2) (y / 2) (omega arith) (omega arith))

pub bit_or_bounds : (x y : ℕ) → (x ≤ bit_or x y) × (y ≤ bit_or x y) × (bit_or x y ≤ x + y)
bit_or_bounds x y = or_bounds_fuel (x + y) x y (omega arith) (omega arith)

pub bit_and-bit_or_right : (x y w : ℕ) → bit_and x (bit_or y w) ≡ bit_or (bit_and x y) (bit_and x w)
bit_and-bit_or_right x y w =
    bit_and_comm x (bit_or y w)
    ∙ bit_and-bit_or y w x
    ∙ ap₂ bit_or (bit_and_comm y x) (bit_and_comm w x)

or_assoc_fuel :
    (n x y w : ℕ) → x ≤ n → y ≤ n → w ≤ n → bit_or (bit_or x y) w ≡ bit_or x (bit_or y w)
or_assoc_fuel zero zero zero zero p q r = refl
or_assoc_fuel zero (suc x) y w p q r = absurd (omega arith)
or_assoc_fuel zero zero (suc y) w p q r = absurd (omega arith)
or_assoc_fuel zero zero zero (suc w) p q r = absurd (omega arith)
or_assoc_fuel (suc n) x y w p q r = omega (
  arith,
  bit_or_step (bit_or x y) w,
  bit_or_step x (bit_or y w),
  ap (λ t. bit_or t (w / 2)) (or_halves x y).0,
  ap (λ t. bit_or (x / 2) t) (or_halves y w).0,
  (or_halves x y).1,
  (or_halves y w).1,
  or_assoc_fuel n (x / 2) (y / 2) (w / 2) (omega arith) (omega arith) (omega arith),
)

pub bit_or_assoc : (x y w : ℕ) → bit_or (bit_or x y) w ≡ bit_or x (bit_or y w)
bit_or_assoc x y w = or_assoc_fuel (x + y + w) x y w (omega arith) (omega arith) (omega arith)

pub zero-bit_or : (x : ℕ) → bit_or 0 x ≡ x
zero-bit_or x = bit_or-bitwise 0 x

and_self_fuel : (n x : ℕ) → x ≤ n → bit_and x x ≡ x
and_self_fuel zero zero p = refl
and_self_fuel zero (suc x) p = absurd (omega arith)
and_self_fuel (suc n) x p = omega (arith, bit_and_step x x, and_self_fuel n (x / 2) (omega arith))

pub bit_and_self : (x : ℕ) → bit_and x x ≡ x
bit_and_self x = and_self_fuel x x (omega arith)

and_le_fuel : (n x y : ℕ) → x ≤ n → bit_and x y ≤ y
and_le_fuel zero x y p =
    omega (arith, ap (λ t. bit_and t y) {x = x} {y = 0} (omega arith), bit_and-bitwise 0 y)
and_le_fuel (suc n) x y p =
    omega (arith, bit_and_step x y, and_le_fuel n (x / 2) (y / 2) (omega arith))

pub bit_and_le : (x y : ℕ) → bit_and x y ≤ y
bit_and_le x y = and_le_fuel x x y (omega arith)
