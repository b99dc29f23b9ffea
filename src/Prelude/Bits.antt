-- ===== src/Prelude/Bits.antt =====
-- Laws of the bit operations at variables, from the recursion on binary digits.
use Prim.Native.Nat.{ℕ, zero, suc, ◌+◌, ◌-◌, ◌*◌, ◌/◌, ◌%◌, ◌^◌, ◌≤◌, ◌<◌, min, max}
use Prim.Native.Nat.{bit_and, bit_or, bit_xor, digits, bitwise, differ}
use Prim.Native.Nat.{bit_and-bitwise, bit_or-bitwise, bit_xor-bitwise}
use mathlib.Core.Path.{◌≡◌, refl, sym, ◌∙◌, ap, ap₂}
use native.Mathlib.Nat.{
  pow-suc, one-le-pow, div-div-eq-div-mul, mod-eq-sub-mul-div, mul-div-le, mul_comm, div-one,
  mod-one, mod-lt, mod-eq_of_lt,
}
use native.Mathlib.Omega.{arith}

-- `digits` reads the digits with a fuel, of which the first number is enough.
module _ (rest : ℕ → ℕ) (digit : ℕ → ℕ → ℕ) where
  digits_one_more :
      (fuel x y : ℕ) → x ≤ fuel → digits rest digit (suc fuel) x y ≡ digits rest digit fuel x y
  digits_one_more zero zero y h = refl
  digits_one_more zero (suc x) y h = absurd (omega arith)
  digits_one_more (suc fuel) zero y h = refl
  digits_one_more (suc fuel) (suc x) y h =
      ap (λ t. t * 2 + digit (suc x % 2) (y % 2))
        (digits_one_more fuel (suc x / 2) (y / 2) (omega arith))

  digits_more :
      (more fuel x y : ℕ)
      → x ≤ fuel
      → digits rest digit (fuel + more) x y ≡ digits rest digit fuel x y
  digits_more zero fuel x y h =
      ap (λ n. digits rest digit n x y) {x = fuel + 0} {y = fuel} (omega arith)
  digits_more (suc more) fuel x y h =
      ap (λ n. digits rest digit n x y) {x = fuel + suc more} {y = suc (fuel + more)} (omega arith)
      ∙ digits_one_more (fuel + more) x y (omega arith)
      ∙ digits_more more fuel x y h

  -- One digit, and the rest of both numbers.
  bitwise_step :
      (x y : ℕ)
      → bitwise rest digit (suc x) y
        ≡ bitwise rest digit (suc x / 2) (y / 2) * 2 + digit (suc x % 2) (y % 2)
  bitwise_step x y =
      ap (λ t. t * 2 + digit (suc x % 2) (y % 2))
        (ap (λ fuel. digits rest digit fuel (suc x / 2) (y / 2)) {x = x}
            {y = suc x / 2 + (x - suc x / 2)} (omega arith)
          ∙ digits_more (x - suc x / 2) (suc x / 2) (suc x / 2) (y / 2) (omega arith))

differ_parity : (a b : ℕ) → a < 2 → b < 2 → differ a b ≡ (a + b) % 2
differ_parity zero b p q = omega arith
differ_parity (suc zero) zero p q = refl
differ_parity (suc zero) (suc zero) p q = refl
differ_parity (suc zero) (suc (suc b)) p q = absurd (omega arith)
differ_parity (suc (suc a)) b p q = absurd (omega arith)

module _ (x y : ℕ) where
  pub bit_or_step : bit_or x y ≡ bit_or (x / 2) (y / 2) * 2 + max (x % 2) (y % 2)
  bit_or_step = by_first x y
    where
      by_first : (x y : ℕ) → bit_or x y ≡ bit_or (x / 2) (y / 2) * 2 + max (x % 2) (y % 2)
      by_first (suc n) y = simp bit_or-bitwise (bitwise_step (λ r. r) max n y)
      by_first zero y = simp bit_or-bitwise (omega arith)

  pub bit_and_step : bit_and x y ≡ bit_and (x / 2) (y / 2) * 2 + min (x % 2) (y % 2)
  bit_and_step = by_first x y
    where
      by_first : (x y : ℕ) → bit_and x y ≡ bit_and (x / 2) (y / 2) * 2 + min (x % 2) (y % 2)
      by_first (suc n) y = simp bit_and-bitwise (bitwise_step (λ r. 0) min n y)
      by_first zero y = simp bit_and-bitwise (omega arith)

pub bit_xor_step : (a b : ℕ) → bit_xor a b ≡ bit_xor (a / 2) (b / 2) * 2 + (a + b) % 2
bit_xor_step zero b = simp bit_xor-bitwise (omega arith)
bit_xor_step (suc a) b = omega (
  arith,
  bit_xor-bitwise (suc a) b,
  bit_xor-bitwise (suc a / 2) (b / 2),
  bitwise_step (λ y. y) differ a b,
  differ_parity (suc a % 2) (b % 2) (omega arith) (omega arith),
)

pub zero-bit_xor : (b : ℕ) → bit_xor 0 b ≡ b
zero-bit_xor b = bit_xor-bitwise 0 b

bit_xor_comm_fuel : (n a b : ℕ) → a ≤ n → b ≤ n → bit_xor a b ≡ bit_xor b a
bit_xor_comm_fuel zero zero zero p q = refl
bit_xor_comm_fuel zero zero (suc b) p q = absurd (omega arith)
bit_xor_comm_fuel zero (suc a) b p q = absurd (omega arith)
bit_xor_comm_fuel (suc n) a b p q = omega (
  arith,
  bit_xor_step a b,
  bit_xor_step b a,
  bit_xor_comm_fuel n (a / 2) (b / 2) (omega arith) (omega arith),
)

pub bit_xor_comm : (a b : ℕ) → bit_xor a b ≡ bit_xor b a
bit_xor_comm a b = bit_xor_comm_fuel (a + b) a b (omega arith) (omega arith)

pub bit_xor-zero : (a : ℕ) → bit_xor a 0 ≡ a
bit_xor-zero a = omega (arith, bit_xor_comm a 0, zero-bit_xor a)

bit_xor_self_fuel : (n a : ℕ) → a ≤ n → bit_xor a a ≡ 0
bit_xor_self_fuel zero zero p = refl
bit_xor_self_fuel zero (suc a) p = absurd (omega arith)
bit_xor_self_fuel (suc n) a p =
    omega (arith, bit_xor_step a a, bit_xor_self_fuel n (a / 2) (omega arith))

pub bit_xor_self : (a : ℕ) → bit_xor a a ≡ 0
bit_xor_self a = bit_xor_self_fuel a a (omega arith)

bit_xor_halves :
    (a b : ℕ) → (bit_xor a b / 2 ≡ bit_xor (a / 2) (b / 2)) × (bit_xor a b % 2 ≡ (a + b) % 2)
bit_xor_halves a b = omega (arith, bit_xor_step a b)

bit_xor_assoc_fuel :
    (n a b c : ℕ) → a ≤ n → b ≤ n → c ≤ n → bit_xor (bit_xor a b) c ≡ bit_xor a (bit_xor b c)
bit_xor_assoc_fuel zero zero zero zero p q r = refl
bit_xor_assoc_fuel zero zero zero (suc c) p q r = absurd (omega arith)
bit_xor_assoc_fuel zero zero (suc b) c p q r = absurd (omega arith)
bit_xor_assoc_fuel zero (suc a) b c p q r = absurd (omega arith)
bit_xor_assoc_fuel (suc n) a b c p q r = omega (
  arith,
  bit_xor_step (bit_xor a b) c,
  bit_xor_step a (bit_xor b c),
  ap (λ t. bit_xor t (c / 2)) (bit_xor_halves a b).0,
  ap (λ t. bit_xor (a / 2) t) (bit_xor_halves b c).0,
  (bit_xor_halves a b).1,
  (bit_xor_halves b c).1,
  bit_xor_assoc_fuel n (a / 2) (b / 2) (c / 2) (omega arith) (omega arith) (omega arith),
)

pub bit_xor_assoc : (a b c : ℕ) → bit_xor (bit_xor a b) c ≡ bit_xor a (bit_xor b c)
bit_xor_assoc a b c = bit_xor_assoc_fuel (a + b + c) a b c (omega arith) (omega arith) (omega arith)

pub pow_pos : (k : ℕ) → 1 ≤ 2 ^ k
pow_pos k = one-le-pow k 2 (omega arith)

-- Halving before a division, in terms of the quotient and of the remainder.
pub div-double : (a p : ℕ) → a / (2 * p) ≡ a / 2 / p
div-double a p = sym (div-div-eq-div-mul a 2 p)

pub mod-double : (a p : ℕ) → a % (2 * p) ≡ 2 * (a / 2 % p) + a % 2
mod-double a p = omega (
  arith,
  mod-eq-sub-mul-div a (2 * p),
  mod-eq-sub-mul-div (a / 2) p,
  mul-div-le (a / 2) p,
  ap (λ (t : ℕ). 2 * p * t) (div-double a p),
)

pub pow_double : (k : ℕ) → 2 ^ suc k ≡ 2 * 2 ^ k
pow_double k = pow-suc 2 k ∙ mul_comm (2 ^ k) 2

-- The high and the low digits of an exclusive or.
pub bit_xor-div : (k a b : ℕ) → bit_xor a b / 2 ^ k ≡ bit_xor (a / 2 ^ k) (b / 2 ^ k)
bit_xor-div zero a b = simp div-one
bit_xor-div (suc k) a b =
    rw (pow_double k, div-double, div-double, div-double, (bit_xor_halves a b).0)
      (bit_xor-div k (a / 2) (b / 2))

pub bit_xor-mod : (k a b : ℕ) → bit_xor a b % 2 ^ k ≡ bit_xor (a % 2 ^ k) (b % 2 ^ k)
bit_xor-mod zero a b = simp mod-one (sym (zero-bit_xor 0))
bit_xor-mod (suc k) a b =
    rw (pow_double k, mod-double, mod-double, mod-double)
      (omega (
        arith,
        bit_xor_halves a b,
        bit_xor-mod k (a / 2) (b / 2),
        ap (λ t. t % 2 ^ k) (bit_xor_halves a b).0,
        bit_xor_step (2 * (a / 2 % 2 ^ k) + a % 2) (2 * (b / 2 % 2 ^ k) + b % 2),
        ap (λ t. bit_xor t ((2 * (b / 2 % 2 ^ k) + b % 2) / 2)) (halve (a / 2 % 2 ^ k) a),
        ap (λ t. bit_xor (a / 2 % 2 ^ k) t) (halve (b / 2 % 2 ^ k) b),
      ))
  where
    halve : (x y : ℕ) → (2 * x + y % 2) / 2 ≡ x
    halve x y = omega arith

pub bit_xor-lt : (k a b : ℕ) → a < 2 ^ k → b < 2 ^ k → bit_xor a b < 2 ^ k
bit_xor-lt k a b p q = omega (
  arith,
  bit_xor-mod k a b,
  ap₂ bit_xor (mod-eq_of_lt p) (mod-eq_of_lt q),
  mod-lt (bit_xor a b) (pow_pos k),
)

mul-two-pow-suc : (a e : ℕ) → a * 2 ^ suc e ≡ 2 * (a * 2 ^ e)
mul-two-pow-suc a e =
    ap (λ z. a * z) {x = 2 ^ suc e} {y = 2 ^ e * 2} (omega (arith, pow-suc 2 e)) ∙ omega arith

bit_or-zero_fuel : (n a : ℕ) → a ≤ n → bit_or a 0 ≡ a
bit_or-zero_fuel zero zero p = refl
bit_or-zero_fuel zero (suc a) p = absurd (omega arith)
bit_or-zero_fuel (suc n) a p =
    omega (arith, bit_or_step a 0, bit_or-zero_fuel n (a / 2) (omega arith))

-- `(q << k) | r` is a sum when `r` fits `k` bits.
pub bit_or_fields : (k q r : ℕ) → r < 2 ^ k → bit_or (q * 2 ^ k) r ≡ q * 2 ^ k + r
bit_or_fields zero q r fits = ground (arith, bit_or-zero_fuel q q (omega arith))
bit_or_fields (suc k) q r fits = ground (
  arith,
  bit_or_step (q * 2 ^ suc k) r,
  mul-two-pow-suc q k,
  bit_or_fields k q (r / 2) (omega arith),
)
