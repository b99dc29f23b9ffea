-- ===== src/Prelude/Rotate.antt =====
-- Rotation of 32-bit words: `rol32` of src/util.h as arithmetic, and its laws.
use Prim.Native.Nat.{ℕ, zero, suc, ◌+◌, ◌-◌, ◌*◌, ◌/◌, ◌%◌, ◌^◌, ◌<◌, bit_or, bit_xor}
use mathlib.Core.Path.{◌≡◌, sym, ◌∙◌, ap, ap₂, subst}
use native.Mathlib.Nat.{mul-div-mul_right, mul-add-div_right, mul-add-mod_self_right}
use native.Mathlib.Nat.{
  div-eq_of_lt, mod-eq_of_lt, mod-lt, div-add-mod, mul_comm, zero-add, suc-add, div-lt_iff_lt-mul,
}
use native.Mathlib.Decide.{dec_lt}
use native.Mathlib.Omega.{arith}
use casync.Prelude.Words.{wrap32, rol32}
use casync.Prelude.Bits.{
  bit_or_fields, bit_xor-div, bit_xor-mod, bit_xor_step, bit_xor-zero, bit_xor-lt, pow_double,
  pow_pos,
}

abbrev word : ℕ
word = 4294967296

pow_add : (k j : ℕ) → 2 ^ (k + j) ≡ 2 ^ k * 2 ^ j
pow_add zero j = rw zero-add (omega arith)
pow_add (suc k) j = rw (suc-add, pow_double, pow_double, pow_add k j) (omega arith)

div_unique : (n q r : ℕ) → r < n → ((q * n + r) / n ≡ q) × ((q * n + r) % n ≡ r)
div_unique n q r h = (
  omega (arith, mul-add-div_right {m = n} (omega arith) q r, div-eq_of_lt h),
  mul-add-mod_self_right q n r ∙ mod-eq_of_lt h,
)

mul-mod-mul : (x p q : ℕ) → 0 < p → (x * p) % (q * p) ≡ x % q * p
mul-mod-mul x p q h = omega (
  arith,
  div-add-mod (x * p) (q * p),
  ap (λ (t : ℕ). t * p) (div-add-mod x q),
  ap (λ (t : ℕ). q * p * t) (mul-div-mul_right x q h),
)

-- The word `x` turned left by `k`, with `k + j` the width.
abbrev rotate : ℕ → ℕ → ℕ → ℕ
rotate k j x = x % 2 ^ j * 2 ^ k + x / 2 ^ j

module _ (k j : ℕ) (width : k + j ≡ 32) (x : ℕ) (fits : x < word) where
  width_product : 2 ^ k * 2 ^ j ≡ word
  width_product = sym (pow_add k j) ∙ ap (λ t. 2 ^ t) width

  high_part : x / 2 ^ j < 2 ^ k
  high_part = (div-lt_iff_lt-mul (pow_pos j)).1 (omega (arith, width_product))

  rotate-lt : rotate k j x < word
  rotate-lt = grind (arith, width_product, high_part, mod-lt x (pow_pos j))

  or_form : bit_or (wrap32 (x * 2 ^ k)) (x / 2 ^ j) ≡ rotate k j x
  or_form = ap (λ t. bit_or t (x / 2 ^ j)) low ∙ bit_or_fields k (x % 2 ^ j) (x / 2 ^ j) high_part
    where
      low : wrap32 (x * 2 ^ k) ≡ x % 2 ^ j * 2 ^ k
      low =
          ap (λ t. (x * 2 ^ k) % t) (sym width_product ∙ mul_comm (2 ^ k) (2 ^ j))
          ∙ mul-mod-mul x (2 ^ k) (2 ^ j) (pow_pos k)

field_small : (t q p m : ℕ) → t < m → q < p → p * (2 * m) ≡ word → t * p + q < 2147483648
field_small t q p m ht hq area = grind arith

-- The arithmetic of one more turn: `x` is `q` above `s` above `t`.
turn :
    (x p m q s t : ℕ)
    → p * (2 * m) ≡ word
    → q < p
    → t < m
    → x ≡ 2 * m * q + (m * s + t)
    → (x / m ≡ 2 * q + s)
      × (x % m ≡ t)
      × (((m * s + t) * p + q) / 2147483648 ≡ s)
      × (((m * s + t) * p + q) % 2147483648 ≡ t * p + q)
turn x p m q s t area hq ht e =
    let split = div_unique m (2 * q + s) t ht in
    let halves = div_unique 2147483648 s (t * p + q) (field_small t q p m ht hq area) in
    let form : x ≡ (2 * q + s) * m + t = omega arith in
    let turned : (m * s + t) * p + q ≡ s * 2147483648 + (t * p + q) =
      omega (arith, ap (λ (u : ℕ). u * s) area) in
    (
      ap (λ u. u / m) form ∙ split.0,
      ap (λ u. u % m) form ∙ split.1,
      ap (λ u. u / 2147483648) turned ∙ halves.0,
      ap (λ u. u % 2147483648) turned ∙ halves.1,
    )

-- One more turn to the left.
rotate-suc :
    (k j : ℕ)
    → k + suc j ≡ 32
    → (x : ℕ) → x < word
    → rotate (suc k) j x ≡ rotate 1 31 (rotate k (suc j) x)
rotate-suc k j width x fits = rw (pow_double j) (
    omega (
      arith,
      pow_double k,
      pieces,
      ap (λ (u : ℕ). u * 2 ^ suc k) pieces.1,
      ap (λ (u : ℕ). t * u) (pow_double k),
      ap (λ (u : ℕ). (u * 2 ^ k + q) / 2147483648) low,
      ap (λ (u : ℕ). (u * 2 ^ k + q) % 2147483648) low,
    ))
  where
    q : ℕ
    q = x / (2 * 2 ^ j)

    r : ℕ
    r = x % (2 * 2 ^ j)

    s : ℕ
    s = r / 2 ^ j

    t : ℕ
    t = r % 2 ^ j

    low : r ≡ 2 ^ j * s + t
    low = sym (div-add-mod r (2 ^ j))

    pieces :
        (x / 2 ^ j ≡ 2 * q + s)
        × (x % 2 ^ j ≡ t)
        × (((2 ^ j * s + t) * 2 ^ k + q) / 2147483648 ≡ s)
        × (((2 ^ j * s + t) * 2 ^ k + q) % 2147483648 ≡ t * 2 ^ k + q)
    pieces =
        turn x (2 ^ k) (2 ^ j) q s t
          (ap (λ u. 2 ^ k * u) (sym (pow_double j)) ∙ width_product k (suc j) width x fits)
          (subst (λ u. x / u < 2 ^ k) (pow_double j) (high_part k (suc j) width x fits))
          (mod-lt r (pow_pos j)) (sym (div-add-mod x (2 * 2 ^ j)) ∙ ap (λ u. 2 * 2 ^ j * q + u) low)

-- `rol32` of a word, by the position `i % 32`.
rol32-rotate : (x i : ℕ) → x < word → rol32 x i ≡ rotate (i % 32) (32 - i % 32) x
unfolding rol32
rol32-rotate x i fits = or_form (i % 32) (32 - i % 32) (omega arith) x fits

pub rol32-lt : (x i : ℕ) → x < word → rol32 x i < word
rol32-lt x i fits =
    rw (rol32-rotate x i fits) (rotate-lt (i % 32) (32 - i % 32) (omega arith) x fits)

pub rol32-zero : (x : ℕ) → x < word → rol32 x 0 ≡ x
rol32-zero x fits = omega (arith, rol32-rotate x 0 fits)

-- Turning by one place more is turning once more, also where the count goes round at 32.
pub rol32-suc : (x i : ℕ) → x < word → rol32 x (suc i) ≡ rol32 (rol32 x i) 1
rol32-suc x i fits =
    rol32-rotate x (suc i) fits
    ∙ elim (dec_lt (i % 32) 31) [ yes h ↦ inside h | no h ↦ around h ]
    ∙ ap (rotate 1 31) (sym (rol32-rotate x i fits))
    ∙ sym (rol32-rotate (rol32 x i) 1 (rol32-lt x i fits))
  where
    next : ℕ
    next = suc i % 32

    inside : i % 32 < 31 → rotate next (32 - next) x ≡ rotate 1 31 (rotate (i % 32) (32 - i % 32) x)
    inside h =
        ap₂ (λ k j. rotate k j x) {x = next} {y = suc (i % 32)} {u = 32 - next} {v = 31 - i % 32}
          (omega arith) (omega arith)
        ∙ rotate-suc (i % 32) (31 - i % 32) (omega arith) x fits
        ∙ ap (λ j. rotate 1 31 (rotate (i % 32) j x)) {x = suc (31 - i % 32)} {y = 32 - i % 32}
            (omega arith)

    wrapped : rotate 0 32 x ≡ rotate 1 31 (rotate 31 1 x)
    wrapped = omega arith

    around :
        ¬ (i % 32 < 31) → rotate next (32 - next) x ≡ rotate 1 31 (rotate (i % 32) (32 - i % 32) x)
    around h =
        ap₂ (λ k j. rotate k j x) {x = next} {y = 0} {u = 32 - next} {v = 32} (omega arith)
          (omega arith)
        ∙ wrapped
        ∙ ap₂ (λ k j. rotate 1 31 (rotate k j x)) {x = 31} {y = i % 32} {u = 1} {v = 32 - i % 32}
            (omega arith) (omega arith)

-- Turning is linear over exclusive or.
rol32_one-bit_xor :
    (a b : ℕ) → a < word → b < word → rol32 (bit_xor a b) 1 ≡ bit_xor (rol32 a 1) (rol32 b 1)
rol32_one-bit_xor a b ha hb =
    rol32-rotate (bit_xor a b) 1 (bit_xor-lt 32 a b ha hb)
    ∙ linear
    ∙ ap₂ bit_xor (sym (rol32-rotate a 1 ha)) (sym (rol32-rotate b 1 hb))
  where
    halves :
        (x : ℕ)
        → x < word
        → (rotate 1 31 x / 2 ≡ x % 2147483648) × (rotate 1 31 x % 2 ≡ x / 2147483648)
    halves x h = omega arith

    digit : (x y : ℕ) → x < 2 → y < 2 → bit_xor x y ≡ (x + y) % 2
    digit x y p q = omega (
      arith,
      bit_xor_step x y,
      ap₂ bit_xor {x = x / 2} {y = 0} {u = y / 2} {v = 0} (omega arith) (omega arith),
      bit_xor-zero 0,
    )

    linear : rotate 1 31 (bit_xor a b) ≡ bit_xor (rotate 1 31 a) (rotate 1 31 b)
    linear = omega (
      arith,
      bit_xor_step (rotate 1 31 a) (rotate 1 31 b),
      ap₂ bit_xor (halves a ha).0 (halves b hb).0,
      (halves a ha).1,
      (halves b hb).1,
      bit_xor-mod 31 a b,
      bit_xor-div 31 a b,
      digit (a / 2147483648) (b / 2147483648) (omega arith) (omega arith),
    )

pub rol32-bit_xor :
    (i a b : ℕ) → a < word → b < word → rol32 (bit_xor a b) i ≡ bit_xor (rol32 a i) (rol32 b i)
rol32-bit_xor zero a b ha hb =
    rol32-zero (bit_xor a b) (bit_xor-lt 32 a b ha hb)
    ∙ ap₂ bit_xor (sym (rol32-zero a ha)) (sym (rol32-zero b hb))
rol32-bit_xor (suc i) a b ha hb =
    rol32-suc (bit_xor a b) i (bit_xor-lt 32 a b ha hb)
    ∙ ap (λ t. rol32 t 1) (rol32-bit_xor i a b ha hb)
    ∙ rol32_one-bit_xor (rol32 a i) (rol32 b i) (rol32-lt a i ha) (rol32-lt b i hb)
    ∙ ap₂ bit_xor (sym (rol32-suc a i ha)) (sym (rol32-suc b i hb))
