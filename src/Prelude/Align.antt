-- ===== src/Prelude/Align.antt =====
-- `ALIGN_TO` of src/util.h: rounding up to a multiple of a power of two.
use Prim.Native.Nat.{ℕ, zero, suc, ◌+◌, ◌-◌, ◌*◌, ◌/◌, ◌%◌, ◌^◌, ◌≤◌, ◌<◌, bit_and}
use mathlib.Core.Path.{◌≡◌, refl, sym, ap, ap₂, ◌∙◌}
use native.Mathlib.Nat.{div-one, mod-one, div-add-mod', zero-add, suc-add, mod-lt, mod-eq_of_lt}
use native.Mathlib.Omega.{arith}
use casync.Prelude.Words.{align_to, wrap64, not64}
use casync.Prelude.Bits.{bit_and_step, div-double, mod-double, pow_double, pow_pos}

bit_and-zero_fuel : (n a : ℕ) → a ≤ n → bit_and a 0 ≡ 0
bit_and-zero_fuel zero zero h = refl
bit_and-zero_fuel zero (suc a) h = absurd (omega arith)
bit_and-zero_fuel (suc n) a h =
    omega (arith, bit_and_step a 0, bit_and-zero_fuel n (a / 2) (omega arith))

-- A mask of the low `w` bits.
pub bit_and_low : (w x : ℕ) → bit_and x (2 ^ w - 1) ≡ x % 2 ^ w
bit_and_low zero x = bit_and-zero_fuel x x (omega arith) ∙ sym (mod-one x)
bit_and_low (suc w) x =
    rw (pow_double w, mod-double)
      (omega (
        arith,
        pow_pos w,
        bit_and_step x (2 * 2 ^ w - 1),
        ap (bit_and (x / 2)) {x = (2 * 2 ^ w - 1) / 2} {y = 2 ^ w - 1} (omega (arith, pow_pos w)),
        bit_and_low w (x / 2),
      ))

pow_mono : (k j : ℕ) → 2 ^ k ≤ 2 ^ (k + j)
pow_mono zero j = rw zero-add (pow_pos j)
pow_mono (suc k) j = rw (suc-add, pow_double (k + j), pow_double k) (omega (arith, pow_mono k j))

-- A mask of the bits from `k` on, in a word of `k + j` bits.
pub bit_and_high : (k j x : ℕ) → bit_and x (2 ^ (k + j) - 2 ^ k) ≡ x % 2 ^ (k + j) / 2 ^ k * 2 ^ k
bit_and_high zero j x =
    rw zero-add (bit_and_low j x ∙ sym (ap (λ t. t * 1) (div-one (x % 2 ^ j)) ∙ omega arith))
bit_and_high (suc k) j x =
    rw (suc-add, pow_double (k + j), pow_double k, mod-double, div-double)
      (omega (
        arith,
        bit_and_step x (2 * 2 ^ (k + j) - 2 * 2 ^ k),
        ap (bit_and (x / 2)) {x = (2 * 2 ^ (k + j) - 2 * 2 ^ k) / 2} {y = 2 ^ (k + j) - 2 ^ k}
            (omega arith),
        ap (λ (t : ℕ). t / 2 ^ k * 2 ^ k) {x = (2 * (x / 2 % 2 ^ (k + j)) + x % 2) / 2}
            {y = x / 2 % 2 ^ (k + j)} (omega arith),
        bit_and_high k j (x / 2),
      ))

-- Rounding up loses nothing and adds less than a unit, where it does not wrap.
pub align_to_bounds :
    (k l : ℕ)
    → k ≤ 63
    → l + 2 ^ k ≤ 18446744073709551616
    → (l ≤ align_to l (2 ^ k))
      × (align_to l (2 ^ k) < l + 2 ^ k)
      × (align_to l (2 ^ k) ≡ (l + 2 ^ k - 1) / 2 ^ k * 2 ^ k)
unfolding align_to
align_to_bounds k l small fits = omega (
  arith,
  ap₂ bit_and summed mask ∙ bit_and_high k (64 - k) (l + 2 ^ k - 1),
  ap (λ (t : ℕ). (l + 2 ^ k - 1) % t / 2 ^ k * 2 ^ k) width,
  ap (λ (t : ℕ). t / 2 ^ k * 2 ^ k)
      (mod-eq_of_lt {n = l + 2 ^ k - 1} {m = 18446744073709551616} (omega (arith, pow_pos k))),
  div-add-mod' (l + 2 ^ k - 1) (2 ^ k),
  mod-lt (l + 2 ^ k - 1) (pow_pos k),
)
  where
    width : 2 ^ (k + (64 - k)) ≡ 18446744073709551616
    width = ap (λ t. 2 ^ t) {x = k + (64 - k)} {y = 64} (omega arith)

    summed : wrap64 (wrap64 (l + 2 ^ k) + 18446744073709551616 - 1) ≡ l + 2 ^ k - 1
    summed = omega (arith, pow_pos k)

    mask : not64 (2 ^ k - 1) ≡ 2 ^ (k + (64 - k)) - 2 ^ k
    mask = omega (arith, width, pow_pos k)
