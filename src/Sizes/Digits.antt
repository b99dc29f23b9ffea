-- ===== src/Sizes/Digits.antt =====
-- The digits that `format_bytes` of src/parse-util.c prints.
use Prim.Native.String.{String}
use native.Mathlib.Nat.{div-div-eq-div-mul, mul-div-mul_right}
use casync.Prelude.{
  ℕ, ◌+◌, ◌*◌, ◌/◌, ◌%◌, ◌≤◌, ◌<◌, ◌≡◌, ◌⊎◌, inl, inr, refl, sym, ap, ◌∙◌, Option, none, some, List,
  [], ◌∷◌, arith, dec_le, wrap64, subst,
}
use casync.Sizes.{units, in_units, format_bytes}

-- What is printed is the number in a unit of the table, cut to tenths, or the number itself.
pub IsExact : List (String × ℕ) → ℕ → ℕ × Option ℕ × String → Type 0
IsExact [] t (whole, tenths, suffix) = (whole ≡ t) × (tenths ≡ none)
IsExact ((unit, factor) ∷ rest) t (whole, tenths, suffix) =
    ((digit : ℕ) × (tenths ≡ some digit)
      × (digit < 10)
      × (whole * 10 + digit ≡ t * 10 / factor)
      × (suffix ≡ unit))
    ⊎ (t < factor × IsExact rest t (whole, tenths, suffix))

tenths_exact : (t f : ℕ) → t * 10 / f / 10 ≡ t / f
tenths_exact t f = div-div-eq-div-mul (t * 10) f 10 ∙ mul-div-mul_right t f (omega arith)

chosen :
    (unit : String) (factor : ℕ) (rest : List (String × ℕ)) (t : ℕ)
    → factor ≤ t
    → in_units ((unit, factor) ∷ rest) t ≡ (t / factor, some (wrap64 (t * 10) / factor % 10), unit)
unfolding in_units
chosen unit factor rest t h = ground arith

passed_over :
    (unit : String) (factor : ℕ) (rest : List (String × ℕ)) (t : ℕ)
    → t < factor
    → in_units ((unit, factor) ∷ rest) t ≡ in_units rest t
unfolding in_units
passed_over unit factor rest t h = ground arith

in_units-IsExact :
    (table : List (String × ℕ)) (t : ℕ)
    → t * 10 < 18446744073709551616
    → IsExact table t (in_units table t)
unfolding IsExact
in_units-IsExact [] t h = unfold in_units in (refl, refl)
in_units-IsExact ((unit, factor) ∷ rest) t h = elim (dec_le factor t) [
  | yes fits ↦ subst (IsExact ((unit, factor) ∷ rest) t) (sym (chosen unit factor rest t fits)) (
      inl (
        t * 10 / factor % 10,
        ap (λ z. some (z / factor % 10)) {x = wrap64 (t * 10)} {y = t * 10} (omega arith),
        omega arith,
        omega (arith, tenths_exact t factor),
        refl,
      ))
  | no more ↦
      subst (IsExact ((unit, factor) ∷ rest) t) (sym (passed_over unit factor rest t (omega arith)))
        (inr (omega arith, in_units-IsExact rest t h))
]

-- Below 2 ^ 64 / 10, `format_bytes` prints the number in the largest unit of its table that is not larger,
-- cut to tenths, or in bytes where it is less than every unit.
pub format_bytes-IsExact :
    (t : ℕ)
    → t * 10 < 18446744073709551616
    → (out : ℕ × Option ℕ × String) × (format_bytes t ≡ some out) × IsExact units t out
unfolding format_bytes
format_bytes-IsExact t h = (in_units units t, ground arith, in_units-IsExact units t h)
