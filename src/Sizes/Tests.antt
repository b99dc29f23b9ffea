-- ===== src/Sizes/Tests.antt =====
-- Runs of `format_bytes` of src/parse-util.c, and an instance of its theorem.
use Prim.Native.String.{String}
use casync.Prelude.{ℕ, ◌≡◌, refl, Option, some, arith}
use casync.Sizes.{units, in_units, format_bytes}
use casync.Sizes.Digits.{IsExact, format_bytes-IsExact}

kilobytes : format_bytes 1600 ≡ some (1, some 5, "K")
unfolding format_bytes in_units
kilobytes = refl

-- Two times 2 ^ 60: the multiplication by ten wraps around, and the tenths are wrong.
wrapped : format_bytes 2305843009213693952 ≡ some (2, some 4, "E")
unfolding format_bytes in_units
wrapped = refl

format_bytes-IsExact_example :
    (out : ℕ × Option ℕ × String) × (format_bytes 1600 ≡ some out) × IsExact units 1600 out
format_bytes-IsExact_example = format_bytes-IsExact 1600 (omega arith)
