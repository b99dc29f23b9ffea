-- ===== src/Sizes.antt =====
-- `format_bytes` of src/parse-util.c: a number of bytes in the largest unit that fits it. The result is
-- what snprintf() is given to print: the whole units, the tenths if there are any to print, and the suffix.
pub mod Digits
mod Tests
use Prim.Native.String.{String}
use casync.Prelude.{
  ℕ, ◌*◌, ◌/◌, ◌%◌, Option, none, some, List, [], ◌∷◌, if◌then◌else◌, leb, ◌==◌, max64, wrap64,
}

abbrev pub units : List (String × ℕ)
units =
    ("E", 1152921504606846976)
    ∷ ("P", 1125899906842624)
    ∷ ("T", 1099511627776)
    ∷ ("G", 1073741824)
    ∷ ("M", 1048576)
    ∷ ("K", 1024)
    ∷ []

-- The loop of `format_bytes`
unfoldable pub in_units : List (String × ℕ) → ℕ → ℕ × Option ℕ × String
in_units [] t = (t, none, "B")
in_units ((suffix, factor) ∷ rest) t =
    if leb factor t
    then (t / factor, some (wrap64 (t * 10) / factor % 10), suffix)
    else in_units rest t

-- `format_bytes`; `none` is NULL.
unfoldable pub format_bytes : ℕ → Option (ℕ × Option ℕ × String)
format_bytes t = if t == max64 then none else some (in_units units t)
