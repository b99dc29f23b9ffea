-- ===== src/Format.antt =====
-- The integers of the structures of src/caformat.h: a le64_t is eight bytes, the lowest first.
pub mod Words
use casync.Prelude.{ℕ, zero, suc, ◌/◌, ◌%◌, List, [], ◌∷◌, ◌++◌}

-- The bytes of a number, so many of them, as htole64() lays it out.
unfoldable pub le_bytes : ℕ → ℕ → List ℕ
le_bytes zero x = []
le_bytes (suc n) x = x % 256 ∷ le_bytes n (x / 256)

-- A sequence of le64_t
unfoldable pub words : List ℕ → List ℕ
words [] = []
words (x ∷ xs) = le_bytes 8 x ++ words xs
