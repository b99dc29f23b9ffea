-- ===== src/ChunkId/Tests.antt =====
-- Runs of the chunk ids of src/cachunkid.c, and instances of their theorems.
use casync.Prelude.{
  ℕ, zero, suc, List, [], ◌∷◌, ◌++◌, ◌≡◌, ◌↔◌, refl, replicate, take, true, some, arith,
}
use casync.ChunkId.{
  parse, parse_bytes, format, decode_char, decode_byte, equal, is_null, first_words_null, u64,
  little_endian,
}
use casync.ChunkId.Text.{IsBytes, parse-format, format-parse}
use casync.ChunkId.Equality.{equal_iff, is_null_iff}

-- The bytes 0xab, 0x0c and thirty times 0xff.
abbrev some_id : List ℕ
some_id = 171 ∷ 12 ∷ replicate 30 255

-- Eight zero bytes, and then others.
abbrev half_null : List ℕ
half_null = replicate 8 0 ++ replicate 24 1

abbrev some_text : List ℕ
some_text = 97 ∷ 98 ∷ 48 ∷ 99 ∷ (replicate 60 102 ++ (0 ∷ 55 ∷ []))

parse-text : parse some_text ≡ some some_id
unfolding parse_bytes decode_byte decode_char
parse-text = refl

replicate-IsBytes : (n : ℕ) → IsBytes (replicate n 255)
unfolding IsBytes
replicate-IsBytes zero = tt
replicate-IsBytes (suc n) = (omega arith, replicate-IsBytes n)

some_id-IsBytes : IsBytes some_id
unfolding IsBytes
some_id-IsBytes = (omega arith, (omega arith, replicate-IsBytes 30))

half_null_taken : is_null half_null ≡ true
unfolding first_words_null u64 little_endian
half_null_taken = refl

parse-format_example : parse (format some_id) ≡ some some_id
parse-format_example = parse-format some_id some_id-IsBytes refl

format-parse_example : (rest : List ℕ) × (some_text ≡ format some_id ++ rest)
format-parse_example = format-parse some_text parse-text

equal_iff_example : (equal some_id half_null ≡ true) ↔ (some_id ≡ half_null)
equal_iff_example = equal_iff some_id half_null

is_null_iff_example : (is_null half_null ≡ true) ↔ (take 8 half_null ≡ replicate 8 0)
is_null_iff_example = is_null_iff half_null refl
