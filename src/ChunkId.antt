-- ===== src/ChunkId.antt =====
-- src/cachunkid.c and src/cachunkid.h: chunk ids, their text form and their tests. An id is the list of
-- its 32 bytes, a text the list of its characters with the NUL at its end. The digest of libgcrypt is a
-- parameter.
pub mod Text
pub mod Equality
mod Tests
use casync.Prelude.{
  ℕ, zero, suc, ◌+◌, ◌-◌, ◌*◌, ◌/◌, ◌≤◌, Bool, true, false, ◌&&◌, not, Option, none, some, List, [],
  ◌∷◌, ◌++◌, if◌then◌else◌, ltb, leb, ◌==◌, bit_and, bit_or, take, drop, Result, ok, err, guard,
  ◌>>◌, einval, eio, ◌>>=◌, length,
}
use casync.Chunker.{size_limit_min, size_limit_max}

-- CA_CHUNK_ID_SIZE
abbrev pub id_size : ℕ
id_size = 32

-- `encode_char`
unfoldable pub encode_char : ℕ → ℕ
encode_char x = let y = bit_and x 15 in (if ltb y 10 then 48 else 87) + y

-- `decode_char`; `none` is -EINVAL.
unfoldable pub decode_char : ℕ → Option ℕ
decode_char x =
    if leb 48 x && leb x 57
    then some (x - 48)
    else if leb 97 x && leb x 102
    then some (x - 97 + 10)
    else none

-- The body of the loop of `ca_chunk_id_parse`
unfoldable pub decode_byte : ℕ → ℕ → Option ℕ
decode_byte c d = elim (decode_char c) [
  | none ↦ none
  | some x ↦ elim (decode_char d) [ none ↦ none | some y ↦ some (bit_or (x * 16) y) ]
]

abbrev pub prepend : Option ℕ → Option (List ℕ) → Option (List ℕ)
prepend none bs = none
prepend (some b) none = none
prepend (some b) (some bs) = some (b ∷ bs)

-- `ca_chunk_id_parse`, with `n` bytes left to read. The characters behind the NUL are not there.
unfoldable pub parse_bytes : ℕ → List ℕ → Option (List ℕ)
parse_bytes zero [] = none
parse_bytes zero (c ∷ v) = if c == 0 then some [] else none
parse_bytes (suc n) [] = none
parse_bytes (suc n) (c ∷ []) = none
parse_bytes (suc n) (c ∷ d ∷ v) = prepend (decode_byte c d) (parse_bytes n v)

abbrev pub parse : List ℕ → Option (List ℕ)
parse v = parse_bytes id_size v

-- `ca_chunk_id_format`
unfoldable pub format : List ℕ → List ℕ
format [] = 0 ∷ []
format (b ∷ id) = encode_char (b / 16) ∷ encode_char (bit_and b 15) ∷ format id

-- memcmp() == 0
unfoldable pub same_bytes : List ℕ → List ℕ → Bool
same_bytes [] [] = true
same_bytes [] (y ∷ ys) = false
same_bytes (x ∷ xs) [] = false
same_bytes (x ∷ xs) (y ∷ ys) = x == y && same_bytes xs ys

-- `ca_chunk_id_equal`
abbrev pub equal : List ℕ → List ℕ → Bool
equal a b = same_bytes a b

-- A uint64_t that bytes make up on a little-endian machine, the first of them first.
unfoldable pub little_endian : ℕ → List ℕ → ℕ
little_endian zero bs = 0
little_endian (suc n) [] = 0
little_endian (suc n) (b ∷ bs) = b + 256 * little_endian n bs

-- `u64[i]`
unfoldable pub u64 : List ℕ → ℕ → ℕ
u64 id i = little_endian 8 (drop (8 * i) id)

-- The loop of `ca_chunk_id_is_null`, with so many rounds left. Each tests the first u64.
unfoldable pub first_words_null : ℕ → List ℕ → Bool
first_words_null zero id = true
first_words_null (suc n) id =
    let rest = first_words_null n id in if not (u64 id 0 == 0) then false else rest

-- `ca_chunk_id_is_null`
abbrev pub is_null : List ℕ → Bool
is_null id = first_words_null 4 id

-- `ca_chunk_id_make`, given the digest, which may fail.
unfoldable pub make : (List ℕ → Option (List ℕ)) → List ℕ → Result (List ℕ)
make sha256 p =
    if ltb (length p) size_limit_min
    then err einval
    else if ltb size_limit_max (length p)
    then err einval
    else elim (sha256 p) [ none ↦ err eio | some q ↦ ok (take id_size q) ]
