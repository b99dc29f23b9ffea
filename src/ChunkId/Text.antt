-- ===== src/ChunkId/Text.antt =====
-- The text form of chunk ids, `ca_chunk_id_format` and `ca_chunk_id_parse` of src/cachunkid.c.
use mathlib.Core.Option.{some-injective}
use casync.Prelude.{
  ℕ, zero, suc, ◌*◌, ◌/◌, ◌%◌, ◌<◌, ◌≡◌, refl, sym, ap, ap₂, ◌∙◌, some, List, [], ◌∷◌, ◌++◌, arith,
  bit_and, bit_or, bit_and_low, bit_or_fields, length, Option-cases, inl, inr, ℕ_discrete,
}
use casync.ChunkId.{
  encode_char, decode_char, decode_byte, prepend, parse_bytes, parse, format, id_size,
}

-- Every element is a byte.
unfoldable pub IsBytes : List ℕ → Type 0
IsBytes [] = Unit
IsBytes (b ∷ bs) = b < 256 × IsBytes bs

decode-encode : (x : ℕ) → decode_char (encode_char x) ≡ some (x % 16)
unfolding decode_char encode_char
decode-encode x = ground (arith, bit_and_low 4 x)

-- A digit that is read is the digit of its value.
encode-decode : (c x : ℕ) → decode_char c ≡ some x → (encode_char x ≡ c) × (x < 16)
unfolding decode_char encode_char
encode-decode c x e = ground (arith, bit_and_low 4 x)

decode_byte_lem :
    (c d : ℕ) {x y : ℕ}
    → decode_char c ≡ some x
    → decode_char d ≡ some y
    → decode_byte c d ≡ some (bit_or (x * 16) y)
unfolding decode_byte
decode_byte_lem c d e e' = ground (arith, e, e')

decode_byte_inv :
    (c d : ℕ) {b : ℕ}
    → decode_byte c d ≡ some b
    → (x y : ℕ) × (decode_char c ≡ some x) × (decode_char d ≡ some y) × (bit_or (x * 16) y ≡ b)
unfolding decode_byte
decode_byte_inv c d {b} h = elim (Option-cases (decode_char c)) [
  | inl e ↦ absurd (ground (arith, e))
  | inr (x, e) ↦ elim (Option-cases (decode_char d)) [
    | inl e' ↦ absurd (ground (arith, e, e'))
    | inr (y, e') ↦ (x, y, e, e', some-injective (bit_or (x * 16) y) b (ground (arith, e, e')))
  ]
]

byte_round :
    (b : ℕ) → b < 256 → decode_byte (encode_char (b / 16)) (encode_char (bit_and b 15)) ≡ some b
byte_round b h =
    decode_byte_lem (encode_char (b / 16)) (encode_char (bit_and b 15)) (decode-encode (b / 16))
      (decode-encode (bit_and b 15))
    ∙ ap some (
        omega
          (arith, bit_and_low 4 b, bit_or_fields 4 (b / 16 % 16) (bit_and b 15 % 16) (omega arith)))

-- Two digits that are read as a byte are the byte's digits.
text_round :
    (c d : ℕ) {b : ℕ}
    → decode_byte c d ≡ some b
    → (encode_char (b / 16) ≡ c) × (encode_char (bit_and b 15) ≡ d)
text_round c d {b} h =
    let (x, y, e, e', same) = decode_byte_inv c d h in
    let left = encode-decode c x e in
    let right = encode-decode d y e' in
    let whole = bit_or_fields 4 x y (omega (arith, right.1)) in
    (
      ap encode_char {x = b / 16} {y = x} (omega (arith, same, whole, right.1)) ∙ left.0,
      ap encode_char {x = bit_and b 15} {y = y}
            (omega (arith, same, whole, right.1, bit_and_low 4 b))
          ∙ right.0,
    )

round_trip : (id : List ℕ) → IsBytes id → parse_bytes (length id) (format id) ≡ some id
unfolding parse_bytes format IsBytes
round_trip [] h = refl
round_trip (b ∷ id) h = ap₂ prepend (byte_round b h.0) (round_trip id h.1)

-- The text of an id is parsed as this id.
pub parse-format : (id : List ℕ) → IsBytes id → length id ≡ id_size → parse (format id) ≡ some id
parse-format id h n = ap (λ k. parse_bytes k (format id)) (sym n) ∙ round_trip id h

prefix_round :
    (n : ℕ) (v : List ℕ) {id : List ℕ}
    → parse_bytes n v ≡ some id
    → (rest : List ℕ) × (v ≡ format id ++ rest)
unfolding parse_bytes format
prefix_round zero [] h = absurd (ground arith)
prefix_round zero (c ∷ v) {id} h = elim (ℕ_discrete c 0) [
  | yes nul ↦ (
    v,
    ap₂ (λ x xs. x ∷ xs) nul refl ∙ ap (λ z. format z ++ v) (some-injective [] id (ground arith)),
  )
  | no other ↦ absurd (ground arith)
]
prefix_round (suc n) [] h = absurd (ground arith)
prefix_round (suc n) (c ∷ []) h = absurd (ground arith)
prefix_round (suc n) (c ∷ d ∷ v) {id} h = elim (Option-cases (decode_byte c d)) [
  | inl e ↦ absurd (ground (arith, e))
  | inr (b, e) ↦ elim (Option-cases (parse_bytes n v)) [
    | inl e' ↦ absurd (ground (arith, e, e'))
    | inr (bs, e') ↦
        let (rest, same) = prefix_round n v e' in
        (
          rest,
          ap₂ (λ x xs. x ∷ xs) (sym (text_round c d e).0)
                (ap₂ (λ x xs. x ∷ xs) (sym (text_round c d e).1) same)
              ∙ ap (λ z. format z ++ rest)
                  (some-injective (b ∷ bs) id (sym (ap₂ prepend e e') ∙ h)),
        )
  ]
]

-- A text that is parsed as an id begins with the text that the id is printed as, the NUL included: no
-- other digits are accepted.
pub format-parse :
    (v : List ℕ) {id : List ℕ} → parse v ≡ some id → (rest : List ℕ) × (v ≡ format id ++ rest)
format-parse v h = prefix_round id_size v h
