-- ===== src/Chunker/Rolling.antt =====
-- The rolling hash of src/cachunker.c depends on the window alone: rolling a byte in and a byte out
-- is hashing the moved window from the start.
use native.Mathlib.Numerals.{add-one}
use casync.Prelude.{
  ℕ, zero, suc, ◌<◌, ◌≡◌, refl, sym, ap, ap₂, ◌∙◌, List, [], ◌∷◌, ◌++◌, arith, bit_xor, rol32,
  length, get_or, length-append, rol32-lt, rol32-zero, rol32-suc, rol32-bit_xor, bit_xor-lt,
  bit_xor_assoc, bit_xor_comm, bit_xor_self, zero-bit_xor, bit_xor-zero, ltb, Bool, true, ◌&&◌,
}
use casync.Chunker.Table.{buzhash_table}
use casync.Chunker.{byte_word, start, roll}

abbrev word : ℕ
word = 4294967296

-- The hash of a window: the word of each byte, turned by its distance from the end.
unfoldable pub hash : List ℕ → ℕ
hash [] = 0
hash (x ∷ w) = bit_xor (rol32 (byte_word x) (length w)) (hash w)

all_words : List ℕ → Bool
all_words [] = true
all_words (t ∷ ts) = ltb t word && all_words ts

get_or-lt : (ts : List ℕ) (i : ℕ) → all_words ts ≡ true → get_or ts i 0 < word
unfolding all_words
get_or-lt [] i h = omega arith
get_or-lt (t ∷ ts) zero h = ground arith
get_or-lt (t ∷ ts) (suc i) h = ground (arith, get_or-lt ts i)

byte_word-lt : (b : ℕ) → byte_word b < word
unfolding byte_word buzhash_table all_words
byte_word-lt b = get_or-lt buzhash_table b refl

pub hash-lt : (w : List ℕ) → hash w < word
unfolding hash
hash-lt [] = omega arith
hash-lt (x ∷ w) = bit_xor-lt 32 _ _ (rol32-lt (byte_word x) (length w) (byte_word-lt x)) (hash-lt w)

-- `ca_chunker_start` on an idle chunker computes the hash of the window.
pub start-hash : (h : ℕ) (w : List ℕ) → start h w ≡ bit_xor h (hash w)
unfolding start hash
start-hash h [] = sym (bit_xor-zero h)
start-hash h (x ∷ []) =
    ap (bit_xor h) (sym (bit_xor-zero _ ∙ rol32-zero (byte_word x) (byte_word-lt x)))
start-hash h (x ∷ y ∷ r) =
    start-hash (bit_xor h (rol32 (byte_word x) (suc (length r)))) (y ∷ r)
    ∙ bit_xor_assoc h (rol32 (byte_word x) (suc (length r))) (hash (y ∷ r))

-- A byte more at the end turns the hash by one place.
hash-append : (w : List ℕ) (y : ℕ) → hash (w ++ y ∷ []) ≡ bit_xor (rol32 (hash w) 1) (byte_word y)
unfolding hash
hash-append [] y =
    bit_xor-zero _
    ∙ rol32-zero (byte_word y) (byte_word-lt y)
    ∙ sym (ap (λ t. bit_xor t (byte_word y)) zero_turned ∙ zero-bit_xor _)
  where
    zero_turned : rol32 0 1 ≡ 0
    zero_turned = unfold rol32 in refl
hash-append (x ∷ w) y =
    ap₂ bit_xor
      (ap (rol32 (byte_word x)) (length-append w (y ∷ []) ∙ add-one (length w))
        ∙ rol32-suc (byte_word x) (length w) (byte_word-lt x))
      (hash-append w y)
    ∙ sym (bit_xor_assoc _ _ _)
    ∙ ap (λ t. bit_xor t (byte_word y))
        (sym (
          rol32-bit_xor 1 (rol32 (byte_word x) (length w)) (hash w)
            (rol32-lt (byte_word x) (length w) (byte_word-lt x)) (hash-lt w)))

-- `ca_chunker_roll` on the hash of a window is the hash of the window without its oldest byte and
-- with the new one, so the hash forgets a byte as soon as it leaves the window.
pub roll-hash :
    (x y : ℕ) (w : List ℕ) → roll (hash (x ∷ w)) (suc (length w)) x y ≡ hash (w ++ y ∷ [])
unfolding roll
roll-hash x y w = ap (λ t. bit_xor t (byte_word y)) forget ∙ sym (hash-append w y)
  where
    gone : ℕ
    gone = rol32 (byte_word x) (suc (length w))

    turned : rol32 (hash (x ∷ w)) 1 ≡ bit_xor gone (rol32 (hash w) 1)
    turned =
        unfold hash in
        rol32-bit_xor 1 (rol32 (byte_word x) (length w)) (hash w)
          (rol32-lt (byte_word x) (length w) (byte_word-lt x)) (hash-lt w)
        ∙ ap (λ t. bit_xor t (rol32 (hash w) 1))
            (sym (rol32-suc (byte_word x) (length w) (byte_word-lt x)))

    forget : bit_xor (rol32 (hash (x ∷ w)) 1) gone ≡ rol32 (hash w) 1
    forget =
        ap (λ t. bit_xor t gone) (turned ∙ bit_xor_comm gone (rol32 (hash w) 1))
        ∙ bit_xor_assoc (rol32 (hash w) 1) gone gone
        ∙ ap (bit_xor (rol32 (hash w) 1)) (bit_xor_self gone)
        ∙ bit_xor-zero _
