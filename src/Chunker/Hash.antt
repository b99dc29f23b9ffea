-- ===== src/Chunker/Hash.antt =====
-- The rolling hash of src/cachunker.c, `ca_chunker_start` and `ca_chunker_roll`, as functions of the
-- hash word. The window is the list of its bytes, oldest first.
use casync.Prelude.{ℕ, suc, List, [], ◌∷◌, bit_xor, rol32, get_or, length}
use casync.Chunker.Table.{buzhash_table}

-- `buzhash_table[b]` for a byte `b`
unfoldable pub byte_word : ℕ → ℕ
unfolding buzhash_table
byte_word b = get_or buzhash_table b 0

-- The body of `ca_chunker_start`: `n - i` is the number of bytes behind the one that is hashed.
unfoldable pub start : ℕ → List ℕ → ℕ
start h [] = h
start h (x ∷ []) = bit_xor h (byte_word x)
start h (x ∷ y ∷ r) = start (bit_xor h (rol32 (byte_word x) (suc (length r)))) (y ∷ r)

-- `ca_chunker_roll`
unfoldable pub roll : ℕ → ℕ → ℕ → ℕ → ℕ
roll h window_size leave enter =
    bit_xor (bit_xor (rol32 h 1) (rol32 (byte_word leave) window_size)) (byte_word enter)
