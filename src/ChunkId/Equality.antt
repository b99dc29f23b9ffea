-- ===== src/ChunkId/Equality.antt =====
-- The tests of chunk ids, `ca_chunk_id_equal` and `ca_chunk_id_is_null` of src/cachunkid.h.
use casync.Prelude.{
  ℕ, zero, suc, ◌≡◌, ◌↔◌, refl, ap, List, [], ◌∷◌, arith, take, drop, get_or, length, replicate,
  true, sym, ap₂, ◌∙◌, ◌≤◌,
}
use casync.ChunkId.{same_bytes, equal, u64, little_endian, is_null, first_words_null, id_size}

-- `ca_chunk_id_equal` holds exactly for equal ids.
pub equal_iff : (a b : List ℕ) → (equal a b ≡ true) ↔ (a ≡ b)
unfolding same_bytes
equal_iff a b = (to a b, λ e. ap (equal a) (sym e) ∙ self a)
  where
    to : (xs ys : List ℕ) → same_bytes xs ys ≡ true → xs ≡ ys
    to [] [] h = refl
    to [] (y ∷ ys) h = absurd (ground arith)
    to (x ∷ xs) [] h = absurd (ground arith)
    to (x ∷ xs) (y ∷ ys) h = ap₂ (λ z zs. z ∷ zs) (ground arith) (to xs ys (ground arith))

    self : (xs : List ℕ) → same_bytes xs xs ≡ true
    self [] = refl
    self (x ∷ xs) = ground (arith, self xs)

little_endian-zero :
    (n : ℕ) (bs : List ℕ) → n ≤ length bs → (little_endian n bs ≡ 0) ↔ (take n bs ≡ replicate n 0)
unfolding little_endian
little_endian-zero zero bs h = (λ e. refl, λ e. refl)
little_endian-zero (suc n) [] h = absurd (omega arith)
little_endian-zero (suc n) (b ∷ bs) h = (
  λ e.
      ap₂ (λ z zs. z ∷ zs) {x = b} {y = 0} (omega arith)
        ((little_endian-zero n bs (omega arith)).0 (omega arith)),
  λ e.
      omega (
        arith,
        ap (λ l. get_or l 0 1) e,
        (little_endian-zero n bs (omega arith)).1 (ap (drop 1) e),
      ),
)

first_words_null_iff : (n : ℕ) (id : List ℕ) → (first_words_null (suc n) id ≡ true) ↔ (u64 id 0 ≡ 0)
unfolding first_words_null
first_words_null_iff zero id = ground arith
first_words_null_iff (suc n) id = ground (arith, first_words_null_iff n id)

-- `ca_chunk_id_is_null` holds exactly for ids whose first eight bytes are zero, whatever the others are.
pub is_null_iff :
    (id : List ℕ) → length id ≡ id_size → (is_null id ≡ true) ↔ (take 8 id ≡ replicate 8 0)
unfolding u64
is_null_iff id n = ground (arith, first_words_null_iff 3 id, little_endian-zero 8 id (omega arith))
