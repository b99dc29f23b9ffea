-- ===== src/Format/Words.antt =====
-- Reading the integers of src/caformat.h back.
use native.Mathlib.Nat.{pow-suc, pow-zero}
use mathlib.Core.Option.{some-injective}
use casync.Prelude.{
  ℕ, zero, suc, ◌+◌, ◌*◌, ◌/◌, ◌^◌, ◌<◌, ◌≡◌, refl, sym, ap, ◌∙◌, List, [], ◌∷◌, ◌++◌, arith, some,
  get_elem?, drop, length, length-append, append_assoc, drop-drop,
}
use casync.ChunkId.{little_endian, u64}
use casync.Format.{le_bytes, words}

pub length-le_bytes : (n x : ℕ) → length (le_bytes n x) ≡ n
unfolding le_bytes
length-le_bytes zero x = refl
length-le_bytes (suc n) x = ap suc (length-le_bytes n (x / 256))

little_endian-le_bytes :
    (n x : ℕ) (rest : List ℕ) → x < 256 ^ n → little_endian n (le_bytes n x ++ rest) ≡ x
unfolding little_endian le_bytes
little_endian-le_bytes zero x rest h = omega (arith, pow-zero 256)
little_endian-le_bytes (suc n) x rest h =
    omega
      (arith, pow-suc 256 n, little_endian-le_bytes n (x / 256) rest (omega (arith, pow-suc 256 n)))

pub drop_past : {A : Type 0} (xs ys : List A) (n : ℕ) → n ≡ length xs → drop n (xs ++ ys) ≡ ys
drop_past [] ys n e = ap (λ k. drop k ys) e
drop_past (x ∷ xs) ys zero e = absurd (omega arith)
drop_past (x ∷ xs) ys (suc n) e = drop_past xs ys n (omega arith)

pub length-words : (xs : List ℕ) → length (words xs) ≡ 8 * length xs
unfolding words
length-words [] = refl
length-words (x ∷ xs) =
    omega (arith, length-append (le_bytes 8 x) (words xs), length-le_bytes 8 x, length-words xs)

-- Each of a sequence of words is where it is looked for, whatever follows.
pub u64-words :
    (xs : List ℕ) (rest : List ℕ) (i : ℕ) {x : ℕ}
    → get_elem? xs i ≡ some x
    → x < 18446744073709551616
    → u64 (words xs ++ rest) i ≡ x
unfolding words u64
u64-words [] rest i e h = absurd (ground arith)
u64-words (x ∷ xs) rest zero {x = y} e h =
    ap (little_endian 8) (append_assoc (le_bytes 8 x) (words xs) rest)
    ∙ little_endian-le_bytes 8 x (words xs ++ rest) (omega (arith, some-injective x y e))
    ∙ some-injective x y e
u64-words (x ∷ xs) rest (suc i) e h =
    ap (little_endian 8) (
      ap (λ k. drop k ((le_bytes 8 x ++ words xs) ++ rest)) {x = 8 * suc i} {y = 8 + 8 * i}
        (omega arith)
      ∙ sym (drop-drop (8 * i) 8 ((le_bytes 8 x ++ words xs) ++ rest))
      ∙ ap (drop (8 * i)) (
          ap (drop 8) (append_assoc (le_bytes 8 x) (words xs) rest)
          ∙ drop_past (le_bytes 8 x) (words xs ++ rest) 8 (sym (length-le_bytes 8 x))))
    ∙ u64-words xs rest i e h
