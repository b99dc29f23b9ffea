-- ===== src/Prelude/Ring.antt =====
-- A list as a ring buffer: reading it round from an index, and writing the oldest place.
use Prim.Native.Nat.{ℕ, zero, suc, ◌≤◌, ◌<◌}
use mathlib.Core.Path.{◌≡◌, refl, sym, ap, ap₂, ◌∙◌}
use mathlib.Core.List.{List, [], ◌∷◌, ◌++◌, append-nil, append_assoc}
use native.Mathlib.Omega.{arith}
use casync.Prelude.Lists.{length, get_or, set, take, drop, length-set}

module _ {ℓ} {A : Type ℓ} where
  -- The elements in the order that starts at `i`.
  abbrev pub ring : ℕ → List A → List A
  ring i w = drop i w ++ take i w

  pub take-append : (xs ys : List A) (n : ℕ) → n ≡ length xs → take n (xs ++ ys) ≡ xs
  take-append [] ys zero e = refl
  take-append [] ys (suc n) e = absurd (omega arith)
  take-append (x ∷ xs) ys zero e = absurd (omega arith)
  take-append (x ∷ xs) ys (suc n) e = ap (λ t. x ∷ t) (take-append xs ys n (omega arith))

  pub drop-all : (xs : List A) (n : ℕ) → length xs ≤ n → drop n xs ≡ []
  drop-all [] zero e = refl
  drop-all [] (suc n) e = refl
  drop-all (x ∷ xs) zero e = absurd (omega arith)
  drop-all (x ∷ xs) (suc n) e = drop-all xs n (omega arith)

  pub take-all : (xs : List A) (n : ℕ) → length xs ≤ n → take n xs ≡ xs
  take-all [] zero e = refl
  take-all [] (suc n) e = refl
  take-all (x ∷ xs) zero e = absurd (omega arith)
  take-all (x ∷ xs) (suc n) e = ap (λ t. x ∷ t) (take-all xs n (omega arith))

  pub drop-append : (xs ys : List A) (n : ℕ) → n ≤ length xs → drop n (xs ++ ys) ≡ drop n xs ++ ys
  drop-append xs ys zero e = refl
  drop-append [] ys (suc n) e = absurd (omega arith)
  drop-append (x ∷ xs) ys (suc n) e = drop-append xs ys n (omega arith)

  pub drop-suc :
      (xs : List A) (n : ℕ) {y : A} {ys : List A} → drop n xs ≡ y ∷ ys → drop (suc n) xs ≡ ys
  drop-suc [] zero e = cc
  drop-suc [] (suc n) e = cc
  drop-suc (x ∷ xs) zero e = cc
  drop-suc (x ∷ xs) (suc n) e = drop-suc xs n e

  drop-cons : (w : List A) (i : ℕ) (d : A) → i < length w → drop i w ≡ get_or w i d ∷ drop (suc i) w
  drop-cons [] i d h = absurd (omega arith)
  drop-cons (x ∷ w) zero d h = refl
  drop-cons (x ∷ w) (suc i) d h = drop-cons w i d (omega arith)

  drop-set : (w : List A) (i : ℕ) (v : A) → drop (suc i) (set w i v) ≡ drop (suc i) w
  drop-set [] i v = refl
  drop-set (x ∷ w) zero v = refl
  drop-set (x ∷ w) (suc i) v = drop-set w i v

  take-set :
      (w : List A) (i : ℕ) (v : A) → i < length w → take (suc i) (set w i v) ≡ take i w ++ v ∷ []
  take-set [] i v h = absurd (omega arith)
  take-set (x ∷ w) zero v h = refl
  take-set (x ∷ w) (suc i) v h = ap (λ t. x ∷ t) (take-set w i v (omega arith))

  -- What is left of the ring without its oldest element.
  abbrev pub ring_rest : ℕ → List A → List A
  ring_rest i w = drop (suc i) w ++ take i w

  pub ring_head :
      (w : List A) (i : ℕ) (d : A) → i < length w → ring i w ≡ get_or w i d ∷ ring_rest i w
  ring_head w i d h = ap (λ t. t ++ take i w) (drop-cons w i d h)

  -- Writing the oldest place and stepping on moves the new element to the end.
  pub ring-set_next :
      (w : List A) (i : ℕ) (v : A)
      → i < length w
      → ring (suc i) (set w i v) ≡ ring_rest i w ++ v ∷ []
  ring-set_next w i v h =
      ap₂ ◌++◌ (drop-set w i v) (take-set w i v h)
      ∙ sym (append_assoc (drop (suc i) w) (take i w) (v ∷ []))

  pub ring-set_last :
      (w : List A) (i : ℕ) (v : A) → suc i ≡ length w → ring 0 (set w i v) ≡ ring_rest i w ++ v ∷ []
  ring-set_last w i v h =
      append-nil (set w i v)
      ∙ sym (take-all (set w i v) (suc i) (omega (arith, length-set w i v)))
      ∙ take-set w i v (omega arith)
      ∙ ap (λ t. (t ++ take i w) ++ v ∷ []) (sym (drop-all w (suc i) (omega arith)))
