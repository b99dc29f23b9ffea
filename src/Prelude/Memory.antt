-- ===== src/Prelude/Memory.antt =====
-- A block of memory as the list of its bytes, and `memcpy` into it.
use Prim.Native.Nat.{ℕ, zero, suc, ◌+◌, ◌-◌, ◌≤◌}
use mathlib.Core.Path.{◌≡◌, refl, sym, ap, ap₂, ◌∙◌}
use mathlib.Core.List.{List, [], ◌∷◌, ◌++◌}
use native.Mathlib.Nat.{suc-add}
use native.Mathlib.Omega.{arith}
use casync.Prelude.Lists.{length, take, drop, length-append, length-take, length-drop}
use casync.Prelude.Ring.{drop-append}

-- `memcpy(w + at, q, …)`: the bytes of `q` over those at `at`.
unfoldable pub overwrite : List ℕ → ℕ → List ℕ → List ℕ
overwrite w at q = take at w ++ (q ++ drop (at + length q) w)

module _ {ℓ} {A : Type ℓ} where
  pub take-nil : (n : ℕ) → take {A = A} n [] ≡ []
  take-nil zero = refl
  take-nil (suc n) = refl

  pub drop-nil : (n : ℕ) → drop {A = A} n [] ≡ []
  drop-nil zero = refl
  drop-nil (suc n) = refl

  pub drop_all : (xs : List A) (n : ℕ) → length xs ≤ n → drop n xs ≡ []
  drop_all [] zero h = refl
  drop_all [] (suc n) h = refl
  drop_all (x ∷ xs) zero h = absurd (omega arith)
  drop_all (x ∷ xs) (suc n) h = drop_all xs n (omega arith)

  pub drop-drop : (m n : ℕ) (xs : List A) → drop m (drop n xs) ≡ drop (n + m) xs
  drop-drop m zero xs = ap (λ k. drop k xs) (omega arith)
  drop-drop m (suc n) [] = drop-nil m ∙ sym (drop-nil (suc n + m))
  drop-drop m (suc n) (x ∷ xs) = rw suc-add (drop-drop m n xs)

  pub take-append_le : (xs ys : List A) (n : ℕ) → n ≤ length xs → take n (xs ++ ys) ≡ take n xs
  take-append_le xs ys zero h = refl
  take-append_le [] ys (suc n) h = absurd (omega arith)
  take-append_le (x ∷ xs) ys (suc n) h = ap (λ t. x ∷ t) (take-append_le xs ys n (omega arith))

  -- The first of two parts, by its length
  pub take_first : (xs ys : List A) (n : ℕ) → length xs ≡ n → take n (xs ++ ys) ≡ xs
  take_first [] ys zero e = refl
  take_first [] ys (suc n) e = absurd (omega arith)
  take_first (x ∷ xs) ys zero e = absurd (omega arith)
  take_first (x ∷ xs) ys (suc n) e = ap (λ t. x ∷ t) (take_first xs ys n (omega arith))

  pub take-append_ge :
      (xs ys : List A) (n : ℕ) → length xs ≤ n → take n (xs ++ ys) ≡ xs ++ take (n - length xs) ys
  take-append_ge [] ys n h = ap (λ k. take k ys) (omega arith)
  take-append_ge (x ∷ xs) ys zero h = absurd (omega arith)
  take-append_ge (x ∷ xs) ys (suc n) h =
      ap (λ t. x ∷ t)
        (take-append_ge xs ys n (omega arith) ∙ ap (λ k. xs ++ take k ys) (omega arith))

  -- Of the first `n`, the first `m` are the first `m`, where `m` is no more.
  pub take-take : (m n : ℕ) (xs : List A) → m ≤ n → take m (take n xs) ≡ take m xs
  take-take zero n xs h = refl
  take-take (suc m) zero xs h = absurd (omega arith)
  take-take (suc m) (suc n) [] h = refl
  take-take (suc m) (suc n) (x ∷ xs) h = ap (λ t. x ∷ t) (take-take m n xs (omega arith))

  pub take-drop : (m n : ℕ) (xs : List A) → take m (drop n xs) ≡ drop n (take (n + m) xs)
  take-drop m zero xs = ap (λ k. take k xs) (omega arith)
  take-drop m (suc n) [] = take-nil m ∙ sym (ap (drop (suc n)) (take-nil (suc n + m)))
  take-drop m (suc n) (x ∷ xs) = rw suc-add (take-drop m n xs)

pub length-overwrite :
    (w : List ℕ) (at : ℕ) (q : List ℕ)
    → at + length q ≤ length w
    → length (overwrite w at q) ≡ length w
unfolding overwrite
length-overwrite w at q h = omega (
  arith,
  length-append (take at w) (q ++ drop (at + length q) w),
  length-append q (drop (at + length q) w),
  length-take at w,
  length-drop (at + length q) w,
)

-- Writing inside a window of a block writes inside what the window holds.
pub drop-take-overwrite :
    (w : List ℕ) (s e n : ℕ) (q : List ℕ)
    → s + n + length q ≤ e
    → e ≤ length w
    → drop s (take e (overwrite w (s + n) q))
      ≡ take n (drop s (take e w)) ++ (q ++ drop (n + length q) (drop s (take e w)))
unfolding overwrite
drop-take-overwrite w s e n q h fits =
    ap (drop s) (
      take-append_ge (take (s + n) w) (q ++ rest) e (omega (arith, length-take (s + n) w))
      ∙ ap (λ z. take (s + n) w ++ z)
          (take-append_ge q rest (e - length (take (s + n) w))
            (omega (arith, length-take (s + n) w))))
    ∙ drop-append (take (s + n) w) (q ++ take later rest) s (omega (arith, length-take (s + n) w))
    ∙ ap₂ (λ x y. x ++ (q ++ y)) before after
  where
    rest : List ℕ
    rest = drop (s + n + length q) w

    later : ℕ
    later = e - length (take (s + n) w) - length q

    before : drop s (take (s + n) w) ≡ take n (drop s (take e w))
    before =
        ap (drop s) (sym (take-take (s + n) e w (omega arith))) ∙ sym (take-drop n s (take e w))

    after : take later rest ≡ drop (n + length q) (drop s (take e w))
    after =
        take-drop later (s + n + length q) w
        ∙ ap (λ k. drop (s + n + length q) (take k w)) {x = s + n + length q + later} {y = e}
            (omega (arith, length-take (s + n) w))
        ∙ ap (λ k. drop k (take e w)) {x = s + n + length q} {y = s + (n + length q)} (omega arith)
        ∙ sym (drop-drop (n + length q) s (take e w))

pub overwrite-nil : (at : ℕ) (q : List ℕ) → at + length q ≤ 0 → overwrite [] at q ≡ []
unfolding overwrite
overwrite-nil zero [] h = drop-nil (0 + 0)
overwrite-nil (suc at) [] h = absurd (omega arith)
overwrite-nil at (x ∷ q) h = absurd (omega arith)
