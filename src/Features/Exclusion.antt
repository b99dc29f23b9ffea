-- ===== src/Features/Exclusion.antt =====
-- What dropping flags in src/caformat-util.c brings about: a flag that excludes others.
use casync.Prelude.{
  ℕ, ◌<◌, ◌≡◌, refl, sym, ap, ◌∙◌, arith, bit_and, bit_or, bit_and_assoc, bit_and_comm,
  bit_and-zero, bit_and-bit_or_right, bit_or-zero, bit_and_low, List, [], ◌∷◌, not64, true,
  ℕ_discrete,
}
use casync.Features.{has, drop_if}

-- A set of flags with `flag` has none of `mask`.
abbrev pub Excludes : ℕ → ℕ → ℕ → Type 0
Excludes flag mask flags = has flags flag ≡ true → bit_and flags mask ≡ 0

zero-bit_and : (x : ℕ) → bit_and 0 x ≡ 0
zero-bit_and x = bit_and_comm 0 x ∙ bit_and-zero x

-- What a mask does not meet, it does not meet after a clearing.
pub clear_disjoint : (x n m : ℕ) → bit_and x m ≡ 0 → bit_and (bit_and x n) m ≡ 0
clear_disjoint x n m h =
    bit_and_assoc x n m
    ∙ ap (bit_and x) (bit_and_comm n m)
    ∙ sym (bit_and_assoc x m n)
    ∙ ap (λ t. bit_and t n) h
    ∙ zero-bit_and n

pub clear_same : (x n m : ℕ) → bit_and n m ≡ m → bit_and (bit_and x n) m ≡ bit_and x m
clear_same x n m h = bit_and_assoc x n m ∙ ap (bit_and x) h

clear_hit : (x n m : ℕ) → bit_and n m ≡ 0 → bit_and (bit_and x n) m ≡ 0
clear_hit x n m h = bit_and_assoc x n m ∙ ap (bit_and x) h ∙ bit_and-zero x

pub drop_if-Excludes :
    (flag mask x : ℕ) → bit_and (not64 mask) mask ≡ 0 → Excludes flag mask (drop_if flag mask x)
unfolding drop_if
drop_if-Excludes flag mask x h e = elim (ℕ_discrete (bit_and x flag) 0) [
  | yes absent ↦ absurd (ground arith)
  | no present ↦ ground (arith, clear_hit x (not64 mask) mask h)
]

-- An exclusion outlives the dropping of any flags.
pub drop_if_keeps :
    (flag mask f m x : ℕ) → Excludes flag mask x → Excludes flag mask (drop_if f m x)
unfolding drop_if
drop_if_keeps flag mask f m x h e = elim (ℕ_discrete (bit_and x f) 0) [
  | yes absent ↦ ground (arith, h)
  | no present ↦ elim (ℕ_discrete (bit_and x flag) 0) [
    | yes gone ↦ absurd (ground (arith, clear_disjoint x (not64 m) flag gone))
    | no there ↦ ground (arith, clear_disjoint x (not64 m) mask (h (ground arith)))
  ]
]

pub drop_if_same :
    (f m x group : ℕ)
    → bit_and (not64 m) group ≡ group
    → bit_and (drop_if f m x) group ≡ bit_and x group
unfolding drop_if
drop_if_same f m x group h = elim (ℕ_discrete (bit_and x f) 0) [
  | yes absent ↦ ground arith
  | no present ↦ ground (arith, clear_same x (not64 m) group h)
]

-- Where the exclusion holds, nothing is dropped.
pub drop_if_idle :
    (flag mask x : ℕ)
    → x < 18446744073709551616
    → bit_or (not64 mask) mask ≡ 18446744073709551615
    → Excludes flag mask x
    → drop_if flag mask x ≡ x
unfolding drop_if
drop_if_idle flag mask x word whole h = elim (ℕ_discrete (bit_and x flag) 0) [
  | yes absent ↦ ground arith
  | no present ↦ ground (arith, unchanged (h (ground arith)))
]
  where
    unchanged : bit_and x mask ≡ 0 → bit_and x (not64 mask) ≡ x
    unchanged e =
        sym (bit_or-zero (bit_and x (not64 mask)))
        ∙ ap (bit_or (bit_and x (not64 mask))) (sym e)
        ∙ sym (bit_and-bit_or_right x (not64 mask) mask)
        ∙ ap (bit_and x) whole
        ∙ bit_and_low 64 x
        ∙ omega arith

-- What is not there does not come by dropping.
pub drop_if_absent : (f m x mask : ℕ) → bit_and x mask ≡ 0 → bit_and (drop_if f m x) mask ≡ 0
unfolding drop_if
drop_if_absent f m x mask h = elim (ℕ_discrete (bit_and x f) 0) [
  | yes absent ↦ ground (arith, h)
  | no present ↦ ground (arith, clear_disjoint x (not64 m) mask h)
]

-- What is in a part of a mask is in the mask.
pub within : (x part mask : ℕ) → bit_and mask part ≡ part → bit_and x mask ≡ 0 → bit_and x part ≡ 0
within x part mask h e =
    sym (ap (bit_and x) h)
    ∙ sym (bit_and_assoc x mask part)
    ∙ ap (λ t. bit_and t part) e
    ∙ zero-bit_and part

-- Several droppings, one after the other.
abbrev pub drops : List (ℕ × ℕ) → ℕ → ℕ
drops [] x = x
drops ((flag, mask) ∷ steps) x = drops steps (drop_if flag mask x)

pub drops_keep :
    (P : ℕ → Type 0)
    → ((f m x : ℕ) → P x → P (drop_if f m x))
    → (steps : List (ℕ × ℕ)) (x : ℕ) → P x
    → P (drops steps x)
drops_keep P closed [] x p = p
drops_keep P closed ((flag, mask) ∷ steps) x p =
    drops_keep P closed steps (drop_if flag mask x) (closed flag mask x p)

-- None of the droppings meets a group of flags.
abbrev pub Spares : ℕ → List (ℕ × ℕ) → Type 0
Spares group [] = Unit
Spares group ((flag, mask) ∷ steps) = (bit_and (not64 mask) group ≡ group) × Spares group steps

pub drops_same :
    (group : ℕ) (steps : List (ℕ × ℕ)) (x : ℕ)
    → Spares group steps
    → bit_and (drops steps x) group ≡ bit_and x group
drops_same group [] x h = refl
drops_same group ((flag, mask) ∷ steps) x h =
    drops_same group steps (drop_if flag mask x) h.1 ∙ drop_if_same flag mask x group h.0
