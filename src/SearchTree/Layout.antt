-- ===== src/SearchTree/Layout.antt =====
-- The search tree that src/camakebst.c writes.
use native.Mathlib.Nat.{mul-le-mul_left, mul-le-mul_right, mul_assoc, mul_comm, add-mul}
use casync.Prelude.{
  ℕ, zero, suc, ◌+◌, ◌-◌, ◌*◌, ◌/◌, ◌^◌, ◌≤◌, ◌<◌, ◌≡◌, refl, sym, ap, ap₂, subst, ◌∙◌, some, List,
  [], ◌∷◌, ◌++◌, arith, get_elem?, take, drop, length, length-drop, pow_double, pow_pos, wrap64, ok,
  ℕ_discrete, ◌⊎◌, inl, inr, dec_lt,
}
use casync.SearchTree.{root, make_bst_inner, make_bst}

-- The writes of a search tree whose root has index `i` and whose elements are, from left to right, the
-- ones of a list.
pub data Tree {ℓ} {A : Type ℓ} : ℕ → List (ℕ × A) → List A → Type ℓ where
  leaf : {i : ℕ} → Tree i [] []
  node :
      {i : ℕ} {x : A} {left right : List (ℕ × A)} {smaller larger : List A}
      → Tree (2 * i + 1) left smaller
      → Tree (2 * i + 2) right larger
      → Tree i ((i, x) ∷ (left ++ right)) (smaller ++ (x ∷ larger))

-- A number of elements that a complete tree of `e` levels can have.
unfoldable IsComplete : ℕ → ℕ → Type 0
IsComplete n e = n < 2 ^ e × 2 ^ e ≤ 2 * n + 2

half_pow : (e : ℕ) → (2 ^ e ≡ 1) ⊎ (2 ^ e ≡ 2 * (2 ^ e / 2))
half_pow zero = inl refl
half_pow (suc e) = inr (omega (arith, pow_double e))

root_lem :
    (e n : ℕ)
    → 0 < n
    → IsComplete n (suc e)
    → root e n < n × IsComplete (root e n) e × IsComplete (n - root e n - 1) e
unfolding root IsComplete
root_lem e n positive c = elim (half_pow e) [
  | inl one ↦ ground (arith, pow_double e)
  | inr half ↦ ground (arith, pow_double e)
]

-- Below an index, no index leaves the machine word.
children_fit :
    (e i : ℕ)
    → (i + 2) * 2 ^ suc e ≤ 18446744073709551616
    → (2 * i + 1 + 2) * 2 ^ e ≤ 18446744073709551616
      × (2 * i + 2 + 2) * 2 ^ e ≤ 18446744073709551616
      × 2 * i + 2 < 18446744073709551616
children_fit e i h = (
  omega (
    arith,
    whole,
    mul-le-mul_right {m = 2 * i + 1 + 2} {n = 2 * i + 2 + 2} (2 ^ e) (omega arith),
  ),
  omega (arith, whole),
  omega (arith, whole, mul-le-mul_left (2 * i + 2 + 2) (pow_pos e)),
)
  where
    whole : (i + 2) * 2 ^ suc e ≡ (2 * i + 2 + 2) * 2 ^ e
    whole =
        ap (λ t. (i + 2) * t) (pow_double e)
        ∙ sym (mul_assoc (i + 2) 2 (2 ^ e))
        ∙ ap (λ t. t * 2 ^ e) {x = (i + 2) * 2} {y = 2 * i + 2 + 2} (omega arith)

-- The elements of a subtree of `n` ones, as many levels as `r` is the power of 2 of, and whose root's index times `r` is `z`,
-- have their places below `size`: there are none, or its last level is begun and ends below, or it is empty and the one
-- before ends below.
IsPlaced : ℕ → ℕ → ℕ → ℕ → Type 0
IsPlaced n r z size =
    (n ≡ 0) ⊎ ((r ≤ 2 * n × z + 2 * n ≤ 2 * size) ⊎ (r ≡ 2 * n + 2 × z + 2 * r ≤ 4 * size + 4))

children-IsPlaced :
    (e n z size : ℕ)
    → 0 < n
    → IsComplete n (suc e)
    → IsPlaced n (2 * 2 ^ e) z size
    → IsPlaced (root e n) (2 ^ e) (z + 2 ^ e) size
      × IsPlaced (n - root e n - 1) (2 ^ e) (z + 2 * 2 ^ e) size
unfolding root IsComplete IsPlaced
children-IsPlaced e n z size positive c h = elim (half_pow e) [
  | inl one ↦ ground (arith, pow_double e)
  | inr half ↦ ground (arith, pow_double e)
]

-- The index of a node, and those of its children times a power of 2
placed_inside : (e i n size : ℕ) → 0 < n → IsPlaced n (2 ^ suc e) (i * 2 ^ suc e) size → i < size
unfolding IsPlaced
placed_inside e i n size positive h = elim (dec_lt 1 (2 ^ e)) [
  | yes more ↦
      ground (
        arith,
        pow_double e,
        mul-le-mul_left {m = 4} {n = 2 ^ suc e} i (omega (arith, pow_double e)),
      )
  | no one ↦ ground (
    arith,
    pow_double e,
    pow_pos e,
    mul-le-mul_left {m = 2} {n = 2 ^ suc e} i (omega (arith, pow_double e, pow_pos e)),
  )
]

children_indices :
    (e i : ℕ)
    → ((2 * i + 1) * 2 ^ e ≡ i * 2 ^ suc e + 2 ^ e)
      × ((2 * i + 2) * 2 ^ e ≡ i * 2 ^ suc e + 2 * 2 ^ e)
children_indices e i = (
  omega (arith, doubled, add-mul (2 * i) 1 (2 ^ e)),
  omega (arith, doubled, add-mul (2 * i) 2 (2 ^ e)),
)
  where
    doubled : i * 2 ^ suc e ≡ (2 * i) * 2 ^ e
    doubled =
        ap (λ t. i * t) (pow_double e)
        ∙ sym (mul_assoc i 2 (2 ^ e))
        ∙ ap (λ t. t * 2 ^ e) (mul_comm i 2)

module _ {ℓ} {A : Type ℓ} where
  -- Every index that is written is below a size.
  abbrev pub AllBelow : ℕ → List (ℕ × A) → Type 0
  AllBelow size [] = Unit
  AllBelow size (w ∷ writes) = w.0 < size × AllBelow size writes

  append-AllBelow :
      (size : ℕ) (xs ys : List (ℕ × A))
      → AllBelow size xs
      → AllBelow size ys
      → AllBelow size (xs ++ ys)
  append-AllBelow size [] ys h k = k
  append-AllBelow size (x ∷ xs) ys (h, t) k = (h, append-AllBelow size xs ys t k)

  elem_split :
      (k n : ℕ) (xs : List A)
      → k < n
      → n ≤ length xs
      → (x : A) × (get_elem? xs k ≡ some x)
        × (take n xs ≡ take k xs ++ (x ∷ take (n - k - 1) (drop (k + 1) xs)))
  elem_split k zero xs h h' = absurd (omega arith)
  elem_split k (suc n) [] h h' = absurd (omega arith)
  elem_split zero (suc n) (x ∷ xs) h h' =
      (x, refl, ap (λ m. x ∷ take m xs) {x = n} {y = suc n - 0 - 1} (omega arith))
  elem_split (suc k) (suc n) (x ∷ xs) h h' =
      let (y, e, same) = elem_split k n xs (omega arith) (omega arith) in
      (
        y,
        e,
        ap (λ t. x ∷ t)
            (same
              ∙ ap₂ (λ m rest. take k xs ++ (y ∷ take m rest)) {x = n - k - 1}
                  {y = suc n - suc k - 1} {u = drop (k + 1) xs} {v = drop (suc k + 1) (x ∷ xs)}
                  (omega arith)
                  (ap (λ m. drop m (x ∷ xs)) {x = suc (k + 1)} {y = suc k + 1} (omega arith))),
      )

  inner-Tree :
      (size e : ℕ) (input : List A) (n i : ℕ)
      → n ≤ length input
      → IsComplete n e
      → IsPlaced n (2 ^ e) (i * 2 ^ e) size
      → (i + 2) * 2 ^ e ≤ 18446744073709551616
      → (writes : List (ℕ × A)) × (make_bst_inner input n e i ≡ ok writes)
        × Tree i writes (take n input)
        × AllBelow size writes
  unfolding make_bst_inner IsComplete
  inner-Tree size zero input n i long c place word = elim (ℕ_discrete n 0) [
    | yes nothing ↦ ([], ground arith, subst (λ m. Tree i [] (take m input)) (sym nothing) leaf, tt)
    | no something ↦ absurd (omega arith)
  ]
  inner-Tree size (suc e) input n i long c place word = elim (ℕ_discrete n 0) [
    | yes nothing ↦ ([], ground arith, subst (λ m. Tree i [] (take m input)) (sym nothing) leaf, tt)
    | no something ↦
        let fits = children_fit e i word in
        let bounds = root_lem e n (omega arith) c in
        let (x, e', same) = elem_split (root e n) n input bounds.0 long in
        let (left_index, right_index) = children_indices e i in
        let (left_place, right_place) =
          children-IsPlaced e n (i * 2 ^ suc e) size (omega arith) c
            (subst (λ r. IsPlaced n r (i * 2 ^ suc e) size) (pow_double e) place) in
        let (lw, le, lt, lb) =
          inner-Tree size e input (root e n) (2 * i + 1) (omega (arith, bounds.0)) bounds.1
            (subst (λ z. IsPlaced (root e n) (2 ^ e) z size) (sym left_index) left_place) fits.0 in
        let (rw_, re, rt, rb) =
          inner-Tree size e (drop (root e n + 1) input) (n - root e n - 1) (2 * i + 2)
            (omega (arith, length-drop (root e n + 1) input, bounds.0)) bounds.2
            (subst (λ z. IsPlaced (n - root e n - 1) (2 ^ e) z size) (sym right_index) right_place)
            fits.1 in
        (
          (i, x) ∷ (lw ++ rw_),
          ground (
            arith,
            e',
            ap (make_bst_inner input (root e n) e) {x = wrap64 (i * 2 + 1)} {y = 2 * i + 1}
                  (omega (arith, fits.2))
                ∙ le,
            ap (make_bst_inner (drop (root e n + 1) input) (n - root e n - 1) e)
                  {x = wrap64 (i * 2 + 2)} {y = 2 * i + 2} (omega (arith, fits.2))
                ∙ re,
          ),
          subst (Tree i ((i, x) ∷ (lw ++ rw_))) (sym same) (node lt rt),
          (placed_inside e i n size (omega arith) place, append-AllBelow size lw rw_ lb rb),
        )
  ]

-- What the compiler documents of __builtin_clzl on an unsigned long of 64 bits.
unfoldable pub IsClz : (ℕ → ℕ) → Type 0
IsClz clz =
    (n : ℕ)
    → 0 < n
    → n < 18446744073709551616
    → clz n ≤ 63 × 2 ^ (63 - clz n) ≤ n × n < 2 ^ (64 - clz n)

module _ {ℓ} {A : Type ℓ} where
  -- `ca_make_bst`, given a table of at least `n` elements, with `n` from 1 to 2 ^ 62, returns, and writes
  -- the search tree whose elements from left to right are the first `n` of the table, at indices below `n` only.
  pub make_bst-Tree :
      (clz : ℕ → ℕ) (input : List A) (n : ℕ)
      → IsClz clz
      → 0 < n
      → n ≤ 4611686018427387904
      → n ≤ length input
      → (writes : List (ℕ × A)) × (make_bst clz input n ≡ ok writes)
        × Tree 0 writes (take n input)
        × AllBelow n writes
  unfolding make_bst IsClz IsComplete IsPlaced
  make_bst-Tree clz input n h positive small long =
      let known = h n positive (omega arith) in
      inner-Tree n (64 - clz n - 1 + 1) input n 0 long (complete known) (placed known) (fits known)
    where
      Known : Type 0
      Known = clz n ≤ 63 × 2 ^ (63 - clz n) ≤ n × n < 2 ^ (64 - clz n)

      levels : clz n ≤ 63 → 2 ^ (64 - clz n - 1 + 1) ≡ 2 * 2 ^ (63 - clz n)
      levels b =
          ap (λ k. 2 ^ k) {x = 64 - clz n - 1 + 1} {y = suc (63 - clz n)} (omega arith)
          ∙ pow_double (63 - clz n)

      same : clz n ≤ 63 → 2 ^ (64 - clz n) ≡ 2 ^ (64 - clz n - 1 + 1)
      same b = ap (λ k. 2 ^ k) {x = 64 - clz n} {y = 64 - clz n - 1 + 1} (omega arith)

      complete : Known → IsComplete n (64 - clz n - 1 + 1)
      complete k = (omega (arith, same k.0, k), omega (arith, levels k.0, k))

      fits : Known → (0 + 2) * 2 ^ (64 - clz n - 1 + 1) ≤ 18446744073709551616
      fits k = omega (arith, levels k.0, k)

      placed : Known → IsPlaced n (2 ^ (64 - clz n - 1 + 1)) (0 * 2 ^ (64 - clz n - 1 + 1)) n
      placed k = inr (inl (omega (arith, levels k.0, k), omega arith))
