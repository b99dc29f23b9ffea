-- ===== src/SearchTree.antt =====
-- src/camakebst.c: a sorted table laid out as a complete binary search tree. Elements are values, the
-- output is the list of the writes to it in their order, each an index and an element. The compiler's
-- count of leading zeroes is a parameter.
pub mod Layout
mod Tests
use casync.Prelude.{
  ℕ, zero, suc, ◌+◌, ◌-◌, ◌*◌, ◌/◌, ◌^◌, Option, none, some, List, [], ◌∷◌, ◌++◌, if◌then◌else◌,
  leb, ◌==◌, wrap64, get_elem?, drop, Result, ok, err, ◌>>=◌, assertion, efault, true, false,
}

-- The index of the root in the table, for a tree of `suc e` levels. `pow_of_2(e)` is 2 ^ e.
unfoldable pub root : ℕ → ℕ → ℕ
root e n =
    let p = 2 ^ e in
    let q = 2 ^ suc e in
    if leb (p - 1 + p / 2) n then (q - 2) / 2 else (q - 2) / 2 - (p - 1 + p / 2 - n)

module _ {ℓ} {A : Type ℓ} where
  -- `make_bst_inner`. `efault` stands for a read behind the table.
  unfoldable pub make_bst_inner : List A → ℕ → ℕ → ℕ → Result (List (ℕ × A))
  make_bst_inner input n zero i = if n == 0 then ok [] else err assertion
  make_bst_inner input n (suc e) i =
      let k = root e n in
      elim (n == 0) [
        | true ↦ ok []
        | false ↦ elim (get_elem? input k) [
          | none ↦ err efault
          | some x ↦ do
            left ← make_bst_inner input k e (wrap64 (i * 2 + 1))
            right ← make_bst_inner (drop (k + 1) input) (n - k - 1) e (wrap64 (i * 2 + 2))
            ok ((i, x) ∷ (left ++ right))
        ]
      ]

  -- `ca_make_bst`
  unfoldable pub make_bst : (ℕ → ℕ) → List A → ℕ → Result (List (ℕ × A))
  make_bst clz input n = make_bst_inner input n (64 - clz n - 1 + 1) 0
