-- ===== src/SearchTree/Tests.antt =====
-- Runs of the search tree of src/camakebst.c, and an instance of its theorem.
use casync.Prelude.{
  ℕ, zero, suc, ◌-◌, ◌/◌, ◌≡◌, refl, List, [], ◌∷◌, ok, arith, if◌then◌else◌, leb, take, ◌<◌, ◌≤◌,
  ◌^◌, dec_le, pow_double, subst,
}
use casync.SearchTree.{make_bst_inner, make_bst, root}
use casync.SearchTree.Layout.{Tree, AllBelow, IsClz, make_bst-Tree}

abbrev five : List ℕ
five = 10 ∷ 20 ∷ 30 ∷ 40 ∷ 50 ∷ []

five-laid_out :
    make_bst_inner five 5 3 0 ≡ ok ((0, 40) ∷ (1, 20) ∷ (3, 10) ∷ (4, 30) ∷ (2, 50) ∷ [])
unfolding make_bst_inner root
five-laid_out = refl

-- The position of the highest one of a number, by at most so many halvings.
bits : ℕ → ℕ → ℕ
bits zero n = 0
bits (suc f) n = let higher = bits f (n / 2) in if leb n 1 then 0 else suc higher

bits_lem :
    (f n : ℕ) → 0 < n → n < 2 ^ suc f → bits f n ≤ f × 2 ^ bits f n ≤ n × n < 2 ^ suc (bits f n)
unfolding bits
bits_lem zero n h h' = (omega arith, omega arith, omega (arith, h'))
bits_lem (suc f) n h h' = elim (dec_le n 1) [
  | yes one ↦ ground arith
  | no more ↦ ground (
    arith,
    bits_lem f (n / 2) (omega arith) (omega (arith, pow_double (suc f))),
    pow_double (bits f (n / 2)),
    pow_double (suc (bits f (n / 2))),
  )
]

clz : ℕ → ℕ
clz n = 63 - bits 63 n

clz-IsClz : IsClz clz
unfolding IsClz clz
clz-IsClz n h h' =
    let b = bits_lem 63 n h h' in
    (
      omega arith,
      subst (λ k. 2 ^ k ≤ n) {x = bits 63 n} {y = 63 - (63 - bits 63 n)} (omega (arith, b.0)) b.1,
      subst (λ k. n < 2 ^ k) {x = suc (bits 63 n)} {y = 64 - (63 - bits 63 n)} (omega (arith, b.0))
          b.2,
    )

make_bst-Tree_example :
    (writes : List (ℕ × ℕ)) × (make_bst clz five 5 ≡ ok writes)
    × Tree 0 writes (take 5 five)
    × AllBelow 5 writes
make_bst-Tree_example = make_bst-Tree clz five 5 clz-IsClz (omega arith) (omega arith) (omega arith)
