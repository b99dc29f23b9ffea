-- ===== src/Attributes/RoundTrip.antt =====
-- Feature flags to attribute bits and back, src/caformat-util.c.
use casync.Prelude.{
  ℕ, ◌≡◌, ◌≢◌, sym, ap, ap₂, ◌∙◌, List, [], ◌∷◌, arith, bit_and, bit_or, bit_or_assoc, zero-bit_or,
  bit_or-zero, bit_and-zero, bit_and_comm, bit_and_self, bit_and-bit_or, bit_and-bit_or_right,
  if◌then◌else◌, ℕ_discrete,
}
use casync.Features.{has, any_of}
use casync.Attributes.{collect, swap}

abbrev pub features : List (ℕ × ℕ) → List ℕ
features [] = []
features ((f, c) ∷ rest) = f ∷ features rest

-- The flag of one entry.
picked : ℕ → ℕ → ℕ → ℕ
picked f c x = if has x f then c else 0

-- All flags, from the last entry on.
sum : List (ℕ × ℕ) → ℕ → ℕ
sum [] x = 0
sum ((f, c) ∷ rest) x = bit_or (picked f c x) (sum rest x)

collect-sum : (t : List (ℕ × ℕ)) (x acc : ℕ) → collect t x acc ≡ bit_or acc (sum t x)
unfolding collect sum picked
collect-sum [] x acc = sym (bit_or-zero acc)
collect-sum ((f, c) ∷ rest) x acc = elim (ℕ_discrete (bit_and x f) 0) [
  | yes absent ↦ ground (arith, collect-sum rest x acc, zero-bit_or (sum rest x))
  | no present ↦ ground (arith, collect-sum rest x (bit_or acc c), bit_or_assoc acc c (sum rest x))
]

-- A bit that is none of the table's.
unfoldable pub IsApart : ℕ → List (ℕ × ℕ) → Type 0
IsApart c [] = Unit
IsApart c ((f', c') ∷ rest) = (bit_and c' c ≡ 0) × IsApart c rest

-- The bits of a table are not 0 and share no digit, and its feature flags are single bits.
unfoldable pub IsTable : List (ℕ × ℕ) → Type 0
IsTable [] = Unit
IsTable ((f, c) ∷ rest) =
    (c ≢ 0) × ((x : ℕ) → bit_and x f ≢ 0 → bit_and x f ≡ f) × IsApart c rest × IsTable rest

-- A word shows the bit of an entry exactly if the flags have the entry's flag.
Reads : List (ℕ × ℕ) → ℕ → ℕ → Type 0
Reads [] x y = Unit
Reads ((f, c) ∷ rest) x y = (bit_and y c ≡ bit_and (picked f c x) c) × Reads rest x y

apart_sum : (c : ℕ) (t : List (ℕ × ℕ)) (x : ℕ) → IsApart c t → bit_and (sum t x) c ≡ 0
unfolding IsApart sum picked
apart_sum c [] x h = bit_and_comm 0 c ∙ bit_and-zero c
apart_sum c ((f, c') ∷ rest) x h = elim (ℕ_discrete (bit_and x f) 0) [
  | yes absent ↦ ground (arith, zero-bit_or (sum rest x), apart_sum c rest x h.1)
  | no present ↦ ground (
    arith,
    bit_and-bit_or c' (sum rest x) c ∙ ap₂ bit_or h.0 (apart_sum c rest x h.1) ∙ zero-bit_or 0,
  )
]

apart_picked : (f c c' x : ℕ) → bit_and c' c ≡ 0 → bit_and (picked f c x) c' ≡ 0
unfolding picked
apart_picked f c c' x h = elim (ℕ_discrete (bit_and x f) 0) [
  | yes absent ↦ ground (arith, bit_and_comm 0 c', bit_and-zero c')
  | no present ↦ ground (arith, bit_and_comm c c', h)
]

Reads-bit_or :
    (f c x w : ℕ) (t : List (ℕ × ℕ))
    → IsApart c t
    → Reads t x w
    → Reads t x (bit_or (picked f c x) w)
unfolding IsApart Reads
Reads-bit_or f c x w [] h r = tt
Reads-bit_or f c x w ((f', c') ∷ rest) h r = (
  bit_and-bit_or (picked f c x) w c'
      ∙ ap (λ z. bit_or z (bit_and w c')) (apart_picked f c c' x h.0)
      ∙ zero-bit_or (bit_and w c')
      ∙ r.0,
  Reads-bit_or f c x w rest h.1 r.1,
)

sum-Reads : (t : List (ℕ × ℕ)) (x : ℕ) → IsTable t → Reads t x (sum t x)
unfolding Reads sum IsTable
sum-Reads [] x h = tt
sum-Reads ((f, c) ∷ rest) x h = (
  bit_and-bit_or (picked f c x) (sum rest x) c
      ∙ ap (bit_or (bit_and (picked f c x) c)) (apart_sum c rest x h.2)
      ∙ bit_or-zero (bit_and (picked f c x) c),
  Reads-bit_or f c x (sum rest x) rest h.2 (sum-Reads rest x h.3),
)

picked_back :
    (f c x y : ℕ)
    → c ≢ 0
    → (bit_and x f ≢ 0 → bit_and x f ≡ f)
    → bit_and y c ≡ bit_and (picked f c x) c
    → picked c f y ≡ bit_and x f
unfolding picked
picked_back f c x y positive single r = elim (ℕ_discrete (bit_and x f) 0) [
  | yes absent ↦ ground (arith, absent, bit_and_comm 0 c, bit_and-zero c, r)
  | no present ↦ ground (arith, single present, bit_and_self c, r)
]

back :
    (t : List (ℕ × ℕ)) (x y : ℕ)
    → IsTable t
    → Reads t x y
    → sum (swap t) y ≡ bit_and x (any_of (features t))
unfolding Reads sum IsTable
back [] x y h r = sym (bit_and-zero x)
back ((f, c) ∷ rest) x y h r =
    ap₂ bit_or (picked_back f c x y h.0 (h.1 x) r.0) (back rest x y h.3 r.1)
    ∙ sym (bit_and-bit_or_right x f (any_of (features rest)))

-- Flags that are turned into bits and back are the flags of the table among them.
pub collect-collect :
    (t : List (ℕ × ℕ)) (x : ℕ)
    → IsTable t
    → collect (swap t) (collect t x 0) 0 ≡ bit_and x (any_of (features t))
collect-collect t x h =
    ap (λ y. collect (swap t) y 0) (collect-sum t x 0 ∙ zero-bit_or (sum t x))
    ∙ collect-sum (swap t) (sum t x) 0
    ∙ zero-bit_or (sum (swap t) (sum t x))
    ∙ back t x (sum t x) h (sum-Reads t x h)
