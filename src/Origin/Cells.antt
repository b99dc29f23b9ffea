-- ===== src/Origin/Cells.antt =====
-- The bytes that an origin of src/caorigin.c describes, and what holds of every origin.
use casync.Prelude.{
  ℕ, ◌+◌, ◌<◌, ◌≡◌, refl, sym, ap, ◌∙◌, List, [], ◌∷◌, ◌++◌, length, length-append, append_assoc,
  arith, max64, false, ok, err, enomem, Result, ◌⊎◌,
}
use casync.Location.{Location, Memory}
use casync.Location.Cells.{Cell, cells, IsLocation, length-cells}
use casync.Origin.{Origin}

unfoldable pub all_cells : List Location → List Cell
all_cells [] = []
all_cells (l ∷ ls) = cells l ++ all_cells ls

unfoldable pub total : List Location → ℕ
total [] = 0
total (l ∷ ls) = l.size + total ls

unfoldable pub AreLocations : List Location → Type 0
AreLocations [] = Unit {0}
AreLocations (l ∷ ls) = IsLocation l × AreLocations ls

-- Every item is a location of known size, and `n_bytes` is the sum of the sizes, which does not reach UINT64_MAX.
unfoldable pub IsOrigin : Origin → Type 0
IsOrigin o = AreLocations o.items × (o.n_bytes ≡ total o.items) × (o.n_bytes < max64)

pub length-all_cells : (ls : List Location) → length (all_cells ls) ≡ total ls
unfolding all_cells total
length-all_cells [] = refl
length-all_cells (l ∷ ls) =
    omega (arith, length-append (cells l) (all_cells ls), length-cells l, length-all_cells ls)

pub all_cells-append : (ls ks : List Location) → all_cells (ls ++ ks) ≡ all_cells ls ++ all_cells ks
unfolding all_cells
all_cells-append [] ks = refl
all_cells-append (l ∷ ls) ks =
    ap (λ t. cells l ++ t) (all_cells-append ls ks)
    ∙ sym (append_assoc (cells l) (all_cells ls) (all_cells ks))

pub total-append : (ls ks : List Location) → total (ls ++ ks) ≡ total ls + total ks
unfolding total
total-append [] ks = omega arith
total-append (l ∷ ls) ks = omega (arith, total-append ls ks)

pub append-AreLocations :
    (ls ks : List Location) → AreLocations ls → AreLocations ks → AreLocations (ls ++ ks)
unfolding AreLocations
append-AreLocations [] ks h k = k
append-AreLocations (l ∷ ls) ks (h, hs) k = (h, append-AreLocations ls ks hs k)

-- Memory refuses something.
abbrev pub Refuses : Memory → Type 0
Refuses memory =
    ((l : Location) × (memory.allocate l ≡ false)) ⊎ ((n : ℕ) × (memory.allocate_array n ≡ false))

-- A call that ran out of memory
unfoldable pub IsOut : Memory → {A : Type 0} → Origin × Result A → Origin → Type 0
IsOut memory x o = (x.1 ≡ err enomem) × (x.0 ≡ o) × Refuses memory

-- A call by which the origin describes these bytes
unfoldable pub Describes : {A : Type 0} → Origin × Result A → A → List Cell → ℕ → Type 0
Describes x a b n = (x.1 ≡ ok a) × (all_cells x.0.items ≡ b) × IsOrigin x.0 × (x.0.n_bytes ≡ n)
