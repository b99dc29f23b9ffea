-- ===== src/Location/Cells.antt =====
-- The bytes that a location of src/calocation.c describes, one after the other.
use casync.Prelude.{
  ℕ, zero, suc, ◌+◌, ◌-◌, ◌≤◌, ◌<◌, ◌≡◌, refl, sym, ap, ap₂, ◌∙◌, Option, none, List, [], ◌∷◌, ◌++◌,
  drop, take, length, arith, max64, if◌then◌else◌, true, replicate,
}
use casync.Location.{Location, Designator, is_void}

-- A byte: of the data at an offset of a place in the tree, or an unknown one
pub data Cell : Type 0 where
  byte_at : ℕ → Option (List ℕ) → Designator → ℕ → Cell
  unknown : Cell

unfoldable pub cell : ℕ → Option (List ℕ) → Designator → ℕ → Cell
cell root path d at = if is_void d then unknown else byte_at root path d at

-- So many bytes from an offset on
unfoldable pub run : (ℕ → Cell) → ℕ → ℕ → List Cell
run f at zero = []
run f at (suc n) = f at ∷ run f (suc at) n

unfoldable pub cells : Location → List Cell
cells l = run (cell l.root l.path l.designator) l.offset l.size

-- A location of known size: it is not empty, it ends below 2^64, and an unknown one has no place.
unfoldable pub IsLocation : Location → Type 0
IsLocation l =
    (0 < l.size)
    × (l.offset + l.size < max64)
    × (is_void l.designator ≡ true → (l.path ≡ none) × (l.offset ≡ 0))

pub length-run : (f : ℕ → Cell) (at n : ℕ) → length (run f at n) ≡ n
unfolding run
length-run f at zero = refl
length-run f at (suc n) = ap suc (length-run f (suc at) n)

pub run-append : (f : ℕ → Cell) (at m n : ℕ) → run f at (m + n) ≡ run f at m ++ run f (at + m) n
unfolding run
run-append f at zero n =
    ap₂ (run f) {x = at} {y = at + 0} {u = 0 + n} {v = n} (omega arith) (omega arith)
run-append f at (suc m) n =
    ap (run f at) {x = suc m + n} {y = suc (m + n)} (omega arith)
    ∙ ap (λ t. f at ∷ t)
        (run-append f (suc at) m n
          ∙ ap (λ k. run f (suc at) m ++ run f k n) {x = suc at + m} {y = at + suc m} (omega arith))

pub drop-run : (f : ℕ → Cell) (at m n : ℕ) → m ≤ n → drop m (run f at n) ≡ run f (at + m) (n - m)
unfolding run
drop-run f at zero n h =
    ap₂ (run f) {x = at} {y = at + 0} {u = n} {v = n - 0} (omega arith) (omega arith)
drop-run f at (suc m) zero h = absurd (omega arith)
drop-run f at (suc m) (suc n) h =
    drop-run f (suc at) m n (omega arith)
    ∙ ap₂ (run f) {x = suc at + m} {y = at + suc m} {u = n - m} {v = suc n - suc m} (omega arith)
        (omega arith)

pub take-run : (f : ℕ → Cell) (at m n : ℕ) → m ≤ n → take m (run f at n) ≡ run f at m
unfolding run
take-run f at zero n h = refl
take-run f at (suc m) zero h = absurd (omega arith)
take-run f at (suc m) (suc n) h = ap (λ t. f at ∷ t) (take-run f (suc at) m n (omega arith))

-- Of bytes that do not differ by their offset, it does not matter where they begin.
run_anywhere :
    (f : ℕ → Cell) (at other n : ℕ) → ((x y : ℕ) → f x ≡ f y) → run f at n ≡ run f other n
unfolding run
run_anywhere f at other zero h = refl
run_anywhere f at other (suc n) h =
    ap₂ (λ a b. a ∷ b) (h at other) (run_anywhere f (suc at) (suc other) n h)

pub run_void :
    (root : ℕ) (path : Option (List ℕ)) (d : Designator) (at other n : ℕ)
    → is_void d ≡ true
    → run (cell root path d) at n ≡ run (cell root path d) other n
unfolding cell
run_void root path d at other n h = run_anywhere (cell root path d) at other n (λ x y.
    ap (λ t. if t then unknown else byte_at root path d x) h
    ∙ sym (ap (λ t. if t then unknown else byte_at root path d y) h))

unknown_run :
    (root : ℕ) (path : Option (List ℕ)) (d : Designator) (at n : ℕ)
    → is_void d ≡ true
    → run (cell root path d) at n ≡ replicate n unknown
unfolding run cell
unknown_run root path d at zero v = refl
unknown_run root path d at (suc n) v =
    ap₂ (λ a b. a ∷ b) (ap (λ t. if t then unknown else byte_at root path d at) v)
      (unknown_run root path d (suc at) n v)

-- A location that is no place describes unknown bytes.
pub cells_void : (l : Location) → is_void l.designator ≡ true → cells l ≡ replicate l.size unknown
unfolding cells
cells_void l v = unknown_run l.root l.path l.designator l.offset l.size v

pub replicate_add : (m n : ℕ) (c : Cell) → replicate (m + n) c ≡ replicate m c ++ replicate n c
replicate_add zero n c = ap (λ k. replicate k c) {x = 0 + n} {y = n} (omega arith)
replicate_add (suc m) n c =
    ap (λ k. replicate k c) {x = suc m + n} {y = suc (m + n)} (omega arith)
    ∙ ap (λ t. c ∷ t) (replicate_add m n c)

pub length-cells : (l : Location) → length (cells l) ≡ l.size
unfolding cells
length-cells l = length-run (cell l.root l.path l.designator) l.offset l.size
