-- ===== src/Location/Copies.antt =====
-- How `ca_location_merge`, `ca_location_advance` and `ca_location_patch_size` of src/calocation.c change a location: in
-- place where it has one owner, and otherwise in a copy.
pub mod Merge
pub mod Change
use casync.Prelude.{
  ℕ, ◌+◌, ◌-◌, ◌<◌, ◌≡◌, refl, sym, ap, ap₂, ◌∙◌, Option, some, none, List, [], ◌∷◌, ◌++◌, drop,
  take, arith, max64, wrap64, if◌then◌else◌, true, false, Bool, ok, err, enomem, Result, ◌⊎◌, inl,
  inr, ◌==◌, ltb, ◌&&◌, Bool-cases, subst, replicate,
}
use casync.Location.{
  Location, Memory, Designator, is_void, is_set, same_path, equal_bytes, designator_code, made,
  new_location, merge, advance_location, patch_size, copy_as,
}
use casync.Location.Cells.{
  unknown, cells_void, replicate_add, cell, run, cells, IsLocation, run-append, drop-run, take-run,
  run_void,
}

equal_bytes→eq : (p q : List ℕ) → equal_bytes p q ≡ true → p ≡ q
equal_bytes→eq [] [] h = refl
equal_bytes→eq [] (y ∷ q) h = absurd (ground arith)
equal_bytes→eq (x ∷ p) [] h = absurd (ground arith)
equal_bytes→eq (x ∷ p) (y ∷ q) h =
    ap₂ (λ a b. a ∷ b) (ground arith) (equal_bytes→eq p q (ground arith))

same_path→eq : (p q : Option (List ℕ)) → same_path p q ≡ true → p ≡ q
same_path→eq none none h = refl
same_path→eq none (some q) h = absurd (ground arith)
same_path→eq (some p) none h = absurd (ground arith)
same_path→eq (some p) (some q) h = ap some (equal_bytes→eq p q h)

code→eq : (a b : Designator) → designator_code a ≡ designator_code b → a ≡ b
code→eq a b h = ground arith

no_place :
    (path : Option (List ℕ)) (d : Designator)
    → (is_void d ≡ true → path ≡ none)
    → (is_void d && is_set path) ≡ false
no_place none d h = ground arith
no_place (some p) d h = ground arith

-- A copy of a location with another offset and size
abbrev copy : Location → ℕ → ℕ → Location
copy l offset size = record (made l.path l.designator offset size) { root = l.root }

copy-cells :
    (l : Location) (offset size : ℕ)
    → cells (copy l offset size) ≡ run (cell l.root l.path l.designator) offset size
unfolding cells
copy-cells l offset size = elim (Bool-cases (is_void l.designator)) [
  | inl e ↦ run_void l.root l.path l.designator _ offset size e
  | inr e ↦ ap (λ t. run (cell l.root l.path l.designator) (if t then 0 else offset) size) e
]

copy-IsLocation :
    (l : Location) (offset size : ℕ)
    → IsLocation l
    → 0 < size
    → offset + size < max64
    → IsLocation (copy l offset size)
unfolding IsLocation
copy-IsLocation l offset size (p, fits, plain) positive small =
    elim (Bool-cases (is_void l.designator)) [
      | inl e ↦ (positive, ground arith, λ v. ((plain v).0, ap (λ t. if t then 0 else offset) e))
      | inr e ↦ (positive, ground arith, λ v. absurd (ground (arith, e, v)))
    ]

pub below : (l : Location) → IsLocation l → l.size < max64
unfolding IsLocation
below l (p, f, plain) = omega arith

pub nonempty : (l : Location) → IsLocation l → 0 < l.size
unfolding IsLocation
nonempty l (p, f, plain) = p

-- Where a location begins, an unknown one at 0
begins :
    (l : Location) (n : ℕ)
    → IsLocation l
    → (if is_void l.designator then l.offset else n) ≡ (if is_void l.designator then 0 else n)
unfolding IsLocation
begins l n (p, f, plain) = elim (Bool-cases (is_void l.designator)) [
  | inl e ↦ ground (arith, e, (plain e).1)
  | inr e ↦ ground (arith, e)
]

begins_at :
    (l : Location) → IsLocation l → l.offset ≡ (if is_void l.designator then 0 else l.offset)
unfolding IsLocation
begins_at l (p, f, plain) = elim (Bool-cases (is_void l.designator)) [
  | inl e ↦ ground (arith, e, (plain e).1)
  | inr e ↦ ground (arith, e)
]

module _ (memory : Memory) where
  -- A call that ran out of memory
  unfoldable pub IsFull : Location × Result Bool → Location → Type 0
  IsFull x l = (x.1 ≡ err enomem) × (x.0 ≡ l) × ((n : Location) × (memory.allocate n ≡ false))

  -- A location is changed to one with this offset and size, or there is no memory.
  unfoldable pub Remakes : Location × Result Bool → Location → ℕ → ℕ → Type 0
  Remakes x l offset size = ((x.1 ≡ ok true) × (x.0 ≡ copy l offset size)) ⊎ IsFull x l

  pub new_location-made :
      (path : Option (List ℕ)) (d : Designator) (offset size : ℕ)
      → 0 < size
      → offset + size < max64
      → (is_void d ≡ true → path ≡ none)
      → (new_location memory path d offset size ≡ ok (made path d offset size))
        ⊎ ((new_location memory path d offset size ≡ err enomem)
            × (memory.allocate (made path d offset size) ≡ false))
  unfolding new_location
  new_location-made path d offset size positive fits plain =
      let some_size : (size == 0) ≡ false = ground arith in
      let placed : (is_void d && is_set path) ≡ false = no_place path d plain in
      let known : (size == max64) ≡ false = ground arith in
      let no_wrap : ltb (wrap64 (offset + size)) offset ≡ false = ground arith in
      elim (Bool-cases (memory.allocate (made path d offset size))) [
        | inl e ↦ inl (simp (some_size, placed, known, no_wrap, e, new_location))
        | inr e ↦ inr (simp (some_size, placed, known, no_wrap, e, new_location), e)
      ]

  -- A copy is made, or there is no memory.
  copy_as-copy :
      (l : Location) (offset size : ℕ)
      → IsLocation l
      → 0 < size
      → offset + size < max64
      → (copy_as l l.root true (new_location memory l.path l.designator offset size)
          ≡ (copy l offset size, ok true))
        ⊎ IsFull (copy_as l l.root true (new_location memory l.path l.designator offset size)) l
  unfolding IsFull IsLocation
  copy_as-copy l offset size (p, f, plain) positive small =
      elim (new_location-made l.path l.designator offset size positive small (λ v. (plain v).0)) [
        | inl e ↦ inl (ap (copy_as l l.root true) e)
        | inr (e, none_left) ↦ inr (
          ap (λ r. (copy_as l l.root true r).1) e,
          ap (λ r. (copy_as l l.root true r).0) e,
          (made l.path l.designator offset size, none_left),
        )
      ]

  -- The object is changed where it has one owner, else copied.
  abbrev changed : Bool → Location → ℕ → ℕ → Location × Result Bool
  changed sole l offset size =
      if sole
      then (copy l offset size, ok true)
      else copy_as l l.root true (new_location memory l.path l.designator offset size)

  changed-Remakes :
      (sole : Bool) (l : Location) (offset size : ℕ)
      → IsLocation l
      → 0 < size
      → offset + size < max64
      → Remakes (changed sole l offset size) l offset size
  unfolding Remakes
  changed-Remakes true l offset size h positive fits = inl (refl, refl)
  changed-Remakes false l offset size h positive fits =
      elim (copy_as-copy l offset size h positive fits) [
        | inl e ↦ inl (ap (λ x. x.1) e, ap (λ x. x.0) e)
        | inr full ↦ inr full
      ]
