-- ===== src/Location/Copies/Change.antt =====
-- What `ca_location_advance` and `ca_location_patch_size` of src/calocation.c do to the bytes that a location
-- describes.
use casync.Prelude.{
  ℕ, ◌+◌, ◌-◌, ◌<◌, ◌≡◌, sym, ap, ◌∙◌, ◌++◌, drop, take, arith, max64, wrap64, if◌then◌else◌, true,
  false, Bool, ok, Result, ◌⊎◌, inl, inr, ◌==◌, ltb, subst, replicate,
}
use casync.Location.{Location, Memory, is_void, new_location, advance_location, patch_size, copy_as}
use casync.Location.Cells.{
  unknown, cells_void, replicate_add, cell, cells, IsLocation, drop-run, take-run,
}
use casync.Location.Copies.{
  copy, copy-cells, copy-IsLocation, begins, begins_at, IsFull, Remakes, changed, changed-Remakes,
}

module _ (memory : Memory) where
  -- Advancing by less than the size drops the first bytes.
  unfoldable pub Advances : Location × Result Bool → Location → ℕ → Type 0
  Advances x l n =
      ((x.1 ≡ ok true) × (cells x.0 ≡ drop n (cells l)) × IsLocation x.0 × (x.0.size ≡ l.size - n))
      ⊎ IsFull memory x l

  advance_location-changed :
      (l : Location) (n : ℕ)
      → IsLocation l
      → 0 < n
      → n < l.size
      → advance_location memory n l ≡ changed memory (memory.sole l) l (l.offset + n) (l.size - n)
  unfolding advance_location IsLocation
  advance_location-changed l n h positive small =
      let place : wrap64 (l.offset + n) ≡ l.offset + n = omega arith in
      let some_bytes : (n == 0) ≡ false = ground arith in
      let known : (l.size == max64) ≡ false = ground arith in
      let enough : ltb l.size n ≡ false = ground arith in
      simp (some_bytes, known, enough, place, begins l (l.offset + n) h, advance_location)

  pub advance_location-Advances :
      (l : Location) (n : ℕ)
      → IsLocation l
      → 0 < n
      → n < l.size
      → Advances (advance_location memory n l) l n
  unfolding Advances Remakes IsLocation cells
  advance_location-Advances l n h positive small =
      let fits : (l.offset + n) + (l.size - n) < max64 = omega arith in
      elim (subst (λ x. Remakes memory x l (l.offset + n) (l.size - n))
        (sym (advance_location-changed l n h positive small))
        (changed-Remakes memory (memory.sole l) l (l.offset + n) (l.size - n) h (omega arith)
          fits)) [
            | inl (done, e) ↦ inl (
              done,
              ap cells e
                  ∙ copy-cells l (l.offset + n) (l.size - n)
                  ∙ sym
                      (drop-run (cell l.root l.path l.designator) l.offset n l.size (omega arith)),
              subst IsLocation (sym e)
                  (copy-IsLocation l (l.offset + n) (l.size - n) h (omega arith) fits),
              ap (λ k. k.size) e,
            )
            | inr full ↦ inr full
          ]

  -- Giving another size keeps the beginning.
  patch_size-changed :
      (sole : Bool) (l : Location) (n : ℕ)
      → IsLocation l
      → 0 < n
      → l.offset + n < max64
      → (l.size == n) ≡ false
      → patch_size memory sole n l ≡ changed memory sole l l.offset n
  unfolding patch_size
  patch_size-changed sole l n h positive fits e =
      simp (e, patch_size)
        (ap
          (λ k.
            if sole
            then (record l { offset = k; size = n }, ok true)
            else copy_as l l.root true (new_location memory l.path l.designator l.offset n))
          (begins_at l h))

  pub patch_size-Remakes :
      (sole : Bool) (l : Location) (n : ℕ)
      → IsLocation l
      → 0 < n
      → l.offset + n < max64
      → (l.size == n) ≡ false
      → Remakes memory (patch_size memory sole n l) l l.offset n
  patch_size-Remakes sole l n h positive fits e =
      subst (λ x. Remakes memory x l l.offset n)
        (sym (patch_size-changed sole l n h positive fits e))
        (changed-Remakes memory sole l l.offset n h positive fits)

  -- A location cut to fewer bytes describes the first of them.
  pub patch_size-first :
      (sole : Bool) (l : Location) (n : ℕ)
      → IsLocation l
      → 0 < n
      → n < l.size
      → ((((patch_size memory sole n l).1 ≡ ok true)
          × (cells (patch_size memory sole n l).0 ≡ take n (cells l))
          × IsLocation (patch_size memory sole n l).0
          × ((patch_size memory sole n l).0.size ≡ n)))
        ⊎ IsFull memory (patch_size memory sole n l) l
  unfolding Remakes IsLocation cells
  patch_size-first sole l n h positive small =
      let differs : (l.size == n) ≡ false = ground arith in
      let fits : l.offset + n < max64 = omega (arith, h.1) in
      elim (patch_size-Remakes sole l n h positive fits differs) [
        | inl (done, e) ↦ inl (
          done,
          ap cells e
              ∙ copy-cells l l.offset n
              ∙ sym (take-run (cell l.root l.path l.designator) l.offset n l.size (omega arith)),
          subst IsLocation (sym e) (copy-IsLocation l l.offset n h positive fits),
          ap (λ k. k.size) e,
        )
        | inr full ↦ inr full
      ]

  -- More unknown bytes
  pub patch_size-void :
      (sole : Bool) (l : Location) (n : ℕ)
      → is_void l.designator ≡ true
      → IsLocation l
      → 0 < n
      → l.size + n < max64
      → ((((patch_size memory sole (l.size + n) l).1 ≡ ok true)
          × (cells (patch_size memory sole (l.size + n) l).0 ≡ cells l ++ replicate n unknown)
          × IsLocation (patch_size memory sole (l.size + n) l).0
          × ((patch_size memory sole (l.size + n) l).0.size ≡ l.size + n)))
        ⊎ IsFull memory (patch_size memory sole (l.size + n) l) l
  unfolding Remakes IsLocation
  patch_size-void sole l n v h positive small =
      let differs : (l.size == l.size + n) ≡ false = ground arith in
      let fits : l.offset + (l.size + n) < max64 = omega (arith, (h.2 v).1) in
      elim (patch_size-Remakes sole l (l.size + n) h (omega arith) fits differs) [
        | inl (done, e) ↦ inl (
          done,
          ap cells e
              ∙ cells_void (copy l l.offset (l.size + n)) v
              ∙ replicate_add l.size n unknown
              ∙ ap (λ b. b ++ replicate n unknown) (sym (cells_void l v)),
          subst IsLocation (sym e) (copy-IsLocation l l.offset (l.size + n) h (omega arith) fits),
          ap (λ k. k.size) e,
        )
        | inr full ↦ inr full
      ]
