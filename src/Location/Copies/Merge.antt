-- ===== src/Location/Copies/Merge.antt =====
-- What `ca_location_merge` of src/calocation.c does to the bytes that a location describes.
use casync.Prelude.{
  ◌+◌, ◌<◌, ◌≡◌, sym, ap, ap₂, ◌∙◌, ◌++◌, arith, max64, wrap64, if◌then◌else◌, true, false, Bool,
  ok, Result, ◌⊎◌, inl, inr, Bool-cases, subst,
}
use casync.Location.{
  Location, Memory, is_void, same_path, designator_code, new_location, merge, copy_as,
}
use casync.Location.Cells.{cell, run, cells, IsLocation, run-append, run_void}
use casync.Location.Copies.{
  same_path→eq, code→eq, copy-cells, copy-IsLocation, below, nonempty, begins_at, IsFull, Remakes,
  changed, changed-Remakes,
}

module _ (memory : Memory) where
  -- A location is merged into one before it, or the two are left as they are.
  unfoldable pub Merges : Location × Result Bool → Location → Location → Type 0
  Merges x a b =
      ((x.1 ≡ ok true)
        × (cells x.0 ≡ cells a ++ cells b)
        × IsLocation x.0
        × (x.0.size ≡ a.size + b.size))
      ⊎ (((x.1 ≡ ok false) × (x.0 ≡ a)) ⊎ IsFull memory x a)

  merge-cases :
      (a b : Location)
      → a.size < max64
      → b.size < max64
      → (merge memory b a ≡ (a, ok false))
        ⊎ ((a.root ≡ b.root)
            × (same_path a.path b.path ≡ true)
            × (designator_code a.designator ≡ designator_code b.designator)
            × (is_void a.designator ≡ false → wrap64 (a.offset + a.size) ≡ b.offset)
            × (merge memory b a ≡ (
                if memory.sole a
                then (record a { size = wrap64 (a.size + b.size) }, ok true)
                else copy_as a a.root true
                    (new_location memory a.path a.designator a.offset (wrap64 (a.size + b.size))))))
  unfolding merge
  merge-cases a b h k = ground arith

  -- The bytes of a location that goes on where another ends
  cells-follow :
      (a b : Location)
      → IsLocation a
      → a.root ≡ b.root
      → a.path ≡ b.path
      → a.designator ≡ b.designator
      → (is_void a.designator ≡ false → wrap64 (a.offset + a.size) ≡ b.offset)
      → cells a ++ cells b ≡ run (cell a.root a.path a.designator) a.offset (a.size + b.size)
  unfolding cells IsLocation
  cells-follow a b (p, fits, plain) same_root same_path same_kind next =
      ap (λ t. cells a ++ t) (there ∙ place)
      ∙ sym (run-append (cell a.root a.path a.designator) a.offset a.size b.size)
    where
      there : cells b ≡ run (cell a.root a.path a.designator) b.offset b.size
      there =
          ap (λ r. run (cell r b.path b.designator) b.offset b.size) (sym same_root)
          ∙ ap (λ r. run (cell a.root r b.designator) b.offset b.size) (sym same_path)
          ∙ ap (λ r. run (cell a.root a.path r) b.offset b.size) (sym same_kind)

      place :
          run (cell a.root a.path a.designator) b.offset b.size
          ≡ run (cell a.root a.path a.designator) (a.offset + a.size) b.size
      place = elim (Bool-cases (is_void a.designator)) [
        | inl e ↦ run_void a.root a.path a.designator b.offset (a.offset + a.size) b.size e
        | inr e ↦ ap (λ k. run (cell a.root a.path a.designator) k b.size) (omega (arith, next e))
      ]

  merged_fits :
      (a b : Location)
      → IsLocation a
      → IsLocation b
      → a.size + b.size < max64
      → (is_void a.designator ≡ false → wrap64 (a.offset + a.size) ≡ b.offset)
      → a.offset + (a.size + b.size) < max64
  unfolding IsLocation
  merged_fits a b (p, f, plain) (q, g, other) small next =
      elim (Bool-cases (is_void a.designator)) [
        | inl e ↦ omega (arith, (plain e).1)
        | inr e ↦ omega (arith, next e)
      ]

  merged-Merges :
      (x : Location × Result Bool) (a b : Location)
      → IsLocation a
      → a.offset + (a.size + b.size) < max64
      → cells a ++ cells b ≡ run (cell a.root a.path a.designator) a.offset (a.size + b.size)
      → Remakes memory x a a.offset (a.size + b.size)
      → Merges x a b
  unfolding Merges Remakes
  merged-Merges x a b h fits both remade = elim remade [
    | inl (done, e) ↦ inl (
      done,
      ap cells e ∙ copy-cells a a.offset (a.size + b.size) ∙ sym both,
      subst IsLocation (sym e)
          (copy-IsLocation a a.offset (a.size + b.size) h (omega (arith, nonempty a h)) fits),
      ap (λ l. l.size) e,
    )
    | inr full ↦ inr (inr full)
  ]

  -- Merging describes the bytes of both in order, or changes nothing.
  pub merge-Merges :
      (a b : Location)
      → IsLocation a
      → IsLocation b
      → a.size + b.size < max64
      → Merges (merge memory b a) a b
  unfolding Merges
  merge-Merges a b la lb small = elim (merge-cases a b (below a la) (below b lb)) [
    | inl e ↦ inr (inl (ap (λ x. x.1) e, ap (λ x. x.0) e))
    | inr (r, p, d, next, e) ↦
        let size : wrap64 (a.size + b.size) ≡ a.size + b.size = omega arith in
        let fits = merged_fits a b la lb small next in
        let result : merge memory b a
            ≡ changed memory (memory.sole a) a a.offset (a.size + b.size) =
          e
          ∙ ap₂
              (λ n k.
                (if memory.sole a
                  then (record a { offset = k; size = n }, ok true)
                  else copy_as a a.root true (new_location memory a.path a.designator a.offset n)))
              size (begins_at a la) in
        merged-Merges (merge memory b a) a b la fits
          (cells-follow a b la r (same_path→eq _ _ p) (code→eq _ _ d) next)
          (subst (λ x. Remakes memory x a a.offset (a.size + b.size)) (sym result)
            (changed-Remakes memory (memory.sole a) a a.offset (a.size + b.size) la
              (omega (arith, nonempty a la)) fits))
  ]
