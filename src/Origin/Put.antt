-- ===== src/Origin/Put.antt =====
-- `ca_origin_put` of src/caorigin.c appends bytes.
pub mod Void
use casync.Prelude.{
  ℕ, ◌+◌, ◌<◌, ◌≡◌, none, refl, sym, ap, ap₂, ◌∙◌, subst, List, [], ◌∷◌, ◌++◌, length, append_assoc,
  append-nil, arith, max64, wrap64, Bool, true, false, ok, err, enomem, Result, ◌⊎◌, inl, inr,
  Bool-cases, replicate, if◌then◌else◌, ◌==◌,
}
use casync.Action.{Action}
use casync.Location.{Location, Memory, merge, patch_size, new_location, is_void, void, made}
use casync.Location.Cells.{Cell, unknown, cells, cells_void, IsLocation}
use casync.Location.Copies.{IsFull, new_location-made}
use casync.Location.Copies.Change.{patch_size-void}
use casync.Location.Copies.Merge.{Merges, merge-Merges}
use casync.Origin.{Origin, on_last, put, put_after, put_made, put_void, extended, ends_void}
use casync.Origin.Cells.{
  all_cells, total, AreLocations, IsOrigin, IsOut, Refuses, Describes, all_cells-append,
  total-append, append-AreLocations,
}

Nil-cases : (ls : List Location) → (ls ≡ []) ⊎ ((length ls == 0) ≡ false)
Nil-cases [] = inl refl
Nil-cases (l ∷ ls) = inr (ground arith)

-- The last of a sequence has a property, or if that may be, there is none.
LastIs : Type 0 → (Location → Type 0) → List Location → Type 0
LastIs may holds [] = may
LastIs may holds (l ∷ []) = holds l
LastIs may holds (l ∷ k ∷ ls) = LastIs may holds (k ∷ ls)

module _ (memory : Memory) where
  -- A location is made to describe more bytes, or, if it may be, is left as it is.
  abbrev Grows : Type 0 → Location × Result Bool → Location → List Cell → ℕ → Type 0
  Grows may x k b n =
      ((x.1 ≡ ok true) × (cells x.0 ≡ cells k ++ b) × IsLocation x.0 × (x.0.size ≡ k.size + n))
      ⊎ ((may × (x.1 ≡ ok false) × (x.0 ≡ k)) ⊎ IsFull memory x k)

  -- The last of a sequence is changed: bytes are appended, or, if that may be, nothing is changed.
  Extends : Type 0 → List Location × Result Bool → List Location → List Cell → ℕ → Type 0
  Extends may x ls b n =
      ((x.1 ≡ ok true)
        × (all_cells x.0 ≡ all_cells ls ++ b)
        × AreLocations x.0
        × (total x.0 ≡ total ls + n))
      ⊎ ((may × (x.1 ≡ ok false) × (x.0 ≡ ls)) ⊎ ((x.1 ≡ err enomem) × (x.0 ≡ ls) × Refuses memory))

  on_last-Extends :
      (may : Type 0) (change : Action Location Bool) (ls : List Location) (b : List Cell) (n : ℕ)
      → AreLocations ls
      → total ls + n < max64
      → LastIs may (λ k. IsLocation k → k.size + n < max64 → Grows may (change k) k b n) ls
      → Extends may (on_last change ls) ls b n
  unfolding on_last Extends IsFull AreLocations all_cells total LastIs
  on_last-Extends may change [] b n hs fits grows = inr (inl (grows, refl, refl))
  on_last-Extends may change (k ∷ []) b n (hk, hs) fits grows = elim (grows hk (omega arith)) [
    | inl (done, both, good, size) ↦ inl (
      done,
      ap (λ t. t ++ []) both
          ∙ append-nil (cells k ++ b)
          ∙ ap (λ t. t ++ b) (sym (append-nil (cells k))),
      (good, tt),
      omega (arith, size),
    )
    | inr (inl (stays, done, same)) ↦ inr (inl (stays, done, ap (λ t. t ∷ []) same))
    | inr (inr (done, same, full)) ↦ inr (inr (done, ap (λ t. t ∷ []) same, inl full))
  ]
  on_last-Extends may change (j ∷ k ∷ ls) b n (hj, hs) fits grows =
      elim (on_last-Extends may change (k ∷ ls) b n hs (omega arith) grows) [
        | inl (done, both, good, size) ↦ inl (
          done,
          ap (λ t. cells j ++ t) both ∙ sym (append_assoc (cells j) (all_cells (k ∷ ls)) b),
          (hj, good),
          omega (arith, size),
        )
        | inr (inl (stays, done, same)) ↦ inr (inl (stays, done, ap (λ t. j ∷ t) same))
        | inr (inr (done, same, full)) ↦ inr (inr (done, ap (λ t. j ∷ t) same, full))
      ]

  merge-LastIs :
      (ls : List Location) (l : Location)
      → IsLocation l
      → LastIs
          (Unit {0})
          (λ k.
            IsLocation k
            → k.size + l.size < max64
            → Grows (Unit {0}) (merge memory l k) k (cells l) l.size)
          ls
  unfolding LastIs Merges
  merge-LastIs [] l h = tt
  merge-LastIs (k ∷ []) l h = λ hk fits. elim (merge-Merges memory k l hk h fits) [
    | inl done ↦ inl done
    | inr (inl (done, same)) ↦ inr (inl (tt, done, same))
    | inr (inr full) ↦ inr (inr full)
  ]
  merge-LastIs (j ∷ k ∷ ls) l h = merge-LastIs (k ∷ ls) l h

  abbrev pub Puts : Origin × Result (Unit {0}) → Origin → List Cell → ℕ → Type 0
  Puts x o b n = Describes x tt (all_cells o.items ++ b) (o.n_bytes + n) ⊎ IsOut memory x o

  -- Where the bytes could not be merged, an item is added.
  added :
      (o : Origin) (l : Location)
      → AreLocations o.items
      → o.n_bytes ≡ total o.items
      → IsLocation l
      → o.n_bytes + l.size < max64
      → ((memory.allocate_array (length o.items) ≡ true)
          ⊎ (memory.allocate_array (length o.items) ≡ false))
      → Puts (put_after memory l o (o.items, ok false)) o (cells l) l.size
  unfolding Describes IsOut IsOrigin AreLocations all_cells total
  added o l locations sum h fits room =
      let size : wrap64 (o.n_bytes + l.size) ≡ o.n_bytes + l.size = omega arith in
      elim room [
        | inl e ↦
            subst (λ t. Puts (if t then grown else (o, err enomem)) o (cells l) l.size) (sym e)
              (inl (
                refl,
                all_cells-append o.items (l ∷ [])
                    ∙ ap (λ b. all_cells o.items ++ b) (append-nil (cells l)),
                (
                  append-AreLocations o.items (l ∷ []) locations (h, tt),
                  omega (arith, size, sum, total-append o.items (l ∷ [])),
                  omega (arith, size),
                ),
                size,
              ))
        | inr e ↦
            subst (λ t. Puts (if t then grown else (o, err enomem)) o (cells l) l.size) (sym e)
              (inr (refl, refl, inr (length o.items, e)))
      ]
    where
      grown : Origin × Result (Unit {0})
      grown = (record { items = o.items ++ (l ∷ []); n_bytes = wrap64 (o.n_bytes + l.size) }, ok tt)

  put_after-Puts :
      (o : Origin) (l : Location) (x : List Location × Result Bool)
      → IsOrigin o
      → IsLocation l
      → o.n_bytes + l.size < max64
      → Extends (Unit {0}) x o.items (cells l) l.size
      → Puts (put_after memory l o x) o (cells l) l.size
  unfolding Extends Describes IsOut IsOrigin
  put_after-Puts o l x (locations, sum, small) h fits e =
      let size : wrap64 (o.n_bytes + l.size) ≡ o.n_bytes + l.size = omega arith in
      elim e [
        | inl (done, both, good, n) ↦
            subst (λ y. Puts y o (cells l) l.size)
              (sym (ap (λ r. put_after memory l o (x.0, r)) done))
              (inl (refl, both, (good, omega (arith, size, sum, n), omega (arith, size)), size))
        | inr (inl (stays, done, same)) ↦
            subst (λ y. Puts y o (cells l) l.size)
              (sym (ap₂ (λ i r. put_after memory l o (i, r)) same done))
              (added o l locations sum h fits (Bool-cases (memory.allocate_array (length o.items))))
        | inr (inr (done, same, full)) ↦
            subst (λ y. Puts y o (cells l) l.size)
              (sym (ap₂ (λ i r. put_after memory l o (i, r)) same done)) (inr (refl, refl, full))
      ]

  -- Putting a location of known size into a well-formed origin, where the sizes together stay below UINT64_MAX,
  -- appends the location's bytes to those that the origin describes and its size to `n_bytes`, and the origin stays
  -- well formed; or memory is refused, and the origin is as it was.
  pub put-Puts :
      (o : Origin) (l : Location)
      → IsOrigin o
      → IsLocation l
      → o.n_bytes + l.size < max64
      → Puts (put memory l o) o (cells l) l.size
  unfolding put IsOrigin Describes all_cells AreLocations total
  put-Puts o l ho h fits =
      let known : (l.size == max64) ≡ false = ground arith in
      elim (Nil-cases o.items) [
        | inl e ↦
            let zero_bytes : o.n_bytes ≡ 0 = ho.1 ∙ ap total e in
            let result : put memory l o ≡ (record { items = l ∷ []; n_bytes = l.size }, ok tt) =
              simp (known, e, put) in
            subst (λ y. Puts y o (cells l) l.size) (sym result)
              (inl (
                refl,
                append-nil (cells l) ∙ ap (λ i. all_cells i ++ cells l) (sym e),
                ((h, tt), omega arith, omega arith),
                omega arith,
              ))
        | inr e ↦
            let result : put memory l o ≡ put_after memory l o (on_last (merge memory l) o.items) =
              simp (known, e, put) in
            subst (λ y. Puts y o (cells l) l.size) (sym result)
              (put_after-Puts o l (on_last (merge memory l) o.items) ho h fits (
                on_last-Extends (Unit {0}) (merge memory l) o.items (cells l) l.size ho.0
                  (omega (arith, ho.1)) (merge-LastIs o.items l h)))
      ]
