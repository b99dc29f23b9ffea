-- ===== src/Origin/Put/Void.antt =====
-- `ca_origin_put_void` of src/caorigin.c appends bytes of no known origin.
use casync.Prelude.{
  ℕ, ◌+◌, ◌<◌, ◌≡◌, none, refl, sym, ap, ap₂, subst, List, [], ◌∷◌, arith, max64, wrap64, Bool,
  true, false, err, enomem, Result, inl, inr, Bool-cases, replicate, ◌==◌,
}
use casync.Location.{Location, Memory, patch_size, new_location, is_void, void, made}
use casync.Location.Cells.{unknown, cells_void, IsLocation}
use casync.Location.Copies.{new_location-made}
use casync.Location.Copies.Change.{patch_size-void}
use casync.Origin.{Origin, on_last, put, put_made, put_void, extended, ends_void}
use casync.Origin.Cells.{IsOrigin, IsOut, Describes}
use casync.Origin.Put.{LastIs, Grows, Extends, on_last-Extends, Puts, put-Puts}

module _ (memory : Memory) where
  -- More of unknown bytes
  patch_size-Grows :
      (k : Location) (n : ℕ)
      → is_void k.designator ≡ true
      → 0 < n
      → IsLocation k
      → k.size + n < max64
      → Grows memory ⊥
          (patch_size memory (memory.sole k) (wrap64 (k.size + n)) k)
          k
          (replicate n unknown)
          n
  patch_size-Grows k n v positive hk fits =
      let size : wrap64 (k.size + n) ≡ k.size + n = omega arith in
      subst (λ m. Grows memory ⊥ (patch_size memory (memory.sole k) m k) k (replicate n unknown) n)
        (sym size)
        (elim (patch_size-void memory (memory.sole k) k n v hk positive fits) [
          | inl done ↦ inl done
          | inr full ↦ inr (inr full)
        ])

  void-LastIs :
      (ls : List Location) (n : ℕ)
      → ends_void ls ≡ true
      → 0 < n
      → LastIs ⊥
          (λ k.
            IsLocation k
            → k.size + n < max64
            → Grows memory ⊥
                (patch_size memory (memory.sole k) (wrap64 (k.size + n)) k)
                k
                (replicate n unknown)
                n)
          ls
  unfolding LastIs
  void-LastIs [] n v p = absurd (ground arith)
  void-LastIs (k ∷ []) n v p = patch_size-Grows k n v p
  void-LastIs (j ∷ k ∷ ls) n v p = void-LastIs (k ∷ ls) n v p

  extended-Puts :
      (o : Origin) (n : ℕ) (x : List Location × Result Bool)
      → IsOrigin o
      → o.n_bytes + n < max64
      → Extends memory ⊥ x o.items (replicate n unknown) n
      → Puts memory (extended n o x) o (replicate n unknown) n
  unfolding Extends Describes IsOut IsOrigin
  extended-Puts o n x (locations, sum, small) fits e =
      let size : wrap64 (o.n_bytes + n) ≡ o.n_bytes + n = omega arith in
      elim e [
        | inl (done, both, good, more) ↦
            subst (λ y. Puts memory y o (replicate n unknown) n)
              (sym (ap (λ r. extended n o (x.0, r)) done))
              (inl (refl, both, (good, omega (arith, size, sum, more), omega (arith, size)), size))
        | inr (inl (stays, done, same)) ↦ absurd stays
        | inr (inr (done, same, full)) ↦
            subst (λ y. Puts memory y o (replicate n unknown) n)
              (sym (ap₂ (λ i r. extended n o (i, r)) same done)) (inr (refl, refl, full))
      ]

  made_void : (n : ℕ) → 0 < n → n < max64 → IsLocation (made none void 0 n)
  unfolding IsLocation
  made_void n positive small = (positive, omega arith, λ v. (refl, refl))

  no_object :
      (o : Origin) (n : ℕ) (l : Location)
      → memory.allocate l ≡ false
      → Puts memory (put_made memory (err enomem) o) o (replicate n unknown) n
  unfolding IsOut
  no_object o n l full = inr (refl, refl, inl (l, full))

  -- Putting bytes of no known origin
  pub put_void-Puts :
      (o : Origin) (n : ℕ)
      → IsOrigin o
      → 0 < n
      → o.n_bytes + n < max64
      → Puts memory (put_void memory n o) o (replicate n unknown) n
  unfolding put_void IsOrigin
  put_void-Puts o n ho positive fits =
      let some_bytes : (n == 0) ≡ false = ground arith in
      elim (Bool-cases (ends_void o.items)) [
        | inl v ↦
            let result : put_void memory n o
                ≡ extended n o (
                    on_last (λ l. patch_size memory (memory.sole l) (wrap64 (l.size + n)) l)
                      o.items) =
              simp (some_bytes, v, put_void) in
            subst (λ y. Puts memory y o (replicate n unknown) n) (sym result)
              (extended-Puts o n _ ho fits (
                on_last-Extends memory ⊥ _ o.items (replicate n unknown) n ho.0
                  (omega (arith, ho.1)) (void-LastIs o.items n v positive)))
        | inr v ↦
            let result : put_void memory n o
                ≡ put_made memory (new_location memory none void 0 n) o =
              simp (some_bytes, v, put_void) in
            subst (λ y. Puts memory y o (replicate n unknown) n) (sym result)
              (elim (new_location-made memory none void 0 n positive (omega arith) (λ e. refl)) [
                | inl e ↦
                    subst (λ r. Puts memory (put_made memory r o) o (replicate n unknown) n) (sym e)
                      (subst (λ b. Puts memory (put memory (made none void 0 n) o) o b n)
                        (cells_void (made none void 0 n) refl)
                        (put-Puts memory o (made none void 0 n) ho
                          (made_void n positive (omega arith)) fits))
                | inr (e, full) ↦
                    subst (λ r. Puts memory (put_made memory r o) o (replicate n unknown) n) (sym e)
                      (no_object o n (made none void 0 n) full)
              ])
      ]
