-- ===== src/Origin/Concat.antt =====
-- `ca_origin_concat` of src/caorigin.c appends the first bytes of another origin.
use casync.Prelude.{
  ℕ, zero, suc, ◌+◌, ◌-◌, ◌≤◌, ◌<◌, ◌≡◌, refl, sym, ap, ◌∙◌, subst, List, [], ◌∷◌, ◌++◌, length,
  take, append_assoc, append-nil, arith, max64, Bool, true, false, ok, err, enomem, Result, ◌⊎◌,
  inl, inr, if◌then◌else◌, ◌==◌, ltb, dec_lt, take-append_le, take-append_ge,
}
use casync.Action.{Action, continue, continue-ok, pure}
use casync.Location.{Location, Memory, patch_size}
use casync.Location.Cells.{Cell, cells, IsLocation, length-cells}
use casync.Location.Copies.{IsFull, below}
use casync.Location.Copies.Change.{patch_size-first}
use casync.Origin.{Origin, put, put_bytes, put_all, concat}
use casync.Origin.Cells.{all_cells, total, AreLocations, IsOrigin, IsOut, Refuses, Describes}
use casync.Origin.Put.{Puts, put-Puts}

has_items : (ls : List Location) → 0 < total ls → (length ls == 0) ≡ false
unfolding total
has_items [] h = absurd (omega arith)
has_items (l ∷ ls) h = ground arith

not_max : (l : Location) → IsLocation l → (l.size == max64) ≡ false
not_max l h = ground (arith, below l h)

module _ (memory : Memory) where
  -- The bytes were appended, or memory ran out on the way.
  abbrev pub Adds : {A : Type 0} → Origin × Result A → A → Origin → List Cell → ℕ → Type 0
  Adds x a o b n =
      Describes x a (all_cells o.items ++ b) (o.n_bytes + n) ⊎ ((x.1 ≡ err enomem) × Refuses memory)

  -- One after the other
  Adds-then :
      (x : Origin × Result (Unit {0})) (f : Unit {0} → Action Origin (Unit {0})) (o : Origin)
      (b c : List Cell) (m n : ℕ)
      → Puts memory x o b m
      → (IsOrigin x.0 → (x.0.n_bytes ≡ o.n_bytes + m) → Adds (f tt x.0) tt x.0 c n)
      → Adds (continue x f) tt o (b ++ c) (m + n)
  unfolding Describes IsOut
  Adds-then x f o b c m n h next = elim h [
    | inr (out, same, full) ↦ inr (ap (λ r. (continue (x.0, r) f).1) out, full)
    | inl (done, bytes, good, size) ↦
        let e = continue-ok x f done in
        subst (λ y. Adds y tt o (b ++ c) (m + n)) (sym e)
          (elim (next good size) [
            | inr out ↦ inr out
            | inl (done2, bytes2, good2, size2) ↦ inl (
              done2,
              bytes2 ∙ ap (λ t. t ++ c) bytes ∙ append_assoc (all_cells o.items) b c,
              good2,
              omega (arith, size2, size),
            )
          ])
  ]

  put_all-Adds :
      (ls : List Location) (o : Origin)
      → IsOrigin o
      → AreLocations ls
      → o.n_bytes + total ls < max64
      → Adds (put_all memory ls o) tt o (all_cells ls) (total ls)
  unfolding put_all Describes AreLocations all_cells total
  put_all-Adds [] o ho hs fits = inl (refl, sym (append-nil (all_cells o.items)), ho, omega arith)
  put_all-Adds (l ∷ ls) o ho (h, hs) fits =
      let known : (l.size == max64) ≡ false = not_max l h in
      let start : put_all memory (l ∷ ls) o ≡ continue (put memory l o) (λ u. put_all memory ls) =
        simp (known, put_all) in
      subst (λ y. Adds y tt o (cells l ++ all_cells ls) (l.size + total ls)) (sym start)
        (Adds-then (put memory l o) (λ u. put_all memory ls) o (cells l) (all_cells ls) l.size
          (total ls) (put-Puts memory o l ho h (omega arith))
          (λ good size. put_all-Adds ls (put memory l o).0 good hs (omega (arith, size))))

  -- The last of the locations, cut
  put_cut-Adds :
      (l : Location) (ls : List Location) (n : ℕ) (o : Origin)
      → IsOrigin o
      → IsLocation l
      → 0 < n
      → n < l.size
      → o.n_bytes + n < max64
      → Adds (put_bytes memory (l ∷ ls) n o) tt o (take n (cells l)) n
  unfolding put_bytes IsFull Describes IsOut
  put_cut-Adds l ls n o ho h positive small fits =
      let known : (l.size == max64) ≡ false = not_max l h in
      let test : ltb n l.size ≡ true = ground arith in
      elim (patch_size-first memory false l n h positive small) [
        | inr (done, same, full) ↦
            let start : (put_bytes memory (l ∷ ls) n o).1 ≡ err enomem =
              simp (known, test, done, put_bytes) in
            inr (start, inl full)
        | inl (done, first, good, size) ↦
            let j = (patch_size memory false n l).0 in
            let over : (n - j.size == 0) ≡ true = ground (arith, size) in
            let start : put_bytes memory (l ∷ ls) n o ≡ continue (put memory j o) (λ u. pure tt) =
              simp (known, test, done, over, put_bytes) in
            subst (λ y. Adds y tt o (take n (cells l)) n) (sym start)
              (subst (λ b. Adds (continue (put memory j o) (λ u. pure tt)) tt o b n)
                (append-nil (cells j) ∙ first)
                (subst (λ m. Adds (continue (put memory j o) (λ u. pure tt)) tt o (cells j ++ []) m)
                  {x = j.size + 0} {y = n} (omega (arith, size))
                  (Adds-then (put memory j o) (λ u. pure tt) o (cells j) [] j.size 0
                    (put-Puts memory o j ho good (omega (arith, size)))
                    (λ good2 size2. inl (
                      refl,
                      sym (append-nil (all_cells (put memory j o).0.items)),
                      good2,
                      omega arith,
                    )))))
      ]

  unless_done :
      (ls : List Location) (n : ℕ) (o : Origin)
      → IsOrigin o
      → (0 < n → Adds (put_bytes memory ls n o) tt o (take n (all_cells ls)) n)
      → Adds ((if n == 0 then pure tt else put_bytes memory ls n) o) tt o (take n (all_cells ls)) n
  unfolding Describes
  unless_done ls zero o ho next = inl (refl, sym (append-nil (all_cells o.items)), ho, omega arith)
  unless_done ls (suc n) o ho next =
      let test : (suc n == 0) ≡ false = ground arith in
      subst
        (λ t.
          Adds ((if t then pure tt else put_bytes memory ls (suc n)) o) tt o
            (take (suc n) (all_cells ls)) (suc n))
        (sym test) (next (omega arith))

  -- The result, once the loop is done
  finish :
      (x : Origin × Result (Unit {0})) (r : Bool) (o : Origin) (b : List Cell) (n : ℕ)
      → r ≡ true
      → Adds x tt o b n
      → Adds (continue x (λ u. pure r)) true o b n
  unfolding Describes
  finish x r o b n e h = elim h [
    | inr (out, full) ↦ inr (ap (λ t. (continue (x.0, t) (λ u. pure r)).1) out, full)
    | inl (done, bytes, good, size) ↦
        subst (λ y. Adds y true o b n) (sym (continue-ok x (λ u. pure r) done))
          (inl (ap ok e, bytes, good, size))
  ]

  put_bytes-Adds :
      (ls : List Location) (n : ℕ) (o : Origin)
      → IsOrigin o
      → AreLocations ls
      → 0 < n
      → n ≤ total ls
      → o.n_bytes + n < max64
      → Adds (put_bytes memory ls n o) tt o (take n (all_cells ls)) n
  unfolding AreLocations all_cells total put_bytes Describes
  put_bytes-Adds [] n o ho hs positive within fits = absurd (omega arith)
  put_bytes-Adds (l ∷ ls) n o ho (h, hs) positive within fits = elim (dec_lt n l.size) [
    | yes q ↦
        subst (λ b. Adds (put_bytes memory (l ∷ ls) n o) tt o b n)
          (sym (take-append_le (cells l) (all_cells ls) n (omega (arith, length-cells l))))
          (put_cut-Adds l ls n o ho h positive q fits)
    | no q ↦
        let known : (l.size == max64) ≡ false = not_max l h in
        let test : ltb n l.size ≡ false = ground arith in
        let more = (λ (u : Unit {0}).
          if n - l.size == 0 then pure tt else put_bytes memory ls (n - l.size)) in
        let start : put_bytes memory (l ∷ ls) n o ≡ continue (put memory l o) more =
          simp (known, test, put_bytes) in
        let split : take n (cells l ++ all_cells ls) ≡ cells l ++ take (n - l.size) (all_cells ls) =
          take-append_ge (cells l) (all_cells ls) n (omega (arith, length-cells l))
          ∙ ap (λ m. cells l ++ take (n - m) (all_cells ls)) (length-cells l) in
        subst (λ y. Adds y tt o (take n (cells l ++ all_cells ls)) n) (sym start)
          (subst (λ b. Adds (continue (put memory l o) more) tt o b n) (sym split)
            (subst
              (λ m.
                Adds (continue (put memory l o) more) tt o
                  (cells l ++ take (n - l.size) (all_cells ls)) m)
              {x = l.size + (n - l.size)} {y = n} (omega arith)
              (Adds-then (put memory l o) more o (cells l) (take (n - l.size) (all_cells ls)) l.size
                (n - l.size) (put-Puts memory o l ho h (omega arith))
                (λ good size. unless_done ls (n - l.size) (put memory l o).0 good (λ p.
                  put_bytes-Adds ls (n - l.size) (put memory l o).0 good hs p (omega arith)
                    (omega (arith, size)))))))
  ]

  -- Appending `n` bytes of a well-formed origin to a well-formed one, where `n` is not 0, the other has as many and
  -- `n_bytes` stays below UINT64_MAX: the result is 1 and the first `n` bytes that the other origin describes come after
  -- those of the first, which stays well formed; or memory is refused and the result is ENOMEM.
  pub concat-Adds :
      (o other : Origin) (n : ℕ)
      → IsOrigin o
      → IsOrigin other
      → 0 < n
      → n ≤ other.n_bytes
      → o.n_bytes + n < max64
      → Adds (concat memory other n o) true o (take n (all_cells other.items)) n
  unfolding concat IsOrigin Describes
  concat-Adds o other n ho hs positive within fits =
      let some_bytes : (n == 0) ≡ false = ground arith in
      let known : (n == max64) ≡ false = ground arith in
      let enough : ltb other.n_bytes n ≡ false = ground arith in
      let filled : (length other.items == 0) ≡ false =
        has_items other.items (omega (arith, hs.1)) in
      let result : concat memory other n o
          ≡ continue (put_bytes memory other.items n o) (λ u. pure true) =
        simp (some_bytes, known, enough, filled, concat) in
      subst (λ y. Adds y true o (take n (all_cells other.items)) n) (sym result)
        (finish (put_bytes memory other.items n o) true o (take n (all_cells other.items)) n refl
          (put_bytes-Adds other.items n o ho hs.0 positive (omega (arith, hs.1)) fits))

  pub concat-Adds_all :
      (o other : Origin)
      → IsOrigin o
      → IsOrigin other
      → 0 < other.n_bytes
      → o.n_bytes + other.n_bytes < max64
      → Adds (concat memory other max64 o) true o (all_cells other.items) other.n_bytes
  unfolding concat IsOrigin Describes
  concat-Adds_all o other ho hs some_bytes fits =
      let filled : (length other.items == 0) ≡ false =
        has_items other.items (omega (arith, hs.1)) in
      let result : concat memory other max64 o
          ≡ continue (put_all memory other.items o) (λ u. pure true) =
        simp (filled, concat) in
      subst (λ y. Adds y true o (all_cells other.items) other.n_bytes) (sym result)
        (finish (put_all memory other.items o) true o (all_cells other.items) other.n_bytes refl (
          subst (Adds (put_all memory other.items o) tt o (all_cells other.items)) (sym hs.1)
            (put_all-Adds other.items o ho hs.0 (omega (arith, hs.1)))))
