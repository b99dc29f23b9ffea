-- ===== src/Origin/Advance.antt =====
-- `ca_origin_advance_items` and `ca_origin_advance_bytes` of src/caorigin.c drop the first bytes.
use casync.Prelude.{
  drop_all, ℕ, zero, suc, ◌+◌, ◌-◌, ◌≤◌, ◌<◌, ◌≡◌, refl, sym, ap, ◌∙◌, subst, List, [], ◌∷◌, ◌++◌,
  length, drop, drop-drop, arith, max64, true, false, ok, err, enomem, Result, ◌⊎◌, inl, inr,
  if◌then◌else◌, ◌==◌, ltb, leb, dec_lt, ℕ_discrete, drop-append,
}
use casync.Action.{continue, ◌>>◌}
use casync.Format.Words.{drop_past}
use casync.Location.{Location, Memory, advance_location}
use casync.Location.Cells.{Cell, cells, length-cells}
use casync.Location.Copies.{IsFull}
use casync.Location.Copies.Change.{Advances, advance_location-Advances}
use casync.Origin.{
  Origin, flush, dropped_bytes, whole_items, sizes_known, advance_items, advance_within, taken,
  before, advance_bytes,
}
use casync.Origin.Cells.{
  all_cells, total, AreLocations, IsOrigin, Refuses, Describes, length-all_cells,
}

-- Where the first `n` bytes end: `left` bytes into the location `l`, before which there are `i` items.
StopsIn : List Location → ℕ → ℕ × ℕ → Type 0
StopsIn ls n (i, left) =
    (l : Location) × (rest : List Location) × (drop i ls ≡ l ∷ rest)
    × (i < length ls)
    × (left < l.size)
    × (n ≡ dropped_bytes i ls + left)
    × (total ls ≡ dropped_bytes i ls + total (l ∷ rest))
    × AreLocations (l ∷ rest)
    × (drop n (all_cells ls) ≡ drop left (all_cells (l ∷ rest)))

drop_first :
    (xs ys : List Cell) (n : ℕ) → length xs ≤ n → drop n (xs ++ ys) ≡ drop (n - length xs) ys
drop_first xs ys n h =
    ap (λ k. drop k (xs ++ ys)) {x = n} {y = length xs + (n - length xs)} (omega arith)
    ∙ sym (drop-drop (n - length xs) (length xs) (xs ++ ys))
    ∙ ap (drop (n - length xs)) (drop_past xs ys (length xs) refl)

sizes_known_lem : (ls : List Location) (n : ℕ) → total ls < max64 → sizes_known ls n ≡ true
unfolding sizes_known total
sizes_known_lem [] n h = refl
sizes_known_lem (l ∷ ls) n h = ground (arith, sizes_known_lem ls (n - l.size) (omega arith))

whole_items-StopsIn :
    (ls : List Location) (n : ℕ)
    → AreLocations ls
    → n < total ls
    → total ls < max64
    → StopsIn ls n (whole_items ls n)
unfolding StopsIn whole_items AreLocations total dropped_bytes all_cells
whole_items-StopsIn [] n hs h small = absurd (omega arith)
whole_items-StopsIn (l ∷ ls) n (hl, hs) h small = elim (dec_lt n l.size) [
  | yes q ↦
      let test : ltb n l.size ≡ true = ground arith in
      subst
        (λ t. StopsIn (l ∷ ls) n (
          if t
          then (0, n)
          else (suc (whole_items ls (n - l.size)).0, (whole_items ls (n - l.size)).1)))
        (sym test) (l, ls, refl, omega arith, q, omega arith, omega arith, (hl, hs), refl)
  | no q ↦
      let test : ltb n l.size ≡ false = ground arith in
      let (k, rest, at, within, inside, sum, all, good, same) =
        whole_items-StopsIn ls (n - l.size) hs (omega arith) (omega arith) in
      subst
        (λ t. StopsIn (l ∷ ls) n (
          if t
          then (0, n)
          else (suc (whole_items ls (n - l.size)).0, (whole_items ls (n - l.size)).1)))
        (sym test)
        (
          k,
          rest,
          at,
          omega arith,
          inside,
          omega arith,
          omega arith,
          good,
          drop_first (cells l) (all_cells ls) n (omega (arith, length-cells l))
              ∙ ap (λ m. drop (n - m) (all_cells ls)) (length-cells l)
              ∙ same,
        )
]

total_first : (l : Location) (rest : List Location) {n : ℕ} → n < l.size → n < total (l ∷ rest)
unfolding total
total_first l rest h = omega arith

advance_items-drop :
    (o : Origin) (i : ℕ)
    → i < length o.items
    → dropped_bytes i o.items < o.n_bytes
    → advance_items i o
      ≡ (record { items = drop i o.items; n_bytes = o.n_bytes - dropped_bytes i o.items }, ok tt)
unfolding advance_items dropped_bytes
advance_items-drop o zero h some_left =
    ap (λ m. (record o { n_bytes = m }, ok tt)) {x = o.n_bytes} {y = o.n_bytes - 0} (omega arith)
advance_items-drop o (suc i) h some_left =
    let dropping : (suc i == 0) ≡ false = ground arith in
    let there : ltb (length o.items) (suc i) ≡ false = ground arith in
    let not_all : (suc i == length o.items) ≡ false = ground arith in
    let enough : leb o.n_bytes (dropped_bytes (suc i) o.items) ≡ false = ground arith in
    simp (dropping, there, not_all, enough, advance_items)

module _ (memory : Memory) where
  -- The first `n` bytes are gone, or memory ran out on the way.
  abbrev pub Drops : Origin × Result (Unit {0}) → Origin → ℕ → Type 0
  Drops x o n =
      Describes x tt (drop n (all_cells o.items)) (o.n_bytes - n)
      ⊎ ((x.1 ≡ err enomem) × Refuses memory)

  advance_nothing : (l : Location) → advance_location memory 0 l ≡ (l, ok false)
  unfolding advance_location
  advance_nothing l = refl

  run_out :
      (o : Origin) (l : Location) (rest : List Location) (n : ℕ)
      → advance_within memory n o ≡ taken n o (before rest (advance_location memory n l))
      → IsFull memory (advance_location memory n l) l
      → ((advance_within memory n o).1 ≡ err enomem) × Refuses memory
  unfolding IsFull
  run_out o l rest n e (out, same, full) = (
    ap (λ x. x.1) e
        ∙ ap (λ r. (taken n o (before rest ((advance_location memory n l).0, r))).1) out,
    inl full,
  )

  -- Within the first item
  advance_within-Drops :
      (o : Origin) (l : Location) (rest : List Location) (n : ℕ)
      → IsOrigin o
      → o.items ≡ l ∷ rest
      → n < l.size
      → Drops (advance_within memory n o) o n
  unfolding advance_within IsOrigin Describes AreLocations all_cells total Advances
  advance_within-Drops o l rest n ho e small =
      let enough : leb o.n_bytes n ≡ false = ground (arith, ho.1, ap total e) in
      let test : ltb n l.size ≡ true = ground arith in
      let all : all_cells o.items ≡ cells l ++ all_cells rest = ap all_cells e in
      let (good, goods) = subst AreLocations e ho.0 in
      let result : advance_within memory n o
          ≡ taken n o (before rest (advance_location memory n l)) =
        simp (enough, e, test, advance_within) in
      elim (ℕ_discrete n 0) [
        | yes z ↦
            subst (λ x. Drops x o n)
              (sym (
                result
                ∙ ap (λ m. taken n o (before rest (advance_location memory m l))) z
                ∙ ap (λ x. taken n o (before rest x)) (advance_nothing l)))
              (inl (
                refl,
                ap (λ m. drop m (cells l ++ all_cells rest)) (sym z) ∙ ap (drop n) (sym all),
                ((good, goods), omega (arith, ho.1, ap total e), omega (arith, ho.2)),
                refl,
              ))
        | no z ↦ elim (advance_location-Advances memory l n good (omega arith) small) [
          | inr full ↦ inr (run_out o l rest n result full)
          | inl (done, bytes, fine, size) ↦
              subst (λ x. Drops x o n)
                (sym (
                  result
                  ∙ ap (λ r. taken n o (before rest ((advance_location memory n l).0, r))) done))
                (inl (
                  refl,
                  ap (λ b. b ++ all_cells rest) bytes
                      ∙ sym
                          (drop-append (cells l) (all_cells rest) n (omega (arith, length-cells l)))
                      ∙ ap (drop n) (sym all),
                  ((fine, goods), omega (arith, ho.1, ap total e, size), omega (arith, ho.2)),
                  refl,
                ))
        ]
      ]

  -- The items that are dropped as a whole, and then the bytes of the next
  advance_some :
      (o : Origin) (n : ℕ)
      → IsOrigin o
      → StopsIn o.items n (whole_items o.items n)
      → Drops
          ((advance_items (whole_items o.items n).0
              >> advance_within memory (whole_items o.items n).1)
            o)
          o
          n
  unfolding IsOrigin Describes StopsIn
  advance_some o n ho (l, rest, at, within, inside, sum, all, good, same) =
      let i = (whole_items o.items n).0 in
      let left = (whole_items o.items n).1 in
      let some_left : dropped_bytes i o.items < o.n_bytes =
        omega (arith, ho.1, all, total_first l rest inside) in
      let first = advance_items-drop o i within some_left in
      let j : Origin = record {
        items = drop i o.items;
        n_bytes = o.n_bytes - dropped_bytes i o.items;
      } in
      subst (λ x. Drops x o n) (sym (ap (λ x. continue x (λ u. advance_within memory left)) first))
        (elim (advance_within-Drops j l rest left
          (
            subst AreLocations (sym at) good,
            omega (arith, ho.1, all, ap total at),
            omega (arith, ho.2),
          )
          at inside) [
            | inl (done, bytes, fine, size) ↦ inl (
              done,
              bytes ∙ ap (λ ls. drop left (all_cells ls)) at ∙ sym same,
              fine,
              omega (arith, size, sum),
            )
            | inr full ↦ inr full
          ])

  -- `ca_origin_advance_bytes` on a well-formed origin, for at most as many bytes as it has: the first `n` bytes that the
  -- origin describes are gone, and it stays well formed; or memory is refused and the result is ENOMEM.
  pub advance_bytes-Drops :
      (o : Origin) (n : ℕ) → IsOrigin o → n ≤ o.n_bytes → Drops (advance_bytes memory n o) o n
  unfolding advance_bytes IsOrigin Describes all_cells AreLocations total
  advance_bytes-Drops o n ho h =
      let there : ltb o.n_bytes n ≡ false = ground arith in
      elim (ℕ_discrete n 0) [
        | yes z ↦
            let test : (n == 0) ≡ true = ground arith in
            let result : advance_bytes memory n o ≡ (o, ok tt) = simp (test, advance_bytes) in
            subst (λ x. Drops x o n) (sym result)
              (inl (refl, ap (λ m. drop m (all_cells o.items)) (sym z), ho, omega arith))
        | no z ↦
            let dropping : (n == 0) ≡ false = ground arith in
            elim (ℕ_discrete n o.n_bytes) [
              | yes e ↦
                  let all : (n == o.n_bytes) ≡ true = ground arith in
                  let result : advance_bytes memory n o ≡ (flush o, ok tt) =
                    simp (dropping, there, all, advance_bytes) in
                  subst (λ x. Drops x o n) (sym result)
                    (inl (
                      refl,
                      sym (
                          drop_all (all_cells o.items) n
                            (omega (arith, length-all_cells o.items, ho.1))),
                      (tt, refl, omega arith),
                      omega arith,
                    ))
              | no e ↦
                  let some_left : (n == o.n_bytes) ≡ false = ground arith in
                  let known : sizes_known o.items n ≡ true =
                    sizes_known_lem o.items n (omega (arith, ho.1, ho.2)) in
                  let result : advance_bytes memory n o
                      ≡ (advance_items (whole_items o.items n).0
                            >> advance_within memory (whole_items o.items n).1)
                          o =
                    simp (dropping, there, some_left, known, advance_bytes) in
                  subst (λ x. Drops x o n) (sym result)
                    (advance_some o n ho (
                      whole_items-StopsIn o.items n ho.0 (omega (arith, ho.1))
                        (omega (arith, ho.1, ho.2))))
            ]
      ]
