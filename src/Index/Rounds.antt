-- ===== src/Index/Rounds.antt =====
-- One round of the bisection of `ca_index_seek` in src/caindex.c: it finds the chunk, or brings the bounds closer.
use casync.Prelude.{
  ℕ, suc, ◌+◌, ◌-◌, ◌*◌, ◌/◌, ◌≤◌, ◌<◌, ◌≡◌, refl, sym, ap, ◌∙◌, subst, List, arith, length, true,
  false, max64, wrap64, ok, Result, ◌⊎◌, inl, inr, drop, ltb, leb, if◌then◌else◌, ◌==◌, dec_lt,
  dec_le, ℕ_discrete, Bool,
}
use casync.Action.{continue-ok, Action}
use casync.Files.{Files, IsRegular}
use casync.Index.{Index}
use casync.Index.Read.{Chunk, read_chunk, set_position}
use casync.Index.Seek.{Round, found, closer, middle, found_at, go_left, go_right, round}
use casync.Index.Table.{Entry, end_of, end_of-drop, end_of_mono}
use casync.Index.Positions.{
  HasTable, StandsAt, StandsAt-HasTable, set_position-StandsAt, read_chunk-StandsAt,
}

-- The offset is in the `k`th chunk.
unfoldable pub IsIn : List Entry → ℕ → ℕ → Type 0
IsIn cs offset k = (k < length cs) × (end_of cs k ≤ offset) × (offset < end_of cs (suc k))

-- What the bounds of the loop leave: the chunk is the first, or it is the one after one of the chunks from `left` to `right`.
unfoldable pub Leaves : ℕ → ℕ → ℕ → Type 0
Leaves left right k = ((k ≡ 0) × (left ≡ 0)) ⊎ ((left < k) × (k ≤ suc right))

pub middle_lem :
    (left right : ℕ) → left ≤ right → right < max64 → middle left right ≡ left + (right - left) / 2
middle_lem left right h l = omega arith

-- An offset before the end of the chunk at `p` is not in a later one, and one not before it is in a later one.
before_lem :
    (cs : List Entry) (offset k p : ℕ)
    → IsIn cs offset k
    → p < length cs
    → offset < end_of cs (suc p)
    → k ≤ p
unfolding IsIn
before_lem cs offset k p (l, from, to) h b = elim (dec_lt p k) [
  | yes q ↦ absurd (omega (arith, end_of_mono cs (suc p) k (omega arith) (omega arith)))
  | no q ↦ omega arith
]

after_lem :
    (cs : List Entry) (offset k p : ℕ)
    → IsIn cs offset k
    → p < length cs
    → end_of cs (suc p) ≤ offset
    → p < k
unfolding IsIn
after_lem cs offset k p (l, from, to) h b = elim (dec_lt p k) [
  | yes q ↦ q
  | no q ↦ absurd (omega (arith, end_of_mono cs (suc k) (suc p) (omega arith) (omega arith)))
]

module _ {F : Type 0} (files : Files F) (disk : IsRegular files) (rest : List ℕ)
    (cs : List Entry) where
  -- The same of a round
  unfoldable pub FindsIn : Index F × Result Round → ℕ → ℕ → Type 0
  FindsIn x offset k =
      (x.1 ≡ ok (found (offset - end_of cs k)))
      × (x.0.item_position ≡ k)
      × StandsAt files disk rest x.0 cs (end_of cs k) (drop k cs)

  -- A round that brings the bounds closer
  unfoldable pub Narrows : Index F × Result Round → ℕ → ℕ → ℕ → Type 0
  Narrows x left right k =
      (l r : ℕ) × (x.1 ≡ ok (closer l r))
      × HasTable files disk rest x.0 cs
      × (l ≤ r)
      × (r ≤ right)
      × (r - l < right - left)
      × Leaves l r k

  abbrev Outcome : Index F × Result Round → ℕ → ℕ → ℕ → ℕ → Type 0
  Outcome x offset left right k = FindsIn x offset k ⊎ Narrows x left right k

  module _ (fits : 64 + 40 * length cs < max64) where
    found_at-FindsIn :
        (j : Index F) (k offset skip : ℕ)
        → HasTable files disk rest j cs
        → k < length cs
        → skip ≡ offset - end_of cs k
        → FindsIn (found_at files k skip j) offset k
    unfolding FindsIn
    found_at-FindsIn j k offset skip table l e =
        let (done, at, stands) =
          set_position-StandsAt files disk rest j cs k table (omega arith) (omega arith) in
        subst (λ x. FindsIn x offset k) (sym (continue-ok (set_position files k j) _ done))
          (ap (λ n. ok (found n)) e, at, stands)

    -- A read where chunks are left
    next_end :
        (i : Index F) (k : ℕ)
        → StandsAt files disk rest i cs (end_of cs k) (drop k cs)
        → k < length cs
        → (c : Bool × Chunk) × ((read_chunk files i).1 ≡ ok c)
          × (c.1.offset_end ≡ end_of cs (suc k))
          × StandsAt files disk rest (read_chunk files i).0 cs (end_of cs (suc k)) (drop (suc k) cs)
    next_end i k stands l =
        let (c, e, n) = end_of-drop k cs l in
        let (got, next) =
          read_chunk-StandsAt files disk rest i cs (end_of cs k) c (drop (suc k) cs)
            (subst (StandsAt files disk rest i cs (end_of cs k)) e stands) in
        (
          _,
          got,
          sym n,
          subst (λ m. StandsAt files disk rest (read_chunk files i).0 cs m (drop (suc k) cs))
              (sym n) next,
        )

    -- What a round does with the end of the chunk in the middle
    decide_end : ℕ → ℕ → ℕ → ℕ → ℕ → Action (Index F) Round
    decide_end offset left right p first =
        if ltb offset first
        then go_left files offset left right p
        else go_right files offset right p first

    round-decide_end :
        (i : Index F) (offset left right : ℕ)
        → HasTable files disk rest i cs
        → middle left right < length cs
        → (j : Index F) × (round files offset left right i
            ≡ decide_end offset left right
                (middle left right)
                (end_of cs (suc (middle left right)))
                j)
          × StandsAt files disk rest j cs
              (end_of cs (suc (middle left right)))
              (drop (suc (middle left right)) cs)
    unfolding round decide_end
    round-decide_end i offset left right table l =
        let p = middle left right in
        let (done, at, stands) =
          set_position-StandsAt files disk rest i cs p table (omega arith) (omega arith) in
        let (c, got, e, next) = next_end (set_position files p i).0 p stands l in
        let j = (read_chunk files (set_position files p i).0).0 in
        (
          j,
          continue-ok (set_position files p i) _ done
              ∙ continue-ok (read_chunk files (set_position files p i).0) _ got
              ∙ ap (λ m. decide_end offset left right p m j) e,
          next,
        )

    go_left-lem :
        (j : Index F) (offset left right k p : ℕ)
        → HasTable files disk rest j cs
        → IsIn cs offset k
        → Leaves left right k
        → k ≤ p
        → left ≤ p
        → p ≤ right
        → (left < right → p < right)
        → Outcome (go_left files offset left right p j) offset left right k
    unfolding go_left IsIn Leaves Narrows end_of
    go_left-lem j offset left right k p table (l, from, to) within h a b c = elim (ℕ_discrete p 0) [
      | yes z ↦
          let first : k ≡ 0 = omega arith in
          let test : (p == 0) ≡ true = ground arith in
          inl (
            subst (λ x. FindsIn x offset k) (sym (simp (test, go_left)))
              (subst (FindsIn (found_at files 0 offset j) offset) (sym first)
                (found_at-FindsIn j 0 offset offset table (omega arith) (omega arith))))
      | no z ↦
          let done : go_left files offset left right p j ≡ (j, ok (closer left p)) = ground arith in
          inr (
            left,
            p,
            ap (λ x. x.1) done,
            subst (λ x. HasTable files disk rest x cs) (sym (ap (λ x. x.0) done)) table,
            a,
            b,
            ground arith,
            ground arith,
          )
    ]

    go_right-lem :
        (j : Index F) (offset left right k p : ℕ)
        → StandsAt files disk rest j cs (end_of cs (suc p)) (drop (suc p) cs)
        → IsIn cs offset k
        → Leaves left right k
        → p < k
        → left ≤ p
        → p ≤ right
        → suc right < length cs
        → Outcome (go_right files offset right p (end_of cs (suc p)) j) offset left right k
    unfolding go_right IsIn Leaves Narrows
    go_right-lem j offset left right k p stands (l, from, to) within h a b fit =
        let (c, got, e, next) = next_end j (suc p) stands (omega arith) in
        let j2 = (read_chunk files j).0 in
        let table = StandsAt-HasTable files disk rest j2 cs _ _ next in
        let up : wrap64 (p + 1) ≡ suc p = omega arith in
        elim (dec_le (end_of cs (suc (suc p))) offset) [
          | yes q ↦
              let later = after_lem cs offset k (suc p) (l, from, to) (omega arith) q in
              let test : leb (end_of cs (suc (suc p))) offset ≡ true = ground arith in
              let done : go_right files offset right p (end_of cs (suc p)) j
                  ≡ (j2, ok (closer (suc p) right)) =
                continue-ok (read_chunk files j) _ got ∙ simp (e, test, up) in
              inr (
                suc p,
                right,
                ap (λ x. x.1) done,
                subst (λ x. HasTable files disk rest x cs) (sym (ap (λ x. x.0) done)) table,
                omega arith,
                omega arith,
                omega arith,
                inr (later, omega arith),
              )
          | no q ↦
              let earlier =
                before_lem cs offset k (suc p) (l, from, to) (omega arith) (omega arith) in
              let test : leb (end_of cs (suc (suc p))) offset ≡ false = ground arith in
              let here : k ≡ suc p = omega arith in
              let done : go_right files offset right p (end_of cs (suc p)) j
                  ≡ found_at files (suc p) (offset - end_of cs (suc p)) j2 =
                continue-ok (read_chunk files j) _ got ∙ simp (e, test, up) in
              inl (
                subst (λ x. FindsIn x offset k) (sym done)
                  (subst (λ n. FindsIn (found_at files n (offset - end_of cs n) j2) offset k) here
                    (found_at-FindsIn j2 k offset (offset - end_of cs k) table l refl)))
        ]

    pub round-lem :
        (i : Index F) (offset left right k : ℕ)
        → HasTable files disk rest i cs
        → IsIn cs offset k
        → Leaves left right k
        → left ≤ right
        → suc right < length cs
        → Outcome (round files offset left right i) offset left right k
    unfolding decide_end
    round-lem i offset left right k table h within le fit =
        let p = middle left right in
        let middle_le = middle_lem left right le (omega arith) in
        let (j, step, stands) =
          round-decide_end i offset left right table (omega (arith, middle_le)) in
        subst (λ x. Outcome x offset left right k) (sym step)
          (elim (dec_lt offset (end_of cs (suc p))) [
            | yes q ↦
                let test : ltb offset (end_of cs (suc p)) ≡ true = ground arith in
                subst
                  (λ t.
                    Outcome
                      ((if t
                          then go_left files offset left right p
                          else go_right files offset right p (end_of cs (suc p)))
                        j)
                      offset left right k)
                  (sym test)
                  (go_left-lem j offset left right k p
                    (StandsAt-HasTable files disk rest j cs _ _ stands) h within
                    (before_lem cs offset k p h (omega (arith, middle_le)) q)
                    (omega (arith, middle_le)) (omega (arith, middle_le))
                    (λ lt. omega (arith, middle_le)))
            | no q ↦
                let test : ltb offset (end_of cs (suc p)) ≡ false = ground arith in
                subst
                  (λ t.
                    Outcome
                      ((if t
                          then go_left files offset left right p
                          else go_right files offset right p (end_of cs (suc p)))
                        j)
                      offset left right k)
                  (sym test)
                  (go_right-lem j offset left right k p stands h within
                    (after_lem cs offset k p h (omega (arith, middle_le)) (omega arith))
                    (omega (arith, middle_le)) (omega (arith, middle_le)) fit)
          ])
