-- ===== src/Index/Bisection.antt =====
-- The bisection of `ca_index_seek` in src/caindex.c, on an index whose file has a table.
use casync.Prelude.{
  ℕ, zero, suc, ◌+◌, ◌-◌, ◌*◌, ◌≤◌, ◌<◌, ◌≡◌, refl, sym, subst, List, arith, length, max64, ok,
  Result, inl, inr, drop,
}
use casync.Action.{continue-ok}
use casync.Files.{Files, IsRegular}
use casync.Index.{Index}
use casync.Index.Seek.{round, bisect}
use casync.Index.Table.{Entry, end_of}
use casync.Index.Positions.{HasTable, StandsAt}
use casync.Index.Rounds.{IsIn, Leaves, FindsIn, Narrows, round-lem}

module _ {F : Type 0} (files : Files F) (disk : IsRegular files) (rest : List ℕ)
    (cs : List Entry) where
  -- The call gives how far the offset is in the `k`th chunk, and the index stands before that chunk.
  unfoldable pub Finds : Index F × Result ℕ → ℕ → ℕ → Type 0
  Finds x offset k =
      (x.1 ≡ ok (offset - end_of cs k))
      × (x.0.item_position ≡ k)
      × StandsAt files disk rest x.0 cs (end_of cs k) (drop k cs)

  module _ (fits : 64 + 40 * length cs < max64) where
    -- The loop of `ca_index_seek` on an index whose regular file has the table of `cs`, where the offset is in the `k`th
    -- chunk, that chunk is the first one and the left bound is 0, or it comes after one of the chunks from `left` to `right`, and there
    -- is a chunk after the right bound: with more rounds than `right - left` it ends at the chunk, with the offset's distance
    -- from its beginning.
    pub bisect-Finds :
        (rounds : ℕ) (i : Index F) (offset left right k : ℕ)
        → HasTable files disk rest i cs
        → IsIn cs offset k
        → Leaves left right k
        → left ≤ right
        → suc right < length cs
        → right - left < rounds
        → Finds (bisect files rounds offset left right i) offset k
    unfolding bisect Finds FindsIn Narrows
    bisect-Finds zero i offset left right k table h within le fit enough = absurd (omega arith)
    bisect-Finds (suc rounds) i offset left right k table h within le fit enough =
        elim (round-lem files disk rest cs fits i offset left right k table h within le fit) [
          | inl (done, at, stands) ↦
              subst (λ x. Finds x offset k)
                (sym (continue-ok (round files offset left right i) _ done)) (refl, at, stands)
          | inr (l, r, done, again, a, b, c, d) ↦
              subst (λ x. Finds x offset k)
                (sym (continue-ok (round files offset left right i) _ done))
                (bisect-Finds rounds (round files offset left right i).0 offset l r k again h d a
                  (omega arith) (omega arith))
        ]
