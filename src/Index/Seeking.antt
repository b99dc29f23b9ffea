-- ===== src/Index/Seeking.antt =====
-- `ca_index_seek` of src/caindex.c as a whole, against a search through the chunks one after the other.
use casync.Prelude.{
  ℕ, suc, ◌+◌, ◌-◌, ◌*◌, ◌≤◌, ◌<◌, ◌≡◌, refl, sym, ap, subst, List, [], ◌∷◌, arith, length, true,
  false, max64, ok, inl, inr, ltb, if◌then◌else◌, ◌==◌, ◌||◌, dec_lt, ℕ_discrete,
}
use casync.Action.{pure, continue-ok, Action, ◌>>◌}
use casync.Files.{Files, IsRegular}
use casync.Index.{Index}
use casync.Index.Write.{tail_bytes}
use casync.Index.Read.{set_position}
use casync.Index.Seek.{bisect, seek}
use casync.Index.Table.{Entry, end_of, end_of_mono}
use casync.Index.Reading.{IsOpen}
use casync.Index.Positions.{HasTable, set_position-StandsAt}
use casync.Index.BlobSize.{
  IsWhole, sized, with_sizes, get_blob_size-IsWhole, get_total_chunks-sized, read_file_size-sized,
}
use casync.Index.Bisection.{Finds, bisect-Finds}
use casync.Index.Rounds.{IsIn, Leaves}

-- The chunk of an offset: the first whose end is after it
unfoldable pub chunk_at : List Entry → ℕ → ℕ
chunk_at [] offset = 0
chunk_at (c ∷ cs) offset =
    let rest = chunk_at cs (offset - c.size) in if ltb offset c.size then 0 else suc rest

pub chunk_at-IsIn :
    (cs : List Entry) (offset : ℕ)
    → offset < end_of cs (length cs)
    → IsIn cs offset (chunk_at cs offset)
unfolding IsIn end_of chunk_at
chunk_at-IsIn [] offset h = absurd (omega arith)
chunk_at-IsIn (c ∷ cs) offset h = elim (dec_lt offset c.size) [
  | yes q ↦
      let test : ltb offset c.size ≡ true = ground arith in
      subst (λ t. IsIn (c ∷ cs) offset (if t then 0 else suc (chunk_at cs (offset - c.size))))
        (sym test) (omega arith, omega arith, omega arith)
  | no q ↦
      let test : ltb offset c.size ≡ false = ground arith in
      let (l, from, to) = chunk_at-IsIn cs (offset - c.size) (omega arith) in
      subst (λ t. IsIn (c ∷ cs) offset (if t then 0 else suc (chunk_at cs (offset - c.size))))
        (sym test) (omega arith, omega arith, omega arith)
]

module _ {F : Type 0} (files : Files F) (disk : IsRegular files) where
  IsWhole-HasTable :
      (i : Index F) (f : F) (cs : List Entry)
      → IsWhole files disk i f cs
      → HasTable files disk (tail_bytes (56 + 40 * length cs)) i cs
  unfolding IsWhole HasTable
  IsWhole-HasTable i f cs (o, u, v, e, table, fits) = (f, o, e, table)

  HasTable-sized :
      (rest : List ℕ) (i : Index F) (cs : List Entry) (n : ℕ)
      → HasTable files disk rest i cs
      → HasTable files disk rest (sized files disk i n) cs
  unfolding HasTable IsOpen
  HasTable-sized rest i cs n h = h

  -- The first chunk, found without bisection
  first-Finds :
      (rest : List ℕ) (j : Index F) (cs : List Entry) (offset k : ℕ)
      → HasTable files disk rest j cs
      → k ≡ 0
      → Finds files disk rest cs ((set_position files 0 >> pure offset) j) offset k
  unfolding Finds end_of
  first-Finds rest j cs offset k table e =
      let (done, at, stands) =
        set_position-StandsAt files disk rest j cs 0 table (omega arith) (omega arith) in
      subst (Finds files disk rest cs ((set_position files 0 >> pure offset) j) offset) (sym e) (
        subst (λ x. Finds files disk rest cs x offset 0)
          (sym (continue-ok (set_position files 0 j) _ done)) (ap ok (omega arith), at, stands))

  -- What is left to do once the sizes are known
  search_for : ℕ → ℕ → Action (Index F) ℕ
  search_for n offset i =
      (if n == 1 || ltb offset i.chunk_size_min
          then set_position files 0 >> pure offset
          else bisect files n offset 0 (n - 2))
        i

  -- The sizes are found out first; what follows is done with an index that has the same table.
  seek-search_for :
      (i : Index F) (f : F) (n : ℕ) (cs : List Entry) (offset : ℕ)
      → IsWhole files disk i f cs
      → length cs ≡ suc n
      → offset < end_of cs (length cs)
      → (j : Index F) × (seek files offset i ≡ search_for (length cs) offset j)
        × HasTable files disk (tail_bytes (56 + 40 * length cs)) j cs
        × (j.chunk_size_min ≡ i.chunk_size_min)
  unfolding seek search_for
  seek-search_for i f n cs offset h l within =
      let (g, size, e, w) = get_blob_size-IsWhole files disk i f n cs h l in
      let k = with_sizes files disk i g size (end_of cs (length cs)) in
      let small : ltb offset (end_of cs (length cs)) ≡ true = ground arith in
      let chunks : (length cs == 0) ≡ false = ground arith in
      let total =
        get_total_chunks-sized files disk k g (length cs) (unfold IsWhole in w.0)
          (read_file_size-sized files disk k g cs w) in
      (
        sized files disk k (104 + 40 * length cs),
        simp (e, small, total, chunks, seek),
        HasTable-sized (tail_bytes (56 + 40 * length cs)) k cs (104 + 40 * length cs)
            (IsWhole-HasTable k g cs w),
        refl,
      )

  search_for-Finds :
      (rest : List ℕ) (j : Index F) (cs : List Entry) (offset k : ℕ)
      → HasTable files disk rest j cs
      → IsIn cs offset k
      → j.chunk_size_min ≤ end_of cs 1
      → 64 + 40 * length cs < max64
      → Finds files disk rest cs (search_for (length cs) offset j) offset k
  unfolding search_for IsIn Leaves
  search_for-Finds rest j cs offset k table (l, from, to) first fits =
      elim (ℕ_discrete (length cs) 1) [
        | yes p ↦
            let test : (length cs == 1) ≡ true = ground arith in
            subst (λ x. Finds files disk rest cs x offset k) (sym (simp (test, search_for)))
              (first-Finds rest j cs offset k table (omega arith))
        | no p ↦
            let test : (length cs == 1) ≡ false = ground arith in
            elim (dec_lt offset j.chunk_size_min) [
              | yes q ↦
                  let near : ltb offset j.chunk_size_min ≡ true = ground arith in
                  subst (λ x. Finds files disk rest cs x offset k)
                    (sym (simp (test, near, search_for)))
                    (first-Finds rest j cs offset k table (elim (ℕ_discrete k 0) [
                      | yes z ↦ z
                      | no z ↦
                          absurd (omega (arith, end_of_mono cs 1 k (omega arith) (omega arith)))
                    ]))
              | no q ↦
                  let far : ltb offset j.chunk_size_min ≡ false = ground arith in
                  subst (λ x. Finds files disk rest cs x offset k)
                    (sym (simp (test, far, search_for)))
                    (bisect-Finds files disk rest cs fits (length cs) j offset 0 (length cs - 2) k
                      table (l, from, to)
                      (elim (ℕ_discrete k 0) [
                        | yes z ↦ inl (z, refl)
                        | no z ↦ inr (omega arith, omega arith)
                      ])
                      (omega arith) (omega arith) (omega arith))
            ]
      ]

  -- `ca_index_seek` on an open index of a regular file that holds a table of at least one chunk, which knows each of the
  -- file's size and the blob's rightly or not yet, where the first chunk is
  -- not smaller than the smallest size and the offset is inside the blob: it succeeds, stands before the chunk that
  -- `chunk_at` finds by going through the chunks in order, and gives how far the offset is behind that chunk's beginning.
  pub seek-Finds :
      (i : Index F) (f : F) (n : ℕ) (cs : List Entry) (offset : ℕ)
      → IsWhole files disk i f cs
      → length cs ≡ suc n
      → i.chunk_size_min ≤ end_of cs 1
      → offset < end_of cs (length cs)
      → Finds files disk
          (tail_bytes (56 + 40 * length cs))
          cs
          (seek files offset i)
          offset
          (chunk_at cs offset)
  unfolding IsWhole
  seek-Finds i f n cs offset h l first within =
      let (j, e, table, same) = seek-search_for i f n cs offset h l within in
      subst
        (λ x. Finds files disk (tail_bytes (56 + 40 * length cs)) cs x offset (chunk_at cs offset))
        (sym e)
        (search_for-Finds (tail_bytes (56 + 40 * length cs)) j cs offset (chunk_at cs offset) table
          (chunk_at-IsIn cs offset within) (omega (arith, same)) (omega (arith, h.5)))
