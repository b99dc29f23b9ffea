-- ===== src/Index/Head.antt =====
-- The header of an index, written and read back by `ca_index_open` of src/caindex.c.
use casync.Prelude.{
  ℕ, ◌≤◌, ◌<◌, ◌≡◌, refl, List, [], ◌∷◌, some, arith, length, append-nil, get_elem?, true, max64,
  ok, subst,
}
use casync.Format.{words}
use casync.Format.Words.{u64-words, length-words}
use casync.ChunkId.{u64}
use casync.Features.{are_normalized}
use casync.Index.{Index, head_bytes, check_head, in_limits}

pub length-head_bytes : {F : Type 0} (i : Index F) → length (head_bytes i) ≡ 64
unfolding head_bytes
length-head_bytes i = length-words _

-- Sizes that a header may have, and flags that are normalized
unfoldable pub HasSizes : {F : Type 0} → Index F → Type 0
HasSizes i =
    (1 ≤ i.chunk_size_min)
    × (i.chunk_size_min ≤ i.chunk_size_avg)
    × (i.chunk_size_avg ≤ i.chunk_size_max)
    × (i.chunk_size_max ≤ 134217728)
    × (i.feature_flags < max64)
    × (are_normalized i.feature_flags ≡ ok true)

words_of : {F : Type 0} → Index F → List ℕ
words_of i =
    48 ∷ 10845316187136630777 ∷ i.feature_flags ∷ i.chunk_size_min ∷ i.chunk_size_avg
    ∷ i.chunk_size_max ∷ max64 ∷ 16671092242283708797 ∷ []

unfoldable pub HeadSays : {F : Type 0} → Index F → List ℕ → Type 0
HeadSays i b =
    (u64 b 0 ≡ 48)
    × (u64 b 1 ≡ 10845316187136630777)
    × (u64 b 2 ≡ i.feature_flags)
    × (u64 b 3 ≡ i.chunk_size_min)
    × (u64 b 4 ≡ i.chunk_size_avg)
    × (u64 b 5 ≡ i.chunk_size_max)
    × (u64 b 6 ≡ max64)
    × (u64 b 7 ≡ 16671092242283708797)

pub head_bytes-HeadSays : {F : Type 0} (i : Index F) → HasSizes i → HeadSays i (head_bytes i)
unfolding HeadSays HasSizes head_bytes words_of
head_bytes-HeadSays i (a, b, c, d, e, n) = (
  word 0 refl (omega arith),
  word 1 refl (omega arith),
  word 2 refl (omega arith),
  word 3 refl (omega arith),
  word 4 refl (omega arith),
  word 5 refl (omega arith),
  word 6 refl (omega arith),
  word 7 refl (omega arith),
)
  where
    word :
        (k : ℕ) {x : ℕ}
        → get_elem? (words_of i) k ≡ some x
        → x < 18446744073709551616
        → u64 (words (words_of i)) k ≡ x
    word k {x = x} p l =
        subst (λ z. u64 z k ≡ x) (append-nil (words (words_of i))) (u64-words (words_of i) [] k p l)

-- A header that was written passes the checks of the reader.
pub check_head-head_bytes :
    {F : Type 0} (i : Index F) → HasSizes i → check_head (head_bytes i) ≡ ok tt
unfolding check_head HeadSays HasSizes in_limits
check_head-head_bytes i h =
    let (a, b, c, d, e, f, g, j) = head_bytes-HeadSays i h in
    simp (a, b, c, d, e, f, g, j, h.5) (ground arith)
