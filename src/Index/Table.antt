-- ===== src/Index/Table.antt =====
-- The table that src/caindex.c keeps in a file, as one value: the bytes of a sequence of chunks.
use casync.Prelude.{
  take_first, ℕ, zero, suc, ◌+◌, ◌*◌, ◌≤◌, ◌<◌, ◌≡◌, refl, sym, ap, ap₂, ◌∙◌, List, [], ◌∷◌, ◌++◌,
  arith, take, drop, length, length-append, append_assoc, append-nil, drop-drop, max64, subst,
}
use casync.ChunkId.{u64}
use casync.Format.{words}
use casync.Format.Words.{u64-words, length-words, drop_past}
use casync.Index.Write.{item_bytes, tail_bytes}

-- A chunk of the blob: its id and its size.
pub record Entry : Type 0 where
  pub id : List ℕ
  pub size : ℕ

-- The items of the chunks that follow the first `start` bytes of the blob
unfoldable pub items : ℕ → List Entry → List ℕ
items start [] = []
items start (c ∷ cs) = item_bytes (start + c.size) c.id ++ items (start + c.size) cs

-- The end of the first `k` chunks
unfoldable pub end_of : List Entry → ℕ → ℕ
end_of cs zero = 0
end_of [] (suc k) = 0
end_of (c ∷ cs) (suc k) = c.size + end_of cs k

-- No chunk is empty or larger than allowed, an id has 32 bytes, and the ends are below UINT64_MAX.
unfoldable pub IsTable : ℕ → ℕ → List Entry → Type 0
IsTable most start [] = start < max64
IsTable most start (c ∷ cs) =
    (0 < c.size) × (c.size ≤ most) × (length c.id ≡ 32) × IsTable most (start + c.size) cs

pub length-item_bytes : (end : ℕ) (id : List ℕ) → length id ≡ 32 → length (item_bytes end id) ≡ 40
unfolding item_bytes
length-item_bytes end id h =
    omega (arith, length-append (words (end ∷ [])) id, length-words (end ∷ []))

pub length-tail_bytes : (size : ℕ) → length (tail_bytes size) ≡ 40
unfolding tail_bytes
length-tail_bytes size = length-words _

-- What an item says
pub u64-item :
    (end : ℕ) (id : List ℕ) → end < 18446744073709551616 → u64 (item_bytes end id) 0 ≡ end
unfolding item_bytes
u64-item end id h = u64-words (end ∷ []) id 0 refl h

pub id-item : (end : ℕ) (id : List ℕ) → length id ≡ 32 → take 32 (drop 8 (item_bytes end id)) ≡ id
unfolding item_bytes
id-item end id h =
    ap (take 32) (drop_past (words (end ∷ [])) id 8 (sym (length-words (end ∷ []))))
    ∙ ap (take 32) (sym (append-nil id))
    ∙ take_first id [] 32 h

pub start_below : (most start : ℕ) (cs : List Entry) → IsTable most start cs → start < max64
unfolding IsTable
start_below most start [] h = h
start_below most start (c ∷ cs) (p, s, l, rest) =
    omega (arith, start_below most (start + c.size) cs rest)

-- The items from the `k`th on are those of the chunks from the `k`th on.
pub drop-items :
    (most start k : ℕ) (cs : List Entry) (rest : List ℕ)
    → IsTable most start cs
    → k ≤ length cs
    → drop (40 * k) (items start cs ++ rest) ≡ items (start + end_of cs k) (drop k cs) ++ rest
unfolding items end_of IsTable
drop-items most start zero cs rest table h = ap (λ n. items n cs ++ rest) (omega arith)
drop-items most start (suc k) [] rest table h = absurd (omega arith)
drop-items most start (suc k) (c ∷ cs) rest (positive, small, l, table) h =
    ap₂ drop {x = 40 * suc k} {y = 40 + 40 * k} (omega arith)
      (append_assoc (item_bytes (start + c.size) c.id) (items (start + c.size) cs) rest)
    ∙ sym (
        drop-drop (40 * k) 40
          (item_bytes (start + c.size) c.id ++ (items (start + c.size) cs ++ rest)))
    ∙ ap (drop (40 * k)) (
        drop_past (item_bytes (start + c.size) c.id) _ 40
          (sym (length-item_bytes (start + c.size) c.id l)))
    ∙ drop-items most (start + c.size) k cs rest table (omega arith)
    ∙ ap (λ n. items n (drop k cs) ++ rest) {x = start + c.size + end_of cs k}
        {y = start + (c.size + end_of cs k)} (omega arith)

pub drop-IsTable :
    (most start k : ℕ) (cs : List Entry)
    → IsTable most start cs
    → k ≤ length cs
    → IsTable most (start + end_of cs k) (drop k cs)
unfolding end_of IsTable
drop-IsTable most start zero cs table h =
    subst (λ n. IsTable most n cs) {x = start} {y = start + 0} (omega arith) table
drop-IsTable most start (suc k) [] table h = absurd (omega arith)
drop-IsTable most start (suc k) (c ∷ cs) (positive, small, l, table) h =
    subst (λ n. IsTable most n (drop k cs)) {x = start + c.size + end_of cs k}
      {y = start + (c.size + end_of cs k)} (omega arith)
      (drop-IsTable most (start + c.size) k cs table (omega arith))

-- The ends increase.
pub end_of-drop :
    (k : ℕ) (cs : List Entry)
    → k < length cs
    → (c : Entry) × (drop k cs ≡ c ∷ drop (suc k) cs) × (end_of cs (suc k) ≡ end_of cs k + c.size)
unfolding end_of
end_of-drop zero [] h = absurd (omega arith)
end_of-drop zero (c ∷ cs) h = (c, refl, omega arith)
end_of-drop (suc k) [] h = absurd (omega arith)
end_of-drop (suc k) (d ∷ cs) h =
    let (c, e, n) = end_of-drop k cs (omega arith) in (c, e, omega (arith, n))

pub end_of_mono : (cs : List Entry) (j k : ℕ) → j ≤ k → k ≤ length cs → end_of cs j ≤ end_of cs k
unfolding end_of
end_of_mono [] zero k h l = omega arith
end_of_mono [] (suc j) k h l = omega arith
end_of_mono (c ∷ cs) zero k h l = omega arith
end_of_mono (c ∷ cs) (suc j) zero h l = absurd (omega arith)
end_of_mono (c ∷ cs) (suc j) (suc k) h l =
    omega (arith, end_of_mono cs j k (omega arith) (omega arith))
