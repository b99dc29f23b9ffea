-- ===== src/Index/Seek.antt =====
-- `ca_index_seek` of src/caindex.c: the item of the chunk that holds an offset of the blob, by bisection.
use casync.Prelude.{
  ℕ, zero, suc, ◌+◌, ◌-◌, ◌/◌, ◌||◌, not, if◌then◌else◌, ltb, leb, ◌==◌, wrap64, enxio, ebadmsg,
  fuel_spent,
}
use casync.Action.{Action, pure, fail, gets, require, ◌>>=◌, ◌>>◌}
use casync.Files.{Files}
use casync.Index.{Index}
use casync.Index.Read.{read_chunk, set_position, get_blob_size, get_total_chunks}

-- `p`; the difference is a uint64_t, which wraps around where `right` is less.
abbrev pub middle : ℕ → ℕ → ℕ
middle left right = wrap64 (left + wrap64 (right + 18446744073709551616 - left) / 2)

-- What a round of the loop comes to: the chunk was found, at so many bytes from its start, or the bounds
-- are closer.
pub data Round : Type 0 where
  found : ℕ → Round
  closer : ℕ → ℕ → Round

module _ {F : Type 0} (files : Files F) where
  -- Positions on an item, for the result of `ca_index_seek`.
  abbrev pub found_at : ℕ → ℕ → Action (Index F) Round
  found_at position skip = set_position files position >> pure (found skip)

  -- Where the offset is before the end of the chunk at `p`
  unfoldable pub go_left : ℕ → ℕ → ℕ → ℕ → Action (Index F) Round
  go_left offset left right p =
      if p == 0
      then found_at 0 offset
      else if p == right
      then fail ebadmsg
      else pure (closer left p)

  -- Where it is not before that end, `first`
  unfoldable pub go_right : ℕ → ℕ → ℕ → ℕ → Action (Index F) Round
  go_right offset right p first = do
    second ← read_chunk files
    if leb second.1.offset_end offset
        then pure (closer (wrap64 (p + 1)) right)
        else found_at (wrap64 (p + 1)) (offset - first)

  -- One round of the loop
  unfoldable pub round : ℕ → ℕ → ℕ → Action (Index F) Round
  round offset left right = do
    set_position files (middle left right)
    first ← read_chunk files
    if ltb offset first.1.offset_end
        then go_left offset left right (middle left right)
        else go_right offset right (middle left right) first.1.offset_end

  -- The loop of `ca_index_seek`, with so many rounds.
  unfoldable pub bisect : ℕ → ℕ → ℕ → ℕ → Action (Index F) ℕ
  bisect zero offset left right = fail fuel_spent
  bisect (suc rounds) offset left right = round offset left right >>= λ r. elim r [
    | found skip ↦ pure skip
    | closer left' right' ↦ bisect rounds offset left' right'
  ]

  -- `ca_index_seek`; the result is `*ret_skip`. The code goes on where ca_index_get_total_chunks() fails; the
  -- model ends there. The loop has as many rounds as there are chunks.
  unfoldable pub seek : ℕ → Action (Index F) ℕ
  seek offset = do
    size ← get_blob_size files
    require (ltb offset size) enxio
    n_chunks ← get_total_chunks files
    require (not (n_chunks == 0)) enxio
    near ← gets (λ i. n_chunks == 1 || ltb offset i.chunk_size_min)
    if near then set_position files 0 >> pure offset else bisect n_chunks offset 0 (n_chunks - 2)
