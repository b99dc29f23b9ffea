-- ===== src/Index/Listing.antt =====
-- Reading the whole table of an index with `ca_index_read_chunk` of src/caindex.c.
use casync.Prelude.{
  take_first, ℕ, zero, suc, ◌+◌, ◌*◌, ◌<◌, ◌≡◌, refl, sym, ap, ap₂, ◌∙◌, List, [], ◌∷◌, ◌++◌, arith,
  take, take-nil, drop, length, append_assoc, Bool, true, false, max64, ok, fuel_spent, inr,
  append-nil, drop-drop,
}
use casync.Action.{continue, Action, pure, fail, ◌>>=◌}
use casync.Format.Words.{drop_past}
use casync.Files.{loop_read, Files, IsRegular}
use casync.Files.Loops.{read_there}
use casync.Index.{Index}
use casync.Index.Write.{item_bytes, tail_bytes}
use casync.Index.Read.{Chunk, read_chunk, end_chunk, table_size}
use casync.Index.Table.{Entry, items, IsTable, start_below, length-item_bytes, length-tail_bytes}
use casync.Index.Reading.{IsOpen, read_chunk-item, read_chunk-tail, after_item}

-- What the chunks after the first `start` bytes are to be read as
unfoldable pub listing : ℕ → List Entry → List Chunk
listing start [] = []
listing start (c ∷ cs) =
    record { id = c.id; offset_end = start + c.size; size = c.size } ∷ listing (start + c.size) cs

module _ {F : Type 0} (files : Files F) where
  abbrev pub and_more : Action (Index F) (List Chunk) → Bool × Chunk → Action (Index F) (List Chunk)
  and_more more (true, c) = more >>= λ cs. pure (c ∷ cs)
  and_more more (false, c) = pure []

  -- Calls of `ca_index_read_chunk` until it says that there are no more, so many at most.
  unfoldable pub read_chunks : ℕ → Action (Index F) (List Chunk)
  read_chunks zero = fail fuel_spent
  read_chunks (suc rounds) = read_chunk files >>= and_more (read_chunks rounds)

  module _ (disk : IsRegular files) where
    -- An index that stands before the chunks `cs`, the items of `k` others before it
    unfoldable pub IsBefore : Index F → F → ℕ → ℕ → List Entry → Type 0
    IsBefore i f k start cs =
        IsOpen i f
        × (i.cooked_offset ≡ 64 + 40 * k)
        × (i.previous_chunk_offset ≡ start)
        × (IsTable i.chunk_size_max start cs)
        × (64 + 40 * (k + length cs) + 40 < max64)
        × (drop (disk.position f) (disk.contents f)
            ≡ items start cs ++ tail_bytes (56 + 40 * (k + length cs)))

    -- A read of 40 bytes, and where it leaves the file
    pub read-whole :
        (f : F) (b rest : List ℕ)
        → length b ≡ 40
        → drop (disk.position f) (disk.contents f) ≡ b ++ rest
        → ((loop_read files f 40).1 ≡ ok b)
          × (drop (disk.position (loop_read files f 40).0) (disk.contents (loop_read files f 40).0)
              ≡ rest)
    read-whole f b rest l e =
        let (got, same, at) = read_there files disk f 40 (omega arith) in
        let front : take 40 (drop (disk.position f) (disk.contents f)) ≡ b =
          ap (take 40) e ∙ take_first b rest 40 l in
        (
          got ∙ ap ok front,
          ap₂ drop
                (at ∙ ap (λ t. disk.position f + length t) front ∙ ap (λ n. disk.position f + n) l)
                same
              ∙ sym (drop-drop 40 (disk.position f) (disk.contents f))
              ∙ ap (drop 40) e
              ∙ drop_past b rest 40 (sym l),
        )

    next_tail :
        (i : Index F) (f : F) (k start : ℕ)
        → IsBefore i f k start []
        → (read_chunk files i).1 ≡ ok (false, end_chunk)
    unfolding IsBefore items IsOpen
    next_tail i f k start (o, at, previous, table, fits, e) =
        let size : table_size i ≡ 56 + 40 * (k + 0) = omega (arith, o.2, at) in
        let (got, after) =
          read-whole f (tail_bytes (56 + 40 * (k + 0))) [] (length-tail_bytes _)
            (e ∙ sym (append-nil _)) in
        let (m, more, most, less, at_end, same, there) =
          disk.read_some (loop_read files f 40).0 1 (omega arith) in
        read_chunk-tail files i f o (got ∙ ap (λ n. ok (tail_bytes n)) (sym size))
          (more ∙ ap (λ b. ok (take m b)) after ∙ ap ok (take-nil m))

    next_item :
        (i : Index F) (f : F) (k start : ℕ) (c : Entry) (cs : List Entry)
        → IsBefore i f k start (c ∷ cs)
        → (read_chunk files i ≡ (
          after_item files i (loop_read files f 40).0 (start + c.size),
          ok (true, record { id = c.id; offset_end = start + c.size; size = c.size }),
        ))
          × IsBefore
              (after_item files i (loop_read files f 40).0 (start + c.size))
              (loop_read files f 40).0
              (suc k)
              (start + c.size)
              cs
    unfolding IsBefore items IsOpen IsTable
    next_item i f k start c cs (o, at, previous, (positive, small, l, table), fits, e) =
        let below : start + c.size < max64 = start_below _ _ cs table in
        let (got, after) =
          read-whole f (item_bytes (start + c.size) c.id) _ (length-item_bytes _ _ l)
            (e ∙ append_assoc (item_bytes (start + c.size) c.id) (items (start + c.size) cs) _) in
        (
          read_chunk-item files i f (start + c.size) c.id o got l (omega arith) below
                (inr (omega (arith, previous), omega (arith, previous)))
              ∙ ap
                  (λ n. (
                    after_item files i (loop_read files f 40).0 (start + c.size),
                    ok (true, record { id = c.id; offset_end = start + c.size; size = n }),
                  ))
                  (ground (arith, previous)),
          (
            (refl, o.1, o.2),
            omega (arith, at),
            refl,
            table,
            omega arith,
            after ∙ ap (λ n. items (start + c.size) cs ++ tail_bytes n) (omega arith),
          ),
        )

    -- Reading the whole table gives its chunks.
    pub read_chunks-listing :
        (i : Index F) (f : F) (k start : ℕ) (cs : List Entry)
        → IsBefore i f k start cs
        → (read_chunks (suc (length cs)) i).1 ≡ ok (listing start cs)
    unfolding read_chunks listing
    read_chunks-listing i f k start [] h =
        ap (λ r. (continue ((read_chunk files i).0, r) (and_more (read_chunks 0))).1)
          (next_tail i f k start h)
    read_chunks-listing i f k start (c ∷ cs) h =
        let (got, next) = next_item i f k start c cs h in
        ap (λ x. (continue x (and_more (read_chunks (suc (length cs))))).1) got
        ∙ ap
            (λ r.
              (continue ((read_chunks (suc (length cs)) j).0, r) (λ rest. pure (listed ∷ rest))).1)
            (read_chunks-listing j (loop_read files f 40).0 (suc k) (start + c.size) cs next)
      where
        j : Index F
        j = after_item files i (loop_read files f 40).0 (start + c.size)

        listed : Chunk
        listed = record { id = c.id; offset_end = start + c.size; size = c.size }
