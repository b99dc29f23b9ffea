-- ===== src/Index/Writing.antt =====
-- Writing a table with src/caindex.c to a regular file: chunk after chunk, and the end.
use casync.Prelude.{
  ℕ, suc, ◌+◌, ◌*◌, ◌≤◌, ◌<◌, ◌≡◌, refl, sym, ap, ap₂, ◌∙◌, List, [], ◌∷◌, ◌++◌, some, arith,
  length, append_assoc, true, false, max64, wrap64, ok, Result, length-append, leb, ◌==◌, subst,
}
use casync.Action.{continue, Action, ◌>>◌}
use casync.Files.{loop_write, Files, IsRegular}
use casync.Files.Loops.{write_end}
use casync.Index.{Index, is_cooked_write, on_file}
use casync.Index.Open.{read_head, write_head, open_index}
use casync.Index.Write.{item_bytes, tail_bytes, write_chunk, write_eof}
use casync.Index.Reading.{opened}
use casync.Index.Table.{Entry, items, IsTable, start_below}

module _ {F : Type 0} (files : Files F) where
  -- The index after a chunk, and after the end
  abbrev pub after_chunk : Index F → F → ℕ → List ℕ → Index F
  after_chunk i f end id = record i {
    fd = some (loop_write files f (item_bytes end id)).0;
    previous_chunk_offset = end;
    cooked_offset = wrap64 (i.cooked_offset + 40);
    item_position = wrap64 (i.item_position + 1);
  }

  abbrev pub after_eof : Index F → F → List ℕ → Index F
  after_eof i f tail = record i {
    fd = some (loop_write files f tail).0;
    cooked_offset = wrap64 (i.cooked_offset + 40);
    wrote_eof = true;
  }

  -- Writing the chunks of a table and its end
  unfoldable pub write_chunks : List Entry → Action (Index F) (Unit {0})
  write_chunks [] = write_eof files
  write_chunks (c ∷ cs) = write_chunk files c.id c.size >> write_chunks cs

  no_head : (i : Index F) → is_cooked_write i.mode ≡ true → read_head files i ≡ (i, ok tt)
  unfolding read_head
  no_head i o = ground arith

  no_write : (i : Index F) → i.start_offset ≡ 64 → write_head files i ≡ (i, ok tt)
  unfolding write_head
  no_write i m = ground arith

  module _ (disk : IsRegular files) where
    -- An index to be written that has its head and `k` items, which end at `start`
    unfoldable pub IsWriting : Index F → F → ℕ → ℕ → Type 0
    IsWriting i f k start =
        (i.fd ≡ some f)
        × (is_cooked_write i.mode ≡ true)
        × (i.start_offset ≡ 64)
        × (i.wrote_eof ≡ false)
        × (i.previous_chunk_offset ≡ start)
        × (i.item_position ≡ k)
        × (i.cooked_offset ≡ 64 + 40 * k)
        × (disk.position f ≡ length (disk.contents f))

    pub open_index-IsWriting :
        (i : Index F) (f : F) (k start : ℕ)
        → IsWriting i f k start
        → open_index files i ≡ (i, ok tt)
    unfolding open_index IsWriting
    open_index-IsWriting i f k start h =
        simp (opened files i f h.0, no_head i h.1, no_write i h.2, open_index)

    write_chunk-written :
        (i : Index F) (f : F) (k start size : ℕ) (id : List ℕ)
        → IsWriting i f k start
        → 0 < size
        → size ≤ i.chunk_size_max
        → start + size < max64
        → write_chunk files id size i ≡ (after_chunk i f (start + size) id, ok tt)
    unfolding write_chunk on_file IsWriting
    write_chunk-written i f k start size id h positive small below =
        let (o, m, s, e, p, n, c, at) = h in
        let (done, grown, moved) = write_end files disk f (item_bytes (start + size) id) at in
        let end : wrap64 (start + size) ≡ start + size = omega arith in
        let nonempty : (size == 0) ≡ false = ground arith in
        let fits : leb size i.chunk_size_max ≡ true = ground arith in
        let later : leb start (start + size) ≡ true = ground arith in
        simp (
          open_index-IsWriting i f k start h,
          m,
          e,
          o,
          p,
          end,
          nonempty,
          fits,
          later,
          done,
          write_chunk,
          on_file,
        )

    write_chunk-IsWriting :
        (i : Index F) (f : F) (k start size : ℕ) (id : List ℕ)
        → IsWriting i f k start
        → start + size < max64
        → 64 + 40 * k + 40 < max64
        → IsWriting
            (after_chunk i f (start + size) id)
            (loop_write files f (item_bytes (start + size) id)).0
            (suc k)
            (start + size)
    unfolding IsWriting
    write_chunk-IsWriting i f k start size id (o, m, s, e, p, n, c, at) below fits =
        let (done, grown, moved) = write_end files disk f (item_bytes (start + size) id) at in
        (
          refl,
          m,
          s,
          e,
          refl,
          omega (arith, n),
          omega (arith, c),
          omega (
            arith,
            moved,
            at,
            ap length grown,
            length-append (disk.contents f) (item_bytes (start + size) id),
          ),
        )

    write_eof-written :
        (i : Index F) (f : F) (k start : ℕ)
        → IsWriting i f k start
        → 64 + 40 * k + 40 < max64
        → write_eof files i ≡ (after_eof i f (tail_bytes (56 + 40 * k)), ok tt)
    unfolding write_eof on_file IsWriting
    write_eof-written i f k start h fits =
        let (o, m, s, e, p, n, c, at) = h in
        let (done, grown, moved) = write_end files disk f (tail_bytes (56 + 40 * k)) at in
        let size : wrap64 (16 + i.item_position * 40 + 40) ≡ 56 + 40 * k = omega (arith, n) in
        simp (open_index-IsWriting i f k start h, m, e, o, size, done, write_eof, on_file)

    at_end :
        (i : Index F) (f : F) (k start : ℕ)
        → IsWriting i f k start
        → disk.position f ≡ length (disk.contents f)
    unfolding IsWriting
    at_end i f k start h = h.7

    -- A call that succeeds and leaves the bytes in the file
    unfoldable pub Leaves : Index F × Result (Unit {0}) → List ℕ → Type 0
    Leaves x b = (x.1 ≡ ok tt) × ((g : F) × (x.0.fd ≡ some g) × (disk.contents g ≡ b))

    write_eof-Leaves :
        (i : Index F) (f : F) (k start : ℕ)
        → IsWriting i f k start
        → 64 + 40 * k + 40 < max64
        → Leaves (write_eof files i) (disk.contents f ++ tail_bytes (56 + 40 * k))
    unfolding Leaves IsWriting
    write_eof-Leaves i f k start h fits =
        let last = write_eof-written i f k start h fits in
        let (done, grown, moved) = write_end files disk f (tail_bytes (56 + 40 * k)) h.7 in
        (
          ap (λ t. t.1) last,
          ((loop_write files f (tail_bytes (56 + 40 * k))).0, ap (λ t. t.0.fd) last, grown),
        )

    -- Writing a table appends its items and its tail to what is there.
    pub write_chunks-Leaves :
        (i : Index F) (f : F) (k start : ℕ) (cs : List Entry)
        → IsWriting i f k start
        → IsTable i.chunk_size_max start cs
        → 64 + 40 * (k + length cs) + 40 < max64
        → Leaves
            (write_chunks cs i)
            (disk.contents f ++ (items start cs ++ tail_bytes (56 + 40 * (k + length cs))))
    unfolding write_chunks items IsTable
    write_chunks-Leaves i f k start [] h table fits =
        subst (λ n. Leaves (write_eof files i) (disk.contents f ++ tail_bytes (56 + 40 * n)))
          {x = k} {y = k + 0} (omega arith) (write_eof-Leaves i f k start h (omega arith))
    write_chunks-Leaves i f k start (c ∷ cs) h (positive, small, l, table) fits =
        let below = start_below i.chunk_size_max (start + c.size) cs table in
        let done = write_chunk-written i f k start c.size c.id h positive small below in
        let (full, grown, moved) =
          write_end files disk f (item_bytes (start + c.size) c.id) (at_end i f k start h) in
        let rest =
          write_chunks-Leaves (after_chunk i f (start + c.size) c.id) _ (suc k) (start + c.size) cs
            (write_chunk-IsWriting i f k start c.size c.id h below (omega arith)) table
            (omega arith) in
        subst
          (λ t. Leaves t (
            disk.contents f
            ++ (items start (c ∷ cs) ++ tail_bytes (56 + 40 * (k + suc (length cs))))))
          (sym (ap (λ t. continue t (λ u. write_chunks cs)) done))
          (subst (Leaves (write_chunks cs (after_chunk i f (start + c.size) c.id)))
            (ap₂ (λ b n. b ++ (items (start + c.size) cs ++ tail_bytes (56 + 40 * n)))
                {u = suc k + length cs} {v = k + suc (length cs)} grown (omega arith)
              ∙ append_assoc (disk.contents f) (item_bytes (start + c.size) c.id) _
              ∙ ap (λ b. disk.contents f ++ b)
                  (sym (
                    append_assoc (item_bytes (start + c.size) c.id) (items (start + c.size) cs) _)))
            rest)
