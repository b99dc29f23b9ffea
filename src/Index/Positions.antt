-- ===== src/Index/Positions.antt =====
-- Moving among the chunks of an index with `ca_index_set_position` and `ca_index_read_chunk` of src/caindex.c.
use casync.Prelude.{
  ℕ, zero, suc, ◌+◌, ◌*◌, ◌≤◌, ◌<◌, ◌≡◌, refl, sym, ap, ap₂, ◌∙◌, subst, List, ◌∷◌, ◌++◌, some,
  arith, length, true, max64, wrap64, ok, ◌⊎◌, inl, inr, drop, drop-drop, append_assoc, leb,
  if◌then◌else◌, ◌==◌,
}
use casync.Files.{loop_read, Files, IsRegular}
use casync.Files.Loops.{read_there}
use casync.Index.{Index, on_file}
use casync.Index.Write.{item_bytes}
use casync.Index.Read.{read_chunk, set_position}
use casync.Index.Table.{
  Entry, items, IsTable, end_of, start_below, drop-items, drop-IsTable, length-item_bytes,
}
use casync.Index.Reading.{IsOpen, read_chunk-item, size_after}
use casync.Index.Listing.{read-whole}

module _ {F : Type 0} (files : Files F) (disk : IsRegular files) (rest : List ℕ) where
  -- An open index whose file has the items of `cs` after the header
  unfoldable pub HasTable : Index F → List Entry → Type 0
  HasTable i cs =
      (f : F) × IsOpen i f
      × (drop 64 (disk.contents f) ≡ items 0 cs ++ rest)
      × IsTable i.chunk_size_max 0 cs

  -- The same, the file's position being before the chunks `ds`, which begin at `start`
  unfoldable pub StandsAt : Index F → List Entry → ℕ → List Entry → Type 0
  StandsAt i cs start ds =
      (f : F) × IsOpen i f
      × (drop 64 (disk.contents f) ≡ items 0 cs ++ rest)
      × IsTable i.chunk_size_max 0 cs
      × ((i.previous_chunk_offset ≡ max64) ⊎ (i.previous_chunk_offset ≡ start))
      × IsTable i.chunk_size_max start ds
      × (drop (disk.position f) (disk.contents f) ≡ items start ds ++ rest)

  pub StandsAt-HasTable :
      (i : Index F) (cs : List Entry) (start : ℕ) (ds : List Entry)
      → StandsAt i cs start ds
      → HasTable i cs
  unfolding StandsAt HasTable
  StandsAt-HasTable i cs start ds (f, o, e, t, p, u, at) = (f, o, e, t)

  after_seek : Index F → F → ℕ → Index F
  after_seek i f k = record i {
    fd = some (files.lseek f (64 + 40 * k)).0;
    cooked_offset = 64 + 40 * k;
    item_position = k;
    previous_chunk_offset = if k == 0 then 0 else max64;
  }

  set_position-after :
      (i : Index F) (f : F) (k : ℕ)
      → IsOpen i f
      → (files.lseek f (64 + 40 * k)).1 ≡ ok tt
      → 64 + 40 * k < max64
      → set_position files k i ≡ (after_seek i f k, ok tt)
  unfolding set_position on_file IsOpen after_seek
  set_position-after i f k (o, m, s) done fits =
      let p : wrap64 (k * 40) ≡ 40 * k = omega arith in
      let q : wrap64 (64 + 40 * k) ≡ 64 + 40 * k = omega arith in
      let low : leb k (40 * k) ≡ true = ground arith in
      let high : leb (40 * k) (64 + 40 * k) ≡ true = ground arith in
      simp (m, s, p, q, low, high, o, done, set_position, on_file)

  -- Setting the position on a chunk
  pub set_position-StandsAt :
      (i : Index F) (cs : List Entry) (k : ℕ)
      → HasTable i cs
      → k ≤ length cs
      → 64 + 40 * k < max64
      → ((set_position files k i).1 ≡ ok tt)
        × ((set_position files k i).0.item_position ≡ k)
        × StandsAt (set_position files k i).0 cs (end_of cs k) (drop k cs)
  unfolding StandsAt HasTable IsOpen after_seek end_of
  set_position-StandsAt i cs k (f, o, e, table) within fits =
      let (done, same, there) = disk.seek_there f (64 + 40 * k) in
      let moved = set_position-after i f k o done fits in
      (
        ap (λ x. x.1) moved,
        ap (λ x. x.0.item_position) moved,
        subst (λ j. StandsAt j cs (end_of cs k) (drop k cs)) (sym (ap (λ x. x.0) moved))
            (subst (λ n. StandsAt (after_seek i f k) cs n (drop k cs)) {x = 0 + end_of cs k}
              {y = end_of cs k} (omega arith)
              (
                (files.lseek f (64 + 40 * k)).0,
                (refl, o.1, o.2),
                ap (drop 64) same ∙ e,
                table,
                first_or_not k,
                drop-IsTable i.chunk_size_max 0 k cs table within,
                ap₂ drop there same
                    ∙ sym (drop-drop (40 * k) 64 (disk.contents f))
                    ∙ ap (drop (40 * k)) e
                    ∙ drop-items i.chunk_size_max 0 k cs rest table within,
              )),
      )
    where
      first_or_not :
          (n : ℕ)
          → ((if n == 0 then 0 else max64) ≡ max64)
            ⊎ ((if n == 0 then 0 else max64) ≡ 0 + end_of cs n)
      first_or_not zero = inr (omega arith)
      first_or_not (suc n) = inl (ground arith)

  -- Reading a chunk
  pub read_chunk-StandsAt :
      (i : Index F) (cs : List Entry) (start : ℕ) (c : Entry) (ds : List Entry)
      → StandsAt i cs start (c ∷ ds)
      → ((read_chunk files i).1
          ≡ ok (
            true,
            record {
              id = c.id;
              offset_end = start + c.size;
              size = size_after files i.previous_chunk_offset (start + c.size);
            },
          ))
        × StandsAt (read_chunk files i).0 cs (start + c.size) ds
  unfolding StandsAt IsOpen items IsTable
  read_chunk-StandsAt i cs start c ds (f, o, e, t, previous, (positive, small, l, table), at) =
      let below = start_below i.chunk_size_max (start + c.size) ds table in
      let (got, after) =
        read-whole files disk f (item_bytes (start + c.size) c.id)
          (items (start + c.size) ds ++ rest) (length-item_bytes _ _ l)
          (at ∙ append_assoc _ (items (start + c.size) ds) rest) in
      let taken =
        read_chunk-item files i f (start + c.size) c.id o got l (omega arith) below
          (elim previous [ inl p ↦ inl p | inr p ↦ inr (omega (arith, p), omega (arith, p)) ]) in
      let (whole, same, moved) = read_there files disk f 40 (omega arith) in
      (
        ap (λ x. x.1) taken,
        subst (λ j. StandsAt j cs (start + c.size) ds) (sym (ap (λ x. x.0) taken))
            (
              (loop_read files f 40).0,
              (refl, o.1, o.2),
              ap (drop 64) same ∙ e,
              t,
              inr refl,
              table,
              after,
            ),
      )
