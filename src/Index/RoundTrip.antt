-- ===== src/Index/RoundTrip.antt =====
-- An index that src/caindex.c writes is read back as it was written.
use mathlib.Core.Option.{some-injective}
use casync.Prelude.{
  ℕ, suc, ◌+◌, ◌*◌, ◌<◌, ◌≡◌, refl, sym, ap, ◌∙◌, subst, List, [], ◌++◌, some, arith, length, true,
  max64, ok,
}
use casync.Action.{continue, ◌>>◌}
use casync.Files.{loop_read, Files, IsRegular}
use casync.Index.{Index, index_read, is_cooked_write, head_bytes}
use casync.Index.Open.{open_index}
use casync.Index.Write.{tail_bytes}
use casync.Index.Table.{Entry, items, IsTable}
use casync.Index.Writing.{write_chunks, write_chunks-Leaves, Leaves}
use casync.Index.Reading.{IsOpen}
use casync.Index.Listing.{read_chunks, listing, read_chunks-listing, IsBefore}
use casync.Index.Head.{HasSizes}
use casync.Index.Opening.{
  IsFresh, after_write_head, after_read_head, open_index-IsWriting_fresh, open_index-IsOpen_fresh,
}

-- The whole of an index file
unfoldable pub index_bytes : {F : Type 0} → Index F → List Entry → List ℕ
index_bytes i cs = head_bytes i ++ (items 0 cs ++ tail_bytes (56 + 40 * (0 + length cs)))

module _ {F : Type 0} (files : Files F) (disk : IsRegular files) where
  -- Writing a table of chunks to an empty regular file, with a fresh index in a writing mode that has sizes in order and
  -- within the limits and normalized flags, succeeds and leaves the bytes of the header, the items and the tail there,
  -- where the table's size is below UINT64_MAX.
  pub write_index-Leaves :
      (i : Index F) (f : F) (cs : List Entry)
      → IsFresh files i f
      → is_cooked_write i.mode ≡ true
      → HasSizes i
      → disk.contents f ≡ []
      → disk.position f ≡ 0
      → IsTable i.chunk_size_max 0 cs
      → 40 * length cs + 104 < max64
      → Leaves files disk ((open_index files >> write_chunks files cs) i) (index_bytes i cs)
  unfolding index_bytes
  write_index-Leaves i f cs fresh m sizes empty start table fits =
      let (opened, writing, head) =
        open_index-IsWriting_fresh files disk i f fresh m sizes empty start in
      subst (λ t. Leaves files disk t (index_bytes i cs))
        (sym (ap (λ t. continue t (λ u. write_chunks files cs)) opened))
        (subst
          (λ b.
            Leaves files disk (write_chunks files cs (after_write_head files i f))
              (b ++ (items 0 cs ++ tail_bytes (56 + 40 * (0 + length cs)))))
          head
          (write_chunks-Leaves files disk (after_write_head files i f) _ 0 0 cs writing table
            (omega arith)))

  -- Reading a file that holds the bytes of an index from its beginning gives the chunks.
  pub read_index-listing :
      (i j : Index F) (g : F) (cs : List Entry)
      → IsFresh files j g
      → j.mode ≡ index_read
      → HasSizes i
      → IsTable i.chunk_size_max 0 cs
      → 40 * length cs + 104 < max64
      → disk.contents g ≡ index_bytes i cs
      → disk.position g ≡ 0
      → ((open_index files >> read_chunks files (suc (length cs))) j).1 ≡ ok (listing 0 cs)
  unfolding index_bytes IsFresh IsBefore IsOpen
  read_index-listing i j g cs fresh m sizes table fits e start =
      let (opened, there) = open_index-IsOpen_fresh files disk i j g _ fresh m sizes e start in
      ap (λ t. (continue t (λ u. read_chunks files (suc (length cs)))).1) opened
      ∙ read_chunks-listing files disk (after_read_head files j g i) (loop_read files g 64).0 0 0 cs
          ((refl, m, refl), refl, fresh.3, table, omega arith, there)

  -- An index is written to a regular file that is empty: `i` is a fresh index in a writing mode, with sizes in order and
  -- within the limits and normalized flags, and the chunks `cs` are a table, that is none is empty or larger than the
  -- largest size, each id has 32 bytes, and the ends are below UINT64_MAX; the table's size is below UINT64_MAX too. What
  -- is left is the file `w`. Then a fresh index in the mode index_read, on a file with the contents of `w` and at its
  -- beginning, is opened and read until there are no more chunks, and gives each chunk with its id, its end and its size.
  pub read_index-write_index :
      (i j : Index F) (f g w : F) (cs : List Entry)
      → IsFresh files i f
      → is_cooked_write i.mode ≡ true
      → HasSizes i
      → disk.contents f ≡ []
      → disk.position f ≡ 0
      → IsTable i.chunk_size_max 0 cs
      → 40 * length cs + 104 < max64
      → ((open_index files >> write_chunks files cs) i).0.fd ≡ some w
      → IsFresh files j g
      → j.mode ≡ index_read
      → disk.contents g ≡ disk.contents w
      → disk.position g ≡ 0
      → ((open_index files >> read_chunks files (suc (length cs))) j).1 ≡ ok (listing 0 cs)
  unfolding Leaves
  read_index-write_index i j f g w cs fresh m sizes empty start table fits left again n same there =
      let (done, (g', at, e)) = write_index-Leaves i f cs fresh m sizes empty start table fits in
      read_index-listing i j g cs again n sizes table fits
        (same ∙ ap disk.contents (some-injective w g' (sym left ∙ at)) ∙ e) there
