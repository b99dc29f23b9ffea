-- ===== src/Index/Tests.antt =====
-- src/caindex.c on concrete files, which are their bytes and a position.
use casync.Prelude.{
  take_first, drop_all, ℕ, zero, suc, ◌+◌, ◌*◌, ◌≤◌, ◌<◌, ◌≡◌, refl, sym, ap, ap₂, ◌∙◌, true, some,
  List, [], ◌∷◌, ◌++◌, length, take, drop, replicate, overwrite, append-nil, length-take, arith,
  max64, Result, Bool, ok, err, ebadmsg, inl, inr,
}
use casync.Action.{◌>>◌}
use casync.Files.{
  loop_write, write_rounds, loop_read, read_rounds, Files, wronly, rdonly, IsRegular,
}
use casync.Index.Table.{Entry, items, end_of, IsTable}
use casync.Features.{are_normalized, with_best}
use casync.Index.Head.{HasSizes}
use casync.Index.Opening.{IsFresh}
use casync.Index.{Index, Mode, index_write, index_read, new_index, on_file, enough_data, head_bytes}
use casync.Index.Open.{open_index, open_fd, read_head, write_head, write_head_now}
use casync.Format.{words, le_bytes}
use casync.Index.Write.{tail_bytes, item_bytes, write_chunk, write_eof}
use casync.Index.Read.{get_blob_size, read_chunk, Chunk, is_tail, take_item}
use casync.Index.Seek.{seek, bisect}
use casync.Index.Writing.{write_chunks, Leaves}
use casync.Index.Listing.{read_chunks, listing}
use casync.Index.RoundTrip.{index_bytes, read_index-write_index, write_index-Leaves}
use casync.Index.Reading.{IsOpen}
use casync.ChunkId.{u64, little_endian}
use casync.Index.Untrusted.{Contiguous, one_read, none_read, Reads-Contiguous}
use casync.Index.BlobSize.{IsWhole, with_sizes, get_blob_size-IsWhole}
use casync.Index.Bisection.{Finds, bisect-Finds}
use casync.Index.Rounds.{IsIn}
use casync.Index.Rounds
use casync.Index.Positions.{HasTable}
use casync.Index.Seeking.{chunk_at, seek-Finds}

record File : Type 0 where
  pub stored : List ℕ
  pub at : ℕ

-- A file system of one name
abbrev disk : Files File
disk = record {
  open_file = λ access name mode. ok (record { stored = []; at = 0 });
  write =
      λ f q. (record { stored = overwrite f.stored f.at q; at = f.at + length q }, ok (length q));
  read = λ f n. (
    record f { at = f.at + length (take n (drop f.at f.stored)) },
    ok (take n (drop f.at f.stored)),
  );
  lseek = λ f p. (record f { at = p }, ok tt);
  pread = λ f n p. (f, ok (take n (drop p f.stored)));
  pwrite = λ f q p. (record f { stored = overwrite f.stored p q }, ok (length q));
  fstat = λ f. ok (true, length f.stored);
  rename = λ from to. ok tt;
  temporary_name = λ name. ok "/var/tmp/1.caidx";
}

overwrite_end : (w q : List ℕ) (n : ℕ) → n ≡ length w → overwrite w n q ≡ w ++ q
unfolding overwrite
overwrite_end w q n e =
    ap₂ (λ a b. a ++ (q ++ b)) (ap (take n) (sym (append-nil w)) ∙ take_first w [] n (sym e))
      (drop_all w (n + length q) (omega arith))
    ∙ ap (λ b. w ++ b) (append-nil q)

take_all : (q : List ℕ) → take (length q) q ≡ q
take_all q = ap (take (length q)) (sym (append-nil q)) ∙ take_first q [] (length q) refl

take_min : (xs : List ℕ) (n : ℕ) → take n xs ≡ take (length (take n xs)) xs
take_min xs zero = refl
take_min [] (suc n) = refl
take_min (x ∷ xs) (suc n) = ap (λ t. x ∷ t) (take_min xs n)

nothing_left : (xs : List ℕ) (n : ℕ) → 0 < n → length (take n xs) ≡ 0 → xs ≡ []
nothing_left [] n h e = refl
nothing_left (x ∷ xs) zero h e = absurd (omega arith)
nothing_left (x ∷ xs) (suc n) h e = absurd (omega arith)

read_some_lem :
    (f : File) (n : ℕ)
    → 0 < n
    → (m : ℕ) × ((disk.read f n).1 ≡ ok (take m (drop f.at f.stored)))
      × (m ≤ n)
      × (m ≤ length (drop f.at f.stored))
      × (m ≡ 0 → drop f.at f.stored ≡ [])
      × ((disk.read f n).0.stored ≡ f.stored)
      × ((disk.read f n).0.at ≡ f.at + m)
read_some_lem f n h =
    let left = drop f.at f.stored in
    let size = length-take n left in
    (
      length (take n left),
      ap ok (take_min left n),
      omega (arith, size),
      omega (arith, size),
      nothing_left left n h,
      refl,
      refl,
    )

abbrev disk_regular : IsRegular disk
disk_regular = record {
  contents = λ f. f.stored;
  position = λ f. f.at;
  write_some = λ f q some_bytes e. (
    length q,
    refl,
    some_bytes,
    omega arith,
    overwrite_end f.stored q f.at e ∙ ap (λ b. f.stored ++ b) (sym (take_all q)),
    refl,
  );
  read_some = λ f n some_bytes. read_some_lem f n some_bytes;
  seek_there = λ f p. (refl, refl, refl);
  pread_there = λ f n p. (refl, refl, refl);
  regular = λ f. refl;
}

abbrev sizes : Index File → Index File
sizes i = record i {
  chunk_size_min = 1;
  chunk_size_avg = 2;
  chunk_size_max = 4;
  feature_flags = with_best;
  fd = some (record { stored = []; at = 0 });
}

-- An index to be written to an empty file
abbrev writer : Index File
writer = sizes (new_index index_write wronly 0)

abbrev entries : List Entry
entries =
    record { id = replicate 32 7; size = 3 }
    ∷ record { id = replicate 32 8; size = 4 }
    ∷ record { id = replicate 32 9; size = 1 }
    ∷ []

entries-IsTable : IsTable 4 0 entries
unfolding IsTable
entries-IsTable = (
  omega arith,
  omega arith,
  refl,
  (omega arith, omega arith, refl, (omega arith, omega arith, refl, omega arith)),
)

writer-HasSizes : HasSizes writer
unfolding HasSizes are_normalized
writer-HasSizes = (omega arith, omega arith, omega arith, omega arith, omega arith, refl)

writer-IsFresh : IsFresh disk writer (record { stored = []; at = 0 })
unfolding IsFresh
writer-IsFresh = (refl, refl, refl, refl, refl, refl)

-- What is left of that file
abbrev written : File
written = record { stored = index_bytes writer entries; at = 224 }

-- An index to be read from a copy of it
abbrev copied : File
copied = record { stored = index_bytes writer entries; at = 0 }

abbrev reader : Index File
reader = record (new_index index_read rdonly max64) { fd = some copied }

writer_left : ((open_index disk >> write_chunks disk entries) writer).0.fd ≡ some written
unfolding open_index open_fd read_head write_head write_head_now on_file write_chunks write_chunk
    write_eof index_bytes overwrite head_bytes words items tail_bytes le_bytes item_bytes loop_write
    write_rounds
writer_left = refl

reader-IsFresh : IsFresh disk reader copied
unfolding IsFresh
reader-IsFresh = (refl, refl, refl, refl, refl, refl)

read_index-write_index_example :
    ((open_index disk >> read_chunks disk 4) reader).1 ≡ ok (listing 0 entries)
read_index-write_index_example =
    read_index-write_index disk disk_regular writer reader (record { stored = []; at = 0 }) copied
      written entries writer-IsFresh refl writer-HasSizes refl refl entries-IsTable (omega arith)
      writer_left reader-IsFresh refl refl refl

write_index-Leaves_example :
    Leaves disk disk_regular
      ((open_index disk >> write_chunks disk entries) writer)
      (index_bytes writer entries)
write_index-Leaves_example =
    write_index-Leaves disk disk_regular writer (record { stored = []; at = 0 }) entries
      writer-IsFresh refl writer-HasSizes refl refl entries-IsTable (omega arith)

-- An index that has read its header
abbrev opened : Index File
opened = record reader {
  fd = some (record copied { at = 64 });
  start_offset = 64;
  cooked_offset = 64;
  feature_flags = with_best;
  chunk_size_min = 1;
  chunk_size_avg = 2;
  chunk_size_max = 4;
}

opened-IsWhole : IsWhole disk disk_regular opened (record copied { at = 64 }) entries
unfolding IsWhole IsOpen items index_bytes item_bytes head_bytes words le_bytes
opened-IsWhole = ((refl, refl, refl), inl refl, inl refl, refl, entries-IsTable, omega arith)

get_blob_size_example :
    (g : File) × (size : ℕ) × (get_blob_size disk opened
      ≡ (with_sizes disk disk_regular opened g size (end_of entries 3), ok (end_of entries 3)))
    × IsWhole disk disk_regular
        (with_sizes disk disk_regular opened g size (end_of entries 3))
        g
        entries
get_blob_size_example =
    get_blob_size-IsWhole disk disk_regular opened (record copied { at = 64 }) 2 entries
      opened-IsWhole refl

seek-Finds_example :
    Finds disk disk_regular
      (tail_bytes (56 + 40 * 3))
      entries
      (seek disk 7 opened)
      7
      (chunk_at entries 7)
unfolding end_of
seek-Finds_example =
    seek-Finds disk disk_regular opened (record copied { at = 64 }) 2 entries 7 opened-IsWhole refl
      (omega arith) (omega arith)

opened-HasTable : HasTable disk disk_regular (tail_bytes 176) opened entries
unfolding HasTable IsOpen items index_bytes item_bytes head_bytes words le_bytes
opened-HasTable = (record copied { at = 64 }, (refl, refl, refl), refl, entries-IsTable)

bisect-Finds_example :
    Finds disk disk_regular (tail_bytes 176) entries (bisect disk 2 7 0 1 opened) 7 2
unfolding IsIn casync.Index.Rounds.Leaves end_of
bisect-Finds_example =
    bisect-Finds disk disk_regular (tail_bytes 176) entries (omega arith) 2 opened 7 0 1 2
      opened-HasTable (omega arith, omega arith, omega arith) (inr (omega arith, omega arith))
      (omega arith) (omega arith) (omega arith)

-- A table whose second chunk ends where the first does: the first is read, the second is refused.
abbrev disordered : Index File
disordered = record opened {
  fd =
      some (record {
        stored = item_bytes 3 (replicate 32 8) ++ item_bytes 3 (replicate 32 8);
        at = 0;
      });
  previous_chunk_offset = 0;
}

abbrev first_read : Index File × Result (Bool × Chunk)
first_read = read_chunk disk disordered

first_chunk : first_read.1 ≡ ok (true, record { id = replicate 32 8; offset_end = 3; size = 3 })
unfolding read_chunk open_index open_fd read_head write_head item_bytes words le_bytes loop_read
    read_rounds is_tail take_item u64 little_endian enough_data on_file
first_chunk = refl

second_refused : (read_chunk disk first_read.0).1 ≡ err ebadmsg
unfolding read_chunk open_index open_fd read_head write_head item_bytes words le_bytes loop_read
    read_rounds is_tail take_item u64 little_endian enough_data on_file
second_refused = refl

disordered-IsOpen :
    IsOpen disordered
      (record { stored = item_bytes 3 (replicate 32 8) ++ item_bytes 3 (replicate 32 8); at = 0 })
unfolding IsOpen
disordered-IsOpen = (refl, refl, refl)

Reads-Contiguous_example :
    Contiguous 4 0 (record { id = replicate 32 8; offset_end = 3; size = 3 } ∷ [])
Reads-Contiguous_example =
    Reads-Contiguous disk
      (record { stored = item_bytes 3 (replicate 32 8) ++ item_bytes 3 (replicate 32 8); at = 0 })
      disordered-IsOpen (omega arith) (one_read first_chunk none_read)
