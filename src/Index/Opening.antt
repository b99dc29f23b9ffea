-- ===== src/Index/Opening.antt =====
-- `ca_index_open` of src/caindex.c on an empty file that is to be written, and on a file that has a header.
use casync.Prelude.{
  take_first, ℕ, ◌≡◌, refl, sym, ap, ap₂, ◌∙◌, List, [], ◌++◌, some, arith, length, take, drop,
  true, false, max64, ok, length-append, leb, ◌==◌,
}
use casync.Files.{loop_read, loop_write, Files, IsRegular}
use casync.Files.Loops.{read_there, write_end}
use casync.Format.Words.{drop_past}
use casync.Index.{Index, index_read, is_cooked_write, on_file, head_bytes, enough_data}
use casync.Index.Open.{read_head, write_head, write_head_now, read_head_now, open_index}
use casync.Index.Reading.{opened}
use casync.Index.Writing.{IsWriting}
use casync.Index.Head.{
  HasSizes, HeadSays, head_bytes-HeadSays, check_head-head_bytes, length-head_bytes,
}

module _ {F : Type 0} (files : Files F) where
  abbrev pub after_write_head : Index F → F → Index F
  after_write_head i f = record i {
    fd = some (loop_write files f (head_bytes i)).0;
    start_offset = 64;
    cooked_offset = 64;
  }

  -- Once the header of `i` has been read
  abbrev pub after_read_head : Index F → F → Index F → Index F
  after_read_head j g i = record j {
    fd = some (loop_read files g 64).0;
    start_offset = 64;
    cooked_offset = 64;
    feature_flags = i.feature_flags;
    chunk_size_min = i.chunk_size_min;
    chunk_size_avg = i.chunk_size_avg;
    chunk_size_max = i.chunk_size_max;
  }

  -- Nothing is written or read yet, and `i` has the file `f`.
  unfoldable pub IsFresh : Index F → F → Type 0
  IsFresh i f =
      (i.fd ≡ some f)
      × (i.start_offset ≡ 0)
      × (i.cooked_offset ≡ 0)
      × (i.previous_chunk_offset ≡ 0)
      × (i.item_position ≡ 0)
      × (i.wrote_eof ≡ false)

  write_head-fresh :
      (i : Index F) (f : F)
      → IsFresh i f
      → is_cooked_write i.mode ≡ true
      → HasSizes i
      → (loop_write files f (head_bytes i)).1 ≡ ok tt
      → write_head files i ≡ (after_write_head i f, ok tt)
  unfolding write_head write_head_now on_file IsFresh HasSizes
  write_head-fresh i f (o, s, c, p, n, e) m (a, b, d, g, l, normal) done =
      let flags : (i.feature_flags == max64) ≡ false = ground arith in
      let x : (i.chunk_size_min == 0) ≡ false = ground arith in
      let y : (i.chunk_size_avg == 0) ≡ false = ground arith in
      let z : (i.chunk_size_max == 0) ≡ false = ground arith in
      let low : leb i.chunk_size_min i.chunk_size_avg ≡ true = ground arith in
      let high : leb i.chunk_size_avg i.chunk_size_max ≡ true = ground arith in
      simp (m, s, flags, x, y, z, low, high, c, o, done, write_head, write_head_now, on_file)

  no_read_head : (i : Index F) → is_cooked_write i.mode ≡ true → read_head files i ≡ (i, ok tt)
  unfolding read_head
  no_read_head i o = ground arith

  no_write_head : (i : Index F) → i.mode ≡ index_read → write_head files i ≡ (i, ok tt)
  unfolding write_head
  no_write_head i o = ground arith

  read_head-fresh :
      (i j : Index F) (g : F)
      → IsFresh j g
      → j.mode ≡ index_read
      → HasSizes i
      → (loop_read files g 64).1 ≡ ok (head_bytes i)
      → read_head files j ≡ (after_read_head j g i, ok tt)
  unfolding read_head read_head_now on_file IsFresh enough_data HeadSays
  read_head-fresh i j g (o, s, c, p, n, e) m h done =
      let (w0, w1, w2, w3, w4, w5, w6, w7) = head_bytes-HeadSays i h in
      simp (
        m,
        s,
        c,
        o,
        done,
        length-head_bytes i,
        check_head-head_bytes i h,
        w2,
        w3,
        w4,
        w5,
        read_head,
        read_head_now,
        on_file,
        enough_data,
      )

  module _ (disk : IsRegular files) where
    -- Opening an empty file for writing leaves the header in it.
    pub open_index-IsWriting_fresh :
        (i : Index F) (f : F)
        → IsFresh i f
        → is_cooked_write i.mode ≡ true
        → HasSizes i
        → disk.contents f ≡ []
        → disk.position f ≡ 0
        → (open_index files i ≡ (after_write_head i f, ok tt))
          × IsWriting files disk (after_write_head i f) (loop_write files f (head_bytes i)).0 0 0
          × (disk.contents (loop_write files f (head_bytes i)).0 ≡ head_bytes i)
    unfolding open_index IsWriting IsFresh
    open_index-IsWriting_fresh i f h m sizes empty start =
        let (o, s, c, p, n, e) = h in
        let (done, grown, moved) =
          write_end files disk f (head_bytes i) (omega (arith, ap length empty)) in
        (
          simp (
            opened files i f o,
            no_read_head i m,
            write_head-fresh i f h m sizes done,
            open_index,
          ),
          (
            refl,
            m,
            refl,
            e,
            p,
            n,
            refl,
            omega (
              arith,
              moved,
              start,
              ap length grown,
              ap length empty,
              length-append (disk.contents f) (head_bytes i),
            ),
          ),
          grown ∙ ap (λ b. b ++ head_bytes i) empty,
        )

    -- Opening a file for reading that begins with a header takes over what that says.
    pub open_index-IsOpen_fresh :
        (i j : Index F) (g : F) (rest : List ℕ)
        → IsFresh j g
        → j.mode ≡ index_read
        → HasSizes i
        → disk.contents g ≡ head_bytes i ++ rest
        → disk.position g ≡ 0
        → (open_index files j ≡ (after_read_head j g i, ok tt))
          × (drop (disk.position (loop_read files g 64).0) (disk.contents (loop_read files g 64).0)
              ≡ rest)
    unfolding open_index IsFresh
    open_index-IsOpen_fresh i j g rest h m sizes e start =
        let (o, s, c, p, n, w) = h in
        let (got, same, moved) = read_there files disk g 64 (omega arith) in
        let front : take 64 (drop (disk.position g) (disk.contents g)) ≡ head_bytes i =
          ap₂ (λ k b. take 64 (drop k b)) start e
          ∙ take_first (head_bytes i) rest 64 (length-head_bytes i) in
        (
          simp (
            opened files j g o,
            read_head-fresh i j g h m sizes (got ∙ ap ok front),
            no_write_head (after_read_head j g i) m,
            open_index,
          ),
          ap₂ drop {y = 64} (omega (arith, moved, start, ap length front, length-head_bytes i))
                (same ∙ e)
              ∙ drop_past (head_bytes i) rest 64 (sym (length-head_bytes i)),
        )
