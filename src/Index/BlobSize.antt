-- ===== src/Index/BlobSize.antt =====
-- `ca_index_get_index_size`, `ca_index_get_total_chunks` and `ca_index_get_blob_size` of src/caindex.c, on an
-- open index whose regular file has a table.
use casync.Prelude.{
  drop_all, take_first, ℕ, suc, ◌+◌, ◌-◌, ◌*◌, ◌/◌, ◌%◌, ◌<◌, ◌≡◌, refl, sym, ap, ap₂, ◌∙◌, subst,
  List, [], ◌∷◌, ◌++◌, some, arith, length, true, false, max64, wrap64, ok, drop, take, get_elem?,
  leb, ◌⊎◌, inl, inr, ◌==◌, drop-drop, append_assoc, append-nil, length-append, length-drop,
}
use casync.ChunkId.{u64}
use casync.Files.{Files, IsRegular}
use casync.Format.{words}
use casync.Format.Words.{u64-words, drop_past}
use casync.Index.{Index, on_file}
use casync.Index.Write.{item_bytes, tail_bytes}
use casync.Index.Read.{
  read_file_size, get_index_size, get_total_chunks, get_blob_size, read_tail, last_bytes,
}
use casync.Index.Table.{
  Entry, items, IsTable, end_of, end_of-drop, drop-items, drop-IsTable, length-item_bytes,
  length-tail_bytes,
}
use casync.Index.Reading.{IsOpen, open_index-IsOpen, no_head}

equal_self : (n : ℕ) → (n == n) ≡ true
equal_self n = ground arith

pub length-items :
    (most start : ℕ) (cs : List Entry)
    → IsTable most start cs
    → length (items start cs) ≡ 40 * length cs
unfolding items IsTable
length-items most start [] h = omega arith
length-items most start (c ∷ cs) (p, s, l, table) = omega (
  arith,
  length-append (item_bytes (start + c.size) c.id) (items (start + c.size) cs),
  length-item_bytes (start + c.size) c.id l,
  length-items most (start + c.size) cs table,
)

-- An open index whose file is a table, and which knows the file's size and the blob's rightly or not yet
unfoldable pub IsWhole :
    {F : Type 0} (files : Files F) → IsRegular files → Index F → F → List Entry → Type 0
IsWhole files disk i f cs =
    IsOpen i f
    × ((i.file_size ≡ max64) ⊎ (i.file_size ≡ 104 + 40 * length cs))
    × ((i.blob_size ≡ max64) ⊎ (i.blob_size ≡ end_of cs (length cs)))
    × (drop 64 (disk.contents f) ≡ items 0 cs ++ tail_bytes (56 + 40 * length cs))
    × IsTable i.chunk_size_max 0 cs
    × (104 + 40 * length cs < max64)

module _ {F : Type 0} (files : Files F) (disk : IsRegular files) where
  length-contents :
      (i : Index F) (f : F) (cs : List Entry)
      → IsWhole files disk i f cs
      → length (disk.contents f) ≡ 104 + 40 * length cs
  unfolding IsWhole
  length-contents i f cs (o, u, v, e, table, fits) = omega (
    arith,
    length-drop 64 (disk.contents f),
    ap length e,
    length-append (items 0 cs) (tail_bytes (56 + 40 * length cs)),
    length-items i.chunk_size_max 0 cs table,
    length-tail_bytes (56 + 40 * length cs),
  )

  -- Once the file's size is known
  abbrev pub sized : Index F → ℕ → Index F
  sized i n = record i { file_size = n }

  -- A size that is known is kept.
  pub read_file_size-known :
      (i : Index F) (n : ℕ)
      → i.file_size ≡ n
      → n < max64
      → read_file_size files i ≡ (sized i n, ok tt)
  unfolding read_file_size
  read_file_size-known i n e h =
      let test : (i.file_size == max64) ≡ false = ground arith in
      simp (test, read_file_size) (ap (λ m. (sized i m, ok tt)) e)

  pub read_file_size-sized :
      (i : Index F) (f : F) (cs : List Entry)
      → IsWhole files disk i f cs
      → read_file_size files i ≡ (sized i (104 + 40 * length cs), ok tt)
  unfolding read_file_size IsWhole IsOpen
  read_file_size-sized i f cs h = elim h.1 [
    | inl unknown ↦ simp (unknown, h.0.0, disk.regular f, length-contents i f cs h, read_file_size)
    | inr known ↦ read_file_size-known i (104 + 40 * length cs) known h.5
  ]

  get_index_size-sized :
      (i : Index F) (f : F) (n : ℕ)
      → IsOpen i f
      → read_file_size files i ≡ (sized i (104 + 40 * n), ok tt)
      → get_index_size files i ≡ (sized i (104 + 40 * n), ok (104 + 40 * n))
  unfolding get_index_size IsOpen
  get_index_size-sized i f n o r =
      let (at, mode, start) = o in
      let low : leb 104 (104 + 40 * n) ≡ true = ground arith in
      let whole : ((104 + 40 * n - 104) % 40 == 0) ≡ true = ground arith in
      simp (
        open_index-IsOpen files i f o,
        no_head files i start,
        mode,
        r,
        start,
        low,
        whole,
        get_index_size,
      )

  pub get_total_chunks-sized :
      (i : Index F) (f : F) (n : ℕ)
      → IsOpen i f
      → read_file_size files i ≡ (sized i (104 + 40 * n), ok tt)
      → get_total_chunks files i ≡ (sized i (104 + 40 * n), ok n)
  unfolding get_total_chunks IsOpen
  get_total_chunks-sized i f n o r =
      let start = o.2 in
      let count : (104 + 40 * n - 104) / 40 ≡ n = omega arith in
      simp (get_index_size-sized i f n o r, start, count, get_total_chunks)

  -- What the tail says
  tail_words :
      (size : ℕ)
      → size < max64
      → (u64 (tail_bytes size) 4 ≡ 5426561635123326161)
        × (u64 (tail_bytes size) 2 ≡ 48)
        × (u64 (tail_bytes size) 3 ≡ size)
  unfolding tail_bytes
  tail_words size h =
      (word 4 refl (omega arith), word 2 refl (omega arith), word 3 refl (omega arith))
    where
      said : List ℕ
      said = 0 ∷ 0 ∷ 48 ∷ size ∷ 5426561635123326161 ∷ []

      word :
          (k : ℕ) {x : ℕ}
          → get_elem? said k ≡ some x
          → x < 18446744073709551616
          → u64 (words said) k ≡ x
      word k {x = x} p l =
          subst (λ z. u64 z k ≡ x) (append-nil (words said)) (u64-words said [] k p l)

  -- The last item and the tail, as they stand at the end of the file
  last_two :
      (f : F) (most n : ℕ) (cs : List Entry)
      → drop 64 (disk.contents f) ≡ items 0 cs ++ tail_bytes (56 + 40 * length cs)
      → IsTable most 0 cs
      → length cs ≡ suc n
      → (id : List ℕ) × (drop (104 + 40 * length cs - 80) (disk.contents f)
          ≡ item_bytes (end_of cs (suc n)) id ++ tail_bytes (56 + 40 * length cs))
        × (length id ≡ 32)
        × (end_of cs (suc n) < max64)
  unfolding items IsTable
  last_two f most n cs e table l =
      let (c, at, grows) = end_of-drop n cs (omega arith) in
      let none_left : drop (suc n) cs ≡ [] = drop_all cs (suc n) (omega arith) in
      let one : drop n cs ≡ c ∷ [] = at ∙ ap (λ ds. c ∷ ds) none_left in
      let (positive, small, id_length, below) =
        subst (IsTable most (0 + end_of cs n)) one (drop-IsTable most 0 n cs table (omega arith)) in
      (
        c.id,
        ap (λ k. drop k (disk.contents f)) {x = 104 + 40 * length cs - 80} {y = 64 + 40 * n}
              (omega arith)
            ∙ sym (drop-drop (40 * n) 64 (disk.contents f))
            ∙ ap (drop (40 * n)) e
            ∙ drop-items most 0 n cs (tail_bytes (56 + 40 * length cs)) table (omega arith)
            ∙ ap (λ ds. items (0 + end_of cs n) ds ++ tail_bytes (56 + 40 * length cs)) one
            ∙ ap (λ b. b ++ tail_bytes (56 + 40 * length cs))
                (append-nil (item_bytes (0 + end_of cs n + c.size) c.id))
            ∙ ap (λ m. item_bytes m c.id ++ tail_bytes (56 + 40 * length cs))
                {x = 0 + end_of cs n + c.size} (omega (arith, grows)),
        id_length,
        omega (arith, below, grows),
      )

  -- `ca_index_get_blob_size` gives the end of the last chunk.
  abbrev pub after_blob_size : Index F → F → List Entry → Index F
  after_blob_size i f cs = record i {
    file_size = 104 + 40 * length cs;
    blob_size = end_of cs (length cs);
    fd = some (files.pread f 80 (104 + 40 * length cs - 80)).0;
  }

  last_bytes-two :
      (i : Index F) (f : F) (b : List ℕ) (size : ℕ)
      → i.fd ≡ some f
      → i.start_offset ≡ 64
      → 104 < size
      → (files.pread f 80 (size - 80)).1 ≡ ok b
      → length b ≡ 80
      → last_bytes files size i ≡ (record i { fd = some (files.pread f 80 (size - 80)).0 }, ok b)
  unfolding last_bytes on_file
  last_bytes-two i f b size at start more got l =
      let test : (size == 104) ≡ false = ground arith in
      simp (start, test, at, got, l, last_bytes, on_file)

  item_word : (end : ℕ) (id after : List ℕ) → end < max64 → u64 (item_bytes end id ++ after) 0 ≡ end
  unfolding item_bytes
  item_word end id after h =
      ap (λ b. u64 b 0) (append_assoc (words (end ∷ [])) id after)
      ∙ u64-words (end ∷ []) (id ++ after) 0 refl (omega arith)

  read_tail-whole :
      (i : Index F) (f : F) (n : ℕ) (cs : List Entry)
      → IsWhole files disk i f cs
      → length cs ≡ suc n
      → read_tail files i ≡ (after_blob_size i f cs, ok tt)
  unfolding read_tail IsWhole IsOpen
  read_tail-whole i f n cs h l =
      let (o, u, v, e, table, fits) = h in
      let (id, at, id_length, below) = last_two f i.chunk_size_max n cs e table l in
      let tail = tail_bytes (56 + 40 * length cs) in
      let item = item_bytes (end_of cs (suc n)) id in
      let (got, same, there) = disk.pread_there f 80 (104 + 40 * length cs - 80) in
      let both_length : length (item ++ tail) ≡ 80 = omega (
        arith,
        length-append item tail,
        length-item_bytes (end_of cs (suc n)) id id_length,
        length-tail_bytes (56 + 40 * length cs),
      ) in
      let both : (files.pread f 80 (104 + 40 * length cs - 80)).1 ≡ ok (item ++ tail) =
        got
        ∙ ap (λ b. ok (take 80 b)) at
        ∙ ap ok (
            ap (take 80) (sym (append-nil (item ++ tail)))
            ∙ take_first (item ++ tail) [] 80 both_length) in
      let second : drop 40 (item ++ tail) ≡ tail =
        drop_past item tail 40 (sym (length-item_bytes (end_of cs (suc n)) id id_length)) in
      let (marker, offset, size) = tail_words (56 + 40 * length cs) (omega arith) in
      let first : u64 (item ++ tail) 0 ≡ end_of cs (length cs) =
        item_word (end_of cs (suc n)) id tail below ∙ ap (end_of cs) (sym l) in
      let sum : wrap64 (56 + 40 * length cs + 48) ≡ 104 + 40 * length cs = omega arith in
      simp (
        get_index_size-sized i f (length cs) o (read_file_size-sized i f cs h),
        last_bytes-two (sized i (104 + 40 * length cs)) f (item ++ tail) (104 + 40 * length cs) o.0
            o.2 (omega arith) both both_length,
        second,
        marker,
        offset,
        size,
        first,
        sum,
        equal_self (104 + 40 * length cs),
        read_tail,
      )

  after_blob_size-IsWhole :
      (i : Index F) (f : F) (cs : List Entry)
      → IsWhole files disk i f cs
      → IsWhole files disk
          (after_blob_size i f cs)
          (files.pread f 80 (104 + 40 * length cs - 80)).0
          cs
  unfolding IsWhole IsOpen
  after_blob_size-IsWhole i f cs (o, u, v, e, table, fits) =
      let (got, same, there) = disk.pread_there f 80 (104 + 40 * length cs - 80) in
      ((refl, o.1, o.2), inr refl, inr refl, ap (drop 64) same ∙ e, table, fits)

  abbrev pub with_sizes : Index F → F → ℕ → ℕ → Index F
  with_sizes i f size blob = record i { fd = some f; file_size = size; blob_size = blob }

  -- `ca_index_get_blob_size` on an open index whose regular file holds a table of at least one chunk, and which knows each of
  -- the two sizes rightly or not at all: it gives the end of the last chunk, knows it afterwards, and is an open
  -- index of the same table; but for the file and the sizes it is as it was.
  pub get_blob_size-IsWhole :
      (i : Index F) (f : F) (n : ℕ) (cs : List Entry)
      → IsWhole files disk i f cs
      → length cs ≡ suc n
      → (g : F) × (size : ℕ) × (get_blob_size files i
          ≡ (with_sizes i g size (end_of cs (length cs)), ok (end_of cs (length cs))))
        × IsWhole files disk (with_sizes i g size (end_of cs (length cs))) g cs
  unfolding get_blob_size IsWhole IsOpen
  get_blob_size-IsWhole i f n cs h l = elim h.2 [
    | inl unknown ↦ (
      (files.pread f 80 (104 + 40 * length cs - 80)).0,
      104 + 40 * length cs,
      simp (unknown, read_tail-whole i f n cs h l, get_blob_size),
      after_blob_size-IsWhole i f cs h,
    )
    | inr known ↦
        let (id, at, id_length, below) = last_two f i.chunk_size_max n cs h.3 h.4 l in
        let test : (i.blob_size == max64) ≡ false =
          ground (arith, below, known, ap (end_of cs) l) in
        (
          f,
          i.file_size,
          simp (test, get_blob_size)
              (ap₂ (λ d m. (record i { fd = d; blob_size = m }, ok m)) h.0.0 known),
          ((refl, h.0.1, h.0.2), h.1, inr refl, h.3, h.4, h.5),
        )
  ]
