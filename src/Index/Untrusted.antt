-- ===== src/Index/Untrusted.antt =====
-- What `ca_index_read_chunk` of src/caindex.c lets through, whatever the file of an index holds.
use native.Mathlib.Nat.{suc-mul}
use casync.Prelude.{
  ℕ, ◌+◌, ◌*◌, ◌≤◌, ◌<◌, ◌≡◌, ◌≢◌, sym, ap, ◌∙◌, subst, List, [], ◌∷◌, arith, length, Bool, true,
  false, max64, ok, err, Errno, epipe, ◌==◌, inl, inr, if◌then◌else◌, Bool-cases, Result-cases,
  ℕ_discrete,
}
use casync.Files.{loop_read, Files}
use casync.Index.{Index, on_file, enough_data}
use casync.Index.Read.{Chunk, read_chunk, is_tail, take_item, take_tail, table_size}
use casync.Index.Reading.{IsOpen, open_index-IsOpen, read_chunk-read, after_read}

-- A chunk that begins where the one before it ends, has at least a byte, and is not larger than the largest size
abbrev pub Follows : ℕ → ℕ → Chunk → Type 0
Follows most start c = (start < c.offset_end) × (c.offset_end ≡ start + c.size) × (c.size ≤ most)

-- Each chunk follows the one before.
abbrev pub Contiguous : ℕ → ℕ → List Chunk → Type 0
Contiguous most start [] = Unit
Contiguous most start (c ∷ cs) = Follows most start c × Contiguous most c.offset_end cs

module _ {F : Type 0} (files : Files F) where
  -- What stays of an index when a chunk has been read
  abbrev Passed : Index F → Index F → Chunk → Type 0
  Passed i j c =
      (j.fd ≡ i.fd)
      × (j.mode ≡ i.mode)
      × (j.start_offset ≡ i.start_offset)
      × (j.chunk_size_max ≡ i.chunk_size_max)
      × (j.previous_chunk_offset ≡ c.offset_end)

  take_item_inv :
      (b : List ℕ) (j : Index F) (more : Bool) (c : Chunk)
      → j.previous_chunk_offset ≢ max64
      → (take_item b j).1 ≡ ok (more, c)
      → Follows j.chunk_size_max j.previous_chunk_offset c × Passed j (take_item b j).0 c
  unfolding take_item
  take_item_inv b j more c known h = ground arith

  take_tail_inv : (j : Index F) (c : Chunk) → (take_tail files j).1 ≢ ok (true, c)
  unfolding take_tail on_file
  take_tail_inv j c h = ground arith

  read_chunk-failed :
      (i : Index F) (f : F) (e : Errno)
      → IsOpen i f
      → (loop_read files f 40).1 ≡ err e
      → (read_chunk files i).1 ≡ err e
  unfolding read_chunk on_file enough_data IsOpen
  read_chunk-failed i f e (o, m, s) r =
      simp (open_index-IsOpen files i f (o, m, s), m, o, r, read_chunk, on_file, enough_data)

  read_chunk-short :
      (i : Index F) (f : F) (b : List ℕ)
      → IsOpen i f
      → (loop_read files f 40).1 ≡ ok b
      → (length b == 40) ≡ false
      → (read_chunk files i).1 ≡ err epipe
  unfolding read_chunk on_file enough_data IsOpen
  read_chunk-short i f b (o, m, s) r l =
      simp (open_index-IsOpen files i f (o, m, s), m, o, r, l, read_chunk, on_file, enough_data)

  -- A call that gives a chunk
  read_chunk-Follows :
      (i : Index F) (f : F) (c : Chunk)
      → IsOpen i f
      → i.previous_chunk_offset ≢ max64
      → (read_chunk files i).1 ≡ ok (true, c)
      → Follows i.chunk_size_max i.previous_chunk_offset c
        × ((g : F) × IsOpen (read_chunk files i).0 g)
        × ((read_chunk files i).0.chunk_size_max ≡ i.chunk_size_max)
        × ((read_chunk files i).0.previous_chunk_offset ≡ c.offset_end)
  unfolding IsOpen
  read_chunk-Follows i f c o known h = elim (Result-cases (loop_read files f 40).1) [
    | inr (e, r) ↦ absurd (failed e (read_chunk-failed i f e o r))
    | inl (b, r) ↦ elim (ℕ_discrete (length b) 40) [
      | no l ↦ absurd (failed epipe (read_chunk-short i f b o r (ground arith)))
      | yes l ↦
          let j = after_read files i f 40 in
          let same = read_chunk-read files i f b o r l in
          elim (Bool-cases (is_tail (table_size i) b)) [
            | inl tail ↦ absurd (
                take_tail_inv j c (
                  ap (λ t. ((if t then take_tail files else take_item b) j).1) (sym tail)
                  ∙ ap (λ x. x.1) (sym same)
                  ∙ h))
            | inr item ↦
                let whole : read_chunk files i ≡ take_item b j =
                  same ∙ ap (λ t. (if t then take_tail files else take_item b) j) item in
                let (follows, passed) =
                  take_item_inv b j true c known (ap (λ x. x.1) (sym whole) ∙ h) in
                let (fd, mode, start, most, previous) = passed in
                (
                  follows,
                  (
                    (loop_read files f 40).0,
                    (
                      ap (λ x. x.0.fd) whole ∙ fd,
                      ap (λ x. x.0.mode) whole ∙ mode ∙ o.1,
                      ap (λ x. x.0.start_offset) whole ∙ start ∙ o.2,
                    ),
                  ),
                  ap (λ x. x.0.chunk_size_max) whole ∙ most,
                  ap (λ x. x.0.previous_chunk_offset) whole ∙ previous,
                )
          ]
    ]
  ]
    where
      failed : (e : Errno) → (read_chunk files i).1 ≢ err e
      failed e k = cc (h, k)

  -- Calls of `ca_index_read_chunk` that give chunks, one after the other
  pub data Reads : Index F → List Chunk → Index F → Type 0 where
    none_read : {i : Index F} → Reads i [] i
    one_read :
        {i j : Index F} {c : Chunk} {cs : List Chunk}
        → (read_chunk files i).1 ≡ ok (true, c)
        → Reads (read_chunk files i).0 cs j
        → Reads i (c ∷ cs) j

  -- Whatever the file of an open index holds and whatever is read from it: the chunks that ca_index_read_chunk gives, as many
  -- as the address space has room for, follow each other from where the index stands, and none is larger than the largest
  -- size. The end of the chunk before is known.
  pub Reads-Contiguous :
      {i j : Index F} {cs : List Chunk} (f : F)
      → IsOpen i f
      → i.previous_chunk_offset + length cs * i.chunk_size_max < max64
      → Reads i cs j
      → Contiguous i.chunk_size_max i.previous_chunk_offset cs
  Reads-Contiguous f o room none_read = tt
  Reads-Contiguous {i = i} f o room (one_read {c = c} {cs = cs} h rest) =
      let (follows, (g, opened), most, previous) =
        read_chunk-Follows i f c o (λ e. absurd (omega arith)) h in
      (
        follows,
        subst (λ m. Contiguous m c.offset_end cs) most
            (subst (λ s. Contiguous (read_chunk files i).0.chunk_size_max s cs) previous
              (Reads-Contiguous g opened
                (subst (λ m. (read_chunk files i).0.previous_chunk_offset + length cs * m < max64)
                  (sym most)
                  (omega (arith, previous, follows, suc-mul (length cs) i.chunk_size_max)))
                rest)),
      )
