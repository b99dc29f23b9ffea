-- ===== src/Index/Reading.antt =====
-- Reading chunk after chunk with src/caindex.c, from a regular file.
use casync.Prelude.{
  ℕ, ◌+◌, ◌-◌, ◌≤◌, ◌<◌, ◌≡◌, refl, sym, ap, ◌∙◌, List, [], ◌∷◌, some, arith, length, append-nil,
  true, false, max64, wrap64, ok, ◌==◌, ◌⊎◌, inl, inr, if◌then◌else◌,
}
use casync.Format.Words.{u64-words}
use casync.Files.{loop_read, Files}
use casync.Index.{Index, index_read, on_file, enough_data}
use casync.Index.Open.{open_fd, read_head, write_head, open_index}
use casync.Index.Write.{item_bytes, tail_bytes}
use casync.Index.Read.{read_chunk, is_tail, take_item, take_tail, table_size, end_chunk}
use casync.Index.Table.{length-item_bytes, length-tail_bytes, u64-item, id-item}

-- An index to be read that has a file and has read its head.
unfoldable pub IsOpen : {F : Type 0} → Index F → F → Type 0
IsOpen i f = (i.fd ≡ some f) × (i.mode ≡ index_read) × (i.start_offset ≡ 64)

module _ {F : Type 0} (files : Files F) where
  pub opened : (i : Index F) (f : F) → i.fd ≡ some f → open_fd files i ≡ (i, ok false)
  unfolding open_fd
  opened i f o = ground arith

  pub no_head : (i : Index F) → i.start_offset ≡ 64 → read_head files i ≡ (i, ok tt)
  unfolding read_head
  no_head i o = ground arith

  no_write : (i : Index F) → i.mode ≡ index_read → write_head files i ≡ (i, ok tt)
  unfolding write_head
  no_write i o = ground arith

  pub open_index-IsOpen : (i : Index F) (f : F) → IsOpen i f → open_index files i ≡ (i, ok tt)
  unfolding open_index IsOpen
  open_index-IsOpen i f (o, m, s) = simp (opened i f o, no_head i s, no_write i m, open_index)

  abbrev pub after_read : Index F → F → ℕ → Index F
  after_read i f n = record i { fd = some (loop_read files f n).0 }

  -- After an item has been read
  abbrev pub after_item : Index F → F → ℕ → Index F
  after_item i f end = record i {
    fd = some f;
    previous_chunk_offset = end;
    item_position = wrap64 (i.item_position + 1);
    cooked_offset = wrap64 (i.cooked_offset + 40);
  }

  abbrev pub size_after : ℕ → ℕ → ℕ
  size_after previous end = if previous == max64 then max64 else end - previous

  item-not_tail :
      (size end : ℕ) (id : List ℕ)
      → 0 < end
      → end < max64
      → is_tail size (item_bytes end id) ≡ false
  unfolding is_tail
  item-not_tail size end id h l = ground (arith, u64-item end id (omega arith))

  pub read_chunk-read :
      (i : Index F) (f : F) (b : List ℕ)
      → IsOpen i f
      → (loop_read files f 40).1 ≡ ok b
      → length b ≡ 40
      → read_chunk files i
        ≡ (if is_tail (table_size i) b then take_tail files else take_item b) (after_read i f 40)
  unfolding read_chunk on_file enough_data IsOpen
  read_chunk-read i f b (o, m, s) r l =
      simp (open_index-IsOpen i f (o, m, s), m, o, r, l, read_chunk, on_file, enough_data)

  take_item-fits :
      (j : Index F) (g : F) (end : ℕ) (id : List ℕ)
      → j.fd ≡ some g
      → length id ≡ 32
      → end < max64
      → (j.previous_chunk_offset ≡ max64)
        ⊎ ((j.previous_chunk_offset < end) × (end - j.previous_chunk_offset ≤ j.chunk_size_max))
      → take_item (item_bytes end id) j ≡ (
        after_item j g end,
        ok (
          true,
          record { id = id; offset_end = end; size = size_after j.previous_chunk_offset end },
        ),
      )
  unfolding take_item
  take_item-fits j g end id o l small h =
      simp (u64-item end id (omega arith), id-item end id l)
        (elim h [ inl e ↦ ground arith | inr e ↦ ground arith ])

  -- `ca_index_read_chunk` before an item, by which the ends increase and no chunk is too large
  pub read_chunk-item :
      (i : Index F) (f : F) (end : ℕ) (id : List ℕ)
      → IsOpen i f
      → (loop_read files f 40).1 ≡ ok (item_bytes end id)
      → length id ≡ 32
      → 0 < end
      → end < max64
      → (i.previous_chunk_offset ≡ max64)
        ⊎ ((i.previous_chunk_offset < end) × (end - i.previous_chunk_offset ≤ i.chunk_size_max))
      → read_chunk files i ≡ (
        after_item i (loop_read files f 40).0 end,
        ok (
          true,
          record { id = id; offset_end = end; size = size_after i.previous_chunk_offset end },
        ),
      )
  read_chunk-item i f end id o r l positive small h =
      read_chunk-read i f (item_bytes end id) o r (length-item_bytes end id l)
      ∙ ap (λ t. (if t then take_tail files else take_item (item_bytes end id)) (after_read i f 40))
          (item-not_tail (table_size i) end id positive small)
      ∙ take_item-fits (after_read i f 40) (loop_read files f 40).0 end id refl l small h

  -- The tail is known as such where it records the table's size.
  tail-is_tail : (size : ℕ) → size < 18446744073709551616 → is_tail size (tail_bytes size) ≡ true
  unfolding is_tail tail_bytes
  tail-is_tail size h = ground (
    arith,
    sym (append-nil (tail_bytes size)),
    u64-words (0 ∷ 0 ∷ 48 ∷ size ∷ 5426561635123326161 ∷ []) [] 0 refl (omega arith),
    u64-words (0 ∷ 0 ∷ 48 ∷ size ∷ 5426561635123326161 ∷ []) [] 1 refl (omega arith),
    u64-words (0 ∷ 0 ∷ 48 ∷ size ∷ 5426561635123326161 ∷ []) [] 2 refl (omega arith),
    u64-words (0 ∷ 0 ∷ 48 ∷ size ∷ 5426561635123326161 ∷ []) [] 3 refl h,
    u64-words (0 ∷ 0 ∷ 48 ∷ size ∷ 5426561635123326161 ∷ []) [] 4 refl (omega arith),
  )

  pub read_chunk-tail :
      (i : Index F) (f : F)
      → IsOpen i f
      → (loop_read files f 40).1 ≡ ok (tail_bytes (table_size i))
      → (files.read (loop_read files f 40).0 1).1 ≡ ok []
      → (read_chunk files i).1 ≡ ok (false, end_chunk)
  unfolding take_tail on_file
  read_chunk-tail i f o r e =
      ap (λ t. t.1)
        (read_chunk-read i f (tail_bytes (table_size i)) o r (length-tail_bytes (table_size i))
          ∙ ap
              (λ t.
                (if t then take_tail files else take_item (tail_bytes (table_size i)))
                  (after_read i f 40))
              (tail-is_tail (table_size i) (omega arith)))
      ∙ simp (e, take_tail)
