-- ===== src/Buffer/Contents.antt =====
-- The bytes that a buffer of src/realloc-buffer.c holds, when it is well formed, and what is asked of the
-- heap.
use casync.Prelude.{
  ℕ, ◌+◌, ◌^◌, ◌≤◌, ◌<◌, ◌≡◌, refl, sym, ap, ◌∙◌, some, List, ◌++◌, arith, overwrite, take, drop,
  length, replicate, length-take, length-drop, length-overwrite, take-take, take-drop, Option-cases,
  inl, inr, drop-take-overwrite, overwrite-nil,
}
use casync.Buffer.{Buffer, Heap, bytes, size, store}

-- The assertions of `realloc_buffer_data`, and that the block has the size that is recorded.
pub record IsValid (b : Buffer) : Type 0 where
  pub order : b.start ≤ b.end
  pub within : b.end ≤ b.allocated
  pub sized : length (bytes b.block) ≡ b.allocated
  pub word : b.allocated < 18446744073709551616

-- What the C library says of its heap, and the system of its page size.
pub record IsHeap (m : Heap) : Type 0 where
  pub malloc_length : (n : ℕ) {p : List ℕ} → m.malloc n ≡ some p → length p ≡ n
  pub calloc_zero : (n : ℕ) {p : List ℕ} → m.calloc n ≡ some p → p ≡ replicate n 0
  pub realloc_length : (old : List ℕ) (n : ℕ) {p : List ℕ} → m.realloc old n ≡ some p → length p ≡ n
  pub realloc_keeps :
      (old : List ℕ) (n k : ℕ) {p : List ℕ}
      → m.realloc old n ≡ some p
      → k ≤ length old
      → k ≤ n
      → take k p ≡ take k old
  pub page_bits : ℕ
  pub page_power : m.page_size ≡ 2 ^ page_bits
  pub page_small : page_bits ≤ 62

unfoldable pub contents : Buffer → List ℕ
contents b = drop b.start (take b.end (bytes b.block))

pub length-contents : (b : Buffer) → IsValid b → length (contents b) ≡ size b
unfolding contents
length-contents b v = omega (
  arith,
  v.order,
  v.within,
  v.sized,
  length-drop b.start (take b.end (bytes b.block)),
  length-take b.end (bytes b.block),
)

-- The first `n` bytes of the contents lie at the start index.
pub take-contents :
    (b : Buffer) (n : ℕ)
    → IsValid b
    → n ≤ size b
    → take n (contents b) ≡ drop b.start (take (b.start + n) (bytes b.block))
unfolding contents
take-contents b n v h =
    take-drop n b.start (take b.end (bytes b.block))
    ∙ ap (drop b.start) (take-take (b.start + n) b.end (bytes b.block) (omega (arith, v.order)))

bytes-store :
    (b : Buffer) (at : ℕ) (q : List ℕ)
    → at + length q ≤ length (bytes b.block)
    → bytes (store b at q).block ≡ overwrite (bytes b.block) at q
unfolding store
bytes-store b at q h = elim (Option-cases b.block) [
  | inl e ↦ rw (e, store, bytes) (rw e (sym (overwrite-nil at q (rw e at h))))
  | inr (p, e) ↦ rw e refl
]

-- Only the block is written.
pub store_fields :
    (b : Buffer) (at : ℕ) (q : List ℕ)
    → ((store b at q).start ≡ b.start)
      × ((store b at q).end ≡ b.end)
      × ((store b at q).allocated ≡ b.allocated)
unfolding store
store_fields b at q = ground arith

-- Writing within the contents.
pub contents-store :
    (b : Buffer) (n : ℕ) (q : List ℕ)
    → IsValid b
    → n + length q ≤ size b
    → IsValid (store b (b.start + n) q)
      × (contents (store b (b.start + n) q)
          ≡ take n (contents b) ++ (q ++ drop (n + length q) (contents b)))
contents-store b n q v h = (
  valid,
  unfold contents in
      same
      ∙ drop-take-overwrite (bytes b.block) b.start b.end n q (omega (arith, v.order))
          (omega (arith, v.within, v.sized)),
)
  where
    fields :
        ((store b (b.start + n) q).start ≡ b.start)
        × ((store b (b.start + n) q).end ≡ b.end)
        × ((store b (b.start + n) q).allocated ≡ b.allocated)
    fields = store_fields b (b.start + n) q

    written : bytes (store b (b.start + n) q).block ≡ overwrite (bytes b.block) (b.start + n) q
    written = bytes-store b (b.start + n) q (omega (arith, v.order, v.within, v.sized))

    valid : IsValid (store b (b.start + n) q)
    valid = record {
      order = omega (arith, fields, v.order);
      within = omega (arith, fields, v.within);
      sized =
          ap length written
          ∙ length-overwrite (bytes b.block) (b.start + n) q
              (omega (arith, v.order, v.within, v.sized))
          ∙ v.sized
          ∙ sym fields.2;
      word = omega (arith, fields, v.word);
    }

    same :
        drop
          (store b (b.start + n) q).start
          (take (store b (b.start + n) q).end (bytes (store b (b.start + n) q).block))
        ≡ drop b.start (take b.end (overwrite (bytes b.block) (b.start + n) q))
    same = λ i. drop (fields.0 i) (take (fields.1 i) (written i))
