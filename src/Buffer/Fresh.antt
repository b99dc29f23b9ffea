-- ===== src/Buffer/Fresh.antt =====
-- `realloc_buffer_acquire0` and `realloc_buffer_steal` of src/realloc-buffer.c: a zeroed buffer, and
-- handing the contents over.
use mathlib.Core.Option.{some-injective}
use casync.Prelude.{
  ℕ, zero, suc, ◌+◌, ◌*◌, ◌≤◌, ◌<◌, ◌≡◌, refl, sym, ap, subst, ◌∙◌, Option, none, some, List, [],
  ◌∷◌, arith, overwrite, take, drop, length, length-replicate, length-overwrite, replicate,
  take-append, wrap64, Option-cases, inl, inr, dec_lt, ℕ_discrete,
}
use casync.Buffer.{Buffer, Heap, bytes, size, empty, new_size, acquire0, steal, free}
use casync.Buffer.Contents.{IsValid, IsHeap, contents, length-contents}
use casync.Buffer.Grow.{Fits, new_size_bounds}

take-replicate : (n k : ℕ) → n ≤ k → take {A = ℕ} n (replicate k 0) ≡ replicate n 0
take-replicate zero k h = refl
take-replicate (suc n) zero h = absurd (omega arith)
take-replicate (suc n) (suc k) h = ap (λ t. 0 ∷ t) (take-replicate n k (omega arith))

take-overwrite : (w q : List ℕ) (n : ℕ) → length q ≡ n → take n (overwrite w 0 q) ≡ q
unfolding overwrite
take-overwrite w q n h = take-append q (drop (0 + length q) w) n (sym h)

-- A buffer of so many zero bytes, and the pointer to the first.
abbrev Zeroed : ℕ → Buffer × ℕ → Type 0
Zeroed n out = IsValid out.0 × (contents out.0 ≡ replicate n 0) × (out.1 ≡ 0)

abbrev Stolen : Buffer → Buffer × Option (List ℕ) → Type 0
Stolen b out =
    IsValid out.0
    × (contents out.0 ≡ [])
    × (out.0.allocated ≡ 0)
    × (take (size b) (bytes out.1) ≡ contents b)

free_lem : (b : Buffer) → IsValid (free b) × (contents (free b) ≡ []) × ((free b).allocated ≡ 0)
unfolding free contents
free_lem b = (
  record { order = omega arith; within = omega arith; sized = refl; word = omega arith },
  refl,
  refl,
)

-- `realloc_buffer_acquire0` of a buffer that has no memory yet fails for every size but 0, whatever the
-- heap gives.
pub acquire0_without_memory :
    (m : Heap) (b : Buffer) (n : ℕ) → b.allocated ≡ 0 → 0 < n → acquire0 m b n ≡ none
unfolding acquire0
acquire0_without_memory m b n unallocated positive = ground arith

module _ (m : Heap) (hm : IsHeap m) (b : Buffer) (v : IsValid b) where
  empty-Zeroed : Zeroed 0 (empty b, 0)
  unfolding empty contents
  empty-Zeroed = (ground arith, refl, refl)

  set-Zeroed :
      (n : ℕ)
      → n < b.allocated
      → Zeroed n (
        record b { block = some (overwrite (bytes b.block) 0 (replicate n 0)); start = 0; end = n },
        0,
      )
  unfolding contents
  set-Zeroed n h = (
    record {
      order = omega arith;
      within = omega arith;
      sized =
          length-overwrite (bytes b.block) 0 (replicate n 0)
            (omega (arith, length-replicate {A = ℕ} n 0, v.sized))
          ∙ v.sized;
      word = v.word;
    },
    take-overwrite (bytes b.block) (replicate n 0) n (length-replicate {A = ℕ} n 0),
    refl,
  )

  new-Zeroed :
      (n ns : ℕ) {p : List ℕ}
      → n ≤ ns
      → ns < 18446744073709551616
      → m.calloc ns ≡ some p
      → Zeroed n (record { block = some p; allocated = ns; start = 0; end = n }, 0)
  unfolding contents
  new-Zeroed n ns {p} h word got = (
    record {
      order = omega arith;
      within = h;
      sized = ap length (hm.calloc_zero ns got) ∙ length-replicate {A = ℕ} ns 0;
      word = word;
    },
    ap (take n) (hm.calloc_zero ns got) ∙ take-replicate n ns h,
    refl,
  )

  -- `realloc_buffer_acquire0`, where it does not fail, leaves exactly so many zero bytes and returns a
  -- pointer to the first.
  pub acquire0_lem :
      (n : ℕ) {out : Buffer × ℕ}
      → Fits m b n
      → acquire0 m b n ≡ some out
      → IsValid out.0 × (contents out.0 ≡ replicate n 0) × (out.1 ≡ 0)
  unfolding acquire0
  acquire0_lem n {out} fits e = elim (ℕ_discrete n 0) [
    | yes nought ↦
        answer (empty b, 0) (ground arith)
          (subst (λ z. Zeroed z (empty b, 0)) (sym nought) empty-Zeroed)
    | no positive ↦ elim (dec_lt n b.allocated) [
      | yes room ↦
          answer
            (
              record b {
                block = some (overwrite (bytes b.block) 0 (replicate n 0));
                start = 0;
                end = n;
              },
              0,
            )
            (ground arith) (set-Zeroed n room)
      | no full ↦ elim (Option-cases (m.calloc (new_size m (wrap64 (b.allocated * 2)) n))) [
        | inl failed ↦ absurd (ground (arith, failed))
        | inr (p, got) ↦
            answer
              (
                record {
                  block = some p;
                  allocated = new_size m (wrap64 (b.allocated * 2)) n;
                  start = 0;
                  end = n;
                },
                0,
              )
              (ground (arith, got))
              (new-Zeroed n (new_size m (wrap64 (b.allocated * 2)) n) bounds.0 bounds.2 got)
      ]
    ]
  ]
    where
      bounds :
          (n ≤ new_size m (wrap64 (b.allocated * 2)) n)
          × (b.allocated * 2 ≤ new_size m (wrap64 (b.allocated * 2)) n)
          × (new_size m (wrap64 (b.allocated * 2)) n < 18446744073709551616)
      bounds = new_size_bounds m hm b v n fits

      answer : (o : Buffer × ℕ) → acquire0 m b n ≡ some o → Zeroed n o → Zeroed n out
      answer o known z = subst (Zeroed n) (some-injective o out (sym known ∙ e)) z

  -- `realloc_buffer_steal`, where it does not fail, hands over a block that begins with the contents, and
  -- leaves an empty buffer without memory.
  pub steal_lem :
      {out : Buffer × Option (List ℕ)}
      → steal m b ≡ some out
      → IsValid out.0
        × (contents out.0 ≡ [])
        × (out.0.allocated ≡ 0)
        × (take (size b) (bytes out.1) ≡ contents b)
  unfolding steal
  steal_lem {out} e = elim (ℕ_discrete b.start 0) [
    | yes front ↦ answer b.block (ground arith) (
        unfold contents in
        ap (λ n. take n (bytes b.block)) {x = size b} {y = b.end} (omega arith)
        ∙ sym (ap (λ n. drop n (take b.end (bytes b.block))) front))
    | no back ↦ elim (Option-cases (m.malloc (size b))) [
      | inl failed ↦ absurd (ground (arith, failed))
      | inr (p, got) ↦
          answer (some (overwrite p 0 (drop b.start (take b.end (bytes b.block)))))
            (ground (arith, got))
            (unfold contents in take-overwrite p (contents b) (size b) (length-contents b v))
    ]
  ]
    where
      answer :
          (handed : Option (List ℕ))
          → steal m b ≡ some (free b, handed)
          → take (size b) (bytes handed) ≡ contents b
          → Stolen b out
      answer handed known z =
          subst (Stolen b) (some-injective (free b, handed) out (sym known ∙ e))
            ((free_lem b).0, (free_lem b).1, (free_lem b).2, z)
