-- ===== src/Buffer/Grow.antt =====
-- Making room: `realloc_buffer_acquire` and `realloc_buffer_extend` of src/realloc-buffer.c.
use mathlib.Core.Option.{some-injective}
use casync.Prelude.{
  pow_pos, ℕ, ◌+◌, ◌*◌, ◌≤◌, ◌<◌, max, ◌≡◌, refl, sym, ap, subst, ◌∙◌, some, List, arith, overwrite,
  take, drop, length, length-overwrite, take-append_le, take-take, take-drop, wrap64, take-all,
  align_to, align_to_bounds, Option-cases, inl, inr, dec_lt, ℕ_discrete,
}
use casync.Buffer.{Buffer, Heap, bytes, size, empty, new_size, regrow, acquire, extend}
use casync.Buffer.Contents.{IsValid, IsHeap, contents, length-contents, take-contents}

-- The new block does not exceed the address space: twice the old one and the request, rounded up.
abbrev pub Fits : Heap → Buffer → ℕ → Type 0
Fits m b n = max (b.allocated * 2) n + m.page_size ≤ 18446744073709551616

-- A buffer that was asked for `n` bytes: well formed, of that size, its bytes at offset `p`, and the old
-- contents kept as far as both go.
pub record Acquired (b : Buffer) (n : ℕ) (b' : Buffer) (p : ℕ) : Type 0 where
  pub valid : IsValid b'
  pub new_length : size b' ≡ n
  pub at_start : p ≡ b'.start
  pub keeps : (k : ℕ) → k ≤ n → k ≤ size b → take k (contents b') ≡ take k (contents b)

module _ (m : Heap) (hm : IsHeap m) (b : Buffer) (v : IsValid b) where
  pub new_size_bounds :
      (n : ℕ)
      → Fits m b n
      → (n ≤ new_size m (wrap64 (b.allocated * 2)) n)
        × (b.allocated * 2 ≤ new_size m (wrap64 (b.allocated * 2)) n)
        × (new_size m (wrap64 (b.allocated * 2)) n < 18446744073709551616)
  unfolding new_size
  new_size_bounds n fits =
      subst
        (λ page.
          (n ≤ align_to wanted page)
          × (b.allocated * 2 ≤ align_to wanted page)
          × (align_to wanted page < 18446744073709551616))
        (sym hm.page_power)
        (omega (
          arith,
          hm.page_power,
          pow_pos hm.page_bits,
          align_to_bounds hm.page_bits wanted (omega (arith, hm.page_small))
              (omega (arith, hm.page_power, pow_pos hm.page_bits)),
        ))
    where
      wanted : ℕ
      wanted = max (wrap64 (b.allocated * 2)) n

  regrow_lem :
      (ns : ℕ) {p : List ℕ}
      → b.allocated ≤ ns
      → regrow m b ns ≡ some p
      → (length p ≡ ns) × ((k : ℕ) → k ≤ size b → take k p ≡ take k (contents b))
  unfolding regrow contents
  regrow_lem ns {p} big e = elim (ℕ_discrete b.start 0) [
    | yes front ↦ (
      hm.realloc_length (bytes b.block) ns (moved front),
      λ k h.
          hm.realloc_keeps (bytes b.block) ns k (moved front) (omega (arith, v.sized, v.within))
            (omega (arith, v.within))
          ∙ sym (
              ap (λ z. take k (drop z (take b.end (bytes b.block)))) front
              ∙ take-take k b.end (bytes b.block) (omega arith)),
    )
    | no back ↦ elim (Option-cases (m.malloc ns)) [
      | inl failed ↦ absurd (ground (arith, failed))
      | inr (q, got) ↦ (
        ap length (sym (copied back q got))
            ∙ length-overwrite q 0 held (omega (arith, room q got))
            ∙ hm.malloc_length ns got,
        λ k h.
            ap (take k) (sym (copied back q got))
            ∙ unfold overwrite in
              take-append_le held (drop (0 + length held) q) k (omega (arith, held_length)),
      )
    ]
  ]
    where
      held : List ℕ
      held = drop b.start (take b.end (bytes b.block))

      held_length : length held ≡ size b
      held_length = length-contents b v

      moved : b.start ≡ 0 → m.realloc (bytes b.block) ns ≡ some p
      moved front = ground arith

      copied : ¬ (b.start ≡ 0) → (q : List ℕ) → m.malloc ns ≡ some q → overwrite q 0 held ≡ p
      copied back q got = ground (arith, got)

      room : (q : List ℕ) → m.malloc ns ≡ some q → 0 + length held ≤ length q
      room q got = omega (arith, held_length, hm.malloc_length ns got, v.within)

  acquire_empty : Acquired b 0 (empty b) 0
  unfolding empty
  acquire_empty = record {
    valid = ground arith;
    new_length = refl;
    at_start = refl;
    keeps = λ k h h'.
        ap (λ z. take z (contents (empty b))) {x = k} {y = 0} (omega arith)
        ∙ sym (ap (λ z. take z (contents b)) {x = k} {y = 0} (omega arith));
  }

  acquire_room :
      (n : ℕ) → b.start + n ≤ b.allocated → Acquired b n (record b { end = b.start + n }) b.start
  unfolding contents
  acquire_room n h = record {
    valid = ground arith;
    new_length = omega arith;
    at_start = refl;
    keeps = λ k p q.
        take-drop k b.start (take (b.start + n) (bytes b.block))
        ∙ ap (drop b.start) (take-take (b.start + k) (b.start + n) (bytes b.block) (omega arith))
        ∙ sym (take-contents b k v q);
  }

  acquire_regrown :
      (n ns : ℕ) {p : List ℕ}
      → n ≤ ns
      → b.allocated ≤ ns
      → ns < 18446744073709551616
      → regrow m b ns ≡ some p
      → Acquired b n (record { block = some p; allocated = ns; start = 0; end = n }) 0
  acquire_regrown n ns {p} enough big word e = record {
    valid = record {
      order = omega arith;
      within = enough;
      sized = (regrow_lem ns big e).0;
      word = word;
    };
    new_length = omega arith;
    at_start = refl;
    keeps = λ k h h'. unfold contents in take-take k n p h ∙ (regrow_lem ns big e).1 k h';
  }

  -- What `realloc_buffer_acquire` promises, on each of its branches.
  pub acquire-Acquired :
      (n : ℕ) {out : Buffer × ℕ} → Fits m b n → acquire m b n ≡ some out → Acquired b n out.0 out.1
  unfolding acquire
  acquire-Acquired n {out} fits e = elim (ℕ_discrete n 0) [
    | yes zero ↦
        answer (empty b, 0) (ground arith)
          (subst (λ z. Acquired b z (empty b) 0) (sym zero) acquire_empty)
    | no positive ↦ elim (dec_lt b.allocated (b.start + n)) [
      | no room ↦
          answer (record b { end = b.start + n }, b.start) (ground (arith, small))
            (acquire_room n (omega arith))
      | yes more ↦ elim (Option-cases (regrow m b (new_size m (wrap64 (b.allocated * 2)) n))) [
        | inl failed ↦ absurd (ground (arith, failed, small))
        | inr (p, got) ↦
            answer
              (
                record {
                  block = some p;
                  allocated = new_size m (wrap64 (b.allocated * 2)) n;
                  start = 0;
                  end = n;
                },
                0,
              )
              (ground (arith, got, small))
              (acquire_regrown n (new_size m (wrap64 (b.allocated * 2)) n)
                (new_size_bounds n fits).0 (omega (arith, new_size_bounds n fits))
                (new_size_bounds n fits).2 got)
      ]
    ]
  ]
    where
      small : n < 18446744073709551616
      small = omega (arith, hm.page_power, pow_pos hm.page_bits)

      answer :
          (o : Buffer × ℕ)
          → acquire m b n ≡ some o
          → Acquired b n o.0 o.1
          → Acquired b n out.0 out.1
      answer o known a = subst (λ z. Acquired b n z.0 z.1) (some-injective o out (sym known ∙ e)) a

  -- `realloc_buffer_extend`: so many bytes more behind the old ones, and a pointer to them.
  pub extend_lem :
      (add : ℕ) {out : Buffer × ℕ}
      → Fits m b (size b + add)
      → extend m b add ≡ some out
      → IsValid out.0
        × (size out.0 ≡ size b + add)
        × (out.1 ≡ out.0.start + size b)
        × (take (size b) (contents out.0) ≡ contents b)
  unfolding extend
  extend_lem add {out} fits e = elim (Option-cases (acquire m b (wrap64 (size b + add)))) [
    | inl failed ↦ absurd (ground (arith, failed))
    | inr (o, got) ↦
        subst Extended (some-injective (o.0, o.1 + size b) out (sym (known o got) ∙ e)) (
          (grown o got).valid,
          (grown o got).new_length,
          ap (λ z. z + size b) (grown o got).at_start,
          (grown o got).keeps (size b) (omega arith) (omega arith)
              ∙ take-all (contents b) (size b) (omega (arith, length-contents b v)),
        )
  ]
    where
      Extended : Buffer × ℕ → Type 0
      Extended z =
          IsValid z.0
          × (size z.0 ≡ size b + add)
          × (z.1 ≡ z.0.start + size b)
          × (take (size b) (contents z.0) ≡ contents b)

      exact : wrap64 (size b + add) ≡ size b + add
      exact = omega (arith, hm.page_power, pow_pos hm.page_bits)

      grown :
          (o : Buffer × ℕ)
          → acquire m b (wrap64 (size b + add)) ≡ some o
          → Acquired b (size b + add) o.0 o.1
      grown o got = acquire-Acquired (size b + add) fits (sym (ap (acquire m b) exact) ∙ got)

      known :
          (o : Buffer × ℕ)
          → acquire m b (wrap64 (size b + add)) ≡ some o
          → extend m b add ≡ some (o.0, o.1 + size b)
      known o got = ground (arith, got, exact)
