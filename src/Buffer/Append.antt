-- ===== src/Buffer/Append.antt =====
-- Adding bytes: `realloc_buffer_append`, `realloc_buffer_extend0`, `realloc_buffer_acquire0` and
-- `realloc_buffer_read` of src/realloc-buffer.c.
use mathlib.Core.Option.{some-injective}
use casync.Prelude.{
  ℕ, ◌+◌, ◌-◌, ◌*◌, ◌≤◌, ◌<◌, pow_pos, ◌≡◌, refl, sym, ap, subst, ◌∙◌, none, some, List, [], ◌++◌,
  arith, take, drop, length, replicate, length-replicate, append-nil, Option-cases, inl, inr, true,
  Result, ok, err, enomem, ◌>>=◌, ◌⊎◌, ltb, ℕ_discrete, wrap64, take-all, take-append,
  length-append, append_assoc,
}
use casync.Buffer.{
  Buffer, Heap, bytes, new_size, regrow, acquire, size, store, extend, append, extend0, read,
  shortened, buffer_size,
}
use casync.Buffer.Contents.{
  IsValid, IsHeap, contents, length-contents, contents-store, store_fields,
}
use casync.Buffer.Grow.{Fits, extend_lem}
use casync.Buffer.Shrink.{shorten_lem}

-- The bytes that read() gave.
abbrev pub received : Result (List ℕ) → List ℕ
received (ok q) = q
received (err e) = []

module _ (m : Heap) (hm : IsHeap m) (b : Buffer) (v : IsValid b) where
  -- Bytes written through the pointer of `extend` stand behind the old ones, and what was not written
  -- stands behind those.
  store_extended :
      (add : ℕ) (q : List ℕ) {out : Buffer × ℕ}
      → Fits m b (size b + add)
      → length q ≤ add
      → extend m b add ≡ some out
      → IsValid (store out.0 out.1 q)
        × (take (size b + length q) (contents (store out.0 out.1 q)) ≡ contents b ++ q)
        × (length (contents (store out.0 out.1 q)) ≡ size b + add)
  store_extended add q {out} fits h e =
      subst
        (λ at.
          IsValid (store out.0 at q)
          × (take (size b + length q) (contents (store out.0 at q)) ≡ contents b ++ q)
          × (length (contents (store out.0 at q)) ≡ size b + add))
        (sym g.2)
        (
          written.0,
          ap (take (size b + length q)) form
              ∙ take-append (contents b ++ q) rest (size b + length q)
                  (omega (arith, length-append (contents b) q, length-contents b v)),
          length-contents (store out.0 at q) written.0
              ∙ omega (arith, store_fields out.0 at q, g.1),
        )
    where
      g :
          IsValid out.0
          × (size out.0 ≡ size b + add)
          × (out.1 ≡ out.0.start + size b)
          × (take (size b) (contents out.0) ≡ contents b)
      g = extend_lem m hm b v add fits e

      at : ℕ
      at = out.0.start + size b

      rest : List ℕ
      rest = drop (size b + length q) (contents out.0)

      written :
          IsValid (store out.0 at q)
          × (contents (store out.0 at q) ≡ take (size b) (contents out.0) ++ (q ++ rest))
      written = contents-store out.0 (size b) q g.0 (omega (arith, g.1))

      form : contents (store out.0 at q) ≡ (contents b ++ q) ++ rest
      form = written.1 ∙ ap (λ z. z ++ (q ++ rest)) g.3 ∙ sym (append_assoc (contents b) q rest)

  -- All that was asked for is written.
  store_all :
      (q : List ℕ) {out : Buffer × ℕ}
      → Fits m b (size b + length q)
      → extend m b (length q) ≡ some out
      → IsValid (store out.0 out.1 q) × (contents (store out.0 out.1 q) ≡ contents b ++ q)
  store_all q {out} fits e = (
    (store_extended (length q) q fits (omega arith) e).0,
    sym (
          take-all (contents (store out.0 out.1 q)) (size b + length q)
            (omega (arith, (store_extended (length q) q fits (omega arith) e).2)))
        ∙ (store_extended (length q) q fits (omega arith) e).1,
  )

  -- `realloc_buffer_append`, where it does not fail, adds the bytes at the end.
  pub append_lem :
      (q : List ℕ) {out : Buffer × ℕ}
      → Fits m b (size b + length q)
      → append m b q ≡ some out
      → IsValid out.0 × (contents out.0 ≡ contents b ++ q)
  unfolding append
  append_lem q {out} fits e = elim (Option-cases (extend m b (length q))) [
    | inl failed ↦ absurd (ground (arith, failed))
    | inr (o, got) ↦
        subst (λ z. IsValid z.0 × (contents z.0 ≡ contents b ++ q))
          (some-injective (store o.0 o.1 q, o.1) out (ground (arith, got))) (store_all q fits got)
  ]

  -- `realloc_buffer_extend0`, where it does not fail, adds so many zero bytes at the end.
  pub extend0_lem :
      (add : ℕ) {out : Buffer × ℕ}
      → Fits m b (size b + add)
      → extend0 m b add ≡ some out
      → IsValid out.0 × (contents out.0 ≡ contents b ++ replicate add 0)
  unfolding extend0
  extend0_lem add {out} fits e = elim (Option-cases (extend m b add)) [
    | inl failed ↦ absurd (ground (arith, failed))
    | inr (o, got) ↦
        subst (λ z. IsValid z.0 × (contents z.0 ≡ contents b ++ replicate add 0))
          (some-injective (store o.0 o.1 (replicate add 0), o.1) out (ground (arith, got)))
          (store_all (replicate add 0)
            (subst (λ n. Fits m b (size b + n)) (sym (length-replicate add 0)) fits)
            (ap (extend m b) (length-replicate add 0) ∙ got))
  ]

  -- The heap gives no block of some size.
  abbrev pub Refused : Type 0
  Refused = (n : ℕ) × ((m.malloc n ≡ none) ⊎ (m.realloc (bytes b.block) n ≡ none))

  regrow-Refused : (n : ℕ) → regrow m b n ≡ none → Refused
  unfolding regrow
  regrow-Refused n e = elim (ℕ_discrete b.start 0) [
    | yes front ↦ (n, inr (ground arith))
    | no back ↦ elim (Option-cases (m.malloc n)) [
      | inl none_given ↦ (n, inl none_given)
      | inr (p, given) ↦ absurd (ground (arith, given))
    ]
  ]

  extend-Refused : Fits m b (size b + buffer_size) → extend m b buffer_size ≡ none → Refused
  unfolding extend acquire
  extend-Refused fits e =
      let small : b.allocated * 2 < 18446744073709551616 =
        omega (arith, hm.page_power, pow_pos hm.page_bits) in
      let ns = new_size m (wrap64 (b.allocated * 2)) (wrap64 (size b + buffer_size)) in
      elim (Option-cases (regrow m b ns)) [
        | inl none_given ↦ regrow-Refused ns none_given
        | inr (p, given) ↦ absurd (ground (arith, given, v.order, v.within))
      ]

  shortened_lem :
      (c : Buffer) (sz : ℕ)
      → IsValid c
      → sz ≤ size c
      → IsValid (shortened c sz) × (contents (shortened c sz) ≡ take (size c - sz) (contents c))
  unfolding shortened
  shortened_lem c sz w h = elim (shorten_lem c sz w) [
    | inl (more, _) ↦ absurd (omega arith)
    | inr (c', e, w', same) ↦ rw (e, shortened) (w', same)
  ]

  -- Where read() gives at most as many bytes as are asked for, and a new block would fit the address space,
  -- `realloc_buffer_read` of a well-formed buffer adds the bytes that read() gave at the end and says whether there were any, or gives the error
  -- of read() and leaves the contents as they were; or the heap refuses memory, the result is ENOMEM and the contents stay
  -- as they were. The buffer stays well formed.
  pub read_lem :
      (input : Result (List ℕ))
      → Fits m b (size b + buffer_size)
      → length (received input) ≤ buffer_size
      → let out = read m b true input in
        IsValid out.0
        × ((Refused × (out.1 ≡ err enomem) × (contents out.0 ≡ contents b))
            ⊎ ((contents out.0 ≡ contents b ++ received input)
                × (out.1 ≡ (input >>= λ q. ok (ltb 0 (length q))))))
  unfolding read
  read_lem (err e) fits h = elim (Option-cases (extend m b buffer_size)) [
    | inl failed ↦ rw failed (v, inl (extend-Refused fits failed, refl, refl))
    | inr (o, got) ↦
        rw got ((undone o got).0, inr ((undone o got).1 ∙ sym (append-nil (contents b)), refl))
  ]
    where
      undone :
          (o : Buffer × ℕ)
          → extend m b buffer_size ≡ some o
          → IsValid (shortened o.0 buffer_size)
            × (contents (shortened o.0 buffer_size) ≡ contents b)
      undone o got =
          let g = extend_lem m hm b v buffer_size fits got in
          let s = shortened_lem o.0 buffer_size g.0 (omega (arith, g.1)) in
          (
            s.0,
            s.1
                ∙ ap (λ n. take n (contents o.0)) {x = size o.0 - buffer_size} {y = size b}
                    (omega (arith, g.1))
                ∙ g.3,
          )
  read_lem (ok q) fits h = elim (Option-cases (extend m b buffer_size)) [
    | inl failed ↦ rw failed (v, inl (extend-Refused fits failed, refl, refl))
    | inr (o, got) ↦ rw got ((kept o got).0, inr ((kept o got).1, refl))
  ]
    where
      kept :
          (o : Buffer × ℕ)
          → extend m b buffer_size ≡ some o
          → IsValid (shortened (store o.0 o.1 q) (buffer_size - length q))
            × (contents (shortened (store o.0 o.1 q) (buffer_size - length q)) ≡ contents b ++ q)
      kept o got =
          let g = store_extended buffer_size q fits h got in
          let total = length-contents (store o.0 o.1 q) g.0 in
          let s =
            shortened_lem (store o.0 o.1 q) (buffer_size - length q) g.0
              (omega (arith, total, g.2)) in
          (
            s.0,
            s.1
                ∙ ap (λ n. take n (contents (store o.0 o.1 q)))
                    {x = size (store o.0 o.1 q) - (buffer_size - length q)} {y = size b + length q}
                    (omega (arith, total, g.2))
                ∙ g.1,
          )
