-- ===== src/Buffer/Shrink.antt =====
-- Taking bytes away: `realloc_buffer_advance`, `realloc_buffer_shorten` and `realloc_buffer_truncate` of
-- src/realloc-buffer.c.
use casync.Prelude.{
  ℕ, ◌+◌, ◌-◌, ◌≤◌, ◌<◌, ◌≡◌, refl, sym, ap, ◌∙◌, [], arith, take, drop, drop-drop, drop-all,
  take-all, wrap64, ok, err, einval, inl, inr, dec_lt, ℕ_discrete, ◌⊎◌,
}
use casync.Buffer.{Buffer, bytes, size, empty, advance, shorten, truncate}
use casync.Buffer.Contents.{IsValid, contents, length-contents, take-contents}

empty-IsValid : (b : Buffer) → IsValid b → IsValid (empty b)
unfolding empty
empty-IsValid b v = ground arith

pub contents-empty : (b : Buffer) → contents (empty b) ≡ []
unfolding empty contents
contents-empty b = refl

-- `realloc_buffer_advance` of a well-formed buffer, asked for a number below 2 ^ 64, gives EINVAL if that is more than
-- there is, and if it is not, drops so many bytes from the front and leaves a well-formed buffer.
pub advance_lem :
    (b : Buffer) (sz : ℕ)
    → IsValid b
    → sz < 18446744073709551616
    → (size b < sz × (advance b sz ≡ err einval))
      ⊎ ((sz ≤ size b)
          × (b' : Buffer) × (advance b sz ≡ ok b')
          × IsValid b'
          × (contents b' ≡ drop sz (contents b)))
unfolding advance
advance_lem b sz v small = elim (dec_lt (size b) sz) [
  | yes more ↦ inl (more, ground arith)
  | no fits ↦ elim (ℕ_discrete sz 0) [
    | yes none_asked ↦ inr (omega arith, b, ground arith, v, rw none_asked)
    | no some_asked ↦ elim (ℕ_discrete (b.start + sz) b.end) [
      | yes all ↦ inr (
        omega arith,
        empty b,
        ground arith,
        empty-IsValid b v,
        contents-empty b
            ∙ sym (drop-all (contents b) sz (omega (arith, length-contents b v, v.order))),
      )
      | no part ↦ inr (
        omega arith,
        record b { start = b.start + sz },
        ground arith,
        ground arith,
        unfold contents in sym (drop-drop sz b.start (take b.end (bytes b.block))),
      )
    ]
  ]
]

-- `realloc_buffer_shorten` fails exactly if it is asked for more than there is, and otherwise drops so
-- many bytes from the end.
pub shorten_lem :
    (b : Buffer) (sz : ℕ)
    → IsValid b
    → (size b < sz × (shorten b sz ≡ err einval))
      ⊎ ((b' : Buffer) × (shorten b sz ≡ ok b')
          × IsValid b'
          × (contents b' ≡ take (size b - sz) (contents b)))
unfolding shorten
shorten_lem b sz v = elim (dec_lt (size b) sz) [
  | yes more ↦ inl (more, ground arith)
  | no fits ↦ elim (ℕ_discrete sz 0) [
    | yes none_asked ↦ inr (
      b,
      ground arith,
      v,
      sym (take-all (contents b) (size b - sz) (omega (arith, length-contents b v))),
    )
    | no some_asked ↦ elim (ℕ_discrete (b.end - sz) b.start) [
      | yes all ↦ inr (
        empty b,
        ground arith,
        empty-IsValid b v,
        contents-empty b
            ∙ sym
                (ap (λ n. take n (contents b)) {x = size b - sz} {y = 0} (omega (arith, v.order))),
      )
      | no part ↦ inr (
        record b { end = b.end - sz },
        ground arith,
        ground arith,
        unfold contents in
            ap (λ n. drop b.start (take n (bytes b.block))) {x = b.end - sz}
              {y = b.start + (size b - sz)} (omega (arith, v.order))
            ∙ sym (take-contents b (size b - sz) v (omega arith)),
      )
    ]
  ]
]

-- `realloc_buffer_truncate` fails exactly if it is asked for more than there is, and otherwise keeps so
-- many bytes from the front.
pub truncate_lem :
    (b : Buffer) (sz : ℕ)
    → IsValid b
    → (size b < sz × (truncate b sz ≡ err einval))
      ⊎ ((b' : Buffer) × (truncate b sz ≡ ok b')
          × IsValid b'
          × (contents b' ≡ take sz (contents b)))
unfolding truncate
truncate_lem b sz v = elim (ℕ_discrete sz 0) [
  | yes all ↦ inr (empty b, ground arith, empty-IsValid b v, rw all (contents-empty b))
  | no kept ↦ elim (dec_lt (size b) sz) [
    | yes more ↦ inl (more, ground arith)
    | no fits ↦ inr (
      record b { end = wrap64 (b.start + sz) },
      ground arith,
      ground arith,
      unfold contents in
          ap (λ n. drop b.start (take n (bytes b.block))) {x = wrap64 (b.start + sz)}
            {y = b.start + sz} (omega (arith, v.order, v.within, v.word))
          ∙ sym (take-contents b sz v (omega arith)),
    )
  ]
]
