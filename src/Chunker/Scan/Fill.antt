-- ===== src/Chunker/Scan/Fill.antt =====
-- The first part of `ca_chunker_scan` of src/cachunker.c, that fills the window.
use casync.Prelude.{
  overwrite, ℕ, ◌+◌, ◌-◌, ◌%◌, ◌≤◌, ◌<◌, ◌≡◌, refl, sym, ap, ap₂, ◌∙◌, List, [], ◌∷◌, ◌++◌, arith,
  length, drop, take, length-append, length-take, length-drop, append-nil, append_assoc, false,
  if◌then◌else◌, none, some, wrap64, take-all, take-append, ring, zero-bit_xor,
}
use casync.Chunker.{Chunker, window_length, fill, start}
use casync.Chunker.Rolling.{hash, start-hash}
use casync.Chunker.Border.{recent, ends, border}
use casync.Chunker.Scan.State.{Tracks}

module _ (lo hi d : ℕ) where
  ends-short : (s : List ℕ) → length s < window_length → ends lo hi d s ≡ false
  unfolding ends
  ends-short s h = ground arith

  -- No chunk ends before the window is full.
  pub border-short :
      (s q : List ℕ) → length s + length q < window_length → border lo hi d s q ≡ none
  unfolding border
  border-short s [] h = refl
  border-short s (x ∷ q) h =
      ground
        (arith, length-append s (x ∷ []), ends-short (s ++ x ∷ []), border-short (s ++ x ∷ []) q)

  -- With the data that fills the window, it may end there.
  pub border-full :
      (s q : List ℕ)
      → length s + length q ≡ window_length
      → 1 ≤ length q
      → border lo hi d s q ≡ (if ends lo hi d (s ++ q) then some (length q) else none)
  unfolding border
  border-full s [] h pos = absurd (omega arith)
  border-full s (x ∷ []) h pos = refl
  border-full s (x ∷ y ∷ q) h pos = ground (
    arith,
    length-append s (x ∷ []),
    ends-short (s ++ x ∷ []),
    append_assoc s (x ∷ []) (y ∷ q),
    border-full (s ++ x ∷ []) (y ∷ q),
  )

module _ (c : Chunker) (s a : List ℕ) (t : Tracks c s) (room : length s < window_length) where
  -- The window after `memcpy` begins with the bytes of the chunk.
  overwrite-take :
      length s + length a ≤ window_length
      → take (length (s ++ a)) (overwrite c.window c.window_size a) ≡ s ++ a
  unfolding overwrite
  overwrite-take fits =
      ap (λ w. take (length (s ++ a)) w)
        (ap (λ u. u ++ (a ++ drop (c.window_size + length a) c.window)) begins
          ∙ sym (append_assoc s a (drop (c.window_size + length a) c.window)))
      ∙ take-append (s ++ a) (drop (c.window_size + length a) c.window) (length (s ++ a)) refl
    where
      begins : take c.window_size c.window ≡ s
      begins =
          ap (λ n. take n c.window) {x = c.window_size} {y = length s} (omega (arith, t.filled))
          ∙ (t.short room).1

  length-overwrite :
      length s + length a ≤ window_length
      → length (overwrite c.window c.window_size a) ≡ window_length
  unfolding overwrite
  length-overwrite fits = omega (
    arith,
    t.storage,
    t.filled,
    length-append (take c.window_size c.window) (a ++ drop (c.window_size + length a) c.window),
    length-append a (drop (c.window_size + length a) c.window),
    length-take c.window_size c.window,
    length-drop (c.window_size + length a) c.window,
  )

  -- `m` bytes that do not fill the window are kept in it.
  pub fill-Tracks :
      (m : ℕ) (q : List ℕ)
      → take m q ≡ a
      → m ≡ length a
      → length s + length a < window_length
      → Tracks (fill c m q) (s ++ a)
  unfolding fill
  fill-Tracks m q e em fits = rw e (record {
    size = omega (arith, t.size, length-append s a);
    storage = length-overwrite (omega arith);
    filled = omega (arith, t.filled, length-append s a);
    short = λ _. ((t.short room).0, overwrite-take (omega arith));
    full = λ big. absurd (omega (arith, length-append s a));
  })

  -- `m` bytes that fill it: the hash that is started is the one of the last 48 bytes.
  pub fill_started :
      (m : ℕ) (q : List ℕ)
      → take m q ≡ a
      → m ≡ length a
      → length s + length a ≡ window_length
      → let filled = fill c m q in
        let v = start filled.h (take filled.window_size filled.window) in
        (v ≡ hash (recent (s ++ a)))
        × (filled.window_size ≡ window_length)
        × Tracks (record filled { h = v }) (s ++ a)
  unfolding fill
  fill_started m q e em fits = (
    hashed,
    sized,
    record {
      size = omega (arith, t.size, length-append s a);
      storage = rw e (length-overwrite (omega arith));
      filled = omega (arith, t.filled, length-append s a);
      short = λ small. absurd (omega (arith, length-append s a));
      full = λ _. (turned, hashed);
    },
  )
    where
      sized : wrap64 (c.window_size + m) ≡ window_length
      sized = omega (arith, t.filled)

      whole : overwrite c.window c.window_size (take m q) ≡ s ++ a
      whole =
          ap (overwrite c.window c.window_size) e
          ∙ sym (
              take-all (overwrite c.window c.window_size a) (length (s ++ a))
                (omega (arith, length-overwrite (omega arith), length-append s a)))
          ∙ overwrite-take (omega arith)

      all_recent : recent (s ++ a) ≡ s ++ a
      all_recent =
          ap (λ n. drop n (s ++ a)) {x = length (s ++ a) - window_length} {y = 0}
            (omega (arith, length-append s a))

      hashed :
          start c.h
            (take (wrap64 (c.window_size + m)) (overwrite c.window c.window_size (take m q)))
          ≡ hash (recent (s ++ a))
      hashed =
          ap₂ start (t.short room).0 (
            ap₂ take sized whole
            ∙ take-all (s ++ a) window_length (omega (arith, length-append s a)))
          ∙ start-hash 0 (s ++ a)
          ∙ zero-bit_xor (hash (s ++ a))
          ∙ ap hash (sym all_recent)

      turned :
          ring (length (s ++ a) % window_length) (overwrite c.window c.window_size (take m q))
          ≡ recent (s ++ a)
      turned =
          ap₂ ring {x = length (s ++ a) % window_length} {y = 0} (omega (arith, length-append s a))
            whole
          ∙ append-nil (s ++ a)
          ∙ sym all_recent
