-- ===== src/Chunker/Scan.antt =====
-- `ca_chunker_scan` of src/cachunker.c finds the borders of Chunker/Border.antt, however the data is cut
-- into calls.
mod State
mod Fill
mod Loop
pub use State.{Tracks, SameSizes, After, Scanned, border_of, ends_of, cut-Tracks}
use State.{shall_break-ends}
use mathlib.Core.Option
use casync.Prelude.{
  overwrite, ℕ, zero, suc, ◌+◌, ◌-◌, ◌%◌, ◌≤◌, ◌<◌, min, ◌≡◌, refl, sym, ap, ap₂, subst, ◌∙◌, List,
  [], ◌∷◌, ◌++◌, arith, length, drop, take, set, get_or, length-append, length-set, append-nil,
  append_assoc, Bool, true, false, ◌&&◌, ◌||◌, leb, ltb, ◌==◌, if◌then◌else◌, Option, none, some,
  Bool-cases, inl, inr, wrap64, ok, ring, ring_rest, ring_head, ring-set_next, ring-set_last,
  drop-append, drop-all, drop-suc, take-append, take-all, take-append-drop, length-take, dec_lt,
  lt→ltb, le→ltb, bit_xor, zero-bit_xor,
}
use casync.Chunker.{
  Chunker, window_length, shall_break, cut, scan_loop, fill, scan_full, scan, checked_scan, roll,
  start,
}
pub use Loop.{map_zero}
use Loop.{After-map, scan_full-Scanned}
use Fill.{border-short, border-full, fill-Tracks, fill_started}
use casync.Chunker.Sizes.{IsConfigured}
use casync.Chunker.Rolling.{hash, start-hash, roll-hash}
use casync.Chunker.Border.{recent, ends, border, resume, border-append}

-- The branch that only fills the window.
scan-short :
    (c : Chunker) (s q : List ℕ)
    → Tracks c s
    → length s + length q < window_length
    → Scanned c 0 s q (scan c q)
unfolding scan
scan-short c s q t fits =
    rw (lt→ltb c.window_size window_length (omega (arith, t.filled)))
      (rw (lt→ltb (fill c m q).window_size window_length small) done)
  where
    m : ℕ
    m = min (window_length - c.window_size) (length q)

    all : m ≡ length q
    all = omega (arith, t.filled)

    filled : Tracks (fill c m q) (s ++ q)
    filled = fill-Tracks c s q t (omega arith) m q (take-all q m (omega (arith, all))) all fits

    small : (fill c m q).window_size < window_length
    small = omega (arith, filled.filled, length-append s q)

    nowhere : border_of c s q ≡ none
    nowhere = border-short c.chunk_size_min c.chunk_size_max c.discriminator s q fits

    done : Scanned c 0 s q (fill c m q, none)
    done = record {
      result = rw nowhere;
      after = rw nowhere filled;
      sizes = unfold fill in (refl, refl, refl, refl);
    }

-- The data of the window first, then the rest.
Scanned-append :
    (c : Chunker) (v n m : ℕ) (w s a b : List ℕ) {out : Chunker × Option ℕ}
    → border_of c s (a ++ b) ≡ Option.map (λ k. length a + k) (border_of c (s ++ a) b)
    → Scanned
        (record c { h = v; window_size = n; chunk_size = m; window = w })
        (length a)
        (s ++ a)
        b
        out
    → Scanned c 0 s (a ++ b) out
Scanned-append c v n m w s a b {out} e r = record {
  result =
      rw e (r.result ∙ sym (map_zero (Option.map (λ k. length a + k) (border_of c (s ++ a) b))));
  after = rw e (
      After-map (λ k. length a + k) out.0 (s ++ (a ++ b)) (border_of c (s ++ a) b)
        (subst (λ z. After out.0 z (border_of c (s ++ a) b)) (append_assoc s a b) r.after));
  sizes = r.sizes;
}

-- The branch that fills the window and goes on behind it.
module _ (c : Chunker) (s a b : List ℕ) (t : Tracks c s) (room : length s < window_length)
    (fits : length s + length a ≡ window_length)
    (small : length s + length (a ++ b) < 18446744073709551616) where
  abbrev filled : Chunker
  filled = fill c (length a) (a ++ b)

  abbrev v : ℕ
  v = start filled.h (take filled.window_size filled.window)

  abbrev started : Chunker
  started = record filled { h = v }

  facts :
      (v ≡ hash (recent (s ++ a))) × (filled.window_size ≡ window_length) × Tracks started (s ++ a)
  facts = fill_started c s a t room (length a) (a ++ b) (take-append a b (length a) refl) refl fits

  drop_first : drop (length a) (a ++ b) ≡ b
  drop_first =
      drop-append a b (length a) (omega arith)
      ∙ ap (λ z. z ++ b) (drop-all a (length a) (omega arith))

  same_test : shall_break started v ≡ ends_of c (s ++ a)
  unfolding fill
  same_test =
      ap (shall_break started) facts.0
      ∙ shall_break-ends started (s ++ a) (omega (arith, length-append s a)) facts.2.size

  split : border_of c s (a ++ b) ≡ resume (length a) (border_of c s a) (border_of c (s ++ a) b)
  split = border-append c.chunk_size_min c.chunk_size_max c.discriminator s a b

  whole : border_of c s a ≡ (if ends_of c (s ++ a) then some (length a) else none)
  whole = border-full c.chunk_size_min c.chunk_size_max c.discriminator s a fits (omega arith)

  scan-stop : shall_break started v ≡ true → Scanned c 0 s (a ++ b) (cut started, some (length a))
  scan-stop stop = record {
    result = rw here (sym (map_zero (some (length a))));
    after = rw here (cut-Tracks started facts.2.storage);
    sizes = unfold fill cut in (refl, refl, refl, refl);
  }
    where
      here : border_of c s (a ++ b) ≡ some (length a)
      here = ground (arith, split, whole, same_test, stop)

  scan-go :
      shall_break started v ≡ false
      → Scanned c 0 s (a ++ b) (scan_full started (length a) (drop (length a) (a ++ b)))
  unfolding fill
  scan-go go =
      Scanned-append c v (wrap64 (c.window_size + length a)) (wrap64 (c.chunk_size + length a))
        (overwrite c.window c.window_size (take (length a) (a ++ b))) s a b further
        (rw drop_first (
          scan_full-Scanned started (length a) (s ++ a) b facts.2 (omega (arith, length-append s a))
            (omega (arith, length-append s a, length-append a b))))
    where
      further : border_of c s (a ++ b) ≡ Option.map (λ k. length a + k) (border_of c (s ++ a) b)
      further = ground (arith, split, whole, same_test, go)

  scan-filled : Scanned c 0 s (a ++ b) (scan c (a ++ b))
  unfolding scan
  scan-filled = rw (lt→ltb c.window_size window_length (omega (arith, t.filled))) (
      rw count (
        rw (le→ltb filled.window_size window_length (omega (arith, facts.1)))
          (elim (Bool-cases (shall_break started v)) [
            | inl stop ↦ rw stop (scan-stop stop)
            | inr go ↦ rw go (scan-go go)
          ])))
    where
      count : min (window_length - c.window_size) (length (a ++ b)) ≡ length a
      count = omega (arith, t.filled, length-append a b)

-- Without the assertions
pub scan_tracked :
    (c : Chunker) (s q : List ℕ)
    → Tracks c s
    → length s + length q < 18446744073709551616
    → Scanned c 0 s q (scan c q)
scan_tracked c s q t small = elim (dec_lt (length s) window_length) [
  | no big ↦
      unfold scan in
      rw (le→ltb c.window_size window_length (omega (arith, t.filled)))
        (scan_full-Scanned c 0 s q t (omega arith) small)
  | yes room ↦ elim (dec_lt (length s + length q) window_length) [
    | yes fits ↦ scan-short c s q t fits
    | no more ↦
        subst (λ z. Scanned c 0 s z (scan c z)) (take-append-drop (window_length - length s) q)
          (scan-filled c s (take (window_length - length s) q) (drop (window_length - length s) q) t
            room (omega (arith, length-take (window_length - length s) q))
            (subst (λ z. length s + length z < 18446744073709551616)
              (sym (take-append-drop (window_length - length s) q)) small))
  ]
]

checked_scan_lem : (c : Chunker) (q : List ℕ) → IsConfigured c → checked_scan c q ≡ ok (scan c q)
unfolding checked_scan
checked_scan_lem c q v = ground (arith, v.min_pos, v.min_le, v.avg_le, v.max_le, v.disc_min)

-- `ca_chunker_scan`, on a configured chunker that tracks the bytes `s` of a chunk, fails no assertion, does not divide by zero, and returns the
-- border of the chunk in the data `q`, or none if it has none; it then tracks the longer chunk, or the next one from
-- its start, and leaves the sizes alone. The chunk and the data together have less than 2 ^ 64 bytes.
pub scan-Scanned :
    (c : Chunker) (s q : List ℕ)
    → IsConfigured c
    → Tracks c s
    → length s + length q < 18446744073709551616
    → (checked_scan c q ≡ ok (scan c q)) × Scanned c 0 s q (scan c q)
scan-Scanned c s q v t small = (checked_scan_lem c q v, scan_tracked c s q t small)
