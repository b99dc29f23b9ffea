-- ===== src/Chunker/Guarantees.antt =====
-- What the callers of `ca_chunker_scan` of src/cachunker.c may rely on.
use Prim.Native.Nat.{max}
use mathlib.Core.Option
use casync.Prelude.{
  ℕ, ◌+◌, ◌≤◌, ◌<◌, ◌≡◌, sym, ap, ◌∙◌, List, ◌++◌, arith, length, some, Option-cases, inl, inr,
  length-append, subst,
}
use casync.Chunker.{Chunker, window_length, scan}
use casync.Chunker.Sizes.{IsConfigured}
use casync.Chunker.Border.{border_bounds, border-append, resume}
use casync.Chunker.Scan.{Tracks, SameSizes, After, Scanned, border_of, scan_tracked, map_zero}

-- The result of a scan is the border in the data.
pub scan-border :
    (c : Chunker) (s q : List ℕ)
    → Tracks c s
    → length s + length q < 18446744073709551616
    → (scan c q).1 ≡ border_of c s q
scan-border c s q t small = (scan_tracked c s q t small).result ∙ map_zero (border_of c s q)

same_border : (c d : Chunker) (s q : List ℕ) → SameSizes c d → border_of d s q ≡ border_of c s q
same_border c d s q same = cc (same.0, same.1, same.3)

-- A configured chunker that tracks a chunk below its largest size reports a border only within the
-- data it is given, and the chunk that ends there is no smaller than the smallest size or the
-- window, and no larger than the largest size or the window.
pub scan_bounds :
    (c : Chunker) (s q : List ℕ) {n : ℕ}
    → IsConfigured c
    → Tracks c s
    → length s < max c.chunk_size_max window_length
    → length s + length q < 18446744073709551616
    → (scan c q).1 ≡ some n
    → (1 ≤ n)
      × (n ≤ length q)
      × (window_length ≤ length s + n)
      × (c.chunk_size_min ≤ length s + n)
      × (length s + n ≤ max c.chunk_size_max window_length)
scan_bounds c s q v t room small e =
    border_bounds c.chunk_size_min c.chunk_size_max c.discriminator s q
      (omega (arith, v.min_le, v.avg_le)) room (sym (scan-border c s q t small) ∙ e)

-- Data that arrives in two calls to a configured chunker that tracks a chunk, less than 2 ^ 64 bytes in all, is cut where the same data in one call is: if the first call finds
-- no border, the second one goes on with the same chunk.
pub scan-append :
    (c : Chunker) (s a b : List ℕ)
    → IsConfigured c
    → Tracks c s
    → length s + length (a ++ b) < 18446744073709551616
    → (scan c (a ++ b)).1 ≡ resume (length a) (scan c a).1 (scan (scan c a).0 b).1
scan-append c s a b v t small =
    scan-border c s (a ++ b) t small
    ∙ border-append c.chunk_size_min c.chunk_size_max c.discriminator s a b
    ∙ elim (Option-cases (border_of c s a)) [
      | inr (n, found) ↦ rw (first, found)
      | inl nowhere ↦
          rw (first, nowhere)
            (ap (Option.map (λ k. length a + k)) (
              sym (
                scan-border (scan c a).0 (s ++ a) b
                  (subst (After (scan c a).0 (s ++ a)) nowhere begun.after) total
                ∙ same_border c (scan c a).0 (s ++ a) b begun.sizes)))
    ]
  where
    total : length (s ++ a) + length b < 18446744073709551616
    total = omega (arith, length-append s a, length-append a b)

    begun : Scanned c 0 s a (scan c a)
    begun = scan_tracked c s a t (omega (arith, length-append a b))

    first : (scan c a).1 ≡ border_of c s a
    first = scan-border c s a t (omega (arith, length-append a b))
