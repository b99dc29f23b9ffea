-- ===== src/Chunker/Scan/Loop.antt =====
-- The loop of `ca_chunker_scan` of src/cachunker.c, from a full window on.
use mathlib.Core.Option
use casync.Prelude.{
  ℕ, suc, ◌+◌, ◌%◌, ◌≤◌, ◌<◌, ◌≡◌, refl, sym, ap, subst, ◌∙◌, List, [], ◌∷◌, ◌++◌, arith, length,
  set, get_or, length-append, append-nil, append_assoc, true, false, Option, none, some, Bool-cases,
  inl, inr, wrap64,
}
use casync.Chunker.{Chunker, window_length, shall_break, cut, scan_loop, scan_full, roll}
use casync.Chunker.Rolling.{hash}
use casync.Chunker.Scan.State.{
  Tracks, SameSizes, After, Scanned, border_of, ends_of, cut-Tracks, shall_break-ends, rolled_hash,
  rolled_Tracks, next_index,
}
use casync.Chunker.Border.{recent, border}

-- The counter of the loop and the order of concatenation.
map-suc :
    (k : ℕ) (o : Option ℕ)
    → Option.map (λ n. k + 1 + n) o ≡ Option.map (λ n. k + n) (Option.map suc o)
map-suc k none = refl
map-suc k (some n) = ap some (omega arith)

pub map_zero : (o : Option ℕ) → Option.map (λ n. 0 + n) o ≡ o
map_zero none = refl
map_zero (some n) = ap some (omega arith)

pub After-map :
    (f : ℕ → ℕ) (c : Chunker) (s : List ℕ) (o : Option ℕ) → After c s o → After c s (Option.map f o)
After-map f c s none a = a
After-map f c s (some n) a = a

-- What one round before the loop, that finds no border, does to what is known of the loop.
Scanned-go :
    (c : Chunker) (v m : ℕ) (w : List ℕ) (k : ℕ) (s q : List ℕ) (x : ℕ) {out : Chunker × Option ℕ}
    → ends_of c (s ++ x ∷ []) ≡ false
    → Scanned (record c { h = v; chunk_size = m; window = w }) (k + 1) (s ++ x ∷ []) q out
    → Scanned c k s (x ∷ q) out
unfolding border
Scanned-go c v m w k s q x {out} e r = record {
  result = rw e (r.result ∙ map-suc k (border_of c (s ++ x ∷ []) q));
  after = rw e (
      After-map suc out.0 (s ++ x ∷ q) (border_of c (s ++ x ∷ []) q) (
        subst (λ z. After out.0 z (border_of c (s ++ x ∷ []) q)) (append_assoc s (x ∷ []) q)
          r.after));
  sizes = r.sizes;
}

-- A border behind the byte `x`.
Scanned-stop :
    (c d : Chunker) (k : ℕ) (s q : List ℕ) (x : ℕ)
    → ends_of c (s ++ x ∷ []) ≡ true
    → length d.window ≡ window_length
    → SameSizes c d
    → Scanned c k s (x ∷ q) (cut d, some (k + 1))
unfolding border cut
Scanned-stop c d k s q x e storage same = record {
  result = rw e;
  after = rw e (cut-Tracks d storage);
  sizes = same;
}

-- The loop of `ca_chunker_scan`, from a full window.
scan_loop-Scanned :
    (c : Chunker) (idx k : ℕ) (s q : List ℕ)
    → Tracks c s
    → window_length ≤ length s
    → idx ≡ length s % window_length
    → length s + length q < 18446744073709551616
    → Scanned c k s q (scan_loop c idx k q)
unfolding scan_loop
scan_loop-Scanned c idx k s [] t big ei small = record {
  result = unfold border in refl;
  after = unfold border in subst (Tracks c) (sym (append-nil s)) t;
  sizes = (refl, refl, refl, refl);
}
scan_loop-Scanned c idx k s (x ∷ q) t big ei small =
    rw ei (elim (Bool-cases (shall_break rolled v)) [
      | inl stop ↦ rw stop (Scanned-stop c rolled k s q x (sym same_test ∙ stop) t.storage same)
      | inr go ↦ rw go (
          Scanned-go c v (wrap64 (c.chunk_size + 1)) (set c.window at x) k s q x
            (sym same_test ∙ go)
            (scan_loop-Scanned next (next_index at) (k + 1) (s ++ x ∷ []) q
              (rolled_Tracks c s x t big v (wrap64 (c.chunk_size + 1)) hashed counted)
              (omega (arith, length-append s (x ∷ []))) (ground (arith, length-append s (x ∷ [])))
              (omega (arith, length-append s (x ∷ [])))))
    ])
  where
    at : ℕ
    at = length s % window_length

    v : ℕ
    v = roll c.h c.window_size (get_or c.window at 0) x

    rolled : Chunker
    rolled = record c { h = v; chunk_size = wrap64 (c.chunk_size + 1) }

    next : Chunker
    next = record rolled { window = set c.window at x }

    same : SameSizes c rolled
    same = (refl, refl, refl, refl)

    hashed : v ≡ hash (recent (s ++ x ∷ []))
    hashed = rolled_hash c s x t big

    counted : wrap64 (c.chunk_size + 1) ≡ length (s ++ x ∷ [])
    counted = omega (arith, t.size, length-append s (x ∷ []))

    same_test : shall_break rolled v ≡ ends_of c (s ++ x ∷ [])
    same_test =
        ap (shall_break rolled) hashed
        ∙ shall_break-ends rolled (s ++ x ∷ []) (omega (arith, length-append s (x ∷ []))) counted

-- Nothing is left to look at, or the rest of the data.
pub scan_full-Scanned :
    (c : Chunker) (k : ℕ) (s q : List ℕ)
    → Tracks c s
    → window_length ≤ length s
    → length s + length q < 18446744073709551616
    → Scanned c k s q (scan_full c k q)
unfolding scan_full
scan_full-Scanned c k s q t big small =
    scan_loop-Scanned c (c.chunk_size % window_length) k s q t big
      (ap (λ n. n % window_length) t.size) small
