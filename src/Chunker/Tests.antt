-- ===== src/Chunker/Tests.antt =====
-- Runs of the chunker of src/cachunker.c on small inputs, and instances of its theorems.
use Prim.Native.Nat.{max}
use casync.Prelude.{
  overwrite, ℕ, ◌+◌, ◌≤◌, ◌≡◌, ◌≢◌, ◌↔◌, refl, List, [], ◌∷◌, ◌++◌, arith, replicate, some, ok, err,
  assertion, division_by_zero, erange, einval, ebusy, rol32,
}
use casync.Chunker.{
  Chunker, Floats, size_limit_max, set_size, pick_avg, pick_min, pick_max, scan, checked_scan,
  scan_loop, scan_full, fill, shall_break, cut, roll, start, byte_word,
}
use casync.Chunker.Table.{buzhash_table}
use casync.Chunker.Sizes.{
  IsConfigured, set_size-IsConfigured, set_size_explicit_iff, set_size-ne-assertion,
}
use casync.Chunker.Border.{resume}
use casync.Chunker.Scan.{Tracks, Scanned, scan-Scanned}
use casync.Chunker.Guarantees.{scan_bounds, scan-append}
use casync.Chunker.Rolling.{hash, roll-hash}

abbrev floats : Floats
floats = record { mean_size = λ a b. a + b; discriminator_from_avg = λ a. a }

-- A chunker of sizes 40, 50 and 60, at the start of a chunk.
abbrev small : Chunker
small = record {
  h = 0;
  window_size = 0;
  chunk_size = 0;
  chunk_size_min = 40;
  chunk_size_max = 60;
  chunk_size_avg = 50;
  discriminator = 50;
  window = replicate 48 0;
}

abbrev zeroes : List ℕ
zeroes = replicate 70 0

small-Tracks : Tracks small []
small-Tracks = record {
  size = refl;
  storage = refl;
  filled = refl;
  short = λ h. (refl, refl);
  full = λ h. absurd (omega arith);
}

small-IsConfigured : IsConfigured small
small-IsConfigured = omega arith

scan-zeroes : (scan small zeroes).1 ≡ some 60
unfolding scan scan_full scan_loop fill overwrite shall_break cut roll start byte_word buzhash_table
    rol32
scan-zeroes = refl

set_size-small :
    set_size floats small 10 20 30
    ≡ ok (record small {
      chunk_size_min = 10;
      chunk_size_avg = 20;
      chunk_size_max = 30;
      discriminator = 20;
    })
unfolding set_size pick_avg pick_min pick_max
set_size-small = refl

set_size_refuses :
    (set_size floats small 30 20 10 ≡ err einval)
    × (set_size floats small 10 20 (size_limit_max + 1) ≡ err erange)
    × (set_size floats (record small { window_size = 3 }) 10 20 30 ≡ err ebusy)
unfolding set_size pick_avg pick_min pick_max
set_size_refuses = (refl, refl, refl)

set_size-IsConfigured_example :
    IsConfigured (record small {
      chunk_size_min = 10;
      chunk_size_avg = 20;
      chunk_size_max = 30;
      discriminator = 20;
    })
    × (small.h ≡ small.h)
    × (small.window_size ≡ 0)
    × (small.chunk_size ≡ small.chunk_size)
    × (small.window ≡ small.window)
set_size-IsConfigured_example = set_size-IsConfigured floats small 10 20 30 set_size-small

set_size-ne-assertion_example : set_size floats small 0 0 0 ≢ err assertion
set_size-ne-assertion_example = set_size-ne-assertion floats small 0 0 0

set_size_explicit_iff_example :
    ((c : Chunker) × (set_size floats small 10 20 30 ≡ ok c)
      × (c.chunk_size_min ≡ 10)
      × (c.chunk_size_avg ≡ 20)
      × (c.chunk_size_max ≡ 30))
    ↔ ((small.window_size ≡ 0) × (10 ≤ 20) × (20 ≤ 30) × (30 ≤ size_limit_max))
set_size_explicit_iff_example =
    set_size_explicit_iff floats small 10 20 30 (omega arith) (omega arith) (omega arith)

-- A discriminator of 0 is divided by once the chunk has the smallest size.
zero_divides :
    (checked_scan (record small { discriminator = 0 }) zeroes ≡ err division_by_zero)
    × (checked_scan (record small { discriminator = 0 }) (0 ∷ [])
        ≡ ok (scan (record small { discriminator = 0 }) (0 ∷ [])))
unfolding checked_scan
zero_divides = (refl, refl)

roll-hash_example : roll (hash (1 ∷ 2 ∷ 3 ∷ [])) 3 1 4 ≡ hash (2 ∷ 3 ∷ 4 ∷ [])
roll-hash_example = roll-hash 1 4 (2 ∷ 3 ∷ [])

scan-Scanned_example :
    (checked_scan small zeroes ≡ ok (scan small zeroes))
    × Scanned small 0 [] zeroes (scan small zeroes)
scan-Scanned_example = scan-Scanned small [] zeroes small-IsConfigured small-Tracks (omega arith)

-- The assertions fail where the window is filled, and only there.
unordered_asserts :
    (checked_scan (record small { chunk_size_min = 0 }) zeroes ≡ err assertion)
    × (checked_scan (record small { chunk_size_min = 0 }) []
        ≡ ok (scan (record small { chunk_size_min = 0 }) []))
unfolding checked_scan
unordered_asserts = (refl, refl)

scan_bounds_example : (1 ≤ 60) × (60 ≤ 70) × (48 ≤ 0 + 60) × (40 ≤ 0 + 60) × (0 + 60 ≤ max 60 48)
scan_bounds_example =
    scan_bounds small [] zeroes small-IsConfigured small-Tracks (omega arith) (omega arith)
      scan-zeroes

scan-append_example :
    (scan small (zeroes ++ zeroes)).1
    ≡ resume 70 (scan small zeroes).1 (scan (scan small zeroes).0 zeroes).1
scan-append_example =
    scan-append small [] zeroes zeroes small-IsConfigured small-Tracks (omega arith)
