-- ===== src/Chunker.antt =====
-- src/cachunker.c and src/cachunker.h: the state of the chunker, its configuration and the scan for
-- chunk borders. The floating-point expressions of `ca_chunker_set_size` are a parameter.
mod Table
mod Hash
pub mod Sizes
pub mod Rolling
pub mod Border
pub mod Scan
pub mod Guarantees
mod Tests
unfoldable pub use Hash.{byte_word, start, roll}
use casync.Prelude.{
  overwrite, ℕ, zero, suc, ◌+◌, ◌-◌, ◌*◌, ◌/◌, ◌%◌, ◌≤◌, ◌<◌, min, Bool, true, false, ◌&&◌, ◌||◌,
  not, Option, none, some, List, [], ◌∷◌, ◌++◌, if◌then◌else◌, ltb, leb, ◌==◌, wrap64, get_or, set,
  take, drop, length, replicate, Result, ok, err, ◌>>=◌, ◌>>◌, guard, einval, erange, ebusy,
  assertion, division_by_zero,
}

-- CA_CHUNK_SIZE_LIMIT_MIN, CA_CHUNK_SIZE_LIMIT_MAX, CA_CHUNK_SIZE_AVG_DEFAULT
abbrev pub size_limit_min : ℕ
size_limit_min = 1

abbrev pub size_limit_max : ℕ
size_limit_max = 134217728

abbrev pub size_avg_default : ℕ
size_avg_default = 65536

-- CA_CHUNKER_WINDOW_SIZE
abbrev pub window_length : ℕ
window_length = 48

-- `struct CaChunker`
pub record Chunker : Type 0 where
  pub h : ℕ
  pub window_size : ℕ
  pub chunk_size : ℕ
  pub chunk_size_min : ℕ
  pub chunk_size_max : ℕ
  pub chunk_size_avg : ℕ
  pub discriminator : ℕ
  pub window : List ℕ

-- The values of the program's floating-point expressions, converted to size_t:
-- `pow(2, (log2(min_size) + log2(max_size)) / 2)` and `CA_CHUNKER_DISCRIMINATOR_FROM_AVG`.
pub record Floats : Type 0 where
  pub mean_size : ℕ → ℕ → ℕ
  pub discriminator_from_avg : ℕ → ℕ

pub clamp : ℕ → ℕ → ℕ → ℕ
clamp lo hi x = let y = if ltb x lo then lo else x in if ltb hi y then hi else y

module _ (f : Floats) where
  derived_avg : ℕ → ℕ → ℕ
  derived_avg min_size max_size =
      if not (min_size == 0) && not (max_size == 0)
      then f.mean_size min_size max_size
      else if not (min_size == 0)
      then wrap64 (min_size * 4)
      else if not (max_size == 0)
      then max_size / 4
      else size_avg_default

  -- The first step of `ca_chunker_set_size`: the average size.
  unfoldable pub pick_avg : ℕ → ℕ → ℕ → Result ℕ
  unfolding clamp derived_avg
  pick_avg min_size avg_size max_size =
      if avg_size == 0
      then ok (clamp size_limit_min size_limit_max (derived_avg min_size max_size))
      else if ltb avg_size size_limit_min
      then err erange
      else if ltb size_limit_max avg_size
      then err erange
      else ok avg_size

-- The second step: the smallest size.
unfoldable pub pick_min : ℕ → ℕ → Result ℕ
pick_min avg_size min_size =
    if min_size == 0
    then ok (if ltb (avg_size / 4) size_limit_min then size_limit_min else avg_size / 4)
    else if ltb min_size size_limit_min
    then err erange
    else if ltb avg_size min_size
    then err einval
    else ok min_size

-- The third step: the largest size.
unfoldable pub pick_max : ℕ → ℕ → Result ℕ
pick_max avg_size max_size =
    if max_size == 0
    then ok (
        if ltb size_limit_max (wrap64 (avg_size * 4))
        then size_limit_max
        else wrap64 (avg_size * 4))
    else if ltb size_limit_max max_size
    then err erange
    else if ltb max_size avg_size
    then err einval
    else ok max_size

-- CA_CHUNKER_INIT
abbrev pub initial : Floats → Chunker
initial f = record {
  h = 0;
  window_size = 0;
  chunk_size = 0;
  chunk_size_min = size_avg_default / 4;
  chunk_size_max = size_avg_default * 4;
  chunk_size_avg = size_avg_default;
  discriminator = f.discriminator_from_avg size_avg_default;
  window = replicate window_length 0;
}

-- `ca_chunker_set_size`. The four assertions before the discriminator are one test.
unfoldable pub set_size : Floats → Chunker → ℕ → ℕ → ℕ → Result Chunker
unfolding clamp
set_size f c min_size avg_size max_size = do
  guard (c.window_size == 0) ebusy
  avg ← pick_avg f min_size avg_size max_size
  lo ← pick_min avg min_size
  hi ← pick_max avg max_size
  guard (leb size_limit_min lo && leb lo avg && leb avg hi && leb hi size_limit_max) assertion
  ok (record c {
    chunk_size_min = lo;
    chunk_size_avg = avg;
    chunk_size_max = hi;
    discriminator = clamp lo hi (f.discriminator_from_avg avg);
  })

-- `shall_break`. Where the discriminator is 0, which that of a configured chunker is not, the code divides by zero; see
-- `checked_scan`.
unfoldable pub shall_break : Chunker → ℕ → Bool
shall_break c v =
    if leb c.chunk_size_max c.chunk_size
    then true
    else if ltb c.chunk_size c.chunk_size_min
    then false
    else v % c.discriminator == c.discriminator - 1

-- The code at the label `now`.
unfoldable pub cut : Chunker → Chunker
cut c = record c { h = 0; window_size = 0; chunk_size = 0 }

-- The loop of `ca_chunker_scan` at the byte list `q`, with `idx` and `k`; the result is the size_t
-- that is returned, `none` for (size_t) -1.
unfoldable pub scan_loop : Chunker → ℕ → ℕ → List ℕ → Chunker × Option ℕ
scan_loop c idx k [] = (c, none)
scan_loop c idx k (x ∷ q) =
    let v = roll c.h c.window_size (get_or c.window idx 0) x in
    let rolled = record c { h = v; chunk_size = wrap64 (c.chunk_size + 1) } in
    let next = record rolled { window = set c.window idx x } in
    let rest = scan_loop next (if idx + 1 == window_length then 0 else idx + 1) (k + 1) q in
    if shall_break rolled v then (cut rolled, some (k + 1)) else rest

-- The part of `ca_chunker_scan` that fills the window with the first `m` bytes.
unfoldable pub fill : Chunker → ℕ → List ℕ → Chunker
unfolding overwrite
fill c m q = record c {
  window = overwrite c.window c.window_size (take m q);
  window_size = wrap64 (c.window_size + m);
  chunk_size = wrap64 (c.chunk_size + m);
}

-- The loop from the byte after the window on.
unfoldable pub scan_full : Chunker → ℕ → List ℕ → Chunker × Option ℕ
scan_full c k q = scan_loop c (c.chunk_size % window_length) k q

-- `ca_chunker_scan` but for the assertions of `ca_chunker_start` and a division by zero
unfoldable pub scan : Chunker → List ℕ → Chunker × Option ℕ
scan c p =
    if ltb c.window_size window_length
    then (let m = min (window_length - c.window_size) (length p) in
        let filled = fill c m p in
        let v = start filled.h (take filled.window_size filled.window) in
        let started = record filled { h = v } in
        if ltb filled.window_size window_length
        then (filled, none)
        else if shall_break started v
        then (cut started, some m)
        else scan_full started m (drop m p))
    else scan_full c 0 p

-- The assertions of `ca_chunker_start`
abbrev pub start_asserts : Chunker → Bool
start_asserts c =
    leb size_limit_min c.chunk_size_min
    && leb c.chunk_size_min c.chunk_size_avg
    && leb c.chunk_size_avg c.chunk_size_max
    && leb c.chunk_size_max size_limit_max

-- Whether the data fills the window, where `ca_chunker_scan` calls `ca_chunker_start`
abbrev pub calls_start : Chunker → List ℕ → Bool
calls_start c p = ltb c.window_size window_length && leb (window_length - c.window_size) (length p)

-- Whether `shall_break` divides by the discriminator where the chunk has a size
abbrev divides_at : Chunker → ℕ → Bool
divides_at c size = ltb size c.chunk_size_max && leb c.chunk_size_min size

-- Whether it does so first where the chunk has that size, or in the loop of `ca_chunker_scan` over the bytes that follow
unfoldable divides_from : Chunker → ℕ → List ℕ → Bool
divides_from c size [] = divides_at c size
divides_from c size (x ∷ q) =
    let rest = divides_from c (wrap64 (size + 1)) q in
    divides_at c size || (not (leb c.chunk_size_max size) && rest)

-- The same of a call of `ca_chunker_scan`, where no hash ends the chunk before
unfoldable scan_divides : Chunker → List ℕ → Bool
unfolding divides_from
scan_divides c p =
    if ltb c.window_size window_length
    then (let m = window_length - c.window_size in
        leb m (length p) && divides_from c (wrap64 (c.chunk_size + m)) (drop m p))
    else not (length p == 0) && divides_from c (wrap64 (c.chunk_size + 1)) (drop 1 p)

-- `ca_chunker_scan` with these assertions and the division; the sizes that they test are the same at any point of the
-- call.
unfoldable pub checked_scan : Chunker → List ℕ → Result (Chunker × Option ℕ)
unfolding scan scan_divides
checked_scan c p = do
  guard (not (calls_start c p) || start_asserts c) assertion
  guard (not (c.discriminator == 0 && scan_divides c p)) division_by_zero
  ok (scan c p)
