-- ===== src/Chunker/Scan/State.antt =====
-- How the state of the chunker of src/cachunker.c stands for the bytes of the chunk so far: the circular
-- window, the rolled hash and the counters; and one round of the loop of `ca_chunker_scan`.
use mathlib.Core.Option
use casync.Prelude.{
  ℕ, suc, ◌+◌, ◌-◌, ◌%◌, ◌≤◌, ◌<◌, min, ◌≡◌, refl, sym, ap, ap₂, ◌∙◌, List, [], ◌∷◌, ◌++◌, arith,
  length, drop, take, set, get_or, length-append, length-set, Bool, ◌==◌, if◌then◌else◌, Option,
  none, some, ring, ring_rest, ring_head, ring-set_next, ring-set_last, drop-append, drop-suc,
  length-drop, dec_lt,
}
use casync.Chunker.{Chunker, window_length, shall_break, cut, roll}
use casync.Chunker.Rolling.{hash, roll-hash}
use casync.Chunker.Border.{recent, ends, border}

-- The state after the bytes `s` of a chunk that has not ended.
pub record Tracks (c : Chunker) (s : List ℕ) : Type 0 where
  pub size : c.chunk_size ≡ length s
  pub storage : length c.window ≡ window_length
  pub filled : c.window_size ≡ min window_length (length s)
  pub short : length s < window_length → (c.h ≡ 0) × (take (length s) c.window ≡ s)
  pub full :
      window_length ≤ length s
      → (ring (length s % window_length) c.window ≡ recent s) × (c.h ≡ hash (recent s))

-- A scan leaves the configuration alone.
abbrev pub SameSizes : Chunker → Chunker → Type 0
SameSizes c c' =
    (c'.chunk_size_min ≡ c.chunk_size_min)
    × (c'.chunk_size_max ≡ c.chunk_size_max)
    × (c'.chunk_size_avg ≡ c.chunk_size_avg)
    × (c'.discriminator ≡ c.discriminator)

-- The chunk goes on with the bytes `s`, or it has ended and a new one begins.
abbrev pub After : Chunker → List ℕ → Option ℕ → Type 0
After c s none = Tracks c s
After c s (some n) = Tracks c []

-- The border of the chunk that `c` is in, after `s`, for the sizes of `c`.
abbrev pub border_of : Chunker → List ℕ → List ℕ → Option ℕ
border_of c = border c.chunk_size_min c.chunk_size_max c.discriminator

abbrev pub ends_of : Chunker → List ℕ → Bool
ends_of c = ends c.chunk_size_min c.chunk_size_max c.discriminator

-- What a scan of `q` after `s` gives, with `k` bytes counted before: the border, the state behind it, and
-- the configuration.
pub record Scanned (c : Chunker) (k : ℕ) (s q : List ℕ) (out : Chunker × Option ℕ) : Type 0 where
  pub result : out.1 ≡ Option.map (λ n. k + n) (border_of c s q)
  pub after : After out.0 (s ++ q) (border_of c s q)
  pub sizes : SameSizes c out.0

-- The test of the code is the one of the specification, once the window is full.
pub shall_break-ends :
    (c : Chunker) (s : List ℕ)
    → window_length ≤ length s
    → c.chunk_size ≡ length s
    → shall_break c (hash (recent s)) ≡ ends_of c s
unfolding shall_break ends
shall_break-ends c s h e = ground arith

-- The last 48 bytes move on by one.
pub recent-snoc :
    (s : List ℕ) (x y : ℕ) {w : List ℕ}
    → window_length ≤ length s
    → recent s ≡ y ∷ w
    → recent (s ++ x ∷ []) ≡ w ++ x ∷ []
recent-snoc s x y {w} h e =
    ap (λ n. drop n (s ++ x ∷ [])) {x = length (s ++ x ∷ []) - window_length}
      {y = suc (length s - window_length)} (omega (arith, length-append s (x ∷ [])))
    ∙ drop-append s (x ∷ []) (suc (length s - window_length)) (omega arith)
    ∙ ap (λ t. t ++ x ∷ []) (drop-suc s (length s - window_length) e)

pub cut-Tracks : (c : Chunker) → length c.window ≡ window_length → Tracks (cut c) []
unfolding cut
cut-Tracks c e = record {
  size = refl;
  storage = e;
  filled = refl;
  short = λ h. (refl, refl);
  full = λ h. absurd (omega arith);
}

-- The index behind `idx`, round the window.
abbrev pub next_index : ℕ → ℕ
next_index idx = if idx + 1 == window_length then 0 else idx + 1

module _ (c : Chunker) (s : List ℕ) (x : ℕ) (t : Tracks c s) (big : window_length ≤ length s) where
  abbrev pub index : ℕ
  index = length s % window_length

  abbrev pub oldest : ℕ
  oldest = get_or c.window index 0

  recent_form : recent s ≡ oldest ∷ ring_rest index c.window
  recent_form = sym (t.full big).0 ∙ ring_head c.window index 0 (omega (arith, t.storage))

  rest_length : suc (length (ring_rest index c.window)) ≡ window_length
  rest_length = sym (ap length recent_form) ∙ length-drop (length s - window_length) s ∙ omega arith

  -- The hash that is rolled is the hash of the last 48 bytes.
  pub rolled_hash : roll c.h c.window_size oldest x ≡ hash (recent (s ++ x ∷ []))
  rolled_hash =
      ap₂ (λ a n. roll a n oldest x) ((t.full big).1 ∙ ap hash recent_form)
        (t.filled ∙ omega arith ∙ sym rest_length)
      ∙ roll-hash oldest x (ring_rest index c.window)
      ∙ ap hash (sym (recent-snoc s x oldest big recent_form))

  moved_window :
      ring (length (s ++ x ∷ []) % window_length) (set c.window index x) ≡ recent (s ++ x ∷ [])
  moved_window = elim (dec_lt (index + 1) window_length) [
    | yes inside ↦
        ap (λ i. ring i (set c.window index x)) {x = length (s ++ x ∷ []) % window_length}
          {y = suc index} (omega (arith, length-append s (x ∷ [])))
        ∙ ring-set_next c.window index x (omega (arith, t.storage))
        ∙ sym (recent-snoc s x oldest big recent_form)
    | no last ↦
        ap (λ i. ring i (set c.window index x)) {x = length (s ++ x ∷ []) % window_length} {y = 0}
          (omega (arith, length-append s (x ∷ [])))
        ∙ ring-set_last c.window index x (omega (arith, t.storage))
        ∙ sym (recent-snoc s x oldest big recent_form)
  ]

  -- The state after one round of the loop that finds no border.
  pub rolled_Tracks :
      (v n : ℕ)
      → v ≡ hash (recent (s ++ x ∷ []))
      → n ≡ length (s ++ x ∷ [])
      → Tracks (record c { h = v; chunk_size = n; window = set c.window index x }) (s ++ x ∷ [])
  rolled_Tracks v n ev en = record {
    size = en;
    storage = length-set c.window index x ∙ t.storage;
    filled = omega (arith, t.filled, length-append s (x ∷ []));
    short = λ small. absurd (omega (arith, length-append s (x ∷ [])));
    full = λ _. (moved_window, ev);
  }
