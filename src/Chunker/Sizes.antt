-- ===== src/Chunker/Sizes.antt =====
-- What `ca_chunker_set_size` of src/cachunker.c accepts, and what it leaves behind.
use casync.Prelude.{ℕ, ◌≤◌, ◌≡◌, ◌≢◌, ◌↔◌, refl, arith, ok, err, assertion, inl, inr, Result-cases}
use casync.Chunker.{Chunker, Floats, clamp, size_limit_max, pick_avg, pick_min, pick_max, set_size}

-- The sizes that the assertions of `ca_chunker_start` ask for, and a usable discriminator.
pub record IsConfigured (c : Chunker) : Type 0 where
  pub min_pos : 1 ≤ c.chunk_size_min
  pub min_le : c.chunk_size_min ≤ c.chunk_size_avg
  pub avg_le : c.chunk_size_avg ≤ c.chunk_size_max
  pub max_le : c.chunk_size_max ≤ size_limit_max
  pub disc_min : c.chunk_size_min ≤ c.discriminator
  pub disc_max : c.discriminator ≤ c.chunk_size_max

pick_avg_bounds :
    (f : Floats) (lo avg hi : ℕ) {a : ℕ}
    → pick_avg f lo avg hi ≡ ok a
    → (1 ≤ a) × (a ≤ size_limit_max)
unfolding pick_avg
pick_avg_bounds f lo avg hi h = ground arith

pick_min_bounds : (avg lo : ℕ) {m : ℕ} → 1 ≤ avg → pick_min avg lo ≡ ok m → (1 ≤ m) × (m ≤ avg)
unfolding pick_min
pick_min_bounds avg lo pos h = ground arith

pick_max_bounds :
    (avg hi : ℕ) {m : ℕ}
    → avg ≤ size_limit_max
    → pick_max avg hi ≡ ok m
    → (avg ≤ m) × (m ≤ size_limit_max)
unfolding pick_max
pick_max_bounds avg hi small h = ground arith

-- Whatever sizes are asked for and whatever the floating-point expressions give, a successful call
-- leaves a configured chunker, and changes only the sizes and the discriminator.
pub set_size-IsConfigured :
    (f : Floats) (c : Chunker) (lo avg hi : ℕ) {c' : Chunker}
    → set_size f c lo avg hi ≡ ok c'
    → IsConfigured c'
      × (c'.h ≡ c.h)
      × (c'.window_size ≡ 0)
      × (c'.chunk_size ≡ c.chunk_size)
      × (c'.window ≡ c.window)
unfolding set_size
set_size-IsConfigured f c lo avg hi h = elim (Result-cases (pick_avg f lo avg hi)) [
  | inr (e, bad) ↦ ground (arith, bad)
  | inl (a, ea) ↦ elim (Result-cases (pick_min a lo)) [
    | inr (e, bad) ↦ ground (arith, ea, bad)
    | inl (m, em) ↦ elim (Result-cases (pick_max a hi)) [
      | inr (e, bad) ↦ ground (arith, ea, em, bad)
      | inl (x, ex) ↦ ground (
        arith,
        ea,
        em,
        ex,
        pick_avg_bounds f lo avg hi ea,
        pick_min_bounds a lo (pick_avg_bounds f lo avg hi ea).0 em,
        pick_max_bounds a hi (pick_avg_bounds f lo avg hi ea).1 ex,
      )
    ]
  ]
]

pick_avg-ne-assertion : (f : Floats) (lo avg hi : ℕ) → pick_avg f lo avg hi ≢ err assertion
unfolding pick_avg
pick_avg-ne-assertion f lo avg hi h = ground arith

pick_min-ne-assertion : (avg lo : ℕ) → pick_min avg lo ≢ err assertion
unfolding pick_min
pick_min-ne-assertion avg lo h = ground arith

pick_max-ne-assertion : (avg hi : ℕ) → pick_max avg hi ≢ err assertion
unfolding pick_max
pick_max-ne-assertion avg hi h = ground arith

-- The assertions of `ca_chunker_set_size` never fail.
pub set_size-ne-assertion :
    (f : Floats) (c : Chunker) (lo avg hi : ℕ) → set_size f c lo avg hi ≢ err assertion
unfolding set_size
set_size-ne-assertion f c lo avg hi h = elim (Result-cases (pick_avg f lo avg hi)) [
  | inr (e, bad) ↦ ground (arith, bad, pick_avg-ne-assertion f lo avg hi)
  | inl (a, ea) ↦ elim (Result-cases (pick_min a lo)) [
    | inr (e, bad) ↦ ground (arith, ea, bad, pick_min-ne-assertion a lo)
    | inl (m, em) ↦ elim (Result-cases (pick_max a hi)) [
      | inr (e, bad) ↦ ground (arith, ea, em, bad, pick_max-ne-assertion a hi)
      | inl (x, ex) ↦ ground (
        arith,
        ea,
        em,
        ex,
        pick_avg_bounds f lo avg hi ea,
        pick_min_bounds a lo (pick_avg_bounds f lo avg hi ea).0 em,
        pick_max_bounds a hi (pick_avg_bounds f lo avg hi ea).1 ex,
      )
    ]
  ]
]

-- Sizes that are all given explicitly are accepted exactly on an idle chunker, in order and within
-- the limit, and are then stored as they are.
pub set_size_explicit_iff :
    (f : Floats) (c : Chunker) (lo avg hi : ℕ)
    → 1 ≤ lo
    → 1 ≤ avg
    → 1 ≤ hi
    → ((c' : Chunker) × (set_size f c lo avg hi ≡ ok c')
        × (c'.chunk_size_min ≡ lo)
        × (c'.chunk_size_avg ≡ avg)
        × (c'.chunk_size_max ≡ hi))
      ↔ ((c.window_size ≡ 0) × (lo ≤ avg) × (avg ≤ hi) × (hi ≤ size_limit_max))
unfolding set_size pick_avg pick_min pick_max
set_size_explicit_iff f c lo avg hi p q r = (
  λ s. ground arith,
  λ s. (
    record c {
      chunk_size_min = lo;
      chunk_size_avg = avg;
      chunk_size_max = hi;
      discriminator = clamp lo hi (f.discriminator_from_avg avg);
    },
    ground arith,
    refl,
    refl,
    refl,
  ),
)
