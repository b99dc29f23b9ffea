-- ===== src/Remote/Pointers.antt =====
-- Reading a frame through a pointer into a buffer: what stands behind the frame is not read.
use casync.Prelude.{
  ℕ, zero, suc, ◌+◌, ◌-◌, ◌*◌, ◌≤◌, ◌<◌, ◌≡◌, refl, ap, ◌∙◌, List, [], ◌∷◌, ◌++◌, take, drop,
  length, get_or, arith, take-append_le, drop-append, length-drop,
}
use casync.ChunkId.{u64, little_endian}
use casync.Remote.Frames.{
  FrameType, hello, index, index_eof, archive, archive_eof, request, chunk, missing, goodbye, abort,
  frame_length, frame_code, third_word, payload, validate_hello, validate_file, validate_file_eof,
  validate_request, validate_chunk, validate_missing, validate_goodbye, validate_abort,
}
use casync.Remote.Receive.{validate}

-- A part that stands in the buffer, whatever is added to it.
pub slice-append :
    (off n : ℕ) (b more : List ℕ)
    → off + n ≤ length b
    → take n (drop off (b ++ more)) ≡ take n (drop off b)
slice-append off n b more h =
    ap (take n) (drop-append b more off (omega arith))
    ∙ take-append_le (drop off b) more n (omega (arith, length-drop off b))

get_or-append : (i : ℕ) (b more : List ℕ) → i < length b → get_or (b ++ more) i 0 ≡ get_or b i 0
get_or-append i [] more h = absurd (omega arith)
get_or-append zero (x ∷ b) more h = refl
get_or-append (suc i) (x ∷ b) more h = get_or-append i b more (omega arith)

little_endian-append :
    (n : ℕ) (b more : List ℕ) → n ≤ length b → little_endian n (b ++ more) ≡ little_endian n b
unfolding little_endian
little_endian-append zero b more h = refl
little_endian-append (suc n) [] more h = absurd (omega arith)
little_endian-append (suc n) (x ∷ b) more h =
    ap (λ t. x + 256 * t) (little_endian-append n b more (omega arith))

pub u64-append : (b more : List ℕ) (i : ℕ) → 8 * i + 8 ≤ length b → u64 (b ++ more) i ≡ u64 b i
unfolding u64
u64-append b more i h =
    ap (little_endian 8) (drop-append b more (8 * i) (omega arith))
    ∙ little_endian-append 8 (drop (8 * i) b) more (omega (arith, length-drop (8 * i) b))

module _ (b more : List ℕ) (least : 16 ≤ length b) (whole : frame_length b ≤ length b) where
  pub frame_length-append : frame_length (b ++ more) ≡ frame_length b
  frame_length-append = u64-append b more 0 (omega arith)

  pub frame_code-append : frame_code (b ++ more) ≡ frame_code b
  frame_code-append = u64-append b more 1 (omega arith)

  pub third_word-append : 24 ≤ frame_length b → third_word (b ++ more) ≡ third_word b
  third_word-append h = u64-append b more 2 (omega arith)

  pub payload-append : (off : ℕ) → off ≤ frame_length b → payload off (b ++ more) ≡ payload off b
  payload-append off h =
      ap (λ n. take (n - off) (drop off (b ++ more))) frame_length-append
      ∙ slice-append off (frame_length b - off) b more (omega arith)

  reason-append :
      25 ≤ frame_length b
      → take (frame_length (b ++ more) - 24 - 1) (drop 24 (b ++ more))
        ≡ take (frame_length b - 24 - 1) (drop 24 b)
  reason-append h =
      ap (λ n. take (n - 24 - 1) (drop 24 (b ++ more))) frame_length-append
      ∙ slice-append 24 (frame_length b - 24 - 1) b more (omega arith)

  last-append :
      25 ≤ frame_length b
      → get_or (b ++ more) (frame_length (b ++ more) - 1) 0 ≡ get_or b (frame_length b - 1) 0
  last-append h =
      ap (λ n. get_or (b ++ more) (n - 1) 0) frame_length-append
      ∙ get_or-append (frame_length b - 1) b more (omega arith)

  -- The checks on a frame do not look behind it.
  pub validate-append : (type : FrameType) → validate type (b ++ more) ≡ validate type b
  unfolding validate validate_hello validate_file validate_file_eof validate_request validate_chunk
      validate_missing validate_goodbye validate_abort
  validate-append hello = ground (arith, frame_length-append, frame_code-append, third_word-append)
  validate-append index = ground (arith, frame_length-append, frame_code-append)
  validate-append index_eof = ground (arith, frame_length-append, frame_code-append)
  validate-append archive = ground (arith, frame_length-append, frame_code-append)
  validate-append archive_eof = ground (arith, frame_length-append, frame_code-append)
  validate-append request =
      ground (arith, frame_length-append, frame_code-append, third_word-append)
  validate-append chunk = ground (arith, frame_length-append, frame_code-append, third_word-append)
  validate-append missing = ground (arith, frame_length-append, frame_code-append)
  validate-append goodbye = ground (arith, frame_length-append, frame_code-append)
  validate-append abort =
      ground (
        arith, frame_length-append, frame_code-append, third_word-append, reason-append,
        last-append,
      )
