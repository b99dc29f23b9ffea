-- ===== src/Remote/Framing.antt =====
-- Frames are processed alike however the bytes of the connection arrive: bytes that arrive behind a frame stay
-- in the input buffer, and nothing else depends on them.
use casync.Prelude.{
  ℕ, ◌+◌, ◌≤◌, ◌≡◌, ◌≢◌, refl, sym, ap, ap₂, ◌∙◌, Bool, true, false, Option, none, some, List, ◌++◌,
  drop, drop-append, length, length-append, ◌||◌, not, ltb, le→ltb, ◌⊎◌, arith, Result, ok, err,
  ebadmsg, Bool-cases, inl, inr,
}
use casync.Action.{Action, require, continue, ◌>>◌}
use casync.Files.{Files}
use casync.Remote.{Remote, Cache, Step, poll, is_hello, is_running}
use casync.Remote.Frames.{
  type_of_code, FrameType, size_max, hello, index, index_eof, archive, archive_eof, request, chunk,
  missing, goodbye, abort, frame_length, frame_code, third_word, payload, validate_hello,
  validate_request, validate_chunk, validate_missing, validate_file, validate_abort,
  validate_file_eof, validate_missing, validate_goodbye,
}
use casync.Remote.Receive.{
  process_message, process_frame, dispatch, admits, pass_frame, process, validate, process_hello,
  process_request, process_chunk, process_missing, process_index, process_archive, process_abort,
  process_missing,
}
use casync.Remote.Pointers.{
  u64-append, slice-append, frame_length-append, third_word-append, frame_code-append,
  payload-append, validate-append,
}
use casync.Remote.Keeps.{with_input, after, Keeps, process-Keeps}

ltb→ge : (a b : ℕ) → ltb a b ≡ false → b ≤ a
ltb→ge a b h = ground arith

in_range : (n : ℕ) → (ltb n 16 || ltb size_max n) ≡ false → (16 ≤ n) × (n ≤ size_max)
in_range n h = ground arith

module _ {F C : Type 0} where
  admits-with_input :
      (type : FrameType) (rr : Remote F C) (bytes : List ℕ)
      → admits type (with_input bytes rr) ≡ admits type rr
  unfolding admits
  admits-with_input hello rr bytes = refl
  admits-with_input index rr bytes = refl
  admits-with_input index_eof rr bytes = refl
  admits-with_input archive rr bytes = refl
  admits-with_input archive_eof rr bytes = refl
  admits-with_input request rr bytes = refl
  admits-with_input chunk rr bytes = refl
  admits-with_input missing rr bytes = refl
  admits-with_input goodbye rr bytes = refl
  admits-with_input abort rr bytes = refl

  -- The state in which frames are looked at
  abbrev pub is_awake : Remote F C → Bool
  is_awake rr = is_hello rr.state || is_running rr.state

  -- More bytes have been read.
  abbrev pub arrived : List ℕ → Remote F C → Remote F C
  arrived more rr = record rr { input_buffer = rr.input_buffer ++ more }

  abbrev pub behind : {A : Type 0} → List ℕ → Remote F C × Result A → Remote F C × Result A
  behind more (rr, r) = (arrived more rr, r)

  -- The end of `process_frame`
  abbrev passing : ℕ → Step → Action (Remote F C) Step
  passing n s rr = (pass_frame n rr, ok s)

  passed :
      (n : ℕ) (b more : List ℕ) (x : Remote F C × Result Step)
      → n ≤ length b
      → x.0.input_buffer ≡ b
      → continue (after (b ++ more) x) (passing n) ≡ behind more (continue x (passing n))
  passed n b more (rr, ok s) h e =
      ap (λ (q : List ℕ). (record rr { input_buffer = q; frame_size = 0 }, ok s))
        (drop-append b more n h ∙ ap (λ q. drop n q ++ more) (sym e))
  passed n b more (rr, err s) h e =
      ap (λ (q : List ℕ). (record rr { input_buffer = q }, err s)) (ap (λ q. q ++ more) (sym e))

  -- Two tests, and what follows them
  guarded :
      (bytes : List ℕ) (rr : Remote F C) (t v : Bool) (act same : Action (Remote F C) Step)
      → (v ≡ true → act (with_input bytes rr) ≡ after bytes (same rr))
      → continue (require t ebadmsg (with_input bytes rr)) (λ _. require v ebadmsg >> act)
        ≡ after bytes (continue (require t ebadmsg rr) (λ _. require v ebadmsg >> same))
  guarded bytes rr true true act same h = h refl
  guarded bytes rr true false act same h = refl
  guarded bytes rr false v act same h = refl

module _ {F C : Type 0} (files : Files F) (cache : Cache C) (memory : List ℕ → ℕ → Bool) where
  module _ (b more : List ℕ) (least : 16 ≤ length b) (whole : frame_length b ≤ length b) where
    -- The part of a frame of each type that is read without looking at its length is in the frame.
    IsLong : FrameType → Type 0
    IsLong hello = 24 ≤ frame_length b
    IsLong request = 24 ≤ frame_length b
    IsLong chunk = 56 ≤ frame_length b
    IsLong missing = 48 ≤ frame_length b
    IsLong abort = 24 ≤ frame_length b
    IsLong _ = 16 ≤ frame_length b

    validate-IsLong : (type : FrameType) → validate type b ≡ true → IsLong type
    unfolding IsLong validate validate_hello validate_file validate_file_eof validate_request
        validate_chunk validate_missing validate_goodbye validate_abort
    validate-IsLong hello v = ground arith
    validate-IsLong index v = ground arith
    validate-IsLong index_eof v = ground arith
    validate-IsLong archive v = ground arith
    validate-IsLong archive_eof v = ground arith
    validate-IsLong request v = ground arith
    validate-IsLong chunk v = ground arith
    validate-IsLong missing v = ground arith
    validate-IsLong goodbye v = ground arith
    validate-IsLong abort v = ground arith

    third : 24 ≤ frame_length b → third_word (b ++ more) ≡ third_word b
    third = third_word-append b more least whole

    rest : (off : ℕ) → off ≤ frame_length b → payload off (b ++ more) ≡ payload off b
    rest = payload-append b more least whole

    process-append :
        (type : FrameType)
        → IsLong type
        → process {C = C} files cache memory type (b ++ more) ≡ process files cache memory type b
    unfolding IsLong process process_hello process_request process_chunk process_missing
        process_index process_archive process_abort
    process-append hello v = rw (third v) refl
    process-append index v = rw (rest 16 v) refl
    process-append index_eof v = refl
    process-append archive v = rw (rest 16 v) refl
    process-append archive_eof v = refl
    process-append request v = rw (rest 24 v, third v) refl
    process-append chunk v =
        rw (rest 56 (omega arith), third (omega arith), slice-append 24 32 b more (omega arith))
          refl
    process-append missing v = rw (slice-append 16 32 b more (omega arith)) refl
    process-append goodbye v = refl
    process-append abort v = rw (third v) refl

    dispatch-append :
        (o : Option FrameType) (rr : Remote F C) (bytes : List ℕ)
        → dispatch files cache memory o (b ++ more) (with_input bytes rr)
          ≡ after bytes (dispatch files cache memory o b rr)
    unfolding dispatch admits
    dispatch-append none rr bytes = refl
    dispatch-append (some type) rr bytes =
        ap₂
          (λ t v.
            continue (require t ebadmsg (with_input bytes rr))
              (λ _. require v ebadmsg >> process files cache memory type (b ++ more)))
          (admits-with_input type rr bytes) (validate-append b more least whole type)
        ∙ guarded bytes rr (admits type rr) (validate type b)
            (process files cache memory type (b ++ more)) (process files cache memory type b)
            (λ v.
              ap (λ act. act (with_input bytes rr)) (process-append type (validate-IsLong type v))
              ∙ process-Keeps bytes files cache memory type b rr)

  dispatch-Keeps :
      (o : Option FrameType) (b bytes : List ℕ)
      → Keeps {F = F} {C = C} bytes (dispatch files cache memory o b)
  unfolding dispatch admits
  dispatch-Keeps none b bytes rr = refl
  dispatch-Keeps (some type) b bytes rr =
      ap
        (λ t.
          continue (require t ebadmsg (with_input bytes rr))
            (λ _. require (validate type b) ebadmsg >> process files cache memory type b))
        (admits-with_input type rr bytes)
      ∙ guarded bytes rr (admits type rr) (validate type b) (process files cache memory type b)
          (process files cache memory type b)
          (λ v. process-Keeps bytes files cache memory type b rr)

  pub process_frame-append :
      (rr : Remote F C) (more : List ℕ)
      → 16 ≤ length rr.input_buffer
      → frame_length rr.input_buffer ≤ length rr.input_buffer
      → process_frame files cache memory (rr.input_buffer ++ more) (arrived more rr)
        ≡ behind more (process_frame files cache memory rr.input_buffer rr)
  unfolding process_frame
  process_frame-append rr more least whole =
      let b = rr.input_buffer in
      let o = type_of_code (frame_code b) in
      let x = dispatch files cache memory o b rr in
      let kept : x.0.input_buffer ≡ b = ap (λ y. y.0.input_buffer) (dispatch-Keeps o b b rr) in
      ap₂
        (λ c n.
          continue (dispatch files cache memory (type_of_code c) (b ++ more) (arrived more rr))
            (passing n))
        (frame_code-append b more least whole) (frame_length-append b more least whole)
      ∙ ap (λ y. continue y (passing (frame_length b)))
          (dispatch-append b more least whole o rr (b ++ more))
      ∙ passed (frame_length b) b more x whole kept

  -- A frame that has arrived whole is processed.
  pub process_message-whole :
      (rr : Remote F C)
      → is_awake rr ≡ true
      → 16 ≤ length rr.input_buffer
      → 16 ≤ frame_length rr.input_buffer
      → frame_length rr.input_buffer ≤ size_max
      → frame_length rr.input_buffer ≤ length rr.input_buffer
      → process_message files cache memory rr ≡ process_frame files cache memory rr.input_buffer rr
  unfolding process_message
  process_message-whole rr awake least low high whole =
      rw
        (
          ap not awake,
          le→ltb (length rr.input_buffer) 16 least,
          le→ltb (frame_length rr.input_buffer) 16 low,
          le→ltb size_max (frame_length rr.input_buffer) high,
          le→ltb (length rr.input_buffer) (frame_length rr.input_buffer) whole,
        )
        refl

  process_message-refused :
      (rr : Remote F C)
      → is_awake rr ≡ true
      → 16 ≤ length rr.input_buffer
      → (ltb (frame_length rr.input_buffer) 16 || ltb size_max (frame_length rr.input_buffer))
        ≡ true
      → process_message files cache memory rr ≡ (rr, err ebadmsg)
  unfolding process_message
  process_message-refused rr awake least bad =
      rw (ap not awake, le→ltb (length rr.input_buffer) 16 least, bad) refl

  process_message-cases :
      (rr : Remote F C)
      → (process_message files cache memory rr).1 ≢ ok poll
      → (is_awake rr ≡ true)
        × (16 ≤ length rr.input_buffer)
        × (((ltb (frame_length rr.input_buffer) 16 || ltb size_max (frame_length rr.input_buffer))
              ≡ true)
            ⊎ ((16 ≤ frame_length rr.input_buffer)
                × (frame_length rr.input_buffer ≤ size_max)
                × (frame_length rr.input_buffer ≤ length rr.input_buffer)))
  unfolding process_message
  process_message-cases rr busy = elim (Bool-cases (is_awake rr)) [
    | inr e ↦ absurd (busy (rw e refl))
    | inl e ↦ elim (Bool-cases (ltb (length rr.input_buffer) 16)) [
      | inl f ↦ absurd (busy (rw (e, f) refl))
      | inr f ↦
          elim (Bool-cases (
            ltb (frame_length rr.input_buffer) 16 || ltb size_max (frame_length rr.input_buffer))) [
              | inl g ↦ (e, ltb→ge (length rr.input_buffer) 16 f, inl g)
              | inr g ↦
                  elim (Bool-cases (ltb (length rr.input_buffer) (frame_length rr.input_buffer))) [
                    | inl h ↦ absurd (busy (rw (e, f, g, h) refl))
                    | inr h ↦
                        let (low, high) = in_range (frame_length rr.input_buffer) g in
                        (
                          e,
                          ltb→ge (length rr.input_buffer) 16 f,
                          inr (
                            low,
                            high,
                            ltb→ge (length rr.input_buffer) (frame_length rr.input_buffer) h,
                          ),
                        )
                  ]
            ]
    ]
  ]

  -- Unless it waits for more, a call of ca_remote_process_message does the same when more bytes have already
  -- been read, and these stay in the input buffer behind what it leaves there.
  pub process_message-arrived :
      (rr : Remote F C) (more : List ℕ)
      → (process_message files cache memory rr).1 ≢ ok poll
      → process_message files cache memory (arrived more rr)
        ≡ behind more (process_message files cache memory rr)
  process_message-arrived rr more busy =
      let b = rr.input_buffer in
      let (awake, least, more_cases) = process_message-cases rr busy in
      let longer : length (b ++ more) ≡ length b + length more = length-append b more in
      elim more_cases [
        | inl bad ↦
            process_message-refused (arrived more rr) awake (omega arith)
              (ap (λ n. ltb n 16 || ltb size_max n) (u64-append b more 0 (omega arith)) ∙ bad)
            ∙ ap (behind more) (sym (process_message-refused rr awake least bad))
        | inr (low, high, whole) ↦
            let same : frame_length (b ++ more) ≡ frame_length b =
              frame_length-append b more least whole in
            process_message-whole (arrived more rr) awake (omega arith) (omega arith) (omega arith)
              (omega arith)
            ∙ process_frame-append rr more least whole
            ∙ ap (behind more) (sym (process_message-whole rr awake least low high whole))
      ]
