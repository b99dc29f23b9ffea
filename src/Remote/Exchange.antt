-- ===== src/Remote/Exchange.antt =====
-- What one side of a connection sends is what the other side receives.
use casync.Prelude.{
  ℕ, ◌+◌, ◌≤◌, ◌<◌, ◌≡◌, refl, sym, ap, ap₂, ◌∙◌, Bool, true, some, List, [], ◌∷◌, ◌++◌, take, drop,
  take_first, length, length-append, append_assoc, arith, Result, ok, if◌then◌else◌, ebadmsg,
  Bool-cases, inl, inr, bit_and, not64, drop-drop,
}
use casync.Action.{Action, continue, require, ◌>>◌}
use casync.Format.{words}
use casync.Format.Words.{u64-words, length-words, drop_past}
use casync.Files.{Files}
use casync.Remote.{Remote, Cache, State, running, Step, step, has}
use casync.Remote as R
use casync.Remote.Frames.{
  FrameType, hello, index, index_eof, archive, archive_eof, request, chunk, missing, goodbye, abort,
  type_code, type_of_code, frame_length, frame_code, validate_chunk, third_word, payload, size_max,
}
use casync.Remote.Receive.{
  process_message, process_frame, dispatch, process, admits, validate, process_chunk, saved,
  pass_frame, either_has,
}
use casync.Remote.Framing.{process_message-whole}
use casync.Remote.Send.{put_chunk, can_put_chunk, flagged_frame}

small_code : (type : FrameType) → type_code type < 18446744073709551616
small_code hello = omega arith
small_code index = omega arith
small_code index_eof = omega arith
small_code archive = omega arith
small_code archive_eof = omega arith
small_code request = omega arith
small_code chunk = omega arith
small_code missing = omega arith
small_code goodbye = omega arith
small_code abort = omega arith

module _ (type : FrameType) (size flags : ℕ) (body rest : List ℕ) where
  abbrev fields : List ℕ
  fields = size ∷ type_code type ∷ flags ∷ []

  flagged_frame-words : flagged_frame type size flags body ++ rest ≡ words fields ++ (body ++ rest)
  unfolding flagged_frame
  flagged_frame-words = append_assoc (words fields) body rest

  pub frame_length-flagged :
      size < 18446744073709551616 → frame_length (flagged_frame type size flags body ++ rest) ≡ size
  frame_length-flagged h =
      ap frame_length flagged_frame-words ∙ u64-words fields (body ++ rest) 0 refl h

  pub frame_code-flagged : frame_code (flagged_frame type size flags body ++ rest) ≡ type_code type
  frame_code-flagged =
      ap frame_code flagged_frame-words ∙ u64-words fields (body ++ rest) 1 refl (small_code type)

  pub third_word-flagged :
      flags < 18446744073709551616 → third_word (flagged_frame type size flags body ++ rest) ≡ flags
  third_word-flagged h =
      ap third_word flagged_frame-words ∙ u64-words fields (body ++ rest) 2 refl h

  pub drop-flagged : drop 24 (flagged_frame type size flags body ++ rest) ≡ body ++ rest
  drop-flagged =
      ap (drop 24) flagged_frame-words
      ∙ drop_past (words fields) (body ++ rest) 24 (sym (length-words fields))

  pub length-flagged : length (flagged_frame type size flags body) ≡ 24 + length body
  unfolding flagged_frame
  length-flagged = omega (arith, length-append (words fields) body, length-words fields)

module _ {F C : Type 0} (memory : List ℕ → ℕ → Bool) where
  -- What ca_remote_put_chunk sends, and when
  put_chunk-sends :
      (s : Remote F C) (id : List ℕ) (compressed : Bool) (bytes : List ℕ)
      → (put_chunk memory id compressed bytes s).1 ≡ ok tt
      → (1 ≤ length bytes)
        × (56 + length bytes ≤ size_max)
        × ((put_chunk memory id compressed bytes s).0.output_buffer
            ≡ s.output_buffer
              ++ flagged_frame chunk
                  (56 + length bytes)
                  (if compressed then 1 else 0)
                  (id ++ bytes))
  unfolding put_chunk can_put_chunk
  put_chunk-sends s id compressed bytes e = ground arith

module _ {F C : Type 0} (files : Files F) (cache : Cache C) (memory : List ℕ → ℕ → Bool) where
  pub dispatch-passes :
      (type : FrameType) (b : List ℕ) (rr : Remote F C)
      → admits type rr ≡ true
      → validate type b ≡ true
      → dispatch files cache memory (some type) b rr ≡ process files cache memory type b rr
  unfolding dispatch
  dispatch-passes type b rr a v =
      ap₂
        (λ t u.
          continue (require t ebadmsg rr)
            (λ _. require u ebadmsg >> process files cache memory type b))
        a v

  -- The frame of a chunk
  module _ (id : List ℕ) (compressed : Bool) (bytes rest : List ℕ) (long : length id ≡ 32)
      (some_bytes : 1 ≤ length bytes) (fits : 56 + length bytes ≤ size_max) where
    flag : ℕ
    flag = if compressed then 1 else 0

    sent : List ℕ
    sent = flagged_frame chunk (56 + length bytes) flag (id ++ bytes)

    flag_small : flag < 18446744073709551616
    unfolding flag
    flag_small = ground arith

    flag_read : has flag 1 ≡ compressed
    unfolding flag
    flag_read = elim (Bool-cases compressed) [ inl e ↦ rw e refl | inr e ↦ rw e refl ]

    size_is : frame_length (sent ++ rest) ≡ 56 + length bytes
    unfolding sent
    size_is = frame_length-flagged chunk (56 + length bytes) flag (id ++ bytes) rest (omega arith)

    third_is : third_word (sent ++ rest) ≡ flag
    unfolding sent
    third_is = third_word-flagged chunk (56 + length bytes) flag (id ++ bytes) rest flag_small

    id_is : take 32 (drop 24 (sent ++ rest)) ≡ id
    unfolding sent
    id_is =
        ap (take 32) (
          drop-flagged chunk (56 + length bytes) flag (id ++ bytes) rest
          ∙ append_assoc id bytes rest)
        ∙ take_first id (bytes ++ rest) 32 long

    length-sent : length sent ≡ 56 + length bytes
    unfolding sent
    length-sent = omega (
      arith,
      length-flagged chunk (56 + length bytes) flag (id ++ bytes) rest,
      length-append id bytes,
    )

    payload_is : payload 56 (sent ++ rest) ≡ bytes
    unfolding sent
    payload_is =
        ap₂ take (omega (arith, size_is)) (
          sym (drop-drop 32 24 (sent ++ rest))
          ∙ ap (drop 32) (
              drop-flagged chunk (56 + length bytes) flag (id ++ bytes) rest
              ∙ append_assoc id bytes rest)
          ∙ drop_past id (bytes ++ rest) 32 (sym long))
        ∙ take_first bytes rest (length bytes) refl

    code_is : frame_code (sent ++ rest) ≡ type_code chunk
    unfolding sent
    code_is = frame_code-flagged chunk (56 + length bytes) flag (id ++ bytes) rest

    flag_clear : bit_and flag (not64 1) ≡ 0
    unfolding flag
    flag_clear = elim (Bool-cases compressed) [ inl e ↦ rw e refl | inr e ↦ rw e refl ]

    valid : validate chunk (sent ++ rest) ≡ true
    unfolding validate validate_chunk
    valid = ground (arith, size_is, code_is, ap (λ t. bit_and t (not64 1)) third_is, flag_clear)

    -- The frame that was sent, at the head of the input buffer
    sent_saved :
        (rr : Remote F C) {c c' : C}
        → cache.save c id compressed bytes ≡ (c', ok tt)
        → rr.cache_fd ≡ some c
        → process files cache memory chunk (sent ++ rest) rr
          ≡ (record rr { last_chunk = id; last_chunk_valid = true; cache_fd = some c' }, ok R.chunk)
    unfolding process process_chunk
    sent_saved rr {c} {c'} saves open_cache =
        ap (λ o. process_chunk cache (sent ++ rest) (record rr { cache_fd = o })) open_cache
        ∙ ap₂
            (λ (i : List ℕ) (x : C × Result (Unit {0})). (
              record rr { last_chunk = i; last_chunk_valid = true; cache_fd = some x.0 },
              saved x.1,
            ))
            id_is
            (ap
                (λ i.
                  cache.save c i (has (third_word (sent ++ rest)) 1) (payload 56 (sent ++ rest)))
                id_is
              ∙ ap₂ (cache.save c id) (ap (λ t. has t 1) third_is ∙ flag_read) payload_is
              ∙ saves)

    -- The frame that was sent, at the head of the input buffer of a connection that takes chunks
    message_sent :
        (rr : Remote F C) {c c' : C}
        → cache.save c id compressed bytes ≡ (c', ok tt)
        → rr.cache_fd ≡ some c
        → rr.state ≡ running
        → either_has 0x40 0x200 rr ≡ true
        → rr.input_buffer ≡ sent ++ rest
        → process_message files cache memory rr ≡ (
          record rr {
            input_buffer = rest;
            last_chunk = id;
            last_chunk_valid = true;
            cache_fd = some c';
            frame_size = 0;
          },
          ok R.chunk,
        )
    unfolding process_frame type_of_code admits
    message_sent rr {c} {c'} saves open_cache is_up takes input =
        let b = sent ++ rest in
        let q = record rr { state = running; input_buffer = b } in
        let there : rr ≡ q = λ i. record rr { state = is_up i; input_buffer = input i } in
        let longer : length b ≡ 56 + length bytes + length rest =
          omega (arith, length-append sent rest, length-sent) in
        let last : ℕ → Step → Action (Remote F C) Step = λ n s r. (pass_frame n r, ok s) in
        let taken : State → List ℕ → Remote F C × Result Step = λ t r. (
          record rr {
            state = t;
            input_buffer = r;
            last_chunk = id;
            last_chunk_valid = true;
            cache_fd = some c';
            frame_size = 0;
          },
          ok R.chunk,
        ) in
        ap (process_message files cache memory) there
        ∙ process_message-whole files cache memory q refl (omega (arith, longer))
            (omega (arith, size_is)) (omega (arith, size_is)) (omega (arith, size_is, longer))
        ∙ ap₂ (λ k n. continue (dispatch files cache memory (type_of_code k) b q) (last n)) code_is
            size_is
        ∙ ap (λ x. continue x (last (56 + length bytes)))
            (dispatch-passes chunk b q takes valid ∙ sent_saved q saves open_cache)
        ∙ ap (λ r. taken running r) (drop_past sent rest (56 + length bytes) (sym length-sent))
        ∙ ap (λ t. taken t rest) (sym is_up)

  -- A chunk that ca_remote_put_chunk sends is saved in the cache of the other side with its id and its compression,
  -- and what was sent behind it stays in the input buffer.
  pub put_chunk-process_message :
      (s rr : Remote F C) (id : List ℕ) (compressed : Bool) (bytes rest : List ℕ) {c c' : C}
      → length id ≡ 32
      → (put_chunk memory id compressed bytes s).1 ≡ ok tt
      → rr.input_buffer
        ≡ drop (length s.output_buffer) (put_chunk memory id compressed bytes s).0.output_buffer
          ++ rest
      → rr.state ≡ running
      → either_has 0x40 0x200 rr ≡ true
      → rr.cache_fd ≡ some c
      → cache.save c id compressed bytes ≡ (c', ok tt)
      → process_message files cache memory rr ≡ (
        record rr {
          input_buffer = rest;
          last_chunk = id;
          last_chunk_valid = true;
          cache_fd = some c';
          frame_size = 0;
        },
        ok R.chunk,
      )
  unfolding sent flag
  put_chunk-process_message s rr id compressed bytes rest long done input is_up takes open_cache
        saves =
      let (some_bytes, fits, out) = put_chunk-sends memory s id compressed bytes done in
      let frame_sent =
        ap (drop (length s.output_buffer)) out
        ∙ drop_past s.output_buffer
            (flagged_frame chunk (56 + length bytes) (if compressed then 1 else 0) (id ++ bytes))
            (length s.output_buffer) refl in
      message_sent id compressed bytes rest long some_bytes fits rr saves open_cache is_up takes
        (input ∙ ap (λ t. t ++ rest) frame_sent)
