-- ===== src/Remote/Send.antt =====
-- src/caremote.c: the frames that are sent.
use casync.Prelude.{
  ℕ, zero, suc, ◌+◌, Bool, true, false, not, Option, none, some, List, [], ◌∷◌, ◌++◌, if◌then◌else◌,
  ltb, leb, ◌==◌, ◌&&◌, ◌||◌, wrap64, drop, length, overwrite, Result, ok, err, einval, eagain,
  efbig, enomem, enotty, epipe, ealready, ebusy, is_enodata, fuel_spent,
}
use casync.Action.{Action, pure, gets, modify, require, ensure, continue, ◌>>=◌, ◌>>◌}
use casync.ChunkId.{id_size, u64}
use casync.Chunker.{size_limit_min, size_limit_max}
use casync.Format.{words, le_bytes}
use casync.Files.{Files}
use casync.Remote.{
  Remote, RemoteFile, Cache, Step, poll, step, has, is_open, is_running, is_eof, buffer_low,
}
use casync.Remote.Frames.{
  FrameType, hello, index, index_eof, archive, archive_eof, request, chunk, missing, goodbye, abort,
  type_code, size_max, hello_size, file_size, request_size, chunk_size, missing_size, abort_size,
}
use casync.Remote.Queue.{dequeue_request}
use casync.Remote.Receive.{on_index, on_archive, file_install}

-- A frame: its header, and what follows it
unfoldable pub frame : FrameType → ℕ → List ℕ → List ℕ
unfolding words
frame type size body = words (size ∷ type_code type ∷ []) ++ body

-- A frame whose third field is a word too
unfoldable pub flagged_frame : FrameType → ℕ → ℕ → List ℕ → List ℕ
unfolding words
flagged_frame type size flags body = words (size ∷ type_code type ∷ flags ∷ []) ++ body

module _ {F C : Type 0} where
  -- Whether this side sends chunks, an index, an archive
  abbrev pub gives : ℕ → ℕ → Remote F C → Bool
  gives pulled pushed rr = has rr.remote_feature_flags pulled || has rr.local_feature_flags pushed

  -- `ca_remote_can_put_chunk`
  unfoldable pub can_put_chunk : Remote F C → Result Bool
  can_put_chunk rr =
      if is_eof rr.state
      then err epipe
      else ok
          (gives 0x40 0x200 rr && is_running rr.state && leb (length rr.output_buffer) buffer_low)

  -- `ca_remote_file_can_put`
  unfoldable pub file_can_put : RemoteFile F → Remote F C → Result Bool
  file_can_put file rr =
      if is_eof rr.state
      then err epipe
      else if file.complete
      then err ebusy
      else ok (is_running rr.state && leb (length rr.output_buffer) buffer_low)

  -- `ca_remote_can_put_index`
  unfoldable pub can_put_index : Remote F C → Result Bool
  unfolding file_can_put
  can_put_index rr = if gives 0x80 0x400 rr then file_can_put rr.index_file rr else ok false

  -- `ca_remote_can_put_archive`
  unfoldable pub can_put_archive : Remote F C → Result Bool
  unfolding file_can_put
  can_put_archive rr = if gives 0x100 0x1000 rr then file_can_put rr.archive_file rr else ok false

  -- What a put does with the answer: an error, EAGAIN, or going on
  abbrev pub when_room : (Remote F C → Result Bool) → Action (Remote F C) (Unit {0})
  when_room room = do room_now ← (λ rr. (rr, room rr)); require room_now eagain

module _ {F C : Type 0} (memory : List ℕ → ℕ → Bool) where
  -- `realloc_buffer_extend` of the output buffer by these bytes
  abbrev pub send : List ℕ → Action (Remote F C) (Unit {0})
  send bytes = do
    ensure (λ rr. memory rr.output_buffer (length bytes)) enomem
    modify (λ rr. record rr { output_buffer = rr.output_buffer ++ bytes })

  -- `ca_remote_put_chunk`. The compression is one of the two that there are.
  unfoldable pub put_chunk : List ℕ → Bool → List ℕ → Action (Remote F C) (Unit {0})
  unfolding can_put_chunk flagged_frame
  put_chunk id compressed bytes = do
    let size = length bytes
    require (leb size_limit_min size) einval
    require (leb size size_limit_max) einval
    ensure (gives 0x40 0x200) enotty
    when_room can_put_chunk
    let msz = wrap64 (chunk_size + size)
    require (leb size msz) efbig
    require (leb msz size_max) efbig
    send (flagged_frame chunk msz (if compressed then 1 else 0) (id ++ bytes))

  -- `ca_remote_put_missing`
  unfoldable pub put_missing : List ℕ → Action (Remote F C) (Unit {0})
  unfolding can_put_chunk frame
  put_missing id = do
    ensure (gives 0x40 0x200) enotty
    when_room can_put_chunk
    send (frame missing missing_size id)

  -- `ca_remote_file_put`
  unfoldable pub file_put : FrameType → List ℕ → Action (Remote F C) (Unit {0})
  unfolding frame
  file_put type bytes = do
    let size = length bytes
    let msz = wrap64 (file_size + size)
    require (leb size msz) efbig
    require (leb msz size_max) efbig
    send (frame type msz bytes)

  -- `ca_remote_put_index`
  unfoldable pub put_index : List ℕ → Action (Remote F C) (Unit {0})
  unfolding can_put_index file_put
  put_index bytes = do
    require (not (length bytes == 0)) einval
    ensure (gives 0x80 0x400) enotty
    when_room can_put_index
    file_put index bytes

  -- `ca_remote_put_index_eof`, with `ca_remote_file_put_eof`
  unfoldable pub put_index_eof : Action (Remote F C) (Unit {0})
  unfolding can_put_index frame
  put_index_eof = do
    ensure (gives 0x80 0x400) enotty
    when_room can_put_index
    send (frame index_eof file_size [])
    on_index (modify (λ file. record file { complete = true }))

  -- `ca_remote_put_archive`
  unfoldable pub put_archive : List ℕ → Action (Remote F C) (Unit {0})
  unfolding can_put_archive file_put
  put_archive bytes = do
    require (not (length bytes == 0)) einval
    ensure (gives 0x100 0x1000) enotty
    when_room can_put_archive
    file_put archive bytes

  -- `ca_remote_put_archive_eof`, with `ca_remote_file_put_eof`
  unfoldable pub put_archive_eof : Action (Remote F C) (Unit {0})
  unfolding can_put_archive frame
  put_archive_eof = do
    ensure (gives 0x100 0x1000) enotty
    when_room can_put_archive
    send (frame archive_eof file_size [])
    on_archive (modify (λ file. record file { complete = true }))

  abbrev greet : Action (Remote F C) Step
  greet = do
    flags ← gets (λ rr. rr.local_feature_flags)
    send (flagged_frame hello hello_size flags [])
    modify (λ rr. record rr { sent_hello = true })
    pure step

  -- `ca_remote_send_hello`
  unfoldable pub send_hello : Action (Remote F C) Step
  unfolding flagged_frame
  send_hello rr = if rr.sent_hello then (rr, ok poll) else greet rr

  -- `ca_remote_goodbye`
  unfoldable pub say_goodbye : Files F → Action (Remote F C) (Unit {0})
  unfolding file_install frame
  say_goodbye files = do
    ensure (λ rr. not (is_eof rr.state)) epipe
    ensure (λ rr. not rr.sent_goodbye) ealready
    on_index (file_install files)
    on_archive (file_install files)
    send (frame goodbye file_size [])
    modify (λ rr. record rr { sent_goodbye = true })

  -- `ca_remote_abort`, with a message without NULs
  unfoldable pub say_abort : ℕ → List ℕ → Action (Remote F C) (Unit {0})
  unfolding flagged_frame
  say_abort error message = do
    require (ltb error 2147483647) einval
    ensure (λ rr. not (is_eof rr.state)) epipe
    ensure (λ rr. not rr.sent_goodbye) ealready
    send (flagged_frame abort (abort_size + length message + 1) error (message ++ (0 ∷ [])))
    modify (λ rr. record rr { sent_goodbye = true })

  -- The rest of `ca_remote_send_request`'s loop for an id: the frame at an offset of the output buffer, which is made
  -- by the first id
  abbrev pub add_id : Option ℕ → Bool → List ℕ → Action (Remote F C) ℕ
  add_id none high id = do
    offset ← gets (λ rr. length rr.output_buffer)
    send (flagged_frame request (request_size + id_size) (if high then 1 else 0) id)
    pure offset
  add_id (some offset) high id = do
    send id
    modify (λ rr. record rr {
      output_buffer =
          overwrite rr.output_buffer offset
            (le_bytes 8 (wrap64 (u64 (drop offset rr.output_buffer) 0 + id_size)));
    })
    pure offset

-- `return header_offset != (size_t) -1 ? CA_REMOTE_STEP : CA_REMOTE_POLL;`
abbrev pub asked : Option ℕ → Step
asked offset = if is_open offset then step else poll

module _ {F C : Type 0} (cache : Cache C) (memory : List ℕ → ℕ → Bool) where
  abbrev pub ask_or_stop :
      (Option ℕ → Option Bool → Action (Remote F C) Step)
      → Option ℕ
      → Remote F C × Result (List ℕ × Bool)
      → Remote F C × Result Step
  ask_or_stop more offset (rr, err e) = (rr, if is_enodata e then ok (asked offset) else err e)
  ask_or_stop more offset (rr, ok (id, high)) =
      continue (add_id memory offset high id rr) (λ at rr'.
        if leb 65536 (u64 (drop at rr'.output_buffer) 0)
        then (rr', ok step)
        else more (some at) (some high) rr')

  -- The loop of `ca_remote_send_request`, with so many rounds
  unfoldable pub request_rounds : ℕ → Option ℕ → Option Bool → Action (Remote F C) Step
  unfolding flagged_frame
  request_rounds zero offset only rr = (rr, err fuel_spent)
  request_rounds (suc rounds) offset only rr =
      ask_or_stop (request_rounds rounds) offset (dequeue_request cache only rr)

  -- `ca_remote_send_request`. Each round adds an id to a frame, which ends the loop at 65536 bytes.
  unfoldable pub send_request : Action (Remote F C) Step
  unfolding request_rounds
  send_request rr =
      if not (has rr.remote_feature_flags 0x800) && not (has rr.local_feature_flags 0x40)
      then (rr, ok poll)
      else if not (is_running rr.state)
      then (rr, ok poll)
      else if ltb buffer_low (length rr.output_buffer)
      then (rr, ok poll)
      else request_rounds 2049 none none rr
