-- ===== src/Remote/Receive.antt =====
-- src/caremote.c: the frames that arrive, and what is done about each.
use casync.Prelude.{
  ℕ, zero, suc, ◌-◌, ◌/◌, Bool, true, false, not, Option, none, some, List, ◌++◌, if◌then◌else◌,
  ltb, leb, ◌==◌, ◌&&◌, ◌||◌, bit_and, bit_or, not64, take, drop, length, Result, ok, err, ebadmsg,
  eprotonosupport, ebade, enomem, enotty, is_eexist, ebadf, is_eagain, epipe, econnaborted, peer,
}
use casync.Action.{Action, pure, fail, modify, require, ensure, ◌>>=◌, ◌>>◌}
use casync.ChunkId.{id_size}
use casync.Files.{Files, loop_write}
use casync.Remote.{
  Remote, RemoteFile, Cache, State, running, eof, Step, poll, finished, step, read_index,
  read_index_eof, read_archive, read_archive_eof, has, is_open, is_hello, is_running, is_eof,
  flags_max, get_read_size,
}
use casync.Remote as R
use casync.Remote.Frames.{
  FrameType, hello, index, index_eof, archive, archive_eof, request, chunk, missing, goodbye, abort,
  type_of_code, frame_length, frame_code, third_word, validate_hello, validate_file,
  validate_file_eof, validate_request, validate_chunk, validate_missing, validate_goodbye,
  validate_abort, payload, file_size, request_size, chunk_size, size_min, size_max,
}
use casync.Remote.Queue.{enqueue_request}

-- `operations_and_services_compatible`
unfoldable pub operations_and_services_compatible : ℕ → ℕ → Bool
operations_and_services_compatible operations services =
    (not (has operations 0x40) || has services 0x1)
    && (not (has operations 0x80) || has services 0x4)
    && (not (has operations 0x100) || has services 0x10)
    && (not (has operations 0x200) || has services 0x2)
    && (not (has operations 0x400) || has services 0x8)
    && (not (has operations 0x1000) || has services 0x20)

module _ {F C : Type 0} where
  abbrev pub on_index : {A : Type 0} → Action (RemoteFile F) A → Action (Remote F C) A
  on_index act rr = (record rr { index_file = (act rr.index_file).0 }, (act rr.index_file).1)

  abbrev pub on_archive : {A : Type 0} → Action (RemoteFile F) A → Action (Remote F C) A
  on_archive act rr =
      (record rr { archive_file = (act rr.archive_file).0 }, (act rr.archive_file).1)

  -- `ca_remote_process_hello`
  unfoldable pub process_hello : List ℕ → Action (Remote F C) Step
  unfolding operations_and_services_compatible
  process_hello h = do
    let remote_flags = third_word h
    require (bit_and remote_flags (not64 flags_max) == 0) eprotonosupport
    require (not (has remote_flags 0x800) || (bit_and remote_flags 0x600 == 0x600)) ebade
    ensure (λ rr. operations_and_services_compatible remote_flags rr.local_feature_flags) ebade
    ensure (λ rr. operations_and_services_compatible rr.local_feature_flags remote_flags) ebade
    ensure (λ rr. has (bit_or remote_flags rr.local_feature_flags) 0x17c0) ebade
    modify (λ rr. record rr { remote_feature_flags = remote_flags; state = running })
    pure step

module _ {F : Type 0} (files : Files F) (memory : List ℕ → ℕ → Bool) where
  -- `ca_remote_file_process`
  unfoldable pub file_process : List ℕ → Action (RemoteFile F) (Unit {0})
  file_process bytes file = if file.complete then (file, err ebadmsg) else elim file.fd [
    | some fd ↦
        (record file { fd = some (loop_write files fd bytes).0 }, (loop_write files fd bytes).1)
    | none ↦
        if memory file.buffer (length bytes)
        then (record file { buffer = file.buffer ++ bytes }, ok tt)
        else (file, err enomem)
  ]

module _ {F : Type 0} (files : Files F) where
  -- `ca_remote_file_install`
  unfoldable pub file_install : Action (RemoteFile F) (Unit {0})
  file_install file = if not file.complete then (file, ok tt) else elim file.temporary_path [
    | none ↦ (file, ok tt)
    | some temporary ↦ elim file.path [
      | none ↦ (file, ok tt)
      | some path ↦ elim (files.rename temporary path) [
        | err e ↦ (file, err e)
        | ok _ ↦ (record file { temporary_path = none }, ok tt)
      ]
    ]
  ]

module _ {F : Type 0} where
  -- `ca_remote_file_process_eof`
  unfoldable pub file_process_eof : Action (RemoteFile F) (Unit {0})
  file_process_eof = do
    ensure (λ file. not file.complete) ebadmsg
    modify (λ file. record file { complete = true })

module _ {F C : Type 0} (files : Files F) (memory : List ℕ → ℕ → Bool) where
  -- `ca_remote_process_index`
  unfoldable pub process_index : List ℕ → Action (Remote F C) Step
  unfolding file_process
  process_index h = do on_index (file_process files memory (payload file_size h)); pure read_index

  -- `ca_remote_process_archive`
  unfoldable pub process_archive : List ℕ → Action (Remote F C) Step
  unfolding file_process
  process_archive h = do
    on_archive (file_process files memory (payload file_size h))
    pure read_archive

module _ {F C : Type 0} where
  -- `ca_remote_process_index_eof`
  unfoldable pub process_index_eof : Action (Remote F C) Step
  unfolding file_process_eof
  process_index_eof = do on_index file_process_eof; pure read_index_eof

  -- `ca_remote_process_archive_eof`
  unfoldable pub process_archive_eof : Action (Remote F C) Step
  unfolding file_process_eof
  process_archive_eof = do on_archive file_process_eof; pure read_archive_eof

module _ {F C : Type 0} (files : Files F) where
  -- `ca_remote_process_goodbye`
  unfoldable pub process_goodbye : Action (Remote F C) Step
  unfolding file_install
  process_goodbye = do
    on_index (file_install files)
    on_archive (file_install files)
    modify (λ rr. record rr { state = eof })
    pure finished

abbrev pub saved : Result (Unit {0}) → Result Step
saved (ok _) = ok R.chunk
saved (err e) = if is_eexist e then ok step else err e

module _ {F C : Type 0} (cache : Cache C) where
  -- The loop of `ca_remote_process_request`, over so many ids
  unfoldable pub enqueue_all : ℕ → List ℕ → Bool → Action (Remote F C) (Unit {0})
  enqueue_all zero p high = pure tt
  enqueue_all (suc n) p high =
      enqueue_request cache (take id_size p) high false >>= λ _. enqueue_all n (drop id_size p) high

  -- `ca_remote_process_request`
  unfoldable pub process_request : List ℕ → Action (Remote F C) Step
  process_request h = do
    let ids = payload request_size h
    enqueue_all (length ids / id_size) ids (has (third_word h) 1)
    pure R.request

  abbrev pub store_in_cache : (C → C × Result (Unit {0})) → Action (Remote F C) Step
  store_in_cache call rr = elim rr.cache_fd [
    | none ↦ (rr, err enotty)
    | some c ↦ (record rr { cache_fd = some (call c).0 }, saved (call c).1)
  ]

  -- `ca_remote_process_chunk`
  unfoldable pub process_chunk : List ℕ → Action (Remote F C) Step
  process_chunk h = do
    ensure (λ rr. is_open rr.cache_fd) enotty
    let id = take id_size (drop 24 h)
    modify (λ rr. record rr { last_chunk = id; last_chunk_valid = true })
    store_in_cache (λ c. cache.save c id (has (third_word h) 1) (payload chunk_size h))

  -- `ca_remote_process_missing`
  unfoldable pub process_missing : List ℕ → Action (Remote F C) Step
  process_missing h = store_in_cache (λ c. cache.mark_missing c (take id_size (drop 16 h)))

-- `ca_remote_process_abort`
unfoldable pub process_abort : {S : Type 0} → List ℕ → Action S Step
process_abort h = fail (if third_word h == 0 then econnaborted else peer (third_word h))

module _ {F C : Type 0} where
  abbrev pub either_has : ℕ → ℕ → Remote F C → Bool
  either_has local remote rr =
      has rr.local_feature_flags local || has rr.remote_feature_flags remote

  -- What a frame asks of the connection before it is looked at
  unfoldable pub admits : FrameType → Remote F C → Bool
  admits hello rr = is_hello rr.state
  admits index rr = is_running rr.state && either_has 0x80 0x400 rr
  admits index_eof rr = is_running rr.state && either_has 0x80 0x400 rr
  admits archive rr = is_running rr.state && either_has 0x100 0x1000 rr
  admits archive_eof rr = is_running rr.state && either_has 0x100 0x1000 rr
  admits request rr = is_running rr.state && either_has 0x200 0x40 rr
  admits chunk rr = is_running rr.state && either_has 0x40 0x200 rr
  admits missing rr = is_running rr.state && either_has 0x40 0x200 rr
  admits goodbye rr = is_running rr.state
  admits abort rr = true

-- The check of `ca_remote_process_message` on a frame of each type
unfoldable pub validate : FrameType → List ℕ → Bool
unfolding validate_hello validate_file validate_file_eof validate_request validate_chunk
    validate_missing validate_goodbye validate_abort
validate hello h = validate_hello h
validate index h = validate_file index h
validate index_eof h = validate_file_eof index_eof h
validate archive h = validate_file archive h
validate archive_eof h = validate_file_eof archive_eof h
validate request h = validate_request h
validate chunk h = validate_chunk h
validate missing h = validate_missing h
validate goodbye h = validate_goodbye h
validate abort h = validate_abort h

module _ {F C : Type 0} where
  abbrev pub pass_frame : ℕ → Remote F C → Remote F C
  pass_frame size rr = record rr { input_buffer = drop size rr.input_buffer; frame_size = 0 }

module _ {F C : Type 0} (files : Files F) (cache : Cache C) (memory : List ℕ → ℕ → Bool) where
  -- What is done about a frame of each type
  unfoldable pub process : FrameType → List ℕ → Action (Remote F C) Step
  unfolding process_hello process_index process_index_eof process_archive process_archive_eof
      process_request process_chunk process_missing process_goodbye process_abort
  process hello h = process_hello h
  process index h = process_index files memory h
  process index_eof h = process_index_eof
  process archive h = process_archive files memory h
  process archive_eof h = process_archive_eof
  process request h = process_request cache h
  process chunk h = process_chunk cache h
  process missing h = process_missing cache h
  process goodbye h = process_goodbye files
  process abort h = process_abort h

  -- The switch of `ca_remote_process_message`
  unfoldable pub dispatch : Option FrameType → List ℕ → Action (Remote F C) Step
  unfolding admits validate process
  dispatch none h = fail ebadmsg
  dispatch (some type) h = do
    ensure (admits type) ebadmsg
    require (validate type h) ebadmsg
    process type h

  -- The part of `ca_remote_process_message` for a frame that has arrived whole
  unfoldable pub process_frame : List ℕ → Action (Remote F C) Step
  unfolding dispatch type_of_code
  process_frame h = do
    result ← dispatch (type_of_code (frame_code h)) h
    modify (pass_frame (frame_length h))
    pure result

  -- `ca_remote_process_message`
  unfoldable pub process_message : Action (Remote F C) Step
  unfolding process_frame
  process_message rr =
      let h = rr.input_buffer in
      if not (is_hello rr.state || is_running rr.state)
      then (rr, ok poll)
      else if ltb (length h) size_min
      then (rr, ok poll)
      else if ltb (frame_length h) size_min || ltb size_max (frame_length h)
      then (rr, err ebadmsg)
      else if ltb (length h) (frame_length h)
      then (record rr { frame_size = frame_length h }, ok poll)
      else process_frame h rr

module _ {F C : Type 0} where
  abbrev pub received : F × Result (List ℕ) → Action (Remote F C) Step
  received (fd, err e) rr =
      (record rr { input_fd = some fd }, if is_eagain e then ok poll else err e)
  received (fd, ok bytes) rr =
      if length bytes == 0
      then (record rr { input_fd = some fd }, err epipe)
      else (record rr { input_fd = some fd; input_buffer = rr.input_buffer ++ bytes }, ok step)

module _ {F C : Type 0} (files : Files F) (memory : List ℕ → ℕ → Bool) where
  abbrev pub read_from : ℕ → Option F → Action (Remote F C) Step
  read_from left none rr = (rr, err ebadf)
  read_from left (some fd) rr = received (files.read fd left) rr

  -- `ca_remote_read`
  unfoldable pub read_input : Action (Remote F C) Step
  unfolding get_read_size
  read_input rr =
      let left = get_read_size rr - length rr.input_buffer in
      if leb (get_read_size rr) (length rr.input_buffer)
      then (rr, ok poll)
      else if not (memory rr.input_buffer left)
      then (rr, err enomem)
      else read_from left rr.input_fd rr
