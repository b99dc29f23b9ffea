-- ===== src/Remote/Steps.antt =====
-- src/caremote.c: writing and sending files, and ca_remote_step, which makes the calls in turn.
use casync.Prelude.{
  ℕ, ◌+◌, Bool, true, not, Option, none, some, List, [], ◌++◌, if◌then◌else◌, ltb, ◌==◌, ◌&&◌, drop,
  length, Result, ok, err, is_eagain, ebadf, enomem, epipe,
}
use casync.Action.{Action, pure, modify, ◌>>=◌, ◌>>◌}
use casync.Files.{Files}
use casync.Remote.{
  Remote, RemoteFile, Cache, Step, poll, finished, step, write_index, write_archive, has,
  is_running, is_eof, buffer_low,
}
use casync.Remote.Frames.{FrameType, index, index_eof, archive, archive_eof, file_size}
use casync.Remote.Receive.{process_message, read_input}
use casync.Remote.Send.{frame, send, send_hello, send_request}

module _ {F C : Type 0} where
  abbrev written : F × Result ℕ → Action (Remote F C) Step
  written (fd, err e) rr =
      (record rr { output_fd = some fd }, if is_eagain e then ok poll else err e)
  written (fd, ok n) rr = (
    record rr { output_fd = some fd; output_buffer = drop n rr.output_buffer },
    ok (if rr.sent_goodbye && (length (drop n rr.output_buffer) == 0) then finished else step),
  )

  abbrev write_to : Files F → Option F → Action (Remote F C) Step
  write_to files none rr = (rr, err ebadf)
  write_to files (some fd) rr = written (files.write fd rr.output_buffer) rr

  -- `ca_remote_write`
  unfoldable pub write_output : Files F → Action (Remote F C) Step
  write_output files rr =
      if length rr.output_buffer == 0 then (rr, ok poll) else write_to files rr.output_fd rr

-- Which of the two files of a connection
pub data Part : Type 0 where
  index_part archive_part : Part

abbrev pub file_of : {F C : Type 0} → Part → Remote F C → RemoteFile F
file_of index_part rr = rr.index_file
file_of archive_part rr = rr.archive_file

abbrev pub set_file : {F C : Type 0} → Part → RemoteFile F → Remote F C → Remote F C
set_file index_part file rr = record rr { index_file = file }
set_file archive_part file rr = record rr { archive_file = file }

abbrev pub file_type : Part → FrameType
file_type index_part = index
file_type archive_part = archive

abbrev pub eof_type : Part → FrameType
eof_type index_part = index_eof
eof_type archive_part = archive_eof

abbrev pub request_step : Part → Step
request_step index_part = write_index
request_step archive_part = write_archive

module _ {F C : Type 0} (files : Files F) (memory : List ℕ → ℕ → Bool) where
  abbrev set_fd : Part → F → Remote F C → Remote F C
  set_fd part fd rr = set_file part (record (file_of part rr) { fd = some fd }) rr

  abbrev set_complete : Part → Remote F C → Remote F C
  set_complete part rr = set_file part (record (file_of part rr) { complete = true }) rr

  abbrev send_eof : Part → Action (Remote F C) Step
  send_eof part = do
    send memory (frame (eof_type part) file_size [])
    modify (set_complete part)
    pure step

  -- What follows the read() in `ca_remote_send_file`. There is memory for as much as was asked for.
  abbrev pub sent_part : Part → F × Result (List ℕ) → Action (Remote F C) Step
  sent_part part (fd, err e) rr = (set_fd part fd rr, err e)
  sent_part part (fd, ok bytes) rr =
      if length bytes == 0 then send_eof part (set_fd part fd rr) else (
        record (set_fd part fd rr) {
          output_buffer =
              rr.output_buffer ++ frame (file_type part) (file_size + length bytes) bytes;
        },
        ok step,
      )

  abbrev send_from : Part → Option F → Action (Remote F C) Step
  send_from part none rr = (rr, ok (request_step part))
  send_from part (some fd) rr =
      if not (memory rr.output_buffer (file_size + 65536))
      then (rr, err enomem)
      else sent_part part (files.read fd 65536) rr

  -- `ca_remote_send_file`
  unfoldable pub send_file : Part → Action (Remote F C) Step
  unfolding frame
  send_file part rr =
      if not (is_running rr.state)
      then (rr, ok poll)
      else if (file_of part rr).complete
      then (rr, ok poll)
      else if ltb buffer_low (length rr.output_buffer)
      then (rr, ok poll)
      else send_from part (file_of part rr).fd rr

  -- `ca_remote_send_index`
  unfoldable pub send_index : Action (Remote F C) Step
  unfolding send_file
  send_index rr =
      if not (has rr.remote_feature_flags 0x80) && not (has rr.local_feature_flags 0x400)
      then (rr, ok poll)
      else send_file index_part rr

  -- `ca_remote_send_archive`
  unfoldable pub send_archive : Action (Remote F C) Step
  unfolding send_file
  send_archive rr =
      if not (has rr.remote_feature_flags 0x100) && not (has rr.local_feature_flags 0x1000)
      then (rr, ok poll)
      else send_file archive_part rr

module _ {F C : Type 0} where
  -- `if (r != CA_REMOTE_POLL) return r;`
  infixl 5 ◌or_else◌
  abbrev pub ◌or_else◌ :
      Action (Remote F C) Step → Action (Remote F C) Step → Action (Remote F C) Step
  ◌or_else◌ first next = first >>= λ s. elim s [ poll ↦ next | other ↦ pure other ]

module _ {F C : Type 0} (files : Files F) (cache : Cache C) (memory : List ℕ → ℕ → Bool)
    (start : Action (Remote F C) Step) where
  -- `ca_remote_step`, given what `ca_remote_start` does
  unfoldable pub remote_step : Action (Remote F C) Step
  unfolding write_output send_hello process_message send_request send_index send_archive read_input
  remote_step rr =
      if is_eof rr.state
      then (rr, err epipe)
      else (start
            or_else write_output files
            or_else send_hello memory
            or_else process_message files cache memory
            or_else send_request cache memory
            or_else send_index files memory
            or_else send_archive files memory
            or_else read_input files memory)
          (record rr {
            index_file = record rr.index_file { buffer = [] };
            archive_file = record rr.archive_file { buffer = [] };
          })
