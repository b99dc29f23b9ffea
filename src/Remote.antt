-- ===== src/Remote.antt =====
-- src/caremote.c: one end of a connection over which chunks, indexes and archives are pulled or pushed. The
-- buffers are their bytes (Buffer has the code that keeps them); `memory` says whether a buffer can grow by so many
-- bytes.
pub mod Frames
pub mod Queue
pub mod Receive
pub mod Pointers
pub mod Send
pub mod Requests
pub mod Parts
pub mod Steps
pub mod Framing
pub mod Progress
pub mod Genuine
pub mod Exchange
pub mod Handshake
pub mod Fifo
pub mod Asking
mod Keeps
mod Tests
use Prim.Native.String.{String}
use casync.Prelude.{
  ℕ, ◌+◌, ◌-◌, Bool, true, false, Option, none, some, List, [], ◌∷◌, ◌++◌, if◌then◌else◌, leb, ltb,
  ◌==◌, ◌||◌, ◌&&◌, not, drop, length, max64, not64, bit_and, bit_or, max, Result, ok, err, Errno,
  einval, enomem, ebusy, eopnotsupp, enodata, eunatch, epipe,
}
use casync.Action.{Action, pure, fail, gets, modify, require, ensure, continue, ◌>>=◌, ◌>>◌}

-- `CaRemoteState`
pub data State : Type 0 where
  hello running eof : State

-- What a call asks of the program: CA_REMOTE_POLL and so on.
pub data Step : Type 0 where
  poll finished step request write_index write_archive chunk read_index read_index_eof read_archive
        read_archive_eof :
      Step

-- `CaRemoteFile`. A descriptor is none where it is negative.
pub record RemoteFile (F : Type 0) : Type 0 where
  pub path : Option String
  pub temporary_path : Option String
  pub fd : Option F
  pub buffer : List ℕ
  pub complete : Bool

-- `CaRemote`, without what `ca_remote_start` starts: URLs, the store's helper process and its rate limit. `C` is
-- the directory of the cache.
pub record Remote (F C : Type 0) : Type 0 where
  pub state : State
  pub cache_path : Option String
  pub cache_fd : Option C
  pub remove_cache : Bool
  pub input_fd : Option F
  pub output_fd : Option F
  pub input_buffer : List ℕ
  pub output_buffer : List ℕ
  pub chunk_buffer : List ℕ
  pub queue_start_high : ℕ
  pub queue_start_low : ℕ
  pub queue_end_high : ℕ
  pub queue_end_low : ℕ
  pub local_feature_flags : ℕ
  pub remote_feature_flags : ℕ
  pub index_file : RemoteFile F
  pub archive_file : RemoteFile F
  pub last_chunk : List ℕ
  pub last_chunk_valid : Bool
  pub sent_hello : Bool
  pub sent_goodbye : Bool
  pub frame_size : ℕ

-- What is asked of the directory of the cache: opening one, symbolic links, and the chunk files of
-- src/cachunk.c. Texts end with a NUL. `save` is told whether the data are compressed, `load` gives it.
pub record Cache (C : Type 0) : Type 0 where
  pub new_name : Result String
  pub open_cache : String → Result C
  pub readlink : C → List ℕ → Result (List ℕ)
  pub symlink : C → List ℕ → List ℕ → C × Result (Unit {0})
  pub unlink : C → List ℕ → C × Result (Unit {0})
  pub mkdir : C → List ℕ → C
  pub save : C → List ℕ → Bool → List ℕ → C × Result (Unit {0})
  pub mark_missing : C → List ℕ → C × Result (Unit {0})
  pub load : C → List ℕ → Option Bool → Result (List ℕ × Bool)
  pub remove : C → List ℕ → C × Result (Unit {0})
  pub print : ℕ → List ℕ
  pub atou64 : List ℕ → Result ℕ

-- A test of one of several flags
abbrev pub has : ℕ → ℕ → Bool
has flags flag = not (bit_and flags flag == 0)

abbrev pub is_hello : State → Bool
is_hello hello = true
is_hello _ = false

abbrev pub is_running : State → Bool
is_running running = true
is_running _ = false

abbrev pub is_eof : State → Bool
is_eof eof = true
is_eof _ = false

abbrev pub is_open {ℓ} : {A : Type ℓ} → Option A → Bool
is_open none = false
is_open (some a) = true

-- REMOTE_BUFFER_SIZE, REMOTE_BUFFER_LOW, CA_PROTOCOL_FEATURE_FLAGS_MAX
abbrev pub buffer_size : ℕ
buffer_size = 1048576

abbrev pub buffer_low : ℕ
buffer_low = 4096

abbrev pub flags_max : ℕ
flags_max = 8191

module _ {F : Type 0} where
  abbrev new_file : RemoteFile F
  new_file = record { path = none; temporary_path = none; fd = none; buffer = []; complete = false }

module _ {F C : Type 0} where
  -- `ca_remote_new`
  unfoldable pub new_remote : Remote F C
  new_remote = record {
    state = hello;
    cache_path = none;
    cache_fd = none;
    remove_cache = false;
    input_fd = none;
    output_fd = none;
    input_buffer = [];
    output_buffer = [];
    chunk_buffer = [];
    queue_start_high = 0;
    queue_start_low = 0;
    queue_end_high = 0;
    queue_end_low = 0;
    local_feature_flags = max64;
    remote_feature_flags = max64;
    index_file = new_file;
    archive_file = new_file;
    last_chunk = [];
    last_chunk_valid = false;
    sent_hello = false;
    sent_goodbye = false;
    frame_size = 0;
  }

  -- `ca_remote_set_local_feature_flags`
  unfoldable pub set_local_feature_flags : ℕ → Action (Remote F C) (Unit {0})
  set_local_feature_flags flags = do
    require (not (flags == max64)) einval
    require (bit_and flags (not64 flags_max) == 0) eopnotsupp
    require (not (flags == 0)) einval
    ensure (λ rr. rr.local_feature_flags == max64) ebusy
    ensure (λ rr. not rr.sent_hello) ebusy
    modify (λ rr. record rr { local_feature_flags = flags })

  abbrev add_flags : ℕ → Action (Remote F C) (Unit {0})
  add_flags flags = do
    ensure (λ rr. not rr.sent_hello) ebusy
    modify (λ rr. record rr { local_feature_flags = bit_or rr.local_feature_flags flags })

  -- `ca_remote_add_local_feature_flags`
  unfoldable pub add_local_feature_flags : ℕ → Action (Remote F C) (Unit {0})
  add_local_feature_flags flags = do
    require (not (flags == max64)) einval
    require (bit_and flags (not64 flags_max) == 0) eopnotsupp
    if flags == 0 then pure tt else add_flags flags

  -- `ca_remote_get_local_feature_flags`
  unfoldable pub get_local_feature_flags : Remote F C → Result ℕ
  get_local_feature_flags rr =
      if rr.local_feature_flags == max64 then err enodata else ok rr.local_feature_flags

  -- `ca_remote_get_remote_feature_flags`
  unfoldable pub get_remote_feature_flags : Remote F C → Result ℕ
  get_remote_feature_flags rr =
      if rr.remote_feature_flags == max64 then err enodata else ok rr.remote_feature_flags

  -- `ca_remote_set_io_fds`
  unfoldable pub set_io_fds : F → F → Action (Remote F C) (Unit {0})
  set_io_fds input output = do
    ensure (λ rr. not (is_open rr.input_fd)) ebusy
    ensure (λ rr. not (is_open rr.output_fd)) ebusy
    modify (λ rr. record rr { input_fd = some input; output_fd = some output })

  -- `ca_remote_get_io_fds`
  unfoldable pub get_io_fds : Remote F C → Result (Option F × Option F)
  get_io_fds rr =
      if not (is_open rr.input_fd) || not (is_open rr.output_fd)
      then err eunatch
      else ok (rr.input_fd, rr.output_fd)

  -- `ca_remote_get_read_size`
  unfoldable pub get_read_size : Remote F C → ℕ
  get_read_size rr = max rr.frame_size buffer_size

  -- `ca_remote_get_io_events`: whether to wait for input, and whether for output
  unfoldable pub get_io_events : Remote F C → Bool × Bool
  unfolding get_read_size
  get_io_events rr =
      (ltb (length rr.input_buffer) (get_read_size rr), ltb 0 (length rr.output_buffer))

  -- `ca_remote_has_pending_requests`
  unfoldable pub has_pending_requests : Remote F C → Bool
  has_pending_requests rr =
      is_open rr.cache_fd
      && (ltb rr.queue_start_high rr.queue_end_high || ltb rr.queue_start_low rr.queue_end_low)

  -- `ca_remote_has_unwritten`
  unfoldable pub has_unwritten : Remote F C → Result Bool
  has_unwritten rr = if is_eof rr.state then err epipe else ok (ltb 0 (length rr.output_buffer))
