-- ===== src/Remote/Frames.antt =====
-- The frames of the protocol: src/caprotocol.h, and the checks on them of src/caremote.c. A frame is read through a
-- pointer into the input buffer: `h` is the bytes from there to the end of the buffer, and may go on behind the frame.
use casync.Prelude.{
  ℕ, ◌+◌, ◌-◌, ◌%◌, Bool, true, Option, none, some, List, [], ◌∷◌, if◌then◌else◌, leb, ltb, ◌==◌,
  ◌&&◌, not, take, drop, get_or, max64, not64, bit_and,
}
use casync.ChunkId.{u64, id_size}

-- The types of frames
pub data FrameType : Type 0 where
  hello index index_eof archive archive_eof request chunk missing goodbye abort : FrameType

-- CA_PROTOCOL_HELLO and so on
abbrev pub type_code : FrameType → ℕ
type_code hello = 0x3c71d0948ca5fbee
type_code index = 0xb32a91dd2b3e27f8
type_code index_eof = 0x4f0932f1043718f5
type_code archive = 0x95d6428a69eddcc5
type_code archive_eof = 0x450bef663f24cbad
type_code request = 0x8ab427e0f89d9210
type_code chunk = 0x5213dd180a84bc8c
type_code missing = 0xd010f9fac82b7b6c
type_code goodbye = 0xad205dbf1a3686c3
type_code abort = 0xe7d9136b7efea352

-- The labels of the switch of `ca_remote_process_message`; none is the default.
unfoldable pub type_of_code : ℕ → Option FrameType
type_of_code code =
    if code == type_code hello
    then some hello
    else if code == type_code index
    then some index
    else if code == type_code index_eof
    then some index_eof
    else if code == type_code archive
    then some archive
    else if code == type_code archive_eof
    then some archive_eof
    else if code == type_code request
    then some request
    else if code == type_code chunk
    then some chunk
    else if code == type_code missing
    then some missing
    else if code == type_code goodbye
    then some goodbye
    else if code == type_code abort
    then some abort
    else none

-- `header.size` and `header.type`
abbrev pub frame_length : List ℕ → ℕ
frame_length h = u64 h 0

abbrev pub frame_code : List ℕ → ℕ
frame_code h = u64 h 1

-- `feature_flags` of a hello, `flags` of a request and of a chunk, `error` of an abort
abbrev pub third_word : List ℕ → ℕ
third_word h = u64 h 2

-- CA_PROTOCOL_SIZE_MIN, CA_PROTOCOL_SIZE_MAX, and the sizes of the structures up to their flexible arrays
abbrev pub size_min : ℕ
size_min = 16

abbrev pub size_max : ℕ
size_max = 16777216

abbrev pub hello_size : ℕ
hello_size = 24

abbrev pub file_size : ℕ
file_size = 16

abbrev pub request_size : ℕ
request_size = 24

abbrev pub chunk_size : ℕ
chunk_size = 56

abbrev pub missing_size : ℕ
missing_size = 48

abbrev pub abort_size : ℕ
abort_size = 24

-- `validate_hello`
unfoldable pub validate_hello : List ℕ → Bool
validate_hello h =
    (frame_length h == hello_size)
    && (frame_code h == type_code hello)
    && not (third_word h == max64)
    && not (third_word h == 0)

-- `validate_file`
unfoldable pub validate_file : FrameType → List ℕ → Bool
validate_file type h = leb (file_size + 1) (frame_length h) && (frame_code h == type_code type)

-- `validate_file_eof`
unfoldable pub validate_file_eof : FrameType → List ℕ → Bool
validate_file_eof type h = (frame_length h == size_min) && (frame_code h == type_code type)

-- `validate_request`
unfoldable pub validate_request : List ℕ → Bool
validate_request h =
    leb (request_size + id_size) (frame_length h)
    && ((frame_length h - request_size) % id_size == 0)
    && (frame_code h == type_code request)
    && (bit_and (third_word h) (not64 1) == 0)

-- `validate_chunk`
unfoldable pub validate_chunk : List ℕ → Bool
validate_chunk h =
    leb (chunk_size + 1) (frame_length h)
    && (frame_code h == type_code chunk)
    && (bit_and (third_word h) (not64 1) == 0)

-- `validate_missing`
unfoldable pub validate_missing : List ℕ → Bool
validate_missing h = (frame_length h == missing_size) && (frame_code h == type_code missing)

-- `validate_goodbye`
unfoldable pub validate_goodbye : List ℕ → Bool
validate_goodbye h = (frame_length h == size_min) && (frame_code h == type_code goodbye)

-- The loop of `validate_abort`, over the bytes of the reason
unfoldable pub printable : List ℕ → Bool
printable [] = true
printable (c ∷ p) = leb 32 c && printable p

-- `validate_abort`
unfoldable pub validate_abort : List ℕ → Bool
unfolding printable
validate_abort h =
    leb (abort_size + 1) (frame_length h)
    && (frame_code h == type_code abort)
    && ltb (third_word h) 2147483647
    && printable (take (frame_length h - abort_size - 1) (drop abort_size h))
    && (get_or h (frame_length h - 1) 0 == 0)

-- The bytes of a frame behind the first so many
abbrev pub payload : ℕ → List ℕ → List ℕ
payload offset h = take (frame_length h - offset) (drop offset h)
