-- ===== src/Lib.antt =====
-- A model of casync, which cuts file system images and archives into chunks whose borders depend on
-- their contents, and stores each chunk once.
--
-- Parts.
--   Chunker    src/cachunker.c, src/cachunker.h. `CaChunker` is the record Chunker; `set_size`, `start`,
--              `roll`, `shall_break` and `scan` are ca_chunker_set_size, ca_chunker_start,
--              ca_chunker_roll, shall_break and ca_chunker_scan. `start` leaves out the assertions of
--              ca_chunker_start and `scan` a division by a discriminator of 0 as well; `checked_scan` is
--              ca_chunker_scan with both. `scan` is the code before the loop,
--              `fill` the filling of the window, `scan_loop` the loop and `cut` the label `now`.
--              Chunker/Border says where chunks end as a function of the bytes alone; Chunker/Scan
--              compares the code with it.
--   Buffer     src/realloc-buffer.c, src/realloc-buffer.h. `ReallocBuffer` is the record Buffer, and each
--              function realloc_buffer_X is `X`. Buffer/Contents gives the bytes a buffer holds.
--   ChunkId    src/cachunkid.c, src/cachunkid.h. An id is the list of its bytes; `parse`, `format`, `equal`,
--              `is_null` and `make` are ca_chunk_id_parse and so on.
--   Features   src/caformat-util.c and the flags of src/caformat.h. A set of flags is a uint64_t.
--              `normalize`, `are_normalized` and `time_granularity_nsec` are ca_feature_flags_normalize
--              and so on; Features/Flags has the flags by their names.
--   Attributes src/caformat-util.c. `from_chattr`, `to_chattr`, `from_fat_attrs`, `to_fat_attrs` and
--              `from_magic` are ca_feature_flags_from_chattr and so on.
--   Names      src/caformat-util.c. `type_name`, `parse_one` and `format_flags` are
--              ca_format_type_name, ca_with_feature_flags_parse_one and ca_with_feature_flags_format.
--   ImageSize  src/fssize.c. `read_file_system_size` is the function of that name, with the branches for
--              Android boot images, FAT and ext2 as functions.
--   SearchTree src/camakebst.c. `root` picks the element that make_bst_inner writes, `make_bst` is
--              ca_make_bst. SearchTree/Layout has the search trees it is compared with.
--   Sizes      src/parse-util.c, format_bytes.
--   Index      src/caindex.c. `CaIndex` is the record Index over an open file, and each function ca_index_X is
--              `X` (write_chunk, read_chunk, set_position, seek) or `X_index` (open). Index/Open opens one, Index/Write has the
--              functions that configure and write, Index/Read those that read, Index/Seek the bisection:
--              `round` is one round of its loop. Index/Table has the table of chunks as a list,
--              Index/Untrusted what is read of any file.
--   Files      the calls on files that the index makes; loop_write and loop_read of src/util.c. Files/Loops
--              compares these with what write() and read() do.
--   Format     the integers of src/caformat.h as bytes.
--   Location   src/calocation.c. `CaLocation` is the record Location; `new_location`, `patch_size`,
--              `patch_root`, `advance_location`, `merge` and `open_location` are ca_location_new and so on.
--              Location/Cells has the bytes that a location describes.
--   Origin     src/caorigin.c. `CaOrigin` is the record Origin, its `first` and `others` as one list, and
--              each function ca_origin_X is `X`.
--   Remote     src/caremote.c, src/caprotocol.h. `CaRemote` is the record Remote, and most functions ca_remote_X are `X`;
--              ca_remote_read and ca_remote_write are `read_input` and `write_output`, ca_remote_request is
--              `request_chunk`, ca_remote_goodbye and ca_remote_abort are `say_goodbye` and `say_abort`,
--              ca_remote_step is `remote_step`. Remote/Frames checks frames, Remote/Receive processes them,
--              Remote/Send makes them, Remote/Queue keeps requests as links, Remote/Requests hands out chunks,
--              Remote/Parts has the index and the archive, Remote/Steps the writing and the steps.
--              Remote/Fifo compares the queues with sequences of ids, Remote/Asking the frames that ask for them.
--   Locators   src/cautil.c. `is_url`, `is_ssh_path`, `classify_locator`, `strip_file_url`, `locator_has_suffix` and
--              `xattr_name_store` are ca_is_url and so on, `span` is strspn(). Locators/Grammar has what
--              is_ssh_path is compared with, Locators/Escapes the escapes of file:// URLs.
--   Action     functions that change an object and return an errno, with do blocks.
--   Prelude    names from the libraries, lists and machine words over native numbers, error values, and
--              the laws of bits that the parts share. `rol32` and `align_to` are src/util.h's.
--
-- How they interact. The encoder's output, which is not modelled, is collected in a Buffer and scanned by
-- the Chunker. The Index keeps a Chunker's sizes and a set of normalized Features in its header, reads its
-- words as ChunkId does, and fills a Buffer when it is read while it is written. An Origin is made of
-- Locations. A Remote compares the ids of chunks as ChunkId does. The other parts are modelled each by itself, with the state that C passes by pointer as an
-- argument and a result.
--
-- Machine words are natural numbers with their wrap-around written out (`wrap32`, `wrap64`). Loops are
-- recursion on the list of bytes, so no fuel is needed; make_bst_inner recurses on its number of levels.
-- The loop of ca_index_seek has as many rounds as the index has chunks, which is enough because each round
-- leaves fewer chunks between its bounds; loop_write and loop_read have a round for each byte, which is
-- enough because each call writes or reads a byte, or there is none left. The loop of ca_remote_dequeue_request
-- has a round for each place of the queue, that of ca_remote_send_request 2049, one for each
-- id of a frame of 64 KB: the first leaves a size of 56, and each further one adds 32 up to 65536.
--
-- Parameters. The program's floating-point expressions (Floats), because the checker has no floats. The
-- heap of the C library (Heap), with what is documented of it as hypotheses (IsHeap). The
-- SHA256 digest of libgcrypt (the argument of `make`). The attribute bits and the magic numbers of Linux
-- (ChattrBits, FatBits, Magics). The compiler's __builtin_clzl (the argument of `make_bst`). What
-- pread() gives, and the magic numbers of file systems (ImageSize's Magics). The text
-- that strextend() gives (the argument of `format_flags`). The system's files (Files), with what is
-- documented of regular files as hypotheses (IsRegular). Whether a location has one owner, and whether there is
-- memory (Location's Memory) or a buffer can grow (the argument `memory` of Remote's functions). The directory of the
-- cache of a Remote, with its links and chunk files (Cache), the decompressors (Codec), and what is documented of a
-- connection (IsStream).
--
-- Not modelled: checks for null pointers; the release of objects; formatting and parsing locations; starting the
-- other side of a connection; the encoder, the decoder, the synchronizer, and what is input and output.

pub mod Action
pub mod Attributes
pub mod Buffer
pub mod ChunkId
pub mod Chunker
pub mod Features
pub mod Files
pub mod Format
pub mod ImageSize
pub mod Index
pub mod Location
pub mod Locators
pub mod Names
pub mod Origin
pub mod Prelude
pub mod Remote
pub mod SearchTree
pub mod Sizes
