-- ===== src/Remote/Tests.antt =====
-- src/caremote.c on concrete connections. The other side is the list of bytes that it has sent, which are read one at a
-- time.
use casync.Prelude.{
  ℕ, ◌≤◌, ◌<◌, ◌≡◌, ◌↔◌, refl, Bool, true, false, none, some, List, [], ◌∷◌, ◌++◌, take, drop,
  length, replicate, arith, ok, err, enoent, if◌then◌else◌, Bool-cases, inl, inr, einval,
}
use casync.Format.{words, le_bytes}
use casync.ChunkId.{
  format, parse_bytes, decode_byte, encode_char, decode_char, u64, little_endian, make, same_bytes,
}
use casync.Files.{Files}
use casync.Remote.{Remote, Cache, State, running, Step, step, poll, new_remote, get_read_size}
use casync.Remote as R
use casync.Remote.Frames.{frame_length}
use casync.Remote.Receive.{process_message}
use casync.Remote.Send.{put_chunk, send_hello, send_request}
use casync.Remote.Framing.{arrived, behind, process_message-arrived}
use casync.Remote.Progress.{IsStream, Arrives, receive-Arrives}
use casync.Remote.Requests.{Codec, request_chunk, next_chunk}
use casync.Remote.Genuine.{Genuine, request_chunk-Genuine, next_chunk-Genuine}
use casync.Remote.Exchange.{put_chunk-process_message}
use casync.Remote.Queue.{low_name, place_text, dequeue_request}
use casync.Remote.Asking.{Asks}
use casync.Remote.Asking.Rounds.{send_request-Asks}
use casync.Remote.Fifo.{IsQueue, Takes, queued, dequeue_request-Takes}
use casync.Remote.Handshake.{handshake_agrees}

abbrev peer_files : Files (List ℕ)
peer_files = record {
  open_file = λ access name mode. err einval;
  write = λ f q. (f, ok (length q));
  read = λ f n. (drop 1 f, ok (take 1 f));
  lseek = λ f p. (f, err einval);
  pread = λ f n p. (f, err einval);
  pwrite = λ f q p. (f, err einval);
  fstat = λ f. ok (false, 0);
  rename = λ from to. ok tt;
  temporary_name = λ name. err einval;
}

-- A directory with one link of a kind: the files that were saved, last first
abbrev Saved : Type 0
Saved = List (List ℕ × Bool × List ℕ)

abbrev test_cache : Cache Saved
test_cache = record {
  new_name = ok "/var/tmp/1.carem";
  open_cache = λ path. ok [];
  readlink = λ c name. err enoent;
  symlink = λ c target name. (c, ok tt);
  unlink = λ c name. (c, ok tt);
  mkdir = λ c name. c;
  save = λ c id compressed bytes. ((id, compressed, bytes) ∷ c, ok tt);
  mark_missing = λ c id. (c, ok tt);
  load = λ c id desired. ok (1 ∷ 2 ∷ 3 ∷ [], false);
  remove = λ c id. (c, ok tt);
  print = λ n. n ∷ 0 ∷ [];
  atou64 = λ s. err einval;
}

abbrev memory : List ℕ → ℕ → Bool
memory q n = true

abbrev up : Remote (List ℕ) Saved
up = record new_remote {
  state = running;
  local_feature_flags = 0x40;
  remote_feature_flags = 0x1;
  cache_fd = some [];
  last_chunk = replicate 32 7;
  last_chunk_valid = true;
}

abbrev hello_bytes : List ℕ
hello_bytes = words (24 ∷ 0x3c71d0948ca5fbee ∷ 0x1 ∷ [])

-- A side that wants chunks, with a hello of one that has some
abbrev greeted : Remote (List ℕ) Saved
greeted = record new_remote { local_feature_flags = 0x40; input_buffer = hello_bytes }

greeted_steps : (process_message peer_files test_cache memory greeted).1 ≡ ok step
unfolding process_message new_remote words le_bytes u64 little_endian
greeted_steps = refl

process_message-arrived_example :
    process_message peer_files test_cache memory (arrived (9 ∷ []) greeted)
    ≡ behind (9 ∷ []) (process_message peer_files test_cache memory greeted)
process_message-arrived_example =
    process_message-arrived peer_files test_cache memory greeted (9 ∷ [])
      (λ e. cc (greeted_steps, e))

peer_read :
    (f : List ℕ) (n : ℕ)
    → 0 < n
    → (m : ℕ) × ((peer_files.read f n).1 ≡ ok (take m f))
      × (m ≤ n)
      × (m ≤ length f)
      × (m ≡ 0 → f ≡ [])
      × ((peer_files.read f n).0 ≡ drop m f)
peer_read [] n h = (0, refl, omega arith, omega arith, λ e. refl, refl)
peer_read (x ∷ f) n h = (1, refl, omega arith, omega arith, λ e. absurd (omega arith), refl)

abbrev peer_IsStream : IsStream peer_files
peer_IsStream = record { left = λ f. f; read_some = peer_read }

abbrev waits : Remote (List ℕ) Saved
waits = record new_remote { local_feature_flags = 0x40; input_fd = some hello_bytes }

receive-Arrives_example :
    Arrives peer_files test_cache memory peer_IsStream
      (λ q n. refl)
      (frame_length hello_bytes)
      hello_bytes
      waits
unfolding new_remote words le_bytes u64 little_endian
receive-Arrives_example =
    receive-Arrives peer_files test_cache memory peer_IsStream (λ q n. refl) waits hello_bytes refl
      refl (omega arith) (omega arith) (omega arith)

abbrev codec : Codec
codec = record { decompress = λ p. err einval; sha256 = λ p. some (replicate 32 7) }

request_chunk-Genuine_example : Genuine codec (replicate 32 7) false (1 ∷ 2 ∷ 3 ∷ [])
unfolding request_chunk new_remote make same_bytes
request_chunk-Genuine_example =
    request_chunk-Genuine test_cache codec up (replicate 32 7) true none refl

next_chunk-Genuine_example : Genuine codec (replicate 32 7) false (1 ∷ 2 ∷ 3 ∷ [])
unfolding next_chunk new_remote make same_bytes
next_chunk-Genuine_example = next_chunk-Genuine test_cache codec up none refl

-- A side that serves chunks
abbrev server : Remote (List ℕ) Saved
server = record new_remote {
  state = running;
  local_feature_flags = 0x1;
  remote_feature_flags = 0x40;
}

abbrev chunk_bytes : List ℕ
chunk_bytes = words (59 ∷ 0x5213dd180a84bc8c ∷ 1 ∷ []) ++ (replicate 32 5 ++ (1 ∷ 2 ∷ 3 ∷ []))

put_chunk-process_message_example :
    process_message peer_files test_cache memory
      (record up { input_buffer = chunk_bytes ++ (8 ∷ []) })
    ≡ (
      record up {
        input_buffer = 8 ∷ [];
        last_chunk = replicate 32 5;
        last_chunk_valid = true;
        cache_fd = some ((replicate 32 5, true, 1 ∷ 2 ∷ 3 ∷ []) ∷ []);
        frame_size = 0;
      },
      ok R.chunk,
    )
unfolding put_chunk new_remote words le_bytes
put_chunk-process_message_example =
    put_chunk-process_message peer_files test_cache memory server
      (record up { input_buffer = chunk_bytes ++ (8 ∷ []) }) (replicate 32 5) true (1 ∷ 2 ∷ 3 ∷ [])
      (8 ∷ []) refl refl refl refl refl refl refl

abbrev offered : Remote (List ℕ) Saved
offered = record new_remote {
  local_feature_flags = 0x1;
  input_buffer = words (24 ∷ 0x3c71d0948ca5fbee ∷ 0x40 ∷ []);
}

handshake_agrees_example :
    ((process_message peer_files test_cache memory greeted).1 ≡ ok step)
    ↔ ((process_message peer_files test_cache memory offered).1 ≡ ok step)
unfolding send_hello new_remote words le_bytes
handshake_agrees_example =
    handshake_agrees peer_files test_cache memory greeted offered [] [] refl refl
      (refl, refl, λ e. absurd (omega arith), omega arith)
      (refl, refl, λ e. absurd (omega arith), omega arith) refl refl refl refl

-- A queue with one request of low priority
abbrev queue_cache : Cache Saved
queue_cache = record test_cache {
  readlink = λ c name.
      if same_bytes name (low_name ++ (0 ∷ 0 ∷ []))
      then ok (format (replicate 32 5))
      else err enoent;
}

queue_IsQueue : IsQueue queue_cache []
unfolding parse_bytes format decode_byte encode_char decode_char
queue_IsQueue high p =
    elim (Bool-cases (same_bytes (place_text queue_cache high p) (low_name ++ (0 ∷ 0 ∷ [])))) [
      | inl e ↦ inl (format (replicate 32 5), replicate 32 5, rw e refl, refl)
      | inr e ↦ inr (enoent, rw e refl, refl)
    ]

abbrev queued_one : Remote (List ℕ) Saved
queued_one = record up { queue_end_low = 1; queue_end_high = 2 }

dequeue_request-Takes_example :
    Takes queue_cache [] none queued_one (dequeue_request queue_cache none queued_one)
unfolding new_remote
dequeue_request-Takes_example =
    dequeue_request-Takes queue_cache [] none queue_IsQueue queued_one refl (omega arith)
      (omega arith)

-- The two links that are missing are passed, and the id is given with its priority.
dequeued_one : (dequeue_request queue_cache none queued_one).1 ≡ ok (replicate 32 5, false)
unfolding dequeue_request new_remote same_bytes parse_bytes format decode_byte encode_char
    decode_char
dequeued_one = refl

send_request-Asks_example :
    Asks queue_cache []
      (queued queue_cache [] none queued_one)
      queued_one
      (send_request queue_cache memory queued_one)
unfolding new_remote
send_request-Asks_example =
    send_request-Asks queue_cache [] memory (λ q n. refl) queue_IsQueue queued_one refl refl
      (omega arith) refl (omega arith) (omega arith)
