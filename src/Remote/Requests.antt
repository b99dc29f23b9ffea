-- ===== src/Remote/Requests.antt =====
-- src/caremote.c: what the program asks of a connection: chunks, requests of the other side, received data.
use casync.Prelude.{
  ℕ, Bool, true, false, not, Option, none, some, List, [], ◌++◌, if◌then◌else◌, ltb, ◌||◌, length,
  Result, ok, err, Errno, einval, eagain, ealready, ebadmsg, enoent, enodata, enotty, epipe,
  assertion, is_eaddrnotavail, is_enoent,
}
use casync.Action.{Action, pure, fail, lift, gets, modify, ensure, ◌>>=◌, ◌>>◌}
use casync.ChunkId.{equal, format, make}
use casync.Chunker.{size_limit_min, size_limit_max}
use casync.Remote.{Remote, Cache, has, is_open, is_eof}
use casync.Remote.Queue.{
  enqueue_request, dequeue_request, init_cache, on_cache, look_up, starts_with, low_name,
  chunks_name,
}

-- `ca_decompress`, and the SHA256 digest of libgcrypt
pub record Codec : Type 0 where
  pub decompress : List ℕ → Result (List ℕ)
  pub sha256 : List ℕ → Option (List ℕ)

-- The contents of a chunk that is stored compressed or not
unfoldable pub contents_of : Codec → Bool → List ℕ → Result (List ℕ)
contents_of codec true p = codec.decompress p
contents_of codec false p = ok p

abbrev pub digest_of : Codec → Result (List ℕ) → Result (List ℕ)
digest_of codec (ok q) = make codec.sha256 q
digest_of codec (err e) = err e

abbrev pub same_id : List ℕ → Result (List ℕ) → Result (Unit {0})
same_id id (ok actual) = if equal id actual then ok tt else err ebadmsg
same_id id (err e) = err e

-- `ca_remote_validate_chunk`
unfoldable pub validate_contents : Codec → List ℕ → Bool → List ℕ → Result (Unit {0})
unfolding contents_of
validate_contents codec id compressed p =
    if ltb (length p) size_limit_min
    then err einval
    else if ltb size_limit_max (length p)
    then err einval
    else same_id id (digest_of codec (contents_of codec compressed p))

module _ {C : Type 0} (cache : Cache C) where
  -- `ca_chunk_file_load` on the cache that `init_cache` has opened
  abbrev pub load_from : Option C → List ℕ → Option Bool → Result (List ℕ × Bool)
  load_from none id desired = err enodata
  load_from (some c) id desired = cache.load c id desired

abbrev unless_missing : Result (Unit {0}) → Result (Unit {0})
unless_missing (ok _) = ok tt
unless_missing (err e) = if is_enoent e then ok tt else err e

module _ {F C : Type 0} (cache : Cache C) (codec : Codec) where
  abbrev pub checked : List ℕ → List ℕ × Bool → Action (Remote F C) (List ℕ × Bool)
  checked id (p, compressed) = do
    modify (λ rr. record rr { chunk_buffer = p })
    lift (validate_contents codec id compressed p)
    pure (p, compressed)

  abbrev pub ask_for : List ℕ → Bool → Action (Remote F C) (List ℕ × Bool)
  ask_for id high = do
    added ← enqueue_request cache id high true
    fail (if added then eagain else ealready)

  abbrev pub missed : List ℕ → Bool → Errno → Action (Remote F C) (List ℕ × Bool)
  missed id high e =
      if is_enoent e then ask_for id high else fail (if is_eaddrnotavail e then enoent else e)

  abbrev pub loaded : List ℕ → Bool → Result (List ℕ × Bool) → Action (Remote F C) (List ℕ × Bool)
  loaded id high (ok found) = checked id found
  loaded id high (err e) = missed id high e

  abbrev pub fetch : List ℕ → Bool → Option Bool → Action (Remote F C) (List ℕ × Bool)
  fetch id high desired = do
    modify (λ rr. record rr { chunk_buffer = [] })
    found ← gets (λ rr. load_from cache rr.cache_fd id desired)
    loaded id high found

  -- `ca_remote_request`: the data, and whether they are compressed. The desired compression is none for
  -- CA_CHUNK_AS_IS.
  unfoldable pub request_chunk : List ℕ → Bool → Option Bool → Action (Remote F C) (List ℕ × Bool)
  unfolding init_cache enqueue_request validate_contents
  request_chunk id high desired = do
    ensure (λ rr. has rr.local_feature_flags 0x40) enotty
    ensure (λ rr. not (is_eof rr.state)) epipe
    init_cache cache
    fetch id high desired

  abbrev pub last_data : Option Bool → Action (Remote F C) (List ℕ × List ℕ × Bool)
  last_data desired = do
    modify (λ rr. record rr { chunk_buffer = [] })
    id ← gets (λ rr. rr.last_chunk)
    found ← (λ rr. (rr, load_from cache rr.cache_fd id desired))
    (p, compressed) ← checked id found
    pure (id, p, compressed)

  -- `ca_remote_next_chunk` with a place for the data: the id, the data, and whether they are compressed
  unfoldable pub next_chunk : Option Bool → Action (Remote F C) (List ℕ × List ℕ × Bool)
  unfolding validate_contents
  next_chunk desired = do
    ensure (λ rr. rr.last_chunk_valid) enodata
    ensure (λ rr. not (is_eof rr.state)) epipe
    ensure (λ rr. is_open rr.cache_fd) enodata
    last_data desired

module _ {F C : Type 0} (cache : Cache C) where
  -- `ca_remote_request_async`
  unfoldable pub request_async : List ℕ → Bool → Action (Remote F C) Bool
  unfolding enqueue_request
  request_async id high = do
    ensure (λ rr. has rr.local_feature_flags 0x40 || has rr.remote_feature_flags 0x800) enotty
    ensure (λ rr. not (is_eof rr.state)) epipe
    enqueue_request cache id high true

  -- `ca_remote_next_request`
  unfoldable pub next_request : Action (Remote F C) (List ℕ)
  unfolding dequeue_request
  next_request = do
    ensure (λ rr. has rr.remote_feature_flags 0x40 || has rr.local_feature_flags 0x800) enotty
    ensure (λ rr. not (is_eof rr.state)) epipe
    taken ← dequeue_request cache none
    pure taken.0

  abbrev unlink_place : List ℕ → List ℕ → Option (List ℕ) → Action (Remote F C) (Unit {0})
  unlink_place name place none = fail assertion
  unlink_place name place (some p) = do
    lift (cache.atou64 p)
    on_cache cache (λ c. cache.unlink c name)
    on_cache cache (λ c. cache.unlink c place)

  abbrev forget_place : List ℕ → Option (List ℕ) → Action (Remote F C) (Unit {0})
  forget_place name none = pure tt
  forget_place name (some place) = unlink_place name place (starts_with place low_name)

  abbrev forget : List ℕ → Action (Remote F C) (Unit {0})
  forget id = do
    let name = chunks_name ++ format id
    place ← look_up cache name
    forget_place name place
    on_cache cache (λ c. ((cache.remove c id).0, unless_missing (cache.remove c id).1))

  -- `ca_remote_forget_chunk`. A chunk of the high-priority queue ends the program: a null pointer is read there. The
  -- free() of a text that was not set, for a chunk in no queue, is not modelled.
  unfoldable pub forget_chunk : List ℕ → Action (Remote F C) (Unit {0})
  unfolding starts_with
  forget_chunk id rr = if is_open rr.cache_fd then forget id rr else (rr, ok tt)
