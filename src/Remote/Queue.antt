-- ===== src/Remote/Queue.antt =====
-- src/caremote.c: the queue of requests, which is kept as symbolic links in the directory of the cache. The link
-- <priority>/<position> names a chunk, and chunks/<id> names its place in the queue.
use Prim.Native.String.{String}
use casync.Prelude.{
  ℕ, zero, suc, ◌+◌, ◌-◌, Bool, true, false, not, Option, none, some, List, [], ◌∷◌, ◌++◌,
  if◌then◌else◌, ltb, ◌==◌, ◌&&◌, ◌||◌, wrap64, Result, ok, err, is_enoent, ebadmsg, enodata,
  fuel_spent,
}
use casync.Action.{Action, pure, fail, lift, gets, modify, ◌>>=◌, ◌>>◌}
use casync.ChunkId.{parse, format}
use casync.Remote.{Remote, Cache, is_open}

-- "chunks/", "high-priority/", "low-priority/"
abbrev pub chunks_name : List ℕ
chunks_name = 99 ∷ 104 ∷ 117 ∷ 110 ∷ 107 ∷ 115 ∷ 47 ∷ []

abbrev pub high_name : List ℕ
high_name = 104 ∷ 105 ∷ 103 ∷ 104 ∷ 45 ∷ 112 ∷ 114 ∷ 105 ∷ 111 ∷ 114 ∷ 105 ∷ 116 ∷ 121 ∷ 47 ∷ []

abbrev pub low_name : List ℕ
low_name = 108 ∷ 111 ∷ 119 ∷ 45 ∷ 112 ∷ 114 ∷ 105 ∷ 111 ∷ 114 ∷ 105 ∷ 116 ∷ 121 ∷ 47 ∷ []

abbrev pub queue_name : Bool → List ℕ
queue_name high = if high then high_name else low_name

-- `startswith`: what follows the prefix
unfoldable pub starts_with : List ℕ → List ℕ → Option (List ℕ)
starts_with s [] = some s
starts_with [] (p ∷ prefix) = none
starts_with (c ∷ s) (p ∷ prefix) = if c == p then starts_with s prefix else none

-- Where an enqueued chunk stands, read from chunks/<id>
pub data Place : Type 0 where
  unknown : Place
  keep : Place
  move : List ℕ → Place

-- Whether one queue may be taken from: `only_high_priority` is -1, 1 or 0.
abbrev pub takes : Bool → Option Bool → Bool
takes high none = true
takes true (some only) = only
takes false (some only) = not only

abbrev found : Result (List ℕ) → Result (Option (List ℕ))
found (ok place) = ok (some place)
found (err e) = if is_enoent e then ok none else err e

abbrev move_unless : Bool → List ℕ → Place
move_unless dispatched place = if dispatched then keep else move place

module _ {C : Type 0} (cache : Cache C) where
  abbrev make_directories : Bool → C → C × Result (Unit {0})
  make_directories high c = (cache.mkdir (cache.mkdir c chunks_name) (queue_name high), ok tt)

  abbrev pub place_text : Bool → ℕ → List ℕ
  place_text high position = queue_name high ++ cache.print position

module _ {F C : Type 0} where
  abbrev position_of : Bool → Remote F C → ℕ
  position_of high rr = if high then rr.queue_end_high else rr.queue_end_low

  abbrev count_one : Bool → Remote F C → Remote F C
  count_one high rr =
      if high
      then record rr { queue_end_high = wrap64 (rr.queue_end_high + 1) }
      else record rr { queue_end_low = wrap64 (rr.queue_end_low + 1) }

module _ {F C : Type 0} (cache : Cache C) where
  -- A call on the directory of the cache; ENODATA never arises, since the directory is open there.
  abbrev pub on_cache : {A : Type 0} → (C → C × Result A) → Action (Remote F C) A
  on_cache call rr = elim rr.cache_fd [
    | none ↦ (rr, err enodata)
    | some c ↦ (record rr { cache_fd = some (call c).0 }, (call c).1)
  ]

  abbrev name_cache : Action (Remote F C) String
  name_cache rr = elim rr.cache_path [
    | some path ↦ (rr, ok path)
    | none ↦ elim cache.new_name [
      | err e ↦ (rr, err e)
      | ok path ↦ (record rr { cache_path = some path; remove_cache = true }, ok path)
    ]
  ]

  abbrev open_new : Action (Remote F C) (Unit {0})
  open_new = do
    path ← name_cache
    c ← lift (cache.open_cache path)
    modify (λ rr. record rr { cache_fd = some c })

  -- `ca_remote_init_cache`
  unfoldable pub init_cache : Action (Remote F C) (Unit {0})
  init_cache rr = if is_open rr.cache_fd then (rr, ok tt) else open_new rr

  abbrev link_place : List ℕ → Action (Remote F C) (List ℕ)
  link_place name = on_cache (λ c. (c, cache.readlink c name))

  abbrev pub place_low : Bool → List ℕ → Option (List ℕ) → Action (Remote F C) Place
  place_low requeue place none = fail ebadmsg
  place_low requeue place (some p) = do
    old ← lift (cache.atou64 p)
    gets (λ rr. move_unless (ltb old rr.queue_start_low && not requeue) place)

  -- What `ca_remote_enqueue_request` does with a chunk that stands in the queue already
  unfoldable pub place_of : Bool → Bool → List ℕ → Action (Remote F C) Place
  unfolding starts_with
  place_of high requeue place =
      if is_open (starts_with place (queue_name high)) || not high
      then pure keep
      else place_low requeue place (starts_with place low_name)

  abbrev pub known_place : Bool → Bool → Option (List ℕ) → Action (Remote F C) Place
  known_place high requeue none = pure unknown
  known_place high requeue (some place) = place_of high requeue place

  -- The place of a chunk, if chunks/<id> is there
  abbrev pub look_up : List ℕ → Action (Remote F C) (Option (List ℕ))
  look_up name rr = let (rr', r) = link_place name rr in (rr', found r)

  unfoldable pub old_place : Bool → Bool → List ℕ → Action (Remote F C) Place
  unfolding place_of
  old_place high requeue name = do place ← look_up name; known_place high requeue place

  -- The end of `ca_remote_enqueue_request`: the two links of a new place
  unfoldable pub add_links : Bool → List ℕ → Action (Remote F C) Bool
  add_links high id = do
    position ← gets (position_of high)
    (if position == 0 then on_cache (make_directories cache high) else pure tt)
    on_cache (λ c. cache.symlink c (place_text cache high position) (chunks_name ++ format id))
    on_cache (λ c. cache.symlink c (format id) (place_text cache high position))
    modify (count_one high)
    pure true

  abbrev pub enqueue_at : Bool → List ℕ → Place → Action (Remote F C) Bool
  enqueue_at high id unknown = add_links high id
  enqueue_at high id keep = pure false
  enqueue_at high id (move place) = do
    on_cache (λ c. cache.unlink c (chunks_name ++ format id))
    on_cache (λ c. cache.unlink c place)
    add_links high id

  -- `ca_remote_enqueue_request`: whether the chunk was put in the queue
  unfoldable pub enqueue_request : List ℕ → Bool → Bool → Action (Remote F C) Bool
  unfolding init_cache old_place add_links
  enqueue_request id high requeue = do
    init_cache
    place ← old_place high requeue (chunks_name ++ format id)
    enqueue_at high id place

module _ {F C : Type 0} where
  -- The queue and the position from which `ca_remote_dequeue_request` takes the next link, if there is one. `only` is
  -- none where the argument is -1.
  unfoldable pub next_place : Option Bool → Remote F C → Option (Bool × ℕ)
  next_place only rr =
      if ltb rr.queue_start_high rr.queue_end_high && takes true only
      then some (true, rr.queue_start_high)
      else if ltb rr.queue_start_low rr.queue_end_low && takes false only
      then some (false, rr.queue_start_low)
      else none

  abbrev pub pass_one : Bool → Remote F C → Remote F C
  pass_one true rr = record rr { queue_start_high = wrap64 (rr.queue_start_high + 1) }
  pass_one false rr = record rr { queue_start_low = wrap64 (rr.queue_start_low + 1) }

  -- What follows the loop
  abbrev pub taken : Bool → Option (List ℕ) → Action (Remote F C) (List ℕ × Bool)
  taken high none rr = (rr, err ebadmsg)
  taken high (some id) rr = (pass_one high rr, ok (id, high))

  abbrev pub take_id : Bool → List ℕ → Action (Remote F C) (List ℕ × Bool)
  take_id high text = taken high (parse text)

  abbrev pub followed :
      Bool
      → (Remote F C → Remote F C × Result (List ℕ × Bool))
      → Result (List ℕ)
      → Action (Remote F C) (List ℕ × Bool)
  followed high more (ok text) rr = take_id high text rr
  followed high more (err e) rr = if is_enoent e then more (pass_one high rr) else (rr, err e)

module _ {F C : Type 0} (cache : Cache C) where
  abbrev pub dequeue_link :
      (Remote F C → Remote F C × Result (List ℕ × Bool))
      → C
      → Bool × ℕ
      → Action (Remote F C) (List ℕ × Bool)
  dequeue_link more c (high, position) rr =
      followed high more (cache.readlink c (place_text cache high position)) rr

  -- The loop of `ca_remote_dequeue_request`, with so many rounds
  unfoldable pub dequeue_rounds : ℕ → C → Option Bool → Action (Remote F C) (List ℕ × Bool)
  unfolding next_place
  dequeue_rounds zero c only rr = (rr, err fuel_spent)
  dequeue_rounds (suc rounds) c only rr =
      let more = dequeue_rounds rounds c only in
      elim (next_place only rr) [ none ↦ (rr, err enodata) | some p ↦ dequeue_link more c p rr ]

  abbrev pub dequeue_from : Option Bool → Option C → Action (Remote F C) (List ℕ × Bool)
  dequeue_from only none rr = (rr, err enodata)
  dequeue_from only (some c) rr =
      dequeue_rounds
        (suc (rr.queue_end_high - rr.queue_start_high + (rr.queue_end_low - rr.queue_start_low))) c
        only rr

  -- `ca_remote_dequeue_request`: the id, and whether it had high priority. Each round of the loop passes a place.
  unfoldable pub dequeue_request : Option Bool → Action (Remote F C) (List ℕ × Bool)
  unfolding dequeue_rounds
  dequeue_request only rr = dequeue_from only rr.cache_fd rr
