-- ===== src/Remote/Keeps.antt =====
-- What src/caremote.c does about a frame leaves the input buffer alone and does not depend on it.
use casync.Prelude.{
  ℕ, zero, suc, ◌≡◌, refl, ap, ◌∙◌, Bool, true, false, Option, none, some, List, ◌++◌, take, drop,
  arith, Result, ok, err, Errno, Bool-cases, Result-cases, ◌||◌, not, inl, inr,
}
use casync.Action.{Action, pure, require, continue, ◌>>=◌, ◌>>◌}
use casync.Files.{Files}
use casync.Remote.{Remote, Cache, Step, poll, State, is_open, has}
use casync.Remote.Queue.{
  Place, unknown, keep, move, starts_with, queue_name, low_name, chunks_name, on_cache, init_cache,
  place_low, place_of, look_up, known_place, old_place, add_links, enqueue_at, enqueue_request,
}
use casync.ChunkId.{format, id_size}
use casync.Remote as R
use casync.Remote.Frames.{
  FrameType, hello, index, index_eof, archive, archive_eof, request, chunk, missing, goodbye, abort,
  third_word, payload, request_size,
}
use casync.Remote.Receive.{
  enqueue_all, store_in_cache, process, process_hello, process_index, process_index_eof,
  process_archive, process_archive_eof, process_request, process_chunk, process_missing,
  process_goodbye, process_abort,
}

module _ {F C : Type 0} (bytes : List ℕ) where
  -- The remote with these bytes in its input buffer
  abbrev pub with_input : Remote F C → Remote F C
  with_input rr = record rr { input_buffer = bytes }

  abbrev pub after : {A : Type 0} → Remote F C × Result A → Remote F C × Result A
  after (rr, r) = (with_input rr, r)

  -- An action that leaves these bytes where they are, and does otherwise what it does with any others
  abbrev pub Keeps : {A : Type 0} → Action (Remote F C) A → Type 0
  Keeps act = (rr : Remote F C) → act (with_input rr) ≡ after (act rr)

  continue-after :
      {A B : Type 0} (x : Remote F C × Result A) (f : A → Action (Remote F C) B)
      → ((a : A) → Keeps (f a))
      → continue (after x) f ≡ after (continue x f)
  continue-after (rr, ok a) f h = h a rr
  continue-after (rr, err e) f h = refl

  bind-Keeps :
      {A B : Type 0} (act : Action (Remote F C) A) (f : A → Action (Remote F C) B)
      → Keeps act
      → ((a : A) → Keeps (f a))
      → Keeps (act >>= f)
  bind-Keeps act f h k rr = ap (λ x. continue x f) (h rr) ∙ continue-after (act rr) f k

  require-Keeps : (b : Bool) (e : Errno) → Keeps (require b e)
  require-Keeps true e rr = refl
  require-Keeps false e rr = refl

  module _ (cache : Cache C) where
    on_cache-Keeps : {A : Type 0} (call : C → C × Result A) → Keeps (on_cache cache call)
    on_cache-Keeps call rr = ground arith

    init_cache-Keeps : Keeps (init_cache cache)
    unfolding init_cache
    init_cache-Keeps rr = ground arith

    place_low-Keeps :
        (requeue : Bool) (place : List ℕ) (p : Option (List ℕ))
        → Keeps (place_low cache requeue place p)
    place_low-Keeps requeue place none rr = refl
    place_low-Keeps requeue place (some p) rr = elim (Result-cases (cache.atou64 p)) [
      | inl (old, e) ↦ rw e refl
      | inr (x, e) ↦ rw e refl
    ]

    place_of-Keeps :
        (high requeue : Bool) (place : List ℕ) → Keeps (place_of cache high requeue place)
    unfolding place_of
    place_of-Keeps high requeue place rr =
        elim (Bool-cases (is_open (starts_with place (queue_name high)) || not high)) [
          | inl e ↦ rw e refl
          | inr e ↦ rw e (place_low-Keeps requeue place (starts_with place low_name) rr)
        ]

    look_up-Keeps : (name : List ℕ) → Keeps (look_up cache name)
    look_up-Keeps name rr = ground arith

    known_place-Keeps :
        (high requeue : Bool) (place : Option (List ℕ))
        → Keeps (known_place cache high requeue place)
    known_place-Keeps high requeue none rr = refl
    known_place-Keeps high requeue (some place) rr = place_of-Keeps high requeue place rr

    old_place-Keeps :
        (high requeue : Bool) (name : List ℕ) → Keeps (old_place cache high requeue name)
    unfolding old_place
    old_place-Keeps high requeue name =
        bind-Keeps (look_up cache name) (known_place cache high requeue) (look_up-Keeps name)
          (known_place-Keeps high requeue)

    add_links-Keeps : (high : Bool) (id : List ℕ) → Keeps (add_links cache high id)
    unfolding add_links
    add_links-Keeps high id rr = ground arith

    enqueue_at-Keeps :
        (high : Bool) (id : List ℕ) (place : Place) → Keeps (enqueue_at cache high id place)
    enqueue_at-Keeps high id unknown rr = add_links-Keeps high id rr
    enqueue_at-Keeps high id keep rr = refl
    enqueue_at-Keeps high id (move place) rr =
        bind-Keeps (on_cache cache (λ c. cache.unlink c (chunks_name ++ format id)))
          (λ _. on_cache cache (λ c. cache.unlink c place) >> add_links cache high id)
          (on_cache-Keeps _)
          (λ _.
            bind-Keeps (on_cache cache (λ c. cache.unlink c place)) (λ _. add_links cache high id)
              (on_cache-Keeps _) (λ _. add_links-Keeps high id))
          rr

    enqueue_request-Keeps :
        (id : List ℕ) (high requeue : Bool) → Keeps (enqueue_request cache id high requeue)
    unfolding enqueue_request
    enqueue_request-Keeps id high requeue =
        bind-Keeps (init_cache cache)
          (λ _.
            old_place cache high requeue (chunks_name ++ format id) >>= enqueue_at cache high id)
          init_cache-Keeps
          (λ _.
            bind-Keeps (old_place cache high requeue (chunks_name ++ format id))
              (enqueue_at cache high id) (old_place-Keeps high requeue (chunks_name ++ format id))
              (enqueue_at-Keeps high id))

    enqueue_all-Keeps : (n : ℕ) (p : List ℕ) (high : Bool) → Keeps (enqueue_all cache n p high)
    unfolding enqueue_all
    enqueue_all-Keeps zero p high rr = refl
    enqueue_all-Keeps (suc n) p high rr =
        bind-Keeps (enqueue_request cache (take id_size p) high false)
          (λ _. enqueue_all cache n (drop id_size p) high)
          (enqueue_request-Keeps (take id_size p) high false)
          (λ _. enqueue_all-Keeps n (drop id_size p) high) rr

    store-Keeps : (call : C → C × Result (Unit {0})) → Keeps (store_in_cache cache call)
    store-Keeps call rr = ground arith

  process_hello-Keeps : (h : List ℕ) → Keeps (process_hello h)
  unfolding process_hello
  process_hello-Keeps h rr = ground arith

  -- What is done about a frame, whatever its type
  pub process-Keeps :
      (files : Files F) (cache : Cache C) (memory : List ℕ → ℕ → Bool) (type : FrameType)
      (h : List ℕ)
      → Keeps (process files cache memory type h)
  unfolding process process_index process_index_eof process_archive process_archive_eof
      process_request process_chunk process_missing process_goodbye process_abort
  process-Keeps files cache memory hello h rr = process_hello-Keeps h rr
  process-Keeps files cache memory index h rr = ground arith
  process-Keeps files cache memory index_eof h rr = ground arith
  process-Keeps files cache memory archive h rr = ground arith
  process-Keeps files cache memory archive_eof h rr = ground arith
  process-Keeps files cache memory request h rr =
      bind-Keeps (enqueue_all cache _ (payload request_size h) (has (third_word h) 1))
        (λ _. pure R.request)
        (enqueue_all-Keeps cache _ (payload request_size h) (has (third_word h) 1)) (λ _ _. refl) rr
  process-Keeps files cache memory chunk h rr = ground arith
  process-Keeps files cache memory missing h rr = store-Keeps cache _ rr
  process-Keeps files cache memory goodbye h rr = ground arith
  process-Keeps files cache memory abort h rr = refl
