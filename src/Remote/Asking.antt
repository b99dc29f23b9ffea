-- ===== src/Remote/Asking.antt =====
-- What `ca_remote_send_request` of src/caremote.c writes
mod Growth
pub mod Rounds
use casync.Prelude.{
  ℕ, zero, suc, ◌+◌, ◌*◌, ◌≤◌, ◌<◌, ◌≡◌, refl, sym, ap, ap₂, ◌∙◌, subst, Bool, true, false, ◌⊎◌,
  inl, inr, Option, none, some, List, [], ◌∷◌, ◌++◌, map, take, drop, length, take_first,
  length-append, overwrite, append_assoc, append-nil, arith, Result, ok, err, enodata,
  if◌then◌else◌, leb, ltb, le→ltb, not, ◌&&◌, ◌||◌, wrap64,
}
use casync.ChunkId.{u64, id_size}
use casync.Format.{le_bytes, words}
use casync.Format.Words.{u64-words, drop_past, length-le_bytes}
use casync.Action.{Action, continue}
use casync.Remote.{Remote, Cache, Step, poll, step, has, is_running, buffer_low}
use casync.Remote as R
use casync.Remote.Frames.{FrameType, request, type_code, request_size}
use casync.Remote.Queue.{dequeue_request}
use casync.Remote.Send.{flagged_frame, send_request, request_rounds, ask_or_stop, add_id, asked}
use casync.Remote.Fifo.{
  IsQueue, queued, moved, tagged, Outcome, Takes, dequeue_request-Takes, pending,
}

-- The bytes of ids, one behind the other
abbrev pub joined : List (List ℕ) → List ℕ
joined [] = []
joined (id ∷ ids) = id ++ joined ids

abbrev pub flag : Bool → ℕ
flag high = if high then 1 else 0

-- A part of a text replaced by one of the same length
replaced :
    (out p q rest : List ℕ)
    → length p ≡ length q
    → overwrite (out ++ (p ++ rest)) (length out) q ≡ out ++ (q ++ rest)
unfolding overwrite
replaced out p q rest e =
    ap₂ (λ a b. a ++ (q ++ b)) (take_first out (p ++ rest) (length out) refl)
      (ap (drop (length out + length q)) (sym (append_assoc out p rest))
        ∙ drop_past (out ++ p) rest (length out + length q) (omega (arith, length-append out p)))

-- The bytes of a frame of requests behind its size
abbrev behind_size : Bool → List ℕ → List ℕ
behind_size high body = words (type_code request ∷ flag high ∷ []) ++ body

flagged_frame_parts :
    (size : ℕ) (high : Bool) (body : List ℕ)
    → flagged_frame request size (flag high) body ≡ le_bytes 8 size ++ behind_size high body
unfolding flagged_frame words
flagged_frame_parts size high body =
    append_assoc (le_bytes 8 size) (words (type_code request ∷ flag high ∷ [])) body

-- The size that stands in a frame behind other bytes
pub size_at :
    (out : List ℕ) (size : ℕ) (high : Bool) (body : List ℕ)
    → size < 18446744073709551616
    → u64 (drop (length out) (out ++ flagged_frame request size (flag high) body)) 0 ≡ size
unfolding flagged_frame
size_at out size high body small =
    ap (λ l. u64 l 0)
      (drop_past out (flagged_frame request size (flag high) body) (length out) refl)
    ∙ u64-words (size ∷ type_code request ∷ flag high ∷ []) body 0 refl small

-- A frame with an id more
grown :
    (out : List ℕ) (size : ℕ) (high : Bool) (body id : List ℕ)
    → overwrite
        ((out ++ flagged_frame request size (flag high) body) ++ id)
        (length out)
        (le_bytes 8 (size + 32))
      ≡ out ++ flagged_frame request (size + 32) (flag high) (body ++ id)
grown out size high body id =
    ap (λ l. overwrite l (length out) (le_bytes 8 (size + 32)))
      (append_assoc out (flagged_frame request size (flag high) body) id
        ∙ ap (λ f. out ++ (f ++ id)) (flagged_frame_parts size high body)
        ∙ ap (λ l. out ++ l)
            (append_assoc (le_bytes 8 size) (behind_size high body) id
              ∙ ap (λ l. le_bytes 8 size ++ l)
                  (append_assoc (words (type_code request ∷ flag high ∷ [])) body id)))
    ∙ replaced out (le_bytes 8 size) (le_bytes 8 (size + 32)) (behind_size high (body ++ id))
        (length-le_bytes 8 size ∙ sym (length-le_bytes 8 (size + 32)))
    ∙ ap (λ l. out ++ l) (sym (flagged_frame_parts (size + 32) high (body ++ id)))

extended :
    (out : List ℕ) (size : ℕ) (high : Bool) (body id : List ℕ)
    → (out ++ flagged_frame request size (flag high) body) ++ id
      ≡ out ++ flagged_frame request size (flag high) (body ++ id)
unfolding flagged_frame
extended out size high body id =
    append_assoc out (flagged_frame request size (flag high) body) id
    ∙ ap (λ l. out ++ l) (append_assoc (words (size ∷ type_code request ∷ flag high ∷ [])) body id)

-- With another output
abbrev pub put_out : {F C : Type 0} → List ℕ → Remote F C → Remote F C
put_out bytes rr = record rr { output_buffer = bytes }

pub not_or : (a b : Bool) → (a || b) ≡ true → (not a && not b) ≡ false
not_or a b e = ground arith

-- Where only one queue is asked for, all requests have its priority.
module _ {F C : Type 0} (cache : Cache C) (c : C) where
  pub queued_only :
      (high : Bool) (rr : Remote F C)
      → (ids : List (List ℕ)) × (queued cache c (some high) rr ≡ tagged high ids)
  unfolding queued pending
  queued_only true rr = (_, append-nil _)
  queued_only false rr = (_, refl)

  pub queued_put :
      (only : Option Bool) (bytes : List ℕ) (rr : Remote F C)
      → queued cache c only (put_out bytes rr) ≡ queued cache c only rr
  unfolding queued
  queued_put only bytes rr = refl

  -- Nothing is written where there are no requests; else one frame, for the first request and those that follow it
  -- with its priority. What was not asked for is still in the queues.
  abbrev pub Asks : List (List ℕ × Bool) → Remote F C → Remote F C × Result Step → Type 0
  Asks [] rr x =
      (x.0.output_buffer ≡ rr.output_buffer) × (queued cache c none x.0 ≡ []) × (x.1 ≡ ok poll)
  Asks ((id, high) ∷ others) rr x =
      (ids : List (List ℕ)) × (h : ℕ) × (l : ℕ) × (queued cache c none (moved cache c none h l rr)
        ≡ others)
      × (queued cache c (some high) (moved cache c none h l rr)
          ≡ tagged high ids ++ queued cache c (some high) x.0)
      × (x.0.output_buffer
          ≡ rr.output_buffer
            ++ flagged_frame request (request_size + 32 * length (id ∷ ids)) (flag high)
                (joined (id ∷ ids)))
      × (x.1 ≡ ok step)

module _ {F C : Type 0} (cache : Cache C) (c : C) (memory : List ℕ → ℕ → Bool)
    (room : (q : List ℕ) (n : ℕ) → memory q n ≡ true) where
  -- An id is put behind a frame.
  pub add_id_lem :
      (out : List ℕ) (size : ℕ) (high high' : Bool) (body id : List ℕ) (rr : Remote F C)
      → size + 32 < 18446744073709551616
      → rr.output_buffer ≡ out ++ flagged_frame request size (flag high) body
      → add_id memory (some (length out)) high' id rr ≡ (
        put_out (out ++ flagged_frame request (size + 32) (flag high) (body ++ id)) rr,
        ok (length out),
      )
  add_id_lem out size high high' body id rr small e = rw (room rr.output_buffer (length id)) (
      ap (λ b. (put_out b rr, ok (length out)))
        (ap₂ (λ l s. overwrite l (length out) (le_bytes 8 s)) (ap (λ l. l ++ id) e) size_grows
          ∙ grown out size high body id))
    where
      size_grows : wrap64 (u64 (drop (length out) (rr.output_buffer ++ id)) 0 + 32) ≡ size + 32
      size_grows =
          ap (λ l. wrap64 (u64 (drop (length out) l) 0 + 32))
            (ap (λ l. l ++ id) e ∙ extended out size high body id)
          ∙ ap (λ k. wrap64 (k + 32)) (size_at out size high (body ++ id) (omega arith))
          ∙ ground arith

  pub first_id_lem :
      (high : Bool) (id : List ℕ) (rr : Remote F C)
      → add_id memory none high id rr ≡ (
        put_out (rr.output_buffer ++ flagged_frame request 56 (flag high) id) rr,
        ok (length rr.output_buffer),
      )
  first_id_lem high id rr =
      rw (room rr.output_buffer (length (flagged_frame request 56 (flag high) id))) refl

  pub round_lem :
      (n : ℕ) (offset : Option ℕ) (only : Option Bool) (rr : Remote F C)
      → request_rounds cache memory (suc n) offset only rr
        ≡ ask_or_stop cache memory
            (request_rounds cache memory n)
            offset
            (dequeue_request cache only rr)
  unfolding request_rounds
  round_lem n offset only rr = refl
