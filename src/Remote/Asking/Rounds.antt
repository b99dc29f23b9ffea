-- ===== src/Remote/Asking/Rounds.antt =====
-- The rounds of `ca_remote_send_request` of src/caremote.c
use casync.Prelude.{
  ℕ, zero, suc, ◌+◌, ◌*◌, ◌≤◌, ◌<◌, ◌≡◌, refl, sym, ap, ap₂, ◌∙◌, subst, Bool, true, false, none,
  some, List, [], ◌∷◌, ◌++◌, drop, length, arith, Result, ok, if◌then◌else◌, leb, ltb, le→ltb, not,
  ◌&&◌, ◌||◌,
}
use casync.ChunkId.{u64}
use casync.Action.{continue}
use casync.Remote.{Remote, Cache, Step, poll, step, has, is_running, buffer_low}
use casync.Remote.Frames.{request}
use casync.Remote.Queue.{dequeue_request}
use casync.Remote.Send.{flagged_frame, send_request, request_rounds, ask_or_stop}
use casync.Remote.Fifo.{IsQueue, queued, moved, Outcome, dequeue_request-Takes}
use casync.Remote.Asking.{
  joined, flag, size_at, put_out, not_or, queued_only, queued_put, Asks, first_id_lem, round_lem,
}
use casync.Remote.Asking.Growth.{Adds, one_round}

module _ {F C : Type 0} (cache : Cache C) (c : C) (memory : List ℕ → ℕ → Bool)
    (room : (q : List ℕ) (n : ℕ) → memory q n ≡ true) where
  module _ (places : IsQueue cache c) where
    rounds-Adds :
        (n : ℕ) (out : List ℕ) (size : ℕ) (high : Bool) (body : List ℕ) (rr : Remote F C)
        → size < 65536
        → 65536 ≤ size + 32 * n
        → rr.output_buffer ≡ out ++ flagged_frame request size (flag high) body
        → rr.cache_fd ≡ some c
        → rr.queue_end_high < 18446744073709551616
        → rr.queue_end_low < 18446744073709551616
        → Adds cache c memory room out size high body rr
            (request_rounds cache memory n (some (length out)) (some high) rr)
    rounds-Adds zero out size high body rr below enough e open_cache fh fl = absurd (omega arith)
    rounds-Adds (suc n) out size high body rr below enough e open_cache fh fl =
        let (ids, q) = queued_only cache c high rr in
        let (h, l, m, o) = dequeue_request-Takes cache c (some high) places rr open_cache fh fl in
        subst (Adds cache c memory room out size high body rr)
          (sym (round_lem cache c memory room n (some (length out)) (some high) rr))
          (one_round cache c memory room out size high body rr below e h l
            (request_rounds cache memory n) ids (dequeue_request cache (some high) rr) m q
            (subst (λ y. Outcome cache c (some high) y (dequeue_request cache (some high) rr)) q o)
            (λ id small.
              rounds-Adds n out (size + 32) high (body ++ id) _ (ground arith) (omega arith) refl
                open_cache fh fl))

    first_round :
        (requests : List (List ℕ × Bool)) (rr : Remote F C)
        (x : Remote F C × Result (List ℕ × Bool)) (h l : ℕ)
        → x.0 ≡ moved cache c none h l rr
        → Outcome cache c none requests x
        → rr.cache_fd ≡ some c
        → rr.queue_end_high < 18446744073709551616
        → rr.queue_end_low < 18446744073709551616
        → Asks cache c requests rr
            (ask_or_stop cache memory (request_rounds cache memory 2048) none x)
    first_round [] rr x h l e (r, q) open_cache fh fl =
        subst
          (λ y.
            Asks cache c [] rr (ask_or_stop cache memory (request_rounds cache memory 2048) none y))
          (sym (ap₂ (λ a b. (a, b)) e r)) (refl, ap (queued cache c none) (sym e) ∙ q, refl)
    first_round ((id, high) ∷ others) rr x h l e (r, q) open_cache fh fl =
        subst
          (λ y.
            Asks cache c ((id, high) ∷ others) rr
              (ask_or_stop cache memory (request_rounds cache memory 2048) none y))
          (sym (ap₂ (λ a b. (a, b)) e r))
          (subst (Asks cache c ((id, high) ∷ others) rr) (sym asks_more) (
            let (ids, h', l', m, q', s) = adds in
            (
              ids,
              h,
              l,
              ap (queued cache c none) (sym e) ∙ q,
              sym (queued_put cache c (some high) opened first) ∙ q',
              ap (λ z. z.output_buffer) m
                  ∙ ap
                      (λ k.
                        rr.output_buffer ++ flagged_frame request k (flag high) (id ++ joined ids))
                      (omega arith),
              s,
            )))
      where
        first : Remote F C
        first = moved cache c none h l rr

        opened : List ℕ
        opened = rr.output_buffer ++ flagged_frame request 56 (flag high) id

        asks_more :
            ask_or_stop cache memory (request_rounds cache memory 2048) none (first, ok (id, high))
            ≡ request_rounds cache memory 2048
                (some (length rr.output_buffer))
                (some high)
                (put_out opened first)
        asks_more =
            ap
              (λ z. continue z (λ at rr'.
                if leb 65536 (u64 (drop at rr'.output_buffer) 0)
                then (rr', ok step)
                else request_rounds cache memory 2048 (some at) (some high) rr'))
              (first_id_lem cache c memory room high id first)
            ∙ ap
                (λ k.
                  if leb 65536 k
                  then (put_out opened first, ok step)
                  else request_rounds cache memory 2048 (some (length rr.output_buffer)) (some high)
                      (put_out opened first))
                (size_at rr.output_buffer 56 high id (omega arith))

        adds : Adds cache c memory room rr.output_buffer 56 high id (put_out opened first) (
            request_rounds cache memory 2048
              (some (length rr.output_buffer))
              (some high)
              (put_out opened first))
        adds =
            rounds-Adds 2048 rr.output_buffer 56 high id (put_out opened first) (omega arith)
              (omega arith) refl open_cache fh fl

    abbrev permitted : Bool → Bool → Bool → Remote F C → Remote F C × Result Step
    permitted refused waits full rr =
        if refused
        then (rr, ok poll)
        else if waits
        then (rr, ok poll)
        else if full
        then (rr, ok poll)
        else request_rounds cache memory 2049 none none rr

    send_request_lem :
        (rr : Remote F C)
        → send_request cache memory rr
          ≡ permitted
              (not (has rr.remote_feature_flags 0x800) && not (has rr.local_feature_flags 0x40))
              (not (is_running rr.state))
              (ltb buffer_low (length rr.output_buffer))
              rr
    unfolding send_request
    send_request_lem rr = refl

    asks_lem :
        (rr : Remote F C)
        → (has rr.remote_feature_flags 0x800 || has rr.local_feature_flags 0x40) ≡ true
        → is_running rr.state ≡ true
        → ltb buffer_low (length rr.output_buffer) ≡ false
        → send_request cache memory rr ≡ request_rounds cache memory 2049 none none rr
    asks_lem rr may runs short =
        send_request_lem rr
        ∙ ap
            (λ y.
              permitted y (not (is_running rr.state)) (ltb buffer_low (length rr.output_buffer)) rr)
            (not_or _ _ may)
        ∙ ap (λ y. permitted false (not y) (ltb buffer_low (length rr.output_buffer)) rr) runs
        ∙ ap (λ y. permitted false false y rr) short

    -- Where chunks may be asked for and little waits to be sent, ca_remote_send_request writes one frame for the first
    -- request and those that follow it with the same priority, or nothing where there are no requests.
    pub send_request-Asks :
        (rr : Remote F C)
        → (has rr.remote_feature_flags 0x800 || has rr.local_feature_flags 0x40) ≡ true
        → is_running rr.state ≡ true
        → length rr.output_buffer ≤ buffer_low
        → rr.cache_fd ≡ some c
        → rr.queue_end_high < 18446744073709551616
        → rr.queue_end_low < 18446744073709551616
        → Asks cache c (queued cache c none rr) rr (send_request cache memory rr)
    send_request-Asks rr may runs short open_cache fh fl =
        let (h, l, m, o) = dequeue_request-Takes cache c none places rr open_cache fh fl in
        subst (Asks cache c (queued cache c none rr) rr)
          (sym (
            asks_lem rr may runs (le→ltb buffer_low (length rr.output_buffer) short)
            ∙ round_lem cache c memory room 2048 none none rr))
          (first_round (queued cache c none rr) rr (dequeue_request cache none rr) h l m o
            open_cache fh fl)
