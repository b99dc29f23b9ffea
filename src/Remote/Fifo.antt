-- ===== src/Remote/Fifo.antt =====
-- The queue of requests of src/caremote.c as two sequences of ids: the links between the start and the end of each queue
-- that are there.
use casync.Prelude.{
  ℕ, zero, suc, ◌+◌, ◌-◌, ◌≤◌, ◌<◌, ◌≡◌, refl, sym, ap, ap₂, ◌∙◌, subst, Bool, true, false, ◌⊎◌,
  inl, inr, Option, none, some, List, [], ◌∷◌, ◌++◌, map, arith, Result, ok, err, Errno, enodata,
  is_enoent, append-nil, if◌then◌else◌, wrap64,
}
use casync.ChunkId.{parse}
use casync.Remote.{Remote, Cache}
use casync.Remote.Queue.{
  place_text, takes, next_place, pass_one, taken, followed, dequeue_link, dequeue_rounds,
  dequeue_from, dequeue_request,
}

-- What a link of a queue holds: an id, or it is not there.
abbrev pub IsPlace : Result (List ℕ) → Type 0
IsPlace link =
    ((text : List ℕ) × (id : List ℕ) × (link ≡ ok text) × (parse text ≡ some id))
    ⊎ ((e : Errno) × (link ≡ err e) × (is_enoent e ≡ true))

abbrev head_id : Option (List ℕ) → List (List ℕ) → List (List ℕ)
head_id none ids = ids
head_id (some id) ids = id ∷ ids

abbrev with_id : Result (List ℕ) → List (List ℕ) → List (List ℕ)
with_id (ok text) ids = head_id (parse text) ids
with_id (err e) ids = ids

module _ {C : Type 0} (cache : Cache C) (c : C) where
  -- The ids of a queue, from a position on
  unfoldable pub pending : Bool → ℕ → ℕ → List (List ℕ)
  pending high s zero = []
  pending high s (suc n) =
      with_id (cache.readlink c (place_text cache high s)) (pending high (s + 1) n)

  -- Every place of the queues is a link to an id, or is not there.
  abbrev pub IsQueue : Type 0
  IsQueue = (high : Bool) (p : ℕ) → IsPlace (cache.readlink c (place_text cache high p))

abbrev pub tagged : Bool → List (List ℕ) → List (List ℕ × Bool)
tagged high ids = map (λ id. (id, high)) ids

module _ {F C : Type 0} (cache : Cache C) (c : C) (only : Option Bool) where
  -- How many positions of a queue are left, where it may be taken from
  abbrev left : Bool → Remote F C → ℕ
  left true rr = if takes true only then rr.queue_end_high - rr.queue_start_high else 0
  left false rr = if takes false only then rr.queue_end_low - rr.queue_start_low else 0

  -- The requests that may be taken, those of high priority first
  unfoldable pub queued : Remote F C → List (List ℕ × Bool)
  unfolding pending
  queued rr =
      tagged true (pending cache c true rr.queue_start_high (left true rr))
      ++ tagged false (pending cache c false rr.queue_start_low (left false rr))

  abbrev pub moved : ℕ → ℕ → Remote F C → Remote F C
  moved high low rr = record rr { queue_start_high = high; queue_start_low = low }

  abbrev pub Outcome : List (List ℕ × Bool) → Remote F C × Result (List ℕ × Bool) → Type 0
  Outcome [] x = (x.1 ≡ err enodata) × (queued x.0 ≡ [])
  Outcome (y ∷ rest) x = (x.1 ≡ ok y) × (queued x.0 ≡ rest)

  -- The first request is taken off, or there is none; nothing but the starts of the queues has changed.
  abbrev pub Takes : Remote F C → Remote F C × Result (List ℕ × Bool) → Type 0
  Takes rr x = (high : ℕ) × (low : ℕ) × (x.0 ≡ moved high low rr) × Outcome (queued rr) x

  next-high :
      (rr : Remote F C) (n : ℕ)
      → left true rr ≡ suc n
      → next_place only rr ≡ some (true, rr.queue_start_high)
  unfolding next_place
  next-high rr n e = ground arith

  next-low :
      (rr : Remote F C) (n : ℕ)
      → left true rr ≡ 0
      → left false rr ≡ suc n
      → next_place only rr ≡ some (false, rr.queue_start_low)
  unfolding next_place
  next-low rr n z e = ground arith

  next-none : (rr : Remote F C) → left true rr ≡ 0 → left false rr ≡ 0 → next_place only rr ≡ none
  unfolding next_place
  next-none rr z e = ground arith

  queued-high :
      (rr : Remote F C) (n : ℕ)
      → left true rr ≡ suc n
      → rr.queue_end_high < 18446744073709551616
      → (queued rr
          ≡ tagged true (
              with_id
                (cache.readlink c (place_text cache true rr.queue_start_high))
                (pending cache c true (rr.queue_start_high + 1) n))
            ++ tagged false (pending cache c false rr.queue_start_low (left false rr)))
        × (queued (pass_one true rr)
            ≡ tagged true (pending cache c true (rr.queue_start_high + 1) n)
              ++ tagged false (pending cache c false rr.queue_start_low (left false rr)))
        × (left true (pass_one true rr) ≡ n)
  unfolding queued pending
  queued-high rr n e small = (
    ap
        (λ k.
          tagged true (pending cache c true rr.queue_start_high k)
          ++ tagged false (pending cache c false rr.queue_start_low (left false rr)))
        e,
    ap₂
        (λ s k.
          tagged true (pending cache c true s k)
          ++ tagged false (pending cache c false rr.queue_start_low (left false rr)))
        (next_start) (rest_left),
    rest_left,
  )
    where
      next_start : wrap64 (rr.queue_start_high + 1) ≡ rr.queue_start_high + 1
      next_start = ground arith

      rest_left : left true (pass_one true rr) ≡ n
      rest_left = ground arith

  queued-low :
      (rr : Remote F C) (n : ℕ)
      → left true rr ≡ 0
      → left false rr ≡ suc n
      → rr.queue_end_low < 18446744073709551616
      → (queued rr
          ≡ tagged false (
              with_id
                (cache.readlink c (place_text cache false rr.queue_start_low))
                (pending cache c false (rr.queue_start_low + 1) n)))
        × (queued (pass_one false rr)
            ≡ tagged false (pending cache c false (rr.queue_start_low + 1) n))
        × (left false (pass_one false rr) ≡ n)
  unfolding queued pending
  queued-low rr n z e small = (
    ap₂
        (λ j k.
          tagged true (pending cache c true rr.queue_start_high j)
          ++ tagged false (pending cache c false rr.queue_start_low k))
        z e,
    ap₂ (λ j k. tagged true (pending cache c true rr.queue_start_high j) ++ k) z
        (ap₂ (λ s k. tagged false (pending cache c false s k)) next_start rest_left),
    rest_left,
  )
    where
      next_start : wrap64 (rr.queue_start_low + 1) ≡ rr.queue_start_low + 1
      next_start = ground arith

      rest_left : left false (pass_one false rr) ≡ n
      rest_left = ground arith

  queued-none : (rr : Remote F C) → left true rr ≡ 0 → left false rr ≡ 0 → queued rr ≡ []
  unfolding queued pending
  queued-none rr z e =
      ap₂
        (λ j k.
          tagged true (pending cache c true rr.queue_start_high j)
          ++ tagged false (pending cache c false rr.queue_start_low k))
        z e

  -- Passing a place changes only a start.
  pass_one-moves :
      (high : Bool) (rr : Remote F C) → (h : ℕ) × (l : ℕ) × (pass_one high rr ≡ moved h l rr)
  pass_one-moves true rr = (wrap64 (rr.queue_start_high + 1), rr.queue_start_low, refl)
  pass_one-moves false rr = (rr.queue_start_high, wrap64 (rr.queue_start_low + 1), refl)

  moved-pass_one :
      (high : Bool) (rr : Remote F C) (h l : ℕ) → moved h l (pass_one high rr) ≡ moved h l rr
  moved-pass_one true rr h l = refl
  moved-pass_one false rr h l = refl

  -- A link that is there
  link_there :
      (high : Bool) (p : ℕ) (rr : Remote F C) {text id : List ℕ}
      (more : Remote F C → Remote F C × Result (List ℕ × Bool))
      → cache.readlink c (place_text cache high p) ≡ ok text
      → parse text ≡ some id
      → dequeue_link cache more c (high, p) rr ≡ (pass_one high rr, ok (id, high))
  link_there high p rr more link parsed =
      ap (λ r. followed high more r rr) link ∙ ap (λ o. taken high o rr) parsed

  -- A link that is not
  link_gone :
      (high : Bool) (p : ℕ) (rr : Remote F C) {e : Errno}
      (more : Remote F C → Remote F C × Result (List ℕ × Bool))
      → cache.readlink c (place_text cache high p) ≡ err e
      → is_enoent e ≡ true
      → dequeue_link cache more c (high, p) rr ≡ more (pass_one high rr)
  link_gone high p rr {e} more link gone =
      ap (λ r. followed high more r rr) link
      ∙ ap (λ t. if t then more (pass_one high rr) else (rr, err e)) gone

  -- One round of the loop at a place of a queue: its id is taken, or the loop goes on.
  round-Takes :
      (high : Bool) (p : ℕ) (rr : Remote F C) (ids : List (List ℕ)) (later : List (List ℕ × Bool))
      (more : Remote F C → Remote F C × Result (List ℕ × Bool))
      → IsPlace (cache.readlink c (place_text cache high p))
      → queued rr ≡ tagged high (with_id (cache.readlink c (place_text cache high p)) ids) ++ later
      → queued (pass_one high rr) ≡ tagged high ids ++ later
      → Takes (pass_one high rr) (more (pass_one high rr))
      → Takes rr (dequeue_link cache more c (high, p) rr)
  round-Takes high p rr ids later more (inl (text, id, link, parsed)) before then_left rest =
      let (h, l, passes) = pass_one-moves high rr in
      let first : queued rr ≡ (id, high) ∷ (tagged high ids ++ later) =
        before
        ∙ ap (λ r. tagged high (with_id r ids) ++ later) link
        ∙ ap (λ o. tagged high (head_id o ids) ++ later) parsed in
      subst (Takes rr) (sym (link_there high p rr more link parsed)) (
        h,
        l,
        passes,
        subst (λ q. Outcome q (pass_one high rr, ok (id, high))) (sym first) (refl, then_left),
      )
  round-Takes high p rr ids later more (inr (e, link, gone)) before then_left rest =
      let (h, l, moves, out) = rest in
      let same : queued (pass_one high rr) ≡ queued rr =
        then_left ∙ sym (before ∙ ap (λ r. tagged high (with_id r ids) ++ later) link) in
      subst (Takes rr) (sym (link_gone high p rr more link gone)) (
        h,
        l,
        moves ∙ moved-pass_one high rr h l,
        subst (λ q. Outcome q (more (pass_one high rr))) same out,
      )

  round_some :
      (rounds : ℕ) (rr : Remote F C) {p : Bool × ℕ}
      → next_place only rr ≡ some p
      → dequeue_rounds cache (suc rounds) c only rr
        ≡ dequeue_link cache (dequeue_rounds cache rounds c only) c p rr
  unfolding dequeue_rounds
  round_some rounds rr e = rw (e, dequeue_rounds) refl

  round_none :
      (rounds : ℕ) (rr : Remote F C)
      → next_place only rr ≡ none
      → dequeue_rounds cache (suc rounds) c only rr ≡ (rr, err enodata)
  unfolding dequeue_rounds
  round_none rounds rr e = rw (e, dequeue_rounds) refl

  rounds-Takes :
      IsQueue cache c
      → (fuel : ℕ) (rr : Remote F C) (nh nl : ℕ) → left true rr ≡ nh
      → left false rr ≡ nl
      → nh + nl ≤ fuel
      → rr.queue_end_high < 18446744073709551616
      → rr.queue_end_low < 18446744073709551616
      → Takes rr (dequeue_rounds cache (suc fuel) c only rr)
  rounds-Takes places fuel rr zero zero h l enough fh fl =
      subst (Takes rr) (sym (round_none fuel rr (next-none rr h l))) (
        rr.queue_start_high,
        rr.queue_start_low,
        refl,
        subst (λ q. Outcome q (rr, err enodata)) (sym (queued-none rr h l))
            (refl, queued-none rr h l),
      )
  rounds-Takes places zero rr (suc nh) nl h l enough fh fl = absurd (omega arith)
  rounds-Takes places zero rr zero (suc nl) h l enough fh fl = absurd (omega arith)
  rounds-Takes places (suc fuel) rr (suc nh) nl h l enough fh fl =
      let (before, then_left, fewer) = queued-high rr nh h fh in
      subst (Takes rr) (sym (round_some (suc fuel) rr (next-high rr nh h))) (
        round-Takes true rr.queue_start_high rr (pending cache c true (rr.queue_start_high + 1) nh)
          (tagged false (pending cache c false rr.queue_start_low (left false rr)))
          (dequeue_rounds cache (suc fuel) c only) (places true rr.queue_start_high) before
          then_left (rounds-Takes places fuel (pass_one true rr) nh nl fewer l (omega arith) fh fl))
  rounds-Takes places (suc fuel) rr zero (suc nl) h l enough fh fl =
      let (before, then_left, fewer) = queued-low rr nl h l fl in
      subst (Takes rr) (sym (round_some (suc fuel) rr (next-low rr nl h l))) (
        round-Takes false rr.queue_start_low rr (pending cache c false (rr.queue_start_low + 1) nl)
          [] (dequeue_rounds cache (suc fuel) c only) (places false rr.queue_start_low)
          (before ∙ sym (append-nil _)) (then_left ∙ sym (append-nil _))
          (rounds-Takes places fuel (pass_one false rr) zero nl h fewer (omega arith) fh fl))

  -- ca_remote_dequeue_request takes the first id off the queues, or finds them empty.
  pub dequeue_request-Takes :
      IsQueue cache c
      → (rr : Remote F C) → rr.cache_fd ≡ some c
      → rr.queue_end_high < 18446744073709551616
      → rr.queue_end_low < 18446744073709551616
      → Takes rr (dequeue_request cache only rr)
  unfolding dequeue_request
  dequeue_request-Takes places rr open_cache fh fl =
      subst (Takes rr) (ap (λ o. dequeue_from cache only o rr) (sym open_cache)) (
        rounds-Takes places
          (rr.queue_end_high - rr.queue_start_high + (rr.queue_end_low - rr.queue_start_low)) rr
          (left true rr) (left false rr) refl refl (ground arith) fh fl)
