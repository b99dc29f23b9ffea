-- ===== src/Remote/Asking/Growth.antt =====
-- One round of the loop of `ca_remote_send_request` of src/caremote.c
use casync.Prelude.{
  ℕ, ◌+◌, ◌*◌, ◌<◌, ◌≡◌, refl, sym, ap, ap₂, ◌∙◌, subst, Bool, true, false, Option, some, List, [],
  ◌∷◌, ◌++◌, drop, length, append_assoc, append-nil, arith, Result, ok, err, enodata, if◌then◌else◌,
  leb,
}
use casync.ChunkId.{u64}
use casync.Action.{Action, continue}
use casync.Remote.{Remote, Cache, Step, step}
use casync.Remote.Frames.{request}
use casync.Remote.Send.{flagged_frame, ask_or_stop}
use casync.Remote.Fifo.{queued, moved, tagged, Outcome}
use casync.Remote.Asking.{joined, flag, size_at, put_out, queued_put, add_id_lem}

module _ {F C : Type 0} (cache : Cache C) (c : C) (memory : List ℕ → ℕ → Bool)
    (room : (q : List ℕ) (n : ℕ) → memory q n ≡ true) where
  -- A frame behind `out` grows by the first requests of its priority.
  abbrev pub Adds : List ℕ → ℕ → Bool → List ℕ → Remote F C → Remote F C × Result Step → Type 0
  Adds out size high body rr x =
      (ids : List (List ℕ)) × (h : ℕ) × (l : ℕ) × (x.0
        ≡ put_out
            (out ++ flagged_frame request (size + 32 * length ids) (flag high) (body ++ joined ids))
            (moved cache c (some high) h l rr))
      × (queued cache c (some high) rr ≡ tagged high ids ++ queued cache c (some high) x.0)
      × (x.1 ≡ ok step)

  module _ (out : List ℕ) (size : ℕ) (high : Bool) (body : List ℕ) (rr : Remote F C)
      (below : size < 65536)
      (open_frame : rr.output_buffer ≡ out ++ flagged_frame request size (flag high) body) (h l : ℕ)
      (more : Option ℕ → Option Bool → Action (Remote F C) Step) where
    abbrev later : Remote F C
    later = moved cache c (some high) h l rr

    abbrev added : List ℕ → Remote F C
    added id = put_out (out ++ flagged_frame request (size + 32) (flag high) (body ++ id)) later

    none_left :
        queued cache c (some high) rr ≡ []
        → queued cache c (some high) later ≡ []
        → Adds out size high body rr
            (ask_or_stop cache memory more (some (length out)) (later, err enodata))
    none_left q q' = (
      [],
      h,
      l,
      ap (λ b. put_out b later)
          (open_frame
            ∙ ap₂ (λ s b. out ++ flagged_frame request s (flag high) b) (omega arith)
                (sym (append-nil body))),
      q ∙ sym q',
      refl,
    )

    abbrev stop_or_more : Bool → List ℕ → Remote F C × Result Step
    stop_or_more large id =
        if large then (added id, ok step) else more (some (length out)) (some high) (added id)

    one_more :
        (id : List ℕ)
        → ask_or_stop cache memory more (some (length out)) (later, ok (id, high))
          ≡ stop_or_more (leb 65536 (size + 32)) id
    one_more id =
        ap
          (λ z. continue z (λ at rr'.
            if leb 65536 (u64 (drop at rr'.output_buffer) 0)
            then (rr', ok step)
            else more (some at) (some high) rr'))
          (add_id_lem cache c memory room out size high high body id later (omega arith) open_frame)
        ∙ ap (λ s. stop_or_more (leb 65536 s) id)
            (size_at out (size + 32) high (body ++ id) (omega arith))

    one_added :
        (id : List ℕ) (ids : List (List ℕ))
        → queued cache c (some high) rr ≡ tagged high (id ∷ ids)
        → queued cache c (some high) later ≡ tagged high ids
        → (large : Bool)
        → (large ≡ false
            → Adds out
                (size + 32)
                high
                (body ++ id)
                (added id)
                (more (some (length out)) (some high) (added id)))
        → Adds out size high body rr (stop_or_more large id)
    one_added id ids q q' true rest = (
      id ∷ [],
      h,
      l,
      ap₂ (λ s b. put_out (out ++ flagged_frame request s (flag high) (body ++ b)) later)
          (omega arith) (sym (append-nil id)),
      q ∙ ap (λ t. (id, high) ∷ t) (sym q' ∙ sym (queued_put cache c (some high) _ later)),
      refl,
    )
    one_added id ids q q' false rest =
        let (ids', h', l', e, q'', s) = rest refl in
        (
          id ∷ ids',
          h',
          l',
          e
              ∙ ap₂
                  (λ k b.
                    put_out (out ++ flagged_frame request k (flag high) b)
                      (moved cache c (some high) h' l' rr))
                  (omega arith) (append_assoc body id (joined ids')),
          q
              ∙ ap (λ t. (id, high) ∷ t)
                  (sym q' ∙ sym (queued_put cache c (some high) _ later) ∙ q''),
          s,
        )

    pub one_round :
        (ids : List (List ℕ)) (x : Remote F C × Result (List ℕ × Bool))
        → x.0 ≡ later
        → queued cache c (some high) rr ≡ tagged high ids
        → Outcome cache c (some high) (tagged high ids) x
        → ((id : List ℕ)
            → leb 65536 (size + 32) ≡ false
            → Adds out
                (size + 32)
                high
                (body ++ id)
                (added id)
                (more (some (length out)) (some high) (added id)))
        → Adds out size high body rr (ask_or_stop cache memory more (some (length out)) x)
    one_round [] x e q (r, q') rest =
        subst
          (λ y. Adds out size high body rr (ask_or_stop cache memory more (some (length out)) y))
          (sym (ap₂ (λ a b. (a, b)) e r))
          (none_left q (ap (queued cache c (some high)) (sym e) ∙ q'))
    one_round (id ∷ ids) x e q (r, q') rest =
        subst
          (λ y. Adds out size high body rr (ask_or_stop cache memory more (some (length out)) y))
          (sym (ap₂ (λ a b. (a, b)) e r))
          (subst (Adds out size high body rr) (sym (one_more id)) (
            one_added id ids q (ap (queued cache c (some high)) (sym e) ∙ q')
              (leb 65536 (size + 32)) (rest id)))
