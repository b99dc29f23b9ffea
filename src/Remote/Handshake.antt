-- ===== src/Remote/Handshake.antt =====
-- The two sides of a connection judge each other's hello alike.
use casync.Prelude.{
  ℕ, zero, suc, ◌+◌, ◌/◌, ◌≤◌, ◌<◌, ◌≡◌, ◌≢◌, ◌↔◌, refl, sym, ap, ap₂, ◌∙◌, Bool, true, not, ◌&&◌,
  ◌||◌, List, [], ◌++◌, drop, length, length-append, arith, Result, ok, err, ◌==◌, bit_and, bit_or,
  bit_or_step, not64, max64, eprotonosupport, ebade, Errno, Bool-cases, inl, inr,
}
use casync.Action.{Action, continue, ensure, pure, modify, ◌>>◌}
use casync.Format.Words.{drop_past}
use casync.Files.{Files}
use casync.Remote.{Remote, Cache, State, Step, step, has, flags_max}
use casync.Remote as R
use casync.Remote.Frames.{hello, type_of_code, third_word, validate_hello}
use casync.Remote.Receive.{
  process_message, process_frame, dispatch, process, admits, validate, process_hello, pass_frame,
  operations_and_services_compatible,
}
use casync.Remote.Framing.{process_message-whole}
use casync.Remote.Send.{send_hello, flagged_frame}
use casync.Remote.Exchange.{
  frame_length-flagged, frame_code-flagged, third_word-flagged, length-flagged, dispatch-passes,
}

bit_or_comm_fuel : (n a b : ℕ) → a ≤ n → b ≤ n → bit_or a b ≡ bit_or b a
bit_or_comm_fuel zero zero zero p q = refl
bit_or_comm_fuel zero zero (suc b) p q = absurd (omega arith)
bit_or_comm_fuel zero (suc a) b p q = absurd (omega arith)
bit_or_comm_fuel (suc n) a b p q = omega (
  arith,
  bit_or_step a b,
  bit_or_step b a,
  bit_or_comm_fuel n (a / 2) (b / 2) (omega arith) (omega arith),
)

bit_or_comm : (a b : ℕ) → bit_or a b ≡ bit_or b a
bit_or_comm a b = bit_or_comm_fuel (a + b) a b (omega arith) (omega arith)

-- Flags that one side may have: known ones, and to push the chunks of an index it pushes both.
abbrev pub IsOffer : ℕ → Type 0
IsOffer flags =
    (bit_and flags (not64 flags_max) ≡ 0)
    × ((not (has flags 0x800) || (bit_and flags 0x600 == 0x600)) ≡ true)
    × (flags ≢ 0)
    × (flags < max64)

-- The tests of ca_remote_process_hello
accepts : ℕ → ℕ → Bool
accepts own remote =
    (bit_and remote (not64 flags_max) == 0)
    && ((not (has remote 0x800) || (bit_and remote 0x600 == 0x600))
        && (operations_and_services_compatible remote own
            && (operations_and_services_compatible own remote && has (bit_or remote own) 0x17c0)))

accepts_comm : (f g : ℕ) → IsOffer f → IsOffer g → accepts f g ≡ accepts g f
unfolding accepts IsOffer
accepts_comm f g (kf, pf, nf, sf) (kg, pg, ng, sg) =
    ground (arith, ap (λ t. has t 0x17c0) (bit_or_comm f g))

module _ {F C : Type 0} where
  -- A test before an action that gives a result exactly if another holds
  test_first :
      (t : Remote F C → Bool) (u : Bool) (x : Errno) (rr : Remote F C)
      (act : Action (Remote F C) Step)
      → (((act rr).1 ≡ ok step) ↔ (u ≡ true))
      → (((ensure t x >> act) rr).1 ≡ ok step) ↔ ((t rr && u) ≡ true)
  test_first t u x rr act h = elim (Bool-cases (t rr)) [
    | inl e ↦ rw e h
    | inr e ↦ rw e (λ p. cc, λ p. cc)
  ]

  last_test :
      (t : Remote F C → Bool) (x : Errno) (rr : Remote F C) (f : Remote F C → Remote F C)
      → (((ensure t x >> (modify f >> pure step)) rr).1 ≡ ok step) ↔ (t rr ≡ true)
  last_test t x rr f = elim (Bool-cases (t rr)) [
    | inl e ↦ rw e (λ p. refl, λ p. refl)
    | inr e ↦ rw e (λ p. cc, λ p. cc)
  ]

  process_hello-accepts :
      (h : List ℕ) (rr : Remote F C)
      → ((process_hello h rr).1 ≡ ok step) ↔ (accepts rr.local_feature_flags (third_word h) ≡ true)
  unfolding process_hello accepts
  process_hello-accepts h rr =
      let flags = third_word h in
      let known : Remote F C → Bool = λ _. bit_and flags (not64 flags_max) == 0 in
      let pushes : Remote F C → Bool =
        λ _. not (has flags 0x800) || (bit_and flags 0x600 == 0x600) in
      let serves : Remote F C → Bool =
        λ rr. operations_and_services_compatible flags rr.local_feature_flags in
      let served : Remote F C → Bool =
        λ rr. operations_and_services_compatible rr.local_feature_flags flags in
      let wants : Remote F C → Bool = λ rr. has (bit_or flags rr.local_feature_flags) 0x17c0 in
      let go_on : Remote F C → Remote F C =
        λ r. record r { remote_feature_flags = flags; state = R.running } in
      let fifth : Action (Remote F C) Step = ensure wants ebade >> (modify go_on >> pure step) in
      let fourth : Action (Remote F C) Step = ensure served ebade >> fifth in
      let third : Action (Remote F C) Step = ensure serves ebade >> fourth in
      let second : Action (Remote F C) Step = ensure pushes ebade >> third in
      test_first known _ eprotonosupport rr second (
        test_first pushes _ ebade rr third (
          test_first serves _ ebade rr fourth
            (test_first served _ ebade rr fifth (last_test wants ebade rr go_on))))

module _ {F C : Type 0} (files : Files F) (cache : Cache C) (memory : List ℕ → ℕ → Bool) where
  result_of :
      (x : Remote F C × Result Step) (n : ℕ)
      → ((continue x (λ s r. (pass_frame n r, ok s))).1 ≡ ok step) ↔ (x.1 ≡ ok step)
  result_of (r, ok s) n = (λ e. e, λ e. e)
  result_of (r, err x) n = (λ e. e, λ e. e)

  -- A hello with these flags is taken exactly if they suit.
  hello_accepted :
      (rr : Remote F C) (flags : ℕ) (rest : List ℕ)
      → rr.state ≡ R.hello
      → IsOffer flags
      → rr.input_buffer ≡ flagged_frame hello 24 flags [] ++ rest
      → ((process_message files cache memory rr).1 ≡ ok step)
        ↔ (accepts rr.local_feature_flags flags ≡ true)
  unfolding IsOffer process_frame type_of_code admits validate validate_hello process
  hello_accepted rr flags rest waits (known, pushes, some_flags, small) input =
      let b = flagged_frame hello 24 flags [] ++ rest in
      let q = record rr { state = R.hello; input_buffer = b } in
      let there : rr ≡ q = λ i. record rr { state = waits i; input_buffer = input i } in
      let size_is = frame_length-flagged hello 24 flags [] rest (omega arith) in
      let code_is = frame_code-flagged hello 24 flags [] rest in
      let third_is = third_word-flagged hello 24 flags [] rest (omega arith) in
      let longer : length b ≡ 24 + length rest = omega (
        arith,
        length-append (flagged_frame hello 24 flags []) rest,
        length-flagged hello 24 flags [] rest,
      ) in
      let last : ℕ → Step → Action (Remote F C) Step = λ n s r. (pass_frame n r, ok s) in
      let valid : validate hello b ≡ true = ground (arith, size_is, code_is, third_is) in
      let run : process_message files cache memory rr ≡ continue (process_hello b q) (last 24) =
        ap (process_message files cache memory) there
        ∙ process_message-whole files cache memory q refl (omega (arith, longer))
            (omega (arith, size_is)) (omega (arith, size_is)) (omega (arith, size_is, longer))
        ∙ ap₂ (λ k n. continue (dispatch files cache memory (type_of_code k) b q) (last n)) code_is
            size_is
        ∙ ap (λ x. continue x (last 24))
            (dispatch-passes files cache memory hello b q refl valid) in
      let judged = process_hello-accepts b q in
      let whole = result_of (process_hello b q) 24 in
      (
        λ e.
            ap (accepts rr.local_feature_flags) (sym third_is)
            ∙ judged.0 (whole.0 (ap (λ x. x.1) (sym run) ∙ e)),
        λ e.
            ap (λ x. x.1) run
            ∙ whole.1 (judged.1 (ap (accepts rr.local_feature_flags) third_is ∙ e)),
      )

  -- What ca_remote_send_hello sends
  send_hello-sends :
      (rr : Remote F C)
      → (send_hello memory rr).1 ≡ ok step
      → (send_hello memory rr).0.output_buffer
        ≡ rr.output_buffer ++ flagged_frame hello 24 rr.local_feature_flags []
  unfolding send_hello
  send_hello-sends rr e = ground arith

  hello_frame :
      (rr : Remote F C)
      → (send_hello memory rr).1 ≡ ok step
      → drop (length rr.output_buffer) (send_hello memory rr).0.output_buffer
        ≡ flagged_frame hello 24 rr.local_feature_flags []
  hello_frame rr e =
      ap (drop (length rr.output_buffer)) (send_hello-sends rr e)
      ∙ drop_past rr.output_buffer (flagged_frame hello 24 rr.local_feature_flags [])
          (length rr.output_buffer) refl

  -- Two sides that wait for each other's hello, with flags that they may have, and that have sent each other a
  -- hello, either both go on with the connection or both end it.
  pub handshake_agrees :
      (a b : Remote F C) (from_a from_b : List ℕ)
      → a.state ≡ R.hello
      → b.state ≡ R.hello
      → IsOffer a.local_feature_flags
      → IsOffer b.local_feature_flags
      → (send_hello memory a).1 ≡ ok step
      → (send_hello memory b).1 ≡ ok step
      → a.input_buffer
        ≡ drop (length b.output_buffer) (send_hello memory b).0.output_buffer ++ from_b
      → b.input_buffer
        ≡ drop (length a.output_buffer) (send_hello memory a).0.output_buffer ++ from_a
      → ((process_message files cache memory a).1 ≡ ok step)
        ↔ ((process_message files cache memory b).1 ≡ ok step)
  handshake_agrees a b from_a from_b wait_a wait_b offer_a offer_b sent_a sent_b input_a input_b =
      let judge_a =
        hello_accepted a b.local_feature_flags from_b wait_a offer_b
          (input_a ∙ ap (λ t. t ++ from_b) (hello_frame b sent_b)) in
      let judge_b =
        hello_accepted b a.local_feature_flags from_a wait_b offer_a
          (input_b ∙ ap (λ t. t ++ from_a) (hello_frame a sent_a)) in
      let same = accepts_comm a.local_feature_flags b.local_feature_flags offer_a offer_b in
      (λ e. judge_b.1 (sym same ∙ judge_a.0 e), λ e. judge_a.1 (same ∙ judge_b.0 e))
