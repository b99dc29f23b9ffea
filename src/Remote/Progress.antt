-- ===== src/Remote/Progress.antt =====
-- A frame whose bytes arrive in pieces is processed in the end: while it is not whole, ca_remote_process_message
-- waits and ca_remote_read asks for more.
use casync.Prelude.{
  ℕ, zero, suc, ◌+◌, ◌-◌, ◌≤◌, ◌<◌, ◌≡◌, refl, sym, ap, ◌∙◌, Bool, true, false, some, List, [],
  ◌++◌, take, drop, length, length-append, length-take, take-append-drop, append_assoc, arith,
  dec_le, subst, ok, err, inl, inr, if◌then◌else◌, ltb, leb, ◌==◌, not, ◌⊎◌, le→ltb, lt→ltb, ltb→lt,
  max, epipe,
}
use casync.Files.{Files}
use casync.Remote.{Remote, Cache, poll, step, get_read_size, buffer_size}
use casync.Remote.Frames.{frame_length, size_max}
use casync.Remote.Receive.{process_message, process_frame, read_input, received, read_from}
use casync.Remote.Pointers.{u64-append}
use casync.Remote.Framing.{is_awake, process_message-whole}

-- What is documented of read() on a connection without errors: it gives at least a byte of those that the other side
-- has sent and that are left, unless there is none, but not always all that is asked for.
pub record IsStream {F : Type 0} (files : Files F) : Type 0 where
  pub left : F → List ℕ
  pub read_some :
      (f : F) (n : ℕ)
      → 0 < n
      → (m : ℕ) × ((files.read f n).1 ≡ ok (take m (left f)))
        × (m ≤ n)
        × (m ≤ length (left f))
        × (m ≡ 0 → left f ≡ [])
        × (left (files.read f n).0 ≡ drop m (left f))

lt→leb : (a b : ℕ) → a < b → leb b a ≡ false
lt→leb a b h = ground arith

below_max : (a n k : ℕ) → a < n → a < max n k
below_max a n k h = omega arith

pos_of : (xs : List ℕ) (m : ℕ) → (m ≡ 0 → xs ≡ []) → 0 < length xs → 0 < m
pos_of xs zero h some_left = absurd (omega (arith, ap length (h refl)))
pos_of xs (suc m) h some_left = omega arith

module _ {F C : Type 0} where
  -- What waiting for input changes
  abbrev pub waiting : List ℕ → F → ℕ → Remote F C → Remote F C
  waiting bytes fd size rr = record rr {
    input_buffer = bytes;
    input_fd = some fd;
    frame_size = size;
  }

module _ {F C : Type 0} (files : Files F) (cache : Cache C) (memory : List ℕ → ℕ → Bool) where
  -- So many times ca_remote_process_message had nothing to process, and ca_remote_read then read something.
  pub data Awaits : ℕ → Remote F C → Remote F C → Type 0 where
    arrived : {q : Remote F C} → Awaits zero q q
    reads :
        {n : ℕ} {rr r s q : Remote F C}
        → process_message files cache memory rr ≡ (r, ok poll)
        → read_input files memory r ≡ (s, ok step)
        → Awaits n s q
        → Awaits (suc n) rr q

  -- While a frame is not whole, the buffer is below the size that is asked for.
  process_message-waits :
      (rr : Remote F C)
      → is_awake rr ≡ true
      → (ltb (length rr.input_buffer) 16 ≡ true)
        ⊎ ((16 ≤ length rr.input_buffer)
            × (16 ≤ frame_length rr.input_buffer)
            × (frame_length rr.input_buffer ≤ size_max)
            × (length rr.input_buffer < frame_length rr.input_buffer))
      → (size : ℕ) × (process_message files cache memory rr
          ≡ (record rr { frame_size = size }, ok poll))
        × (length rr.input_buffer < get_read_size (record rr { frame_size = size }))
  unfolding process_message get_read_size
  process_message-waits rr awake (inl short) = (
    rr.frame_size,
    rw (ap not awake, short) refl,
    omega (arith, ltb→lt (length rr.input_buffer) 16 short),
  )
  process_message-waits rr awake (inr (least, low, high, part)) = (
    frame_length rr.input_buffer,
    rw
        (
          ap not awake,
          le→ltb (length rr.input_buffer) 16 least,
          le→ltb (frame_length rr.input_buffer) 16 low,
          le→ltb size_max (frame_length rr.input_buffer) high,
          lt→ltb (length rr.input_buffer) (frame_length rr.input_buffer) part,
        )
        refl,
    omega arith,
  )

  module _ (stream : IsStream files) (enough : (q : List ℕ) (n : ℕ) → memory q n ≡ true) where
    -- ca_remote_read, where the buffer is below that size and something is left to read
    read_input-reads :
        (rr : Remote F C) (fd : F)
        → rr.input_fd ≡ some fd
        → length rr.input_buffer < get_read_size rr
        → 0 < length (stream.left fd)
        → (m : ℕ) × (f : F) × (read_input files memory rr
            ≡ (waiting (rr.input_buffer ++ take m (stream.left fd)) f rr.frame_size rr, ok step))
          × (0 < m)
          × (m ≤ length (stream.left fd))
          × (stream.left f ≡ drop m (stream.left fd))
    unfolding read_input get_read_size
    read_input-reads rr fd open_fd small some_left =
        let left = max rr.frame_size buffer_size - length rr.input_buffer in
        let (m, got, most, fits, nothing, rest) = stream.read_some fd left (omega arith) in
        let bytes = take m (stream.left fd) in
        let some_read : 0 < m = pos_of (stream.left fd) m nothing some_left in
        let read_some : (length bytes == 0) ≡ false =
          ground (arith, length-take m (stream.left fd)) in
        (
          m,
          (files.read fd left).0,
          rw
                (
                  lt→leb (length rr.input_buffer) (max rr.frame_size buffer_size) small,
                  ap not (enough rr.input_buffer left),
                )
                refl
              ∙ ap (λ o. read_from files memory left o rr) open_fd
              ∙ ap (λ r. received ((files.read fd left).0, r) rr) got
              ∙ ap
                  (λ t.
                    if t
                    then (record rr { input_fd = some (files.read fd left).0 }, err epipe)
                    else (
                      waiting (rr.input_buffer ++ bytes) (files.read fd left).0 rr.frame_size rr,
                      ok step,
                    ))
                  read_some,
          some_read,
          fits,
          rest,
        )

    -- After at most so many reads a frame is whole, and is processed; the bytes of the connection are those in the
    -- buffer and those that are left, and nothing else changed.
    abbrev pub Arrives : ℕ → List ℕ → Remote F C → Type 0
    Arrives most all rr =
        (n : ℕ) × (b : List ℕ) × (fd : F) × (size : ℕ) × Awaits n rr (waiting b fd size rr)
        × (n ≤ most)
        × (b ++ stream.left fd ≡ all)
        × (frame_length b ≡ frame_length all)
        × (frame_length all ≤ length b)
        × (process_message files cache memory (waiting b fd size rr)
            ≡ process_frame files cache memory b (waiting b fd size rr))

    module _ (all : List ℕ) (low : 16 ≤ frame_length all) (high : frame_length all ≤ size_max)
        (whole : frame_length all ≤ length all) where
      same_length :
          (b rest : List ℕ) → b ++ rest ≡ all → 16 ≤ length b → frame_length b ≡ frame_length all
      same_length b rest e h = sym (u64-append b rest 0 (omega arith)) ∙ ap frame_length e

      arrived_whole :
          (k : ℕ) (rr : Remote F C) (fd : F)
          → is_awake rr ≡ true
          → rr.input_fd ≡ some fd
          → rr.input_buffer ++ stream.left fd ≡ all
          → frame_length all ≤ length rr.input_buffer
          → Arrives k all rr
      arrived_whole k rr fd awake open_fd bytes there =
          let same : frame_length rr.input_buffer ≡ frame_length all =
            same_length rr.input_buffer (stream.left fd) bytes (omega arith) in
          let q = waiting rr.input_buffer fd rr.frame_size rr in
          let back : rr ≡ q = ap (λ o. record rr { input_fd = o }) open_fd in
          (
            0,
            rr.input_buffer,
            fd,
            rr.frame_size,
            subst (Awaits zero rr) back arrived,
            omega arith,
            bytes,
            same,
            there,
            process_message-whole files cache memory q awake (omega arith) (omega (arith, same))
                (omega (arith, same)) (omega (arith, same)),
          )

      not_whole :
          (rr : Remote F C) (fd : F)
          → rr.input_buffer ++ stream.left fd ≡ all
          → ¬ (frame_length all ≤ length rr.input_buffer)
          → (ltb (length rr.input_buffer) 16 ≡ true)
            ⊎ ((16 ≤ length rr.input_buffer)
                × (16 ≤ frame_length rr.input_buffer)
                × (frame_length rr.input_buffer ≤ size_max)
                × (length rr.input_buffer < frame_length rr.input_buffer))
      not_whole rr fd bytes part = elim (dec_le 16 (length rr.input_buffer)) [
        | yes least ↦
            let same : frame_length rr.input_buffer ≡ frame_length all =
              same_length rr.input_buffer (stream.left fd) bytes least in
            inr (least, omega (arith, same), omega (arith, same), omega (arith, same, part))
        | no short ↦ inl (lt→ltb (length rr.input_buffer) 16 (omega (arith, short)))
      ]

      arrives :
          (k : ℕ) (rr : Remote F C) (fd : F)
          → is_awake rr ≡ true
          → rr.input_fd ≡ some fd
          → rr.input_buffer ++ stream.left fd ≡ all
          → frame_length all ≤ length rr.input_buffer + k
          → Arrives k all rr
      arrives zero rr fd awake open_fd bytes near =
          arrived_whole zero rr fd awake open_fd bytes (omega arith)
      arrives (suc k) rr fd awake open_fd bytes near =
          elim (dec_le (frame_length all) (length rr.input_buffer)) [
            | yes there ↦ arrived_whole (suc k) rr fd awake open_fd bytes there
            | no part ↦
                let (size, waits, small) =
                  process_message-waits rr awake (not_whole rr fd bytes part) in
                let some_left : 0 < length (stream.left fd) =
                  omega (arith, ap length bytes, length-append rr.input_buffer (stream.left fd)) in
                let (m, f, read, some_read, fits, rest) =
                  read_input-reads (record rr { frame_size = size }) fd open_fd small some_left in
                let b = rr.input_buffer ++ take m (stream.left fd) in
                let all_bytes : b ++ stream.left f ≡ all =
                  append_assoc rr.input_buffer (take m (stream.left fd)) (stream.left f)
                  ∙ ap (λ t. rr.input_buffer ++ t)
                      (ap (λ t. take m (stream.left fd) ++ t) rest
                        ∙ take-append-drop m (stream.left fd))
                  ∙ bytes in
                let longer : length b ≡ length rr.input_buffer + m = omega (
                  arith,
                  length-append rr.input_buffer (take m (stream.left fd)),
                  length-take m (stream.left fd),
                ) in
                let (n, b', fd', size', awaits, most, bytes', same, there, done) =
                  arrives k (waiting b f size rr) f awake refl all_bytes
                    (omega (arith, near, longer)) in
                (
                  suc n,
                  b',
                  fd',
                  size',
                  reads waits read awaits,
                  omega arith,
                  bytes',
                  same,
                  there,
                  done,
                )
          ]

    -- A frame of a permitted size that the other side has sent is processed after no more reads than it has bytes.
    pub receive-Arrives :
        (rr : Remote F C) (fd : F)
        → is_awake rr ≡ true
        → rr.input_fd ≡ some fd
        → 16 ≤ frame_length (rr.input_buffer ++ stream.left fd)
        → frame_length (rr.input_buffer ++ stream.left fd) ≤ size_max
        → frame_length (rr.input_buffer ++ stream.left fd)
          ≤ length (rr.input_buffer ++ stream.left fd)
        → Arrives
            (frame_length (rr.input_buffer ++ stream.left fd))
            (rr.input_buffer ++ stream.left fd)
            rr
    receive-Arrives rr fd awake open_fd low high whole =
        let all = rr.input_buffer ++ stream.left fd in
        arrives all low high whole (frame_length all) rr fd awake open_fd refl (omega arith)
