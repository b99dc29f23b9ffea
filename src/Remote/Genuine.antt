-- ===== src/Remote/Genuine.antt =====
-- What a connection hands out as a chunk has the digest that was asked for, whatever the other side and the cache gave.
use casync.Prelude.{
  ℕ, ◌≡◌, refl, sym, ap, ◌∙◌, Bool, true, Option, not, subst, eagain, ealready, enoent, enotty,
  epipe, enodata, is_enoent, is_eaddrnotavail, List, [], Errno, Result-cases, arith, Result, ok,
  err, Bool-cases, inl, inr, if◌then◌else◌,
}
use casync.Action.{Action, continue, continue-eq-ok, pure, fail, ensure, ◌>>=◌, ◌>>◌}
use casync.ChunkId.{equal, make}
use casync.ChunkId.Equality.{equal_iff}
use casync.Remote.{Remote, Cache, has, is_eof, is_open}
use casync.Remote.Queue.{enqueue_request, init_cache}
use casync.Remote.Requests.{
  Codec, contents_of, digest_of, same_id, validate_contents, checked, missed, loaded, ask_for,
  load_from, fetch, last_data, request_chunk, next_chunk,
}

-- The data, decompressed if they are compressed, have this digest.
abbrev pub Genuine : Codec → List ℕ → Bool → List ℕ → Type 0
Genuine codec id compressed p =
    (q : List ℕ) × (contents_of codec compressed p ≡ ok q) × (make codec.sha256 q ≡ ok id)

abbrev IsGenuine : Codec → List ℕ → List ℕ × Bool → Type 0
IsGenuine codec id (p, compressed) = Genuine codec id compressed p

same_ok : (id actual : List ℕ) → same_id id (ok actual) ≡ ok tt → equal id actual ≡ true
same_ok id actual s = ground arith

ok_injective : {A : Type 0} {a b : A} → ok a ≡ ok b → a ≡ b
ok_injective e = cc

err_ne : {A : Type 0} (x : Errno) (a : A) → err x ≡ ok a → ⊥
err_ne x a e = cc

same_err : (id : List ℕ) (x : Errno) → same_id id (err x) ≡ ok tt → ⊥
same_err id x s = cc

-- An action gives only results of a kind.
abbrev Gives : {S A : Type 0} → (A → Type 0) → Action S A → Type 0
Gives {S} {A} P act = (s : S) (a : A) → (act s).1 ≡ ok a → P a

bind-Gives :
    {S A B : Type 0} (P : B → Type 0) (act : Action S A) (f : A → Action S B)
    → ((a : A) → Gives P (f a))
    → Gives P (act >>= f)
bind-Gives P act f h s b e =
    let (a, first, then_b) = continue-eq-ok (act s) f e in h a (act s).0 b then_b

module _ (codec : Codec) where
  same_id-Genuine :
      (id : List ℕ) (compressed : Bool) (p : List ℕ) (c : Result (List ℕ))
      → c ≡ contents_of codec compressed p
      → same_id id (digest_of codec c) ≡ ok tt
      → Genuine codec id compressed p
  same_id-Genuine id compressed p (ok q) e s = elim (Result-cases (make codec.sha256 q)) [
    | inl (actual, m) ↦
        let equal_ids : equal id actual ≡ true = same_ok id actual (ap (same_id id) (sym m) ∙ s) in
        (q, sym e, m ∙ ap ok (sym ((equal_iff id actual).0 equal_ids)))
    | inr (x, m) ↦ absurd (same_err id x (ap (same_id id) (sym m) ∙ s))
  ]
  same_id-Genuine id compressed p (err x) e s = cc

  validate_contents-Genuine :
      (id : List ℕ) (compressed : Bool) (p : List ℕ)
      → validate_contents codec id compressed p ≡ ok tt
      → Genuine codec id compressed p
  unfolding validate_contents
  validate_contents-Genuine id compressed p v =
      same_id-Genuine id compressed p (contents_of codec compressed p) refl (ground arith)

module _ (codec : Codec) where
  abbrev IsGiven : List ℕ × List ℕ × Bool → Type 0
  IsGiven (id, p, compressed) = Genuine codec id compressed p

module _ {F C : Type 0} (cache : Cache C) (codec : Codec) where
  checked-Gives :
      (id : List ℕ) (found : List ℕ × Bool)
      → Gives {S = Remote F C} (IsGenuine codec id) (checked cache codec id found)
  checked-Gives id (p, compressed) rr a e =
      elim (Result-cases (validate_contents codec id compressed p)) [
        | inl (tt, v) ↦
            let same : ok (p, compressed) ≡ ok a =
              ap (λ r. (continue (record rr { chunk_buffer = p }, r) (λ _. pure (p, compressed))).1)
                (sym v)
              ∙ e in
            subst (IsGenuine codec id) (ok_injective same)
              (validate_contents-Genuine codec id compressed p v)
        | inr (x, v) ↦ absurd (
            err_ne x a (
              ap (λ r. (continue (record rr { chunk_buffer = p }, r) (λ _. pure (p, compressed))).1)
                (sym v)
              ∙ e))
      ]

  missed-Gives :
      (id : List ℕ) (high : Bool) (x : Errno)
      → Gives {S = Remote F C} (IsGenuine codec id) (missed cache codec id high x)
  missed-Gives id high x rr a e = elim (Bool-cases (is_enoent x)) [
    | inl queued ↦
        let (added, first, failed) =
          continue-eq-ok (enqueue_request cache id high true rr)
            (λ added. fail (if added then eagain else ealready))
            (ap
                (λ t.
                  ((if t
                      then ask_for cache codec id high
                      else fail (if is_eaddrnotavail x then enoent else x))
                    rr).1)
                (sym queued)
              ∙ e) in
        absurd (err_ne (if added then eagain else ealready) a failed)
    | inr other ↦ absurd (
        err_ne (if is_eaddrnotavail x then enoent else x) a (
          ap
            (λ t.
              ((if t
                  then ask_for cache codec id high
                  else fail (if is_eaddrnotavail x then enoent else x))
                rr).1)
            (sym other)
          ∙ e))
  ]

  loaded-Gives :
      (id : List ℕ) (high : Bool) (r : Result (List ℕ × Bool))
      → Gives {S = Remote F C} (IsGenuine codec id) (loaded cache codec id high r)
  loaded-Gives id high (ok found) = checked-Gives id found
  loaded-Gives id high (err x) = missed-Gives id high x

  request_chunk-Gives :
      (id : List ℕ) (high : Bool) (desired : Option Bool)
      → Gives {S = Remote F C} (IsGenuine codec id) (request_chunk cache codec id high desired)
  unfolding request_chunk
  request_chunk-Gives id high desired =
      bind-Gives (IsGenuine codec id) (ensure (λ rr. has rr.local_feature_flags 0x40) enotty)
        (λ _.
          ensure (λ rr. not (is_eof rr.state)) epipe
          >> (init_cache cache >> fetch cache codec id high desired))
        λ _.
          bind-Gives (IsGenuine codec id) (ensure (λ rr. not (is_eof rr.state)) epipe)
            (λ _. init_cache cache >> fetch cache codec id high desired)
            λ _.
              bind-Gives (IsGenuine codec id) (init_cache cache)
                (λ _. fetch cache codec id high desired)
                λ _ rr.
                  loaded-Gives id high (load_from cache rr.cache_fd id desired)
                    (record rr { chunk_buffer = [] })

  last_data-Gives :
      (desired : Option Bool)
      → Gives {S = Remote F C} (IsGiven codec) (last_data cache codec desired)
  last_data-Gives desired rr a e =
      let s = record rr { chunk_buffer = [] } in
      let id = rr.last_chunk in
      let (found, there, checks) =
        continue-eq-ok (s, load_from cache rr.cache_fd id desired)
          (λ found. checked cache codec id found >>= λ (p, compressed). pure (id, p, compressed))
          e in
      let (given, first, last) =
        continue-eq-ok (checked cache codec id found s)
          (λ (p, compressed). pure (id, p, compressed)) checks in
      subst (IsGiven codec) (ok_injective last) (checked-Gives id found s given first)

  -- ca_remote_request gives only data that have the digest that was asked for, decompressed where they are compressed.
  pub request_chunk-Genuine :
      (rr : Remote F C) (id : List ℕ) (high : Bool) (desired : Option Bool) {p : List ℕ}
      {compressed : Bool}
      → (request_chunk cache codec id high desired rr).1 ≡ ok (p, compressed)
      → Genuine codec id compressed p
  request_chunk-Genuine rr id high desired e = request_chunk-Gives id high desired rr _ e

  -- So does ca_remote_next_chunk, for the chunk that arrived last.
  pub next_chunk-Genuine :
      (rr : Remote F C) (desired : Option Bool) {id p : List ℕ} {compressed : Bool}
      → (next_chunk cache codec desired rr).1 ≡ ok (id, p, compressed)
      → Genuine codec id compressed p
  unfolding next_chunk
  next_chunk-Genuine rr desired e =
      bind-Gives (IsGiven codec) (ensure (λ rr. rr.last_chunk_valid) enodata)
        (λ _.
          ensure (λ rr. not (is_eof rr.state)) epipe
          >> (ensure (λ rr. is_open rr.cache_fd) enodata >> last_data cache codec desired))
        (λ _.
          bind-Gives (IsGiven codec) (ensure (λ rr. not (is_eof rr.state)) epipe)
            (λ _. ensure (λ rr. is_open rr.cache_fd) enodata >> last_data cache codec desired)
            (λ _.
              bind-Gives (IsGiven codec) (ensure (λ rr. is_open rr.cache_fd) enodata)
                (λ _. last_data cache codec desired) (λ _. last_data-Gives desired)))
        rr _ e
