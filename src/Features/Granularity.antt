-- ===== src/Features/Granularity.antt =====
-- `ca_feature_flags_time_granularity_nsec` of src/caformat-util.c on normalized flags.
use casync.Prelude.{
  ℕ, ◌≡◌, refl, ap, ◌∙◌, arith, bit_and, bit_or, bit_and-bit_or, bit_or-zero, not64, ok, ℕ_discrete,
}
use casync.Features.{
  drop_if, add_ids, normalized, normalize, time_granularity_nsec, with_16bit_uids, with_32bit_uids,
  with_user_names, with_nsec_time, with_usec_time, with_sec_time, with_2sec_time, coarser_than_nsec,
  coarser_than_usec, feature_flags_max,
}
use casync.Features.Exclusion.{drops, drops_same, drop_if_same}
use casync.Features.Normal.{
  after_uids, after_nsec, after_usec, after_sec, normalized-drops, normalized-known,
}

skip : (f m x : ℕ) → bit_and x f ≡ 0 → drop_if f m x ≡ x
unfolding drop_if
skip f m x h = ground arith

module _ (x : ℕ) where
  add_ids_same :
      (group : ℕ)
      → bit_and (bit_or with_32bit_uids with_user_names) group ≡ 0
      → bit_and (add_ids x) group ≡ bit_and x group
  unfolding add_ids
  add_ids_same group h = ground (
    arith,
    bit_and-bit_or x (bit_or with_32bit_uids with_user_names) group
        ∙ ap (bit_or (bit_and x group)) h
        ∙ bit_or-zero (bit_and x group),
  )

  ids : ℕ
  ids = drop_if with_32bit_uids with_16bit_uids (add_ids x)

  ids_same :
      (group : ℕ)
      → bit_and (bit_or with_32bit_uids with_user_names) group ≡ 0
      → bit_and (not64 with_16bit_uids) group ≡ group
      → bit_and ids group ≡ bit_and x group
  unfolding ids
  ids_same group h k =
      drop_if_same with_32bit_uids with_16bit_uids (add_ids x) group k ∙ add_ids_same group h

  tail : normalized x ≡ drops after_uids ids
  unfolding ids
  tail = normalized-drops x

  without_nsec : bit_and x with_nsec_time ≡ 0 → normalized x ≡ drops after_nsec ids
  without_nsec h =
      tail
      ∙ ap (drops after_nsec)
          (skip with_nsec_time coarser_than_nsec ids (ids_same with_nsec_time refl refl ∙ h))

  without_usec :
      bit_and x with_nsec_time ≡ 0
      → bit_and x with_usec_time ≡ 0
      → normalized x ≡ drops after_usec ids
  without_usec h h' =
      without_nsec h
      ∙ ap (drops after_usec)
          (skip with_usec_time coarser_than_usec ids (ids_same with_usec_time refl refl ∙ h'))

  without_sec :
      bit_and x with_nsec_time ≡ 0
      → bit_and x with_usec_time ≡ 0
      → bit_and x with_sec_time ≡ 0
      → normalized x ≡ drops after_sec ids
  without_sec h h' h'' =
      without_usec h h'
      ∙ ap (drops after_sec)
          (skip with_sec_time with_2sec_time ids (ids_same with_sec_time refl refl ∙ h''))

  nsec_same : bit_and (normalized x) with_nsec_time ≡ bit_and x with_nsec_time
  nsec_same =
      ap (λ z. bit_and z with_nsec_time) tail
      ∙ drops_same with_nsec_time after_uids ids (refl, (refl, (refl, (refl, (refl, (refl, tt))))))
      ∙ ids_same with_nsec_time refl refl

  usec_same :
      bit_and x with_nsec_time ≡ 0
      → bit_and (normalized x) with_usec_time ≡ bit_and x with_usec_time
  usec_same h =
      ap (λ z. bit_and z with_usec_time) (without_nsec h)
      ∙ drops_same with_usec_time after_nsec ids (refl, (refl, (refl, (refl, (refl, tt)))))
      ∙ ids_same with_usec_time refl refl

  sec_same :
      bit_and x with_nsec_time ≡ 0
      → bit_and x with_usec_time ≡ 0
      → bit_and (normalized x) with_sec_time ≡ bit_and x with_sec_time
  sec_same h h' =
      ap (λ z. bit_and z with_sec_time) (without_usec h h')
      ∙ drops_same with_sec_time after_usec ids (refl, (refl, (refl, (refl, tt))))
      ∙ ids_same with_sec_time refl refl

  two_sec_same :
      bit_and x with_nsec_time ≡ 0
      → bit_and x with_usec_time ≡ 0
      → bit_and x with_sec_time ≡ 0
      → bit_and (normalized x) with_2sec_time ≡ bit_and x with_2sec_time
  two_sec_same h h' h'' =
      ap (λ z. bit_and z with_2sec_time) (without_sec h h' h'')
      ∙ drops_same with_2sec_time after_sec ids (refl, (refl, (refl, tt)))
      ∙ ids_same with_2sec_time refl refl

  same_granularity :
      bit_and x (not64 feature_flags_max) ≡ 0
      → bit_and (normalized x) (not64 feature_flags_max) ≡ 0
      → time_granularity_nsec (normalized x) ≡ time_granularity_nsec x
  unfolding time_granularity_nsec
  same_granularity h h' = ground (arith, nsec_same, usec_same, sec_same, two_sec_same)

-- Normalizing keeps the finest time granularity that is asked for.
pub time_granularity-normalize :
    (x : ℕ) {y : ℕ} → normalize x ≡ ok y → time_granularity_nsec y ≡ time_granularity_nsec x
unfolding normalize
time_granularity-normalize x {y} h = elim (ℕ_discrete (bit_and x (not64 feature_flags_max)) 0) [
  | yes known ↦
      ap time_granularity_nsec (result known) ∙ same_granularity x known (normalized-known x known)
  | no unknown ↦ absurd (ground arith)
]
  where
    result : bit_and x (not64 feature_flags_max) ≡ 0 → y ≡ normalized x
    result known = ground arith
