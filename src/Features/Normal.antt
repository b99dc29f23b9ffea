-- ===== src/Features/Normal.antt =====
-- `ca_feature_flags_normalize` and `ca_feature_flags_are_normalized` of src/caformat-util.c: the one
-- gives what the other accepts.
use casync.Prelude.{
  ℕ, ◌<◌, ◌≡◌, ◌≢◌, ◌↔◌, refl, sym, ap, ◌∙◌, arith, bit_and, bit_or, bit_and-bit_or, bit_or_bounds,
  subst, List, [], ◌∷◌, bit_and_step, bit_and-zero, ◌/◌, not64, true, ok, ℕ_discrete,
}
use casync.Features.{
  has, drop_if, add_ids, normalized, normalize, are_normalized, with_16bit_uids, with_32bit_uids,
  with_ids, with_nsec_time, with_usec_time, with_sec_time, with_2sec_time, with_acl,
  with_permissions, with_read_only, exclude_nodump, with_flag_nodump, coarser_than_nsec,
  coarser_than_usec, modes, feature_flags_max, with_user_names,
}
use casync.Features.Exclusion.{
  Excludes, drop_if-Excludes, drop_if_keeps, drop_if_same, drop_if_idle, drop_if_absent, within,
  drops, drops_keep, drops_same,
}

-- What the tests of `ca_feature_flags_are_normalized` come to.
pub record IsNormal (x : ℕ) : Type 0 where
  pub known : bit_and x (not64 feature_flags_max) ≡ 0
  pub uids : Excludes with_32bit_uids with_16bit_uids x
  pub nsec : Excludes with_nsec_time coarser_than_nsec x
  pub usec : Excludes with_usec_time coarser_than_usec x
  pub sec : Excludes with_sec_time with_2sec_time x
  pub acl : Excludes with_acl modes x
  pub permissions : Excludes with_permissions with_read_only x
  pub nodump : Excludes exclude_nodump with_flag_nodump x
  pub names : has x with_acl ≡ true → bit_and x with_ids ≢ 0

both_uids : (x : ℕ) → (bit_and x 3 ≡ 3) ↔ ((has x 2 ≡ true) × (bit_and x 1 ≢ 0))
both_uids x = ground (
  arith,
  bit_and_step x 3,
  bit_and_step (x / 2) 1,
  bit_and_step x 1,
  bit_and_step x 2,
  bit_and-zero (x / 2),
  bit_and-zero (x / 2 / 2),
)

module _ (x : ℕ) where
  are_normalized-IsNormal : are_normalized x ≡ ok true → IsNormal x
  unfolding are_normalized
  are_normalized-IsNormal h = record {
    known = ground arith;
    uids = λ e. ground (arith, both_uids x);
    nsec = λ e. ground arith;
    usec = λ e. ground arith;
    sec = λ e. ground arith;
    acl = λ e. ground arith;
    permissions = λ e. ground arith;
    nodump = λ e. ground arith;
    names = λ e e'. ground arith;
  }

  IsNormal-are_normalized : IsNormal x → are_normalized x ≡ ok true
  unfolding are_normalized
  IsNormal-are_normalized n = ground (
    arith,
    n.known,
    n.uids,
    n.nsec,
    n.usec,
    n.sec,
    n.acl,
    n.permissions,
    n.nodump,
    n.names,
    both_uids x,
  )

  add_ids-names : has (add_ids x) with_acl ≡ true → bit_and (add_ids x) with_ids ≢ 0
  unfolding add_ids
  add_ids-names h e = ground (
    arith,
    bit_and-bit_or x (bit_or with_32bit_uids with_user_names) with_ids,
    bit_or_bounds (bit_and x with_ids) (bit_or with_32bit_uids with_user_names),
  )

  add_ids-known :
      bit_and x (not64 feature_flags_max) ≡ 0 → bit_and (add_ids x) (not64 feature_flags_max) ≡ 0
  unfolding add_ids
  add_ids-known h = ground (
    arith,
    bit_and-bit_or x (bit_or with_32bit_uids with_user_names) (not64 feature_flags_max),
    h,
  )

  -- Dropping the short user ids leaves a name for the owner.
  kept_names :
      bit_and x with_ids ≢ 0 → bit_and (drop_if with_32bit_uids with_16bit_uids x) with_ids ≢ 0
  kept_names h e = elim (ℕ_discrete (bit_and x with_32bit_uids) 0) [
    | yes absent ↦ h (unfold drop_if in ground arith)
    | no present ↦ present (
        sym (drop_if_same with_32bit_uids with_16bit_uids x with_32bit_uids refl)
        ∙ within (drop_if with_32bit_uids with_16bit_uids x) with_32bit_uids with_ids refl e)
  ]

-- The droppings of `ca_feature_flags_normalize` after the first, the second, and so on.
abbrev after_permissions : List (ℕ × ℕ)
after_permissions = (exclude_nodump, with_flag_nodump) ∷ []

abbrev after_acl : List (ℕ × ℕ)
after_acl = (with_permissions, with_read_only) ∷ after_permissions

abbrev pub after_sec : List (ℕ × ℕ)
after_sec = (with_acl, modes) ∷ after_acl

abbrev pub after_usec : List (ℕ × ℕ)
after_usec = (with_sec_time, with_2sec_time) ∷ after_sec

abbrev pub after_nsec : List (ℕ × ℕ)
after_nsec = (with_usec_time, coarser_than_usec) ∷ after_usec

abbrev pub after_uids : List (ℕ × ℕ)
after_uids = (with_nsec_time, coarser_than_nsec) ∷ after_nsec

abbrev pub all_drops : List (ℕ × ℕ)
all_drops = (with_32bit_uids, with_16bit_uids) ∷ after_uids

pub normalized-drops : (x : ℕ) → normalized x ≡ drops all_drops (add_ids x)
unfolding normalized
normalized-drops x = refl

lasting :
    (flag mask : ℕ) (later : List (ℕ × ℕ)) (z : ℕ)
    → bit_and (not64 mask) mask ≡ 0
    → Excludes flag mask (drops later (drop_if flag mask z))
lasting flag mask later z h =
    drops_keep (Excludes flag mask) (λ f m y. drop_if_keeps flag mask f m y) later
      (drop_if flag mask z) (drop_if-Excludes flag mask z h)

drops-IsNormal :
    (x : ℕ) → bit_and x (not64 feature_flags_max) ≡ 0 → IsNormal (drops all_drops (add_ids x))
drops-IsNormal x h = record {
  known =
      drops_keep (λ z. bit_and z (not64 feature_flags_max) ≡ 0)
        (λ f m z. drop_if_absent f m z (not64 feature_flags_max)) all_drops (add_ids x)
        (add_ids-known x h);
  uids = lasting with_32bit_uids with_16bit_uids after_uids _ refl;
  nsec = lasting with_nsec_time coarser_than_nsec after_nsec _ refl;
  usec = lasting with_usec_time coarser_than_usec after_usec _ refl;
  sec = lasting with_sec_time with_2sec_time after_sec _ refl;
  acl = lasting with_acl modes after_acl _ refl;
  permissions = lasting with_permissions with_read_only after_permissions _ refl;
  nodump = lasting exclude_nodump with_flag_nodump [] _ refl;
  names = λ e e'. kept_names (add_ids x) (add_ids-names x (there e)) (
      sym (
        drops_same with_ids after_uids (drop_if with_32bit_uids with_16bit_uids (add_ids x))
          (refl, (refl, (refl, (refl, (refl, (refl, tt)))))))
      ∙ e');
}
  where
    gone : bit_and (add_ids x) with_acl ≡ 0 → bit_and (drops all_drops (add_ids x)) with_acl ≡ 0
    gone =
        drops_keep (λ z. bit_and z with_acl ≡ 0) (λ f m z. drop_if_absent f m z with_acl) all_drops
          (add_ids x)

    there : has (drops all_drops (add_ids x)) with_acl ≡ true → has (add_ids x) with_acl ≡ true
    there e = elim (ℕ_discrete (bit_and (add_ids x) with_acl) 0) [
      | yes absent ↦ absurd (ground (arith, gone absent))
      | no present ↦ ground arith
    ]

pub normalized-known :
    (x : ℕ)
    → bit_and x (not64 feature_flags_max) ≡ 0
    → bit_and (normalized x) (not64 feature_flags_max) ≡ 0
normalized-known x h =
    ap (λ z. bit_and z (not64 feature_flags_max)) (normalized-drops x) ∙ (drops-IsNormal x h).known

-- What `ca_feature_flags_normalize` gives is what `ca_feature_flags_are_normalized` accepts.
pub normalize-are_normalized : (x : ℕ) {y : ℕ} → normalize x ≡ ok y → are_normalized y ≡ ok true
unfolding normalize
normalize-are_normalized x {y} h = elim (ℕ_discrete (bit_and x (not64 feature_flags_max)) 0) [
  | yes known ↦
      ap are_normalized (sym (result known))
      ∙ IsNormal-are_normalized (normalized x)
          (subst IsNormal (sym (normalized-drops x)) (drops-IsNormal x known))
  | no unknown ↦ absurd (ground arith)
]
  where
    result : bit_and x (not64 feature_flags_max) ≡ 0 → normalized x ≡ y
    result known = ground arith

add_ids-IsNormal : (x : ℕ) → IsNormal x → add_ids x ≡ x
unfolding add_ids
add_ids-IsNormal x n = ground (arith, n.names)

normalized-idle : (x : ℕ) → x < 18446744073709551616 → IsNormal x → normalized x ≡ x
unfolding normalized
normalized-idle x word n =
    ap (drops all_drops) (add_ids-IsNormal x n)
    ∙ ap (drops after_uids) (drop_if_idle with_32bit_uids with_16bit_uids x word refl n.uids)
    ∙ ap (drops after_nsec) (drop_if_idle with_nsec_time coarser_than_nsec x word refl n.nsec)
    ∙ ap (drops after_usec) (drop_if_idle with_usec_time coarser_than_usec x word refl n.usec)
    ∙ ap (drops after_sec) (drop_if_idle with_sec_time with_2sec_time x word refl n.sec)
    ∙ ap (drops after_acl) (drop_if_idle with_acl modes x word refl n.acl)
    ∙ ap (drops after_permissions)
        (drop_if_idle with_permissions with_read_only x word refl n.permissions)
    ∙ drop_if_idle exclude_nodump with_flag_nodump x word refl n.nodump

normalize-IsNormal : (x : ℕ) → x < 18446744073709551616 → IsNormal x → normalize x ≡ ok x
unfolding normalize
normalize-IsNormal x word n = ground (arith, n.known, normalized-idle x word n)

-- `ca_feature_flags_are_normalized` accepts a uint64_t exactly if `ca_feature_flags_normalize` succeeds
-- on it and leaves it as it is.
pub are_normalized_iff :
    (x : ℕ) → x < 18446744073709551616 → (are_normalized x ≡ ok true) ↔ (normalize x ≡ ok x)
are_normalized_iff x word =
    (λ h. normalize-IsNormal x word (are_normalized-IsNormal x h), normalize-are_normalized x)
