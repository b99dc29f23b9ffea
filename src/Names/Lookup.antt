-- ===== src/Names/Lookup.antt =====
-- Finding a feature flag by its name, `ca_with_feature_flags_parse_one` of src/caformat-util.c.
use Prim.Native.String.{String}
use mathlib.Core.Option.{some-injective}
use casync.Prelude.{
  ℕ, zero, suc, ◌≡◌, refl, ap, subst, ◌∙◌, Bool, true, false, ◌&&◌, List, [], ◌∷◌, some, get_elem?,
  ◌==◌, ok, err, arith, Result-cases, inl, inr,
}
use casync.Names.{with_feature_map, find, parse_one}

finds : String → ℕ → Bool
finds name feature = elim (parse_one name) [ ok f ↦ f == feature | err e ↦ false ]

all_found : List (String × ℕ) → Bool
all_found [] = true
all_found ((name, feature) ∷ rest) = finds name feature && all_found rest

each_found : all_found with_feature_map ≡ true
unfolding all_found finds parse_one find
each_found = refl

finds_lem : (name : String) (feature : ℕ) → finds name feature ≡ true → parse_one name ≡ ok feature
unfolding finds
finds_lem name feature h = elim (Result-cases (parse_one name)) [
  | inl (f, e) ↦ e ∙ ap ok (ground (arith, e))
  | inr (e', e) ↦ absurd (ground (arith, e))
]

found :
    (rows : List (String × ℕ)) (i : ℕ) {name : String} {feature : ℕ}
    → all_found rows ≡ true
    → get_elem? rows i ≡ some (name, feature)
    → parse_one name ≡ ok feature
unfolding all_found
found [] i h e = absurd (ground arith)
found ((n, f) ∷ rest) zero {name} {feature} h e =
    subst (λ row. parse_one row.0 ≡ ok row.1) (some-injective (n, f) (name, feature) e)
      (finds_lem n f (ground arith))
found ((n, f) ∷ rest) (suc i) h e = found rest i (ground arith) e

-- Each name of `with_feature_map` is found, and gives the flag of its own row.
pub parse_one_found :
    (i : ℕ) {name : String} {feature : ℕ}
    → get_elem? with_feature_map i ≡ some (name, feature)
    → parse_one name ≡ ok feature
parse_one_found i e = found with_feature_map i each_found e
