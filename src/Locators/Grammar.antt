-- ===== src/Locators/Grammar.antt =====
-- What the tests of src/cautil.c accept, as grammars
use casync.Prelude.{
  ℕ, zero, suc, ◌<◌, ◌≤◌, ◌≡◌, ◌≢◌, ◌↔◌, ◌⊎◌, inl, inr, refl, sym, ap, ◌∙◌, Bool, true, false, ◌&&◌,
  List, [], ◌∷◌, ◌++◌, arith, ◌==◌, take, drop, length, take-append-drop, length-take,
  if◌then◌else◌,
}
use casync.Locators.{at, span, is_host_char, is_definitely_path, has_host, is_ssh_path}

abbrev all : (ℕ → Bool) → List ℕ → Bool
all set [] = true
all set (c ∷ s) = set c && all set s

-- One or more characters of a set
abbrev pub IsWord : (ℕ → Bool) → List ℕ → Type 0
IsWord set s = (0 < length s) × (all set s ≡ true)

-- A host and ":", or a user name, "@", a host and ":", with anything behind
pub data IsSsh (s : List ℕ) : Type 0 where
  of_host : (h rest : List ℕ) → IsWord is_host_char h → s ≡ h ++ 58 ∷ rest → IsSsh s
  of_user :
      (u h rest : List ℕ)
      → IsWord is_host_char u
      → IsWord is_host_char h
      → s ≡ u ++ 64 ∷ (h ++ 58 ∷ rest)
      → IsSsh s

all-take : (set : ℕ → Bool) (s : List ℕ) → all set (take (span set s) s) ≡ true
unfolding span
all-take set [] = refl
all-take set (c ∷ s) = ground (arith, all-take set s)

span-append :
    (set : ℕ → Bool) (h : List ℕ) (c : ℕ) (r : List ℕ)
    → all set h ≡ true
    → set c ≡ false
    → span set (h ++ c ∷ r) ≡ length h
unfolding span
span-append set [] c r p q = rw q
span-append set (x ∷ h) c r p q = ground (arith, span-append set h c r)

at-drop : (s : List ℕ) (n c : ℕ) → at s n ≡ c → c ≢ 0 → drop n s ≡ c ∷ drop (suc n) s
at-drop [] n c e h = absurd (h (sym e))
at-drop (x ∷ s) zero c e h = ap (λ y. y ∷ s) e
at-drop (x ∷ s) (suc n) c e h = at-drop s n c e h

span_le : (set : ℕ → Bool) (s : List ℕ) → span set s ≤ length s
unfolding span
span_le set [] = omega arith
span_le set (c ∷ s) = ground (arith, span_le set s)

-- A word and what follows it
leading :
    (set : ℕ → Bool) (s : List ℕ) (c : ℕ)
    → c ≢ 0
    → 0 < span set s
    → at s (span set s) ≡ c
    → (h : List ℕ) × IsWord set h × (s ≡ h ++ c ∷ drop (suc (span set s)) s)
leading set s c z n e = (
  take (span set s) s,
  (omega (arith, length-take (span set s) s, span_le set s), all-take set s),
  sym (take-append-drop (span set s) s) ∙ ap (λ t. take (span set s) s ++ t) (at-drop s _ c e z),
)

at-append : (h : List ℕ) (c : ℕ) (r : List ℕ) → at (h ++ c ∷ r) (length h) ≡ c
at-append [] c r = refl
at-append (x ∷ h) c r = at-append h c r

drop-append : (h : List ℕ) (c : ℕ) (r : List ℕ) → drop (suc (length h)) (h ++ c ∷ r) ≡ r
drop-append [] c r = refl
drop-append (x ∷ h) c r = drop-append h c r

has_host-IsWord : (h rest : List ℕ) → IsWord is_host_char h → has_host (h ++ 58 ∷ rest) ≡ true
unfolding has_host
has_host-IsWord h rest (l, w) =
    ground (arith, span-append is_host_char h 58 rest w refl, at-append h 58 rest)

has_host_inv :
    (s : List ℕ) → has_host s ≡ true → (0 < span is_host_char s) × (at s (span is_host_char s) ≡ 58)
unfolding has_host
has_host_inv s e = ground arith

-- `ca_is_ssh_path` in what it asks of the text
abbrev ssh_test : Bool → ℕ → ℕ → Bool → Bool
ssh_test definite n c host =
    if definite then false else if n == 0 then false else if c == 64 then host else c == 58

ssh_test_lem :
    (s : List ℕ)
    → is_ssh_path s
      ≡ ssh_test
          (is_definitely_path s)
          (span is_host_char s)
          (at s (span is_host_char s))
          (has_host (drop (suc (span is_host_char s)) s))
unfolding is_ssh_path
ssh_test_lem s = refl

ssh_test_inv :
    (d : Bool) (n c : ℕ) (host : Bool)
    → ssh_test d n c host ≡ true
    → (d ≡ false) × (0 < n) × ((c ≡ 58) ⊎ ((c ≡ 64) × (host ≡ true)))
ssh_test_inv d n c host e = ground arith

-- `span` stops before a character that is not of the set.
accept :
    (h : List ℕ) (c : ℕ) (r : List ℕ)
    → is_definitely_path (h ++ c ∷ r) ≡ false
    → IsWord is_host_char h
    → is_host_char c ≡ false
    → is_ssh_path (h ++ c ∷ r) ≡ ssh_test false (length h) c (has_host r)
accept h c r d (l, w) q =
    ssh_test_lem (h ++ c ∷ r)
    ∙ ap
        (λ n.
          ssh_test (is_definitely_path (h ++ c ∷ r)) n (at (h ++ c ∷ r) n)
            (has_host (drop (suc n) (h ++ c ∷ r))))
        (span-append is_host_char h c r w q)
    ∙ rw (d, at-append h c r, drop-append h c r)

accept_host : (n : ℕ) (b : Bool) → 0 < n → ssh_test false n 58 b ≡ true
accept_host n b l = ground arith

accept_user : (n : ℕ) → 0 < n → ssh_test false n 64 true ≡ true
accept_user n l = ground arith

is_ssh_path-IsSsh : (s : List ℕ) → is_definitely_path s ≡ false → IsSsh s → is_ssh_path s ≡ true
is_ssh_path-IsSsh s d (of_host h rest w e) =
    ap is_ssh_path e
    ∙ accept h 58 rest (ap is_definitely_path (sym e) ∙ d) w refl
    ∙ accept_host (length h) (has_host rest) (w.0)
is_ssh_path-IsSsh s d (of_user u h rest w v e) =
    ap is_ssh_path e
    ∙ accept u 64 (h ++ 58 ∷ rest) (ap is_definitely_path (sym e) ∙ d) w refl
    ∙ ap (ssh_test false (length u) 64) (has_host-IsWord h rest v)
    ∙ accept_user (length u) (w.0)

assembled :
    (s : List ℕ)
    → 0 < span is_host_char s
    → (at s (span is_host_char s) ≡ 58)
      ⊎ ((at s (span is_host_char s) ≡ 64) × (has_host (drop (suc (span is_host_char s)) s) ≡ true))
    → IsSsh s
assembled s l (inl e) =
    let (h, w, q) = leading is_host_char s 58 (ground arith) l e in of_host h _ w q
assembled s l (inr (e, host)) =
    let t = drop (suc (span is_host_char s)) s in
    let (u, w, q) = leading is_host_char s 64 (ground arith) l e in
    let (l', e') = has_host_inv t host in
    let (h, v, q') = leading is_host_char t 58 (ground arith) l' e' in
    of_user u h _ w v (q ∙ ap (λ r. u ++ 64 ∷ r) q')

-- The texts that `ca_is_ssh_path` accepts are those that are no definite path and have the form of an ssh location.
pub is_ssh_path_iff :
    (s : List ℕ) → (is_ssh_path s ≡ true) ↔ ((is_definitely_path s ≡ false) × IsSsh s)
is_ssh_path_iff s = (to, λ x. is_ssh_path-IsSsh s (x.0) (x.1))
  where
    to : is_ssh_path s ≡ true → (is_definitely_path s ≡ false) × IsSsh s
    to e = let (d, l, c) = ssh_test_inv _ _ _ _ (sym (ssh_test_lem s) ∙ e) in (d, assembled s l c)
