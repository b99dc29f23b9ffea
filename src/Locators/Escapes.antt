-- ===== src/Locators/Escapes.antt =====
-- The escapes of file:// URLs, `ca_strip_file_url` of src/cautil.c. What the code writes for "%00" ends the text for those
-- who read it; the model keeps what follows.
use casync.Prelude.{
  ℕ, ◌+◌, ◌*◌, ◌<◌, ◌≡◌, ◌≢◌, refl, ap, ◌∙◌, none, some, List, [], ◌∷◌, ◌++◌, arith, bit_or_fields,
}
use casync.Locators.{hex_char, escaped, unescape, strip_file_url, file_prefix, localhost_prefix}

-- A text in which characters other than "%" may stand for themselves, and any for two digits behind "%"
pub data Encodes : List ℕ → List ℕ → Type 0 where
  nothing : Encodes [] []
  plain : (c : ℕ) {s t : List ℕ} → c ≢ 37 → Encodes s t → Encodes (c ∷ s) (c ∷ t)
  quoted :
      (d e x y : ℕ) {s t : List ℕ}
      → hex_char d ≡ some x
      → hex_char e ≡ some y
      → Encodes s t
      → Encodes (37 ∷ d ∷ e ∷ s) ((x * 16 + y) ∷ t)

hex_char_fits : (c x : ℕ) → hex_char c ≡ some x → x < 16
unfolding hex_char
hex_char_fits c x e = ground arith

escaped-plain : (c d e : ℕ) → c ≢ 37 → escaped c d e ≡ none
unfolding escaped
escaped-plain c d e h = ground arith

escaped-quoted :
    (d e x y : ℕ) → hex_char d ≡ some x → hex_char e ≡ some y → escaped 37 d e ≡ some (x * 16 + y)
unfolding escaped
escaped-quoted d e x y p q = ground (
  arith,
  p,
  q,
  bit_or_fields 4 x y (hex_char_fits e y q),
  hex_char_fits d x p,
  hex_char_fits e y q,
)

unescape-plain : (c : ℕ) (s : List ℕ) → c ≢ 37 → unescape (c ∷ s) ≡ c ∷ unescape s
unfolding unescape
unescape-plain c [] h = refl
unescape-plain c (d ∷ []) h = refl
unescape-plain c (d ∷ e ∷ f) h = rw (unescape, escaped-plain c d e h)

unescape-quoted :
    (d e x : ℕ) (s : List ℕ) → escaped 37 d e ≡ some x → unescape (37 ∷ d ∷ e ∷ s) ≡ x ∷ unescape s
unfolding unescape
unescape-quoted d e x s h = rw (unescape, h)

pub unescape-Encodes : {s t : List ℕ} → Encodes s t → unescape s ≡ t
unfolding unescape
unescape-Encodes nothing = refl
unescape-Encodes (plain c h rest) = unescape-plain c _ h ∙ ap (λ u. c ∷ u) (unescape-Encodes rest)
unescape-Encodes (quoted d e x y p q rest) =
    unescape-quoted d e (x * 16 + y) _ (escaped-quoted d e x y p q)
    ∙ ap (λ u. (x * 16 + y) ∷ u) (unescape-Encodes rest)

-- Behind "file://" or "file://localhost", what encodes an absolute path becomes that path.
pub strip_file_url-Encodes :
    {s t : List ℕ}
    → Encodes s t
    → (strip_file_url (file_prefix ++ 47 ∷ s) ≡ 47 ∷ t)
      × (strip_file_url (file_prefix ++ localhost_prefix ++ s) ≡ 47 ∷ t)
unfolding strip_file_url
strip_file_url-Encodes {s} {t} h = (slash, slash)
  where
    slash : unescape (47 ∷ s) ≡ 47 ∷ t
    slash = unescape-plain 47 s (ground arith) ∙ ap (λ u. 47 ∷ u) (unescape-Encodes h)
