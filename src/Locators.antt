-- ===== src/Locators.antt =====
-- src/cautil.c: what a text that names a store, an index or an archive stands for, and names of extended attributes. A text
-- is the list of its characters without the NUL at its end, which is read as 0. strdup() and malloc() succeed.
pub mod Grammar
pub mod Escapes
mod Tests
use casync.Prelude.{
  ℕ, zero, suc, ◌+◌, ◌-◌, ◌*◌, ◌%◌, Bool, true, false, not, ◌&&◌, ◌||◌, Option, none, some, List,
  [], ◌∷◌, ◌++◌, if◌then◌else◌, ltb, leb, ◌==◌, bit_or, take, drop, length, get_or,
}
use casync.Remote.Queue.{starts_with}

-- `s[i]`
abbrev pub at : List ℕ → ℕ → ℕ
at s i = get_or s i 0

abbrev in_range : ℕ → ℕ → ℕ → Bool
in_range low high c = leb low c && leb c high

-- The characters of URL_PROTOCOL_CHARSET, HOSTNAME_CHARSET, and the latter with "@:[]"
abbrev is_protocol_char : ℕ → Bool
is_protocol_char c = in_range 97 122 c || in_range 48 57 c || (c == 43) || (c == 46) || (c == 45)

abbrev pub is_host_char : ℕ → Bool
is_host_char c =
    in_range 97 122 c || in_range 65 90 c || in_range 48 57 c || (c == 45) || (c == 95) || (c == 46)

abbrev is_authority_char : ℕ → Bool
is_authority_char c = is_host_char c || (c == 64) || (c == 58) || (c == 91) || (c == 93)

-- `strspn`
unfoldable pub span : (ℕ → Bool) → List ℕ → ℕ
span set [] = 0
span set (c ∷ s) = if set c then suc (span set s) else 0

-- `ca_is_definitely_path`
unfoldable pub is_definitely_path : List ℕ → Bool
is_definitely_path s =
    (at s 0 == 47)
    || ((at s 0 == 46) && ((at s 1 == 0) || (at s 1 == 47) || ((at s 1 == 46) && (at s 2 == 0))))

-- The end of `ca_is_url`, behind "://"
unfoldable has_authority : List ℕ → Bool
unfolding span
has_authority e =
    let k = span is_authority_char e in not (k == 0) && ((at e k == 47) || (at e k == 0))

abbrev after_scheme : Option (List ℕ) → Bool
after_scheme none = false
after_scheme (some e) = has_authority e

-- `ca_is_url`. strchr() finds the NUL too; the code then reads behind the end of an empty text, where there is nothing
-- in the model.
unfoldable pub is_url : List ℕ → Bool
unfolding is_definitely_path has_authority span starts_with
is_url s =
    if is_definitely_path s
    then false
    else if not ((at s 0 == 0) || in_range 97 122 (at s 0))
    then false
    else after_scheme
        (starts_with (drop (1 + span is_protocol_char (drop 1 s)) s) (58 ∷ 47 ∷ 47 ∷ []))

-- The part of `ca_is_ssh_path` behind a user name and "@"
unfoldable pub has_host : List ℕ → Bool
unfolding span
has_host s = let k = span is_host_char s in not (k == 0) && (at s k == 58)

-- `ca_is_ssh_path`
unfoldable pub is_ssh_path : List ℕ → Bool
unfolding is_definitely_path has_host
is_ssh_path s =
    let n = span is_host_char s in
    if is_definitely_path s
    then false
    else if n == 0
    then false
    else if at s n == 64
    then has_host (drop (suc n) s)
    else at s n == 58

-- `CaLocatorClass`; `invalid` is _CA_LOCATOR_CLASS_INVALID.
pub data LocatorClass : Type 0 where
  path ssh url invalid : LocatorClass

-- `ca_classify_locator`
unfoldable pub classify_locator : List ℕ → LocatorClass
unfolding is_url is_ssh_path
classify_locator s =
    if at s 0 == 0 then invalid else if is_url s then url else if is_ssh_path s then ssh else path

-- `unhexchar`
unfoldable pub hex_char : ℕ → Option ℕ
hex_char c =
    if in_range 48 57 c
    then some (c - 48)
    else if in_range 97 102 c
    then some (c - 97 + 10)
    else if in_range 65 70 c
    then some (c - 65 + 10)
    else none

abbrev joined_digits : Option ℕ → Option ℕ → Option ℕ
joined_digits none b = none
joined_digits (some a) none = none
joined_digits (some a) (some b) = some (bit_or (a * 16) b % 256)

-- The character that "%" and two digits stand for
unfoldable pub escaped : ℕ → ℕ → ℕ → Option ℕ
unfolding hex_char
escaped c d e = if c == 37 then joined_digits (hex_char d) (hex_char e) else none

-- The loop of `ca_strip_file_url`
unfoldable pub unescape : List ℕ → List ℕ
unfolding escaped
unescape [] = []
unescape (c ∷ []) = c ∷ []
unescape (c ∷ d ∷ []) = c ∷ d ∷ []
unescape (c ∷ d ∷ e ∷ f) = elim (escaped c d e) [
  | some x ↦ x ∷ unescape f
  | none ↦ c ∷ unescape (d ∷ e ∷ f)
]

-- "file://", "localhost/"
abbrev pub file_prefix : List ℕ
file_prefix = 102 ∷ 105 ∷ 108 ∷ 101 ∷ 58 ∷ 47 ∷ 47 ∷ []

abbrev pub localhost_prefix : List ℕ
localhost_prefix = 108 ∷ 111 ∷ 99 ∷ 97 ∷ 108 ∷ 104 ∷ 111 ∷ 115 ∷ 116 ∷ 47 ∷ []

abbrev strip_localhost : List ℕ → Option (List ℕ) → List ℕ
strip_localhost p none = p
strip_localhost p (some e) = unescape (47 ∷ e)

abbrev strip_file : List ℕ → Option (List ℕ) → List ℕ
strip_file p none = p
strip_file p (some e) =
    if at e 0 == 47 then unescape e else strip_localhost p (starts_with e localhost_prefix)

-- `ca_strip_file_url`
unfoldable pub strip_file_url : List ℕ → List ℕ
unfolding unescape starts_with
strip_file_url p = strip_file p (starts_with p file_prefix)

-- Where a character stands last, or first
unfoldable last_of : ℕ → List ℕ → Option ℕ
last_of c [] = none
last_of c (d ∷ s) = elim (last_of c s) [
  | some i ↦ some (suc i)
  | none ↦ if d == c then some 0 else none
]

abbrev same_text : List ℕ → List ℕ → Bool
same_text [] [] = true
same_text (x ∷ xs) (y ∷ ys) = (x == y) && same_text xs ys
same_text _ _ = false

-- `endswith`: where the suffix begins
unfoldable ends_with : List ℕ → List ℕ → Option ℕ
ends_with p suffix =
    if ltb (length p) (length suffix)
    then none
    else if same_text (drop (length p - length suffix) p) suffix
    then some (length p - length suffix)
    else none

abbrev or_else : Option ℕ → ℕ → ℕ
or_else none d = d
or_else (some i) d = i

-- The place in a URL up to which a suffix is looked for
abbrev url_end : List ℕ → ℕ
url_end p = or_else (last_of 63 p) (or_else (last_of 59 p) (length p))

abbrev file_name : List ℕ → List ℕ
file_name p = elim (last_of 47 p) [ some i ↦ drop (suc i) p | none ↦ p ]

abbrev is_past_start : Option ℕ → Bool
is_past_start none = false
is_past_start (some q) = not (q == 0)

-- `ca_locator_has_suffix`
unfoldable pub locator_has_suffix : List ℕ → List ℕ → Bool
unfolding is_url last_of ends_with
locator_has_suffix p suffix =
    if at suffix 0 == 0
    then true
    else if at p 0 == 0
    then false
    else if is_url p
    then leb (length suffix) (url_end p)
      && same_text (take (length suffix) (drop (url_end p - length suffix) p)) suffix
    else is_past_start (ends_with (file_name p) suffix)

-- `strchr`
unfoldable first_of : ℕ → List ℕ → Option ℕ
first_of c [] = none
first_of c (d ∷ s) =
    let rest = first_of c s in
    if d == c then some 0 else elim rest [ some i ↦ some (suc i) | none ↦ none ]

-- `ca_xattr_name_is_valid`
unfoldable xattr_name_is_valid : List ℕ → Bool
unfolding first_of
xattr_name_is_valid s = if at s 0 == 0 then false else elim (first_of 46 s) [
  | none ↦ false
  | some dot ↦ not (dot == 0) && not (at s (dot + 1) == 0) && leb (length s) 255
]

abbrev is_found : {A : Type 0} → Option A → Bool
is_found none = false
is_found (some a) = true

-- `ca_xattr_name_store`: names that begin with "user." or "trusted."
unfoldable pub xattr_name_store : List ℕ → Bool
unfolding xattr_name_is_valid starts_with
xattr_name_store name =
    xattr_name_is_valid name
    && (is_found (starts_with name (117 ∷ 115 ∷ 101 ∷ 114 ∷ 46 ∷ []))
        || is_found (starts_with name (116 ∷ 114 ∷ 117 ∷ 115 ∷ 116 ∷ 101 ∷ 100 ∷ 46 ∷ [])))
