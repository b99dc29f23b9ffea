-- ===== src/Locators/Tests.antt =====
-- The theorems on src/cautil.c at texts
use casync.Prelude.{◌≡◌, ◌↔◌, ℕ, refl, true, false, List, [], ◌∷◌, ◌++◌, arith}
use casync.Locators.{
  hex_char, is_url, is_ssh_path, is_definitely_path, strip_file_url, file_prefix, localhost_prefix,
  url, ssh, path, classify_locator, locator_has_suffix, xattr_name_store,
}
use casync.Locators.Grammar.{IsSsh, is_ssh_path_iff}
use casync.Locators.Escapes.{Encodes, nothing, plain, quoted, strip_file_url-Encodes}

-- "me@host:/a"
abbrev remote_text : List ℕ
remote_text = 109 ∷ 101 ∷ 64 ∷ 104 ∷ 111 ∷ 115 ∷ 116 ∷ 58 ∷ 47 ∷ 97 ∷ []

is_ssh_path_example :
    (is_ssh_path remote_text ≡ true)
    ↔ ((is_definitely_path remote_text ≡ false) × IsSsh remote_text)
is_ssh_path_example = is_ssh_path_iff remote_text

-- "a%20b" is "a b".
quoted_text : Encodes (97 ∷ 37 ∷ 50 ∷ 48 ∷ 98 ∷ []) (97 ∷ 32 ∷ 98 ∷ [])
unfolding hex_char
quoted_text = plain 97 (ground arith) (quoted 50 48 2 0 refl refl (plain 98 (ground arith) nothing))

strip_file_url_example :
    (strip_file_url (file_prefix ++ 47 ∷ 97 ∷ 37 ∷ 50 ∷ 48 ∷ 98 ∷ []) ≡ 47 ∷ 97 ∷ 32 ∷ 98 ∷ [])
    × (strip_file_url (file_prefix ++ localhost_prefix ++ 97 ∷ 37 ∷ 50 ∷ 48 ∷ 98 ∷ [])
        ≡ 47 ∷ 97 ∷ 32 ∷ 98 ∷ [])
strip_file_url_example = strip_file_url-Encodes quoted_text

-- "https://a/b.caidx?x"
abbrev url_text : List ℕ
url_text =
    104 ∷ 116 ∷ 116 ∷ 112 ∷ 115 ∷ 58 ∷ 47 ∷ 47 ∷ 97 ∷ 47 ∷ 98 ∷ 46 ∷ 99 ∷ 97 ∷ 105 ∷ 100 ∷ 120 ∷ 63
    ∷ 120 ∷ []

classes :
    (classify_locator url_text ≡ url)
    × (classify_locator remote_text ≡ ssh)
    × (classify_locator (46 ∷ 47 ∷ remote_text) ≡ path)
unfolding classify_locator is_url is_ssh_path
classes = (refl, refl, refl)

-- The suffix ".caidx" is looked for before the "?"; a name that is the suffix alone has it not.
suffixes :
    (locator_has_suffix url_text (46 ∷ 99 ∷ 97 ∷ 105 ∷ 100 ∷ 120 ∷ []) ≡ true)
    × (locator_has_suffix (47 ∷ 46 ∷ 99 ∷ []) (46 ∷ 99 ∷ []) ≡ false)
    × (locator_has_suffix (97 ∷ 46 ∷ 99 ∷ []) (46 ∷ 99 ∷ []) ≡ true)
unfolding locator_has_suffix
suffixes = (refl, refl, refl)

-- "user.a" is kept, "security.a" and "user." are not.
stored :
    (xattr_name_store (117 ∷ 115 ∷ 101 ∷ 114 ∷ 46 ∷ 97 ∷ []) ≡ true)
    × (xattr_name_store (115 ∷ 101 ∷ 99 ∷ 46 ∷ 97 ∷ []) ≡ false)
    × (xattr_name_store (117 ∷ 115 ∷ 101 ∷ 114 ∷ 46 ∷ []) ≡ false)
unfolding xattr_name_store
stored = (refl, refl, refl)
