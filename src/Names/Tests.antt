-- ===== src/Names/Tests.antt =====
-- Runs of the names of src/caformat-util.c, and an instance of their theorem.
use casync.Prelude.{◌≡◌, refl, some, ok, err, enxio, bit_or}
use casync.Features.{with_flag_nocow, exclude_nodump}
use casync.Names.{type_name, find, parse_one, format_flags, format_rows}
use casync.Names.Lookup.{parse_one_found}

goodbye : type_name 16128336251540980739 ≡ some "goodbye"
unfolding type_name
goodbye = refl

no_such_name : parse_one "nocow" ≡ err enxio
unfolding parse_one find
no_such_name = refl

parse_one_found_example : parse_one "flag-nocow" ≡ ok with_flag_nocow
parse_one_found_example = parse_one_found 19 refl

-- The flags that exclude files have no names. The text is only what was added last.
one_name :
    format_flags (λ s separator name. some name) (bit_or with_flag_nocow exclude_nodump)
    ≡ ok (some "flag-nocow")
unfolding format_flags format_rows
one_name = refl
