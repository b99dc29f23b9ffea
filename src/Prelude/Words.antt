-- ===== src/Prelude/Words.antt =====
-- The fixed widths of C on native numbers, and the inline helpers of src/util.h that work on them.
use Prim.Native.Nat.{ℕ, ◌+◌, ◌-◌, ◌*◌, ◌/◌, ◌%◌, ◌^◌, bit_and, bit_or}

-- A cast to uint32_t, and to size_t or uint64_t.
abbrev pub wrap32 : ℕ → ℕ
wrap32 n = n % 4294967296

abbrev pub wrap64 : ℕ → ℕ
wrap64 n = n % 18446744073709551616

-- UINT64_MAX, SIZE_MAX
abbrev pub max64 : ℕ
max64 = 18446744073709551615

-- ~x on uint64_t
abbrev pub not64 : ℕ → ℕ
not64 x = max64 - x

-- rol32(). At a multiple of 32 the right shift is by the whole width; its result is ORed with the
-- word itself, so a shift that gives 0 and one that gives the word agree.
unfoldable pub rol32 : ℕ → ℕ → ℕ
rol32 x i = bit_or (wrap32 (x * 2 ^ (i % 32))) (x / 2 ^ (32 - i % 32))

-- ALIGN_TO()
unfoldable pub align_to : ℕ → ℕ → ℕ
align_to l ali = bit_and (wrap64 (wrap64 (l + ali) + 18446744073709551616 - 1)) (not64 (ali - 1))
