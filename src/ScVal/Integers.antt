-- ===== src/ScVal/Integers.antt =====
-- scval_converter.go: the 128- and 256-bit integers.
pub mod Exact
use stellar_extract.Prelude.{ℕ, suc, ◌+◌, ◌-◌, ◌*◌, ◌^◌, ◌++◌, Bool, leb, if◌then◌else◌, Text}
use stellar_extract.Go.Ints.{ℤ, pos, negsuc, ◌+ℤ◌, sub_ℕ, shift_left}
use stellar_extract.Go.Strings.{decimal_int, hex16}
use stellar_extract.Xdr.Values.{Parts128, Parts256}

-- `uint64(v)` of an int64: its bit pattern
abbrev pub to_u64 : ℤ → ℕ
to_u64 (pos n) = n
to_u64 (negsuc n) = 2 ^ 64 - 1 - n

-- the test of the sign bit and the subtraction of 2^64 behind it
unfoldable pub sign_extend : ℕ → ℤ
sign_extend hi = if leb (2 ^ 63) hi then sub_ℕ hi (2 ^ 64) else pos hi

unfoldable pub uint128_to_string : Parts128 ℕ → Text
unfolding shift_left ◌+ℤ◌
uint128_to_string val = decimal_int (shift_left (pos val.hi) 64 +ℤ pos val.lo)

unfoldable pub int128_to_string : Parts128 ℤ → Text
unfolding shift_left ◌+ℤ◌ sign_extend
int128_to_string val = decimal_int (shift_left (sign_extend (to_u64 val.hi)) 64 +ℤ pos val.lo)

-- the sum that `uint256ToString` and `int256ToString` build from `result = 0`
sum_256 : ℤ → ℕ → ℕ → ℕ → ℤ
unfolding shift_left ◌+ℤ◌
sum_256 hi_hi hi_lo lo_hi lo_lo =
    pos 0
    +ℤ shift_left hi_hi 192
    +ℤ shift_left (pos hi_lo) 128
    +ℤ shift_left (pos lo_hi) 64
    +ℤ pos lo_lo

unfoldable pub uint256_to_string : Parts256 ℕ → Text
unfolding sum_256
uint256_to_string val = decimal_int (sum_256 (pos val.hi_hi) val.hi_lo val.lo_hi val.lo_lo)

unfoldable pub int256_to_string : Parts256 ℤ → Text
unfolding sum_256 sign_extend
int256_to_string val =
    decimal_int (sum_256 (sign_extend (to_u64 val.hi_hi)) val.hi_lo val.lo_hi val.lo_lo)

unfoldable pub uint256_to_hex : Parts256 ℕ → Text
unfolding hex16
uint256_to_hex val = hex16 val.hi_hi ++ (hex16 val.hi_lo ++ (hex16 val.lo_hi ++ hex16 val.lo_lo))

unfoldable pub int256_to_hex : Parts256 ℤ → Text
unfolding hex16
int256_to_hex val =
    hex16 (to_u64 val.hi_hi) ++ (hex16 val.hi_lo ++ (hex16 val.lo_hi ++ hex16 val.lo_lo))
