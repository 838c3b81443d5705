-- ===== src/ScVal/Integers/Exact.antt =====
-- The decimal text of every 128- and 256-bit integer is that of the integer its parts stand for.
use stellar_extract.Prelude.{ℕ, ◌-◌, ◌/◌, ◌%◌, ◌^◌, ◌<◌, ◌≡◌, ap, arith}
use stellar_extract.Go.Ints.{ℤ, pos, negsuc}
use stellar_extract.Go.Strings.{decimal_int}
use stellar_extract.Xdr.Values.{Parts128, Parts256}
use stellar_extract.ScVal.Integers.{
  to_u64, sign_extend, uint128_to_string, int128_to_string, uint256_to_string, int256_to_string,
}

-- The parts of a two's complement number: an int64 and the uint64 words below it.
abbrev pub high : ℤ → ℕ → ℤ
high (pos n) k = pos (n / 2 ^ k)
high (negsuc n) k = negsuc (n / 2 ^ k)

abbrev pub word : ℤ → ℕ → ℕ
word (pos n) k = n / 2 ^ k % 2 ^ 64
word (negsuc n) k = 2 ^ 64 - 1 - n / 2 ^ k % 2 ^ 64

abbrev pub parts_128 : ℤ → Parts128 ℤ
parts_128 v = record { hi = high v 64; lo = word v 0 }

abbrev pub parts_u128 : ℕ → Parts128 ℕ
parts_u128 n = record { hi = n / 2 ^ 64; lo = n % 2 ^ 64 }

abbrev pub parts_256 : ℤ → Parts256 ℤ
parts_256 v = record { hi_hi = high v 192; hi_lo = word v 128; lo_hi = word v 64; lo_lo = word v 0 }

abbrev pub parts_u256 : ℕ → Parts256 ℕ
parts_u256 n = record {
  hi_hi = n / 2 ^ 192;
  hi_lo = n / 2 ^ 128 % 2 ^ 64;
  lo_hi = n / 2 ^ 64 % 2 ^ 64;
  lo_lo = n % 2 ^ 64;
}

-- `FitsSigned b v`: -2^b ≤ v < 2^b.
abbrev pub FitsSigned : ℕ → ℤ → Type 0
FitsSigned b (pos n) = n < 2 ^ b
FitsSigned b (negsuc n) = n < 2 ^ b

-- Through the bit pattern and back is the identity on int64.
pub sign_extend-to_u64 : (v : ℤ) → FitsSigned 63 v → sign_extend (to_u64 v) ≡ v
unfolding sign_extend
sign_extend-to_u64 (pos n) h = ground arith
sign_extend-to_u64 (negsuc n) h = ground arith

-- Every uint128 value, given by its two words, is printed exactly.
pub uint128_to_string-exact : (n : ℕ) → uint128_to_string (parts_u128 n) ≡ decimal_int (pos n)
unfolding uint128_to_string
uint128_to_string-exact n = ap decimal_int (ground arith)

-- Every int128 value, given by its two's complement words, is printed exactly.
pub int128_to_string-exact :
    (v : ℤ) → FitsSigned 127 v → int128_to_string (parts_128 v) ≡ decimal_int v
unfolding int128_to_string
int128_to_string-exact (pos n) h = ap decimal_int (ground arith)
int128_to_string-exact (negsuc n) h = ap decimal_int (ground arith)

-- Every uint256 value, given by its four words, is printed exactly.
pub uint256_to_string-exact : (n : ℕ) → uint256_to_string (parts_u256 n) ≡ decimal_int (pos n)
unfolding uint256_to_string
uint256_to_string-exact n = ap decimal_int (ground arith)

-- Every int256 value, given by its two's complement words, is printed exactly.
pub int256_to_string-exact :
    (v : ℤ) → FitsSigned 255 v → int256_to_string (parts_256 v) ≡ decimal_int v
unfolding int256_to_string
int256_to_string-exact (pos n) h = ap decimal_int (ground arith)
int256_to_string-exact (negsuc n) h = ap decimal_int (ground arith)
