-- ===== src/Go/Ints.antt =====
-- Signed integers: Go's int32 and int64 values, and `math/big`.
use stellar_extract.Prelude.{
  ℕ, suc, ◌+◌, ◌-◌, ◌*◌, ◌%◌, ◌^◌, ◌≡◌, Bool, true, false, leb, ltb, if◌then◌else◌, arith, Ordered,
}

-- `negsuc n` is -(n + 1).
pub data ℤ : Type 0 where
  pos : ℕ → ℤ
  negsuc : ℕ → ℤ

abbrev pub pos_part : ℤ → ℕ
pos_part (pos n) = n
pos_part (negsuc n) = 0

abbrev pub neg_part : ℤ → ℕ
neg_part (pos n) = 0
neg_part (negsuc n) = suc n

-- a - b, as an integer.
abbrev pub sub_ℕ : ℕ → ℕ → ℤ
sub_ℕ a b = if leb b a then pos (a - b) else negsuc (b - a - 1)

-- `int32(n)` of a uint32
abbrev pub to_i32 : ℕ → ℤ
to_i32 n = if ltb n (2 ^ 31) then pos n else sub_ℕ n (2 ^ 32)

-- The int64 with these 64 bits.
abbrev pub to_i64 : ℕ → ℤ
to_i64 n = if ltb n (2 ^ 63) then pos n else sub_ℕ n (2 ^ 64)

-- `int32(v)` of an int64
abbrev pub int64_to_i32 : ℤ → ℤ
int64_to_i32 (pos n) = to_i32 (n % 2 ^ 32)
int64_to_i32 (negsuc n) = to_i32 (2 ^ 32 - 1 - n % 2 ^ 32)

infixl 65 ◌+ℤ◌
unfoldable pub ◌+ℤ◌ : ℤ → ℤ → ℤ
a +ℤ b = sub_ℕ (pos_part a + pos_part b) (neg_part a + neg_part b)

-- `big.Int.Lsh`
unfoldable pub shift_left : ℤ → ℕ → ℤ
shift_left (pos n) k = pos (n * 2 ^ k)
shift_left (negsuc n) k = negsuc (suc n * 2 ^ k - 1)

pub eq_of_parts : (a b : ℤ) → pos_part a + neg_part b ≡ pos_part b + neg_part a → a ≡ b
eq_of_parts a b h = ground arith

abbrev pub int_lt : ℤ → ℤ → Bool
int_lt a b = ltb (pos_part a + neg_part b) (pos_part b + neg_part a)

pub int_lt_irrefl : (a : ℤ) → int_lt a a ≡ false
int_lt_irrefl a = ground arith

pub int_lt_trans : (a b c : ℤ) → int_lt a b ≡ true → int_lt b c ≡ true → int_lt a c ≡ true
int_lt_trans a b c h k = ground arith

pub int_lt_total : (a b : ℤ) → int_lt a b ≡ false → int_lt b a ≡ false → a ≡ b
int_lt_total a b h k = ground arith

instance abbrev pub int_ordered : Ordered ℤ
int_ordered = record {
  lt = int_lt;
  lt_irrefl = int_lt_irrefl;
  lt_trans = int_lt_trans;
  lt_total = int_lt_total;
}
