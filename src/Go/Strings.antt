-- ===== src/Go/Strings.antt =====
-- Go strings as byte lists: literals, decimal and hexadecimal text, base64.
pub mod Decimal
pub mod Decode
pub mod Separators
use Prim.Native.Char.{code}
use Prim.Native.String.{String}
use stellar_extract.Prelude.{
  ℕ, zero, suc, ◌+◌, ◌-◌, ◌*◌, ◌/◌, ◌%◌, ◌≡◌, refl, List, [], ◌∷◌, ◌++◌, ltb, if◌then◌else◌, Text,
}
use stellar_extract.Go.Ints.{ℤ, pos, negsuc}

-- The bytes of a literal that holds ASCII only.
abbrev pub codes : String → Text
codes String.[] = []
codes (String.◌∷◌ c s) = code c ∷ codes s

-- The digits of `n` in front of `out`; more fuel than `n` is always enough.
digits : ℕ → ℕ → Text → Text
digits zero n out = out
digits (suc f) n out =
    let rest = digits f (n / 10) ((b'0' + n % 10) ∷ out) in
    if ltb n 10 then (b'0' + n) ∷ out else rest

-- `%d` of a number that is not negative, `big.Int.String`, `strconv.FormatInt`
unfoldable pub decimal : ℕ → Text
unfolding digits
decimal n = digits (suc n) n []

-- the same, of any integer
unfoldable pub decimal_int : ℤ → Text
unfolding decimal
decimal_int (pos n) = decimal n
decimal_int (negsuc n) = b'-' ∷ decimal (n + 1)

hex_digit : ℕ → ℕ
hex_digit n = if ltb n 10 then b'0' + n else b'a' + (n - 10)

-- `hex.EncodeToString`
unfoldable pub hex_encode : Text → Text
unfolding hex_digit
hex_encode [] = []
hex_encode (c ∷ s) = hex_digit (c / 16) ∷ hex_digit (c % 16) ∷ hex_encode s

hex_digits : ℕ → ℕ → Text → Text
hex_digits zero n out = out
hex_digits (suc width) n out = hex_digits width (n / 16) (hex_digit (n % 16) ∷ out)

-- `%016x` of a uint64
unfoldable pub hex16 : ℕ → Text
unfolding hex_digits hex_digit
hex16 n = hex_digits 16 n []

base64_char : ℕ → ℕ
base64_char n =
    if ltb n 26
    then b'A' + n
    else if ltb n 52
    then b'a' + (n - 26)
    else if ltb n 62
    then b'0' + (n - 52)
    else if ltb n 63
    then b'+'
    else b'/'

-- `base64.StdEncoding.EncodeToString`
unfoldable pub base64_encode : Text → Text
unfolding base64_char
base64_encode [] = []
base64_encode (a ∷ []) = base64_char (a / 4) ∷ base64_char (a % 4 * 16) ∷ b'=' ∷ b'=' ∷ []
base64_encode (a ∷ b ∷ []) =
    base64_char (a / 4) ∷ base64_char (a % 4 * 16 + b / 16) ∷ base64_char (b % 16 * 4) ∷ b'=' ∷ []
base64_encode (a ∷ b ∷ c ∷ s) =
    base64_char (a / 4)
    ∷ base64_char (a % 4 * 16 + b / 16)
    ∷ base64_char (b % 16 * 4 + c / 64)
    ∷ base64_char (c % 64)
    ∷ base64_encode s

-- `strings.Join`, with one byte between the parts
unfoldable pub join : ℕ → List Text → Text
join sep [] = []
join sep (p ∷ []) = p
join sep (p ∷ q ∷ ps) = p ++ (sep ∷ join sep (q ∷ ps))

decimal_test :
    decimal 340282366920938463463374607431768211455
    ≡ codes "340282366920938463463374607431768211455"
unfolding decimal
decimal_test = refl

base64_test : base64_encode (codes "hello") ≡ codes "aGVsbG8="
unfolding base64_encode
base64_test = refl

hex_test : hex_encode (0 ∷ 255 ∷ 26 ∷ []) ≡ codes "00ff1a"
unfolding hex_encode
hex_test = refl
