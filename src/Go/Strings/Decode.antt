-- ===== src/Go/Strings/Decode.antt =====
-- Hexadecimal and base64 text can be read back.
use stellar_extract.Prelude.{
  ℕ, ◌+◌, ◌-◌, ◌*◌, ◌/◌, ◌%◌, ◌<◌, ◌≡◌, refl, false, [], ◌∷◌, Text, All, arith, ltb, leb,
  if◌then◌else◌, ◌==◌, nat_ordered,
}
use stellar_extract.Go.Strings.{hex_digit, hex_encode, base64_char, base64_encode}

abbrev pub AreBytes : Text → Type 0
AreBytes = All (λ c. c < 256)

abbrev hex_value : ℕ → ℕ
hex_value c = if leb b'a' c then c - b'a' + 10 else c - b'0'

hex_value-digit : (n : ℕ) → n < 16 → hex_value (hex_digit n) ≡ n
unfolding hex_digit
hex_value-digit n h = ground arith

abbrev pub hex_decode : Text → Text
hex_decode (x ∷ y ∷ s) = (hex_value x * 16 + hex_value y) ∷ hex_decode s
hex_decode _ = []

pub hex_decode-encode : (s : Text) → AreBytes s → hex_decode (hex_encode s) ≡ s
unfolding hex_encode
hex_decode-encode [] h = refl
hex_decode-encode (c ∷ s) (b, h) =
    let high = hex_value-digit (c / 16) (omega (arith, b)) in
    let low = hex_value-digit (c % 16) (omega arith) in
    let whole : c / 16 * 16 + c % 16 ≡ c = omega arith in
    rw (high, low, whole, hex_decode-encode s h) refl

abbrev base64_value : ℕ → ℕ
base64_value c =
    if leb b'a' c
    then c - b'a' + 26
    else if leb b'A' c
    then c - b'A'
    else if leb b'0' c
    then c - b'0' + 52
    else if ltb c b'/'
    then 62
    else 63

base64_value-char : (n : ℕ) → n < 64 → base64_value (base64_char n) ≡ n
unfolding base64_char
base64_value-char n h = ground arith

base64_char-ne-pad : (n : ℕ) → n < 64 → (base64_char n == b'=') ≡ false
unfolding base64_char
base64_char-ne-pad n h = ground arith

-- one, two or three bytes in front of the rest
abbrev pub base64_decode : Text → Text
base64_decode (w ∷ x ∷ y ∷ z ∷ s) =
    let rest = base64_decode s in
    let a = base64_value w * 4 + base64_value x / 16 in
    let b = base64_value x % 16 * 16 + base64_value y / 4 in
    let c = base64_value y % 4 * 64 + base64_value z in
    if y == b'=' then a ∷ [] else if z == b'=' then a ∷ b ∷ [] else a ∷ b ∷ c ∷ rest
base64_decode _ = []

pub base64_decode-encode : (s : Text) → AreBytes s → base64_decode (base64_encode s) ≡ s
unfolding base64_encode
base64_decode-encode [] h = refl
base64_decode-encode (a ∷ []) (ha, h) = ground arith
base64_decode-encode (a ∷ b ∷ []) (ha, (hb, h)) =
    let w = base64_value-char (a / 4) (omega (arith, ha)) in
    let x = base64_value-char (a % 4 * 16 + b / 16) (omega (arith, hb)) in
    let y = base64_value-char (b % 16 * 4) (omega arith) in
    let unpadded = base64_char-ne-pad (b % 16 * 4) (omega arith) in
    let first : a / 4 * 4 + (a % 4 * 16 + b / 16) / 16 ≡ a = omega (arith, hb) in
    let second : (a % 4 * 16 + b / 16) % 16 * 16 + b % 16 * 4 / 4 ≡ b = omega (arith, hb) in
    rw (unpadded, w, x, y, first, second) refl
base64_decode-encode (a ∷ b ∷ c ∷ s) (ha, (hb, (hc, h))) =
    let w = base64_value-char (a / 4) (omega (arith, ha)) in
    let x = base64_value-char (a % 4 * 16 + b / 16) (omega (arith, hb)) in
    let y = base64_value-char (b % 16 * 4 + c / 64) (omega (arith, hc)) in
    let z = base64_value-char (c % 64) (omega arith) in
    let y_unpadded = base64_char-ne-pad (b % 16 * 4 + c / 64) (omega (arith, hc)) in
    let z_unpadded = base64_char-ne-pad (c % 64) (omega arith) in
    let first : a / 4 * 4 + (a % 4 * 16 + b / 16) / 16 ≡ a = omega (arith, hb) in
    let second : (a % 4 * 16 + b / 16) % 16 * 16 + (b % 16 * 4 + c / 64) / 4 ≡ b =
      omega (arith, hb, hc) in
    let third : (b % 16 * 4 + c / 64) % 4 * 64 + c % 64 ≡ c = omega (arith, hc) in
    rw (y_unpadded, z_unpadded, w, x, y, z, first, second, third, base64_decode-encode s h) refl
