-- ===== src/Go/Utf8.antt =====
-- unicode/utf8: `utf8.ValidString`.
use stellar_extract.Prelude.{
  ℕ, zero, suc, ◌≡◌, refl, Bool, true, false, ◌&&◌, [], ◌∷◌, if◌then◌else◌, Text, leb, ltb,
}

-- What a first byte asks for: how many bytes follow, and the range of the next one.
pub record Leader : Type 0 where
  pub is_leader : Bool
  pub more : ℕ
  pub low : ℕ
  pub high : ℕ

abbrev leader : ℕ → ℕ → ℕ → Leader
leader more low high = record { is_leader = true; more = more; low = low; high = high }

abbrev not_leader : Leader
not_leader = record { is_leader = false; more = 0; low = 0; high = 0 }

-- surrogates, overlong forms and numbers from 2 ^ 20 + 2 ^ 16 on are left out
leader_of : ℕ → Leader
leader_of c =
    if ltb c 128
    then leader 0 0 0
    else if ltb c 194
    then not_leader
    else if ltb c 224
    then leader 1 128 191
    else if ltb c 225
    then leader 2 160 191
    else if ltb c 237
    then leader 2 128 191
    else if ltb c 238
    then leader 2 128 159
    else if ltb c 240
    then leader 2 128 191
    else if ltb c 241
    then leader 3 144 191
    else if ltb c 244
    then leader 3 128 191
    else if ltb c 245
    then leader 3 128 143
    else not_leader

-- the rest of a string, where `more` bytes are due and the next one lies in a range
valid_from : ℕ → ℕ → ℕ → Text → Bool
unfolding leader_of
valid_from zero low high [] = true
valid_from (suc more) low high [] = false
valid_from zero low high (c ∷ s) =
    let l = leader_of c in l.is_leader && valid_from l.more l.low l.high s
valid_from (suc more) low high (c ∷ s) = leb low c && leb c high && valid_from more 128 191 s

unfoldable pub valid_string : Text → Bool
unfolding valid_from
valid_string s = valid_from 0 0 0 s

-- `é` is valid; half of it, a surrogate and an overlong slash are not.
accents : valid_string (195 ∷ 169 ∷ []) ≡ true
unfolding valid_string
accents = refl

halves : valid_string (195 ∷ []) ≡ false
unfolding valid_string
halves = refl

surrogates : valid_string (237 ∷ 160 ∷ 128 ∷ []) ≡ false
unfolding valid_string
surrogates = refl

overlong : valid_string (192 ∷ 175 ∷ []) ≡ false
unfolding valid_string
overlong = refl
