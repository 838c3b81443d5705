-- ===== src/Go/Strings/Separators.antt =====
-- Where the parts of a text do not hold its separator, they can be read back.
use stellar_extract.Prelude.{ℕ, ◌≡◌, ◌≢◌, [], ◌∷◌, ◌++◌, arith, Text, All}

abbrev pub Lacks : ℕ → Text → Type 0
Lacks b = All (λ c. c ≢ b)

not_in : (b : ℕ) (x a y : Text) → Lacks b x → x ≢ a ++ (b ∷ y)
not_in b [] [] y h = λ e. ground arith
not_in b [] (c ∷ a) y h = λ e. ground arith
not_in b (d ∷ x) [] y h = λ e. ground arith
not_in b (d ∷ x) (c ∷ a) y h = λ e. ground (arith, not_in b x a y h.1)

-- Neither left part holds the separator.
pub split_first :
    (b : ℕ) (a a' x x' : Text)
    → Lacks b a
    → Lacks b a'
    → a ++ (b ∷ x) ≡ a' ++ (b ∷ x')
    → (a ≡ a') × (x ≡ x')
split_first b [] [] x x' h h' e = ground arith
split_first b [] (c ∷ a') x x' h h' e = ground arith
split_first b (c ∷ a) [] x x' h h' e = ground arith
split_first b (c ∷ a) (c' ∷ a') x x' h h' e = ground (arith, split_first b a a' x x' h.1 h'.1)

-- Neither right part holds the separator.
pub split_last :
    (b : ℕ) (a a' x x' : Text)
    → Lacks b x
    → Lacks b x'
    → a ++ (b ∷ x) ≡ a' ++ (b ∷ x')
    → (a ≡ a') × (x ≡ x')
split_last b [] [] x x' h h' e = ground arith
split_last b [] (c ∷ a') x x' h h' e = ground (arith, not_in b x a' x' h)
split_last b (c ∷ a) [] x x' h h' e = ground (arith, not_in b x' a x h')
split_last b (c ∷ a) (c' ∷ a') x x' h h' e = ground (arith, split_last b a a' x x' h h')
