-- ===== src/Prelude/Order.antt =====
-- Go's `cmp.Ordered`: a strict total order by a Boolean test, with the equality that goes with it.
use Prim.Native.Nat.{ℕ}
use mathlib.Core.Path.{◌≡◌, refl}
use mathlib.Core.Logic.{◌↔◌}
use mathlib.Core.Bool.{Bool, true, false, not, ◌&&◌, ◌||◌}
use mathlib.Core.List.{List, [], ◌∷◌}
use native.Mathlib.Omega.{arith}
use stellar_extract.Prelude.Tests.{ltb}

pub record Ordered (K : Type 0) : Type 0 where
  pub lt : K → K → Bool
  pub lt_irrefl : (a : K) → lt a a ≡ false
  pub lt_trans : (a b c : K) → lt a b ≡ true → lt b c ≡ true → lt a c ≡ true
  pub lt_total : (a b : K) → lt a b ≡ false → lt b a ≡ false → a ≡ b

-- `a < b` on Go's ordered types.
abbrev pub less : {K : Type 0} ⦃o : Ordered K⦄ → K → K → Bool
less ⦃o⦄ = o.lt

infix 50 ◌==◌
abbrev pub ◌==◌ : {K : Type 0} ⦃o : Ordered K⦄ → K → K → Bool
◌==◌ ⦃o⦄ a b = not (o.lt a b) && not (o.lt b a)

module _ {K : Type 0} ⦃o : Ordered K⦄ where
  pub eq_refl : (a : K) → (a == a) ≡ true
  eq_refl a = ground (arith, o.lt_irrefl a)

  pub eq→path : (a b : K) → (a == b) ≡ true → a ≡ b
  eq→path a b h = o.lt_total a b (ground arith) (ground arith)

  pub path→eq : (a b : K) → a ≡ b → (a == b) ≡ true
  path→eq a b h = ground (arith, eq_refl a)

  pub eq_iff : (a b : K) → ((a == b) ≡ true) ↔ (a ≡ b)
  eq_iff a b = (eq→path a b, path→eq a b)

  pub lt_asym : (a b : K) → o.lt a b ≡ true → o.lt b a ≡ false
  lt_asym a b h = ground (arith, o.lt_trans a b a h, o.lt_irrefl a)

pub ltb_irrefl : (a : ℕ) → ltb a a ≡ false
ltb_irrefl a = ground arith

pub ltb_trans : (a b c : ℕ) → ltb a b ≡ true → ltb b c ≡ true → ltb a c ≡ true
ltb_trans a b c h k = ground arith

pub ltb_total : (a b : ℕ) → ltb a b ≡ false → ltb b a ≡ false → a ≡ b
ltb_total a b h k = ground arith

instance abbrev pub nat_ordered : Ordered ℕ
nat_ordered = record {
  lt = ltb;
  lt_irrefl = ltb_irrefl;
  lt_trans = ltb_trans;
  lt_total = ltb_total;
}

-- Go's strings are byte sequences, compared byte by byte.
abbrev pub Text : Type 0
Text = List ℕ

abbrev pub text_lt : Text → Text → Bool
text_lt xs [] = false
text_lt [] (y ∷ ys) = true
text_lt (x ∷ xs) (y ∷ ys) = ltb x y || (not (ltb y x) && text_lt xs ys)

pub text_lt_irrefl : (a : Text) → text_lt a a ≡ false
text_lt_irrefl [] = refl
text_lt_irrefl (x ∷ xs) = ground (arith, text_lt_irrefl xs)

pub text_lt_trans : (a b c : Text) → text_lt a b ≡ true → text_lt b c ≡ true → text_lt a c ≡ true
text_lt_trans a b [] h k = k
text_lt_trans a [] (z ∷ zs) h k = ground arith
text_lt_trans [] (y ∷ ys) (z ∷ zs) h k = refl
text_lt_trans (x ∷ xs) (y ∷ ys) (z ∷ zs) h k = ground (arith, text_lt_trans xs ys zs)

pub text_lt_total : (a b : Text) → text_lt a b ≡ false → text_lt b a ≡ false → a ≡ b
text_lt_total [] [] h k = refl
text_lt_total [] (y ∷ ys) h k = ground arith
text_lt_total (x ∷ xs) [] h k = ground arith
text_lt_total (x ∷ xs) (y ∷ ys) h k = ground (arith, text_lt_total xs ys)

instance abbrev pub text_ordered : Ordered Text
text_ordered = record {
  lt = text_lt;
  lt_irrefl = text_lt_irrefl;
  lt_trans = text_lt_trans;
  lt_total = text_lt_total;
}
