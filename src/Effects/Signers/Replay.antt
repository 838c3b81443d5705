-- ===== src/Effects/Signers/Replay.antt =====
-- The signer effects of a change say exactly how the signers changed.
pub mod Changed
pub mod Created
pub mod Whole
use stellar_extract.Prelude.{
  ◌≡◌, refl, sym, ◌∙◌, Bool, true, false, ◌&&◌, Option, none, some, List, [], ◌∷◌, ◌++◌,
  if◌then◌else◌, Text, text_ordered, ◌==◌, is_some, arith, eq→path, eq_refl, Bool-cases,
  Option-cases, inl, inr, ap,
}
use mathlib.Core.Path.{subst}
use stellar_extract.Go.Ints.{ℤ, int_ordered}
use stellar_extract.Go.Maps.{get}
use stellar_extract.Go.Slices.{contains}
use stellar_extract.Ordering.{sorted_set_keys}
use stellar_extract.Ordering.Rows.{contains-sorted_set_keys}
use stellar_extract.Effects.Signers.{
  SignerEffect, signer_removed, signer_updated, signer_created, SignerSummary, weight_or_zero,
  is_within, deep_equal, changed, changed_signers, created_signers, signer_effects,
}

-- The weight of each signer, or none.
abbrev pub Signers : Type 0
Signers = Text → Option ℤ

abbrev pub assign : Text → Option ℤ → Signers → Signers
assign addy w f k = if addy == k then w else f k

-- What an effect says of the signers.
abbrev pub replay_one : SignerEffect → Signers → Signers
replay_one (signer_removed addy) f = assign addy none f
replay_one (signer_updated addy w) f = assign addy (some w) f
replay_one (signer_created addy w) f = assign addy (some w) f

abbrev pub replay : List SignerEffect → Signers → Signers
replay [] f = f
replay (e ∷ es) f = replay es (replay_one e f)

pub replay-append :
    (xs ys : List SignerEffect) (f : Signers) → replay (xs ++ ys) f ≡ replay ys (replay xs f)
replay-append [] ys f = refl
replay-append (x ∷ xs) ys f = replay-append xs ys (replay_one x f)

pub assign_self : (k : Text) (w : Option ℤ) (f : Signers) → assign k w f k ≡ w
assign_self k w f = rw (eq_refl k) refl

pub assign_other :
    (addy k : Text) (w : Option ℤ) (f : Signers) → (addy == k) ≡ false → assign addy w f k ≡ f k
assign_other addy k w f ne = rw ne refl

pub weighs : (w : ℤ) (o : Option ℤ) → is_some o ≡ true → (w == weight_or_zero o) ≡ true → o ≡ some w
weighs w none h e = absurd (cc h)
weighs w (some v) h e = ap some (sym (eq→path w v e))
