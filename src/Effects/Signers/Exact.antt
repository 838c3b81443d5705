-- ===== src/Effects/Signers/Exact.antt =====
-- No signer effect is idle, and together they are the change.
use stellar_extract.Prelude.{
  ◌≡◌, ◌≢◌, refl, sym, ◌∙◌, true, Option, List, [], ◌∷◌, ◌++◌, if◌then◌else◌, Text, text_ordered,
  is_some, arith, All, All-append, eq_refl, Bool-cases, inl, inr,
}
use stellar_extract.Go.Ints.{ℤ, int_ordered}
use stellar_extract.Go.Maps.{get}
use stellar_extract.Go.Slices.{contains}
use stellar_extract.Ordering.{sorted_set_keys}
use stellar_extract.Ordering.Rows.{contains-sorted_set_keys}
use stellar_extract.Effects.Signers.{
  SignerEffect, signer_removed, signer_updated, signer_created, SignerSummary, deep_equal, changed,
  changed_signers, created_signers, signer_effects,
}
use stellar_extract.Effects.Signers.Replay.{replay}
use stellar_extract.Effects.Signers.Replay.Whole.{signer_effects-replay}

abbrev pub signer_of : SignerEffect → Text
signer_of (signer_removed addy) = addy
signer_of (signer_updated addy w) = addy
signer_of (signer_created addy w) = addy

module _ (before after : SignerSummary) where
  -- The effect is about a signer whose weight is not the same before and after.
  abbrev pub IsRealChange : SignerEffect → Type 0
  IsRealChange e = get (signer_of e) before ≢ get (signer_of e) after

  changed-IsRealChange :
      (addy : Text)
      → is_some (get addy before) ≡ true
      → (o : Option ℤ) → get addy after ≡ o
      → All IsRealChange (changed before after addy o)
  changed-IsRealChange addy there x e = ground arith

  changed_signers-All :
      (ks : List Text)
      → ((k : Text) → contains k ks ≡ true → is_some (get k before) ≡ true)
      → All IsRealChange (changed_signers before after ks)
  unfolding changed_signers
  changed_signers-All [] held = tt
  changed_signers-All (k ∷ ks) held =
      All-append IsRealChange (changed before after k (get k after))
        (changed_signers before after ks)
        (changed-IsRealChange k (held k (ground (arith, eq_refl k))) (get k after) refl)
        (changed_signers-All ks (λ j c. held j (ground arith)))

  created_signers-All :
      (ks : List Text)
      → ((k : Text) → contains k ks ≡ true → is_some (get k after) ≡ true)
      → All IsRealChange (created_signers before after ks)
  unfolding created_signers
  created_signers-All [] held = tt
  created_signers-All (k ∷ ks) held =
      let later = created_signers-All ks (λ j c. held j (ground arith)) in
      let there : is_some (get k after) ≡ true = held k (ground (arith, eq_refl k)) in
      elim (Bool-cases (is_some (get k before))) [
        | inl old ↦ rw old later
        | inr new ↦ rw new ((λ same. cc (new, there, same)), later)
      ]

  -- Played back onto the signers from before a change, the signer effects of the change give the
  -- signers after it, each with its weight, and no effect is about a signer whose weight, or
  -- absence, is the same before and after.
  pub signer_effects_lem :
      ((k : Text) → replay (signer_effects before after) (λ j. get j before) k ≡ get k after)
      × All IsRealChange (signer_effects before after)
  signer_effects_lem = (signer_effects-replay before after, unfold signer_effects in real)
    where
      real : All IsRealChange (
          if deep_equal before after
          then []
          else changed_signers before after (sorted_set_keys before)
            ++ created_signers before after (sorted_set_keys after))
      real = elim (Bool-cases (deep_equal before after)) [
        | inl same ↦ rw same tt
        | inr other ↦ rw other (
            All-append IsRealChange (changed_signers before after (sorted_set_keys before)) _
              (changed_signers-All (sorted_set_keys before)
                (λ k c. sym (contains-sorted_set_keys k before) ∙ c))
              (created_signers-All (sorted_set_keys after)
                (λ k c. sym (contains-sorted_set_keys k after) ∙ c)))
      ]
