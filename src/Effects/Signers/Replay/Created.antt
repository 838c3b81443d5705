-- ===== src/Effects/Signers/Replay/Created.antt =====
-- Playing back the creations.
use stellar_extract.Prelude.{
  ◌≡◌, refl, ◌∙◌, true, false, Option, none, some, List, [], ◌∷◌, if◌then◌else◌, Text, text_ordered,
  ◌==◌, is_some, arith, eq→path, eq_refl, Bool-cases, Option-cases, inl, inr,
}
use mathlib.Core.Path.{subst}
use stellar_extract.Go.Ints.{ℤ, int_ordered}
use stellar_extract.Go.Maps.{get}
use stellar_extract.Go.Slices.{contains}
use stellar_extract.Effects.Signers.{
  SignerEffect, signer_created, SignerSummary, weight_or_zero, created_signers,
}
use stellar_extract.Effects.Signers.Replay.{
  Signers, replay, replay-append, assign_self, assign_other,
}

module _ (before after : SignerSummary) where
  -- The second loop at one key: `created` is what it adds there.
  abbrev created : Text → List SignerEffect
  created addy =
      if is_some (get addy before)
      then []
      else signer_created addy (weight_or_zero (get addy after)) ∷ []

  some_weight : (o : Option ℤ) → is_some o ≡ true → some (weight_or_zero o) ≡ o
  some_weight none h = absurd (cc h)
  some_weight (some w) h = refl

  created_self :
      (k : Text) (f : Signers)
      → get k before ≡ none
      → is_some (get k after) ≡ true
      → replay (created k) f k ≡ get k after
  created_self k f new there = rw new (assign_self k _ f ∙ some_weight (get k after) there)

  created_other :
      (addy k : Text) (f : Signers) → (addy == k) ≡ false → replay (created addy) f k ≡ f k
  created_other addy k f ne = elim (Bool-cases (is_some (get addy before))) [
    | inl old ↦ rw old refl
    | inr new ↦ rw new (assign_other addy k _ f ne)
  ]

  pub created_stays :
      (ks : List Text) (k : Text) (f : Signers)
      → ((j : Text) → contains j ks ≡ true → is_some (get j after) ≡ true)
      → f k ≡ get k after
      → replay (created_signers before after ks) f k ≡ get k after
  unfolding created_signers
  created_stays [] k f held s = s
  created_stays (j ∷ ks) k f held s =
      rw (replay-append (created j) (created_signers before after ks) f) (
        created_stays ks k _ (λ i c. held i (ground arith))
          (elim (Bool-cases (j == k)) [
            | inl same ↦ rw (eq→path j k same) (
                at_k (
                  subst (λ i. is_some (get i after) ≡ true) (eq→path j k same)
                    (held j (ground (arith, eq_refl j)))))
            | inr other ↦ created_other j k f other ∙ s
          ]))
    where
      at_k : is_some (get k after) ≡ true → replay (created k) f k ≡ get k after
      at_k there = elim (Option-cases (get k before)) [
        | inl new ↦ created_self k f new there
        | inr (w, old) ↦ rw old s
      ]

  pub created_signers_reach :
      (ks : List Text) (k : Text) (f : Signers)
      → ((j : Text) → contains j ks ≡ true → is_some (get j after) ≡ true)
      → contains k ks ≡ true
      → get k before ≡ none
      → replay (created_signers before after ks) f k ≡ get k after
  unfolding created_signers
  created_signers_reach [] k f held c new = absurd (cc c)
  created_signers_reach (j ∷ ks) k f held c new =
      rw (replay-append (created j) (created_signers before after ks) f)
        (elim (Bool-cases (j == k)) [
          | inl same ↦
              created_stays ks k _ (λ i h. held i (ground arith))
                (rw (eq→path j k same) (created_self k f new (held k c)))
          | inr other ↦
              created_signers_reach ks k _ (λ i h. held i (ground arith)) (rw other at c) new
        ])
