-- ===== src/Effects/Signers/Replay/Changed.antt =====
-- Playing back the removals and the updates.
use stellar_extract.Prelude.{
  arith, ◌≡◌, refl, ◌∙◌, true, false, Option, none, some, List, [], ◌∷◌, Text, text_ordered, ◌==◌,
  is_some, eq→path, Bool-cases, inl, inr,
}
use stellar_extract.Go.Ints.{ℤ, int_ordered}
use stellar_extract.Go.Maps.{get}
use stellar_extract.Go.Slices.{contains}
use stellar_extract.Effects.Signers.{SignerSummary, weight_or_zero, changed, changed_signers}
use stellar_extract.Effects.Signers.Replay.{Signers, replay, replay-append, assign_self, weighs}

module _ (before after : SignerSummary) where
  -- At the signer itself a change gives the new weight.
  changed_self :
      (k : Text) (f : Signers)
      → is_some (get k before) ≡ true
      → f k ≡ get k before
      → (o : Option ℤ) → replay (changed before after k o) f k ≡ o
  changed_self k f there s none = assign_self k none f
  changed_self k f there s (some w) = elim (Bool-cases (w == weight_or_zero (get k before))) [
    | inl same ↦ rw same (s ∙ weighs w (get k before) there same)
    | inr other ↦ rw other (assign_self k (some w) f)
  ]

  changed_other :
      (addy k : Text) (f : Signers)
      → (addy == k) ≡ false
      → (o : Option ℤ) → replay (changed before after addy o) f k ≡ f k
  changed_other addy k f ne x = ground arith

  -- Where the new weight is reached it stays.
  changed_stays :
      (k : Text) (f : Signers) (o : Option ℤ) → f k ≡ o → replay (changed before after k o) f k ≡ o
  changed_stays k f x s = ground arith

  changed_at :
      (addy k : Text) (f : Signers)
      → f k ≡ get k after
      → replay (changed before after addy (get addy after)) f k ≡ get k after
  changed_at addy k f s = elim (Bool-cases (addy == k)) [
    | inl same ↦ rw (eq→path addy k same) (changed_stays k f (get k after) s)
    | inr other ↦ changed_other addy k f other (get addy after) ∙ s
  ]

  pub changed_signers_stay :
      (ks : List Text) (k : Text) (f : Signers)
      → f k ≡ get k after
      → replay (changed_signers before after ks) f k ≡ get k after
  unfolding changed_signers
  changed_signers_stay [] k f s = s
  changed_signers_stay (j ∷ ks) k f s =
      rw (replay-append (changed before after j (get j after)) (changed_signers before after ks) f)
        (changed_signers_stay ks k _ (changed_at j k f s))

  pub changed_signers_reach :
      (ks : List Text) (k : Text) (f : Signers)
      → contains k ks ≡ true
      → is_some (get k before) ≡ true
      → f k ≡ get k before
      → replay (changed_signers before after ks) f k ≡ get k after
  unfolding changed_signers
  changed_signers_reach [] k f c there s = absurd (cc c)
  changed_signers_reach (j ∷ ks) k f c there s =
      rw (replay-append (changed before after j (get j after)) (changed_signers before after ks) f)
        (elim (Bool-cases (j == k)) [
          | inl same ↦
              changed_signers_stay ks k _
                (rw (eq→path j k same) (changed_self k f there s (get k after)))
          | inr other ↦
              changed_signers_reach ks k _ (rw other at c) there
                (changed_other j k f other (get j after) ∙ s)
        ])

  pub changed_signers_pass :
      (ks : List Text) (k : Text) (f : Signers)
      → contains k ks ≡ false
      → replay (changed_signers before after ks) f k ≡ f k
  unfolding changed_signers
  changed_signers_pass [] k f c = refl
  changed_signers_pass (j ∷ ks) k f c =
      rw (replay-append (changed before after j (get j after)) (changed_signers before after ks) f)
        (elim (Bool-cases (j == k)) [
          | inl same ↦ absurd (cc (rw same at c))
          | inr other ↦
              changed_signers_pass ks k _ (rw other at c) ∙ changed_other j k f other (get j after)
        ])
