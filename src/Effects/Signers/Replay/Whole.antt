-- ===== src/Effects/Signers/Replay/Whole.antt =====
-- Playing back all effects of a change.
use stellar_extract.Prelude.{
  ◌≡◌, refl, sym, ◌∙◌, Bool, true, false, ◌&&◌, none, some, [], ◌∷◌, Text, text_ordered, ◌==◌,
  is_some, eq→path, Bool-cases, Option-cases, inl, inr, ap,
}
use mathlib.Core.Path.{subst}
use stellar_extract.Go.Ints.{ℤ, int_ordered}
use stellar_extract.Go.Maps.{get}
use stellar_extract.Go.Slices.{contains}
use stellar_extract.Ordering.{sorted_set_keys}
use stellar_extract.Ordering.Rows.{contains-sorted_set_keys}
use stellar_extract.Effects.Signers.{
  SignerSummary, is_within, deep_equal, changed_signers, created_signers, signer_effects,
}
use stellar_extract.Effects.Signers.Replay.{Signers, replay, replay-append}
use stellar_extract.Effects.Signers.Replay.Changed.{changed_signers_reach, changed_signers_pass}
use stellar_extract.Effects.Signers.Replay.Created.{created_stays, created_signers_reach}

module _ (before after : SignerSummary) where
  and_parts : (a b : Bool) → (a && b) ≡ true → (a ≡ true) × (b ≡ true)
  and_parts true b h = (refl, h)
  and_parts false b h = absurd (cc h)

  is_within-get :
      (m n : SignerSummary)
      → is_within m n ≡ true
      → (k : Text) (w : ℤ) → get k m ≡ some w
      → get k n ≡ some w
  is_within-get [] n h k w e = absurd (cc e)
  is_within-get ((j, v) ∷ m) n h k w e = elim (Option-cases (get j n)) [
    | inl gone ↦ absurd (cc (rw gone at h))
    | inr (u, there) ↦
        let (u_v, rest) = and_parts (u == v) (is_within m n) (rw there at h) in
        elim (Bool-cases (j == k)) [
          | inl same ↦
              subst (λ i. get i n ≡ some w) (eq→path j k same)
                (there ∙ ap some (eq→path u v u_v) ∙ rw same at e)
          | inr other ↦ is_within-get m n rest k w (rw other at e)
        ]
  ]

  deep_equal-get : (k : Text) → deep_equal before after ≡ true → get k before ≡ get k after
  deep_equal-get k h =
      let (there, back) = and_parts (is_within before after) (is_within after before) h in
      elim (Option-cases (get k before)) [
        | inr (w, e) ↦ e ∙ sym (is_within-get before after there k w e)
        | inl none_before ↦ elim (Option-cases (get k after)) [
          | inl none_after ↦ none_before ∙ sym none_after
          | inr (w, e) ↦ is_within-get after before back k w e ∙ sym e
        ]
      ]

  pub signer_effects-replay :
      (k : Text) → replay (signer_effects before after) (λ j. get j before) k ≡ get k after
  unfolding signer_effects
  signer_effects-replay k = elim (Bool-cases (deep_equal before after)) [
    | inl same ↦ rw same (deep_equal-get k same)
    | inr other ↦
        let old = sorted_set_keys before in
        let new = sorted_set_keys after in
        let f : Signers = λ j. get j before in
        let held : (j : Text) → contains j new ≡ true → is_some (get j after) ≡ true =
          λ j c. sym (contains-sorted_set_keys j after) ∙ c in
        rw
          (
            other,
            replay-append (changed_signers before after old) (created_signers before after new) f,
          )
          (elim (Option-cases (get k before)) [
            | inr (w, there) ↦ created_stays before after new k _ held (
                changed_signers_reach before after old k f
                  (contains-sorted_set_keys k before ∙ ap is_some there) (ap is_some there) refl)
            | inl absent ↦
                let passed : replay (changed_signers before after old) f k ≡ none =
                  changed_signers_pass before after old k f
                    (contains-sorted_set_keys k before ∙ ap is_some absent)
                  ∙ absent in
                elim (Option-cases (get k after)) [
                  | inl never ↦ created_stays before after new k _ held (passed ∙ sym never)
                  | inr (w, made) ↦
                      created_signers_reach before after new k _ held
                        (contains-sorted_set_keys k after ∙ ap is_some made) absent
                ]
          ])
  ]
