-- ===== src/Effects/Sponsorship/Says.antt =====
-- What a sponsorship effect says of the sponsors before and after a change.
use stellar_extract.Prelude.{
  ◌≡◌, ◌≢◌, refl, sym, ap, false, Option, none, some, List, [], ◌∷◌, Text, text_ordered, ◌==◌,
  Bool-cases, inl, inr, eq→path, path→eq,
}
use mathlib.Core.Option.{none-ne-some, some-injective}
use stellar_extract.Effects.{
  EffectSdk, EffectRecord, Sponsored, EffectChange, account_change, trustline_change, data_change,
  balance_change, pool_change, ttl_change, other_change,
}
use stellar_extract.Effects.Sponsorship.{
  SponsorshipTypes, SponsorshipEffect, account_types, trustline_types, data_types, balance_types,
  sponsor_of, sponsorship_effect, on_account, on_trustline, on_data, on_balance, effect_on,
  sponsorship_on, sponsorship_effects,
}
use stellar_extract.Go.Strings.{codes}
use stellar_extract.ScVal.Json.Lookup.{get_field-put_other}
use stellar_extract.ScVal.Json.{put_field, Json, str, Fields, get_field}

abbrev text_of : Option Json → Option Text
text_of (some (str s)) = some s
text_of _ = none

abbrev or_else : Option Text → Option Text → Option Text
or_else none o = o
or_else (some s) o = some s

-- The sponsors that the details name.
abbrev pub former_sponsor : Fields → Option Text
former_sponsor details = text_of (get_field (codes "former_sponsor") details)

abbrev pub present_sponsor : Fields → Option Text
present_sponsor details =
    or_else (text_of (get_field (codes "sponsor") details))
      (text_of (get_field (codes "new_sponsor") details))

-- The effects say that the sponsor changed from `old` to `new`: no effect that it did not change,
-- one effect that it did, with both named.
abbrev pub SaysSponsor : Option Text → Option Text → List EffectRecord → Type 0
SaysSponsor old new [] = old ≡ new
SaysSponsor old new (e ∷ []) =
    (old ≢ new) × (former_sponsor e.details ≡ old) × (present_sponsor e.details ≡ new)
SaysSponsor old new (e ∷ f ∷ es) = ⊥

abbrev pub printed : (Text → Text) → Option Text → Option Text
printed address_of none = none
printed address_of (some id) = some (address_of id)

-- The sponsor of the entry before a change, and of the entry after it.
abbrev pub old_sponsor : EffectChange → Option Text
old_sponsor (account_change pre post) = sponsor_of pre
old_sponsor (trustline_change pre post) = sponsor_of pre
old_sponsor (data_change pre post) = sponsor_of pre
old_sponsor (balance_change pre post) = sponsor_of pre
old_sponsor _ = none

abbrev pub new_sponsor : EffectChange → Option Text
new_sponsor (account_change pre post) = sponsor_of post
new_sponsor (trustline_change pre post) = sponsor_of post
new_sponsor (data_change pre post) = sponsor_of post
new_sponsor (balance_change pre post) = sponsor_of post
new_sponsor _ = none

-- A field that names no sponsor.
put_text_sponsors :
    (name v : Text) (details : Fields)
    → (name == codes "former_sponsor") ≡ false
    → (name == codes "sponsor") ≡ false
    → (name == codes "new_sponsor") ≡ false
    → (former_sponsor (put_field name (str v) details) ≡ former_sponsor details)
      × (present_sponsor (put_field name (str v) details) ≡ present_sponsor details)
put_text_sponsors name v details a b c = (
  ap text_of (get_field-put_other name (codes "former_sponsor") (str v) details a),
  rw
      (
        get_field-put_other name (codes "sponsor") (str v) details b,
        get_field-put_other name (codes "new_sponsor") (str v) details c,
      )
      refl,
)

-- The details of the record name the sponsors that the effect's details name.
abbrev KeepsSponsors : {D : Type 0} → (D → SponsorshipEffect → EffectRecord) → Type 0
KeepsSponsors {D} f =
    (d : D) (e : SponsorshipEffect)
    → (former_sponsor (f d e).details ≡ former_sponsor e.details)
      × (present_sponsor (f d e).details ≡ present_sponsor e.details)

module _ (sdk : EffectSdk) (source : Text) where
  effect_on-SaysSponsor :
      {D : Type 0} (f : D → SponsorshipEffect → EffectRecord)
      → KeepsSponsors f
      → (d : D) (types : SponsorshipTypes) (old new : Option Text)
      → SaysSponsor
          (printed sdk.address_of old)
          (printed sdk.address_of new)
          (effect_on sdk source f (some d) (sponsorship_effect sdk source types old new))
  unfolding sponsorship_effect
  effect_on-SaysSponsor f kept d types none none = refl
  effect_on-SaysSponsor f kept d types none (some new) =
      let (former, present) = kept d _ in (λ e. none-ne-some _ e, former, present)
  effect_on-SaysSponsor f kept d types (some old) none =
      let (former, present) = kept d _ in (λ e. none-ne-some _ (sym e), former, present)
  effect_on-SaysSponsor f kept d types (some old) (some new) =
      elim (Bool-cases (sdk.address_of old == sdk.address_of new)) [
        | inl same ↦ rw same (ap some (eq→path (sdk.address_of old) (sdk.address_of new) same))
        | inr other ↦
            let (former, present) = kept d _ in
            rw other (
              (λ e. cc (
                other,
                path→eq (sdk.address_of old) (sdk.address_of new) (some-injective _ _ e),
              )),
              former,
              present,
            )
      ]

  on_account-KeepsSponsors : KeepsSponsors (on_account sdk source)
  unfolding on_account
  on_account-KeepsSponsors d e = (refl, refl)

  on_trustline-KeepsSponsors : KeepsSponsors (on_trustline sdk source)
  unfolding on_trustline
  on_trustline-KeepsSponsors d e = (refl, refl)

  on_data-KeepsSponsors : KeepsSponsors (on_data sdk source)
  unfolding on_data
  on_data-KeepsSponsors d e =
      put_text_sponsors (codes "data_name") d.data_name e.details refl refl refl

  on_balance-KeepsSponsors : KeepsSponsors (on_balance sdk source)
  unfolding on_balance
  on_balance-KeepsSponsors d e =
      put_text_sponsors (codes "balance_id") (sdk.marshal_hex d.balance_id) e.details refl refl refl

  sponsorship_on-SaysSponsor :
      {D : Type 0} (types : SponsorshipTypes) (f : D → SponsorshipEffect → EffectRecord)
      → KeepsSponsors f
      → (pre post : Option (Sponsored D))
      → SaysSponsor
          (printed sdk.address_of (sponsor_of pre))
          (printed sdk.address_of (sponsor_of post))
          (sponsorship_on sdk source types f pre post)
  sponsorship_on-SaysSponsor types f kept none none = refl
  sponsorship_on-SaysSponsor types f kept (some pre) none =
      effect_on-SaysSponsor f kept pre.body types pre.sponsoring_id none
  sponsorship_on-SaysSponsor types f kept none (some post) =
      effect_on-SaysSponsor f kept post.body types none post.sponsoring_id
  sponsorship_on-SaysSponsor types f kept (some pre) (some post) =
      effect_on-SaysSponsor f kept post.body types pre.sponsoring_id post.sponsoring_id

  -- A change of an account, a trust line, a data entry or a claimable balance gives a sponsorship
  -- effect exactly if the address of the entry's sponsor, or its absence, is not the same before and
  -- after, and then one, whose details name the sponsor from before and the one from after, each
  -- where there is one. Other changes give none.
  pub sponsorship_effects-SaysSponsor :
      (change : EffectChange)
      → SaysSponsor
          (printed sdk.address_of (old_sponsor change))
          (printed sdk.address_of (new_sponsor change))
          (sponsorship_effects sdk source change)
  unfolding sponsorship_effects
  sponsorship_effects-SaysSponsor (account_change pre post) =
      sponsorship_on-SaysSponsor account_types (on_account sdk source) on_account-KeepsSponsors pre
        post
  sponsorship_effects-SaysSponsor (trustline_change pre post) =
      sponsorship_on-SaysSponsor trustline_types (on_trustline sdk source)
        on_trustline-KeepsSponsors pre post
  sponsorship_effects-SaysSponsor (data_change pre post) =
      sponsorship_on-SaysSponsor data_types (on_data sdk source) on_data-KeepsSponsors pre post
  sponsorship_effects-SaysSponsor (balance_change pre post) =
      sponsorship_on-SaysSponsor balance_types (on_balance sdk source) on_balance-KeepsSponsors pre
        post
  sponsorship_effects-SaysSponsor (pool_change c) = refl
  sponsorship_effects-SaysSponsor (ttl_change post) = refl
  sponsorship_effects-SaysSponsor other_change = refl
