-- ===== src/Effects/Sponsorship.antt =====
-- effects.go: `addSponsorshipEffects`.
pub mod Says
use stellar_extract.Prelude.{
  ℕ, Option, none, some, List, [], ◌∷◌, if◌then◌else◌, Text, text_ordered, ◌==◌,
}
use stellar_extract.Effects.{
  EffectSdk, EffectRecord, Sponsored, AccountState, TrustLine, DataEntry, ClaimableBalance,
  EffectChange, account_change, trustline_change, data_change, balance_change, pool_change,
  ttl_change, other_change,
}
use stellar_extract.Effects.Details.{one_text, put_text}
use stellar_extract.Effects.Types.{
  effect_account_sponsorship_created, effect_account_sponsorship_updated,
  effect_account_sponsorship_removed, effect_trustline_sponsorship_created,
  effect_trustline_sponsorship_updated, effect_trustline_sponsorship_removed,
  effect_data_sponsorship_created, effect_data_sponsorship_updated, effect_data_sponsorship_removed,
  effect_claimable_balance_sponsorship_created, effect_claimable_balance_sponsorship_updated,
  effect_claimable_balance_sponsorship_removed,
}
use stellar_extract.Go.Strings.{codes}
use stellar_extract.ScVal.Json.{Fields}

-- a row of `sponsoringEffectsTable`
pub record SponsorshipTypes : Type 0 where
  pub created : ℕ
  pub updated : ℕ
  pub removed : ℕ

abbrev pub account_types : SponsorshipTypes
account_types = record {
  created = effect_account_sponsorship_created;
  updated = effect_account_sponsorship_updated;
  removed = effect_account_sponsorship_removed;
}

abbrev pub trustline_types : SponsorshipTypes
trustline_types = record {
  created = effect_trustline_sponsorship_created;
  updated = effect_trustline_sponsorship_updated;
  removed = effect_trustline_sponsorship_removed;
}

abbrev pub data_types : SponsorshipTypes
data_types = record {
  created = effect_data_sponsorship_created;
  updated = effect_data_sponsorship_updated;
  removed = effect_data_sponsorship_removed;
}

abbrev pub balance_types : SponsorshipTypes
balance_types = record {
  created = effect_claimable_balance_sponsorship_created;
  updated = effect_claimable_balance_sponsorship_updated;
  removed = effect_claimable_balance_sponsorship_removed;
}

-- `effectType` and `details`
pub record SponsorshipEffect : Type 0 where
  pub effect_type : ℕ
  pub details : Fields

-- an entry's sponsor, none where there is no entry
abbrev pub sponsor_of : {D : Type 0} → Option (Sponsored D) → Option Text
sponsor_of none = none
sponsor_of (some entry) = entry.sponsoring_id

-- `data`: the entry after the change, or else the one before it
abbrev pub latest : {D : Type 0} → Option (Sponsored D) → Option (Sponsored D) → Option D
latest pre (some post) = some post.body
latest (some pre) none = some pre.body
latest none none = none

module _ (sdk : EffectSdk) (source : Text) where
  -- the first switch
  unfoldable pub sponsorship_effect :
      SponsorshipTypes → Option Text → Option Text → Option SponsorshipEffect
  sponsorship_effect types none none = none
  sponsorship_effect types none (some post) = some (record {
    effect_type = types.created;
    details = one_text (codes "sponsor") (sdk.address_of post);
  })
  sponsorship_effect types (some pre) none = some (record {
    effect_type = types.removed;
    details = one_text (codes "former_sponsor") (sdk.address_of pre);
  })
  sponsorship_effect types (some pre) (some post) =
      if sdk.address_of pre == sdk.address_of post
      then none
      else some (record {
        effect_type = types.updated;
        details =
            put_text (codes "former_sponsor") (sdk.address_of pre)
              (one_text (codes "new_sponsor") (sdk.address_of post));
      })

  -- the second switch: whose effect it is, and what is added to the details
  unfoldable pub on_account : AccountState → SponsorshipEffect → EffectRecord
  on_account a e = record {
    address = sdk.address_of a.account_id;
    effect_type = e.effect_type;
    details = e.details;
  }

  unfoldable pub on_trustline : TrustLine → SponsorshipEffect → EffectRecord
  on_trustline tl e = record {
    address = sdk.address_of tl.account_id;
    effect_type = e.effect_type;
    details = e.details;
  }

  unfoldable pub on_data : DataEntry → SponsorshipEffect → EffectRecord
  on_data d e = record {
    address = sdk.address_of source;
    effect_type = e.effect_type;
    details = put_text (codes "data_name") d.data_name e.details;
  }

  unfoldable pub on_balance : ClaimableBalance → SponsorshipEffect → EffectRecord
  on_balance cb e = record {
    address = sdk.address_of source;
    effect_type = e.effect_type;
    details = put_text (codes "balance_id") (sdk.marshal_hex cb.balance_id) e.details;
  }

  abbrev pub effect_on :
      {D : Type 0}
      → (D → SponsorshipEffect → EffectRecord)
      → Option D
      → Option SponsorshipEffect
      → List EffectRecord
  effect_on f none e = []
  effect_on f (some d) none = []
  effect_on f (some d) (some e) = f d e ∷ []

  abbrev pub sponsorship_on :
      {D : Type 0}
      → SponsorshipTypes
      → (D → SponsorshipEffect → EffectRecord)
      → Option (Sponsored D)
      → Option (Sponsored D)
      → List EffectRecord
  sponsorship_on types f pre post =
      effect_on f (latest pre post) (sponsorship_effect types (sponsor_of pre) (sponsor_of post))

  unfoldable pub sponsorship_effects : EffectChange → List EffectRecord
  unfolding sponsorship_effect on_account on_trustline on_data on_balance
  sponsorship_effects (account_change pre post) = sponsorship_on account_types on_account pre post
  sponsorship_effects (trustline_change pre post) =
      sponsorship_on trustline_types on_trustline pre post
  sponsorship_effects (data_change pre post) = sponsorship_on data_types on_data pre post
  sponsorship_effects (balance_change pre post) = sponsorship_on balance_types on_balance pre post
  sponsorship_effects _ = []
