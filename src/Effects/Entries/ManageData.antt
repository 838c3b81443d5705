-- ===== src/Effects/Entries/ManageData.antt =====
-- The one effect of an operation on a data entry.
use stellar_extract.Prelude.{◌≡◌, refl, Option, none, some, List, [], ◌∷◌, Text, text_ordered}
use stellar_extract.Effects.{
  EffectSdk, EffectRecord, Sponsored, DataEntry, EffectChange, account_change, trustline_change,
  data_change, balance_change, pool_change, ttl_change, other_change,
}
use stellar_extract.Effects.Entries.{with_value, data_effect, manage_data_loop, manage_data_effects}
use stellar_extract.Effects.Types.{
  effect_account_created, effect_data_created, effect_data_removed, effect_data_updated,
}
use stellar_extract.Go.Strings.{codes, base64_encode}
use stellar_extract.ScVal.Json.{str, get_field}
use stellar_extract.Xdr.{ok}

-- The entries before and after the first change of a data entry.
abbrev pub first_data_change :
    List EffectChange → Option (Option (Sponsored DataEntry) × Option (Sponsored DataEntry))
first_data_change [] = none
first_data_change (data_change pre post ∷ changes) = some (pre, post)
first_data_change (_ ∷ changes) = first_data_change changes

-- What the effect has to say of these entries.
abbrev pub SaysData :
    Option (Option (Sponsored DataEntry) × Option (Sponsored DataEntry)) → EffectRecord → Type 0
SaysData none e =
    (e.effect_type ≡ effect_account_created) × (get_field (codes "value") e.details ≡ none)
SaysData (some (none, none)) e = e.effect_type ≡ effect_account_created
SaysData (some (none, some post)) e =
    (e.effect_type ≡ effect_data_created)
    × (get_field (codes "value") e.details ≡ some (str (base64_encode post.body.data_value)))
SaysData (some (some pre, none)) e =
    (e.effect_type ≡ effect_data_removed) × (get_field (codes "value") e.details ≡ none)
SaysData (some (some pre, some post)) e =
    (e.effect_type ≡ effect_data_updated)
    × (get_field (codes "value") e.details ≡ some (str (base64_encode post.body.data_value)))

module _ (sdk : EffectSdk) (source name : Text) where
  -- Where the changes can be read, there is one effect, on the source account and with the name. Its
  -- type and value are those of the first change of a data entry: created or updated with the value
  -- after it, or removed. Where no data entry changed, the type is that of an account's creation.
  pub manage_data_effects_lem :
      (changes : List EffectChange)
      → (e : EffectRecord) × (manage_data_effects sdk source name (ok changes) ≡ e ∷ [])
        × (e.address ≡ sdk.address_of source)
        × (get_field (codes "name") e.details ≡ some (str name))
        × SaysData (first_data_change changes) e
  unfolding manage_data_effects manage_data_loop data_effect with_value
  manage_data_effects_lem [] = (_, refl, refl, refl, (refl, refl))
  manage_data_effects_lem (data_change none none ∷ cs) = (_, refl, refl, refl, refl)
  manage_data_effects_lem (data_change none (some post) ∷ cs) = (_, refl, refl, refl, (refl, refl))
  manage_data_effects_lem (data_change (some pre) none ∷ cs) = (_, refl, refl, refl, (refl, refl))
  manage_data_effects_lem (data_change (some pre) (some post) ∷ cs) =
      (_, refl, refl, refl, (refl, refl))
  manage_data_effects_lem (account_change pre post ∷ cs) = manage_data_effects_lem cs
  manage_data_effects_lem (trustline_change pre post ∷ cs) = manage_data_effects_lem cs
  manage_data_effects_lem (balance_change pre post ∷ cs) = manage_data_effects_lem cs
  manage_data_effects_lem (pool_change c ∷ cs) = manage_data_effects_lem cs
  manage_data_effects_lem (ttl_change post ∷ cs) = manage_data_effects_lem cs
  manage_data_effects_lem (other_change ∷ cs) = manage_data_effects_lem cs
