-- ===== src/Effects/Signers.antt =====
-- effects.go: `addSetOptionsEffects`.
pub mod Replay
pub mod Exact
use stellar_extract.Prelude.{
  ℕ, Bool, true, false, ◌&&◌, Option, none, some, List, [], ◌∷◌, ◌++◌, map, if◌then◌else◌, Text,
  text_ordered, ◌==◌, is_some,
}
use stellar_extract.Effects.{
  EffectSdk, EffectRecord, Sponsored, AccountState, EffectChange, account_change, trustline_change,
  data_change, balance_change, pool_change, ttl_change, other_change,
}
use stellar_extract.Effects.Details.{effect_at, one_text, set_auth_flag_details}
use stellar_extract.Effects.Types.{
  effect_account_home_domain_updated, effect_account_thresholds_updated,
  effect_account_flags_updated, effect_account_inflation_destination_updated, effect_signer_created,
  effect_signer_removed, effect_signer_updated,
}
use stellar_extract.Go.Ints.{ℤ, pos, int_ordered}
use stellar_extract.Go.Maps.{GoMap, get}
use stellar_extract.Go.Strings.{codes}
use stellar_extract.Ordering.{sorted_set_keys}
use stellar_extract.ScVal.Json.{Json, num, str, Fields, end, field}
use stellar_extract.Xdr.{Result, ok, err}

-- xdr.SetOptionsOp, but for the signer, which the changes show
pub record SetOptionsOp : Type 0 where
  pub home_domain : Option Text
  pub low_threshold : Option ℕ
  pub med_threshold : Option ℕ
  pub high_threshold : Option ℕ
  pub set_flags : Option ℕ
  pub clear_flags : Option ℕ
  pub inflation_dest : Option Text

-- The effects on the signers of an account, before they are written as records.
pub data SignerEffect : Type 0 where
  signer_removed : (address : Text) → SignerEffect
  signer_updated signer_created : (address : Text) → (weight : ℤ) → SignerEffect

abbrev pub SignerSummary : Type 0
SignerSummary = GoMap Text ℤ

-- `m[k]`, 0 where there is none
abbrev pub weight_or_zero : Option ℤ → ℤ
weight_or_zero none = pos 0
weight_or_zero (some w) = w

-- every entry of the one map is in the other
abbrev pub is_within : SignerSummary → SignerSummary → Bool
is_within [] n = true
is_within ((k, w) ∷ m) n = elim (get k n) [ none ↦ false | some v ↦ v == w ] && is_within m n

-- `reflect.DeepEqual` of two maps
abbrev pub deep_equal : SignerSummary → SignerSummary → Bool
deep_equal m n = is_within m n && is_within n m

module _ (before after : SignerSummary) where
  -- the first loop's body, with `after[addy]`
  abbrev pub changed : Text → Option ℤ → List SignerEffect
  changed addy none = signer_removed addy ∷ []
  changed addy (some weight) =
      if weight == weight_or_zero (get addy before) then [] else signer_updated addy weight ∷ []

  unfoldable pub changed_signers : List Text → List SignerEffect
  changed_signers [] = []
  changed_signers (addy ∷ addresses) = changed addy (get addy after) ++ changed_signers addresses

  -- the second loop
  unfoldable pub created_signers : List Text → List SignerEffect
  created_signers [] = []
  created_signers (addy ∷ addresses) =
      (if is_some (get addy before)
        then []
        else signer_created addy (weight_or_zero (get addy after)) ∷ [])
      ++ created_signers addresses

  -- what the loop over the changes adds of one account
  unfoldable pub signer_effects : List SignerEffect
  unfolding changed_signers created_signers sorted_set_keys
  signer_effects =
      if deep_equal before after
      then []
      else changed_signers (sorted_set_keys before) ++ created_signers (sorted_set_keys after)

-- `if v != nil { thresholds[name] = *v }`
abbrev when_set : Text → Option ℕ → Fields → Fields
when_set name none details = details
when_set name (some n) details = field name (num (pos n)) details

thresholds_of : SetOptionsOp → Fields
thresholds_of op = when_set (codes "low_threshold") op.low_threshold (
    when_set (codes "med_threshold") op.med_threshold
      (when_set (codes "high_threshold") op.high_threshold end))

abbrev flags_when : Option ℕ → Bool → Fields → Fields
flags_when none value details = details
flags_when (some flags) value details = set_auth_flag_details flags value details

flag_details_of : SetOptionsOp → Fields
unfolding set_auth_flag_details
flag_details_of op = flags_when op.clear_flags false (flags_when op.set_flags true end)

module _ (sdk : EffectSdk) (source : Text) where
  abbrev pub at_source : ℕ → Fields → EffectRecord
  at_source = effect_at sdk source

  -- an effect where there are details
  abbrev pub unless_empty : ℕ → Fields → List EffectRecord
  unless_empty effect_type end = []
  unless_empty effect_type (field k v fs) = at_source effect_type (field k v fs) ∷ []

  unfoldable pub home_domain_effects : Option Text → List EffectRecord
  home_domain_effects none = []
  home_domain_effects (some domain) =
      at_source effect_account_home_domain_updated (one_text (codes "home_domain") domain) ∷ []

  unfoldable pub inflation_effects : Option Text → List EffectRecord
  inflation_effects none = []
  inflation_effects (some account) =
      at_source effect_account_inflation_destination_updated
        (one_text (codes "inflation_destination") (sdk.address_of account))
      ∷ []

  key_and_weight : Text → ℤ → Fields
  key_and_weight addy weight =
      field (codes "public_key") (str addy) (field (codes "weight") (num weight) end)

  unfoldable pub signer_record : SignerEffect → EffectRecord
  unfolding key_and_weight
  signer_record (signer_removed addy) =
      at_source effect_signer_removed (one_text (codes "public_key") addy)
  signer_record (signer_updated addy weight) =
      at_source effect_signer_updated (key_and_weight addy weight)
  signer_record (signer_created addy weight) =
      at_source effect_signer_created (key_and_weight addy weight)

  -- the loop over the changes: accounts that are there before and after
  unfoldable pub signer_records : List EffectChange → List EffectRecord
  unfolding signer_effects signer_record
  signer_records [] = []
  signer_records (account_change (some pre) (some post) ∷ changes) =
      map signer_record (signer_effects pre.body.signer_summary post.body.signer_summary)
      ++ signer_records changes
  signer_records (_ ∷ changes) = signer_records changes

  unfoldable pub signer_records_or_none : Result (List EffectChange) → List EffectRecord
  unfolding signer_records
  signer_records_or_none (err e) = []
  signer_records_or_none (ok changes) = signer_records changes

  unfoldable pub thresholds_effects : SetOptionsOp → List EffectRecord
  unfolding thresholds_of
  thresholds_effects op = unless_empty effect_account_thresholds_updated (thresholds_of op)

  unfoldable pub flags_effects : SetOptionsOp → List EffectRecord
  unfolding flag_details_of
  flags_effects op = unless_empty effect_account_flags_updated (flag_details_of op)

  unfoldable pub set_options_effects : SetOptionsOp → Result (List EffectChange) → List EffectRecord
  unfolding home_domain_effects inflation_effects thresholds_effects flags_effects
      signer_records_or_none
  set_options_effects op changes =
      home_domain_effects op.home_domain
      ++ (thresholds_effects op
          ++ (flags_effects op
              ++ (inflation_effects op.inflation_dest ++ signer_records_or_none changes)))
