-- ===== src/Effects/Contracts.antt =====
-- effects.go: `addInvokeHostFunctionEffects`.
use stellar_extract.Prelude.{ℕ, List, [], ◌∷◌, ◌++◌, if◌then◌else◌, Text, text_ordered, ◌==◌}
use stellar_extract.Effects.{EffectSdk, EffectRecord}
use stellar_extract.Effects.Details.{effect_at, put_text, add_asset_details}
use stellar_extract.Effects.Types.{
  effect_account_credited, effect_account_debited, effect_contract_credited,
  effect_contract_debited,
}
use stellar_extract.Go.Ints.{ℤ}
use stellar_extract.Go.Strings.{codes}
use stellar_extract.ScVal.Json.{Fields, end}
use stellar_extract.Trades.{XdrAsset}
use stellar_extract.Xdr.{Result, ok, err}
use stellar_extract.Xdr.Values.{Parts128}

-- contractevents: an event of a Stellar asset contract, by its type; addresses are strkey texts
pub data AssetEventKind : Type 0 where
  transfer_event : (from to : Text) → AssetEventKind
  mint_event : (to : Text) → AssetEventKind
  clawback_event burn_event : (from : Text) → AssetEventKind
  other_event : AssetEventKind

pub record AssetEvent : Type 0 where
  pub asset : XdrAsset
  pub amount : Parts128 ℤ
  pub kind : AssetEventKind

module _ (sdk : EffectSdk) (source : Text) where
  -- an account has the effect itself; of any other party the source account has it, with the party
  -- in the details
  unfoldable pub party_effect : ℕ → ℕ → Text → Fields → EffectRecord
  party_effect on_account on_contract party details =
      if sdk.is_valid_ed25519_public_key party
      then record { address = party; effect_type = on_account; details = details }
      else effect_at sdk source on_contract (put_text (codes "contract") party details)

  unfoldable pub debit_party : Text → Fields → EffectRecord
  unfolding party_effect
  debit_party = party_effect effect_account_debited effect_contract_debited

  unfoldable pub credit_party : Text → Fields → EffectRecord
  unfolding party_effect
  credit_party = party_effect effect_account_credited effect_contract_credited

  unfoldable pub event_details : AssetEvent → Text → Fields
  unfolding add_asset_details
  event_details event name =
      put_text (codes "amount") (sdk.amount_string128 event.amount)
        (put_text (codes "contract_event_type") name (add_asset_details sdk event.asset [] end))

  -- the switch on the event's type; both sides of a transfer have the details before a contract is
  -- put into them
  unfoldable pub asset_event_effects : AssetEventKind → AssetEvent → List EffectRecord
  unfolding debit_party credit_party event_details
  asset_event_effects (transfer_event from to) event =
      debit_party from (event_details event (codes "transfer"))
      ∷ credit_party to (event_details event (codes "transfer"))
      ∷ []
  asset_event_effects (mint_event to) event =
      credit_party to (event_details event (codes "mint")) ∷ []
  asset_event_effects (clawback_event from) event =
      debit_party from (event_details event (codes "clawback")) ∷ []
  asset_event_effects (burn_event from) event =
      debit_party from (event_details event (codes "burn")) ∷ []
  asset_event_effects other_event event = []

  -- the loop; an event that is not of an asset contract is passed over
  unfoldable pub asset_events_effects : List (Result AssetEvent) → List EffectRecord
  unfolding asset_event_effects
  asset_events_effects [] = []
  asset_events_effects (err e ∷ events) = asset_events_effects events
  asset_events_effects (ok event ∷ events) =
      asset_event_effects event.kind event ++ asset_events_effects events

  unfoldable pub events_or_none : Result (List (Result AssetEvent)) → List EffectRecord
  unfolding asset_events_effects
  events_or_none (err e) = []
  events_or_none (ok events) = asset_events_effects events

  -- the network's passphrase is needed to recognize the contracts
  unfoldable pub invoke_host_function_effects :
      Text → Result (List (Result AssetEvent)) → List EffectRecord
  unfolding events_or_none
  invoke_host_function_effects network events = if network == [] then [] else events_or_none events
