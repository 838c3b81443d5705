-- ===== src/Effects/Named/Shared.antt =====
-- The effects of sponsorships and of contract events have types with names.
use stellar_extract.Prelude.{
  arith, ℕ, ◌≡◌, refl, true, Option, none, some, List, [], ◌∷◌, Text, text_ordered, ◌==◌,
  Bool-cases, inl, inr,
}
use stellar_extract.Effects.{
  EffectSdk, EffectRecord, EffectChange, account_change, trustline_change, data_change,
  balance_change, pool_change, ttl_change, other_change,
}
use stellar_extract.Effects.Contracts.{
  AssetEvent, AssetEventKind, transfer_event, mint_event, clawback_event, burn_event, other_event,
  party_effect, debit_party, credit_party, asset_event_effects, asset_events_effects,
  events_or_none, invoke_host_function_effects,
}
use stellar_extract.Effects.Named.{is_named, IsNamed, AllNamed, AllNamed-append}
use stellar_extract.Effects.Sponsorship.{
  SponsorshipTypes, SponsorshipEffect, account_types, trustline_types, data_types, balance_types,
  sponsor_of, latest, sponsorship_effect, on_account, on_trustline, on_data, on_balance, effect_on,
  sponsorship_effects,
}
use stellar_extract.ScVal.Json.{Fields}
use stellar_extract.Xdr.{Result, ok, err}

module _ (sdk : EffectSdk) (source : Text) where
  sponsorship_on-AllNamed :
      {D : Type 0} (types : SponsorshipTypes) (f : D → SponsorshipEffect → EffectRecord)
      → ((d : D) (e : SponsorshipEffect) → (f d e).effect_type ≡ e.effect_type)
      → (is_named types.created ≡ true)
        × (is_named types.updated ≡ true)
        × (is_named types.removed ≡ true)
      → (d : Option D) (old new : Option Text)
      → AllNamed (effect_on sdk source f d (sponsorship_effect sdk source types old new))
  unfolding sponsorship_effect
  sponsorship_on-AllNamed types f typed h none old new = tt
  sponsorship_on-AllNamed types f typed h (some d) none none = tt
  sponsorship_on-AllNamed types f typed (c, u, r) (some d) none (some new) = (rw (typed d _) c, tt)
  sponsorship_on-AllNamed types f typed (c, u, r) (some d) (some old) none = (rw (typed d _) r, tt)
  sponsorship_on-AllNamed types f typed (c, u, r) (some d) (some old) (some new) =
      elim (Bool-cases (sdk.address_of old == sdk.address_of new)) [
        | inl same ↦ rw same tt
        | inr other ↦ rw other (rw (typed d _) u, tt)
      ]

  pub sponsorship_effects-AllNamed :
      (change : EffectChange) → AllNamed (sponsorship_effects sdk source change)
  unfolding sponsorship_effects is_named
  sponsorship_effects-AllNamed (account_change pre post) =
      sponsorship_on-AllNamed account_types (on_account sdk source)
        (λ d e. unfold on_account in refl) (refl, refl, refl) (latest pre post) (sponsor_of pre)
        (sponsor_of post)
  sponsorship_effects-AllNamed (trustline_change pre post) =
      sponsorship_on-AllNamed trustline_types (on_trustline sdk source)
        (λ d e. unfold on_trustline in refl) (refl, refl, refl) (latest pre post) (sponsor_of pre)
        (sponsor_of post)
  sponsorship_effects-AllNamed (data_change pre post) =
      sponsorship_on-AllNamed data_types (on_data sdk source) (λ d e. unfold on_data in refl)
        (refl, refl, refl) (latest pre post) (sponsor_of pre) (sponsor_of post)
  sponsorship_effects-AllNamed (balance_change pre post) =
      sponsorship_on-AllNamed balance_types (on_balance sdk source)
        (λ d e. unfold on_balance in refl) (refl, refl, refl) (latest pre post) (sponsor_of pre)
        (sponsor_of post)
  sponsorship_effects-AllNamed (pool_change c) = tt
  sponsorship_effects-AllNamed (ttl_change post) = tt
  sponsorship_effects-AllNamed other_change = tt

  party_effect-IsNamed :
      (on_account on_contract : ℕ) (party : Text) (details : Fields)
      → is_named on_account ≡ true
      → is_named on_contract ≡ true
      → IsNamed (party_effect sdk source on_account on_contract party details)
  unfolding party_effect
  party_effect-IsNamed on_account on_contract party details a c = ground arith

  debit_party-IsNamed :
      (party : Text) (details : Fields) → IsNamed (debit_party sdk source party details)
  unfolding debit_party is_named
  debit_party-IsNamed party details = party_effect-IsNamed _ _ party details refl refl

  credit_party-IsNamed :
      (party : Text) (details : Fields) → IsNamed (credit_party sdk source party details)
  unfolding credit_party is_named
  credit_party-IsNamed party details = party_effect-IsNamed _ _ party details refl refl

  asset_event-AllNamed :
      (kind : AssetEventKind) (event : AssetEvent)
      → AllNamed (asset_event_effects sdk source kind event)
  unfolding asset_event_effects
  asset_event-AllNamed (transfer_event from to) event =
      (debit_party-IsNamed from _, (credit_party-IsNamed to _, tt))
  asset_event-AllNamed (mint_event to) event = (credit_party-IsNamed to _, tt)
  asset_event-AllNamed (clawback_event from) event = (debit_party-IsNamed from _, tt)
  asset_event-AllNamed (burn_event from) event = (debit_party-IsNamed from _, tt)
  asset_event-AllNamed other_event event = tt

  asset_events-AllNamed :
      (events : List (Result AssetEvent)) → AllNamed (asset_events_effects sdk source events)
  unfolding asset_events_effects
  asset_events-AllNamed [] = tt
  asset_events-AllNamed (err e ∷ events) = asset_events-AllNamed events
  asset_events-AllNamed (ok event ∷ events) =
      AllNamed-append (asset_event_effects sdk source event.kind event)
        (asset_events_effects sdk source events) (asset_event-AllNamed event.kind event)
        (asset_events-AllNamed events)

  pub invoke_host_function-AllNamed :
      (network : Text) (events : Result (List (Result AssetEvent)))
      → AllNamed (invoke_host_function_effects sdk source network events)
  unfolding invoke_host_function_effects events_or_none
  invoke_host_function-AllNamed network (err e) = ground arith
  invoke_host_function-AllNamed network (ok events) = ground (arith, asset_events-AllNamed events)
