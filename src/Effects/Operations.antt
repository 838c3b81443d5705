-- ===== src/Effects/Operations.antt =====
-- effects.go: the effects of one operation.
use stellar_extract.Prelude.{ℕ, List, [], ◌∷◌, ◌++◌, Text}
use stellar_extract.Effects.{EffectSdk, EffectRecord, EffectChange, EffectClaim}
use stellar_extract.Effects.Details.{effect_at, one_text, add_asset_details}
use stellar_extract.Effects.Types.{
  effect_account_created, effect_account_removed, effect_account_credited, effect_account_debited,
  effect_signer_created,
}
use stellar_extract.Effects.Contracts.{AssetEvent, invoke_host_function_effects}
use stellar_extract.Effects.Entries.{
  AssetType, change_trust_effects, allow_trust_effects, set_trust_line_flags_effects,
  manage_data_effects, bump_sequence_effects, create_claimable_balance_effects,
  claim_claimable_balance_effects, clawback_claimable_balance_effects,
}
use stellar_extract.Effects.Pools.{
  deposit_effects, withdraw_effects, lifecycle_effects, extend_footprint_ttl_effects,
  restore_footprint_effects,
}
use stellar_extract.Effects.Signers.{SetOptionsOp, set_options_effects}
use stellar_extract.Effects.Sponsorship.{sponsorship_effects}
use stellar_extract.Effects.Trades.{add_trade_effects}
use stellar_extract.Go.Ints.{ℤ, pos}
use stellar_extract.Go.Strings.{codes}
use stellar_extract.ScVal.Json.{num, str, Fields, end, field}
use stellar_extract.Trades.{XdrAsset}
use stellar_extract.Xdr.{Result, ok, err}

-- xdr.Operation by its type, with what is read of its body and of its successful result.
pub data EffectOperation : Type 0 where
  create_account : (destination : Text) → (starting_balance : ℤ) → EffectOperation
  payment : (destination : Text) → (asset : XdrAsset) → (amount : ℤ) → EffectOperation
  path_payment_strict_receive path_payment_strict_send :
      (destination : Text)
      → (dest_asset : XdrAsset) → (dest_amount : ℤ) → (send_asset : XdrAsset) → (send_amount : ℤ)
      → (offers : List EffectClaim) → EffectOperation
  manage_sell_offer manage_buy_offer create_passive_sell_offer :
      (offers_claimed : List EffectClaim) → EffectOperation
  set_options : SetOptionsOp → EffectOperation
  change_trust : (line : AssetType) → (limit : ℤ) → EffectOperation
  allow_trust : (trustor : Text) → (asset : XdrAsset) → EffectOperation
  account_merge : (destination : Text) → (source_account_balance : ℤ) → EffectOperation
  inflation : (payouts : List (Text × ℤ)) → EffectOperation
  manage_data : (data_name : Text) → EffectOperation
  bump_sequence create_claimable_balance : EffectOperation
  claim_claimable_balance clawback_claimable_balance : (balance_id : Text) → EffectOperation
  clawback : (from : Text) → (asset : XdrAsset) → (amount : ℤ) → EffectOperation
  set_trust_line_flags :
      (trustor : Text) → (asset : XdrAsset) → (set_flags clear_flags : ℕ) → EffectOperation
  liquidity_pool_deposit liquidity_pool_withdraw : (pool_id : Text) → EffectOperation
  invoke_host_function restore_footprint : EffectOperation
  extend_footprint_ttl : (extend_to : ℕ) → EffectOperation
  -- the sponsorship operations
  begin_sponsoring end_sponsoring revoke_sponsorship : EffectOperation

module _ (sdk : EffectSdk) (source : Text) where
  native_amount : ℤ → Fields
  native_amount amount =
      field (codes "asset_type") (str (codes "native"))
        (field (codes "amount") (str (sdk.amount_string amount)) end)

  unfoldable pub asset_and_amount : XdrAsset → ℤ → Fields
  unfolding add_asset_details
  asset_and_amount asset amount =
      add_asset_details sdk asset [] (one_text (codes "amount") (sdk.amount_string amount))

  -- the default weight of a signer, the SDK's constant, is 1
  unfoldable pub create_account_effects : Text → ℤ → List EffectRecord
  unfolding native_amount
  create_account_effects destination starting_balance =
      effect_at sdk destination effect_account_created
        (one_text (codes "starting_balance") (sdk.amount_string starting_balance))
      ∷ effect_at sdk source effect_account_debited (native_amount starting_balance)
      ∷ effect_at sdk destination effect_signer_created (
          field (codes "public_key") (str (sdk.address_of destination))
            (field (codes "weight") (num (pos 1)) end))
      ∷ []

  -- a credit of the destination and a debit of the source
  unfoldable pub transfer_effects : Text → XdrAsset → ℤ → XdrAsset → ℤ → List EffectRecord
  unfolding asset_and_amount
  transfer_effects destination credited credited_amount debited debited_amount =
      effect_at sdk destination effect_account_credited (asset_and_amount credited credited_amount)
      ∷ effect_at sdk source effect_account_debited (asset_and_amount debited debited_amount)
      ∷ []

  unfoldable pub account_merge_effects : Text → ℤ → List EffectRecord
  unfolding native_amount
  account_merge_effects destination balance =
      effect_at sdk source effect_account_debited (native_amount balance)
      ∷ effect_at sdk destination effect_account_credited (native_amount balance)
      ∷ effect_at sdk source effect_account_removed end
      ∷ []

  unfoldable pub payout_effects : List (Text × ℤ) → List EffectRecord
  unfolding native_amount
  payout_effects [] = []
  payout_effects ((destination, amount) ∷ payouts) =
      effect_at sdk destination effect_account_credited (native_amount amount)
      ∷ payout_effects payouts

  unfoldable pub clawback_effects : Text → XdrAsset → ℤ → List EffectRecord
  unfolding asset_and_amount
  clawback_effects from asset amount =
      effect_at sdk source effect_account_credited (asset_and_amount asset amount)
      ∷ effect_at sdk from effect_account_debited (asset_and_amount asset amount)
      ∷ []

  module _ (network : Text) (changes : Result (List EffectChange))
      (events : Result (List (Result AssetEvent))) where
    -- what the two path payments add
    abbrev pub path_payment_effects :
        Text → XdrAsset → ℤ → XdrAsset → ℤ → List EffectClaim → List EffectRecord
    path_payment_effects destination credited credited_amount debited debited_amount offers =
        transfer_effects destination credited credited_amount debited debited_amount
        ++ add_trade_effects sdk source changes offers

    -- what the three offer operations add
    abbrev pub offer_effects : List EffectClaim → List EffectRecord
    offer_effects offers = add_trade_effects sdk source changes offers

    -- the switch on the operation's type
    unfoldable pub operation_specific : EffectOperation → List EffectRecord
    unfolding create_account_effects transfer_effects account_merge_effects payout_effects
        clawback_effects add_trade_effects set_options_effects change_trust_effects
        allow_trust_effects manage_data_effects bump_sequence_effects
        create_claimable_balance_effects claim_claimable_balance_effects
        clawback_claimable_balance_effects set_trust_line_flags_effects deposit_effects
        withdraw_effects invoke_host_function_effects extend_footprint_ttl_effects
        restore_footprint_effects
    operation_specific (create_account destination balance) =
        create_account_effects destination balance
    operation_specific (payment destination asset amount) =
        transfer_effects destination asset amount asset amount
    operation_specific
          (path_payment_strict_receive destination dest dest_amount send send_amount offers) =
        path_payment_effects destination dest dest_amount send send_amount offers
    operation_specific
          (path_payment_strict_send destination dest dest_amount send send_amount offers) =
        path_payment_effects destination dest dest_amount send send_amount offers
    operation_specific (manage_sell_offer offers) = offer_effects offers
    operation_specific (manage_buy_offer offers) = offer_effects offers
    operation_specific (create_passive_sell_offer offers) = offer_effects offers
    operation_specific (set_options op) = set_options_effects sdk source op changes
    operation_specific (change_trust line limit) =
        change_trust_effects sdk source line limit changes
    operation_specific (allow_trust trustor asset) = allow_trust_effects sdk source trustor asset
    operation_specific (account_merge destination balance) =
        account_merge_effects destination balance
    operation_specific (inflation payouts) = payout_effects payouts
    operation_specific (manage_data name) = manage_data_effects sdk source name changes
    operation_specific bump_sequence = bump_sequence_effects sdk source changes
    operation_specific create_claimable_balance =
        create_claimable_balance_effects sdk source changes
    operation_specific (claim_claimable_balance id) =
        claim_claimable_balance_effects sdk source id changes
    operation_specific (clawback from asset amount) = clawback_effects from asset amount
    operation_specific (clawback_claimable_balance id) =
        clawback_claimable_balance_effects sdk source id changes
    operation_specific (set_trust_line_flags trustor asset set clear) =
        set_trust_line_flags_effects sdk source trustor asset set clear
    operation_specific (liquidity_pool_deposit id) = deposit_effects sdk source id changes
    operation_specific (liquidity_pool_withdraw id) = withdraw_effects sdk source id changes
    operation_specific invoke_host_function = invoke_host_function_effects sdk source network events
    operation_specific (extend_footprint_ttl extend_to) =
        extend_footprint_ttl_effects sdk source extend_to changes
    operation_specific restore_footprint = restore_footprint_effects sdk source changes
    operation_specific begin_sponsoring = []
    operation_specific end_sponsoring = []
    operation_specific revoke_sponsorship = []

  -- the effects that the changes have whatever the operation is
  unfoldable pub cross_cutting : List EffectChange → List EffectRecord
  unfolding sponsorship_effects lifecycle_effects
  cross_cutting [] = []
  cross_cutting (change ∷ changes) =
      (sponsorship_effects sdk source change ++ lifecycle_effects sdk source change)
      ++ cross_cutting changes

  unfoldable pub cross_cutting_of : Result (List EffectChange) → List EffectRecord
  unfolding cross_cutting
  cross_cutting_of (err e) = []
  cross_cutting_of (ok changes) = cross_cutting changes

  -- `e.records` behind the loops
  unfoldable pub operation_effects :
      Text
      → Result (List EffectChange)
      → Result (List (Result AssetEvent))
      → EffectOperation
      → List EffectRecord
  unfolding operation_specific cross_cutting_of
  operation_effects network changes events op =
      operation_specific network changes events op ++ cross_cutting_of changes
