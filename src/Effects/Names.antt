-- ===== src/Effects/Names.antt =====
-- effects.go: the names of the effect types.
use stellar_extract.Prelude.{ℕ, [], ◌∷◌, ◌++◌, Text, none, some, nat_ordered}
use stellar_extract.Go.Maps.{GoMap, get}
use stellar_extract.Go.Strings.{codes, decimal}
use stellar_extract.Effects.Types.{
  effect_account_created, effect_account_removed, effect_account_credited, effect_account_debited,
  effect_account_thresholds_updated, effect_account_home_domain_updated,
  effect_account_flags_updated, effect_account_inflation_destination_updated, effect_signer_created,
  effect_signer_removed, effect_signer_updated, effect_trustline_created, effect_trustline_removed,
  effect_trustline_updated, effect_trustline_flags_updated, effect_offer_created,
  effect_offer_removed, effect_offer_updated, effect_trade, effect_data_created,
  effect_data_removed, effect_data_updated, effect_sequence_bumped,
  effect_claimable_balance_created, effect_claimable_balance_claimant_created,
  effect_claimable_balance_claimed, effect_account_sponsorship_created,
  effect_account_sponsorship_updated, effect_account_sponsorship_removed,
  effect_trustline_sponsorship_created, effect_trustline_sponsorship_updated,
  effect_trustline_sponsorship_removed, effect_data_sponsorship_created,
  effect_data_sponsorship_updated, effect_data_sponsorship_removed,
  effect_claimable_balance_sponsorship_created, effect_claimable_balance_sponsorship_updated,
  effect_claimable_balance_sponsorship_removed, effect_signer_sponsorship_created,
  effect_signer_sponsorship_updated, effect_signer_sponsorship_removed,
  effect_claimable_balance_clawed_back, effect_liquidity_pool_deposited,
  effect_liquidity_pool_withdrew, effect_liquidity_pool_trade, effect_liquidity_pool_created,
  effect_liquidity_pool_removed, effect_liquidity_pool_revoked, effect_contract_credited,
  effect_contract_debited, effect_extend_footprint_ttl, effect_restore_footprint,
}

abbrev pub effect_type_names : GoMap ℕ Text
effect_type_names =
    (effect_account_created, codes "account_created")
    ∷ (effect_account_removed, codes "account_removed")
    ∷ (effect_account_credited, codes "account_credited")
    ∷ (effect_account_debited, codes "account_debited")
    ∷ (effect_account_thresholds_updated, codes "account_thresholds_updated")
    ∷ (effect_account_home_domain_updated, codes "account_home_domain_updated")
    ∷ (effect_account_flags_updated, codes "account_flags_updated")
    ∷ (effect_account_inflation_destination_updated, codes "account_inflation_destination_updated")
    ∷ (effect_signer_created, codes "signer_created")
    ∷ (effect_signer_removed, codes "signer_removed")
    ∷ (effect_signer_updated, codes "signer_updated")
    ∷ (effect_trustline_created, codes "trustline_created")
    ∷ (effect_trustline_removed, codes "trustline_removed")
    ∷ (effect_trustline_updated, codes "trustline_updated")
    ∷ (effect_trustline_flags_updated, codes "trustline_flags_updated")
    ∷ (effect_offer_created, codes "offer_created")
    ∷ (effect_offer_removed, codes "offer_removed")
    ∷ (effect_offer_updated, codes "offer_updated")
    ∷ (effect_trade, codes "trade")
    ∷ (effect_data_created, codes "data_created")
    ∷ (effect_data_removed, codes "data_removed")
    ∷ (effect_data_updated, codes "data_updated")
    ∷ (effect_sequence_bumped, codes "sequence_bumped")
    ∷ (effect_claimable_balance_created, codes "claimable_balance_created")
    ∷ (effect_claimable_balance_claimant_created, codes "claimable_balance_claimant_created")
    ∷ (effect_claimable_balance_claimed, codes "claimable_balance_claimed")
    ∷ (effect_account_sponsorship_created, codes "account_sponsorship_created")
    ∷ (effect_account_sponsorship_updated, codes "account_sponsorship_updated")
    ∷ (effect_account_sponsorship_removed, codes "account_sponsorship_removed")
    ∷ (effect_trustline_sponsorship_created, codes "trustline_sponsorship_created")
    ∷ (effect_trustline_sponsorship_updated, codes "trustline_sponsorship_updated")
    ∷ (effect_trustline_sponsorship_removed, codes "trustline_sponsorship_removed")
    ∷ (effect_data_sponsorship_created, codes "data_sponsorship_created")
    ∷ (effect_data_sponsorship_updated, codes "data_sponsorship_updated")
    ∷ (effect_data_sponsorship_removed, codes "data_sponsorship_removed")
    ∷ (effect_claimable_balance_sponsorship_created, codes "claimable_balance_sponsorship_created")
    ∷ (effect_claimable_balance_sponsorship_updated, codes "claimable_balance_sponsorship_updated")
    ∷ (effect_claimable_balance_sponsorship_removed, codes "claimable_balance_sponsorship_removed")
    ∷ (effect_signer_sponsorship_created, codes "signer_sponsorship_created")
    ∷ (effect_signer_sponsorship_updated, codes "signer_sponsorship_updated")
    ∷ (effect_signer_sponsorship_removed, codes "signer_sponsorship_removed")
    ∷ (effect_claimable_balance_clawed_back, codes "claimable_balance_clawed_back")
    ∷ (effect_liquidity_pool_deposited, codes "liquidity_pool_deposited")
    ∷ (effect_liquidity_pool_withdrew, codes "liquidity_pool_withdrew")
    ∷ (effect_liquidity_pool_trade, codes "liquidity_pool_trade")
    ∷ (effect_liquidity_pool_created, codes "liquidity_pool_created")
    ∷ (effect_liquidity_pool_removed, codes "liquidity_pool_removed")
    ∷ (effect_liquidity_pool_revoked, codes "liquidity_pool_revoked")
    ∷ (effect_contract_credited, codes "contract_credited")
    ∷ (effect_contract_debited, codes "contract_debited")
    ∷ (effect_extend_footprint_ttl, codes "extend_footprint_ttl")
    ∷ (effect_restore_footprint, codes "restore_footprint")
    ∷ []

-- `effectTypeNames[t]`, or `unknown_` and the number where the map has no name that is not empty
unfoldable pub effect_type_name : ℕ → Text
unfolding decimal
effect_type_name t = elim (get t effect_type_names) [
  | none ↦ codes "unknown_" ++ decimal t
  | some [] ↦ codes "unknown_" ++ decimal t
  | some (c ∷ name) ↦ c ∷ name
]
