-- ===== src/Effects/Types.antt =====
-- effects.go: the numbers of the effect types.
use stellar_extract.Prelude.{ℕ}

abbrev pub effect_account_created : ℕ
effect_account_created = 0

abbrev pub effect_account_removed : ℕ
effect_account_removed = 1

abbrev pub effect_account_credited : ℕ
effect_account_credited = 2

abbrev pub effect_account_debited : ℕ
effect_account_debited = 3

abbrev pub effect_account_thresholds_updated : ℕ
effect_account_thresholds_updated = 4

abbrev pub effect_account_home_domain_updated : ℕ
effect_account_home_domain_updated = 5

abbrev pub effect_account_flags_updated : ℕ
effect_account_flags_updated = 6

abbrev pub effect_account_inflation_destination_updated : ℕ
effect_account_inflation_destination_updated = 7

abbrev pub effect_signer_created : ℕ
effect_signer_created = 10

abbrev pub effect_signer_removed : ℕ
effect_signer_removed = 11

abbrev pub effect_signer_updated : ℕ
effect_signer_updated = 12

abbrev pub effect_trustline_created : ℕ
effect_trustline_created = 20

abbrev pub effect_trustline_removed : ℕ
effect_trustline_removed = 21

abbrev pub effect_trustline_updated : ℕ
effect_trustline_updated = 22

abbrev pub effect_trustline_flags_updated : ℕ
effect_trustline_flags_updated = 26

abbrev pub effect_offer_created : ℕ
effect_offer_created = 30

abbrev pub effect_offer_removed : ℕ
effect_offer_removed = 31

abbrev pub effect_offer_updated : ℕ
effect_offer_updated = 32

abbrev pub effect_trade : ℕ
effect_trade = 33

abbrev pub effect_data_created : ℕ
effect_data_created = 40

abbrev pub effect_data_removed : ℕ
effect_data_removed = 41

abbrev pub effect_data_updated : ℕ
effect_data_updated = 42

abbrev pub effect_sequence_bumped : ℕ
effect_sequence_bumped = 43

abbrev pub effect_claimable_balance_created : ℕ
effect_claimable_balance_created = 50

abbrev pub effect_claimable_balance_claimant_created : ℕ
effect_claimable_balance_claimant_created = 51

abbrev pub effect_claimable_balance_claimed : ℕ
effect_claimable_balance_claimed = 52

abbrev pub effect_account_sponsorship_created : ℕ
effect_account_sponsorship_created = 60

abbrev pub effect_account_sponsorship_updated : ℕ
effect_account_sponsorship_updated = 61

abbrev pub effect_account_sponsorship_removed : ℕ
effect_account_sponsorship_removed = 62

abbrev pub effect_trustline_sponsorship_created : ℕ
effect_trustline_sponsorship_created = 63

abbrev pub effect_trustline_sponsorship_updated : ℕ
effect_trustline_sponsorship_updated = 64

abbrev pub effect_trustline_sponsorship_removed : ℕ
effect_trustline_sponsorship_removed = 65

abbrev pub effect_data_sponsorship_created : ℕ
effect_data_sponsorship_created = 66

abbrev pub effect_data_sponsorship_updated : ℕ
effect_data_sponsorship_updated = 67

abbrev pub effect_data_sponsorship_removed : ℕ
effect_data_sponsorship_removed = 68

abbrev pub effect_claimable_balance_sponsorship_created : ℕ
effect_claimable_balance_sponsorship_created = 69

abbrev pub effect_claimable_balance_sponsorship_updated : ℕ
effect_claimable_balance_sponsorship_updated = 70

abbrev pub effect_claimable_balance_sponsorship_removed : ℕ
effect_claimable_balance_sponsorship_removed = 71

abbrev pub effect_signer_sponsorship_created : ℕ
effect_signer_sponsorship_created = 72

abbrev pub effect_signer_sponsorship_updated : ℕ
effect_signer_sponsorship_updated = 73

abbrev pub effect_signer_sponsorship_removed : ℕ
effect_signer_sponsorship_removed = 74

abbrev pub effect_claimable_balance_clawed_back : ℕ
effect_claimable_balance_clawed_back = 80

abbrev pub effect_liquidity_pool_deposited : ℕ
effect_liquidity_pool_deposited = 90

abbrev pub effect_liquidity_pool_withdrew : ℕ
effect_liquidity_pool_withdrew = 91

abbrev pub effect_liquidity_pool_trade : ℕ
effect_liquidity_pool_trade = 92

abbrev pub effect_liquidity_pool_created : ℕ
effect_liquidity_pool_created = 93

abbrev pub effect_liquidity_pool_removed : ℕ
effect_liquidity_pool_removed = 94

abbrev pub effect_liquidity_pool_revoked : ℕ
effect_liquidity_pool_revoked = 95

abbrev pub effect_contract_credited : ℕ
effect_contract_credited = 96

abbrev pub effect_contract_debited : ℕ
effect_contract_debited = 97

abbrev pub effect_extend_footprint_ttl : ℕ
effect_extend_footprint_ttl = 98

abbrev pub effect_restore_footprint : ℕ
effect_restore_footprint = 99
