-- ===== src/Market/Balances.antt =====
-- market.go, types_state.go: `ExtractClaimableBalances`.
use stellar_extract.Prelude.{
  arith, ℕ, ◌%◌, ◌^◌, ◌≡◌, Option, none, some, List, [], Text, text_ordered,
}
use stellar_extract.Go.Ints.{ℤ, to_i32}
use stellar_extract.Go.Strings.{hex_encode}
use stellar_extract.Ordering.{sorted_map_values}
use stellar_extract.Ordering.Snapshot.{OfSome, IsSnapshotOf, nothing, collect, collect_lem}
use stellar_extract.Xdr.{Result, ok, err}
use stellar_extract.Xdr.Ledger.{LedgerInput}
use stellar_extract.Market.{
  AssetNames, BalanceEntry, MarketChange, claimable_balance_change, parse_asset,
}

pub record ClaimableBalanceData : Type 0 where
  pub balance_id : Text
  pub sponsor : Text
  pub ledger_sequence : ℕ
  pub closed_at : ℕ
  pub asset : AssetNames
  pub amount : ℤ
  pub claimants_count : ℤ
  pub flags : ℕ
  pub created_at : ℕ
  pub ledger_range : ℕ
  pub era_id : Option Text

module _ (address_of : Text → Text) (clock : ℕ → ℕ) (input : LedgerInput) where
  -- the empty text where there is no sponsor
  abbrev pub sponsor_of : Option Text → Text
  sponsor_of none = []
  sponsor_of (some account) = address_of account

  balance_data : ℕ → BalanceEntry → Text → ClaimableBalanceData
  unfolding parse_asset hex_encode
  balance_data reading entry hash = record {
    balance_id = hex_encode hash;
    sponsor = sponsor_of entry.sponsoring_id;
    ledger_sequence = input.sequence;
    closed_at = input.closed_at;
    asset = parse_asset address_of entry.asset;
    amount = entry.amount;
    claimants_count = to_i32 (entry.claimants % 2 ^ 32);
    flags = 0;
    created_at = clock reading;
    ledger_range = input.ledger_range;
    era_id = input.era_id;
  }

  -- an id of an unknown type gives no row
  balance_with_id : ℕ → BalanceEntry → Option Text → Option ClaimableBalanceData
  unfolding balance_data
  balance_with_id reading entry none = none
  balance_with_id reading entry (some hash) = some (balance_data reading entry hash)

  unfoldable pub balance_row : ℕ → MarketChange → Option ClaimableBalanceData
  unfolding balance_with_id
  balance_row reading (claimable_balance_change (some entry)) =
      balance_with_id reading entry entry.balance_id
  balance_row reading _ = none

  unfoldable pub extract_claimable_balances : Result (List MarketChange) → List ClaimableBalanceData
  unfolding balance_row collect sorted_map_values
  extract_claimable_balances (err e) = []
  extract_claimable_balances (ok changes) =
      sorted_map_values (collect (λ r. r.balance_id) balance_row changes nothing).entries

  pub record IsBalanceRow (entry : BalanceEntry) (row : ClaimableBalanceData) : Type 0 where
    pub hash : Text
    pub known : entry.balance_id ≡ some hash
    pub id : row.balance_id ≡ hex_encode hash
    pub sponsored : row.sponsor ≡ sponsor_of entry.sponsoring_id
    pub of_asset : row.asset ≡ parse_asset address_of entry.asset
    pub holds : row.amount ≡ entry.amount
    pub of_ledger : row.ledger_sequence ≡ input.sequence

  abbrev pub BalanceRowOf : MarketChange → ClaimableBalanceData → Type 0
  BalanceRowOf (claimable_balance_change (some entry)) row = IsBalanceRow entry row
  BalanceRowOf _ row = ⊥

  balance_row-BalanceRowOf :
      (n : ℕ) (change : MarketChange)
      → OfSome (λ r. r.balance_id) (BalanceRowOf change) (balance_row n change)
  unfolding balance_row balance_with_id balance_data
  balance_row-BalanceRowOf n change = ground arith

  -- The balance rows hold the state of each claimable balance after its last change that leaves it
  -- in place, in increasing order of the ids, and each is the row of a balance of a known id type
  -- that a change leaves in place.
  pub extract_claimable_balances_lem :
      (changes : List MarketChange)
      → IsSnapshotOf
          (λ r. r.balance_id)
          balance_row
          BalanceRowOf
          changes
          (extract_claimable_balances (ok changes))
  unfolding extract_claimable_balances
  extract_claimable_balances_lem =
      collect_lem (λ r. r.balance_id) balance_row BalanceRowOf balance_row-BalanceRowOf
