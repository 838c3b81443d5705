-- ===== src/Tests/Storage.antt =====
-- Examples of contract data and of offers.
use stellar_extract.Prelude.{none, some, List, [], ◌∷◌, text_ordered}
use stellar_extract.Go.Ints.{ℤ, pos, int_ordered}
use stellar_extract.Go.Strings.{codes}
use stellar_extract.Ordering.Snapshot.Table.{IsTableOf}
use stellar_extract.Soroban.ContractData.{
  ContractDataEntry, DataChange, contract_data_change, no_data_change, sac_issued, DataSdk,
  data_key, extract_contract_data,
}
use stellar_extract.Soroban.ContractData.Rows.{
  shown, shown_key, RowOf, extract_contract_data-IsTableOf,
}
use stellar_extract.Market.{OfferEntry, MarketChange, offer_change, other_change}
use stellar_extract.Market.Offers
use stellar_extract.Market.Offers.{IsOfferRow, extract_offers, extract_offers-IsTableOf}
use stellar_extract.Trades.{asset_native, asset_alphanum4}
use stellar_extract.Tests.Data.{clock, input, sdk}
use stellar_extract.Xdr.{ok}
use stellar_extract.Xdr.Ledger.{Entry}
use stellar_extract.Xdr.Values.{
  ScVal, no_entries, and_entry, address_contract, scv_symbol, scv_string, scv_u32, scv_map,
  scv_ledger_key_nonce, scv_ledger_key_contract_instance,
}

abbrev data_sdk : DataSdk
data_sdk = record {
  values = sdk;
  marshal_hash = λ h. ok h;
  marshal_data = λ e. ok (codes "data");
  key_bytes = λ e. ok (codes "key");
  durability_string = λ d. codes "persistent";
  asset_of = λ e. some (sac_issued (codes "USDC") (codes "G"));
  balance_of = λ e. some (codes "H", pos 5);
  sha256 = λ bytes. bytes;
}

-- Entries of the contract C; their storage names a token.
abbrev entry_at : ScVal → Entry ContractDataEntry
entry_at key = record {
  last_modified_ledger_seq = 41;
  body = record {
    contract = address_contract (some (codes "C"));
    key = key;
    durability = 1;
    storage = some (
        and_entry (scv_symbol (some (codes "METADATA")))
          (scv_map (
            and_entry (scv_symbol (some (codes "name"))) (scv_string (some (codes "Token")))
              (and_entry (scv_symbol (some (codes "decimal"))) (scv_u32 (some 7)) no_entries)))
          no_entries);
    payload = scv_u32 none;
  };
}

-- An instance is created, a nonce is used, and a counter is removed.
abbrev changes : List DataChange
changes =
    contract_data_change (pos 6) none (some (entry_at scv_ledger_key_contract_instance))
    ∷ contract_data_change (pos 6) none (some (entry_at (scv_ledger_key_nonce none)))
    ∷ no_data_change
    ∷ contract_data_change (pos 6) (some (entry_at (scv_symbol (some (codes "n"))))) none
    ∷ []

extract_contract_data-IsTableOf_example :
    IsTableOf data_key
      (shown data_sdk)
      (shown_key data_sdk)
      (RowOf data_sdk input)
      changes
      (extract_contract_data data_sdk clock input (ok changes))
extract_contract_data-IsTableOf_example =
    extract_contract_data-IsTableOf data_sdk input clock changes

-- An offer that stands after two changes, and one that is removed after the first.
abbrev offer_of : ℤ → ℤ → OfferEntry
offer_of id amount = record {
  offer_id = id;
  seller_id = codes "G";
  selling = asset_native;
  buying = asset_alphanum4 (b'U' ∷ b'S' ∷ b'D' ∷ 0 ∷ []) (codes "I");
  amount = amount;
  price_n = pos 1;
  price_d = pos 3;
  flags = 0;
}

abbrev offers_changed : List MarketChange
offers_changed =
    offer_change (some (offer_of (pos 9) (pos 100)))
    ∷ other_change
    ∷ offer_change (some (offer_of (pos 4) (pos 7)))
    ∷ offer_change (some (offer_of (pos 9) (pos 60)))
    ∷ offer_change none
    ∷ []

extract_offers-IsTableOf_example :
    IsTableOf
      (λ r. r.offer_id)
      (Offers.shown (λ id. id) clock input)
      (Offers.shown_id (λ id. id) clock input)
      (IsOfferRow (λ id. id) clock input)
      offers_changed
      (extract_offers (λ id. id) clock input (ok offers_changed))
extract_offers-IsTableOf_example = extract_offers-IsTableOf (λ id. id) clock input offers_changed
