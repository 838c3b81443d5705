-- ===== src/Market/Offers.antt =====
-- market.go: `ExtractOffers`.
use stellar_extract.Prelude.{arith, ℕ, ◌≡◌, refl, Option, none, some, List, [], ◌∷◌, ◌++◌, Text}
use stellar_extract.Go.Ints.{ℤ, int_ordered}
use stellar_extract.Go.Strings.{codes, decimal_int}
use stellar_extract.Ordering.{sorted_map_values}
use stellar_extract.Ordering.Snapshot.{nothing, collect}
use stellar_extract.Ordering.Snapshot.Table.{Matches, IsTableOf, collect-IsTableOf}
use stellar_extract.Xdr.{Result, ok, err}
use stellar_extract.Xdr.Ledger.{LedgerInput}
use stellar_extract.Trades.{
  XdrAsset, asset_native, asset_alphanum4, asset_alphanum12, asset_pool_share, asset_other,
  trim_right,
}
use stellar_extract.Market.{
  AssetNames, OfferEntry, MarketChange, offer_change, claimable_balance_change,
  liquidity_pool_change, other_change, parse_asset,
}

pub record OfferData : Type 0 where
  pub offer_id : ℤ
  pub seller_account : Text
  pub ledger_sequence : ℕ
  pub closed_at : ℕ
  pub selling : AssetNames
  pub buying : AssetNames
  pub amount : Text
  pub price : Text
  pub flags : ℕ
  pub created_at : ℕ
  pub ledger_range : ℕ
  pub era_id : Option Text

module _ (address_of : Text → Text) (clock : ℕ → ℕ) (input : LedgerInput) where
  unfoldable pub extract_offer_data_from_entry : ℕ → OfferEntry → OfferData
  unfolding parse_asset decimal_int
  extract_offer_data_from_entry reading entry = record {
    offer_id = entry.offer_id;
    seller_account = address_of entry.seller_id;
    ledger_sequence = input.sequence;
    closed_at = input.closed_at;
    selling = parse_asset address_of entry.selling;
    buying = parse_asset address_of entry.buying;
    amount = decimal_int entry.amount;
    price = decimal_int entry.price_n ++ (b'/' ∷ decimal_int entry.price_d);
    flags = entry.flags;
    created_at = clock reading;
    ledger_range = input.ledger_range;
    era_id = input.era_id;
  }

  -- the body of the loop; an offer that is removed has no entry after the change
  unfoldable pub offer_row : ℕ → MarketChange → Option OfferData
  unfolding extract_offer_data_from_entry
  offer_row reading (offer_change (some entry)) = some (extract_offer_data_from_entry reading entry)
  offer_row reading _ = none

  unfoldable pub extract_offers : Result (List MarketChange) → List OfferData
  unfolding offer_row collect sorted_map_values
  extract_offers (err e) = []
  extract_offers (ok changes) =
      sorted_map_values (collect (λ r. r.offer_id) offer_row changes nothing).entries

  -- The columns of an asset: its code without trailing zeros, and the address of its issuer.
  abbrev pub HasNames : XdrAsset → AssetNames → Type 0
  HasNames asset_native names =
      (names.asset_type ≡ codes "native") × (names.asset_code ≡ none) × (names.asset_issuer ≡ none)
  HasNames (asset_alphanum4 code issuer) names =
      (names.asset_type ≡ codes "credit_alphanum4")
      × (names.asset_code ≡ some (trim_right code))
      × (names.asset_issuer ≡ some (address_of issuer))
  HasNames (asset_alphanum12 code issuer) names =
      (names.asset_type ≡ codes "credit_alphanum12")
      × (names.asset_code ≡ some (trim_right code))
      × (names.asset_issuer ≡ some (address_of issuer))
  HasNames asset_pool_share names =
      (names.asset_type ≡ codes "liquidity_pool_shares")
      × (names.asset_code ≡ some (codes "POOL_SHARE"))
      × (names.asset_issuer ≡ some (codes "pool"))
  HasNames asset_other names =
      (names.asset_type ≡ codes "unknown") × (names.asset_code ≡ none) × (names.asset_issuer ≡ none)

  parse_asset-HasNames : (asset : XdrAsset) → HasNames asset (parse_asset address_of asset)
  unfolding parse_asset
  parse_asset-HasNames asset = ground arith

  -- The row of an offer as it stands after the change.
  pub record IsOfferRow (entry : OfferEntry) (row : OfferData) : Type 0 where
    pub seller : row.seller_account ≡ address_of entry.seller_id
    pub sells : HasNames entry.selling row.selling
    pub buys : HasNames entry.buying row.buying
    pub amount : row.amount ≡ decimal_int entry.amount
    pub priced : row.price ≡ decimal_int entry.price_n ++ (b'/' ∷ decimal_int entry.price_d)
    pub flagged : row.flags ≡ entry.flags
    pub of_ledger : row.ledger_sequence ≡ input.sequence
    pub closed : row.closed_at ≡ input.closed_at
    pub in_range : row.ledger_range ≡ input.ledger_range
    pub of_era : row.era_id ≡ input.era_id

  -- A change that leaves an offer in place shows it.
  abbrev pub shown : MarketChange → Option OfferEntry
  shown (offer_change post) = post
  shown (claimable_balance_change post) = none
  shown (liquidity_pool_change post) = none
  shown other_change = none

  abbrev pub shown_id : OfferEntry → ℤ
  shown_id entry = entry.offer_id

  of_entry :
      (n : ℕ) (entry : OfferEntry)
      → IsOfferRow entry (extract_offer_data_from_entry n entry)
        × ((extract_offer_data_from_entry n entry).offer_id ≡ shown_id entry)
  unfolding extract_offer_data_from_entry
  of_entry n entry = (
    record {
      seller = refl;
      sells = parse_asset-HasNames entry.selling;
      buys = parse_asset-HasNames entry.buying;
      amount = refl;
      priced = refl;
      flagged = refl;
      of_ledger = refl;
      closed = refl;
      in_range = refl;
      of_era = refl;
    },
    refl,
  )

  offer_row-Matches :
      (n : ℕ) (change : MarketChange)
      → Matches
          (λ r. r.offer_id)
          (λ s v. IsOfferRow s v × (v.offer_id ≡ shown_id s))
          (shown change)
          (offer_row n change)
  unfolding offer_row
  offer_row-Matches n (offer_change none) = tt
  offer_row-Matches n (offer_change (some entry)) = of_entry n entry
  offer_row-Matches n (claimable_balance_change post) = tt
  offer_row-Matches n (liquidity_pool_change post) = tt
  offer_row-Matches n other_change = tt

  -- Every offer that a change leaves in place has one row, in increasing order of the offer ids,
  -- with the state after the last such change of it: its seller, its price as a fraction, its amount
  -- and the columns of its two assets. An offer that is removed keeps the row of an earlier change
  -- of the ledger, and has none without one.
  pub extract_offers-IsTableOf :
      (changes : List MarketChange)
      → IsTableOf (λ r. r.offer_id) shown shown_id IsOfferRow changes (extract_offers (ok changes))
  unfolding extract_offers
  extract_offers-IsTableOf =
      collect-IsTableOf (λ r. r.offer_id) shown shown_id IsOfferRow offer_row offer_row-Matches
