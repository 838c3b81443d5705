-- ===== src/Market.antt =====
-- market.go, types_accounts.go, types_state.go: offers, claimable balances and liquidity pools.
pub mod Offers
pub mod Balances
pub mod Pools
use stellar_extract.Prelude.{Option, none, some, ℕ, Text}
use stellar_extract.Go.Ints.{ℤ}
use stellar_extract.Go.Strings.{codes}
use stellar_extract.Trades.{
  XdrAsset, asset_native, asset_alphanum4, asset_alphanum12, asset_pool_share, asset_other,
  trim_right,
}

-- the three columns of an asset
pub record AssetNames : Type 0 where
  pub asset_type : Text
  pub asset_code : Option Text
  pub asset_issuer : Option Text

-- xdr.OfferEntry
pub record OfferEntry : Type 0 where
  pub offer_id : ℤ
  pub seller_id : Text
  pub selling : XdrAsset
  pub buying : XdrAsset
  pub amount : ℤ
  pub price_n : ℤ
  pub price_d : ℤ
  pub flags : ℕ

-- xdr.ClaimableBalanceEntry; the id is a hash, or of a type that is not known
pub record BalanceEntry : Type 0 where
  pub balance_id : Option Text
  pub asset : XdrAsset
  pub amount : ℤ
  pub claimants : ℕ
  pub sponsoring_id : Option Text

-- xdr.LiquidityPoolEntry; a pool of another type has no constant product
pub record ConstantProduct : Type 0 where
  pub asset_a : XdrAsset
  pub asset_b : XdrAsset
  pub fee : ℤ
  pub reserve_a : ℤ
  pub reserve_b : ℤ
  pub total_pool_shares : ℤ
  pub pool_shares_trust_line_count : ℤ

pub record PoolEntry : Type 0 where
  pub liquidity_pool_id : Text
  pub constant_product : Option ConstantProduct

-- ingest.Change: its type, and the entry after the change
pub data MarketChange : Type 0 where
  offer_change : Option OfferEntry → MarketChange
  claimable_balance_change : Option BalanceEntry → MarketChange
  liquidity_pool_change : Option PoolEntry → MarketChange
  other_change : MarketChange

-- `Address` of an account is the SDK's
unfoldable pub parse_asset : (Text → Text) → XdrAsset → AssetNames
parse_asset address_of asset_native = record {
  asset_type = codes "native";
  asset_code = none;
  asset_issuer = none;
}
parse_asset address_of (asset_alphanum4 code issuer) = record {
  asset_type = codes "credit_alphanum4";
  asset_code = some (trim_right code);
  asset_issuer = some (address_of issuer);
}
parse_asset address_of (asset_alphanum12 code issuer) = record {
  asset_type = codes "credit_alphanum12";
  asset_code = some (trim_right code);
  asset_issuer = some (address_of issuer);
}
parse_asset address_of asset_pool_share = record {
  asset_type = codes "liquidity_pool_shares";
  asset_code = some (codes "POOL_SHARE");
  asset_issuer = some (codes "pool");
}
parse_asset address_of asset_other = record {
  asset_type = codes "unknown";
  asset_code = none;
  asset_issuer = none;
}
