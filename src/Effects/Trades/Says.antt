-- ===== src/Effects/Trades/Says.antt =====
-- What the details of a trade's effect say.
use stellar_extract.Prelude.{arith, ◌≡◌, Option, none, some, ◌++◌, Text, text_ordered}
use stellar_extract.Effects.{EffectSdk}
use stellar_extract.Effects.Trades.{trade_details}
use stellar_extract.Go.Ints.{ℤ}
use stellar_extract.Go.Strings.{codes}
use stellar_extract.ScVal.Json.{Json, num, str, Fields, get_field}
use stellar_extract.Trades.{
  XdrAsset, asset_native, asset_alphanum4, asset_alphanum12, asset_pool_share, asset_other,
}

module _ (sdk : EffectSdk) where
  abbrev pub code_of : XdrAsset → Option Json
  code_of asset_native = none
  code_of (asset_alphanum4 c i) = some (str (sdk.asset_extract (asset_alphanum4 c i)).code)
  code_of (asset_alphanum12 c i) = some (str (sdk.asset_extract (asset_alphanum12 c i)).code)
  code_of asset_pool_share = some (str (sdk.asset_extract asset_pool_share).code)
  code_of asset_other = some (str (sdk.asset_extract asset_other).code)

  abbrev pub issuer_of : XdrAsset → Option Json
  issuer_of asset_native = none
  issuer_of (asset_alphanum4 c i) = some (str (sdk.asset_extract (asset_alphanum4 c i)).issuer)
  issuer_of (asset_alphanum12 c i) = some (str (sdk.asset_extract (asset_alphanum12 c i)).issuer)
  issuer_of asset_pool_share = some (str (sdk.asset_extract asset_pool_share).issuer)
  issuer_of asset_other = some (str (sdk.asset_extract asset_other).issuer)

  -- The details have the asset under the prefix.
  abbrev pub HasAsset : Text → XdrAsset → Fields → Type 0
  HasAsset p asset fs =
      (get_field (p ++ codes "asset_type") fs ≡ some (str (sdk.asset_extract asset).asset_type))
      × (get_field (p ++ codes "asset_code") fs ≡ code_of asset)
      × (get_field (p ++ codes "asset_issuer") fs ≡ issuer_of asset)

  -- What one party's details say of a trade.
  pub record Says (offer_id : ℤ) (party : Text) (bought : XdrAsset) (bought_amount : ℤ)
      (sold : XdrAsset) (sold_amount : ℤ) (d : Fields) : Type 0 where
    pub offer : get_field (codes "offer_id") d ≡ some (num offer_id)
    pub seller : get_field (codes "seller") d ≡ some (str (sdk.address_of party))
    pub buys : get_field (codes "bought_amount") d ≡ some (str (sdk.amount_string bought_amount))
    pub sells : get_field (codes "sold_amount") d ≡ some (str (sdk.amount_string sold_amount))
    pub buys_asset : HasAsset (codes "bought_") bought d
    pub sells_asset : HasAsset (codes "sold_") sold d

  module _ (offer_id : ℤ) (party : Text) (bought : XdrAsset) (bought_amount : ℤ) (sold : XdrAsset)
      (sold_amount : ℤ) where
    pub trade_details-Says :
        Says offer_id party bought bought_amount sold sold_amount
          (trade_details sdk offer_id party bought bought_amount sold sold_amount)
    unfolding trade_details
    trade_details-Says = ground arith
