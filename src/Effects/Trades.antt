-- ===== src/Effects/Trades.antt =====
-- effects.go: `addTradeEffects` and `addLPTradeEffect`.
pub mod Mirror
pub mod Says
use stellar_extract.Prelude.{ℕ, ◌&&◌, Bool, List, [], ◌∷◌, ◌++◌, if◌then◌else◌, Text, ◌==◌}
use stellar_extract.Effects.{
  EffectSdk, EffectRecord, EffectChange, ClaimKind, offer_claim, pool_claim, EffectClaim,
}
use stellar_extract.Effects.Details.{
  effect_at, add_asset_details, asset_amount, liquidity_pool_details, put_text,
}
use stellar_extract.Effects.Pools.{PoolDelta, find_delta, get_liquidity_pool_delta}
use stellar_extract.Effects.Types.{
  effect_trade, effect_offer_updated, effect_offer_removed, effect_liquidity_pool_trade,
}
use stellar_extract.Go.Ints.{ℤ, pos, int_ordered}
use stellar_extract.Go.Strings.{codes}
use stellar_extract.ScVal.Json.{Json, num, str, obj, Fields, end, field, put_field}
use stellar_extract.Trades.{XdrAsset}
use stellar_extract.Xdr.{Result, ok, err}

abbrev pub is_empty_trade : EffectClaim → Bool
is_empty_trade claim = claim.amount_sold == pos 0 && claim.amount_bought == pos 0

module _ (sdk : EffectSdk) where
  -- one side of a trade: the other party, what it bought and what it sold
  unfoldable pub trade_details : ℤ → Text → XdrAsset → ℤ → XdrAsset → ℤ → Fields
  unfolding add_asset_details
  trade_details offer_id party bought bought_amount sold sold_amount =
      add_asset_details sdk sold (codes "sold_") (
        add_asset_details sdk bought (codes "bought_") (
          field (codes "offer_id") (num offer_id) (
            field (codes "seller") (str (sdk.address_of party)) (
              field (codes "bought_amount") (str (sdk.amount_string bought_amount))
                (field (codes "sold_amount") (str (sdk.amount_string sold_amount)) end)))))

  -- the six effects of a trade between two accounts
  unfoldable pub offer_trade_effects : Text → Text → ℤ → EffectClaim → List EffectRecord
  unfolding trade_details
  offer_trade_effects buyer seller offer_id claim =
      let bd =
        trade_details offer_id seller claim.asset_sold claim.amount_sold claim.asset_bought
          claim.amount_bought in
      let sd =
        trade_details offer_id buyer claim.asset_bought claim.amount_bought claim.asset_sold
          claim.amount_sold in
      effect_at sdk buyer effect_trade bd
      ∷ effect_at sdk seller effect_trade sd
      ∷ effect_at sdk buyer effect_offer_updated bd
      ∷ effect_at sdk seller effect_offer_updated sd
      ∷ effect_at sdk buyer effect_offer_removed bd
      ∷ effect_at sdk seller effect_offer_removed sd
      ∷ []

  pool_trade_details : EffectClaim → PoolDelta → Fields
  unfolding liquidity_pool_details
  pool_trade_details claim d =
      field (codes "liquidity_pool") (obj (liquidity_pool_details sdk d.lp)) (
        field (codes "sold") (asset_amount sdk claim.asset_sold claim.amount_sold)
          (field (codes "bought") (asset_amount sdk claim.asset_bought claim.amount_bought) end))

  -- `addLPTradeEffect`; the source account is the buyer
  unfoldable pub pool_trade_effects :
      Text → Text → EffectClaim → Result (List EffectChange) → List EffectRecord
  unfolding pool_trade_details get_liquidity_pool_delta
  pool_trade_effects buyer pool_id claim changes = elim (find_delta pool_id changes) [
    | err e ↦ []
    | ok d ↦ effect_at sdk buyer effect_liquidity_pool_trade (pool_trade_details claim d) ∷ []
  ]

  unfoldable pub claim_effects :
      Text → Result (List EffectChange) → ClaimKind → EffectClaim → List EffectRecord
  unfolding offer_trade_effects pool_trade_effects
  claim_effects buyer changes (pool_claim pool_id) claim =
      pool_trade_effects buyer pool_id claim changes
  claim_effects buyer changes (offer_claim seller offer_id) claim =
      offer_trade_effects buyer seller offer_id claim

  -- `addTradeEffects`; claims of nothing for nothing are passed over
  unfoldable pub add_trade_effects :
      Text → Result (List EffectChange) → List EffectClaim → List EffectRecord
  unfolding claim_effects
  add_trade_effects buyer changes [] = []
  add_trade_effects buyer changes (claim ∷ claims) =
      (if is_empty_trade claim then [] else claim_effects buyer changes claim.kind claim)
      ++ add_trade_effects buyer changes claims
