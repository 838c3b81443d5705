-- ===== src/Effects/Trades/Mirror.antt =====
-- The two parties of a trade have effects that mirror each other.
use stellar_extract.Prelude.{
  arith, ℕ, ◌≡◌, refl, some, List, [], ◌∷◌, ◌++◌, Text, text_ordered, Bool-cases, inl, inr,
}
use stellar_extract.Effects.{
  EffectSdk, EffectRecord, EffectChange, ClaimKind, offer_claim, pool_claim, EffectClaim,
}
use stellar_extract.Effects.Details.{effect_at}
use stellar_extract.Effects.Pools.{find_delta}
use stellar_extract.Effects.Trades.{
  is_empty_trade, offer_trade_effects, pool_trade_effects, claim_effects, add_trade_effects,
}
use stellar_extract.Effects.Trades.Says.{Says, trade_details-Says}
use stellar_extract.Effects.Types.{
  effect_trade, effect_offer_updated, effect_offer_removed, effect_liquidity_pool_trade,
}
use stellar_extract.Go.Ints.{ℤ}
use stellar_extract.Go.Strings.{codes}
use stellar_extract.ScVal.Json.{str, Fields, get_field}
use stellar_extract.Trades.{XdrAsset}
use stellar_extract.Xdr.{Result, Result-cases}

-- The fields of the asset under one prefix are those under the other.
abbrev pub SameAsset : Text → Text → Fields → Fields → Type 0
SameAsset p q a b =
    (get_field (p ++ codes "asset_type") a ≡ get_field (q ++ codes "asset_type") b)
    × (get_field (p ++ codes "asset_code") a ≡ get_field (q ++ codes "asset_code") b)
    × (get_field (p ++ codes "asset_issuer") a ≡ get_field (q ++ codes "asset_issuer") b)

-- What `b` says of a trade is what `a` says of it, seen from the other party.
pub record Mirrors (a b : EffectRecord) : Type 0 where
  pub same_type : a.effect_type ≡ b.effect_type
  pub same_offer : get_field (codes "offer_id") a.details ≡ get_field (codes "offer_id") b.details
  pub seller_a : get_field (codes "seller") a.details ≡ some (str b.address)
  pub seller_b : get_field (codes "seller") b.details ≡ some (str a.address)
  pub bought :
      get_field (codes "bought_amount") a.details ≡ get_field (codes "sold_amount") b.details
  pub sold : get_field (codes "sold_amount") a.details ≡ get_field (codes "bought_amount") b.details
  pub bought_asset : SameAsset (codes "bought_") (codes "sold_") a.details b.details
  pub sold_asset : SameAsset (codes "sold_") (codes "bought_") a.details b.details

-- Effects come in mirrored pairs, but for trades with a pool, which has no account.
pub data ArePaired : List EffectRecord → Type 0 where
  no_effects : ArePaired []
  and_pair :
      (a b : EffectRecord) {es : List EffectRecord}
      → Mirrors a b
      → ArePaired es
      → ArePaired (a ∷ b ∷ es)
  and_pool :
      (e : EffectRecord) {es : List EffectRecord}
      → e.effect_type ≡ effect_liquidity_pool_trade
      → ArePaired es
      → ArePaired (e ∷ es)

module _ (sdk : EffectSdk) where
  mirrored :
      (t : ℕ) (offer_id : ℤ) (a b : Text) (x : XdrAsset) (m : ℤ) (y : XdrAsset) (n : ℤ)
      (d e : Fields)
      → Says sdk offer_id b x m y n d
      → Says sdk offer_id a y n x m e
      → Mirrors (effect_at sdk a t d) (effect_at sdk b t e)
  mirrored t offer_id a b x m y n d e p q = ground arith

  module _ (buyer : Text) (changes : Result (List EffectChange)) where
    -- the effects of one claim, in front of paired effects
    claim-ArePaired :
        (kind : ClaimKind) (claim : EffectClaim) (es : List EffectRecord)
        → ArePaired es
        → ArePaired (claim_effects sdk buyer changes kind claim ++ es)
    unfolding claim_effects offer_trade_effects pool_trade_effects
    claim-ArePaired (offer_claim seller id) claim es h =
        let bd =
          trade_details-Says sdk id seller claim.asset_sold claim.amount_sold claim.asset_bought
            claim.amount_bought in
        let sd =
          trade_details-Says sdk id buyer claim.asset_bought claim.amount_bought claim.asset_sold
            claim.amount_sold in
        let pair = λ (t : ℕ).
          mirrored t id buyer seller claim.asset_sold claim.amount_sold claim.asset_bought
            claim.amount_bought _ _ bd sd in
        and_pair _ _ (pair effect_trade)
          (and_pair _ _ (pair effect_offer_updated) (and_pair _ _ (pair effect_offer_removed) h))
    claim-ArePaired (pool_claim id) claim es h = elim (Result-cases (find_delta id changes)) [
      | inl (e, missing) ↦ rw (missing, claim_effects, pool_trade_effects) h
      | inr (d, found) ↦ rw (found, claim_effects, pool_trade_effects) (and_pool _ refl h)
    ]

    -- The effects of the claims of an operation come in pairs of one type, for the buyer and for the
    -- seller: the details of each name the other party, the same offer, and as bought, with amount,
    -- type, code and issuer, what the other's name as sold. The effects of trades with a pool alone
    -- stand by themselves.
    pub add_trade_effects-ArePaired :
        (claims : List EffectClaim) → ArePaired (add_trade_effects sdk buyer changes claims)
    unfolding add_trade_effects
    add_trade_effects-ArePaired [] = no_effects
    add_trade_effects-ArePaired (claim ∷ claims) = ground (
      arith,
      Bool-cases (is_empty_trade claim),
      add_trade_effects-ArePaired claims,
      claim-ArePaired claim.kind claim (add_trade_effects sdk buyer changes claims)
          (add_trade_effects-ArePaired claims),
    )
