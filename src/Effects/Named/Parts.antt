-- ===== src/Effects/Named/Parts.antt =====
-- The effects of trades, pools, signers, sponsors and contracts have types with names.
use stellar_extract.Prelude.{arith, ℕ, refl, List, [], ◌∷◌, Text, text_ordered, Bool-cases}
use stellar_extract.Effects.{EffectSdk, EffectChange, ClaimKind, EffectClaim}
use stellar_extract.Effects.Named.{is_named, AllNamed}
use stellar_extract.Effects.Pools.{
  deposit_effects, withdraw_effects, lifecycle_effects, extend_footprint_ttl_effects,
  restore_footprint_effects,
}
use stellar_extract.Effects.Trades.{
  is_empty_trade, pool_trade_effects, claim_effects, add_trade_effects,
}
use stellar_extract.Xdr.{Result, ok, err}

module _ (sdk : EffectSdk) (source : Text) where
  pub deposit_effects-AllNamed :
      (id : Text) (changes : Result (List EffectChange))
      → AllNamed (deposit_effects sdk source id changes)
  unfolding deposit_effects is_named
  deposit_effects-AllNamed id changes = ground arith

  pub withdraw_effects-AllNamed :
      (id : Text) (changes : Result (List EffectChange))
      → AllNamed (withdraw_effects sdk source id changes)
  unfolding withdraw_effects is_named
  withdraw_effects-AllNamed id changes = ground arith

  pub lifecycle_effects-AllNamed :
      (change : EffectChange) → AllNamed (lifecycle_effects sdk source change)
  unfolding lifecycle_effects is_named
  lifecycle_effects-AllNamed change = ground arith

  pub footprint_effects-AllNamed :
      (extend_to : ℕ) (changes : Result (List EffectChange))
      → AllNamed (extend_footprint_ttl_effects sdk source extend_to changes)
        × AllNamed (restore_footprint_effects sdk source changes)
  unfolding extend_footprint_ttl_effects restore_footprint_effects is_named
  footprint_effects-AllNamed extend_to (err e) = (tt, tt)
  footprint_effects-AllNamed extend_to (ok changes) = ((refl, tt), (refl, tt))

  claim_effects-AllNamed :
      (changes : Result (List EffectChange)) (kind : ClaimKind) (claim : EffectClaim)
      → AllNamed (claim_effects sdk source changes kind claim)
  unfolding claim_effects is_named pool_trade_effects
  claim_effects-AllNamed changes kind claim = ground arith

  pub add_trade_effects-AllNamed :
      (changes : Result (List EffectChange)) (claims : List EffectClaim)
      → AllNamed (add_trade_effects sdk source changes claims)
  unfolding add_trade_effects
  add_trade_effects-AllNamed changes [] = tt
  add_trade_effects-AllNamed changes (claim ∷ claims) = ground (
    arith,
    Bool-cases (is_empty_trade claim),
    claim_effects-AllNamed changes claim.kind claim,
    add_trade_effects-AllNamed changes claims,
  )
