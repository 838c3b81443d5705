-- ===== src/Effects/Pools.antt =====
-- effects.go: `getLiquidityPoolDelta`, and the effects of deposits, withdrawals, pools that come and
-- go, and footprints.
pub mod Delta
use stellar_extract.Prelude.{
  ℕ, ◌+◌, ◌-◌, ◌%◌, ◌^◌, Bool, ◌&&◌, none, some, List, [], ◌∷◌, if◌then◌else◌, Text, text_ordered,
  ◌==◌,
}
use stellar_extract.Effects.{
  EffectSdk, EffectRecord, Pool, PoolChange, pool_created, pool_removed, pool_updated, EffectChange,
  account_change, trustline_change, data_change, balance_change, pool_change, ttl_change,
  other_change,
}
use stellar_extract.Effects.Details.{effect_at, one_text, two_amounts, liquidity_pool_details}
use stellar_extract.Effects.Types.{
  effect_liquidity_pool_deposited, effect_liquidity_pool_withdrew, effect_liquidity_pool_created,
  effect_liquidity_pool_removed, effect_extend_footprint_ttl, effect_restore_footprint,
}
use stellar_extract.Go.Ints.{ℤ, pos, to_i64}
use stellar_extract.Go.Strings.{codes, hex_encode}
use stellar_extract.ScVal.Integers.{to_u64}
use stellar_extract.ScVal.Json.{Json, num, str, arr, obj, Items, nil, cons, Fields, end, field}
use stellar_extract.Xdr.{Result, ok, err}

-- `a - b` of int64 values
unfoldable pub sub_i64 : ℤ → ℤ → ℤ
sub_i64 a b = to_i64 ((to_u64 a + 2 ^ 64 - to_u64 b) % 2 ^ 64)

pub record LiquidityPoolDelta : Type 0 where
  pub reserve_a : ℤ
  pub reserve_b : ℤ
  pub total_pool_shares : ℤ

-- The pool that is found, and how it changed.
pub record PoolDelta : Type 0 where
  pub lp : Pool
  pub delta : LiquidityPoolDelta

abbrev pub zero_delta : LiquidityPoolDelta
zero_delta = record { reserve_a = pos 0; reserve_b = pos 0; total_pool_shares = pos 0 }

abbrev pub reserves_of : Pool → LiquidityPoolDelta
reserves_of lp = record {
  reserve_a = lp.constant_product.reserve_a;
  reserve_b = lp.constant_product.reserve_b;
  total_pool_shares = lp.constant_product.total_pool_shares;
}

difference : LiquidityPoolDelta → LiquidityPoolDelta → LiquidityPoolDelta
unfolding sub_i64
difference post pre = record {
  reserve_a = sub_i64 post.reserve_a pre.reserve_a;
  reserve_b = sub_i64 post.reserve_b pre.reserve_b;
  total_pool_shares = sub_i64 post.total_pool_shares pre.total_pool_shares;
}

-- the loop's body behind the tests of the pool id
delta_of : PoolChange → PoolDelta
unfolding difference
delta_of (pool_created post) = record {
  lp = post;
  delta = difference (reserves_of post) zero_delta;
}
delta_of (pool_removed pre) = record { lp = pre; delta = difference zero_delta (reserves_of pre) }
delta_of (pool_updated pre post) = record {
  lp = post;
  delta = difference (reserves_of post) (reserves_of pre);
}

-- neither entry is of another pool
abbrev pub is_of_pool : Text → PoolChange → Bool
is_of_pool id (pool_created post) = post.pool_id == id
is_of_pool id (pool_removed pre) = pre.pool_id == id
is_of_pool id (pool_updated pre post) = pre.pool_id == id && post.pool_id == id

unfoldable pub get_liquidity_pool_delta : Text → List EffectChange → Result PoolDelta
unfolding delta_of
get_liquidity_pool_delta id [] = err (codes "liquidity pool change not found")
get_liquidity_pool_delta id (pool_change change ∷ changes) =
    let later = get_liquidity_pool_delta id changes in
    if is_of_pool id change then ok (delta_of change) else later
get_liquidity_pool_delta id (_ ∷ changes) = get_liquidity_pool_delta id changes

-- the same of the changes of an operation, or the error of reading them
abbrev pub find_delta : Text → Result (List EffectChange) → Result PoolDelta
find_delta id (err e) = err e
find_delta id (ok changes) = get_liquidity_pool_delta id changes

module _ (sdk : EffectSdk) (source : Text) where
  -- an effect on the source account of the operation
  abbrev pub at_source : ℕ → Fields → EffectRecord
  at_source = effect_at sdk source

  deposited : PoolDelta → EffectRecord
  unfolding liquidity_pool_details
  deposited d = at_source effect_liquidity_pool_deposited (
      field (codes "liquidity_pool") (obj (liquidity_pool_details sdk d.lp)) (
        field (codes "reserves_deposited")
          (two_amounts sdk d.lp.constant_product d.delta.reserve_a d.delta.reserve_b)
          (field (codes "shares_received") (str (sdk.amount_string d.delta.total_pool_shares))
            end)))

  -- `-n` of an int64
  abbrev pub negate : ℤ → ℤ
  negate n = sub_i64 (pos 0) n

  withdrew : PoolDelta → EffectRecord
  unfolding liquidity_pool_details sub_i64
  withdrew d = at_source effect_liquidity_pool_withdrew (
      field (codes "liquidity_pool") (obj (liquidity_pool_details sdk d.lp)) (
        field (codes "reserves_received")
          (two_amounts sdk d.lp.constant_product (negate d.delta.reserve_a)
            (negate d.delta.reserve_b))
          (field (codes "shares_redeemed")
            (str (sdk.amount_string (negate d.delta.total_pool_shares))) end)))

  -- no effect where the change of the pool is not found
  unfoldable pub deposit_effects : Text → Result (List EffectChange) → List EffectRecord
  unfolding deposited get_liquidity_pool_delta
  deposit_effects pool_id changes = elim (find_delta pool_id changes) [
    | err e ↦ []
    | ok d ↦ deposited d ∷ []
  ]

  unfoldable pub withdraw_effects : Text → Result (List EffectChange) → List EffectRecord
  unfolding withdrew get_liquidity_pool_delta
  withdraw_effects pool_id changes = elim (find_delta pool_id changes) [
    | err e ↦ []
    | ok d ↦ withdrew d ∷ []
  ]

  -- `addLPLifecycleEffects`
  unfoldable pub lifecycle_effects : EffectChange → List EffectRecord
  unfolding liquidity_pool_details hex_encode
  lifecycle_effects (pool_change (pool_created post)) =
      at_source effect_liquidity_pool_created
        (field (codes "liquidity_pool") (obj (liquidity_pool_details sdk post)) end)
      ∷ []
  lifecycle_effects (pool_change (pool_removed pre)) =
      at_source effect_liquidity_pool_removed
        (one_text (codes "liquidity_pool_id") (hex_encode pre.pool_id))
      ∷ []
  lifecycle_effects _ = []

  -- the key of each TTL entry that a change leaves in place; a key that cannot be encoded is left out
  add_key : Result Text → Items → Items
  add_key (err e) keys = keys
  add_key (ok key) keys = cons (str key) keys

  unfoldable pub ttl_keys : List EffectChange → Items
  unfolding add_key
  ttl_keys [] = nil
  ttl_keys (ttl_change (some hash) ∷ changes) = add_key (sdk.ttl_key_base64 hash) (ttl_keys changes)
  ttl_keys (_ ∷ changes) = ttl_keys changes

  unfoldable pub extend_footprint_ttl_effects : ℕ → Result (List EffectChange) → List EffectRecord
  unfolding ttl_keys
  extend_footprint_ttl_effects extend_to (err e) = []
  extend_footprint_ttl_effects extend_to (ok changes) =
      at_source effect_extend_footprint_ttl (
        field (codes "entries") (arr (ttl_keys changes))
          (field (codes "extend_to") (num (pos extend_to)) end))
      ∷ []

  unfoldable pub restore_footprint_effects : Result (List EffectChange) → List EffectRecord
  unfolding ttl_keys
  restore_footprint_effects (err e) = []
  restore_footprint_effects (ok changes) =
      at_source effect_restore_footprint (field (codes "entries") (arr (ttl_keys changes)) end) ∷ []
