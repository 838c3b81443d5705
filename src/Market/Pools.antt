-- ===== src/Market/Pools.antt =====
-- market.go, types_state.go: `ExtractLiquidityPools`.
use stellar_extract.Prelude.{ℕ, ◌≡◌, refl, Option, none, some, List, [], Text, text_ordered}
use stellar_extract.Go.Ints.{ℤ, int64_to_i32}
use stellar_extract.Go.Strings.{codes, hex_encode}
use stellar_extract.Ordering.{sorted_map_values}
use stellar_extract.Ordering.Snapshot.{OfSome, IsSnapshotOf, nothing, collect, collect_lem}
use stellar_extract.Xdr.{Result, ok, err}
use stellar_extract.Xdr.Ledger.{LedgerInput}
use stellar_extract.Market.{
  AssetNames, ConstantProduct, PoolEntry, MarketChange, offer_change, claimable_balance_change,
  liquidity_pool_change, other_change, parse_asset,
}

pub record LiquidityPoolData : Type 0 where
  pub liquidity_pool_id : Text
  pub ledger_sequence : ℕ
  pub closed_at : ℕ
  pub pool_type : Text
  pub fee : ℤ
  pub trustline_count : ℤ
  pub total_pool_shares : ℤ
  pub asset_a : AssetNames
  pub asset_a_amount : ℤ
  pub asset_b : AssetNames
  pub asset_b_amount : ℤ
  pub created_at : ℕ
  pub ledger_range : ℕ
  pub era_id : Option Text

module _ (address_of : Text → Text) (clock : ℕ → ℕ) (input : LedgerInput) where
  pool_data : ℕ → PoolEntry → ConstantProduct → LiquidityPoolData
  unfolding parse_asset hex_encode
  pool_data reading entry cp = record {
    liquidity_pool_id = hex_encode entry.liquidity_pool_id;
    ledger_sequence = input.sequence;
    closed_at = input.closed_at;
    pool_type = codes "constant_product";
    fee = cp.fee;
    trustline_count = int64_to_i32 cp.pool_shares_trust_line_count;
    total_pool_shares = cp.total_pool_shares;
    asset_a = parse_asset address_of cp.asset_a;
    asset_a_amount = cp.reserve_a;
    asset_b = parse_asset address_of cp.asset_b;
    asset_b_amount = cp.reserve_b;
    created_at = clock reading;
    ledger_range = input.ledger_range;
    era_id = input.era_id;
  }

  -- a pool of another type gives no row
  pool_of_type : ℕ → PoolEntry → Option ConstantProduct → Option LiquidityPoolData
  unfolding pool_data
  pool_of_type reading entry none = none
  pool_of_type reading entry (some cp) = some (pool_data reading entry cp)

  unfoldable pub pool_row : ℕ → MarketChange → Option LiquidityPoolData
  unfolding pool_of_type
  pool_row reading (liquidity_pool_change (some entry)) =
      pool_of_type reading entry entry.constant_product
  pool_row reading _ = none

  unfoldable pub extract_liquidity_pools : Result (List MarketChange) → List LiquidityPoolData
  unfolding pool_row collect sorted_map_values
  extract_liquidity_pools (err e) = []
  extract_liquidity_pools (ok changes) =
      sorted_map_values (collect (λ r. r.liquidity_pool_id) pool_row changes nothing).entries

  pub record IsPoolRow (entry : PoolEntry) (row : LiquidityPoolData) : Type 0 where
    pub product : ConstantProduct
    pub known : entry.constant_product ≡ some product
    pub id : row.liquidity_pool_id ≡ hex_encode entry.liquidity_pool_id
    pub side_a : row.asset_a ≡ parse_asset address_of product.asset_a
    pub side_b : row.asset_b ≡ parse_asset address_of product.asset_b
    pub reserves_a : row.asset_a_amount ≡ product.reserve_a
    pub reserves_b : row.asset_b_amount ≡ product.reserve_b
    pub shares : row.total_pool_shares ≡ product.total_pool_shares
    pub of_ledger : row.ledger_sequence ≡ input.sequence

  abbrev pub PoolRowOf : MarketChange → LiquidityPoolData → Type 0
  PoolRowOf (liquidity_pool_change (some entry)) row = IsPoolRow entry row
  PoolRowOf _ row = ⊥

  pool_of_type-IsPoolRow :
      (n : ℕ) (entry : PoolEntry) (cp : Option ConstantProduct)
      → entry.constant_product ≡ cp
      → OfSome (λ r. r.liquidity_pool_id) (IsPoolRow entry) (pool_of_type n entry cp)
  unfolding pool_of_type pool_data
  pool_of_type-IsPoolRow n entry none e = tt
  pool_of_type-IsPoolRow n entry (some cp) e = record {
    product = cp;
    known = e;
    id = refl;
    side_a = refl;
    side_b = refl;
    reserves_a = refl;
    reserves_b = refl;
    shares = refl;
    of_ledger = refl;
  }

  pool_row-PoolRowOf :
      (n : ℕ) (change : MarketChange)
      → OfSome (λ r. r.liquidity_pool_id) (PoolRowOf change) (pool_row n change)
  unfolding pool_row
  pool_row-PoolRowOf n (liquidity_pool_change (some entry)) =
      pool_of_type-IsPoolRow n entry entry.constant_product refl
  pool_row-PoolRowOf n (liquidity_pool_change none) = tt
  pool_row-PoolRowOf n (offer_change p) = tt
  pool_row-PoolRowOf n (claimable_balance_change p) = tt
  pool_row-PoolRowOf n other_change = tt

  -- The pool rows hold the state of each constant-product pool after its last change that leaves it
  -- in place, in increasing order of the pool ids, and each is the row of such a pool.
  pub extract_liquidity_pools_lem :
      (changes : List MarketChange)
      → IsSnapshotOf
          (λ r. r.liquidity_pool_id)
          pool_row
          PoolRowOf
          changes
          (extract_liquidity_pools (ok changes))
  unfolding extract_liquidity_pools
  extract_liquidity_pools_lem =
      collect_lem (λ r. r.liquidity_pool_id) pool_row PoolRowOf pool_row-PoolRowOf
