-- ===== src/Effects.antt =====
-- effects.go: what the effects of an operation are made from.
pub mod Types
pub mod Names
pub mod Details
pub mod Pools
pub mod Trades
pub mod Signers
pub mod Entries
pub mod Contracts
pub mod Sponsorship
pub mod Operations
pub mod Rows
pub mod Named
use stellar_extract.Prelude.{ℕ, Bool, Option, List, Text}
use stellar_extract.Go.Ints.{ℤ}
use stellar_extract.Go.Maps.{GoMap}
use stellar_extract.Market.{ConstantProduct}
use stellar_extract.ScVal.Json.{Fields}
use stellar_extract.Trades.{XdrAsset}
use stellar_extract.Xdr.{Result, Sdk}
use stellar_extract.Xdr.Values.{Parts128}

-- what `Asset.Extract` writes
pub record AssetParts : Type 0 where
  pub asset_type : Text
  pub code : Text
  pub issuer : Text

-- The SDK as the effects use it, `json.Marshal` of a map, and `toid`.
pub record EffectSdk : Type 0 where
  pub base : Sdk
  -- `AccountId.Address`
  pub address_of : Text → Text
  pub amount_string : ℤ → Text
  pub amount_string128 : Parts128 ℤ → Text
  pub asset_extract : XdrAsset → AssetParts
  pub string_canonical : XdrAsset → Text
  -- `xdr.MarshalHex` of a balance id, without its error
  pub marshal_hex : Text → Text
  pub is_valid_ed25519_public_key : Text → Bool
  -- `LedgerKey.SetTtl` and `xdr.MarshalBase64` of the key
  pub ttl_key_base64 : Text → Result Text
  pub marshal : Fields → Result Text
  pub toid : ℤ → ℤ → ℤ → ℤ

pub record EffectRecord : Type 0 where
  pub address : Text
  pub effect_type : ℕ
  pub details : Fields

-- xdr.LedgerEntry around the data of one entry type, with what `SponsoringID` gives.
pub record Sponsored (D : Type 0) : Type 0 where
  pub sponsoring_id : Option Text
  pub body : D

-- xdr.AccountEntry; `SignerSummary` gives the weight of each signer's address
pub record AccountState : Type 0 where
  pub account_id : Text
  pub seq_num : ℤ
  pub signer_summary : GoMap Text ℤ

-- xdr.TrustLineAsset: an asset, or a pool, whose id may be unset
pub data TrustLineAsset : Type 0 where
  trusted_asset : XdrAsset → TrustLineAsset
  trusted_pool : Option Text → TrustLineAsset

pub record TrustLine : Type 0 where
  pub account_id : Text
  pub asset : TrustLineAsset

pub record DataEntry : Type 0 where
  pub data_name : Text
  pub data_value : Text

-- xdr.ClaimableBalanceEntry, with the destinations of its claimants
pub record ClaimableBalance : Type 0 where
  pub balance_id : Text
  pub amount : ℤ
  pub asset : XdrAsset
  pub claimants : List Text

-- xdr.LiquidityPoolEntry, of the one type that XDR has
pub record Pool : Type 0 where
  pub pool_id : Text
  pub constant_product : ConstantProduct

-- A change of a pool has an entry before it, or after it, or both.
pub data PoolChange : Type 0 where
  pool_created : (post : Pool) → PoolChange
  pool_removed : (pre : Pool) → PoolChange
  pool_updated : (pre post : Pool) → PoolChange

-- ingest.Change: the entries before and after it
pub data EffectChange : Type 0 where
  account_change : (pre post : Option (Sponsored AccountState)) → EffectChange
  trustline_change : (pre post : Option (Sponsored TrustLine)) → EffectChange
  data_change : (pre post : Option (Sponsored DataEntry)) → EffectChange
  balance_change : (pre post : Option (Sponsored ClaimableBalance)) → EffectChange
  pool_change : PoolChange → EffectChange
  -- the key hash of the entry after the change
  ttl_change : (post : Option Text) → EffectChange
  other_change : EffectChange

-- xdr.ClaimAtom, with what its methods give
pub data ClaimKind : Type 0 where
  offer_claim : (seller : Text) → (offer_id : ℤ) → ClaimKind
  pool_claim : (pool_id : Text) → ClaimKind

pub record EffectClaim : Type 0 where
  pub kind : ClaimKind
  pub asset_sold : XdrAsset
  pub amount_sold : ℤ
  pub asset_bought : XdrAsset
  pub amount_bought : ℤ
