-- ===== src/Transactions.antt =====
-- transactions.go: the helpers that operation rows and transaction rows share.
pub mod Invocation
pub mod Memo
pub mod FeeBump
pub mod Preconditions
pub mod Declared
pub mod Encoded
pub mod Columns
pub mod Rows
use stellar_extract.Prelude.{ℕ, Option, none, some, List, [], ◌∷◌, Text}
use stellar_extract.Go.Strings.{codes}
use stellar_extract.Trades.{
  XdrAsset, asset_native, asset_alphanum4, asset_alphanum12, asset_pool_share, asset_other,
  trim_right,
}

-- xdr.MuxedAccount: an account's key, or the key with an id
pub data MuxedAccount : Type 0 where
  key_ed25519 : (account : Text) → MuxedAccount
  key_muxed : (account : Text) → (id : ℕ) → MuxedAccount

-- `ToAccountId`
abbrev pub to_account_id : MuxedAccount → Text
to_account_id (key_ed25519 account) = account
to_account_id (key_muxed account id) = account

-- The SDK's `Address` of a muxed account.
unfoldable pub get_muxed_address : (Text → ℕ → Text) → MuxedAccount → Option Text
get_muxed_address muxed_address (key_ed25519 account) = none
get_muxed_address muxed_address (key_muxed account id) = some (muxed_address account id)

pub record AssetParts : Type 0 where
  pub asset_type : Text
  pub asset_code : Text
  pub asset_issuer : Text

abbrev pub decompose_asset : (Text → Text) → XdrAsset → AssetParts
decompose_asset address_of asset_native = record {
  asset_type = codes "native";
  asset_code = [];
  asset_issuer = [];
}
decompose_asset address_of (asset_alphanum4 code issuer) = record {
  asset_type = codes "credit_alphanum4";
  asset_code = trim_right code;
  asset_issuer = address_of issuer;
}
decompose_asset address_of (asset_alphanum12 code issuer) = record {
  asset_type = codes "credit_alphanum12";
  asset_code = trim_right code;
  asset_issuer = address_of issuer;
}
decompose_asset address_of asset_pool_share = record {
  asset_type = [];
  asset_code = [];
  asset_issuer = [];
}
decompose_asset address_of asset_other = record {
  asset_type = [];
  asset_code = [];
  asset_issuer = [];
}

-- `if s != "" { column = &s }`
abbrev pub unless_blank : Text → Option Text → Option Text
unless_blank [] column = column
unless_blank (c ∷ s) column = some (c ∷ s)

-- the four columns of an asset in an operation row
pub record AssetColumns : Type 0 where
  pub asset : Option Text
  pub asset_type : Option Text
  pub asset_code : Option Text
  pub asset_issuer : Option Text

abbrev pub no_asset : AssetColumns
no_asset = record { asset = none; asset_type = none; asset_code = none; asset_issuer = none }

-- What the four setters do, each to columns of its own.
abbrev pub set_asset_columns :
    (address_of : Text → Text)
    → (string_canonical : XdrAsset → Text) → XdrAsset
    → AssetColumns
    → AssetColumns
set_asset_columns address_of string_canonical asset columns =
    let parts = decompose_asset address_of asset in
    record columns {
      asset = some (string_canonical asset);
      asset_type = some parts.asset_type;
      asset_code = unless_blank parts.asset_code columns.asset_code;
      asset_issuer = unless_blank parts.asset_issuer columns.asset_issuer;
    }
