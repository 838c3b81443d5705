-- ===== src/Effects/Details.antt =====
-- effects.go: `addAssetDetails`, `liquidityPoolDetails`, and the flags' details.
use stellar_extract.Prelude.{ℕ, ◌-◌, ◌^◌, Bool, ◌++◌, if◌then◌else◌, Text}
use stellar_extract.Accounts.{has_flag}
use stellar_extract.Effects.{EffectSdk, EffectRecord, AssetParts, Pool}
use stellar_extract.Go.Ints.{ℤ, pos, negsuc}
use stellar_extract.Go.Strings.{codes, decimal_int, hex_encode}
use stellar_extract.Market.{ConstantProduct}
use stellar_extract.ScVal.Json.{
  Json, bool, num, str, arr, obj, nil, cons, Fields, end, field, put_field,
}
use stellar_extract.Trades.{
  XdrAsset, asset_native, asset_alphanum4, asset_alphanum12, asset_pool_share, asset_other,
}

-- `result[prefix + k] = v` of a text
abbrev pub put_text : Text → Text → Fields → Fields
put_text k v details = put_field k (str v) details

-- `uint32(n)` of an int32
abbrev to_u32 : ℤ → ℕ
to_u32 (pos n) = n
to_u32 (negsuc n) = 2 ^ 32 - 1 - n

-- a map with one text
abbrev pub one_text : Text → Text → Fields
one_text k v = field k (str v) end

abbrev asset_columns : Text → AssetParts → Fields → Fields
asset_columns prefix parts details = put_text (prefix ++ codes "asset_issuer") parts.issuer (
    put_text (prefix ++ codes "asset_code") parts.code
      (put_text (prefix ++ codes "asset_type") parts.asset_type details))

-- `if flags.Is…() { details[name] = value }`
abbrev pub set_flag : ℕ → Bool → ℕ → Text → Fields → Fields
set_flag flags value bit name details =
    if has_flag bit flags then put_field name (bool value) details else details

-- `setAuthFlagDetails`
unfoldable pub set_auth_flag_details : ℕ → Bool → Fields → Fields
set_auth_flag_details flags value details =
    set_flag flags value 8 (codes "auth_clawback_enabled_flag") (
      set_flag flags value 4 (codes "auth_immutable_flag") (
        set_flag flags value 2 (codes "auth_revocable_flag")
          (set_flag flags value 1 (codes "auth_required_flag") details)))

-- `setTrustLineFlagDetails`
unfoldable pub set_trust_line_flag_details : ℕ → Bool → Fields → Fields
set_trust_line_flag_details flags value details =
    set_flag flags value 4 (codes "clawback_enabled_flag") (
      set_flag flags value 2 (codes "authorized_to_maintain_liabilities")
        (set_flag flags value 1 (codes "authorized_flag") details))

module _ (sdk : EffectSdk) where
  -- `add` of an effect on an account: a record at the end of the list
  abbrev pub effect_at : Text → ℕ → Fields → EffectRecord
  effect_at account effect_type details = record {
    address = sdk.address_of account;
    effect_type = effect_type;
    details = details;
  }

  -- the native asset has no code and no issuer
  unfoldable pub add_asset_details : XdrAsset → Text → Fields → Fields
  add_asset_details asset_native prefix details =
      put_text (prefix ++ codes "asset_type") (sdk.asset_extract asset_native).asset_type details
  add_asset_details (asset_alphanum4 code issuer) prefix details =
      asset_columns prefix (sdk.asset_extract (asset_alphanum4 code issuer)) details
  add_asset_details (asset_alphanum12 code issuer) prefix details =
      asset_columns prefix (sdk.asset_extract (asset_alphanum12 code issuer)) details
  add_asset_details asset_pool_share prefix details =
      asset_columns prefix (sdk.asset_extract asset_pool_share) details
  add_asset_details asset_other prefix details =
      asset_columns prefix (sdk.asset_extract asset_other) details

  -- `{"asset": …, "amount": …}`
  abbrev pub asset_amount : XdrAsset → ℤ → Json
  asset_amount asset amount = obj (
      field (codes "asset") (str (sdk.string_canonical asset))
        (field (codes "amount") (str (sdk.amount_string amount)) end))

  abbrev pub two_amounts : ConstantProduct → ℤ → ℤ → Json
  two_amounts cp a b = arr (cons (asset_amount cp.asset_a a) (cons (asset_amount cp.asset_b b) nil))

  unfoldable pub liquidity_pool_details : Pool → Fields
  unfolding hex_encode decimal_int
  liquidity_pool_details lp =
      let cp = lp.constant_product in
      field (codes "id") (str (hex_encode lp.pool_id)) (
        field (codes "fee_bp") (num (pos (to_u32 cp.fee))) (
          field (codes "type") (str (codes "constant_product")) (
            field (codes "total_trustlines") (str (decimal_int cp.pool_shares_trust_line_count)) (
              field (codes "total_shares") (str (sdk.amount_string cp.total_pool_shares))
                (field (codes "reserves") (two_amounts cp cp.reserve_a cp.reserve_b) end)))))
