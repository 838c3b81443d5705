-- ===== src/ScVal/Addresses.antt =====
-- scval_converter.go: `convertScAddress`.
use stellar_extract.Prelude.{ℕ, ◌/◌, ◌%◌, ◌^◌, none, some, [], ◌∷◌, ◌++◌, Text}
use stellar_extract.Go.Ints.{pos}
use stellar_extract.Go.Strings.{codes}
use stellar_extract.Xdr.{
  Result, ok, err, Sdk, version_account_id, version_contract, version_muxed_account,
  version_claimable_balance, version_liquidity_pool,
}
use stellar_extract.Xdr.Values.{
  ScAddress, address_account, address_contract, address_muxed_account, address_claimable_balance,
  address_liquidity_pool, address_other, ClaimableBalanceId, balance_v0, balance_other,
}
use stellar_extract.ScVal.Json.{Json, num, str, obj, Fields, end, field}

-- the big-endian bytes of the muxed id
id_bytes : ℕ → Text
id_bytes id =
    (id / 2 ^ 56 % 256)
    ∷ (id / 2 ^ 48 % 256)
    ∷ (id / 2 ^ 40 % 256)
    ∷ (id / 2 ^ 32 % 256)
    ∷ (id / 2 ^ 24 % 256)
    ∷ (id / 2 ^ 16 % 256)
    ∷ (id / 2 ^ 8 % 256)
    ∷ (id % 256)
    ∷ []

-- the object of one arm, or the strkey error behind a prefix
address_object : Text → Text → Fields → Result Text → Result Json
address_object what kind more (err e) =
    err (codes "error encoding " ++ (what ++ (codes " address: " ++ e)))
address_object what kind more (ok address) =
    ok (obj (field (codes "type") (str kind) (field (codes "address") (str address) more)))

module _ (sdk : Sdk) where
  claimable_balance_address : ClaimableBalanceId → Result Json
  unfolding address_object
  claimable_balance_address (balance_v0 hash) =
      address_object (codes "claimable balance") (codes "claimable_balance") end
        (sdk.strkey_encode version_claimable_balance hash)
  claimable_balance_address (balance_other t) =
      err (codes "unsupported ClaimableBalanceId type: " ++ sdk.balance_id_type_string t)

  unfoldable pub convert_sc_address : ScAddress → Result Json
  unfolding address_object id_bytes claimable_balance_address
  convert_sc_address (address_account none) = err (codes "ScAddressTypeAccount has nil AccountId")
  convert_sc_address (address_account (some account_id)) =
      address_object (codes "account") (codes "account") end
        (sdk.strkey_encode version_account_id account_id)
  convert_sc_address (address_contract none) =
      err (codes "ScAddressTypeContract has nil ContractId")
  convert_sc_address (address_contract (some contract_id)) =
      address_object (codes "contract") (codes "contract") end
        (sdk.strkey_encode version_contract contract_id)
  convert_sc_address (address_muxed_account none) =
      err (codes "ScAddressTypeMuxedAccount has nil MuxedAccount")
  convert_sc_address (address_muxed_account (some m)) =
      address_object (codes "muxed") (codes "muxed_account")
        (field (codes "id") (num (pos m.id)) end)
        (sdk.strkey_encode version_muxed_account (m.ed25519 ++ id_bytes m.id))
  convert_sc_address (address_claimable_balance none) =
      err (codes "ScAddressTypeClaimableBalance has nil ClaimableBalanceId")
  convert_sc_address (address_claimable_balance (some id)) = claimable_balance_address id
  convert_sc_address (address_liquidity_pool none) =
      err (codes "ScAddressTypeLiquidityPool has nil LiquidityPoolId")
  convert_sc_address (address_liquidity_pool (some pool_id)) =
      address_object (codes "liquidity pool") (codes "liquidity_pool") end
        (sdk.strkey_encode version_liquidity_pool pool_id)
  convert_sc_address (address_other t) =
      err (codes "unknown ScAddress type: " ++ sdk.address_type_string t)
