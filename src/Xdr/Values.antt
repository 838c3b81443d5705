-- ===== src/Xdr/Values.antt =====
-- `xdr.ScVal` and `xdr.ScAddress`: one constructor for each discriminant. An arm is an optional
-- pointer, and only the arm of the discriminant is read. The optional vector inside a `ScvVec` arm
-- that is set, and the map inside `ScvMap`, are taken to be present.
use stellar_extract.Prelude.{ℕ, Bool, Option, Text}
use stellar_extract.Go.Ints.{ℤ}

-- xdr.UInt128Parts, UInt256Parts; Int128Parts and Int256Parts have a signed first part.
pub record Parts128 (H : Type 0) : Type 0 where
  pub hi : H
  pub lo : ℕ

pub record Parts256 (H : Type 0) : Type 0 where
  pub hi_hi : H
  pub hi_lo : ℕ
  pub lo_hi : ℕ
  pub lo_lo : ℕ

pub data ClaimableBalanceId : Type 0 where
  balance_v0 : Text → ClaimableBalanceId
  balance_other : ℕ → ClaimableBalanceId

pub record MuxedAccount : Type 0 where
  pub ed25519 : Text
  pub id : ℕ

pub data ScAddress : Type 0 where
  address_account : Option Text → ScAddress
  address_contract : Option Text → ScAddress
  address_muxed_account : Option MuxedAccount → ScAddress
  address_claimable_balance : Option ClaimableBalanceId → ScAddress
  address_liquidity_pool : Option Text → ScAddress
  address_other : ℕ → ScAddress

pub data ScErrorType : Type 0 where
  sce_contract sce_wasm_vm sce_context sce_storage sce_object sce_crypto : ScErrorType
  sce_events sce_budget sce_value sce_auth : ScErrorType
  sce_other : ℤ → ScErrorType

-- xdr.ScError: the type, the code of a host error, and the code of a contract error.
pub record ScError : Type 0 where
  pub error_type : ScErrorType
  pub code : Option ℕ
  pub contract_code : Option ℕ

pub data ScValType : Type 0 where
  type_bool type_void type_error type_u32 type_i32 type_u64 type_i64 : ScValType
  type_timepoint type_duration type_u128 type_i128 type_u256 type_i256 : ScValType
  type_bytes type_string type_symbol type_vec type_map type_address : ScValType
  type_contract_instance type_ledger_key_contract_instance : ScValType
  type_ledger_key_nonce type_executable_tag : ScValType
  type_other : ℕ → ScValType

mutual
  pub data ScVal : Type 0 where
    scv_bool : Option Bool → ScVal
    scv_void : ScVal
    scv_error : Option ScError → ScVal
    scv_u32 : Option ℕ → ScVal
    scv_i32 : Option ℤ → ScVal
    scv_u64 : Option ℕ → ScVal
    scv_i64 : Option ℤ → ScVal
    scv_timepoint : Option ℕ → ScVal
    scv_duration : Option ℕ → ScVal
    scv_u128 : Option (Parts128 ℕ) → ScVal
    scv_i128 : Option (Parts128 ℤ) → ScVal
    scv_u256 : Option (Parts256 ℕ) → ScVal
    scv_i256 : Option (Parts256 ℤ) → ScVal
    scv_bytes : Option Text → ScVal
    scv_string : Option Text → ScVal
    scv_symbol : Option Text → ScVal
    scv_vec_unset : ScVal
    scv_vec : ScVals → ScVal
    scv_map_unset : ScVal
    scv_map : ScMap → ScVal
    scv_address : Option ScAddress → ScVal
    scv_contract_instance : Bool → ScVal
    scv_ledger_key_contract_instance : ScVal
    scv_ledger_key_nonce : Option ℤ → ScVal
    scv_executable_tag : Option Text → ScVal
    scv_other : ℕ → ScVal

  pub data ScVals : Type 0 where
    no_vals : ScVals
    and_val : ScVal → ScVals → ScVals

  pub data ScMap : Type 0 where
    no_entries : ScMap
    and_entry : ScVal → ScVal → ScMap → ScMap

-- The `Type` field.
unfoldable pub type_of : ScVal → ScValType
type_of (scv_bool _) = type_bool
type_of scv_void = type_void
type_of (scv_error _) = type_error
type_of (scv_u32 _) = type_u32
type_of (scv_i32 _) = type_i32
type_of (scv_u64 _) = type_u64
type_of (scv_i64 _) = type_i64
type_of (scv_timepoint _) = type_timepoint
type_of (scv_duration _) = type_duration
type_of (scv_u128 _) = type_u128
type_of (scv_i128 _) = type_i128
type_of (scv_u256 _) = type_u256
type_of (scv_i256 _) = type_i256
type_of (scv_bytes _) = type_bytes
type_of (scv_string _) = type_string
type_of (scv_symbol _) = type_symbol
type_of scv_vec_unset = type_vec
type_of (scv_vec _) = type_vec
type_of scv_map_unset = type_map
type_of (scv_map _) = type_map
type_of (scv_address _) = type_address
type_of (scv_contract_instance _) = type_contract_instance
type_of scv_ledger_key_contract_instance = type_ledger_key_contract_instance
type_of (scv_ledger_key_nonce _) = type_ledger_key_nonce
type_of (scv_executable_tag _) = type_executable_tag
type_of (scv_other n) = type_other n
