-- ===== src/Operations.antt =====
-- operations.go, types_core.go: what an operation row is made from.
pub mod Columns
pub mod Rows
use stellar_extract.Prelude.{ℕ, Bool, Option, none, List, Text}
use stellar_extract.CallGraph.Names.{DiagnosticEvent}
use stellar_extract.Go.Ints.{ℤ}
use stellar_extract.Trades.{XdrAsset}
use stellar_extract.Transactions.{MuxedAccount}
use stellar_extract.Transactions.Invocation.{InvokeOp}
use stellar_extract.Xdr.{Result}

-- xdr.Price
pub record Price : Type 0 where
  pub n : ℤ
  pub d : ℤ

-- the part of xdr.SetOptionsOp that makes columns
pub record OptionsOp : Type 0 where
  pub home_domain : Option Text
  pub set_flags : Option ℕ
  pub clear_flags : Option ℕ
  pub master_weight : Option ℕ
  pub low_threshold : Option ℕ
  pub med_threshold : Option ℕ
  pub high_threshold : Option ℕ

-- xdr.OperationBody: an operation with the fields that are read
pub data OperationBody : Type 0 where
  create_account : (destination : Text) → (starting_balance : ℤ) → OperationBody
  payment : (destination : MuxedAccount) → (asset : XdrAsset) → (amount : ℤ) → OperationBody
  path_payment_strict_receive :
      (destination : MuxedAccount)
      → (dest_asset : XdrAsset) → (dest_amount : ℤ) → (send_asset : XdrAsset) → (send_max : ℤ)
      → OperationBody
  path_payment_strict_send :
      (send_asset : XdrAsset)
      → (send_amount : ℤ) → (destination : MuxedAccount) → (dest_asset : XdrAsset) → (dest_min : ℤ)
      → OperationBody
  manage_sell_offer manage_buy_offer :
      (selling buying : XdrAsset) → (amount : ℤ) → Price → (offer_id : ℤ) → OperationBody
  create_passive_sell_offer : (selling buying : XdrAsset) → (amount : ℤ) → Price → OperationBody
  set_options : OptionsOp → OperationBody
  -- the line to a pool is `asset_pool_share`
  change_trust : (line : XdrAsset) → (limit : ℤ) → OperationBody
  -- the code's 4 or 12 bytes, none of another type
  allow_trust : (trustor : Text) → (asset_code : Option Text) → (authorize : ℕ) → OperationBody
  account_merge : (destination : MuxedAccount) → OperationBody
  manage_data : (data_name : Text) → (data_value : Option Text) → OperationBody
  bump_sequence : (bump_to : ℤ) → OperationBody
  create_claimable_balance : (asset : XdrAsset) → (amount : ℤ) → OperationBody
  claim_claimable_balance : (balance_id : Text) → OperationBody
  begin_sponsoring_future_reserves : (sponsored_id : Text) → OperationBody
  clawback : (asset : XdrAsset) → (from : MuxedAccount) → (amount : ℤ) → OperationBody
  set_trust_line_flags :
      (trustor : Text) → (asset : XdrAsset) → (set_flags clear_flags : ℕ) → OperationBody
  liquidity_pool_deposit : (max_amount_a : ℤ) → OperationBody
  liquidity_pool_withdraw : (amount : ℤ) → OperationBody
  invoke_host_function : InvokeOp → OperationBody
  -- the operations without columns of their own
  inflation end_sponsoring_future_reserves revoke_sponsorship : OperationBody
  clawback_claimable_balance extend_footprint_ttl restore_footprint : OperationBody

-- an operation, with the number and the name of its type
pub record Operation : Type 0 where
  pub source_account : Option MuxedAccount
  pub op_type : ℕ
  pub type_string : Text
  pub body : OperationBody

-- what is read of a transaction; `result_codes` are those of `OperationResults()`
pub record OperationTransaction : Type 0 where
  pub transaction_hash : Text
  pub successful : Bool
  pub source_account : MuxedAccount
  pub operations : List Operation
  pub result_codes : Option (List Text)
  pub diagnostic_events : Result (List DiagnosticEvent)
