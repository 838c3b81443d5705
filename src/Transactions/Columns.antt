-- ===== src/Transactions/Columns.antt =====
-- transactions.go, types_core.go: what is read of a transaction, and the columns that are copied.
use stellar_extract.Prelude.{
  ℕ, ◌%◌, ◌^◌, Bool, true, false, ◌||◌, Option, none, some, List, [], ◌∷◌, Text, length,
}
use stellar_extract.CallGraph.Names.{DiagnosticEvent}
use stellar_extract.CallGraph.Extract.{HostFunction, invoke_contract, other_host_function}
use stellar_extract.ContractError.{Facts, contract_error_facts}
use stellar_extract.Go.Ints.{ℤ, to_i32, to_i64}
use stellar_extract.Go.Strings.{hex_encode}
use stellar_extract.Operations.{OperationBody, create_account, invoke_host_function, Operation}
use stellar_extract.ScVal.Json.{Fields}
use stellar_extract.Transactions.{MuxedAccount, to_account_id, get_muxed_address, unless_blank}
use stellar_extract.Transactions.Declared.{
  SorobanData, TransactionMeta, soroban_meta_ext, rent_fee_of,
}
use stellar_extract.Transactions.Encoded.{EncodedParts}
use stellar_extract.Transactions.FeeBump.{FeeBump}
use stellar_extract.Transactions.Invocation.{InvokeOp}
use stellar_extract.Transactions.Memo.{Memo}
use stellar_extract.Transactions.Preconditions.{PreconditionsV2}
use stellar_extract.Xdr.{Result, ok, err, Sdk}
use stellar_extract.Xdr.Ledger.{LedgerInput}

-- The SDK as transaction rows use it, `toid`, and `encoding/base64` and `encoding/json`.
pub record TransactionSdk : Type 0 where
  pub base : Sdk
  pub address_of : Text → Text
  pub muxed_address : Text → ℕ → Text
  pub signer_address : Text → Text
  pub hash_transaction : (envelope : Text) → (passphrase : Text) → Result Text
  pub decode_string : Text → Result Text
  pub marshal_texts : List Text → Result Text
  pub marshal_fields : Fields → Result Text
  pub toid : ℤ → ℤ → ℤ → ℤ

pub record TimeBounds : Type 0 where
  pub min_time : ℕ
  pub max_time : ℕ

-- The resources that the SDK reads off the envelope, each where there is one.
pub record SorobanResources : Type 0 where
  pub instructions : Option ℕ
  pub disk_read_bytes : Option ℕ
  pub write_bytes : Option ℕ

-- what is read of a transaction; `operation_events` are the numbers of the events of its operations
pub record Transaction : Type 0 where
  pub transaction_hash : Text
  pub source_account : MuxedAccount
  pub fee_charged : ℤ
  pub fee : ℕ
  pub successful : Bool
  pub result_code : Text
  pub operations : List Operation
  pub seq_num : ℤ
  pub time_bounds : Option TimeBounds
  pub memo : Memo
  pub meta : TransactionMeta
  pub resources : SorobanResources
  pub soroban_data : Option SorobanData
  pub is_soroban_tx : Bool
  pub operation_events : Result (List ℕ)
  pub diagnostic_events : Result (List DiagnosticEvent)
  pub fee_bump : Option FeeBump
  pub preconditions : Option PreconditionsV2
  pub encoded : EncodedParts

-- the first group of columns: what is copied from the envelope and the result
pub record PlainColumns : Type 0 where
  pub ledger_sequence : ℕ
  pub transaction_hash : Text
  pub source_account : Text
  pub source_account_muxed : Option Text
  pub fee_charged : ℤ
  pub max_fee : ℕ
  pub successful : Bool
  pub transaction_result_code : Text
  pub operation_count : ℕ
  pub created_at : ℕ
  pub account_sequence : ℤ
  pub ledger_range : ℕ
  pub signatures_count : ℕ
  pub new_account : Bool
  pub timebounds_min_time : Option ℤ
  pub timebounds_max_time : Option ℤ
  pub era_id : Option Text

pub record SorobanColumns : Type 0 where
  pub soroban_host_function_type : Option Text
  pub soroban_contract_id : Option Text
  pub rent_fee_charged : Option ℤ
  pub soroban_resources_instructions : Option ℕ
  pub soroban_resources_read_bytes : Option ℕ
  pub soroban_resources_write_bytes : Option ℕ
  pub soroban_footprint_read_entries : Option ℤ
  pub soroban_footprint_write_entries : Option ℤ
  pub contract_error_type : Option Text
  pub contract_error_code : Option ℤ

abbrev min_time_of : Option TimeBounds → Option ℤ
min_time_of none = none
min_time_of (some bounds) = some (to_i64 bounds.min_time)

abbrev max_time_of : Option TimeBounds → Option ℤ
max_time_of none = none
max_time_of (some bounds) = some (to_i64 bounds.max_time)

abbrev is_create_account : OperationBody → Bool
is_create_account (create_account destination balance) = true
is_create_account _ = false

-- the loop that looks for an operation that creates an account
abbrev creates_account : List Operation → Bool
creates_account [] = false
creates_account (op ∷ ops) = is_create_account op.body || creates_account ops

abbrev invocation_or : OperationBody → Option InvokeOp → Option InvokeOp
invocation_or (invoke_host_function invocation) later = some invocation
invocation_or _ later = later

-- the loop that looks for the first InvokeHostFunction
abbrev first_invocation : List Operation → Option InvokeOp
first_invocation [] = none
first_invocation (op ∷ ops) = invocation_or op.body (first_invocation ops)

abbrev function_type_of : Option InvokeOp → Option Text
function_type_of none = none
function_type_of (some invocation) = some invocation.function_type

abbrev text_or_none : Result Text → Option Text
text_or_none (err e) = none
text_or_none (ok text) = unless_blank text none

abbrev contract_of : Sdk → HostFunction → Option Text
contract_of sdk other_host_function = none
contract_of sdk (invoke_contract none) = none
contract_of sdk (invoke_contract (some call)) =
    text_or_none (sdk.address_string call.contract_address)

abbrev contract_id_of : Sdk → Option InvokeOp → Option Text
contract_id_of sdk none = none
contract_id_of sdk (some invocation) = contract_of sdk invocation.op.host_function

abbrev read_entries : Option SorobanData → Option ℤ
read_entries none = none
read_entries (some data_) = some (to_i32 (data_.read_only % 2 ^ 32))

abbrev write_entries : Option SorobanData → Option ℤ
write_entries none = none
write_entries (some data_) = some (to_i32 (data_.read_write % 2 ^ 32))

-- an error's type is a column, also an empty one, where an error is present
abbrev error_type_of : Facts → Option Text
error_type_of facts = elim facts.present [ false ↦ none | true ↦ some facts.error_type ]

abbrev error_code_of : Facts → Option ℤ
error_code_of facts = elim facts.present [ false ↦ none | true ↦ facts.error_code ]

module _ (sdk : TransactionSdk) (input : LedgerInput) where
  unfoldable pub plain_columns : Transaction → PlainColumns
  unfolding hex_encode get_muxed_address
  plain_columns tx = record {
    ledger_sequence = input.sequence;
    transaction_hash = hex_encode tx.transaction_hash;
    source_account = sdk.address_of (to_account_id tx.source_account);
    source_account_muxed = get_muxed_address sdk.muxed_address tx.source_account;
    fee_charged = tx.fee_charged;
    max_fee = tx.fee;
    successful = tx.successful;
    transaction_result_code = tx.result_code;
    operation_count = length tx.operations;
    created_at = input.closed_at;
    account_sequence = tx.seq_num;
    ledger_range = input.ledger_range;
    signatures_count = length tx.encoded.signatures;
    new_account = creates_account tx.operations;
    timebounds_min_time = min_time_of tx.time_bounds;
    timebounds_max_time = max_time_of tx.time_bounds;
    era_id = input.era_id;
  }

  unfoldable pub soroban_columns : Transaction → SorobanColumns
  unfolding contract_error_facts
  soroban_columns tx =
      let invocation = first_invocation tx.operations in
      let facts = contract_error_facts tx.diagnostic_events in
      record {
        soroban_host_function_type = function_type_of invocation;
        soroban_contract_id = contract_id_of sdk.base invocation;
        rent_fee_charged = rent_fee_of (soroban_meta_ext tx.meta);
        soroban_resources_instructions = tx.resources.instructions;
        soroban_resources_read_bytes = tx.resources.disk_read_bytes;
        soroban_resources_write_bytes = tx.resources.write_bytes;
        soroban_footprint_read_entries = read_entries tx.soroban_data;
        soroban_footprint_write_entries = write_entries tx.soroban_data;
        contract_error_type = error_type_of facts;
        contract_error_code = error_code_of facts;
      }
