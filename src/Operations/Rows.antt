-- ===== src/Operations/Rows.antt =====
-- operations.go, types_core.go: `ExtractOperations`.
pub mod Positions
pub mod Parallel
use stellar_extract.Prelude.{
  ℕ, zero, suc, ◌+◌, ◌%◌, ◌^◌, Bool, true, false, Option, none, some, List, [], ◌∷◌, ◌++◌,
  if◌then◌else◌, Text, get_elem?,
}
use stellar_extract.CallGraph.Calls.{ContractCall}
use stellar_extract.CallGraph.Extract.{OperationData, InvokeHostFunctionOp, integrate_call_graph}
use stellar_extract.CallGraph.Names.{DiagnosticEvent}
use stellar_extract.Go.Ints.{ℤ, to_i32}
use stellar_extract.Go.Strings.{codes, hex_encode}
use stellar_extract.Operations.{
  OperationBody, invoke_host_function, Operation, OperationTransaction,
}
use stellar_extract.Operations.Columns.{OperationColumns, operation_columns}
use stellar_extract.ScVal.Json.{Items}
use stellar_extract.Trades.{XdrAsset}
use stellar_extract.Transactions.{MuxedAccount, to_account_id, get_muxed_address}
use stellar_extract.Transactions.Invocation.{
  InvokeOp, InvocationDetails, extract_contract_invocation_details,
}
use stellar_extract.Xdr.{Result, ok, err, Sdk}
use stellar_extract.Xdr.Ledger.{LedgerInput}
use stellar_extract.Xdr.Values.{ScVal}

-- The SDK as operation rows use it, `toid`, and `json.Marshal` of arguments and of calls.
pub record OperationSdk : Type 0 where
  pub base : Sdk
  pub address_of : Text → Text
  pub muxed_address : Text → ℕ → Text
  pub string_canonical : XdrAsset → Text
  pub marshal_hex : Text → Result Text
  pub marshal_binary : ScVal → Result Text
  pub marshal_arguments : Items → Result Text
  pub marshal_calls : List ContractCall → Result Text
  pub toid : ℤ → ℤ → ℤ → ℤ

-- the columns of an invocation, its call graph aside
pub record SorobanColumns : Type 0 where
  pub soroban_auth_required : Option Bool
  pub soroban_operation : Option Text
  pub soroban_contract_id : Option Text
  pub soroban_function : Option Text
  pub soroban_arguments_json : Option Text

-- OperationData, in groups of columns: those of the operation's type, those of an invocation, and
-- those of the call graph with the credentials.
pub record OperationRow : Type 0 where
  pub transaction_hash : Text
  pub transaction_index : ℤ
  pub operation_index : ℕ
  pub ledger_sequence : ℕ
  pub source_account : Text
  pub source_account_muxed : Option Text
  pub op_type : ℕ
  pub type_string : Text
  pub created_at : ℕ
  pub transaction_successful : Bool
  pub operation_result_code : Option Text
  pub ledger_range : ℕ
  pub columns : OperationColumns
  pub soroban : SorobanColumns
  pub call_graph : OperationData
  pub transaction_id : ℤ
  pub operation_id : ℤ
  pub era_id : Option Text

abbrev no_soroban : SorobanColumns
no_soroban = record {
  soroban_auth_required = none;
  soroban_operation = none;
  soroban_contract_id = none;
  soroban_function = none;
  soroban_arguments_json = none;
}

abbrev pub no_graph : OperationData
no_graph = record {
  contract_calls_json = none;
  contracts_involved = none;
  max_call_depth = none;
  soroban_auth_credentials_types = none;
  soroban_auth_addresses = none;
}

-- `GetInvokeHostFunctionOp`
abbrev pub invocation_of : OperationBody → Option InvokeOp
invocation_of (invoke_host_function invocation) = some invocation
invocation_of _ = none

-- the account that an operation is from: its own, or the transaction's
abbrev pub source_of : OperationTransaction → Operation → MuxedAccount
source_of tx op = elim op.source_account [ none ↦ tx.source_account | some source ↦ source ]

abbrev code_at : Option (List Text) → ℕ → Option Text
code_at none i = none
code_at (some result_codes) i = get_elem? result_codes i

-- `len(l) > 0`
abbrev is_not_empty : {A : Type 0} → List A → Bool
is_not_empty [] = false
is_not_empty (x ∷ xs) = true

module _ (sdk : OperationSdk) (input : LedgerInput) where
  soroban_columns : Option InvokeOp → SorobanColumns
  unfolding extract_contract_invocation_details
  soroban_columns none = no_soroban
  soroban_columns (some invocation) =
      let details =
        extract_contract_invocation_details sdk.base sdk.marshal_arguments sdk.marshal_binary
          invocation in
      record {
        soroban_auth_required = some (is_not_empty invocation.op.auth);
        soroban_operation = some invocation.function_type;
        soroban_contract_id = details.contract_id;
        soroban_function = details.function_name;
        soroban_arguments_json = details.arguments_json;
      }

  -- the number is the package's `callGraphSkippedEdges`
  unfoldable pub graph_columns :
      Result (List DiagnosticEvent) → Option InvokeOp → ℕ → OperationData × ℕ
  unfolding integrate_call_graph
  graph_columns events none skipped = (no_graph, skipped)
  graph_columns events (some invocation) skipped =
      integrate_call_graph sdk.base sdk.marshal_calls events (some invocation.op) no_graph skipped

  unfoldable pub operation_row :
      OperationTransaction → ℕ → ℕ → Operation → OperationData → OperationRow
  unfolding operation_columns soroban_columns hex_encode get_muxed_address
  operation_row tx tx_index i op graph = record {
    transaction_hash = hex_encode tx.transaction_hash;
    transaction_index = to_i32 tx_index;
    operation_index = i;
    ledger_sequence = input.sequence;
    source_account = sdk.address_of (to_account_id (source_of tx op));
    source_account_muxed = get_muxed_address sdk.muxed_address (source_of tx op);
    op_type = op.op_type;
    type_string = op.type_string;
    created_at = input.closed_at;
    transaction_successful = tx.successful;
    operation_result_code = if tx.successful then code_at tx.result_codes i else none;
    ledger_range = input.ledger_range;
    columns = operation_columns sdk.address_of sdk.string_canonical sdk.marshal_hex op.body;
    soroban = soroban_columns (invocation_of op.body);
    call_graph = graph;
    transaction_id = sdk.toid (to_i32 input.sequence) (to_i32 tx_index) (to_i32 0);
    operation_id = sdk.toid (to_i32 input.sequence) (to_i32 tx_index) (to_i32 (i + 1));
    era_id = input.era_id;
  }

  -- the loop over the operations, from the one at `i` on
  unfoldable pub operations_rows :
      OperationTransaction → ℕ → ℕ → List Operation → ℕ → List OperationRow × ℕ
  unfolding operation_row graph_columns
  operations_rows tx tx_index i [] skipped = ([], skipped)
  operations_rows tx tx_index i (op ∷ ops) skipped =
      let (graph, skipped') = graph_columns tx.diagnostic_events (invocation_of op.body) skipped in
      let (rows, skipped'') = operations_rows tx tx_index (i + 1) ops skipped' in
      (operation_row tx tx_index i op graph ∷ rows, skipped'')

  -- the loop over the transactions; `txIndex` is an int32, which `to_i32` reads off its 32 bits
  unfoldable pub transactions_rows : ℕ → List OperationTransaction → ℕ → List OperationRow × ℕ
  unfolding operations_rows
  transactions_rows tx_index [] skipped = ([], skipped)
  transactions_rows tx_index (tx ∷ txs) skipped =
      let (rows, skipped') = operations_rows tx tx_index 0 tx.operations skipped in
      let (later, skipped'') = transactions_rows ((tx_index + 1) % 2 ^ 32) txs skipped' in
      (rows ++ later, skipped'')

  unfoldable pub extract_operations :
      Result (List OperationTransaction) → ℕ → Result (List OperationRow) × ℕ
  unfolding transactions_rows
  extract_operations (err e) skipped = (err (codes "failed to read transactions: " ++ e), skipped)
  extract_operations (ok txs) skipped =
      let (rows, skipped') = transactions_rows 1 txs skipped in (ok rows, skipped')
