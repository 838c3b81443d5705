-- ===== src/Tests/Operations.antt =====
-- Examples of operations.go.
use stellar_extract.Prelude.{◌≡◌, true, false, none, some, List, [], ◌∷◌, ◌++◌, map, arith}
use stellar_extract.Go.Ints.{pos}
use stellar_extract.Go.Strings.{codes}
use stellar_extract.Operations.{OperationTransaction, payment, manage_data, invoke_host_function}
use stellar_extract.Operations.Rows.{OperationSdk, OperationRow, extract_operations}
use stellar_extract.Operations.Rows.Parallel.{OfTransactions, extract_operations-OfTransactions}
use stellar_extract.Operations.Rows.Positions.{place_of, places, extract_operations-places}
use stellar_extract.Trades.{asset_native}
use stellar_extract.Transactions.{key_ed25519, key_muxed}
use stellar_extract.Xdr.{ok}
use stellar_extract.Xdr.Values.{scv_u32}
use stellar_extract.Tests.Data.{sdk, events, op, input}

abbrev operation_sdk : OperationSdk
operation_sdk = record {
  base = sdk;
  address_of = λ id. codes "G" ++ id;
  muxed_address = λ account id. codes "M" ++ account;
  string_canonical = λ asset. codes "native";
  marshal_hex = λ id. ok id;
  marshal_binary = λ value. ok (codes "xdr");
  marshal_arguments = λ items. ok (codes "[]");
  marshal_calls = λ calls. ok (codes "[]");
  toid = λ ledger tx operation. operation;
}

-- A transaction that fails, and one that pays and invokes a contract.
abbrev transactions : List OperationTransaction
transactions =
    record {
      transaction_hash = codes "h";
      successful = false;
      source_account = key_ed25519 (codes "a");
      operations =
          record {
            source_account = none;
            op_type = 10;
            type_string = codes "ManageData";
            body = manage_data (codes "key") none;
          }
          ∷ [];
      result_codes = none;
      diagnostic_events = ok [];
    }
    ∷ record {
      transaction_hash = codes "k";
      successful = true;
      source_account = key_muxed (codes "b") 7;
      operations =
          record {
            source_account = some (key_ed25519 (codes "c"));
            op_type = 1;
            type_string = codes "Payment";
            body = payment (key_ed25519 (codes "a")) asset_native (pos 5);
          }
          ∷ record {
            source_account = none;
            op_type = 24;
            type_string = codes "InvokeHostFunction";
            body = invoke_host_function (record {
              op = op;
              function_type = codes "InvokeContract";
              args = scv_u32 (some 7) ∷ [];
            });
          }
          ∷ [];
      result_codes = some (codes "opINNER" ∷ codes "opINNER" ∷ []);
      diagnostic_events = ok events;
    }
    ∷ []

extract_operations-places_example :
    (rows : List OperationRow) × ((extract_operations operation_sdk input (ok transactions) 0).0
      ≡ ok rows)
    × (map place_of rows ≡ places 1 transactions)
extract_operations-places_example =
    extract_operations-places operation_sdk input transactions 0 (omega arith)

extract_operations-OfTransactions_example :
    (rows : List OperationRow) × ((extract_operations operation_sdk input (ok transactions) 0).0
      ≡ ok rows)
    × OfTransactions sdk transactions rows
extract_operations-OfTransactions_example =
    extract_operations-OfTransactions operation_sdk input transactions 0
