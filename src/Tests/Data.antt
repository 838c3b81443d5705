-- ===== src/Tests/Data.antt =====
-- The inputs of the examples, with an SDK that prints an address as its bytes.
use stellar_extract.Prelude.{ℕ, ◌+◌, true, Option, none, some, List, [], ◌∷◌, Text}
use stellar_extract.Go.Strings.{codes}
use stellar_extract.Xdr.{Result, ok, err, Sdk}
use stellar_extract.Xdr.Values.{
  ScAddress, address_account, address_contract, ScVal, scv_symbol, scv_u32,
}
use stellar_extract.Xdr.Ledger.{LedgerInput}
use stellar_extract.CallGraph.Names.{DiagnosticEvent}
use stellar_extract.CallGraph.Auth.{
  Invocation, invoke, no_invocations, and_invocation, contract_fn, InvokeContract,
}
use stellar_extract.CallGraph.Credentials.{AuthorizationEntry, address}
use stellar_extract.CallGraph.Extract.{invoke_contract, InvokeHostFunctionOp, OperationData}

abbrev text_of_address : ScAddress → Result Text
text_of_address (address_contract (some id)) = ok id
text_of_address (address_account (some id)) = ok id
text_of_address _ = err (codes "no address")

abbrev contract_of : ScAddress → Option Text
contract_of (address_contract id) = id
contract_of _ = none

abbrev pub sdk : Sdk
sdk = record {
  strkey_encode = λ version id. ok id;
  type_string = λ t. codes "type";
  error_type_string = λ t. codes "error";
  error_code_string = λ c. codes "code";
  address_type_string = λ t. codes "address";
  balance_id_type_string = λ t. codes "balance";
  address_string = text_of_address;
  get_contract_id = contract_of;
}

abbrev pub event_of : Text → List ScVal → DiagnosticEvent
event_of contract topics = record {
  in_successful_contract_call = true;
  event = record {
    contract_id = some contract;
    body = some (record { topics = topics; payload = scv_u32 (some 7) });
  };
}

-- A calls B, which returns.
abbrev pub events : List DiagnosticEvent
events =
    event_of (codes "A")
      (scv_symbol (some (codes "fn_call")) ∷ scv_symbol (some (codes "swap")) ∷ [])
    ∷ event_of (codes "B") (scv_symbol (some (codes "transfer")) ∷ [])
    ∷ event_of (codes "B") (scv_symbol (some (codes "fn_return")) ∷ [])
    ∷ []

abbrev pub called : Text → Text → InvokeContract
called contract name = record {
  contract_address = address_contract (some contract);
  function_name = name;
}

-- A calls B, which calls C; beside it stands a call of an account, which is no contract.
abbrev pub root : Invocation
root = invoke (contract_fn (some (called (codes "A") (codes "swap")))) (
    and_invocation
      (invoke (contract_fn (some (called (codes "B") (codes "transfer")))) (
        and_invocation
          (invoke (contract_fn (some (called (codes "C") (codes "mint")))) no_invocations)
          no_invocations))
      (and_invocation
        (invoke
          (contract_fn (
            some (record {
              contract_address = address_account (some (codes "G"));
              function_name = codes "pay";
            })))
          no_invocations)
        no_invocations))

abbrev pub entry : AuthorizationEntry
entry = record {
  credentials = address (some (address_account (some (codes "G"))));
  root_invocation = root;
}

abbrev pub op : InvokeHostFunctionOp
op = record {
  host_function = invoke_contract (some (called (codes "A") (codes "swap")));
  auth = entry ∷ [];
}

abbrev pub row_before : OperationData
row_before = record {
  contract_calls_json = none;
  contracts_involved = none;
  max_call_depth = none;
  soroban_auth_credentials_types = none;
  soroban_auth_addresses = none;
}

abbrev pub clock : ℕ → ℕ
clock n = 1000 + n

abbrev pub input : LedgerInput
input = record { sequence = 50; closed_at = 900; ledger_range = 0; era_id = none }
