-- ===== src/CallGraph/Extract.antt =====
-- call_graph.go: `extractCallGraph`, `callGraphToJSON` and `integrateCallGraph`.
pub mod Graph
pub mod Whole
pub mod Row
use stellar_extract.Prelude.{
  ℕ, Bool, true, false, Option, none, some, List, [], ◌∷◌, ◌++◌, if◌then◌else◌, Text, text_ordered,
  ltb,
}
use stellar_extract.Go.Strings.{codes}
use stellar_extract.Go.Maps.{GoMap, put}
use stellar_extract.Ordering.{sorted_set_keys}
use stellar_extract.Xdr.{Result, ok, err, Sdk}
use stellar_extract.CallGraph.Names.{DiagnosticEvent}
use stellar_extract.CallGraph.Calls.{ContractCall, deduplicate_calls}
use stellar_extract.CallGraph.Events.{extract_cross_contract_calls_from_diagnostic_events}
use stellar_extract.CallGraph.Auth.{Invocation, InvokeContract, extract_calls_from_auth_entries}
use stellar_extract.CallGraph.Credentials.{AuthorizationEntry, extract_auth_credentials}

-- xdr.HostFunction: the InvokeContract arm may be unset; other host functions are not read.
pub data HostFunction : Type 0 where
  invoke_contract : Option InvokeContract → HostFunction
  other_host_function : HostFunction

pub record InvokeHostFunctionOp : Type 0 where
  pub host_function : HostFunction
  pub auth : List AuthorizationEntry

pub record CallGraphResult : Type 0 where
  pub calls : List ContractCall
  pub contracts_involved : List Text
  pub max_depth : ℕ

-- The call graph columns of an operation row.
pub record OperationData : Type 0 where
  pub contract_calls_json : Option Text
  pub contracts_involved : Option (List Text)
  pub max_call_depth : Option ℕ
  pub soroban_auth_credentials_types : Option (List Text)
  pub soroban_auth_addresses : Option (List Text)

-- the loop over the calls: `contractsSet` and `maxDepth`
abbrev pub involve : List ContractCall → GoMap Text Bool → GoMap Text Bool
involve [] set = set
involve (call ∷ calls) set =
    involve calls (put call.to_contract true (put call.from_contract true set))

abbrev pub deepest : List ContractCall → ℕ → ℕ
deepest [] max_depth = max_depth
deepest (call ∷ calls) max_depth =
    deepest calls (if ltb max_depth call.call_depth then call.call_depth else max_depth)

pub roots_of : List AuthorizationEntry → List Invocation
roots_of [] = []
roots_of (entry ∷ entries) = entry.root_invocation ∷ roots_of entries

-- no graph where there are no calls
graph_on : Text → List ContractCall → Option CallGraphResult
unfolding sorted_set_keys
graph_on main [] = none
graph_on main (call ∷ calls) = some (record {
  calls = call ∷ calls;
  contracts_involved = sorted_set_keys (involve (call ∷ calls) (put main true []));
  max_depth = deepest (call ∷ calls) 0;
})

pub graph_of : Text → List ContractCall → Option CallGraphResult
unfolding graph_on deduplicate_calls
graph_of main found = graph_on main (deduplicate_calls found)

module _ (sdk : Sdk) where
  graph_from :
      Result (List DiagnosticEvent)
      → List AuthorizationEntry
      → Text
      → ℕ
      → Option CallGraphResult × ℕ
  unfolding graph_of roots_of extract_cross_contract_calls_from_diagnostic_events
      extract_calls_from_auth_entries
  graph_from events auth main skipped =
      let diagnostic_calls = extract_cross_contract_calls_from_diagnostic_events sdk events main in
      let (auth_calls, skipped') =
        extract_calls_from_auth_entries sdk (roots_of auth) main skipped in
      (graph_of main (diagnostic_calls ++ auth_calls), skipped')

  with_main :
      Result (List DiagnosticEvent)
      → List AuthorizationEntry
      → Result Text
      → ℕ
      → Result (Option CallGraphResult) × ℕ
  unfolding graph_from
  with_main events auth (err e) skipped =
      (err (codes "failed to get main contract ID: " ++ e), skipped)
  with_main events auth (ok main) skipped =
      let (graph, skipped') = graph_from events auth main skipped in (ok graph, skipped')

  on_host_function :
      Result (List DiagnosticEvent)
      → List AuthorizationEntry
      → HostFunction
      → ℕ
      → Result (Option CallGraphResult) × ℕ
  unfolding with_main
  on_host_function events auth other_host_function skipped = (ok none, skipped)
  on_host_function events auth (invoke_contract none) skipped = (ok none, skipped)
  on_host_function events auth (invoke_contract (some fn)) skipped =
      with_main events auth (sdk.address_string fn.contract_address) skipped

  -- the operation's body is an InvokeHostFunction or something else; the number is the package's
  -- `callGraphSkippedEdges`
  unfoldable pub extract_call_graph :
      Result (List DiagnosticEvent)
      → Option InvokeHostFunctionOp
      → ℕ
      → Result (Option CallGraphResult) × ℕ
  unfolding on_host_function
  extract_call_graph events none skipped = (ok none, skipped)
  extract_call_graph events (some op) skipped =
      on_host_function events op.auth op.host_function skipped

  -- `encoding/json` is the argument `marshal`
  module _ (marshal : List ContractCall → Result Text) where
    unfoldable pub call_graph_to_json :
        Option CallGraphResult → Result (Option Text × Option (List Text) × Option ℕ)
    call_graph_to_json none = ok (none, none, none)
    call_graph_to_json (some result) = elim result.calls [
      | [] ↦ ok (none, none, none)
      | call ∷ calls ↦ elim (marshal result.calls) [
        | err e ↦ err (codes "failed to marshal calls to JSON: " ++ e)
        | ok calls_json ↦
            ok (some calls_json, some result.contracts_involved, some result.max_depth)
      ]
    ]

    with_credentials : Option InvokeHostFunctionOp → OperationData → OperationData
    unfolding extract_auth_credentials
    with_credentials none op_data = op_data
    with_credentials (some op) op_data =
        let (types, addrs) = extract_auth_credentials sdk op.auth in
        record op_data { soroban_auth_credentials_types = types; soroban_auth_addresses = addrs }

    -- errors are logged and leave the three columns as they were
    with_columns :
        Result (Option Text × Option (List Text) × Option ℕ) → OperationData → OperationData
    with_columns (err e) op_data = op_data
    with_columns (ok (json, involved, depth)) op_data = record op_data {
      contract_calls_json = json;
      contracts_involved = involved;
      max_call_depth = depth;
    }

    with_graph : Result (Option CallGraphResult) → OperationData → OperationData
    unfolding with_columns call_graph_to_json
    with_graph (err e) op_data = op_data
    with_graph (ok none) op_data = op_data
    with_graph (ok (some graph)) op_data = with_columns (call_graph_to_json (some graph)) op_data

    unfoldable pub integrate_call_graph :
        Result (List DiagnosticEvent)
        → Option InvokeHostFunctionOp
        → OperationData
        → ℕ
        → OperationData × ℕ
    unfolding with_credentials with_graph extract_call_graph
    integrate_call_graph events op op_data skipped =
        let (graph, skipped') = extract_call_graph events op skipped in
        (with_graph graph (with_credentials op op_data), skipped')
