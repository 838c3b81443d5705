-- ===== src/CallGraph/Extract/Row.antt =====
-- What `integrateCallGraph` writes to the operation row.
use stellar_extract.Prelude.{ℕ, ◌≡◌, refl, Option, none, some, List, [], ◌∷◌, Text, arith}
use stellar_extract.Xdr.{Result, ok, err, Sdk}
use stellar_extract.CallGraph.Names.{DiagnosticEvent}
use stellar_extract.CallGraph.Calls.{ContractCall}
use stellar_extract.CallGraph.Credentials.{extract_auth_credentials}
use stellar_extract.CallGraph.Extract.{
  InvokeHostFunctionOp, CallGraphResult, OperationData, extract_call_graph, call_graph_to_json,
  with_credentials, with_columns, with_graph, integrate_call_graph,
}

-- The three columns of the graph.
abbrev pub SameColumns : OperationData → OperationData → Type 0
SameColumns before after =
    (after.contract_calls_json ≡ before.contract_calls_json)
    × (after.contracts_involved ≡ before.contracts_involved)
    × (after.max_call_depth ≡ before.max_call_depth)

-- What the outcome of the extraction and of the marshalling means for the columns.
abbrev pub AfterMarshal : CallGraphResult → Result Text → OperationData → OperationData → Type 0
AfterMarshal g (err e) before after = SameColumns before after
AfterMarshal g (ok json) before after =
    (after.contract_calls_json ≡ some json)
    × (after.contracts_involved ≡ some g.contracts_involved)
    × (after.max_call_depth ≡ some g.max_depth)

-- A graph without calls, which the extraction never gives, would make the columns NULL.
abbrev pub AfterCalls :
    List ContractCall → CallGraphResult → Result Text → OperationData → OperationData → Type 0
AfterCalls [] g r before after =
    (after.contract_calls_json ≡ none)
    × (after.contracts_involved ≡ none)
    × (after.max_call_depth ≡ none)
AfterCalls (call ∷ calls) g r before after = AfterMarshal g r before after

abbrev pub AfterGraph :
    (List ContractCall → Result Text)
    → Result (Option CallGraphResult)
    → OperationData
    → OperationData
    → Type 0
AfterGraph marshal (err e) before after = SameColumns before after
AfterGraph marshal (ok none) before after = SameColumns before after
AfterGraph marshal (ok (some g)) before after = AfterCalls g.calls g (marshal g.calls) before after

module _ (sdk : Sdk) (marshal : List ContractCall → Result Text) where
  with_graph-AfterGraph :
      (graph : Result (Option CallGraphResult)) (before : OperationData)
      → AfterGraph marshal graph before (with_graph sdk marshal graph before)
  unfolding with_graph
  with_graph-AfterGraph x before = ground arith

  -- The credentials columns of an InvokeHostFunction operation, and of any other operation.
  abbrev pub AfterCredentials : Option InvokeHostFunctionOp → OperationData → OperationData → Type 0
  AfterCredentials none before after =
      (after.soroban_auth_credentials_types ≡ before.soroban_auth_credentials_types)
      × (after.soroban_auth_addresses ≡ before.soroban_auth_addresses)
  AfterCredentials (some op) before after =
      (after.soroban_auth_credentials_types ≡ (extract_auth_credentials sdk op.auth).0)
      × (after.soroban_auth_addresses ≡ (extract_auth_credentials sdk op.auth).1)

  with_columns_keeps :
      (r : Result (Option Text × Option (List Text) × Option ℕ)) (before : OperationData)
      → let after = with_columns sdk marshal r before in
        (after.soroban_auth_credentials_types ≡ before.soroban_auth_credentials_types)
        × (after.soroban_auth_addresses ≡ before.soroban_auth_addresses)
  unfolding with_columns
  with_columns_keeps (err e) before = (refl, refl)
  with_columns_keeps (ok (json, involved, depth)) before = (refl, refl)

  with_graph_keeps :
      (graph : Result (Option CallGraphResult)) (before : OperationData)
      → let after = with_graph sdk marshal graph before in
        (after.soroban_auth_credentials_types ≡ before.soroban_auth_credentials_types)
        × (after.soroban_auth_addresses ≡ before.soroban_auth_addresses)
  with_graph_keeps (err e) before = unfold with_graph in (refl, refl)
  with_graph_keeps (ok none) before = unfold with_graph in (refl, refl)
  with_graph_keeps (ok (some g)) before =
      unfold with_graph in with_columns_keeps (call_graph_to_json sdk marshal (some g)) before

  same_credentials :
      (graph : Result (Option CallGraphResult)) (op : Option InvokeHostFunctionOp)
      (before : OperationData)
      → AfterCredentials op before
          (with_graph sdk marshal graph (with_credentials sdk marshal op before))
  unfolding with_credentials
  same_credentials graph none before = with_graph_keeps graph before
  same_credentials graph (some op) before =
      with_graph_keeps graph (with_credentials sdk marshal (some op) before)

  rebase :
      (graph : Result (Option CallGraphResult)) (b b' after : OperationData)
      → SameColumns b b'
      → AfterGraph marshal graph b' after
      → AfterGraph marshal graph b after
  rebase x b b' after h k = ground arith

  credentials_keep_columns :
      (op : Option InvokeHostFunctionOp) (before : OperationData)
      → SameColumns before (with_credentials sdk marshal op before)
  unfolding with_credentials
  credentials_keep_columns none before = (refl, refl, refl)
  credentials_keep_columns (some op) before = (refl, refl, refl)

  -- The credentials of an InvokeHostFunction operation are written whatever becomes of the graph.
  -- The three columns of the graph are written, all of them, where there is a graph and its calls
  -- can be marshalled, and stay as they were on every other outcome.
  pub integrate_call_graph_lem :
      (events : Result (List DiagnosticEvent)) (op : Option InvokeHostFunctionOp)
      (before : OperationData) (skipped : ℕ)
      → let after = (integrate_call_graph sdk marshal events op before skipped).0 in
        AfterCredentials op before after
        × AfterGraph marshal (extract_call_graph sdk events op skipped).0 before after
  integrate_call_graph_lem events op before skipped =
      let graph = (extract_call_graph sdk events op skipped).0 in
      let middle = with_credentials sdk marshal op before in
      unfold integrate_call_graph in
      (
        same_credentials graph op before,
        rebase graph before middle (with_graph sdk marshal graph middle)
            (credentials_keep_columns op before) (with_graph-AfterGraph graph middle),
      )
