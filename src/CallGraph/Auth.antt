-- ===== src/CallGraph/Auth.antt =====
-- call_graph.go: calls from authorization entries.
pub mod Recorded
pub mod Skipped
use stellar_extract.Prelude.{
  ℕ, ◌+◌, Bool, true, false, not, Option, none, some, List, [], ◌∷◌, ◌++◌, if◌then◌else◌, Text,
  text_ordered, ◌==◌, ltb,
}
use stellar_extract.Xdr.{Result, ok, err, Sdk, version_contract}
use stellar_extract.Xdr.Values.{ScAddress}
use stellar_extract.ScVal.Json.{null}
use stellar_extract.CallGraph.Calls.{ContractCall}

-- xdr.InvokeContractArgs, as far as it is read.
pub record InvokeContract : Type 0 where
  pub contract_address : ScAddress
  pub function_name : Text

-- xdr.SorobanAuthorizedFunction: the CONTRACT_FN arm may be unset; other arms are not read.
pub data AuthorizedFunction : Type 0 where
  contract_fn : Option InvokeContract → AuthorizedFunction
  create_contract_fn : AuthorizedFunction

mutual
  pub data Invocation : Type 0 where
    invoke : AuthorizedFunction → Invocations → Invocation

  pub data Invocations : Type 0 where
    no_invocations : Invocations
    and_invocation : Invocation → Invocations → Invocations

-- `*executionOrder`, and the package's `callGraphSkippedEdges`.
pub record Counters : Type 0 where
  pub execution_order : ℕ
  pub skipped_edges : ℕ

-- What one node contributes, and the caller of the nodes below it.
pub record Visit : Type 0 where
  pub calls : List ContractCall
  pub caller : Text
  pub counters : Counters

module _ (sdk : Sdk) where
  skip : Counters → Counters
  skip c = record c { skipped_edges = c.skipped_edges + 1 }

  unfoldable pub sc_address_contract_str_key : ScAddress → Counters → Option Text × Counters
  unfolding skip
  sc_address_contract_str_key address c = elim (sdk.get_contract_id address) [
    | none ↦ (none, skip c)
    | some id ↦ elim (sdk.strkey_encode version_contract id) [
      | ok encoded ↦ (some encoded, c)
      | err e ↦ (none, skip c)
    ]
  ]

  -- the test behind `scAddressContractStrKey`, and the call
  visit_callee : Text → ℕ → Text → Option Text × Counters → Visit
  visit_callee from depth name (none, c) = record { calls = []; caller = from; counters = c }
  visit_callee from depth name (some to, c) =
      if to == from then record { calls = []; caller = from; counters = c } else record {
        calls =
            record {
              from_contract = from;
              to_contract = to;
              function_name = name;
              arguments = null;
              call_depth = depth;
              execution_order = c.execution_order;
              successful = true;
            }
            ∷ [];
        caller = to;
        counters = record c { execution_order = c.execution_order + 1 };
      }

  visit : AuthorizedFunction → Text → ℕ → Counters → Visit
  unfolding visit_callee sc_address_contract_str_key
  visit (contract_fn (some fn)) from depth c =
      visit_callee from depth fn.function_name (sc_address_contract_str_key fn.contract_address c)
  visit _ from depth c = record { calls = []; caller = from; counters = c }

  unfoldable mutual
    unfolding visit

    pub extract_calls_from_auth_invocation :
        Invocation → Text → ℕ → Counters → List ContractCall × Counters
    extract_calls_from_auth_invocation (invoke function subs) from depth c =
        let v = visit function from depth c in
        let below = extract_calls_from_sub_invocations subs v.caller (depth + 1) v.counters in
        if ltb 10 depth then ([], c) else (v.calls ++ below.0, below.1)

    -- the loop over `SubInvocations`
    pub extract_calls_from_sub_invocations :
        Invocations → Text → ℕ → Counters → List ContractCall × Counters
    extract_calls_from_sub_invocations no_invocations from depth c = ([], c)
    extract_calls_from_sub_invocations (and_invocation sub subs) from depth c =
        let (calls, c') = extract_calls_from_auth_invocation sub from depth c in
        let (more, c'') = extract_calls_from_sub_invocations subs from depth c' in
        (calls ++ more, c'')

  -- the loop over the entries, each given by its root invocation; the order starts at 0
  entries_loop : List Invocation → Text → Counters → List ContractCall × Counters
  unfolding extract_calls_from_auth_invocation
  entries_loop [] main c = ([], c)
  entries_loop (root ∷ entries) main c =
      let (calls, c') = extract_calls_from_auth_invocation root main 1 c in
      let (more, c'') = entries_loop entries main c' in (calls ++ more, c'')

  unfoldable pub extract_calls_from_auth_entries :
      List Invocation → Text → ℕ → List ContractCall × ℕ
  unfolding entries_loop
  extract_calls_from_auth_entries entries main skipped =
      let (calls, c) =
        entries_loop entries main (record { execution_order = 0; skipped_edges = skipped }) in
      (calls, c.skipped_edges)
