-- ===== src/CallGraph/Extract/Whole.antt =====
-- The outcome of `extractCallGraph` on an operation that invokes a contract.
use stellar_extract.Prelude.{
  ℕ, ◌+◌, ◌≡◌, ◌≤◌, refl, Option, none, some, List, [], ◌∷◌, ◌++◌, Text, text_ordered, arith, All,
  All-map, All-append, length, ◌∙◌,
}
use Prim.Native.Nat.{max}
use stellar_extract.Xdr.{Result, ok, Sdk}
use stellar_extract.CallGraph.Names.{DiagnosticEvent}
use stellar_extract.CallGraph.Calls.{ContractCall, deduplicate_calls}
use stellar_extract.CallGraph.Calls.Unique.{deduplicate_calls-All, deduplicate_calls-eq-nil}
use stellar_extract.CallGraph.Events.{extract_cross_contract_calls_from_diagnostic_events}
use stellar_extract.CallGraph.Events.Recorded.{
  IsCross, extract_cross_contract_calls_from_diagnostic_events_lem,
}
use stellar_extract.CallGraph.Auth.{InvokeContract, extract_calls_from_auth_entries}
use stellar_extract.CallGraph.Auth.Recorded.{IsAuthCall, extract_calls_from_auth_entries_lem}
use stellar_extract.CallGraph.Auth.Skipped.{unreadable_roots, extract_calls_from_auth_entries_skips}
use stellar_extract.CallGraph.Extract.{
  invoke_contract, InvokeHostFunctionOp, CallGraphResult, roots_of, graph_on, graph_of,
  extract_call_graph,
}
use stellar_extract.CallGraph.Extract.Graph.{IsGraphOf, graph_of-IsGraphOf}

-- No graph exactly where no calls were found, and otherwise the graph of those calls.
abbrev pub IsOutcome : Text → List ContractCall → Option CallGraphResult → Type 0
IsOutcome main found none = found ≡ []
IsOutcome main found (some g) = IsGraphOf main found g

graph_on-eq-none : (main : Text) (kept : List ContractCall) → graph_on main kept ≡ none → kept ≡ []
unfolding graph_on
graph_on-eq-none main [] h = refl
graph_on-eq-none main (call ∷ calls) h = ground arith

graph_of-IsOutcome :
    (main : Text) (found : List ContractCall) (graph : Option CallGraphResult)
    → graph_of main found ≡ graph
    → IsOutcome main found graph
graph_of-IsOutcome main found none h =
    deduplicate_calls-eq-nil found
      (graph_on-eq-none main (deduplicate_calls found) (unfold graph_of in h))
graph_of-IsOutcome main found (some g) h = graph_of-IsGraphOf main found g h

module _ (sdk : Sdk) where
  -- All calls that the two sources give, in the order of the list.
  pub found_calls :
      Result (List DiagnosticEvent) → InvokeHostFunctionOp → Text → ℕ → List ContractCall
  found_calls events op main skipped =
      extract_cross_contract_calls_from_diagnostic_events sdk events main
      ++ (extract_calls_from_auth_entries sdk (roots_of op.auth) main skipped).0

  extract_call_graph-eq :
      (events : Result (List DiagnosticEvent)) (op : InvokeHostFunctionOp) (fn : InvokeContract)
      (main : Text) (skipped : ℕ)
      → op.host_function ≡ invoke_contract (some fn)
      → sdk.address_string fn.contract_address ≡ ok main
      → extract_call_graph sdk events (some op) skipped ≡ (
        ok (graph_of main (found_calls events op main skipped)),
        (extract_calls_from_auth_entries sdk (roots_of op.auth) main skipped).1,
      )
  unfolding extract_call_graph found_calls
  extract_call_graph-eq events op fn main skipped h e = rw (h, e)

  -- An operation that invokes a contract whose address can be printed gives no error; it gives no
  -- graph exactly where neither source gives a call, and otherwise the graph of the calls of both;
  -- and the skip count grows by the unreadable addresses of the authorization entries.
  pub extract_call_graph-IsOutcome :
      (events : Result (List DiagnosticEvent)) (op : InvokeHostFunctionOp) (fn : InvokeContract)
      (main : Text) (skipped : ℕ)
      → op.host_function ≡ invoke_contract (some fn)
      → sdk.address_string fn.contract_address ≡ ok main
      → (graph : Option CallGraphResult) × (extract_call_graph sdk events (some op) skipped
          ≡ (ok graph, skipped + unreadable_roots sdk (roots_of op.auth)))
        × IsOutcome main (found_calls events op main skipped) graph
  extract_call_graph-IsOutcome events op fn main skipped h e = (
    graph_of main (found_calls events op main skipped),
    extract_call_graph-eq events op fn main skipped h e
        ∙ (rw (extract_calls_from_auth_entries_skips sdk (roots_of op.auth) main skipped)),
    graph_of-IsOutcome main (found_calls events op main skipped) _ refl,
  )

  found-All :
      (events : List DiagnosticEvent) (op : InvokeHostFunctionOp) (main : Text) (skipped : ℕ)
      → All (IsCross (max 10 (length events))) (found_calls (ok events) op main skipped)
  unfolding found_calls
  found-All events op main skipped =
      let n = length events in
      let of_events = (extract_cross_contract_calls_from_diagnostic_events_lem sdk main events).0 in
      let of_auth = (extract_calls_from_auth_entries_lem sdk (roots_of op.auth) main skipped).0 in
      All-append (IsCross (max 10 n)) _ _
        (All-map (IsCross n) (IsCross (max 10 n)) _
          (λ call i. record {
            crosses = i.crosses;
            below_main = i.below_main;
            bounded = let b : call.call_depth ≤ n = i.bounded in omega arith;
          })
          of_events)
        (All-map (IsAuthCall 1) (IsCross (max 10 n)) _
          (λ call i. record {
            crosses = ground (arith, i.crosses);
            below_main = i.deep_enough;
            bounded = let b : call.call_depth ≤ 10 = i.depth_capped in omega arith;
          })
          of_auth)

  -- Every call of the graph of an operation whose events could be read is a call between
  -- different contracts, at a depth from 1 to 10 or to the number of events where that is more.
  pub extract_call_graph-All :
      (events : List DiagnosticEvent) (op : InvokeHostFunctionOp) (fn : InvokeContract)
      (main : Text) (skipped : ℕ) (g : CallGraphResult)
      → op.host_function ≡ invoke_contract (some fn)
      → sdk.address_string fn.contract_address ≡ ok main
      → (extract_call_graph sdk (ok events) (some op) skipped).0 ≡ ok (some g)
      → All (IsCross (max 10 (length events))) g.calls
  extract_call_graph-All events op fn main skipped g h e h' =
      let found = found_calls (ok events) op main skipped in
      let whole = extract_call_graph-eq (ok events) op fn main skipped h e in
      let is_graph : IsGraphOf main found g = graph_of-IsGraphOf main found g (cc whole) in
      rw (is_graph.kept) (
        deduplicate_calls-All (IsCross (max 10 (length events))) found
          (found-All events op main skipped))
