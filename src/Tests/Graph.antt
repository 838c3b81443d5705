-- ===== src/Tests/Graph.antt =====
-- Examples of call_graph.go: whole operations.
use stellar_extract.Prelude.{
  ℕ, ◌+◌, ◌≡◌, refl, true, Option, some, List, [], ◌∷◌, Text, All, length, count_up,
}
use stellar_extract.Go.Strings.{codes}
use stellar_extract.Xdr.{Result, ok}
use stellar_extract.Go.Ints.{pos}
use stellar_extract.Go.Slices.{sort}
use stellar_extract.ScVal.Json.{Json, num, null}
use stellar_extract.CallGraph.Calls.{ContractCall}
use stellar_extract.CallGraph.Events.{extract_cross_contract_calls_from_diagnostic_events}
use stellar_extract.CallGraph.Events.Recorded.{
  IsCross, orders_of, extract_cross_contract_calls_from_diagnostic_events_lem,
}
use stellar_extract.CallGraph.Auth.{extract_calls_from_auth_entries}
use stellar_extract.CallGraph.Auth.Recorded.{
  IsAuthCall, Connected, extract_calls_from_auth_entries_lem,
}
use stellar_extract.CallGraph.Auth.Skipped.{unreadable_roots}
use stellar_extract.CallGraph.Extract.{
  CallGraphResult, extract_call_graph, integrate_call_graph, roots_of,
}
use stellar_extract.CallGraph.Extract.Whole.{IsOutcome, found_calls, extract_call_graph-IsOutcome}
use stellar_extract.CallGraph.Extract.Row.{AfterCredentials, AfterGraph, integrate_call_graph_lem}
use stellar_extract.Tests.Data.{sdk, events, called, root, op, row_before}

extract_call_graph-IsOutcome_example :
    (graph : Option CallGraphResult) × (extract_call_graph sdk (ok events) (some op) 2
      ≡ (ok graph, 2 + unreadable_roots sdk (roots_of op.auth)))
    × IsOutcome (codes "A") (found_calls sdk (ok events) op (codes "A") 2) graph
extract_call_graph-IsOutcome_example =
    extract_call_graph-IsOutcome sdk (ok events) op (called (codes "A") (codes "swap")) (codes "A")
      2 refl refl

extract_cross_contract_calls_from_diagnostic_events_lem_example :
    let calls = extract_cross_contract_calls_from_diagnostic_events sdk (ok events) (codes "A") in
    All (IsCross 3) calls × (orders_of calls ≡ count_up 0 (length calls))
extract_cross_contract_calls_from_diagnostic_events_lem_example =
    extract_cross_contract_calls_from_diagnostic_events_lem sdk (codes "A") events

extract_calls_from_auth_entries_lem_example :
    let calls = (extract_calls_from_auth_entries sdk (root ∷ []) (codes "A") 0).0 in
    All (IsAuthCall 1) calls
    × (orders_of calls ≡ count_up 0 (length calls))
    × Connected (codes "A" ∷ []) calls
extract_calls_from_auth_entries_lem_example =
    extract_calls_from_auth_entries_lem sdk (root ∷ []) (codes "A") 0

abbrev marshal : List ContractCall → Result Text
marshal calls = ok (codes "json")

integrate_call_graph_lem_example :
    let after = (integrate_call_graph sdk marshal (ok events) (some op) row_before 0).0 in
    AfterCredentials sdk marshal (some op) row_before after
    × AfterGraph marshal (extract_call_graph sdk (ok events) (some op) 0).0 row_before after
integrate_call_graph_lem_example =
    integrate_call_graph_lem sdk marshal (ok events) (some op) row_before 0

abbrev call_at : Text → Text → Text → Json → ℕ → ℕ → ContractCall
call_at from to name arguments depth order = record {
  from_contract = from;
  to_contract = to;
  function_name = name;
  arguments = arguments;
  call_depth = depth;
  execution_order = order;
  successful = true;
}

abbrev graph : CallGraphResult
graph = record {
  calls =
      call_at (codes "A") (codes "B") (codes "swap") (num (pos 7)) 1 0
      ∷ call_at (codes "A") (codes "B") (codes "transfer") null 2 0
      ∷ call_at (codes "B") (codes "C") (codes "mint") null 3 1
      ∷ [];
  contracts_involved = codes "A" ∷ codes "B" ∷ codes "C" ∷ [];
  max_depth = 3;
}

-- The whole extraction computes to the expected graph.
graph_of_example : (extract_call_graph sdk (ok events) (some op) 0).0 ≡ ok (some graph)
unfolding extract_call_graph sort
graph_of_example = refl
