-- ===== src/CallGraph/Events.antt =====
-- call_graph.go: `extractCrossContractCallsFromDiagnosticEvents`.
pub mod Stack
pub mod Recorded
use stellar_extract.Prelude.{
  ℕ, zero, suc, ◌+◌, ◌-◌, Bool, true, false, not, ◌&&◌, ◌||◌, Option, none, some, List, [], ◌∷◌,
  ◌++◌, if◌then◌else◌, Text, text_ordered, ◌==◌, ltb,
}
use stellar_extract.Go.Strings.{codes}
use stellar_extract.Xdr.{Result, ok, err, Sdk, VersionByte, version_contract}
use stellar_extract.ScVal.Json.{Json}
use stellar_extract.CallGraph.FnName.{extract_function_name_from_arguments}
use stellar_extract.CallGraph.Names.{
  ContractEvent, DiagnosticEvent, unknown, extract_first_topic,
  extract_function_name_from_diagnostic_event, extract_arguments_from_diagnostic_event,
}
use stellar_extract.CallGraph.Calls.{ContractCall}

-- The variables of the loop. `call_stack` has the top of the stack first.
pub record Trace : Type 0 where
  pub calls : List ContractCall
  pub execution_order : ℕ
  pub current_depth : ℕ
  pub call_stack : List Text

abbrev pub start : Text → Trace
start main = record { calls = []; execution_order = 0; current_depth = 0; call_stack = main ∷ [] }

abbrev pub fn_call : Text
fn_call = codes "fn_call"

abbrev pub fn_return : Text
fn_return = codes "fn_return"

-- `functionName == "" || functionName == "unknown"`
abbrev is_missing : Text → Bool
is_missing name = name == [] || name == unknown

-- the fallback to the arguments
name_or_argument : Text → Json → Text
unfolding extract_function_name_from_arguments
name_or_argument name arguments =
    if is_missing name
    then (let in_arguments = extract_function_name_from_arguments arguments in
        if in_arguments == [] then name else in_arguments)
    else name

module _ (sdk : Sdk) where
  -- `strkey.Encode` of the event's contract, if it has one and it can be encoded
  encoded_contract : ContractEvent → Option Text
  encoded_contract event = elim event.contract_id [
    | none ↦ none
    | some id ↦ elim (sdk.strkey_encode version_contract id) [ ok text ↦ some text | err e ↦ none ]
  ]

  -- append a call and count it
  pub record_call : Text → Text → Text → Json → Bool → Trace → Trace
  record_call from to name arguments successful s = record s {
    calls =
        s.calls
        ++ record {
          from_contract = from;
          to_contract = to;
          function_name = name;
          arguments = arguments;
          call_depth = s.current_depth + 1;
          execution_order = s.execution_order;
          successful = successful;
        }
          ∷ [];
    execution_order = s.execution_order + 1;
  }

  -- the name of the callee's own fn_call, or else the caller's, or else one in the arguments
  callee_name : DiagnosticEvent → DiagnosticEvent → Json → Text
  unfolding name_or_argument extract_first_topic extract_function_name_from_diagnostic_event
  callee_name diag following arguments =
      let of_callee =
        if extract_first_topic sdk following.event == fn_call
        then extract_function_name_from_diagnostic_event following.event
        else [] in
      name_or_argument
        (if is_missing of_callee
          then extract_function_name_from_diagnostic_event diag.event
          else of_callee)
        arguments

  -- the event behind a fn_call of the main contract comes from another contract
  call_following : Text → DiagnosticEvent → DiagnosticEvent → Trace → Trace
  unfolding encoded_contract record_call callee_name extract_arguments_from_diagnostic_event
  call_following id diag following s = elim (encoded_contract following.event) [
    | none ↦ s
    | some next_id ↦
        if next_id == id
        then s
        else (let arguments = extract_arguments_from_diagnostic_event sdk diag.event in
            record_call id next_id (callee_name diag following arguments) arguments
              diag.in_successful_contract_call s)
  ]

  -- Pattern 1
  main_calls : Text → Text → Text → DiagnosticEvent → List DiagnosticEvent → Trace → Trace
  unfolding call_following
  main_calls main topic id diag [] s = s
  main_calls main topic id diag (following ∷ events) s =
      if topic == fn_call && id == main then call_following id diag following s else s

  abbrev top_or : Text → List Text → Text
  top_or main [] = main
  top_or main (top ∷ stack) = top

  -- Pattern 2
  other_calls : Text → Text → Text → DiagnosticEvent → Trace → Trace
  unfolding record_call name_or_argument extract_function_name_from_diagnostic_event
      extract_arguments_from_diagnostic_event
  other_calls main topic id diag s =
      let from = top_or main s.call_stack in
      if topic == fn_call && not (id == main) && not (from == id)
      then (let arguments = extract_arguments_from_diagnostic_event sdk diag.event in
          record_call from id
            (name_or_argument (extract_function_name_from_diagnostic_event diag.event) arguments)
            arguments diag.in_successful_contract_call s)
      else s

  -- `eventContractID != "" && (len(callStack) == 0 || callStack[len(callStack)-1] != eventContractID)`
  abbrev pub enters : Text → List Text → Bool
  enters id [] = not (id == [])
  enters id (top ∷ stack) = not (id == []) && not (top == id)

  push : Text → Trace → Trace
  push id s =
      if enters id s.call_stack
      then record s { call_stack = id ∷ s.call_stack; current_depth = s.current_depth + 1 }
      else s

  -- only where the stack holds more than one contract; `-` stops at 0 as the code's test does
  abbrev popped : List Text → Trace → Trace
  popped (top ∷ below ∷ stack) s = record s {
    call_stack = below ∷ stack;
    current_depth = s.current_depth - 1;
  }
  popped _ s = s

  update_stack : Text → Text → Trace → Trace
  unfolding push
  update_stack topic id s =
      if topic == fn_call
      then push id s
      else if topic == fn_return
      then popped s.call_stack s
      else s

  -- one round of the loop; the list holds the events that follow
  unfoldable pub step : Text → DiagnosticEvent → List DiagnosticEvent → Trace → Trace
  unfolding encoded_contract extract_first_topic main_calls other_calls update_stack
  step main diag events s = elim (encoded_contract diag.event) [
    | none ↦ s
    | some id ↦
        let topic = extract_first_topic sdk diag.event in
        update_stack topic id
          (other_calls main topic id diag (main_calls main topic id diag events s))
  ]

  unfoldable pub trace : Text → List DiagnosticEvent → Trace → Trace
  unfolding step
  trace main [] s = s
  trace main (diag ∷ events) s = trace main events (step main diag events s)

  -- `tx.GetTransactionEvents` is the SDK's; an error gives no calls, as an empty list does
  unfoldable pub extract_cross_contract_calls_from_diagnostic_events :
      Result (List DiagnosticEvent) → Text → List ContractCall
  unfolding trace
  extract_cross_contract_calls_from_diagnostic_events (err e) main = []
  extract_cross_contract_calls_from_diagnostic_events (ok events) main =
      (trace main events (start main)).calls
