-- ===== src/CallGraph/Events/Recorded.antt =====
-- The stack discipline of the loop, and what holds of every call that it records.
use stellar_extract.Prelude.{
  ℕ, suc, ◌+◌, ◌-◌, ◌≤◌, ◌≡◌, refl, Bool, true, false, List, [], ◌∷◌, ◌++◌, Text, text_ordered,
  ◌==◌, arith, length, length-append, All, All-append, All-map, count_up, count_up-append, ap, sym,
}
use Prim.Native.Nat.add
use stellar_extract.Xdr.{Sdk, ok}
use stellar_extract.ScVal.Json.{Json}
use stellar_extract.CallGraph.Names.{DiagnosticEvent}
use stellar_extract.CallGraph.Calls.{ContractCall}
use stellar_extract.CallGraph.Events.{
  Trace, start, record_call, enters, trace, extract_cross_contract_calls_from_diagnostic_events,
}
use stellar_extract.CallGraph.Events.Stack.{trace_keeps}

-- The lowest contract of a stack, if it has one.
abbrev pub StandsOn : Text → List Text → Type 0
StandsOn main [] = ⊥
StandsOn main (bottom ∷ []) = bottom ≡ main
StandsOn main (top ∷ below ∷ stack) = StandsOn main (below ∷ stack)

-- No contract stands directly on itself.
abbrev pub Alternates : List Text → Type 0
Alternates [] = Unit
Alternates (bottom ∷ []) = Unit
Alternates (top ∷ below ∷ stack) = ((below == top) ≡ false) × Alternates (below ∷ stack)

-- The stack of the loop: one contract for each level of depth, on top of the main contract.
pub record IsStacked (main : Text) (n : ℕ) (s : Trace) : Type 0 where
  pub height : length s.call_stack ≡ s.current_depth + 1
  pub bottom : StandsOn main s.call_stack
  pub alternating : Alternates s.call_stack
  pub shallow : s.current_depth ≤ n

abbrev pub orders_of : List ContractCall → List ℕ
orders_of [] = []
orders_of (call ∷ calls) = call.execution_order ∷ orders_of calls

pub orders_of-append :
    (xs ys : List ContractCall) → orders_of (xs ++ ys) ≡ orders_of xs ++ orders_of ys
orders_of-append [] ys = refl
orders_of-append (x ∷ xs) ys = ap (λ r. x.execution_order ∷ r) (orders_of-append xs ys)

-- A call from one contract to another, at a depth from 1 to `d`.
pub record IsCross (d : ℕ) (call : ContractCall) : Type 0 where
  pub crosses : (call.from_contract == call.to_contract) ≡ false
  pub below_main : 1 ≤ call.call_depth
  pub bounded : call.call_depth ≤ d

pub record IsNumbered (calls : List ContractCall) (next : ℕ) : Type 0 where
  pub counted : next ≡ length calls
  pub in_order : orders_of calls ≡ count_up 0 (length calls)

abbrev IsTraceInside : Text → ℕ → Trace → Type 0
IsTraceInside main n s =
    IsStacked main n s × All (IsCross (suc n)) s.calls × IsNumbered s.calls s.execution_order

abbrev IsTrace : Text → ℕ → Trace → Type 0
IsTrace main n s =
    IsStacked main n s × All (IsCross n) s.calls × IsNumbered s.calls s.execution_order

module _ (sdk : Sdk) where
  append-IsNumbered :
      (calls : List ContractCall) (call : ContractCall) (next : ℕ)
      → IsNumbered calls next
      → call.execution_order ≡ next
      → IsNumbered (calls ++ call ∷ []) (next + 1)
  append-IsNumbered calls call next h e = record {
    counted = omega (arith, h.counted, length-append calls (call ∷ []));
    in_order =
        let size : length (calls ++ call ∷ []) ≡ length calls + 1 =
          length-append calls (call ∷ []) in
        let numbers : count_up 0 (length calls + 1)
            ≡ count_up 0 (length calls) ++ call.execution_order ∷ [] =
          ground (arith, count_up-append 0 (length calls) 1, h.counted) in
        ground (arith, orders_of-append calls (call ∷ []), h.in_order, size, numbers);
  }

  wider : (n : ℕ) (call : ContractCall) → IsCross n call → IsCross (suc n) call
  wider n call h = record { crosses = h.crosses; below_main = h.below_main; bounded = omega arith }

  recorded :
      (main : Text) (n : ℕ) (s : Trace) (from to name : Text) (arguments : Json) (successful : Bool)
      → (from == to) ≡ false
      → IsTraceInside main n s
      → IsTraceInside main n (record_call sdk from to name arguments successful s)
  unfolding record_call
  recorded main n s from to name arguments successful other (stacked, calls, numbered) = (
    record {
      height = stacked.height;
      bottom = stacked.bottom;
      alternating = stacked.alternating;
      shallow = stacked.shallow;
    },
    All-append (IsCross (suc n)) s.calls _ calls (
      record {
        crosses = other;
        below_main = omega arith;
        bounded = let h : s.current_depth ≤ n = stacked.shallow in omega arith;
      },
      tt,
    ),
    append-IsNumbered s.calls _ s.execution_order numbered refl,
  )

  entered :
      (main : Text) (n : ℕ) (s : Trace) (id : Text)
      → enters sdk id s.call_stack ≡ true
      → IsTraceInside main n s
      → IsTrace main
          (suc n)
          (record s { call_stack = id ∷ s.call_stack; current_depth = s.current_depth + 1 })
  entered main n s id entering x = ground arith

  left :
      (main : Text) (n : ℕ) (s : Trace) (top below : Text) (stack : List Text)
      → s.call_stack ≡ top ∷ below ∷ stack
      → IsTraceInside main n s
      → IsTrace main
          (suc n)
          (record s { call_stack = below ∷ stack; current_depth = s.current_depth - 1 })
  left main n s top below stack e x = ground arith

  stayed : (main : Text) (n : ℕ) (s : Trace) → IsTraceInside main n s → IsTrace main (suc n) s
  stayed main n s x = ground arith

  trace-IsTrace :
      (main : Text) (events : List DiagnosticEvent)
      → IsTrace main (length events) (trace sdk main events (start main))
  trace-IsTrace main events = rw (sym (add.zero (length events))) (
      trace_keeps sdk (IsTrace main) (IsTraceInside main)
        (λ n s (stacked, calls, numbered).
          (stacked, All-map (IsCross n) (IsCross (suc n)) s.calls (wider n) calls, numbered))
        (recorded main) (entered main) (left main) (stayed main) events 0 (start main) main
        (
          record { height = omega arith; bottom = refl; alternating = tt; shallow = omega arith },
          tt,
          record { counted = refl; in_order = refl },
        ))

  -- After any events the call stack has one contract for each level of depth above the main
  -- contract, it stands on the main contract, no contract on it stands directly on itself, and the
  -- depth is at most the number of events.
  pub trace-IsStacked :
      (main : Text) (events : List DiagnosticEvent)
      → IsStacked main (length events) (trace sdk main events (start main))
  trace-IsStacked main events = (trace-IsTrace main events).0

  -- Every call that the events give goes from one contract to a different one, at a depth from 1
  -- to the number of events, and the execution orders are 0, 1, 2, … in the order of the list.
  pub extract_cross_contract_calls_from_diagnostic_events_lem :
      (main : Text) (events : List DiagnosticEvent)
      → let calls = extract_cross_contract_calls_from_diagnostic_events sdk (ok events) main in
        All (IsCross (length events)) calls × (orders_of calls ≡ count_up 0 (length calls))
  unfolding extract_cross_contract_calls_from_diagnostic_events
  extract_cross_contract_calls_from_diagnostic_events_lem main events =
      let (stacked, cross, numbered) = trace-IsTrace main events in (cross, numbered.in_order)
