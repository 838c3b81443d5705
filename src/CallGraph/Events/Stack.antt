-- ===== src/CallGraph/Events/Stack.antt =====
-- Induction along the loop: what recording a call, entering and leaving a contract keep, the whole
-- loop keeps. `P n` holds between rounds, `Q n` inside the round behind `n` events.
use stellar_extract.Prelude.{
  ℕ, suc, ◌+◌, ◌-◌, ◌≡◌, refl, Bool, true, false, not, ◌&&◌, List, [], ◌∷◌, Text, text_ordered,
  ◌==◌, Option-cases, Bool-cases, inl, inr, arith, length,
}
use stellar_extract.Xdr.{Sdk}
use stellar_extract.ScVal.Json.{Json}
use stellar_extract.CallGraph.Names.{DiagnosticEvent, extract_first_topic}
use stellar_extract.CallGraph.Events.{
  Trace, fn_call, fn_return, record_call, call_following, main_calls, other_calls, top_or, enters,
  push, popped, update_stack, encoded_contract, step, trace,
}

module _ (sdk : Sdk) (P Q : ℕ → Trace → Type 0) (begin : (n : ℕ) (s : Trace) → P n s → Q n s)
    (recorded : (n : ℕ) (s : Trace) (from to name : Text) (arguments : Json) (successful : Bool)
      → (from == to) ≡ false
      → Q n s
      → Q n (record_call sdk from to name arguments successful s))
    (entered : (n : ℕ) (s : Trace) (id : Text)
      → enters sdk id s.call_stack ≡ true
      → Q n s
      → P
          (suc n)
          (record s { call_stack = id ∷ s.call_stack; current_depth = s.current_depth + 1 }))
    (left : (n : ℕ) (s : Trace) (top below : Text) (stack : List Text)
      → s.call_stack ≡ top ∷ below ∷ stack
      → Q n s
      → P (suc n) (record s { call_stack = below ∷ stack; current_depth = s.current_depth - 1 }))
    (stayed : (n : ℕ) (s : Trace) → Q n s → P (suc n) s) where
  call_following_keeps :
      (n : ℕ) (s : Trace) (id : Text) (diag following : DiagnosticEvent)
      → Q n s
      → Q n (call_following sdk id diag following s)
  unfolding call_following
  call_following_keeps n s id diag following q =
      elim (Option-cases (encoded_contract sdk following.event)) [
        | inl missing ↦ rw (missing, call_following) q
        | inr (next_id, found) ↦ elim (Bool-cases (next_id == id)) [
          | inl same ↦ rw (found, call_following, same) q
          | inr other ↦
              rw (found, call_following, other) (recorded n s id next_id _ _ _ (ground arith) q)
        ]
      ]

  main_calls_keeps :
      (n : ℕ) (s : Trace) (main topic id : Text) (diag : DiagnosticEvent)
      (events : List DiagnosticEvent)
      → Q n s
      → Q n (main_calls sdk main topic id diag events s)
  unfolding main_calls
  main_calls_keeps n s main topic id diag [] q = q
  main_calls_keeps n s main topic id diag (following ∷ events) q =
      elim (Bool-cases (topic == fn_call && id == main)) [
        | inl calls ↦ rw calls (call_following_keeps n s id diag following q)
        | inr other ↦ rw other q
      ]

  other_calls_keeps :
      (n : ℕ) (s : Trace) (main topic id : Text) (diag : DiagnosticEvent)
      → Q n s
      → Q n (other_calls sdk main topic id diag s)
  unfolding other_calls
  other_calls_keeps n s main topic id diag q =
      let from = top_or sdk main s.call_stack in
      elim (Bool-cases (topic == fn_call && not (id == main) && not (from == id))) [
        | inl calls ↦ rw calls (recorded n s from id _ _ _ (ground arith) q)
        | inr other ↦ rw other q
      ]

  push_keeps : (n : ℕ) (s : Trace) (id : Text) → Q n s → P (suc n) (push sdk id s)
  unfolding push
  push_keeps n s id q = elim (Bool-cases (enters sdk id s.call_stack)) [
    | inl yes_enters ↦ rw yes_enters (entered n s id yes_enters q)
    | inr no_enters ↦ rw no_enters (stayed n s q)
  ]

  popped_keeps :
      (n : ℕ) (s : Trace) (stack : List Text)
      → s.call_stack ≡ stack
      → Q n s
      → P (suc n) (popped sdk stack s)
  popped_keeps n s [] e q = stayed n s q
  popped_keeps n s (top ∷ []) e q = stayed n s q
  popped_keeps n s (top ∷ below ∷ stack) e q = left n s top below stack e q

  update_stack_keeps :
      (n : ℕ) (s : Trace) (topic id : Text) → Q n s → P (suc n) (update_stack sdk topic id s)
  unfolding update_stack
  update_stack_keeps n s topic id q = elim (Bool-cases (topic == fn_call)) [
    | inl call ↦ rw call (push_keeps n s id q)
    | inr other ↦ elim (Bool-cases (topic == fn_return)) [
      | inl returns ↦ rw (other, returns) (popped_keeps n s s.call_stack refl q)
      | inr neither ↦ rw (other, neither) (stayed n s q)
    ]
  ]

  step_keeps :
      (n : ℕ) (s : Trace) (main : Text) (diag : DiagnosticEvent) (events : List DiagnosticEvent)
      → P n s
      → P (suc n) (step sdk main diag events s)
  unfolding step
  step_keeps n s main diag events p = elim (Option-cases (encoded_contract sdk diag.event)) [
    | inl missing ↦ rw (missing, step) (stayed n s (begin n s p))
    | inr (id, found) ↦
        let topic = extract_first_topic sdk diag.event in
        let after_main = main_calls sdk main topic id diag events s in
        rw (found, step)
          (update_stack_keeps n (other_calls sdk main topic id diag after_main) topic id (
            other_calls_keeps n after_main main topic id diag
              (main_calls_keeps n s main topic id diag events (begin n s p))))
  ]

  pub trace_keeps :
      (events : List DiagnosticEvent) (n : ℕ) (s : Trace) (main : Text)
      → P n s
      → P (n + length events) (trace sdk main events s)
  unfolding trace
  trace_keeps [] n s main p = let e : n + 0 ≡ n = omega arith in rw e p
  trace_keeps (diag ∷ events) n s main p =
      let e : n + suc (length events) ≡ suc n + length events = omega arith in
      rw e (
        trace_keeps events (suc n) (step sdk main diag events s) main
          (step_keeps n s main diag events p))
