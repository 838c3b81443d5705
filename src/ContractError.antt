-- ===== src/ContractError.antt =====
-- contract_error.go: why a contract call failed.
pub mod First
use stellar_extract.Prelude.{ℕ, Bool, true, false, Option, none, some, List, [], ◌∷◌, ◌++◌, Text}
use stellar_extract.Go.Ints.{ℤ, to_i32}
use stellar_extract.Go.Strings.{codes, decimal_int}
use stellar_extract.Xdr.{Result, ok, err}
use stellar_extract.Xdr.Values.{
  ScVal, scv_error, ScError, ScErrorType, sce_contract, sce_wasm_vm, sce_context, sce_storage,
  sce_object, sce_crypto, sce_events, sce_budget, sce_value, sce_auth, sce_other,
}
use stellar_extract.CallGraph.Names.{EventBody, DiagnosticEvent}

-- `val.GetError()`
abbrev pub get_error : ScVal → Option ScError
get_error (scv_error (some e)) = some e
get_error _ = none

unfoldable pub canonical_sc_error_type : ScErrorType → Text
unfolding decimal_int
canonical_sc_error_type sce_contract = codes "contract"
canonical_sc_error_type sce_wasm_vm = codes "wasm_vm"
canonical_sc_error_type sce_context = codes "context"
canonical_sc_error_type sce_storage = codes "storage"
canonical_sc_error_type sce_object = codes "object"
canonical_sc_error_type sce_crypto = codes "crypto"
canonical_sc_error_type sce_events = codes "events"
canonical_sc_error_type sce_budget = codes "budget"
canonical_sc_error_type sce_value = codes "value"
canonical_sc_error_type sce_auth = codes "auth"
canonical_sc_error_type (sce_other n) = codes "unknown_" ++ decimal_int n

-- `(errorType, errorCode, present)`
pub record Facts : Type 0 where
  pub error_type : Text
  pub error_code : Option ℤ
  pub present : Bool

abbrev pub no_facts : Facts
no_facts = record { error_type = []; error_code = none; present = false }

-- only a contract's own error carries a number
code_of : ScErrorType → Option ℕ → Option ℤ
code_of sce_contract (some code) = some (to_i32 code)
code_of _ _ = none

unfoldable pub sc_error_facts : ScError → Facts
unfolding code_of canonical_sc_error_type
sc_error_facts e = record {
  error_type = canonical_sc_error_type e.error_type;
  error_code = code_of e.error_type e.contract_code;
  present = true;
}

-- the loop over the topics, and what follows it in the body of the outer loop
in_topics : List ScVal → Facts → Facts
unfolding sc_error_facts
in_topics [] rest = rest
in_topics (topic ∷ topics) rest =
    let later = in_topics topics rest in
    elim (get_error topic) [ some e ↦ sc_error_facts e | none ↦ later ]

in_payload : ScVal → Facts → Facts
unfolding sc_error_facts
in_payload payload rest = elim (get_error payload) [ some e ↦ sc_error_facts e | none ↦ rest ]

-- the loop over the events; one without a V0 body is passed over
in_events : List DiagnosticEvent → Facts
unfolding in_topics in_payload
in_events [] = no_facts
in_events (event ∷ events) =
    let rest = in_events events in
    elim event.event.body [
      | none ↦ rest
      | some body ↦ in_topics body.topics (in_payload body.payload rest)
    ]

-- `GetDiagnosticEvents` is the SDK's; an error stands for a meta without diagnostic events
unfoldable pub contract_error_facts : Result (List DiagnosticEvent) → Facts
unfolding in_events
contract_error_facts (err e) = no_facts
contract_error_facts (ok events) = in_events events
