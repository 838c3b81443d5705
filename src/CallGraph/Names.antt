-- ===== src/CallGraph/Names.antt =====
-- call_graph.go: what is read of one contract event.
use stellar_extract.Prelude.{
  Bool, true, false, ◌||◌, Option, none, some, List, [], ◌∷◌, if◌then◌else◌, Text, text_ordered,
  ltb,
}
use stellar_extract.Go.Strings.{codes}
use stellar_extract.Xdr.{Result, ok, err, Sdk}
use stellar_extract.Xdr.Values.{ScVal, scv_symbol, scv_string, scv_bytes}
use stellar_extract.ScVal.Json.{Json, null, str, format_v}
use stellar_extract.ScVal.Convert.{convert_sc_val_to_json}

-- `event.Body.V0`: topics and data.
pub record EventBody : Type 0 where
  pub topics : List ScVal
  pub payload : ScVal

-- xdr.ContractEvent; no body stands for `Body.V != 0 || Body.V0 == nil`.
pub record ContractEvent : Type 0 where
  pub contract_id : Option Text
  pub body : Option EventBody

pub record DiagnosticEvent : Type 0 where
  pub in_successful_contract_call : Bool
  pub event : ContractEvent

abbrev pub unknown : Text
unknown = codes "unknown"

-- the loop of `isPrintableASCII`
all_printable : Text → Bool
all_printable [] = true
all_printable (c ∷ b) = if ltb c 0x20 || ltb 0x7E c then false else all_printable b

unfoldable pub is_printable_ascii : Text → Bool
unfolding all_printable
is_printable_ascii [] = false
is_printable_ascii (c ∷ b) = all_printable (c ∷ b)

unfoldable pub get_function_name_from_sc_val : ScVal → Text
unfolding is_printable_ascii
get_function_name_from_sc_val (scv_symbol (some s)) = s
get_function_name_from_sc_val (scv_string (some s)) = s
get_function_name_from_sc_val (scv_bytes (some b)) = if is_printable_ascii b then b else []
get_function_name_from_sc_val _ = []

-- `if name == "" { return "unknown" }; return name`
abbrev or_unknown : Text → Text
or_unknown [] = unknown
or_unknown (c ∷ name) = c ∷ name

name_in_topics : List ScVal → Text
unfolding get_function_name_from_sc_val
name_in_topics (t ∷ second ∷ topics) = or_unknown (get_function_name_from_sc_val second)
name_in_topics _ = unknown

unfoldable pub extract_function_name_from_diagnostic_event : ContractEvent → Text
unfolding name_in_topics
extract_function_name_from_diagnostic_event event = elim event.body [
  | none ↦ unknown
  | some body ↦ name_in_topics body.topics
]

module _ (sdk : Sdk) where
  -- `decoded.(string)`, or the `%v` text of another value
  topic_text : Result Json → Text
  unfolding format_v
  topic_text (err message) = []
  topic_text (ok (str s)) = s
  topic_text (ok decoded) = format_v sdk decoded

  first_of_topics : List ScVal → Text
  unfolding topic_text convert_sc_val_to_json
  first_of_topics [] = []
  first_of_topics (t ∷ topics) = topic_text (convert_sc_val_to_json sdk t)

  unfoldable pub extract_first_topic : ContractEvent → Text
  unfolding first_of_topics
  extract_first_topic event = elim event.body [
    | none ↦ []
    | some body ↦ first_of_topics body.topics
  ]

  decoded_or_nil : Result Json → Json
  decoded_or_nil (err message) = null
  decoded_or_nil (ok decoded) = decoded

  unfoldable pub extract_arguments_from_diagnostic_event : ContractEvent → Json
  unfolding decoded_or_nil convert_sc_val_to_json
  extract_arguments_from_diagnostic_event event = elim event.body [
    | none ↦ null
    | some body ↦ decoded_or_nil (convert_sc_val_to_json sdk body.payload)
  ]
