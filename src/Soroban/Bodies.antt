-- ===== src/Soroban/Bodies.antt =====
-- soroban.go: `extractEventBody` and `flattenTopicValue`.
use stellar_extract.Prelude.{
  Bool, ℕ, ◌+◌, ◌%◌, ◌^◌, Option, none, some, List, [], ◌∷◌, ◌++◌, Text, nat_ordered, ◌==◌,
  text_ordered, length, if◌then◌else◌,
}
use stellar_extract.Go.Ints.{ℤ, pos, to_i32}
use stellar_extract.Go.Strings.{codes, base64_encode}
use stellar_extract.ScVal.Json.{
  Json, str, arr, obj, Items, nil, append_item, end, field, get_field, format_v,
}
use stellar_extract.ScVal.Convert.{convert_sc_val_to_json}
use stellar_extract.Xdr.{Result, ok, err, Sdk}
use stellar_extract.Xdr.Values.{ScVal, type_of}

-- xdr.ContractEventBody: version 0 has topics and data.
pub data ContractEventBody : Type 0 where
  body_v0 : (topics : List ScVal) → (payload : ScVal) → ContractEventBody
  body_other : ℕ → ContractEventBody

pub data EventType : Type 0 where
  event_system event_contract event_diagnostic : EventType
  event_other : ℕ → EventType

-- xdr.ContractEvent, and xdr.DiagnosticEvent; of an xdr.TransactionEvent only its event is read.
pub record EmittedEvent : Type 0 where
  pub contract_id : Option Text
  pub event_type : EventType
  pub body : ContractEventBody

pub record EmittedDiagnostic : Type 0 where
  pub event : EmittedEvent
  pub in_successful_contract_call : Bool

-- The SDK on values, `MarshalBinary` of events and of values, `json.Marshal` of a slice of strings
-- and of a decoded value, and `toid.New(…).ToInt64`.
pub record EventSdk : Type 0 where
  pub values : Sdk
  pub marshal_event : EmittedEvent → Result Text
  pub marshal_val : ScVal → Result Text
  pub marshal_texts : List Text → Result Text
  pub marshal_json : Json → Result Text
  pub toid : ℤ → ℤ → ℤ → ℤ

-- `[4]*string`
pub record PositionalTopics : Type 0 where
  pub topic0 : Option Text
  pub topic1 : Option Text
  pub topic2 : Option Text
  pub topic3 : Option Text

abbrev pub no_topics : PositionalTopics
no_topics = record { topic0 = none; topic1 = none; topic2 = none; topic3 = none }

-- `if i < 4 { positionalTopics[i] = … }`
abbrev pub set_topic : ℕ → Option Text → PositionalTopics → PositionalTopics
set_topic i t p =
    if i == 0
    then record p { topic0 = t }
    else if i == 1
    then record p { topic1 = t }
    else if i == 2
    then record p { topic2 = t }
    else if i == 3
    then record p { topic3 = t }
    else p

-- what the loop over the topics sets
pub record TopicColumns : Type 0 where
  pub topics_xdr : List Text
  pub decoded : Items
  pub positional : PositionalTopics

-- the six results of `extractEventBody`
pub record BodyColumns : Type 0 where
  pub topics_json : Text
  pub topics_decoded : Text
  pub topic_count : ℤ
  pub data_xdr : Text
  pub data_decoded : Text
  pub positional : PositionalTopics

-- `if err != nil { x = otherwise }`, and the base64 text of bytes or nothing
abbrev pub or_text : Text → Result Text → Text
or_text otherwise (err e) = otherwise
or_text otherwise (ok s) = s

module _ (sdk : EventSdk) where
  some_text : Option Json → Option Text
  some_text (some (str s)) = some s
  some_text _ = none

  -- the JSON text of an object, or nil
  object_text : Result Text → Option Text
  object_text (err e) = none
  object_text (ok s) = some s

  unfoldable pub flatten_topic_value : Json → Option Text
  unfolding some_text object_text format_v
  flatten_topic_value (str s) = some s
  flatten_topic_value (obj fs) = elim (some_text (get_field (codes "address") fs)) [
    | some address ↦ some address
    | none ↦ elim (some_text (get_field (codes "value") fs)) [
      | some value ↦ some value
      | none ↦ object_text (sdk.marshal_json (obj fs))
    ]
  ]
  flatten_topic_value decoded = some (format_v sdk.values decoded)

  -- `map[string]interface{}{"error": …, "type": …}`
  unfoldable pub undecodable : Text → ScVal → Json
  unfolding type_of
  undecodable e v = obj (
      field (codes "error") (str e)
        (field (codes "type") (str (sdk.values.type_string (type_of v))) end))

  -- what becomes of a topic whose bytes are known
  topic_decoded : ℕ → ScVal → Result Json → TopicColumns → TopicColumns
  unfolding undecodable flatten_topic_value
  topic_decoded i topic (err e) s = record s {
    decoded = append_item s.decoded (undecodable e topic);
  }
  topic_decoded i topic (ok decoded) s = record s {
    decoded = append_item s.decoded decoded;
    positional = set_topic i (flatten_topic_value decoded) s.positional;
  }

  -- the body of the loop; a topic that cannot be marshalled is passed over
  topic_round : ℕ → ScVal → Result Text → TopicColumns → TopicColumns
  unfolding topic_decoded convert_sc_val_to_json base64_encode
  topic_round i topic (err e) s = s
  topic_round i topic (ok bytes) s =
      topic_decoded i topic (convert_sc_val_to_json sdk.values topic)
        (record s { topics_xdr = s.topics_xdr ++ base64_encode bytes ∷ [] })

  topics_loop : ℕ → List ScVal → TopicColumns → TopicColumns
  unfolding topic_round
  topics_loop i [] s = s
  topics_loop i (topic ∷ topics) s =
      topics_loop (i + 1) topics (topic_round i topic (sdk.marshal_val topic) s)

  decoded_or_error : ScVal → Result Json → Json
  unfolding undecodable
  decoded_or_error v (err e) = undecodable e v
  decoded_or_error v (ok decoded) = decoded

  data_columns : BodyColumns → ScVal → Result Text → BodyColumns
  unfolding decoded_or_error convert_sc_val_to_json base64_encode
  data_columns c payload (err e) = c
  data_columns c payload (ok bytes) = record c {
    data_xdr = base64_encode bytes;
    data_decoded =
        or_text (codes "{}")
          (sdk.marshal_json (decoded_or_error payload (convert_sc_val_to_json sdk.values payload)));
  }

  abbrev no_body : PositionalTopics → BodyColumns
  no_body p = record {
    topics_json = codes "[]";
    topics_decoded = codes "[]";
    topic_count = pos 0;
    data_xdr = [];
    data_decoded = codes "{}";
    positional = p;
  }

  -- from the topics' JSON text on
  body_columns : List ScVal → ScVal → TopicColumns → Result Text → BodyColumns
  unfolding data_columns
  body_columns topics payload s (err e) = no_body s.positional
  body_columns topics payload s (ok json) =
      data_columns
        (record (no_body s.positional) {
          topics_json = json;
          topics_decoded = or_text (codes "[]") (sdk.marshal_json (arr s.decoded));
          topic_count = to_i32 (length topics % 2 ^ 32);
        })
        payload (sdk.marshal_val payload)

  unfoldable pub extract_event_body : ContractEventBody → BodyColumns
  unfolding topics_loop body_columns
  extract_event_body (body_other v) = no_body no_topics
  extract_event_body (body_v0 topics payload) =
      let s =
        topics_loop 0 topics (record { topics_xdr = []; decoded = nil; positional = no_topics }) in
      body_columns topics payload s (sdk.marshal_texts s.topics_xdr)
