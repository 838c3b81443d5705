-- ===== src/Soroban/Events.antt =====
-- soroban.go, types_soroban.go: `ExtractContractEvents`.
pub mod View
pub mod Counted
pub mod Ids
use stellar_extract.Prelude.{
  ℕ, ◌+◌, ◌%◌, ◌^◌, Bool, true, false, Option, none, some, List, [], ◌∷◌, ◌++◌, Text, length,
}
use stellar_extract.Go.Ints.{ℤ, pos, to_i32}
use stellar_extract.Go.Strings.{codes, decimal, hex_encode, base64_encode}
use stellar_extract.Soroban.Bodies.{
  EventType, event_system, event_contract, event_diagnostic, event_other, EmittedEvent,
  EmittedDiagnostic, EventSdk, BodyColumns, extract_event_body,
}
use stellar_extract.Xdr.{Result, ok, err, version_contract}
use stellar_extract.Xdr.Ledger.{LedgerInput}

pub record ContractEventData : Type 0 where
  pub event_id : Text
  pub contract_id : Option Text
  pub ledger_sequence : ℕ
  pub transaction_hash : Text
  pub transaction_id : ℤ
  pub closed_at : ℕ
  pub event_type : Text
  pub in_successful_contract_call : Bool
  pub successful : Bool
  pub contract_event_xdr : Text
  pub body : BodyColumns
  pub operation_index : ℕ
  pub event_stream : Text
  pub event_index : ℕ
  pub created_at : ℕ
  pub ledger_range : ℕ
  pub era_id : Option Text

-- A transaction of the ledger, with what `GetTransactionEvents` gives.
pub record TransactionEvents : Type 0 where
  pub diagnostic_events : List EmittedDiagnostic
  pub operation_events : List (List EmittedEvent)
  pub transaction_events : List EmittedEvent

pub record EventTransaction : Type 0 where
  pub transaction_hash : Text
  pub successful : Bool
  pub events : Result TransactionEvents

unfoldable pub event_type_string : EventType → Text
event_type_string event_system = codes "system"
event_type_string event_contract = codes "contract"
event_type_string event_diagnostic = codes "diagnostic"
event_type_string (event_other t) = codes "unknown"

-- The rows so far, the index of the next one in its transaction, and how often the clock was read.
pub record Emitted : Type 0 where
  pub rows : List ContractEventData
  pub event_index : ℕ
  pub readings : ℕ

-- What the rows of one transaction share.
pub record OfTransaction : Type 0 where
  pub tx_hash : Text
  pub tx_successful : Bool
  pub tx_id : ℤ

abbrev pub text_or_nil : Result Text → Option Text
text_or_nil (err e) = none
text_or_nil (ok s) = some s

abbrev pub base64_or_empty : Result Text → Text
base64_or_empty (err e) = []
base64_or_empty (ok bytes) = base64_encode bytes

-- `append(events, row)`, `eventIndex++`
abbrev pub emit : ContractEventData → Emitted → Emitted
emit row s = record {
  rows = s.rows ++ row ∷ [];
  event_index = (s.event_index + 1) % 2 ^ 32;
  readings = s.readings + 1;
}

-- A loop over events, each of which gives a row.
unfoldable pub emit_each :
    {A : Type 0} → (A → Emitted → ContractEventData) → List A → Emitted → Emitted
emit_each row [] s = s
emit_each row (event ∷ events) s = emit_each row events (emit (row event s) s)

module _ (sdk : EventSdk) (clock : ℕ → ℕ) (input : LedgerInput) where
  c_address_of : Option Text → Option Text
  c_address_of none = none
  c_address_of (some id) = text_or_nil (sdk.values.strkey_encode version_contract id)

  -- the caller sets the era and the transaction's id
  unfoldable pub extract_contract_event :
      ℕ → EmittedEvent → Text → ℕ → ℕ → Text → Bool → Bool → ContractEventData
  unfolding c_address_of event_type_string extract_event_body decimal base64_encode
  extract_contract_event reading event tx_hash op_index event_index stream in_call tx_successful =
      record {
        event_id = tx_hash ++ (b':' ∷ decimal event_index);
        contract_id = c_address_of event.contract_id;
        ledger_sequence = input.sequence;
        transaction_hash = tx_hash;
        transaction_id = pos 0;
        closed_at = input.closed_at;
        event_type = event_type_string event.event_type;
        in_successful_contract_call = in_call;
        successful = tx_successful;
        contract_event_xdr = base64_or_empty (sdk.marshal_event event);
        body = extract_event_body sdk event.body;
        operation_index = op_index;
        event_stream = stream;
        event_index = event_index;
        created_at = clock reading;
        ledger_range = input.ledger_range;
        era_id = none;
      }

  unfoldable pub extract_diagnostic_event :
      ℕ → EmittedDiagnostic → Text → ℕ → Bool → ContractEventData
  unfolding extract_contract_event
  extract_diagnostic_event reading diag tx_hash event_index tx_successful =
      record (extract_contract_event reading diag.event tx_hash 0 event_index (codes "diagnostic")
        diag.in_successful_contract_call tx_successful) { event_type = codes "diagnostic" }

  module _ (tx : OfTransaction) where
    abbrev with_transaction : ContractEventData → ContractEventData
    with_transaction row = record row { era_id = input.era_id; transaction_id = tx.tx_id }

    -- the rows that the bodies of the three loops append
    diagnostic_row : EmittedDiagnostic → Emitted → ContractEventData
    unfolding extract_diagnostic_event
    diagnostic_row diag s =
        with_transaction
          (extract_diagnostic_event s.readings diag tx.tx_hash s.event_index tx.tx_successful)

    operation_event_row : ℕ → EmittedEvent → Emitted → ContractEventData
    unfolding extract_contract_event
    operation_event_row op_index event s = with_transaction (
        extract_contract_event s.readings event tx.tx_hash (op_index % 2 ^ 32) s.event_index
          (codes "operation") false tx.tx_successful)

    transaction_event_row : EmittedEvent → Emitted → ContractEventData
    unfolding extract_contract_event
    transaction_event_row event s = with_transaction (
        extract_contract_event s.readings event tx.tx_hash 0 s.event_index (codes "transaction")
          true tx.tx_successful)

    operations_loop : ℕ → List (List EmittedEvent) → Emitted → Emitted
    unfolding emit_each operation_event_row
    operations_loop op_index [] s = s
    operations_loop op_index (es ∷ ops) s =
        operations_loop (op_index + 1) ops (emit_each (operation_event_row op_index) es s)

    -- the counter starts again at every transaction
    unfoldable pub event_rows : TransactionEvents → Emitted → Emitted
    unfolding emit_each diagnostic_row operations_loop transaction_event_row
    event_rows events s = emit_each transaction_event_row events.transaction_events (
        operations_loop 0 events.operation_events
          (emit_each diagnostic_row events.diagnostic_events (record s { event_index = 0 })))

  unfoldable pub transaction_context : ℕ → Text → Bool → OfTransaction
  unfolding hex_encode
  transaction_context tx_index hash successful = record {
    tx_hash = hex_encode hash;
    tx_successful = successful;
    tx_id = sdk.toid (to_i32 input.sequence) (to_i32 tx_index) (pos 0);
  }

  -- The loop over the transactions, which are counted from 1; one whose events cannot be read is
  -- passed over.
  unfoldable pub events_loop : ℕ → List EventTransaction → Emitted → Emitted
  unfolding event_rows transaction_context
  events_loop tx_index [] s = s
  events_loop tx_index (tx ∷ txs) s = events_loop ((tx_index + 1) % 2 ^ 32) txs (elim tx.events [
    | err e ↦ s
    | ok events ↦
        event_rows (transaction_context tx_index tx.transaction_hash tx.successful) events s
  ])

  unfoldable pub extract_contract_events : Result (List EventTransaction) → List ContractEventData
  unfolding events_loop
  extract_contract_events (err e) = []
  extract_contract_events (ok txs) =
      (events_loop 1 txs (record { rows = []; event_index = 0; readings = 0 })).rows
