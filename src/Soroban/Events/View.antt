-- ===== src/Soroban/Events/View.antt =====
-- soroban.go: `ExtractContractEventsView`.
pub mod Alike
use stellar_extract.Prelude.{ℕ, ◌+◌, ◌%◌, ◌^◌, Bool, List, [], ◌∷◌, ◌++◌, Text}
use stellar_extract.Go.Strings.{codes, decimal, hex_encode}
use stellar_extract.Soroban.Bodies.{EmittedEvent, EmittedDiagnostic, EventSdk}
use stellar_extract.Soroban.Events.{
  ContractEventData, Emitted, OfTransaction, emit, diagnostic_row, operation_event_row,
  transaction_event_row, transaction_context,
}
use stellar_extract.Xdr.{Result, ok, err, on_ok}
use stellar_extract.Xdr.Ledger.{LedgerInput}

-- ingest.LedgerTransactionView, as far as it is read: the events are their bytes.
pub record TransactionView : Type 0 where
  pub hash : Text
  pub successful : Bool
  pub diagnostic_events : List Text
  pub contract_events : List (List Text)
  pub transaction_events : List Text

-- `UnmarshalBinary`; of a transaction event its event.
pub record Unmarshal : Type 0 where
  pub diagnostic : Text → Result EmittedDiagnostic
  pub contract : Text → Result EmittedEvent
  pub transaction : Text → Result EmittedEvent

-- A loop over the bytes of events, each of which is unmarshalled and gives a row; `label` is the text
-- in front of the error of the event at a position.
emit_views :
    {A : Type 0}
    → (label : ℕ → Text) → (unmarshal : Text → Result A) → (A → Emitted → ContractEventData)
    → ℕ
    → List Text
    → Emitted
    → Result Emitted
emit_views label unmarshal row i [] s = ok s
emit_views label unmarshal row i (raw ∷ raws) s =
    on_ok (label i) (unmarshal raw)
      (λ event. emit_views label unmarshal row (i + 1) raws (emit (row event s) s))

module _ (sdk : EventSdk) (unmarshal : Unmarshal) (clock : ℕ → ℕ) (input : LedgerInput) where
  module _ (tx : OfTransaction) where
    -- `transaction %s`, then what cannot be read
    abbrev pub label : Text → ℕ → Text
    label what i =
        codes "transaction " ++ (tx.tx_hash ++ (b' ' ∷ (what ++ (decimal i ++ codes ": "))))

    abbrev diagnostic_views : List Text → Emitted → Result Emitted
    diagnostic_views =
        emit_views (label (codes "diagnostic event ")) unmarshal.diagnostic
          (diagnostic_row sdk clock input tx) 0

    abbrev operation_views : ℕ → List Text → Emitted → Result Emitted
    operation_views op_index =
        emit_views (label (codes "operation " ++ (decimal op_index ++ codes " event ")))
          unmarshal.contract (operation_event_row sdk clock input tx op_index) 0

    abbrev transaction_event_views : List Text → Emitted → Result Emitted
    transaction_event_views =
        emit_views (label (codes "transaction event ")) unmarshal.transaction
          (transaction_event_row sdk clock input tx) 0

    operations_views : ℕ → List (List Text) → Emitted → Result Emitted
    unfolding emit_views operation_event_row decimal
    operations_views op_index [] s = ok s
    operations_views op_index (raws ∷ ops) s =
        on_ok [] (operation_views op_index raws s) (operations_views (op_index + 1) ops)

    -- the body of the loop over the transactions
    unfoldable pub view_rows : TransactionView → Emitted → Result Emitted
    unfolding emit_views diagnostic_row operations_views transaction_event_row decimal
    view_rows view s =
        on_ok [] (diagnostic_views view.diagnostic_events (record s { event_index = 0 })) (λ s₁.
          on_ok [] (operations_views 0 view.contract_events s₁)
            (transaction_event_views view.transaction_events))

  -- `int32(txIndex)+1` for the index from 0
  views_loop : ℕ → List TransactionView → Emitted → Result Emitted
  unfolding view_rows transaction_context
  views_loop i [] s = ok s
  views_loop i (view ∷ views) s =
      on_ok []
        (view_rows
          (transaction_context sdk clock input ((i % 2 ^ 32 + 1) % 2 ^ 32) view.hash
            view.successful)
          view s)
        (views_loop (i + 1) views)

  abbrev rows_or_error : Result Emitted → Result (List ContractEventData)
  rows_or_error (err e) = err e
  rows_or_error (ok s) = ok s.rows

  unfoldable pub extract_contract_events_from_views :
      List TransactionView → Result (List ContractEventData)
  unfolding views_loop
  extract_contract_events_from_views views =
      rows_or_error (views_loop 0 views (record { rows = []; event_index = 0; readings = 0 }))

  unfoldable pub extract_contract_events_view :
      Result (List TransactionView) → Result (List ContractEventData)
  unfolding extract_contract_events_from_views
  extract_contract_events_view transactions =
      on_ok (codes "extract ledger transaction views: ") transactions
        extract_contract_events_from_views
