-- ===== src/Soroban/Events/View/Alike.antt =====
-- Events through a view and through the decoded ledger.
use stellar_extract.Prelude.{ℕ, ◌+◌, ◌%◌, ◌^◌, ◌≡◌, refl, List, [], ◌∷◌, arith, Text}
use stellar_extract.Soroban.Bodies.{EmittedEvent, EventSdk}
use stellar_extract.Soroban.Events.{
  codes, TransactionEvents, EventTransaction, Emitted, OfTransaction, ContractEventData, emit,
  emit_each, operations_loop, event_rows, events_loop, extract_contract_events,
}
use stellar_extract.Soroban.Events.View.{
  label, TransactionView, Unmarshal, emit_views, operations_views, view_rows, views_loop,
  extract_contract_events_from_views, extract_contract_events_view,
}
use stellar_extract.Xdr.{Result, ok}
use stellar_extract.Xdr.Ledger.{LedgerInput}

-- The bytes unmarshal to the values, one by one.
abbrev pub AreRead : {A : Type 0} → (Text → Result A) → List Text → List A → Type 0
AreRead unmarshal [] [] = Unit
AreRead unmarshal (raw ∷ raws) (x ∷ xs) = (unmarshal raw ≡ ok x) × AreRead unmarshal raws xs
AreRead unmarshal _ _ = ⊥

abbrev pub AreReadByOperation :
    {A : Type 0} → (Text → Result A) → List (List Text) → List (List A) → Type 0
AreReadByOperation unmarshal [] [] = Unit
AreReadByOperation unmarshal (raws ∷ ops) (xs ∷ reads) =
    AreRead unmarshal raws xs × AreReadByOperation unmarshal ops reads
AreReadByOperation unmarshal _ _ = ⊥

emit_views-ok :
    {A : Type 0} (label : ℕ → Text) (unmarshal : Text → Result A)
    (row : A → Emitted → ContractEventData) (i : ℕ) (raws : List Text) (xs : List A) (s : Emitted)
    → AreRead unmarshal raws xs
    → emit_views label unmarshal row i raws s ≡ ok (emit_each row xs s)
unfolding emit_views emit_each
emit_views-ok label unmarshal row i [] [] s h = refl
emit_views-ok label unmarshal row i (raw ∷ raws) (x ∷ xs) s (e, h) =
    rw e (emit_views-ok label unmarshal row (i + 1) raws xs (emit (row x s) s) h)
emit_views-ok label unmarshal row i [] (x ∷ xs) s h = absurd h
emit_views-ok label unmarshal row i (raw ∷ raws) [] s h = absurd h

module _ (unmarshal : Unmarshal) where
  -- The view is of the transaction, whose events can be read.
  pub record IsViewOf (view : TransactionView) (tx : EventTransaction) : Type 0 where
    pub same_hash : view.hash ≡ tx.transaction_hash
    pub same_success : view.successful ≡ tx.successful
    pub events : TransactionEvents
    pub readable : tx.events ≡ ok events
    pub diagnostics : AreRead unmarshal.diagnostic view.diagnostic_events events.diagnostic_events
    pub operations :
        AreReadByOperation unmarshal.contract view.contract_events events.operation_events
    pub transactions :
        AreRead unmarshal.transaction view.transaction_events events.transaction_events

  abbrev pub AreViewsOf : List TransactionView → List EventTransaction → Type 0
  AreViewsOf [] [] = Unit
  AreViewsOf (view ∷ views) (tx ∷ txs) = IsViewOf view tx × AreViewsOf views txs
  AreViewsOf _ _ = ⊥

  module _ (sdk : EventSdk) (clock : ℕ → ℕ) (input : LedgerInput) where
    module _ (tx : OfTransaction) where
      operations_views-ok :
          (op : ℕ) (raws : List (List Text)) (es : List (List EmittedEvent)) (s : Emitted)
          → AreReadByOperation unmarshal.contract raws es
          → operations_views sdk unmarshal clock input tx op raws s
            ≡ ok (operations_loop sdk clock input tx op es s)
      unfolding operations_views operations_loop
      operations_views-ok op [] [] s h = refl
      operations_views-ok op (raw ∷ raws) (es ∷ ops) s (e, h) =
          rw (emit_views-ok _ _ _ 0 raw es s e) (operations_views-ok (op + 1) raws ops _ h)
      operations_views-ok op [] (es ∷ ops) s h = absurd h
      operations_views-ok op (raw ∷ raws) [] s h = absurd h

    view_rows-ok :
        (i : OfTransaction) (view : TransactionView) (tx : EventTransaction) (s : Emitted)
        (h : IsViewOf view tx)
        → view_rows sdk unmarshal clock input i view s
          ≡ ok (event_rows sdk clock input i h.events s)
    unfolding view_rows event_rows
    view_rows-ok i view tx s h =
        rw (emit_views-ok _ _ _ 0 view.diagnostic_events h.events.diagnostic_events _ h.diagnostics)
          (rw
            (operations_views-ok i 0 view.contract_events h.events.operation_events _ h.operations)
            (emit_views-ok (label sdk unmarshal clock input i (codes "transaction event ")) _ _ 0
              view.transaction_events h.events.transaction_events _ h.transactions))

    views_loop-ok :
        (i n : ℕ) (views : List TransactionView) (txs : List EventTransaction) (s : Emitted)
        → n ≡ (i % 2 ^ 32 + 1) % 2 ^ 32
        → AreViewsOf views txs
        → views_loop sdk unmarshal clock input i views s ≡ ok (events_loop sdk clock input n txs s)
    unfolding views_loop events_loop
    views_loop-ok i n [] [] s e h = refl
    views_loop-ok i n (view ∷ views) (tx ∷ txs) s e (v, h) =
        rw (← e, v.same_hash, v.same_success, v.readable, view_rows-ok _ view tx s v)
          (views_loop-ok (i + 1) ((n + 1) % 2 ^ 32) views txs _ (omega arith) h)
    views_loop-ok i n [] (tx ∷ txs) s e h = absurd h
    views_loop-ok i n (view ∷ views) [] s e h = absurd h

    -- Where the views are of the transactions, that is, agree with them in hash and success, and the
    -- bytes of every event unmarshal to the event that the decoded ledger has in its place,
    -- extraction through the views gives the rows that extraction from the decoded ledger gives.
    pub extract_contract_events_view-alike :
        (views : List TransactionView) (txs : List EventTransaction)
        → AreViewsOf views txs
        → extract_contract_events_view sdk unmarshal clock input (ok views)
          ≡ ok (extract_contract_events sdk clock input (ok txs))
    unfolding extract_contract_events_view extract_contract_events_from_views
        extract_contract_events
    extract_contract_events_view-alike views txs h = rw (views_loop-ok 0 1 views txs _ refl h) refl
