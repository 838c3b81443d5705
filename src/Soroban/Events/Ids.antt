-- ===== src/Soroban/Events/Ids.antt =====
-- The ids of the event rows.
use stellar_extract.Prelude.{
  inr, inl, ℕ, ◌+◌, ◌%◌, ◌^◌, ◌<◌, ◌≢◌, refl, List, [], ◌∷◌, arith, Text, All, All-map,
}
use stellar_extract.Go.Strings.{hex_encode}
use stellar_extract.Soroban.Bodies.{EventSdk}
use stellar_extract.Soroban.Events.{
  ContractEventData, TransactionEvents, EventTransaction, Emitted, event_rows, transaction_context,
  events_loop, extract_contract_events,
}
use stellar_extract.Xdr.{Result-cases, ok, err}
use stellar_extract.Xdr.Ledger.{LedgerInput}
use stellar_extract.Soroban.Events.Counted.{
  HaveDistinctIds, event_count, IsPlain, IsEarlier, event_rows-IsCounted, hex_encode-Lacks,
}

-- No two transactions have one hash.
abbrev pub HaveDistinctHashes : List EventTransaction → Type 0
HaveDistinctHashes [] = Unit
HaveDistinctHashes (tx ∷ txs) =
    All (λ other. hex_encode tx.transaction_hash ≢ hex_encode other.transaction_hash) txs
    × HaveDistinctHashes txs

-- The events of the transaction can be counted by a uint32.
abbrev pub HasCountable : EventTransaction → Type 0
HasCountable tx = elim tx.events [ err e ↦ Unit | ok events ↦ event_count events < 2 ^ 32 ]

-- A row so far, between the transactions.
abbrev IsSettled : List EventTransaction → ContractEventData → Type 0
IsSettled txs row =
    IsPlain row × All (λ tx. row.transaction_hash ≢ hex_encode tx.transaction_hash) txs

module _ (sdk : EventSdk) (clock : ℕ → ℕ) (input : LedgerInput) where
  tx_rows-IsSettled :
      (n : ℕ) (tx : EventTransaction) (txs : List EventTransaction) (events : TransactionEvents)
      (s : Emitted)
      → HaveDistinctHashes (tx ∷ txs)
      → event_count events < 2 ^ 32
      → All (IsSettled (tx ∷ txs)) s.rows
      → HaveDistinctIds s.rows
      → let s' =
          event_rows sdk clock input
            (transaction_context sdk clock input n tx.transaction_hash tx.successful)
            events
            s in
        All (IsSettled txs) s'.rows × HaveDistinctIds s'.rows
  unfolding transaction_context
  tx_rows-IsSettled n tx txs events s (new, _) few settled distinct =
      let h : Text = hex_encode tx.transaction_hash in
      let Later : Text → Type 0 = λ x. All (λ other. x ≢ hex_encode other.transaction_hash) txs in
      let c =
        event_rows-IsCounted Later h (hex_encode-Lacks tx.transaction_hash) new sdk clock input
          (transaction_context sdk clock input n tx.transaction_hash tx.successful) refl events s
          (record {
            earlier =
                All-map (IsSettled (tx ∷ txs)) (IsEarlier Later h 0) s.rows
                  (λ r e. record {
                    made = e.0;
                    not_later = e.1.1;
                    below = λ same. absurd (e.1.0 same);
                  })
                  settled;
            distinct = distinct;
            room = omega arith;
          }) in
      (
        All-map (IsEarlier Later h _) (IsSettled txs) _ (λ r e. (e.made, e.not_later)) c.earlier,
        c.distinct,
      )

  events_loop-HaveDistinctIds :
      (n : ℕ) (txs : List EventTransaction) (s : Emitted)
      → HaveDistinctHashes txs
      → All HasCountable txs
      → All (IsSettled txs) s.rows
      → HaveDistinctIds s.rows
      → HaveDistinctIds (events_loop sdk clock input n txs s).rows
  unfolding events_loop
  events_loop-HaveDistinctIds n [] s d few settled distinct = distinct
  events_loop-HaveDistinctIds n (tx ∷ txs) s d (few, fews) settled distinct =
      elim (Result-cases tx.events) [
        | inl (e, bad) ↦ rw bad (
            events_loop-HaveDistinctIds ((n + 1) % 2 ^ 32) txs s d.1 fews
              (All-map (IsSettled (tx ∷ txs)) (IsSettled txs) s.rows (λ r e. (e.0, e.1.1)) settled)
              distinct)
        | inr (events, good) ↦
            let (settled', distinct') =
              tx_rows-IsSettled n tx txs events s d (rw good at few) settled distinct in
            rw good
              (events_loop-HaveDistinctIds ((n + 1) % 2 ^ 32) txs _ d.1 fews settled' distinct')
      ]

  -- No two event rows of a ledger have the same id, whichever of the three streams they are of, in
  -- ledgers whose transactions have distinct hashes and fewer than 2 ^ 32 events each.
  pub extract_contract_events-HaveDistinctIds :
      (txs : List EventTransaction)
      → HaveDistinctHashes txs
      → All HasCountable txs
      → HaveDistinctIds (extract_contract_events sdk clock input (ok txs))
  unfolding extract_contract_events
  extract_contract_events-HaveDistinctIds txs d few =
      events_loop-HaveDistinctIds 1 txs _ d few tt tt
