-- ===== src/TokenTransfers/Rows.antt =====
-- The rows of the token transfer events, one for each event of a known type.
use stellar_extract.Prelude.{
  ℕ, ◌+◌, ◌≡◌, refl, sym, ap, arith, Option, none, some, List, [], ◌∷◌, ◌++◌, Text, Option-cases,
  inl, inr,
}
use mathlib.Core.Option.{none-ne-some, some-injective}
use stellar_extract.Go.Ints.{pos, to_i32}
use stellar_extract.Go.Strings.{codes}
use stellar_extract.Go.Maps.{GoMap}
use stellar_extract.Xdr.{Result, ok, err}
use stellar_extract.Xdr.Ledger.{LedgerInput}
use stellar_extract.TokenTransfers.{
  TokenEvent, EventKind, transfer, mint, burn, clawback, fee, unknown_event, TokenSdk,
  TokenTransferData, Parties, parties, str_ptr, transfer_data, event_index, next_index,
  get_asset_from_token_transfer_event, transfers_from, extract_token_transfers,
}

module _ (sdk : TokenSdk) (input : LedgerInput) where
  -- Who is named: a mint has no sender; a burn, a clawback and a fee have no recipient. An address
  -- that is the empty text counts as none.
  abbrev pub HasParties : EventKind → TokenTransferData sdk → Type 0
  HasParties (transfer f t a) row =
      (row.from ≡ str_ptr f) × (row.to ≡ str_ptr t) × (row.amount_raw ≡ a)
  HasParties (mint t a) row = (row.from ≡ none) × (row.to ≡ str_ptr t) × (row.amount_raw ≡ a)
  HasParties (burn f a) row = (row.from ≡ str_ptr f) × (row.to ≡ none) × (row.amount_raw ≡ a)
  HasParties (clawback f a) row = (row.from ≡ str_ptr f) × (row.to ≡ none) × (row.amount_raw ≡ a)
  HasParties (fee f a) row = (row.from ≡ str_ptr f) × (row.to ≡ none) × (row.amount_raw ≡ a)
  HasParties unknown_event row = ⊥

  -- An event of an operation has the operation's index and id; other events have neither.
  abbrev pub HasOperation : ℕ → Option ℕ → TokenTransferData sdk → Type 0
  HasOperation tx none row = (row.operation_index ≡ none) × (row.operation_id ≡ none)
  HasOperation tx (some i) row =
      (row.operation_index ≡ some (to_i32 i))
      × (row.operation_id ≡ some (sdk.toid (to_i32 input.sequence) (to_i32 tx) (to_i32 i)))

  pub record IsTransferOf (event : TokenEvent) (row : TokenTransferData sdk) : Type 0 where
    pub of_ledger : row.ledger_sequence ≡ input.sequence
    pub of_transaction : row.transaction_hash ≡ event.metadata.tx_hash
    pub id :
        row.transaction_id
        ≡ sdk.toid (to_i32 input.sequence) (to_i32 event.metadata.transaction_index) (pos 0)
    pub operation : HasOperation event.metadata.transaction_index event.metadata.operation_index row
    pub named : HasParties event.kind row
    pub scaled : row.amount ≡ sdk.scaled_amount row.amount_raw
    pub of_asset : row.asset ≡ get_asset_from_token_transfer_event event.asset

  -- The rows are those of the events in their order, without the events of an unknown type.
  pub data AreTransfersOf : List TokenEvent → List (TokenTransferData sdk) → Type 0 where
    no_events : AreTransfersOf [] []
    skipped_event :
        {event : TokenEvent} {events : List TokenEvent} {rows : List (TokenTransferData sdk)}
        → event.kind ≡ unknown_event
        → AreTransfersOf events rows
        → AreTransfersOf (event ∷ events) rows
    next_event :
        {event : TokenEvent} {events : List TokenEvent} {row : TokenTransferData sdk}
        {rows : List (TokenTransferData sdk)}
        → IsTransferOf event row
        → AreTransfersOf events rows
        → AreTransfersOf (event ∷ events) (row ∷ rows)

  parties-none : (k : EventKind) → parties k ≡ none → k ≡ unknown_event
  unfolding parties
  parties-none unknown_event e = refl
  parties-none (transfer f t a) e = ground arith
  parties-none (mint t a) e = ground arith
  parties-none (burn f a) e = ground arith
  parties-none (clawback f a) e = ground arith
  parties-none (fee f a) e = ground arith

  same_parties :
      (q p : Parties) → some q ≡ some p → (p.from ≡ q.from) × (p.to ≡ q.to) × (p.amount ≡ q.amount)
  same_parties q p e =
      let same = some-injective q p e in
      (ap (λ r. r.from) (sym same), ap (λ r. r.to) (sym same), ap (λ r. r.amount) (sym same))

  module _ (clock : ℕ → ℕ) where
    transfer_data-HasOperation :
        (n i : ℕ) (event : TokenEvent) (p : Parties) (o : Option ℕ)
        → event.metadata.operation_index ≡ o
        → HasOperation event.metadata.transaction_index o
            (transfer_data sdk clock input n i event p)
    unfolding transfer_data
    transfer_data-HasOperation n i event p none e = rw e (refl, refl)
    transfer_data-HasOperation n i event p (some j) e = rw e (refl, refl)

    transfer_data-HasParties :
        (n i : ℕ) (event : TokenEvent) (p : Parties) (k : EventKind)
        → parties k ≡ some p
        → HasParties k (transfer_data sdk clock input n i event p)
    unfolding parties transfer_data
    transfer_data-HasParties n i event p (transfer f t a) e = same_parties _ p e
    transfer_data-HasParties n i event p (mint t a) e = same_parties _ p e
    transfer_data-HasParties n i event p (burn f a) e = same_parties _ p e
    transfer_data-HasParties n i event p (clawback f a) e = same_parties _ p e
    transfer_data-HasParties n i event p (fee f a) e = same_parties _ p e
    transfer_data-HasParties n i event p unknown_event e = absurd (none-ne-some p e)

    transfer_data-IsTransferOf :
        (n i : ℕ) (event : TokenEvent) (p : Parties)
        → parties event.kind ≡ some p
        → IsTransferOf event (transfer_data sdk clock input n i event p)
    transfer_data-IsTransferOf n i event p e = record {
      of_ledger = unfold transfer_data in refl;
      of_transaction = unfold transfer_data in refl;
      id = unfold transfer_data in refl;
      operation = transfer_data-HasOperation n i event p event.metadata.operation_index refl;
      named = transfer_data-HasParties n i event p event.kind e;
      scaled = unfold transfer_data in refl;
      of_asset = unfold transfer_data in refl;
    }

    transfers_from-AreTransfersOf :
        (n : ℕ) (by_tx : GoMap Text ℕ) (events : List TokenEvent)
        → AreTransfersOf events (transfers_from sdk clock input n by_tx events)
    unfolding transfers_from
    transfers_from-AreTransfersOf n by_tx [] = no_events
    transfers_from-AreTransfersOf n by_tx (event ∷ events) =
        elim (Option-cases (parties event.kind)) [
          | inl skipped ↦
              rw (skipped, transfers_from)
                (skipped_event (parties-none event.kind skipped)
                  (transfers_from-AreTransfersOf n by_tx events))
          | inr (p, made) ↦
              rw (made, transfers_from)
                (next_event
                  (transfer_data-IsTransferOf n (event_index sdk clock input by_tx event) event p
                    made)
                  (transfers_from-AreTransfersOf (n + 1) (next_index sdk clock input by_tx event)
                    events))
        ]

    abbrev pub IsOutcome : Result (List TokenEvent) → Result (List (TokenTransferData sdk)) → Type 0
    IsOutcome (err e) out = out ≡ err (codes "failed to extract token transfer events: " ++ e)
    IsOutcome (ok events) out =
        (rows : List (TokenTransferData sdk)) × (out ≡ ok rows) × AreTransfersOf events rows

    -- Events that cannot be read are an error; otherwise extraction succeeds, with one row for each
    -- event of a known type, in the order of the events, and each row has its event's transaction,
    -- operation, parties, amount and asset.
    pub extract_token_transfers-IsOutcome :
        (r : Result (List TokenEvent)) → IsOutcome r (extract_token_transfers sdk clock input r)
    unfolding extract_token_transfers
    extract_token_transfers-IsOutcome (err e) = refl
    extract_token_transfers-IsOutcome (ok events) = (
      transfers_from sdk clock input 0 [] events,
      refl,
      transfers_from-AreTransfersOf 0 [] events,
    )
