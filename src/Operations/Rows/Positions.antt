-- ===== src/Operations/Rows/Positions.antt =====
-- The operation rows of a ledger, by what identifies them.
use stellar_extract.Prelude.{
  ℕ, ◌+◌, ◌%◌, ◌^◌, ◌<◌, ◌≡◌, refl, ap, ◌∙◌, Bool, List, [], ◌∷◌, ◌++◌, map, Text, length, arith,
}
use mathlib.Core.List.{map-append}
use stellar_extract.Go.Ints.{ℤ, pos, to_i32}
use stellar_extract.Go.Strings.{hex_encode}
use stellar_extract.Operations.{Operation, OperationTransaction}
use stellar_extract.Operations.Rows.{
  OperationSdk, OperationRow, graph_columns, invocation_of, operation_row, operations_rows,
  transactions_rows, extract_operations,
}
use stellar_extract.Xdr.{ok}
use stellar_extract.Xdr.Ledger.{LedgerInput}

-- Where an operation stands, and which one it is.
pub record Place : Type 0 where
  pub transaction_index : ℤ
  pub operation_index : ℕ
  pub transaction_hash : Text
  pub transaction_successful : Bool
  pub op_type : ℕ

abbrev pub place_of : OperationRow → Place
place_of row = record {
  transaction_index = row.transaction_index;
  operation_index = row.operation_index;
  transaction_hash = row.transaction_hash;
  transaction_successful = row.transaction_successful;
  op_type = row.op_type;
}

-- The operations of a transaction from position `i` on.
abbrev pub operation_places : OperationTransaction → ℤ → ℕ → List Operation → List Place
operation_places tx tx_index i [] = []
operation_places tx tx_index i (op ∷ ops) =
    record {
      transaction_index = tx_index;
      operation_index = i;
      transaction_hash = hex_encode tx.transaction_hash;
      transaction_successful = tx.successful;
      op_type = op.op_type;
    }
    ∷ operation_places tx tx_index (i + 1) ops

-- All operations, with the transactions counted from `n` on.
abbrev pub places : ℕ → List OperationTransaction → List Place
places n [] = []
places n (tx ∷ txs) = operation_places tx (pos n) 0 tx.operations ++ places (n + 1) txs

module _ (sdk : OperationSdk) (input : LedgerInput) where
  operations_rows-places :
      (tx : OperationTransaction) (tx_index i : ℕ) (ops : List Operation) (skipped : ℕ)
      → map place_of (operations_rows sdk input tx tx_index i ops skipped).0
        ≡ operation_places tx (to_i32 tx_index) i ops
  unfolding operations_rows operation_row
  operations_rows-places tx tx_index i [] skipped = refl
  operations_rows-places tx tx_index i (op ∷ ops) skipped =
      rw
        (operations_rows-places tx tx_index (i + 1) ops
          (graph_columns sdk input tx.diagnostic_events (invocation_of op.body) skipped).1)
        refl

  transactions_rows-places :
      (n : ℕ) (txs : List OperationTransaction) (skipped : ℕ)
      → n + length txs < 2 ^ 31
      → map place_of (transactions_rows sdk input n txs skipped).0 ≡ places n txs
  unfolding transactions_rows
  transactions_rows-places n [] skipped h = refl
  transactions_rows-places n (tx ∷ txs) skipped h =
      let step : (n + 1) % 2 ^ 32 ≡ n + 1 = omega (arith, h) in
      let read : to_i32 n ≡ pos n = ground (arith, h) in
      let (rows, skipped') = operations_rows sdk input tx n 0 tx.operations skipped in
      let here : map place_of rows ≡ operation_places tx (pos n) 0 tx.operations =
        operations_rows-places tx n 0 tx.operations skipped
        ∙ ap (λ t. operation_places tx t 0 tx.operations) read in
      let there = transactions_rows-places (n + 1) txs skipped' (omega (arith, h)) in
      rw step (map-append place_of rows _ ∙ rw (here, there) refl)

  -- In a ledger of fewer than 2 ^ 31 - 1 transactions, extraction gives one row for each operation,
  -- also for those of failed transactions, in the order of the transactions, which are counted from
  -- 1, and of their operations, which are counted from 0. Each row has the hash and the success of
  -- its transaction, and the type of its operation.
  pub extract_operations-places :
      (txs : List OperationTransaction) (skipped : ℕ)
      → 1 + length txs < 2 ^ 31
      → (rows : List OperationRow) × ((extract_operations sdk input (ok txs) skipped).0 ≡ ok rows)
        × (map place_of rows ≡ places 1 txs)
  unfolding extract_operations
  extract_operations-places txs skipped h = (_, refl, transactions_rows-places 1 txs skipped h)
