-- ===== src/Transactions/Rows.antt =====
-- transactions.go, types_core.go: `ExtractTransactions`.
pub mod Outcome
use stellar_extract.Prelude.{
  ℕ, ◌+◌, ◌%◌, ◌^◌, Bool, true, false, ◌||◌, Option, none, some, List, [], ◌∷◌, ◌++◌, Text, length,
}
use stellar_extract.CallGraph.Names.{DiagnosticEvent}
use stellar_extract.CallGraph.Extract.{HostFunction, invoke_contract, other_host_function}
use stellar_extract.ContractError.{Facts, contract_error_facts}
use stellar_extract.Go.Ints.{ℤ, to_i32, to_i64}
use stellar_extract.Go.Strings.{codes, hex_encode}
use stellar_extract.Operations.{OperationBody, create_account, invoke_host_function, Operation}
use stellar_extract.ScVal.Json.{Fields}
use stellar_extract.Transactions.{MuxedAccount, to_account_id, get_muxed_address, unless_blank}
use stellar_extract.Transactions.Declared.{
  SorobanData, TransactionMeta, soroban_meta_ext, rent_fee_of, DeclaredColumns,
  populate_soroban_declared_fields,
}
use stellar_extract.Transactions.Encoded.{
  EncodedParts, EncodedColumns, populate_transaction_xdr_fields,
}
use stellar_extract.Transactions.FeeBump.{FeeBump, FeeBumpColumns, populate_fee_bump_fields}
use stellar_extract.Transactions.Invocation.{InvokeOp}
use stellar_extract.Transactions.Memo.{Memo, MemoColumns, memo_columns}
use stellar_extract.Transactions.Preconditions.{
  PreconditionsV2, PreconditionColumns, populate_precondition_fields,
}
use stellar_extract.Xdr.{Result, ok, err, on_ok, Sdk}
use stellar_extract.Transactions.Columns.{
  TransactionSdk, TimeBounds, SorobanResources, Transaction, PlainColumns, SorobanColumns,
  plain_columns, soroban_columns,
}
use stellar_extract.Xdr.Ledger.{LedgerInput}

-- TransactionData, in groups of columns
pub record TransactionData : Type 0 where
  pub plain : PlainColumns
  pub memo : MemoColumns
  pub soroban : SorobanColumns
  pub encoded : EncodedColumns
  pub fee_bump : FeeBumpColumns
  pub preconditions : PreconditionColumns
  pub declared : DeclaredColumns
  pub transaction_id : ℤ

module _ (sdk : TransactionSdk) (input : LedgerInput) (network : Text) where
  -- `txIndex` is an int32, which `to_i32` reads off its 32 bits
  unfoldable pub row_of :
      ℕ → Transaction → EncodedColumns → FeeBumpColumns → DeclaredColumns → TransactionData
  unfolding plain_columns soroban_columns memo_columns populate_precondition_fields
  row_of tx_index tx encoded fee_bump declared = record {
    plain = plain_columns sdk input tx;
    memo = memo_columns tx.memo;
    soroban = soroban_columns sdk input tx;
    encoded = encoded;
    fee_bump = fee_bump;
    preconditions =
        populate_precondition_fields sdk.signer_address sdk.marshal_texts tx.preconditions;
    declared = declared;
    transaction_id = sdk.toid (to_i32 input.sequence) (to_i32 tx_index) (to_i32 0);
  }

  -- the loop's body
  unfoldable pub transaction_row : ℕ → Transaction → Result TransactionData
  unfolding row_of populate_transaction_xdr_fields populate_fee_bump_fields
      populate_soroban_declared_fields hex_encode
  transaction_row tx_index tx =
      let label = codes "transaction " ++ (hex_encode tx.transaction_hash ++ codes ": ") in
      on_ok label (populate_transaction_xdr_fields sdk.decode_string sdk.marshal_texts tx.encoded)
        (λ encoded.
          on_ok label
            (populate_fee_bump_fields sdk.address_of sdk.muxed_address sdk.hash_transaction network
              tx.fee_bump)
            (λ fee_bump.
              on_ok label
                (populate_soroban_declared_fields sdk.marshal_fields tx.soroban_data
                  tx.is_soroban_tx tx.operation_events)
                (λ declared. ok (row_of tx_index tx encoded fee_bump declared))))

  -- the loop over the transactions
  unfoldable pub transactions_loop : ℕ → List Transaction → Result (List TransactionData)
  unfolding transaction_row
  transactions_loop tx_index [] = ok []
  transactions_loop tx_index (tx ∷ txs) =
      let rest = transactions_loop ((tx_index + 1) % 2 ^ 32) txs in
      on_ok [] (transaction_row tx_index tx) (λ row. on_ok [] rest (λ rows. ok (row ∷ rows)))

  unfoldable pub extract_transactions : Result (List Transaction) → Result (List TransactionData)
  unfolding transactions_loop
  extract_transactions txs =
      on_ok (codes "failed to read transactions: ") txs (λ read. transactions_loop 1 read)
