-- ===== src/Transactions/Rows/Outcome.antt =====
-- Transaction rows are extracted for all transactions of a ledger or for none.
use stellar_extract.Prelude.{
  arith, ℕ, ◌+◌, ◌%◌, ◌^◌, ◌≡◌, refl, sym, ap, ◌⊎◌, inl, inr, Bool, true, false, Option, none, some,
  List, [], ◌∷◌, ◌++◌, Text,
}
use stellar_extract.Go.Ints.{ℤ, to_i32}
use stellar_extract.Go.Strings.{codes, hex_encode}
use stellar_extract.Ordering.Members.{Among}
use stellar_extract.Transactions.{MuxedAccount, to_account_id}
use stellar_extract.Transactions.Declared.{count_events, populate_soroban_declared_fields}
use stellar_extract.Transactions.Encoded.{populate_transaction_xdr_fields}
use stellar_extract.Transactions.FeeBump.{
  FeeBump, InnerTransaction, inner_v1, inner_other, FeeBumpColumns, fee_bump_columns,
  populate_fee_bump_fields,
}
use stellar_extract.Transactions.Columns.{TransactionSdk, Transaction, plain_columns}
use stellar_extract.Transactions.Rows.{
  TransactionData, row_of, transaction_row, transactions_loop, extract_transactions,
}
use stellar_extract.Xdr.{Result, ok, err, ok-injective, err-ne-ok, Result-cases}
use stellar_extract.Xdr.Ledger.{LedgerInput}

module _ (sdk : TransactionSdk) (network : Text) where
  -- The columns of a fee bump: none at all of another envelope, and of a fee bump the outer fee with
  -- the account and the hash of the inner transaction.
  abbrev pub FeeBumpOf : Option FeeBump → FeeBumpColumns → Type 0
  FeeBumpOf none c =
      (c.fee_bump_fee ≡ none)
      × (c.fee_account_muxed ≡ none)
      × (c.inner_source_account ≡ none)
      × (c.inner_transaction_hash ≡ none)
  FeeBumpOf (some bump) c =
      (source : MuxedAccount) × (envelope : Text) × (hash : Text) × (bump.inner
        ≡ inner_v1 source envelope)
      × (sdk.hash_transaction envelope network ≡ ok hash)
      × (c.fee_bump_fee ≡ some bump.fee)
      × (c.inner_source_account ≡ some (sdk.address_of (to_account_id source)))
      × (c.inner_transaction_hash ≡ some (hex_encode hash))

  -- The count of the contract events: none unless the transaction is a Soroban transaction.
  abbrev pub CountOf : Bool → Result (List ℕ) → Option ℤ → Type 0
  CountOf false events count = count ≡ none
  CountOf true events count =
      (counts : List ℕ) × (events ≡ ok counts) × (count ≡ some (to_i32 (count_events 0 counts)))

  pub record IsRowOf (tx : Transaction) (row : TransactionData) : Type 0 where
    pub same_hash : row.plain.transaction_hash ≡ hex_encode tx.transaction_hash
    pub wrapped : FeeBumpOf tx.fee_bump row.fee_bump
    pub counted :
        CountOf tx.is_soroban_tx tx.operation_events row.declared.soroban_contract_events_count

  -- One row for each transaction, in order.
  abbrev pub AreRowsOf : List Transaction → List TransactionData → Type 0
  AreRowsOf [] [] = Unit
  AreRowsOf (tx ∷ txs) (row ∷ rows) = IsRowOf tx row × AreRowsOf txs rows
  AreRowsOf _ _ = ⊥

  -- A group of the transaction's columns cannot be written.
  abbrev pub Fails : Transaction → Text → Type 0
  Fails tx e =
      (populate_transaction_xdr_fields sdk.decode_string sdk.marshal_texts tx.encoded ≡ err e)
      ⊎ (populate_fee_bump_fields sdk.address_of sdk.muxed_address sdk.hash_transaction network
            tx.fee_bump
          ≡ err e)
      ⊎ (populate_soroban_declared_fields sdk.marshal_fields tx.soroban_data tx.is_soroban_tx
            tx.operation_events
          ≡ err e)

  inner-FeeBumpOf :
      (bump : FeeBump) (inner : InnerTransaction) (c : FeeBumpColumns)
      → bump.inner ≡ inner
      → fee_bump_columns sdk.address_of sdk.muxed_address sdk.hash_transaction network bump inner
        ≡ ok c
      → FeeBumpOf (some bump) c
  unfolding fee_bump_columns
  inner-FeeBumpOf bump (inner_other t) c same h = absurd (err-ne-ok _ c h)
  inner-FeeBumpOf bump (inner_v1 source envelope) c same h =
      elim (Result-cases (sdk.hash_transaction envelope network)) [
        | inl (e, bad) ↦ absurd (err-ne-ok _ c (rw bad at h))
        | inr (hash, hashed) ↦
            let e = ok-injective _ c (rw hashed at h) in
            (
              source,
              envelope,
              hash,
              same,
              hashed,
              sym (ap (λ x. x.fee_bump_fee) e),
              sym (ap (λ x. x.inner_source_account) e),
              sym (ap (λ x. x.inner_transaction_hash) e),
            )
      ]

  populate_fee_bump_fields-FeeBumpOf :
      (bump : Option FeeBump) (c : FeeBumpColumns)
      → populate_fee_bump_fields sdk.address_of sdk.muxed_address sdk.hash_transaction network bump
        ≡ ok c
      → FeeBumpOf bump c
  unfolding populate_fee_bump_fields
  populate_fee_bump_fields-FeeBumpOf none c h = ground arith
  populate_fee_bump_fields-FeeBumpOf (some bump) c h = inner-FeeBumpOf bump bump.inner c refl h

  module _ (input : LedgerInput) where
    abbrev label_of : Transaction → Text
    label_of tx = codes "transaction " ++ (hex_encode tx.transaction_hash ++ codes ": ")

    -- What becomes of one transaction.
    transaction_row-IsOutcome :
        (n : ℕ) (tx : Transaction)
        → ((row : TransactionData) × (transaction_row sdk input network n tx ≡ ok row)
            × IsRowOf tx row)
          ⊎ ((e : Text) × (transaction_row sdk input network n tx ≡ err (label_of tx ++ e))
              × Fails tx e)
    unfolding transaction_row row_of plain_columns
    transaction_row-IsOutcome n tx =
        elim (Result-cases
          (populate_transaction_xdr_fields sdk.decode_string sdk.marshal_texts tx.encoded)) [
            | inl (e, bad) ↦ inr (e, rw bad refl, inl bad)
            | inr (encoded, good) ↦
                elim (Result-cases (
                  populate_fee_bump_fields sdk.address_of sdk.muxed_address sdk.hash_transaction
                    network tx.fee_bump)) [
                      | inl (e, bad) ↦ inr (e, rw (good, bad) refl, inr (inl bad))
                      | inr (bump, bumped) ↦
                          elim (Result-cases (
                            populate_soroban_declared_fields sdk.marshal_fields tx.soroban_data
                              tx.is_soroban_tx tx.operation_events)) [
                                | inl (e, bad) ↦ inr (e, rw (good, bumped, bad) refl, inr (inr bad))
                                | inr (declared, made) ↦ inl (
                                  row_of sdk input network n tx encoded bump declared,
                                  rw (good, bumped, made) refl,
                                  record {
                                    same_hash = refl;
                                    wrapped =
                                        populate_fee_bump_fields-FeeBumpOf tx.fee_bump bump bumped;
                                    counted = ground arith;
                                  },
                                )
                              ]
                    ]
          ]

    -- What becomes of all transactions.
    abbrev pub IsOutcome : List Transaction → Result (List TransactionData) → Type 0
    IsOutcome txs result =
        ((rows : List TransactionData) × (result ≡ ok rows) × AreRowsOf txs rows)
        ⊎ ((tx : Transaction) × Among tx txs
            × (e : Text) × (result ≡ err (label_of tx ++ e))
            × Fails tx e)

    transactions_loop-IsOutcome :
        (n : ℕ) (txs : List Transaction) → IsOutcome txs (transactions_loop sdk input network n txs)
    unfolding transactions_loop
    transactions_loop-IsOutcome n [] = inl ([], refl, tt)
    transactions_loop-IsOutcome n (tx ∷ txs) = elim (transaction_row-IsOutcome n tx) [
      | inr (e, failed, why) ↦ inr (tx, inl refl, e, rw failed refl, why)
      | inl (row, made, is_row) ↦ elim (transactions_loop-IsOutcome ((n + 1) % 2 ^ 32) txs) [
        | inl (rows, rest, are_rows) ↦ inl (row ∷ rows, rw (made, rest) refl, (is_row, are_rows))
        | inr (later, among, e, failed, why) ↦
            inr (later, inr among, e, rw (made, failed) refl, why)
      ]
    ]

    -- Extraction gives one row for each transaction, in order, or an error that names one of the
    -- transactions and says why a group of its columns cannot be written. Each row has the hash of
    -- its transaction; the columns of a fee bump exactly where the envelope is one, with the outer
    -- fee and with the account and the hash of the inner transaction; and a count of contract events
    -- exactly where the transaction is a Soroban transaction.
    pub extract_transactions-IsOutcome :
        (txs : List Transaction) → IsOutcome txs (extract_transactions sdk input network (ok txs))
    unfolding extract_transactions
    extract_transactions-IsOutcome txs = transactions_loop-IsOutcome 1 txs
