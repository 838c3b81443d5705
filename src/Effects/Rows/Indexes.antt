-- ===== src/Effects/Rows/Indexes.antt =====
-- The position of an effect within its transaction is a key.
use stellar_extract.Prelude.{
  ℕ, ◌+◌, ◌≤◌, ◌≡◌, refl, Bool, true, ◌&&◌, ◌||◌, List, [], ◌∷◌, ◌++◌, Text, arith, ltb, ◌==◌,
  nat_ordered, All, All-append, All-map, Bool-cases, inl, inr,
}
use stellar_extract.Effects.{EffectSdk, EffectRecord}
use stellar_extract.Effects.Operations.{operation_effects}
use stellar_extract.Effects.Rows.{
  EffectData, OperationOf, EffectTransaction, source_of, effect_data, records_rows, operation_rows,
  operations_rows, transaction_effects,
}
use stellar_extract.Go.Strings.{hex_encode}
use stellar_extract.Xdr.Ledger.{LedgerInput}

-- An earlier operation, or an earlier effect of the same operation.
abbrev pub before : EffectData → EffectData → Bool
before a b =
    ltb a.operation_index b.operation_index
    || (a.operation_index == b.operation_index && ltb a.effect_index b.effect_index)

abbrev pub InOrder : List EffectData → Type 0
InOrder [] = Unit
InOrder (row ∷ rows) = All (λ later. before row later ≡ true) rows × InOrder rows

abbrev From : ℕ → ℕ → EffectData → Type 0
From opi idx row = (row.operation_index ≡ opi) × (idx ≤ row.effect_index)

InOrder-append :
    (xs ys : List EffectData)
    → InOrder xs
    → InOrder ys
    → All (λ x. All (λ y. before x y ≡ true) ys) xs
    → InOrder (xs ++ ys)
InOrder-append [] ys h k b = k
InOrder-append (x ∷ xs) ys (x_first, h) k (x_before, b) =
    (All-append (λ y. before x y ≡ true) xs ys x_first x_before, InOrder-append xs ys h k b)

module _ (sdk : EffectSdk) (input : LedgerInput) (network : Text) where
  records_rows-From :
      (tx : EffectTransaction) (opi idx : ℕ) (recs : List EffectRecord)
      → All (From opi idx) (records_rows sdk input network tx opi idx recs)
  unfolding records_rows effect_data
  records_rows-From tx opi idx [] = tt
  records_rows-From tx opi idx (rec ∷ recs) = (
    (refl, omega arith),
    All-map (From opi (idx + 1)) (From opi idx)
        (records_rows sdk input network tx opi (idx + 1) recs) (λ row h. (h.0, omega (arith, h.1)))
        (records_rows-From tx opi (idx + 1) recs),
  )

  records_rows-InOrder :
      (tx : EffectTransaction) (opi idx : ℕ) (recs : List EffectRecord)
      → InOrder (records_rows sdk input network tx opi idx recs)
  unfolding records_rows
  records_rows-InOrder tx opi idx [] = tt
  records_rows-InOrder tx opi idx (rec ∷ recs) = (
    All-map (From opi (idx + 1)) _ (records_rows sdk input network tx opi (idx + 1) recs)
        (λ row h. unfold effect_data in later row h) (records_rows-From tx opi (idx + 1) recs),
    records_rows-InOrder tx opi (idx + 1) recs,
  )
    where
      later :
          (row : EffectData)
          → From opi (idx + 1) row
          → (ltb opi row.operation_index
              || (opi == row.operation_index && ltb idx row.effect_index))
            ≡ true
      later row (o, i) = ground arith

  -- Rows of the operations from `opi` on.
  operations_rows-behind :
      (tx : EffectTransaction) (opi : ℕ) (ops : List OperationOf)
      → All (λ row. opi ≤ row.operation_index) (operations_rows sdk input network tx opi ops)
        × InOrder (operations_rows sdk input network tx opi ops)
  unfolding operations_rows operation_rows
  operations_rows-behind tx opi [] = (tt, tt)
  operations_rows-behind tx opi (op ∷ ops) =
      let recs =
        operation_effects sdk (source_of tx op) network op.changes tx.contract_events op.body in
      let own = records_rows sdk input network tx opi 0 recs in
      let rest = operations_rows sdk input network tx (opi + 1) ops in
      let (behind, ordered) = operations_rows-behind tx (opi + 1) ops in
      let from : All (From opi 0) own = records_rows-From tx opi 0 recs in
      (
        All-append (λ row. opi ≤ row.operation_index) own rest
            (All-map (From opi 0) _ own (λ row h. omega (arith, h.0)) from)
            (All-map (λ row. opi + 1 ≤ row.operation_index) _ rest (λ row h. omega (arith, h))
              behind),
        InOrder-append own rest (records_rows-InOrder tx opi 0 recs) ordered (
            All-map (From opi 0) _ own
              (λ row h.
                All-map (λ r. opi + 1 ≤ r.operation_index) _ rest (λ later b. ground (arith, h.0))
                  behind)
              from),
      )

  records_rows-hash :
      (tx : EffectTransaction) (opi idx : ℕ) (recs : List EffectRecord)
      → All
          (λ row. row.transaction_hash ≡ hex_encode tx.transaction_hash)
          (records_rows sdk input network tx opi idx recs)
  unfolding records_rows effect_data
  records_rows-hash tx opi idx [] = tt
  records_rows-hash tx opi idx (rec ∷ recs) = (refl, records_rows-hash tx opi (idx + 1) recs)

  operations_rows-hash :
      (tx : EffectTransaction) (opi : ℕ) (ops : List OperationOf)
      → All
          (λ row. row.transaction_hash ≡ hex_encode tx.transaction_hash)
          (operations_rows sdk input network tx opi ops)
  unfolding operations_rows operation_rows
  operations_rows-hash tx opi [] = tt
  operations_rows-hash tx opi (op ∷ ops) =
      All-append _ (operation_rows sdk input network tx opi op)
        (operations_rows sdk input network tx (opi + 1) ops) (records_rows-hash tx opi 0 _)
        (operations_rows-hash tx (opi + 1) ops)

  -- The effect rows of a transaction come in the order of their operations and, within an operation,
  -- of their effect indexes, so that no two of them agree on both; each has the transaction's hash,
  -- and a transaction that failed has none.
  pub transaction_effects-InOrder :
      (tx : EffectTransaction)
      → InOrder (transaction_effects sdk input network tx)
        × All
            (λ row.
              (tx.successful ≡ true) × (row.transaction_hash ≡ hex_encode tx.transaction_hash))
            (transaction_effects sdk input network tx)
  unfolding transaction_effects operations_rows
  transaction_effects-InOrder tx = elim (Bool-cases tx.successful) [
    | inl succeeded ↦
        rw (succeeded, transaction_effects)
          (
            (operations_rows-behind tx 0 tx.operations).1,
            All-map _ _ (operations_rows sdk input network tx 0 tx.operations) (λ row h. (refl, h))
                (operations_rows-hash tx 0 tx.operations),
          )
    | inr failed ↦ rw (failed, transaction_effects) (tt, tt)
  ]
