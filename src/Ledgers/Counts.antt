-- ===== src/Ledgers/Counts.antt =====
-- The counts of a ledger row.
use stellar_extract.Prelude.{
  ℕ, ◌+◌, ◌^◌, ◌<◌, ◌≡◌, refl, Bool, List, [], ◌∷◌, ◌++◌, arith, if◌then◌else◌, Text, length, map,
  is_some, ◌&&◌,
}
use stellar_extract.Xdr.{ok}
use stellar_extract.Xdr.Ledger.{LedgerInput}
use stellar_extract.Ledgers.{
  decimal_int, codes, err, Result, LedgerHeader, AppliedTransaction, CloseMeta, OperationType,
  CloseMetaUnion, lcm_v0, lcm_v1, lcm_v2, lcm_unknown, LedgerRowData, sum_u32, failures_counted,
  read_v0, read_processing, ledger_row, extract_ledgers,
}

-- A transaction that was applied with results and succeeded.
abbrev pub succeeded : AppliedTransaction → Bool
succeeded tx = is_some tx.operation_results && tx.successful

abbrev pub successes : List AppliedTransaction → ℕ
successes [] = 0
successes (tx ∷ txs) = (if succeeded tx then 1 else 0) + successes txs

failures-successes :
    (txs : List AppliedTransaction)
    → length txs < 2 ^ 32
    → sum_u32 (map failures_counted txs) + successes txs ≡ length txs
failures-successes [] h = omega arith
failures-successes (tx ∷ txs) h = ground (arith, failures-successes txs)

-- The row of a ledger says how many transactions it applied, and how many of these succeeded.
abbrev pub IsCounted : List AppliedTransaction → LedgerRowData → Type 0
IsCounted txs row =
    (row.transaction_count ≡ length txs)
    × (row.successful_tx_count ≡ successes txs)
    × (row.successful_tx_count + row.failed_tx_count ≡ row.transaction_count)

abbrev pub IsUncounted : List ℕ → LedgerRowData → Type 0
IsUncounted txs row =
    (row.transaction_count ≡ length txs)
    × (row.successful_tx_count ≡ length txs)
    × (row.failed_tx_count ≡ 0)

-- What comes of a ledger of each version.
abbrev pub CountsOf : CloseMetaUnion → Result (List LedgerRowData) → Type 0
CountsOf (lcm_v0 h txs) result =
    (row : LedgerRowData) × (result ≡ ok (row ∷ [])) × IsUncounted txs row
CountsOf (lcm_v1 h m) result =
    (row : LedgerRowData) × (result ≡ ok (row ∷ [])) × IsCounted m.tx_processing row
CountsOf (lcm_v2 h m) result =
    (row : LedgerRowData) × (result ≡ ok (row ∷ [])) × IsCounted m.tx_processing row
CountsOf (lcm_unknown v) result =
    result ≡ err (codes "unknown LedgerCloseMeta version: " ++ decimal_int v)

abbrev pub transactions_in : CloseMetaUnion → ℕ
transactions_in (lcm_v0 h txs) = length txs
transactions_in (lcm_v1 h m) = length m.tx_processing
transactions_in (lcm_v2 h m) = length m.tx_processing
transactions_in (lcm_unknown v) = 0

module _ (version : Text) (now : ℕ) (input : LedgerInput)
    (envelopes : List (List OperationType)) where
  counted :
      (h : LedgerHeader) (m : CloseMeta)
      → length m.tx_processing < 2 ^ 32
      → IsCounted m.tx_processing (ledger_row version now input envelopes h (read_processing m))
  unfolding ledger_row read_processing
  counted h m b =
      let sum = failures-successes m.tx_processing b in
      (omega arith, omega (arith, sum), omega (arith, sum))

  -- A ledger of version 0, 1 or 2, of fewer than 2 ^ 32 transactions, gives exactly one row. Its
  -- counts are, on versions 1 and 2, those of all applied transactions and of those that succeeded
  -- with results, and the successful and the failed ones add up to all; on version 0 every
  -- transaction of the set counts as successful. Any other version is an error that names it.
  pub extract_ledgers-CountsOf :
      (lcm : CloseMetaUnion)
      → transactions_in lcm < 2 ^ 32
      → CountsOf lcm (extract_ledgers version now input envelopes lcm)
  unfolding extract_ledgers
  extract_ledgers-CountsOf (lcm_v0 h txs) b = (
    ledger_row version now input envelopes h (read_v0 txs),
    refl,
    unfold ledger_row read_v0 in (omega arith, omega arith, refl),
  )
  extract_ledgers-CountsOf (lcm_v1 h m) b =
      (ledger_row version now input envelopes h (read_processing m), refl, counted h m b)
  extract_ledgers-CountsOf (lcm_v2 h m) b =
      (ledger_row version now input envelopes h (read_processing m), refl, counted h m b)
  extract_ledgers-CountsOf (lcm_unknown v) b = refl
