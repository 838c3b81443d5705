-- ===== src/TokenTransfers/Indexes.antt =====
-- The index of a transfer within its transaction, and the key that it makes.
use stellar_extract.Prelude.{
  ℕ, suc, ◌+◌, ◌%◌, ◌^◌, ◌<◌, ◌≤◌, ◌≡◌, refl, sym, ap, Bool, true, false, List, [], ◌∷◌, arith,
  if◌then◌else◌, Text, text_ordered, ◌==◌, eq_refl, eq→path, path→eq, length, count_up, All,
  All-map, Option-cases, Bool-cases, inl, inr,
}
use mathlib.Core.Path.{subst}
use stellar_extract.Go.Maps.{GoMap, get, get-put}
use stellar_extract.Xdr.{ok, ok-injective}
use stellar_extract.Xdr.Ledger.{LedgerInput}
use stellar_extract.TokenTransfers.{
  TokenEvent, TokenSdk, TokenTransferData, parties, transfer_data, event_index, next_index, or_zero,
  transfers_from, extract_token_transfers,
}

module _ (sdk : TokenSdk) where
  -- The event indexes of the rows of one transaction, in the order of the rows.
  abbrev pub indexes_of : Text → List (TokenTransferData sdk) → List ℕ
  indexes_of h [] = []
  indexes_of h (row ∷ rows) =
      if row.transaction_hash == h then row.event_index ∷ indexes_of h rows else indexes_of h rows

  -- No two rows agree on both the transaction and the index.
  abbrev pub IsKeyedByIndex : List (TokenTransferData sdk) → Type 0
  IsKeyedByIndex [] = Unit
  IsKeyedByIndex (row ∷ rows) =
      All
        (λ other.
          ¬ (other.transaction_hash ≡ row.transaction_hash × other.event_index ≡ row.event_index))
        rows
      × IsKeyedByIndex rows

  abbrev CountsFrom : ℕ → List ℕ → Type 0
  CountsFrom i [] = Unit
  CountsFrom i (n ∷ ns) = (n ≡ i) × CountsFrom (i + 1) ns

  CountsFrom-count_up : (i : ℕ) (ns : List ℕ) → CountsFrom i ns → ns ≡ count_up i (length ns)
  CountsFrom-count_up i [] h = refl
  CountsFrom-count_up i (n ∷ ns) h = ground (arith, CountsFrom-count_up (i + 1) ns h.1)

  -- Every transaction's indexes count up from some number.
  Counted : List (TokenTransferData sdk) → Type 0
  Counted rows = (h : Text) → (i : ℕ) × CountsFrom i (indexes_of h rows)

  above : (i : ℕ) (ns : List ℕ) → CountsFrom i ns → All (λ n. i ≤ n) ns
  above i [] h = tt
  above i (n ∷ ns) (e, h) = (
    omega arith,
    All-map (λ n. i + 1 ≤ n) (λ n. i ≤ n) ns (λ n b. omega arith) (above (i + 1) ns h),
  )

  rest-Counted :
      (mine : Bool) (x : ℕ) (ns : List ℕ)
      → (i : ℕ) × CountsFrom i (if mine then x ∷ ns else ns)
      → (i : ℕ) × CountsFrom i ns
  rest-Counted true x ns (i, (e, h)) = (i + 1, h)
  rest-Counted false x ns (i, h) = (i, h)

  rest-above :
      (mine : Bool) (x : ℕ) (ns : List ℕ)
      → mine ≡ true
      → (i : ℕ) × CountsFrom i (if mine then x ∷ ns else ns)
      → All (λ n. x + 1 ≤ n) ns
  rest-above true x ns m (i, (e, h)) =
      above (x + 1) ns (subst (λ j. CountsFrom (j + 1) ns) (sym e) h)
  rest-above false x ns m c = ground arith

  others_above :
      (mine : Bool) (i x : ℕ) (ns : List ℕ)
      → All (λ n. i + 1 ≤ n) (if mine then x ∷ ns else ns)
      → (mine ≡ true → i + 1 ≤ x) × All (λ n. i + 1 ≤ n) ns
  others_above true i x ns (b, h) = (λ m. b, h)
  others_above false i x ns h = (λ m. ground arith, h)

  others :
      (h : Text) (i : ℕ) (rows : List (TokenTransferData sdk))
      → All (λ n. i + 1 ≤ n) (indexes_of h rows)
      → All (λ other. ¬ (other.transaction_hash ≡ h × other.event_index ≡ i)) rows
  others h i [] b = tt
  others h i (row ∷ rows) b =
      let mine : Bool = row.transaction_hash == h in
      let bounds = others_above mine i row.event_index (indexes_of h rows) b in
      (
        λ (same, index).
            absurd (omega (arith, bounds.0 (path→eq row.transaction_hash h same), index)),
        others h i rows bounds.1,
      )

  Counted-IsKeyedByIndex :
      (rows : List (TokenTransferData sdk)) → Counted rows → IsKeyedByIndex rows
  unfolding Counted
  Counted-IsKeyedByIndex [] c = tt
  Counted-IsKeyedByIndex (row ∷ rows) c =
      let mine = row.transaction_hash == row.transaction_hash in
      (
        others row.transaction_hash row.event_index rows (
            rest-above mine row.event_index (indexes_of row.transaction_hash rows)
              (eq_refl row.transaction_hash) (c row.transaction_hash)),
        Counted-IsKeyedByIndex rows (λ h.
            rest-Counted (row.transaction_hash == h) row.event_index (indexes_of h rows) (c h)),
      )

  step-CountsFrom :
      (mine : Bool) (index i next : ℕ) (ns : List ℕ)
      → (mine ≡ true → index ≡ i)
      → next ≡ (if mine then i + 1 else i)
      → CountsFrom next ns
      → CountsFrom i (if mine then index ∷ ns else ns)
  step-CountsFrom true index i next ns f e h = (f refl, subst (λ n. CountsFrom n ns) e h)
  step-CountsFrom false index i next ns f e h = subst (λ n. CountsFrom n ns) e h

  module _ (clock : ℕ → ℕ) (input : LedgerInput) where
    abbrev transfers : ℕ → GoMap Text ℕ → List TokenEvent → List (TokenTransferData sdk)
    transfers = transfers_from sdk clock input

    next_index-get :
        (h : Text) (by_tx : GoMap Text ℕ) (event : TokenEvent)
        → or_zero (get h by_tx) + 1 < 2 ^ 32
        → or_zero (get h (next_index sdk clock input by_tx event)) ≡ (
            if event.metadata.tx_hash == h
            then or_zero (get h by_tx) + 1
            else or_zero (get h by_tx))
    next_index-get h by_tx event b = elim (Bool-cases (event.metadata.tx_hash == h)) [
      | inl same ↦
          rw
            (
              get-put event.metadata.tx_hash h
                  ((event_index sdk clock input by_tx event + 1) % 2 ^ 32) by_tx,
              same,
              eq→path event.metadata.tx_hash h same,
            )
            (omega arith)
      | inr other ↦
          rw
            (
              get-put event.metadata.tx_hash h
                  ((event_index sdk clock input by_tx event + 1) % 2 ^ 32) by_tx,
              other,
            )
            refl
    ]

    next_room :
        (h : Text) (by_tx : GoMap Text ℕ) (event : TokenEvent) (n : ℕ)
        → or_zero (get h by_tx) + suc n < 2 ^ 32
        → or_zero (get h (next_index sdk clock input by_tx event)) + n < 2 ^ 32
    next_room h by_tx event n b =
        let e = next_index-get h by_tx event (omega arith) in
        elim (Bool-cases (event.metadata.tx_hash == h)) [
          | inl same ↦ rw (e, same) (omega arith)
          | inr other ↦ rw (e, other) (omega arith)
        ]

    transfers-CountsFrom :
        (h : Text) (reading : ℕ) (by_tx : GoMap Text ℕ) (events : List TokenEvent)
        → or_zero (get h by_tx) + length events < 2 ^ 32
        → CountsFrom (or_zero (get h by_tx)) (indexes_of h (transfers reading by_tx events))
    unfolding transfers_from transfer_data
    transfers-CountsFrom h reading by_tx [] b = tt
    transfers-CountsFrom h reading by_tx (event ∷ events) b =
        elim (Option-cases (parties event.kind)) [
          | inl skipped ↦
              rw (skipped, transfers_from)
                (transfers-CountsFrom h reading by_tx events (omega arith))
          | inr (p, made) ↦
              rw (made, transfers_from)
                (step-CountsFrom (event.metadata.tx_hash == h) _ _ _ _
                  (λ same. ap (λ k. or_zero (get k by_tx)) (eq→path event.metadata.tx_hash h same))
                  (next_index-get h by_tx event (omega arith))
                  (transfers-CountsFrom h (reading + 1) (next_index sdk clock input by_tx event)
                    events (next_room h by_tx event (length events) b)))
        ]

    rows-CountsFrom :
        (h : Text) (events : List TokenEvent) (rows : List (TokenTransferData sdk))
        → length events < 2 ^ 32
        → extract_token_transfers sdk clock input (ok events) ≡ ok rows
        → CountsFrom 0 (indexes_of h rows)
    unfolding extract_token_transfers
    rows-CountsFrom h events rows b e = ground (
      arith,
      ok-injective (transfers 0 [] events) rows e,
      transfers-CountsFrom h 0 [] events (omega arith),
    )

    -- In a ledger of fewer than 2 ^ 32 events, the indexes of the rows of each transaction are 0, 1,
    -- 2, … in the order of the rows.
    pub extract_token_transfers-count_up :
        (h : Text) (events : List TokenEvent) (rows : List (TokenTransferData sdk))
        → length events < 2 ^ 32
        → extract_token_transfers sdk clock input (ok events) ≡ ok rows
        → indexes_of h rows ≡ count_up 0 (length (indexes_of h rows))
    extract_token_transfers-count_up h events rows b e =
        CountsFrom-count_up 0 (indexes_of h rows) (rows-CountsFrom h events rows b e)

    -- In a ledger of fewer than 2 ^ 32 events, the transaction's hash and the index are a key: no two
    -- rows agree on both.
    pub extract_token_transfers-IsKeyedByIndex :
        (events : List TokenEvent) (rows : List (TokenTransferData sdk))
        → length events < 2 ^ 32
        → extract_token_transfers sdk clock input (ok events) ≡ ok rows
        → IsKeyedByIndex rows
    extract_token_transfers-IsKeyedByIndex events rows b e =
        Counted-IsKeyedByIndex rows
          (unfold Counted in (λ h. (0, rows-CountsFrom h events rows b e)))
