-- ===== src/Operations/Rows/Parallel.antt =====
-- The credentials columns of an operation row.
use stellar_extract.Prelude.{
  arith, ℕ, ◌+◌, ◌%◌, ◌^◌, ◌≡◌, refl, ap, ◌∙◌, Option, none, some, List, [], ◌∷◌, ◌++◌, map, Text,
}
use stellar_extract.CallGraph.Credentials.{
  AuthorizationEntry, Credentials, source_account, address, address_v2, address_with_delegates,
  credentials_other, extract_auth_credentials, kind_of, authorizer_of, describe, address_or_empty,
  extract_auth_credentials_lem,
}
use stellar_extract.CallGraph.Extract.{OperationData}
use stellar_extract.CallGraph.Extract.Row.{integrate_call_graph_lem}
use stellar_extract.CallGraph.Names.{DiagnosticEvent}
use stellar_extract.Go.Strings.{codes, decimal_int}
use stellar_extract.Operations.{
  Operation, OperationTransaction, OperationBody, invoke_host_function,
}
use stellar_extract.Operations.Rows.{
  OperationSdk, OperationRow, no_graph, graph_columns, invocation_of, operation_row,
  operations_rows, transactions_rows, extract_operations,
}
use stellar_extract.Transactions.Invocation.{InvokeOp}
use stellar_extract.Xdr.{Result, ok, err, Sdk}
use stellar_extract.Xdr.Ledger.{LedgerInput}
use stellar_extract.Xdr.Values.{ScAddress}

module _ (sdk : Sdk) where
  -- The authorizer is empty where the address is missing or cannot be encoded.
  abbrev Authorizes : Option ScAddress → Text → Type 0
  Authorizes none s = s ≡ []
  Authorizes (some a) s = elim (sdk.address_string a) [ ok t ↦ s ≡ t | err e ↦ s ≡ [] ]

  abbrev pub Describes : Credentials → Text → Text → Type 0
  Describes source_account kind s = (kind ≡ codes "SOURCE_ACCOUNT") × (s ≡ [])
  Describes (address a) kind s = (kind ≡ codes "ADDRESS") × Authorizes a s
  Describes (address_v2 a) kind s = (kind ≡ codes "ADDRESS_V2") × Authorizes a s
  Describes (address_with_delegates a) kind s =
      (kind ≡ codes "ADDRESS_WITH_DELEGATES") × Authorizes a s
  Describes (credentials_other n) kind s = (kind ≡ codes "UNKNOWN_" ++ decimal_int n) × (s ≡ [])

  -- The two arrays have one element for each entry, in order.
  abbrev pub Describe : List AuthorizationEntry → List Text → List Text → Type 0
  Describe [] [] [] = Unit
  Describe (entry ∷ entries) (t ∷ types) (s ∷ addresses) =
      Describes entry.credentials t s × Describe entries types addresses
  Describe _ _ _ = ⊥

  -- Without entries both arrays are missing.
  abbrev pub HasCredentials : List AuthorizationEntry → OperationData → Type 0
  HasCredentials [] graph =
      (graph.soroban_auth_credentials_types ≡ none) × (graph.soroban_auth_addresses ≡ none)
  HasCredentials (entry ∷ entries) graph =
      (types : List Text) × (addresses : List Text) × (graph.soroban_auth_credentials_types
        ≡ some types)
      × (graph.soroban_auth_addresses ≡ some addresses)
      × Describe (entry ∷ entries) types addresses

  -- The entries are those of the operation's invocation.
  abbrev pub OfBody : OperationBody → OperationData → Type 0
  OfBody (invoke_host_function invocation) graph = HasCredentials invocation.op.auth graph
  OfBody _ graph = HasCredentials [] graph

  abbrev pub OfOperations : List Operation → List OperationRow → Type 0
  OfOperations [] [] = Unit
  OfOperations (op ∷ ops) (row ∷ rows) = OfBody op.body row.call_graph × OfOperations ops rows
  OfOperations _ _ = ⊥

  abbrev pub OfTransactions : List OperationTransaction → List OperationRow → Type 0
  OfTransactions [] rows = rows ≡ []
  OfTransactions (tx ∷ txs) rows =
      (own : List OperationRow) × (later : List OperationRow) × (rows ≡ own ++ later)
      × OfOperations tx.operations own
      × OfTransactions txs later

  describe-Describes : (c : Credentials) → Describes c (describe sdk c).0 (describe sdk c).1
  unfolding describe address_or_empty
  describe-Describes c = ground arith

  map-Describe :
      (entries : List AuthorizationEntry)
      → Describe entries (map (kind_of sdk) entries) (map (authorizer_of sdk) entries)
  unfolding kind_of authorizer_of
  map-Describe [] = tt
  map-Describe (entry ∷ entries) = (describe-Describes entry.credentials, map-Describe entries)

  credentials-HasCredentials :
      (auth : List AuthorizationEntry) (graph : OperationData)
      → graph.soroban_auth_credentials_types ≡ (extract_auth_credentials sdk auth).0
      → graph.soroban_auth_addresses ≡ (extract_auth_credentials sdk auth).1
      → HasCredentials auth graph
  unfolding extract_auth_credentials
  credentials-HasCredentials [] graph types addresses = (types, addresses)
  credentials-HasCredentials (entry ∷ entries) graph types addresses =
      let same = (extract_auth_credentials_lem sdk entry entries).1 in
      (
        _,
        _,
        types ∙ ap (λ p. p.0) same,
        addresses ∙ ap (λ p. p.1) same,
        map-Describe (entry ∷ entries),
      )

module _ (sdk : OperationSdk) (input : LedgerInput) where
  of_invocation :
      (events : Result (List DiagnosticEvent)) (invocation : InvokeOp) (skipped : ℕ)
      → HasCredentials sdk.base invocation.op.auth
          (graph_columns sdk input events (some invocation) skipped).0
  unfolding graph_columns
  of_invocation events invocation skipped =
      let (types, addresses) =
        (integrate_call_graph_lem sdk.base sdk.marshal_calls events (some invocation.op) no_graph
          skipped).0 in
      credentials-HasCredentials sdk.base invocation.op.auth
        (graph_columns sdk input events (some invocation) skipped).0 types addresses

  graph_columns-OfBody :
      (events : Result (List DiagnosticEvent)) (body : OperationBody) (skipped : ℕ)
      → OfBody sdk.base body (graph_columns sdk input events (invocation_of body) skipped).0
  unfolding graph_columns
  graph_columns-OfBody events (invoke_host_function invocation) skipped =
      of_invocation events invocation skipped
  graph_columns-OfBody events _ skipped = (refl, refl)

  operations_rows-OfOperations :
      (tx : OperationTransaction) (tx_index i : ℕ) (ops : List Operation) (skipped : ℕ)
      → OfOperations sdk.base ops (operations_rows sdk input tx tx_index i ops skipped).0
  unfolding operations_rows operation_row
  operations_rows-OfOperations tx tx_index i [] skipped = tt
  operations_rows-OfOperations tx tx_index i (op ∷ ops) skipped = (
    graph_columns-OfBody tx.diagnostic_events op.body skipped,
    operations_rows-OfOperations tx tx_index (i + 1) ops _,
  )

  transactions_rows-OfTransactions :
      (tx_index : ℕ) (txs : List OperationTransaction) (skipped : ℕ)
      → OfTransactions sdk.base txs (transactions_rows sdk input tx_index txs skipped).0
  unfolding transactions_rows
  transactions_rows-OfTransactions tx_index [] skipped = refl
  transactions_rows-OfTransactions tx_index (tx ∷ txs) skipped = (
    (operations_rows sdk input tx tx_index 0 tx.operations skipped).0,
    _,
    refl,
    operations_rows-OfOperations tx tx_index 0 tx.operations skipped,
    transactions_rows-OfTransactions ((tx_index + 1) % 2 ^ 32) txs _,
  )

  -- There is one row for each operation, in order, and its credentials columns are those of this
  -- operation: if it is an invocation with authorization entries, the two arrays have one element
  -- for each of its entries, in order, the kind of its credentials and the address of its
  -- authorizer, empty where there is none; otherwise both arrays are missing.
  pub extract_operations-OfTransactions :
      (txs : List OperationTransaction) (skipped : ℕ)
      → (rows : List OperationRow) × ((extract_operations sdk input (ok txs) skipped).0 ≡ ok rows)
        × OfTransactions sdk.base txs rows
  unfolding extract_operations
  extract_operations-OfTransactions txs skipped =
      (_, refl, transactions_rows-OfTransactions 1 txs skipped)
