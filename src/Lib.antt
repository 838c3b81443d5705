-- ===== src/Lib.antt =====
-- stellar-extract turns the XDR of a closed Stellar ledger into rows of typed tables. Each extractor
-- (`ExtractTTL`, `ExtractTokenTransfers`, …) reads the ledger's transactions or changes and gives
-- the rows of one table. The extractors share three mechanisms. A snapshot extractor stores a row
-- under its key in a Go map, so that the last change of a key wins, and hands the rows out in key
-- order (ordering.go), since Go ranges over maps in random order. Contract values go through one
-- converter to JSON (scval_converter.go). The rows of operations that invoke contracts have columns
-- for the call graph (call_graph.go), which is put together from the diagnostic events and from the
-- authorization entries.
--
-- The modules:
--   * Prelude: the shared names, Boolean tests, lists, and ordered types with their equality.
--   * Go: what is used of Go and its standard library. Ints has the signed integers (`int32(n)` of a
--     uint32 is `to_i32`), Strings byte strings with `%d`, hexadecimal and base64 text, Maps the
--     built-in maps, Slices `slices.Sort`.
--   * Ordering: ordering.go. Canonical shows that the order of a range over a map cannot be seen;
--     Snapshot is the loop that the snapshot extractors share.
--   * Xdr: the XDR values as far as they are read, the SDK functions that are called, and the fields
--     of extract.go's `LedgerInput` that are copied into rows.
--   * ScVal: scval_converter.go. Json is the `interface{}` that it builds, Integers the 128- and
--     256-bit numbers, Addresses `convertScAddress`, Convert `ConvertScValToJSON`.
--   * CallGraph: call_graph.go. FnName is `findFnNameRecursive`, Names what is read of one event,
--     Calls `deduplicateCalls`, Events `extractCrossContractCallsFromDiagnosticEvents`, Auth
--     `extractCallsFromAuthEntries`, Credentials `extractAuthCredentials`, Extract
--     `extractCallGraph`, `callGraphToJSON` and `integrateCallGraph`.
--   * State: state.go, with `ExtractTTL` in Ttl and `ExtractConfigSettings` in ConfigSettings.
--   * EvictedKeys: evicted_keys.go. ContractError: contract_error.go. TokenTransfers:
--     token_transfers.go.
--   * Trades: trades.go. Market: market.go, with `ExtractOffers`, `ExtractClaimableBalances` and
--     `ExtractLiquidityPools`. Wasm: `parseWASMMetadata` and `decodeLEB128` of soroban.go.
--   * Soroban: the extractors of soroban.go. Bodies is `extractEventBody`, Events
--     `ExtractContractEvents`, with `ExtractContractEventsView` in View, ContractData
--     `ExtractContractData`, ContractCode `ExtractContractCode`, RestoredKeys `ExtractRestoredKeys`
--     and Creations `ExtractContractCreations`.
--   * Ledgers: ledgers.go.
--   * Transactions: transactions.go. The parent and Invocation have the helpers that operation rows
--     use, Memo, Encoded, FeeBump, Preconditions and Declared the groups of columns, Rows
--     `ExtractTransactions`.
--   * Operations: operations.go. Columns is the switch on the operation's type, Rows
--     `ExtractOperations`, around `integrateCallGraph`.
--   * Accounts: accounts.go. Snapshots has `ExtractAccounts`, Trustlines `ExtractTrustlines`, Signers
--     `ExtractAccountSigners` and NativeBalances `ExtractNativeBalances`.
--   * Effects: effects.go. Types and Names have the effect types, Details the helpers, Trades, Pools,
--     Signers, Entries and Contracts the effects of the operations, Sponsorship those that any
--     operation can have, Operations the switch on the operation's type, Rows `ExtractEffects`. Named
--     goes through all of them for the types that they give.
--   * Extract: extract.go, `NewLedgerInput` and `ExtractAll`. The extractors run at the same time
--     and each takes the lock once, at its end, so a run is an order in which they end. Cached has
--     `Transactions` and `Changes`, each a `sync.Once`; Interleaved has what every order gives;
--     View has view_input.go and `NewLedgerInputFromXDR`.
--   * Tests: the theorems at concrete inputs.
--
-- How the code is rendered. A function keeps its name, in snake case; a loop is a recursion over the
-- list that is ranged over, with the loop's variables as arguments or in a record; `(value, error)`
-- is `Result`, a nil pointer is `none`. A Go map is the list of its entries in the order in which one
-- range visits them, so a statement about all lists covers all orders. The call stack is a list with
-- its top first. A uint32 that is counted wraps at 2 ^ 32; ledger sequences, depths and indexes into
-- slices are natural numbers, `math/big` is exact. Every recursion is on the structure of its
-- argument, except for two that take fuel: the digits of a number, with one step more than the
-- number, which each step divides by ten, and the sections of a WebAssembly module, with a step for
-- each byte, of which each step uses two at least.
--
-- Parameters. The SDK (`strkey.Encode`, the `String`, `Get` and `MarshalBinary` methods,
-- `GetTransactionEvents`, `EventsFromLedger`, `toid`, package sac), `sha256`, `encoding/json`, base64
-- decoding, floating-point amounts and the clock are arguments. No theorem assumes anything of them,
-- but for two, which say so: that a view of a ledger reads what its decoding holds, and that the bytes
-- of the events in views of transactions unmarshal to the events of the decoded ledger. The n-th
-- reading of `time.Now()` is `clock n`, counted within one call.
--
-- Taken for granted: an XDR union that is decoded has the arm of its discriminant, where the code
-- does not test for it; the optional vector or map inside an `ScvVec` or `ScvMap` arm that is set is
-- present; a change's entries before and after it have one type, and one of the two is there where it
-- is the change of a pool; a pool is of the one type that XDR has; and an operation's result has the
-- type of the operation, and is a success in a transaction that succeeded.
--
-- Not modelled: the log, which nothing reads; and that a view borrows the bytes that it was made
-- from.
pub mod Prelude
pub mod Go
pub mod Ordering
pub mod Xdr
pub mod ScVal
pub mod Soroban
pub mod CallGraph
pub mod State
pub mod EvictedKeys
pub mod ContractError
pub mod TokenTransfers
pub mod Trades
pub mod Accounts
pub mod Transactions
pub mod Operations
pub mod Market
pub mod Effects
pub mod Extract
pub mod Ledgers
pub mod Wasm
mod Tests
