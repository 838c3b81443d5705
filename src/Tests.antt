-- ===== src/Tests.antt =====
-- The theorems at concrete inputs.
mod Data
mod Graph
mod Accounts
mod Effects
mod Operations
mod Transactions
mod View
mod Calls
mod Rows
mod Soroban
mod Storage
mod Transfers
mod Trades
mod Extract
mod Ledgers
