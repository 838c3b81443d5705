-- ===== src/Extract/Cached.antt =====
-- extract.go: `Transactions` and `Changes`, which walk the ledger once and keep what they find. A
-- `sync.Once` lets one call at a time in, so the calls of all extractors form one sequence.
pub mod Answers
use stellar_extract.Prelude.{
  ℕ, ◌+◌, ◌≤◌, ◌≡◌, refl, sym, ap, ◌∙◌, Bool, true, false, if◌then◌else◌, Option, none, some, List,
  [], ◌∷◌, ◌++◌, append_assoc, append-nil, map, arith, ◌⊎◌, inl, inr, Text,
}
use stellar_extract.Go.Strings.{codes}
use stellar_extract.Xdr.{Result, ok, err}

-- `once`, the slice and the error of one stream; `walks` counts the readers that were asked for.
pub record Cache (R : Type 0) : Type 0 where
  pub once : Bool
  pub rows : List R
  pub failure : Option Text
  pub walks : ℕ

-- What the SDK's reader gives: an error instead of a reader, or the readings up to `io.EOF`.
abbrev pub Stream : Type 0 → Type 0
Stream R = Result (List (Result R))

module _ {R : Type 0} (create_words read_words : Text) where
  -- the loop around `reader.Read()`
  unfoldable pub read_loop : List (Result R) → Cache R → Cache R
  read_loop [] s = s
  read_loop (err e ∷ readings) s = record s { failure = some (read_words ++ e) }
  read_loop (ok r ∷ readings) s = read_loop readings (record s { rows = s.rows ++ r ∷ [] })

  unfoldable pub walk : Stream R → Cache R → Cache R
  unfolding read_loop
  walk (err e) s = record s { failure = some (create_words ++ e) }
  walk (ok readings) s = read_loop readings s

  -- `once.Do`
  unfoldable pub do_once : Stream R → Cache R → Cache R
  unfolding walk
  do_once stream s =
      if s.once then s else walk stream (record s { once = true; walks = s.walks + 1 })

-- The two caches of a `LedgerInput`, for transactions `T` and changes `C`.
pub record Caches (T C : Type 0) : Type 0 where
  pub transactions : Cache T
  pub changes : Cache C

pub data Answer (T C : Type 0) : Type 0 where
  transactions_answer : List T → Option Text → Answer T C
  changes_answer : List C → Option Text → Answer T C

pub data Call : Type 0 where
  call_transactions call_changes : Call

-- what a `LedgerInput` begins with
abbrev pub unread : {R : Type 0} → Cache R
unread = record { once = false; rows = []; failure = none; walks = 0 }

abbrev pub unasked : {T C : Type 0} → Caches T C
unasked = record { transactions = unread; changes = unread }

-- the texts in which `fmt.Errorf` wraps an error
abbrev pub create_transaction_reader : Text
create_transaction_reader = codes "create transaction reader: "

abbrev pub read_transaction : Text
read_transaction = codes "read transaction: "

abbrev pub create_change_reader : Text
create_change_reader = codes "create change reader: "

abbrev pub read_change : Text
read_change = codes "read change: "

module _ {T C : Type 0} (tx_stream : Stream T) (change_stream : Stream C) where
  unfoldable pub after : Call → Caches T C → Caches T C
  unfolding do_once
  after call_transactions s = record s {
    transactions = do_once create_transaction_reader read_transaction tx_stream s.transactions;
  }
  after call_changes s = record s {
    changes = do_once create_change_reader read_change change_stream s.changes;
  }

  unfoldable pub answer : Call → Caches T C → Answer T C
  answer call_transactions s = transactions_answer s.transactions.rows s.transactions.failure
  answer call_changes s = changes_answer s.changes.rows s.changes.failure

  -- The answers of a sequence of calls, and the caches that it leaves.
  unfoldable pub calls : List Call → Caches T C → List (Answer T C) × Caches T C
  unfolding after answer
  calls [] s = ([], s)
  calls (c ∷ cs) s = let s' = after c s in let rest = calls cs s' in (answer c s' ∷ rest.0, rest.1)
