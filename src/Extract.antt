-- ===== src/Extract.antt =====
-- extract.go: `NewLedgerInput` and `ExtractAll`, whose extractors run at the same time.
pub mod Cached
pub mod Interleaved
pub mod View
use stellar_extract.Prelude.{
  ℕ, ◌≡◌, ◌+◌, ◌*◌, ◌/◌, ◌%◌, ◌≤◌, ◌<◌, Option, none, some, List, [], ◌∷◌, ◌++◌, Text, text_ordered,
  arith,
}
use stellar_extract.Go.Strings.{codes}
use stellar_extract.Go.Maps.{GoMap, put}
use stellar_extract.Xdr.Ledger.{LedgerInput}

-- the fields that are copied; the SDK reads the sequence number and the close time off the ledger
unfoldable pub new_ledger_input : ℕ → ℕ → LedgerInput
new_ledger_input seq closed_at = record {
  sequence = seq;
  closed_at = closed_at;
  ledger_range = seq / 10000 * 10000;
  era_id = none;
}

-- A ledger belongs to the range of 10000 ledgers that begins with its `LedgerRange`.
pub new_ledger_input_lem :
    (seq closed_at : ℕ)
    → let input = new_ledger_input seq closed_at in
      (input.ledger_range % 10000 ≡ 0)
      × (input.ledger_range ≤ seq)
      × (seq < input.ledger_range + 10000)
unfolding new_ledger_input
new_ledger_input_lem seq closed_at = (omega arith, omega arith, omega arith)

-- How an extractor ends: with its rows, with an error, or with a panic that is recovered.
pub data Outcome (R : Type 0) : Type 0 where
  extracted : R → Outcome R
  failed panicked : Text → Outcome R

-- `data`, with the rows of each table under the extractor's name, and `errs`
pub record LedgerData (R : Type 0) : Type 0 where
  pub tables : GoMap Text R
  pub errs : List Text

-- an extractor by its name, with how it ends
abbrev pub Task : Type 0 → Type 0
Task R = Text × Outcome R

-- the names that `collect` is called with
abbrev pub extractors : List Text
extractors =
    codes "ledgers"
    ∷ codes "transactions"
    ∷ codes "operations"
    ∷ codes "effects"
    ∷ codes "trades"
    ∷ codes "accounts"
    ∷ codes "trustlines"
    ∷ codes "account_signers"
    ∷ codes "offers"
    ∷ codes "claimable_balances"
    ∷ codes "liquidity_pools"
    ∷ codes "config_settings"
    ∷ codes "ttl"
    ∷ codes "native_balances"
    ∷ codes "contract_events"
    ∷ codes "contract_data"
    ∷ codes "contract_code"
    ∷ codes "contract_creations"
    ∷ codes "token_transfers"
    ∷ codes "evicted_keys"
    ∷ codes "restored_keys"
    ∷ []

-- `ts'` is `ts` without one of its elements.
pub data Pick {A : Type 0} (t : A) : List A → List A → Type 0 where
  first : {ts : List A} → Pick t (t ∷ ts) ts
  later : {u : A} {ts ts' : List A} → Pick t ts ts' → Pick t (u ∷ ts) (u ∷ ts')

module _ {R : Type 0} where
  abbrev pub no_data : LedgerData R
  no_data = record { tables = []; errs = [] }

  -- What an extractor does under the lock, at its end.
  unfoldable pub finish : Task R → LedgerData R → LedgerData R
  finish (name, extracted rows) s = record s { tables = put name rows s.tables }
  finish (name, failed e) s = record s { errs = s.errs ++ (name ++ (b':' ∷ b' ' ∷ e)) ∷ [] }
  finish (name, panicked e) s = record s {
    errs = s.errs ++ (codes "panic in " ++ (name ++ (b':' ∷ b' ' ∷ e))) ∷ [];
  }

  -- The runs of a set of extractors: they end in any order, one at a time because of the lock, and
  -- the wait group waits for all of them.
  pub data Runs : List (Task R) → LedgerData R → LedgerData R → Type 0 where
    all_done : {s : LedgerData R} → Runs [] s s
    one_ends :
        (t : Task R) {ts ts' : List (Task R)} {s s' : LedgerData R}
        → Pick t ts ts'
        → Runs ts' (finish t s) s'
        → Runs ts s s'

  abbrev pub tasks_of : (Text → Outcome R) → List Text → List (Task R)
  tasks_of outcome [] = []
  tasks_of outcome (name ∷ names) = (name, outcome name) ∷ tasks_of outcome names

  -- The results that `ExtractAll` may return.
  unfoldable pub ExtractAll : (Text → Outcome R) → LedgerData R → Type 0
  ExtractAll outcome s = Runs (tasks_of outcome extractors) no_data s
