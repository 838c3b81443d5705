-- ===== src/Tests/Extract.antt =====
-- Examples of extract.go.
use stellar_extract.Prelude.{
  ℕ, ◌≡◌, none, Text, text_ordered, if◌then◌else◌, ◌==◌, List, [], ◌∷◌, map,
}
use stellar_extract.Go.Strings.{codes}
use stellar_extract.Go.Maps.{get}
use stellar_extract.Go.Slices.{contains}
use stellar_extract.Extract.{
  Outcome, extracted, failed, panicked, LedgerData, no_data, extractors, tasks_of, ExtractAll,
}
use stellar_extract.Xdr.{ok, err}
use stellar_extract.Extract.Cached.{Stream, Call, call_transactions, call_changes, calls, unasked}
use stellar_extract.Extract.Cached.Answers.{expected, calls_lem}
use stellar_extract.Extract.Interleaved.{
  count, rows_if, messages, in_turn, in_turn-Runs, ExtractAll_lem,
}

-- One extractor fails and one panics; the rows are numbers.
abbrev outcome : Text → Outcome ℕ
outcome name =
    if name == codes "trades"
    then failed (codes "no results")
    else if name == codes "effects"
    then panicked (codes "nil")
    else extracted 3

abbrev result : LedgerData ℕ
result = in_turn (tasks_of outcome extractors) no_data

returned : ExtractAll outcome result
returned = unfold ExtractAll in in_turn-Runs (tasks_of outcome extractors) no_data

ExtractAll_lem_example :
    ((k : Text)
      → get k result.tables ≡ (if contains k extractors then rows_if (outcome k) else none))
    × ((e : Text) → count e result.errs ≡ count e (messages (tasks_of outcome extractors)))
ExtractAll_lem_example = ExtractAll_lem outcome result returned

-- Transactions whose second reading fails, and changes that cannot be read at all.
abbrev tx_stream : Stream ℕ
tx_stream = ok (ok 4 ∷ err (codes "bad") ∷ ok 5 ∷ [])

abbrev change_stream : Stream ℕ
change_stream = err (codes "closed")

abbrev three_calls : List Call
three_calls = call_transactions ∷ call_changes ∷ call_transactions ∷ []

calls_lem_example :
    let made = calls tx_stream change_stream three_calls unasked in
    (made.0 ≡ map (expected tx_stream change_stream) three_calls)
    × (made.1.transactions.walks ≡ 1)
    × (made.1.changes.walks ≡ 1)
calls_lem_example = calls_lem tx_stream change_stream three_calls
