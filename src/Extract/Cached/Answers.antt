-- ===== src/Extract/Cached/Answers.antt =====
-- Every call of `Transactions` and `Changes` has the same answer, from one walk at most.
use stellar_extract.Prelude.{
  ◌≡◌, refl, ap, ◌∙◌, Bool, true, false, ◌||◌, if◌then◌else◌, Option, none, some, List, [], ◌∷◌,
  ◌++◌, append_assoc, append-nil, map, Text,
}
use stellar_extract.Xdr.{Result, ok, err}
use stellar_extract.Extract.Cached.{
  Cache, Stream, read_loop, walk, do_once, Caches, Answer, transactions_answer, changes_answer,
  Call, call_transactions, call_changes, unread, after, answer, calls, create_transaction_reader,
  read_transaction, create_change_reader, read_change, unasked,
}

module _ {R : Type 0} (create_words read_words : Text) where
  -- The readings before the first error, and that error.
  abbrev pub before_error : List (Result R) → List R
  before_error [] = []
  before_error (err e ∷ readings) = []
  before_error (ok r ∷ readings) = r ∷ before_error readings

  abbrev pub first_error : List (Result R) → Option Text
  first_error [] = none
  first_error (err e ∷ readings) = some (read_words ++ e)
  first_error (ok r ∷ readings) = first_error readings

  abbrev pub rows_of : Stream R → List R
  rows_of (err e) = []
  rows_of (ok readings) = before_error readings

  abbrev pub failure_of : Stream R → Option Text
  failure_of (err e) = some (create_words ++ e)
  failure_of (ok readings) = first_error readings

  abbrev walked : Stream R → Cache R
  walked stream = record {
    once = true;
    rows = rows_of stream;
    failure = failure_of stream;
    walks = 1;
  }

  read_loop_lem :
      (readings : List (Result R)) (rows : List R)
      → read_loop create_words read_words readings
          (record { once = true; rows = rows; failure = none; walks = 1 })
        ≡ record {
          once = true;
          rows = rows ++ before_error readings;
          failure = first_error readings;
          walks = 1;
        }
  unfolding read_loop
  read_loop_lem [] rows = rw (append-nil rows) refl
  read_loop_lem (err e ∷ readings) rows = rw (append-nil rows) refl
  read_loop_lem (ok r ∷ readings) rows =
      read_loop_lem readings (rows ++ r ∷ [])
      ∙ rw (append_assoc rows (r ∷ []) (before_error readings)) refl

  abbrev cache_if : Bool → Stream R → Cache R
  cache_if asked stream = if asked then walked stream else unread

  do_once-walked :
      (stream : Stream R) (asked : Bool)
      → do_once create_words read_words stream (cache_if asked stream) ≡ walked stream
  unfolding do_once walk
  do_once-walked stream true = refl
  do_once-walked (err e) false = refl
  do_once-walked (ok readings) false = read_loop_lem readings []

  walks_if :
      (stream : Stream R) (asked : Bool)
      → (cache_if (asked || false) stream).walks ≡ (if asked then 1 else 0)
  walks_if stream true = refl
  walks_if stream false = refl

-- Whether a call is for the transactions, and whether it is for the changes.
abbrev pub is_for_transactions : Call → Bool
is_for_transactions call_transactions = true
is_for_transactions call_changes = false

abbrev pub is_for_changes : Call → Bool
is_for_changes call_transactions = false
is_for_changes call_changes = true

abbrev pub any : (Call → Bool) → List Call → Bool
any p [] = false
any p (c ∷ cs) = p c || any p cs

or-turn : (a b c : Bool) → b || (a || c) ≡ (a || b) || c
or-turn true true c = refl
or-turn true false c = refl
or-turn false true c = refl
or-turn false false c = refl

module _ {T C : Type 0} (tx_stream : Stream T) (change_stream : Stream C) where
  -- The one answer that a call may have.
  abbrev pub expected : Call → Answer T C
  expected call_transactions =
      transactions_answer (rows_of create_transaction_reader read_transaction tx_stream)
        (failure_of create_transaction_reader read_transaction tx_stream)
  expected call_changes =
      changes_answer (rows_of create_change_reader read_change change_stream)
        (failure_of create_change_reader read_change change_stream)

  -- The caches after calls for the streams that are asked for.
  abbrev caches_if : Bool → Bool → Caches T C
  caches_if txs chs = record {
    transactions = cache_if create_transaction_reader read_transaction txs tx_stream;
    changes = cache_if create_change_reader read_change chs change_stream;
  }

  after_lem :
      (c : Call) (txs chs : Bool)
      → after tx_stream change_stream c (caches_if txs chs)
        ≡ caches_if (is_for_transactions c || txs) (is_for_changes c || chs)
  unfolding after
  after_lem call_transactions txs chs =
      ap (λ s. record (caches_if txs chs) { transactions = s })
        (do_once-walked create_transaction_reader read_transaction tx_stream txs)
  after_lem call_changes txs chs =
      ap (λ s. record (caches_if txs chs) { changes = s })
        (do_once-walked create_change_reader read_change change_stream chs)

  answer_lem :
      (c : Call) (txs chs : Bool)
      → answer tx_stream change_stream c
          (caches_if (is_for_transactions c || txs) (is_for_changes c || chs))
        ≡ expected c
  unfolding answer
  answer_lem call_transactions txs chs = refl
  answer_lem call_changes txs chs = refl

  calls_from :
      (cs : List Call) (txs chs : Bool)
      → calls tx_stream change_stream cs (caches_if txs chs) ≡ (
        map expected cs,
        caches_if (any is_for_transactions cs || txs) (any is_for_changes cs || chs),
      )
  unfolding calls
  calls_from [] txs chs = refl
  calls_from (c ∷ cs) txs chs =
      let txs' = is_for_transactions c || txs in
      let chs' = is_for_changes c || chs in
      rw
        (
          after_lem c txs chs,
          answer_lem c txs chs,
          calls_from cs txs' chs',
          or-turn (is_for_transactions c) (any is_for_transactions cs) txs,
          or-turn (is_for_changes c) (any is_for_changes cs) chs,
        )
        refl

  -- Whatever is called and in whatever order, every call for a stream has the answer of the stream
  -- itself: its rows before the first error, with that error. A stream is walked once if it is
  -- called for, and not otherwise.
  pub calls_lem :
      (cs : List Call)
      → let made = calls tx_stream change_stream cs unasked in
        (made.0 ≡ map expected cs)
        × (made.1.transactions.walks ≡ (if any is_for_transactions cs then 1 else 0))
        × (made.1.changes.walks ≡ (if any is_for_changes cs then 1 else 0))
  calls_lem cs =
      let made : calls tx_stream change_stream cs unasked ≡ _ = calls_from cs false false in
      (
        ap (λ r. r.0) made,
        ap (λ r. r.1.transactions.walks) made
            ∙ walks_if create_transaction_reader read_transaction tx_stream
                (any is_for_transactions cs),
        ap (λ r. r.1.changes.walks) made
            ∙ walks_if create_change_reader read_change change_stream (any is_for_changes cs),
      )
