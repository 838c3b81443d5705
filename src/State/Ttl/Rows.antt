-- ===== src/State/Ttl/Rows.antt =====
-- The TTL rows of a ledger.
use stellar_extract.Prelude.{
  Bool, Option, ℕ, ◌≤◌, ◌≡◌, ◌↔◌, refl, true, false, none, some, List, [], ◌∷◌, ◌++◌, arith, Text,
  text_ordered, ◌∙◌, sym,
}
use stellar_extract.Go.Ints.{to_i32, sub_ℕ}
use stellar_extract.Go.Strings.{hex_encode}
use stellar_extract.Ordering.Snapshot.{Collected, nothing, collect, collect-append}
use stellar_extract.Ordering.Snapshot.Table.{IsTableOf, Matches, collect-IsTableOf}
use stellar_extract.Xdr.{Result, ok, err}
use stellar_extract.Xdr.Ledger.{
  Entry, TtlEntry, Change, ttl_change, config_setting_change, other_change, LedgerInput,
}
use stellar_extract.State.Ttl.{
  config_setting_change, ttl_chosen, is_ttl_change, TtlData, not_positive, ttl_data, ttl_from_hash,
  ttl_entry_row, ttl_row, ttl_transactions, extract_ttl,
}

-- The changes of the transactions whose changes can be read, in order.
abbrev pub readable : List (Result (List Change)) → List Change
readable [] = []
readable (err e ∷ txs) = readable txs
readable (ok changes ∷ txs) = changes ++ readable txs

-- What a change shows, where the SDK can marshal the hash of the entry: the entry after the change,
-- or of a deletion the one before it, whether it is deleted, and the bytes of its hash.
abbrev pub Shown : Type 0
Shown = Bool × Entry TtlEntry × Text

abbrev hashed : Bool → Entry TtlEntry → Result Text → Option Shown
hashed deleted entry (ok bytes) = some (deleted, entry, bytes)
hashed deleted entry (err e) = none

abbrev pub shown : (Text → Result Text) → Change → Option Shown
shown marshal_hash (ttl_change pre (some post)) =
    hashed false post (marshal_hash post.body.key_hash)
shown marshal_hash (ttl_change (some pre) none) = hashed true pre (marshal_hash pre.body.key_hash)
shown marshal_hash _ = none

abbrev pub shown_hash : Shown → Text
shown_hash (deleted, entry, bytes) = hex_encode bytes

-- The row of an entry in a ledger: it is expired exactly if it does not live beyond the ledger, and
-- the time left is the difference of the two sequence numbers.
pub record IsTtlRow (input : LedgerInput) (deleted : Bool) (entry : Entry TtlEntry) (row : TtlData)
    : Type 0 where
  pub removed : row.deleted ≡ deleted
  pub living : row.live_until_ledger_seq ≡ entry.body.live_until_ledger_seq
  pub modified : row.last_modified_ledger ≡ to_i32 entry.last_modified_ledger_seq
  pub of_ledger : row.ledger_sequence ≡ input.sequence
  pub closed : row.closed_at ≡ input.closed_at
  pub in_range : row.ledger_range ≡ input.ledger_range
  pub of_era : row.era_id ≡ input.era_id
  pub remaining : row.ttl_remaining ≡ sub_ℕ entry.body.live_until_ledger_seq input.sequence
  pub expired_iff : (row.expired ≡ true) ↔ (entry.body.live_until_ledger_seq ≤ input.sequence)

abbrev pub RowOf : LedgerInput → Shown → TtlData → Type 0
RowOf input (deleted, entry, bytes) row = IsTtlRow input deleted entry row

not_positive-sub_ℕ : (a b : ℕ) → (not_positive (sub_ℕ a b) ≡ true) ↔ (a ≤ b)
not_positive-sub_ℕ a b = ground arith

module _ (clock : ℕ → ℕ) (marshal_hash : Text → Result Text) (input : LedgerInput) where
  from_hash :
      (n : ℕ) (deleted : Bool) (entry : Entry TtlEntry) (r : Result Text)
      → Matches
          (λ r. r.key_hash)
          (λ s v. RowOf input s v × (v.key_hash ≡ shown_hash s))
          (hashed deleted entry r)
          (ttl_from_hash clock marshal_hash input n deleted entry r)
  unfolding ttl_from_hash ttl_data
  from_hash n deleted entry (err e) = tt
  from_hash n deleted entry (ok bytes) = ground arith

  ttl_row-Matches :
      (n : ℕ) (change : Change)
      → Matches
          (λ r. r.key_hash)
          (λ s v. RowOf input s v × (v.key_hash ≡ shown_hash s))
          (shown marshal_hash change)
          (ttl_row clock marshal_hash input n change)
  unfolding ttl_row is_ttl_change ttl_chosen ttl_entry_row
  ttl_row-Matches n (ttl_change none none) = tt
  ttl_row-Matches n (ttl_change (some pre) none) =
      from_hash n true pre (marshal_hash pre.body.key_hash)
  ttl_row-Matches n (ttl_change none (some post)) =
      from_hash n false post (marshal_hash post.body.key_hash)
  ttl_row-Matches n (ttl_change (some pre) (some post)) =
      from_hash n false post (marshal_hash post.body.key_hash)
  ttl_row-Matches n (config_setting_change pre post) = tt
  ttl_row-Matches n other_change = tt

  abbrev collect_ttl : List Change → Collected Text TtlData → Collected Text TtlData
  collect_ttl = collect (λ r. r.key_hash) (ttl_row clock marshal_hash input)

  transactions_nil :
      (s : Collected Text TtlData)
      → ttl_transactions clock marshal_hash input [] s ≡ collect_ttl [] s
  unfolding ttl_transactions collect
  transactions_nil s = refl

  transactions_err :
      (e : Text) (txs : List (Result (List Change))) (s : Collected Text TtlData)
      → ttl_transactions clock marshal_hash input (err e ∷ txs) s
        ≡ ttl_transactions clock marshal_hash input txs s
  unfolding ttl_transactions
  transactions_err e txs s = refl

  transactions_ok :
      (changes : List Change) (txs : List (Result (List Change))) (s : Collected Text TtlData)
      → ttl_transactions clock marshal_hash input (ok changes ∷ txs) s
        ≡ ttl_transactions clock marshal_hash input txs (collect_ttl changes s)
  unfolding ttl_transactions
  transactions_ok changes txs s = refl

  ttl_transactions-collect :
      (txs : List (Result (List Change))) (s : Collected Text TtlData)
      → ttl_transactions clock marshal_hash input txs s ≡ collect_ttl (readable txs) s
  ttl_transactions-collect [] s = transactions_nil s
  ttl_transactions-collect (err e ∷ txs) s =
      transactions_err e txs s ∙ ttl_transactions-collect txs s
  ttl_transactions-collect (ok changes ∷ txs) s =
      transactions_ok changes txs s
      ∙ ttl_transactions-collect txs (collect_ttl changes s)
      ∙ sym (
          collect-append (λ r. r.key_hash) (ttl_row clock marshal_hash input) changes (readable txs)
            s)

  -- Of all TTL changes of a ledger, in the order of its transactions, the last one for each key
  -- hash makes the row of that hash, and the rows come in increasing order of their key hashes. A
  -- change counts if the hash of its entry can be marshalled; its entry is the one after it, or the
  -- one before it if it deletes the entry, which the row tells. The time left and the expiry of a row
  -- are those of its entry at the ledger's sequence number.
  pub extract_ttl-IsTableOf :
      (txs : List (Result (List Change)))
      → IsTableOf
          (λ r. r.key_hash)
          (shown marshal_hash)
          shown_hash
          (RowOf input)
          (readable txs)
          (extract_ttl clock marshal_hash input (ok txs))
  extract_ttl-IsTableOf txs =
      unfold extract_ttl in
      rw (ttl_transactions-collect txs nothing) (
        collect-IsTableOf (λ r. r.key_hash) (shown marshal_hash) shown_hash (RowOf input)
          (ttl_row clock marshal_hash input) ttl_row-Matches (readable txs))
