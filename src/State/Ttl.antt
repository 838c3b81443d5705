-- ===== src/State/Ttl.antt =====
-- state.go, types_state.go: `ExtractTTL`.
pub mod Rows
use stellar_extract.Prelude.{
  ℕ, Bool, true, false, Option, none, some, List, [], ◌∷◌, if◌then◌else◌, Text, text_ordered, leb,
}
use stellar_extract.Go.Ints.{ℤ, pos, negsuc, sub_ℕ, to_i32}
use stellar_extract.Go.Strings.{hex_encode}
use stellar_extract.Ordering.{sorted_map_values}
use stellar_extract.Ordering.Snapshot.{Collected, nothing, collect}
use stellar_extract.Xdr.{Result, ok, err}
use stellar_extract.Xdr.Ledger.{
  Entry, TtlEntry, Change, ttl_change, config_setting_change, other_change, LedgerInput,
}

pub record TtlData : Type 0 where
  pub key_hash : Text
  pub ledger_sequence : ℕ
  pub live_until_ledger_seq : ℕ
  pub ttl_remaining : ℤ
  pub expired : Bool
  pub last_modified_ledger : ℤ
  pub deleted : Bool
  pub closed_at : ℕ
  pub created_at : ℕ
  pub ledger_range : ℕ
  pub era_id : Option Text

-- `n <= 0`
abbrev pub not_positive : ℤ → Bool
not_positive (pos n) = leb n 0
not_positive (negsuc n) = true

unfoldable pub is_ttl_change : Change → Bool
is_ttl_change (ttl_change none none) = false
is_ttl_change (ttl_change pre post) = true
is_ttl_change _ = false

-- `clock n` is the n-th reading of `time.Now()`; `marshal_hash` is `Hash.MarshalBinary`, the SDK's
module _ (clock : ℕ → ℕ) (marshal_hash : Text → Result Text) (input : LedgerInput) where
  ttl_data : ℕ → Bool → Entry TtlEntry → Text → TtlData
  ttl_data reading deleted entry key_hash_bytes =
      let live_until = entry.body.live_until_ledger_seq in
      let remaining = sub_ℕ live_until input.sequence in
      record {
        key_hash = hex_encode key_hash_bytes;
        ledger_sequence = input.sequence;
        live_until_ledger_seq = live_until;
        ttl_remaining = remaining;
        expired = not_positive remaining;
        last_modified_ledger = to_i32 entry.last_modified_ledger_seq;
        deleted = deleted;
        closed_at = input.closed_at;
        created_at = clock reading;
        ledger_range = input.ledger_range;
        era_id = input.era_id;
      }

  -- a key hash that cannot be marshalled gives no row
  ttl_from_hash : ℕ → Bool → Entry TtlEntry → Result Text → Option TtlData
  unfolding ttl_data
  ttl_from_hash reading deleted entry (err e) = none
  ttl_from_hash reading deleted entry (ok bytes) = some (ttl_data reading deleted entry bytes)

  -- from the choice of the entry to the end of the loop's body
  ttl_entry_row : ℕ → Bool → Entry TtlEntry → Option TtlData
  unfolding ttl_from_hash
  ttl_entry_row reading deleted entry =
      ttl_from_hash reading deleted entry (marshal_hash entry.body.key_hash)

  ttl_chosen : ℕ → Change → Option TtlData
  unfolding ttl_entry_row
  ttl_chosen reading (ttl_change pre (some post)) = ttl_entry_row reading false post
  ttl_chosen reading (ttl_change (some pre) none) = ttl_entry_row reading true pre
  ttl_chosen reading _ = none

  unfoldable pub ttl_row : ℕ → Change → Option TtlData
  unfolding is_ttl_change ttl_chosen
  ttl_row reading change = if is_ttl_change change then ttl_chosen reading change else none

  -- the loop over the transactions, each with its changes or the error of `GetChanges`
  ttl_transactions : List (Result (List Change)) → Collected Text TtlData → Collected Text TtlData
  unfolding ttl_row collect
  ttl_transactions [] s = s
  ttl_transactions (err e ∷ txs) s = ttl_transactions txs s
  ttl_transactions (ok changes ∷ txs) s =
      ttl_transactions txs (collect (λ r. r.key_hash) ttl_row changes s)

  unfoldable pub extract_ttl : Result (List (Result (List Change))) → List TtlData
  unfolding ttl_transactions sorted_map_values
  extract_ttl (err e) = []
  extract_ttl (ok txs) = sorted_map_values (ttl_transactions txs nothing).entries
