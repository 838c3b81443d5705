-- ===== src/Accounts/NativeBalances.antt =====
-- accounts.go, types_accounts.go: `ExtractNativeBalances`.
use stellar_extract.Prelude.{
  arith, ℕ, ◌≡◌, Option, none, some, List, [], Text, text_ordered, if◌then◌else◌,
}
use stellar_extract.Go.Ints.{ℤ, pos, to_i32, int_lt}
use stellar_extract.Ordering.{sorted_map_values}
use stellar_extract.Ordering.Snapshot.{OfSome, IsSnapshotOf, nothing, collect, collect_lem}
use stellar_extract.Xdr.{Result, ok, err}
use stellar_extract.Xdr.Ledger.{Entry, LedgerInput}
use stellar_extract.Accounts.{
  Liabilities, AccountEntry, AccountChange, account_change, num_sponsoring_of, num_sponsored_of,
}

pub record NativeBalanceData : Type 0 where
  pub account_id : Text
  pub balance : ℤ
  pub buying_liabilities : ℤ
  pub selling_liabilities : ℤ
  pub num_subentries : ℤ
  pub num_sponsoring : ℤ
  pub num_sponsored : ℤ
  pub sequence_number : Option ℤ
  pub last_modified_ledger : ℕ
  pub ledger_sequence : ℕ
  pub ledger_range : ℕ
  pub era_id : Option Text

abbrev pub liabilities_of : AccountEntry → Liabilities
liabilities_of entry = elim entry.ext [
  | none ↦ record { buying = pos 0; selling = pos 0 }
  | some v1 ↦ v1.liabilities
]

abbrev pub positive_or_none : ℤ → Option ℤ
positive_or_none n = if int_lt (pos 0) n then some n else none

module _ (address_of : Text → Text) (input : LedgerInput) where
  native_balance_data : Entry AccountEntry → NativeBalanceData
  native_balance_data entry = record {
    account_id = address_of entry.body.account_id;
    balance = entry.body.balance;
    buying_liabilities = (liabilities_of entry.body).buying;
    selling_liabilities = (liabilities_of entry.body).selling;
    num_subentries = to_i32 entry.body.num_sub_entries;
    num_sponsoring = to_i32 (num_sponsoring_of entry.body);
    num_sponsored = to_i32 (num_sponsored_of entry.body);
    sequence_number = positive_or_none entry.body.seq_num;
    last_modified_ledger = entry.last_modified_ledger_seq;
    ledger_sequence = input.sequence;
    ledger_range = input.ledger_range;
    era_id = input.era_id;
  }

  -- the body of the loop: the entry after the change, or else the one before it
  unfoldable pub native_balance_row : ℕ → AccountChange → Option NativeBalanceData
  unfolding native_balance_data
  native_balance_row reading (account_change pre (some post)) = some (native_balance_data post)
  native_balance_row reading (account_change (some pre) none) = some (native_balance_data pre)
  native_balance_row reading _ = none

  unfoldable pub extract_native_balances : Result (List AccountChange) → List NativeBalanceData
  unfolding native_balance_row collect sorted_map_values
  extract_native_balances (err e) = []
  extract_native_balances (ok changes) =
      sorted_map_values (collect (λ r. r.account_id) native_balance_row changes nothing).entries

  pub record IsNativeBalanceRow (entry : Entry AccountEntry) (row : NativeBalanceData)
      : Type 0 where
    pub id : row.account_id ≡ address_of entry.body.account_id
    pub holds : row.balance ≡ entry.body.balance
    pub buying : row.buying_liabilities ≡ (liabilities_of entry.body).buying
    pub selling : row.selling_liabilities ≡ (liabilities_of entry.body).selling
    pub sequence : row.sequence_number ≡ positive_or_none entry.body.seq_num
    pub modified : row.last_modified_ledger ≡ entry.last_modified_ledger_seq
    pub of_ledger : row.ledger_sequence ≡ input.sequence

  -- A row is made from the entry after the change, or, of a removal, from the entry before it.
  abbrev pub NativeBalanceRowOf : AccountChange → NativeBalanceData → Type 0
  NativeBalanceRowOf (account_change pre (some post)) row = IsNativeBalanceRow post row
  NativeBalanceRowOf (account_change (some pre) none) row = IsNativeBalanceRow pre row
  NativeBalanceRowOf _ row = ⊥

  native_balance_row-NativeBalanceRowOf :
      (n : ℕ) (change : AccountChange)
      → OfSome (λ r. r.account_id) (NativeBalanceRowOf change) (native_balance_row n change)
  unfolding native_balance_row native_balance_data
  native_balance_row-NativeBalanceRowOf n change = ground arith

  -- The rows hold the balance of each account after its last change, an account that is removed
  -- included, which keeps the balance from before its removal; they come in increasing order of the
  -- account ids, and each is the row of an account of a change.
  pub extract_native_balances_lem :
      (changes : List AccountChange)
      → IsSnapshotOf
          (λ r. r.account_id)
          native_balance_row
          NativeBalanceRowOf
          changes
          (extract_native_balances (ok changes))
  unfolding extract_native_balances
  extract_native_balances_lem =
      collect_lem (λ r. r.account_id) native_balance_row NativeBalanceRowOf
        native_balance_row-NativeBalanceRowOf
