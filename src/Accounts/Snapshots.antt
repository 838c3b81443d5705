-- ===== src/Accounts/Snapshots.antt =====
-- accounts.go, types_accounts.go: `ExtractAccounts`.
use stellar_extract.Prelude.{
  arith, ℕ, ◌≡◌, Bool, Option, none, some, List, [], ◌∷◌, Text, text_ordered, map, if◌then◌else◌,
  ◌==◌,
}
use stellar_extract.Go.Ints.{ℤ}
use stellar_extract.Ordering.{sorted_map_values}
use stellar_extract.Ordering.Snapshot.{nothing, collect, OfSome, IsSnapshotOf, collect_lem}
use stellar_extract.ScVal.Integers.{to_u64}
use stellar_extract.Xdr.{Result, ok, err}
use stellar_extract.Xdr.Ledger.{LedgerInput}
use stellar_extract.Accounts.{
  Signer, AccountEntry, AccountChange, account_change, has_flag, num_sponsoring_of,
  num_sponsored_of,
}

pub record AccountData : Type 0 where
  pub account_id : Text
  pub ledger_sequence : ℕ
  pub closed_at : ℕ
  pub balance : Text
  pub sequence_number : ℕ
  pub sequence_ledger : ℕ
  pub sequence_time : ℕ
  pub num_subentries : ℕ
  pub num_sponsoring : ℕ
  pub num_sponsored : ℕ
  pub home_domain : Option Text
  pub master_weight : ℕ
  pub low_threshold : ℕ
  pub med_threshold : ℕ
  pub high_threshold : ℕ
  pub flags : ℕ
  pub auth_required : Bool
  pub auth_revocable : Bool
  pub auth_immutable : Bool
  pub auth_clawback_enabled : Bool
  pub signers : Option Text
  pub sponsor_account : Option Text
  pub created_at : ℕ
  pub updated_at : ℕ
  pub ledger_range : ℕ
  pub era_id : Option Text

-- the JSON fields `key` and `weight`
pub record SignerData : Type 0 where
  pub key : Text
  pub weight : ℕ

abbrev signer_data : Signer → SignerData
signer_data s = record { key = s.key_address; weight = s.weight }

abbrev home_domain_of : Text → Option Text
home_domain_of domain = if domain == [] then none else some domain

-- `Address` of an account id, `amount.String` and `json.Marshal` are not this program's.
module _ (address_of : Text → Text) (amount_string : ℤ → Text)
    (marshal : List SignerData → Result Text) (clock : ℕ → ℕ) (input : LedgerInput) where
  signers_json : List Signer → Option Text
  signers_json [] = none
  signers_json (s ∷ ss) = elim (marshal (map signer_data (s ∷ ss))) [
    | err e ↦ none
    | ok json ↦ some json
  ]

  unfoldable pub extract_account_data : ℕ → AccountEntry → AccountData
  unfolding signers_json
  extract_account_data reading entry = record {
    account_id = address_of entry.account_id;
    ledger_sequence = input.sequence;
    closed_at = input.closed_at;
    balance = amount_string entry.balance;
    sequence_number = to_u64 entry.seq_num;
    sequence_ledger = entry.seq_ledger;
    sequence_time = entry.seq_time;
    num_subentries = entry.num_sub_entries;
    num_sponsoring = num_sponsoring_of entry;
    num_sponsored = num_sponsored_of entry;
    home_domain = home_domain_of entry.home_domain;
    master_weight = entry.master_weight;
    low_threshold = entry.low_threshold;
    med_threshold = entry.med_threshold;
    high_threshold = entry.high_threshold;
    flags = entry.flags;
    auth_required = has_flag 1 entry.flags;
    auth_revocable = has_flag 2 entry.flags;
    auth_immutable = has_flag 4 entry.flags;
    auth_clawback_enabled = has_flag 8 entry.flags;
    signers = signers_json entry.signers;
    sponsor_account = none;
    created_at = clock reading;
    updated_at = clock reading;
    ledger_range = input.ledger_range;
    era_id = input.era_id;
  }

  -- the body of the loop; an account that is removed has no entry after the change
  unfoldable pub account_row : ℕ → AccountChange → Option AccountData
  unfolding extract_account_data
  account_row reading (account_change pre (some post)) =
      some (extract_account_data reading post.body)
  account_row reading _ = none

  unfoldable pub extract_accounts : Result (List AccountChange) → List AccountData
  unfolding account_row collect sorted_map_values
  extract_accounts (err e) = []
  extract_accounts (ok changes) =
      sorted_map_values (collect (λ r. r.account_id) account_row changes nothing).entries

  -- The row of an account as it stands after the change.
  pub record IsAccountRow (entry : AccountEntry) (row : AccountData) : Type 0 where
    pub id : row.account_id ≡ address_of entry.account_id
    pub holds : row.balance ≡ amount_string entry.balance
    pub sequence : row.sequence_number ≡ to_u64 entry.seq_num
    pub sponsors : row.num_sponsoring ≡ num_sponsoring_of entry
    pub is_sponsored : row.num_sponsored ≡ num_sponsored_of entry
    pub required : row.auth_required ≡ has_flag 1 row.flags
    pub revocable : row.auth_revocable ≡ has_flag 2 row.flags
    pub immutable : row.auth_immutable ≡ has_flag 4 row.flags
    pub clawback : row.auth_clawback_enabled ≡ has_flag 8 row.flags
    pub of_ledger : row.ledger_sequence ≡ input.sequence

  abbrev pub AccountRowOf : AccountChange → AccountData → Type 0
  AccountRowOf (account_change pre (some post)) row = IsAccountRow post.body row
  AccountRowOf _ row = ⊥

  account_row-AccountRowOf :
      (n : ℕ) (change : AccountChange)
      → OfSome (λ r. r.account_id) (AccountRowOf change) (account_row n change)
  unfolding account_row extract_account_data
  account_row-AccountRowOf n change = ground arith

  -- The account rows hold the state of each account after its last change that leaves it in place,
  -- in increasing order of the account ids, and each is the row of an account that a change leaves
  -- in place.
  pub extract_accounts_lem :
      (changes : List AccountChange)
      → IsSnapshotOf
          (λ r. r.account_id)
          account_row
          AccountRowOf
          changes
          (extract_accounts (ok changes))
  unfolding extract_accounts
  extract_accounts_lem =
      collect_lem (λ r. r.account_id) account_row AccountRowOf account_row-AccountRowOf
