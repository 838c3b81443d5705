-- ===== src/Accounts.antt =====
-- accounts.go: what the four extractors read of account and trust line entries.
pub mod Snapshots
pub mod Trustlines
pub mod Signers
pub mod NativeBalances
use stellar_extract.Prelude.{ℕ, ◌/◌, ◌%◌, Bool, Option, none, some, List, Text, ◌==◌, nat_ordered}
use stellar_extract.Go.Ints.{ℤ}
use stellar_extract.Xdr.Ledger.{Entry}
use stellar_extract.Trades.{XdrAsset}

-- xdr.Signer: the strkey text of its key, and its weight
pub record Signer : Type 0 where
  pub key_address : Text
  pub weight : ℕ

-- xdr.Liabilities
pub record Liabilities : Type 0 where
  pub buying : ℤ
  pub selling : ℤ

-- xdr.AccountEntryExtensionV2
pub record AccountV2 : Type 0 where
  pub num_sponsored : ℕ
  pub num_sponsoring : ℕ
  pub signer_sponsoring_ids : List (Option Text)

-- xdr.AccountEntryExtensionV1, with its own extension
pub record AccountV1 : Type 0 where
  pub liabilities : Liabilities
  pub ext : Option AccountV2

-- xdr.AccountEntry, with what its methods `SeqLedger` and `SeqTime` give
pub record AccountEntry : Type 0 where
  pub account_id : Text
  pub balance : ℤ
  pub seq_num : ℤ
  pub num_sub_entries : ℕ
  pub home_domain : Text
  pub master_weight : ℕ
  pub low_threshold : ℕ
  pub med_threshold : ℕ
  pub high_threshold : ℕ
  pub flags : ℕ
  pub signers : List Signer
  pub ext : Option AccountV1
  pub seq_ledger : ℕ
  pub seq_time : ℕ

-- xdr.TrustLineEntry
pub record TrustLineEntry : Type 0 where
  pub account_id : Text
  pub asset : XdrAsset
  pub balance : ℤ
  pub limit : ℤ
  pub flags : ℕ
  pub ext : Option Liabilities

-- ingest.Change: the entries before and after it
pub data AccountChange : Type 0 where
  account_change : (pre post : Option (Entry AccountEntry)) → AccountChange
  trustline_change : (post : Option TrustLineEntry) → AccountChange
  other_change : AccountChange

-- `flags & bit != 0`, for a power of two
abbrev pub has_flag : ℕ → ℕ → Bool
has_flag bit flags = flags / bit % 2 == 1

-- `GetV2` behind `GetV1`
abbrev pub v2_of : AccountEntry → Option AccountV2
v2_of entry = elim entry.ext [ none ↦ none | some v1 ↦ v1.ext ]

abbrev pub num_sponsoring_of : AccountEntry → ℕ
num_sponsoring_of entry = elim (v2_of entry) [ none ↦ 0 | some v2 ↦ v2.num_sponsoring ]

abbrev pub num_sponsored_of : AccountEntry → ℕ
num_sponsored_of entry = elim (v2_of entry) [ none ↦ 0 | some v2 ↦ v2.num_sponsored ]
