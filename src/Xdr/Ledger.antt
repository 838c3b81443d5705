-- ===== src/Xdr/Ledger.antt =====
-- Ledger entry changes as the extractors read them, and the input that every extractor is given.
use stellar_extract.Prelude.{ℕ, Option, Text}
use stellar_extract.Go.Ints.{ℤ}

-- xdr.LedgerEntry around the data of one entry type.
pub record Entry (D : Type 0) : Type 0 where
  pub last_modified_ledger_seq : ℕ
  pub body : D

-- xdr.TtlEntry
pub record TtlEntry : Type 0 where
  pub key_hash : Text
  pub live_until_ledger_seq : ℕ

-- the settings that are promoted to columns
pub record ContractCompute : Type 0 where
  pub ledger_max_instructions : ℤ
  pub tx_max_instructions : ℤ
  pub fee_rate_per_instructions_increment : ℤ
  pub tx_memory_limit : ℕ

pub record ContractLedgerCost : Type 0 where
  pub ledger_max_disk_read_entries : ℕ
  pub ledger_max_disk_read_bytes : ℕ
  pub ledger_max_write_ledger_entries : ℕ
  pub ledger_max_write_bytes : ℕ
  pub tx_max_disk_read_entries : ℕ
  pub tx_max_disk_read_bytes : ℕ
  pub tx_max_write_ledger_entries : ℕ
  pub tx_max_write_bytes : ℕ

-- xdr.ConfigSettingEntry: a constructor for each arm that is read; the other arms have their id.
pub data ConfigSettingEntry : Type 0 where
  contract_max_size_bytes : ℕ → ConfigSettingEntry
  contract_compute : ContractCompute → ConfigSettingEntry
  contract_ledger_cost : ContractLedgerCost → ConfigSettingEntry
  contract_ledger_cost_ext : ℕ → ConfigSettingEntry
  config_setting_other : ℤ → ConfigSettingEntry

-- ingest.Change: the entry before and after. Both are of the change's type.
pub data Change : Type 0 where
  ttl_change : Option (Entry TtlEntry) → Option (Entry TtlEntry) → Change
  config_setting_change :
      Option (Entry ConfigSettingEntry) → Option (Entry ConfigSettingEntry) → Change
  other_change : Change

-- extract.go: the fields of `LedgerInput` that are copied into rows. A time is a number.
pub record LedgerInput : Type 0 where
  pub sequence : ℕ
  pub closed_at : ℕ
  pub ledger_range : ℕ
  pub era_id : Option Text
