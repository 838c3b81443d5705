-- ===== src/State/ConfigSettings/Rows.antt =====
-- The config setting rows of a ledger.
use stellar_extract.Prelude.{arith, ℕ, ◌≡◌, Bool, true, false, none, some, List, Text}
use stellar_extract.Go.Ints.{ℤ, int_ordered, to_i32}
use stellar_extract.Ordering.Snapshot.{collect_lem, OfSome, IsSnapshotOf}
use stellar_extract.Xdr.{Result, ok}
use stellar_extract.Xdr.Ledger.{
  Entry, ConfigSettingEntry, contract_compute, contract_ledger_cost, contract_ledger_cost_ext,
  Change, config_setting_change, LedgerInput,
}
use stellar_extract.State.ConfigSettings.{
  ConfigSettingData, config_setting_data, config_setting_row, extract_config_settings,
}

-- The columns of one kind of setting: those of the entry's own kind hold its values, and the rest
-- hold nothing.
pub record Promotes (entry : ConfigSettingEntry) (row : ConfigSettingData) : Type 0 where
  pub size :
      row.contract_max_size_bytes
      ≡ elim entry [ ConfigSettingEntry.contract_max_size_bytes v ↦ some v | _ ↦ none ]
  pub instructions :
      row.ledger_max_instructions
      ≡ elim entry [ contract_compute v ↦ some v.ledger_max_instructions | _ ↦ none ]
  pub memory :
      row.tx_memory_limit ≡ elim entry [ contract_compute v ↦ some v.tx_memory_limit | _ ↦ none ]
  pub read_entries :
      row.ledger_max_read_ledger_entries
      ≡ elim entry [ contract_ledger_cost v ↦ some v.ledger_max_disk_read_entries | _ ↦ none ]
  pub write_bytes :
      row.tx_max_write_bytes
      ≡ elim entry [ contract_ledger_cost v ↦ some v.tx_max_write_bytes | _ ↦ none ]
  pub footprint :
      row.tx_max_footprint_entries ≡ elim entry [ contract_ledger_cost_ext v ↦ some v | _ ↦ none ]

-- A row of the entry after a change, or, of a deletion, of the entry before it.
pub record RowOfEntry (setting_id : ConfigSettingEntry → ℤ) (deletion : Bool)
    (entry : Entry ConfigSettingEntry) (row : ConfigSettingData) : Type 0 where
  pub id : row.config_setting_id ≡ setting_id entry.body
  pub deleted : row.deleted ≡ deletion
  pub modified : row.last_modified_ledger ≡ to_i32 entry.last_modified_ledger_seq
  pub columns : Promotes entry.body row

abbrev pub RowOf : (ConfigSettingEntry → ℤ) → Change → ConfigSettingData → Type 0
RowOf setting_id (config_setting_change pre (some post)) row = RowOfEntry setting_id false post row
RowOf setting_id (config_setting_change (some pre) none) row = RowOfEntry setting_id true pre row
RowOf setting_id _ row = ⊥

module _ (setting_id : ConfigSettingEntry → ℤ) (marshal : ConfigSettingEntry → Result Text)
    (clock : ℕ → ℕ) (input : LedgerInput) where
  config_setting_row-RowOf :
      (n : ℕ) (change : Change)
      → OfSome
          (λ r. r.config_setting_id)
          (RowOf setting_id change)
          (config_setting_row setting_id marshal clock input n change)
  unfolding config_setting_row config_setting_data
  config_setting_row-RowOf n change = ground arith

  -- The last change of each config setting makes its row, the rows come in increasing order of
  -- the setting ids, and each is made from the entry after a change, or, of a deletion, from the
  -- entry before it, with the promoted columns of its own kind of setting alone.
  pub extract_config_settings_lem :
      (changes : List Change)
      → IsSnapshotOf
          (λ r. r.config_setting_id)
          (config_setting_row setting_id marshal clock input)
          (RowOf setting_id)
          changes
          (extract_config_settings setting_id marshal clock input (ok changes))
  unfolding extract_config_settings
  extract_config_settings_lem =
      collect_lem (λ r. r.config_setting_id) (config_setting_row setting_id marshal clock input)
        (RowOf setting_id) config_setting_row-RowOf
