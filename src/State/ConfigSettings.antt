-- ===== src/State/ConfigSettings.antt =====
-- state.go, types_state.go: `ExtractConfigSettings`.
pub mod Rows
use stellar_extract.Prelude.{
  ℕ, Bool, true, false, Option, none, some, List, [], ◌∷◌, if◌then◌else◌, Text,
}
use stellar_extract.Go.Ints.{ℤ, to_i32, int_ordered}
use stellar_extract.Go.Strings.{base64_encode}
use stellar_extract.Ordering.{sorted_map_values}
use stellar_extract.Ordering.Snapshot.{nothing, collect}
use stellar_extract.Xdr.{Result, ok, err}
use stellar_extract.Xdr.Ledger.{
  Entry, ConfigSettingEntry, ContractCompute, ContractLedgerCost, contract_max_size_bytes,
  contract_compute, contract_ledger_cost, contract_ledger_cost_ext, config_setting_other, Change,
  ttl_change, config_setting_change, other_change, LedgerInput,
}

pub record ConfigSettingData : Type 0 where
  pub config_setting_id : ℤ
  pub ledger_sequence : ℕ
  pub last_modified_ledger : ℤ
  pub deleted : Bool
  pub closed_at : ℕ
  pub ledger_max_instructions : Option ℤ
  pub tx_max_instructions : Option ℤ
  pub fee_rate_per_instructions_increment : Option ℤ
  pub tx_memory_limit : Option ℕ
  pub ledger_max_read_ledger_entries : Option ℕ
  pub ledger_max_read_bytes : Option ℕ
  pub ledger_max_write_ledger_entries : Option ℕ
  pub ledger_max_write_bytes : Option ℕ
  pub tx_max_read_ledger_entries : Option ℕ
  pub tx_max_read_bytes : Option ℕ
  pub tx_max_write_ledger_entries : Option ℕ
  pub tx_max_write_bytes : Option ℕ
  pub tx_max_footprint_entries : Option ℕ
  pub contract_max_size_bytes : Option ℕ
  pub config_setting_xdr : Text
  pub created_at : ℕ
  pub ledger_range : ℕ
  pub era_id : Option Text

unfoldable pub is_config_setting_change : Change → Bool
is_config_setting_change (config_setting_change none none) = false
is_config_setting_change (config_setting_change pre post) = true
is_config_setting_change _ = false

unfoldable pub parse_config_setting_fields :
    ConfigSettingEntry → ConfigSettingData → ConfigSettingData
parse_config_setting_fields (ConfigSettingEntry.contract_max_size_bytes v) data' = record data' {
  contract_max_size_bytes = some v;
}
parse_config_setting_fields (contract_compute v) data' = record data' {
  ledger_max_instructions = some v.ledger_max_instructions;
  tx_max_instructions = some v.tx_max_instructions;
  fee_rate_per_instructions_increment = some v.fee_rate_per_instructions_increment;
  tx_memory_limit = some v.tx_memory_limit;
}
parse_config_setting_fields (contract_ledger_cost v) data' = record data' {
  ledger_max_read_ledger_entries = some v.ledger_max_disk_read_entries;
  ledger_max_read_bytes = some v.ledger_max_disk_read_bytes;
  ledger_max_write_ledger_entries = some v.ledger_max_write_ledger_entries;
  ledger_max_write_bytes = some v.ledger_max_write_bytes;
  tx_max_read_ledger_entries = some v.tx_max_disk_read_entries;
  tx_max_read_bytes = some v.tx_max_disk_read_bytes;
  tx_max_write_ledger_entries = some v.tx_max_write_ledger_entries;
  tx_max_write_bytes = some v.tx_max_write_bytes;
}
parse_config_setting_fields (contract_ledger_cost_ext v) data' = record data' {
  tx_max_footprint_entries = some v;
}
parse_config_setting_fields (config_setting_other id) data' = data'

-- the SDK's `ConfigSettingId` and `MarshalBinary`
module _ (setting_id : ConfigSettingEntry → ℤ) (marshal : ConfigSettingEntry → Result Text) where
  unfoldable pub encode_config_setting_xdr : ConfigSettingEntry → Text
  unfolding base64_encode
  encode_config_setting_xdr entry = elim (marshal entry) [
    | err e ↦ []
    | ok bytes ↦ base64_encode bytes
  ]

  module _ (clock : ℕ → ℕ) (input : LedgerInput) where
    config_setting_data : ℕ → Bool → Entry ConfigSettingEntry → ConfigSettingData
    unfolding encode_config_setting_xdr parse_config_setting_fields
    config_setting_data reading deleted entry = parse_config_setting_fields entry.body (record {
      config_setting_id = setting_id entry.body;
      ledger_sequence = input.sequence;
      last_modified_ledger = to_i32 entry.last_modified_ledger_seq;
      deleted = deleted;
      closed_at = input.closed_at;
      ledger_max_instructions = none;
      tx_max_instructions = none;
      fee_rate_per_instructions_increment = none;
      tx_memory_limit = none;
      ledger_max_read_ledger_entries = none;
      ledger_max_read_bytes = none;
      ledger_max_write_ledger_entries = none;
      ledger_max_write_bytes = none;
      tx_max_read_ledger_entries = none;
      tx_max_read_bytes = none;
      tx_max_write_ledger_entries = none;
      tx_max_write_bytes = none;
      tx_max_footprint_entries = none;
      contract_max_size_bytes = none;
      config_setting_xdr = encode_config_setting_xdr entry.body;
      created_at = clock reading;
      ledger_range = input.ledger_range;
      era_id = input.era_id;
    })

    setting_chosen : ℕ → Change → Option ConfigSettingData
    unfolding config_setting_data
    setting_chosen reading (config_setting_change pre (some post)) =
        some (config_setting_data reading false post)
    setting_chosen reading (config_setting_change (some pre) none) =
        some (config_setting_data reading true pre)
    setting_chosen reading _ = none

    unfoldable pub config_setting_row : ℕ → Change → Option ConfigSettingData
    unfolding is_config_setting_change setting_chosen
    config_setting_row reading change =
        if is_config_setting_change change then setting_chosen reading change else none

    unfoldable pub extract_config_settings : Result (List Change) → List ConfigSettingData
    unfolding config_setting_row collect sorted_map_values
    extract_config_settings (err e) = []
    extract_config_settings (ok changes) =
        sorted_map_values
          (collect (λ r. r.config_setting_id) config_setting_row changes nothing).entries
