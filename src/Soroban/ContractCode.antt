-- ===== src/Soroban/ContractCode.antt =====
-- soroban.go, types_soroban.go: `ExtractContractCode`.
pub mod Outcome
use stellar_extract.Prelude.{
  Option-cases, ℕ, ◌≡◌, ◌⊎◌, inl, inr, refl, arith, Bool, true, false, Option, none, some, List, [],
  ◌∷◌, Text, text_ordered, All,
}
use stellar_extract.Go.Ints.{ℤ, pos, to_i32}
use stellar_extract.Go.Strings.{hex_encode}
use stellar_extract.Ordering.{sorted_map_values}
use stellar_extract.Ordering.Members.{Among}
use stellar_extract.Ordering.Snapshot.{
  Collected, nothing, store, collect, OfSome, IsSnapshotOf, collect_lem,
}
use stellar_extract.Wasm.{WasmMetadata, Parse, parsed, panicked, out_of_fuel, parse_wasm_metadata}
use stellar_extract.Wasm.Sections.{Ends, parse_wasm_metadata-Ends}
use stellar_extract.Xdr.{Result, ok, err}
use stellar_extract.Xdr.Ledger.{Entry, LedgerInput}

-- xdr.ContractCodeEntry; `has_v1` says that its extension is of version 1 and set.
pub record ContractCodeEntry : Type 0 where
  pub hash : Text
  pub code : Text
  pub has_v1 : Bool

-- ingest.Change, with its `Type`; the entries are contract code.
pub data CodeChange : Type 0 where
  contract_code_change :
      ℤ → Option (Entry ContractCodeEntry) → Option (Entry ContractCodeEntry) → CodeChange
  no_code_change : CodeChange

pub record ContractCodeData : Type 0 where
  pub contract_code_hash : Text
  pub ledger_key_hash : Text
  pub contract_code_ext_v : ℤ
  pub last_modified_ledger : ℤ
  pub ledger_entry_change : ℤ
  pub deleted : Bool
  pub closed_at : ℕ
  pub ledger_sequence : ℕ
  pub wasm : WasmMetadata
  pub created_at : ℕ
  pub ledger_range : ℕ
  pub era_id : Option Text

-- the variables that the choice of the entry sets
pub record CodeOf : Type 0 where
  pub change_type : ℤ
  pub deleted : Bool
  pub entry : Entry ContractCodeEntry

-- the entry after the change, or else the one before it
abbrev pub code_of_change : CodeChange → Option CodeOf
code_of_change (contract_code_change t pre (some post)) =
    some (record { change_type = t; deleted = false; entry = post })
code_of_change (contract_code_change t (some pre) none) =
    some (record { change_type = t; deleted = true; entry = pre })
code_of_change _ = none

abbrev pub ext_v : Bool → ℤ
ext_v true = pos 1
ext_v false = pos 0

-- `key_bytes` is `LedgerKey` with its `MarshalBinary`, the SDK's.
module _ (key_bytes : Entry ContractCodeEntry → Result Text) (clock : ℕ → ℕ)
    (input : LedgerInput) where
  abbrev pub key_or_empty : Result Text → Text
  key_or_empty (err e) = []
  key_or_empty (ok bytes) = hex_encode bytes

  pub code_data : ℕ → CodeOf → WasmMetadata → ContractCodeData
  unfolding hex_encode
  code_data reading c wasm = record {
    contract_code_hash = hex_encode c.entry.body.hash;
    ledger_key_hash = key_or_empty (key_bytes c.entry);
    contract_code_ext_v = ext_v c.entry.body.has_v1;
    last_modified_ledger = to_i32 c.entry.last_modified_ledger_seq;
    ledger_entry_change = c.change_type;
    deleted = c.deleted;
    closed_at = input.closed_at;
    ledger_sequence = input.sequence;
    wasm = wasm;
    created_at = clock reading;
    ledger_range = input.ledger_range;
    era_id = input.era_id;
  }

  -- The loop. The metadata of a module may panic, and the extractor with it.
  pub code_loop :
      List CodeChange → Collected Text ContractCodeData → Option (Collected Text ContractCodeData)
  unfolding code_data parse_wasm_metadata
  code_loop [] s = some s
  code_loop (change ∷ changes) s = elim (code_of_change change) [
    | none ↦ code_loop changes s
    | some c ↦ elim (parse_wasm_metadata c.entry.body.code) [
      | parsed wasm ↦
          code_loop changes
            (store (λ r. r.contract_code_hash) (some (code_data s.readings c wasm)) s)
      | panicked ↦ none
      | out_of_fuel ↦ none
    ]
  ]

  abbrev sorted_rows : Option (Collected Text ContractCodeData) → Option (List ContractCodeData)
  sorted_rows none = none
  sorted_rows (some s) = some (sorted_map_values s.entries)

  -- nothing of a panic
  unfoldable pub extract_contract_code : Result (List CodeChange) → Option (List ContractCodeData)
  unfolding code_loop sorted_map_values
  extract_contract_code (err e) = some []
  extract_contract_code (ok changes) = sorted_rows (code_loop changes nothing)
