-- ===== src/Tests/Rows.antt =====
-- Examples of state.go, evicted_keys.go and contract_error.go.
use stellar_extract.Prelude.{ℕ, ◌≡◌, none, some, List, [], ◌∷◌, Text, text_ordered}
use stellar_extract.Go.Ints.{int_ordered}
use stellar_extract.Go.Strings.{codes}
use stellar_extract.Ordering.Snapshot.Table.{IsTableOf}
use stellar_extract.Xdr.{Result, ok, err}
use stellar_extract.Xdr.Values.{scv_symbol, scv_error, sce_contract, address_contract}
use stellar_extract.Xdr.Ledger.{Entry, TtlEntry, Change, ttl_change, other_change}
use stellar_extract.CallGraph.Names.{DiagnosticEvent}
use stellar_extract.State.Ttl.{ttl_row, extract_ttl}
use stellar_extract.State.Ttl.Rows.{readable, extract_ttl-IsTableOf}
use stellar_extract.State
use stellar_extract.EvictedKeys
use stellar_extract.EvictedKeys.{
  contract_data_key, contract_code_key, other_key, LedgerCloseMeta, meta_v2, KeySdk, evicted_row,
  extract_evicted_keys,
}
use stellar_extract.EvictedKeys.Rows.{evicted_in, extract_evicted_keys-IsTableOf}
use stellar_extract.ContractError.{contract_error_facts}
use stellar_extract.ContractError.First.{
  all_values, first_error, facts_or_none, contract_error_facts-first,
}
use stellar_extract.Tests.Data.{clock, input, event_of}

abbrev marshal_hash : Text → Result Text
marshal_hash hash = ok hash

abbrev ttl_entry : Text → ℕ → Entry TtlEntry
ttl_entry hash live = record {
  last_modified_ledger_seq = 40;
  body = record { key_hash = hash; live_until_ledger_seq = live };
}

-- One entry is extended twice, another one is deleted; one transaction cannot be read.
abbrev txs : List (Result (List Change))
txs =
    ok (
      ttl_change (some (ttl_entry (codes "k") 60)) (some (ttl_entry (codes "k") 70))
      ∷ other_change
      ∷ [])
    ∷ err (codes "no changes")
    ∷ ok (
        ttl_change (some (ttl_entry (codes "k") 70)) (some (ttl_entry (codes "k") 90))
        ∷ ttl_change (some (ttl_entry (codes "j") 45)) none
        ∷ [])
    ∷ []

extract_ttl-IsTableOf_example :
    IsTableOf
      (λ r. r.key_hash)
      (State.Ttl.Rows.shown marshal_hash)
      State.Ttl.Rows.shown_hash
      (State.Ttl.Rows.RowOf input)
      (readable txs)
      (extract_ttl clock marshal_hash input (ok txs))
extract_ttl-IsTableOf_example = extract_ttl-IsTableOf clock marshal_hash input txs

abbrev key_sdk : KeySdk
key_sdk = record {
  marshal_key = λ k. ok (codes "key");
  marshal_address = λ a. ok (codes "address");
  marshal_val = λ v. ok (codes "val");
  marshal_hash = λ h. ok h;
  val_type_string = λ t. codes "ScvSymbol";
  key_type_string = λ n. codes "other";
  sha256 = λ bytes. bytes;
}

abbrev lcm : LedgerCloseMeta
lcm = meta_v2 (
    contract_data_key (
      some (record {
        contract = address_contract (some (codes "C"));
        key = scv_symbol (some (codes "x"));
      }))
    ∷ contract_code_key (some (codes "hash"))
    ∷ other_key 9
    ∷ [])

extract_evicted_keys-IsTableOf_example :
    IsTableOf
      (λ r. r.key_hash)
      (EvictedKeys.Rows.shown key_sdk)
      (EvictedKeys.Rows.shown_hash key_sdk)
      (EvictedKeys.Rows.RowOf key_sdk input)
      (evicted_in lcm)
      (extract_evicted_keys key_sdk clock input lcm)
extract_evicted_keys-IsTableOf_example = extract_evicted_keys-IsTableOf key_sdk input clock lcm

abbrev failed : List DiagnosticEvent
failed =
    event_of (codes "A") (scv_symbol (some (codes "fn_call")) ∷ [])
    ∷ event_of (codes "B") (
        scv_symbol (some (codes "error"))
        ∷ scv_error
            (some (record { error_type = sce_contract; code = none; contract_code = some 12 }))
        ∷ [])
    ∷ []

contract_error_facts-first_example :
    contract_error_facts (ok failed) ≡ facts_or_none (first_error (all_values failed))
contract_error_facts-first_example = contract_error_facts-first failed
