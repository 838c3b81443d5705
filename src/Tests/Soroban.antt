-- ===== src/Tests/Soroban.antt =====
-- Examples of soroban.go.
use stellar_extract.Prelude.{
  ◌≡◌, ◌⊎◌, refl, arith, true, false, none, some, List, [], ◌∷◌, Text, text_ordered, All,
}
use stellar_extract.Go.Ints.{pos}
use stellar_extract.Go.Strings.{codes, hex_encode}
use stellar_extract.Ordering.Members.{Among}
use stellar_extract.Ordering.Snapshot.Table.{IsTableOf}
use stellar_extract.Soroban.Bodies.{
  EmittedEvent, EmittedDiagnostic, EventSdk, body_v0, event_contract,
}
use stellar_extract.Soroban.ContractCode.{
  CodeChange, contract_code_change, no_code_change, ContractCodeData, extract_contract_code,
}
use stellar_extract.Soroban.ContractCode.Outcome.{Panics, extract_contract_code-IsOutcome}
use stellar_extract.Soroban.ContractCode.Outcome
use stellar_extract.Soroban.RestoredKeys.Table
use stellar_extract.Soroban.RestoredKeys.Table.{extract_restored_keys-IsTableOf}
use stellar_extract.Soroban.Creations.{
  CreationTransaction, create_contract, create_contract_v2, executable_wasm,
  executable_stellar_asset, created_data, other_meta_change, meta_v3, extract_contract_creations,
}
use stellar_extract.Soroban.Creations.Made.{AreCreations, extract_contract_creations-AreCreations}
use stellar_extract.Soroban.Events.{EventTransaction, extract_contract_events}
use stellar_extract.Soroban.Events.Counted.{HaveDistinctIds}
use stellar_extract.Soroban.Events.Ids.{
  HaveDistinctHashes, HasCountable, extract_contract_events-HaveDistinctIds,
}
use stellar_extract.Soroban.Events.View.{TransactionView, Unmarshal, extract_contract_events_view}
use stellar_extract.Soroban.Events.View.Alike.{
  IsViewOf, AreViewsOf, extract_contract_events_view-alike,
}
use stellar_extract.Soroban.RestoredKeys.{
  KeyChange, RestoreSdk, persistent, temporary, restored_data, restored_ttl, extract_restored_keys,
}
use stellar_extract.Tests.Data.{clock, input, sdk}
use stellar_extract.Xdr.{ok}
use stellar_extract.Xdr.Values.{address_contract, scv_symbol, scv_u32}

abbrev event_sdk : EventSdk
event_sdk = record {
  values = sdk;
  marshal_event = λ e. ok (codes "event");
  marshal_val = λ v. ok (codes "val");
  marshal_texts = λ ts. ok (codes "[]");
  marshal_json = λ j. ok (codes "{}");
  toid = λ ledger tx op. tx;
}

abbrev emitted : Text → EmittedEvent
emitted contract = record {
  contract_id = some contract;
  event_type = event_contract;
  body = body_v0 (scv_symbol (some (codes "transfer")) ∷ []) (scv_u32 (some 7));
}

abbrev diagnosed : Text → EmittedDiagnostic
diagnosed contract = record { event = emitted contract; in_successful_contract_call = true }

abbrev with_events : Text → EventTransaction
with_events hash = record {
  transaction_hash = hash;
  successful = true;
  events = ok (record {
    diagnostic_events = diagnosed (codes "A") ∷ [];
    operation_events = (emitted (codes "B") ∷ []) ∷ (emitted (codes "C") ∷ []) ∷ [];
    transaction_events = emitted (codes "D") ∷ [];
  });
}

abbrev txs : List EventTransaction
txs = with_events (1 ∷ []) ∷ with_events (2 ∷ []) ∷ []

txs-HaveDistinctHashes : HaveDistinctHashes txs
unfolding hex_encode
txs-HaveDistinctHashes = (((λ e. ground arith), tt), (tt, tt))

txs-HasCountable : All HasCountable txs
txs-HasCountable = (omega arith, (omega arith, tt))

extract_contract_events-HaveDistinctIds_example :
    HaveDistinctIds (extract_contract_events event_sdk clock input (ok txs))
extract_contract_events-HaveDistinctIds_example =
    extract_contract_events-HaveDistinctIds event_sdk clock input txs txs-HaveDistinctHashes
      txs-HasCountable

-- The bytes of an event are the contract that emits it.
abbrev unmarshal : Unmarshal
unmarshal = record {
  diagnostic = λ raw. ok (diagnosed raw);
  contract = λ raw. ok (emitted raw);
  transaction = λ raw. ok (emitted raw);
}

abbrev view_of : Text → TransactionView
view_of hash = record {
  hash = hash;
  successful = true;
  diagnostic_events = codes "A" ∷ [];
  contract_events = (codes "B" ∷ []) ∷ (codes "C" ∷ []) ∷ [];
  transaction_events = codes "D" ∷ [];
}

abbrev views : List TransactionView
views = view_of (1 ∷ []) ∷ view_of (2 ∷ []) ∷ []

views-AreViewsOf : AreViewsOf unmarshal views txs
views-AreViewsOf = (of_hash (1 ∷ []), (of_hash (2 ∷ []), tt))
  where
    of_hash : (hash : Text) → IsViewOf unmarshal (view_of hash) (with_events hash)
    of_hash hash = record {
      same_hash = refl;
      same_success = refl;
      events = _;
      readable = refl;
      diagnostics = (refl, tt);
      operations = ((refl, tt), ((refl, tt), tt));
      transactions = (refl, tt);
    }

extract_contract_events_view-alike_example :
    extract_contract_events_view event_sdk unmarshal clock input (ok views)
    ≡ ok (extract_contract_events event_sdk clock input (ok txs))
extract_contract_events_view-alike_example =
    extract_contract_events_view-alike unmarshal event_sdk clock input views txs views-AreViewsOf

-- A module with an empty section of types, and one that is removed.
abbrev codes_changed : List CodeChange
codes_changed =
    contract_code_change (pos 7) none (
      some (record {
        last_modified_ledger_seq = 41;
        body = record {
          hash = codes "h";
          code = 0x00 ∷ 0x61 ∷ 0x73 ∷ 0x6D ∷ 1 ∷ 0 ∷ 0 ∷ 0 ∷ 1 ∷ 1 ∷ 0 ∷ [];
          has_v1 = true;
        };
      }))
    ∷ no_code_change
    ∷ contract_code_change (pos 8)
        (some (record {
          last_modified_ledger_seq = 40;
          body = record { hash = codes "i"; code = []; has_v1 = false };
        }))
        none
    ∷ []

extract_contract_code-IsOutcome_example :
    ((rows : List ContractCodeData) × (extract_contract_code
          (λ e. ok (codes "key"))
          clock
          input
          (ok codes_changed)
        ≡ some rows)
      × All (λ c. ¬ Panics c) codes_changed
      × IsTableOf
          (λ r. r.contract_code_hash)
          Outcome.shown
          Outcome.shown_hash
          (Outcome.RowOf (λ e. ok (codes "key")) input)
          codes_changed
          rows)
    ⊎ ((change : CodeChange) × Among change codes_changed
        × Panics change
        × (extract_contract_code (λ e. ok (codes "key")) clock input (ok codes_changed) ≡ none))
extract_contract_code-IsOutcome_example =
    extract_contract_code-IsOutcome (λ e. ok (codes "key")) clock input codes_changed

abbrev restore_sdk : RestoreSdk
restore_sdk = record {
  marshal_key = λ k. ok (codes "key");
  marshal_hash = λ h. ok h;
  val_type_string = λ t. codes "ScvSymbol";
  key_type_string = λ k. codes "Ttl";
  sha256 = λ bytes. bytes;
}

abbrev restored : List KeyChange
restored =
    record {
      is_restored = true;
      post = some (record {
        ledger_key = ok (
            restored_data (
              some (record {
                contract_id = some (codes "C");
                key = scv_symbol (some (codes "x"));
                durability = persistent;
              })));
        last_modified_ledger_seq = 41;
      });
    }
    ∷ record {
      is_restored = false;
      post = some (record { ledger_key = ok restored_ttl; last_modified_ledger_seq = 41 });
    }
    ∷ []

extract_restored_keys-IsTableOf_example :
    IsTableOf
      (λ r. r.key_hash)
      (Table.shown restore_sdk)
      (Table.shown_hash restore_sdk)
      (Table.RowOf restore_sdk input)
      restored
      (extract_restored_keys restore_sdk clock input (ok restored))
extract_restored_keys-IsTableOf_example =
    extract_restored_keys-IsTableOf restore_sdk input clock restored

abbrev creating : List CreationTransaction
creating =
    record {
      successful = true;
      source = codes "S";
      operations =
          record {
            source_account = none;
            host_function = some (create_contract (some executable_stellar_asset));
          }
          ∷ record {
            source_account = some (codes "O");
            host_function = some (create_contract_v2 (some (executable_wasm (some (7 ∷ [])))));
          }
          ∷ [];
      unsafe_meta = meta_v3 true (
          (other_meta_change
            ∷ created_data (address_contract (some (codes "T"))) temporary
            ∷ created_data (address_contract (some (codes "C"))) persistent
            ∷ [])
          ∷ []);
    }
    ∷ []

extract_contract_creations-AreCreations_example :
    AreCreations sdk
      (λ id. id)
      (λ t. codes "other")
      input
      creating
      (extract_contract_creations sdk (λ id. id) (λ t. codes "other") input (ok creating))
extract_contract_creations-AreCreations_example =
    extract_contract_creations-AreCreations sdk (λ id. id) (λ t. codes "other") input creating
