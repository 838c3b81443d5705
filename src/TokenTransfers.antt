-- ===== src/TokenTransfers.antt =====
-- token_transfers.go, types_tokens.go: the rows of the ledger's token transfer events.
pub mod Assets
pub mod Indexes
pub mod Rows
use stellar_extract.Prelude.{
  ℕ, ◌+◌, ◌%◌, ◌^◌, Bool, true, false, Option, none, some, List, [], ◌∷◌, ◌++◌, ltb, length,
  if◌then◌else◌, Text, text_ordered,
}
use stellar_extract.Go.Ints.{ℤ, pos, to_i32}
use stellar_extract.Go.Strings.{codes}
use stellar_extract.Go.Maps.{GoMap, get, put}
use stellar_extract.Xdr.{Result, ok, err}
use stellar_extract.Xdr.Ledger.{LedgerInput}

pub record IssuedAsset : Type 0 where
  pub asset_code : Text
  pub issuer : Text

-- what `event.GetAsset()` finds: no asset, or one of the two arms
pub data Asset : Type 0 where
  no_asset : Asset
  native_asset : Bool → Asset
  issued_asset : IssuedAsset → Asset

-- token_transfer.EventMeta
pub record EventMeta : Type 0 where
  pub tx_hash : Text
  pub transaction_index : ℕ
  pub operation_index : Option ℕ
  pub contract_address : Text

-- the arms of `event.Event`, with their parties and amounts; `unknown_event` is the default case
pub data EventKind : Type 0 where
  transfer : (from : Text) → (to : Text) → (amount : Text) → EventKind
  mint : (to : Text) → (amount : Text) → EventKind
  burn clawback fee : (from : Text) → (amount : Text) → EventKind
  unknown_event : EventKind

pub record TokenEvent : Type 0 where
  pub kind : EventKind
  pub metadata : EventMeta
  pub asset : Asset

-- The SDK's `toid.New(…).ToInt64` and `GetEventType`, and the float that a text of an amount gives
-- (`strconv.ParseFloat`, times 0.0000001).
pub record TokenSdk : Type 1 where
  pub toid : ℤ → ℤ → ℤ → ℤ
  pub event_type : TokenEvent → Text
  pub Float : Type 0
  pub scaled_amount : Text → Float

abbrev pub str_ptr : Text → Option Text
str_ptr [] = none
str_ptr (c ∷ s) = some (c ∷ s)

-- the variables that the switch sets
pub record Parties : Type 0 where
  pub from : Option Text
  pub to : Option Text
  pub amount : Text

unfoldable pub parties : EventKind → Option Parties
parties (transfer f t a) = some (record { from = str_ptr f; to = str_ptr t; amount = a })
parties (mint t a) = some (record { from = none; to = str_ptr t; amount = a })
parties (burn f a) = some (record { from = str_ptr f; to = none; amount = a })
parties (clawback f a) = some (record { from = str_ptr f; to = none; amount = a })
parties (fee f a) = some (record { from = str_ptr f; to = none; amount = a })
parties unknown_event = none

pub record AssetColumns : Type 0 where
  pub asset_concat : Text
  pub asset_type : Text
  pub asset_code : Option Text
  pub asset_issuer : Option Text

-- `len(issued.AssetCode) > 4`
abbrev issued_type : Text → Text
issued_type code =
    if ltb 4 (length code) then codes "credit_alphanum12" else codes "credit_alphanum4"

unfoldable pub get_asset_from_token_transfer_event : Asset → AssetColumns
get_asset_from_token_transfer_event (native_asset true) = record {
  asset_concat = codes "native";
  asset_type = codes "native";
  asset_code = none;
  asset_issuer = none;
}
get_asset_from_token_transfer_event (issued_asset i) = record {
  asset_concat = issued_type i.asset_code ++ (b':' ∷ (i.asset_code ++ (b':' ∷ i.issuer)));
  asset_type = issued_type i.asset_code;
  asset_code = some i.asset_code;
  asset_issuer = some i.issuer;
}
get_asset_from_token_transfer_event _ = record {
  asset_concat = codes "unknown";
  asset_type = codes "unknown";
  asset_code = none;
  asset_issuer = none;
}

-- a number that a Go map of uint32 holds under a key, 0 where it holds none
abbrev pub or_zero : Option ℕ → ℕ
or_zero none = 0
or_zero (some n) = n

module _ (sdk : TokenSdk) where
  pub record TokenTransferData : Type 0 where
    pub ledger_sequence : ℕ
    pub transaction_hash : Text
    pub transaction_id : ℤ
    pub operation_id : Option ℤ
    pub operation_index : Option ℤ
    pub event_index : ℕ
    pub event_type : Text
    pub from : Option Text
    pub to : Option Text
    pub asset : AssetColumns
    pub amount : sdk.Float
    pub amount_raw : Text
    pub contract_id : Text
    pub closed_at : ℕ
    pub created_at : ℕ
    pub ledger_range : ℕ
    pub era_id : Option Text

  module _ (clock : ℕ → ℕ) (input : LedgerInput) where
    abbrev pub operation_id_of : EventMeta → Option ℕ → Option ℤ
    operation_id_of m none = none
    operation_id_of m (some i) =
        some (sdk.toid (to_i32 input.sequence) (to_i32 m.transaction_index) (to_i32 i))

    abbrev pub operation_index_of : Option ℕ → Option ℤ
    operation_index_of none = none
    operation_index_of (some i) = some (to_i32 i)

    unfoldable pub transfer_data : ℕ → ℕ → TokenEvent → Parties → TokenTransferData
    transfer_data reading index event p = record {
      ledger_sequence = input.sequence;
      transaction_hash = event.metadata.tx_hash;
      transaction_id =
          sdk.toid (to_i32 input.sequence) (to_i32 event.metadata.transaction_index) (pos 0);
      operation_id = operation_id_of event.metadata event.metadata.operation_index;
      operation_index = operation_index_of event.metadata.operation_index;
      event_index = index;
      event_type = sdk.event_type event;
      from = p.from;
      to = p.to;
      asset = get_asset_from_token_transfer_event event.asset;
      amount = sdk.scaled_amount p.amount;
      amount_raw = p.amount;
      contract_id = event.metadata.contract_address;
      closed_at = input.closed_at;
      created_at = clock reading;
      ledger_range = input.ledger_range;
      era_id = input.era_id;
    }

    -- `eventIndexByTx[hash]`, and the map with the next index, a uint32, in its place
    abbrev pub event_index : GoMap Text ℕ → TokenEvent → ℕ
    event_index by_tx event = or_zero (get event.metadata.tx_hash by_tx)

    abbrev pub next_index : GoMap Text ℕ → TokenEvent → GoMap Text ℕ
    next_index by_tx event =
        put event.metadata.tx_hash ((event_index by_tx event + 1) % 2 ^ 32) by_tx

    -- the loop; an event of an unknown type is passed over, and no index is used up for it
    unfoldable pub transfers_from : ℕ → GoMap Text ℕ → List TokenEvent → List TokenTransferData
    unfolding parties transfer_data
    transfers_from reading by_tx [] = []
    transfers_from reading by_tx (event ∷ events) =
        let skipped = transfers_from reading by_tx events in
        let rest = transfers_from (reading + 1) (next_index by_tx event) events in
        elim (parties event.kind) [
          | none ↦ skipped
          | some p ↦ transfer_data reading (event_index by_tx event) event p ∷ rest
        ]

    -- `EventsFromLedger` is the SDK's; what `VerifyEvents` finds is only logged
    unfoldable pub extract_token_transfers :
        Result (List TokenEvent) → Result (List TokenTransferData)
    unfolding transfers_from
    extract_token_transfers (err e) = err (codes "failed to extract token transfer events: " ++ e)
    extract_token_transfers (ok events) = ok (transfers_from 0 [] events)
