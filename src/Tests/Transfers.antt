-- ===== src/Tests/Transfers.antt =====
-- Examples of token_transfers.go.
use stellar_extract.Prelude.{
  ◌+◌, ◌*◌, ◌^◌, ◌≡◌, refl, true, some, List, [], ◌∷◌, Text, text_ordered, arith,
}
use stellar_extract.Go.Ints.{pos, pos_part}
use stellar_extract.Go.Strings.{codes}
use stellar_extract.Xdr.{ok}
use stellar_extract.TokenTransfers.{
  Asset, native_asset, issued_asset, TokenEvent, EventKind, transfer, mint, unknown_event, TokenSdk,
  TokenTransferData, extract_token_transfers, transfers_from,
}
use stellar_extract.TokenTransfers.Indexes.{IsKeyedByIndex, extract_token_transfers-IsKeyedByIndex}
use stellar_extract.TokenTransfers.Rows.{IsOutcome, extract_token_transfers-IsOutcome}
use stellar_extract.Tests.Data.{clock, input}

abbrev token_sdk : TokenSdk
token_sdk = record {
  toid = λ ledger tx op. pos (pos_part ledger * 2 ^ 32 + pos_part tx * 2 ^ 12 + pos_part op);
  event_type = λ e. codes "event";
  Float = Text;
  scaled_amount = λ a. a;
}

abbrev event_in : Text → EventKind → TokenEvent
event_in tx kind = record {
  kind = kind;
  metadata = record {
    tx_hash = tx;
    transaction_index = 1;
    operation_index = some 1;
    contract_address = codes "C";
  };
  asset = native_asset true;
}

abbrev token_events : List TokenEvent
token_events =
    event_in (codes "t1") (transfer (codes "G1") (codes "G2") (codes "10"))
    ∷ event_in (codes "t2") (mint (codes "G1") (codes "10"))
    ∷ event_in (codes "t1") unknown_event
    ∷ event_in (codes "t1") (transfer (codes "G1") (codes "G2") (codes "10"))
    ∷ []

abbrev rows : List (TokenTransferData token_sdk)
rows = transfers_from token_sdk clock input 0 [] token_events

extract_token_transfers-IsOutcome_example :
    IsOutcome token_sdk input clock
      (ok token_events)
      (extract_token_transfers token_sdk clock input (ok token_events))
extract_token_transfers-IsOutcome_example =
    extract_token_transfers-IsOutcome token_sdk input clock (ok token_events)

extracted : extract_token_transfers token_sdk clock input (ok token_events) ≡ ok rows
unfolding extract_token_transfers
extracted = refl

extract_token_transfers-IsKeyedByIndex_example : IsKeyedByIndex token_sdk rows
extract_token_transfers-IsKeyedByIndex_example =
    extract_token_transfers-IsKeyedByIndex token_sdk clock input token_events rows (omega arith)
      extracted

abbrev usdc : Asset
usdc = issued_asset (record { asset_code = codes "USDC"; issuer = codes "GISSUER" })
