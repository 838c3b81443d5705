-- ===== src/Tests/Trades.antt =====
-- Examples of trades.go and of the WebAssembly parser of soroban.go.
use stellar_extract.Prelude.{ℕ, ◌++◌, ◌≡◌, refl, true, Option, some, List, [], ◌∷◌, Text, arith}
use stellar_extract.Go.Ints.{ℤ, pos}
use stellar_extract.Go.Strings.{codes, decimal_int}
use stellar_extract.Trades.{
  asset_native, asset_alphanum4, ClaimAtom, ClaimKind, order_book, claim_liquidity_pool,
  manage_sell_offer, path_payment_strict_send, manage_sell_offer_result,
  path_payment_strict_send_result, TradeTransaction, TradeContext, append_trades_from_claims,
  transaction_trades,
}
use stellar_extract.Trades.Claims.{AreTradesOf, append_trades_from_claims-AreTradesOf}
use stellar_extract.Trades.Order.{InOrder, transaction_trades-InOrder}
use stellar_extract.Wasm.{no_metadata, parsed, parse_wasm_metadata, sections}
use stellar_extract.Wasm.Sections.{header, parse_wasm_metadata-no_metadata}
use stellar_extract.Tests.Data.{input}

abbrev address_of : Text → Text
address_of id = codes "G" ++ id

abbrev claim_of : ClaimKind → ℕ → ClaimAtom
claim_of kind amount = record {
  kind = kind;
  asset_sold = asset_native;
  amount_sold = pos amount;
  asset_bought = asset_alphanum4 (b'U' ∷ b'S' ∷ b'D' ∷ 0 ∷ []) (codes "I");
  amount_bought = pos amount;
}

-- The second claim is of nothing for nothing.
abbrev claims : List ClaimAtom
claims =
    claim_of (order_book (codes "S")) 5
    ∷ claim_of (order_book (codes "S")) 0
    ∷ claim_of (claim_liquidity_pool (codes "P")) 7
    ∷ []

abbrev context : TradeContext
context = record { tx_hash = codes "aa"; operation_index = 0; buyer_account = codes "B" }

append_trades_from_claims-AreTradesOf_example :
    AreTradesOf decimal_int address_of input context 0 claims
      (append_trades_from_claims decimal_int address_of input 0 claims context)
append_trades_from_claims-AreTradesOf_example =
    append_trades_from_claims-AreTradesOf decimal_int address_of input context 0 claims

abbrev transaction : TradeTransaction
transaction = record {
  successful = true;
  transaction_hash = codes "h";
  source_account = codes "B";
  operations = manage_sell_offer ∷ path_payment_strict_send (codes "D") ∷ [];
  results =
      some (
        manage_sell_offer_result (some claims)
        ∷ path_payment_strict_send_result (some claims)
        ∷ []);
}

transaction_trades-InOrder_example :
    InOrder (transaction_trades decimal_int address_of input transaction)
transaction_trades-InOrder_example =
    transaction_trades-InOrder decimal_int address_of input transaction

parse_wasm_metadata-no_metadata_example :
    parse_wasm_metadata (header ++ 1 ∷ 70 ∷ 12 ∷ []) ≡ parsed no_metadata
parse_wasm_metadata-no_metadata_example =
    parse_wasm_metadata-no_metadata 1 70 (12 ∷ []) (omega arith) (omega arith)

-- A section of one byte is read.
abbrev count_of_types : Option ℤ
count_of_types = some (pos 3)

reads_types :
    parse_wasm_metadata (header ++ 1 ∷ 1 ∷ 3 ∷ [])
    ≡ parsed (record no_metadata { n_types = count_of_types })
unfolding parse_wasm_metadata sections
reads_types = refl
