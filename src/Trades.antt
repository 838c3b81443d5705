-- ===== src/Trades.antt =====
-- trades.go, types_core.go: `ExtractTrades`.
pub mod Claims
pub mod Order
use stellar_extract.Prelude.{
  ℕ, zero, suc, ◌+◌, Bool, true, false, ◌&&◌, Option, none, some, List, [], ◌∷◌, ◌++◌,
  if◌then◌else◌, Text, ◌==◌, nat_ordered,
}
use stellar_extract.Go.Ints.{ℤ, pos, int_ordered}
use stellar_extract.Go.Strings.{codes, hex_encode}
use stellar_extract.Xdr.{Result, ok, err}
use stellar_extract.Xdr.Ledger.{LedgerInput}

-- xdr.Asset: the code's 4 or 12 bytes, and the issuer
pub data XdrAsset : Type 0 where
  asset_native : XdrAsset
  asset_alphanum4 asset_alphanum12 : (code : Text) → (issuer : Text) → XdrAsset
  asset_pool_share asset_other : XdrAsset

pub data ClaimKind : Type 0 where
  order_book : (seller_id : Text) → ClaimKind
  claim_v0 : (seller_ed25519 : Text) → ClaimKind
  claim_liquidity_pool : (pool_id : Text) → ClaimKind
  claim_other : ClaimKind

-- xdr.ClaimAtom, with what its methods and arms give
pub record ClaimAtom : Type 0 where
  pub kind : ClaimKind
  pub asset_sold : XdrAsset
  pub amount_sold : ℤ
  pub asset_bought : XdrAsset
  pub amount_bought : ℤ

-- an operation by its type; a path payment with its destination
pub data TradeOperation : Type 0 where
  manage_sell_offer manage_buy_offer create_passive_sell_offer : TradeOperation
  path_payment_strict_receive path_payment_strict_send : (destination : Text) → TradeOperation
  other_operation : TradeOperation

-- xdr.OperationResult: the claims of a success, `none` of any other code of the operation
pub data OperationResult : Type 0 where
  manage_sell_offer_result manage_buy_offer_result : Option (List ClaimAtom) → OperationResult
  create_passive_sell_offer_result : Option (List ClaimAtom) → OperationResult
  path_payment_strict_receive_result : Option (List ClaimAtom) → OperationResult
  path_payment_strict_send_result : Option (List ClaimAtom) → OperationResult
  other_result not_inner : OperationResult

-- what is read of a transaction; `results` is `OperationResults()`
pub record TradeTransaction : Type 0 where
  pub successful : Bool
  pub transaction_hash : Text
  pub source_account : Text
  pub operations : List TradeOperation
  pub results : Option (List OperationResult)

pub record TradeData : Type 0 where
  pub ledger_sequence : ℕ
  pub transaction_hash : Text
  pub operation_index : ℕ
  pub trade_index : ℕ
  pub trade_type : Text
  pub trade_timestamp : ℕ
  pub seller_account : Text
  pub selling_asset_code : Option Text
  pub selling_asset_issuer : Option Text
  pub selling_amount : Text
  pub buyer_account : Text
  pub buying_asset_code : Option Text
  pub buying_asset_issuer : Option Text
  pub buying_amount : Text
  pub price : Text
  pub liquidity_pool_id : Option Text
  pub created_at : ℕ
  pub ledger_range : ℕ
  pub era_id : Option Text

pub record TradeContext : Type 0 where
  pub tx_hash : Text
  pub operation_index : ℕ
  pub buyer_account : Text

-- `strings.TrimRight(code, "\x00")`
abbrev keep_from : ℕ → Text → Text
keep_from c [] = if c == 0 then [] else c ∷ []
keep_from c (d ∷ s) = c ∷ d ∷ s

abbrev pub trim_right : Text → Text
trim_right [] = []
trim_right (c ∷ s) = keep_from c (trim_right s)

-- `appendTradesFromClaims` passes over claims of nothing for nothing
abbrev pub is_empty_claim : ClaimAtom → Bool
is_empty_claim claim = claim.amount_sold == pos 0 && claim.amount_bought == pos 0

-- the claims of a success of the three offer operations
unfoldable pub offer_claims_from_result : OperationResult → List ClaimAtom
offer_claims_from_result (manage_sell_offer_result (some claims)) = claims
offer_claims_from_result (manage_buy_offer_result (some claims)) = claims
offer_claims_from_result (create_passive_sell_offer_result (some claims)) = claims
offer_claims_from_result _ = []

-- `opResults[opIdx]`, where there is one
abbrev pub result_at : ℕ → List OperationResult → Option OperationResult
result_at n [] = none
result_at zero (r ∷ rs) = some r
result_at (suc n) (r ∷ rs) = result_at n rs

-- The SDK's `amount.String` and the `Address` of an account.
module _ (amount_string : ℤ → Text) (address_of : Text → Text) (input : LedgerInput) where
  unfoldable pub asset_code_issuer : XdrAsset → Option Text × Option Text
  asset_code_issuer (asset_alphanum4 code issuer) =
      (some (trim_right code), some (address_of issuer))
  asset_code_issuer (asset_alphanum12 code issuer) =
      (some (trim_right code), some (address_of issuer))
  asset_code_issuer _ = (none, none)

  trade_of : ClaimAtom → TradeContext → ℕ → Text → Text → Option Text → TradeData
  unfolding asset_code_issuer
  trade_of claim ctx trade_index trade_type seller pool = record {
    ledger_sequence = input.sequence;
    transaction_hash = ctx.tx_hash;
    operation_index = ctx.operation_index;
    trade_index = trade_index;
    trade_type = trade_type;
    trade_timestamp = input.closed_at;
    seller_account = seller;
    selling_asset_code = (asset_code_issuer claim.asset_sold).0;
    selling_asset_issuer = (asset_code_issuer claim.asset_sold).1;
    selling_amount = amount_string claim.amount_sold;
    buyer_account = ctx.buyer_account;
    buying_asset_code = (asset_code_issuer claim.asset_bought).0;
    buying_asset_issuer = (asset_code_issuer claim.asset_bought).1;
    buying_amount = amount_string claim.amount_bought;
    price = amount_string claim.amount_bought ++ (b'/' ∷ amount_string claim.amount_sold);
    liquidity_pool_id = pool;
    created_at = input.closed_at;
    ledger_range = input.ledger_range;
    era_id = input.era_id;
  }

  -- the switch on the claim's type
  trade_of_kind : ClaimKind → ClaimAtom → TradeContext → ℕ → Option TradeData
  unfolding trade_of hex_encode
  trade_of_kind (order_book seller) claim ctx i =
      some (trade_of claim ctx i (codes "orderbook") (address_of seller) none)
  trade_of_kind (claim_v0 seller) claim ctx i =
      some (trade_of claim ctx i (codes "orderbook") (hex_encode seller) none)
  trade_of_kind (claim_liquidity_pool pool) claim ctx i =
      some (trade_of claim ctx i (codes "liquidity_pool") [] (some (hex_encode pool)))
  trade_of_kind claim_other claim ctx i = none

  unfoldable pub trade_from_claim : ClaimAtom → TradeContext → ℕ → Option TradeData
  unfolding trade_of_kind
  trade_from_claim claim ctx trade_index = trade_of_kind claim.kind claim ctx trade_index

  -- what the loop appends, from the claim at position `i` on
  unfoldable pub append_trades_from_claims : ℕ → List ClaimAtom → TradeContext → List TradeData
  unfolding trade_from_claim
  append_trades_from_claims i [] ctx = []
  append_trades_from_claims i (claim ∷ claims) ctx =
      let later = append_trades_from_claims (i + 1) claims ctx in
      if is_empty_claim claim
      then later
      else elim (trade_from_claim claim ctx i) [ none ↦ later | some trade ↦ trade ∷ later ]

  -- the switch on the operation's type: its claims and the buyer
  unfoldable pub claims_of : TradeOperation → OperationResult → Text → List ClaimAtom × Text
  unfolding offer_claims_from_result
  claims_of manage_sell_offer r source = (offer_claims_from_result r, address_of source)
  claims_of manage_buy_offer r source = (offer_claims_from_result r, address_of source)
  claims_of create_passive_sell_offer r source = (offer_claims_from_result r, address_of source)
  claims_of (path_payment_strict_receive destination)
        (path_payment_strict_receive_result (some claims)) source =
      (claims, address_of destination)
  claims_of (path_payment_strict_send destination) (path_payment_strict_send_result (some claims))
        source =
      (claims, address_of destination)
  claims_of _ r source = ([], [])

  operation_trades : TradeTransaction → ℕ → TradeOperation → Option OperationResult → List TradeData
  unfolding append_trades_from_claims claims_of hex_encode
  operation_trades tx op_idx op none = []
  operation_trades tx op_idx op (some r) =
      let (claims, buyer) = claims_of op r tx.source_account in
      append_trades_from_claims 0 claims (record {
        tx_hash = hex_encode tx.transaction_hash;
        operation_index = op_idx;
        buyer_account = buyer;
      })

  -- the loop over the operations, from the one at `op_idx` on
  operations_trades :
      TradeTransaction → List OperationResult → ℕ → List TradeOperation → List TradeData
  unfolding operation_trades
  operations_trades tx results op_idx [] = []
  operations_trades tx results op_idx (op ∷ ops) =
      operation_trades tx op_idx op (result_at op_idx results)
      ++ operations_trades tx results (op_idx + 1) ops

  pub transaction_trades : TradeTransaction → List TradeData
  unfolding operations_trades
  transaction_trades tx = elim tx.results [
    | none ↦ []
    | some results ↦ if tx.successful then operations_trades tx results 0 tx.operations else []
  ]

  pub ledger_trades : List TradeTransaction → List TradeData
  unfolding transaction_trades
  ledger_trades [] = []
  ledger_trades (tx ∷ txs) = transaction_trades tx ++ ledger_trades txs

  unfoldable pub extract_trades : Result (List TradeTransaction) → Result (List TradeData)
  unfolding ledger_trades
  extract_trades (err e) = err (codes "failed to read transactions: " ++ e)
  extract_trades (ok txs) = ok (ledger_trades txs)
