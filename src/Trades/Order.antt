-- ===== src/Trades/Order.antt =====
-- The position of a trade within its transaction is a key.
use stellar_extract.Prelude.{
  ℕ, ◌+◌, ◌≤◌, ◌≡◌, Bool, true, ◌&&◌, ◌||◌, Option, none, some, List, [], ◌∷◌, ◌++◌, Text, arith,
  ltb, ◌==◌, nat_ordered, All, All-append, All-map, Bool-cases, Option-cases, inl, inr,
}
use stellar_extract.Go.Ints.{ℤ}
use stellar_extract.Go.Strings.{hex_encode}
use stellar_extract.Xdr.Ledger.{LedgerInput}
use stellar_extract.Trades.{
  ClaimAtom, TradeData, TradeContext, TradeTransaction, TradeOperation, OperationResult, result_at,
  claims_of, append_trades_from_claims, operation_trades, operations_trades, transaction_trades,
}
use stellar_extract.Trades.Claims.{
  AreTradesOf, no_claims, empty_claim, unknown_claim, traded, append_trades_from_claims-AreTradesOf,
}

-- An earlier operation, or an earlier claim of the same operation.
abbrev pub before : TradeData → TradeData → Bool
before a b =
    ltb a.operation_index b.operation_index
    || (a.operation_index == b.operation_index && ltb a.trade_index b.trade_index)

abbrev pub InOrder : List TradeData → Type 0
InOrder [] = Unit
InOrder (t ∷ ts) = All (λ u. before t u ≡ true) ts × InOrder ts

-- Trades of one operation whose claims stand at position `i` or behind.
record IsFrom (op i : ℕ) (t : TradeData) : Type 0 where
  of_operation : t.operation_index ≡ op
  behind : i ≤ t.trade_index

wider : (op i : ℕ) (t : TradeData) → IsFrom op (i + 1) t → IsFrom op i t
wider op i t h = record {
  of_operation = h.of_operation;
  behind = let b : i + 1 ≤ t.trade_index = h.behind in omega arith;
}

InOrder-append :
    (xs ys : List TradeData)
    → InOrder xs
    → InOrder ys
    → All (λ x. All (λ y. before x y ≡ true) ys) xs
    → InOrder (xs ++ ys)
InOrder-append [] ys h k b = k
InOrder-append (x ∷ xs) ys (x_first, h) k (x_before, b) =
    (All-append (λ y. before x y ≡ true) xs ys x_first x_before, InOrder-append xs ys h k b)

module _ (amount_string : ℤ → Text) (address_of : Text → Text) (input : LedgerInput) where
  abbrev Of : TradeContext → ℕ → List ClaimAtom → List TradeData → Type 0
  Of = AreTradesOf amount_string address_of input

  AreTradesOf-IsFrom :
      (ctx : TradeContext) (i : ℕ) (claims : List ClaimAtom) (trades : List TradeData)
      → Of ctx i claims trades
      → All (IsFrom ctx.operation_index i) trades × InOrder trades
  AreTradesOf-IsFrom ctx i [] [] no_claims = (tt, tt)
  AreTradesOf-IsFrom ctx i [] (t ∷ trades) h = elim h [ ]
  AreTradesOf-IsFrom ctx i (c ∷ claims) trades (empty_claim e h) =
      let (from, order) = AreTradesOf-IsFrom ctx (i + 1) claims trades h in
      (
        All-map (IsFrom ctx.operation_index (i + 1)) (IsFrom ctx.operation_index i) trades
            (wider ctx.operation_index i) from,
        order,
      )
  AreTradesOf-IsFrom ctx i (c ∷ claims) trades (unknown_claim e h) =
      let (from, order) = AreTradesOf-IsFrom ctx (i + 1) claims trades h in
      (
        All-map (IsFrom ctx.operation_index (i + 1)) (IsFrom ctx.operation_index i) trades
            (wider ctx.operation_index i) from,
        order,
      )
  AreTradesOf-IsFrom ctx i (c ∷ claims) (trade ∷ trades) (traded e t h) =
      let (from, order) = AreTradesOf-IsFrom ctx (i + 1) claims trades h in
      let first : IsFrom ctx.operation_index i trade = record {
        of_operation = t.of_operation;
        behind = let at : trade.trade_index ≡ i = t.at_position in omega arith;
      } in
      (
        (
          first,
          All-map (IsFrom ctx.operation_index (i + 1)) (IsFrom ctx.operation_index i) trades
              (wider ctx.operation_index i) from,
        ),
        (
          All-map (IsFrom ctx.operation_index (i + 1)) (λ u. before trade u ≡ true) trades
              (λ u f.
                let at : trade.trade_index ≡ i = t.at_position in
                let behind : i + 1 ≤ u.trade_index = f.behind in
                ground (arith, t.of_operation, f.of_operation))
              from,
          order,
        ),
      )

  abbrev AreOf : ℕ → List TradeData → Type 0
  AreOf op ts = All (λ t. t.operation_index ≡ op) ts × InOrder ts

  operation_trades-AreOf :
      (tx : TradeTransaction) (op_idx : ℕ) (op : TradeOperation) (r : Option OperationResult)
      → AreOf op_idx (operation_trades amount_string address_of input tx op_idx op r)
  unfolding operation_trades
  operation_trades-AreOf tx op_idx op none = (tt, tt)
  operation_trades-AreOf tx op_idx op (some r) =
      let (claims, buyer) = claims_of amount_string address_of input op r tx.source_account in
      let ctx : TradeContext = record {
        tx_hash = hex_encode tx.transaction_hash;
        operation_index = op_idx;
        buyer_account = buyer;
      } in
      let trades = append_trades_from_claims amount_string address_of input 0 claims ctx in
      let (from, order) =
        AreTradesOf-IsFrom ctx 0 claims trades
          (append_trades_from_claims-AreTradesOf amount_string address_of input ctx 0 claims) in
      (
        All-map (IsFrom op_idx 0) (λ t. t.operation_index ≡ op_idx) trades (λ t f. f.of_operation)
            from,
        order,
      )

  operations_trades-InOrder :
      (tx : TradeTransaction) (results : List OperationResult) (op_idx : ℕ)
      (ops : List TradeOperation)
      → let ts = operations_trades amount_string address_of input tx results op_idx ops in
        All (λ t. op_idx ≤ t.operation_index) ts × InOrder ts
  unfolding operations_trades
  operations_trades-InOrder tx results op_idx [] = (tt, tt)
  operations_trades-InOrder tx results op_idx (op ∷ ops) =
      let here =
        operation_trades amount_string address_of input tx op_idx op (result_at op_idx results) in
      let later = operations_trades amount_string address_of input tx results (op_idx + 1) ops in
      let (mine, order) = operation_trades-AreOf tx op_idx op (result_at op_idx results) in
      let (behind, later_order) = operations_trades-InOrder tx results (op_idx + 1) ops in
      (
        All-append (λ t. op_idx ≤ t.operation_index) here later
            (All-map (λ t. t.operation_index ≡ op_idx) (λ t. op_idx ≤ t.operation_index) here
              (λ t e. omega (arith, e)) mine)
            (All-map (λ t. op_idx + 1 ≤ t.operation_index) (λ t. op_idx ≤ t.operation_index) later
              (λ t b. omega (arith, b)) behind),
        InOrder-append here later order later_order (
            All-map (λ t. t.operation_index ≡ op_idx) (λ t. All (λ u. before t u ≡ true) later) here
              (λ t e.
                All-map (λ u. op_idx + 1 ≤ u.operation_index) (λ u. before t u ≡ true) later
                  (λ u b. ground (arith, e, b)) behind)
              mine),
      )

  -- The trades of a transaction come in increasing order of operation index and, within an
  -- operation, of trade index: the two together identify a trade of the transaction.
  pub transaction_trades-InOrder :
      (tx : TradeTransaction) → InOrder (transaction_trades amount_string address_of input tx)
  unfolding transaction_trades
  transaction_trades-InOrder tx = elim (Option-cases tx.results) [
    | inl absent ↦ rw (absent, transaction_trades) tt
    | inr (results, found) ↦ elim (Bool-cases tx.successful) [
      | inl successful ↦
          rw (found, successful, transaction_trades)
            (operations_trades-InOrder tx results 0 tx.operations).1
      | inr failed ↦ rw (found, failed, transaction_trades) tt
    ]
  ]
