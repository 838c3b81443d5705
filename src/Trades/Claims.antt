-- ===== src/Trades/Claims.antt =====
-- Which claims give trades, and what a trade says of its claim.
use stellar_extract.Prelude.{
  ℕ, ◌+◌, ◌≡◌, refl, true, false, Option, none, some, List, [], ◌∷◌, ◌++◌, Text, arith,
  Option-cases, Bool-cases, inl, inr, sym,
}
use mathlib.Core.Option.{none-ne-some, some-injective}
use mathlib.Core.Path.{subst}
use stellar_extract.Go.Ints.{ℤ}
use stellar_extract.Go.Strings.{codes, hex_encode}
use stellar_extract.Xdr.Ledger.{LedgerInput}
use stellar_extract.Trades.{
  ClaimKind, ClaimAtom, order_book, claim_v0, claim_liquidity_pool, claim_other, TradeData,
  TradeContext, trade_of, trade_of_kind, trade_from_claim, is_empty_claim,
  append_trades_from_claims,
}

module _ (amount_string : ℤ → Text) (address_of : Text → Text) (input : LedgerInput) where
  -- A pool trade names the pool and no seller; every other trade names a seller and no pool.
  abbrev pub HasCounterparty : ClaimKind → TradeData → Type 0
  HasCounterparty (order_book seller) trade =
      (trade.trade_type ≡ codes "orderbook")
      × (trade.seller_account ≡ address_of seller)
      × (trade.liquidity_pool_id ≡ none)
  HasCounterparty (claim_v0 seller) trade =
      (trade.trade_type ≡ codes "orderbook")
      × (trade.seller_account ≡ hex_encode seller)
      × (trade.liquidity_pool_id ≡ none)
  HasCounterparty (claim_liquidity_pool pool) trade =
      (trade.trade_type ≡ codes "liquidity_pool")
      × (trade.seller_account ≡ [])
      × (trade.liquidity_pool_id ≡ some (hex_encode pool))
  HasCounterparty claim_other trade = ⊥

  -- The trade of the claim at position `i`.
  pub record IsTradeOf (ctx : TradeContext) (i : ℕ) (claim : ClaimAtom) (trade : TradeData)
      : Type 0 where
    pub at_position : trade.trade_index ≡ i
    pub of_operation : trade.operation_index ≡ ctx.operation_index
    pub of_transaction : trade.transaction_hash ≡ ctx.tx_hash
    pub buyer : trade.buyer_account ≡ ctx.buyer_account
    pub counterparty : HasCounterparty claim.kind trade
    pub sold : trade.selling_amount ≡ amount_string claim.amount_sold
    pub bought : trade.buying_amount ≡ amount_string claim.amount_bought
    pub priced : trade.price ≡ trade.buying_amount ++ (b'/' ∷ trade.selling_amount)

  -- The trades of the claims from position `i` on: every claim of something, of a known type, has
  -- its trade; the others leave a gap in the positions.
  pub data AreTradesOf (ctx : TradeContext) : ℕ → List ClaimAtom → List TradeData → Type 0 where
    no_claims : {i : ℕ} → AreTradesOf ctx i [] []
    empty_claim :
        {i : ℕ} {claim : ClaimAtom} {claims : List ClaimAtom} {trades : List TradeData}
        → is_empty_claim claim ≡ true
        → AreTradesOf ctx (i + 1) claims trades
        → AreTradesOf ctx i (claim ∷ claims) trades
    unknown_claim :
        {i : ℕ} {claim : ClaimAtom} {claims : List ClaimAtom} {trades : List TradeData}
        → claim.kind ≡ claim_other
        → AreTradesOf ctx (i + 1) claims trades
        → AreTradesOf ctx i (claim ∷ claims) trades
    traded :
        {i : ℕ} {claim : ClaimAtom} {claims : List ClaimAtom} {trade : TradeData}
        {trades : List TradeData}
        → is_empty_claim claim ≡ false
        → IsTradeOf ctx i claim trade
        → AreTradesOf ctx (i + 1) claims trades
        → AreTradesOf ctx i (claim ∷ claims) (trade ∷ trades)

  module _ (ctx : TradeContext) where
    abbrev from_claim : ClaimAtom → ℕ → Option TradeData
    from_claim claim i = trade_from_claim amount_string address_of input claim ctx i

    kind-none :
        (kind : ClaimKind) (claim : ClaimAtom) (i : ℕ)
        → trade_of_kind amount_string address_of input kind claim ctx i ≡ none
        → kind ≡ claim_other
    unfolding trade_of_kind
    kind-none claim_other claim i h = refl
    kind-none (order_book s) claim i h = ground arith
    kind-none (claim_v0 s) claim i h = ground arith
    kind-none (claim_liquidity_pool p) claim i h = ground arith

    -- what the trade shares with its claim whatever the kind
    of_kind :
        (kind : ClaimKind) (claim : ClaimAtom) (i : ℕ) (type seller : Text) (pool : Option Text)
        → claim.kind ≡ kind
        → HasCounterparty kind
            (trade_of amount_string address_of input claim ctx i type seller pool)
        → IsTradeOf ctx i claim
            (trade_of amount_string address_of input claim ctx i type seller pool)
    of_kind kind claim i type seller pool e h = record {
      at_position = unfold trade_of in refl;
      of_operation = unfold trade_of in refl;
      of_transaction = unfold trade_of in refl;
      buyer = unfold trade_of in refl;
      counterparty =
          subst
            (λ k.
              HasCounterparty k
                (trade_of amount_string address_of input claim ctx i type seller pool))
            (sym e) h;
      sold = unfold trade_of in refl;
      bought = unfold trade_of in refl;
      priced = unfold trade_of in refl;
    }

    kind-IsTradeOf :
        (kind : ClaimKind) (claim : ClaimAtom) (i : ℕ) (trade : TradeData)
        → claim.kind ≡ kind
        → trade_of_kind amount_string address_of input kind claim ctx i ≡ some trade
        → IsTradeOf ctx i claim trade
    unfolding trade_of_kind
    kind-IsTradeOf (order_book s) claim i trade e h =
        subst (IsTradeOf ctx i claim) (some-injective _ trade h)
          (of_kind (order_book s) claim i _ _ _ e (unfold trade_of in (refl, refl, refl)))
    kind-IsTradeOf (claim_v0 s) claim i trade e h =
        subst (IsTradeOf ctx i claim) (some-injective _ trade h)
          (of_kind (claim_v0 s) claim i _ _ _ e (unfold trade_of in (refl, refl, refl)))
    kind-IsTradeOf (claim_liquidity_pool p) claim i trade e h =
        subst (IsTradeOf ctx i claim) (some-injective _ trade h)
          (of_kind (claim_liquidity_pool p) claim i _ _ _ e (unfold trade_of in (refl, refl, refl)))
    kind-IsTradeOf claim_other claim i trade e h = absurd (none-ne-some trade h)

    -- The trades of an operation's claims, in the order of the claims: one for each claim of
    -- something and of a known type, at the claim's own position, with its counterparty, amounts
    -- and price; other claims are passed over without shifting the positions behind them.
    pub append_trades_from_claims-AreTradesOf :
        (i : ℕ) (claims : List ClaimAtom)
        → AreTradesOf ctx i claims
            (append_trades_from_claims amount_string address_of input i claims ctx)
    unfolding append_trades_from_claims
    append_trades_from_claims-AreTradesOf i [] = no_claims
    append_trades_from_claims-AreTradesOf i (claim ∷ claims) =
        let later = append_trades_from_claims-AreTradesOf (i + 1) claims in
        elim (Bool-cases (is_empty_claim claim)) [
          | inl nothing_moved ↦
              rw (nothing_moved, append_trades_from_claims) (empty_claim nothing_moved later)
          | inr moved ↦ elim (Option-cases (from_claim claim i)) [
            | inl unread ↦
                rw (moved, unread, append_trades_from_claims)
                  (unknown_claim (kind-none claim.kind claim i (unfold trade_from_claim in unread))
                    later)
            | inr (trade, made) ↦
                rw (moved, made, append_trades_from_claims)
                  (traded moved
                    (kind-IsTradeOf claim.kind claim i trade refl (unfold trade_from_claim in made))
                    later)
          ]
        ]
