-- ===== src/Effects/Named/Whole.antt =====
-- Every effect row of a ledger has a type with a name.
use stellar_extract.Prelude.{
  arith, ℕ, ◌+◌, ◌≡◌, refl, true, some, List, [], ◌∷◌, ◌++◌, Text, nat_ordered, All, All-append,
  Bool-cases, Option-cases, inl, inr,
}
use stellar_extract.Effects.{EffectSdk, EffectRecord, EffectChange}
use stellar_extract.Effects.Contracts.{AssetEvent}
use stellar_extract.Effects.Named.{is_named, AllNamed, AllNamed-append}
use stellar_extract.Effects.Named.Entries.{
  change_trust-AllNamed, manage_data-AllNamed, bump_sequence-AllNamed,
  create_claimable_balance-AllNamed, claim_claimable_balance-AllNamed,
  clawback_claimable_balance-AllNamed,
}
use stellar_extract.Effects.Named.Parts.{
  deposit_effects-AllNamed, withdraw_effects-AllNamed, lifecycle_effects-AllNamed,
  footprint_effects-AllNamed, add_trade_effects-AllNamed,
}
use stellar_extract.Effects.Named.Options.{set_options_effects-AllNamed}
use stellar_extract.Effects.Named.Shared.{
  sponsorship_effects-AllNamed, invoke_host_function-AllNamed,
}
use stellar_extract.Effects.Entries.{allow_trust_effects, set_trust_line_flags_effects}
use stellar_extract.Effects.Names.{effect_type_names, effect_type_name}
use stellar_extract.Effects.Operations.{
  EffectOperation, create_account, payment, path_payment_strict_receive, path_payment_strict_send,
  manage_sell_offer, manage_buy_offer, create_passive_sell_offer, set_options, change_trust,
  allow_trust, account_merge, inflation, manage_data, bump_sequence, create_claimable_balance,
  claim_claimable_balance, clawback_claimable_balance, clawback, set_trust_line_flags,
  liquidity_pool_deposit, liquidity_pool_withdraw, invoke_host_function, restore_footprint,
  extend_footprint_ttl, begin_sponsoring, end_sponsoring, revoke_sponsorship,
  create_account_effects, transfer_effects, account_merge_effects, payout_effects, clawback_effects,
  operation_specific, cross_cutting, cross_cutting_of, operation_effects,
}
use stellar_extract.Effects.Rows.{
  EffectData, OperationOf, EffectTransaction, source_of, effect_data, records_rows, operation_rows,
  operations_rows, transaction_effects, ledger_effects, extract_effects,
}
use stellar_extract.Effects.Sponsorship.{sponsorship_effects}
use stellar_extract.Effects.Pools.{lifecycle_effects}
use stellar_extract.Effects.Trades.{add_trade_effects}
use stellar_extract.Go.Ints.{ℤ}
use stellar_extract.Go.Maps.{get}
use stellar_extract.Trades.{XdrAsset}
use stellar_extract.Xdr.{Result, ok, err}
use stellar_extract.Xdr.Ledger.{LedgerInput}

module _ (sdk : EffectSdk) (source : Text) where
  transfer_effects-AllNamed :
      (to : Text) (credited : XdrAsset) (c : ℤ) (debited : XdrAsset) (d : ℤ)
      → AllNamed (transfer_effects sdk source to credited c debited d)
  unfolding transfer_effects is_named
  transfer_effects-AllNamed to credited c debited d = (refl, (refl, tt))

  payout_effects-AllNamed : (ps : List (Text × ℤ)) → AllNamed (payout_effects sdk source ps)
  unfolding payout_effects is_named
  payout_effects-AllNamed [] = tt
  payout_effects-AllNamed ((to, amount) ∷ ps) = (refl, payout_effects-AllNamed ps)

  module _ (network : Text) (changes : Result (List EffectChange))
      (events : Result (List (Result AssetEvent))) where
    path_payment-AllNamed :
        (to : Text) (credited : XdrAsset) (c : ℤ) (debited : XdrAsset) (d : ℤ) (offers : _)
        → AllNamed (
            transfer_effects sdk source to credited c debited d
            ++ add_trade_effects sdk source changes offers)
    path_payment-AllNamed to credited c debited d offers =
        AllNamed-append (transfer_effects sdk source to credited c debited d)
          (add_trade_effects sdk source changes offers)
          (transfer_effects-AllNamed to credited c debited d)
          (add_trade_effects-AllNamed sdk source changes offers)

    operation_specific-AllNamed :
        (op : EffectOperation) → AllNamed (operation_specific sdk source network changes events op)
    unfolding operation_specific create_account_effects account_merge_effects clawback_effects
        allow_trust_effects set_trust_line_flags_effects is_named
    operation_specific-AllNamed (create_account to balance) = (refl, (refl, (refl, tt)))
    operation_specific-AllNamed (payment to asset amount) =
        transfer_effects-AllNamed to asset amount asset amount
    operation_specific-AllNamed (path_payment_strict_receive to a m b n offers) =
        path_payment-AllNamed to a m b n offers
    operation_specific-AllNamed (path_payment_strict_send to a m b n offers) =
        path_payment-AllNamed to a m b n offers
    operation_specific-AllNamed (manage_sell_offer offers) =
        add_trade_effects-AllNamed sdk source changes offers
    operation_specific-AllNamed (manage_buy_offer offers) =
        add_trade_effects-AllNamed sdk source changes offers
    operation_specific-AllNamed (create_passive_sell_offer offers) =
        add_trade_effects-AllNamed sdk source changes offers
    operation_specific-AllNamed (set_options op) =
        set_options_effects-AllNamed sdk source op changes
    operation_specific-AllNamed (change_trust line limit) =
        change_trust-AllNamed sdk source changes line limit
    operation_specific-AllNamed (allow_trust trustor asset) = (refl, tt)
    operation_specific-AllNamed (account_merge to balance) = (refl, (refl, (refl, tt)))
    operation_specific-AllNamed (inflation payouts) = payout_effects-AllNamed payouts
    operation_specific-AllNamed (manage_data name) = manage_data-AllNamed sdk source changes name
    operation_specific-AllNamed bump_sequence = bump_sequence-AllNamed sdk source changes
    operation_specific-AllNamed create_claimable_balance =
        create_claimable_balance-AllNamed sdk source changes
    operation_specific-AllNamed (claim_claimable_balance id) =
        claim_claimable_balance-AllNamed sdk source changes id
    operation_specific-AllNamed (clawback_claimable_balance id) =
        clawback_claimable_balance-AllNamed sdk source changes id
    operation_specific-AllNamed (clawback from asset amount) = (refl, (refl, tt))
    operation_specific-AllNamed (set_trust_line_flags trustor asset set clear) = (refl, tt)
    operation_specific-AllNamed (liquidity_pool_deposit id) =
        deposit_effects-AllNamed sdk source id changes
    operation_specific-AllNamed (liquidity_pool_withdraw id) =
        withdraw_effects-AllNamed sdk source id changes
    operation_specific-AllNamed invoke_host_function =
        invoke_host_function-AllNamed sdk source network events
    operation_specific-AllNamed restore_footprint =
        (footprint_effects-AllNamed sdk source 0 changes).1
    operation_specific-AllNamed (extend_footprint_ttl to) =
        (footprint_effects-AllNamed sdk source to changes).0
    operation_specific-AllNamed begin_sponsoring = tt
    operation_specific-AllNamed end_sponsoring = tt
    operation_specific-AllNamed revoke_sponsorship = tt

  cross_cutting-AllNamed :
      (changes : List EffectChange) → AllNamed (cross_cutting sdk source changes)
  unfolding cross_cutting
  cross_cutting-AllNamed [] = tt
  cross_cutting-AllNamed (c ∷ cs) =
      AllNamed-append (sponsorship_effects sdk source c ++ lifecycle_effects sdk source c)
        (cross_cutting sdk source cs)
        (AllNamed-append (sponsorship_effects sdk source c) (lifecycle_effects sdk source c)
          (sponsorship_effects-AllNamed sdk source c) (lifecycle_effects-AllNamed sdk source c))
        (cross_cutting-AllNamed cs)

  operation_effects-AllNamed :
      (network : Text) (changes : Result (List EffectChange))
      (events : Result (List (Result AssetEvent))) (op : EffectOperation)
      → AllNamed (operation_effects sdk source network changes events op)
  unfolding operation_effects cross_cutting_of
  operation_effects-AllNamed network (err e) events op =
      AllNamed-append (operation_specific sdk source network (err e) events op) []
        (operation_specific-AllNamed network (err e) events op) tt
  operation_effects-AllNamed network (ok changes) events op =
      AllNamed-append (operation_specific sdk source network (ok changes) events op)
        (cross_cutting sdk source changes)
        (operation_specific-AllNamed network (ok changes) events op)
        (cross_cutting-AllNamed changes)

-- The row's type has an entry in the map of names, and the row has that name.
abbrev pub HasName : EffectData → Type 0
HasName row =
    (name : Text) × (get row.effect_type effect_type_names ≡ some name)
    × (row.effect_type_string ≡ name)

named_type :
    (t : ℕ)
    → is_named t ≡ true
    → (name : Text) × (get t effect_type_names ≡ some name) × (effect_type_name t ≡ name)
unfolding is_named effect_type_name
named_type t h = ground (arith, Option-cases (get t effect_type_names))

module _ (sdk : EffectSdk) (input : LedgerInput) (network : Text) where
  records_rows-HasName :
      (tx : EffectTransaction) (opi idx : ℕ) (recs : List EffectRecord)
      → AllNamed recs
      → All HasName (records_rows sdk input network tx opi idx recs)
  unfolding records_rows
  records_rows-HasName tx opi idx [] h = tt
  records_rows-HasName tx opi idx (rec ∷ recs) (named, h) = (
    unfold effect_data in named_type rec.effect_type named,
    records_rows-HasName tx opi (idx + 1) recs h,
  )

  operations_rows-HasName :
      (tx : EffectTransaction) (opi : ℕ) (ops : List OperationOf)
      → All HasName (operations_rows sdk input network tx opi ops)
  unfolding operations_rows operation_rows
  operations_rows-HasName tx opi [] = tt
  operations_rows-HasName tx opi (op ∷ ops) =
      All-append HasName (operation_rows sdk input network tx opi op)
        (operations_rows sdk input network tx (opi + 1) ops)
        (records_rows-HasName tx opi 0 _ (
          operation_effects-AllNamed sdk (source_of tx op) network op.changes tx.contract_events
            op.body))
        (operations_rows-HasName tx (opi + 1) ops)

  ledger_effects-HasName :
      (txs : List EffectTransaction) → All HasName (ledger_effects sdk input network txs)
  unfolding ledger_effects transaction_effects
  ledger_effects-HasName [] = tt
  ledger_effects-HasName (tx ∷ txs) =
      All-append HasName (transaction_effects sdk input network tx)
        (ledger_effects sdk input network txs)
        (elim (Bool-cases tx.successful) [
          | inl succeeded ↦ rw succeeded (operations_rows-HasName tx 0 tx.operations)
          | inr failed ↦ rw failed tt
        ])
        (ledger_effects-HasName txs)

  -- Extraction fails only where the transactions cannot be read. Every row that it gives, of
  -- whatever operation, has a type that the map of names knows, and the name that the map has for
  -- it: no row is of an unknown type.
  pub extract_effects-HasName :
      (txs : List EffectTransaction)
      → (rows : List EffectData) × (extract_effects sdk input network (ok txs) ≡ ok rows)
        × All HasName rows
  unfolding extract_effects
  extract_effects-HasName txs =
      (ledger_effects sdk input network txs, refl, ledger_effects-HasName txs)
