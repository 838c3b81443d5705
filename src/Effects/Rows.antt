-- ===== src/Effects/Rows.antt =====
-- effects.go, types_core.go: `ExtractEffects`.
pub mod Indexes
use stellar_extract.Prelude.{
  ℕ, ◌+◌, Bool, Option, none, some, List, [], ◌∷◌, ◌++◌, if◌then◌else◌, Text,
}
use stellar_extract.Effects.{EffectSdk, EffectRecord, EffectChange}
use stellar_extract.Effects.Contracts.{AssetEvent}
use stellar_extract.Effects.Names.{effect_type_name}
use stellar_extract.Effects.Operations.{EffectOperation, operation_effects}
use stellar_extract.Go.Ints.{ℤ, to_i32}
use stellar_extract.Go.Strings.{codes, hex_encode}
use stellar_extract.ScVal.Json.{Json, Fields, end, field, get_field, format_v}
use stellar_extract.Xdr.{Result, ok, err}
use stellar_extract.Xdr.Ledger.{LedgerInput}

-- EffectData, but for the columns that the code never sets: trustline_limit, authorize_flag,
-- clawback_flag, signer_account, signer_weight, offer_id and seller_account.
pub record EffectData : Type 0 where
  pub ledger_sequence : ℕ
  pub transaction_hash : Text
  pub operation_index : ℕ
  pub effect_index : ℕ
  pub effect_type : ℕ
  pub effect_type_string : Text
  pub account_id : Option Text
  pub amount : Option Text
  pub asset_code : Option Text
  pub asset_issuer : Option Text
  pub asset_type : Option Text
  pub operation_id : Option ℤ
  pub details_json : Option Text
  pub created_at : ℕ
  pub ledger_range : ℕ
  pub era_id : Option Text

-- an operation: its own source account, its body, and `GetOperationChanges` of it
pub record OperationOf : Type 0 where
  pub source_account : Option Text
  pub body : EffectOperation
  pub changes : Result (List EffectChange)

-- what is read of a transaction; `contract_events` is `GetContractEvents`, each event with
-- `NewStellarAssetContractEvent` of it
pub record EffectTransaction : Type 0 where
  pub successful : Bool
  pub transaction_hash : Text
  pub index : ℕ
  pub source_account : Text
  pub operations : List OperationOf
  pub contract_events : Result (List (Result AssetEvent))

-- `sourceAccount`
abbrev pub source_of : EffectTransaction → OperationOf → Text
source_of tx op = elim op.source_account [ none ↦ tx.source_account | some source ↦ source ]

module _ (sdk : EffectSdk) (input : LedgerInput) (network : Text) where
  details_json_of : Fields → Option Text
  details_json_of end = none
  details_json_of (field k v fs) = elim (sdk.marshal (field k v fs)) [
    | err e ↦ none
    | ok json ↦ some json
  ]

  -- a column that is copied from the details, as `%v` prints it
  column : Text → Fields → Option Text
  unfolding format_v
  column name details = elim (get_field name details) [
    | none ↦ none
    | some v ↦ some (format_v sdk.base v)
  ]

  unfoldable pub effect_data : EffectTransaction → ℕ → ℕ → EffectRecord → EffectData
  unfolding details_json_of column effect_type_name hex_encode
  effect_data tx opi idx rec = record {
    ledger_sequence = input.sequence;
    transaction_hash = hex_encode tx.transaction_hash;
    operation_index = opi;
    effect_index = idx;
    effect_type = rec.effect_type;
    effect_type_string = effect_type_name rec.effect_type;
    account_id = some rec.address;
    amount = column (codes "amount") rec.details;
    asset_code = column (codes "asset_code") rec.details;
    asset_issuer = column (codes "asset_issuer") rec.details;
    asset_type = column (codes "asset_type") rec.details;
    operation_id = some (sdk.toid (to_i32 input.sequence) (to_i32 tx.index) (to_i32 (opi + 1)));
    details_json = details_json_of rec.details;
    created_at = input.closed_at;
    ledger_range = input.ledger_range;
    era_id = input.era_id;
  }

  -- the loop over the records, from the one at `idx` on
  unfoldable pub records_rows : EffectTransaction → ℕ → ℕ → List EffectRecord → List EffectData
  unfolding effect_data
  records_rows tx opi idx [] = []
  records_rows tx opi idx (rec ∷ recs) =
      effect_data tx opi idx rec ∷ records_rows tx opi (idx + 1) recs

  unfoldable pub operation_rows : EffectTransaction → ℕ → OperationOf → List EffectData
  unfolding records_rows operation_effects
  operation_rows tx opi op =
      records_rows tx opi 0
        (operation_effects sdk (source_of tx op) network op.changes tx.contract_events op.body)

  -- the loop over the operations, from the one at `opi` on
  unfoldable pub operations_rows : EffectTransaction → ℕ → List OperationOf → List EffectData
  unfolding operation_rows
  operations_rows tx opi [] = []
  operations_rows tx opi (op ∷ ops) = operation_rows tx opi op ++ operations_rows tx (opi + 1) ops

  unfoldable pub transaction_effects : EffectTransaction → List EffectData
  unfolding operations_rows
  transaction_effects tx = if tx.successful then operations_rows tx 0 tx.operations else []

  unfoldable pub ledger_effects : List EffectTransaction → List EffectData
  unfolding transaction_effects
  ledger_effects [] = []
  ledger_effects (tx ∷ txs) = transaction_effects tx ++ ledger_effects txs

  unfoldable pub extract_effects : Result (List EffectTransaction) → Result (List EffectData)
  unfolding ledger_effects
  extract_effects (err e) = err (codes "failed to read transactions: " ++ e)
  extract_effects (ok txs) = ok (ledger_effects txs)
