-- ===== src/Ledgers.antt =====
-- ledgers.go, types_core.go: `ExtractLedgers`.
pub mod Counts
use stellar_extract.Prelude.{
  ℕ, ◌+◌, ◌-◌, ◌%◌, ◌^◌, Bool, true, false, Option, none, some, List, [], ◌∷◌, ◌++◌, if◌then◌else◌,
  Text, length, map,
}
use stellar_extract.Go.Ints.{ℤ, to_i32, to_i64}
use stellar_extract.Go.Strings.{codes, decimal_int, hex_encode, base64_encode}
use stellar_extract.Xdr.{Result, ok, err}
use stellar_extract.Xdr.Ledger.{LedgerInput}
use stellar_extract.ScVal.Integers.{to_u64}

-- xdr.LedgerCloseValueSignature; the node's key as `GetEd25519` finds it
pub record ValueSignature : Type 0 where
  pub node_id : Option Text
  pub signature : Text

-- the arms of xdr.StellarValueExt
pub data ValueExt : Type 0 where
  value_basic : ValueExt
  value_signed value_empty_tx_set : Option ValueSignature → ValueExt

pub record LedgerHeader : Type 0 where
  pub hash : Text
  pub previous_ledger_hash : Text
  pub ledger_version : ℕ
  pub total_coins : ℤ
  pub fee_pool : ℤ
  pub base_fee : ℕ
  pub base_reserve : ℕ
  pub max_tx_set_size : ℕ
  pub scp_value : ValueExt
  -- `MarshalBinary` of the header
  pub marshalled : Result Text

-- xdr.TransactionMeta, by the numbers of its events
pub data TransactionMeta : Type 0 where
  meta_v3 : Option ℕ → TransactionMeta
  meta_v4 : List ℕ → TransactionMeta
  meta_other : TransactionMeta

-- an applied transaction; `OperationResults()` by its length
pub record AppliedTransaction : Type 0 where
  pub operation_results : Option ℕ
  pub successful : Bool
  pub fee_charged : ℤ
  pub apply_meta : TransactionMeta

-- what versions 1 and 2 have in common
pub record CloseMeta : Type 0 where
  pub soroban_fee_write_1kb : Option ℤ
  pub total_byte_size_of_live_soroban_state : ℕ
  pub evicted_keys : ℕ
  pub tx_processing : List AppliedTransaction

-- xdr.LedgerCloseMeta; version 0 has the number of operations of each transaction of the set
pub data CloseMetaUnion : Type 0 where
  lcm_v0 : LedgerHeader → List ℕ → CloseMetaUnion
  lcm_v1 lcm_v2 : LedgerHeader → CloseMeta → CloseMetaUnion
  lcm_unknown : ℤ → CloseMetaUnion

pub data OperationType : Type 0 where
  invoke_host_function extend_footprint_ttl restore_footprint : OperationType
  other_operation_type : OperationType

pub record LedgerRowData : Type 0 where
  pub sequence : ℕ
  pub ledger_hash : Text
  pub previous_ledger_hash : Text
  pub closed_at : ℕ
  pub protocol_version : ℕ
  pub total_coins : ℤ
  pub fee_pool : ℤ
  pub base_fee : ℕ
  pub base_reserve : ℕ
  pub max_tx_set_size : ℕ
  pub transaction_count : ℕ
  pub operation_count : ℕ
  pub successful_tx_count : ℕ
  pub failed_tx_count : ℕ
  pub tx_set_operation_count : ℕ
  pub soroban_fee_write_1kb : Option ℤ
  pub node_id : Option Text
  pub signature : Option Text
  pub ledger_header : Option Text
  pub bucket_list_size : Option ℤ
  pub live_soroban_state_size : Option ℤ
  pub evicted_keys_count : Option ℤ
  pub soroban_op_count : ℤ
  pub total_fee_charged : ℤ
  pub contract_events_count : ℤ
  pub ingestion_timestamp : ℕ
  pub ledger_range : ℕ
  pub pipeline_version : Text
  pub era_id : Option Text

-- sums that wrap
abbrev pub add_u32 : ℕ → ℕ → ℕ
add_u32 a b = (a + b) % 2 ^ 32

abbrev pub sub_u32 : ℕ → ℕ → ℕ
sub_u32 a b = (a + 2 ^ 32 - b) % 2 ^ 32

abbrev pub sum_u32 : List ℕ → ℕ
sum_u32 [] = 0
sum_u32 (n ∷ ns) = add_u32 n (sum_u32 ns)

abbrev pub count_envelope_operations : List (List OperationType) → ℕ
count_envelope_operations envelopes = sum_u32 (map length envelopes)

unfoldable pub scp_value_signature : ValueExt → Option ValueSignature
scp_value_signature value_basic = none
scp_value_signature (value_signed signature) = signature
scp_value_signature (value_empty_tx_set proposed) = proposed

abbrev or_zero_events : Option ℕ → ℕ
or_zero_events none = 0
or_zero_events (some n) = n % 2 ^ 32

-- an int32 by its bits
unfoldable pub count_ledger_contract_events : TransactionMeta → ℕ
count_ledger_contract_events (meta_v3 events) = or_zero_events events
count_ledger_contract_events (meta_v4 operations) = sum_u32 operations
count_ledger_contract_events meta_other = 0

-- what one transaction adds to the counts of operations and of failures
abbrev pub operations_counted : AppliedTransaction → ℕ
operations_counted tx = elim tx.operation_results [
  | none ↦ 0
  | some n ↦ if tx.successful then n else 0
]

abbrev pub failures_counted : AppliedTransaction → ℕ
failures_counted tx = elim tx.operation_results [
  | none ↦ 1
  | some n ↦ if tx.successful then 0 else 1
]

abbrev pub is_soroban : OperationType → ℕ
is_soroban other_operation_type = 0
is_soroban _ = 1

soroban_ops : List OperationType → ℕ
soroban_ops ops = sum_u32 (map is_soroban ops)

-- the sum of the fees, an int64 by its bits
sum_fees : List AppliedTransaction → ℕ
sum_fees [] = 0
sum_fees (tx ∷ txs) = (to_u64 tx.fee_charged + sum_fees txs) % 2 ^ 64

header_or_none : Result Text → Option Text
unfolding base64_encode
header_or_none (err e) = none
header_or_none (ok bytes) = some (base64_encode bytes)

abbrev encoded : Option Text → Option Text
unfolding base64_encode
encoded none = none
encoded (some bytes) = some (base64_encode bytes)

node_of : Option ValueSignature → Option Text
unfolding encoded
node_of none = none
node_of (some s) = encoded s.node_id

signature_of : Option ValueSignature → Option Text
unfolding base64_encode
signature_of none = none
signature_of (some s) = some (base64_encode s.signature)

-- what the switches on the version read
pub record Read : Type 0 where
  pub tx_count : ℕ
  pub failed_count : ℕ
  pub operation_count : ℕ
  pub meta_fields : Option CloseMeta
  pub applied : List AppliedTransaction

unfoldable pub read_v0 : List ℕ → Read
read_v0 txs = record {
  tx_count = length txs % 2 ^ 32;
  failed_count = 0;
  operation_count = sum_u32 txs;
  meta_fields = none;
  applied = [];
}

unfoldable pub read_processing : CloseMeta → Read
read_processing m = record {
  tx_count = length m.tx_processing % 2 ^ 32;
  failed_count = sum_u32 (map failures_counted m.tx_processing);
  operation_count = sum_u32 (map operations_counted m.tx_processing);
  meta_fields = some m;
  applied = m.tx_processing;
}

abbrev field_of : (CloseMeta → ℤ) → Option CloseMeta → Option ℤ
field_of f none = none
field_of f (some m) = some (f m)

abbrev fee_write : Option CloseMeta → Option ℤ
fee_write none = none
fee_write (some m) = m.soroban_fee_write_1kb

-- `version` is the package's `Version`, `envelopes` the SDK's `TransactionEnvelopes`
module _ (version : Text) (now : ℕ) (input : LedgerInput)
    (envelopes : List (List OperationType)) where
  unfoldable pub ledger_row : LedgerHeader → Read → LedgerRowData
  unfolding hex_encode scp_value_signature header_or_none node_of signature_of soroban_ops sum_fees
      count_ledger_contract_events
  ledger_row h r = record {
    sequence = input.sequence;
    ledger_hash = hex_encode h.hash;
    previous_ledger_hash = hex_encode h.previous_ledger_hash;
    closed_at = input.closed_at;
    protocol_version = h.ledger_version;
    total_coins = h.total_coins;
    fee_pool = h.fee_pool;
    base_fee = h.base_fee;
    base_reserve = h.base_reserve;
    max_tx_set_size = h.max_tx_set_size;
    transaction_count = r.tx_count;
    operation_count = r.operation_count;
    successful_tx_count = sub_u32 r.tx_count r.failed_count;
    failed_tx_count = r.failed_count;
    tx_set_operation_count = count_envelope_operations envelopes;
    soroban_fee_write_1kb = fee_write r.meta_fields;
    node_id = node_of (scp_value_signature h.scp_value);
    signature = signature_of (scp_value_signature h.scp_value);
    ledger_header = header_or_none h.marshalled;
    bucket_list_size = field_of (λ m. to_i64 m.total_byte_size_of_live_soroban_state) r.meta_fields;
    live_soroban_state_size =
        field_of (λ m. to_i64 m.total_byte_size_of_live_soroban_state) r.meta_fields;
    evicted_keys_count = field_of (λ m. to_i32 (m.evicted_keys % 2 ^ 32)) r.meta_fields;
    soroban_op_count = to_i32 (sum_u32 (map soroban_ops envelopes));
    total_fee_charged = to_i64 (sum_fees r.applied);
    contract_events_count =
        to_i32 (sum_u32 (map (λ tx. count_ledger_contract_events tx.apply_meta) r.applied));
    ingestion_timestamp = now;
    ledger_range = input.ledger_range;
    pipeline_version = version;
    era_id = input.era_id;
  }

  unfoldable pub extract_ledgers : CloseMetaUnion → Result (List LedgerRowData)
  unfolding read_v0 read_processing ledger_row decimal_int
  extract_ledgers (lcm_v0 h txs) = ok (ledger_row h (read_v0 txs) ∷ [])
  extract_ledgers (lcm_v1 h m) = ok (ledger_row h (read_processing m) ∷ [])
  extract_ledgers (lcm_v2 h m) = ok (ledger_row h (read_processing m) ∷ [])
  extract_ledgers (lcm_unknown v) = err (codes "unknown LedgerCloseMeta version: " ++ decimal_int v)
