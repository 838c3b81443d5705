-- ===== src/Tests/Ledgers.antt =====
-- An example of ledgers.go.
use stellar_extract.Prelude.{arith, true, false, none, some, List, [], ◌∷◌}
use stellar_extract.Go.Ints.{pos}
use stellar_extract.Go.Strings.{codes}
use stellar_extract.Xdr.{ok}
use stellar_extract.Ledgers.{
  LedgerHeader, value_signed, meta_v3, meta_v4, CloseMeta, lcm_v1, OperationType,
  invoke_host_function, other_operation_type, extract_ledgers,
}
use stellar_extract.Ledgers.Counts.{CountsOf, extract_ledgers-CountsOf}
use stellar_extract.Tests.Data.{input}

abbrev header : LedgerHeader
header = record {
  hash = codes "h";
  previous_ledger_hash = codes "p";
  ledger_version = 23;
  total_coins = pos 1000;
  fee_pool = pos 5;
  base_fee = 100;
  base_reserve = 5000000;
  max_tx_set_size = 1000;
  scp_value = value_signed (some (record { node_id = some (codes "n"); signature = codes "s" }));
  marshalled = ok (codes "xdr");
}

-- One transaction succeeds, one fails, and one has no results.
abbrev close_meta : CloseMeta
close_meta = record {
  soroban_fee_write_1kb = some (pos 3);
  total_byte_size_of_live_soroban_state = 77;
  evicted_keys = 1;
  tx_processing =
      record {
        operation_results = some 2;
        successful = true;
        fee_charged = pos 200;
        apply_meta = meta_v3 (some 1);
      }
      ∷ record {
        operation_results = some 1;
        successful = false;
        fee_charged = pos 100;
        apply_meta = meta_v3 none;
      }
      ∷ record {
        operation_results = none;
        successful = false;
        fee_charged = pos 100;
        apply_meta = meta_v4 (2 ∷ []);
      }
      ∷ [];
}

abbrev envelopes : List (List OperationType)
envelopes = (invoke_host_function ∷ other_operation_type ∷ []) ∷ (other_operation_type ∷ []) ∷ []

extract_ledgers-CountsOf_example :
    CountsOf
      (lcm_v1 header close_meta)
      (extract_ledgers (codes "dev") 1000 input envelopes (lcm_v1 header close_meta))
extract_ledgers-CountsOf_example =
    extract_ledgers-CountsOf (codes "dev") 1000 input envelopes (lcm_v1 header close_meta)
      (omega arith)
