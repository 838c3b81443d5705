-- ===== src/Tests/Transactions.antt =====
-- Examples of transactions.go.
use stellar_extract.Prelude.{◌≡◌, true, none, some, List, [], ◌∷◌, ◌++◌, arith}
use stellar_extract.Go.Ints.{pos}
use stellar_extract.Go.Strings.{codes}
use stellar_extract.Transactions.{key_ed25519}
use stellar_extract.Transactions.Declared.{meta_v4}
use stellar_extract.Transactions.FeeBump.{inner_v1, inner_other}
use stellar_extract.Transactions.Memo.{Memo, memo_text, memo_columns}
use stellar_extract.Transactions.Memo.Lossless.{read_memo, read_memo-memo_columns}
use stellar_extract.Transactions.Columns.{TransactionSdk, Transaction}
use stellar_extract.Transactions.Rows.{extract_transactions}
use stellar_extract.Transactions.Rows.Outcome.{IsOutcome, extract_transactions-IsOutcome}
use stellar_extract.Xdr.{ok}
use stellar_extract.Tests.Data.{sdk, events, input}

-- Bytes that are no UTF-8.
abbrev memo : Memo
memo = memo_text (255 ∷ 104 ∷ [])

read_memo-memo_columns_example : read_memo (memo_columns memo) ≡ memo
read_memo-memo_columns_example = read_memo-memo_columns memo (omega arith, (omega arith, tt))

abbrev transaction_sdk : TransactionSdk
transaction_sdk = record {
  base = sdk;
  address_of = λ id. codes "G" ++ id;
  muxed_address = λ account id. codes "M" ++ account;
  signer_address = λ key. key;
  hash_transaction = λ envelope passphrase. ok envelope;
  decode_string = λ encoded. ok encoded;
  marshal_texts = λ texts. ok (codes "[]");
  marshal_fields = λ details. ok (codes "{}");
  toid = λ ledger tx operation. tx;
}

-- A Soroban transaction under a fee bump.
abbrev transaction : Transaction
transaction = record {
  transaction_hash = codes "h";
  source_account = key_ed25519 (codes "a");
  fee_charged = pos 100;
  fee = 200;
  successful = true;
  result_code = codes "TransactionResultCodeTxSuccess";
  operations = [];
  seq_num = pos 9;
  time_bounds = some (record { min_time = 0; max_time = 50 });
  memo = memo;
  meta = meta_v4 (some (some (pos 3)));
  resources = record { instructions = some 1000; disk_read_bytes = some 10; write_bytes = some 20 };
  soroban_data = none;
  is_soroban_tx = true;
  operation_events = ok (1 ∷ 2 ∷ []);
  diagnostic_events = ok events;
  fee_bump = some (record {
    fee = pos 400;
    fee_account = key_ed25519 (codes "f");
    inner = inner_v1 (key_ed25519 (codes "a")) (codes "e");
  });
  preconditions = none;
  encoded = record {
    envelope = ok (codes "e");
    result = ok (codes "r");
    meta = ok (codes "m");
    fee_changes = ok (codes "c");
    signatures = codes "s" ∷ [];
  };
}

-- The second transaction has an inner transaction of an unknown type.
abbrev transactions : List Transaction
transactions =
    transaction
    ∷ record transaction {
      fee_bump = some (record {
        fee = pos 400;
        fee_account = key_ed25519 (codes "f");
        inner = inner_other (pos 7);
      });
    }
    ∷ []

extract_transactions-IsOutcome_example :
    IsOutcome transaction_sdk
      (codes "net")
      input
      transactions
      (extract_transactions transaction_sdk input (codes "net") (ok transactions))
extract_transactions-IsOutcome_example =
    extract_transactions-IsOutcome transaction_sdk (codes "net") input transactions
