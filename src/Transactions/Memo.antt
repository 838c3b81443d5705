-- ===== src/Transactions/Memo.antt =====
-- transactions.go: the memo columns of `ExtractTransactions`.
pub mod Lossless
use stellar_extract.Prelude.{ℕ, Bool, true, false, Option, none, some, Text, if◌then◌else◌}
use stellar_extract.Go.Strings.{codes, decimal, hex_encode, base64_encode}
use stellar_extract.Go.Utf8.{valid_string}

-- xdr.Memo
pub data Memo : Type 0 where
  memo_none : Memo
  memo_text : (text : Text) → Memo
  memo_id : (id : ℕ) → Memo
  memo_hash memo_return : (hash : Text) → Memo

pub record MemoColumns : Type 0 where
  pub memo_type : Option Text
  pub memo : Option Text
  pub memo_raw : Option Text

-- the switch on the memo's type; a text is a column only where it is valid UTF-8
unfoldable pub memo_columns : Memo → MemoColumns
unfolding decimal hex_encode base64_encode valid_string
memo_columns memo_none = record { memo_type = some (codes "none"); memo = none; memo_raw = none }
memo_columns (memo_text text) = record {
  memo_type = some (codes "text");
  memo = if valid_string text then some text else none;
  memo_raw = some (base64_encode text);
}
memo_columns (memo_id id) = record {
  memo_type = some (codes "id");
  memo = some (decimal id);
  memo_raw = none;
}
memo_columns (memo_hash hash) = record {
  memo_type = some (codes "hash");
  memo = some (hex_encode hash);
  memo_raw = none;
}
memo_columns (memo_return hash) = record {
  memo_type = some (codes "return");
  memo = some (hex_encode hash);
  memo_raw = none;
}
