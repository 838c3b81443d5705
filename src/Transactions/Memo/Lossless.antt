-- ===== src/Transactions/Memo/Lossless.antt =====
-- The memo can be read back from its columns.
use stellar_extract.Prelude.{
  ◌≡◌, refl, ap, Option, none, some, Text, text_ordered, ◌==◌, if◌then◌else◌,
}
use stellar_extract.Go.Strings.{codes}
use stellar_extract.Go.Strings.Decimal.{read_decimal, read_decimal-decimal}
use stellar_extract.Go.Strings.Decode.{
  AreBytes, hex_decode, hex_decode-encode, base64_decode, base64_decode-encode,
}
use stellar_extract.Transactions.Memo.{
  Memo, memo_none, memo_text, memo_id, memo_hash, memo_return, MemoColumns, memo_columns,
}

abbrev read_or_empty : Option Text → Text
read_or_empty none = codes ""
read_or_empty (some s) = s

-- A reader of the columns, which goes by the type, and of a text by the raw bytes alone.
abbrev read_as : Text → MemoColumns → Memo
read_as t c =
    if t == codes "text"
    then memo_text (base64_decode (read_or_empty c.memo_raw))
    else if t == codes "id"
    then memo_id (read_decimal (read_or_empty c.memo))
    else if t == codes "hash"
    then memo_hash (hex_decode (read_or_empty c.memo))
    else if t == codes "return"
    then memo_return (hex_decode (read_or_empty c.memo))
    else memo_none

abbrev pub read_memo : MemoColumns → Memo
read_memo c = read_as (read_or_empty c.memo_type) c

-- The text or the hash of the memo consists of bytes.
abbrev pub HasBytes : Memo → Type 0
HasBytes memo_none = Unit
HasBytes (memo_text text) = AreBytes text
HasBytes (memo_id id) = Unit
HasBytes (memo_hash hash) = AreBytes hash
HasBytes (memo_return hash) = AreBytes hash

-- The columns keep the memo, whatever bytes it holds: its type tells how to read them, and reading a
-- text from its raw column, a number from its digits and a hash from its hexadecimal text gives the
-- memo back.
pub read_memo-memo_columns : (m : Memo) → HasBytes m → read_memo (memo_columns m) ≡ m
unfolding memo_columns
read_memo-memo_columns memo_none h = refl
read_memo-memo_columns (memo_text text) h = ap memo_text (base64_decode-encode text h)
read_memo-memo_columns (memo_id id) h = ap memo_id (read_decimal-decimal id)
read_memo-memo_columns (memo_hash hash) h = ap memo_hash (hex_decode-encode hash h)
read_memo-memo_columns (memo_return hash) h = ap memo_return (hex_decode-encode hash h)
