-- ===== src/Transactions/FeeBump.antt =====
-- transactions.go: `populateFeeBumpFields`.
use stellar_extract.Prelude.{ℕ, Option, none, some, ◌++◌, Text}
use stellar_extract.Go.Ints.{ℤ}
use stellar_extract.Go.Strings.{codes, decimal_int, hex_encode}
use stellar_extract.Transactions.{MuxedAccount, to_account_id, get_muxed_address}
use stellar_extract.Xdr.{Result, ok, err, on_ok}

-- the inner transaction of a fee bump: a V1 envelope, or an arm of another type
pub data InnerTransaction : Type 0 where
  inner_v1 : (source_account : MuxedAccount) → (envelope : Text) → InnerTransaction
  inner_other : (inner_type : ℤ) → InnerTransaction

pub record FeeBump : Type 0 where
  pub fee : ℤ
  pub fee_account : MuxedAccount
  pub inner : InnerTransaction

pub record FeeBumpColumns : Type 0 where
  pub fee_bump_fee : Option ℤ
  pub fee_account_muxed : Option Text
  pub inner_source_account : Option Text
  pub inner_transaction_hash : Option Text

abbrev pub no_fee_bump : FeeBumpColumns
no_fee_bump = record {
  fee_bump_fee = none;
  fee_account_muxed = none;
  inner_source_account = none;
  inner_transaction_hash = none;
}

-- The SDK's `Address`, of an account and of a muxed one, and
-- `network.HashTransactionInEnvelope`.
module _ (address_of : Text → Text) (muxed_address : Text → ℕ → Text)
    (hash_transaction : (envelope : Text) → (passphrase : Text) → Result Text) where
  unfoldable pub fee_bump_columns : Text → FeeBump → InnerTransaction → Result FeeBumpColumns
  unfolding decimal_int hex_encode get_muxed_address
  fee_bump_columns passphrase bump (inner_other inner_type) =
      err (codes "fee bump inner transaction has unhandled type " ++ decimal_int inner_type)
  fee_bump_columns passphrase bump (inner_v1 source envelope) =
      on_ok (codes "hash inner transaction: ") (hash_transaction envelope passphrase) (λ hash.
        ok (record {
          fee_bump_fee = some bump.fee;
          fee_account_muxed = get_muxed_address muxed_address bump.fee_account;
          inner_source_account = some (address_of (to_account_id source));
          inner_transaction_hash = some (hex_encode hash);
        }))

  -- the envelope is a fee bump or not
  unfoldable pub populate_fee_bump_fields : Text → Option FeeBump → Result FeeBumpColumns
  unfolding fee_bump_columns
  populate_fee_bump_fields passphrase none = ok no_fee_bump
  populate_fee_bump_fields passphrase (some bump) = fee_bump_columns passphrase bump bump.inner
