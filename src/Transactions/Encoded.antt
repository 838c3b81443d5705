-- ===== src/Transactions/Encoded.antt =====
-- transactions.go: `populateTransactionXDRFields`.
use stellar_extract.Prelude.{ℕ, Option, some, List, map, Text, length}
use stellar_extract.Go.Strings.{codes, base64_encode}
use stellar_extract.Xdr.{Result, ok, on_ok}

-- `xdr.MarshalBase64` of the parts of a transaction, and its signatures
pub record EncodedParts : Type 0 where
  pub envelope : Result Text
  pub result : Result Text
  pub meta : Result Text
  pub fee_changes : Result Text
  pub signatures : List Text

pub record EncodedColumns : Type 0 where
  pub envelope_size_bytes : ℕ
  pub tx_envelope : Option Text
  pub tx_result : Option Text
  pub tx_meta : Option Text
  pub tx_fee_meta : Option Text
  pub tx_signers : Option Text

-- `base64.StdEncoding.DecodeString` and `json.Marshal`
module _ (decode_string : Text → Result Text) (marshal : List Text → Result Text) where
  abbrev pub decoded_base64_length : Text → Result ℕ
  decoded_base64_length encoded = on_ok (codes "") (decode_string encoded) (λ raw. ok (length raw))

  marshal_decorated_signatures : List Text → Result Text
  unfolding base64_encode
  marshal_decorated_signatures signatures = marshal (map base64_encode signatures)

  unfoldable pub populate_transaction_xdr_fields : EncodedParts → Result EncodedColumns
  unfolding marshal_decorated_signatures
  populate_transaction_xdr_fields tx = on_ok (codes "marshal envelope: ") tx.envelope (λ envelope.
      on_ok (codes "size envelope: ") (decoded_base64_length envelope) (λ size.
        on_ok (codes "marshal result: ") tx.result (λ result.
          on_ok (codes "marshal meta: ") tx.meta (λ meta.
            on_ok (codes "marshal fee meta: ") tx.fee_changes (λ fee_meta.
              on_ok (codes "marshal signatures: ") (marshal_decorated_signatures tx.signatures)
                (λ signers. ok (record {
                  envelope_size_bytes = size;
                  tx_envelope = some envelope;
                  tx_result = some result;
                  tx_meta = some meta;
                  tx_fee_meta = some fee_meta;
                  tx_signers = some signers;
                })))))))
