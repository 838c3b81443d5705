-- ===== src/EvictedKeys/Rows.antt =====
-- The evicted key rows of a ledger.
use stellar_extract.Prelude.{none, Option, arith, ℕ, ◌≡◌, List, [], Text, text_ordered}
use stellar_extract.Go.Strings.{codes, hex_encode}
use stellar_extract.Ordering.Snapshot.Table.{collect-IsTableOf, Matches, IsTableOf}
use stellar_extract.Xdr.{ok}
use stellar_extract.Xdr.Values.{type_of}
use stellar_extract.Xdr.Ledger.{LedgerInput}
use stellar_extract.EvictedKeys.{
  other_key, Result, contract_code_key, ◌∷◌, err, some, contract_data_key, identify, LedgerKey,
  LedgerCloseMeta, meta_v1, meta_v2, meta_other, KeySdk, EvictedKeyData, evicted_data,
  evicted_from_bytes, evicted_row, rows_of_keys, extract_evicted_keys,
}

-- The evicted keys that a ledger of any version carries; only versions 1 and 2 carry some.
abbrev pub evicted_in : LedgerCloseMeta → List LedgerKey
evicted_in (meta_v1 keys) = keys
evicted_in (meta_v2 keys) = keys
evicted_in (meta_other v) = []

-- A name made from what was marshalled, or another one if there is nothing.
abbrev IsNamed : (Text → Text) → Text → Result Text → Text → Type 0
IsNamed f otherwise (ok (c ∷ bytes)) name = name ≡ f (c ∷ bytes)
IsNamed f otherwise _ name = name ≡ otherwise

module _ (sdk : KeySdk) where
  -- What a carried key shows, where it can be marshalled: itself, and its bytes.
  abbrev pub shown : LedgerKey → Option (LedgerKey × Text)
  shown key = elim (sdk.marshal_key key) [ err e ↦ none | ok bytes ↦ some (key, bytes) ]

  -- The SHA-256 of the key's bytes, in hexadecimal.
  abbrev pub shown_hash : LedgerKey × Text → Text
  shown_hash (key, bytes) = hex_encode (sdk.sha256 bytes)

  -- The contract column of a key is empty where there is no contract or code to name.
  abbrev pub NamesContract : LedgerKey → Text → Type 0
  NamesContract (contract_data_key (some k)) name =
      IsNamed (λ bytes. hex_encode (sdk.sha256 bytes)) [] (sdk.marshal_address k.contract) name
  NamesContract (contract_code_key (some hash)) name =
      IsNamed hex_encode [] (sdk.marshal_hash hash) name
  NamesContract _ name = name ≡ []

  abbrev pub NamesType : LedgerKey → Text → Type 0
  NamesType (contract_data_key (some k)) name =
      IsNamed (λ bytes. sdk.val_type_string (type_of k.key)) (codes "ContractData")
        (sdk.marshal_val k.key) name
  NamesType (contract_data_key none) name = name ≡ codes "ContractData"
  NamesType (contract_code_key hash) name = name ≡ codes "ContractCode"
  NamesType (other_key t) name = name ≡ sdk.key_type_string t

  module _ (input : LedgerInput) where
    pub record IsEvictedRow (key : LedgerKey) (row : EvictedKeyData) : Type 0 where
      pub of_contract : NamesContract key row.contract_id
      pub of_type : NamesType key row.key_type
      pub unknown_durability : row.durability ≡ codes "unknown"
      pub of_ledger : row.ledger_sequence ≡ input.sequence
      pub closed : row.closed_at ≡ input.closed_at
      pub in_range : row.ledger_range ≡ input.ledger_range
      pub of_era : row.era_id ≡ input.era_id

    abbrev pub RowOf : LedgerKey × Text → EvictedKeyData → Type 0
    RowOf (key, bytes) row = IsEvictedRow key row

    module _ (clock : ℕ → ℕ) where
      identify-Names :
          (key : LedgerKey)
          → NamesContract key (identify sdk key).0 × NamesType key (identify sdk key).1
      unfolding identify hex_encode
      identify-Names key = ground arith

      evicted_row-Matches :
          (n : ℕ) (key : LedgerKey)
          → Matches
              (λ r. r.key_hash)
              (λ s v. RowOf s v × (v.key_hash ≡ shown_hash s))
              (shown key)
              (evicted_row sdk clock input n key)
      unfolding evicted_row evicted_from_bytes evicted_data
      evicted_row-Matches n key = ground (arith, identify-Names key)

      rows_of_keys-IsTableOf :
          (keys : List LedgerKey)
          → IsTableOf
              (λ r. r.key_hash)
              shown
              shown_hash
              RowOf
              keys
              (rows_of_keys sdk clock input keys)
      unfolding rows_of_keys
      rows_of_keys-IsTableOf =
          collect-IsTableOf (λ r. r.key_hash) shown shown_hash RowOf (evicted_row sdk clock input)
            evicted_row-Matches

      -- On ledgers of every version, every carried key that can be marshalled has a row under its
      -- hash, that of the last such key, and there is no other row; the rows are in increasing order
      -- of the hashes, and each names the contract or the code of its key, and the type.
      pub extract_evicted_keys-IsTableOf :
          (lcm : LedgerCloseMeta)
          → IsTableOf
              (λ r. r.key_hash)
              shown
              shown_hash
              RowOf
              (evicted_in lcm)
              (extract_evicted_keys sdk clock input lcm)
      extract_evicted_keys-IsTableOf (meta_v1 keys) =
          unfold extract_evicted_keys in rows_of_keys-IsTableOf keys
      extract_evicted_keys-IsTableOf (meta_v2 keys) =
          unfold extract_evicted_keys in rows_of_keys-IsTableOf keys
      extract_evicted_keys-IsTableOf (meta_other v) =
          unfold extract_evicted_keys in record { ordered = tt; latest = λ k. tt }
