-- ===== src/Soroban/RestoredKeys/Table.antt =====
-- The restored key rows of a ledger.
use stellar_extract.Prelude.{
  arith, ℕ, ◌≡◌, Bool, true, false, Option, none, some, List, [], Text, text_ordered,
}
use stellar_extract.Go.Strings.{codes, hex_encode}
use stellar_extract.Ordering.Snapshot.Table.{Matches, IsTableOf, collect-IsTableOf}
use stellar_extract.Soroban.RestoredKeys.{
  persistent, temporary, durability_other, RestoredKey, restored_data, restored_code, restored_ttl,
  RestoredEntry, KeyChange, RestoreSdk, RestoredKeyData, restored_entry_durability, with_era,
  restored_names, restored_from_bytes, extract_restored_key_data, restored_entry_row, restored_row,
  extract_restored_keys,
}
use stellar_extract.Xdr.{Result, ok, err}
use stellar_extract.Xdr.Ledger.{LedgerInput}
use stellar_extract.Xdr.Values.{type_of}

-- The ledger that a restored entry comes from, its key, and the bytes of the key.
abbrev pub Shown : Type 0
Shown = ℕ × RestoredKey × Text

abbrev pub Lasts : RestoredKey → Text → Type 0
Lasts (restored_data (some d)) text = elim d.durability [
  | persistent ↦ text ≡ codes "persistent"
  | temporary ↦ text ≡ codes "temporary"
  | durability_other n ↦ text ≡ codes "unknown"
]
Lasts (restored_code hash) text = text ≡ codes "persistent"
Lasts restored_ttl text = text ≡ codes "persistent"
Lasts _ text = text ≡ codes "unknown"

-- A name is that of a hash that is set and can be marshalled, and is empty otherwise.
abbrev IsHexOf : Result Text → Text → Type 0
IsHexOf (ok bytes) name = name ≡ hex_encode bytes
IsHexOf (err e) name = name ≡ []

module _ (sdk : RestoreSdk) where
  abbrev pub NamesHash : Option Text → Text → Type 0
  NamesHash (some hash) name = IsHexOf (sdk.marshal_hash hash) name
  NamesHash none name = name ≡ []

  abbrev pub Names : RestoredKey → Text → Text → Type 0
  Names (restored_data none) contract key_type = (contract ≡ []) × (key_type ≡ codes "ContractData")
  Names (restored_data (some d)) contract key_type =
      NamesHash d.contract_id contract × (key_type ≡ sdk.val_type_string (type_of d.key))
  Names (restored_code hash) contract key_type =
      NamesHash hash contract × (key_type ≡ codes "ContractCode")
  Names key contract key_type = (contract ≡ []) × (key_type ≡ sdk.key_type_string key)

  -- A restoration shows the entry after it, where its key can be derived and marshalled; no other
  -- change shows anything.
  abbrev with_bytes : ℕ → RestoredKey → Result Text → Option Shown
  with_bytes from key (ok bytes) = some (from, key, bytes)
  with_bytes from key (err e) = none

  abbrev with_key : ℕ → Result RestoredKey → Option Shown
  with_key from (ok key) = with_bytes from key (sdk.marshal_key key)
  with_key from (err e) = none

  abbrev with_post : Bool → Option RestoredEntry → Option Shown
  with_post true (some entry) = with_key entry.last_modified_ledger_seq entry.ledger_key
  with_post _ _ = none

  abbrev pub shown : KeyChange → Option Shown
  shown change = with_post change.is_restored change.post

  -- The SHA-256 of the key's bytes, in hexadecimal.
  abbrev pub shown_hash : Shown → Text
  shown_hash (from, key, bytes) = hex_encode (sdk.sha256 bytes)

  module _ (input : LedgerInput) where
    pub record IsRestoredRow (from : ℕ) (key : RestoredKey) (row : RestoredKeyData) : Type 0 where
      pub lasting : Lasts key row.durability
      pub names : Names key row.contract_id row.key_type
      pub brought_back : row.restored_from_ledger ≡ from
      pub of_ledger : row.ledger_sequence ≡ input.sequence
      pub closed : row.closed_at ≡ input.closed_at
      pub in_range : row.ledger_range ≡ input.ledger_range
      pub of_era : row.era_id ≡ input.era_id

    abbrev pub RowOf : Shown → RestoredKeyData → Type 0
    RowOf (from, key, bytes) row = IsRestoredRow from key row

    abbrev MatchesRow : Option Shown → Option RestoredKeyData → Type 0
    MatchesRow = Matches (λ r. r.key_hash) (λ s v. RowOf s v × (v.key_hash ≡ shown_hash s))

    lasts : (key : RestoredKey) → Lasts key (restored_entry_durability key)
    unfolding restored_entry_durability
    lasts key = ground arith

    module _ (clock : ℕ → ℕ) where
      named :
          (key : RestoredKey)
          → Names key (restored_names sdk clock input key).0 (restored_names sdk clock input key).1
      unfolding restored_names
      named key = ground arith

      of_bytes :
          (n from : ℕ) (key : RestoredKey) (r : Result Text)
          → MatchesRow (with_bytes from key r) (
              with_era sdk clock input
                (restored_from_bytes sdk clock input n key (restored_entry_durability key) from r))
      unfolding restored_from_bytes
      of_bytes n from key (err e) = tt
      of_bytes n from key (ok bytes) = ground (arith, lasts key, named key)

      of_key :
          (n from : ℕ) (key : Result RestoredKey)
          → MatchesRow (with_key from key) (restored_entry_row sdk clock input n from key)
      unfolding restored_entry_row extract_restored_key_data
      of_key n from (err e) = tt
      of_key n from (ok key) = of_bytes n from key (sdk.marshal_key key)

      of_post :
          (n : ℕ) (restored : Bool) (post : Option RestoredEntry)
          → MatchesRow
              (with_post restored post)
              (restored_row sdk clock input n (record { is_restored = restored; post = post }))
      unfolding restored_row
      of_post n false post = tt
      of_post n true none = tt
      of_post n true (some entry) = of_key n entry.last_modified_ledger_seq entry.ledger_key

      -- The rows are those of the restorations, whatever operation the transaction has, and of no
      -- other change: every hash of a restored entry, whose key can be derived and marshalled, has
      -- the row of the last such entry, in increasing order of the hashes, with the durability that
      -- its key states, the names of its contract and type, and the ledger it comes from.
      pub extract_restored_keys-IsTableOf :
          (changes : List KeyChange)
          → IsTableOf
              (λ r. r.key_hash)
              shown
              shown_hash
              RowOf
              changes
              (extract_restored_keys sdk clock input (ok changes))
      unfolding extract_restored_keys
      extract_restored_keys-IsTableOf =
          collect-IsTableOf (λ r. r.key_hash) shown shown_hash RowOf (restored_row sdk clock input)
            (λ n change. of_post n change.is_restored change.post)
