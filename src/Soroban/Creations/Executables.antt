-- ===== src/Soroban/Creations/Executables.antt =====
-- The executable columns of a creation.
use stellar_extract.Prelude.{ℕ, ◌≡◌, arith, Option, none, some, [], ◌∷◌, Text}
use stellar_extract.Go.Strings.{codes, hex_encode}
use stellar_extract.Soroban.Creations.{
  Executable, executable_wasm, executable_stellar_asset, executable_external_ref, executable_other,
  ExecutableColumns, apply_executable, columns_of,
}
use stellar_extract.Xdr.{Result, ok, err, Sdk}
use stellar_extract.Xdr.Ledger.{LedgerInput}

-- The column of a text that may be empty.
abbrev HasText : Text → Option Text → Type 0
HasText [] column = column ≡ none
HasText (c ∷ s) column = column ≡ some (c ∷ s)

abbrev HasOwner : Result Text → Option Text → Type 0
HasOwner (ok owner) column = column ≡ some owner
HasOwner (err e) column = column ≡ none

module _ (sdk : Sdk) (executable_type_string : ℕ → Text) where
  abbrev Columns : Text → ExecutableColumns → Type 0
  Columns t columns =
      (columns.executable_type ≡ t)
      × (columns.wasm_hash ≡ none)
      × (columns.external_ref_owner ≡ none)
      × (columns.external_ref_tag ≡ none)

  abbrev pub IsExecutable : Option Executable → ExecutableColumns → Type 0
  IsExecutable none columns = Columns [] columns
  IsExecutable (some (executable_wasm none)) columns = Columns (codes "wasm") columns
  IsExecutable (some (executable_wasm (some hash))) columns =
      (columns.executable_type ≡ codes "wasm")
      × HasText (hex_encode hash) columns.wasm_hash
      × (columns.external_ref_owner ≡ none)
      × (columns.external_ref_tag ≡ none)
  IsExecutable (some executable_stellar_asset) columns = Columns (codes "stellar_asset") columns
  IsExecutable (some (executable_external_ref none)) columns =
      Columns (codes "external_ref") columns
  IsExecutable (some (executable_external_ref (some ref))) columns =
      (columns.executable_type ≡ codes "external_ref")
      × (columns.wasm_hash ≡ none)
      × HasOwner (sdk.address_string ref.executable_owner) columns.external_ref_owner
      × HasText ref.tag columns.external_ref_tag
  IsExecutable (some (executable_other t)) columns = Columns (executable_type_string t) columns

  module _ (address_of : Text → Text) (input : LedgerInput) where
    pub columns_of-IsExecutable :
        (e : Option Executable)
        → IsExecutable e (columns_of sdk address_of executable_type_string input e)
    unfolding apply_executable
    columns_of-IsExecutable e = ground arith
