-- ===== src/Xdr.antt =====
-- What the extractors read of the SDK's XDR data, and the SDK functions that they call. The SDK is
-- not part of this repository: its functions are the fields of a record, which the code that calls
-- them takes as an argument.
pub mod Values
pub mod Ledger
use mathlib.Core.Path.{subst}
use stellar_extract.Prelude.{ℕ, ◌≡◌, ◌≢◌, ◌⊎◌, inl, inr, refl, ap, Option, Text, ◌++◌}
use stellar_extract.Xdr.Values.{ScValType, ScErrorType, ScAddress}

-- Go's `(value, error)`: the error is its message.
pub data Result {ℓ} (A : Type ℓ) : Type ℓ where
  ok : A → Result A
  err : Text → Result A

-- `if err != nil { return fmt.Errorf("label: %w", err) }`
abbrev pub on_ok : {A B : Type 0} → Text → Result A → (A → Result B) → Result B
on_ok label (ok a) next = next a
on_ok label (err e) next = err (label ++ e)

pub Result-cases : {A : Type 0} (r : Result A) → ((e : Text) × (r ≡ err e)) ⊎ ((a : A) × (r ≡ ok a))
Result-cases (ok a) = inr (a, refl)
Result-cases (err e) = inl (e, refl)

pub ok-injective {ℓ} : {A : Type ℓ} (a b : A) → ok a ≡ ok b → a ≡ b
ok-injective {A = A} a b e = ap (or_default a) e
  where
    or_default : A → Result A → A
    or_default d (ok x) = x
    or_default d (err e) = d

pub err-ne-ok {ℓ} : {A : Type ℓ} (e : Text) (a : A) → err e ≢ ok a
err-ne-ok {A = A} e a h = subst is_err h tt
  where
    is_err : Result A → Type 0
    is_err (ok x) = ⊥
    is_err (err m) = Unit

pub data VersionByte : Type 0 where
  version_account_id version_contract version_muxed_account : VersionByte
  version_claimable_balance version_liquidity_pool : VersionByte

-- The SDK as the converters and the call graph use it.
pub record Sdk : Type 0 where
  -- `strkey.Encode`
  pub strkey_encode : VersionByte → Text → Result Text
  -- the `String` methods of the XDR enumerations
  pub type_string : ScValType → Text
  pub error_type_string : ScErrorType → Text
  pub error_code_string : ℕ → Text
  pub address_type_string : ℕ → Text
  pub balance_id_type_string : ℕ → Text
  -- `ScAddress.String`, `ScAddress.GetContractId`
  pub address_string : ScAddress → Result Text
  pub get_contract_id : ScAddress → Option Text
