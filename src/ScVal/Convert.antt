-- ===== src/ScVal/Convert.antt =====
-- scval_converter.go: `ConvertScValToJSON`.
use stellar_extract.Prelude.{ℕ, ◌+◌, true, false, Option, none, some, ◌++◌, Text, length}
use stellar_extract.Go.Ints.{ℤ, pos}
use stellar_extract.Go.Strings.{codes, hex_encode, base64_encode}
use stellar_extract.Xdr.{Result, ok, err, Sdk}
use stellar_extract.Xdr.Values.{
  Parts128, Parts256, ScAddress, ScError, ScVal, ScVals, ScMap, no_vals, and_val, no_entries,
  and_entry, scv_bool, scv_void, scv_error, scv_u32, scv_i32, scv_u64, scv_i64, scv_timepoint,
  scv_duration, scv_u128, scv_i128, scv_u256, scv_i256, scv_bytes, scv_string, scv_symbol,
  scv_vec_unset, scv_vec, scv_map_unset, scv_map, scv_address, scv_contract_instance,
  scv_ledger_key_contract_instance, scv_ledger_key_nonce, scv_executable_tag, scv_other, type_of,
}
use stellar_extract.ScVal.Json.{
  Json, null, bool, num, str, arr, obj, error_code, Items, nil, cons, append_item, Fields, end,
  field, put_field, format_v,
}
use stellar_extract.ScVal.Integers.{
  uint128_to_string, int128_to_string, uint256_to_string, int256_to_string, uint256_to_hex,
  int256_to_hex,
}
use stellar_extract.ScVal.Addresses.{convert_sc_address}

-- `if val.X == nil { return nil, … }`, and the value of the arm otherwise
abbrev or_nil : {A : Type 0} → Option A → Text → (A → Json) → Result Json
or_nil none name f = err (name ++ codes " has nil value")
or_nil (some a) name f = ok (f a)

abbrev typed : Text → Fields → Json
typed kind fs = obj (field (codes "type") (str kind) fs)

u128_json : Parts128 ℕ → Json
unfolding uint128_to_string
u128_json p = typed (codes "u128") (
    field (codes "hi") (num (pos p.hi))
      (field (codes "lo") (num (pos p.lo)) (field (codes "value") (str (uint128_to_string p)) end)))

i128_json : Parts128 ℤ → Json
unfolding int128_to_string
i128_json p = typed (codes "i128") (
    field (codes "hi") (num p.hi)
      (field (codes "lo") (num (pos p.lo)) (field (codes "value") (str (int128_to_string p)) end)))

parts_256 : Text → ℤ → ℕ → ℕ → ℕ → Text → Text → Json
parts_256 kind hi_hi hi_lo lo_hi lo_lo value hex = typed kind (
    field (codes "hi_hi") (num hi_hi) (
      field (codes "hi_lo") (num (pos hi_lo)) (
        field (codes "lo_hi") (num (pos lo_hi)) (
          field (codes "lo_lo") (num (pos lo_lo))
            (field (codes "value") (str value) (field (codes "hex") (str hex) end))))))

u256_json : Parts256 ℕ → Json
unfolding parts_256 uint256_to_string uint256_to_hex
u256_json p =
    parts_256 (codes "u256") (pos p.hi_hi) p.hi_lo p.lo_hi p.lo_lo (uint256_to_string p)
      (uint256_to_hex p)

i256_json : Parts256 ℤ → Json
unfolding parts_256 int256_to_string int256_to_hex
i256_json p =
    parts_256 (codes "i256") p.hi_hi p.hi_lo p.lo_hi p.lo_lo (int256_to_string p) (int256_to_hex p)

bytes_json : Text → Json
unfolding hex_encode base64_encode
bytes_json b = typed (codes "bytes") (
    field (codes "hex") (str (hex_encode b)) (
      field (codes "base64") (str (base64_encode b))
        (field (codes "length") (num (pos (length b))) end)))

module _ (sdk : Sdk) where
  error_json : ScError → Json
  error_json e = typed (codes "error") (
      field (codes "error_type") (str (sdk.error_type_string e.error_type))
        (field (codes "code") (error_code e.code) end))

  address_json : Option ScAddress → Result Json
  address_json none = err (codes "ScvAddress has nil value")
  address_json (some a) = convert_sc_address sdk a

  -- an element that does not convert is reported in its place
  element : ℕ → ScVal → Result Json → Json
  unfolding type_of
  element i item (ok converted) = converted
  element i item (err message) = obj (
      field (codes "index") (num (pos i)) (
        field (codes "error") (str message)
          (field (codes "type") (str (sdk.type_string (type_of item))) end)))

  key_text : Result Json → Text
  unfolding format_v
  key_text (err message) = codes "error:" ++ message
  key_text (ok key) = format_v sdk key

  key_json : Result Json → Json
  key_json (err message) = null
  key_json (ok key) = key

  value_json : ScVal → Result Json → Json
  unfolding type_of
  value_json v (ok value) = value
  value_json v (err message) = obj (
      field (codes "error") (str message)
        (field (codes "type") (str (sdk.type_string (type_of v))) end))

  unfoldable mutual
    unfolding u128_json i128_json u256_json i256_json bytes_json error_json address_json element
        key_text key_json value_json type_of convert_sc_address

    pub convert_sc_val_to_json : ScVal → Result Json
    convert_sc_val_to_json (scv_bool b) = or_nil b (codes "ScvBool") bool
    convert_sc_val_to_json scv_void = ok null
    convert_sc_val_to_json (scv_u32 n) = or_nil n (codes "ScvU32") (λ x. num (pos x))
    convert_sc_val_to_json (scv_i32 n) = or_nil n (codes "ScvI32") num
    convert_sc_val_to_json (scv_u64 n) = or_nil n (codes "ScvU64") (λ x. num (pos x))
    convert_sc_val_to_json (scv_i64 n) = or_nil n (codes "ScvI64") num
    convert_sc_val_to_json (scv_timepoint n) =
        or_nil n (codes "ScvTimepoint")
          (λ x. typed (codes "timepoint") (field (codes "value") (num (pos x)) end))
    convert_sc_val_to_json (scv_duration n) =
        or_nil n (codes "ScvDuration")
          (λ x. typed (codes "duration") (field (codes "value") (num (pos x)) end))
    convert_sc_val_to_json (scv_u128 p) = or_nil p (codes "ScvU128") u128_json
    convert_sc_val_to_json (scv_i128 p) = or_nil p (codes "ScvI128") i128_json
    convert_sc_val_to_json (scv_u256 p) = or_nil p (codes "ScvU256") u256_json
    convert_sc_val_to_json (scv_i256 p) = or_nil p (codes "ScvI256") i256_json
    convert_sc_val_to_json (scv_symbol s) = or_nil s (codes "ScvSymbol") str
    convert_sc_val_to_json (scv_string s) = or_nil s (codes "ScvString") str
    convert_sc_val_to_json (scv_bytes b) = or_nil b (codes "ScvBytes") bytes_json
    convert_sc_val_to_json (scv_address a) = address_json a
    convert_sc_val_to_json scv_vec_unset = err (codes "ScvVec has nil value")
    convert_sc_val_to_json (scv_vec vec) = ok (arr (convert_vals 0 vec))
    convert_sc_val_to_json scv_map_unset = err (codes "ScvMap has nil value")
    convert_sc_val_to_json (scv_map entries) = ok (convert_entries entries end nil)
    convert_sc_val_to_json (scv_contract_instance true) = ok (
        typed (codes "contract_instance")
          (field (codes "value") (str (codes "complex_contract_instance")) end))
    convert_sc_val_to_json (scv_contract_instance false) =
        err (codes "ScvContractInstance has nil value")
    convert_sc_val_to_json scv_ledger_key_contract_instance =
        ok (typed (codes "ledger_key_contract_instance") end)
    convert_sc_val_to_json (scv_ledger_key_nonce n) =
        or_nil n (codes "ScvLedgerKeyNonce")
          (λ x. typed (codes "ledger_key_nonce") (field (codes "nonce") (num x) end))
    convert_sc_val_to_json (scv_error e) = or_nil e (codes "ScvError") (error_json)
    convert_sc_val_to_json (scv_executable_tag t) =
        or_nil t (codes "ScvExecutableTag")
          (λ x. typed (codes "executable_tag") (field (codes "value") (str x) end))
    convert_sc_val_to_json (scv_other n) =
        err (codes "unsupported ScVal type: " ++ sdk.type_string (type_of (scv_other n)))

    pub convert_vals : ℕ → ScVals → Items
    convert_vals i no_vals = nil
    convert_vals i (and_val item vec) =
        cons (element i item (convert_sc_val_to_json item)) (convert_vals (i + 1) vec)

    -- `result` and `ordered_keys` are the variables of the loop
    pub convert_entries : ScMap → Fields → Items → Json
    convert_entries no_entries result ordered_keys =
        typed (codes "map")
          (field (codes "entries") (obj result) (field (codes "keys") (arr ordered_keys) end))
    convert_entries (and_entry k v entries) result ordered_keys =
        convert_entries entries
          (put_field (key_text (convert_sc_val_to_json k)) (value_json v (convert_sc_val_to_json v))
            result)
          (append_item ordered_keys (key_json (convert_sc_val_to_json k)))
