-- ===== src/Transactions/Declared.antt =====
-- transactions.go: `populateSorobanDeclaredFields` and `sorobanMetaExt`.
use stellar_extract.Prelude.{
  ℕ, ◌+◌, ◌%◌, ◌^◌, Bool, true, false, Option, none, some, List, [], ◌∷◌, Text, length,
}
use stellar_extract.Go.Ints.{ℤ, pos, to_i32}
use stellar_extract.Go.Strings.{codes}
use stellar_extract.ScVal.Json.{num, Fields, end, field}
use stellar_extract.Xdr.{Result, ok, on_ok}

-- xdr.SorobanTransactionData; `binary` is `MarshalBinary` of it, and the footprint is given by its
-- lengths
pub record SorobanData : Type 0 where
  pub binary : Result Text
  pub instructions : ℕ
  pub disk_read_bytes : ℕ
  pub write_bytes : ℕ
  pub read_only : ℕ
  pub read_write : ℕ
  pub resource_fee : ℤ

-- xdr.TransactionMeta, with `SorobanMeta` of the versions that have one: there it has an extension,
-- of which V1 has a rent fee
pub data TransactionMeta : Type 0 where
  meta_v3 meta_v4 : Option (Option ℤ) → TransactionMeta
  meta_other : TransactionMeta

abbrev pub soroban_meta_ext : TransactionMeta → Option (Option ℤ)
soroban_meta_ext (meta_v3 ext) = ext
soroban_meta_ext (meta_v4 ext) = ext
soroban_meta_ext meta_other = none

-- `rent_fee_charged`
abbrev pub rent_fee_of : Option (Option ℤ) → Option ℤ
rent_fee_of none = none
rent_fee_of (some fee) = fee

pub record DeclaredColumns : Type 0 where
  pub soroban_data_size_bytes : Option ℤ
  pub soroban_data_resources : Option Text
  pub soroban_contract_events_count : Option ℤ

-- the loop over the operations' events, which are given by their numbers; the count is an int32
abbrev pub count_events : ℕ → List ℕ → ℕ
count_events count [] = count
count_events count (n ∷ ns) = count_events ((count + n) % 2 ^ 32) ns

resources_of : SorobanData → Fields
resources_of data_ = field (codes "instructions") (num (pos data_.instructions)) (
    field (codes "disk_read_bytes") (num (pos data_.disk_read_bytes)) (
      field (codes "write_bytes") (num (pos data_.write_bytes)) (
        field (codes "footprint_read") (num (pos data_.read_only)) (
          field (codes "footprint_write") (num (pos data_.read_write))
            (field (codes "resource_fee") (num data_.resource_fee) end)))))

-- `json.Marshal`
module _ (marshal : Fields → Result Text) where
  -- the size and the resources
  unfoldable pub declared_resources : Option SorobanData → Result (Option ℤ × Option Text)
  unfolding resources_of
  declared_resources none = ok (none, none)
  declared_resources (some data_) = on_ok (codes "marshal soroban data: ") data_.binary (λ encoded.
      on_ok (codes "marshal soroban resources: ") (marshal (resources_of data_))
        (λ text. ok (some (to_i32 (length encoded % 2 ^ 32)), some text)))

  -- the count, of a Soroban transaction alone
  abbrev pub events_count : Bool → Result (List ℕ) → Result (Option ℤ)
  events_count false events = ok none
  events_count true events =
      on_ok (codes "transaction events: ") events
        (λ counts. ok (some (to_i32 (count_events 0 counts))))

  unfoldable pub populate_soroban_declared_fields :
      Option SorobanData → Bool → Result (List ℕ) → Result DeclaredColumns
  unfolding declared_resources
  populate_soroban_declared_fields soroban_data is_soroban events =
      on_ok [] (declared_resources soroban_data) (λ (size, resources).
        on_ok [] (events_count is_soroban events) (λ count. ok (record {
          soroban_data_size_bytes = size;
          soroban_data_resources = resources;
          soroban_contract_events_count = count;
        })))
