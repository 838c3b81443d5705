-- ===== src/ScVal/Json.antt =====
-- `interface{}` values as the converters build them, and `fmt.Sprintf("%v", …)` of one.
pub mod Lookup
use stellar_extract.Prelude.{
  ℕ, Bool, true, false, Option, none, some, List, [], ◌∷◌, ◌++◌, if◌then◌else◌, Text, ◌==◌,
  text_ordered,
}
use stellar_extract.Go.Ints.{ℤ}
use stellar_extract.Go.Strings.{codes, decimal_int, join}
use stellar_extract.Go.Maps.{GoMap}
use stellar_extract.Ordering.{sorted_map_values}
use stellar_extract.Xdr.{Sdk}

mutual
  pub data Json : Type 0 where
    null : Json
    bool : Bool → Json
    num : ℤ → Json
    str : Text → Json
    arr : Items → Json
    obj : Fields → Json
    -- a `*xdr.ScErrorCode`
    error_code : Option ℕ → Json

  pub data Items : Type 0 where
    nil : Items
    cons : Json → Items → Items

  -- `map[string]interface{}`; the order is that of one `range` over it
  pub data Fields : Type 0 where
    end : Fields
    field : Text → Json → Fields → Fields

abbrev pub append_item : Items → Json → Items
append_item nil x = cons x nil
append_item (cons y ys) x = cons y (append_item ys x)

-- `m[k] = v`
abbrev pub put_field : Text → Json → Fields → Fields
put_field k v end = field k v end
put_field k v (field j w fs) = if j == k then field k v fs else field j w (put_field k v fs)

abbrev pub get_field : Text → Fields → Option Json
get_field k end = none
get_field k (field j w fs) = if j == k then some w else get_field k fs

-- `fmt` prints the entries of a map in the order of their keys.
abbrev bracketed : Text → List Text → Text
bracketed prefix parts = prefix ++ (b'[' ∷ join b' ' parts ++ b']' ∷ [])

bool_text : Bool → Text
bool_text true = codes "true"
bool_text false = codes "false"

module _ (sdk : Sdk) where
  error_code_text : Option ℕ → Text
  error_code_text none = codes "<nil>"
  error_code_text (some c) = sdk.error_code_string c

  unfoldable mutual
    unfolding bool_text error_code_text join decimal_int sorted_map_values

    pub format_v : Json → Text
    format_v null = codes "<nil>"
    format_v (bool b) = bool_text b
    format_v (num n) = decimal_int n
    format_v (str s) = s
    format_v (arr xs) = bracketed [] (format_items xs)
    format_v (obj fs) = bracketed (codes "map") (sorted_map_values (format_fields fs))
    format_v (error_code c) = error_code_text c

    pub format_items : Items → List Text
    format_items nil = []
    format_items (cons x xs) = format_v x ∷ format_items xs

    pub format_fields : Fields → GoMap Text Text
    format_fields end = []
    format_fields (field k v fs) = (k, k ++ (b':' ∷ format_v v)) ∷ format_fields fs
