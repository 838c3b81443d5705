-- ===== src/CallGraph/FnName.antt =====
-- call_graph.go: `findFnNameRecursive` and `extractFunctionNameFromArguments`.
pub mod Canonical
use stellar_extract.Prelude.{
  Bool, true, false, Option, none, some, List, [], ◌∷◌, if◌then◌else◌, Text, text_ordered,
}
use stellar_extract.Go.Strings.{codes}
use stellar_extract.Go.Maps.{GoMap}
use stellar_extract.Ordering.{sorted_map_values}
use stellar_extract.ScVal.Json.{
  Json, null, bool, num, str, arr, obj, error_code, Items, nil, cons, Fields, end, field, get_field,
}

-- `if result := …; result != "" { return result }`, and what follows it
abbrev pub or_else : Text → Text → Text
or_else [] rest = rest
or_else (c ∷ s) rest = c ∷ s

abbrev pub first_non_empty : List Text → Text
first_non_empty [] = []
first_non_empty (r ∷ rs) = or_else r (first_non_empty rs)

-- `fnName.(string)`, the empty text where the entry is missing or no string
abbrev pub string_or_empty : Option Json → Text
string_or_empty (some (str s)) = s
string_or_empty _ = []

unfoldable mutual
  unfolding sorted_map_values

  pub find_fn_name_recursive : Json → Text
  find_fn_name_recursive (obj fs) =
      or_else (string_or_empty (get_field (codes "fn_name") fs))
        (first_non_empty (sorted_map_values (found_in_fields fs)))
  find_fn_name_recursive (arr xs) = found_in_items xs
  find_fn_name_recursive null = []
  find_fn_name_recursive (bool b) = []
  find_fn_name_recursive (num n) = []
  find_fn_name_recursive (str s) = []
  find_fn_name_recursive (error_code c) = []

  pub found_in_items : Items → Text
  found_in_items nil = []
  found_in_items (cons x xs) = or_else (find_fn_name_recursive x) (found_in_items xs)

  -- what the search finds under each key
  pub found_in_fields : Fields → GoMap Text Text
  found_in_fields end = []
  found_in_fields (field k v fs) = (k, find_fn_name_recursive v) ∷ found_in_fields fs

unfoldable pub extract_function_name_from_arguments : Json → Text
unfolding find_fn_name_recursive
extract_function_name_from_arguments null = []
extract_function_name_from_arguments arguments = find_fn_name_recursive arguments
