-- ===== src/CallGraph/FnName/Canonical.antt =====
-- The search does not depend on the order in which an object is ranged over.
use stellar_extract.Prelude.{◌≡◌, refl, none, Text, text_ordered, arith, ap, ◌∙◌, sym}
use mathlib.Core.Option
use stellar_extract.Go.Strings.{codes}
use stellar_extract.Go.Maps.{get, IsMap}
use stellar_extract.Ordering.{sorted_map_values}
use stellar_extract.Ordering.Canonical.{sorted_map_values-canonical}
use stellar_extract.ScVal.Json.{obj, Fields, end, field, get_field}
use stellar_extract.CallGraph.FnName.{find_fn_name_recursive, found_in_fields}

-- No key occurs twice.
abbrev pub IsObject : Fields → Type 0
IsObject end = Unit
IsObject (field k v fs) = (get_field k fs ≡ none) × IsObject fs

pub get-found_in_fields :
    (k : Text) (fs : Fields)
    → get k (found_in_fields fs) ≡ Option.map find_fn_name_recursive (get_field k fs)
unfolding found_in_fields
get-found_in_fields k end = refl
get-found_in_fields k (field j v fs) = ground (arith, get-found_in_fields k fs)

found_in_fields-IsMap : (fs : Fields) → IsObject fs → IsMap (found_in_fields fs)
unfolding found_in_fields
found_in_fields-IsMap end h = tt
found_in_fields-IsMap (field k v fs) (fresh, h) =
    (ground (arith, get-found_in_fields k fs), found_in_fields-IsMap fs h)

-- Two lists of fields that stand for the same object give the same name.
pub find_fn_name_recursive-canonical :
    (fs gs : Fields)
    → IsObject fs
    → IsObject gs
    → ((k : Text) → get_field k fs ≡ get_field k gs)
    → find_fn_name_recursive (obj fs) ≡ find_fn_name_recursive (obj gs)
unfolding find_fn_name_recursive
find_fn_name_recursive-canonical fs gs h h' same =
    let values : sorted_map_values (found_in_fields fs) ≡ sorted_map_values (found_in_fields gs) =
      sorted_map_values-canonical (found_in_fields fs) (found_in_fields gs)
        (found_in_fields-IsMap fs h) (found_in_fields-IsMap gs h')
        λ k.
          get-found_in_fields k fs
          ∙ ap (Option.map find_fn_name_recursive) (same k)
          ∙ sym (get-found_in_fields k gs) in
    rw (values, same (codes "fn_name"))
