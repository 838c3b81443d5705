-- ===== src/Tests/Calls.antt =====
-- Examples of call_graph.go's helpers, of ordering.go and of scval_converter.go.
use stellar_extract.Prelude.{
  ℕ, ◌≡◌, ◌↔◌, refl, true, Option, none, some, List, [], ◌∷◌, Text, text_ordered, arith, ◌==◌,
  if◌then◌else◌, eq→path,
}
use stellar_extract.Go.Ints.{pos, negsuc}
use stellar_extract.Go.Strings.{codes, decimal_int}
use stellar_extract.Go.Maps.{GoMap}
use stellar_extract.Go.Slices.{IsDistinct}
use stellar_extract.Ordering.{sorted_map_values}
use stellar_extract.Ordering.Canonical.{sorted_map_values-canonical}
use stellar_extract.Ordering.Rows.{find, keys_of}
use stellar_extract.ScVal.Json.{Json, str, num, obj, arr, nil, cons, Fields, end, field, null}
use stellar_extract.ScVal.Integers.{int128_to_string}
use stellar_extract.ScVal.Integers.Exact.{parts_128, int128_to_string-exact}
use stellar_extract.CallGraph.FnName.{find_fn_name_recursive}
use stellar_extract.CallGraph.FnName.Canonical.{find_fn_name_recursive-canonical}
use stellar_extract.CallGraph.Calls.{ContractCall, call_key, deduplicate_calls}
use stellar_extract.CallGraph.Calls.Key.{SameCall, call_key_iff}
use stellar_extract.CallGraph.Calls.Unique.{deduplicate_calls_first}

abbrev call_to : Text → ℕ → ContractCall
call_to name depth = record {
  from_contract = codes "A";
  to_contract = codes "B";
  function_name = name;
  arguments = null;
  call_depth = depth;
  execution_order = depth;
  successful = true;
}

abbrev calls : List ContractCall
calls = call_to (codes "f") 1 ∷ call_to (codes "f@1:g") 1 ∷ call_to (codes "f") 1 ∷ []

call_key_iff_example :
    (call_key (call_to (codes "f@1:g") 1) ≡ call_key (call_to (codes "f") 1))
    ↔ SameCall (call_to (codes "f@1:g") 1) (call_to (codes "f") 1)
call_key_iff_example =
    call_key_iff (call_to (codes "f@1:g") 1) (call_to (codes "f") 1)
      (record { from_plain = ground arith; to_plain = ground arith })
      (record { from_plain = ground arith; to_plain = ground arith })

deduplicate_calls_first_example :
    IsDistinct (keys_of call_key (deduplicate_calls calls))
    × ((k : Text) → find call_key k (deduplicate_calls calls) ≡ find call_key k calls)
deduplicate_calls_first_example = deduplicate_calls_first calls

abbrev arguments : Json
arguments = arr (
    cons (num (pos 1))
      (cons (obj (field (codes "b") null (field (codes "fn_name") (str (codes "swap")) end))) nil))

abbrev inner : Text → Json
inner name = obj (field (codes "fn_name") (str name) end)

abbrev forwards : Fields
forwards = field (codes "a") (inner (codes "x")) (field (codes "b") (inner (codes "y")) end)

abbrev backwards : Fields
backwards = field (codes "b") (inner (codes "y")) (field (codes "a") (inner (codes "x")) end)

-- The two keys may be looked up in either order.
swapped :
    {A : Type 0} (x y : Option A) (k : Text)
    → (if codes "a" == k then x else if codes "b" == k then y else none)
      ≡ (if codes "b" == k then y else if codes "a" == k then x else none)
swapped x y k = ground (arith, eq→path (codes "a") k, eq→path (codes "b") k)

find_fn_name_recursive-canonical_example :
    find_fn_name_recursive (obj forwards) ≡ find_fn_name_recursive (obj backwards)
find_fn_name_recursive-canonical_example =
    find_fn_name_recursive-canonical forwards backwards (refl, (refl, tt)) (refl, (refl, tt))
      (λ k. swapped (some (inner (codes "x"))) (some (inner (codes "y"))) k)

abbrev rows : GoMap Text ℕ
rows = (codes "a", 1) ∷ (codes "b", 2) ∷ []

abbrev rows_backwards : GoMap Text ℕ
rows_backwards = (codes "b", 2) ∷ (codes "a", 1) ∷ []

sorted_map_values-canonical_example : sorted_map_values rows ≡ sorted_map_values rows_backwards
sorted_map_values-canonical_example =
    sorted_map_values-canonical rows rows_backwards (refl, (refl, tt)) (refl, (refl, tt))
      (λ k. swapped (some 1) (some 2) k)

int128_to_string-exact_example : int128_to_string (parts_128 (negsuc 41)) ≡ decimal_int (negsuc 41)
int128_to_string-exact_example = int128_to_string-exact (negsuc 41) (omega arith)
