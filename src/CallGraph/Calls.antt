-- ===== src/CallGraph/Calls.antt =====
-- call_graph.go, types_soroban.go: recorded calls, and `deduplicateCalls`.
pub mod Key
pub mod Unique
use stellar_extract.Prelude.{
  ℕ, Bool, true, false, Option, none, some, List, [], ◌∷◌, ◌++◌, if◌then◌else◌, Text, text_ordered,
  is_some,
}
use stellar_extract.Go.Strings.{codes, decimal}
use stellar_extract.Go.Maps.{GoMap, get, put}
use stellar_extract.ScVal.Json.{Json}

pub record ContractCall : Type 0 where
  pub from_contract : Text
  pub to_contract : Text
  pub function_name : Text
  pub arguments : Json
  pub call_depth : ℕ
  pub execution_order : ℕ
  pub successful : Bool

-- `fmt.Sprintf("%s->%s:%s@%d", …)`
unfoldable pub call_key : ContractCall → Text
call_key call =
    call.from_contract
    ++ (b'-'
        ∷ b'>'
        ∷ (call.to_contract ++ (b':' ∷ (call.function_name ++ (b'@' ∷ decimal call.call_depth)))))

-- the loop, with `seen`; what it appends to `unique` is its result
keep_new : GoMap Text Bool → List ContractCall → List ContractCall
keep_new seen [] = []
keep_new seen (call ∷ calls) = elim (is_some (get (call_key call) seen)) [
  | true ↦ keep_new seen calls
  | false ↦ call ∷ keep_new (put (call_key call) true seen) calls
]

unfoldable pub deduplicate_calls : List ContractCall → List ContractCall
unfolding keep_new call_key
deduplicate_calls calls = keep_new [] calls
