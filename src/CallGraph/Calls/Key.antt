-- ===== src/CallGraph/Calls/Key.antt =====
-- The deduplication key is as fine as the four fields that it is made of.
use stellar_extract.Prelude.{ℕ, ◌≡◌, ◌≢◌, arith, All-map, ◌↔◌}
use stellar_extract.Go.Strings.{decimal}
use stellar_extract.Go.Strings.Decimal.{IsDigit, decimal-IsDigit, decimal_injective}
use stellar_extract.Go.Strings.Separators.{Lacks, split_first, split_last}
use stellar_extract.CallGraph.Calls.{ContractCall, call_key}

-- Contract addresses as strkey prints them hold neither a dash nor a colon.
pub record IsAddressed (call : ContractCall) : Type 0 where
  pub from_plain : Lacks b'-' call.from_contract
  pub to_plain : Lacks b':' call.to_contract

pub record SameCall (a b : ContractCall) : Type 0 where
  pub same_from : a.from_contract ≡ b.from_contract
  pub same_to : a.to_contract ≡ b.to_contract
  pub same_function : a.function_name ≡ b.function_name
  pub same_depth : a.call_depth ≡ b.call_depth

decimal-Lacks_at : (n : ℕ) → Lacks b'@' (decimal n)
decimal-Lacks_at n =
    All-map IsDigit (λ c. c ≢ b'@') (decimal n) (λ c d. omega arith) (decimal-IsDigit n)

-- Whatever bytes the function names hold, two calls have one key exactly if they agree in caller,
-- callee, function and depth, where no caller holds a dash and no callee a colon.
pub call_key_iff :
    (a b : ContractCall) → IsAddressed a → IsAddressed b → (call_key a ≡ call_key b) ↔ SameCall a b
unfolding call_key
call_key_iff a b ha hb = (
  λ e.
      let (from, e₁) =
        split_first b'-' a.from_contract b.from_contract _ _ ha.from_plain hb.from_plain e in
      let (to, e₂) =
        split_first b':' a.to_contract b.to_contract _ _ ha.to_plain hb.to_plain (cc) in
      let (function, e₃) =
        split_last b'@' a.function_name b.function_name _ _ (decimal-Lacks_at a.call_depth)
          (decimal-Lacks_at b.call_depth) e₂ in
      record {
        same_from = from;
        same_to = to;
        same_function = function;
        same_depth = decimal_injective a.call_depth b.call_depth e₃;
      },
  λ s. rw (s.same_from, s.same_to, s.same_function, s.same_depth),
)
