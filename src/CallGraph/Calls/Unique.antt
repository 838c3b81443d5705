-- ===== src/CallGraph/Calls/Unique.antt =====
-- What `deduplicateCalls` keeps: the first call of each key, and no other.
use stellar_extract.Prelude.{
  ◌≡◌, refl, Bool, true, none, List, [], ◌∷◌, arith, Text, text_ordered, ◌==◌, if◌then◌else◌,
  is_some, Bool-cases, inl, inr, eq→path, eq_refl, ap, All,
}
use stellar_extract.Go.Maps.{GoMap, get, put, get-put}
use stellar_extract.Go.Slices.{contains, IsDistinct}
use stellar_extract.Ordering.Rows.{find, keys_of}
use stellar_extract.CallGraph.Calls.{ContractCall, call_key, keep_new, deduplicate_calls}

get-eq : (j k : Text) (m : GoMap Text Bool) → (j == k) ≡ true → get j m ≡ get k m
get-eq j k m h = ap (λ x. get x m) (eq→path j k h)

find-keep_new :
    (k : Text) (seen : GoMap Text Bool) (calls : List ContractCall)
    → find call_key k (keep_new seen calls)
      ≡ (if is_some (get k seen) then none else find call_key k calls)
unfolding keep_new
find-keep_new k seen [] = ground arith
find-keep_new k seen (call ∷ calls) = ground (
  arith,
  find-keep_new k seen calls,
  find-keep_new k (put (call_key call) true seen) calls,
  get-put (call_key call) k true seen,
  get-eq (call_key call) k seen,
)

pub contains-keys_of :
    (k : Text) (calls : List ContractCall)
    → contains k (keys_of call_key calls) ≡ is_some (find call_key k calls)
contains-keys_of k [] = refl
contains-keys_of k (call ∷ calls) = ground (arith, contains-keys_of k calls)

keep_new-IsDistinct :
    (seen : GoMap Text Bool) (calls : List ContractCall)
    → IsDistinct (keys_of call_key (keep_new seen calls))
unfolding keep_new
keep_new-IsDistinct seen [] = tt
keep_new-IsDistinct seen (call ∷ calls) = ground (
  arith,
  keep_new-IsDistinct seen calls,
  keep_new-IsDistinct (put (call_key call) true seen) calls,
  contains-keys_of (call_key call) (keep_new (put (call_key call) true seen) calls),
  find-keep_new (call_key call) (put (call_key call) true seen) calls,
  get-put (call_key call) (call_key call) true seen,
  eq_refl (call_key call),
)

-- For every key the first call with it is kept, and no two calls that are kept share a key.
pub deduplicate_calls_first :
    (calls : List ContractCall)
    → IsDistinct (keys_of call_key (deduplicate_calls calls))
      × ((k : Text) → find call_key k (deduplicate_calls calls) ≡ find call_key k calls)
unfolding deduplicate_calls
deduplicate_calls_first calls = (keep_new-IsDistinct [] calls, λ k. find-keep_new k [] calls)

keep_new-All :
    (P : ContractCall → Type 0) (seen : GoMap Text Bool) (calls : List ContractCall)
    → All P calls
    → All P (keep_new seen calls)
unfolding keep_new
keep_new-All P seen [] h = tt
keep_new-All P seen (call ∷ calls) (p, h) = elim (Bool-cases (is_some (get (call_key call) seen))) [
  | inl old ↦ rw (old, keep_new) (keep_new-All P seen calls h)
  | inr new ↦ rw (new, keep_new) (p, keep_new-All P (put (call_key call) true seen) calls h)
]

pub deduplicate_calls-All :
    (P : ContractCall → Type 0) (calls : List ContractCall)
    → All P calls
    → All P (deduplicate_calls calls)
unfolding deduplicate_calls
deduplicate_calls-All P calls h = keep_new-All P [] calls h

pub deduplicate_calls-eq-nil :
    (calls : List ContractCall) → deduplicate_calls calls ≡ [] → calls ≡ []
unfolding deduplicate_calls
deduplicate_calls-eq-nil [] h = refl
deduplicate_calls-eq-nil (call ∷ calls) h = ground arith
