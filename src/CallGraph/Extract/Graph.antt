-- ===== src/CallGraph/Extract/Graph.antt =====
-- What a call graph says about its calls.
use stellar_extract.Prelude.{
  ℕ, ◌≡◌, ◌≤◌, ◌⊎◌, inl, inr, refl, Bool, true, false, ◌||◌, some, List, [], ◌∷◌, if◌then◌else◌,
  Text, text_ordered, ◌==◌, ltb, is_some, arith, All, ◌∙◌, Bool-cases,
}
use mathlib.Core.Path.{subst}
use mathlib.Core.Option.{none-ne-some, some-injective}
use stellar_extract.Go.Maps.{GoMap, get, put, get-put, IsMap, put-IsMap}
use stellar_extract.Go.Slices.{contains, IsIncreasing}
use stellar_extract.Ordering.{sorted_set_keys}
use stellar_extract.Ordering.Rows.{contains-sorted_set_keys, sorted_set_keys-IsIncreasing}
use stellar_extract.Ordering.Members.{Among}
use stellar_extract.CallGraph.Calls.{ContractCall, deduplicate_calls}
use stellar_extract.CallGraph.Extract.{CallGraphResult, involve, deepest, graph_on, graph_of}

-- The contract is the caller or the callee of one of the calls.
abbrev pub touched : Text → List ContractCall → Bool
touched a [] = false
touched a (call ∷ calls) = (call.from_contract == a) || (call.to_contract == a) || touched a calls

involve-touched :
    (calls : List ContractCall) (set : GoMap Text Bool) (a : Text)
    → is_some (get a (involve calls set)) ≡ (is_some (get a set) || touched a calls)
involve-touched [] set a = ground arith
involve-touched (call ∷ calls) set a =
    let set' = put call.from_contract true set in
    ground (
      arith,
      involve-touched calls (put call.to_contract true set') a,
      get-put call.to_contract a true set',
      get-put call.from_contract a true set,
    )

involve-IsMap :
    (calls : List ContractCall) (set : GoMap Text Bool) → IsMap set → IsMap (involve calls set)
involve-IsMap [] set h = h
involve-IsMap (call ∷ calls) set h = involve-IsMap calls _ (
    put-IsMap call.to_contract true (put call.from_contract true set)
      (put-IsMap call.from_contract true set h))

deepest_bounds :
    (calls : List ContractCall) (m : ℕ)
    → (m ≤ deepest calls m) × All (λ call. call.call_depth ≤ deepest calls m) calls
deepest_bounds [] m = (omega arith, tt)
deepest_bounds (call ∷ calls) m =
    let m' = if ltb m call.call_depth then call.call_depth else m in
    let (low, rest) = deepest_bounds calls m' in (ground (arith, low), (ground (arith, low), rest))

deepest_attained :
    (calls : List ContractCall) (m : ℕ)
    → (deepest calls m ≡ m)
      ⊎ ((call : ContractCall) × Among call calls × (call.call_depth ≡ deepest calls m))
deepest_attained [] m = inl refl
deepest_attained (call ∷ calls) m =
    let m' = if ltb m call.call_depth then call.call_depth else m in
    elim (deepest_attained calls m') [
      | inl same ↦ elim (Bool-cases (ltb m call.call_depth)) [
        | inl more ↦ inr (call, inl refl, ground (arith, same))
        | inr less ↦ inl (ground (arith, same))
      ]
      | inr (deep, member, e) ↦ inr (deep, inr member, e)
    ]

-- `g` is the graph of the calls found for `main`: each call once, the main contract and every
-- caller and callee in increasing order, and the greatest depth of a call.
pub record IsGraphOf (main : Text) (found : List ContractCall) (g : CallGraphResult) : Type 0 where
  pub kept : g.calls ≡ deduplicate_calls found
  pub ordered : IsIncreasing g.contracts_involved
  pub involved : (a : Text) → contains a g.contracts_involved ≡ ((main == a) || touched a g.calls)
  pub bounded : All (λ call. call.call_depth ≤ g.max_depth) g.calls
  pub attained : (call : ContractCall) × Among call g.calls × (call.call_depth ≡ g.max_depth)

attained_at_first :
    (call : ContractCall) (calls : List ContractCall)
    → (deep : ContractCall) × Among deep (call ∷ calls)
      × (deep.call_depth ≡ deepest (call ∷ calls) 0)
attained_at_first call calls = elim (deepest_attained (call ∷ calls) 0) [
  | inl zero_depth ↦ let (low, first, rest) = deepest_bounds_first in (call, inl refl, omega arith)
  | inr found ↦ found
]
  where
    deepest_bounds_first :
        (0 ≤ deepest (call ∷ calls) 0)
        × (call.call_depth ≤ deepest (call ∷ calls) 0)
        × All (λ c. c.call_depth ≤ deepest (call ∷ calls) 0) calls
    deepest_bounds_first = let (low, all) = deepest_bounds (call ∷ calls) 0 in (low, all.0, all.1)

graph_on-IsGraphOf :
    (main : Text) (found kept : List ContractCall) (g : CallGraphResult)
    → kept ≡ deduplicate_calls found
    → graph_on main kept ≡ some g
    → IsGraphOf main found g
graph_on-IsGraphOf main found [] g e h = unfold graph_on in absurd (none-ne-some g h)
graph_on-IsGraphOf main found (call ∷ calls) g e h =
    let set = involve (call ∷ calls) (put main true []) in
    let same : record {
      calls = call ∷ calls;
      contracts_involved = sorted_set_keys set;
      max_depth = deepest (call ∷ calls) 0;
    }
        ≡ g =
      unfold graph_on in some-injective _ _ h in
    subst (IsGraphOf main found) same (record {
      kept = e;
      ordered =
          sorted_set_keys-IsIncreasing set
            (involve-IsMap (call ∷ calls) (put main true []) (refl, tt));
      involved = λ a.
          contains-sorted_set_keys a set
          ∙ involve-touched (call ∷ calls) (put main true []) a
          ∙ ground arith;
      bounded = (deepest_bounds (call ∷ calls) 0).1;
      attained = attained_at_first call calls;
    })

pub graph_of-IsGraphOf :
    (main : Text) (found : List ContractCall) (g : CallGraphResult)
    → graph_of main found ≡ some g
    → IsGraphOf main found g
graph_of-IsGraphOf main found g h =
    graph_on-IsGraphOf main found (deduplicate_calls found) g refl (unfold graph_of in h)
