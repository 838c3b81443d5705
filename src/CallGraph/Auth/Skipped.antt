-- ===== src/CallGraph/Auth/Skipped.antt =====
-- The skip count is the number of unreadable addresses that the walk reaches.
use stellar_extract.Prelude.{
  ℕ, ◌+◌, ◌≡◌, none, some, List, [], ◌∷◌, arith, Text, ltb, if◌then◌else◌,
}
use stellar_extract.Xdr.{Sdk, ok, err, version_contract}
use stellar_extract.Xdr.Values.{ScAddress}
use stellar_extract.CallGraph.Auth.{
  Invocation, Invocations, invoke, no_invocations, and_invocation, AuthorizedFunction, contract_fn,
  create_contract_fn, Counters, visit, visit_callee, sc_address_contract_str_key,
  extract_calls_from_auth_invocation, extract_calls_from_sub_invocations, entries_loop,
  extract_calls_from_auth_entries,
}

module _ (sdk : Sdk) where
  -- 1 for an address that is no contract, or that strkey refuses
  unreadable : ScAddress → ℕ
  unreadable address = elim (sdk.get_contract_id address) [
    | none ↦ 1
    | some id ↦ elim (sdk.strkey_encode version_contract id) [ ok encoded ↦ 0 | err e ↦ 1 ]
  ]

  unreadable_function : AuthorizedFunction → ℕ
  unreadable_function (contract_fn (some fn)) = unreadable fn.contract_address
  unreadable_function _ = 0

  -- The unreadable CONTRACT_FN addresses of a tree, down to depth 10.
  mutual
    unreadable_within : Invocation → ℕ → ℕ
    unreadable_within (invoke function subs) d =
        let here = unreadable_function function + unreadable_subs subs (d + 1) in
        if ltb 10 d then 0 else here

    unreadable_subs : Invocations → ℕ → ℕ
    unreadable_subs no_invocations d = 0
    unreadable_subs (and_invocation sub subs) d = unreadable_within sub d + unreadable_subs subs d

  pub unreadable_roots : List Invocation → ℕ
  unfolding unreadable_within unreadable_function unreadable
  unreadable_roots [] = 0
  unreadable_roots (root ∷ entries) = unreadable_within root 1 + unreadable_roots entries

  visit_skips :
      (function : AuthorizedFunction) (from : Text) (d : ℕ) (c : Counters)
      → (visit sdk function from d c).counters.skipped_edges
        ≡ c.skipped_edges + unreadable_function function
  unfolding visit visit_callee sc_address_contract_str_key unreadable_function unreadable
  visit_skips (contract_fn (some fn)) from d c = ground arith
  visit_skips (contract_fn none) from d c = omega arith
  visit_skips create_contract_fn from d c = omega arith

  mutual
    unfolding extract_calls_from_auth_invocation unreadable_within

    invocation_skips :
        (i : Invocation) (from : Text) (d : ℕ) (c : Counters)
        → (extract_calls_from_auth_invocation sdk i from d c).1.skipped_edges
          ≡ c.skipped_edges + unreadable_within i d
    invocation_skips (invoke function subs) from d c =
        let v = visit sdk function from d c in
        ground (arith, visit_skips function from d c, subs_skip subs v.caller (d + 1) v.counters)

    subs_skip :
        (subs : Invocations) (from : Text) (d : ℕ) (c : Counters)
        → (extract_calls_from_sub_invocations sdk subs from d c).1.skipped_edges
          ≡ c.skipped_edges + unreadable_subs subs d
    subs_skip no_invocations from d c = omega arith
    subs_skip (and_invocation sub subs) from d c =
        let (calls, c') = extract_calls_from_auth_invocation sdk sub from d c in
        omega (arith, invocation_skips sub from d c, subs_skip subs from d c')

  entries_skip :
      (entries : List Invocation) (main : Text) (c : Counters)
      → (entries_loop sdk entries main c).1.skipped_edges
        ≡ c.skipped_edges + unreadable_roots entries
  unfolding entries_loop unreadable_roots
  entries_skip [] main c = omega arith
  entries_skip (root ∷ entries) main c =
      let (calls, c') = extract_calls_from_auth_invocation sdk root main 1 c in
      omega (arith, invocation_skips root main 1 c, entries_skip entries main c')

  -- The running count grows by the number of CONTRACT_FN nodes within depth 10 whose address is
  -- no contract or cannot be encoded, whatever calls are recorded beside them.
  pub extract_calls_from_auth_entries_skips :
      (entries : List Invocation) (main : Text) (skipped : ℕ)
      → (extract_calls_from_auth_entries sdk entries main skipped).1
        ≡ skipped + unreadable_roots entries
  unfolding extract_calls_from_auth_entries
  extract_calls_from_auth_entries_skips entries main skipped =
      entries_skip entries main (record { execution_order = 0; skipped_edges = skipped })
