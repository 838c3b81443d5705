-- ===== src/CallGraph/Auth/Recorded.antt =====
-- What holds of every call recorded from authorization entries.
use stellar_extract.Prelude.{
  ℕ, ◌+◌, ◌≤◌, ◌≡◌, refl, true, false, Option, none, some, List, [], ◌∷◌, ◌++◌, Text, text_ordered,
  ◌==◌, arith, length, length-append, All, All-append, All-map, count_up, count_up-append, eq_refl,
  Bool-cases, inl, inr, ltb, ap,
}
use stellar_extract.Xdr.{Sdk}
use stellar_extract.Xdr.Values.{ScAddress}
use stellar_extract.Go.Slices.{contains}
use stellar_extract.CallGraph.Calls.{ContractCall}
use stellar_extract.CallGraph.Events.Recorded.{orders_of, orders_of-append}
use stellar_extract.CallGraph.Auth.{
  Invocation, Invocations, invoke, no_invocations, and_invocation, AuthorizedFunction, contract_fn,
  create_contract_fn, Counters, Visit, visit, visit_callee, sc_address_contract_str_key,
  extract_calls_from_auth_invocation, extract_calls_from_sub_invocations, entries_loop,
  extract_calls_from_auth_entries,
}

-- A successful call between different contracts, at a depth from `d` to 10.
pub record IsAuthCall (d : ℕ) (call : ContractCall) : Type 0 where
  pub crosses : (call.to_contract == call.from_contract) ≡ false
  pub deep_enough : d ≤ call.call_depth
  pub depth_capped : call.call_depth ≤ 10
  pub succeeded : call.successful ≡ true

-- Every caller is a known contract or the callee of an earlier call.
abbrev pub Connected : List Text → List ContractCall → Type 0
Connected known [] = Unit
Connected known (call ∷ calls) =
    (contains call.from_contract known ≡ true) × Connected (call.to_contract ∷ known) calls

abbrev Within : List Text → List Text → Type 0
Within known known' = (a : Text) → contains a known ≡ true → contains a known' ≡ true

Connected-Within :
    (calls : List ContractCall) (known known' : List Text)
    → Within known known'
    → Connected known calls
    → Connected known' calls
Connected-Within [] known known' w h = tt
Connected-Within (call ∷ calls) known known' w (k, h) = (
  w call.from_contract k,
  Connected-Within calls (call.to_contract ∷ known) (call.to_contract ∷ known')
      (λ a e. ground (arith, w a)) h,
)

Connected-append :
    (xs ys : List ContractCall) (known : List Text)
    → Connected known xs
    → Connected known ys
    → Connected known (xs ++ ys)
Connected-append [] ys known h k = k
Connected-append (x ∷ xs) ys known (e, h) k = (
  e,
  Connected-append xs ys (x.to_contract ∷ known) h
      (Connected-Within ys known (x.to_contract ∷ known) (λ a m. ground arith) k),
)

-- The calls of a part of the tree whose caller is `from`, at depth `d`, with the order at `start`.
pub record IsRecorded (from : Text) (d start : ℕ) (calls : List ContractCall) (next : ℕ)
    : Type 0 where
  pub each : All (IsAuthCall d) calls
  pub numbered : orders_of calls ≡ count_up start (length calls)
  pub counted : next ≡ start + length calls
  pub connected : (known : List Text) → contains from known ≡ true → Connected known calls

module _ (from : Text) (d start : ℕ) where
  none-IsRecorded : IsRecorded from d start [] start
  none-IsRecorded = record {
    each = tt;
    numbered = refl;
    counted = omega arith;
    connected = λ known h. tt;
  }

  append-IsRecorded :
      (xs ys : List ContractCall) (middle next : ℕ)
      → IsRecorded from d start xs middle
      → IsRecorded from d middle ys next
      → IsRecorded from d start (xs ++ ys) next
  append-IsRecorded xs ys middle next h k = record {
    each = All-append (IsAuthCall d) xs ys h.each k.each;
    numbered =
        let e : middle ≡ start + length xs = h.counted in
        ground (
          arith,
          orders_of-append xs ys,
          h.numbered,
          k.numbered,
          length-append xs ys,
          count_up-append start (length xs) (length ys),
        );
    counted = omega (arith, h.counted, k.counted, length-append xs ys);
    connected = λ known m. Connected-append xs ys known (h.connected known m) (k.connected known m);
  }

  deeper :
      (calls : List ContractCall) (next : ℕ)
      → IsRecorded from (d + 1) start calls next
      → IsRecorded from d start calls next
  deeper calls next h = record {
    each =
        All-map (IsAuthCall (d + 1)) (IsAuthCall d) calls
          (λ c i. record {
            crosses = i.crosses;
            deep_enough = let e : d + 1 ≤ c.call_depth = i.deep_enough in omega arith;
            depth_capped = i.depth_capped;
            succeeded = i.succeeded;
          })
          h.each;
    numbered = h.numbered;
    counted = h.counted;
    connected = h.connected;
  }

-- A visited node and what is recorded below it.
abbrev IsVisited : Text → ℕ → ℕ → Visit → Type 0
IsVisited from d start v =
    (calls : List ContractCall) (next : ℕ)
    → IsRecorded v.caller (d + 1) v.counters.execution_order calls next
    → IsRecorded from d start (v.calls ++ calls) next

-- A call in front of what its callee's node records.
call-IsRecorded :
    (call : ContractCall) (calls : List ContractCall) (next : ℕ)
    → call.call_depth ≤ 10
    → (call.to_contract == call.from_contract) ≡ false
    → call.successful ≡ true
    → IsRecorded call.to_contract (call.call_depth + 1) (call.execution_order + 1) calls next
    → IsRecorded call.from_contract call.call_depth call.execution_order (call ∷ calls) next
call-IsRecorded call calls next low other success h =
    let below = deeper call.to_contract call.call_depth (call.execution_order + 1) calls next h in
    record {
      each = (
        record {
          crosses = other;
          deep_enough = omega arith;
          depth_capped = low;
          succeeded = success;
        },
        below.each,
      );
      numbered = ap (λ r. call.execution_order ∷ r) h.numbered;
      counted = omega (arith, h.counted);
      connected = λ known m.
          (m, h.connected (call.to_contract ∷ known) (ground (arith, eq_refl call.to_contract)));
    }

module _ (sdk : Sdk) where
  visit_callee_recorded :
      (from : Text) (d : ℕ) (name : Text) (c : Counters) (found : Option Text) (c' : Counters)
      → d ≤ 10
      → c'.execution_order ≡ c.execution_order
      → IsVisited from d c.execution_order (visit_callee sdk from d name (found, c'))
  unfolding visit_callee
  visit_callee_recorded from d name c none c' low e =
      λ calls next h. rw (← e) (deeper from d c'.execution_order calls next h)
  visit_callee_recorded from d name c (some to) c' low e = elim (Bool-cases (to == from)) [
    | inl same ↦ rw same (λ calls next h. rw (← e) (deeper from d c'.execution_order calls next h))
    | inr other ↦
        rw other (λ calls next h. rw (← e) (call-IsRecorded _ calls next low other refl h))
  ]

  str_key_keeps_order :
      (address : ScAddress) (c : Counters)
      → (sc_address_contract_str_key sdk address c).1.execution_order ≡ c.execution_order
  unfolding sc_address_contract_str_key
  str_key_keeps_order address c = ground arith

  visit_recorded :
      (function : AuthorizedFunction) (from : Text) (d : ℕ) (c : Counters)
      → d ≤ 10
      → IsVisited from d c.execution_order (visit sdk function from d c)
  unfolding visit
  visit_recorded (contract_fn (some fn)) from d c low =
      let (found, c') = sc_address_contract_str_key sdk fn.contract_address c in
      visit_callee_recorded from d fn.function_name c found c' low
        (str_key_keeps_order fn.contract_address c)
  visit_recorded (contract_fn none) from d c low = deeper from d c.execution_order
  visit_recorded create_contract_fn from d c low = deeper from d c.execution_order

  mutual
    unfolding extract_calls_from_auth_invocation

    invocation-IsRecorded :
        (i : Invocation) (from : Text) (d : ℕ) (c : Counters)
        → let (calls, c') = extract_calls_from_auth_invocation sdk i from d c in
          IsRecorded from d c.execution_order calls c'.execution_order
    invocation-IsRecorded (invoke function subs) from d c =
        let v = visit sdk function from d c in
        let below = subs-IsRecorded subs v.caller (d + 1) v.counters in
        elim (Bool-cases (ltb 10 d)) [
          | inl deep ↦ rw deep (none-IsRecorded from d c.execution_order)
          | inr shallow ↦ rw shallow (visit_recorded function from d c (ground arith) _ _ below)
        ]

    subs-IsRecorded :
        (subs : Invocations) (from : Text) (d : ℕ) (c : Counters)
        → let (calls, c') = extract_calls_from_sub_invocations sdk subs from d c in
          IsRecorded from d c.execution_order calls c'.execution_order
    subs-IsRecorded no_invocations from d c = none-IsRecorded from d c.execution_order
    subs-IsRecorded (and_invocation sub subs) from d c =
        let (calls, c') = extract_calls_from_auth_invocation sdk sub from d c in
        let (more, c'') = extract_calls_from_sub_invocations sdk subs from d c' in
        append-IsRecorded from d c.execution_order calls more c'.execution_order c''.execution_order
          (invocation-IsRecorded sub from d c) (subs-IsRecorded subs from d c')

  entries-IsRecorded :
      (entries : List Invocation) (main : Text) (c : Counters)
      → let (calls, c') = entries_loop sdk entries main c in
        IsRecorded main 1 c.execution_order calls c'.execution_order
  unfolding entries_loop
  entries-IsRecorded [] main c = none-IsRecorded main 1 c.execution_order
  entries-IsRecorded (root ∷ entries) main c =
      let (calls, c') = extract_calls_from_auth_invocation sdk root main 1 c in
      let (more, c'') = entries_loop sdk entries main c' in
      append-IsRecorded main 1 c.execution_order calls more c'.execution_order c''.execution_order
        (invocation-IsRecorded root main 1 c) (entries-IsRecorded entries main c')

  -- Every call from authorization entries is a successful call between different contracts at a
  -- depth from 1 to 10, the execution orders are 0, 1, 2, … in the order of the list, and every
  -- caller is the main contract or the callee of an earlier call.
  pub extract_calls_from_auth_entries_lem :
      (entries : List Invocation) (main : Text) (skipped : ℕ)
      → let calls = (extract_calls_from_auth_entries sdk entries main skipped).0 in
        All (IsAuthCall 1) calls
        × (orders_of calls ≡ count_up 0 (length calls))
        × Connected (main ∷ []) calls
  unfolding extract_calls_from_auth_entries
  extract_calls_from_auth_entries_lem entries main skipped =
      let h =
        entries-IsRecorded entries main (record { execution_order = 0; skipped_edges = skipped }) in
      (h.each, h.numbered, h.connected (main ∷ []) (ground (arith, eq_refl main)))
