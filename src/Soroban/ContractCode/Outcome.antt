-- ===== src/Soroban/ContractCode/Outcome.antt =====
-- The code rows of a ledger, or the panic.
use stellar_extract.Prelude.{
  All-map, false, true, Bool, Option-cases, ℕ, ◌≡◌, ◌↔◌, ◌⊎◌, inl, inr, refl, arith, Option, none,
  some, List, [], ◌∷◌, Text, text_ordered, All,
}
use stellar_extract.Go.Strings.{hex_encode}
use stellar_extract.Ordering.Members.{Among}
use stellar_extract.Ordering.Snapshot.{Collected, nothing, store, collect}
use stellar_extract.Ordering.Snapshot.Table.{Matches, Makes, IsTableOf, collect_made-IsTableOf}
use stellar_extract.Wasm.{WasmMetadata, Parse, parsed, panicked, out_of_fuel, parse_wasm_metadata}
use stellar_extract.Wasm.Sections.{Ends, parse_wasm_metadata-Ends}
use stellar_extract.Xdr.{Result, ok}
use stellar_extract.Xdr.Ledger.{Entry, LedgerInput}
use stellar_extract.Soroban.ContractCode.{
  err, to_i32, pos, ℤ, contract_code_change, ContractCodeEntry, CodeChange, no_code_change,
  ContractCodeData, CodeOf, code_of_change, code_data, code_loop, extract_contract_code,
}

-- What a change shows: the code after it, or the code that it removes, whether it is removed, and
-- the number of the change's kind.
abbrev pub Shown : Type 0
Shown = ℤ × Bool × Entry ContractCodeEntry

abbrev pub shown : CodeChange → Option Shown
shown (contract_code_change t none none) = none
shown (contract_code_change t (some pre) none) = some (t, true, pre)
shown (contract_code_change t pre (some post)) = some (t, false, post)
shown no_code_change = none

-- The hash of the code, in hexadecimal.
abbrev pub shown_hash : Shown → Text
shown_hash (t, deleted, entry) = hex_encode entry.body.hash

-- The change shows code whose metadata panics.
abbrev pub Panics : CodeChange → Type 0
Panics (contract_code_change t none none) = ⊥
Panics (contract_code_change t (some pre) none) = parse_wasm_metadata pre.body.code ≡ panicked
Panics (contract_code_change t pre (some post)) = parse_wasm_metadata post.body.code ≡ panicked
Panics no_code_change = ⊥

abbrev pub HasVersion : Bool → ℤ → Type 0
HasVersion true v = v ≡ pos 1
HasVersion false v = v ≡ pos 0

abbrev pub IsHexOf : Result Text → Text → Type 0
IsHexOf (ok bytes) name = name ≡ hex_encode bytes
IsHexOf (err e) name = name ≡ []

bad_code_iff :
    (change : CodeChange) (c : CodeOf)
    → code_of_change change ≡ some c
    → Panics change ↔ (parse_wasm_metadata c.entry.body.code ≡ panicked)
bad_code_iff (contract_code_change t none none) c e = ground arith
bad_code_iff (contract_code_change t (some pre) none) c e = ground arith
bad_code_iff (contract_code_change t none (some post)) c e = ground arith
bad_code_iff (contract_code_change t (some pre) (some post)) c e = ground arith
bad_code_iff no_code_change c e = ground arith

no_panic : (change : CodeChange) → code_of_change change ≡ none → ¬ Panics change
no_panic (contract_code_change t none none) e p = p
no_panic (contract_code_change t (some pre) none) e p = ground arith
no_panic (contract_code_change t none (some post)) e p = ground arith
no_panic (contract_code_change t (some pre) (some post)) e p = ground arith
no_panic no_code_change e p = p

module _ (key_bytes : Entry ContractCodeEntry → Result Text) (input : LedgerInput) where
  pub record IsCodeRow (t : ℤ) (deleted : Bool) (entry : Entry ContractCodeEntry)
      (row : ContractCodeData) : Type 0 where
    pub measured : parse_wasm_metadata entry.body.code ≡ parsed row.wasm
    pub removed : row.deleted ≡ deleted
    pub versioned : HasVersion entry.body.has_v1 row.contract_code_ext_v
    pub keyed : IsHexOf (key_bytes entry) row.ledger_key_hash
    pub changed : row.ledger_entry_change ≡ t
    pub modified : row.last_modified_ledger ≡ to_i32 entry.last_modified_ledger_seq
    pub of_ledger : row.ledger_sequence ≡ input.sequence
    pub closed : row.closed_at ≡ input.closed_at
    pub in_range : row.ledger_range ≡ input.ledger_range
    pub of_era : row.era_id ≡ input.era_id

  abbrev pub RowOf : Shown → ContractCodeData → Type 0
  RowOf (t, deleted, entry) row = IsCodeRow t deleted entry row

module _ (key_bytes : Entry ContractCodeEntry → Result Text) (clock : ℕ → ℕ)
    (input : LedgerInput) where
  -- The row of one change, where its module can be parsed.
  unfoldable pub code_row : ℕ → CodeChange → Option ContractCodeData
  unfolding code_data
  code_row reading change = elim (code_of_change change) [
    | none ↦ none
    | some c ↦ elim (parse_wasm_metadata c.entry.body.code) [
      | parsed wasm ↦ some (code_data key_bytes clock input reading c wasm)
      | panicked ↦ none
      | out_of_fuel ↦ none
    ]
  ]

  -- How the code of a change is parsed, where there is one.
  parse_cases :
      (code : Text)
      → ((wasm : WasmMetadata) × (parse_wasm_metadata code ≡ parsed wasm))
        ⊎ (parse_wasm_metadata code ≡ panicked)
  parse_cases code = go (parse_wasm_metadata code) refl (parse_wasm_metadata-Ends code)
    where
      go :
          (p : Parse)
          → parse_wasm_metadata code ≡ p
          → Ends p
          → ((wasm : WasmMetadata) × (parse_wasm_metadata code ≡ parsed wasm))
            ⊎ (parse_wasm_metadata code ≡ panicked)
      go (parsed wasm) e h = inl (wasm, e)
      go panicked e h = inr e
      go out_of_fuel e h = absurd h

  made_row :
      (n : ℕ) (c : CodeOf)
      → ¬ (parse_wasm_metadata c.entry.body.code ≡ panicked)
      → Matches
          (λ r. r.contract_code_hash)
          (λ s v. RowOf key_bytes input s v × (v.contract_code_hash ≡ shown_hash s))
          (some (c.change_type, c.deleted, c.entry))
          (elim (parse_wasm_metadata c.entry.body.code) [
            | parsed wasm ↦ some (code_data key_bytes clock input n c wasm)
            | panicked ↦ none
            | out_of_fuel ↦ none
          ])
  unfolding code_data
  made_row n c fine = elim (parse_cases c.entry.body.code) [
    | inl (wasm, good) ↦ rw good (ground (arith, good))
    | inr bad ↦ absurd (fine bad)
  ]

  code_row-Makes :
      (change : CodeChange)
      → ¬ Panics change
      → Makes (λ r. r.contract_code_hash) shown shown_hash (RowOf key_bytes input) code_row change
  unfolding code_row
  code_row-Makes (contract_code_change t none none) fine n = tt
  code_row-Makes (contract_code_change t (some pre) none) fine n =
      made_row n (record { change_type = t; deleted = true; entry = pre }) fine
  code_row-Makes (contract_code_change t none (some post)) fine n =
      made_row n (record { change_type = t; deleted = false; entry = post }) fine
  code_row-Makes (contract_code_change t (some pre) (some post)) fine n =
      made_row n (record { change_type = t; deleted = false; entry = post }) fine
  code_row-Makes no_code_change fine n = tt

  -- Every module before the first that panics is parsed, and its row stored.
  abbrev LoopOutcome :
      List CodeChange
      → Collected Text ContractCodeData
      → Option (Collected Text ContractCodeData)
      → Type 0
  LoopOutcome changes s result =
      (All (λ c. ¬ Panics c) changes
        × (result ≡ some (collect (λ r. r.contract_code_hash) code_row changes s)))
      ⊎ ((change : CodeChange) × Among change changes × Panics change × (result ≡ none))

  parsed_change :
      (change : CodeChange) (changes : List CodeChange) (s s' : Collected Text ContractCodeData)
      (r : Option (Collected Text ContractCodeData))
      → ¬ Panics change
      → store (λ r. r.contract_code_hash) (code_row s.readings change) s ≡ s'
      → LoopOutcome changes s' r
      → LoopOutcome (change ∷ changes) s r
  unfolding collect
  parsed_change change changes s s' r fine e (inl (all, same)) = inl ((fine, all), rw e same)
  parsed_change change changes s s' r fine e (inr (c, among, panics, same)) =
      inr (c, inr among, panics, same)

  code_loop-Outcome :
      (changes : List CodeChange) (s : Collected Text ContractCodeData)
      → LoopOutcome changes s (code_loop key_bytes clock input changes s)
  unfolding code_loop code_row collect
  code_loop-Outcome [] s = inl (tt, refl)
  code_loop-Outcome (change ∷ changes) s = elim (Option-cases (code_of_change change)) [
    | inl missing ↦
        parsed_change change changes s s (code_loop key_bytes clock input (change ∷ changes) s)
          (no_panic change missing) (ground (arith, missing))
          (rw (missing, code_loop) (code_loop-Outcome changes s))
    | inr (c, found) ↦ elim (parse_cases c.entry.body.code) [
      | inl (wasm, good) ↦
          parsed_change change changes s
            (store (λ r. r.contract_code_hash)
              (some (code_data key_bytes clock input s.readings c wasm)) s)
            (code_loop key_bytes clock input (change ∷ changes) s)
            (λ p. ground (arith, (bad_code_iff change c found).0 p, good))
            (rw (found, good, code_row) refl)
            (rw (found, good, code_loop) (code_loop-Outcome changes _))
      | inr bad ↦
          inr
            (change, inl refl, (bad_code_iff change c found).1 bad, rw (found, bad, code_loop) refl)
    ]
  ]

  -- Either the metadata of no module panics, and every hash of code that some change shows has
  -- the row of the last such change, in increasing order of the hashes: that of the code after the
  -- change, or, marked as deleted, of the code that the change removes, with the metadata of its
  -- module; or that of some module panics, and the extractor with it.
  pub extract_contract_code-IsOutcome :
      (changes : List CodeChange)
      → ((rows : List ContractCodeData) × (extract_contract_code key_bytes clock input (ok changes)
            ≡ some rows)
          × All (λ c. ¬ Panics c) changes
          × IsTableOf
              (λ r. r.contract_code_hash)
              shown
              shown_hash
              (RowOf key_bytes input)
              changes
              rows)
        ⊎ ((change : CodeChange) × Among change changes
            × Panics change
            × (extract_contract_code key_bytes clock input (ok changes) ≡ none))
  unfolding extract_contract_code
  extract_contract_code-IsOutcome changes = elim (code_loop-Outcome changes nothing) [
    | inl (all, same) ↦ inl (
      _,
      rw same refl,
      all,
      collect_made-IsTableOf (λ r. r.contract_code_hash) shown shown_hash (RowOf key_bytes input)
          code_row changes (All-map _ _ changes code_row-Makes all),
    )
    | inr (c, among, panics, same) ↦ inr (c, among, panics, rw same refl)
  ]
