-- ===== src/Extract/View.antt =====
-- view_input.go, and `NewLedgerInputFromXDR` of extract.go.
pub mod Alike
use stellar_extract.Prelude.{ℕ, ◌≡◌, ◌*◌, ◌/◌, Option, none, some, List, [], ◌∷◌, ◌++◌, Text}
use stellar_extract.Extract.{Outcome, LedgerData, ExtractAll, new_ledger_input}
use stellar_extract.Go.Strings.{codes, decimal}
use stellar_extract.Xdr.{Result, ok, err, on_ok}
use stellar_extract.Xdr.Ledger.{LedgerInput}

-- The SDK on the bytes of a ledger, through a view or decoded to a `LedgerCloseMeta`.
pub record LedgerSdk (M : Type 0) : Type 0 where
  -- `ValidateFull`, whose error is some
  pub validate_full : Text → Option Text
  pub ledger_sequence : Text → Result ℕ
  pub ledger_close_time : Text → Result ℕ
  pub unmarshal_binary : Text → Result M
  pub sequence_of : M → ℕ
  pub close_time_of : M → ℕ

-- LedgerInput with the decoded ledger
pub record ParsedInput (M : Type 0) : Type 0 where
  pub lcm : M
  pub network_passphrase : Text
  pub fields : LedgerInput

pub record LedgerViewInput : Type 0 where
  pub network_passphrase : Text
  pub fields : LedgerInput
  pub view : Text

-- `transactionsOnce`, with what the one walk gave
abbrev pub transaction_views :
    {V : Type 0}
    → Result (List V)
    → Option (Result (List V))
    → Result (List V) × Option (Result (List V))
transaction_views walk none = (walk, some walk)
transaction_views walk (some answer) = (answer, some answer)

module _ {M : Type 0} (sdk : LedgerSdk M) where
  unfoldable pub view_of : Text → Text → Result LedgerViewInput
  unfolding decimal
  view_of xdr_bytes network_passphrase =
      on_ok (codes "read ledger sequence: ") (sdk.ledger_sequence xdr_bytes) (λ sequence.
        on_ok (codes "read ledger " ++ (decimal sequence ++ codes " close time: "))
          (sdk.ledger_close_time xdr_bytes)
          (λ closed_at. ok (record {
            network_passphrase = network_passphrase;
            fields = record {
              sequence = sequence;
              closed_at = closed_at;
              ledger_range = sequence / 10000 * 10000;
              era_id = none;
            };
            view = xdr_bytes;
          })))

  unfoldable pub new_ledger_view_input : Text → Text → Result LedgerViewInput
  unfolding view_of
  new_ledger_view_input xdr_bytes network_passphrase = elim (sdk.validate_full xdr_bytes) [
    | none ↦ view_of xdr_bytes network_passphrase
    | some e ↦ err (codes "validate LedgerCloseMeta XDR: " ++ e)
  ]

  unfoldable pub decode : LedgerViewInput → Result (ParsedInput M)
  decode input =
      on_ok (codes "unmarshal LedgerCloseMeta: ") (sdk.unmarshal_binary input.view) (λ lcm.
        ok (record {
          lcm = lcm;
          network_passphrase = input.network_passphrase;
          fields = input.fields;
        }))

  unfoldable pub new_ledger_input_from_xdr : Text → Text → Result (ParsedInput M)
  unfolding new_ledger_input
  new_ledger_input_from_xdr xdr_bytes network_passphrase =
      on_ok (codes "unmarshal LedgerCloseMeta: ") (sdk.unmarshal_binary xdr_bytes) (λ lcm.
        ok (record {
          lcm = lcm;
          network_passphrase = network_passphrase;
          fields = new_ledger_input (sdk.sequence_of lcm) (sdk.close_time_of lcm);
        }))

  -- `outcome` says how each extractor ends on an input
  module _ {R : Type 0} (outcome : ParsedInput M → Text → Outcome R) where
    -- the results that a call may return, given the input that it extracts from
    unfoldable pub ExtractAllOf : Result (ParsedInput M) → LedgerData R → Type 0
    unfolding ExtractAll
    ExtractAllOf (err e) result = result ≡ record { tables = []; errs = e ∷ [] }
    ExtractAllOf (ok input) result = ExtractAll (outcome input) result

    unfoldable pub ExtractAllFromXdr : Text → Text → LedgerData R → Type 0
    unfolding ExtractAllOf new_ledger_input_from_xdr
    ExtractAllFromXdr xdr_bytes network_passphrase =
        ExtractAllOf (new_ledger_input_from_xdr xdr_bytes network_passphrase)

    unfoldable pub ExtractAllView : LedgerViewInput → LedgerData R → Type 0
    unfolding ExtractAllOf decode
    ExtractAllView input = ExtractAllOf (decode input)
