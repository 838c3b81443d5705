-- ===== src/Transactions/Preconditions.antt =====
-- transactions.go: `populatePreconditionFields`.
use stellar_extract.Prelude.{
  ℕ, Option, none, some, List, [], ◌∷◌, map, if◌then◌else◌, Text, ◌==◌, nat_ordered,
}
use stellar_extract.Go.Ints.{ℤ, pos, to_i64}
use stellar_extract.Xdr.{Result, ok, err}

pub record LedgerBounds : Type 0 where
  pub min_ledger : ℕ
  pub max_ledger : ℕ

-- xdr.PreconditionsV2; a signer by its key
pub record PreconditionsV2 : Type 0 where
  pub ledger_bounds : Option LedgerBounds
  pub min_seq_num : Option ℤ
  pub min_seq_age : ℕ
  pub extra_signers : List Text

pub record PreconditionColumns : Type 0 where
  pub ledgerbounds_min : Option ℤ
  pub ledgerbounds_max : Option ℤ
  pub min_sequence_number : Option ℤ
  pub min_sequence_age : Option ℤ
  pub extra_signers : Option Text

abbrev pub no_preconditions : PreconditionColumns
no_preconditions = record {
  ledgerbounds_min = none;
  ledgerbounds_max = none;
  min_sequence_number = none;
  min_sequence_age = none;
  extra_signers = none;
}

abbrev min_bound : Option LedgerBounds → Option ℤ
min_bound none = none
min_bound (some bounds) = some (pos bounds.min_ledger)

abbrev max_bound : Option LedgerBounds → Option ℤ
max_bound none = none
max_bound (some bounds) = some (pos bounds.max_ledger)

-- The SDK's `Address` of a signer, and `json.Marshal`.
module _ (signer_address : Text → Text) (marshal : List Text → Result Text) where
  signers_text : List Text → Option Text
  signers_text [] = none
  signers_text (key ∷ keys) = elim (marshal (map signer_address (key ∷ keys))) [
    | err e ↦ none
    | ok text ↦ some text
  ]

  -- `GetV2` of the preconditions
  unfoldable pub populate_precondition_fields : Option PreconditionsV2 → PreconditionColumns
  unfolding signers_text
  populate_precondition_fields none = no_preconditions
  populate_precondition_fields (some cond) = record {
    ledgerbounds_min = min_bound cond.ledger_bounds;
    ledgerbounds_max = max_bound cond.ledger_bounds;
    min_sequence_number = cond.min_seq_num;
    min_sequence_age = if cond.min_seq_age == 0 then none else some (to_i64 cond.min_seq_age);
    extra_signers = signers_text cond.extra_signers;
  }
