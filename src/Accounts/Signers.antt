-- ===== src/Accounts/Signers.antt =====
-- accounts.go, types_accounts.go: `ExtractAccountSigners`.
use stellar_extract.Prelude.{
  arith, ℕ, ◌≡◌, refl, Bool, true, false, Option, none, some, List, [], ◌∷◌, ◌++◌, Text,
  text_ordered,
}
use stellar_extract.Ordering.{sorted_map_values}
use stellar_extract.Ordering.Snapshot.{
  OfSome, IsSnapshotOf, Collected, nothing, collect, collect-append, collect_lem,
}
use stellar_extract.Xdr.{Result, ok, err}
use stellar_extract.Xdr.Ledger.{LedgerInput}
use stellar_extract.Accounts.{Signer, AccountEntry, AccountChange, account_change, v2_of}

pub record AccountSignerData : Type 0 where
  pub account_id : Text
  pub signer : Text
  pub ledger_sequence : ℕ
  pub weight : ℕ
  pub sponsor : Text
  pub deleted : Bool
  pub closed_at : ℕ
  pub ledger_range : ℕ
  pub created_at : ℕ
  pub era_id : Option Text

-- A signer of an account, with `sponsorIDs[i]` where there is one, and whether the account is gone.
pub record SignerOf : Type 0 where
  pub account : Text
  pub signer : Signer
  pub sponsor_id : Option Text
  pub deleted : Bool

-- `dedupeKey`
abbrev pub signer_key : AccountSignerData → Text
signer_key r = r.account_id ++ (b':' ∷ r.signer)

abbrev pub sponsor_ids : AccountEntry → List (Option Text)
sponsor_ids entry = elim (v2_of entry) [ none ↦ [] | some v2 ↦ v2.signer_sponsoring_ids ]

-- the signers with their sponsors, by position
unfoldable pub signers_of : Text → Bool → List Signer → List (Option Text) → List SignerOf
signers_of account deleted [] ids = []
signers_of account deleted (s ∷ ss) [] =
    record { account = account; signer = s; sponsor_id = none; deleted = deleted }
    ∷ signers_of account deleted ss []
signers_of account deleted (s ∷ ss) (id ∷ ids) =
    record { account = account; signer = s; sponsor_id = id; deleted = deleted }
    ∷ signers_of account deleted ss ids

abbrev pub entry_signers : Bool → AccountEntry → List SignerOf
entry_signers deleted entry = signers_of entry.account_id deleted entry.signers (sponsor_ids entry)

-- The signers of the entry after the change, or, of a removal, of the entry before it.
abbrev pub change_signers : AccountChange → List SignerOf
change_signers (account_change pre (some post)) = entry_signers false post.body
change_signers (account_change (some pre) none) = entry_signers true pre.body
change_signers _ = []

-- All signers that the changes show, in order.
abbrev pub all_signers : List AccountChange → List SignerOf
all_signers [] = []
all_signers (change ∷ changes) = change_signers change ++ all_signers changes

module _ (address_of : Text → Text) (clock : ℕ → ℕ) (input : LedgerInput) where
  abbrev pub address_or_empty : Option Text → Text
  address_or_empty none = []
  address_or_empty (some id) = address_of id

  -- the body of the inner loop
  unfoldable pub signer_row : ℕ → SignerOf → Option AccountSignerData
  signer_row reading s = some (record {
    account_id = address_of s.account;
    signer = s.signer.key_address;
    ledger_sequence = input.sequence;
    weight = s.signer.weight;
    sponsor = address_or_empty s.sponsor_id;
    deleted = s.deleted;
    closed_at = input.closed_at;
    ledger_range = input.ledger_range;
    created_at = clock reading;
    era_id = input.era_id;
  })

  -- the two loops, over the changes and over the signers of each
  signers_loop :
      List AccountChange → Collected Text AccountSignerData → Collected Text AccountSignerData
  unfolding collect signer_row signers_of
  signers_loop [] s = s
  signers_loop (change ∷ changes) s =
      signers_loop changes (collect signer_key signer_row (change_signers change) s)

  unfoldable pub extract_account_signers : Result (List AccountChange) → List AccountSignerData
  unfolding signers_loop sorted_map_values
  extract_account_signers (err e) = []
  extract_account_signers (ok changes) = sorted_map_values (signers_loop changes nothing).entries

  signers_loop-collect :
      (changes : List AccountChange) (s : Collected Text AccountSignerData)
      → signers_loop changes s ≡ collect signer_key signer_row (all_signers changes) s
  unfolding signers_loop
  signers_loop-collect [] s = unfold collect in refl
  signers_loop-collect (change ∷ changes) s =
      rw (collect-append signer_key signer_row (change_signers change) (all_signers changes) s)
        (signers_loop-collect changes (collect signer_key signer_row (change_signers change) s))

  -- The row of a signer.
  pub record IsSignerRow (s : SignerOf) (row : AccountSignerData) : Type 0 where
    pub of_account : row.account_id ≡ address_of s.account
    pub keyed : row.signer ≡ s.signer.key_address
    pub weighs : row.weight ≡ s.signer.weight
    pub sponsored : row.sponsor ≡ address_or_empty s.sponsor_id
    pub gone : row.deleted ≡ s.deleted
    pub of_ledger : row.ledger_sequence ≡ input.sequence

  signer_row-IsSignerRow :
      (n : ℕ) (s : SignerOf) → OfSome signer_key (IsSignerRow s) (signer_row n s)
  unfolding signer_row
  signer_row-IsSignerRow n s = ground arith

  -- Of all signers that the account entries of the changes list, in order, the last one of each
  -- account and key makes the row, with the sponsor that stands at its position, and is marked as
  -- deleted where that change removes the account; the rows come in increasing order of account and
  -- key.
  pub extract_account_signers_lem :
      (changes : List AccountChange)
      → IsSnapshotOf signer_key signer_row IsSignerRow
          (all_signers changes)
          (extract_account_signers (ok changes))
  unfolding extract_account_signers
  extract_account_signers_lem changes =
      rw (signers_loop-collect changes nothing)
        (collect_lem signer_key signer_row IsSignerRow signer_row-IsSignerRow (all_signers changes))
