-- ===== src/Accounts/Trustlines.antt =====
-- accounts.go, types_accounts.go: `ExtractTrustlines`.
pub mod PoolShares
use stellar_extract.Prelude.{
  ℕ, ◌+◌, ◌≤◌, ◌≡◌, refl, Bool, true, false, ◌&&◌, Option, none, some, List, [], ◌∷◌, ◌++◌, Text,
  text_ordered, All, ◌==◌, if◌then◌else◌, less, arith, eq→path, path→eq, ap, Bool-cases, inl, inr,
}
use mathlib.Core.Option.{none-ne-some, some-injective}
use mathlib.Core.Path.{subst}
use stellar_extract.Go.Ints.{ℤ}
use stellar_extract.Go.Slices.{IsIncreasing}
use stellar_extract.Go.Strings.{codes}
use stellar_extract.Ordering.{sorted_map_values}
use stellar_extract.Ordering.Members.{Among}
use stellar_extract.Ordering.Rows.{keys_of}
use stellar_extract.Ordering.Snapshot.{
  OfSome, IsSnapshotOf, nothing, collect, rows_of, IsSnapshot, collect_lem,
}
use stellar_extract.Trades.{
  XdrAsset, asset_native, asset_alphanum4, asset_alphanum12, asset_pool_share, asset_other,
  trim_right,
}
use stellar_extract.Xdr.{Result, ok, err}
use stellar_extract.Xdr.Ledger.{LedgerInput}
use stellar_extract.Accounts.{
  Liabilities, TrustLineEntry, AccountChange, account_change, trustline_change, other_change,
  has_flag,
}

pub record TrustlineData : Type 0 where
  pub account_id : Text
  pub asset_code : Text
  pub asset_issuer : Text
  pub asset_type : Text
  pub balance : Text
  pub trust_limit : Text
  pub buying_liabilities : Text
  pub selling_liabilities : Text
  pub authorized : Bool
  pub authorized_to_maintain_liabilities : Bool
  pub clawback_enabled : Bool
  pub ledger_sequence : ℕ
  pub created_at : ℕ
  pub ledger_range : ℕ
  pub era_id : Option Text

-- the variables `assetCode`, `assetIssuer` and `assetType`
pub record TrustlineAsset : Type 0 where
  pub code : Text
  pub issuer : Text
  pub kind : Text

-- the key `accountID:assetCode:assetIssuer`
abbrev pub trustline_key : TrustlineData → Text
trustline_key r = r.account_id ++ (b':' ∷ (r.asset_code ++ (b':' ∷ r.asset_issuer)))

module _ (address_of : Text → Text) (amount_string : ℤ → Text) (clock : ℕ → ℕ)
    (input : LedgerInput) where
  unfoldable pub trustline_asset : XdrAsset → TrustlineAsset
  trustline_asset (asset_alphanum4 code issuer) = record {
    code = trim_right code;
    issuer = address_of issuer;
    kind = codes "credit_alphanum4";
  }
  trustline_asset (asset_alphanum12 code issuer) = record {
    code = trim_right code;
    issuer = address_of issuer;
    kind = codes "credit_alphanum12";
  }
  trustline_asset asset_pool_share = record {
    code = codes "POOL_SHARE";
    issuer = codes "pool";
    kind = codes "liquidity_pool_shares";
  }
  trustline_asset _ = record { code = []; issuer = []; kind = [] }

  liability_text : (Liabilities → ℤ) → Option Liabilities → Text
  liability_text side none = codes "0"
  liability_text side (some l) = amount_string (side l)

  unfoldable pub extract_trustline_data : ℕ → TrustLineEntry → TrustlineData
  unfolding trustline_asset liability_text
  extract_trustline_data reading entry = record {
    account_id = address_of entry.account_id;
    asset_code = (trustline_asset entry.asset).code;
    asset_issuer = (trustline_asset entry.asset).issuer;
    asset_type = (trustline_asset entry.asset).kind;
    balance = amount_string entry.balance;
    trust_limit = amount_string entry.limit;
    buying_liabilities = liability_text (λ l. l.buying) entry.ext;
    selling_liabilities = liability_text (λ l. l.selling) entry.ext;
    authorized = has_flag 1 entry.flags;
    authorized_to_maintain_liabilities = has_flag 2 entry.flags;
    clawback_enabled = has_flag 4 entry.flags;
    ledger_sequence = input.sequence;
    created_at = clock reading;
    ledger_range = input.ledger_range;
    era_id = input.era_id;
  }

  -- the body of the loop; a trust line that is removed has no entry after the change
  unfoldable pub trustline_row : ℕ → AccountChange → Option TrustlineData
  unfolding extract_trustline_data
  trustline_row reading (trustline_change (some post)) = some (extract_trustline_data reading post)
  trustline_row reading _ = none

  unfoldable pub extract_trustlines : Result (List AccountChange) → List TrustlineData
  unfolding trustline_row collect sorted_map_values
  extract_trustlines (err e) = []
  extract_trustlines (ok changes) =
      sorted_map_values (collect trustline_key trustline_row changes nothing).entries

  -- The row of a trust line as it stands after the change.
  pub record IsTrustlineRow (entry : TrustLineEntry) (row : TrustlineData) : Type 0 where
    pub of_account : row.account_id ≡ address_of entry.account_id
    pub coded : row.asset_code ≡ (trustline_asset entry.asset).code
    pub issued : row.asset_issuer ≡ (trustline_asset entry.asset).issuer
    pub typed : row.asset_type ≡ (trustline_asset entry.asset).kind
    pub holds : row.balance ≡ amount_string entry.balance
    pub may_hold : row.authorized ≡ has_flag 1 entry.flags
    pub of_ledger : row.ledger_sequence ≡ input.sequence

  abbrev pub TrustlineRowOf : AccountChange → TrustlineData → Type 0
  TrustlineRowOf (trustline_change (some post)) row = IsTrustlineRow post row
  TrustlineRowOf _ row = ⊥

  trustline_row-TrustlineRowOf :
      (n : ℕ) (change : AccountChange)
      → OfSome (trustline_key) (TrustlineRowOf change) (trustline_row n change)
  unfolding trustline_row extract_trustline_data
  trustline_row-TrustlineRowOf n change = ground arith

  -- The trust line rows hold the state after the last change of each account, code and issuer that
  -- leaves a trust line in place, in increasing order of the three, and each is the row of a trust
  -- line that a change leaves in place.
  pub extract_trustlines_lem :
      (changes : List AccountChange)
      → IsSnapshotOf
          (trustline_key)
          trustline_row
          TrustlineRowOf
          changes
          (extract_trustlines (ok changes))
  unfolding extract_trustlines
  extract_trustlines_lem =
      collect_lem trustline_key trustline_row TrustlineRowOf trustline_row-TrustlineRowOf
