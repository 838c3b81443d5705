-- ===== src/Accounts/Trustlines/PoolShares.antt =====
-- The trust lines to pool shares all have one key for each account.
use stellar_extract.Prelude.{
  ℕ, ◌+◌, ◌≤◌, ◌≡◌, refl, sym, Bool, true, false, ◌&&◌, none, some, List, [], ◌∷◌, ◌++◌, Text,
  text_ordered, All, All-map, ◌==◌, if◌then◌else◌, less, arith, eq→path, path→eq, ◌∙◌, Bool-cases,
  inl, inr,
}
use mathlib.Core.Path.{subst}
use stellar_extract.Go.Ints.{ℤ}
use stellar_extract.Go.Slices.{IsIncreasing}
use stellar_extract.Go.Strings.{codes}
use stellar_extract.Ordering.Members.{Among}
use stellar_extract.Ordering.Rows.{keys_of}
use stellar_extract.Trades.{
  XdrAsset, asset_native, asset_alphanum4, asset_alphanum12, asset_pool_share, asset_other,
}
use stellar_extract.Xdr.{ok}
use stellar_extract.Xdr.Ledger.{LedgerInput}
use stellar_extract.Accounts.{AccountChange, account_change, trustline_change, other_change}
use stellar_extract.Accounts.Trustlines.{
  TrustlineData, trustline_key, trustline_asset, extract_trustlines, TrustlineRowOf,
  extract_trustlines_lem,
}

pub is_pool_share : Text → TrustlineData → Bool
is_pool_share account r = r.account_id == account && r.asset_type == codes "liquidity_pool_shares"

-- How many rows are of pool shares that an account holds.
abbrev pub pool_share_rows : Text → List TrustlineData → ℕ
pool_share_rows account [] = 0
pool_share_rows account (r ∷ rs) =
    (if is_pool_share account r then 1 else 0) + pool_share_rows account rs

is_pool_share_parts :
    (account : Text) (r : TrustlineData)
    → is_pool_share account r ≡ true
    → (r.account_id ≡ account) × (r.asset_type ≡ codes "liquidity_pool_shares")
unfolding is_pool_share
is_pool_share_parts account r h = elim (Bool-cases (r.account_id == account)) [
  | inl same ↦ (
    eq→path r.account_id account same,
    eq→path r.asset_type (codes "liquidity_pool_shares") (rw same at h),
  )
  | inr other ↦ absurd (cc (rw other at h))
]

abbrev pool_key : Text → Text
pool_key account = account ++ codes ":POOL_SHARE:pool"

-- A row of pool shares has the key that all those of its account have.
abbrev HasPoolKey : TrustlineData → Type 0
HasPoolKey r =
    (account : Text) → is_pool_share account r ≡ true → trustline_key r ≡ pool_key account

none_later :
    (account : Text) (rs : List TrustlineData)
    → All HasPoolKey rs
    → All (λ k. less (pool_key account) k ≡ true) (keys_of trustline_key rs)
    → pool_share_rows account rs ≡ 0
none_later account [] h above = refl
none_later account (r ∷ rs) (p, h) (l, above) = elim (Bool-cases (is_pool_share account r)) [
  | inl same ↦ cc (
    text_ordered.lt_irrefl (pool_key account),
    subst (λ k. less (pool_key account) k ≡ true) (p account same) l,
  )
  | inr other ↦ rw other (omega (arith, none_later account rs h above))
]

at_most_one :
    (account : Text) (rs : List TrustlineData)
    → All HasPoolKey rs
    → IsIncreasing (keys_of trustline_key rs)
    → pool_share_rows account rs ≤ 1
at_most_one account [] h above = omega arith
at_most_one account (r ∷ rs) (p, h) (above, ordered) = elim (Bool-cases (is_pool_share account r)) [
  | inl same ↦
      let above' : All (λ k. less (pool_key account) k ≡ true) (keys_of trustline_key rs) =
        subst (λ j. All (λ k. less j k ≡ true) (keys_of trustline_key rs)) (p account same) above in
      rw same (omega (arith, none_later account rs h above'))
  | inr other ↦ rw other (omega (arith, at_most_one account rs h ordered))
]

-- the types of the other assets
ne_pool_type :
    (kind : Text)
    → (kind == codes "liquidity_pool_shares") ≡ false
    → (row : TrustlineData) → row.asset_type ≡ kind
    → (account : Text) → ¬ (is_pool_share account row ≡ true)
ne_pool_type kind ne row t account h =
    let (_, is) = is_pool_share_parts account row h in
    cc (ne, path→eq kind (codes "liquidity_pool_shares") (sym t ∙ is))

module _ (address_of : Text → Text) (amount_string : ℤ → Text) (clock : ℕ → ℕ)
    (input : LedgerInput) where
  entry-HasPoolKey :
      (asset : XdrAsset) (row : TrustlineData)
      → row.asset_code ≡ (trustline_asset address_of amount_string clock input asset).code
      → row.asset_issuer ≡ (trustline_asset address_of amount_string clock input asset).issuer
      → row.asset_type ≡ (trustline_asset address_of amount_string clock input asset).kind
      → HasPoolKey row
  unfolding trustline_asset
  entry-HasPoolKey asset_pool_share row c i t account h =
      let (a, _) = is_pool_share_parts account row h in rw (a, c, i) refl
  entry-HasPoolKey asset_native row c i t account h = absurd (ne_pool_type [] refl row t account h)
  entry-HasPoolKey asset_other row c i t account h = absurd (ne_pool_type [] refl row t account h)
  entry-HasPoolKey (asset_alphanum4 code issuer) row c i t account h =
      absurd (ne_pool_type (codes "credit_alphanum4") refl row t account h)
  entry-HasPoolKey (asset_alphanum12 code issuer) row c i t account h =
      absurd (ne_pool_type (codes "credit_alphanum12") refl row t account h)

  row-HasPoolKey :
      (changes : List AccountChange) (row : TrustlineData)
      → (change : AccountChange) × Among change changes
        × TrustlineRowOf address_of amount_string clock input change row
      → HasPoolKey row
  row-HasPoolKey changes row (trustline_change (some entry), m, r) =
      entry-HasPoolKey entry.asset row r.coded r.issued r.typed
  row-HasPoolKey changes row (trustline_change none, m, r) = elim r [ ]
  row-HasPoolKey changes row (account_change p q, m, r) = elim r [ ]
  row-HasPoolKey changes row (other_change, m, r) = elim r [ ]

  -- However many pools the trust lines of an account are to, a ledger gives at most one row of pool
  -- shares for the account.
  pub extract_trustlines-pool_shares :
      (changes : List AccountChange) (account : Text)
      → pool_share_rows account
          (extract_trustlines address_of amount_string clock input (ok changes))
        ≤ 1
  extract_trustlines-pool_shares changes account =
      let (snapshot, of_changes) =
        extract_trustlines_lem address_of amount_string clock input changes in
      let rows = extract_trustlines address_of amount_string clock input (ok changes) in
      at_most_one account rows (All-map _ HasPoolKey rows (row-HasPoolKey changes) of_changes)
        snapshot.ordered
