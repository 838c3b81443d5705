-- ===== src/Tests/Accounts.antt =====
-- Examples of accounts.go.
use stellar_extract.Prelude.{ℕ, ◌≤◌, ◌++◌, none, some, List, [], ◌∷◌, Text, text_ordered}
use stellar_extract.Go.Ints.{pos}
use stellar_extract.Go.Strings.{codes, decimal_int}
use stellar_extract.Trades.{XdrAsset, asset_alphanum4, asset_pool_share}
use stellar_extract.Xdr.{Result, ok}
use stellar_extract.Xdr.Ledger.{Entry}
use stellar_extract.Accounts.{
  AccountEntry, TrustLineEntry, AccountChange, account_change, trustline_change, other_change,
}
use stellar_extract.Accounts.Snapshots.{SignerData}
use stellar_extract.Accounts.Trustlines.{extract_trustlines}
use stellar_extract.Accounts.Trustlines.PoolShares.{pool_share_rows, extract_trustlines-pool_shares}
use stellar_extract.Tests.Data.{clock, input}

abbrev address_of : Text → Text
address_of id = codes "G" ++ id

abbrev marshal : List SignerData → Result Text
marshal signers = ok (codes "[]")

-- An account with two signers, the second of which has a sponsor.
abbrev account : Text → ℕ → Entry AccountEntry
account id balance = record {
  last_modified_ledger_seq = 49;
  body = record {
    account_id = id;
    balance = pos balance;
    seq_num = pos 12;
    num_sub_entries = 2;
    home_domain = [];
    master_weight = 1;
    low_threshold = 0;
    med_threshold = 0;
    high_threshold = 0;
    flags = 10;
    signers =
        record { key_address = codes "k"; weight = 1 }
        ∷ record { key_address = codes "j"; weight = 2 }
        ∷ [];
    ext = some (record {
      liabilities = record { buying = pos 3; selling = pos 4 };
      ext = some (record {
        num_sponsored = 1;
        num_sponsoring = 0;
        signer_sponsoring_ids = none ∷ some (codes "s") ∷ [];
      });
    });
    seq_ledger = 40;
    seq_time = 800;
  };
}

abbrev trust_line : XdrAsset → ℕ → TrustLineEntry
trust_line asset balance = record {
  account_id = codes "a";
  asset = asset;
  balance = pos balance;
  limit = pos 1000;
  flags = 1;
  ext = none;
}

-- `b` changes and is removed; `a` has trust lines to two pools.
abbrev changes : List AccountChange
changes =
    account_change none (some (account (codes "b") 7))
    ∷ account_change (some (account (codes "b") 7)) none
    ∷ trustline_change (some (trust_line asset_pool_share 1))
    ∷ trustline_change (some (trust_line (asset_alphanum4 (codes "USDC") (codes "i")) 9))
    ∷ trustline_change (some (trust_line asset_pool_share 2))
    ∷ account_change none (some (account (codes "a") 8))
    ∷ other_change
    ∷ []

extract_trustlines-pool_shares_example :
    pool_share_rows
      (codes "Ga")
      (extract_trustlines address_of decimal_int clock input (ok changes))
    ≤ 1
extract_trustlines-pool_shares_example =
    extract_trustlines-pool_shares address_of decimal_int clock input changes (codes "Ga")
