-- ===== src/Operations/Columns.antt =====
-- operations.go: the columns that an operation's type fills, and the setters of transactions.go.
use stellar_extract.Prelude.{ℕ, Option, none, some, [], ◌∷◌, ◌++◌, Text}
use stellar_extract.Go.Ints.{ℤ}
use stellar_extract.Go.Strings.{codes, decimal_int, base64_encode}
use stellar_extract.Trades.{
  XdrAsset, asset_native, asset_alphanum4, asset_alphanum12, asset_pool_share, asset_other,
  trim_right,
}
use stellar_extract.Transactions.{
  MuxedAccount, to_account_id, AssetColumns, no_asset, set_asset_columns, unless_blank,
}
use stellar_extract.Xdr.{Result, ok, err}
use stellar_extract.Operations.{
  Price, OptionsOp, OperationBody, create_account, payment, path_payment_strict_receive,
  path_payment_strict_send, manage_sell_offer, manage_buy_offer, create_passive_sell_offer,
  set_options, change_trust, allow_trust, account_merge, manage_data, bump_sequence,
  create_claimable_balance, claim_claimable_balance, begin_sponsoring_future_reserves, clawback,
  set_trust_line_flags, liquidity_pool_deposit, liquidity_pool_withdraw,
}

-- The columns of OperationData that depend on the type of the operation, the Soroban ones aside.
pub record OperationColumns : Type 0 where
  pub amount : Option ℤ
  pub destination : Option Text
  pub asset : AssetColumns
  pub source_asset : AssetColumns
  pub source_amount : Option ℤ
  pub destination_min : Option ℤ
  pub starting_balance : Option ℤ
  pub trustline_limit : Option ℤ
  pub offer_id : Option ℤ
  pub price : Option Text
  pub price_r : Option Text
  pub buying_asset : AssetColumns
  pub selling_asset : AssetColumns
  pub set_flags : Option ℕ
  pub clear_flags : Option ℕ
  pub home_domain : Option Text
  pub master_weight : Option ℕ
  pub low_threshold : Option ℕ
  pub medium_threshold : Option ℕ
  pub high_threshold : Option ℕ
  pub data_name : Option Text
  pub data_value : Option Text
  pub balance_id : Option Text
  pub sponsored_id : Option Text
  pub bump_to : Option ℤ

abbrev pub no_columns : OperationColumns
no_columns = record {
  amount = none;
  destination = none;
  asset = no_asset;
  source_asset = no_asset;
  source_amount = none;
  destination_min = none;
  starting_balance = none;
  trustline_limit = none;
  offer_id = none;
  price = none;
  price_r = none;
  buying_asset = no_asset;
  selling_asset = no_asset;
  set_flags = none;
  clear_flags = none;
  home_domain = none;
  master_weight = none;
  low_threshold = none;
  medium_threshold = none;
  high_threshold = none;
  data_name = none;
  data_value = none;
  balance_id = none;
  sponsored_id = none;
  bump_to = none;
}

unfoldable pub price_text : Price → Text
unfolding decimal_int
price_text price = decimal_int price.n ++ (b'/' ∷ decimal_int price.d)

unfoldable pub price_r_text : Price → Text
unfolding decimal_int
price_r_text price =
    codes "{\"n\":"
    ++ (decimal_int price.n ++ (codes ",\"d\":" ++ (decimal_int price.d ++ codes "}")))

-- the SDK's `Address` of an account, `StringCanonical` of an asset and `xdr.MarshalHex`
module _ (address_of : Text → Text) (string_canonical : XdrAsset → Text)
    (marshal_hex : Text → Result Text) where
  abbrev set_columns : XdrAsset → AssetColumns → AssetColumns
  set_columns = set_asset_columns address_of string_canonical

  abbrev pub set_asset_fields : XdrAsset → OperationColumns → OperationColumns
  set_asset_fields asset c = record c { asset = set_columns asset c.asset }

  abbrev pub set_source_asset_fields : XdrAsset → OperationColumns → OperationColumns
  set_source_asset_fields asset c = record c { source_asset = set_columns asset c.source_asset }

  abbrev pub set_buying_asset_fields : XdrAsset → OperationColumns → OperationColumns
  set_buying_asset_fields asset c = record c { buying_asset = set_columns asset c.buying_asset }

  abbrev pub set_selling_asset_fields : XdrAsset → OperationColumns → OperationColumns
  set_selling_asset_fields asset c = record c { selling_asset = set_columns asset c.selling_asset }

  abbrev account_address : MuxedAccount → Option Text
  account_address account = some (address_of (to_account_id account))

  -- what the three offer operations share
  offer_columns : XdrAsset → XdrAsset → ℤ → Price → OperationColumns → OperationColumns
  unfolding price_text price_r_text
  offer_columns selling buying amount price c = set_buying_asset_fields buying (
      set_selling_asset_fields selling (record c {
        amount = some amount;
        price = some (price_text price);
        price_r = some (price_r_text price);
      }))

  options_columns : OptionsOp → OperationColumns → OperationColumns
  options_columns op c = record c {
    home_domain = op.home_domain;
    set_flags = op.set_flags;
    clear_flags = op.clear_flags;
    master_weight = op.master_weight;
    low_threshold = op.low_threshold;
    medium_threshold = op.med_threshold;
    high_threshold = op.high_threshold;
  }

  trust_columns : XdrAsset → OperationColumns → OperationColumns
  trust_columns asset_pool_share c = record c {
    asset = record c.asset {
      asset = some (codes "liquidity_pool_shares");
      asset_type = some (codes "liquidity_pool_shares");
    };
  }
  trust_columns asset_native c = set_asset_fields asset_native c
  trust_columns (asset_alphanum4 code issuer) c = set_asset_fields (asset_alphanum4 code issuer) c
  trust_columns (asset_alphanum12 code issuer) c = set_asset_fields (asset_alphanum12 code issuer) c
  trust_columns asset_other c = set_asset_fields asset_other c

  abbrev code_or_empty : Option Text → Text
  code_or_empty none = []
  code_or_empty (some code) = trim_right code

  abbrev balance_id_of : Result Text → Option Text
  balance_id_of (err e) = none
  balance_id_of (ok id) = some id

  abbrev encoded_value : Option Text → Option Text
  encoded_value none = none
  encoded_value (some bytes) = some (base64_encode bytes)

  -- the switch on the operation's type
  unfoldable pub operation_columns : OperationBody → OperationColumns
  unfolding offer_columns options_columns trust_columns base64_encode
  operation_columns (create_account destination starting_balance) = record no_columns {
    starting_balance = some starting_balance;
    amount = some starting_balance;
    destination = some (address_of destination);
  }
  operation_columns (payment destination asset amount) =
      set_asset_fields asset
        (record no_columns { amount = some amount; destination = account_address destination })
  operation_columns
        (path_payment_strict_receive destination dest_asset dest_amount send_asset send_max) =
      set_source_asset_fields send_asset (
        set_asset_fields dest_asset (record no_columns {
          amount = some dest_amount;
          source_amount = some send_max;
          destination = account_address destination;
        }))
  operation_columns
        (path_payment_strict_send send_asset send_amount destination dest_asset dest_min) =
      set_asset_fields dest_asset (
        set_source_asset_fields send_asset (record no_columns {
          amount = some send_amount;
          destination_min = some dest_min;
          destination = account_address destination;
        }))
  operation_columns (manage_sell_offer selling buying amount price offer_id) =
      offer_columns selling buying amount price (record no_columns { offer_id = some offer_id })
  operation_columns (manage_buy_offer selling buying amount price offer_id) =
      offer_columns selling buying amount price (record no_columns { offer_id = some offer_id })
  operation_columns (create_passive_sell_offer selling buying amount price) =
      offer_columns selling buying amount price no_columns
  operation_columns (set_options op) = options_columns op no_columns
  operation_columns (change_trust line limit) =
      trust_columns line (record no_columns { trustline_limit = some limit })
  operation_columns (allow_trust trustor asset_code authorize) = record no_columns {
    destination = some (address_of trustor);
    asset = record no_asset { asset_code = unless_blank (code_or_empty asset_code) none };
    set_flags = some authorize;
  }
  operation_columns (account_merge destination) = record no_columns {
    destination = account_address destination;
  }
  operation_columns (manage_data data_name data_value) = record no_columns {
    data_name = some data_name;
    data_value = encoded_value data_value;
  }
  operation_columns (bump_sequence bump_to) = record no_columns { bump_to = some bump_to }
  operation_columns (create_claimable_balance asset amount) =
      set_asset_fields asset (record no_columns { amount = some amount })
  operation_columns (claim_claimable_balance balance_id) = record no_columns {
    balance_id = balance_id_of (marshal_hex balance_id);
  }
  operation_columns (begin_sponsoring_future_reserves sponsored_id) = record no_columns {
    sponsored_id = some (address_of sponsored_id);
  }
  operation_columns (clawback asset from amount) =
      set_asset_fields asset
        (record no_columns { amount = some amount; destination = account_address from })
  operation_columns (set_trust_line_flags trustor asset set_flags clear_flags) =
      set_asset_fields asset (record no_columns {
        destination = some (address_of trustor);
        set_flags = some set_flags;
        clear_flags = some clear_flags;
      })
  operation_columns (liquidity_pool_deposit max_amount_a) = record no_columns {
    amount = some max_amount_a;
  }
  operation_columns (liquidity_pool_withdraw amount) = record no_columns { amount = some amount }
  operation_columns _ = no_columns
