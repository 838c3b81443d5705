-- ===== src/Tests/Effects.antt =====
-- Examples of effects.go.
use stellar_extract.Prelude.{
  arith, ℕ, true, Option, none, some, List, [], ◌∷◌, ◌++◌, ◌≡◌, refl, Text, text_ordered, All,
}
use stellar_extract.Effects.{
  AssetParts, EffectSdk, EffectRecord, Sponsored, DataEntry, Pool, PoolChange, pool_updated,
  EffectChange, data_change, pool_change, other_change, offer_claim, pool_claim, EffectClaim,
}
use stellar_extract.Effects.Entries.{manage_data_effects}
use stellar_extract.Effects.Entries.ManageData.{
  first_data_change, SaysData, manage_data_effects_lem,
}
use stellar_extract.Effects.Named.Whole.{HasName, extract_effects-HasName}
use stellar_extract.Effects.Operations.{create_account, manage_data}
use stellar_extract.Effects.Pools.{PoolDelta, is_of_pool, get_liquidity_pool_delta}
use stellar_extract.Effects.Pools.Delta.{IsDeltaOf, get_liquidity_pool_delta_lem}
use stellar_extract.Effects.Rows.{
  EffectData, EffectTransaction, transaction_effects, extract_effects,
}
use stellar_extract.Effects.Rows.Indexes.{InOrder, transaction_effects-InOrder}
use stellar_extract.Effects.Signers.{SignerSummary, signer_effects}
use stellar_extract.Effects.Signers.Exact.{IsRealChange, signer_effects_lem}
use stellar_extract.Effects.Signers.Replay.{replay}
use stellar_extract.Effects.Sponsorship.{sponsorship_effects}
use stellar_extract.Effects.Sponsorship.Says.{SaysSponsor, sponsorship_effects-SaysSponsor}
use stellar_extract.Effects.Trades.{add_trade_effects}
use stellar_extract.Effects.Trades.Mirror.{ArePaired, add_trade_effects-ArePaired}
use stellar_extract.Go.Ints.{ℤ, pos, negsuc}
use stellar_extract.Go.Maps.{get}
use stellar_extract.Go.Strings.{codes, decimal, hex_encode}
use stellar_extract.Ordering.Members.{Among}
use stellar_extract.ScVal.Json.{str, get_field}
use stellar_extract.Trades.{XdrAsset, asset_native, asset_alphanum4}
use stellar_extract.Xdr.{ok}
use stellar_extract.Tests.Data.{sdk, input}

abbrev amount_text : ℤ → Text
amount_text (pos n) = decimal n
amount_text (negsuc n) = codes "-"

abbrev asset_parts : XdrAsset → AssetParts
asset_parts (asset_alphanum4 code issuer) = record {
  asset_type = codes "credit_alphanum4";
  code = code;
  issuer = issuer;
}
asset_parts _ = record { asset_type = codes "native"; code = []; issuer = [] }

abbrev effect_sdk : EffectSdk
effect_sdk = record {
  base = sdk;
  address_of = λ id. codes "G" ++ id;
  amount_string = amount_text;
  amount_string128 = λ parts. codes "amount";
  asset_extract = asset_parts;
  string_canonical = λ asset. codes "asset";
  marshal_hex = λ id. id;
  is_valid_ed25519_public_key = λ id. true;
  ttl_key_base64 = λ hash. ok hash;
  marshal = λ details. ok (codes "{}");
  toid = λ ledger tx operation. operation;
}

abbrev usd : XdrAsset
usd = asset_alphanum4 (codes "USD") (codes "i")

-- `a` loses a weight, `b` is removed and `c` comes new; `d` stays.
abbrev signers_before : SignerSummary
signers_before = (codes "a", pos 2) ∷ (codes "b", pos 1) ∷ (codes "d", pos 1) ∷ []

abbrev signers_after : SignerSummary
signers_after = (codes "c", pos 3) ∷ (codes "d", pos 1) ∷ (codes "a", pos 1) ∷ []

signer_effects_lem_example :
    ((k : Text)
      → replay (signer_effects signers_before signers_after) (λ j. get j signers_before) k
        ≡ get k signers_after)
    × All (IsRealChange signers_before signers_after) (signer_effects signers_before signers_after)
signer_effects_lem_example = signer_effects_lem signers_before signers_after

abbrev data_entry : Option Text → Option (Sponsored DataEntry)
data_entry sponsor = some (record {
  sponsoring_id = sponsor;
  body = record { data_name = codes "key"; data_value = codes "v" };
})

abbrev new_sponsor_change : EffectChange
new_sponsor_change = data_change (data_entry (some (codes "x"))) (data_entry (some (codes "y")))

sponsorship_effects-SaysSponsor_example :
    SaysSponsor
      (some (codes "Gx"))
      (some (codes "Gy"))
      (sponsorship_effects effect_sdk (codes "s") new_sponsor_change)
sponsorship_effects-SaysSponsor_example =
    sponsorship_effects-SaysSponsor effect_sdk (codes "s") new_sponsor_change

abbrev changes : List EffectChange
changes = other_change ∷ data_change none (data_entry none) ∷ new_sponsor_change ∷ []

manage_data_effects_lem_example :
    (e : EffectRecord) × (manage_data_effects effect_sdk (codes "s") (codes "key") (ok changes)
      ≡ e ∷ [])
    × (e.address ≡ codes "Gs")
    × (get_field (codes "name") e.details ≡ some (str (codes "key")))
    × SaysData (first_data_change changes) e
manage_data_effects_lem_example =
    manage_data_effects_lem effect_sdk (codes "s") (codes "key") changes

abbrev pool : ℕ → Pool
pool reserve = record {
  pool_id = codes "p";
  constant_product = record {
    asset_a = asset_native;
    asset_b = usd;
    fee = pos 30;
    reserve_a = pos reserve;
    reserve_b = pos 500;
    total_pool_shares = pos 40;
    pool_shares_trust_line_count = pos 1;
  };
}

abbrev pool_change_example : PoolChange
pool_change_example = pool_updated (pool 100) (pool 70)

abbrev pool_changes : List EffectChange
pool_changes = other_change ∷ pool_change pool_change_example ∷ []

abbrev pool_delta : PoolDelta
pool_delta = record {
  lp = pool 70;
  delta = record { reserve_a = negsuc 29; reserve_b = pos 0; total_pool_shares = pos 0 };
}

get_liquidity_pool_delta_lem_example :
    (c : PoolChange) × Among (pool_change c) pool_changes
    × (is_of_pool (codes "p") c ≡ true)
    × IsDeltaOf c pool_delta
unfolding get_liquidity_pool_delta
get_liquidity_pool_delta_lem_example =
    get_liquidity_pool_delta_lem (codes "p") pool_changes pool_delta
      (((omega arith, omega arith, omega arith), (omega arith, omega arith, omega arith)), tt) refl

abbrev claims : List EffectClaim
claims =
    record {
      kind = offer_claim (codes "seller") (pos 7);
      asset_sold = usd;
      amount_sold = pos 5;
      asset_bought = asset_native;
      amount_bought = pos 9;
    }
    ∷ record {
      kind = pool_claim (codes "p");
      asset_sold = asset_native;
      amount_sold = pos 30;
      asset_bought = usd;
      amount_bought = pos 1;
    }
    ∷ []

add_trade_effects-ArePaired_example :
    ArePaired (add_trade_effects effect_sdk (codes "buyer") (ok pool_changes) claims)
add_trade_effects-ArePaired_example =
    add_trade_effects-ArePaired effect_sdk (codes "buyer") (ok pool_changes) claims

-- An account is created, and a data entry is set by an operation with a source of its own.
abbrev transaction : EffectTransaction
transaction = record {
  successful = true;
  transaction_hash = codes "h";
  index = 1;
  source_account = codes "s";
  operations =
      record {
        source_account = none;
        body = create_account (codes "new") (pos 100);
        changes = ok [];
      }
      ∷ record {
        source_account = some (codes "o");
        body = manage_data (codes "key");
        changes = ok changes;
      }
      ∷ [];
  contract_events = ok [];
}

transaction_effects-InOrder_example :
    InOrder (transaction_effects effect_sdk input (codes "net") transaction)
    × All
        (λ row. (transaction.successful ≡ true) × (row.transaction_hash ≡ hex_encode (codes "h")))
        (transaction_effects effect_sdk input (codes "net") transaction)
transaction_effects-InOrder_example =
    transaction_effects-InOrder effect_sdk input (codes "net") transaction

extract_effects-HasName_example :
    (rows : List EffectData) × (extract_effects effect_sdk input
        (codes "net")
        (ok (transaction ∷ []))
      ≡ ok rows)
    × All HasName rows
extract_effects-HasName_example =
    extract_effects-HasName effect_sdk input (codes "net") (transaction ∷ [])
