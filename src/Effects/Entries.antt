-- ===== src/Effects/Entries.antt =====
-- effects.go: the effects of operations on trust lines, data, sequence numbers and claimable
-- balances, which are read off the changes of the operation.
pub mod ManageData
use stellar_extract.Prelude.{
  ℕ, Bool, true, false, not, Option, none, some, List, [], ◌∷◌, ◌++◌, map, if◌then◌else◌, Text,
  text_ordered, ◌==◌,
}
use stellar_extract.Effects.{
  EffectSdk, EffectRecord, Sponsored, AccountState, TrustLine, TrustLineAsset, trusted_asset,
  trusted_pool, DataEntry, ClaimableBalance, EffectChange, account_change, trustline_change,
  data_change, balance_change, pool_change, ttl_change, other_change,
}
use stellar_extract.Effects.Details.{
  effect_at, put_text, one_text, add_asset_details, set_trust_line_flag_details,
}
use stellar_extract.Effects.Types.{
  effect_account_credited, effect_account_debited, effect_trustline_created,
  effect_trustline_removed, effect_trustline_updated, effect_trustline_flags_updated,
  effect_data_created, effect_data_removed, effect_data_updated, effect_sequence_bumped,
  effect_claimable_balance_created, effect_claimable_balance_claimant_created,
  effect_claimable_balance_claimed, effect_claimable_balance_clawed_back,
}
use stellar_extract.Go.Ints.{ℤ, int_ordered}
use stellar_extract.Go.Strings.{codes, base64_encode, hex_encode}
use stellar_extract.ScVal.Json.{Json, num, str, Fields, end, field}
use stellar_extract.Trades.{
  XdrAsset, asset_native, asset_alphanum4, asset_alphanum12, asset_pool_share, asset_other,
}
use stellar_extract.Xdr.{Result, ok, err}

-- xdr.AssetType
pub data AssetType : Type 0 where
  type_native type_alphanum4 type_alphanum12 type_pool_share type_unknown : AssetType

abbrev pub type_of_asset : XdrAsset → AssetType
type_of_asset asset_native = type_native
type_of_asset (asset_alphanum4 code issuer) = type_alphanum4
type_of_asset (asset_alphanum12 code issuer) = type_alphanum12
type_of_asset asset_pool_share = type_pool_share
type_of_asset asset_other = type_unknown

abbrev pub type_of_trusted : TrustLineAsset → AssetType
type_of_trusted (trusted_asset asset) = type_of_asset asset
type_of_trusted (trusted_pool id) = type_pool_share

abbrev pub is_type : AssetType → AssetType → Bool
is_type type_native type_native = true
is_type type_alphanum4 type_alphanum4 = true
is_type type_alphanum12 type_alphanum12 = true
is_type type_pool_share type_pool_share = true
is_type type_unknown type_unknown = true
is_type _ _ = false

module _ (sdk : EffectSdk) (source : Text) where
  abbrev pub at_source : ℕ → Fields → EffectRecord
  at_source = effect_at sdk source

  -- what each of these does where the changes can be read
  abbrev pub when_read :
      (List EffectChange → List EffectRecord) → Result (List EffectChange) → List EffectRecord
  when_read f (err e) = []
  when_read f (ok changes) = f changes

  trusted_details : ℤ → TrustLineAsset → Fields
  unfolding add_asset_details hex_encode
  trusted_details limit (trusted_pool none) =
      put_text (codes "asset_type") (codes "liquidity_pool")
        (one_text (codes "limit") (sdk.amount_string limit))
  trusted_details limit (trusted_pool (some id)) =
      put_text (codes "liquidity_pool_id") (hex_encode id) (
        put_text (codes "asset_type") (codes "liquidity_pool")
          (one_text (codes "limit") (sdk.amount_string limit)))
  trusted_details limit (trusted_asset asset) =
      add_asset_details sdk asset [] (one_text (codes "limit") (sdk.amount_string limit))

  -- the effect of a change of a trust line, if the line is of the operation's type
  unfoldable pub trusted : AssetType → ℤ → ℕ → TrustLine → List EffectRecord → List EffectRecord
  unfolding trusted_details
  trusted line limit effect tl later =
      if is_type line (type_of_trusted tl.asset)
      then at_source effect (trusted_details limit tl.asset) ∷ []
      else later

  -- the loop over the changes; it ends at the first trust line of that type
  unfoldable pub change_trust_loop : AssetType → ℤ → List EffectChange → List EffectRecord
  unfolding trusted
  change_trust_loop line limit [] = []
  change_trust_loop line limit (trustline_change none (some post) ∷ changes) =
      trusted line limit effect_trustline_created post.body (change_trust_loop line limit changes)
  change_trust_loop line limit (trustline_change (some pre) none ∷ changes) =
      trusted line limit effect_trustline_removed pre.body (change_trust_loop line limit changes)
  change_trust_loop line limit (trustline_change (some pre) (some post) ∷ changes) =
      trusted line limit effect_trustline_updated post.body (change_trust_loop line limit changes)
  change_trust_loop line limit (_ ∷ changes) = change_trust_loop line limit changes

  unfoldable pub change_trust_effects :
      AssetType → ℤ → Result (List EffectChange) → List EffectRecord
  unfolding change_trust_loop
  change_trust_effects line limit changes = when_read (change_trust_loop line limit) changes

  unfoldable pub allow_trust_effects : Text → XdrAsset → List EffectRecord
  unfolding add_asset_details
  allow_trust_effects trustor asset =
      at_source effect_trustline_flags_updated
        (add_asset_details sdk asset [] (one_text (codes "trustor") (sdk.address_of trustor)))
      ∷ []

  unfoldable pub set_trust_line_flags_effects : Text → XdrAsset → ℕ → ℕ → List EffectRecord
  unfolding add_asset_details set_trust_line_flag_details
  set_trust_line_flags_effects trustor asset set_flags clear_flags =
      at_source effect_trustline_flags_updated (
        set_trust_line_flag_details clear_flags false (
          set_trust_line_flag_details set_flags true
            (add_asset_details sdk asset [] (one_text (codes "trustor") (sdk.address_of trustor)))))
      ∷ []

  -- the value, where the entry is there after the change
  with_value : Option (Sponsored DataEntry) → Fields → Fields
  unfolding base64_encode
  with_value none details = details
  with_value (some post) details =
      put_text (codes "value") (base64_encode post.body.data_value) details

  -- `effect`, which is 0 before the loop
  unfoldable pub data_effect : Option (Sponsored DataEntry) → Option (Sponsored DataEntry) → ℕ
  data_effect none none = 0
  data_effect none (some post) = effect_data_created
  data_effect (some pre) none = effect_data_removed
  data_effect (some pre) (some post) = effect_data_updated

  -- the loop ends at the first change of a data entry
  unfoldable pub manage_data_loop : Fields → List EffectChange → List EffectRecord
  unfolding with_value data_effect
  manage_data_loop details [] = at_source 0 details ∷ []
  manage_data_loop details (data_change pre post ∷ changes) =
      at_source (data_effect pre post) (with_value post details) ∷ []
  manage_data_loop details (_ ∷ changes) = manage_data_loop details changes

  unfoldable pub manage_data_effects : Text → Result (List EffectChange) → List EffectRecord
  unfolding manage_data_loop
  manage_data_effects name changes =
      when_read (manage_data_loop (one_text (codes "name") name)) changes

  -- the first account that is there before and after
  unfoldable pub bump_sequence_loop : List EffectChange → List EffectRecord
  bump_sequence_loop [] = []
  bump_sequence_loop (account_change (some pre) (some post) ∷ changes) =
      if pre.body.seq_num == post.body.seq_num
      then []
      else at_source effect_sequence_bumped (field (codes "new_seq") (num post.body.seq_num) end)
        ∷ []
  bump_sequence_loop (_ ∷ changes) = bump_sequence_loop changes

  unfoldable pub bump_sequence_effects : Result (List EffectChange) → List EffectRecord
  unfolding bump_sequence_loop
  bump_sequence_effects changes = when_read bump_sequence_loop changes

  -- the details of an effect on a claimable balance, and of the credit or debit beside it
  balance_details : Text → ClaimableBalance → Fields
  balance_details id cb = field (codes "balance_id") (str id) (
      field (codes "amount") (str (sdk.amount_string cb.amount))
        (field (codes "asset") (str (sdk.string_canonical cb.asset)) end))

  amount_details : ClaimableBalance → Fields
  unfolding add_asset_details
  amount_details cb =
      add_asset_details sdk cb.asset [] (one_text (codes "amount") (sdk.amount_string cb.amount))

  unfoldable pub claimant_effects : Fields → List Text → List EffectRecord
  claimant_effects details [] = []
  claimant_effects details (claimant ∷ claimants) =
      effect_at sdk claimant effect_claimable_balance_claimant_created details
      ∷ claimant_effects details claimants

  -- the first claimable balance that is there after a change
  unfoldable pub create_balance_loop : List EffectChange → List EffectRecord
  unfolding balance_details amount_details claimant_effects
  create_balance_loop [] = []
  create_balance_loop (balance_change pre (some post) ∷ changes) =
      let cb = post.body in
      let details = balance_details (sdk.marshal_hex cb.balance_id) cb in
      at_source effect_claimable_balance_created details
      ∷ (claimant_effects details cb.claimants
          ++ at_source effect_account_debited (amount_details cb) ∷ [])
  create_balance_loop (_ ∷ changes) = create_balance_loop changes

  unfoldable pub create_claimable_balance_effects : Result (List EffectChange) → List EffectRecord
  unfolding create_balance_loop
  create_claimable_balance_effects changes = when_read create_balance_loop changes

  -- the first claimable balance with the operation's id that a change removes
  unfoldable pub claim_balance_loop : Text → List EffectChange → List EffectRecord
  unfolding balance_details amount_details
  claim_balance_loop id [] = []
  claim_balance_loop id (balance_change (some pre) none ∷ changes) =
      let later = claim_balance_loop id changes in
      if sdk.marshal_hex pre.body.balance_id == id
      then at_source effect_claimable_balance_claimed (balance_details id pre.body)
        ∷ at_source effect_account_credited (amount_details pre.body)
        ∷ []
      else later
  claim_balance_loop id (_ ∷ changes) = claim_balance_loop id changes

  unfoldable pub claim_claimable_balance_effects :
      Text → Result (List EffectChange) → List EffectRecord
  unfolding claim_balance_loop
  claim_claimable_balance_effects balance_id changes =
      when_read (claim_balance_loop (sdk.marshal_hex balance_id)) changes

  -- the first claimable balance that a change removes
  unfoldable pub clawback_balance_loop : List EffectChange → List EffectRecord
  unfolding amount_details
  clawback_balance_loop [] = []
  clawback_balance_loop (balance_change (some pre) none ∷ changes) =
      at_source effect_account_credited (amount_details pre.body) ∷ []
  clawback_balance_loop (_ ∷ changes) = clawback_balance_loop changes

  unfoldable pub clawback_claimable_balance_effects :
      Text → Result (List EffectChange) → List EffectRecord
  unfolding clawback_balance_loop
  clawback_claimable_balance_effects balance_id changes =
      at_source effect_claimable_balance_clawed_back
        (one_text (codes "balance_id") (sdk.marshal_hex balance_id))
      ∷ when_read clawback_balance_loop changes
