-- ===== src/Effects/Named/Options.antt =====
-- The effects of SetOptions have types with names.
use stellar_extract.Prelude.{
  arith, ℕ, ◌≡◌, refl, true, Option, none, some, List, [], ◌∷◌, ◌++◌, map, Text, text_ordered,
}
use stellar_extract.Effects.{
  EffectSdk, EffectChange, account_change, trustline_change, data_change, balance_change,
  pool_change, ttl_change, other_change,
}
use stellar_extract.Effects.Named.{is_named, AllNamed, AllNamed-append}
use stellar_extract.Effects.Signers.{
  SetOptionsOp, SignerEffect, signer_effects, signer_record, signer_records, signer_records_or_none,
  home_domain_effects, inflation_effects, unless_empty, thresholds_effects, flags_effects,
  set_options_effects,
}
use stellar_extract.Effects.Types.{effect_account_thresholds_updated, effect_account_flags_updated}
use stellar_extract.ScVal.Json.{Fields, end, field}
use stellar_extract.Xdr.{Result, ok, err}

module _ (sdk : EffectSdk) (source : Text) where
  signer_record-AllNamed : (es : List SignerEffect) → AllNamed (map (signer_record sdk source) es)
  unfolding signer_record is_named
  signer_record-AllNamed [] = tt
  signer_record-AllNamed (e ∷ es) = ground (arith, signer_record-AllNamed es)

  signer_records-AllNamed :
      (changes : List EffectChange) → AllNamed (signer_records sdk source changes)
  unfolding signer_records
  signer_records-AllNamed [] = tt
  signer_records-AllNamed (account_change none post ∷ cs) = signer_records-AllNamed cs
  signer_records-AllNamed (account_change (some pre) none ∷ cs) = signer_records-AllNamed cs
  signer_records-AllNamed (account_change (some pre) (some post) ∷ cs) =
      AllNamed-append
        (map (signer_record sdk source)
          (signer_effects pre.body.signer_summary post.body.signer_summary))
        (signer_records sdk source cs)
        (signer_record-AllNamed (signer_effects pre.body.signer_summary post.body.signer_summary))
        (signer_records-AllNamed cs)
  signer_records-AllNamed (trustline_change pre post ∷ cs) = signer_records-AllNamed cs
  signer_records-AllNamed (data_change pre post ∷ cs) = signer_records-AllNamed cs
  signer_records-AllNamed (balance_change pre post ∷ cs) = signer_records-AllNamed cs
  signer_records-AllNamed (pool_change c ∷ cs) = signer_records-AllNamed cs
  signer_records-AllNamed (ttl_change post ∷ cs) = signer_records-AllNamed cs
  signer_records-AllNamed (other_change ∷ cs) = signer_records-AllNamed cs

  unless_empty-AllNamed :
      (t : ℕ) (details : Fields) → is_named t ≡ true → AllNamed (unless_empty sdk source t details)
  unless_empty-AllNamed t end h = tt
  unless_empty-AllNamed t (field k v fs) h = (h, tt)

  thresholds-AllNamed : (op : SetOptionsOp) → AllNamed (thresholds_effects sdk source op)
  unfolding thresholds_effects is_named
  thresholds-AllNamed op = unless_empty-AllNamed effect_account_thresholds_updated _ refl

  flags-AllNamed : (op : SetOptionsOp) → AllNamed (flags_effects sdk source op)
  unfolding flags_effects is_named
  flags-AllNamed op = unless_empty-AllNamed effect_account_flags_updated _ refl

  domain-AllNamed : (d : Option Text) → AllNamed (home_domain_effects sdk source d)
  unfolding home_domain_effects is_named
  domain-AllNamed none = tt
  domain-AllNamed (some d) = (refl, tt)

  inflation-AllNamed : (d : Option Text) → AllNamed (inflation_effects sdk source d)
  unfolding inflation_effects is_named
  inflation-AllNamed none = tt
  inflation-AllNamed (some d) = (refl, tt)

  signers-AllNamed :
      (changes : Result (List EffectChange)) → AllNamed (signer_records_or_none sdk source changes)
  unfolding signer_records_or_none
  signers-AllNamed (err e) = tt
  signers-AllNamed (ok changes) = signer_records-AllNamed changes

  pub set_options_effects-AllNamed :
      (op : SetOptionsOp) (changes : Result (List EffectChange))
      → AllNamed (set_options_effects sdk source op changes)
  set_options_effects-AllNamed op changes =
      let signers = signer_records_or_none sdk source changes in
      let inflation = inflation_effects sdk source op.inflation_dest in
      let flags = flags_effects sdk source op in
      unfold set_options_effects in
      AllNamed-append (home_domain_effects sdk source op.home_domain) _
        (domain-AllNamed op.home_domain)
        (AllNamed-append (thresholds_effects sdk source op) (flags ++ (inflation ++ signers))
          (thresholds-AllNamed op)
          (AllNamed-append flags (inflation ++ signers) (flags-AllNamed op) (
            AllNamed-append inflation signers (inflation-AllNamed op.inflation_dest)
              (signers-AllNamed changes))))
