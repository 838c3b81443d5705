-- ===== src/Effects/Named/Entries.antt =====
-- The effects that are read off changes of entries have types with names.
use stellar_extract.Prelude.{refl, none, some, List, [], ◌∷◌, Text, text_ordered, arith}
use stellar_extract.Effects.{
  EffectSdk, EffectRecord, EffectChange, account_change, trustline_change, data_change,
  balance_change, pool_change, ttl_change, other_change,
}
use stellar_extract.Effects.Entries.{
  AssetType, when_read, change_trust_loop, change_trust_effects, manage_data_loop,
  manage_data_effects, bump_sequence_loop, bump_sequence_effects, claimant_effects,
  create_balance_loop, create_claimable_balance_effects, claim_balance_loop,
  claim_claimable_balance_effects, clawback_balance_loop, clawback_claimable_balance_effects,
}
use stellar_extract.Effects.Named.{is_named, AllNamed, AllNamed-append}
use stellar_extract.Go.Ints.{ℤ, int_ordered}
use stellar_extract.ScVal.Json.{Fields}
use stellar_extract.Xdr.{Result, ok, err}

module _ (sdk : EffectSdk) (source : Text) where
  change_trust_loop-AllNamed :
      (line : AssetType) (limit : ℤ) (changes : List EffectChange)
      → AllNamed (change_trust_loop sdk source line limit changes)
  unfolding change_trust_loop is_named
  change_trust_loop-AllNamed l n [] = tt
  change_trust_loop-AllNamed l n (c ∷ cs) = ground (arith, change_trust_loop-AllNamed l n cs)

  manage_data_loop-AllNamed :
      (details : Fields) (changes : List EffectChange)
      → AllNamed (manage_data_loop sdk source details changes)
  unfolding manage_data_loop is_named
  manage_data_loop-AllNamed details [] = (refl, tt)
  manage_data_loop-AllNamed details (c ∷ cs) = ground (arith, manage_data_loop-AllNamed details cs)

  bump_sequence_loop-AllNamed :
      (changes : List EffectChange) → AllNamed (bump_sequence_loop sdk source changes)
  unfolding bump_sequence_loop is_named
  bump_sequence_loop-AllNamed [] = tt
  bump_sequence_loop-AllNamed (c ∷ cs) = ground (arith, bump_sequence_loop-AllNamed cs)

  claimant_effects-AllNamed :
      (details : Fields) (claimants : List Text)
      → AllNamed (claimant_effects sdk source details claimants)
  unfolding claimant_effects is_named
  claimant_effects-AllNamed details [] = tt
  claimant_effects-AllNamed details (c ∷ cs) = (refl, claimant_effects-AllNamed details cs)

  create_balance_loop-AllNamed :
      (changes : List EffectChange) → AllNamed (create_balance_loop sdk source changes)
  unfolding create_balance_loop is_named
  create_balance_loop-AllNamed [] = tt
  create_balance_loop-AllNamed (balance_change pre none ∷ cs) = create_balance_loop-AllNamed cs
  create_balance_loop-AllNamed (balance_change pre (some post) ∷ cs) = (
    refl,
    AllNamed-append (claimant_effects sdk source _ post.body.claimants) _
        (claimant_effects-AllNamed _ post.body.claimants) (refl, tt),
  )
  create_balance_loop-AllNamed (account_change pre post ∷ cs) = create_balance_loop-AllNamed cs
  create_balance_loop-AllNamed (trustline_change pre post ∷ cs) = create_balance_loop-AllNamed cs
  create_balance_loop-AllNamed (data_change pre post ∷ cs) = create_balance_loop-AllNamed cs
  create_balance_loop-AllNamed (pool_change c ∷ cs) = create_balance_loop-AllNamed cs
  create_balance_loop-AllNamed (ttl_change post ∷ cs) = create_balance_loop-AllNamed cs
  create_balance_loop-AllNamed (other_change ∷ cs) = create_balance_loop-AllNamed cs

  claim_balance_loop-AllNamed :
      (id : Text) (changes : List EffectChange)
      → AllNamed (claim_balance_loop sdk source id changes)
  unfolding claim_balance_loop is_named
  claim_balance_loop-AllNamed id [] = tt
  claim_balance_loop-AllNamed id (c ∷ cs) = ground (arith, claim_balance_loop-AllNamed id cs)

  clawback_balance_loop-AllNamed :
      (changes : List EffectChange) → AllNamed (clawback_balance_loop sdk source changes)
  unfolding clawback_balance_loop is_named
  clawback_balance_loop-AllNamed [] = tt
  clawback_balance_loop-AllNamed (c ∷ cs) = ground (arith, clawback_balance_loop-AllNamed cs)

  when_read-AllNamed :
      (f : List EffectChange → List EffectRecord) (changes : Result (List EffectChange))
      → ((cs : List EffectChange) → AllNamed (f cs))
      → AllNamed (when_read sdk source f changes)
  when_read-AllNamed f (err e) h = tt
  when_read-AllNamed f (ok cs) h = h cs

  module _ (changes : Result (List EffectChange)) where
    pub change_trust-AllNamed :
        (line : AssetType) (limit : ℤ)
        → AllNamed (change_trust_effects sdk source line limit changes)
    unfolding change_trust_effects
    change_trust-AllNamed line limit =
        when_read-AllNamed _ changes (change_trust_loop-AllNamed line limit)

    pub manage_data-AllNamed :
        (name : Text) → AllNamed (manage_data_effects sdk source name changes)
    unfolding manage_data_effects
    manage_data-AllNamed name = when_read-AllNamed _ changes (manage_data_loop-AllNamed _)

    pub bump_sequence-AllNamed : AllNamed (bump_sequence_effects sdk source changes)
    unfolding bump_sequence_effects
    bump_sequence-AllNamed = when_read-AllNamed _ changes bump_sequence_loop-AllNamed

    pub create_claimable_balance-AllNamed :
        AllNamed (create_claimable_balance_effects sdk source changes)
    unfolding create_claimable_balance_effects
    create_claimable_balance-AllNamed = when_read-AllNamed _ changes create_balance_loop-AllNamed

    pub claim_claimable_balance-AllNamed :
        (id : Text) → AllNamed (claim_claimable_balance_effects sdk source id changes)
    unfolding claim_claimable_balance_effects
    claim_claimable_balance-AllNamed id =
        when_read-AllNamed _ changes (claim_balance_loop-AllNamed (sdk.marshal_hex id))

    pub clawback_claimable_balance-AllNamed :
        (id : Text) → AllNamed (clawback_claimable_balance_effects sdk source id changes)
    unfolding clawback_claimable_balance_effects is_named
    clawback_claimable_balance-AllNamed id =
        (refl, when_read-AllNamed _ changes clawback_balance_loop-AllNamed)
