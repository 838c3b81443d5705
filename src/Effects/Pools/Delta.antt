-- ===== src/Effects/Pools/Delta.antt =====
-- What `getLiquidityPoolDelta` finds.
use stellar_extract.Prelude.{
  ◌^◌, ◌<◌, ◌≡◌, refl, true, List, [], ◌∷◌, Text, text_ordered, arith, Bool-cases, inl, inr,
}
use mathlib.Core.Path.{subst}
use stellar_extract.Effects.{
  Pool, PoolChange, pool_created, pool_removed, pool_updated, EffectChange, account_change,
  trustline_change, data_change, balance_change, pool_change, ttl_change, other_change,
}
use stellar_extract.Effects.Pools.{
  sub_i64, LiquidityPoolDelta, PoolDelta, zero_delta, reserves_of, difference, delta_of, is_of_pool,
  get_liquidity_pool_delta,
}
use stellar_extract.Go.Ints.{ℤ, pos, negsuc, ◌+ℤ◌}
use stellar_extract.Ordering.Members.{Among}
use stellar_extract.Xdr.{ok, ok-injective, err-ne-ok}

-- An amount as the ledger keeps it: not negative, and an int64.
abbrev pub IsAmount : ℤ → Type 0
IsAmount (pos n) = n < 2 ^ 63
IsAmount (negsuc n) = ⊥

-- The subtraction of two amounts does not overflow.
pub sub_i64-exact : (a b : ℤ) → IsAmount a → IsAmount b → sub_i64 a b +ℤ b ≡ a
unfolding sub_i64 ◌+ℤ◌
sub_i64-exact x b h k = ground arith

-- The amounts of the pool before and after the change, zero where it is not there.
abbrev pub amounts_before : PoolChange → LiquidityPoolDelta
amounts_before (pool_created post) = zero_delta
amounts_before (pool_removed pre) = reserves_of pre
amounts_before (pool_updated pre post) = reserves_of pre

abbrev pub amounts_after : PoolChange → LiquidityPoolDelta
amounts_after (pool_created post) = reserves_of post
amounts_after (pool_removed pre) = zero_delta
amounts_after (pool_updated pre post) = reserves_of post

abbrev pub latest_pool : PoolChange → Pool
latest_pool (pool_created post) = post
latest_pool (pool_removed pre) = pre
latest_pool (pool_updated pre post) = post

abbrev pub AreAmounts : LiquidityPoolDelta → Type 0
AreAmounts l = IsAmount l.reserve_a × IsAmount l.reserve_b × IsAmount l.total_pool_shares

-- Every pool that the changes show has amounts in its reserves and its shares.
abbrev pub HaveAmounts : List EffectChange → Type 0
HaveAmounts [] = Unit
HaveAmounts (pool_change c ∷ changes) =
    (AreAmounts (amounts_before c) × AreAmounts (amounts_after c)) × HaveAmounts changes
HaveAmounts (_ ∷ changes) = HaveAmounts changes

-- `d` is the exact difference that the change makes.
pub record IsDeltaOf (c : PoolChange) (d : PoolDelta) : Type 0 where
  pub latest : d.lp ≡ latest_pool c
  pub reserve_a : d.delta.reserve_a +ℤ (amounts_before c).reserve_a ≡ (amounts_after c).reserve_a
  pub reserve_b : d.delta.reserve_b +ℤ (amounts_before c).reserve_b ≡ (amounts_after c).reserve_b
  pub shares :
      d.delta.total_pool_shares +ℤ (amounts_before c).total_pool_shares
      ≡ (amounts_after c).total_pool_shares

difference-exact :
    (post pre : LiquidityPoolDelta)
    → AreAmounts post
    → AreAmounts pre
    → ((difference post pre).reserve_a +ℤ pre.reserve_a ≡ post.reserve_a)
      × ((difference post pre).reserve_b +ℤ pre.reserve_b ≡ post.reserve_b)
      × ((difference post pre).total_pool_shares +ℤ pre.total_pool_shares ≡ post.total_pool_shares)
unfolding difference
difference-exact post pre (a, b, s) (a', b', s') = (
  sub_i64-exact post.reserve_a pre.reserve_a a a',
  sub_i64-exact post.reserve_b pre.reserve_b b b',
  sub_i64-exact post.total_pool_shares pre.total_pool_shares s s',
)

delta_of-IsDeltaOf :
    (c : PoolChange)
    → AreAmounts (amounts_before c)
    → AreAmounts (amounts_after c)
    → IsDeltaOf c (delta_of c)
unfolding delta_of
delta_of-IsDeltaOf (pool_created post) h k =
    let (a, b, s) = difference-exact (reserves_of post) zero_delta k h in
    record { latest = refl; reserve_a = a; reserve_b = b; shares = s }
delta_of-IsDeltaOf (pool_removed pre) h k =
    let (a, b, s) = difference-exact zero_delta (reserves_of pre) k h in
    record { latest = refl; reserve_a = a; reserve_b = b; shares = s }
delta_of-IsDeltaOf (pool_updated pre post) h k =
    let (a, b, s) = difference-exact (reserves_of post) (reserves_of pre) k h in
    record { latest = refl; reserve_a = a; reserve_b = b; shares = s }

-- Where every pool of the changes has amounts that are not negative and fit an int64, the pool and
-- the difference that are found are those of a change of the pool that was asked for: the pool as
-- it is after the change, or before its removal, and amounts that, added to those before the
-- change, are exactly those after it, where a pool that is not there has zero. The subtraction does
-- not overflow.
pub get_liquidity_pool_delta_lem :
    (id : Text) (changes : List EffectChange) (d : PoolDelta)
    → HaveAmounts changes
    → get_liquidity_pool_delta id changes ≡ ok d
    → (c : PoolChange) × Among (pool_change c) changes × (is_of_pool id c ≡ true) × IsDeltaOf c d
unfolding get_liquidity_pool_delta
get_liquidity_pool_delta_lem id [] d h e = absurd (err-ne-ok _ d e)
get_liquidity_pool_delta_lem id (pool_change c ∷ changes) d ((b, a), h) e =
    elim (Bool-cases (is_of_pool id c)) [
      | inl same ↦ (
        c,
        inl refl,
        same,
        subst (IsDeltaOf c) (ok-injective _ d (rw same at e)) (delta_of-IsDeltaOf c b a),
      )
      | inr other ↦ later (get_liquidity_pool_delta_lem id changes d h (rw other at e))
    ]
  where
    later :
        (c : PoolChange) × Among (pool_change c) changes × (is_of_pool id c ≡ true) × IsDeltaOf c d
        → (c' : PoolChange) × Among (pool_change c') (pool_change c ∷ changes)
          × (is_of_pool id c' ≡ true)
          × IsDeltaOf c' d
    later (c', m, p, q) = (c', inr m, p, q)
get_liquidity_pool_delta_lem id (account_change pre post ∷ changes) d h e =
    let (c, m, p, q) = get_liquidity_pool_delta_lem id changes d h e in (c, inr m, p, q)
get_liquidity_pool_delta_lem id (trustline_change pre post ∷ changes) d h e =
    let (c, m, p, q) = get_liquidity_pool_delta_lem id changes d h e in (c, inr m, p, q)
get_liquidity_pool_delta_lem id (data_change pre post ∷ changes) d h e =
    let (c, m, p, q) = get_liquidity_pool_delta_lem id changes d h e in (c, inr m, p, q)
get_liquidity_pool_delta_lem id (balance_change pre post ∷ changes) d h e =
    let (c, m, p, q) = get_liquidity_pool_delta_lem id changes d h e in (c, inr m, p, q)
get_liquidity_pool_delta_lem id (ttl_change post ∷ changes) d h e =
    let (c, m, p, q) = get_liquidity_pool_delta_lem id changes d h e in (c, inr m, p, q)
get_liquidity_pool_delta_lem id (other_change ∷ changes) d h e =
    let (c, m, p, q) = get_liquidity_pool_delta_lem id changes d h e in (c, inr m, p, q)
