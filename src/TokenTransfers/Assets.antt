-- ===== src/TokenTransfers/Assets.antt =====
-- The canonical text of an asset determines the asset.
use stellar_extract.Prelude.{
  ◌≡◌, ◌≢◌, refl, ap, sym, true, false, ◌++◌, arith, Text, ltb, length, Bool-cases, inl, inr,
}
use stellar_extract.Go.Strings.{codes}
use stellar_extract.Go.Strings.Separators.{Lacks, split_first}
use stellar_extract.TokenTransfers.{
  IssuedAsset, Asset, no_asset, native_asset, issued_asset, issued_type,
  get_asset_from_token_transfer_event,
}

-- An asset whose code holds no colon: codes are letters and digits.
abbrev pub IsAsset : Asset → Type 0
IsAsset no_asset = ⊥
IsAsset (native_asset native) = native ≡ true
IsAsset (issued_asset i) = Lacks b':' i.asset_code

issued_type-Lacks : (code : Text) → Lacks b':' (issued_type code)
issued_type-Lacks code = elim (Bool-cases (ltb 4 (length code))) [
  | inl long ↦ rw long (ground arith)
  | inr short ↦ rw short (ground arith)
]

same_asset : (i j : IssuedAsset) → i.asset_code ≡ j.asset_code → i.issuer ≡ j.issuer → i ≡ j
same_asset i j c s = λ k. record { asset_code = c k; issuer = s k }

native-ne-issued : (code rest : Text) → codes "native" ≢ issued_type code ++ rest
native-ne-issued code rest = elim (Bool-cases (ltb 4 (length code))) [
  | inl long ↦ rw long (λ e. ground (arith, e))
  | inr short ↦ rw short (λ e. ground (arith, e))
]

-- Two assets, native or issued under a code without a colon, that have the same canonical text are
-- the same asset: the same code and the same issuer.
pub get_asset_from_token_transfer_event-injective :
    (a b : Asset)
    → IsAsset a
    → IsAsset b
    → (get_asset_from_token_transfer_event a).asset_concat
      ≡ (get_asset_from_token_transfer_event b).asset_concat
    → a ≡ b
unfolding get_asset_from_token_transfer_event
get_asset_from_token_transfer_event-injective no_asset b ha hb e = absurd ha
get_asset_from_token_transfer_event-injective a no_asset ha hb e = absurd hb
get_asset_from_token_transfer_event-injective (native_asset true) (native_asset true) ha hb e = refl
get_asset_from_token_transfer_event-injective (native_asset true) (issued_asset j) ha hb e =
    absurd (native-ne-issued j.asset_code _ e)
get_asset_from_token_transfer_event-injective (issued_asset i) (native_asset true) ha hb e =
    absurd (native-ne-issued i.asset_code _ (sym e))
get_asset_from_token_transfer_event-injective (native_asset false) b ha hb e = ground arith
get_asset_from_token_transfer_event-injective a (native_asset false) ha hb e = ground arith
get_asset_from_token_transfer_event-injective (issued_asset i) (issued_asset j) ha hb e =
    let tails =
      (split_first b':' (issued_type i.asset_code) (issued_type j.asset_code) _ _
        (issued_type-Lacks i.asset_code) (issued_type-Lacks j.asset_code) e).1 in
    let parts = split_first b':' i.asset_code j.asset_code i.issuer j.issuer ha hb tails in
    ap issued_asset (same_asset i j parts.0 parts.1)
