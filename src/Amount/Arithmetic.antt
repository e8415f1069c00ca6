-- ===== src/Amount/Arithmetic.antt =====
-- The protocol's domain of amounts, and what the checked operations do inside it.
use cc_wallet_gui.Prelude.{
  ℕ, zero, suc, ◌+◌, ◌-◌, ◌^◌, ◌<◌, ◌≤◌, ◌++◌, ◌≡◌, refl, ◌∙◌, arith, ltb, leb, ◌==◌, if◌then◌else◌,
  All, Outcome, ok, err, Bytes, length, replicate, length-append, length-replicate, All-append,
}
use cc_wallet_gui.External.{BigUint, IsByte, be_value_from}
use cc_wallet_gui.Asset.{AssetId, native, currency_collection, asset_eq}
use cc_wallet_gui.Amount.{
  AmountError, native_out_of_domain, overflow, underflow, asset_mismatch, CcAmount, AssetAmount,
  native_amount, cc_amount, asset_id, is_zero, to_be_bytes_31, from_be_bytes_31,
  checked_add_same_asset, checked_sub_same_asset,
}

-- The units of an amount, below 2^120 for the native coin and below 2^248 for a collection.
abbrev pub units : AssetAmount → ℕ
units (native_amount n) = n
units (cc_amount _ n) = n

abbrev pub limit : AssetId → ℕ
limit native = 2 ^ 120
limit (currency_collection _) = 2 ^ 248

abbrev pub amount_of : AssetId → ℕ → AssetAmount
amount_of native n = native_amount n
amount_of (currency_collection id) n = cc_amount id n

abbrev pub InDomain : AssetAmount → Type 0
InDomain (native_amount n) = n < 2 ^ 120
InDomain (cc_amount _ n) = n < 2 ^ 248

abbrev pub too_large : AssetId → AmountError
too_large native = native_out_of_domain
too_large (currency_collection _) = overflow

-- Sums and differences of amounts, described by the units alone.
abbrev pub add_amounts : AssetAmount → AssetAmount → Outcome AmountError AssetAmount
unfolding asset_id asset_eq
add_amounts a b =
    if asset_eq (asset_id a) (asset_id b)
    then (if ltb (units a + units b) (limit (asset_id a))
        then ok (amount_of (asset_id a) (units a + units b))
        else err (too_large (asset_id a)))
    else err asset_mismatch

abbrev pub sub_amounts : AssetAmount → AssetAmount → Outcome AmountError AssetAmount
unfolding asset_id asset_eq
sub_amounts a b =
    if asset_eq (asset_id a) (asset_id b)
    then (if leb (units b) (units a)
        then ok (amount_of (asset_id a) (units a - units b))
        else err underflow)
    else err asset_mismatch

pub replicate-All : (k : ℕ) → All IsByte (replicate k 0)
replicate-All zero = tt
replicate-All (suc k) = (omega arith, replicate-All k)

be_value_from-zeros : (k : ℕ) (s : Bytes) → be_value_from 0 (replicate k 0 ++ s) ≡ be_value_from 0 s
unfolding be_value_from
be_value_from-zeros zero s = refl
be_value_from-zeros (suc k) s = be_value_from-zeros k s

module _ ⦃big : BigUint⦄ where
  -- For amounts in the domain: the sum of two amounts of one asset is returned exactly when it is
  -- below the asset's limit, and otherwise the error of that asset; amounts of different assets
  -- are never added.
  checked_add_same_asset-eq-add_amounts :
      (a b : AssetAmount) → InDomain a → InDomain b → checked_add_same_asset a b ≡ add_amounts a b
  unfolding checked_add_same_asset asset_id asset_eq
  checked_add_same_asset-eq-add_amounts (native_amount a) (native_amount b) ha hb = ground arith
  checked_add_same_asset-eq-add_amounts (native_amount a) (cc_amount ib b) ha hb = refl
  checked_add_same_asset-eq-add_amounts (cc_amount ia a) (native_amount b) ha hb = refl
  checked_add_same_asset-eq-add_amounts (cc_amount ia a) (cc_amount ib b) ha hb =
      ground (arith, big.bits_le (a + b) 248)

  -- For amounts in the domain: the difference is returned exactly when it is not negative.
  checked_sub_same_asset-eq-sub_amounts :
      (a b : AssetAmount) → InDomain a → InDomain b → checked_sub_same_asset a b ≡ sub_amounts a b
  unfolding checked_sub_same_asset asset_id asset_eq
  checked_sub_same_asset-eq-sub_amounts (native_amount a) (native_amount b) ha hb = ground arith
  checked_sub_same_asset-eq-sub_amounts (native_amount a) (cc_amount ib b) ha hb = refl
  checked_sub_same_asset-eq-sub_amounts (cc_amount ia a) (native_amount b) ha hb = refl
  checked_sub_same_asset-eq-sub_amounts (cc_amount ia a) (cc_amount ib b) ha hb = ground arith

  -- For amounts in the domain: the sum of two amounts of one asset is returned exactly when it is
  -- below the asset's limit, and the difference exactly when it is not negative; otherwise there is
  -- the error of that asset. Amounts of different assets are never added or subtracted.
  pub checked_same_asset_lem :
      (a b : AssetAmount)
      → InDomain a
      → InDomain b
      → (checked_add_same_asset a b ≡ add_amounts a b)
        × (checked_sub_same_asset a b ≡ sub_amounts a b)
  checked_same_asset_lem a b ha hb = (
    checked_add_same_asset-eq-add_amounts a b ha hb,
    checked_sub_same_asset-eq-sub_amounts a b ha hb,
  )

  -- A sum that is returned is in the domain, and taking the second amount off gives the first back.
  pub checked_sub-checked_add :
      (a b : AssetAmount) {c : AssetAmount}
      → InDomain a
      → InDomain b
      → checked_add_same_asset a b ≡ ok c
      → InDomain c × (checked_sub_same_asset c b ≡ ok a)
  unfolding checked_add_same_asset checked_sub_same_asset
  checked_sub-checked_add (native_amount a) (native_amount b) ha hb h = ground arith
  checked_sub-checked_add (native_amount a) (cc_amount ib b) ha hb h = cc
  checked_sub-checked_add (cc_amount ia a) (native_amount b) ha hb h = cc
  checked_sub-checked_add (cc_amount ia a) (cc_amount ib b) ha hb h =
      ground (arith, big.bits_le (a + b) 248)

  pub is_zero-units : (a : AssetAmount) → is_zero a ≡ (units a == 0)
  unfolding is_zero
  is_zero-units (native_amount n) = refl
  is_zero-units (cc_amount id n) = ground (arith, big.bits_le n 0)

  -- Bytes of a number that fits, filled up with zeros in front, are read as that number.
  pub of_raw_bytes :
      (a : ℕ)
      → from_be_bytes_31 (replicate (31 - length (big.to_bytes_be a)) 0 ++ big.to_bytes_be a) ≡ a
  unfolding from_be_bytes_31
  of_raw_bytes a =
      let raw = big.to_bytes_be a in
      let bytes =
        All-append IsByte (replicate (31 - length raw) 0) raw (replicate-All (31 - length raw))
          (big.to_bytes_be_bytes a) in
      big.from_bytes_be_value (replicate (31 - length raw) 0 ++ raw) bytes
      ∙ be_value_from-zeros (31 - length raw) raw
      ∙ big.to_bytes_be_value a

  -- An amount below 2^248 is written to 31 bytes without a panic, and read back from them.
  pub from_be_bytes_31-to_be_bytes_31 {ℓ} :
      {E : Type ℓ} (a : CcAmount)
      → a < 2 ^ 248
      → (s : Bytes) × (to_be_bytes_31 {E = E} a ≡ ok s) × (length s ≡ 31) × (from_be_bytes_31 s ≡ a)
  unfolding to_be_bytes_31
  from_be_bytes_31-to_be_bytes_31 a h =
      let raw = big.to_bytes_be a in
      let short : length raw ≤ 31 = (big.to_bytes_be_length a 31 (omega arith)).1 h in
      (
        replicate (31 - length raw) 0 ++ raw,
        ground (arith, short),
        omega (
          arith,
          length-append (replicate (31 - length raw) 0) raw,
          length-replicate {A = ℕ} (31 - length raw) 0,
        ),
        of_raw_bytes a,
      )
