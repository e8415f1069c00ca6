-- ===== src/Amount.antt =====
-- `crates/cc-wallet-domain/src/amount.rs`: amounts of the native coin and of the currency
-- collections, their checked arithmetic and their canonical decimal text. The children hold the
-- text of the send form (`Send`) and what is proved.
pub mod Send
pub mod SendRoundTrip
pub mod Arithmetic
pub mod Canonical
use Prim.Native.Nat.{Ordering, compare}
use cc_wallet_gui.Prelude.{
  ℕ, zero, suc, ◌+◌, ◌-◌, ◌*◌, ◌^◌, ◌<◌, ◌≤◌, List, [], ◌∷◌, ◌++◌, Option, none, some, Bool, true,
  false, not, ◌&&◌, ◌||◌, ◌≡◌, ◌↔◌, refl, arith, String, ltb, leb, ◌==◌, if◌then◌else◌, all, ==_iff,
  Outcome, ok, err, panic, ◌>>=◌, ◌>>◌, reject_if, ok_or, expect_some, Bytes, codes, cmp_bytes,
  length, drop, replicate,
}
use cc_wallet_gui.Decimal.{is_ascii_digit, parse_u128, to_decimal}
use cc_wallet_gui.External.{BigUint}
use cc_wallet_gui.Asset.{AssetId, native, currency_collection}

abbrev pub native_max_units : ℕ
native_max_units = 2 ^ 120 - 1

abbrev pub cc_max_decimal : Bytes
cc_max_decimal = codes "452312848583266388373324160190187140051835877600158453279131187530910662655"

pub data AmountError : Type 0 where
  empty non_canonical_decimal too_many_digits extra_currency_out_of_domain : AmountError
  native_out_of_domain overflow underflow asset_mismatch : AmountError

-- `Display`
unfoldable pub amount_error_text : AmountError → String
amount_error_text empty = "amount is empty"
amount_error_text non_canonical_decimal =
    "amount must be a canonical base-10 integer: ASCII digits only, no sign, whitespace, decimal point, exponent, separators, or leading zeros"
amount_error_text too_many_digits = "amount has too many digits for the extra-currency domain"
amount_error_text extra_currency_out_of_domain =
    "extra-currency amount exceeds the protocol maximum (2^248 - 1)"
amount_error_text native_out_of_domain = "native amount exceeds the protocol maximum (2^120 - 1)"
amount_error_text overflow = "amount addition overflows the asset domain"
amount_error_text underflow = "amount subtraction underflows below zero"
amount_error_text asset_mismatch = "amounts of different assets cannot be combined or compared"

unfoldable pub is_empty : Bytes → Bool
is_empty [] = true
is_empty (_ ∷ _) = false

-- `text.as_bytes()[0] == byte`, where the code has tested that there is a first byte
unfoldable pub starts_with_byte : Bytes → ℕ → Bool
starts_with_byte [] b = false
starts_with_byte (c ∷ _) b = c == b

unfoldable pub ensure_canonical_decimal : Bytes → Outcome AmountError (Unit {0})
unfolding is_empty starts_with_byte
ensure_canonical_decimal text = do
  reject_if (is_empty text) empty
  reject_if (not (all is_ascii_digit text)) non_canonical_decimal
  reject_if (ltb 1 (length text) && starts_with_byte text b'0') non_canonical_decimal
  ok tt

unfoldable pub native_units_from_canonical_decimal : Bytes → Outcome AmountError ℕ
native_units_from_canonical_decimal text = do
  ensure_canonical_decimal text
  reject_if (ltb 37 (length text)) native_out_of_domain
  value ← ok_or (parse_u128 text) native_out_of_domain
  reject_if (ltb native_max_units value) native_out_of_domain
  ok value

-- `CcAmount` wraps a `BigUint`.
abbrev pub CcAmount : Type 0
CcAmount = ℕ

abbrev pub cc_zero : CcAmount
cc_zero = 0

abbrev pub from_u128 : ℕ → CcAmount
from_u128 value = value

-- The derived `Ord` of the number.
abbrev pub cc_cmp : CcAmount → CcAmount → Ordering
cc_cmp = compare

is_gt : Ordering → Bool
is_gt Ordering.gt = true
is_gt _ = false

unfoldable pub cc_checked_sub : CcAmount → CcAmount → Option CcAmount
cc_checked_sub a b = if leb b a then some (a - b) else none

module _ ⦃big : BigUint⦄ where
  unfoldable pub cc_is_zero : CcAmount → Bool
  cc_is_zero a = big.bits a == 0

  unfoldable pub cc_from_canonical_decimal : Bytes → Outcome AmountError CcAmount
  unfolding is_gt cmp_bytes
  cc_from_canonical_decimal text = do
    ensure_canonical_decimal text
    reject_if (ltb 75 (length text)) too_many_digits
    reject_if (length text == 75 && is_gt (cmp_bytes text cc_max_decimal))
        extra_currency_out_of_domain
    ok_or (big.parse_bytes text) non_canonical_decimal

  unfoldable pub to_canonical_decimal : CcAmount → Bytes
  to_canonical_decimal a = big.to_str_radix a

  unfoldable pub from_be_bytes_31 : Bytes → CcAmount
  from_be_bytes_31 bytes = big.from_bytes_be bytes

  -- `out[31 - raw.len()..].copy_from_slice(&raw)` over 31 zeros, which panics for longer bytes
  unfoldable pub to_31_bytes {ℓ} : {E : Type ℓ} → Bytes → Outcome E Bytes
  to_31_bytes raw = if leb (length raw) 31 then ok (replicate (31 - length raw) 0 ++ raw) else panic

  unfoldable pub to_be_bytes_31 {ℓ} : {E : Type ℓ} → CcAmount → Outcome E Bytes
  unfolding to_31_bytes
  to_be_bytes_31 a = to_31_bytes (big.to_bytes_be a)

  unfoldable pub cc_checked_add : CcAmount → CcAmount → Option CcAmount
  cc_checked_add a b = let sum = a + b in if leb (big.bits sum) 248 then some sum else none

-- The constructors of `AssetAmountRepr`; a currency collection is an id and its units.
pub data AssetAmount : Type 0 where
  native_amount : ℕ → AssetAmount
  cc_amount : ℕ → CcAmount → AssetAmount

-- `AssetAmount::native`
unfoldable pub make_native : ℕ → Outcome AmountError AssetAmount
make_native units =
    if ltb native_max_units units then err native_out_of_domain else ok (native_amount units)

unfoldable pub asset_id : AssetAmount → AssetId
asset_id (native_amount _) = native
asset_id (cc_amount id _) = currency_collection id

unfoldable pub native_units : AssetAmount → Option ℕ
native_units (native_amount units) = some units
native_units (cc_amount _ _) = none

unfoldable pub cc_units : AssetAmount → Option CcAmount
cc_units (native_amount _) = none
cc_units (cc_amount _ units) = some units

-- The derived equality.
unfoldable pub amount_eq : AssetAmount → AssetAmount → Bool
amount_eq (native_amount a) (native_amount b) = a == b
amount_eq (cc_amount ia a) (cc_amount ib b) = ia == ib && a == b
amount_eq _ _ = false

pub amount_eq_iff : (a b : AssetAmount) → (amount_eq a b ≡ true) ↔ (a ≡ b)
unfolding amount_eq
amount_eq_iff a b = ground arith

-- `u128::checked_add` and `u128::checked_sub`
unfoldable pub u128_checked_add : ℕ → ℕ → Option ℕ
u128_checked_add a b = if ltb (a + b) (2 ^ 128) then some (a + b) else none

unfoldable pub u128_checked_sub : ℕ → ℕ → Option ℕ
u128_checked_sub a b = if leb b a then some (a - b) else none

unfoldable pub cmp_same_asset : AssetAmount → AssetAmount → Outcome AmountError Ordering
cmp_same_asset (native_amount a) (native_amount b) = ok (compare a b)
cmp_same_asset (cc_amount ia a) (cc_amount ib b) =
    if ia == ib then ok (cc_cmp a b) else err asset_mismatch
cmp_same_asset _ _ = err asset_mismatch

unfoldable pub checked_sub_same_asset : AssetAmount → AssetAmount → Outcome AmountError AssetAmount
unfolding u128_checked_sub make_native cc_checked_sub
checked_sub_same_asset (native_amount a) (native_amount b) = do
  diff ← ok_or (u128_checked_sub a b) underflow
  make_native diff
checked_sub_same_asset (cc_amount ia a) (cc_amount ib b) =
    if ia == ib
    then (do diff ← ok_or (cc_checked_sub a b) underflow; ok (cc_amount ia diff))
    else err asset_mismatch
checked_sub_same_asset _ _ = err asset_mismatch

module _ ⦃big : BigUint⦄ where
  unfoldable pub is_zero : AssetAmount → Bool
  unfolding cc_is_zero
  is_zero (native_amount units) = units == 0
  is_zero (cc_amount _ units) = cc_is_zero units

  unfoldable pub checked_add_same_asset :
      AssetAmount → AssetAmount → Outcome AmountError AssetAmount
  unfolding u128_checked_add make_native cc_checked_add
  checked_add_same_asset (native_amount a) (native_amount b) = do
    sum ← ok_or (u128_checked_add a b) overflow
    make_native sum
  checked_add_same_asset (cc_amount ia a) (cc_amount ib b) =
      if ia == ib
      then (do sum ← ok_or (cc_checked_add a b) overflow; ok (cc_amount ia sum))
      else err asset_mismatch
  checked_add_same_asset _ _ = err asset_mismatch
