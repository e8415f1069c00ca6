-- ===== src/Amount/Send.antt =====
-- `parse_send_amount`, `format_fixed9_amount`, `format_base_units` and `format_native_fixed9` of
-- amount.rs: the text of the send form.
use cc_wallet_gui.Prelude.{
  ℕ, ◌+◌, ◌-◌, List, [], ◌∷◌, ◌++◌, Option, none, some, Bool, true, false, not, ◌&&◌, ◌||◌, ltb,
  leb, ◌==◌, if◌then◌else◌, all, Outcome, ok, err, panic, ◌>>=◌, ◌>>◌, reject_if, expect_some,
  map_err, Bytes, codes, length, take, drop, replicate,
}
use cc_wallet_gui.Decimal.{is_ascii_digit, to_decimal}
use cc_wallet_gui.External.{BigUint}
use cc_wallet_gui.Asset.{
  AssetId, native, currency_collection, WalletError, amount, asset_meta, is_known_cc,
}
use cc_wallet_gui.Amount.{
  AmountError, amount_error_text, native_units_from_canonical_decimal, cc_from_canonical_decimal,
  to_canonical_decimal, AssetAmount, cc_amount, make_native, asset_id, native_units, cc_units,
  is_zero, is_empty, starts_with_byte,
}

abbrev pub fixed9_decimals : ℕ
fixed9_decimals = 9

unfoldable pub has_nine_decimals : Option ℕ → Bool
has_nine_decimals none = false
has_nine_decimals (some d) = d == fixed9_decimals

-- `str::split` at one byte; it yields at least one part.
cons_to_first : ℕ → List Bytes → List Bytes
cons_to_first c [] = (c ∷ []) ∷ []
cons_to_first c (p ∷ ps) = (c ∷ p) ∷ ps

unfoldable pub split : ℕ → Bytes → List Bytes
unfolding cons_to_first
split sep [] = [] ∷ []
split sep (c ∷ s) = let rest = split sep s in if c == sep then [] ∷ rest else cons_to_first c rest

-- The first part, the second if there is one, and whether there is a third.
unfoldable pub parts : List Bytes → Bytes × Option Bytes × Bool
parts [] = ([], none, false)
parts (whole ∷ []) = (whole, none, false)
parts (whole ∷ fraction ∷ []) = (whole, some fraction, false)
parts (whole ∷ fraction ∷ _ ∷ _) = (whole, some fraction, true)

unfoldable pub trim_zeros : Bytes → Bytes
trim_zeros [] = []
trim_zeros (c ∷ s) = if c == b'0' then trim_zeros s else c ∷ s

-- `trim_start_matches('0')`, and "0" if nothing is left
unfoldable pub canonical_digits : Bytes → Bytes
unfolding trim_zeros is_empty
canonical_digits digits =
    let canonical = trim_zeros digits in if is_empty canonical then codes "0" else canonical

unfoldable pub or_empty : Option Bytes → Bytes
or_empty none = []
or_empty (some s) = s

bad_fraction : Option Bytes → Bool
unfolding is_empty
bad_fraction none = false
bad_fraction (some fraction) =
    is_empty fraction || ltb fixed9_decimals (length fraction) || not (all is_ascii_digit fraction)

unfoldable pub max_whole_digits : AssetId → Outcome WalletError ℕ
max_whole_digits native = ok 28
max_whole_digits (currency_collection id) =
    if is_known_cc (currency_collection id)
    then ok 66
    else err (amount "only currency-collection ids 1, 2, and 3 can be sent")

abbrev pub as_wallet_error : AmountError → WalletError
unfolding amount_error_text
as_wallet_error e = amount (amount_error_text e)

-- The whole part and the optional fraction of the text, after the tests of their shape.
unfoldable pub scan_amount : Bytes → Outcome WalletError (Bytes × Option Bytes)
unfolding split parts is_empty starts_with_byte bad_fraction
scan_amount text = do
  let (whole, fraction, third) = parts (split b'.' text)
  reject_if
      (third
        || is_empty whole
        || not (all is_ascii_digit whole)
        || (ltb 1 (length whole) && starts_with_byte whole b'0'))
      (amount "amount must use canonical ASCII fixed-9 syntax")
  reject_if (bad_fraction fraction) (amount "amount fraction must contain 1 to 9 ASCII digits")
  ok (whole, fraction)

-- `format!("{:0>10}")`, for at most nine digits
unfoldable pub pad_left : Bytes → Bytes
pad_left digits =
    if leb (length digits) fixed9_decimals
    then replicate (fixed9_decimals + 1 - length digits) b'0' ++ digits
    else digits

unfoldable pub with_point : Bytes → Bytes
unfolding pad_left
with_point digits =
    let padded = pad_left digits in
    let split = length padded - fixed9_decimals in take split padded ++ b'.' ∷ drop split padded

module _ ⦃big : BigUint⦄ where
  unfoldable pub amount_of_digits : AssetId → Bytes → Outcome WalletError AssetAmount
  unfolding native_units_from_canonical_decimal cc_from_canonical_decimal make_native
  amount_of_digits native canonical = do
    units ← map_err as_wallet_error (native_units_from_canonical_decimal canonical)
    map_err as_wallet_error (make_native units)
  amount_of_digits (currency_collection id) canonical =
      if is_known_cc (currency_collection id)
      then (do
        units ← map_err as_wallet_error (cc_from_canonical_decimal canonical)
        ok (cc_amount id units))
      else panic

  unfoldable pub parse_send_amount : AssetId → Bytes → Outcome WalletError AssetAmount
  unfolding scan_amount max_whole_digits canonical_digits or_empty amount_of_digits is_zero
      has_nine_decimals asset_meta
  parse_send_amount asset text = do
    reject_if (not (has_nine_decimals (asset_meta asset).decimals))
        (amount "this currency has no approved first-release send precision")
    p ← scan_amount text
    most ← max_whole_digits asset
    reject_if (ltb most (length p.0)) (amount "amount whole part exceeds the asset-domain precheck")
    let fraction = or_empty p.1
    let digits = p.0 ++ (fraction ++ replicate (fixed9_decimals - length fraction) b'0')
    value ← amount_of_digits asset (canonical_digits digits)
    reject_if (is_zero value) (amount "amount must be greater than zero")
    ok value

  -- The decimal text of the base units.
  unfoldable pub format_base_units {ℓ} : {E : Type ℓ} → AssetAmount → Outcome E Bytes
  unfolding native_units cc_units to_canonical_decimal
  format_base_units a = elim (native_units a) [
    | some units ↦ ok (to_decimal units)
    | none ↦ expect_some (cc_units a) >>= λ units. ok (to_canonical_decimal units)
  ]

  unfoldable pub format_fixed9_amount : AssetAmount → Outcome WalletError Bytes
  unfolding format_base_units with_point has_nine_decimals asset_meta
  format_fixed9_amount a = do
    reject_if (not (has_nine_decimals (asset_meta (asset_id a)).decimals))
        (amount "this currency has no approved decimal display")
    digits ← format_base_units a
    ok (with_point digits)

  unfoldable pub format_native_fixed9 : ℕ → Outcome WalletError Bytes
  unfolding make_native format_fixed9_amount
  format_native_fixed9 units = do
    a ← map_err as_wallet_error (make_native units)
    format_fixed9_amount a
