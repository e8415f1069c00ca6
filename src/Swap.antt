-- ===== src/Swap.antt =====
-- `crates/cc-wallet-domain/src/swap.rs`: the swap form, its slippage text, the quote of a constant
-- product pool, and the request of a swap. The child files hold what is proved.
pub mod Slippage
pub mod Quote
pub mod Request
use cc_wallet_gui.Prelude.{
  ℕ, zero, suc, ◌+◌, ◌-◌, ◌*◌, ◌/◌, ◌%◌, ◌^◌, List, [], ◌∷◌, ◌++◌, Option, none, some, Bool, true,
  false, not, ◌&&◌, ◌||◌, ltb, leb, ◌==◌, if◌then◌else◌, all, Outcome, ok, err, panic, ◌>>=◌, ◌>>◌,
  reject_if, ok_or, expect_some, and_then, Bytes, codes, length, replicate,
}
use cc_wallet_gui.Decimal.{is_ascii_digit, value, to_decimal, parse_u128}
use cc_wallet_gui.Strings.{trim, trim_end_byte, split_once}
use cc_wallet_gui.External.{BigUint}
use cc_wallet_gui.Asset.{AssetId, asset_eq, is_sendable, WalletError, validation, amount}
use cc_wallet_gui.Amount.{
  AssetAmount, asset_id, native_units, cc_units, is_zero, is_empty, to_canonical_decimal,
  u128_checked_add,
}
use cc_wallet_gui.Amount.Send.{parse_send_amount}
use cc_wallet_gui.Requests.{SendToken, native_token, cc_token, token_asset}

abbrev pub fee_denom : ℕ
fee_denom = 10000

abbrev pub default_slippage_bps : ℕ
default_slippage_bps = 50

abbrev pub slippage_step_bps : ℕ
slippage_step_bps = 10

abbrev pub max_slippage_bps : ℕ
max_slippage_bps = 1000

abbrev pub slippage_decimals : ℕ
slippage_decimals = 2

unfoldable pub min : ℕ → ℕ → ℕ
min a b = if leb a b then a else b

-- `str::parse::<u32>` of ASCII digits
unfoldable pub parse_u32 : Bytes → Option ℕ
unfolding is_empty
parse_u32 s =
    if is_empty s || not (all is_ascii_digit s) || leb (2 ^ 32) (value s)
    then none
    else some (value s)

-- The digits of the fraction, up to two places.
unfoldable pub hundredths_text : Bytes → Bytes
hundredths_text frac = frac ++ replicate (slippage_decimals - length frac) b'0'

-- `u32::checked_mul` and `u32::checked_add`, then `u16::try_from`, and the bound.
unfoldable pub slippage_of : ℕ → ℕ → Option ℕ
slippage_of whole hundredths =
    if leb (2 ^ 32) (whole * 100)
    then none
    else if leb (2 ^ 32) (whole * 100 + hundredths)
    then none
    else if leb (2 ^ 16) (whole * 100 + hundredths)
    then none
    else if leb (whole * 100 + hundredths) max_slippage_bps
    then some (whole * 100 + hundredths)
    else none

-- `split_once('.')`, or the whole text and no fraction
unfoldable pub split_point : Bytes → Bytes × Bytes
unfolding split_once
split_point text = elim (split_once b'.' text) [ none ↦ (text, []) | some p ↦ p ]

unfoldable pub parse_parts : Bytes → Bytes → Option ℕ
unfolding is_empty parse_u32 hundredths_text slippage_of
parse_parts whole_text frac_text =
    if is_empty whole_text && is_empty frac_text
    then none
    else if not (all is_ascii_digit whole_text)
        || not (all is_ascii_digit frac_text)
        || ltb slippage_decimals (length frac_text)
    then none
    else and_then (if is_empty whole_text then some 0 else parse_u32 whole_text) (λ whole.
      and_then (parse_u32 (hundredths_text frac_text)) (λ hundredths. slippage_of whole hundredths))

unfoldable pub parse_slippage_percent : Bytes → Option ℕ
unfolding trim trim_end_byte split_point parse_parts
parse_slippage_percent text =
    let p = split_point (trim (trim_end_byte b'%' (trim text))) in parse_parts p.0 p.1

-- `bps as u16` arithmetic; nothing wraps, since the minimum is taken first.
unfoldable pub step_slippage_bps : ℕ → Bool → ℕ
unfolding min
step_slippage_bps bps up =
    let b = min bps max_slippage_bps in
    let stepped =
      if up
      then (b / slippage_step_bps + 1) * slippage_step_bps
      else (b - 1) / slippage_step_bps * slippage_step_bps in
    min stepped max_slippage_bps

-- `{hundredths:02}`, for at most two digits
unfoldable pub two_digits : ℕ → Bytes
two_digits n = if ltb n 10 then b'0' ∷ to_decimal n else to_decimal n

unfoldable pub format_slippage_percent : ℕ → Bytes
unfolding to_decimal two_digits
format_slippage_percent bps =
    let whole = bps / 100 in
    let hundredths = bps % 100 in
    if hundredths == 0
    then to_decimal whole
    else if hundredths % 10 == 0
    then to_decimal whole ++ b'.' ∷ to_decimal (hundredths / 10)
    else to_decimal whole ++ b'.' ∷ two_digits hundredths

pub record SwapForm : Type 0 where
  pub from : SendToken
  pub to : SendToken
  pub amount : Bytes
  pub slippage_bps : ℕ

abbrev pub default_swap_form : SwapForm
default_swap_form = record {
  from = native_token;
  to = cc_token 1;
  amount = [];
  slippage_bps = default_slippage_bps;
}

unfoldable pub flip : SwapForm → SwapForm
flip form = record form { from = form.to; to = form.from }

unfoldable pub clamped_slippage_bps : SwapForm → ℕ
unfolding min
clamped_slippage_bps form = min form.slippage_bps max_slippage_bps

-- `u128::checked_mul`
unfoldable pub u128_checked_mul : ℕ → ℕ → Option ℕ
u128_checked_mul a b = if ltb (a * b) (2 ^ 128) then some (a * b) else none

unfoldable pub expected_out : ℕ → ℕ → ℕ → ℕ → Option ℕ
unfolding u128_checked_mul u128_checked_add
expected_out reserve_in reserve_out dx fee_bps =
    if leb fee_denom fee_bps
    then none
    else if reserve_in == 0
    then some 0
    else and_then (u128_checked_mul dx (fee_denom - fee_bps)) (λ product.
      let dx_fee = product / fee_denom in
      if dx_fee == 0
      then some 0
      else and_then (u128_checked_mul reserve_out dx_fee) (λ numerator.
        and_then (u128_checked_add reserve_in dx_fee)
          (λ denominator. if denominator == 0 then some 0 else some (numerator / denominator))))

unfoldable pub min_out_after_slippage : ℕ → ℕ → Option ℕ
unfolding min u128_checked_mul
min_out_after_slippage out slippage_bps =
    let slippage = min slippage_bps fee_denom in
    and_then (u128_checked_mul out (fee_denom - slippage)) (λ product. some (product / fee_denom))

pub record SwapQuote : Type 0 where
  pub in_units : ℕ
  pub out_units : ℕ
  pub min_out_units : ℕ
  pub fee_bps : ℕ
  pub slippage_bps : ℕ

unfoldable pub quote_is_empty : SwapQuote → Bool
quote_is_empty q = q.out_units == 0

unfoldable pub quote_swap : ℕ → ℕ → ℕ → ℕ → ℕ → Option SwapQuote
unfolding expected_out min_out_after_slippage
quote_swap in_units reserve_in reserve_out fee_bps slippage_bps =
    and_then (expected_out reserve_in reserve_out in_units fee_bps) (λ out_units.
      and_then (min_out_after_slippage out_units slippage_bps) (λ min_out_units. some (record {
        in_units = in_units;
        out_units = out_units;
        min_out_units = min_out_units;
        fee_bps = fee_bps;
        slippage_bps = slippage_bps;
      })))

pub record SwapRequest : Type 0 where
  pub input : AssetAmount
  pub output : AssetId
  pub min_out_units : ℕ
  pub slippage_bps : ℕ

module _ ⦃big : BigUint⦄ where
  unfoldable pub form_input : SwapForm → Outcome WalletError AssetAmount
  unfolding parse_send_amount token_asset
  form_input form = parse_send_amount (token_asset form.from) form.amount

  unfoldable pub base_units_u128 {ℓ} : {E : Type ℓ} → AssetAmount → Outcome E (Option ℕ)
  unfolding native_units cc_units to_canonical_decimal parse_u128
  base_units_u128 a = elim (native_units a) [
    | some units ↦ ok (some units)
    | none ↦ expect_some (cc_units a) >>= λ units. ok (parse_u128 (to_canonical_decimal units))
  ]

  unfoldable pub new_swap_request : AssetAmount → AssetId → ℕ → ℕ → Outcome WalletError SwapRequest
  unfolding asset_id is_sendable asset_eq is_zero base_units_u128
  new_swap_request input output min_out_units slippage_bps = do
    let in_asset = asset_id input
    reject_if (not (is_sendable in_asset) || not (is_sendable output))
        (validation "only the native coin and tokens 1, 2, and 3 can be swapped")
    reject_if (asset_eq in_asset output) (validation "choose two different tokens to swap")
    reject_if (is_zero input) (amount "amount must be greater than zero")
    reject_if (ltb max_slippage_bps slippage_bps) (validation "slippage tolerance is too high")
    units ← base_units_u128 input
    ok_or units (amount "amount is too large to swap")
    ok (record {
      input = input;
      output = output;
      min_out_units = min_out_units;
      slippage_bps = slippage_bps;
    })

  unfoldable pub swap_in_units {ℓ} : {E : Type ℓ} → SwapRequest → Outcome E ℕ
  unfolding base_units_u128
  swap_in_units r = base_units_u128 r.input >>= λ units. expect_some units
