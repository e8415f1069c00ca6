-- ===== src/Swap/Request.antt =====
-- Which swaps `SwapRequest::new` of swap.rs accepts, and the units that an accepted swap pays.
use cc_wallet_gui.Prelude.{
  ℕ, ◌^◌, ◌<◌, ◌≤◌, [], ◌∷◌, Option, none, some, true, false, ◌≡◌, arith, ltb, if◌then◌else◌, ◌↔◌,
  ok, ap, ◌∙◌, Bytes,
}
use cc_wallet_gui.Decimal.{value, to_decimal, parse_u128}
use cc_wallet_gui.Decimal.Laws.{value-to_decimal}
use cc_wallet_gui.Decimal.Canonical.{IsCanonical, to_decimal-IsCanonical}
use cc_wallet_gui.External.{BigUint}
use cc_wallet_gui.Asset.{AssetId, asset_eq, is_sendable, WalletError}
use cc_wallet_gui.Amount.{
  AssetAmount, native_amount, cc_amount, asset_id, native_units, cc_units, to_canonical_decimal,
}
use cc_wallet_gui.Amount.Arithmetic.{units, InDomain, is_zero-units}
use cc_wallet_gui.Amount.Canonical.{all-IsDigit}
use cc_wallet_gui.Swap.{
  max_slippage_bps, SwapRequest, base_units_u128, new_swap_request, swap_in_units,
}

abbrev fits_u128 : ℕ → Option ℕ
fits_u128 n = if ltb n (2 ^ 128) then some n else none

parse_u128-IsCanonical : (s : Bytes) → IsCanonical s → parse_u128 s ≡ fits_u128 (value s)
unfolding parse_u128
parse_u128-IsCanonical [] h = absurd h
parse_u128-IsCanonical (c ∷ s) h = ground (arith, all-IsDigit (c ∷ s) (h.0, h.1))

-- A swap that may be requested.
abbrev pub IsSwap : AssetAmount → AssetId → ℕ → Type 0
IsSwap input output slippage =
    (is_sendable (asset_id input) ≡ true)
    × (is_sendable output ≡ true)
    × (asset_eq (asset_id input) output ≡ false)
    × (0 < units input)
    × (units input < 2 ^ 128)
    × (slippage ≤ max_slippage_bps)

abbrev pub request_of : AssetAmount → AssetId → ℕ → ℕ → SwapRequest
request_of input output least slippage = record {
  input = input;
  output = output;
  min_out_units = least;
  slippage_bps = slippage;
}

module _ ⦃big : BigUint⦄ where
  base_units_u128-units {ℓ} :
      {E : Type ℓ} (a : AssetAmount)
      → InDomain a
      → base_units_u128 {E = E} a ≡ ok (fits_u128 (units a))
  unfolding base_units_u128 native_units cc_units to_canonical_decimal
  base_units_u128-units (native_amount n) h = ground arith
  base_units_u128-units (cc_amount id n) h = ap ok (
      rw (big.to_str_radix_decimal n) (
        parse_u128-IsCanonical (to_decimal n) (to_decimal-IsCanonical n)
        ∙ ap fits_u128 (value-to_decimal n)))

  -- For an amount in the domain: `SwapRequest::new` accepts a swap exactly when both assets can be
  -- sent and differ, the amount is positive and fits a u128, and the slippage is at most 1000; then
  -- the request holds what it was given.
  pub new_swap_request_iff :
      (input : AssetAmount) (output : AssetId) (least slippage : ℕ) (r : SwapRequest)
      → InDomain input
      → (new_swap_request input output least slippage ≡ ok r)
        ↔ (IsSwap input output slippage × (request_of input output least slippage ≡ r))
  unfolding new_swap_request
  new_swap_request_iff input output least slippage r h =
      let zero_test = is_zero-units input in
      let base = base_units_u128-units {E = WalletError} input h in
      rw (zero_test, base) (ground arith)

  -- An accepted swap of an amount in the domain tells the units of its input without a panic.
  new_swap_request-swap_in_units {ℓ} :
      {E : Type ℓ} (input : AssetAmount) (output : AssetId) (least slippage : ℕ) (r : SwapRequest)
      → InDomain input
      → new_swap_request input output least slippage ≡ ok r
      → swap_in_units {E = E} r ≡ ok (units input)
  unfolding swap_in_units
  new_swap_request-swap_in_units {E = E} input output least slippage r h e =
      let (allowed, same) = (new_swap_request_iff input output least slippage r h).0 e in
      rw (← same, base_units_u128-units {E = E} input h) (ground arith)
