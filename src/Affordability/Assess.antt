-- ===== src/Affordability/Assess.antt =====
-- One asset's outcome, and that the evaluation of it never panics.
use cc_wallet_gui.Prelude.{
  ℕ, ◌+◌, ◌-◌, ◌<◌, List, [], ◌∷◌, Option, none, some, ◌≡◌, arith, leb, ltb, if◌then◌else◌, All, ok,
}
use package.native.Mathlib.Nat.{zero-add}
use cc_wallet_gui.External.{BigUint}
use cc_wallet_gui.BTreeMap.{Map, get}
use cc_wallet_gui.Asset.{AssetId, native, currency_collection, asset_eq_iff}
use cc_wallet_gui.Amount.{AssetAmount, native_amount, cc_amount, asset_id}
use cc_wallet_gui.Amount.Arithmetic.{limit, amount_of, InDomain}
use cc_wallet_gui.Digest.{Reservation}
use cc_wallet_gui.Affordability.{
  asset_key, AssetAffordability, or_zero, amount_to_biguint, find_available, find_warning,
  find_sufficient,
}
use cc_wallet_gui.Affordability.Evaluate.{assess}
use cc_wallet_gui.Affordability.Spec.{
  outstanding, total, kept, units_or_zero, RowsInDomain, amount_to_biguint-units,
  biguint_to_amount-limit, sum_rows_lem,
}

-- The entries of an index are filed under their assets and lie in the domain.
abbrev pub IsFiled : AssetId → AssetAmount → Type 0
IsFiled asset a = (asset_id a ≡ asset) × InDomain a

abbrev pub Filed : Map AssetId AssetAmount → Type 0
Filed = All (λ (e : AssetId × AssetAmount). IsFiled e.0 e.1)

abbrev pub FiledOption : AssetId → Option AssetAmount → Type 0
FiledOption asset none = Unit
FiledOption asset (some a) = IsFiled asset a

pub get-Filed :
    (asset : AssetId) (m : Map AssetId AssetAmount) → Filed m → FiledOption asset (get asset m)
unfolding get
get-Filed asset [] h = tt
get-Filed asset ((k, a) ∷ m) (hk, hm) = ground (arith, asset_eq_iff asset k, get-Filed asset m hm)

or_zero_lem :
    (o : Option AssetAmount) (asset : AssetId)
    → FiledOption asset o
    → (or_zero o asset ≡ ok (amount_of asset (units_or_zero o))) × (units_or_zero o < limit asset)
unfolding or_zero asset_id
or_zero_lem none native h = ground arith
or_zero_lem none (currency_collection id) h = ground arith
or_zero_lem (some (native_amount n)) native h = ground arith
or_zero_lem (some (native_amount n)) (currency_collection id) h = cc
or_zero_lem (some (cc_amount i n)) native h = cc
or_zero_lem (some (cc_amount i n)) (currency_collection id) h = ground arith

-- The outcome for one asset: balance `b`, request `n`, outstanding `s`, all reserved `t`.
abbrev pub outcome_of : AssetId → ℕ → ℕ → ℕ → ℕ → List AssetAmount → AssetAffordability
outcome_of asset b n s t c = record {
  asset = asset;
  balance = amount_of asset b;
  reserved = if ltb s (limit asset) then some (amount_of asset s) else none;
  available = if leb s b then some (amount_of asset (b - s)) else none;
  requested = amount_of asset n;
  reservation_components = c;
  worst_case = if ltb (t + n) (limit asset) then some (amount_of asset (t + n)) else none;
  sufficient = leb (s + n) b;
  worst_case_warns = ltb b (t + n);
}

available_lem :
    (asset : AssetId) (s b : ℕ)
    → b < limit asset
    → find_available
        (if ltb s (limit asset) then some (amount_of asset s) else none)
        (amount_of asset b)
      ≡ ok (if leb s b then some (amount_of asset (b - s)) else none)
unfolding find_available
available_lem native s b h = ground arith
available_lem (currency_collection id) s b h = ground arith

warning_lem :
    (asset : AssetId) (w b : ℕ)
    → b < limit asset
    → find_warning
        (if ltb w (limit asset) then some (amount_of asset w) else none)
        (amount_of asset b)
      ≡ ok (ltb b w)
unfolding find_warning
warning_lem native w b h = ground arith
warning_lem (currency_collection id) w b h = ground arith

sufficient_lem :
    (asset : AssetId) (s n b : ℕ)
    → find_sufficient
        (if leb s b then some (amount_of asset (b - s)) else none)
        (amount_of asset n)
        (amount_of asset b)
      ≡ ok (leb (s + n) b)
unfolding find_sufficient
sufficient_lem native s n b = ground arith
sufficient_lem (currency_collection id) s n b = ground arith

module _ ⦃big : BigUint⦄ where
  wanted_lem :
      (asset : AssetId) (n : ℕ) → n < limit asset → amount_to_biguint (amount_of asset n) ≡ ok n
  wanted_lem native n h = amount_to_biguint-units (native_amount n) h
  wanted_lem (currency_collection id) n h = amount_to_biguint-units (cc_amount id n) h

  -- The evaluation of one asset returns its outcome, and does not panic.
  pub assess_lem :
      (balances : Map AssetId AssetAmount) (rows overlap : List Reservation)
      (requested : Map AssetId AssetAmount) (asset : AssetId)
      → Filed balances
      → Filed requested
      → RowsInDomain rows
      → assess balances rows overlap requested asset
        ≡ ok (
            outcome_of asset
              (units_or_zero (get asset balances))
              (units_or_zero (get asset requested))
              (outstanding asset overlap rows)
              (total asset rows)
              (kept asset overlap rows))
  unfolding assess
  assess_lem balances rows overlap requested asset hb hn hr =
      let (b_ok, b_lt) = or_zero_lem (get asset balances) asset (get-Filed asset balances hb) in
      let (n_ok, n_lt) = or_zero_lem (get asset requested) asset (get-Filed asset requested hn) in
      rw (
        b_ok,
        n_ok,
        sum_rows_lem asset overlap rows (record { reserved_big = 0; all_big = 0; components = [] })
            hr,
        biguint_to_amount-limit (0 + outstanding asset overlap rows) asset,
        zero-add (outstanding asset overlap rows),
        zero-add (total asset rows),
        available_lem asset (outstanding asset overlap rows) (units_or_zero (get asset balances))
            b_lt,
        wanted_lem asset (units_or_zero (get asset requested)) n_lt,
        biguint_to_amount-limit (total asset rows + units_or_zero (get asset requested)) asset,
        warning_lem asset (total asset rows + units_or_zero (get asset requested))
            (units_or_zero (get asset balances)) b_lt,
        sufficient_lem asset (outstanding asset overlap rows) (units_or_zero (get asset requested))
            (units_or_zero (get asset balances)),
      )
