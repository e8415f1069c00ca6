-- ===== src/Affordability/Spec.antt =====
-- What the evaluation computes, described on the lists of its arguments.
use cc_wallet_gui.Prelude.{
  ℕ, ◌+◌, ◌≤◌, List, [], ◌∷◌, ◌++◌, Option, none, some, not, ◌&&◌, ◌≡◌, refl, ap, arith, ltb,
  if◌then◌else◌, All, ok, append-nil, append_assoc,
}
use cc_wallet_gui.External.{BigUint}
use cc_wallet_gui.Asset.{AssetId, native, currency_collection, asset_eq}
use cc_wallet_gui.Amount.{AssetAmount, native_amount, cc_amount, asset_id, from_be_bytes_31}
use cc_wallet_gui.Amount.Arithmetic.{
  units, limit, amount_of, InDomain, from_be_bytes_31-to_be_bytes_31, of_raw_bytes,
}
use cc_wallet_gui.Digest.{Reservation, contains}
use cc_wallet_gui.Affordability.{
  asset_key, AffordabilityError, Sums, amount_to_biguint, biguint_to_amount, add_row, sum_rows,
}

-- The units of `rows` in one asset that the overlap does not excuse, and those of all its rows.
unfoldable pub outstanding : AssetId → List Reservation → List Reservation → ℕ
unfolding asset_eq asset_id contains
outstanding asset overlap [] = 0
outstanding asset overlap (row ∷ rows) =
    (if asset_eq (asset_id row.amount) asset && not (contains overlap row)
      then units row.amount
      else 0)
    + outstanding asset overlap rows

unfoldable pub total : AssetId → List Reservation → ℕ
unfolding asset_eq asset_id
total asset [] = 0
total asset (row ∷ rows) =
    (if asset_eq (asset_id row.amount) asset then units row.amount else 0) + total asset rows

-- The amounts that `outstanding` adds up.
unfoldable pub kept : AssetId → List Reservation → List Reservation → List AssetAmount
unfolding asset_eq asset_id contains
kept asset overlap [] = []
kept asset overlap (row ∷ rows) =
    (if asset_eq (asset_id row.amount) asset && not (contains overlap row)
      then row.amount ∷ []
      else [])
    ++ kept asset overlap rows

-- The first amount of an asset in a list, and its units, or 0.
unfoldable pub find_amount : AssetId → List AssetAmount → Option AssetAmount
unfolding asset_eq asset_id
find_amount asset [] = none
find_amount asset (a ∷ amounts) =
    if asset_eq asset (asset_id a) then some a else find_amount asset amounts

abbrev pub units_or_zero : Option AssetAmount → ℕ
units_or_zero none = 0
units_or_zero (some a) = units a

abbrev pub amount_in : AssetId → List AssetAmount → ℕ
amount_in asset amounts = units_or_zero (find_amount asset amounts)

abbrev pub RowsInDomain : List Reservation → Type 0
RowsInDomain = All (λ (row : Reservation). InDomain row.amount)

-- Every asset's balance carries what is outstanding and what is requested.
abbrev pub Fits : List AssetAmount → List Reservation → List Reservation → List AssetAmount → Type 0
Fits balances reservations overlap requested =
    (asset : AssetId)
    → outstanding asset overlap reservations + amount_in asset requested ≤ amount_in asset balances

module _ ⦃big : BigUint⦄ where
  pub amount_to_biguint-units : (a : AssetAmount) → InDomain a → amount_to_biguint a ≡ ok (units a)
  unfolding amount_to_biguint from_be_bytes_31
  amount_to_biguint-units (native_amount n) h = refl
  amount_to_biguint-units (cc_amount id n) h =
      let (s, written, long, read) = from_be_bytes_31-to_be_bytes_31 {E = AffordabilityError} n h in
      rw written (ap ok read)

  pub biguint_to_amount-limit :
      (value : ℕ) (asset : AssetId)
      → biguint_to_amount value asset
        ≡ (if ltb value (limit asset) then some (amount_of asset value) else none)
  unfolding biguint_to_amount from_be_bytes_31
  biguint_to_amount-limit value native = ground (arith, big.to_u128_lem value)
  biguint_to_amount-limit value (currency_collection id) =
      ground (arith, big.to_bytes_be_length value 31, of_raw_bytes value)

  add_row_lem :
      (asset : AssetId) (overlap : List Reservation) (row : Reservation) (sums : Sums)
      → InDomain row.amount
      → add_row asset overlap row sums
        ≡ ok (record {
          reserved_big = sums.reserved_big + outstanding asset overlap (row ∷ []);
          all_big = sums.all_big + total asset (row ∷ []);
          components = sums.components ++ kept asset overlap (row ∷ []);
        })
  unfolding add_row outstanding total kept
  add_row_lem asset overlap row sums h =
      ground (arith, amount_to_biguint-units row.amount h, append-nil sums.components)

  -- The loop over the rows returns the sums, and does not panic, for amounts in the domain.
  pub sum_rows_lem :
      (asset : AssetId) (overlap rows : List Reservation) (sums : Sums)
      → RowsInDomain rows
      → sum_rows asset overlap rows sums
        ≡ ok (record {
          reserved_big = sums.reserved_big + outstanding asset overlap rows;
          all_big = sums.all_big + total asset rows;
          components = sums.components ++ kept asset overlap rows;
        })
  unfolding sum_rows outstanding total kept
  sum_rows_lem asset overlap [] sums h = ground (arith, append-nil sums.components)
  sum_rows_lem asset overlap (row ∷ rows) sums (hr, hs) =
      rw (add_row_lem asset overlap row sums hr, sum_rows_lem asset overlap rows _ hs)
        (ground (
          arith,
          append_assoc sums.components (kept asset overlap (row ∷ [])) (kept asset overlap rows),
        ))
