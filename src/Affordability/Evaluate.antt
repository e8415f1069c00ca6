-- ===== src/Affordability/Evaluate.antt =====
-- `evaluate_affordability`: the loop over the assets that matter.
use cc_wallet_gui.Prelude.{◌+◌, List, [], ◌∷◌, not, ok, ◌>>=◌, ◌>>◌, reject_if}
use cc_wallet_gui.External.{BigUint}
use cc_wallet_gui.BTreeMap.{Map, get}
use cc_wallet_gui.Asset.{AssetId}
use cc_wallet_gui.Amount.{AssetAmount}
use cc_wallet_gui.Digest.{Reservation}
use cc_wallet_gui.Affordability.{
  asset_key, duplicate_reservation, duplicate_overlap, overlap_row_not_reserved, AssetAffordability,
  AffordabilityReport, Checked, index_by_asset, has_duplicate_rows, all_reserved, reserved_assets,
  requested_assets, or_zero, amount_to_biguint, biguint_to_amount, sum_rows, find_available,
  find_warning, find_sufficient,
}

module _ ⦃big : BigUint⦄ where
  -- The body of the loop over the relevant assets.
  unfoldable pub assess :
      Map AssetId AssetAmount
      → List Reservation
      → List Reservation
      → Map AssetId AssetAmount
      → AssetId
      → Checked AssetAffordability
  unfolding or_zero get sum_rows biguint_to_amount amount_to_biguint find_available find_warning
      find_sufficient
  assess balances reservations overlap requested asset = do
    b ← or_zero (get asset balances) asset
    n ← or_zero (get asset requested) asset
    sums ←
        sum_rows asset overlap reservations
          (record { reserved_big = 0; all_big = 0; components = [] })
    let reserved = biguint_to_amount sums.reserved_big asset
    available ← find_available reserved b
    wanted ← amount_to_biguint n
    let worst_case = biguint_to_amount (sums.all_big + wanted) asset
    warns ← find_warning worst_case b
    enough ← find_sufficient available n b
    ok (record {
      asset = asset;
      balance = b;
      reserved = reserved;
      available = available;
      requested = n;
      reservation_components = sums.components;
      worst_case = worst_case;
      sufficient = enough;
      worst_case_warns = warns;
    })

  unfoldable pub assess_all :
      Map AssetId AssetAmount
      → List Reservation
      → List Reservation
      → Map AssetId AssetAmount
      → List AssetId
      → Checked AffordabilityReport
  unfolding assess
  assess_all balances reservations overlap requested [] = ok []
  assess_all balances reservations overlap requested (asset ∷ assets) = do
    outcome ← assess balances reservations overlap requested asset
    outcomes ← assess_all balances reservations overlap requested assets
    ok (outcome ∷ outcomes)

  unfoldable pub evaluate_affordability :
      List AssetAmount
      → List Reservation
      → List Reservation
      → List AssetAmount
      → Checked AffordabilityReport
  unfolding index_by_asset has_duplicate_rows all_reserved reserved_assets requested_assets
      assess_all
  evaluate_affordability balance_list reservations overlap requested_list = do
    balances ← index_by_asset balance_list
    requested ← index_by_asset requested_list
    reject_if (has_duplicate_rows reservations) duplicate_reservation
    reject_if (has_duplicate_rows overlap) duplicate_overlap
    reject_if (not (all_reserved reservations overlap)) overlap_row_not_reserved
    assess_all balances reservations overlap requested
        (requested_assets requested (reserved_assets reservations []))
