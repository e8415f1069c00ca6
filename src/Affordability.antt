-- ===== src/Affordability.antt =====
-- `crates/cc-wallet-domain/src/affordability.rs`: whether fresh balances carry the requested
-- amounts beside what earlier sends have reserved. The evaluation itself is in
-- `Affordability/Evaluate`, what is proved in the other children.
pub mod Evaluate
pub mod Spec
pub mod Assess
pub mod Index
pub mod Theorems
pub mod Returns
use Prim.Native.Nat.{Ordering}
use cc_wallet_gui.Prelude.{
  ℕ, ◌+◌, ◌-◌, ◌≤◌, List, [], ◌∷◌, ◌++◌, Option, none, some, Bool, true, false, not, ◌&&◌, ◌||◌,
  ◌≡◌, refl, leb, if◌then◌else◌, all, Outcome, ok, err, panic, ◌>>=◌, ◌>>◌, reject_if, expect_some,
  expect_ok, length, replicate, Bytes,
}
use cc_wallet_gui.External.{BigUint}
use cc_wallet_gui.BTreeMap.{Key, Map, get, insert, insert_key}
use cc_wallet_gui.Asset.{AssetId, native, currency_collection, asset_eq, asset_lt, asset_eq_iff}
use cc_wallet_gui.Amount.{
  AssetAmount, native_amount, cc_amount, asset_id, native_units, cc_units, make_native, AmountError,
  cmp_same_asset, checked_sub_same_asset, to_be_bytes_31, from_be_bytes_31, cc_zero,
}
use cc_wallet_gui.Digest.{Reservation, contains}

instance abbrev pub asset_key : Key AssetId
asset_key = record { eq = asset_eq; lt = asset_lt; eq_iff = asset_eq_iff }

pub data AffordabilityError : Type 0 where
  duplicate_asset : AssetId → AffordabilityError
  duplicate_reservation duplicate_overlap overlap_row_not_reserved : AffordabilityError

pub record AssetAffordability : Type 0 where
  pub asset : AssetId
  pub balance : AssetAmount
  pub reserved : Option AssetAmount
  pub available : Option AssetAmount
  pub requested : AssetAmount
  pub reservation_components : List AssetAmount
  pub worst_case : Option AssetAmount
  pub sufficient : Bool
  pub worst_case_warns : Bool

-- `AffordabilityReport` holds the outcomes, one for each asset that matters.
abbrev pub AffordabilityReport : Type 0
AffordabilityReport = List AssetAffordability

unfoldable pub is_affordable : AffordabilityReport → Bool
is_affordable outcomes = all (λ (o : AssetAffordability). o.sufficient) outcomes

abbrev pub Checked : Type 0 → Type 0
Checked A = Outcome AffordabilityError A

unfoldable pub zero_amount : AssetId → Checked AssetAmount
unfolding make_native
zero_amount native = expect_ok (make_native 0)
zero_amount (currency_collection id) = ok (cc_amount id cc_zero)

unfoldable pub index_from :
    Map AssetId AssetAmount → List AssetAmount → Checked (Map AssetId AssetAmount)
unfolding get insert asset_id
index_from m [] = ok m
index_from m (a ∷ amounts) = elim (get (asset_id a) m) [
  | some _ ↦ err (duplicate_asset (asset_id a))
  | none ↦ index_from (insert (asset_id a) a m) amounts
]

unfoldable pub index_by_asset : List AssetAmount → Checked (Map AssetId AssetAmount)
unfolding index_from
index_by_asset = index_from []

unfoldable pub has_duplicate_rows : List Reservation → Bool
unfolding contains
has_duplicate_rows [] = false
has_duplicate_rows (row ∷ rows) = contains rows row || has_duplicate_rows rows

unfoldable pub all_reserved : List Reservation → List Reservation → Bool
unfolding contains
all_reserved reservations overlap = all (contains reservations) overlap

unfoldable pub reserved_assets : List Reservation → List AssetId → List AssetId
unfolding insert_key asset_id
reserved_assets [] s = s
reserved_assets (row ∷ rows) s = reserved_assets rows (insert_key (asset_id row.amount) s)

unfoldable pub requested_assets : Map AssetId AssetAmount → List AssetId → List AssetId
unfolding insert_key
requested_assets [] s = s
requested_assets ((asset, _) ∷ m) s = requested_assets m (insert_key asset s)

unfoldable pub or_zero : Option AssetAmount → AssetId → Checked AssetAmount
unfolding zero_amount
or_zero (some a) asset = ok a
or_zero none asset = zero_amount asset

unfoldable pub is_le : Ordering → Bool
is_le Ordering.gt = false
is_le _ = true

-- `available`, `worst_case_warns` and `sufficient`
unfoldable pub find_available : Option AssetAmount → AssetAmount → Checked (Option AssetAmount)
unfolding cmp_same_asset checked_sub_same_asset is_le
find_available none b = ok none
find_available (some s) b = do
  order ← expect_ok (cmp_same_asset s b)
  if is_le order
      then (do rest ← expect_ok (checked_sub_same_asset b s); ok (some rest))
      else ok none

unfoldable pub find_warning : Option AssetAmount → AssetAmount → Checked Bool
unfolding cmp_same_asset is_le
find_warning none b = ok true
find_warning (some w) b = do order ← expect_ok (cmp_same_asset w b); ok (not (is_le order))

unfoldable pub find_sufficient : Option AssetAmount → AssetAmount → AssetAmount → Checked Bool
unfolding cmp_same_asset is_le
find_sufficient none n b = ok false
find_sufficient (some a) n b = do
  below_balance ← expect_ok (cmp_same_asset n b)
  if is_le below_balance
      then (do below_available ← expect_ok (cmp_same_asset n a); ok (is_le below_available))
      else ok false

-- The sums over one asset's rows: those not overlapped, all of them, and the components.
pub record Sums : Type 0 where
  pub reserved_big : ℕ
  pub all_big : ℕ
  pub components : List AssetAmount

module _ ⦃big : BigUint⦄ where
  unfoldable pub amount_to_biguint : AssetAmount → Checked ℕ
  unfolding native_units cc_units to_be_bytes_31
  amount_to_biguint a = elim (native_units a) [
    | some units ↦ ok units
    | none ↦ do
      units ← expect_some (cc_units a)
      bytes ← to_be_bytes_31 units
      ok (big.from_bytes_be bytes)
  ]

  native_of_biguint : Option ℕ → Option AssetAmount
  unfolding make_native
  native_of_biguint none = none
  native_of_biguint (some units) = elim (make_native units) [ ok a ↦ some a | _ ↦ none ]

  cc_of_bytes : ℕ → Bytes → Option AssetAmount
  unfolding from_be_bytes_31
  cc_of_bytes id raw =
      if not (leb (length raw) 31)
      then none
      else some (cc_amount id (from_be_bytes_31 (replicate (31 - length raw) 0 ++ raw)))

  unfoldable pub biguint_to_amount : ℕ → AssetId → Option AssetAmount
  unfolding native_of_biguint cc_of_bytes
  biguint_to_amount value native = native_of_biguint (big.to_u128 value)
  biguint_to_amount value (currency_collection id) = cc_of_bytes id (big.to_bytes_be value)

  -- One round of the loop over the reservations.
  unfoldable pub add_row : AssetId → List Reservation → Reservation → Sums → Checked Sums
  unfolding amount_to_biguint contains asset_id asset_eq
  add_row asset overlap row sums =
      if not (asset_eq (asset_id row.amount) asset) then ok sums else (do
        value ← amount_to_biguint row.amount
        ok (
            if contains overlap row
            then (record sums { all_big = sums.all_big + value })
            else (record {
              reserved_big = sums.reserved_big + value;
              all_big = sums.all_big + value;
              components = sums.components ++ row.amount ∷ [];
            })))

  unfoldable pub sum_rows : AssetId → List Reservation → List Reservation → Sums → Checked Sums
  unfolding add_row
  sum_rows asset overlap [] sums = ok sums
  sum_rows asset overlap (row ∷ rows) sums = do
    sums' ← add_row asset overlap row sums
    sum_rows asset overlap rows sums'
