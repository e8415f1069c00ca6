-- ===== src/Asset.antt =====
-- `crates/cc-wallet-domain/src/asset.rs` and `error.rs`: assets, their metadata, wallet errors.
use cc_wallet_gui.Prelude.{
  ℕ, List, [], ◌∷◌, Option, none, some, Bool, true, false, ◌||◌, ◌≡◌, ◌↔◌, refl, arith, String, ltb,
  ◌==◌, if◌then◌else◌, any,
}

pub data WalletError : Type 0 where
  validation amount overflow : String → WalletError

pub data AssetId : Type 0 where
  native : AssetId
  currency_collection : ℕ → AssetId

pub data AssetTone : Type 0 where
  coin one two three unknown : AssetTone

pub record AssetMeta : Type 0 where
  pub id : AssetId
  pub display_name : String
  pub symbol : String
  pub mark : String
  pub tone : AssetTone
  pub decimals : Option ℕ

abbrev pub coin_asset : AssetMeta
coin_asset = record {
  id = native;
  display_name = "CC Coin";
  symbol = "COIN";
  mark = "C";
  tone = coin;
  decimals = some 9;
}

abbrev pub one_asset : AssetMeta
one_asset = record {
  id = currency_collection 1;
  display_name = "One Token";
  symbol = "ONE";
  mark = "1";
  tone = one;
  decimals = some 9;
}

abbrev pub two_asset : AssetMeta
two_asset = record {
  id = currency_collection 2;
  display_name = "Two Token";
  symbol = "TWO";
  mark = "2";
  tone = two;
  decimals = some 9;
}

abbrev pub three_asset : AssetMeta
three_asset = record {
  id = currency_collection 3;
  display_name = "Three Token";
  symbol = "THREE";
  mark = "3";
  tone = three;
  decimals = some 9;
}

abbrev pub unknown_cc_asset : AssetMeta
unknown_cc_asset = record {
  id = currency_collection 0;
  display_name = "Currency Collection";
  symbol = "CC";
  mark = "#";
  tone = unknown;
  decimals = some 9;
}

abbrev pub known_cc_assets : List AssetMeta
known_cc_assets = one_asset ∷ two_asset ∷ three_asset ∷ []

abbrev pub all_supported_assets : List AssetMeta
all_supported_assets = coin_asset ∷ one_asset ∷ two_asset ∷ three_asset ∷ []

unfoldable pub asset_meta : AssetId → AssetMeta
asset_meta native = coin_asset
asset_meta (currency_collection id) =
    if id == 1
    then one_asset
    else if id == 2
    then two_asset
    else if id == 3
    then three_asset
    else (record unknown_cc_asset { id = currency_collection id })

unfoldable pub cc_id : AssetId → Option ℕ
cc_id native = none
cc_id (currency_collection id) = some id

unfoldable pub is_native : AssetId → Bool
is_native native = true
is_native (currency_collection id) = false

has_cc_id : ℕ → Option ℕ → Bool
has_cc_id id none = false
has_cc_id id (some known) = known == id

unfoldable pub is_known_cc : AssetId → Bool
unfolding cc_id has_cc_id
is_known_cc native = false
is_known_cc (currency_collection id) =
    any (λ (m : AssetMeta). has_cc_id id (cc_id m.id)) known_cc_assets

unfoldable pub is_sendable : AssetId → Bool
unfolding is_native is_known_cc
is_sendable asset = is_native asset || is_known_cc asset

-- The derived equality and order: the native asset first, then by id.
unfoldable pub asset_eq : AssetId → AssetId → Bool
asset_eq native native = true
asset_eq native (currency_collection _) = false
asset_eq (currency_collection _) native = false
asset_eq (currency_collection a) (currency_collection b) = a == b

pub asset_eq_iff : (a b : AssetId) → (asset_eq a b ≡ true) ↔ (a ≡ b)
unfolding asset_eq
asset_eq_iff a b = ground arith

unfoldable pub asset_lt : AssetId → AssetId → Bool
asset_lt native native = false
asset_lt native (currency_collection _) = true
asset_lt (currency_collection _) native = false
asset_lt (currency_collection a) (currency_collection b) = ltb a b

-- Metadata is given for the asset asked for, with nine decimals whatever it is; an asset can be
-- sent exactly when it is one of the four supported ones.
pub asset_meta_lem :
    (a : AssetId)
    → ((asset_meta a).id ≡ a)
      × ((asset_meta a).decimals ≡ some 9)
      × ((is_sendable a ≡ true)
          ↔ (any (λ (m : AssetMeta). asset_eq m.id a) all_supported_assets ≡ true))
unfolding asset_meta is_sendable asset_eq
asset_meta_lem native = (refl, refl, (λ h. refl, λ h. refl))
asset_meta_lem (currency_collection id) = ground arith
