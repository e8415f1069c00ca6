-- ===== src/Examples/Profiles.antt =====
-- The profile, the networks and the snapshot at concrete inputs.
use cc_wallet_gui.Prelude.{[], ◌∷◌, some, none, ◌≡◌, refl, ok, codes, pos, ◌↔◌, All, Bytes}
use cc_wallet_gui.Strings.{trim}
use cc_wallet_gui.Strings.Words.{split_whitespace}
use cc_wallet_gui.Strings.Join.{IsWord}
use cc_wallet_gui.Profile.{
  normalize_seed, validate_seed, WalletProfile, default_profile, new_entry, normalized,
  selected_url, resolved_endpoint,
}
use cc_wallet_gui.Profile.Seed.{normalize_seed_lem}
use cc_wallet_gui.Amount.{is_empty, cc_amount, AssetAmount, asset_id}
use cc_wallet_gui.Asset.{native, currency_collection}
use cc_wallet_gui.Profile.Selection.{meant, resolved_endpoint-normalized}
use cc_wallet_gui.Profile.Network.{default_networks, endpoint_for, dex_pool_for}
use cc_wallet_gui.Profile.Snapshot.{WalletSnapshot, empty_snapshot, replace_balances, balance_for}
use cc_wallet_gui.Profile.Balances.{emptied, replaced, Reachable-balance_for}

-- Two of the endpoints are blank or repeated; the last one is selected.
abbrev messy : WalletProfile
messy = record default_profile {
  seed = codes "  one two\n three ";
  visible_cc_assets = 1 ∷ 3 ∷ 7 ∷ [];
  address_book =
      new_entry (codes " ann ") (codes "0:1 ") ∷ new_entry (codes " ") (codes "0:2") ∷ [];
  custom_endpoints = codes " http://a/ " ∷ codes "  " ∷ codes "http://a/" ∷ codes "http://b/ " ∷ [];
  selected_endpoint = 4;
}

abbrev tidy : WalletProfile
tidy = record default_profile {
  seed = codes "one two three";
  visible_cc_assets = 1 ∷ 3 ∷ [];
  address_book = new_entry (codes "ann") (codes "0:1") ∷ [];
  custom_endpoints = codes "http://a/" ∷ codes "http://b/" ∷ [];
  selected_endpoint = 2;
}

normalized-messy : normalized messy ≡ tidy
unfolding normalized new_entry trim is_empty
normalized-messy = refl

resolved_endpoint-normalized_example :
    resolved_endpoint
      (some (codes "http://d/"))
      (normalized messy).custom_endpoints
      (normalized messy).selected_endpoint
    ≡ ok (meant (codes "http://d/") messy.custom_endpoints 4)
resolved_endpoint-normalized_example = resolved_endpoint-normalized messy (codes "http://d/")

selected_url-messy : selected_url messy ≡ some (codes "http://b/")
unfolding selected_url trim is_empty
selected_url-messy = refl

endpoint_for-local : endpoint_for default_networks (pos 0) ≡ some (codes "http://127.0.0.1:8001/")
unfolding endpoint_for
endpoint_for-local = refl

dex_pool_for-testnet : dex_pool_for default_networks (pos 2000) ≡ none
unfolding dex_pool_for
dex_pool_for-testnet = refl

abbrev snapshot : WalletSnapshot
snapshot = record {
  address = codes "0:1";
  global_id = pos 0;
  status = codes "Unknown";
  native_balance = 0;
  extra_balance = [];
  last_trans_lt = 0;
  last_message_ms = 0;
  observed_network_time = none;
}

empty_call : empty_snapshot (codes "0:1") ≡ ok snapshot
unfolding empty_snapshot
empty_call = refl

abbrev funded : WalletSnapshot
funded = record snapshot { native_balance = 5; extra_balance = (1, 7) ∷ [] }

funded_call : replace_balances snapshot 5 ((1, 7) ∷ []) ≡ ok funded
unfolding replace_balances
funded_call = refl

funded-one : balance_for funded (currency_collection 1) ≡ ok (cc_amount 1 7)
unfolding balance_for
funded-one = refl

Reachable-balance_for_example :
    (balance : AssetAmount) × (balance_for funded native ≡ ok balance) × (asset_id balance ≡ native)
Reachable-balance_for_example =
    Reachable-balance_for funded
      (replaced 5 ((1, 7) ∷ []) (emptied (codes "0:1") empty_call) funded_call) native

abbrev loose_seed : Bytes
loose_seed = codes " one  two"

abbrev tight_seed : Bytes
tight_seed = codes "one two"

tight_seed-words : normalize_seed loose_seed ≡ tight_seed
unfolding normalize_seed split_whitespace
tight_seed-words = refl

normalize_seed_example :
    All IsWord (split_whitespace loose_seed)
    × (split_whitespace (normalize_seed loose_seed) ≡ split_whitespace loose_seed)
    × ((normalize_seed loose_seed ≡ normalize_seed tight_seed)
        ↔ (split_whitespace loose_seed ≡ split_whitespace tight_seed))
    × (normalize_seed (normalize_seed loose_seed) ≡ normalize_seed loose_seed)
    × (validate_seed (normalize_seed loose_seed) ≡ validate_seed loose_seed)
normalize_seed_example = normalize_seed_lem loose_seed tight_seed
