-- ===== src/Profile/Network.antt =====
-- `crates/cc-wallet-domain/src/network.rs`: the networks that the wallet knows.
use cc_wallet_gui.Prelude.{
  ℕ, ◌-◌, List, [], ◌∷◌, Option, none, some, Bool, true, false, ◌==◌, if◌then◌else◌, Bytes, codes,
  length, ℤ, pos, int_eq,
}
use cc_wallet_gui.Strings.{trim}
use cc_wallet_gui.Amount.{is_empty}
use cc_wallet_gui.Swap.{min}
use cc_wallet_gui.Profile.{get_elem?}

pub record Network : Type 0 where
  pub id : ℤ
  pub name : Bytes
  pub endpoints : List Bytes
  pub selected : ℕ
  pub require_signature_id : Bool
  pub dex_pool : Bytes

unfoldable pub active_endpoint : Network → Option Bytes
unfolding get_elem? min
active_endpoint n =
    if length n.endpoints == 0
    then none
    else get_elem? n.endpoints (min n.selected (length n.endpoints - 1))

-- `Network::dex_pool`
unfoldable pub network_dex_pool : Network → Option Bytes
unfolding trim is_empty
network_dex_pool n =
    let trimmed = trim n.dex_pool in if is_empty trimmed then none else some trimmed

abbrev pub tycho_testnet : Network
tycho_testnet = record {
  id = pos 2000;
  name = codes "Tycho testnet";
  endpoints = codes "https://rpc-testnet.tychoprotocol.com/" ∷ [];
  selected = 0;
  require_signature_id = true;
  dex_pool = [];
}

abbrev pub local_network : Network
local_network = record {
  id = pos 0;
  name = codes "Local";
  endpoints = codes "http://127.0.0.1:8001/" ∷ [];
  selected = 0;
  require_signature_id = false;
  dex_pool = codes "0:4273920c193f325e2db7d77b5668c8ac60f4d2ac37bc239b9aeea5a27924ccf4";
}

-- `NetworkRegistry::defaults`, the list of its networks
abbrev pub default_networks : List Network
default_networks = tycho_testnet ∷ local_network ∷ []

-- `NetworkRegistry::get`
unfoldable pub get_network : List Network → ℤ → Option Network
unfolding int_eq
get_network [] id = none
get_network (n ∷ ns) id = let rest = get_network ns id in if int_eq n.id id then some n else rest

unfoldable pub endpoint_for : List Network → ℤ → Option Bytes
unfolding get_network active_endpoint
endpoint_for networks id = elim (get_network networks id) [
  | none ↦ none
  | some n ↦ active_endpoint n
]

unfoldable pub dex_pool_for : List Network → ℤ → Option Bytes
unfolding get_network network_dex_pool
dex_pool_for networks id = elim (get_network networks id) [
  | none ↦ none
  | some n ↦ network_dex_pool n
]

unfoldable pub name_for : List Network → ℤ → Option Bytes
unfolding get_network
name_for networks id = elim (get_network networks id) [ none ↦ none | some n ↦ some n.name ]

-- `NetworkRegistry::require_signature_id`
unfoldable pub needs_signature_id : List Network → ℤ → Bool
unfolding get_network
needs_signature_id networks id = elim (get_network networks id) [
  | none ↦ false
  | some n ↦ n.require_signature_id
]
