-- ===== src/Profile.antt =====
-- `crates/cc-wallet-domain/src/profile.rs`: the stored profile and its normalization, and the seed.
-- `resolved_endpoint` is that of `crates/cc-wallet-app/src/state.rs`. Secrets are plain byte strings;
-- the JSON of a profile is not modelled.
pub mod Selection
pub mod Seed
pub mod Snapshot
pub mod Balances
pub mod Network
use cc_wallet_gui.Prelude.{
  ℕ, zero, suc, ◌+◌, ◌-◌, List, [], ◌∷◌, Option, none, some, Bool, true, false, not, ◌&&◌, ◌||◌,
  ltb, ◌==◌, if◌then◌else◌, Outcome, ok, err, panic, ◌>>=◌, ◌>>◌, Bytes, bytes_eq, length, any, ℤ,
  pos, negsuc, String, map,
}
use cc_wallet_gui.Strings.{trim}
use cc_wallet_gui.Strings.Words.{split_whitespace, join_words}
use cc_wallet_gui.Asset.{WalletError, validation, currency_collection, is_known_cc}
use cc_wallet_gui.Amount.{is_empty}
use cc_wallet_gui.Requests.{WalletInputs, validate_workchain}
use cc_wallet_gui.Swap.{min}
use Prim.Native.String.{◌++◌}

unfoldable pub normalize_seed : Bytes → Bytes
unfolding split_whitespace join_words
normalize_seed value = join_words (split_whitespace value)

-- The decimal text of a number below twelve.
small_number : ℕ → String
small_number n =
    if n == 1
    then "1"
    else if n == 2
    then "2"
    else if n == 3
    then "3"
    else if n == 4
    then "4"
    else if n == 5
    then "5"
    else if n == 6
    then "6"
    else if n == 7
    then "7"
    else if n == 8
    then "8"
    else if n == 9
    then "9"
    else if n == 10
    then "10"
    else if n == 11
    then "11"
    else "0"

unfoldable pub validate_seed : Bytes → Outcome WalletError (Unit {0})
unfolding split_whitespace small_number
validate_seed seed =
    let words = length (split_whitespace seed) in
    if words == 0
    then err (validation "seed is empty")
    else if ltb words 12
    then err (validation ("seed looks too short: " ++ (small_number words ++ " words")))
    else ok tt

pub record AddressBookEntry : Type 0 where
  pub name : Bytes
  pub address : Bytes
  pub tag : Bytes

-- `AddressBookEntry::new`
unfoldable pub new_entry : Bytes → Bytes → AddressBookEntry
new_entry name address = record { name = name; address = address; tag = [] }

pub record WalletProfile : Type 0 where
  pub network_id : ℤ
  pub workchain : ℤ
  pub seed : Bytes
  pub visible_cc_assets : List ℕ
  pub address_book : List AddressBookEntry
  pub autosign_mins : ℕ
  pub screen_lock_mins : ℕ
  pub custom_endpoints : List Bytes
  pub selected_endpoint : ℕ

abbrev pub default_profile : WalletProfile
default_profile = record {
  network_id = pos 0;
  workchain = negsuc 0;
  seed = [];
  visible_cc_assets = [];
  address_book = [];
  autosign_mins = 5;
  screen_lock_mins = 5;
  custom_endpoints = [];
  selected_endpoint = 0;
}

-- `visible_cc_assets.retain`
retain_known : List ℕ → List ℕ
unfolding is_known_cc
retain_known [] = []
retain_known (id ∷ ids) =
    let rest = retain_known ids in if is_known_cc (currency_collection id) then id ∷ rest else rest

-- The `filter_map` over the address book.
tidy_book : List AddressBookEntry → List AddressBookEntry
unfolding trim is_empty
tidy_book [] = []
tidy_book (entry ∷ book) =
    let name = trim entry.name in
    let address = trim entry.address in
    let rest = tidy_book book in
    if is_empty name || is_empty address
    then rest
    else (record { tag = trim entry.tag; name = name; address = address }) ∷ rest

-- `slice::get`
unfoldable pub get_elem? : List Bytes → ℕ → Option Bytes
get_elem? [] n = none
get_elem? (x ∷ xs) zero = some x
get_elem? (x ∷ xs) (suc n) = get_elem? xs n

-- `.map(|u| u.trim().to_owned())` and `.filter(|u| !u.is_empty())`
unfoldable pub trimmed_nonempty : Option Bytes → Option Bytes
trimmed_nonempty none = none
trimmed_nonempty (some u) = if is_empty (trim u) then none else some (trim u)

-- The local `selected_url`.
unfoldable pub selected_url : WalletProfile → Option Bytes
unfolding get_elem? trimmed_nonempty
selected_url profile =
    if ltb 0 profile.selected_endpoint
    then trimmed_nonempty (get_elem? profile.custom_endpoints (profile.selected_endpoint - 1))
    else none

-- The endpoints trimmed, without the empty ones and without repetitions of those seen.
unfoldable pub tidy_endpoints : List Bytes → List Bytes → List Bytes
tidy_endpoints seen [] = []
tidy_endpoints seen (url ∷ urls) =
    elim (is_empty (trim url) || any (λ v. bytes_eq v (trim url)) seen) [
      | true ↦ tidy_endpoints seen urls
      | false ↦ trim url ∷ tidy_endpoints (trim url ∷ seen) urls
    ]

next_position : Option ℕ → Option ℕ
next_position none = none
next_position (some n) = some (suc n)

-- `iter().position(|u| *u == url)`
unfoldable pub position : Bytes → List Bytes → Option ℕ
unfolding next_position
position url [] = none
position url (u ∷ us) =
    let rest = next_position (position url us) in if bytes_eq u url then some 0 else rest

-- `map(|p| p + 1).unwrap_or(0)`
after_position : Option ℕ → ℕ
after_position none = 0
after_position (some p) = suc p

unfoldable pub select_again : Option Bytes → List Bytes → ℕ
unfolding position after_position
select_again none endpoints = 0
select_again (some url) endpoints = after_position (position url endpoints)

-- `WalletProfile::normalized`
unfoldable pub normalized : WalletProfile → WalletProfile
unfolding normalize_seed bytes_eq retain_known tidy_book selected_url tidy_endpoints select_again
normalized profile =
    let seed = normalize_seed profile.seed in
    let endpoints = tidy_endpoints [] profile.custom_endpoints in
    record profile {
      seed = if bytes_eq seed profile.seed then profile.seed else seed;
      visible_cc_assets = retain_known profile.visible_cc_assets;
      address_book = tidy_book profile.address_book;
      custom_endpoints = endpoints;
      selected_endpoint = select_again (selected_url profile) endpoints;
    }

-- `WalletProfile::wallet_inputs`
unfoldable pub wallet_inputs : WalletProfile → Bytes → Bool → Outcome WalletError WalletInputs
unfolding validate_seed validate_workchain
wallet_inputs profile endpoint require_signature_id = do
  validate_seed profile.seed
  validate_workchain profile.workchain
  ok (record {
    endpoint = endpoint;
    network_id = profile.network_id;
    workchain = profile.workchain;
    seed = profile.seed;
    require_signature_id = require_signature_id;
  })

-- `AppState::endpoint_display_list`, of the default endpoint and the custom ones
unfoldable pub endpoint_display_list : Option Bytes → List Bytes → List Bytes
endpoint_display_list none custom = custom
endpoint_display_list (some default) custom = default ∷ custom

-- `AppState::resolved_endpoint`, of the default endpoint, the custom ones and the selected index;
-- an index out of range would panic
index_at : List Bytes → ℕ → Outcome WalletError Bytes
unfolding get_elem?
index_at list n = elim (get_elem? list n) [ none ↦ panic | some url ↦ ok url ]

unfoldable pub resolved_endpoint : Option Bytes → List Bytes → ℕ → Outcome WalletError Bytes
unfolding endpoint_display_list is_empty index_at min
resolved_endpoint default custom selected =
    let list = endpoint_display_list default custom in
    if length list == 0 then ok [] else index_at list (min selected (length list - 1))
