-- ===== src/Profile/Snapshot.antt =====
-- `crates/cc-wallet-domain/src/profile.rs`: the inputs of an endpoint, the observed network time and
-- the snapshot of a wallet's balances.
use cc_wallet_gui.Prelude.{
  ℕ, [], Option, none, some, not, ◌||◌, ltb, ◌==◌, ==_iff, Outcome, ok, err, panic, ◌>>=◌, ◌>>◌,
  reject_if, Bytes, bytes_eq, codes, ℤ, pos,
}
use cc_wallet_gui.Strings.{trim}
use cc_wallet_gui.Asset.{AssetId, native, currency_collection, WalletError, validation, amount}
use cc_wallet_gui.Amount.{
  is_empty, AssetAmount, cc_amount, make_native, CcAmount, cc_zero, native_max_units,
}
use cc_wallet_gui.BTreeMap.{Key, Map, get}
use cc_wallet_gui.External.Addresses.{StdAddrs}
use cc_wallet_gui.Requests.{canonicalize_recipient}

instance abbrev pub u32_key : Key ℕ
u32_key = record { eq = λ a b. a == b; lt = λ a b. ltb a b; eq_iff = ==_iff }

pub record EndpointAddressInputs : Type 0 where
  pub endpoint : Bytes
  pub address : Bytes

module _ ⦃addrs : StdAddrs⦄ where
  -- `EndpointAddressInputs::new`
  unfoldable pub new_endpoint_inputs : Bytes → Bytes → Outcome WalletError EndpointAddressInputs
  unfolding is_empty trim bytes_eq canonicalize_recipient
  new_endpoint_inputs endpoint address = do
    reject_if (is_empty endpoint || not (bytes_eq (trim endpoint) endpoint))
        (validation "endpoint/address inputs require a nonempty canonical endpoint")
    canonical ← canonicalize_recipient address
    ok (record { endpoint = endpoint; address = canonical })

-- The monotonic instant is a number.
pub record ObservedNetworkTime : Type 0 where
  pub value : ℕ
  pub source_endpoint : Bytes
  pub request_id : Bytes
  pub observed_at_mono : ℕ

-- `ObservedNetworkTime::new`
unfoldable pub new_network_time : ℕ → Bytes → Bytes → ℕ → Outcome WalletError ObservedNetworkTime
unfolding trim bytes_eq is_empty
new_network_time value source_endpoint request_id observed_at_mono = do
  reject_if
      (not (bytes_eq (trim source_endpoint) source_endpoint)
        || is_empty source_endpoint
        || not (bytes_eq (trim request_id) request_id)
        || is_empty request_id)
      (validation "network-time source and request id must be nonempty canonical strings")
  ok (record {
    value = value;
    source_endpoint = source_endpoint;
    request_id = request_id;
    observed_at_mono = observed_at_mono;
  })

pub record WalletSnapshot : Type 0 where
  pub address : Bytes
  pub global_id : ℤ
  pub status : Bytes
  pub native_balance : ℕ
  pub extra_balance : Map ℕ CcAmount
  pub last_trans_lt : ℕ
  pub last_message_ms : ℕ
  pub observed_network_time : Option ObservedNetworkTime

unfoldable pub new_with_network_time :
    Bytes
    → ℤ
    → Bytes
    → ℕ
    → Map ℕ CcAmount
    → ℕ
    → Option ObservedNetworkTime
    → Outcome WalletError WalletSnapshot
new_with_network_time address global_id status native_balance extra_balance last_trans_lt time = do
  reject_if (ltb native_max_units native_balance)
      (amount "native snapshot balance exceeds the protocol maximum")
  ok (record {
    address = address;
    global_id = global_id;
    status = status;
    native_balance = native_balance;
    extra_balance = extra_balance;
    last_trans_lt = last_trans_lt;
    last_message_ms = 0;
    observed_network_time = time;
  })

-- `WalletSnapshot::new`
unfoldable pub new_snapshot :
    Bytes → ℤ → Bytes → ℕ → Map ℕ CcAmount → ℕ → Outcome WalletError WalletSnapshot
unfolding new_with_network_time
new_snapshot address global_id status native_balance extra_balance last_trans_lt =
    new_with_network_time address global_id status native_balance extra_balance last_trans_lt none

unfoldable pub with_last_message_ms : WalletSnapshot → ℕ → WalletSnapshot
with_last_message_ms s ms = record s { last_message_ms = ms }

-- `expect`
unfoldable pub expect {ℓ κ ε} : {E : Type ℓ} {F : Type ε} {A : Type κ} → Outcome E A → Outcome F A
expect (ok a) = ok a
expect (err _) = panic
expect panic = panic

-- `WalletSnapshot::empty`
unfoldable pub empty_snapshot : Bytes → Outcome WalletError WalletSnapshot
unfolding new_snapshot expect
empty_snapshot address = expect (new_snapshot address (pos 0) (codes "Unknown") 0 [] 0)

-- `replace_balances`, which leaves the snapshot as it is when it fails
unfoldable pub replace_balances :
    WalletSnapshot → ℕ → Map ℕ CcAmount → Outcome WalletError WalletSnapshot
replace_balances s native_balance extra_balance = do
  reject_if (ltb native_max_units native_balance)
      (amount "native snapshot balance exceeds the protocol maximum")
  ok (record s { native_balance = native_balance; extra_balance = extra_balance })

-- `unwrap_or_else(CcAmount::zero)`
or_zero : Option CcAmount → CcAmount
or_zero none = cc_zero
or_zero (some units) = units

unfoldable pub balance_for : WalletSnapshot → AssetId → Outcome WalletError AssetAmount
unfolding make_native expect get or_zero
balance_for s native = expect (make_native s.native_balance)
balance_for s (currency_collection id) = ok (cc_amount id (or_zero (get id s.extra_balance)))
