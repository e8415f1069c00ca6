-- ===== src/Profile/Balances.antt =====
-- The snapshots that the program can hold, and their balances.
use cc_wallet_gui.Prelude.{ℕ, ◌≤◌, Option, ◌≡◌, refl, arith, ok, Bytes, ℤ}
use cc_wallet_gui.Asset.{AssetId, native, currency_collection}
use cc_wallet_gui.Amount.{
  AssetAmount, CcAmount, native_amount, make_native, asset_id, native_max_units,
}
use cc_wallet_gui.BTreeMap.{Map}
use cc_wallet_gui.Profile.Snapshot.{
  ObservedNetworkTime, WalletSnapshot, new_with_network_time, empty_snapshot, with_last_message_ms,
  replace_balances, balance_for,
}

-- What the constructors return, and what the methods and assignments to the public fields make of
-- it; the balances are private.
pub data Reachable : WalletSnapshot → Type 0 where
  created :
      {s : WalletSnapshot} (address : Bytes) (global_id : ℤ) (status : Bytes) (units : ℕ)
      (extra : Map ℕ CcAmount) (lt : ℕ) (time : Option ObservedNetworkTime)
      → new_with_network_time address global_id status units extra lt time ≡ ok s
      → Reachable s
  emptied : {s : WalletSnapshot} (address : Bytes) → empty_snapshot address ≡ ok s → Reachable s
  replaced :
      {s t : WalletSnapshot} (units : ℕ) (extra : Map ℕ CcAmount)
      → Reachable s
      → replace_balances s units extra ≡ ok t
      → Reachable t
  stamped : {s : WalletSnapshot} (ms : ℕ) → Reachable s → Reachable (with_last_message_ms s ms)
  edited :
      {s : WalletSnapshot} (address : Bytes) (global_id : ℤ) (status : Bytes) (lt : ℕ)
      → Reachable s
      → Reachable (record s {
        address = address;
        global_id = global_id;
        status = status;
        last_trans_lt = lt;
      })

Reachable-native_balance : (s : WalletSnapshot) → Reachable s → s.native_balance ≤ native_max_units
unfolding new_with_network_time empty_snapshot replace_balances with_last_message_ms
Reachable-native_balance s (created address global_id status units extra lt time h) = ground arith
Reachable-native_balance s (emptied address h) = ground arith
Reachable-native_balance t (replaced units extra r h) = ground arith
Reachable-native_balance _ (stamped {s} ms r) = Reachable-native_balance s r
Reachable-native_balance _ (edited {s} address global_id status lt r) = Reachable-native_balance s r

-- A snapshot that the program can reach has a balance for each asset: `balance_for` does not panic,
-- and the amount that it returns is of the asset asked for.
pub Reachable-balance_for :
    (s : WalletSnapshot)
    → Reachable s
    → (asset : AssetId)
    → (balance : AssetAmount) × (balance_for s asset ≡ ok balance) × (asset_id balance ≡ asset)
unfolding balance_for make_native asset_id
Reachable-balance_for s r native =
    let bound = Reachable-native_balance s r in (native_amount s.native_balance, ground arith, refl)
Reachable-balance_for s r (currency_collection id) = (_, refl, refl)
