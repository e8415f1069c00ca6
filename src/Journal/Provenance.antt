-- ===== src/Journal/Provenance.antt =====
-- journal.rs: where the inputs of a prepared send come from.
use cc_wallet_gui.Prelude.{
  ℕ, ◌+◌, ◌-◌, ◌^◌, List, [], ◌∷◌, Option, none, some, Bool, false, not, ◌&&◌, ◌||◌, if◌then◌else◌,
  ltb, leb, ◌==◌, any, length, Bytes, bytes_eq, ok, ◌>>◌, reject_if, ℤ,
}
use cc_wallet_gui.External.{BigUint, Sha256}
use cc_wallet_gui.Asset.{AssetId}
use cc_wallet_gui.Amount.{AssetAmount, asset_id, u128_checked_add}
use cc_wallet_gui.Ids.{Digest32}
use cc_wallet_gui.Digest.{Reservation, overlap_set_digest}
use cc_wallet_gui.BTreeMap.{has_key}
use cc_wallet_gui.Affordability.{asset_key}
use cc_wallet_gui.Journal.Errors.{invalid_provenance, Journaled, from_digest}
use cc_wallet_gui.Journal.Identity.{validate_identity}

abbrev pub local_send_fee_ceiling_nanos : ℕ
local_send_fee_ceiling_nanos = 1_000_000_000

abbrev pub local_send_fee_headroom_nanos : ℕ
local_send_fee_headroom_nanos = 400_000

-- `u128::saturating_add`
abbrev saturating_add : ℕ → ℕ → ℕ
saturating_add a b = if ltb (a + b) (2 ^ 128) then a + b else 2 ^ 128 - 1

-- `max_native_spendable`; subtraction saturates at 0, as on ℕ
unfoldable pub max_native_spendable : ℕ → ℕ → ℕ
max_native_spendable balance_units fee_nanos =
    balance_units - saturating_add fee_nanos local_send_fee_headroom_nanos

pub record NetworkTimeProvenance : Type 0 where
  pub value : ℕ
  pub source_endpoint : Bytes
  pub request_id : Bytes
  pub observed_at_mono_ms : ℕ

unfoldable pub new_network_time : NetworkTimeProvenance → Journaled NetworkTimeProvenance
unfolding validate_identity
new_network_time t = do
  reject_if (not (validate_identity t.source_endpoint) || not (validate_identity t.request_id))
      (invalid_provenance "network-time endpoint/request identity is noncanonical")
  ok t

pub record PrepareProvenance : Type 0 where
  pub source_endpoint : Bytes
  pub route_id : Bytes
  pub request_ids : List Bytes
  pub observed_at_mono_ms : ℕ
  pub account_state_hash : Digest32
  pub state_init_required : Bool
  pub balances : List AssetAmount
  pub signature_context_hash : Digest32
  pub signature_global_id : ℤ
  pub signature_with_id : Bool
  pub network_time : Option NetworkTimeProvenance
  pub fee_input_hash : Digest32
  pub estimated_fee_native : ℕ
  pub local_fee_ceiling_native : ℕ
  pub authorized_overlap : List Reservation

-- Two equal identities, which a set would hold once.
unfoldable pub has_repeated : List Bytes → Bool
unfolding bytes_eq
has_repeated [] = false
has_repeated (s ∷ rest) = any (bytes_eq s) rest || has_repeated rest

unfoldable pub identities_are_bad : PrepareProvenance → Bool
unfolding validate_identity has_repeated
identities_are_bad p =
    not (validate_identity p.source_endpoint)
    || not (validate_identity p.route_id)
    || length p.request_ids == 0
    || any (λ (id : Bytes). not (validate_identity id)) p.request_ids
    || has_repeated p.request_ids

-- `derived_fee_ceiling.is_some_and(…)`
unfoldable pub within_headroom : ℕ → ℕ → Option ℕ → Bool
within_headroom estimated ceiling none = false
within_headroom estimated ceiling (some maximum) = leb estimated ceiling && leb ceiling maximum

unfoldable pub fee_is_bad : ℕ → ℕ → Bool
unfolding within_headroom u128_checked_add
fee_is_bad estimated ceiling =
    ltb local_send_fee_ceiling_nanos estimated
    || ltb local_send_fee_ceiling_nanos ceiling
    || (not (ceiling == local_send_fee_ceiling_nanos)
        && not (
            within_headroom estimated ceiling
              (u128_checked_add estimated local_send_fee_headroom_nanos)))

-- An asset that was seen before.
unfoldable pub has_repeated_asset : List AssetId → List AssetAmount → Bool
unfolding has_key asset_id
has_repeated_asset seen [] = false
has_repeated_asset seen (a ∷ amounts) =
    has_key (asset_id a) seen || has_repeated_asset (asset_id a ∷ seen) amounts

unfoldable pub network_time_is_bad : PrepareProvenance → Option NetworkTimeProvenance → Bool
unfolding bytes_eq
network_time_is_bad p none = false
network_time_is_bad p (some t) =
    not (bytes_eq t.source_endpoint p.source_endpoint)
    || ltb p.observed_at_mono_ms t.observed_at_mono_ms

module _ ⦃big : BigUint⦄ ⦃sha : Sha256⦄ where
  -- `PrepareProvenance::new`
  unfoldable pub new_provenance : PrepareProvenance → Journaled PrepareProvenance
  unfolding identities_are_bad fee_is_bad has_repeated_asset network_time_is_bad
  new_provenance p = do
    reject_if (identities_are_bad p)
        (invalid_provenance "source/route/request identities are missing or noncanonical")
    reject_if (fee_is_bad p.estimated_fee_native p.local_fee_ceiling_native) (
        invalid_provenance
          "native fee reserve is neither the legacy cap nor a bounded local headroom")
    reject_if (has_repeated_asset [] p.balances)
        (invalid_provenance "fresh balances contain a duplicate asset")
    reject_if (network_time_is_bad p p.network_time)
        (invalid_provenance "network-time provenance is not bound to the prepare endpoint")
    from_digest (overlap_set_digest p.authorized_overlap)
    ok p
