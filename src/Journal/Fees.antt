-- ===== src/Journal/Fees.antt =====
-- journal.rs, `PrepareProvenance::new`: the fee that a prepared send may reserve.
use cc_wallet_gui.Prelude.{
  ℕ, ◌+◌, ◌≤◌, List, [], ◌∷◌, false, ◌≡◌, ◌≢◌, ◌⊎◌, arith, ok, map, All, Distinct, reject_if,
  >>=-eq-ok, reject_if-eq-ok,
}
use cc_wallet_gui.BTreeMap.{has_key}
use cc_wallet_gui.Asset.{AssetId, asset_eq_iff}
use cc_wallet_gui.Affordability.{asset_key}
use cc_wallet_gui.External.{BigUint, Sha256}
use cc_wallet_gui.Amount.{AssetAmount, asset_id, u128_checked_add}
use cc_wallet_gui.Digest.{overlap_set_digest}
use cc_wallet_gui.Journal.Errors.{invalid_provenance, from_digest}
use cc_wallet_gui.Journal.Provenance.{
  PrepareProvenance, local_send_fee_ceiling_nanos, local_send_fee_headroom_nanos, fee_is_bad,
  within_headroom, identities_are_bad, has_repeated_asset, network_time_is_bad, new_provenance,
}

fee_is_bad-bounds :
    (estimated ceiling : ℕ)
    → fee_is_bad estimated ceiling ≡ false
    → (estimated ≤ ceiling)
      × (ceiling ≤ local_send_fee_ceiling_nanos)
      × ((ceiling ≡ local_send_fee_ceiling_nanos)
          ⊎ (ceiling ≤ estimated + local_send_fee_headroom_nanos))
unfolding fee_is_bad within_headroom u128_checked_add
fee_is_bad-bounds estimated ceiling h = ground arith

-- None of the assets is among those seen.
abbrev Unseen : List AssetId → List AssetId → Type 0
Unseen seen ids = All (λ (id : AssetId). has_key id seen ≡ false) ids

Unseen-cons :
    (k : AssetId) (seen ids : List AssetId)
    → Unseen (k ∷ seen) ids
    → All (λ (id : AssetId). id ≢ k) ids × Unseen seen ids
unfolding has_key
Unseen-cons k seen [] h = (tt, tt)
Unseen-cons k seen (id ∷ ids) (h, hs) =
    let (apart, unseen) = Unseen-cons k seen ids hs in
    (((λ e. ground (arith, asset_eq_iff id k)), apart), (ground arith, unseen))

has_repeated_asset-Distinct :
    (seen : List AssetId) (l : List AssetAmount)
    → has_repeated_asset seen l ≡ false
    → Unseen seen (map asset_id l) × Distinct (map asset_id l)
unfolding has_repeated_asset
has_repeated_asset-Distinct seen [] h = (tt, tt)
has_repeated_asset-Distinct seen (a ∷ l) h =
    let (free, d) = has_repeated_asset-Distinct (asset_id a ∷ seen) l (ground arith) in
    let (apart, unseen) = Unseen-cons (asset_id a) seen (map asset_id l) free in
    ((ground arith, unseen), (apart, d))

module _ ⦃big : BigUint⦄ ⦃sha : Sha256⦄ where
  -- If `PrepareProvenance::new` returns, then it returns what it was given, the estimated fee is at
  -- most the fee ceiling and the ceiling at most 10^9 nanos, the ceiling is 10^9 nanos or at most
  -- 400000 nanos above the estimate, and the balances are of different assets.
  pub new_provenance-bounds :
      (p q : PrepareProvenance)
      → new_provenance p ≡ ok q
      → (p ≡ q)
        × (p.estimated_fee_native ≤ p.local_fee_ceiling_native)
        × (p.local_fee_ceiling_native ≤ local_send_fee_ceiling_nanos)
        × ((p.local_fee_ceiling_native ≡ local_send_fee_ceiling_nanos)
            ⊎ (p.local_fee_ceiling_native ≤ p.estimated_fee_native + local_send_fee_headroom_nanos))
        × Distinct (map asset_id p.balances)
  unfolding new_provenance
  new_provenance-bounds p q h =
      let (u1, a, h1) =
        >>=-eq-ok
          (reject_if (identities_are_bad p)
            (invalid_provenance "source/route/request identities are missing or noncanonical"))
          _ h in
      let (u2, b, h2) =
        >>=-eq-ok
          (reject_if (fee_is_bad p.estimated_fee_native p.local_fee_ceiling_native) (
            invalid_provenance
              "native fee reserve is neither the legacy cap nor a bounded local headroom"))
          _ h1 in
      let (u3, c, h3) =
        >>=-eq-ok
          (reject_if (has_repeated_asset [] p.balances)
            (invalid_provenance "fresh balances contain a duplicate asset"))
          _ h2 in
      let (u4, d, h4) =
        >>=-eq-ok
          (reject_if (network_time_is_bad p p.network_time)
            (invalid_provenance "network-time provenance is not bound to the prepare endpoint"))
          _ h3 in
      let (u5, e, h5) = >>=-eq-ok (from_digest (overlap_set_digest p.authorized_overlap)) _ h4 in
      let (low, high, near) =
        fee_is_bad-bounds p.estimated_fee_native p.local_fee_ceiling_native
          (reject_if-eq-ok _ _ b) in
      (cc, low, high, near, (has_repeated_asset-Distinct [] p.balances (reject_if-eq-ok _ _ c)).1)
