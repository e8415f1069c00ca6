-- ===== src/Affordability/Theorems.antt =====
-- affordability.rs: when `evaluate_affordability` calls a send affordable.
use cc_wallet_gui.Prelude.{
  List, [], ◌∷◌, true, not, ◌≡◌, ◌≢◌, refl, ap, ◌↔◌, inl, inr, arith, All, ok, panic, reject_if,
  Bool-cases, >>=-eq-ok, map, >>=-ne-panic, leb→le, le→leb,
}
use cc_wallet_gui.External.{BigUint}
use cc_wallet_gui.BTreeMap.{Map, get, has_key}
use cc_wallet_gui.Asset.{AssetId}
use cc_wallet_gui.Amount.{AssetAmount}
use cc_wallet_gui.Amount.Arithmetic.{InDomain}
use cc_wallet_gui.Digest.{Reservation}
use cc_wallet_gui.Affordability.{
  asset_key, duplicate_reservation, duplicate_overlap, overlap_row_not_reserved,
  AffordabilityReport, is_affordable, index_by_asset, has_duplicate_rows, all_reserved,
  reserved_assets, requested_assets,
}
use cc_wallet_gui.Affordability.Evaluate.{assess_all, evaluate_affordability}
use cc_wallet_gui.Affordability.Spec.{units_or_zero, RowsInDomain, Fits}
use cc_wallet_gui.Affordability.Assess.{Filed, assess_lem}
use cc_wallet_gui.Affordability.Index.{
  Indexes, index_from-Indexes, index_from-ne-panic, has_key-requested_assets, unreserved,
  outstanding_zero, total_outcome, is_affordable_iff,
}

module _ ⦃big : BigUint⦄ where
  pub assess_all_lem :
      (balances : Map AssetId AssetAmount) (rows overlap : List Reservation)
      (requested : Map AssetId AssetAmount) (assets : List AssetId)
      → Filed balances
      → Filed requested
      → RowsInDomain rows
      → assess_all balances rows overlap requested assets
        ≡ ok (map (total_outcome balances rows overlap requested) assets)
  unfolding assess_all total_outcome
  assess_all_lem balances rows overlap requested [] hb hn hr = refl
  assess_all_lem balances rows overlap requested (asset ∷ assets) hb hn hr = rw (
    assess_lem balances rows overlap requested asset hb hn hr,
    assess_all_lem balances rows overlap requested assets hb hn hr,
  )

  -- An evaluation that returns has checked its arguments, and reports one outcome for each asset
  -- that is reserved or requested.
  record Evaluated (balance_list : List AssetAmount) (rows overlap : List Reservation)
      (requested_list : List AssetAmount) (report : AffordabilityReport) : Type 0 where
    balances : Map AssetId AssetAmount
    requested : Map AssetId AssetAmount
    indexed : Indexes balance_list [] balances
    asked : Indexes requested_list [] requested
    reported :
        report
        ≡ map
            (total_outcome balances rows overlap requested)
            (requested_assets requested (reserved_assets rows []))

  evaluate-Evaluated :
      (balance_list : List AssetAmount) (rows overlap : List Reservation)
      (requested_list : List AssetAmount) (report : AffordabilityReport)
      → All InDomain balance_list
      → RowsInDomain rows
      → All InDomain requested_list
      → evaluate_affordability balance_list rows overlap requested_list ≡ ok report
      → Evaluated balance_list rows overlap requested_list report
  unfolding evaluate_affordability
  evaluate-Evaluated balance_list rows overlap requested_list report hb hr hn h =
      let (bs, b_ok, h1) = >>=-eq-ok (index_by_asset balance_list) _ h in
      let (qs, q_ok, h2) = >>=-eq-ok (index_by_asset requested_list) _ h1 in
      let (u, d1, h3) =
        >>=-eq-ok (reject_if (has_duplicate_rows rows) duplicate_reservation) _ h2 in
      let (u', d2, h4) =
        >>=-eq-ok (reject_if (has_duplicate_rows overlap) duplicate_overlap) _ h3 in
      let (u'', d3, h5) =
        >>=-eq-ok (reject_if (not (all_reserved rows overlap)) overlap_row_not_reserved) _ h4 in
      finish bs qs (index_from-Indexes balance_list [] bs b_ok tt hb)
        (index_from-Indexes requested_list [] qs q_ok tt hn) h5
    where
      finish :
          (bs qs : Map AssetId AssetAmount)
          → Indexes balance_list [] bs
          → Indexes requested_list [] qs
          → assess_all bs rows overlap qs (requested_assets qs (reserved_assets rows []))
            ≡ ok report
          → Evaluated balance_list rows overlap requested_list report
      finish bs qs ib iq h = record {
        balances = bs;
        requested = qs;
        indexed = ib;
        asked = iq;
        reported = cc (
          h,
          assess_all_lem bs rows overlap qs (requested_assets qs (reserved_assets rows [])) ib.0
              iq.0 hr,
        );
      }

  affordable-Fits :
      {balance_list : List AssetAmount} {rows overlap : List Reservation}
      {requested_list : List AssetAmount} {report : AffordabilityReport}
      → Evaluated balance_list rows overlap requested_list report
      → is_affordable report ≡ true
      → Fits balance_list rows overlap requested_list
  unfolding total_outcome get
  affordable-Fits {balance_list} {rows} {overlap} {requested_list} {report} v h asset =
      let f = total_outcome v.balances rows overlap v.requested in
      let assets = requested_assets v.requested (reserved_assets rows []) in
      let every = (is_affordable_iff f assets).0 (rw v.reported at h) asset in
      let q = ap units_or_zero (v.asked.1 asset) in
      let b = ap units_or_zero (v.indexed.1 asset) in
      elim (Bool-cases (has_key asset assets)) [
        | inl k ↦ let enough = leb→le _ _ (every k) in omega (arith, enough, q, b)
        | inr n ↦
            let (no_request, not_reserved) =
              has_key-requested_assets asset v.requested (reserved_assets rows []) n in
            let none_left =
              outstanding_zero asset overlap rows (unreserved asset rows not_reserved) in
            omega (arith, no_request, none_left, q, b)
      ]

  Fits-affordable :
      {balance_list : List AssetAmount} {rows overlap : List Reservation}
      {requested_list : List AssetAmount} {report : AffordabilityReport}
      → Evaluated balance_list rows overlap requested_list report
      → Fits balance_list rows overlap requested_list
      → is_affordable report ≡ true
  unfolding total_outcome get
  Fits-affordable {balance_list} {rows} {overlap} {requested_list} {report} v h =
      let f = total_outcome v.balances rows overlap v.requested in
      let assets = requested_assets v.requested (reserved_assets rows []) in
      rw v.reported (
        (is_affordable_iff f assets).1 (λ asset k.
          let q = ap units_or_zero (v.asked.1 asset) in
          let b = ap units_or_zero (v.indexed.1 asset) in
          le→leb _ _ (omega (arith, h asset, q, b))))

  -- For amounts in the domain, an evaluation that returns calls the send affordable exactly when,
  -- for every asset, the reservations that the overlap does not excuse and the requested amount
  -- together are at most the balance.
  pub is_affordable-evaluate :
      (balances : List AssetAmount) (rows overlap : List Reservation) (requested : List AssetAmount)
      (report : AffordabilityReport)
      → All InDomain balances
      → RowsInDomain rows
      → All InDomain requested
      → evaluate_affordability balances rows overlap requested ≡ ok report
      → (is_affordable report ≡ true) ↔ Fits balances rows overlap requested
  is_affordable-evaluate balances rows overlap requested report hb hr hn h =
      let v = evaluate-Evaluated balances rows overlap requested report hb hr hn h in
      (affordable-Fits v, Fits-affordable v)

  -- For amounts in the domain the evaluation never panics, whatever the lists hold.
  pub evaluate_affordability-ne-panic :
      (balances : List AssetAmount) (rows overlap : List Reservation) (requested : List AssetAmount)
      → All InDomain balances
      → RowsInDomain rows
      → All InDomain requested
      → evaluate_affordability balances rows overlap requested ≢ panic
  unfolding evaluate_affordability
  evaluate_affordability-ne-panic balances rows overlap requested hb hr hn =
      >>=-ne-panic _ _ (index_from-ne-panic balances []) λ bs b_ok.
        >>=-ne-panic _ _ (index_from-ne-panic requested []) λ qs q_ok.
          let ib = index_from-Indexes balances [] bs b_ok tt hb in
          let iq = index_from-Indexes requested [] qs q_ok tt hn in
          ground (arith, returns bs qs ib.0 iq.0)
    where
      returns :
          (bs qs : Map AssetId AssetAmount)
          → Filed bs
          → Filed qs
          → assess_all bs rows overlap qs (requested_assets qs (reserved_assets rows [])) ≢ panic
      returns bs qs hbs hqs e = cc (
        e,
        assess_all_lem bs rows overlap qs (requested_assets qs (reserved_assets rows [])) hbs hqs
            hr,
      )
