-- ===== src/Affordability/Returns.antt =====
-- affordability.rs: on which arguments `evaluate_affordability` returns a report.
use cc_wallet_gui.Prelude.{
  List, [], ◌∷◌, none, true, false, not, ◌≡◌, ◌≢◌, ◌↔◌, refl, ◌∙◌, sym, arith, all, any, All, ok,
  map, inl, inr, Distinct, any-All, all-Mem, reject_if, reject_if-eq-ok, >>=-eq-ok, Option-cases,
  bytes_eq_iff, Bool-cases,
}
use mathlib.Core.List.{Mem}
use cc_wallet_gui.External.{BigUint}
use cc_wallet_gui.BTreeMap.{Map, get, insert, get-insert}
use cc_wallet_gui.Asset.{AssetId, asset_eq, asset_eq_iff}
use cc_wallet_gui.Amount.{AssetAmount, asset_id, amount_eq_iff}
use cc_wallet_gui.Amount.Arithmetic.{InDomain}
use cc_wallet_gui.Digest.{Reservation, ReservationKind, kind_eq, reservation_eq, contains}
use cc_wallet_gui.Affordability.{
  asset_key, AffordabilityReport, duplicate_reservation, duplicate_overlap,
  overlap_row_not_reserved, index_from, index_by_asset, has_duplicate_rows, all_reserved,
  reserved_assets, requested_assets,
}
use cc_wallet_gui.Affordability.Evaluate.{assess_all, evaluate_affordability}
use cc_wallet_gui.Affordability.Spec.{RowsInDomain}
use cc_wallet_gui.Affordability.Index.{index_from-Indexes}
use cc_wallet_gui.Affordability.Theorems.{assess_all_lem}

kind_eq_iff : (a b : ReservationKind) → (kind_eq a b ≡ true) ↔ (a ≡ b)
unfolding kind_eq
kind_eq_iff a b = ground arith

reservation_eq_iff : (a b : Reservation) → (reservation_eq a b ≡ true) ↔ (a ≡ b)
unfolding reservation_eq
reservation_eq_iff a b = ground (
  arith,
  bytes_eq_iff a.record_id b.record_id,
  amount_eq_iff a.amount b.amount,
  kind_eq_iff a.kind b.kind,
)

contains-any :
    (rows : List Reservation) (row : Reservation)
    → contains rows row ≡ any (λ (r : Reservation). reservation_eq r row) rows
unfolding contains
contains-any [] row = refl
contains-any (r ∷ rows) row = rw (contains-any rows row) refl

has_duplicate_rows_iff :
    (rows : List Reservation) → (has_duplicate_rows rows ≡ false) ↔ Distinct rows
unfolding has_duplicate_rows
has_duplicate_rows_iff [] = (λ h. tt, λ h. refl)
has_duplicate_rows_iff (row ∷ rows) =
    let (there, back) = has_duplicate_rows_iff rows in
    let (absent, free) = any-All reservation_eq reservation_eq_iff row rows in
    let same = contains-any rows row in
    (
      λ h. (absent (ground (arith, same)), there (ground arith)),
      λ (n, h). ground (arith, same, free n, back h),
    )

all_reserved_iff :
    (rows overlap : List Reservation)
    → (all_reserved rows overlap ≡ true) ↔ All (λ (row : Reservation). Mem row rows) overlap
unfolding all_reserved
all_reserved_iff rows overlap =
    let (there, back) = all-Mem reservation_eq reservation_eq_iff rows overlap in
    (λ h. there (sym (same overlap) ∙ h), λ h. same overlap ∙ back h)
  where
    same :
        (l : List Reservation)
        → all_reserved rows l
          ≡ all (λ (x : Reservation). any (λ (y : Reservation). reservation_eq y x) rows) l
    same [] = refl
    same (x ∷ l) = rw (contains-any rows x, same l) refl

-- An index has none of these assets.
abbrev Unindexed : Map AssetId AssetAmount → List AssetId → Type 0
Unindexed m ids = All (λ (id : AssetId). get id m ≡ none) ids

Unindexed-nil : (ids : List AssetId) → Unindexed [] ids
unfolding get
Unindexed-nil [] = tt
Unindexed-nil (id ∷ ids) = (refl, Unindexed-nil ids)

get-insert-none :
    (k id : AssetId) (a : AssetAmount) (m : Map AssetId AssetAmount)
    → (get id (insert k a m) ≡ none) ↔ ((id ≢ k) × (get id m ≡ none))
get-insert-none k id a m = elim (Bool-cases (asset_eq id k)) [
  | inl e ↦ ground (arith, get-insert k id a m, asset_eq_iff id k)
  | inr n ↦ ground (arith, get-insert k id a m, asset_eq_iff id k)
]

Unindexed-insert :
    (k : AssetId) (a : AssetAmount) (m : Map AssetId AssetAmount) (ids : List AssetId)
    → Unindexed (insert k a m) ids ↔ (All (λ (id : AssetId). id ≢ k) ids × Unindexed m ids)
Unindexed-insert k a m [] = (λ h. (tt, tt), λ h. tt)
Unindexed-insert k a m (id ∷ ids) =
    let (there, back) = Unindexed-insert k a m ids in
    let (split, join) = get-insert-none k id a m in
    (
      λ (h, hs). (((split h).0, (there hs).0), ((split h).1, (there hs).1)),
      λ ((n, ns), (g, gs)). (join (n, g), back (ns, gs)),
    )

index_from-fresh :
    (a : AssetAmount) (l : List AssetAmount) (m : Map AssetId AssetAmount)
    → get (asset_id a) m ≡ none
    → index_from m (a ∷ l) ≡ index_from (insert (asset_id a) a m) l
unfolding index_from
index_from-fresh a l m fresh = rw (fresh, index_from)

index_from_returns :
    (l : List AssetAmount) (m : Map AssetId AssetAmount)
    → Unindexed m (map asset_id l)
    → Distinct (map asset_id l)
    → (m' : Map AssetId AssetAmount) × (index_from m l ≡ ok m')
unfolding index_from
index_from_returns [] m h d = (m, refl)
index_from_returns (a ∷ l) m (fresh, h) (d, ds) =
    let (m', done) =
      index_from_returns l (insert (asset_id a) a m)
        ((Unindexed-insert (asset_id a) a m (map asset_id l)).1 (d, h)) ds in
    (m', index_from-fresh a l m fresh ∙ done)

index_from-Distinct :
    (l : List AssetAmount) (m m' : Map AssetId AssetAmount)
    → index_from m l ≡ ok m'
    → Unindexed m (map asset_id l) × Distinct (map asset_id l)
unfolding index_from
index_from-Distinct [] m m' h = (tt, tt)
index_from-Distinct (a ∷ l) m m' h = elim (Option-cases (get (asset_id a) m)) [
  | inl fresh ↦
      let (free, ds) =
        index_from-Distinct l (insert (asset_id a) a m) m'
          (sym (index_from-fresh a l m fresh) ∙ h) in
      let (d, hs) = (Unindexed-insert (asset_id a) a m (map asset_id l)).0 free in
      ((fresh, hs), (d, ds))
  | inr (b, seen) ↦ cc (rw (seen, index_from) at h)
]

-- No asset twice, no row twice, and an overlap of reserved rows.
abbrev pub WellFormed :
    List AssetAmount → List Reservation → List Reservation → List AssetAmount → Type 0
WellFormed balances rows overlap requested =
    Distinct (map asset_id balances)
    × Distinct (map asset_id requested)
    × Distinct rows
    × Distinct overlap
    × All (λ (row : Reservation). Mem row rows) overlap

module _ ⦃big : BigUint⦄ where
  evaluate-assess_all :
      (balances : List AssetAmount) (rows overlap : List Reservation) (requested : List AssetAmount)
      (bs qs : Map AssetId AssetAmount) (report : AffordabilityReport)
      → index_from [] balances ≡ ok bs
      → index_from [] requested ≡ ok qs
      → has_duplicate_rows rows ≡ false
      → has_duplicate_rows overlap ≡ false
      → all_reserved rows overlap ≡ true
      → assess_all bs rows overlap qs (requested_assets qs (reserved_assets rows [])) ≡ ok report
      → evaluate_affordability balances rows overlap requested ≡ ok report
  unfolding evaluate_affordability index_by_asset
  evaluate-assess_all balances rows overlap requested bs qs report b_ok q_ok d1 d2 d3 done =
      rw (b_ok, q_ok, d1, d2, d3) done

  evaluate-WellFormed :
      (balances : List AssetAmount) (rows overlap : List Reservation) (requested : List AssetAmount)
      (report : AffordabilityReport)
      → evaluate_affordability balances rows overlap requested ≡ ok report
      → WellFormed balances rows overlap requested
  unfolding evaluate_affordability index_by_asset
  evaluate-WellFormed balances rows overlap requested report h =
      let (bs, b_ok, h1) = >>=-eq-ok (index_from [] balances) _ h in
      let (qs, q_ok, h2) = >>=-eq-ok (index_from [] requested) _ h1 in
      let (u1, a1, h3) =
        >>=-eq-ok (reject_if (has_duplicate_rows rows) duplicate_reservation) _ h2 in
      let (u2, a2, h4) =
        >>=-eq-ok (reject_if (has_duplicate_rows overlap) duplicate_overlap) _ h3 in
      let (u3, a3, h5) =
        >>=-eq-ok (reject_if (not (all_reserved rows overlap)) overlap_row_not_reserved) _ h4 in
      (
        (index_from-Distinct balances [] bs b_ok).1,
        (index_from-Distinct requested [] qs q_ok).1,
        (has_duplicate_rows_iff rows).0 (reject_if-eq-ok _ _ a1),
        (has_duplicate_rows_iff overlap).0 (reject_if-eq-ok _ _ a2),
        (all_reserved_iff rows overlap).0 (ground (arith, reject_if-eq-ok _ _ a3)),
      )

  evaluate_returns :
      (balances : List AssetAmount) (rows overlap : List Reservation) (requested : List AssetAmount)
      → All InDomain balances
      → RowsInDomain rows
      → All InDomain requested
      → WellFormed balances rows overlap requested
      → (report : AffordabilityReport) × (evaluate_affordability balances rows overlap requested
          ≡ ok report)
  evaluate_returns balances rows overlap requested hb hr hn (db, dn, d1, d2, d3) =
      let (bs, b_ok) = index_from_returns balances [] (Unindexed-nil _) db in
      let (qs, q_ok) = index_from_returns requested [] (Unindexed-nil _) dn in
      let ib = index_from-Indexes balances [] bs b_ok tt hb in
      let iq = index_from-Indexes requested [] qs q_ok tt hn in
      let done =
        assess_all_lem bs rows overlap qs (requested_assets qs (reserved_assets rows [])) ib.0 iq.0
          hr in
      (
        _,
        evaluate-assess_all balances rows overlap requested bs qs _ b_ok q_ok
            ((has_duplicate_rows_iff rows).1 d1) ((has_duplicate_rows_iff overlap).1 d2)
            ((all_reserved_iff rows overlap).1 d3) done,
      )

  -- For amounts in the domain, `evaluate_affordability` returns a report exactly if the balances are
  -- of different assets, the requested amounts are of different assets, the reservations are
  -- different, the rows of the overlap are different, and each row of the overlap is one of the
  -- reservations.
  pub evaluate_affordability_returns :
      (balances : List AssetAmount) (rows overlap : List Reservation) (requested : List AssetAmount)
      → All InDomain balances
      → RowsInDomain rows
      → All InDomain requested
      → ((report : AffordabilityReport) × (evaluate_affordability balances rows overlap requested
            ≡ ok report))
        ↔ WellFormed balances rows overlap requested
  evaluate_affordability_returns balances rows overlap requested hb hr hn = (
    λ (report, h). evaluate-WellFormed balances rows overlap requested report h,
    evaluate_returns balances rows overlap requested hb hr hn,
  )
