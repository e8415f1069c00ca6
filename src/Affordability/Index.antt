-- ===== src/Affordability/Index.antt =====
-- affordability.rs: what `index_by_asset` and the set of relevant assets hold.
use cc_wallet_gui.Prelude.{
  List, [], ◌∷◌, Option, none, some, Bool, true, false, ◌||◌, ◌≡◌, ◌≢◌, refl, ◌↔◌, inl, inr, arith,
  subst, All, ok, panic, Bool-cases, Option-cases, map,
}
use cc_wallet_gui.BTreeMap.{Map, get, insert, insert_key, has_key, get-insert, has_key-insert_key}
use cc_wallet_gui.Asset.{AssetId, asset_eq, asset_eq_iff}
use cc_wallet_gui.Amount.{AssetAmount, asset_id}
use cc_wallet_gui.Amount.Arithmetic.{InDomain}
use cc_wallet_gui.Digest.{Reservation}
use cc_wallet_gui.Affordability.{
  asset_key, AssetAffordability, is_affordable, index_from, reserved_assets, requested_assets,
}
use cc_wallet_gui.Affordability.Spec.{outstanding, total, kept, find_amount, units_or_zero}
use cc_wallet_gui.Affordability.Assess.{IsFiled, Filed, outcome_of}

abbrev pub or_else : Option AssetAmount → Option AssetAmount → Option AssetAmount
or_else (some a) o = some a
or_else none o = o

pub insert-Filed :
    (k : AssetId) (a : AssetAmount) (m : Map AssetId AssetAmount)
    → IsFiled k a
    → Filed m
    → Filed (insert k a m)
unfolding insert
insert-Filed k a [] h hm = (h, tt)
insert-Filed k a ((j, b) ∷ m) h (hj, hm) = ground (arith, asset_eq_iff k j, insert-Filed k a m h hm)

-- An accepted index is filed, and looks up what the list holds first.
abbrev pub Indexes : List AssetAmount → Map AssetId AssetAmount → Map AssetId AssetAmount → Type 0
Indexes l m m' =
    Filed m' × ((asset : AssetId) → get asset m' ≡ or_else (get asset m) (find_amount asset l))

pub Indexes-nil : (m m' : Map AssetId AssetAmount) → m ≡ m' → Filed m → Indexes [] m m'
unfolding find_amount
Indexes-nil m m' e hm = (subst Filed e hm, λ asset. rw (← e) (or_else-none (get asset m)))
  where
    or_else-none : (o : Option AssetAmount) → o ≡ or_else o none
    or_else-none none = refl
    or_else-none (some a) = refl

pub Indexes-cons :
    (a : AssetAmount) (l : List AssetAmount) (m m' : Map AssetId AssetAmount)
    → get (asset_id a) m ≡ none
    → Indexes l (insert (asset_id a) a m) m'
    → Indexes (a ∷ l) m m'
unfolding find_amount
Indexes-cons a l m m' fresh (hm, h) = (
  hm,
  λ asset.
      ground
        (arith, fresh, h asset, get-insert (asset_id a) asset a m, asset_eq_iff asset (asset_id a)),
)

pub index_from-Indexes :
    (l : List AssetAmount) (m m' : Map AssetId AssetAmount)
    → index_from m l ≡ ok m'
    → Filed m
    → All InDomain l
    → Indexes l m m'
unfolding index_from
index_from-Indexes [] m m' h hm hl = Indexes-nil m m' (cc) hm
index_from-Indexes (a ∷ l) m m' h hm (ha, hl) = elim (Option-cases (get (asset_id a) m)) [
  | inl fresh ↦ Indexes-cons a l m m' fresh (
      index_from-Indexes l (insert (asset_id a) a m) m' (rw (fresh, index_from) at h)
        (insert-Filed (asset_id a) a m (refl, ha) hm) hl)
  | inr (b, seen) ↦ cc (rw (seen, index_from) at h)
]

pub index_from-ne-panic :
    (l : List AssetAmount) (m : Map AssetId AssetAmount) → index_from m l ≢ panic
unfolding index_from
index_from-ne-panic [] m h = cc
index_from-ne-panic (a ∷ l) m h = ground (arith, index_from-ne-panic l (insert (asset_id a) a m))

unfoldable pub reserves : AssetId → List Reservation → Bool
unfolding asset_eq
reserves asset [] = false
reserves asset (row ∷ rows) = asset_eq asset (asset_id row.amount) || reserves asset rows

pub has_key-reserved_assets :
    (asset : AssetId) (rows : List Reservation) (s : List AssetId)
    → has_key asset (reserved_assets rows s) ≡ (reserves asset rows || has_key asset s)
unfolding reserved_assets reserves
has_key-reserved_assets asset [] s = refl
has_key-reserved_assets asset (row ∷ rows) s = ground (
  arith,
  has_key-reserved_assets asset rows (insert_key (asset_id row.amount) s),
  has_key-insert_key (asset_id row.amount) asset s,
)

pub has_key-requested_assets :
    (asset : AssetId) (m : Map AssetId AssetAmount) (s : List AssetId)
    → has_key asset (requested_assets m s) ≡ false
    → (units_or_zero (get asset m) ≡ 0) × (has_key asset s ≡ false)
unfolding requested_assets get
has_key-requested_assets asset [] s h = (refl, h)
has_key-requested_assets asset ((k, a) ∷ m) s h =
    ground
      (arith, has_key-requested_assets asset m (insert_key k s) h, has_key-insert_key k asset s)

pub unreserved :
    (asset : AssetId) (rows : List Reservation)
    → has_key asset (reserved_assets rows []) ≡ false
    → reserves asset rows ≡ false
unfolding has_key
unreserved asset rows h = ground (arith, has_key-reserved_assets asset rows [])

pub outstanding_zero :
    (asset : AssetId) (overlap rows : List Reservation)
    → reserves asset rows ≡ false
    → outstanding asset overlap rows ≡ 0
unfolding outstanding reserves
outstanding_zero asset overlap [] h = refl
outstanding_zero asset overlap (row ∷ rows) h = ground (
  arith,
  asset_eq_iff asset (asset_id row.amount),
  asset_eq_iff (asset_id row.amount) asset,
  outstanding_zero asset overlap rows,
)

unfoldable pub total_outcome :
    Map AssetId AssetAmount
    → List Reservation
    → List Reservation
    → Map AssetId AssetAmount
    → AssetId
    → AssetAffordability
total_outcome balances rows overlap requested asset =
    outcome_of asset (units_or_zero (get asset balances)) (units_or_zero (get asset requested))
      (outstanding asset overlap rows) (total asset rows) (kept asset overlap rows)

pub is_affordable_iff :
    (f : AssetId → AssetAffordability) (assets : List AssetId)
    → (is_affordable (map f assets) ≡ true)
      ↔ ((asset : AssetId) → has_key asset assets ≡ true → (f asset).sufficient ≡ true)
unfolding is_affordable has_key
is_affordable_iff f [] = (λ h asset k. cc, λ h. refl)
is_affordable_iff f (a ∷ assets) =
    let (there, back) = is_affordable_iff f assets in
    (
      λ h asset k. elim (Bool-cases (asset_eq asset a)) [
        | inl e ↦ ground (arith, asset_eq_iff asset a)
        | inr n ↦ ground (arith, there (ground arith) asset)
      ],
      λ h. ground (arith, h a, asset_eq_iff a a, back (λ asset k. h asset (ground arith))),
    )
