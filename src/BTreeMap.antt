-- ===== src/BTreeMap.antt =====
-- `BTreeMap` and `BTreeSet` of the standard library: association lists in the order of their keys.
use cc_wallet_gui.Prelude.{
  List, [], ◌∷◌, Option, none, some, Bool, true, false, ◌||◌, ◌≡◌, ◌↔◌, refl, arith, if◌then◌else◌,
}

pub record Key {ℓ} (K : Type ℓ) : Type ℓ where
  pub eq : K → K → Bool
  pub lt : K → K → Bool
  pub eq_iff : (a b : K) → (eq a b ≡ true) ↔ (a ≡ b)

abbrev pub Map {ℓ κ} : Type ℓ → Type κ → Type (ℓ ⊔ κ)
Map K V = List (K × V)

module _ {ℓ κ} {K : Type ℓ} {V : Type κ} ⦃key : Key K⦄ where
  unfoldable pub get : K → Map K V → Option V
  get k [] = none
  get k ((j, v) ∷ m) = if key.eq k j then some v else get k m

  unfoldable pub insert : K → V → Map K V → Map K V
  insert k v [] = (k, v) ∷ []
  insert k v ((j, w) ∷ m) =
      if key.eq k j
      then (j, v) ∷ m
      else if key.lt k j
      then (k, v) ∷ (j, w) ∷ m
      else (j, w) ∷ insert k v m

  unfoldable pub remove : K → Map K V → Map K V
  remove k [] = []
  remove k ((j, w) ∷ m) = let rest = remove k m in if key.eq k j then rest else (j, w) ∷ rest

  unfoldable pub contains_key : K → Map K V → Bool
  contains_key k [] = false
  contains_key k ((j, v) ∷ m) = key.eq k j || contains_key k m

  pub get-insert :
      (k j : K) (v : V) (m : Map K V)
      → get j (insert k v m) ≡ (if key.eq j k then some v else get j m)
  unfolding get insert
  get-insert k j v [] = refl
  get-insert k j v ((i, w) ∷ m) =
      ground (arith, key.eq_iff k i, key.eq_iff j i, key.eq_iff j k, get-insert k j v m)

  pub get-remove :
      (k j : K) (m : Map K V) → get j (remove k m) ≡ (if key.eq j k then none else get j m)
  unfolding get remove
  get-remove k j [] = ground arith
  get-remove k j ((i, w) ∷ m) =
      ground (arith, key.eq_iff k i, key.eq_iff j i, key.eq_iff j k, get-remove k j m)

module _ {ℓ} {K : Type ℓ} ⦃key : Key K⦄ where
  -- a `BTreeSet`
  unfoldable pub insert_key : K → List K → List K
  insert_key k [] = k ∷ []
  insert_key k (j ∷ s) =
      if key.eq k j then j ∷ s else if key.lt k j then k ∷ j ∷ s else j ∷ insert_key k s

  unfoldable pub has_key : K → List K → Bool
  has_key k [] = false
  has_key k (j ∷ s) = key.eq k j || has_key k s

  pub has_key-insert_key :
      (k j : K) (s : List K) → has_key j (insert_key k s) ≡ (key.eq j k || has_key j s)
  unfolding has_key insert_key
  has_key-insert_key k j [] = refl
  has_key-insert_key k j (i ∷ s) =
      ground (arith, key.eq_iff k i, key.eq_iff j i, key.eq_iff j k, has_key-insert_key k j s)
