-- ===== src/Amount/Canonical.antt =====
-- Which texts `native_units_from_canonical_decimal` and `CcAmount::try_from_canonical_decimal`
-- accept, and with what result.
use Prim.Native.Nat.{Ordering}
use native.Mathlib.Nat.{pow-le-pow_right}
use mathlib.Core.List.{cons-ne-nil}
use cc_wallet_gui.Prelude.{
  ℕ, suc, ◌-◌, ◌^◌, ◌<◌, ◌≤◌, [], ◌∷◌, some, true, false, ◌&&◌, ◌≡◌, ◌≢◌, ◌↔◌, inl, inr, refl,
  arith, ltb, leb, ◌==◌, all, All, ok, reject_if, Bytes, cmp_bytes, Bool-cases, length, >>=-eq-ok,
  reject_if-eq-ok,
}
use cc_wallet_gui.Decimal.{
  is_ascii_digit, IsDigit, value_from, value, to_decimal, parse_u128, u128_max,
}
use cc_wallet_gui.Decimal.Laws.{value-to_decimal}
use cc_wallet_gui.Decimal.Canonical.{
  IsCanonical, to_decimal-IsCanonical, value-lt-pow, pow-le-value, Agrees, value-Agrees,
}
use cc_wallet_gui.External.{BigUint}
use cc_wallet_gui.Amount.{
  ensure_canonical_decimal, native_units_from_canonical_decimal, cc_max_decimal, is_gt,
  native_out_of_domain, cc_from_canonical_decimal, to_canonical_decimal, native_max_units, CcAmount,
}

pub IsDigit-all : (s : Bytes) → all is_ascii_digit s ≡ true → All IsDigit s
IsDigit-all [] h = tt
IsDigit-all (c ∷ s) h = ground (arith, IsDigit-all s)

pub all-IsDigit : (s : Bytes) → All IsDigit s → all is_ascii_digit s ≡ true
all-IsDigit [] h = refl
all-IsDigit (c ∷ s) (d, h) = ground (arith, all-IsDigit s h)

pub ensure-IsCanonical :
    (s : Bytes) {u : Unit {0}} → ensure_canonical_decimal s ≡ ok u → IsCanonical s
unfolding ensure_canonical_decimal
ensure-IsCanonical [] h = cc
ensure-IsCanonical (c ∷ []) h = ground (arith, IsDigit-all (c ∷ []))
ensure-IsCanonical (c ∷ d ∷ s) h = ground (arith, IsDigit-all (c ∷ d ∷ s))

pub IsCanonical-ensure : (s : Bytes) → IsCanonical s → ensure_canonical_decimal s ≡ ok tt
unfolding ensure_canonical_decimal
IsCanonical-ensure [] h = absurd h
IsCanonical-ensure (c ∷ []) h = ground arith
IsCanonical-ensure (c ∷ d ∷ s) (hc, hs, inl e) = cc
IsCanonical-ensure (c ∷ d ∷ s) (hc, hs, inr p) = ground (arith, all-IsDigit (c ∷ d ∷ s) (hc, hs))

IsCanonical-All : (s : Bytes) → IsCanonical s → All IsDigit s
IsCanonical-All [] h = absurd h
IsCanonical-All (c ∷ s) (hc, hs, _) = (hc, hs)

IsCanonical-ne-nil : (s : Bytes) → IsCanonical s → s ≢ []
IsCanonical-ne-nil [] h = absurd h
IsCanonical-ne-nil (c ∷ s) h = cons-ne-nil c s

parse_u128-value : (s : Bytes) → IsCanonical s → value s ≤ u128_max → parse_u128 s ≡ some (value s)
unfolding parse_u128
parse_u128-value [] h b = absurd h
parse_u128-value (c ∷ s) h b = ground (arith, all-IsDigit (c ∷ s) (h.0, h.1))

-- A text of at most 37 digits fits a u128; a longer canonical one passes 2^120.
short_fits : (s : Bytes) → IsCanonical s → length s ≤ 37 → value s ≤ u128_max
short_fits s h l =
    let grows : 10 ^ length s ≤ 10 ^ 37 =
      pow-le-pow_right {n = 10} (omega arith) {i = length s} {j = 37} l in
    omega (arith, grows, value-lt-pow s (IsCanonical-All s h))

pub fits_short : (s : Bytes) (k : ℕ) → IsCanonical s → value s < 10 ^ suc k → length s ≤ suc k
fits_short s k h l = elim (Bool-cases (leb (length s) (suc k))) [
  | inl short ↦ ground arith
  | inr long ↦ absurd (omega (arith, pow-le-value s k h (ground arith)))
]

-- A text is accepted as native units exactly when it is canonical and spells a number of at most
-- 2^120 - 1, and that number is the result.
pub native_units_from_canonical_decimal_iff :
    (s : Bytes) (n : ℕ)
    → (native_units_from_canonical_decimal s ≡ ok n)
      ↔ (IsCanonical s × (value s ≡ n) × (n ≤ native_max_units))
unfolding native_units_from_canonical_decimal
native_units_from_canonical_decimal_iff s n = (accepted, complete)
  where
    accepted :
        native_units_from_canonical_decimal s ≡ ok n
        → IsCanonical s × (value s ≡ n) × (n ≤ native_max_units)
    accepted h =
        let (u, canonical, rest) = >>=-eq-ok (ensure_canonical_decimal s) _ h in
        let c = ensure-IsCanonical s canonical in
        let (u', short, rest') =
          >>=-eq-ok (reject_if (ltb 37 (length s)) native_out_of_domain) _ rest in
        let fits = short_fits s c (ground (arith, reject_if-eq-ok _ _ short)) in
        ground (arith, c, parse_u128-value s c fits)

    complete :
        IsCanonical s × (value s ≡ n) × (n ≤ native_max_units)
        → native_units_from_canonical_decimal s ≡ ok n
    complete (c, e, b) = ground (
      arith,
      IsCanonical-ensure s c,
      fits_short s 36 c (omega arith),
      parse_u128-value s c (omega arith),
    )

cc_max_decimal-value : value cc_max_decimal ≡ 2 ^ 248 - 1
unfolding value_from
cc_max_decimal-value = refl

cc_max_decimal-All : All IsDigit cc_max_decimal
cc_max_decimal-All = IsDigit-all cc_max_decimal refl

-- The order of the texts of 75 digits decides the bound.
is_gt-Agrees : (o : Ordering) (a b : ℕ) → Agrees o a b → (is_gt o ≡ true) ↔ (b < a)
unfolding is_gt
is_gt-Agrees Ordering.lt a b h = ground arith
is_gt-Agrees Ordering.eq a b h = ground arith
is_gt-Agrees Ordering.gt a b h = ground arith

at_75_digits :
    (s : Bytes)
    → All IsDigit s
    → length s ≡ 75
    → (is_gt (cmp_bytes s cc_max_decimal) ≡ true) ↔ (2 ^ 248 ≤ value s)
at_75_digits s d l =
    let both = is_gt-Agrees _ _ _ (value-Agrees s cc_max_decimal d cc_max_decimal-All l) in
    (
      λ h. omega (arith, both.0 h, cc_max_decimal-value),
      λ h. both.1 (omega (arith, cc_max_decimal-value)),
    )

below_75_digits : (s : Bytes) → IsCanonical s → length s ≤ 74 → value s < 2 ^ 248
below_75_digits s h l =
    let grows : 10 ^ length s ≤ 10 ^ 74 =
      pow-le-pow_right {n = 10} (omega arith) {i = length s} {j = 74} l in
    omega (arith, grows, value-lt-pow s (IsCanonical-All s h))

-- The two tests of the code pass exactly below 2^248.
domain_test :
    (s : Bytes)
    → IsCanonical s
    → ((ltb 75 (length s) ≡ false)
        × ((length s == 75 && is_gt (cmp_bytes s cc_max_decimal)) ≡ false))
      ↔ (value s < 2 ^ 248)
domain_test s c = (
  λ h. elim (Bool-cases (length s == 75)) [
    | inl e ↦ ground (arith, at_75_digits s (IsCanonical-All s c) (ground arith))
    | inr e ↦ below_75_digits s c (ground arith)
  ],
  λ h. (
    ground (arith, fits_short s 74 c (omega arith)),
    elim (Bool-cases (length s == 75)) [
      | inl e ↦ ground (arith, at_75_digits s (IsCanonical-All s c) (ground arith))
      | inr e ↦ ground arith
    ],
  ),
)

module _ ⦃big : BigUint⦄ where
  -- A text is accepted as currency-collection units exactly when it is canonical and spells a
  -- number below 2^248, and that number is the result.
  pub cc_from_canonical_decimal_iff :
      (s : Bytes) (n : CcAmount)
      → (cc_from_canonical_decimal s ≡ ok n) ↔ (IsCanonical s × (value s ≡ n) × (n < 2 ^ 248))
  unfolding cc_from_canonical_decimal
  cc_from_canonical_decimal_iff s n = (accepted, complete)
    where
      accepted : cc_from_canonical_decimal s ≡ ok n → IsCanonical s × (value s ≡ n) × (n < 2 ^ 248)
      accepted h =
          let (u, canonical, rest) = >>=-eq-ok (ensure_canonical_decimal s) _ h in
          let c = ensure-IsCanonical s canonical in
          let parsed = big.parse_bytes_digits s (IsCanonical-ne-nil s c) (IsCanonical-All s c) in
          ground (arith, c, parsed, domain_test s c)

      complete : IsCanonical s × (value s ≡ n) × (n < 2 ^ 248) → cc_from_canonical_decimal s ≡ ok n
      complete (c, e, b) =
          let parsed = big.parse_bytes_digits s (IsCanonical-ne-nil s c) (IsCanonical-All s c) in
          let tests = (domain_test s c).1 (omega arith) in
          ground (arith, IsCanonical-ensure s c, parsed, tests)

  -- An amount below 2^248 is read back from its canonical text.
  pub cc_from_canonical_decimal-to_canonical_decimal :
      (n : CcAmount) → n < 2 ^ 248 → cc_from_canonical_decimal (to_canonical_decimal n) ≡ ok n
  unfolding to_canonical_decimal
  cc_from_canonical_decimal-to_canonical_decimal n h = rw (big.to_str_radix_decimal n) (
      (cc_from_canonical_decimal_iff (to_decimal n) n).1
        (to_decimal-IsCanonical n, value-to_decimal n, h))
