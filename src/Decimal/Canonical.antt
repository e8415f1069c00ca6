-- ===== src/Decimal/Canonical.antt =====
-- Canonical decimal text: digits, and no leading zero. It is in bijection with the numbers, and
-- texts of one length are ordered as the numbers that they spell.
use Prim.Native.Nat.{Ordering}
use native.Mathlib.Nat.{pow-suc, pow-le-pow_right, le_trans, mul-le-mul_right}
use cc_wallet_gui.Prelude.{
  ℕ, zero, suc, ◌+◌, ◌-◌, ◌*◌, ◌/◌, ◌%◌, ◌^◌, ◌<◌, ◌≤◌, [], ◌∷◌, append-nil, ◌≡◌, refl, ap, ◌∙◌,
  arith, Bytes, ◌⊎◌, inl, inr, All, length, cmp_bytes,
}
use cc_wallet_gui.Decimal.{IsDigit, value_from, value, push_digits, to_decimal}
use cc_wallet_gui.Decimal.Laws.{push_digits-All, push_digits-value_from}

abbrev pub IsCanonical : Bytes → Type 0
IsCanonical [] = ⊥
IsCanonical (c ∷ s) = IsDigit c × All IsDigit s × ((s ≡ []) ⊎ (b'0' < c))

first_round : (c : ℕ) (s : Bytes) → value (c ∷ s) ≡ value_from (c - b'0') s
unfolding value_from
first_round c s = ap (λ k. value_from k s) (omega arith)

-- A canonical text is the print of the number that it spells.
pub to_decimal-value : (s : Bytes) → IsCanonical s → to_decimal (value s) ≡ s
unfolding to_decimal value_from push_digits
to_decimal-value [] h = absurd h
to_decimal-value (c ∷ []) h = ground arith
to_decimal-value (c ∷ d ∷ s) (hc, hs, inl e) = cc
to_decimal-value (c ∷ d ∷ s) (hc, hs, inr p) =
    let n = c - b'0' in
    let v = value_from n (d ∷ s) in
    rw (first_round c (d ∷ s)) (
      push_digits-value_from (d ∷ s) (suc v) (suc n) n [] hs (omega arith) (omega arith)
        (omega arith)
      ∙ ground (arith, append-nil s))

abbrev HeadPositive : Bytes → Type 0
HeadPositive [] = ⊥
HeadPositive (c ∷ s) = (b'0' < c) × (c ≤ b'9')

push_digits-HeadPositive :
    (fuel n : ℕ) (out : Bytes) → 0 < n → n < fuel → HeadPositive (push_digits fuel n out)
unfolding push_digits
push_digits-HeadPositive zero n out p h = absurd (omega arith)
push_digits-HeadPositive (suc fuel) n out p h =
    ground (arith, push_digits-HeadPositive fuel (n / 10) ((b'0' + n % 10) ∷ out))

IsCanonical-of_positive : (s : Bytes) → HeadPositive s → All IsDigit s → IsCanonical s
IsCanonical-of_positive [] h d = h
IsCanonical-of_positive (c ∷ s) h (d, ds) = (d, ds, inr h.0)

-- What is printed is canonical.
pub to_decimal-IsCanonical : (n : ℕ) → IsCanonical (to_decimal n)
unfolding to_decimal push_digits
to_decimal-IsCanonical zero = ground arith
to_decimal-IsCanonical (suc n) =
    IsCanonical-of_positive _
      (push_digits-HeadPositive (suc (suc n)) (suc n) [] (omega arith) (omega arith))
      (push_digits-All (suc (suc n)) (suc n) [] tt)

-- A bound on what follows a digit, one place further to the left.
below_next_place :
    (n c p v : ℕ) → IsDigit c → v < (n * 10 + (c - b'0') + 1) * p → v < (n + 1) * (p * 10)
below_next_place n c p v d h = grind arith

above_next_place : (n d p v : ℕ) → (n * 10 + d) * p ≤ v → n * (p * 10) ≤ v
above_next_place n d p v h = omega arith

pub value_from-lt : (s : Bytes) (n : ℕ) → All IsDigit s → value_from n s < (n + 1) * 10 ^ length s
unfolding value_from
value_from-lt [] n h = omega arith
value_from-lt (c ∷ s) n (d, h) =
    rw (pow-suc 10 (length s))
      (below_next_place n c (10 ^ length s) _ d (value_from-lt s (n * 10 + (c - b'0')) h))

pub le-value_from : (s : Bytes) (n : ℕ) → n * 10 ^ length s ≤ value_from n s
unfolding value_from
le-value_from [] n = omega arith
le-value_from (c ∷ s) n =
    rw (pow-suc 10 (length s))
      (above_next_place n (c - b'0') (10 ^ length s) _ (le-value_from s (n * 10 + (c - b'0'))))

pub value-lt-pow : (s : Bytes) → All IsDigit s → value s < 10 ^ length s
value-lt-pow s h = omega (arith, value_from-lt s 0 h)

-- A canonical text of more than one digit is at least the power of ten of its first place.
pub pow-le-value : (s : Bytes) (k : ℕ) → IsCanonical s → suc k < length s → 10 ^ suc k ≤ value s
unfolding value_from
pow-le-value [] k h l = absurd h
pow-le-value (c ∷ []) k h l = absurd (omega arith)
pow-le-value (c ∷ d ∷ s) k (hc, hs, inl e) l = cc
pow-le-value (c ∷ d ∷ s) k (hc, hs, inr p) l =
    let lower = le-value_from (d ∷ s) (c - b'0') in
    let grows : 10 ^ suc k ≤ 10 ^ suc (length s) = pow-le-pow_right (omega arith) (omega arith) in
    let scaled : 10 ^ suc (length s) ≤ (c - b'0') * 10 ^ suc (length s) = grind arith in
    omega (arith, le_trans grows (le_trans scaled lower), first_round c (d ∷ s))

-- On digit texts of one length the byte order is the order of the numbers.
cmp_bytes-digits :
    (s t : Bytes) (n m : ℕ)
    → All IsDigit s
    → All IsDigit t
    → length s ≡ length t
    → n < m
    → value_from n s < value_from m t
cmp_bytes-digits s t n m hs ht e h =
    let q : 10 ^ length s ≡ 10 ^ length t = ap (λ k. 10 ^ k) e in
    let scaled : (n + 1) * 10 ^ length t ≤ m * 10 ^ length t =
      mul-le-mul_right (10 ^ length t) (omega arith) in
    let below : value_from n s < (n + 1) * 10 ^ length t = rw (← q) (value_from-lt s n hs) in
    le_trans below (le_trans scaled (le-value_from t m))

-- What an order of two texts says of the numbers that they spell.
abbrev pub Agrees : Ordering → ℕ → ℕ → Type 0
Agrees Ordering.lt a b = a < b
Agrees Ordering.eq a b = a ≡ b
Agrees Ordering.gt a b = b < a

cmp_bytes-Agrees :
    (s t : Bytes) (n : ℕ)
    → All IsDigit s
    → All IsDigit t
    → length s ≡ length t
    → Agrees (cmp_bytes s t) (value_from n s) (value_from n t)
unfolding cmp_bytes value_from
cmp_bytes-Agrees [] [] n hs ht e = refl
cmp_bytes-Agrees [] (_ ∷ _) n hs ht e = absurd (omega arith)
cmp_bytes-Agrees (_ ∷ _) [] n hs ht e = absurd (omega arith)
cmp_bytes-Agrees (a ∷ s) (b ∷ t) n (ha, hs) (hb, ht) e = ground (
  arith,
  cmp_bytes-Agrees s t (n * 10 + (a - b'0')) hs ht (omega arith),
  cmp_bytes-digits s t (n * 10 + (a - b'0')) (n * 10 + (b - b'0')) hs ht (omega arith),
  cmp_bytes-digits t s (n * 10 + (b - b'0')) (n * 10 + (a - b'0')) ht hs (omega arith),
)

pub value-Agrees :
    (s t : Bytes)
    → All IsDigit s
    → All IsDigit t
    → length s ≡ length t
    → Agrees (cmp_bytes s t) (value s) (value t)
value-Agrees s t = cmp_bytes-Agrees s t 0
