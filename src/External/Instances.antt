-- ===== src/External/Instances.antt =====
-- Concrete functions that meet the interfaces of `External`, so that its hypotheses can hold. They
-- are for witnesses and tests, and stand for no code.
use native.Mathlib.Nat.{pow-suc, pow-le-pow_right, le_refl}
use cc_wallet_gui.Prelude.{
  ℕ, zero, suc, ◌+◌, ◌/◌, ◌%◌, ◌^◌, ◌<◌, ◌≤◌, [], ◌∷◌, Option, none, some, true, ◌≡◌, ◌≢◌, ◌↔◌,
  refl, ap, arith, Bytes, ltb, ◌==◌, if◌then◌else◌, all, All, length,
}
use cc_wallet_gui.Decimal.{is_ascii_digit, IsDigit, value, to_decimal}
use cc_wallet_gui.External.{be_value_from, be_value, IsByte, BigUint, Sha256}

abbrev pub parse : Bytes → Option ℕ
parse [] = none
parse (c ∷ s) = if all is_ascii_digit (c ∷ s) then some (value (c ∷ s)) else none

pub all-is_ascii_digit : (s : Bytes) → All IsDigit s → all is_ascii_digit s ≡ true
all-is_ascii_digit [] h = refl
all-is_ascii_digit (c ∷ s) (d, h) = ground (arith, all-is_ascii_digit s h)

pub parse_digits : (s : Bytes) → s ≢ [] → All IsDigit s → parse s ≡ some (value s)
parse_digits [] h d = absurd (h refl)
parse_digits (c ∷ s) h d = ground (arith, all-is_ascii_digit (c ∷ s) d)

unfoldable pub bits_go : ℕ → ℕ → ℕ
bits_go zero n = 0
bits_go (suc fuel) n = let rest = suc (bits_go fuel (n / 2)) in if n == 0 then 0 else rest

pub bits_go_le : (f n k : ℕ) → n < f → (bits_go f n ≤ k) ↔ (n < 2 ^ k)
unfolding bits_go
bits_go_le zero n k h = absurd (omega arith)
bits_go_le (suc f) n zero h = ground arith
bits_go_le (suc f) n (suc k) h = ground (arith, pow-suc 2 k, bits_go_le f (n / 2) k, one_le k)
  where
    one_le : (k : ℕ) → 1 ≤ 2 ^ k
    one_le zero = omega arith
    one_le (suc k) = omega (arith, one_le k, pow-suc 2 k)

unfoldable pub push_be : ℕ → ℕ → Bytes → Bytes
push_be zero n out = out
push_be (suc fuel) n out =
    let rest = push_be fuel (n / 256) ((n % 256) ∷ out) in if ltb n 256 then n ∷ out else rest

pub push_be-All : (f n : ℕ) (out : Bytes) → All IsByte out → All IsByte (push_be f n out)
unfolding push_be
push_be-All zero n out h = h
push_be-All (suc f) n out h = ground (arith, push_be-All f (n / 256) ((n % 256) ∷ out))

pub be_value_from-push_be :
    (f n : ℕ) (out : Bytes) → n < f → be_value_from 0 (push_be f n out) ≡ be_value_from n out
unfolding push_be be_value_from
be_value_from-push_be zero n out h = absurd (omega arith)
be_value_from-push_be (suc f) n out h =
    ground (arith, be_value_from-push_be f (n / 256) ((n % 256) ∷ out))

lt-length-push_be : (f n : ℕ) (out : Bytes) → n < f → length out < length (push_be f n out)
unfolding push_be
lt-length-push_be zero n out h = absurd (omega arith)
lt-length-push_be (suc f) n out h = ground (arith, lt-length-push_be f (n / 256) ((n % 256) ∷ out))

length-push_be :
    (f n k : ℕ) (out : Bytes)
    → n < f
    → (length (push_be f n out) ≤ suc k + length out) ↔ (n < 256 ^ suc k)
unfolding push_be
length-push_be zero n k out h = absurd (omega arith)
length-push_be (suc f) n zero out h =
    ground (arith, lt-length-push_be f (n / 256) ((n % 256) ∷ out))
length-push_be (suc f) n (suc k) out h =
    ground (arith, length-push_be f (n / 256) k ((n % 256) ∷ out), pow-suc 256 (suc k), least k)
  where
    least : (k : ℕ) → 256 ≤ 256 ^ suc k
    least k = pow-le-pow_right {n = 256} (omega arith) {i = 1} {j = suc k} (omega arith)

pub length_be : (n k : ℕ) → 0 < k → (length (push_be (suc n) n []) ≤ k) ↔ (n < 256 ^ k)
length_be n zero h = absurd (omega arith)
length_be n (suc k) h =
    let both = length-push_be (suc n) n k [] (omega arith) in
    (λ l. both.0 (omega arith), λ l. omega (arith, both.1 l))

pub be_value-push_be : (n : ℕ) → be_value (push_be (suc n) n []) ≡ n
unfolding be_value_from
be_value-push_be n = be_value_from-push_be (suc n) n [] (le_refl (suc n))

instance abbrev pub reference_big : BigUint
reference_big = record {
  parse_bytes = parse;
  to_str_radix = to_decimal;
  bits = λ n. bits_go (suc n) n;
  to_bytes_be = λ n. push_be (suc n) n [];
  from_bytes_be = be_value;
  to_u128 = λ n. if ltb n (2 ^ 128) then some n else none;
  parse_bytes_digits = parse_digits;
  to_str_radix_decimal = λ n. refl;
  bits_le = λ n k. bits_go_le (suc n) n k (le_refl (suc n));
  to_bytes_be_bytes = λ n. push_be-All (suc n) n [] tt;
  to_bytes_be_value = be_value-push_be;
  to_bytes_be_length = length_be;
  from_bytes_be_value = λ s h. refl;
  to_u128_lem = λ n. refl;
}

-- The first `k` bytes, filled up with zeros.
abbrev pub pad : ℕ → Bytes → Bytes
pad zero s = []
pad (suc k) [] = 0 ∷ pad k []
pad (suc k) (b ∷ s) = b ∷ pad k s

pub length-pad : (k : ℕ) (s : Bytes) → length (pad k s) ≡ k
length-pad zero s = refl
length-pad (suc k) [] = ap suc (length-pad k [])
length-pad (suc k) (b ∷ s) = ap suc (length-pad k s)

instance abbrev pub reference_sha : Sha256
reference_sha = record { hash = pad 32; hash_length = length-pad 32 }
