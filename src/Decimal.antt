-- ===== src/Decimal.antt =====
-- Decimal text: what `u128::to_string`, `str::parse::<u128>` and `u8::is_ascii_digit` of the
-- standard library do.
pub mod Laws
pub mod Canonical
use cc_wallet_gui.Prelude.{
  ℕ, zero, suc, ◌+◌, ◌-◌, ◌*◌, ◌/◌, ◌%◌, ◌^◌, ◌<◌, ◌≤◌, List, [], ◌∷◌, Option, none, some, Bool,
  true, false, ◌&&◌, ◌≡◌, refl, Bytes, codes, ltb, leb, ◌==◌, if◌then◌else◌, all, All,
}

abbrev pub is_ascii_digit : ℕ → Bool
is_ascii_digit c = leb b'0' c && leb c b'9'

abbrev pub IsDigit : ℕ → Type 0
IsDigit c = (b'0' ≤ c) × (c ≤ b'9')

-- The number that digits spell behind `n`.
unfoldable pub value_from : ℕ → Bytes → ℕ
value_from n [] = n
value_from n (c ∷ s) = value_from (n * 10 + (c - b'0')) s

abbrev pub value : Bytes → ℕ
value s = value_from 0 s

-- Writes the digits of `n` in front of `out`; the fuel bounds the rounds.
unfoldable pub push_digits : ℕ → ℕ → Bytes → Bytes
push_digits zero n out = out
push_digits (suc fuel) n out =
    let rest = push_digits fuel (n / 10) ((b'0' + n % 10) ∷ out) in
    if ltb n 10 then (b'0' + n) ∷ out else rest

-- `u128::to_string`
unfoldable pub to_decimal : ℕ → Bytes
unfolding push_digits
to_decimal n = push_digits (suc n) n []

abbrev pub u128_max : ℕ
u128_max = 2 ^ 128 - 1

digits_u128 : Bytes → Option ℕ
unfolding value_from
digits_u128 [] = none
digits_u128 (c ∷ s) =
    if all is_ascii_digit (c ∷ s) && leb (value (c ∷ s)) u128_max
    then some (value (c ∷ s))
    else none

-- `str::parse::<u128>`, which takes a leading plus sign
unfoldable pub parse_u128 : Bytes → Option ℕ
unfolding digits_u128
parse_u128 [] = none
parse_u128 (c ∷ s) = if c == b'+' then digits_u128 s else digits_u128 (c ∷ s)

zero_prints : to_decimal 0 ≡ codes "0"
unfolding to_decimal
zero_prints = refl

u128_max_prints : to_decimal u128_max ≡ codes "340282366920938463463374607431768211455"
unfolding to_decimal
u128_max_prints = refl

u128_max_parses : parse_u128 (codes "340282366920938463463374607431768211455") ≡ some u128_max
unfolding parse_u128
u128_max_parses = refl
