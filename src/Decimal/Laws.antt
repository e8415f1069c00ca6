-- ===== src/Decimal/Laws.antt =====
-- Printing and reading of decimal text are inverse on canonical text.
use cc_wallet_gui.Prelude.{
  ℕ, zero, suc, ◌+◌, ◌-◌, ◌*◌, ◌/◌, ◌%◌, ◌<◌, [], ◌∷◌, ◌++◌, false, ◌≡◌, refl, ◌∙◌, arith, Bytes,
  ltb, All,
}
use cc_wallet_gui.Decimal.{IsDigit, value_from, value, push_digits, to_decimal}

pub value_from-push_digits :
    (fuel n : ℕ) (out : Bytes) → n < fuel → value_from 0 (push_digits fuel n out) ≡ value_from n out
unfolding push_digits value_from
value_from-push_digits zero n out h = absurd (omega arith)
value_from-push_digits (suc fuel) n out h =
    ground (arith, value_from-push_digits fuel (n / 10) ((b'0' + n % 10) ∷ out))

-- The text that is printed spells the number.
pub value-to_decimal : (n : ℕ) → value (to_decimal n) ≡ n
unfolding to_decimal
value-to_decimal n = value_from-push_digits (suc n) n [] (omega arith) ∙ (unfold value_from in refl)

pub push_digits-All :
    (fuel n : ℕ) (out : Bytes) → All IsDigit out → All IsDigit (push_digits fuel n out)
unfolding push_digits
push_digits-All zero n out h = h
push_digits-All (suc fuel) n out h =
    ground (arith, push_digits-All fuel (n / 10) ((b'0' + n % 10) ∷ out))

pub to_decimal-All : (n : ℕ) → All IsDigit (to_decimal n)
unfolding to_decimal
to_decimal-All n = push_digits-All (suc n) n [] tt

-- Any fuel above the number gives the same text.
pub push_digits_fuel :
    (f g n : ℕ) (out : Bytes) → n < f → n < g → push_digits f n out ≡ push_digits g n out
unfolding push_digits
push_digits_fuel zero g n out hf hg = absurd (omega arith)
push_digits_fuel (suc f) zero n out hf hg = absurd (omega arith)
push_digits_fuel (suc f) (suc g) n out hf hg =
    ground (arith, push_digits_fuel f g (n / 10) ((b'0' + n % 10) ∷ out))

push_digits_round :
    (f g n c : ℕ) (out : Bytes)
    → 0 < n
    → IsDigit c
    → n * 10 + (c - b'0') < f
    → n < g
    → push_digits f (n * 10 + (c - b'0')) out ≡ push_digits g n (c ∷ out)
unfolding push_digits
push_digits_round zero g n c out p d hf hg = absurd (omega arith)
push_digits_round (suc f) g n c out p d hf hg =
    let m = n * 10 + (c - b'0') in
    let q : m / 10 ≡ n = omega arith in
    let r : b'0' + m % 10 ≡ c = omega arith in
    let big : ltb m 10 ≡ false = ground arith in
    ground (arith, q, r, big, push_digits_fuel f g n (c ∷ out))

pub push_digits-value_from :
    (s : Bytes) (f g n : ℕ) (out : Bytes)
    → All IsDigit s
    → 0 < n
    → value_from n s < f
    → n < g
    → push_digits f (value_from n s) out ≡ push_digits g n (s ++ out)
unfolding value_from
push_digits-value_from [] f g n out h p hf hg = push_digits_fuel f g n out hf hg
push_digits-value_from (c ∷ s) f g n out (d, h) p hf hg =
    let m = n * 10 + (c - b'0') in
    push_digits-value_from s f (suc m) m out h (omega arith) hf (omega arith)
    ∙ push_digits_round (suc m) g n c (s ++ out) p d (omega arith) hg
