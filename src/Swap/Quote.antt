-- ===== src/Swap/Quote.antt =====
-- What a quote of swap.rs promises: the pool keeps its product, and the numbers stay in range.
use native.Mathlib.Nat.{
  div-mul-le_self, mul-le-mul_left, mul-le-mul_right, mul-le-mul, le_trans, lt_of_le_of_lt,
  zero-div, le_of_mul-le-mul_right,
}
use cc_wallet_gui.Prelude.{
  ℕ, ◌+◌, ◌-◌, ◌*◌, ◌/◌, ◌^◌, ◌<◌, ◌≤◌, some, ◌≡◌, ◌⊎◌, inl, inr, refl, arith, ◌==◌, if◌then◌else◌,
  and_then-eq-some,
}
use cc_wallet_gui.Amount.{u128_checked_add}
use cc_wallet_gui.Swap.{
  min, fee_denom, u128_checked_mul, expected_out, min_out_after_slippage, SwapQuote, quote_swap,
}

-- What a pool gives out if its product must not fall.
abbrev pub KeepsProduct : ℕ → ℕ → ℕ → ℕ → Type 0
KeepsProduct reserve_in reserve_out paid out =
    (out ≤ reserve_out) × (reserve_in * reserve_out ≤ (reserve_in + paid) * (reserve_out - out))

product_left :
    (rin rout f q : ℕ) → q * (rin + f) ≤ rout * f → q ≤ rout → rin * rout ≤ (rin + f) * (rout - q)
product_left rin rout f q h l = grind arith

quotient_le : (rout f d q : ℕ) → 0 < d → q * d ≤ rout * f → f ≤ d → q ≤ rout
quotient_le rout f d q p h l = le_of_mul-le-mul_right (le_trans h (mul-le-mul_left rout l)) p

KeepsProduct-pay : (rin rout f : ℕ) → 0 < rin → KeepsProduct rin rout f (rout * f / (rin + f))
KeepsProduct-pay rin rout f p =
    let d = rin + f in
    let q = rout * f / d in
    let h : q * d ≤ rout * f = div-mul-le_self (rout * f) d in
    let l : q ≤ rout = quotient_le rout f d q (omega arith) h (omega arith) in
    (l, product_left rin rout f q h l)

-- Paying more keeps the product all the more.
KeepsProduct-more :
    (rin rout f dx q : ℕ) → f ≤ dx → KeepsProduct rin rout f q → KeepsProduct rin rout dx q
KeepsProduct-more rin rout f dx q l (h, k) =
    (h, le_trans k (mul-le-mul_right (rout - q) (omega arith)))

-- The fee is never negative.
fee_le : (dx fee : ℕ) → dx * (fee_denom - fee) / fee_denom ≤ dx
fee_le dx fee =
    let m : dx * (fee_denom - fee) ≤ dx * fee_denom = mul-le-mul_left dx (omega arith) in
    omega (arith, div-mul-le_self (dx * (fee_denom - fee)) fee_denom)

expected_out-cases :
    (rin rout dx fee out : ℕ)
    → expected_out rin rout dx fee ≡ some out
    → (out ≡ 0)
      ⊎ ((0 < rin)
          × (out
              ≡ rout
                * (dx * (fee_denom - fee) / fee_denom)
                / (rin + dx * (fee_denom - fee) / fee_denom)))
unfolding expected_out u128_checked_mul u128_checked_add
expected_out-cases rin rout dx fee out h = ground arith

expected_out-KeepsProduct :
    (rin rout dx fee out : ℕ)
    → expected_out rin rout dx fee ≡ some out
    → KeepsProduct rin rout dx out
expected_out-KeepsProduct rin rout dx fee out h =
    let f = dx * (fee_denom - fee) / fee_denom in
    elim (expected_out-cases rin rout dx fee out h) [
      | inl e ↦ rw e (omega arith, mul-le-mul {n₁ = rin} (omega arith) (omega arith))
      | inr (p, e) ↦ rw e (
          KeepsProduct-more rin rout f dx (rout * f / (rin + f)) (fee_le dx fee)
            (KeepsProduct-pay rin rout f p))
    ]

-- The amount is the least that a slippage in parts of ten thousand leaves of it, rounded down, and
-- nothing if the slippage is the whole or more.
min_out_after_slippage-bounds :
    (out slippage least : ℕ)
    → min_out_after_slippage out slippage ≡ some least
    → (least ≤ out)
      × (least * fee_denom ≤ out * (fee_denom - slippage))
      × (out * (fee_denom - slippage) < (least + 1) * fee_denom)
unfolding min_out_after_slippage min u128_checked_mul
min_out_after_slippage-bounds out slippage least h =
    let m : out * (fee_denom - slippage) ≤ out * fee_denom = mul-le-mul_left out (omega arith) in
    ground arith

-- A quote that is returned: what is paid and the parameters are those given; the pool, which takes
-- what is paid and gives what is quoted, gives at most its reserve and does not lower its product;
-- and the least amount to accept is what the slippage, in parts of ten thousand, leaves of the quoted
-- amount, rounded down, where a slippage above ten thousand leaves nothing.
pub quote_swap-KeepsProduct :
    (paid rin rout fee slippage : ℕ) (q : SwapQuote)
    → quote_swap paid rin rout fee slippage ≡ some q
    → (q.in_units ≡ paid)
      × (q.fee_bps ≡ fee)
      × (q.slippage_bps ≡ slippage)
      × KeepsProduct rin rout paid q.out_units
      × (q.min_out_units ≤ q.out_units)
      × (q.min_out_units * fee_denom ≤ q.out_units * (fee_denom - slippage))
      × (q.out_units * (fee_denom - slippage) < (q.min_out_units + 1) * fee_denom)
unfolding quote_swap
quote_swap-KeepsProduct paid rin rout fee slippage q h =
    let (out, e, h₁) = and_then-eq-some (expected_out rin rout paid fee) _ h in
    let (least, d, h₂) = and_then-eq-some (min_out_after_slippage out slippage) _ h₁ in
    let out_is : q.out_units ≡ out = cc in
    let least_is : q.min_out_units ≡ least = cc in
    let bounds = min_out_after_slippage-bounds out slippage least d in
    rw (out_is, least_is)
      (cc, cc, cc, expected_out-KeepsProduct rin rout paid fee out e, bounds.0, bounds.1, bounds.2)

-- What is paid out, on numbers of any size.
exact_out : ℕ → ℕ → ℕ → ℕ
exact_out rin rout f = if rin == 0 then 0 else rout * f / (rin + f)

expected_out-eq-exact_out :
    (rin rout dx fee : ℕ)
    → fee < fee_denom
    → dx * fee_denom < 2 ^ 128
    → rout * dx < 2 ^ 128
    → rin + dx < 2 ^ 128
    → expected_out rin rout dx fee ≡ some (exact_out rin rout (dx * (fee_denom - fee) / fee_denom))
unfolding expected_out u128_checked_mul u128_checked_add exact_out
expected_out-eq-exact_out rin rout dx fee f p r t =
    let m : dx * (fee_denom - fee) ≤ dx * fee_denom = mul-le-mul_left dx (omega arith) in
    let g = dx * (fee_denom - fee) / fee_denom in
    let k : rout * g ≤ rout * dx = mul-le-mul_left rout (fee_le dx fee) in
    let z : 0 / rin ≡ 0 = zero-div rin in ground (arith, fee_le dx fee)

min_out_after_slippage_returns :
    (out slippage : ℕ)
    → out * fee_denom < 2 ^ 128
    → (least : ℕ) × (min_out_after_slippage out slippage ≡ some least)
unfolding min_out_after_slippage min u128_checked_mul
min_out_after_slippage_returns out slippage s =
    let kept = fee_denom - min slippage fee_denom in
    let m : out * kept ≤ out * fee_denom = mul-le-mul_left out (omega arith) in
    (out * kept / fee_denom, ground arith)

quote_of :
    (paid rin rout fee slippage out least : ℕ)
    → expected_out rin rout paid fee ≡ some out
    → min_out_after_slippage out slippage ≡ some least
    → (q : SwapQuote) × (quote_swap paid rin rout fee slippage ≡ some q)
unfolding quote_swap
quote_of paid rin rout fee slippage out least e d = (
  record {
    in_units = paid;
    out_units = out;
    min_out_units = least;
    fee_bps = fee;
    slippage_bps = slippage;
  },
  rw (e, d) refl,
)

-- A quote is returned if the fee is below the whole, and if ten thousand times what is paid, its
-- product with the reserve that pays out, ten thousand times this reserve, and its sum with the other
-- reserve are below 2 ^ 128.
pub quote_swap_returns :
    (paid rin rout fee slippage : ℕ)
    → fee < fee_denom
    → paid * fee_denom < 2 ^ 128
    → rout * paid < 2 ^ 128
    → rout * fee_denom < 2 ^ 128
    → rin + paid < 2 ^ 128
    → (q : SwapQuote) × (quote_swap paid rin rout fee slippage ≡ some q)
unfolding quote_swap
quote_swap_returns paid rin rout fee slippage f p r s t =
    let out = exact_out rin rout (paid * (fee_denom - fee) / fee_denom) in
    let e = expected_out-eq-exact_out rin rout paid fee f p r t in
    let pays : out ≤ rout = (expected_out-KeepsProduct rin rout paid fee out e).0 in
    let (least, d) =
      min_out_after_slippage_returns out slippage
        (lt_of_le_of_lt (mul-le-mul_right fee_denom pays) s) in
    quote_of paid rin rout fee slippage out least e d
