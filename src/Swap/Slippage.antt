-- ===== src/Swap/Slippage.antt =====
-- The slippage text of swap.rs and the steps of the slippage.
use cc_wallet_gui.Prelude.{
  ℕ, zero, suc, ◌+◌, ◌%◌, ◌<◌, ◌≤◌, Option, none, some, Bool, true, false, ◌&&◌, ◌≡◌, refl, arith,
  ◌==◌, ltb, leb, ==_iff, &&-eq-true, ◌⊎◌, inl, inr, Bool-cases,
}
use cc_wallet_gui.Swap.{
  min, max_slippage_bps, parse_slippage_percent, step_slippage_bps, format_slippage_percent,
}

-- A test that holds below a bound, run at every number.
holds_below : ℕ → (ℕ → Bool) → Bool
holds_below zero test = true
holds_below (suc k) test = test k && holds_below k test

holds_below_lem :
    (k : ℕ) (test : ℕ → Bool) (n : ℕ) → holds_below k test ≡ true → n < k → test n ≡ true
unfolding holds_below
holds_below_lem zero test n h l = absurd (omega arith)
holds_below_lem (suc k) test n h l =
    let both = &&-eq-true (test k) (holds_below k test) h in
    elim (Bool-cases (n == k)) [
      | inl e ↦ rw ((==_iff n k).0 e) both.0
      | inr e ↦ holds_below_lem k test n both.1 (ground arith)
    ]

is_some_of : Option ℕ → ℕ → Bool
is_some_of none n = false
is_some_of (some m) n = m == n

is_some_of_sound : (o : Option ℕ) (n : ℕ) → is_some_of o n ≡ true → o ≡ some n
unfolding is_some_of
is_some_of_sound o n h = ground arith

reads_back : ℕ → Bool
reads_back bps = is_some_of (parse_slippage_percent (format_slippage_percent bps)) bps

all_read_back : holds_below 1001 reads_back ≡ true
unfolding holds_below reads_back is_some_of parse_slippage_percent format_slippage_percent
    cc_wallet_gui.Decimal.value_from
all_read_back = refl

-- The text of every slippage in the range, 0 to 1000 hundredths of a percent, is read back as that
-- slippage.
pub parse_slippage_percent-format_slippage_percent :
    (bps : ℕ)
    → bps ≤ max_slippage_bps
    → parse_slippage_percent (format_slippage_percent bps) ≡ some bps
unfolding reads_back
parse_slippage_percent-format_slippage_percent bps h =
    is_some_of_sound _ bps (holds_below_lem 1001 reads_back bps all_read_back (omega arith))

-- A step keeps the slippage between 0 and 1000 and puts it on a multiple of 10. Upwards this is the
-- least multiple of 10 above the slippage, or 1000; downwards it is the greatest one below it, or 0,
-- and 990 from a slippage above 1000.
step_slippage_bps_lem :
    (bps : ℕ)
    → let up = step_slippage_bps bps true in
      let down = step_slippage_bps bps false in
      (up % 10 ≡ 0)
      × (down % 10 ≡ 0)
      × (up ≤ max_slippage_bps)
      × (down ≤ max_slippage_bps)
      × (((bps < max_slippage_bps) × (bps < up) × (up ≤ bps + 10))
          ⊎ ((max_slippage_bps ≤ bps) × (up ≡ max_slippage_bps)))
      × (((bps ≡ 0) × (down ≡ 0))
          ⊎ ((bps ≤ max_slippage_bps) × (down < bps) × (bps ≤ down + 10))
          ⊎ ((max_slippage_bps < bps) × (down ≡ 990)))
unfolding step_slippage_bps min
step_slippage_bps_lem bps = (
  ground arith,
  ground arith,
  ground arith,
  ground arith,
  elim (Bool-cases (ltb bps max_slippage_bps)) [
    | inl e ↦ inl (ground arith)
    | inr e ↦ inr (ground arith)
  ],
  elim (Bool-cases (bps == 0)) [
    | inl e ↦ inl (ground arith)
    | inr e ↦ inr (elim (Bool-cases (leb bps max_slippage_bps)) [
      | inl d ↦ inl (ground arith)
      | inr d ↦ inr (ground arith)
    ])
  ],
)
