-- ===== src/Clock.antt =====
-- `crates/cc-wallet-domain/src/validator_clock.rs`: the rounds of the validators and the windows of
-- their elections. The angles of the drawn clock are floating-point numbers and are left out.
pub mod Elections
use cc_wallet_gui.Prelude.{
  ℕ, zero, suc, ◌+◌, ◌-◌, ◌*◌, ◌/◌, ◌%◌, ◌^◌, ◌<◌, ◌≤◌, [], ◌∷◌, ◌++◌, Option, none, some, Bool,
  true, false, not, ◌&&◌, ◌≡◌, ◌≢◌, ◌↔◌, refl, arith, String, ltb, leb, ◌==◌, if◌then◌else◌, Bytes,
  codes,
}
use cc_wallet_gui.Decimal.{to_decimal}
use cc_wallet_gui.Swap.{min}

pub data RoundColor : Type 0 where
  blue green : RoundColor

unfoldable pub color_name : RoundColor → String
color_name blue = "BLUE"
color_name green = "GREEN"

unfoldable pub is_green : RoundColor → Bool
is_green blue = false
is_green green = true

unfoldable pub of_round : ℕ → RoundColor
of_round round_id = if round_id % 2 == 0 then blue else green

pub record ValidatorCycle : Type 0 where
  pub validators_elected_for : ℕ
  pub elections_start_before : ℕ
  pub elections_end_before : ℕ
  pub current_utime_since : ℕ
  pub current_utime_until : ℕ
  pub next_utime_until : Option ℕ

-- The fields that are not angles.
pub record ClockDisplay : Type 0 where
  pub round_id : ℕ
  pub round_color : RoundColor
  pub elections_open : Bool
  pub next_round_color : RoundColor
  pub round_ends_in : Bytes
  pub elections_value : String
  pub elections_countdown : Bytes

abbrev pub u32_max : ℕ
u32_max = 2 ^ 32 - 1

-- `u32::saturating_add`
unfoldable pub saturating_add : ℕ → ℕ → ℕ
unfolding min
saturating_add a b = min (a + b) u32_max

-- `max(1)`
unfoldable pub at_least_one : ℕ → ℕ
at_least_one n = if n == 0 then 1 else n

unfoldable pub unwrap_or : Option ℕ → ℕ → ℕ
unwrap_or none d = d
unwrap_or (some n) d = n

unfoldable pub fmt_duration : ℕ → Bytes
unfolding to_decimal
fmt_duration secs =
    let h = secs / 3600 in
    let m = secs % 3600 / 60 in
    let s = secs % 60 in
    if ltb 0 h
    then to_decimal h
      ++ (codes "h " ++ (to_decimal m ++ (codes "m " ++ (to_decimal s ++ codes "s"))))
    else if ltb 0 m
    then to_decimal m ++ (codes "m " ++ (to_decimal s ++ codes "s"))
    else to_decimal s ++ codes "s"

-- The locals of `display`: the start and the end of the elections shown.
unfoldable pub elections_window : ValidatorCycle → ℕ → ℕ × ℕ
unfolding at_least_one unwrap_or saturating_add
elections_window cycle now =
    let round_duration = at_least_one (cycle.current_utime_until - cycle.current_utime_since) in
    let anchor = unwrap_or cycle.next_utime_until cycle.current_utime_until in
    let raw_start = anchor - cycle.elections_start_before in
    let raw_end = anchor - cycle.elections_end_before in
    let shift = if ltb raw_end now then round_duration else 0 in
    (saturating_add raw_start shift, saturating_add raw_end shift)

-- The subtractions saturate at zero, and the round's successor wraps at 2 ^ 64.
unfoldable pub display : ValidatorCycle → ℕ → ClockDisplay
unfolding at_least_one of_round elections_window fmt_duration
display cycle now =
    let elect_for = at_least_one cycle.validators_elected_for in
    let round_id = cycle.current_utime_since / elect_for in
    let window = elections_window cycle now in
    let elections_open = leb window.0 now && ltb now window.1 in
    record {
      round_id = round_id;
      round_color = of_round round_id;
      elections_open = elections_open;
      next_round_color = of_round ((round_id + 1) % 2 ^ 64);
      round_ends_in = fmt_duration (cycle.current_utime_until - now);
      elections_value = if elections_open then "OPEN" else "CLOSED";
      elections_countdown =
          fmt_duration (if elections_open then window.1 - now else window.0 - now);
    }
