-- ===== src/Clock/Elections.antt =====
-- What the clock of validator_clock.rs shows of rounds and elections.
use native.Mathlib.Nat.{div-le_self}
use cc_wallet_gui.Prelude.{
  ℕ, ◌+◌, ◌-◌, ◌/◌, ◌%◌, ◌^◌, ◌<◌, ◌≤◌, none, Bool, true, ◌⊎◌, inl, inr, false, ◌&&◌, ◌≡◌, ◌≢◌,
  refl, ap, arith, ltb, leb, leb→le, if◌then◌else◌, Bytes, Bool-cases,
}
use cc_wallet_gui.Swap.{min}
use cc_wallet_gui.Clock.{
  of_round, ValidatorCycle, saturating_add, at_least_one, unwrap_or, fmt_duration, elections_window,
  display,
}

of_round-alternates : (n : ℕ) → n < 2 ^ 32 → of_round n ≢ of_round ((n + 1) % 2 ^ 64)
unfolding of_round
of_round-alternates n h = ground arith

-- The colours of the round that is shown and of the next one differ, for a round that starts at a
-- `u32` time.
next_round_color-alternates :
    (cycle : ValidatorCycle) (now : ℕ)
    → cycle.current_utime_since < 2 ^ 32
    → (display cycle now).round_color ≢ (display cycle now).next_round_color
unfolding display
next_round_color-alternates cycle now h =
    let d = at_least_one cycle.validators_elected_for in
    of_round-alternates (cycle.current_utime_since / d)
      (ground (arith, div-le_self cycle.current_utime_since d))

-- A window of elections as seen at a time: running, still to come, or just over.
abbrev pub IsShown : ℕ → ℕ → ℕ → Bool → Bytes → Type 0
IsShown start end now is_open countdown =
    ((is_open ≡ true) × (start ≤ now) × (now < end) × (countdown ≡ fmt_duration (end - now)))
    ⊎ ((is_open ≡ false) × (now < start) × (countdown ≡ fmt_duration (start - now)))
    ⊎ ((is_open ≡ false) × (now ≡ end) × (countdown ≡ fmt_duration 0))

IsShown-cases :
    (start end now : ℕ)
    → now ≤ end
    → start ≤ end
    → IsShown start end now
        (leb start now && ltb now end)
        (fmt_duration (if leb start now && ltb now end then end - now else start - now))
IsShown-cases start end now l k = elim (Bool-cases (leb start now)) [
  | inl e ↦ elim (Bool-cases (ltb now end)) [
    | inl d ↦ rw (e, d) (inl (refl, ground arith, ground arith, refl))
    | inr d ↦ rw (e, d) (inr (inr (refl, ground arith, ap fmt_duration (ground arith))))
  ]
  | inr e ↦ rw e (inr (inl (refl, ground arith, refl)))
]

IsShown-display :
    (cycle : ValidatorCycle) (now start end : ℕ)
    → (elections_window cycle now).0 ≡ start
    → (elections_window cycle now).1 ≡ end
    → now ≤ end
    → start ≤ end
    → IsShown start end now
        (display cycle now).elections_open
        (display cycle now).elections_countdown
unfolding display
IsShown-display cycle now start end at_start at_end l k =
    rw (at_start, at_end) (IsShown-cases start end now l k)

-- Times that a `u32` holds, in a round with a duration, and no known next set of validators.
abbrev pub IsPlain : ValidatorCycle → Type 0
IsPlain cycle =
    (cycle.next_utime_until ≡ none)
    × (cycle.current_utime_since < cycle.current_utime_until)
    × (cycle.elections_end_before ≤ cycle.elections_start_before)
    × (cycle.elections_start_before ≤ cycle.current_utime_until - cycle.current_utime_since)
    × (cycle.current_utime_until + (cycle.current_utime_until - cycle.current_utime_since) < 2 ^ 32)

window-current :
    (cycle : ValidatorCycle) (now : ℕ)
    → IsPlain cycle
    → now ≤ cycle.current_utime_until - cycle.elections_end_before
    → ((elections_window cycle now).0 ≡ cycle.current_utime_until - cycle.elections_start_before)
      × ((elections_window cycle now).1 ≡ cycle.current_utime_until - cycle.elections_end_before)
unfolding elections_window at_least_one saturating_add min unwrap_or
window-current cycle now p h =
    let anchor : unwrap_or cycle.next_utime_until cycle.current_utime_until
        ≡ cycle.current_utime_until =
      rw p.0 refl in
    rw anchor (ground arith)

window-next :
    (cycle : ValidatorCycle) (now : ℕ)
    → IsPlain cycle
    → cycle.current_utime_until - cycle.elections_end_before < now
    → let duration = cycle.current_utime_until - cycle.current_utime_since in
      ((elections_window cycle now).0
        ≡ cycle.current_utime_until - cycle.elections_start_before + duration)
      × ((elections_window cycle now).1
          ≡ cycle.current_utime_until - cycle.elections_end_before + duration)
unfolding elections_window at_least_one saturating_add min unwrap_or
window-next cycle now p h =
    let anchor : unwrap_or cycle.next_utime_until cycle.current_utime_until
        ≡ cycle.current_utime_until =
      rw p.0 refl in
    rw anchor (ground arith)

-- In a round with a duration, without a known next set, whose elections start in it and end no earlier
-- than they start, at a time up to its end, and with times that do not saturate: until the end of this round's elections the clock shows these, and from
-- then until the end of the round those of the next one, a round later. They are shown as open with
-- the time that is left, as closed with the time until they start, or as closed at the moment of
-- their end.
pub display-elections :
    (cycle : ValidatorCycle) (now : ℕ)
    → IsPlain cycle
    → now ≤ cycle.current_utime_until
    → let shown = display cycle now in
      let duration = cycle.current_utime_until - cycle.current_utime_since in
      let start = cycle.current_utime_until - cycle.elections_start_before in
      let end = cycle.current_utime_until - cycle.elections_end_before in
      ((now ≤ end) × IsShown start end now shown.elections_open shown.elections_countdown)
      ⊎ ((end < now)
          × IsShown
              (start + duration)
              (end + duration)
              now
              shown.elections_open
              shown.elections_countdown)
display-elections cycle now p l =
    let start = cycle.current_utime_until - cycle.elections_start_before in
    let end = cycle.current_utime_until - cycle.elections_end_before in
    let duration = cycle.current_utime_until - cycle.current_utime_since in
    elim (Bool-cases (leb now end)) [
      | inl e ↦
          let h : now ≤ end = leb→le now end e in
          let (at_start, at_end) = window-current cycle now p h in
          inl (h, IsShown-display cycle now start end at_start at_end h (omega (arith, p)))
      | inr e ↦
          let h : end < now = ground arith in
          let (at_start, at_end) = window-next cycle now p h in
          inr (
            h,
            IsShown-display cycle now (start + duration) (end + duration) at_start at_end
                (omega (arith, p)) (omega (arith, p)),
          )
    ]
