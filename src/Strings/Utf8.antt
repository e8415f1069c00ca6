-- ===== src/Strings/Utf8.antt =====
-- Where a text may be cut: the boundaries of characters in UTF-8.
use cc_wallet_gui.Prelude.{
  ℕ, zero, suc, ◌+◌, ◌<◌, ◌≤◌, List, [], ◌∷◌, Option, none, some, Bool, true, false, ◌&&◌, ◌≡◌, sym,
  ◌∙◌, ◌⊎◌, inl, inr, refl, ap, arith, leb, Bytes, All, length, take, leb→le, le→leb,
}
use cc_wallet_gui.Strings.{continuations, utf8_from, is_utf8, starts_char, is_char_boundary}

-- A range of continuation bytes.
abbrev IsContinuation : ℕ × ℕ → Type 0
IsContinuation r = (0x80 ≤ r.0) × (r.1 ≤ 0xbf)

-- What a lead byte announces: the lead starts a character, and at most three bytes follow.
lead :
    (c : ℕ) (pending : List (ℕ × ℕ))
    → continuations c ≡ some pending
    → (starts_char c ≡ true) × All IsContinuation pending × (length pending ≤ 3)
unfolding continuations starts_char
lead c pending h = ground arith

-- The byte at a place starts a character, or the text ends there.
unfoldable pub starts_at : Bytes → ℕ → Bool
unfolding starts_char
starts_at [] zero = true
starts_at [] (suc k) = false
starts_at (c ∷ s) zero = starts_char c
starts_at (c ∷ s) (suc k) = starts_at s k

pub is_char_boundary-eq-starts_at :
    (s : Bytes) (k : ℕ) → is_char_boundary s (suc k) ≡ starts_at s (suc k)
unfolding is_char_boundary starts_at
is_char_boundary-eq-starts_at [] k = refl
is_char_boundary-eq-starts_at (c ∷ []) zero = refl
is_char_boundary-eq-starts_at (c ∷ []) (suc k) = refl
is_char_boundary-eq-starts_at (c ∷ d ∷ s) zero = refl
is_char_boundary-eq-starts_at (c ∷ d ∷ s) (suc k) = is_char_boundary-eq-starts_at (d ∷ s) k

follows : Bytes → Option (List (ℕ × ℕ)) → Bool
follows s none = false
follows s (some pending) = utf8_from pending s

utf8_from-follows : (c : ℕ) (s : Bytes) → utf8_from [] (c ∷ s) ≡ follows s (continuations c)
unfolding utf8_from follows
utf8_from-follows c s = refl

follows-eq-true :
    (s : Bytes) (o : Option (List (ℕ × ℕ)))
    → follows s o ≡ true
    → (pending : List (ℕ × ℕ)) × (o ≡ some pending) × (utf8_from pending s ≡ true)
unfolding follows
follows-eq-true s none h = cc
follows-eq-true s (some pending) h = (pending, refl, h)

utf8_from-lead :
    (c : ℕ) (s : Bytes)
    → utf8_from [] (c ∷ s) ≡ true
    → (pending : List (ℕ × ℕ)) × (continuations c ≡ some pending) × (utf8_from pending s ≡ true)
utf8_from-lead c s h = follows-eq-true s (continuations c) (sym (utf8_from-follows c s) ∙ h)

in_range : (a b : Bool) (x : Bool) → (a && b && x) ≡ true → (a ≡ true) × (b ≡ true) × (x ≡ true)
in_range a b x h = ground arith

of_range : (a b : Bool) (x : Bool) → a ≡ true → b ≡ true → x ≡ true → (a && b && x) ≡ true
of_range a b x h k l = ground arith

utf8_from-pending :
    (r : ℕ × ℕ) (pending : List (ℕ × ℕ)) (c : ℕ) (s : Bytes)
    → utf8_from (r ∷ pending) (c ∷ s) ≡ true
    → (r.0 ≤ c) × (c ≤ r.1) × (utf8_from pending s ≡ true)
unfolding utf8_from
utf8_from-pending r pending c s h =
    let (low, high, rest) = in_range (leb r.0 c) (leb c r.1) (utf8_from pending s) h in
    (leb→le r.0 c low, leb→le c r.1 high, rest)

lead-utf8_from :
    (c : ℕ) (pending : List (ℕ × ℕ)) (s : Bytes)
    → continuations c ≡ some pending
    → utf8_from pending s ≡ true
    → utf8_from [] (c ∷ s) ≡ true
unfolding follows
lead-utf8_from c pending s e h = utf8_from-follows c s ∙ (ap (follows s) e ∙ h)

pending-utf8_from :
    (r : ℕ × ℕ) (pending : List (ℕ × ℕ)) (c : ℕ) (s : Bytes)
    → r.0 ≤ c
    → c ≤ r.1
    → utf8_from pending s ≡ true
    → utf8_from (r ∷ pending) (c ∷ s) ≡ true
unfolding utf8_from
pending-utf8_from r pending c s l h k =
    of_range (leb r.0 c) (leb c r.1) (utf8_from pending s) (le→leb r.0 c l) (le→leb c r.1 h) k

-- Text that is cut where a character starts is text.
utf8_from-take :
    (pending : List (ℕ × ℕ)) (s : Bytes) (k : ℕ)
    → All IsContinuation pending
    → utf8_from pending s ≡ true
    → starts_at s k ≡ true
    → utf8_from pending (take k s) ≡ true
unfolding starts_at starts_char
utf8_from-take pending [] zero p h b = h
utf8_from-take pending [] (suc k) p h b = cc
utf8_from-take [] (c ∷ s) zero p h b = unfold utf8_from in refl
utf8_from-take (r ∷ pending) (c ∷ s) zero p h b =
    let inside = utf8_from-pending r pending c s h in absurd (ground arith)
utf8_from-take [] (c ∷ s) (suc k) p h b =
    let (pending, e, rest) = utf8_from-lead c s h in
    lead-utf8_from c pending (take k s) e (utf8_from-take pending s k (lead c pending e).1 rest b)
utf8_from-take (r ∷ pending) (c ∷ s) (suc k) p h b =
    let inside = utf8_from-pending r pending c s h in
    pending-utf8_from r pending c (take k s) inside.0 inside.1
      (utf8_from-take pending s k p.1 inside.2 b)

pub is_utf8-take :
    (s : Bytes) (k : ℕ) → is_utf8 s ≡ true → is_char_boundary s k ≡ true → is_utf8 (take k s) ≡ true
is_utf8-take s zero h b = unfold utf8_from in refl
is_utf8-take s (suc k) h b =
    utf8_from-take [] s (suc k) tt h (sym (is_char_boundary-eq-starts_at s k) ∙ b)

-- A character starts at a place or at most three bytes before it.
abbrev IsNear : Bytes → ℕ → Type 0
IsNear s k = (j : ℕ) × (j ≤ k) × (k ≤ j + 3) × (starts_at s j ≡ true)

IsNear-from :
    (pending : List (ℕ × ℕ)) (s : Bytes) (k : ℕ)
    → length pending ≤ 3
    → utf8_from pending s ≡ true
    → k ≤ length s
    → (k < length pending) ⊎ IsNear s k
unfolding starts_at
IsNear-from pending [] zero l h b = inr (0, omega arith, omega arith, refl)
IsNear-from pending [] (suc k) l h b = absurd (omega arith)
IsNear-from [] (c ∷ s) zero l h b =
    let (pending, e, rest) = utf8_from-lead c s h in
    inr (0, omega arith, omega arith, (lead c pending e).0)
IsNear-from (r ∷ pending) (c ∷ s) zero l h b = inl (omega arith)
IsNear-from [] (c ∷ s) (suc k) l h b =
    let (pending, e, rest) = utf8_from-lead c s h in
    let (starts, _, short) = lead c pending e in
    elim (IsNear-from pending s k short rest (omega arith)) [
      | inl m ↦ inr (0, omega arith, omega arith, starts)
      | inr (j, m, n, at) ↦ inr (suc j, omega arith, omega arith, at)
    ]
IsNear-from (r ∷ pending) (c ∷ s) (suc k) l h b =
    let inside = utf8_from-pending r pending c s h in
    elim (IsNear-from pending s k (omega arith) inside.2 (omega arith)) [
      | inl m ↦ inl (omega arith)
      | inr (j, m, n, at) ↦ inr (suc j, omega arith, omega arith, at)
    ]

pub near_boundary :
    (s : Bytes) (k : ℕ)
    → is_utf8 s ≡ true
    → k ≤ length s
    → (j : ℕ) × (j ≤ k) × (k ≤ j + 3) × (is_char_boundary s j ≡ true)
near_boundary s k h l = elim (IsNear-from [] s k (omega arith) h l) [
  | inl m ↦ absurd (omega arith)
  | inr (zero, m, n, at) ↦ (0, m, n, unfold is_char_boundary in refl)
  | inr (suc j, m, n, at) ↦ (suc j, m, n, is_char_boundary-eq-starts_at s j ∙ at)
]
