-- ===== src/Strings.antt =====
-- What the source uses of `str` and `String` of the standard library of Rust: trimming, splitting,
-- and which byte strings are UTF-8.
pub mod Utf8
pub mod Trim
pub mod Words
pub mod Join
use mathlib.Core.List.{reverse}
use cc_wallet_gui.Prelude.{
  ℕ, zero, suc, List, [], ◌∷◌, Option, none, some, Bool, true, false, ◌&&◌, ◌||◌, ltb, leb, ◌==◌,
  if◌then◌else◌, Bytes,
}

-- The characters with the property White_Space, by their UTF-8 bytes.
space_1 : ℕ → Bool
space_1 a = (leb 0x09 a && leb a 0x0d) || a == 0x20

space_2 : ℕ → ℕ → Bool
space_2 a b = a == 0xc2 && (b == 0x85 || b == 0xa0)

space_3 : ℕ → ℕ → ℕ → Bool
space_3 a b c =
    (a == 0xe1 && b == 0x9a && c == 0x80)
    || (a == 0xe2
        && ((b == 0x80 && ((leb 0x80 c && leb c 0x8a) || c == 0xa8 || c == 0xa9 || c == 0xaf))
            || (b == 0x81 && c == 0x9f)))
    || (a == 0xe3 && b == 0x80 && c == 0x80)

-- Drops leading characters that pass the tests on one, two or three bytes.
drop_spaces : (ℕ → Bool) → (ℕ → ℕ → Bool) → (ℕ → ℕ → ℕ → Bool) → Bytes → Bytes
drop_spaces p q r [] = []
drop_spaces p q r (a ∷ []) = if p a then [] else a ∷ []
drop_spaces p q r (a ∷ b ∷ []) =
    let one = drop_spaces p q r (b ∷ []) in if p a then one else if q a b then [] else a ∷ b ∷ []
drop_spaces p q r (a ∷ b ∷ c ∷ s) =
    let one = drop_spaces p q r (b ∷ c ∷ s) in
    let two = drop_spaces p q r (c ∷ s) in
    let three = drop_spaces p q r s in
    if p a then one else if q a b then two else if r a b c then three else a ∷ b ∷ c ∷ s

-- `str::trim`
unfoldable pub trim : Bytes → Bytes
unfolding drop_spaces space_1 space_2 space_3
trim s = reverse (
    drop_spaces space_1 (λ b a. space_2 a b) (λ c b a. space_3 a b c)
      (reverse (drop_spaces space_1 space_2 space_3 s)))

-- `trim_end_matches` of one byte
drop_byte : ℕ → Bytes → Bytes
drop_byte b [] = []
drop_byte b (c ∷ s) = let rest = drop_byte b s in if c == b then rest else c ∷ s

unfoldable pub trim_end_byte : ℕ → Bytes → Bytes
unfolding drop_byte
trim_end_byte b s = reverse (drop_byte b (reverse s))

-- `split_once`
cons_before : ℕ → Option (Bytes × Bytes) → Option (Bytes × Bytes)
cons_before c none = none
cons_before c (some (a, b)) = some (c ∷ a, b)

unfoldable pub split_once : ℕ → Bytes → Option (Bytes × Bytes)
unfolding cons_before
split_once sep [] = none
split_once sep (c ∷ s) =
    let rest = split_once sep s in if c == sep then some ([], s) else cons_before c rest

-- The ranges of the bytes that follow a lead byte of UTF-8.
abbrev continuation : ℕ × ℕ
continuation = (0x80, 0xbf)

unfoldable pub continuations : ℕ → Option (List (ℕ × ℕ))
continuations c =
    if ltb c 0x80
    then some []
    else if ltb c 0xc2
    then none
    else if ltb c 0xe0
    then some (continuation ∷ [])
    else if c == 0xe0
    then some ((0xa0, 0xbf) ∷ continuation ∷ [])
    else if c == 0xed
    then some ((0x80, 0x9f) ∷ continuation ∷ [])
    else if ltb c 0xf0
    then some (continuation ∷ continuation ∷ [])
    else if c == 0xf0
    then some ((0x90, 0xbf) ∷ continuation ∷ continuation ∷ [])
    else if ltb c 0xf4
    then some (continuation ∷ continuation ∷ continuation ∷ [])
    else if c == 0xf4
    then some ((0x80, 0x8f) ∷ continuation ∷ continuation ∷ [])
    else none

-- The bytes are UTF-8 behind a character that still needs bytes in the pending ranges.
unfoldable pub utf8_from : List (ℕ × ℕ) → Bytes → Bool
unfolding continuations
utf8_from [] [] = true
utf8_from (_ ∷ _) [] = false
utf8_from (r ∷ pending) (c ∷ s) = leb r.0 c && leb c r.1 && utf8_from pending s
utf8_from [] (c ∷ s) = elim (continuations c) [ none ↦ false | some pending ↦ utf8_from pending s ]

-- `String::from_utf8` and `str::from_utf8` succeed
abbrev pub is_utf8 : Bytes → Bool
is_utf8 s = utf8_from [] s

-- A byte that is not a continuation byte.
unfoldable pub starts_char : ℕ → Bool
starts_char c = ltb c 0x80 || leb 0xc0 c

-- `str::is_char_boundary`
unfoldable pub is_char_boundary : Bytes → ℕ → Bool
unfolding starts_char
is_char_boundary s zero = true
is_char_boundary [] (suc k) = false
is_char_boundary (c ∷ []) (suc zero) = true
is_char_boundary (c ∷ []) (suc (suc k)) = false
is_char_boundary (c ∷ d ∷ s) (suc zero) = starts_char d
is_char_boundary (c ∷ d ∷ s) (suc (suc k)) = is_char_boundary (d ∷ s) (suc k)
