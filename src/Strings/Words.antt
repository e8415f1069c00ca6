-- ===== src/Strings/Words.antt =====
-- `split_whitespace` of the standard library, and words joined by a space.
use cc_wallet_gui.Prelude.{
  ℕ, zero, suc, ◌-◌, List, [], ◌∷◌, ◌++◌, ◌==◌, if◌then◌else◌, Bytes, Bool, true, false,
}
use cc_wallet_gui.Strings.{space_1, space_2, space_3}

unfoldable pub has_no_bytes : Bytes → Bool
has_no_bytes [] = true
has_no_bytes (_ ∷ _) = false

-- The length of the white space character that the bytes start with, or zero.
unfoldable pub space_len : Bytes → ℕ
unfolding space_1 space_2 space_3
space_len [] = 0
space_len (a ∷ []) = if space_1 a then 1 else 0
space_len (a ∷ b ∷ []) = if space_1 a then 1 else if space_2 a b then 2 else 0
space_len (a ∷ b ∷ c ∷ s) =
    if space_1 a then 1 else if space_2 a b then 2 else if space_3 a b c then 3 else 0

unfoldable pub push_first : ℕ → List Bytes → List Bytes
push_first a [] = (a ∷ []) ∷ []
push_first a (w ∷ ws) = (a ∷ w) ∷ ws

-- The pieces between white space characters; the number counts the bytes of a separator still to
-- be skipped.
unfoldable pub pieces : ℕ → Bytes → List Bytes
unfolding space_len push_first
pieces skip [] = [] ∷ []
pieces (suc k) (a ∷ s) = pieces k s
pieces zero (a ∷ s) =
    let n = space_len (a ∷ s) in
    let rest = pieces (n - 1) s in if n == 0 then push_first a rest else [] ∷ rest

unfoldable pub drop_empty : List Bytes → List Bytes
unfolding has_no_bytes
drop_empty [] = []
drop_empty (w ∷ ws) = let rest = drop_empty ws in if has_no_bytes w then rest else w ∷ rest

unfoldable pub split_whitespace : Bytes → List Bytes
unfolding pieces drop_empty
split_whitespace s = drop_empty (pieces 0 s)

-- `join(" ")`
unfoldable pub join_words : List Bytes → Bytes
join_words [] = []
join_words (w ∷ []) = w
join_words (w ∷ v ∷ ws) = w ++ (0x20 ∷ join_words (v ∷ ws))
