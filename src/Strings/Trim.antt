-- ===== src/Strings/Trim.antt =====
-- Text without white space, which trimming leaves as it is.
use mathlib.Core.List.{reverse, reverse_aux, reverse-reverse}
use cc_wallet_gui.Prelude.{ℕ, ◌≤◌, [], ◌∷◌, ◌≡◌, refl, arith, Bytes, All}
use cc_wallet_gui.Strings.{space_1, space_2, space_3, drop_spaces, trim}

-- Printable ASCII other than the space.
abbrev pub IsGraphic : ℕ → Type 0
IsGraphic c = (0x21 ≤ c) × (c ≤ 0x7e)

drop_spaces-All : (s : Bytes) → All IsGraphic s → drop_spaces space_1 space_2 space_3 s ≡ s
unfolding drop_spaces space_1 space_2 space_3
drop_spaces-All [] h = refl
drop_spaces-All (a ∷ []) h = ground arith
drop_spaces-All (a ∷ b ∷ []) h = ground arith
drop_spaces-All (a ∷ b ∷ c ∷ s) h = ground arith

drop_spaces_back-All :
    (s : Bytes)
    → All IsGraphic s
    → drop_spaces space_1 (λ b a. space_2 a b) (λ c b a. space_3 a b c) s ≡ s
unfolding drop_spaces space_1 space_2 space_3
drop_spaces_back-All [] h = refl
drop_spaces_back-All (a ∷ []) h = ground arith
drop_spaces_back-All (a ∷ b ∷ []) h = ground arith
drop_spaces_back-All (a ∷ b ∷ c ∷ s) h = ground arith

All-reverse_aux :
    (s t : Bytes) → All IsGraphic s → All IsGraphic t → All IsGraphic (reverse_aux s t)
All-reverse_aux [] t h k = k
All-reverse_aux (x ∷ s) t h k = All-reverse_aux s (x ∷ t) h.1 (h.0, k)

pub trim-All : (s : Bytes) → All IsGraphic s → trim s ≡ s
unfolding trim
trim-All s h =
    rw (drop_spaces-All s h, drop_spaces_back-All (reverse s) (All-reverse_aux s [] h tt))
      (reverse-reverse s)
