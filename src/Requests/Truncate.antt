-- ===== src/Requests/Truncate.antt =====
-- The comment of a send is cut at the boundary of a character.
use cc_wallet_gui.Prelude.{
  ℕ, zero, suc, ◌+◌, ◌<◌, ◌≤◌, [], ◌∷◌, ◌++◌, true, ◌≡◌, ◌⊎◌, inl, inr, refl, arith, leb, leb→le,
  ◌==◌, ok, Bytes, length, take, drop, take-append-drop, append-nil, Bool-cases,
}
use cc_wallet_gui.Strings.{is_utf8, is_char_boundary}
use cc_wallet_gui.Strings.Utf8.{is_utf8-take, near_boundary}
use cc_wallet_gui.Requests.{boundary_before, slice_to, truncate_comment_to}

boundary_before-is_char_boundary :
    (text : Bytes) (k : ℕ) → is_char_boundary text (boundary_before text k) ≡ true
unfolding boundary_before
boundary_before-is_char_boundary text zero = unfold is_char_boundary in refl
boundary_before-is_char_boundary text (suc k) = elim (Bool-cases (is_char_boundary text (suc k))) [
  | inl e ↦ rw e e
  | inr e ↦ rw e (boundary_before-is_char_boundary text k)
]

boundary_before-le : (text : Bytes) (k : ℕ) → boundary_before text k ≤ k
unfolding boundary_before
boundary_before-le text zero = omega arith
boundary_before-le text (suc k) = ground (arith, boundary_before-le text k)

le-boundary_before :
    (text : Bytes) (k j : ℕ) → j ≤ k → is_char_boundary text j ≡ true → j ≤ boundary_before text k
unfolding boundary_before
le-boundary_before text zero j l h = l
le-boundary_before text (suc k) j l h = elim (Bool-cases (j == suc k)) [
  | inl e ↦ ground arith
  | inr e ↦ ground (arith, le-boundary_before text k j)
]

length-take : (k : ℕ) (s : Bytes) → k ≤ length s → length (take k s) ≡ k
length-take zero s h = refl
length-take (suc k) [] h = absurd (omega arith)
length-take (suc k) (x ∷ s) h = omega (arith, length-take k s)

-- What is kept of a text: a part in front that is text, no longer than the limit, and the whole text
-- or all but less than four bytes of the limit.
abbrev pub IsCut : Bytes → ℕ → Bytes → Type 0
IsCut text limit kept =
    (is_utf8 kept ≡ true)
    × ((rest : Bytes) × (kept ++ rest ≡ text))
    × (length kept ≤ limit)
    × ((kept ≡ text) ⊎ ((limit < length text) × (limit ≤ length kept + 3)))

-- A text is cut without a panic: what is kept is text again, stands in front of it, is at most as
-- long as the limit, and is the whole text, or, if this is longer than the limit, lacks at most three
-- bytes of the limit.
pub truncate_comment_to-IsCut {ℓ} :
    {E : Type ℓ} (text : Bytes) (limit : ℕ)
    → is_utf8 text ≡ true
    → (kept : Bytes) × (truncate_comment_to {E = E} text limit ≡ ok kept) × IsCut text limit kept
unfolding truncate_comment_to slice_to
truncate_comment_to-IsCut text limit h = elim (Bool-cases (leb (length text) limit)) [
  | inl e ↦ rw e (text, refl, (h, ([], append-nil text), leb→le (length text) limit e, inl refl))
  | inr e ↦
      let k = boundary_before text limit in
      let at = boundary_before-is_char_boundary text limit in
      let low = boundary_before-le text limit in
      let (j, l, m, b) = near_boundary text limit h (ground arith) in
      let high = le-boundary_before text limit j l b in
      let long = length-take k text (ground arith) in
      rw (e, at)
        (
          take k text,
          refl,
          (
            is_utf8-take text k h at,
            (drop k text, take-append-drop k text),
            omega arith,
            inr (ground arith, omega arith),
          ),
        )
]
