-- ===== src/Strings/Join.antt =====
-- The words of a text are found again in their join.
use cc_wallet_gui.Prelude.{
  ℕ, zero, suc, ◌-◌, List, [], ◌∷◌, ◌++◌, false, ◌==◌, ◌≡◌, refl, ap, ◌∙◌, arith, inl, inr,
  Bool-cases, Bytes, All, subst, drop, ==_iff,
}
use cc_wallet_gui.Strings.{space_1, space_2, space_3}
use cc_wallet_gui.Strings.Words.{
  space_len, push_first, pieces, drop_empty, has_no_bytes, split_whitespace, join_words,
}

space_len-shorter : (a : ℕ) (t rest : Bytes) → space_len (a ∷ t ++ rest) ≡ 0 → space_len (a ∷ t) ≡ 0
unfolding space_len space_1 space_2 space_3
space_len-shorter a [] [] h = h
space_len-shorter a [] (x ∷ []) h = ground arith
space_len-shorter a [] (x ∷ y ∷ rest) h = ground arith
space_len-shorter a (b ∷ []) [] h = h
space_len-shorter a (b ∷ []) (x ∷ rest) h = ground arith
space_len-shorter a (b ∷ c ∷ t) rest h = h

space_len-before_space :
    (a : ℕ) (t rest : Bytes) → space_len (a ∷ t) ≡ 0 → space_len (a ∷ t ++ 0x20 ∷ rest) ≡ 0
unfolding space_len space_1 space_2 space_3
space_len-before_space a [] [] h = ground arith
space_len-before_space a [] (x ∷ rest) h = ground arith
space_len-before_space a (b ∷ []) rest h = ground arith
space_len-before_space a (b ∷ c ∷ t) rest h = h

-- No white space starts in the text.
abbrev pub IsSpaceFree : Bytes → Type 0
IsSpaceFree [] = Unit
IsSpaceFree (a ∷ s) = (space_len (a ∷ s) ≡ 0) × IsSpaceFree s

pieces-take :
    (a : ℕ) (s : Bytes) → space_len (a ∷ s) ≡ 0 → pieces 0 (a ∷ s) ≡ push_first a (pieces 0 s)
unfolding pieces
pieces-take a s e = rw e refl

pieces-skip :
    (a : ℕ) (s : Bytes)
    → (space_len (a ∷ s) == 0) ≡ false
    → pieces 0 (a ∷ s) ≡ [] ∷ pieces (space_len (a ∷ s) - 1) s
unfolding pieces
pieces-skip a s e = rw e refl

-- The pieces of a text behind what is skipped: the first one begins the text, and in none does
-- white space start.
record Cut (skip : ℕ) (s : Bytes) : Type 0 where
  first : Bytes
  others : List Bytes
  rest : Bytes
  cut : pieces skip s ≡ first ∷ others
  begins : drop skip s ≡ first ++ rest
  first_free : IsSpaceFree first
  others_free : All IsSpaceFree others

pieces-Cut : (skip : ℕ) (s : Bytes) → Cut skip s
unfolding pieces push_first
pieces-Cut zero [] = record {
  first = [];
  others = [];
  rest = [];
  cut = refl;
  begins = refl;
  first_free = tt;
  others_free = tt;
}
pieces-Cut (suc k) [] = record {
  first = [];
  others = [];
  rest = [];
  cut = refl;
  begins = refl;
  first_free = tt;
  others_free = tt;
}
pieces-Cut (suc k) (a ∷ s) =
    let c = pieces-Cut k s in
    record {
      first = c.first;
      others = c.others;
      rest = c.rest;
      cut = c.cut;
      begins = c.begins;
      first_free = c.first_free;
      others_free = c.others_free;
    }
pieces-Cut zero (a ∷ s) = elim (Bool-cases (space_len (a ∷ s) == 0)) [
  | inl e ↦
      let c = pieces-Cut 0 s in
      let none : space_len (a ∷ s) ≡ 0 = (==_iff (space_len (a ∷ s)) 0).0 e in
      record {
        first = a ∷ c.first;
        others = c.others;
        rest = c.rest;
        cut = pieces-take a s none ∙ ap (push_first a) c.cut;
        begins = ap (λ (t : Bytes). a ∷ t) c.begins;
        first_free = (
          space_len-shorter a c.first c.rest
              (subst (λ (t : Bytes). space_len (a ∷ t) ≡ 0) c.begins none),
          c.first_free,
        );
        others_free = c.others_free;
      }
  | inr e ↦
      let c = pieces-Cut (space_len (a ∷ s) - 1) s in
      record {
        first = [];
        others = c.first ∷ c.others;
        rest = a ∷ s;
        cut = pieces-skip a s e ∙ ap (λ (ws : List Bytes). [] ∷ ws) c.cut;
        begins = refl;
        first_free = tt;
        others_free = (c.first_free, c.others_free);
      }
]

-- A word: a text that is not empty and in which no white space starts.
abbrev pub IsWord : Bytes → Type 0
IsWord w = (has_no_bytes w ≡ false) × IsSpaceFree w

drop_empty-All : (ws : List Bytes) → All IsSpaceFree ws → All IsWord (drop_empty ws)
unfolding drop_empty has_no_bytes
drop_empty-All [] h = tt
drop_empty-All ([] ∷ ws) (h, hs) = drop_empty-All ws hs
drop_empty-All ((a ∷ w) ∷ ws) (h, hs) = ((refl, h), drop_empty-All ws hs)

pub split_whitespace-All : (s : Bytes) → All IsWord (split_whitespace s)
unfolding split_whitespace
split_whitespace-All s =
    let c = pieces-Cut 0 s in
    rw c.cut (drop_empty-All (c.first ∷ c.others) (c.first_free, c.others_free))

space_len-space : (t : Bytes) → space_len (0x20 ∷ t) ≡ 1
unfolding space_len space_1
space_len-space [] = refl
space_len-space (b ∷ []) = refl
space_len-space (b ∷ c ∷ t) = refl

pieces-before_space : (w t : Bytes) → IsSpaceFree w → pieces 0 (w ++ 0x20 ∷ t) ≡ w ∷ pieces 0 t
unfolding push_first
pieces-before_space [] t h =
    pieces-skip 0x20 t (rw (space_len-space t) refl)
    ∙ ap (λ (n : ℕ). [] ∷ pieces (n - 1) t) (space_len-space t)
pieces-before_space (a ∷ w) t (h, hs) =
    pieces-take a (w ++ 0x20 ∷ t) (space_len-before_space a w t h)
    ∙ ap (push_first a) (pieces-before_space w t hs)

pieces-free : (w : Bytes) → IsSpaceFree w → pieces 0 w ≡ w ∷ []
unfolding push_first
pieces-free [] h = unfold pieces in refl
pieces-free (a ∷ w) (h, hs) = pieces-take a w h ∙ ap (push_first a) (pieces-free w hs)

drop_empty-cons :
    (w : Bytes) (ws : List Bytes) → has_no_bytes w ≡ false → drop_empty (w ∷ ws) ≡ w ∷ drop_empty ws
unfolding drop_empty
drop_empty-cons w ws e = rw e refl

-- Words joined by a space are split again.
pub split_whitespace-join_words :
    (ws : List Bytes) → All IsWord ws → split_whitespace (join_words ws) ≡ ws
unfolding split_whitespace join_words
split_whitespace-join_words [] h = unfold pieces in unfold drop_empty in refl
split_whitespace-join_words (w ∷ []) ((e, h), hs) =
    ap drop_empty (pieces-free w h) ∙ drop_empty-cons w [] e
split_whitespace-join_words (w ∷ v ∷ ws) ((e, h), hs) =
    ap drop_empty (pieces-before_space w (join_words (v ∷ ws)) h)
    ∙ drop_empty-cons w (pieces 0 (join_words (v ∷ ws))) e
    ∙ ap (λ (t : List Bytes). w ∷ t) (split_whitespace-join_words (v ∷ ws) hs)
