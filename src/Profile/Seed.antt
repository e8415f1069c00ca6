-- ===== src/Profile/Seed.antt =====
-- The normal form of a seed.
use cc_wallet_gui.Prelude.{◌≡◌, ◌↔◌, refl, sym, ap, ◌∙◌, All, Bytes}
use cc_wallet_gui.Strings.Words.{split_whitespace, join_words}
use cc_wallet_gui.Strings.Join.{IsWord, split_whitespace-All, split_whitespace-join_words}
use cc_wallet_gui.Profile.{normalize_seed, validate_seed}

words-normalize_seed : (s : Bytes) → split_whitespace (normalize_seed s) ≡ split_whitespace s
unfolding normalize_seed
words-normalize_seed s = split_whitespace-join_words (split_whitespace s) (split_whitespace-All s)

normalize_seed-same :
    (s t : Bytes) → split_whitespace s ≡ split_whitespace t → normalize_seed s ≡ normalize_seed t
unfolding normalize_seed
normalize_seed-same s t e = ap join_words e

validate_seed-same :
    (s t : Bytes) → split_whitespace s ≡ split_whitespace t → validate_seed s ≡ validate_seed t
unfolding validate_seed
validate_seed-same s t e = rw e refl

-- The words of a seed are not empty and hold no white space, and the normalized seed has the same
-- words. Two seeds are normalized to the same text exactly if they have the same words, so a second
-- normalization changes nothing; and `validate_seed` gives the same outcome before and after it.
pub normalize_seed_lem :
    (s t : Bytes)
    → All IsWord (split_whitespace s)
      × (split_whitespace (normalize_seed s) ≡ split_whitespace s)
      × ((normalize_seed s ≡ normalize_seed t) ↔ (split_whitespace s ≡ split_whitespace t))
      × (normalize_seed (normalize_seed s) ≡ normalize_seed s)
      × (validate_seed (normalize_seed s) ≡ validate_seed s)
normalize_seed_lem s t =
    let kept = words-normalize_seed s in
    (
      split_whitespace-All s,
      kept,
      (λ h. sym kept ∙ ap split_whitespace h ∙ words-normalize_seed t, normalize_seed-same s t),
      normalize_seed-same (normalize_seed s) s kept,
      validate_seed-same (normalize_seed s) s kept,
    )
