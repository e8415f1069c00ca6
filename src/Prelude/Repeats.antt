-- ===== src/Prelude/Repeats.antt =====
-- Lists without repetitions, and the Boolean searches that find one.
use mathlib.Core.Path.{◌≡◌, refl, sym}
use mathlib.Core.Logic.{◌≢◌, ◌↔◌, inl, inr}
use mathlib.Core.Bool.{Bool, true, false}
use mathlib.Core.Logic.Or
use mathlib.Core.List.{List, [], ◌∷◌, Mem, mem-cons, not-mem-nil}
use native.Mathlib.Omega.{arith}
use cc_wallet_gui.Prelude.Tests.{Bool-cases}
use cc_wallet_gui.Prelude.Lists.{any, all, All}

module _ {ℓ} {A : Type ℓ} where
  -- No element equals an earlier one.
  abbrev pub Distinct : List A → Type ℓ
  Distinct [] = Unit
  Distinct (x ∷ xs) = All (λ (y : A). y ≢ x) xs × Distinct xs

module _ {ℓ} {A : Type ℓ} (eq : A → A → Bool) (eq_iff : (a b : A) → (eq a b ≡ true) ↔ (a ≡ b)) where
  pub any-All :
      (x : A) (xs : List A) → (any (λ (y : A). eq y x) xs ≡ false) ↔ All (λ (y : A). y ≢ x) xs
  any-All x [] = (λ h. tt, λ h. refl)
  any-All x (y ∷ xs) =
      let (there, back) = any-All x xs in
      (
        λ h. ((λ e. ground (arith, eq_iff y x)), there (ground arith)),
        λ (n, h). ground (arith, eq_iff y x, back h),
      )

  pub any-Mem : (x : A) (xs : List A) → (any (λ (y : A). eq y x) xs ≡ true) ↔ Mem x xs
  any-Mem x [] = (λ h. cc, λ m. absurd (not-mem-nil m))
  any-Mem x (y ∷ xs) =
      let (there, back) = any-Mem x xs in
      (
        λ h. mem-cons.1 (elim (Bool-cases (eq y x)) [
          | inl e ↦ Or.inl (sym ((eq_iff y x).0 e))
          | inr e ↦ Or.inr (there (ground arith))
        ]),
        λ m.
            Or.elim (hlevel) (mem-cons.0 m) (λ e. ground (arith, eq_iff y x, sym e))
              (λ k. ground (arith, back k)),
      )

  pub all-Mem :
      (xs ys : List A)
      → (all (λ (x : A). any (λ (y : A). eq y x) xs) ys ≡ true) ↔ All (λ (x : A). Mem x xs) ys
  all-Mem xs [] = (λ h. tt, λ h. refl)
  all-Mem xs (x ∷ ys) =
      let (there, back) = all-Mem xs ys in
      let (found, finds) = any-Mem x xs in
      (λ h. (found (ground arith), there (ground arith)), λ (m, h). ground (arith, finds m, back h))
