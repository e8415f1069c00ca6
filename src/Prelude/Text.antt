-- ===== src/Prelude/Text.antt =====
-- Strings are the lists of their UTF-8 bytes; `cmp_bytes` is the order of `[u8]` and of `str`.
use Prim.Native.Nat.{ℕ, compare, Ordering}
use Prim.Native.Char.{code}
use Prim.Native.String.{String}
use mathlib.Core.Path.{◌≡◌, refl}
use mathlib.Core.Logic.{◌↔◌}
use mathlib.Core.Bool.{Bool, true, false}
use mathlib.Core.List.{List, [], ◌∷◌}
use native.Mathlib.Omega.{arith}

abbrev pub Bytes : Type 0
Bytes = List ℕ

-- The bytes of an ASCII literal.
abbrev pub codes : String → Bytes
codes String.[] = []
codes (String.◌∷◌ c s) = code c ∷ codes s

unfoldable pub bytes_eq : Bytes → Bytes → Bool
bytes_eq [] [] = true
bytes_eq [] (_ ∷ _) = false
bytes_eq (_ ∷ _) [] = false
bytes_eq (a ∷ s) (b ∷ t) = elim (compare a b) [ Ordering.eq ↦ bytes_eq s t | _ ↦ false ]

unfoldable pub cmp_bytes : Bytes → Bytes → Ordering
cmp_bytes [] [] = Ordering.eq
cmp_bytes [] (_ ∷ _) = Ordering.lt
cmp_bytes (_ ∷ _) [] = Ordering.gt
cmp_bytes (a ∷ s) (b ∷ t) = elim (compare a b) [
  | Ordering.lt ↦ Ordering.lt
  | Ordering.eq ↦ cmp_bytes s t
  | Ordering.gt ↦ Ordering.gt
]

pub bytes_eq_sound : (s t : Bytes) → bytes_eq s t ≡ true → s ≡ t
unfolding bytes_eq
bytes_eq_sound [] [] h = refl
bytes_eq_sound [] (_ ∷ _) h = cc
bytes_eq_sound (_ ∷ _) [] h = cc
bytes_eq_sound (a ∷ s) (b ∷ t) h = ground (arith, bytes_eq_sound s t)

pub bytes_eq_refl : (s : Bytes) → bytes_eq s s ≡ true
unfolding bytes_eq
bytes_eq_refl [] = refl
bytes_eq_refl (a ∷ s) = ground (arith, bytes_eq_refl s)

pub bytes_eq_iff : (s t : Bytes) → (bytes_eq s t ≡ true) ↔ (s ≡ t)
bytes_eq_iff s t = (bytes_eq_sound s t, λ e. subst_true e)
  where
    subst_true : s ≡ t → bytes_eq s t ≡ true
    subst_true e = cc (e, bytes_eq_refl s)

pub cmp_bytes-eq : (s t : Bytes) → cmp_bytes s t ≡ Ordering.eq → s ≡ t
unfolding cmp_bytes
cmp_bytes-eq [] [] h = refl
cmp_bytes-eq [] (_ ∷ _) h = cc
cmp_bytes-eq (_ ∷ _) [] h = cc
cmp_bytes-eq (a ∷ s) (b ∷ t) h = ground (arith, cmp_bytes-eq s t)

pub cmp_bytes_refl : (s : Bytes) → cmp_bytes s s ≡ Ordering.eq
unfolding cmp_bytes
cmp_bytes_refl [] = refl
cmp_bytes_refl (a ∷ s) = ground (arith, cmp_bytes_refl s)
