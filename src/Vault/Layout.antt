-- ===== src/Vault/Layout.antt =====
-- Bytes at an offset, and numbers in little-endian bytes.
use native.Mathlib.Nat.{pow-suc}
use cc_wallet_gui.Prelude.{
  ℕ, zero, suc, ◌+◌, ◌-◌, ◌/◌, ◌^◌, ◌<◌, ◌≤◌, [], ◌∷◌, ◌++◌, some, true, ◌≡◌, refl, ap, sym, ◌∙◌,
  arith, leb, Bytes, length, drop, length-drop, length-append, take-length-append,
  drop-length-append,
}
use cc_wallet_gui.Vault.{to_le_bytes, from_le_bytes}
use cc_wallet_gui.Vault.Header.{get}

pub length-to_le_bytes : (k n : ℕ) → length (to_le_bytes k n) ≡ k
unfolding to_le_bytes
length-to_le_bytes zero n = refl
length-to_le_bytes (suc k) n = ap suc (length-to_le_bytes k (n / 256))

pub from_le_bytes-to_le_bytes : (k n : ℕ) → n < 256 ^ k → from_le_bytes (to_le_bytes k n) ≡ n
unfolding to_le_bytes from_le_bytes
from_le_bytes-to_le_bytes zero n h = omega arith
from_le_bytes-to_le_bytes (suc k) n h =
    let low : n / 256 < 256 ^ k = omega (arith, pow-suc 256 k) in
    omega (arith, from_le_bytes-to_le_bytes k (n / 256) low)

drop-nil : (k : ℕ) → drop {A = ℕ} k [] ≡ []
drop-nil zero = refl
drop-nil (suc k) = refl

drop-add : (n m : ℕ) (s : Bytes) → drop (n + m) s ≡ drop m (drop n s)
drop-add zero m s = ap (λ (k : ℕ). drop k s) (omega arith)
drop-add (suc n) m [] = drop-nil (suc n + m) ∙ sym (drop-nil m)
drop-add (suc n) m (x ∷ s) =
    let e : suc n + m ≡ suc (n + m) = omega arith in
    ap (λ (k : ℕ). drop k (x ∷ s)) e ∙ drop-add n m s

-- At an offset in a text stands the given rest.
abbrev pub At : ℕ → Bytes → Bytes → Type 0
At n s rest = (n ≤ length s) × (drop n s ≡ rest)

pub At-start : (s : Bytes) → At 0 s s
At-start s = (omega arith, refl)

pub At-next : (n k : ℕ) (s a b : Bytes) → At n s (a ++ b) → length a ≡ k → At (n + k) s b
At-next n k s a b (l, e) h =
    let total = length-append a b in
    let left = length-drop n s in
    let same = ap length e in
    (
      omega arith,
      drop-add n k s
          ∙ ap (λ (t : Bytes). drop k t) e
          ∙ (ap (λ (j : ℕ). drop j (a ++ b)) (sym h) ∙ drop-length-append a b),
    )

pub get-At : (n k : ℕ) (s a b : Bytes) → At n s (a ++ b) → length a ≡ k → get n (n + k) s ≡ some a
unfolding get
get-At n k s a b (l, e) h =
    let total = length-append a b in
    let left = length-drop n s in
    let same = ap length e in
    let low : leb n (n + k) ≡ true = ground arith in
    let high : leb (n + k) (length s) ≡ true = ground arith in
    let width : n + k - n ≡ length a = omega arith in
    rw (low, high, width, e, take-length-append a b) refl

pub At-end : (n : ℕ) (s : Bytes) → At n s [] → n ≡ length s
At-end n s (l, e) = omega (arith, length-drop n s, ap length e)
