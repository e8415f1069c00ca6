-- ===== src/Ids/RoundTrip.antt =====
-- Identifiers and their hexadecimal text are in bijection.
use Prim.Native.Nat.{bit_or}
use cc_wallet_gui.Prelude.{
  ℕ, zero, suc, ◌+◌, ◌*◌, ◌/◌, ◌%◌, ◌<◌, [], ◌∷◌, some, Bool, true, not, ◌&&◌, ◌≡◌, refl, arith,
  ◌==◌, Bytes, length, Outcome, ok, err, panic, ◌>>◌, reject_if, ok_or, All, ==_iff, >>=-eq-ok,
  ok_or-eq-ok, Bool-cases, inl, inr,
}
use cc_wallet_gui.External.{IsByte}
use cc_wallet_gui.Ids.{
  hex_digit, hex_lower_encode, lower_hex_value, decode_pairs, to_option, hex_lower_decode,
  try_from_hex, to_hex, id_bytes, id_hex_len, wrong_length, IdError, non_canonical_hex,
}

-- Every value below a small bound is tried.
holds_up_to : (ℕ → Bool) → ℕ → Bool
holds_up_to test zero = true
holds_up_to test (suc bound) = holds_up_to test bound && test bound

holds_up_to_lem :
    (test : ℕ → Bool) (bound a : ℕ) → a < bound → holds_up_to test bound ≡ true → test a ≡ true
unfolding holds_up_to
holds_up_to_lem test zero a below every = absurd (omega arith)
holds_up_to_lem test (suc bound) a below every = ground (arith, holds_up_to_lem test bound a)

joins : ℕ → ℕ → Bool
joins a b = bit_or (a * 16) b == a * 16 + b

nibbles_table : holds_up_to (λ a. holds_up_to (joins a) 16) 16 ≡ true
unfolding holds_up_to joins
nibbles_table = refl

bit_or-nibbles : (a b : ℕ) → a < 16 → b < 16 → bit_or (a * 16) b ≡ a * 16 + b
unfolding joins
bit_or-nibbles a b ha hb =
    let row = holds_up_to_lem (λ d. holds_up_to (joins d) 16) 16 a ha nibbles_table in
    (==_iff _ _).0 (holds_up_to_lem (joins a) 16 b hb row)

lower_hex_value-hex_digit : (n : ℕ) → n < 16 → lower_hex_value (hex_digit n) ≡ ok n
unfolding lower_hex_value hex_digit
lower_hex_value-hex_digit n h = ground arith

hex_digit-lower_hex_value : (c n : ℕ) → lower_hex_value c ≡ ok n → (n < 16) × (hex_digit n ≡ c)
unfolding lower_hex_value hex_digit
hex_digit-lower_hex_value c n h = ground arith

decode_pairs-encode : (s : Bytes) → All IsByte s → decode_pairs (hex_lower_encode s) ≡ ok s
unfolding decode_pairs hex_lower_encode
decode_pairs-encode [] h = refl
decode_pairs-encode (b ∷ s) (hb, hs) =
    rw
      (
        lower_hex_value-hex_digit (b / 16) (omega arith),
        lower_hex_value-hex_digit (b % 16) (omega arith),
        decode_pairs-encode s hs,
        bit_or-nibbles (b / 16) (b % 16) (omega arith) (omega arith),
      )
      (ground arith)

length-encode : (s : Bytes) → length (hex_lower_encode s) ≡ 2 * length s
unfolding hex_lower_encode
length-encode [] = omega arith
length-encode (b ∷ s) = omega (arith, length-encode s)

pub hex_lower_decode-encode :
    (s : Bytes) → All IsByte s → hex_lower_decode (hex_lower_encode s) ≡ some s
unfolding hex_lower_decode
hex_lower_decode-encode s h =
    let even : (length (hex_lower_encode s) % 2 == 0) ≡ true =
      (==_iff _ _).1 (omega (arith, length-encode s)) in
    rw (even, decode_pairs-encode s h)

-- The text of 32 bytes is read back as those bytes.
pub try_from_hex-to_hex :
    (s : Bytes) → length s ≡ 32 → All IsByte s → try_from_hex (to_hex s) ≡ ok s
unfolding try_from_hex to_hex
try_from_hex-to_hex s l h =
    let long : (length (hex_lower_encode s) == 64) ≡ true =
      (==_iff _ _).1 (omega (arith, length-encode s)) in
    let same : (length s == 32) ≡ true = (==_iff _ _).1 l in
    rw (long, hex_lower_decode-encode s h, same)

abbrev Spells : Bytes → Bytes → Type 0
Spells s text = (hex_lower_encode s ≡ text) × All IsByte s × (length text ≡ 2 * length s)

pair-Spells :
    (c d hi lo : ℕ) (out s text : Bytes)
    → lower_hex_value c ≡ ok hi
    → lower_hex_value d ≡ ok lo
    → ◌≡◌ {A = Outcome IdError Bytes} (ok (bit_or (hi * 16) lo ∷ out)) (ok s)
    → Spells out text
    → Spells s (c ∷ d ∷ text)
unfolding hex_lower_encode
pair-Spells c d hi lo out s text high low done (spelt, bytes, long) =
    let (hi_lt, hi_digit) = hex_digit-lower_hex_value c hi high in
    let (lo_lt, lo_digit) = hex_digit-lower_hex_value d lo low in
    let joined = bit_or-nibbles hi lo hi_lt lo_lt in
    let upper : (hi * 16 + lo) / 16 ≡ hi = omega arith in
    let lower : (hi * 16 + lo) % 16 ≡ lo = omega arith in
    ground (arith, spelt, bytes, long, joined, upper, lower, hi_digit, lo_digit)

decode_pairs-Spells :
    (text s : Bytes) → length text % 2 ≡ 0 → decode_pairs text ≡ ok s → Spells s text
unfolding decode_pairs hex_lower_encode
decode_pairs-Spells [] s e h = ground arith
decode_pairs-Spells (_ ∷ []) s e h = absurd (omega arith)
decode_pairs-Spells (c ∷ d ∷ text) s e h =
    let (hi, high, rest) = >>=-eq-ok (lower_hex_value c) _ h in
    let (lo, low, rest') = >>=-eq-ok (lower_hex_value d) _ rest in
    let (out, pairs, done) = >>=-eq-ok (decode_pairs text) _ rest' in
    pair-Spells c d hi lo out s text high low done
      (decode_pairs-Spells text out (omega arith) pairs)

to_option-eq-some {ℓ κ} :
    {E : Type ℓ} {A : Type κ} (m : Outcome E A) {a : A} → to_option m ≡ some a → m ≡ ok a
unfolding to_option
to_option-eq-some (ok a) h = cc
to_option-eq-some (err e) h = cc
to_option-eq-some panic h = cc

hex_lower_decode-Spells : (text s : Bytes) → hex_lower_decode text ≡ some s → Spells s text
unfolding hex_lower_decode
hex_lower_decode-Spells text s h = elim (Bool-cases (length text % 2 == 0)) [
  | inl e ↦ decode_pairs-Spells text s ((==_iff _ _).0 e) (to_option-eq-some _ (rw e at h))
  | inr o ↦ cc (rw o at h)
]

id_of_bytes :
    (text bytes s : Bytes)
    → Spells bytes text
    → (reject_if (not (length bytes == id_bytes)) wrong_length >> ok bytes) ≡ ok s
    → (hex_lower_encode s ≡ text) × (length s ≡ 32) × All IsByte s
id_of_bytes text bytes s (spelt, h, long) e = ground arith

-- A text that is accepted is the text of the identifier that it gives: no two texts name one
-- identifier. The identifier has 32 bytes.
pub to_hex-try_from_hex :
    (text s : Bytes) → try_from_hex text ≡ ok s → (to_hex s ≡ text) × (length s ≡ 32) × All IsByte s
unfolding try_from_hex to_hex
to_hex-try_from_hex text s h =
    let (u, long, rest) =
      >>=-eq-ok (reject_if (not (length text == id_hex_len)) wrong_length) _ h in
    let (bytes, decoded, rest') =
      >>=-eq-ok (ok_or (hex_lower_decode text) non_canonical_hex) _ rest in
    id_of_bytes text bytes s (hex_lower_decode-Spells text bytes (ok_or-eq-ok _ _ decoded)) rest'
