-- ===== src/Ids.antt =====
-- `crates/cc-wallet-domain/src/ids.rs`: 32-byte identifiers and their lowercase hexadecimal text.
pub mod RoundTrip
use Prim.Native.Nat.{bit_or}
use cc_wallet_gui.Prelude.{
  ℕ, zero, suc, ◌+◌, ◌-◌, ◌*◌, ◌/◌, ◌%◌, List, [], ◌∷◌, ◌++◌, Option, none, some, Bool, true, false,
  not, ◌&&◌, ltb, leb, ◌==◌, if◌then◌else◌, Bytes, length, Outcome, ok, err, panic, ◌>>=◌, ◌>>◌,
  reject_if, ok_or,
}

-- The bytes of an identifier; `RecordId`, `RiskNonce` and `Digest32` are such newtypes.
abbrev pub RecordId : Type 0
RecordId = Bytes

abbrev pub RiskNonce : Type 0
RiskNonce = Bytes

abbrev pub Digest32 : Type 0
Digest32 = Bytes

abbrev pub id_bytes : ℕ
id_bytes = 32

abbrev pub id_hex_len : ℕ
id_hex_len = id_bytes * 2

pub data IdError : Type 0 where
  wrong_length non_canonical_hex : IdError

-- `HEX_DIGITS[n]`
unfoldable pub hex_digit : ℕ → ℕ
hex_digit n = if ltb n 10 then b'0' + n else b'a' + (n - 10)

unfoldable pub hex_lower_encode : Bytes → Bytes
unfolding hex_digit
hex_lower_encode [] = []
hex_lower_encode (b ∷ s) = hex_digit (b / 16) ∷ hex_digit (b % 16) ∷ hex_lower_encode s

unfoldable pub lower_hex_value : ℕ → Outcome IdError ℕ
lower_hex_value b =
    if leb b'0' b && leb b b'9'
    then ok (b - b'0')
    else if leb b'a' b && leb b b'f'
    then ok (b - b'a' + 10)
    else err non_canonical_hex

-- the loop over the pairs
unfoldable pub decode_pairs : Bytes → Outcome IdError Bytes
unfolding lower_hex_value
decode_pairs [] = ok []
decode_pairs (_ ∷ []) = ok []
decode_pairs (h ∷ l ∷ s) = do
  hi ← lower_hex_value h
  lo ← lower_hex_value l
  out ← decode_pairs s
  ok (bit_or (hi * 16) lo ∷ out)

-- `.ok()?`
to_option {ℓ κ} : {E : Type ℓ} {A : Type κ} → Outcome E A → Option A
to_option (ok a) = some a
to_option _ = none

unfoldable pub hex_lower_decode : Bytes → Option Bytes
unfolding decode_pairs to_option
hex_lower_decode text = if length text % 2 == 0 then to_option (decode_pairs text) else none

-- `try_from_hex`, `to_hex`
unfoldable pub try_from_hex : Bytes → Outcome IdError Bytes
unfolding hex_lower_decode
try_from_hex text = do
  reject_if (not (length text == id_hex_len)) wrong_length
  bytes ← ok_or (hex_lower_decode text) non_canonical_hex
  reject_if (not (length bytes == id_bytes)) wrong_length
  ok bytes

unfoldable pub to_hex : Bytes → Bytes
unfolding hex_lower_encode
to_hex bytes = hex_lower_encode bytes
