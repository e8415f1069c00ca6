-- ===== src/Journal/Identity.antt =====
-- journal.rs: identities in tickets and events, and the canonical text of an address.
use cc_wallet_gui.Prelude.{
  ℕ, ◌+◌, ◌-◌, [], ◌∷◌, Option, none, some, Bool, true, false, not, ◌&&◌, ◌||◌, ltb, leb, ◌==◌,
  if◌then◌else◌, all, any, Bytes, bytes_eq, length, ok, ◌>>=◌, ◌>>◌, reject_if, ok_or, ℤ, pos,
  negsuc, int_eq,
}
use cc_wallet_gui.Decimal.{is_ascii_digit, value, value_from, to_decimal}
use cc_wallet_gui.Strings.{trim, split_once}
use cc_wallet_gui.Amount.{is_empty}
use cc_wallet_gui.Ids.{hex_lower_decode}
use cc_wallet_gui.Digest.{CanonicalAddress}
use cc_wallet_gui.Journal.Errors.{invalid_ticket, Journaled}

-- `byte == 0 || byte.is_ascii_control()`
is_control : ℕ → Bool
is_control b = b == 0 || ltb b 0x20 || b == 0x7f

unfoldable pub validate_identity : Bytes → Bool
unfolding is_empty trim is_control bytes_eq
validate_identity value =
    not (is_empty value) && bytes_eq (trim value) value && not (any is_control value)

-- `str::parse::<i8>`: an optional sign, then digits, in range.
digits_i8 : Bool → Bytes → Option ℤ
unfolding value_from is_empty
digits_i8 negative s =
    if is_empty s || not (all is_ascii_digit s)
    then none
    else if negative
    then (if value s == 0
        then some (pos 0)
        else if leb (value s) 128
        then some (negsuc (value s - 1))
        else none)
    else if leb (value s) 127
    then some (pos (value s))
    else none

unfoldable pub parse_i8 : Bytes → Option ℤ
unfolding digits_i8
parse_i8 [] = none
parse_i8 (c ∷ s) =
    if c == b'+'
    then digits_i8 false s
    else if c == b'-'
    then digits_i8 true s
    else digits_i8 false (c ∷ s)

-- `i8::to_string`
unfoldable pub int_text : ℤ → Bytes
unfolding to_decimal
int_text (pos n) = to_decimal n
int_text (negsuc n) = b'-' ∷ to_decimal (n + 1)

is_masterchain_or_basechain : ℤ → Bool
unfolding int_eq
is_masterchain_or_basechain w = int_eq w (negsuc 0) || int_eq w (pos 0)

-- `.filter(|decoded| decoded.len() == 32)`
unfoldable pub only_32_bytes : Option Bytes → Option Bytes
only_32_bytes none = none
only_32_bytes (some s) = if length s == 32 then some s else none

unfoldable pub parse_canonical_address : Bytes → Journaled CanonicalAddress
unfolding split_once parse_i8 int_text is_masterchain_or_basechain only_32_bytes hex_lower_decode
    bytes_eq
parse_canonical_address value = do
  p ← ok_or (split_once b':' value) (invalid_ticket "address is not workchain:hash")
  workchain ← ok_or (parse_i8 p.0) (invalid_ticket "address workchain is not an i8")
  reject_if (not (is_masterchain_or_basechain workchain) || not (bytes_eq (int_text workchain) p.0))
      (invalid_ticket "address workchain is not canonical 0 or -1")
  bytes ←
      ok_or (only_32_bytes (hex_lower_decode p.1))
        (invalid_ticket "address hash is not 64 lowercase hex digits")
  ok (record { workchain = workchain; account = bytes })
