-- ===== src/External/Addresses.antt =====
-- `tycho_types::models::StdAddr`, the parser and printer of addresses, as a parameter of the model,
-- with what its documentation says as laws.
use cc_wallet_gui.Prelude.{
  ◌≡◌, ◌≢◌, ◌∷◌, ◌++◌, Bool, false, String, Bytes, Outcome, ok, panic, ℤ, length, All,
}
use cc_wallet_gui.Ids.{hex_lower_encode}
use cc_wallet_gui.Journal.Identity.{int_text}
use cc_wallet_gui.External.{IsByte}

-- What the code reads of a parsed `tycho_types::models::StdAddr`.
pub record StdAddr : Type 0 where
  pub has_anycast : Bool
  pub workchain : ℤ
  pub address : Bytes

-- `StdAddr::from_str_ext` with `StdAddrFormat::any()`, the text of whose error is a string, and the
-- `Display` of an address.
pub record StdAddrs : Type 0 where
  pub from_str : Bytes → Outcome String StdAddr
  pub to_string : StdAddr → Bytes
  -- The parser returns; an address that it gives has 32 bytes.
  pub from_str_returns : (s : Bytes) → from_str s ≢ panic
  pub from_str_bytes :
      (s : Bytes) (a : StdAddr) → from_str s ≡ ok a → (length a.address ≡ 32) × All IsByte a.address
  -- The text of an address that was parsed, and has no anycast, is the raw form: the workchain, a
  -- colon, the bytes in hexadecimal; and this text is read as the address.
  pub to_string_raw :
      (s : Bytes) (a : StdAddr)
      → from_str s ≡ ok a
      → a.has_anycast ≡ false
      → to_string a ≡ int_text a.workchain ++ b':' ∷ hex_lower_encode a.address
  pub from_str-to_string :
      (s : Bytes) (a : StdAddr)
      → from_str s ≡ ok a
      → a.has_anycast ≡ false
      → from_str (to_string a) ≡ ok a
