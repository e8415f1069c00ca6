-- ===== src/External.antt =====
-- Code outside the repository that the domain crate calls: `num_bigint::BigUint` and
-- `sha2::Sha256`. They are parameters of the model. A `BigUint` is the natural number that it
-- stands for; the fields are the conversions, with what their documentation says of them.
pub mod Instances
pub mod Addresses
pub mod Crypto
pub mod Reference
use cc_wallet_gui.Prelude.{
  ℕ, ◌+◌, ◌*◌, ◌^◌, ◌<◌, ◌≤◌, ◌≡◌, ◌≢◌, ◌↔◌, List, [], ◌∷◌, Option, none, some, Bytes, All, length,
  ltb, if◌then◌else◌,
}
use cc_wallet_gui.Decimal.{IsDigit, value, to_decimal}

-- The number that big-endian bytes spell behind `n`.
unfoldable pub be_value_from : ℕ → Bytes → ℕ
be_value_from n [] = n
be_value_from n (b ∷ s) = be_value_from (n * 256 + b) s

abbrev pub be_value : Bytes → ℕ
be_value s = be_value_from 0 s

abbrev pub IsByte : ℕ → Type 0
IsByte b = b < 256

pub record BigUint : Type 0 where
  -- `BigUint::parse_bytes(_, 10)`, `to_str_radix(10)`, `bits`, `to_bytes_be`, `from_bytes_be`
  pub parse_bytes : Bytes → Option ℕ
  pub to_str_radix : ℕ → Bytes
  pub bits : ℕ → ℕ
  pub to_bytes_be : ℕ → Bytes
  pub from_bytes_be : Bytes → ℕ
  -- `u128::try_from`
  pub to_u128 : ℕ → Option ℕ
  -- A non-empty text of digits is read as the number that it spells.
  pub parse_bytes_digits : (s : Bytes) → s ≢ [] → All IsDigit s → parse_bytes s ≡ some (value s)
  -- The text is the decimal one without leading zeros.
  pub to_str_radix_decimal : (n : ℕ) → to_str_radix n ≡ to_decimal n
  -- `bits` is the least number of bits that holds the value.
  pub bits_le : (n k : ℕ) → (bits n ≤ k) ↔ (n < 2 ^ k)
  -- The big-endian bytes are bytes, spell the value, and are as few as possible, but at least one.
  pub to_bytes_be_bytes : (n : ℕ) → All IsByte (to_bytes_be n)
  pub to_bytes_be_value : (n : ℕ) → be_value (to_bytes_be n) ≡ n
  pub to_bytes_be_length : (n k : ℕ) → 0 < k → (length (to_bytes_be n) ≤ k) ↔ (n < 256 ^ k)
  pub from_bytes_be_value : (s : Bytes) → All IsByte s → from_bytes_be s ≡ be_value s
  pub to_u128_lem : (n : ℕ) → to_u128 n ≡ (if ltb n (2 ^ 128) then some n else none)

-- `Sha256::new`, `update` for each chunk and `finalize` give the hash of the chunks joined; the
-- hash is 32 bytes.
pub record Sha256 : Type 0 where
  pub hash : Bytes → Bytes
  pub hash_length : (s : Bytes) → length (hash s) ≡ 32
