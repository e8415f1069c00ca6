-- ===== src/External/Crypto.antt =====
-- The cryptography that the vault calls, as parameters of the model: Argon2 (`argon2`),
-- XChaCha20-Poly1305 (`chacha20poly1305`), `blake3::derive_key` and `getrandom`, with what their
-- documentation says as laws.
use cc_wallet_gui.Prelude.{ℕ, ◌+◌, ◌≡◌, Bool, Option, some, Bytes, length}

pub record Crypto : Type 0 where
  -- `Params::new` accepts the parameters, with 32 bytes of output
  pub argon2_params : ℕ → ℕ → ℕ → Bool
  -- `hash_password_into`, from password and salt
  pub argon2 : ℕ → ℕ → ℕ → Bytes → Bytes → Option Bytes
  pub argon2_length :
      (m t p : ℕ) (password salt key : Bytes)
      → argon2 m t p password salt ≡ some key
      → length key ≡ 32
  -- `encrypt` and `decrypt`, from key, nonce, message and associated data
  pub encrypt : Bytes → Bytes → Bytes → Bytes → Option Bytes
  pub decrypt : Bytes → Bytes → Bytes → Bytes → Option Bytes
  -- The tag is 16 bytes.
  pub encrypt_length :
      (key nonce msg aad sealed : Bytes)
      → encrypt key nonce msg aad ≡ some sealed
      → length sealed ≡ length msg + 16
  -- What is encrypted is decrypted with the same key, nonce and associated data.
  pub decrypt-encrypt :
      (key nonce msg aad sealed : Bytes)
      → encrypt key nonce msg aad ≡ some sealed
      → decrypt key nonce sealed aad ≡ some msg
  -- `blake3::derive_key`, from context and key material
  pub derive_key : Bytes → Bytes → Bytes
  pub derive_key_length : (context key : Bytes) → length (derive_key context key) ≡ 32
  -- `getrandom::fill`: what the call with a number gives for a length
  pub random : ℕ → ℕ → Option Bytes
  pub random_length : (call n : ℕ) (bytes : Bytes) → random call n ≡ some bytes → length bytes ≡ n
