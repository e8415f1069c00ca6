-- ===== src/Vault/Keyslot.antt =====
-- `crates/cc-wallet-vault/src/keyslot.rs`: the slot in front of a container that wraps its key.
use cc_wallet_gui.Prelude.{
  ℕ, zero, suc, ◌+◌, ◌-◌, [], ◌∷◌, ◌++◌, not, ltb, ◌==◌, if◌then◌else◌, Outcome, ok, panic, ◌>>=◌,
  ◌>>◌, reject_if, Bytes, codes, bytes_eq, length, take, drop,
}
use cc_wallet_gui.External.Crypto.{Crypto}
use cc_wallet_gui.Vault.{
  wrong_password, truncated, unsupported_format, VaultResult, to_le_bytes, from_le_bytes, KdfParams,
  validate_params, nonce_len, tag_len, derive_kek, seal, open_sealed,
}

abbrev pub magic : Bytes
magic = codes "CCWALLET"

abbrev pub format_version : ℕ
format_version = 1

abbrev pub kdf_id_argon2id : ℕ
kdf_id_argon2id = 1

abbrev pub aead_id_xchacha : ℕ
aead_id_xchacha = 1

abbrev pub prefix_len : ℕ
prefix_len = 40

abbrev pub keyslot_len : ℕ
keyslot_len = prefix_len + nonce_len + 32 + tag_len

unfoldable pub encode_prefix : KdfParams → Bytes → Bytes
unfolding to_le_bytes
encode_prefix params salt =
    magic
    ++ (to_le_bytes 2 format_version
        ++ (kdf_id_argon2id
            ∷ (to_le_bytes 4 params.m_kib
                ++ (to_le_bytes 4 params.t
                    ++ (to_le_bytes 4 params.p ++ (salt ++ aead_id_xchacha ∷ []))))))

-- `&bytes[low..high]`, where the code has tested the length
abbrev pub slice : ℕ → ℕ → Bytes → Bytes
slice low high bytes = take (high - low) (drop low bytes)

-- `bytes[i]`, likewise
unfoldable pub byte_at : ℕ → Bytes → ℕ
byte_at i [] = 0
byte_at zero (b ∷ s) = b
byte_at (suc i) (b ∷ s) = byte_at i s

unfoldable pub header_params : Bytes → KdfParams
unfolding from_le_bytes
header_params bytes = record {
  m_kib = from_le_bytes (slice 11 15 bytes);
  t = from_le_bytes (slice 15 19 bytes);
  p = from_le_bytes (slice 19 23 bytes);
}

-- The end of `validate_header`, on the parameters that it has read.
unfoldable pub accept_params : Bytes → KdfParams → VaultResult KdfParams
unfolding validate_params byte_at
accept_params bytes params = do
  validate_params params
  reject_if (not (byte_at 39 bytes == aead_id_xchacha)) (unsupported_format "unknown AEAD id")
  ok params

unfoldable pub validate_header : Bytes → VaultResult KdfParams
unfolding bytes_eq from_le_bytes byte_at header_params accept_params
validate_header bytes = do
  reject_if (ltb (length bytes) keyslot_len) truncated
  reject_if (not (bytes_eq (slice 0 8 bytes) magic)) (unsupported_format "not a cc-wallet vault")
  let version = from_le_bytes (slice 8 10 bytes)
  reject_if (not (version == format_version)) (
      unsupported_format (
        if ltb version format_version
        then "vault was created by an older version of CC Wallet"
        else "vault was created by a newer version of CC Wallet"))
  reject_if (not (byte_at 10 bytes == kdf_id_argon2id)) (unsupported_format "unknown KDF id")
  accept_params bytes (header_params bytes)

pub record Opened : Type 0 where
  pub params : KdfParams
  pub dek : Bytes

-- `dek.copy_from_slice`, which panics unless the lengths agree
unfoldable pub copy_32 {ℓ} : {E : Type ℓ} → Bytes → Outcome E Bytes
copy_32 bytes = if length bytes == 32 then ok bytes else panic

module _ ⦃crypto_lib : Crypto⦄ where
  unfoldable pub build : ℕ → Bytes → KdfParams → Bytes → Bytes → VaultResult Bytes
  unfolding encode_prefix derive_kek seal
  build call password params salt dek = do
    let prefix = encode_prefix params salt
    kek ← derive_kek password salt params
    wrap ← seal call kek dek prefix
    ok (prefix ++ wrap)

  -- `keyslot::open`
  unfoldable pub open_slot : Bytes → Bytes → VaultResult Opened
  unfolding validate_header derive_kek open_sealed copy_32
  open_slot bytes password = do
    params ← validate_header bytes
    let salt = slice 23 39 bytes
    let prefix = take prefix_len bytes
    let wrap = slice prefix_len keyslot_len bytes
    kek ← derive_kek password salt params
    dek_bytes ← open_sealed kek wrap prefix wrong_password
    dek ← copy_32 dek_bytes
    ok (record { params = params; dek = dek })
