-- ===== src/Vault.antt =====
-- `crates/cc-wallet-vault/src/`: error.rs, params.rs and aead.rs. The children are the key slot
-- (`Keyslot`, keyslot.rs), the container (`Container`, vault.rs), and what is proved of them.
pub mod Keyslot
pub mod Header
pub mod Manifest
pub mod Container
pub mod Layout
pub mod Sealing
pub mod ParseHeader
pub mod ParseManifest
pub mod Payloads
pub mod RoundTrip
pub mod Slot
use cc_wallet_gui.Prelude.{
  ℕ, zero, suc, ◌+◌, ◌-◌, ◌*◌, ◌/◌, ◌%◌, List, [], ◌∷◌, ◌++◌, Option, none, some, Bool, true, false,
  not, ◌&&◌, ◌||◌, ◌≡◌, String, ltb, leb, ◌==◌, if◌then◌else◌, Outcome, ok, err, panic, ◌>>=◌, ◌>>◌,
  reject_if, ok_or, Bytes, length, take, drop,
}
use cc_wallet_gui.External.Crypto.{Crypto}

pub data VaultError : Type 0 where
  wrong_password truncated rng : VaultError
  invalid_display_name corrupt unsupported_format params_rejected crypto : String → VaultError

abbrev pub VaultResult {ℓ} : Type ℓ → Type ℓ
VaultResult A = Outcome VaultError A

-- `to_le_bytes` of a number of `k` bytes, and `from_le_bytes`
unfoldable pub to_le_bytes : ℕ → ℕ → Bytes
to_le_bytes zero n = []
to_le_bytes (suc k) n = n % 256 ∷ to_le_bytes k (n / 256)

unfoldable pub from_le_bytes : Bytes → ℕ
from_le_bytes [] = 0
from_le_bytes (b ∷ s) = b + 256 * from_le_bytes s

pub record KdfParams : Type 0 where
  pub m_kib : ℕ
  pub t : ℕ
  pub p : ℕ

abbrev pub default_params : KdfParams
default_params = record { m_kib = 262144; t = 3; p = 1 }

abbrev pub floor_params : KdfParams
floor_params = record { m_kib = 65536; t = 3; p = 1 }

abbrev pub min_m_kib : ℕ
min_m_kib = 8

abbrev pub max_m_kib : ℕ
max_m_kib = 1048576

abbrev pub min_t : ℕ
min_t = 1

abbrev pub max_t : ℕ
max_t = 16

-- `KdfParams::validate`
unfoldable pub validate_params : KdfParams → VaultResult (Unit {0})
validate_params params = do
  reject_if (ltb params.m_kib min_m_kib || ltb max_m_kib params.m_kib)
      (params_rejected "memory cost out of range")
  reject_if (ltb params.t min_t || ltb max_t params.t) (params_rejected "time cost out of range")
  reject_if (not (params.p == 1)) (params_rejected "parallelism must be 1")
  ok tt

unfoldable pub weaker_than : KdfParams → KdfParams → Bool
weaker_than params current = ltb params.m_kib current.m_kib || ltb params.t current.t

unfoldable pub meets_floor : KdfParams → Bool
unfolding weaker_than
meets_floor params = not (weaker_than params floor_params)

abbrev pub nonce_len : ℕ
nonce_len = 24

abbrev pub tag_len : ℕ
tag_len = 16

module _ ⦃crypto_lib : Crypto⦄ where
  unfoldable pub derive_kek : Bytes → Bytes → KdfParams → VaultResult Bytes
  unfolding validate_params
  derive_kek password salt params = do
    validate_params params
    reject_if (not (crypto_lib.argon2_params params.m_kib params.t params.p))
        (params_rejected "invalid argon2 params")
    ok_or (crypto_lib.argon2 params.m_kib params.t params.p password salt)
        (crypto "argon2 hashing failed (out of memory?)")

  -- `aead::seal`; `call` numbers the call of `getrandom`.
  unfoldable pub seal : ℕ → Bytes → Bytes → Bytes → VaultResult Bytes
  seal call key plaintext aad = do
    nonce ← ok_or (crypto_lib.random call nonce_len) rng
    reject_if (not (length key == 32)) (crypto "bad key length")
    sealed ← ok_or (crypto_lib.encrypt key nonce plaintext aad) (crypto "AEAD encryption failed")
    ok (nonce ++ sealed)

  -- `aead::open`
  unfoldable pub open_sealed : Bytes → Bytes → Bytes → VaultError → VaultResult Bytes
  open_sealed key blob aad on_tag_fail = do
    reject_if (ltb (length blob) (nonce_len + tag_len)) truncated
    let nonce = take nonce_len blob
    reject_if (not (length nonce == nonce_len)) (crypto "bad nonce length")
    reject_if (not (length key == 32)) (crypto "bad key length")
    ok_or (crypto_lib.decrypt key nonce (drop nonce_len blob) aad) on_tag_fail
