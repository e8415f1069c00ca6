-- ===== src/Vault/Header.antt =====
-- `crates/cc-wallet-vault/src/vault.rs`: the purposes of sections and the public header of a
-- container.
use cc_wallet_gui.Prelude.{
  ℕ, ◌+◌, ◌-◌, ◌^◌, [], ◌∷◌, ◌++◌, Option, none, some, Bool, false, not, ◌&&◌, ◌||◌, String, ltb,
  leb, ◌==◌, if◌then◌else◌, Outcome, ok, panic, ◌>>=◌, ◌>>◌, reject_if, ok_or, and_then, map_err,
  Bytes, codes, length, take, drop,
}
use cc_wallet_gui.Strings.{trim, is_utf8}
use cc_wallet_gui.Amount.{is_empty}
use cc_wallet_gui.Vault.{
  truncated, corrupt, VaultResult, to_le_bytes, from_le_bytes, nonce_len, tag_len,
}
use cc_wallet_gui.Vault.Keyslot.{keyslot_len, validate_header}

pub data Purpose : Type 0 where
  wallet activity journal : Purpose

unfoldable pub purpose_id : Purpose → ℕ
purpose_id wallet = 1
purpose_id activity = 2
purpose_id journal = 3

unfoldable pub from_id : ℕ → Option Purpose
from_id id =
    if id == 1
    then some wallet
    else if id == 2
    then some activity
    else if id == 3
    then some journal
    else none

-- The UTF-8 bytes; the middle dot is two bytes.
unfoldable pub context : Purpose → Bytes
context wallet = codes "cc-wallet vault v1 2026 " ++ (0xc2 ∷ 0xb7 ∷ codes " wallet")
context activity = codes "cc-wallet vault v1 2026 " ++ (0xc2 ∷ 0xb7 ∷ codes " activity")
context journal = codes "cc-wallet vault v1 2026 " ++ (0xc2 ∷ 0xb7 ∷ codes " journal")

abbrev pub max_sections : ℕ
max_sections = 8

abbrev pub dir_entry_len : ℕ
dir_entry_len = 5

abbrev pub max_display_name_bytes : ℕ
max_display_name_bytes = 192

abbrev pub display_name_len_bytes : ℕ
display_name_len_bytes = 2

abbrev pub default_display_name : Bytes
default_display_name = codes "wallet"

abbrev pub save_id_len : ℕ
save_id_len = 16

abbrev pub counter_len : ℕ
counter_len = 8

abbrev pub display_name_len_offset : ℕ
display_name_len_offset = keyslot_len

abbrev pub display_name_offset : ℕ
display_name_offset = display_name_len_offset + display_name_len_bytes

-- `usize::checked_add` on a 64-bit machine
unfoldable pub usize_checked_add : ℕ → ℕ → Option ℕ
usize_checked_add a b = if ltb (a + b) (2 ^ 64) then some (a + b) else none

-- `u32::try_from`
unfoldable pub u32_try_from : ℕ → Option ℕ
u32_try_from n = if ltb n (2 ^ 32) then some n else none

unfoldable pub section_frame_len : ℕ → VaultResult ℕ
unfolding usize_checked_add u32_try_from
section_frame_len payload_len =
    ok_or
      (and_then
        (and_then (usize_checked_add nonce_len payload_len) (λ n. usize_checked_add n tag_len))
        u32_try_from)
      (corrupt "section body length exceeds u32")

-- `chars().any(char::is_control)` on UTF-8: below 0x20, 0x7f, and 0x80 to 0x9f behind 0xc2
unfoldable pub has_control : Bytes → Bool
has_control [] = false
has_control (c ∷ []) = ltb c 0x20 || c == 0x7f
has_control (c ∷ d ∷ s) =
    ltb c 0x20 || c == 0x7f || (c == 0xc2 && leb 0x80 d && leb d 0x9f) || has_control (d ∷ s)

unfoldable pub validate_display_name : Bytes → Outcome String (Unit {0})
unfolding trim is_empty has_control
validate_display_name display_name = do
  reject_if (is_empty (trim display_name)) "name must not be empty or whitespace-only"
  reject_if (ltb max_display_name_bytes (length display_name)) "UTF-8 name is too long"
  reject_if (has_control display_name) "name must not contain control characters"
  ok tt

-- `expect` of `u16::try_from`, then the two bytes and the name
unfoldable pub encode_display_header {ℓ} : {E : Type ℓ} → Bytes → Outcome E Bytes
unfolding to_le_bytes
encode_display_header display_name =
    if ltb (length display_name) (2 ^ 16)
    then ok (to_le_bytes 2 (length display_name) ++ display_name)
    else panic

-- `bytes.get(low..high)`
unfoldable pub get : ℕ → ℕ → Bytes → Option Bytes
get low high bytes =
    if leb low high && leb high (length bytes)
    then some (take (high - low) (drop low bytes))
    else none

pub record PublicHeader : Type 0 where
  pub display_name : Bytes
  pub display_header : Bytes
  pub save_id : Bytes
  pub counter : ℕ
  pub manifest_offset : ℕ

unfoldable pub parse_public_header : Bytes → VaultResult PublicHeader
unfolding validate_header get from_le_bytes usize_checked_add validate_display_name
parse_public_header bytes = do
  validate_header bytes
  raw_len ← ok_or (get display_name_len_offset display_name_offset bytes) truncated
  let display_name_len = from_le_bytes raw_len
  reject_if (ltb max_display_name_bytes display_name_len) (corrupt "display name is too long")
  display_name_end ←
      ok_or (usize_checked_add display_name_offset display_name_len)
        (corrupt "display name length overflow")
  display_name ← ok_or (get display_name_offset display_name_end bytes) truncated
  reject_if (not (is_utf8 display_name)) (corrupt "display name is not valid UTF-8")
  map_err (λ _. corrupt "display name is invalid") (validate_display_name display_name)
  counter_offset ←
      ok_or (usize_checked_add display_name_end save_id_len) (corrupt "header offset overflow")
  manifest_offset ←
      ok_or (usize_checked_add counter_offset counter_len) (corrupt "header offset overflow")
  save_id ← ok_or (get display_name_end counter_offset bytes) truncated
  raw_counter ← ok_or (get counter_offset manifest_offset bytes) truncated
  display_header ← ok_or (get display_name_len_offset display_name_end bytes) truncated
  ok (record {
    display_name = display_name;
    display_header = display_header;
    save_id = save_id;
    counter = from_le_bytes raw_counter;
    manifest_offset = manifest_offset;
  })
