-- ===== src/Examples/Vaults.antt =====
-- A vault that is created, its container, and the theorem on them.
use cc_wallet_gui.Prelude.{
  ◌^◌, ◌<◌, List, [], ◌∷◌, some, true, ◌≡◌, refl, arith, ok, err, panic, Bytes, codes, length,
  replicate,
}
use cc_wallet_gui.Strings.{utf8_from, is_utf8}
use cc_wallet_gui.External.Reference.{reference_crypto}
use cc_wallet_gui.Vault.{VaultResult, KdfParams}
use cc_wallet_gui.Vault.Keyslot.{build}
use cc_wallet_gui.Vault.Header.{wallet, activity, journal}
use cc_wallet_gui.Vault.Container.{
  Vault, Section, create_named_with, seal_container, open_container,
}
use cc_wallet_gui.Vault.Payloads.{payload_of}
use cc_wallet_gui.Vault.RoundTrip.{opened}
use cc_wallet_gui.Vault.Slot.{open_container-seal_container}

abbrev password : Bytes
password = codes "sesame"

abbrev params : KdfParams
params = record { m_kib = 32; t = 2; p = 1 }

abbrev name : Bytes
name = codes "w"

abbrev bytes_of : VaultResult Bytes → Bytes
bytes_of (ok bytes) = bytes
bytes_of (err _) = []
bytes_of panic = []

abbrev vault : Vault
unfolding build
vault = record {
  params = params;
  dek = replicate 32 7;
  keyslot = bytes_of (build 2 password params (replicate 16 7) (replicate 32 7));
  display_name = name;
}

abbrev sections : List Section
sections = (journal, codes "j") ∷ (wallet, codes "w") ∷ []

abbrev sealed : Bytes
unfolding seal_container
sealed = bytes_of (seal_container 5 vault 9 sections)

named : is_utf8 name ≡ true
unfolding utf8_from
named = refl

create_call : create_named_with 0 password params name ≡ ok vault
unfolding create_named_with vault
create_call = refl

seal_call : seal_container 5 vault 9 sections ≡ ok sealed
unfolding seal_container vault sealed
seal_call = refl

short : length sealed < 2 ^ 64
unfolding seal_container vault sealed
short = omega arith

vault_example :
    (w j : Bytes) × (payload_of wallet sections ≡ some w)
    × (payload_of journal sections ≡ some j)
    × (open_container sealed password ≡ ok (opened vault 9 w j (payload_of activity sections)))
vault_example =
    open_container-seal_container 0 5 password params name vault 9 sections sealed named create_call
      (omega arith) seal_call short
