-- ===== src/Vault/Container.antt =====
-- `crates/cc-wallet-vault/src/vault.rs`: sealing and opening containers.
use cc_wallet_gui.Prelude.{
  ℕ, ◌+◌, ◌%◌, List, [], ◌∷◌, ◌++◌, Option, none, some, Bool, true, false, not, ◌||◌, ltb, ◌==◌,
  if◌then◌else◌, Outcome, ok, err, panic, ◌>>=◌, ◌>>◌, reject_if, ok_or, map_err, Bytes, bytes_eq,
  length, take, map,
}
use cc_wallet_gui.External.Crypto.{Crypto}
use cc_wallet_gui.Vault.{
  VaultError, wrong_password, corrupt, rng, invalid_display_name, VaultResult, to_le_bytes,
  KdfParams, default_params, seal, open_sealed,
}
use cc_wallet_gui.Vault.Keyslot.{keyslot_len, build, open_slot}
use cc_wallet_gui.Vault.Header.{
  Purpose, wallet, activity, journal, purpose_id, from_id, context, default_display_name,
  save_id_len, section_frame_len, validate_display_name, encode_display_header, PublicHeader,
  parse_public_header,
}
use cc_wallet_gui.Vault.Manifest.{parse_manifest, check_cardinality}

pub data ActivitySection : Type 0 where
  absent corrupt_section : ActivitySection
  present : Bytes → ActivitySection

pub record OpenedKeyslot : Type 0 where
  pub dek : Bytes
  pub params : KdfParams
  pub keyslot : Bytes

pub record Vault : Type 0 where
  pub params : KdfParams
  pub dek : Bytes
  pub keyslot : Bytes
  pub display_name : Bytes

pub record OpenedContainer : Type 0 where
  pub vault : Vault
  pub wallet_payload : Bytes
  pub journal_payload : Bytes
  pub activity_payload : ActivitySection
  pub save_counter : ℕ
  pub has_unknown_sections : Bool

-- A section to seal: its purpose and its payload.
abbrev pub Section : Type 0
Section = Purpose × Bytes

unfoldable pub section_aad : Bytes → Purpose → Bytes → Bytes → ℕ → Bytes → Bytes
unfolding to_le_bytes purpose_id
section_aad keyslot purpose display_header save_id counter manifest =
    keyslot
    ++ (display_header
        ++ (save_id ++ (to_le_bytes 8 counter ++ (manifest ++ purpose_id purpose ∷ []))))

-- The loop over the sections that writes the directory.
unfoldable pub directory_entries : List Section → VaultResult Bytes
unfolding section_frame_len purpose_id to_le_bytes
directory_entries [] = ok []
directory_entries (section ∷ sections) = do
  body_len ← section_frame_len (length section.1)
  rest ← directory_entries sections
  ok (purpose_id section.0 ∷ (to_le_bytes 4 body_len ++ rest))

-- What the loop over the parsed sections has found.
pub record Found : Type 0 where
  pub found_wallet : Option Bytes
  pub found_journal : Option Bytes
  pub found_activity : ActivitySection

-- `match` on the opened activity section: every error makes it corrupt.
unfoldable pub activity_of {ℓ} : {E : Type ℓ} → VaultResult Bytes → Outcome E ActivitySection
activity_of (ok bytes) = ok (present bytes)
activity_of (err _) = ok corrupt_section
activity_of panic = panic

module _ ⦃crypto_lib : Crypto⦄ where
  unfoldable pub stream_key : Vault → Purpose → Bytes
  unfolding context
  stream_key v purpose = crypto_lib.derive_key (context purpose) v.dek

  unfoldable pub create_named_with : ℕ → Bytes → KdfParams → Bytes → VaultResult Vault
  unfolding validate_display_name build
  create_named_with call password params display_name = do
    map_err invalid_display_name (validate_display_name display_name)
    salt ← ok_or (crypto_lib.random call 16) rng
    dek ← ok_or (crypto_lib.random (call + 1) 32) rng
    keyslot ← build (call + 2) password params salt dek
    ok (record { params = params; dek = dek; keyslot = keyslot; display_name = display_name })

  -- `Vault::create_with` and `Vault::create`
  unfoldable pub create_with : ℕ → Bytes → KdfParams → VaultResult Vault
  unfolding create_named_with
  create_with call password params = create_named_with call password params default_display_name

  unfoldable pub create : ℕ → Bytes → VaultResult Vault
  unfolding create_named_with
  create call password = create_named_with call password default_params default_display_name

  unfoldable pub open_body :
      Vault → Purpose → PublicHeader → Bytes → Bytes → VaultError → VaultResult Bytes
  unfolding stream_key section_aad open_sealed
  open_body v purpose header manifest body on_fail =
      open_sealed (stream_key v purpose) body
        (section_aad v.keyslot purpose header.display_header header.save_id header.counter manifest)
        on_fail

  -- The loop over the sections that seals the bodies, from the numbered call of `getrandom` on.
  unfoldable pub seal_bodies :
      Vault → ℕ → Bytes → Bytes → ℕ → Bytes → List Section → VaultResult Bytes
  unfolding stream_key section_aad seal
  seal_bodies v call display_header save_id counter manifest [] = ok []
  seal_bodies v call display_header save_id counter manifest (section ∷ sections) = do
    body ←
        seal call (stream_key v section.0) section.1
          (section_aad v.keyslot section.0 display_header save_id counter manifest)
    rest ← seal_bodies v (call + 1) display_header save_id counter manifest sections
    ok (body ++ rest)

  unfoldable pub seal_container : ℕ → Vault → ℕ → List Section → VaultResult Bytes
  unfolding check_cardinality purpose_id encode_display_header directory_entries seal_bodies
      to_le_bytes
  seal_container call v counter sections = do
    check_cardinality (map (λ (s : Section). purpose_id s.0) sections)
    display_header ← encode_display_header v.display_name
    save_id ← ok_or (crypto_lib.random call save_id_len) rng
    entries ← directory_entries sections
    let manifest = length sections % 256 ∷ entries
    bodies ← seal_bodies v (call + 1) display_header save_id counter manifest sections
    ok (
        v.keyslot
        ++ (display_header ++ (save_id ++ (to_le_bytes 8 counter ++ (manifest ++ bodies)))))

  unfoldable pub open_keyslot : Bytes → Bytes → VaultResult OpenedKeyslot
  unfolding parse_public_header open_slot
  open_keyslot bytes password = do
    parse_public_header bytes
    opened ← open_slot bytes password
    ok (record { dek = opened.dek; params = opened.params; keyslot = take keyslot_len bytes })

  -- The loop over the parsed sections.
  unfoldable pub open_sections :
      Vault → PublicHeader → Bytes → List (ℕ × Bytes) → Found → VaultResult Found
  unfolding from_id open_body activity_of
  open_sections v header manifest [] found = ok found
  open_sections v header manifest (section ∷ sections) found = elim (from_id section.0) [
    | some wallet ↦
        open_body v wallet header manifest section.1 (corrupt "wallet payload") >>= λ payload.
        open_sections v header manifest sections (record found { found_wallet = some payload })
    | some journal ↦
        open_body v journal header manifest section.1 (corrupt "journal payload") >>= λ payload.
        open_sections v header manifest sections (record found { found_journal = some payload })
    | some activity ↦
        activity_of (open_body v activity header manifest section.1 (corrupt "activity payload"))
        >>= λ payload.
            open_sections v header manifest sections (record found { found_activity = payload })
    | none ↦ panic
  ]

  unfoldable pub open_container_with : Bytes → OpenedKeyslot → VaultResult OpenedContainer
  unfolding parse_public_header bytes_eq parse_manifest check_cardinality open_sections
  open_container_with bytes slot = do
    header ← parse_public_header bytes
    reject_if
        (ltb (length bytes) keyslot_len || not (bytes_eq (take keyslot_len bytes) slot.keyslot))
        wrong_password
    parsed ← parse_manifest bytes header.manifest_offset
    check_cardinality (map (λ (s : ℕ × Bytes). s.0) parsed.1)
    let v : Vault = record {
      params = slot.params;
      dek = slot.dek;
      keyslot = slot.keyslot;
      display_name = header.display_name;
    }
    found ←
        open_sections v header parsed.0 parsed.1
          (record { found_wallet = none; found_journal = none; found_activity = absent })
    wallet_payload ← ok_or found.found_wallet (corrupt "missing wallet section")
    journal_payload ← ok_or found.found_journal (corrupt "missing journal section")
    ok (record {
      vault = v;
      wallet_payload = wallet_payload;
      journal_payload = journal_payload;
      activity_payload = found.found_activity;
      save_counter = header.counter;
      has_unknown_sections = false;
    })

  unfoldable pub open_container : Bytes → Bytes → VaultResult OpenedContainer
  unfolding open_keyslot open_container_with
  open_container bytes password = do
    slot ← open_keyslot bytes password
    open_container_with bytes slot

  -- The loop of `read_section`, which opens the first section of the purpose.
  unfoldable pub read_first :
      Vault → Purpose → PublicHeader → Bytes → List (ℕ × Bytes) → VaultResult (Option Bytes)
  unfolding purpose_id open_body
  read_first v purpose header manifest [] = ok none
  read_first v purpose header manifest (section ∷ sections) =
      let rest = read_first v purpose header manifest sections in
      if section.0 == purpose_id purpose
      then (open_body v purpose header manifest section.1 (corrupt "section payload") >>= λ payload.
          ok (some payload))
      else rest

  unfoldable pub read_section : Vault → Purpose → Bytes → VaultResult (Option Bytes)
  unfolding parse_public_header parse_manifest read_first
  read_section v purpose bytes = do
    header ← parse_public_header bytes
    parsed ← parse_manifest bytes header.manifest_offset
    read_first v purpose header parsed.0 parsed.1

  unfoldable pub verify_password : Vault → Bytes → Bool
  unfolding open_slot
  verify_password v password = elim (open_slot v.keyslot password) [ ok _ ↦ true | _ ↦ false ]
