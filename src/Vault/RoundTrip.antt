-- ===== src/Vault/RoundTrip.antt =====
-- A container that is sealed is opened with the key of its slot, and gives its sections back.
use cc_wallet_gui.Prelude.{
  ℕ, ◌+◌, ◌%◌, ◌^◌, ◌<◌, List, ◌∷◌, ◌++◌, Option, none, some, false, ◌≡◌, refl, ap, sym, subst, ◌∙◌,
  arith, ltb, le→ltb, ok, ok_or, >>=-eq-ok, ok_or-eq-ok, Bytes, bytes_eq_refl, length, take,
  length-append, take-length-append, map,
}
use cc_wallet_gui.External.Crypto.{Crypto}
use cc_wallet_gui.Vault.{VaultError, rng, VaultResult, to_le_bytes}
use cc_wallet_gui.Vault.Keyslot.{keyslot_len}
use cc_wallet_gui.Vault.Header.{
  wallet, activity, journal, PublicHeader, save_id_len, encode_display_header, parse_public_header,
}
use cc_wallet_gui.Vault.Manifest.{parse_manifest, check_cardinality}
use cc_wallet_gui.Vault.Container.{
  Vault, Section, absent, Found, OpenedKeyslot, OpenedContainer, directory_entries, seal_bodies,
  seal_container, open_sections, open_container_with,
}
use cc_wallet_gui.Vault.Sealing.{join, IsSealed, seal_bodies-IsSealed}
use cc_wallet_gui.Vault.ParseHeader.{
  IsVault, display_header, header_at, container, parse_public_header-container,
}
use cc_wallet_gui.Vault.ParseManifest.{parse_manifest-sealed}
use cc_wallet_gui.Vault.Payloads.{
  payload_of, activity_or, found_in, ids, ids-sealed, check_cardinality-eq-ok,
  open_sections-found_in,
}

-- The slot that opens the containers of a vault.
abbrev pub slot_of : Vault → OpenedKeyslot
slot_of v = record { dek = v.dek; params = v.params; keyslot = v.keyslot }

-- What opening finds of the payloads.
abbrev pub opened : Vault → ℕ → Bytes → Bytes → Option Bytes → OpenedContainer
opened v counter w j a = record {
  vault = v;
  wallet_payload = w;
  journal_payload = j;
  activity_payload = activity_or a absent;
  save_counter = counter;
  has_unknown_sections = false;
}

encode_display_header-eq-ok :
    (v : Vault) (dh : Bytes)
    → encode_display_header {E = VaultError} v.display_name ≡ ok dh
    → dh ≡ display_header v
unfolding encode_display_header
encode_display_header-eq-ok v dh h = ground arith

ok_injective : {a b : Bytes} → ◌≡◌ {A = VaultResult Bytes} (ok a) (ok b) → a ≡ b
ok_injective e = cc

container_of :
    (v : Vault) (dh save_id manifest bodies joined bytes : Bytes) (counter : ℕ)
    → dh ≡ display_header v
    → joined ≡ bodies
    → ◌≡◌ {A = VaultResult Bytes}
        (ok (v.keyslot ++ (dh ++ (save_id ++ (to_le_bytes 8 counter ++ (manifest ++ bodies))))))
        (ok bytes)
    → container v save_id counter (manifest ++ joined) ≡ bytes
container_of v dh save_id manifest bodies joined bytes counter e d h = rw (← e, d) (ok_injective h)

abbrev nothing_found : Found
nothing_found = record { found_wallet = none; found_journal = none; found_activity = absent }

module _ ⦃crypto_lib : Crypto⦄ where
  -- The opening of a container, step by step.
  open-steps :
      (bytes : Bytes) (v : Vault) (header : PublicHeader) (manifest : Bytes) (ss : List Section)
      (ps : List (ℕ × Bytes)) (w j : Bytes) {u : Unit {0}}
      → parse_public_header bytes ≡ ok header
      → header.display_name ≡ v.display_name
      → ltb (length bytes) keyslot_len ≡ false
      → take keyslot_len bytes ≡ v.keyslot
      → parse_manifest bytes header.manifest_offset ≡ ok (manifest, ps)
      → check_cardinality (map (λ (p : ℕ × Bytes). p.0) ps) ≡ ok u
      → open_sections v header manifest ps nothing_found ≡ ok (found_in ss nothing_found)
      → payload_of wallet ss ≡ some w
      → payload_of journal ss ≡ some j
      → open_container_with bytes (slot_of v)
        ≡ ok (opened v header.counter w j (payload_of activity ss))
  unfolding open_container_with
  open-steps bytes v header manifest ss ps w j e1 e2 e3 e4 e5 e6 e7 e8 e9 =
      let same = bytes_eq_refl v.keyslot in rw (e1, e3, e4, same, e5, e6, e2, e7, e8, e9) refl

  -- The opening of what a vault has put together.
  open_container_with-container :
      (v : Vault) (counter : ℕ) (sections : List Section) (save_id entries : Bytes)
      (ps : List (ℕ × Bytes)) {u : Unit {0}}
      → let manifest = length sections % 256 ∷ entries in
        let bytes = container v save_id counter (manifest ++ join ps) in
        IsVault v
        → counter < 2 ^ 64
        → length save_id ≡ save_id_len
        → check_cardinality (ids sections) ≡ ok u
        → directory_entries sections ≡ ok entries
        → IsSealed v (header_at v save_id counter) manifest sections ps
        → length bytes < 2 ^ 64
        → (w j : Bytes) × (payload_of wallet sections ≡ some w)
          × (payload_of journal sections ≡ some j)
          × (open_container_with bytes (slot_of v)
              ≡ ok (opened v counter w j (payload_of activity sections)))
  open_container_with-container v counter sections save_id entries ps good c long cards listed
        sealed small =
      let manifest = length sections % 256 ∷ entries in
      let rest = manifest ++ join ps in
      let bytes = container v save_id counter rest in
      let header = header_at v save_id counter in
      let (few, (w, has_wallet), (j, has_journal)) = check_cardinality-eq-ok sections cards in
      let (parsed, at) = parse_public_header-container v save_id counter rest good long c small in
      let total =
        length-append v.keyslot
          (display_header v ++ (save_id ++ (to_le_bytes 8 counter ++ rest))) in
      let front : take keyslot_len bytes ≡ v.keyslot =
        ap (λ (k : ℕ). take k bytes) (sym good.0) ∙ take-length-append v.keyslot _ in
      (
        w,
        j,
        has_wallet,
        has_journal,
        open-steps bytes v header manifest sections ps w j parsed refl
            (le→ltb (length bytes) keyslot_len (omega (arith, good.0))) front
            (parse_manifest-sealed v header bytes _ sections entries ps listed sealed
              (omega (arith, few)) small at)
            (ap check_cardinality (ids-sealed v header manifest sections ps sealed) ∙ cards)
            (open_sections-found_in v header manifest sections ps nothing_found sealed) has_wallet
            has_journal,
      )

  -- A vault whose slot and name are well formed seals sections under a counter: the container opens
  -- with the vault's key, if it is shorter than 2 ^ 64 bytes, and gives the vault, the counter and the
  -- payloads of the wallet, the journal and, if there was one, the activity section back.
  pub open_container_with-seal_container :
      (call : ℕ) (v : Vault) (counter : ℕ) (sections : List Section) (bytes : Bytes)
      → IsVault v
      → counter < 2 ^ 64
      → seal_container call v counter sections ≡ ok bytes
      → length bytes < 2 ^ 64
      → (w j : Bytes) × (payload_of wallet sections ≡ some w)
        × (payload_of journal sections ≡ some j)
        × (open_container_with bytes (slot_of v)
            ≡ ok (opened v counter w j (payload_of activity sections)))
  unfolding seal_container
  open_container_with-seal_container call v counter sections bytes good c h small =
      let (u, cards, h₁) = >>=-eq-ok (check_cardinality (ids sections)) _ h in
      let (dh, header_is, h₂) =
        >>=-eq-ok (encode_display_header {E = VaultError} v.display_name) _ h₁ in
      let (save_id, drawn, h₃) = >>=-eq-ok (ok_or (crypto_lib.random call save_id_len) rng) _ h₂ in
      let (entries, listed, h₄) = >>=-eq-ok (directory_entries sections) _ h₃ in
      let manifest = length sections % 256 ∷ entries in
      let (bodies, sealed, h₅) =
        >>=-eq-ok (seal_bodies v (call + 1) dh save_id counter manifest sections) _ h₄ in
      let id_long = crypto_lib.random_length call save_id_len save_id (ok_or-eq-ok _ _ drawn) in
      let name_is : dh ≡ display_header v = encode_display_header-eq-ok v dh header_is in
      let header = header_at v save_id counter in
      let (ps, is_sealed, joined) =
        seal_bodies-IsSealed v header manifest (call + 1) sections bodies (
          subst
            (λ (d : Bytes).
              seal_bodies v (call + 1) d save_id counter manifest sections ≡ ok bodies)
            name_is sealed) in
      let rest_is : container v save_id counter (manifest ++ join ps) ≡ bytes =
        container_of v dh save_id manifest bodies (join ps) bytes counter name_is joined h₅ in
      subst
        (λ (b : Bytes).
          (w j : Bytes) × (payload_of wallet sections ≡ some w)
          × (payload_of journal sections ≡ some j)
          × (open_container_with b (slot_of v)
              ≡ ok (opened v counter w j (payload_of activity sections))))
        rest_is
        (open_container_with-container v counter sections save_id entries ps good c id_long cards
          listed is_sealed (subst (λ (b : Bytes). length b < 2 ^ 64) (sym rest_is) small))

  -- The container starts with the slot.
  pub seal_container-keyslot :
      (call : ℕ) (v : Vault) (counter : ℕ) (sections : List Section) (bytes : Bytes)
      → seal_container call v counter sections ≡ ok bytes
      → (rest : Bytes) × (v.keyslot ++ rest ≡ bytes)
  unfolding seal_container
  seal_container-keyslot call v counter sections bytes h =
      let (_, _, h₁) = >>=-eq-ok (check_cardinality (ids sections)) _ h in
      let (dh, _, h₂) = >>=-eq-ok (encode_display_header {E = VaultError} v.display_name) _ h₁ in
      let (_, _, h₃) = >>=-eq-ok (ok_or (crypto_lib.random call save_id_len) rng) _ h₂ in
      let (entries, _, h₄) = >>=-eq-ok (directory_entries sections) _ h₃ in
      let (_, _, h₅) =
        >>=-eq-ok (seal_bodies v (call + 1) dh _ counter (length sections % 256 ∷ entries) sections)
          _ h₄ in
      (_, ok_injective h₅)
