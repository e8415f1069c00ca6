-- ===== src/Vault/ParseHeader.antt =====
-- The public header of a container that a vault writes is read back.
use cc_wallet_gui.Prelude.{
  ℕ, ◌+◌, ◌^◌, ◌<◌, ◌≤◌, ◌++◌, some, true, false, ◌≡◌, refl, subst, ◌∙◌, arith, ltb, ltb→le, le→ltb,
  ok, reject_if, >>=-eq-ok, reject_if-eq-ok, Bytes, length, length-append, append_assoc,
}
use cc_wallet_gui.Strings.{is_utf8, trim}
use cc_wallet_gui.Amount.{is_empty}
use cc_wallet_gui.Vault.{to_le_bytes, from_le_bytes, KdfParams}
use cc_wallet_gui.Vault.Keyslot.{keyslot_len, validate_header}
use cc_wallet_gui.Vault.Header.{
  usize_checked_add, PublicHeader, get, max_display_name_bytes, save_id_len, validate_display_name,
  parse_public_header,
}
use cc_wallet_gui.Vault.Container.{Vault}
use cc_wallet_gui.Vault.Layout.{
  length-to_le_bytes, from_le_bytes-to_le_bytes, At, At-start, At-next, get-At,
}
use cc_wallet_gui.Vault.Sealing.{usize_checked_add-fits}

-- A vault as `create_named_with` makes it: its key slot is a header that is accepted with its
-- parameters, whatever follows, and its name is accepted UTF-8.
abbrev pub IsVault : Vault → Type 0
IsVault v =
    (length v.keyslot ≡ keyslot_len)
    × ((rest : Bytes) → validate_header (v.keyslot ++ rest) ≡ ok v.params)
    × (is_utf8 v.display_name ≡ true)
    × (validate_display_name v.display_name ≡ ok tt)

validate_display_name-length :
    (name : Bytes) → validate_display_name name ≡ ok tt → length name ≤ max_display_name_bytes
unfolding validate_display_name
validate_display_name-length name h =
    let (_, _, h₁) =
      >>=-eq-ok (reject_if (is_empty (trim name)) "name must not be empty or whitespace-only") _
        h in
    let (_, short, _) =
      >>=-eq-ok (reject_if (ltb max_display_name_bytes (length name)) "UTF-8 name is too long") _
        h₁ in
    ltb→le max_display_name_bytes (length name)
      (reject_if-eq-ok (ltb max_display_name_bytes (length name)) _ short)

-- The header in front of `rest`.
abbrev pub display_header : Vault → Bytes
display_header v = to_le_bytes 2 (length v.display_name) ++ v.display_name

abbrev pub header_at : Vault → Bytes → ℕ → PublicHeader
header_at v save_id counter = record {
  display_name = v.display_name;
  display_header = display_header v;
  save_id = save_id;
  counter = counter;
  manifest_offset = 114 + length v.display_name + 16 + 8;
}

abbrev pub container : Vault → Bytes → ℕ → Bytes → Bytes
container v save_id counter rest =
    v.keyslot ++ (display_header v ++ (save_id ++ (to_le_bytes 8 counter ++ rest)))

-- The reading of a header, step by step.
parse-steps :
    (bytes : Bytes) (params : KdfParams) (name header save_id raw_len raw_counter : Bytes)
    (n counter : ℕ)
    → validate_header bytes ≡ ok params
    → get 112 114 bytes ≡ some raw_len
    → from_le_bytes raw_len ≡ n
    → ltb max_display_name_bytes n ≡ false
    → usize_checked_add 114 n ≡ some (114 + n)
    → get 114 (114 + n) bytes ≡ some name
    → is_utf8 name ≡ true
    → validate_display_name name ≡ ok tt
    → usize_checked_add (114 + n) 16 ≡ some (114 + n + 16)
    → usize_checked_add (114 + n + 16) 8 ≡ some (114 + n + 16 + 8)
    → get (114 + n) (114 + n + 16) bytes ≡ some save_id
    → get (114 + n + 16) (114 + n + 16 + 8) bytes ≡ some raw_counter
    → get 112 (114 + n) bytes ≡ some header
    → from_le_bytes raw_counter ≡ counter
    → parse_public_header bytes
      ≡ ok (record {
        display_name = name;
        display_header = header;
        save_id = save_id;
        counter = counter;
        manifest_offset = 114 + n + 16 + 8;
      })
unfolding parse_public_header
parse-steps bytes params name header save_id raw_len raw_counter n counter e1 e2 e3 e4 e5 e6 e7 e8
      e9 e10 e11 e12 e13 e14 =
    rw (e1, e2, e3, e4, e5, e6, e7, e8, e9, e10, e11, e12, e13, e14) refl

pub parse_public_header-container :
    (v : Vault) (save_id : Bytes) (counter : ℕ) (rest : Bytes)
    → IsVault v
    → length save_id ≡ save_id_len
    → counter < 2 ^ 64
    → length (container v save_id counter rest) < 2 ^ 64
    → (parse_public_header (container v save_id counter rest) ≡ ok (header_at v save_id counter))
      × At (114 + length v.display_name + 16 + 8) (container v save_id counter rest) rest
parse_public_header-container v save_id counter rest (slot, accepted, text, named) s c small =
    let n = length v.display_name in
    let bytes = container v save_id counter rest in
    let short = validate_display_name-length v.display_name named in
    let le = length-to_le_bytes 2 n in
    let at_0 = At-start bytes in
    let name = v.display_name in
    let after = save_id ++ (to_le_bytes 8 counter ++ rest) in
    let whole = At-next 0 112 bytes v.keyslot (display_header v ++ after) at_0 slot in
    let at_1 : At 112 bytes (to_le_bytes 2 n ++ (name ++ after)) =
      (whole.0, whole.1 ∙ append_assoc (to_le_bytes 2 n) name after) in
    let at_2 : At 114 bytes (name ++ after) = At-next 112 2 bytes _ _ at_1 le in
    let at_3 : At (114 + n) bytes after = At-next 114 n bytes name after at_2 refl in
    let at_4 = At-next (114 + n) 16 bytes save_id _ at_3 s in
    let at_5 =
      At-next (114 + n + 16) 8 bytes (to_le_bytes 8 counter) rest at_4
        (length-to_le_bytes 8 counter) in
    let header_end : 112 + (2 + n) ≡ 114 + n = omega arith in
    let header_get : get 112 (114 + n) bytes ≡ some (display_header v) =
      subst (λ (k : ℕ). get 112 k bytes ≡ some (display_header v)) header_end
        (get-At 112 (2 + n) bytes (display_header v) after whole
          (omega (arith, length-append (to_le_bytes 2 n) name, le))) in
    (
      parse-steps bytes v.params name (display_header v) save_id (to_le_bytes 2 n)
          (to_le_bytes 8 counter) n counter (accepted _) (get-At 112 2 bytes _ _ at_1 le)
          (from_le_bytes-to_le_bytes 2 n (omega arith)) (le→ltb max_display_name_bytes n short)
          (usize_checked_add-fits 114 n (length bytes) at_3.0 small)
          (get-At 114 n bytes name after at_2 refl) text named
          (usize_checked_add-fits (114 + n) 16 (length bytes) at_4.0 small)
          (usize_checked_add-fits (114 + n + 16) 8 (length bytes) at_5.0 small)
          (get-At (114 + n) 16 bytes save_id _ at_3 s)
          (get-At (114 + n + 16) 8 bytes _ rest at_4 (length-to_le_bytes 8 counter)) header_get
          (from_le_bytes-to_le_bytes 8 counter (omega arith)),
      at_5,
    )
