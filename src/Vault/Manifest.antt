-- ===== src/Vault/Manifest.antt =====
-- `crates/cc-wallet-vault/src/vault.rs`: the directory of the sections of a container.
use cc_wallet_gui.Prelude.{
  ℕ, zero, suc, ◌+◌, ◌*◌, List, [], ◌∷◌, Option, none, some, Bool, true, false, not, ltb, ◌==◌,
  Outcome, ok, err, panic, ◌>>=◌, ◌>>◌, reject_if, ok_or, and_then, Bytes, length, drop, map,
}
use cc_wallet_gui.Vault.{truncated, corrupt, VaultResult, from_le_bytes}
use cc_wallet_gui.Vault.Header.{
  wallet, activity, journal, from_id, max_sections, dir_entry_len, usize_checked_add, get,
  parse_public_header,
}

-- `bytes.get(i)`
unfoldable pub get_byte : ℕ → Bytes → Option ℕ
get_byte i [] = none
get_byte zero (b ∷ s) = some b
get_byte (suc i) (b ∷ s) = get_byte i s

-- The loop over the entries, on the bytes of the manifest behind the count.
unfoldable pub read_entries : ℕ → Bytes → VaultResult (List (ℕ × ℕ))
unfolding from_id from_le_bytes
read_entries zero entries = ok []
read_entries (suc count) (id ∷ a ∷ b ∷ c ∷ d ∷ entries) = elim (from_id id) [
  | none ↦ err (corrupt "unknown section purpose")
  | some _ ↦
      read_entries count entries >>= λ rest. ok ((id, from_le_bytes (a ∷ b ∷ c ∷ d ∷ [])) ∷ rest)
]
read_entries (suc count) _ = panic

unfoldable pub decode_manifest_directory : Bytes → ℕ → VaultResult (ℕ × List (ℕ × ℕ))
unfolding get_byte get usize_checked_add read_entries
decode_manifest_directory bytes manifest_offset = do
  count ← ok_or (get_byte manifest_offset bytes) truncated
  reject_if (ltb max_sections count) (corrupt "section count too large")
  manifest_end ←
      ok_or (usize_checked_add manifest_offset (1 + count * dir_entry_len))
        (corrupt "manifest length overflow")
  manifest ← ok_or (get manifest_offset manifest_end bytes) truncated
  entries ← read_entries count (drop 1 manifest)
  ok (manifest_end, entries)

-- The loop over the entries, which cuts the bodies; it returns the last offset as well.
unfoldable pub cut_sections : Bytes → ℕ → List (ℕ × ℕ) → VaultResult (ℕ × List (ℕ × Bytes))
unfolding usize_checked_add get
cut_sections bytes body_off [] = ok (body_off, [])
cut_sections bytes body_off (entry ∷ entries) = do
  end ← ok_or (usize_checked_add body_off entry.1) (corrupt "section length overflow")
  body ← ok_or (get body_off end bytes) (corrupt "section extent past end")
  rest ← cut_sections bytes end entries
  ok (rest.0, (entry.0, body) ∷ rest.1)

-- `&bytes[low..high]`, which panics out of range
unfoldable pub slice_or_panic {ℓ} : {E : Type ℓ} → ℕ → ℕ → Bytes → Outcome E Bytes
unfolding get
slice_or_panic low high bytes = elim (get low high bytes) [ none ↦ panic | some s ↦ ok s ]

unfoldable pub parse_manifest : Bytes → ℕ → VaultResult (Bytes × List (ℕ × Bytes))
unfolding decode_manifest_directory slice_or_panic cut_sections
parse_manifest bytes manifest_offset = do
  directory ← decode_manifest_directory bytes manifest_offset
  manifest ← slice_or_panic manifest_offset directory.0 bytes
  cut ← cut_sections bytes directory.0 directory.1
  reject_if (not (cut.0 == length bytes)) (corrupt "trailing bytes after last section")
  ok (manifest, cut.1)

-- The counts of wallet, journal and activity sections.
unfoldable pub count_ids : ℕ → ℕ → ℕ → List ℕ → VaultResult (ℕ × ℕ × ℕ)
unfolding from_id
count_ids wallets journals activities [] = ok (wallets, journals, activities)
count_ids wallets journals activities (id ∷ ids) = elim (from_id id) [
  | none ↦ err (corrupt "unknown section purpose")
  | some wallet ↦ count_ids (wallets + 1) journals activities ids
  | some journal ↦ count_ids wallets (journals + 1) activities ids
  | some activity ↦ count_ids wallets journals (activities + 1) ids
]

unfoldable pub check_cardinality : List ℕ → VaultResult (Unit {0})
unfolding count_ids
check_cardinality ids = do
  counts ← count_ids 0 0 0 ids
  reject_if (not (counts.0 == 1)) (corrupt "container must have exactly one wallet section")
  reject_if (not (counts.1 == 1)) (corrupt "container must have exactly one journal section")
  reject_if (ltb 1 counts.2) (corrupt "container has more than one activity section")
  ok tt

-- `container_declared_len`, with the errors as `none`
unfoldable pub total_len : ℕ → List (ℕ × ℕ) → Option ℕ
unfolding usize_checked_add
total_len total [] = some total
total_len total (entry ∷ entries) =
    and_then (usize_checked_add total entry.1) (λ next. total_len next entries)

to_option {ℓ} : {A : Type ℓ} → VaultResult A → Option A
to_option (ok a) = some a
to_option (err _) = none
to_option panic = none

unfoldable pub container_declared_len : Bytes → Option ℕ
unfolding parse_public_header decode_manifest_directory check_cardinality total_len to_option
container_declared_len prefix = and_then (to_option (parse_public_header prefix)) (λ header.
    and_then (to_option (decode_manifest_directory prefix header.manifest_offset)) (λ directory.
      and_then (to_option (check_cardinality (map (λ (e : ℕ × ℕ). e.0) directory.1)))
        (λ _. total_len directory.0 directory.1)))

unfoldable pub looks_like_container : Bytes → Bool
unfolding parse_public_header parse_manifest check_cardinality
looks_like_container bytes = elim (parse_public_header bytes) [
  | ok header ↦ elim (parse_manifest bytes header.manifest_offset) [
    | ok p ↦ elim (check_cardinality (map (λ (s : ℕ × Bytes). s.0) p.1)) [ ok _ ↦ true | _ ↦ false ]
    | _ ↦ false
  ]
  | _ ↦ false
]
