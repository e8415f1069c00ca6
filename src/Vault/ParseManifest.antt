-- ===== src/Vault/ParseManifest.antt =====
-- The directory and the bodies that a vault writes are read back.
use cc_wallet_gui.Prelude.{
  ℕ, zero, suc, ◌+◌, ◌*◌, ◌%◌, ◌^◌, ◌<◌, ◌≤◌, List, [], ◌∷◌, ◌++◌, some, false, ◌≡◌, refl, ap, ◌∙◌,
  arith, ltb, le→ltb, ==_refl, ok, Bytes, length, drop,
}
use cc_wallet_gui.External.Crypto.{Crypto}
use cc_wallet_gui.Vault.{VaultError}
use cc_wallet_gui.Vault.Header.{usize_checked_add, PublicHeader, get, max_sections}
use cc_wallet_gui.Vault.Manifest.{
  get_byte, read_entries, decode_manifest_directory, cut_sections, slice_or_panic, parse_manifest,
}
use cc_wallet_gui.Vault.Container.{Vault, Section, directory_entries}
use cc_wallet_gui.Vault.Layout.{At, At-next, get-At}
use cc_wallet_gui.Vault.Sealing.{
  usize_checked_add-fits, sizes, join, IsSealed, read_entries-directory_entries, cut_sections-join,
}

get_byte-drop : (n : ℕ) (s : Bytes) (a : ℕ) (b : Bytes) → drop n s ≡ a ∷ b → get_byte n s ≡ some a
unfolding get_byte
get_byte-drop zero [] a b h = cc
get_byte-drop zero (c ∷ s) a b h = cc
get_byte-drop (suc n) [] a b h = cc
get_byte-drop (suc n) (c ∷ s) a b h = get_byte-drop n s a b h

directory-steps :
    (bytes : Bytes) (off count : ℕ) (manifest : Bytes) (entries : List (ℕ × ℕ))
    → get_byte off bytes ≡ some count
    → ltb max_sections count ≡ false
    → usize_checked_add off (1 + count * 5) ≡ some (off + (1 + count * 5))
    → get off (off + (1 + count * 5)) bytes ≡ some manifest
    → read_entries count (drop 1 manifest) ≡ ok entries
    → decode_manifest_directory bytes off ≡ ok (off + (1 + count * 5), entries)
unfolding decode_manifest_directory
directory-steps bytes off count manifest entries e1 e2 e3 e4 e5 = rw (e1, e2, e3, e4, e5) refl

slice_or_panic-get :
    (low high : ℕ) (bytes s : Bytes)
    → get low high bytes ≡ some s
    → slice_or_panic {E = VaultError} low high bytes ≡ ok s
unfolding slice_or_panic
slice_or_panic-get low high bytes s e = ground arith

manifest-steps :
    (bytes : Bytes) (off end : ℕ) (manifest : Bytes) (entries : List (ℕ × ℕ))
    (ps : List (ℕ × Bytes))
    → decode_manifest_directory bytes off ≡ ok (end, entries)
    → get off end bytes ≡ some manifest
    → cut_sections bytes end entries ≡ ok (length bytes, ps)
    → parse_manifest bytes off ≡ ok (manifest, ps)
unfolding parse_manifest
manifest-steps bytes off end manifest entries ps e1 e2 e3 =
    let whole = ==_refl (length bytes) in
    rw (e1, slice_or_panic-get off end bytes manifest e2, e3, whole) refl

module _ ⦃crypto_lib : Crypto⦄ where
  pub parse_manifest-sealed :
      (v : Vault) (header : PublicHeader) (bytes : Bytes) (off : ℕ) (sections : List Section)
      (entries : Bytes) (ps : List (ℕ × Bytes))
      → let manifest = length sections % 256 ∷ entries in
        directory_entries sections ≡ ok entries
        → IsSealed v header manifest sections ps
        → length sections ≤ max_sections
        → length bytes < 2 ^ 64
        → At off bytes (manifest ++ join ps)
        → parse_manifest bytes off ≡ ok (manifest, ps)
  parse_manifest-sealed v header bytes off sections entries ps d s few small at =
      let n = length sections in
      let manifest = n % 256 ∷ entries in
      let count : n % 256 ≡ n = omega arith in
      let (reads, wide) =
        read_entries-directory_entries v header manifest sections entries ps d s in
      let long : length manifest ≡ 1 + n * 5 = omega arith in
      let next = At-next off (1 + n * 5) bytes manifest (join ps) at long in
      let got = get-At off (1 + n * 5) bytes manifest (join ps) at long in
      let directory =
        directory-steps bytes off n manifest (sizes ps)
          (get_byte-drop off bytes (n % 256) (entries ++ join ps) at.1 ∙ ap some count)
          (le→ltb max_sections n few)
          (usize_checked_add-fits off (1 + n * 5) (length bytes) next.0 small) got reads in
      manifest-steps bytes off (off + (1 + n * 5)) manifest (sizes ps) ps directory got
        (cut_sections-join bytes (off + (1 + n * 5)) ps small next)
