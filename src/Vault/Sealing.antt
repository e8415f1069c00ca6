-- ===== src/Vault/Sealing.antt =====
-- The bodies of a container: what is sealed is opened, and the directory tells the bodies apart.
use cc_wallet_gui.Prelude.{
  ℕ, suc, ◌+◌, ◌*◌, ◌^◌, ◌<◌, ◌≤◌, List, [], ◌∷◌, ◌++◌, some, true, false, not, ◌≡◌, refl, ap, sym,
  ◌∙◌, arith, ltb, ◌==◌, ok, reject_if, ok_or, >>=-eq-ok, reject_if-eq-ok, ok_or-eq-ok, Bytes,
  length, take, drop, length-append, take-length-append, drop-length-append, map,
}
use cc_wallet_gui.External.Crypto.{Crypto}
use cc_wallet_gui.Vault.{
  VaultError, rng, truncated, crypto, to_le_bytes, from_le_bytes, nonce_len, tag_len, seal,
  open_sealed,
}
use cc_wallet_gui.Vault.Header.{
  Purpose, wallet, activity, journal, purpose_id, from_id, usize_checked_add, u32_try_from,
  section_frame_len, PublicHeader,
}
use cc_wallet_gui.Vault.Manifest.{read_entries, cut_sections}
use cc_wallet_gui.Vault.Container.{
  Vault, Section, section_aad, directory_entries, seal_bodies, stream_key, open_body,
}
use cc_wallet_gui.Vault.Layout.{
  length-to_le_bytes, from_le_bytes-to_le_bytes, At, At-next, get-At, At-end,
}

pub from_id-purpose_id : (p : Purpose) → from_id (purpose_id p) ≡ some p
unfolding from_id purpose_id
from_id-purpose_id wallet = refl
from_id-purpose_id activity = refl
from_id-purpose_id journal = refl

section_frame_len-eq-ok :
    (n len : ℕ) → section_frame_len n ≡ ok len → (len ≡ nonce_len + n + tag_len) × (len < 2 ^ 32)
unfolding section_frame_len usize_checked_add u32_try_from
section_frame_len-eq-ok n len h = ground arith

pub usize_checked_add-fits :
    (a b limit : ℕ) → a + b ≤ limit → limit < 2 ^ 64 → usize_checked_add a b ≡ some (a + b)
unfolding usize_checked_add
usize_checked_add-fits a b limit l h = ground arith

-- The bodies one after another.
abbrev pub join : List (ℕ × Bytes) → Bytes
join [] = []
join (p ∷ ps) = p.1 ++ join ps

abbrev pub sizes : List (ℕ × Bytes) → List (ℕ × ℕ)
sizes = map (λ (p : ℕ × Bytes). (p.0, length p.1))

four_bytes : (n : ℕ) → n < 2 ^ 32 → from_le_bytes (to_le_bytes 4 n) ≡ n
four_bytes n h = from_le_bytes-to_le_bytes 4 n (omega arith)

read_entries-entry :
    (p : Purpose) (len count : ℕ) (rest : Bytes) (out : List (ℕ × ℕ))
    → len < 2 ^ 32
    → read_entries count rest ≡ ok out
    → read_entries (suc count) (purpose_id p ∷ (to_le_bytes 4 len ++ rest))
      ≡ ok ((purpose_id p, len) ∷ out)
unfolding read_entries to_le_bytes purpose_id
read_entries-entry wallet len count rest out l h =
    rw h (ap (λ (n : ℕ). ok ((1, n) ∷ out)) (four_bytes len l))
read_entries-entry activity len count rest out l h =
    rw h (ap (λ (n : ℕ). ok ((2, n) ∷ out)) (four_bytes len l))
read_entries-entry journal len count rest out l h =
    rw h (ap (λ (n : ℕ). ok ((3, n) ∷ out)) (four_bytes len l))

read_entries-none : read_entries 0 [] ≡ ok []
unfolding read_entries
read_entries-none = refl

module _ ⦃crypto_lib : Crypto⦄ where
  -- What `aead::seal` returns is opened by `aead::open` with the same key and associated data.
  pub open_sealed-seal :
      (call : ℕ) (key plaintext aad blob : Bytes) (on_fail : VaultError)
      → seal call key plaintext aad ≡ ok blob
      → (open_sealed key blob aad on_fail ≡ ok plaintext)
        × (length blob ≡ nonce_len + length plaintext + tag_len)
  unfolding seal open_sealed
  open_sealed-seal call key plaintext aad blob on_fail h =
      let (nonce, e, h₁) = >>=-eq-ok (ok_or (crypto_lib.random call nonce_len) rng) _ h in
      let (_, k, h₂) =
        >>=-eq-ok (reject_if (not (length key == 32)) (crypto "bad key length")) _ h₁ in
      let (sealed, f, h₃) =
        >>=-eq-ok
          (ok_or (crypto_lib.encrypt key nonce plaintext aad) (crypto "AEAD encryption failed")) _
          h₂ in
      let drawn = crypto_lib.random_length call nonce_len nonce (ok_or-eq-ok _ _ e) in
      let encrypted = ok_or-eq-ok (crypto_lib.encrypt key nonce plaintext aad) _ f in
      let long = crypto_lib.encrypt_length key nonce plaintext aad sealed encrypted in
      let decrypted = crypto_lib.decrypt-encrypt key nonce plaintext aad sealed encrypted in
      let total = length-append nonce sealed in
      let is : nonce ++ sealed ≡ blob = cc in
      let good_key = reject_if-eq-ok (not (length key == 32)) _ k in
      let front : take nonce_len (nonce ++ sealed) ≡ nonce =
        ap (λ (j : ℕ). take j (nonce ++ sealed)) (sym drawn) ∙ take-length-append nonce sealed in
      let back : drop nonce_len (nonce ++ sealed) ≡ sealed =
        ap (λ (j : ℕ). drop j (nonce ++ sealed)) (sym drawn) ∙ drop-length-append nonce sealed in
      let enough : ltb (length (nonce ++ sealed)) (nonce_len + tag_len) ≡ false = ground arith in
      let right : (length nonce == nonce_len) ≡ true = ground arith in
      rw (← is) (rw (enough, front, back, right, good_key, decrypted) refl, omega arith)

  -- Bodies that stand for sections: the same purposes in the same order, each of the length in the
  -- directory, and each opened as the payload.
  abbrev pub IsSealed : Vault → PublicHeader → Bytes → List Section → List (ℕ × Bytes) → Type 0
  IsSealed v header manifest [] [] = Unit
  IsSealed v header manifest [] (p ∷ ps) = ⊥
  IsSealed v header manifest (s ∷ ss) [] = ⊥
  IsSealed v header manifest (s ∷ ss) (p ∷ ps) =
      ((p.0 ≡ purpose_id s.0)
        × (length p.1 ≡ nonce_len + length s.1 + tag_len)
        × ((on_fail : VaultError) → open_body v s.0 header manifest p.1 on_fail ≡ ok s.1))
      × IsSealed v header manifest ss ps

  pub seal_bodies-IsSealed :
      (v : Vault) (header : PublicHeader) (manifest : Bytes) (call : ℕ) (sections : List Section)
      (bodies : Bytes)
      → seal_bodies v call header.display_header header.save_id header.counter manifest sections
        ≡ ok bodies
      → (ps : List (ℕ × Bytes)) × IsSealed v header manifest sections ps × (join ps ≡ bodies)
  unfolding seal_bodies open_body
  seal_bodies-IsSealed v header manifest call [] bodies h = ([], tt, cc)
  seal_bodies-IsSealed v header manifest call (s ∷ ss) bodies h =
      let aad =
        section_aad v.keyslot s.0 header.display_header header.save_id header.counter manifest in
      let (body, e, h₁) = >>=-eq-ok (seal call (stream_key v s.0) s.1 aad) _ h in
      let (rest, f, h₂) =
        >>=-eq-ok
          (seal_bodies v (call + 1) header.display_header header.save_id header.counter manifest ss)
          _ h₁ in
      let (ps, sealed, joined) = seal_bodies-IsSealed v header manifest (call + 1) ss rest f in
      let opens =
        λ (on_fail : VaultError). open_sealed-seal call (stream_key v s.0) s.1 aad body on_fail e in
      (
        (purpose_id s.0, body) ∷ ps,
        ((refl, (opens truncated).1, λ on_fail. (opens on_fail).0), sealed),
        ap (λ (t : Bytes). body ++ t) joined ∙ cc,
      )

  -- The directory of sections is read as the purposes and the lengths of the bodies.
  pub read_entries-directory_entries :
      (v : Vault) (header : PublicHeader) (manifest : Bytes) (sections : List Section)
      (entries : Bytes) (ps : List (ℕ × Bytes))
      → directory_entries sections ≡ ok entries
      → IsSealed v header manifest sections ps
      → (read_entries (length sections) entries ≡ ok (sizes ps))
        × (length entries ≡ length sections * 5)
  unfolding directory_entries
  read_entries-directory_entries v header manifest [] entries [] h s =
      let is : [] ≡ entries = cc in rw (← is) (read_entries-none, refl)
  read_entries-directory_entries v header manifest [] entries (p ∷ ps) h s = absurd s
  read_entries-directory_entries v header manifest (s ∷ ss) entries [] h k = absurd k
  read_entries-directory_entries v header manifest (s ∷ ss) entries (p ∷ ps) h ((id, long, _), k) =
      let (len, e, h₁) = >>=-eq-ok (section_frame_len (length s.1)) _ h in
      let (rest, f, h₂) = >>=-eq-ok (directory_entries ss) _ h₁ in
      let (reads, wide) = read_entries-directory_entries v header manifest ss rest ps f k in
      let (len_is, small) = section_frame_len-eq-ok (length s.1) len e in
      let is : purpose_id s.0 ∷ (to_le_bytes 4 len ++ rest) ≡ entries = cc in
      let four = length-append (to_le_bytes 4 len) rest in
      let le = length-to_le_bytes 4 len in
      let same : length p.1 ≡ len = long ∙ sym len_is in
      rw (← is, id, same)
        (read_entries-entry s.0 len (length ss) rest (sizes ps) small reads, omega arith)

  -- Bodies that stand one after another at the end of a container are cut apart.
  pub cut_sections-join :
      (bytes : Bytes) (off : ℕ) (ps : List (ℕ × Bytes))
      → length bytes < 2 ^ 64
      → At off bytes (join ps)
      → cut_sections bytes off (sizes ps) ≡ ok (length bytes, ps)
  unfolding cut_sections
  cut_sections-join bytes off [] small at = ap (λ (n : ℕ). ok (n, [])) (At-end off bytes at)
  cut_sections-join bytes off (p ∷ ps) small at =
      let next = At-next off (length p.1) bytes p.1 (join ps) at refl in
      let end : usize_checked_add off (length p.1) ≡ some (off + length p.1) =
        usize_checked_add-fits off (length p.1) (length bytes) next.0 small in
      rw
        (
          end,
          get-At off (length p.1) bytes p.1 (join ps) at refl,
          cut_sections-join bytes (off + length p.1) ps small next,
        )
        refl
