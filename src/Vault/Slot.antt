-- ===== src/Vault/Slot.antt =====
-- The key slot that is built under a password is opened with it, and a vault that is created opens
-- the containers that it seals.
use cc_wallet_gui.Prelude.{
  ℕ, zero, suc, ◌+◌, ◌^◌, ◌<◌, ◌≤◌, List, [], ◌∷◌, ◌++◌, some, Bool, true, false, not, ◌||◌, ◌≡◌,
  refl, ap, sym, subst, ◌∙◌, arith, ltb, ◌==◌, ok, reject_if, ok_or, >>=-eq-ok, reject_if-eq-ok,
  ok_or-eq-ok, map_err, map_err-eq-ok, Bytes, codes, length, take, drop, length-append,
  take-length-append, drop-length-append, append_assoc,
}
use cc_wallet_gui.Strings.{is_utf8}
use cc_wallet_gui.External.Crypto.{Crypto}
use cc_wallet_gui.Vault.{
  rng, invalid_display_name, params_rejected, wrong_password, VaultResult, to_le_bytes,
  from_le_bytes, KdfParams, validate_params, derive_kek, seal, open_sealed, min_m_kib, max_m_kib,
  min_t, max_t,
}
use cc_wallet_gui.Vault.Keyslot.{
  magic, keyslot_len, prefix_len, encode_prefix, slice, byte_at, header_params, accept_params,
  validate_header, copy_32, build, open_slot,
}
use cc_wallet_gui.Vault.Header.{
  wallet, activity, journal, validate_display_name, PublicHeader, parse_public_header,
}
use cc_wallet_gui.Vault.Container.{
  Vault, Section, OpenedKeyslot, OpenedContainer, create_named_with, seal_container, open_keyslot,
  open_container_with, open_container,
}
use cc_wallet_gui.Vault.Layout.{from_le_bytes-to_le_bytes}
use cc_wallet_gui.Vault.Sealing.{open_sealed-seal}
use cc_wallet_gui.Vault.ParseHeader.{IsVault}
use cc_wallet_gui.Vault.Payloads.{payload_of}
use cc_wallet_gui.Vault.RoundTrip.{
  slot_of, opened, seal_container-keyslot, open_container_with-seal_container,
}

-- Parameters that pass the tests; a `u32` holds them.
record IsAccepted (params : KdfParams) : Type 0 where
  m_accepted : (ltb params.m_kib min_m_kib || ltb max_m_kib params.m_kib) ≡ false
  t_accepted : (ltb params.t min_t || ltb max_t params.t) ≡ false
  p_accepted : (params.p == 1) ≡ true

validate_params-eq-ok :
    (params : KdfParams) {u : Unit {0}} → validate_params params ≡ ok u → IsAccepted params
unfolding validate_params
validate_params-eq-ok params h =
    let (_, m, h₁) =
      >>=-eq-ok
        (reject_if (ltb params.m_kib min_m_kib || ltb max_m_kib params.m_kib)
          (params_rejected "memory cost out of range"))
        _ h in
    let (_, t, h₂) =
      >>=-eq-ok
        (reject_if (ltb params.t min_t || ltb max_t params.t)
          (params_rejected "time cost out of range"))
        _ h₁ in
    let (_, p, _) =
      >>=-eq-ok (reject_if (not (params.p == 1)) (params_rejected "parallelism must be 1")) _ h₂ in
    record {
      m_accepted = reject_if-eq-ok _ _ m;
      t_accepted = reject_if-eq-ok _ _ t;
      p_accepted = not_false (params.p == 1) (reject_if-eq-ok _ _ p);
    }
  where
    not_false : (b : Bool) → not b ≡ false → b ≡ true
    not_false b h = ground arith

fits_u32 :
    (params : KdfParams)
    → IsAccepted params
    → (params.m_kib < 256 ^ 4) × (params.t < 256 ^ 4) × (params.p < 256 ^ 4)
fits_u32 params a =
    let m = a.m_accepted in
    let t = a.t_accepted in let p = a.p_accepted in (ground arith, ground arith, ground arith)

byte_at-append : (s : Bytes) (a k : ℕ) (t : Bytes) → length s ≡ k → byte_at k (s ++ a ∷ t) ≡ a
unfolding byte_at
byte_at-append [] a zero t h = refl
byte_at-append [] a (suc k) t h = absurd (omega arith)
byte_at-append (x ∷ s) a zero t h = absurd (omega arith)
byte_at-append (x ∷ s) a (suc k) t h = byte_at-append s a k t (omega arith)

-- The prefix, byte by byte as far as the salt.
prefix_front : KdfParams → Bytes
prefix_front params =
    codes "CCWALLET"
    ++ (1
        ∷ 0
        ∷ 1
        ∷ (to_le_bytes 4 params.m_kib ++ (to_le_bytes 4 params.t ++ to_le_bytes 4 params.p)))

encode_prefix-front :
    (params : KdfParams) (salt rest : Bytes)
    → encode_prefix params salt ++ rest ≡ prefix_front params ++ (salt ++ (1 ∷ rest))
unfolding encode_prefix prefix_front
encode_prefix-front params salt rest =
    ap (λ (t : Bytes). prefix_front params ++ t) (append_assoc salt (1 ∷ []) rest)

accept_params-ok :
    (bytes : Bytes) (params : KdfParams)
    → IsAccepted params
    → byte_at 39 bytes ≡ 1
    → accept_params bytes params ≡ ok params
unfolding accept_params
accept_params-ok bytes params a e =
    let m = a.m_accepted in let t = a.t_accepted in let p = a.p_accepted in rw (m, t, p, e) refl

header-steps :
    (bytes : Bytes) (params : KdfParams)
    → ltb (length bytes) keyslot_len ≡ false
    → slice 0 8 bytes ≡ magic
    → from_le_bytes (slice 8 10 bytes) ≡ 1
    → byte_at 10 bytes ≡ 1
    → header_params bytes ≡ params
    → IsAccepted params
    → byte_at 39 bytes ≡ 1
    → validate_header bytes ≡ ok params
unfolding validate_header
header-steps bytes params e1 e2 e3 e4 e5 e6 e7 =
    rw (e1, e2, e3, e4) (ap (accept_params bytes) e5 ∙ accept_params-ok bytes params e6 e7)

header_params-front :
    (params : KdfParams) (rest : Bytes)
    → IsAccepted params
    → header_params (prefix_front params ++ rest) ≡ params
unfolding header_params prefix_front to_le_bytes
header_params-front params rest h =
    let (m, t, p) = fits_u32 params h in
    let em = from_le_bytes-to_le_bytes 4 params.m_kib m in
    let et = from_le_bytes-to_le_bytes 4 params.t t in
    let ep = from_le_bytes-to_le_bytes 4 params.p p in cc

front_steps :
    (params : KdfParams) (rest : Bytes)
    → (slice 0 8 (prefix_front params ++ rest) ≡ magic)
      × (from_le_bytes (slice 8 10 (prefix_front params ++ rest)) ≡ 1)
      × (byte_at 10 (prefix_front params ++ rest) ≡ 1)
      × (length (prefix_front params ++ rest) ≡ 23 + length rest)
      × (byte_at 39 (prefix_front params ++ rest) ≡ byte_at 16 rest)
      × (slice 23 39 (prefix_front params ++ rest) ≡ take 16 rest)
unfolding prefix_front to_le_bytes from_le_bytes byte_at
front_steps params rest = (refl, refl, refl, omega arith, refl, refl)

validate_header-built :
    (params : KdfParams) (salt rest : Bytes)
    → IsAccepted params
    → length salt ≡ 16
    → 72 ≤ length rest
    → validate_header (encode_prefix params salt ++ rest) ≡ ok params
validate_header-built params salt rest h s l =
    let tail = salt ++ 1 ∷ rest in
    let total = length-append salt (1 ∷ rest) in
    let (m, v, k, long, last, _) = front_steps params tail in
    rw (encode_prefix-front params salt rest) (
      header-steps (prefix_front params ++ tail) params (ground arith) m v k
        (header_params-front params tail h) h (last ∙ byte_at-append salt 1 16 rest s))

length-encode_prefix :
    (params : KdfParams) (salt : Bytes) → length salt ≡ 16 → length (encode_prefix params salt) ≡ 40
unfolding encode_prefix to_le_bytes
length-encode_prefix params salt s = omega (arith, length-append salt (1 ∷ []))

module _ ⦃crypto_lib : Crypto⦄ where
  slot-steps :
      (bytes password salt prefix wrap kek dek : Bytes) (params : KdfParams)
      → validate_header bytes ≡ ok params
      → slice 23 39 bytes ≡ salt
      → take prefix_len bytes ≡ prefix
      → slice prefix_len keyslot_len bytes ≡ wrap
      → derive_kek password salt params ≡ ok kek
      → open_sealed kek wrap prefix wrong_password ≡ ok dek
      → length dek ≡ 32
      → open_slot bytes password ≡ ok (record { params = params; dek = dek })
  unfolding open_slot copy_32
  slot-steps bytes password salt prefix wrap kek dek params e1 e2 e3 e4 e5 e6 e7 =
      let right : (length dek == 32) ≡ true = ground arith in
      rw (e1, e2, e3, e4, e5, e6, right) refl

  derive_kek-eq-ok :
      (password salt kek : Bytes) (params : KdfParams)
      → derive_kek password salt params ≡ ok kek
      → IsAccepted params
  unfolding derive_kek
  derive_kek-eq-ok password salt kek params h =
      let (_, valid, _) = >>=-eq-ok (validate_params params) _ h in
      validate_params-eq-ok params valid

  built-opens :
      (password salt kek wrap dek rest : Bytes) (params : KdfParams)
      → IsAccepted params
      → length salt ≡ 16
      → length wrap ≡ 72
      → length dek ≡ 32
      → derive_kek password salt params ≡ ok kek
      → open_sealed kek wrap (encode_prefix params salt) wrong_password ≡ ok dek
      → (validate_header (encode_prefix params salt ++ (wrap ++ rest)) ≡ ok params)
        × (open_slot (encode_prefix params salt ++ (wrap ++ rest)) password
            ≡ ok (record { params = params; dek = dek }))
  built-opens password salt kek wrap dek rest params a s w d derived opens =
      let prefix = encode_prefix params salt in
      let bytes = prefix ++ (wrap ++ rest) in
      let forty = length-encode_prefix params salt s in
      let whole = length-append wrap rest in
      let header = validate_header-built params salt (wrap ++ rest) a s (omega arith) in
      let (_, _, _, _, _, salt_at) = front_steps params (salt ++ 1 ∷ (wrap ++ rest)) in
      let salt_is : slice 23 39 bytes ≡ salt =
        ap (slice 23 39) (encode_prefix-front params salt (wrap ++ rest))
        ∙ (salt_at
            ∙ (ap (λ (k : ℕ). take k (salt ++ 1 ∷ (wrap ++ rest))) (sym s)
                ∙ take-length-append salt (1 ∷ (wrap ++ rest)))) in
      let front : take prefix_len bytes ≡ prefix =
        ap (λ (k : ℕ). take k bytes) (sym forty) ∙ take-length-append prefix (wrap ++ rest) in
      let behind : drop prefix_len bytes ≡ wrap ++ rest =
        ap (λ (k : ℕ). drop k bytes) (sym forty) ∙ drop-length-append prefix (wrap ++ rest) in
      let wrap_is : slice prefix_len keyslot_len bytes ≡ wrap =
        ap (take 72) behind
        ∙ (ap (λ (k : ℕ). take k (wrap ++ rest)) (sym w) ∙ take-length-append wrap rest) in
      (
        header,
        slot-steps bytes password salt prefix wrap kek dek params header salt_is front wrap_is
            derived opens d,
      )

  -- A slot that is built is 112 bytes long, and in front of any bytes it is a header with its
  -- parameters and opens with the password to its key.
  open_slot-build :
      (call : ℕ) (password salt dek slot : Bytes) (params : KdfParams)
      → length salt ≡ 16
      → length dek ≡ 32
      → build call password params salt dek ≡ ok slot
      → (length slot ≡ keyslot_len)
        × ((rest : Bytes) → validate_header (slot ++ rest) ≡ ok params)
        × ((rest : Bytes)
            → open_slot (slot ++ rest) password ≡ ok (record { params = params; dek = dek }))
  unfolding build
  open_slot-build call password salt dek slot params s d h =
      let prefix = encode_prefix params salt in
      let (kek, derived, h₁) = >>=-eq-ok (derive_kek password salt params) _ h in
      let (wrap, sealed, h₂) = >>=-eq-ok (seal call kek dek prefix) _ h₁ in
      let accepted = derive_kek-eq-ok password salt kek params derived in
      let (opens, wrap_long) = open_sealed-seal call kek dek prefix wrap wrong_password sealed in
      let prefix_long = length-encode_prefix params salt s in
      let is : prefix ++ wrap ≡ slot = cc in
      let whole = length-append prefix wrap in
      let built = λ (rest : Bytes).
        built-opens password salt kek wrap dek rest params accepted s (omega arith) d derived
          opens in
      let split =
        λ (rest : Bytes). sym (ap (λ (t : Bytes). t ++ rest) is) ∙ append_assoc prefix wrap rest in
      (
        omega (arith, ap length is),
        λ rest. ap validate_header (split rest) ∙ (built rest).0,
        λ rest. ap (λ (t : Bytes). open_slot t password) (split rest) ∙ (built rest).1,
      )

  -- A well-formed vault whose slot opens with the password.
  abbrev pub IsCreated : Bytes → Bytes → Vault → Type 0
  IsCreated password name v =
      IsVault v
      × ((rest : Bytes)
          → open_slot (v.keyslot ++ rest) password ≡ ok (record { params = v.params; dek = v.dek }))
      × (v.display_name ≡ name)

  ok_injective : {a b : Vault} → ◌≡◌ {A = VaultResult Vault} (ok a) (ok b) → a ≡ b
  ok_injective e = cc

  created :
      (call : ℕ) (password : Bytes) (params : KdfParams) (name : Bytes) (v : Vault)
      → is_utf8 name ≡ true
      → create_named_with call password params name ≡ ok v
      → IsCreated password name v
  unfolding create_named_with
  created call password params name v text h =
      let (_, named, h₁) =
        >>=-eq-ok (map_err invalid_display_name (validate_display_name name)) _ h in
      let (salt, salted, h₂) = >>=-eq-ok (ok_or (crypto_lib.random call 16) rng) _ h₁ in
      let (dek, keyed, h₃) = >>=-eq-ok (ok_or (crypto_lib.random (call + 1) 32) rng) _ h₂ in
      let (slot, built, h₄) = >>=-eq-ok (build (call + 2) password params salt dek) _ h₃ in
      let salt_long = crypto_lib.random_length call 16 salt (ok_or-eq-ok _ _ salted) in
      let dek_long = crypto_lib.random_length (call + 1) 32 dek (ok_or-eq-ok _ _ keyed) in
      let (long, header, opens) =
        open_slot-build (call + 2) password salt dek slot params salt_long dek_long built in
      let valid = map_err-eq-ok invalid_display_name (validate_display_name name) named in
      subst (λ (x : Vault). IsCreated password name x) (ok_injective h₄)
        ((long, header, text, valid), opens, refl)

  -- What opening a vault's container needs of its slot.
  keyslot-steps :
      (bytes password : Bytes) (v : Vault) (header : PublicHeader)
      → parse_public_header bytes ≡ ok header
      → open_slot bytes password ≡ ok (record { params = v.params; dek = v.dek })
      → take keyslot_len bytes ≡ v.keyslot
      → open_keyslot bytes password ≡ ok (slot_of v)
  unfolding open_keyslot
  keyslot-steps bytes password v header e1 e2 e3 = rw (e1, e2, e3) refl

  container-steps :
      (bytes password : Bytes) (slot : OpenedKeyslot)
      → open_keyslot bytes password ≡ ok slot
      → open_container bytes password ≡ open_container_with bytes slot
  unfolding open_container
  container-steps bytes password slot e = rw e refl

  open_container_with-header :
      (bytes : Bytes) (slot : OpenedKeyslot) (o : OpenedContainer)
      → open_container_with bytes slot ≡ ok o
      → (header : PublicHeader) × (parse_public_header bytes ≡ ok header)
  unfolding open_container_with
  open_container_with-header bytes slot o h =
      let (header, e, _) = >>=-eq-ok (parse_public_header bytes) _ h in (header, e)

  -- A vault that is created with a password and an UTF-8 name seals sections under a counter: the
  -- container, if it is shorter than 2 ^ 64 bytes, opens with the password, and gives the vault, the
  -- counter and the payloads of the wallet, the journal and, if there was one, the activity section
  -- back.
  pub open_container-seal_container :
      (call next : ℕ) (password : Bytes) (params : KdfParams) (name : Bytes) (v : Vault)
      (counter : ℕ) (sections : List Section) (bytes : Bytes)
      → is_utf8 name ≡ true
      → create_named_with call password params name ≡ ok v
      → counter < 2 ^ 64
      → seal_container next v counter sections ≡ ok bytes
      → length bytes < 2 ^ 64
      → (w j : Bytes) × (payload_of wallet sections ≡ some w)
        × (payload_of journal sections ≡ some j)
        × (open_container bytes password ≡ ok (opened v counter w j (payload_of activity sections)))
  open_container-seal_container call next password params name v counter sections bytes text made c
        h small =
      let (good, opens, _) = created call password params name v text made in
      let (rest, front) = seal_container-keyslot next v counter sections bytes h in
      let (w, j, has_wallet, has_journal, result) =
        open_container_with-seal_container next v counter sections bytes good c h small in
      let (header, parsed) = open_container_with-header bytes (slot_of v) _ result in
      let slot_opens = ap (λ (t : Bytes). open_slot t password) (sym front) ∙ opens rest in
      let slot_is : take keyslot_len bytes ≡ v.keyslot =
        ap (take keyslot_len) (sym front)
        ∙ (ap (λ (k : ℕ). take k (v.keyslot ++ rest)) (sym good.0)
            ∙ take-length-append v.keyslot rest) in
      let slot = keyslot-steps bytes password v header parsed slot_opens slot_is in
      (w, j, has_wallet, has_journal, container-steps bytes password (slot_of v) slot ∙ result)
