-- ===== src/Requests/Canonical.antt =====
-- Recipients in their canonical text, which the journal accepts.
use cc_wallet_gui.Prelude.{
  zero, suc, [], ◌∷◌, ◌++◌, some, Bool, true, false, not, ◌||◌, ◌≡◌, ◌⊎◌, inl, inr, refl, ap, sym,
  subst, ◌∙◌, arith, ok, reject_if, map_err, map_err-eq-ok, >>=-eq-ok, reject_if-eq-ok, Bytes,
  length, All, ℤ, pos, negsuc, int_eq,
}
use Prim.Native.String.{◌++◌ as ◌⧺◌}
use cc_wallet_gui.Strings.{trim}
use cc_wallet_gui.Strings.Trim.{IsGraphic, trim-All}
use cc_wallet_gui.External.{IsByte}
use cc_wallet_gui.External.Addresses.{StdAddr, StdAddrs}
use cc_wallet_gui.Asset.{validation}
use cc_wallet_gui.Amount.{is_empty}
use cc_wallet_gui.Ids.{hex_digit, hex_lower_encode}
use cc_wallet_gui.Ids.RoundTrip.{hex_lower_decode-encode}
use cc_wallet_gui.Digest.{CanonicalAddress}
use cc_wallet_gui.Journal.Identity.{only_32_bytes, int_text, parse_canonical_address}
use cc_wallet_gui.Requests.{canonicalize_recipient}

hex-IsGraphic : (s : Bytes) → All IsByte s → All IsGraphic (hex_lower_encode s)
unfolding hex_lower_encode hex_digit
hex-IsGraphic [] h = tt
hex-IsGraphic (b ∷ s) (hb, hs) = (ground arith, (ground arith, hex-IsGraphic s hs))

supported : ℤ → Bool
supported w = int_eq w (pos 0) || int_eq w (negsuc 0)

supported-cases : (w : ℤ) → supported w ≡ true → (w ≡ pos 0) ⊎ (w ≡ negsuc 0)
unfolding supported int_eq
supported-cases (pos zero) h = inl refl
supported-cases (pos (suc n)) h = absurd (ground arith)
supported-cases (negsuc zero) h = inr refl
supported-cases (negsuc (suc n)) h = absurd (ground arith)

-- The raw text of an address.
abbrev raw : ℤ → Bytes → Bytes
raw w address = int_text w ++ b':' ∷ hex_lower_encode address

only_32_bytes-length : (s : Bytes) → length s ≡ 32 → only_32_bytes (some s) ≡ some s
unfolding only_32_bytes
only_32_bytes-length s h = ground arith

accepts_zero :
    (address : Bytes)
    → length address ≡ 32
    → All IsByte address
    → parse_canonical_address (b'0' ∷ b':' ∷ hex_lower_encode address)
      ≡ ok (record { workchain = pos 0; account = address })
unfolding parse_canonical_address
accepts_zero address l h =
    rw (hex_lower_decode-encode address h, only_32_bytes-length address l) refl

accepts_minus :
    (address : Bytes)
    → length address ≡ 32
    → All IsByte address
    → parse_canonical_address (b'-' ∷ b'1' ∷ b':' ∷ hex_lower_encode address)
      ≡ ok (record { workchain = negsuc 0; account = address })
unfolding parse_canonical_address
accepts_minus address l h =
    rw (hex_lower_decode-encode address h, only_32_bytes-length address l) refl

-- A raw text on a supported chain has no white space, and the journal reads it.
abbrev IsAccepted : Bytes → ℤ → Bytes → Type 0
IsAccepted text w address =
    All IsGraphic text
    × (is_empty text ≡ false)
    × (parse_canonical_address text ≡ ok (record { workchain = w; account = address }))

raw-IsAccepted :
    (w : ℤ) (address : Bytes)
    → (w ≡ pos 0) ⊎ (w ≡ negsuc 0)
    → length address ≡ 32
    → All IsByte address
    → IsAccepted (raw w address) w address
unfolding int_text is_empty
raw-IsAccepted w address (inl e) l h =
    rw e ((ground arith, (ground arith, hex-IsGraphic address h)), refl, accepts_zero address l h)
raw-IsAccepted w address (inr e) l h = rw e (
  (ground arith, (ground arith, (ground arith, hex-IsGraphic address h))),
  refl,
  accepts_minus address l h,
)

not-eq-false : (b : Bool) → not b ≡ false → b ≡ true
not-eq-false b h = ground arith

module _ ⦃addrs : StdAddrs⦄ where
  -- What a successful call has found.
  canonicalize_recipient-eq-ok :
      (s t : Bytes)
      → canonicalize_recipient s ≡ ok t
      → (a : StdAddr) × (addrs.from_str (trim s) ≡ ok a)
        × (a.has_anycast ≡ false)
        × (supported a.workchain ≡ true)
        × (addrs.to_string a ≡ t)
  unfolding canonicalize_recipient supported
  canonicalize_recipient-eq-ok s t h =
      let (_, _, h₁) =
        >>=-eq-ok (reject_if (is_empty (trim s)) (validation "address is empty")) _ h in
      let (a, parsed, h₂) =
        >>=-eq-ok
          (map_err (λ error. validation ("invalid standard address: " ⧺ error))
            (addrs.from_str (trim s)))
          _ h₁ in
      let (_, plain, h₃) =
        >>=-eq-ok
          (reject_if a.has_anycast (validation "anycast recipient addresses are not supported")) _
          h₂ in
      let (_, chain, h₄) =
        >>=-eq-ok
          (reject_if (not (int_eq a.workchain (pos 0) || int_eq a.workchain (negsuc 0)))
            (validation "recipient workchain must be 0 or -1"))
          _ h₃ in
      (
        a,
        map_err-eq-ok _ (addrs.from_str (trim s)) parsed,
        reject_if-eq-ok a.has_anycast _ plain,
        not-eq-false _ (reject_if-eq-ok _ _ chain),
        cc,
      )

  canonicalize_recipient-of :
      (s t : Bytes) (a : StdAddr)
      → trim s ≡ t
      → is_empty t ≡ false
      → addrs.from_str t ≡ ok a
      → a.has_anycast ≡ false
      → supported a.workchain ≡ true
      → canonicalize_recipient s ≡ ok (addrs.to_string a)
  unfolding canonicalize_recipient supported
  canonicalize_recipient-of s t a trimmed full parsed plain chain =
      rw (trimmed, full, parsed, plain, chain) refl

  -- The text that `canonicalize_recipient` gives is the raw text of an address: the journal reads it
  -- as an address, and canonicalizing it again changes nothing.
  pub canonicalize_recipient-parse_canonical_address :
      (s t : Bytes)
      → canonicalize_recipient s ≡ ok t
      → ((c : CanonicalAddress) × (parse_canonical_address t ≡ ok c))
        × (canonicalize_recipient t ≡ ok t)
  canonicalize_recipient-parse_canonical_address s t h =
      let (a, parsed, plain, chain, same) = canonicalize_recipient-eq-ok s t h in
      let (long, bytes) = addrs.from_str_bytes (trim s) a parsed in
      let text : addrs.to_string a ≡ raw a.workchain a.address =
        addrs.to_string_raw (trim s) a parsed plain in
      let accepted =
        raw-IsAccepted a.workchain a.address (supported-cases a.workchain chain) long bytes in
      let (graphic, full, reads) =
        subst (λ (x : Bytes). IsAccepted x a.workchain a.address) (sym text ∙ same) accepted in
      let again =
        canonicalize_recipient-of t t a (trim-All t graphic) full
          (subst (λ (x : Bytes). addrs.from_str x ≡ ok a) same
            (addrs.from_str-to_string (trim s) a parsed plain))
          plain chain in
      ((_, reads), again ∙ ap ok same)
