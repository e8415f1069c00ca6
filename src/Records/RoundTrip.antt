-- ===== src/Records/RoundTrip.antt =====
-- The bytes of a record, written by `encode_record` of storage.rs and read by `decode_record`.
use cc_wallet_gui.Prelude.{
  ℕ, ◌+◌, ◌*◌, ◌/◌, ◌%◌, ◌^◌, ◌≤◌, [], ◌∷◌, ◌++◌, true, false, not, ◌≡◌, ◌≢◌, ◌↔◌, refl, arith, ltb,
  ok, reject_if, Bytes, length, take, drop, to_be_bytes, >>=-eq-ok, reject_if-eq-ok, length-append,
  length-drop, take-length-append, length-drop, drop-length-append, length-drop, take-append-drop,
  All, sym, ap, ◌∙◌,
}
use cc_wallet_gui.Strings.{trim, is_utf8}
use cc_wallet_gui.External.{IsByte}
use cc_wallet_gui.Amount.{is_empty}
use cc_wallet_gui.Records.{
  max_record_title_bytes, max_record_data_bytes, record_framing_bytes, malformed, validate_record,
  validate_trimmed, encode_record, decode_record, header_len, split_record,
}

-- A name and contents that fit a record.
abbrev pub Fits : Bytes → Bytes → Type 0
Fits title content =
    (is_empty title ≡ false)
    × (length title ≤ max_record_title_bytes)
    × (length content ≤ max_record_data_bytes)

validate_trimmed_iff :
    (title content : Bytes) → (validate_trimmed title content ≡ ok tt) ↔ Fits title content
unfolding validate_trimmed
validate_trimmed_iff title content = ground arith

validate_record_iff :
    (title content : Bytes) → (validate_record title content ≡ ok tt) ↔ Fits (trim title) content
unfolding validate_record
validate_record_iff title content = validate_trimmed_iff (trim title) content

split_record-append :
    (title content : Bytes)
    → is_utf8 title ≡ true
    → is_utf8 content ≡ true
    → split_record (length title) (title ++ content) ≡ ok (title, content)
unfolding split_record
split_record-append title content t c =
    let long = length-append title content in
    rw (take-length-append title content, drop-length-append title content) (ground arith)

decode_record-split_record :
    (x y : ℕ) (rest : Bytes) → decode_record (x ∷ y ∷ rest) ≡ split_record (x * 256 + y) rest
unfolding decode_record header_len
decode_record-split_record x y rest =
    let long : ltb (length (x ∷ y ∷ rest)) record_framing_bytes ≡ false = ground arith in
    rw long refl

two_bytes : (n : ℕ) → to_be_bytes 2 n ≡ n / 256 % 256 ∷ n % 256 ∷ []
unfolding to_be_bytes
two_bytes n = refl

decode-parts :
    (title content : Bytes)
    → length title ≤ max_record_title_bytes
    → is_utf8 title ≡ true
    → is_utf8 content ≡ true
    → decode_record (to_be_bytes 2 (length title % 2 ^ 16) ++ (title ++ content))
      ≡ ok (title, content)
decode-parts title content l t c =
    let n = length title % 2 ^ 16 in
    let whole : n / 256 % 256 * 256 + n % 256 ≡ length title = omega arith in
    rw (two_bytes n) (
      decode_record-split_record (n / 256 % 256) (n % 256) (title ++ content)
      ∙ rw whole (split_record-append title content t c))

-- A record that is written is read back, with its name trimmed, if the trimmed name and the contents
-- are UTF-8.
pub decode_record-encode_record :
    (title content bytes : Bytes)
    → is_utf8 (trim title) ≡ true
    → is_utf8 content ≡ true
    → encode_record title content ≡ ok bytes
    → decode_record bytes ≡ ok (trim title, content)
unfolding encode_record
decode_record-encode_record title content bytes t c h =
    let (u, valid, e) = >>=-eq-ok (validate_record title content) _ h in
    let fits : Fits (trim title) content = (validate_record_iff title content).0 valid in
    let is : to_be_bytes 2 (length (trim title) % 2 ^ 16) ++ (trim title ++ content) ≡ bytes = cc in
    rw (← is) (decode-parts (trim title) content fits.1 t c)

split_record-eq-ok :
    (n : ℕ) (rest title content : Bytes)
    → split_record n rest ≡ ok (title, content)
    → (length title ≡ n) × (title ++ content ≡ rest)
unfolding split_record
split_record-eq-ok n rest title content h =
    let short = length-drop n rest in
    let whole = take-append-drop n rest in
    let long = length-append (take n rest) (drop n rest) in
    let (_, fits, h₁) =
      >>=-eq-ok (reject_if (ltb (length rest) n) (malformed "the name runs past the end")) _ h in
    let (_, _, h₂) =
      >>=-eq-ok (reject_if (not (is_utf8 (take n rest))) (malformed "the name is not valid text")) _
        h₁ in
    let (_, _, h₃) =
      >>=-eq-ok
        (reject_if (not (is_utf8 (drop n rest))) (malformed "the contents are not valid text")) _
        h₂ in
    let title_is : title ≡ take n rest = cc in
    let content_is : content ≡ drop n rest = cc in
    let room = reject_if-eq-ok (ltb (length rest) n) _ fits in
    let total : length (take n rest ++ drop n rest) ≡ length rest = ap length whole in
    let enough : n ≤ length rest = ground arith in rw (title_is, content_is) (omega arith, whole)

encode-parts :
    (title content bytes : Bytes)
    → trim title ≡ title
    → Fits title content
    → to_be_bytes 2 (length title % 2 ^ 16) ++ (title ++ content) ≡ bytes
    → encode_record title content ≡ ok bytes
unfolding encode_record
encode-parts title content bytes t f e = rw (t, (validate_trimmed_iff title content).1 f, e) refl

decode_record-none : {p : Bytes × Bytes} → decode_record [] ≢ ok p
unfolding decode_record
decode_record-none h = cc

decode_record-one : (x : ℕ) {p : Bytes × Bytes} → decode_record (x ∷ []) ≢ ok p
unfolding decode_record
decode_record-one x h = cc

-- Bytes that are read as a trimmed name and contents that fit are the bytes that this record is
-- written to.
pub encode_record-decode_record :
    (title content bytes : Bytes)
    → All IsByte bytes
    → decode_record bytes ≡ ok (title, content)
    → trim title ≡ title
    → Fits title content
    → encode_record title content ≡ ok bytes
encode_record-decode_record title content [] b h t f = absurd (decode_record-none h)
encode_record-decode_record title content (x ∷ []) b h t f = absurd (decode_record-one x h)
encode_record-decode_record title content (x ∷ y ∷ rest) b h t f =
    let (at, joined) =
      split_record-eq-ok (x * 256 + y) rest title content
        (sym (decode_record-split_record x y rest) ∙ h) in
    let high : length title % 2 ^ 16 / 256 % 256 ≡ x = ground arith in
    let low : length title % 2 ^ 16 % 256 ≡ y = ground arith in
    encode-parts title content (x ∷ y ∷ rest) t f
      (rw (two_bytes (length title % 2 ^ 16), high, low, joined) refl)
