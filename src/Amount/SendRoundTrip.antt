-- ===== src/Amount/SendRoundTrip.antt =====
-- amount.rs: `parse_send_amount` reads what `format_fixed9_amount` writes.
use cc_wallet_gui.Prelude.{
  ℕ, zero, suc, ◌+◌, ◌-◌, ◌<◌, ◌≤◌, [], ◌∷◌, ◌++◌, some, true, false, ◌&&◌, ◌≡◌, refl, ap, ◌∙◌,
  arith, ltb, leb, All, All-append, ok, Bytes, length, take, drop, replicate, take-append-drop,
  length-drop, length-append, length-replicate, append-nil, Bool-cases, inl, inr,
}
use cc_wallet_gui.Decimal.{value_from, IsDigit, to_decimal, value}
use cc_wallet_gui.Decimal.Laws.{value-to_decimal}
use cc_wallet_gui.Decimal.Canonical.{IsCanonical, to_decimal-IsCanonical}
use cc_wallet_gui.External.{BigUint}
use cc_wallet_gui.Asset.{AssetId, WalletError, asset_meta_lem, is_sendable}
use cc_wallet_gui.Amount.{
  native_units, cc_units, to_canonical_decimal, AssetAmount, native_amount, cc_amount, make_native,
  asset_id, is_zero, is_empty, starts_with_byte,
}
use cc_wallet_gui.Amount.Arithmetic.{units, InDomain, is_zero-units}
use cc_wallet_gui.Amount.Canonical.{
  native_units_from_canonical_decimal_iff, cc_from_canonical_decimal_iff, all-IsDigit, fits_short,
}
use cc_wallet_gui.Amount.Send.{
  has_nine_decimals, split, parts, trim_zeros, canonical_digits, scan_amount, or_empty,
  max_whole_digits, amount_of_digits, parse_send_amount, format_base_units, pad_left, with_point,
  format_fixed9_amount,
}

-- A text of digits holds no point.
split-digits : (s : Bytes) → All IsDigit s → split b'.' s ≡ s ∷ []
unfolding split
split-digits [] h = refl
split-digits (c ∷ s) (d, h) = ground (arith, split-digits s h)

split-with_point :
    (w f : Bytes) → All IsDigit w → All IsDigit f → split b'.' (w ++ b'.' ∷ f) ≡ w ∷ f ∷ []
unfolding split
split-with_point [] f hw hf = ground (arith, split-digits f hf)
split-with_point (c ∷ w) f (d, hw) hf = ground (arith, split-with_point w f hw hf)

take-All : (n : ℕ) (s : Bytes) → All IsDigit s → All IsDigit (take n s)
take-All zero s h = tt
take-All (suc n) [] h = tt
take-All (suc n) (c ∷ s) (d, h) = (d, take-All n s h)

drop-All : (n : ℕ) (s : Bytes) → All IsDigit s → All IsDigit (drop n s)
drop-All zero s h = h
drop-All (suc n) [] h = tt
drop-All (suc n) (c ∷ s) (d, h) = drop-All n s h

zeros-All : (k : ℕ) → All IsDigit (replicate k b'0')
zeros-All zero = tt
zeros-All (suc k) = (omega arith, zeros-All k)

trim_zeros-zeros : (k : ℕ) (s : Bytes) → trim_zeros (replicate k b'0' ++ s) ≡ trim_zeros s
unfolding trim_zeros
trim_zeros-zeros zero s = refl
trim_zeros-zeros (suc k) s = ground (arith, trim_zeros-zeros k s)

starts-take :
    (n : ℕ) (s : Bytes) (b : ℕ) → 0 < n → starts_with_byte (take n s) b ≡ starts_with_byte s b
unfolding starts_with_byte
starts-take zero s b h = absurd (omega arith)
starts-take (suc n) [] b h = refl
starts-take (suc n) (c ∷ s) b h = refl

-- The parts of a fixed-point text.
record Fixed9 (padded w f : Bytes) : Type 0 where
  whole_digits : All IsDigit w
  fraction_digits : All IsDigit f
  nine : length f ≡ 9
  whole_length : length w + 9 ≡ length padded
  no_leading_zero : (ltb 1 (length w) && starts_with_byte w b'0') ≡ false
  joined : w ++ f ≡ padded

abbrev whole_of : Bytes → Bytes
whole_of padded = take (length padded - 9) padded

abbrev fraction_of : Bytes → Bytes
fraction_of padded = drop (length padded - 9) padded

split_padded :
    (padded : Bytes)
    → All IsDigit padded
    → 10 ≤ length padded
    → (ltb 10 (length padded) && starts_with_byte padded b'0') ≡ false
    → Fixed9 padded (whole_of padded) (fraction_of padded)
split_padded padded digits long head =
    let k = length padded - 9 in
    let joins = take-append-drop k padded in
    let tail : length (drop k padded) ≡ 9 = omega (arith, length-drop k padded, long) in
    let front : length (take k padded) + 9 ≡ length padded =
      omega (arith, length-append (take k padded) (drop k padded), ap length joins, tail) in
    record {
      whole_digits = take-All k padded digits;
      fraction_digits = drop-All k padded digits;
      nine = tail;
      whole_length = front;
      no_leading_zero =
          ground (arith, head, front, starts-take k padded b'0' (omega (arith, long)));
      joined = joins;
    }

-- The padded text of digits that do not start with a zero.
record Padded (digits padded : Bytes) : Type 0 where
  all_digits : All IsDigit padded
  long : 10 ≤ length padded
  bounded : (k : ℕ) → 10 ≤ k → length digits ≤ k → length padded ≤ k
  head : (ltb 10 (length padded) && starts_with_byte padded b'0') ≡ false
  trimmed : canonical_digits padded ≡ digits

pad_left-Padded :
    (c : ℕ) (s : Bytes) → All IsDigit (c ∷ s) → b'0' < c → Padded (c ∷ s) (pad_left (c ∷ s))
unfolding pad_left canonical_digits trim_zeros starts_with_byte is_empty
pad_left-Padded c s h p = elim (Bool-cases (leb (length (c ∷ s)) 9)) [
  | inl short ↦
      let zeros : Bytes = replicate (10 - length (c ∷ s)) b'0' in
      let exact : length (zeros ++ c ∷ s) ≡ 10 = ground (
        arith,
        short,
        length-append zeros (c ∷ s),
        length-replicate {A = ℕ} (10 - length (c ∷ s)) b'0',
      ) in
      rw short (record {
        all_digits = All-append IsDigit zeros (c ∷ s) (zeros-All (10 - length (c ∷ s))) h;
        long = omega (arith, exact);
        bounded = λ k l m. omega (arith, exact, l);
        head = ground (arith, exact);
        trimmed = ground (arith, trim_zeros-zeros (10 - length (c ∷ s)) (c ∷ s));
      })
  | inr long ↦ rw long (record {
    all_digits = h;
    long = ground arith;
    bounded = λ k l m. m;
    head = ground arith;
    trimmed = ground arith;
  })
]

scan-with_point :
    (w f : Bytes)
    → All IsDigit w
    → All IsDigit f
    → length f ≡ 9
    → 0 < length w
    → (ltb 1 (length w) && starts_with_byte w b'0') ≡ false
    → scan_amount (w ++ b'.' ∷ f) ≡ ok (w, some f)
unfolding scan_amount parts is_empty
scan-with_point w f hw hf nine some_whole head =
    ground (arith, split-with_point w f hw hf, all-IsDigit w hw, all-IsDigit f hf)

single_positive : (c : ℕ) (s : Bytes) (n : ℕ) → s ≡ [] → value (c ∷ s) ≡ n → 0 < n → b'0' < c
unfolding value_from
single_positive c [] n e v p = omega (arith, v, p)
single_positive c (d ∷ s) n e v p = cc

-- What the send form reads, from the digits of the base units.
module _ ⦃big : BigUint⦄ where
  parse-scan :
      (asset : AssetId) (text w f digits : Bytes) (most : ℕ) (a : AssetAmount)
      → scan_amount text ≡ ok (w, some f)
      → max_whole_digits asset ≡ ok most
      → ltb most (length w) ≡ false
      → canonical_digits (w ++ (f ++ replicate (9 - length f) b'0')) ≡ digits
      → amount_of_digits asset digits ≡ ok a
      → is_zero a ≡ false
      → parse_send_amount asset text ≡ ok a
  unfolding parse_send_amount or_empty has_nine_decimals
  parse-scan asset text w f digits most a scans whole_max within trims reads positive =
      rw ((asset_meta_lem asset).1, scans, whole_max, within, trims, reads, positive)

  parse-with_point :
      (asset : AssetId) (most : ℕ) (c : ℕ) (s : Bytes) (a : AssetAmount)
      → All IsDigit (c ∷ s)
      → b'0' < c
      → max_whole_digits asset ≡ ok most
      → 1 ≤ most
      → length (c ∷ s) ≤ most + 9
      → amount_of_digits asset (c ∷ s) ≡ ok a
      → is_zero a ≡ false
      → parse_send_amount asset (with_point (c ∷ s)) ≡ ok a
  unfolding with_point
  parse-with_point asset most c s a h p whole_max one fits reads positive =
      let padded = pad_left (c ∷ s) in
      let q = pad_left-Padded c s h p in
      let r = split_padded padded q.all_digits q.long q.head in
      let k = length padded - 9 in
      let scans =
        scan-with_point (take k padded) (drop k padded) r.whole_digits r.fraction_digits r.nine
          (omega (arith, q.long, r.whole_length)) r.no_leading_zero in
      let short : length padded ≤ most + 9 = q.bounded (most + 9) (omega (arith, one)) fits in
      let within : ltb most (length (take k padded)) ≡ false =
        ground (arith, short, r.whole_length) in
      let f = drop k padded in
      let no_zeros : f ++ replicate (9 - length f) b'0' ≡ f =
        ap (λ (n : ℕ). f ++ replicate (9 - n) b'0') r.nine ∙ append-nil f in
      let trims : canonical_digits (take k padded ++ (f ++ replicate (9 - length f) b'0')) ≡ c ∷ s =
        ap (λ (t : Bytes). canonical_digits (take k padded ++ t)) no_zeros
        ∙ ap canonical_digits r.joined
        ∙ q.trimmed in
      parse-scan asset (take k padded ++ b'.' ∷ f) (take k padded) f (c ∷ s) most a scans whole_max
        within trims reads positive

  amount_of_digits-units :
      (a : AssetAmount) (s : Bytes)
      → InDomain a
      → is_sendable (asset_id a) ≡ true
      → IsCanonical s
      → value s ≡ units a
      → amount_of_digits (asset_id a) s ≡ ok a
  unfolding amount_of_digits asset_id make_native is_sendable
  amount_of_digits-units (native_amount n) s h sends c v =
      let reads = (native_units_from_canonical_decimal_iff s n).1 (c, v, omega (arith, h)) in
      ground (arith, reads)
  amount_of_digits-units (cc_amount id n) s h sends c v =
      let reads = (cc_from_canonical_decimal_iff s n).1 (c, v, h) in ground (arith, reads)

  -- The most digits before the point that an asset may have, with nine after it, hold every amount.
  record Room (a : AssetAmount) (s : Bytes) : Type 0 where
    most : ℕ
    is_most : max_whole_digits (asset_id a) ≡ ok most
    one : 1 ≤ most
    fits : length s ≤ most + 9

  digits-Room :
      (a : AssetAmount) (s : Bytes)
      → InDomain a
      → is_sendable (asset_id a) ≡ true
      → IsCanonical s
      → value s ≡ units a
      → Room a s
  unfolding max_whole_digits asset_id is_sendable
  digits-Room (native_amount n) s h sends c v = record {
    most = 28;
    is_most = refl;
    one = omega arith;
    fits = fits_short s 36 c (omega (arith, v, h));
  }
  digits-Room (cc_amount id n) s h sends c v = record {
    most = 66;
    is_most = ground arith;
    one = omega arith;
    fits = fits_short s 74 c (omega (arith, v, h));
  }

  parse-canonical :
      (a : AssetAmount) (s : Bytes)
      → InDomain a
      → 0 < units a
      → is_sendable (asset_id a) ≡ true
      → IsCanonical s
      → value s ≡ units a
      → parse_send_amount (asset_id a) (with_point s) ≡ ok a
  parse-canonical a [] h p sends c v = absurd c
  parse-canonical a (d ∷ s) h p sends (digit, digits, inl e) v =
      let r = digits-Room a (d ∷ s) h sends (digit, digits, inl e) v in
      parse-with_point (asset_id a) r.most d s a (digit, digits)
        (single_positive d s (units a) e v p) r.is_most r.one r.fits
        (amount_of_digits-units a (d ∷ s) h sends (digit, digits, inl e) v)
        (is_zero-units a ∙ ground arith)
  parse-canonical a (d ∷ s) h p sends (digit, digits, inr positive) v =
      let r = digits-Room a (d ∷ s) h sends (digit, digits, inr positive) v in
      parse-with_point (asset_id a) r.most d s a (digit, digits) positive r.is_most r.one r.fits
        (amount_of_digits-units a (d ∷ s) h sends (digit, digits, inr positive) v)
        (is_zero-units a ∙ ground arith)

  prints : (a : AssetAmount) → format_base_units {E = WalletError} a ≡ ok (to_decimal (units a))
  unfolding format_base_units native_units cc_units to_canonical_decimal
  prints (native_amount n) = refl
  prints (cc_amount id n) = ap ok (big.to_str_radix_decimal n)

  -- For a positive amount in the domain of an asset that can be sent, `format_fixed9_amount`
  -- returns a text, and `parse_send_amount` reads this text as the amount.
  pub parse_send_amount-format_fixed9_amount :
      (a : AssetAmount)
      → InDomain a
      → 0 < units a
      → is_sendable (asset_id a) ≡ true
      → (text : Bytes) × (format_fixed9_amount a ≡ ok text)
        × (parse_send_amount (asset_id a) text ≡ ok a)
  unfolding format_fixed9_amount has_nine_decimals
  parse_send_amount-format_fixed9_amount a h p sends =
      let s = to_decimal (units a) in
      (
        with_point s,
        rw ((asset_meta_lem (asset_id a)).1, prints a) refl,
        parse-canonical a s h p sends (to_decimal-IsCanonical (units a))
            (value-to_decimal (units a)),
      )
