-- ===== src/Digest/RowBytes.antt =====
-- digest.rs: the bytes of amounts and of rows.
use cc_wallet_gui.Prelude.{
  ◌%◌, [], ◌∷◌, ◌++◌, not, ◌&&◌, Bytes, length, Outcome, ok, ◌>>=◌, ◌>>◌, reject_if, codes,
  to_be_bytes,
}
use cc_wallet_gui.Decimal.{to_decimal}
use cc_wallet_gui.External.{BigUint}
use cc_wallet_gui.Amount.{AssetAmount, native_amount, cc_amount, native_units, to_canonical_decimal}
use cc_wallet_gui.Ids.{RecordId, Digest32}
use cc_wallet_gui.Digest.Frame.{
  DigestError, non_blocking_evidence, native_fee_requires_native_amount, checked_field_len, frame,
}
use cc_wallet_gui.Digest.Rows.{
  EvidenceTag, tag_code, is_blocking, ReservationKind, native_fee, kind_code, kind_eq, is_none,
}

abbrev pub amount_domain : Bytes
amount_domain = codes "cc-wallet/asset-amount/v1" ++ 0 ∷ []

-- `out.push(decimal.len() as u8)`
unfoldable pub len_prefixed_decimal : Bytes → Bytes
len_prefixed_decimal decimal = (length decimal % 256) ∷ decimal

-- `prefix_row_length`
unfoldable pub prefix_row_length : Bytes → Outcome DigestError Bytes
unfolding checked_field_len to_be_bytes
prefix_row_length body = do len ← checked_field_len (length body); ok (to_be_bytes 4 len ++ body)

unfoldable pub blocker_row_bytes : RecordId → EvidenceTag → Digest32 → Outcome DigestError Bytes
unfolding is_blocking frame tag_code prefix_row_length
blocker_row_bytes id evidence hash = do
  reject_if (not (is_blocking evidence)) non_blocking_evidence
  first ← frame 1 id
  second ← frame 2 (tag_code evidence ∷ [])
  third ← frame 3 hash
  prefix_row_length (first ++ (second ++ third))

module _ ⦃big : BigUint⦄ where
  unfoldable pub asset_amount_bytes : AssetAmount → Bytes
  unfolding to_decimal to_canonical_decimal len_prefixed_decimal to_be_bytes
  asset_amount_bytes (native_amount units) =
      amount_domain ++ 0x00 ∷ len_prefixed_decimal (to_decimal units)
  asset_amount_bytes (cc_amount id units) =
      amount_domain
      ++ 0x01 ∷ (to_be_bytes 4 id ++ len_prefixed_decimal (to_canonical_decimal units))

  unfoldable pub reservation_row_bytes :
      RecordId → AssetAmount → ReservationKind → Outcome DigestError Bytes
  unfolding kind_eq is_none native_units frame asset_amount_bytes kind_code prefix_row_length
  reservation_row_bytes id amount kind = do
    reject_if (kind_eq kind native_fee && is_none (native_units amount))
        native_fee_requires_native_amount
    first ← frame 1 id
    second ← frame 2 (asset_amount_bytes amount)
    third ← frame 3 (kind_code kind ∷ [])
    prefix_row_length (first ++ (second ++ third))
