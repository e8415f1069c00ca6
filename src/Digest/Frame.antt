-- ===== src/Digest/Frame.antt =====
-- digest.rs: tagged, length-prefixed fields and the bytes that a digest hashes.
use cc_wallet_gui.Prelude.{
  String, ℕ, ◌+◌, ◌^◌, List, [], ◌∷◌, ◌++◌, ltb, leb, if◌then◌else◌, Bytes, length, Outcome, ok,
  err, ◌>>=◌, ◌>>◌, reject_if, codes, to_be_bytes,
}
use cc_wallet_gui.External.{Sha256}
use cc_wallet_gui.Ids.{Digest32}

abbrev pub digest_domain : Bytes
digest_domain = codes "cc-wallet/journal-v1/"

pub data DigestError : Type 0 where
  field_too_long too_many_fields too_many_rows duplicate_row : DigestError
  non_blocking_evidence native_fee_requires_native_amount : DigestError

-- `Display`
unfoldable pub digest_error_text : DigestError → String
digest_error_text field_too_long = "a digest field length exceeds the u32 length prefix"
digest_error_text too_many_fields = "a digest has more fields than the u16 tag space allows"
digest_error_text too_many_rows = "a set has more rows than the u32 count prefix allows"
digest_error_text duplicate_row = "a set has two rows with the same canonical key"
digest_error_text non_blocking_evidence = "a blocker row requires a blocking evidence state"
digest_error_text native_fee_requires_native_amount =
    "a native-fee reservation must hold a native amount"

pub data DigestKind : Type 0 where
  ticket blocker_set reservation_set overlap_set : DigestKind

unfoldable pub kind_text : DigestKind → Bytes
kind_text ticket = codes "ticket"
kind_text blocker_set = codes "blocker-set"
kind_text reservation_set = codes "reservation-set"
kind_text overlap_set = codes "overlap-set"

-- `u32::try_from`
unfoldable pub checked_field_len : ℕ → Outcome DigestError ℕ
checked_field_len len = if ltb len (2 ^ 32) then ok len else err field_too_long

unfoldable pub frame : ℕ → Bytes → Outcome DigestError Bytes
unfolding checked_field_len to_be_bytes
frame tag bytes = do
  len ← checked_field_len (length bytes)
  ok (to_be_bytes 2 tag ++ (to_be_bytes 4 len ++ bytes))

-- The loop over the fields; `index` counts from 0.
unfoldable pub frames : ℕ → List Bytes → Outcome DigestError Bytes
unfolding frame
frames index [] = ok []
frames index (field ∷ fields) = do
  reject_if (leb (2 ^ 16) (index + 1)) too_many_fields
  first ← frame (index + 1) field
  rest ← frames (index + 1) fields
  ok (first ++ rest)

-- What is hashed for a digest.
unfoldable pub preimage : DigestKind → List Bytes → Outcome DigestError Bytes
unfolding frames kind_text
preimage kind fields = do
  framed ← frames 0 fields
  ok (digest_domain ++ (kind_text kind ++ 0 ∷ framed))

module _ ⦃sha : Sha256⦄ where
  unfoldable pub digest : DigestKind → List Bytes → Outcome DigestError Digest32
  unfolding preimage
  digest kind fields = do bytes ← preimage kind fields; ok (sha.hash bytes)
