-- ===== src/Digest/Ticket.antt =====
-- digest.rs: the digest of a send ticket.
use cc_wallet_gui.Prelude.{
  ℕ, List, [], ◌∷◌, Bool, if◌then◌else◌, Bytes, Outcome, to_be_bytes, ℤ, to_word,
}
use cc_wallet_gui.External.{BigUint, Sha256}
use cc_wallet_gui.Amount.{AssetAmount}
use cc_wallet_gui.Ids.{RecordId, Digest32}
use cc_wallet_gui.Digest.Frame.{DigestError, ticket, digest}
use cc_wallet_gui.Digest.RowBytes.{asset_amount_bytes}

pub record CanonicalAddress : Type 0 where
  pub workchain : ℤ
  pub account : Bytes

unfoldable pub digest_bytes : CanonicalAddress → Bytes
unfolding to_word
digest_bytes a = to_word 8 a.workchain ∷ a.account

pub record TicketDigestInput : Type 0 where
  pub record_id : RecordId
  pub sender_wallet_id : Bytes
  pub sender_address : CanonicalAddress
  pub network_global_id : ℤ
  pub endpoint_identity : Bytes
  pub destination : CanonicalAddress
  pub value : AssetAmount
  pub bounce : Bool
  pub auth_generation : ℕ
  pub auth_nonce : ℕ

module _ ⦃big : BigUint⦄ where
  -- The ten fields of `ticket_digest`.
  unfoldable pub ticket_fields : TicketDigestInput → List Bytes
  unfolding digest_bytes to_be_bytes to_word asset_amount_bytes
  ticket_fields t =
      t.record_id
      ∷ t.sender_wallet_id
      ∷ digest_bytes t.sender_address
      ∷ to_be_bytes 4 (to_word 32 t.network_global_id)
      ∷ t.endpoint_identity
      ∷ digest_bytes t.destination
      ∷ asset_amount_bytes t.value
      ∷ ((if t.bounce then 1 else 0) ∷ [])
      ∷ to_be_bytes 8 t.auth_generation
      ∷ to_be_bytes 8 t.auth_nonce
      ∷ []

module _ ⦃big : BigUint⦄ ⦃sha : Sha256⦄ where
  unfoldable pub ticket_digest : TicketDigestInput → Outcome DigestError Digest32
  unfolding ticket_fields digest
  ticket_digest t = digest ticket (ticket_fields t)
