-- ===== src/Journal/Ticket.antt =====
-- journal.rs: the immutable ticket of a send, with the request of send.rs that it holds.
use cc_wallet_gui.Prelude.{
  ℕ, Option, Bool, not, ◌&&◌, Bytes, bytes_eq, ok, ◌>>=◌, ◌>>◌, reject_if, ℤ, int_eq, expect_ok,
}
use cc_wallet_gui.External.{BigUint, Sha256}
use cc_wallet_gui.Amount.{AssetAmount}
use cc_wallet_gui.Ids.{RecordId, Digest32}
use cc_wallet_gui.Digest.{TicketDigestInput, ticket_digest}
use cc_wallet_gui.Journal.Errors.{invalid_ticket, Journaled, from_digest}
use cc_wallet_gui.Journal.Identity.{validate_identity, parse_canonical_address}

pub record SendRequest : Type 0 where
  pub destination : Bytes
  pub value : AssetAmount
  pub comment : Bytes
  pub encrypt_to : Option Bytes

pub record SendTicket : Type 0 where
  pub record_id : RecordId
  pub sender_wallet_id : Bytes
  pub sender_address : Bytes
  pub network_global_id : ℤ
  pub endpoint_identity : Bytes
  pub request : SendRequest
  pub bounce : Bool
  pub auth_generation : ℕ
  pub auth_nonce : ℕ

-- `SendTicket::new` takes the fields apart and builds the ticket if they pass.
unfoldable pub new_ticket : SendTicket → Journaled SendTicket
unfolding validate_identity parse_canonical_address
new_ticket t = do
  reject_if (not (validate_identity t.sender_wallet_id))
      (invalid_ticket "sender wallet identity is empty or noncanonical")
  reject_if (not (validate_identity t.endpoint_identity))
      (invalid_ticket "endpoint identity is empty or noncanonical")
  parse_canonical_address t.sender_address
  parse_canonical_address t.request.destination
  ok t

-- `scope`: wallet, sender and network
abbrev pub Scope : Type 0
Scope = Bytes × Bytes × ℤ

abbrev pub scope : SendTicket → Scope
scope t = (t.sender_wallet_id, t.sender_address, t.network_global_id)

unfoldable pub scope_eq : Scope → Scope → Bool
unfolding bytes_eq int_eq
scope_eq a b = bytes_eq a.0 b.0 && bytes_eq a.1 b.1 && int_eq a.2 b.2

-- The input of the ticket's digest.
unfoldable pub digest_input : SendTicket → Journaled TicketDigestInput
unfolding parse_canonical_address
digest_input t = do
  sender ← expect_ok (parse_canonical_address t.sender_address)
  destination ← expect_ok (parse_canonical_address t.request.destination)
  ok (record {
    record_id = t.record_id;
    sender_wallet_id = t.sender_wallet_id;
    sender_address = sender;
    network_global_id = t.network_global_id;
    endpoint_identity = t.endpoint_identity;
    destination = destination;
    value = t.request.value;
    bounce = t.bounce;
    auth_generation = t.auth_generation;
    auth_nonce = t.auth_nonce;
  })

module _ ⦃big : BigUint⦄ ⦃sha : Sha256⦄ where
  -- `SendTicket::digest`
  unfoldable pub digest_of_ticket : SendTicket → Journaled Digest32
  unfolding digest_input
  digest_of_ticket t = do input ← digest_input t; from_digest (ticket_digest input)
