-- ===== src/Journal/Evidence.antt =====
-- journal.rs: delivery evidence, its tags, and which evidence may follow which.
use cc_wallet_gui.Prelude.{
  ℕ, ◌+◌, ◌^◌, List, Bool, true, false, not, ◌&&◌, ◌||◌, if◌then◌else◌, ltb, ◌==◌, Bytes, ok, err,
  ◌>>◌, reject_if, ℤ,
}
use cc_wallet_gui.Amount.{AssetAmount}
use cc_wallet_gui.Ids.{Digest32}
use cc_wallet_gui.Digest.{EvidenceTag}
use cc_wallet_gui.Affordability.{asset_key}
use cc_wallet_gui.Journal.Errors.{JournalError, invalid_delivery, sequence_zero, Journaled}
use cc_wallet_gui.Journal.Identity.{validate_identity, parse_canonical_address}

pub data NodeResponseKind : Type 0 where
  acknowledged rejected transport_error malformed : NodeResponseKind

pub data TerminalOutcome : Type 0 where
  success failed_on_chain : TerminalOutcome

-- An `AssetMovement` holds one amount.
pub record EndpointTransactionEvidence : Type 0 where
  pub source_endpoint : Bytes
  pub request_id : Bytes
  pub sender_address : Bytes
  pub tx_hash : Digest32
  pub ext_msg_hash : Digest32
  pub lt : ℕ
  pub succeeded : Bool
  pub exit_code : ℤ
  pub effects : List AssetAmount

pub data DeliveryEvidence : Type 0 where
  prepared : DeliveryEvidence
  attempt_started : ℕ → Bytes → DeliveryEvidence
  may_have_broadcast : ℕ → Bytes → DeliveryEvidence
  node_response_observed : ℕ → Bytes → Bytes → NodeResponseKind → DeliveryEvidence
  endpoint_reported_success : EndpointTransactionEvidence → DeliveryEvidence
  endpoint_reported_failed_on_chain : EndpointTransactionEvidence → DeliveryEvidence
  verified_terminal : TerminalOutcome → Bytes → DeliveryEvidence
  not_broadcast : Bytes → Bytes → DeliveryEvidence

unfoldable pub tag : DeliveryEvidence → EvidenceTag
tag prepared = EvidenceTag.prepared
tag (attempt_started _ _) = EvidenceTag.attempt_started
tag (may_have_broadcast _ _) = EvidenceTag.may_have_broadcast
tag (node_response_observed _ _ _ _) = EvidenceTag.node_response_observed
tag (endpoint_reported_success _) = EvidenceTag.endpoint_reported_success
tag (endpoint_reported_failed_on_chain _) = EvidenceTag.endpoint_reported_failed_on_chain
tag (verified_terminal success _) = EvidenceTag.verified_terminal_success
tag (verified_terminal failed_on_chain _) = EvidenceTag.verified_terminal_failed_on_chain
tag (not_broadcast _ _) = EvidenceTag.not_broadcast

is_err {ℓ} : {A : Type ℓ} → Journaled A → Bool
is_err (err _) = true
is_err _ = false

unfoldable pub validate_endpoint_tx : EndpointTransactionEvidence → Journaled (Unit {0})
unfolding validate_identity is_err parse_canonical_address
validate_endpoint_tx tx =
    reject_if
      (not (validate_identity tx.source_endpoint)
        || not (validate_identity tx.request_id)
        || is_err (parse_canonical_address tx.sender_address))
      (invalid_delivery "endpoint transaction provenance is noncanonical")

abbrev payload_error : JournalError
payload_error = invalid_delivery "payload is empty, inconsistent, or out of range"

-- `DeliveryEvidence::validate`
unfoldable pub validate_evidence : DeliveryEvidence → Journaled (Unit {0})
unfolding validate_identity validate_endpoint_tx
validate_evidence prepared = ok tt
validate_evidence (attempt_started attempt_no route_id) =
    if ltb 0 attempt_no && validate_identity route_id then ok tt else err payload_error
validate_evidence (may_have_broadcast attempt_no route_id) =
    if ltb 0 attempt_no && validate_identity route_id then ok tt else err payload_error
validate_evidence (node_response_observed attempt_no route_id request_id _) =
    if ltb 0 attempt_no && validate_identity route_id && validate_identity request_id
    then ok tt
    else err payload_error
validate_evidence (endpoint_reported_success tx) =
    if tx.succeeded then validate_endpoint_tx tx else err payload_error
validate_evidence (endpoint_reported_failed_on_chain tx) =
    if not tx.succeeded then validate_endpoint_tx tx else err payload_error
validate_evidence (verified_terminal _ proof_ref) =
    if validate_identity proof_ref then ok tt else err payload_error
validate_evidence (not_broadcast route_id detail) =
    if validate_identity route_id && validate_identity detail then ok tt else err payload_error

unfoldable pub is_prepared : DeliveryEvidence → Bool
is_prepared prepared = true
is_prepared _ = false

unfoldable pub is_terminal : DeliveryEvidence → Bool
is_terminal (verified_terminal _ _) = true
is_terminal (not_broadcast _ _) = true
is_terminal _ = false

-- What may follow an attempt: `previous.checked_add(1) == Some(next)` in `u32`.
next_attempt : ℕ → ℕ → Bool
next_attempt previous next = ltb (previous + 1) (2 ^ 32) && previous + 1 == next

after_attempt : ℕ → DeliveryEvidence → Bool
unfolding next_attempt
after_attempt previous (attempt_started next _) = next_attempt previous next
after_attempt previous (may_have_broadcast next _) = previous == next
after_attempt previous (node_response_observed next _ _ _) = previous == next
after_attempt previous (not_broadcast _ _) = true
after_attempt previous (endpoint_reported_success _) = true
after_attempt previous (endpoint_reported_failed_on_chain _) = true
after_attempt previous (verified_terminal _ _) = true
after_attempt previous prepared = false

after_prepared : DeliveryEvidence → Bool
after_prepared (attempt_started next _) = next == 1
after_prepared (not_broadcast _ _) = true
after_prepared _ = false

after_broadcast : DeliveryEvidence → Bool
after_broadcast (endpoint_reported_success _) = true
after_broadcast (endpoint_reported_failed_on_chain _) = true
after_broadcast (verified_terminal _ _) = true
after_broadcast _ = false

after_report : DeliveryEvidence → Bool
after_report (verified_terminal _ _) = true
after_report _ = false

unfoldable pub valid_delivery_transition : DeliveryEvidence → DeliveryEvidence → Bool
unfolding after_prepared after_attempt after_broadcast after_report
valid_delivery_transition prepared next = after_prepared next
valid_delivery_transition (attempt_started previous _) next = after_attempt previous next
valid_delivery_transition (may_have_broadcast _ _) next = after_broadcast next
valid_delivery_transition (node_response_observed _ _ _ _) next = after_broadcast next
valid_delivery_transition (endpoint_reported_success _) next = after_report next
valid_delivery_transition (endpoint_reported_failed_on_chain _) next = after_report next
valid_delivery_transition (verified_terminal _ _) next = false
valid_delivery_transition (not_broadcast _ _) next = false

pub record DeliveryEvent : Type 0 where
  pub journal_seq : ℕ
  pub evidence : DeliveryEvidence

-- `DeliveryEvent::new`
unfoldable pub new_delivery_event : ℕ → DeliveryEvidence → Journaled DeliveryEvent
unfolding validate_evidence
new_delivery_event journal_seq evidence = do
  reject_if (journal_seq == 0) sequence_zero
  validate_evidence evidence
  ok (record { journal_seq = journal_seq; evidence = evidence })
