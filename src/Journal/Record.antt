-- ===== src/Journal/Record.antt =====
-- journal.rs: a prepared send, its reservations, and the static validation of its record.
use cc_wallet_gui.Prelude.{
  ℕ, ◌+◌, List, [], ◌∷◌, Option, none, some, Bool, true, false, not, ◌&&◌, ◌||◌, if◌then◌else◌, leb,
  ◌==◌, any, length, Bytes, bytes_eq, ok, ◌>>=◌, ◌>>◌, reject_if, int_eq, map_err,
}
use cc_wallet_gui.External.{BigUint}
use cc_wallet_gui.Asset.{AssetId, native, currency_collection}
use cc_wallet_gui.Amount.{
  AssetAmount, asset_id, make_native, is_zero, amount_eq, checked_add_same_asset,
}
use cc_wallet_gui.Ids.{Digest32}
use cc_wallet_gui.Digest.{Reservation, ReservationKind, transfer, native_fee, kind_eq}
use cc_wallet_gui.Affordability.{asset_key}
use cc_wallet_gui.Journal.Errors.{
  JournalError, invalid_provenance, invalid_reservation, invalid_delivery, sequence_gap, Journaled,
}
use cc_wallet_gui.Journal.Ticket.{SendTicket}
use cc_wallet_gui.Journal.Provenance.{PrepareProvenance}
use cc_wallet_gui.Journal.Evidence.{
  DeliveryEvidence, attempt_started, may_have_broadcast, node_response_observed,
  endpoint_reported_success, endpoint_reported_failed_on_chain, not_broadcast, validate_evidence,
  is_prepared, is_terminal, valid_delivery_transition, DeliveryEvent, EndpointTransactionEvidence,
}

pub record PreparedRecord : Type 0 where
  pub ticket : SendTicket
  pub prepare_provenance : PrepareProvenance
  pub ext_msg_hash : Digest32
  pub expire_at : ℕ
  pub reservations : List Reservation

pub record SendRecord : Type 0 where
  pub ticket : SendTicket
  pub prepare_provenance : PrepareProvenance
  pub ext_msg_hash : Digest32
  pub expire_at : ℕ
  pub reservations : List Reservation
  pub delivery_events : List DeliveryEvent

-- `filter(…).count()`
unfoldable pub count_rows : (Reservation → Bool) → List Reservation → ℕ
count_rows p [] = 0
count_rows p (row ∷ rows) = (if p row then 1 else 0) + count_rows p rows

-- `reservations.len() != 1 || kind != Transfer || amount != total`
is_only_row : AssetAmount → List Reservation → Bool
unfolding kind_eq amount_eq
is_only_row amount (row ∷ []) = kind_eq row.kind transfer && amount_eq row.amount amount
is_only_row amount _ = false

is_row : ReservationKind → AssetAmount → Reservation → Bool
unfolding kind_eq amount_eq
is_row kind amount row = kind_eq row.kind kind && amount_eq row.amount amount

module _ ⦃big : BigUint⦄ where
  -- The arms of `validate_reservations` by the asset that is sent.
  unfoldable pub check_rows : AssetId → AssetAmount → ℕ → List Reservation → Journaled (Unit {0})
  unfolding make_native checked_add_same_asset is_only_row is_row count_rows
  check_rows native value fee_units rows = do
    fee ← map_err (λ _. invalid_reservation "native fee is out of domain") (make_native fee_units)
    total ←
        map_err (λ _. invalid_reservation "native transfer plus fee overflows")
          (checked_add_same_asset value fee)
    reject_if (not (is_only_row total rows))
        (invalid_reservation "native send requires one exact transfer-plus-fee reservation")
  check_rows (currency_collection _) value fee_units rows = do
    fee ← map_err (λ _. invalid_reservation "native fee is out of domain") (make_native fee_units)
    reject_if
        (not (length rows == 2)
          || not (count_rows (is_row transfer value) rows == 1)
          || not (count_rows (is_row native_fee fee) rows == 1))
        (invalid_reservation
          "CC send requires exact CC transfer and separate native-fee reservations")

  unfoldable pub validate_reservations : SendTicket → ℕ → List Reservation → Journaled (Unit {0})
  unfolding bytes_eq is_zero asset_id check_rows
  validate_reservations ticket fee_units rows = do
    reject_if
        (any
          (λ (row : Reservation).
            not (bytes_eq row.record_id ticket.record_id) || is_zero row.amount)
          rows)
        (invalid_reservation "row id differs from the ticket or amount is zero")
    check_rows (asset_id ticket.request.value) ticket.request.value fee_units rows

  unfoldable pub check_prepared_shape :
      SendTicket → PrepareProvenance → List Reservation → Journaled (Unit {0})
  unfolding bytes_eq int_eq validate_reservations
  check_prepared_shape ticket provenance rows = do
    reject_if
        (not (bytes_eq provenance.source_endpoint ticket.endpoint_identity)
          || not (int_eq provenance.signature_global_id ticket.network_global_id))
        (invalid_provenance "prepare source/global id does not match the immutable ticket")
    validate_reservations ticket provenance.local_fee_ceiling_native rows

  -- `PreparedRecord::new`
  unfoldable pub new_prepared : PreparedRecord → Journaled PreparedRecord
  unfolding check_prepared_shape
  new_prepared p = do check_prepared_shape p.ticket p.prepare_provenance p.reservations; ok p

-- `delivery_events.last()`, which every validated record has
unfoldable pub latest_evidence : List DeliveryEvent → Option DeliveryEvidence
latest_evidence [] = none
latest_evidence (e ∷ []) = some e.evidence
latest_evidence (_ ∷ e ∷ events) = latest_evidence (e ∷ events)

-- Exactly one Prepared event, and it is the first.
unfoldable pub starts_prepared : List DeliveryEvent → Bool
unfolding is_prepared
starts_prepared [] = false
starts_prepared (e ∷ events) =
    is_prepared e.evidence && not (any (λ (f : DeliveryEvent). is_prepared f.evidence) events)

-- An event's route or transaction against the record's frozen route, ticket and message.
route_differs : SendRecord → Bytes → Bool
unfolding bytes_eq
route_differs r route_id = not (bytes_eq route_id r.prepare_provenance.route_id)

tx_differs : SendRecord → EndpointTransactionEvidence → Bool
unfolding bytes_eq
tx_differs r tx =
    not (bytes_eq tx.source_endpoint r.ticket.endpoint_identity)
    || not (bytes_eq tx.sender_address r.ticket.sender_address)
    || not (bytes_eq tx.ext_msg_hash r.ext_msg_hash)

abbrev route_error : JournalError
route_error = invalid_delivery "delivery route differs from the frozen prepare route"

abbrev tx_error : JournalError
tx_error = invalid_delivery "endpoint transaction does not match the immutable ticket/message"

unfoldable pub check_binding : SendRecord → DeliveryEvidence → Journaled (Unit {0})
unfolding route_differs tx_differs
check_binding r (attempt_started _ route_id) = reject_if (route_differs r route_id) route_error
check_binding r (may_have_broadcast _ route_id) = reject_if (route_differs r route_id) route_error
check_binding r (node_response_observed _ route_id _ _) =
    reject_if (route_differs r route_id) route_error
check_binding r (not_broadcast route_id _) = reject_if (route_differs r route_id) route_error
check_binding r (endpoint_reported_success tx) = reject_if (tx_differs r tx) tx_error
check_binding r (endpoint_reported_failed_on_chain tx) = reject_if (tx_differs r tx) tx_error
check_binding r _ = ok tt

unfoldable pub may_follow : Option DeliveryEvidence → DeliveryEvidence → Bool
unfolding valid_delivery_transition
may_follow none next = true
may_follow (some previous) next = valid_delivery_transition previous next

-- The loop of `validate_static`, over `prior`, `terminal` and `previous_evidence`.
unfoldable pub check_events :
    SendRecord → ℕ → Bool → Option DeliveryEvidence → List DeliveryEvent → Journaled (Unit {0})
unfolding validate_evidence may_follow check_binding is_terminal
check_events r prior terminal previous [] = ok tt
check_events r prior terminal previous (event ∷ events) = do
  validate_evidence event.evidence
  reject_if (not (may_follow previous event.evidence))
      (invalid_delivery "delivery evidence transition is not monotone or attempt-bound")
  check_binding r event.evidence
  reject_if (leb event.journal_seq prior) sequence_gap
  reject_if terminal (invalid_delivery "no event may follow durable terminal evidence")
  check_events r event.journal_seq (is_terminal event.evidence) (some event.evidence) events

module _ ⦃big : BigUint⦄ where
  unfoldable pub validate_static : SendRecord → Journaled (Unit {0})
  unfolding starts_prepared check_prepared_shape check_events
  validate_static r = do
    reject_if (not (starts_prepared r.delivery_events))
        (invalid_delivery "each record requires exactly one first Prepared event")
    check_prepared_shape r.ticket r.prepare_provenance r.reservations
    check_events r 0 false none r.delivery_events
