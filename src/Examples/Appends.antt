-- ===== src/Examples/Appends.antt =====
-- The theorems on appends and on the evaluation at concrete inputs.
use cc_wallet_gui.Prelude.{
  ◌+◌, List, [], ◌∷◌, ◌++◌, ◌≡◌, ◌↔◌, refl, arith, ok, ◌≤◌, ◌⊎◌, map, Distinct,
}
use cc_wallet_gui.External.Instances.{reference_big, reference_sha}
use cc_wallet_gui.Amount.{AssetAmount, native_amount, cc_amount, asset_id}
use cc_wallet_gui.Digest.{
  Reservation, transfer, native_fee, ticket_digest, blocker_set_digest, reservation_set_digest,
  overlap_set_digest,
}
use cc_wallet_gui.Affordability.{AffordabilityReport}
use cc_wallet_gui.Affordability.Evaluate.{evaluate_affordability}
use cc_wallet_gui.Affordability.Returns.{WellFormed, evaluate_affordability_returns}
use cc_wallet_gui.Journal.Ticket.{digest_of_ticket}
use cc_wallet_gui.Journal.Evidence.{prepared, DeliveryEvent}
use cc_wallet_gui.Journal.Record.{SendRecord}
use cc_wallet_gui.Journal.Risk.{granted, RiskEvent}
use cc_wallet_gui.Journal.Blockers.{id_lt}
use cc_wallet_gui.Journal.Replay.{delivery, risk, seq, validate_replay}
use cc_wallet_gui.Envelope.{
  JournalEnvelope, empty, validate, append_prepared, prepared_candidate, append_risk_grant,
  grant_candidate,
}
use cc_wallet_gui.Envelope.Sequence.{count_events}
use cc_wallet_gui.Envelope.History.{history, append_prepared-history, append_risk_grant-history}
use cc_wallet_gui.Journal.Provenance.{
  local_send_fee_ceiling_nanos, local_send_fee_headroom_nanos, new_provenance,
}
use cc_wallet_gui.Journal.Fees.{new_provenance-bounds}
use cc_wallet_gui.Examples.Fixtures.{
  id_of, provenance, prepared_of, event_at, record_of, first, grant_2, grant_event,
}

abbrev one_record : JournalEnvelope
one_record = record { records = record_of 1 (event_at 1 prepared ∷ []) ∷ []; risk_events = [] }

append_prepared_once : append_prepared (prepared_of 1) empty ≡ (one_record, ok tt)
unfolding append_prepared prepared_candidate validate validate_replay evaluate_affordability
    blocker_set_digest reservation_set_digest digest_of_ticket ticket_digest overlap_set_digest
    id_lt
append_prepared_once = refl

append_prepared-history_example :
    (r : SendRecord) × (event : DeliveryEvent) × (event.evidence ≡ prepared)
    × (r.ticket ≡ (prepared_of 1).ticket)
    × (r.reservations ≡ (prepared_of 1).reservations)
    × (history one_record ≡ history empty ++ delivery r event ∷ [])
    × (seq (delivery r event) ≡ count_events empty + 1)
append_prepared-history_example =
    append_prepared-history (prepared_of 1) empty one_record append_prepared_once

abbrev sent_once : JournalEnvelope
sent_once = record { records = first ∷ []; risk_events = [] }

abbrev granted_once : JournalEnvelope
granted_once = record { records = first ∷ []; risk_events = grant_event ∷ [] }

append_risk_grant_once : append_risk_grant grant_2 sent_once ≡ (granted_once, ok tt)
unfolding append_risk_grant grant_candidate validate validate_replay evaluate_affordability
    blocker_set_digest reservation_set_digest digest_of_ticket ticket_digest overlap_set_digest
    id_lt
append_risk_grant_once = refl

append_risk_grant-history_example :
    (event : RiskEvent) × (event.action ≡ granted grant_2)
    × (history granted_once ≡ history sent_once ++ risk event ∷ [])
    × (event.journal_seq ≡ count_events sent_once + 1)
append_risk_grant-history_example =
    append_risk_grant-history grant_2 sent_once granted_once append_risk_grant_once

abbrev two_balances : List AssetAmount
two_balances = native_amount 100 ∷ cc_amount 1 7 ∷ []

abbrev two_rows : List Reservation
two_rows =
    record { record_id = id_of 1; amount = native_amount 15; kind = transfer }
    ∷ record { record_id = id_of 1; amount = native_amount 15; kind = native_fee }
    ∷ []

abbrev native_5 : List AssetAmount
native_5 = native_amount 5 ∷ []

evaluate_affordability_returns_example :
    ((report : AffordabilityReport) × (evaluate_affordability two_balances two_rows [] native_5
        ≡ ok report))
    ↔ WellFormed two_balances two_rows [] native_5
evaluate_affordability_returns_example =
    evaluate_affordability_returns two_balances two_rows [] native_5 (ground arith) (ground arith)
      (ground arith)

new_provenance-bounds_example :
    (provenance ≡ provenance)
    × (10 ≤ 10)
    × (10 ≤ local_send_fee_ceiling_nanos)
    × ((10 ≡ local_send_fee_ceiling_nanos) ⊎ (10 ≤ 10 + local_send_fee_headroom_nanos))
    × Distinct (map asset_id provenance.balances)
new_provenance-bounds_example =
    new_provenance-bounds provenance provenance
      (unfold new_provenance in unfold overlap_set_digest in refl)
