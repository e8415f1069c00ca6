-- ===== src/Examples/Fixtures.antt =====
-- Test data: a journal with one send that was perhaps broadcast and a second send that a risk grant
-- allows beside it.
use cc_wallet_gui.Prelude.{ℕ, ◌+◌, List, [], ◌∷◌, ◌++◌, none, false, ◌≡◌, refl, Bytes, ok, err, pos}
use cc_wallet_gui.Digest.{blocker_set_digest, reservation_set_digest, overlap_set_digest}
use cc_wallet_gui.Affordability.Evaluate.{evaluate_affordability}
use cc_wallet_gui.Journal.Errors.{duplicate_record}
use cc_wallet_gui.Journal.Ticket.{SendTicket, digest_of_ticket}
use cc_wallet_gui.Journal.Provenance.{PrepareProvenance}
use cc_wallet_gui.Journal.Evidence.{DeliveryEvidence, prepared, DeliveryEvent}
use cc_wallet_gui.Journal.Record.{PreparedRecord, SendRecord}
use cc_wallet_gui.Journal.Risk.{RiskGrant, RiskGrantConsumption, granted, consumed, RiskEvent}
use cc_wallet_gui.Journal.Replay.{validate_replay}
use cc_wallet_gui.Prelude.{replicate, codes}
use cc_wallet_gui.External.Instances.{reference_big, reference_sha}
use cc_wallet_gui.Amount.{native_amount}
use cc_wallet_gui.Journal.Blockers.{id_lt}
use cc_wallet_gui.Digest.{transfer, ticket_digest, overlap_set_digest}
use cc_wallet_gui.Journal.Evidence.{attempt_started, may_have_broadcast}
use cc_wallet_gui.Journal.Risk.{risk_warning_version}
use cc_wallet_gui.Journal.Replay.{ReplayItem, delivery, risk, stream_of, sort_items}
use cc_wallet_gui.Journal.Replay.{validate_replay}
use cc_wallet_gui.Envelope.{JournalEnvelope, validate, append_prepared, prepared_candidate}
use cc_wallet_gui.Envelope.Theorems.{prepare, run}

abbrev pub id_of : ℕ → Bytes
id_of n = replicate 32 n

abbrev pub address : Bytes
address = codes "0:" ++ replicate 64 0x30

abbrev pub endpoint : Bytes
endpoint = codes "endpoint"

abbrev pub route : Bytes
route = codes "route"

abbrev pub ticket_of : ℕ → SendTicket
ticket_of n = record {
  record_id = id_of n;
  sender_wallet_id = codes "wallet";
  sender_address = address;
  network_global_id = pos 2000;
  endpoint_identity = endpoint;
  request = record {
    destination = address;
    value = native_amount 5;
    comment = [];
    encrypt_to = none;
  };
  bounce = false;
  auth_generation = 1;
  auth_nonce = n;
}

abbrev pub provenance : PrepareProvenance
provenance = record {
  source_endpoint = endpoint;
  route_id = route;
  request_ids = codes "request" ∷ [];
  observed_at_mono_ms = 1;
  account_state_hash = id_of 0;
  state_init_required = false;
  balances = native_amount 100 ∷ [];
  signature_context_hash = id_of 0;
  signature_global_id = pos 2000;
  signature_with_id = false;
  network_time = none;
  fee_input_hash = id_of 0;
  estimated_fee_native = 10;
  local_fee_ceiling_native = 10;
  authorized_overlap = [];
}

abbrev pub prepared_of : ℕ → PreparedRecord
prepared_of n = record {
  ticket = ticket_of n;
  prepare_provenance = provenance;
  ext_msg_hash = id_of (10 + n);
  expire_at = 1000;
  reservations = record { record_id = id_of n; amount = native_amount 15; kind = transfer } ∷ [];
}

abbrev pub event_at : ℕ → DeliveryEvidence → DeliveryEvent
event_at n e = record { journal_seq = n; evidence = e }

abbrev pub record_of : ℕ → List DeliveryEvent → SendRecord
record_of n events =
    let p = prepared_of n in
    record {
      ticket = p.ticket;
      prepare_provenance = p.prepare_provenance;
      ext_msg_hash = p.ext_msg_hash;
      expire_at = p.expire_at;
      reservations = p.reservations;
      delivery_events = events;
    }

abbrev pub first_events : List DeliveryEvent
first_events =
    event_at 1 prepared
    ∷ event_at 2 (attempt_started 1 route)
    ∷ event_at 3 (may_have_broadcast 1 route)
    ∷ []

abbrev pub first : SendRecord
first = record_of 1 first_events

abbrev pub second : SendRecord
second = record_of 2 (event_at 6 prepared ∷ [])

-- The hash of `External.Instances` keeps the first 32 bytes.
abbrev pub consumption_2 : RiskGrantConsumption
consumption_2 = record {
  one_use_nonce = id_of 7;
  new_record_id = id_of 2;
  new_ticket_digest = codes "cc-wallet/journal-v1/ticket" ++ 0 ∷ 0 ∷ 1 ∷ 0 ∷ 0 ∷ [];
}

abbrev pub grant_2 : RiskGrant
grant_2 = record {
  old_blocker_set_digest = codes "cc-wallet/journal-v1/blocker-set";
  old_reservation_set_digest = codes "cc-wallet/journal-v1/reservation";
  new_ticket_digest = consumption_2.new_ticket_digest;
  new_record_id = id_of 2;
  one_use_nonce = id_of 7;
  warning_version = risk_warning_version;
  overlap_reservation_set_digest = codes "cc-wallet/journal-v1/overlap-set";
}

abbrev pub grant_event : RiskEvent
grant_event = record { journal_seq = 4; action = granted grant_2 }

abbrev pub consumption_event : RiskEvent
consumption_event = record { journal_seq = 5; action = consumed consumption_2 }

abbrev pub journal : JournalEnvelope
journal = record {
  records = first ∷ second ∷ [];
  risk_events = grant_event ∷ consumption_event ∷ [];
}

pub journal-validate : validate journal ≡ ok tt
unfolding validate evaluate_affordability blocker_set_digest reservation_set_digest digest_of_ticket
    ticket_digest overlap_set_digest
journal-validate = refl

pub journal-replayed : validate_replay journal.records journal.risk_events ≡ ok tt
unfolding validate
journal-replayed = journal-validate

-- A second record with the id of the first is refused.
pub journal-refuses : (run (prepare (prepared_of 1)) journal).1 ≡ err duplicate_record
unfolding run append_prepared prepared_candidate validate validate_replay evaluate_affordability
    blocker_set_digest reservation_set_digest digest_of_ticket ticket_digest overlap_set_digest
    id_lt
journal-refuses = refl

-- The items before the consumption.
abbrev pub past_items : List ReplayItem
past_items =
    delivery first (event_at 1 prepared)
    ∷ delivery first (event_at 2 (attempt_started 1 route))
    ∷ delivery first (event_at 3 (may_have_broadcast 1 route))
    ∷ risk grant_event
    ∷ []

pub journal-stream :
    sort_items (stream_of journal.records journal.risk_events)
    ≡ past_items ++ risk consumption_event ∷ delivery second (event_at 6 prepared) ∷ []
unfolding sort_items stream_of
journal-stream = refl
