-- ===== src/Journal/Replay.antt =====
-- journal.rs: `validate_replay`, which checks the records one by one and then replays their events
-- and the risk events in the order of their sequence numbers.
use cc_wallet_gui.Prelude.{
  ℕ, ◌+◌, ◌^◌, List, [], ◌∷◌, ◌++◌, Option, none, some, Bool, true, false, not, ◌&&◌, if◌then◌else◌,
  leb, ◌==◌, length, bytes_eq, ok, ◌>>=◌, ◌>>◌, reject_if, ok_or, map_err, map,
}
use cc_wallet_gui.External.{BigUint, Sha256}
use cc_wallet_gui.Ids.{RecordId, RiskNonce}
use cc_wallet_gui.Digest.{EvidenceTag, is_blocking, Reservation}
use cc_wallet_gui.BTreeMap.{Map, get, insert, remove, contains_key, insert_key, has_key}
use cc_wallet_gui.Affordability.{is_affordable}
use cc_wallet_gui.Affordability.Evaluate.{evaluate_affordability}
use cc_wallet_gui.Journal.Errors.{
  invalid_reservation, invalid_delivery, duplicate_record, sequence_zero, sequence_gap,
  sequence_overflow, orphan_consumption, unsupported_warning_version, consumption_mismatch,
  consumption_not_adjacent, duplicate_consumption, ordinary_signing_blocked, Journaled,
}
use cc_wallet_gui.Journal.Ticket.{Scope, scope, scope_eq, digest_of_ticket}
use cc_wallet_gui.Journal.Evidence.{DeliveryEvidence, tag, is_prepared, DeliveryEvent}
use cc_wallet_gui.Journal.Record.{SendRecord, validate_static}
use cc_wallet_gui.Journal.Risk.{
  RiskGrant, RiskGrantConsumption, RiskAction, granted, consumed, RiskEvent, authorizes,
  risk_warning_version,
}
use cc_wallet_gui.Journal.Blockers.{
  id_key, Tracked, same_signing_scope, validate_grant_old_state, validate_grant_state,
}

pub data ReplayItem : Type 0 where
  delivery : SendRecord → DeliveryEvent → ReplayItem
  risk : RiskEvent → ReplayItem

unfoldable pub seq : ReplayItem → ℕ
seq (delivery _ event) = event.journal_seq
seq (risk event) = event.journal_seq

-- The items of the stream in storage order.
unfoldable pub delivery_items : List SendRecord → List ReplayItem
delivery_items [] = []
delivery_items (r ∷ records) = map (delivery r) r.delivery_events ++ delivery_items records

unfoldable pub stream_of : List SendRecord → List RiskEvent → List ReplayItem
unfolding delivery_items
stream_of records risk_events = delivery_items records ++ map risk risk_events

-- `sort_by_key(ReplayItem::seq)`, which is stable
unfoldable pub insert_item : ReplayItem → List ReplayItem → List ReplayItem
unfolding seq
insert_item x [] = x ∷ []
insert_item x (y ∷ ys) = if leb (seq x) (seq y) then x ∷ y ∷ ys else y ∷ insert_item x ys

unfoldable pub sort_items : List ReplayItem → List ReplayItem
unfolding insert_item
sort_items [] = []
sort_items (x ∷ xs) = insert_item x (sort_items xs)

-- The loop over the indices; `index.checked_add(1)` in `u64`.
unfoldable pub check_sequence : ℕ → List ReplayItem → Journaled (Unit {0})
unfolding seq
check_sequence index [] = ok tt
check_sequence index (item ∷ items) = do
  reject_if (leb (2 ^ 64) (index + 1)) sequence_overflow
  reject_if (seq item == 0) sequence_zero
  reject_if (not (seq item == index + 1)) sequence_gap
  check_sequence (index + 1) items

scope_differs : Option Scope → SendRecord → Bool
unfolding scope_eq
scope_differs none r = false
scope_differs (some s) r = not (scope_eq (scope r.ticket) s)

unfoldable pub first_scope : List SendRecord → Option Scope
first_scope [] = none
first_scope (r ∷ _) = some (scope r.ticket)

module _ ⦃big : BigUint⦄ where
  unfoldable pub check_records :
      Option Scope → List RecordId → List SendRecord → Journaled (Unit {0})
  unfolding validate_static scope_differs has_key insert_key
  check_records identity ids [] = ok tt
  check_records identity ids (r ∷ records) = do
    validate_static r
    reject_if (scope_differs identity r)
        (invalid_delivery "one encrypted Journal cannot mix wallet, sender, or network identities")
    reject_if (has_key r.ticket.record_id ids) duplicate_record
    check_records identity (insert_key r.ticket.record_id ids) records

pub record ReplayState : Type 0 where
  pub active : Tracked
  pub blocking : Tracked
  pub grants : Map RiskNonce RiskGrant
  pub consumed_nonces : List RiskNonce
  pub pending : Option (RiskGrant × RiskGrantConsumption)

abbrev pub initial : ReplayState
initial = record { active = []; blocking = []; grants = []; consumed_nonces = []; pending = none }

unfoldable pub is_prepared_item : ReplayItem → Bool
unfolding is_prepared
is_prepared_item (delivery _ event) = is_prepared event.evidence
is_prepared_item (risk _) = false

unfoldable pub is_some {ℓ} : {A : Type ℓ} → Option A → Bool
is_some none = false
is_some (some _) = true

-- `blocking.values().filter(…)`: the blocking records of one scope
unfoldable pub blocking_in_scope : SendRecord → Tracked → List SendRecord
unfolding same_signing_scope is_blocking
blocking_in_scope r [] = []
blocking_in_scope r ((_, (prior, evidence)) ∷ m) =
    let rest = blocking_in_scope r m in
    if same_signing_scope prior r && is_blocking evidence then prior ∷ rest else rest

unfoldable pub all_reservations : List SendRecord → List Reservation
all_reservations [] = []
all_reservations (r ∷ records) = r.reservations ++ all_reservations records

abbrev pub track : SendRecord → EvidenceTag → Tracked → Tracked
track r t m = insert r.ticket.record_id (r, t) m

-- An event that is not Prepared.
unfoldable pub follow : SendRecord → EvidenceTag → SendRecord → ReplayState → ReplayState
unfolding insert remove is_blocking
follow r t prior s = record s {
  active = insert r.ticket.record_id (prior, t) s.active;
  blocking =
      if is_blocking t
      then insert r.ticket.record_id (r, t) s.blocking
      else remove r.ticket.record_id s.blocking;
}

module _ ⦃big : BigUint⦄ ⦃sha : Sha256⦄ where
  unfoldable pub replay_grant : RiskGrant → ReplayState → Journaled ReplayState
  unfolding validate_grant_old_state insert get is_some
  replay_grant g s = do
    reject_if (not (g.warning_version == risk_warning_version)) unsupported_warning_version
    validate_grant_old_state g s.blocking
    reject_if (is_some (get g.one_use_nonce s.grants)) duplicate_consumption
    ok (record s { grants = insert g.one_use_nonce g s.grants })

  unfoldable pub replay_consumption : RiskGrantConsumption → ReplayState → Journaled ReplayState
  unfolding get authorizes has_key insert_key
  replay_consumption c s = do
    g ← ok_or (get c.one_use_nonce s.grants) orphan_consumption
    reject_if (not (authorizes g c)) consumption_mismatch
    reject_if (has_key c.one_use_nonce s.consumed_nonces) duplicate_consumption
    ok (record s {
      consumed_nonces = insert_key c.one_use_nonce s.consumed_nonces;
      pending = some (g, c);
    })

  -- Whether the send may be signed: by the pending consumption, or with nothing blocking.
  unfoldable pub check_authority :
      Option (RiskGrant × RiskGrantConsumption) → SendRecord → Tracked → Journaled (Unit {0})
  unfolding bytes_eq validate_grant_state blocking_in_scope
  check_authority (some (g, c)) r blocking = do
    reject_if (not (bytes_eq r.ticket.record_id c.new_record_id)) consumption_mismatch
    digest ← digest_of_ticket r.ticket
    reject_if (not (bytes_eq digest c.new_ticket_digest)) consumption_mismatch
    validate_grant_state g r blocking
  check_authority none r blocking = do
    reject_if (not (length r.prepare_provenance.authorized_overlap == 0)) orphan_consumption
    reject_if (not (length (blocking_in_scope r blocking) == 0)) ordinary_signing_blocked

  unfoldable pub check_affordable : SendRecord → Tracked → Journaled (Unit {0})
  unfolding blocking_in_scope all_reservations is_affordable
  check_affordable r blocking = do
    report ←
        map_err (λ _. invalid_reservation "Prepared affordability inputs are inconsistent")
          (evaluate_affordability r.prepare_provenance.balances
            (all_reservations (blocking_in_scope r blocking))
            r.prepare_provenance.authorized_overlap
            (map (λ (row : Reservation). row.amount) r.reservations))
    reject_if (not (is_affordable report)) (
        invalid_reservation
          "Prepared is not affordable against its fresh balances and reservations")

  unfoldable pub replay_prepared : SendRecord → ReplayState → Journaled ReplayState
  unfolding contains_key check_authority check_affordable
  replay_prepared r s = do
    reject_if (contains_key r.ticket.record_id s.active) (invalid_delivery "second Prepared")
    check_authority s.pending r s.blocking
    check_affordable r s.blocking
    ok (record s {
      active = track r EvidenceTag.prepared s.active;
      blocking = track r EvidenceTag.prepared s.blocking;
      pending = none;
    })

  unfoldable pub replay_event : SendRecord → DeliveryEvidence → ReplayState → Journaled ReplayState
  unfolding get follow tag
  replay_event r evidence s = do
    state ← ok_or (get r.ticket.record_id s.active) (invalid_delivery "event precedes Prepared")
    ok (follow r (tag evidence) state.0 s)

  unfoldable pub replay_risk : RiskAction → ReplayState → Journaled ReplayState
  unfolding replay_grant replay_consumption
  replay_risk (granted g) s = replay_grant g s
  replay_risk (consumed c) s = replay_consumption c s

  unfoldable pub replay_item : ReplayItem → ReplayState → Journaled ReplayState
  unfolding is_prepared replay_prepared replay_event replay_risk
  replay_item (risk event) s = replay_risk event.action s
  replay_item (delivery r event) s =
      if is_prepared event.evidence then replay_prepared r s else replay_event r event.evidence s

  -- One round of the replay: a pending consumption must meet a Prepared event at once.
  unfoldable pub replay_step : ReplayItem → ReplayState → Journaled ReplayState
  unfolding is_some is_prepared_item replay_item
  replay_step item s = do
    reject_if (is_some s.pending && not (is_prepared_item item)) consumption_not_adjacent
    replay_item item s

  unfoldable pub replay_all : List ReplayItem → ReplayState → Journaled ReplayState
  unfolding replay_step
  replay_all [] s = ok s
  replay_all (item ∷ items) s = do s' ← replay_step item s; replay_all items s'

  -- `validate_replay`
  unfoldable pub validate_replay : List SendRecord → List RiskEvent → Journaled (Unit {0})
  unfolding first_scope check_records sort_items stream_of check_sequence replay_all is_some
  validate_replay records risk_events = do
    check_records (first_scope records) [] records
    let stream = sort_items (stream_of records risk_events)
    check_sequence 0 stream
    s ← replay_all stream initial
    reject_if (is_some s.pending) consumption_not_adjacent
