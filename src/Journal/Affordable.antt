-- ===== src/Journal/Affordable.antt =====
-- journal.rs, `validate_replay`: a Prepared event is affordable beside the unresolved sends.
use cc_wallet_gui.Prelude.{
  subst, List, [], ◌∷◌, ◌++◌, map, All, true, not, ◌&&◌, ◌≡◌, refl, arith, inl, inr, ok,
  map_err-eq-ok, if◌then◌else◌, reject_if, >>=-eq-ok, reject_if-eq-ok, Bool-cases,
}
use cc_wallet_gui.External.{BigUint, Sha256}
use cc_wallet_gui.Ids.{RecordId}
use cc_wallet_gui.BTreeMap.{get}
use cc_wallet_gui.Amount.Arithmetic.{InDomain}
use cc_wallet_gui.Digest.{is_blocking, Reservation}
use cc_wallet_gui.Affordability.Spec.{Fits, RowsInDomain}
use cc_wallet_gui.Affordability.Theorems.{is_affordable-evaluate}
use cc_wallet_gui.Journal.Errors.{consumption_not_adjacent}
use cc_wallet_gui.Journal.Evidence.{is_prepared, DeliveryEvent}
use cc_wallet_gui.Journal.Record.{SendRecord}
use cc_wallet_gui.Journal.Risk.{RiskEvent}
use cc_wallet_gui.Journal.Blockers.{id_key, same_signing_scope, Tracked}
use cc_wallet_gui.Journal.Replay.{
  ReplayItem, delivery, initial, is_some, replay_step, is_prepared_item, check_affordable,
  blocking_in_scope, all_reservations, sort_items, stream_of, validate_replay,
}
use cc_wallet_gui.Journal.History.{latest, only_blocking}
use cc_wallet_gui.Journal.Inversion.{replay_prepared-ok, item-prepared}
use cc_wallet_gui.Journal.Signing.{accepted-Meets}
use cc_wallet_gui.Journal.Domain.{
  ItemInDomain, TrackedInDomain, all_reservations-InDomain, replay_all-InDomain,
}

-- The rows that the unresolved sends of a record's signing scope reserve.
abbrev pub held_by_scope : SendRecord → Tracked → List Reservation
held_by_scope r [] = []
held_by_scope r ((_, (prior, t)) ∷ m) =
    let rest = held_by_scope r m in
    if same_signing_scope prior r && is_blocking t then prior.reservations ++ rest else rest

all_reservations-held_by_scope :
    (r : SendRecord) (m : Tracked) → all_reservations (blocking_in_scope r m) ≡ held_by_scope r m
unfolding all_reservations blocking_in_scope
all_reservations-held_by_scope r [] = refl
all_reservations-held_by_scope r ((j, (p, t)) ∷ m) =
    elim (Bool-cases (same_signing_scope p r && is_blocking t)) [
      | inl e ↦ rw (e, all_reservations-held_by_scope r m) refl
      | inr e ↦ rw (e, all_reservations-held_by_scope r m) refl
    ]

module _ ⦃big : BigUint⦄ ⦃sha : Sha256⦄ where
  -- The sends that the items before leave unresolved, and that the record fits beside those of its
  -- scope.
  pub record FitsAfter (past : List ReplayItem) (r : SendRecord) : Type 0 where
    pub blocking : Tracked
    pub unresolved : (id : RecordId) → get id blocking ≡ only_blocking (latest id past)
    pub fits :
        Fits r.prepare_provenance.balances
          (held_by_scope r blocking)
          r.prepare_provenance.authorized_overlap
          (map (λ (row : Reservation). row.amount) r.reservations)

  requested-InDomain :
      (rows : List Reservation)
      → RowsInDomain rows
      → All InDomain (map (λ (row : Reservation). row.amount) rows)
  requested-InDomain [] h = tt
  requested-InDomain (row ∷ rows) (h, hs) = (h, requested-InDomain rows hs)

  check_affordable-Fits :
      (r : SendRecord) (blocking : Tracked)
      → All InDomain r.prepare_provenance.balances
      → RowsInDomain r.reservations
      → TrackedInDomain blocking
      → check_affordable r blocking ≡ ok tt
      → Fits r.prepare_provenance.balances
          (held_by_scope r blocking)
          r.prepare_provenance.authorized_overlap
          (map (λ (row : Reservation). row.amount) r.reservations)
  unfolding check_affordable
  check_affordable-Fits r blocking hb hr hm h =
      let (report, returned, tested) = >>=-eq-ok _ _ h in
      let fits =
        (is_affordable-evaluate r.prepare_provenance.balances
            (all_reservations (blocking_in_scope r blocking))
            r.prepare_provenance.authorized_overlap
            (map (λ (row : Reservation). row.amount) r.reservations) report hb
            (all_reservations-InDomain r blocking hm) (requested-InDomain r.reservations hr)
            (map_err-eq-ok _ _ returned)).0
          (ground (arith, reject_if-eq-ok _ _ tested)) in
      subst
        (λ (rows : List Reservation).
          Fits r.prepare_provenance.balances rows r.prepare_provenance.authorized_overlap
            (map (λ (row : Reservation). row.amount) r.reservations))
        (all_reservations-held_by_scope r blocking) fits

  -- In a journal that `validate_replay` accepts, with its events in the order of their sequence
  -- numbers and the amounts in the domain: a Prepared event's record fits, in every asset, beside
  -- the reservations of the sends of its signing scope that the events before leave unresolved
  -- (less those rows that its overlap excuses), in the balances that it was prepared against.
  pub prepared-FitsAfter :
      (records : List SendRecord) (risk_events : List RiskEvent) (past rest : List ReplayItem)
      (r : SendRecord) (event : DeliveryEvent)
      → validate_replay records risk_events ≡ ok tt
      → sort_items (stream_of records risk_events) ≡ past ++ delivery r event ∷ rest
      → is_prepared event.evidence ≡ true
      → All ItemInDomain past
      → RowsInDomain r.reservations
      → All InDomain r.prepare_provenance.balances
      → FitsAfter past r
  unfolding replay_step
  prepared-FitsAfter records risk_events past rest r event h at_item q hp hr hb =
      let m = accepted-Meets records risk_events past (delivery r event) rest h at_item in
      let (u, adjacent, go) =
        >>=-eq-ok
          (reject_if (is_some m.before.pending && not (is_prepared_item (delivery r event)))
            consumption_not_adjacent)
          _ m.steps in
      let (after, authority, affordable) =
        replay_prepared-ok r m.before m.after (item-prepared r event m.before m.after q go) in
      record {
        blocking = m.before.blocking;
        unresolved = m.remembers.unresolved;
        fits =
            check_affordable-Fits r m.before.blocking hb hr
              (replay_all-InDomain past initial m.before hp tt m.reached) affordable;
      }
