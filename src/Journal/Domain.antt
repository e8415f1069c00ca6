-- ===== src/Journal/Domain.antt =====
-- journal.rs, `validate_replay`: the amounts that the replay tracks stay in the domain.
use cc_wallet_gui.Prelude.{
  List, [], ◌∷◌, All, All-append, not, ◌&&◌, ◌≡◌, refl, sym, arith, inl, inr, ok, ok_or, reject_if,
  >>=-eq-ok, Bool-cases,
}
use cc_wallet_gui.External.{BigUint, Sha256}
use cc_wallet_gui.Ids.{RecordId}
use cc_wallet_gui.BTreeMap.{get, insert, remove}
use cc_wallet_gui.Amount.Arithmetic.{InDomain}
use cc_wallet_gui.Digest.{EvidenceTag, is_blocking, Reservation}
use cc_wallet_gui.Affordability.Spec.{RowsInDomain}
use cc_wallet_gui.Journal.Errors.{consumption_not_adjacent, invalid_delivery}
use cc_wallet_gui.Journal.Evidence.{is_prepared, tag, DeliveryEvent}
use cc_wallet_gui.Journal.Record.{SendRecord}
use cc_wallet_gui.Journal.Risk.{RiskAction, granted, consumed, RiskEvent}
use cc_wallet_gui.Journal.Blockers.{id_key, same_signing_scope, Tracked}
use cc_wallet_gui.Journal.Replay.{
  ReplayItem, delivery, risk, is_some, ReplayState, replay_item, replay_step, replay_all,
  replay_event, follow, is_prepared_item, blocking_in_scope, all_reservations,
}
use cc_wallet_gui.Journal.Inversion.{
  replay_grant-ok, replay_consumption-ok, replay_prepared-ok, item-grant, item-consumption,
  item-prepared, item-event,
}

-- The amounts that an item's record reserves are in the domain.
unfoldable pub ItemInDomain : ReplayItem → Type 0
ItemInDomain (delivery r _) = RowsInDomain r.reservations
ItemInDomain (risk _) = Unit

abbrev pub TrackedInDomain : Tracked → Type 0
TrackedInDomain =
    All (λ (e : RecordId × (SendRecord × EvidenceTag)). RowsInDomain e.1.0.reservations)

insert-InDomain :
    (id : RecordId) (r : SendRecord) (t : EvidenceTag) (m : Tracked)
    → RowsInDomain r.reservations
    → TrackedInDomain m
    → TrackedInDomain (insert id (r, t) m)
unfolding insert
insert-InDomain id r t [] h hm = (h, tt)
insert-InDomain id r t ((j, w) ∷ m) h (hw, hm) = ground (arith, insert-InDomain id r t m h hm)

remove-InDomain : (id : RecordId) (m : Tracked) → TrackedInDomain m → TrackedInDomain (remove id m)
unfolding remove
remove-InDomain id [] hm = tt
remove-InDomain id ((j, w) ∷ m) (hw, hm) = ground (arith, remove-InDomain id m hm)

follow-InDomain :
    (r prior : SendRecord) (t : EvidenceTag) (s : ReplayState)
    → RowsInDomain r.reservations
    → TrackedInDomain s.blocking
    → TrackedInDomain (follow r t prior s).blocking
unfolding follow
follow-InDomain r prior t s h hm = ground (
  arith,
  insert-InDomain r.ticket.record_id r t s.blocking h hm,
  remove-InDomain r.ticket.record_id s.blocking hm,
)

pub all_reservations-InDomain :
    (r : SendRecord) (m : Tracked)
    → TrackedInDomain m
    → RowsInDomain (all_reservations (blocking_in_scope r m))
unfolding all_reservations blocking_in_scope
all_reservations-InDomain r [] hm = tt
all_reservations-InDomain r ((j, (p, t)) ∷ m) (hp, hm) =
    elim (Bool-cases (same_signing_scope p r && is_blocking t)) [
      | inl e ↦ rw e (
          All-append (λ (row : Reservation). InDomain row.amount) p.reservations
            (all_reservations (blocking_in_scope r m)) hp (all_reservations-InDomain r m hm))
      | inr e ↦ rw e (all_reservations-InDomain r m hm)
    ]

module _ ⦃big : BigUint⦄ ⦃sha : Sha256⦄ where
  risk-InDomain :
      (event : RiskEvent) (a : RiskAction) (s s' : ReplayState)
      → event.action ≡ a
      → TrackedInDomain s.blocking
      → replay_item (risk event) s ≡ ok s'
      → TrackedInDomain s'.blocking
  risk-InDomain event (granted g) s s' e hm k =
      let (same, fresh) = replay_grant-ok g s s' (item-grant event g s s' e k) in rw same hm
  risk-InDomain event (consumed c) s s' e hm k =
      let (g, same, found, auth, unused) =
        replay_consumption-ok c s s' (item-consumption event c s s' e k) in
      rw same hm

  event-InDomain :
      (r : SendRecord) (event : DeliveryEvent) (s s' : ReplayState)
      → RowsInDomain r.reservations
      → TrackedInDomain s.blocking
      → replay_event r event.evidence s ≡ ok s'
      → TrackedInDomain s'.blocking
  unfolding replay_event
  event-InDomain r event s s' h hm k =
      let (state, found, done) =
        >>=-eq-ok
          (ok_or (get r.ticket.record_id s.active) (invalid_delivery "event precedes Prepared")) _
          k in
      let same : follow r (tag event.evidence) state.0 s ≡ s' = cc in
      rw (sym same) (follow-InDomain r state.0 (tag event.evidence) s h hm)

  step-InDomain :
      (item : ReplayItem) (s s' : ReplayState)
      → ItemInDomain item
      → TrackedInDomain s.blocking
      → replay_step item s ≡ ok s'
      → TrackedInDomain s'.blocking
  unfolding replay_step ItemInDomain
  step-InDomain (risk event) s s' h hm k =
      let (u, adjacent, k1) =
        >>=-eq-ok
          (reject_if (is_some s.pending && not (is_prepared_item (risk event)))
            consumption_not_adjacent)
          _ k in
      risk-InDomain event event.action s s' refl hm k1
  step-InDomain (delivery r event) s s' h hm k =
      let (u, adjacent, k1) =
        >>=-eq-ok
          (reject_if (is_some s.pending && not (is_prepared_item (delivery r event)))
            consumption_not_adjacent)
          _ k in
      elim (Bool-cases (is_prepared event.evidence)) [
        | inl q ↦
            let (same, authority, affordable) =
              replay_prepared-ok r s s' (item-prepared r event s s' q k1) in
            rw same (insert-InDomain r.ticket.record_id r EvidenceTag.prepared s.blocking h hm)
        | inr q ↦ event-InDomain r event s s' h hm (item-event r event s s' q k1)
      ]

  pub replay_all-InDomain :
      (items : List ReplayItem) (s s' : ReplayState)
      → All ItemInDomain items
      → TrackedInDomain s.blocking
      → replay_all items s ≡ ok s'
      → TrackedInDomain s'.blocking
  unfolding replay_all
  replay_all-InDomain [] s s' h hm k = let same : s ≡ s' = cc in rw (sym same) hm
  replay_all-InDomain (item ∷ items) s s' (h, hs) hm k =
      let (next, step, rest) = >>=-eq-ok (replay_step item s) _ k in
      replay_all-InDomain items next s' hs (step-InDomain item s next h hm step) rest
