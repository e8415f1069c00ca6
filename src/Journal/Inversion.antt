-- ===== src/Journal/Inversion.antt =====
-- What a successful round of `validate_replay` has checked and done, case by case.
use cc_wallet_gui.Prelude.{
  none, some, true, false, not, ◌&&◌, ◌≡◌, sym, ap, ◌∙◌, arith, ◌==◌, ok, ◌>>◌, reject_if, ok_or,
  >>=-eq-ok, reject_if-eq-ok, ok_or-eq-ok,
}
use cc_wallet_gui.External.{BigUint, Sha256}
use cc_wallet_gui.Digest.{EvidenceTag}
use cc_wallet_gui.BTreeMap.{get, insert, contains_key, insert_key, has_key}
use cc_wallet_gui.Journal.Errors.{
  invalid_delivery, orphan_consumption, unsupported_warning_version, consumption_mismatch,
  consumption_not_adjacent, duplicate_consumption,
}
use cc_wallet_gui.Journal.Evidence.{is_prepared, DeliveryEvent}
use cc_wallet_gui.Journal.Record.{SendRecord}
use cc_wallet_gui.Journal.Risk.{
  RiskGrant, RiskGrantConsumption, RiskAction, granted, consumed, RiskEvent, authorizes,
  risk_warning_version,
}
use cc_wallet_gui.Journal.Blockers.{id_key, validate_grant_old_state}
use cc_wallet_gui.Journal.Replay.{
  ReplayItem, delivery, risk, is_some, ReplayState, replay_item, replay_prepared, replay_event,
  replay_risk, replay_grant, replay_consumption, track, is_prepared_item, check_authority,
  check_affordable,
}

-- The pending consumption is settled before any item but a Prepared event.
settled_pending : (s : ReplayState) → is_some s.pending ≡ false → s.pending ≡ none
unfolding is_some
settled_pending s h = ground arith

-- Any item but a Prepared event finds no pending consumption.
pub adjacent-settled :
    (s : ReplayState) (item : ReplayItem) {u : Unit {0}}
    → is_prepared_item item ≡ false
    → reject_if (is_some s.pending && not (is_prepared_item item)) consumption_not_adjacent ≡ ok u
    → s.pending ≡ none
adjacent-settled s item q h = settled_pending s (ground (arith, reject_if-eq-ok _ _ h))

module _ ⦃big : BigUint⦄ ⦃sha : Sha256⦄ where
  pub replay_grant-ok :
      (g : RiskGrant) (s s' : ReplayState)
      → replay_grant g s ≡ ok s'
      → (s' ≡ record s { grants = insert g.one_use_nonce g s.grants })
        × (get g.one_use_nonce s.grants ≡ none)
  unfolding replay_grant
  replay_grant-ok g s s' h =
      let (u, v, h1) =
        >>=-eq-ok
          (reject_if (not (g.warning_version == risk_warning_version)) unsupported_warning_version)
          _ h in
      let (u', o, h2) = >>=-eq-ok (validate_grant_old_state g s.blocking) _ h1 in ground arith

  consume-ok :
      (g : RiskGrant) (c : RiskGrantConsumption) (s s' : ReplayState)
      → (reject_if (not (authorizes g c)) consumption_mismatch
          >> (reject_if (has_key c.one_use_nonce s.consumed_nonces) duplicate_consumption
              >> ok (record s {
                consumed_nonces = insert_key c.one_use_nonce s.consumed_nonces;
                pending = some (g, c);
              })))
        ≡ ok s'
      → (s' ≡ record s {
        consumed_nonces = insert_key c.one_use_nonce s.consumed_nonces;
        pending = some (g, c);
      })
        × (authorizes g c ≡ true)
        × (has_key c.one_use_nonce s.consumed_nonces ≡ false)
  consume-ok g c s s' h = ground arith

  pub replay_consumption-ok :
      (c : RiskGrantConsumption) (s s' : ReplayState)
      → replay_consumption c s ≡ ok s'
      → (g : RiskGrant) × (s' ≡ record s {
        consumed_nonces = insert_key c.one_use_nonce s.consumed_nonces;
        pending = some (g, c);
      })
        × (get c.one_use_nonce s.grants ≡ some g)
        × (authorizes g c ≡ true)
        × (has_key c.one_use_nonce s.consumed_nonces ≡ false)
  unfolding replay_consumption
  replay_consumption-ok c s s' h =
      let (g, v, h1) = >>=-eq-ok (ok_or (get c.one_use_nonce s.grants) orphan_consumption) _ h in
      let (e, a, f) = consume-ok g c s s' h1 in (g, e, ok_or-eq-ok _ _ v, a, f)

  pub replay_prepared-ok :
      (r : SendRecord) (s s' : ReplayState)
      → replay_prepared r s ≡ ok s'
      → (s' ≡ record s {
        active = track r EvidenceTag.prepared s.active;
        blocking = track r EvidenceTag.prepared s.blocking;
        pending = none;
      })
        × (check_authority s.pending r s.blocking ≡ ok tt)
        × (check_affordable r s.blocking ≡ ok tt)
  unfolding replay_prepared
  replay_prepared-ok r s s' h =
      let (u, v, h1) =
        >>=-eq-ok
          (reject_if (contains_key r.ticket.record_id s.active)
            (invalid_delivery "second Prepared"))
          _ h in
      let (a, authority, h2) = >>=-eq-ok (check_authority s.pending r s.blocking) _ h1 in
      let (b, affordable, h3) = >>=-eq-ok (check_affordable r s.blocking) _ h2 in
      (cc, authority, affordable)

  pub item-grant :
      (event : RiskEvent) (g : RiskGrant) (s s' : ReplayState)
      → event.action ≡ granted g
      → replay_item (risk event) s ≡ ok s'
      → replay_grant g s ≡ ok s'
  unfolding replay_item
  item-grant event g s s' e k = sym (ap (λ (a : RiskAction). replay_risk a s) e) ∙ k

  pub item-consumption :
      (event : RiskEvent) (c : RiskGrantConsumption) (s s' : ReplayState)
      → event.action ≡ consumed c
      → replay_item (risk event) s ≡ ok s'
      → replay_consumption c s ≡ ok s'
  unfolding replay_item
  item-consumption event c s s' e k = sym (ap (λ (a : RiskAction). replay_risk a s) e) ∙ k

  pub item-prepared :
      (r : SendRecord) (event : DeliveryEvent) (s s' : ReplayState)
      → is_prepared event.evidence ≡ true
      → replay_item (delivery r event) s ≡ ok s'
      → replay_prepared r s ≡ ok s'
  unfolding replay_item
  item-prepared r event s s' e k = ground arith

  pub item-event :
      (r : SendRecord) (event : DeliveryEvent) (s s' : ReplayState)
      → is_prepared event.evidence ≡ false
      → replay_item (delivery r event) s ≡ ok s'
      → replay_event r event.evidence s ≡ ok s'
  unfolding replay_item
  item-event r event s s' e k = ground arith
