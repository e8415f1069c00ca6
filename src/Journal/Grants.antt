-- ===== src/Journal/Grants.antt =====
-- journal.rs, `validate_replay`: when a record may be Prepared, and how a risk grant is used up.
use cc_wallet_gui.Prelude.{
  List, [], ◌∷◌, ◌++◌, Option, some, true, false, not, ◌&&◌, ◌≡◌, sym, ap, ◌∙◌, arith, ok,
  reject_if, >>=-eq-ok, reject_if-eq-ok,
}
use cc_wallet_gui.External.{BigUint, Sha256}
use cc_wallet_gui.Ids.{RecordId}
use cc_wallet_gui.Digest.{EvidenceTag, is_blocking}
use cc_wallet_gui.Journal.Errors.{consumption_not_adjacent}
use cc_wallet_gui.Journal.Evidence.{is_prepared, DeliveryEvent}
use cc_wallet_gui.Journal.Record.{SendRecord}
use cc_wallet_gui.Journal.Risk.{RiskGrant, RiskGrantConsumption, consumed, RiskEvent}
use cc_wallet_gui.Journal.Blockers.{id_key, same_signing_scope}
use cc_wallet_gui.Journal.Replay.{
  ReplayItem, delivery, risk, is_some, ReplayState, replay_step, replay_all, is_prepared_item,
  check_authority,
}
use cc_wallet_gui.Journal.History.{latest, grant_of, is_consumed}
use cc_wallet_gui.Journal.Inversion.{
  replay_consumption-ok, replay_prepared-ok, item-consumption, item-prepared,
}
use cc_wallet_gui.Journal.Replay.{sort_items, stream_of, validate_replay}
use cc_wallet_gui.Journal.Signing.{
  accepted-Meets, Agrees, authorizes-Agrees, AuthorizedBy, authority-names, authority-AuthorizedBy,
}

-- The items after a consumption begin with the Prepared event of its record.
pub data BeginsWith (c : RiskGrantConsumption) : List ReplayItem → Type 0 where
  begins :
      (r : SendRecord) (event : DeliveryEvent) (rest : List ReplayItem)
      → is_prepared event.evidence ≡ true
      → r.ticket.record_id ≡ c.new_record_id
      → BeginsWith c (delivery r event ∷ rest)

module _ ⦃big : BigUint⦄ ⦃sha : Sha256⦄ where
  -- In a journal that `validate_replay` accepts, with its events in the order of their sequence
  -- numbers: if the latest event of some record leaves that record unresolved (blocking), then a
  -- Prepared event of a record of the same signing scope has a risk consumption just before it,
  -- which names this record and the digest of its ticket, and which has the nonce, the record and
  -- the ticket digest of an earlier grant.
  pub prepared-AuthorizedBy :
      (records : List SendRecord) (risk_events : List RiskEvent) (past rest : List ReplayItem)
      (r : SendRecord) (event : DeliveryEvent) (id : RecordId) (p : SendRecord) (t : EvidenceTag)
      → validate_replay records risk_events ≡ ok tt
      → sort_items (stream_of records risk_events) ≡ past ++ delivery r event ∷ rest
      → is_prepared event.evidence ≡ true
      → latest id past ≡ some (p, t)
      → same_signing_scope p r ≡ true
      → is_blocking t ≡ true
      → AuthorizedBy past r
  unfolding replay_step
  prepared-AuthorizedBy records risk_events past rest r event id p t h at_item q last same blocks =
      let m = accepted-Meets records risk_events past (delivery r event) rest h at_item in
      let (u, adjacent, go) =
        >>=-eq-ok
          (reject_if (is_some m.before.pending && not (is_prepared_item (delivery r event)))
            consumption_not_adjacent)
          _ m.steps in
      let (after, authority, affordable) =
        replay_prepared-ok r m.before m.after (item-prepared r event m.before m.after q go) in
      authority-AuthorizedBy past r p m.before.blocking id t m.before.pending m.remembers.waits
        authority (m.remembers.unresolved id ∙ ground (arith, last, blocks)) same blocks

  pending-BeginsWith :
      (g : RiskGrant) (c : RiskGrantConsumption) (s end : ReplayState) (rest : List ReplayItem)
      → s.pending ≡ some (g, c)
      → replay_all rest s ≡ ok end
      → is_some end.pending ≡ false
      → BeginsWith c rest
  unfolding replay_all replay_step is_prepared_item is_some
  pending-BeginsWith g c s end [] p h q = ground arith
  pending-BeginsWith g c s end (risk event ∷ rest) p h q = ground arith
  pending-BeginsWith g c s end (delivery r event ∷ rest) p h q =
      let (s', step, tail) = >>=-eq-ok (replay_step (delivery r event) s) _ h in
      let (u, adjacent, go) =
        >>=-eq-ok
          (reject_if (is_some s.pending && not (is_prepared event.evidence))
            consumption_not_adjacent)
          _ step in
      let is_next : is_prepared event.evidence ≡ true =
        ground (arith, p, reject_if-eq-ok _ _ adjacent) in
      let (after, authority, affordable) =
        replay_prepared-ok r s s' (item-prepared r event s s' is_next go) in
      let names = authority-names r s.blocking g c (
        sym
          (ap (λ (o : Option (RiskGrant × RiskGrantConsumption)). check_authority o r s.blocking) p)
        ∙ authority) in
      begins r event rest is_next names.0

  -- In a journal that `validate_replay` accepts, with its events in the order of their sequence
  -- numbers, a risk consumption finds its nonce unused by every earlier consumption, finds an
  -- earlier grant of its nonce for the same record and ticket digest, and is followed at once by
  -- the Prepared event of the record that it names.
  pub consumption-once :
      (records : List SendRecord) (risk_events : List RiskEvent) (past rest : List ReplayItem)
      (event : RiskEvent) (c : RiskGrantConsumption)
      → validate_replay records risk_events ≡ ok tt
      → sort_items (stream_of records risk_events) ≡ past ++ risk event ∷ rest
      → event.action ≡ consumed c
      → (is_consumed c.one_use_nonce past ≡ false)
        × ((g : RiskGrant) × (grant_of c.one_use_nonce past ≡ some g) × Agrees g c)
        × BeginsWith c rest
  unfolding replay_step
  consumption-once records risk_events past rest event c h at_item e =
      let m = accepted-Meets records risk_events past (risk event) rest h at_item in
      let (u, adjacent, go) =
        >>=-eq-ok
          (reject_if (is_some m.before.pending && not (is_prepared_item (risk event)))
            consumption_not_adjacent)
          _ m.steps in
      let (g, same, found, agrees, unused) =
        replay_consumption-ok c m.before m.after (item-consumption event c m.before m.after e go) in
      (
        sym (m.remembers.used c.one_use_nonce) ∙ unused,
        (g, sym (m.remembers.grants c.one_use_nonce) ∙ found, authorizes-Agrees g c agrees),
        pending-BeginsWith g c m.after m.end rest (ap (λ (s : ReplayState). s.pending) same)
            m.replays m.settles,
      )
