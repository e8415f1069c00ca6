-- ===== src/Journal/Signing.antt =====
-- journal.rs, `validate_replay`: what an accepted journal shows of each Prepared event and of each
-- use of a risk grant.
use cc_wallet_gui.Prelude.{
  List, [], ◌∷◌, ◌++◌, Option, none, some, true, false, not, ◌≡◌, refl, sym, ap, ◌∙◌, arith, subst,
  length, bytes_eq, bytes_eq_iff, ok, reject_if, append-nil, append_assoc, >>=-eq-ok,
  reject_if-eq-ok,
}
use cc_wallet_gui.External.{BigUint, Sha256}
use cc_wallet_gui.Ids.{RecordId}
use cc_wallet_gui.Digest.{EvidenceTag, is_blocking}
use cc_wallet_gui.BTreeMap.{get}
use cc_wallet_gui.Journal.Errors.{consumption_mismatch}
use cc_wallet_gui.Journal.Ticket.{digest_of_ticket}
use cc_wallet_gui.Journal.Record.{SendRecord}
use cc_wallet_gui.Journal.Risk.{RiskGrant, RiskGrantConsumption, consumed, RiskEvent, authorizes}
use cc_wallet_gui.Journal.Blockers.{id_key, Tracked, same_signing_scope, validate_grant_state}
use cc_wallet_gui.Journal.Replay.{
  ReplayItem, risk, initial, is_some, ReplayState, replay_step, replay_all, check_authority,
  blocking_in_scope,
}
use cc_wallet_gui.Journal.History.{
  grant_of, last_item, Waits, waiting, Remembers, Remembers-initial,
}
use cc_wallet_gui.Journal.Authority.{step-Remembers}
use cc_wallet_gui.Journal.Replay.{sort_items, stream_of, validate_replay}
use cc_wallet_gui.Journal.Sequence.{validate_replay-Accepted}

blocking_in_scope-empty :
    (r : SendRecord) (m : Tracked) (id : RecordId) (p : SendRecord) (t : EvidenceTag)
    → length (blocking_in_scope r m) ≡ 0
    → get id m ≡ some (p, t)
    → same_signing_scope p r ≡ true
    → is_blocking t ≡ false
unfolding blocking_in_scope get
blocking_in_scope-empty r [] id p t h g q = cc
blocking_in_scope-empty r ((j, (p', t')) ∷ m) id p t h g q =
    ground (arith, blocking_in_scope-empty r m id p t)

-- A consumption has the nonce, the record and the ticket digest of a grant.
abbrev pub Agrees : RiskGrant → RiskGrantConsumption → Type 0
Agrees g c =
    (g.one_use_nonce ≡ c.one_use_nonce)
    × (g.new_record_id ≡ c.new_record_id)
    × (g.new_ticket_digest ≡ c.new_ticket_digest)

pub authorizes-Agrees :
    (g : RiskGrant) (c : RiskGrantConsumption) → authorizes g c ≡ true → Agrees g c
unfolding authorizes
authorizes-Agrees g c h = ground (
  arith,
  bytes_eq_iff g.one_use_nonce c.one_use_nonce,
  bytes_eq_iff g.new_record_id c.new_record_id,
  bytes_eq_iff g.new_ticket_digest c.new_ticket_digest,
)

module _ ⦃big : BigUint⦄ ⦃sha : Sha256⦄ where
  replay_all-Remembers :
      (past items : List ReplayItem) (s end : ReplayState)
      → Remembers past s
      → replay_all items s ≡ ok end
      → Remembers (past ++ items) end
  unfolding replay_all
  replay_all-Remembers past [] s end m h =
      let same : s ≡ end = cc in rw (append-nil past) (subst (Remembers past) same m)
  replay_all-Remembers past (item ∷ items) s end m h =
      let (s', step, rest) = >>=-eq-ok (replay_step item s) _ h in
      rw (sym (append_assoc past (item ∷ []) items)) (
        replay_all-Remembers (past ++ item ∷ []) items s' end (step-Remembers past item s s' m step)
          rest)

  replay_all-append :
      (past items : List ReplayItem) (s end : ReplayState)
      → replay_all (past ++ items) s ≡ ok end
      → (mid : ReplayState) × (replay_all past s ≡ ok mid) × (replay_all items mid ≡ ok end)
  unfolding replay_all
  replay_all-append [] items s end h = (s, refl, h)
  replay_all-append (item ∷ past) items s end h =
      let (s', step, rest) = >>=-eq-ok (replay_step item s) _ h in
      let (mid, before, after) = replay_all-append past items s' end rest in
      (mid, rw step before, after)

  -- The state in which an accepted replay meets an item.
  pub record Meets (past : List ReplayItem) (item : ReplayItem) (rest : List ReplayItem)
      : Type 0 where
    pub before : ReplayState
    pub after : ReplayState
    pub end : ReplayState
    pub reached : replay_all past initial ≡ ok before
    pub remembers : Remembers past before
    pub steps : replay_step item before ≡ ok after
    pub replays : replay_all rest after ≡ ok end
    pub settles : is_some end.pending ≡ false

  pub accepted-Meets :
      (records : List SendRecord) (risk_events : List RiskEvent) (past : List ReplayItem)
      (item : ReplayItem) (rest : List ReplayItem)
      → validate_replay records risk_events ≡ ok tt
      → sort_items (stream_of records risk_events) ≡ past ++ item ∷ rest
      → Meets past item rest
  unfolding replay_all
  accepted-Meets records risk_events past item rest h at_item =
      let accepted = validate_replay-Accepted records risk_events h in
      let (mid, start, go) =
        replay_all-append past (item ∷ rest) initial accepted.final
          (sym (ap (λ (l : List ReplayItem). replay_all l initial) at_item) ∙ accepted.replayed) in
      let (next, step, tail) = >>=-eq-ok (replay_step item mid) _ go in
      record {
        before = mid;
        after = next;
        end = accepted.final;
        reached = start;
        remembers = replay_all-Remembers [] past initial mid Remembers-initial start;
        steps = step;
        replays = tail;
        settles = accepted.settled;
      }

  -- The risk grant and its consumption that let a record be signed.
  pub record AuthorizedBy (past : List ReplayItem) (r : SendRecord) : Type 0 where
    pub grant : RiskGrant
    pub consumption : RiskGrantConsumption
    pub event : RiskEvent
    pub consumes : event.action ≡ consumed consumption
    pub just_before : last_item past ≡ some (risk event)
    pub was_granted : grant_of consumption.one_use_nonce past ≡ some grant
    pub agrees : Agrees grant consumption
    pub names_record : r.ticket.record_id ≡ consumption.new_record_id
    pub names_ticket : digest_of_ticket r.ticket ≡ ok consumption.new_ticket_digest

  -- A consumption that authorizes a record names the record and its ticket.
  pub authority-names :
      (r : SendRecord) (blocking : Tracked) (g : RiskGrant) (c : RiskGrantConsumption)
      → check_authority (some (g, c)) r blocking ≡ ok tt
      → (r.ticket.record_id ≡ c.new_record_id)
        × (digest_of_ticket r.ticket ≡ ok c.new_ticket_digest)
        × (validate_grant_state g r blocking ≡ ok tt)
  unfolding check_authority
  authority-names r blocking g c h =
      let (u, same_id, h1) =
        >>=-eq-ok
          (reject_if (not (bytes_eq r.ticket.record_id c.new_record_id)) consumption_mismatch) _
          h in
      let (digest, digests, h2) = >>=-eq-ok (digest_of_ticket r.ticket) _ h1 in
      let (v, same_digest, h3) =
        >>=-eq-ok (reject_if (not (bytes_eq digest c.new_ticket_digest)) consumption_mismatch) _
          h2 in
      (
        ground
            (arith, bytes_eq_iff r.ticket.record_id c.new_record_id, reject_if-eq-ok _ _ same_id),
        digests
            ∙ ap ok (
                ground (
                  arith,
                  bytes_eq_iff digest c.new_ticket_digest,
                  reject_if-eq-ok _ _ same_digest,
                )),
        h3,
      )

  pending-AuthorizedBy :
      (past : List ReplayItem) (r : SendRecord) (blocking : Tracked) (g : RiskGrant)
      (c : RiskGrantConsumption)
      → Waits past (some (g, c))
      → check_authority (some (g, c)) r blocking ≡ ok tt
      → AuthorizedBy past r
  pending-AuthorizedBy past r blocking _ _ (waiting g c event e last found agrees) h =
      let (same_id, same_digest, matches) = authority-names r blocking g c h in
      record {
        grant = g;
        consumption = c;
        event = event;
        consumes = e;
        just_before = last;
        was_granted = found;
        agrees = authorizes-Agrees g c agrees;
        names_record = same_id;
        names_ticket = same_digest;
      }

  no_pending-contra :
      (r p : SendRecord) (blocking : Tracked) (id : RecordId) (t : EvidenceTag)
      → check_authority none r blocking ≡ ok tt
      → get id blocking ≡ some (p, t)
      → same_signing_scope p r ≡ true
      → is_blocking t ≡ false
  unfolding check_authority
  no_pending-contra r p blocking id t h found same =
      blocking_in_scope-empty r blocking id p t (ground arith) found same

  pub authority-AuthorizedBy :
      (past : List ReplayItem) (r p : SendRecord) (blocking : Tracked) (id : RecordId)
      (t : EvidenceTag) (pending : Option (RiskGrant × RiskGrantConsumption))
      → Waits past pending
      → check_authority pending r blocking ≡ ok tt
      → get id blocking ≡ some (p, t)
      → same_signing_scope p r ≡ true
      → is_blocking t ≡ true
      → AuthorizedBy past r
  authority-AuthorizedBy past r p blocking id t none w h found same b =
      let c = no_pending-contra r p blocking id t h found same in cc
  authority-AuthorizedBy past r p blocking id t (some (g, c)) w h found same b =
      pending-AuthorizedBy past r blocking g c w h
