-- ===== src/Journal/Authority.antt =====
-- A round of the replay keeps what the replay remembers of the items that it has passed.
use cc_wallet_gui.Prelude.{
  List, [], ◌∷◌, ◌++◌, Option, none, some, true, not, ◌&&◌, ◌≡◌, refl, inl, inr, arith, subst,
  bytes_eq_iff, ok, reject_if, ok_or, Bool-cases, >>=-eq-ok,
}
use cc_wallet_gui.External.{BigUint, Sha256}
use cc_wallet_gui.Digest.{EvidenceTag, is_blocking}
use cc_wallet_gui.BTreeMap.{get, insert, insert_key, get-insert, get-remove, has_key-insert_key}
use cc_wallet_gui.Journal.Errors.{invalid_delivery, consumption_not_adjacent, Journaled}
use cc_wallet_gui.Journal.Evidence.{tag, is_prepared, DeliveryEvent}
use cc_wallet_gui.Journal.Record.{SendRecord}
use cc_wallet_gui.Journal.Risk.{
  RiskGrant, RiskGrantConsumption, RiskAction, granted, consumed, RiskEvent, authorizes,
}
use cc_wallet_gui.Journal.Blockers.{id_key}
use cc_wallet_gui.Journal.Replay.{
  ReplayItem, delivery, risk, is_some, ReplayState, replay_step, replay_item, replay_event, follow,
  track, is_prepared_item,
}
use cc_wallet_gui.Journal.History.{
  Waits, settled, waiting, Remembers, own_event, own_grant, own_consumption, latest-snoc,
  grant_of-snoc, is_consumed-snoc, last_item-snoc,
}
use cc_wallet_gui.Journal.Inversion.{
  adjacent-settled, replay_grant-ok, replay_consumption-ok, replay_prepared-ok, item-grant,
  item-consumption, item-prepared, item-event,
}

Waits-none :
    (past : List ReplayItem) (p : Option (RiskGrant × RiskGrantConsumption))
    → p ≡ none
    → Waits past p
Waits-none past none h = settled
Waits-none past (some a) h = cc

abbrev next_test : ReplayState → ReplayItem → Journaled (Unit {0})
next_test s item =
    reject_if (is_some s.pending && not (is_prepared_item item)) consumption_not_adjacent

module _ ⦃big : BigUint⦄ ⦃sha : Sha256⦄ where
  Remembers-grant :
      (past : List ReplayItem) (s : ReplayState) (event : RiskEvent) (g : RiskGrant)
      → Remembers past s
      → s.pending ≡ none
      → event.action ≡ granted g
      → get g.one_use_nonce s.grants ≡ none
      → Remembers
          (past ++ risk event ∷ [])
          (record s { grants = insert g.one_use_nonce g s.grants })
  unfolding own_event own_grant own_consumption
  Remembers-grant past s event g m p a fresh = record {
    unresolved = λ id. ground (arith, m.unresolved id, latest-snoc id past (risk event));
    grants = λ n. ground (
      arith,
      a,
      fresh,
      m.grants n,
      m.grants g.one_use_nonce,
      grant_of-snoc n past (risk event),
      get-insert g.one_use_nonce n g s.grants,
      bytes_eq_iff n g.one_use_nonce,
    );
    used = λ n. ground (arith, a, m.used n, is_consumed-snoc n past (risk event));
    waits = Waits-none _ s.pending p;
  }

  Remembers-consumption :
      (past : List ReplayItem) (s : ReplayState) (event : RiskEvent) (g : RiskGrant)
      (c : RiskGrantConsumption)
      → Remembers past s
      → event.action ≡ consumed c
      → get c.one_use_nonce s.grants ≡ some g
      → authorizes g c ≡ true
      → Remembers (past ++ risk event ∷ []) (record s {
        consumed_nonces = insert_key c.one_use_nonce s.consumed_nonces;
        pending = some (g, c);
      })
  unfolding own_event own_grant own_consumption
  Remembers-consumption past s event g c m a found auth = record {
    unresolved = λ id. ground (arith, m.unresolved id, latest-snoc id past (risk event));
    grants = λ n. ground (arith, a, m.grants n, grant_of-snoc n past (risk event));
    used = λ n. ground (
      arith,
      a,
      m.used n,
      is_consumed-snoc n past (risk event),
      has_key-insert_key c.one_use_nonce n s.consumed_nonces,
    );
    waits =
        waiting g c event a (last_item-snoc past (risk event))
          (ground
            (arith, a, m.grants c.one_use_nonce, grant_of-snoc c.one_use_nonce past (risk event)))
          auth;
  }

  Remembers-prepared :
      (past : List ReplayItem) (s : ReplayState) (r : SendRecord) (event : DeliveryEvent)
      → Remembers past s
      → is_prepared event.evidence ≡ true
      → Remembers (past ++ delivery r event ∷ []) (record s {
        active = track r EvidenceTag.prepared s.active;
        blocking = track r EvidenceTag.prepared s.blocking;
        pending = none;
      })
  unfolding own_event own_grant own_consumption is_prepared tag is_blocking
  Remembers-prepared past s r event m q = record {
    unresolved = λ id. ground (
      arith,
      m.unresolved id,
      latest-snoc id past (delivery r event),
      get-insert r.ticket.record_id id (r, EvidenceTag.prepared) s.blocking,
    );
    grants = λ n. ground (arith, m.grants n, grant_of-snoc n past (delivery r event));
    used = λ n. ground (arith, m.used n, is_consumed-snoc n past (delivery r event));
    waits = settled;
  }

  Remembers-event :
      (past : List ReplayItem) (s : ReplayState) (r prior : SendRecord) (event : DeliveryEvent)
      → Remembers past s
      → s.pending ≡ none
      → Remembers (past ++ delivery r event ∷ []) (follow r (tag event.evidence) prior s)
  unfolding own_event own_grant own_consumption follow
  Remembers-event past s r prior event m p = record {
    unresolved = λ id. ground (
      arith,
      m.unresolved id,
      latest-snoc id past (delivery r event),
      get-insert r.ticket.record_id id (r, tag event.evidence) s.blocking,
      get-remove r.ticket.record_id id s.blocking,
    );
    grants = λ n. ground (arith, m.grants n, grant_of-snoc n past (delivery r event));
    used = λ n. ground (arith, m.used n, is_consumed-snoc n past (delivery r event));
    waits = Waits-none _ s.pending p;
  }

  follows :
      (past : List ReplayItem) (r : SendRecord) (event : DeliveryEvent) (s s' : ReplayState)
      → Remembers past s
      → s.pending ≡ none
      → replay_event r event.evidence s ≡ ok s'
      → Remembers (past ++ delivery r event ∷ []) s'
  unfolding replay_event
  follows past r event s s' m p h =
      let (state, found, done) =
        >>=-eq-ok
          (ok_or (get r.ticket.record_id s.active) (invalid_delivery "event precedes Prepared")) _
          h in
      let same : follow r (tag event.evidence) state.0 s ≡ s' = cc in
      subst (Remembers (past ++ delivery r event ∷ [])) same
        (Remembers-event past s r state.0 event m p)

  risk_step :
      (past : List ReplayItem) (event : RiskEvent) (s s' : ReplayState) (a : RiskAction)
      → Remembers past s
      → event.action ≡ a
      → s.pending ≡ none
      → replay_item (risk event) s ≡ ok s'
      → Remembers (past ++ risk event ∷ []) s'
  risk_step past event s s' (granted g) m e p k =
      let (same, fresh) = replay_grant-ok g s s' (item-grant event g s s' e k) in
      rw same (Remembers-grant past s event g m p e fresh)
  risk_step past event s s' (consumed c) m e p k =
      let (g, same, found, auth, unused) =
        replay_consumption-ok c s s' (item-consumption event c s s' e k) in
      rw same (Remembers-consumption past s event g c m e found auth)

  -- One round keeps what the replay remembers.
  pub step-Remembers :
      (past : List ReplayItem) (item : ReplayItem) (s s' : ReplayState)
      → Remembers past s
      → replay_step item s ≡ ok s'
      → Remembers (past ++ item ∷ []) s'
  unfolding replay_step
  step-Remembers past (risk event) s s' m h =
      let (u, adjacent, h1) = >>=-eq-ok (next_test s (risk event)) _ h in
      risk_step past event s s' event.action m refl
        (adjacent-settled s (risk event) (unfold is_prepared_item in refl) adjacent) h1
  step-Remembers past (delivery r event) s s' m h =
      let (u, adjacent, h1) = >>=-eq-ok (next_test s (delivery r event)) _ h in
      elim (Bool-cases (is_prepared event.evidence)) [
        | inl q ↦
            let (same, authority, affordable) =
              replay_prepared-ok r s s' (item-prepared r event s s' q h1) in
            rw same (Remembers-prepared past s r event m q)
        | inr q ↦
            follows past r event s s' m
              (adjacent-settled s (delivery r event) (unfold is_prepared_item in q) adjacent)
              (item-event r event s s' q h1)
      ]
