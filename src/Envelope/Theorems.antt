-- ===== src/Envelope/Theorems.antt =====
-- envelope.rs: the appends as a state machine, and what every reachable envelope satisfies.
use cc_wallet_gui.Prelude.{[], ◌∷◌, ◌++◌, ◌≡◌, refl, arith, ok, err, panic, ◌>>◌, ok_or, >>=-eq-ok}
use cc_wallet_gui.External.{BigUint, Sha256}
use cc_wallet_gui.Ids.{RecordId}
use cc_wallet_gui.Journal.Errors.{invalid_delivery, Journaled}
use cc_wallet_gui.Journal.Evidence.{DeliveryEvidence}
use cc_wallet_gui.Journal.Record.{PreparedRecord}
use cc_wallet_gui.Journal.Risk.{RiskGrant, RiskGrantConsumption, granted, consumed, new_risk_event}
use cc_wallet_gui.Envelope.{
  JournalEnvelope, empty, prepared_record, next_sequence_after, find_record, replace_record, commit,
  append_delivery_event, validate, next_sequence, prepared_candidate, append_prepared,
  delivery_candidate, append_delivery, grant_candidate, append_risk_grant, consumption_candidate,
  append_consumption_and_prepared,
}

-- A call on the journal.
pub data Call : Type 0 where
  prepare : PreparedRecord → Call
  deliver : RecordId → DeliveryEvidence → Call
  allow : RiskGrant → Call
  use_grant : RiskGrantConsumption → PreparedRecord → Call

module _ ⦃big : BigUint⦄ ⦃sha : Sha256⦄ where
  candidate_of : Call → JournalEnvelope → Journaled JournalEnvelope
  unfolding prepared_candidate delivery_candidate grant_candidate consumption_candidate
  candidate_of (prepare p) env = prepared_candidate p env
  candidate_of (deliver id evidence) env = delivery_candidate id evidence env
  candidate_of (allow g) env = grant_candidate g env
  candidate_of (use_grant c p) env = consumption_candidate c p env

  unfoldable pub run : Call → JournalEnvelope → JournalEnvelope × Journaled (Unit {0})
  unfolding append_prepared append_delivery append_risk_grant append_consumption_and_prepared
  run (prepare p) env = append_prepared p env
  run (deliver id evidence) env = append_delivery id evidence env
  run (allow g) env = append_risk_grant g env
  run (use_grant c p) env = append_consumption_and_prepared c p env

  run-commit :
      (call : Call) (env : JournalEnvelope) → run call env ≡ commit env (candidate_of call env)
  unfolding run candidate_of
  run-commit (prepare p) env = refl
  run-commit (deliver id evidence) env = refl
  run-commit (allow g) env = refl
  run-commit (use_grant c p) env = refl

  -- The envelopes that a sequence of calls makes of a new one, whatever the calls return.
  pub data Reachable : JournalEnvelope → Type 0 where
    start : Reachable empty
    after : (call : Call) (env : JournalEnvelope) → Reachable env → Reachable (run call env).0

  -- A candidate is kept only if it was validated.
  commit-validate :
      (env : JournalEnvelope) (candidate : Journaled JournalEnvelope)
      → validate env ≡ ok tt
      → ((new : JournalEnvelope) → candidate ≡ ok new → validate new ≡ ok tt)
      → validate (commit env candidate).0 ≡ ok tt
  commit-validate env (ok new) h k = k new refl
  commit-validate env (err e) h k = h
  commit-validate env panic h k = h

  validated : (env new : JournalEnvelope) → (validate env >> ok env) ≡ ok new → validate new ≡ ok tt
  validated env new h = ground arith

  prepared_candidate-validate :
      (p : PreparedRecord) (env new : JournalEnvelope)
      → prepared_candidate p env ≡ ok new
      → validate new ≡ ok tt
  unfolding prepared_candidate
  prepared_candidate-validate p env new h =
      let (n, a, h1) = >>=-eq-ok (next_sequence env) _ h in
      let (r, b, h2) = >>=-eq-ok (prepared_record p n) _ h1 in
      validated (record env { records = env.records ++ r ∷ [] }) new h2

  delivery_candidate-validate :
      (id : RecordId) (evidence : DeliveryEvidence) (env new : JournalEnvelope)
      → delivery_candidate id evidence env ≡ ok new
      → validate new ≡ ok tt
  unfolding delivery_candidate
  delivery_candidate-validate id evidence env new h =
      let (n, a, h1) = >>=-eq-ok (next_sequence env) _ h in
      let (r, b, h2) =
        >>=-eq-ok (ok_or (find_record id env.records) (invalid_delivery "record id is not present"))
          _ h1 in
      let (u, c, h3) = >>=-eq-ok (append_delivery_event r n evidence).1 _ h2 in
      validated
        (record env {
          records = replace_record id (append_delivery_event r n evidence).0 env.records;
        })
        new h3

  grant_candidate-validate :
      (g : RiskGrant) (env new : JournalEnvelope)
      → grant_candidate g env ≡ ok new
      → validate new ≡ ok tt
  unfolding grant_candidate
  grant_candidate-validate g env new h =
      let (n, a, h1) = >>=-eq-ok (next_sequence env) _ h in
      let (e, b, h2) = >>=-eq-ok (new_risk_event n (granted g)) _ h1 in
      validated (record env { risk_events = env.risk_events ++ e ∷ [] }) new h2

  consumption_candidate-validate :
      (c : RiskGrantConsumption) (p : PreparedRecord) (env new : JournalEnvelope)
      → consumption_candidate c p env ≡ ok new
      → validate new ≡ ok tt
  unfolding consumption_candidate
  consumption_candidate-validate c p env new h =
      let (n, a, h1) = >>=-eq-ok (next_sequence env) _ h in
      let (n', a', h2) = >>=-eq-ok (next_sequence_after n) _ h1 in
      let (e, b, h3) = >>=-eq-ok (new_risk_event n (consumed c)) _ h2 in
      let (r, d, h4) = >>=-eq-ok (prepared_record p n') _ h3 in
      validated
        (record { records = env.records ++ r ∷ []; risk_events = env.risk_events ++ e ∷ [] }) new h4

  candidate_of-validate :
      (call : Call) (env new : JournalEnvelope)
      → candidate_of call env ≡ ok new
      → validate new ≡ ok tt
  unfolding candidate_of
  candidate_of-validate (prepare p) env new h = prepared_candidate-validate p env new h
  candidate_of-validate (deliver id evidence) env new h =
      delivery_candidate-validate id evidence env new h
  candidate_of-validate (allow g) env new h = grant_candidate-validate g env new h
  candidate_of-validate (use_grant c p) env new h = consumption_candidate-validate c p env new h

  empty-validate : validate empty ≡ ok tt
  unfolding validate
  empty-validate = refl

  -- Every envelope that a sequence of appends of any kind, successful or not, makes of an empty
  -- one passes `validate`, the full replay of its journal.
  pub Reachable-validate : {env : JournalEnvelope} → Reachable env → validate env ≡ ok tt
  Reachable-validate start = empty-validate
  Reachable-validate (after call env r) = rw (run-commit call env) (
      commit-validate env (candidate_of call env) (Reachable-validate r)
        (candidate_of-validate call env))
