-- ===== src/Envelope.antt =====
-- `crates/cc-wallet-domain/src/envelope.rs`: the journal envelope and its four ways to append. An
-- operation works on a candidate copy, which replaces the envelope only if it validates.
pub mod Sequence
pub mod Theorems
pub mod History
use Prim.Native.Nat.{Ordering}
use cc_wallet_gui.Prelude.{
  ℕ, zero, suc, ◌+◌, ◌-◌, ◌*◌, ◌^◌, ◌<◌, ◌≤◌, List, [], ◌∷◌, ◌++◌, Option, none, some, Bool, true,
  false, not, ◌&&◌, ◌||◌, ◌≡◌, ◌≢◌, refl, sym, ap, ◌∙◌, ◌↔◌, ◌⊎◌, inl, inr, String, arith, subst,
  if◌then◌else◌, ltb, leb, ◌==◌, any, all, All, length, Bytes, bytes_eq, bytes_eq_iff, cmp_bytes,
  Outcome, ok, err, panic, ◌>>=◌, ◌>>◌, reject_if, ok_or, ℤ, pos, negsuc, int_eq, expect_ok,
  expect_some, map_err, map, Bool-cases, Option-cases, >>=-eq-ok, reject_if-eq-ok, >>=-ne-panic,
  reject_if-ne-panic,
}
use cc_wallet_gui.External.{BigUint, Sha256}
use cc_wallet_gui.Amount.{AssetAmount}
use cc_wallet_gui.Ids.{RecordId, RiskNonce, Digest32}
use cc_wallet_gui.Digest.{
  DigestError, EvidenceTag, is_blocking, is_equal, BlockerRow, new_blocker_row, blocker_set_digest,
  reservation_set_digest, Reservation, contains, overlap_set_digest,
}
use cc_wallet_gui.BTreeMap.{
  Key, Map, get, insert, remove, contains_key, insert_key, has_key, get-insert, get-remove,
  has_key-insert_key,
}
use cc_wallet_gui.Affordability.{AffordabilityError, AffordabilityReport, is_affordable}
use cc_wallet_gui.Affordability.Evaluate.{evaluate_affordability}
use cc_wallet_gui.Journal.Errors.{
  JournalError, invalid_ticket, invalid_provenance, invalid_reservation, invalid_delivery,
  duplicate_record, sequence_zero, sequence_gap, sequence_overflow, orphan_consumption,
  unsupported_warning_version, consumption_mismatch, consumption_not_adjacent,
  duplicate_consumption, ordinary_signing_blocked, grant_digest_mismatch, digest_failed, Journaled,
  from_digest,
}
use cc_wallet_gui.Journal.Ticket.{SendTicket, Scope, scope, scope_eq, digest_of_ticket}
use cc_wallet_gui.Journal.Provenance.{PrepareProvenance}
use cc_wallet_gui.Journal.Evidence.{
  DeliveryEvidence, prepared, tag, validate_evidence, is_prepared, is_terminal,
  valid_delivery_transition, DeliveryEvent, new_delivery_event,
}
use cc_wallet_gui.Journal.Record.{
  PreparedRecord, SendRecord, validate_static, latest_evidence, check_events, may_follow,
}
use cc_wallet_gui.Journal.Risk.{
  RiskGrant, RiskGrantConsumption, RiskAction, granted, consumed, RiskEvent, new_risk_event,
}
use cc_wallet_gui.Journal.Replay.{validate_replay}

pub record JournalEnvelope : Type 0 where
  pub records : List SendRecord
  pub risk_events : List RiskEvent

abbrev pub empty : JournalEnvelope
empty = record { records = []; risk_events = [] }

-- `prepared_record`
unfoldable pub prepared_record : PreparedRecord → ℕ → Journaled SendRecord
unfolding new_delivery_event
prepared_record p journal_seq = do
  event ← new_delivery_event journal_seq prepared
  ok (record {
    ticket = p.ticket;
    prepare_provenance = p.prepare_provenance;
    ext_msg_hash = p.ext_msg_hash;
    expire_at = p.expire_at;
    reservations = p.reservations;
    delivery_events = event ∷ [];
  })

-- `iter().map(…).max().unwrap_or(0)`
unfoldable pub max_seq : List ℕ → ℕ
max_seq [] = 0
max_seq (n ∷ ns) = let m = max_seq ns in if ltb n m then m else n

unfoldable pub delivery_seqs : List SendRecord → List ℕ
delivery_seqs [] = []
delivery_seqs (r ∷ records) =
    map (λ (e : DeliveryEvent). e.journal_seq) r.delivery_events ++ delivery_seqs records

unfoldable pub risk_seqs : List RiskEvent → List ℕ
risk_seqs events = map (λ (e : RiskEvent). e.journal_seq) events

-- `last.checked_add(1)` in `u64`
unfoldable pub next_sequence_after : ℕ → Journaled ℕ
next_sequence_after last = if ltb (last + 1) (2 ^ 64) then ok (last + 1) else err sequence_overflow

-- `JournalEnvelope::record`
unfoldable pub find_record : RecordId → List SendRecord → Option SendRecord
unfolding bytes_eq
find_record id [] = none
find_record id (r ∷ records) =
    if bytes_eq r.ticket.record_id id then some r else find_record id records

-- The record that `iter_mut().find(…)` points at is replaced.
unfoldable pub replace_record : RecordId → SendRecord → List SendRecord → List SendRecord
unfolding bytes_eq
replace_record id new [] = []
replace_record id new (r ∷ records) =
    if bytes_eq r.ticket.record_id id then new ∷ records else r ∷ replace_record id new records

-- `blocking_records_for_scope`, with `is_blocking` of the latest evidence
unfoldable pub is_blocking_evidence : Option DeliveryEvidence → Bool
unfolding is_blocking tag
is_blocking_evidence none = false
is_blocking_evidence (some e) = is_blocking (tag e)

unfoldable pub blocking_records_for_scope : Scope → List SendRecord → List SendRecord
unfolding is_blocking_evidence latest_evidence scope_eq
blocking_records_for_scope s [] = []
blocking_records_for_scope s (r ∷ records) =
    let rest = blocking_records_for_scope s records in
    if is_blocking_evidence (latest_evidence r.delivery_events) && scope_eq (scope r.ticket) s
    then r ∷ rest
    else rest

-- `*self = candidate` on success; an error leaves the envelope as it was.
abbrev pub commit :
    JournalEnvelope → Journaled JournalEnvelope → JournalEnvelope × Journaled (Unit {0})
commit old (ok new) = (new, ok tt)
commit old (err e) = (old, err e)
commit old panic = (old, panic)

module _ ⦃big : BigUint⦄ where
  -- `append_delivery_event`: on an error the pushed event is popped again.
  unfoldable pub append_delivery_event :
      SendRecord → ℕ → DeliveryEvidence → SendRecord × Journaled (Unit {0})
  unfolding new_delivery_event validate_static
  append_delivery_event r journal_seq evidence = elim (new_delivery_event journal_seq evidence) [
    | err e ↦ (r, err e)
    | panic ↦ (r, panic)
    | ok event ↦
        let r' : SendRecord = record r { delivery_events = r.delivery_events ++ event ∷ [] } in
        elim (validate_static r') [ err e ↦ (r, err e) | panic ↦ (r, panic) | ok _ ↦ (r', ok tt) ]
  ]

module _ ⦃big : BigUint⦄ ⦃sha : Sha256⦄ where
  unfoldable pub validate : JournalEnvelope → Journaled (Unit {0})
  unfolding validate_replay
  validate env = validate_replay env.records env.risk_events

  unfoldable pub next_sequence : JournalEnvelope → Journaled ℕ
  unfolding validate max_seq delivery_seqs risk_seqs next_sequence_after
  next_sequence env = do
    validate env
    let last_delivery = max_seq (delivery_seqs env.records)
    let last_risk = max_seq (risk_seqs env.risk_events)
    next_sequence_after (if ltb last_delivery last_risk then last_risk else last_delivery)

  unfoldable pub prepared_candidate : PreparedRecord → JournalEnvelope → Journaled JournalEnvelope
  unfolding next_sequence prepared_record validate
  prepared_candidate p env = do
    sequence ← next_sequence env
    r ← prepared_record p sequence
    let candidate : JournalEnvelope = record env { records = env.records ++ r ∷ [] }
    validate candidate
    ok candidate

  unfoldable pub append_prepared :
      PreparedRecord → JournalEnvelope → JournalEnvelope × Journaled (Unit {0})
  unfolding prepared_candidate
  append_prepared p env = commit env (prepared_candidate p env)

  unfoldable pub delivery_candidate :
      RecordId → DeliveryEvidence → JournalEnvelope → Journaled JournalEnvelope
  unfolding next_sequence find_record append_delivery_event replace_record validate
  delivery_candidate id evidence env = do
    sequence ← next_sequence env
    r ← ok_or (find_record id env.records) (invalid_delivery "record id is not present")
    let p = append_delivery_event r sequence evidence
    p.1
    let candidate : JournalEnvelope = record env { records = replace_record id p.0 env.records }
    validate candidate
    ok candidate

  unfoldable pub append_delivery :
      RecordId → DeliveryEvidence → JournalEnvelope → JournalEnvelope × Journaled (Unit {0})
  unfolding delivery_candidate
  append_delivery id evidence env = commit env (delivery_candidate id evidence env)

  unfoldable pub grant_candidate : RiskGrant → JournalEnvelope → Journaled JournalEnvelope
  unfolding next_sequence new_risk_event validate
  grant_candidate g env = do
    sequence ← next_sequence env
    event ← new_risk_event sequence (granted g)
    let candidate : JournalEnvelope = record env { risk_events = env.risk_events ++ event ∷ [] }
    validate candidate
    ok candidate

  unfoldable pub append_risk_grant :
      RiskGrant → JournalEnvelope → JournalEnvelope × Journaled (Unit {0})
  unfolding grant_candidate
  append_risk_grant g env = commit env (grant_candidate g env)

  unfoldable pub consumption_candidate :
      RiskGrantConsumption → PreparedRecord → JournalEnvelope → Journaled JournalEnvelope
  unfolding next_sequence next_sequence_after new_risk_event prepared_record validate
  consumption_candidate c p env = do
    consumption_sequence ← next_sequence env
    prepared_sequence ← next_sequence_after consumption_sequence
    event ← new_risk_event consumption_sequence (consumed c)
    r ← prepared_record p prepared_sequence
    let candidate : JournalEnvelope = record {
      records = env.records ++ r ∷ [];
      risk_events = env.risk_events ++ event ∷ [];
    }
    validate candidate
    ok candidate

  unfoldable pub append_consumption_and_prepared :
      RiskGrantConsumption
      → PreparedRecord
      → JournalEnvelope
      → JournalEnvelope × Journaled (Unit {0})
  unfolding consumption_candidate
  append_consumption_and_prepared c p env = commit env (consumption_candidate c p env)
