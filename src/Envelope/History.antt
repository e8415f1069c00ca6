-- ===== src/Envelope/History.antt =====
-- envelope.rs: a successful append leaves the history of the journal as it was, and puts its event
-- at the end.
use mathlib.Core.List.{map-append}
use cc_wallet_gui.Prelude.{
  ℕ, ◌+◌, ◌^◌, ◌<◌, ◌≤◌, List, [], ◌∷◌, ◌++◌, map, append_assoc, append-nil, ◌≡◌, refl, sym, ap,
  ◌∙◌, subst, arith, if◌then◌else◌, ltb, ok, err, panic, ◌>>◌, >>=-eq-ok,
}
use cc_wallet_gui.External.{BigUint, Sha256}
use cc_wallet_gui.Journal.Errors.{Journaled, sequence_overflow}
use cc_wallet_gui.Journal.Evidence.{prepared, DeliveryEvent, new_delivery_event, validate_evidence}
use cc_wallet_gui.Journal.Record.{PreparedRecord, SendRecord}
use cc_wallet_gui.Journal.Risk.{RiskGrant, granted, RiskEvent, RiskAction, new_risk_event}
use cc_wallet_gui.Journal.Replay.{
  ReplayItem, delivery, risk, seq, delivery_items, stream_of, insert_item, sort_items,
}
use cc_wallet_gui.Envelope.{
  JournalEnvelope, prepared_record, max_seq, commit, validate, next_sequence, prepared_candidate,
  append_prepared, grant_candidate, append_risk_grant,
}
use cc_wallet_gui.Envelope.Sequence.{
  count_events, max_seq-sort_items, max_seq-stream_of, max_seq-validate, next_sequence_lem,
}

insert_item-last :
    (x : ReplayItem) (l : List ReplayItem)
    → max_seq (map seq l) < seq x
    → insert_item x l ≡ l ++ x ∷ []
unfolding insert_item max_seq
insert_item-last x [] h = refl
insert_item-last x (y ∷ l) h = ground (arith, insert_item-last x l)

insert_item-snoc :
    (y x : ReplayItem) (l : List ReplayItem)
    → seq y ≤ seq x
    → insert_item y (l ++ x ∷ []) ≡ insert_item y l ++ x ∷ []
unfolding insert_item
insert_item-snoc y x [] h = ground arith
insert_item-snoc y x (z ∷ l) h = ground (arith, insert_item-snoc y x l)

-- An item with the greatest number comes last, wherever it was put.
sort_items-greatest :
    (a b : List ReplayItem) (x : ReplayItem)
    → max_seq (map seq (a ++ b)) < seq x
    → sort_items (a ++ x ∷ b) ≡ sort_items (a ++ b) ++ x ∷ []
unfolding sort_items max_seq
sort_items-greatest [] b x h =
    insert_item-last x (sort_items b) (omega (arith, max_seq-sort_items b, h))
sort_items-greatest (y ∷ a) b x h =
    let (least, above) = bounds (seq y) (max_seq (map seq (a ++ b))) (seq x) h in
    ap (insert_item y) (sort_items-greatest a b x above)
    ∙ insert_item-snoc y x (sort_items (a ++ b)) least
  where
    bounds : (n m k : ℕ) → (if ltb n m then m else n) < k → (n ≤ k) × (m < k)
    bounds n m k h = ground arith

delivery_items-append :
    (records : List SendRecord) (r : SendRecord)
    → delivery_items (records ++ r ∷ [])
      ≡ delivery_items records ++ map (delivery r) r.delivery_events
unfolding delivery_items
delivery_items-append [] r = append-nil (map (delivery r) r.delivery_events)
delivery_items-append (q ∷ records) r =
    ap (λ (l : List ReplayItem). map (delivery q) q.delivery_events ++ l)
      (delivery_items-append records r)
    ∙ sym (
        append_assoc (map (delivery q) q.delivery_events) (delivery_items records)
          (map (delivery r) r.delivery_events))

commit-eq-ok :
    (env env' : JournalEnvelope) (candidate : Journaled JournalEnvelope)
    → commit env candidate ≡ (env', ok tt)
    → candidate ≡ ok env'
commit-eq-ok env env' (ok new) h = ap (λ (p : JournalEnvelope × Journaled (Unit {0})). ok p.0) h
commit-eq-ok env env' (err e) h = ground arith
commit-eq-ok env env' panic h = ground arith

-- The events of the journal in the order of their sequence numbers.
unfoldable pub history : JournalEnvelope → List ReplayItem
unfolding sort_items stream_of
history env = sort_items (stream_of env.records env.risk_events)

prepared_record-ok :
    (p : PreparedRecord) (n : ℕ) (r : SendRecord)
    → prepared_record p n ≡ ok r
    → (r.delivery_events ≡ record { journal_seq = n; evidence = prepared } ∷ [])
      × (r.ticket ≡ p.ticket)
      × (r.reservations ≡ p.reservations)
unfolding prepared_record new_delivery_event validate_evidence
prepared_record-ok p n r h = ground arith

new_risk_event-ok :
    (n : ℕ) (a : RiskAction) (e : RiskEvent)
    → new_risk_event n a ≡ ok e
    → e ≡ record { journal_seq = n; action = a }
unfolding new_risk_event
new_risk_event-ok n a e h = ground arith

module _ ⦃big : BigUint⦄ ⦃sha : Sha256⦄ where
  validated-is : (env new : JournalEnvelope) → (validate env >> ok env) ≡ ok new → env ≡ new
  validated-is env new h = ground arith

  next_sequence-validate :
      (env : JournalEnvelope) (n : ℕ) → next_sequence env ≡ ok n → validate env ≡ ok tt
  unfolding next_sequence
  next_sequence-validate env n h = let (u, valid, rest) = >>=-eq-ok (validate env) _ h in valid

  next_sequence-ok :
      (env : JournalEnvelope) (n : ℕ)
      → next_sequence env ≡ ok n
      → (n ≡ count_events env + 1) × (max_seq (map seq (stream_of env.records env.risk_events)) < n)
  next_sequence-ok env n h =
      let valid : validate env ≡ ok tt = next_sequence-validate env n h in
      let is_next : n ≡ count_events env + 1 =
        after (count_events env) n (sym (next_sequence_lem env valid) ∙ h) in
      let most = max_seq-stream_of env.records env.risk_events in
      let count = max_seq-validate env valid in (is_next, omega (arith, is_next, most, count))
    where
      after :
          (c n : ℕ)
          → (if ltb (c + 1) (2 ^ 64) then ok (c + 1) else err sequence_overflow) ≡ ok n
          → n ≡ c + 1
      after c n h = ground arith

  history-delivery :
      (env : JournalEnvelope) (n : ℕ) (r : SendRecord) (event : DeliveryEvent)
      → next_sequence env ≡ ok n
      → r.delivery_events ≡ event ∷ []
      → event.journal_seq ≡ n
      → (history (record env { records = env.records ++ r ∷ [] })
          ≡ history env ++ delivery r event ∷ [])
        × (seq (delivery r event) ≡ count_events env + 1)
  unfolding history stream_of seq
  history-delivery env n r event h e same =
      let (is_next, above) = next_sequence-ok env n h in
      let items : delivery_items (env.records ++ r ∷ [])
          ≡ delivery_items env.records ++ delivery r event ∷ [] =
        delivery_items-append env.records r
        ∙ ap (λ (l : List DeliveryEvent). delivery_items env.records ++ map (delivery r) l) e in
      (
        ap (λ (l : List ReplayItem). sort_items (l ++ map risk env.risk_events)) items
            ∙ ap sort_items (
                append_assoc (delivery_items env.records) (delivery r event ∷ [])
                  (map risk env.risk_events))
            ∙ sort_items-greatest (delivery_items env.records) (map risk env.risk_events)
                (delivery r event) (omega (arith, above, same)),
        same ∙ is_next,
      )

  -- If `append_prepared` succeeds, then the events of the journal, in the order of their sequence
  -- numbers, are those of before and one more at the end: the Prepared event of a record with the
  -- ticket and the reservations of the prepared send, and with the number of events plus one.
  pub append_prepared-history :
      (p : PreparedRecord) (env env' : JournalEnvelope)
      → append_prepared p env ≡ (env', ok tt)
      → (r : SendRecord) × (event : DeliveryEvent) × (event.evidence ≡ prepared)
        × (r.ticket ≡ p.ticket)
        × (r.reservations ≡ p.reservations)
        × (history env' ≡ history env ++ delivery r event ∷ [])
        × (seq (delivery r event) ≡ count_events env + 1)
  unfolding append_prepared prepared_candidate
  append_prepared-history p env env' h =
      let made = commit-eq-ok env env' (prepared_candidate p env) h in
      let (n, numbered, made1) = >>=-eq-ok (next_sequence env) _ made in
      let (r, is_record, made2) = >>=-eq-ok (prepared_record p n) _ made1 in
      let (events, ticket, rows) = prepared_record-ok p n r is_record in
      let candidate : JournalEnvelope = record env { records = env.records ++ r ∷ [] } in
      let same = validated-is candidate env' made2 in
      let event : DeliveryEvent = record { journal_seq = n; evidence = prepared } in
      let (extended, counted) = history-delivery env n r event numbered events refl in
      (r, event, refl, ticket, rows, ap history (sym same) ∙ extended, counted)

  history-risk :
      (env : JournalEnvelope) (n : ℕ) (event : RiskEvent)
      → max_seq (map seq (stream_of env.records env.risk_events)) < n
      → event.journal_seq ≡ n
      → history (record env { risk_events = env.risk_events ++ event ∷ [] })
        ≡ history env ++ risk event ∷ []
  unfolding history stream_of seq
  history-risk env n event above number =
      let before : List ReplayItem = delivery_items env.records ++ map risk env.risk_events in
      let whole = append-nil before in
      let bound : max_seq (map seq (before ++ [])) < event.journal_seq =
        subst (λ (l : List ReplayItem). max_seq (map seq l) < event.journal_seq) (sym whole)
          (omega (arith, above, number)) in
      ap (λ (l : List ReplayItem). sort_items (delivery_items env.records ++ l))
        (map-append risk env.risk_events (event ∷ []))
      ∙ ap sort_items (
          sym (
            append_assoc (delivery_items env.records) (map risk env.risk_events) (risk event ∷ [])))
      ∙ sort_items-greatest before [] (risk event) bound
      ∙ ap (λ (l : List ReplayItem). sort_items l ++ risk event ∷ []) whole

  -- If `append_risk_grant` succeeds, then the events of the journal, in the order of their sequence
  -- numbers, are those of before and the grant at the end, with the number of events plus one.
  pub append_risk_grant-history :
      (g : RiskGrant) (env env' : JournalEnvelope)
      → append_risk_grant g env ≡ (env', ok tt)
      → (event : RiskEvent) × (event.action ≡ granted g)
        × (history env' ≡ history env ++ risk event ∷ [])
        × (event.journal_seq ≡ count_events env + 1)
  unfolding append_risk_grant grant_candidate
  append_risk_grant-history g env env' h =
      let made = commit-eq-ok env env' (grant_candidate g env) h in
      let (n, numbered, made1) = >>=-eq-ok (next_sequence env) _ made in
      let (event, is_event, made2) = >>=-eq-ok (new_risk_event n (granted g)) _ made1 in
      let fields = new_risk_event-ok n (granted g) event is_event in
      let candidate : JournalEnvelope = record env {
        risk_events = env.risk_events ++ event ∷ [];
      } in
      let same = validated-is candidate env' made2 in
      let (is_next, above) = next_sequence-ok env n numbered in
      let number : event.journal_seq ≡ n = ap (λ (e : RiskEvent). e.journal_seq) fields in
      (
        event,
        ap (λ (e : RiskEvent). e.action) fields,
        ap history (sym same) ∙ history-risk env n event above number,
        number ∙ is_next,
      )
