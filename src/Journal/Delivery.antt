-- ===== src/Journal/Delivery.antt =====
-- journal.rs, `SendRecord::validate_static`: the life of a record, from Prepared over attempts and
-- reports to a terminal event.
use cc_wallet_gui.Prelude.{
  List, [], ◌∷◌, ◌++◌, none, some, Bool, true, false, ◌≡◌, sym, ap, ◌∙◌, arith, length, ok,
}
use cc_wallet_gui.External.{BigUint}
use cc_wallet_gui.Digest.{is_blocking}
use cc_wallet_gui.Journal.Evidence.{tag, is_terminal, DeliveryEvent}
use cc_wallet_gui.Journal.Record.{SendRecord, validate_static, check_events}
use cc_wallet_gui.Journal.Record.{starts_prepared}
use cc_wallet_gui.Journal.Sequence.{count_up}
use cc_wallet_gui.Journal.Events.{
  is_sent, check_events-append, all_settle, sent-all_settle, terminal-nil, attempt_nos, unblocking,
  numbered,
}

module _ ⦃big : BigUint⦄ where
  checked_events :
      (r : SendRecord)
      → validate_static r ≡ ok tt
      → check_events r 0 false none r.delivery_events ≡ ok tt
  unfolding validate_static
  checked_events r h = ground arith

  starts : (r : SendRecord) → validate_static r ≡ ok tt → starts_prepared r.delivery_events ≡ true
  unfolding validate_static
  starts r h = ground arith

  -- In a record that `validate_static` accepts, every event after one that shows that the message
  -- was perhaps sent (`MayHaveBroadcast`, a node's response, an endpoint's report) is an endpoint's
  -- report or a verified terminal event: no attempt starts again and nothing calls it not broadcast.
  pub sent-settles :
      (r : SendRecord) (past rest : List DeliveryEvent) (event : DeliveryEvent)
      → validate_static r ≡ ok tt
      → r.delivery_events ≡ past ++ event ∷ rest
      → is_sent event.evidence ≡ true
      → all_settle rest ≡ true
  sent-settles r past rest event h at_event s =
      sent-all_settle r event.journal_seq (is_terminal event.evidence) event.evidence rest s (
        check_events-append r 0 false none past event rest
          (sym (ap (check_events r 0 false none) at_event) ∙ checked_events r h))

  -- In a record that `validate_static` accepts, an event whose tag no longer blocks further sends
  -- is the last one.
  pub unblocking-last :
      (r : SendRecord) (past rest : List DeliveryEvent) (event : DeliveryEvent)
      → validate_static r ≡ ok tt
      → r.delivery_events ≡ past ++ event ∷ rest
      → is_blocking (tag event.evidence) ≡ false
      → rest ≡ []
  unblocking-last r past rest event h at_event b =
      let ends : is_terminal event.evidence ≡ true = unblocking event.evidence b in
      terminal-nil r event.journal_seq (some event.evidence) rest (
        sym (ap (λ (t : Bool). check_events r event.journal_seq t (some event.evidence) rest) ends)
        ∙ check_events-append r 0 false none past event rest
            (sym (ap (check_events r 0 false none) at_event) ∙ checked_events r h))

  -- The attempts that a record's events start, if `validate_static` accepts it, are numbered
  -- 1, 2, …, k without a gap, whatever other events stand between them.
  pub attempt_nos-count_up :
      (r : SendRecord)
      → validate_static r ≡ ok tt
      → attempt_nos r.delivery_events ≡ count_up 1 (length (attempt_nos r.delivery_events))
  attempt_nos-count_up r h = numbered r r.delivery_events (starts r h) (checked_events r h)
