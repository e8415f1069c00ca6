-- ===== src/Journal/Events.antt =====
-- journal.rs, the loop of `SendRecord::validate_static` over the events of a record.
use cc_wallet_gui.Prelude.{
  ℕ, ◌+◌, ◌<◌, List, [], ◌∷◌, ◌++◌, Option, none, some, Bool, true, false, not, ◌&&◌, ◌≡◌, refl,
  sym, arith, leb, length, ok, reject_if, >>=-eq-ok, reject_if-eq-ok,
}
use cc_wallet_gui.Digest.{is_blocking}
use cc_wallet_gui.Journal.Errors.{invalid_delivery, sequence_gap}
use cc_wallet_gui.Journal.Evidence.{
  DeliveryEvidence, prepared, tag, validate_evidence, is_prepared, is_terminal,
  valid_delivery_transition, DeliveryEvent,
}
use cc_wallet_gui.Journal.Record.{SendRecord, check_events, may_follow}
use cc_wallet_gui.Journal.Evidence.{
  attempt_started, may_have_broadcast, node_response_observed, endpoint_reported_success,
  endpoint_reported_failed_on_chain, verified_terminal,
}
use cc_wallet_gui.Journal.Record.{check_binding, starts_prepared}
use cc_wallet_gui.Journal.Sequence.{count_up}

-- The attempt was perhaps sent, so that it can no longer be called back or tried again.
unfoldable pub is_sent : DeliveryEvidence → Bool
is_sent (may_have_broadcast _ _) = true
is_sent (node_response_observed _ _ _ _) = true
is_sent (endpoint_reported_success _) = true
is_sent (endpoint_reported_failed_on_chain _) = true
is_sent _ = false

-- What a chain reports of a message, unproved or proved.
unfoldable pub is_settlement : DeliveryEvidence → Bool
is_settlement (endpoint_reported_success _) = true
is_settlement (endpoint_reported_failed_on_chain _) = true
is_settlement (verified_terminal _ _) = true
is_settlement _ = false

pub sent_then :
    (p q : DeliveryEvidence)
    → is_sent p ≡ true
    → valid_delivery_transition p q ≡ true
    → is_settlement q ≡ true
unfolding is_sent is_settlement valid_delivery_transition
sent_then p q h t = ground arith

pub settlement_then :
    (p q : DeliveryEvidence)
    → is_settlement p ≡ true
    → valid_delivery_transition p q ≡ true
    → is_settlement q ≡ true
unfolding is_settlement valid_delivery_transition
settlement_then p q h t = ground arith

-- A round of the loop that succeeds.
pub check_events-cons :
    (r : SendRecord) (prior : ℕ) (terminal : Bool) (previous : Option DeliveryEvidence)
    (event : DeliveryEvent) (events : List DeliveryEvent)
    → check_events r prior terminal previous (event ∷ events) ≡ ok tt
    → (may_follow previous event.evidence ≡ true)
      × (prior < event.journal_seq)
      × (terminal ≡ false)
      × (check_events r event.journal_seq (is_terminal event.evidence) (some event.evidence) events
          ≡ ok tt)
unfolding check_events
check_events-cons r prior terminal previous event events h =
    let (u, a, h1) = >>=-eq-ok (validate_evidence event.evidence) _ h in
    let (u1, b, h2) =
      >>=-eq-ok
        (reject_if (not (may_follow previous event.evidence))
          (invalid_delivery "delivery evidence transition is not monotone or attempt-bound"))
        _ h1 in
    let (u2, c, h3) = >>=-eq-ok (check_binding r event.evidence) _ h2 in
    let (u3, d, h4) = >>=-eq-ok (reject_if (leb event.journal_seq prior) sequence_gap) _ h3 in
    let (u4, e, h5) =
      >>=-eq-ok
        (reject_if terminal (invalid_delivery "no event may follow durable terminal evidence")) _
        h4 in
    (
      ground (arith, reject_if-eq-ok _ _ b),
      ground (arith, reject_if-eq-ok _ _ d),
      reject_if-eq-ok _ _ e,
      h5,
    )

pub check_events-append :
    (r : SendRecord) (prior : ℕ) (terminal : Bool) (previous : Option DeliveryEvidence)
    (past : List DeliveryEvent) (event : DeliveryEvent) (rest : List DeliveryEvent)
    → check_events r prior terminal previous (past ++ event ∷ rest) ≡ ok tt
    → check_events r event.journal_seq (is_terminal event.evidence) (some event.evidence) rest
      ≡ ok tt
check_events-append r prior terminal previous [] event rest h =
    let (m, l, t, next) = check_events-cons r prior terminal previous event rest h in next
check_events-append r prior terminal previous (e ∷ past) event rest h =
    let (m, l, t, next) = check_events-cons r prior terminal previous e (past ++ event ∷ rest) h in
    check_events-append r e.journal_seq (is_terminal e.evidence) (some e.evidence) past event rest
      next

unfoldable pub all_settle : List DeliveryEvent → Bool
unfolding is_settlement
all_settle [] = true
all_settle (e ∷ events) = is_settlement e.evidence && all_settle events

pub settlement-all_settle :
    (r : SendRecord) (prior : ℕ) (terminal : Bool) (p : DeliveryEvidence)
    (events : List DeliveryEvent)
    → is_settlement p ≡ true
    → check_events r prior terminal (some p) events ≡ ok tt
    → all_settle events ≡ true
unfolding all_settle may_follow
settlement-all_settle r prior terminal p [] s h = refl
settlement-all_settle r prior terminal p (e ∷ events) s h =
    let (m, l, t, next) = check_events-cons r prior terminal (some p) e events h in
    let settles = settlement_then p e.evidence s m in
    ground (
      arith,
      settles,
      settlement-all_settle r e.journal_seq (is_terminal e.evidence) e.evidence events settles next,
    )

pub sent-all_settle :
    (r : SendRecord) (prior : ℕ) (terminal : Bool) (p : DeliveryEvidence)
    (events : List DeliveryEvent)
    → is_sent p ≡ true
    → check_events r prior terminal (some p) events ≡ ok tt
    → all_settle events ≡ true
unfolding all_settle may_follow
sent-all_settle r prior terminal p [] s h = refl
sent-all_settle r prior terminal p (e ∷ events) s h =
    let (m, l, t, next) = check_events-cons r prior terminal (some p) e events h in
    let settles = sent_then p e.evidence s m in
    ground (
      arith,
      settles,
      settlement-all_settle r e.journal_seq (is_terminal e.evidence) e.evidence events settles next,
    )

pub terminal-nil :
    (r : SendRecord) (prior : ℕ) (previous : Option DeliveryEvidence) (events : List DeliveryEvent)
    → check_events r prior true previous events ≡ ok tt
    → events ≡ []
terminal-nil r prior previous [] h = refl
terminal-nil r prior previous (e ∷ events) h =
    let (m, l, t, next) = check_events-cons r prior true previous e events h in cc

unfoldable pub attempt_of : DeliveryEvidence → Option ℕ
attempt_of (attempt_started n _) = some n
attempt_of _ = none

-- The number that the next attempt must have, if another may start.
unfoldable pub next_no : DeliveryEvidence → Option ℕ
next_no prepared = some 1
next_no (attempt_started n _) = some (n + 1)
next_no _ = none

abbrev pub prepend : Option ℕ → List ℕ → List ℕ
prepend none ns = ns
prepend (some n) ns = n ∷ ns

unfoldable pub attempt_nos : List DeliveryEvent → List ℕ
unfolding attempt_of
attempt_nos [] = []
attempt_nos (e ∷ events) = prepend (attempt_of e.evidence) (attempt_nos events)

abbrev pub count_next : Option ℕ → ℕ → List ℕ
count_next none n = []
count_next (some k) n = count_up k n

pub count_next-zero : (o : Option ℕ) → count_next o 0 ≡ []
count_next-zero none = refl
count_next-zero (some k) = refl

pub attempts_then :
    (p q : DeliveryEvidence) (ns : List ℕ)
    → valid_delivery_transition p q ≡ true
    → ns ≡ count_next (next_no q) (length ns)
    → prepend (attempt_of q) ns ≡ count_next (next_no p) (length (prepend (attempt_of q) ns))
unfolding valid_delivery_transition attempt_of next_no
attempts_then p q [] t h = ground arith
attempts_then p q (n ∷ ns) t h = ground arith

pub attempt_nos-next_no :
    (r : SendRecord) (prior : ℕ) (terminal : Bool) (p : DeliveryEvidence)
    (events : List DeliveryEvent)
    → check_events r prior terminal (some p) events ≡ ok tt
    → attempt_nos events ≡ count_next (next_no p) (length (attempt_nos events))
unfolding attempt_nos may_follow
attempt_nos-next_no r prior terminal p [] h = sym (count_next-zero (next_no p))
attempt_nos-next_no r prior terminal p (e ∷ events) h =
    let (m, l, t, next) = check_events-cons r prior terminal (some p) e events h in
    attempts_then p e.evidence (attempt_nos events) m
      (attempt_nos-next_no r e.journal_seq (is_terminal e.evidence) e.evidence events next)

pub unblocking : (e : DeliveryEvidence) → is_blocking (tag e) ≡ false → is_terminal e ≡ true
unfolding is_blocking tag is_terminal
unblocking e b = ground arith

pub prepared-next_no :
    (p : DeliveryEvidence) → is_prepared p ≡ true → (next_no p ≡ some 1) × (attempt_of p ≡ none)
unfolding is_prepared next_no attempt_of
prepared-next_no p h = ground arith

pub numbered :
    (r : SendRecord) (events : List DeliveryEvent)
    → starts_prepared events ≡ true
    → check_events r 0 false none events ≡ ok tt
    → attempt_nos events ≡ count_up 1 (length (attempt_nos events))
unfolding attempt_nos starts_prepared
numbered r [] s h = refl
numbered r (e ∷ events) s h =
    let (m, l, t, next) = check_events-cons r 0 false none e events h in
    let (next_is, no_number) = prepared-next_no e.evidence (ground arith) in
    let rest =
      attempt_nos-next_no r e.journal_seq (is_terminal e.evidence) e.evidence events next in
    ground (arith, no_number, next_is, rest)
