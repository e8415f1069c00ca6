-- ===== src/Envelope/Sequence.antt =====
-- envelope.rs, `next_sequence`: the sequence number that the next event of an envelope gets.
use cc_wallet_gui.Prelude.{
  ℕ, zero, suc, ◌+◌, ◌^◌, List, [], ◌∷◌, ◌++◌, ◌≡◌, refl, ap, arith, if◌then◌else◌, ltb, ◌==◌,
  length, ok, err, map,
}
use cc_wallet_gui.External.{BigUint, Sha256}
use cc_wallet_gui.Journal.Errors.{sequence_overflow}
use cc_wallet_gui.Journal.Evidence.{DeliveryEvent}
use cc_wallet_gui.Journal.Record.{SendRecord}
use cc_wallet_gui.Journal.Risk.{RiskEvent}
use mathlib.Core.List.{map-append}
use cc_wallet_gui.Journal.Replay.{
  ReplayItem, delivery, risk, seq, delivery_items, stream_of, insert_item, sort_items,
}
use cc_wallet_gui.Journal.Sequence.{
  count_up, validate_replay-Accepted, check_sequence-count_up, length-sort_items,
}
use cc_wallet_gui.Envelope.{
  JournalEnvelope, max_seq, delivery_seqs, risk_seqs, next_sequence_after, validate, next_sequence,
}

abbrev max2 : ℕ → ℕ → ℕ
max2 a b = if ltb a b then b else a

max_seq-append : (a b : List ℕ) → max_seq (a ++ b) ≡ max2 (max_seq a) (max_seq b)
unfolding max_seq
max_seq-append [] b = ground arith
max_seq-append (n ∷ a) b = ground (arith, max_seq-append a b)

max_seq-insert_item :
    (x : ReplayItem) (l : List ReplayItem)
    → max_seq (map seq (insert_item x l)) ≡ max2 (seq x) (max_seq (map seq l))
unfolding max_seq insert_item
max_seq-insert_item x [] = ground arith
max_seq-insert_item x (y ∷ l) = ground (arith, max_seq-insert_item x l)

pub max_seq-sort_items :
    (l : List ReplayItem) → max_seq (map seq (sort_items l)) ≡ max_seq (map seq l)
unfolding max_seq sort_items
max_seq-sort_items [] = refl
max_seq-sort_items (x ∷ l) =
    ground (arith, max_seq-insert_item x (sort_items l), max_seq-sort_items l)

max_seq-count_up : (k n : ℕ) → max_seq (count_up (k + 1) n) ≡ (if n == 0 then 0 else k + n)
unfolding max_seq
max_seq-count_up k zero = refl
max_seq-count_up k (suc n) = ground (arith, max_seq-count_up (k + 1) n)

map-seq-delivery :
    (r : SendRecord) (events : List DeliveryEvent)
    → map seq (map (delivery r) events) ≡ map (λ (e : DeliveryEvent). e.journal_seq) events
unfolding seq
map-seq-delivery r [] = refl
map-seq-delivery r (e ∷ events) = ap (λ (l : List ℕ). e.journal_seq ∷ l) (map-seq-delivery r events)

map-seq-risk : (events : List RiskEvent) → map seq (map risk events) ≡ risk_seqs events
unfolding seq risk_seqs
map-seq-risk [] = refl
map-seq-risk (e ∷ events) = ap (λ (l : List ℕ). e.journal_seq ∷ l) (map-seq-risk events)

map-seq-delivery_items :
    (records : List SendRecord) → map seq (delivery_items records) ≡ delivery_seqs records
unfolding delivery_items delivery_seqs
map-seq-delivery_items [] = refl
map-seq-delivery_items (r ∷ records) = rw (
  map-append seq (map (delivery r) r.delivery_events) (delivery_items records),
  map-seq-delivery r r.delivery_events,
  map-seq-delivery_items records,
)

pub max_seq-stream_of :
    (records : List SendRecord) (events : List RiskEvent)
    → max_seq (map seq (stream_of records events))
      ≡ max2 (max_seq (delivery_seqs records)) (max_seq (risk_seqs events))
unfolding stream_of
max_seq-stream_of records events =
    rw
      (
        map-append seq (delivery_items records) (map risk events),
        map-seq-delivery_items records,
        map-seq-risk events,
      )
      (max_seq-append (delivery_seqs records) (risk_seqs events))

-- The number of events of an envelope, deliveries and risk events together.
unfoldable pub count_events : JournalEnvelope → ℕ
unfolding stream_of
count_events env = length (stream_of env.records env.risk_events)

module _ ⦃big : BigUint⦄ ⦃sha : Sha256⦄ where
  pub max_seq-validate :
      (env : JournalEnvelope)
      → validate env ≡ ok tt
      → max2 (max_seq (delivery_seqs env.records)) (max_seq (risk_seqs env.risk_events))
        ≡ count_events env
  unfolding validate count_events
  max_seq-validate env h =
      let items = stream_of env.records env.risk_events in
      let accepted = validate_replay-Accepted env.records env.risk_events h in
      let sorted = check_sequence-count_up 0 (sort_items items) accepted.in_sequence in
      ground (
        arith,
        max_seq-stream_of env.records env.risk_events,
        max_seq-sort_items items,
        ap max_seq sorted,
        max_seq-count_up 0 (length (sort_items items)),
        length-sort_items items,
      )

  -- An envelope that validates, with n events and n + 1 below 2 ^ 64, gives its next event the
  -- sequence number n + 1; at the end of the `u64` range it reports the overflow.
  pub next_sequence_lem :
      (env : JournalEnvelope)
      → validate env ≡ ok tt
      → next_sequence env ≡ (
          if ltb (count_events env + 1) (2 ^ 64)
          then ok (count_events env + 1)
          else err sequence_overflow)
  unfolding next_sequence next_sequence_after
  next_sequence_lem env h = rw (h, max_seq-validate env h) refl
