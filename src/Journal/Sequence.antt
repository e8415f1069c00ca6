-- ===== src/Journal/Sequence.antt =====
-- The sequence numbers of an accepted journal.
use cc_wallet_gui.Prelude.{
  ℕ, zero, suc, ◌+◌, List, [], ◌∷◌, false, ◌≡◌, refl, ap, ◌∙◌, inl, inr, arith, subst, leb, length,
  ok, map, Bool-cases, >>=-eq-ok, reject_if-eq-ok,
}
use cc_wallet_gui.External.{BigUint, Sha256}
use cc_wallet_gui.Journal.Record.{SendRecord}
use mathlib.Core.List.{Perm}
use mathlib.Core.List.Perm
use cc_wallet_gui.Journal.Risk.{RiskEvent}
use cc_wallet_gui.Journal.Replay.{
  ReplayItem, seq, stream_of, insert_item, sort_items, check_sequence, check_records, first_scope,
  replay_all, initial, is_some, validate_replay, ReplayState,
}

abbrev pub count_up : ℕ → ℕ → List ℕ
count_up k zero = []
count_up k (suc n) = k ∷ count_up (k + 1) n

insert_item-Perm : (x : ReplayItem) (l : List ReplayItem) → Perm (insert_item x l) (x ∷ l)
unfolding insert_item
insert_item-Perm x [] = Perm.refl (x ∷ [])
insert_item-Perm x (y ∷ l) = elim (Bool-cases (leb (seq x) (seq y))) [
  | inl e ↦ rw e (Perm.refl (x ∷ y ∷ l))
  | inr e ↦ rw e (Perm.trans (Perm.cons y (insert_item-Perm x l)) (Perm.swap x y l))
]

pub sort_items-Perm : (l : List ReplayItem) → Perm (sort_items l) l
unfolding sort_items
sort_items-Perm [] = Perm.refl []
sort_items-Perm (x ∷ l) =
    Perm.trans (insert_item-Perm x (sort_items l)) (Perm.cons x (sort_items-Perm l))

pub check_sequence-count_up :
    (index : ℕ) (items : List ReplayItem) {u : Unit {0}}
    → check_sequence index items ≡ ok u
    → map seq items ≡ count_up (index + 1) (length items)
unfolding check_sequence
check_sequence-count_up index [] h = refl
check_sequence-count_up index (item ∷ items) h =
    ground (arith, check_sequence-count_up (index + 1) items)

length-insert_item :
    (x : ReplayItem) (l : List ReplayItem) → length (insert_item x l) ≡ suc (length l)
unfolding insert_item
length-insert_item x [] = refl
length-insert_item x (y ∷ l) = ground (arith, length-insert_item x l)

pub length-sort_items : (l : List ReplayItem) → length (sort_items l) ≡ length l
unfolding sort_items
length-sort_items [] = refl
length-sort_items (x ∷ l) = length-insert_item x (sort_items l) ∙ ap suc (length-sort_items l)

module _ ⦃big : BigUint⦄ ⦃sha : Sha256⦄ where
  -- What an accepted replay has passed.
  pub record Accepted (records : List SendRecord) (risk_events : List RiskEvent) : Type 0 where
    pub checked : check_records (first_scope records) [] records ≡ ok tt
    pub in_sequence : check_sequence 0 (sort_items (stream_of records risk_events)) ≡ ok tt
    pub final : ReplayState
    pub replayed : replay_all (sort_items (stream_of records risk_events)) initial ≡ ok final
    pub settled : is_some final.pending ≡ false

  pub validate_replay-Accepted :
      (records : List SendRecord) (risk_events : List RiskEvent) {u : Unit {0}}
      → validate_replay records risk_events ≡ ok u
      → Accepted records risk_events
  unfolding validate_replay
  validate_replay-Accepted records risk_events h =
      let stream = sort_items (stream_of records risk_events) in
      let (u, c, h1) = >>=-eq-ok (check_records (first_scope records) [] records) _ h in
      let (u', s, h2) = >>=-eq-ok (check_sequence 0 stream) _ h1 in
      let (end, r, h3) = >>=-eq-ok (replay_all stream initial) _ h2 in
      record {
        checked = c;
        in_sequence = s;
        final = end;
        replayed = r;
        settled = reject_if-eq-ok _ _ h3;
      }

  -- The sequence numbers of an accepted journal, over all delivery and risk events, are a
  -- rearrangement of 1, 2, …, n, where n is the number of events.
  pub validate_replay-Perm :
      (records : List SendRecord) (risk_events : List RiskEvent)
      → validate_replay records risk_events ≡ ok tt
      → Perm
          (map seq (stream_of records risk_events))
          (count_up 1 (length (stream_of records risk_events)))
  validate_replay-Perm records risk_events h =
      let items = stream_of records risk_events in
      let accepted = validate_replay-Accepted records risk_events h in
      let sorted = check_sequence-count_up 0 (sort_items items) accepted.in_sequence in
      subst (λ (l : List ℕ). Perm (map seq items) l)
        (sorted ∙ ap (count_up 1) (length-sort_items items))
        (Perm.map seq (Perm.symm (sort_items-Perm items)))
