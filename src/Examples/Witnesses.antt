-- ===== src/Examples/Witnesses.antt =====
-- The theorems applied to concrete inputs.
use cc_wallet_gui.Prelude.{
  ◌+◌, ◌^◌, ◌<◌, ◌≤◌, List, [], ◌∷◌, ◌++◌, some, true, false, ◌≡◌, ◌≢◌, refl, ◌↔◌, arith,
  if◌then◌else◌, ltb, ◌==◌, All, length, Bytes, ok, err, panic, map,
}
use cc_wallet_gui.Amount.{AssetAmount}
use cc_wallet_gui.Digest.{EvidenceTag, is_blocking, Reservation}
use cc_wallet_gui.Affordability.{is_affordable}
use cc_wallet_gui.Affordability.Evaluate.{evaluate_affordability}
use cc_wallet_gui.Journal.Errors.{sequence_overflow}
use cc_wallet_gui.Journal.Evidence.{prepared, tag, is_prepared, DeliveryEvent}
use cc_wallet_gui.Journal.Record.{SendRecord, validate_static}
use cc_wallet_gui.Journal.Risk.{RiskGrant}
use cc_wallet_gui.Prelude.{codes}
use cc_wallet_gui.Decimal.{value}
use cc_wallet_gui.External.{IsByte}
use cc_wallet_gui.External.Instances.{reference_big, reference_sha}
use cc_wallet_gui.Asset.{native, currency_collection, is_sendable}
use cc_wallet_gui.Amount.{
  native_amount, cc_amount, AmountError, checked_add_same_asset, checked_sub_same_asset, is_zero,
  to_be_bytes_31, from_be_bytes_31, native_units_from_canonical_decimal, cc_from_canonical_decimal,
  to_canonical_decimal, native_max_units,
}
use cc_wallet_gui.Amount.Arithmetic.{
  units, InDomain, add_amounts, sub_amounts, checked_same_asset_lem, checked_sub-checked_add,
  is_zero-units, from_be_bytes_31-to_be_bytes_31,
}
use cc_wallet_gui.Amount.Canonical.{
  native_units_from_canonical_decimal_iff, cc_from_canonical_decimal_iff,
  cc_from_canonical_decimal-to_canonical_decimal,
}
use cc_wallet_gui.Decimal.Canonical.{IsCanonical}
use cc_wallet_gui.Ids.{to_hex, try_from_hex}
use cc_wallet_gui.Ids.RoundTrip.{try_from_hex-to_hex, to_hex-try_from_hex}
use cc_wallet_gui.Journal.Evidence.{attempt_started, may_have_broadcast, not_broadcast}
use cc_wallet_gui.Journal.Replay.{delivery, risk, stream_of, seq}
use cc_wallet_gui.Journal.History.{is_consumed, grant_of, latest}
use cc_wallet_gui.Journal.Sequence.{count_up, validate_replay-Perm}
use cc_wallet_gui.Journal.Signing.{AuthorizedBy, Agrees}
use cc_wallet_gui.Journal.Grants.{BeginsWith, prepared-AuthorizedBy, consumption-once}
use cc_wallet_gui.Journal.Events.{is_sent, all_settle, attempt_nos}
use cc_wallet_gui.Journal.Delivery.{sent-settles, unblocking-last, attempt_nos-count_up}
use cc_wallet_gui.Affordability.Spec.{Fits}
use cc_wallet_gui.Affordability.Theorems.{is_affordable-evaluate, evaluate_affordability-ne-panic}
use cc_wallet_gui.Envelope.{empty, validate, next_sequence}
use cc_wallet_gui.Envelope.Sequence.{next_sequence_lem, count_events}
use cc_wallet_gui.Envelope.Theorems.{prepare, run, start, after, Reachable-validate}
use cc_wallet_gui.Examples.Fixtures.{
  id_of, route, prepared_of, event_at, record_of, first_events, first, second, consumption_2,
  consumption_event, journal, journal-validate, journal-replayed, past_items, journal-stream,
}
use cc_wallet_gui.Journal.Blockers.{same_signing_scope}
use cc_wallet_gui.Digest.{ticket}
use cc_wallet_gui.Digest.Frame.{preimage}
use cc_wallet_gui.Digest.Injective.{preimage_injective}
use cc_wallet_gui.Amount.{asset_id}
use cc_wallet_gui.Amount.Send.{parse_send_amount, format_fixed9_amount}
use cc_wallet_gui.Amount.SendRoundTrip.{parse_send_amount-format_fixed9_amount}
use cc_wallet_gui.Journal.Domain.{ItemInDomain}
use cc_wallet_gui.Journal.Affordable.{FitsAfter, prepared-FitsAfter}
use cc_wallet_gui.Journal.Evidence.{verified_terminal, success}
use mathlib.Core.List.{Perm}

prepared-AuthorizedBy_example : AuthorizedBy (past_items ++ risk consumption_event ∷ []) second
prepared-AuthorizedBy_example =
    prepared-AuthorizedBy journal.records journal.risk_events
      (past_items ++ risk consumption_event ∷ []) [] second (event_at 6 prepared) (id_of 1) first
      EvidenceTag.may_have_broadcast journal-replayed journal-stream (unfold is_prepared in refl)
      (unfold latest in refl) (unfold same_signing_scope in refl) (unfold is_blocking in refl)

consumption-once_example :
    (is_consumed (id_of 7) past_items ≡ false)
    × ((g : RiskGrant) × (grant_of (id_of 7) past_items ≡ some g) × Agrees g consumption_2)
    × BeginsWith consumption_2 (delivery second (event_at 6 prepared) ∷ [])
consumption-once_example =
    consumption-once journal.records journal.risk_events past_items
      (delivery second (event_at 6 prepared) ∷ []) consumption_event consumption_2 journal-replayed
      journal-stream refl

Reachable-validate_example : validate (run (prepare (prepared_of 1)) empty).0 ≡ ok tt
Reachable-validate_example = Reachable-validate (after (prepare (prepared_of 1)) empty start)

next_sequence_example : next_sequence journal ≡ (
    if ltb (count_events journal + 1) (2 ^ 64)
    then ok (count_events journal + 1)
    else err sequence_overflow)
next_sequence_example = next_sequence_lem journal journal-validate

abbrev native_100 : List AssetAmount
native_100 = native_amount 100 ∷ []

abbrev native_5 : List AssetAmount
native_5 = native_amount 5 ∷ []

abbrev held : List Reservation
held = first.reservations

is_affordable-evaluate_example :
    (is_affordable (
        record {
          asset = native;
          balance = native_amount 100;
          reserved = some (native_amount 15);
          available = some (native_amount 85);
          requested = native_amount 5;
          reservation_components = native_amount 15 ∷ [];
          worst_case = some (native_amount 20);
          sufficient = true;
          worst_case_warns = false;
        }
        ∷ [])
      ≡ true)
    ↔ Fits native_100 held [] native_5
is_affordable-evaluate_example =
    is_affordable-evaluate native_100 held [] native_5 _ (omega arith, tt) (omega arith, tt)
      (omega arith, tt) (unfold evaluate_affordability in refl)

evaluate_affordability-ne-panic_example : evaluate_affordability native_100 held [] native_5 ≢ panic
evaluate_affordability-ne-panic_example =
    evaluate_affordability-ne-panic native_100 held [] native_5 (omega arith, tt) (omega arith, tt)
      (omega arith, tt)

abbrev before_sent : List DeliveryEvent
before_sent = event_at 1 prepared ∷ event_at 2 (attempt_started 1 route) ∷ []

abbrev proved_events : List DeliveryEvent
proved_events = event_at 4 (verified_terminal success (codes "proof")) ∷ []

abbrev proved : SendRecord
proved = record_of 1 (first_events ++ proved_events)

sent-settles_example : all_settle proved_events ≡ true
sent-settles_example =
    sent-settles proved before_sent proved_events (event_at 3 (may_have_broadcast 1 route))
      (unfold validate_static in refl) refl (unfold is_sent in refl)

abbrev cancelled : SendRecord
cancelled =
    record_of 1 (event_at 1 prepared ∷ event_at 2 (not_broadcast route (codes "closed")) ∷ [])

unblocking-last_example : ◌≡◌ {A = List DeliveryEvent} [] []
unblocking-last_example =
    unblocking-last cancelled (event_at 1 prepared ∷ []) []
      (event_at 2 (not_broadcast route (codes "closed"))) (unfold validate_static in refl) refl
      (unfold is_blocking in unfold tag in refl)

attempt_nos-count_up_example :
    attempt_nos first_events ≡ count_up 1 (length (attempt_nos first_events))
attempt_nos-count_up_example = attempt_nos-count_up first (unfold validate_static in refl)

validate_replay-Perm_example :
    Perm
      (map seq (stream_of journal.records journal.risk_events))
      (count_up 1 (length (stream_of journal.records journal.risk_events)))
validate_replay-Perm_example =
    validate_replay-Perm journal.records journal.risk_events journal-replayed

same_asset_example :
    (checked_add_same_asset (cc_amount 1 2) (cc_amount 1 3)
      ≡ add_amounts (cc_amount 1 2) (cc_amount 1 3))
    × (checked_sub_same_asset (cc_amount 1 2) (cc_amount 1 3)
        ≡ sub_amounts (cc_amount 1 2) (cc_amount 1 3))
same_asset_example =
    checked_same_asset_lem (cc_amount 1 2) (cc_amount 1 3) (omega arith) (omega arith)

checked_sub-checked_add_example :
    InDomain (native_amount 5)
    × (checked_sub_same_asset (native_amount 5) (native_amount 3) ≡ ok (native_amount 2))
checked_sub-checked_add_example =
    checked_sub-checked_add (native_amount 2) (native_amount 3) (omega arith) (omega arith)
      (unfold checked_add_same_asset in refl)

is_zero-units_example : is_zero (cc_amount 1 0) ≡ (units (cc_amount 1 0) == 0)
is_zero-units_example = is_zero-units (cc_amount 1 0)

be_bytes_31_example :
    (s : Bytes) × (to_be_bytes_31 {E = AmountError} 258 ≡ ok s)
    × (length s ≡ 31)
    × (from_be_bytes_31 s ≡ 258)
be_bytes_31_example = from_be_bytes_31-to_be_bytes_31 258 (omega arith)

native_units_example :
    (native_units_from_canonical_decimal (codes "12") ≡ ok 12)
    ↔ (IsCanonical (codes "12") × (value (codes "12") ≡ 12) × (12 ≤ native_max_units))
native_units_example = native_units_from_canonical_decimal_iff (codes "12") 12

cc_units_example :
    (cc_from_canonical_decimal (codes "12") ≡ ok 12)
    ↔ (IsCanonical (codes "12") × (value (codes "12") ≡ 12) × (12 < 2 ^ 248))
cc_units_example = cc_from_canonical_decimal_iff (codes "12") 12

cc_decimal_example : cc_from_canonical_decimal (to_canonical_decimal 12) ≡ ok 12
cc_decimal_example = cc_from_canonical_decimal-to_canonical_decimal 12 (omega arith)

bytes_32 : All IsByte (id_of 7)
bytes_32 = ground arith

hex_example : try_from_hex (to_hex (id_of 7)) ≡ ok (id_of 7)
hex_example = try_from_hex-to_hex (id_of 7) refl bytes_32

abbrev hex_7 : Bytes
hex_7 = codes "0707070707070707070707070707070707070707070707070707070707070707"

hex_text_example : (to_hex (id_of 7) ≡ hex_7) × (length (id_of 7) ≡ 32) × All IsByte (id_of 7)
hex_text_example = to_hex-try_from_hex hex_7 (id_of 7) (unfold try_from_hex in refl)

send_text_example :
    (text : Bytes) × (format_fixed9_amount (cc_amount 2 7) ≡ ok text)
    × (parse_send_amount (currency_collection 2) text ≡ ok (cc_amount 2 7))
unfolding is_sendable asset_id
send_text_example =
    parse_send_amount-format_fixed9_amount (cc_amount 2 7) (omega arith) (omega arith) refl

preimage_injective_example : (ticket ≡ ticket) × ((id_of 1 ∷ []) ≡ (id_of 1 ∷ []))
preimage_injective_example =
    preimage_injective ticket ticket (id_of 1 ∷ []) (id_of 1 ∷ [])
      (codes "cc-wallet/journal-v1/ticket" ++ 0 ∷ 0 ∷ 1 ∷ 0 ∷ 0 ∷ 0 ∷ 32 ∷ id_of 1)
      (unfold preimage in refl) (unfold preimage in refl)

prepared-FitsAfter_example : FitsAfter (past_items ++ risk consumption_event ∷ []) second
unfolding ItemInDomain
prepared-FitsAfter_example =
    prepared-FitsAfter journal.records journal.risk_events
      (past_items ++ risk consumption_event ∷ []) [] second (event_at 6 prepared) journal-replayed
      journal-stream (unfold is_prepared in refl) (ground arith) (ground arith) (ground arith)
