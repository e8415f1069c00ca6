-- ===== src/Digest/Rows.antt =====
-- digest.rs: evidence tags, reservations and blocker rows.
use cc_wallet_gui.Prelude.{
  ℕ, List, [], ◌∷◌, Option, none, some, Bool, true, false, not, ◌&&◌, ◌||◌, if◌then◌else◌, Outcome,
  ok, err, bytes_eq,
}
use cc_wallet_gui.Amount.{AssetAmount, native_units, amount_eq}
use cc_wallet_gui.Ids.{RecordId, Digest32}
use cc_wallet_gui.Digest.Frame.{
  DigestError, non_blocking_evidence, native_fee_requires_native_amount,
}

pub data EvidenceTag : Type 0 where
  prepared attempt_started may_have_broadcast node_response_observed : EvidenceTag
  endpoint_reported_success endpoint_reported_failed_on_chain : EvidenceTag
  verified_terminal_success verified_terminal_failed_on_chain not_broadcast : EvidenceTag

unfoldable pub tag_code : EvidenceTag → ℕ
tag_code prepared = 0x00
tag_code attempt_started = 0x01
tag_code may_have_broadcast = 0x02
tag_code node_response_observed = 0x03
tag_code endpoint_reported_success = 0x04
tag_code endpoint_reported_failed_on_chain = 0x05
tag_code verified_terminal_success = 0x06
tag_code verified_terminal_failed_on_chain = 0x07
tag_code not_broadcast = 0x08

-- `EvidenceTag::is_blocking`
unfoldable pub is_blocking : EvidenceTag → Bool
is_blocking verified_terminal_success = false
is_blocking verified_terminal_failed_on_chain = false
is_blocking not_broadcast = false
is_blocking _ = true

pub data ReservationKind : Type 0 where
  transfer native_fee : ReservationKind

unfoldable pub kind_code : ReservationKind → ℕ
kind_code transfer = 0x00
kind_code native_fee = 0x01

unfoldable pub kind_eq : ReservationKind → ReservationKind → Bool
kind_eq transfer transfer = true
kind_eq native_fee native_fee = true
kind_eq _ _ = false

unfoldable pub is_none {ℓ} : {A : Type ℓ} → Option A → Bool
is_none none = true
is_none (some _) = false

pub record BlockerRow : Type 0 where
  pub record_id : RecordId
  pub evidence : EvidenceTag
  pub external_hash : Digest32

pub record Reservation : Type 0 where
  pub record_id : RecordId
  pub amount : AssetAmount
  pub kind : ReservationKind

-- `BlockerRow::new` and `Reservation::new`
unfoldable pub new_blocker_row : RecordId → EvidenceTag → Digest32 → Outcome DigestError BlockerRow
unfolding is_blocking
new_blocker_row id evidence hash =
    if not (is_blocking evidence)
    then err non_blocking_evidence
    else ok (record { record_id = id; evidence = evidence; external_hash = hash })

unfoldable pub new_reservation :
    RecordId → AssetAmount → ReservationKind → Outcome DigestError Reservation
unfolding kind_eq is_none native_units
new_reservation id amount kind =
    if kind_eq kind native_fee && is_none (native_units amount)
    then err native_fee_requires_native_amount
    else ok (record { record_id = id; amount = amount; kind = kind })

-- The derived equality of rows.
unfoldable pub reservation_eq : Reservation → Reservation → Bool
unfolding kind_eq
reservation_eq a b =
    bytes_eq a.record_id b.record_id && amount_eq a.amount b.amount && kind_eq a.kind b.kind

-- `rows.contains(row)`
unfoldable pub contains : List Reservation → Reservation → Bool
unfolding reservation_eq
contains [] row = false
contains (r ∷ rows) row = reservation_eq r row || contains rows row
