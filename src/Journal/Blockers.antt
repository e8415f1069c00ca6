-- ===== src/Journal/Blockers.antt =====
-- journal.rs: the digests of the blocking sends against those of a risk grant.
use Prim.Native.Nat.{Ordering}
use cc_wallet_gui.Prelude.{
  List, [], ◌∷◌, ◌++◌, Bool, true, false, not, ◌&&◌, if◌then◌else◌, any, Bytes, bytes_eq,
  bytes_eq_iff, cmp_bytes, ok, ◌>>=◌, ◌>>◌, reject_if,
}
use cc_wallet_gui.External.{BigUint, Sha256}
use cc_wallet_gui.Ids.{RecordId, Digest32}
use cc_wallet_gui.Digest.{
  EvidenceTag, is_blocking, BlockerRow, new_blocker_row, blocker_set_digest, reservation_set_digest,
  Reservation, contains, overlap_set_digest,
}
use cc_wallet_gui.BTreeMap.{Key, Map}
use cc_wallet_gui.Journal.Errors.{
  invalid_reservation, grant_digest_mismatch, Journaled, from_digest,
}
use cc_wallet_gui.Journal.Ticket.{scope, scope_eq, digest_of_ticket}
use cc_wallet_gui.Journal.Record.{SendRecord}
use cc_wallet_gui.Journal.Risk.{RiskGrant}

unfoldable pub id_lt : Bytes → Bytes → Bool
unfolding cmp_bytes
id_lt a b = elim (cmp_bytes a b) [ Ordering.lt ↦ true | _ ↦ false ]

instance abbrev pub id_key : Key Bytes
id_key = record { eq = bytes_eq; lt = id_lt; eq_iff = bytes_eq_iff }

-- A record with the tag of its latest evidence, by the record's id.
abbrev pub Tracked : Type 0
Tracked = Map RecordId (SendRecord × EvidenceTag)

unfoldable pub same_signing_scope : SendRecord → SendRecord → Bool
unfolding scope_eq
same_signing_scope left right = scope_eq (scope left.ticket) (scope right.ticket)

-- The loop that collects the blocking rows and their reservations.
unfoldable pub collect_blockers :
    (SendRecord → Bool) → Tracked → Journaled (List BlockerRow × List Reservation)
unfolding is_blocking new_blocker_row
collect_blockers keep [] = ok ([], [])
collect_blockers keep ((id, (r, evidence)) ∷ active) =
    let rest = collect_blockers keep active in
    if keep r && is_blocking evidence
    then (do
      row ← from_digest (new_blocker_row id evidence r.ext_msg_hash)
      p ← rest
      ok (row ∷ p.0, r.reservations ++ p.1))
    else rest

unfoldable pub is_empty_list {ℓ} : {A : Type ℓ} → List A → Bool
is_empty_list [] = true
is_empty_list (_ ∷ _) = false

-- `if … != expected { return Err(GrantDigestMismatch) }`
unfoldable pub match_digest : Digest32 → Digest32 → Journaled (Unit {0})
unfolding bytes_eq
match_digest found expected = reject_if (not (bytes_eq found expected)) grant_digest_mismatch

module _ ⦃big : BigUint⦄ ⦃sha : Sha256⦄ where
  -- The blocker and reservation digests of a grant.
  unfoldable pub match_old_sets :
      RiskGrant → List BlockerRow → List Reservation → Journaled (Unit {0})
  unfolding match_digest
  match_old_sets grant blockers reservations = do
    b ← from_digest (blocker_set_digest blockers)
    match_digest b grant.old_blocker_set_digest
    r ← from_digest (reservation_set_digest reservations)
    match_digest r grant.old_reservation_set_digest

  unfoldable pub validate_grant_old_state : RiskGrant → Tracked → Journaled (Unit {0})
  unfolding collect_blockers is_empty_list match_old_sets
  validate_grant_old_state grant active = do
    p ← collect_blockers (λ _. true) active
    reject_if (is_empty_list p.0) grant_digest_mismatch
    match_old_sets grant p.0 p.1

  unfoldable pub validate_grant_state : RiskGrant → SendRecord → Tracked → Journaled (Unit {0})
  unfolding collect_blockers is_empty_list match_old_sets same_signing_scope contains bytes_eq
  validate_grant_state grant new_record active = do
    p ← collect_blockers (λ (r : SendRecord). same_signing_scope r new_record) active
    reject_if (is_empty_list p.0) grant_digest_mismatch
    reject_if
        (any (λ (row : Reservation). not (contains p.1 row))
          new_record.prepare_provenance.authorized_overlap)
        (invalid_reservation "authorized overlap is not a subset of active reservations")
    ticket ← digest_of_ticket new_record.ticket
    match_old_sets grant p.0 p.1
    o ← from_digest (overlap_set_digest new_record.prepare_provenance.authorized_overlap)
    match_digest o grant.overlap_reservation_set_digest
    match_digest ticket grant.new_ticket_digest
    match_digest new_record.ticket.record_id grant.new_record_id
