-- ===== src/Journal/Errors.antt =====
-- `JournalError`.
use cc_wallet_gui.Prelude.{String, Outcome, ok, err, panic}
use Prim.Native.String.{◌++◌}
use cc_wallet_gui.Digest.{DigestError, digest_error_text}

pub data JournalError : Type 0 where
  invalid_ticket invalid_provenance invalid_reservation invalid_delivery : String → JournalError
  duplicate_record sequence_zero sequence_gap sequence_overflow : JournalError
  orphan_consumption unsupported_warning_version consumption_mismatch : JournalError
  consumption_not_adjacent duplicate_consumption ordinary_signing_blocked : JournalError
  grant_digest_mismatch : JournalError
  digest_failed : DigestError → JournalError

-- `Display`
unfoldable pub journal_error_text : JournalError → String
unfolding digest_error_text
journal_error_text (invalid_ticket detail) = "invalid send ticket: " ++ detail
journal_error_text (invalid_provenance detail) = "invalid prepare provenance: " ++ detail
journal_error_text (invalid_reservation detail) = "invalid reservation: " ++ detail
journal_error_text (invalid_delivery detail) = "invalid delivery event: " ++ detail
journal_error_text duplicate_record = "a Journal record id is duplicated"
journal_error_text sequence_zero = "journal_seq must start at 1, never zero"
journal_error_text sequence_gap = "journal_seq values must be unique and strictly contiguous"
journal_error_text sequence_overflow = "journal_seq overflow"
journal_error_text orphan_consumption = "risk consumption has no prior matching grant"
journal_error_text unsupported_warning_version = "risk grant uses an unsupported warning version"
journal_error_text consumption_mismatch = "risk consumption does not match its one-use grant"
journal_error_text consumption_not_adjacent =
    "risk consumption must be immediately followed by its matching Prepared event"
journal_error_text duplicate_consumption = "a one-use risk grant was consumed more than once"
journal_error_text ordinary_signing_blocked =
    "ordinary signing is blocked by prior unresolved delivery evidence"
journal_error_text grant_digest_mismatch =
    "risk grant digests do not match the replayed blocker/reservation/ticket/overlap state"
journal_error_text (digest_failed error) = "journal digest failed: " ++ digest_error_text error

abbrev pub Journaled {ℓ} : Type ℓ → Type ℓ
Journaled A = Outcome JournalError A

-- `?` on a digest: `From<DigestError>`
abbrev pub from_digest {ℓ} : {A : Type ℓ} → Outcome DigestError A → Journaled A
from_digest (ok a) = ok a
from_digest (err e) = err (digest_failed e)
from_digest panic = panic
